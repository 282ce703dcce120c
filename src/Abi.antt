-- ===== src/Abi.antt =====
-- The C entry points of src/lib.rs: what they check before they pass a command on. A float is given as
-- whether it is finite and its sign; a struct as its `struct_size` and fields, or NULL; the server is
-- what `send` answers. `guard` maps errors to codes and records their message.
pub mod Checked
use ihs_wl_server.Prelude.{
  ℕ, suc, ◌+◌, ◌-◌, ◌%◌, Bool, true, false, not, ◌&&◌, ◌||◌, List, [], ◌∷◌, ◌++◌, Option, none,
  some, ◌==◌, ltb, leb, if◌then◌else◌, length, take, contains, min,
}
use ihs_wl_server.Lifecycle.{
  Code, ok, invalid, already_running, not_running, io, internal, unsupported, too_small,
}

-- `IhsWlResult` as a c_int: its negated value.
unfoldable pub code_value : Code → ℕ
code_value ok = 0
code_value invalid = 1
code_value already_running = 2
code_value not_running = 3
code_value io = 4
code_value internal = 5
code_value unsupported = 6
code_value too_small = 7

-- A float, as far as the checks look at it.
pub data Float : Type 0 where
  not_finite : Float
  negative : Float
  nought : Float
  positive : Float

abbrev pub is_finite : Float → Bool
is_finite not_finite = false
is_finite _ = true

abbrev pub is_zero : Float → Bool
is_zero nought = true
is_zero _ = false

abbrev pub is_size : Float → Bool
is_size nought = true
is_size positive = true
is_size _ = false

abbrev pub is_negative : Option ℕ → Bool
is_negative none = true
is_negative (some n) = false

pub record PointerEvent : Type 0 where
  pub kind : ℕ
  pub x : Float
  pub y : Float
  pub axis_x : Float
  pub axis_y : Float

-- `slot` is none when it is negative.
pub record TouchEvent : Type 0 where
  pub kind : ℕ
  pub slot : Option ℕ
  pub x : Float
  pub y : Float

-- The commands that the entry points enqueue.
pub data Cmd : Type 0 where
  pointer : (view : ℕ) → PointerEvent → Cmd
  touch : (view : ℕ) → TouchEvent → Cmd
  key : (view evdev : ℕ) → (pressed : Bool) → (time_us : ℕ) → Cmd
  focus : (view : ℕ) → (focused : Bool) → Cmd
  view_close : (view : ℕ) → Cmd
  view_capabilities : (view capabilities : ℕ) → Cmd
  view_state : (view state : ℕ) → Cmd
  view_request_size : (view : ℕ) → Option (Float × Float) → Cmd

-- An argument that starts with its `struct_size`: none is NULL.
unfoldable pub sized : {A : Type 0} → (size_of : ℕ) → Option (ℕ × A) → Option A
sized size_of none = none
sized size_of (some (size, a)) = if ltb size size_of then none else some a

-- What an entry point returns, a c_int: an error, or `ok`, by its code; or a value that is not negative.
pub data Reply : Type 0 where
  code : Code → Reply
  value : ℕ → Reply

-- What an entry point does: the commands it tried to enqueue, and what it returns.
abbrev pub Answer : Type 0
Answer = List Cmd × Reply

abbrev pub refuse : Answer
refuse = ([], code invalid)

abbrev pub send : (server : Code) → Cmd → Answer
send server c = (c ∷ [], code server)

-- The value, once the command was sent.
abbrev pub reply_with : Code → ℕ → Reply
reply_with ok n = value n
reply_with error n = code error

abbrev pub max_pointer_kind : ℕ
max_pointer_kind = 4

abbrev pub max_touch_kind : ℕ
max_touch_kind = 4

abbrev pub key_max : ℕ
key_max = 767

abbrev pub capability_all : ℕ
capability_all = 7

abbrev pub window_state_all : ℕ
window_state_all = 3

-- It returns the cursor that the client under the pointer asked for: 0 for none yet.
unfoldable pub ihs_wl_pointer :
    (server : Code) → (cursor size_of view : ℕ) → Option (ℕ × PointerEvent) → Answer
ihs_wl_pointer server cursor size_of view ev = elim (sized size_of ev) [
  | none ↦ refuse
  | some e ↦
      if ltb max_pointer_kind e.kind
        || not (is_finite e.x && is_finite e.y && is_finite e.axis_x && is_finite e.axis_y)
      then refuse
      else (pointer view e ∷ [], reply_with server cursor)
]

unfoldable pub ihs_wl_touch :
    (server : Code) → (size_of view : ℕ) → Option (ℕ × TouchEvent) → Answer
ihs_wl_touch server size_of view ev = elim (sized size_of ev) [
  | none ↦ refuse
  | some e ↦
      if ltb max_touch_kind e.kind
        || is_negative e.slot
        || not (is_finite e.x)
        || not (is_finite e.y)
      then refuse
      else send server (touch view e)
]

unfoldable pub ihs_wl_key : (server : Code) → (view evdev pressed time_us : ℕ) → Answer
ihs_wl_key server view evdev pressed time_us =
    if ltb key_max evdev then refuse else send server (key view evdev (not (pressed == 0)) time_us)

unfoldable pub ihs_wl_focus : (server : Code) → (view focused : ℕ) → Answer
ihs_wl_focus server view focused = send server (focus view (not (focused == 0)))

unfoldable pub ihs_wl_view_close : (server : Code) → (view : ℕ) → Answer
ihs_wl_view_close server view = send server (view_close view)

-- `capabilities & !CAPABILITY_ALL != 0`, of bits that start at 1.
unfoldable pub ihs_wl_view_capabilities : (server : Code) → (view capabilities : ℕ) → Answer
ihs_wl_view_capabilities server view capabilities =
    if ltb capability_all capabilities
    then refuse
    else send server (view_capabilities view capabilities)

unfoldable pub ihs_wl_view_state : (server : Code) → (view state : ℕ) → Answer
ihs_wl_view_state server view state =
    if ltb window_state_all state then refuse else send server (view_state view state)

-- `requested_size`, before rounding.
abbrev pub requested : Float → Float → Option (Float × Float)
requested positive positive = some (positive, positive)
requested _ _ = none

abbrev pub xor : Bool → Bool → Bool
xor true b = not b
xor false b = b

unfoldable pub ihs_wl_view_size : (server : Code) → (view : ℕ) → (width height : Float) → Answer
ihs_wl_view_size server view width height =
    if not (is_size width && is_size height) || xor (is_zero width) (is_zero height)
    then refuse
    else send server (view_request_size view (requested width height))

-- The socket name of a configuration: none is NULL, and what is not UTF-8 is refused before.
unfoldable pub parse_config :
    (is_utf8 : List ℕ → Bool)
    → (size_of : ℕ) → Option (ℕ × Option (List ℕ))
    → Option (Option (List ℕ))
parse_config is_utf8 size_of cfg = elim (sized size_of cfg) [
  | none ↦ none
  | some none ↦ some none
  | some (some name) ↦
      if not (is_utf8 name) || length name == 0 || contains name 47 then none else some (some name)
]

-- `ihs_wl_activation_token`: the bytes written, or none, and the token's length or an error; `out` may
-- be NULL, and the reply may not come.
unfoldable pub ihs_wl_activation_token :
    (server : Code) → (out : Bool) → (cap : ℕ) → Option (List ℕ) → Option (List ℕ) × Reply
ihs_wl_activation_token server out cap reply =
    if not out
    then (none, code invalid)
    else if not (code_value server == 0)
    then (none, code server)
    else elim reply [
      | none ↦ (none, code internal)
      | some token ↦
          if leb cap (length token)
          then (none, code too_small)
          else (some (token ++ 0 ∷ []), value (length token))
    ]

-- A string copied into 256 bytes: what is written from the start, its NUL included.
unfoldable pub copy_str : Option (List ℕ) → List ℕ
copy_str none = 0 ∷ []
copy_str (some bytes) = take (min (length bytes) 255) bytes ++ 0 ∷ []
