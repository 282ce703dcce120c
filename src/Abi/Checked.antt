-- ===== src/Abi/Checked.antt =====
-- What reaches the compositor thread through the entry points of src/lib.rs, and what they write.
use ihs_wl_server.Prelude.{
  zero, ℕ, suc, ◌≤◌, ◌<◌, ◌≡◌, refl, ◌⊎◌, inl, inr, Bool, true, false, not, ◌&&◌, ◌||◌, List, [],
  ◌∷◌, ◌++◌, Option, none, some, ◌==◌, ltb, leb, length, length-append, take, min, arith,
  Bool-cases, Option-cases, ap, sym, ◌∙◌, ◌≢◌, ltb→lt,
}
use ihs_wl_server.Lifecycle.{
  Code, ok, invalid, already_running, not_running, io, internal, unsupported, too_small,
}
use ihs_wl_server.Abi.{
  Float, not_finite, negative, nought, positive, Reply, code, value, reply_with, is_finite,
  is_negative, PointerEvent, TouchEvent, Cmd, pointer, touch, key, focus, view_close,
  view_capabilities, view_state, view_request_size, sized, Answer, refuse, max_pointer_kind,
  max_touch_kind, key_max, capability_all, window_state_all, ihs_wl_pointer, ihs_wl_touch,
  ihs_wl_key, ihs_wl_focus, ihs_wl_view_close, ihs_wl_view_capabilities, ihs_wl_view_state,
  ihs_wl_view_size, code_value, ihs_wl_activation_token, copy_str,
}

-- A call of an entry point, with the size that it expects of its struct; `cursor` is the cursor as it is.
pub data Call : Type 0 where
  pointers : (cursor size_of view : ℕ) → Option (ℕ × PointerEvent) → Call
  touches : (size_of view : ℕ) → Option (ℕ × TouchEvent) → Call
  keys : (view evdev pressed time_us : ℕ) → Call
  focuses : (view focused : ℕ) → Call
  closes : (view : ℕ) → Call
  handles : (view capabilities : ℕ) → Call
  grants : (view state : ℕ) → Call
  asks : (view : ℕ) → (width height : Float) → Call

unfoldable pub enter : Code → Call → Answer
enter server (pointers cursor size_of view ev) = ihs_wl_pointer server cursor size_of view ev
enter server (touches size_of view ev) = ihs_wl_touch server size_of view ev
enter server (keys view evdev pressed time_us) = ihs_wl_key server view evdev pressed time_us
enter server (focuses view focused) = ihs_wl_focus server view focused
enter server (closes view) = ihs_wl_view_close server view
enter server (handles view capabilities) = ihs_wl_view_capabilities server view capabilities
enter server (grants view state) = ihs_wl_view_state server view state
enter server (asks view width height) = ihs_wl_view_size server view width height

-- The command that a call with valid arguments stands for: a struct that is there and as long as it must
-- be, known kinds, finite positions, bits and codes in range, and a size that is nothing or positive.
abbrev pub Sends : Call → Cmd → Type 0
Sends (pointers cursor size_of view none) c = ⊥
Sends (pointers cursor size_of view (some (size, e))) c =
    (size_of ≤ size)
    × (e.kind ≤ 4)
    × (is_finite e.x ≡ true)
    × (is_finite e.y ≡ true)
    × (is_finite e.axis_x ≡ true)
    × (is_finite e.axis_y ≡ true)
    × (c ≡ pointer view e)
Sends (touches size_of view none) c = ⊥
Sends (touches size_of view (some (size, e))) c =
    (size_of ≤ size)
    × (e.kind ≤ 4)
    × (is_negative e.slot ≡ false)
    × (is_finite e.x ≡ true)
    × (is_finite e.y ≡ true)
    × (c ≡ touch view e)
Sends (keys view evdev pressed time_us) c =
    (evdev ≤ 767) × (c ≡ key view evdev (not (pressed == 0)) time_us)
Sends (focuses view focused) c = c ≡ focus view (not (focused == 0))
Sends (closes view) c = c ≡ view_close view
Sends (handles view capabilities) c = (capabilities ≤ 7) × (c ≡ view_capabilities view capabilities)
Sends (grants view state) c = (state ≤ 3) × (c ≡ view_state view state)
Sends (asks view width height) c =
    ((width ≡ nought) × (height ≡ nought) × (c ≡ view_request_size view none))
    ⊎ ((width ≡ positive)
        × (height ≡ positive)
        × (c ≡ view_request_size view (some (positive, positive))))

-- What is returned for a command: a pointer event gets the cursor, unless the server failed.
abbrev pub reply_to : Code → Call → Reply
reply_to server (pointers cursor size_of view ev) = reply_with server cursor
reply_to server _ = code server

-- The call's command is sent, or it has none and is refused.
abbrev pub Passes : Code → Call → Answer → Type 0
Passes server call a =
    ((c : Cmd) × Sends call c × (a ≡ (c ∷ [], reply_to server call)))
    ⊎ (((c : Cmd) → Sends call c → ⊥) × (a ≡ refuse))

neither :
    {w h : Float} {A B : Type 0}
    → (w ≡ nought) × (h ≡ nought) × A ⊎ (w ≡ positive) × (h ≡ positive) × B
    → (w ≡ h → ⊥)
    → ⊥
neither (inl (a, b, c)) differ = differ (a ∙ sym b)
neither (inr (a, b, c)) differ = differ (a ∙ sym b)

asks-Passes :
    (server : Code) (view : ℕ) (w h : Float)
    → Passes server (asks view w h) (ihs_wl_view_size server view w h)
unfolding ihs_wl_view_size
asks-Passes server view not_finite not_finite =
    inr (λ c s. elim s [ inl (a, b, d) ↦ cc | inr (a, b, d) ↦ cc ], refl)
asks-Passes server view not_finite negative = inr (λ c s. neither s (λ e. cc), refl)
asks-Passes server view not_finite nought = inr (λ c s. neither s (λ e. cc), refl)
asks-Passes server view not_finite positive = inr (λ c s. neither s (λ e. cc), refl)
asks-Passes server view negative not_finite = inr (λ c s. neither s (λ e. cc), refl)
asks-Passes server view negative negative =
    inr (λ c s. elim s [ inl (a, b, d) ↦ cc | inr (a, b, d) ↦ cc ], refl)
asks-Passes server view negative nought = inr (λ c s. neither s (λ e. cc), refl)
asks-Passes server view negative positive = inr (λ c s. neither s (λ e. cc), refl)
asks-Passes server view nought not_finite = inr (λ c s. neither s (λ e. cc), refl)
asks-Passes server view nought negative = inr (λ c s. neither s (λ e. cc), refl)
asks-Passes server view nought nought =
    inl (view_request_size view none, inl (refl, refl, refl), refl)
asks-Passes server view nought positive = inr (λ c s. neither s (λ e. cc), refl)
asks-Passes server view positive not_finite = inr (λ c s. neither s (λ e. cc), refl)
asks-Passes server view positive negative = inr (λ c s. neither s (λ e. cc), refl)
asks-Passes server view positive nought = inr (λ c s. neither s (λ e. cc), refl)
asks-Passes server view positive positive =
    inl (view_request_size view (some (positive, positive)), inr (refl, refl, refl), refl)

-- Each entry point enqueues the one command that its arguments stand for and answers what the server
-- does, or for a pointer event the cursor; or, if they are not valid, refuses them with `invalid` and
-- enqueues nothing.
pub enter-Passes : (server : Code) (c : Call) → Passes server c (enter server c)
unfolding enter ihs_wl_pointer ihs_wl_touch ihs_wl_key ihs_wl_focus ihs_wl_view_close
    ihs_wl_view_capabilities ihs_wl_view_state sized
enter-Passes server (pointers cursor size_of view none) = inr (λ c s. s, refl)
enter-Passes server (pointers cursor size_of view (some (size, p))) =
    elim (Bool-cases (ltb size size_of)) [
      | inl e ↦ inr (λ c s. absurd (omega (arith, ltb→lt size size_of e, s.0)), ground (arith, e))
      | inr e ↦
          elim (Bool-cases (
            ltb max_pointer_kind p.kind
            || not (is_finite p.x && is_finite p.y && is_finite p.axis_x && is_finite p.axis_y))) [
              | inl f ↦ inr (
                λ c s. absurd (ground (arith, f, s.0, s.1, s.2, s.3, s.4, s.5)),
                ground (arith, e, f),
              )
              | inr f ↦ inl (
                pointer view p,
                (
                  ground (arith, e),
                  ground (arith, f),
                  ground (arith, f),
                  ground (arith, f),
                  ground (arith, f),
                  ground (arith, f),
                  refl,
                ),
                ground (arith, e, f),
              )
            ]
    ]
enter-Passes server (touches size_of view none) = inr (λ c s. s, refl)
enter-Passes server (touches size_of view (some (size, p))) = elim (Bool-cases (ltb size size_of)) [
  | inl e ↦ inr (λ c s. absurd (omega (arith, ltb→lt size size_of e, s.0)), ground (arith, e))
  | inr e ↦
      elim (Bool-cases (
        ltb max_touch_kind p.kind
        || is_negative p.slot
        || not (is_finite p.x)
        || not (is_finite p.y))) [
          | inl f ↦
              inr (λ c s. absurd (ground (arith, f, s.0, s.1, s.2, s.3, s.4)), ground (arith, e, f))
          | inr f ↦ inl (
            touch view p,
            (
              ground (arith, e),
              ground (arith, f),
              ground (arith, f),
              ground (arith, f),
              ground (arith, f),
              refl,
            ),
            ground (arith, e, f),
          )
        ]
]
enter-Passes server (keys view evdev pressed time_us) = elim (Bool-cases (ltb key_max evdev)) [
  | inl f ↦ inr (λ c s. absurd (ground (arith, f, s.0)), ground (arith, f))
  | inr f ↦
      inl
        (key view evdev (not (pressed == 0)) time_us, (ground (arith, f), refl), ground (arith, f))
]
enter-Passes server (focuses view focused) = inl (focus view (not (focused == 0)), refl, refl)
enter-Passes server (closes view) = inl (view_close view, refl, refl)
enter-Passes server (handles view capabilities) =
    elim (Bool-cases (ltb capability_all capabilities)) [
      | inl f ↦ inr (λ c s. absurd (ground (arith, f, s.0)), ground (arith, f))
      | inr f ↦
          inl (view_capabilities view capabilities, (ground (arith, f), refl), ground (arith, f))
    ]
enter-Passes server (grants view state) = elim (Bool-cases (ltb window_state_all state)) [
  | inl f ↦ inr (λ c s. absurd (ground (arith, f, s.0)), ground (arith, f))
  | inr f ↦ inl (view_state view state, (ground (arith, f), refl), ground (arith, f))
]
enter-Passes server (asks view w h) = asks-Passes server view w h

shorter : (n : ℕ) → n ≤ 255 → min n 255 ≡ n
shorter n h = omega arith

take-all : (xs : List ℕ) → take (length xs) xs ≡ xs
take-all [] = refl
take-all (x ∷ xs) = ap (◌∷◌ x) (take-all xs)

length-take-le : (n : ℕ) (xs : List ℕ) → length (take n xs) ≤ n
length-take-le zero xs = omega arith
length-take-le (suc n) [] = omega arith
length-take-le (suc n) (x ∷ xs) = omega (arith, length-take-le n xs)

-- An identity is written whole, with its NUL, if it is no longer than the 255 bytes that the server
-- admits; whatever it is, no more than 256 bytes are written.
copy_str_lem :
    (bytes : List ℕ)
    → (length (copy_str (some bytes)) ≤ 256)
      × (length bytes ≤ 255 → copy_str (some bytes) ≡ bytes ++ 0 ∷ [])
unfolding copy_str
copy_str_lem bytes = (
  omega (
    arith,
    length-append {0} (take (min (length bytes) 255) bytes) (0 ∷ []),
    length-take-le (min (length bytes) 255) bytes,
  ),
  λ fits. rw (shorter (length bytes) fits, take-all) refl,
)

ltb_of : (a b : ℕ) → leb a b ≡ false → b < a
ltb_of a b h = ground arith

code_value-ok :
    (server : Code) → (server ≡ ok) ⊎ (((code_value server == 0) ≡ false) × (server ≢ ok))
unfolding code_value
code_value-ok ok = inl refl
code_value-ok invalid = inr (refl, λ e. cc)
code_value-ok already_running = inr (refl, λ e. cc)
code_value-ok not_running = inr (refl, λ e. cc)
code_value-ok io = inr (refl, λ e. cc)
code_value-ok internal = inr (refl, λ e. cc)
code_value-ok unsupported = inr (refl, λ e. cc)
code_value-ok too_small = inr (refl, λ e. cc)

-- Either the buffer is there, the server took the command and a token came that fits with its NUL: then
-- both are written, and the token's length is returned. Or one of these does not hold: then nothing is
-- written, and an error is returned.
pub ihs_wl_activation_token_lem :
    (server : Code) (out : Bool) (room : ℕ) (reply : Option (List ℕ))
    → let r = ihs_wl_activation_token server out room reply in
      ((token : List ℕ) × (out ≡ true)
        × (server ≡ ok)
        × (reply ≡ some token)
        × (length token < room)
        × (r ≡ (some (token ++ 0 ∷ []), value (length token))))
      ⊎ ((error : Code) × (r ≡ (none, code error))
          × (error ≢ ok)
          × ((out ≡ false)
              ⊎ (server ≢ ok)
              ⊎ (reply ≡ none)
              ⊎ ((token : List ℕ) × (reply ≡ some token) × (room ≤ length token))))
unfolding ihs_wl_activation_token code_value
ihs_wl_activation_token_lem server out room reply = elim (Bool-cases out) [
  | inr o ↦ inr (invalid, ground (arith, o), λ e. cc, inl o)
  | inl o ↦ elim (code_value-ok server) [
    | inr (c, d) ↦ inr (server, ground (arith, o, c), d, inr (inl d))
    | inl c ↦
        let taken : (code_value server == 0) ≡ true = rw c refl in
        elim (Option-cases reply) [
          | inl r ↦ inr (internal, ground (arith, o, taken, r), λ e. cc, inr (inr (inl r)))
          | inr (token, r) ↦ elim (Bool-cases (leb room (length token))) [
            | inl l ↦ inr (
              too_small,
              ground (arith, o, taken, r, l),
              λ e. cc,
              inr (inr (inr (token, r, ground (arith, l)))),
            )
            | inr l ↦
                inl (token, o, c, r, ltb_of room (length token) l, ground (arith, o, taken, r, l))
          ]
        ]
  ]
]
