-- ===== src/Input/Keys.antt =====
-- src/input.rs: keys, and the view that has them. The keyboard is the protocol library's: an interface,
-- with the laws that the code relies on. A keyboard's focus is named by its toplevel, as the windows are.
use ihs_wl_server.Prelude.{
  ℕ, ◌+◌, ◌≡◌, Bool, false, not, List, [], ◌∷◌, Option, none, some, ◌==◌, if◌then◌else◌, retain,
}
use ihs_wl_server.Binding.{Server, option_eq}
use ihs_wl_server.Dialogs.{Sizes, keyboard_target}
use ihs_wl_server.Input.{time_ms}

abbrev pub xkb_offset : ℕ
xkb_offset = 8

-- `FilterResult`: whether the focused client is told.
pub data Filter : Type 0 where
  forward intercept : Filter

-- `sent` is what clients were told of keys, for the laws.
pub record KeyboardHandle (K : Type 0) : Type 0 where
  pub input : (key : ℕ) → (pressed : Bool) → (time : ℕ) → Filter → K → K
  pub set_focus : Option ℕ → K → K
  pub pressed_keys : K → List ℕ
  pub current_focus : K → Option ℕ
  pub is_grabbed : K → Bool
  pub sent : K → List (ℕ × Bool)

abbrev pub without : ℕ → List ℕ → List ℕ
without key = retain λ k. not (k == key)

-- With no grab, the focus is what was set.
pub record IsLawful {K : Type 0} (h : KeyboardHandle K) : Type 0 where
  pub release :
      (key time : ℕ) (f : Filter) (k : K)
      → h.pressed_keys (h.input key false time f k) ≡ without key (h.pressed_keys k)
  pub intercepted :
      (key time : ℕ) (pressed : Bool) (k : K)
      → h.sent (h.input key pressed time intercept k) ≡ h.sent k
  pub focused :
      (f : Option ℕ) (k : K)
      → h.is_grabbed (h.set_focus f k) ≡ false
      → h.current_focus (h.set_focus f k) ≡ f
  pub focus_keys : (f : Option ℕ) (k : K) → h.pressed_keys (h.set_focus f k) ≡ h.pressed_keys k
  pub focus_sent : (f : Option ℕ) (k : K) → h.sent (h.set_focus f k) ≡ h.sent k

-- No keyboard when no keymap compiles.
pub record Seat (K : Type 0) : Type 0 where
  pub server : Server
  pub keyboard : Option K

pub data Effect : Type 0 where
  dismiss_popups : (view : ℕ) → Effect
  sync_states : Effect

module _ {K : Type 0} (h : KeyboardHandle K) where
  unfoldable pub key_input : (view evdev : ℕ) → (pressed : Bool) → (time_us : ℕ) → Seat K → Seat K
  key_input view evdev pressed time_us d =
      if not (option_eq d.server.focused (some view)) then d else elim d.keyboard [
        | none ↦ d
        | some k ↦ record d {
          keyboard = some (h.input (evdev + xkb_offset) pressed (time_ms time_us) forward k);
        }
      ]

  unfoldable pub release_each : List ℕ → K → K
  release_each [] k = k
  release_each (key ∷ keys) k = release_each keys (h.input key false 0 intercept k)

  abbrev pub release_keys : Option K → Option K
  release_keys none = none
  release_keys (some k) = some (release_each (h.pressed_keys k) k)

  abbrev pub point_keyboard : Option ℕ → Option K → Option K
  point_keyboard target none = none
  point_keyboard target (some k) =
      some (if option_eq (h.current_focus k) target then k else h.set_focus target k)

  unfoldable pub refresh_keyboard_focus : Sizes → Seat K → Seat K × List Effect
  refresh_keyboard_focus sizes d = (
    record d { keyboard = point_keyboard (keyboard_target sizes d.server) d.keyboard },
    sync_states ∷ [],
  )

  -- The end of `focus_input`, once the focused view changed.
  unfoldable pub moved_focus : Sizes → Option ℕ → Seat K → Seat K × List Effect
  moved_focus sizes view d =
      refresh_keyboard_focus sizes
        (record { server = record d.server { focused = view }; keyboard = release_keys d.keyboard })

  unfoldable pub focus_input : Sizes → (view : ℕ) → (focused : Bool) → Seat K → Seat K × List Effect
  focus_input sizes view focused d =
      let had = option_eq d.server.focused (some view) in
      if focused
      then (if had then (d, []) else moved_focus sizes (some view) d)
      else if had
      then (let (d', effects) = moved_focus sizes none d in (d', dismiss_popups view ∷ effects))
      else (d, [])
