-- ===== src/Input/Follows.antt =====
-- The keyboard follows the focused view of src/input.rs.
use ihs_wl_server.Prelude.{
  ℕ, ◌≡◌, ◌⊎◌, refl, ap, ◌∙◌, Bool, true, false, not, ◌&&◌, List, [], ◌∷◌, Option, none, some,
  Bool-cases, inl, inr, ◌==◌, ==_iff, ==_refl, if◌then◌else◌, contains, arith,
}
use ihs_wl_server.Binding.{option_eq}
use ihs_wl_server.Dialogs.{Sizes, keyboard_target}
use ihs_wl_server.Input.{option_eq→eq}
use ihs_wl_server.Input.Keys.{
  intercept, KeyboardHandle, without, IsLawful, Seat, release_each, refresh_keyboard_focus,
  moved_focus, focus_input,
}

contains-without :
    (key a : ℕ) (keys : List ℕ)
    → contains (without key keys) a ≡ (contains keys a && not (a == key))
contains-without key a [] = refl
contains-without key a (k ∷ keys) =
    ground (arith, contains-without key a keys, ==_iff k a, ==_iff a key, ==_iff k key)

abbrev pub unless_none : Bool → ℕ → Option ℕ
unless_none true view = some view
unless_none false view = none

module _ {K : Type 0} (h : KeyboardHandle K) (law : IsLawful h) where
  -- Every key that is pressed is among the ones to release.
  release_each-pressed :
      (keys : List ℕ) (k : K)
      → ((a : ℕ) → contains (h.pressed_keys k) a ≡ true → contains keys a ≡ true)
      → h.pressed_keys (release_each h keys k) ≡ []
  unfolding release_each
  release_each-pressed [] k among = none_left (h.pressed_keys k) among
    where
      none_left : (l : List ℕ) → ((a : ℕ) → contains l a ≡ true → false ≡ true) → l ≡ []
      none_left [] g = refl
      none_left (a ∷ l) g = absurd (ground (arith, g a, ==_refl a))
  release_each-pressed (key ∷ keys) k among =
      release_each-pressed keys (h.input key false 0 intercept k) λ a e. ground (
        arith,
        e,
        law.release key 0 intercept k,
        ap (λ l. contains l a) (law.release key 0 intercept k),
        contains-without key a (h.pressed_keys k),
        among a,
        ==_iff a key,
        ==_iff key a,
      )

  release_each-sent : (keys : List ℕ) (k : K) → h.sent (release_each h keys k) ≡ h.sent k
  unfolding release_each
  release_each-sent [] k = refl
  release_each-sent (key ∷ keys) k =
      release_each-sent keys (h.input key false 0 intercept k) ∙ law.intercepted key 0 false k

  -- The keyboard after the focused view changed: it holds no key, its clients were told of none, and
  -- its focus is what that view shows on top.
  abbrev pub IsMoved : Sizes → Option ℕ → Seat K → Option K → Type 0
  IsMoved sizes view d none = d.keyboard ≡ none
  IsMoved sizes view d (some k') =
      (k : K) × (d.keyboard ≡ some k)
      × (h.pressed_keys k' ≡ [])
      × (h.sent k' ≡ h.sent k)
      × ((h.is_grabbed k' ≡ true)
          ⊎ (h.current_focus k' ≡ keyboard_target sizes (record d.server { focused = view })))

  point-pressed :
      (t : Option ℕ) (k : K) (keys : List ℕ)
      → h.pressed_keys k ≡ keys
      → h.pressed_keys (if option_eq (h.current_focus k) t then k else h.set_focus t k) ≡ keys
  point-pressed t k keys e = ground (arith, e, law.focus_keys t k)

  point-sent :
      (t : Option ℕ) (k : K)
      → h.sent (if option_eq (h.current_focus k) t then k else h.set_focus t k) ≡ h.sent k
  point-sent t k = ground (arith, law.focus_sent t k)

  point-focus :
      (t : Option ℕ) (k : K)
      → let k' = if option_eq (h.current_focus k) t then k else h.set_focus t k in
        (h.is_grabbed k' ≡ true) ⊎ (h.current_focus k' ≡ t)
  point-focus t k =
      let k' = if option_eq (h.current_focus k) t then k else h.set_focus t k in
      elim (Bool-cases (h.is_grabbed k')) [
        | inl e ↦ inl e
        | inr e ↦ inr (ground (arith, e, law.focused t k, option_eq→eq (h.current_focus k) t))
      ]

  moved_focus-IsMoved :
      (sizes : Sizes) (view : Option ℕ) (d : Seat K)
      → IsMoved sizes view d (moved_focus h sizes view d).0.keyboard
  unfolding moved_focus refresh_keyboard_focus
  moved_focus-IsMoved sizes view d = go d.keyboard
    where
      go :
          (o : Option K)
          → IsMoved sizes view
              (record d { keyboard = o })
              (moved_focus h sizes view (record d { keyboard = o })).0.keyboard
      go none = refl
      go (some k) =
          let t = keyboard_target sizes (record d.server { focused = view }) in
          let r = release_each h (h.pressed_keys k) k in
          (
            k,
            refl,
            point-pressed t r [] (release_each-pressed (h.pressed_keys k) k (λ a e. e)),
            point-sent t r ∙ release_each-sent (h.pressed_keys k) k,
            point-focus t r,
          )

  moved_focus-server :
      (sizes : Sizes) (view : Option ℕ) (d : Seat K)
      → (moved_focus h sizes view d).0.server ≡ record d.server { focused = view }
  unfolding moved_focus refresh_keyboard_focus
  moved_focus-server sizes view d = refl

  -- A view that loses or gains the focus takes it: the keyboard then holds no key, since their releases
  -- will not come here, no client was told of that, and without a grab the keyboard has what is on top of
  -- the focused view, or nothing. A focus that is no change, another view's loss too, changes nothing.
  pub focus_input_follows :
      (sizes : Sizes) (view : ℕ) (focused : Bool) (d : Seat K)
      → let d' = (focus_input h sizes view focused d).0 in
        let had = option_eq d.server.focused (some view) in
        ((had ≡ focused) × (d' ≡ d))
        ⊎ ((had ≡ not focused)
            × (d'.server ≡ record d.server { focused = unless_none focused view })
            × IsMoved sizes (unless_none focused view) d d'.keyboard)
  unfolding focus_input
  focus_input_follows sizes view true d =
      elim (Bool-cases (option_eq d.server.focused (some view))) [
        | inl e ↦ inl (e, ground (arith, e))
        | inr e ↦ inr (
            rw e (
              refl,
              moved_focus-server sizes (some view) d,
              moved_focus-IsMoved sizes (some view) d,
            ))
      ]
  focus_input_follows sizes view false d =
      elim (Bool-cases (option_eq d.server.focused (some view))) [
        | inl e ↦
            inr (rw e (refl, moved_focus-server sizes none d, moved_focus-IsMoved sizes none d))
        | inr e ↦ inl (e, ground (arith, e))
      ]
