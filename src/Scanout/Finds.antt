-- ===== src/Scanout/Finds.antt =====
-- Finding a surface's entry of src/scanout.rs, after entries were dropped and added.
use ihs_wl_server.Prelude.{
  ℕ, ◌+◌, ◌≤◌, ◌≡◌, refl, ap, ◌∙◌, inl, inr, Bool, true, false, not, ◌&&◌, List, [], ◌∷◌, ◌++◌,
  Option, none, some, ◌==◌, if◌then◌else◌, retain, any, contains, lookup, option_map, arith, ==_iff,
  Bool-cases, lookup-modify,
}
use ihs_wl_server.Scanout.{Hinted, Scanout, find_hinted, set_feedback, forget_each, tell}

gone_same :
    (gone : List ℕ) (r s : ℕ) → (r == s) ≡ true → contains gone s ≡ false → contains gone r ≡ false
gone_same gone r s e h =
    let same : r ≡ s = ground (arith, e, ==_iff r s) in ap (contains gone) same ∙ h

module _ {F : Type 0} where
  abbrev pub entries : ℕ → List (Hinted F) → ℕ
  entries s [] = 0
  entries s (e ∷ es) = (if e.surface == s then 1 else 0) + entries s es

  abbrev pub orelse : Option F → Option F → Option F
  orelse none b = b
  orelse (some a) b = some a

  pub find-append :
      (s : ℕ) (left right : List (Hinted F))
      → find_hinted s (left ++ right) ≡ orelse (find_hinted s left) (find_hinted s right)
  find-append s [] right = refl
  find-append s (e ∷ left) right = ground (arith, find-append s left right)

  pub entries-append :
      (s : ℕ) (left right : List (Hinted F))
      → entries s (left ++ right) ≡ entries s left + entries s right
  entries-append s [] right = omega arith
  entries-append s (e ∷ left) right = omega (arith, entries-append s left right)

  pub find-none : (s : ℕ) (es : List (Hinted F)) → entries s es ≡ 0 → find_hinted s es ≡ none
  find-none s [] h = refl
  find-none s (e ∷ es) h = ground (arith, find-none s es, h)

  pub entries-retain-le :
      (s : ℕ) (p : Hinted F → Bool) (es : List (Hinted F)) → entries s (retain p es) ≤ entries s es
  entries-retain-le s p [] = omega arith
  entries-retain-le s p (e ∷ es) = ground (arith, entries-retain-le s p es)

  -- A surface that is not gone is found whether or not those that are gone are kept.
  pub find-alive :
      (s : ℕ) (gone : List ℕ) (es : List (Hinted F))
      → contains gone s ≡ false
      → find_hinted s (retain (λ (e : Hinted F). not (contains gone e.surface)) es)
        ≡ find_hinted s es
  find-alive s gone [] h = refl
  find-alive s gone (e ∷ es) h = elim (Bool-cases (e.surface == s)) [
    | inl eq ↦ let same = gone_same gone e.surface s eq h in ground (arith, eq, same)
    | inr eq ↦ ground (arith, eq, find-alive s gone es h)
  ]

  pub find-kept :
      (s t : ℕ) (gone : List ℕ) (es : List (Hinted F))
      → contains gone s ≡ false
      → find_hinted s
          (retain (λ (e : Hinted F). not (contains gone e.surface) && not (e.surface == t)) es)
        ≡ (if t == s then none else find_hinted s es)
  find-kept s t gone [] h = ground arith
  find-kept s t gone (e ∷ es) h = elim (Bool-cases (e.surface == s)) [
    | inl eq ↦
        let same = gone_same gone e.surface s eq h in
        ground (
          arith,
          eq,
          same,
          find-kept s t gone es h,
          ==_iff e.surface s,
          ==_iff t s,
          ==_iff e.surface t,
        )
    | inr eq ↦ ground (arith, eq, find-kept s t gone es h)
  ]

  pub entries-kept :
      (t : ℕ) (gone : List ℕ) (es : List (Hinted F))
      → entries t
          (retain (λ (e : Hinted F). not (contains gone e.surface) && not (e.surface == t)) es)
        ≡ 0
  entries-kept t gone [] = refl
  entries-kept t gone (e ∷ es) = ground (arith, entries-kept t gone es)

  abbrev pub in_view : (s view : ℕ) → Hinted F → Bool
  in_view s view e = e.surface == s && e.view == view

  abbrev pub elsewhere : (view : ℕ) → Hinted F → Bool
  elsewhere view e = not (e.view == view)

  none-in_view :
      (s view : ℕ) (es : List (Hinted F)) → entries s es ≡ 0 → any (in_view s view) es ≡ false
  none-in_view s view [] h = refl
  none-in_view s view (e ∷ es) h = ground (arith, none-in_view s view es, h)

  pub find-elsewhere :
      (s view : ℕ) (es : List (Hinted F))
      → entries s es ≤ 1
      → find_hinted s (retain (elsewhere view) es)
        ≡ (if any (in_view s view) es then none else find_hinted s es)
  find-elsewhere s view [] h = refl
  find-elsewhere s view (e ∷ es) h = elim (Bool-cases (e.surface == s)) [
    | inl eq ↦
        let only : entries s es ≡ 0 = ground (arith, eq, h) in
        ground (
          arith,
          eq,
          none-in_view s view es only,
          find-elsewhere s view es (omega (arith, only)),
          find-none s es only,
        )
    | inr eq ↦ ground (arith, eq, find-elsewhere s view es (ground (arith, eq, h)))
  ]

  module _ (d : F) (view : ℕ) where
    pub forget_each-hinted :
        (es : List (Hinted F)) (w : Scanout F)
        → (forget_each d view es w).hinted ≡ retain (elsewhere view) es
    unfolding forget_each
    forget_each-hinted [] w = refl
    forget_each-hinted (e ∷ es) w =
        let told =
          if e.view == view && not (contains w.gone e.surface)
          then set_feedback e.surface d w
          else w in
        ground (arith, forget_each-hinted es told)

    pub forget_each-last :
        (es : List (Hinted F)) (w : Scanout F) → (forget_each d view es w).last ≡ w.last
    unfolding forget_each
    forget_each-last [] w = refl
    forget_each-last (e ∷ es) w =
        let told =
          if e.view == view && not (contains w.gone e.surface)
          then set_feedback e.surface d w
          else w in
        ground (arith, forget_each-last es told)

    pub forget_each-gone :
        (es : List (Hinted F)) (w : Scanout F) → (forget_each d view es w).gone ≡ w.gone
    unfolding forget_each
    forget_each-gone [] w = refl
    forget_each-gone (e ∷ es) w =
        let told =
          if e.view == view && not (contains w.gone e.surface)
          then set_feedback e.surface d w
          else w in
        ground (arith, forget_each-gone es told)

    tell-told :
        (s : ℕ) (e : Hinted F) (w : Scanout F)
        → contains w.gone s ≡ false
        → lookup s (tell d view e w).told
          ≡ (if in_view s view e then option_map (λ f. d) (lookup s w.told) else lookup s w.told)
    tell-told s e w h = elim (Bool-cases (e.surface == s)) [
      | inl eq ↦
          ground (
            arith,
            eq,
            gone_same w.gone e.surface s eq h,
            lookup-modify s e.surface (λ f. d) w.told,
          )
      | inr eq ↦ ground (arith, eq, lookup-modify s e.surface (λ f. d) w.told)
    ]

    option_map-again :
        (o : Option F) → option_map (λ f. d) (option_map (λ f. d) o) ≡ option_map (λ f. d) o
    option_map-again none = refl
    option_map-again (some f) = refl

    pub forget_each-told :
        (s : ℕ) (es : List (Hinted F)) (w : Scanout F)
        → contains w.gone s ≡ false
        → lookup s (forget_each d view es w).told ≡ (
            if any (in_view s view) es
            then option_map (λ f. d) (lookup s w.told)
            else lookup s w.told)
    unfolding forget_each
    forget_each-told s [] w h = refl
    forget_each-told s (e ∷ es) w h =
        let alive : contains (tell d view e w).gone s ≡ false = ground (arith, h) in
        ground (
          arith,
          forget_each-told s es (tell d view e w) alive,
          tell-told s e w h,
          option_map-again (lookup s w.told),
        )
