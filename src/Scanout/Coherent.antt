-- ===== src/Scanout/Coherent.antt =====
-- The feedback of src/scanout.rs over any history: what surfaces were told, and what was built last.
use mathlib.Core.Path.{subst}
use ihs_wl_server.Prelude.{
  ℕ, ◌≤◌, ◌≡◌, refl, ap, ◌∙◌, inl, inr, Bool, true, false, not, ◌&&◌, List, [], ◌∷◌, Option, none,
  some, ◌==◌, if◌then◌else◌, retain, contains, lookup, modify, arith, ==_iff, Bool-cases,
  Option-cases, lookup-modify,
}
use ihs_wl_server.Caps.{FormatModifier}
use ihs_wl_server.Scanout.{
  Host, Hint, Built, Hinted, Scanout, formats_eq, find_hinted, hinted_feedback, or_default,
  tranche_feedback, imported, cached, scanout_feedback, entry_of, hint_surface,
}
use ihs_wl_server.Scanout.Finds.{
  entries, find-append, entries-append, entries-retain-le, find-alive, find-kept, entries-kept,
}

same_formats : (fs gs : List FormatModifier) → formats_eq fs gs ≡ true → fs ≡ gs
same_formats [] [] e = refl
same_formats [] (g ∷ gs) e = cc
same_formats (f ∷ fs) [] e = cc
same_formats (f ∷ fs) (g ∷ gs) e =
    let codes : f.fourcc ≡ g.fourcc = ground (arith, e, ==_iff f.fourcc g.fourcc) in
    let modifiers : f.modifier ≡ g.modifier = ground (arith, e, ==_iff f.modifier g.modifier) in
    let heads : f ≡ g =
      ap (λ c. record { fourcc = c; modifier = f.modifier }) codes
      ∙ ap (λ m. record { fourcc = g.fourcc; modifier = m }) modifiers in
    let tails : fs ≡ gs = same_formats fs gs (ground (arith, e)) in cc

module _ {F : Type 0} (host : Host F) (main : ℕ) (d : F) where
  -- A surface has one entry at most; what it was told is what it would be told if it asked again; and
  -- what was built last is what would be built for it now.
  pub record IsCoherent (w : Scanout F) : Type 0 where
    pub once : (s : ℕ) → contains w.gone s ≡ false → entries s w.hinted ≤ 1
    pub told :
        (s : ℕ) (f : F)
        → contains w.gone s ≡ false
        → lookup s w.told ≡ some f
        → f ≡ or_default d (hinted_feedback s w)
    pub cache :
        (b : Built F)
        → w.last ≡ some b
        → b.feedback ≡ tranche_feedback host main b.dev (imported host b.hinted)

  -- The one that was built before is the one that would be built.
  cached_fresh :
      (w : Scanout F) (dev : ℕ) (hinted : List FormatModifier)
      → IsCoherent w
      → (cached host main dev hinted w.last).feedback
        ≡ tranche_feedback host main dev (imported host hinted)
  unfolding cached
  cached_fresh w dev hinted c = elim (Option-cases w.last) [
    | inl e ↦ rw e refl
    | inr (b, e) ↦ elim (Bool-cases (b.dev == dev && formats_eq b.hinted hinted)) [
      | inr f ↦ ground (arith, e, f)
      | inl f ↦
          let devs : b.dev ≡ dev = ground (arith, f, ==_iff b.dev dev) in
          let lists = same_formats b.hinted hinted (ground (arith, f)) in
          let eq : cached host main dev hinted w.last ≡ b = ground (arith, e, f) in
          ap (λ (x : Built F). x.feedback) eq
          ∙ c.cache b e
          ∙ ap (λ n. tranche_feedback host main n (imported host b.hinted)) devs
          ∙ ap (λ fs. tranche_feedback host main dev (imported host fs)) lists
    ]
  ]

  find-entry :
      (s t view : ℕ) (f : Option F)
      → find_hinted s (entry_of t view f) ≡ (if t == s then f else none)
  find-entry s t view none = ground arith
  find-entry s t view (some f) = ground arith

  entries-entry :
      (s t view : ℕ) (f : Option F) → entries s (entry_of t view f) ≤ (if t == s then 1 else 0)
  entries-entry s t view none = ground arith
  entries-entry s t view (some f) = ground arith

  -- What the surfaces would be told after a hint for the surface `t`.
  pub hint_surface-finds :
      (view : ℕ) (hint : Hint) (t s : ℕ) (w : Scanout F)
      → IsCoherent w
      → contains w.gone s ≡ false
      → hinted_feedback s (hint_surface host main d view hint t w) ≡ (
          if t == s
          then tranche_feedback host main hint.dev (imported host hint.formats)
          else hinted_feedback s w)
  unfolding hint_surface scanout_feedback hinted_feedback
  hint_surface-finds view hint t s w c alive =
      let w' = hint_surface host main d view hint t w in
      let fresh = cached_fresh w hint.dev hint.formats c in
      let feedback = (cached host main hint.dev hint.formats w.last).feedback in
      let kept =
        retain (λ (e : Hinted F). not (contains w.gone e.surface) && not (e.surface == t))
          w.hinted in
      find-alive s w.gone w'.hinted alive
      ∙ find-append s kept (entry_of t view feedback)
      ∙ ground (
        arith,
        fresh,
        find-kept s t w.gone w.hinted alive,
        find-entry s t view feedback,
        find-alive s w.gone w.hinted alive,
      )

  cached_own :
      (w : Scanout F) (dev : ℕ) (hinted : List FormatModifier)
      → IsCoherent w
      → let b = cached host main dev hinted w.last in
        b.feedback ≡ tranche_feedback host main b.dev (imported host b.hinted)
  unfolding cached
  cached_own w dev hinted c = elim (Option-cases w.last) [
    | inl e ↦ rw e refl
    | inr (b, e) ↦ elim (Bool-cases (b.dev == dev && formats_eq b.hinted hinted)) [
      | inr f ↦ rw (e, f) refl
      | inl f ↦ rw (e, f) (c.cache b e)
    ]
  ]

  -- What a surface was told, once it was told `g`.
  retold :
      (t s : ℕ) (g f : F) (told : List (ℕ × F))
      → lookup s (modify t (λ h. g) told) ≡ some f
      → (t == s) ≡ true
      → f ≡ g
  retold t s g f told e same = elim (Option-cases (lookup s told)) [
    | inl n ↦ ground (arith, e, same, n, lookup-modify s t (λ h. g) told)
    | inr (h, n) ↦ ground (arith, e, same, n, lookup-modify s t (λ h. g) told)
  ]

  not_retold :
      (t s : ℕ) (g f : F) (told : List (ℕ × F))
      → lookup s (modify t (λ h. g) told) ≡ some f
      → (t == s) ≡ false
      → lookup s told ≡ some f
  not_retold t s g f told e other = ground (arith, e, other, lookup-modify s t (λ h. g) told)

  pub hint_surface-IsCoherent :
      (view : ℕ) (hint : Hint) (t : ℕ) (w : Scanout F)
      → IsCoherent w
      → IsCoherent (hint_surface host main d view hint t w)
  unfolding hint_surface scanout_feedback
  hint_surface-IsCoherent view hint t w c =
      let feedback = (cached host main hint.dev hint.formats w.last).feedback in
      let fresh = cached_fresh w hint.dev hint.formats c in
      let keeps : Hinted F → Bool = λ e. not (contains w.gone e.surface) && not (e.surface == t) in
      record {
        once = λ s alive. ground (
          arith,
          entries-append s (retain keeps w.hinted) (entry_of t view feedback),
          entries-entry s t view feedback,
          entries-kept t w.gone w.hinted,
          entries-retain-le s keeps w.hinted,
          c.once s alive,
          ==_iff t s,
        );
        told = λ s f alive e.
            let finds = hint_surface-finds view hint t s w c alive in
            elim (Bool-cases (t == s)) [
              | inl same ↦
                  let now : f ≡ or_default d feedback =
                    retold t s (or_default d feedback) f w.told e same in
                  ground (arith, now, same, finds, fresh)
              | inr other ↦
                  let before : f ≡ or_default d (hinted_feedback s w) =
                    c.told s f alive (not_retold t s (or_default d feedback) f w.told e other) in
                  ground (arith, before, other, finds)
            ];
        cache = λ b e.
            let same : cached host main hint.dev hint.formats w.last ≡ b = cc in
            subst
              (λ (x : Built F).
                x.feedback ≡ tranche_feedback host main x.dev (imported host x.hinted))
              same (cached_own w hint.dev hint.formats c);
      }
