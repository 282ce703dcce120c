-- ===== src/Scanout/Runs.antt =====
-- Histories of src/scanout.rs: hints, views that are left, surfaces that ask for feedback or are destroyed.
use mathlib.Core.Path.{subst}
use ihs_wl_server.Prelude.{
  ℕ, ◌≡◌, sym, ap, ◌∙◌, inl, inr, false, List, [], ◌∷◌, Option, none, some, ◌==◌, if◌then◌else◌,
  any, contains, lookup, insert, arith, ==_iff, Bool-cases, Option-cases, lookup-insert,
  lookup-erase,
}
use ihs_wl_server.Caps.{FormatModifier}
use ihs_wl_server.Scanout.{
  Host, Hint, Scanout, layer_surface, find_hinted, hinted_feedback, or_default, forget_each, global,
  tranche_feedback, imported, hint_surface, hint_for, forget_for, answer_for, scanout_hint,
  forget_scanout, new_surface_feedback, surface_gone, no_scanout,
}
use ihs_wl_server.Scanout.Finds.{
  entries, entries-retain-le, find-alive, in_view, elsewhere, find-elsewhere, forget_each-hinted,
  forget_each-last, forget_each-gone, forget_each-told,
}
use ihs_wl_server.Scanout.Coherent.{IsCoherent, hint_surface-finds, hint_surface-IsCoherent}

-- What happens; a history is newest first.
pub data Event : Type 0 where
  hints : (view : ℕ) → Hint → List (List (ℕ × Option ℕ)) → Event
  leaves : (view : ℕ) → Event
  asks : ℕ → Event
  destroyed : ℕ → Event

module _ {F : Type 0} where
  unfoldable pub step : Host F → Event → Scanout F → Scanout F
  step host (hints view hint trees) w = scanout_hint host view hint trees w
  step host (leaves view) w = forget_scanout host view w
  step host (asks s) w = new_surface_feedback host s w
  step host (destroyed s) w = surface_gone s w

  unfoldable pub run : Host F → List Event → Scanout F
  unfolding step
  run host [] = no_scanout
  run host (e ∷ es) = step host e (run host es)

module _ {F : Type 0} (host : Host F) (main : ℕ) (d : F) where
  empty-IsCoherent : IsCoherent host main d no_scanout
  empty-IsCoherent = record {
    once = λ s alive. omega arith;
    told = λ s f alive e. cc;
    cache = λ b e. cc;
  }

  found_alive :
      (s : ℕ) (w : Scanout F)
      → contains w.gone s ≡ false
      → hinted_feedback s w ≡ find_hinted s w.hinted
  unfolding hinted_feedback
  found_alive s w alive = find-alive s w.gone w.hinted alive

  -- A surface of the view has the default again, the others what they had.
  forget_each-finds :
      (view s : ℕ) (w : Scanout F)
      → IsCoherent host main d w
      → contains w.gone s ≡ false
      → hinted_feedback s (forget_each d view w.hinted w)
        ≡ (if any (in_view s view) w.hinted then none else hinted_feedback s w)
  forget_each-finds view s w c alive =
      let w' = forget_each d view w.hinted w in
      found_alive s w' (ap (λ g. contains g s) (forget_each-gone d view w.hinted w) ∙ alive)
      ∙ ap (find_hinted s) (forget_each-hinted d view w.hinted w)
      ∙ find-elsewhere s view w.hinted (c.once s alive)
      ∙ ap (λ f. if any (in_view s view) w.hinted then none else f) (sym (found_alive s w alive))

  forget_each-IsCoherent :
      (view : ℕ) (w : Scanout F)
      → IsCoherent host main d w
      → IsCoherent host main d (forget_each d view w.hinted w)
  forget_each-IsCoherent view w c =
      let w' = forget_each d view w.hinted w in
      let hinted = forget_each-hinted d view w.hinted w in
      let gone = forget_each-gone d view w.hinted w in
      record {
        once = λ s alive. ground (
          arith,
          ap (entries s) hinted,
          entries-retain-le s (elsewhere view) w.hinted,
          c.once s (ground (arith, alive, gone)),
        );
        told = λ s f alive e.
            let before : contains w.gone s ≡ false = ground (arith, alive, gone) in
            let finds = forget_each-finds view s w c before in
            let tells = forget_each-told d view s w.hinted w before in
            elim (Bool-cases (any (in_view s view) w.hinted)) [
              | inl e' ↦ elim (Option-cases (lookup s w.told)) [
                | inl n ↦ ground (arith, e, e', n, tells)
                | inr (g, n) ↦ ground (arith, e, e', n, tells, finds)
              ]
              | inr e' ↦
                  let kept : f ≡ or_default d (hinted_feedback s w) =
                    c.told s f before (ground (arith, e, e', tells)) in
                  ground (arith, kept, e', finds)
            ];
        cache = λ b e. c.cache b (sym (forget_each-last d view w.hinted w) ∙ e);
      }

  asked-IsCoherent :
      (s : ℕ) (w : Scanout F)
      → IsCoherent host main d w
      → IsCoherent host main d
          (record w { told = insert s (or_default d (hinted_feedback s w)) w.told })
  unfolding hinted_feedback
  asked-IsCoherent s w c = record {
    once = c.once;
    told = λ t f alive e. elim (Bool-cases (s == t)) [
      | inl same ↦
          let answer = or_default d (hinted_feedback s w) in
          let now : f ≡ answer = ground (arith, e, same, lookup-insert t s answer w.told) in
          let eq : s ≡ t = ground (arith, same, ==_iff s t) in
          now ∙ ap (λ k. or_default d (hinted_feedback k w)) eq
      | inr other ↦
          c.told t f alive (
            ground (arith, e, other, lookup-insert t s (or_default d (hinted_feedback s w)) w.told))
    ];
    cache = c.cache;
  }

  surface_gone-IsCoherent :
      (s : ℕ) (w : Scanout F) → IsCoherent host main d w → IsCoherent host main d (surface_gone s w)
  unfolding surface_gone
  surface_gone-IsCoherent s w c = record {
    once = λ t alive. c.once t (ground (arith, alive));
    told = λ t f alive e.
        let before : contains w.gone t ≡ false = ground (arith, alive) in
        let other : (s == t) ≡ false = ground (arith, alive) in
        c.told t f before (ground (arith, e, other, lookup-erase t s w.told))
        ∙ ap (or_default d) (found_alive t w before ∙ sym (found_alive t (surface_gone s w) alive));
    cache = c.cache;
  }

  module _ (main_known : host.caps.render_device ≡ some main)
      (has_default : global host ≡ some d) where
    hint_for-IsCoherent :
        (fs : List FormatModifier) (t : Option ℕ) (view : ℕ) (hint : Hint) (w : Scanout F)
        → IsCoherent host main d w
        → IsCoherent host main d (hint_for host fs (some main) (some d) t view hint w)
    hint_for-IsCoherent [] t view hint w c = c
    hint_for-IsCoherent (f ∷ fs) none view hint w c = c
    hint_for-IsCoherent (f ∷ fs) (some t) view hint w c =
        hint_surface-IsCoherent host main d view hint t w c

    scanout_hint-found :
        (view : ℕ) (hint : Hint) (trees : List (List (ℕ × Option ℕ))) (w : Scanout F)
        (f : FormatModifier) (fs : List FormatModifier) (t : ℕ)
        → hint.formats ≡ f ∷ fs
        → layer_surface trees hint.layer_id ≡ some t
        → scanout_hint host view hint trees w ≡ hint_surface host main d view hint t w
    unfolding scanout_hint
    scanout_hint-found view hint trees w f fs t e found =
        λ i. hint_for host (e i) (main_known i) (has_default i) (found i) view hint w

    scanout_hint-IsCoherent :
        (view : ℕ) (hint : Hint) (trees : List (List (ℕ × Option ℕ))) (w : Scanout F)
        → IsCoherent host main d w
        → IsCoherent host main d (scanout_hint host view hint trees w)
    unfolding scanout_hint
    scanout_hint-IsCoherent view hint trees w c =
        let t = layer_surface trees hint.layer_id in
        subst (IsCoherent host main d)
          (λ i. hint_for host hint.formats (sym main_known i) (sym has_default i) t view hint w)
          (hint_for-IsCoherent hint.formats t view hint w c)

    step-IsCoherent :
        (e : Event) (w : Scanout F)
        → IsCoherent host main d w
        → IsCoherent host main d (step host e w)
    unfolding step forget_scanout new_surface_feedback
    step-IsCoherent (hints view hint trees) w c = scanout_hint-IsCoherent view hint trees w c
    step-IsCoherent (leaves view) w c =
        subst (IsCoherent host main d) (ap (λ o. forget_for o view w) (sym has_default))
          (forget_each-IsCoherent view w c)
    step-IsCoherent (asks s) w c =
        subst (IsCoherent host main d) (ap (λ o. answer_for o s w) (sym has_default))
          (asked-IsCoherent s w c)
    step-IsCoherent (destroyed s) w c = surface_gone-IsCoherent s w c

    -- After any history of hints, views left, surfaces that ask and surfaces destroyed: a surface has one
    -- entry at most, what it was told is what it would be told if it asked again, and what was built last
    -- is what would be built for it now.
    pub run-IsCoherent : (es : List Event) → IsCoherent host main d (run host es)
    unfolding run
    run-IsCoherent [] = empty-IsCoherent
    run-IsCoherent (e ∷ es) = step-IsCoherent e (run host es) (run-IsCoherent es)

    -- After any history, a hint that has formats, for a layer whose surface is found: that surface has
    -- the feedback built for the hinted formats that the shell also imports, or the default where there
    -- are none, whatever was built before; every other one that lives has what it had.
    pub scanout_hint_tranche :
        (es : List Event) (view : ℕ) (hint : Hint) (trees : List (List (ℕ × Option ℕ)))
        (f : FormatModifier) (fs : List FormatModifier) (t s : ℕ)
        → hint.formats ≡ f ∷ fs
        → layer_surface trees hint.layer_id ≡ some t
        → contains (run host es).gone s ≡ false
        → hinted_feedback s (scanout_hint host view hint trees (run host es)) ≡ (
            if t == s
            then tranche_feedback host main hint.dev (imported host hint.formats)
            else hinted_feedback s (run host es))
    scanout_hint_tranche es view hint trees f fs t s e found alive =
        ap (hinted_feedback s) (scanout_hint-found view hint trees (run host es) f fs t e found)
        ∙ hint_surface-finds host main d view hint t s (run host es) (run-IsCoherent es) alive
