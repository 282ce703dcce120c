-- ===== src/Dialogs/Active.antt =====
-- The active window of src/state.rs and the keyboard's target of src/input.rs.
use ihs_wl_server.Prelude.{
  ℕ, zero, suc, ◌≡◌, refl, ◌↔◌, true, List, [], ◌∷◌, Option, none, some, ==_iff, ==_refl, lookup,
  All, arith, Option-cases, inl, inr,
}
use ihs_wl_server.Binding.{Toplevel, Server, option_eq}
use ihs_wl_server.Binding.Requests.{root_from, max_depth, bound_view_of, parent_of}
use ihs_wl_server.Binding.Consistent.{shown_by, IsConsistent}
use ihs_wl_server.Dialogs.{
  Window, Sizes, view_root, view_windows, last, focus_window, view_activated, states_of,
  keyboard_target,
}
use ihs_wl_server.Dialogs.Layout.{view_windows-IsPlaced}

root_from-parentless :
    (n t : ℕ) (ts : List (ℕ × Toplevel)) → parent_of t ts ≡ none → root_from n t ts ≡ t
unfolding root_from
root_from-parentless zero t ts e = refl
root_from-parentless (suc n) t ts e = ground (arith, e)

last-All :
    {P : Window → Type 0} (ws : List Window) (t : ℕ)
    → All P ws
    → last ws ≡ some t
    → (w : Window) × P w × (w.toplevel ≡ t)
last-All [] t h e = cc
last-All (w ∷ []) t h e = (w, h.0, ground arith)
last-All (w ∷ u ∷ ws) t h e = last-All (u ∷ ws) t h.1 e

module _ (sizes : Sizes) (s : Server) (h : IsConsistent s) (v r : ℕ)
    (shows : shown_by v s.views ≡ some r) (parentless : parent_of r s.toplevels ≡ none) where
  view_root-shown : view_root v s ≡ some r
  unfolding view_root
  view_root-shown = elim (Option-cases (lookup v s.views)) [
    | inl e ↦ absurd (ground (arith, e, shows))
    | inr (d, e) ↦ elim (Option-cases (lookup r s.toplevels)) [
      | inl f ↦ absurd (ground (arith, f, h.forth v r shows))
      | inr (w, f) ↦ ground (arith, e, f, shows)
    ]
  ]

  -- The topmost window belongs to the view.
  bound_view_of-focus : (t : ℕ) → focus_window sizes v s ≡ some t → bound_view_of t s ≡ some v
  unfolding focus_window bound_view_of
  bound_view_of-focus t e =
      let (w, p, same) =
        last-All (view_windows sizes v s) t (view_windows-IsPlaced sizes v r s view_root-shown) e in
      let rooted : root_from max_depth t s.toplevels ≡ r =
        ground (arith, p.rooted, same, root_from-parentless max_depth r s.toplevels parentless) in
      rw rooted (h.forth v r shows)

option_eq_lem : (o : Option ℕ) (n : ℕ) → option_eq o (some n) ≡ true → o ≡ some n
option_eq_lem none n e = cc
option_eq_lem (some m) n e = ground arith

-- While the focused view shows a toplevel with no parent, exactly the keyboard's target is active:
-- no other window of any client, and none while the view is out of the scene.
pub activated_iff_target :
    (sizes : Sizes) (s : Server) (v r t : ℕ)
    → IsConsistent s
    → s.focused ≡ some v
    → shown_by v s.views ≡ some r
    → parent_of r s.toplevels ≡ none
    → ((states_of sizes t s).0 ≡ true) ↔ (keyboard_target sizes s ≡ some t)
unfolding states_of view_activated keyboard_target
activated_iff_target sizes s v r t h focused shows parentless =
    elim (Option-cases (lookup v s.views)) [
      | inl e ↦ absurd (ground (arith, e, shows))
      | inr (d, e) ↦ (
        λ on. elim (Option-cases (bound_view_of t s)) [
          | inl f ↦ absurd (ground (arith, f, on))
          | inr (u, f) ↦ elim (Option-cases (lookup u s.views)) [
            | inl g ↦ absurd (ground (arith, f, g, on))
            | inr (c, g) ↦
                ground (
                  arith,
                  f,
                  g,
                  on,
                  focused,
                  e,
                  option_eq_lem (focus_window sizes u s) t,
                  ==_iff v u,
                )
          ]
        ],
        λ target.
            let top : focus_window sizes v s ≡ some t = ground (arith, focused, e, target) in
            let back = bound_view_of-focus sizes s h v r shows parentless t top in
            ground (arith, focused, e, target, top, back, ==_refl v, ==_refl t),
      )
    ]
