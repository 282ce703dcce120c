-- ===== src/Binding/Steps.antt =====
-- View commands and toplevel changes of src/state.rs, each a step of a consistent history.
use ihs_wl_server.Prelude.{
  ℕ, suc, ◌≡◌, refl, ◌∙◌, sym, true, false, List, Option, none, ==_iff, lookup, insert, modify,
  lookup-insert, lookup-modify, lookup-erase, lookup-above, IsSorted-modify, IsSorted-insert, arith,
  Option-cases, inl, inr,
}
use ihs_wl_server.Binding.{Params, View, Toplevel, Server, unbind_view}
use ihs_wl_server.Binding.Requests.{view_of, view_created, view_disposed, new_toplevel}
use ihs_wl_server.Binding.Consistent.{
  shown_by, IsConsistent, try_bind_view-IsConsistent, unbind_view-IsConsistent,
  unbind_view-shown_by,
}

-- A change of a toplevel that leaves its binding alone.
pub retouched :
    (t : ℕ) (f : Toplevel → Toplevel) (s : Server) (issued : List ℕ)
    → ((w : Toplevel)
        → ((f w).view ≡ w.view)
          × (w.mapped ≡ true → (f w).mapped ≡ true)
          × ((f w).sandbox ≡ w.sandbox))
    → IsConsistent s
    → IsConsistent (record s { toplevels = modify t f s.toplevels; issued = issued })
retouched t f s issued same h =
    let kept : (r : ℕ) → view_of r (modify t f s.toplevels) ≡ view_of r s.toplevels = λ r.
      elim (Option-cases (lookup r s.toplevels)) [
        | inl e ↦ ground (arith, e, lookup-modify r t f s.toplevels)
        | inr (w, e) ↦ ground (arith, e, lookup-modify r t f s.toplevels, (same w).0)
      ] in
    record {
      forth = λ v r p. kept r ∙ h.forth v r p;
      back = λ v r p. h.back v r (sym (kept r) ∙ p);
      ids = IsSorted-modify 0 s.next_id t f s.toplevels h.ids;
      allowed = λ v r e w a c p. elim (Option-cases (lookup r s.toplevels)) [
        | inl k ↦ absurd (ground (arith, c, k, lookup-modify r t f s.toplevels))
        | inr (x, k) ↦
            ground
              (arith, a, c, p, k, lookup-modify r t f s.toplevels, h.allowed v r e x a k, same x)
      ];
    }

-- A view that shows nothing is added, in place of one that shows nothing.
added-IsConsistent :
    (v : ℕ) (e : View) (s : Server)
    → e.toplevel ≡ none
    → shown_by v s.views ≡ none
    → IsConsistent s
    → IsConsistent (record s { views = insert v e s.views })
added-IsConsistent v e s new old h = record {
  forth = λ u r p. ground (arith, lookup-insert u v e s.views, h.forth u r, ==_iff v u);
  back = λ u r p. ground (arith, lookup-insert u v e s.views, h.back u r, ==_iff v u);
  ids = h.ids;
  allowed = λ u r d w a c p.
      ground (arith, lookup-insert u v e s.views, h.allowed u r d w, h.back u r, ==_iff v u);
}

pub view_created-IsConsistent :
    (v : ℕ) (p : Params) (s : Server) → IsConsistent s → IsConsistent (view_created v p s).0
unfolding view_created
view_created-IsConsistent v p s h =
    let entry : View = record { params = p; toplevel = none; suspended = false } in
    elim (Option-cases (lookup v s.views)) [
      | inl e ↦ rw e (
          try_bind_view-IsConsistent v (record s { views = insert v entry s.views })
            (added-IsConsistent v entry s refl (ground (arith, e)) h))
      | inr (old, e) ↦ rw e (
          let t = (unbind_view v s).0 in
          try_bind_view-IsConsistent v (record t { views = insert v entry t.views })
            (added-IsConsistent v entry t refl (unbind_view-shown_by v s)
              (unbind_view-IsConsistent v s h)))
    ]

pub view_disposed-IsConsistent :
    (v : ℕ) (s : Server) → IsConsistent s → IsConsistent (view_disposed v s).0
unfolding view_disposed
view_disposed-IsConsistent v s h =
    let t = (unbind_view v s).0 in
    let k = unbind_view-IsConsistent v s h in
    record {
      forth = λ u r p. ground (arith, lookup-erase u v t.views, k.forth u r);
      back = λ u r p.
          ground
            (arith, lookup-erase u v t.views, k.back u r, unbind_view-shown_by v s, ==_iff v u);
      ids = k.ids;
      allowed = λ u r d w a c p. ground (arith, lookup-erase u v t.views, k.allowed u r d w);
    }

pub new_toplevel-IsConsistent :
    (a : ℕ) (c : Option (Option ℕ)) (s : Server)
    → IsConsistent s
    → IsConsistent (new_toplevel a c s).0
unfolding new_toplevel
new_toplevel-IsConsistent a c s h =
    let entry : Toplevel = record {
      mapped = false;
      view = none;
      token = none;
      parent = none;
      app_id = a;
      sandbox = c;
    } in
    let put = λ (r : ℕ). lookup-insert r (suc s.next_id) entry s.toplevels in
    let fresh = λ (r : ℕ) (k : suc s.next_id ≡ r).
      lookup-above 0 s.next_id r s.toplevels h.ids (omega (arith, k)) in
    record {
      forth = λ u r p. ground (arith, put r, h.forth u r, ==_iff (suc s.next_id) r, fresh r);
      back = λ u r p. ground (arith, put r, h.back u r);
      ids = IsSorted-insert 0 s.next_id entry s.toplevels h.ids;
      allowed = λ u r d w a c p. ground (arith, put r, h.allowed u r d w);
    }
