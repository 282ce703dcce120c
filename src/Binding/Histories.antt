-- ===== src/Binding/Histories.antt =====
-- Bindings of src/state.rs over any history of view commands and client requests.
use ihs_wl_server.Prelude.{
  ℕ, ◌≡◌, refl, Bool, not, ◌||◌, List, [], ◌∷◌, Option, none, some, ◌==◌, ==_iff, lookup, modify,
  erase, lookup-modify, lookup-erase, IsSorted-erase, arith, Bool-cases, Option-cases, inl, inr,
  contains, retain,
}
use ihs_wl_server.Binding.{
  View, Toplevel, Server, waiting, bind_waiting_views, unbind_view, shown_in, no_server,
}
use ihs_wl_server.Binding.Requests.{
  view_of, unbind_toplevel, set_mapped, toplevel_commit, toplevel_destroyed, parent_changed,
  app_id_changed, issue_activation_token, set_token, reserve, request_activation, view_suspended,
  names_token, is_wanted, Request, create, dispose, suspend, add, commit, destroy, set_parent,
  set_app_id, issue, activate, step, run,
}
use ihs_wl_server.Binding.Consistent.{
  IsConsistent, bind_each-IsConsistent, unbind_view-IsConsistent,
}
use ihs_wl_server.Binding.Steps.{
  retouched, view_created-IsConsistent, view_disposed-IsConsistent, new_toplevel-IsConsistent,
}

unbind_toplevel-IsConsistent :
    (t : ℕ) (s : Server) → IsConsistent s → IsConsistent (unbind_toplevel t s).0
unfolding unbind_toplevel
unbind_toplevel-IsConsistent t s h = elim (Option-cases (lookup t s.toplevels)) [
  | inl e ↦ rw (e, unbind_toplevel) h
  | inr (w, e) ↦ elim (Option-cases w.view) [
    | inl f ↦ rw (e, unbind_toplevel) (rw f h)
    | inr (v, f) ↦ rw (e, unbind_toplevel) (rw f (unbind_view-IsConsistent v s h))
  ]
]

unbind_toplevel-view_of :
    (t : ℕ) (s : Server) → IsConsistent s → view_of t (unbind_toplevel t s).0.toplevels ≡ none
unfolding unbind_toplevel unbind_view
unbind_toplevel-view_of t s h = elim (Option-cases (lookup t s.toplevels)) [
  | inl e ↦ ground (arith, e)
  | inr (w, e) ↦ elim (Option-cases w.view) [
    | inl f ↦ ground (arith, e, f)
    | inr (v, f) ↦ elim (Option-cases (lookup v s.views)) [
      | inl g ↦ absurd (ground (arith, e, f, g, h.back v t))
      | inr (d, g) ↦
          ground (arith, e, f, g, h.back v t, lookup-modify t t (shown_in none) s.toplevels)
    ]
  ]
]

erased-IsConsistent :
    (t : ℕ) (s : Server)
    → view_of t s.toplevels ≡ none
    → IsConsistent s
    → IsConsistent (record s { toplevels = erase t s.toplevels })
erased-IsConsistent t s gone h = record {
  forth = λ v r p. ground (arith, lookup-erase r t s.toplevels, h.forth v r, ==_iff t r);
  back = λ v r p. ground (arith, lookup-erase r t s.toplevels, h.back v r);
  ids = IsSorted-erase 0 s.next_id t s.toplevels h.ids;
  allowed = λ u r d w a c p. ground (arith, lookup-erase r t s.toplevels, h.allowed u r d w);
}

toplevel_destroyed-IsConsistent :
    (t : ℕ) (s : Server) → IsConsistent s → IsConsistent (toplevel_destroyed t s).0
unfolding toplevel_destroyed
toplevel_destroyed-IsConsistent t s h =
    erased-IsConsistent t (unbind_toplevel t s).0 (unbind_toplevel-view_of t s h)
      (unbind_toplevel-IsConsistent t s h)

toplevel_commit-IsConsistent :
    (b : Bool) (t : ℕ) (s : Server) → IsConsistent s → IsConsistent (toplevel_commit b t s).0
unfolding toplevel_commit bind_waiting_views
toplevel_commit-IsConsistent b t s h = elim (Option-cases (lookup t s.toplevels)) [
  | inl e ↦ rw (e, toplevel_commit) h
  | inr (w, e) ↦
      rw (e, toplevel_commit)
        (elim (Bool-cases w.mapped) [
          | inl m ↦ rw m h
          | inr m ↦ rw m (
              bind_each-IsConsistent (waiting s.views)
                (record s { toplevels = modify t set_mapped s.toplevels })
                (retouched t set_mapped s s.issued (λ w. (refl, λ m. refl, refl)) h))
        ])
]

reserve-IsConsistent :
    (token : ℕ) (o : Option ℕ) (s : Server) → IsConsistent s → IsConsistent (reserve token o s).0
unfolding reserve bind_waiting_views
reserve-IsConsistent token none s h = bind_each-IsConsistent (waiting s.views) s h
reserve-IsConsistent token (some v) s h =
    elim (Bool-cases (names_token token (lookup v s.views) || not (is_wanted token s.views))) [
      | inl e ↦ rw e h
      | inr e ↦ rw e (
          bind_each-IsConsistent (waiting (unbind_view v s).0.views) (unbind_view v s).0
            (unbind_view-IsConsistent v s h))
    ]

request_activation-IsConsistent :
    (token : ℕ) (o : Option ℕ) (s : Server)
    → IsConsistent s
    → IsConsistent (request_activation token o s).0
unfolding request_activation
request_activation-IsConsistent token none s h = h
request_activation-IsConsistent token (some t) s h =
    let issued = retain (λ i. not (i == token)) s.issued in
    let k = retouched t (set_token token) s issued (λ w. (refl, λ m. m, refl)) h in
    elim (Bool-cases (contains s.issued token)) [
      | inr c ↦ rw c h
      | inl c ↦ rw c (elim (Option-cases (lookup t s.toplevels)) [
        | inl e ↦ rw e k
        | inr (w, e) ↦ rw e (reserve-IsConsistent token w.view _ k)
      ])
    ]

view_suspended-IsConsistent :
    (v : ℕ) (b : Bool) (s : Server) → IsConsistent s → IsConsistent (view_suspended v b s).0
unfolding view_suspended
view_suspended-IsConsistent v b s h =
    let f : View → View = λ (e : View). record e { suspended = b } in
    record {
      forth = λ u r p. ground (arith, lookup-modify u v f s.views, h.forth u r);
      back = λ u r p. elim (Option-cases (lookup u s.views)) [
        | inl e ↦ ground (arith, e, lookup-modify u v f s.views, h.back u r)
        | inr (d, e) ↦ ground (arith, e, lookup-modify u v f s.views, h.back u r)
      ];
      ids = h.ids;
      allowed = λ u r d w a c p. elim (Option-cases (lookup u s.views)) [
        | inl e ↦ absurd (ground (arith, e, a, lookup-modify u v f s.views))
        | inr (x, e) ↦ ground (arith, e, a, c, p, lookup-modify u v f s.views, h.allowed u r x w)
      ];
    }

step-IsConsistent : (r : Request) (s : Server) → IsConsistent s → IsConsistent (step r s).0
unfolding step parent_changed app_id_changed issue_activation_token
step-IsConsistent (create v p) s h = view_created-IsConsistent v p s h
step-IsConsistent (dispose v) s h = view_disposed-IsConsistent v s h
step-IsConsistent (suspend v b) s h = view_suspended-IsConsistent v b s h
step-IsConsistent (add a c) s h = new_toplevel-IsConsistent a c s h
step-IsConsistent (commit b t) s h = toplevel_commit-IsConsistent b t s h
step-IsConsistent (destroy t) s h = toplevel_destroyed-IsConsistent t s h
step-IsConsistent (set_parent t p) s h =
    retouched t (λ (e : Toplevel). record e { parent = p }) s s.issued (λ w. (refl, λ m. m, refl)) h
step-IsConsistent (set_app_id t a) s h =
    retouched t (λ (e : Toplevel). record e { app_id = a }) s s.issued (λ w. (refl, λ m. m, refl)) h
step-IsConsistent (issue token) s h = record {
  forth = h.forth;
  back = h.back;
  ids = h.ids;
  allowed = h.allowed;
}
step-IsConsistent (activate token o) s h = request_activation-IsConsistent token o s h

-- From a consistent state, so from the empty one, any history of view commands and client requests
-- leads to one: a view shows a toplevel exactly if that toplevel names the view (so no toplevel is
-- shown twice, and none that is gone is shown), every shown toplevel is mapped, and it belongs to
-- the sandbox that its view names, whatever app ids, parents and tokens its client claims.
pub run-IsConsistent : (rs : List Request) (s : Server) → IsConsistent s → IsConsistent (run rs s)
unfolding run
run-IsConsistent [] s h = h
run-IsConsistent (r ∷ rs) s h = run-IsConsistent rs (step r s).0 (step-IsConsistent r s h)

pub no_server-IsConsistent : IsConsistent no_server
no_server-IsConsistent = record {
  forth = λ v t p. cc;
  back = λ v t p. cc;
  ids = omega arith;
  allowed = λ v t e w a c p. cc;
}
