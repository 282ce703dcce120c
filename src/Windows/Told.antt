-- ===== src/Windows/Told.antt =====
-- Clients know their windows' state: what src/state.rs sets is what was sent.
use mathlib.Core.Path.{subst}
use ihs_wl_server.Prelude.{
  ℕ, ◌≡◌, refl, sym, false, List, [], ◌∷◌, Option, none, some, ◌==◌, All, lookup, modify, is_some,
  arith, Bool-cases, Option-cases, inl, inr, ◌⊎◌,
}
use ihs_wl_server.Binding.{View, Toplevel, Server}
use ihs_wl_server.Dialogs.{Sizes, states_of}
use ihs_wl_server.Windows.{
  Pending, Surface, Look, Windows, Layout, client_size_of, pending_eq, send_configure, refresh,
  want, wanted_of, configure_shown, configure_view, sync_pending, sync_each, size_eq,
}
use ihs_wl_server.Windows.Commands.{
  change_look, view_resized, view_state, view_capabilities, view_request_size, answer,
  first_configure,
}
use ihs_wl_server.Windows.States.{pending_eq→eq}

-- Nothing was sent yet, or the last configure has all that is pending.
abbrev pub IsTold : ℕ × Surface → Type 0
IsTold e = (e.1.configured ≡ false) ⊎ (e.1.told ≡ some e.1.pending)

pub All-lookup :
    (k : ℕ) (m : List (ℕ × Surface)) (s : Surface)
    → lookup k m ≡ some s
    → All IsTold m
    → IsTold (k, s)
All-lookup k [] s e h = absurd (cc)
All-lookup k ((j, d) ∷ m) s e h = elim (Bool-cases (j == k)) [
  | inl q ↦
      let same : d ≡ s = ground (arith, e, q) in subst (λ (x : Surface). IsTold (k, x)) same h.0
  | inr q ↦ All-lookup k m s (ground (arith, e, q)) h.1
]

pub All-modify :
    (k : ℕ) (f : Surface → Surface) (m : List (ℕ × Surface))
    → ((j : ℕ) (s : Surface) → IsTold (j, s) → IsTold (j, f s))
    → All IsTold m
    → All IsTold (modify k f m)
All-modify k f [] keeps h = tt
All-modify k f ((j, s) ∷ m) keeps h = elim (Bool-cases (j == k)) [
  | inl e ↦ rw e (keeps j s h.0, h.1)
  | inr e ↦ rw e (h.0, All-modify k f m keeps h.1)
]

refresh-IsTold :
    (f : Pending → Pending) (j : ℕ) (s : Surface) → IsTold (j, s) → IsTold (j, refresh f s)
unfolding refresh send_configure
refresh-IsTold f j s (inl e) = inl (ground (arith, e))
refresh-IsTold f j s (inr e) = elim (Bool-cases s.configured) [
  | inr c ↦ inl (ground (arith, c))
  | inl c ↦ elim (Bool-cases (pending_eq s.pending (f s.pending))) [
    | inl q ↦
        let same : s.pending ≡ f s.pending = pending_eq→eq s.pending (f s.pending) q in
        inr (ground (arith, c, q, e, same))
    | inr q ↦ inr (ground (arith, c, q))
  ]
]

configure_shown-IsTold :
    (lay : Layout) (v : ℕ) (st : Windows) (e : View) (l : Look) (t : Option ℕ)
    (size : Option (ℕ × ℕ))
    → All IsTold st.surfaces
    → All IsTold (configure_shown lay v st e l t size).surfaces
configure_shown-IsTold lay v st e l none size h = h
configure_shown-IsTold lay v st e l (some t) none h = h
configure_shown-IsTold lay v st e l (some t) (some size) h =
    elim (Bool-cases (is_some (lookup t st.server.toplevels))) [
      | inr q ↦ rw q h
      | inl q ↦ rw q (
          All-modify t (λ s. refresh (want (wanted_of lay st v e t size l) s.version) s) st.surfaces
            (λ j s. refresh-IsTold (want (wanted_of lay st v e t size l) s.version) j s) h)
    ]

pub configure_view-IsTold :
    (lay : Layout) (v : ℕ) (st : Windows)
    → All IsTold st.surfaces
    → All IsTold (configure_view lay v st).surfaces
unfolding configure_view
configure_view-IsTold lay v st h = elim (Option-cases (lookup v st.server.views)) [
  | inl e ↦ told st (ground (arith, e)) h
  | inr (d, e) ↦ elim (Option-cases (lookup v st.looks)) [
    | inl f ↦ told st (ground (arith, e, f)) h
    | inr (l, f) ↦
        let size = client_size_of lay v l in
        told (configure_shown lay v st d l d.toplevel size) (ground (arith, e, f))
          (configure_shown-IsTold lay v st d l d.toplevel size h)
  ]
]
  where
    told :
        (w : Windows)
        → configure_view lay v st ≡ w
        → All IsTold w.surfaces
        → All IsTold (configure_view lay v st).surfaces
    told w eq = subst (λ (u : Windows). All IsTold u.surfaces) (sym eq)

pub sync_each-IsTold :
    (sizes : Sizes) (s : Server) (ts : List (ℕ × Toplevel)) (m : List (ℕ × Surface))
    → All IsTold m
    → All IsTold (sync_each sizes s ts m)
unfolding sync_each
sync_each-IsTold sizes s [] m h = h
sync_each-IsTold sizes s ((t, e) ∷ ts) m h =
    sync_each-IsTold sizes s ts (modify t (refresh (sync_pending (states_of sizes t s))) m) (
      All-modify t (refresh (sync_pending (states_of sizes t s))) m
        (refresh-IsTold (sync_pending (states_of sizes t s))) h)

pub answer-IsTold : (j : ℕ) (s : Surface) → IsTold (j, s) → IsTold (j, answer s)
unfolding send_configure
answer-IsTold j s h = elim (Bool-cases s.configured) [
  | inl e ↦ inr (ground (arith, e))
  | inr e ↦ inl (ground (arith, e))
]

-- A view command leaves the windows as they are, or configures the view's once its entry is written.
abbrev pub Configures : Layout → Windows → Windows → Type 0
Configures lay st w =
    (w ≡ st)
    ⊎ ((v : ℕ) × (changed : Windows) × (changed.surfaces ≡ st.surfaces)
        × (w ≡ configure_view lay v changed))

pub Configures-IsTold :
    (lay : Layout) (st w : Windows)
    → Configures lay st w
    → All IsTold st.surfaces
    → All IsTold w.surfaces
Configures-IsTold lay st w (inl e) h = subst (λ (u : Windows). All IsTold u.surfaces) (sym e) h
Configures-IsTold lay st w (inr (v, changed, same, e)) h =
    subst (λ (u : Windows). All IsTold u.surfaces) (sym e)
      (configure_view-IsTold lay v changed (subst (All IsTold) (sym same) h))

module _ (lay : Layout) (v : ℕ) (st : Windows) where
  pub view_resized-Configures : (size : ℕ × ℕ) → Configures lay st (view_resized lay v size st).0
  unfolding view_resized
  view_resized-Configures size = elim (Option-cases (lookup v st.looks)) [
    | inl e ↦ inl (ground (arith, e))
    | inr (l, e) ↦
        inr (
          v,
          change_look v (λ (l : Look). record l { size = some size }) st,
          refl,
          ground (arith, e),
        )
  ]

  pub view_state-Configures : (state : ℕ) → Configures lay st (view_state lay v state st)
  unfolding view_state
  view_state-Configures state = elim (Option-cases (lookup v st.looks)) [
    | inl e ↦ inl (ground (arith, e))
    | inr (l, e) ↦ inr (
      v,
      change_look v (λ (l : Look). record l { window_state = state }) st,
      refl,
      ground (arith, e),
    )
  ]

  pub view_capabilities-Configures : (c : ℕ) → Configures lay st (view_capabilities lay v c st)
  unfolding view_capabilities
  view_capabilities-Configures c = elim (Option-cases (lookup v st.looks)) [
    | inl e ↦ inl (ground (arith, e))
    | inr (l, e) ↦
        inr (
          v,
          change_look v (λ (l : Look). record l { capabilities = c }) st,
          refl,
          ground (arith, e),
        )
  ]

  pub view_request_size-Configures :
      (size : Option (ℕ × ℕ)) → Configures lay st (view_request_size lay v size st).0
  unfolding view_request_size
  view_request_size-Configures size = elim (Option-cases (lookup v st.looks)) [
    | inl e ↦ inl (ground (arith, e))
    | inr (l, e) ↦ elim (Bool-cases (size_eq l.requested size)) [
      | inl q ↦ inl (ground (arith, e, q))
      | inr q ↦ inr (
        v,
        change_look v (λ (l : Look). record l { requested = size }) st,
        refl,
        ground (arith, e, q),
      )
    ]
  ]

pub first_configure-IsTold : (j : ℕ) (s : Surface) → IsTold (j, s) → IsTold (j, first_configure s)
unfolding send_configure
first_configure-IsTold j s (inl e) = inr (ground (arith, e))
first_configure-IsTold j s (inr e) = elim (Bool-cases s.configured) [
  | inl c ↦ inr (ground (arith, c, e))
  | inr c ↦ inr (ground (arith, c))
]
