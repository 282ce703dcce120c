-- ===== src/Tests/Binding.antt =====
-- A run of src/state.rs: two views, one of them for a sandbox; two clients' toplevels.
use ihs_wl_server.Prelude.{
  ℕ, ◌≡◌, ◌<◌, refl, true, false, List, [], ◌∷◌, none, some, arith, lookup, ◌⊎◌,
}
use ihs_wl_server.Binding.{
  Params, View, Toplevel, Server, no_server, try_bind_view, bind, bind_waiting_views, waiting,
  sorted_insert, bind_each, find_match, matches,
}
use ihs_wl_server.Binding.Requests.{
  Request, create, add, commit, step, run, view_created, new_toplevel, toplevel_commit,
}
use ihs_wl_server.Binding.Consistent.{IsConsistent}
use ihs_wl_server.Binding.Histories.{run-IsConsistent, no_server-IsConsistent}
use ihs_wl_server.Binding.Suits.{Suits}
use ihs_wl_server.Binding.Waiting.{bind_waiting_views_complete, try_bind_view-oldest}

abbrev sandboxed : Params
sandboxed = record { token = none; app_id = none; sandbox_app_id = some 7 }

abbrev requests : List Request
requests =
    create 1 sandboxed ∷ add 7 none ∷ add 7 (some (some 7)) ∷ commit false 1 ∷ commit false 2 ∷ []

run-IsConsistent_example : IsConsistent (run requests no_server)
run-IsConsistent_example = run-IsConsistent requests no_server no_server-IsConsistent

abbrev waiting_view : View
waiting_view = record { params = sandboxed; toplevel = none; suspended = false }

abbrev unsandboxed : Toplevel
unsandboxed = record {
  mapped = true;
  view = none;
  token = none;
  parent = none;
  app_id = 7;
  sandbox = none;
}

abbrev inside : Toplevel
inside = record {
  mapped = true;
  view = none;
  token = none;
  parent = none;
  app_id = 7;
  sandbox = some (some 7);
}

-- The view waits beside a toplevel that only claims the app id.
abbrev beside : Server
beside = record no_server {
  views = (1, waiting_view) ∷ [];
  toplevels = (1, unsandboxed) ∷ [];
  next_id = 1;
}

beside-IsConsistent : IsConsistent beside
beside-IsConsistent = record {
  forth = λ v t p. ground arith;
  back = λ v t p. ground arith;
  ids = (omega arith, omega arith);
  allowed = λ v t e w a c p. ground arith;
}

still_waiting : lookup 1 (bind_waiting_views beside).0.views ≡ some waiting_view
unfolding bind_waiting_views waiting sorted_insert bind_each try_bind_view find_match matches
still_waiting = refl

still_there : lookup 1 (bind_waiting_views beside).0.toplevels ≡ some unsandboxed
unfolding bind_waiting_views waiting sorted_insert bind_each try_bind_view find_match matches
still_there = refl

bind_waiting_views_complete_example : ¬ Suits sandboxed unsandboxed
bind_waiting_views_complete_example =
    bind_waiting_views_complete beside 1 1 waiting_view unsandboxed beside-IsConsistent
      still_waiting refl still_there

abbrev both : Server
both = record beside { toplevels = (1, unsandboxed) ∷ (2, inside) ∷ []; next_id = 2 }

both-IsConsistent : IsConsistent both
both-IsConsistent = record {
  forth = λ v t p. ground arith;
  back = λ v t p. ground arith;
  ids = (omega arith, (omega arith, omega arith));
  allowed = λ v t e w a c p. ground arith;
}

try_bind_view-oldest_example :
    ((try_bind_view 1 both ≡ (both, []))
      × ((r : ℕ) (x : Toplevel) → lookup r both.toplevels ≡ some x → ¬ Suits sandboxed x))
    ⊎ ((t : ℕ) × (w : Toplevel) × (lookup t both.toplevels ≡ some w)
        × Suits sandboxed w
        × (try_bind_view 1 both ≡ bind 1 t both)
        × ((r : ℕ) (x : Toplevel) → lookup r both.toplevels ≡ some x → r < t → ¬ Suits sandboxed x))
try_bind_view-oldest_example = try_bind_view-oldest 1 waiting_view both both-IsConsistent refl refl

-- The one inside is bound, though the other is older.
bound_inside :
    (lookup 1 (run requests no_server).views) ≡ some (record waiting_view { toplevel = some 2 })
unfolding run step view_created new_toplevel toplevel_commit bind_waiting_views waiting
    sorted_insert bind_each try_bind_view find_match matches bind
bound_inside = refl
