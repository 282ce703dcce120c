-- ===== src/Tests/Readiness.antt =====
-- A run of src/handlers/compositor.rs: a commit waits, its client disconnects, and is reaped.
use ihs_wl_server.Prelude.{◌≡◌, refl, true, false, [], none, some, arith}
use ihs_wl_server.Readiness.{
  no_connections, Commit, explicit, gate_on_readiness, hold_commit, disconnected, reap_clients,
  reap_each,
}
use ihs_wl_server.Readiness.Watched.{
  World, act, gates, leaves, Reach, here, next, IsWatched, unless_client,
}
use ihs_wl_server.Readiness.Reaped.{IsReaped, reap_clients-IsReaped}
use ihs_wl_server.Readiness.Safety.{Reach-IsWatched}

abbrev empty_world : World
empty_world = record {
  server = no_connections;
  sources = λ k. none;
  ready = λ k. false;
  blocked = λ k. none;
}

empty_world-IsWatched : IsWatched empty_world
empty_world-IsWatched = record {
  listed = λ c. tt;
  few = λ c. omega arith;
  keys = λ k c t e. cc;
  tokens = λ j k c d t e f. cc;
  awake = λ k c e. absurd (cc);
  unready = λ k c e. refl;
  early = λ k e. absurd (cc);
  departed = λ k c e. refl;
  known = λ k c t e. cc;
}

abbrev drawing : Commit
drawing = record { dmabuf = true; client = some 4; acquire = explicit false; blocker = true }

abbrev waiting_world : World
waiting_world = act (gate_on_readiness 9 drawing (some 70) no_connections) empty_world

abbrev left_world : World
left_world =
    act (disconnected 4 waiting_world.server)
      (record waiting_world { blocked = λ k. unless_client 4 (waiting_world.blocked k) })

waits : Reach empty_world waiting_world
waits = next here (gates empty_world 9 drawing (some 70) (λ t k c e f. cc) (λ c e. refl))

waits_once : waiting_world.sources 1 ≡ some (4, 70)
unfolding gate_on_readiness hold_commit
waits_once = refl

reaped_once : (act (reap_clients left_world.server) left_world).sources 1 ≡ none
unfolding gate_on_readiness hold_commit reap_clients reap_each disconnected
reaped_once = refl

leaves_waiting : Reach empty_world left_world
leaves_waiting = next waits (leaves waiting_world 4)

Reach-IsWatched_example : IsWatched left_world
Reach-IsWatched_example = Reach-IsWatched empty_world-IsWatched leaves_waiting

reap_clients-IsReaped_example :
    let w' = act (reap_clients left_world.server) left_world in
    IsWatched w'
    × IsReaped left_world.server.gone left_world w'
    × ((reap_clients left_world.server).0.gone ≡ [])
reap_clients-IsReaped_example =
    reap_clients-IsReaped left_world (Reach-IsWatched empty_world-IsWatched leaves_waiting)
