-- ===== src/Tests/Link.antt =====
-- Runs of src/view.rs: a dispose that waits out a call.
use ihs_wl_server.Prelude.{ℕ, ◌+◌, ◌≡◌, ◌≢◌, ◌⊎◌, refl, false, [], ◌∷◌, Option, none, some}
use ihs_wl_server.Lifecycle.{Lifecycle, never_started, send, is_running}
use ihs_wl_server.Params.{Number}
use ihs_wl_server.Link.{CreateInfo, invalid, no_backend, never, sent, factory}
use ihs_wl_server.Link.Threads.{
  calling, disposing, finish, returned, World, created, Reach, here, next, lock, call, dispose,
  lock_dispose, clear, return,
}
use ihs_wl_server.Link.Disposed.{dispose_rule}
use ihs_wl_server.Link.Waits.{own_steps, left, GoesOn, WaitsOut, dispose_ends}

-- The platform thread waits for the lock while the compositor thread is in a call.
in_call : (w : World) × Reach created w × (w.disposer ≡ disposing)
in_call = (_, next (next (next here (lock _ refl refl)) (call _ refl refl)) (dispose _ refl), refl)

over : (w : World) × Reach created w × (w.disposer ≡ returned)
over = (
  _,
  next (next (next (next here (dispose _ refl)) (lock_dispose _ refl refl)) (clear _ refl))
      (return _ refl),
  refl,
)

over_and_asked : (v : World) × Reach over.0 v
unfolding over
over_and_asked = (_, next here (lock _ refl refl))

dispose_rule_example : over_and_asked.0.submitter ≢ calling
dispose_rule_example = dispose_rule over.1 over.2 over_and_asked.1

-- The call comes to its end, and the compositor thread is the first to the lock again.
locked_again : (v : World) × Reach in_call.0 v
unfolding in_call
locked_again = (_, next (next here (finish _ refl)) (lock _ refl refl))

dispose_ends_example :
    (own_steps locked_again.1 + left locked_again.0.disposer ≡ 3)
    × ((locked_again.0.disposer ≡ returned) ⊎ GoesOn locked_again.0 ⊎ WaitsOut locked_again.0)
dispose_ends_example = dispose_ends in_call.1 in_call.2 locked_again.1

abbrev running : Lifecycle
running = record never_started {
  server = some (record { thread = 0; socket = 1 });
  live = 0 ∷ [];
  spawned = 1;
}

abbrev info : CreateInfo
info = record { id = 7; params = none }

abbrev physical : Option Number → ℕ × ℕ
physical dpr = (800, 600)

abbrev granted : Option ℕ
granted = none

-- The server dies between the two looks at it.
dies_between :
    (factory (λ n. 0) physical false running none never_started never info).code ≡ no_backend
unfolding factory is_running send
dies_between = refl

-- A panic once the command is sent: the shell is told of a failure, and the server has the view.
panics_late : (factory (λ n. 0) physical false running none running sent info).code ≡ invalid
unfolding factory is_running send
panics_late = refl
