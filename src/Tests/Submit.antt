-- ===== src/Tests/Submit.antt =====
-- Runs of src/submit.rs and src/tree.rs: holds, a frame's fds, a flipped buffer.
use ihs_wl_server.Prelude.{◌≡◌, refl, List, [], ◌∷◌, none, some, arith}
use ihs_wl_server.Submit.Holds.{client, Holds, no_holds, hold_unfenced}
use ihs_wl_server.Submit.Holds.Bounds.{
  Call, holds, fences, signals, presents, run, IsBounded, run-IsBounded,
}
use ihs_wl_server.Submit.Holds.Kept.{IsHeld, hold_unfenced-kept}
use ihs_wl_server.Submit.Planes.{
  PlaneIn, frame_for, fill, close_frame, close_from, same_file, failed,
}
use ihs_wl_server.Tree.Orientation.{r90, apply, after_y_flip, apply-after_y_flip}

abbrev calls : List Call
calls = holds 2 (client 6) ∷ fences (client 7) (some 40) ∷ signals 1 ∷ presents 1 ∷ []

no_holds-IsBounded : IsBounded no_holds
no_holds-IsBounded = record { size = omega arith; once = λ b. omega arith }

run-IsBounded_example : IsBounded (run calls no_holds)
run-IsBounded_example = run-IsBounded calls no_holds no_holds-IsBounded

hold_unfenced-kept_example : IsHeld 1 (client 5) (run calls (hold_unfenced 1 (client 5) no_holds))
hold_unfenced-kept_example =
    hold_unfenced-kept 1 (client 5) no_holds calls (λ e. cc, (omega arith, tt)) (omega arith)

abbrev one_hold : Holds
one_hold = record { next_key = 0; fenced = []; unfenced = (1, client 5) ∷ [] }

-- Two planes in one file, then one that cannot be dupped.
abbrev planes : List PlaneIn
planes =
    record { file = some (1, 2); dup = some 50; offset = 0; stride = 256 }
    ∷ record { file = some (1, 2); dup = some 51; offset = 4096; stride = 128 }
    ∷ record { file = none; dup = none; offset = 0; stride = 128 }
    ∷ []

closed_once : (frame_for planes).outcome ≡ failed (50 ∷ [])
unfolding frame_for fill close_frame close_from same_file
closed_once = refl

apply-after_y_flip_example : apply (after_y_flip r90) (1, 2) (4, 3) ≡ apply r90 (1, 0) (4, 3)
apply-after_y_flip_example = apply-after_y_flip r90 1 2 4 3 (omega arith) (omega arith)
