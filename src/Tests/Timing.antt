-- ===== src/Tests/Timing.antt =====
-- Runs of src/timing.rs: a clock at 60 Hz, and a view's frames.
use ihs_wl_server.Prelude.{
  ℕ, ◌+◌, ◌≤◌, ◌<◌, ◌≡◌, refl, true, false, List, [], ◌∷◌, ◌++◌, some, arith, ltb, leb, retain,
  count, length, All,
}
use ihs_wl_server.Timing.Clock.{FrameClock, next_vblank, release_at}
use ihs_wl_server.Timing.Clock.Vblank.{IsValid, IsVblank, next_vblank_first}
use ihs_wl_server.Timing.Taken.{signal, presented, fixed, Taken}
use ihs_wl_server.Timing.Frames.{
  take_shown, make_room, new_frame, resolve, shows, release, Report, Frame, push, frames_presented,
  release_older, flush_older, next_stale, shown_of, max_in_flight,
}
use ihs_wl_server.Timing.Frames.Accounts.{signals, answers}
use ihs_wl_server.Timing.Frames.History.{
  step, Op, submit, report, release_stale, step, run, life, life-accounts, given_barriers,
  given_callbacks,
}
use ihs_wl_server.Timing.Frames.Shown.{IsReported, told, frames_presented-IsTruthful}
use ihs_wl_server.Timing.Frames.Progress.{tick_frames}
use ihs_wl_server.Timing.Frames.Bounds.{length-run, run-presented}

-- A display at 60 Hz whose last vblank was at one second.
abbrev sixty_hz : FrameClock
sixty_hz = record { ust_ns = 1000000000; refresh_ns = 16666667 }

sixty_hz-IsValid : IsValid sixty_hz
sixty_hz-IsValid = record {
  refresh_pos = omega arith;
  ust_range = omega arith;
  refresh_range = omega arith;
}

next_vblank_first_example :
    IsVblank sixty_hz (next_vblank sixty_hz 1040000000)
    × (1040000000 < next_vblank sixty_hz 1040000000)
    × ((v : ℕ) → IsVblank sixty_hz v → 1040000000 < v → next_vblank sixty_hz 1040000000 ≤ v)
next_vblank_first_example = next_vblank_first sixty_hz 1040000000 sixty_hz-IsValid (omega arith)

next_vblank_example : next_vblank sixty_hz 1040000000 ≡ 1050000001
unfolding next_vblank
next_vblank_example = refl

release_at_example : release_at sixty_hz 1060000000 ≡ 1050000001
unfolding release_at next_vblank
release_at_example = refl

-- A commit with a barrier and one callback for the content, and one for content replaced before.
abbrev taken : ℕ → Taken
taken n = record {
  feedback =
      record { layer_id = 1; generation = n; callback = 10 + n }
      ∷ record { layer_id = 2; generation = 0; callback = 20 + n }
      ∷ [];
  barriers = (30 + n) ∷ [];
}

abbrev vsync : ℕ → Report
vsync seq = record { seq = seq; ust_ns = 1016666667; refresh_ns = 16666667; msc = 7; flags = 1 }

abbrev two_submits : List Op
two_submits = submit 1000 1 ((1, 1) ∷ []) (taken 1) ∷ submit 2000 2 ((1, 2) ∷ []) (taken 2) ∷ []

abbrev history : List Op
history =
    submit 1000 1 ((1, 1) ∷ []) (taken 1)
    ∷ release_stale 1500
    ∷ submit 2000 2 ((1, 2) ∷ []) (taken 2)
    ∷ report (vsync 1)
    ∷ []

life-accounts_example :
    (count 32 (signals (life history)) ≡ count 32 (given_barriers history))
    × (count 12 (answers (life history)) ≡ count 12 (given_callbacks history))
life-accounts_example = life-accounts history 32 12

run-presented_example :
    let fs = (run two_submits []).0 in
    ((frames_presented (vsync 1) fs).0 ≡ retain (λ (f : Frame). ltb 1 f.seq) fs)
    × ((frames_presented (vsync 1) fs).1
        ≡ told (shown_of 1 fs) (vsync 1) (retain (λ (f : Frame). leb f.seq 1) fs))
run-presented_example = run-presented two_submits (vsync 1) (omega arith, (omega arith, tt))

-- What the clients hear of the first frame.
first_shown :
    (frames_presented (vsync 1) (run two_submits []).0).1
    ≡ presented 11 1016666667 (fixed 16666667) 7 1 ∷ signal 31 ∷ []
unfolding run step frames_presented take_shown push make_room new_frame resolve shows release
    shown_of
first_shown = refl

abbrev frames : List Frame
frames =
    record {
      seq = 1;
      submitted_ns = 1000;
      shown = (1, 1) ∷ [];
      feedback = (taken 1).feedback;
      barriers = 31 ∷ [];
      flushed = false;
    }
    ∷ []

frames_presented-IsTruthful_example :
    All (IsReported frames (vsync 1)) (frames_presented (vsync 1) frames).1
frames_presented-IsTruthful_example = frames_presented-IsTruthful (vsync 1) frames

length-run_example : length (run two_submits frames).0 ≤ max_in_flight
length-run_example = length-run two_submits frames (omega arith)

overdue : next_stale true frames ≡ some 250001000
unfolding next_stale
overdue = refl

abbrev mixed : List Frame
mixed =
    frames
    ++ record {
      seq = 2;
      submitted_ns = 290000000;
      shown = (1, 2) ∷ [];
      feedback = [];
      barriers = 32 ∷ [];
      flushed = false;
    }
      ∷ []

still_waiting : next_stale true (tick_frames 300000000 mixed) ≡ some 540000000
unfolding next_stale release_older flush_older release
still_waiting = refl
