-- ===== src/Tests/Pacing.antt =====
-- Runs of src/pacing.rs, with timers that are lists of deadlines.
use ihs_wl_server.Prelude.{
  ℕ, true, false, not, List, [], ◌∷◌, Option, none, some, arith, leb, retain,
}
use ihs_wl_server.Timing.Clock.{default}
use ihs_wl_server.Timing.Frames.{is_empty}
use ihs_wl_server.Pacing.{Timers, Pace}
use ihs_wl_server.Pacing.Clock.{on_tick}
use ihs_wl_server.Pacing.Clock.Releases.{Ticked, on_tick-Ticked}
use ihs_wl_server.Pacing.Watched.{IsGood}
use ihs_wl_server.Pacing.Histories.{Op, submits, fails, holds, ticks, suspends, run, run-IsGood}

-- The timers signal the deadlines that have come, and tell the first of the others.
abbrev first : List ℕ → Option ℕ
first [] = none
first (d ∷ ds) = some d

abbrev timers : Timers (List ℕ)
timers = record {
  signal_until =
      λ due ds. (retain (λ d. not (leb d due)) ds, not (is_empty (retain (λ d. leb d due) ds)));
  next_deadline = first;
}

abbrev start : Pace (List ℕ)
start = record {
  clock = default;
  timed = [];
  loose = [];
  unsubmitted = [];
  views =
      (5, record { client = some 9; suspended = false; hidden_release_ns = 0; frames = [] }) ∷ [];
  tick = none;
}

start-IsGood : IsGood start
start-IsGood = record { watched = λ w. cc; timely = (tt, tt) }

abbrev ops : List (Op (List ℕ))
ops =
    submits true 1000 5 1 [] (record { feedback = []; barriers = 31 ∷ [] })
    ∷ holds true 2000 (some 8) (32 ∷ [])
    ∷ suspends true 2500 5 true
    ∷ fails false 3000 5
    ∷ ticks true 20000000
    ∷ []

run-IsGood_example : IsGood (run timers ops start)
run-IsGood_example = run-IsGood timers ops start (omega arith, tt) start-IsGood

abbrev loose : Pace (List ℕ)
loose = record start {
  timed = record { surface = 3; alive = true; client = some 8; timers = 50000000 ∷ [] } ∷ [];
  loose = record { barrier = 32; client = 9; due_ns = 16666667 } ∷ [];
}

on_tick-Ticked_example :
    Ticked 20000000 loose
      (on_tick timers true 20000000 loose).0
      (on_tick timers true 20000000 loose).1
on_tick-Ticked_example = on_tick-Ticked timers 20000000 loose (omega arith)
