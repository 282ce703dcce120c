-- ===== src/Pacing/Histories.antt =====
-- Any history of one server's clock of src/pacing.rs.
use ihs_wl_server.Prelude.{
  ==_refl, ℕ, ◌≡◌, Bool, true, List, [], ◌∷◌, Option, none, some, lookup, modify, lookup-modify,
  arith, Option-cases, inl, inr, ◌<◌, u64_max,
}
use ihs_wl_server.Timing.Clock.{FrameClock, next_vblank, update}
use ihs_wl_server.Timing.Frames.{push, Report, frames_presented, shown_of}
use ihs_wl_server.Pacing.{
  submit_frame, Timers, Timed, View, Pace, Act, hold_loose, watch_target, unsubmitted, watch_at,
  watch_frames, resume_at, view_suspended, frame_presented, drop_frames,
}
use ihs_wl_server.Pacing.Clock.{on_tick}
use ihs_wl_server.Pacing.Barriers.{
  push-IsTimely, holds_barrier, IsTimely, take_shown_holds, take_shown-IsTimely, AllTimely-lookup,
  AllTimely-modify, modify_holds,
}
use ihs_wl_server.Timing.Taken.{Taken}
use ihs_wl_server.Pacing.Watched.{IsGood, schedule_tick-IsGood, schedule_if-IsGood}
use ihs_wl_server.Pacing.Steps.{on_tick-IsGood, watch_at-none}

module _ {T : Type 0} where
  hold_loose-IsGood :
      (inserted : Bool) (now : ℕ) (client : Option ℕ) (bs : List ℕ) (p : Pace T)
      → IsGood p
      → IsGood (hold_loose inserted now client bs p).0
  unfolding hold_loose
  hold_loose-IsGood inserted now client [] p h = h
  hold_loose-IsGood inserted now none (b ∷ bs) p h = h
  hold_loose-IsGood inserted now (some c) (b ∷ bs) p h =
      schedule_tick-IsGood inserted now (next_vblank p.clock now) _ h.timely

  watch_target-IsGood :
      (inserted : Bool) (now : ℕ) (t : Timed T) (p : Pace T)
      → IsGood p
      → IsGood (watch_target inserted now t p).0
  unfolding watch_target
  watch_target-IsGood inserted now t p h = schedule_tick-IsGood inserted now now _ h.timely

  unsubmitted-IsGood :
      (inserted : Bool) (now v : ℕ) (p : Pace T)
      → IsGood p
      → IsGood (unsubmitted inserted now v p).0
  unfolding unsubmitted
  unsubmitted-IsGood inserted now v p h =
      schedule_tick-IsGood inserted now (next_vblank p.clock now) _ h.timely

  -- One view's frames become others that hold no more.
  fewer-IsGood :
      (v : ℕ) (e d : View) (clock : FrameClock) (p : Pace T)
      → lookup v p.views ≡ some e
      → (holds_barrier d.frames ≡ true → holds_barrier e.frames ≡ true)
      → IsTimely d.frames
      → IsGood p
      → IsGood (record p { clock = clock; views = modify v (λ (x : View). d) p.views })
  fewer-IsGood v e d clock p at fewer timely h = record {
    watched = λ w. h.watched (ground (arith, w, modify_holds v e d p.views at fewer));
    timely = AllTimely-modify v d p.views h.timely timely;
  }

  frame_presented-IsGood :
      (v : ℕ) (r : Report) (p : Pace T) → IsGood p → IsGood (frame_presented v r p).0
  unfolding frame_presented frames_presented
  frame_presented-IsGood v r p h = elim (Option-cases (lookup v p.views)) [
    | inl e ↦ rw (e, frame_presented) (record { watched = h.watched; timely = h.timely })
    | inr (e, at) ↦
        rw (at, frame_presented)
          (fewer-IsGood v e (record e { frames = (frames_presented r e.frames).0 })
            (update p.clock r.ust_ns r.refresh_ns) p at
            (take_shown_holds (shown_of r.seq e.frames) r e.frames)
            (take_shown-IsTimely (shown_of r.seq e.frames) r e.frames
              (AllTimely-lookup v e p.views h.timely at))
            h)
  ]

  drop_frames-IsGood : (v : ℕ) (p : Pace T) → IsGood p → IsGood (drop_frames v p).0
  unfolding drop_frames
  drop_frames-IsGood v p h = elim (Option-cases (lookup v p.views)) [
    | inl e ↦ rw (e, drop_frames) h
    | inr (e, at) ↦
        rw (at, drop_frames)
          (fewer-IsGood v e (record e { frames = [] }) p.clock p at (λ k. cc) tt h)
  ]

  view_suspended-IsGood :
      (inserted : Bool) (now v : ℕ) (b : Bool) (p : Pace T)
      → IsGood p
      → IsGood (view_suspended inserted now v b p).0
  unfolding view_suspended
  view_suspended-IsGood inserted now v b p h = elim (Option-cases (lookup v p.views)) [
    | inl e ↦ rw (e, view_suspended) h
    | inr (e, at) ↦
        let d : View = record e { suspended = b; hidden_release_ns = next_vblank p.clock now } in
        let k =
          fewer-IsGood v e d p.clock p at (λ y. y) (AllTimely-lookup v e p.views h.timely at) h in
        rw (at, view_suspended)
          (schedule_if-IsGood inserted now (resume_at now b d) _ k.timely (λ n. k.watched))
  ]

  -- A frame is added, and watched.
  submit_frame-IsGood :
      (inserted : Bool) (now v seq : ℕ) (shown : List (ℕ × ℕ)) (t : Taken) (p : Pace T)
      → now < u64_max
      → IsGood p
      → IsGood (submit_frame inserted now v seq shown t p).0
  unfolding submit_frame watch_frames
  submit_frame-IsGood inserted now v seq shown t p lt h = elim (Option-cases (lookup v p.views)) [
    | inl e ↦ rw (e, submit_frame) h
    | inr (e, at) ↦
        let d : View = record e { frames = (push now e.frames seq shown t).0 } in
        let timely =
          push-IsTimely now e.frames seq shown t lt (AllTimely-lookup v e p.views h.timely at) in
        let stored : lookup v (modify v (λ (x : View). d) p.views) ≡ some d =
          ground (arith, at, ==_refl v, lookup-modify v v (λ (x : View). d) p.views) in
        rw (at, submit_frame)
          (rw (stored, watch_frames)
            (schedule_if-IsGood inserted now (watch_at (next_vblank p.clock now) d) _
              (AllTimely-modify v d p.views h.timely timely)
              λ n.
                let k =
                  fewer-IsGood v e d p.clock p at
                    (λ y. absurd (ground (arith, y, watch_at-none (next_vblank p.clock now) d n)))
                    timely h in
                k.watched))
  ]

-- What happens to the clock: the calls with the time and whether their timer is taken.
pub data Op (T : Type 0) : Type 0 where
  submits : (inserted : Bool) → (now v seq : ℕ) → List (ℕ × ℕ) → Taken → Op T
  fails : (inserted : Bool) → (now v : ℕ) → Op T
  holds : (inserted : Bool) → ℕ → Option ℕ → List ℕ → Op T
  targets : (inserted : Bool) → ℕ → Timed T → Op T
  reports : ℕ → Report → Op T
  suspends : (inserted : Bool) → (now v : ℕ) → Bool → Op T
  drops : ℕ → Op T
  ticks : (inserted : Bool) → ℕ → Op T

unfoldable pub step : {T : Type 0} → Timers T → Op T → Pace T → Pace T × List Act
step timers (submits inserted now v seq shown t) p = submit_frame inserted now v seq shown t p
step timers (fails inserted now v) p = unsubmitted inserted now v p
step timers (holds inserted now client bs) p = hold_loose inserted now client bs p
step timers (targets inserted now t) p = watch_target inserted now t p
step timers (reports v r) p = frame_presented v r p
step timers (suspends inserted now v b) p = view_suspended inserted now v b p
step timers (drops v) p = drop_frames v p
step timers (ticks inserted now) p = on_tick timers inserted now p

unfoldable pub run : {T : Type 0} → Timers T → List (Op T) → Pace T → Pace T
run timers [] p = p
run timers (o ∷ os) p = run timers os (step timers o p).0

-- Frames are submitted before the end of time, about 584 years after the clock's start.
abbrev pub InTime : {T : Type 0} → List (Op T) → Type 0
InTime [] = Unit {0}
InTime (submits inserted now v seq shown t ∷ os) = (now < u64_max) × InTime os
InTime (_ ∷ os) = InTime os

step-IsGood :
    {T : Type 0} (timers : Timers T) (o : Op T) (p : Pace T)
    → InTime (o ∷ [])
    → IsGood p
    → IsGood (step timers o p).0
unfolding step
step-IsGood timers (submits inserted now v seq shown t) p l h =
    submit_frame-IsGood inserted now v seq shown t p l.0 h
step-IsGood timers (fails inserted now v) p l h = unsubmitted-IsGood inserted now v p h
step-IsGood timers (holds inserted now client bs) p l h =
    hold_loose-IsGood inserted now client bs p h
step-IsGood timers (targets inserted now t) p l h = watch_target-IsGood inserted now t p h
step-IsGood timers (reports v r) p l h = frame_presented-IsGood v r p h
step-IsGood timers (suspends inserted now v b) p l h = view_suspended-IsGood inserted now v b p h
step-IsGood timers (drops v) p l h = drop_frames-IsGood v p h
step-IsGood timers (ticks inserted now) p l h = on_tick-IsGood timers inserted now p h.timely

InTime-cons :
    {T : Type 0} (o : Op T) (os : List (Op T)) → InTime (o ∷ os) → InTime (o ∷ []) × InTime os
InTime-cons (submits inserted now v seq shown t) os h = ((h.0, tt), h.1)
InTime-cons (fails inserted now v) os h = (tt, h)
InTime-cons (holds inserted now client bs) os h = (tt, h)
InTime-cons (targets inserted now t) os h = (tt, h)
InTime-cons (reports v r) os h = (tt, h)
InTime-cons (suspends inserted now v b) os h = (tt, h)
InTime-cons (drops v) os h = (tt, h)
InTime-cons (ticks inserted now) os h = (tt, h)

-- Nothing waits unwatched: from a state in which a tick is due if anything waits (a barrier of a view's
-- frames or of no view, a commit's target time, a frame that could not be submitted), any history of
-- submits in time, failures, reports, suspensions, unbindings and ticks leads to another, whether or
-- not the event loop takes the timers.
pub run-IsGood :
    {T : Type 0} (timers : Timers T) (os : List (Op T)) (p : Pace T)
    → InTime os
    → IsGood p
    → IsGood (run timers os p)
unfolding run
run-IsGood timers [] p l h = h
run-IsGood timers (o ∷ os) p l h =
    let (first, rest) = InTime-cons o os l in
    run-IsGood timers os (step timers o p).0 rest (step-IsGood timers o p first h)
