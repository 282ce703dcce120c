-- ===== src/Pacing/Clock.antt =====
-- `on_tick` of src/pacing.rs.
pub mod Releases
use ihs_wl_server.Prelude.{
  ℕ, ◌+◌, ◌-◌, min, max, Bool, true, false, not, ◌&&◌, ◌||◌, List, [], ◌∷◌, ◌++◌, map, Option, none,
  some, ◌==◌, leb, ltb, if◌then◌else◌, lookup, is_some, contains, saturating_sub,
}
use ihs_wl_server.Timing.Clock.{FrameClock, next_vblank, due, release_at, stale_ns}
use ihs_wl_server.Timing.Taken.{Event, signal}
use ihs_wl_server.Timing.Frames.{Frame, release_all, release_older, flush_older, next_stale}
use ihs_wl_server.Pacing.{
  Loose, Timers, Timed, View, Pace, Act, event, to_list, unblock_all, flush_each, hidden_release_ns,
  schedule_if, watch_at,
}

-- `wake`: the earliest.
abbrev pub earliest : Option ℕ → Option ℕ → Option ℕ
earliest none b = b
earliest (some a) none = some a
earliest (some a) (some b) = some (min a b)

-- What is left, what is told, whose client to unblock, and when to wake again.
pub record Turn (A : Type 0) : Type 0 where
  pub kept : List A
  pub acts : List Act
  pub clients : List ℕ
  pub wake : Option ℕ

-- Barriers of updates nobody shows.
unfoldable pub tick_loose : ℕ → List Loose → Turn Loose
tick_loose now [] = record { kept = []; acts = []; clients = []; wake = none }
tick_loose now (l ∷ ls) =
    let rest = tick_loose now ls in
    if leb l.due_ns now
    then record {
      kept = rest.kept;
      acts = event (signal l.barrier) ∷ rest.acts;
      clients = l.client ∷ rest.clients;
      wake = rest.wake;
    }
    else record {
      kept = l ∷ rest.kept;
      acts = rest.acts;
      clients = rest.clients;
      wake = earliest (some l.due_ns) rest.wake;
    }

-- Views whose frame could not be submitted: the ones left, the due ones, and when to wake.
unfoldable pub tick_unsubmitted : ℕ → List (ℕ × ℕ) → List (ℕ × ℕ) × List ℕ × Option ℕ
tick_unsubmitted now [] = ([], [], none)
tick_unsubmitted now ((v, at) ∷ us) =
    let (kept, flush, wake) = tick_unsubmitted now us in
    if leb at now then (kept, v ∷ flush, wake) else ((v, at) ∷ kept, flush, earliest (some at) wake)

-- Commit timers: a surface with no timer pending is not looked at again.
module _ {T : Type 0} (timers : Timers T) where
  abbrev pub retime : T → Timed T → Timed T
  retime t w = record w { timers = t }

  unfoldable pub tick_timed : FrameClock → ℕ → List (Timed T) → Turn (Timed T)
  tick_timed clock now [] = record { kept = []; acts = []; clients = []; wake = none }
  tick_timed clock now (w ∷ ws) =
      let rest = tick_timed clock now ws in
      let (t, released) = timers.signal_until (due clock now) w.timers in
      let clients = (if released then to_list w.client else []) ++ rest.clients in
      if w.alive
      then elim (timers.next_deadline t) [
        | none ↦ record rest { clients = clients }
        | some target ↦ record {
          kept = retime t w ∷ rest.kept;
          acts = rest.acts;
          clients = clients;
          wake = earliest (some (release_at clock target)) rest.wake;
        }
      ]
      else rest

-- A suspended view's barriers, at most every second.
unfoldable pub tick_hidden : ℕ → View → View × List Event × Bool
tick_hidden now e =
    let (frames, events, released) = release_all e.frames in
    if leb e.hidden_release_ns now && is_some (next_stale false e.frames)
    then (
      record e { hidden_release_ns = now + hidden_release_ns; frames = frames },
      events,
      released,
    )
    else (e, [], false)

-- A view in the scene: the frames that went unreported. Also whether its callbacks are to go.
unfoldable pub tick_shown : ℕ → View → View × List Event × Bool × Bool
tick_shown now e =
    let stale_before = saturating_sub now stale_ns in
    let (flushed, flush) = flush_older stale_before e.frames in
    let (frames, events, released) = release_older stale_before flushed in
    (record e { frames = frames }, events, released, flush)

abbrev pub tick_view : ℕ → View → View × List Event × Bool × Bool
tick_view now e =
    let (hidden, events, released) = tick_hidden now e in
    if e.suspended then (hidden, events, released, false) else tick_shown now e

pub record Views : Type 0 where
  pub views : List (ℕ × View)
  pub acts : List Act
  pub flush : List ℕ
  pub clients : List ℕ
  pub wake : Option ℕ

-- `flush` holds the views whose callbacks go anyway.
unfoldable pub tick_views : (now vblank : ℕ) → List ℕ → List (ℕ × View) → Views
unfolding tick_hidden tick_shown
tick_views now vblank flush [] = record {
  views = [];
  acts = [];
  flush = flush;
  clients = [];
  wake = none;
}
tick_views now vblank flush ((v, e) ∷ vs) =
    let (e', events, released, stale) = tick_view now e in
    let flush' = if stale && not (contains flush v) then flush ++ v ∷ [] else flush in
    let rest = tick_views now vblank flush' vs in
    record {
      views = (v, e') ∷ rest.views;
      acts = map event events ++ rest.acts;
      flush = rest.flush;
      clients = (if released then to_list e.client else []) ++ rest.clients;
      wake = earliest (watch_at vblank e') rest.wake;
    }

abbrev pub next_at : ℕ → Option ℕ → Option ℕ
next_at now none = none
next_at now (some at) = some (max at (now + 100000))

-- The timer that fired is gone.
unfoldable pub on_tick :
    {T : Type 0} → Timers T → (inserted : Bool) → ℕ → Pace T → Pace T × List Act
on_tick timers inserted now p =
    let timed = tick_timed timers p.clock now p.timed in
    let loose = tick_loose now p.loose in
    let (unsubmitted, flush, wake) = tick_unsubmitted now p.unsubmitted in
    let views = tick_views now (next_vblank p.clock now) flush p.views in
    let (p', more) =
      schedule_if inserted now
        (next_at now (earliest timed.wake (earliest loose.wake (earliest wake views.wake))))
        (record p {
          timed = timed.kept;
          loose = loose.kept;
          unsubmitted = unsubmitted;
          views = views.views;
          tick = none;
        }) in
    (
      p',
      loose.acts
          ++ views.acts
          ++ flush_each now views.views views.flush
          ++ unblock_all (timed.clients ++ loose.clients ++ views.clients)
          ++ more,
    )
