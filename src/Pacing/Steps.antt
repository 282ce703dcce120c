-- ===== src/Pacing/Steps.antt =====
-- Each operation of src/pacing.rs, from a state in which what waits is watched.
use ihs_wl_server.Prelude.{
  ℕ, ◌≡◌, refl, Bool, false, not, ◌&&◌, List, [], ◌∷◌, ◌++◌, Option, none, some, leb, if◌then◌else◌,
  is_some, contains, arith, Bool-cases, Option-cases, inl, inr, u64_max,
}
use ihs_wl_server.Timing.Clock.{due, release_at, FrameClock, next_vblank}
use ihs_wl_server.Timing.Frames.{release_all, next_stale}
use ihs_wl_server.Pacing.{Loose, Timers, Timed, View, Pace, watch_at}
use ihs_wl_server.Pacing.Clock.{
  earliest, tick_loose, tick_unsubmitted, tick_timed, tick_hidden, tick_shown, tick_view,
  tick_views, next_at, on_tick,
}
use ihs_wl_server.Pacing.Barriers.{
  holds_barrier, some_view_holds, next_stale_holds, IsTimely, release_older-IsTimely,
  flush_older-IsTimely, AllTimely,
}
use ihs_wl_server.Pacing.Watched.{IsGood, schedule_if-IsGood}

-- No wake-up is asked for only if nothing is left.
earliest-none : (a b : Option ℕ) → earliest a b ≡ none → (a ≡ none) × (b ≡ none)
earliest-none none b e = (refl, e)
earliest-none (some a) none e = cc
earliest-none (some a) (some b) e = cc

tick_loose-none :
    (now : ℕ) (ls : List Loose) → (tick_loose now ls).wake ≡ none → (tick_loose now ls).kept ≡ []
unfolding tick_loose
tick_loose-none now [] e = refl
tick_loose-none now (l ∷ ls) e = elim (Bool-cases (leb l.due_ns now)) [
  | inl d ↦ ground (arith, d, e, tick_loose-none now ls)
  | inr d ↦ absurd (ground (arith, d, e, earliest-none (some l.due_ns) (tick_loose now ls).wake))
]

tick_unsubmitted-none :
    (now : ℕ) (us : List (ℕ × ℕ))
    → (tick_unsubmitted now us).2 ≡ none
    → (tick_unsubmitted now us).0 ≡ []
unfolding tick_unsubmitted
tick_unsubmitted-none now [] e = refl
tick_unsubmitted-none now ((v, at) ∷ us) e = elim (Bool-cases (leb at now)) [
  | inl d ↦ ground (arith, d, e, tick_unsubmitted-none now us)
  | inr d ↦ absurd (ground (arith, d, e, earliest-none (some at) (tick_unsubmitted now us).2))
]

tick_timed-none :
    {T : Type 0} (timers : Timers T) (clock : FrameClock) (now : ℕ) (ws : List (Timed T))
    → (tick_timed timers clock now ws).wake ≡ none
    → (tick_timed timers clock now ws).kept ≡ []
unfolding tick_timed
tick_timed-none timers clock now [] e = refl
tick_timed-none timers clock now (w ∷ ws) e = elim (Bool-cases w.alive) [
  | inr d ↦ ground (arith, d, e, tick_timed-none timers clock now ws)
  | inl d ↦
      elim (Option-cases (timers.next_deadline (timers.signal_until (due clock now) w.timers).0)) [
        | inl n ↦ ground (arith, d, n, e, tick_timed-none timers clock now ws)
        | inr (target, n) ↦ absurd (
            ground (
              arith,
              d,
              n,
              e,
              earliest-none (some (release_at clock target)) (tick_timed timers clock now ws).wake,
            ))
      ]
]

-- A view that asks for no wake-up holds no barrier.
pub watch_at-none :
    (vblank : ℕ) (e : View) → watch_at vblank e ≡ none → holds_barrier e.frames ≡ false
unfolding watch_at
watch_at-none vblank e w = elim (Bool-cases (holds_barrier e.frames)) [
  | inr n ↦ n
  | inl y ↦ absurd (ground (arith, w, next_stale_holds (not e.suspended) e.frames y))
]

tick_views-none :
    (now vblank : ℕ) (flush : List ℕ) (vs : List (ℕ × View))
    → (tick_views now vblank flush vs).wake ≡ none
    → some_view_holds (tick_views now vblank flush vs).views ≡ false
unfolding tick_views
tick_views-none now vblank flush [] e = refl
tick_views-none now vblank flush ((v, x) ∷ vs) e =
    let flush' = if (tick_view now x).3 && not (contains flush v) then flush ++ v ∷ [] else flush in
    let rest = tick_views-none now vblank flush' vs in
    let none' =
      earliest-none (watch_at vblank (tick_view now x).0) (tick_views now vblank flush' vs).wake
        e in
    ground (arith, watch_at-none vblank (tick_view now x).0 none'.0, rest none'.1)

tick_view-IsTimely : (now : ℕ) (e : View) → IsTimely e.frames → IsTimely (tick_view now e).0.frames
unfolding tick_hidden tick_shown release_all
tick_view-IsTimely now e h = elim (Bool-cases e.suspended) [
  | inl s ↦
      rw s (elim (Bool-cases (leb e.hidden_release_ns now && is_some (next_stale false e.frames))) [
        | inl d ↦ rw d (release_older-IsTimely u64_max e.frames h)
        | inr d ↦ rw d h
      ])
  | inr s ↦ rw s (release_older-IsTimely _ _ (flush_older-IsTimely _ e.frames h))
]

tick_views-AllTimely :
    (now vblank : ℕ) (flush : List ℕ) (vs : List (ℕ × View))
    → AllTimely vs
    → AllTimely (tick_views now vblank flush vs).views
unfolding tick_views
tick_views-AllTimely now vblank flush [] h = tt
tick_views-AllTimely now vblank flush ((v, x) ∷ vs) h = (
  tick_view-IsTimely now x h.0,
  tick_views-AllTimely now vblank
      (if (tick_view now x).3 && not (contains flush v) then flush ++ v ∷ [] else flush) vs h.1,
)

next_at-none : (now : ℕ) (o : Option ℕ) → next_at now o ≡ none → o ≡ none
next_at-none now none e = refl
next_at-none now (some at) e = cc

pub on_tick-IsGood :
    {T : Type 0} (timers : Timers T) (inserted : Bool) (now : ℕ) (p : Pace T)
    → AllTimely p.views
    → IsGood (on_tick timers inserted now p).0
unfolding on_tick
on_tick-IsGood timers inserted now p h =
    let timed = tick_timed timers p.clock now p.timed in
    let loose = tick_loose now p.loose in
    let us = tick_unsubmitted now p.unsubmitted in
    let views = tick_views now (next_vblank p.clock now) us.1 p.views in
    schedule_if-IsGood inserted now _ _
      (tick_views-AllTimely now (next_vblank p.clock now) us.1 p.views h)
      λ e w.
        let a =
          earliest-none timed.wake (earliest loose.wake (earliest us.2 views.wake))
            (next_at-none now _ e) in
        let b = earliest-none loose.wake (earliest us.2 views.wake) a.1 in
        let c = earliest-none us.2 views.wake b.1 in
        absurd (
          ground (
            arith,
            w,
            tick_timed-none timers p.clock now p.timed a.0,
            tick_loose-none now p.loose b.0,
            tick_unsubmitted-none now p.unsubmitted c.0,
            tick_views-none now (next_vblank p.clock now) us.1 p.views c.1,
          ))
