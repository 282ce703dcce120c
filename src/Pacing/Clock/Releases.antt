-- ===== src/Pacing/Clock/Releases.antt =====
-- What a tick of src/pacing.rs leaves waiting, and whom it unblocks.
use ihs_wl_server.Prelude.{
  ap, ℕ, ◌≡◌, refl, Bool, true, false, not, ◌&&◌, ◌||◌, List, [], ◌∷◌, ◌++◌, Option, none, some,
  ◌==◌, leb, if◌then◌else◌, is_some, contains, All, arith, Bool-cases, Option-cases, inl, inr, ◌<◌,
  u64_max, ◌⊎◌,
}
use ihs_wl_server.Timing.Taken.{signal}
use ihs_wl_server.Timing.Clock.{next_vblank, stale_ns}
use ihs_wl_server.Timing.Frames.{Frame, release_older, flush_older, next_stale}
use ihs_wl_server.Pacing.{Loose, Timers, View, Pace, Act, schedule_tick, schedule_if}
use ihs_wl_server.Pacing.Clock.{
  earliest, tick_loose, tick_unsubmitted, tick_timed, tick_hidden, tick_shown, tick_view,
  tick_views, next_at, on_tick,
}
use ihs_wl_server.Pacing.Barriers.{holds_barrier}
use ihs_wl_server.Timing.Frames.Progress.{next_stale-tick_frames}
use ihs_wl_server.Prelude.{contains-append, ◌≤◌, ◌-◌, ==_iff, ltb}
use ihs_wl_server.Pacing.{event, unblock, frame_callbacks, unblock_from, unblock_all, flush_each}

-- The client is told to go on.
abbrev pub Unblocks : ℕ → List Act → Type 0
Unblocks c [] = ⊥
Unblocks c (unblock d ∷ xs) = (d ≡ c) ⊎ Unblocks c xs
Unblocks c (event e ∷ xs) = Unblocks c xs
Unblocks c (frame_callbacks v t ∷ xs) = Unblocks c xs

Unblocks-left : (c : ℕ) (xs bs : List Act) → Unblocks c xs → Unblocks c (xs ++ bs)
Unblocks-left c [] bs h = absurd h
Unblocks-left c (unblock d ∷ xs) bs (inl e) = inl e
Unblocks-left c (unblock d ∷ xs) bs (inr h) = inr (Unblocks-left c xs bs h)
Unblocks-left c (event e ∷ xs) bs h = Unblocks-left c xs bs h
Unblocks-left c (frame_callbacks v t ∷ xs) bs h = Unblocks-left c xs bs h

Unblocks-right : (c : ℕ) (xs bs : List Act) → Unblocks c bs → Unblocks c (xs ++ bs)
Unblocks-right c [] bs h = h
Unblocks-right c (unblock d ∷ xs) bs h = inr (Unblocks-right c xs bs h)
Unblocks-right c (event e ∷ xs) bs h = Unblocks-right c xs bs h
Unblocks-right c (frame_callbacks v t ∷ xs) bs h = Unblocks-right c xs bs h

unblock_from-Unblocks :
    (c : ℕ) (seen cs : List ℕ)
    → contains cs c ≡ true
    → contains seen c ≡ false
    → Unblocks c (unblock_from seen cs)
unfolding unblock_from
unblock_from-Unblocks c seen [] h n = cc
unblock_from-Unblocks c seen (d ∷ cs) h n = elim (Bool-cases (contains seen d)) [
  | inl y ↦ rw y (unblock_from-Unblocks c seen cs (ground (arith, h, n, y, ==_iff d c)) n)
  | inr y ↦ rw y (elim (Bool-cases (d == c)) [
    | inl e ↦ inl ((==_iff d c).0 e)
    | inr e ↦ inr (
        unblock_from-Unblocks c (seen ++ d ∷ []) cs (ground (arith, h, e))
          (ground (arith, n, e, contains-append c seen (d ∷ []))))
  ])
]

-- The client of a barrier that is due.
abbrev pub has_due : ℕ → ℕ → List Loose → Bool
has_due now c [] = false
has_due now c (l ∷ ls) = (leb l.due_ns now && l.client == c) || has_due now c ls

tick_loose-clients :
    (now c : ℕ) (ls : List Loose)
    → has_due now c ls ≡ true
    → contains (tick_loose now ls).clients c ≡ true
unfolding tick_loose
tick_loose-clients now c [] h = cc
tick_loose-clients now c (l ∷ ls) h = ground (arith, h, tick_loose-clients now c ls)

-- The barrier is signaled.
abbrev pub Signals : ℕ → List Act → Type 0
Signals b [] = ⊥
Signals b (event e ∷ xs) = (e ≡ signal b) ⊎ Signals b xs
Signals b (unblock d ∷ xs) = Signals b xs
Signals b (frame_callbacks v t ∷ xs) = Signals b xs

Signals-left : (b : ℕ) (xs ys : List Act) → Signals b xs → Signals b (xs ++ ys)
Signals-left b [] ys h = absurd h
Signals-left b (event e ∷ xs) ys (inl h) = inl h
Signals-left b (event e ∷ xs) ys (inr h) = inr (Signals-left b xs ys h)
Signals-left b (unblock d ∷ xs) ys h = Signals-left b xs ys h
Signals-left b (frame_callbacks v t ∷ xs) ys h = Signals-left b xs ys h

abbrev pub is_due : ℕ → ℕ → List Loose → Bool
is_due now b [] = false
is_due now b (l ∷ ls) = (leb l.due_ns now && l.barrier == b) || is_due now b ls

tick_loose-Signals :
    (now b : ℕ) (ls : List Loose) → is_due now b ls ≡ true → Signals b (tick_loose now ls).acts
unfolding tick_loose
tick_loose-Signals now b [] h = cc
tick_loose-Signals now b (l ∷ ls) h = elim (Bool-cases (leb l.due_ns now)) [
  | inr late ↦ rw late (tick_loose-Signals now b ls (ground (arith, late, h)))
  | inl late ↦ rw late (elim (Bool-cases (l.barrier == b)) [
    | inl same ↦ inl (ap signal (ground (arith, same, ==_iff l.barrier b)))
    | inr other ↦ inr (tick_loose-Signals now b ls (ground (arith, h, other)))
  ])
]

tick_loose-kept :
    (now : ℕ) (ls : List Loose) → All (λ (l : Loose). now < l.due_ns) (tick_loose now ls).kept
unfolding tick_loose
tick_loose-kept now [] = tt
tick_loose-kept now (l ∷ ls) = ground (arith, tick_loose-kept now ls)

tick_unsubmitted-kept :
    (now : ℕ) (us : List (ℕ × ℕ)) → All (λ (u : ℕ × ℕ). now < u.1) (tick_unsubmitted now us).0
unfolding tick_unsubmitted
tick_unsubmitted-kept now [] = tt
tick_unsubmitted-kept now (u ∷ us) = ground (arith, tick_unsubmitted-kept now us)

-- Nothing of the view's is overdue.
abbrev pub is_done : ℕ → View → Bool
is_done now e =
    if e.suspended
    then ltb now e.hidden_release_ns || not (holds_barrier e.frames)
    else elim (next_stale true e.frames) [ none ↦ true | some at ↦ leb now at ]

no_stale : (fs : List Frame) → next_stale false fs ≡ none → holds_barrier fs ≡ false
unfolding next_stale
no_stale [] h = refl
no_stale (f ∷ fs) h = ground (arith, h, no_stale fs)

tick_view-done : (now : ℕ) (e : View) → now ≤ u64_max → is_done now (tick_view now e).0 ≡ true
unfolding tick_hidden tick_shown
tick_view-done now e range = elim (Bool-cases e.suspended) [
  | inl s ↦ elim (Bool-cases (leb e.hidden_release_ns now && is_some (next_stale false e.frames))) [
    | inl d ↦ ground (arith, s, d)
    | inr d ↦ ground (arith, s, d, no_stale e.frames)
  ]
  | inr s ↦
      let fs = (release_older (now - stale_ns) (flush_older (now - stale_ns) e.frames).0).0 in
      elim (Option-cases (next_stale true fs)) [
        | inl n ↦ ground (arith, s, n)
        | inr (at, n) ↦ ground (arith, s, n, next_stale-tick_frames now at true e.frames range n)
      ]
]

tick_views-done :
    (now vblank : ℕ) (flush : List ℕ) (vs : List (ℕ × View))
    → now ≤ u64_max
    → All (λ (x : ℕ × View). is_done now x.1 ≡ true) (tick_views now vblank flush vs).views
unfolding tick_views
tick_views-done now vblank flush [] range = tt
tick_views-done now vblank flush ((v, e) ∷ vs) range = (
  tick_view-done now e range,
  tick_views-done now vblank
      (if (tick_view now e).3 && not (contains flush v) then flush ++ v ∷ [] else flush) vs range,
)

-- What a tick leaves, if the event loop takes its timer: no barrier of no view and no failed frame
-- that is due, no suspended view with barriers whose time has come, no view in the scene with frames
-- past their deadline. And each due barrier of no view is signaled, and its client unblocked.
pub record Ticked {T : Type 0} (now : ℕ) (before after : Pace T) (acts : List Act) : Type 0 where
  pub loose : All (λ (l : Loose). now < l.due_ns) after.loose
  pub unsubmitted : All (λ (u : ℕ × ℕ). now < u.1) after.unsubmitted
  pub views : All (λ (x : ℕ × View). is_done now x.1 ≡ true) after.views
  pub clients : (c : ℕ) → has_due now c before.loose ≡ true → Unblocks c acts
  pub signals : (b : ℕ) → is_due now b before.loose ≡ true → Signals b acts

schedule-Ticked :
    {T : Type 0} (now : ℕ) (at_ns : Option ℕ) (p q : Pace T) (acts : List Act)
    → Ticked now p (record q { tick = none }) acts
    → let next = schedule_if true now at_ns (record q { tick = none }) in
      Ticked now p next.0 (acts ++ next.1)
unfolding schedule_tick
schedule-Ticked now none p q acts h = record {
  loose = h.loose;
  unsubmitted = h.unsubmitted;
  views = h.views;
  clients = λ c k. Unblocks-left c acts [] (h.clients c k);
  signals = λ b k. Signals-left b acts [] (h.signals b k);
}
schedule-Ticked now (some at_ns) p q acts h = record {
  loose = h.loose;
  unsubmitted = h.unsubmitted;
  views = h.views;
  clients = λ c k. Unblocks-left c acts [] (h.clients c k);
  signals = λ b k. Signals-left b acts [] (h.signals b k);
}

-- A tick that sets its timer leaves nothing overdue: no barrier of no view, no failed frame, no suspended
-- view with barriers and no frame of a view in the scene is kept past its time. And each barrier of no
-- view that is due is signaled, and its client unblocked.
pub on_tick-Ticked :
    {T : Type 0} (timers : Timers T) (now : ℕ) (p : Pace T)
    → now ≤ u64_max
    → Ticked now p (on_tick timers true now p).0 (on_tick timers true now p).1
unfolding on_tick
on_tick-Ticked timers now p range =
    let timed = tick_timed timers p.clock now p.timed in
    let loose = tick_loose now p.loose in
    let us = tick_unsubmitted now p.unsubmitted in
    let views = tick_views now (next_vblank p.clock now) us.1 p.views in
    schedule-Ticked now
      (next_at now (earliest timed.wake (earliest loose.wake (earliest us.2 views.wake)))) p
      (record p { timed = timed.kept; loose = loose.kept; unsubmitted = us.0; views = views.views })
      (loose.acts
        ++ views.acts
        ++ flush_each now views.views views.flush
        ++ unblock_all (timed.clients ++ loose.clients ++ views.clients))
      (record {
        loose = tick_loose-kept now p.loose;
        unsubmitted = tick_unsubmitted-kept now p.unsubmitted;
        views = tick_views-done now (next_vblank p.clock now) us.1 p.views range;
        clients = λ c h.
            Unblocks-right c (loose.acts ++ views.acts ++ flush_each now views.views views.flush)
              (unblock_all (timed.clients ++ loose.clients ++ views.clients))
              (unblock_from-Unblocks c [] (timed.clients ++ loose.clients ++ views.clients)
                (ground (
                  arith,
                  tick_loose-clients now c p.loose h,
                  contains-append c (timed.clients ++ loose.clients) views.clients,
                  contains-append c timed.clients loose.clients,
                ))
                refl);
        signals = λ b h.
            Signals-left b (loose.acts ++ views.acts ++ flush_each now views.views views.flush)
              (unblock_all (timed.clients ++ loose.clients ++ views.clients))
              (Signals-left b (loose.acts ++ views.acts) (flush_each now views.views views.flush)
                (Signals-left b loose.acts views.acts (tick_loose-Signals now b p.loose h)));
      })
