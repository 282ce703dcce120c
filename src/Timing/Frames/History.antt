-- ===== src/Timing/Frames/History.antt =====
-- Histories of one view's `Frames` of src/timing.rs: any sequence of submits, reports, stale ticks
-- and unbinds.
use ihs_wl_server.Prelude.{ap, ℕ, ◌+◌, List, [], ◌∷◌, ◌++◌, count, count-append, arith, ◌≡◌, refl}
use ihs_wl_server.Timing.Taken.{Event, Taken}
use ihs_wl_server.Timing.Frames.{
  Report, Frame, push, frames_presented, release_older, flush_older, clear,
}
use ihs_wl_server.Timing.Frames.Accounts.{
  signals, answers, callbacks, held_barriers, held_callbacks, signals-append, answers-append,
}
use ihs_wl_server.Timing.Frames.Balance.{
  push-accounts, frames_presented-Balanced, release_older-Balanced, flush_older-Balanced,
  clear-Balanced,
}

pub data Op : Type 0 where
  submit : (now seq : ℕ) → List (ℕ × ℕ) → Taken → Op
  report : Report → Op
  release_stale : ℕ → Op
  flush_stale : ℕ → Op
  unbind : Op

unfoldable pub step : Op → List Frame → List Frame × List Event
step (submit now seq shown t) fs = ((push now fs seq shown t).0, (push now fs seq shown t).1)
step (report r) fs = ((frames_presented r fs).0, (frames_presented r fs).1)
step (release_stale t) fs = ((release_older t fs).0, (release_older t fs).1)
step (flush_stale t) fs = ((flush_older t fs).0, [])
step unbind fs = ([], (clear fs).0)

unfoldable pub run : List Op → List Frame → List Frame × List Event
unfolding step
run [] fs = (fs, [])
run (o ∷ os) fs =
    let (fs', events) = step o fs in let (fs'', more) = run os fs' in (fs'', events ++ more)

-- The barriers and callbacks that the submits of a history hand over.
abbrev pub given_barriers : List Op → List ℕ
given_barriers [] = []
given_barriers (submit now seq shown t ∷ os) = t.barriers ++ given_barriers os
given_barriers (_ ∷ os) = given_barriers os

abbrev pub given_callbacks : List Op → List ℕ
given_callbacks [] = []
given_callbacks (submit now seq shown t ∷ os) = callbacks t.feedback ++ given_callbacks os
given_callbacks (_ ∷ os) = given_callbacks os

module _ (b c : ℕ) where
  pub record Accounts (before after : List Frame) (events : List Event) (o : List Op) : Type 0 where
    pub barriers :
        count b (signals events) + count b (held_barriers after)
        ≡ count b (held_barriers before) + count b (given_barriers o)
    pub feedback :
        count c (answers events) + count c (held_callbacks after)
        ≡ count c (held_callbacks before) + count c (given_callbacks o)

  step-Accounts : (o : Op) (fs : List Frame) → Accounts fs (step o fs).0 (step o fs).1 (o ∷ [])
  unfolding step
  step-Accounts (submit now seq shown t) fs = omega (
    arith,
    push-accounts b c now fs seq shown t,
    count-append b t.barriers [],
    count-append c (callbacks t.feedback) [],
  )
  step-Accounts (report r) fs = omega (arith, frames_presented-Balanced b c r fs)
  step-Accounts (release_stale t) fs = omega (arith, release_older-Balanced b c t fs)
  step-Accounts (flush_stale t) fs = omega (arith, flush_older-Balanced b c t fs)
  step-Accounts unbind fs = omega (arith, clear-Balanced b c fs)

  given-cons :
      (o : Op) (os : List Op)
      → (count b (given_barriers (o ∷ os))
          ≡ count b (given_barriers (o ∷ [])) + count b (given_barriers os))
        × (count c (given_callbacks (o ∷ os))
            ≡ count c (given_callbacks (o ∷ [])) + count c (given_callbacks os))
  given-cons (submit now seq shown t) os = omega (
    arith,
    count-append b t.barriers [],
    count-append b t.barriers (given_barriers os),
    count-append c (callbacks t.feedback) [],
    count-append c (callbacks t.feedback) (given_callbacks os),
  )
  given-cons _ os = omega arith

  -- Over any history, what clients were told and what is still held add up to what was held and
  -- handed over.
  pub run-Accounts : (os : List Op) (fs : List Frame) → Accounts fs (run os fs).0 (run os fs).1 os
  unfolding run
  run-Accounts [] fs = omega arith
  run-Accounts (o ∷ os) fs =
      let first = step-Accounts o fs in
      let rest = run-Accounts os (step o fs).0 in
      let events = (run os (step o fs).0).1 in
      omega (
        arith,
        first,
        rest,
        given-cons o os,
        signals-append b (step o fs).1 events,
        answers-append c (step o fs).1 events,
      )

-- A view's whole life, from its first submit to its unbinding.
abbrev pub life : List Op → List Event
life os = (run (os ++ unbind ∷ []) []).1

run-append-unbind : (os : List Op) (fs : List Frame) → (run (os ++ unbind ∷ []) fs).0 ≡ []
unfolding run
run-append-unbind [] fs = refl
run-append-unbind (o ∷ os) fs = run-append-unbind os (step o fs).0

given-append-unbind :
    (b c : ℕ) (os : List Op)
    → (count b (given_barriers (os ++ unbind ∷ [])) ≡ count b (given_barriers os))
      × (count c (given_callbacks (os ++ unbind ∷ [])) ≡ count c (given_callbacks os))
given-append-unbind b c [] = (refl, refl)
given-append-unbind b c (o ∷ os) =
    omega
      (arith, given-append-unbind b c os, given-cons b c o os, given-cons b c o (os ++ unbind ∷ []))

-- Each barrier handed over with a submit is signaled, and each feedback callback answered, exactly
-- as often as it was handed over, once the view is unbound, whatever happened in between.
pub life-accounts :
    (os : List Op) (b c : ℕ)
    → (count b (signals (life os)) ≡ count b (given_barriers os))
      × (count c (answers (life os)) ≡ count c (given_callbacks os))
life-accounts os b c =
    let all = run-Accounts b c (os ++ unbind ∷ []) [] in
    omega (
      arith,
      all,
      given-append-unbind b c os,
      ap (λ fs. count b (held_barriers fs)) (run-append-unbind os []),
      ap (λ fs. count c (held_callbacks fs)) (run-append-unbind os []),
    )
