-- ===== src/Timing/Frames/Bounds.antt =====
-- How many frames a view of src/timing.rs holds, and in what order.
use ihs_wl_server.Prelude.{
  ℕ, ◌≤◌, ◌<◌, List, [], ◌∷◌, ◌++◌, ltb, leb, arith, ◌≡◌, refl, length, retain,
}
use ihs_wl_server.Timing.Frames.{
  Report, Frame, release, make_room, new_frame, push, take_shown, frames_presented, release_older,
  flush_older, max_in_flight, shown_of,
}
use ihs_wl_server.Timing.Frames.Shown.{Ascends, told, frames_presented_lem}
use ihs_wl_server.Timing.Frames.History.{
  Op, submit, report, release_stale, flush_stale, unbind, step, run,
}

length-make_room : (fs : List Frame) → length (make_room fs).0 ≤ max_in_flight
unfolding make_room
length-make_room [] = omega arith
length-make_room (f ∷ fs) = ground (arith, length-make_room fs)

length-take_shown :
    (shown : List (ℕ × ℕ)) (r : Report) (fs : List Frame)
    → length (take_shown shown r fs).0 ≤ length fs
unfolding take_shown
length-take_shown shown r [] = omega arith
length-take_shown shown r (f ∷ fs) = ground (arith, length-take_shown shown r fs)

length-release_older : (t : ℕ) (fs : List Frame) → length (release_older t fs).0 ≡ length fs
unfolding release_older
length-release_older t [] = refl
length-release_older t (f ∷ fs) = ground (arith, length-release_older t fs)

length-flush_older : (t : ℕ) (fs : List Frame) → length (flush_older t fs).0 ≡ length fs
unfolding flush_older
length-flush_older t [] = refl
length-flush_older t (f ∷ fs) = ground (arith, length-flush_older t fs)

length-step :
    (o : Op) (fs : List Frame) → length fs ≤ max_in_flight → length (step o fs).0 ≤ max_in_flight
unfolding step push frames_presented
length-step (submit now seq shown t) fs h = length-make_room (fs ++ new_frame now seq shown t ∷ [])
length-step (report r) fs h = omega (arith, length-take_shown (shown_of r.seq fs) r fs)
length-step (release_stale t) fs h = omega (arith, length-release_older t fs)
length-step (flush_stale t) fs h = omega (arith, length-flush_older t fs)
length-step unbind fs h = omega arith

-- However often a client commits while nothing is reported, a view holds 16 frames at most.
pub length-run :
    (os : List Op) (fs : List Frame)
    → length fs ≤ max_in_flight
    → length (run os fs).0 ≤ max_in_flight
unfolding run
length-run [] fs h = h
length-run (o ∷ os) fs h = length-run os (step o fs).0 (length-step o fs h)

-- Every submit of a history carries a sequence number above the ones before it.
abbrev pub SeqsGrow : ℕ → List Op → Type 0
SeqsGrow n [] = Unit {0}
SeqsGrow n (submit now seq shown t ∷ os) = (n < seq) × SeqsGrow seq os
SeqsGrow n (report _ ∷ os) = SeqsGrow n os
SeqsGrow n (release_stale _ ∷ os) = SeqsGrow n os
SeqsGrow n (flush_stale _ ∷ os) = SeqsGrow n os
SeqsGrow n (unbind ∷ os) = SeqsGrow n os

-- Frames in order, none above `top`.
abbrev pub InOrder : ℕ → ℕ → List Frame → Type 0
InOrder n top [] = Unit {0}
InOrder n top (f ∷ fs) = (n < f.seq) × (f.seq ≤ top) × InOrder f.seq top fs

InOrder-weaken : (m n top : ℕ) (fs : List Frame) → m ≤ n → InOrder n top fs → InOrder m top fs
InOrder-weaken m n top [] h a = tt
InOrder-weaken m n top (f ∷ fs) h a = (omega arith, a.1, a.2)

InOrder-snoc :
    (n top : ℕ) (fs : List Frame) (g : Frame)
    → InOrder n top fs
    → n ≤ top
    → top < g.seq
    → InOrder n g.seq (fs ++ g ∷ [])
InOrder-snoc n top [] g a h k = (omega arith, omega arith, tt)
InOrder-snoc n top (f ∷ fs) g a h k = (a.0, omega arith, InOrder-snoc f.seq top fs g a.2 a.1 k)

InOrder-make_room :
    (n top : ℕ) (fs : List Frame) → InOrder n top fs → InOrder n top (make_room fs).0
unfolding make_room
InOrder-make_room n top [] a = tt
InOrder-make_room n top (f ∷ fs) a = ground (
  arith,
  InOrder-weaken n f.seq top (make_room fs).0 (omega arith) (InOrder-make_room f.seq top fs a.2),
)

InOrder-take_shown :
    (shown : List (ℕ × ℕ)) (r : Report) (n top : ℕ) (fs : List Frame)
    → InOrder n top fs
    → InOrder n top (take_shown shown r fs).0
unfolding take_shown
InOrder-take_shown shown r n top [] a = tt
InOrder-take_shown shown r n top (f ∷ fs) a = ground (
  arith,
  InOrder-weaken n f.seq top (take_shown shown r fs).0 (omega arith)
      (InOrder-take_shown shown r f.seq top fs a.2),
)

InOrder-release_older :
    (t n top : ℕ) (fs : List Frame) → InOrder n top fs → InOrder n top (release_older t fs).0
unfolding release_older release
InOrder-release_older t n top [] a = tt
InOrder-release_older t n top (f ∷ fs) a = ground (arith, InOrder-release_older t f.seq top fs a.2)

InOrder-flush_older :
    (t n top : ℕ) (fs : List Frame) → InOrder n top fs → InOrder n top (flush_older t fs).0
unfolding flush_older
InOrder-flush_older t n top [] a = tt
InOrder-flush_older t n top (f ∷ fs) a = ground (arith, InOrder-flush_older t f.seq top fs a.2)

-- If each submit has a higher sequence number than the one before it, a view's frames stay in
-- order, whatever is reported or goes stale in between.
pub run-InOrder :
    (top : ℕ) (os : List Op) (fs : List Frame)
    → SeqsGrow top os
    → InOrder 0 top fs
    → (top' : ℕ) × InOrder 0 top' (run os fs).0
unfolding run step push frames_presented new_frame
run-InOrder top [] fs g a = (top, a)
run-InOrder top (submit now seq shown t ∷ os) fs g a = run-InOrder seq os _ g.1 (
    InOrder-make_room 0 seq _
      (InOrder-snoc 0 top fs (new_frame now seq shown t) a (omega arith) g.0))
run-InOrder top (report r ∷ os) fs g a =
    run-InOrder top os _ g (InOrder-take_shown (shown_of r.seq fs) r 0 top fs a)
run-InOrder top (release_stale t ∷ os) fs g a =
    run-InOrder top os _ g (InOrder-release_older t 0 top fs a)
run-InOrder top (flush_stale t ∷ os) fs g a =
    run-InOrder top os _ g (InOrder-flush_older t 0 top fs a)
run-InOrder top (unbind ∷ os) fs g a = run-InOrder top os [] g tt

InOrder→Ascends : (n top : ℕ) (fs : List Frame) → InOrder n top fs → Ascends n fs
InOrder→Ascends n top [] a = tt
InOrder→Ascends n top (f ∷ fs) a = (a.0, InOrder→Ascends f.seq top fs a.2)

-- After any history of a view whose submits count up, a report takes exactly the frames up to its
-- own sequence number, oldest first: each of their callbacks is answered and each of their barriers
-- signaled, and the later frames stay as they are.
pub run-presented :
    (os : List Op) (r : Report)
    → SeqsGrow 0 os
    → let fs = (run os []).0 in
      ((frames_presented r fs).0 ≡ retain (λ (f : Frame). ltb r.seq f.seq) fs)
      × ((frames_presented r fs).1
          ≡ told (shown_of r.seq fs) r (retain (λ (f : Frame). leb f.seq r.seq) fs))
run-presented os r g =
    let (top, a) = run-InOrder 0 os [] g tt in
    frames_presented_lem r 0 (run os []).0 (InOrder→Ascends 0 top (run os []).0 a)
