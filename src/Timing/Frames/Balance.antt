-- ===== src/Timing/Frames/Balance.antt =====
-- Each operation of `Frames` of src/timing.rs keeps the accounts of barriers and callbacks.
use ihs_wl_server.Prelude.{
  retain, not, ℕ, ◌+◌, true, List, [], ◌∷◌, ◌++◌, map, ltb, leb, count, count-append, arith, ◌≡◌,
  Bool-cases, inl, inr, length,
}
use ihs_wl_server.Timing.Taken.{Event, signal, Taken}
use ihs_wl_server.Timing.Frames.{
  Report, Frame, shows, release, discard, drop_unshown, make_room, new_frame, push, shown_of,
  resolve, take_shown, frames_presented, release_older, flush_older, clear, max_in_flight,
}
use ihs_wl_server.Timing.Frames.Accounts.{
  signals, answers, callbacks, held_barriers, held_callbacks, signals-append, answers-append,
  signals-signal, answers-signal, signals-discard, answers-discard, signals-resolve,
  answers-resolve, callbacks-split, held_barriers-append, held_callbacks-append, Balanced,
}

module _ (b c : ℕ) where
  -- A frame dropped unshown gives up all that it holds.
  drop_unshown-events :
      (f : Frame)
      → (count b (signals (drop_unshown f).0) ≡ count b f.barriers)
        × (count c (answers (drop_unshown f).0) ≡ count c (callbacks f.feedback))
  unfolding drop_unshown
  drop_unshown-events f = (
    omega (
      arith,
      signals-append b (discard f.feedback) (map signal f.barriers),
      signals-discard b f.feedback,
      signals-signal b f.barriers,
    ),
    omega (
      arith,
      answers-append c (discard f.feedback) (map signal f.barriers),
      answers-discard c f.feedback,
      answers-signal c f.barriers,
    ),
  )

  release-events :
      (f : Frame)
      → (count b (signals (release f).1) ≡ count b f.barriers)
        × (count c (answers (release f).1) ≡ 0)
  unfolding release
  release-events f = (signals-signal b f.barriers, answers-signal c f.barriers)

  -- A frame that leaves, with all that it holds given up.
  Balanced-leave :
      (f : Frame) (fs gs : List Frame) (es more : List Event)
      → count b (signals es) ≡ count b f.barriers
      → count c (answers es) ≡ count c (callbacks f.feedback)
      → Balanced b c fs gs more
      → Balanced b c (f ∷ fs) gs (es ++ more)
  Balanced-leave f fs gs es more hs ha h = record {
    barriers =
        omega (
          arith,
          h.barriers,
          signals-append b es more,
          count-append b f.barriers (held_barriers fs),
        );
    feedback = omega (
      arith,
      h.feedback,
      answers-append c es more,
      count-append c (callbacks f.feedback) (held_callbacks fs),
    );
  }

  -- A frame that stays as `g`, with some of what it holds given up.
  Balanced-stay :
      (f g : Frame) (fs gs : List Frame) (es more : List Event)
      → count b (signals es) + count b g.barriers ≡ count b f.barriers
      → count c (answers es) + count c (callbacks g.feedback) ≡ count c (callbacks f.feedback)
      → Balanced b c fs gs more
      → Balanced b c (f ∷ fs) (g ∷ gs) (es ++ more)
  Balanced-stay f g fs gs es more hs ha h = record {
    barriers = omega (
      arith,
      h.barriers,
      signals-append b es more,
      count-append b f.barriers (held_barriers fs),
      count-append b g.barriers (held_barriers gs),
    );
    feedback = omega (
      arith,
      h.feedback,
      answers-append c es more,
      count-append c (callbacks f.feedback) (held_callbacks fs),
      count-append c (callbacks g.feedback) (held_callbacks gs),
    );
  }

  make_room-Balanced : (fs : List Frame) → Balanced b c fs (make_room fs).0 (make_room fs).1
  unfolding make_room
  make_room-Balanced [] = omega arith
  make_room-Balanced (f ∷ fs) = elim (Bool-cases (ltb max_in_flight (length (f ∷ fs)))) [
    | inl e ↦ rw e (
        Balanced-leave f fs (make_room fs).0 (drop_unshown f).0 (make_room fs).1
          (drop_unshown-events f).0 (drop_unshown-events f).1 (make_room-Balanced fs))
    | inr e ↦ rw e (omega arith)
  ]

  take_shown-Balanced :
      (shown : List (ℕ × ℕ)) (r : Report) (fs : List Frame)
      → Balanced b c fs (take_shown shown r fs).0 (take_shown shown r fs).1
  unfolding take_shown
  take_shown-Balanced shown r [] = omega arith
  take_shown-Balanced shown r (f ∷ fs) = elim (Bool-cases (leb f.seq r.seq)) [
    | inl e ↦ rw e (
        Balanced-leave f fs (take_shown shown r fs).0
          (map (resolve shown r) f.feedback ++ (release f).1) (take_shown shown r fs).1
          (omega (
            arith,
            signals-append b (map (resolve shown r) f.feedback) (release f).1,
            signals-resolve b shown r f.feedback,
            release-events f,
          ))
          (omega (
            arith,
            answers-append c (map (resolve shown r) f.feedback) (release f).1,
            answers-resolve c shown r f.feedback,
            release-events f,
          ))
          (take_shown-Balanced shown r fs))
    | inr e ↦ rw e (omega arith)
  ]

  -- A report: what leaves with it is signaled and answered, the rest stays held.
  pub frames_presented-Balanced :
      (r : Report) (fs : List Frame)
      → Balanced b c fs (frames_presented r fs).0 (frames_presented r fs).1
  unfolding frames_presented
  frames_presented-Balanced r fs = take_shown-Balanced (shown_of r.seq fs) r fs

  pub release_older-Balanced :
      (before_ns : ℕ) (fs : List Frame)
      → Balanced b c fs (release_older before_ns fs).0 (release_older before_ns fs).1
  unfolding release_older
  release_older-Balanced t [] = omega arith
  release_older-Balanced t (f ∷ fs) = elim (Bool-cases (ltb f.submitted_ns t)) [
    | inl e ↦ rw e (
        Balanced-stay f (release f).0 fs (release_older t fs).0 (release f).1 (release_older t fs).1
          (unfold release in omega (arith, signals-signal b f.barriers))
          (unfold release in omega (arith, answers-signal c f.barriers))
          (release_older-Balanced t fs))
    | inr e ↦ rw e (
        Balanced-stay f f fs (release_older t fs).0 [] (release_older t fs).1 (omega arith)
          (omega arith) (release_older-Balanced t fs))
  ]

  pub flush_older-Balanced :
      (before_ns : ℕ) (fs : List Frame) → Balanced b c fs (flush_older before_ns fs).0 []
  unfolding flush_older
  flush_older-Balanced t [] = omega arith
  flush_older-Balanced t (f ∷ fs) = ground (
    arith,
    Balanced-stay f (record f { flushed = true }) fs (flush_older t fs).0 [] [],
    Balanced-stay f f fs (flush_older t fs).0 [] [],
    flush_older-Balanced t fs,
  )

  pub clear-Balanced : (fs : List Frame) → Balanced b c fs [] (clear fs).0
  unfolding clear
  clear-Balanced [] = omega arith
  clear-Balanced (f ∷ fs) =
      Balanced-leave f fs [] (drop_unshown f).0 (clear fs).0 (drop_unshown-events f).0
        (drop_unshown-events f).1 (clear-Balanced fs)

  -- A submitted frame: its barriers join those held, and of its feedback what it does not show is
  -- discarded at once. The oldest frames may go to make room.
  pub push-accounts :
      (now : ℕ) (fs : List Frame) (seq : ℕ) (shown : List (ℕ × ℕ)) (t : Taken)
      → (count b (signals (push now fs seq shown t).1)
            + count b (held_barriers (push now fs seq shown t).0)
          ≡ count b (held_barriers fs) + count b t.barriers)
        × (count c (answers (push now fs seq shown t).1)
              + count c (held_callbacks (push now fs seq shown t).0)
            ≡ count c (held_callbacks fs) + count c (callbacks t.feedback))
  unfolding push new_frame
  push-accounts now fs seq shown t =
      let frame = new_frame now seq shown t in
      let room = make_room-Balanced (fs ++ frame ∷ []) in
      let out = discard (retain (λ f. not (shows shown f)) t.feedback) in
      let events = (make_room (fs ++ frame ∷ [])).1 in
      (
        omega (
          arith,
          room.barriers,
          signals-append b out events,
          signals-discard b (retain (λ f. not (shows shown f)) t.feedback),
          held_barriers-append b fs (frame ∷ []),
          count-append b t.barriers [],
        ),
        omega (
          arith,
          room.feedback,
          answers-append c out events,
          answers-discard c (retain (λ f. not (shows shown f)) t.feedback),
          held_callbacks-append c fs (frame ∷ []),
          count-append c (callbacks (retain (shows shown) t.feedback)) [],
          callbacks-split c (shows shown) t.feedback,
        ),
      )
