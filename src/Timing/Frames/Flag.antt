-- ===== src/Timing/Frames/Flag.antt =====
-- What `Frames` of src/timing.rs returns: whether a barrier was cleared, so that the caller unblocks
-- the client then, and only then.
use ihs_wl_server.Prelude.{
  ap, ℕ, Bool, false, not, ◌||◌, List, [], ◌∷◌, ◌++◌, map, arith, ◌≡◌, refl, sym, ◌∙◌, retain,
}
use ihs_wl_server.Timing.Taken.{Event, signal, discarded, presented, Taken, Feedback}
use ihs_wl_server.Timing.Frames.{
  Report, Frame, is_empty, release, discard, drop_unshown, make_room, new_frame, push, take_shown,
  frames_presented, release_older, clear, shown_of, resolve, shows,
}
use ihs_wl_server.Timing.Frames.Accounts.{signals}

-- Some barrier is signaled.
abbrev pub any_signal : List Event → Bool
any_signal es = not (is_empty (signals es))

any_signal-append : (es ds : List Event) → any_signal (es ++ ds) ≡ (any_signal es || any_signal ds)
any_signal-append [] ds = refl
any_signal-append (signal b ∷ es) ds = refl
any_signal-append (discarded c ∷ es) ds = any_signal-append es ds
any_signal-append (presented c t r m f ∷ es) ds = any_signal-append es ds

any_signal-signal : (bs : List ℕ) → any_signal (map signal bs) ≡ not (is_empty bs)
any_signal-signal [] = refl
any_signal-signal (b ∷ bs) = refl

any_signal-discard : (fs : List Feedback) → any_signal (discard fs) ≡ false
any_signal-discard [] = refl
any_signal-discard (f ∷ fs) = any_signal-discard fs

any_signal-resolve :
    (shown : List (ℕ × ℕ)) (r : Report) (fs : List Feedback)
    → any_signal (map (resolve shown r) fs) ≡ false
unfolding resolve
any_signal-resolve shown r [] = refl
any_signal-resolve shown r (f ∷ fs) = ground (arith, any_signal-resolve shown r fs)

drop_unshown_flag : (f : Frame) → (drop_unshown f).1 ≡ any_signal (drop_unshown f).0
unfolding drop_unshown
drop_unshown_flag f = rw (any_signal-append, any_signal-discard, any_signal-signal) refl

make_room_flag : (fs : List Frame) → (make_room fs).2 ≡ any_signal (make_room fs).1
unfolding make_room
make_room_flag [] = refl
make_room_flag (f ∷ fs) = ground (
  arith,
  make_room_flag fs,
  drop_unshown_flag f,
  any_signal-append (drop_unshown f).0 (make_room fs).1,
)

take_shown_flag :
    (shown : List (ℕ × ℕ)) (r : Report) (fs : List Frame)
    → (take_shown shown r fs).2 ≡ any_signal (take_shown shown r fs).1
unfolding take_shown release
take_shown_flag shown r [] = refl
take_shown_flag shown r (f ∷ fs) = ground (
  arith,
  take_shown_flag shown r fs,
  any_signal-append (map (resolve shown r) f.feedback ++ map signal f.barriers)
      (take_shown shown r fs).1,
  any_signal-append (map (resolve shown r) f.feedback) (map signal f.barriers),
  any_signal-resolve shown r f.feedback,
  any_signal-signal f.barriers,
)

push_flag :
    (now : ℕ) (fs : List Frame) (seq : ℕ) (shown : List (ℕ × ℕ)) (t : Taken)
    → (push now fs seq shown t).2 ≡ any_signal (push now fs seq shown t).1
unfolding push
push_flag now fs seq shown t =
    let frames = fs ++ new_frame now seq shown t ∷ [] in
    let out = discard (retain (λ f. not (shows shown f)) t.feedback) in
    make_room_flag frames
    ∙ sym (
        any_signal-append out (make_room frames).1
        ∙ ap (λ b. b || any_signal (make_room frames).1)
            (any_signal-discard (retain (λ f. not (shows shown f)) t.feedback)))

release_older_flag :
    (before_ns : ℕ) (fs : List Frame)
    → (release_older before_ns fs).2 ≡ any_signal (release_older before_ns fs).1
unfolding release_older release
release_older_flag t [] = refl
release_older_flag t (f ∷ fs) = ground (
  arith,
  release_older_flag t fs,
  any_signal-append (map signal f.barriers) (release_older t fs).1,
  any_signal-signal f.barriers,
)

clear_flag : (fs : List Frame) → (clear fs).1 ≡ any_signal (clear fs).0
unfolding clear
clear_flag [] = refl
clear_flag (f ∷ fs) =
    ground
      (arith, clear_flag fs, drop_unshown_flag f, any_signal-append (drop_unshown f).0 (clear fs).0)

-- Every operation returns true exactly when it signaled a barrier.
released_iff_signaled :
    (now before_ns seq : ℕ) (shown : List (ℕ × ℕ)) (t : Taken) (r : Report) (fs : List Frame)
    → ((push now fs seq shown t).2 ≡ any_signal (push now fs seq shown t).1)
      × ((frames_presented r fs).2 ≡ any_signal (frames_presented r fs).1)
      × ((release_older before_ns fs).2 ≡ any_signal (release_older before_ns fs).1)
      × ((clear fs).1 ≡ any_signal (clear fs).0)
unfolding frames_presented
released_iff_signaled now before_ns seq shown t r fs = (
  push_flag now fs seq shown t,
  take_shown_flag (shown_of r.seq fs) r fs,
  release_older_flag before_ns fs,
  clear_flag fs,
)
