-- ===== src/Timing/Frames/Progress.antt =====
-- No view's frames wait forever: what `next_stale` of src/timing.rs announces is released in time.
use ihs_wl_server.Prelude.{
  ℕ, ◌≤◌, ◌<◌, Bool, true, ◌||◌, List, [], ◌∷◌, arith, ◌≡◌, refl, All, some, u64_max,
  saturating_sub,
}
use ihs_wl_server.Timing.Clock.{stale_ns}
use ihs_wl_server.Timing.Frames.{
  Frame, release, release_older, release_all, flush_older, next_stale,
}
use ihs_wl_server.Timing.Frames.Accounts.{held_barriers}

-- What the clock does with a view on screen whose frames went unreported.
abbrev pub tick_frames : ℕ → List Frame → List Frame
tick_frames now fs =
    (release_older (saturating_sub now stale_ns) (flush_older (saturating_sub now stale_ns) fs).0).0

-- A deadline that has passed is acted on: of the frames whose callbacks are to be flushed and whose
-- barriers are to be cleared, one is.
overdue_acted_on :
    (now at : ℕ) (on_screen : Bool) (fs : List Frame)
    → now ≤ u64_max
    → next_stale on_screen fs ≡ some at
    → at < now
    → ((flush_older (saturating_sub now stale_ns) fs).1
        || (release_older (saturating_sub now stale_ns) fs).2)
      ≡ true
unfolding next_stale release_older release flush_older
overdue_acted_on now at on_screen [] range e h = ground arith
overdue_acted_on now at on_screen (f ∷ fs) range e h =
    ground (arith, overdue_acted_on now at on_screen fs range)

-- After that nothing is left whose deadline has passed, on screen or off.
pub next_stale-tick_frames :
    (now at : ℕ) (on_screen : Bool) (fs : List Frame)
    → now ≤ u64_max
    → next_stale on_screen (tick_frames now fs) ≡ some at
    → now ≤ at
unfolding next_stale release_older release flush_older
next_stale-tick_frames now at on_screen [] range e = ground arith
next_stale-tick_frames now at on_screen (f ∷ fs) range e =
    ground (arith, next_stale-tick_frames now at on_screen fs range)

-- The clock could not run, or the view went off screen: `release_all` leaves no barrier held, for
-- frames submitted before the end of time.
release_all-held :
    (fs : List Frame)
    → All (λ (f : Frame). f.submitted_ns < u64_max) fs
    → held_barriers (release_all fs).0 ≡ []
unfolding release_all release_older release
release_all-held [] h = refl
release_all-held (f ∷ fs) h = ground (arith, release_all-held fs h.1)
