-- ===== src/Pacing/Watched.antt =====
-- Nothing waits on the clock of src/pacing.rs unless the clock is to run.
use ihs_wl_server.Prelude.{
  ℕ, ◌≡◌, refl, Bool, true, false, not, ◌||◌, List, [], ◌∷◌, Option, none, some, is_some, arith,
  Bool-cases, inl, inr, u64_max,
}
use ihs_wl_server.Timing.Frames.{release_all, is_empty}
use ihs_wl_server.Pacing.{
  View, Pace, release_views, release_everything, schedule_tick, schedule_if, runs_by,
}
use ihs_wl_server.Pacing.Barriers.{
  some_view_holds, release_all_holds, release_older-IsTimely, AllTimely,
}

module _ {T : Type 0} where
  -- Something waits for the clock.
  abbrev pub waits : Pace T → Bool
  waits p =
      not (is_empty p.timed)
      || not (is_empty p.loose)
      || not (is_empty p.unsubmitted)
      || some_view_holds p.views

  abbrev pub IsWatched : Pace T → Type 0
  IsWatched p = waits p ≡ true → is_some p.tick ≡ true

-- The views after everything was released.
release_views-holds :
    (vs : List (ℕ × View)) → AllTimely vs → some_view_holds (release_views vs).0 ≡ false
unfolding release_views
release_views-holds [] h = refl
release_views-holds ((v, e) ∷ vs) h =
    ground (arith, release_all_holds e.frames h.0, release_views-holds vs h.1)

release_views-AllTimely : (vs : List (ℕ × View)) → AllTimely vs → AllTimely (release_views vs).0
unfolding release_views release_all
release_views-AllTimely [] h = tt
release_views-AllTimely ((v, e) ∷ vs) h =
    (release_older-IsTimely u64_max e.frames h.0, release_views-AllTimely vs h.1)

module _ {T : Type 0} where
  -- Whatever waits and whatever timer ran, once a tick was scheduled what waits is watched: a timer
  -- that is not taken has everything released.
  schedule_tick-IsWatched :
      (inserted : Bool) (now at_ns : ℕ) (p : Pace T)
      → AllTimely p.views
      → IsWatched (schedule_tick inserted now at_ns p).0
  unfolding schedule_tick release_everything
  schedule_tick-IsWatched inserted now at_ns p h w = elim (Bool-cases (runs_by at_ns p.tick)) [
    | inl e ↦ ground (arith, e)
    | inr e ↦ elim (Bool-cases inserted) [
      | inl i ↦ ground (arith, e, i)
      | inr i ↦ absurd (ground (arith, e, i, w, release_views-holds p.views h))
    ]
  ]

  schedule_tick-AllTimely :
      (inserted : Bool) (now at_ns : ℕ) (p : Pace T)
      → AllTimely p.views
      → AllTimely (schedule_tick inserted now at_ns p).0.views
  unfolding schedule_tick release_everything
  schedule_tick-AllTimely inserted now at_ns p h = elim (Bool-cases (runs_by at_ns p.tick)) [
    | inl e ↦ rw e h
    | inr e ↦ rw e (elim (Bool-cases inserted) [
      | inl i ↦ rw i h
      | inr i ↦ rw i (release_views-AllTimely p.views h)
    ])
  ]

  -- What waits is watched, and was submitted before the end of time.
  pub record IsGood (p : Pace T) : Type 0 where
    pub watched : IsWatched p
    pub timely : AllTimely p.views

  pub schedule_tick-IsGood :
      (inserted : Bool) (now at_ns : ℕ) (p : Pace T)
      → AllTimely p.views
      → IsGood (schedule_tick inserted now at_ns p).0
  schedule_tick-IsGood inserted now at_ns p h = record {
    watched = schedule_tick-IsWatched inserted now at_ns p h;
    timely = schedule_tick-AllTimely inserted now at_ns p h;
  }

  pub schedule_if-IsGood :
      (inserted : Bool) (now : ℕ) (at : Option ℕ) (p : Pace T)
      → AllTimely p.views
      → (at ≡ none → IsWatched p)
      → IsGood (schedule_if inserted now at p).0
  schedule_if-IsGood inserted now none p h w = record { watched = w refl; timely = h }
  schedule_if-IsGood inserted now (some at_ns) p h w = schedule_tick-IsGood inserted now at_ns p h
