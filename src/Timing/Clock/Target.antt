-- ===== src/Timing/Clock/Target.antt =====
-- `FrameClock::due` and `release_at` of src/timing.rs: when a timed update may be applied.
use ihs_wl_server.Prelude.{ℕ, ◌+◌, ◌-◌, ◌≤◌, ◌<◌, ◌≡◌, arith, u64_max, dec_lt, ◌↔◌}
use ihs_wl_server.Timing.Clock.{FrameClock, next_vblank, due, release_at, target_slack_ns}
use ihs_wl_server.Timing.Clock.Vblank.{
  IsValid, IsVblank-gap, next_vblank_first, next_vblank-le, next_vblank_early,
}

-- Times that leave the clock's sums room below `u64::MAX`.
abbrev pub HasRoom : FrameClock → ℕ → Type 0
HasRoom c t = t + c.refresh_ns + target_slack_ns ≤ u64_max

next_vblank-due :
    (c : FrameClock) (now : ℕ)
    → IsValid c
    → HasRoom c now
    → c.ust_ns + target_slack_ns ≤ u64_max
    → due c now ≡ next_vblank c now + target_slack_ns
unfolding due
next_vblank-due c now v room hu = elim (dec_lt now c.ust_ns) [
  | yes early ↦ ground (arith, next_vblank_early c now early)
  | no late ↦ ground (arith, next_vblank-le c now v (omega arith) (omega arith))
]

-- Once the release time has come, the clock counts the target as due.
due_of_release_at :
    (c : FrameClock) (target now : ℕ)
    → IsValid c
    → HasRoom c target
    → HasRoom c now
    → c.ust_ns + target_slack_ns ≤ u64_max
    → release_at c target ≤ now
    → target ≤ due c now
unfolding release_at
due_of_release_at c target now v rt rn ru h =
    let a = next_vblank_first c (target - target_slack_ns - 1) v (omega arith) in
    let b = next_vblank_first c now v (omega arith) in
    omega (
      arith,
      next_vblank-due c now v rn ru,
      a.1,
      IsVblank-gap c (next_vblank c (target - target_slack_ns - 1)) (next_vblank c now) a.0 b.0
          (omega (arith, b.1)),
    )

-- And not before, for a target past the last reported vblank.
release_at-le_of_due :
    (c : FrameClock) (target now : ℕ)
    → IsValid c
    → HasRoom c target
    → HasRoom c now
    → c.ust_ns + target_slack_ns < target
    → target ≤ due c now
    → release_at c target ≤ now
unfolding release_at
release_at-le_of_due c target now v rt rn late h =
    let a = next_vblank_first c (target - target_slack_ns - 1) v (omega arith) in
    let b = next_vblank_first c now v (omega arith) in
    elim (dec_lt now c.ust_ns) [
      | yes early ↦
          absurd
            (omega (arith, next_vblank-due c now v rn (omega arith), next_vblank_early c now early))
      | no begun ↦ omega (
        arith,
        a.2 (next_vblank c now) b.0 (omega (arith, next_vblank-due c now v rn (omega arith))),
        next_vblank-le c now v (omega arith) (omega arith),
      )
    ]

-- For a target past the last reported vblank, and times with room below `u64::MAX`: the clock counts
-- the target as due exactly from its release time on.
due_iff :
    (c : FrameClock) (target now : ℕ)
    → IsValid c
    → HasRoom c target
    → HasRoom c now
    → c.ust_ns + target_slack_ns < target
    → (target ≤ due c now) ↔ (release_at c target ≤ now)
due_iff c target now v rt rn late = (
  release_at-le_of_due c target now v rt rn late,
  due_of_release_at c target now v rt rn (omega arith),
)
