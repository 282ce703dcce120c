-- ===== src/Timing/Clock/Vblank.antt =====
-- The vblank that `FrameClock::next_vblank` of src/timing.rs predicts, against the cycle's own.
use native.Mathlib.Nat.{mul-le-mul_right}
use ihs_wl_server.Prelude.{ℕ, ◌+◌, ◌-◌, ◌*◌, ◌/◌, ◌≤◌, ◌<◌, ◌≡◌, arith, u64_max, dec_lt}
use ihs_wl_server.Timing.Clock.{FrameClock, update, next_vblank}

-- A clock in range: its refresh is never 0, and no time near it overflows.
pub record IsValid (c : FrameClock) : Type 0 where
  pub refresh_pos : 0 < c.refresh_ns
  pub ust_range : c.ust_ns ≤ u64_max
  pub refresh_range : c.refresh_ns ≤ u64_max

-- The vblanks of the cycle: a whole number of refreshes after the last one reported.
abbrev pub IsVblank : FrameClock → ℕ → Type 0
IsVblank c v = (k : ℕ) × (v ≡ c.ust_ns + k * c.refresh_ns)

pub update-IsValid :
    (c : FrameClock) (ust_ns refresh_ns : ℕ)
    → ust_ns ≤ u64_max
    → refresh_ns ≤ u64_max
    → IsValid c
    → IsValid (update c ust_ns refresh_ns)
unfolding update
update-IsValid c u r hu hr v = ground arith

periods_above : (d r : ℕ) → 0 < r → d < (d / r + 1) * r
periods_above d r h = grind arith

periods_below : (d r : ℕ) → 0 < r → (d / r + 1) * r ≤ d + r
periods_below d r h = grind arith

periods_below_self : (d r : ℕ) → 0 < r → d / r * r ≤ d
periods_below_self d r h = grind arith

div-le : (d r : ℕ) → 0 < r → d / r ≤ d
div-le d r h = grind arith

pub next_vblank_late :
    (c : FrameClock) (t : ℕ)
    → IsValid c
    → c.ust_ns ≤ t
    → t + c.refresh_ns ≤ u64_max
    → next_vblank c t ≡ c.ust_ns + ((t - c.ust_ns) / c.refresh_ns + 1) * c.refresh_ns
unfolding next_vblank
next_vblank_late c t v h room = ground (
  arith,
  periods_below (t - c.ust_ns) c.refresh_ns v.refresh_pos,
  div-le (t - c.ust_ns) c.refresh_ns v.refresh_pos,
)

pub next_vblank_early : (c : FrameClock) (t : ℕ) → t < c.ust_ns → next_vblank c t ≡ c.ust_ns
unfolding next_vblank
next_vblank_early c t h = ground arith

-- No fewer refreshes reach past `d`.
periods_least : (d k r : ℕ) → 0 < r → d < k * r → (d / r + 1) * r ≤ k * r
periods_least d k r h past = elim (dec_lt (d / r) k) [
  | yes p ↦ mul-le-mul_right r (omega arith)
  | no n ↦ absurd (
      omega (arith, mul-le-mul_right {m = k} {n = d / r} r (omega arith), periods_below_self d r h))
]

-- The prediction is the first vblank of the cycle after `t`, with room for one refresh after `t`.
pub next_vblank_first :
    (c : FrameClock) (t : ℕ)
    → IsValid c
    → t + c.refresh_ns ≤ u64_max
    → (IsVblank c (next_vblank c t))
      × (t < next_vblank c t)
      × ((v : ℕ) → IsVblank c v → t < v → next_vblank c t ≤ v)
next_vblank_first c t v room = elim (dec_lt t c.ust_ns) [
  | yes early ↦
      let e = next_vblank_early c t early in
      ((0, omega (arith, e)), omega (arith, e), λ w (k, p) h. omega (arith, e, p))
  | no late ↦
      let e = next_vblank_late c t v (omega arith) room in
      (
        ((t - c.ust_ns) / c.refresh_ns + 1, e),
        omega (arith, e, periods_above (t - c.ust_ns) c.refresh_ns v.refresh_pos),
        λ w (k, p) h. omega (
          arith,
          e,
          p,
          periods_least (t - c.ust_ns) k c.refresh_ns v.refresh_pos (omega (arith, p)),
        ),
      )
]

-- No prediction is more than a refresh away, once the cycle has started.
pub next_vblank-le :
    (c : FrameClock) (t : ℕ)
    → IsValid c
    → c.ust_ns ≤ t
    → t + c.refresh_ns ≤ u64_max
    → next_vblank c t ≤ t + c.refresh_ns
next_vblank-le c t v h room =
    omega (
      arith,
      next_vblank_late c t v h room,
      periods_below (t - c.ust_ns) c.refresh_ns v.refresh_pos,
    )

lt_of_mul : (j k r : ℕ) → j * r < (k + 1) * r → j ≤ k
lt_of_mul j k r h = elim (dec_lt k j) [
  | yes p ↦ absurd (omega (arith, h, mul-le-mul_right {m = k + 1} {n = j} r (omega arith)))
  | no n ↦ omega arith
]

-- Two vblanks less than a refresh apart are in order.
pub IsVblank-gap :
    (c : FrameClock) (v w : ℕ) → IsVblank c v → IsVblank c w → v < w + c.refresh_ns → v ≤ w
IsVblank-gap c v w (j, p) (k, q) h = omega (
  arith,
  p,
  q,
  mul-le-mul_right c.refresh_ns (lt_of_mul j k c.refresh_ns (omega (arith, p, q, h))),
)
