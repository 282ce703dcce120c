-- ===== src/Timing/Clock.antt =====
-- `FrameClock` of src/timing.rs: the display's refresh cycle, as last reported.
pub mod Vblank
pub mod Target
use ihs_wl_server.Prelude.{
  ℕ, ◌+◌, ◌-◌, ◌/◌, ◌%◌, ltb, if◌then◌else◌, u64_mod, saturating_add, saturating_mul,
  saturating_sub,
}

pub record FrameClock : Type 0 where
  pub ust_ns : ℕ
  pub refresh_ns : ℕ

abbrev pub default_refresh_ns : ℕ
default_refresh_ns = 16666667

abbrev pub target_slack_ns : ℕ
target_slack_ns = 500000

abbrev pub stale_ns : ℕ
stale_ns = 250000000

abbrev pub default : FrameClock
default = record { ust_ns = 0; refresh_ns = default_refresh_ns }

-- A report never moves the phase back, and an unknown refresh (0) keeps the last one.
unfoldable pub update : FrameClock → ℕ → ℕ → FrameClock
update c ust_ns refresh_ns = record {
  ust_ns = if ltb c.ust_ns ust_ns then ust_ns else c.ust_ns;
  refresh_ns = if ltb 0 refresh_ns then refresh_ns else c.refresh_ns;
}

-- The `+ 1` wraps in a release build. A refresh of 0 would panic: `IsValid` excludes it.
unfoldable pub next_vblank : FrameClock → ℕ → ℕ
next_vblank c t =
    if ltb t c.ust_ns
    then c.ust_ns
    else saturating_add c.ust_ns
        (saturating_mul (((t - c.ust_ns) / c.refresh_ns + 1) % u64_mod) c.refresh_ns)

unfoldable pub due : FrameClock → ℕ → ℕ
due c now_ns = saturating_add (next_vblank c now_ns) target_slack_ns

unfoldable pub release_at : FrameClock → ℕ → ℕ
release_at c target_ns =
    let target = saturating_sub target_ns target_slack_ns in
    let vblank = next_vblank c (saturating_sub target 1) in saturating_sub vblank c.refresh_ns
