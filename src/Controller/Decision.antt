-- ===== src/Controller/Decision.antt =====
-- controller.py: `ControlProfile`, `ControlSample` and `decide`. Instants and durations are numbers of
-- microseconds, ratios and factors numbers of millionths, whose product is taken exactly.
use mta_runtime_intramind.Base.{
  ℕ, ◌+◌, ◌-◌, ◌*◌, ◌/◌, min, max, Bool, true, false, not, ◌&&◌, ◌||◌, ltb, leb, if◌then◌else◌,
}

abbrev pub one : ℕ
one = 1000000

pub record ControlProfile : Type 0 where
  pub hard_ceiling : ℕ
  pub safe_target : ℕ
  pub min_samples : ℕ
  pub congestion_ratio : ℕ
  pub decrease_factor : ℕ
  pub cooldown : ℕ
  pub telemetry_max_age : ℕ
  pub max_inflight_age : ℕ

-- `ControlProfile.__post_init__`
unfoldable pub check_profile : ControlProfile → Bool
check_profile p =
    ltb 0 p.safe_target
    && leb p.safe_target p.hard_ceiling
    && ltb 0 p.min_samples
    && ltb one p.congestion_ratio
    && ltb 0 p.decrease_factor
    && ltb p.decrease_factor one
    && ltb 0 p.cooldown
    && ltb 0 p.telemetry_max_age
    && ltb 0 p.max_inflight_age

-- `service_latency_ratio`, a float or None
pub data Ratio : Type 0 where
  absent not_finite : Ratio
  millionths : ℕ → Ratio

-- `pressure: bool | None`
pub data Pressure : Type 0 where
  unknown under_pressure no_pressure : Pressure

pub record ControlSample : Type 0 where
  pub observed_at : ℕ
  pub samples : ℕ
  pub service_latency_ratio : Ratio
  pub pressure : Pressure
  pub oldest_inflight : ℕ
  pub healthy : Bool
  pub demand : Bool
  pub profile_matches : Bool

pub data Verdict : Type 0 where
  unhealthy_or_profile_mismatch stale_or_insufficient cooldown : Verdict
  sustained_congestion bounded_probe hold : Verdict

-- The sample is old, comes from the future, or rests on too little.
unfoldable pub is_stale : ControlProfile → ControlSample → ℕ → Bool
is_stale p s now =
    ltb now s.observed_at
    || ltb p.telemetry_max_age (now - s.observed_at)
    || ltb s.samples p.min_samples

abbrev pub is_pressed : Pressure → Bool
is_pressed under_pressure = true
is_pressed _ = false

abbrev pub is_relaxed : Pressure → Bool
is_relaxed no_pressure = true
is_relaxed _ = false

unfoldable pub is_congested : ControlProfile → ControlSample → ℕ → Bool
is_congested p s ratio =
    ltb p.congestion_ratio ratio
    && (is_pressed s.pressure || ltb p.max_inflight_age s.oldest_inflight)

-- `now - last_change < cooldown_seconds`, also for a change that lies ahead
abbrev pub is_cooling : ControlProfile → ℕ → ℕ → Bool
is_cooling p now last_change = ltb now (last_change + p.cooldown)

-- `decide` for a sample that counts
unfoldable pub decide_fresh : ControlProfile → ControlSample → ℕ → ℕ → ℕ → ℕ → ℕ × Verdict
unfolding is_congested
decide_fresh p s ratio target now last_change =
    if is_cooling p now last_change
    then (target, Verdict.cooldown)
    else if is_congested p s ratio
    then (max 1 (target * p.decrease_factor / one), sustained_congestion)
    else if s.demand && is_relaxed s.pressure && leb ratio one
    then (min (target + 1) p.hard_ceiling, bounded_probe)
    else (target, hold)

abbrev pub keep_safe : ControlProfile → ℕ → ℕ × Verdict
keep_safe p target = (min target p.safe_target, stale_or_insufficient)

abbrev pub decide_by_ratio : ControlProfile → ControlSample → Ratio → ℕ → ℕ → ℕ → ℕ × Verdict
decide_by_ratio p s (millionths ratio) target now last_change =
    if is_stale p s now then keep_safe p target else decide_fresh p s ratio target now last_change
decide_by_ratio p s _ target now last_change = keep_safe p target

-- `decide`
unfoldable pub decide : ControlProfile → ControlSample → ℕ → ℕ → ℕ → ℕ × Verdict
unfolding is_stale decide_fresh
decide p s target now last_change =
    if not s.healthy || not s.profile_matches
    then (0, unhealthy_or_profile_mismatch)
    else decide_by_ratio p s s.service_latency_ratio target now last_change
