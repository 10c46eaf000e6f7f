-- ===== src/Controller/Scenarios.antt =====
-- controller.py: a profile, and a sample on which it raises the target.
use mta_runtime_intramind.Base.{◌≡◌, ◌≤◌, refl, arith, true}
use mta_runtime_intramind.Controller.Decision.{
  ControlProfile, check_profile, ControlSample, millionths, no_pressure, decide, is_stale,
  decide_fresh, is_congested,
}
use mta_runtime_intramind.Controller.Bounds.{IsProbe, decide-WithinBounds, decide-Raises}

abbrev profile : ControlProfile
profile = record {
  hard_ceiling = 8;
  safe_target = 4;
  min_samples = 10;
  congestion_ratio = 1500000;
  decrease_factor = 750000;
  cooldown = 30;
  telemetry_max_age = 10;
  max_inflight_age = 60;
}

abbrev sample : ControlSample
sample = record {
  observed_at = 95;
  samples = 20;
  service_latency_ratio = millionths 900000;
  pressure = no_pressure;
  oldest_inflight = 1;
  healthy = true;
  demand = true;
  profile_matches = true;
}

profile_valid : check_profile profile ≡ true
unfolding check_profile
profile_valid = refl

raised : (decide profile sample 5 100 0).0 ≡ 6
unfolding decide decide_fresh is_stale is_congested
raised = refl

decide-WithinBounds_example :
    ((decide profile sample 5 100 0).0 ≤ 8) × ((decide profile sample 5 100 0).0 ≤ 6)
decide-WithinBounds_example = decide-WithinBounds profile sample 5 100 0 profile_valid (omega arith)

decide-Raises_example : IsProbe profile sample 5 100 0
decide-Raises_example =
    decide-Raises profile sample 5 100 0 profile_valid (omega arith) (omega (arith, raised))
