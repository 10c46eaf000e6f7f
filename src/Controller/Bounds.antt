-- ===== src/Controller/Bounds.antt =====
-- controller.py: how far one decision moves a target.
use mta_runtime_intramind.Base.{
  ℕ, ◌+◌, ◌*◌, ◌/◌, ◌≤◌, ◌<◌, ◌≡◌, refl, Bool, true, false, not, ◌&&◌, ◌||◌, ltb, leb, if_intro,
  arith,
}
use native.Mathlib.Nat.{mul-le-mul_left}
use mta_runtime_intramind.Controller.Decision.{
  one, ControlProfile, check_profile, Ratio, absent, not_finite, millionths, Pressure, unknown,
  under_pressure, no_pressure, ControlSample, Verdict, is_stale, is_relaxed, is_congested,
  is_cooling, decide_fresh, decide_by_ratio, decide,
}

-- A factor below one does not raise the target.
scaled-le : (target factor : ℕ) → ltb factor one ≡ true → target * factor / one ≤ target
scaled-le target factor small =
    let bound : target * factor ≤ target * one = mul-le-mul_left target (ground arith) in
    omega (arith, bound)

module _ (p : ControlProfile) (s : ControlSample) (target now last_change : ℕ) where
  abbrev WithinBounds : ℕ × Verdict → Type 0
  WithinBounds x = (x.0 ≤ p.hard_ceiling) × (x.0 ≤ target + 1)

  module _ (valid : check_profile p ≡ true) (within : target ≤ p.hard_ceiling) where
    fresh-WithinBounds : (ratio : ℕ) → WithinBounds (decide_fresh p s ratio target now last_change)
    unfolding decide_fresh check_profile
    fresh-WithinBounds ratio =
        if_intro WithinBounds (is_cooling p now last_change) _ _ (λ _. (within, omega arith))
          λ _.
            if_intro WithinBounds (is_congested p s ratio) _ _
              (λ _.
                let lower = scaled-le target p.decrease_factor (ground arith) in
                let ceiling : 1 ≤ p.hard_ceiling = ground arith in
                (omega (arith, lower, ceiling), omega (arith, lower)))
              λ _.
                if_intro WithinBounds (s.demand && is_relaxed s.pressure && leb ratio one) _ _
                  (λ _. (omega arith, omega arith)) (λ _. (within, omega arith))

    by_ratio-WithinBounds :
        (ratio : Ratio) → WithinBounds (decide_by_ratio p s ratio target now last_change)
    by_ratio-WithinBounds absent = (omega arith, omega arith)
    by_ratio-WithinBounds not_finite = (omega arith, omega arith)
    by_ratio-WithinBounds (millionths ratio) =
        if_intro WithinBounds (is_stale p s now) _ _ (λ _. (omega arith, omega arith))
          (λ _. fresh-WithinBounds ratio)

  -- A decision by a valid profile on a target within the hard ceiling stays within it, and raises
  -- the target by at most one.
  pub decide-WithinBounds :
      check_profile p ≡ true
      → target ≤ p.hard_ceiling
      → ((decide p s target now last_change).0 ≤ p.hard_ceiling)
        × ((decide p s target now last_change).0 ≤ target + 1)
  unfolding decide
  decide-WithinBounds valid within =
      if_intro WithinBounds (not s.healthy || not s.profile_matches) _ _
        (λ _. (omega arith, omega arith))
        (λ _. by_ratio-WithinBounds valid within s.service_latency_ratio)

  -- What the code has seen where it raises a target.
  pub record IsProbe : Type 0 where
    pub demand : s.demand ≡ true
    pub pressure : s.pressure ≡ no_pressure
    pub fresh : is_stale p s now ≡ false
    pub cooled : last_change + p.cooldown ≤ now
    pub healthy : s.healthy ≡ true
    pub matches : s.profile_matches ≡ true

  abbrev Raises : ℕ × Verdict → Type 0
  Raises x = target < x.0 → IsProbe

  relaxed : (q : Pressure) → is_relaxed q ≡ true → q ≡ no_pressure
  relaxed no_pressure e = refl
  relaxed unknown e = absurd (cc)
  relaxed under_pressure e = absurd (cc)

  module _ (valid : check_profile p ≡ true) (some_work : 1 ≤ target) (healthy : s.healthy ≡ true)
      (matches : s.profile_matches ≡ true) where
    fresh-Raises :
        (ratio : ℕ)
        → is_stale p s now ≡ false
        → Raises (decide_fresh p s ratio target now last_change)
    unfolding decide_fresh check_profile
    fresh-Raises ratio fresh =
        if_intro Raises (is_cooling p now last_change) _ _ (λ _ up. absurd (omega (arith, up)))
          λ cooled.
            if_intro Raises (is_congested p s ratio) _ _
              (λ _ up.
                let lower = scaled-le target p.decrease_factor (ground arith) in
                absurd (omega (arith, lower, up, some_work)))
              λ _.
                if_intro Raises (s.demand && is_relaxed s.pressure && leb ratio one) _ _
                  (λ evidence up. record {
                    demand = ground (arith, evidence);
                    pressure = relaxed s.pressure (ground (arith, evidence));
                    fresh = fresh;
                    cooled = ground (arith, cooled);
                    healthy = healthy;
                    matches = matches;
                  })
                  (λ _ up. absurd (omega (arith, up)))

    by_ratio-Raises : (ratio : Ratio) → Raises (decide_by_ratio p s ratio target now last_change)
    by_ratio-Raises absent = λ up. absurd (omega (arith, up))
    by_ratio-Raises not_finite = λ up. absurd (omega (arith, up))
    by_ratio-Raises (millionths ratio) =
        if_intro Raises (is_stale p s now) _ _ (λ _ up. absurd (omega (arith, up)))
          (λ fresh. fresh-Raises ratio fresh)

  -- A valid profile raises a target that is not zero only on a fresh, healthy and matching sample
  -- with demand and without pressure, and after the cooldown.
  pub decide-Raises :
      check_profile p ≡ true → 1 ≤ target → target < (decide p s target now last_change).0 → IsProbe
  unfolding decide
  decide-Raises valid some_work =
      if_intro Raises (not s.healthy || not s.profile_matches) _ _
        (λ _ up. absurd (omega (arith, up)))
        (λ well.
          by_ratio-Raises valid some_work (healthy_of s.healthy s.profile_matches well)
            (matches_of s.healthy s.profile_matches well) s.service_latency_ratio)
    where
      healthy_of : (a b : Bool) → (not a || not b) ≡ false → a ≡ true
      healthy_of a b e = ground arith

      matches_of : (a b : Bool) → (not a || not b) ≡ false → b ≡ true
      matches_of a b e = ground arith
