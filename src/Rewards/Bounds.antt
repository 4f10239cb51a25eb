-- ===== src/Rewards/Bounds.antt =====
-- Bounds on the screener threshold.
use coretex_client.Prelude.{
  ℕ, ◌+◌, ◌-◌, ◌*◌, ◌/◌, ◌≤◌, ◌<◌, ◌≡◌, sym, ◌∙◌, inl, inr, ◌⊎◌, ◌&&◌, ltb, leb, arith,
}
use coretex_client.Rewards.Numeric.{
  ok, >>=-eq-ok, ok-injective, throw_if-eq-ok, to_big_int, max, clamp,
}
use coretex_client.Rewards.Policy.{CoreTexWorkPolicy, assert_valid_coretex_work_policy, or_zero}
use coretex_client.Rewards.WorkUnits.{
  ThresholdInput, is_undefined, eased_headroom, advance_floor, dynamic_ceiling, capped_threshold,
  compute_coretex_screener_threshold_ppm,
}

scale_up : (raw penalty : ℕ) → raw ≤ (raw * (10000 + penalty)) / 10000
scale_up raw penalty = omega arith

-- The threshold lies between the terms it is the largest of and its ceiling.
capped_threshold_bounds :
    (raw penalty ceiling : ℕ)
    → (capped_threshold raw penalty ceiling ≤ ceiling)
      × ((raw ≤ capped_threshold raw penalty ceiling)
          ⊎ (capped_threshold raw penalty ceiling ≡ ceiling))
unfolding capped_threshold
capped_threshold_bounds raw penalty ceiling =
    let up = scale_up raw penalty in (ground (arith, up), ground (arith, up))

-- How a threshold lies, given the minimal delta, the floor's share, the state-advance threshold and
-- the maximum.
abbrev pub InBounds : ℕ → ℕ → ℕ → ℕ → ℕ → Type 0
InBounds t d f s m =
    (t ≤ m) × (0 < s → t ≤ s) × (((d ≤ t) × (advance_floor s f ≤ t)) ⊎ (t ≡ dynamic_ceiling s m))

capped_threshold-InBounds :
    (d f s m rest penalty t : ℕ)
    → ok (capped_threshold (max (max d (advance_floor s f)) rest) penalty (dynamic_ceiling s m))
      ≡ ok t
    → InBounds t d f s m
capped_threshold-InBounds d f s m rest penalty t h =
    let raw = max (max d (advance_floor s f)) rest in
    let bounds = capped_threshold_bounds raw penalty (dynamic_ceiling s m) in
    let e = ok-injective h in
    (
      ground (arith, bounds, e),
      (λ some_threshold. ground (arith, bounds, e)),
      (elim bounds.1 [
        | inl low ↦ inl (ground (arith, low, e), ground (arith, low, e))
        | inr at_ceiling ↦ inr (sym e ∙ at_ceiling)
      ]),
    )

-- A threshold that `computeCoreTexScreenerThresholdPpm` returns is at most the policy's maximum
-- and at most a positive state-advance threshold, and unless it is that ceiling it is at least
-- the minimal delta and at least the floor's share of the state-advance threshold.
pub screener_threshold_bounds :
    (i : ThresholdInput) (p : CoreTexWorkPolicy) (t : ℕ)
    → compute_coretex_screener_threshold_ppm i p ≡ ok t
    → (d : ℕ) × (f : ℕ) × (s : ℕ) × (m : ℕ) × (to_big_int p.screener_pass.calibration.min_delta_ppm
        ≡ ok d)
      × (to_big_int (or_zero p.screener_pass.calibration.state_advance_threshold_floor_bps) ≡ ok f)
      × (to_big_int (or_zero i.state_advance_threshold_ppm) ≡ ok s)
      × (to_big_int p.screener_pass.calibration.max_threshold_ppm ≡ ok m)
      × InBounds t d f s m
unfolding compute_coretex_screener_threshold_ppm
screener_threshold_bounds i p t h =
    let c = p.screener_pass.calibration in
    let (_, _, h₁) = >>=-eq-ok (assert_valid_coretex_work_policy p) _ h in
    let (scale, _, h₂) = >>=-eq-ok (to_big_int c.score_scale_ppm) _ h₁ in
    let (base, _, h₃) = >>=-eq-ok (to_big_int (or_zero i.baseline_score_ppm)) _ h₂ in
    let (d, ed, h₄) = >>=-eq-ok (to_big_int c.min_delta_ppm) _ h₃ in
    let (headroom, _, h₅) = >>=-eq-ok (to_big_int c.remaining_headroom_bps) _ h₄ in
    let (noise, _, h₆) = >>=-eq-ok (to_big_int (or_zero i.recent_noise_floor_ppm)) _ h₅ in
    let (noise_bps, _, h₇) = >>=-eq-ok (to_big_int c.noise_floor_multiplier_bps) _ h₆ in
    let (f, ef, h₈) = >>=-eq-ok (to_big_int (or_zero c.state_advance_threshold_floor_bps)) _ h₇ in
    let (_, h₉) = throw_if-eq-ok (ltb 0 f && is_undefined i.state_advance_threshold_ppm) _ h₈ in
    let (s, es, g₁) = >>=-eq-ok (to_big_int (or_zero i.state_advance_threshold_ppm)) _ h₉ in
    let (_, g₂) = throw_if-eq-ok (ltb 0 f && leb s 0) _ g₁ in
    let (easing, _, g₃) = >>=-eq-ok (to_big_int c.plateau_easing_max_bps) _ g₂ in
    let (target, _, g₄) = >>=-eq-ok (to_big_int (or_zero i.target_state_advances)) _ g₃ in
    let headroom_delta = ((scale - clamp base 0 scale) * headroom) / 10000 in
    let (adjusted, _, g₅) = >>=-eq-ok (eased_headroom headroom_delta easing target i) _ g₄ in
    let (probe, _, g₆) = >>=-eq-ok (to_big_int (or_zero i.recent_probe_pass_rate_ppm)) _ g₅ in
    let (max_penalty, _, g₇) = >>=-eq-ok (to_big_int c.max_anti_gaming_penalty_bps) _ g₆ in
    let (probe_bps, _, g₈) = >>=-eq-ok (to_big_int c.anti_gaming_probe_multiplier_bps) _ g₇ in
    let (m, em, last) = >>=-eq-ok (to_big_int c.max_threshold_ppm) _ g₈ in
    (d, f, s, m, ed, ef, es, em, capped_threshold-InBounds d f s m _ _ t last)
