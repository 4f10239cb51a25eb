-- ===== src/Tests/Rewards.antt =====
-- The default work policy, and the theorems on work units at it.
use coretex_client.Prelude.{ℕ, ◌≤◌, ◌≡◌, refl, none, some, true, arith}
use coretex_client.Prelude.Int.{ℤ, pos}
use coretex_client.Rewards.Numeric.{bigint, safe_integer, ok, to_big_int, to_signed_big_int}
use coretex_client.Rewards.Policy.{
  assert_valid_coretex_work_policy, check_head, check_calibration, check_advance, check_tiers,
  first_tier_at_zero, or_zero, outcome_coretex_state_advance,
}
use coretex_client.Rewards.Default.{default_coretex_work_policy}
use coretex_client.Rewards.WorkUnits.{
  ThresholdInput, QualificationInput, CoreTexWorkQualification, ok_reason,
  compute_coretex_work_units_bps, compute_coretex_screener_threshold_ppm,
  evaluate_coretex_work_qualification, eased_headroom, capped_threshold, min_deterministic, decide,
  collides, state_advance_bps, select_tier,
}
use coretex_client.Rewards.Tiers.{state_advance_units_mono}
use coretex_client.Rewards.Bounds.{InBounds, screener_threshold_bounds}
use coretex_client.Rewards.Qualification.{IsQualified, evaluate-IsQualified}

pub default_valid : assert_valid_coretex_work_policy default_coretex_work_policy ≡ ok tt
unfolding assert_valid_coretex_work_policy check_head check_calibration check_advance check_tiers
    first_tier_at_zero to_big_int
default_valid = refl

zero_given : to_big_int (or_zero none) ≡ ok 0
unfolding to_big_int
zero_given = refl

count_given : to_big_int (or_zero (some (safe_integer (pos 120)))) ≡ ok 120
unfolding to_big_int
count_given = refl

state_advance_units_mono_example :
    (b : ℕ) × (c : ℕ) × (compute_coretex_work_units_bps outcome_coretex_state_advance none
        default_coretex_work_policy
      ≡ ok b)
    × (compute_coretex_work_units_bps outcome_coretex_state_advance
          (some (safe_integer (pos 120)))
          default_coretex_work_policy
        ≡ ok c)
    × (30000 ≤ b)
    × (b ≤ c)
state_advance_units_mono_example =
    state_advance_units_mono default_coretex_work_policy none (some (safe_integer (pos 120))) 0 120
      default_valid zero_given count_given (omega arith)

abbrev example_threshold : ThresholdInput
example_threshold = record {
  baseline_score_ppm = some (bigint (pos 200000));
  recent_noise_floor_ppm = some (bigint (pos 100));
  recent_screener_passes = none;
  recent_state_advances = none;
  target_state_advances = none;
  recent_probe_pass_rate_ppm = none;
  state_advance_threshold_ppm = some (bigint (pos 3000));
}

-- The floor's share of the state-advance threshold is the largest term.
example_computed :
    compute_coretex_screener_threshold_ppm example_threshold default_coretex_work_policy ≡ ok 1500
unfolding compute_coretex_screener_threshold_ppm assert_valid_coretex_work_policy check_head
    check_calibration check_advance check_tiers first_tier_at_zero to_big_int eased_headroom
    capped_threshold
example_computed = refl

screener_threshold_bounds_example :
    (d : ℕ) × (f : ℕ) × (s : ℕ) × (m : ℕ) × (to_big_int
        default_coretex_work_policy.screener_pass.calibration.min_delta_ppm
      ≡ ok d)
    × (to_big_int (
          or_zero
            default_coretex_work_policy.screener_pass.calibration.state_advance_threshold_floor_bps)
        ≡ ok f)
    × (to_big_int (or_zero example_threshold.state_advance_threshold_ppm) ≡ ok s)
    × (to_big_int default_coretex_work_policy.screener_pass.calibration.max_threshold_ppm ≡ ok m)
    × InBounds 1500 d f s m
screener_threshold_bounds_example =
    screener_threshold_bounds example_threshold default_coretex_work_policy 1500 example_computed

abbrev example_work : QualificationInput
example_work = record {
  outcome = 2;
  qualified_screener_passes_since_last_state_advance = some (bigint (pos 30));
  deterministic_delta_ppm = bigint (pos 4000);
  threshold_input = example_threshold;
  local_model_delta_ppm = none;
  relevant_near_collision_ppm = none;
  parent_matches_live_root = true;
  live_state_advanced = some true;
}

abbrev example_answer : CoreTexWorkQualification
example_answer = record {
  qualified = true;
  reason = ok_reason;
  work_units_bps = 40000;
  required_deterministic_delta_ppm = 3000;
}

example_evaluated :
    evaluate_coretex_work_qualification example_work default_coretex_work_policy ≡ ok example_answer
unfolding evaluate_coretex_work_qualification compute_coretex_screener_threshold_ppm
    assert_valid_coretex_work_policy check_head check_calibration check_advance check_tiers
    first_tier_at_zero to_big_int to_signed_big_int eased_headroom capped_threshold
    min_deterministic decide collides compute_coretex_work_units_bps state_advance_bps select_tier
example_evaluated = refl

evaluate-IsQualified_example :
    (delta : ℤ) × (local_delta : ℤ) × (threshold : ℕ) × (min_local : ℕ) × IsQualified example_work
      default_coretex_work_policy example_answer delta local_delta threshold min_local
evaluate-IsQualified_example =
    evaluate-IsQualified example_work default_coretex_work_policy example_answer example_evaluated
      refl
