-- ===== src/Rewards/Policy.antt =====
-- src/rewards/work-units.ts: the work policy and `assertValidCoreTexWorkPolicy`.
-- Fields that no operation reads but the hash of the policy are left out: `difficultyCounter` and
-- `antiGaming`. An outcome, a lane and a version are natural numbers.
use coretex_client.Prelude.{
  ℕ, ◌*◌, List, [], ◌∷◌, Option, none, some, Bool, false, not, ltb, leb, ◌==◌, length,
}
use coretex_client.Rewards.Numeric.{
  Numeric, bigint, WorkResult, ok, range_error, ◌>>=◌, ◌>>◌, throw_if, to_big_int,
}
use coretex_client.Prelude.Int.{pos}

abbrev pub work_bps_divisor : ℕ
work_bps_divisor = 10000

abbrev pub lane_coretex : ℕ
lane_coretex = 2

abbrev pub outcome_coretex_screener_pass : ℕ
outcome_coretex_screener_pass = 1

abbrev pub outcome_coretex_state_advance : ℕ
outcome_coretex_state_advance = 2

abbrev pub cortex_rules_version : ℕ
cortex_rules_version = 192

pub record StateAdvanceWorkTier : Type 0 where
  pub min_qualified_screener_passes_since_last_state_advance : Numeric
  pub work_units_bps : Numeric

pub record Calibration : Type 0 where
  pub score_scale_ppm : Numeric
  pub min_delta_ppm : Numeric
  pub remaining_headroom_bps : Numeric
  pub noise_floor_multiplier_bps : Numeric
  pub plateau_easing_max_bps : Numeric
  pub state_advance_threshold_floor_bps : Option Numeric
  pub anti_gaming_probe_multiplier_bps : Numeric
  pub max_anti_gaming_penalty_bps : Numeric
  pub max_threshold_ppm : Numeric

pub record ScreenerPass : Type 0 where
  pub outcome : ℕ
  pub min_local_model_delta_ppm : Numeric
  pub max_relevant_near_collision_ppm : Numeric
  pub work_units_bps : Numeric
  pub calibration : Calibration

pub record StateAdvance : Type 0 where
  pub outcome : ℕ
  pub min_deterministic_delta_ppm : Numeric
  pub min_local_model_delta_ppm : Numeric
  pub require_live_state_advance : Bool
  pub tiers : List StateAdvanceWorkTier

pub record CoreTexWorkPolicy : Type 0 where
  pub name : List ℕ
  pub version : ℕ
  pub rules_version : ℕ
  pub lane : ℕ
  pub bps_divisor : Numeric
  pub screener_pass : ScreenerPass
  pub state_advance : StateAdvance

-- `value ?? 0n`
abbrev pub or_zero : Option Numeric → Numeric
or_zero none = bigint (pos 0)
or_zero (some v) = v

-- The loop over the tiers. `below min` is `min <= prevMin`; `prevMin` is -1 before the first tier,
-- so that `none` stands for it.
abbrev pub not_above : Option ℕ → ℕ → Bool
not_above none min = false
not_above (some prev_min) min = leb min prev_min

unfoldable pub check_tiers : Option ℕ → ℕ → List StateAdvanceWorkTier → WorkResult (Unit {0})
check_tiers prev_min prev_bps [] = ok tt
check_tiers prev_min prev_bps (tier ∷ tiers) = do
  min ← to_big_int tier.min_qualified_screener_passes_since_last_state_advance
  bps ← to_big_int tier.work_units_bps
  throw_if (not_above prev_min min)
  throw_if (ltb bps (3 * work_bps_divisor))
  throw_if (ltb bps prev_bps)
  check_tiers (some min) bps tiers

unfoldable pub first_tier_at_zero : List StateAdvanceWorkTier → WorkResult (Unit {0})
first_tier_at_zero [] = range_error
first_tier_at_zero (tier ∷ tiers) = do
  min ← to_big_int tier.min_qualified_screener_passes_since_last_state_advance
  throw_if (not (min == 0))

unfoldable pub check_calibration : Calibration → WorkResult (Unit {0})
check_calibration c = do
  score_scale ← to_big_int c.score_scale_ppm
  min_delta ← to_big_int c.min_delta_ppm
  max_threshold ← to_big_int c.max_threshold_ppm
  plateau_easing_max_bps ← to_big_int c.plateau_easing_max_bps
  state_advance_threshold_floor_bps ← to_big_int (or_zero c.state_advance_threshold_floor_bps)
  max_anti_gaming_penalty_bps ← to_big_int c.max_anti_gaming_penalty_bps
  throw_if (not (score_scale == 1000000))
  throw_if (ltb min_delta 10)
  throw_if (ltb max_threshold min_delta)
  remaining_headroom_bps ← to_big_int c.remaining_headroom_bps
  throw_if (remaining_headroom_bps == 0)
  noise_floor_multiplier_bps ← to_big_int c.noise_floor_multiplier_bps
  throw_if (ltb noise_floor_multiplier_bps work_bps_divisor)
  throw_if (ltb work_bps_divisor plateau_easing_max_bps)
  throw_if (ltb work_bps_divisor state_advance_threshold_floor_bps)
  anti_gaming_probe_multiplier_bps ← to_big_int c.anti_gaming_probe_multiplier_bps
  throw_if (anti_gaming_probe_multiplier_bps == 0)
  throw_if (ltb (10 * work_bps_divisor) max_anti_gaming_penalty_bps)

unfoldable pub check_head : CoreTexWorkPolicy → WorkResult (Unit {0})
check_head p = do
  throw_if (length p.name == 0)
  throw_if (leb p.version 0)
  throw_if (not (p.rules_version == cortex_rules_version))
  throw_if (not (p.lane == lane_coretex))
  bps_divisor ← to_big_int p.bps_divisor
  throw_if (not (bps_divisor == work_bps_divisor))
  throw_if (not (p.screener_pass.outcome == outcome_coretex_screener_pass))

unfoldable pub check_advance : CoreTexWorkPolicy → WorkResult (Unit {0})
check_advance p = do
  throw_if (not (p.state_advance.outcome == outcome_coretex_state_advance))
  screener_bps ← to_big_int p.screener_pass.work_units_bps
  throw_if (not (screener_bps == work_bps_divisor))
  throw_if (length p.state_advance.tiers == 0)

unfoldable pub assert_valid_coretex_work_policy : CoreTexWorkPolicy → WorkResult (Unit {0})
assert_valid_coretex_work_policy p = do
  check_head p
  check_calibration p.screener_pass.calibration
  check_advance p
  check_tiers none 0 p.state_advance.tiers
  first_tier_at_zero p.state_advance.tiers
