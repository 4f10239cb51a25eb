-- ===== src/Rewards/Default.antt =====
-- src/rewards/work-units.ts: `DEFAULT_CORETEX_WORK_POLICY`, with its decimal strings.
use coretex_client.Prelude.{[], ◌∷◌, some, true}
use coretex_client.Rewards.Numeric.{Numeric, str}
use coretex_client.Rewards.Policy.{
  StateAdvanceWorkTier, Calibration, CoreTexWorkPolicy, lane_coretex, outcome_coretex_screener_pass,
  outcome_coretex_state_advance, cortex_rules_version,
}

abbrev pub d10000 : Numeric
d10000 = str (49 ∷ 48 ∷ 48 ∷ 48 ∷ 48 ∷ [])

abbrev pub d0 : Numeric
d0 = str (48 ∷ [])

abbrev pub d250000 : Numeric
d250000 = str (50 ∷ 53 ∷ 48 ∷ 48 ∷ 48 ∷ 48 ∷ [])

abbrev pub d1000000 : Numeric
d1000000 = str (49 ∷ 48 ∷ 48 ∷ 48 ∷ 48 ∷ 48 ∷ 48 ∷ [])

abbrev pub d50 : Numeric
d50 = str (53 ∷ 48 ∷ [])

abbrev pub d5 : Numeric
d5 = str (53 ∷ [])

abbrev pub d20000 : Numeric
d20000 = str (50 ∷ 48 ∷ 48 ∷ 48 ∷ 48 ∷ [])

abbrev pub d5000 : Numeric
d5000 = str (53 ∷ 48 ∷ 48 ∷ 48 ∷ [])

abbrev pub d50000 : Numeric
d50000 = str (53 ∷ 48 ∷ 48 ∷ 48 ∷ 48 ∷ [])

abbrev pub d150000 : Numeric
d150000 = str (49 ∷ 53 ∷ 48 ∷ 48 ∷ 48 ∷ 48 ∷ [])

abbrev pub d1 : Numeric
d1 = str (49 ∷ [])

abbrev pub d30000 : Numeric
d30000 = str (51 ∷ 48 ∷ 48 ∷ 48 ∷ 48 ∷ [])

abbrev pub d25 : Numeric
d25 = str (50 ∷ 53 ∷ [])

abbrev pub d40000 : Numeric
d40000 = str (52 ∷ 48 ∷ 48 ∷ 48 ∷ 48 ∷ [])

abbrev pub d100 : Numeric
d100 = str (49 ∷ 48 ∷ 48 ∷ [])

abbrev pub d60000 : Numeric
d60000 = str (54 ∷ 48 ∷ 48 ∷ 48 ∷ 48 ∷ [])

abbrev pub d250 : Numeric
d250 = str (50 ∷ 53 ∷ 48 ∷ [])

abbrev pub d90000 : Numeric
d90000 = str (57 ∷ 48 ∷ 48 ∷ 48 ∷ 48 ∷ [])

abbrev pub d500 : Numeric
d500 = str (53 ∷ 48 ∷ 48 ∷ [])

abbrev pub d120000 : Numeric
d120000 = str (49 ∷ 50 ∷ 48 ∷ 48 ∷ 48 ∷ 48 ∷ [])

abbrev pub default_tier : Numeric → Numeric → StateAdvanceWorkTier
default_tier min bps = record {
  min_qualified_screener_passes_since_last_state_advance = min;
  work_units_bps = bps;
}

abbrev pub default_calibration : Calibration
default_calibration = record {
  score_scale_ppm = d1000000;
  min_delta_ppm = d50;
  remaining_headroom_bps = d5;
  noise_floor_multiplier_bps = d20000;
  plateau_easing_max_bps = d5000;
  state_advance_threshold_floor_bps = some d5000;
  anti_gaming_probe_multiplier_bps = d20000;
  max_anti_gaming_penalty_bps = d50000;
  max_threshold_ppm = d150000;
}

abbrev pub default_coretex_work_policy : CoreTexWorkPolicy
default_coretex_work_policy = record {
  name =
      98 ∷ 111 ∷ 116 ∷ 99 ∷ 111 ∷ 105 ∷ 110 ∷ 45 ∷ 99 ∷ 111 ∷ 114 ∷ 101 ∷ 116 ∷ 101 ∷ 120 ∷ 45 ∷ 119
      ∷ 111 ∷ 114 ∷ 107 ∷ 45 ∷ 112 ∷ 111 ∷ 108 ∷ 105 ∷ 99 ∷ 121 ∷ [];
  version = 3;
  rules_version = cortex_rules_version;
  lane = lane_coretex;
  bps_divisor = d10000;
  screener_pass = record {
    outcome = outcome_coretex_screener_pass;
    min_local_model_delta_ppm = d0;
    max_relevant_near_collision_ppm = d250000;
    work_units_bps = d10000;
    calibration = default_calibration;
  };
  state_advance = record {
    outcome = outcome_coretex_state_advance;
    min_deterministic_delta_ppm = d1;
    min_local_model_delta_ppm = d0;
    require_live_state_advance = true;
    tiers =
        default_tier d0 d30000
        ∷ default_tier d25 d40000
        ∷ default_tier d100 d60000
        ∷ default_tier d250 d90000
        ∷ default_tier d500 d120000
        ∷ [];
  };
}
