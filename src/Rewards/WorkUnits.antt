-- ===== src/Rewards/WorkUnits.antt =====
-- src/rewards/work-units.ts: `computeCoreTexWorkUnitsBps`, `computeCoreTexScreenerThresholdPpm` and
-- `evaluateCoreTexWorkQualification`. The differences of the source never fall below zero for a
-- policy that its first line has checked, so they are differences of natural numbers.
use coretex_client.Prelude.{
  ℕ, ◌+◌, ◌-◌, ◌*◌, ◌/◌, List, [], ◌∷◌, Option, none, some, Bool, true, false, not, ◌&&◌, ltb, leb,
  ◌==◌, if◌then◌else◌,
}
use coretex_client.Prelude.Int.{ℤ, pos, ltb_ℤ}
use coretex_client.Rewards.Numeric.{
  Numeric, WorkResult, ok, range_error, ◌>>=◌, ◌>>◌, throw_if, to_big_int, to_signed_big_int, min,
  max, clamp, ceil_div,
}
use coretex_client.Rewards.Policy.{
  CoreTexWorkPolicy, StateAdvanceWorkTier, assert_valid_coretex_work_policy, or_zero,
  work_bps_divisor,
}

-- The loop over the tiers: the last tier whose minimum the count reaches.
unfoldable pub select_tier : ℕ → ℕ → List StateAdvanceWorkTier → WorkResult ℕ
select_tier count selected [] = ok selected
select_tier count selected (tier ∷ tiers) = do
  min ← to_big_int tier.min_qualified_screener_passes_since_last_state_advance
  next ← if leb min count then to_big_int tier.work_units_bps else ok selected
  select_tier count next tiers

-- `tiers[0]` of no tiers is not defined, and reading its field throws.
abbrev pub first_tier_bps : List StateAdvanceWorkTier → WorkResult ℕ
first_tier_bps [] = range_error
first_tier_bps (tier ∷ tiers) = to_big_int tier.work_units_bps

unfoldable pub state_advance_bps : ℕ → List StateAdvanceWorkTier → WorkResult ℕ
state_advance_bps count tiers = do first ← first_tier_bps tiers; select_tier count first tiers

unfoldable pub compute_coretex_work_units_bps :
    ℕ → Option Numeric → CoreTexWorkPolicy → WorkResult ℕ
compute_coretex_work_units_bps outcome passes p = do
  assert_valid_coretex_work_policy p
  if outcome == p.screener_pass.outcome then to_big_int p.screener_pass.work_units_bps else do
    throw_if (not (outcome == p.state_advance.outcome))
    count ← to_big_int (or_zero passes)
    state_advance_bps count p.state_advance.tiers

pub record ThresholdInput : Type 0 where
  pub baseline_score_ppm : Option Numeric
  pub recent_noise_floor_ppm : Option Numeric
  pub recent_screener_passes : Option Numeric
  pub recent_state_advances : Option Numeric
  pub target_state_advances : Option Numeric
  pub recent_probe_pass_rate_ppm : Option Numeric
  pub state_advance_threshold_ppm : Option Numeric

abbrev pub is_undefined : Option Numeric → Bool
is_undefined none = true
is_undefined (some v) = false

-- The headroom term, eased while fewer state advances than the target were seen.
unfoldable pub eased_headroom : ℕ → ℕ → ℕ → ThresholdInput → WorkResult ℕ
eased_headroom headroom_delta easing_max target i = if leb target 0 then ok headroom_delta else do
  advances ← to_big_int (or_zero i.recent_state_advances)
  recent_screener_passes ← to_big_int (or_zero i.recent_screener_passes)
  let gap = target - min advances target
  let supported_gap = min recent_screener_passes gap
  let easing_bps = min easing_max ((easing_max * supported_gap) / target)
  ok ((headroom_delta * (work_bps_divisor - easing_bps)) / work_bps_divisor)

abbrev pub advance_floor : ℕ → ℕ → ℕ
advance_floor threshold floor_bps =
    if ltb 0 threshold && ltb 0 floor_bps
    then ceil_div (threshold * floor_bps) work_bps_divisor
    else 0

abbrev pub dynamic_ceiling : ℕ → ℕ → ℕ
dynamic_ceiling threshold max_threshold =
    if ltb 0 threshold then min max_threshold threshold else max_threshold

-- The end of the computation: the penalty and the ceiling.
unfoldable pub capped_threshold : ℕ → ℕ → ℕ → ℕ
capped_threshold raw penalty_bps ceiling =
    min ((raw * (work_bps_divisor + penalty_bps)) / work_bps_divisor) ceiling

unfoldable pub compute_coretex_screener_threshold_ppm :
    ThresholdInput → CoreTexWorkPolicy → WorkResult ℕ
compute_coretex_screener_threshold_ppm i p = do
  assert_valid_coretex_work_policy p
  let c = p.screener_pass.calibration
  scale ← to_big_int c.score_scale_ppm
  base ← to_big_int (or_zero i.baseline_score_ppm)
  let remaining = scale - clamp base 0 scale
  min_delta ← to_big_int c.min_delta_ppm
  headroom_bps ← to_big_int c.remaining_headroom_bps
  let headroom_delta = (remaining * headroom_bps) / work_bps_divisor
  noise_floor ← to_big_int (or_zero i.recent_noise_floor_ppm)
  noise_bps ← to_big_int c.noise_floor_multiplier_bps
  let noise_delta = (noise_floor * noise_bps) / work_bps_divisor
  floor_bps ← to_big_int (or_zero c.state_advance_threshold_floor_bps)
  throw_if (ltb 0 floor_bps && is_undefined i.state_advance_threshold_ppm)
  threshold ← to_big_int (or_zero i.state_advance_threshold_ppm)
  throw_if (ltb 0 floor_bps && leb threshold 0)
  easing_max ← to_big_int c.plateau_easing_max_bps
  target ← to_big_int (or_zero i.target_state_advances)
  adjusted ← eased_headroom headroom_delta easing_max target i
  probe ← to_big_int (or_zero i.recent_probe_pass_rate_ppm)
  max_penalty ← to_big_int c.max_anti_gaming_penalty_bps
  probe_bps ← to_big_int c.anti_gaming_probe_multiplier_bps
  let penalty = min max_penalty ((clamp probe 0 scale * probe_bps) / scale)
  max_threshold ← to_big_int c.max_threshold_ppm
  let raw = max (max min_delta (advance_floor threshold floor_bps)) (max adjusted noise_delta)
  ok (capped_threshold raw penalty (dynamic_ceiling threshold max_threshold))

pub data Reason : Type 0 where
  ok_reason unknown_outcome stale_parent deterministic_delta_too_low local_model_regression : Reason
  relevant_near_collision state_not_advanced : Reason

pub record CoreTexWorkQualification : Type 0 where
  pub qualified : Bool
  pub reason : Reason
  pub work_units_bps : ℕ
  pub required_deterministic_delta_ppm : ℕ

pub record QualificationInput : Type 0 where
  pub outcome : ℕ
  pub qualified_screener_passes_since_last_state_advance : Option Numeric
  pub deterministic_delta_ppm : Numeric
  pub threshold_input : ThresholdInput
  pub local_model_delta_ppm : Option Numeric
  pub relevant_near_collision_ppm : Option Numeric
  pub parent_matches_live_root : Bool
  pub live_state_advanced : Option Bool

abbrev pub refused : Reason → ℕ → CoreTexWorkQualification
refused r required = record {
  qualified = false;
  reason = r;
  work_units_bps = 0;
  required_deterministic_delta_ppm = required;
}

-- `flag === true`
abbrev pub is_true : Option Bool → Bool
is_true none = false
is_true (some b) = b

-- Is the near collision given, and above the maximum?
unfoldable pub collides : Option Numeric → Numeric → WorkResult Bool
collides none max_collision = ok false
collides (some v) max_collision = do
  limit ← to_big_int max_collision
  value ← to_big_int v
  ok (ltb limit value)

unfoldable pub min_deterministic : Bool → ℕ → QualificationInput → CoreTexWorkPolicy → WorkResult ℕ
min_deterministic is_state_advance screener_threshold i p = do
  threshold ← to_big_int (or_zero i.threshold_input.state_advance_threshold_ppm)
  if not is_state_advance then ok screener_threshold else do
    floor ← to_big_int p.state_advance.min_deterministic_delta_ppm
    ok (max (max floor screener_threshold) threshold)

-- The decision, from the required delta on.
unfoldable pub decide :
    Bool
    → ℤ
    → ℤ
    → ℕ
    → ℕ
    → QualificationInput
    → CoreTexWorkPolicy
    → WorkResult CoreTexWorkQualification
decide is_state_advance delta local_delta required min_local i p =
    if ltb_ℤ delta (pos required)
    then ok (refused deterministic_delta_too_low required)
    else if ltb_ℤ local_delta (pos min_local)
    then ok (refused local_model_regression required)
    else do
      collision ←
          collides i.relevant_near_collision_ppm p.screener_pass.max_relevant_near_collision_ppm
      if collision
          then ok (refused relevant_near_collision required)
          else if is_state_advance
              && p.state_advance.require_live_state_advance
              && not (is_true i.live_state_advanced)
          then ok (refused state_not_advanced required)
          else do
            units ←
                compute_coretex_work_units_bps i.outcome
                  i.qualified_screener_passes_since_last_state_advance p
            ok (record {
              qualified = true;
              reason = ok_reason;
              work_units_bps = units;
              required_deterministic_delta_ppm = required;
            })

unfoldable pub evaluate_coretex_work_qualification :
    QualificationInput → CoreTexWorkPolicy → WorkResult CoreTexWorkQualification
evaluate_coretex_work_qualification i p = do
  assert_valid_coretex_work_policy p
  let is_state_advance = i.outcome == p.state_advance.outcome
  if not (i.outcome == p.screener_pass.outcome) && not is_state_advance
      then ok (refused unknown_outcome 0)
      else if not i.parent_matches_live_root
      then ok (refused stale_parent 0)
      else do
        delta ← to_signed_big_int i.deterministic_delta_ppm
        local_delta ← to_signed_big_int (or_zero i.local_model_delta_ppm)
        screener_threshold ← compute_coretex_screener_threshold_ppm i.threshold_input p
        required ← min_deterministic is_state_advance screener_threshold i p
        min_local ← to_big_int (
            if is_state_advance
            then p.state_advance.min_local_model_delta_ppm
            else p.screener_pass.min_local_model_delta_ppm)
        decide is_state_advance delta local_delta required min_local i p
