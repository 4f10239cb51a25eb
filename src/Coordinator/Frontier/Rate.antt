-- ===== src/Coordinator/Frontier/Rate.antt =====
-- src/coordinator/epoch-frontier.ts: how many units an epoch churns.
use coretex_client.Prelude.{
  ℕ, ◌*◌, min, max, Option, none, some, Bool, true, false, ◌&&◌, ltb, ◌==◌, if◌then◌else◌,
}

pub data EpochFrontierMode : Type 0 where
  off c0 c1 c2 c3 c4 : EpochFrontierMode

-- What the source does with numbers that are no counts: `blend prev ewma` is the moving average for
-- the half life, and `deficit_units target recent yield` is
-- `Math.ceil(Math.max(0, target - recent) / Math.max(1e-6, yield))`.
pub record RateArith (N : Type 0) : Type 0 where
  pub of_count : ℕ → N
  pub blend : N → N → N
  pub at_most : N → N → Bool
  pub deficit_units : N → N → N → ℕ

pub record Settings (N : Type 0) : Type 0 where
  pub mode : EpochFrontierMode
  pub max_age : Option ℕ
  pub churn_rate : ℕ
  pub low_advances_threshold : ℕ
  pub low_advances_bump_rate : Option ℕ
  pub min_churn : ℕ
  pub max_churn : ℕ
  pub max_root_delta_per_epoch : ℕ
  pub target_accepts : N
  pub headroom_low_watermark : N
  pub headroom_high_watermark : N
  pub expected_yield_per_unit : N

abbrev pub is_off : EpochFrontierMode → Bool
is_off off = true
is_off c0 = true
is_off _ = false

abbrev is_c3 : EpochFrontierMode → Bool
is_c3 c3 = true
is_c3 _ = false

module _ {N : Type 0} (arithmetic : RateArith N) where
  unfoldable pub next_ewma : Option ℕ → Option N → Option N
  next_ewma none ewma = ewma
  next_ewma (some accepts) none = some (arithmetic.of_count accepts)
  next_ewma (some accepts) (some ewma) = some (arithmetic.blend (arithmetic.of_count accepts) ewma)

  module _ (settings : Settings N) where
    -- `Math.min(maxChurn, Math.max(minChurn, units))`
    unfoldable pub within_churn : ℕ → ℕ
    within_churn units = min settings.max_churn (max settings.min_churn units)

    abbrev pub recent_or_target : Option N → N
    recent_or_target none = settings.target_accepts
    recent_or_target (some ewma) = ewma

    unfoldable pub headroom_rate : Option N → ℕ
    headroom_rate ewma =
        let recent = recent_or_target ewma in
        if arithmetic.at_most recent settings.headroom_low_watermark
        then within_churn (
            arithmetic.deficit_units settings.target_accepts recent
              settings.expected_yield_per_unit)
        else if arithmetic.at_most settings.headroom_high_watermark recent
        then 0
        else settings.min_churn

    abbrev pub is_low : Option ℕ → Bool
    is_low none = false
    is_low (some accepts) = ltb accepts settings.low_advances_threshold

    abbrev pub bump_rate : Option ℕ → ℕ
    bump_rate none = settings.churn_rate * 2
    bump_rate (some rate) = rate

    abbrev pub no_attempts : Option ℕ → Bool
    no_attempts none = false
    no_attempts (some attempts) = attempts == 0

    -- The rate of the mode. The modes `off` and `C0` have returned before.
    unfoldable pub mode_rate : EpochFrontierMode → Option ℕ → Option ℕ → ℕ → Option N → ℕ
    mode_rate c1 accepts attempts injected ewma = settings.churn_rate
    mode_rate c2 accepts attempts injected ewma =
        if is_low accepts then bump_rate settings.low_advances_bump_rate else settings.churn_rate
    mode_rate c4 accepts attempts injected ewma = settings.min_churn
    mode_rate c3 accepts attempts injected ewma =
        if no_attempts attempts
        then if ltb 0 injected then within_churn injected else 0
        else headroom_rate ewma
    mode_rate _ accepts attempts injected ewma = headroom_rate ewma

    unfoldable pub churn_units : Option ℕ → Option ℕ → ℕ → Option N → ℕ
    churn_units accepts attempts injected ewma =
        let rate = mode_rate settings.mode accepts attempts injected ewma in
        min
          (if is_c3 settings.mode && ltb 0 injected then max rate (within_churn injected) else rate)
          settings.max_root_delta_per_epoch
