-- ===== src/Rewards/Difficulty.antt =====
-- src/rewards/difficulty.ts: the threshold of the next epoch. Counts are natural numbers. Ratios are
-- floating-point numbers of the runtime, a parameter with the operations that the source uses.
pub mod Bounds
use coretex_client.Prelude.{
  ℕ, zero, suc, ◌+◌, ◌-◌, ◌*◌, ◌/◌, ◌%◌, ◌^◌, ◌≤◌, ◌<◌, min, max, ◌≡◌, ◌≢◌, ◌↔◌, ◌⊎◌, inl, inr,
  refl, sym, ap, ◌∙◌, List, [], ◌∷◌, ◌++◌, map, length, get_elem?, get_or, set, take, drop,
  replicate, tabulate, All, Option, none, some, Option-cases, Bool, true, false, not, ◌&&◌, ◌||◌,
  arith, ltb, leb, ◌==◌, if◌then◌else◌, Bool-cases, &&-eq-true, ||-eq-false, ==-eq-false, list_head,
  contains, length-append, length-set, get_elem?-set_self, get_elem?-set_ne, ==_iff, length-map,
  some-injective, positive_test, if-both,
}
use coretex_client.Prelude.Int.{ℤ, pos, negsuc, ltb_ℤ}

-- The numbers of the runtime: its literals, `a / b` of two counts, `Math.min` and `Math.max`, and
-- `BigInt(Math.round(Number(current) * ratio))`, which rounds as the runtime does and is `none` where
-- the product is not finite and `BigInt` throws.
pub record RatioArith (N : Type 0) : Type 0 where
  pub one : N
  pub ramp_default : N
  pub decay_default : N
  pub recovery_default : N
  pub drift : N
  pub quotient : ℕ → ℕ → N
  pub minimum : N → N → N
  pub maximum : N → N → N
  pub apply : ℤ → N → Option ℤ

abbrev pub min_improvement_ppm : ℤ
min_improvement_ppm = pos 2500

abbrev pub max_improvement_ppm : ℤ
max_improvement_ppm = pos 150000

-- `DifficultyInputs`. The deprecated `smallDriftRatio` is not read.
pub record DifficultyInputs (N : Type 0) : Type 0 where
  pub current : ℤ
  pub observed_advances : ℕ
  pub target_advances : ℕ
  pub quality_attempts : ℕ
  pub quality_high_threshold : Option ℕ
  pub ramp_up_max_ratio : Option N
  pub decay_ratio : Option N
  pub under_target_recovery_ratio : Option N
  pub major_delta_active : Bool
  pub min_clamp_ppm : Option ℤ
  pub max_clamp_ppm : Option ℤ

pub data DifficultyReason : Type 0 where
  ramp_up decay no_change small_drift_up small_drift_down under_target_recovery major_delta_grace :
      DifficultyReason

pub record DifficultyOutput (N : Type 0) : Type 0 where
  pub next : ℤ
  pub reason : DifficultyReason
  pub ratio_applied : N
  pub clamped : Bool

-- `value ?? fallback`
abbrev pub or_default : {A : Type 0} → Option A → A → A
or_default none d = d
or_default (some a) d = a

unfoldable pub clamp_ppm : ℤ → ℤ → ℤ → ℤ
clamp_ppm value low high = if ltb_ℤ value low then low else if ltb_ℤ high value then high else value

-- The effective bounds.
unfoldable pub min_clamp : Option ℤ → ℤ
min_clamp none = min_improvement_ppm
min_clamp (some m) = if ltb_ℤ (pos 0) m then m else min_improvement_ppm

unfoldable pub max_clamp : ℤ → Option ℤ → ℤ
max_clamp low none = max_improvement_ppm
max_clamp low (some m) = if ltb_ℤ low m then m else max_improvement_ppm

module _ {N : Type 0} (arithmetic : RatioArith N) where
  -- The branch taken, and its ratio.
  unfoldable pub choose_ratio : DifficultyInputs N → DifficultyReason × N
  choose_ratio inputs =
      let observed = inputs.observed_advances in
      let target = inputs.target_advances in
      let attempts = inputs.quality_attempts in
      let raw = arithmetic.quotient observed target in
      if target == 0
      then (no_change, arithmetic.one)
      else if ltb target observed
      then (
        ramp_up,
        arithmetic.minimum (arithmetic.maximum raw arithmetic.one)
            (or_default inputs.ramp_up_max_ratio arithmetic.ramp_default),
      )
      else if observed == 0 && leb (or_default inputs.quality_high_threshold (4 * target)) attempts
      then (decay, or_default inputs.decay_ratio arithmetic.decay_default)
      else if observed == 0 && attempts == 0
      then (small_drift_down, arithmetic.drift)
      else if ltb observed target && ltb 0 attempts
      then (
        under_target_recovery,
        or_default inputs.under_target_recovery_ratio arithmetic.recovery_default,
      )
      else (no_change, arithmetic.one)

  -- With the bounds and the branch; `none` is the exception.
  unfoldable pub apply_ratio : ℤ → ℤ → ℤ → DifficultyReason × N → Option (DifficultyOutput N)
  apply_ratio current low high (reason, ratio) = elim (arithmetic.apply current ratio) [
    | none ↦ none
    | some unclamped ↦ some (record {
      next = clamp_ppm unclamped low high;
      reason = reason;
      ratio_applied = ratio;
      clamped = ltb_ℤ unclamped low || ltb_ℤ high unclamped;
    })
  ]

  unfoldable pub next_min_improvement_ppm : DifficultyInputs N → Option (DifficultyOutput N)
  next_min_improvement_ppm inputs =
      let low = min_clamp inputs.min_clamp_ppm in
      let high = max_clamp low inputs.max_clamp_ppm in
      if inputs.major_delta_active
      then some (record {
        next = clamp_ppm inputs.current low high;
        reason = major_delta_grace;
        ratio_applied = arithmetic.one;
        clamped = false;
      })
      else apply_ratio inputs.current low high (choose_ratio inputs)

  pub record EpochSnapshot : Type 0 where
    pub epoch : ℕ
    pub inputs : DifficultyInputs N

  pub record HistogramEntry : Type 0 where
    pub epoch : ℕ
    pub current : ℤ
    pub next : ℤ
    pub reason : DifficultyReason

  pub record DifficultyHistogram : Type 0 where
    pub by_epoch : List HistogramEntry
    pub ramp_ups : ℕ
    pub decays : ℕ
    pub clamp_hits : ℕ

  abbrev is_ramp_up : DifficultyReason → ℕ
  is_ramp_up ramp_up = 1
  is_ramp_up _ = 0

  abbrev is_decay : DifficultyReason → ℕ
  is_decay decay = 1
  is_decay _ = 0

  -- One epoch, before the later ones.
  abbrev add_epoch : EpochSnapshot → DifficultyOutput N → DifficultyHistogram → DifficultyHistogram
  add_epoch snapshot output rest = record {
    by_epoch =
        record {
          epoch = snapshot.epoch;
          current = snapshot.inputs.current;
          next = output.next;
          reason = output.reason;
        }
        ∷ rest.by_epoch;
    ramp_ups = is_ramp_up output.reason + rest.ramp_ups;
    decays = is_decay output.reason + rest.decays;
    clamp_hits = (if output.clamped then 1 else 0) + rest.clamp_hits;
  }

  unfoldable pub difficulty_histogram : List EpochSnapshot → Option DifficultyHistogram
  difficulty_histogram [] =
      some (record { by_epoch = []; ramp_ups = 0; decays = 0; clamp_hits = 0 })
  difficulty_histogram (snapshot ∷ snapshots) =
      let later = difficulty_histogram snapshots in
      elim (next_min_improvement_ppm snapshot.inputs) [
        | none ↦ none
        | some output ↦ elim later [
          | none ↦ none
          | some rest ↦ some (add_epoch snapshot output rest)
        ]
      ]
