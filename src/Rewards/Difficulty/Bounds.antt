-- ===== src/Rewards/Difficulty/Bounds.antt =====
-- The bounds of the threshold of src/rewards/difficulty.ts, and when it may rise.
use coretex_client.Prelude.{
  ℕ, ◌*◌, ◌^◌, ◌≤◌, ◌≡◌, inl, inr, refl, sym, ap, ◌∙◌, Option, none, some, Option-cases, Bool, true,
  false, ◌&&◌, ◌||◌, arith, ltb, leb, ◌==◌, if◌then◌else◌, Bool-cases,
}
use coretex_client.Prelude.Int.{ℤ, pos, ltb_ℤ, ◌≤ℤ◌}
use coretex_client.Rewards.Difficulty.{
  RatioArith, DifficultyInputs, DifficultyReason, DifficultyOutput, or_default, clamp_ppm,
  min_clamp, max_clamp, choose_ratio, apply_ratio, major_delta_grace, next_min_improvement_ppm,
}
use mathlib.Core.Path.{subst}

clamp_ppm-bounds :
    (value low high : ℤ)
    → low ≤ℤ high
    → (low ≤ℤ clamp_ppm value low high) × (clamp_ppm value low high ≤ℤ high)
unfolding clamp_ppm
clamp_ppm-bounds value low high h = ground arith

-- The bounds without overrides.
pub default_bounds : (min_clamp none ≡ pos 2500) × (max_clamp (pos 2500) none ≡ pos 150000)
unfolding min_clamp max_clamp
default_bounds = (refl, refl)

pub record IsBounded {N : Type 0} (arithmetic : RatioArith N) (inputs : DifficultyInputs N)
    (low high : ℤ) (out : DifficultyOutput N) : Type 0 where
  pub within : (low ≤ℤ out.next) × (out.next ≤ℤ high)
  pub graced : inputs.major_delta_active ≡ true → out.next ≡ clamp_ppm inputs.current low high
  pub rule :
      inputs.major_delta_active ≡ false
      → (product : ℤ) × (arithmetic.apply inputs.current out.ratio_applied ≡ some product)
        × (out.next ≡ clamp_ppm product low high)

-- The result, or the exception, which is that of the product.
pub IsResult :
    {N : Type 0} → RatioArith N → DifficultyInputs N → ℤ → ℤ → Option (DifficultyOutput N) → Type 0
IsResult arithmetic inputs low high none =
    (inputs.major_delta_active ≡ false)
    × (arithmetic.apply inputs.current (choose_ratio arithmetic inputs).1 ≡ none)
IsResult arithmetic inputs low high (some out) = IsBounded arithmetic inputs low high out

module _ {N : Type 0} (arithmetic : RatioArith N) (inputs : DifficultyInputs N) where
  abbrev low : ℤ
  low = min_clamp inputs.min_clamp_ppm

  abbrev high : ℤ
  high = max_clamp (min_clamp inputs.min_clamp_ppm) inputs.max_clamp_ppm

  -- What the grace decides.
  graced_output : DifficultyOutput N
  graced_output = record {
    next = clamp_ppm inputs.current low high;
    reason = major_delta_grace;
    ratio_applied = arithmetic.one;
    clamped = false;
  }

  by_grace : Bool → Option (DifficultyOutput N)
  by_grace b =
      if b
      then some graced_output
      else apply_ratio arithmetic inputs.current low high (choose_ratio arithmetic inputs)

  next-eq-by_grace :
      (b : Bool)
      → inputs.major_delta_active ≡ b
      → next_min_improvement_ppm arithmetic inputs ≡ by_grace b
  unfolding next_min_improvement_ppm by_grace graced_output
  next-eq-by_grace b e = ap by_grace e

  ungraced_output : DifficultyReason × N → ℤ → DifficultyOutput N
  ungraced_output branch product = record {
    next = clamp_ppm product low high;
    reason = branch.0;
    ratio_applied = branch.1;
    clamped = ltb_ℤ product low || ltb_ℤ high product;
  }

  apply_ratio-eq :
      (branch : DifficultyReason × N) (o : Option ℤ)
      → arithmetic.apply inputs.current branch.1 ≡ o
      → apply_ratio arithmetic inputs.current low high branch
        ≡ (elim o [ none ↦ none | some product ↦ some (ungraced_output branch product) ])
  unfolding apply_ratio ungraced_output
  apply_ratio-eq (reason, ratio) o e =
      ap
        (λ (x : Option ℤ). elim x as (λ y. Option (DifficultyOutput N)) [
          | none ↦ none
          | some product ↦ some (ungraced_output (reason, ratio) product)
        ])
        e

  -- Where the effective bounds are in order, `nextMinImprovementPpm` throws only without the grace
  -- and where the product of the current threshold and the chosen ratio is not finite; otherwise
  -- the next threshold lies between the bounds, and is the clamped current one under the grace and
  -- the clamped product of the current one and the ratio that is reported otherwise.
  pub next_min_improvement_ppm-IsBounded :
      low ≤ℤ high → IsResult arithmetic inputs low high (next_min_improvement_ppm arithmetic inputs)
  unfolding IsResult by_grace graced_output ungraced_output
  next_min_improvement_ppm-IsBounded h = elim (Bool-cases inputs.major_delta_active) [
    | inl on ↦
        subst (IsResult arithmetic inputs low high) (sym (next-eq-by_grace true on)) (record {
          within = clamp_ppm-bounds inputs.current low high h;
          graced = λ e. refl;
          rule = λ off. absurd (cc);
        })
    | inr off ↦
        let branch = choose_ratio arithmetic inputs in
        subst (IsResult arithmetic inputs low high) (sym (next-eq-by_grace false off))
          (elim (Option-cases (arithmetic.apply inputs.current branch.1)) [
            | inl e ↦
                subst (IsResult arithmetic inputs low high) (sym (apply_ratio-eq branch none e))
                  (off, e)
            | inr (product, e) ↦
                subst (IsResult arithmetic inputs low high)
                  (sym (apply_ratio-eq branch (some product) e))
                  (record {
                    within = clamp_ppm-bounds product low high h;
                    graced = λ on. absurd (cc);
                    rule = λ o. (product, e, refl);
                  })
          ])
  ]

  -- Applied to an amount that the runtime's numbers hold exactly, the ratio gives an amount that is
  -- not larger.
  abbrev pub Eases : N → Type 0
  Eases ratio =
      (n : ℕ) → n ≤ 2 ^ 53 → (m : ℤ) × (arithmetic.apply (pos n) ratio ≡ some m) × (m ≤ℤ pos n)

  choose_ratio-Eases :
      Eases arithmetic.one
      → Eases arithmetic.drift
      → Eases (or_default inputs.decay_ratio arithmetic.decay_default)
      → Eases (or_default inputs.under_target_recovery_ratio arithmetic.recovery_default)
      → inputs.observed_advances ≤ inputs.target_advances
      → Eases ((choose_ratio arithmetic inputs).1)
  unfolding choose_ratio
  choose_ratio-Eases one drift decays recovers h =
      let t : ltb inputs.target_advances inputs.observed_advances ≡ false = ground arith in
      rw t (
        pick (inputs.target_advances == 0) _ _ one (
          pick
            (inputs.observed_advances == 0
              && leb (or_default inputs.quality_high_threshold (4 * inputs.target_advances))
                  inputs.quality_attempts)
            _ _ decays
            (pick (inputs.observed_advances == 0 && inputs.quality_attempts == 0) _ _ drift (
              pick
                (ltb inputs.observed_advances inputs.target_advances
                  && ltb 0 inputs.quality_attempts)
                _ _ recovers one))))
    where
      pick :
          (b : Bool) (x y : DifficultyReason × N)
          → Eases x.1
          → Eases y.1
          → Eases (if b then x else y).1
      pick true x y hx hy = hx
      pick false x y hx hy = hy

  clamp_eases : (v c l h : ℤ) → v ≤ℤ c → l ≤ℤ c → clamp_ppm v l h ≤ℤ c
  unfolding clamp_ppm
  clamp_eases v c l h a b = ground arith

  -- For a current threshold of at most 2^53, at or above the lower bound, and no more advances
  -- than the target, where the ratios 1 and 0.95 and the ratios for decay and recovery do not
  -- raise an amount up to 2^53, `nextMinImprovementPpm` returns a next threshold that is not above
  -- the current one.
  pub next_min_improvement_ppm-le :
      (n : ℕ)
      → inputs.current ≡ pos n
      → n ≤ 2 ^ 53
      → low ≤ℤ inputs.current
      → Eases arithmetic.one
      → Eases arithmetic.drift
      → Eases (or_default inputs.decay_ratio arithmetic.decay_default)
      → Eases (or_default inputs.under_target_recovery_ratio arithmetic.recovery_default)
      → inputs.observed_advances ≤ inputs.target_advances
      → (out : DifficultyOutput N) × (next_min_improvement_ppm arithmetic inputs ≡ some out)
        × (out.next ≤ℤ inputs.current)
  unfolding by_grace graced_output ungraced_output
  next_min_improvement_ppm-le n e exact floor one drift decays recovers h =
      let branch = choose_ratio arithmetic inputs in
      let (m, product, r) = choose_ratio-Eases one drift decays recovers h n exact in
      let product₁ : arithmetic.apply inputs.current branch.1 ≡ some m =
        ap (λ c. arithmetic.apply c branch.1) e ∙ product in
      let r₁ : m ≤ℤ inputs.current = subst (λ (x : ℤ). m ≤ℤ x) (sym e) r in
      elim (Bool-cases inputs.major_delta_active) [
        | inl on ↦ (
          graced_output,
          next-eq-by_grace true on,
          clamp_eases inputs.current inputs.current low high (omega arith) floor,
        )
        | inr off ↦ (
          ungraced_output branch m,
          next-eq-by_grace false off ∙ apply_ratio-eq branch (some m) product₁,
          clamp_eases m inputs.current low high r₁ floor,
        )
      ]
