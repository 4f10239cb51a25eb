-- ===== src/Rewards/Tiers.antt =====
-- The work units of a state advance under a policy that `assertValidCoreTexWorkPolicy` accepts.
use coretex_client.Prelude.{
  length, ℕ, ◌≤◌, ◌≡◌, refl, List, [], ◌∷◌, Option, none, some, true, not, ltb, leb, ◌==◌, arith,
  inl, inr, Bool-cases,
}
use coretex_client.Rewards.Numeric.{Numeric, ok, >>=-eq-ok, throw_if-eq-ok, to_big_int}
use coretex_client.Rewards.Policy.{
  CoreTexWorkPolicy, StateAdvanceWorkTier, assert_valid_coretex_work_policy, check_head,
  check_calibration, check_advance, check_tiers, first_tier_at_zero, not_above, or_zero,
  outcome_coretex_state_advance,
}
use coretex_client.Rewards.WorkUnits.{
  select_tier, state_advance_bps, compute_coretex_work_units_bps,
}

-- What the check of one tier says.
check_tiers-cons :
    (prev : Option ℕ) (prev_bps : ℕ) (tier : StateAdvanceWorkTier)
    (tiers : List StateAdvanceWorkTier)
    → check_tiers prev prev_bps (tier ∷ tiers) ≡ ok tt
    → (m : ℕ) × (b : ℕ) × (to_big_int tier.min_qualified_screener_passes_since_last_state_advance
        ≡ ok m)
      × (to_big_int tier.work_units_bps ≡ ok b)
      × (30000 ≤ b)
      × (prev_bps ≤ b)
      × (check_tiers (some m) b tiers ≡ ok tt)
unfolding check_tiers
check_tiers-cons prev prev_bps tier tiers h =
    let (m, em, h₁) =
      >>=-eq-ok (to_big_int tier.min_qualified_screener_passes_since_last_state_advance) _ h in
    let (b, eb, h₂) = >>=-eq-ok (to_big_int tier.work_units_bps) _ h₁ in
    let (_, h₃) = throw_if-eq-ok (not_above prev m) _ h₂ in
    let (low, h₄) = throw_if-eq-ok (ltb b 30000) _ h₃ in
    let (down, h₅) = throw_if-eq-ok (ltb b prev_bps) _ h₄ in
    (m, b, em, eb, ground arith, ground arith, h₅)

-- Two runs of the loop over the tiers, from selections that are in order.
select_tier_mono :
    (prev : Option ℕ) (prev_bps : ℕ) (tiers : List StateAdvanceWorkTier) (n k s t : ℕ)
    → check_tiers prev prev_bps tiers ≡ ok tt
    → n ≤ k
    → s ≤ t
    → t ≤ prev_bps
    → (b : ℕ) × (c : ℕ) × (select_tier n s tiers ≡ ok b)
      × (select_tier k t tiers ≡ ok c)
      × (s ≤ b)
      × (b ≤ c)
unfolding select_tier
select_tier_mono prev prev_bps [] n k s t h nk st tp = (s, t, refl, refl, omega arith, st)
select_tier_mono prev prev_bps (tier ∷ tiers) n k s t h nk st tp =
    let (m, bps, em, eb, _, up, rest) = check_tiers-cons prev prev_bps tier tiers h in
    elim (Bool-cases (leb m n)) [
      | inl low ↦
          let high : leb m k ≡ true = ground arith in
          let (b, c, e, f, sb, bc) =
            select_tier_mono (some m) bps tiers n k bps bps rest nk (omega arith) (omega arith) in
          (b, c, rw (em, low, eb, select_tier) e, rw (em, high, eb, select_tier) f, omega arith, bc)
      | inr low ↦ elim (Bool-cases (leb m k)) [
        | inl high ↦
            let (b, c, e, f, sb, bc) =
              select_tier_mono (some m) bps tiers n k s bps rest nk (omega arith) (omega arith) in
            (b, c, rw (em, low, select_tier) e, rw (em, high, eb, select_tier) f, sb, bc)
        | inr high ↦
            let (b, c, e, f, sb, bc) =
              select_tier_mono (some m) bps tiers n k s t rest nk st (omega arith) in
            (b, c, rw (em, low, select_tier) e, rw (em, high, select_tier) f, sb, bc)
      ]
    ]

state_advance_bps_mono :
    (tiers : List StateAdvanceWorkTier) (n k : ℕ)
    → check_tiers none 0 tiers ≡ ok tt
    → first_tier_at_zero tiers ≡ ok tt
    → n ≤ k
    → (b : ℕ) × (c : ℕ) × (state_advance_bps n tiers ≡ ok b)
      × (state_advance_bps k tiers ≡ ok c)
      × (30000 ≤ b)
      × (b ≤ c)
unfolding state_advance_bps select_tier first_tier_at_zero
state_advance_bps_mono [] n k h z nk = cc
state_advance_bps_mono (tier ∷ tiers) n k h z nk =
    let (m, bps, em, eb, three, _, rest) = check_tiers-cons none 0 tier tiers h in
    let zero_first : m ≡ 0 = ground (arith, rw em at z) in
    let low : leb m n ≡ true = ground arith in
    let high : leb m k ≡ true = ground arith in
    let (b, c, e, f, sb, bc) =
      select_tier_mono (some m) bps tiers n k bps bps rest nk (omega arith) (omega arith) in
    (b, c, rw (eb, em, low, select_tier) e, rw (eb, em, high, select_tier) f, omega arith, bc)

-- What a valid policy says of its tiers.
valid_tiers :
    (p : CoreTexWorkPolicy)
    → assert_valid_coretex_work_policy p ≡ ok tt
    → (p.state_advance.outcome ≡ 2)
      × (p.screener_pass.outcome ≡ 1)
      × (check_tiers none 0 p.state_advance.tiers ≡ ok tt)
      × (first_tier_at_zero p.state_advance.tiers ≡ ok tt)
unfolding assert_valid_coretex_work_policy check_head check_advance
valid_tiers p h =
    let (_, head, h₁) = >>=-eq-ok (check_head p) _ h in
    let (_, _, h₂) = >>=-eq-ok (check_calibration p.screener_pass.calibration) _ h₁ in
    let (_, advance, h₃) = >>=-eq-ok (check_advance p) _ h₂ in
    let (_, tiers, first) = >>=-eq-ok (check_tiers none 0 p.state_advance.tiers) _ h₃ in
    let (outcome, _) = throw_if-eq-ok (not (p.state_advance.outcome == 2)) _ advance in
    let (_, a₁) = throw_if-eq-ok (length p.name == 0) _ head in
    let (_, a₂) = throw_if-eq-ok (leb p.version 0) _ a₁ in
    let (_, a₃) = throw_if-eq-ok (not (p.rules_version == 192)) _ a₂ in
    let (_, a₄) = throw_if-eq-ok (not (p.lane == 2)) _ a₃ in
    let (divisor, _, a₅) = >>=-eq-ok (to_big_int p.bps_divisor) _ a₄ in
    let (_, a₆) = throw_if-eq-ok (not (divisor == 10000)) _ a₅ in
    (ground arith, ground arith, tiers, first)

-- Under a valid policy the work units of a state advance exist for every count, are at least
-- 30000, three times those of a screener pass, and do not fall when the count rises.
pub state_advance_units_mono :
    (p : CoreTexWorkPolicy) (v w : Option Numeric) (n k : ℕ)
    → assert_valid_coretex_work_policy p ≡ ok tt
    → to_big_int (or_zero v) ≡ ok n
    → to_big_int (or_zero w) ≡ ok k
    → n ≤ k
    → (b : ℕ) × (c : ℕ) × (compute_coretex_work_units_bps outcome_coretex_state_advance v p ≡ ok b)
      × (compute_coretex_work_units_bps outcome_coretex_state_advance w p ≡ ok c)
      × (30000 ≤ b)
      × (b ≤ c)
unfolding compute_coretex_work_units_bps
state_advance_units_mono p v w n k valid ev ew nk =
    let (advance, screener, tiers, first) = valid_tiers p valid in
    let (b, c, e, f, three, up) = state_advance_bps_mono p.state_advance.tiers n k tiers first nk in
    (b, c, rw (valid, screener, advance, ev) e, rw (valid, screener, advance, ew) f, three, up)
