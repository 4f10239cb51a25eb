-- ===== src/Rewards/Qualification.antt =====
-- What a qualified piece of work has passed.
use coretex_client.Prelude.{
  ℕ, ◌≤◌, ◌≡◌, sym, ap, ◌∙◌, Bool, true, false, not, ◌&&◌, ◌==◌, arith, inl, inr, Bool-cases,
  if◌then◌else◌, ==_iff, ◌⊎◌, ◌≢◌,
}
use coretex_client.Prelude.Int.{ℤ, pos, ltb_ℤ, ◌≤ℤ◌}
use coretex_client.Rewards.Numeric.{
  Numeric, max, ok, >>=-eq-ok, ok-injective, to_big_int, to_signed_big_int,
}
use coretex_client.Rewards.Policy.{CoreTexWorkPolicy, assert_valid_coretex_work_policy, or_zero}
use coretex_client.Rewards.WorkUnits.{
  Reason, refused, unknown_outcome, stale_parent, deterministic_delta_too_low,
  local_model_regression, relevant_near_collision, state_not_advanced, QualificationInput,
  CoreTexWorkQualification, is_true, collides, min_deterministic, decide,
  compute_coretex_work_units_bps, compute_coretex_screener_threshold_ppm,
  evaluate_coretex_work_qualification,
}
use mathlib.Core.Path.{subst}

-- The required delta: the screener threshold, or for a state advance the largest of the policy's
-- minimum, that threshold, and the threshold of a state advance.
pub IsRequired : QualificationInput → CoreTexWorkPolicy → ℕ → ℕ → Type 0
IsRequired i p threshold required =
    (i.outcome ≢ p.state_advance.outcome → required ≡ threshold)
    × (i.outcome ≡ p.state_advance.outcome
        → (floor : ℕ) × (advance : ℕ) × (to_big_int p.state_advance.min_deterministic_delta_ppm
            ≡ ok floor)
          × (to_big_int (or_zero i.threshold_input.state_advance_threshold_ppm) ≡ ok advance)
          × (required ≡ max (max floor threshold) advance))

-- The smallest delta of the local model, by the outcome.
pub local_minimum : QualificationInput → CoreTexWorkPolicy → Numeric
local_minimum i p =
    if i.outcome == p.state_advance.outcome
    then p.state_advance.min_local_model_delta_ppm
    else p.screener_pass.min_local_model_delta_ppm

-- The conditions of a qualified piece of work.
pub record IsQualified (i : QualificationInput) (p : CoreTexWorkPolicy)
    (q : CoreTexWorkQualification) (delta local_delta : ℤ) (threshold min_local : ℕ) : Type 0 where
  pub outcome_known : (i.outcome ≡ p.screener_pass.outcome) ⊎ (i.outcome ≡ p.state_advance.outcome)
  pub parent_matches : i.parent_matches_live_root ≡ true
  pub threshold_known : compute_coretex_screener_threshold_ppm i.threshold_input p ≡ ok threshold
  pub delta_known : to_signed_big_int i.deterministic_delta_ppm ≡ ok delta
  pub required_is : IsRequired i p threshold q.required_deterministic_delta_ppm
  pub improves : pos threshold ≤ℤ delta
  pub required : pos q.required_deterministic_delta_ppm ≤ℤ delta
  pub local_known : to_signed_big_int (or_zero i.local_model_delta_ppm) ≡ ok local_delta
  pub local_minimum_known : to_big_int (local_minimum i p) ≡ ok min_local
  pub local_kept : pos min_local ≤ℤ local_delta
  pub apart :
      collides i.relevant_near_collision_ppm p.screener_pass.max_relevant_near_collision_ppm
      ≡ ok false
  pub advanced :
      (i.outcome == p.state_advance.outcome) ≡ true
      → p.state_advance.require_live_state_advance ≡ true
      → is_true i.live_state_advanced ≡ true
  pub units :
      compute_coretex_work_units_bps i.outcome i.qualified_screener_passes_since_last_state_advance
        p
      ≡ ok q.work_units_bps

-- The conditions that `decide` has tested.
Decided :
    Bool
    → ℤ
    → ℤ
    → ℕ
    → ℕ
    → QualificationInput
    → CoreTexWorkPolicy
    → CoreTexWorkQualification
    → Type 0
Decided is_advance delta local_delta required min_local i p q =
    (pos required ≤ℤ delta)
    × (pos min_local ≤ℤ local_delta)
    × (q.required_deterministic_delta_ppm ≡ required)
    × (collides i.relevant_near_collision_ppm p.screener_pass.max_relevant_near_collision_ppm
        ≡ ok false)
    × (is_advance ≡ true
        → p.state_advance.require_live_state_advance ≡ true
        → is_true i.live_state_advanced ≡ true)
    × (compute_coretex_work_units_bps i.outcome i.qualified_screener_passes_since_last_state_advance
          p
        ≡ ok q.work_units_bps)

not_refused :
    (q : CoreTexWorkQualification) (r : Reason) (n : ℕ) {A : Type 0}
    → ok (refused r n) ≡ ok q
    → q.qualified ≡ true
    → A
not_refused q r n h qualified =
    let e : false ≡ q.qualified = ap (λ t. t.qualified) (ok-injective h) in absurd (cc)

decide-IsQualified :
    (is_advance : Bool) (delta local_delta : ℤ) (required min_local : ℕ) (i : QualificationInput)
    (p : CoreTexWorkPolicy) (q : CoreTexWorkQualification)
    → decide is_advance delta local_delta required min_local i p ≡ ok q
    → q.qualified ≡ true
    → Decided is_advance delta local_delta required min_local i p q
unfolding decide Decided
decide-IsQualified is_advance delta local_delta required min_local i p q h qualified =
    let collision =
      collides i.relevant_near_collision_ppm p.screener_pass.max_relevant_near_collision_ppm in
    let live =
      is_advance
      && p.state_advance.require_live_state_advance
      && not (is_true i.live_state_advanced) in
    elim (Bool-cases (ltb_ℤ delta (pos required))) [
      | inl low ↦ not_refused q deterministic_delta_too_low required (rw low at h) qualified
      | inr high ↦ elim (Bool-cases (ltb_ℤ local_delta (pos min_local))) [
        | inl low ↦ not_refused q local_model_regression required (rw (high, low) at h) qualified
        | inr fine ↦
            let (b, e, h₁) = >>=-eq-ok collision _ (rw (high, fine) at h) in
            elim (Bool-cases b) [
              | inl bad ↦ not_refused q relevant_near_collision required (rw bad at h₁) qualified
              | inr apart ↦ elim (Bool-cases live) [
                | inl stale ↦
                    not_refused q state_not_advanced required (rw (apart, stale) at h₁) qualified
                | inr advanced ↦
                    let (units, eu, h₂) =
                      >>=-eq-ok
                        (compute_coretex_work_units_bps i.outcome
                          i.qualified_screener_passes_since_last_state_advance p)
                        _ (rw (apart, advanced) at h₁) in
                    let built = ok-injective h₂ in
                    (
                      ground arith,
                      ground arith,
                      sym (ap (λ t. t.required_deterministic_delta_ppm) built),
                      e ∙ ap ok apart,
                      (λ a r. ground arith),
                      eu ∙ ap ok (ap (λ t. t.work_units_bps) built),
                    )
              ]
            ]
      ]
    ]

min_deterministic-le :
    (threshold required : ℕ) (i : QualificationInput) (p : CoreTexWorkPolicy)
    → IsRequired i p threshold required
    → threshold ≤ required
unfolding IsRequired
min_deterministic-le threshold required i p (screened, advances) =
    elim (Bool-cases (i.outcome == p.state_advance.outcome)) [
      | inl on ↦ let (floor, advance, _, _, e) = advances ((==_iff _ _).0 on) in ground arith
      | inr off ↦
          let e =
            screened (λ k. let t = (==_iff i.outcome p.state_advance.outcome).1 k in absurd (cc)) in
          omega arith
    ]

min_deterministic-IsRequired :
    (threshold required : ℕ) (i : QualificationInput) (p : CoreTexWorkPolicy)
    → min_deterministic (i.outcome == p.state_advance.outcome) threshold i p ≡ ok required
    → IsRequired i p threshold required
unfolding min_deterministic IsRequired
min_deterministic-IsRequired threshold required i p h =
    let (s, es, h₁) =
      >>=-eq-ok (to_big_int (or_zero i.threshold_input.state_advance_threshold_ppm)) _ h in
    let test = ==_iff i.outcome p.state_advance.outcome in
    elim (Bool-cases (i.outcome == p.state_advance.outcome)) [
      | inl on ↦
          let (floor, ef, h₂) =
            >>=-eq-ok (to_big_int p.state_advance.min_deterministic_delta_ppm) _ (rw on at h₁) in
          (λ n. absurd (n (test.0 on)), λ e. (floor, s, ef, es, sym (ok-injective h₂)))
      | inr off ↦ (λ n. sym (ok-injective (rw off at h₁)), λ e. let t = test.1 e in absurd (cc))
    ]

-- A qualified piece of work met every condition: its outcome is a screener pass or a state
-- advance, its parent is the live root, its delta reaches the required one, which is the
-- screener threshold or for a state advance the largest of the policy's minimum, that threshold
-- and the threshold of a state advance, the delta of the local model reaches the minimum for the
-- outcome, no near collision is above the maximum, a state advance is live where the policy asks
-- for that, and the work units are those of `computeCoreTexWorkUnitsBps`.
pub evaluate-IsQualified :
    (i : QualificationInput) (p : CoreTexWorkPolicy) (q : CoreTexWorkQualification)
    → evaluate_coretex_work_qualification i p ≡ ok q
    → q.qualified ≡ true
    → (delta : ℤ) × (local_delta : ℤ) × (threshold : ℕ) × (min_local : ℕ) × IsQualified i p q delta
        local_delta threshold min_local
unfolding evaluate_coretex_work_qualification Decided local_minimum
evaluate-IsQualified i p q h qualified =
    let is_advance = i.outcome == p.state_advance.outcome in
    let (_, _, h₁) = >>=-eq-ok (assert_valid_coretex_work_policy p) _ h in
    elim (Bool-cases (not (i.outcome == p.screener_pass.outcome) && not is_advance)) [
      | inl unknown ↦ not_refused q unknown_outcome 0 (rw unknown at h₁) qualified
      | inr known ↦ elim (Bool-cases (not i.parent_matches_live_root)) [
        | inl stale ↦ not_refused q stale_parent 0 (rw (known, stale) at h₁) qualified
        | inr live ↦
            let (delta, ed, h₂) =
              >>=-eq-ok (to_signed_big_int i.deterministic_delta_ppm) _ (rw (known, live) at h₁) in
            let (local_delta, el, h₃) =
              >>=-eq-ok (to_signed_big_int (or_zero i.local_model_delta_ppm)) _ h₂ in
            let (threshold, et, h₄) =
              >>=-eq-ok (compute_coretex_screener_threshold_ppm i.threshold_input p) _ h₃ in
            let (required, er, h₅) = >>=-eq-ok (min_deterministic is_advance threshold i p) _ h₄ in
            let (min_local, em, h₆) =
              >>=-eq-ok
                (to_big_int (
                  if is_advance
                  then p.state_advance.min_local_model_delta_ppm
                  else p.screener_pass.min_local_model_delta_ppm))
                _ h₅ in
            let (improves, kept, same, apart, advanced, units) =
              decide-IsQualified is_advance delta local_delta required min_local i p q h₆
                qualified in
            let required_is = min_deterministic-IsRequired threshold required i p er in
            let above = min_deterministic-le threshold required i p required_is in
            (
              delta,
              local_delta,
              threshold,
              min_local,
              record {
                outcome_known = known_outcome known;
                parent_matches = ground arith;
                threshold_known = et;
                delta_known = ed;
                required_is = subst (IsRequired i p threshold) (sym same) required_is;
                improves = omega arith;
                required = rw same improves;
                local_known = el;
                local_minimum_known = em;
                local_kept = kept;
                apart = apart;
                advanced = advanced;
                units = units;
              },
            )
      ]
    ]
  where
    known_outcome :
        (not (i.outcome == p.screener_pass.outcome) && not (i.outcome == p.state_advance.outcome))
          ≡ false
        → (i.outcome ≡ p.screener_pass.outcome) ⊎ (i.outcome ≡ p.state_advance.outcome)
    known_outcome known = elim (Bool-cases (i.outcome == p.screener_pass.outcome)) [
      | inl a ↦ inl ((==_iff _ _).0 a)
      | inr a ↦ elim (Bool-cases (i.outcome == p.state_advance.outcome)) [
        | inl b ↦ inr ((==_iff _ _).0 b)
        | inr b ↦ absurd (cc (rw (a, b) at known))
      ]
    ]
