-- ===== src/Reducer/Accept.antt =====
-- src/reducer/accept-core.ts: the step that both lanes share, and the patches they take in.
-- A marginal evaluator is any function of the state and the patch, with a signed result.
-- `applyPatchOntoCurrent` throws nothing; `threw` keeps the place of an exception.
use coretex_client.Prelude.{◌≡◌, ◌≢◌, Bool, true, not, if◌then◌else◌, arith}
use coretex_client.Prelude.Int.{ℤ, ltb_ℤ}
use coretex_client.State.Types.{
  CortexState, Patch, PatchResult, PatchErrorCode, wrong_parent_root, reserved_bit_set, noop_patch,
}
use coretex_client.State.Patch.Apply.{apply_patch_onto_current}
use coretex_client.State.Patch.Apply.Total.{apply_patch_onto_current-ne-thrown}

-- `MarginalEvaluator`
abbrev pub MarginalEvaluator : Type 0
MarginalEvaluator = CortexState → Patch → ℤ

-- `stubMarginalEvaluator`
abbrev pub stub_marginal_evaluator : MarginalEvaluator
stub_marginal_evaluator s p = p.score_delta

pub record AcceptStepCodes {ℓ} (C : Type ℓ) : Type ℓ where
  pub not_improvement : C
  pub wrong_parent : C
  pub reserved_bit : C
  pub invalid_target : C

pub data AcceptStepResult {ℓ} (C : Type ℓ) : Type ℓ where
  accepted : CortexState → ℤ → AcceptStepResult C
  rejected : C → AcceptStepResult C
  threw : AcceptStepResult C

abbrev pub reason_of {ℓ} : {C : Type ℓ} → AcceptStepCodes C → PatchErrorCode → C
reason_of codes wrong_parent_root = codes.wrong_parent
reason_of codes reserved_bit_set = codes.reserved_bit
reason_of codes noop_patch = codes.not_improvement
reason_of codes _ = codes.invalid_target

-- `gain > threshold` where the improvement is strict, and `gain >= threshold` where it is not.
abbrev pub improves : Bool → ℤ → ℤ → Bool
improves strict_improvement gain threshold =
    if strict_improvement then ltb_ℤ threshold gain else not (ltb_ℤ gain threshold)

abbrev step_result {ℓ} :
    {C : Type ℓ} → AcceptStepCodes C → ℤ → PatchResult CortexState → AcceptStepResult C
step_result codes gain (PatchResult.ok s) = accepted s gain
step_result codes gain (PatchResult.err e) = rejected (reason_of codes e)
step_result codes gain PatchResult.thrown = threw

unfoldable pub evaluate_and_apply_onto_current {ℓ} :
    {C : Type ℓ}
    → CortexState
    → Patch
    → MarginalEvaluator
    → ℤ
    → Bool
    → Bool
    → AcceptStepCodes C
    → AcceptStepResult C
evaluate_and_apply_onto_current current p evaluator threshold strict_improvement policy_atoms_mode
      codes =
    if not (improves strict_improvement (evaluator current p) threshold)
    then rejected codes.not_improvement
    else step_result codes (evaluator current p)
        (apply_patch_onto_current current p policy_atoms_mode)

-- What an accepted step says.
pub accepted-eq {ℓ} :
    {C : Type ℓ} (current s : CortexState) (p : Patch) (evaluator : MarginalEvaluator)
    (threshold gain : ℤ) (strict mode : Bool) (codes : AcceptStepCodes C)
    → evaluate_and_apply_onto_current current p evaluator threshold strict mode codes
      ≡ accepted s gain
    → (improves strict gain threshold ≡ true)
      × (gain ≡ evaluator current p)
      × (apply_patch_onto_current current p mode ≡ PatchResult.ok s)
unfolding evaluate_and_apply_onto_current
accepted-eq current s p evaluator threshold gain strict mode codes h = ground arith

pub evaluate-ne-threw {ℓ} :
    {C : Type ℓ} (current : CortexState) (p : Patch) (evaluator : MarginalEvaluator) (threshold : ℤ)
    (strict mode : Bool) (codes : AcceptStepCodes C)
    → evaluate_and_apply_onto_current current p evaluator threshold strict mode codes ≢ threw
unfolding evaluate_and_apply_onto_current
evaluate-ne-threw current p evaluator threshold strict mode codes h =
    apply_patch_onto_current-ne-thrown current p mode (ground arith)
