-- ===== src/Tests/Reducers.antt =====
-- The theorems of the reducers, at the state of zero words and a patch of one word.
use coretex_client.Prelude.{◌≡◌, refl, List, [], ◌∷◌, none, some, false, arith}
use coretex_client.Prelude.Int.{pos}
use coretex_client.State.Patch.Apply.Tests.{zero_state, zero_state-IsState, example_patch}
use coretex_client.Rewards.Numeric.{WorkResult, to_big_int}
use coretex_client.Rewards.Policy.{or_zero}
use coretex_client.Rewards.Default.{default_coretex_work_policy}
use coretex_client.Tests.Rewards.{default_valid}
use coretex_client.Reducer.Accept.{stub_marginal_evaluator}
use coretex_client.Reducer.Batch.{ReducerInputPatch, ReducerOutput, reduce, stable_sort}
use coretex_client.Reducer.Batch.Reduce.{IsReduced, reduce-IsReduced}
use coretex_client.Reducer.Batch.Order.{IsOrdered, stable_sort-IsOrdered}
use coretex_client.Reducer.Live.{
  LiveEpochInputPatch, LiveEpochOutput, LiveEpochRewardOptions, advance_epoch_state,
}
use coretex_client.Reducer.Live.Root.{IsPayable, IsAdvanced, advance_epoch_state-IsAdvanced}
use coretex_client.Reducer.Eligibility.{Event, build_epoch_eligibility}
use coretex_client.Reducer.Eligibility.Credits.{
  credit_keys, accrual_keys, NoRepeat, AllHeld, build_epoch_eligibility-NoRepeat,
}

abbrev example_input : ReducerInputPatch
example_input = record {
  patch = example_patch;
  patch_bytes = [];
  score_delta = pos 7;
  marginal_evaluator = stub_marginal_evaluator;
}

abbrev two_inputs : List ReducerInputPatch
two_inputs = example_input ∷ example_input ∷ []

reduce-IsReduced_example :
    (out : ReducerOutput) × (reduce zero_state two_inputs (pos 1) false ≡ some out)
    × IsReduced zero_state two_inputs (pos 1) out
reduce-IsReduced_example =
    reduce-IsReduced zero_state two_inputs (pos 1) false zero_state-IsState
      ((omega arith, refl), ((omega arith, refl), tt))

stable_sort-IsOrdered_example : IsOrdered (stable_sort two_inputs)
stable_sort-IsOrdered_example = stable_sort-IsOrdered two_inputs

abbrev example_live : LiveEpochInputPatch
example_live = record {
  miner = 48 ∷ 120 ∷ 65 ∷ [];
  patch = example_patch;
  patch_bytes = [];
  score_delta = pos 7;
  marginal_evaluator = stub_marginal_evaluator;
}

abbrev example_options : LiveEpochRewardOptions
example_options = record {
  qualified_screener_passes_since_last_state_advance = none;
  work_policy = default_coretex_work_policy;
  policy_atoms_mode = false;
}

example_counted : to_big_int (or_zero none) ≡ WorkResult.ok 0
unfolding to_big_int
example_counted = refl

example_options-IsPayable : IsPayable example_options
example_options-IsPayable = record { valid = default_valid; counter = 0; counted = example_counted }

advance_epoch_state-IsAdvanced_example :
    (out : LiveEpochOutput) × (advance_epoch_state zero_state
        (example_live ∷ [])
        (pos 1)
        example_options
      ≡ some out)
    × IsAdvanced (pos 1) out
advance_epoch_state-IsAdvanced_example =
    advance_epoch_state-IsAdvanced zero_state (example_live ∷ []) (pos 1) example_options
      zero_state-IsState ((omega arith, refl), tt) example_options-IsPayable

-- One event in two spellings.
abbrev upper_event : Event
upper_event = record { epoch = 3; miner = 65 ∷ []; patch_hash = 66 ∷ [] }

abbrev lower_event : Event
lower_event = record { epoch = 3; miner = 97 ∷ []; patch_hash = 66 ∷ [] }

abbrev example_events : List Event
example_events = upper_event ∷ lower_event ∷ []

build_epoch_eligibility-NoRepeat_example :
    NoRepeat (
      credit_keys (build_epoch_eligibility example_events example_events (λ m. 5)).credit_issuances)
    × NoRepeat (
        accrual_keys
          (build_epoch_eligibility example_events example_events (λ m. 5)).multiplier_accruals)
    × AllHeld
        (credit_keys
          (build_epoch_eligibility example_events example_events (λ m. 5)).credit_issuances)
        (accrual_keys
          (build_epoch_eligibility example_events example_events (λ m. 5)).multiplier_accruals)
build_epoch_eligibility-NoRepeat_example =
    build_epoch_eligibility-NoRepeat example_events example_events (λ m. 5)
