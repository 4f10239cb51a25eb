-- ===== src/Tests/Frontier.antt =====
-- The theorems on the frontier, at concrete inputs.
use coretex_client.Prelude.{ℕ, ◌+◌, ◌-◌, ◌/◌, List, [], ◌∷◌, none, some, leb}
use coretex_client.Coordinator.Frontier.Order.{EventId}
use coretex_client.Coordinator.Frontier.Rate.{Settings, RateArith, c3}
use coretex_client.Coordinator.Frontier.{FrontierState, step_epoch}
use coretex_client.Coordinator.Frontier.Invariant.{IsFrontier}
use coretex_client.Coordinator.Frontier.Window.{
  new_frontier, none_yet, one_more, new_frontier-Epochs-IsFrontier,
}

abbrev sha : List ℕ → List ℕ
sha bytes = bytes

-- Averages as natural numbers.
abbrev whole : RateArith ℕ
whole = record {
  of_count = λ n. n;
  blend = λ a b. (a + b) / 2;
  at_most = λ a b. leb a b;
  deficit_units = λ target recent yield. target - recent;
}

abbrev settings : Settings ℕ
settings = record {
  mode = c3;
  max_age = some 3;
  churn_rate = 4;
  low_advances_threshold = 1;
  low_advances_bump_rate = none;
  min_churn = 1;
  max_churn = 2;
  max_root_delta_per_epoch = 2;
  target_accepts = 2;
  headroom_low_watermark = 1;
  headroom_high_watermark = 3;
  expected_yield_per_unit = 1;
}

abbrev ids : List EventId
ids = (1 ∷ []) ∷ (2 ∷ []) ∷ (3 ∷ []) ∷ (4 ∷ []) ∷ []

-- A window of two ids.
abbrev first : FrontierState ℕ
first = (step_epoch sha whole settings 2 0 none none (new_frontier ids)).0

new_frontier-Epochs-IsFrontier_example :
    IsFrontier ((step_epoch sha whole settings 2 1 (some 0) (some 5) first).0)
new_frontier-Epochs-IsFrontier_example =
    new_frontier-Epochs-IsFrontier sha whole settings 2 ids
      ((step_epoch sha whole settings 2 1 (some 0) (some 5) first).0)
      (one_more 1 (some 0) (some 5) (one_more 0 none none none_yet))
