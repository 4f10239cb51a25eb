-- ===== src/Coordinator/Frontier/Window.antt =====
-- What an epoch of src/coordinator/epoch-frontier.ts does to the active set.
use coretex_client.Prelude.{
  ℕ, ◌+◌, ◌-◌, ◌≤◌, min, ◌≡◌, refl, List, [], length, Option, none, Bool, true, false, arith, ◌==◌,
  if◌then◌else◌,
}
use coretex_client.Coordinator.Frontier.Order.{EventId}
use coretex_client.Coordinator.Frontier.Rate.{Settings, RateArith, is_off, next_ewma, churn_units}
use coretex_client.Coordinator.Frontier.{
  FrontierState, retire_all, oldest, aged, Snapshot, snapshot, activate_and_report, churn,
  later_epoch, step_epoch, unseen, add_reserve_ids,
}
use coretex_client.Coordinator.Frontier.Invariant.{
  IsFrontier, activate_next-IsActivated, retire_all-IsFrontier, oldest-sub, aged-sub,
}

-- What an epoch leaves of `s`: the invariant, and an active set that the snapshot accounts for.
pub record IsStepped {N : Type 0} (s : FrontierState N) (window bound : ℕ)
    (r : FrontierState N × Snapshot) : Type 0 where
  pub frontier : IsFrontier r.0
  pub accounted : length r.0.active + r.1.retired ≡ length s.active + r.1.activated
  pub first : s.initialized ≡ false → (r.1.activated ≤ window) × (r.1.retired ≡ 0)
  pub later : s.initialized ≡ true → r.1.activated ≤ r.1.retired
  pub slow : r.1.churn_rate ≤ bound

module _ {N : Type 0} (sha256_hex : List ℕ → List ℕ) where
  -- The end of a branch, where `gone` ids were retired and at most `n` are activated.
  report-IsStepped :
      (s t : FrontierState N) (n epoch gone rate window bound : ℕ)
      → IsFrontier t
      → length t.active + gone ≡ length s.active
      → (s.initialized ≡ false → (n ≤ window) × (gone ≡ 0))
      → (s.initialized ≡ true → n ≤ gone)
      → rate ≤ bound
      → IsStepped s window bound (activate_and_report sha256_hex n epoch gone rate t)
  unfolding activate_and_report snapshot
  report-IsStepped s t n epoch gone rate window bound h e starts goes_on slow =
      let r = activate_next-IsActivated n epoch t h in
      let f = r.frontier in
      let a = r.few in
      let b = r.longer in
      record {
        frontier = record {
          once = f.once;
          activated_count = f.activated_count;
          retired_count = f.retired_count;
        };
        accounted = omega arith;
        first = λ i. let (m, g) = starts i in (omega arith, g);
        later = λ i. let m = goes_on i in omega arith;
        slow = slow;
      }

  module _ (arithmetic : RateArith N) (settings : Settings N) (window : ℕ) where
    churn_units-bound :
        (accepts attempts : Option ℕ) (injected : ℕ) (ewma : Option N)
        → churn_units arithmetic settings accepts attempts injected ewma
          ≤ settings.max_root_delta_per_epoch
    unfolding churn_units
    churn_units-bound accepts attempts injected ewma = omega arith

    churn-IsStepped :
        (s t : FrontierState N) (epoch : ℕ) (accepts attempts : Option ℕ) (gone : ℕ)
        → IsFrontier t
        → length t.active + gone ≡ length s.active
        → s.initialized ≡ true
        → IsStepped s window settings.max_root_delta_per_epoch
            (churn sha256_hex arithmetic settings window epoch accepts attempts gone t)
    unfolding churn
    churn-IsStepped s t epoch accepts attempts gone h e on =
        let average = next_ewma arithmetic accepts t.ewma_accepts in
        let units =
          churn_units arithmetic settings accepts attempts t.injected_since_last_step average in
        let rate = min units (length t.order - t.reserve_ptr) in
        let ids = oldest rate t in
        let u : FrontierState N = record t { ewma_accepts = average } in
        let hu : IsFrontier u = record {
          once = h.once;
          activated_count = h.activated_count;
          retired_count = h.retired_count;
        } in
        let (f, k) = retire_all-IsFrontier ids u hu (λ id. oldest-sub id rate t) in
        let slow = churn_units-bound accepts attempts t.injected_since_last_step average in
        report-IsStepped s (retire_all ids u) (gone + length ids) epoch (gone + length ids) rate
          window settings.max_root_delta_per_epoch f (omega arith) (λ off. absurd (cc))
          (λ i. omega arith) (omega arith)

    later-IsStepped :
        (s : FrontierState N) (epoch : ℕ) (accepts attempts : Option ℕ)
        → IsFrontier s
        → s.initialized ≡ true
        → IsStepped s window settings.max_root_delta_per_epoch
            (later_epoch sha256_hex arithmetic settings window epoch accepts attempts s)
    unfolding later_epoch
    later-IsStepped s epoch accepts attempts h on =
        let ids = aged settings.max_age epoch s in
        let (f, k) = retire_all-IsFrontier ids s h (λ id. aged-sub id settings.max_age epoch s) in
        either (is_off settings.mode) _ _
          (report-IsStepped s (retire_all ids s) (length ids) epoch (length ids) 0 window
            settings.max_root_delta_per_epoch f k (λ off. absurd (cc)) (λ i. omega arith)
            (omega arith))
          (churn-IsStepped s (retire_all ids s) epoch accepts attempts (length ids) f k on)
      where
        either :
            (b : Bool) (x y : FrontierState N × Snapshot)
            → IsStepped s window settings.max_root_delta_per_epoch x
            → IsStepped s window settings.max_root_delta_per_epoch y
            → IsStepped s window settings.max_root_delta_per_epoch (if b then x else y)
        either true x y hx hy = hx
        either false x y hx hy = hy

    pub step_epoch-IsStepped :
        (s : FrontierState N) (epoch : ℕ) (accepts attempts : Option ℕ)
        → IsFrontier s
        → IsStepped s window settings.max_root_delta_per_epoch
            (step_epoch sha256_hex arithmetic settings window epoch accepts attempts s)
    unfolding step_epoch
    step_epoch-IsStepped s epoch accepts attempts h =
        by_start s.initialized _ _ (λ on. later-IsStepped s epoch accepts attempts h on)
          (λ off.
            report-IsStepped s (record s { initialized = true }) window epoch 0 0 window
              settings.max_root_delta_per_epoch started (omega arith) (λ i. (omega arith, refl))
              (λ on. absurd (cc)) (omega arith))
      where
        started : IsFrontier (record s { initialized = true })
        started = record {
          once = h.once;
          activated_count = h.activated_count;
          retired_count = h.retired_count;
        }

        by_start :
            (b : Bool) (x y : FrontierState N × Snapshot)
            → (b ≡ true → IsStepped s window settings.max_root_delta_per_epoch x)
            → (b ≡ false → IsStepped s window settings.max_root_delta_per_epoch y)
            → IsStepped s window settings.max_root_delta_per_epoch (if b then x else y)
        by_start true x y hx hy = hx refl
        by_start false x y hx hy = hy refl

    -- The epochs that follow one another, each with what was observed in the one before.
    pub data Epochs : FrontierState N → FrontierState N → Type 0 where
      none_yet : {s : FrontierState N} → Epochs s s
      one_more :
          {s t : FrontierState N} (epoch : ℕ) (accepts attempts : Option ℕ)
          → Epochs s t
          → Epochs s ((step_epoch sha256_hex arithmetic settings window epoch accepts attempts t).0)
      injected :
          {s t : FrontierState N} (key : EventId → ℕ) (family_of : EventId → EventId)
          (ids : List EventId)
          → Epochs s t
          → Epochs s ((add_reserve_ids key family_of ids t).0)

    injected-IsFrontier :
        (key : EventId → ℕ) (family_of : EventId → EventId) (ids : List EventId)
        (s : FrontierState N)
        → IsFrontier s
        → IsFrontier ((add_reserve_ids key family_of ids s).0)
    unfolding add_reserve_ids
    injected-IsFrontier key family_of ids s h = keep (length (unseen ids s) == 0) _ _ _
      where
        keep :
            (b : Bool) (order : List EventId) (n k : ℕ)
            → IsFrontier
                (if◌then◌else◌ {A = FrontierState N × ℕ} b
                  (s, 0)
                  (record s { order = order; injected_since_last_step = n }, k)).0
        keep true order n k = h
        keep false order n k = record {
          once = h.once;
          activated_count = h.activated_count;
          retired_count = h.retired_count;
        }

    Epochs-IsFrontier : {s t : FrontierState N} → Epochs s t → IsFrontier s → IsFrontier t
    Epochs-IsFrontier none_yet h = h
    Epochs-IsFrontier (one_more epoch accepts attempts r) h =
        (step_epoch-IsStepped _ epoch accepts attempts (Epochs-IsFrontier r h)).frontier
    Epochs-IsFrontier (injected key family_of ids r) h =
        injected-IsFrontier key family_of ids _ (Epochs-IsFrontier r h)

-- The state of a frontier that was just made.
abbrev pub new_frontier : {N : Type 0} → List EventId → FrontierState N
new_frontier order = record {
  order = order;
  reserve_ptr = 0;
  active = [];
  retired = [];
  cumulative_activated = 0;
  cumulative_retired = 0;
  initialized = false;
  injected_since_last_step = 0;
  ewma_accepts = none;
}

pub new_frontier-IsFrontier :
    {N : Type 0} (order : List EventId) → IsFrontier {N = N} (new_frontier order)
new_frontier-IsFrontier order = record {
  once = λ k. omega arith;
  activated_count = omega arith;
  retired_count = refl;
}

-- Through any epochs and injections of ids from a new frontier no id is active twice, retired
-- twice, or active and retired; the activated ids are as many as the active and the retired
-- ones, and the retired ones as many as their counter says.
pub new_frontier-Epochs-IsFrontier :
    {N : Type 0} (sha256_hex : List ℕ → List ℕ) (arithmetic : RateArith N) (settings : Settings N)
    (window : ℕ) (order : List EventId) (s : FrontierState N)
    → Epochs sha256_hex arithmetic settings window (new_frontier order) s
    → IsFrontier s
new_frontier-Epochs-IsFrontier sha256_hex arithmetic settings window order s r =
    Epochs-IsFrontier sha256_hex arithmetic settings window r (new_frontier-IsFrontier order)
