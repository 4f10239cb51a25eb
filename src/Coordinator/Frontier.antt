-- ===== src/Coordinator/Frontier.antt =====
-- src/coordinator/epoch-frontier.ts: the rotating set of active evaluation ids, as state that is
-- passed on. An id is the list of its character codes; a Map is a list of pairs and a Set a list, each in
-- the order of insertion. Settings that count units are natural numbers; the moving average and its
-- bounds are numbers of the runtime, a parameter, as is the SHA-256 of the runtime's library.
pub mod Order
pub mod Rate
pub mod Invariant
pub mod Window
use coretex_client.Prelude.{
  ℕ, zero, suc, ◌+◌, ◌-◌, ◌*◌, ◌/◌, ◌%◌, ◌^◌, ◌≤◌, ◌<◌, min, max, ◌≡◌, ◌≢◌, ◌↔◌, ◌⊎◌, inl, inr,
  refl, sym, ap, ◌∙◌, List, [], ◌∷◌, ◌++◌, map, length, get_elem?, get_or, set, take, drop,
  replicate, tabulate, All, Option, none, some, Option-cases, Bool, true, false, not, ◌&&◌, ◌||◌,
  arith, ltb, leb, ◌==◌, if◌then◌else◌, Bool-cases, &&-eq-true, ||-eq-false, ==-eq-false, list_head,
  contains, length-append, length-set, get_elem?-set_self, get_elem?-set_ne, ==_iff, length-map,
  some-injective, positive_test, if-both,
}
use coretex_client.State.Patch.Apply.{bytes_equal}
use coretex_client.Coordinator.Frontier.Order.{
  EventId, text_less, sort_texts, join_bar, family_order,
}
use coretex_client.Coordinator.Frontier.Rate.{
  Settings, RateArith, EpochFrontierMode, is_off, next_ewma, churn_units,
}

-- The variables that the closures of `makeEpochFrontier` share.
pub record FrontierState (N : Type 0) : Type 0 where
  pub order : List EventId
  pub reserve_ptr : ℕ
  pub active : List (EventId × ℕ)
  pub retired : List EventId
  pub cumulative_activated : ℕ
  pub cumulative_retired : ℕ
  pub initialized : Bool
  pub injected_since_last_step : ℕ
  pub ewma_accepts : Option N

abbrev pub has_id : EventId → List EventId → Bool
has_id id [] = false
has_id id (x ∷ xs) = bytes_equal id x || has_id id xs

-- `active.has(id)`
abbrev pub is_active : EventId → List (EventId × ℕ) → Bool
is_active id [] = false
is_active id ((x, e) ∷ xs) = bytes_equal id x || is_active id xs

-- `active.delete(id)`
unfoldable pub delete : EventId → List (EventId × ℕ) → List (EventId × ℕ)
delete id [] = []
delete id ((x, e) ∷ xs) = let rest = delete id xs in if bytes_equal id x then xs else (x, e) ∷ rest

-- `orderIdx.get(id)`: the last index.
unfoldable pub index_in : EventId → ℕ → List EventId → Option ℕ
index_in id i [] = none
index_in id i (x ∷ xs) =
    let later = index_in id (suc i) xs in
    elim later [ some j ↦ some j | none ↦ if bytes_equal id x then some i else none ]

unfoldable pub index_less : Option ℕ → Option ℕ → Bool
index_less (some i) (some j) = ltb i j
index_less _ _ = false

-- The comparison of `retireOldest` is below zero.
unfoldable pub older : List EventId → EventId × ℕ → EventId × ℕ → Bool
older order (x, e) (y, f) =
    if e == f then index_less (index_in x 0 order) (index_in y 0 order) else ltb e f

unfoldable pub insert_entry : List EventId → EventId × ℕ → List (EventId × ℕ) → List (EventId × ℕ)
insert_entry order a [] = a ∷ []
insert_entry order a (b ∷ bs) =
    let rest = insert_entry order a bs in if older order b a then b ∷ rest else a ∷ b ∷ bs

unfoldable pub sort_entries : List EventId → List (EventId × ℕ) → List (EventId × ℕ)
sort_entries order [] = []
sort_entries order (a ∷ as₁) = insert_entry order a (sort_entries order as₁)

-- The ids that are too old.
unfoldable pub aged_ids : ℕ → ℕ → List (EventId × ℕ) → List EventId
aged_ids max_age epoch [] = []
aged_ids max_age epoch ((id, e) ∷ active) =
    let rest = aged_ids max_age epoch active in if leb (e + max_age) epoch then id ∷ rest else rest

pub record Snapshot : Type 0 where
  pub epoch_id : ℕ
  pub active_eval_hidden_count : ℕ
  pub activated : ℕ
  pub retired : ℕ
  pub churn_rate : ℕ
  pub reserve_remaining : ℕ
  pub cumulative_activated : ℕ
  pub cumulative_retired : ℕ
  pub active_ids : List EventId
  pub active_root : List ℕ
  pub reserve_root : List ℕ
  pub retired_root : List ℕ

-- The text starts with `0x`.
unfoldable pub root_hash : (List ℕ → List ℕ) → List EventId → List ℕ
root_hash sha256_hex ids = 48 ∷ 120 ∷ sha256_hex (join_bar (sort_texts ids))

module _ {N : Type 0} where
  -- The loop of `activateNext` over the reserve that is left, with the number activated.
  unfoldable pub activate_loop : List EventId → ℕ → ℕ → FrontierState N → ℕ × FrontierState N
  activate_loop [] n epoch s = (0, s)
  activate_loop (id ∷ reserve) zero epoch s = (0, s)
  activate_loop (id ∷ reserve) (suc n) epoch s =
      let passed = record s { reserve_ptr = s.reserve_ptr + 1 } in
      let skip = activate_loop reserve (suc n) epoch passed in
      let taken = activate_loop reserve n epoch (record passed {
        active = s.active ++ (id, epoch) ∷ [];
        cumulative_activated = s.cumulative_activated + 1;
      }) in
      if is_active id s.active || has_id id s.retired then skip else (suc taken.0, taken.1)

  unfoldable pub activate_next : ℕ → ℕ → FrontierState N → ℕ × FrontierState N
  activate_next n epoch s = activate_loop (drop s.reserve_ptr s.order) n epoch s

  -- An id goes from the active ones to the retired ones.
  unfoldable pub retire : EventId → FrontierState N → FrontierState N
  retire id s = record s {
    active = delete id s.active;
    retired = (if has_id id s.retired then s.retired else s.retired ++ id ∷ []);
    cumulative_retired = s.cumulative_retired + 1;
  }

  unfoldable pub retire_all : List EventId → FrontierState N → FrontierState N
  retire_all [] s = s
  retire_all (id ∷ ids) s = retire_all ids (retire id s)

  -- The ids that `retireOldest` takes.
  unfoldable pub oldest : ℕ → FrontierState N → List EventId
  oldest n s = take n (map (λ (e : EventId × ℕ). e.0) (sort_entries s.order s.active))

  -- None where the age is not finite.
  unfoldable pub aged : Option ℕ → ℕ → FrontierState N → List EventId
  aged none epoch s = []
  aged (some max_age) epoch s = aged_ids max_age epoch s.active

  module _ (sha256_hex : List ℕ → List ℕ) where
    unfoldable pub snapshot : ℕ → ℕ → ℕ → ℕ → FrontierState N → Snapshot
    snapshot epoch activated retired rate s =
        let ids = map (λ (e : EventId × ℕ). e.0) s.active in
        record {
          epoch_id = epoch;
          active_eval_hidden_count = length s.active;
          activated = activated;
          retired = retired;
          churn_rate = rate;
          reserve_remaining = length s.order - s.reserve_ptr;
          cumulative_activated = s.cumulative_activated;
          cumulative_retired = s.cumulative_retired;
          active_ids = ids;
          active_root = root_hash sha256_hex ids;
          reserve_root = root_hash sha256_hex (drop s.reserve_ptr s.order);
          retired_root = root_hash sha256_hex s.retired;
        }

    -- The end of each branch of `stepEpoch`: `n` ids are activated for the `retired` ones.
    unfoldable pub activate_and_report :
        ℕ → ℕ → ℕ → ℕ → FrontierState N → FrontierState N × Snapshot
    activate_and_report n epoch retired rate s =
        let (a, t) = activate_next n epoch s in
        let done = record t { injected_since_last_step = 0 } in
        (done, snapshot epoch a retired rate done)

    module _ (arithmetic : RateArith N) (settings : Settings N) (window : ℕ) where
      -- The churn, after the aged ids are retired.
      unfoldable pub churn :
          ℕ → Option ℕ → Option ℕ → ℕ → FrontierState N → FrontierState N × Snapshot
      churn epoch accepts attempts aged_count s =
          let average = next_ewma arithmetic accepts s.ewma_accepts in
          let rate =
            min
              (churn_units arithmetic settings accepts attempts s.injected_since_last_step average)
              (length s.order - s.reserve_ptr) in
          let ids = oldest rate s in
          let retired = aged_count + length ids in
          activate_and_report retired epoch retired rate
            (retire_all ids (record s { ewma_accepts = average }))

      -- After the first epoch.
      unfoldable pub later_epoch :
          ℕ → Option ℕ → Option ℕ → FrontierState N → FrontierState N × Snapshot
      later_epoch epoch accepts attempts s =
          let ids = aged settings.max_age epoch s in
          let t = retire_all ids s in
          if is_off settings.mode
          then activate_and_report (length ids) epoch (length ids) 0 t
          else churn epoch accepts attempts (length ids) t

      unfoldable pub step_epoch :
          ℕ → Option ℕ → Option ℕ → FrontierState N → FrontierState N × Snapshot
      step_epoch epoch accepts attempts s =
          if s.initialized
          then later_epoch epoch accepts attempts s
          else activate_and_report window epoch 0 0 (record s { initialized = true })

  -- `addReserveIds`, with the number of ids that are new. A repeated new id is kept twice.
  unfoldable pub unseen : List EventId → FrontierState N → List EventId
  unseen [] s = []
  unseen (id ∷ ids) s =
      let rest = unseen ids s in
      if is_active id s.active || has_id id s.retired || has_id id s.order then rest else id ∷ rest

  unfoldable pub add_reserve_ids :
      (EventId → ℕ) → (EventId → EventId) → List EventId → FrontierState N → FrontierState N × ℕ
  add_reserve_ids key family_of new_ids s =
      let ids = unseen new_ids s in
      let segment = family_order key family_of ids in
      if length ids == 0 then (s, 0) else (
        record s {
          order = take s.reserve_ptr s.order ++ (segment ++ drop s.reserve_ptr s.order);
          injected_since_last_step = s.injected_since_last_step + length ids;
        },
        length ids,
      )
