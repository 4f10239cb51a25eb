-- ===== src/Coordinator/Frontier/Invariant.antt =====
-- The invariant of the frontier of src/coordinator/epoch-frontier.ts: no id is active twice, or both
-- active and retired, and the counters count.
use coretex_client.Prelude.{
  ℕ, zero, suc, ◌+◌, ◌≤◌, ◌<◌, ◌≡◌, inl, inr, refl, ap, ◌∙◌, List, [], ◌∷◌, ◌++◌, map, length, take,
  drop, Option, none, some, Bool, true, false, ◌||◌, arith, leb, if◌then◌else◌, Bool-cases,
  length-append,
}
use coretex_client.State.Patch.Apply.{bytes_equal}
use coretex_client.State.Patch.Apply.Equal.{equal_eq, equal_refl}
use coretex_client.Coordinator.Frontier.Order.{EventId}
use coretex_client.Coordinator.Frontier.{
  FrontierState, has_id, is_active, delete, activate_loop, activate_next, retire, retire_all,
  sort_entries, insert_entry, older, oldest, aged_ids, aged,
}

-- How often an id stands among the active ones, and among the retired ones.
abbrev pub occ_active : EventId → List (EventId × ℕ) → ℕ
occ_active id [] = 0
occ_active id ((x, e) ∷ xs) = (if bytes_equal id x then 1 else 0) + occ_active id xs

abbrev pub occ_ids : EventId → List EventId → ℕ
occ_ids id [] = 0
occ_ids id (x ∷ xs) = (if bytes_equal id x then 1 else 0) + occ_ids id xs

pub record IsFrontier {N : Type 0} (s : FrontierState N) : Type 0 where
  pub once : (id : EventId) → occ_active id s.active + occ_ids id s.retired ≤ 1
  pub activated_count : length s.active + s.cumulative_retired ≡ s.cumulative_activated
  pub retired_count : length s.retired ≡ s.cumulative_retired

occ_active-append :
    (id : EventId) (xs ys : List (EventId × ℕ))
    → occ_active id (xs ++ ys) ≡ occ_active id xs + occ_active id ys
occ_active-append id [] ys = omega arith
occ_active-append id ((x, e) ∷ xs) ys = let h = occ_active-append id xs ys in omega arith

occ_ids-append :
    (id : EventId) (xs ys : List EventId) → occ_ids id (xs ++ ys) ≡ occ_ids id xs + occ_ids id ys
occ_ids-append id [] ys = omega arith
occ_ids-append id (x ∷ xs) ys = let h = occ_ids-append id xs ys in omega arith

or_false : (a b : Bool) → (a || b) ≡ false → (a ≡ false) × (b ≡ false)
or_false true b h = absurd (cc)
or_false false b h = (refl, h)

not_active :
    (id : EventId) (xs : List (EventId × ℕ)) → is_active id xs ≡ false → occ_active id xs ≡ 0
not_active id [] h = refl
not_active id ((x, e) ∷ xs) h =
    let (a, b) = or_false (bytes_equal id x) (is_active id xs) h in
    rw a (let r = not_active id xs b in omega arith)

not_in : (id : EventId) (xs : List EventId) → has_id id xs ≡ false → occ_ids id xs ≡ 0
not_in id [] h = refl
not_in id (x ∷ xs) h =
    let (a, b) = or_false (bytes_equal id x) (has_id id xs) h in
    rw a (let r = not_in id xs b in omega arith)

found_in : (id : EventId) (xs : List EventId) → has_id id xs ≡ true → 0 < occ_ids id xs
found_in id [] h = absurd (cc)
found_in id (x ∷ xs) h = elim (Bool-cases (bytes_equal id x)) [
  | inl e ↦ rw e (omega arith)
  | inr e ↦ rw e (let r = found_in id xs (rw e at h) in omega arith)
]

-- Deleting an active id.
delete-counts :
    (id k : EventId) (xs : List (EventId × ℕ))
    → 0 < occ_active id xs
    → (suc (length (delete id xs)) ≡ length xs)
      × (occ_active k (delete id xs) + (if bytes_equal k id then 1 else 0) ≡ occ_active k xs)
unfolding delete
delete-counts id k [] h = absurd (omega arith)
delete-counts id k ((x, e) ∷ xs) h = elim (Bool-cases (bytes_equal id x)) [
  | inl t ↦ let s : id ≡ x = equal_eq id x t in rw t (refl, rw s (omega arith))
  | inr f ↦
      let n : 0 < 0 + occ_active id xs = rw f at h in
      let (a, b) = delete-counts id k xs (omega arith) in rw f (omega arith, omega arith)
]

aged_ids-sub :
    (k : EventId) (max_age epoch : ℕ) (xs : List (EventId × ℕ))
    → occ_ids k (aged_ids max_age epoch xs) ≤ occ_active k xs
unfolding aged_ids
aged_ids-sub k max_age epoch [] = omega arith
aged_ids-sub k max_age epoch ((id, e) ∷ xs) =
    let h = aged_ids-sub k max_age epoch xs in
    elim (Bool-cases (leb (e + max_age) epoch)) [
      | inl t ↦ rw t (omega arith)
      | inr f ↦ rw f (omega arith)
    ]

insert_entry-same :
    (order : List EventId) (k : EventId) (a : EventId × ℕ) (xs : List (EventId × ℕ))
    → occ_active k (insert_entry order a xs) ≡ occ_active k (a ∷ xs)
unfolding insert_entry
insert_entry-same order k a [] = refl
insert_entry-same order k a (b ∷ xs) = elim (Bool-cases (older order b a)) [
  | inl t ↦ rw t (let h = insert_entry-same order k a xs in omega arith)
  | inr f ↦ rw f refl
]

sort_entries-same :
    (order : List EventId) (k : EventId) (xs : List (EventId × ℕ))
    → occ_active k (sort_entries order xs) ≡ occ_active k xs
unfolding sort_entries
sort_entries-same order k [] = refl
sort_entries-same order k (a ∷ xs) =
    insert_entry-same order k a (sort_entries order xs)
    ∙ (let h = sort_entries-same order k xs in omega arith)

occ-firsts :
    (k : EventId) (n : ℕ) (xs : List (EventId × ℕ))
    → occ_ids k (take n (map (λ (e : EventId × ℕ). e.0) xs)) ≤ occ_active k xs
occ-firsts k zero xs = omega arith
occ-firsts k (suc n) [] = omega arith
occ-firsts k (suc n) ((x, e) ∷ xs) = let h = occ-firsts k n xs in omega arith

module _ {N : Type 0} where
  -- An id that is active is retired.
  pub retire-IsFrontier :
      (id : EventId) (s : FrontierState N)
      → IsFrontier s
      → 0 < occ_active id s.active
      → IsFrontier (retire id s)
  unfolding retire
  retire-IsFrontier id s h found =
      let none_yet : has_id id s.retired ≡ false = elim (Bool-cases (has_id id s.retired)) [
        | inl t ↦ let a = found_in id s.retired t in let b = h.once id in absurd (omega arith)
        | inr f ↦ f
      ] in
      rw none_yet (record {
        once = λ k.
            let (a, b) = delete-counts id k s.active found in
            let c = h.once k in let d = occ_ids-append k s.retired (id ∷ []) in omega arith;
        activated_count =
            let (a, b) = delete-counts id id s.active found in
            let c = h.activated_count in omega arith;
        retired_count =
            length-append s.retired (id ∷ []) ∙ (let c = h.retired_count in omega arith);
      })

  -- Ids that are active, each as often as it stands in the list, are retired one by one.
  pub retire_all-IsFrontier :
      (ids : List EventId) (s : FrontierState N)
      → IsFrontier s
      → ((k : EventId) → occ_ids k ids ≤ occ_active k s.active)
      → IsFrontier (retire_all ids s)
        × (length (retire_all ids s).active + length ids ≡ length s.active)
  unfolding retire_all retire delete
  retire_all-IsFrontier [] s h sub = (h, omega arith)
  retire_all-IsFrontier (id ∷ ids) s h sub =
      let self = equal_refl id in
      let first : 1 + occ_ids id ids ≤ occ_active id s.active = (rw self at (sub id)) in
      let (a, b) =
        retire_all-IsFrontier ids (retire id s) (retire-IsFrontier id s h (omega arith))
          (λ k. rest_active id k ids s (omega arith) (sub k)) in
      (a, fewer id s (length ids) (omega arith) b)
    where
      rest_active :
          (id k : EventId) (ids : List EventId) (s : FrontierState N)
          → 0 < occ_active id s.active
          → (if bytes_equal k id then 1 else 0) + occ_ids k ids ≤ occ_active k s.active
          → occ_ids k ids ≤ occ_active k (delete id s.active)
      rest_active id k ids s found h = let (a, b) = delete-counts id k s.active found in omega arith

      fewer :
          (id : EventId) (s : FrontierState N) (n : ℕ)
          → 0 < occ_active id s.active
          → length (retire_all ids (retire id s)).active + n ≡ length (delete id s.active)
          → length (retire_all ids (retire id s)).active + suc n ≡ length s.active
      fewer id s n found h = let (a, b) = delete-counts id id s.active found in omega arith

  pub aged-sub :
      (k : EventId) (max_age : Option ℕ) (epoch : ℕ) (s : FrontierState N)
      → occ_ids k (aged max_age epoch s) ≤ occ_active k s.active
  unfolding aged
  aged-sub k none epoch s = omega arith
  aged-sub k (some max_age) epoch s = aged_ids-sub k max_age epoch s.active

  pub oldest-sub :
      (k : EventId) (n : ℕ) (s : FrontierState N) → occ_ids k (oldest n s) ≤ occ_active k s.active
  unfolding oldest
  oldest-sub k n s =
      let a = occ-firsts k n (sort_entries s.order s.active) in
      let b = sort_entries-same s.order k s.active in omega arith

  -- What the loop of `activateNext` does, with at most `n` to activate.
  pub record IsActivated (n : ℕ) (s : FrontierState N) (r : ℕ × FrontierState N) : Type 0 where
    pub frontier : IsFrontier r.1
    pub few : r.0 ≤ n
    pub longer : length r.1.active ≡ length s.active + r.0

  -- An id that is neither active nor retired is activated.
  activated-IsFrontier :
      (id : EventId) (epoch : ℕ) (s : FrontierState N)
      → IsFrontier s
      → (is_active id s.active || has_id id s.retired) ≡ false
      → IsFrontier (record s {
        reserve_ptr = s.reserve_ptr + 1;
        active = s.active ++ (id, epoch) ∷ [];
        cumulative_activated = s.cumulative_activated + 1;
      })
  activated-IsFrontier id epoch s h fresh =
      let (a, b) = or_false (is_active id s.active) (has_id id s.retired) fresh in
      let a₁ = not_active id s.active a in
      let b₁ = not_in id s.retired b in
      record {
        once = λ k.
            let c = occ_active-append k s.active ((id, epoch) ∷ []) in
            elim (Bool-cases (bytes_equal k id)) [
              | inl t ↦
                  let e = equal_eq k id t in
                  let a₂ : occ_active k s.active ≡ 0 =
                    ap (λ (x : EventId). occ_active x s.active) e ∙ a₁ in
                  let b₂ : occ_ids k s.retired ≡ 0 =
                    ap (λ (x : EventId). occ_ids x s.retired) e ∙ b₁ in
                  let c₁ : occ_active k (s.active ++ (id, epoch) ∷ [])
                      ≡ occ_active k s.active + (1 + 0) =
                    (rw t at c) in
                  omega arith
              | inr f ↦
                  let d = h.once k in
                  let c₁ : occ_active k (s.active ++ (id, epoch) ∷ [])
                      ≡ occ_active k s.active + (0 + 0) =
                    (rw f at c) in
                  omega arith
            ];
        activated_count =
            let c = h.activated_count in
            let d = length-append s.active ((id, epoch) ∷ []) in omega arith;
        retired_count = h.retired_count;
      }

  skipped :
      (s : FrontierState N)
      → IsFrontier s
      → IsFrontier (record s { reserve_ptr = s.reserve_ptr + 1 })
  skipped s h = record {
    once = h.once;
    activated_count = h.activated_count;
    retired_count = h.retired_count;
  }

  activate_loop-IsActivated :
      (reserve : List EventId) (n epoch : ℕ) (s : FrontierState N)
      → IsFrontier s
      → IsActivated n s (activate_loop reserve n epoch s)
  unfolding activate_loop
  activate_loop-IsActivated [] n epoch s h = record {
    frontier = h;
    few = omega arith;
    longer = omega arith;
  }
  activate_loop-IsActivated (id ∷ reserve) zero epoch s h = record {
    frontier = h;
    few = omega arith;
    longer = omega arith;
  }
  activate_loop-IsActivated (id ∷ reserve) (suc n) epoch s h =
      elim (Bool-cases (is_active id s.active || has_id id s.retired)) [
        | inl t ↦
            let r = activate_loop-IsActivated reserve (suc n) epoch _ (skipped s h) in
            rw t (record { frontier = r.frontier; few = r.few; longer = r.longer })
        | inr f ↦
            let r =
              activate_loop-IsActivated reserve n epoch _ (activated-IsFrontier id epoch s h f) in
            let few = r.few in
            let longer = r.longer in
            let d = length-append s.active ((id, epoch) ∷ []) in
            rw f (record { frontier = r.frontier; few = omega arith; longer = omega arith })
      ]

  pub activate_next-IsActivated :
      (n epoch : ℕ) (s : FrontierState N) → IsFrontier s → IsActivated n s (activate_next n epoch s)
  unfolding activate_next
  activate_next-IsActivated n epoch s h =
      activate_loop-IsActivated (drop s.reserve_ptr s.order) n epoch s h
