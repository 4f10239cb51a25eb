-- ===== src/Substrate/SlotPolicy/Select.antt =====
-- Which slot src/substrate/slot-policy.ts selects.
use coretex_client.Prelude.{
  ℕ, zero, suc, ◌+◌, ◌-◌, ◌*◌, ◌%◌, ◌^◌, ◌≤◌, ◌<◌, ◌≡◌, ◌⊎◌, inl, inr, refl, sym, ap, List, some,
  true, false, arith, ltb, leb, Bool-cases, contains,
}
use coretex_client.Substrate.SlotPolicy.{
  SubstrateSlotRegion, memory_index, retrieval_keys, SelectedSubstrateSlot, no_writable_slot,
  SlotResult, ok, err, slot_capacity, words_per_slot, region_start, word_index_for_substrate_slot,
  protected_in_range, normalize_protected_slots, selected, try_slots, try_from,
  select_substrate_slot,
}
use mathlib.Core.Path.{subst}

-- The slot that is selected is the first one, in the order of rotation, that is not protected.
pub data IsSelection (region : SubstrateSlotRegion) (advance_index : ℕ) (slots : List ℕ)
    : SlotResult SelectedSubstrateSlot → Type 0 where
  found :
      (k : ℕ) (s : SelectedSubstrateSlot)
      → k < slot_capacity region
      → s.slot_index ≡ (advance_index + k) % slot_capacity region
      → s.word_index ≡ region_start region + s.slot_index * words_per_slot region
      → contains s.slot_index slots ≡ false
      → ((j : ℕ) → j < k → contains ((advance_index + j) % slot_capacity region) slots ≡ true)
      → IsSelection region advance_index slots (ok s)
  full :
      ((i : ℕ) → i < slot_capacity region → contains i slots ≡ true)
      → IsSelection region advance_index slots (err no_writable_slot)

lt_or_eq : (j k : ℕ) → j ≤ k → (j < k) ⊎ (j ≡ k)
lt_or_eq j k h = ground arith

word_index-ok :
    (region : SubstrateSlotRegion) (i : ℕ)
    → i < slot_capacity region
    → word_index_for_substrate_slot region i 0
      ≡ ok (region_start region + i * words_per_slot region)
unfolding word_index_for_substrate_slot slot_capacity words_per_slot region_start
word_index-ok memory_index i h =
    let a : ltb i (2 ^ 53) ≡ true = ground arith in
    let b : leb 352 i ≡ false = ground arith in rw (a, b) (ap ok (omega arith))
word_index-ok retrieval_keys i h =
    let a : ltb i (2 ^ 53) ≡ true = ground arith in
    let b : leb 36 i ≡ false = ground arith in rw (a, b) (ap ok (omega arith))

capacity_positive :
    (region : SubstrateSlotRegion) → (slot_capacity region ≡ 352) ⊎ (slot_capacity region ≡ 36)
unfolding slot_capacity
capacity_positive memory_index = inl refl
capacity_positive retrieval_keys = inr refl

-- The position after `k` turns, and after one more.
turn_lem : (c a k : ℕ) → (c ≡ 352) ⊎ (c ≡ 36) → ((a + k) % c + 1) % c ≡ (a + suc k) % c
turn_lem c a k (inl e) = rw e (omega arith)
turn_lem c a k (inr e) = rw e (omega arith)

turn_small : (c x : ℕ) → (c ≡ 352) ⊎ (c ≡ 36) → x % c < c
turn_small c x (inl e) = rw e (omega arith)
turn_small c x (inr e) = rw e (omega arith)

-- Each slot comes up in a full turn.
turn_onto : (c a i : ℕ) → (c ≡ 352) ⊎ (c ≡ 36) → i < c → (k : ℕ) × (k < c) × ((a + k) % c ≡ i)
turn_onto c a i (inl e) h = (
  (i + 352 - a % 352) % 352,
  rw e (omega arith),
  (let n : i < 352 = rw e at h in rw e (omega arith)),
)
turn_onto c a i (inr e) h =
    ((i + 36 - a % 36) % 36, rw e (omega arith), (let n : i < 36 = rw e at h in rw e (omega arith)))

try_slots-IsSelection :
    (tries k : ℕ) (region : SubstrateSlotRegion) (advance_index : ℕ) (slots : List ℕ)
    → k + tries ≡ slot_capacity region
    → ((j : ℕ) → j < k → contains ((advance_index + j) % slot_capacity region) slots ≡ true)
    → IsSelection region advance_index slots
        (try_slots tries region advance_index slots ((advance_index + k) % slot_capacity region))
unfolding try_slots selected
try_slots-IsSelection zero k region advance_index slots e before = full (λ i h.
    let (j, a, b) = turn_onto (slot_capacity region) advance_index i (capacity_positive region) h in
    subst (λ (x : ℕ). contains x slots ≡ true) b (before j (omega arith)))
try_slots-IsSelection (suc tries) k region advance_index slots e before =
    let here = (advance_index + k) % slot_capacity region in
    let small = turn_small (slot_capacity region) (advance_index + k) (capacity_positive region) in
    elim (Bool-cases (contains here slots)) [
      | inl t ↦
          rw (t, turn_lem (slot_capacity region) advance_index k (capacity_positive region))
            (try_slots-IsSelection tries (suc k) region advance_index slots (omega arith)
              (λ j h. up_to j h t))
      | inr f ↦ rw (f, word_index-ok region here small) (found k _ (omega arith) refl refl f before)
    ]
  where
    up_to :
        (j : ℕ)
        → j < suc k
        → contains ((advance_index + k) % slot_capacity region) slots ≡ true
        → contains ((advance_index + j) % slot_capacity region) slots ≡ true
    up_to j h t = elim (lt_or_eq j k (omega arith)) [
      | inl l ↦ before j l
      | inr q ↦
          subst (λ (x : ℕ). contains ((advance_index + x) % slot_capacity region) slots ≡ true)
            (sym q) t
    ]

-- For a safe advance index and protected slots in range `selectSubstrateSlot` selects the first
-- slot in the order of rotation that is not protected, with its first word, and throws exactly
-- if all slots of the region are protected.
pub select_substrate_slot-IsSelection :
    (region : SubstrateSlotRegion) (advance_index : ℕ) (slots : List ℕ)
    → advance_index < 2 ^ 53
    → protected_in_range slots (slot_capacity region) ≡ true
    → IsSelection region advance_index slots
        (select_substrate_slot region advance_index (some slots))
unfolding select_substrate_slot try_from normalize_protected_slots
select_substrate_slot-IsSelection region advance_index slots safe fine =
    let a : ltb advance_index (2 ^ 53) ≡ true = ground arith in
    let n : advance_index + 0 ≡ advance_index = omega arith in
    rw (a, fine)
      (subst
        (λ (x : ℕ).
          IsSelection region advance_index slots (
            try_slots (slot_capacity region) region advance_index slots (x % slot_capacity region)))
        n
        (try_slots-IsSelection (slot_capacity region) 0 region advance_index slots (omega arith)
          (λ j h. absurd (omega arith))))
