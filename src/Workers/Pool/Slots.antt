-- ===== src/Workers/Pool/Slots.antt =====
-- The map of maps of src/workers/pool.ts, and the lists of its arrays: what a list of slots holds
-- for a worker, and how often a number stands in a list.
use coretex_client.Prelude.{
  ℕ, suc, ◌+◌, ◌<◌, ◌≡◌, inl, inr, refl, sym, ap, ◌∙◌, List, [], ◌∷◌, ◌++◌, length, Option, none,
  some, Bool, true, false, ◌||◌, arith, ltb, ◌==◌, if◌then◌else◌, Bool-cases, ||-eq-false, contains,
  ==_iff, some-injective,
}
use mathlib.Core.Path.{subst}

-- The ids that wait for a worker.
pub record Slot : Type 0 where
  pub worker : ℕ
  pub ids : List ℕ

unfoldable pub lookup : ℕ → List Slot → Option (List ℕ)
lookup w [] = none
lookup w (slot ∷ slots) =
    let rest = lookup w slots in if w == slot.worker then some slot.ids else rest

unfoldable pub update : ℕ → List ℕ → List Slot → List Slot
update w ids [] = []
update w ids (slot ∷ slots) =
    let rest = update w ids slots in
    if w == slot.worker then record slot { ids = ids } ∷ slots else slot ∷ rest

unfoldable pub remove_slot : ℕ → List Slot → List Slot
remove_slot w [] = []
remove_slot w (slot ∷ slots) =
    let rest = remove_slot w slots in if w == slot.worker then slots else slot ∷ rest

unfoldable pub remove_first : ℕ → List ℕ → List ℕ
remove_first i [] = []
remove_first i (j ∷ js) = let rest = remove_first i js in if i == j then js else j ∷ rest

abbrev pub one_if : Bool → ℕ
one_if b = if b then 1 else 0

-- How often a number stands in a list.
unfoldable pub occ : ℕ → List ℕ → ℕ
occ i [] = 0
occ i (j ∷ js) = one_if (i == j) + occ i js

-- How often an id waits, and how often a worker has a slot.
unfoldable pub occ_slots : ℕ → List Slot → ℕ
occ_slots i [] = 0
occ_slots i (slot ∷ slots) = occ i slot.ids + occ_slots i slots

unfoldable pub keys : ℕ → List Slot → ℕ
keys w [] = 0
keys w (slot ∷ slots) = one_if (w == slot.worker) + keys w slots

pub contains-eq-occ : (i : ℕ) (xs : List ℕ) → contains i xs ≡ ltb 0 (occ i xs)
unfolding occ
contains-eq-occ i [] = refl
contains-eq-occ i (j ∷ js) = split (contains i js) (occ i js) (i == j) (contains-eq-occ i js)
  where
    split : (c : Bool) (n : ℕ) (b : Bool) → c ≡ ltb 0 n → (b || c) ≡ ltb 0 (one_if b + n)
    split c n true h = ground arith
    split c n false h = h ∙ ground arith

pub occ-remove_first :
    (i j : ℕ) (xs : List ℕ)
    → contains i xs ≡ true
    → occ j (remove_first i xs) + one_if (j == i) ≡ occ j xs
unfolding remove_first occ
occ-remove_first i j [] h = absurd (cc)
occ-remove_first i j (x ∷ xs) h = elim (Bool-cases (i == x)) [
  | inl e ↦ let k : i ≡ x = (==_iff i x).0 e in rw e (rw k (omega arith))
  | inr e ↦
      let k : contains i xs ≡ true = cc (rw e at h) in
      rw e (let r = occ-remove_first i j xs k in omega arith)
]

pub contains→occ : (i : ℕ) (xs : List ℕ) → contains i xs ≡ true → 0 < occ i xs
contains→occ i xs h = let k = sym (contains-eq-occ i xs) ∙ h in ground arith

pub occ→contains : (i : ℕ) (xs : List ℕ) → 0 < occ i xs → contains i xs ≡ true
occ→contains i xs h = contains-eq-occ i xs ∙ ground arith

pub absent : (i : ℕ) (xs : List ℕ) → contains i xs ≡ false → occ i xs ≡ 0
absent i xs h = let k = sym (contains-eq-occ i xs) ∙ h in ground arith

pub occ-absent : (i : ℕ) (xs : List ℕ) → occ i xs ≡ 0 → contains i xs ≡ false
occ-absent i xs h = contains-eq-occ i xs ∙ ground arith

pub occ-append : (i : ℕ) (xs ys : List ℕ) → occ i (xs ++ ys) ≡ occ i xs + occ i ys
unfolding occ
occ-append i [] ys = omega arith
occ-append i (x ∷ xs) ys = let h = occ-append i xs ys in omega arith

pub length-remove_first :
    (i : ℕ) (xs : List ℕ) → contains i xs ≡ true → suc (length (remove_first i xs)) ≡ length xs
unfolding remove_first
length-remove_first i [] h = absurd (cc)
length-remove_first i (x ∷ xs) h = elim (Bool-cases (i == x)) [
  | inl e ↦ rw e refl
  | inr e ↦
      let k : contains i xs ≡ true = cc (rw e at h) in
      rw e (let r = length-remove_first i xs k in omega arith)
]

pub remove_first_absent : (i : ℕ) (xs : List ℕ) → contains i xs ≡ false → remove_first i xs ≡ xs
unfolding remove_first
remove_first_absent i [] h = refl
remove_first_absent i (x ∷ xs) h =
    let (a, b) = ||-eq-false {a = i == x} {b = contains i xs} h in
    rw a (ap (λ l. x ∷ l) (remove_first_absent i xs b))

-- What `lookup` finds after a change.
pub lookup-update_self :
    (w : ℕ) (ids : List ℕ) (slots : List Slot) {x : List ℕ}
    → lookup w slots ≡ some x
    → lookup w (update w ids slots) ≡ some ids
unfolding lookup update
lookup-update_self w ids [] h = absurd (cc)
lookup-update_self w ids (slot ∷ slots) h = elim (Bool-cases (w == slot.worker)) [
  | inl e ↦ rw (e, e) refl
  | inr e ↦ rw (e, e) (lookup-update_self w ids slots (rw e at h))
]

pub lookup-update_ne :
    (w v : ℕ) (ids : List ℕ) (slots : List Slot)
    → (v == w) ≡ false
    → lookup v (update w ids slots) ≡ lookup v slots
unfolding lookup update
lookup-update_ne w v ids [] h = refl
lookup-update_ne w v ids (slot ∷ slots) h = elim (Bool-cases (w == slot.worker)) [
  | inl e ↦
      let k : w ≡ slot.worker = (==_iff w slot.worker).0 e in
      let n : (v == slot.worker) ≡ false = subst (λ (x : ℕ). (v == x) ≡ false) k h in rw (e, n) refl
  | inr e ↦ rw e (
      ap (λ (o : Option (List ℕ)). if v == slot.worker then some slot.ids else o)
        (lookup-update_ne w v ids slots h))
]

pub keys-update :
    (w v : ℕ) (ids : List ℕ) (slots : List Slot) → keys v (update w ids slots) ≡ keys v slots
unfolding keys update
keys-update w v ids [] = refl
keys-update w v ids (slot ∷ slots) = elim (Bool-cases (w == slot.worker)) [
  | inl e ↦ rw e refl
  | inr e ↦ rw e (ap (λ (n : ℕ). one_if (v == slot.worker) + n) (keys-update w v ids slots))
]

pub length-update :
    (w : ℕ) (ids : List ℕ) (slots : List Slot) → length (update w ids slots) ≡ length slots
unfolding update
length-update w ids [] = refl
length-update w ids (slot ∷ slots) = elim (Bool-cases (w == slot.worker)) [
  | inl e ↦ rw e refl
  | inr e ↦ rw e (ap suc (length-update w ids slots))
]

pub occ_slots-update :
    (i w : ℕ) (ids : List ℕ) (slots : List Slot) {x : List ℕ}
    → lookup w slots ≡ some x
    → occ_slots i (update w ids slots) + occ i x ≡ occ_slots i slots + occ i ids
unfolding occ_slots update lookup
occ_slots-update i w ids [] h = absurd (cc)
occ_slots-update i w ids (slot ∷ slots) {x} h = elim (Bool-cases (w == slot.worker)) [
  | inl e ↦ let k : slot.ids ≡ x = some-injective (rw e at h) in rw (e, k) (omega arith)
  | inr e ↦ rw e (let r = occ_slots-update i w ids slots (rw e at h) in omega arith)
]

pub lookup-keys : (w : ℕ) (slots : List Slot) → keys w slots ≡ 0 → lookup w slots ≡ none
unfolding lookup keys
lookup-keys w [] h = refl
lookup-keys w (slot ∷ slots) h = elim (Bool-cases (w == slot.worker)) [
  | inl e ↦ absurd (let k : 1 + keys w slots ≡ 0 = rw e at h in omega arith)
  | inr e ↦ rw e (lookup-keys w slots (let k : 0 + keys w slots ≡ 0 = rw e at h in omega arith))
]

pub found-keys :
    (w : ℕ) (slots : List Slot) {x : List ℕ} → lookup w slots ≡ some x → 0 < keys w slots
unfolding lookup keys
found-keys w [] h = absurd (cc)
found-keys w (slot ∷ slots) h = elim (Bool-cases (w == slot.worker)) [
  | inl e ↦ rw e (omega arith)
  | inr e ↦ rw e (let r = found-keys w slots (rw e at h) in omega arith)
]

pub keys-remove_slot :
    (w v : ℕ) (slots : List Slot) {x : List ℕ}
    → lookup w slots ≡ some x
    → keys v (remove_slot w slots) + one_if (v == w) ≡ keys v slots
unfolding lookup keys remove_slot
keys-remove_slot w v [] h = absurd (cc)
keys-remove_slot w v (slot ∷ slots) h = elim (Bool-cases (w == slot.worker)) [
  | inl e ↦ let k : w ≡ slot.worker = (==_iff w slot.worker).0 e in rw e (rw k (omega arith))
  | inr e ↦ rw e (let r = keys-remove_slot w v slots (rw e at h) in omega arith)
]

pub occ_slots-remove_slot :
    (i w : ℕ) (slots : List Slot) {x : List ℕ}
    → lookup w slots ≡ some x
    → occ_slots i (remove_slot w slots) + occ i x ≡ occ_slots i slots
unfolding lookup occ_slots remove_slot
occ_slots-remove_slot i w [] h = absurd (cc)
occ_slots-remove_slot i w (slot ∷ slots) {x} h = elim (Bool-cases (w == slot.worker)) [
  | inl e ↦ let k : slot.ids ≡ x = some-injective (rw e at h) in rw (e, k) (omega arith)
  | inr e ↦ rw e (let r = occ_slots-remove_slot i w slots (rw e at h) in omega arith)
]

pub length-remove_slot :
    (w : ℕ) (slots : List Slot) {x : List ℕ}
    → lookup w slots ≡ some x
    → suc (length (remove_slot w slots)) ≡ length slots
unfolding lookup remove_slot
length-remove_slot w [] h = absurd (cc)
length-remove_slot w (slot ∷ slots) h = elim (Bool-cases (w == slot.worker)) [
  | inl e ↦ rw e refl
  | inr e ↦ rw e (ap suc (length-remove_slot w slots (rw e at h)))
]

pub lookup-remove_slot_ne :
    (w v : ℕ) (slots : List Slot)
    → (v == w) ≡ false
    → lookup v (remove_slot w slots) ≡ lookup v slots
unfolding lookup remove_slot
lookup-remove_slot_ne w v [] h = refl
lookup-remove_slot_ne w v (slot ∷ slots) h = elim (Bool-cases (w == slot.worker)) [
  | inl e ↦
      let k : w ≡ slot.worker = (==_iff w slot.worker).0 e in
      let n : (v == slot.worker) ≡ false = subst (λ (x : ℕ). (v == x) ≡ false) k h in rw (e, n) refl
  | inr e ↦ rw e (
      ap (λ (o : Option (List ℕ)). if v == slot.worker then some slot.ids else o)
        (lookup-remove_slot_ne w v slots h))
]

pub missing-keys : (w : ℕ) (slots : List Slot) → lookup w slots ≡ none → keys w slots ≡ 0
unfolding lookup keys
missing-keys w [] h = refl
missing-keys w (slot ∷ slots) h = elim (Bool-cases (w == slot.worker)) [
  | inl e ↦ absurd (let k : some slot.ids ≡ none = rw e at h in cc)
  | inr e ↦ rw e (let r = missing-keys w slots (rw e at h) in omega arith)
]
