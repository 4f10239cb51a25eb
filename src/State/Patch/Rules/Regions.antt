-- ===== src/State/Patch/Rules/Regions.antt =====
-- What `validatePatchType` accepts, against the regions that the patch types name.
use coretex_client.Prelude.{
  ℕ, zero, suc, ◌≤◌, ◌<◌, ◌≡◌, ◌≢◌, ◌↔◌, ◌⊎◌, inl, inr, refl, List, [], ◌∷◌, none, some, false,
  arith, All, contains,
}
use native.Mathlib.Decide.{dec_lt, ℕ_discrete}
use coretex_client.State.Types.{RangeRow}
use coretex_client.State.Types.PatchType
use coretex_client.State.Patch.Rules.{
  valid, patch_type_range, check_indices, check_targets, check_range, validate_patch_type,
}

-- The words that a patch type may write, type by type; `mixed` may write any.
pub record MayWrite (t i : ℕ) : Type 0 where
  pub keys : t ≡ PatchType.key_update → (384 ≤ i) × (i ≤ 671)
  pub slots : t ≡ PatchType.slot_replace → (32 ≤ i) × (i ≤ 383)
  pub temporal : t ≡ PatchType.temporal_update → (800 ≤ i) × (i ≤ 895)
  pub relations : t ≡ PatchType.relation_update → (672 ≤ i) × (i ≤ 799)
  pub codebook : t ≡ PatchType.codebook_update → (896 ≤ i) × (i ≤ 991)
  pub header : t ≡ PatchType.header_update → i ≤ 31
  pub policy : t ≡ PatchType.policy_update → (384 ≤ i) × (i ≤ 671)

-- The type bytes in use are 1 to 7 and 255.
abbrev pub IsKnown : ℕ → Type 0
IsKnown t = ((1 ≤ t) × (t ≤ 7)) ⊎ (t ≡ 255)

-- No index stands twice.
abbrev pub Distinct : List ℕ → Type 0
Distinct [] = Unit {0}
Distinct (i ∷ is) = (contains i is ≡ false) × Distinct is

abbrev Avoids : List ℕ → List ℕ → Type 0
Avoids seen is = All (λ i. contains i seen ≡ false) is

Avoids-cons :
    (seen : List ℕ) (i : ℕ) (is : List ℕ)
    → Avoids (i ∷ seen) is ↔ ((contains i is ≡ false) × Avoids seen is)
Avoids-cons seen i [] = ((λ h. (refl, tt)), (λ h. tt))
Avoids-cons seen i (j ∷ is) =
    let ih = Avoids-cons seen i is in (λ h. ground (arith, ih.0 h.1), λ h. ground (arith, ih.1))

check_indices_iff :
    (seen is : List ℕ)
    → (check_indices seen is ≡ valid) ↔ (All (λ i. i < 992) is × Avoids seen is × Distinct is)
unfolding check_indices
check_indices_iff seen [] = ((λ h. (tt, tt, tt)), (λ h. refl))
check_indices_iff seen (i ∷ is) =
    let ih = check_indices_iff (i ∷ seen) is in
    let split = Avoids-cons seen i is in
    (λ h. ground (arith, ih.0, split.0), λ h. ground (arith, ih.1, split.1))

abbrev Between : ℕ → ℕ → ℕ → Type 0
Between start end i = (start ≤ i) × (i ≤ end)

check_targets_iff :
    (start end : ℕ) (is : List ℕ)
    → (check_targets start end is ≡ valid) ↔ All (Between start end) is
unfolding check_targets
check_targets_iff start end [] = ((λ h. tt), (λ h. refl))
check_targets_iff start end (i ∷ is) =
    let ih = check_targets_iff start end is in
    (λ h. ground (arith, ih.0), λ h. ground (arith, ih.1))

All-iff {ℓ κ} :
    {A : Type ℓ} {P Q : A → Type κ} (xs : List A) → ((a : A) → P a ↔ Q a) → All P xs ↔ All Q xs
All-iff [] h = ((λ _. tt), (λ _. tt))
All-iff (x ∷ xs) h =
    let ih = All-iff xs h in ((λ p. ((h x).0 p.0, ih.0 p.1)), (λ q. ((h x).1 q.0, ih.1 q.1)))

-- The table's row for a known type is the region of that type.
known_row :
    (t : ℕ)
    → 1 ≤ t
    → t ≤ 7
    → (r : RangeRow) × (patch_type_range t ≡ some r)
      × ((i : ℕ) → Between r.start r.end i ↔ MayWrite t i)
unfolding patch_type_range
known_row zero lo hi = absurd (omega arith)
known_row (suc zero) lo hi = (_, refl, λ i. (omega arith, omega arith))
known_row (suc (suc zero)) lo hi = (_, refl, λ i. (omega arith, omega arith))
known_row (suc (suc (suc zero))) lo hi = (_, refl, λ i. (omega arith, omega arith))
known_row (suc (suc (suc (suc zero)))) lo hi = (_, refl, λ i. (omega arith, omega arith))
known_row (suc (suc (suc (suc (suc zero))))) lo hi = (_, refl, λ i. (omega arith, omega arith))
known_row (suc (suc (suc (suc (suc (suc zero)))))) lo hi =
    (_, refl, λ i. (omega arith, omega arith))
known_row (suc (suc (suc (suc (suc (suc (suc zero))))))) lo hi =
    (_, refl, λ i. (omega arith, omega arith))
known_row (suc (suc (suc (suc (suc (suc (suc (suc t)))))))) lo hi = absurd (omega arith)

unknown_row : (t : ℕ) → (t ≡ 0) ⊎ (8 ≤ t) → patch_type_range t ≡ none
unfolding patch_type_range
unknown_row t h = ground arith

check_range_iff :
    (t : ℕ) (is : List ℕ)
    → t ≢ 255
    → (check_range (patch_type_range t) is ≡ valid) ↔ (IsKnown t × All (MayWrite t) is)
unfolding check_range
check_range_iff t is other = elim (dec_lt t 8) [
  | yes low ↦ elim (dec_lt 0 t) [
    | yes high ↦
        let (r, e, region) = known_row t high (omega arith) in
        let targets = check_targets_iff r.start r.end is in
        let regions = All-iff is region in
        rw e (
          (λ h. (inl (high, omega arith), regions.0 (targets.0 h))),
          (λ h. targets.1 (regions.1 h.1)),
        )
    | no zero_type ↦ rw (unknown_row t (inl (omega arith))) ((λ h. cc), (λ h. absurd (omega arith)))
  ]
  | no high ↦ rw (unknown_row t (inr (omega arith))) ((λ h. cc), (λ h. absurd (omega arith)))
]

mixed_anywhere : (is : List ℕ) → All (MayWrite 255) is
mixed_anywhere [] = tt
mixed_anywhere (i ∷ is) = (omega arith, mixed_anywhere is)

Avoids-nil : (is : List ℕ) → Avoids [] is
Avoids-nil [] = tt
Avoids-nil (i ∷ is) = (refl, Avoids-nil is)

-- `validatePatchType` accepts exactly the known types whose indices lie below the reserved
-- range, are distinct, and belong to the region of the type.
pub validate_patch_type_iff :
    (t : ℕ) (is : List ℕ)
    → (validate_patch_type t is ≡ valid)
      ↔ (IsKnown t × All (λ i. i < 992) is × Distinct is × All (MayWrite t) is)
unfolding validate_patch_type
validate_patch_type_iff t is =
    let indices = check_indices_iff [] is in
    elim (ℕ_discrete t 255) [
      | yes e ↦ rw e (
        (λ h.
            let (low, _, apart) = indices.0 (ground arith) in
            (inr refl, low, apart, mixed_anywhere is)),
        (λ h. rw (indices.1 (h.1, Avoids-nil is, h.2))),
      )
      | no other ↦
          let range = check_range_iff t is other in
          (
            (λ h.
                let (low, _, apart) = indices.0 (ground arith) in
                let (known, regions) = range.0 (ground arith) in (known, low, apart, regions)),
            (λ h. rw (indices.1 (h.1, Avoids-nil is, h.2)) (ground (arith, range.1 (h.0, h.3)))),
          )
    ]
