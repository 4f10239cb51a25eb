-- ===== src/Reducer/Batch/Order.antt =====
-- The order of the greedy loop.
use coretex_client.Prelude.{
  ℕ, ◌≤◌, ◌≡◌, ◌≢◌, refl, List, [], ◌∷◌, true, false, ltb, arith, Bool-cases, inl, inr,
}
use coretex_client.Prelude.Int.{ltb_ℤ, ◌≤ℤ◌}
use coretex_client.Reducer.Batch.{
  ReducerInputPatch, later, compare_bytes, compare_patch_priority, compute_patch_hash, goes_after,
  insert, stable_sort,
}

-- No two neighbours stand against the comparison.
abbrev pub IsSorted : List ReducerInputPatch → Type 0
IsSorted [] = Unit {0}
IsSorted (x ∷ []) = Unit {0}
IsSorted (x ∷ y ∷ ys) = (goes_after (compare_patch_priority x y) ≡ false) × IsSorted (y ∷ ys)

compare_bytes-asym :
    (xs ys : List ℕ)
    → goes_after (compare_bytes xs ys) ≡ true
    → goes_after (compare_bytes ys xs) ≡ false
unfolding compare_bytes
compare_bytes-asym [] [] h = refl
compare_bytes-asym [] (y ∷ ys) h = cc
compare_bytes-asym (x ∷ xs) [] h = refl
compare_bytes-asym (x ∷ xs) (y ∷ ys) h = elim (Bool-cases (ltb x y)) [
  | inl lt ↦ ground arith
  | inr ge ↦ elim (Bool-cases (ltb y x)) [
    | inl gt ↦ ground arith
    | inr eq ↦
        let rest = compare_bytes-asym xs ys (rw (ge, eq, compare_bytes) at h) in
        rw (ge, eq, compare_bytes) rest
  ]
]

compare_patch_priority-asym :
    (a b : ReducerInputPatch)
    → goes_after (compare_patch_priority a b) ≡ true
    → goes_after (compare_patch_priority b a) ≡ false
unfolding compare_patch_priority
compare_patch_priority-asym a b h =
    let bytes =
      compare_bytes-asym (compute_patch_hash a.patch_bytes) (compute_patch_hash b.patch_bytes) in
    elim (Bool-cases (ltb_ℤ a.score_delta b.score_delta)) [
      | inl lt ↦
          let ge : ltb_ℤ b.score_delta a.score_delta ≡ false = ground arith in rw (ge, lt) refl
      | inr ge ↦ elim (Bool-cases (ltb_ℤ b.score_delta a.score_delta)) [
        | inl gt ↦ absurd (cc (rw (ge, gt) at h))
        | inr le ↦ elim (Bool-cases (ltb a.patch.word_count b.patch.word_count)) [
          | inl fewer ↦ absurd (cc (rw (ge, le, fewer) at h))
          | inr no_fewer ↦ elim (Bool-cases (ltb b.patch.word_count a.patch.word_count)) [
            | inl more ↦ rw (ge, le, more) refl
            | inr no_more ↦
                rw (ge, le, no_fewer, no_more) (bytes (rw (ge, le, no_fewer, no_more) at h))
          ]
        ]
      ]
    ]

insert-IsSorted :
    (x : ReducerInputPatch) (xs : List ReducerInputPatch) → IsSorted xs → IsSorted (insert x xs)
unfolding insert
insert-IsSorted x [] h = tt
insert-IsSorted x (y ∷ []) h = elim (Bool-cases (goes_after (compare_patch_priority x y))) [
  | inl after ↦ rw (after, insert) (compare_patch_priority-asym x y after, tt)
  | inr before ↦ rw (before, insert) (before, tt)
]
insert-IsSorted x (y ∷ z ∷ zs) h = elim (Bool-cases (goes_after (compare_patch_priority x y))) [
  | inl after ↦
      let rest = insert-IsSorted x (z ∷ zs) h.1 in
      elim (Bool-cases (goes_after (compare_patch_priority x z))) [
        | inl after' ↦ rw (after, after', insert) (h.0, (rw (after', insert) at rest))
        | inr before' ↦
            rw (after, before', insert) (compare_patch_priority-asym x y after, (before', h.1))
      ]
  | inr before ↦ rw (before, insert) (before, h)
]

stable_sort-IsSorted : (xs : List ReducerInputPatch) → IsSorted (stable_sort xs)
unfolding stable_sort
stable_sort-IsSorted [] = tt
stable_sort-IsSorted (x ∷ xs) = insert-IsSorted x (stable_sort xs) (stable_sort-IsSorted xs)

-- A larger score delta first; of equal ones fewer words; of equal ones the smaller hash.
pub record Precedes (a b : ReducerInputPatch) : Type 0 where
  pub score : b.score_delta ≤ℤ a.score_delta
  pub size : a.score_delta ≡ b.score_delta → a.patch.word_count ≤ b.patch.word_count
  pub hash :
      a.score_delta ≡ b.score_delta
      → a.patch.word_count ≡ b.patch.word_count
      → compare_bytes (compute_patch_hash a.patch_bytes) (compute_patch_hash b.patch_bytes) ≢ later

not_after-Precedes :
    (a b : ReducerInputPatch) → goes_after (compare_patch_priority a b) ≡ false → Precedes a b
unfolding compare_patch_priority
not_after-Precedes a b h = elim (Bool-cases (ltb_ℤ a.score_delta b.score_delta)) [
  | inl lt ↦ absurd (cc (rw lt at h))
  | inr ge ↦ record {
    score = ground arith;
    size = λ e.
        let le : ltb_ℤ b.score_delta a.score_delta ≡ false = ground arith in
        elim (Bool-cases (ltb b.patch.word_count a.patch.word_count)) [
          | inl more ↦
              let no_fewer : ltb a.patch.word_count b.patch.word_count ≡ false = ground arith in
              absurd (cc (rw (ge, le, no_fewer, more) at h))
          | inr no_more ↦ ground arith
        ];
    hash = λ e f bad.
        let le : ltb_ℤ b.score_delta a.score_delta ≡ false = ground arith in
        let no_fewer : ltb a.patch.word_count b.patch.word_count ≡ false = ground arith in
        let no_more : ltb b.patch.word_count a.patch.word_count ≡ false = ground arith in
        cc (rw (ge, le, no_fewer, no_more, bad) at h);
  }
]

abbrev pub IsOrdered : List ReducerInputPatch → Type 0
IsOrdered [] = Unit {0}
IsOrdered (x ∷ []) = Unit {0}
IsOrdered (x ∷ y ∷ ys) = Precedes x y × IsOrdered (y ∷ ys)

IsSorted-IsOrdered : (xs : List ReducerInputPatch) → IsSorted xs → IsOrdered xs
IsSorted-IsOrdered [] h = tt
IsSorted-IsOrdered (x ∷ []) h = tt
IsSorted-IsOrdered (x ∷ y ∷ ys) h = (not_after-Precedes x y h.0, IsSorted-IsOrdered (y ∷ ys) h.1)

-- Of two neighbours that `stableSort` gives by `comparePatchPriority`, the first has the larger
-- score delta, or an equal one and no more words, or both equal and no larger a hash.
pub stable_sort-IsOrdered : (xs : List ReducerInputPatch) → IsOrdered (stable_sort xs)
stable_sort-IsOrdered xs = IsSorted-IsOrdered (stable_sort xs) (stable_sort-IsSorted xs)
