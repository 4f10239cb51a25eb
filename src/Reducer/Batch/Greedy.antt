-- ===== src/Reducer/Batch/Greedy.antt =====
-- What the greedy loop keeps: the accepted patches have disjoint targets, and the state is the
-- parent's with their words.
use coretex_client.Prelude.{
  ℕ, zero, suc, ◌<◌, ◌≡◌, refl, ◌⊎◌, ◌∙◌, List, [], ◌∷◌, ◌++◌, some, Bool, true, false, ◌||◌, ◌==◌,
  arith, All, All-append, contains, length, get_or, Bool-cases, inl, inr,
}
use mathlib.Core.Path.{subst}
use coretex_client.Prelude.Int.{ℤ, ◌≤ℤ◌}
use coretex_client.State.Types.{CortexState, Patch, IsState, IsWord, PatchResult}
use coretex_client.State.Merkle.{add_to_set}
use coretex_client.State.Merkle.Levels.{contains-add_to_set}
use coretex_client.State.Patch.Apply.{apply_patch_onto_current}
use coretex_client.State.Patch.Apply.Result.{IsApplied, apply_patch_onto_current-IsApplied}
use coretex_client.Reducer.Accept.{
  AcceptStepResult, accepted, rejected, threw, evaluate_and_apply_onto_current, accepted-eq,
  evaluate-ne-threw,
}
use coretex_client.Reducer.Batch.{
  target_overlap, ReducerInputPatch, AcceptedPatch, RejectedPatch, Progress, reject, with_rejected,
  with_accepted, overlaps, add_targets, reduce_step, reduce_loop, batch_codes,
}

-- A patch as it is decoded from bytes: words of 256 bits, an index for each.
abbrev pub IsDecoded : Patch → Type 0
IsDecoded p = All IsWord p.new_words × (length p.indices ≡ p.word_count)

-- The words of a patch stand in a state.
abbrev pub IsWritten : CortexState → Patch → Type 0
IsWritten s p =
    (j : ℕ) → j < p.word_count → get_or s.words (get_or p.indices j 0) 0 ≡ get_or p.new_words j 0

pub record IsSettled (s : CortexState) (targets : List ℕ) (threshold : ℤ) (a : AcceptedPatch)
    : Type 0 where
  pub written : IsWritten s a.patch
  pub covered : (i : ℕ) → contains i a.patch.indices ≡ true → contains i targets ≡ true
  pub sized : length a.patch.indices ≡ a.patch.word_count
  pub gain : threshold ≤ℤ a.marginal_gain

abbrev pub Avoids : ℕ → AcceptedPatch → Type 0
Avoids i a = contains i a.patch.indices ≡ false

pub record IsGreedy (parent : CortexState) (threshold : ℤ) (mode : Bool) (g : Progress)
    : Type 0 where
  pub well_formed : IsState g.current
  pub settled : All (IsSettled g.current g.accepted_targets threshold) g.accepted_set
  pub exact : (i : ℕ) → All (Avoids i) g.accepted_set → contains i g.accepted_targets ≡ false
  pub untouched :
      (i : ℕ)
      → contains i g.accepted_targets ≡ false
      → get_or g.current.words i 0 ≡ get_or parent.words i 0

All-map {ℓ κ μ} :
    {A : Type ℓ} (P : A → Type κ) (Q : A → Type μ) (xs : List A)
    → ((x : A) → P x → Q x)
    → All P xs
    → All Q xs
All-map P Q [] f h = tt
All-map P Q (x ∷ xs) f h = (f x h.0, All-map P Q xs f h.1)

All-append-left {ℓ κ} :
    {A : Type ℓ} (P : A → Type κ) (xs ys : List A) → All P (xs ++ ys) → All P xs × All P ys
All-append-left P [] ys h = (tt, h)
All-append-left P (x ∷ xs) ys h = let (l, r) = All-append-left P xs ys h.1 in ((h.0, l), r)

contains-get_or : (is : List ℕ) (j : ℕ) → j < length is → contains (get_or is j 0) is ≡ true
contains-get_or [] j h = absurd (omega arith)
contains-get_or (i ∷ is) zero h = ground arith
contains-get_or (i ∷ is) (suc j) h =
    let rest = contains-get_or is j (omega arith) in ground (arith, rest)

overlaps-eq-false :
    (targets is : List ℕ) (i : ℕ)
    → overlaps targets is ≡ false
    → contains i targets ≡ true
    → contains i is ≡ false
overlaps-eq-false targets [] i h in_targets = refl
overlaps-eq-false targets (k ∷ is) i h in_targets = elim (Bool-cases (i == k)) [
  | inl same ↦
      let e : i ≡ k = ground arith in
      let hit : contains k targets ≡ true = subst (λ t. contains t targets ≡ true) e in_targets in
      absurd (cc (rw hit at h))
  | inr other ↦
      let later : overlaps targets is ≡ false = ground arith in
      let rest = overlaps-eq-false targets is i later in_targets in rw (other, rest) refl
]

contains-add_targets :
    (is targets : List ℕ) (i : ℕ)
    → contains i (add_targets is targets) ≡ (contains i targets || contains i is)
unfolding add_targets
contains-add_targets [] targets i = ground arith
contains-add_targets (k ∷ is) targets i =
    let rest = contains-add_targets is (add_to_set k targets) i in
    let first = contains-add_to_set i k targets in ground (arith, rest, first)

-- A step that accepts keeps what was settled.
IsSettled-later :
    (s s' : CortexState) (targets : List ℕ) (threshold : ℤ) (mode : Bool) (p : Patch)
    → overlaps targets p.indices ≡ false
    → IsApplied s p mode s'
    → (a : AcceptedPatch) → IsSettled s targets threshold a
    → IsSettled s' (add_targets p.indices targets) threshold a
IsSettled-later s s' targets threshold mode p apart applied a old = record {
  written = λ j lt.
      let i = get_or a.patch.indices j 0 in
      let own : contains i a.patch.indices ≡ true =
        contains-get_or a.patch.indices j (omega (arith, old.sized)) in
      applied.unchanged i (overlaps-eq-false targets p.indices i apart (old.covered i own))
      ∙ old.written j lt;
  covered = λ i own. contains-add_targets p.indices targets i ∙ rw (old.covered i own) refl;
  sized = old.sized;
  gain = old.gain;
}

with_accepted-IsGreedy :
    (parent s : CortexState) (threshold gain : ℤ) (mode : Bool) (item : ReducerInputPatch)
    (g : Progress)
    → IsDecoded item.patch
    → IsGreedy parent threshold mode g
    → overlaps g.accepted_targets item.patch.indices ≡ false
    → threshold ≤ℤ gain
    → apply_patch_onto_current g.current item.patch mode ≡ PatchResult.ok s
    → IsGreedy parent threshold mode (with_accepted s gain item g)
unfolding with_accepted
with_accepted-IsGreedy parent s threshold gain mode item g (hw, len) h apart enough ok_step =
    let p = item.patch in
    let applied =
      apply_patch_onto_current-IsApplied g.current s p mode h.well_formed hw len ok_step in
    let targets = add_targets p.indices g.accepted_targets in
    let new : AcceptedPatch = record {
      patch = p;
      patch_bytes = item.patch_bytes;
      marginal_gain = gain;
      acceptance_index = length g.accepted_set;
    } in
    let settled_new : IsSettled s targets threshold new = record {
      written = applied.written;
      covered = λ i own.
          let e = contains-add_targets p.indices g.accepted_targets i in ground (arith, e, own);
      sized = len;
      gain = enough;
    } in
    record {
      well_formed = applied.well_formed;
      settled =
          All-append (IsSettled s targets threshold) g.accepted_set (new ∷ [])
            (All-map (IsSettled g.current g.accepted_targets threshold)
              (IsSettled s targets threshold) g.accepted_set
              (IsSettled-later g.current s g.accepted_targets threshold mode p apart applied)
              h.settled)
            (settled_new, tt);
      exact = λ i avoid.
          let (before, this) = All-append-left (Avoids i) g.accepted_set (new ∷ []) avoid in
          contains-add_targets p.indices g.accepted_targets i ∙ rw (h.exact i before, this.0) refl;
      untouched = λ i out.
          let e = contains-add_targets p.indices g.accepted_targets i in
          let off : contains i g.accepted_targets ≡ false = ground (arith, e, out) in
          let off_item : contains i p.indices ≡ false = ground (arith, e, out) in
          applied.unchanged i off_item ∙ h.untouched i off;
    }

with_rejected-IsGreedy :
    (parent : CortexState) (threshold : ℤ) (mode : Bool) (r : RejectedPatch) (g : Progress)
    → IsGreedy parent threshold mode g
    → IsGreedy parent threshold mode (with_rejected r g)
unfolding with_rejected
with_rejected-IsGreedy parent threshold mode r g h = record {
  well_formed = h.well_formed;
  settled = h.settled;
  exact = h.exact;
  untouched = h.untouched;
}

AcceptStepResult-cases {ℓ} :
    {C : Type ℓ} (r : AcceptStepResult C)
    → ((s : CortexState) × (gain : ℤ) × (r ≡ accepted s gain))
      ⊎ (((c : C) × (r ≡ rejected c)) ⊎ (r ≡ threw))
AcceptStepResult-cases (accepted s gain) = inl (s, gain, refl)
AcceptStepResult-cases (rejected c) = inr (inl (c, refl))
AcceptStepResult-cases threw = inr (inr refl)

-- A round of the loop returns, and keeps the invariant.
reduce_step-IsGreedy :
    (parent : CortexState) (threshold : ℤ) (mode : Bool) (item : ReducerInputPatch) (g : Progress)
    → IsDecoded item.patch
    → IsGreedy parent threshold mode g
    → (g' : Progress) × (reduce_step threshold mode item g ≡ some g')
      × IsGreedy parent threshold mode g'
unfolding reduce_step
reduce_step-IsGreedy parent threshold mode item g decoded h =
    let outcome =
      evaluate_and_apply_onto_current g.current item.patch item.marginal_evaluator threshold false
        mode batch_codes in
    elim (Bool-cases (overlaps g.accepted_targets item.patch.indices)) [
      | inl over ↦
          let r = reject target_overlap item in
          (with_rejected r g, rw over refl, with_rejected-IsGreedy parent threshold mode r g h)
      | inr apart ↦ elim (AcceptStepResult-cases outcome) [
        | inl (s, gain, e) ↦
            let (better, _, applied) =
              accepted-eq g.current s item.patch item.marginal_evaluator threshold gain false mode
                batch_codes e in
            (
              with_accepted s gain item g,
              rw (apart, e) refl,
              with_accepted-IsGreedy parent s threshold gain mode item g decoded h apart
                  (ground arith) applied,
            )
        | inr (inl (reason, e)) ↦
            let r = reject reason item in
            (
              with_rejected r g,
              rw (apart, e) refl,
              with_rejected-IsGreedy parent threshold mode r g h,
            )
        | inr (inr e) ↦ absurd (
            evaluate-ne-threw g.current item.patch item.marginal_evaluator threshold false mode
              batch_codes e)
      ]
    ]

pub reduce_loop-IsGreedy :
    (parent : CortexState) (threshold : ℤ) (mode : Bool) (items : List ReducerInputPatch)
    (g : Progress)
    → All (λ t. IsDecoded t.patch) items
    → IsGreedy parent threshold mode g
    → (g' : Progress) × (reduce_loop threshold mode items g ≡ some g')
      × IsGreedy parent threshold mode g'
unfolding reduce_loop
reduce_loop-IsGreedy parent threshold mode [] g decoded h = (g, refl, h)
reduce_loop-IsGreedy parent threshold mode (item ∷ items) g decoded h =
    let (next, e, kept) = reduce_step-IsGreedy parent threshold mode item g decoded.0 h in
    let (last, e', done) = reduce_loop-IsGreedy parent threshold mode items next decoded.1 kept in
    (last, rw (e, reduce_loop) e', done)
