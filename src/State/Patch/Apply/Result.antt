-- ===== src/State/Patch/Apply/Result.antt =====
-- What a successful application of a patch has done to the state.
use coretex_client.Prelude.{
  ℕ, ◌+◌, ◌≤◌, ◌<◌, ◌≡◌, ◌≢◌, refl, sym, ap, ◌∙◌, List, none, Bool, true, false, arith, contains,
  length, get_or, All, Bool-cases, Option-cases, inl, inr,
}
use mathlib.Core.Path.{subst}
use coretex_client.State.Types.{IsWord, CortexState, IsState, Patch, ok, ok-injective}
use coretex_client.State.Merkle.Dedupe.{write_words}
use coretex_client.State.Merkle.Update.{length-write_words}
use coretex_client.State.Validate.{has_non_zero_reserved_bits, validate_policy_regions}
use coretex_client.State.Patch.Rules.{
  TypeCheck, valid, invalid, is_valid, validate_patch_type, patch_touches_header,
  policy_write_is_canonical_for_state,
}
use coretex_client.State.Patch.Rules.Regions.{validate_patch_type_iff}
use coretex_client.State.Patch.Apply.{
  any_change, check_result, write_and_check, apply_patch_onto_current,
}
use coretex_client.State.Patch.Apply.Words.{
  updates_of, apply_words-updates_of, write_words_unchanged, write_words_written,
  write_words-IsWord, any_change_position, All-get_or,
}

abbrev Checked : Bool → List ℕ → CortexState → Type 0
Checked mode words s =
    (s.words ≡ words)
    × (has_non_zero_reserved_bits s ≡ false)
    × (mode ≡ true → validate_policy_regions s ≡ none)

-- The outcome of the last checks.
check_result-eq-ok :
    (mode : Bool) (words : List ℕ) (s : CortexState)
    → check_result mode words ≡ ok s
    → Checked mode words s
unfolding check_result
check_result-eq-ok mode words s h =
    let r : CortexState = record { words = words } in
    elim (Bool-cases (has_non_zero_reserved_bits r)) [
      | inl reserved ↦ absurd (cc (rw reserved at h))
      | inr clean ↦ elim (Bool-cases mode) [
        | inl on ↦ elim (Option-cases (validate_policy_regions r)) [
          | inl fine ↦
              subst (Checked mode words) (ok-injective (rw (clean, on, fine) at h))
                (refl, clean, λ _. fine)
          | inr (e, bad) ↦ absurd (cc (rw (clean, on, bad) at h))
        ]
        | inr off ↦
            subst (Checked mode words) (ok-injective (rw (clean, off) at h)) (refl, clean, λ on. cc)
      ]
    ]

-- What a success of the shared steps says.
write_and_check-eq-ok :
    (s s' : CortexState) (p : Patch) (mode : Bool)
    → All (λ i. i < 992) p.indices
    → length p.indices ≡ p.word_count
    → write_and_check s p mode ≡ ok s'
    → (any_change p.word_count 0 s.words p ≡ true)
      × (s'.words ≡ write_words (updates_of p) s.words)
      × (has_non_zero_reserved_bits s' ≡ false)
      × (mode ≡ true → validate_policy_regions s' ≡ none)
unfolding write_and_check
write_and_check-eq-ok s s' p mode low len h =
    let written = apply_words-updates_of s.words p low len in
    let checked : check_result mode (write_words (updates_of p) s.words) ≡ ok s' =
      ground (arith, written) in
    let (words, bits, regions) =
      check_result-eq-ok mode (write_words (updates_of p) s.words) s' checked in
    (ground arith, words, bits, regions)

is_valid-eq-true : (c : TypeCheck) → is_valid c ≡ true → c ≡ valid
is_valid-eq-true valid h = refl
is_valid-eq-true (invalid r) h = cc

-- The checks that come before the writes.
pub apply_checks :
    (s s' : CortexState) (p : Patch) (mode : Bool)
    → apply_patch_onto_current s p mode ≡ ok s'
    → (1 ≤ p.word_count)
      × (p.word_count ≤ 4)
      × (validate_patch_type p.patch_type p.indices ≡ valid)
      × (mode ≡ true → patch_touches_header p ≡ false)
      × (mode ≡ true → policy_write_is_canonical_for_state s p ≡ true)
      × (write_and_check s p mode ≡ ok s')
unfolding apply_patch_onto_current
apply_checks s s' p mode h =
    let check = validate_patch_type p.patch_type p.indices in
    let known : is_valid check ≡ true = ground arith in
    (
      ground arith,
      ground arith,
      is_valid-eq-true check known,
      (λ m. ground arith),
      (λ m. ground arith),
      ground arith,
    )

-- What a state is after a patch was applied: the words that the patch names have their new values,
-- one at least differs, all others are as before, and the result passes the checks.
pub record IsApplied (s : CortexState) (p : Patch) (mode : Bool) (s' : CortexState) : Type 0 where
  pub well_formed : IsState s'
  pub written :
      (j : ℕ) → j < p.word_count → get_or s'.words (get_or p.indices j 0) 0 ≡ get_or p.new_words j 0
  pub unchanged : (i : ℕ) → contains i p.indices ≡ false → get_or s'.words i 0 ≡ get_or s.words i 0
  pub changed : s' ≢ s
  pub reserved_clear : has_non_zero_reserved_bits s' ≡ false
  pub policy_valid : mode ≡ true → validate_policy_regions s' ≡ none

-- After a successful `applyPatchOntoCurrent` on a state of 1024 words, for a patch with as many
-- indices as its word count says and words of 256 bits, the words that the patch names have
-- their new values, all others are as before, the state differs, is well formed, has no reserved
-- bit, and in policy mode has valid policy regions.
pub apply_patch_onto_current-IsApplied :
    (s s' : CortexState) (p : Patch) (mode : Bool)
    → IsState s
    → All IsWord p.new_words
    → length p.indices ≡ p.word_count
    → apply_patch_onto_current s p mode ≡ ok s'
    → IsApplied s p mode s'
apply_patch_onto_current-IsApplied s s' p mode hs hw len h =
    let (_, _, check, _, _, last) = apply_checks s s' p mode h in
    let (_, low, distinct, _) = (validate_patch_type_iff p.patch_type p.indices).0 check in
    let (change, words, bits, regions) = write_and_check-eq-ok s s' p mode low len last in
    let (j, inside, differs) =
      any_change_position p.word_count 0 s.words p (omega (arith, len)) change in
    let written : (j : ℕ)
        → j < p.word_count
        → get_or s'.words (get_or p.indices j 0) 0 ≡ get_or p.new_words j 0 =
      λ j lt.
        let i : get_or p.indices j 0 < 992 =
          All-get_or (λ i. i < 992) p.indices j low (omega (arith, len)) in
        rw words (
          write_words_written 0 p.indices p.new_words s.words j distinct (omega (arith, len))
            (omega (arith, hs.word_count))
          ∙ ap (λ (t : ℕ). get_or p.new_words t 0) (let e : 0 + j ≡ j = omega arith in e)) in
    record {
      well_formed = record {
        word_count = ap length words ∙ length-write_words (updates_of p) s.words ∙ hs.word_count;
        word_size = rw words (write_words-IsWord 0 p.indices p.new_words s.words hw hs.word_size);
      };
      written = written;
      unchanged =
          λ i outside. rw words (write_words_unchanged 0 p.indices p.new_words s.words i outside);
      changed = λ same. differs (
          sym (ap (λ t. get_or t.words (get_or p.indices j 0) 0) same)
          ∙ written j (omega (arith, len)));
      reserved_clear = bits;
      policy_valid = regions;
    }

-- The words after a successful application.
pub apply_patch_onto_current-words :
    (s s' : CortexState) (p : Patch) (mode : Bool)
    → length p.indices ≡ p.word_count
    → apply_patch_onto_current s p mode ≡ ok s'
    → (s'.words ≡ write_words (updates_of p) s.words) × All (λ i. i < 992) p.indices
apply_patch_onto_current-words s s' p mode len h =
    let (_, _, check, _, _, last) = apply_checks s s' p mode h in
    let (_, low, _, _) = (validate_patch_type_iff p.patch_type p.indices).0 check in
    let (_, words, _, _) = write_and_check-eq-ok s s' p mode low len last in (words, low)
