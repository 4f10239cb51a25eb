-- ===== src/State/Patch/Apply/Tests.antt =====
-- The state of zero words, and the application of a patch of one memory-index word to it.
use coretex_client.Prelude.{
  ℕ, zero, suc, ◌≡◌, refl, List, [], ◌∷◌, true, false, not, if◌then◌else◌, arith, replicate, set,
  get_or, All, get_or-set_ne, Bool-cases, inl, inr, sym, ◌∙◌, ◌≢◌, ◌==◌,
}
use Prim.Native.Nat.{bit_and}
use coretex_client.Bits.{bit_and_zero_left}
use coretex_client.Prelude.Int.{pos}
use coretex_client.State.Types.{
  Patch, CortexState, IsState, IsWord, ok, err, over_budget, wrong_parent_root,
}
use coretex_client.State.Types.PatchType
use coretex_client.State.Merkle.{cache_of}
use coretex_client.State.Validate.{
  has_non_zero_reserved_bits, reserved_bits_loop, word_has_reserved_bit, reserved_mask,
}
use coretex_client.State.Patch.Rules.{
  validate_patch_type, check_indices, check_range, patch_type_range,
}
use coretex_client.State.Patch.Apply.{
  over, bytes_equal, old_word, any_change, write_position, apply_words, check_result,
  write_and_check, apply_patch, apply_patch_onto_current,
}
use coretex_client.State.Patch.Apply.Result.{IsApplied, apply_patch_onto_current-IsApplied}
use coretex_client.State.Patch.Apply.Lanes.{apply_patch-eq-onto_current}

abbrev pub zero_state : CortexState
zero_state = record { words = replicate 1024 0 }

zero_words : (n : ℕ) → All IsWord (replicate n 0)
zero_words zero = tt
zero_words (suc n) = (omega arith, zero_words n)

pub zero_state-IsState : IsState zero_state
zero_state-IsState = record { word_count = refl; word_size = zero_words 1024 }

abbrev pub example_patch : Patch
example_patch = record {
  patch_type = PatchType.slot_replace;
  word_count = 1;
  score_delta = pos 7;
  parent_state_root = replicate 32 0;
  indices = 300 ∷ [];
  new_words = 5 ∷ [];
}

abbrev example_state : CortexState
example_state = record { words = set (replicate 1024 0) 300 5 }

-- No reserved bit is set where no word has one.
reserved_bits_loop-none :
    (n i : ℕ) (words : List ℕ)
    → ((j : ℕ) → word_has_reserved_bit words j ≡ false)
    → reserved_bits_loop n i words ≡ false
unfolding reserved_bits_loop
reserved_bits_loop-none zero i words h = refl
reserved_bits_loop-none (suc n) i words h =
    rw (h i, reserved_bits_loop) (reserved_bits_loop-none n (suc i) words h)

get_or-zeros : (n i : ℕ) → get_or {A = ℕ} (replicate n 0) i 0 ≡ 0
get_or-zeros zero i = refl
get_or-zeros (suc n) zero = refl
get_or-zeros (suc n) (suc i) = get_or-zeros n i

zero_and : (m : ℕ) → bit_and 0 m ≡ 0
zero_and m = bit_and_zero_left m

zero_words_clear :
    (words : List ℕ) (j : ℕ) → get_or words j 0 ≡ 0 → word_has_reserved_bit words j ≡ false
unfolding word_has_reserved_bit
zero_words_clear words j h = rw (h, zero_and (reserved_mask j)) (ground arith)

example_clear : (j : ℕ) → word_has_reserved_bit example_state.words j ≡ false
unfolding word_has_reserved_bit reserved_mask
example_clear j = elim (Bool-cases (j == 300)) [
  | inl same ↦ let e : j ≡ 300 = ground arith in rw e refl
  | inr other ↦
      let apart : j ≢ 300 = λ e. ground arith in
      zero_words_clear example_state.words j
        (get_or-set_ne (replicate 1024 0) 300 j 5 0 (λ e. apart (sym e)) ∙ get_or-zeros 1024 j)
]

example_applied : apply_patch_onto_current zero_state example_patch false ≡ ok example_state
unfolding apply_patch_onto_current validate_patch_type check_indices check_range patch_type_range
    write_and_check any_change old_word apply_words write_position check_result
    has_non_zero_reserved_bits
example_applied = rw (reserved_bits_loop-none 1024 0 example_state.words example_clear) refl

apply_patch_onto_current-IsApplied_example : IsApplied zero_state example_patch false example_state
apply_patch_onto_current-IsApplied_example =
    apply_patch_onto_current-IsApplied zero_state example_state example_patch false
      zero_state-IsState (omega arith) refl example_applied

apply_patch-eq-onto_current_example : apply_patch zero_state example_patch true ≡ (
    if over example_patch
    then err over_budget
    else if not (bytes_equal example_patch.parent_state_root (cache_of zero_state.words).root)
    then err wrong_parent_root
    else apply_patch_onto_current zero_state example_patch true)
apply_patch-eq-onto_current_example = apply_patch-eq-onto_current zero_state example_patch true refl
