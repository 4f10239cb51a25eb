-- ===== src/State/Patch/Apply/Total.antt =====
-- `applyPatchOntoCurrent` throws nothing.
use coretex_client.Prelude.{
  ℕ, zero, suc, ◌≡◌, ◌≢◌, refl, ◌⊎◌, List, Option, none, some, Bool, arith, get_elem?, get_or, inl,
  inr,
}
use coretex_client.State.Types.{CortexState, Patch, PatchResult, PatchErrorCode, ok, err, thrown}
use coretex_client.State.Patch.Apply.{
  write_position, apply_words, check_result, write_and_check, apply_patch_onto_current,
}

PatchResult-cases :
    {A : Type 0} (r : PatchResult A)
    → ((a : A) × (r ≡ ok a)) ⊎ (((e : PatchErrorCode) × (r ≡ err e)) ⊎ (r ≡ thrown))
PatchResult-cases (ok a) = inl (a, refl)
PatchResult-cases (err e) = inr (inl (e, refl))
PatchResult-cases thrown = inr (inr refl)

write_position-ne-thrown :
    (words : List ℕ) (o : Option ℕ) (w : ℕ) → write_position words o w ≢ thrown
unfolding write_position
write_position-ne-thrown words none w h = cc
write_position-ne-thrown words (some i) w h = ground arith

apply_words-ne-thrown : (n k : ℕ) (words : List ℕ) (p : Patch) → apply_words n k words p ≢ thrown
unfolding apply_words
apply_words-ne-thrown zero k words p h = cc
apply_words-ne-thrown (suc n) k words p h =
    elim (PatchResult-cases
      (write_position words (get_elem? p.indices k) (get_or p.new_words k 0))) [
        | inl (words', e) ↦ apply_words-ne-thrown n (suc k) words' p (rw (e, apply_words) at h)
        | inr (inl (code, e)) ↦ cc (rw (e, apply_words) at h)
        | inr (inr e) ↦
            write_position-ne-thrown words (get_elem? p.indices k) (get_or p.new_words k 0) e
      ]

check_result-ne-thrown : (mode : Bool) (words : List ℕ) → check_result mode words ≢ thrown
unfolding check_result
check_result-ne-thrown mode words h = ground arith

pub apply_patch_onto_current-ne-thrown :
    (s : CortexState) (p : Patch) (mode : Bool) → apply_patch_onto_current s p mode ≢ thrown
unfolding apply_patch_onto_current write_and_check
apply_patch_onto_current-ne-thrown s p mode h =
    elim (PatchResult-cases (apply_words p.word_count 0 s.words p)) [
      | inl (words, e) ↦ let no = check_result-ne-thrown mode words in ground (arith, no, e, h)
      | inr (inl (code, e)) ↦ ground (arith, e, h)
      | inr (inr e) ↦ apply_words-ne-thrown p.word_count 0 s.words p e
    ]
