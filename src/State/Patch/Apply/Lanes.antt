-- ===== src/State/Patch/Apply/Lanes.antt =====
-- The two ways to apply a patch, compared, and what policy mode keeps out of a state.
use coretex_client.Prelude.{
  ℕ, zero, suc, ◌+◌, ◌≤◌, ◌<◌, ◌≡◌, refl, ap, List, Bool, true, false, not, ◌||◌, ◌==◌,
  if◌then◌else◌, arith, contains, length, get_or, get_elem?-get_or, drop, drop_all, drop-eq-get_or,
  ==_iff, All, Bool-cases, inl, inr,
}
use coretex_client.State.Types.Ranges
use coretex_client.State.Types.{
  IsWord, CortexState, IsState, Patch, ok, err, wrong_parent_root, over_budget,
}
use coretex_client.State.Merkle.{cache_of}
use coretex_client.State.Merkle.Update.{merkleize_state-cache_of}
use coretex_client.State.Patch.Rules.{within, any_index, patch_touches_header}
use coretex_client.State.Patch.Apply.{over, bytes_equal, apply_patch, apply_patch_onto_current}
use coretex_client.State.Patch.Apply.Result.{apply_checks, apply_patch_onto_current-IsApplied}

-- On a state of 1024 words `applyPatch` is, behind the budget and the parent-root checks,
-- `applyPatchOntoCurrent`.
pub apply_patch-eq-onto_current :
    (s : CortexState) (p : Patch) (mode : Bool)
    → length s.words ≡ 1024
    → apply_patch s p mode ≡ (
        if over p
        then err over_budget
        else if not (bytes_equal p.parent_state_root (cache_of s.words).root)
        then err wrong_parent_root
        else apply_patch_onto_current s p mode)
unfolding apply_patch apply_patch_onto_current
apply_patch-eq-onto_current s p mode len = ground (arith, merkleize_state-cache_of s len)

-- A test that fails at all positions from `k` on fails for all indices there.
any_index-eq-false :
    (q : ℕ → Bool) (n k : ℕ) (is : List ℕ)
    → any_index q n k is ≡ false
    → k + n ≡ length is
    → (x : ℕ) → q x ≡ true
    → contains x (drop k is) ≡ false
unfolding any_index
any_index-eq-false q zero k is h len x hx = rw (drop_all k is (omega (arith, len))) refl
any_index-eq-false q (suc n) k is h len x hx =
    let inside : k < length is = omega (arith, len) in
    let y = get_or is k 0 in
    let step : (q y || any_index q n (suc k) is) ≡ false =
      rw (get_elem?-get_or is k 0 inside) at h in
    let later : any_index q n (suc k) is ≡ false = ground (arith, step) in
    let rest = any_index-eq-false q n (suc k) is later (omega (arith, len)) x hx in
    rw (drop-eq-get_or is k 0 inside) (elim (Bool-cases (x == y)) [
      | inl same ↦
          let e : x ≡ y = (==_iff x y).0 same in
          let no : q y ≡ false = ground (arith, step) in absurd (cc (hx, no, ap q e))
      | inr other ↦ rw (other, rest) refl
    ])

-- In policy mode an applied patch has left the header, words 0 to 31, as it was.
pub apply_patch_onto_current-header :
    (s s' : CortexState) (p : Patch)
    → IsState s
    → All IsWord p.new_words
    → length p.indices ≡ p.word_count
    → apply_patch_onto_current s p true ≡ ok s'
    → (i : ℕ) → i ≤ 31
    → get_or s'.words i 0 ≡ get_or s.words i 0
unfolding patch_touches_header
apply_patch_onto_current-header s s' p hs hw len h i low =
    let (_, _, _, header, _, _) = apply_checks s s' p true h in
    let applied = apply_patch_onto_current-IsApplied s s' p true hs hw len h in
    applied.unchanged i (
      any_index-eq-false (within Ranges.header_start Ranges.header_end) p.word_count 0 p.indices
        (header refl) (omega (arith, len)) i (ground arith))
