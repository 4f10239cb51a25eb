-- ===== src/State/Patch/Apply/Words.antt =====
-- The writes of a patch, as a list of word updates in their order.
use coretex_client.Prelude.{
  ℕ, zero, suc, ◌+◌, ◌<◌, ◌≡◌, ◌≢◌, refl, ap, ◌∙◌, List, [], ◌∷◌, some, true, false, arith,
  contains, length, length-set, get_elem?, get_or, set, get_or-set_self, get_or-set_ne,
  get_elem?-get_or, drop-eq-get_or, drop, drop_all, All,
}
use coretex_client.State.Types.{IsWord, Patch, ok}
use coretex_client.State.Merkle.{MerkleWordUpdate}
use coretex_client.State.Merkle.Dedupe.{write_words}
use coretex_client.State.Patch.Rules.Regions.{Distinct}
use coretex_client.State.Patch.Apply.{old_word, any_change, write_position, apply_words}
use native.Mathlib.Decide.{ℕ_discrete}

-- `indices.map((index, i) => ({ index, word: newWords[i] ?? 0n }))`, from position `k` on.
unfoldable pub index_updates : ℕ → List ℕ → List ℕ → List MerkleWordUpdate
index_updates k [] ws = []
index_updates k (i ∷ is) ws =
    record { index = i; word = get_or ws k 0 } ∷ index_updates (suc k) is ws

abbrev pub updates_of : Patch → List MerkleWordUpdate
updates_of p = index_updates 0 p.indices p.new_words

write_position-set :
    (words : List ℕ) (i w : ℕ) → i < 992 → write_position words (some i) w ≡ ok (set words i w)
unfolding write_position
write_position-set words i w h = ground arith

pub All-get_or :
    (P : ℕ → Type 0) (xs : List ℕ) (k : ℕ) → All P xs → k < length xs → P (get_or xs k 0)
All-get_or P [] k h lt = absurd (omega arith)
All-get_or P (x ∷ xs) zero h lt = h.0
All-get_or P (x ∷ xs) (suc k) h lt = All-get_or P xs k h.1 (omega arith)

apply_words-index_updates :
    (n k : ℕ) (words : List ℕ) (p : Patch)
    → All (λ i. i < 992) p.indices
    → length p.indices ≡ k + n
    → apply_words n k words p
      ≡ ok (write_words (index_updates k (drop k p.indices) p.new_words) words)
unfolding apply_words index_updates write_words
apply_words-index_updates zero k words p h len = rw (drop_all k p.indices (omega arith))
apply_words-index_updates (suc n) k words p h len =
    let i = get_or p.indices k 0 in
    let w = get_or p.new_words k 0 in
    let step : write_position words (get_elem? p.indices k) w ≡ ok (set words i w) =
      rw (get_elem?-get_or p.indices k 0 (omega arith))
        (write_position-set words i w (All-get_or (λ i. i < 992) p.indices k h (omega arith))) in
    rw (step, apply_words, drop-eq-get_or p.indices k 0 (omega arith))
      (apply_words-index_updates n (suc k) (set words i (get_or p.new_words k 0)) p h (omega arith))

-- A patch whose indices lie below the reserved range is written without an error.
pub apply_words-updates_of :
    (words : List ℕ) (p : Patch)
    → All (λ i. i < 992) p.indices
    → length p.indices ≡ p.word_count
    → apply_words p.word_count 0 words p ≡ ok (write_words (updates_of p) words)
apply_words-updates_of words p h len =
    apply_words-index_updates p.word_count 0 words p h (omega (arith, len))

-- A word that no index names keeps its value.
pub write_words_unchanged :
    (k : ℕ) (is ws words : List ℕ) (i : ℕ)
    → contains i is ≡ false
    → get_or (write_words (index_updates k is ws) words) i 0 ≡ get_or words i 0
unfolding index_updates write_words
write_words_unchanged k [] ws words i h = refl
write_words_unchanged k (j ∷ is) ws words i h =
    write_words_unchanged (suc k) is ws (set words j (get_or ws k 0)) i (ground arith)
    ∙ get_or-set_ne words j i (get_or ws k 0) 0 (ground arith)

-- The word that the index at position `j` names has the value at that position.
pub write_words_written :
    (k : ℕ) (is ws words : List ℕ) (j : ℕ)
    → Distinct is
    → j < length is
    → get_or is j 0 < length words
    → get_or (write_words (index_updates k is ws) words) (get_or is j 0) 0 ≡ get_or ws (k + j) 0
unfolding index_updates write_words
write_words_written k [] ws words j d h lt = absurd (omega arith)
write_words_written k (i ∷ is) ws words zero d h lt =
    write_words_unchanged (suc k) is ws (set words i (get_or ws k 0)) i d.0
    ∙ get_or-set_self words i (get_or ws k 0) 0 lt
    ∙ ap (λ (t : ℕ). get_or ws t 0) (let e : k ≡ k + 0 = omega arith in e)
write_words_written k (i ∷ is) ws words (suc j) d h lt =
    write_words_written (suc k) is ws (set words i (get_or ws k 0)) j d.1 (omega arith)
      (omega (arith, length-set words i (get_or ws k 0)))
    ∙ ap (λ (t : ℕ). get_or ws t 0) (let e : suc k + j ≡ k + suc j = omega arith in e)

set-IsWord : (words : List ℕ) (i w : ℕ) → All IsWord words → IsWord w → All IsWord (set words i w)
set-IsWord [] i w h hw = tt
set-IsWord (x ∷ words) zero w h hw = (hw, h.1)
set-IsWord (x ∷ words) (suc i) w h hw = (h.0, set-IsWord words i w h.1 hw)

get_or-IsWord : (ws : List ℕ) (k : ℕ) → All IsWord ws → IsWord (get_or ws k 0)
get_or-IsWord [] k h = omega arith
get_or-IsWord (w ∷ ws) zero h = h.0
get_or-IsWord (w ∷ ws) (suc k) h = get_or-IsWord ws k h.1

pub write_words-IsWord :
    (k : ℕ) (is ws words : List ℕ)
    → All IsWord ws
    → All IsWord words
    → All IsWord (write_words (index_updates k is ws) words)
unfolding index_updates write_words
write_words-IsWord k [] ws words hw h = h
write_words-IsWord k (i ∷ is) ws words hw h =
    write_words-IsWord (suc k) is ws (set words i (get_or ws k 0)) hw
      (set-IsWord words i (get_or ws k 0) h (get_or-IsWord ws k hw))

-- A change that `anyChange` found has a position.
pub any_change_position :
    (n k : ℕ) (words : List ℕ) (p : Patch)
    → length p.indices ≡ k + n
    → any_change n k words p ≡ true
    → (j : ℕ) × (j < length p.indices)
      × (get_or words (get_or p.indices j 0) 0 ≢ get_or p.new_words j 0)
unfolding any_change old_word
any_change_position zero k words p len h = cc
any_change_position (suc n) k words p len h =
    elim (ℕ_discrete (get_or words (get_or p.indices k 0) 0) (get_or p.new_words k 0)) [
      | yes e ↦
          any_change_position n (suc k) words p (omega arith)
            (ground (arith, get_elem?-get_or p.indices k 0))
      | no ne ↦ (k, omega arith, ne)
    ]
