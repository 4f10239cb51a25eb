-- ===== src/State/Merkle.antt =====
-- src/state/merkle.ts: the Merkle tree over the words of a state, built whole or updated along the
-- paths of a few words. A `Set` of numbers is a list that holds each once, in insertion order; a
-- `Map` is a list of pairs. The two digests that fill the pair buffer are appended.
pub mod Levels
pub mod Dedupe
pub mod Update
use coretex_client.Prelude.{
  ℕ, zero, suc, ◌+◌, ◌*◌, ◌/◌, ◌≡◌, ap, List, [], ◌∷◌, ◌++◌, Bool, true, false, ◌&&◌, ◌||◌, ltb,
  leb, ◌==◌, not, contains, if◌then◌else◌, length, get_or, set,
}
use coretex_client.State.Types.{CortexState}
use coretex_client.State.Types.Ranges
use coretex_client.State.Codec.{word_bytes}
use coretex_client.State.Keccak.{keccak256}

pub data MerkleError : Type 0 where
  wrong_word_count invalid_cache_shape index_out_of_range : MerkleError

pub data MerkleResult (A : Type 0) : Type 0 where
  ok : A → MerkleResult A
  err : MerkleError → MerkleResult A

abbrev value_or : {A : Type 0} → A → MerkleResult A → A
value_or d (ok a) = a
value_or d (err e) = d

pub ok-injective : {A : Type 0} {a b : A} → ok a ≡ ok b → a ≡ b
ok-injective {a} h = ap (value_or a) h

abbrev pub Digest : Type 0
Digest = List ℕ

-- `MerkleTreeCache`
pub record MerkleTreeCache : Type 0 where
  pub levels : List (List Digest)
  pub root : Digest

-- `MerkleWordUpdate`
pub record MerkleWordUpdate : Type 0 where
  pub index : ℕ
  pub word : ℕ

pub leaf : ℕ → Digest
leaf w = keccak256 (word_bytes w)

-- The leaves from word `i` on, with `n` to go.
pub leaves : ℕ → ℕ → List ℕ → List Digest
leaves zero i words = []
leaves (suc n) i words = leaf (get_or words i 0) ∷ leaves n (suc i) words

-- The parent of the nodes `2 * i` and `2 * i + 1`.
pub node : List Digest → ℕ → Digest
node level i = keccak256 (get_or level (i * 2) [] ++ get_or level (i * 2 + 1) [])

nodes : ℕ → ℕ → List Digest → List Digest
nodes zero i level = []
nodes (suc n) i level = node level i ∷ nodes n (suc i) level

pub next_level : List Digest → List Digest
next_level level = nodes (length level / 2) 0 level

-- `while (level.length > 1)`: the level, and those above it.
pub build_levels : ℕ → List Digest → List (List Digest)
build_levels zero level = level ∷ []
build_levels (suc fuel) level =
    let above = build_levels fuel (next_level level) in
    level ∷ (if ltb 1 (length level) then above else [])

-- `level[0]` of the last level.
pub top : List (List Digest) → Digest
top [] = []
top (level ∷ []) = get_or level 0 []
top (level ∷ next ∷ above) = top (next ∷ above)

-- A round halves the level, so ten are enough.
pub cache_of : List ℕ → MerkleTreeCache
cache_of words =
    let levels = build_levels 10 (leaves Ranges.word_count 0 words) in
    record { levels = levels; root = top levels }

pub build_merkle_cache : CortexState → MerkleResult MerkleTreeCache
build_merkle_cache s =
    if length s.words == Ranges.word_count then ok (cache_of s.words) else err wrong_word_count

-- `merkleizeState`, with its TypeError.
pub merkleize_state : CortexState → MerkleResult Digest
unfolding build_merkle_cache
merkleize_state s = elim (build_merkle_cache s) [ ok cache ↦ ok cache.root | err e ↦ err e ]

-- `deduped.set(index, word)`
pub map_set : ℕ → ℕ → List (ℕ × ℕ) → List (ℕ × ℕ)
map_set i w [] = (i, w) ∷ []
map_set i w ((j, v) ∷ m) = if i == j then (j, w) ∷ m else (j, v) ∷ map_set i w m

pub dedupe : List MerkleWordUpdate → List (ℕ × ℕ) → MerkleResult (List (ℕ × ℕ))
dedupe [] m = ok m
dedupe (u ∷ us) m =
    if leb Ranges.word_count u.index
    then err index_out_of_range
    else dedupe us (map_set u.index u.word m)

-- `set.add(i)`
pub add_to_set : ℕ → List ℕ → List ℕ
add_to_set i s = if contains i s then s else s ++ (i ∷ [])

pub write_leaves : List (ℕ × ℕ) → List Digest → List Digest
write_leaves [] level = level
write_leaves ((i, w) ∷ m) level = write_leaves m (set level i (leaf w))

pub dirty_leaves : List (ℕ × ℕ) → List ℕ → List ℕ
dirty_leaves [] dirty = dirty
dirty_leaves ((i, w) ∷ m) dirty = dirty_leaves m (add_to_set i dirty)

pub parents_of : List ℕ → List ℕ → List ℕ
parents_of [] parents = parents
parents_of (child ∷ dirty) parents = parents_of dirty (add_to_set (child / 2) parents)

-- The parents' digests from the level below, written into the level above.
pub write_parents : List ℕ → List Digest → List Digest → List Digest
write_parents [] current next = next
write_parents (p ∷ ps) current next = write_parents ps current (set next p (node current p))

-- The loop over the depths, from an updated level and its dirty nodes.
pub update_levels : List ℕ → List Digest → List (List Digest) → List (List Digest)
update_levels dirty current [] = current ∷ []
update_levels dirty current (next ∷ above) =
    let parents = parents_of dirty [] in
    current ∷ update_levels parents (write_parents parents current next) above

pub update_from : List (ℕ × ℕ) → List (List Digest) → MerkleTreeCache
update_from m [] = record { levels = []; root = [] }
update_from m (level ∷ above) =
    let levels = update_levels (dirty_leaves m []) (write_leaves m level) above in
    record { levels = levels; root = top levels }

abbrev leaf_count : List (List Digest) → ℕ
leaf_count [] = 0
leaf_count (level ∷ above) = length level

-- Behind the shape check: no update leaves the cache as it is.
update_checked : MerkleTreeCache → List MerkleWordUpdate → MerkleResult MerkleTreeCache
update_checked cache [] = ok cache
update_checked cache (u ∷ us) = elim (dedupe (u ∷ us) []) [
  | ok m ↦ ok (update_from m cache.levels)
  | err e ↦ err e
]

pub update_merkle_cache : MerkleTreeCache → List MerkleWordUpdate → MerkleResult MerkleTreeCache
unfolding update_checked
update_merkle_cache cache updates =
    if not (length cache.levels == 11) || not (leaf_count cache.levels == Ranges.word_count)
    then err invalid_cache_shape
    else update_checked cache updates
