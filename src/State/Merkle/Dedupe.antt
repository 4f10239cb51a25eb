-- ===== src/State/Merkle/Dedupe.antt =====
-- The deduplicated updates write the same words as the updates in their order.
use coretex_client.Prelude.{
  ℕ, zero, suc, ◌+◌, ◌<◌, ◌≡◌, refl, sym, ap, ◌∙◌, List, [], ◌∷◌, map, true, false, ◌||◌, ◌==◌,
  arith, contains, length, length-set, set, get_or, get_or-set_ne, set_comm, set-set, map-set, drop,
  drop_all, All, leb,
}
use coretex_client.State.Merkle.{
  Digest, MerkleWordUpdate, ok, ok-injective, leaf, leaves, map_set, dedupe, add_to_set,
  write_leaves, dirty_leaves,
}
use coretex_client.State.Merkle.Levels.{AgreeOff, contains-add_to_set}
use coretex_client.State.Codec.Bytes.{drop-step}
use native.Mathlib.Decide.{ℕ_discrete}

-- The words after the updates, each written in its turn.
unfoldable pub write_words : List MerkleWordUpdate → List ℕ → List ℕ
write_words [] words = words
write_words (u ∷ us) words = write_words us (set words u.index u.word)

-- The words after the entries of a map.
pub write_map : List (ℕ × ℕ) → List ℕ → List ℕ
write_map [] words = words
write_map ((i, w) ∷ m) words = write_map m (set words i w)

abbrev keys : List (ℕ × ℕ) → List ℕ
keys [] = []
keys ((i, w) ∷ m) = i ∷ keys m

-- No key stands twice.
abbrev HasDistinctKeys : List (ℕ × ℕ) → Type 0
HasDistinctKeys [] = Unit {0}
HasDistinctKeys ((i, w) ∷ m) = (contains i (keys m) ≡ false) × HasDistinctKeys m

contains-map_set :
    (i w j : ℕ) (m : List (ℕ × ℕ))
    → contains j (keys (map_set i w m)) ≡ (contains j (keys m) || j == i)
unfolding map_set
contains-map_set i w j [] = ground arith
contains-map_set i w j ((k, v) ∷ m) = ground (arith, contains-map_set i w j m)

map_set-HasDistinctKeys :
    (i w : ℕ) (m : List (ℕ × ℕ)) → HasDistinctKeys m → HasDistinctKeys (map_set i w m)
unfolding map_set
map_set-HasDistinctKeys i w [] h = (refl, tt)
map_set-HasDistinctKeys i w ((k, v) ∷ m) h =
    ground (arith, map_set-HasDistinctKeys i w m h.1, contains-map_set i w k m)

-- A word that no entry writes can be written first.
write_map-set :
    (i w : ℕ) (m : List (ℕ × ℕ)) (words : List ℕ)
    → contains i (keys m) ≡ false
    → write_map m (set words i w) ≡ set (write_map m words) i w
unfolding write_map
write_map-set i w [] words h = refl
write_map-set i w ((k, v) ∷ m) words h =
    rw (set_comm words i k w v (ground arith)) (write_map-set i w m (set words k v) (ground arith))

write_map-map_set :
    (i w : ℕ) (m : List (ℕ × ℕ)) (words : List ℕ)
    → HasDistinctKeys m
    → write_map (map_set i w m) words ≡ set (write_map m words) i w
unfolding write_map map_set
write_map-map_set i w [] words h = refl
write_map-map_set i w ((k, v) ∷ m) words h = elim (ℕ_discrete i k) [
  | yes e ↦
      let found : (i == k) ≡ true = ground arith in
      rw (found, e, ← write_map-set k w m (set words k v) h.0, set-set words k v w)
  | no ne ↦
      let other : (i == k) ≡ false = ground arith in
      rw other (write_map-map_set i w m (set words k v) h.1)
]

-- What `dedupe` collects writes the updates behind the entries that were there.
dedupe-write_words :
    (us : List MerkleWordUpdate) (m m' : List (ℕ × ℕ)) (words : List ℕ)
    → HasDistinctKeys m
    → dedupe us m ≡ ok m'
    → write_map m' words ≡ write_words us (write_map m words)
unfolding dedupe write_words
dedupe-write_words [] m m' words h e = ap (λ t. write_map t words) (sym (ok-injective e))
dedupe-write_words (u ∷ us) m m' words h e =
    let inside : dedupe us (map_set u.index u.word m) ≡ ok m' = ground arith in
    dedupe-write_words us (map_set u.index u.word m) m' words
      (map_set-HasDistinctKeys u.index u.word m h) inside
    ∙ ap (write_words us) (write_map-map_set u.index u.word m words h)

pub dedupe_fresh :
    (us : List MerkleWordUpdate) (m : List (ℕ × ℕ)) (words : List ℕ)
    → dedupe us [] ≡ ok m
    → write_map m words ≡ write_words us words
unfolding write_map
dedupe_fresh us m words e = dedupe-write_words us [] m words tt e

pub dedupe_total :
    (us : List MerkleWordUpdate) (m : List (ℕ × ℕ))
    → All (λ u. u.index < 1024) us
    → (m' : List (ℕ × ℕ)) × (dedupe us m ≡ ok m')
unfolding dedupe
dedupe_total [] m h = (m, refl)
dedupe_total (u ∷ us) m (hu, hus) =
    let inside : leb 1024 u.index ≡ false = ground arith in
    rw inside (dedupe_total us (map_set u.index u.word m) hus)

-- The leaves are the digests of the words.
pub leaves-map :
    (n i : ℕ) (words : List ℕ) → length words ≡ i + n → leaves n i words ≡ map leaf (drop i words)
unfolding leaves
leaves-map zero i words h = rw (drop_all i words (omega arith))
leaves-map (suc n) i words h =
    rw (drop-step words i (omega arith))
      (ap (λ t. leaf (get_or words i 0) ∷ t) (leaves-map n (suc i) words (omega arith)))

pub write_leaves-map :
    (m : List (ℕ × ℕ)) (words : List ℕ)
    → write_leaves m (map leaf words) ≡ map leaf (write_map m words)
unfolding write_leaves write_map
write_leaves-map [] words = refl
write_leaves-map ((i, w) ∷ m) words =
    rw (← map-set leaf words i w) (write_leaves-map m (set words i w))

contains-dirty_leaves_acc :
    (i : ℕ) (m : List (ℕ × ℕ)) (acc : List ℕ)
    → contains i acc ≡ true
    → contains i (dirty_leaves m acc) ≡ true
unfolding dirty_leaves
contains-dirty_leaves_acc i [] acc h = h
contains-dirty_leaves_acc i ((j, w) ∷ m) acc h =
    contains-dirty_leaves_acc i m (add_to_set j acc) (ground (arith, contains-add_to_set i j acc))

write_leaves_clean :
    (m : List (ℕ × ℕ)) (level : List Digest) (acc : List ℕ) (i : ℕ)
    → contains i (dirty_leaves m acc) ≡ false
    → get_or (write_leaves m level) i [] ≡ get_or level i []
unfolding write_leaves dirty_leaves
write_leaves_clean [] level acc i clean = refl
write_leaves_clean ((j, w) ∷ m) level acc i clean =
    write_leaves_clean m (set level j (leaf w)) (add_to_set j acc) i clean
    ∙ get_or-set_ne level j i (leaf w) [] (λ e. cc (
      clean,
      e,
      contains-dirty_leaves_acc j m (add_to_set j acc)
          (ground (arith, contains-add_to_set j j acc)),
    ))

length-write_leaves :
    (m : List (ℕ × ℕ)) (level : List Digest) → length (write_leaves m level) ≡ length level
unfolding write_leaves
length-write_leaves [] level = refl
length-write_leaves ((i, w) ∷ m) level =
    length-write_leaves m (set level i (leaf w)) ∙ length-set level i (leaf w)

pub write_leaves-AgreeOff :
    (m : List (ℕ × ℕ)) (level : List Digest)
    → AgreeOff (dirty_leaves m []) (write_leaves m level) level
write_leaves-AgreeOff m level = record {
  same_length = length-write_leaves m level;
  same = write_leaves_clean m level [];
}
