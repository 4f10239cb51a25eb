-- ===== src/State/Merkle/Update.antt =====
-- An updated cache is the cache of the updated words.
use coretex_client.Prelude.{
  ℕ, zero, suc, ◌<◌, ◌≡◌, refl, sym, ap, ◌∙◌, List, [], ◌∷◌, map, arith, length, length-set, All,
}
use coretex_client.State.Types.{CortexState}
use coretex_client.State.Merkle.{
  MerkleWordUpdate, ok, leaf, leaves, leaf_count, build_levels, top, cache_of, build_merkle_cache,
  merkleize_state, dedupe, update_levels, write_leaves, dirty_leaves, update_from, update_checked,
  update_merkle_cache,
}
use coretex_client.State.Merkle.Levels.{
  above, build_levels-above, update_levels-build_levels, build_levels_height,
}
use coretex_client.State.Merkle.Dedupe.{
  write_words, dedupe_fresh, dedupe_total, leaves-map, write_leaves-map, write_leaves-AgreeOff,
}

length-leaves : (n i : ℕ) (words : List ℕ) → length (leaves n i words) ≡ n
unfolding leaves
length-leaves zero i words = refl
length-leaves (suc n) i words = ap suc (length-leaves n (suc i) words)

pub length-write_words :
    (us : List MerkleWordUpdate) (words : List ℕ) → length (write_words us words) ≡ length words
unfolding write_words
length-write_words [] words = refl
length-write_words (u ∷ us) words = length-write_words us _ ∙ length-set words u.index u.word

-- A cache has eleven levels.
pub cache_height : (words : List ℕ) → length (cache_of words).levels ≡ 11
unfolding cache_of
cache_height words =
    build_levels_height 10 10 (leaves 1024 0 words) (length-leaves 1024 0 words) (omega arith)

-- The updated levels.
update_from-cache_of :
    (words : List ℕ) (us : List MerkleWordUpdate) (m : List (ℕ × ℕ))
    → length words ≡ 1024
    → dedupe us [] ≡ ok m
    → update_from m (cache_of words).levels ≡ cache_of (write_words us words)
unfolding cache_of update_from
update_from-cache_of words us m len e =
    let level = leaves 1024 0 words in
    let as_map : level ≡ map leaf words = leaves-map 1024 0 words len in
    let new_leaves : write_leaves m level ≡ leaves 1024 0 (write_words us words) =
      ap (write_leaves m) as_map
      ∙ write_leaves-map m words
      ∙ ap (map leaf) (dedupe_fresh us m words e)
      ∙ sym (leaves-map 1024 0 (write_words us words) (length-write_words us words ∙ len)) in
    let new_levels : update_levels (dirty_leaves m []) (write_leaves m level)
          (above (build_levels 10 level))
        ≡ build_levels 10 (leaves 1024 0 (write_words us words)) =
      update_levels-build_levels 10 (dirty_leaves m []) (write_leaves m level) level
        (write_leaves-AgreeOff m level)
      ∙ ap (build_levels 10) new_leaves in
    rw (build_levels-above 10 level)
      (ap (λ levels. record { levels = levels; root = top levels }) new_levels)

leaf_count-cache_of : (words : List ℕ) → leaf_count (cache_of words).levels ≡ 1024
unfolding cache_of
leaf_count-cache_of words =
    rw (build_levels-above 10 (leaves 1024 0 words)) (length-leaves 1024 0 words)

update_checked-cache_of :
    (words : List ℕ) (us : List MerkleWordUpdate)
    → length words ≡ 1024
    → All (λ u. u.index < 1024) us
    → update_checked (cache_of words) us ≡ ok (cache_of (write_words us words))
unfolding update_checked write_words
update_checked-cache_of words [] len h = refl
update_checked-cache_of words (u ∷ us) len h =
    let (m, e) = dedupe_total (u ∷ us) [] h in
    rw (e, update_checked) (ap ok (update_from-cache_of words (u ∷ us) m len e))

-- Updating the cache of 1024 words, at word indices, gives the cache that is built from the
-- updated words: every level and the root are the same.
pub update-build_merkle_cache :
    (words : List ℕ) (us : List MerkleWordUpdate)
    → length words ≡ 1024
    → All (λ u. u.index < 1024) us
    → (build_merkle_cache (record { words = words }) ≡ ok (cache_of words))
      × (update_merkle_cache (cache_of words) us ≡ ok (cache_of (write_words us words)))
unfolding build_merkle_cache update_merkle_cache
update-build_merkle_cache words us len h = (
  rw len,
  rw (cache_height words, leaf_count-cache_of words) (update_checked-cache_of words us len h),
)

-- The root of a state of 1024 words.
pub merkleize_state-cache_of :
    (s : CortexState) → length s.words ≡ 1024 → merkleize_state s ≡ ok (cache_of s.words).root
unfolding merkleize_state build_merkle_cache
merkleize_state-cache_of s len = rw (len, merkleize_state, build_merkle_cache)
