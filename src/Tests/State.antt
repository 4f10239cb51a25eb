-- ===== src/Tests/State.antt =====
-- The theorems on the packed state, the Merkle tree and the patch types, at concrete inputs.
use coretex_client.Prelude.{
  ℕ, zero, suc, ◌<◌, ◌≡◌, ◌↔◌, refl, List, [], ◌∷◌, arith, All, length, length-replicate, replicate,
}
use coretex_client.State.Types.{IsByte, CortexState, IsState}
use coretex_client.State.Types.PatchType
use coretex_client.State.Codec.{pack, unpack}
use coretex_client.State.Codec
use coretex_client.State.Codec.Packing.{unpack-pack, pack-unpack}
use coretex_client.State.Merkle.{
  cache_of, build_merkle_cache, update_merkle_cache, MerkleWordUpdate,
}
use coretex_client.State.Merkle
use coretex_client.State.Merkle.Dedupe.{write_words}
use coretex_client.State.Merkle.Update.{update-build_merkle_cache}
use coretex_client.State.Patch.Rules.{validate_patch_type, valid}
use coretex_client.State.Patch.Rules.Regions.{MayWrite, IsKnown, Distinct, validate_patch_type_iff}
use coretex_client.State.Patch.Apply.Tests.{zero_state, zero_state-IsState}

unpack-pack_example :
    (bytes : List ℕ) × (pack zero_state ≡ Codec.ok bytes)
    × (length bytes ≡ 32768)
    × All IsByte bytes
    × (unpack bytes ≡ Codec.ok zero_state)
unpack-pack_example = unpack-pack zero_state zero_state-IsState

zero_bytes : (n : ℕ) → All IsByte (replicate n 0)
zero_bytes zero = tt
zero_bytes (suc n) = (omega arith, zero_bytes n)

pack-unpack_example :
    (s : CortexState) × (unpack (replicate 32768 0) ≡ Codec.ok s)
    × IsState s
    × (pack s ≡ Codec.ok (replicate 32768 0))
pack-unpack_example =
    pack-unpack (replicate 32768 0) (zero_bytes 32768) (length-replicate {A = ℕ} 32768 0)

-- One index twice: the later word counts.
abbrev two_updates : List MerkleWordUpdate
two_updates = record { index = 300; word = 5 } ∷ record { index = 300; word = 6 } ∷ []

update-build_merkle_cache_example :
    (build_merkle_cache (record { words = zero_state.words })
      ≡ Merkle.ok (cache_of zero_state.words))
    × (update_merkle_cache (cache_of zero_state.words) two_updates
        ≡ Merkle.ok (cache_of (write_words two_updates zero_state.words)))
update-build_merkle_cache_example =
    update-build_merkle_cache zero_state.words two_updates refl (omega arith, (omega arith, tt))

validate_patch_type_iff_example :
    (validate_patch_type PatchType.slot_replace (300 ∷ 301 ∷ []) ≡ valid) ↔ (
      IsKnown PatchType.slot_replace
      × All (λ i. i < 992) (300 ∷ 301 ∷ [])
      × Distinct (300 ∷ 301 ∷ [])
      × All (MayWrite PatchType.slot_replace) (300 ∷ 301 ∷ []))
validate_patch_type_iff_example = validate_patch_type_iff PatchType.slot_replace (300 ∷ 301 ∷ [])
