-- ===== src/State/Types.antt =====
-- src/state/types.ts: states, patches, error codes and word ranges.
-- A `bigint` word is a natural number below 2 ^ 256 (`IsWord`); a byte array is a list of bytes.
pub mod PatchType
pub mod Ranges
use coretex_client.Prelude.{ℕ, ◌^◌, ◌<◌, ◌≡◌, ap, List, [], ◌∷◌, length, All}
use coretex_client.Prelude.Int.{ℤ}

abbrev pub IsByte : ℕ → Type 0
IsByte b = b < 256

abbrev pub IsWord : ℕ → Type 0
IsWord w = w < 2 ^ 256

-- `CortexState`
pub record CortexState : Type 0 where
  pub words : List ℕ

-- A state has exactly 1024 words of 256 bits.
pub record IsState (s : CortexState) : Type 0 where
  pub word_count : length s.words ≡ 1024
  pub word_size : All IsWord s.words

-- The stable codes E01 to E05, under their names in `ERROR_NAMES`.
pub data PatchErrorCode : Type 0 where
  wrong_parent_root wrong_type_field over_budget reserved_bit_set noop_patch : PatchErrorCode

-- `PatchResult`, for any result. `thrown` is no such value: the call threw a TypeError.
pub data PatchResult (A : Type 0) : Type 0 where
  ok : A → PatchResult A
  err : PatchErrorCode → PatchResult A
  thrown : PatchResult A

abbrev value_or : {A : Type 0} → A → PatchResult A → A
value_or d (ok a) = a
value_or d (err e) = d
value_or d thrown = d

pub ok-injective : {A : Type 0} {a b : A} → ok a ≡ ok b → a ≡ b
ok-injective {a} h = ap (value_or a) h

-- `Patch`. The score delta is a signed integer.
pub record Patch : Type 0 where
  pub patch_type : ℕ
  pub word_count : ℕ
  pub score_delta : ℤ
  pub parent_state_root : List ℕ
  pub indices : List ℕ
  pub new_words : List ℕ

-- A row of `PATCH_TYPE_RANGE_TABLE`.
pub record RangeRow : Type 0 where
  pub type_byte : ℕ
  pub start : ℕ
  pub end : ℕ

-- `PATCH_TYPE_RANGE_TABLE`
unfoldable pub patch_type_range_table : List RangeRow
patch_type_range_table =
    record {
      type_byte = PatchType.key_update;
      start = Ranges.retrieval_keys_start;
      end = Ranges.retrieval_keys_end;
    }
    ∷ record {
      type_byte = PatchType.slot_replace;
      start = Ranges.memory_index_start;
      end = Ranges.memory_index_end;
    }
    ∷ record {
      type_byte = PatchType.temporal_update;
      start = Ranges.temporal_start;
      end = Ranges.temporal_end;
    }
    ∷ record {
      type_byte = PatchType.relation_update;
      start = Ranges.relations_start;
      end = Ranges.relations_end;
    }
    ∷ record {
      type_byte = PatchType.codebook_update;
      start = Ranges.codebook_start;
      end = Ranges.codebook_end;
    }
    ∷ record {
      type_byte = PatchType.header_update;
      start = Ranges.header_start;
      end = Ranges.header_end;
    }
    ∷ record {
      type_byte = PatchType.policy_update;
      start = Ranges.policy_evidence_start;
      end = Ranges.policy_abstention_end;
    }
    ∷ []
