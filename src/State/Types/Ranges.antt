-- ===== src/State/Types/Ranges.antt =====
-- src/state/types.ts: `RANGES`, the word ranges of a state.
use coretex_client.Prelude.{ℕ}

abbrev pub header_start : ℕ
header_start = 0

abbrev pub header_end : ℕ
header_end = 31

abbrev pub memory_index_start : ℕ
memory_index_start = 32

abbrev pub memory_index_end : ℕ
memory_index_end = 383

abbrev pub retrieval_keys_start : ℕ
retrieval_keys_start = 384

abbrev pub retrieval_keys_end : ℕ
retrieval_keys_end = 671

abbrev pub relations_start : ℕ
relations_start = 672

abbrev pub relations_end : ℕ
relations_end = 799

abbrev pub temporal_start : ℕ
temporal_start = 800

abbrev pub temporal_end : ℕ
temporal_end = 895

abbrev pub codebook_start : ℕ
codebook_start = 896

abbrev pub codebook_end : ℕ
codebook_end = 991

abbrev pub reserved_start : ℕ
reserved_start = 992

abbrev pub reserved_end : ℕ
reserved_end = 1023

abbrev pub word_count : ℕ
word_count = 1024

abbrev pub policy_evidence_start : ℕ
policy_evidence_start = 384

abbrev pub policy_evidence_end : ℕ
policy_evidence_end = 511

abbrev pub policy_conflict_start : ℕ
policy_conflict_start = 512

abbrev pub policy_conflict_end : ℕ
policy_conflict_end = 639

abbrev pub policy_abstention_start : ℕ
policy_abstention_start = 640

abbrev pub policy_abstention_end : ℕ
policy_abstention_end = 671

abbrev pub policy_reserved_start : ℕ
policy_reserved_start = 896

abbrev pub policy_reserved_end : ℕ
policy_reserved_end = 991
