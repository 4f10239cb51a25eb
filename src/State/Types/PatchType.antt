-- ===== src/State/Types/PatchType.antt =====
-- src/state/types.ts: `PATCH_TYPE`, the type byte of a patch.
use coretex_client.Prelude.{ℕ}

abbrev pub key_update : ℕ
key_update = 0x01

abbrev pub slot_replace : ℕ
slot_replace = 0x02

abbrev pub temporal_update : ℕ
temporal_update = 0x03

abbrev pub relation_update : ℕ
relation_update = 0x04

abbrev pub codebook_update : ℕ
codebook_update = 0x05

abbrev pub header_update : ℕ
header_update = 0x06

abbrev pub policy_update : ℕ
policy_update = 0x07

abbrev pub mixed : ℕ
mixed = 0xff
