-- ===== src/State.antt =====
-- src/state: the packed state, its codec, its Merkle root, and the patches that change it.
pub mod Keccak
pub mod Types
pub mod Codec
pub mod Hex
pub mod Merkle
pub mod Validate
pub mod Patch
