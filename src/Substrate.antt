-- ===== src/Substrate.antt =====
-- src/substrate: the typed records that the words of a state hold, and the slot that is written next.
pub mod PolicyAtoms
pub mod Counts
pub mod Fields
pub mod Temporal
pub mod SlotPolicy
pub mod RetrievalKeys
pub mod LensDiversity
pub mod Decode
pub mod MemoryIndex
pub mod Codebook
pub mod Relations
