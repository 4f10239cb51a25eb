-- ===== src/State/Patch.antt =====
-- src/state/patch.ts: which patches are well formed, their bytes on the wire, and what applying
-- one does to a state.
pub mod Rules
pub mod Wire
pub mod Apply
