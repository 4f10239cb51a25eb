-- ===== src/Coordinator.antt =====
-- src/coordinator: what the coordinator keeps across epochs.
pub mod Frontier
