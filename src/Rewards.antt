-- ===== src/Rewards.antt =====
-- src/rewards: work units, thresholds and qualification.
pub mod Numeric
pub mod Policy
pub mod Default
pub mod WorkUnits
pub mod Tiers
pub mod Bounds
pub mod Qualification
pub mod Difficulty
