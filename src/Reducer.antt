-- ===== src/Reducer.antt =====
-- src/reducer: acceptance of patches, in a batch and live.
pub mod Accept
pub mod Batch
pub mod Live
pub mod Eligibility
pub mod Bonus
pub mod Funding
