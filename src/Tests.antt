-- ===== src/Tests.antt =====
-- The theorems at concrete inputs.
mod State
mod Rewards
mod Reducers
mod Substrate
mod Workers
mod Bonus
mod Corpus
mod Frontier
