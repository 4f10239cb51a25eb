-- ===== src/Lib.antt =====
-- The core of the CoreTex client: the state of 1024 words, its patches, the reducers that advance
-- it, and the rewards for advancing it.
--
-- The parts. A state (src/state/types.ts) is 1024 words of 256 bits. It is packed into 32768 bytes
-- (src/state/codec.ts), hashed by Keccak-256 (src/state/keccak256.ts) in a binary Merkle tree
-- (src/state/merkle.ts), and checked for reserved bits and policy regions (src/state/validate.ts,
-- and the policy atoms of src/substrate/retrieval-decoder.ts). A patch (src/state/patch.ts) has a
-- wire format with LEB128 indices, is validated against the regions of its type, and is applied to a
-- state. The batch reducer (src/reducer/reducer.ts) sorts the patches of an epoch and applies them
-- greedily; the live lane (src/reducer/live-epoch.ts) applies them as they arrive and keeps the
-- Merkle cache by incremental updates; both take the step of src/reducer/accept-core.ts. The ledger
-- of src/reducer/eligibility.ts issues credits, and src/rewards/work-units.ts computes work units,
-- screener thresholds and qualification; src/rewards/difficulty.ts moves the threshold from epoch to
-- epoch. The bonus leaves of src/reducer/multiplier-cap.ts are funded through the Merkle tree of
-- src/reducer/funding-tx.ts, whose proofs the miners claim with. The words of a state hold typed
-- records, which src/substrate/retrieval-decoder.ts decodes and encodes, and
-- src/substrate/slot-policy.ts says which slot is written next. The coordinator rotates the active
-- evaluation ids (src/coordinator/epoch-frontier.ts), and hands patches to a pool of worker threads
-- (src/workers/pool.ts). Events enter the corpus of the evaluation by the policy of
-- src/corpus/admission.ts.
--
-- The files.
--   Prelude, Bits: shared names, lists, Boolean tests, integers, and bits of natural numbers.
--   State.Types (types.ts): `CortexState`, `Patch`, ranges, patch types.
--   State.Codec (codec.ts): `pack`, `unpack`, `getField`, `setField`; proofs in Bytes, Packing.
--   State.Keccak (keccak256.ts): `keccak256`; a 64-bit lane is two 32-bit halves, as in the source.
--   State.Merkle (merkle.ts): `buildMerkleCache`, `updateMerkleCache`; proofs in Levels, Dedupe,
--     Update.
--   State.Hex (merkle.ts): `bytesToHex`, `hexToBytes`.
--   State.Validate (validate.ts) and Substrate.PolicyAtoms (retrieval-decoder.ts).
--   Substrate.MemoryIndex, Relations, Temporal, Codebook, RetrievalKeys (retrieval-decoder.ts): the
--     decoder of a region, by a function for one word or slot, and its encoder; proofs in the
--     modules RoundTrip. Substrate.Decode: `decodeSubstrate`; proofs in Counts, Laws. Counts, Fields:
--     sizes, and words that are put together from fields. Substrate.LensDiversity:
--     `checkLensDiversity`.
--   Substrate.SlotPolicy (slot-policy.ts): `selectSubstrateSlot`; proofs in Select.
--   State.Patch.Rules, Wire, Apply (patch.ts): `validatePatchType` and the policy-write rules,
--     `encodePatch` and `decodePatch`, `applyPatch` and `applyPatchOntoCurrent`.
--   Reducer.Accept (accept-core.ts), Reducer.Batch (reducer.ts), Reducer.Live (live-epoch.ts),
--     Reducer.Eligibility (eligibility.ts).
--   Reducer.Bonus (multiplier-cap.ts); proofs in Leaves. Reducer.Funding (funding-tx.ts); proofs in
--     Pairs, Climb, Proofs.
--   Rewards.Numeric, Policy, Default, WorkUnits (work-units.ts); proofs in Tiers, Bounds,
--     Qualification. Rewards.Difficulty (difficulty.ts); proofs in Bounds.
--   Workers.Pool (pool.ts): `eval`, `_dispatch`, `_onMessage`, `_onWorkerError`, `close` as functions
--     on the state of the pool; Slots has its map of maps, Step the events as steps. Proofs in
--     Invariant, Events, Failure, Progress, Drain.
--   Coordinator.Frontier (epoch-frontier.ts): `stepEpoch` and `addReserveIds` on the state that the
--     closures share; Order has the order of the reserve, Rate the churn. Proofs in Invariant, Window.
--   Corpus.Admission (admission.ts): `admitCorpusBatch`; proofs in Laws, for one event, and Batch.
--   Tests and the modules named Tests: the theorems and the functions at concrete inputs.
--
-- Conventions. A `bigint` word is a natural number below 2 ^ 256, a byte array a list of bytes, a
-- signed `bigint` an integer. A thrown exception is a value of a result type, or `none` in the
-- reducers. A string is the list of its character codes. Loops are structural, on a list or on a
-- count: the five rounds of `encodeLEB128` cover 32 bits, the ten levels above the leaves cover 1024
-- words, the absorption of Keccak has as many rounds as the message has bytes, and a level of the
-- funding tree has at most as many levels above it as it has nodes. The rounds that fill the reserve
-- of the frontier are at most the ids.
--
-- Parameters. A marginal evaluator, which in production scores a state with neural models, is any
-- function of a state and a patch; the tier credits of a miner are any function of the address.
-- Floating-point numbers are no numbers of this development: the ratios of the difficulty and the
-- average of the frontier are values of any type, with the operations that the source applies to
-- them. The order of `localeCompare` and the SHA-256 of the runtime are any functions. A norm of a
-- retrieval key is kept as the bits of its binary32, and the lens
-- diversity computes with the bits of binary64 by operations that are a parameter. The members that a
-- plain object of the runtime inherits are any function of a name.
--
-- Not modelled: the wrappers that render a state root as text; the hash of the work policy over
-- canonical JSON; the encoder of retrieval keys; the restored state of the frontier and its launch
-- profile; evaluation, the rest of the coordinator, replay and the command
-- lines, which are floating-point scoring, network and files.
pub mod Prelude
pub mod Bits
pub mod Substrate
pub mod State
pub mod Rewards
pub mod Reducer
pub mod Workers
pub mod Coordinator
pub mod Corpus
pub mod Tests
