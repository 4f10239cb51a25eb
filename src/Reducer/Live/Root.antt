-- ===== src/Reducer/Live/Root.antt =====
-- The live lane keeps the cache of its state.
use coretex_client.Prelude.{
  ℕ, suc, ◌+◌, ◌<◌, ◌≡◌, refl, ◌⊎◌, sym, ap, ◌∙◌, List, [], ◌∷◌, some, true, arith, All, All-append,
  length, get_or, Bool-cases, Option-cases, inl, inr, some-injective,
}
use mathlib.Core.Path.{subst}
use coretex_client.Prelude.Int.{ℤ, pos, ltb_ℤ}
use coretex_client.State.Types.{CortexState, IsState}
use coretex_client.State.Merkle.{
  MerkleResult, MerkleTreeCache, cache_of, build_merkle_cache, update_merkle_cache, merkleize_state,
}
use coretex_client.State.Merkle.Dedupe.{write_words}
use coretex_client.State.Merkle.Update.{update-build_merkle_cache, merkleize_state-cache_of}
use coretex_client.State.Patch.Apply.{bytes_equal}
use coretex_client.State.Patch.Apply.Result.{
  apply_patch_onto_current-IsApplied, apply_patch_onto_current-words,
}
use coretex_client.State.Patch.Apply.Words.{index_updates}
use coretex_client.Reducer.Accept.{
  AcceptStepResult, accepted, rejected, threw, evaluate_and_apply_onto_current, accepted-eq,
  evaluate-ne-threw,
}
use coretex_client.Reducer.Batch.Greedy.{IsDecoded}
use coretex_client.Rewards.Numeric.{WorkResult, bigint, to_big_int}
use coretex_client.Rewards.Policy.{or_zero, assert_valid_coretex_work_policy}
use coretex_client.Rewards.Tiers.{state_advance_units_mono}
use coretex_client.Reducer.Live.{
  LiveRejectionCode, LiveEpochInputPatch, LiveEpochOutput, LiveEpochRewardOptions, LiveProgress,
  merkle_updates, with_rejected, with_advance, advance_with, advance_units, after_step,
  advance_step, advance_loop, finish, start, advance_epoch_state, wrong_parent_root, live_codes,
}

pub record IsLive (threshold : ℤ) (g : LiveProgress) : Type 0 where
  pub well_formed : IsState g.current
  pub cached : g.current_merkle ≡ cache_of g.current.words
  pub gains : All (λ a. ltb_ℤ threshold a.marginal_gain ≡ true) g.advances

advance_with-IsLive :
    (threshold : ℤ) (options : LiveEpochRewardOptions) (item : LiveEpochInputPatch)
    (g g' : LiveProgress) (s : CortexState) (gain : ℤ)
    → IsLive threshold g
    → IsState s
    → All (λ u. u.index < 1024) (merkle_updates 0 item.patch.indices item.patch.new_words)
    → s.words
      ≡ write_words (merkle_updates 0 item.patch.indices item.patch.new_words) g.current.words
    → ltb_ℤ threshold gain ≡ true
    → advance_with options item g s gain ≡ some g'
    → IsLive threshold g'
unfolding advance_with with_advance
advance_with-IsLive threshold options item g g' s gain h hs low words better run =
    let us = merkle_updates 0 item.patch.indices item.patch.new_words in
    let cache = cache_of (write_words us g.current.words) in
    let updated : update_merkle_cache g.current_merkle us ≡ MerkleResult.ok cache =
      ap (λ t. update_merkle_cache t us) h.cached
      ∙ (update-build_merkle_cache g.current.words us h.well_formed.word_count low).1 in
    elim (WorkResult-cases (advance_units options (length g.advances))) [
      | inl (units, e) ↦
          subst (IsLive threshold) (some-injective (rw (updated, e, advance_with) at run)) (record {
            well_formed = hs;
            cached = ap cache_of (sym words);
            gains =
                All-append (λ a. ltb_ℤ threshold a.marginal_gain ≡ true) g.advances _ h.gains
                  (better, tt);
          })
      | inr e ↦ absurd (cc (rw (updated, e, advance_with) at run))
    ]
  where
    WorkResult-cases :
        (r : WorkResult ℕ) → ((n : ℕ) × (r ≡ WorkResult.ok n)) ⊎ (r ≡ WorkResult.range_error)
    WorkResult-cases (WorkResult.ok n) = inl (n, refl)
    WorkResult-cases WorkResult.range_error = inr refl

merkle_updates-index_updates :
    (k : ℕ) (is ws : List ℕ) → merkle_updates k is ws ≡ index_updates k is ws
unfolding index_updates
merkle_updates-index_updates k [] ws = refl
merkle_updates-index_updates k (i ∷ is) ws =
    ap (λ us. record { index = i; word = get_or ws k 0 } ∷ us)
      (merkle_updates-index_updates (suc k) is ws)

merkle_updates-low :
    (k : ℕ) (is ws : List ℕ)
    → All (λ i. i < 992) is
    → All (λ u. u.index < 1024) (merkle_updates k is ws)
merkle_updates-low k [] ws h = tt
merkle_updates-low k (i ∷ is) ws h = (omega (arith, h.0), merkle_updates-low (suc k) is ws h.1)

with_rejected-IsLive :
    (threshold : ℤ) (item : LiveEpochInputPatch) (g : LiveProgress) (reason : LiveRejectionCode)
    → IsLive threshold g
    → IsLive threshold (with_rejected reason item g)
unfolding with_rejected
with_rejected-IsLive threshold item g reason h = record {
  well_formed = h.well_formed;
  cached = h.cached;
  gains = h.gains;
}

after_step-IsLive :
    (threshold : ℤ) (options : LiveEpochRewardOptions) (item : LiveEpochInputPatch)
    (g g' : LiveProgress) (r : AcceptStepResult LiveRejectionCode)
    → IsDecoded item.patch
    → IsLive threshold g
    → evaluate_and_apply_onto_current g.current item.patch item.marginal_evaluator threshold true
        options.policy_atoms_mode live_codes
      ≡ r
    → after_step options item g r ≡ some g'
    → IsLive threshold g'
after_step-IsLive threshold options item g g' (accepted s gain) (hw, len) h step run =
    let p = item.patch in
    let mode = options.policy_atoms_mode in
    let (better, _, applied) =
      accepted-eq g.current s p item.marginal_evaluator threshold gain true mode live_codes step in
    let (words, low) = apply_patch_onto_current-words g.current s p mode len applied in
    advance_with-IsLive threshold options item g g' s gain h
      (apply_patch_onto_current-IsApplied g.current s p mode h.well_formed hw len
        applied).well_formed
      (merkle_updates-low 0 p.indices p.new_words low)
      (words
        ∙ ap (λ us. write_words us g.current.words)
            (sym (merkle_updates-index_updates 0 p.indices p.new_words)))
      better run
after_step-IsLive threshold options item g g' (rejected reason) decoded h step run =
    subst (IsLive threshold) (some-injective run) (with_rejected-IsLive threshold item g reason h)
after_step-IsLive threshold options item g g' threw decoded h step run = cc

advance_step-IsLive :
    (threshold : ℤ) (options : LiveEpochRewardOptions) (item : LiveEpochInputPatch)
    (g g' : LiveProgress)
    → IsDecoded item.patch
    → IsLive threshold g
    → advance_step threshold options item g ≡ some g'
    → IsLive threshold g'
unfolding advance_step
advance_step-IsLive threshold options item g g' decoded h run =
    elim (Bool-cases (bytes_equal item.patch.parent_state_root g.current_merkle.root)) [
      | inl match ↦ after_step-IsLive threshold options item g g' _ decoded h refl (rw match at run)
      | inr other ↦
          subst (IsLive threshold) (some-injective (rw other at run))
            (with_rejected-IsLive threshold item g wrong_parent_root h)
    ]

advance_loop-IsLive :
    (threshold : ℤ) (options : LiveEpochRewardOptions) (items : List LiveEpochInputPatch)
    (g g' : LiveProgress)
    → All (λ t. IsDecoded t.patch) items
    → IsLive threshold g
    → advance_loop threshold options items g ≡ some g'
    → IsLive threshold g'
unfolding advance_loop
advance_loop-IsLive threshold options [] g g' decoded h run =
    subst (IsLive threshold) (some-injective run) h
advance_loop-IsLive threshold options (item ∷ items) g g' decoded h run =
    elim (Option-cases (advance_step threshold options item g)) [
      | inl stop ↦ absurd (cc (rw (stop, advance_loop) at run))
      | inr (next, step) ↦
          advance_loop-IsLive threshold options items next g' decoded.1
            (advance_step-IsLive threshold options item g next decoded.0 h step)
            (rw (step, advance_loop) at run)
    ]

pub record IsAdvanced (threshold : ℤ) (out : LiveEpochOutput) : Type 0 where
  pub well_formed : IsState out.new_state
  pub root : merkleize_state out.new_state ≡ MerkleResult.ok out.new_state_root
  pub gains : All (λ a. ltb_ℤ threshold a.marginal_gain ≡ true) out.advances

-- The reward options that let every advance be paid.
pub record IsPayable (options : LiveEpochRewardOptions) : Type 0 where
  pub valid : assert_valid_coretex_work_policy options.work_policy ≡ WorkResult.ok tt
  pub counter : ℕ
  pub counted :
      to_big_int (or_zero options.qualified_screener_passes_since_last_state_advance)
      ≡ WorkResult.ok counter

to_big_int_pos : (n : ℕ) → to_big_int (bigint (pos n)) ≡ WorkResult.ok n
unfolding to_big_int
to_big_int_pos n = refl

advance_units-returns :
    (options : LiveEpochRewardOptions) (n : ℕ)
    → IsPayable options
    → (units : ℕ) × (advance_units options n ≡ WorkResult.ok units)
unfolding advance_units
advance_units-returns options n h =
    let counter = h.counter in
    let (units, _, e, _, _, _) =
      state_advance_units_mono options.work_policy (some (bigint (pos (counter + n))))
        (some (bigint (pos (counter + n)))) (counter + n) (counter + n) h.valid
        (to_big_int_pos (counter + n)) (to_big_int_pos (counter + n)) (omega arith) in
    (units, rw (h.counted, advance_units) e)

advance_with-returns :
    (threshold : ℤ) (options : LiveEpochRewardOptions) (item : LiveEpochInputPatch)
    (g : LiveProgress) (s : CortexState) (gain : ℤ)
    → IsPayable options
    → IsLive threshold g
    → All (λ u. u.index < 1024) (merkle_updates 0 item.patch.indices item.patch.new_words)
    → (g' : LiveProgress) × (advance_with options item g s gain ≡ some g')
unfolding advance_with
advance_with-returns threshold options item g s gain pay h low =
    let us = merkle_updates 0 item.patch.indices item.patch.new_words in
    let cache = cache_of (write_words us g.current.words) in
    let updated : update_merkle_cache g.current_merkle us ≡ MerkleResult.ok cache =
      ap (λ t. update_merkle_cache t us) h.cached
      ∙ (update-build_merkle_cache g.current.words us h.well_formed.word_count low).1 in
    let (units, e) = advance_units-returns options (length g.advances) pay in
    (with_advance s gain cache units item g, rw (updated, e, advance_with) refl)

after_step-returns :
    (threshold : ℤ) (options : LiveEpochRewardOptions) (item : LiveEpochInputPatch)
    (g : LiveProgress) (r : AcceptStepResult LiveRejectionCode)
    → IsPayable options
    → IsDecoded item.patch
    → IsLive threshold g
    → evaluate_and_apply_onto_current g.current item.patch item.marginal_evaluator threshold true
        options.policy_atoms_mode live_codes
      ≡ r
    → (g' : LiveProgress) × (after_step options item g r ≡ some g')
after_step-returns threshold options item g (accepted s gain) pay (hw, len) h step =
    let p = item.patch in
    let mode = options.policy_atoms_mode in
    let (_, _, applied) =
      accepted-eq g.current s p item.marginal_evaluator threshold gain true mode live_codes step in
    let (_, low) = apply_patch_onto_current-words g.current s p mode len applied in
    advance_with-returns threshold options item g s gain pay h
      (merkle_updates-low 0 p.indices p.new_words low)
after_step-returns threshold options item g (rejected reason) pay decoded h step =
    (with_rejected reason item g, refl)
after_step-returns threshold options item g threw pay decoded h step = absurd (
    evaluate-ne-threw g.current item.patch item.marginal_evaluator threshold true
      options.policy_atoms_mode live_codes step)

advance_step-returns :
    (threshold : ℤ) (options : LiveEpochRewardOptions) (item : LiveEpochInputPatch)
    (g : LiveProgress)
    → IsPayable options
    → IsDecoded item.patch
    → IsLive threshold g
    → (g' : LiveProgress) × (advance_step threshold options item g ≡ some g')
unfolding advance_step
advance_step-returns threshold options item g pay decoded h =
    elim (Bool-cases (bytes_equal item.patch.parent_state_root g.current_merkle.root)) [
      | inl match ↦
          let (g', run) = after_step-returns threshold options item g _ pay decoded h refl in
          (g', rw match run)
      | inr other ↦ (with_rejected wrong_parent_root item g, rw other refl)
    ]

advance_loop-returns :
    (threshold : ℤ) (options : LiveEpochRewardOptions) (items : List LiveEpochInputPatch)
    (g : LiveProgress)
    → IsPayable options
    → All (λ t. IsDecoded t.patch) items
    → IsLive threshold g
    → (g' : LiveProgress) × (advance_loop threshold options items g ≡ some g')
unfolding advance_loop advance_step
advance_loop-returns threshold options [] g pay decoded h = (g, refl)
advance_loop-returns threshold options (item ∷ items) g pay decoded h =
    let (next, step) = advance_step-returns threshold options item g pay decoded.0 h in
    let (last, rest) =
      advance_loop-returns threshold options items next pay decoded.1
        (advance_step-IsLive threshold options item g next decoded.0 h step) in
    (last, rw (step, advance_loop) rest)

start-IsLive :
    (parent : CortexState) (threshold : ℤ)
    → IsState parent
    → IsLive threshold (start parent (cache_of parent.words))
unfolding start
start-IsLive parent threshold h = record { well_formed = h; cached = refl; gains = tt }

advance_epoch_state-eq :
    (parent : CortexState) (patches : List LiveEpochInputPatch) (threshold : ℤ)
    (options : LiveEpochRewardOptions) (cache : MerkleTreeCache) (g : LiveProgress)
    → build_merkle_cache parent ≡ MerkleResult.ok cache
    → advance_loop threshold options patches (start parent cache) ≡ some g
    → advance_epoch_state parent patches threshold options ≡ some (finish g)
unfolding advance_epoch_state
advance_epoch_state-eq parent patches threshold options cache g built run =
    rw (built, run, advance_epoch_state) refl

-- On a parent state of 1024 words, decoded patches, a valid work policy and a counter that is a
-- number, `advanceEpochState` returns. Its state is well formed, the root that it carries from
-- one incremental update to the next is the root of the whole state, and every advance gained
-- more than the threshold.
pub advance_epoch_state-IsAdvanced :
    (parent : CortexState) (patches : List LiveEpochInputPatch) (threshold : ℤ)
    (options : LiveEpochRewardOptions)
    → IsState parent
    → All (λ t. IsDecoded t.patch) patches
    → IsPayable options
    → (out : LiveEpochOutput) × (advance_epoch_state parent patches threshold options ≡ some out)
      × IsAdvanced threshold out
unfolding finish
advance_epoch_state-IsAdvanced parent patches threshold options hp decoded pay =
    let cache = cache_of parent.words in
    let first : IsLive threshold (start parent cache) = start-IsLive parent threshold hp in
    let (g, run) =
      advance_loop-returns threshold options patches (start parent cache) pay decoded first in
    let kept =
      advance_loop-IsLive threshold options patches (start parent cache) g decoded first run in
    let built = (update-build_merkle_cache parent.words [] hp.word_count tt).0 in
    (
      finish g,
      advance_epoch_state-eq parent patches threshold options cache g built run,
      record {
        well_formed = kept.well_formed;
        root =
            merkleize_state-cache_of g.current kept.well_formed.word_count
            ∙ ap MerkleResult.ok (ap (λ t. t.root) (sym kept.cached));
        gains = kept.gains;
      },
    )
