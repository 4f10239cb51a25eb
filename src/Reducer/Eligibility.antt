-- ===== src/Reducer/Eligibility.antt =====
-- src/reducer/eligibility.ts: the ledger of credits of an epoch. Addresses and hashes are lists of
-- character codes. The key `epoch:miner:patchHash` is kept as its three parts: a decimal epoch holds
-- no colon, and neither do the hex strings.
pub mod Credits
use coretex_client.Prelude.{
  ℕ, zero, suc, ◌+◌, ◌≡◌, refl, List, [], ◌∷◌, ◌++◌, Option, none, some, Bool, true, false, not,
  ◌&&◌, ◌||◌, ◌==◌, if◌then◌else◌, arith, All, Bool-cases, inl, inr,
}
use coretex_client.State.Patch.Apply.{bytes_equal}
use coretex_client.Reducer.Live.{lower_case}

-- `ScreenerPassedEvent` and `PatchMergedEvent`, which have the same fields.
pub record Event : Type 0 where
  pub epoch : ℕ
  pub miner : List ℕ
  pub patch_hash : List ℕ

pub record CreditIssuance : Type 0 where
  pub epoch : ℕ
  pub miner : List ℕ
  pub patch_hash : List ℕ
  pub tier_credits : ℕ

-- `MultiplierAccrual` has the fields of an event.
pub data SkippedEvent : Type 0 where
  screener merger : Event → SkippedEvent

pub record EligibilityKey : Type 0 where
  pub epoch : ℕ
  pub miner : List ℕ
  pub patch_hash : List ℕ

pub eligibility_key : ℕ → List ℕ → List ℕ → EligibilityKey
eligibility_key epoch miner patch_hash = record {
  epoch = epoch;
  miner = lower_case miner;
  patch_hash = lower_case patch_hash;
}

abbrev pub key_of : Event → EligibilityKey
key_of ev = eligibility_key ev.epoch ev.miner ev.patch_hash

pub same_key : EligibilityKey → EligibilityKey → Bool
same_key a b =
    a.epoch == b.epoch && bytes_equal a.miner b.miner && bytes_equal a.patch_hash b.patch_hash

-- `seen.has(key)`
abbrev pub has : EligibilityKey → List EligibilityKey → Bool
has k [] = false
has k (x ∷ xs) = same_key k x || has k xs

pub record EpochEligibility : Type 0 where
  pub credit_issuances : List CreditIssuance
  pub multiplier_accruals : List Event
  pub duplicates_skipped : List SkippedEvent

-- What the two loops carry.
pub record Ledger : Type 0 where
  pub seen_screener : List EligibilityKey
  pub seen_merger : List EligibilityKey
  pub credits : List CreditIssuance
  pub accruals : List Event
  pub skipped : List SkippedEvent

unfoldable pub issue : (List ℕ → ℕ) → Event → CreditIssuance
issue tier_credits_for ev = record {
  epoch = ev.epoch;
  miner = ev.miner;
  patch_hash = ev.patch_hash;
  tier_credits = tier_credits_for ev.miner;
}

pub screener_step : (List ℕ → ℕ) → Event → Ledger → Ledger
screener_step tier_credits_for ev l =
    if has (key_of ev) l.seen_screener
    then record {
      seen_screener = l.seen_screener;
      seen_merger = l.seen_merger;
      credits = l.credits;
      accruals = l.accruals;
      skipped = l.skipped ++ (screener ev ∷ []);
    }
    else record {
      seen_screener = l.seen_screener ++ (key_of ev ∷ []);
      seen_merger = l.seen_merger;
      credits = l.credits ++ (issue tier_credits_for ev ∷ []);
      accruals = l.accruals;
      skipped = l.skipped;
    }

pub merger_step : Event → Ledger → Ledger
merger_step ev l =
    if not (has (key_of ev) l.seen_screener) || has (key_of ev) l.seen_merger
    then record {
      seen_screener = l.seen_screener;
      seen_merger = l.seen_merger;
      credits = l.credits;
      accruals = l.accruals;
      skipped = l.skipped ++ (merger ev ∷ []);
    }
    else record {
      seen_screener = l.seen_screener;
      seen_merger = l.seen_merger ++ (key_of ev ∷ []);
      credits = l.credits;
      accruals = l.accruals ++ (ev ∷ []);
      skipped = l.skipped;
    }

pub screener_loop : (List ℕ → ℕ) → List Event → Ledger → Ledger
screener_loop tier_credits_for [] l = l
screener_loop tier_credits_for (ev ∷ evs) l =
    screener_loop tier_credits_for evs (screener_step tier_credits_for ev l)

pub merger_loop : List Event → Ledger → Ledger
merger_loop [] l = l
merger_loop (ev ∷ evs) l = merger_loop evs (merger_step ev l)

abbrev pub empty : Ledger
empty = record { seen_screener = []; seen_merger = []; credits = []; accruals = []; skipped = [] }

pub ledger_of : List Event → List Event → (List ℕ → ℕ) → Ledger
ledger_of screener_events merged_events tier_credits_for =
    merger_loop merged_events (screener_loop tier_credits_for screener_events empty)

pub build_epoch_eligibility : List Event → List Event → (List ℕ → ℕ) → EpochEligibility
unfolding ledger_of
build_epoch_eligibility screener_events merged_events tier_credits_for =
    let l = ledger_of screener_events merged_events tier_credits_for in
    record {
      credit_issuances = l.credits;
      multiplier_accruals = l.accruals;
      duplicates_skipped = l.skipped;
    }

-- The sum of `minerScreenerCredits`.
miner_credits : List ℕ → List CreditIssuance → ℕ
miner_credits m [] = 0
miner_credits m (ci ∷ cis) =
    let rest = miner_credits m cis in
    if bytes_equal (lower_case ci.miner) m then ci.tier_credits + rest else rest

pub miner_screener_credits : EpochEligibility → List ℕ → ℕ
unfolding miner_credits
miner_screener_credits e miner = miner_credits (lower_case miner) e.credit_issuances
