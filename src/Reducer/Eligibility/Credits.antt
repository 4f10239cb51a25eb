-- ===== src/Reducer/Eligibility/Credits.antt =====
-- No credit is issued twice.
use coretex_client.Prelude.{
  ℕ, ◌≡◌, refl, sym, ap, ◌∙◌, List, [], ◌∷◌, ◌++◌, true, false, not, ◌||◌, arith, Bool-cases, inl,
  inr,
}
use mathlib.Core.Path.{subst}
use coretex_client.State.Patch.Apply.{bytes_equal}
use coretex_client.Reducer.Eligibility.{
  Event, CreditIssuance, EligibilityKey, eligibility_key, key_of, same_key, has, issue, Ledger,
  screener_step, merger_step, screener_loop, merger_loop, empty, ledger_of, build_epoch_eligibility,
}

abbrev pub credit_keys : List CreditIssuance → List EligibilityKey
credit_keys [] = []
credit_keys (c ∷ cs) = eligibility_key c.epoch c.miner c.patch_hash ∷ credit_keys cs

abbrev pub accrual_keys : List Event → List EligibilityKey
accrual_keys [] = []
accrual_keys (e ∷ es) = key_of e ∷ accrual_keys es

-- No key stands twice in a list, and every key of one stands in the other.
abbrev pub NoRepeat : List EligibilityKey → Type 0
NoRepeat [] = Unit {0}
NoRepeat (k ∷ ks) = (has k ks ≡ false) × NoRepeat ks

abbrev pub AllHeld : List EligibilityKey → List EligibilityKey → Type 0
AllHeld held [] = Unit {0}
AllHeld held (k ∷ ks) = (has k held ≡ true) × AllHeld held ks

bytes_equal_sym : (xs ys : List ℕ) → bytes_equal xs ys ≡ bytes_equal ys xs
unfolding bytes_equal
bytes_equal_sym [] [] = refl
bytes_equal_sym [] (y ∷ ys) = refl
bytes_equal_sym (x ∷ xs) [] = refl
bytes_equal_sym (x ∷ xs) (y ∷ ys) = let rest = bytes_equal_sym xs ys in ground (arith, rest)

same_key_sym : (a b : EligibilityKey) → same_key a b ≡ same_key b a
unfolding same_key
same_key_sym a b =
    let m = bytes_equal_sym a.miner b.miner in
    let p = bytes_equal_sym a.patch_hash b.patch_hash in ground (arith, m, p)

has-append :
    (k : EligibilityKey) (xs ys : List EligibilityKey) → has k (xs ++ ys) ≡ (has k xs || has k ys)
has-append k [] ys = refl
has-append k (x ∷ xs) ys = let rest = has-append k xs ys in ground (arith, rest)

NoRepeat-snoc :
    (xs : List EligibilityKey) (k : EligibilityKey)
    → NoRepeat xs
    → has k xs ≡ false
    → NoRepeat (xs ++ (k ∷ []))
NoRepeat-snoc [] k h new = (refl, tt)
NoRepeat-snoc (x ∷ xs) k h new =
    let e = has-append x xs (k ∷ []) in
    let s = same_key_sym x k in
    let off : has k xs ≡ false = ground arith in
    let fresh : has x (xs ++ (k ∷ [])) ≡ false = ground (arith, e, s, new, h.0) in
    (fresh, NoRepeat-snoc xs k h.1 off)

AllHeld-snoc :
    (held xs : List EligibilityKey) (k : EligibilityKey)
    → AllHeld held xs
    → has k held ≡ true
    → AllHeld held (xs ++ (k ∷ []))
AllHeld-snoc held [] k h new = (new, tt)
AllHeld-snoc held (x ∷ xs) k h new = (h.0, AllHeld-snoc held xs k h.1 new)

credit_keys-snoc :
    (cs : List CreditIssuance) (c : CreditIssuance)
    → credit_keys (cs ++ (c ∷ []))
      ≡ credit_keys cs ++ (eligibility_key c.epoch c.miner c.patch_hash ∷ [])
credit_keys-snoc [] c = refl
credit_keys-snoc (x ∷ xs) c =
    ap (λ ks. eligibility_key x.epoch x.miner x.patch_hash ∷ ks) (credit_keys-snoc xs c)

accrual_keys-snoc :
    (es : List Event) (e : Event)
    → accrual_keys (es ++ (e ∷ [])) ≡ accrual_keys es ++ (key_of e ∷ [])
accrual_keys-snoc [] e = refl
accrual_keys-snoc (x ∷ xs) e = ap (λ ks. key_of x ∷ ks) (accrual_keys-snoc xs e)

pub record IsLedger (l : Ledger) : Type 0 where
  pub credit_keys_seen : credit_keys l.credits ≡ l.seen_screener
  pub accrual_keys_seen : accrual_keys l.accruals ≡ l.seen_merger
  pub screener_once : NoRepeat l.seen_screener
  pub merger_once : NoRepeat l.seen_merger

screener_step-IsLedger :
    (f : List ℕ → ℕ) (ev : Event) (l : Ledger) → IsLedger l → IsLedger (screener_step f ev l)
unfolding screener_step issue
screener_step-IsLedger f ev l h = elim (Bool-cases (has (key_of ev) l.seen_screener)) [
  | inl seen ↦
      rw (seen, screener_step)
        (record {
          credit_keys_seen = h.credit_keys_seen;
          accrual_keys_seen = h.accrual_keys_seen;
          screener_once = h.screener_once;
          merger_once = h.merger_once;
        })
  | inr new ↦
      rw (new, screener_step)
        (record {
          credit_keys_seen =
              credit_keys-snoc l.credits (issue f ev)
              ∙ ap (λ ks. ks ++ (key_of ev ∷ [])) h.credit_keys_seen;
          accrual_keys_seen = h.accrual_keys_seen;
          screener_once = NoRepeat-snoc l.seen_screener (key_of ev) h.screener_once new;
          merger_once = h.merger_once;
        })
]

screener_loop-IsLedger :
    (f : List ℕ → ℕ) (evs : List Event) (l : Ledger) → IsLedger l → IsLedger (screener_loop f evs l)
unfolding screener_loop
screener_loop-IsLedger f [] l h = h
screener_loop-IsLedger f (ev ∷ evs) l h =
    screener_loop-IsLedger f evs (screener_step f ev l) (screener_step-IsLedger f ev l h)

merger_step-IsLedger :
    (ev : Event) (l : Ledger)
    → IsLedger l
    → AllHeld l.seen_screener l.seen_merger
    → IsLedger (merger_step ev l)
      × AllHeld (merger_step ev l).seen_screener (merger_step ev l).seen_merger
unfolding merger_step
merger_step-IsLedger ev l h held =
    elim (Bool-cases (not (has (key_of ev) l.seen_screener) || has (key_of ev) l.seen_merger)) [
      | inl skip ↦
          rw (skip, merger_step)
            (
              record {
                credit_keys_seen = h.credit_keys_seen;
                accrual_keys_seen = h.accrual_keys_seen;
                screener_once = h.screener_once;
                merger_once = h.merger_once;
              },
              held,
            )
      | inr fine ↦
          let passed : has (key_of ev) l.seen_screener ≡ true = ground arith in
          let new : has (key_of ev) l.seen_merger ≡ false = ground arith in
          rw (fine, merger_step)
            (
              record {
                credit_keys_seen = h.credit_keys_seen;
                accrual_keys_seen =
                    accrual_keys-snoc l.accruals ev
                    ∙ ap (λ ks. ks ++ (key_of ev ∷ [])) h.accrual_keys_seen;
                screener_once = h.screener_once;
                merger_once = NoRepeat-snoc l.seen_merger (key_of ev) h.merger_once new;
              },
              AllHeld-snoc l.seen_screener l.seen_merger (key_of ev) held passed,
            )
    ]

merger_loop-IsLedger :
    (evs : List Event) (l : Ledger)
    → IsLedger l
    → AllHeld l.seen_screener l.seen_merger
    → IsLedger (merger_loop evs l)
      × AllHeld (merger_loop evs l).seen_screener (merger_loop evs l).seen_merger
unfolding merger_loop
merger_loop-IsLedger [] l h held = (h, held)
merger_loop-IsLedger (ev ∷ evs) l h held =
    let (h', held') = merger_step-IsLedger ev l h held in
    merger_loop-IsLedger evs (merger_step ev l) h' held'

screener_loop-seen_merger :
    (f : List ℕ → ℕ) (evs : List Event) (l : Ledger)
    → (screener_loop f evs l).seen_merger ≡ l.seen_merger
unfolding screener_loop screener_step
screener_loop-seen_merger f [] l = refl
screener_loop-seen_merger f (ev ∷ evs) l =
    screener_loop-seen_merger f evs (screener_step f ev l)
    ∙ elim (Bool-cases (has (key_of ev) l.seen_screener)) [
      | inl seen ↦ rw (seen, screener_step) refl
      | inr new ↦ rw (new, screener_step) refl
    ]

-- `buildEpochEligibility` issues at most one credit and records at most one accrual for a key of
-- epoch, miner and patch hash, the two strings in lower case; and an accrual has a key for which
-- a credit was issued.
pub build_epoch_eligibility-NoRepeat :
    (screener_events merged_events : List Event) (f : List ℕ → ℕ)
    → NoRepeat
        (credit_keys (build_epoch_eligibility screener_events merged_events f).credit_issuances)
      × NoRepeat (
          accrual_keys
            (build_epoch_eligibility screener_events merged_events f).multiplier_accruals)
      × AllHeld
          (credit_keys (build_epoch_eligibility screener_events merged_events f).credit_issuances)
          (accrual_keys
            (build_epoch_eligibility screener_events merged_events f).multiplier_accruals)
unfolding build_epoch_eligibility ledger_of
build_epoch_eligibility-NoRepeat screener_events merged_events f =
    let screened = screener_loop f screener_events empty in
    let start : IsLedger empty = record {
      credit_keys_seen = refl;
      accrual_keys_seen = refl;
      screener_once = tt;
      merger_once = tt;
    } in
    let held : AllHeld screened.seen_screener screened.seen_merger =
      subst (AllHeld screened.seen_screener)
        (sym (screener_loop-seen_merger f screener_events empty)) tt in
    let (h, kept) =
      merger_loop-IsLedger merged_events screened
        (screener_loop-IsLedger f screener_events empty start) held in
    (
      subst NoRepeat (sym h.credit_keys_seen) h.screener_once,
      subst NoRepeat (sym h.accrual_keys_seen) h.merger_once,
      subst (λ ks. AllHeld ks (accrual_keys (merger_loop merged_events screened).accruals))
          (sym h.credit_keys_seen)
          (subst (AllHeld (merger_loop merged_events screened).seen_screener)
            (sym h.accrual_keys_seen) kept),
    )
