-- ===== src/Substrate/PolicyAtoms.antt =====
-- src/substrate/retrieval-decoder.ts: decoding and encoding of policy atoms, one word each.
use coretex_client.Prelude.{
  ℕ, zero, suc, ◌+◌, ◌-◌, ◌*◌, ◌/◌, ◌^◌, List, [], ◌∷◌, Option, none, some, Bool, true, false, not,
  ◌&&◌, ◌||◌, ltb, leb, ◌==◌, if◌then◌else◌, contains, get_or,
}
use coretex_client.State.Types.{CortexState}
use coretex_client.State.Types.Ranges
use Prim.Native.Nat.{bit_and, bit_or}

pub data PolicyAtomFamily : Type 0 where
  evidence_bundle conflict_lifecycle abstention : PolicyAtomFamily

pub data PolicyAction : Type 0 where
  include boost suppress bundle abstain : PolicyAction

pub data PolicyScope : Type 0 where
  entity owner relation_path temporal_chain conflict_set aspect : PolicyScope

-- `PolicyAtom`
pub record PolicyAtom : Type 0 where
  pub atom_index : ℕ
  pub family : PolicyAtomFamily
  pub selector : ℕ
  pub evidence_feature : ℕ
  pub action : PolicyAction
  pub scope : PolicyScope
  pub target_slot : ℕ
  pub budget : ℕ
  pub flags : ℕ
  pub valid_from_epoch : ℕ
  pub expiry_epoch : ℕ

abbrev pub policy_target_none : ℕ
policy_target_none = 0xffff

abbrev pub policy_anchor_slot_limit : ℕ
policy_anchor_slot_limit = 256

-- The codes of `POLICY_SELECTOR` and of `POLICY_EVIDENCE_FEATURE`.
abbrev valid_selectors : List ℕ
valid_selectors = 1 ∷ 2 ∷ 3 ∷ 4 ∷ []

abbrev valid_evidence_features : List ℕ
valid_evidence_features = 1 ∷ 2 ∷ 3 ∷ 4 ∷ 5 ∷ 6 ∷ 7 ∷ []

abbrev pub mask : ℕ → ℕ
mask bits = 2 ^ bits - 1

abbrev pub field : ℕ → ℕ → ℕ → ℕ
field word shift m = bit_and (word / 2 ^ shift) m

policy_action_by_bits : ℕ → Option PolicyAction
policy_action_by_bits b =
    if b == 1
    then some include
    else if b == 2
    then some boost
    else if b == 3
    then some suppress
    else if b == 4
    then some bundle
    else if b == 5
    then some abstain
    else none

policy_action_to_bits : PolicyAction → ℕ
policy_action_to_bits include = 1
policy_action_to_bits boost = 2
policy_action_to_bits suppress = 3
policy_action_to_bits bundle = 4
policy_action_to_bits abstain = 5

policy_scope_by_bits : ℕ → Option PolicyScope
policy_scope_by_bits b =
    if b == 1
    then some entity
    else if b == 2
    then some owner
    else if b == 3
    then some relation_path
    else if b == 4
    then some temporal_chain
    else if b == 5
    then some conflict_set
    else if b == 6
    then some aspect
    else none

policy_scope_to_bits : PolicyScope → ℕ
policy_scope_to_bits entity = 1
policy_scope_to_bits owner = 2
policy_scope_to_bits relation_path = 3
policy_scope_to_bits temporal_chain = 4
policy_scope_to_bits conflict_set = 5
policy_scope_to_bits aspect = 6

-- `POLICY_REGIONS`: the first word, the number of words, and the allowed actions.
pub region_start : PolicyAtomFamily → ℕ
region_start evidence_bundle = Ranges.policy_evidence_start
region_start conflict_lifecycle = Ranges.policy_conflict_start
region_start abstention = Ranges.policy_abstention_start

pub region_count : PolicyAtomFamily → ℕ
region_count evidence_bundle = Ranges.policy_evidence_end + 1 - Ranges.policy_evidence_start
region_count conflict_lifecycle = Ranges.policy_conflict_end + 1 - Ranges.policy_conflict_start
region_count abstention = Ranges.policy_abstention_end + 1 - Ranges.policy_abstention_start

pub is_allowed : PolicyAtomFamily → PolicyAction → Bool
is_allowed evidence_bundle abstain = false
is_allowed evidence_bundle _ = true
is_allowed conflict_lifecycle boost = true
is_allowed conflict_lifecycle suppress = true
is_allowed conflict_lifecycle _ = false
is_allowed abstention abstain = true
is_allowed abstention _ = false

abbrev is_abstain : PolicyAction → Bool
is_abstain abstain = true
is_abstain _ = false

-- The test on the anchor slot by the action.
anchor_fails : PolicyAction → ℕ → Bool
anchor_fails action slot =
    if is_abstain action
    then not (slot == policy_target_none) && leb policy_anchor_slot_limit slot
    else slot == policy_target_none || leb policy_anchor_slot_limit slot

-- What one word of a region is: empty, a failure, or an atom.
pub data AtomWord : Type 0 where
  empty failure : AtomWord
  atom : PolicyAtom → AtomWord

-- The tests behind the two enumerations.
decode_typed : PolicyAtomFamily → ℕ → ℕ → PolicyAction → PolicyScope → AtomWord
unfolding is_allowed anchor_fails
decode_typed family k w action scope =
    let selector = field w 248 (mask 8) in
    let feature = field w 240 (mask 8) in
    let target = field w 216 (mask 16) in
    let from = field w 152 (mask 40) in
    let expiry = field w 112 (mask 40) in
    if not (is_allowed family action)
    then failure
    else if not (contains selector valid_selectors)
        || not (contains feature valid_evidence_features)
    then failure
    else if anchor_fails action target
    then failure
    else if ltb 0 from && (ltb 0 expiry && ltb expiry from)
    then failure
    else atom (record {
      atom_index = k;
      family = family;
      selector = selector;
      evidence_feature = feature;
      action = action;
      scope = scope;
      target_slot = target;
      budget = field w 200 (mask 16);
      flags = field w 192 (mask 8);
      valid_from_epoch = from;
      expiry_epoch = expiry;
    })

-- One round of the loop of `decodePolicyAtomRegion`.
pub decode_word : PolicyAtomFamily → ℕ → ℕ → AtomWord
unfolding decode_typed policy_action_by_bits policy_scope_by_bits
decode_word family k w =
    if w == 0
    then empty
    else if not (field w 0 (mask 112) == 0)
    then failure
    else elim (policy_action_by_bits (field w 236 (mask 4))) [
      | none ↦ failure
      | some action ↦ elim (policy_scope_by_bits (field w 232 (mask 4))) [
        | none ↦ failure
        | some scope ↦ decode_typed family k w action scope
      ]
    ]

pub record DecodedRegion : Type 0 where
  pub atoms : List PolicyAtom
  pub attempts : ℕ
  pub failures : ℕ

abbrev pub count_word : AtomWord → DecodedRegion → DecodedRegion
count_word empty r = r
count_word failure r = record r { attempts = r.attempts + 1; failures = r.failures + 1 }
count_word (atom a) r = record r { atoms = a ∷ r.atoms; attempts = r.attempts + 1 }

-- The words from `k` on, with `n` to go.
unfoldable pub decode_region : ℕ → ℕ → PolicyAtomFamily → CortexState → DecodedRegion
decode_region zero k family s = record { atoms = []; attempts = 0; failures = 0 }
decode_region (suc n) k family s =
    count_word (decode_word family k (get_or s.words (region_start family + k) 0))
      (decode_region n (suc k) family s)

unfoldable pub decode_policy_atom_region : CortexState → PolicyAtomFamily → DecodedRegion
decode_policy_atom_region s family = decode_region (region_count family) 0 family s

count_non_zero : ℕ → ℕ → List ℕ → ℕ
count_non_zero zero i words = 0
count_non_zero (suc n) i words =
    (if get_or words i 0 == 0 then 0 else 1) + count_non_zero n (suc i) words

pub policy_reserved_non_zero_words : CortexState → ℕ
unfolding count_non_zero
policy_reserved_non_zero_words s =
    count_non_zero (Ranges.policy_reserved_end + 1 - Ranges.policy_reserved_start)
      Ranges.policy_reserved_start s.words

pub data AtomError : Type 0 where
  selector_range feature_range target_range budget_range flags_range epoch_range : AtomError

pub data AtomResult : Type 0 where
  ok : ℕ → AtomResult
  err : AtomError → AtomResult

pub encode_policy_atom : PolicyAtom → AtomResult
unfolding policy_action_to_bits policy_scope_to_bits
encode_policy_atom a =
    if a.selector == 0 || ltb 0xff a.selector
    then err selector_range
    else if a.evidence_feature == 0 || ltb 0xff a.evidence_feature
    then err feature_range
    else if not (a.target_slot == policy_target_none) && leb policy_anchor_slot_limit a.target_slot
    then err target_range
    else if ltb 0xffff a.budget
    then err budget_range
    else if ltb 0xff a.flags
    then err flags_range
    else if not (a.valid_from_epoch / 2 ^ 40 == 0) || not (a.expiry_epoch / 2 ^ 40 == 0)
    then err epoch_range
    else ok (
        bit_or
          (bit_or
            (bit_or
              (bit_or
                (bit_or
                  (bit_or
                    (bit_or (bit_or (a.selector * 2 ^ 248) (a.evidence_feature * 2 ^ 240))
                      (policy_action_to_bits a.action * 2 ^ 236))
                    (policy_scope_to_bits a.scope * 2 ^ 232))
                  (a.target_slot * 2 ^ 216))
                (a.budget * 2 ^ 200))
              (a.flags * 2 ^ 192))
            (a.valid_from_epoch * 2 ^ 152))
          (a.expiry_epoch * 2 ^ 112))
