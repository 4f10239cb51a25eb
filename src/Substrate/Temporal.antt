-- ===== src/Substrate/Temporal.antt =====
-- src/substrate/retrieval-decoder.ts: temporal records, one word each. The loop over further words
-- of a record has no rounds, since a record is one word.
pub mod RoundTrip
use coretex_client.Prelude.{
  ℕ, zero, suc, ◌+◌, ◌-◌, ◌*◌, ◌/◌, ◌%◌, ◌^◌, ◌≤◌, ◌<◌, min, max, ◌≡◌, ◌≢◌, ◌↔◌, ◌⊎◌, inl, inr,
  refl, sym, ap, ◌∙◌, List, [], ◌∷◌, ◌++◌, map, length, get_elem?, get_or, set, take, drop,
  replicate, tabulate, All, Option, none, some, Option-cases, Bool, true, false, not, ◌&&◌, ◌||◌,
  arith, ltb, leb, ◌==◌, if◌then◌else◌, Bool-cases, &&-eq-true, ||-eq-false, ==-eq-false, list_head,
  contains, length-append, length-set, get_elem?-set_self, get_elem?-set_ne, ==_iff, length-map,
  some-injective, positive_test, if-both,
}
use coretex_client.State.Types.{CortexState}
use coretex_client.State.Types.Ranges
use coretex_client.Substrate.PolicyAtoms.{field, mask}
use coretex_client.Substrate.Counts.{memory_index_slot_count, EncodeResult, ok, out_of_range}
use Prim.Native.Nat.{bit_and, bit_or}

pub record TemporalRecord : Type 0 where
  pub record_index : ℕ
  pub memory_slot : ℕ
  pub superseded_by : ℕ
  pub valid_from_epoch : ℕ
  pub valid_until_epoch : ℕ
  pub current_stale_flag : Bool

pub data TemporalWord : Type 0 where
  empty failure : TemporalWord
  found : TemporalRecord → TemporalWord

-- One round of the loop of `decodeTemporal`.
unfoldable pub decode_temporal_word : ℕ → ℕ → TemporalWord
decode_temporal_word r w =
    let memory_slot = field w 248 (mask 8) in
    let from = field w 200 (mask 40) in
    let until = field w 160 (mask 40) in
    let flags = field w 152 (mask 8) in
    if w == 0
    then empty
    else if not (field w 0 (mask 152) == 0)
    then failure
    else if leb memory_index_slot_count memory_slot
    then failure
    else if ltb until from
    then failure
    else found (record {
      record_index = r;
      memory_slot = memory_slot;
      superseded_by = field w 240 (mask 8);
      valid_from_epoch = from;
      valid_until_epoch = until;
      current_stale_flag = not (bit_and flags 1 == 0);
    })

pub record DecodedTemporal : Type 0 where
  pub records : List TemporalRecord
  pub attempts : ℕ
  pub failures : ℕ

abbrev pub count_temporal : TemporalWord → DecodedTemporal → DecodedTemporal
count_temporal empty d = d
count_temporal failure d = record d { attempts = d.attempts + 1; failures = d.failures + 1 }
count_temporal (found t) d = record d { records = t ∷ d.records; attempts = d.attempts + 1 }

-- The records from `r` on, with `n` to go.
unfoldable pub decode_temporal_from : ℕ → ℕ → CortexState → DecodedTemporal
decode_temporal_from zero r s = record { records = []; attempts = 0; failures = 0 }
decode_temporal_from (suc n) r s =
    count_temporal (decode_temporal_word r (get_or s.words (Ranges.temporal_start + r) 0))
      (decode_temporal_from n (suc r) s)

abbrev pub temporal_record_count : ℕ
temporal_record_count = Ranges.temporal_end + 1 - Ranges.temporal_start

unfoldable pub decode_temporal : CortexState → DecodedTemporal
decode_temporal s = decode_temporal_from temporal_record_count 0 s

unfoldable pub encode_temporal_record : TemporalRecord → EncodeResult (List ℕ)
encode_temporal_record t =
    if leb memory_index_slot_count t.memory_slot
    then out_of_range
    else if ltb 0xff t.superseded_by
    then out_of_range
    else if ltb t.valid_until_epoch t.valid_from_epoch
    then out_of_range
    else if not (t.valid_from_epoch / 2 ^ 40 == 0) || not (t.valid_until_epoch / 2 ^ 40 == 0)
    then out_of_range
    else ok (
        bit_or
          (bit_or
            (bit_or (bit_or (t.memory_slot * 2 ^ 248) (t.superseded_by * 2 ^ 240))
              (t.valid_from_epoch * 2 ^ 200))
            (t.valid_until_epoch * 2 ^ 160))
          ((if t.current_stale_flag then 1 else 0) * 2 ^ 152)
        ∷ [])
