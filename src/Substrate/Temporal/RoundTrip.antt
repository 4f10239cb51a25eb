-- ===== src/Substrate/Temporal/RoundTrip.antt =====
-- What `encodeTemporalRecord` writes and `decodeTemporal` reads.
use coretex_client.Prelude.{
  ℕ, ◌+◌, ◌*◌, ◌/◌, ◌^◌, ◌≤◌, ◌<◌, ◌≡◌, ◌≢◌, ◌↔◌, refl, sym, ap, ◌∙◌, [], ◌∷◌, Bool, true, false,
  not, ◌||◌, arith, ltb, leb, ◌==◌, if◌then◌else◌, ||-eq-false, ==-eq-false, list_head,
}
use coretex_client.Substrate.PolicyAtoms.{field, mask}
use coretex_client.Substrate.Counts.{ok, ok-injective, if-eq-ok}
use coretex_client.Substrate.Fields.{field_lem, bit_or_below}
use coretex_client.Substrate.Temporal.{
  TemporalRecord, found, decode_temporal_word, encode_temporal_record,
}
use Prim.Native.Nat.{bit_and, bit_or}

-- The word as a sum.
abbrev pub temporal_sum : ℕ → ℕ → ℕ → ℕ → ℕ → ℕ
temporal_sum slot by from until flag =
    slot * 2 ^ 248 + by * 2 ^ 240 + from * 2 ^ 200 + until * 2 ^ 160 + flag * 2 ^ 152

pub temporal_word-eq-sum :
    (slot by from until flag : ℕ)
    → by < 256
    → from < 2 ^ 40
    → until < 2 ^ 40
    → flag < 256
    → bit_or
        (bit_or
          (bit_or (bit_or (slot * 2 ^ 248) (by * 2 ^ 240)) (from * 2 ^ 200))
          (until * 2 ^ 160))
        (flag * 2 ^ 152)
      ≡ temporal_sum slot by from until flag
temporal_word-eq-sum slot by from until flag hb hf hu hg =
    let e₁ = bit_or_below 248 slot (slot * 2 ^ 248) (by * 2 ^ 240) refl (omega arith) in
    let e₂ =
      bit_or_below 240 (slot * 2 ^ 8 + by) (slot * 2 ^ 248 + by * 2 ^ 240) (from * 2 ^ 200)
        (omega arith) (omega arith) in
    let e₃ =
      bit_or_below 200 ((slot * 2 ^ 8 + by) * 2 ^ 40 + from)
        (slot * 2 ^ 248 + by * 2 ^ 240 + from * 2 ^ 200) (until * 2 ^ 160) (omega arith)
        (omega arith) in
    let e₄ =
      bit_or_below 160 (((slot * 2 ^ 8 + by) * 2 ^ 40 + from) * 2 ^ 40 + until)
        (slot * 2 ^ 248 + by * 2 ^ 240 + from * 2 ^ 200 + until * 2 ^ 160) (flag * 2 ^ 152)
        (omega arith) (omega arith) in
    rw (e₁, e₂, e₃, e₄) refl

fields_read :
    (slot by from until flag : ℕ)
    → slot < 256
    → by < 256
    → from < 2 ^ 40
    → until < 2 ^ 40
    → flag < 256
    → (field (temporal_sum slot by from until flag) 248 (mask 8) ≡ slot)
      × (field (temporal_sum slot by from until flag) 240 (mask 8) ≡ by)
      × (field (temporal_sum slot by from until flag) 200 (mask 40) ≡ from)
      × (field (temporal_sum slot by from until flag) 160 (mask 40) ≡ until)
      × (field (temporal_sum slot by from until flag) 152 (mask 8) ≡ flag)
      × (field (temporal_sum slot by from until flag) 0 (mask 152) ≡ 0)
fields_read slot by from until flag hs hb hf hu hg =
    let w = temporal_sum slot by from until flag in
    (
      field_lem w 248 8 ∙ omega arith,
      field_lem w 240 8 ∙ omega arith,
      field_lem w 200 40 ∙ omega arith,
      field_lem w 160 40 ∙ omega arith,
      field_lem w 152 8 ∙ omega arith,
      field_lem w 0 152 ∙ omega arith,
    )

sum_small :
    (slot by from until flag : ℕ)
    → slot < 256
    → by < 256
    → from < 2 ^ 40
    → until < 2 ^ 40
    → flag < 256
    → temporal_sum slot by from until flag < 2 ^ 256
sum_small slot by from until flag hs hb hf hu hg = omega arith

-- A record that the encoder accepts.
pub record IsEncodable (t : TemporalRecord) : Type 0 where
  pub slot_small : t.memory_slot < 352
  pub by_small : t.superseded_by < 256
  pub ordered : t.valid_from_epoch ≤ t.valid_until_epoch
  pub from_small : t.valid_from_epoch < 2 ^ 40
  pub until_small : t.valid_until_epoch < 2 ^ 40

abbrev flag_bit : Bool → ℕ
flag_bit b = if b then 1 else 0

flag_small : (b : Bool) → flag_bit b < 256
flag_small true = omega arith
flag_small false = omega arith

flag_read : (b : Bool) → not (bit_and (flag_bit b) 1 == 0) ≡ b
flag_read true = refl
flag_read false = refl

abbrev sum_of : TemporalRecord → ℕ
sum_of t =
    temporal_sum t.memory_slot t.superseded_by t.valid_from_epoch t.valid_until_epoch
      (flag_bit t.current_stale_flag)

encode_temporal_record-eq-ok :
    (t : TemporalRecord) (w : ℕ)
    → encode_temporal_record t ≡ ok (w ∷ [])
    → IsEncodable t × (w ≡ sum_of t)
unfolding encode_temporal_record
encode_temporal_record-eq-ok t w h =
    let (a, h₁) = if-eq-ok (leb 352 t.memory_slot) _ h in
    let (b, h₂) = if-eq-ok (ltb 0xff t.superseded_by) _ h₁ in
    let (c, h₃) = if-eq-ok (ltb t.valid_until_epoch t.valid_from_epoch) _ h₂ in
    let (d, h₄) =
      if-eq-ok (not (t.valid_from_epoch / 2 ^ 40 == 0) || not (t.valid_until_epoch / 2 ^ 40 == 0)) _
        h₃ in
    let (e, f) = ||-eq-false d in
    let by : t.superseded_by < 256 = ground arith in
    let from : t.valid_from_epoch < 2 ^ 40 =
      let z : t.valid_from_epoch / 2 ^ 40 ≡ 0 = ==-eq-false e in omega arith in
    let until : t.valid_until_epoch < 2 ^ 40 =
      let z : t.valid_until_epoch / 2 ^ 40 ≡ 0 = ==-eq-false f in omega arith in
    let e₁ = list_head (ok-injective h₄) in
    (
      record {
        slot_small = ground arith;
        by_small = by;
        ordered = ground arith;
        from_small = from;
        until_small = until;
      },
      sym e₁
          ∙ temporal_word-eq-sum t.memory_slot t.superseded_by t.valid_from_epoch
              t.valid_until_epoch (flag_bit t.current_stale_flag) by from until
              (flag_small t.current_stale_flag),
    )

-- A temporal record whose memory slot is below 256 and whose word is not zero is read back from
-- the word that `encodeTemporalRecord` wrote.
pub decode-encode_temporal_record :
    (t : TemporalRecord) (w : ℕ)
    → encode_temporal_record t ≡ ok (w ∷ [])
    → t.memory_slot < 256
    → w ≢ 0
    → decode_temporal_word t.record_index w ≡ found t
unfolding decode_temporal_word
decode-encode_temporal_record t w h small nonzero =
    let (v, e) = encode_temporal_record-eq-ok t w h in
    let fields =
      fields_read t.memory_slot t.superseded_by t.valid_from_epoch t.valid_until_epoch
        (flag_bit t.current_stale_flag) small v.by_small v.from_small v.until_small
        (flag_small t.current_stale_flag) in
    let (f₁, f₂, f₃, f₄, f₅, f₆) = fields in
    let n : (sum_of t == 0) ≡ false = ground (arith, e, nonzero) in
    let c₁ : leb 352 t.memory_slot ≡ false = ground (arith, v.slot_small) in
    let c₂ : ltb t.valid_until_epoch t.valid_from_epoch ≡ false = ground (arith, v.ordered) in
    rw (e, n, f₆, f₁, f₂, f₃, f₄, f₅, c₁, c₂, flag_read t.current_stale_flag) refl

accepted : (t : TemporalRecord) → IsEncodable t → encode_temporal_record t ≡ ok (sum_of t ∷ [])
unfolding encode_temporal_record
accepted t v =
    let s : leb 352 t.memory_slot ≡ false = ground (arith, v.slot_small) in
    let b : ltb 0xff t.superseded_by ≡ false = ground (arith, v.by_small) in
    let o : ltb t.valid_until_epoch t.valid_from_epoch ≡ false = ground (arith, v.ordered) in
    let f : (t.valid_from_epoch / 2 ^ 40 == 0) ≡ true = ground (arith, v.from_small) in
    let u : (t.valid_until_epoch / 2 ^ 40 == 0) ≡ true = ground (arith, v.until_small) in
    rw (s, b, o, f, u)
      (ap (λ x. ok (x ∷ []))
        (temporal_word-eq-sum t.memory_slot t.superseded_by t.valid_from_epoch t.valid_until_epoch
          (flag_bit t.current_stale_flag) v.by_small v.from_small v.until_small
          (flag_small t.current_stale_flag)))

-- `encodeTemporalRecord` writes a word for every record whose memory slot is below 352, whose
-- superseding slot is below 256 and whose epochs are in order and below 2^40; and the word is
-- below 2^256 exactly if the memory slot is below 256.
pub encode_temporal_record-word :
    (t : TemporalRecord)
    → IsEncodable t
    → (w : ℕ) × (encode_temporal_record t ≡ ok (w ∷ [])) × ((w < 2 ^ 256) ↔ (t.memory_slot < 256))
encode_temporal_record-word t v = (
  sum_of t,
  accepted t v,
  (
    λ k. omega arith,
    λ k.
        sum_small _ _ _ _ _ k v.by_small v.from_small v.until_small
          (flag_small t.current_stale_flag),
  ),
)
