-- ===== src/Corpus/Admission/Laws.antt =====
-- What src/corpus/admission.ts decides about each candidate of a batch.
use coretex_client.Prelude.{
  sym, ◌∙◌, ℕ, ◌+◌, ◌≤◌, ◌<◌, ◌≡◌, ◌≢◌, inl, inr, refl, ap, List, [], ◌∷◌, ◌++◌, length, All,
  Option, none, some, Bool, true, false, not, ◌&&◌, All-append, arith, ltb, leb, ◌==◌,
  if◌then◌else◌, Bool-cases, &&-eq-true, length-append,
}
use coretex_client.State.Patch.Apply.{bytes_equal}
use coretex_client.State.Patch.Apply.Equal.{equal_eq, equal_refl}
use coretex_client.Corpus.Admission.{
  AdmissionPolicy, CorpusEvent, AdmissionRejectionReason, missing_source_provenance,
  insufficient_hard_negatives, insufficient_truth_documents, insufficient_positive_qrels,
  embedding_model_id_mismatch, embedding_revision_mismatch, per_domain_cap_exceeded,
  total_cap_exceeded, AdmissionDecision, object_text, is_blank, source_text, positives, CountValue,
  number, other, is_proto, at_cap, add_one, set_domain_count, assign_count, inherited, domain_count,
  quality_fault, reject, admit, admit_within_caps, consider,
}
use mathlib.Core.Path.{subst, subst₂}

-- The rules on an event alone.
pub record IsSound (p : AdmissionPolicy) (event : CorpusEvent) : Type 0 where
  pub sourced :
      p.require_source_provenance ≡ true → is_blank (source_text event.source_hash) ≡ false
  pub truths :
      0 < length event.truth_documents
      → p.min_truth_documents_per_record ≤ length event.truth_documents
  pub negatives : p.min_hard_negatives_per_record ≤ length event.hard_negatives
  pub graded :
      0 < length event.truth_documents → p.min_positive_qrel_entries ≤ positives event.qrels
  pub model : event.model_id ≡ p.required_bi_encoder_model_id
  pub revised : event.revision ≡ p.required_bi_encoder_revision

unfoldable pub in_domain : List ℕ → List CorpusEvent → ℕ
in_domain domain [] = 0
in_domain domain (event ∷ events) =
    (if bytes_equal domain event.domain then 1 else 0) + in_domain domain events

-- The candidates are the admitted events and the rejected ones, each in the order of the batch.
pub data Splits
    : List CorpusEvent
      → List CorpusEvent
      → List (CorpusEvent × AdmissionRejectionReason)
      → Type 0 where
  no_candidates : Splits [] [] []
  last_admitted :
      {cs xs : List CorpusEvent} {rs : List (CorpusEvent × AdmissionRejectionReason)}
      (e : CorpusEvent)
      → Splits cs xs rs
      → Splits (cs ++ e ∷ []) (xs ++ e ∷ []) rs
  last_rejected :
      {cs xs : List CorpusEvent} {rs : List (CorpusEvent × AdmissionRejectionReason)}
      (e : CorpusEvent) (reason : AdmissionRejectionReason)
      → Splits cs xs rs
      → Splits (cs ++ e ∷ []) xs (rs ++ (e, reason) ∷ [])

in_domain-append :
    (x : List ℕ) (xs ys : List CorpusEvent)
    → in_domain x (xs ++ ys) ≡ in_domain x xs + in_domain x ys
unfolding in_domain
in_domain-append x [] ys = omega arith
in_domain-append x (e ∷ xs) ys = let h = in_domain-append x xs ys in omega arith

All-imp :
    {A : Type 0} {P Q : A → Type 0} → ((a : A) → P a → Q a) → (xs : List A) → All P xs → All Q xs
All-imp f [] h = tt
All-imp f (x ∷ xs) h = (f x h.0, All-imp f xs h.1)

differs : (xs ys : List ℕ) → not (bytes_equal xs ys) ≡ true → xs ≢ ys
differs xs ys h e = let r = equal_refl xs in absurd (cc)

-- What is read for a domain that `n` events have: their number, or no number where a plain object
-- inherits the name.
unfoldable pub IsCountOf : Option (List ℕ) → ℕ → CountValue → Type 0
IsCountOf none n v = v ≡ number n
IsCountOf (some text) n v = (u : List ℕ) × (v ≡ other u)

IsCountOf-add_one :
    (o : Option (List ℕ)) (n : ℕ) (v : CountValue)
    → IsCountOf o n v
    → IsCountOf o (n + 1) (add_one v)
unfolding IsCountOf
IsCountOf-add_one none n v h = ap add_one h
IsCountOf-add_one (some text) n v (u, h) = (u ++ 49 ∷ [], ap add_one h)

pub at_cap-full :
    (o : Option (List ℕ)) (n : ℕ) (v : CountValue) (cap : ℕ)
    → IsCountOf o n v
    → at_cap cap v ≡ true
    → (o ≡ none) × (cap ≤ n)
unfolding IsCountOf
at_cap-full none n v cap h full =
    let f : leb cap n ≡ true = ap (at_cap cap) (sym h) ∙ full in (refl, ground arith)
at_cap-full (some text) n v cap (u, h) full =
    let f : false ≡ true = ap (at_cap cap) (sym h) ∙ full in absurd (cc)

pub at_cap-room :
    (o : Option (List ℕ)) (n : ℕ) (v : CountValue) (cap : ℕ)
    → IsCountOf o n v
    → at_cap cap v ≡ false
    → o ≡ none
    → n < cap
unfolding IsCountOf
at_cap-room none n v cap h room own =
    let f : leb cap n ≡ false = ap (at_cap cap) (sym h) ∙ room in ground arith
at_cap-room (some text) n v cap h room own = absurd (cc)

module _ (members : List ℕ → Option (List ℕ)) where
  -- What each reason says of a rejected event, given the events that are admitted.
  unfoldable pub IsReason :
      AdmissionPolicy → List CorpusEvent → CorpusEvent → AdmissionRejectionReason → Type 0
  IsReason p events e missing_source_provenance =
      (p.require_source_provenance ≡ true) × (is_blank (source_text e.source_hash) ≡ true)
  IsReason p events e insufficient_hard_negatives =
      length e.hard_negatives < p.min_hard_negatives_per_record
  IsReason p events e insufficient_truth_documents =
      (0 < length e.truth_documents) × (length e.truth_documents < p.min_truth_documents_per_record)
  IsReason p events e insufficient_positive_qrels =
      (0 < length e.truth_documents) × (positives e.qrels < p.min_positive_qrel_entries)
  IsReason p events e embedding_model_id_mismatch = e.model_id ≢ p.required_bi_encoder_model_id
  IsReason p events e embedding_revision_mismatch = e.revision ≢ p.required_bi_encoder_revision
  IsReason p events e per_domain_cap_exceeded =
      IsSound p e
      × (inherited members e.domain ≡ none)
      × (p.per_domain_cap ≤ in_domain e.domain events)
  IsReason p events e total_cap_exceeded = IsSound p e × (p.total_cap ≤ length events)

  pub record IsAdmission (p : AdmissionPolicy) (candidates : List CorpusEvent)
      (d : AdmissionDecision) : Type 0 where
    pub split : Splits candidates d.admitted d.rejected
    pub counted :
        (domain : List ℕ)
        → IsCountOf
            (inherited members domain)
            (in_domain domain d.admitted)
            (domain_count members domain d.per_domain_counts)
    pub sound : All (IsSound p) d.admitted
    pub domain_bound :
        (domain : List ℕ)
        → inherited members domain ≡ none
        → in_domain domain d.admitted ≤ p.per_domain_cap
    pub bound : length d.admitted ≤ p.total_cap
    pub reasons : All (λ x. IsReason p d.admitted (x.0) (x.1)) d.rejected

  domain_count-set :
      (x d : List ℕ) (n : CountValue) (counts : List (List ℕ × CountValue))
      → domain_count members x (set_domain_count d n counts)
        ≡ (if bytes_equal x d then n else domain_count members x counts)
  unfolding domain_count set_domain_count
  domain_count-set x d n [] = refl
  domain_count-set x d n ((c, m) ∷ counts) =
      let h = domain_count-set x d n counts in
      elim (Bool-cases (bytes_equal d c)) [
        | inl dc ↦
            let agree : bytes_equal x d ≡ bytes_equal x c = ap (bytes_equal x) (equal_eq d c dc) in
            rw dc (rw agree (same (bytes_equal x c)))
        | inr dc ↦ elim (Bool-cases (bytes_equal x c)) [
          | inl xc ↦ elim (Bool-cases (bytes_equal x d)) [
            | inl xd ↦
                let r = equal_refl x in
                let e = equal_eq x c xc in let f = equal_eq x d xd in absurd (cc)
            | inr xd ↦ rw dc (rw xc (rw xd refl))
          ]
          | inr xc ↦ rw dc (rw xc h)
        ]
      ]
    where
      same :
          (b : Bool)
          → (if b then n else domain_count members x counts)
            ≡ (if b then n else if b then m else domain_count members x counts)
      same true = refl
      same false = refl

  domain_count-assign_ne :
      (x d : List ℕ) (v : CountValue) (counts : List (List ℕ × CountValue))
      → bytes_equal x d ≡ false
      → domain_count members x (assign_count d v counts) ≡ domain_count members x counts
  unfolding assign_count
  domain_count-assign_ne x d v counts ne = elim (Bool-cases (is_proto d)) [
    | inl q ↦ rw q refl
    | inr q ↦ rw q (domain_count-set x d v counts ∙ (rw ne refl))
  ]

  domain_count-assign_self :
      (x d : List ℕ) (v : CountValue) (counts : List (List ℕ × CountValue))
      → is_proto d ≡ false
      → bytes_equal x d ≡ true
      → domain_count members x (assign_count d v counts) ≡ v
  unfolding assign_count
  domain_count-assign_self x d v counts q e = rw q (domain_count-set x d v counts ∙ (rw e refl))

  assign_count-proto :
      (x d : List ℕ) (v : CountValue) (counts : List (List ℕ × CountValue))
      → is_proto d ≡ true
      → domain_count members x (assign_count d v counts) ≡ domain_count members x counts
  unfolding assign_count
  assign_count-proto x d v counts q = rw q refl

  -- The prototype is no number, however many events have its name as their domain.
  proto-IsCountOf :
      (x : List ℕ) (n m : ℕ) (v : CountValue)
      → is_proto x ≡ true
      → IsCountOf (inherited members x) n v
      → IsCountOf (inherited members x) m v
  unfolding IsCountOf inherited
  proto-IsCountOf x n m v q h =
      let e : inherited members x ≡ some object_text = rw q refl in
      subst (λ o. IsCountOf o m v) (sym e) (subst (λ o. IsCountOf o n v) e h)

  -- What the checks on the record alone found.
  unfoldable pub IsVerdict :
      AdmissionPolicy → CorpusEvent → Option AdmissionRejectionReason → Type 0
  IsVerdict p e none = IsSound p e
  IsVerdict p e (some reason) = (events : List CorpusEvent) → IsReason p events e reason

  IsVerdict-if :
      (p : AdmissionPolicy) (e : CorpusEvent) (b : Bool) (reason : AdmissionRejectionReason)
      (rest : Option AdmissionRejectionReason)
      → (b ≡ true → (events : List CorpusEvent) → IsReason p events e reason)
      → (b ≡ false → IsVerdict p e rest)
      → IsVerdict p e (if b then some reason else rest)
  unfolding IsVerdict
  IsVerdict-if p e true reason rest caught passed = caught refl
  IsVerdict-if p e false reason rest caught passed = passed refl

  pub quality_fault-IsVerdict :
      (p : AdmissionPolicy) (e : CorpusEvent) → IsVerdict p e (quality_fault p e)
  unfolding quality_fault IsVerdict IsReason
  quality_fault-IsVerdict p e =
      let n = length e.truth_documents in
      IsVerdict-if p e (p.require_source_provenance && is_blank (source_text e.source_hash))
        missing_source_provenance _ (λ h events. &&-eq-true h)
        (λ h1.
          IsVerdict-if p e (not (n == 0) && ltb n p.min_truth_documents_per_record)
            insufficient_truth_documents _ (λ h events. (ground arith, ground arith))
            (λ h2.
              IsVerdict-if p e (ltb (length e.hard_negatives) p.min_hard_negatives_per_record)
                insufficient_hard_negatives _ (λ h events. ground arith)
                (λ h3.
                  IsVerdict-if p e
                    (not (n == 0) && ltb (positives e.qrels) p.min_positive_qrel_entries)
                    insufficient_positive_qrels _ (λ h events. (ground arith, ground arith))
                    (λ h4.
                      IsVerdict-if p e (not (bytes_equal e.model_id p.required_bi_encoder_model_id))
                        embedding_model_id_mismatch _
                        (λ h events. differs e.model_id p.required_bi_encoder_model_id h)
                        (λ h5.
                          IsVerdict-if p e
                            (not (bytes_equal e.revision p.required_bi_encoder_revision))
                            embedding_revision_mismatch none
                            (λ h events. differs e.revision p.required_bi_encoder_revision h)
                            (λ h6. record {
                              sourced = λ r. unblank r h1;
                              truths = λ m. ground arith;
                              negatives = ground arith;
                              graded = λ m. ground arith;
                              model = same e.model_id p.required_bi_encoder_model_id h5;
                              revised = same e.revision p.required_bi_encoder_revision h6;
                            }))))))
    where
      unblank : {a b : Bool} → a ≡ true → (a && b) ≡ false → b ≡ false
      unblank {a = true} r h = h
      unblank {a = false} r h = cc

      same : (xs ys : List ℕ) → not (bytes_equal xs ys) ≡ false → xs ≡ ys
      same xs ys h = elim (Bool-cases (bytes_equal xs ys)) [
        | inl k ↦ equal_eq xs ys k
        | inr k ↦ absurd (cc)
      ]

  -- A reason stays true when more events are admitted.
  IsReason-append :
      (p : AdmissionPolicy) (events more : List CorpusEvent) (e : CorpusEvent)
      (reason : AdmissionRejectionReason)
      → IsReason p events e reason
      → IsReason p (events ++ more) e reason
  unfolding IsReason
  IsReason-append p events more e missing_source_provenance h = h
  IsReason-append p events more e insufficient_hard_negatives h = h
  IsReason-append p events more e insufficient_truth_documents h = h
  IsReason-append p events more e insufficient_positive_qrels h = h
  IsReason-append p events more e embedding_model_id_mismatch h = h
  IsReason-append p events more e embedding_revision_mismatch h = h
  IsReason-append p events more e per_domain_cap_exceeded h =
      let n = in_domain-append e.domain events more in let m = h.2 in (h.0, h.1, omega arith)
  IsReason-append p events more e total_cap_exceeded h =
      let n = length-append events more in let m = h.1 in (h.0, omega arith)

  reject-IsAdmission :
      (p : AdmissionPolicy) (seen : List CorpusEvent) (d : AdmissionDecision) (e : CorpusEvent)
      (reason : AdmissionRejectionReason)
      → IsAdmission p seen d
      → IsReason p d.admitted e reason
      → IsAdmission p (seen ++ e ∷ []) (reject e reason d)
  unfolding reject
  reject-IsAdmission p seen d e reason h r = record {
    split = last_rejected e reason h.split;
    counted = h.counted;
    sound = h.sound;
    domain_bound = h.domain_bound;
    bound = h.bound;
    reasons =
        All-append (λ x. IsReason p d.admitted (x.0) (x.1)) d.rejected ((e, reason) ∷ []) h.reasons
          (r, tt);
  }

  -- The count of each domain when an event is admitted.
  admitted-IsCountOf :
      (x : List ℕ) (e : CorpusEvent) (events : List CorpusEvent)
      (counts : List (List ℕ × CountValue))
      → ((y : List ℕ)
          → IsCountOf (inherited members y) (in_domain y events) (domain_count members y counts))
      → IsCountOf (inherited members x) (in_domain x (events ++ e ∷ [])) (
          domain_count members x
            (assign_count e.domain (add_one (domain_count members e.domain counts)) counts))
  unfolding in_domain
  admitted-IsCountOf x e events counts counted =
      let a = in_domain-append x events (e ∷ []) in
      let v = add_one (domain_count members e.domain counts) in
      elim (Bool-cases (bytes_equal x e.domain)) [
        | inr k ↦
            let n : in_domain x (events ++ e ∷ []) ≡ in_domain x events = ground arith in
            subst₂ (IsCountOf (inherited members x)) (sym n)
              (sym (domain_count-assign_ne x e.domain v counts k)) (counted x)
        | inl k ↦
            let n : in_domain x (events ++ e ∷ []) ≡ in_domain x events + 1 = ground arith in
            let same = equal_eq x e.domain k in
            elim (Bool-cases (is_proto e.domain)) [
              | inl q ↦
                  subst₂ (IsCountOf (inherited members x)) (sym n)
                    (sym (assign_count-proto x e.domain v counts q))
                    (proto-IsCountOf x (in_domain x events) (in_domain x events + 1) _
                      (ap is_proto same ∙ q) (counted x))
              | inr q ↦
                  let c =
                    IsCountOf-add_one (inherited members x) (in_domain x events) _ (counted x) in
                  subst₂ (IsCountOf (inherited members x)) (sym n)
                    (sym (
                      domain_count-assign_self x e.domain v counts q k
                      ∙ ap (λ y. add_one (domain_count members y counts)) (sym same)))
                    c
            ]
      ]

  admit-IsAdmission :
      (p : AdmissionPolicy) (seen : List CorpusEvent) (d : AdmissionDecision) (e : CorpusEvent)
      → IsAdmission p seen d
      → IsSound p e
      → (inherited members e.domain ≡ none → in_domain e.domain d.admitted < p.per_domain_cap)
      → length d.admitted < p.total_cap
      → IsAdmission p (seen ++ e ∷ []) (admit members e d)
  unfolding admit in_domain
  admit-IsAdmission p seen d e h sound room space = record {
    split = last_admitted e h.split;
    counted = λ x. admitted-IsCountOf x e d.admitted d.per_domain_counts h.counted;
    sound = All-append (IsSound p) d.admitted (e ∷ []) h.sound (sound, tt);
    domain_bound = λ x own.
        let a = in_domain-append x d.admitted (e ∷ []) in
        let b = h.domain_bound x own in
        elim (Bool-cases (bytes_equal x e.domain)) [
          | inl k ↦
              let same = equal_eq x e.domain k in
              let r = room (ap (inherited members) (sym same) ∙ own) in
              let t = ap (λ y. in_domain y d.admitted) same in ground arith
          | inr k ↦ ground arith
        ];
    bound = let n = length-append d.admitted (e ∷ []) in omega arith;
    reasons = All-imp (λ r. IsReason-append p d.admitted (e ∷ []) (r.0) (r.1)) d.rejected h.reasons;
  }

  pub consider-IsAdmission :
      (p : AdmissionPolicy) (seen : List CorpusEvent) (d : AdmissionDecision) (e : CorpusEvent)
      → IsAdmission p seen d
      → IsAdmission p (seen ++ e ∷ []) (consider members p e d)
  unfolding consider IsVerdict admit_within_caps IsReason
  consider-IsAdmission p seen d e h = decided (quality_fault p e) (quality_fault-IsVerdict p e)
    where
      decided :
          (fault : Option AdmissionRejectionReason)
          → IsVerdict p e fault
          → IsAdmission p (seen ++ e ∷ []) (elim fault [
            | some reason ↦ reject e reason d
            | none ↦ admit_within_caps members p e d
          ])
      decided (some reason) v = reject-IsAdmission p seen d e reason h (v d.admitted)
      decided none sound =
          let o = h.counted e.domain in
          elim (Bool-cases
            (at_cap p.per_domain_cap (domain_count members e.domain d.per_domain_counts))) [
              | inl full ↦ rw full (
                  reject-IsAdmission p seen d e per_domain_cap_exceeded h (
                    let (own, many) = at_cap-full _ _ _ p.per_domain_cap o full in
                    (sound, own, many)))
              | inr room ↦ elim (Bool-cases (leb p.total_cap (length d.admitted))) [
                | inl full ↦ rw room (
                    rw full
                      (reject-IsAdmission p seen d e total_cap_exceeded h (sound, ground arith)))
                | inr space ↦ rw room (
                    rw space (
                      admit-IsAdmission p seen d e h sound
                        (at_cap-room _ _ _ p.per_domain_cap o room) (ground arith)))
              ]
            ]
