-- ===== src/Corpus/Admission.antt =====
-- src/corpus/admission.ts: the policy that a batch of candidate events passes. A text is the list of its
-- UTF-16 units, a document stands by its id, and of an event the fields that the policy reads are kept.
-- The counts of the domains are a plain object: its own properties are an association list, and what it
-- inherits for a name, such as `constructor`, is a parameter.
pub mod Laws
pub mod Batch
use coretex_client.Prelude.{
  ℕ, zero, suc, ◌+◌, ◌-◌, ◌*◌, ◌/◌, ◌%◌, ◌^◌, ◌≤◌, ◌<◌, min, max, ◌≡◌, ◌≢◌, ◌↔◌, ◌⊎◌, inl, inr,
  refl, sym, ap, ◌∙◌, List, [], ◌∷◌, ◌++◌, map, length, get_elem?, get_or, set, take, drop,
  replicate, tabulate, All, Option, none, some, Option-cases, Bool, true, false, not, ◌&&◌, ◌||◌,
  arith, ltb, leb, ◌==◌, if◌then◌else◌, Bool-cases, &&-eq-true, ||-eq-false, ==-eq-false, list_head,
  contains, length-append, length-set, get_elem?-set_self, get_elem?-set_ne, ==_iff, length-map,
  some-injective, positive_test, if-both,
}
use coretex_client.State.Patch.Apply.{bytes_equal}

pub record AdmissionPolicy : Type 0 where
  pub total_cap : ℕ
  pub per_domain_cap : ℕ
  pub min_hard_negatives_per_record : ℕ
  pub min_truth_documents_per_record : ℕ
  pub require_source_provenance : Bool
  pub min_positive_qrel_entries : ℕ
  pub required_bi_encoder_model_id : List ℕ
  pub required_bi_encoder_revision : List ℕ

-- The policy without the model and its revision, which the caller adds.
abbrev pub default_admission_policy : List ℕ → List ℕ → AdmissionPolicy
default_admission_policy model_id revision = record {
  total_cap = 10000;
  per_domain_cap = 1500;
  min_hard_negatives_per_record = 2;
  min_truth_documents_per_record = 1;
  require_source_provenance = true;
  min_positive_qrel_entries = 1;
  required_bi_encoder_model_id = model_id;
  required_bi_encoder_revision = revision;
}

-- 0.0, 0.2, 0.4, 0.6, 0.8 and 1.0
pub data GradedRelevance : Type 0 where
  zero_fifths : GradedRelevance
  one_fifth : GradedRelevance
  two_fifths : GradedRelevance
  three_fifths : GradedRelevance
  four_fifths : GradedRelevance
  five_fifths : GradedRelevance

pub record QrelEntry : Type 0 where
  pub document_id : List ℕ
  pub relevance : GradedRelevance

pub record CorpusEvent : Type 0 where
  pub domain : List ℕ
  pub truth_documents : List (List ℕ)
  pub hard_negatives : List (List ℕ)
  pub qrels : List QrelEntry
  pub source_hash : Option (List ℕ)
  pub model_id : List ℕ
  pub revision : List ℕ

pub data AdmissionRejectionReason : Type 0 where
  missing_source_provenance : AdmissionRejectionReason
  insufficient_hard_negatives : AdmissionRejectionReason
  insufficient_truth_documents : AdmissionRejectionReason
  insufficient_positive_qrels : AdmissionRejectionReason
  embedding_model_id_mismatch : AdmissionRejectionReason
  embedding_revision_mismatch : AdmissionRejectionReason
  per_domain_cap_exceeded : AdmissionRejectionReason
  total_cap_exceeded : AdmissionRejectionReason

-- A value of the object: a number, or the text of a function, an object or a string that is read as
-- no number.
pub data CountValue : Type 0 where
  number : ℕ → CountValue
  other : List ℕ → CountValue

pub record AdmissionDecision : Type 0 where
  pub admitted : List CorpusEvent
  pub rejected : List (CorpusEvent × AdmissionRejectionReason)
  pub per_domain_counts : List (List ℕ × CountValue)

-- The units that `trim` removes.
abbrev pub is_space : ℕ → Bool
is_space c =
    leb 9 c && leb c 13
    || leb 8192 c && leb c 8202
    || contains c (32 ∷ 160 ∷ 5760 ∷ 8232 ∷ 8233 ∷ 8239 ∷ 8287 ∷ 12288 ∷ 65279 ∷ [])

-- `text.trim() === ''`
abbrev pub is_blank : List ℕ → Bool
is_blank [] = true
is_blank (c ∷ text) = is_space c && is_blank text

abbrev pub source_text : Option (List ℕ) → List ℕ
source_text none = []
source_text (some text) = text

abbrev pub is_positive : GradedRelevance → Bool
is_positive zero_fifths = false
is_positive _ = true

abbrev pub positives : List QrelEntry → ℕ
positives [] = 0
positives (q ∷ qrels) =
    let rest = positives qrels in if is_positive q.relevance then suc rest else rest

-- The checks that look at the record alone, in the order of the loop.
unfoldable pub quality_fault : AdmissionPolicy → CorpusEvent → Option AdmissionRejectionReason
quality_fault p event =
    let is_abstention = length event.truth_documents == 0 in
    if p.require_source_provenance && is_blank (source_text event.source_hash)
    then some missing_source_provenance
    else if not is_abstention && ltb (length event.truth_documents) p.min_truth_documents_per_record
    then some insufficient_truth_documents
    else if ltb (length event.hard_negatives) p.min_hard_negatives_per_record
    then some insufficient_hard_negatives
    else if not is_abstention && ltb (positives event.qrels) p.min_positive_qrel_entries
    then some insufficient_positive_qrels
    else if not (bytes_equal event.model_id p.required_bi_encoder_model_id)
    then some embedding_model_id_mismatch
    else if not (bytes_equal event.revision p.required_bi_encoder_revision)
    then some embedding_revision_mismatch
    else none

unfoldable pub reject :
    CorpusEvent → AdmissionRejectionReason → AdmissionDecision → AdmissionDecision
reject event reason d = record d { rejected = d.rejected ++ (event, reason) ∷ [] }

-- `__proto__`
abbrev pub is_proto : List ℕ → Bool
is_proto domain = bytes_equal domain (95 ∷ 95 ∷ 112 ∷ 114 ∷ 111 ∷ 116 ∷ 111 ∷ 95 ∷ 95 ∷ [])

-- `[object Object]`
abbrev pub object_text : List ℕ
object_text = 91 ∷ 111 ∷ 98 ∷ 106 ∷ 101 ∷ 99 ∷ 116 ∷ 32 ∷ 79 ∷ 98 ∷ 106 ∷ 101 ∷ 99 ∷ 116 ∷ 93 ∷ []

-- `count >= cap`
abbrev pub at_cap : ℕ → CountValue → Bool
at_cap cap (number n) = leb cap n
at_cap cap (other text) = false

-- `count + 1`
abbrev pub add_one : CountValue → CountValue
add_one (number n) = number (n + 1)
add_one (other text) = other (text ++ 49 ∷ [])

unfoldable pub set_domain_count :
    List ℕ → CountValue → List (List ℕ × CountValue) → List (List ℕ × CountValue)
set_domain_count domain v [] = (domain, v) ∷ []
set_domain_count domain v ((d, m) ∷ counts) =
    let rest = set_domain_count domain v counts in
    if bytes_equal domain d then (d, v) ∷ counts else (d, m) ∷ rest

-- `perDomainCounts[domain] = v`; a number or a text as the prototype is ignored.
unfoldable pub assign_count :
    List ℕ → CountValue → List (List ℕ × CountValue) → List (List ℕ × CountValue)
assign_count domain v counts = if is_proto domain then counts else set_domain_count domain v counts

-- The texts of the functions that a plain object inherits, by their names.
module _ (members : List ℕ → Option (List ℕ)) where
  -- The text of what the object inherits for the name.
  unfoldable pub inherited : List ℕ → Option (List ℕ)
  inherited domain = if is_proto domain then some object_text else members domain

  -- `perDomainCounts[domain] ?? 0`
  unfoldable pub domain_count : List ℕ → List (List ℕ × CountValue) → CountValue
  domain_count domain [] = elim (inherited domain) [ none ↦ number 0 | some text ↦ other text ]
  domain_count domain ((d, v) ∷ counts) =
      let rest = domain_count domain counts in if bytes_equal domain d then v else rest

  unfoldable pub admit : CorpusEvent → AdmissionDecision → AdmissionDecision
  admit event d = record d {
    admitted = d.admitted ++ event ∷ [];
    per_domain_counts =
        assign_count event.domain (add_one (domain_count event.domain d.per_domain_counts))
          d.per_domain_counts;
  }

  -- The checks against what the batch has admitted so far.
  unfoldable pub admit_within_caps :
      AdmissionPolicy → CorpusEvent → AdmissionDecision → AdmissionDecision
  admit_within_caps p event d =
      if at_cap p.per_domain_cap (domain_count event.domain d.per_domain_counts)
      then reject event per_domain_cap_exceeded d
      else if leb p.total_cap (length d.admitted)
      then reject event total_cap_exceeded d
      else admit event d

  -- One turn of the loop.
  unfoldable pub consider : AdmissionPolicy → CorpusEvent → AdmissionDecision → AdmissionDecision
  consider p event d = elim (quality_fault p event) [
    | some reason ↦ reject event reason d
    | none ↦ admit_within_caps p event d
  ]

  unfoldable pub admit_loop :
      AdmissionPolicy → List CorpusEvent → AdmissionDecision → AdmissionDecision
  admit_loop p [] d = d
  admit_loop p (event ∷ candidates) d = admit_loop p candidates (consider p event d)

  unfoldable pub admit_corpus_batch : List CorpusEvent → AdmissionPolicy → AdmissionDecision
  admit_corpus_batch candidates p =
      admit_loop p candidates (record { admitted = []; rejected = []; per_domain_counts = [] })
