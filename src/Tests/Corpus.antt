-- ===== src/Tests/Corpus.antt =====
-- The theorems on the admission of events to the corpus, at concrete inputs.
use coretex_client.Prelude.{
  Option, if◌then◌else◌, map, ℕ, List, [], ◌∷◌, none, some, true, ◌≡◌, refl,
}
use coretex_client.Corpus.Admission.{
  AdmissionPolicy, CorpusEvent, five_fifths, admit_corpus_batch, reject, admit, admit_within_caps,
  consider, admit_loop, quality_fault, domain_count, set_domain_count, assign_count, inherited,
}
use coretex_client.Corpus.Admission.Laws.{IsAdmission}
use coretex_client.Corpus.Admission.Batch.{
  IsGreedy, admit_corpus_batch-IsAdmission, admit_corpus_batch-IsGreedy,
}
use coretex_client.State.Patch.Apply.{bytes_equal}

-- One event for each domain.
abbrev narrow : AdmissionPolicy
narrow = record {
  total_cap = 3;
  per_domain_cap = 1;
  min_hard_negatives_per_record = 1;
  min_truth_documents_per_record = 1;
  require_source_provenance = true;
  min_positive_qrel_entries = 1;
  required_bi_encoder_model_id = 77 ∷ [];
  required_bi_encoder_revision = 82 ∷ [];
}

abbrev event_of : List ℕ → CorpusEvent
event_of domain = record {
  domain = domain;
  truth_documents = (84 ∷ []) ∷ [];
  hard_negatives = (78 ∷ []) ∷ [];
  qrels = record { document_id = 84 ∷ []; relevance = five_fifths } ∷ [];
  source_hash = some (48 ∷ 120 ∷ []);
  model_id = 77 ∷ [];
  revision = 82 ∷ [];
}

abbrev unsourced : CorpusEvent
unsourced = record (event_of (67 ∷ [])) { source_hash = none }

-- `constructor`, which a plain object inherits, is read as a function.
abbrev constructor_name : List ℕ
constructor_name = 99 ∷ 111 ∷ 110 ∷ 115 ∷ 116 ∷ 114 ∷ 117 ∷ 99 ∷ 116 ∷ 111 ∷ 114 ∷ []

abbrev members : List ℕ → Option (List ℕ)
members name = if bytes_equal name constructor_name then some (40 ∷ 41 ∷ []) else none

abbrev candidates : List CorpusEvent
candidates =
    event_of (65 ∷ [])
    ∷ event_of (65 ∷ [])
    ∷ unsourced
    ∷ event_of constructor_name
    ∷ event_of constructor_name
    ∷ event_of (67 ∷ [])
    ∷ []

-- The cap of one event for each domain is not applied to `constructor`.
admitted_domains :
    map (λ (e : CorpusEvent). e.domain) (admit_corpus_batch members candidates narrow).admitted
    ≡ (65 ∷ []) ∷ constructor_name ∷ constructor_name ∷ []
unfolding admit_corpus_batch admit_loop consider admit_within_caps reject admit quality_fault
    domain_count set_domain_count assign_count inherited bytes_equal
admitted_domains = refl

admit_corpus_batch-IsAdmission_example :
    IsAdmission members narrow candidates (admit_corpus_batch members candidates narrow)
admit_corpus_batch-IsAdmission_example = admit_corpus_batch-IsAdmission members candidates narrow

admit_corpus_batch-IsGreedy_example :
    IsGreedy members narrow candidates (admit_corpus_batch members candidates narrow)
admit_corpus_batch-IsGreedy_example = admit_corpus_batch-IsGreedy members candidates narrow
