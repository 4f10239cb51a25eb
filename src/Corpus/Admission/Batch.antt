-- ===== src/Corpus/Admission/Batch.antt =====
-- The batches of src/corpus/admission.ts: every candidate is decided, and the choice is the greedy one.
use coretex_client.Prelude.{
  ℕ, ◌<◌, ◌≡◌, inl, inr, refl, sym, ap, List, [], ◌∷◌, ◌++◌, length, Option, none, some, arith, leb,
  Bool-cases,
}
use mathlib.Core.Path.{subst}
use coretex_client.Corpus.Admission.{
  AdmissionPolicy, CorpusEvent, AdmissionRejectionReason, AdmissionDecision, domain_count, number,
  other, at_cap, inherited, quality_fault, reject, admit, admit_within_caps, consider, admit_loop,
  admit_corpus_batch, per_domain_cap_exceeded, total_cap_exceeded, missing_source_provenance,
  insufficient_hard_negatives, insufficient_truth_documents, insufficient_positive_qrels,
  embedding_model_id_mismatch, embedding_revision_mismatch,
}
use coretex_client.Corpus.Admission.Laws.{
  IsSound, in_domain, IsReason, no_candidates, IsAdmission, IsVerdict, quality_fault-IsVerdict,
  IsCountOf, at_cap-full, at_cap-room, consider-IsAdmission,
}

append_last :
    (xs : List CorpusEvent) (e : CorpusEvent) (zs : List CorpusEvent)
    → (xs ++ e ∷ []) ++ zs ≡ xs ++ e ∷ zs
append_last [] e zs = refl
append_last (x ∷ xs) e zs = ap (λ r. x ∷ r) (append_last xs e zs)

append_nil : (xs : List CorpusEvent) → xs ++ [] ≡ xs
append_nil [] = refl
append_nil (x ∷ xs) = ap (λ r. x ∷ r) (append_nil xs)

module _ (members : List ℕ → Option (List ℕ)) where
  -- An event may follow the events that are admitted.
  pub record IsAdmissible (p : AdmissionPolicy) (events : List CorpusEvent) (e : CorpusEvent)
      : Type 0 where
    pub sound : IsSound p e
    pub room : inherited members e.domain ≡ none → in_domain e.domain events < p.per_domain_cap
    pub space : length events < p.total_cap

  -- The candidates are taken in turn, and each is admitted exactly if it may follow those before it.
  pub data Greedy (p : AdmissionPolicy) : List CorpusEvent → List CorpusEvent → Type 0 where
    nothing_yet : Greedy p [] []
    taken :
        {cs xs : List CorpusEvent} (e : CorpusEvent)
        → Greedy p cs xs
        → IsAdmissible p xs e
        → Greedy p (cs ++ e ∷ []) (xs ++ e ∷ [])
    passed_over :
        {cs xs : List CorpusEvent} (e : CorpusEvent)
        → Greedy p cs xs
        → ¬ IsAdmissible p xs e
        → Greedy p (cs ++ e ∷ []) xs

  -- A reason to reject an event keeps it from being admissible.
  IsReason-inadmissible :
      (p : AdmissionPolicy) (events : List CorpusEvent) (e : CorpusEvent)
      (reason : AdmissionRejectionReason)
      → IsReason members p events e reason
      → ¬ IsAdmissible p events e
  unfolding IsReason
  IsReason-inadmissible p events e missing_source_provenance h a =
      let s = a.sound.sourced h.0 in let t = h.1 in absurd (cc)
  IsReason-inadmissible p events e insufficient_hard_negatives h a =
      let s = a.sound.negatives in absurd (omega arith)
  IsReason-inadmissible p events e insufficient_truth_documents h a =
      let s = a.sound.truths h.0 in let t = h.1 in absurd (omega arith)
  IsReason-inadmissible p events e insufficient_positive_qrels h a =
      let s = a.sound.graded h.0 in let t = h.1 in absurd (omega arith)
  IsReason-inadmissible p events e embedding_model_id_mismatch h a = h a.sound.model
  IsReason-inadmissible p events e embedding_revision_mismatch h a = h a.sound.revised
  IsReason-inadmissible p events e per_domain_cap_exceeded h a =
      let s = a.room h.1 in let t = h.2 in absurd (omega arith)
  IsReason-inadmissible p events e total_cap_exceeded h a =
      let s = a.space in let t = h.1 in absurd (omega arith)

  abbrev pub IsGreedy : AdmissionPolicy → List CorpusEvent → AdmissionDecision → Type 0
  IsGreedy p candidates d = Greedy p candidates d.admitted

  consider-IsGreedy :
      (p : AdmissionPolicy) (seen : List CorpusEvent) (d : AdmissionDecision) (e : CorpusEvent)
      → IsAdmission members p seen d
      → IsGreedy p seen d
      → IsGreedy p (seen ++ e ∷ []) (consider members p e d)
  unfolding consider IsVerdict admit_within_caps IsReason reject admit
  consider-IsGreedy p seen d e h g =
      decided (quality_fault p e) (quality_fault-IsVerdict members p e)
    where
      over :
          (reason : AdmissionRejectionReason)
          → IsReason members p d.admitted e reason
          → Greedy p (seen ++ e ∷ []) d.admitted
      over reason r = passed_over e g (IsReason-inadmissible p d.admitted e reason r)

      decided :
          (fault : Option AdmissionRejectionReason)
          → IsVerdict members p e fault
          → IsGreedy p (seen ++ e ∷ []) (elim fault [
            | some reason ↦ reject e reason d
            | none ↦ admit_within_caps members p e d
          ])
      decided (some reason) v = over reason (v d.admitted)
      decided none sound =
          let o = h.counted e.domain in
          elim (Bool-cases
            (at_cap p.per_domain_cap (domain_count members e.domain d.per_domain_counts))) [
              | inl full ↦ rw full (
                  over per_domain_cap_exceeded (
                    let (own, many) = at_cap-full _ _ _ p.per_domain_cap o full in
                    (sound, own, many)))
              | inr room ↦ elim (Bool-cases (leb p.total_cap (length d.admitted))) [
                | inl full ↦ rw room (rw full (over total_cap_exceeded (sound, ground arith)))
                | inr space ↦ rw room (
                    rw space (
                      taken e g (record {
                        sound = sound;
                        room = at_cap-room _ _ _ p.per_domain_cap o room;
                        space = ground arith;
                      })))
              ]
            ]

  IsDecided : AdmissionPolicy → List CorpusEvent → AdmissionDecision → Type 0
  IsDecided p seen d = IsAdmission members p seen d × IsGreedy p seen d

  admit_loop-IsDecided :
      (p : AdmissionPolicy) (seen candidates : List CorpusEvent) (d : AdmissionDecision)
      → IsDecided p seen d
      → IsDecided p (seen ++ candidates) (admit_loop members p candidates d)
  unfolding admit_loop IsDecided
  admit_loop-IsDecided p seen [] d h = subst (λ cs. IsDecided p cs d) (sym (append_nil seen)) h
  admit_loop-IsDecided p seen (e ∷ candidates) d h =
      subst (λ cs. IsDecided p cs (admit_loop members p candidates (consider members p e d)))
        (append_last seen e candidates)
        (admit_loop-IsDecided p (seen ++ e ∷ []) candidates (consider members p e d)
          (consider-IsAdmission members p seen d e h.0, consider-IsGreedy p seen d e h.0 h.1))

  nothing_counted : (x : List ℕ) → IsCountOf (inherited members x) 0 (domain_count members x [])
  unfolding IsCountOf domain_count
  nothing_counted x = unread (inherited members x)
    where
      unread :
          (o : Option (List ℕ))
          → IsCountOf o 0 (elim o [ none ↦ number 0 | some text ↦ other text ])
      unread none = refl
      unread (some text) = (text, refl)

  admit_corpus_batch-IsDecided :
      (candidates : List CorpusEvent) (p : AdmissionPolicy)
      → IsDecided p candidates (admit_corpus_batch members candidates p)
  unfolding admit_corpus_batch domain_count in_domain IsDecided
  admit_corpus_batch-IsDecided candidates p =
      admit_loop-IsDecided p [] candidates
        (record { admitted = []; rejected = []; per_domain_counts = [] })
        (
          record {
            split = no_candidates;
            counted = λ domain. nothing_counted domain;
            sound = tt;
            domain_bound = λ domain own. omega arith;
            bound = omega arith;
            reasons = tt;
          },
          nothing_yet,
        )

  -- The candidates are split into the admitted and the rejected ones, each in the order of the
  -- batch; the admitted ones keep the rules, of which the minimum of hard negatives applies to
  -- abstention records too, and the total cap; for each domain whose name a plain object does not
  -- inherit, they keep the cap of a domain and its count is that of its admitted events, while for
  -- an inherited name what is read as the count is no number; and what the reason of a rejected
  -- one says is true of it.
  pub admit_corpus_batch-IsAdmission :
      (candidates : List CorpusEvent) (p : AdmissionPolicy)
      → IsAdmission members p candidates (admit_corpus_batch members candidates p)
  unfolding IsDecided
  admit_corpus_batch-IsAdmission candidates p = (admit_corpus_batch-IsDecided candidates p).0

  -- `admitCorpusBatch` takes the candidates in turn and admits each exactly if it keeps the rules
  -- on a record alone, the admitted events are fewer than the total cap, and, unless a plain
  -- object inherits a member of the domain's name, the admitted events of its domain are fewer
  -- than the cap of a domain. For an inherited name the cap of a domain does not apply, and the
  -- minimum of hard negatives applies to abstention records too.
  pub admit_corpus_batch-IsGreedy :
      (candidates : List CorpusEvent) (p : AdmissionPolicy)
      → IsGreedy p candidates (admit_corpus_batch members candidates p)
  unfolding IsDecided
  admit_corpus_batch-IsGreedy candidates p = (admit_corpus_batch-IsDecided candidates p).1
