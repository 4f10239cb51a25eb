-- ===== src/Corpus.antt =====
-- src/corpus: which events enter the corpus.
pub mod Admission
