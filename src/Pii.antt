-- ===== src/Pii.antt =====
-- Personal data: the span filter of the tagger and the scoring of its predictions.
pub mod Tagger
pub mod Evaluation
pub mod Ensemble
