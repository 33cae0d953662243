-- ===== src/Serving.antt =====
-- The serving layer: janasunani/serving, with the scorer that its triage calls.
pub mod Signals
pub mod Spam
pub mod Review
pub mod Triage
