-- ===== src/Egress.antt =====
-- The egress client: janasunani/egress/sarvam.py.
pub mod Http
pub mod Audit
pub mod Client
pub mod Job
pub mod Provider
pub mod Transliteration
pub mod History
mod Scenario
pub mod Rate
pub mod Route
pub mod Schema
pub mod Tests
