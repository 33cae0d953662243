-- ===== src/Dedup.antt =====
-- janasunani/pipeline: the duplicate index.
pub mod UnionFind
pub mod Verify
pub mod Run
pub mod Identity
pub mod Signature
