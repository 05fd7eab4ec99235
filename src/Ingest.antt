-- ===== src/Ingest.antt =====
-- core/ingest: observations from the sources become canonical animals.
pub mod Hash
pub mod Fields
pub mod Merge
pub mod Model
pub mod Gate
pub mod Report
pub mod Pipeline
pub mod Corpus
pub mod Memory
pub mod Reconcile
pub mod MemoryStages
pub mod Pg
mod Tests
