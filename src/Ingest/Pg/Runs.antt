-- ===== src/Ingest/Pg/Runs.antt =====
-- Runs of core/ingest/pipeline.ts over the stages of core/ingest/pg.ts.
pub mod Plain
pub mod Latest
pub mod Tables
pub mod Writes
pub mod Refines
mod Tests
