-- ===== src/Outreach.antt =====
-- core/outreach: the record of every approach to a shelter, the guard that each letter passes, and
-- the waves of letters.
pub mod Record
pub mod Guard
pub mod Wave
pub mod Lawful
pub mod Runs
pub mod Selection
mod Tests
