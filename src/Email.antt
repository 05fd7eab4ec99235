-- ===== src/Email.antt =====
-- core/email: the list of addresses that are never mailed again, the reports of the provider, and
-- the sweep that sends the paintings.
pub mod Room
pub mod Suppression
pub mod Reports
pub mod Sweep
mod Tests
