-- ===== src/Donate.antt =====
-- core/donate: gifts that are started on a page, paid elsewhere, and recorded by a webhook.
pub mod Shapes
pub mod Body
pub mod Ledger
pub mod Webhook
pub mod Intents
pub mod Gate
pub mod ThankYou
