-- ===== src/Donate/Webhook/Decided.antt =====
-- Deciding rows: every row that is decided has a decision, which is never replaced, and the books
-- of the ledger are kept.
use monster_paws.Prelude.{ℕ, Text, nat_key, text_key, ◌≡◌, inr, Option, true}
use monster_paws.Donate.Body.{DonationFields}
use monster_paws.Donate.Ledger.{Ledger, overflows}
use monster_paws.Donate.Ledger.Books.{Books}
use monster_paws.Donate.Webhook.{PayloadRow, read_row}

module _ (parse_date : Text → Option ℕ) where
  -- The row's gift has an amount that its column cannot hold.
  abbrev pub IsTooLarge : PayloadRow → Type 0
  IsTooLarge row =
      (partner_id : Text) × (fields : DonationFields) × (read_row parse_date row.delivery
        ≡ inr (partner_id, fields))
      × (overflows fields ≡ true)
