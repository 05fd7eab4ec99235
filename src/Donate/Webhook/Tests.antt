-- ===== src/Donate/Webhook/Tests.antt =====
-- A sweep of core/donate/webhook-replay.ts over two files, of which the second cannot be read.
use monster_paws.Prelude.{ℕ, Text, codes, nat_key, Option, none, some, List, [], ◌∷◌, true}
use monster_paws.Donate.Ledger.Books.{Books}
use monster_paws.Donate.Ledger.Tests.{intent_id, ledger}
use monster_paws.Donate.Webhook.{
  StoredDelivery, PayloadRow, Inbox, SpoolEntry, StoreFate, landed_late, Sweep, sweep_files,
}
use monster_paws.Donate.Webhook.Spool.{Swept, sweep_files-Swept}

abbrev delivery : StoredDelivery
delivery = record { body = []; partner_donation_id = some intent_id; received_at = 5 }

abbrev files : List SpoolEntry
files =
    (record { file = codes "5-a.json"; age_ms = 700_000; row = some delivery })
    ∷ (record { file = codes "6-b.json"; age_ms = 9; row = none })
    ∷ []

abbrev inbox : Inbox
inbox = record { payloads = []; next_id = 1; ledger = ledger }

abbrev start : Sweep
start = record { inbox = inbox; left = []; replayed = 0; stale_files = 0; database_up = true }

abbrev late : SpoolEntry → StoreFate
late entry = landed_late

sweep_example : Swept files start (sweep_files late files start)
sweep_example = sweep_files-Swept late files start

abbrev rows : List PayloadRow
rows = (record { id = 1; delivery = delivery }) ∷ (record { id = 2; delivery = delivery }) ∷ []

abbrev at_ten : ℕ → ℕ
at_ten id = 10

abbrev no_date : Text → Option ℕ
no_date s = none
