-- ===== src/Email/Room.antt =====
-- The tables of db/schema.ts that the mails of core/email read and write.
use monster_paws.Prelude.{
  ℕ, Text, text_eq, text_key, nat_key, ◌==◌, Bool, true, false, ◌||◌, Option, none, some, List, [],
  ◌∷◌, Map, if◌then◌else◌,
}

-- A row of `donation_intents`, as far as mails go.
pub record Gift : Type 0 where
  pub donor_email : Option Text
  pub account_id : Option ℕ

-- A row of `painting_email_sends`, under its keepsake's id.
pub record SendRow : Type 0 where
  pub claimed_at : ℕ
  pub sent_at : Option ℕ
  pub provider_id : Option Text
  pub refused_code : Option Text

-- A row of `resend_webhook_events`, of which nothing reads the order.
pub record MailEvent : Type 0 where
  pub svix_id : Text
  pub event_type : Text
  pub email_id : Option Text

-- The tables; a keepsake is under its id and names its gift.
pub record MailRoom : Type 0 where
  pub keepsakes : Map ℕ Text
  pub gifts : Map Text Gift
  pub sends : Map ℕ SendRow
  pub events : List MailEvent
  pub suppressions : List Text

-- A text that is there and not empty.
unfoldable pub is_full : Option Text → Bool
is_full none = false
is_full (some []) = false
is_full (some (c ∷ cs)) = true

unfoldable pub is_text : Option Text → Text → Bool
is_text none s = false
is_text (some t) s = text_eq t s

unfoldable pub has_member : Text → List Text → Bool
has_member s [] = false
has_member s (t ∷ ts) = text_eq t s || has_member s ts

-- `INSERT … ON CONFLICT DO NOTHING` into the suppressions.
unfoldable pub add_suppression : Text → MailRoom → MailRoom
unfolding has_member
add_suppression digest room =
    if has_member digest room.suppressions
    then room
    else record room { suppressions = digest ∷ room.suppressions }

-- `UPDATE` of the rows that pass a test.
unfoldable pub update_rows : {K V : Type 0} → (V → Bool) → (V → V) → Map K V → Map K V
update_rows test f [] = []
update_rows test f ((k, v) ∷ rest) = (k, if test v then f v else v) ∷ update_rows test f rest

-- The address of one gift.
unfoldable pub address_of : Option Gift → Option Text
address_of none = none
address_of (some gift) = gift.donor_email

unfoldable pub remove_send : ℕ → Map ℕ SendRow → Map ℕ SendRow
remove_send k [] = []
remove_send k ((j, row) ∷ rest) =
    let others = remove_send k rest in if j == k then others else (j, row) ∷ others
