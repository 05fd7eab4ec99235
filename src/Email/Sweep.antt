-- ===== src/Email/Sweep.antt =====
-- core/email/painting-sweep.ts: a claim before each send, the send, and what its answer leaves of
-- the claim. The calls of the sender are kept in a log.
pub mod Claims
pub mod Window
pub mod Sent
pub mod Silence
use monster_paws.Prelude.{
  take, ℕ, suc, ◌+◌, ◌*◌, Text, text_eq, text_key, nat_key, codes, decimal, ltb, Bool, true, false,
  not, ◌&&◌, ◌||◌, Option, none, some, List, [], ◌∷◌, ◌++◌, Map, lookup, insert, if◌then◌else◌,
}
use monster_paws.Email.Room.{SendRow, MailRoom, is_full, remove_send}
use monster_paws.Email.Suppression.{exact_digest, is_suppressed}
use monster_paws.Email.Reports.{Outcome, bounced, settle_early_event}

pub record OwedPainting : Type 0 where
  pub keepsake_id : ℕ
  pub to : Text
  pub animal_name : Option Text
  pub share_token : Option Text

pub record SweepReport : Type 0 where
  pub sent : ℕ
  pub bounced : ℕ
  pub suppressed : ℕ
  pub stale : ℕ
  pub held : ℕ
  pub incomplete : ℕ
  pub art_unreadable : ℕ
  pub failures : Map Text ℕ

abbrev pub claim_window_ms : ℕ
claim_window_ms = 23 * 3_600_000

-- Whether a mail may have left: `sent: "no"` or `"unknown"`.
pub data Left : Type 0 where
  surely_not unknown : Left

-- The sender's id for the mail, or an `EmailSendError`.
pub data Answer : Type 0 where
  went : Text → Answer
  refused : Text → Left → Bool → Answer

-- What is outside for one painting: its files, the sender, the time of the write, and whether the
-- write of `sent_at` throws, or the reading of early reports.
pub record Moment : Type 0 where
  pub readable : Bool
  pub answer : Answer
  pub written_at : ℕ
  pub write_throws : Bool
  pub settle_throws : Bool

-- A call of the sender.
pub record Call : Type 0 where
  pub keepsake_id : ℕ
  pub to : Text
  pub send_key : Text
  pub at : ℕ
  pub may_have_left : Bool

pub data Claim : Type 0 where
  new retry stale held already_sent : Claim

claim_of_row : ℕ → SendRow → Claim
unfolding is_full
claim_of_row now row = elim row.sent_at [
  | some at ↦ already_sent
  | none ↦
      if is_full row.refused_code
      then held
      else if ltb (row.claimed_at + claim_window_ms) now
      then stale
      else retry
]

new_send : ℕ → SendRow
new_send now = record { claimed_at = now; sent_at = none; provider_id = none; refused_code = none }

-- `claimSend`.
pub claim_send : ℕ → ℕ → MailRoom → Claim × MailRoom
unfolding claim_of_row new_send
claim_send keepsake_id now room = elim (lookup keepsake_id room.sends) [
  | none ↦ (new, record room { sends = insert keepsake_id (new_send now) room.sends })
  | some row ↦ (claim_of_row now row, room)
]

-- `UPDATE painting_email_sends … WHERE keepsake_id`.
update_send : ℕ → (SendRow → SendRow) → MailRoom → MailRoom
update_send keepsake_id f room = elim (lookup keepsake_id room.sends) [
  | none ↦ room
  | some row ↦ record room { sends = insert keepsake_id (f row) room.sends }
]

count_failure : Text → SweepReport → SweepReport
count_failure code report = elim (lookup code report.failures) [
  | none ↦ record report { failures = insert code 1 report.failures }
  | some n ↦ record report { failures = insert code (suc n) report.failures }
]

count_settled : Option Outcome → SweepReport → SweepReport
count_settled (some bounced) report = record report { bounced = suc report.bounced }
count_settled _ report = report

-- Anything but an `EmailSendError` is one of this code.
abbrev unexpected : Text
unexpected = codes "unexpected"

-- What a failure leaves of the claim: an unknown outcome keeps it.
release : ℕ → Claim → Text → Left → Bool → MailRoom → MailRoom
unfolding update_send remove_send
release keepsake_id claim code left false room =
    update_send keepsake_id (λ row. record row { refused_code = some code }) room
release keepsake_id new code surely_not true room = record room {
  sends = remove_send keepsake_id room.sends;
}
release keepsake_id _ code _ true room = room

text_or : Option Text → Text → Text
text_or none d = d
text_or (some s) d = s

module _ (hmac tidy : Text → Text) where
  send_key_of : OwedPainting → Text
  unfolding text_or take
  send_key_of owed =
      text_or owed.share_token (codes "keepsake-" ++ decimal owed.keepsake_id)
      ++ b'-' ∷ take 16 (exact_digest hmac tidy owed.to)

  call_of : OwedPainting → ℕ → Answer → Call
  unfolding send_key_of
  call_of owed now answer = record {
    keepsake_id = owed.keepsake_id;
    to = owed.to;
    send_key = send_key_of owed;
    at = now;
    may_have_left = elim answer [
      | went id ↦ true
      | refused code left again ↦ (elim left [ surely_not ↦ false | unknown ↦ true ])
    ];
  }

  -- After the sender has answered.
  settle_answer : OwedPainting → Claim → Moment → SweepReport → MailRoom → SweepReport × MailRoom
  unfolding release update_send count_failure count_settled
  settle_answer owed claim m report room = elim m.answer [
    | refused code left again ↦
        (count_failure code report, release owed.keepsake_id claim code left again room)
    | went id ↦
        if m.write_throws
        then (count_failure unexpected report, room)
        else let written =
            update_send owed.keepsake_id
              (λ row. record row { sent_at = some m.written_at; provider_id = some id }) room in
          let counted = record report { sent = suc report.sent } in
          if m.settle_throws
          then (count_failure unexpected counted, written)
          else let (settled, room') = settle_early_event hmac tidy id owed.to written in
            (count_settled settled counted, room')
  ]

  -- By the claim: the sender is called under one of this attempt, or one whose outcome is unknown.
  call_sender :
      OwedPainting
      → ℕ
      → Moment
      → SweepReport
      → List Call
      → Claim × MailRoom
      → SweepReport × (List Call × MailRoom)
  unfolding settle_answer call_of
  call_sender owed now m report calls (stale, room) =
      (record report { stale = suc report.stale }, (calls, room))
  call_sender owed now m report calls (held, room) =
      (record report { held = suc report.held }, (calls, room))
  call_sender owed now m report calls (already_sent, room) = (report, (calls, room))
  call_sender owed now m report calls (new, room) =
      let (report', room') = settle_answer owed new m report room in
      (report', (call_of owed now m.answer ∷ calls, room'))
  call_sender owed now m report calls (retry, room) =
      let (report', room') = settle_answer owed retry m report room in
      (report', (call_of owed now m.answer ∷ calls, room'))

  -- The loop's body.
  unfoldable pub send_owed :
      OwedPainting
      → ℕ
      → Moment
      → SweepReport
      → List Call
      → MailRoom
      → SweepReport × (List Call × MailRoom)
  unfolding call_sender is_full
  send_owed owed now m report calls room =
      if is_suppressed hmac tidy owed.to room
      then (record report { suppressed = suc report.suppressed }, (calls, room))
      else if not (is_full owed.animal_name)
      then (record report { incomplete = suc report.incomplete }, (calls, room))
      else if not m.readable
      then (record report { art_unreadable = suc report.art_unreadable }, (calls, room))
      else call_sender owed now m report calls (claim_send owed.keepsake_id now room)

  -- `sendOwedPaintings`, from a report on.
  unfoldable pub send_owed_paintings :
      ℕ
      → List (OwedPainting × Moment)
      → SweepReport
      → List Call
      → MailRoom
      → SweepReport × (List Call × MailRoom)
  unfolding send_owed
  send_owed_paintings now [] report calls room = (report, (calls, room))
  send_owed_paintings now ((owed, m) ∷ rest) report calls room =
      let (report', (calls', room')) = send_owed owed now m report calls room in
      send_owed_paintings now rest report' calls' room'
