-- ===== src/Email/Tests.antt =====
-- Runs of the mails on one gift with one painting, under an HMAC that is one text.
use monster_paws.Prelude.{
  ℕ, ◌+◌, ◌≤◌, ◌≡◌, refl, Text, text_key, nat_key, codes, true, false, none, some, [], ◌∷◌, lookup,
  All, arith,
}
use monster_paws.Email.Room.{Gift, MailRoom}
use monster_paws.Email.Suppression.{
  every_hex, unsubscribe_token, unsubscribe, inbox_digest, holds_inbox,
}
use monster_paws.Email.Suppression.Stopped.{IsHex}
use monster_paws.Email.Reports.{ResendEvent, replay, receive_resend_event}
use monster_paws.Email.Reports.Once.{receive_all, receive_resend_event-again}
use monster_paws.Email.Sweep.{
  OwedPainting, SweepReport, Moment, went, refused, unknown, claim_window_ms, send_owed_paintings,
  send_owed,
}
use monster_paws.Email.Sweep.Claims.{stamp}
use monster_paws.Email.Sweep.Window.{Post, Past, sweeps, Reach, here, next, Reach-within}
use monster_paws.Email.Sweep.Sent.{calls_of, Reach-sent}
use monster_paws.Email.Sweep.Silence.{unsubscribe-silence}

abbrev zeros : Text
zeros = codes "0000000000000000000000000000000000000000000000000000000000000000"

abbrev same_mac : Text → Text
same_mac m = zeros

abbrev as_it_is : Text → Text
as_it_is s = s

abbrev ann : Text
ann = codes "ann@x.org"

abbrev gift : Gift
gift = record { donor_email = some ann; account_id = none }

abbrev room : MailRoom
room = record {
  keepsakes = (7, codes "intent") ∷ [];
  gifts = (codes "intent", gift) ∷ [];
  sends = [];
  events = [];
  suppressions = [];
}

abbrev painting : OwedPainting
painting = record {
  keepsake_id = 7;
  to = ann;
  animal_name = some (codes "Tom");
  share_token = none;
}

abbrev arrives : Moment
arrives = record {
  readable = true;
  answer = went (codes "re_1");
  written_at = 105;
  write_throws = false;
  settle_throws = false;
}

-- No answer is known of the first attempt.
abbrev times_out : Moment
times_out = record arrives { answer = refused (codes "timeout") unknown true }

abbrev report : SweepReport
report = record {
  sent = 0;
  bounced = 0;
  suppressed = 0;
  stale = 0;
  held = 0;
  incomplete = 0;
  art_unreadable = 0;
  failures = [];
}

abbrev permanent_bounce : ResendEvent
permanent_bounce = record {
  event_type = codes "email.bounced";
  email_id = some (codes "re_1");
  to = some ann;
  is_permanent = true;
}

report_again_example :
    let later =
      receive_all same_mac as_it_is
        ((codes "msg_2", none) ∷ [])
        (receive_resend_event same_mac as_it_is (codes "msg_1") (some permanent_bounce) room).1 in
    receive_resend_event same_mac as_it_is (codes "msg_1") (some permanent_bounce) later
    ≡ (replay, later)
report_again_example =
    receive_resend_event-again same_mac as_it_is (codes "msg_1") permanent_bounce permanent_bounce
      ((codes "msg_2", none) ∷ []) room

zeros-IsHex : IsHex same_mac as_it_is
unfolding every_hex
zeros-IsHex m = (refl, refl)

silence_example :
    let (erased, after) =
      unsubscribe same_mac as_it_is (unsubscribe_token same_mac as_it_is ann) room in
    ((n : ℕ) × (erased ≡ some n))
    × ((id : Text) (g : Gift)
        → lookup id after.gifts ≡ some g
        → holds_inbox same_mac as_it_is (inbox_digest same_mac as_it_is ann) g ≡ false)
    × ((send_owed_paintings same_mac as_it_is 100 ((painting, arrives) ∷ []) report [] after).1
        ≡ ([], after))
silence_example =
    unsubscribe-silence same_mac as_it_is ann room 100 ((painting, arrives) ∷ []) report []
      zeros-IsHex (refl, tt)

abbrev start : Post
start = record { clock = 50; calls = []; room = room }

start-Past : Past start
unfolding lookup
start-Past k t s e = absurd (cc)

-- After the first sweep, whose answer is not known, and the second, by which the mail went.
abbrev first_post : Post
first_post = record {
  clock = 100;
  calls = (send_owed same_mac as_it_is painting 100 times_out report start.calls start.room).1.0;
  room = (send_owed same_mac as_it_is painting 100 times_out report start.calls start.room).1.1;
}

abbrev second_post : Post
second_post = record {
  clock = 200;
  calls =
      (send_owed same_mac as_it_is painting 200 arrives report first_post.calls
        first_post.room).1.0;
  room =
      (send_owed same_mac as_it_is painting 200 arrives report first_post.calls
        first_post.room).1.1;
}

start-Reach : Reach same_mac as_it_is start second_post
start-Reach =
    next (next here (sweeps painting 100 times_out report start (omega arith)))
      (sweeps painting 200 arrives report first_post (omega arith))

within_example :
    All
      (λ c.
        All
          (λ d.
            c.keepsake_id ≡ d.keepsake_id
            → c.may_have_left ≡ true
            → d.may_have_left ≡ true
            → d.at ≤ c.at + claim_window_ms)
          second_post.calls)
      second_post.calls
within_example = Reach-within same_mac as_it_is start-Past refl start-Reach

-- A row that says that its mail was sent.
abbrev sent_room : MailRoom
sent_room = record room {
  sends =
      (
        7,
        record {
          claimed_at = 100;
          sent_at = some 105;
          provider_id = some (codes "re_1");
          refused_code = none;
        },
      )
      ∷ [];
}

abbrev sent_start : Post
sent_start = record { clock = 150; calls = []; room = sent_room }

abbrev sent_later : Post
sent_later = record {
  clock = 200;
  calls =
      (send_owed same_mac as_it_is painting 200 arrives report sent_start.calls
        sent_start.room).1.0;
  room =
      (send_owed same_mac as_it_is painting 200 arrives report sent_start.calls
        sent_start.room).1.1;
}

sent-Reach : Reach same_mac as_it_is sent_start sent_later
sent-Reach = next here (sweeps painting 200 arrives report sent_start (omega arith))

sent_stamp : stamp 7 sent_room ≡ some (100, some 105)
unfolding lookup
sent_stamp = refl

sent_example :
    (stamp 7 sent_later.room ≡ some (100, some 105))
    × (calls_of 7 sent_later.calls ≡ calls_of 7 sent_start.calls)
sent_example = Reach-sent same_mac as_it_is 7 100 105 sent_stamp sent-Reach
