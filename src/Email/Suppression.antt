-- ===== src/Email/Suppression.antt =====
-- core/email/suppression.ts: an inbox's digest, the list that stops mails, and the link that writes
-- on it.
pub mod Stopped
use monster_paws.Prelude.{
  take, drop, ℕ, zero, suc, ◌+◌, Text, text_eq, codes, ltb, leb, ◌==◌, Bool, true, false, not, ◌&&◌,
  ◌||◌, Option, none, some, List, [], ◌∷◌, ◌++◌, Map, length, keep_if, if◌then◌else◌,
}
use monster_paws.Donate.Shapes.{split_on}
use monster_paws.Email.Room.{Gift, MailRoom, has_member, add_suppression, update_rows}

-- `s.lastIndexOf("@")`, as the text before it and the text after it.
unfoldable pub at_last : Text → Option (Text × Text)
at_last [] = none
at_last (c ∷ s) = elim (at_last s) [
  | some (before, after) ↦ some (c ∷ before, after)
  | none ↦ if c == b'@' then some ([], s) else none
]

first_of : List Text → Text
first_of [] = []
first_of (s ∷ ss) = s

-- `googlemail.com` is `gmail.com`.
domain_of : Text → Text
domain_of domain = if text_eq domain (codes "googlemail.com") then codes "gmail.com" else domain

local_of : Text → Text → Text
local_of domain local =
    let plain = first_of (split_on b'+' local) in
    if text_eq domain (codes "gmail.com") then keep_if (λ c. not (c == b'.')) plain else plain

-- `normaliseInbox`, of an address that is trimmed and in lower case.
pub normalise_inbox : Text → Text
unfolding at_last domain_of local_of
normalise_inbox lower = elim (at_last lower) [
  | none ↦ lower
  | some (local, domain) ↦ let host = domain_of domain in local_of host local ++ b'@' ∷ host
]

abbrev pub is_hex : ℕ → Bool
is_hex c = (leb b'0' c && leb c b'9') || (leb b'a' c && leb c b'f')

unfoldable pub every_hex : Text → Bool
every_hex [] = true
every_hex (c ∷ s) = is_hex c && every_hex s

-- `TOKEN`: 64 hexadecimal digits, a dash, and 32 more; the two groups.
token_parts : Text → Option (Text × Text)
unfolding every_hex take drop
token_parts token =
    let inbox = take 64 token in
    elim (drop 64 token) [
      | [] ↦ none
      | c ∷ mac ↦
          if (c == b'-' && every_hex inbox)
            && ((length inbox == 64) && (every_hex mac && (length mac == 32)))
          then some (inbox, mac)
          else none
    ]

-- The keyed HMAC in hexadecimal, and `trim` with `toLowerCase`, are arguments.
module _ (hmac tidy : Text → Text) where
  digest : Text → Text → Text
  digest kind value = hmac (codes "suppression-" ++ kind ++ 0 ∷ value)

  pub exact_digest : Text → Text
  unfolding digest
  exact_digest address = digest (codes "exact") (tidy address)

  pub inbox_digest : Text → Text
  unfolding digest normalise_inbox
  inbox_digest address = digest (codes "inbox") (normalise_inbox (tidy address))

  -- `isSuppressed`.
  unfoldable pub is_suppressed : Text → MailRoom → Bool
  unfolding has_member
  is_suppressed address room =
      has_member (exact_digest address) room.suppressions
      || has_member (inbox_digest address) room.suppressions

  token_mac : Text → Text
  unfolding take
  token_mac inbox = take 32 (hmac (codes "unsubscribe-link" ++ 0 ∷ inbox))

  -- `unsubscribeToken`.
  pub unsubscribe_token : Text → Text
  unsubscribe_token address = let inbox = inbox_digest address in inbox ++ b'-' ∷ token_mac inbox

  -- `inboxOfToken`.
  pub inbox_of_token : Text → Option Text
  unfolding token_parts token_mac
  inbox_of_token token = elim (token_parts token) [
    | none ↦ none
    | some (inbox, mac) ↦ if text_eq (token_mac inbox) mac then some inbox else none
  ]

  -- A gift that holds an address of the inbox.
  unfoldable pub holds_inbox : Text → Gift → Bool
  holds_inbox inbox gift = elim gift.donor_email [
    | none ↦ false
    | some address ↦ text_eq (inbox_digest address) inbox
  ]

  count_held : Text → Map Text Gift → ℕ
  unfolding holds_inbox
  count_held inbox [] = 0
  count_held inbox ((k, gift) ∷ rest) =
      let others = count_held inbox rest in if holds_inbox inbox gift then suc others else others

  -- The addresses of one inbox, erased on every gift.
  unfoldable pub erase_inbox : Text → Map Text Gift → Map Text Gift
  unfolding holds_inbox
  erase_inbox inbox = update_rows (holds_inbox inbox) (λ gift. record gift { donor_email = none })

  -- What an unsubscribe and a complaint both do.
  unfoldable pub stop_inbox : Text → MailRoom → MailRoom
  unfolding add_suppression erase_inbox
  stop_inbox inbox room =
      let listed = add_suppression inbox room in
      record listed { gifts = erase_inbox inbox listed.gifts }

  -- `unsubscribe`, with the number of addresses that it erased.
  pub unsubscribe : Text → MailRoom → Option ℕ × MailRoom
  unfolding inbox_of_token count_held stop_inbox
  unsubscribe token room = elim (inbox_of_token token) [
    | none ↦ (none, room)
    | some inbox ↦ (some (count_held inbox room.gifts), stop_inbox inbox room)
  ]
