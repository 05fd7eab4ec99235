-- ===== src/Email/Suppression/Stopped.antt =====
-- The link of a mail to an address stops the address's inbox.
use mathlib.Core.Option.{some-injective}
use monster_paws.Prelude.{
  take, drop, ℕ, zero, suc, ◌≤◌, ◌≡◌, refl, ap, subst, inl, inr, Text, text_eq, text_eq_refl,
  text_key, codes, true, false, none, some, [], ◌∷◌, ◌++◌, Map, lookup, length, arith, Bool-cases,
  if◌then◌else◌,
}
use monster_paws.Email.Room.{Gift, MailRoom, has_member, add_suppression, update_rows}
use monster_paws.Email.Suppression.{
  every_hex, token_parts, digest, inbox_digest, is_suppressed, token_mac, unsubscribe_token,
  inbox_of_token, holds_inbox, erase_inbox, stop_inbox, count_held, unsubscribe,
}

take-append : (xs ys : Text) → take (length xs) (xs ++ ys) ≡ xs
unfolding take
take-append [] ys = refl
take-append (x ∷ xs) ys = ap (λ l. x ∷ l) (take-append xs ys)

drop-append : (xs ys : Text) → drop (length xs) (xs ++ ys) ≡ ys
unfolding drop
drop-append [] ys = refl
drop-append (x ∷ xs) ys = drop-append xs ys

every_hex-take : (n : ℕ) (s : Text) → every_hex s ≡ true → every_hex (take n s) ≡ true
unfolding every_hex take
every_hex-take zero s h = refl
every_hex-take (suc n) [] h = refl
every_hex-take (suc n) (c ∷ s) h = ground (arith, every_hex-take n s)

length-take : (n : ℕ) (s : Text) → n ≤ length s → length (take n s) ≡ n
unfolding take
length-take zero s h = refl
length-take (suc n) [] h = absurd (omega arith)
length-take (suc n) (c ∷ s) h = omega (arith, length-take n s (omega arith))

-- The two groups of a token are read back.
token_parts-append :
    (inbox mac : Text)
    → every_hex inbox ≡ true
    → length inbox ≡ 64
    → every_hex mac ≡ true
    → length mac ≡ 32
    → token_parts (inbox ++ b'-' ∷ mac) ≡ some (inbox, mac)
unfolding token_parts
token_parts-append inbox mac hex long hex' long' =
    let front : take 64 (inbox ++ b'-' ∷ mac) ≡ inbox =
      subst (λ n. take n (inbox ++ b'-' ∷ mac) ≡ inbox) long (take-append inbox (b'-' ∷ mac)) in
    let back : drop 64 (inbox ++ b'-' ∷ mac) ≡ b'-' ∷ mac =
      subst (λ n. drop n (inbox ++ b'-' ∷ mac) ≡ b'-' ∷ mac) long
        (drop-append inbox (b'-' ∷ mac)) in
    rw (token_parts, back, front, hex, hex', long, long') refl

module _ (hmac tidy : Text → Text) where
  -- An HMAC of SHA-256 in hexadecimal has 64 digits.
  abbrev pub IsHex : Type 0
  IsHex = (m : Text) → (every_hex (hmac m) ≡ true) × (length (hmac m) ≡ 64)

  inbox_digest-hex :
      (address : Text)
      → IsHex
      → (every_hex (inbox_digest hmac tidy address) ≡ true)
        × (length (inbox_digest hmac tidy address) ≡ 64)
  unfolding inbox_digest digest
  inbox_digest-hex address hex = hex _

  token_mac-hex :
      (inbox : Text)
      → IsHex
      → (every_hex (token_mac hmac tidy inbox) ≡ true) × (length (token_mac hmac tidy inbox) ≡ 32)
  unfolding token_mac
  token_mac-hex inbox hex =
      let (h, l) = hex (codes "unsubscribe-link" ++ 0 ∷ inbox) in
      (every_hex-take 32 _ h, length-take 32 _ (omega (arith, l)))

  -- The link names the inbox of the address that it was made for.
  pub inbox_of_token-unsubscribe_token :
      (address : Text)
      → IsHex
      → inbox_of_token hmac tidy (unsubscribe_token hmac tidy address)
        ≡ some (inbox_digest hmac tidy address)
  unfolding unsubscribe_token inbox_of_token inbox_digest
  inbox_of_token-unsubscribe_token address hex =
      let inbox = inbox_digest hmac tidy address in
      let (h, l) = inbox_digest-hex address hex in
      let (h', l') = token_mac-hex inbox hex in
      let parts = token_parts-append inbox (token_mac hmac tidy inbox) h l h' l' in
      rw (inbox_of_token, parts, text_eq_refl (token_mac hmac tidy inbox)) refl

  has_member-add :
      (digest : Text) (room : MailRoom)
      → has_member digest (add_suppression digest room).suppressions ≡ true
  unfolding add_suppression has_member
  has_member-add digest room = ground (arith, text_eq_refl digest)

  pub is_suppressed-stop_inbox :
      (inbox other : Text) (room : MailRoom)
      → inbox_digest hmac tidy other ≡ inbox
      → is_suppressed hmac tidy other (stop_inbox hmac tidy inbox room) ≡ true
  unfolding is_suppressed stop_inbox
  is_suppressed-stop_inbox inbox other room e = ground (arith, e, has_member-add inbox room)

  erased_all :
      (inbox id : Text) (gift : Gift) (gifts : Map Text Gift)
      → lookup id (erase_inbox hmac tidy inbox gifts) ≡ some gift
      → holds_inbox hmac tidy inbox gift ≡ false
  unfolding erase_inbox update_rows lookup holds_inbox
  erased_all inbox id gift [] h = absurd (cc)
  erased_all inbox id gift ((k, g) ∷ rest) h = elim (Bool-cases (text_eq k id)) [
    | inr other ↦ erased_all inbox id gift rest (rw other at h)
    | inl same ↦
        let one : (if holds_inbox hmac tidy inbox g then record g { donor_email = none } else g)
            ≡ gift =
          some-injective _ gift (rw same at h) in
        elim (Bool-cases (holds_inbox hmac tidy inbox g)) [
          | inl held ↦ subst (λ x. holds_inbox hmac tidy inbox x ≡ false) (rw held at one) refl
          | inr free ↦ subst (λ x. holds_inbox hmac tidy inbox x ≡ false) (rw free at one) free
        ]
  ]

  gifts-add : (inbox : Text) (room : MailRoom) → (add_suppression inbox room).gifts ≡ room.gifts
  unfolding add_suppression
  gifts-add inbox room = ground arith

  pub holds_inbox-stop_inbox :
      (inbox id : Text) (gift : Gift) (room : MailRoom)
      → lookup id (stop_inbox hmac tidy inbox room).gifts ≡ some gift
      → holds_inbox hmac tidy inbox gift ≡ false
  unfolding stop_inbox
  holds_inbox-stop_inbox inbox id gift room h = erased_all inbox id gift room.gifts (
      subst (λ gs. lookup id (erase_inbox hmac tidy inbox gs) ≡ some gift) (gifts-add inbox room) h)

  -- An unsubscribe by the link of an address stops the address's inbox.
  pub unsubscribe-stop_inbox :
      (address : Text) (room : MailRoom)
      → IsHex
      → (n : ℕ) × (unsubscribe hmac tidy (unsubscribe_token hmac tidy address) room
          ≡ (some n, stop_inbox hmac tidy (inbox_digest hmac tidy address) room))
  unfolding unsubscribe
  unsubscribe-stop_inbox address room hex = (
    count_held hmac tidy (inbox_digest hmac tidy address) room.gifts,
    rw (unsubscribe, inbox_of_token-unsubscribe_token address hex) refl,
  )
