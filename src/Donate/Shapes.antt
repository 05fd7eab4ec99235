-- ===== src/Donate/Shapes.antt =====
-- The patterns of core/donate/webhook.ts and core/donate/intent.ts, as tests on whole texts.
use monster_paws.Prelude.{
  ℕ, Text, codes, text_eq, length, leb, ◌==◌, Bool, true, false, not, ◌&&◌, ◌||◌, Option, none,
  some, List, [], ◌∷◌, if◌then◌else◌, ◌≡◌, refl,
}

abbrev pub is_digit : ℕ → Bool
is_digit c = leb b'0' c && leb c b'9'

abbrev pub is_upper : ℕ → Bool
is_upper c = leb b'A' c && leb c b'Z'

abbrev pub is_lower : ℕ → Bool
is_lower c = leb b'a' c && leb c b'z'

-- `\w`.
abbrev pub is_word_char : ℕ → Bool
is_word_char c = is_upper c || (is_lower c || (is_digit c || c == b'_'))

unfoldable pub one_of : Text → ℕ → Bool
one_of [] c = false
one_of (x ∷ xs) c = x == c || one_of xs c

unfoldable pub every : (ℕ → Bool) → Text → Bool
every test [] = true
every test (c ∷ s) = test c && every test s

-- `^[class]{low,high}$`.
unfoldable pub run_of : (ℕ → Bool) → ℕ → ℕ → Text → Bool
unfolding every
run_of test low high s = every test s && (leb low (length s) && leb (length s) high)

-- A text cut at each `sep`.
unfoldable pub split_on : ℕ → Text → List Text
split_on sep [] = [] ∷ []
split_on sep (c ∷ s) =
    let rest = split_on sep s in
    if c == sep then [] ∷ rest else (elim rest [ [] ↦ (c ∷ []) ∷ [] | w ∷ ws ↦ (c ∷ w) ∷ ws ])

every_text : (Text → Bool) → List Text → Bool
every_text test [] = true
every_text test (s ∷ ss) = test s && every_text test ss

-- `(\d{1,10}|\d{1,3}(,\d{3})+)`, by the groups that the commas make.
whole_part : List Text → Bool
unfolding every_text run_of
whole_part [] = false
whole_part (s ∷ []) = run_of is_digit 1 10 s
whole_part (s ∷ t ∷ ts) = run_of is_digit 1 3 s && every_text (run_of is_digit 3 3) (t ∷ ts)

money_parts : List Text → Bool
unfolding whole_part split_on run_of
money_parts [] = false
money_parts (whole ∷ []) = whole_part (split_on b',' whole)
money_parts (whole ∷ cents ∷ []) = whole_part (split_on b',' whole) && run_of is_digit 1 2 cents
money_parts (whole ∷ cents ∷ more ∷ rest) = false

-- `MONEY`: a second dot never matches.
unfoldable pub is_money : Text → Bool
unfolding money_parts split_on
is_money s = money_parts (split_on b'.' s)

-- A pattern of single characters, each a class, and nothing after them.
exactly : List (ℕ → Bool) → Text → Bool
exactly [] [] = true
exactly [] (c ∷ s) = false
exactly (p ∷ ps) [] = false
exactly (p ∷ ps) (c ∷ s) = p c && exactly ps s

abbrev lit : ℕ → ℕ → Bool
lit x c = c == x

-- `EIN`: with the dash or without it.
unfoldable pub is_ein : Text → Bool
unfolding exactly
is_ein s =
    let seven = is_digit ∷ is_digit ∷ is_digit ∷ is_digit ∷ is_digit ∷ is_digit ∷ is_digit ∷ [] in
    exactly (is_digit ∷ is_digit ∷ lit b'-' ∷ seven) s || exactly (is_digit ∷ is_digit ∷ seven) s

abbrev is_sign : ℕ → Bool
is_sign c = c == b'+' || c == b'-'

-- `(Z|[+-]\d{2}:?\d{2})$`.
is_zone : Text → Bool
unfolding exactly
is_zone s =
    exactly (lit b'Z' ∷ []) s
    || (exactly (is_sign ∷ is_digit ∷ is_digit ∷ lit b':' ∷ is_digit ∷ is_digit ∷ []) s
        || exactly (is_sign ∷ is_digit ∷ is_digit ∷ is_digit ∷ is_digit ∷ []) s)

-- `[\d:.]+` and the zone after it; no zone starts with a character of the class. The flag says
-- that the run has a character.
time_and_zone : Bool → Text → Bool
unfolding is_zone
time_and_zone started [] = false
time_and_zone started (c ∷ s) =
    let rest = time_and_zone true s in
    if is_digit c || (c == b':' || c == b'.') then rest else started && is_zone (c ∷ s)

abbrev date_head : List (ℕ → Bool)
date_head =
    is_digit
    ∷ is_digit
    ∷ is_digit
    ∷ is_digit
    ∷ lit b'-'
    ∷ is_digit
    ∷ is_digit
    ∷ lit b'-'
    ∷ is_digit
    ∷ is_digit
    ∷ lit b'T'
    ∷ []

date_then_time : List (ℕ → Bool) → Text → Bool
unfolding time_and_zone
date_then_time [] s = time_and_zone false s
date_then_time (p ∷ ps) [] = false
date_then_time (p ∷ ps) (c ∷ s) = p c && date_then_time ps s

-- `ISO_INSTANT`.
unfoldable pub is_iso_instant : Text → Bool
unfolding date_then_time
is_iso_instant s = date_then_time date_head s

-- `INTENT_ID`: 22 characters of base64url.
unfoldable pub is_intent_id : Text → Bool
unfolding run_of
is_intent_id = run_of (λ c. is_word_char c || c == b'-') 22 22

-- `KEPT_SHAPES`, by own key.
unfoldable pub kept_shapes : Text → Option (Text → Bool)
unfolding one_of
kept_shapes k =
    if text_eq k (codes "event")
    then some (run_of (λ c. is_lower c || one_of (codes "_.") c) 1 64)
    else if text_eq k (codes "chargeId")
    then some (run_of (λ c. is_word_char c || one_of (codes ".:/+=-") c) 1 128)
    else if text_eq k (codes "partnerDonationId")
    then some is_intent_id
    else if text_eq k (codes "amount")
    then some is_money
    else if text_eq k (codes "netAmount")
    then some is_money
    else if text_eq k (codes "currency")
    then some (run_of is_upper 3 3)
    else if text_eq k (codes "frequency")
    then some (run_of (λ c. is_upper c || c == b'_') 1 32)
    else if text_eq k (codes "donationDate")
    then some is_iso_instant
    else if text_eq k (codes "paymentMethod")
    then some (run_of (λ c. is_upper c || (is_lower c || one_of (codes "_-") c)) 1 32)
    else none

-- `KEPT_NONPROFIT_SHAPES`.
unfoldable pub kept_nonprofit_shapes : Text → Option (Text → Bool)
unfolding one_of
kept_nonprofit_shapes k =
    if text_eq k (codes "slug")
    then some (run_of (λ c. is_word_char c || c == b'-') 1 128)
    else if text_eq k (codes "ein")
    then some is_ein
    else if text_eq k (codes "name")
    then some (run_of (λ c. not (one_of (codes "@%<>") c)) 1 200)
    else none

-- `KEY_NAME`.
unfoldable pub is_key_name : Text → Bool
unfolding one_of
is_key_name = run_of (λ c. is_word_char c || one_of (codes ".-") c) 1 64

money_runs : (is_money (codes "1,234.50") ≡ true) × (is_money (codes "12,34") ≡ false)
unfolding is_money money_parts whole_part split_on run_of every every_text
money_runs = (refl, refl)

instant_runs : is_iso_instant (codes "2026-11-02T10:00:00.000Z") ≡ true
unfolding is_iso_instant date_then_time time_and_zone is_zone exactly
instant_runs = refl
