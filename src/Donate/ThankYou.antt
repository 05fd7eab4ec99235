-- ===== src/Donate/ThankYou.antt =====
-- core/donate/intent.ts: the gift that the thank-you page names. The reads of one page see one
-- state of the tables. The id of an intent is minted, and never the empty text.
mod Tests
use monster_paws.Prelude.{
  ℕ, ◌+◌, ◌*◌, Text, text_eq, text_key, ltb, ◌≡◌, refl, ◌⊎◌, inl, inr, Bool, true, false, ◌||◌,
  Option, none, some, List, [], ◌∷◌, Map, lookup, Option-cases, Bool-cases, if◌then◌else◌, arith,
  ap, ◌∙◌, sym,
}
use monster_paws.Shelters.{find_first}
use monster_paws.Donate.Ledger.{Intent}

-- A row of `animals`, as far as the page shows it.
pub record AnimalShown : Type 0 where
  pub animal_id : ℕ
  pub name : Text
  pub species : Text
  pub org : Option Text

pub record IntentAnimal : Type 0 where
  pub intent_id : Text
  pub animal_id : Option ℕ
  pub name : Option Text
  pub species : Option Text
  pub org : Option Text

abbrev pub just_started_ms : ℕ
just_started_ms = 60 * 60 * 1000

is_paid : Option ℕ → Bool
is_paid none = false
is_paid (some closed_at) = true

-- `asOf - createdAt < JUST_STARTED_MS`, where the difference may be negative.
pub is_meant : ℕ → Intent → Bool
unfolding is_paid
is_meant as_of row = is_paid row.closed_at || ltb as_of (row.created_at + just_started_ms)

-- `newest ??= id`.
or_newest : Option Text → Text → Option Text
or_newest none id = some id
or_newest (some newest) id = some newest

-- The loop, from the newest that was found so far.
pub choose : ℕ → Option Text → List Text → Map Text Intent → Option Text
unfolding is_meant or_newest
choose as_of newest [] intents = newest
choose as_of newest (id ∷ ids) intents = elim (lookup id intents) [
  | none ↦ choose as_of newest ids intents
  | some row ↦ elim (is_meant as_of row) [
    | true ↦ some id
    | false ↦ choose as_of (or_newest newest id) ids intents
  ]
]

shown : Text → Option AnimalShown → IntentAnimal
shown id none = record { intent_id = id; animal_id = none; name = none; species = none; org = none }
shown id (some a) = record {
  intent_id = id;
  animal_id = some a.animal_id;
  name = some a.name;
  species = some a.species;
  org = a.org;
}

-- The join of an identity, by its source and key, with its animal is an argument.
module _ (animal_of : Text → Text → Option AnimalShown) where
  pub intent_animal : Map Text Intent → Text → Option IntentAnimal
  unfolding shown
  intent_animal intents id = elim (lookup id intents) [
    | none ↦ none
    | some intent ↦ some (shown id (animal_of intent.animal_source intent.animal_external_id))
  ]

  pub thank_you_intent : Map Text Intent → List Text → ℕ → Option IntentAnimal
  unfolding choose intent_animal
  thank_you_intent intents ids as_of = elim (choose as_of none ids intents) [
    | none ↦ none
    | some id ↦ intent_animal intents id
  ]

-- Whether an id is that of a gift that is still there, and of one that is paid or just started.
pub is_known : Map Text Intent → Text → Bool
is_known intents id = elim (lookup id intents) [ none ↦ false | some row ↦ true ]

pub is_meant_id : ℕ → Map Text Intent → Text → Bool
is_meant_id as_of intents id = elim (lookup id intents) [
  | none ↦ false
  | some row ↦ is_meant as_of row
]

pub or_else : Option Text → Option Text → Option Text
or_else none b = b
or_else (some a) b = some a

choose-or_else :
    (as_of : ℕ) (newest : Option Text) (ids : List Text) (intents : Map Text Intent)
    → choose as_of newest ids intents
      ≡ or_else
          (find_first (is_meant_id as_of intents) ids)
          (or_else newest (find_first (is_known intents) ids))
unfolding choose or_newest or_else find_first is_known is_meant_id
choose-or_else as_of none [] intents = refl
choose-or_else as_of (some n) [] intents = refl
choose-or_else as_of newest (id ∷ ids) intents = elim (Option-cases (lookup id intents)) [
  | inl gone ↦
      rw (gone, choose, find_first, is_meant_id, is_known) (choose-or_else as_of newest ids intents)
  | inr (row, there) ↦ elim (Bool-cases (is_meant as_of row)) [
    | inl meant ↦ rw (there, meant, choose, find_first, is_meant_id, is_known) refl
    | inr older ↦
        elim newest
          as (λ n.
            choose as_of n (id ∷ ids) intents
            ≡ or_else (find_first (is_meant_id as_of intents) (id ∷ ids))
                (or_else n (find_first (is_known intents) (id ∷ ids)))) [
                  | none ↦
                      rw (there, older, choose, find_first, is_meant_id, is_known)
                        (choose-or_else as_of (some id) ids intents)
                  | some n ↦
                      rw (there, older, choose, find_first, is_meant_id, is_known)
                        (choose-or_else as_of (some n) ids intents)
                ]
  ]
]

-- The thank-you page names the first gift of the cookie that is paid or just started, wherever it
-- stands, and only where there is none the first that is still there; a gift that was left
-- unfinished hides no paid one.
pub thank_you_intent-first :
    (animal_of : Text → Text → Option AnimalShown) (intents : Map Text Intent) (ids : List Text)
    (as_of : ℕ)
    → (thank_you_intent animal_of intents ids as_of
        ≡ elim (or_else
            (find_first (is_meant_id as_of intents) ids)
            (find_first (is_known intents) ids)) [
              | none ↦ none
              | some id ↦ intent_animal animal_of intents id
            ])
unfolding thank_you_intent or_else
thank_you_intent-first animal_of intents ids as_of =
    ap
      (λ chosen. elim chosen as (λ _. Option IntentAnimal) [
        | none ↦ none
        | some id ↦ intent_animal animal_of intents id
      ])
      (choose-or_else as_of none ids intents)
