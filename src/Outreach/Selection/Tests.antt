-- ===== src/Outreach/Selection/Tests.antt =====
-- A wave of two named shelters, of which one has been written to.
use monster_paws.Prelude.{
  take, ℕ, ◌≤◌, Text, codes, text_eq, ◌≡◌, refl, ◌⊎◌, Bool, true, false, Option, none, some, List,
  [], ◌∷◌, length, All, Any, keep_if,
}
use monster_paws.Shelters.{includes}
use monster_paws.Ingest.Corpus.{sort, insert_sorted}
use monster_paws.Sources.{is_valid_slug}
use monster_paws.Outreach.Guard.{is_wave_name}
use monster_paws.Outreach.Selection.{
  OutreachShelter, WaveSpec, chosen, inside_of, select_wave, limit_of,
}
use monster_paws.Outreach.Selection.Chosen.{HasRegion, wanted, select_wave-chosen}

abbrev place : Text → Option Text
place zip = some zip

abbrev everywhere : Text → Text → ℕ → Bool
everywhere a b miles = true

abbrev same_text : Text → Text
same_text t = t

abbrev any_order : Text → Text → Bool
any_order a b = true

abbrev listed : Text → ℕ → OutreachShelter
listed id n = record {
  shelter_external_id = id;
  name = none;
  city = none;
  state = none;
  zip = none;
  website = none;
  visible_count = n;
  shelter_view_url = [];
}

abbrev shelters : List OutreachShelter
shelters = listed (codes "a") 3 ∷ listed (codes "b") 7 ∷ listed (codes "c") 1 ∷ []

abbrev spec : WaveSpec
spec = record {
  name = codes "claimed-1";
  within = none;
  states = none;
  shelters = some (
      record { key = codes "a"; ein = codes "1" }
      ∷ record { key = codes "b"; ein = codes "2" }
      ∷ []);
  timing = false;
  limit = none;
}

abbrev written_to : List Text
written_to = codes "a" ∷ []

wave_of_one :
    select_wave place everywhere same_text any_order shelters spec written_to
    ≡ chosen (listed (codes "b") 7 ∷ [])
unfolding select_wave includes text_eq sort insert_sorted take keep_if is_wave_name is_valid_slug
wave_of_one = refl

chosen_example :
    (inside : OutreachShelter → Bool) × (inside_of place everywhere same_text any_order spec
      ≡ some inside)
    × (is_wave_name spec.name ≡ true)
    × HasRegion spec
    × (1 ≤ limit_of spec.limit)
    × (limit_of spec.limit ≤ 200)
    × (length (listed (codes "b") 7 ∷ []) ≤ limit_of spec.limit)
    × All
        (λ s. (wanted inside written_to s ≡ true) × Any (λ t. t ≡ s) shelters)
        (listed (codes "b") 7 ∷ [])
    × (All
          (λ s. wanted inside written_to s ≡ true → Any (λ t. t ≡ s) (listed (codes "b") 7 ∷ []))
          shelters
        ⊎ (length (listed (codes "b") 7 ∷ []) ≡ limit_of spec.limit))
chosen_example =
    select_wave-chosen place everywhere same_text any_order shelters spec written_to
      (listed (codes "b") 7 ∷ []) wave_of_one
