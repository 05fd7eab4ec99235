-- ===== src/Outreach/Selection.antt =====
-- core/outreach/list.ts: who a wave writes to.
pub mod Chosen
mod Tests
use monster_paws.Prelude.{
  take, ℕ, zero, suc, Text, text_eq, leb, ltb, ◌==◌, Bool, true, false, not, ◌&&◌, ◌||◌, Option,
  none, some, List, [], ◌∷◌, map, keep_if, if◌then◌else◌,
}
use monster_paws.Ingest.Corpus.{sort}
use monster_paws.Shelters.{includes}
use monster_paws.Outreach.Record.{OutreachEvent, Office, is_sent}
use monster_paws.Outreach.Guard.{is_wave_name}

pub record OutreachShelter : Type 0 where
  pub shelter_external_id : Text
  pub name : Option Text
  pub city : Option Text
  pub state : Option Text
  pub zip : Option Text
  pub website : Option Text
  pub visible_count : ℕ
  pub shelter_view_url : Text

pub record NamedShelter : Type 0 where
  pub key : Text
  pub ein : Text

pub record Region : Type 0 where
  pub zip : Text
  pub miles : ℕ

-- `timing` is whether the ask keeps its paragraph on timing.
pub record WaveSpec : Type 0 where
  pub name : Text
  pub within : Option Region
  pub states : Option (List Text)
  pub shelters : Option (List NamedShelter)
  pub timing : Bool
  pub limit : Option ℕ

pub data WaveError : Type 0 where
  bad_limit : ℕ → WaveError
  no_region bad_name unplaced_zip : Text → WaveError

pub data Selection : Type 0 where
  refused : WaveError → Selection
  chosen : List OutreachShelter → Selection

abbrev pub wave_max : ℕ
wave_max = 200

pub limit_of : Option ℕ → ℕ
limit_of none = wave_max
limit_of (some n) = n

-- `!list?.length`.
is_empty {ℓ} : {A : Type ℓ} → Option (List A) → Bool
is_empty none = true
is_empty (some []) = true
is_empty (some (x ∷ xs)) = false

is_missing : Option Region → Bool
is_missing none = true
is_missing (some region) = false

text_or_empty : Option Text → Text
text_or_empty none = []
text_or_empty (some t) = t

keys_of : List NamedShelter → List Text
keys_of = map λ s. s.key

-- `approachedShelters`, where a repetition makes no difference to a set.
pub approached_shelters : Office → List Text
approached_shelters office = map (λ e. e.shelter_external_id) (keep_if is_sent office.events)

-- `zipPoint`, the test `milesBetween(a, b) <= miles`, `toUpperCase` and `localeCompare`'s answer
-- "before or equal" are arguments.
module _ {Point : Type 0} (zip_point : Text → Option Point) (is_within : Point → Point → ℕ → Bool)
    (upper : Text → Text) (precedes : Text → Text → Bool) where
  near : Point → ℕ → OutreachShelter → Bool
  near origin miles shelter = elim shelter.zip [
    | none ↦ false
    | some [] ↦ false
    | some (c ∷ cs) ↦ elim (zip_point (c ∷ cs)) [
      | none ↦ false
      | some at ↦ is_within origin at miles
    ]
  ]

  in_states : List Text → OutreachShelter → Bool
  in_states states shelter = elim shelter.state [
    | none ↦ false
    | some state ↦ includes (upper state) (map upper states)
  ]

  is_named : List NamedShelter → OutreachShelter → Bool
  unfolding keys_of
  is_named shelters shelter = includes shelter.shelter_external_id (keys_of shelters)

  more_visible : OutreachShelter → OutreachShelter → Bool
  unfolding text_or_empty
  more_visible a b =
      ltb b.visible_count a.visible_count
      || ((a.visible_count == b.visible_count)
          && precedes (text_or_empty a.name) (text_or_empty b.name))

  -- `inside`, once the region is there; `none` is a zip that has no place.
  pub inside_of : WaveSpec → Option (OutreachShelter → Bool)
  unfolding near in_states is_named
  inside_of spec = elim spec.within [
    | some region ↦ elim (zip_point region.zip) [
      | none ↦ none
      | some origin ↦ some (near origin region.miles)
    ]
    | none ↦ elim spec.states [
      | some states ↦ some (in_states states)
      | none ↦ elim spec.shelters [
        | some shelters ↦ some (is_named shelters)
        | none ↦ some (λ shelter. true)
      ]
    ]
  ]

  pick : (OutreachShelter → Bool) → List Text → ℕ → List OutreachShelter → List OutreachShelter
  unfolding more_visible
  pick inside approached limit shelters = take limit (
      sort more_visible
        (keep_if (λ s. inside s && not (includes s.shelter_external_id approached)) shelters))

  zip_of : Option Region → Text
  zip_of none = []
  zip_of (some region) = region.zip

  -- `selectWave`.
  unfoldable pub select_wave : List OutreachShelter → WaveSpec → List Text → Selection
  unfolding limit_of is_empty is_missing inside_of pick zip_of
  select_wave shelters spec approached =
      let limit = limit_of spec.limit in
      if not (ltb 0 limit && leb limit wave_max)
      then refused (bad_limit limit)
      else if is_missing spec.within && (is_empty spec.states && is_empty spec.shelters)
      then refused (no_region spec.name)
      else if not (is_wave_name spec.name)
      then refused (bad_name spec.name)
      else elim (inside_of spec) [
        | none ↦ refused (unplaced_zip (zip_of spec.within))
        | some inside ↦ chosen (pick inside approached limit shelters)
      ]
