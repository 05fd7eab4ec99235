-- ===== src/Ingest/Pg/Tests.antt =====
-- Runs of core/ingest/pg.ts over tables that hold one animal under two records.
use monster_paws.Prelude.{
  ℕ, text_eq, codes, ◌≡◌, refl, none, some, List, [], ◌∷◌, lookup, nat_key, arith, find_last,
  keep_if, length, ◌≤◌,
}
use monster_paws.Sources.{aggregator, fixed_source_tier}
use monster_paws.Sources.Identity.{IsKnown, fixed}
use monster_paws.Ingest.Gate.{DisappearanceTally, DisappearanceVerdict}
use monster_paws.Ingest.Memory
use monster_paws.Ingest.Memory.{is_row_of, first_sighting}
use monster_paws.Ingest.Reconcile
use monster_paws.Ingest.Pg.Rows.{IdentityRows}
use monster_paws.Ingest.Pg.{is_identity_of, PgCorpus, resolve}
use monster_paws.Ingest.Pg.Store.{persist}
use monster_paws.Ingest.Pg.Canonical.{empty_row, max_last_seen, or_instant, apply}
use monster_paws.Ingest.Pg.View.{view, plain}
use monster_paws.Ingest.Pg.Store.Refines.{SameStored, persist-view}
use monster_paws.Ingest.Pg.Canonical.Refines.{apply-view}
use monster_paws.Ingest.Pg.Canonical.Sound.{Sound, Fresh}
use monster_paws.Ingest.Pg.Lifecycle.{insert_chunks, reconcile}
use monster_paws.Ingest.Pg.Lifecycle.Refines.{insert_chunks-total, reconcile-view}
use monster_paws.Ingest.Model.{IngestEvent, animal_disappeared, absent}
use monster_paws.Ingest.Tests.{
  IsPlain, by_weight, by_weight-Collates, flipped, flipped-IsRowOrder, groups, identity, row,
  observed, candidate, first_claims-AllKnown,
}

abbrev tables : PgCorpus ℕ ℕ
tables = record {
  raw_payloads = row ∷ [];
  animals = (1, empty_row) ∷ [];
  animal_identities = identity (codes "77") 10 none ∷ identity (codes "78") 10 (some 15) ∷ [];
  animal_display = [];
  event_log = [];
  ingest_runs = [];
  next_raw_id = 2;
  next_animal_id = 2;
}

persist_view_example :
    (view (persist (observed (codes "77") 20 (codes "b")) tables).1
      ≡ plain (Memory.persist (observed (codes "77") 20 (codes "b")) (view tables)).1)
    × SameStored
        (observed (codes "77") 20 (codes "b"))
        (persist (observed (codes "77") 20 (codes "b")) tables).0
        (Memory.persist (observed (codes "77") 20 (codes "b")) (view tables)).0
persist_view_example =
    persist-view (observed (codes "77") 20 (codes "b")) tables (omega arith, tt, tt)

groups-IsKnown : IsKnown groups
unfolding fixed_source_tier text_eq
groups-IsKnown = fixed groups aggregator refl

-- No animal and no record: the candidate starts one.
abbrev blank : PgCorpus ℕ ℕ
blank = record {
  raw_payloads = row ∷ [];
  animals = [];
  animal_identities = [];
  animal_display = [];
  event_log = [];
  ingest_runs = [];
  next_raw_id = 2;
  next_animal_id = 1;
}

blank-Sound : Sound blank
unfolding lookup
blank-Sound = record { known_rows = tt; unique_rows = tt; known_claims = λ n held e. cc }

candidate-Fresh : Fresh candidate blank
unfolding is_row_of first_sighting or_instant find_last max_last_seen text_eq keep_if
candidate-Fresh = record {
  named = (_, _, refl, refl);
  kinded = (_, _, refl, refl);
  newest = λ occurred. refl;
}

apply_view_example :
    (Memory.resolve candidate (view blank) ≡ resolve candidate blank)
    × (view (apply candidate (resolve candidate blank) blank).1
        ≡ plain (Memory.apply candidate (resolve candidate blank) (view blank)).1)
    × ((apply candidate (resolve candidate blank) blank).0
        ≡ (Memory.apply candidate (resolve candidate blank) (view blank)).0)
apply_view_example =
    apply-view candidate blank groups-IsKnown blank-Sound first_claims-AllKnown
      (λ new viable. candidate-Fresh)

abbrev pass : DisappearanceTally → DisappearanceVerdict ℕ
pass tally = record { rate_per_day = 0; days = 1; refusal = none }

tables-IdentityRows : IdentityRows IsPlain tables.animal_identities
unfolding is_identity_of text_eq
tables-IdentityRows = record {
  known = (groups-IsKnown, (groups-IsKnown, tt));
  unique = ((refl, tt), (tt, tt));
  plain = ((_, refl), ((_, refl), tt));
}

reconcile_view_example :
    (view (reconcile by_weight flipped flipped groups (codes "78" ∷ []) 30 pass tables).1
      ≡ plain (Reconcile.reconcile by_weight groups (codes "78" ∷ []) 30 pass (view tables)).1)
    × ((reconcile by_weight flipped flipped groups (codes "78" ∷ []) 30 pass tables).0
        ≡ (Reconcile.reconcile by_weight groups (codes "78" ∷ []) 30 pass (view tables)).0)
reconcile_view_example =
    reconcile-view by_weight IsPlain by_weight-Collates flipped flipped flipped-IsRowOrder
      flipped-IsRowOrder groups (codes "78" ∷ []) 30 pass tables tables-IdentityRows

abbrev disappearance : ℕ → IngestEvent
disappearance at = record {
  kind = animal_disappeared;
  source = groups;
  subject_id = codes "1";
  event_data = absent (codes "77") 10;
  occurred_at = at;
}

abbrev three : List IngestEvent
three = disappearance 1 ∷ disappearance 2 ∷ disappearance 3 ∷ []

three_fit : length three ≤ 3
three_fit = omega arith

chunks_example : insert_chunks 3 2 three (disappearance 0 ∷ []) ≡ some (disappearance 0 ∷ three)
chunks_example = insert_chunks-total 3 1 three (disappearance 0 ∷ []) three_fit
