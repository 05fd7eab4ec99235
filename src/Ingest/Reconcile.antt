-- ===== src/Ingest/Reconcile.antt =====
-- Stage 5 of core/ingest/memory.ts, `lifecycle.reconcile`, and its run store.
pub mod Presence
pub mod Events
pub mod Dates
mod Tests
pub mod Keeps
use monster_paws.Prelude.{
  ℕ, Text, text_eq, decimal, Bool, true, false, not, ◌&&◌, Option, none, some, List, [], ◌∷◌, ◌++◌,
  map, Map, length, keep_if, ltb, if◌then◌else◌,
}
use monster_paws.Result.{Result, ok, err}
use monster_paws.Ingest.Gate.{
  DisappearanceTally, DisappearanceVerdict, Refusal, resolve_reconcile_at, ReconcileAt,
}
use monster_paws.Ingest.Model.{
  IngestEvent, EventKind, EventData, animal_disappeared, animal_reappeared, returned, absent,
}
use monster_paws.Ingest.Report.{Reconciled, IngestRunRecord, is_absent}
use monster_paws.Ingest.Pipeline.{has_text}
use monster_paws.Ingest.Corpus.{Corpus, MemoryIdentity, median_date, in_lifecycle_order}

-- `own`: the identities of one source, in the map's order.
unfoldable pub own_of : Text → Map Text MemoryIdentity → List MemoryIdentity
own_of source [] = []
own_of source ((k, id) ∷ rest) =
    let others = own_of source rest in if text_eq id.source source then id ∷ others else others

-- The newest sighting: `!m || id.lastSeenAt > m`.
unfoldable pub newest_from : Option ℕ → List MemoryIdentity → Option ℕ
newest_from m [] = m
newest_from m (id ∷ rest) =
    newest_from
      (elim m [
        | none ↦ some id.last_seen_at
        | some seen ↦ if ltb seen id.last_seen_at then some id.last_seen_at else some seen
      ])
      rest

unfoldable pub newest_sighting : List MemoryIdentity → Option ℕ
unfolding newest_from
newest_sighting = newest_from none

unfoldable pub event_of : EventKind → Text → ℕ → MemoryIdentity → EventData → IngestEvent
event_of kind source at id event_data = record {
  kind = kind;
  source = source;
  subject_id = decimal id.animal_id;
  event_data = event_data;
  occurred_at = at;
}

-- One identity that the run saw.
unfoldable pub met : Text → ℕ → MemoryIdentity → MemoryIdentity × List IngestEvent
unfolding event_of
met source at id = elim id.disappeared_at [
  | none ↦ (record id { last_seen_at = at }, [])
  | some gone_at ↦ (
    record id { disappeared_at = none; last_seen_at = at },
    event_of animal_reappeared source at id (returned id.external_id gone_at) ∷ [],
  )
]

-- One identity that the run did not see.
unfoldable pub missed : Text → ℕ → MemoryIdentity → MemoryIdentity × List IngestEvent
unfolding event_of
missed source at id = elim id.disappeared_at [
  | none ↦ (
    record id { disappeared_at = some at },
    event_of animal_disappeared source at id (absent id.external_id id.last_seen_at) ∷ [],
  )
  | some gone_at ↦ (id, [])
]

-- The loop's body; an identity of another source is not in the loop.
unfoldable pub visit : Text → List Text → ℕ → MemoryIdentity → MemoryIdentity × List IngestEvent
unfolding met missed
visit source seen at id =
    if text_eq id.source source
    then (if has_text id.external_id seen then met source at id else missed source at id)
    else (id, [])

unfoldable pub visit_all :
    Text → List Text → ℕ → Map Text MemoryIdentity → Map Text MemoryIdentity × List IngestEvent
unfolding visit
visit_all source seen at [] = ([], [])
visit_all source seen at ((k, id) ∷ rest) =
    let (id', events) = visit source seen at id in
    let (rest', more) = visit_all source seen at rest in ((k, id') ∷ rest', events ++ more)

unfoldable pub tally_of : List Text → ℕ → List MemoryIdentity → DisappearanceTally
tally_of seen at own =
    let present = keep_if (λ id. is_absent id.disappeared_at) own in
    let disappearing = keep_if (λ id. not (has_text id.external_id seen)) present in
    record {
      present = length present;
      disappearing = length disappearing;
      disappearing_median_last_seen = median_date (map (λ id. id.last_seen_at) disappearing);
      at = at;
    }

module _ {P Num : Type 0} (precedes : Text → Text → Bool) where
  -- After the gate: nothing on a refusal, else the loop over the source's identities.
  unfoldable pub settle :
      Text
      → List Text
      → ReconcileAt
      → DisappearanceVerdict Num
      → Corpus P Num
      → Reconciled Num × Corpus P Num
  unfolding visit_all
  settle source seen resolved verdict c = elim verdict.refusal [
    | some refusal ↦ (
      record {
        events = [];
        clock_stepped_back_ms = some resolved.clock_stepped_back_ms;
        refused = some refusal;
        judged = some verdict;
      },
      c,
    )
    | none ↦
        let (identities, emitted) = visit_all source seen resolved.at c.identities in
        let ordered = in_lifecycle_order precedes emitted in
        (
          record {
            events = ordered;
            clock_stepped_back_ms = some resolved.clock_stepped_back_ms;
            refused = none;
            judged = some verdict;
          },
          record c { identities = identities; events = c.events ++ ordered },
        )
  ]

  unfoldable pub reconcile :
      Text
      → List Text
      → ℕ
      → (DisappearanceTally → DisappearanceVerdict Num)
      → Corpus P Num
      → Reconciled Num × Corpus P Num
  unfolding settle tally_of own_of
  reconcile source seen requested_at gate c =
      let own = own_of source c.identities in
      let resolved = resolve_reconcile_at requested_at (newest_sighting own) in
      settle source seen resolved (gate (tally_of seen resolved.at own)) c

module _ {Num : Type 0} where
  unfoldable pub newer_finish : Text → Option ℕ → List (IngestRunRecord Num) → Option ℕ
  newer_finish source m [] = m
  newer_finish source m (r ∷ rest) =
      newer_finish source
        (if text_eq r.source source && r.complete
          then elim m [
            | none ↦ some r.finished_at
            | some at ↦ if ltb at r.finished_at then some r.finished_at else some at
          ]
          else m)
        rest

module _ {P Num : Type 0} where
  -- `runs.record`.
  unfoldable pub record_run : IngestRunRecord Num → Corpus P Num → Corpus P Num
  record_run run c = record c { runs = c.runs ++ run ∷ [] }

  -- `runs.lastCompleteAt`.
  unfoldable pub last_complete_at : Text → Corpus P Num → Option ℕ
  unfolding newer_finish
  last_complete_at source c = newer_finish source none c.runs
