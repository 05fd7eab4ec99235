-- ===== src/Ingest/Pg/Lifecycle.antt =====
-- `createPgLifecycleStore` of core/ingest/pg.ts: the reconciliation by statements on whole sets.
pub mod Order
pub mod Shuffle
pub mod Refines
pub mod Rows
use monster_paws.Prelude.{
  take, drop, ℕ, zero, suc, Text, text_eq, Bool, true, false, not, ◌&&◌, Option, none, some, List,
  [], ◌∷◌, ◌++◌, map, keep_if, length, if◌then◌else◌,
}
use monster_paws.Ingest.Gate.{
  DisappearanceTally, DisappearanceVerdict, ReconcileAt, resolve_reconcile_at,
}
use monster_paws.Ingest.Model.{IngestEvent, animal_disappeared, animal_reappeared, returned, absent}
use monster_paws.Ingest.Report.{Reconciled, is_absent}
use monster_paws.Ingest.Pipeline.{has_text}
use monster_paws.Ingest.Corpus.{MemoryIdentity, in_lifecycle_order}
use monster_paws.Ingest.Reconcile.{newest_sighting, tally_of, event_of}
use monster_paws.Ingest.Pg.{PgCorpus, update_where}

abbrev pub event_insert_chunk : ℕ
event_insert_chunk = 1_000

-- The loop of the inserts, a chunk at a time; its rounds are bounded by fuel, and `none` means
-- that the fuel ran out.
unfoldable pub insert_chunks :
    ℕ → ℕ → List IngestEvent → List IngestEvent → Option (List IngestEvent)
insert_chunks fuel chunk [] log = some log
insert_chunks zero chunk (e ∷ es) log = none
insert_chunks (suc fuel) chunk (e ∷ es) log =
    insert_chunks fuel chunk (drop chunk (e ∷ es)) (log ++ take chunk (e ∷ es))

-- The events that are logged; the number of events is fuel enough.
logged : List IngestEvent → List IngestEvent → List IngestEvent
logged events log = elim (insert_chunks (length events) event_insert_chunk events log) [
  | none ↦ log
  | some log' ↦ log'
]

-- `bySource` and `inSeen`.
unfoldable pub by_source : Text → MemoryIdentity → Bool
by_source source id = text_eq id.source source

unfoldable pub in_seen : List Text → MemoryIdentity → Bool
in_seen seen id = has_text id.external_id seen

unfoldable pub was_gone : Text → List Text → MemoryIdentity → Bool
unfolding by_source in_seen
was_gone source seen id =
    by_source source id && (not (is_absent id.disappeared_at) && in_seen seen id)

unfoldable pub is_gone : Text → List Text → MemoryIdentity → Bool
unfolding by_source in_seen
is_gone source seen id =
    by_source source id && (is_absent id.disappeared_at && not (in_seen seen id))

unfoldable pub gone_at : Option ℕ → ℕ
gone_at none = 0
gone_at (some at) = at

unfoldable pub reappeared : Text → ℕ → MemoryIdentity → IngestEvent
unfolding gone_at
reappeared source at id =
    event_of animal_reappeared source at id (returned id.external_id (gone_at id.disappeared_at))

unfoldable pub disappeared : Text → ℕ → MemoryIdentity → IngestEvent
disappeared source at id =
    event_of animal_disappeared source at id (absent id.external_id id.last_seen_at)

-- The two updates, one after the other.
unfoldable pub see_rows : Text → List Text → ℕ → List MemoryIdentity → List MemoryIdentity
see_rows source seen at =
    update_where (λ id. by_source source id && in_seen seen id)
      (λ id. record id { disappeared_at = none; last_seen_at = at })

unfoldable pub miss_rows : Text → List Text → ℕ → List MemoryIdentity → List MemoryIdentity
miss_rows source seen at =
    update_where (is_gone source seen) (λ id. record id { disappeared_at = some at })

module _ {P Num : Type 0} (precedes : Text → Text → Bool) where
  settle :
      (List MemoryIdentity → List MemoryIdentity)
      → (List MemoryIdentity → List MemoryIdentity)
      → Text
      → List Text
      → ReconcileAt
      → DisappearanceVerdict Num
      → PgCorpus P Num
      → Reconciled Num × PgCorpus P Num
  unfolding logged reappeared disappeared see_rows miss_rows
  settle gone_order missed_order source seen resolved verdict d = elim verdict.refusal [
    | some refusal ↦ (
      record {
        events = [];
        clock_stepped_back_ms = some resolved.clock_stepped_back_ms;
        refused = some refusal;
        judged = some verdict;
      },
      d,
    )
    | none ↦
        let present = see_rows source seen resolved.at d.animal_identities in
        let emitted =
          map (reappeared source resolved.at)
            (gone_order (keep_if (was_gone source seen) d.animal_identities))
          ++ map (disappeared source resolved.at)
              (missed_order (keep_if (is_gone source seen) present)) in
        let ordered = in_lifecycle_order precedes emitted in
        (
          record {
            events = ordered;
            clock_stepped_back_ms = some resolved.clock_stepped_back_ms;
            refused = none;
            judged = some verdict;
          },
          record d {
            animal_identities = miss_rows source seen resolved.at present;
            event_log = logged ordered d.event_log;
          },
        )
  ]

  -- `reconcile`; `gone_order` and `missed_order` are the orders in which the two queries return
  -- their rows. The newest sighting, the tally and its median are those of the source's rows.
  pub reconcile :
      (List MemoryIdentity → List MemoryIdentity)
      → (List MemoryIdentity → List MemoryIdentity)
      → Text
      → List Text
      → ℕ
      → (DisappearanceTally → DisappearanceVerdict Num)
      → PgCorpus P Num
      → Reconciled Num × PgCorpus P Num
  unfolding settle
  reconcile gone_order missed_order source seen requested_at gate d =
      let own = keep_if (by_source source) d.animal_identities in
      let resolved = resolve_reconcile_at requested_at (newest_sighting own) in
      settle gone_order missed_order source seen resolved (gate (tally_of seen resolved.at own)) d
