-- ===== src/Ingest/Pg/Runs/Latest.antt =====
-- The two maxima that core/ingest/pg.ts asks the database for, as core/ingest/memory.ts finds them.
use mathlib.Core.Option.{some-injective}
use monster_paws.Prelude.{
  ℕ, ◌≤◌, Text, text_eq, ◌≡◌, refl, sym, ap, ◌∙◌, inl, inr, Bool, ◌&&◌, Option, none, some, List,
  [], ◌∷◌, keep_if, find_last, ltb, if◌then◌else◌, All, arith, Option-cases, Bool-cases,
}
use monster_paws.Ingest.Report.{IngestRunRecord}
use monster_paws.Ingest.Corpus.{MemoryRawRow}
use monster_paws.Ingest.Reconcile
use monster_paws.Ingest.Reconcile.{newer_finish}
use monster_paws.Ingest.Pg.{PgCorpus, max_finished, last_complete_at}
use monster_paws.Ingest.Pg.View.{view}
use monster_paws.Ingest.Pg.Canonical.{max_last_seen}

later_of : Option ℕ → Option ℕ → Option ℕ
later_of none b = b
later_of (some a) none = some a
later_of (some a) (some b) = if ltb a b then some b else some a

abbrev raised : ℕ → Option ℕ → Option ℕ
raised x o = elim o [ none ↦ some x | some at ↦ if ltb at x then some x else some at ]

later_of_swap : (x : ℕ) (o : Option ℕ) → later_of (some x) o ≡ raised x o
unfolding later_of
later_of_swap x none = refl
later_of_swap x (some y) = ground arith

later_of_assoc :
    (x y : ℕ) (o : Option ℕ)
    → later_of (if ltb x y then some y else some x) o ≡ later_of (some x) (raised y o)
unfolding later_of
later_of_assoc x y none = ground arith
later_of_assoc x y (some z) = ground arith

module _ {Num : Type 0} where
  newer_finish-max_finished :
      (source : Text) (m : Option ℕ) (rs : List (IngestRunRecord Num))
      → newer_finish source m rs
        ≡ later_of m (max_finished (keep_if (λ r. text_eq r.source source && r.complete) rs))
  unfolding newer_finish max_finished keep_if later_of
  newer_finish-max_finished source none [] = refl
  newer_finish-max_finished source (some x) [] = refl
  newer_finish-max_finished source none (r ∷ rs) =
      elim (Bool-cases (text_eq r.source source && r.complete)) [
        | inr miss ↦ rw (miss, newer_finish) (newer_finish-max_finished source none rs)
        | inl hit ↦
            let ih = newer_finish-max_finished source (some r.finished_at) rs in
            rw (hit, newer_finish, ih, max_finished) (later_of_swap r.finished_at _)
      ]
  newer_finish-max_finished source (some x) (r ∷ rs) =
      elim (Bool-cases (text_eq r.source source && r.complete)) [
        | inr miss ↦ rw (miss, newer_finish) (newer_finish-max_finished source (some x) rs)
        | inl hit ↦
            let ih =
              newer_finish-max_finished source
                (if ltb x r.finished_at then some r.finished_at else some x) rs in
            rw (hit, newer_finish, ih, max_finished) (later_of_assoc x r.finished_at _)
      ]

pub last_complete_at-view :
    {P Num : Type 0} (source : Text) (d : PgCorpus P Num)
    → last_complete_at source d ≡ Reconcile.last_complete_at source (view d)
unfolding last_complete_at Reconcile.last_complete_at later_of
last_complete_at-view source d = sym (newer_finish-max_finished source none d.ingest_runs)

module _ {P : Type 0} where
  find_last-none :
      (test : MemoryRawRow P → Bool) (rows : List (MemoryRawRow P))
      → find_last test rows ≡ none
      → keep_if test rows ≡ []
  unfolding find_last keep_if
  find_last-none test [] e = refl
  find_last-none test (r ∷ rows) e = ground (arith, find_last-none test rows)

  -- The last match is the one that was seen last, if it was seen no earlier than any row.
  pub max_last_seen-find_last :
      (test : MemoryRawRow P → Bool) (rows : List (MemoryRawRow P)) (row : MemoryRawRow P)
      → find_last test rows ≡ some row
      → All (λ r. r.last_seen ≤ row.last_seen) rows
      → max_last_seen (keep_if test rows) ≡ some row.last_seen
  unfolding max_last_seen keep_if find_last
  max_last_seen-find_last test [] row found h = absurd (cc)
  max_last_seen-find_last test (r ∷ rows) row found h = elim (Option-cases (find_last test rows)) [
    | inr (z, ez) ↦
        let one : z ≡ row = some-injective z row (rw ez at found) in
        let ih = max_last_seen-find_last test rows row (ez ∙ ap some one) h.1 in
        elim (Bool-cases (test r)) [
          | inl hit ↦ rw (hit, max_last_seen, ih) (ground (arith, h.0))
          | inr miss ↦ rw (miss, max_last_seen) ih
        ]
    | inl absent ↦ elim (Bool-cases (test r)) [
      | inl hit ↦
          let one : r ≡ row = some-injective r row (rw (absent, hit) at found) in
          rw (hit, find_last-none test rows absent) (ap (λ x. some x.last_seen) one)
      | inr miss ↦ absurd (cc (sym (rw (absent, miss) at found)))
    ]
  ]
