-- ===== src/Ingest/Pg/Runs/Writes.antt =====
-- Tables and a corpus in memory through a run: what applying and reconciling keep.
use mathlib.Core.Option.{some-injective}
use monster_paws.Prelude.{
  ℕ, ◌≤◌, Text, text_key, nat_key, lookup, ◌≡◌, refl, sym, ap, ◌∙◌, subst, inl, inr, Bool, true,
  Option, none, some, List, find_last, All-mono, arith,
}
use monster_paws.Sources.Identity.{IsKnown}
use monster_paws.Ingest.Fields.{name, species, FieldValue, FieldClaim, AnimalClaims}
use monster_paws.Ingest.Gate.{DisappearanceTally, DisappearanceVerdict}
use monster_paws.Ingest.Merge.{viable_first_observation, is_claimed}
use monster_paws.Ingest.Merge.Outcome.{AllKnown}
use monster_paws.Ingest.Model.{AnimalCandidate}
use monster_paws.Ingest.Corpus.{Corpus, MemoryRawRow, MemoryIdentity}
use monster_paws.Ingest.Memory
use monster_paws.Ingest.Memory.{is_row_of, first_sighting}
use monster_paws.Ingest.Memory.WellFormed.{WellFormed, apply-WellFormed}
use monster_paws.Ingest.Reconcile
use monster_paws.Ingest.Reconcile.Keeps.{reconcile-WellFormed}
use monster_paws.Ingest.Pg.{PgCorpus, resolve}
use monster_paws.Ingest.Pg.View.{view, plain, lookup-view_animals}
use monster_paws.Ingest.Pg.Canonical.{or_instant, apply, current_claims_of}
use monster_paws.Ingest.Pg.Canonical.Rows.{Leaves, apply-Leaves}
use monster_paws.Ingest.Pg.Canonical.Sound.{Sound, Fresh, Valued}
use monster_paws.Ingest.Pg.Canonical.Refines.{apply-view}
use monster_paws.Ingest.Pg.Lifecycle.{reconcile}
use monster_paws.Ingest.Pg.Lifecycle.Shuffle.{Collates, IsRowOrder}
use monster_paws.Ingest.Pg.Lifecycle.Rows.{reconcile-Leaves}
use monster_paws.Ingest.Pg.Lifecycle.Refines.{reconcile-view}
use monster_paws.Ingest.Pg.Runs.Plain.{apply-plain, reconcile-plain}
use monster_paws.Ingest.Pg.Runs.Latest.{max_last_seen-find_last}
use monster_paws.Ingest.Pg.Runs.Tables.{RowBy, Ready}
use monster_paws.Ingest.Pipeline.Simulates.{SameAnswer}

-- A claim of a name or a species that is there has a value.
abbrev pub Filled : AnimalClaims → Type 0
Filled claims =
    ((c : FieldClaim) → claims name ≡ some c → (v : FieldValue) × (c.value ≡ some v))
    × ((c : FieldClaim) → claims species ≡ some c → (v : FieldValue) × (c.value ≡ some v))

Filled-Valued :
    (claim : Option FieldClaim)
    → ((c : FieldClaim) → claim ≡ some c → (v : FieldValue) × (c.value ≡ some v))
    → is_claimed claim ≡ true
    → Valued claim
unfolding is_claimed
Filled-Valued none f h = absurd (cc)
Filled-Valued (some c) f h = let (v, e) = f c refl in (c, v, refl, e)

module _ {P Num : Type 0} (hash_of : P → Text) (IsPlain : Text → Type 0) where
  -- The tables after a step that writes no raw row.
  Leaves-Ready :
      (now : ℕ) (d d' : PgCorpus P Num) (c c' : Corpus P Num)
      → Ready hash_of IsPlain now d c
      → Leaves IsPlain d d'
      → view d' ≡ plain c'
      → WellFormed c'
      → Ready hash_of IsPlain now d' c'
  Leaves-Ready now d d' c c' r leaves same wf = record {
    same = same;
    well_formed = wf;
    identity_rows = leaves.identity_rows r.identity_rows;
    rising = rw (leaves.raw_payloads, leaves.next_raw_id) (r.rising);
    rows_by = rw (leaves.raw_payloads) (r.rows_by);
  }

  Ready-Sound :
      (now : ℕ) (d : PgCorpus P Num) (c : Corpus P Num) → Ready hash_of IsPlain now d c → Sound d
  Ready-Sound now d c r = record {
    known_rows = r.identity_rows.known;
    unique_rows = r.identity_rows.unique;
    known_claims = λ n row there. elim (lookup-view_animals n d.animals) [
      | inl (missing, _) ↦ absurd (cc (sym missing ∙ there))
      | inr (old, found, held) ↦
          let one : old ≡ row = some-injective old row (sym found ∙ there) in
          let at : lookup n c.animals ≡ some (current_claims_of row) =
            ap (λ (x : Corpus P Num). lookup n x.animals) (sym r.same)
            ∙ held
            ∙ ap (λ x. some (current_claims_of x)) one in
          r.well_formed.known n (current_claims_of row) at
    ];
  }

  module _ (candidate : AnimalCandidate) (now : ℕ) (d : PgCorpus P Num) (c : Corpus P Num)
      (known : IsKnown candidate.source) (plain_id : IsPlain candidate.external_id)
      (claimed : AllKnown candidate.claims) (filled : Filled candidate.claims)
      (r : Ready hash_of IsPlain now d c) (row : MemoryRawRow P)
      (newest : find_last (is_row_of candidate.source candidate.external_id) d.raw_payloads
        ≡ some row)
      (seen_now : row.last_seen ≡ now) where
    Ready-Fresh : viable_first_observation candidate.claims ≡ true → Fresh candidate d
    unfolding viable_first_observation or_instant first_sighting
    Ready-Fresh viable = record {
      named = Filled-Valued (candidate.claims name) filled.0 (ground arith);
      kinded = Filled-Valued (candidate.claims species) filled.1 (ground arith);
      newest = λ occurred.
          let below =
            All-mono (RowBy hash_of IsPlain now) (λ x. x.last_seen ≤ row.last_seen)
              (λ x h. omega (arith, h.1, seen_now)) d.raw_payloads r.rows_by in
          let last =
            max_last_seen-find_last (is_row_of candidate.source candidate.external_id)
              d.raw_payloads row newest below in
          rw (last, newest) refl;
    }

    pub apply-Ready :
        (resolve candidate d ≡ Memory.resolve candidate c)
        × ((animal : Option ℕ)
            → resolve candidate d ≡ animal
            → SameAnswer
                (Ready hash_of IsPlain now)
                (apply candidate animal d)
                (Memory.apply candidate animal c))
    unfolding Memory.resolve
    apply-Ready =
        let sound = Ready-Sound now d c r in
        let (resolved, state, answer) =
          apply-view candidate d known sound claimed (λ new viable. Ready-Fresh viable) in
        let go : SameAnswer (Ready hash_of IsPlain now) (apply candidate (resolve candidate d) d)
            (Memory.apply candidate (resolve candidate d) c) =
          let (answer', state') = apply-plain candidate (resolve candidate d) c in
          (
            answer ∙ ap (λ x. (Memory.apply candidate (resolve candidate d) x).0) r.same ∙ answer',
            Leaves-Ready now d _ c _ r
                (apply-Leaves IsPlain candidate d (resolve candidate d) known plain_id)
                (state
                  ∙ ap (λ x. plain (Memory.apply candidate (resolve candidate d) x).1) r.same
                  ∙ state')
                (apply-WellFormed candidate (resolve candidate d) c claimed r.well_formed),
          ) in
        (
          sym resolved ∙ ap (Memory.resolve candidate) r.same,
          λ animal e.
              subst
                (λ a.
                  SameAnswer (Ready hash_of IsPlain now) (apply candidate a d)
                    (Memory.apply candidate a c))
                e go,
        )

  pub reconcile-Ready :
      (precedes : Text → Text → Bool)
      (gone_order missed_order : List MemoryIdentity → List MemoryIdentity)
      (collates : Collates precedes IsPlain) (g : IsRowOrder gone_order)
      (m : IsRowOrder missed_order) (source : Text) (seen : List Text) (at now : ℕ)
      (gate : DisappearanceTally → DisappearanceVerdict Num) (d : PgCorpus P Num) (c : Corpus P Num)
      → Ready hash_of IsPlain now d c
      → SameAnswer
          (Ready hash_of IsPlain now)
          (reconcile precedes gone_order missed_order source seen at gate d)
          (Reconcile.reconcile precedes source seen at gate c)
  reconcile-Ready precedes gone_order missed_order collates g m source seen at now gate d c r =
      let (state, answer) =
        reconcile-view precedes IsPlain collates gone_order missed_order g m source seen at gate d
          r.identity_rows in
      let (answer', state') = reconcile-plain precedes source seen at gate c in
      (
        answer ∙ ap (λ x. (Reconcile.reconcile precedes source seen at gate x).0) r.same ∙ answer',
        Leaves-Ready now d _ c _ r
            (reconcile-Leaves IsPlain precedes gone_order missed_order source seen d at gate)
            (state
              ∙ ap (λ x. plain (Reconcile.reconcile precedes source seen at gate x).1) r.same
              ∙ state')
            (reconcile-WellFormed precedes source seen at gate c r.well_formed),
      )
