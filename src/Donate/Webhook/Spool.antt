-- ===== src/Donate/Webhook/Spool.antt =====
-- The sweep of the spool loses no delivery.
use mathlib.Core.List.{append-nil, map-append}
use monster_paws.Prelude.{
  subst, ◌+◌, ◌≡◌, refl, sym, ap, ◌⊎◌, inl, inr, Bool, true, false, not, Option, none, some, List,
  [], ◌∷◌, ◌++◌, map, length, length-append, arith, Any, All, Option-cases, Bool-cases,
  if◌then◌else◌, keep_if, ltb,
}
use monster_paws.Donate.Webhook.{
  StoredDelivery, Inbox, SpoolEntry, StoreFate, stored, refused, landed_late, Sweep, keep_file,
  store_file, sweep_file, sweep_files, store_delivery, stale_ms,
}

-- The rows' deliveries, in the order in which they were stored.
abbrev pub deliveries : Inbox → List StoredDelivery
deliveries b = map (λ r. r.delivery) b.payloads

-- Where a file is after a sweep: in the spool still, or its delivery is a row.
abbrev pub IsAccounted : Sweep → SpoolEntry → Type 0
IsAccounted s entry =
    Any (λ e. e ≡ entry) s.left
    ⊎ ((row : StoredDelivery) × (entry.row ≡ some row) × Any (λ d. d ≡ row) (deliveries s.inbox))

Any-front : {A : Type 0} (P : A → Type 0) (xs ys : List A) → Any P xs → Any P (xs ++ ys)
Any-front P [] ys h = absurd h
Any-front P (x ∷ xs) ys (inl h) = inl h
Any-front P (x ∷ xs) ys (inr h) = inr (Any-front P xs ys h)

Any-last : {A : Type 0} (P : A → Type 0) (xs : List A) (x : A) → P x → Any P (xs ++ x ∷ [])
Any-last P [] x h = inl h
Any-last P (y ∷ xs) x h = inr (Any-last P xs x h)

-- What one file does to the sweep: its place is known, and nothing that was there is lost.
record Steps (entry : SpoolEntry) (s t : Sweep) : Type 0 where
  here : IsAccounted t entry
  left_grows : (more : List SpoolEntry) × (t.left ≡ s.left ++ more)
  rows_grow : (more : List StoredDelivery) × (deliveries t.inbox ≡ deliveries s.inbox ++ more)
  counted : t.replayed + length t.left ≡ s.replayed + length s.left + 1
  stale :
      t.stale_files + length (keep_if (λ e. ltb stale_ms e.age_ms) s.left)
      ≡ s.stale_files + length (keep_if (λ e. ltb stale_ms e.age_ms) t.left)

abbrev is_old : SpoolEntry → Bool
is_old e = ltb stale_ms e.age_ms

stale_snoc :
    (xs : List SpoolEntry) (e : SpoolEntry)
    → length (keep_if is_old (xs ++ e ∷ []))
      ≡ length (keep_if is_old xs) + (if is_old e then 1 else 0)
unfolding keep_if
stale_snoc [] e = ground arith
stale_snoc (x ∷ xs) e = ground (arith, stale_snoc xs e)

kept-Steps :
    (entry : SpoolEntry) (s t : Sweep)
    → ((more : List StoredDelivery) × (deliveries t.inbox ≡ deliveries s.inbox ++ more))
    → t.left ≡ s.left
    → t.replayed ≡ s.replayed
    → t.stale_files ≡ s.stale_files
    → Steps entry s (keep_file entry t)
unfolding keep_file
kept-Steps entry s t rows el er es = record {
  here = inl (Any-last _ t.left entry refl);
  left_grows = (entry ∷ [], ap (λ x. x ++ entry ∷ []) el);
  rows_grow = rows;
  counted = omega (arith, length-append t.left (entry ∷ []), ap length el);
  stale = ground (arith, stale_snoc t.left entry, ap (λ x. length (keep_if is_old x)) el);
}

same_rows : (b : Inbox) → (more : List StoredDelivery) × (deliveries b ≡ deliveries b ++ more)
same_rows b = ([], sym (append-nil _))

stored_row :
    (row : StoredDelivery) (b : Inbox)
    → deliveries (store_delivery row b).1 ≡ deliveries b ++ row ∷ []
unfolding store_delivery
stored_row row b = map-append (λ r. r.delivery) b.payloads _

sweep_file_cases :
    (fate : SpoolEntry → StoreFate) (entry : SpoolEntry) (s : Sweep)
    → (sweep_file fate entry s ≡ keep_file entry s)
      ⊎ ((row : StoredDelivery) × (entry.row ≡ some row)
          × (sweep_file fate entry s ≡ store_file (fate entry) entry row s))
unfolding sweep_file
sweep_file_cases fate entry s = elim (Bool-cases s.database_up) [
  | inr down ↦ inl (go s.database_up entry.row down)
  | inl up ↦ elim (Option-cases entry.row) [
    | inl unread ↦ inl (by_row s.database_up entry.row unread)
    | inr (row, e) ↦ inr (row, e, readable s.database_up entry.row row up e)
  ]
]
  where
    next : Bool → Option StoredDelivery → Sweep
    next up o =
        if not up
        then keep_file entry s
        else elim o [ none ↦ keep_file entry s | some row ↦ store_file (fate entry) entry row s ]

    go : (up : Bool) (o : Option StoredDelivery) → up ≡ false → next up o ≡ keep_file entry s
    go up o down = rw down

    by_row : (up : Bool) (o : Option StoredDelivery) → o ≡ none → next up o ≡ keep_file entry s
    by_row true o e = rw e
    by_row false o e = refl

    readable :
        (up : Bool) (o : Option StoredDelivery) (row : StoredDelivery)
        → up ≡ true
        → o ≡ some row
        → next up o ≡ store_file (fate entry) entry row s
    readable up o row h e = rw (h, e)

store_file-Steps :
    (f : StoreFate) (entry : SpoolEntry) (row : StoredDelivery) (s : Sweep)
    → entry.row ≡ some row
    → Steps entry s (store_file f entry row s)
unfolding store_file
store_file-Steps stored entry row s e = record {
  here = inr (
    row,
    e,
    subst (Any (λ d. d ≡ row)) (sym (stored_row row s.inbox))
        (Any-last _ (deliveries s.inbox) row refl),
  );
  left_grows = ([], sym (append-nil _));
  rows_grow = (row ∷ [], stored_row row s.inbox);
  counted = omega arith;
  stale = omega arith;
}
store_file-Steps refused entry row s e =
    kept-Steps entry s (record s { database_up = false }) (same_rows s.inbox) refl refl refl
store_file-Steps landed_late entry row s e =
    kept-Steps entry s (record s { inbox = (store_delivery row s.inbox).1; database_up = false })
      (row ∷ [], stored_row row s.inbox) refl refl refl

sweep_file-Steps :
    (fate : SpoolEntry → StoreFate) (entry : SpoolEntry) (s : Sweep)
    → Steps entry s (sweep_file fate entry s)
sweep_file-Steps fate entry s = elim (sweep_file_cases fate entry s) [
  | inl way ↦
      subst (Steps entry s) (sym way) (kept-Steps entry s s (same_rows s.inbox) refl refl refl)
  | inr (row, e, way) ↦
      subst (Steps entry s) (sym way) (store_file-Steps (fate entry) entry row s e)
]

Steps-IsAccounted :
    (entry other : SpoolEntry) (s t : Sweep)
    → Steps entry s t
    → IsAccounted s other
    → IsAccounted t other
Steps-IsAccounted entry other s t step (inl h) =
    let (more, e) = step.left_grows in
    inl (subst (Any (λ x. x ≡ other)) (sym e) (Any-front _ s.left more h))
Steps-IsAccounted entry other s t step (inr (row, er, h)) =
    let (more, e) = step.rows_grow in
    inr (row, er, subst (Any (λ d. d ≡ row)) (sym e) (Any-front _ (deliveries s.inbox) more h))

sweep_files-IsAccounted :
    (fate : SpoolEntry → StoreFate) (entries : List SpoolEntry) (s : Sweep) (other : SpoolEntry)
    → IsAccounted s other
    → IsAccounted (sweep_files fate entries s) other
unfolding sweep_files
sweep_files-IsAccounted fate [] s other h = h
sweep_files-IsAccounted fate (entry ∷ entries) s other h =
    sweep_files-IsAccounted fate entries (sweep_file fate entry s) other
      (Steps-IsAccounted entry other s _ (sweep_file-Steps fate entry s) h)

-- What the loop over the files does: every file is accounted for, none is counted twice, and the
-- stale ones are those that stay and are old.
pub record Swept (entries : List SpoolEntry) (s t : Sweep) : Type 0 where
  pub accounted : All (IsAccounted t) entries
  pub counted : t.replayed + length t.left ≡ s.replayed + length s.left + length entries
  pub stale :
      t.stale_files + length (keep_if (λ e. ltb stale_ms e.age_ms) s.left)
      ≡ s.stale_files + length (keep_if (λ e. ltb stale_ms e.age_ms) t.left)

-- However the database fails, the loop over the files loses no delivery: each file stays in the
-- spool or has its delivery stored as a row; the files that were replayed and those that stay are
-- as many as there were; and the report counts as stale exactly the old ones that stay.
pub sweep_files-Swept :
    (fate : SpoolEntry → StoreFate) (entries : List SpoolEntry) (s : Sweep)
    → Swept entries s (sweep_files fate entries s)
unfolding sweep_files
sweep_files-Swept fate [] s = record { accounted = tt; counted = omega arith; stale = omega arith }
sweep_files-Swept fate (entry ∷ entries) s =
    let step = sweep_file-Steps fate entry s in
    let rest = sweep_files-Swept fate entries (sweep_file fate entry s) in
    record {
      accounted = (
        sweep_files-IsAccounted fate entries (sweep_file fate entry s) entry step.here,
        rest.accounted,
      );
      counted = omega (arith, step.counted, rest.counted);
      stale = omega (arith, step.stale, rest.stale);
    }
