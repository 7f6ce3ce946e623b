-- ===== src/Audit/Repository/Rows.antt =====
-- What the queries of rust-engine/audit/src/infrastructure/postgres.rs give: the rows that pass
-- their `WHERE`, each once, whatever the order, as records with the digests of their payloads.
use ussd_polyglot.Prelude.{
  String, ℕ, zero, suc, ◌+◌, ◌*◌, ◌/◌, ◌≡◌, refl, true, Option, none, some, List, [], ◌∷◌, ◌==◌,
  get_elem?, keep_if, find_if, find_if-none, get_elem?-keep_if, keep_if_sound, arith,
}
use ussd_polyglot.Prelude.Int.{ℤ}
use ussd_polyglot.Prelude.Result.{ok}
use ussd_polyglot.Prelude.Time.{day}
use ussd_polyglot.Prelude.Query.{order_by, get_elem?-order_by, order_by_sound}
use ussd_polyglot.Audit.Records.{EventRecord}
use ussd_polyglot.Audit.Repository.{
  World, execute, fetch_event, fetch_events_for_range, EventRow, Env, in_range, by_sequence,
  with_lag, record_of,
}

-- the constraint that no two rows have one `event_id`
abbrev pub AreUnique : {V : Type 0} → List (EventRow V) → Type 0
AreUnique [] = Unit {0}
AreUnique (row ∷ rows) = (find_if (λ r. r.event_id == row.event_id) rows ≡ none) × AreUnique rows

module _ {V : Type 0} (env : Env V) where
  pub find_if-AreUnique :
      (id : ℕ) (rows : List (EventRow V)) (i : ℕ) (row : EventRow V)
      → AreUnique rows
      → get_elem? rows i ≡ some row
      → row.event_id ≡ id
      → find_if (λ r. r.event_id == id) rows ≡ some row
  find_if-AreUnique id [] i row unique at named = cc
  find_if-AreUnique id (r ∷ rows) zero row unique at named = ground arith
  find_if-AreUnique id (r ∷ rows) (suc i) row unique at named =
      let later = find_if-AreUnique id rows i row unique.1 at named in
      let apart = find_if-none (λ x. x.event_id == r.event_id) rows i {x = row} unique.0 at in
      ground arith

  pub get_elem?-with_lag :
      (previous : Option String) (rows : List (EventRow V)) (i : ℕ) {row : EventRow V}
      → get_elem? rows i ≡ some row
      → (p : Option String) × (get_elem? (with_lag env previous rows) i
          ≡ some (record_of env p row))
  unfolding with_lag
  get_elem?-with_lag previous [] i h = cc
  get_elem?-with_lag previous (r ∷ rows) zero h = (previous, cc)
  get_elem?-with_lag previous (r ∷ rows) (suc i) {row} h =
      get_elem?-with_lag (some (env.digest r.payload)) rows i {row = row} h

  pub with_lag_sound :
      (previous : Option String) (rows : List (EventRow V)) (i : ℕ) {e : EventRecord V}
      → get_elem? (with_lag env previous rows) i ≡ some e
      → (row : EventRow V) × (p : Option String) × (get_elem? rows i ≡ some row)
        × (e ≡ record_of env p row)
  unfolding with_lag
  with_lag_sound previous [] i h = cc
  with_lag_sound previous (r ∷ rows) zero h = (r, previous, refl, cc)
  with_lag_sound previous (r ∷ rows) (suc i) {e} h =
      with_lag_sound (some (env.digest r.payload)) rows i {e = e} h

  -- the records of `fetch_events_for_range`, as a function of the table
  abbrev pub range_of : ℕ → ℕ → List (EventRow V) → List (EventRecord V)
  range_of from to rows = with_lag env none (order_by by_sequence (keep_if (in_range from to) rows))

  pub get_elem?-range_of :
      (from to : ℕ) (rows : List (EventRow V)) (i : ℕ) {row : EventRow V}
      → get_elem? rows i ≡ some row
      → in_range from to row ≡ true
      → (j : ℕ) × (p : Option String) × (get_elem? (range_of from to rows) j
          ≡ some (record_of env p row))
  get_elem?-range_of from to rows i {row} at within =
      let kept = keep_if (in_range from to) rows in
      let (j, there) = get_elem?-keep_if (in_range from to) rows i at within in
      let (k, sorted) = get_elem?-order_by by_sequence kept j there in
      let (p, lagged) = get_elem?-with_lag none (order_by by_sequence kept) k sorted in
      (k, p, lagged)

  pub range_of_sound :
      (from to : ℕ) (rows : List (EventRow V)) (j : ℕ) {e : EventRecord V}
      → get_elem? (range_of from to rows) j ≡ some e
      → (row : EventRow V) × (i : ℕ) × (p : Option String) × (get_elem? rows i ≡ some row)
        × (e ≡ record_of env p row)
  range_of_sound from to rows j {e} at =
      let kept = keep_if (in_range from to) rows in
      let (row, p, sorted, same) = with_lag_sound none (order_by by_sequence kept) j at in
      let (k, there) = order_by_sound by_sequence kept j sorted in
      let (passed, i, was) = keep_if_sound (in_range from to) rows k there in (row, i, p, was, same)

  pub fetch_events_for_range_lem :
      (from to : ℕ) (w : World V)
      → env.fault w.statements ≡ none
      → fetch_events_for_range env from to w
        ≡ (ok (range_of from to w.events), record w { statements = suc w.statements })
  unfolding fetch_events_for_range execute
  fetch_events_for_range_lem from to w up = ground arith

  pub fetch_event-find_if :
      (id : ℕ) (seq : Option ℤ) (w : World V) (row : EventRow V)
      → env.fault w.statements ≡ none
      → find_if (λ r. r.event_id == id) w.events ≡ some row
      → fetch_event env (some id) seq w
        ≡ (ok (some (record_of env none row)), record w { statements = suc w.statements })
  unfolding fetch_event execute
  fetch_event-find_if id seq w row up found = ground arith

pub in_range-day :
    {V : Type 0} (row : EventRow V)
    → in_range (row.occurred_at / day * day) (row.occurred_at / day * day + day) row ≡ true
unfolding in_range day
in_range-day row = ground arith
