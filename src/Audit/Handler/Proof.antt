-- ===== src/Audit/Handler/Proof.antt =====
-- get_merkle_proof of rust-engine/audit/src/application/audit.rs: its answer for an event of the
-- store.
use ussd_polyglot.Prelude.{
  ℕ, zero, suc, ◌+◌, ◌*◌, ◌/◌, ◌≡◌, refl, sym, ap, ◌∙◌, Bool, true, Option, none, some, List, [],
  ◌∷◌, String, ◌==◌, Bytes, get_elem?, length, length-map, find_if, position, position-some,
  position_sound, as_bytes, arith,
}
use ussd_polyglot.Prelude.Int.{ℤ}
use ussd_polyglot.Prelude.Dict.{nat_refl, nat_sound}
use ussd_polyglot.Prelude.Result.{ok}
use ussd_polyglot.Prelude.Time.{day}
use ussd_polyglot.Audit.Records.{EventRecord, MerkleProofResult}
use ussd_polyglot.Audit.Merkle.{build_merkle_tree, merkle_proof, verify_merkle_proof}
use ussd_polyglot.Audit.Merkle.Proofs.{verify_merkle_proof-merkle_proof}
use ussd_polyglot.Audit.Repository.{EventRow, Env, in_range, World, record_of, leaves_of, tree_of}
use ussd_polyglot.Audit.Repository.Rows.{
  fetch_events_for_range_lem, fetch_event-find_if, AreUnique, find_if-AreUnique, range_of,
  get_elem?-range_of, range_of_sound, in_range-day,
}
use ussd_polyglot.Audit.Handler.{answer_of, get_merkle_proof, prove, parse_id}

module _ {V : Type 0} (env : Env V) where
  -- the leaf of an event
  abbrev leaf_of : EventRecord V → Bytes
  leaf_of e = env.sha256 (as_bytes e.record_hash)

  get_elem?-leaves_of :
      (events : List (EventRecord V)) (i : ℕ) {e : EventRecord V}
      → get_elem? events i ≡ some e
      → get_elem? (leaves_of env events) i ≡ some (leaf_of e)
  unfolding leaves_of
  get_elem?-leaves_of [] i h = cc
  get_elem?-leaves_of (f ∷ events) zero h = cc
  get_elem?-leaves_of (f ∷ events) (suc i) h = get_elem?-leaves_of events i h

  length-leaves_of : (events : List (EventRecord V)) → length (leaves_of env events) ≡ length events
  unfolding leaves_of
  length-leaves_of events = length-map leaf_of events

  -- an event that stands among the day's events, at the position found, is proved there
  prove_step :
      (tx : Option String) (event : EventRecord V) (events : List (EventRecord V)) (w : World V)
      (i : ℕ) (root : Bytes) (tree proof : List Bytes) {e : EventRecord V}
      → position (λ f. f.event_id == event.event_id) events ≡ some i
      → get_elem? events i ≡ some e
      → build_merkle_tree env.sha256 (leaves_of env events) ≡ some (root, tree)
      → merkle_proof tree (length (leaves_of env events)) i ≡ some proof
      → prove env tx event events w
        ≡ (ok (answer_of env tx event i root proof (env.now w.statements)), w)
  unfolding prove tree_of
  prove_step tx event [] w i root tree proof found at built proved = cc
  prove_step tx event (e ∷ events) w i root tree proof found at built proved = ground arith

  valid-answer_of :
      (tx : Option String) (event : EventRecord V) (i : ℕ) (root : Bytes) (proof : List Bytes)
      (now : ℕ)
      → verify_merkle_proof env.sha256 (leaf_of event) i proof root ≡ true
      → (answer_of env tx event i root proof now).valid ≡ true
  unfolding answer_of
  valid-answer_of tx event i root proof now h = h

  -- the two queries of a request by the identifier of an event
  get_merkle_proof_step :
      (tx : Option String) (s : String) (seq : Option ℤ) (id : ℕ) (w : World V) (row : EventRow V)
      → env.parse_uuid s ≡ ok id
      → find_if (λ r. r.event_id == id) w.events ≡ some row
      → env.fault w.statements ≡ none
      → env.fault (suc w.statements) ≡ none
      → get_merkle_proof env tx (some s) seq w
        ≡ prove env tx
            (record_of env none row)
            (range_of env
              (row.occurred_at / day * day)
              (row.occurred_at / day * day + day)
              w.events)
            (record w { statements = suc (suc w.statements) })
  unfolding get_merkle_proof parse_id
  get_merkle_proof_step tx s seq id w row parsed found up up' =
      let fetched = fetch_event-find_if env id seq w row up found in
      let event = record_of env none row in
      let w' = record w { statements = suc w.statements } in
      let ranged =
        fetch_events_for_range_lem env (event.occurred_at / day * day)
          (event.occurred_at / day * day + day) w' up' in
      ground arith

  hash-record_of :
      (p q : Option String) (row : EventRow V)
      → (record_of env p row).record_hash ≡ (record_of env q row).record_hash
  unfolding record_of
  hash-record_of p q row = refl

  id-record_of :
      (p : Option String) (row : EventRow V) → (record_of env p row).event_id ≡ row.event_id
  unfolding record_of
  id-record_of p row = refl

  -- the record at the position of a row's identifier has the row's hash, as no other row has the
  -- identifier
  position-range_of :
      (from to : ℕ) (rows : List (EventRow V)) (k : ℕ) (row : EventRow V)
      → AreUnique rows
      → get_elem? rows k ≡ some row
      → in_range from to row ≡ true
      → (i : ℕ) × (e : EventRecord V) × (position
            (λ f. f.event_id == row.event_id)
            (range_of env from to rows)
          ≡ some i)
        × (get_elem? (range_of env from to rows) i ≡ some e)
        × (e.record_hash ≡ env.digest row.payload)
  unfolding record_of
  position-range_of from to rows k row unique at within =
      let same_id : EventRecord V → Bool = λ f. f.event_id == row.event_id in
      let events = range_of env from to rows in
      let (j, p, there) = get_elem?-range_of env from to rows k at within in
      let (i, found) = position-some same_id events j there (nat_refl row.event_id) in
      let (e, at', passed) = position_sound same_id events found in
      let (row', k', p', was, is) = range_of_sound env from to rows i at' in
      let named : row'.event_id ≡ row.event_id =
        ap (λ x. x.event_id) (sym is) ∙ nat_sound e.event_id row.event_id passed in
      let one = find_if-AreUnique env row.event_id rows k row unique at refl in
      let other = find_if-AreUnique env row.event_id rows k' row' unique was named in
      let same : row' ≡ row = cc in
      (i, e, found, at', ap (λ x. x.record_hash) is ∙ ap (λ x. env.digest x.payload) same)

  -- Where the text is the UUID of a row of the store, no two rows have one identifier and neither
  -- of the two queries fails, `get_merkle_proof` answers a proof of that event that it has verified
  -- itself: `valid` is true, and the answer names the row's identifier and sequence number. The root
  -- in it is the root that `build_merkle_tree` gives for the hashes of the events of the row's day.
  pub get_merkle_proof-AreUnique :
      (tx : Option String) (s : String) (seq : Option ℤ) (w : World V) (k : ℕ) (row : EventRow V)
      → AreUnique w.events
      → get_elem? w.events k ≡ some row
      → env.parse_uuid s ≡ ok row.event_id
      → env.fault w.statements ≡ none
      → env.fault (suc w.statements) ≡ none
      → (r : MerkleProofResult) × (tree : List Bytes) × (get_merkle_proof env tx (some s) seq w
          ≡ (ok r, record w { statements = suc (suc w.statements) }))
        × (r.valid ≡ true)
        × (r.event_id ≡ env.uuid_text row.event_id)
        × (r.sequence_number ≡ row.sequence_number)
        × (build_merkle_tree env.sha256 (
              leaves_of env (
                range_of env
                  (row.occurred_at / day * day)
                  (row.occurred_at / day * day + day)
                  w.events))
            ≡ some (r.merkle_root, tree))
  unfolding answer_of record_of
  get_merkle_proof-AreUnique tx s seq w k row unique at parsed up up' =
      let from = row.occurred_at / day * day in
      let events = range_of env from (from + day) w.events in
      let event = record_of env none row in
      let w' = record w { statements = suc (suc w.statements) } in
      let found = find_if-AreUnique env row.event_id w.events k row unique at refl in
      let (i, e, placed, there, hashed) =
        position-range_of from (from + day) w.events k row unique at (in_range-day row) in
      let (root, tree, proof, built, proved, verified) =
        verify_merkle_proof-merkle_proof env.sha256 (leaves_of env events) i
          (get_elem?-leaves_of events i there) in
      let verified' : verify_merkle_proof env.sha256 (leaf_of event) i proof root ≡ true =
        rw (← hashed) verified in
      (
        answer_of env tx event i root proof (env.now w'.statements),
        tree,
        get_merkle_proof_step tx s seq row.event_id w row parsed found up up'
            ∙ prove_step tx event events w' i root tree proof placed there built proved,
        verified',
        refl,
        refl,
        built,
      )
