-- ===== src/Audit/Handler/Checksum.antt =====
-- get_ledger_checksum and verify_batch_integrity of rust-engine/audit/src/application/audit.rs.
use ussd_polyglot.Prelude.{
  ℕ, suc, ◌+◌, ◌*◌, ◌≤◌, ◌≡◌, refl, sym, ap, ◌∙◌, true, some, none, List, [], Bytes, length,
  get_elem?, keep_if, keep_if_all, arith, String, Option,
}
use ussd_polyglot.Prelude.Dict.{str_eq_refl}
use ussd_polyglot.Prelude.Int.{ℤ, ◌≤ℤ◌, as_i64}
use ussd_polyglot.Prelude.Result.{ok}
use ussd_polyglot.Prelude.Time.{day}
use ussd_polyglot.Audit.Records.{EventRecord, LedgerChecksumResult, BatchIntegrityResult}
use ussd_polyglot.Audit.Merkle.{build_merkle_tree}
use ussd_polyglot.Audit.Merkle.Proofs.{length-build_merkle_tree}
use ussd_polyglot.Prelude.Query.{order_by}
use ussd_polyglot.Audit.Repository.{
  EventRow, Env, World, record_of, in_range, by_sequence, with_lag, leaves_of, tree_of,
}
use ussd_polyglot.Audit.Repository.Rows.{range_of, range_of_sound, fetch_events_for_range_lem}
use ussd_polyglot.Audit.Handler.{
  in_sequence, integrity_of, checksum_of, get_ledger_checksum, verify_batch_integrity,
}

module _ {V : Type 0} (env : Env V) where
  -- all rows pass a range's test
  abbrev pub AreWithin : ℕ → ℕ → List (EventRow V) → Type 0
  AreWithin from to rows =
      (i : ℕ) (row : EventRow V) → get_elem? rows i ≡ some row → in_range from to row ≡ true

  abbrev pub AreNumbered : ℤ → ℤ → List (EventRow V) → Type 0
  AreNumbered start end rows =
      (i : ℕ) (row : EventRow V)
      → get_elem? rows i ≡ some row
      → (start ≤ℤ row.sequence_number) × (row.sequence_number ≤ℤ end)

  range_of_whole :
      (from to from' to' : ℕ) (rows : List (EventRow V))
      → AreWithin from to rows
      → AreWithin from' to' rows
      → range_of env from to rows ≡ range_of env from' to' rows
  range_of_whole from to from' to' rows h h' =
      ap (λ rows. with_lag env none (order_by by_sequence rows))
        (keep_if_all (in_range from to) rows h ∙ sym (keep_if_all (in_range from' to') rows h'))

  in_sequence-record_of :
      (start end : ℤ) (p : Option String) (row : EventRow V)
      → start ≤ℤ row.sequence_number
      → row.sequence_number ≤ℤ end
      → in_sequence env start end (record_of env p row) ≡ true
  unfolding in_sequence record_of
  in_sequence-record_of start end p row low high = ground arith

  in_sequence_whole :
      (from to : ℕ) (start end : ℤ) (rows : List (EventRow V))
      → AreNumbered start end rows
      → keep_if (in_sequence env start end) (range_of env from to rows) ≡ range_of env from to rows
  in_sequence_whole from to start end rows numbered =
      keep_if_all (in_sequence env start end) (range_of env from to rows) (λ i e at.
        let (row, j, p, there, is) = range_of_sound env from to rows i at in
        let (low, high) = numbered j row there in
        ap (in_sequence env start end) is ∙ in_sequence-record_of start end p row low high)

  get_ledger_checksum_lem :
      (from to : ℕ) (w : World V) (root : Bytes) (tree : List Bytes)
      → from ≤ to
      → env.fault w.statements ≡ none
      → build_merkle_tree env.sha256 (leaves_of env (range_of env from to w.events))
        ≡ some (root, tree)
      → get_ledger_checksum env from to w ≡ (
        ok (checksum_of env (range_of env from to w.events) root (suc w.statements)),
        record w { statements = suc w.statements },
      )
  unfolding get_ledger_checksum tree_of
  get_ledger_checksum_lem from to w root tree ordered up built =
      let fetched = fetch_events_for_range_lem env from to w up in ground arith

  verify_batch_integrity_lem :
      (start end : ℤ) (expected : Option String) (w : World V) (root : Bytes) (tree : List Bytes)
      → start ≤ℤ end
      → env.fault w.statements ≡ none
      → build_merkle_tree env.sha256 (
          leaves_of env (
            keep_if
              (in_sequence env start end)
              (range_of env 0 (env.now w.statements + 3650 * day) w.events)))
        ≡ some (root, tree)
      → verify_batch_integrity env start end expected w ≡ (
        ok (
            integrity_of env
              (keep_if
                (in_sequence env start end)
                (range_of env 0 (env.now w.statements + 3650 * day) w.events))
              (env.hex root)
              expected),
        record w { statements = suc w.statements },
      )
  unfolding verify_batch_integrity tree_of
  verify_batch_integrity_lem start end expected w root tree ordered up built =
      let fetched = fetch_events_for_range_lem env 0 (env.now w.statements + 3650 * day) w up in
      ground arith

  -- an expectation that is the computed root itself is met
  integrity_of-same :
      (events : List (EventRecord V)) (hex : String)
      → ((integrity_of env events hex (some hex)).valid ≡ true)
        × ((integrity_of env events hex (some hex)).verified_transactions ≡ as_i64 (length events))
        × ((integrity_of env events hex (some hex)).violations ≡ [])
  unfolding integrity_of
  integrity_of-same events hex =
      let met = str_eq_refl (env.to_lowercase hex) in (met, ground arith, ground arith)

  -- Where all rows of the store lie in the period and in the ten years from the later call, and all
  -- their sequence numbers in the range, the period and the range are in order, the events are the
  -- same at both calls and neither statement fails: `get_ledger_checksum` answers a root, and
  -- `verify_batch_integrity`, given the hexadecimal text of that root, answers that the batch is
  -- valid, with as many transactions in all and verified as the checksum counts events, and no
  -- violation.
  pub verify_batch_integrity-get_ledger_checksum :
      (from to : ℕ) (start end : ℤ) (w w' : World V)
      → from ≤ to
      → start ≤ℤ end
      → AreWithin from to w.events
      → AreWithin 0 (env.now w'.statements + 3650 * day) w.events
      → AreNumbered start end w.events
      → w'.events ≡ w.events
      → env.fault w.statements ≡ none
      → env.fault w'.statements ≡ none
      → (c : LedgerChecksumResult) × (r : BatchIntegrityResult) × ((get_ledger_checksum env from to
            w).0
          ≡ ok c)
        × ((verify_batch_integrity env start end (some (env.hex c.merkle_root)) w').0 ≡ ok r)
        × (r.valid ≡ true)
        × (r.total_transactions ≡ c.total_events)
        × (r.verified_transactions ≡ c.total_events)
        × (r.violations ≡ [])
  unfolding checksum_of integrity_of
  verify_batch_integrity-get_ledger_checksum from to start end w w' ordered ordered' within within'
        numbered same up up' =
      let to' = env.now w'.statements + 3650 * day in
      let events = range_of env from to w.events in
      let (root, tree, built, long, full) =
        length-build_merkle_tree env.sha256 (leaves_of env events) in
      let whole : keep_if (in_sequence env start end) (range_of env 0 to' w'.events) ≡ events =
        ap (λ rows. keep_if (in_sequence env start end) (range_of env 0 to' rows)) same
        ∙ in_sequence_whole 0 to' start end w.events numbered
        ∙ range_of_whole 0 to' from to w.events within' within in
      let summed = get_ledger_checksum_lem from to w root tree ordered up built in
      let verified =
        verify_batch_integrity_lem start end (some (env.hex root)) w' root tree ordered' up'
          (ap (λ es. build_merkle_tree env.sha256 (leaves_of env es)) whole ∙ built) in
      let c = checksum_of env events root (suc w.statements) in
      let r = integrity_of env events (env.hex root) (some (env.hex root)) in
      (
        c,
        r,
        ap (λ p. p.0) summed,
        ap (λ p. p.0) verified
            ∙ ap (λ es. ok (integrity_of env es (env.hex root) (some (env.hex root)))) whole,
        (integrity_of-same events (env.hex root)).0,
        refl,
        (integrity_of-same events (env.hex root)).1,
        (integrity_of-same events (env.hex root)).2,
      )
