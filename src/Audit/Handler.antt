-- ===== src/Audit/Handler.antt =====
-- AuditHandler of rust-engine/audit/src/application/audit.rs, over the repository, and
-- `sign_batch_hash` of infrastructure/signing.rs.
pub mod Chain
pub mod Proof
pub mod Daily
pub mod Checksum
use ussd_polyglot.Prelude.{
  ℕ, suc, ◌+◌, ◌-◌, ◌*◌, ◌/◌, Bool, true, false, ◌&&◌, Option, none, some, List, [], ◌∷◌, map,
  String, if◌then◌else◌, ltb, ◌==◌, str_eq, Bytes, ◌<>◌, length, get_elem?, get_last?, keep_if,
  position, as_bytes, take_chars,
}
use ussd_polyglot.Prelude.Int.{ℤ, pos, ltb_ℤ, leb_ℤ, as_i32, as_i64}
use ussd_polyglot.Prelude.Result.{Result, ok, err, map_err}
use ussd_polyglot.Prelude.Time.{day}
use ussd_polyglot.Audit.Records.{
  AuditError, event_not_found, invalid_date_range, internal, EventRecord, TransactionRecord,
  BatchHashRecord, AuditTrailRecord, MerkleProofResult, LedgerChecksumResult, IntegrityViolation,
  BatchIntegrityResult, ChainReportResult, AuditTrailResult, AuditReportResult, AuditExportResult,
}
use ussd_polyglot.Audit.Merkle.{merkle_proof, verify_merkle_proof}
use ussd_polyglot.Prelude.Query.{one_of}
use ussd_polyglot.Audit.Repository.{
  Env, Io, ◌>>=◌, ◌>>◌, pure, raise, lift, Failure, panicked, failed, leaves_of, source_of, tree_of,
  fetch_events_for_range, fetch_event, fetch_transactions_for_chain, fetch_audit_trail,
  get_or_compute_batch_hash, update_batch_signature,
}
use ussd_polyglot.Audit.Repository.{stream_audit_events as repo_stream_audit_events}

-- `Option::unwrap_or`
unfoldable pub unwrap_or : {A : Type 0} → A → Option A → A
unwrap_or default none = default
unwrap_or default (some a) = a

abbrev pub map_option : {A B : Type 0} → (A → B) → Option A → Option B
map_option f none = none
map_option f (some a) = some (f a)

-- `iter().max().unwrap_or(0)` of the sequence numbers
unfoldable pub max_sequence : {V : Type 0} → List (EventRecord V) → ℤ
max_sequence [] = pos 0
max_sequence (e ∷ []) = e.sequence_number
max_sequence (e ∷ e' ∷ events) =
    let rest = max_sequence (e' ∷ events) in
    if leb_ℤ e.sequence_number rest then rest else e.sequence_number

-- whether the previous hash of a record is the hash of the record before it
unfoldable pub names : TransactionRecord → TransactionRecord → Bool
names record' prev = elim record'.previous_hash [
  | some h ↦ str_eq h prev.record_hash
  | none ↦ false
]

-- the loop of `verify_transaction_chain`: the first two records of which the second does not name
-- the first
unfoldable pub first_break : List TransactionRecord → Option (TransactionRecord × TransactionRecord)
unfolding names
first_break [] = none
first_break (prev ∷ []) = none
first_break (prev ∷ record' ∷ records) =
    if names record' prev then first_break (record' ∷ records) else some (prev, record')

module _ {V : Type 0} (env : Env V) where
  -- `Uuid::parse_str(…).map_err(|e| AuditError::Internal(e.to_string()))`
  unfoldable pub parse_id : String → Result Failure ℕ
  parse_id s = map_err (λ e. failed (internal e)) (env.parse_uuid s)

  unfoldable pub sign_batch_hash : String → Result AuditError (Bytes × String)
  sign_batch_hash batch_hash = elim (env.sign (as_bytes batch_hash)) [
    | ok signature ↦ ok (signature, env.public_key_fingerprint)
    | err e ↦ err e
  ]

  unfoldable pub compute_daily_batch : ℕ → Io V BatchHashRecord
  unfolding get_or_compute_batch_hash sign_batch_hash update_batch_signature
  compute_daily_batch date = do
    batch ← get_or_compute_batch_hash env date
    signed ← lift (map_err failed (sign_batch_hash batch.batch_hash))
    update_batch_signature env batch.batch_id signed.0 signed.1
    pure batch

  -- the answer of `get_merkle_proof`, with the verification of the proof
  unfoldable pub answer_of :
      Option String → EventRecord V → ℕ → Bytes → List Bytes → ℕ → MerkleProofResult
  unfolding unwrap_or
  answer_of transaction_id event leaf_index root proof_hashes now = record {
    event_id = env.uuid_text event.event_id;
    target_id = unwrap_or (env.uuid_text event.event_id) transaction_id;
    sequence_number = event.sequence_number;
    merkle_root = root;
    proof_hashes = proof_hashes;
    valid =
        verify_merkle_proof env.sha256 (env.sha256 (as_bytes event.record_hash)) leaf_index
          proof_hashes root;
    computed_at = now;
    signature = "";
    signer_key_id = "";
  }

  -- what `get_merkle_proof` does with the events of the day
  unfoldable pub prove :
      Option String → EventRecord V → List (EventRecord V) → Io V MerkleProofResult
  unfolding tree_of leaves_of answer_of
  prove transaction_id event day_events = elim day_events [
    | [] ↦ raise (failed (event_not_found (env.uuid_text event.event_id)))
    | e ∷ events ↦ do
      built ← tree_of env (leaves_of env (e ∷ events))
      leaf_index ← elim (position (λ f. f.event_id == event.event_id) (e ∷ events)) [
        | some i ↦ pure i
        | none ↦ raise (failed (event_not_found (env.uuid_text event.event_id)))
      ]
      proof_hashes ← elim (merkle_proof built.1 (length (leaves_of env (e ∷ events))) leaf_index) [
        | some hashes ↦ pure hashes
        | none ↦ raise panicked
      ]
      λ w. (
        ok (answer_of transaction_id event leaf_index built.0 proof_hashes (env.now w.statements)),
        w,
      )
  ]

  -- `event_id.clone().or_else(|| sequence_number.map(|s| s.to_string())).unwrap_or_default()`
  unfoldable pub lookup_key : Option String → Option ℤ → String
  lookup_key (some id) sequence_number = id
  lookup_key none (some seq) = env.i64_text seq
  lookup_key none none = ""

  unfoldable pub get_merkle_proof :
      Option String → Option String → Option ℤ → Io V MerkleProofResult
  unfolding parse_id lookup_key fetch_event fetch_events_for_range prove day
  get_merkle_proof transaction_id event_id sequence_number = do
    target_event_id ← elim event_id [
      | none ↦ pure none
      | some id ↦ lift (elim (parse_id id) [ ok i ↦ ok (some i) | err e ↦ err e ])
    ]
    found ← fetch_event env target_event_id sequence_number
    event ← elim found [
      | some event ↦ pure event
      | none ↦ raise (failed (event_not_found (lookup_key event_id sequence_number)))
    ]
    day_events ←
        fetch_events_for_range env (event.occurred_at / day * day)
          (event.occurred_at / day * day + day)
    prove transaction_id event day_events

  -- `hex::encode(Uuid::new_v4().as_bytes())[..16]`
  unfoldable pub short_id : ℕ → String
  short_id n = take_chars 16 (env.hex (env.uuid_bytes (env.new_id n)))

  -- the answer of `get_ledger_checksum`
  unfoldable pub checksum_of : List (EventRecord V) → Bytes → ℕ → LedgerChecksumResult
  unfolding max_sequence short_id
  checksum_of events root statements = record {
    merkle_root = root;
    event_count = as_i64 (length events);
    computed_at = env.now statements;
    checksum_id = "CHK-" <> short_id statements;
    latest_sequence_number = max_sequence events;
    total_events = as_i64 (length events);
    signature = "";
    signer_key_id = "";
  }

  unfoldable pub get_ledger_checksum : ℕ → ℕ → Io V LedgerChecksumResult
  unfolding fetch_events_for_range tree_of leaves_of checksum_of
  get_ledger_checksum from_date to_date = do
    (if ltb to_date from_date
        then raise (failed (invalid_date_range "from_date must be before to_date"))
        else pure tt)
    events ← fetch_events_for_range env from_date to_date
    built ← tree_of env (leaves_of env events)
    λ w. (ok (checksum_of events built.0 w.statements), w)

  -- `e.sequence_number >= start_event_id && e.sequence_number <= end_event_id`
  unfoldable pub in_sequence : ℤ → ℤ → EventRecord V → Bool
  in_sequence start_event_id end_event_id e =
      leb_ℤ start_event_id e.sequence_number && leb_ℤ e.sequence_number end_event_id

  -- the identifier of the first event, or no text
  unfoldable pub first_id : List (EventRecord V) → String
  first_id [] = ""
  first_id (e ∷ events) = env.uuid_text e.event_id

  -- what `verify_batch_integrity` answers for the events in the sequence's range and their root
  unfoldable pub integrity_of : List (EventRecord V) → String → Option String → BatchIntegrityResult
  unfolding first_id unwrap_or
  integrity_of events computed_root_hex expected_root_hex =
      let valid : Bool = elim expected_root_hex [
        | some exp ↦ str_eq (env.to_lowercase exp) (env.to_lowercase computed_root_hex)
        | none ↦ true
      ] in
      record {
        valid = valid;
        computed_root = computed_root_hex;
        period_start = map_option (λ e. e.occurred_at) (get_elem? events 0);
        period_end = map_option (λ e. e.occurred_at) (get_last? events);
        total_transactions = as_i64 (length events);
        verified_transactions = if valid then as_i64 (length events) else pos 0;
        failed_transactions = if valid then pos 0 else as_i64 (length events);
        is_fully_valid = valid;
        previous_batch_hash = none;
        violations =
            if valid
            then []
            else record {
              transaction_id = first_id events;
              expected_hash = unwrap_or "" expected_root_hex;
              actual_hash = computed_root_hex;
              violation_type = "ROOT_MISMATCH";
            }
              ∷ [];
      }

  unfoldable pub verify_batch_integrity : ℤ → ℤ → Option String → Io V BatchIntegrityResult
  unfolding fetch_events_for_range in_sequence tree_of leaves_of integrity_of day
  verify_batch_integrity start_event_id end_event_id expected_root_hex = do
    (if ltb_ℤ end_event_id start_event_id
        then raise (failed (invalid_date_range "start_event_id must be <= end_event_id"))
        else pure tt)
    all_events ← λ w. fetch_events_for_range env 0 (env.now w.statements + 3650 * day) w
    built ←
        tree_of env (leaves_of env (keep_if (in_sequence start_event_id end_event_id) all_events))
    pure (
        integrity_of (keep_if (in_sequence start_event_id end_event_id) all_events)
          (env.hex built.0) expected_root_hex)

  -- the answer of `verify_transaction_chain` for the records of the chain
  unfoldable pub chain_report : String → List TransactionRecord → ChainReportResult
  unfolding first_break
  chain_report transaction_id records = elim (first_break records) [
    | none ↦ record {
      start_transaction_id = transaction_id;
      is_valid = true;
      chain_length = as_i32 (length records);
      broken_at_transaction_id = none;
      expected_hash = none;
      actual_hash = none;
    }
    | some (prev, record') ↦ record {
      start_transaction_id = transaction_id;
      is_valid = false;
      chain_length = as_i32 (length records);
      broken_at_transaction_id = some (env.uuid_text record'.transaction_uuid);
      expected_hash = some prev.record_hash;
      actual_hash = record'.previous_hash;
    }
  ]

  unfoldable pub verify_transaction_chain : String → ℤ → Io V ChainReportResult
  unfolding parse_id fetch_transactions_for_chain chain_report
  verify_transaction_chain transaction_id max_depth = do
    tx_uuid ← lift (parse_id transaction_id)
    records ← fetch_transactions_for_chain env tx_uuid max_depth
    elim records [
      | [] ↦ raise (failed (event_not_found transaction_id))
      | r ∷ rs ↦ pure (chain_report transaction_id (r ∷ rs))
    ]

  unfoldable pub trail_result : AuditTrailRecord V → AuditTrailResult V
  trail_result r = record {
    audit_id = env.uuid_text r.audit_id;
    event_type = r.event_type;
    action = r.action;
    old_data = r.old_data;
    new_data = r.new_data;
    timestamp = r.timestamp;
    record_hash = r.record_hash;
    previous_hash = r.previous_hash;
  }

  unfoldable pub get_audit_trail : String → String → ℤ → String → Io V (List (AuditTrailResult V))
  unfolding parse_id fetch_audit_trail trail_result unwrap_or
  get_audit_trail record_id table_name page_size page_token = do
    record_uuid ← lift (parse_id record_id)
    records ←
        fetch_audit_trail env record_uuid table_name
          (if ltb_ℤ (pos 0) page_size then page_size else pos 50)
          (unwrap_or (pos 0) (env.parse_i32 page_token))
    pure (map trail_result records)

  -- the events of the types asked for, all of them where none is named
  unfoldable pub of_types : List String → List (EventRecord V) → List (EventRecord V)
  unfolding one_of
  of_types [] events = events
  of_types (t ∷ types) events = keep_if (λ e. one_of (t ∷ types) e.event_type) events

  unfoldable pub get_audit_report : String → ℕ → ℕ → List String → Io V AuditReportResult
  unfolding fetch_events_for_range of_types source_of short_id
  get_audit_report tenant_id from_date to_date event_types = do
    events ← fetch_events_for_range env from_date to_date
    λ w. (
      ok (record {
        report_id = "RPT-" <> short_id w.statements;
        total_events = as_i64 (length (of_types event_types events));
        included_event_types = env.distinct (map (λ e. e.event_type) (of_types event_types events));
        generated_at = env.now w.statements;
        checksum = env.hex (env.sha256 (source_of env (of_types event_types events)));
      }),
      w,
    )

  unfoldable pub export_audit_report : String → String → Io V AuditExportResult
  unfolding day
  export_audit_report report_id tenant_id w =
      let checksum = env.hex (env.sha256 (as_bytes report_id)) in
      (
        ok (record {
          report_id = report_id;
          download_url = "https://api.ussd-kernel.org/exports/" <> report_id <> ".json";
          checksum = checksum;
          signature = env.sha256 (as_bytes checksum);
          expires_at = env.now w.statements + 7 * day;
        }),
        w,
      )

  unfoldable pub stream_audit_events : ℕ → List String → Io V (List (EventRecord V))
  unfolding repo_stream_audit_events
  stream_audit_events from event_types = repo_stream_audit_events env from event_types
