-- ===== src/Audit/Repository.antt =====
-- AuditRepository of rust-engine/audit/src/infrastructure/postgres.rs: its queries of the events,
-- of the transaction log, of the change log and of the daily batches.
--
-- The database is Postgres's. A table is the list of its rows, in no order, and a statement does
-- what its SQL says, `ORDER BY` by insertion. `Env` holds what is decided elsewhere: which
-- statements fail and with what message, the clock and the new identifiers by the number of the
-- statement, and the functions of the libraries. `failed` is an error that the code returns and
-- `panicked` a panic.
pub mod Rows
use ussd_polyglot.Prelude.{
  ℕ, zero, suc, ◌+◌, ◌-◌, ◌*◌, Bool, true, false, ◌&&◌, Option, none, some, List, [], ◌∷◌, ◌++◌,
  map, String, if◌then◌else◌, ltb, leb, ◌==◌, str_eq, Bytes, length, keep_if, find_if, as_bytes,
}
use ussd_polyglot.Prelude.Int.{ℤ, pos, pos_part, ltb_ℤ, leb_ℤ, eq_ℤ, as_i32}
use ussd_polyglot.Prelude.Time.{day}
use ussd_polyglot.Prelude.Query.{order_by, one_of, take_rows, drop_rows}
use ussd_polyglot.Prelude.Effect.{Effect}
pub use ussd_polyglot.Prelude.Effect.{◌>>=◌, ◌>>◌, pure, raise, lift}
use ussd_polyglot.Prelude.Result.{Result, ok, err}
use ussd_polyglot.Audit.Records.{
  AuditError, database, EventRecord, TransactionRecord, BatchHashRecord, AuditTrailRecord,
}
use ussd_polyglot.Audit.Merkle.{build_merkle_tree}

-- a row of `events.event_store`, of the columns that the queries read
pub record EventRow (V : Type 0) : Type 0 where
  pub event_id : ℕ
  pub event_type : String
  pub sequence_number : ℤ
  pub payload : V
  pub occurred_at : ℕ

-- a row of `integrity.batch_hashes`
pub record BatchRow : Type 0 where
  pub batch : BatchHashRecord
  pub signature : Option Bytes
  pub key_id : Option String

-- a row of `audit.change_log`
pub record ChangeRow (V : Type 0) : Type 0 where
  pub audit_id : ℕ
  pub record_id : ℕ
  pub table_name : String
  pub operation : String
  pub old_data : Option V
  pub new_data : Option V
  pub changed_at : ℕ
  pub record_hash : String
  pub previous_hash : Option String

pub record World (V : Type 0) : Type 0 where
  pub events : List (EventRow V)
  pub transactions : List TransactionRecord
  pub changes : List (ChangeRow V)
  pub batches : List BatchRow
  -- the statements run so far
  pub statements : ℕ

pub data Failure : Type 0 where
  panicked : Failure
  failed : AuditError → Failure

pub record Env (V : Type 0) : Type 0 where
  pub fault : ℕ → Option String
  pub now : ℕ → ℕ
  pub new_id : ℕ → ℕ
  pub sha256 : Bytes → Bytes
  pub hex : Bytes → String
  -- `encode(digest(payload::text, 'sha256'), 'hex')`, of the database
  pub digest : V → String
  pub parse_uuid : String → Result String ℕ
  pub uuid_text : ℕ → String
  pub uuid_bytes : ℕ → Bytes
  pub i64_text : ℤ → String
  pub parse_i32 : String → Option ℤ
  pub to_lowercase : String → String
  -- a `HashSet` of the texts, in the order it gives them
  pub distinct : List String → List String
  -- the database's message for a negative `OFFSET`
  pub negative_offset : String
  pub sign : Bytes → Result AuditError Bytes
  pub public_key_fingerprint : String

abbrev pub Io : Type 0 → Type 0 → Type 0
Io V = Effect (World V) Failure

-- `WHERE occurred_at >= from AND occurred_at < to`
unfoldable pub in_range : {V : Type 0} → ℕ → ℕ → EventRow V → Bool
in_range from to row = leb from row.occurred_at && ltb row.occurred_at to

-- `ORDER BY sequence_number ASC`
unfoldable pub by_sequence : {V : Type 0} → EventRow V → EventRow V → Bool
by_sequence a b = leb_ℤ a.sequence_number b.sequence_number

-- `ON CONFLICT (batch_date) DO UPDATE SET`: the identifier and the signature are kept
unfoldable pub upsert_batch : BatchHashRecord → List BatchRow → List BatchRow
upsert_batch new [] = record { batch = new; signature = none; key_id = none } ∷ []
upsert_batch new (row ∷ rows) =
    if row.batch.batch_date == new.batch_date
    then record row { batch = record new { batch_id = row.batch.batch_id } } ∷ rows
    else row ∷ upsert_batch new rows

-- `UPDATE … SET signature, key_id, computed_at = NOW() WHERE batch_id`
unfoldable pub sign_row : ℕ → Bytes → String → ℕ → BatchRow → BatchRow
sign_row batch_id signature key_id now row =
    if row.batch.batch_id == batch_id
    then record row {
      batch = record row.batch { computed_at = now };
      signature = some signature;
      key_id = some key_id;
    }
    else row

-- the rows one step up the chain: those whose hash a row of the level names
unfoldable pub parents_of : List TransactionRecord → List TransactionRecord → List TransactionRecord
parents_of table [] = []
parents_of table (c ∷ level) =
    keep_if (λ t. elim c.previous_hash [ some h ↦ str_eq t.record_hash h | none ↦ false ]) table
    ++ parents_of table level

-- the recursive part of `WITH RECURSIVE chain`, with the depths left
unfoldable pub chain_from :
    ℕ → List TransactionRecord → List TransactionRecord → List TransactionRecord
unfolding parents_of
chain_from zero table level = level
chain_from (suc depths) table level =
    level ++ elim level [ [] ↦ [] | c ∷ cs ↦ chain_from depths table (parents_of table (c ∷ cs)) ]

module _ {V : Type 0} (env : Env V) where
  -- one statement: it is counted, and fails with a database error or goes on
  unfoldable pub execute : Io V (Unit {0})
  execute w =
      let w' = record w { statements = w.statements + 1 } in
      elim (env.fault w.statements) [
        | some message ↦ (err (failed (database message)), w')
        | none ↦ (ok tt, w')
      ]

  -- a row as the record of a query that gives it the previous hash
  unfoldable pub record_of : Option String → EventRow V → EventRecord V
  record_of previous row = record {
    event_id = row.event_id;
    event_type = row.event_type;
    sequence_number = row.sequence_number;
    payload = row.payload;
    record_hash = env.digest row.payload;
    previous_hash = previous;
    occurred_at = row.occurred_at;
  }

  -- `lag(record_hash) over (order by sequence_number)`
  unfoldable pub with_lag : Option String → List (EventRow V) → List (EventRecord V)
  unfolding record_of
  with_lag previous [] = []
  with_lag previous (row ∷ rows) =
      record_of previous row ∷ with_lag (some (env.digest row.payload)) rows

  unfoldable pub fetch_events_for_range : ℕ → ℕ → Io V (List (EventRecord V))
  unfolding execute with_lag order_by in_range by_sequence
  fetch_events_for_range from to = do
    execute
    λ w. (ok (with_lag none (order_by by_sequence (keep_if (in_range from to) w.events))), w)

  unfoldable pub fetch_event : Option ℕ → Option ℤ → Io V (Option (EventRecord V))
  unfolding execute record_of
  fetch_event (some id) sequence_number = do
    execute
    λ w. (
      ok (elim (find_if (λ row. row.event_id == id) w.events) [
        | some row ↦ some (record_of none row)
        | none ↦ none
      ]),
      w,
    )
  fetch_event none (some seq) = do
    execute
    λ w. (
      ok (elim (find_if (λ row. eq_ℤ row.sequence_number seq) w.events) [
        | some row ↦ some (record_of none row)
        | none ↦ none
      ]),
      w,
    )
  fetch_event none none = pure none

  unfoldable pub fetch_transactions_for_chain : ℕ → ℤ → Io V (List TransactionRecord)
  unfolding execute chain_from
  fetch_transactions_for_chain transaction_uuid max_depth = do
    execute
    λ w. (
      ok (
          chain_from (pos_part max_depth - 1) w.transactions
            (keep_if (λ t. t.transaction_uuid == transaction_uuid) w.transactions)),
      w,
    )

  unfoldable pub trail_of : ChangeRow V → AuditTrailRecord V
  trail_of row = record {
    audit_id = row.audit_id;
    event_type = row.operation;
    action = row.operation;
    old_data = row.old_data;
    new_data = row.new_data;
    timestamp = row.changed_at;
    record_hash = row.record_hash;
    previous_hash = row.previous_hash;
  }

  -- the limit is at least 1; a negative offset is an error of the database
  unfoldable pub fetch_audit_trail : ℕ → String → ℤ → ℤ → Io V (List (AuditTrailRecord V))
  unfolding execute trail_of order_by
  fetch_audit_trail record_id table_name limit offset = do
    execute
    if ltb_ℤ offset (pos 0) then raise (failed (database env.negative_offset)) else pure tt
    λ w. (
      ok (
          map trail_of (
            take_rows (pos_part limit) (
              drop_rows (pos_part offset) (
                order_by (λ a b. leb b.changed_at a.changed_at)
                  (keep_if (λ row. row.record_id == record_id && str_eq row.table_name table_name)
                    w.changes))))),
      w,
    )

  unfoldable pub stream_audit_events : ℕ → List String → Io V (List (EventRecord V))
  unfolding execute record_of order_by by_sequence one_of
  stream_audit_events from event_types = do
    execute
    λ w. (
      ok (
          map (record_of none) (
            order_by by_sequence (elim event_types [
              | [] ↦ keep_if (λ row. leb from row.occurred_at) w.events
              | t ∷ ts ↦
                  keep_if (λ row. leb from row.occurred_at && one_of (t ∷ ts) row.event_type)
                    w.events
            ]))),
      w,
    )

  -- `sha256(e.record_hash.as_bytes())` of each event
  unfoldable pub leaves_of : List (EventRecord V) → List Bytes
  leaves_of events = map (λ e. env.sha256 (as_bytes e.record_hash)) events

  -- the bytes of the record hashes, one after the other
  unfoldable pub source_of : List (EventRecord V) → Bytes
  source_of [] = []
  source_of (e ∷ events) = as_bytes e.record_hash ++ source_of events

  -- `build_merkle_tree`, whose panic is the caller's
  unfoldable pub tree_of : List Bytes → Io V (Bytes × List Bytes)
  tree_of leaves = elim (build_merkle_tree env.sha256 leaves) [
    | some built ↦ pure built
    | none ↦ raise panicked
  ]

  -- `ORDER BY batch_date DESC LIMIT 1` of the batches before a date
  unfoldable pub previous_batch : ℕ → List BatchRow → Option String
  unfolding order_by
  previous_batch date batches =
      elim (order_by (λ a b. leb b.batch.batch_date a.batch.batch_date)
        (keep_if (λ row. ltb row.batch.batch_date date) batches)) [
          | [] ↦ none
          | row ∷ rows ↦ some row.batch.batch_hash
        ]

  -- the batch of a date's events, from the root of their tree and the batch before it
  unfoldable pub new_batch : ℕ → List (EventRecord V) → Bytes → Option String → ℕ → BatchHashRecord
  unfolding source_of
  new_batch date events root previous statements = record {
    batch_id = env.new_id statements;
    batch_date = date;
    batch_hash = env.hex root;
    record_count = as_i32 (length events);
    source_data_hash = env.hex (env.sha256 (source_of events));
    computed_at = env.now statements;
    previous_batch_hash = previous;
  }

  unfoldable pub compute_batch_hash : ℕ → Io V BatchHashRecord
  unfolding execute fetch_events_for_range tree_of leaves_of new_batch previous_batch upsert_batch
      day
  compute_batch_hash date = do
    events ← fetch_events_for_range (date * day) (date * day + day)
    built ← tree_of (leaves_of events)
    execute
    λ w.
        (let new = new_batch date events built.0 (previous_batch date w.batches) w.statements in
            execute >> λ w. (ok new, record w { batches = upsert_batch new w.batches }))
          w

  unfoldable pub get_or_compute_batch_hash : ℕ → Io V BatchHashRecord
  unfolding execute compute_batch_hash
  get_or_compute_batch_hash date = do
    execute
    λ w. elim (find_if (λ row. row.batch.batch_date == date) w.batches) [
      | some row ↦ (ok row.batch, w)
      | none ↦ compute_batch_hash date w
    ]

  unfoldable pub update_batch_signature : ℕ → Bytes → String → Io V (Unit {0})
  unfolding execute sign_row
  update_batch_signature batch_id signature key_id = do
    execute
    λ w. (
      ok tt,
      record w {
        batches = map (sign_row batch_id signature key_id (env.now w.statements)) w.batches;
      },
    )
