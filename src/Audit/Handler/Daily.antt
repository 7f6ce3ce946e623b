-- ===== src/Audit/Handler/Daily.antt =====
-- compute_daily_batch of rust-engine/audit/src/application/audit.rs and get_or_compute_batch_hash of
-- infrastructure/postgres.rs: a day's batch is computed once.
use ussd_polyglot.Prelude.{
  ℕ, suc, ◌+◌, ◌*◌, ◌/◌, ◌≡◌, refl, ◌∙◌, true, Option, none, some, List, String, ◌==◌, Bytes,
  find_if, get_elem?, arith,
}
use ussd_polyglot.Prelude.Int.{ℤ}
use ussd_polyglot.Prelude.Result.{ok}
use ussd_polyglot.Prelude.Time.{day}
use ussd_polyglot.Audit.Records.{EventRecord, BatchHashRecord, MerkleProofResult}
use ussd_polyglot.Audit.Merkle.{build_merkle_tree}
use ussd_polyglot.Audit.Repository.{
  new_batch, previous_batch, EventRow, BatchRow, Env, World, execute, tree_of, leaves_of,
  upsert_batch, compute_batch_hash, get_or_compute_batch_hash,
}
use ussd_polyglot.Audit.Repository.Rows.{AreUnique, range_of, fetch_events_for_range_lem}
use ussd_polyglot.Audit.Handler.{get_merkle_proof}
use ussd_polyglot.Audit.Handler.Proof.{get_merkle_proof-AreUnique}

-- the stored batch of a date, if there is one
abbrev pub batch_at : ℕ → List BatchRow → Option BatchRow
batch_at date batches = find_if (λ row. row.batch.batch_date == date) batches

-- two records of one batch: all but the instant is the same
abbrev pub SameBatch : BatchHashRecord → BatchHashRecord → Type 0
SameBatch a b =
    (a.batch_id ≡ b.batch_id)
    × (a.batch_hash ≡ b.batch_hash)
    × (a.record_count ≡ b.record_count)
    × (a.source_data_hash ≡ b.source_data_hash)
    × (a.previous_batch_hash ≡ b.previous_batch_hash)

module _ {V : Type 0} (env : Env V) where
  -- the date's records, as the repository's query gives them
  abbrev day_of : ℕ → World V → List (EventRecord V)
  day_of date w = range_of env (date * day) (date * day + day) w.events

  compute_batch_hash_lem :
      (date : ℕ) (w : World V) (root : Bytes) (tree : List Bytes)
      → build_merkle_tree env.sha256 (leaves_of env (day_of date w)) ≡ some (root, tree)
      → env.fault w.statements ≡ none
      → env.fault (suc w.statements) ≡ none
      → env.fault (suc (suc w.statements)) ≡ none
      → let new =
          new_batch env date
            (day_of date w)
            root
            (previous_batch env date w.batches)
            (suc (suc w.statements)) in
        compute_batch_hash env date w ≡ (
          ok new,
          record w {
            batches = upsert_batch new w.batches;
            statements = suc (suc (suc w.statements));
          },
        )
  unfolding compute_batch_hash execute tree_of
  compute_batch_hash_lem date w root tree built up up' up'' =
      let fetched = fetch_events_for_range_lem env (date * day) (date * day + day) w up in
      ground arith

  get_or_compute_batch_hash_absent :
      (date : ℕ) (w : World V)
      → batch_at date w.batches ≡ none
      → env.fault w.statements ≡ none
      → get_or_compute_batch_hash env date w
        ≡ compute_batch_hash env date (record w { statements = suc w.statements })
  unfolding get_or_compute_batch_hash execute
  get_or_compute_batch_hash_absent date w absent up = ground arith

  batch_hash-new_batch :
      (date : ℕ) (events : List (EventRecord V)) (root : Bytes) (previous : Option String) (n : ℕ)
      → (new_batch env date events root previous n).batch_hash ≡ env.hex root
  unfolding new_batch
  batch_hash-new_batch date events root previous n = refl

  -- Where the store holds a row, no two rows have one identifier, the text is the row's UUID, no
  -- batch is stored for the row's day and no statement fails: `get_merkle_proof` answers a valid
  -- proof of the event, `get_or_compute_batch_hash` answers a batch of its day, and the batch's hash
  -- is the hexadecimal text of the root in the proof.
  pub get_or_compute_batch_hash-get_merkle_proof :
      (tx : Option String) (s : String) (seq : Option ℤ) (w : World V) (k : ℕ) (row : EventRow V)
      → AreUnique w.events
      → get_elem? w.events k ≡ some row
      → env.parse_uuid s ≡ ok row.event_id
      → batch_at (row.occurred_at / day) w.batches ≡ none
      → ((n : ℕ) → env.fault n ≡ none)
      → (r : MerkleProofResult) × (w1 : World V) × (b : BatchHashRecord) × (w2 : World V)
        × (get_merkle_proof env tx (some s) seq w ≡ (ok r, w1))
        × (r.valid ≡ true)
        × (get_or_compute_batch_hash env (row.occurred_at / day) w ≡ (ok b, w2))
        × (b.batch_hash ≡ env.hex r.merkle_root)
  get_or_compute_batch_hash-get_merkle_proof tx s seq w k row unique at parsed absent up =
      let date = row.occurred_at / day in
      let next = record w { statements = suc w.statements } in
      let (r, tree, proved, valid, id, number, built) =
        get_merkle_proof-AreUnique env tx s seq w k row unique at parsed (up w.statements)
          (up (suc w.statements)) in
      let computed =
        compute_batch_hash_lem date next r.merkle_root tree built (up next.statements)
          (up (suc next.statements)) (up (suc (suc next.statements))) in
      (
        r,
        (record w { statements = suc (suc w.statements) }),
        new_batch env date (day_of date next) r.merkle_root (previous_batch env date w.batches)
            (suc (suc next.statements)),
        (record next {
          batches =
              upsert_batch
                (new_batch env date (day_of date next) r.merkle_root
                  (previous_batch env date w.batches) (suc (suc next.statements)))
                w.batches;
          statements = suc (suc (suc next.statements));
        }),
        proved,
        valid,
        get_or_compute_batch_hash_absent date w absent (up w.statements) ∙ computed,
        batch_hash-new_batch date (day_of date next) r.merkle_root
            (previous_batch env date w.batches) (suc (suc next.statements)),
      )
