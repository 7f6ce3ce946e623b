-- ===== src/Tests/AuditHandler.antt =====
-- A store of two events of one day and of two linked transactions, and the audit handlers on it.
use ussd_polyglot.Prelude.{
  ℕ, zero, suc, ◌+◌, ◌*◌, ◌/◌, ◌≤◌, ◌<◌, ◌≡◌, refl, subst, ◌↔◌, true, false, none, some, List, [],
  ◌∷◌, String, str_eq, Bytes, if◌then◌else◌, length, as_bytes, arith,
}
use ussd_polyglot.Prelude.Int.{pos, ◌≤ℤ◌}
use ussd_polyglot.Prelude.Result.{Result, ok, err}
use ussd_polyglot.Prelude.Time.{day}
use ussd_polyglot.Audit.Records.{
  TransactionRecord, BatchHashRecord, MerkleProofResult, LedgerChecksumResult, BatchIntegrityResult,
  ChainReportResult,
}
use ussd_polyglot.Audit.Merkle.{build_merkle_tree}
use ussd_polyglot.Audit.Merkle.Proofs.{length-build_merkle_tree}
use ussd_polyglot.Audit.Repository.{
  BatchRow, in_range, EventRow, Env, World, leaves_of, get_or_compute_batch_hash,
  fetch_transactions_for_chain,
}
use ussd_polyglot.Audit.Repository.Rows.{range_of}
use ussd_polyglot.Audit.Handler.{
  get_merkle_proof, get_ledger_checksum, verify_batch_integrity, verify_transaction_chain,
}
use ussd_polyglot.Audit.Handler.Chain.{
  IsLinked, verify_transaction_chain-IsLinked, verify_transaction_chain_child_first,
}
use ussd_polyglot.Audit.Handler.Proof.{get_merkle_proof-AreUnique}
use ussd_polyglot.Audit.Handler.Daily.{get_or_compute_batch_hash-get_merkle_proof}
use ussd_polyglot.Audit.Handler.Checksum.{
  AreWithin, AreNumbered, verify_batch_integrity-get_ledger_checksum,
}
use ussd_polyglot.Tests.Common.{toy_sha256}

abbrev toy_hex : Bytes → String
toy_hex b = elim b [ [] ↦ "00" | x ∷ xs ↦ "ab" ]

abbrev toy_parse : String → Result String ℕ
toy_parse s = if str_eq s "seven" then ok 7 else if str_eq s "eight" then ok 8 else err "invalid"

abbrev toy_env : Env String
toy_env = record {
  fault = λ n. none;
  now = λ n. 100 + n;
  new_id = λ n. 1000 + n;
  sha256 = toy_sha256;
  hex = toy_hex;
  digest = λ s. s;
  parse_uuid = toy_parse;
  uuid_text = λ n. "id";
  uuid_bytes = λ n. n ∷ [];
  i64_text = λ z. "number";
  parse_i32 = λ s. none;
  to_lowercase = λ s. s;
  distinct = λ ts. ts;
  negative_offset = "OFFSET must not be negative";
  sign = λ b. ok b;
  public_key_fingerprint = "key";
}

abbrev first_row : EventRow String
first_row = record {
  event_id = 7;
  event_type = "payment.initiated";
  sequence_number = pos 2;
  payload = "a";
  occurred_at = 5;
}

abbrev second_row : EventRow String
second_row = record {
  event_id = 8;
  event_type = "payment.completed";
  sequence_number = pos 1;
  payload = "b";
  occurred_at = 4;
}

abbrev parent : TransactionRecord
parent = record {
  transaction_id = pos 1;
  transaction_uuid = 8;
  record_hash = "h1";
  previous_hash = none;
  committed_at = 4;
}

abbrev child : TransactionRecord
child = record {
  transaction_id = pos 2;
  transaction_uuid = 7;
  record_hash = "h2";
  previous_hash = some "h1";
  committed_at = 5;
}

abbrev store : World String
store = record {
  events = first_row ∷ second_row ∷ [];
  transactions = parent ∷ child ∷ [];
  changes = [];
  batches = [];
  statements = 0;
}

abbrev after : ℕ → World String
after n = record store { statements = n }

get_merkle_proof-AreUnique_example :
    (r : MerkleProofResult) × (tree : List Bytes) × (get_merkle_proof toy_env none
        (some "seven")
        none
        store
      ≡ (ok r, after 2))
    × (r.valid ≡ true)
    × (r.event_id ≡ "id")
    × (r.sequence_number ≡ pos 2)
    × (build_merkle_tree toy_sha256
          (leaves_of toy_env (range_of toy_env (5 / day * day) (5 / day * day + day) store.events))
        ≡ some (r.merkle_root, tree))
get_merkle_proof-AreUnique_example =
    get_merkle_proof-AreUnique toy_env none "seven" none store 0 first_row (refl, (refl, tt)) refl
      refl refl refl

get_or_compute_batch_hash-get_merkle_proof_example :
    (r : MerkleProofResult) × (w1 : World String) × (b : BatchHashRecord) × (w2 : World String)
    × (get_merkle_proof toy_env none (some "seven") none store ≡ (ok r, w1))
    × (r.valid ≡ true)
    × (get_or_compute_batch_hash toy_env (5 / day) store ≡ (ok b, w2))
    × (b.batch_hash ≡ toy_hex r.merkle_root)
get_or_compute_batch_hash-get_merkle_proof_example =
    get_or_compute_batch_hash-get_merkle_proof toy_env none "seven" none store 0 first_row
      (refl, (refl, tt)) refl refl refl (λ n. refl)

abbrev day_batch : BatchHashRecord
day_batch = record {
  batch_id = 1003;
  batch_date = 0;
  batch_hash = "ab";
  record_count = pos 2;
  source_data_hash = "ab";
  computed_at = 103;
  previous_batch_hash = none;
}

abbrev day_row : BatchRow
day_row = record {
  batch = record day_batch { computed_at = 105 };
  signature = some (as_bytes "ab");
  key_id = some "key";
}

-- the store after the batch, and what is left of it when all events are gone
abbrev signed_store : World String
signed_store = record store { batches = day_row ∷ []; statements = 5 }

abbrev emptied_store : World String
emptied_store = record signed_store { events = [] }

verify_transaction_chain-IsLinked_example :
    (report : ChainReportResult) × (verify_transaction_chain toy_env "eight" (pos 5) store
      ≡ (ok report, after 1))
    × ((report.is_valid ≡ true) ↔ IsLinked (parent ∷ []))
verify_transaction_chain-IsLinked_example =
    verify_transaction_chain-IsLinked toy_env "eight" 8 (pos 5) store (after 1) parent [] refl
      (unfold fetch_transactions_for_chain in refl)

verify_transaction_chain_child_first_example :
    (report : ChainReportResult) × (verify_transaction_chain toy_env "seven" (pos 2) store
      ≡ (ok report, after 1))
    × (report.is_valid ≡ false)
    × (report.broken_at_transaction_id ≡ some "id")
verify_transaction_chain_child_first_example =
    verify_transaction_chain_child_first toy_env "seven" 7 0 store child parent refl refl refl refl
      refl (λ h. cc)

all_within : (to : ℕ) → 5 < to → AreWithin toy_env 0 to store.events
unfolding in_range
all_within to h zero row at =
    let same : first_row ≡ row = cc in subst (λ r. in_range 0 to r ≡ true) same (ground arith)
all_within to h (suc zero) row at =
    let same : second_row ≡ row = cc in subst (λ r. in_range 0 to r ≡ true) same (ground arith)
all_within to h (suc (suc i)) row at = cc

all_numbered : AreNumbered toy_env (pos 1) (pos 2) store.events
all_numbered zero row at =
    let same : first_row ≡ row = cc in
    subst (λ r. (pos 1 ≤ℤ r.sequence_number) × (r.sequence_number ≤ℤ pos 2)) same
      (omega arith, omega arith)
all_numbered (suc zero) row at =
    let same : second_row ≡ row = cc in
    subst (λ r. (pos 1 ≤ℤ r.sequence_number) × (r.sequence_number ≤ℤ pos 2)) same
      (omega arith, omega arith)
all_numbered (suc (suc i)) row at = cc

verify_batch_integrity-get_ledger_checksum_example :
    (c : LedgerChecksumResult) × (r : BatchIntegrityResult) × ((get_ledger_checksum toy_env 0 10
        store).0
      ≡ ok c)
    × ((verify_batch_integrity toy_env (pos 1) (pos 2) (some (toy_hex c.merkle_root)) (after 9)).0
        ≡ ok r)
    × (r.valid ≡ true)
    × (r.total_transactions ≡ c.total_events)
    × (r.verified_transactions ≡ c.total_events)
    × (r.violations ≡ [])
verify_batch_integrity-get_ledger_checksum_example =
    verify_batch_integrity-get_ledger_checksum toy_env 0 10 (pos 1) (pos 2) store (after 9)
      (omega arith) (omega arith) (all_within 10 (omega arith))
      (all_within (109 + 3650 * day) (omega arith)) all_numbered refl refl refl

length-build_merkle_tree_example :
    (root : Bytes) × (tree : List Bytes) × (build_merkle_tree toy_sha256 ((1 ∷ []) ∷ [])
      ≡ some (root, tree))
    × (1 ≤ length tree)
    × (0 < length tree)
length-build_merkle_tree_example = length-build_merkle_tree toy_sha256 ((1 ∷ []) ∷ [])
