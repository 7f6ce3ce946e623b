-- ===== src/Audit/Records.antt =====
-- rust-engine/audit/src: the records of infrastructure/postgres.rs, the errors of domain/error.rs
-- and the results of application/audit.rs.
--
-- A UUID is a number, an instant the microseconds since the epoch and a date the days since it.
-- `V` is serde_json's `Value`. The library's errors are kept by their texts.
use ussd_polyglot.Prelude.{ℕ, Bool, Option, List, String, Bytes}
use ussd_polyglot.Prelude.Int.{ℤ}

pub data AuditError : Type 0 where
  database : String → AuditError
  event_not_found : String → AuditError
  batch_not_found : String → AuditError
  hash_chain_broken : String → AuditError
  invalid_date_range : String → AuditError
  export_failed : String → AuditError
  serialization : String → AuditError
  internal : String → AuditError

-- the codes of `tonic::Status` that an error becomes
pub data StatusCode : Type 0 where
  not_found : StatusCode
  failed_precondition : StatusCode
  invalid_argument : StatusCode
  internal_code : StatusCode

unfoldable pub code_of : AuditError → StatusCode
code_of (event_not_found t) = not_found
code_of (batch_not_found t) = not_found
code_of (hash_chain_broken t) = failed_precondition
code_of (invalid_date_range t) = invalid_argument
code_of (database t) = internal_code
code_of (export_failed t) = internal_code
code_of (serialization t) = internal_code
code_of (internal t) = internal_code

pub record EventRecord (V : Type 0) : Type 0 where
  pub event_id : ℕ
  pub event_type : String
  pub sequence_number : ℤ
  pub payload : V
  pub record_hash : String
  pub previous_hash : Option String
  pub occurred_at : ℕ

pub record TransactionRecord : Type 0 where
  pub transaction_id : ℤ
  pub transaction_uuid : ℕ
  pub record_hash : String
  pub previous_hash : Option String
  pub committed_at : ℕ

pub record BatchHashRecord : Type 0 where
  pub batch_id : ℕ
  pub batch_date : ℕ
  pub batch_hash : String
  pub record_count : ℤ
  pub source_data_hash : String
  pub computed_at : ℕ
  pub previous_batch_hash : Option String

pub record AuditTrailRecord (V : Type 0) : Type 0 where
  pub audit_id : ℕ
  pub event_type : String
  pub action : String
  pub old_data : Option V
  pub new_data : Option V
  pub timestamp : ℕ
  pub record_hash : String
  pub previous_hash : Option String

pub record MerkleProofResult : Type 0 where
  pub event_id : String
  pub target_id : String
  pub sequence_number : ℤ
  pub merkle_root : Bytes
  pub proof_hashes : List Bytes
  pub valid : Bool
  pub computed_at : ℕ
  pub signature : String
  pub signer_key_id : String

pub record LedgerChecksumResult : Type 0 where
  pub merkle_root : Bytes
  pub event_count : ℤ
  pub computed_at : ℕ
  pub checksum_id : String
  pub latest_sequence_number : ℤ
  pub total_events : ℤ
  pub signature : String
  pub signer_key_id : String

pub record IntegrityViolation : Type 0 where
  pub transaction_id : String
  pub expected_hash : String
  pub actual_hash : String
  pub violation_type : String

pub record BatchIntegrityResult : Type 0 where
  pub valid : Bool
  pub computed_root : String
  pub period_start : Option ℕ
  pub period_end : Option ℕ
  pub total_transactions : ℤ
  pub verified_transactions : ℤ
  pub failed_transactions : ℤ
  pub is_fully_valid : Bool
  pub previous_batch_hash : Option String
  pub violations : List IntegrityViolation

pub record ChainReportResult : Type 0 where
  pub start_transaction_id : String
  pub is_valid : Bool
  pub chain_length : ℤ
  pub broken_at_transaction_id : Option String
  pub expected_hash : Option String
  pub actual_hash : Option String

pub record AuditTrailResult (V : Type 0) : Type 0 where
  pub audit_id : String
  pub event_type : String
  pub action : String
  pub old_data : Option V
  pub new_data : Option V
  pub timestamp : ℕ
  pub record_hash : String
  pub previous_hash : Option String

pub record AuditReportResult : Type 0 where
  pub report_id : String
  pub total_events : ℤ
  pub included_event_types : List String
  pub generated_at : ℕ
  pub checksum : String

pub record AuditExportResult : Type 0 where
  pub report_id : String
  pub download_url : String
  pub checksum : String
  pub signature : Bytes
  pub expires_at : ℕ
