-- ===== src/Session/Grpc.antt =====
-- rust-engine/session-reconstructor/src/ports/grpc.rs: the methods that are implemented, over the
-- handlers of application/reconstruct.rs.
--
-- A method takes what the store's queries answer, and the cache that it finds. `panicked` is a
-- panic, and `status` the error that the caller receives. Protobuf's structures, the spans and the
-- clock are the libraries': a state is answered as it is, an instant as it is, and the time of the
-- replay and of the proof are left out.
pub mod Proof
use ussd_polyglot.Prelude.{
  ℕ, ◌+◌, ◌-◌, Bool, true, false, ◌&&◌, Option, none, some, List, [], ◌∷◌, String, if◌then◌else◌,
  ltb, leb, str_eq, ◌<>◌, Bytes, length, get_elem?, get_last?,
}
use ussd_polyglot.Prelude.Int.{ℤ, pos, pos_part, ltb_ℤ, ◌+ℤ◌, as_i32, as_i64}
use ussd_polyglot.Prelude.Dict.{Dict, KeyEq, string_key, pair_key, lookup}
use ussd_polyglot.Prelude.Result.{Result, ok, err, map_err, ◌>>=◌}
use ussd_polyglot.Session.State.{
  Json, SessionState, DomainError, session_not_found, event_sequence_gap, hash_mismatch,
  invalid_event_type, internal, EventEnvelope,
}
use ussd_polyglot.Session.Integrity.{IntegrityResult, verify_integrity}
use ussd_polyglot.Session.Merkle.{compute_merkle_proof}
use ussd_polyglot.Session.Reconstruct.{
  DbEvent, SessionCache, ReconstructSessionResult, reconstruct_session, fetch_event_hashes,
}

-- the codes of `tonic::Status` that the methods answer
pub data Code : Type 0 where
  not_found invalid_argument failed_precondition data_loss internal_code : Code

pub data Failure : Type 0 where
  panicked : Failure
  status : Code → String → Failure

pub record IntegrityProof : Type 0 where
  pub session_id : String
  pub event_version : ℤ
  pub event_hash : String
  pub sibling_hashes : List String
  pub merkle_root : String
  pub signature : String

pub record ReconstructSessionRequest : Type 0 where
  pub session_id : String
  pub tenant_id : String
  pub max_events : ℤ
  pub include_merkle_proof : Bool

pub record ReconstructSessionResponse : Type 0 where
  pub session_id : String
  pub state : SessionState
  pub current_version : ℤ
  pub events_replayed : ℤ
  pub is_valid : Bool
  pub integrity_hash : String
  pub last_activity : Option ℕ
  pub merkle_proof : Option IntegrityProof

pub record VerifySessionRequest : Type 0 where
  pub session_id : String
  pub expected_hash : String
  -- the baggage of the tracing context, if there is one
  pub baggage : Option (Dict String String)

pub record VerifySessionResponse : Type 0 where
  pub is_valid : Bool
  pub computed_hash : String
  pub expected_hash : String
  pub event_count : ℤ
  pub broken_at_event_id : String

-- what the crates give: `Uuid`, the decimal texts, SHA-256 and the hexadecimal encoding
pub record Crates : Type 0 where
  pub parse : String → Option ℕ
  pub uuid_text : ℕ → String
  pub i64_text : ℤ → String
  pub sha256 : Bytes → Bytes
  pub hex_encode : Bytes → String
  pub hex_decode : String → Option Bytes

-- `cache.invalidate`: the entries of the session are gone
unfoldable pub invalidate : ℕ × ℕ → SessionCache → SessionCache
invalidate k [] = []
invalidate k ((j, v) ∷ cache) =
    let rest = invalidate k cache in if pair_key.beq j k then rest else (j, v) ∷ rest

-- the index of the event that is proved, for `n` hashes
unfoldable pub clamped_index : ℤ → ℕ → ℕ
clamped_index event_version n =
    let target_index = if ltb_ℤ (pos 0) event_version then pos_part event_version - 1 else n - 1 in
    if leb target_index (n - 1) then target_index else n - 1

module _ (crates : Crates) where
  open crates use {parse, uuid_text, i64_text, sha256, hex_encode, hex_decode}

  -- the texts of `DomainError`
  unfoldable pub error_text : DomainError → String
  error_text session_not_found = "session not found"
  error_text (event_sequence_gap expected found) =
      "event sequence gap: expected " <> i64_text (pos expected) <> ", found " <> i64_text found
  error_text (hash_mismatch version) = "hash mismatch at version " <> i64_text version
  error_text (invalid_event_type t) = "invalid event type: " <> t
  error_text (internal message) = "internal error: " <> message

  unfoldable pub map_domain_error : DomainError → Failure
  unfolding error_text
  map_domain_error session_not_found = status not_found (error_text session_not_found)
  map_domain_error (hash_mismatch version) =
      status failed_precondition (error_text (hash_mismatch version))
  map_domain_error (event_sequence_gap expected found) =
      status data_loss (error_text (event_sequence_gap expected found))
  map_domain_error (invalid_event_type t) =
      status invalid_argument (error_text (invalid_event_type t))
  map_domain_error (internal message) = status internal_code message

  unfoldable pub parse_uuid : String → Result Failure ℕ
  parse_uuid s = elim (parse s) [
    | some id ↦ ok id
    | none ↦ err (status invalid_argument ("invalid uuid: " <> s))
  ]

  unfoldable pub extract_tenant_id : VerifySessionRequest → Option ℕ
  extract_tenant_id req = elim req.baggage [
    | none ↦ none
    | some baggage ↦ elim (lookup "tenant_id" baggage) [ none ↦ none | some v ↦ parse v ]
  ]

  -- `compute_merkle_proof`, whose panic is the caller's
  unfoldable pub proof_of : List String → ℕ → Result Failure (String × List String)
  proof_of hashes index = elim (compute_merkle_proof sha256 hex_encode hex_decode hashes index) [
    | some p ↦ ok p
    | none ↦ err panicked
  ]

  -- `hashes[clamped_index].clone()`
  unfoldable pub hash_at : List String → ℕ → Result Failure String
  hash_at hashes index = elim (get_elem? hashes index) [ some h ↦ ok h | none ↦ err panicked ]

  -- the answer of `get_integrity_proof` for the hashes of the session
  unfoldable pub prove : ℕ → ℤ → List String → Result Failure IntegrityProof
  unfolding clamped_index proof_of hash_at
  prove session_id event_version [] = err (status not_found "session not found")
  prove session_id event_version (h ∷ hashes) =
      let index = clamped_index event_version (length (h ∷ hashes)) in
      proof_of (h ∷ hashes) index >>= λ p. hash_at (h ∷ hashes) index >>= λ event_hash. ok (record {
        session_id = uuid_text session_id;
        event_version = as_i64 index +ℤ pos 1;
        event_hash = event_hash;
        sibling_hashes = p.1;
        merkle_root = p.0;
        signature = "";
      })

  module _ (json : Json) where
    open json use {Value}

    -- `fetched` is what the query of the session's events answers
    unfoldable pub get_integrity_proof :
        String
        → String
        → ℤ
        → (ℕ → ℕ → Result String (List (DbEvent Value)))
        → Result Failure IntegrityProof
    unfolding parse_uuid fetch_event_hashes prove
    get_integrity_proof session tenant event_version fetched = parse_uuid session >>= λ session_id.
        parse_uuid tenant >>= λ tenant_id.
        map_err map_domain_error (fetch_event_hashes json (fetched session_id tenant_id))
        >>= prove session_id event_version

    -- the proof that goes with a reconstruction: of the last event, without the siblings
    unfoldable pub last_proof :
        ℕ → ℤ → Result DomainError (List String) → Result Failure (Option IntegrityProof)
    unfolding proof_of
    last_proof session_id current_version (err e) = ok none
    last_proof session_id current_version (ok []) = ok none
    last_proof session_id current_version (ok (h ∷ hashes)) =
        proof_of (h ∷ hashes) (length (h ∷ hashes) - 1) >>= λ p. ok (
          some (record {
            session_id = uuid_text session_id;
            event_version = current_version;
            event_hash = elim (get_last? (h ∷ hashes)) [ some last ↦ last | none ↦ "" ];
            sibling_hashes = [];
            merkle_root = p.0;
            signature = "";
          }))

    unfoldable pub response_of :
        ℕ → ReconstructSessionResult → Option IntegrityProof → ReconstructSessionResponse
    response_of session_id result proof = record {
      session_id = uuid_text session_id;
      state = result.state;
      current_version = result.current_version;
      events_replayed = as_i32 result.event_count;
      is_valid = true;
      integrity_hash = result.integrity_hash;
      last_activity = result.last_activity;
      merkle_proof = proof;
    }

    -- the answer of the method to what the handler answered
    unfoldable pub reconstructed :
        ReconstructSessionRequest
        → ℕ
        → Result String (List (DbEvent Value))
        → Result DomainError ReconstructSessionResult
        → Result Failure ReconstructSessionResponse
    unfolding response_of last_proof fetch_event_hashes
    reconstructed req session_id fetched (err e) = err (map_domain_error e)
    reconstructed req session_id fetched (ok result) =
        (if req.include_merkle_proof
          then last_proof session_id result.current_version (fetch_event_hashes json fetched)
          else ok none)
        >>= λ proof. ok (response_of session_id result proof)

    -- `fetch_events` is the handler's query with its limit, `fetched` the query of the hashes
    unfoldable pub grpc_reconstruct_session :
        SessionCache
        → ReconstructSessionRequest
        → (ℕ → ℕ → ℤ → Result String (List (DbEvent Value)))
        → (ℕ → ℕ → Result String (List (DbEvent Value)))
        → Result Failure ReconstructSessionResponse × SessionCache
    unfolding parse_uuid reconstruct_session reconstructed
    grpc_reconstruct_session cache req fetch_events fetched = elim (parse_uuid req.session_id) [
      | err e ↦ (err e, cache)
      | ok session_id ↦ elim (parse_uuid req.tenant_id) [
        | err e ↦ (err e, cache)
        | ok tenant_id ↦
            let max_events : ℤ =
              if ltb_ℤ (pos 0) req.max_events then req.max_events else pos 1000 in
            let (r, cache') =
              reconstruct_session json cache session_id tenant_id max_events
                (fetch_events session_id tenant_id) in
            (reconstructed req session_id (fetched session_id tenant_id) r, cache')
      ]
    ]

    module _ (digest : String → String) (rfc3339 : ℕ → String) where
      unfoldable pub verify_session_integrity :
          VerifySessionRequest
          → (ℕ → ℕ → Result String (List (EventEnvelope Value)))
          → Result Failure VerifySessionResponse
      unfolding parse_uuid extract_tenant_id verify_integrity
      verify_session_integrity req fetched = parse_uuid req.session_id >>= λ session_id.
          elim (extract_tenant_id req) [
            | none ↦
                err (status invalid_argument "tenant_id is required but not provided in request")
            | some tenant_id ↦
                map_err map_domain_error
                  (verify_integrity json digest rfc3339 (fetched session_id tenant_id))
                >>= λ result. ok (record {
                  is_valid = result.is_valid && str_eq result.computed_hash req.expected_hash;
                  computed_hash = result.computed_hash;
                  expected_hash = req.expected_hash;
                  event_count = as_i64 result.event_count;
                  broken_at_event_id = "";
                })
          ]

  unfoldable pub invalidate_cache :
      SessionCache → String → String → Result Failure (Unit {0}) × SessionCache
  unfolding parse_uuid invalidate
  invalidate_cache cache session tenant = elim (parse_uuid session) [
    | err e ↦ (err e, cache)
    | ok session_id ↦ elim (parse_uuid tenant) [
      | err e ↦ (err e, cache)
      | ok tenant_id ↦ (ok tt, invalidate (session_id, tenant_id) cache)
    ]
  ]
