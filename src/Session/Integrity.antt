-- ===== src/Session/Integrity.antt =====
-- verify_integrity and compute_event_hash of
-- rust-engine/session-reconstructor/src/application/reconstruct.rs: the check of a session's hash
-- chain over the events that the store returned.
--
-- The store's query is Postgres's, so its result is an argument; SHA-256, the hexadecimal encoding,
-- the JSON text of a payload and the RFC 3339 text of an instant are the crates', so they enter
-- through `digest`, the hash of the joined text, and `rfc3339`.
pub mod Chain
use ussd_polyglot.Prelude.{
  ℕ, ◌+◌, Bool, true, false, ◌&&◌, not, Option, none, some, List, [], ◌∷◌, String, ltb, ◌==◌,
  if◌then◌else◌, str_eq, ◌<>◌, length,
}
use ussd_polyglot.Prelude.Int.{ℤ, pos, eq_ℤ}
use ussd_polyglot.Prelude.Result.{Result, ok, err, map_err, ◌>>=◌}
use ussd_polyglot.Session.State.{
  Json, DomainError, session_not_found, event_sequence_gap, hash_mismatch, internal, EventEnvelope,
}

pub record IntegrityResult : Type 0 where
  pub is_valid : Bool
  pub computed_hash : String
  pub event_count : ℕ
  pub broken_at_version : Option ℤ

module _ (json : Json) (digest : String → String) (rfc3339 : ℕ → String) where
  open json use {Value, to_text}

  unfoldable pub compute_event_hash : String → String → Value → ℕ → String
  compute_event_hash previous_hash event_type payload occurred_at =
      digest (previous_hash <> event_type <> to_text payload <> rfc3339 occurred_at)

  -- `event.previous_hash.as_ref().map(|s| s.as_str()).unwrap_or("").to_string()`
  unfoldable pub prev_of : EventEnvelope Value → String
  prev_of event = elim event.previous_hash [ some s ↦ s | none ↦ "" ]

  -- the loop over the events; `count` is `db_events.len()`
  unfoldable pub verify_from :
      ℕ → ℕ → String → List (EventEnvelope Value) → Result DomainError IntegrityResult
  verify_from count expected_version last_computed_hash [] = ok (record {
    is_valid = true;
    computed_hash = last_computed_hash;
    event_count = count;
    broken_at_version = none;
  })
  verify_from count expected_version last_computed_hash (event ∷ events) =
      let prev = prev_of event in
      let previous_hash = if expected_version == 1 then prev else last_computed_hash in
      let computed =
        compute_event_hash previous_hash event.event_type event.payload event.occurred_at in
      let rest = verify_from count (expected_version + 1) computed events in
      if not (eq_ℤ event.version (pos expected_version))
      then err (event_sequence_gap expected_version event.version)
      else if ltb 1 expected_version && not (str_eq prev last_computed_hash)
      then err (hash_mismatch event.version)
      else if not (str_eq computed event.record_hash)
      then ok (record {
        is_valid = false;
        computed_hash = computed;
        event_count = count;
        broken_at_version = some event.version;
      })
      else rest

  -- the handler, given what `fetch_events` returned
  unfoldable pub verify_integrity :
      Result String (List (EventEnvelope Value)) → Result DomainError IntegrityResult
  unfolding verify_from
  verify_integrity fetched = do
    db_events ← map_err internal fetched
    elim db_events [
      | [] ↦ err session_not_found
      | event ∷ events ↦ verify_from (length (event ∷ events)) 1 "" (event ∷ events)
    ]
