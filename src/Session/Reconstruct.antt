-- ===== src/Session/Reconstruct.antt =====
-- rust-engine/session-reconstructor/src/application/reconstruct.rs (reconstruct_session and
-- fetch_event_hashes), infrastructure/cache.rs and the row type of infrastructure/postgres.rs: the
-- reconstruction of a session through the cache.
--
-- The cache is a map keyed by session and tenant, threaded through the calls; the `moka` crate may
-- drop entries between calls (they live 180 seconds), so each call takes the cache that it finds.
-- The store's query is Postgres's, so its answer as a function of the limit is an argument.
pub mod Caching
use ussd_polyglot.Prelude.{ℕ, Option, none, some, List, [], ◌∷◌, map, String, length, get_last?}
use ussd_polyglot.Prelude.Int.{ℤ, pos}
use ussd_polyglot.Prelude.Dict.{Dict, pair_key, lookup, insert}
use ussd_polyglot.Prelude.Result.{Result, ok, err, map_err, ◌>>=◌}
use ussd_polyglot.Session.State.{
  Json, SessionState, DomainError, session_not_found, internal, EventEnvelope, fold_session_state,
}

-- a row of `events.event_store`
pub record DbEvent (V : Type 0) : Type 0 where
  pub event_id : ℕ
  pub event_type : String
  pub aggregate_type : String
  pub aggregate_id : ℕ
  pub version : ℤ
  pub payload : V
  pub tenant_id : ℕ
  pub session_id : ℕ
  pub correlation_id : Option String
  pub causation_id : Option String
  pub idempotency_key : Option String
  pub record_hash : String
  pub previous_hash : Option String
  pub occurred_at : ℕ
  pub tracing : Option V

pub record CachedSession : Type 0 where
  pub state : SessionState
  pub event_count : ℕ
  pub integrity_hash : String
  pub last_activity : Option ℕ

abbrev pub SessionCache : Type 0
SessionCache = Dict (ℕ × ℕ) CachedSession

pub record ReconstructSessionResult : Type 0 where
  pub session_id : ℕ
  pub state : SessionState
  pub event_count : ℕ
  pub integrity_hash : String
  pub last_activity : Option ℕ
  pub current_version : ℤ

-- the closure of the `map` over the rows
unfoldable pub envelope_of : {V : Type 0} → DbEvent V → EventEnvelope V
envelope_of e = record {
  event_id = e.event_id;
  event_type = e.event_type;
  version = e.version;
  payload = e.payload;
  occurred_at = e.occurred_at;
  record_hash = e.record_hash;
  previous_hash = e.previous_hash;
}

-- `envelopes.last().map(f).unwrap_or(default)`
unfoldable pub last_or : {V A : Type 0} → A → (EventEnvelope V → A) → List (EventEnvelope V) → A
last_or default f envelopes = elim (get_last? envelopes) [ none ↦ default | some e ↦ f e ]

module _ (json : Json) where
  open json use {Value}

  -- what a hit answers: the count of events stands for the version
  unfoldable pub from_cache : ℕ → CachedSession → ReconstructSessionResult
  from_cache session_id cached = record {
    session_id = session_id;
    state = cached.state;
    event_count = cached.event_count;
    integrity_hash = cached.integrity_hash;
    last_activity = cached.last_activity;
    current_version = pos cached.event_count;
  }

  -- what a miss answers and puts into the cache, from the rows
  unfoldable pub rebuild :
      ℕ → List (DbEvent Value) → Result DomainError (ReconstructSessionResult × CachedSession)
  rebuild session_id [] = err session_not_found
  rebuild session_id (row ∷ rows) =
      let envelopes = map envelope_of (row ∷ rows) in
      let last_activity : Option ℕ = last_or none (λ e. some e.occurred_at) envelopes in
      let current_version = last_or (pos 0) (λ e. e.version) envelopes in
      let integrity_hash = last_or "" (λ e. e.record_hash) envelopes in
      let event_count = length (row ∷ rows) in
      fold_session_state json envelopes >>= λ state. ok (
        record {
          session_id = session_id;
          state = state;
          event_count = event_count;
          integrity_hash = integrity_hash;
          last_activity = last_activity;
          current_version = current_version;
        },
        record {
          state = state;
          event_count = event_count;
          integrity_hash = integrity_hash;
          last_activity = last_activity;
        },
      )

  -- the answer and the cache after a miss
  unfoldable pub store_rebuilt :
      SessionCache
      → ℕ
      → ℕ
      → Result DomainError (ReconstructSessionResult × CachedSession)
      → Result DomainError ReconstructSessionResult × SessionCache
  store_rebuilt cache session_id tenant_id (ok (result, cached)) =
      (ok result, insert (session_id, tenant_id) cached cache)
  store_rebuilt cache session_id tenant_id (err e) = (err e, cache)

  unfoldable pub reconstruct_session :
      SessionCache
      → ℕ
      → ℕ
      → ℤ
      → (ℤ → Result String (List (DbEvent Value)))
      → Result DomainError ReconstructSessionResult × SessionCache
  reconstruct_session cache session_id tenant_id max_events fetch_events =
      elim (lookup (session_id, tenant_id) cache) [
        | some cached ↦ (ok (from_cache session_id cached), cache)
        | none ↦
            store_rebuilt cache session_id tenant_id
              (map_err internal (fetch_events max_events) >>= rebuild session_id)
      ]

  unfoldable pub fetch_event_hashes :
      Result String (List (DbEvent Value)) → Result DomainError (List String)
  fetch_event_hashes fetched = do
    db_events ← map_err internal fetched
    elim db_events [
      | [] ↦ err session_not_found
      | row ∷ rows ↦ ok (map (λ e. e.record_hash) (row ∷ rows))
    ]
