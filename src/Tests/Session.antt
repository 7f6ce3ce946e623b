-- ===== src/Tests/Session.antt =====
-- A session of three events: its fold, its hash chain, its Merkle proof, and the cache.
use ussd_polyglot.Prelude.{
  ℕ, ◌+◌, ◌≡◌, refl, ◌≢◌, ◌↔◌, inl, Option, none, some, List, [], ◌∷◌, ◌++◌, map, String, arith,
  length, Bytes,
}
use ussd_polyglot.Prelude.Int.{ℤ, pos}
use ussd_polyglot.Prelude.Dict.{string_key, pair_key, lookup, insert}
use ussd_polyglot.Prelude.Result.{Result, ok, err}
use ussd_polyglot.Audit.Merkle.{build_merkle_tree, merkle_proof}
use ussd_polyglot.Session.State.{
  SessionState, event_sequence_gap, EventEnvelope, kind_of, session_created, menu_navigated,
  apply_kind, fold_session_state,
}
use ussd_polyglot.Session.State.Replay.{
  replay, IsReplayable, fold_session_state-IsReplayable, lookup-fold_session_state,
  fold_session_state_refused,
}
use ussd_polyglot.Session.Integrity.{prev_of, compute_event_hash, verify_integrity}
use ussd_polyglot.Session.Integrity.Chain.{
  IsChain, hash_of, intact, verify_integrity-IsChain, verify_integrity-last_hash,
}
use ussd_polyglot.Session.Merkle.{decode_or_default, compute_merkle_proof}
use ussd_polyglot.Session.Merkle.Agreement.{compute_merkle_proof-merkle_proof}
use ussd_polyglot.Session.Reconstruct.{
  DbEvent, envelope_of, store_rebuilt, rebuild, reconstruct_session,
}
use ussd_polyglot.Session.Reconstruct.Caching.{reconstruct_session_again}
use ussd_polyglot.Tests.Common.{toy_sha256, to_hex, from_hex, objects, seal, instant}

abbrev Event : Type 0
Event = EventEnvelope objects.Value

abbrev event : ℕ → String → objects.Value → String → Option String → Event
event version event_type payload record_hash previous_hash = record {
  event_id = 100 + version;
  event_type = event_type;
  version = pos version;
  payload = payload;
  occurred_at = version;
  record_hash = record_hash;
  previous_hash = previous_hash;
}

abbrev opened : Event
opened = event 1 "SessionCreated" (("tenant_id", "t1") ∷ []) "#SessionCreatedtenant_id:t1,1" none

abbrev menu : Event
menu =
    event 2 "MenuNavigated" (("menu_id", "main") ∷ [])
      "##SessionCreatedtenant_id:t1,1MenuNavigatedmenu_id:main,2"
      (some "#SessionCreatedtenant_id:t1,1")

abbrev closed : Event
closed = event 3 "SessionEnded" [] "h3" (some "h2")

abbrev stray : Event
stray = event 7 "MenuNavigated" [] "h7" none

abbrev log : List Event
log = opened ∷ menu ∷ []

abbrev result : SessionState
result = ("status", "active") ∷ ("tenant_id", "t1") ∷ ("current_menu", "main") ∷ []

log-IsReplayable : IsReplayable objects 1 log
unfolding kind_of
log-IsReplayable = ((refl, session_created, refl), ((refl, menu_navigated, refl), tt))

fold-log : fold_session_state objects log ≡ ok result
unfolding fold_session_state kind_of insert apply_kind lookup
fold-log = refl

fold_session_state-IsReplayable_example :
    ((s : SessionState) × (fold_session_state objects log ≡ ok s))
    ↔ ((log ≢ []) × IsReplayable objects 1 log)
fold_session_state-IsReplayable_example = fold_session_state-IsReplayable objects log

lookup-fold_session_state_example :
    lookup "current_menu" result ≡ replay objects log "current_menu" none
lookup-fold_session_state_example = lookup-fold_session_state objects log "current_menu" fold-log

fold_session_state_refused_example :
    fold_session_state objects (log ++ stray ∷ closed ∷ []) ≡ err (event_sequence_gap 3 (pos 7))
fold_session_state_refused_example =
    fold_session_state_refused objects log stray (closed ∷ []) log-IsReplayable
      (inl ((λ p. cc p), refl))

log-IsChain : IsChain objects seal instant log
unfolding hash_of compute_event_hash prev_of
log-IsChain = ((refl, refl), ((refl, refl), refl, tt))

verify_integrity-last_hash_example :
    verify_integrity objects seal instant (ok log)
    ≡ ok (intact objects seal instant 2 menu.record_hash)
verify_integrity-last_hash_example = verify_integrity-last_hash objects seal instant log log-IsChain

verify_integrity-IsChain_example : IsChain objects seal instant log
verify_integrity-IsChain_example =
    verify_integrity-IsChain objects seal instant log
      (verify_integrity-last_hash objects seal instant log log-IsChain) refl

abbrev hashes : List String
hashes = "01" ∷ "2a" ∷ "zz" ∷ "ff" ∷ "03" ∷ []

compute_merkle_proof-merkle_proof_example :
    let leaves = map (decode_or_default toy_sha256 to_hex from_hex) hashes in
    (root : Bytes) × (tree proof : List Bytes) × (build_merkle_tree toy_sha256 leaves
      ≡ some (root, tree))
    × (merkle_proof tree (length leaves) 4 ≡ some proof)
    × (compute_merkle_proof toy_sha256 to_hex from_hex hashes 4
        ≡ some (to_hex root, map to_hex proof))
compute_merkle_proof-merkle_proof_example =
    compute_merkle_proof-merkle_proof toy_sha256 to_hex from_hex hashes 4 (ground arith)

abbrev row : Event → DbEvent objects.Value
row e = record {
  event_id = e.event_id;
  event_type = e.event_type;
  aggregate_type = "session";
  aggregate_id = 1;
  version = e.version;
  payload = e.payload;
  tenant_id = 5;
  session_id = 1;
  correlation_id = none;
  causation_id = none;
  idempotency_key = none;
  record_hash = e.record_hash;
  previous_hash = e.previous_hash;
  occurred_at = e.occurred_at;
  tracing = none;
}

abbrev fetch : ℤ → Result String (List (DbEvent objects.Value))
fetch max_events = ok (row opened ∷ row menu ∷ [])

abbrev fetch_later : ℤ → Result String (List (DbEvent objects.Value))
fetch_later max_events = err "connection closed"

-- what a miss answers for the rows of `fetch`
reconstruct_session_again_example :
    let (r, cache) = reconstruct_session objects [] 1 5 (pos 100) fetch in
    reconstruct_session objects cache 1 5 (pos 1) fetch_later ≡ (r, cache)
unfolding reconstruct_session fold_session_state kind_of insert lookup envelope_of store_rebuilt
    rebuild
reconstruct_session_again_example =
    reconstruct_session_again objects [] 1 5 (pos 100) (pos 1) fetch fetch_later refl
