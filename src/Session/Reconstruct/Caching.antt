-- ===== src/Session/Reconstruct/Caching.antt =====
-- The cache of the session reconstructor is transparent to a repeated question, and stale to a
-- changed one.
use ussd_polyglot.Prelude.{
  ℕ, ◌+◌, ◌≡◌, refl, ap, ◌∙◌, inl, inr, Option-cases, none, some, List, [], ◌∷◌, map, String, arith,
  length, length-map,
}
use ussd_polyglot.Prelude.Int.{ℤ, pos}
use ussd_polyglot.Prelude.Dict.{pair_key, pair_refl, lookup, insert, lookup-insert}
use ussd_polyglot.Prelude.Result.{Result, ok, err, ◌>>=◌, map_err, Result-cases}
use ussd_polyglot.Session.State.{Json, DomainError, internal, EventEnvelope, fold_session_state}
use ussd_polyglot.Session.State.Replay.{IsReplayable, fold_session_state-IsReplayable}
use ussd_polyglot.Session.Reconstruct.{
  DbEvent, CachedSession, SessionCache, ReconstructSessionResult, envelope_of, last_or, from_cache,
  rebuild, store_rebuilt, reconstruct_session,
}

module _ (json : Json) where
  open json use {Value}

  -- the last version of a gap-free log is the number of the versions before it and its own length
  last_version :
      (n : ℕ) (event : EventEnvelope Value) (events : List (EventEnvelope Value))
      → IsReplayable json n (event ∷ events)
      → last_or (pos 0) (λ e. e.version) (event ∷ events) ≡ pos (n + length events)
  unfolding last_or
  last_version n event [] (next, h) = rw next.0 (ap pos (omega arith))
  last_version n event (following ∷ events) (next, h) =
      last_version (n + 1) following events h ∙ ap pos (omega arith)

  -- A rebuilt session that goes into the cache reads back as the answer that was given: the count of
  -- events is the version of the last one.
  rebuild-cached :
      (session_id : ℕ) (rows : List (DbEvent Value)) {result : ReconstructSessionResult}
      {cached : CachedSession}
      → rebuild json session_id rows ≡ ok (result, cached)
      → from_cache json session_id cached ≡ result
  unfolding rebuild from_cache
  rebuild-cached session_id [] h = cc
  rebuild-cached session_id (row ∷ rows) {result} {cached} h =
      let envelopes = map envelope_of (row ∷ rows) in
      elim (Result-cases (fold_session_state json envelopes)) [
        | inr (e, failed) ↦ ground arith
        | inl (state, folded) ↦
            let (some_event, good) =
              (fold_session_state-IsReplayable json envelopes).0 (state, folded) in
            let version = last_version 1 (envelope_of row) (map envelope_of rows) good in
            let count : pos (1 + length (map envelope_of rows)) ≡ pos (length (row ∷ rows)) =
              ap pos (omega (arith, length-map envelope_of rows)) in
            ground (arith, version, count)
      ]

  -- what a miss computes from the store's answer
  abbrev rebuilt :
      ℕ
      → Result String (List (DbEvent Value))
      → Result DomainError (ReconstructSessionResult × CachedSession)
  rebuilt session_id fetched = map_err internal fetched >>= rebuild json session_id

  rebuilt-cached :
      (session_id : ℕ) (fetched : Result String (List (DbEvent Value)))
      (result : ReconstructSessionResult) (cached : CachedSession)
      → rebuilt session_id fetched ≡ ok (result, cached)
      → from_cache json session_id cached ≡ result
  rebuilt-cached session_id (ok rows) result cached h = rebuild-cached session_id rows h
  rebuilt-cached session_id (err e) result cached h = cc

  module _ (cache : SessionCache) (session_id tenant_id : ℕ) (max_events : ℤ)
      (fetch : ℤ → Result String (List (DbEvent Value))) where
    reconstruct_hit :
        {cached : CachedSession}
        → lookup (session_id, tenant_id) cache ≡ some cached
        → reconstruct_session json cache session_id tenant_id max_events fetch
          ≡ (ok (from_cache json session_id cached), cache)
    unfolding reconstruct_session
    reconstruct_hit hit = rw (hit, reconstruct_session)

    reconstruct_miss :
        lookup (session_id, tenant_id) cache ≡ none
        → reconstruct_session json cache session_id tenant_id max_events fetch
          ≡ store_rebuilt json cache session_id tenant_id (rebuilt session_id (fetch max_events))
    unfolding reconstruct_session
    reconstruct_miss missing = rw (missing, reconstruct_session)

  after_miss :
      (cache : SessionCache) (session_id tenant_id : ℕ) (max_events : ℤ)
      (fetch : ℤ → Result String (List (DbEvent Value)))
      (r : Result DomainError (ReconstructSessionResult × CachedSession))
      {result : ReconstructSessionResult}
      → ((result : ReconstructSessionResult) (cached : CachedSession)
          → r ≡ ok (result, cached)
          → from_cache json session_id cached ≡ result)
      → (store_rebuilt json cache session_id tenant_id r).0 ≡ ok result
      → let cache' = (store_rebuilt json cache session_id tenant_id r).1 in
        reconstruct_session json cache' session_id tenant_id max_events fetch ≡ (ok result, cache')
  unfolding store_rebuilt
  after_miss cache session_id tenant_id max_events fetch (err e) remember h = cc
  after_miss cache session_id tenant_id max_events fetch (ok (rebuilt_result, cached)) {result}
        remember h =
      let stored : lookup (session_id, tenant_id) (insert (session_id, tenant_id) cached cache)
          ≡ some cached =
        rw (
          lookup-insert (session_id, tenant_id) (session_id, tenant_id) cached cache,
          pair_refl (session_id, tenant_id),
        ) in
      reconstruct_hit (insert (session_id, tenant_id) cached cache) session_id tenant_id max_events
        fetch stored
      ∙ ap (λ r. (r, insert (session_id, tenant_id) cached cache))
          (ap ok (remember rebuilt_result cached refl) ∙ h)

  -- The answer to a question that was answered before is the same, while the entry is in the cache:
  -- after a success, asking again for that session and tenant gives the same result, and leaves the
  -- cache as it is, whatever limit is asked for and whatever the store would answer now.
  pub reconstruct_session_again :
      (cache : SessionCache) (session_id tenant_id : ℕ) (max_events max_events' : ℤ)
      (fetch fetch' : ℤ → Result String (List (DbEvent Value))) {result : ReconstructSessionResult}
      → (reconstruct_session json cache session_id tenant_id max_events fetch).0 ≡ ok result
      → let cache' = (reconstruct_session json cache session_id tenant_id max_events fetch).1 in
        reconstruct_session json cache' session_id tenant_id max_events' fetch'
        ≡ (ok result, cache')
  reconstruct_session_again cache session_id tenant_id max_events max_events' fetch fetch' {result}
        h =
      elim (Option-cases (lookup (session_id, tenant_id) cache)) [
        | inl missing ↦
            let found = reconstruct_miss cache session_id tenant_id max_events fetch missing in
            rw found (
              after_miss cache session_id tenant_id max_events' fetch'
                (rebuilt session_id (fetch max_events))
                (rebuilt-cached session_id (fetch max_events)) (rw found at h))
        | inr (cached, hit) ↦
            let found = reconstruct_hit cache session_id tenant_id max_events fetch hit in
            let found' = reconstruct_hit cache session_id tenant_id max_events' fetch' hit in
            let same : ok (from_cache json session_id cached) ≡ ok result = rw found at h in
            rw found (found' ∙ ap (λ r. (r, cache)) same)
      ]
