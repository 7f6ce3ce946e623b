-- ===== src/Session/Integrity/Chain.antt =====
-- What the verification of a session's hash chain accepts: exactly the logs in which every event
-- carries its own hash and the hash of the event before it.
use ussd_polyglot.Prelude.{
  some, ◌<>◌, ℕ, ◌+◌, ◌<◌, ◌≡◌, refl, sym, ◌∙◌, ◌⊎◌, inl, inr, true, none, List, [], ◌∷◌, String,
  ◌==◌, if◌then◌else◌, arith, length,
}
use ussd_polyglot.Prelude.Dict.{str_eq_sound, str_eq_refl}
use ussd_polyglot.Prelude.Int.{pos, eq_ℤ_sound, eq_ℤ_refl}
use ussd_polyglot.Prelude.Result.{ok, err}
use ussd_polyglot.Session.State.{Json, session_not_found, EventEnvelope}
use ussd_polyglot.Session.Integrity.{
  IntegrityResult, compute_event_hash, prev_of, verify_from, verify_integrity,
}

module _ (json : Json) (digest : String → String) (rfc3339 : ℕ → String) where
  open json use {Value}

  -- the hash of an event: the digest of the hash that it names, its type, the text of its payload
  -- and its instant, joined in this order
  unfoldable pub hash_of : EventEnvelope Value → String
  hash_of event =
      let named : String = elim event.previous_hash [ some s ↦ s | none ↦ "" ] in
      digest (named <> event.event_type <> json.to_text event.payload <> rfc3339 event.occurred_at)

  -- an event at its place, with its own hash
  abbrev pub IsSealed : ℕ → EventEnvelope Value → Type 0
  IsSealed n event = (event.version ≡ pos n) × (event.record_hash ≡ hash_of event)

  -- the rest of a chain after an event with hash `last`
  abbrev pub IsLinked : ℕ → String → List (EventEnvelope Value) → Type 0
  IsLinked n last [] = Unit
  IsLinked n last (event ∷ events) =
      IsSealed n event
      × (prev_of json digest rfc3339 event ≡ last)
      × IsLinked (n + 1) event.record_hash events

  abbrev pub IsChain : List (EventEnvelope Value) → Type 0
  IsChain [] = ⊥
  IsChain (event ∷ events) = IsSealed 1 event × IsLinked 2 event.record_hash events

  -- the hash of the last event
  abbrev pub last_hash : String → List (EventEnvelope Value) → String
  last_hash last [] = last
  last_hash last (event ∷ events) = last_hash event.record_hash events

  -- the hash that the loop computes, which is the event's own where the links hold
  computed_of : ℕ → String → EventEnvelope Value → String
  computed_of n last event =
      compute_event_hash json digest rfc3339
        (if n == 1 then prev_of json digest rfc3339 event else last) event.event_type event.payload
        event.occurred_at

  computed_of-hash_of :
      (n : ℕ) (last : String) (event : EventEnvelope Value)
      → (n ≡ 1) ⊎ (prev_of json digest rfc3339 event ≡ last)
      → computed_of n last event ≡ hash_of event
  unfolding computed_of hash_of compute_event_hash prev_of
  computed_of-hash_of n last event (inl first) = ground arith
  computed_of-hash_of n last event (inr link) = ground arith

  -- One step of the loop at an event that passes: it goes on with the event's own hash.
  verify_from_sealed :
      (count n : ℕ) (last : String) (event : EventEnvelope Value)
      (events : List (EventEnvelope Value))
      → IsSealed n event
      → (n ≡ 1) ⊎ (prev_of json digest rfc3339 event ≡ last)
      → verify_from json digest rfc3339 count n last (event ∷ events)
        ≡ verify_from json digest rfc3339 count (n + 1) event.record_hash events
  unfolding verify_from computed_of
  verify_from_sealed count n last event events (v, own) link = ground (
    arith,
    eq_ℤ_refl event.version,
    computed_of-hash_of n last event link,
    str_eq_refl event.record_hash,
    str_eq_refl last,
  )

  -- A step that ends in a valid result is one at an event that passes.
  verify_from_valid :
      (count n : ℕ) (last : String) (event : EventEnvelope Value)
      (events : List (EventEnvelope Value)) {r : IntegrityResult}
      → 0 < n
      → verify_from json digest rfc3339 count n last (event ∷ events) ≡ ok r
      → r.is_valid ≡ true
      → IsSealed n event × ((n ≡ 1) ⊎ (prev_of json digest rfc3339 event ≡ last))
  unfolding verify_from computed_of
  verify_from_valid count n last event events p h valid = ground (
    arith,
    eq_ℤ_sound event.version (pos n),
    computed_of-hash_of n last event,
    str_eq_sound (computed_of n last event) event.record_hash,
    str_eq_sound (prev_of json digest rfc3339 event) last,
  )

  -- the result of a check that found nothing wrong
  abbrev pub intact : ℕ → String → IntegrityResult
  intact count hash = record {
    is_valid = true;
    computed_hash = hash;
    event_count = count;
    broken_at_version = none;
  }

  verify_from-IsLinked :
      (count n : ℕ) (last : String) (events : List (EventEnvelope Value)) {r : IntegrityResult}
      → 1 < n
      → verify_from json digest rfc3339 count n last events ≡ ok r
      → r.is_valid ≡ true
      → IsLinked n last events
  verify_from-IsLinked count n last [] p h valid = tt
  verify_from-IsLinked count n last (event ∷ events) p h valid =
      let (good, link) = verify_from_valid count n last event events (omega arith) h valid in
      let linked : prev_of json digest rfc3339 event ≡ last = elim link [
        | inl first ↦ absurd (omega arith)
        | inr l ↦ l
      ] in
      (
        good,
        linked,
        verify_from-IsLinked count (n + 1) event.record_hash events (omega arith)
            (sym (verify_from_sealed count n last event events good link) ∙ h) valid,
      )

  verify_from-last_hash :
      (count n : ℕ) (last : String) (events : List (EventEnvelope Value))
      → IsLinked n last events
      → verify_from json digest rfc3339 count n last events
        ≡ ok (intact count (last_hash last events))
  unfolding verify_from
  verify_from-last_hash count n last [] h = refl
  verify_from-last_hash count n last (event ∷ events) (good, link, h) =
      verify_from_sealed count n last event events good (inr link)
      ∙ verify_from-last_hash count (n + 1) event.record_hash events h

  verify_integrity_lem :
      (event : EventEnvelope Value) (events : List (EventEnvelope Value))
      → verify_integrity json digest rfc3339 (ok (event ∷ events))
        ≡ verify_from json digest rfc3339 (length (event ∷ events)) 1 "" (event ∷ events)
  unfolding verify_integrity
  verify_integrity_lem event events = refl

  verify_integrity-nil : verify_integrity json digest rfc3339 (ok []) ≡ err session_not_found
  unfolding verify_integrity
  verify_integrity-nil = refl

  -- On a log that the store returned, the check answers that the chain is valid only if the log is
  -- not empty, the versions are 1, 2, 3, …, each record hash is the digest of the hash that its
  -- event names, the event's type, the text of its payload and its instant, and each event after the
  -- first names the record hash of the event before it.
  pub verify_integrity-IsChain :
      (events : List (EventEnvelope Value)) {r : IntegrityResult}
      → verify_integrity json digest rfc3339 (ok events) ≡ ok r
      → r.is_valid ≡ true
      → IsChain events
  verify_integrity-IsChain [] h valid = cc verify_integrity-nil
  verify_integrity-IsChain (event ∷ events) h valid =
      let h' = sym (verify_integrity_lem event events) ∙ h in
      let count = length (event ∷ events) in
      let (good, link) = verify_from_valid count 1 "" event events (omega arith) h' valid in
      (
        good,
        verify_from-IsLinked count 2 event.record_hash events (omega arith)
            (sym (verify_from_sealed count 1 "" event events good (inl refl)) ∙ h') valid,
      )

  -- A log that the store returned that is not empty, whose versions are 1, 2, 3, …, whose record
  -- hashes are the digests of the named hash, the type, the text of the payload and the instant of
  -- their own events, and where each event after the first names the
  -- record hash of the event before it is found valid, with the record hash of its last event as
  -- the computed hash, the number of its events, and no broken version.
  pub verify_integrity-last_hash :
      (events : List (EventEnvelope Value))
      → IsChain events
      → verify_integrity json digest rfc3339 (ok events)
        ≡ ok (intact (length events) (last_hash "" events))
  verify_integrity-last_hash [] h = absurd h
  verify_integrity-last_hash (event ∷ events) (good, h) =
      verify_integrity_lem event events
      ∙ (verify_from_sealed (length (event ∷ events)) 1 "" event events good (inl refl)
          ∙ verify_from-last_hash (length (event ∷ events)) 2 event.record_hash events h)
