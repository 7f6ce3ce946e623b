-- ===== src/Session/State.antt =====
-- rust-engine/session-reconstructor/src/domain/session.rs and error.rs: the deterministic fold of a
-- session's events into a map of texts.
--
-- The payload is a `serde_json::Value`, so its type and its accessors are parameters. Identifiers
-- are compared only and are numbers; instants are numbers. The expected version starts at 1 and
-- grows by 1 for each event of a vector, so it stays below 2 ^ 63 and is a natural number here.
pub mod Replay
use ussd_polyglot.Prelude.{
  ℕ, zero, suc, ◌+◌, Bool, true, false, Option, none, some, List, [], ◌∷◌, String, if◌then◌else◌,
  str_eq,
}
use ussd_polyglot.Prelude.Int.{ℤ, pos, eq_ℤ}
use ussd_polyglot.Prelude.Dict.{Dict, string_key, insert}
use ussd_polyglot.Prelude.Result.{Result, ok, err, ◌>>=◌}

-- what the crate `serde_json` gives: a value, `v.get(key).and_then(as_str)`, and `to_string`
pub record Json : Type 1 where
  pub Value : Type 0
  pub get_str : Value → String → Option String
  pub to_text : Value → String

abbrev pub SessionState : Type 0
SessionState = Dict String String

pub data DomainError : Type 0 where
  session_not_found : DomainError
  event_sequence_gap : ℕ → ℤ → DomainError
  hash_mismatch : ℤ → DomainError
  invalid_event_type : String → DomainError
  internal : String → DomainError

pub record EventEnvelope (V : Type 0) : Type 0 where
  pub event_id : ℕ
  pub event_type : String
  pub version : ℤ
  pub payload : V
  pub occurred_at : ℕ
  pub record_hash : String
  pub previous_hash : Option String

-- `if let Some(x) = found { state.insert(key, x) }`
abbrev pub insert_some : String → Option String → SessionState → SessionState
insert_some key none state = state
insert_some key (some x) state = insert key x state

-- the arms of `match event.event_type.as_str()`
pub data EventKind : Type 0 where
  session_created menu_navigated input_received payment_initiated payment_confirmed : EventKind
  session_ended : EventKind

unfoldable pub kind_of : String → Option EventKind
kind_of event_type =
    if str_eq event_type "SessionCreated"
    then some session_created
    else if str_eq event_type "MenuNavigated"
    then some menu_navigated
    else if str_eq event_type "InputReceived"
    then some input_received
    else if str_eq event_type "PaymentInitiated"
    then some payment_initiated
    else if str_eq event_type "PaymentConfirmed"
    then some payment_confirmed
    else if str_eq event_type "SessionEnded"
    then some session_ended
    else none

module _ (json : Json) where
  open json use {Value, get_str}

  -- the body of each arm
  unfoldable pub apply_kind : EventKind → Value → SessionState → SessionState
  apply_kind session_created payload state =
      insert_some "tenant_id" (get_str payload "tenant_id") (
        insert_some "phone_number" (get_str payload "phone_number")
          (insert "status" "active" state))
  apply_kind menu_navigated payload state =
      insert_some "current_menu" (get_str payload "menu_id") state
  apply_kind input_received payload state = insert_some "last_input" (get_str payload "input") state
  apply_kind payment_initiated payload state =
      insert_some "currency" (get_str payload "currency") (
        insert_some "amount" (get_str payload "amount") (insert "payment_status" "initiated" state))
  apply_kind payment_confirmed payload state =
      insert_some "payment_reference" (get_str payload "reference_id")
        (insert "payment_status" "confirmed" state)
  apply_kind session_ended payload state =
      insert_some "end_reason" (get_str payload "reason") (insert "status" "ended" state)

  unfoldable pub apply_event : EventEnvelope Value → SessionState → Result DomainError SessionState
  apply_event event state = elim (kind_of event.event_type) [
    | some kind ↦ ok (apply_kind kind event.payload state)
    | none ↦ err (invalid_event_type event.event_type)
  ]

  -- the loop over the events
  unfoldable pub fold_from :
      ℕ → SessionState → List (EventEnvelope Value) → Result DomainError SessionState
  unfolding apply_event
  fold_from expected_version state [] = ok state
  fold_from expected_version state (event ∷ events) =
      if eq_ℤ event.version (pos expected_version)
      then (do state' ← apply_event event state; fold_from (expected_version + 1) state' events)
      else err (event_sequence_gap expected_version event.version)

  unfoldable pub fold_session_state : List (EventEnvelope Value) → Result DomainError SessionState
  unfolding fold_from
  fold_session_state [] = err session_not_found
  fold_session_state (event ∷ events) = fold_from 1 [] (event ∷ events)
