-- ===== src/Session/State/Replay.antt =====
-- What the fold of session.rs means: it succeeds exactly on gap-free logs of known events, and each
-- key of the state holds what the last event that writes the key wrote.
use ussd_polyglot.Prelude.{
  ℕ, suc, ◌+◌, ◌≡◌, refl, sym, ap, ◌≢◌, ◌∙◌, ◌⊎◌, inl, inr, ◌↔◌, Option, none, some, List, [], ◌∷◌,
  ◌++◌, String, arith, if◌then◌else◌, Bool-cases, Option-cases, str_eq, length,
}
use ussd_polyglot.Prelude.Int.{pos, eq_ℤ, eq_ℤ_sound, eq_ℤ_refl}
use ussd_polyglot.Prelude.Dict.{string_key, lookup, lookup-insert}
use ussd_polyglot.Prelude.Result.{ok, err}
use ussd_polyglot.Session.State.{
  Json, SessionState, DomainError, session_not_found, event_sequence_gap, invalid_event_type,
  EventEnvelope, insert_some, kind_of, EventKind, session_created, menu_navigated, input_received,
  payment_initiated, payment_confirmed, session_ended, apply_kind, fold_from, fold_session_state,
}

-- where a write takes its text from: a literal or a field of the payload
pub data Source : Type 0 where
  literal : String → Source
  field : String → Source

-- the keys that an event of each kind writes
abbrev pub writes : EventKind → List (String × Source)
writes session_created =
    ("status", literal "active")
    ∷ ("phone_number", field "phone_number")
    ∷ ("tenant_id", field "tenant_id")
    ∷ []
writes menu_navigated = ("current_menu", field "menu_id") ∷ []
writes input_received = ("last_input", field "input") ∷ []
writes payment_initiated =
    ("payment_status", literal "initiated")
    ∷ ("amount", field "amount")
    ∷ ("currency", field "currency")
    ∷ []
writes payment_confirmed =
    ("payment_status", literal "confirmed") ∷ ("payment_reference", field "reference_id") ∷ []
writes session_ended = ("status", literal "ended") ∷ ("end_reason", field "reason") ∷ []

-- the second text, unless the first is there
pub overlay : Option String → Option String → Option String
overlay none before = before
overlay (some text) before = some text

module _ (json : Json) where
  open json use {Value, get_str}

  abbrev pub text_of : Value → Source → Option String
  text_of payload (literal text) = some text
  text_of payload (field name) = get_str payload name

  -- the text that a list of writes gives a key, or what stood there before
  abbrev pub after : List (String × Source) → Value → String → Option String → Option String
  after [] payload key before = before
  after ((k, source) ∷ rows) payload key before =
      after rows payload key
        (if str_eq k key then overlay (text_of payload source) before else before)

  abbrev pub written : EventEnvelope Value → String → Option String → Option String
  written event key before = elim (kind_of event.event_type) [
    | none ↦ before
    | some kind ↦ after (writes kind) event.payload key before
  ]

  -- what the events write to a key, in their order
  abbrev pub replay : List (EventEnvelope Value) → String → Option String → Option String
  replay [] key before = before
  replay (event ∷ events) key before = replay events key (written event key before)

  lookup-insert_some :
      (k j : String) (x : Option String) (state : SessionState)
      → lookup j (insert_some k x state)
        ≡ (if str_eq k j then overlay x (lookup j state) else lookup j state)
  unfolding overlay
  lookup-insert_some k j none state = ground arith
  lookup-insert_some k j (some t) state = lookup-insert k j t state

  -- one arm of the match changes the state as the table says
  lookup-apply_kind :
      (kind : EventKind) (payload : Value) (state : SessionState) (key : String)
      → lookup key (apply_kind json kind payload state)
        ≡ after (writes kind) payload key (lookup key state)
  unfolding apply_kind overlay
  lookup-apply_kind session_created payload state key = simp (lookup-insert_some, lookup-insert)
  lookup-apply_kind menu_navigated payload state key = simp lookup-insert_some
  lookup-apply_kind input_received payload state key = simp lookup-insert_some
  lookup-apply_kind payment_initiated payload state key = simp (lookup-insert_some, lookup-insert)
  lookup-apply_kind payment_confirmed payload state key = simp (lookup-insert_some, lookup-insert)
  lookup-apply_kind session_ended payload state key = simp (lookup-insert_some, lookup-insert)

  -- one event is accepted if it has the expected version and a known type
  abbrev pub IsNext : ℕ → EventEnvelope Value → Type 0
  IsNext n event =
      (event.version ≡ pos n) × (kind : EventKind) × (kind_of event.event_type ≡ some kind)

  -- a log without a gap from version `n` on, of known event types
  abbrev pub IsReplayable : ℕ → List (EventEnvelope Value) → Type 0
  IsReplayable n [] = Unit
  IsReplayable n (event ∷ events) = IsNext n event × IsReplayable (n + 1) events

  fold_from_next :
      (n : ℕ) (state : SessionState) (event : EventEnvelope Value)
      (events : List (EventEnvelope Value)) {kind : EventKind}
      → event.version ≡ pos n
      → kind_of event.event_type ≡ some kind
      → fold_from json n state (event ∷ events)
        ≡ fold_from json (n + 1) (apply_kind json kind event.payload state) events
  unfolding fold_from
  fold_from_next n state event events v k = ground (arith, eq_ℤ_refl event.version)

  fold_from_gap :
      (n : ℕ) (state : SessionState) (event : EventEnvelope Value)
      (events : List (EventEnvelope Value))
      → event.version ≢ pos n
      → fold_from json n state (event ∷ events) ≡ err (event_sequence_gap n event.version)
  unfolding fold_from
  fold_from_gap n state event events v = ground (arith, eq_ℤ_sound event.version (pos n))

  fold_from_unknown :
      (n : ℕ) (state : SessionState) (event : EventEnvelope Value)
      (events : List (EventEnvelope Value))
      → event.version ≡ pos n
      → kind_of event.event_type ≡ none
      → fold_from json n state (event ∷ events) ≡ err (invalid_event_type event.event_type)
  unfolding fold_from
  fold_from_unknown n state event events v k = ground (arith, eq_ℤ_refl event.version)

  fold_from-cons :
      (n : ℕ) (state : SessionState) (event : EventEnvelope Value)
      (events : List (EventEnvelope Value)) {result : SessionState}
      → fold_from json n state (event ∷ events) ≡ ok result
      → (event.version ≡ pos n)
        × (kind : EventKind) × (kind_of event.event_type ≡ some kind)
        × (fold_from json (n + 1) (apply_kind json kind event.payload state) events ≡ ok result)
  fold_from-cons n state event events h = elim (Bool-cases (eq_ℤ event.version (pos n))) [
    | inr gap ↦ cc (
        fold_from_gap n state event events
          (λ p. cc (eq_ℤ_refl event.version, ap (λ v. eq_ℤ event.version v) p)))
    | inl next ↦
        let v = eq_ℤ_sound event.version (pos n) next in
        elim (Option-cases (kind_of event.event_type)) [
          | inl unknown ↦ cc (fold_from_unknown n state event events v unknown)
          | inr (kind, known) ↦ (v, kind, known, cc (fold_from_next n state event events v known))
        ]
  ]

  fold_from-nil : (n : ℕ) (state : SessionState) → fold_from json n state [] ≡ ok state
  unfolding fold_from
  fold_from-nil n state = refl

  fold_from-IsReplayable :
      (n : ℕ) (state : SessionState) (events : List (EventEnvelope Value)) {result : SessionState}
      → fold_from json n state events ≡ ok result
      → IsReplayable n events
  fold_from-IsReplayable n state [] h = tt
  fold_from-IsReplayable n state (event ∷ events) h =
      let (v, kind, known, rest) = fold_from-cons n state event events h in
      ((v, kind, known), fold_from-IsReplayable (n + 1) _ events rest)

  fold_from_total :
      (n : ℕ) (state : SessionState) (events : List (EventEnvelope Value))
      → IsReplayable n events
      → (result : SessionState) × (fold_from json n state events ≡ ok result)
  fold_from_total n state [] h = (state, fold_from-nil n state)
  fold_from_total n state (event ∷ events) ((v, kind, known), h) =
      let (result, e) =
        fold_from_total (n + 1) (apply_kind json kind event.payload state) events h in
      (result, fold_from_next n state event events v known ∙ e)

  written_known :
      (event : EventEnvelope Value) (kind : EventKind) (key : String) (before : Option String)
      → kind_of event.event_type ≡ some kind
      → written event key before ≡ after (writes kind) event.payload key before
  written_known event kind key before known = ground arith

  lookup-fold_from :
      (n : ℕ) (state : SessionState) (events : List (EventEnvelope Value)) {result : SessionState}
      (key : String)
      → fold_from json n state events ≡ ok result
      → lookup key result ≡ replay events key (lookup key state)
  lookup-fold_from n state [] key h = cc (fold_from-nil n state)
  lookup-fold_from n state (event ∷ events) key h =
      let (v, kind, known, rest) = fold_from-cons n state event events h in
      lookup-fold_from (n + 1) (apply_kind json kind event.payload state) events key rest
      ∙ ap (replay events key) (
          lookup-apply_kind kind event.payload state key
          ∙ sym (written_known event kind key (lookup key state) known))

  fold_session_state_lem :
      (event : EventEnvelope Value) (events : List (EventEnvelope Value))
      → fold_session_state json (event ∷ events) ≡ fold_from json 1 [] (event ∷ events)
  unfolding fold_session_state
  fold_session_state_lem event events = refl

  fold_session_state-nil : fold_session_state json [] ≡ err session_not_found
  unfolding fold_session_state
  fold_session_state-nil = refl

  -- The fold succeeds exactly on the logs that have an event, whose versions are 1, 2, 3, … in
  -- their order, and whose event types are all known.
  pub fold_session_state-IsReplayable :
      (events : List (EventEnvelope Value))
      → ((result : SessionState) × (fold_session_state json events ≡ ok result))
        ↔ ((events ≢ []) × IsReplayable 1 events)
  fold_session_state-IsReplayable [] =
      ((λ (result, e). cc fold_session_state-nil), (λ (some_event, h). absurd (some_event refl)))
  fold_session_state-IsReplayable (event ∷ events) = (
    (λ (result, e). (
      (λ p. cc),
      fold_from-IsReplayable 1 [] (event ∷ events) (sym (fold_session_state_lem event events) ∙ e),
    )),
    (λ (some_event, h).
        let (result, e) = fold_from_total 1 [] (event ∷ events) h in
        (result, fold_session_state_lem event events ∙ e)),
  )

  -- When the fold succeeds, every key of the state holds what the last event that writes the key
  -- wrote to it, and is absent if no event does.
  pub lookup-fold_session_state :
      (events : List (EventEnvelope Value)) {result : SessionState} (key : String)
      → fold_session_state json events ≡ ok result
      → lookup key result ≡ replay events key none
  unfolding lookup
  lookup-fold_session_state [] key h = cc fold_session_state-nil
  lookup-fold_session_state (event ∷ events) key h =
      lookup-fold_from 1 [] (event ∷ events) key (sym (fold_session_state_lem event events) ∙ h)

  -- how the event after `n - 1` good ones is refused
  abbrev pub IsRefused : ℕ → EventEnvelope Value → DomainError → Type 0
  IsRefused n event e =
      ((event.version ≢ pos n) × (e ≡ event_sequence_gap n event.version))
      ⊎ ((event.version ≡ pos n)
          × (kind_of event.event_type ≡ none)
          × (e ≡ invalid_event_type event.event_type))

  fold_from_refused :
      (n : ℕ) (state : SessionState) (pre : List (EventEnvelope Value))
      (event : EventEnvelope Value) (rest : List (EventEnvelope Value)) {e : DomainError}
      → IsReplayable n pre
      → IsRefused (n + length pre) event e
      → fold_from json n state (pre ++ event ∷ rest) ≡ err e
  fold_from_refused n state [] event rest {e} h (inl (gap, is_gap)) =
      let same : n + 0 ≡ n = omega arith in
      rw (fold_from_gap n state event rest (rw same at gap), is_gap, same)
  fold_from_refused n state [] event rest {e} h (inr (v, unknown, is_unknown)) =
      let same : n + 0 ≡ n = omega arith in
      rw (fold_from_unknown n state event rest (rw same at v) unknown, is_unknown)
  fold_from_refused n state (first ∷ pre) event rest {e} ((v, kind, known), h) refused =
      let same : n + suc (length pre) ≡ n + 1 + length pre = omega arith in
      fold_from_next n state first (pre ++ event ∷ rest) v known
      ∙ fold_from_refused (n + 1) (apply_kind json kind first.payload state) pre event rest h
          (rw same at refused)

  -- After a good beginning of a log, the first event whose version is not the next one, or whose
  -- type is not known, decides the error, whatever follows it: a sequence gap with the two
  -- versions, or the invalid type.
  pub fold_session_state_refused :
      (pre : List (EventEnvelope Value)) (event : EventEnvelope Value)
      (rest : List (EventEnvelope Value)) {e : DomainError}
      → IsReplayable 1 pre
      → IsRefused (1 + length pre) event e
      → fold_session_state json (pre ++ event ∷ rest) ≡ err e
  fold_session_state_refused [] event rest h refused =
      fold_session_state_lem event rest ∙ fold_from_refused 1 [] [] event rest h refused
  fold_session_state_refused (first ∷ pre) event rest h refused =
      fold_session_state_lem first (pre ++ event ∷ rest)
      ∙ fold_from_refused 1 [] (first ∷ pre) event rest h refused
