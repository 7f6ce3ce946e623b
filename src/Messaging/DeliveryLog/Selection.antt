-- ===== src/Messaging/DeliveryLog/Selection.antt =====
-- What the delivery log lists (infrastructure/postgres_delivery.rs): the attempts of the tenant that
-- every filter admits.
use ussd_polyglot.Prelude.{
  ℕ, ◌≡◌, inl, inr, refl, true, Option, none, some, List, [], ◌∷◌, String, keep_if, arith, str_eq,
  ◌==◌,
}
use ussd_polyglot.Prelude.Dict.{nat_key, str_eq_sound, str_eq_refl}
use ussd_polyglot.Messaging.Domain.{MessageChannel, DeliveryStatus, DeliveryAttempt}
use ussd_polyglot.Messaging.DeliveryLog.{
  MessageFilters, has_channel, has_status, retain_channels, retain_statuses, retain_recipient,
  sent_from, sent_to, retain_from, retain_to, in_session, retain_session, select,
}
use ussd_polyglot.Messaging.DeliveryLog.Stages.{
  Among, IsAsked, IsFrom, IsTo, IsStage, IsStage-all, keep_if-IsStage, IsStage-then,
  has_channel_sound, has_channel_complete, has_status_sound, has_status_complete,
}

abbrev pub IsSelected : ℕ → MessageFilters → DeliveryAttempt → Type 0
IsSelected tenant_id f a =
    ((((((a.tenant_id ≡ tenant_id) × Among f.channels a.channel) × Among f.statuses a.status)
          × IsAsked f.recipient (some a.recipient))
        × IsFrom f.from_date a.sent_at)
      × IsTo f.to_date a.sent_at)
    × IsAsked f.session_id a.session_id

retain_channels-IsStage :
    (cs : List MessageChannel) → IsStage (λ a. Among cs a.channel) (retain_channels cs)
unfolding retain_channels
retain_channels-IsStage [] = IsStage-all (λ a. inl refl)
retain_channels-IsStage (c ∷ cs) =
    keep_if-IsStage (λ a. has_channel (c ∷ cs) a.channel)
      (λ a h. inr (has_channel_sound (c ∷ cs) a.channel h))
      (λ a p. elim p [
        | inl none_asked ↦ cc
        | inr (i, there) ↦ has_channel_complete (c ∷ cs) a.channel i there
      ])

retain_statuses-IsStage :
    (ss : List DeliveryStatus) → IsStage (λ a. Among ss a.status) (retain_statuses ss)
unfolding retain_statuses
retain_statuses-IsStage [] = IsStage-all (λ a. inl refl)
retain_statuses-IsStage (s ∷ ss) =
    keep_if-IsStage (λ a. has_status (s ∷ ss) a.status)
      (λ a h. inr (has_status_sound (s ∷ ss) a.status h))
      (λ a p. elim p [
        | inl none_asked ↦ cc
        | inr (i, there) ↦ has_status_complete (s ∷ ss) a.status i there
      ])

retain_recipient-IsStage :
    (r : Option String) → IsStage (λ a. IsAsked r (some a.recipient)) (retain_recipient r)
unfolding retain_recipient
retain_recipient-IsStage none = IsStage-all (λ a. inl refl)
retain_recipient-IsStage (some r) =
    keep_if-IsStage (λ a. str_eq a.recipient r) (λ a h. inr (cc (str_eq_sound a.recipient r h)))
      (λ a p. elim p [
        | inl none_asked ↦ cc
        | inr same ↦ let same' : a.recipient ≡ r = cc same in rw same' (str_eq_refl r)
      ])

sent_from_sound :
    (s : ℕ) (sent_at : Option ℕ) → sent_from s sent_at ≡ true → IsFrom (some s) sent_at
unfolding sent_from
sent_from_sound s none h = cc
sent_from_sound s (some t) h = inr (s, t, refl, refl, ground (arith, h))

sent_from_complete :
    (s : ℕ) (sent_at : Option ℕ) → IsFrom (some s) sent_at → sent_from s sent_at ≡ true
unfolding sent_from
sent_from_complete s sent_at (inl none_asked) = cc
sent_from_complete s none (inr (s', t, asked, at, later)) = cc
sent_from_complete s (some u) (inr (s', t, asked, at, later)) = ground (arith, asked, at, later)

sent_to_sound : (e : ℕ) (sent_at : Option ℕ) → sent_to e sent_at ≡ true → IsTo (some e) sent_at
unfolding sent_to
sent_to_sound e none h = cc
sent_to_sound e (some t) h = inr (e, t, refl, refl, ground (arith, h))

sent_to_complete : (e : ℕ) (sent_at : Option ℕ) → IsTo (some e) sent_at → sent_to e sent_at ≡ true
unfolding sent_to
sent_to_complete e sent_at (inl none_asked) = cc
sent_to_complete e none (inr (e', t, asked, at, earlier)) = cc
sent_to_complete e (some u) (inr (e', t, asked, at, earlier)) = ground (arith, asked, at, earlier)

retain_from-IsStage : (d : Option ℕ) → IsStage (λ a. IsFrom d a.sent_at) (retain_from d)
unfolding retain_from
retain_from-IsStage none = IsStage-all (λ a. inl refl)
retain_from-IsStage (some s) =
    keep_if-IsStage (λ a. sent_from s a.sent_at) (λ a h. sent_from_sound s a.sent_at h)
      (λ a p. sent_from_complete s a.sent_at p)

retain_to-IsStage : (d : Option ℕ) → IsStage (λ a. IsTo d a.sent_at) (retain_to d)
unfolding retain_to
retain_to-IsStage none = IsStage-all (λ a. inl refl)
retain_to-IsStage (some e) =
    keep_if-IsStage (λ a. sent_to e a.sent_at) (λ a h. sent_to_sound e a.sent_at h)
      (λ a p. sent_to_complete e a.sent_at p)

in_session_sound :
    (s : String) (session : Option String) → in_session s session ≡ true → IsAsked (some s) session
unfolding in_session
in_session_sound s none h = cc
in_session_sound s (some t) h = inr (cc (str_eq_sound t s h))

in_session_complete :
    (s : String) (session : Option String) → IsAsked (some s) session → in_session s session ≡ true
unfolding in_session
in_session_complete s session (inl none_asked) = cc
in_session_complete s none (inr same) = cc
in_session_complete s (some t) (inr same) = let same' : t ≡ s = cc same in rw same' (str_eq_refl s)

retain_session-IsStage :
    (s : Option String) → IsStage (λ a. IsAsked s a.session_id) (retain_session s)
unfolding retain_session
retain_session-IsStage none = IsStage-all (λ a. inl refl)
retain_session-IsStage (some s) =
    keep_if-IsStage (λ a. in_session s a.session_id) (λ a h. in_session_sound s a.session_id h)
      (λ a p. in_session_complete s a.session_id p)

IsStage-tenant :
    (tenant_id : ℕ)
    → IsStage
        (λ a. a.tenant_id ≡ tenant_id)
        (keep_if (λ (a : DeliveryAttempt). a.tenant_id == tenant_id))
IsStage-tenant tenant_id =
    keep_if-IsStage (λ a. a.tenant_id == tenant_id) (λ a h. ground (arith, h))
      (λ a h. ground (arith, h))

-- the seven filters, one after another
pub select-IsStage :
    (tenant_id : ℕ) (f : MessageFilters) → IsStage (IsSelected tenant_id f) (select tenant_id f)
unfolding select
select-IsStage tenant_id f =
    IsStage-then
      (IsStage-then
        (IsStage-then
          (IsStage-then
            (IsStage-then
              (IsStage-then (IsStage-tenant tenant_id) (retain_channels-IsStage f.channels))
              (retain_statuses-IsStage f.statuses))
            (retain_recipient-IsStage f.recipient))
          (retain_from-IsStage f.from_date))
        (retain_to-IsStage f.to_date))
      (retain_session-IsStage f.session_id)
