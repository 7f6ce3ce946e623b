-- ===== src/Messaging/DeliveryLog/Logged.antt =====
-- What was logged is found (infrastructure/postgres_delivery.rs, log_attempt, get_attempt and
-- list_attempts).
use ussd_polyglot.Prelude.{
  ◌↔◌, ℕ, suc, ◌≡◌, inl, inr, refl, Bool-cases, none, some, List, [], ◌∷◌, get_elem?, arith, ◌==◌,
}
use ussd_polyglot.Prelude.Dict.{nat_key, insert, lookup-insert}
use ussd_polyglot.Prelude.Result.{ok}
use ussd_polyglot.Messaging.Domain.{DeliveryAttempt}
use ussd_polyglot.Messaging.DeliveryLog.{
  MessageFilters, Log, set_tenant_context, log_attempt, get_attempt, values, select, list_attempts,
}
use ussd_polyglot.Messaging.DeliveryLog.Selection.{IsSelected, select-IsStage}

values-insert :
    (k : ℕ) (a : DeliveryAttempt) (log : Log)
    → (i : ℕ) × (get_elem? (values (insert k a log)) i ≡ some a)
unfolding values insert
values-insert k a [] = (0, refl)
values-insert k a ((j, b) ∷ log) = elim (Bool-cases (j == k)) [
  | inl same ↦ (0, ground (arith, same))
  | inr other ↦ let (i, there) = values-insert k a log in (suc i, ground (arith, other, there))
]

-- Where telling the database the tenant does not fail, an attempt that is logged is what its
-- message's id finds, whatever was logged under that id before and whoever asks; it is among the
-- logged attempts, and the list for a tenant and filters has exactly the logged attempts that they
-- admit: of the tenant, of the channels and of the statuses if any are named, to the recipient and in
-- the session if one is named, and sent within the dates if one is named, which an attempt that was
-- not sent is not.
pub list_attempts-log_attempt :
    (attempt : DeliveryAttempt) (tenant_id : ℕ) (f : MessageFilters) (log : Log)
    (a : DeliveryAttempt)
    → let logged = log_attempt none attempt log in
      (found : List DeliveryAttempt) × (logged.0 ≡ ok tt)
      × (get_attempt attempt.message_id logged.1 ≡ ok (some attempt))
      × ((i : ℕ) × (get_elem? (values logged.1) i ≡ some attempt))
      × (list_attempts none tenant_id f logged.1 ≡ ok found)
      × ((((i : ℕ) × (get_elem? (values logged.1) i ≡ some a)) × IsSelected tenant_id f a)
          ↔ ((j : ℕ) × (get_elem? found j ≡ some a)))
unfolding list_attempts log_attempt get_attempt set_tenant_context
list_attempts-log_attempt attempt tenant_id f log a =
    let log' = insert attempt.message_id attempt log in
    let stage = select-IsStage tenant_id f in
    (
      select tenant_id f (values log'),
      refl,
      ground (arith, lookup-insert attempt.message_id attempt.message_id attempt log),
      values-insert attempt.message_id attempt log,
      refl,
      (
        λ h. stage.complete (values log') h.0.0 a h.0.1 h.1,
        λ h. let (p, i, there) = stage.sound (values log') h.0 a h.1 in ((i, there), p),
      ),
    )
