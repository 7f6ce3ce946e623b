-- ===== src/Payment/Initiate/Endings.antt =====
-- What initiating a payment leaves behind (application/initiate.rs), over a database that fails no
-- statement: a refusal that writes nothing, a payment under way, or a failed one.
use ussd_polyglot.Prelude.{
  ℕ, ◌+◌, ◌≡◌, refl, sym, subst, ◌∙◌, ap, ◌⊎◌, inl, inr, Option, none, some, List, [], ◌∷◌, ◌++◌,
  String, ◌<>◌, Bool, str_eq, arith, Option-cases,
}
use ussd_polyglot.Prelude.Decimal.{Decimal}
use ussd_polyglot.Prelude.Result.{Result, ok, err, Result-cases}
use ussd_polyglot.Payment.Provider.{
  ProviderResponse, DomainError, idempotency_violation, error_text,
}
use ussd_polyglot.Payment.Domain.{
  Payment, pending, processing, failed, status_as_str, is_open, new, mark_processing, mark_failed,
}
use ussd_polyglot.Payment.Domain.Validation.{new_lem}
use ussd_polyglot.Payment.Store.{JsonField, text, uuid, World, Env, upsert, row_of}
use ussd_polyglot.Payment.Repository.Laws.{
  Quiet, ticked, event_row, selected, save_payment_quiet, append_outbox_quiet,
  find_by_idempotency_key_quiet,
}
use ussd_polyglot.Payment.Initiate.{
  InitiatePaymentCommand, InitiateResult, call_provider_with_retry, on_response, on_error, submit,
  handle,
}
use ussd_polyglot.Payment.Initiate.Outcome.{attempts-calls}

module _ (dec : Decimal) (parse_error : String → String) (is_digit : ℕ → Bool)
    (env : Env dec.Amount) (quiet : Quiet dec parse_error env)
    (cmd : InitiatePaymentCommand dec.Amount) where
  open dec use {Amount}

  abbrev pub initiated_payload : Payment Amount → String → List (String × JsonField)
  initiated_payload p ref =
      ("event", text "PaymentInitiated")
      ∷ ("payment_id", uuid p.payment_id)
      ∷ ("provider_reference", text ref)
      ∷ ("status", text (status_as_str p.status))
      ∷ []

  abbrev pub failed_payload : Payment Amount → DomainError → List (String × JsonField)
  failed_payload p e =
      ("event", text "PaymentFailed")
      ∷ ("payment_id", uuid p.payment_id)
      ∷ ("reason", text (error_text e))
      ∷ ("status", text (status_as_str p.status))
      ∷ []

  -- the payment that the provider took, and the one that it did not take
  abbrev pub under_way : Payment Amount → String → Payment Amount
  under_way p ref = record p { status = processing; provider_reference = some ref }

  abbrev pub given_up : Payment Amount → ℕ → DomainError → Payment Amount
  given_up p now e = record p {
    status = failed;
    failure_reason = some (error_text e);
    completed_at = some now;
  }

  -- payment `p` stored over the payments, and an event appended
  abbrev pub told : Payment Amount → String → List (String × JsonField) → World → World
  told p event_type payload w = record w {
    payments = upsert (row_of dec parse_error p) w.payments;
    outbox = w.outbox ++ event_row dec parse_error env event_type p.payment_id payload ∷ [];
  }

  mark_processing_pending :
      (p : Payment Amount)
      → p.status ≡ pending
      → mark_processing p ≡ (record p { status = processing }, ok tt)
  unfolding mark_processing is_open
  mark_processing_pending p h = ground arith

  mark_failed_pending :
      (now : ℕ) (e : DomainError) (p : Payment Amount)
      → p.status ≡ pending
      → (mark_failed now (error_text e) p).0 ≡ given_up p now e
  unfolding mark_failed is_open
  mark_failed_pending now e p h = ground arith

  on_response_quiet :
      (p : Payment Amount) (response : ProviderResponse) (w : World)
      → p.status ≡ pending
      → let ref = response.provider_reference in
        let p' = under_way p ref in
        on_response dec parse_error is_digit env cmd p response w ≡ (
          ok (record { payment = p'; provider_reference = some ref }),
          told p' "PaymentInitiated" (initiated_payload p' ref) (ticked 3 (ticked 2 w)),
        )
  unfolding on_response
  on_response_quiet p response w h =
      let ref = response.provider_reference in
      let p' = under_way p ref in
      let w' = record (ticked 2 w) { payments = upsert (row_of dec parse_error p') w.payments } in
      ground (
        arith,
        mark_processing_pending p h,
        save_payment_quiet dec parse_error env quiet p' w,
        append_outbox_quiet dec parse_error env quiet "PaymentInitiated" p'.payment_id
            (initiated_payload p' ref) (cmd.idempotency_key <> "-initiated") p'.tenant_id w',
      )

  on_error_quiet :
      (p : Payment Amount) (e : DomainError) (w : World)
      → p.status ≡ pending
      → let p' = given_up p (env.now w.statements) e in
        on_error dec parse_error is_digit env cmd p e w
        ≡ (err e, told p' "PaymentFailed" (failed_payload p' e) (ticked 3 (ticked 2 w)))
  unfolding on_error
  on_error_quiet p e w h =
      let p' = given_up p (env.now w.statements) e in
      let w' = record (ticked 2 w) { payments = upsert (row_of dec parse_error p') w.payments } in
      ground (
        arith,
        mark_failed_pending (env.now w.statements) e p h,
        save_payment_quiet dec parse_error env quiet p' w,
        append_outbox_quiet dec parse_error env quiet "PaymentFailed" p'.payment_id
            (failed_payload p' e) (cmd.idempotency_key <> "-failed") p'.tenant_id w',
      )

  -- the answer of the provider, asked after the payment is first saved
  abbrev pub asked : Payment Amount → World → Result DomainError ProviderResponse × World
  asked p w =
      call_provider_with_retry dec parse_error is_digit env p
        (record (ticked 2 w) { payments = upsert (row_of dec parse_error p) w.payments })

  -- what was asked changes neither table, nor the count of statements
  asked_reads :
      (p : Payment Amount) (w : World)
      → let w' = (asked p w).1 in
        (w'.payments ≡ upsert (row_of dec parse_error p) w.payments) × (w'.outbox ≡ w.outbox)
  unfolding call_provider_with_retry
  asked_reads p w =
      let w1 = record (ticked 2 w) { payments = upsert (row_of dec parse_error p) w.payments } in
      let (_, payments, outbox, _) = attempts-calls dec parse_error is_digit env 3 none p w1 in
      (payments, outbox)

  -- how a submitted payment ends
  abbrev pub Submitted :
      Payment Amount → World → Result DomainError (InitiateResult Amount) × World → Type 0
  Submitted p w ended =
      ((response : ProviderResponse) × ((asked p w).0 ≡ ok response)
        × (let ref = response.provider_reference in
            let p' = under_way p ref in
            (ended.0 ≡ ok (record { payment = p'; provider_reference = some ref }))
            × (ended.1.payments
                ≡ upsert (row_of dec parse_error p') (upsert (row_of dec parse_error p) w.payments))
            × (ended.1.outbox ≡ (told p' "PaymentInitiated" (initiated_payload p' ref) w).outbox)))
      ⊎ ((e : DomainError) × (now : ℕ) × ((asked p w).0 ≡ err e)
          × (let p' = given_up p now e in
              (ended.0 ≡ err e)
              × (ended.1.payments
                  ≡ upsert (row_of dec parse_error p')
                      (upsert (row_of dec parse_error p) w.payments))
              × (ended.1.outbox ≡ (told p' "PaymentFailed" (failed_payload p' e) w).outbox)))

  submit_ok :
      (p : Payment Amount) (w : World) {response : ProviderResponse}
      → (asked p w).0 ≡ ok response
      → submit dec parse_error is_digit env cmd p w
        ≡ on_response dec parse_error is_digit env cmd p response (asked p w).1
  unfolding submit
  submit_ok p w h = ground (arith, save_payment_quiet dec parse_error env quiet p w)

  submit_err :
      (p : Payment Amount) (w : World) {e : DomainError}
      → (asked p w).0 ≡ err e
      → submit dec parse_error is_digit env cmd p w
        ≡ on_error dec parse_error is_digit env cmd p e (asked p w).1
  unfolding submit
  submit_err p w h = ground (arith, save_payment_quiet dec parse_error env quiet p w)

  submit-Submitted :
      (p : Payment Amount) (w : World)
      → p.status ≡ pending
      → Submitted p w (submit dec parse_error is_digit env cmd p w)
  submit-Submitted p w h =
      let w' = (asked p w).1 in
      let (payments, outbox) = asked_reads p w in
      elim (Result-cases (asked p w).0) [
        | inl (response, taken) ↦
            let ref = response.provider_reference in
            let p' = under_way p ref in
            subst (Submitted p w) (sym (submit_ok p w taken ∙ on_response_quiet p response w' h)) (
              inl (
                response,
                taken,
                (
                  refl,
                  ap (upsert (row_of dec parse_error p')) payments,
                  ap
                      (λ outbox.
                        outbox
                        ++ event_row dec parse_error env "PaymentInitiated" p'.payment_id
                            (initiated_payload p' ref)
                          ∷ [])
                      outbox,
                ),
              ))
        | inr (e, not_taken) ↦
            let now = env.now w'.statements in
            let p' = given_up p now e in
            subst (Submitted p w) (sym (submit_err p w not_taken ∙ on_error_quiet p e w' h)) (
              inr (
                e,
                now,
                not_taken,
                (
                  refl,
                  ap (upsert (row_of dec parse_error p')) payments,
                  ap
                      (λ outbox.
                        outbox
                        ++ event_row dec parse_error env "PaymentFailed" p'.payment_id
                            (failed_payload p' e)
                          ∷ [])
                      outbox,
                ),
              ))
      ]

  -- the payment with the command's key that the tenant can see
  abbrev pub known : World → Result DomainError (Option (Payment Amount))
  known w =
      selected dec parse_error env (some cmd.tenant_id)
        (λ row. str_eq row.idempotency_key cmd.idempotency_key) w

  -- the payment that the command asks for
  abbrev pub asked_for : World → Result DomainError (Payment Amount)
  asked_for w =
      new dec is_digit (env.now (w.statements + 2)) cmd.payment_id cmd.tenant_id cmd.idempotency_key
        cmd.provider cmd.phone_number cmd.amount cmd.currency cmd.reference cmd.description

  -- how a command ends
  abbrev pub Initiated : World → Result DomainError (InitiateResult Amount) × World → Type 0
  Initiated w ended =
      ((e : DomainError) × (ended ≡ (err e, ticked 2 w)))
      ⊎ ((p : Payment Amount) × (known w ≡ ok none)
          × (asked_for w ≡ ok p)
          × Submitted p (ticked 2 w) ended)

  handle_existing :
      (w : World) {p : Payment Amount}
      → known w ≡ ok (some p)
      → handle dec parse_error is_digit env cmd w ≡ (err idempotency_violation, ticked 2 w)
  unfolding handle
  handle_existing w h = ground (
    arith,
    find_by_idempotency_key_quiet dec parse_error env quiet cmd.tenant_id cmd.idempotency_key w,
  )

  handle_unreadable :
      (w : World) {e : DomainError}
      → known w ≡ err e
      → handle dec parse_error is_digit env cmd w ≡ (err e, ticked 2 w)
  unfolding handle
  handle_unreadable w h = ground (
    arith,
    find_by_idempotency_key_quiet dec parse_error env quiet cmd.tenant_id cmd.idempotency_key w,
  )

  handle_invalid :
      (w : World) {e : DomainError}
      → known w ≡ ok none
      → asked_for w ≡ err e
      → handle dec parse_error is_digit env cmd w ≡ (err e, ticked 2 w)
  unfolding handle
  handle_invalid w h k = ground (
    arith,
    find_by_idempotency_key_quiet dec parse_error env quiet cmd.tenant_id cmd.idempotency_key w,
  )

  handle_new :
      (w : World) {p : Payment Amount}
      → known w ≡ ok none
      → asked_for w ≡ ok p
      → handle dec parse_error is_digit env cmd w
        ≡ submit dec parse_error is_digit env cmd p (ticked 2 w)
  unfolding handle
  handle_new w h k = ground (
    arith,
    find_by_idempotency_key_quiet dec parse_error env quiet cmd.tenant_id cmd.idempotency_key w,
  )

  -- Over a database that fails no statement, a command ends in one of three ways. It is refused
  -- with an error, after two statements that wrote nothing and before the provider is asked. Or
  -- no payment with its key is seen, the payment is valid, and the provider took it: it is
  -- stored and stored again as processing with the provider's reference, it is returned, and
  -- exactly the event PaymentInitiated is appended. Or no payment with its key is seen, the
  -- payment is valid, and the provider did not take it: it is stored and stored again as failed
  -- with the provider's error, which is returned, and exactly the event PaymentFailed is
  -- appended.
  pub handle-Initiated : (w : World) → Initiated w (handle dec parse_error is_digit env cmd w)
  handle-Initiated w = elim (Result-cases (known w)) [
    | inr (e, lost) ↦ inl (e, handle_unreadable w lost)
    | inl (found, seen) ↦ elim (Option-cases found) [
      | inr (p, there) ↦ inl (idempotency_violation, handle_existing w (seen ∙ ap ok there))
      | inl missing ↦
          let absent = seen ∙ ap ok missing in
          elim (Result-cases (asked_for w)) [
            | inr (e, invalid) ↦ inl (e, handle_invalid w absent invalid)
            | inl (p, valid) ↦
                let is_new =
                  new_lem dec is_digit (env.now (w.statements + 2)) cmd.payment_id cmd.tenant_id
                    cmd.idempotency_key cmd.provider cmd.phone_number cmd.amount cmd.currency
                    cmd.reference cmd.description valid in
                inr (
                  p,
                  absent,
                  valid,
                  subst (Submitted p (ticked 2 w)) (sym (handle_new w absent valid))
                      (submit-Submitted p (ticked 2 w) is_new.0),
                )
          ]
    ]
  ]

  -- Over a database that fails no statement, a command whose key belongs to a payment that the
  -- tenant can see is refused as a repetition: no payment is written, no event is appended, and
  -- the provider is not asked.
  pub handle_repeated :
      (w : World) {p : Payment Amount}
      → known w ≡ ok (some p)
      → let (r, w') = handle dec parse_error is_digit env cmd w in
        (r ≡ err idempotency_violation)
        × (w'.payments ≡ w.payments)
        × (w'.outbox ≡ w.outbox)
        × (w'.calls ≡ w.calls)
  handle_repeated w h = rw (handle_existing w h) (refl, refl, refl, refl)
