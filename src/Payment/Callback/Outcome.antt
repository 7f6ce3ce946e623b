-- ===== src/Payment/Callback/Outcome.antt =====
-- What a callback leaves behind (application/callback.rs), over a database that fails no statement.
use ussd_polyglot.Prelude.{
  ℕ, ◌≡◌, refl, sym, subst, ◌∙◌, ap, ◌⊎◌, inl, inr, Bool, true, false, some, [], ◌∷◌, ◌++◌, String,
  ◌<>◌, arith, Bool-cases, Option-cases,
}
use ussd_polyglot.Prelude.Decimal.{Decimal}
use ussd_polyglot.Prelude.Result.{Result, ok, err, Result-cases}
use ussd_polyglot.Payment.Provider.{DomainError, provider_error}
use ussd_polyglot.Payment.Domain.{Payment, status_as_str, apply_provider_status}
use ussd_polyglot.Payment.Domain.Lifecycle.{IsSettled, settled_stays}
use ussd_polyglot.Payment.Store.{World, Env, upsert, row_of}
use ussd_polyglot.Payment.Repository.Laws.{
  Quiet, ticked, event_row, save_payment_quiet, append_outbox_quiet,
  get_payment_by_provider_ref_quiet, get_payment_by_id_quiet,
}
use ussd_polyglot.Payment.Callback.{
  ProcessCallbackCommand, CallbackResult, event_type_of, find_payment, updated, outbox_payload,
  record_status, handle,
}

module _ (dec : Decimal) (parse_error : String → String) (env : Env dec.Amount)
    (quiet : Quiet dec parse_error env) (cmd : ProcessCallbackCommand) where
  open dec use {Amount}

  -- the event of a callback on payment `p`, which it turned into `p'`
  abbrev pub announced : Payment Amount → Payment Amount → World → World
  announced p p' w = record w {
    payments = upsert (row_of dec parse_error p') w.payments;
    outbox =
        w.outbox
        ++ event_row dec parse_error env (event_type_of cmd.status) p'.payment_id
            (outbox_payload dec parse_error env cmd p p')
          ∷ [];
  }

  record_status_quiet :
      (p : Payment Amount) (w : World)
      → let p' = updated dec parse_error env cmd (env.now w.statements) p in
        record_status dec parse_error env cmd p w ≡ (
          ok (record { payment = p'; accepted = true; new_status = status_as_str p'.status }),
          announced p p' (ticked 3 (ticked 2 w)),
        )
  unfolding record_status
  record_status_quiet p w =
      let p' = updated dec parse_error env cmd (env.now w.statements) p in
      let w' = record (ticked 2 w) { payments = upsert (row_of dec parse_error p') w.payments } in
      ground (
        arith,
        save_payment_quiet dec parse_error env quiet p' w,
        append_outbox_quiet dec parse_error env quiet (event_type_of cmd.status) p'.payment_id
            (outbox_payload dec parse_error env cmd p p')
            (cmd.provider_reference <> "-" <> event_type_of cmd.status) p'.tenant_id w',
      )

  -- looking the payment up writes nothing
  find_payment_reads :
      (w : World)
      → let w' = (find_payment dec parse_error env cmd w).1 in
        (w'.payments ≡ w.payments) × (w'.outbox ≡ w.outbox)
  unfolding find_payment
  find_payment_reads w =
      let w' = ticked 2 w in
      elim (Option-cases cmd.payment_id) [
        | inl no_id ↦ ground (
          arith,
          get_payment_by_provider_ref_quiet dec parse_error env quiet cmd.tenant_id
              cmd.provider_reference w,
        )
        | inr (id, given) ↦ ground (
          arith,
          get_payment_by_provider_ref_quiet dec parse_error env quiet cmd.tenant_id
              cmd.provider_reference w,
          get_payment_by_id_quiet dec parse_error env quiet cmd.tenant_id id w',
        )
      ]

  abbrev pub verified : Bool
  verified = env.verify_callback_signature cmd.raw_payload cmd.signature

  handle_forged :
      (w : World)
      → verified ≡ false
      → handle dec parse_error env cmd w ≡ (err (provider_error "Invalid callback signature"), w)
  unfolding handle
  handle_forged w forged = ground arith

  handle_found :
      (w : World) {p : Payment Amount}
      → verified ≡ true
      → (find_payment dec parse_error env cmd w).0 ≡ ok p
      → handle dec parse_error env cmd w
        ≡ record_status dec parse_error env cmd p (find_payment dec parse_error env cmd w).1
  unfolding handle
  handle_found w genuine found = ground arith

  handle_not_found :
      (w : World) {e : DomainError}
      → verified ≡ true
      → (find_payment dec parse_error env cmd w).0 ≡ err e
      → handle dec parse_error env cmd w ≡ (err e, (find_payment dec parse_error env cmd w).1)
  unfolding handle
  handle_not_found w genuine found = ground arith

  -- what `handle` did, by how it ended
  abbrev pub Ended : World → Result DomainError (CallbackResult Amount) × World → Type 0
  Ended w ended =
      ((e : DomainError) × (ended.0 ≡ err e)
        × (ended.1.payments ≡ w.payments)
        × (ended.1.outbox ≡ w.outbox))
      ⊎ ((p p' : Payment Amount) × (now : ℕ) × (verified ≡ true)
          × ((find_payment dec parse_error env cmd w).0 ≡ ok p)
          × (p' ≡ apply_provider_status now cmd.status (some cmd.provider_reference) p)
          × (ended.0
              ≡ ok (record { payment = p'; accepted = true; new_status = status_as_str p'.status }))
          × (ended.1.payments ≡ (announced p p' w).payments)
          × (ended.1.outbox ≡ (announced p p' w).outbox))

  -- Over a database that fails no statement, a callback ends in one of two ways. It is refused, and
  -- the payments and the outbox are as they were; or its signature was right and it found a payment,
  -- and then exactly that payment's row is written, with the provider's status applied, and exactly
  -- one event is appended, named after the status that the provider reported.
  pub handle-Ended : (w : World) → Ended w (handle dec parse_error env cmd w)
  unfolding updated
  handle-Ended w = elim (Bool-cases verified) [
    | inr forged ↦ subst (Ended w) (sym (handle_forged w forged)) (inl (_, refl, refl, refl))
    | inl genuine ↦ elim (Result-cases (find_payment dec parse_error env cmd w).0) [
      | inr (e, lost) ↦
          let (payments_same, outbox_same) = find_payment_reads w in
          subst (Ended w) (sym (handle_not_found w genuine lost))
            (inl (e, refl, payments_same, outbox_same))
      | inl (p, found) ↦
          let w' = (find_payment dec parse_error env cmd w).1 in
          let (payments_same, outbox_same) = find_payment_reads w in
          let now = env.now w'.statements in
          let p' = apply_provider_status now cmd.status (some cmd.provider_reference) p in
          subst (Ended w) (sym (handle_found w genuine found ∙ record_status_quiet p w')) (
            inr (
              p,
              p',
              now,
              genuine,
              found,
              refl,
              refl,
              ap (upsert (row_of dec parse_error p')) payments_same,
              ap
                  (λ outbox.
                    outbox
                    ++ event_row dec parse_error env (event_type_of cmd.status) p'.payment_id
                        (outbox_payload dec parse_error env cmd p p')
                      ∷ [])
                  outbox_same,
            ))
    ]
  ]

  -- Over a database that fails no statement, a callback with a right signature that finds a
  -- failed, cancelled or refunded payment does not move it: the row that it writes is that of the
  -- payment as it was found. The handler answers that the callback was accepted, with that payment,
  -- and appends the event of the reported status, as if the payment had moved.
  pub handle_settled :
      (w : World) {p : Payment Amount}
      → verified ≡ true
      → (find_payment dec parse_error env cmd w).0 ≡ ok p
      → IsSettled p.status
      → let (r, w') = handle dec parse_error env cmd w in
        (r ≡ ok (record { payment = p; accepted = true; new_status = status_as_str p.status }))
        × (w'.payments ≡ upsert (row_of dec parse_error p) w.payments)
        × (w'.outbox ≡ (announced p p w).outbox)
  unfolding updated
  handle_settled w {p} genuine found settled =
      let w' = (find_payment dec parse_error env cmd w).1 in
      ground (
        arith,
        handle_found w genuine found,
        record_status_quiet p w',
        settled_stays (env.now w'.statements) cmd.status (some cmd.provider_reference) p settled,
        find_payment_reads w,
      )
