-- ===== src/Payment/Grpc/ReadBack.antt =====
-- initiate_payment and get_payment_status of rust-engine/payment-engine/src/ports/grpc.rs, one after
-- the other.
use ussd_polyglot.Prelude.{
  ℕ, ◌+◌, ◌≡◌, refl, sym, ap, subst, ◌∙◌, inl, inr, Bool, true, Option, none, some, List, String,
  arith,
}
use ussd_polyglot.Prelude.Int.{pos}
use ussd_polyglot.Prelude.Dict.{nat_refl}
use ussd_polyglot.Prelude.Decimal.{Decimal, ParsesBack}
use ussd_polyglot.Prelude.Result.{Result-cases, ok, err}
use ussd_polyglot.Payment.Provider.{DomainError}
use ussd_polyglot.Payment.Domain.{Payment, processing}
use ussd_polyglot.Payment.Domain.Validation.{new_lem}
use ussd_polyglot.Payment.Store.{PaymentRow, World, Env, upsert, row_of, transpose_row}
use ussd_polyglot.Payment.Store.RoundTrip.{payment_of-row_of}
use ussd_polyglot.Payment.Repository.{get_payment_by_id}
use ussd_polyglot.Payment.Repository.Laws.{Quiet, ticked, get_payment_by_id_quiet}
use ussd_polyglot.Payment.Repository.Refinement.{entry, table_of, table_of-upsert, find_row-visible}
use ussd_polyglot.Payment.Initiate.{InitiatePaymentCommand, InitiateResult}
use ussd_polyglot.Payment.Initiate.{handle as initiate}
use ussd_polyglot.Payment.Initiate.Endings.{under_way, handle-Initiated}
use ussd_polyglot.Payment.Grpc.{
  Crates, InitiatePaymentRequest, InitiatePaymentResponse, GetPaymentStatusResponse, command_of,
  map_domain_status, text_or_empty, parse_uuid, build_initiate_response, status_response,
  initiate_payment, get_payment_status,
}

err_not_ok : {A : Type 0} {e : DomainError} {a : A} → err e ≡ ok a → ⊥
err_not_ok h = cc

module _ (dec : Decimal) (parse_error : String → String) (is_digit : ℕ → Bool)
    (env : Env dec.Amount) where
  open dec use {Amount}

  -- a payment saved twice is stored as it was the second time, if it had no row before
  table_of-upsert_twice :
      (p p' : Payment Amount) (rows : List PaymentRow)
      → table_of rows p.payment_id ≡ none
      → entry (some (row_of dec parse_error p)) (row_of dec parse_error p')
        ≡ row_of dec parse_error p'
      → p'.payment_id ≡ p.payment_id
      → table_of
          (upsert (row_of dec parse_error p') (upsert (row_of dec parse_error p) rows))
          p.payment_id
        ≡ some (row_of dec parse_error p')
  unfolding row_of
  table_of-upsert_twice p p' rows absent same named = ground (
    arith,
    nat_refl p.payment_id,
    table_of-upsert (row_of dec parse_error p) rows p.payment_id,
    table_of-upsert (row_of dec parse_error p') (upsert (row_of dec parse_error p) rows)
        p.payment_id,
  )

  entry-under_way :
      (quiet : Quiet dec parse_error env) (cmd : InitiatePaymentCommand Amount) (p : Payment Amount)
      (ref : String)
      → let p' = under_way dec parse_error is_digit env quiet cmd p ref in
        entry (some (row_of dec parse_error p)) (row_of dec parse_error p')
        ≡ row_of dec parse_error p'
  unfolding row_of
  entry-under_way quiet cmd p ref = refl

  transpose_row-row_of :
      (p : Payment Amount)
      → ParsesBack dec
      → transpose_row dec parse_error (some (row_of dec parse_error p)) ≡ ok (some p)
  unfolding transpose_row
  transpose_row-row_of p back = let read = payment_of-row_of dec parse_error p back in ground arith

  -- a payment that is stored twice is read as it was the second time
  get_payment_by_id-twice :
      (quiet : Quiet dec parse_error env) (tenant_id : ℕ) (p p' : Payment Amount) (w w' : World)
      → ParsesBack dec
      → ((t : Option ℕ) (row : PaymentRow) → env.visible t row ≡ true)
      → table_of w.payments p.payment_id ≡ none
      → entry (some (row_of dec parse_error p)) (row_of dec parse_error p')
        ≡ row_of dec parse_error p'
      → p'.payment_id ≡ p.payment_id
      → w'.payments
        ≡ upsert (row_of dec parse_error p') (upsert (row_of dec parse_error p) w.payments)
      → get_payment_by_id dec parse_error env tenant_id p.payment_id w'
        ≡ (ok (some p'), ticked 2 w')
  get_payment_by_id-twice quiet tenant_id p p' w w' back seen absent same named stored =
      get_payment_by_id_quiet dec parse_error env quiet tenant_id p.payment_id w'
      ∙ ap (λ o. (transpose_row dec parse_error o, ticked 2 w'))
          (find_row-visible dec parse_error env (some tenant_id) p.payment_id w'.payments
              (seen (some tenant_id))
            ∙ ap (λ rows. table_of rows p.payment_id) stored
            ∙ table_of-upsert_twice p p' w.payments absent same named)
      ∙ ap (λ o. (o, ticked 2 w')) (transpose_row-row_of p' back)

  -- what an accepted command returns is what is then read under its identifier
  get_payment_by_id-handle :
      (quiet : Quiet dec parse_error env) (cmd : InitiatePaymentCommand Amount) (w w' : World)
      (r : InitiateResult Amount)
      → ParsesBack dec
      → ((t : Option ℕ) (row : PaymentRow) → env.visible t row ≡ true)
      → table_of w.payments cmd.payment_id ≡ none
      → initiate dec parse_error is_digit env cmd w ≡ (ok r, w')
      → (r.payment.status ≡ processing)
        × (r.payment.provider_reference ≡ r.provider_reference)
        × (get_payment_by_id dec parse_error env cmd.tenant_id cmd.payment_id w'
            ≡ (ok (some r.payment), ticked 2 w'))
        × (r.payment.payment_id ≡ cmd.payment_id)
  get_payment_by_id-handle quiet cmd w w' r back seen absent ran =
      elim (handle-Initiated dec parse_error is_digit env quiet cmd w) [
        | inl (e, refused) ↦ absurd (err_not_ok (ap (λ x. x.0) (sym refused ∙ ran)))
        | inr (p, unknown, valid, inr (e, now, not_taken, ended)) ↦
            absurd (err_not_ok (sym ended.0 ∙ ap (λ x. x.0) ran))
        | inr (p, unknown, valid, inl (response, taken, ended)) ↦
            let p' =
              under_way dec parse_error is_digit env quiet cmd p response.provider_reference in
            let is_new =
              new_lem dec is_digit (env.now (w.statements + 2)) cmd.payment_id cmd.tenant_id
                cmd.idempotency_key cmd.provider cmd.phone_number cmd.amount cmd.currency
                cmd.reference cmd.description valid in
            let returned = sym ended.0 ∙ ap (λ x. x.0) ran in
            let world : (initiate dec parse_error is_digit env cmd w).1 ≡ w' = ap (λ x. x.1) ran in
            let read =
              get_payment_by_id-twice quiet cmd.tenant_id p p' w w' back seen
                (ap (table_of w.payments) is_new.1 ∙ absent)
                (entry-under_way quiet cmd p response.provider_reference) refl
                (ap (λ x. x.payments) (sym world) ∙ ended.1) in
            let same : record {
              payment = p';
              provider_reference = some response.provider_reference;
            }
                ≡ r =
              cc in
            let payment_is : p' ≡ r.payment = ap (λ x. x.payment) same in
            let reference_is : some response.provider_reference ≡ r.provider_reference =
              ap (λ x. x.provider_reference) same in
            let id_is : p.payment_id ≡ cmd.payment_id = is_new.1 in
            (
              ap (λ x. x.status) (sym payment_is),
              ap (λ x. x.provider_reference) (sym payment_is) ∙ reference_is,
              subst
                  (λ id.
                    get_payment_by_id dec parse_error env cmd.tenant_id id w'
                    ≡ (ok (some r.payment), ticked 2 w'))
                  id_is (read ∙ ap (λ x. (ok (some x), ticked 2 w')) payment_is),
              ap (λ x. x.payment_id) (sym payment_is) ∙ id_is,
            )
      ]

  module _ (crates : Crates Amount) where
    open crates use {parse}

    initiate_payment_ok :
        (req : InitiatePaymentRequest) (trace : String) (cmd : InitiatePaymentCommand Amount)
        (response : InitiatePaymentResponse) (w w' : World)
        → command_of dec crates req ≡ ok cmd
        → initiate_payment dec crates parse_error is_digit env req trace w ≡ (ok response, w')
        → (r : InitiateResult Amount) × (initiate dec parse_error is_digit env cmd w ≡ (ok r, w'))
          × (response ≡ build_initiate_response dec crates r)
    unfolding initiate_payment
    initiate_payment_ok req trace cmd response w w' asked ran =
        elim (Result-cases (initiate dec parse_error is_digit env cmd w).0) [
          | inl (r, is) ↦ (r, ground arith, ground arith)
          | inr (e, is) ↦ absurd (ground arith)
        ]

    get_payment_status_found :
        (tenant payment trace : String) (tenant_id payment_id : ℕ) (w w' : World)
        (p : Payment Amount)
        → parse tenant ≡ some tenant_id
        → parse payment ≡ some payment_id
        → get_payment_by_id dec parse_error env tenant_id payment_id w ≡ (ok (some p), w')
        → get_payment_status dec crates parse_error is_digit env tenant payment trace w
          ≡ (ok (status_response dec crates p), w')
    unfolding get_payment_status parse_uuid
    get_payment_status_found tenant payment trace tenant_id payment_id w w' p known named found =
        ground arith

    tenant-command_of :
        (req : InitiatePaymentRequest) (cmd : InitiatePaymentCommand Amount)
        → command_of dec crates req ≡ ok cmd
        → parse req.tenant_id ≡ some cmd.tenant_id
    unfolding command_of parse_uuid
    tenant-command_of req cmd asked = ground arith

    provider_reference-response :
        (r : InitiateResult Amount)
        → r.payment.provider_reference ≡ r.provider_reference
        → let s = status_response dec crates r.payment in
          let b = build_initiate_response dec crates r in
          (s.payment_id ≡ b.payment_id)
          × (s.status ≡ b.status)
          × (s.provider_reference ≡ b.provider_reference)
          × (s.amount ≡ some b.total_amount)
          × (s.initiated_at ≡ some b.initiated_at)
          × (s.error ≡ none)
    unfolding status_response build_initiate_response
    provider_reference-response r same = (refl, refl, ap text_or_empty same, refl, refl, refl)

    status-build :
        (r : InitiateResult Amount)
        → r.payment.status ≡ processing
        → (build_initiate_response dec crates r).status ≡ pos 2
    unfolding build_initiate_response map_domain_status
    status-build r h = ap map_domain_status h

    -- Over a database that fails no statement and shows a tenant every row, with decimals that are
    -- read back as written: where `initiate_payment` accepts a request that names its payment by a
    -- UUID, and no row had that identifier before, `get_payment_status` for the same tenant and
    -- payment then answers, without an error, the identifier, provider reference, amount, time and
    -- status that `initiate_payment` answered, and the status is that of a payment under way.
    pub get_payment_status-initiate_payment :
        (quiet : Quiet dec parse_error env) (req : InitiatePaymentRequest) (trace : String)
        (cmd : InitiatePaymentCommand Amount) (b : InitiatePaymentResponse) (w w' : World)
        → ParsesBack dec
        → ((t : Option ℕ) (row : PaymentRow) → env.visible t row ≡ true)
        → command_of dec crates req ≡ ok cmd
        → parse req.payment_id ≡ some cmd.payment_id
        → table_of w.payments cmd.payment_id ≡ none
        → initiate_payment dec crates parse_error is_digit env req trace w ≡ (ok b, w')
        → (s : GetPaymentStatusResponse) × (w'' : World) × (get_payment_status dec crates
              parse_error is_digit env req.tenant_id req.payment_id trace w'
            ≡ (ok s, w''))
          × (b.status ≡ pos 2)
          × ((s.payment_id ≡ b.payment_id)
              × (s.status ≡ b.status)
              × (s.provider_reference ≡ b.provider_reference)
              × (s.amount ≡ some b.total_amount)
              × (s.initiated_at ≡ some b.initiated_at)
              × (s.error ≡ none))
    get_payment_status-initiate_payment quiet req trace cmd b w w' back seen asked named absent
          ran =
        let (r, done, is) = initiate_payment_ok req trace cmd b w w' asked ran in
        let (under_way, reference, read, id) =
          get_payment_by_id-handle quiet cmd w w' r back seen absent done in
        let s = status_response dec crates r.payment in
        (
          s,
          ticked 2 w',
          get_payment_status_found req.tenant_id req.payment_id trace cmd.tenant_id cmd.payment_id
              w' (ticked 2 w') r.payment (tenant-command_of req cmd asked) named read,
          ap (λ x. x.status) is ∙ status-build r under_way,
          subst
              (λ x.
                (s.payment_id ≡ x.payment_id)
                × (s.status ≡ x.status)
                × (s.provider_reference ≡ x.provider_reference)
                × (s.amount ≡ some x.total_amount)
                × (s.initiated_at ≡ some x.initiated_at)
                × (s.error ≡ none))
              (sym is) (provider_reference-response r reference),
        )
