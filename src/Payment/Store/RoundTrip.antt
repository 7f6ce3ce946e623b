-- ===== src/Payment/Store/RoundTrip.antt =====
-- What is written to a row of postgres.rs reads back.
use ussd_polyglot.Prelude.{◌≡◌, refl, String, arith}
use ussd_polyglot.Prelude.Decimal.{Decimal, ParsesBack}
use ussd_polyglot.Prelude.Result.{ok}
use ussd_polyglot.Payment.Provider.{
  MobileMoneyProvider, eco_cash, one_money, telecash, provider_as_str,
}
use ussd_polyglot.Payment.Domain.{
  PaymentStatus, pending, processing, completed, failed, cancelled, refunded, status_as_str,
  Payment,
}
use ussd_polyglot.Payment.Store.{provider_of, status_of, row_of, payment_of}

provider_of-as_str : (p : MobileMoneyProvider) → provider_of (provider_as_str p) ≡ ok p
unfolding provider_of provider_as_str
provider_of-as_str eco_cash = refl
provider_of-as_str one_money = refl
provider_of-as_str telecash = refl

status_of-as_str : (s : PaymentStatus) → status_of (status_as_str s) ≡ ok s
unfolding status_of status_as_str
status_of-as_str pending = refl
status_of-as_str processing = refl
status_of-as_str completed = refl
status_of-as_str failed = refl
status_of-as_str cancelled = refl
status_of-as_str refunded = refl

-- If the decimal parser reads back what the decimal printer writes, every payment reads back from
-- its row as it was.
pub payment_of-row_of :
    (dec : Decimal) (parse_error : String → String) (p : Payment dec.Amount)
    → ParsesBack dec
    → payment_of dec parse_error (row_of dec parse_error p) ≡ ok p
unfolding payment_of row_of
payment_of-row_of dec parse_error p back =
    ground (arith, provider_of-as_str p.provider, status_of-as_str p.status, back p.amount)
