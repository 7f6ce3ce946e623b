-- ===== src/Ledger/Inverse.antt =====
-- Two directions of a numeric code (rust-engine/ledger-query-service/src/domain/).
use ussd_polyglot.Prelude.{◌≡◌, Option, some}
use ussd_polyglot.Prelude.Int.{ℤ}

-- what is encoded decodes to itself, and what decodes is the code of what it decodes to
abbrev pub AreInverse : {E : Type 0} → (E → ℤ) → (ℤ → Option E) → Type 0
AreInverse {E} encode decode =
    ((x : E) → decode (encode x) ≡ some x) × ((v : ℤ) (x : E) → decode v ≡ some x → encode x ≡ v)
