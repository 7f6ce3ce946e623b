-- ===== src/Payment/Domain/Validation.antt =====
-- What it takes for a payment of payment.rs to be created, and that `validate` checks the same.
use ussd_polyglot.Prelude.{
  zero, suc, some, get_elem?, ◌++◌, Bool-cases, inl, inr, ap, ◌⊎◌, ℕ, List, [], ◌∷◌, length, ◌≡◌,
  refl, ◌↔◌, Bool, true, false, String, arith, codes,
}
use ussd_polyglot.Prelude.Decimal.{Decimal}
use ussd_polyglot.Prelude.Result.{Result, ok, is_ok}
use ussd_polyglot.Payment.Provider.{MobileMoneyProvider, DomainError}
use ussd_polyglot.Payment.Domain.{
  pending, Payment, is_whitespace, is_blank, all_digits, matches_phone, is_open, validate, new,
}
use ussd_polyglot.Payment.Domain.Lifecycle.{IsConsistent}

length-all_digits :
    (is_digit : ℕ → Bool) (n : ℕ) (cs : List ℕ) → all_digits is_digit n cs ≡ true → length cs ≡ n
unfolding all_digits
length-all_digits is_digit ℕ.zero [] h = refl
length-all_digits is_digit ℕ.zero (c ∷ cs) h = cc
length-all_digits is_digit (ℕ.suc n) [] h = cc
length-all_digits is_digit (ℕ.suc n) (c ∷ cs) h = ground (arith, length-all_digits is_digit n cs)

-- a character that is not white space stands in the text
abbrev pub IsInked : List ℕ → Type 0
IsInked cs = (i : ℕ) × (c : ℕ) × (get_elem? cs i ≡ some c) × (is_whitespace c ≡ false)

-- every character of a list is of a class
abbrev pub AllOf : (ℕ → Bool) → List ℕ → Type 0
AllOf test [] = Unit
AllOf test (c ∷ cs) = (test c ≡ true) × AllOf test cs

-- 2637, then one of 1, 3, 7 and 8, then eight digits, and nothing more
abbrev pub IsPhone : (ℕ → Bool) → List ℕ → Type 0
IsPhone is_digit cs =
    (e : ℕ) × (rest : List ℕ) × (cs ≡ codes "2637" ++ e ∷ rest)
    × ((e ≡ b'1') ⊎ (e ≡ b'3') ⊎ (e ≡ b'7') ⊎ (e ≡ b'8'))
    × (length rest ≡ 8)
    × AllOf is_digit rest

is_blank-ink : (cs : List ℕ) → is_blank cs ≡ false → IsInked cs
unfolding is_blank
is_blank-ink [] h = cc
is_blank-ink (x ∷ xs) h = elim (Bool-cases (is_whitespace x)) [
  | inl white ↦
      let (i, c, there, dark) = is_blank-ink xs (ground (arith, white)) in (suc i, c, there, dark)
  | inr dark ↦ (0, x, refl, dark)
]

IsInked-is_blank :
    (cs : List ℕ) (i c : ℕ)
    → get_elem? cs i ≡ some c
    → is_whitespace c ≡ false
    → is_blank cs ≡ false
unfolding is_blank
IsInked-is_blank [] i c there dark = cc
IsInked-is_blank (x ∷ xs) zero c there dark =
    let same : x ≡ c = ground arith in ground (arith, ap is_whitespace same)
IsInked-is_blank (x ∷ xs) (suc i) c there dark = ground (arith, IsInked-is_blank xs i c there dark)

all_digits-AllOf :
    (is_digit : ℕ → Bool) (n : ℕ) (cs : List ℕ)
    → all_digits is_digit n cs ≡ true
    → (length cs ≡ n) × AllOf is_digit cs
unfolding all_digits
all_digits-AllOf is_digit zero [] h = (refl, tt)
all_digits-AllOf is_digit zero (c ∷ cs) h = cc
all_digits-AllOf is_digit (suc n) [] h = cc
all_digits-AllOf is_digit (suc n) (c ∷ cs) h = ground (arith, all_digits-AllOf is_digit n cs)

AllOf-all_digits :
    (is_digit : ℕ → Bool) (cs : List ℕ)
    → AllOf is_digit cs
    → all_digits is_digit (length cs) cs ≡ true
unfolding all_digits
AllOf-all_digits is_digit [] h = refl
AllOf-all_digits is_digit (c ∷ cs) h = ground (arith, AllOf-all_digits is_digit cs)

matches_phone-IsPhone :
    (is_digit : ℕ → Bool) (cs : List ℕ) → matches_phone is_digit cs ≡ true → IsPhone is_digit cs
unfolding matches_phone
matches_phone-IsPhone is_digit [] h = cc
matches_phone-IsPhone is_digit (a ∷ []) h = cc
matches_phone-IsPhone is_digit (a ∷ b ∷ []) h = cc
matches_phone-IsPhone is_digit (a ∷ b ∷ c ∷ []) h = cc
matches_phone-IsPhone is_digit (a ∷ b ∷ c ∷ d ∷ []) h = cc
matches_phone-IsPhone is_digit (a ∷ b ∷ c ∷ d ∷ e ∷ rest) h =
    let (size, digits) = all_digits-AllOf is_digit 8 rest (ground (arith, h)) in
    (e, rest, ground (arith, h), ground (arith, h), size, digits)

IsPhone-matches_phone :
    (is_digit : ℕ → Bool) (e : ℕ) (rest : List ℕ)
    → (e ≡ b'1') ⊎ (e ≡ b'3') ⊎ (e ≡ b'7') ⊎ (e ≡ b'8')
    → length rest ≡ 8
    → AllOf is_digit rest
    → matches_phone is_digit (codes "2637" ++ e ∷ rest) ≡ true
unfolding matches_phone
IsPhone-matches_phone is_digit e rest operator size digits =
    ground (arith, operator, size, AllOf-all_digits is_digit rest digits)

module _ (dec : Decimal) (is_digit : ℕ → Bool) where
  open dec use {Amount}

  -- what a payment must satisfy
  abbrev pub IsPayable : String → Amount → String → Type 0
  IsPayable phone_number amount reference =
      (dec.leb amount dec.zero ≡ false)
      × IsInked (codes reference)
      × IsPhone is_digit (codes phone_number)

  module _ (now payment_id tenant_id : ℕ) (key : String) (provider : MobileMoneyProvider)
      (phone_number : String) (amount : Amount) (currency reference description : String) where
    abbrev created : Result DomainError (Payment Amount)
    created =
        new dec is_digit now payment_id tenant_id key provider phone_number amount currency
          reference description

    -- A payment is created exactly if its amount is above zero, some character of its reference is
    -- not white space, and its phone number is 2637, one of 1, 3, 7 and 8, and eight digits.
    pub new-IsPayable : (is_ok created ≡ true) ↔ IsPayable phone_number amount reference
    unfolding new
    new-IsPayable = (
      λ e. (
        ground (arith, e),
        is_blank-ink (codes reference) (ground (arith, e)),
        matches_phone-IsPhone is_digit (codes phone_number) (ground (arith, e)),
      ),
      λ h.
          let (positive, (i, c, there, dark), (e, rest, form, operator, size, digits)) = h in
          ground (
            arith,
            positive,
            IsInked-is_blank (codes reference) i c there dark,
            ap (matches_phone is_digit) form,
            IsPhone-matches_phone is_digit e rest operator size digits,
          ),
    )

    -- A created payment is pending, holds what it was created with, passes `validate`, and is
    -- consistent.
    pub new_lem :
        {p : Payment Amount}
        → created ≡ ok p
        → (p.status ≡ pending)
          × (p.payment_id ≡ payment_id)
          × (p.tenant_id ≡ tenant_id)
          × (p.idempotency_key ≡ key)
          × (p.provider ≡ provider)
          × (p.phone_number ≡ phone_number)
          × (p.amount ≡ amount)
          × (p.currency ≡ currency)
          × (p.reference ≡ reference)
          × (p.description ≡ description)
          × (validate dec is_digit p ≡ ok tt)
          × IsConsistent p
    unfolding new validate is_open
    new_lem h = ground arith

-- Whatever counts as a digit, only texts of thirteen characters match the pattern of phone numbers.
pub length-matches_phone :
    (is_digit : ℕ → Bool) (cs : List ℕ) → matches_phone is_digit cs ≡ true → length cs ≡ 13
unfolding matches_phone
length-matches_phone is_digit [] h = cc
length-matches_phone is_digit (a ∷ []) h = cc
length-matches_phone is_digit (a ∷ b ∷ []) h = cc
length-matches_phone is_digit (a ∷ b ∷ c ∷ []) h = cc
length-matches_phone is_digit (a ∷ b ∷ c ∷ d ∷ []) h = cc
length-matches_phone is_digit (a ∷ b ∷ c ∷ d ∷ e ∷ rest) h =
    ground (arith, length-all_digits is_digit 8 rest)
