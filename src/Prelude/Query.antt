-- ===== src/Prelude/Query.antt =====
-- What SQL does with rows: `ORDER BY`, `LIMIT`, `OFFSET` and `= ANY`, on lists of rows.
use Prim.Native.Nat.{ℕ, zero, suc}
use Prim.Native.String.{String}
use mathlib.Core.Path.{◌≡◌, refl, ◌∙◌}
use mathlib.Core.Logic.{inl, inr}
use mathlib.Core.Bool.{Bool, true, false}
use mathlib.Core.Option.{some}
use mathlib.Core.List.{List, [], ◌∷◌}
use native.Mathlib.Omega.{arith}
use ussd_polyglot.Prelude.Tests.{if◌then◌else◌, Bool-cases}
use ussd_polyglot.Prelude.Text.{str_eq}
use ussd_polyglot.Prelude.Lists.{get_elem?}

-- the sorting of an `ORDER BY`, `before a b` where a may stand before b
unfoldable pub insert_row : {A : Type 0} → (A → A → Bool) → A → List A → List A
insert_row before x [] = x ∷ []
insert_row before x (y ∷ ys) = if before x y then x ∷ y ∷ ys else y ∷ insert_row before x ys

unfoldable pub order_by : {A : Type 0} → (A → A → Bool) → List A → List A
unfolding insert_row
order_by before [] = []
order_by before (x ∷ xs) = insert_row before x (order_by before xs)

-- `event_type = ANY(types)`, `types.contains(&event_type)`
unfoldable pub one_of : List String → String → Bool
one_of [] t = false
one_of (s ∷ types) t = if str_eq s t then true else one_of types t

-- `LIMIT n` and `OFFSET n`
abbrev pub take_rows : {A : Type 0} → ℕ → List A → List A
take_rows zero xs = []
take_rows (suc n) [] = []
take_rows (suc n) (x ∷ xs) = x ∷ take_rows n xs

abbrev pub drop_rows : {A : Type 0} → ℕ → List A → List A
drop_rows zero xs = xs
drop_rows (suc n) [] = []
drop_rows (suc n) (x ∷ xs) = drop_rows n xs

module _ {A : Type 0} (before : A → A → Bool) where
  get_elem?-insert_row_new :
      (x : A) (ys : List A) → (j : ℕ) × (get_elem? (insert_row before x ys) j ≡ some x)
  unfolding insert_row
  get_elem?-insert_row_new x [] = (0, refl)
  get_elem?-insert_row_new x (y ∷ ys) = elim (Bool-cases (before x y)) [
    | inl first ↦ (0, ground arith)
    | inr later ↦ let (j, there) = get_elem?-insert_row_new x ys in (suc j, ground arith)
  ]

  get_elem?-insert_row_old :
      (x : A) (ys : List A) (i : ℕ) {y : A}
      → get_elem? ys i ≡ some y
      → (j : ℕ) × (get_elem? (insert_row before x ys) j ≡ some y)
  unfolding insert_row
  get_elem?-insert_row_old x [] i h = cc
  get_elem?-insert_row_old x (z ∷ ys) zero h = elim (Bool-cases (before x z)) [
    | inl first ↦ (1, ground arith)
    | inr later ↦ (0, ground arith)
  ]
  get_elem?-insert_row_old x (z ∷ ys) (suc i) {y} h = elim (Bool-cases (before x z)) [
    | inl first ↦ (suc (suc i), ground arith)
    | inr later ↦
        let (j, there) = get_elem?-insert_row_old x ys i {y = y} h in (suc j, ground arith)
  ]

  insert_row_sound :
      (x : A) (ys : List A) (j : ℕ) {y : A}
      → get_elem? (insert_row before x ys) j ≡ some y
      → (i : ℕ) × (get_elem? (x ∷ ys) i ≡ some y)
  unfolding insert_row
  insert_row_sound x [] j h = (j, h)
  insert_row_sound x (z ∷ ys) zero {y} h = elim (Bool-cases (before x z)) [
    | inl first ↦ (0, ground arith)
    | inr later ↦ (1, ground arith)
  ]
  insert_row_sound x (z ∷ ys) (suc j) {y} h = elim (Bool-cases (before x z)) [
    | inl first ↦ (suc j, ground arith)
    | inr later ↦ after_head (insert_row_sound x ys j {y = y} (ground arith))
  ]
    where
      after_head :
          (i : ℕ) × (get_elem? (x ∷ ys) i ≡ some y) → (i : ℕ) × (get_elem? (x ∷ z ∷ ys) i ≡ some y)
      after_head (zero, at) = (zero, at)
      after_head (suc i, at) = (suc (suc i), at)

  pub get_elem?-order_by :
      (xs : List A) (i : ℕ) {x : A}
      → get_elem? xs i ≡ some x
      → (j : ℕ) × (get_elem? (order_by before xs) j ≡ some x)
  unfolding order_by
  get_elem?-order_by [] i h = cc
  get_elem?-order_by (y ∷ xs) zero {x} h =
      let (j, there) = get_elem?-insert_row_new y (order_by before xs) in (j, there ∙ h)
  get_elem?-order_by (y ∷ xs) (suc i) {x} h =
      let (j, there) = get_elem?-order_by xs i {x = x} h in
      get_elem?-insert_row_old y (order_by before xs) j there

  pub order_by_sound :
      (xs : List A) (j : ℕ) {x : A}
      → get_elem? (order_by before xs) j ≡ some x
      → (i : ℕ) × (get_elem? xs i ≡ some x)
  unfolding order_by
  order_by_sound [] j h = cc
  order_by_sound (y ∷ xs) j {x} h =
      back (insert_row_sound y (order_by before xs) j {y = x} h)
        (λ k at. order_by_sound xs k {x = x} at)
    where
      back :
          (i : ℕ) × (get_elem? (y ∷ order_by before xs) i ≡ some x)
          → ((k : ℕ)
              → get_elem? (order_by before xs) k ≡ some x
              → (i : ℕ) × (get_elem? xs i ≡ some x))
          → (i : ℕ) × (get_elem? (y ∷ xs) i ≡ some x)
      back (zero, at) rest = (zero, at)
      back (suc i, at) rest = let (k, there) = rest i at in (suc k, there)
