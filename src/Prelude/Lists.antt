-- ===== src/Prelude/Lists.antt =====
-- Lists measured and indexed by native numbers, under the library's names, and `Option` as the
-- monad of computations that may panic.
use Prim.Native.Nat.{ℕ, zero, suc, ◌+◌, ◌<◌, ◌≤◌}
use mathlib.Core.Path.{◌≡◌, refl, ap}
use mathlib.Core.Logic.{inl, inr}
use mathlib.Core.Bool.{Bool, true, false}
use ussd_polyglot.Prelude.Tests.{if◌then◌else◌, Bool-cases, Option-cases}
use mathlib.Core.Option.{Option, none, some}
use mathlib.Core.List.{List, [], ◌∷◌, ◌++◌, map}
use native.Mathlib.Omega.{arith}

infixl 5 ◌>>=◌
abbrev pub ◌>>=◌ {ℓ κ} : {A : Type ℓ} {B : Type κ} → Option A → (A → Option B) → Option B
none >>= f = none
some a >>= f = f a

module _ {ℓ} {A : Type ℓ} where
  abbrev pub length : List A → ℕ
  length [] = 0
  length (x ∷ xs) = suc (length xs)

  -- `xs.get(i)`; `xs[i]` panics where this is `none`
  abbrev pub get_elem? : List A → ℕ → Option A
  get_elem? [] i = none
  get_elem? (x ∷ xs) zero = some x
  get_elem? (x ∷ xs) (suc i) = get_elem? xs i

  -- `xs.last()`
  abbrev pub get_last? : List A → Option A
  get_last? [] = none
  get_last? (x ∷ []) = some x
  get_last? (x ∷ y ∷ xs) = get_last? (y ∷ xs)

  abbrev pub replicate : ℕ → A → List A
  replicate zero a = []
  replicate (suc n) a = a ∷ replicate n a

  pub length-append : (xs ys : List A) → length (xs ++ ys) ≡ length xs + length ys
  length-append [] ys = omega arith
  length-append (x ∷ xs) ys = omega (arith, length-append xs ys)

  pub length-replicate : (n : ℕ) (a : A) → length (replicate n a) ≡ n
  length-replicate zero a = refl
  length-replicate (suc n) a = omega (arith, length-replicate n a)

  pub get_elem?-append_right :
      (xs ys : List A) (i : ℕ) → get_elem? (xs ++ ys) (length xs + i) ≡ get_elem? ys i
  get_elem?-append_right [] ys i = ground arith
  get_elem?-append_right (x ∷ xs) ys i = ground (arith, get_elem?-append_right xs ys i)

  pub get_elem?-append_left :
      (xs ys : List A) (i : ℕ) → i < length xs → get_elem? (xs ++ ys) i ≡ get_elem? xs i
  get_elem?-append_left [] ys i h = elim h [ ]
  get_elem?-append_left (x ∷ xs) ys zero h = refl
  get_elem?-append_left (x ∷ xs) ys (suc i) h = get_elem?-append_left xs ys i (omega arith)

  pub get_elem?-append_at :
      (xs ys : List A) (i j : ℕ) → j ≡ length xs + i → get_elem? (xs ++ ys) j ≡ get_elem? ys i
  get_elem?-append_at xs ys i j e = rw e (get_elem?-append_right xs ys i)

  pub get_elem?-some : (xs : List A) (i : ℕ) → i < length xs → (a : A) × (get_elem? xs i ≡ some a)
  get_elem?-some [] i h = elim h [ ]
  get_elem?-some (x ∷ xs) zero h = (x, refl)
  get_elem?-some (x ∷ xs) (suc i) h = get_elem?-some xs i (omega arith)

  pub get_elem?_lt : (xs : List A) (i : ℕ) {a : A} → get_elem? xs i ≡ some a → i < length xs
  get_elem?_lt [] i h = cc
  get_elem?_lt (x ∷ xs) zero h = omega arith
  get_elem?_lt (x ∷ xs) (suc i) h = omega (arith, get_elem?_lt xs i h)

  pub get_elem?-none : (xs : List A) (i : ℕ) → length xs ≤ i → get_elem? xs i ≡ none
  get_elem?-none [] i h = refl
  get_elem?-none (x ∷ xs) zero h = absurd (omega arith)
  get_elem?-none (x ∷ xs) (suc i) h = get_elem?-none xs i (omega arith)

  pub get_last?-append : (xs : List A) (y : A) → get_last? (xs ++ y ∷ []) ≡ some y
  get_last?-append [] y = refl
  get_last?-append (x ∷ []) y = refl
  get_last?-append (x ∷ z ∷ xs) y = get_last?-append (z ∷ xs) y

  pub get_last?-append_cons :
      (xs : List A) (y : A) (ys : List A) → get_last? (xs ++ y ∷ ys) ≡ get_last? (y ∷ ys)
  get_last?-append_cons [] y ys = refl
  get_last?-append_cons (x ∷ []) y ys = refl
  get_last?-append_cons (x ∷ z ∷ xs) y ys = get_last?-append_cons (z ∷ xs) y ys

  pub get_last?-append_right :
      (xs ys : List A) → 0 < length ys → get_last? (xs ++ ys) ≡ get_last? ys
  get_last?-append_right xs [] h = absurd (omega arith)
  get_last?-append_right xs (y ∷ ys) h = get_last?-append_cons xs y ys

  pub get_last?-get_elem? :
      (xs : List A) (n : ℕ) → length xs ≡ suc n → get_last? xs ≡ get_elem? xs n
  get_last?-get_elem? [] n e = absurd (omega arith)
  get_last?-get_elem? (x ∷ []) zero e = refl
  get_last?-get_elem? (x ∷ []) (suc n) e = absurd (omega arith)
  get_last?-get_elem? (x ∷ y ∷ xs) zero e = absurd (omega arith)
  get_last?-get_elem? (x ∷ y ∷ xs) (suc n) e = get_last?-get_elem? (y ∷ xs) n (omega arith)

  pub get_last?-some : (xs : List A) → 0 < length xs → (x : A) × (get_last? xs ≡ some x)
  get_last?-some [] h = absurd (omega arith)
  get_last?-some (x ∷ []) h = (x, refl)
  get_last?-some (x ∷ y ∷ xs) h = get_last?-some (y ∷ xs) (omega arith)

module _ {ℓ κ} {A : Type ℓ} {B : Type κ} where
  pub length-map : (f : A → B) (xs : List A) → length (map f xs) ≡ length xs
  length-map f [] = refl
  length-map f (x ∷ xs) = omega (arith, length-map f xs)

-- `iter().filter(test)`, `iter().find(test)` and `iter().position(test)`
module _ {ℓ} {A : Type ℓ} (test : A → Bool) where
  abbrev pub keep_if : List A → List A
  keep_if [] = []
  keep_if (x ∷ xs) = if test x then x ∷ keep_if xs else keep_if xs

  abbrev pub find_if : List A → Option A
  find_if [] = none
  find_if (x ∷ xs) = if test x then some x else find_if xs

  abbrev pub position : List A → Option ℕ
  position [] = none
  position (x ∷ xs) =
      if test x then some 0 else elim (position xs) [ none ↦ none | some i ↦ some (suc i) ]

  pub find_if-none :
      (xs : List A) (i : ℕ) {x : A} → find_if xs ≡ none → get_elem? xs i ≡ some x → test x ≡ false
  find_if-none [] i h at = cc
  find_if-none (y ∷ xs) zero {x} h at = elim (Bool-cases (test x)) [
    | inl good ↦ ground arith
    | inr bad ↦ bad
  ]
  find_if-none (y ∷ xs) (suc i) {x} h at = elim (Bool-cases (test y)) [
    | inl good ↦ ground arith
    | inr bad ↦ find_if-none xs i (ground arith) at
  ]

  -- what is found stands in the list and passes the test
  pub find_if_sound :
      (xs : List A) {x : A}
      → find_if xs ≡ some x
      → (test x ≡ true) × (i : ℕ) × (get_elem? xs i ≡ some x)
  find_if_sound [] h = cc
  find_if_sound (y ∷ xs) {x} h = elim (Bool-cases (test y)) [
    | inl good ↦ let same : y ≡ x = ground arith in (rw (← same) good, 0, ap some same)
    | inr bad ↦
        let (good, i, there) = find_if_sound xs {x = x} (ground arith) in (good, suc i, there)
  ]

  pub position_sound :
      (xs : List A) {i : ℕ}
      → position xs ≡ some i
      → (x : A) × (get_elem? xs i ≡ some x) × (test x ≡ true)
  position_sound [] h = cc
  position_sound (y ∷ xs) {i} h = elim (Bool-cases (test y)) [
    | inl good ↦ let first : i ≡ 0 = ground arith in (y, rw first refl, good)
    | inr bad ↦ elim (Option-cases (position xs)) [
      | inl nowhere ↦ ground arith
      | inr (j, there) ↦
          let (x, at, good) = position_sound xs there in
          let next : i ≡ suc j = ground arith in (x, rw next at, good)
    ]
  ]

  -- an element that passes the test has a position before it or at it
  pub position-some :
      (xs : List A) (i : ℕ) {x : A}
      → get_elem? xs i ≡ some x
      → test x ≡ true
      → (j : ℕ) × (position xs ≡ some j)
  position-some [] i h good = cc
  position-some (y ∷ xs) zero h good = (0, ground arith)
  position-some (y ∷ xs) (suc i) h good = elim (Bool-cases (test y)) [
    | inl first ↦ (0, ground arith)
    | inr bad ↦ let (j, there) = position-some xs i h good in (suc j, ground arith)
  ]

  -- an element that passes the test is kept, and what is kept passes it and was there
  pub get_elem?-keep_if :
      (xs : List A) (i : ℕ) {x : A}
      → get_elem? xs i ≡ some x
      → test x ≡ true
      → (j : ℕ) × (get_elem? (keep_if xs) j ≡ some x)
  get_elem?-keep_if [] i h good = cc
  get_elem?-keep_if (y ∷ xs) zero h good = (0, ground arith)
  get_elem?-keep_if (y ∷ xs) (suc i) h good =
      let (j, there) = get_elem?-keep_if xs i h good in
      elim (Bool-cases (test y)) [ inl first ↦ (suc j, ground arith) | inr bad ↦ (j, ground arith) ]

  pub keep_if_sound :
      (xs : List A) (j : ℕ) {x : A}
      → get_elem? (keep_if xs) j ≡ some x
      → (test x ≡ true) × (i : ℕ) × (get_elem? xs i ≡ some x)
  keep_if_sound [] j h = cc
  keep_if_sound (y ∷ xs) zero {x} h = elim (Bool-cases (test y)) [
    | inl first ↦ let same : y ≡ x = ground arith in (rw (← same) first, 0, ap some same)
    | inr bad ↦
        let (good, i, there) = keep_if_sound xs zero {x = x} (ground arith) in (good, suc i, there)
  ]
  keep_if_sound (y ∷ xs) (suc k) {x} h = elim (Bool-cases (test y)) [
    | inl first ↦
        let (good, i, there) = keep_if_sound xs k {x = x} (ground arith) in (good, suc i, there)
    | inr bad ↦
        let (good, i, there) = keep_if_sound xs (suc k) {x = x} (ground arith) in
        (good, suc i, there)
  ]

  -- where every element passes, all are kept
  pub keep_if_all :
      (xs : List A) → ((i : ℕ) (x : A) → get_elem? xs i ≡ some x → test x ≡ true) → keep_if xs ≡ xs
  keep_if_all [] h = refl
  keep_if_all (x ∷ xs) h =
      let first : test x ≡ true = h 0 x refl in
      let rest : keep_if xs ≡ xs = keep_if_all xs (λ i y at. h (suc i) y at) in ground arith
