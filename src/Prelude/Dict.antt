-- ===== src/Prelude/Dict.antt =====
-- Hash maps as association lists, over any type of keys with a Boolean equality; and that equality
-- for texts and numbers.
use Prim.Native.Nat.{ℕ}
use Prim.Native.String.{String}
use mathlib.Core.Path.{◌≡◌, refl}
use mathlib.Core.Bool.{Bool, true, false}
use mathlib.Core.Option.{Option, none, some}
use mathlib.Core.List.{List, [], ◌∷◌}
use native.Mathlib.Omega.{arith}
use ussd_polyglot.Prelude.Tests.{◌==◌, if◌then◌else◌}
use ussd_polyglot.Prelude.Text.{str_eq, str_eq_iff}

pub record KeyEq {ℓ} (K : Type ℓ) : Type ℓ where
  pub beq : K → K → Bool
  pub beq_sound : (a b : K) → beq a b ≡ true → a ≡ b
  pub beq_refl : (a : K) → beq a a ≡ true

pub nat_sound : (a b : ℕ) → (a == b) ≡ true → a ≡ b
nat_sound a b h = ground arith

pub nat_refl : (a : ℕ) → (a == a) ≡ true
nat_refl a = ground arith

pub str_eq_sound : (a b : String) → str_eq a b ≡ true → a ≡ b
str_eq_sound a b = (str_eq_iff a b).0

pub str_eq_refl : (a : String) → str_eq a a ≡ true
str_eq_refl a = (str_eq_iff a a).1 refl

instance abbrev pub nat_key : KeyEq ℕ
nat_key = record { beq = ◌==◌; beq_sound = nat_sound; beq_refl = nat_refl }

instance abbrev pub string_key : KeyEq String
string_key = record { beq = str_eq; beq_sound = str_eq_sound; beq_refl = str_eq_refl }

abbrev pub Dict {ℓ κ} : Type ℓ → Type κ → Type (ℓ ⊔ κ)
Dict K V = List (K × V)

module _ {ℓ κ} {K : Type ℓ} {V : Type κ} ⦃e : KeyEq K⦄ where
  -- `map.get(&k)`
  unfoldable pub lookup : K → Dict K V → Option V
  lookup k [] = none
  lookup k ((j, v) ∷ d) = if e.beq j k then some v else lookup k d

  -- `map.insert(k, v)`
  unfoldable pub insert : K → V → Dict K V → Dict K V
  insert k v [] = (k, v) ∷ []
  insert k v ((j, w) ∷ d) = if e.beq j k then (k, v) ∷ d else (j, w) ∷ insert k v d

  pub lookup-insert :
      (k j : K) (v : V) (d : Dict K V)
      → lookup j (insert k v d) ≡ (if e.beq k j then some v else lookup j d)
  unfolding lookup insert
  lookup-insert k j v [] = refl
  lookup-insert k j v ((i, w) ∷ d) = ground (
    arith,
    e.beq_sound i k,
    e.beq_sound k j,
    e.beq_sound i j,
    e.beq_refl k,
    lookup-insert k j v d,
  )

-- pairs of numbers as keys
abbrev pub pair_beq : ℕ × ℕ → ℕ × ℕ → Bool
pair_beq (a, b) (c, d) = if a == c then b == d else false

pub pair_sound : (p q : ℕ × ℕ) → pair_beq p q ≡ true → p ≡ q
pair_sound (a, b) (c, d) h = ground arith

pub pair_refl : (p : ℕ × ℕ) → pair_beq p p ≡ true
pair_refl (a, b) = ground arith

instance abbrev pub pair_key : KeyEq (ℕ × ℕ)
pair_key = record { beq = pair_beq; beq_sound = pair_sound; beq_refl = pair_refl }
