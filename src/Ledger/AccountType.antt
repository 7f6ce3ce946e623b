-- ===== src/Ledger/AccountType.antt =====
-- The codes of `AccountType` in rust-engine/ledger-query-service/src/domain/account.rs.
use ussd_polyglot.Prelude.{◌≡◌, refl, Option, none, some, if◌then◌else◌, arith}
use ussd_polyglot.Prelude.Int.{ℤ, pos, eq_ℤ, eq_ℤ_sound}
use ussd_polyglot.Ledger.Inverse.{AreInverse}

pub data AccountType : Type 0 where
  unspecified customer float commission escrow suspense merchant aggregator provider : AccountType

unfoldable pub as_i32 : AccountType → ℤ
as_i32 unspecified = pos 0
as_i32 customer = pos 1
as_i32 float = pos 2
as_i32 commission = pos 3
as_i32 escrow = pos 4
as_i32 suspense = pos 5
as_i32 merchant = pos 6
as_i32 aggregator = pos 7
as_i32 provider = pos 8

unfoldable pub from_i32 : ℤ → Option AccountType
from_i32 v =
    if eq_ℤ v (pos 0)
    then some unspecified
    else if eq_ℤ v (pos 1)
    then some customer
    else if eq_ℤ v (pos 2)
    then some float
    else if eq_ℤ v (pos 3)
    then some commission
    else if eq_ℤ v (pos 4)
    then some escrow
    else if eq_ℤ v (pos 5)
    then some suspense
    else if eq_ℤ v (pos 6)
    then some merchant
    else if eq_ℤ v (pos 7)
    then some aggregator
    else if eq_ℤ v (pos 8)
    then some provider
    else none

from_i32-as_i32 : (x : AccountType) → from_i32 (as_i32 x) ≡ some x
unfolding from_i32 as_i32
from_i32-as_i32 unspecified = refl
from_i32-as_i32 customer = refl
from_i32-as_i32 float = refl
from_i32-as_i32 commission = refl
from_i32-as_i32 escrow = refl
from_i32-as_i32 suspense = refl
from_i32-as_i32 merchant = refl
from_i32-as_i32 aggregator = refl
from_i32-as_i32 provider = refl

as_i32-from_i32 : (v : ℤ) (x : AccountType) → from_i32 v ≡ some x → as_i32 x ≡ v
unfolding from_i32 as_i32
as_i32-from_i32 v x h = ground (
  arith,
  eq_ℤ_sound v (pos 0),
  eq_ℤ_sound v (pos 1),
  eq_ℤ_sound v (pos 2),
  eq_ℤ_sound v (pos 3),
  eq_ℤ_sound v (pos 4),
  eq_ℤ_sound v (pos 5),
  eq_ℤ_sound v (pos 6),
  eq_ℤ_sound v (pos 7),
  eq_ℤ_sound v (pos 8),
)

pub account_type_inverse : AreInverse as_i32 from_i32
account_type_inverse = (from_i32-as_i32, as_i32-from_i32)
