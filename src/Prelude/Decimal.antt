-- ===== src/Prelude/Decimal.antt =====
-- Decimal amounts. The type and its operations are the `rust_decimal` crate's, so the models take
-- them as an argument of this type, and its documented laws, where a theorem needs them, as another.
use mathlib.Core.Path.{◌≡◌}
use mathlib.Core.Bool.{Bool}
use mathlib.Core.Option.{Option, some}
use Prim.Native.String.{String}

pub record Decimal : Type 1 where
  pub Amount : Type 0
  pub zero : Amount
  pub add : Amount → Amount → Amount
  pub sub : Amount → Amount → Amount
  pub abs : Amount → Amount
  pub leb : Amount → Amount → Bool
  pub to_text : Amount → String
  pub parse : String → Option Amount

-- `parse` reads back what `to_string` writes
abbrev pub ParsesBack : Decimal → Type 0
ParsesBack dec = (a : dec.Amount) → dec.parse (dec.to_text a) ≡ some a
