-- ===== src/Tests/Common.antt =====
-- Concrete instances of what the crates give: a one-byte hash, hexadecimal text, JSON objects of
-- texts, and whole amounts written in unary.
use Prim.Native.Char.{code}
use ussd_polyglot.Prelude.{
  ℕ, zero, suc, ◌+◌, ◌-◌, ◌*◌, ◌/◌, ◌%◌, ◌≡◌, refl, ap, Bool, ◌&&◌, Option, none, some, List, [],
  ◌∷◌, String, if◌then◌else◌, leb, ◌==◌, ◌>>=◌, codes, Bytes, ◌<>◌,
}
use ussd_polyglot.Prelude.Int.{ℤ, pos, negsuc, ◌+ℤ◌, ◌-ℤ◌, abs, leb_ℤ}
use ussd_polyglot.Prelude.Decimal.{Decimal, ParsesBack}
use ussd_polyglot.Prelude.Dict.{Dict, string_key, lookup}
use ussd_polyglot.Session.State.{Json}

abbrev pub checksum : ℕ → Bytes → ℕ
checksum n [] = n % 256
checksum n (b ∷ bs) = checksum (31 * n + b + 1) bs

abbrev pub toy_sha256 : Bytes → Bytes
toy_sha256 bytes = checksum 7 bytes ∷ []

abbrev pub digits : List String
digits =
    "0" ∷ "1" ∷ "2" ∷ "3" ∷ "4" ∷ "5" ∷ "6" ∷ "7" ∷ "8" ∷ "9" ∷ "a" ∷ "b" ∷ "c" ∷ "d" ∷ "e" ∷ "f"
    ∷ []

abbrev pub nth_or_blank : List String → ℕ → String
nth_or_blank [] n = ""
nth_or_blank (s ∷ ss) zero = s
nth_or_blank (s ∷ ss) (suc n) = nth_or_blank ss n

abbrev pub hex_digit : ℕ → String
hex_digit n = nth_or_blank digits n

abbrev pub to_hex : Bytes → String
to_hex [] = ""
to_hex (b ∷ bs) = hex_digit (b / 16) <> hex_digit (b % 16) <> to_hex bs

abbrev pub nibble : ℕ → Option ℕ
nibble c =
    if leb b'0' c && leb c b'9'
    then some (c - b'0')
    else if leb b'a' c && leb c b'f'
    then some (c - b'a' + 10)
    else none

abbrev pub from_nibbles : List ℕ → Option Bytes
from_nibbles [] = some []
from_nibbles (c ∷ []) = none
from_nibbles (c ∷ d ∷ cs) = do
  high ← nibble c
  low ← nibble d
  rest ← from_nibbles cs
  some ((16 * high + low) ∷ rest)

abbrev pub from_hex : String → Option Bytes
from_hex s = from_nibbles (codes s)

abbrev pub object_text : Dict String String → String
object_text [] = ""
object_text ((k, v) ∷ members) = k <> ":" <> v <> "," <> object_text members

abbrev pub objects : Json
objects = record { Value = Dict String String; get_str = λ v k. lookup k v; to_text = object_text }

abbrev pub seal : String → String
seal text = "#" <> text

abbrev pub instant : ℕ → String
instant n = hex_digit (n % 16)

abbrev pub unary : ℕ → String
unary zero = ""
unary (suc n) = String.◌∷◌ "i" (unary n)

abbrev pub unary_length : String → ℕ
unary_length String.[] = 0
unary_length (String.◌∷◌ c s) = suc (unary_length s)

abbrev pub whole_text : ℤ → String
whole_text (pos n) = unary n
whole_text (negsuc n) = String.◌∷◌ "-" (unary n)

abbrev pub parse_whole : String → Option ℤ
parse_whole String.[] = some (pos 0)
parse_whole (String.◌∷◌ c s) =
    if code c == b'-' then some (negsuc (unary_length s)) else some (pos (suc (unary_length s)))

abbrev pub wholes : Decimal
wholes = record {
  Amount = ℤ;
  zero = pos 0;
  add = ◌+ℤ◌;
  sub = ◌-ℤ◌;
  abs = abs;
  leb = leb_ℤ;
  to_text = whole_text;
  parse = parse_whole;
}

unary_length-unary : (n : ℕ) → unary_length (unary n) ≡ n
unary_length-unary zero = refl
unary_length-unary (suc n) = ap suc (unary_length-unary n)

pub wholes-ParsesBack : ParsesBack wholes
wholes-ParsesBack (pos zero) = refl
wholes-ParsesBack (pos (suc n)) = ap (λ m. some (pos (suc m))) (unary_length-unary n)
wholes-ParsesBack (negsuc n) = ap (λ m. some (negsuc m)) (unary_length-unary n)

abbrev pub is_ascii_digit : ℕ → Bool
is_ascii_digit c = leb b'0' c && leb c b'9'
