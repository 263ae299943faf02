-- ===== src/Projection/Rational.antt =====
-- math/big: the rationals that accounting_pending.go computes with, as fractions over native numbers.
use arca_go_sdk.Prelude.{
  ℕ, zero, suc, ◌+◌, ◌*◌, ◌/◌, ◌%◌, ◌^◌, String, Bool, true, false, ◌&&◌, if◌then◌else◌, leb, ◌==◌,
  is_empty,
}
use Prim.Native.Char.{code}
use Prim.Native.String.{◌++◌ as str_append}
use arca_go_sdk.Prelude.Int.{ℤ, pos, negsuc, ◌+ℤ◌}
use arca_go_sdk.Execution.Decimal.{float_string}

-- `num / den`, where the denominator is not zero. It need not be in lowest terms, which shows in no
-- function below.
pub record Rat : Type 0 where
  pub num : ℤ
  pub den : ℕ

abbrev pub rat_zero : Rat
rat_zero = record { num = pos 0; den = 1 }

-- `Sign()`, which is -1, 0 or 1.
pub data Sign : Type 0 where
  negative_sign : Sign
  zero_sign : Sign
  positive_sign : Sign

unfoldable pub sign_ℤ : ℤ → Sign
sign_ℤ (pos zero) = Sign.zero_sign
sign_ℤ (pos (suc n)) = Sign.positive_sign
sign_ℤ (negsuc n) = Sign.negative_sign

abbrev pub sign : Rat → Sign
sign r = sign_ℤ r.num

abbrev pub is_none : Sign → Bool
is_none Sign.zero_sign = true
is_none _ = false

abbrev pub is_plus : Sign → Bool
is_plus Sign.positive_sign = true
is_plus _ = false

abbrev pub is_minus : Sign → Bool
is_minus Sign.negative_sign = true
is_minus _ = false

abbrev pub same_sign : Sign → Sign → Bool
same_sign Sign.negative_sign s = is_minus s
same_sign Sign.zero_sign s = is_none s
same_sign Sign.positive_sign s = is_plus s

unfoldable pub minus_ℕ : ℕ → ℤ
minus_ℕ zero = pos 0
minus_ℕ (suc n) = negsuc n

unfoldable pub negated : ℤ → ℤ
unfolding minus_ℕ
negated (pos n) = minus_ℕ n
negated (negsuc n) = pos (suc n)

-- An integer by a natural number.
unfoldable pub scaled : ℤ → ℕ → ℤ
unfolding minus_ℕ
scaled (pos n) k = pos (n * k)
scaled (negsuc n) k = minus_ℕ (suc n * k)

unfoldable pub magnitude : ℤ → ℕ
magnitude (pos n) = n
magnitude (negsuc n) = suc n

-- `Neg`, `Abs` and `Add`.
unfoldable pub neg : Rat → Rat
unfolding negated
neg r = record r { num = negated r.num }

unfoldable pub abs : Rat → Rat
unfolding magnitude
abs r = record r { num = pos (magnitude r.num) }

unfoldable pub add : Rat → Rat → Rat
unfolding ◌+ℤ◌ scaled
add a b = record { num = scaled a.num b.den +ℤ scaled b.num a.den; den = a.den * b.den }

-- `Mul` and `Quo` by a number that is not negative.
unfoldable pub mul : Rat → Rat → Rat
unfolding scaled magnitude
mul a b = record { num = scaled a.num (magnitude b.num); den = a.den * b.den }

unfoldable pub quo : Rat → Rat → Rat
unfolding scaled magnitude
quo a b = record { num = scaled a.num b.den; den = a.den * magnitude b.num }

-- The quotient to the nearest unit, halves away from zero, as `FloatString` rounds.
unfoldable pub rounded : ℕ → ℕ → ℕ
rounded n d = n / d + (if leb d (2 * (n % d)) then 1 else 0)

-- strings.TrimRight(s, "0")
unfoldable pub trim_zeros : String → String
trim_zeros String.[] = ""
trim_zeros (String.◌∷◌ c s) =
    let rest = trim_zeros s in if code c == b'0' && is_empty rest then "" else String.◌∷◌ c rest

abbrev is_point : ℕ → String → Bool
is_point c s = c == b'.' && is_empty s

-- strings.TrimSuffix(s, ".")
unfoldable pub trim_point : String → String
trim_point String.[] = ""
trim_point (String.◌∷◌ c s) =
    let rest = trim_point s in if is_point (code c) s then "" else String.◌∷◌ c rest

abbrev signed_text : ℤ → String → String
signed_text (pos n) s = s
signed_text (negsuc n) s = str_append "-" s

-- The text of a fraction of this sign that is whole or not: from its whole part, or from the units of
-- the eighteenth decimal.
unfoldable pub decimal_text : ℤ → Bool → ℕ → ℕ → String
unfolding trim_zeros trim_point float_string
decimal_text num whole quotient units =
    if whole
    then signed_text num (float_string 0 quotient)
    else trim_point (trim_zeros (signed_text num (float_string 18 units)))

unfoldable pub rat_decimal : Rat → String
unfolding decimal_text magnitude rounded
rat_decimal r =
    decimal_text r.num (magnitude r.num % r.den == 0) (magnitude r.num / r.den)
      (rounded (magnitude r.num * 10 ^ 18) r.den)
