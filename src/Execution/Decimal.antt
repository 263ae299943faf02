-- ===== src/Execution/Decimal.antt =====
-- operation.go: the decimal texts of sizes, which are compared as exact fractions.
use Prim.Native.Char.{code}
use arca_go_sdk.Prelude.{
  ℕ, zero, suc, ◌+◌, ◌-◌, ◌*◌, ◌/◌, ◌%◌, ◌^◌, String, Option, none, some, Bool, not, ◌&&◌,
  if◌then◌else◌, leb, ltb, ◌==◌, is_empty, size,
}
use arca_go_sdk.Money.Micro.{all_digits, digits_from, digit_char, print_digits}

-- The text before the first point, and the text behind it if there is a point.
unfoldable pub split_point : String → String × Option String
split_point String.[] = ("", none)
split_point (String.◌∷◌ c s) =
    let rest = split_point s in
    if code c == b'.' then ("", some s) else (String.◌∷◌ c rest.0, rest.1)

-- A fraction `units / 10 ^ scale`, as big.Rat has it for a decimal text.
pub record Decimal : Type 0 where
  pub units : ℕ
  pub scale : ℕ

unfoldable pub some_digits : String → Bool
unfolding all_digits
some_digits s = all_digits s && not (is_empty s)

decimal_of : String × Option String → Option Decimal
unfolding some_digits digits_from size
decimal_of (whole, none) =
    if some_digits whole then some (record { units = digits_from 0 whole; scale = 0 }) else none
decimal_of (whole, some fraction) =
    if some_digits whole && some_digits fraction
    then some (record { units = digits_from (digits_from 0 whole) fraction; scale = size fraction })
    else none

-- `executionDecimal` and `SetString`: the text matches `^[0-9]+(?:\.[0-9]+)?$`, and this is its value.
unfoldable pub execution_decimal : String → Option Decimal
unfolding decimal_of split_point
execution_decimal text = decimal_of (split_point text)

unfoldable pub is_zero : Decimal → Bool
is_zero d = d.units == 0

-- `a.Cmp(b) < 0`, `<= 0` and `== 0`.
unfoldable pub below : Decimal → Decimal → Bool
below a b = ltb (a.units * 10 ^ b.scale) (b.units * 10 ^ a.scale)

unfoldable pub same_value : Decimal → Decimal → Bool
same_value a b = (a.units * 10 ^ b.scale) == (b.units * 10 ^ a.scale)

unfoldable pub plus : Decimal → Decimal → Decimal
plus a b = record {
  units = a.units * 10 ^ b.scale + b.units * 10 ^ a.scale;
  scale = a.scale + b.scale;
}

unfoldable pub larger : ℕ → ℕ → ℕ
larger m n = if leb n m then m else n

-- The last `k` digits of `n`, in front of a text.
unfoldable pub last_digits : ℕ → ℕ → String → String
unfolding digit_char
last_digits zero n s = s
last_digits (suc k) n s = last_digits k (n / 10) (String.◌∷◌ (digit_char (n % 10)) s)

-- `FloatString(scale)` of a fraction that is a number of units of that scale.
unfoldable pub float_string : ℕ → ℕ → String
unfolding print_digits last_digits
float_string zero n = print_digits (suc n) n ""
float_string (suc k) n =
    print_digits (suc (n / 10 ^ suc k)) (n / 10 ^ suc k) (String.◌∷◌ "." (last_digits (suc k) n ""))

-- `Sub(a, b)` in units of a scale that is at least both scales, where `a` is at least `b`.
unfoldable pub units_at : ℕ → Decimal → ℕ
units_at scale d = d.units * 10 ^ (scale - d.scale)

unfoldable pub minus_string : ℕ → Decimal → Decimal → String
unfolding float_string units_at
minus_string scale a b = float_string scale (units_at scale a - units_at scale b)
