-- ===== src/Money/Micro.antt =====
-- money_figure.go: the arithmetic on texts of micro-USDC, with the calls of math/big and strings.
use Prim.Native.Char.{Char, code}
use Prim.Native.String.{◌++◌ as str_append}
use arca_go_sdk.Prelude.{
  ℕ, zero, suc, ◌+◌, ◌-◌, ◌*◌, ◌/◌, ◌%◌, String, List, [], ◌∷◌, Option, none, some, Bool, true,
  false, not, ◌&&◌, if◌then◌else◌, leb, ltb, ◌==◌, str_eq, is_empty, trim_space,
}
use arca_go_sdk.Prelude.Int.{ℤ, pos, negsuc, ◌+ℤ◌, ◌-ℤ◌}
use arca_go_sdk.Client.Errors.{other, Result, ok, err}

abbrev pub is_digit : ℕ → Bool
is_digit c = leb b'0' c && leb c b'9'

unfoldable pub all_digits : String → Bool
all_digits String.[] = true
all_digits (String.◌∷◌ c s) = is_digit (code c) && all_digits s

-- The number that digits make after those of `acc`.
unfoldable pub digits_from : ℕ → String → ℕ
digits_from acc String.[] = acc
digits_from acc (String.◌∷◌ c s) = digits_from (acc * 10 + (code c - b'0')) s

abbrev pub neg_of : ℕ → ℤ
neg_of zero = pos 0
neg_of (suc n) = negsuc n

abbrev pub signed : Bool → ℕ → ℤ
signed negative n = if negative then neg_of n else pos n

unfoldable pub set_digits : Bool → String → Option ℤ
unfolding all_digits digits_from
set_digits negative s =
    if all_digits s && not (is_empty s) then some (signed negative (digits_from 0 s)) else none

-- `new(big.Int).SetString(s, 10)`: an optional sign and at least one digit, and nothing else.
unfoldable pub set_string : String → Option ℤ
unfolding set_digits
set_string String.[] = none
set_string (String.◌∷◌ c s) =
    if code c == b'-'
    then set_digits true s
    else if code c == b'+'
    then set_digits false s
    else set_digits false (String.◌∷◌ c s)

-- The digit of a number below ten.
unfoldable pub digit_char : ℕ → Char
digit_char zero = "0"
digit_char (suc zero) = "1"
digit_char (suc (suc zero)) = "2"
digit_char (suc (suc (suc zero))) = "3"
digit_char (suc (suc (suc (suc zero)))) = "4"
digit_char (suc (suc (suc (suc (suc zero))))) = "5"
digit_char (suc (suc (suc (suc (suc (suc zero)))))) = "6"
digit_char (suc (suc (suc (suc (suc (suc (suc zero))))))) = "7"
digit_char (suc (suc (suc (suc (suc (suc (suc (suc zero)))))))) = "8"
digit_char (suc (suc (suc (suc (suc (suc (suc (suc (suc n))))))))) = "9"

-- The decimal digits of `n` in front of a text; `n + 1` rounds are more than it has digits.
unfoldable pub print_digits : ℕ → ℕ → String → String
unfolding digit_char
print_digits zero n s = s
print_digits (suc fuel) n s =
    let rest = print_digits fuel (n / 10) (String.◌∷◌ (digit_char (n % 10)) s) in
    if ltb n 10 then String.◌∷◌ (digit_char n) s else rest

-- `n.String()` of a big.Int.
unfoldable pub int_string : ℤ → String
unfolding print_digits
int_string (pos n) = print_digits (suc n) n ""
int_string (negsuc n) = String.◌∷◌ "-" (print_digits (suc (suc n)) (suc n) "")

unfoldable pub micro_parse : String → Option ℤ
unfolding trim_space set_string
micro_parse raw = if str_eq (trim_space raw) "" then none else set_string (trim_space raw)

-- The loop of MicroSum: what is not an integer is passed over.
abbrev pub add_micro : ℤ → Option ℤ → ℤ
add_micro total (some n) = total +ℤ n
add_micro total none = total

unfoldable pub add_micros : ℤ → List String → ℤ
unfolding micro_parse
add_micros total [] = total
add_micros total (v ∷ vs) = add_micros (add_micro total (micro_parse v)) vs

unfoldable pub micro_sum : List String → String
unfolding add_micros int_string
micro_sum values = int_string (add_micros (pos 0) values)

unfoldable pub difference_of : Option ℤ → Option ℤ → Option String
unfolding int_string
difference_of (some x) (some y) = some (int_string (x -ℤ y))
difference_of _ _ = none

unfoldable pub micro_difference : String → String → Option String
unfolding micro_parse int_string
micro_difference a b = difference_of (micro_parse a) (micro_parse b)

-- `text[:i], text[i+1:]` at the first '.', and the whole text and nothing without one.
unfoldable pub cut_point : String → String × String
cut_point String.[] = ("", "")
cut_point (String.◌∷◌ c s) =
    let rest = cut_point s in if code c == b'.' then ("", s) else (String.◌∷◌ c rest.0, rest.1)

-- `(fraction + "000000")[:6]`, of a fraction of ASCII digits.
unfoldable pub pad_to : ℕ → String → String
pad_to zero s = ""
pad_to (suc k) String.[] = String.◌∷◌ "0" (pad_to k "")
pad_to (suc k) (String.◌∷◌ c s) = String.◌∷◌ c (pad_to k s)

unfoldable pub micro_of : Bool → String → String → ℤ
unfolding pad_to digits_from
micro_of negative whole fraction =
    signed negative (digits_from 0 whole * 1_000_000 + digits_from 0 (pad_to 6 fraction))

unfoldable pub from_parts : String → Bool → String × String → Result String
unfolding micro_of int_string all_digits
from_parts raw negative (whole, fraction) =
    if is_empty whole && is_empty fraction
    then err (other (str_append raw " is not a decimal"))
    else if all_digits whole && all_digits fraction
    then ok (int_string (micro_of negative whole fraction))
    else err (other (str_append raw " is not a decimal"))

unfoldable pub unsigned_or_signed : String → String → Result String
unfolding from_parts cut_point
unsigned_or_signed raw String.[] = err (other "arca: empty decimal")
unsigned_or_signed raw (String.◌∷◌ c s) =
    if code c == b'-'
    then from_parts raw true (cut_point s)
    else if code c == b'+'
    then from_parts raw false (cut_point s)
    else from_parts raw false (cut_point (String.◌∷◌ c s))

-- The texts of the errors are left out; an empty `whole` counts 0, as "0" does.
unfoldable pub micro_from_decimal : String → Result String
unfolding unsigned_or_signed trim_space
micro_from_decimal raw = unsigned_or_signed raw (trim_space raw)
