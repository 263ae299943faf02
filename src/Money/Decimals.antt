-- ===== src/Money/Decimals.antt =====
-- money_figure.go: what the texts of micro-USDC stand for, read back and printed.
use Prim.Native.Char.{Char, code}
use mathlib.Core.Bool.{false≢true}
use arca_go_sdk.Prelude.{
  ℕ, zero, suc, ◌+◌, ◌/◌, ◌%◌, ◌≤◌, ◌<◌, ◌≡◌, refl, ap, ◌∙◌, String, some, Bool, true, false, not,
  ◌&&◌, ltb, ◌==◌, inl, inr, arith, Bool-cases, str_eq, eq_iff, is_empty, is_space, trim_left,
  trim_right, trim_space,
}
use arca_go_sdk.Prelude.Int.{ℤ, pos, negsuc}
use arca_go_sdk.Money.Micro.{
  is_digit, all_digits, digits_from, set_digits, set_string, digit_char, print_digits, int_string,
  micro_parse, signed,
}

lt_of_ltb : (a b : ℕ) → ltb a b ≡ true → a < b
lt_of_ltb a b h = ground arith

le_of_not_ltb : (a b : ℕ) → ltb a b ≡ false → b ≤ a
le_of_not_ltb a b h = ground arith

code-digit_char : (n : ℕ) → n < 10 → code (digit_char n) ≡ 48 + n
unfolding digit_char
code-digit_char zero h = refl
code-digit_char (suc zero) h = refl
code-digit_char (suc (suc zero)) h = refl
code-digit_char (suc (suc (suc zero))) h = refl
code-digit_char (suc (suc (suc (suc zero)))) h = refl
code-digit_char (suc (suc (suc (suc (suc zero))))) h = refl
code-digit_char (suc (suc (suc (suc (suc (suc zero)))))) h = refl
code-digit_char (suc (suc (suc (suc (suc (suc (suc zero))))))) h = refl
code-digit_char (suc (suc (suc (suc (suc (suc (suc (suc zero)))))))) h = refl
code-digit_char (suc (suc (suc (suc (suc (suc (suc (suc (suc zero))))))))) h = refl
code-digit_char (suc (suc (suc (suc (suc (suc (suc (suc (suc (suc n)))))))))) h =
    absurd (omega arith)

digits_from-print_digits :
    (fuel n : ℕ) (s : String) → n < fuel → digits_from 0 (print_digits fuel n s) ≡ digits_from n s
unfolding print_digits digits_from
digits_from-print_digits zero n s h = absurd (omega arith)
digits_from-print_digits (suc fuel) n s h = elim (Bool-cases (ltb n 10)) [
  | inl small ↦
      rw small (ap (λ k. digits_from k s) (omega (arith, code-digit_char n (lt_of_ltb n 10 small))))
  | inr large ↦ rw large (
      digits_from-print_digits fuel (n / 10) (String.◌∷◌ (digit_char (n % 10)) s)
        (omega (arith, le_of_not_ltb n 10 large))
      ∙ ap (λ k. digits_from k s) (omega (arith, code-digit_char (n % 10) (omega arith))))
]

all_digits-print_digits :
    (fuel n : ℕ) (s : String)
    → n < fuel
    → all_digits s ≡ true
    → all_digits (print_digits fuel n s) && not (is_empty (print_digits fuel n s)) ≡ true
unfolding print_digits all_digits
all_digits-print_digits zero n s h d = absurd (omega arith)
all_digits-print_digits (suc fuel) n s h d = elim (Bool-cases (ltb n 10)) [
  | inl small ↦ rw small (ground (arith, code-digit_char n (lt_of_ltb n 10 small), d))
  | inr large ↦ rw large (
      all_digits-print_digits fuel (n / 10) (String.◌∷◌ (digit_char (n % 10)) s)
        (omega (arith, le_of_not_ltb n 10 large))
        (ground (arith, code-digit_char (n % 10) (omega arith), d)))
]

and_left : (a b : Bool) → a && b ≡ true → a ≡ true
and_left a b h = ground arith

pub digit-not_space : (c : ℕ) → is_digit c ≡ true → is_space c ≡ false
digit-not_space c h = ground arith

pub trim_right-digits : (s : String) → all_digits s ≡ true → trim_right s ≡ s
unfolding trim_right all_digits
trim_right-digits String.[] h = refl
trim_right-digits (String.◌∷◌ c s) h =
    rw (trim_right-digits s (ground (arith, h)), digit-not_space (code c) (and_left _ _ h)) refl

trim_space-digits :
    (c : Char) (s : String)
    → all_digits (String.◌∷◌ c s) ≡ true
    → trim_space (String.◌∷◌ c s) ≡ String.◌∷◌ c s
unfolding trim_space trim_left all_digits
trim_space-digits c s h =
    rw (digit-not_space (code c) (and_left _ _ h)) (trim_right-digits (String.◌∷◌ c s) h)

trim_space-minus :
    (s : String) → all_digits s ≡ true → trim_space (String.◌∷◌ "-" s) ≡ String.◌∷◌ "-" s
unfolding trim_space trim_left trim_right
trim_space-minus s h = rw (trim_right-digits s h) refl

cons-not_empty : (c : Char) (s : String) → str_eq (String.◌∷◌ c s) "" ≡ false
cons-not_empty c s = elim (Bool-cases (str_eq (String.◌∷◌ c s) "")) [
  | inl e ↦ absurd (false≢true (ap is_empty ((eq_iff (String.◌∷◌ c s) "").0 e)))
  | inr e ↦ e
]

pub digit-sign : (c : ℕ) → is_digit c ≡ true → ((c == b'-') ≡ false) × ((c == b'+') ≡ false)
digit-sign c h = ground arith

micro_parse-trimmed :
    (c : Char) (s : String)
    → trim_space (String.◌∷◌ c s) ≡ String.◌∷◌ c s
    → micro_parse (String.◌∷◌ c s) ≡ set_string (String.◌∷◌ c s)
unfolding micro_parse
micro_parse-trimmed c s h = rw (h, cons-not_empty c s) refl

first_digit :
    (c : Char) (s : String) → all_digits (String.◌∷◌ c s) ≡ true → is_digit (code c) ≡ true
unfolding all_digits
first_digit c s d = and_left _ _ d

-- Digits, with or without a minus, are read as they stand.
micro_parse-digits :
    (s : String)
    → all_digits s && not (is_empty s) ≡ true
    → micro_parse s ≡ some (pos (digits_from 0 s))
unfolding set_string set_digits
micro_parse-digits String.[] h = absurd (ground (arith, h))
micro_parse-digits (String.◌∷◌ c s) h =
    let d : all_digits (String.◌∷◌ c s) ≡ true = and_left _ _ h in
    let n = digit-sign (code c) (first_digit c s d) in
    micro_parse-trimmed c s (trim_space-digits c s d) ∙ rw (n.0, n.1, d) refl

micro_parse-minus :
    (s : String)
    → all_digits s && not (is_empty s) ≡ true
    → micro_parse (String.◌∷◌ "-" s) ≡ some (signed true (digits_from 0 s))
unfolding set_string set_digits
micro_parse-minus s h = micro_parse-trimmed "-" s (trim_space-minus s (and_left _ _ h)) ∙ rw h refl

-- What MicroSum prints, it reads back.
pub micro_parse-int_string : (z : ℤ) → micro_parse (int_string z) ≡ some z
unfolding int_string all_digits digits_from
micro_parse-int_string (pos n) =
    micro_parse-digits _ (all_digits-print_digits (suc n) n "" (omega arith) refl)
    ∙ ap (λ k. some (pos k)) (digits_from-print_digits (suc n) n "" (omega arith))
micro_parse-int_string (negsuc n) =
    micro_parse-minus _ (all_digits-print_digits (suc (suc n)) (suc n) "" (omega arith) refl)
    ∙ ap (λ k. some (signed true k))
        (digits_from-print_digits (suc (suc n)) (suc n) "" (omega arith))
