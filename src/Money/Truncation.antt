-- ===== src/Money/Truncation.antt =====
-- money_figure.go: MicroFromDecimal on the texts of decimals.
use Prim.Native.Char.{Char, code}
use native.Mathlib.Nat.{le_refl, mul-le-mul}
use arca_go_sdk.Prelude.{
  ℕ, zero, suc, ◌+◌, ◌-◌, ◌*◌, ◌^◌, ◌≤◌, ◌<◌, ◌≡◌, refl, sym, ap, ◌∙◌, String, Bool, true, false,
  ◌&&◌, arith, ◌==◌, is_empty, size, trim_left, trim_right, trim_space,
}
use arca_go_sdk.Client.Errors.{ok}
use arca_go_sdk.Money.Decimals.{trim_right-digits, digit-not_space, digit-sign}
use arca_go_sdk.Money.Micro.{
  is_digit, all_digits, digits_from, pad_to, cut_point, micro_of, from_parts, unsigned_or_signed,
  micro_from_decimal, signed, int_string,
}

digit_value : (c : ℕ) → is_digit c ≡ true → c - 48 ≤ 9
digit_value c h = ground arith

and_parts : (a b : Bool) → a && b ≡ true → (a ≡ true) × (b ≡ true)
and_parts a b h = ground arith

digits_from-cons :
    (a : ℕ) (c : Char) (s : String)
    → digits_from a (String.◌∷◌ c s) ≡ digits_from (a * 10 + (code c - 48)) s
unfolding digits_from
digits_from-cons a c s = refl

pow_suc : (n : ℕ) → 10 ^ suc n ≡ 10 ^ n * 10
pow_suc n = omega arith

shift_step : (a d n : ℕ) → (a * 10 + d) * n ≡ a * (n * 10) + (0 * 10 + d) * n
shift_step a d n = grind arith

pow-size : (c : Char) (s : String) → 10 ^ size (String.◌∷◌ c s) ≡ 10 ^ size s * 10
unfolding size
pow-size c s = pow_suc (size s)

digits_from-shift : (a : ℕ) (s : String) → digits_from a s ≡ a * 10 ^ size s + digits_from 0 s
unfolding digits_from size
digits_from-shift a String.[] = omega arith
digits_from-shift a (String.◌∷◌ c s) = omega (
  arith,
  digits_from-cons a c s,
  digits_from-cons 0 c s,
  ap (λ k. a * k) (pow-size c s),
  shift_step a (code c - 48) (10 ^ size s),
  digits_from-shift (a * 10 + (code c - 48)) s,
  digits_from-shift (0 * 10 + (code c - 48)) s,
)

digits_from-bound : (s : String) → all_digits s ≡ true → digits_from 0 s < 10 ^ size s
unfolding all_digits digits_from size
digits_from-bound String.[] h = omega arith
digits_from-bound (String.◌∷◌ c s) h =
    let d : (is_digit (code c) ≡ true) × (all_digits s ≡ true) = and_parts _ _ h in
    omega (
      arith,
      digits_from-cons 0 c s,
      pow-size c s,
      digits_from-shift (0 * 10 + (code c - 48)) s,
      digits_from-bound s d.1,
      digit_value (code c) d.0,
      mul-le-mul (le_refl (10 ^ size s)) (digit_value (code c) d.0),
    )

size-pad_to : (k : ℕ) (s : String) → size (pad_to k s) ≡ k
unfolding size pad_to
size-pad_to zero s = refl
size-pad_to (suc k) String.[] = ap suc (size-pad_to k "")
size-pad_to (suc k) (String.◌∷◌ c s) = ap suc (size-pad_to k s)

abbrev Floor : ℕ → ℕ → ℕ → ℕ → Type 0
Floor p n v k = (p * n ≤ v * k) × (v * k < (p + 1) * n)

Floor-whole : (a n v w : ℕ) → v ≡ a * n + w → w < n → Floor a n v 1
Floor-whole a n v w e h = grind arith

Floor-zero : (p v k : ℕ) → Floor p 1 (v * 10 + 0) k → Floor p 1 v (k * 10)
Floor-zero p v k h = grind arith

Floor-digit : (p n v k : ℕ) → Floor p n v k → Floor p (n * 10) v (k * 10)
Floor-digit p n v k h = grind arith

-- The digits that are kept, with zeros where there are fewer, are the value rounded down.
pad_to-Floor :
    (k a : ℕ) (s : String)
    → all_digits s ≡ true
    → Floor (digits_from a (pad_to k s)) (10 ^ size s) (digits_from a s) (10 ^ k)
unfolding pad_to digits_from all_digits size
pad_to-Floor zero a s h =
    Floor-whole a (10 ^ size s) (digits_from a s) (digits_from 0 s) (digits_from-shift a s)
      (digits_from-bound s h)
pad_to-Floor (suc k) a String.[] h = rw (pow_suc k) (
    Floor-zero (digits_from (a * 10 + 0) (pad_to k "")) a (10 ^ k)
      (pad_to-Floor k (a * 10 + 0) "" h))
pad_to-Floor (suc k) a (String.◌∷◌ c s) h =
    rw (pow_suc k, pow-size c s)
      (Floor-digit _ _ _ _ (pad_to-Floor k (a * 10 + (code c - 48)) s (and_parts _ _ h).1))

unfoldable with_point : String → String → String
with_point String.[] f = String.◌∷◌ "." f
with_point (String.◌∷◌ c w) f = String.◌∷◌ c (with_point w f)

-- What may stand before the digits.
pub data Mark : Type 0 where
  bare plus minus : Mark

unfoldable pub is_negative : Mark → Bool
is_negative Mark.minus = true
is_negative _ = false

-- The decimal text of a sign or none, digits, a point and digits.
unfoldable pub decimal_text : Mark → String → String → String
unfolding with_point
decimal_text Mark.bare w f = with_point w f
decimal_text Mark.plus w f = String.◌∷◌ "+" (with_point w f)
decimal_text Mark.minus w f = String.◌∷◌ "-" (with_point w f)

digit-point : (c : ℕ) → is_digit c ≡ true → (c == b'.') ≡ false
digit-point c h = ground arith

cut_point-with_point : (w f : String) → all_digits w ≡ true → cut_point (with_point w f) ≡ (w, f)
unfolding cut_point with_point all_digits
cut_point-with_point String.[] f h = refl
cut_point-with_point (String.◌∷◌ c w) f h =
    let d = and_parts _ _ h in rw (digit-point (code c) d.0, cut_point-with_point w f d.1) refl

trim_right-with_point :
    (w f : String)
    → all_digits w ≡ true
    → all_digits f ≡ true
    → trim_right (with_point w f) ≡ with_point w f
unfolding trim_right with_point all_digits
trim_right-with_point String.[] f hw hf = rw (trim_right-digits f hf) refl
trim_right-with_point (String.◌∷◌ c w) f hw hf =
    let d = and_parts _ _ hw in
    rw (trim_right-with_point w f d.1 hf, digit-not_space (code c) d.0) refl

trim_space-decimal_text :
    (mark : Mark) (w f : String)
    → all_digits w ≡ true
    → all_digits f ≡ true
    → trim_space (decimal_text mark w f) ≡ decimal_text mark w f
unfolding trim_space trim_left decimal_text trim_right all_digits
trim_space-decimal_text Mark.minus w f hw hf = rw (trim_right-with_point w f hw hf) refl
trim_space-decimal_text Mark.plus w f hw hf = rw (trim_right-with_point w f hw hf) refl
trim_space-decimal_text Mark.bare String.[] f hw hf = trim_right-with_point "" f hw hf
trim_space-decimal_text Mark.bare (String.◌∷◌ c w) f hw hf =
    rw (digit-not_space (code c) (and_parts _ _ hw).0)
      (trim_right-with_point (String.◌∷◌ c w) f hw hf)

unsigned_or_signed-decimal_text :
    (raw : String) (mark : Mark) (w f : String)
    → all_digits w ≡ true
    → unsigned_or_signed raw (decimal_text mark w f) ≡ from_parts raw (is_negative mark) (w, f)
unfolding unsigned_or_signed decimal_text is_negative all_digits cut_point
unsigned_or_signed-decimal_text raw Mark.minus w f hw =
    ap (from_parts raw true) (cut_point-with_point w f hw)
unsigned_or_signed-decimal_text raw Mark.plus w f hw =
    ap (from_parts raw false) (cut_point-with_point w f hw)
unsigned_or_signed-decimal_text raw Mark.bare String.[] f hw = refl
unsigned_or_signed-decimal_text raw Mark.bare (String.◌∷◌ c w) f hw =
    let n = digit-sign (code c) (and_parts _ _ hw).0 in
    rw (n.0, n.1) (ap (from_parts raw false) (cut_point-with_point (String.◌∷◌ c w) f hw))

-- MicroFromDecimal takes a minus, a plus or no sign, digits, a point and digits, at least one digit
-- among them, and prints millionths of the number, rounded towards zero; only a minus makes it negative.
pub micro_from_decimal_lem :
    (mark : Mark) (w f : String)
    → all_digits w ≡ true
    → all_digits f ≡ true
    → is_empty w && is_empty f ≡ false
    → (n : ℕ) × (micro_from_decimal (decimal_text mark w f)
        ≡ ok (int_string (signed (is_negative mark) n)))
      × (n * 10 ^ size f ≤ digits_from (digits_from 0 w) f * 1_000_000)
      × (digits_from (digits_from 0 w) f * 1_000_000 < (n + 1) * 10 ^ size f)
unfolding micro_from_decimal from_parts micro_of
micro_from_decimal_lem mark w f hw hf he = (
  digits_from (digits_from 0 w) (pad_to 6 f),
  ap (unsigned_or_signed (decimal_text mark w f)) (trim_space-decimal_text mark w f hw hf)
      ∙ unsigned_or_signed-decimal_text (decimal_text mark w f) mark w f hw
      ∙ rw (he, hw, hf, micros) refl,
  (pad_to-Floor 6 (digits_from 0 w) f hf).0,
  (pad_to-Floor 6 (digits_from 0 w) f hf).1,
)
  where
    micros :
        digits_from 0 w * 1_000_000 + digits_from 0 (pad_to 6 f)
        ≡ digits_from (digits_from 0 w) (pad_to 6 f)
    micros =
        ap (λ k. digits_from 0 w * 10 ^ k + digits_from 0 (pad_to 6 f)) (sym (size-pad_to 6 f))
        ∙ sym (digits_from-shift (digits_from 0 w) (pad_to 6 f))
