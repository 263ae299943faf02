-- ===== src/Cosign/Coding.antt =====
-- cosign.go: hexadecimal texts and the numbers of words read back.
use Prim.Native.Char.{Char, code}
use Prim.Native.String.compare
use text.Mathlib.Text.{is_eq}
use mathlib.Core.Bool.{false≢true}
use arca_go_sdk.Prelude.{
  ℕ, zero, suc, ◌/◌, ◌%◌, ◌<◌, ◌≡◌, refl, sym, ap, ◌∙◌, String, List, [], ◌∷◌, All, Option, none,
  some, Bool, true, false, not, ◌&&◌, is_some_of, ==_iff, ◌==◌, str_eq, inl, inr, Bool-cases,
  upper_char, to_upper, arith, is_space, trim_left, trim_right, trim_space,
}
use arca_go_sdk.Cosign.Words.{
  hex_digit, encode_hex, digit_value, decode_string, trim_zero, decode_hex,
}
use arca_go_sdk.Cosign.Digest.{prefixed}

abbrev pub IsByte : ℕ → Type 0
IsByte b = b < 256

-- A test that holds of every number below a bound.
unfoldable all_below : ℕ → (ℕ → Bool) → Bool
all_below zero f = true
all_below (suc k) f = f k && all_below k f

both_true : (a b : Bool) → a && b ≡ true → (a ≡ true) × (b ≡ true)
both_true true b h = (refl, h)
both_true false b h = absurd (false≢true h)

all_below-at : (k : ℕ) (f : ℕ → Bool) → all_below k f ≡ true → (n : ℕ) → n < k → f n ≡ true
unfolding all_below
all_below-at zero f h n l = absurd (omega arith)
all_below-at (suc k) f h n l = elim (Bool-cases (n == k)) [
  | inl y ↦ ap f ((==_iff n k).0 y) ∙ (both_true (f k) (all_below k f) h).0
  | inr y ↦ all_below-at k f (both_true (f k) (all_below k f) h).1 n (ground arith)
]

false_of_not : (b : Bool) → not b ≡ true → b ≡ false
false_of_not true h = absurd (false≢true h)
false_of_not false h = refl

some_of : (n : ℕ) (o : Option ℕ) → is_some_of n o ≡ true → o ≡ some n
some_of n none h = absurd (false≢true h)
some_of n (some k) h = ap some (sym ((==_iff n k).0 h))

pub digit-read : (n : ℕ) → n < 16 → digit_value (code (hex_digit n)) ≡ some n
unfolding hex_digit digit_value all_below
digit-read n h =
    some_of n (digit_value (code (hex_digit n)))
      (all_below-at 16 (λ k. is_some_of k (digit_value (code (hex_digit k)))) refl n h)

pub upper_digit-read : (n : ℕ) → n < 16 → digit_value (code (upper_char (hex_digit n))) ≡ some n
unfolding hex_digit digit_value all_below upper_char
upper_digit-read n h =
    some_of n (digit_value (code (upper_char (hex_digit n))))
      (all_below-at 16 (λ k. is_some_of k (digit_value (code (upper_char (hex_digit k))))) refl n h)

-- A digit is no space and no X.
is_plain : ℕ → Bool
is_plain c = not (is_space c) && not (c == b'X')

digit-is_plain : (n : ℕ) → n < 16 → is_plain (code (hex_digit n)) ≡ true
unfolding hex_digit all_below is_plain
digit-is_plain n h = all_below-at 16 (λ k. is_plain (code (hex_digit k))) refl n h

not_space : (n : ℕ) → n < 16 → is_space (code (hex_digit n)) ≡ false
unfolding is_plain
not_space n h =
    false_of_not (is_space (code (hex_digit n)))
      (both_true (not (is_space (code (hex_digit n)))) (not (code (hex_digit n) == b'X'))
        (digit-is_plain n h)).0

not_X : (n : ℕ) → n < 16 → (code (hex_digit n) == b'X') ≡ false
unfolding is_plain
not_X n h =
    false_of_not (code (hex_digit n) == b'X')
      (both_true (not (is_space (code (hex_digit n)))) (not (code (hex_digit n) == b'X'))
        (digit-is_plain n h)).1

decode-encode : (bs : List ℕ) → All IsByte bs → decode_string (encode_hex bs) ≡ some bs
unfolding decode_string encode_hex
decode-encode [] h = refl
decode-encode (b ∷ bs) h = rw (digit-read (b / 16) (omega (arith, h.0))) (
    rw (digit-read (b % 16) (omega arith))
      (rw (decode-encode bs h.1) (ap (λ (t : ℕ). some (t ∷ bs)) (omega arith))))

pub decode-upper :
    (bs : List ℕ) → All IsByte bs → decode_string (to_upper (encode_hex bs)) ≡ some bs
unfolding decode_string encode_hex to_upper
decode-upper [] h = refl
decode-upper (b ∷ bs) h = rw (upper_digit-read (b / 16) (omega (arith, h.0))) (
    rw (upper_digit-read (b % 16) (omega arith))
      (rw (decode-upper bs h.1) (ap (λ (t : ℕ). some (t ∷ bs)) (omega arith))))

not_empty : (c : Char) (s : String) → str_eq (String.◌∷◌ c s) "" ≡ false
not_empty c s = ap is_eq (compare.cons-nil c s)

trim_right-encode : (bs : List ℕ) → All IsByte bs → trim_right (encode_hex bs) ≡ encode_hex bs
unfolding trim_right encode_hex
trim_right-encode [] h = refl
trim_right-encode (b ∷ bs) h =
    rw (trim_right-encode bs h.1)
      (rw (not_space (b / 16) (omega (arith, h.0))) (rw (not_space (b % 16) (omega arith)) refl))

pub trim_zero-encode :
    (bs : List ℕ) → All IsByte bs → trim_zero b'X' (encode_hex bs) ≡ encode_hex bs
unfolding trim_zero encode_hex
trim_zero-encode [] h = refl
trim_zero-encode (b ∷ bs) h = ground (arith, not_X (b % 16) (omega arith))

pub decode_hex-prefixed :
    (b : ℕ) (bs : List ℕ)
    → All IsByte (b ∷ bs)
    → decode_hex (prefixed (encode_hex (b ∷ bs))) ≡ some (b ∷ bs)
unfolding decode_hex trim_space trim_left trim_right encode_hex
decode_hex-prefixed b bs h = rw (trim_right-encode (b ∷ bs) h) (
    rw (trim_zero-encode (b ∷ bs) h) (
      rw (not_empty (hex_digit (b / 16)) (String.◌∷◌ (hex_digit (b % 16)) (encode_hex bs)))
        (decode-encode (b ∷ bs) h)))
