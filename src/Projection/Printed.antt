-- ===== src/Projection/Printed.antt =====
-- math/big: equal fractions have the same sign and the same text, whatever their terms are.
use native.Mathlib.Nat.{mul-div-mul_right, le_of_mul-le-mul_right, mul-le-mul_right}
use native.Mathlib.Omega.{div_any}
use arca_go_sdk.Prelude.{
  ℕ, zero, suc, ◌+◌, ◌*◌, ◌/◌, ◌%◌, ◌^◌, ◌≤◌, ◌<◌, ◌≡◌, refl, sym, ap, ◌∙◌, String, Bool, leb, ◌==◌,
  arith,
}
use arca_go_sdk.Prelude.Int.{ℤ, pos, negsuc, pos_part, neg_part}
use arca_go_sdk.Projection.Rational.{
  Rat, sign, sign_ℤ, abs, magnitude, rounded, decimal_text, rat_decimal,
}

-- The same value: a - b of the cross products, without a subtraction.
abbrev pub Same : Rat → Rat → Type 0
Same a b =
    pos_part a.num * b.den + neg_part b.num * a.den
    ≡ pos_part b.num * a.den + neg_part a.num * b.den

is_zero-scaled : (r c t d : ℕ) → 0 < c → 0 < d → r * c ≡ t * d → (r == 0) ≡ (t == 0)
is_zero-scaled zero c zero d 0<c 0<d h = refl
is_zero-scaled (suc r) c (suc t) d 0<c 0<d h = ground arith
is_zero-scaled (suc r) (suc c) zero d 0<c 0<d h = absurd (omega (arith, h))
is_zero-scaled (suc r) zero zero d 0<c 0<d h = absurd (omega arith)
is_zero-scaled zero c (suc t) (suc d) 0<c 0<d h = absurd (omega (arith, h))
is_zero-scaled zero c (suc t) zero 0<c 0<d h = absurd (omega arith)

half-scaled : (r c t d : ℕ) → 0 < d → r * c ≡ t * d → d ≤ 2 * r → c ≤ 2 * t
half-scaled r c t d 0<d h l =
    le_of_mul-le-mul_right {m = c} {n = 2 * t} {k = d} (omega (arith, h, mul-le-mul_right c l)) 0<d

leb_iff : (a x b y : ℕ) → (a ≤ x → b ≤ y) → (b ≤ y → a ≤ x) → leb a x ≡ leb b y
leb_iff a x b y f g = grind arith

module _ (n d m c : ℕ) (0<d : 0 < d) (0<c : 0 < c) (h : n * c ≡ m * d) where
  quotients : n / d ≡ m / c
  quotients =
      sym (mul-div-mul_right n d 0<c)
      ∙ ap (λ (t : ℕ). t / (d * c)) h
      ∙ ap (λ (t : ℕ). m * d / t) (omega arith)
      ∙ mul-div-mul_right m c 0<d

  remainders : n % d * c ≡ m % c * d
  remainders = omega (
    arith,
    h,
    ap (λ (t : ℕ). t * c) (div_any n d),
    ap (λ (t : ℕ). t * d) (div_any m c),
    ap (λ (t : ℕ). d * t * c) quotients,
  )

  is_whole-same : (n % d == 0) ≡ (m % c == 0)
  is_whole-same = is_zero-scaled (n % d) c (m % c) d 0<c 0<d remainders

  is_half-same : leb d (2 * (n % d)) ≡ leb c (2 * (m % c))
  is_half-same =
      leb_iff d (2 * (n % d)) c (2 * (m % c)) (half-scaled (n % d) c (m % c) d 0<d remainders)
        (half-scaled (m % c) d (n % d) c 0<c (sym remainders))

  rounded-same : rounded n d ≡ rounded m c
  unfolding rounded
  rounded-same = rw quotients (rw is_half-same refl)

magnitudes :
    (x y : ℤ) (d c : ℕ)
    → 0 < d
    → 0 < c
    → pos_part x * c + neg_part y * d ≡ pos_part y * d + neg_part x * c
    → magnitude x * c ≡ magnitude y * d
unfolding magnitude
magnitudes (pos n) (pos m) d c 0<d 0<c h = omega (arith, h)
magnitudes (negsuc n) (negsuc m) d c 0<d 0<c h = omega (arith, h)
magnitudes (pos n) (negsuc m) (suc d) c 0<d 0<c h = absurd (omega (arith, h))
magnitudes (pos n) (negsuc m) zero c 0<d 0<c h = absurd (omega arith)
magnitudes (negsuc n) (pos m) d (suc c) 0<d 0<c h = absurd (omega (arith, h))
magnitudes (negsuc n) (pos m) d zero 0<d 0<c h = absurd (omega arith)

signs :
    (x y : ℤ) (d c : ℕ)
    → 0 < d
    → 0 < c
    → pos_part x * c + neg_part y * d ≡ pos_part y * d + neg_part x * c
    → sign_ℤ x ≡ sign_ℤ y
unfolding sign_ℤ
signs (pos zero) (pos zero) d c 0<d 0<c h = refl
signs (pos (suc n)) (pos (suc m)) d c 0<d 0<c h = refl
signs (pos (suc n)) (pos zero) d (suc c) 0<d 0<c h = absurd (omega (arith, h))
signs (pos (suc n)) (pos zero) d zero 0<d 0<c h = absurd (omega arith)
signs (pos zero) (pos (suc m)) (suc d) c 0<d 0<c h = absurd (omega (arith, h))
signs (pos zero) (pos (suc m)) zero c 0<d 0<c h = absurd (omega arith)
signs (negsuc n) (negsuc m) d c 0<d 0<c h = refl
signs (pos n) (negsuc m) (suc d) c 0<d 0<c h = absurd (omega (arith, h))
signs (pos n) (negsuc m) zero c 0<d 0<c h = absurd (omega arith)
signs (negsuc n) (pos m) d (suc c) 0<d 0<c h = absurd (omega (arith, h))
signs (negsuc n) (pos m) d zero 0<d 0<c h = absurd (omega arith)

ap3 :
    {w v : Bool} {q r u t : ℕ} (f : Bool → ℕ → ℕ → String)
    → w ≡ v
    → q ≡ r
    → u ≡ t
    → f w q u ≡ f v r t
ap3 f x y z = rw x (rw y (rw z refl))

module _ (a b : Rat) (0<a : 0 < a.den) (0<b : 0 < b.den) (h : Same a b) where
  magnitude-same : magnitude a.num * b.den ≡ magnitude b.num * a.den
  magnitude-same = magnitudes a.num b.num a.den b.den 0<a 0<b h

  pub sign-same : sign a ≡ sign b
  sign-same = signs a.num b.num a.den b.den 0<a 0<b h

  pub rat_decimal-same : rat_decimal (abs a) ≡ rat_decimal (abs b)
  unfolding rat_decimal abs magnitude decimal_text
  rat_decimal-same =
      let n : ℕ = magnitude a.num in
      let m : ℕ = magnitude b.num in
      ap3 (λ (w : Bool) (q u : ℕ). decimal_text (pos 0) w q u)
        (is_whole-same n a.den m b.den 0<a 0<b magnitude-same)
        (quotients n a.den m b.den 0<a 0<b magnitude-same)
        (rounded-same (n * 10 ^ 18) a.den (m * 10 ^ 18) b.den 0<a 0<b
          (omega (arith, ap (λ (t : ℕ). t * 10 ^ 18) magnitude-same)))
