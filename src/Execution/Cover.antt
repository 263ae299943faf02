-- ===== src/Execution/Cover.antt =====
-- operation.go: the recorded sizes against the executed size, as whole numbers of one scale.
use mathlib.Core.List.{head-eq_of_cons-eq, tail-eq_of_cons-eq}
use native.Mathlib.Nat.{eq_of_mul-eq-mul_right}
use arca_go_sdk.Prelude.{
  ℕ, zero, suc, ◌+◌, ◌-◌, ◌*◌, ◌^◌, ◌≤◌, ◌<◌, ◌≡◌, ◌↔◌, refl, sym, ap, ◌∙◌, String, List, [], ◌∷◌,
  map, some, true, ==_iff, All, arith,
}
use arca_go_sdk.Execution.Decimal.{Decimal, execution_decimal, plus, same_value, units_at}
use arca_go_sdk.Execution.Accounting.{
  add_size, total_size, zero_total, equals, recorded_sizes_cover,
}

pow_suc : (n : ℕ) → 10 ^ suc n ≡ 10 ^ n * 10
pow_suc n = omega arith

times_ten : (a b c d : ℕ) → c ≡ a * b → d ≡ b * 10 → c * 10 ≡ a * d
times_ten a b c d h k = rw (h, k) (grind arith)

pow_add : (m n : ℕ) → 10 ^ (m + n) ≡ 10 ^ m * 10 ^ n
pow_add m zero = ap (λ k. 10 ^ k) (m_plus_zero m) ∙ one_more (10 ^ m)
  where
    m_plus_zero : (m : ℕ) → m + zero ≡ m
    m_plus_zero m = omega arith

    one_more : (x : ℕ) → x ≡ x * 10 ^ zero
    one_more x = omega arith
pow_add m (suc n) =
    ap (λ k. 10 ^ k) (plus_suc m n)
    ∙ pow_suc (m + n)
    ∙ times_ten (10 ^ m) (10 ^ n) (10 ^ (m + n)) (10 ^ suc n) (pow_add m n) (pow_suc n)
  where
    plus_suc : (m n : ℕ) → m + suc n ≡ suc (m + n)
    plus_suc m n = omega arith

pow-pos : (n : ℕ) → 0 < 10 ^ n
pow-pos zero = omega arith
pow-pos (suc n) = omega (arith, pow-pos n)

-- The sum of sizes, in units of a scale that is at least theirs.
unfoldable pub sum_at : ℕ → List Decimal → ℕ
unfolding units_at
sum_at s [] = 0
sum_at s (d ∷ ds) = units_at s d + sum_at s ds

units_at-scaled :
    (s : ℕ) (d : Decimal) → d.scale ≤ s → d.units * 10 ^ s ≡ units_at s d * 10 ^ d.scale
unfolding units_at
units_at-scaled s d h =
    ap (λ k. d.units * 10 ^ k) (split s d.scale h)
    ∙ ap (λ k. d.units * k) (pow_add (s - d.scale) d.scale)
    ∙ regroup d.units (10 ^ (s - d.scale)) (10 ^ d.scale)
  where
    split : (s k : ℕ) → k ≤ s → s ≡ s - k + k
    split s k h = omega arith

    regroup : (u a b : ℕ) → u * (a * b) ≡ u * a * b
    regroup u a b = grind arith

-- `v` is the value of the fraction in units of scale `s`, whatever the fraction's own scale is.
abbrev Worth : ℕ → Decimal → ℕ → Type 0
Worth s t v = t.units * 10 ^ s ≡ v * 10 ^ t.scale

plus_parts :
    (tu du p v w a b : ℕ)
    → tu * p ≡ v * a
    → du * p ≡ w * b
    → (tu * b + du * a) * p ≡ (v + w) * (a * b)
plus_parts tu du p v w a b h k =
    expand tu du p a b
    ∙ ap (λ x. x * b + du * p * a) h
    ∙ ap (λ x. v * a * b + x * a) k
    ∙ collect v w a b
  where
    expand : (tu du p a b : ℕ) → (tu * b + du * a) * p ≡ tu * p * b + du * p * a
    expand tu du p a b = grind arith

    collect : (v w a b : ℕ) → v * a * b + w * b * a ≡ (v + w) * (a * b)
    collect v w a b = grind arith

plus-Worth :
    (s : ℕ) (t d : Decimal) (v w : ℕ) → Worth s t v → Worth s d w → Worth s (plus t d) (v + w)
unfolding plus
plus-Worth s t d v w h k =
    plus_parts t.units d.units (10 ^ s) v w (10 ^ t.scale) (10 ^ d.scale) h k
    ∙ ap (λ x. (v + w) * x) (sym (pow_add t.scale d.scale))

plus_none : (v : ℕ) → v ≡ v + 0
plus_none v = omega arith

plus_assoc : (a b c : ℕ) → a + b + c ≡ a + (b + c)
plus_assoc a b c = omega arith

total_size-Worth :
    (s : ℕ) (sizes : List String) (ds : List Decimal) (t : Decimal) (v : ℕ)
    → map execution_decimal sizes ≡ map some ds
    → All (λ d. d.scale ≤ s) ds
    → Worth s t v
    → (total : Decimal) × (total_size sizes (some t) ≡ some total) × Worth s total (v + sum_at s ds)
unfolding total_size add_size sum_at
total_size-Worth s [] [] t v e b h = (t, refl, h ∙ ap (λ k. k * 10 ^ t.scale) (plus_none v))
total_size-Worth s [] (d ∷ ds) t v e b h = absurd (ground arith)
total_size-Worth s (raw ∷ sizes) [] t v e b h = absurd (ground arith)
total_size-Worth s (raw ∷ sizes) (d ∷ ds) t v e b h =
    let (total, r, w) =
      total_size-Worth s sizes ds (plus t d) (v + units_at s d) (tail-eq_of_cons-eq e) b.1
        (plus-Worth s t d v (units_at s d) h (units_at-scaled s d b.0)) in
    (
      total,
      ap (λ o. total_size sizes (add_size (some t) o)) (head-eq_of_cons-eq e) ∙ r,
      w ∙ ap (λ k. k * 10 ^ total.scale) (plus_assoc v (units_at s d) (sum_at s ds)),
    )

swap : (x y z : ℕ) → x * y * z ≡ x * z * y
swap x y z = grind arith

mul_assoc : (x y z : ℕ) → x * y * z ≡ x * (y * z)
mul_assoc x y z = grind arith

mul_swap : (x y z : ℕ) → x * (y * z) ≡ x * (z * y)
mul_swap x y z = grind arith

side : (p a b u v : ℕ) → u * p ≡ v * a → u * b * p ≡ v * (a * b)
side p a b u v h = swap u b p ∙ ap (λ x. x * b) h ∙ mul_assoc v a b

value_eq :
    (p a b tu eu v w : ℕ) → 0 < a * b → tu * p ≡ v * a → eu * p ≡ w * b → tu * b ≡ eu * a → v ≡ w
value_eq p a b tu eu v w pos h k q =
    eq_of_mul-eq-mul_right (a * b) pos v w
      (sym (side p a b tu v h) ∙ ap (λ x. x * p) q ∙ side p b a eu w k ∙ mul_swap w b a)

units_eq : (p a b tu eu v w : ℕ) → 0 < p → tu * p ≡ v * a → eu * p ≡ w * b → v ≡ w → tu * b ≡ eu * a
units_eq p a b tu eu v w pos h k q =
    eq_of_mul-eq-mul_right p pos (tu * b) (eu * a)
      (side p a b tu v h ∙ ap (λ x. x * (a * b)) q ∙ mul_swap w a b ∙ sym (side p b a eu w k))

product-pos : (a b : ℕ) → 0 < a → 0 < b → 0 < a * b
product-pos a b h k = grind arith

-- Two fractions are the same exactly if their values are.
same_value-Worth :
    (s : ℕ) (t e : Decimal) (v w : ℕ)
    → Worth s t v
    → Worth s e w
    → (same_value t e ≡ true) ↔ (v ≡ w)
unfolding same_value
same_value-Worth s t e v w h k = (
  λ q.
      value_eq (10 ^ s) (10 ^ t.scale) (10 ^ e.scale) t.units e.units v w
        (product-pos (10 ^ t.scale) (10 ^ e.scale) (pow-pos t.scale) (pow-pos e.scale)) h k
        ((==_iff (t.units * 10 ^ e.scale) (e.units * 10 ^ t.scale)).0 q),
  λ q.
      (==_iff (t.units * 10 ^ e.scale) (e.units * 10 ^ t.scale)).1
        (units_eq (10 ^ s) (10 ^ t.scale) (10 ^ e.scale) t.units e.units v w (pow-pos s) h k q),
)

-- Recorded sizes that are decimals cover an executed size that is one exactly if their sum is that
-- size, counted in units of any scale that is fine enough for all of them: nothing is rounded.
pub recorded_sizes_cover_iff :
    (s : ℕ) (sizes : List String) (executed : String) (ds : List Decimal) (e : Decimal)
    → map execution_decimal sizes ≡ map some ds
    → execution_decimal executed ≡ some e
    → All (λ d. d.scale ≤ s) ds
    → e.scale ≤ s
    → (recorded_sizes_cover sizes executed ≡ true) ↔ (sum_at s ds ≡ units_at s e)
unfolding recorded_sizes_cover equals
recorded_sizes_cover_iff s sizes executed ds e p q b be =
    let (total, r, w) = total_size-Worth s sizes ds zero_total 0 p b (zero_worth (10 ^ s)) in
    let open_up : recorded_sizes_cover sizes executed ≡ same_value total e =
      ap (λ o. equals o (execution_decimal executed)) r ∙ ap (λ o. equals (some total) o) q in
    let same : (same_value total e ≡ true) ↔ (sum_at s ds ≡ units_at s e) =
      same_value-Worth s total e (sum_at s ds) (units_at s e)
        (w ∙ ap (λ k. k * 10 ^ total.scale) (zero_plus (sum_at s ds))) (units_at-scaled s e be) in
    (λ h. same.0 (sym open_up ∙ h), λ h. open_up ∙ same.1 h)
  where
    zero_worth : (p : ℕ) → 0 * p ≡ 0 * 10 ^ 0
    zero_worth p = omega arith

    zero_plus : (n : ℕ) → 0 + n ≡ n
    zero_plus n = omega arith
