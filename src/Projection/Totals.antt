-- ===== src/Projection/Totals.antt =====
-- accounting_pending.go: the quantity that the pending executions of a market add up to.
use arca_go_sdk.Prelude.{
  ℕ, zero, suc, ◌+◌, ◌*◌, ◌≡◌, refl, sym, ap, ◌∙◌, String, List, [], ◌∷◌, Option, none, some, leb,
  inl, inr, Bool-cases, arith,
}
use arca_go_sdk.Prelude.Int.{ℤ, pos, negsuc, pos_part, neg_part, sub_ℕ, ◌+ℤ◌}
use arca_go_sdk.Projection.Rational.{Rat, rat_zero, scaled, minus_ℕ, add}
use arca_go_sdk.Projection.Types.{PendingExecution}
use arca_go_sdk.Projection.Compose.{Composed, signed_unaccounted, apply, apply_all}

-- An integer that is `p - n`.
IsDifference : ℤ → ℕ → ℕ → Type 0
IsDifference z p n = pos_part z + n ≡ p + neg_part z

IsDifference-unique : (x y : ℤ) (p n : ℕ) → IsDifference x p n → IsDifference y p n → x ≡ y
unfolding IsDifference
IsDifference-unique (pos a) (pos b) p n h k = ap pos (omega (arith, h, k))
IsDifference-unique (negsuc a) (negsuc b) p n h k = ap negsuc (omega (arith, h, k))
IsDifference-unique (pos a) (negsuc b) p n h k = absurd (omega (arith, h, k))
IsDifference-unique (negsuc a) (pos b) p n h k = absurd (omega (arith, h, k))

IsDifference-move : (z : ℤ) (p n q m : ℕ) → p ≡ q → n ≡ m → IsDifference z p n → IsDifference z q m
unfolding IsDifference
IsDifference-move z p n q m h k d = omega (arith, h, k, d)

sub_ℕ-IsDifference : (p n : ℕ) → IsDifference (sub_ℕ p n) p n
unfolding IsDifference
sub_ℕ-IsDifference p n = elim (Bool-cases (leb n p)) [
  | inl y ↦ rw y (ground arith)
  | inr y ↦ rw y (ground arith)
]

minus_ℕ-IsDifference : (n : ℕ) → IsDifference (minus_ℕ n) 0 n
unfolding IsDifference minus_ℕ
minus_ℕ-IsDifference zero = refl
minus_ℕ-IsDifference (suc n) = refl

scaled-IsDifference :
    (z : ℤ) (p n k : ℕ) → IsDifference z p n → IsDifference (scaled z k) (p * k) (n * k)
unfolding IsDifference scaled
scaled-IsDifference (pos a) p n k h = omega (arith, ap (λ (t : ℕ). t * k) h)
scaled-IsDifference (negsuc a) p n k h =
    omega (arith, ap (λ (t : ℕ). t * k) h, minus_ℕ-IsDifference (suc a * k))

plus-IsDifference :
    (x y : ℤ) (p n q m : ℕ)
    → IsDifference x p n
    → IsDifference y q m
    → IsDifference (x +ℤ y) (p + q) (n + m)
unfolding IsDifference ◌+ℤ◌
plus-IsDifference x y p n q m h k =
    omega (arith, h, k, sub_ℕ-IsDifference (pos_part x + pos_part y) (neg_part x + neg_part y))

-- A fraction whose numerator is `p - n`.
add-IsDifference :
    (a b : Rat) (p n q m : ℕ)
    → IsDifference a.num p n
    → IsDifference b.num q m
    → IsDifference (add a b).num (p * b.den + q * a.den) (n * b.den + m * a.den)
unfolding add
add-IsDifference a b p n q m h k =
    plus-IsDifference (scaled a.num b.den) (scaled b.num a.den) (p * b.den) (n * b.den) (q * a.den)
      (m * a.den) (scaled-IsDifference a.num p n b.den h) (scaled-IsDifference b.num q m a.den k)

fraction : (a b : Rat) → a.num ≡ b.num → a.den ≡ b.den → a ≡ b
fraction a b h k = λ i. record { num = h i; den = k i }

add_assoc : (a b c : Rat) → add (add a b) c ≡ add a (add b c)
unfolding add IsDifference
add_assoc a b c =
    let pa : ℕ = pos_part a.num in
    let na : ℕ = neg_part a.num in
    let pb : ℕ = pos_part b.num in
    let nb : ℕ = neg_part b.num in
    let pc : ℕ = pos_part c.num in
    let nc : ℕ = neg_part c.num in
    let ab : IsDifference (add a b).num (pa * b.den + pb * a.den) (na * b.den + nb * a.den) =
      add-IsDifference a b pa na pb nb refl refl in
    let bc : IsDifference (add b c).num (pb * c.den + pc * b.den) (nb * c.den + nc * b.den) =
      add-IsDifference b c pb nb pc nc refl refl in
    let left =
      add-IsDifference (add a b) c (pa * b.den + pb * a.den) (na * b.den + nb * a.den) pc nc ab
        refl in
    let right =
      add-IsDifference a (add b c) pa na (pb * c.den + pc * b.den) (nb * c.den + nc * b.den) refl
        bc in
    fraction (add (add a b) c) (add a (add b c))
      (IsDifference-unique (add (add a b) c).num (add a (add b c)).num
        ((pa * b.den + pb * a.den) * c.den + pc * (a.den * b.den))
        ((na * b.den + nb * a.den) * c.den + nc * (a.den * b.den)) left
        (IsDifference-move (add a (add b c)).num
          (pa * (b.den * c.den) + (pb * c.den + pc * b.den) * a.den)
          (na * (b.den * c.den) + (nb * c.den + nc * b.den) * a.den)
          ((pa * b.den + pb * a.den) * c.den + pc * (a.den * b.den))
          ((na * b.den + nb * a.den) * c.den + nc * (a.den * b.den)) (omega arith) (omega arith)
          right))
      (omega arith)

add-rat_zero : (a : Rat) → add a rat_zero ≡ a
unfolding add IsDifference
add-rat_zero a =
    fraction (add a rat_zero) a
      (IsDifference-unique (add a rat_zero).num a.num (pos_part a.num) (neg_part a.num)
        (IsDifference-move (add a rat_zero).num (pos_part a.num * 1 + 0 * a.den)
          (neg_part a.num * 1 + 0 * a.den) (pos_part a.num) (neg_part a.num) (omega arith)
          (omega arith)
          (add-IsDifference a rat_zero (pos_part a.num) (neg_part a.num) 0 0 refl refl))
        refl)
      (omega arith)

abbrev pub plus_all : Rat → Option Rat → Option Rat
plus_all delta none = none
plus_all delta (some rest) = some (add delta rest)

plus_all_assoc : (a b : Rat) (o : Option Rat) → plus_all (add a b) o ≡ plus_all a (plus_all b o)
plus_all_assoc a b none = refl
plus_all_assoc a b (some c) = ap some (add_assoc a b c)

-- The signed quantity of a composition, if it can be read.
abbrev pub signed_of : Option Composed → Option Rat
signed_of none = none
signed_of (some c) = some c.signed

module _ (set_string : String → Option Rat) where
  -- What the executions add to the signed quantity, if each can be read.
  unfoldable pub total_pending : List PendingExecution → Option Rat
  unfolding signed_unaccounted
  total_pending [] = some rat_zero
  total_pending (e ∷ es) =
      let rest = total_pending es in
      elim (signed_unaccounted set_string e) [ none ↦ none | some delta ↦ plus_all delta rest ]

  pub apply_all-total :
      (es : List PendingExecution) (c : Composed)
      → signed_of (apply_all set_string es c) ≡ plus_all c.signed (total_pending es)
  unfolding apply_all total_pending apply
  apply_all-total [] c = ap some (sym (add-rat_zero c.signed))
  apply_all-total (e ∷ es) c =
      elim (signed_unaccounted set_string e)
        as (λ o.
          signed_of (elim o [
            | none ↦ none
            | some delta ↦ apply_all set_string es (apply set_string e delta c)
          ])
          ≡ plus_all c.signed
              (elim o [ none ↦ none | some delta ↦ plus_all delta (total_pending es) ])) [
                | none ↦ refl
                | some delta ↦
                    apply_all-total es (apply set_string e delta c)
                    ∙ plus_all_assoc c.signed delta (total_pending es)
              ]
