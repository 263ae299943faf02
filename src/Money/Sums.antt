-- ===== src/Money/Sums.antt =====
-- money_figure.go: MicroSum and MicroDifference as sums of integers.
use arca_go_sdk.Prelude.{
  ◌+◌, ◌≡◌, refl, sym, ap, ◌∙◌, String, List, [], ◌∷◌, map, Option, none, some, arith,
}
use arca_go_sdk.Prelude.Int.{ℤ, pos, pos_part, neg_part, ◌+ℤ◌, ◌-ℤ◌}
use arca_go_sdk.Money.Micro.{
  micro_parse, add_micro, add_micros, micro_sum, difference_of, int_string,
}
use arca_go_sdk.Money.Decimals.{micro_parse-int_string}

pub ext : (a b : ℤ) → pos_part a + neg_part b ≡ pos_part b + neg_part a → a ≡ b
ext a b h = ground arith

pub +ℤ_parts :
    (a b : ℤ)
    → pos_part (a +ℤ b) + neg_part a + neg_part b ≡ neg_part (a +ℤ b) + pos_part a + pos_part b
unfolding ◌+ℤ◌
+ℤ_parts a b = ground arith

+ℤ_assoc : (a b c : ℤ) → a +ℤ b +ℤ c ≡ a +ℤ (b +ℤ c)
+ℤ_assoc a b c = ext _ _ (omega (arith, +ℤ_parts))

pub zero-+ℤ : (a : ℤ) → pos 0 +ℤ a ≡ a
zero-+ℤ a = ext _ _ (omega (arith, +ℤ_parts))

pub +ℤ-zero : (a : ℤ) → a +ℤ pos 0 ≡ a
+ℤ-zero a = ext _ _ (omega (arith, +ℤ_parts))

-- The integers of a list, summed from the right.
unfoldable pub sum_of : List (Option ℤ) → ℤ
sum_of [] = pos 0
sum_of (none ∷ vs) = sum_of vs
sum_of (some n ∷ vs) = n +ℤ sum_of vs

add_micro-sum_of :
    (total : ℤ) (o : Option ℤ) (vs : List (Option ℤ))
    → add_micro total o +ℤ sum_of vs ≡ total +ℤ sum_of (o ∷ vs)
unfolding sum_of
add_micro-sum_of total none vs = refl
add_micro-sum_of total (some n) vs = +ℤ_assoc total n (sum_of vs)

add_micros-sum_of :
    (total : ℤ) (vs : List String) → add_micros total vs ≡ total +ℤ sum_of (map micro_parse vs)
unfolding add_micros sum_of
add_micros-sum_of total [] = sym (+ℤ-zero total)
add_micros-sum_of total (v ∷ vs) =
    add_micros-sum_of (add_micro total (micro_parse v)) vs
    ∙ add_micro-sum_of total (micro_parse v) (map micro_parse vs)

-- MicroSum prints an integer, which is the sum of those of the texts that are integers.
pub micro_sum_lem :
    (vs : List String) → micro_parse (micro_sum vs) ≡ some (sum_of (map micro_parse vs))
unfolding micro_sum
micro_sum_lem vs =
    micro_parse-int_string (add_micros (pos 0) vs)
    ∙ ap some (add_micros-sum_of (pos 0) vs ∙ zero-+ℤ (sum_of (map micro_parse vs)))

difference_parts :
    (o p : Option ℤ) (d : String)
    → difference_of o p ≡ some d
    → (x : ℤ) × (y : ℤ) × (o ≡ some x) × (p ≡ some y) × (d ≡ int_string (x -ℤ y))
unfolding difference_of
difference_parts (some x) (some y) d h = (x, y, refl, refl, cc h)
difference_parts (some x) none d h = absurd (ground arith)
difference_parts none p d h = absurd (ground arith)
