-- ===== src/Money/Captions.antt =====
-- money_figure.go: the caption totals of a figure's legs.
use arca_go_sdk.Prelude.{
  ◌≡◌, refl, sym, ap, ◌∙◌, String, List, [], ◌∷◌, map, Option, none, some, true, false, arith, inl,
  inr, Bool-cases,
}
use arca_go_sdk.Prelude.Int.{ℤ, pos, ◌+ℤ◌}
use arca_go_sdk.Money.Micro.{micro_parse, micro_sum}
use arca_go_sdk.Money.Sums.{ext, +ℤ_parts, zero-+ℤ, +ℤ-zero, sum_of, micro_sum_lem}
use arca_go_sdk.Money.Types.{
  Leg, Figure, is_expected, amounts_where, amounts, arriving_micro, expected_micro,
}

abbrev value : Option ℤ → ℤ
value none = pos 0
value (some n) = n

sum_of-cons : (o : Option ℤ) (vs : List (Option ℤ)) → sum_of (o ∷ vs) ≡ value o +ℤ sum_of vs
unfolding sum_of
sum_of-cons none vs = sym (zero-+ℤ (sum_of vs))
sum_of-cons (some n) vs = refl

value_left : (v a b : ℤ) → v +ℤ (a +ℤ b) ≡ (v +ℤ a) +ℤ b
value_left v a b = ext _ _ (omega (arith, +ℤ_parts))

value_right : (v a b : ℤ) → v +ℤ (a +ℤ b) ≡ a +ℤ (v +ℤ b)
value_right v a b = ext _ _ (omega (arith, +ℤ_parts))

sum_at : List String → ℤ
unfolding sum_of
sum_at vs = sum_of (map micro_parse vs)

sum_at-nil : sum_at [] ≡ pos 0
unfolding sum_at sum_of
sum_at-nil = refl

sum_at-cons : (v : String) (vs : List String) → sum_at (v ∷ vs) ≡ value (micro_parse v) +ℤ sum_at vs
unfolding sum_at
sum_at-cons v vs = sum_of-cons (micro_parse v) (map micro_parse vs)

sum_at-amounts :
    (ls : List Leg)
    → sum_at (amounts ls) ≡ sum_at (amounts_where false ls) +ℤ sum_at (amounts_where true ls)
unfolding amounts amounts_where
sum_at-amounts [] = rw sum_at-nil (sym (zero-+ℤ (pos 0)))
sum_at-amounts (l ∷ ls) =
    sum_at-cons l.amount_micro (amounts ls)
    ∙ ap (λ z. value (micro_parse l.amount_micro) +ℤ z) (sum_at-amounts ls)
    ∙ elim (Bool-cases (is_expected l.stage)) [
      | inl y ↦
          rw (y, sum_at-cons l.amount_micro (amounts_where true ls))
            (value_right (value (micro_parse l.amount_micro)) (sum_at (amounts_where false ls))
              (sum_at (amounts_where true ls)))
      | inr n ↦
          rw (n, sum_at-cons l.amount_micro (amounts_where false ls))
            (value_left (value (micro_parse l.amount_micro)) (sum_at (amounts_where false ls))
              (sum_at (amounts_where true ls)))
    ]

-- The captions of what is arriving and of what is expected add up to the sum of all arriving legs.
pub arriving_micro-expected_micro :
    (f : Figure)
    → micro_parse (micro_sum (arriving_micro f ∷ expected_micro f ∷ []))
      ≡ micro_parse (micro_sum (amounts f.arriving))
unfolding arriving_micro expected_micro sum_at sum_of
arriving_micro-expected_micro f =
    micro_sum_lem (arriving_micro f ∷ expected_micro f ∷ [])
    ∙ rw
        (
          micro_sum_lem (amounts_where false f.arriving),
          micro_sum_lem (amounts_where true f.arriving),
          +ℤ-zero (sum_of (map micro_parse (amounts_where true f.arriving))),
        )
        (ap some (sym (sum_at-amounts f.arriving)))
    ∙ sym (micro_sum_lem (amounts f.arriving))
