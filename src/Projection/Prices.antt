-- ===== src/Projection/Prices.antt =====
-- accounting_pending.go: the entry price of a composed row.
use native.Mathlib.Nat.{mul-le-mul_right}
use arca_go_sdk.Prelude.{
  ℕ, ◌+◌, ◌*◌, ◌≤◌, ◌≡◌, refl, sym, ◌∙◌, subst, String, List, [], ◌∷◌, Option, none, some, Bool,
  true, false, ◌||◌, not, if◌then◌else◌, All, arith,
}
use arca_go_sdk.Prelude.Int.{pos, sub_ℕ, ◌+ℤ◌}
use arca_go_sdk.Projection.Rational.{
  Rat, sign, is_none, same_sign, scaled, magnitude, abs, add, mul, quo,
}
use arca_go_sdk.Projection.Types.{PendingExecution, SimPosition}
use arca_go_sdk.Projection.Compose.{
  read, positive, blend, increased, blended_at, blended_entry, Composed, start, apply, apply_all,
  compose, signed_unaccounted,
}

-- A fraction of natural numbers.
pub record Bound : Type 0 where
  pub top : ℕ
  pub bottom : ℕ

-- A price that is not negative and lies between two bounds.
pub record IsBetween (low high : Bound) (r : Rat) : Type 0 where
  pub not_negative : r.num ≡ pos (magnitude r.num)
  pub above : low.top * r.den ≤ magnitude r.num * low.bottom
  pub below : magnitude r.num * high.bottom ≤ high.top * r.den

sub_ℕ-zero : (a : ℕ) → sub_ℕ a 0 ≡ pos a
sub_ℕ-zero a = ground arith

-- The terms of a blend of prices that are not negative.
module _ (held delta : Rat) (n d m c : ℕ) where
  abbrev blend_top : ℕ
  blend_top = magnitude held.num * n * (delta.den * c) + magnitude delta.num * m * (held.den * d)

  abbrev weight : ℕ
  weight = magnitude held.num * delta.den + magnitude delta.num * held.den

  blend-fraction :
      blend held (record { num = pos n; den = d }) delta (record { num = pos m; den = c })
      ≡ record {
        num = pos (blend_top * (held.den * delta.den));
        den = held.den * d * (delta.den * c) * weight;
      }
  unfolding blend quo add mul abs scaled magnitude ◌+ℤ◌
  blend-fraction = λ i. record {
    num = scaled (sub_ℕ-zero blend_top i) (held.den * delta.den);
    den = held.den * d * (delta.den * c) * magnitude (sub_ℕ-zero weight i);
  }

  module _ (low high : Bound) where
    blend-above :
        low.top * d ≤ n * low.bottom
        → low.top * c ≤ m * low.bottom
        → low.top * (held.den * d * (delta.den * c) * weight)
          ≤ blend_top * (held.den * delta.den) * low.bottom
    blend-above p q = omega (
      arith,
      mul-le-mul_right (magnitude held.num * delta.den * (delta.den * c) * held.den) p,
      mul-le-mul_right (magnitude delta.num * held.den * (held.den * d) * delta.den) q,
    )

    blend-below :
        n * high.bottom ≤ high.top * d
        → m * high.bottom ≤ high.top * c
        → blend_top * (held.den * delta.den) * high.bottom
          ≤ high.top * (held.den * d * (delta.den * c) * weight)
    blend-below p q = omega (
      arith,
      mul-le-mul_right (magnitude held.num * delta.den * (delta.den * c) * held.den) p,
      mul-le-mul_right (magnitude delta.num * held.den * (held.den * d) * delta.den) q,
    )

abbrev pub entry_of : Option Composed → Option Rat
entry_of none = none
entry_of (some c) = c.entry

module _ (low high : Bound) where
  blend-IsBetween :
      (held entry delta price : Rat)
      → IsBetween low high entry
      → IsBetween low high price
      → IsBetween low high (blend held entry delta price)
  unfolding magnitude
  blend-IsBetween held entry delta price p q =
      let n : ℕ = magnitude entry.num in
      let m : ℕ = magnitude price.num in
      subst (IsBetween low high)
        (sym (
          (λ i.
            blend held (record { num = p.not_negative i; den = entry.den }) delta
              (record { num = q.not_negative i; den = price.den }))
          ∙ blend-fraction held delta n entry.den m price.den))
        (record {
          not_negative = refl;
          above = blend-above held delta n entry.den m price.den low high p.above q.above;
          below = blend-below held delta n entry.den m price.den low high p.below q.below;
        })

  abbrev pub IsWithin : Option Rat → Type 0
  IsWithin none = Unit
  IsWithin (some r) = IsBetween low high r

  IsWithin-if :
      (b : Bool) (o u : Option Rat) → IsWithin o → IsWithin u → IsWithin (if b then o else u)
  IsWithin-if true o u p q = p
  IsWithin-if false o u p q = q

  increased-IsWithin :
      (held : Rat) (entry : Option Rat) (delta : Rat) (price : Option Rat)
      → IsWithin entry
      → IsWithin price
      → IsWithin (increased held entry delta price)
  increased-IsWithin held none delta price p q = tt
  increased-IsWithin held (some e) delta none p q = tt
  increased-IsWithin held (some e) delta (some r) p q = blend-IsBetween held e delta r p q

  blended_at-IsWithin :
      (held : Rat) (entry : Option Rat) (delta : Rat) (price : Option Rat)
      → IsWithin entry
      → IsWithin price
      → IsWithin (blended_at held entry delta price)
  unfolding blended_at
  blended_at-IsWithin held entry delta price p q =
      IsWithin-if (is_none (sign held) || is_none (sign (add held delta))) price _ q (
        IsWithin-if (not (same_sign (sign held) (sign (add held delta)))) price _ q (
          IsWithin-if (not (same_sign (sign delta) (sign held))) entry _ p
            (increased-IsWithin held entry delta price p q)))

  module _ (set_string : String → Option Rat) where
    -- The average price of an execution, where there is one.
    abbrev pub IsPriced : PendingExecution → Type 0
    IsPriced e = IsWithin (positive (read set_string e.average_price))

    apply_all-IsWithin :
        (es : List PendingExecution) (c : Composed)
        → IsWithin c.entry
        → All IsPriced es
        → IsWithin (entry_of (apply_all set_string es c))
    unfolding apply_all apply blended_entry
    apply_all-IsWithin [] c p q = p
    apply_all-IsWithin (e ∷ es) c p q =
        elim (signed_unaccounted set_string e)
          as (λ o. IsWithin (
            entry_of (elim o [
              | none ↦ none
              | some delta ↦ apply_all set_string es (apply set_string e delta c)
            ]))) [
              | none ↦ tt
              | some delta ↦
                  apply_all-IsWithin es (apply set_string e delta c)
                    (blended_at-IsWithin c.signed c.entry delta
                      (positive (read set_string e.average_price)) p q.0)
                    q.1
            ]

    -- Bounds that hold of the ledger's entry price and of the average prices of the executions, where
    -- there are such prices, hold of the entry price of the composed row.
    pub compose-IsWithin :
        (ledger : Option SimPosition) (es : List PendingExecution)
        → IsWithin (entry_of (start set_string ledger))
        → All IsPriced es
        → IsWithin (entry_of (compose set_string ledger es))
    unfolding compose
    compose-IsWithin ledger es p q = within (start set_string ledger) p
      where
        within :
            (o : Option Composed)
            → IsWithin (entry_of o)
            → IsWithin (entry_of (elim o [ none ↦ none | some c ↦ apply_all set_string es c ]))
        within none p = tt
        within (some c) p = apply_all-IsWithin es c p q
