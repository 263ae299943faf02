-- ===== src/Tests/Projection.antt =====
-- accounting_pending.go at concrete inputs.
use native.Mathlib.Nat.{one-le-pow}
use arca_go_sdk.Prelude.{
  ◌^◌, ◌≡◌, refl, String, List, [], ◌∷◌, Option, none, some, true, contains, arith, size, inl,
  to_lower, trim_space,
}
use arca_go_sdk.Prelude.Int.{pos}
use arca_go_sdk.Execution.Decimal.{Decimal, execution_decimal}
use arca_go_sdk.Projection.Rational.{Rat, rat_zero, add, sign_ℤ, magnitude}
use arca_go_sdk.Projection.Types.{PendingExecution, SimPosition, ExchangeState}
use arca_go_sdk.Projection.Compose.{
  read, markets_of, compose, compose_projected_position, projected_positions, start,
}
use arca_go_sdk.Projection.Settles.{
  IsProper, Holds, Lacks, side_and_size, compose_projected_position-settles,
}
use arca_go_sdk.Projection.Prices.{IsWithin, entry_of, compose-IsWithin}
use arca_go_sdk.Projection.Lookup.{row_at}
use arca_go_sdk.Projection.Book.{market_row, row_at-projected_positions}

-- Decimal texts.
rat_of : Option Decimal → Option Rat
rat_of none = none
rat_of (some d) = some (record { num = pos d.units; den = 10 ^ d.scale })

abbrev test_set_string : String → Option Rat
unfolding rat_of execution_decimal
test_set_string text = rat_of (execution_decimal text)

rat_of-IsProper : (o : Option Decimal) → IsProper (rat_of o)
unfolding rat_of
rat_of-IsProper none = tt
rat_of-IsProper (some d) = one-le-pow d.scale 10 (omega arith)

test_reads : (t : String) → IsProper (test_set_string t)
unfolding test_set_string rat_of
test_reads t = rat_of-IsProper (execution_decimal t)

abbrev test_execution : String → String → PendingExecution
test_execution side size = record {
  operation_id = "op";
  order_id = "";
  market = "1:BTC";
  side = side;
  executed_size = "2.5";
  accounted_size = "";
  unaccounted_size = size;
  execution_final = true;
  average_price = "20";
}

abbrev test_position : String → SimPosition
test_position size = record {
  id = "p1";
  market = "1:BTC";
  side = "long";
  size = size;
  entry_price = "10";
}

abbrev test_before : List PendingExecution
test_before = test_execution "buy" "2.5" ∷ []

abbrev test_after : List PendingExecution
test_after = test_execution "BUY" "1.0" ∷ []

compose_projected_position-settles_example :
    side_and_size (compose_projected_position test_set_string "1:BTC" none test_before)
    ≡ side_and_size
        (compose_projected_position test_set_string "1:BTC" (some (test_position "1.5")) test_after)
unfolding add test_set_string sign_ℤ to_lower trim_space
compose_projected_position-settles_example =
    compose_projected_position-settles test_set_string test_reads "1:BTC" none
      (some (test_position "1.5")) test_before test_after rat_zero
      (record { num = pos 15; den = 10 }) (add (record { num = pos 25; den = 10 }) rat_zero)
      (add (record { num = pos 10; den = 10 }) rat_zero) Holds.flat
      (Holds.long_ (test_position "1.5") (record { num = pos 15; den = 10 }) refl refl)
      (Lacks.bought (test_execution "buy" "2.5") [] (record { num = pos 25; den = 10 }) rat_zero
        (inl refl) (refl, refl) Lacks.nothing)
      (Lacks.bought (test_execution "BUY" "1.0") [] (record { num = pos 10; den = 10 }) rat_zero
        (inl refl) (refl, refl) Lacks.nothing)
      refl

compose-IsWithin_example :
    IsWithin
      (record { top = 10; bottom = 1 })
      (record { top = 20; bottom = 1 })
      (entry_of (compose test_set_string (some (test_position "1.5")) test_after))
unfolding start read magnitude test_set_string rat_of execution_decimal sign_ℤ
compose-IsWithin_example =
    compose-IsWithin (record { top = 10; bottom = 1 }) (record { top = 20; bottom = 1 })
      test_set_string (some (test_position "1.5")) test_after
      (record { not_negative = refl; above = omega arith; below = omega arith })
      (record { not_negative = refl; above = omega arith; below = omega arith }, tt)

abbrev test_state : ExchangeState
test_state = record {
  positions = test_position "1.5" ∷ [];
  accounting_pending = test_execution "sell" "4" ∷ [];
}

row_at-projected_positions_example :
    row_at "1:BTC" (projected_positions test_set_string test_state)
    ≡ market_row test_set_string "1:BTC" test_state
unfolding markets_of contains
row_at-projected_positions_example =
    row_at-projected_positions test_set_string "1:BTC" test_state (refl, tt)
