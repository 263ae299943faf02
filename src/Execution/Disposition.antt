-- ===== src/Execution/Disposition.antt =====
-- operation.go: what the status and the sizes of an order say of its execution.
use mathlib.Core.Bool.{◌||◌}
use arca_go_sdk.Prelude.{
  String, List, Option, none, some, Bool, true, false, not, ◌&&◌, if◌then◌else◌, str_eq,
}
use arca_go_sdk.Prelude.{to_upper}
use arca_go_sdk.Execution.Decimal.{
  Decimal, execution_decimal, is_zero, below, same_value, larger, minus_string,
}
use arca_go_sdk.Execution.Types.{SimOrder, SimFill, SimOrderWithFills}

unfoldable pub normalize_execution_status : String → String
unfolding to_upper
normalize_execution_status s =
    if str_eq (to_upper s) "CANCELED" || str_eq (to_upper s) "EXPIRED"
    then "CANCELLED"
    else if str_eq (to_upper s) "REJECTED"
    then "FAILED"
    else to_upper s

-- The cases of the `switch` on a normalized status.
pub data Phase : Type 0 where
  filled cancelled failed working : Phase

unfoldable pub phase_of : String → Phase
unfolding normalize_execution_status
phase_of s =
    if str_eq (normalize_execution_status s) "FILLED"
    then filled
    else if str_eq (normalize_execution_status s) "CANCELLED"
    then cancelled
    else if str_eq (normalize_execution_status s) "FAILED"
    then failed
    else working

abbrev ends_order : Phase → Bool
ends_order working = false
ends_order _ = true

unfoldable pub is_terminal_order_status : String → Bool
unfolding phase_of
is_terminal_order_status s = ends_order (phase_of s)

abbrev pub State : Type 0
State = String × String

-- An order that is reported as filled, with less filled than was requested.
unfoldable pub under_filled : Bool → Bool → State
under_filled true none_filled =
    if none_filled then ("no_fill", "cancelled") else ("partial", "cancelled")
under_filled false none_filled =
    if none_filled then ("unknown", "unknown") else ("partial", "unknown")

unfoldable pub fully_filled : Bool → State
fully_filled none_filled = if none_filled then ("unknown", "unknown") else ("filled", "filled")

-- `requested` is `none` if the size is no decimal.
unfoldable pub filled_state : Bool → Decimal → Option Decimal → State
unfolding under_filled fully_filled is_zero below
filled_state ioc got none = fully_filled (is_zero got)
filled_state ioc got (some requested) =
    if not (is_zero requested) && below got requested
    then under_filled ioc (is_zero got)
    else fully_filled (is_zero got)

unfoldable pub state_of : Phase → Bool → Decimal → Option Decimal → State
unfolding filled_state is_zero
state_of Phase.filled ioc got requested = filled_state ioc got requested
state_of Phase.cancelled ioc got requested =
    if is_zero got then ("no_fill", "cancelled") else ("partial", "cancelled")
state_of Phase.failed ioc got requested =
    if is_zero got then ("rejected", "cancelled") else ("partial", "cancelled")
state_of Phase.working ioc got requested = ("pending", "working")

unfoldable pub disposition_at : SimOrder → Option Decimal → State
unfolding state_of phase_of execution_decimal
disposition_at order none = ("unknown", "unknown")
disposition_at order (some got) =
    state_of (phase_of order.status) (str_eq order.time_in_force "IOC") got
      (execution_decimal order.size)

unfoldable pub execution_disposition : SimOrder → State
unfolding disposition_at execution_decimal
execution_disposition order = disposition_at order (execution_decimal order.filled_size)

-- The map that ExecutionOutcome returns; a key that is not set is `none`.
pub record ExecutionOutcome : Type 0 where
  pub order_id : String
  pub status : String
  pub filled_size : String
  pub fulfillment_state : String
  pub average_price_final : Bool
  pub average_price_source : String
  pub requested_size : Option String
  pub remaining_size : Option String
  pub execution_state : String
  pub remaining_disposition : String
  pub fills_complete : Option Bool
  pub fills : List SimFill
  pub avg_fill_price : Option String

-- The fulfillment state, the requested size and the remaining size.
pub record Remainder : Type 0 where
  pub fulfillment : String
  pub requested : Option String
  pub remaining : Option String

abbrev no_remainder : Remainder
no_remainder = record { fulfillment = "unknown"; requested = none; remaining = none }

unfoldable pub remainder_of : String → Option Decimal → Option Decimal → Remainder
unfolding below is_zero same_value larger minus_string
remainder_of text none executed = no_remainder
remainder_of text (some requested) none = no_remainder
remainder_of text (some requested) (some executed) =
    if below requested executed then no_remainder else record {
      fulfillment =
          if is_zero executed
          then "none"
          else if same_value requested executed
          then "full"
          else "partial";
      requested = some text;
      remaining = some (minus_string (larger requested.scale executed.scale) requested executed);
    }

unfoldable pub execution_outcome : SimOrderWithFills → ExecutionOutcome
unfolding remainder_of execution_disposition execution_decimal
execution_outcome e =
    let r =
      remainder_of e.order.size (execution_decimal e.order.size)
        (execution_decimal e.order.filled_size) in
    let d = execution_disposition e.order in
    record {
      order_id = e.order.id;
      status = if str_eq d.0 "unknown" then "UNKNOWN" else e.order.status;
      filled_size = e.order.filled_size;
      fulfillment_state = r.fulfillment;
      average_price_final = false;
      average_price_source = "venue_aggregate";
      requested_size = r.requested;
      remaining_size = r.remaining;
      execution_state = d.0;
      remaining_disposition = d.1;
      fills_complete = e.fills_complete;
      fills = e.fills;
      avg_fill_price = e.order.avg_fill_price;
    }
