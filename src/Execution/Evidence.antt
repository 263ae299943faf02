-- ===== src/Execution/Evidence.antt =====
-- order_execution.go: when an operation or an order is evidence of execution.
use mathlib.Core.Bool.{◌||◌}
use arca_go_sdk.Prelude.{
  ℕ, String, List, [], Option, none, some, Bool, true, false, not, ◌&&◌, if◌then◌else◌, ◌==◌,
  str_eq,
}
use arca_go_sdk.Client.Json.{Fields}
use arca_go_sdk.Execution.Types.{
  Operation, State, OperationState, SimOrder, SimFill, SimOrderWithFills, is_completed,
}
use arca_go_sdk.Execution.Disposition.{
  normalize_execution_status, is_terminal_order_status, execution_disposition,
}

-- The anonymous struct that the outcome is decoded into.
pub record OutcomeFields : Type 0 where
  pub order_id : String
  pub status : String
  pub filled_size : String
  pub avg_fill_price : Option String
  pub fills : List SimFill
  pub fills_complete : Option Bool

-- The struct that the input is decoded into; `effect` is that of the prepared request.
pub record Intent : Type 0 where
  pub object_id : String
  pub market : String
  pub side : String
  pub order_type : String
  pub size : String
  pub time_in_force : String
  pub effect : Option ℕ

-- encoding/json at these structs: of a text, and of the parsed outcome by way of its text. `encode` is
-- the text of the map that executionUpdate writes.
pub record Codec : Type 0 where
  pub decode_outcome : String → Option OutcomeFields
  pub decode_parsed : Option Fields → Option OutcomeFields
  pub decode_map : String → Option Fields
  pub decode_object : String → Option String
  pub decode_intent : String → Option Intent
  pub encode : String → String → String → Option String → String

abbrev pub no_fields : OutcomeFields
no_fields = record {
  order_id = "";
  status = "";
  filled_size = "";
  avg_fill_price = none;
  fills = [];
  fills_complete = none;
}

abbrev is_effect_one : Option ℕ → Bool
is_effect_one none = false
is_effect_one (some n) = n == 1

-- A text that is there and not empty.
abbrev pub nonempty : Option String → Option String
nonempty none = none
nonempty (some t) = if str_eq t "" then none else some t

module _ (codec : Codec) where
  unfoldable pub decode_text : Option Fields → Option String → Option OutcomeFields
  decode_text parsed (some text) = codec.decode_outcome text
  decode_text parsed none = codec.decode_parsed parsed

  unfoldable pub decode_raw : Operation → Option OutcomeFields
  unfolding decode_text
  decode_raw op = decode_text op.parsed_outcome (nonempty op.outcome)

  abbrev decode_input : Option String → Option Intent
  decode_input none = none
  decode_input (some text) = codec.decode_intent text

  unfoldable pub intent_of : Operation → Option Intent
  intent_of op = decode_input op.input

abbrev pub belongs : String → Option Intent → Bool
belongs object_id none = true
belongs object_id (some i) = str_eq i.object_id "" || str_eq i.object_id object_id

-- What the operation's outcome says of the order.
unfoldable pub reported_order : OutcomeFields → SimOrder
unfolding normalize_execution_status
reported_order v = record {
  id = v.order_id;
  account_id = "";
  market = "";
  side = "";
  order_type = "";
  size = "";
  filled_size = v.filled_size;
  avg_fill_price = v.avg_fill_price;
  status = normalize_execution_status v.status;
  time_in_force = "";
}

-- What the immutable input adds to it.
unfoldable pub with_intent : Option Intent → SimOrder → SimOrder
with_intent none order = order
with_intent (some i) order = record order {
  market = i.market;
  side = i.side;
  order_type = i.order_type;
  size = i.size;
  time_in_force = if is_effect_one i.effect then "IOC" else i.time_in_force;
}

abbrev is_true : Option Bool → Bool
is_true none = false
is_true (some b) = b

unfoldable pub is_evidence : SimOrder → Bool
unfolding is_terminal_order_status execution_disposition
is_evidence order =
    is_terminal_order_status order.status && not (str_eq (execution_disposition order).0 "unknown")

unfoldable pub evidence_of : SimOrder → OutcomeFields → Option SimOrderWithFills
unfolding is_evidence
evidence_of order v =
    if is_evidence order
    then some (record {
      order = order;
      fills = v.fills;
      fills_complete = some (is_true v.fills_complete);
    })
    else none

module _ (codec : Codec) where
  unfoldable pub from_fields : Operation → String → Option OutcomeFields → Option SimOrderWithFills
  unfolding evidence_of with_intent reported_order intent_of
  from_fields op object_id none = none
  from_fields op object_id (some v) =
      if str_eq v.order_id "" || not (belongs object_id (intent_of codec op))
      then none
      else evidence_of (with_intent (intent_of codec op) (reported_order v)) v

  unfoldable pub operation_execution : Operation → String → Option SimOrderWithFills
  unfolding from_fields decode_raw is_completed
  operation_execution op object_id =
      if is_completed op.state then from_fields op object_id (decode_raw codec op) else none

  unfoldable pub observed_operation : Operation → SimOrder → Operation
  observed_operation op order = record op {
    outcome = some (codec.encode order.id order.status order.filled_size order.avg_fill_price);
    state = State.known OperationState.completed;
  }

  unfoldable pub execution_update : Operation → String → SimOrder → Option SimOrderWithFills
  unfolding operation_execution observed_operation
  execution_update op object_id order = operation_execution (observed_operation op order) object_id
