-- ===== src/Tests/Execution.antt =====
-- operation.go, order_execution.go and execution_receipt.go at concrete inputs.
use arca_go_sdk.Prelude.{
  ℕ, ◌≡◌, ◌⊎◌, ◌↔◌, inl, inr, refl, String, List, [], ◌∷◌, map, Option, none, some, true, false,
  arith,
}
use arca_go_sdk.Execution.Decimal.{Decimal, execution_decimal, units_at}
use arca_go_sdk.Execution.Types.{
  Operation, State, OperationState, SimOrder, SimFill, SimOrderWithFills, Failure, Outcome, done,
  refused, is_completed, has_failed,
}
use arca_go_sdk.Execution.Disposition.{execution_disposition}
use arca_go_sdk.Execution.Evidence.{
  OutcomeFields, Intent, Codec, no_fields, decode_raw, operation_execution, execution_update,
}
use arca_go_sdk.Execution.Recovery.{
  OrderExecutionReceipt, execution_receipt, foreign, object_of, get_operation_execution_receipt,
}
use arca_go_sdk.Execution.Verdicts.{Says, execution_disposition-Says}
use arca_go_sdk.Execution.Provenance.{IsProof, operation_execution_sound}
use arca_go_sdk.Execution.Receipts.{IsReceipt, get_operation_execution_receipt_sound}
use arca_go_sdk.Execution.Handle.{
  Attempt, new_operation_handle, settle, wait_all, first_then_same, wait_all-first_then_same,
}
use arca_go_sdk.Execution.Fills.{on_fill, Sound, on_fill-Sound}
use arca_go_sdk.Execution.Accounting.{recorded_sizes_cover}
use arca_go_sdk.Execution.Cover.{sum_at, recorded_sizes_cover_iff}
use arca_go_sdk.Execution.Waiting.{Event, Waiting, Input, run}
use arca_go_sdk.Execution.Justified.{Justified}
use arca_go_sdk.Execution.Waits.{Known, run-Justified}
use arca_go_sdk.Execution.Buffer.{Has, IsEvidence}
use arca_go_sdk.Execution.Early.{NotLost, run-NotLost}

abbrev test_order : SimOrder
test_order = record {
  id = "ord7";
  account_id = "";
  market = "BTC";
  side = "BUY";
  order_type = "MARKET";
  size = "0.3";
  filled_size = "0.1";
  avg_fill_price = none;
  status = "FILLED";
  time_in_force = "GTC";
}

abbrev test_fields : OutcomeFields
test_fields = record {
  order_id = "ord7";
  status = "FILLED";
  filled_size = "0.1";
  avg_fill_price = none;
  fills = [];
  fills_complete = none;
}

abbrev test_intent : Intent
test_intent = record {
  object_id = "obj1";
  market = "BTC";
  side = "BUY";
  order_type = "MARKET";
  size = "0.30";
  time_in_force = "GTC";
  effect = some 1;
}

abbrev test_codec : Codec
test_codec = record {
  decode_outcome = λ t. some test_fields;
  decode_parsed = λ f. some no_fields;
  decode_map = λ t. none;
  decode_object = λ t. some "obj1";
  decode_intent = λ t. some test_intent;
  encode = λ a b c d. "{}";
}

abbrev test_operation : Operation
test_operation = record {
  id = "op3";
  state = State.known OperationState.completed;
  input = some "in";
  outcome = some "out";
  parsed_outcome = none;
  failure_message = none;
}

abbrev test_evidence : SimOrderWithFills
test_evidence = record {
  fills_complete = some false;
  order = record test_order { size = "0.30"; time_in_force = "IOC" };
  fills = [];
}

test_get_order : String → String → Outcome SimOrderWithFills
test_get_order object_id order_id = done (record test_evidence { fills_complete = some true })

abbrev test_receipt : OrderExecutionReceipt
unfolding execution_receipt
test_receipt = execution_receipt test_evidence "op3" "obj1"

execution_disposition-Says_example :
    ((execution_decimal "0.1" ≡ none) × (execution_disposition test_order ≡ ("unknown", "unknown")))
    ⊎ ((got : Decimal) × (execution_decimal "0.1" ≡ some got)
        × Says (execution_disposition test_order).0 got (execution_decimal "0.3"))
execution_disposition-Says_example = execution_disposition-Says test_order

operation_execution_sound_example :
    (is_completed test_operation.state ≡ true)
    × ((v : OutcomeFields) × (decode_raw test_codec test_operation ≡ some v)
        × IsProof test_codec test_operation "obj1" v test_evidence)
unfolding operation_execution
operation_execution_sound_example =
    operation_execution_sound test_codec test_operation "obj1" test_evidence refl

get_operation_execution_receipt_sound_example :
    (foreign "obj1" (object_of test_codec test_get_order (some "in")) ≡ false)
    × (has_failed test_operation.state ≡ false)
    × IsReceipt test_codec test_get_order "obj1" test_operation test_receipt
unfolding get_operation_execution_receipt execution_receipt
get_operation_execution_receipt_sound_example =
    get_operation_execution_receipt_sound test_codec test_get_order "obj1" test_operation
      test_receipt refl

abbrev pending_operation : Operation
pending_operation = record test_operation { state = State.known OperationState.pending }

abbrev op_itself : Operation → Option Operation
op_itself o = some o

abbrev take_new : Operation → Operation → Operation
take_new old new = new

abbrev test_attempts : List Attempt
test_attempts =
    record { cut_short = false; answer = refused (Failure.transport "timeout") }
    ∷ record { cut_short = false; answer = done test_operation }
    ∷ record { cut_short = true; answer = refused (Failure.transport "timeout") }
    ∷ []

wait_all-first_then_same_example :
    wait_all op_itself take_new pending_operation test_attempts
      (new_operation_handle op_itself take_new pending_operation (pending_operation, none))
    ≡ first_then_same op_itself take_new pending_operation (
        map
          (λ a.
            settle op_itself take_new pending_operation a
              (new_operation_handle op_itself take_new pending_operation (pending_operation, none)))
          test_attempts)
wait_all-first_then_same_example =
    wait_all-first_then_same op_itself take_new pending_operation test_attempts
      (pending_operation, none)

abbrev test_fill : SimFill
test_fill = record {
  id = "f1";
  order_id = "ord7";
  size = "0.1";
  cloid = "";
  is_optimistic = false;
  operation_id = "op8";
  fill_id = "";
  order_operation_id = "";
}

on_fill-Sound_example :
    Sound "ord7" ""
      (test_fill ∷ test_fill ∷ record test_fill { order_id = "ord9" } ∷ [])
      []
      (on_fill "ord7" "" (test_fill ∷ test_fill ∷ record test_fill { order_id = "ord9" } ∷ []) [])
on_fill-Sound_example =
    on_fill-Sound "ord7" "" (test_fill ∷ test_fill ∷ record test_fill { order_id = "ord9" } ∷ []) []

abbrev tenths : ℕ → Decimal
tenths n = record { units = n; scale = 1 }

recorded_sizes_cover_iff_example :
    (recorded_sizes_cover ("0.1" ∷ "0.2" ∷ []) "0.30" ≡ true)
    ↔ (sum_at 2 (tenths 1 ∷ tenths 2 ∷ []) ≡ units_at 2 (record { units = 30; scale = 2 }))
unfolding execution_decimal
recorded_sizes_cover_iff_example =
    recorded_sizes_cover_iff 2 ("0.1" ∷ "0.2" ∷ []) "0.30" (tenths 1 ∷ tenths 2 ∷ [])
      (record { units = 30; scale = 2 }) refl refl (omega arith, (omega arith, tt)) (omega arith)

abbrev test_event : Event
test_event = record { operation = none; order = some test_order; entity_id = "obj1" }

abbrev test_inputs : List (Input test_codec test_operation "obj1")
test_inputs =
    Input.wakes
    ∷ Input.arrives test_event
    ∷ Input.wakes
    ∷ Input.examines
    ∷ Input.resolves "ord7"
    ∷ Input.wakes
    ∷ Input.examines
    ∷ []

run-Justified_example :
    (resolved : String) × Known test_codec test_operation "obj1" test_inputs "" resolved
    × Justified test_codec test_operation "obj1" resolved (done test_evidence)
unfolding run execution_update
run-Justified_example =
    run-Justified test_codec test_operation "obj1" test_inputs
      (record { events = []; batch = []; resolved = "" }) (done test_evidence) refl

abbrev test_waiting : Waiting
test_waiting = record { events = test_event ∷ []; batch = []; resolved = "" }

test_is_evidence : IsEvidence test_codec test_operation "obj1" test_event test_order
unfolding execution_update
test_is_evidence = record {
  has_order = refl;
  of_account = refl;
  is_named = refl;
  is_final = refl;
  evidence = test_evidence;
  is_joined = refl;
}

run-NotLost_example :
    NotLost test_codec test_operation "obj1" test_event test_order test_is_evidence test_inputs
      test_waiting
run-NotLost_example =
    run-NotLost test_codec test_operation "obj1" test_event test_order test_is_evidence test_inputs
      test_waiting (refl, tt)
      (record { no_other = inl refl; buffered = inr Has.here; room = omega arith })
