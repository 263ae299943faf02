-- ===== src/Execution/Recovery.antt =====
-- order_execution.go and execution_receipt.go: the order of an operation, and its receipt.
use arca_go_sdk.Prelude.{String, Option, none, some, Bool, false, not, ◌&&◌, if◌then◌else◌, str_eq}
use arca_go_sdk.Client.Json.{Fields, get_field, as_string}
use arca_go_sdk.Execution.Decimal.{Decimal, execution_decimal, same_value}
use arca_go_sdk.Execution.Types.{
  Operation, SimOrderWithFills, snapshot, has_failed, Failure, Outcome, done, refused,
}
use arca_go_sdk.Execution.Disposition.{
  is_terminal_order_status, ExecutionOutcome, execution_outcome,
}
use arca_go_sdk.Execution.Evidence.{Codec, execution_update, nonempty, operation_execution}

unfoldable order_id_in : Option Fields → String
unfolding as_string get_field
order_id_in none = ""
order_id_in (some fields) = as_string (get_field fields "orderId")

module _ (codec : Codec) where
  abbrev decoded_map : Option String → Option Fields
  decoded_map none = none
  decoded_map (some text) = codec.decode_map text

  -- `outcome["orderId"]` of the outcome's text, or of the parsed outcome.
  unfoldable pub outcome_order_id : Operation → String
  unfolding order_id_in
  outcome_order_id op = elim (decoded_map (nonempty op.outcome)) [
    | some fields ↦ order_id_in (some fields)
    | none ↦ order_id_in op.parsed_outcome
  ]

  module _ (get_order : String → String → Outcome SimOrderWithFills) where
    check_identity : String → Outcome SimOrderWithFills → Outcome SimOrderWithFills
    check_identity wanted (refused f) = refused f
    check_identity wanted (done e) =
        if not (str_eq wanted "") && not (str_eq e.order.id wanted)
        then refused Failure.identity_mismatch
        else done e

    unfoldable pub get_operation_order : String → Operation → Outcome SimOrderWithFills
    unfolding check_identity outcome_order_id
    get_operation_order object_id op =
        let id = if str_eq (outcome_order_id op) "" then op.id else outcome_order_id op in
        let found = check_identity (outcome_order_id op) (get_order object_id id) in
        if str_eq id "" then refused Failure.unresolved else found

pub record OrderExecutionReceipt : Type 0 where
  pub object_id : String
  pub operation_id : String
  pub market : String
  pub result : ExecutionOutcome

unfoldable pub execution_receipt : SimOrderWithFills → String → String → OrderExecutionReceipt
unfolding execution_outcome
execution_receipt e operation_id object_id = record {
  object_id = object_id;
  operation_id = operation_id;
  market = e.order.market;
  result = execution_outcome e;
}

-- The input names another account.
abbrev pub foreign : String → Option String → Bool
foreign object_id none = false
foreign object_id (some i) = not (str_eq i "") && not (str_eq i object_id)

module _ (codec : Codec) (get_order : String → String → Outcome SimOrderWithFills) where
  unfoldable pub receipt_or :
      Failure → String → String → Option SimOrderWithFills → Outcome OrderExecutionReceipt
  unfolding execution_receipt
  receipt_or f operation_id object_id none = refused f
  receipt_or f operation_id object_id (some e) = done (execution_receipt e operation_id object_id)

  unfoldable pub from_detail :
      String → Operation → Outcome SimOrderWithFills → Outcome OrderExecutionReceipt
  unfolding receipt_or execution_update
  from_detail object_id op (refused f) = refused f
  from_detail object_id op (done detail) =
      receipt_or Failure.unresolved op.id object_id
        (execution_update codec op object_id detail.order)

  unfoldable pub recovered :
      String → Operation → Option SimOrderWithFills → Outcome OrderExecutionReceipt
  unfolding execution_receipt from_detail get_operation_order
  recovered object_id op (some e) = done (execution_receipt e op.id object_id)
  recovered object_id op none =
      from_detail object_id op (get_operation_order codec get_order object_id op)

  abbrev pub object_of : Option String → Option String
  object_of none = none
  object_of (some text) = codec.decode_object text

  unfoldable pub get_operation_execution_receipt :
      String → Operation → Outcome OrderExecutionReceipt
  unfolding recovered operation_execution snapshot has_failed
  get_operation_execution_receipt object_id op =
      if foreign object_id (object_of op.input)
      then refused Failure.identity_mismatch
      else if has_failed op.state
      then refused (Failure.operation_failed (snapshot op))
      else recovered object_id op (operation_execution codec op object_id)

  -- Filled, from the receipt: the order's own record must be terminal, and say the same size.
  unfoldable pub same_size : Option Decimal → Option Decimal → Bool
  unfolding same_value
  same_size (some executed) (some recorded) = same_value executed recorded
  same_size _ _ = false

  unfoldable pub check_details :
      OrderExecutionReceipt → Outcome SimOrderWithFills → Outcome SimOrderWithFills
  unfolding same_size is_terminal_order_status execution_decimal
  check_details receipt (refused f) = refused f
  check_details receipt (done detail) =
      if not (str_eq detail.order.id receipt.result.order_id)
      then refused Failure.identity_mismatch
      else if is_terminal_order_status detail.order.status
          && same_size (execution_decimal receipt.result.filled_size)
              (execution_decimal detail.order.filled_size)
      then done detail
      else refused Failure.details_pending

  unfoldable pub filled : String → Outcome OrderExecutionReceipt → Outcome SimOrderWithFills
  unfolding check_details
  filled object_id (refused f) = refused f
  filled object_id (done receipt) =
      check_details receipt (get_order object_id receipt.result.order_id)
