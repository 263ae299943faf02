-- ===== src/Execution/Receipts.antt =====
-- execution_receipt.go: the receipts that are recovered from an operation, and the order's own record.
use arca_go_sdk.Prelude.{
  ◌≡◌, refl, subst, ap, String, Option, none, some, Bool, true, false, not, ◌&&◌, if◌then◌else◌,
  str_eq, eq_iff, arith,
}
use arca_go_sdk.Execution.Decimal.{execution_decimal}
use arca_go_sdk.Execution.Types.{
  Operation, SimOrderWithFills, has_failed, Failure, Outcome, done, refused,
}
use arca_go_sdk.Execution.Disposition.{
  execution_disposition, execution_outcome, is_terminal_order_status,
}
use arca_go_sdk.Execution.Evidence.{
  OutcomeFields, Codec, decode_raw, operation_execution, execution_update, observed_operation,
}
use arca_go_sdk.Execution.Recovery.{
  OrderExecutionReceipt, execution_receipt, foreign, object_of, receipt_or, from_detail, recovered,
  get_operation_order, get_operation_execution_receipt, same_size, check_details, filled,
}
use arca_go_sdk.Execution.Provenance.{IsProof, operation_execution_sound}

module _ (codec : Codec) (get_order : String → String → Outcome SimOrderWithFills) where
  -- A receipt of this account and operation, whose execution state is known.
  pub record IsReceipt (object_id : String) (op : Operation) (r : OrderExecutionReceipt)
      : Type 0 where
    pub of_object : r.object_id ≡ object_id
    pub of_operation : r.operation_id ≡ op.id
    pub is_known : str_eq r.result.execution_state "unknown" ≡ false
    pub is_named : str_eq r.result.order_id "" ≡ false

  execution-known :
      (op : Operation) (object_id : String) (e : SimOrderWithFills)
      → operation_execution codec op object_id ≡ some e
      → (str_eq (execution_disposition e.order).0 "unknown" ≡ false)
        × (str_eq e.order.id "" ≡ false)
  execution-known op object_id e h =
      let p : (v : OutcomeFields) × (decode_raw codec op ≡ some v)
          × IsProof codec op object_id v e =
        (operation_execution_sound codec op object_id e h).1 in
      (p.2.is_known, p.2.is_named)

  execution_receipt-IsReceipt :
      (other : Operation) (e : SimOrderWithFills) (op : Operation) (object_id : String)
      (r : OrderExecutionReceipt)
      → operation_execution codec other object_id ≡ some e
      → execution_receipt e op.id object_id ≡ r
      → IsReceipt object_id op r
  unfolding execution_receipt execution_outcome
  execution_receipt-IsReceipt other e op object_id r h q =
      let k : (str_eq (execution_disposition e.order).0 "unknown" ≡ false)
          × (str_eq e.order.id "" ≡ false) =
        execution-known other object_id e h in
      subst (IsReceipt object_id op) q
        (record { of_object = refl; of_operation = refl; is_known = k.0; is_named = k.1 })

  done-injective : (x y : OrderExecutionReceipt) → done x ≡ done y → x ≡ y
  done-injective x y h =
      ap (λ (o : Outcome OrderExecutionReceipt). elim o [ done z ↦ z | refused f ↦ x ]) h

  receipt_or-IsReceipt :
      (other op : Operation) (object_id : String) (x : Option SimOrderWithFills)
      (r : OrderExecutionReceipt)
      → operation_execution codec other object_id ≡ x
      → receipt_or codec get_order Failure.unresolved op.id object_id x ≡ done r
      → IsReceipt object_id op r
  unfolding receipt_or
  receipt_or-IsReceipt other op object_id none r h q = absurd (ground arith)
  receipt_or-IsReceipt other op object_id (some e) r h q =
      execution_receipt-IsReceipt other e op object_id r h (done-injective _ r q)

  from_detail-IsReceipt :
      (op : Operation) (object_id : String) (d : Outcome SimOrderWithFills)
      (r : OrderExecutionReceipt)
      → from_detail codec get_order object_id op d ≡ done r
      → IsReceipt object_id op r
  unfolding from_detail execution_update
  from_detail-IsReceipt op object_id (refused f) r q = absurd (ground arith)
  from_detail-IsReceipt op object_id (done detail) r q =
      receipt_or-IsReceipt (observed_operation codec op detail.order) op object_id _ r refl q

  recovered-IsReceipt :
      (op : Operation) (object_id : String) (x : Option SimOrderWithFills)
      (r : OrderExecutionReceipt)
      → operation_execution codec op object_id ≡ x
      → recovered codec get_order object_id op x ≡ done r
      → IsReceipt object_id op r
  unfolding recovered
  recovered-IsReceipt op object_id (some e) r h q =
      execution_receipt-IsReceipt op e op object_id r h (done-injective _ r q)
  recovered-IsReceipt op object_id none r h q =
      from_detail-IsReceipt op object_id (get_operation_order codec get_order object_id op) r q

  both_guards :
      (b c : Bool) (f g : Failure) (o : Outcome OrderExecutionReceipt) (r : OrderExecutionReceipt)
      → (if b then refused f else if c then refused g else o) ≡ done r
      → (b ≡ false) × (c ≡ false) × (o ≡ done r)
  both_guards true c f g o r h = absurd (ground arith)
  both_guards false true f g o r h = absurd (ground arith)
  both_guards false false f g o r h = (refl, refl, h)

  -- A receipt is recovered only for an operation that did not fail and whose input names no other
  -- account. It names the account, the operation and an order, and its execution state is known.
  pub get_operation_execution_receipt_sound :
      (object_id : String) (op : Operation) (r : OrderExecutionReceipt)
      → get_operation_execution_receipt codec get_order object_id op ≡ done r
      → (foreign object_id (object_of codec get_order op.input) ≡ false)
        × (has_failed op.state ≡ false)
        × IsReceipt object_id op r
  unfolding get_operation_execution_receipt
  get_operation_execution_receipt_sound object_id op r h =
      let (own, alive, rest) =
        both_guards (foreign object_id (object_of codec get_order op.input)) (has_failed op.state) _
          _ (recovered codec get_order object_id op (operation_execution codec op object_id)) r h in
      (
        own,
        alive,
        recovered-IsReceipt op object_id (operation_execution codec op object_id) r refl rest,
      )

  evidence-injective : (x y : SimOrderWithFills) → done x ≡ done y → x ≡ y
  evidence-injective x y h =
      ap (λ (o : Outcome SimOrderWithFills). elim o [ done z ↦ z | refused f ↦ x ]) h

  detail_guards :
      (a b c : Bool) (f g : Failure) (x d : SimOrderWithFills)
      → (if not a then refused f else if b && c then done x else refused g) ≡ done d
      → (a ≡ true) × (b ≡ true) × (c ≡ true) × (x ≡ d)
  detail_guards true true true f g x d h = (refl, refl, refl, evidence-injective x d h)
  detail_guards true true false f g x d h = absurd (ground arith)
  detail_guards true false c f g x d h = absurd (ground arith)
  detail_guards false b c f g x d h = absurd (ground arith)

  abbrev pub Matches : OrderExecutionReceipt → SimOrderWithFills → Type 0
  Matches receipt d =
      (d.order.id ≡ receipt.result.order_id)
      × (is_terminal_order_status d.order.status ≡ true)
      × (same_size codec get_order (execution_decimal receipt.result.filled_size)
            (execution_decimal d.order.filled_size)
          ≡ true)

  check_details-Matches :
      (receipt : OrderExecutionReceipt) (o : Outcome SimOrderWithFills) (d : SimOrderWithFills)
      → check_details codec get_order receipt o ≡ done d
      → (o ≡ done d) × Matches receipt d
  unfolding check_details
  check_details-Matches receipt (refused f) d h = absurd (ground arith)
  check_details-Matches receipt (done x) d h =
      let (a, b, c, e) =
        detail_guards (str_eq x.order.id receipt.result.order_id)
          (is_terminal_order_status x.order.status)
          (same_size codec get_order (execution_decimal receipt.result.filled_size)
            (execution_decimal x.order.filled_size))
          Failure.identity_mismatch Failure.details_pending x d h in
      (ap done e, subst (Matches receipt) e ((eq_iff x.order.id receipt.result.order_id).0 a, b, c))

  -- Filled returns what reading the receipt's order gives, and only if that has the receipt's order id,
  -- is terminal, and reports the receipt's filled size as the same decimal value.
  pub filled_sound :
      (object_id : String) (receipt : OrderExecutionReceipt) (d : SimOrderWithFills)
      → filled codec get_order object_id (done receipt) ≡ done d
      → (get_order object_id receipt.result.order_id ≡ done d) × Matches receipt d
  unfolding filled
  filled_sound object_id receipt d h =
      check_details-Matches receipt (get_order object_id receipt.result.order_id) d h
