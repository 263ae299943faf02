-- ===== src/Execution/Types.antt =====
-- types.go and types_exchange.go: operations, orders and fills, with the fields that the modelled code reads.
use arca_go_sdk.Prelude.{String, List, Option, Bool, true, false}
use arca_go_sdk.Client.Json.{Fields}

pub data OperationState : Type 0 where
  pending completed failed expired : OperationState

-- `other` is any other text that the server may send.
pub data State : Type 0 where
  known : OperationState → State
  other : String → State

pub record Operation : Type 0 where
  pub id : String
  pub state : State
  pub input : Option String
  pub outcome : Option String
  pub parsed_outcome : Option Fields
  pub failure_message : Option String

pub record SimOrder : Type 0 where
  pub id : String
  pub account_id : String
  pub market : String
  pub side : String
  pub order_type : String
  pub size : String
  pub filled_size : String
  pub avg_fill_price : Option String
  pub status : String
  pub time_in_force : String

pub record SimFill : Type 0 where
  pub id : String
  pub order_id : String
  pub size : String
  pub cloid : String
  pub is_optimistic : Bool
  pub operation_id : String
  pub fill_id : String
  pub order_operation_id : String

pub record SimOrderWithFills : Type 0 where
  pub fills_complete : Option Bool
  pub order : SimOrder
  pub fills : List SimFill

-- `OperationSnapshot`
pub record Failed : Type 0 where
  pub id : String
  pub state : State
  pub outcome : Option String
  pub failure_message : Option String

unfoldable pub snapshot : Operation → Failed
snapshot o = record {
  id = o.id;
  state = o.state;
  outcome = o.outcome;
  failure_message = o.failure_message;
}

-- Whether the operation failed or expired.
unfoldable pub has_failed : State → Bool
has_failed (State.known OperationState.failed) = true
has_failed (State.known OperationState.expired) = true
has_failed _ = false

unfoldable pub is_completed : State → Bool
is_completed (State.known OperationState.completed) = true
is_completed _ = false

unfoldable pub is_pending : State → Bool
is_pending (State.known OperationState.pending) = true
is_pending _ = false

-- The errors of these files, by what the callers tell apart.
pub data Failure : Type 0 where
  operation_failed : Failed → Failure
  unresolved identity_mismatch details_pending : Failure
  transport : String → Failure
  context_done : Failure

pub data Outcome {ℓ} (A : Type ℓ) : Type ℓ where
  done : A → Outcome A
  refused : Failure → Outcome A
