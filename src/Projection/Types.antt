-- ===== src/Projection/Types.antt =====
-- accounting_pending.go: its types, with the fields of types_exchange.go that it reads.
use arca_go_sdk.Prelude.{String, List, Option, Bool}

pub record PendingExecution : Type 0 where
  pub operation_id : String
  pub order_id : String
  pub market : String
  pub side : String
  pub executed_size : String
  pub accounted_size : String
  pub unaccounted_size : String
  pub execution_final : Bool
  pub average_price : String

-- `Side` is "long" or "short" from the platform.
pub record SimPosition : Type 0 where
  pub id : String
  pub market : String
  pub side : String
  pub size : String
  pub entry_price : String

pub record ExchangeState : Type 0 where
  pub positions : List SimPosition
  pub accounting_pending : List PendingExecution

pub data ProjectedPositionSource : Type 0 where
  ledger : ProjectedPositionSource
  execution : ProjectedPositionSource

pub record ProjectedPosition : Type 0 where
  pub market : String
  pub side : String
  pub size : String
  pub entry_price : String
  pub source : ProjectedPositionSource
  pub ledger : Option SimPosition
  pub pending : List PendingExecution
