-- ===== src/Money/Wallet.antt =====
-- funding_v9.go, cash_v9.go and money_figure.go: what a wallet snapshot holds, with the fields that
-- money_figure.go reads.
use arca_go_sdk.Prelude.{ℕ, String, List, Option, Bool}

pub record Endpoint : Type 0 where
  pub arca_path : String
  pub kind : String
  pub arca_id : String
  pub boundary_id : String
  pub address : String

pub record NativeBalances : Type 0 where
  pub total_micro : String
  pub withdrawable_micro : String
  pub spot_micro : String
  pub source : String

pub record TradingAccount : Type 0 where
  pub arca_id : String
  pub labels : List (String × String)
  pub lifecycle : String
  pub balances : Option NativeBalances
  pub as_of : String
  pub current : Bool
  pub held_by : String

pub record Moving : Type 0 where
  pub operation_id : String
  pub kind : String
  pub leg : String
  pub amount_micro : String
  pub source : Endpoint
  pub target : Endpoint

pub record Operation : Type 0 where
  pub operation_id : String
  pub request_id : String
  pub kind : String
  pub stage : String
  pub status : String
  pub source : Endpoint
  pub target : Endpoint
  pub debit_booked : Bool
  pub credit_booked : Bool
  pub created_at : String

pub record CashBalances : Type 0 where
  pub confirmed_micro : String
  pub available_micro : String
  pub pending_in_micro : String
  pub as_of : String

pub record CashOperation : Type 0 where
  pub id : String
  pub kind : String
  pub state : String
  pub amount_micro : String
  pub destination : String
  pub started_at : String
  pub request_id : String

pub record CashAccount : Type 0 where
  pub wallet_state : String
  pub balances : CashBalances
  pub operations : List CashOperation

pub record Totals : Type 0 where
  pub total_micro : String
  pub complete : Bool
  pub current : Bool

pub record Snapshot : Type 0 where
  pub cash_target : Endpoint
  pub realm_id : String
  pub owner_address : String
  pub arca_path : String
  pub boundary_id : String
  pub cash : CashAccount
  pub accounts : List TradingAccount
  pub moving : List Moving
  pub operations : List Operation
  pub totals : Totals
  pub sequence : ℕ
  pub composed_at : String

pub record Prediction : Type 0 where
  pub request_id : String
  pub operation_id : String
  pub kind : String
  pub amount_micro : String
  pub source : Endpoint
  pub target : Endpoint

pub record Revaluation (T : Type 0) : Type 0 where
  pub equity_micro : String
  pub observed_at : T
