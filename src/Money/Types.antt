-- ===== src/Money/Types.antt =====
-- money_figure.go: its types, and those of funding_v9.go and cash_v9.go that it reads, with the
-- fields it reads.
use arca_go_sdk.Prelude.{
  ℕ, String, List, [], ◌∷◌, ◌++◌, Option, Bool, true, false, not, ◌||◌, if◌then◌else◌, lookup,
}
use arca_go_sdk.Money.Micro.{micro_sum}
use arca_go_sdk.Money.Wallet.{Snapshot}

pub data Direction : Type 0 where
  incoming outgoing : Direction

pub data Stage : Type 0 where
  reserved in_transit expected : Stage

pub data PartyKind : Type 0 where
  cash account external unknown : PartyKind

pub record Counterparty : Type 0 where
  pub kind : PartyKind
  pub arca_id : String
  pub name : String
  pub address : String

abbrev is_external : PartyKind → Bool
is_external PartyKind.external = true
is_external _ = false

abbrev pub is_listed : PartyKind → Bool
is_listed PartyKind.cash = true
is_listed PartyKind.account = true
is_listed _ = false

unfoldable pub crosses_wallet : Counterparty → Bool
crosses_wallet c = is_external c.kind

unfoldable pub listed : Counterparty → Bool
listed c = is_listed c.kind

pub record Leg : Type 0 where
  pub operation_id : String
  pub request_id : String
  pub kind : String
  pub direction : Direction
  pub stage : Stage
  pub amount_micro : String
  pub counterparty : Counterparty
  pub predicted : Bool
  pub started_at : String

-- Go builds the text `OperationID:Direction`; two legs have the same text exactly if both parts agree,
-- the direction being one of two words.
abbrev pub LegId : Type 0
LegId = String × Direction

unfoldable pub id : Leg → LegId
id l = (l.operation_id, l.direction)

abbrev pub same_direction : Direction → Direction → Bool
same_direction Direction.incoming Direction.incoming = true
same_direction Direction.outgoing Direction.outgoing = true
same_direction _ _ = false

abbrev pub same_stage : Stage → Stage → Bool
same_stage Stage.reserved Stage.reserved = true
same_stage Stage.in_transit Stage.in_transit = true
same_stage Stage.expected Stage.expected = true
same_stage _ _ = false

pub data Cause : Type 0 where
  venue : Cause
  operation : String → String → Cause

pub record Change : Type 0 where
  pub cause : Cause
  pub delta_micro : String
  pub sequence : ℕ
  pub retired : Option Leg
  pub operation_status : String

pub data FigureKind : Type 0 where
  total cash account : FigureKind

pub record Figure : Type 0 where
  pub kind : FigureKind
  pub arca_id : String
  pub settled_micro : Option String
  pub available_micro : Option String
  pub arriving : List Leg
  pub departing : List Leg
  pub as_of : String
  pub current : Bool
  pub source : String
  pub revalued_micro : String
  pub change : Option Change

abbrev pub is_expected : Stage → Bool
is_expected Stage.expected = true
is_expected _ = false

-- The loop of InMotion, and of `moneyRevalue` over the arriving legs.
unfoldable pub any_in_motion : List Leg → Bool
any_in_motion [] = false
any_in_motion (l ∷ ls) = not (is_expected l.stage) || any_in_motion ls

unfoldable pub in_motion : Figure → Bool
unfolding any_in_motion
in_motion f = any_in_motion (f.arriving ++ f.departing)

-- The amounts of the legs that are expected, or of those that are not.
unfoldable pub amounts_where : Bool → List Leg → List String
amounts_where wanted [] = []
amounts_where wanted (l ∷ ls) =
    let rest = amounts_where wanted ls in
    if is_expected l.stage
    then (if wanted then l.amount_micro ∷ rest else rest)
    else if wanted
    then rest
    else l.amount_micro ∷ rest

unfoldable pub arriving_micro : Figure → String
unfolding amounts_where micro_sum
arriving_micro f = micro_sum (amounts_where false f.arriving)

unfoldable pub amounts : List Leg → List String
amounts [] = []
amounts (l ∷ ls) = l.amount_micro ∷ amounts ls

unfoldable pub departing_micro : Figure → String
unfolding amounts micro_sum
departing_micro f = micro_sum (amounts f.departing)

unfoldable pub expected_micro : Figure → String
unfolding amounts_where micro_sum
expected_micro f = micro_sum (amounts_where true f.arriving)

pub data Diagnostic : Type 0 where
  totals_mismatch : String → String → Diagnostic
  venue_frame_ignored : String → String → Diagnostic

-- `Accounts` is a map. The watermark is its sequence, and Operations, Watermark, Complete and Current
-- are those of the snapshot.
pub record WalletMoney : Type 0 where
  pub total : Figure
  pub cash : Figure
  pub accounts : List (String × Figure)
  pub account_order : List String
  pub diagnostics : List Diagnostic
  pub snapshot : Snapshot

unfoldable pub account_of : WalletMoney → String → Option Figure
unfolding lookup
account_of m arca_id = lookup arca_id m.accounts
