-- ===== src/Money/Change.antt =====
-- money_figure.go: why a figure last moved.
use arca_go_sdk.Prelude.{
  ℕ, String, List, [], ◌∷◌, ◌++◌, Option, none, some, Bool, true, false, not, ◌&&◌, ◌||◌,
  if◌then◌else◌, is_none, str_eq,
}
use arca_go_sdk.Money.Micro.{micro_difference}
use arca_go_sdk.Money.Wallet.{TradingAccount, Operation, CashOperation, Snapshot}
use arca_go_sdk.Money.Types.{
  PartyKind, Counterparty, crosses_wallet, Leg, LegId, id, same_direction, same_stage, Cause,
  Change, FigureKind, Figure, WalletMoney,
}
use arca_go_sdk.Money.Parties.{money_counterparty}
use arca_go_sdk.Money.Legs.{last_operation}

unfoldable pub touches_end : Figure → FigureKind → Counterparty → Bool
unfolding crosses_wallet
touches_end f FigureKind.cash c = elim c.kind [ PartyKind.cash ↦ true | _ ↦ false ]
touches_end f FigureKind.account c = elim c.kind [
  | PartyKind.account ↦ str_eq c.arca_id f.arca_id
  | _ ↦ false
]
touches_end f FigureKind.total c = crosses_wallet c

unfoldable pub money_touches : Operation → Figure → Snapshot → Bool
unfolding touches_end money_counterparty
money_touches op f s =
    touches_end f f.kind (money_counterparty op.source s)
    || touches_end f f.kind (money_counterparty op.target s)

-- `touched{id, kind}`
abbrev pub Touched : Type 0
Touched = String × String

abbrev same_id : LegId → LegId → Bool
same_id (i, d) (j, e) = str_eq i j && same_direction d e

-- What a map from identities to legs has, which a loop over these legs filled: the last one.
unfoldable pub last_leg : LegId → List Leg → Option Leg
unfolding id
last_leg i [] = none
last_leg i (l ∷ ls) = elim (last_leg i ls) [
  | some later ↦ some later
  | none ↦ if same_id (id l) i then some l else none
]

abbrev has_stage_of : Leg → Option Leg → Bool
has_stage_of l none = false
has_stage_of l (some old) = same_stage old.stage l.stage

-- The legs that are new or at another stage.
unfoldable pub leg_hits : List Leg → List Leg → List Touched
unfolding last_leg id
leg_hits before [] = []
leg_hits before (l ∷ ls) =
    let rest = leg_hits before ls in
    if has_stage_of l (last_leg (id l) before) then rest else (l.operation_id, l.kind) ∷ rest

-- The legs of the last frame that this one does not list.
unfoldable pub retired_legs : List Leg → List Leg → List Leg
unfolding last_leg id
retired_legs now [] = []
retired_legs now (l ∷ ls) =
    let rest = retired_legs now ls in if is_none (last_leg (id l) now) then l ∷ rest else rest

unfoldable pub touched_by : List Leg → List Touched
touched_by [] = []
touched_by (l ∷ ls) = (l.operation_id, l.kind) ∷ touched_by ls

abbrev same_bool : Bool → Bool → Bool
same_bool true b = b
same_bool false b = not b

abbrev unchanged : Operation → Option Operation → Bool
unchanged op none = false
unchanged op (some old) =
    str_eq old.stage op.stage
    && str_eq old.status op.status
    && (same_bool old.credit_booked op.credit_booked && same_bool old.debit_booked op.debit_booked)

unfoldable pub operation_hits : Figure → Snapshot → List Operation → List Operation → List Touched
unfolding money_touches last_operation
operation_hits f s before [] = []
operation_hits f s before (op ∷ ops) =
    let rest = operation_hits f s before ops in
    if money_touches op f s && not (unchanged op (last_operation op.operation_id before))
    then (op.operation_id, op.kind) ∷ rest
    else rest

unfoldable pub last_cash_operation : String → List CashOperation → Option CashOperation
last_cash_operation i [] = none
last_cash_operation i (op ∷ ops) = elim (last_cash_operation i ops) [
  | some later ↦ some later
  | none ↦ if str_eq op.id i then some op else none
]

abbrev has_state_of : CashOperation → Option CashOperation → Bool
has_state_of op none = false
has_state_of op (some old) = str_eq old.state op.state

abbrev is_cash : FigureKind → Bool
is_cash FigureKind.cash = true
is_cash _ = false

-- The operations of Cash that are new or in another state, of which the total takes the sends.
unfoldable pub cash_changes :
    FigureKind → List CashOperation → List CashOperation → List CashOperation
unfolding last_cash_operation
cash_changes FigureKind.account before ops = []
cash_changes k before [] = []
cash_changes k before (op ∷ ops) =
    let rest = cash_changes k before ops in
    if not (has_state_of op (last_cash_operation op.id before))
      && (str_eq op.kind "send" || is_cash k)
    then op ∷ rest
    else rest

unfoldable pub cash_hits : List CashOperation → List Touched
cash_hits [] = []
cash_hits (op ∷ ops) = (op.id, op.kind) ∷ cash_hits ops

unfoldable pub cash_status_of : String → String
cash_status_of state =
    if str_eq state "completed"
    then "succeeded"
    else if str_eq state "failed"
    then "failed"
    else "pending"

abbrev status_in : Option CashOperation → String
status_in none = ""
status_in (some op) = cash_status_of op.state

-- `retired[id]`
unfoldable pub last_retired : String → List Leg → Option Leg
last_retired i [] = none
last_retired i (l ∷ ls) = elim (last_retired i ls) [
  | some later ↦ some later
  | none ↦ if str_eq l.operation_id i then some l else none
]

pub record Moved : Type 0 where
  pub cause : Touched
  pub retired : Option Leg
  pub status : String

abbrev status_or : String → Option Operation → String
status_or s none = s
status_or s (some op) = op.status

unfoldable pub legs_of : Option Figure → List Leg
legs_of none = []
legs_of (some f) = f.arriving ++ f.departing

unfoldable pub first_moved :
    List Leg → List CashOperation → List Operation → List Touched → Option Moved
unfolding last_retired last_cash_operation last_operation cash_status_of
first_moved retired changed ops [] = none
first_moved retired changed ops ((i, k) ∷ hits) = some (record {
  cause = (i, k);
  retired = last_retired i retired;
  status = status_or (status_in (last_cash_operation i changed)) (last_operation i ops);
})

unfoldable pub money_hits : Figure → Option Figure → Snapshot → WalletMoney → List Touched
unfolding leg_hits retired_legs touched_by operation_hits cash_changes cash_hits legs_of
money_hits f previous s money =
    leg_hits (legs_of previous) (legs_of (some f))
    ++ (touched_by (retired_legs (legs_of (some f)) (legs_of previous))
        ++ (operation_hits f s money.snapshot.operations s.operations
            ++ cash_hits (cash_changes f.kind money.snapshot.cash.operations s.cash.operations)))

unfoldable pub money_operation_that_moved :
    Figure → Option Figure → Snapshot → WalletMoney → Option Moved
unfolding first_moved money_hits retired_legs cash_changes legs_of
money_operation_that_moved f previous s money =
    first_moved (retired_legs (legs_of (some f)) (legs_of previous))
      (cash_changes f.kind money.snapshot.cash.operations s.cash.operations) s.operations
      (money_hits f previous s money)

settled_difference : Option String → Option String → Option String
unfolding micro_difference
settled_difference (some now) (some before) = micro_difference now before
settled_difference _ _ = none

unfoldable pub delta_of : Figure → Option Figure → Option String
unfolding settled_difference
delta_of f none = none
delta_of f (some before) = settled_difference f.settled_micro before.settled_micro

unfoldable pub venue_account : Option TradingAccount → Bool
venue_account none = false
venue_account (some a) = elim a.balances [
  | none ↦ false
  | some b ↦ str_eq b.source "hyperliquid_ws"
]

unfoldable pub change_of : Option String → Option Moved → ℕ → Option TradingAccount → Option Change
unfolding venue_account
change_of delta (some moved) sequence account = some (record {
  cause = Cause.operation moved.cause.0 moved.cause.1;
  delta_micro = elim delta [ none ↦ "0" | some d ↦ d ];
  sequence = sequence;
  retired = moved.retired;
  operation_status = moved.status;
})
change_of none none sequence account = none
change_of (some d) none sequence account =
    if not (str_eq d "0") && venue_account account
    then some (record {
      cause = Cause.venue;
      delta_micro = d;
      sequence = sequence;
      retired = none;
      operation_status = "";
    })
    else none

unfoldable pub money_change :
    Option Figure → Figure → Snapshot → WalletMoney → ℕ → Option TradingAccount → Option Change
unfolding change_of delta_of money_operation_that_moved
money_change previous f s money sequence account =
    change_of (delta_of f previous) (money_operation_that_moved f previous s money) sequence account
