-- ===== src/Money/Legs.antt =====
-- money_figure.go: the legs of a snapshot's moving entries, and where they show.
use arca_go_sdk.Prelude.{
  String, List, [], ◌∷◌, ◌++◌, Option, none, some, false, not, ◌&&◌, if◌then◌else◌, lookup, put,
  str_eq,
}
use arca_go_sdk.Money.Wallet.{Moving, Operation, Snapshot}
use arca_go_sdk.Money.Types.{
  Direction, incoming, outgoing, Stage, reserved, in_transit, expected, PartyKind, Counterparty,
  crosses_wallet, listed, Leg,
}
use arca_go_sdk.Money.Parties.{money_counterparty}

abbrev pub or_else {ℓ} : {A : Type ℓ} → Option A → Option A → Option A
or_else none o = o
or_else (some a) o = some a

pub record Ends : Type 0 where
  pub arriving : List Leg
  pub departing : List Leg

abbrev pub no_ends : Ends
no_ends = record { arriving = []; departing = [] }

pub record LegsByEnd : Type 0 where
  pub cash : Ends
  pub accounts : List (String × Ends)
  pub total : Ends

abbrev pub no_legs : LegsByEnd
no_legs = record { cash = no_ends; accounts = []; total = no_ends }

-- The appends of `moneyPlace` for either direction.
unfoldable pub add_leg : Leg → Direction → Ends → Ends
add_leg l outgoing e = record e { departing = e.departing ++ l ∷ [] }
add_leg l incoming e = record e { arriving = e.arriving ++ l ∷ [] }

abbrev pub ends_of : Option Ends → Ends
ends_of none = no_ends
ends_of (some e) = e

unfoldable pub place_at : Leg → PartyKind → String → LegsByEnd → LegsByEnd
unfolding add_leg lookup put
place_at leg PartyKind.cash arca_id legs = record legs {
  cash = add_leg leg leg.direction legs.cash;
}
place_at leg PartyKind.account arca_id legs = record legs {
  accounts =
      put arca_id (add_leg leg leg.direction (ends_of (lookup arca_id legs.accounts)))
        legs.accounts;
}
place_at leg _ arca_id legs = legs

unfoldable pub money_place : Leg → Counterparty → LegsByEnd → LegsByEnd
unfolding place_at
money_place leg party legs = place_at leg party.kind party.arca_id legs

-- `operations[id]` of the map that the loop over the operations filled: the last one of the id.
unfoldable pub last_operation : String → List Operation → Option Operation
last_operation operation_id [] = none
last_operation operation_id (op ∷ ops) = elim (last_operation operation_id ops) [
  | some later ↦ some later
  | none ↦ if str_eq op.operation_id operation_id then some op else none
]

unfoldable pub stage_of : String → Option Stage
stage_of leg =
    if str_eq leg "reserved"
    then some reserved
    else if str_eq leg "in_transit"
    then some in_transit
    else if str_eq leg "expected"
    then some expected
    else none

-- The leg at the source, whose counterparty is the target; the arriving one is its mirror image.
unfoldable pub departing_leg : Moving → Stage → Option Operation → Counterparty → Leg
departing_leg entry stage op to_party = record {
  operation_id = entry.operation_id;
  request_id = elim op [ none ↦ "" | some o ↦ o.request_id ];
  kind = entry.kind;
  direction = outgoing;
  stage = stage;
  amount_micro = entry.amount_micro;
  counterparty = to_party;
  predicted = false;
  started_at = elim op [ none ↦ "" | some o ↦ o.created_at ];
}

unfoldable pub arriving_leg : Leg → Counterparty → Leg
arriving_leg departing from_party = record departing {
  direction = incoming;
  counterparty = from_party;
}

-- The `switch stage`.
unfoldable pub place_stage : Stage → Leg → Leg → Counterparty → Counterparty → LegsByEnd → LegsByEnd
unfolding money_place listed
place_stage reserved departing arriving from_party to_party legs =
    money_place arriving to_party (money_place departing from_party legs)
place_stage in_transit departing arriving from_party to_party legs =
    if listed to_party
    then money_place arriving to_party legs
    else money_place departing from_party legs
place_stage expected departing arriving from_party to_party legs =
    money_place arriving to_party legs

-- The two tests after it: what crosses the wallet's boundary shows on the total.
unfoldable pub place_total : Leg → Leg → Counterparty → Counterparty → Ends → Ends
unfolding add_leg crosses_wallet
place_total departing arriving from_party to_party ends =
    if crosses_wallet to_party && not (crosses_wallet from_party)
    then add_leg departing outgoing ends
    else if crosses_wallet from_party && not (crosses_wallet to_party)
    then add_leg arriving incoming ends
    else ends

unfoldable pub place_legs : Leg → Counterparty → Counterparty → LegsByEnd → LegsByEnd
unfolding place_stage place_total arriving_leg
place_legs departing from_party to_party legs =
    let placed =
      place_stage departing.stage departing (arriving_leg departing from_party) from_party to_party
        legs in
    record placed {
      total =
          place_total departing (arriving_leg departing from_party) from_party to_party
            placed.total;
    }

unfoldable pub place_entry : Snapshot → Moving → Option Stage → LegsByEnd → LegsByEnd
unfolding place_legs departing_leg money_counterparty last_operation
place_entry s entry none legs = legs
place_entry s entry (some stage) legs =
    place_legs
      (departing_leg entry stage (last_operation entry.operation_id s.operations)
        (money_counterparty entry.target s))
      (money_counterparty entry.source s) (money_counterparty entry.target s) legs

unfoldable pub place_entries : Snapshot → List Moving → LegsByEnd → LegsByEnd
unfolding place_entry stage_of
place_entries s [] legs = legs
place_entries s (entry ∷ entries) legs =
    place_entries s entries (place_entry s entry (stage_of entry.leg) legs)

unfoldable pub money_legs_by_end : Snapshot → LegsByEnd
unfolding place_entries
money_legs_by_end s = place_entries s s.moving no_legs
