-- ===== src/Money/OwnLegs.antt =====
-- money_figure.go: the legs of the cash balance itself, and those of predictions.
use arca_go_sdk.Prelude.{
  String, List, [], ◌∷◌, Option, none, some, Bool, true, false, if◌then◌else◌, str_eq,
}
use arca_go_sdk.Prelude.Int.{ℤ, pos, ltb_ℤ}
use arca_go_sdk.Money.Micro.{micro_parse}
use arca_go_sdk.Money.Wallet.{CashOperation, Snapshot, Prediction}
use arca_go_sdk.Money.Types.{incoming, outgoing, Stage, reserved, in_transit, Counterparty, Leg}
use arca_go_sdk.Money.Parties.{external_at, money_counterparty}
use arca_go_sdk.Money.Legs.{Ends, LegsByEnd, no_legs, place_legs}

unfoldable pub send_stage : String → Option Stage
send_stage state =
    if str_eq state "sending"
    then some reserved
    else if str_eq state "confirming"
    then some in_transit
    else none

send_leg : CashOperation → Stage → Leg
send_leg op stage = record {
  operation_id = op.id;
  request_id = op.request_id;
  kind = "send";
  direction = outgoing;
  stage = stage;
  amount_micro = op.amount_micro;
  counterparty = external_at op.destination;
  predicted = false;
  started_at = op.started_at;
}

unfoldable pub cash_departing : List CashOperation → List Leg
unfolding send_leg send_stage
cash_departing [] = []
cash_departing (op ∷ ops) =
    let rest = cash_departing ops in
    if str_eq op.kind "send"
    then elim (send_stage op.state) [ some stage ↦ send_leg op stage ∷ rest | none ↦ rest ]
    else rest

abbrev pub is_positive : Option ℤ → Bool
is_positive none = false
is_positive (some n) = ltb_ℤ (pos 0) n

pending_in_leg : String → Leg
pending_in_leg amount = record {
  operation_id = "cash:pending-in";
  request_id = "";
  kind = "deposit";
  direction = incoming;
  stage = in_transit;
  amount_micro = amount;
  counterparty = external_at "";
  predicted = false;
  started_at = "";
}

unfoldable pub money_cash_own_legs : Snapshot → Ends
unfolding cash_departing pending_in_leg micro_parse
money_cash_own_legs s = record {
  arriving =
      if is_positive (micro_parse s.cash.balances.pending_in_micro)
      then pending_in_leg s.cash.balances.pending_in_micro ∷ []
      else [];
  departing = cash_departing s.cash.operations;
}

unfoldable pub predicted_leg : Prediction → Counterparty → Leg
predicted_leg p to_party = record {
  operation_id = if str_eq p.operation_id "" then p.request_id else p.operation_id;
  request_id = p.request_id;
  kind = p.kind;
  direction = outgoing;
  stage = reserved;
  amount_micro = p.amount_micro;
  counterparty = to_party;
  predicted = true;
  started_at = "";
}

-- A predicted leg is reserved, so the placement is that of `place_legs`.
unfoldable pub money_predicted_legs : Prediction → Snapshot → LegsByEnd
unfolding place_legs predicted_leg money_counterparty
money_predicted_legs p s =
    place_legs (predicted_leg p (money_counterparty p.target s)) (money_counterparty p.source s)
      (money_counterparty p.target s) no_legs
