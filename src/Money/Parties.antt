-- ===== src/Money/Parties.antt =====
-- money_figure.go: the counterparty that an endpoint of a movement names.
use arca_go_sdk.Prelude.{
  String, List, [], ◌∷◌, Option, none, some, Bool, not, ◌&&◌, ◌||◌, if◌then◌else◌, lookup, str_eq,
}
use arca_go_sdk.Money.Wallet.{Endpoint, TradingAccount, Snapshot}
use arca_go_sdk.Money.Types.{PartyKind, Counterparty}

abbrev pub or_empty : Option String → String
or_empty none = ""
or_empty (some s) = s

abbrev pub external_at : String → Counterparty
external_at address = record {
  kind = PartyKind.external;
  arca_id = "";
  name = "";
  address = address;
}

abbrev unknown_at : String → Counterparty
unknown_at arca_id = record { kind = PartyKind.unknown; arca_id = arca_id; name = ""; address = "" }

-- `identity[0] != "" && identity[0] != identity[1]`
abbrev pub differs : String → String → Bool
differs x y = not (str_eq x "") && not (str_eq x y)

unfoldable pub find_account : String → List TradingAccount → Option TradingAccount
find_account arca_id [] = none
find_account arca_id (a ∷ rest) =
    if str_eq a.arca_id arca_id then some a else find_account arca_id rest

abbrev account_party : String → Option TradingAccount → Counterparty
account_party arca_id none = unknown_at arca_id
account_party arca_id (some a) = record {
  kind = PartyKind.account;
  arca_id = arca_id;
  name = or_empty (lookup "name" a.labels);
  address = "";
}

unfoldable pub money_counterparty : Endpoint → Snapshot → Counterparty
unfolding find_account lookup
money_counterparty endpoint s =
    if str_eq endpoint.kind "cash"
    then (if differs endpoint.boundary_id s.boundary_id
          || differs endpoint.arca_id s.cash_target.arca_id
          || differs endpoint.arca_path s.cash_target.arca_path
        then external_at endpoint.address
        else record { kind = PartyKind.cash; arca_id = ""; name = ""; address = "" })
    else if not (str_eq endpoint.arca_id "")
    then account_party endpoint.arca_id (find_account endpoint.arca_id s.accounts)
    else if str_eq endpoint.kind "external"
        || not (str_eq endpoint.address "")
        || (not (str_eq endpoint.kind "") && not (str_eq endpoint.kind "cash"))
    then external_at endpoint.address
    else unknown_at ""
