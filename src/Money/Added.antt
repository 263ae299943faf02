-- ===== src/Money/Added.antt =====
-- money_figure.go: what predictions and the previous figures add to the composed ones.
use arca_go_sdk.Prelude.{
  String, List, [], ◌∷◌, ◌++◌, Option, none, some, Bool, false, not, ◌&&◌, ◌||◌, if◌then◌else◌, ltb,
  lookup, put, str_eq,
}
use arca_go_sdk.Money.Wallet.{TradingAccount, Operation, Snapshot, Prediction}
use arca_go_sdk.Money.Types.{Figure, WalletMoney}
use arca_go_sdk.Money.Legs.{or_else, Ends, LegsByEnd}
use arca_go_sdk.Money.OwnLegs.{money_predicted_legs}
use arca_go_sdk.Money.Change.{money_change}

abbrev framed_as : String → Operation → Bool
framed_as key op =
    str_eq op.operation_id key || (not (str_eq op.request_id "") && str_eq op.request_id key)

-- `framed[key]`
unfoldable pub is_framed : String → List Operation → Bool
is_framed key [] = false
is_framed key (op ∷ ops) = framed_as key op || is_framed key ops

unfoldable pub is_dropped : Snapshot → Prediction → Bool
unfolding is_framed
is_dropped s p =
    is_framed p.request_id s.operations
    || (not (str_eq p.operation_id "") && is_framed p.operation_id s.operations)

unfoldable pub append_ends : Ends → Figure → Figure
append_ends e f = record f {
  arriving = f.arriving ++ e.arriving;
  departing = f.departing ++ e.departing;
}

unfoldable pub append_at :
    String → Ends → Option Figure → List (String × Figure) → List (String × Figure)
unfolding append_ends put
append_at i e none accounts = accounts
append_at i e (some f) accounts = put i (append_ends e f) accounts

unfoldable pub append_accounts :
    List (String × Ends) → List (String × Figure) → List (String × Figure)
unfolding append_at lookup
append_accounts [] accounts = accounts
append_accounts ((i, e) ∷ rest) accounts =
    append_accounts rest (append_at i e (lookup i accounts) accounts)

pub record Figures : Type 0 where
  pub cash : Figure
  pub accounts : List (String × Figure)
  pub total : Figure

unfoldable pub append_legs : LegsByEnd → Figures → Figures
unfolding append_ends append_accounts
append_legs legs m = record {
  cash = append_ends legs.cash m.cash;
  accounts = append_accounts legs.accounts m.accounts;
  total = append_ends legs.total m.total;
}

unfoldable pub add_predictions : Snapshot → List Prediction → Figures → Figures
unfolding is_dropped append_legs money_predicted_legs
add_predictions s [] m = m
add_predictions s (p ∷ ps) m =
    if is_dropped s p
    then add_predictions s ps m
    else add_predictions s ps (append_legs (money_predicted_legs p s) m)

unfoldable pub last_account : String → List TradingAccount → Option TradingAccount
last_account i [] = none
last_account i (a ∷ rest) =
    or_else (last_account i rest) (if str_eq a.arca_id i then some a else none)

unfoldable pub change_at :
    String
    → Snapshot
    → WalletMoney
    → Option Figure
    → List (String × Figure)
    → List (String × Figure)
unfolding put lookup money_change last_account
change_at i s previous none accounts = accounts
change_at i s previous (some f) accounts =
    put i
      (record f {
        change =
            money_change (lookup i previous.accounts) f s previous s.sequence
              (last_account i s.accounts);
      })
      accounts

unfoldable pub change_accounts :
    List String → Snapshot → WalletMoney → List (String × Figure) → List (String × Figure)
unfolding change_at lookup
change_accounts [] s previous accounts = accounts
change_accounts (i ∷ order) s previous accounts =
    change_accounts order s previous (change_at i s previous (lookup i accounts) accounts)

unfoldable pub add_changes : List String → Snapshot → Option WalletMoney → Figures → Figures
unfolding change_accounts money_change
add_changes order s none m = m
add_changes order s (some previous) m =
    if ltb previous.snapshot.sequence s.sequence
    then record {
      cash = record m.cash {
        change = money_change (some previous.cash) m.cash s previous s.sequence none;
      };
      accounts = change_accounts order s previous m.accounts;
      total = record m.total {
        change = money_change (some previous.total) m.total s previous s.sequence none;
      };
    }
    else m
