-- ===== src/Money/Compose.antt =====
-- money_figure.go: the composition of a wallet's figures from a snapshot.
use arca_go_sdk.Prelude.{
  String, List, [], ◌∷◌, ◌++◌, Option, none, some, not, ◌&&◌, if◌then◌else◌, lookup, put, str_eq,
}
use arca_go_sdk.Money.Wallet.{NativeBalances, TradingAccount, Snapshot, Prediction, Revaluation}
use arca_go_sdk.Money.Types.{FigureKind, Figure, Diagnostic, totals_mismatch, WalletMoney}
use arca_go_sdk.Money.Legs.{Ends, ends_of, money_legs_by_end}
use arca_go_sdk.Money.OwnLegs.{money_cash_own_legs}
use arca_go_sdk.Money.Totals.{money_account_payout, money_composed_total}
use arca_go_sdk.Money.Added.{Figures, add_changes, add_predictions}
use arca_go_sdk.Money.Revalue.{Clock, with_revaluation}

unfoldable pub cash_figure : Snapshot → Figure
unfolding money_legs_by_end money_cash_own_legs
cash_figure s = record {
  kind = FigureKind.cash;
  arca_id = "";
  settled_micro = some s.cash.balances.confirmed_micro;
  available_micro = some s.cash.balances.available_micro;
  arriving = (money_legs_by_end s).cash.arriving ++ (money_cash_own_legs s).arriving;
  departing = (money_legs_by_end s).cash.departing ++ (money_cash_own_legs s).departing;
  as_of = s.cash.balances.as_of;
  current = not (str_eq s.cash.wallet_state "unavailable");
  source = "cash";
  revalued_micro = "";
  change = none;
}

unfoldable pub total_figure : Snapshot → Figure
unfolding money_legs_by_end money_cash_own_legs
total_figure s = record {
  kind = FigureKind.total;
  arca_id = "";
  settled_micro = some s.totals.total_micro;
  available_micro = none;
  arriving = (money_legs_by_end s).total.arriving ++ (money_cash_own_legs s).arriving;
  departing = (money_legs_by_end s).total.departing ++ (money_cash_own_legs s).departing;
  as_of = s.composed_at;
  current = s.totals.current;
  source = "totals";
  revalued_micro = "";
  change = none;
}

unfoldable pub with_balances : Option NativeBalances → Figure → Figure
unfolding money_account_payout
with_balances none f = f
with_balances (some b) f = record f {
  settled_micro = some b.total_micro;
  available_micro = money_account_payout b;
  source = b.source;
}

unfoldable pub account_figure : TradingAccount → Ends → Figure
unfolding with_balances
account_figure a ends = with_balances a.balances (record {
  kind = FigureKind.account;
  arca_id = a.arca_id;
  settled_micro = none;
  available_micro = none;
  arriving = ends.arriving;
  departing = ends.departing;
  as_of = a.as_of;
  current = a.current;
  source = "unavailable";
  revalued_micro = "";
  change = none;
})

abbrev pub account_ids : List TradingAccount → List String
account_ids [] = []
account_ids (a ∷ rest) = a.arca_id ∷ account_ids rest

unfoldable pub mismatch : Snapshot → Option String → List Diagnostic
mismatch s none = []
mismatch s (some composed) =
    if s.totals.complete && not (str_eq composed s.totals.total_micro)
    then totals_mismatch s.totals.total_micro composed ∷ []
    else []

module _ {T : Type 0} (clock : Clock T) where
  abbrev pub Revaluations : Type 0
  Revaluations = List (String × Revaluation T)

  unfoldable pub account_with :
      Revaluations → List (String × Ends) → TradingAccount → Figure × List Diagnostic
  unfolding with_revaluation account_figure lookup
  account_with revaluations ends a =
      with_revaluation clock a (lookup a.arca_id revaluations)
        (account_figure a (ends_of (lookup a.arca_id ends)))

  -- The loop over the accounts.
  unfoldable pub account_figures :
      Revaluations
      → List (String × Ends)
      → List TradingAccount
      → List (String × Figure)
      → List (String × Figure)
  unfolding account_with put
  account_figures revaluations ends [] accounts = accounts
  account_figures revaluations ends (a ∷ rest) accounts =
      account_figures revaluations ends rest
        (put a.arca_id (account_with revaluations ends a).0 accounts)

  unfoldable pub account_diagnostics :
      Revaluations → List (String × Ends) → List TradingAccount → List Diagnostic
  unfolding account_with
  account_diagnostics revaluations ends [] = []
  account_diagnostics revaluations ends (a ∷ rest) =
      (account_with revaluations ends a).1 ++ account_diagnostics revaluations ends rest

  unfoldable pub settled_figures : Snapshot → Revaluations → Figures
  unfolding cash_figure account_figures total_figure money_legs_by_end
  settled_figures s revaluations = record {
    cash = cash_figure s;
    accounts = account_figures revaluations (money_legs_by_end s).accounts s.accounts [];
    total = total_figure s;
  }

  unfoldable pub compose_wallet_money :
      Snapshot → Option WalletMoney → List Prediction → Revaluations → WalletMoney
  unfolding settled_figures add_predictions add_changes account_diagnostics mismatch
      money_composed_total money_legs_by_end
  compose_wallet_money s previous predictions revaluations =
      let m =
        add_changes (account_ids s.accounts) s previous
          (add_predictions s predictions (settled_figures s revaluations)) in
      record {
        total = m.total;
        cash = m.cash;
        accounts = m.accounts;
        account_order = account_ids s.accounts;
        diagnostics =
            account_diagnostics revaluations (money_legs_by_end s).accounts s.accounts
            ++ mismatch s (money_composed_total s);
        snapshot = s;
      }
