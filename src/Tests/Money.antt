-- ===== src/Tests/Money.antt =====
-- money_figure.go at concrete inputs.
use arca_go_sdk.Prelude.{
  ℕ, ◌+◌, ◌*◌, ◌^◌, ◌≤◌, ◌<◌, ◌≡◌, refl, String, [], ◌∷◌, map, length, none, some, true, false, All,
  ltb, lookup, size,
}
use arca_go_sdk.Client.Errors.{ok}
use arca_go_sdk.Money.Micro.{
  micro_parse, micro_sum, micro_from_decimal, int_string, digits_from, all_digits, signed,
}
use arca_go_sdk.Money.Sums.{sum_of, micro_sum_lem}
use arca_go_sdk.Money.Truncation.{Mark, is_negative, decimal_text, micro_from_decimal_lem}
use arca_go_sdk.Money.Wallet.{Endpoint, TradingAccount, Snapshot, Prediction, Revaluation}
use arca_go_sdk.Money.Types.{Stage, Figure, WalletMoney, account_of}
use arca_go_sdk.Money.Legs.{money_legs_by_end}
use arca_go_sdk.Money.Added.{last_account}
use arca_go_sdk.Money.Revalue.{Clock, money_revalue}
use arca_go_sdk.Money.Compose.{settled_figures, compose_wallet_money}
use arca_go_sdk.Money.Boundary.{Crosses, entering, leaving, money_legs_by_end-total}
use arca_go_sdk.Money.Verbatim.{
  amounts_of, amounts_at, account_amounts, compose_wallet_money-amounts,
}
use arca_go_sdk.Money.Extension.{Extends, ExtendsAt, compose_wallet_money-Extends}
use arca_go_sdk.Money.Attribution.{time_of, NotOlder, money_revalue_lem}

abbrev test_cash : Endpoint
test_cash = record {
  arca_path = "/w/cash";
  kind = "cash";
  arca_id = "";
  boundary_id = "b1";
  address = "";
}

abbrev test_trading : Endpoint
test_trading = record {
  arca_path = "";
  kind = "trading";
  arca_id = "acc1";
  boundary_id = "";
  address = "";
}

abbrev test_outside : Endpoint
test_outside = record {
  arca_path = "";
  kind = "external";
  arca_id = "";
  boundary_id = "";
  address = "0xab";
}

abbrev test_account : TradingAccount
test_account = record {
  arca_id = "acc1";
  labels = ("name", "Main") ∷ [];
  lifecycle = "active";
  balances = some (record {
    total_micro = "7000000";
    withdrawable_micro = "5000000";
    spot_micro = "250000";
    source = "hyperliquid_ws";
  });
  as_of = "t2";
  current = true;
  held_by = "";
}

abbrev test_snapshot : Snapshot
test_snapshot = record {
  cash_target = test_cash;
  realm_id = "rlm_1";
  owner_address = "0xAA";
  arca_path = "/w";
  boundary_id = "b1";
  cash = record {
    wallet_state = "ready";
    balances = record {
      confirmed_micro = "12000000";
      available_micro = "9000000";
      pending_in_micro = "0";
      as_of = "t1";
    };
    operations = [];
  };
  accounts = test_account ∷ [];
  moving =
      record {
        operation_id = "op1";
        kind = "deposit";
        leg = "in_transit";
        amount_micro = "3000000";
        source = test_cash;
        target = test_trading;
      }
      ∷ record {
        operation_id = "op2";
        kind = "send";
        leg = "reserved";
        amount_micro = "1000000";
        source = test_cash;
        target = test_outside;
      }
      ∷ [];
  operations =
      record {
        operation_id = "op1";
        request_id = "req1";
        kind = "deposit";
        stage = "moving";
        status = "pending";
        source = test_cash;
        target = test_trading;
        debit_booked = true;
        credit_booked = false;
        created_at = "t0";
      }
      ∷ [];
  totals = record { total_micro = "22000000"; complete = true; current = true };
  sequence = 7;
  composed_at = "t3";
}

abbrev test_prediction : Prediction
test_prediction = record {
  request_id = "req9";
  operation_id = "";
  kind = "withdraw";
  amount_micro = "2000000";
  source = test_trading;
  target = test_outside;
}

abbrev test_clock : Clock ℕ
test_clock = record { parse = λ t. some (length (t ∷ [])); before = ltb }

abbrev same : String → String
same s = s

abbrev test_money : WalletMoney
unfolding compose_wallet_money
test_money = compose_wallet_money test_clock test_snapshot none (test_prediction ∷ []) []

micro_sum_lem_example :
    micro_parse (micro_sum ("1500000" ∷ " -500000 " ∷ "x" ∷ []))
    ≡ some (sum_of (map micro_parse ("1500000" ∷ " -500000 " ∷ "x" ∷ [])))
micro_sum_lem_example = micro_sum_lem ("1500000" ∷ " -500000 " ∷ "x" ∷ [])

micro_from_decimal_lem_example :
    (n : ℕ) × (micro_from_decimal (decimal_text Mark.minus "6" "4999999")
      ≡ ok (int_string (signed (is_negative Mark.minus) n)))
    × (n * 10 ^ size "4999999" ≤ digits_from (digits_from 0 "6") "4999999" * 1_000_000)
    × (digits_from (digits_from 0 "6") "4999999" * 1_000_000 < (n + 1) * 10 ^ size "4999999")
unfolding all_digits
micro_from_decimal_lem_example = micro_from_decimal_lem Mark.minus "6" "4999999" refl refl refl

money_legs_by_end-total_example :
    All Crosses (money_legs_by_end test_snapshot).total.arriving
    × All Crosses (money_legs_by_end test_snapshot).total.departing
    × (length (money_legs_by_end test_snapshot).total.arriving
        ≡ entering test_snapshot test_snapshot.moving)
    × (length (money_legs_by_end test_snapshot).total.departing
        ≡ leaving test_snapshot test_snapshot.moving)
money_legs_by_end-total_example = money_legs_by_end-total test_snapshot

compose_wallet_money-amounts_example :
    let m = compose_wallet_money test_clock test_snapshot none (test_prediction ∷ []) [] in
    (amounts_of m.cash ≡ (some "12000000", some "9000000"))
    × (amounts_of m.total ≡ (some "22000000", none))
    × ((i : String)
        → amounts_at (account_of m i) ≡ account_amounts (last_account i test_snapshot.accounts))
compose_wallet_money-amounts_example =
    compose_wallet_money-amounts test_clock test_snapshot none (test_prediction ∷ []) []

compose_wallet_money-Extends_example :
    let before = settled_figures test_clock test_snapshot [] in
    let m = compose_wallet_money test_clock test_snapshot none (test_prediction ∷ []) [] in
    Extends test_snapshot before.cash m.cash
    × Extends test_snapshot before.total m.total
    × ((i : String) → ExtendsAt test_snapshot (lookup i before.accounts) (account_of m i))
compose_wallet_money-Extends_example =
    compose_wallet_money-Extends test_snapshot test_clock none (test_prediction ∷ []) []

abbrev test_venue : Revaluation ℕ
test_venue = record { equity_micro = "7100000"; observed_at = 5 }

abbrev test_figure : Figure
test_figure = record test_money.cash { arriving = [] }

money_revalue_lem_example :
    ("7100000" ≡ test_venue.equity_micro)
    × (test_account.held_by ≡ "")
    × All (λ l. l.stage ≡ Stage.expected) test_figure.arriving
    × NotOlder test_clock (time_of test_clock test_account) test_venue test_account.balances
unfolding money_revalue
money_revalue_lem_example =
    money_revalue_lem test_clock test_venue test_account test_figure "7100000" refl

abbrev quiet : Snapshot
quiet = record test_snapshot { operations = []; moving = [] }
