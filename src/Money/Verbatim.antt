-- ===== src/Money/Verbatim.antt =====
-- money_figure.go: the amounts of the figures against those of the snapshot.
use arca_go_sdk.Prelude.{
  ◌≡◌, refl, sym, ap, ◌∙◌, String, List, [], ◌∷◌, Option, none, some, if◌then◌else◌, ltb, lookup,
  put, lookup-put, inl, inr, Bool-cases, str_eq, eq_iff,
}
use arca_go_sdk.Money.Wallet.{Revaluation, NativeBalances, TradingAccount, Snapshot, Prediction}
use arca_go_sdk.Money.Types.{Figure, WalletMoney, account_of}
use arca_go_sdk.Money.Legs.{or_else, ends_of, Ends, LegsByEnd, money_legs_by_end}
use arca_go_sdk.Money.OwnLegs.{money_predicted_legs}
use arca_go_sdk.Money.Totals.{money_account_payout}
use arca_go_sdk.Money.Added.{
  Figures, append_ends, append_at, append_accounts, append_legs, add_predictions, is_dropped,
  last_account, change_at, change_accounts, add_changes,
}
use arca_go_sdk.Money.Revalue.{Clock, Revalued, revalued_figure, money_revalue, with_revaluation}
use arca_go_sdk.Money.Compose.{
  with_balances, cash_figure, total_figure, account_figure, account_ids, Revaluations, account_with,
  account_figures, settled_figures, compose_wallet_money,
}

-- A figure's amount and what it can pay out.
abbrev pub Amounts : Type 0
Amounts = Option String × Option String

abbrev pub amounts_of : Figure → Amounts
amounts_of f = (f.settled_micro, f.available_micro)

abbrev pub amounts_at : Option Figure → Option Amounts
amounts_at none = none
amounts_at (some f) = some (amounts_of f)

abbrev balances_amounts : Option NativeBalances → Amounts
balances_amounts none = (none, none)
balances_amounts (some b) = (some b.total_micro, money_account_payout b)

abbrev pub account_amounts : Option TradingAccount → Option Amounts
account_amounts none = none
account_amounts (some a) = some (balances_amounts a.balances)

-- Nothing but the legs and the cause of a change differs.
record SameAmounts (m n : Figures) : Type 0 where
  cash_same : amounts_of m.cash ≡ amounts_of n.cash
  total_same : amounts_of m.total ≡ amounts_of n.total
  accounts_same : (i : String) → amounts_at (lookup i m.accounts) ≡ amounts_at (lookup i n.accounts)

-- To write a figure back with the amounts that it had changes no amount.
amounts_at-put :
    (i j : String) (f g : Figure) (m : List (String × Figure))
    → lookup j m ≡ some f
    → amounts_of g ≡ amounts_of f
    → amounts_at (lookup i (put j g m)) ≡ amounts_at (lookup i m)
amounts_at-put i j f g m h e = elim (Bool-cases (str_eq j i)) [
  | inl y ↦
      ap amounts_at (lookup-put j i g m ∙ ap (λ b. if b then some g else lookup i m) y)
      ∙ ap some e
      ∙ ap amounts_at (sym h ∙ ap (λ k. lookup k m) ((eq_iff j i).0 y))
  | inr n ↦ ap amounts_at (lookup-put j i g m ∙ ap (λ b. if b then some g else lookup i m) n)
]

append_at-amounts :
    (j : String) (e : Ends) (o : Option Figure) (m : List (String × Figure)) (i : String)
    → lookup j m ≡ o
    → amounts_at (lookup i (append_at j e o m)) ≡ amounts_at (lookup i m)
unfolding append_at append_ends
append_at-amounts j e none m i h = refl
append_at-amounts j e (some f) m i h = amounts_at-put i j f (append_ends e f) m h refl

append_accounts-amounts :
    (ends : List (String × Ends)) (m : List (String × Figure)) (i : String)
    → amounts_at (lookup i (append_accounts ends m)) ≡ amounts_at (lookup i m)
unfolding append_accounts
append_accounts-amounts [] m i = refl
append_accounts-amounts ((j, e) ∷ rest) m i =
    append_accounts-amounts rest (append_at j e (lookup j m) m) i
    ∙ append_at-amounts j e (lookup j m) m i refl

change_at-amounts :
    (j : String) (s : Snapshot) (w : WalletMoney) (o : Option Figure) (m : List (String × Figure))
    (i : String)
    → lookup j m ≡ o
    → amounts_at (lookup i (change_at j s w o m)) ≡ amounts_at (lookup i m)
unfolding change_at
change_at-amounts j s w none m i h = refl
change_at-amounts j s w (some f) m i h = amounts_at-put i j f _ m h refl

change_accounts-amounts :
    (order : List String) (s : Snapshot) (w : WalletMoney) (m : List (String × Figure)) (i : String)
    → amounts_at (lookup i (change_accounts order s w m)) ≡ amounts_at (lookup i m)
unfolding change_accounts
change_accounts-amounts [] s w m i = refl
change_accounts-amounts (j ∷ order) s w m i =
    change_accounts-amounts order s w (change_at j s w (lookup j m) m) i
    ∙ change_at-amounts j s w (lookup j m) m i refl

SameAmounts-trans : (m n k : Figures) → SameAmounts m n → SameAmounts n k → SameAmounts m k
SameAmounts-trans m n k p q = record {
  cash_same = p.cash_same ∙ q.cash_same;
  total_same = p.total_same ∙ q.total_same;
  accounts_same = λ i. p.accounts_same i ∙ q.accounts_same i;
}

SameAmounts-refl : (m : Figures) → SameAmounts m m
SameAmounts-refl m = record { cash_same = refl; total_same = refl; accounts_same = λ i. refl }

append_legs-SameAmounts : (l : LegsByEnd) (m : Figures) → SameAmounts (append_legs l m) m
unfolding append_legs append_ends
append_legs-SameAmounts l m = record {
  cash_same = refl;
  total_same = refl;
  accounts_same = append_accounts-amounts l.accounts m.accounts;
}

add_predictions-SameAmounts :
    (s : Snapshot) (ps : List Prediction) (m : Figures) → SameAmounts (add_predictions s ps m) m
unfolding add_predictions
add_predictions-SameAmounts s [] m = SameAmounts-refl m
add_predictions-SameAmounts s (p ∷ ps) m = elim (Bool-cases (is_dropped s p)) [
  | inl y ↦ rw y (add_predictions-SameAmounts s ps m)
  | inr n ↦ rw n (
      SameAmounts-trans (add_predictions s ps (append_legs (money_predicted_legs p s) m))
        (append_legs (money_predicted_legs p s) m) m
        (add_predictions-SameAmounts s ps (append_legs (money_predicted_legs p s) m))
        (append_legs-SameAmounts (money_predicted_legs p s) m))
]

add_changes-SameAmounts :
    (order : List String) (s : Snapshot) (w : Option WalletMoney) (m : Figures)
    → SameAmounts (add_changes order s w m) m
unfolding add_changes
add_changes-SameAmounts order s none m = SameAmounts-refl m
add_changes-SameAmounts order s (some w) m =
    elim (Bool-cases (ltb w.snapshot.sequence s.sequence)) [
      | inl y ↦ rw y (record {
        cash_same = refl;
        total_same = refl;
        accounts_same = change_accounts-amounts order s w m.accounts;
      })
      | inr n ↦ rw n (SameAmounts-refl m)
    ]

or_else-none : (o : Option Amounts) → or_else o none ≡ o
or_else-none none = refl
or_else-none (some a) = refl

with_balances-amounts :
    (b : Option NativeBalances) (f : Figure)
    → amounts_of f ≡ (none, none)
    → amounts_of (with_balances b f) ≡ balances_amounts b
unfolding with_balances
with_balances-amounts none f h = h
with_balances-amounts (some b) f h = refl

module _ {T : Type 0} (clock : Clock T) where
  revalued_figure-amounts :
      (f : Figure) (r : Revalued clock) → amounts_of (revalued_figure clock f r) ≡ amounts_of f
  revalued_figure-amounts f (Revalued.micro m) = refl
  revalued_figure-amounts f (Revalued.reason m) = refl

  with_revaluation-amounts :
      (a : TradingAccount) (r : Option (Revaluation T)) (f : Figure)
      → amounts_of (with_revaluation clock a r f).0 ≡ amounts_of f
  unfolding with_revaluation
  with_revaluation-amounts a none f = refl
  with_revaluation-amounts a (some r) f = revalued_figure-amounts f (money_revalue clock r a f)

  account_with-amounts :
      (rs : Revaluations clock) (ends : List (String × Ends)) (a : TradingAccount)
      → amounts_of (account_with clock rs ends a).0 ≡ balances_amounts a.balances
  unfolding account_with account_figure
  account_with-amounts rs ends a =
      with_revaluation-amounts a (lookup a.arca_id rs)
        (account_figure a (ends_of (lookup a.arca_id ends)))
      ∙ with_balances-amounts a.balances _ refl

  put-or_else :
      (i : String) (a : TradingAccount) (f : Figure) (m : List (String × Figure))
      (o : Option TradingAccount)
      → amounts_of f ≡ balances_amounts a.balances
      → or_else (account_amounts o) (amounts_at (lookup i (put a.arca_id f m)))
        ≡ or_else
            (account_amounts (or_else o (if str_eq a.arca_id i then some a else none)))
            (amounts_at (lookup i m))
  put-or_else i a f m (some b) h = refl
  put-or_else i a f m none h = elim (Bool-cases (str_eq a.arca_id i)) [
    | inl y ↦ rw (lookup-put a.arca_id i f m, y) (ap some h)
    | inr n ↦ rw (lookup-put a.arca_id i f m, n) refl
  ]

  account_figures-amounts :
      (rs : Revaluations clock) (ends : List (String × Ends)) (accounts : List TradingAccount)
      (m : List (String × Figure)) (i : String)
      → amounts_at (lookup i (account_figures clock rs ends accounts m))
        ≡ or_else (account_amounts (last_account i accounts)) (amounts_at (lookup i m))
  unfolding account_figures last_account
  account_figures-amounts rs ends [] m i = refl
  account_figures-amounts rs ends (a ∷ rest) m i =
      account_figures-amounts rs ends rest (put a.arca_id (account_with clock rs ends a).0 m) i
      ∙ put-or_else i a (account_with clock rs ends a).0 m (last_account i rest)
          (account_with-amounts rs ends a)

  -- Whatever the last frame, the predictions and the venue's frames are: Cash and the total show the
  -- snapshot's amounts, Cash can pay out what the snapshot says, the total nothing, and the figure of
  -- an account id, if it has one, shows the balances of the snapshot's last account of that id.
  pub compose_wallet_money-amounts :
      (s : Snapshot) (previous : Option WalletMoney) (ps : List Prediction)
      (rs : Revaluations clock)
      → let m = compose_wallet_money clock s previous ps rs in
        (amounts_of m.cash
          ≡ (some s.cash.balances.confirmed_micro, some s.cash.balances.available_micro))
        × (amounts_of m.total ≡ (some s.totals.total_micro, none))
        × ((i : String) → amounts_at (account_of m i) ≡ account_amounts (last_account i s.accounts))
  unfolding compose_wallet_money settled_figures cash_figure total_figure account_of lookup
  compose_wallet_money-amounts s previous ps rs =
      let base : Figures = settled_figures clock s rs in
      let same : SameAmounts
          (add_changes (account_ids s.accounts) s previous (add_predictions s ps base)) base =
        SameAmounts-trans _ (add_predictions s ps base) base
          (add_changes-SameAmounts (account_ids s.accounts) s previous (add_predictions s ps base))
          (add_predictions-SameAmounts s ps base) in
      (
        same.cash_same,
        same.total_same,
        λ i.
            same.accounts_same i
            ∙ account_figures-amounts rs (money_legs_by_end s).accounts s.accounts [] i
            ∙ or_else-none (account_amounts (last_account i s.accounts)),
      )
