-- ===== src/Money/Totals.antt =====
-- money_figure.go: an account's payout, the total of the parts, and which snapshot supersedes which.
use arca_go_sdk.Prelude.{
  String, List, [], ◌∷◌, ◌++◌, Option, none, some, Bool, true, ◌&&◌, ◌||◌, if◌then◌else◌, leb,
  str_eq,
}
use arca_go_sdk.Prelude.Int.{ℤ, pos, ltb_ℤ, ◌+ℤ◌}
use arca_go_sdk.Money.Micro.{micro_parse, micro_sum, int_string}
use arca_go_sdk.Money.Wallet.{NativeBalances, TradingAccount, Moving, Snapshot}

payout_of : Option ℤ → Option ℤ → Option String
unfolding int_string
payout_of (some withdrawable) (some spot) =
    if ltb_ℤ withdrawable (pos 0) || ltb_ℤ spot (pos 0)
    then none
    else some (int_string (withdrawable +ℤ spot))
payout_of _ _ = none

unfoldable pub money_account_payout : NativeBalances → Option String
unfolding payout_of micro_parse
money_account_payout b = payout_of (micro_parse b.withdrawable_micro) (micro_parse b.spot_micro)

-- `none` if an account that is not archived has no balances.
unfoldable pub account_terms : List TradingAccount → Option (List String)
account_terms [] = some []
account_terms (a ∷ rest) =
    let terms = account_terms rest in
    if str_eq a.lifecycle "archived" then terms else elim a.balances [
      | none ↦ none
      | some b ↦ elim terms [ none ↦ none | some ts ↦ some (b.total_micro ∷ ts) ]
    ]

unfoldable pub moving_terms : List Moving → List String
moving_terms [] = []
moving_terms (e ∷ es) =
    let rest = moving_terms es in if str_eq e.leg "in_transit" then e.amount_micro ∷ rest else rest

unfoldable pub money_composed_total : Snapshot → Option String
unfolding account_terms moving_terms micro_sum
money_composed_total s = elim (account_terms s.accounts) [
  | none ↦ none
  | some ts ↦ some (micro_sum (s.cash.balances.confirmed_micro ∷ (ts ++ moving_terms s.moving)))
]

-- `fold` is the representative of a character's case variants, by which strings.EqualFold compares.
unfoldable pub wallet_snapshot_supersedes : (String → String) → Snapshot → Option Snapshot → Bool
wallet_snapshot_supersedes fold next none = true
wallet_snapshot_supersedes fold next (some previous) =
    str_eq (fold previous.owner_address) (fold next.owner_address)
    && (str_eq previous.arca_path next.arca_path
        && (str_eq previous.realm_id next.realm_id && leb previous.sequence next.sequence))
