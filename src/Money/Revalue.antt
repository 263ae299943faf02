-- ===== src/Money/Revalue.antt =====
-- money_figure.go: when a venue frame revalues the figure of an account.
use Prim.Native.String.{◌++◌ as str_append}
use arca_go_sdk.Prelude.{
  String, List, [], ◌∷◌, Option, none, some, Bool, not, if◌then◌else◌, str_eq,
}
use arca_go_sdk.Money.Wallet.{NativeBalances, TradingAccount, Revaluation}
use arca_go_sdk.Money.Types.{Figure, Diagnostic, venue_frame_ignored, any_in_motion}

-- `time.Parse(time.RFC3339Nano, _)` and `Before`.
pub record Clock (T : Type 0) : Type 0 where
  pub parse : String → Option T
  pub before : T → T → Bool

module _ {T : Type 0} (clock : Clock T) where
  -- The frame's equity, or the reason why it is ignored.
  pub data Revalued : Type 0 where
    micro : String → Revalued
    reason : String → Revalued

  unfoldable pub revalue_at : Option T → Revaluation T → Option NativeBalances → Revalued
  revalue_at none r none = Revalued.reason "no figure to revalue"
  revalue_at none r (some b) = Revalued.micro r.equity_micro
  revalue_at (some t) r balances =
      if clock.before r.observed_at t
      then Revalued.reason "venue frame older than the figure"
      else Revalued.micro r.equity_micro

  unfoldable pub money_revalue : Revaluation T → TradingAccount → Figure → Revalued
  unfolding any_in_motion revalue_at
  money_revalue r a f =
      if not (str_eq a.held_by "")
      then Revalued.reason (str_append "account held by " a.held_by)
      else if any_in_motion f.arriving
      then Revalued.reason "settlement pending toward the account"
      else revalue_at (if str_eq a.as_of "" then none else clock.parse a.as_of) r a.balances

  abbrev pub revalued_figure : Figure → Revalued → Figure
  revalued_figure f (Revalued.micro m) = record f { revalued_micro = m }
  revalued_figure f (Revalued.reason why) = f

  abbrev pub ignored : String → Revalued → List Diagnostic
  ignored i (Revalued.micro m) = []
  ignored i (Revalued.reason why) = venue_frame_ignored i why ∷ []

  unfoldable pub with_revaluation :
      TradingAccount → Option (Revaluation T) → Figure → Figure × List Diagnostic
  unfolding money_revalue
  with_revaluation a none f = (f, [])
  with_revaluation a (some r) f =
      (revalued_figure f (money_revalue r a f), ignored a.arca_id (money_revalue r a f))
