-- ===== src/Projection/Compose.antt =====
-- accounting_pending.go: the composition of the book.
use Prim.Native.Char.{code}
use arca_go_sdk.Prelude.{
  String, List, [], ◌∷◌, ◌++◌, Option, none, some, Bool, true, false, not, ◌&&◌, ◌||◌,
  if◌then◌else◌, ltb, ◌==◌, contains, str_eq, trim_space,
}
use arca_go_sdk.Prelude.{to_lower}
use arca_go_sdk.Projection.Rational.{
  Rat, rat_zero, sign, is_none, is_plus, is_minus, same_sign, neg, abs, add, mul, quo, rat_decimal,
}
use arca_go_sdk.Projection.Types.{
  PendingExecution, SimPosition, ExchangeState, ProjectedPositionSource, ProjectedPosition,
}

unfoldable pub accounting_settled : ExchangeState → Bool
accounting_settled s = elim s.accounting_pending [ [] ↦ true | e ∷ es ↦ false ]

-- `pendingByMarket[market]`
unfoldable pub pending_of : String → List PendingExecution → List PendingExecution
pending_of market [] = []
pending_of market (e ∷ es) =
    let rest = pending_of market es in if str_eq e.market market then e ∷ rest else rest

-- `<` of Go's strings, which compares the bytes and so the code points.
unfoldable pub text_less : String → String → Bool
text_less String.[] String.[] = false
text_less String.[] (String.◌∷◌ d t) = true
text_less (String.◌∷◌ c s) String.[] = false
text_less (String.◌∷◌ c s) (String.◌∷◌ d t) =
    ltb (code c) (code d) || (code c == code d && text_less s t)

-- A text at its place among sorted ones, once.
unfoldable pub insert : String → List String → List String
unfolding text_less
insert t [] = t ∷ []
insert t (u ∷ us) =
    let rest = insert t us in
    if str_eq t u then u ∷ us else if text_less t u then t ∷ u ∷ us else u ∷ rest

-- The markets of a ledger.
unfoldable pub markets_of : List SimPosition → List String
markets_of [] = []
markets_of (p ∷ ps) = p.market ∷ markets_of ps

-- The keys of `pendingByMarket` that are not seen, each once and sorted.
unfoldable pub opened_markets : List String → List PendingExecution → List String
unfolding contains insert
opened_markets seen [] = []
opened_markets seen (e ∷ es) =
    let rest = opened_markets seen es in
    if contains e.market seen then rest else insert e.market rest

abbrev pub ledger_row : SimPosition → ProjectedPosition
ledger_row p = record {
  market = p.market;
  side = p.side;
  size = p.size;
  entry_price = p.entry_price;
  source = ProjectedPositionSource.ledger;
  ledger = some p;
  pending = [];
}

abbrev pub or_row : ProjectedPosition → Option (Option ProjectedPosition) → List ProjectedPosition
or_row row none = row ∷ []
or_row row (some none) = []
or_row row (some (some composed)) = composed ∷ []

abbrev pub if_open : Option (Option ProjectedPosition) → List ProjectedPosition
if_open none = []
if_open (some none) = []
if_open (some (some composed)) = composed ∷ []

abbrev pub positive : Option Rat → Option Rat
positive none = none
positive (some r) = if is_plus (sign r) then some r else none

-- The quantity-weighted price of an increase.
unfoldable pub blend : Rat → Rat → Rat → Rat → Rat
unfolding add mul quo abs
blend held entry delta price =
    quo (add (mul (abs held) entry) (mul (abs delta) price)) (add (abs held) (abs delta))

abbrev pub increased : Rat → Option Rat → Rat → Option Rat → Option Rat
increased held (some entry) delta (some price) = some (blend held entry delta price)
increased held _ delta _ = none

-- `blendedEntry`, where `price` is the average price if it can be read and is positive.
unfoldable pub blended_at : Rat → Option Rat → Rat → Option Rat → Option Rat
unfolding blend add
blended_at held entry delta price =
    if is_none (sign held) || is_none (sign (add held delta))
    then price
    else if not (same_sign (sign held) (sign (add held delta)))
    then price
    else if not (same_sign (sign delta) (sign held))
    then entry
    else increased held entry delta price

-- What the loop of composeProjectedPosition has: the signed quantity and the entry price.
pub record Composed : Type 0 where
  pub signed : Rat
  pub entry : Option Rat

-- `set_string` is big.Rat's SetString.
module _ (set_string : String → Option Rat) where
  unfoldable pub read : String → Option Rat
  unfolding trim_space
  read text = set_string (trim_space text)

  abbrev pub signed_size : String → Rat → Option Rat
  signed_size side size =
      if str_eq side "buy" || str_eq side "long"
      then some size
      else if str_eq side "sell" || str_eq side "short"
      then some (neg size)
      else none

  abbrev pub of_side : String → Option Rat → Option Rat
  of_side side none = none
  of_side side (some size) = if is_minus (sign size) then none else signed_size (to_lower side) size

  unfoldable pub signed_unaccounted : PendingExecution → Option Rat
  unfolding read neg to_lower
  signed_unaccounted e = of_side e.side (read e.unaccounted_size)

  unfoldable pub blended_entry : Rat → Option Rat → Rat → String → Option Rat
  unfolding blended_at read
  blended_entry held entry delta average_price =
      blended_at held entry delta (positive (read average_price))

  abbrev pub start_at : String → String → Option Rat → Option Composed
  start_at side entry_price none = none
  start_at side entry_price (some size) = some (record {
    signed = if str_eq side "short" then neg size else size;
    entry = positive (read entry_price);
  })

  -- The ledger's position, or a flat one.
  unfoldable pub start : Option SimPosition → Option Composed
  unfolding read neg
  start none = some (record { signed = rat_zero; entry = none })
  start (some p) = start_at p.side p.entry_price (read p.size)

  unfoldable pub apply : PendingExecution → Rat → Composed → Composed
  unfolding blended_entry add
  apply e delta c = record {
    signed = add c.signed delta;
    entry = blended_entry c.signed c.entry delta e.average_price;
  }

  unfoldable pub apply_all : List PendingExecution → Composed → Option Composed
  unfolding signed_unaccounted apply
  apply_all [] c = some c
  apply_all (e ∷ es) c = elim (signed_unaccounted e) [
    | none ↦ none
    | some delta ↦ apply_all es (apply e delta c)
  ]

  unfoldable pub composed_row :
      String → Option SimPosition → List PendingExecution → Composed → Option ProjectedPosition
  unfolding rat_decimal abs
  composed_row market ledger pending c =
      if is_none (sign c.signed)
      then none
      else some (record {
        market = market;
        side = if is_minus (sign c.signed) then "short" else "long";
        size = rat_decimal (abs c.signed);
        entry_price = elim c.entry [ none ↦ "" | some r ↦ rat_decimal r ];
        source = ProjectedPositionSource.execution;
        ledger = ledger;
        pending = pending;
      })

  abbrev apply_to : List PendingExecution → Option Composed → Option Composed
  apply_to pending none = none
  apply_to pending (some c) = apply_all pending c

  unfoldable pub compose : Option SimPosition → List PendingExecution → Option Composed
  unfolding start apply_all
  compose ledger pending = apply_to pending (start ledger)

  abbrev pub finish :
      String
      → Option SimPosition
      → List PendingExecution
      → Option Composed
      → Option (Option ProjectedPosition)
  finish market ledger pending none = none
  finish market ledger pending (some c) = some (composed_row market ledger pending c)

  -- `none` if an entry cannot be read, and `some none` if the market composes to flat. `market` is the
  -- ledger's market or else that of the entries, which are those of one market.
  unfoldable pub compose_projected_position :
      String → Option SimPosition → List PendingExecution → Option (Option ProjectedPosition)
  unfolding compose composed_row
  compose_projected_position market ledger pending =
      finish market ledger pending (compose ledger pending)

  -- The turn of the first loop.
  unfoldable pub project : List PendingExecution → SimPosition → List ProjectedPosition
  unfolding pending_of compose_projected_position
  project es p = elim (pending_of p.market es) [
    | [] ↦ ledger_row p ∷ []
    | x ∷ xs ↦ or_row (ledger_row p) (compose_projected_position p.market (some p) (x ∷ xs))
  ]

  unfoldable pub project_all : List PendingExecution → List SimPosition → List ProjectedPosition
  unfolding project
  project_all es [] = []
  project_all es (p ∷ ps) = project es p ++ project_all es ps

  unfoldable pub open_all : List PendingExecution → List String → List ProjectedPosition
  unfolding pending_of compose_projected_position
  open_all es [] = []
  open_all es (m ∷ ms) =
      if_open (compose_projected_position m none (pending_of m es)) ++ open_all es ms

  unfoldable pub projected_positions : ExchangeState → List ProjectedPosition
  unfolding project_all open_all opened_markets markets_of
  projected_positions s =
      project_all s.accounting_pending s.positions
      ++ open_all s.accounting_pending
          (opened_markets (markets_of s.positions) s.accounting_pending)
