-- ===== src/Execution/Accounting.antt =====
-- operation.go: Accounted, which waits until the account reflects an execution.
use arca_go_sdk.Prelude.{
  ℕ, ◌*◌, String, List, [], ◌∷◌, Option, none, some, Bool, true, false, not, ◌&&◌, if◌then◌else◌,
  ltb, str_eq,
}
use arca_go_sdk.Execution.Decimal.{Decimal, execution_decimal, plus, same_value}
use arca_go_sdk.Execution.Types.{SimFill, SimOrderWithFills, Failure, Outcome, done, refused}
use arca_go_sdk.Execution.Disposition.{is_terminal_order_status}
use arca_go_sdk.Execution.Fills.{recorded_fill_matches}

abbrev pub zero_total : Decimal
zero_total = record { units = 0; scale = 0 }

-- The loop of recordedSizesCover, `none` at a size that is no decimal.
unfoldable pub add_size : Option Decimal → Option Decimal → Option Decimal
unfolding plus
add_size (some total) (some size) = some (plus total size)
add_size _ _ = none

unfoldable pub total_size : List String → Option Decimal → Option Decimal
unfolding execution_decimal add_size
total_size [] total = total
total_size (raw ∷ sizes) total = total_size sizes (add_size total (execution_decimal raw))

unfoldable pub equals : Option Decimal → Option Decimal → Bool
unfolding same_value
equals (some total) (some expected) = same_value total expected
equals _ _ = false

unfoldable pub recorded_sizes_cover : List String → String → Bool
unfolding equals total_size execution_decimal
recorded_sizes_cover sizes executed =
    equals (total_size sizes (some zero_total)) (execution_decimal executed)

-- The sizes of the recorded fills of the order; a fill without an operation is not recorded.
unfoldable pub recorded_sizes : String → String → List SimFill → List String
unfolding recorded_fill_matches
recorded_sizes order_id operation_id [] = []
recorded_sizes order_id operation_id (f ∷ fs) =
    let rest = recorded_sizes order_id operation_id fs in
    if not (str_eq f.operation_id "") && recorded_fill_matches f order_id operation_id
    then f.size ∷ rest
    else rest

abbrev is_nil : List String → Bool
is_nil [] = true
is_nil (x ∷ xs) = false

-- What the order read says by itself, or else the recorded fills; `none` is a listing that failed, and
-- `listing` is `none` if there is no way to list.
covered_by : String → String → String → Option (Outcome (List SimFill)) → Option Bool
unfolding recorded_sizes recorded_sizes_cover
covered_by executed order_id operation_id none = some false
covered_by executed order_id operation_id (some (refused f)) = none
covered_by executed order_id operation_id (some (done fills)) = some (
    not (is_nil (recorded_sizes order_id operation_id fills))
    && recorded_sizes_cover (recorded_sizes order_id operation_id fills) executed)

accounted_by :
    Option Bool
    → SimOrderWithFills
    → String
    → String
    → Option (Outcome (List SimFill))
    → Option Bool
unfolding covered_by is_terminal_order_status recorded_sizes_cover
accounted_by (some complete) detail order_id operation_id listing = some complete
accounted_by none detail order_id operation_id listing =
    if not (is_terminal_order_status detail.order.status)
    then some false
    else if recorded_sizes_cover [] detail.order.filled_size
    then some true
    else covered_by detail.order.filled_size order_id operation_id listing

unfoldable pub is_accounted :
    SimOrderWithFills → String → String → Option (Outcome (List SimFill)) → Option Bool
unfolding accounted_by
is_accounted detail order_id operation_id listing =
    accounted_by detail.fills_complete detail order_id operation_id listing

abbrev pub accounted_read_initial : ℕ
accounted_read_initial = 500

abbrev pub accounted_read_max : ℕ
accounted_read_max = 8_000

unfoldable pub next_backoff : ℕ → ℕ
next_backoff backoff =
    if ltb backoff accounted_read_max
    then (if ltb accounted_read_max (backoff * 2) then accounted_read_max else backoff * 2)
    else backoff

-- What ends the wait of one turn of the loop.
pub data Wake : Type 0 where
  context_ends : Wake
  triggered : Wake
  timed : Wake

pub record Turn : Type 0 where
  pub wake : Wake
  pub read : Outcome SimOrderWithFills
  pub listing : Option (Outcome (List SimFill))

-- The detail with the nudge of the account's watch, the error, or the next turn with its backoff.
pub data Progress : Type 0 where
  goes_on : ℕ → Progress
  returns : SimOrderWithFills → Progress
  fails : Failure → Progress

module _ (order_id operation_id : String) where
  unfoldable pub judge : ℕ → SimOrderWithFills → Option Bool → Progress
  judge backoff detail (some true) = Progress.returns detail
  judge backoff detail _ = Progress.goes_on backoff

  -- A failed operation ends the wait; any other failure of the read is passed over.
  unfoldable pub read_turn :
      ℕ → Option (Outcome (List SimFill)) → Outcome SimOrderWithFills → Progress
  unfolding is_accounted judge
  read_turn backoff listing (refused (Failure.operation_failed f)) =
      Progress.fails (Failure.operation_failed f)
  read_turn backoff listing (refused _) = Progress.goes_on backoff
  read_turn backoff listing (done detail) =
      if str_eq detail.order.id order_id
      then judge backoff detail (is_accounted detail order_id operation_id listing)
      else Progress.goes_on backoff

  unfoldable pub woken_turn : ℕ → Turn → Wake → Progress
  unfolding read_turn next_backoff
  woken_turn backoff turn Wake.context_ends = Progress.fails Failure.context_done
  woken_turn backoff turn Wake.triggered = read_turn backoff turn.listing turn.read
  woken_turn backoff turn Wake.timed = read_turn (next_backoff backoff) turn.listing turn.read

  unfoldable pub accounted_turn : ℕ → Turn → Progress
  unfolding woken_turn
  accounted_turn backoff turn = woken_turn backoff turn turn.wake

  -- The loop over any sequence of turns, from what the turns so far came to.
  unfoldable pub accounted_from : List Turn → Progress → Progress
  unfolding accounted_turn
  accounted_from [] p = p
  accounted_from (turn ∷ turns) (Progress.goes_on b) = accounted_from turns (accounted_turn b turn)
  accounted_from (turn ∷ turns) (Progress.returns detail) = Progress.returns detail
  accounted_from (turn ∷ turns) (Progress.fails f) = Progress.fails f

  unfoldable pub accounted : List Turn → Progress
  unfolding accounted_from
  accounted turns = accounted_from turns (Progress.goes_on accounted_read_initial)
