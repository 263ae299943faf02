-- ===== src/Execution/Waiting.antt =====
-- operation.go: waitExecutionEvidence, which races the events of the stream against reads of the order.
-- Its loop takes the buffered events as a batch, examines them one by one, and then waits in a select.
-- Events arrive, and the order's id becomes known, between any two of these steps.
use mathlib.Core.Bool.{◌||◌}
use arca_go_sdk.Prelude.{
  ℕ, String, List, [], ◌∷◌, ◌++◌, Option, none, some, not, ◌&&◌, if◌then◌else◌, ltb, length, str_eq,
}
use arca_go_sdk.Execution.Types.{
  Operation, SimOrder, SimOrderWithFills, has_failed, snapshot, Failure, Outcome, done, refused,
}
use arca_go_sdk.Execution.Disposition.{is_terminal_order_status}
use arca_go_sdk.Execution.Evidence.{Codec, operation_execution, execution_update}

pub record Event : Type 0 where
  pub operation : Option Operation
  pub order : Option SimOrder
  pub entity_id : String

-- The buffered events, what is left of the batch, which is empty while the loop waits in the select,
-- and the order id once it is known (`resolvedIdentity`).
pub record Waiting : Type 0 where
  pub events : List Event
  pub batch : List Event
  pub resolved : String

-- What the examination of an event, a batch or a read comes to.
pub data Verdict : Type 0 where
  keeps : List Event → Verdict
  returns : Outcome SimOrderWithFills → Verdict

abbrev pub max_kept : ℕ
max_kept = 256

unfoldable pub keep : Event → List Event → List Event
keep ev kept = if ltb (length kept) max_kept then kept ++ ev ∷ [] else kept

module _ (codec : Codec) (op : Operation) (object_id : String) where
  -- The first `if`: an event of the operation itself.
  unfoldable pub accepted : String → Option SimOrderWithFills → Option (Outcome SimOrderWithFills)
  accepted resolved none = none
  accepted resolved (some e) =
      if str_eq resolved "" || str_eq e.order.id resolved then some (done e) else none

  unfoldable pub by_operation : String → Option Operation → Option (Outcome SimOrderWithFills)
  unfolding accepted operation_execution has_failed snapshot
  by_operation resolved none = none
  by_operation resolved (some o) =
      if not (str_eq o.id op.id)
      then none
      else if has_failed o.state
      then some (refused (Failure.operation_failed (snapshot o)))
      else accepted resolved (operation_execution codec o object_id)

  unfoldable pub returned : Option SimOrderWithFills → List Event → Verdict
  returned none kept = Verdict.keeps kept
  returned (some e) kept = Verdict.returns (done e)

  -- The other two: an event of an order of the account, which waits for the order's id.
  unfoldable pub by_order : String → Event → Option SimOrder → List Event → Verdict
  unfolding keep returned is_terminal_order_status execution_update
  by_order resolved ev none kept = Verdict.keeps kept
  by_order resolved ev (some order) kept =
      if not (str_eq ev.entity_id object_id)
      then Verdict.keeps kept
      else if str_eq resolved ""
      then Verdict.keeps (keep ev kept)
      else if str_eq order.id resolved && is_terminal_order_status order.status
      then returned (execution_update codec op object_id order) kept
      else Verdict.keeps kept

  unfoldable pub examine :
      String → Event → Option (Outcome SimOrderWithFills) → List Event → Verdict
  unfolding by_order
  examine resolved ev (some result) kept = Verdict.returns result
  examine resolved ev none kept = by_order resolved ev ev.order kept

  -- The result of a read.
  unfoldable pub examine_read : String → Outcome SimOrderWithFills → List Event → Verdict
  unfolding returned is_terminal_order_status execution_update has_failed
  examine_read resolved (refused (Failure.operation_failed f)) events =
      if str_eq f.id op.id && has_failed f.state
      then Verdict.returns (refused (Failure.operation_failed f))
      else Verdict.keeps events
  examine_read resolved (refused _) events = Verdict.keeps events
  examine_read resolved (done v) events =
      if (str_eq resolved "" || str_eq v.order.id resolved)
        && is_terminal_order_status v.order.status
      then returned (execution_update codec op object_id v.order) events
      else Verdict.keeps events

  -- What the stream, the reading goroutine and the caller's context do, and the turns of the loop.
  pub data Input : Type 0 where
    arrives : Event → Input
    resolves : String → Input
    examines wakes : Input
    reads : Outcome SimOrderWithFills → Input
    context_ends : Input

  -- An event without an order and an operation is not buffered.
  abbrev pub arrived : Event → Option Operation → Option SimOrder → List Event → List Event
  arrived ev none none events = events
  arrived ev _ _ events = events ++ ev ∷ []

  -- `batch := events; events = nil`.
  abbrev pub taken : Waiting → Waiting
  taken w = record w { events = []; batch = w.events }

  unfoldable pub settle_verdict :
      List Event → Waiting → Verdict → Waiting × Option (Outcome SimOrderWithFills)
  settle_verdict rest w (Verdict.keeps kept) = (record w { events = kept; batch = rest }, none)
  settle_verdict rest w (Verdict.returns r) = (record w { batch = rest }, some r)

  unfoldable pub examine_next : Waiting → List Event → Waiting × Option (Outcome SimOrderWithFills)
  unfolding settle_verdict examine by_operation
  examine_next w [] = (w, none)
  examine_next w (ev ∷ rest) =
      settle_verdict rest w (examine w.resolved ev (by_operation w.resolved ev.operation) w.events)

  -- After a read that does not end the wait the loop takes the next batch.
  unfoldable pub settle_read : Waiting → Verdict → Waiting × Option (Outcome SimOrderWithFills)
  settle_read w (Verdict.keeps kept) = (taken (record w { events = kept }), none)
  settle_read w (Verdict.returns r) = (w, some r)

  -- Only where nothing is left of the batch.
  abbrev pub in_select :
      List Event
      → Waiting
      → Waiting × Option (Outcome SimOrderWithFills)
      → Waiting × Option (Outcome SimOrderWithFills)
  in_select [] w x = x
  in_select (ev ∷ evs) w x = (w, none)

  unfoldable pub step : Input → Waiting → Waiting × Option (Outcome SimOrderWithFills)
  unfolding examine_next examine_read settle_read
  step (Input.arrives ev) w =
      (record w { events = arrived ev ev.operation ev.order w.events }, none)
  step (Input.resolves id) w = (record w { resolved = id }, none)
  step Input.examines w = examine_next w w.batch
  step Input.wakes w = in_select w.batch w (taken w, none)
  step (Input.reads r) w = in_select w.batch w (settle_read w (examine_read w.resolved r w.events))
  step Input.context_ends w = in_select w.batch w (w, some (refused Failure.context_done))

  -- Any sequence of inputs, up to the one that ends the wait.
  unfoldable pub run_on :
      Waiting × Option (Outcome SimOrderWithFills)
      → (Waiting → Option (Outcome SimOrderWithFills))
      → Option (Outcome SimOrderWithFills)
  run_on (w, some r) next = some r
  run_on (w, none) next = next w

  unfoldable pub run : List Input → Waiting → Option (Outcome SimOrderWithFills)
  unfolding step run_on
  run [] w = none
  run (i ∷ inputs) w = run_on (step i w) (run inputs)

  -- The state after a sequence of inputs that did not end the wait.
  unfoldable pub final : List Input → Waiting → Waiting
  unfolding step
  final [] w = w
  final (i ∷ inputs) w = final inputs (step i w).0
