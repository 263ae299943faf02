-- ===== src/Execution/Waits.antt =====
-- operation.go: what waitExecutionEvidence returns.
use arca_go_sdk.Prelude.{◌≡◌, ◌⊎◌, inl, inr, refl, subst, String, List, [], ◌∷◌, Option, none, some}
use arca_go_sdk.Execution.Types.{Operation, SimOrderWithFills, Failure, Outcome, refused}
use arca_go_sdk.Execution.Evidence.{Codec}
use arca_go_sdk.Execution.Waiting.{
  Event, Waiting, Verdict, by_operation, examine, examine_next, examine_read, Input, arrived, taken,
  settle_verdict, settle_read, in_select, step, run_on, run,
}
use arca_go_sdk.Execution.Justified.{
  Justified, JustifiedAt, JustifiedIf, by_operation-JustifiedIf, examine-JustifiedAt,
  examine_read-JustifiedAt,
}

module _ (codec : Codec) (op : Operation) (object_id : String) where
  -- A step that keeps the id known and returns only what is justified.
  abbrev IsFair : String → Waiting × Option (Outcome SimOrderWithFills) → Type 0
  IsFair resolved x = (x.0.resolved ≡ resolved) × JustifiedIf codec op object_id resolved x.1

  examine_next-IsFair :
      (w : Waiting) (evs : List Event) → IsFair w.resolved (examine_next codec op object_id w evs)
  unfolding examine_next
  examine_next-IsFair w [] = (refl, tt)
  examine_next-IsFair w (ev ∷ rest) =
      settled
        (examine codec op object_id w.resolved ev
          (by_operation codec op object_id w.resolved ev.operation) w.events)
        (examine-JustifiedAt codec op object_id w.resolved ev
          (by_operation codec op object_id w.resolved ev.operation) w.events
          (by_operation-JustifiedIf codec op object_id w.resolved ev.operation))
    where
      settled :
          (v : Verdict)
          → JustifiedAt codec op object_id w.resolved v
          → IsFair w.resolved (settle_verdict codec op object_id rest w v)
      settled (Verdict.keeps kept) j = (refl, tt)
      settled (Verdict.returns r) j = (refl, j)

  settle_read-IsFair :
      (w : Waiting) (v : Verdict)
      → JustifiedAt codec op object_id w.resolved v
      → IsFair w.resolved (settle_read codec op object_id w v)
  unfolding settle_read
  settle_read-IsFair w (Verdict.keeps kept) j = (refl, tt)
  settle_read-IsFair w (Verdict.returns r) j = (refl, j)

  in_select-IsFair :
      (evs : List Event) (w : Waiting) (x : Waiting × Option (Outcome SimOrderWithFills))
      → IsFair w.resolved x
      → IsFair w.resolved (in_select codec op object_id evs w x)
  in_select-IsFair [] w x f = f
  in_select-IsFair (ev ∷ evs) w x f = (refl, tt)

  -- An id that is known at the start, or becomes known.
  abbrev pub Known : List (Input codec op object_id) → String → String → Type 0
  Known [] start id = id ≡ start
  Known (Input.resolves later ∷ inputs) start id = (id ≡ start) ⊎ Known inputs later id
  Known (_ ∷ inputs) start id = Known inputs start id

  start-Known :
      (inputs : List (Input codec op object_id)) (start : String) → Known inputs start start
  start-Known [] start = refl
  start-Known (Input.resolves later ∷ inputs) start = inl refl
  start-Known (Input.arrives ev ∷ inputs) start = start-Known inputs start
  start-Known (Input.examines ∷ inputs) start = start-Known inputs start
  start-Known (Input.wakes ∷ inputs) start = start-Known inputs start
  start-Known (Input.reads r ∷ inputs) start = start-Known inputs start
  start-Known (Input.context_ends ∷ inputs) start = start-Known inputs start

  abbrev RunJustified :
      List (Input codec op object_id) → String → Option (Outcome SimOrderWithFills) → Type 0
  RunJustified inputs start none = Unit
  RunJustified inputs start (some r) =
      (resolved : String) × Known inputs start resolved × Justified codec op object_id resolved r

  learned :
      (later start : String) (inputs : List (Input codec op object_id))
      (x : Option (Outcome SimOrderWithFills))
      → RunJustified inputs later x
      → RunJustified (Input.resolves later ∷ inputs) start x
  learned later start inputs none j = tt
  learned later start inputs (some r) (resolved, k, j) = (resolved, inr k, j)

  run_on-RunJustified :
      (inputs : List (Input codec op object_id)) (start : String)
      (x : Waiting × Option (Outcome SimOrderWithFills))
      (next : Waiting → Option (Outcome SimOrderWithFills))
      → IsFair start x
      → ((w : Waiting) → RunJustified inputs w.resolved (next w))
      → RunJustified inputs start (run_on codec op object_id x next)
  unfolding run_on
  run_on-RunJustified inputs start (w, some r) next (h, j) n = (start, start-Known inputs start, j)
  run_on-RunJustified inputs start (w, none) next (h, j) n =
      subst (λ s. RunJustified inputs s (next w)) h (n w)

  run-RunJustified :
      (inputs : List (Input codec op object_id)) (w : Waiting)
      → RunJustified inputs w.resolved (run codec op object_id inputs w)
  unfolding run step run_on
  run-RunJustified [] w = tt
  run-RunJustified (Input.arrives ev ∷ inputs) w =
      run-RunJustified inputs
        (record w { events = arrived codec op object_id ev ev.operation ev.order w.events })
  run-RunJustified (Input.resolves id ∷ inputs) w =
      learned id w.resolved inputs _ (run-RunJustified inputs (record w { resolved = id }))
  run-RunJustified (Input.examines ∷ inputs) w =
      run_on-RunJustified inputs w.resolved (examine_next codec op object_id w w.batch)
        (run codec op object_id inputs) (examine_next-IsFair w w.batch) (run-RunJustified inputs)
  run-RunJustified (Input.wakes ∷ inputs) w =
      run_on-RunJustified inputs w.resolved _ (run codec op object_id inputs)
        (in_select-IsFair w.batch w (taken codec op object_id w, none) (refl, tt))
        (run-RunJustified inputs)
  run-RunJustified (Input.reads r ∷ inputs) w =
      run_on-RunJustified inputs w.resolved _ (run codec op object_id inputs)
        (in_select-IsFair w.batch w _ (
          settle_read-IsFair w (examine_read codec op object_id w.resolved r w.events)
            (examine_read-JustifiedAt codec op object_id w.resolved r w.events)))
        (run-RunJustified inputs)
  run-RunJustified (Input.context_ends ∷ inputs) w =
      run_on-RunJustified inputs w.resolved _ (run codec op object_id inputs)
        (in_select-IsFair w.batch w (w, some (refused Failure.context_done)) (refl, inr refl))
        (run-RunJustified inputs)

  -- In whatever order events, turns of the loop, reads and the order's id come in: what the wait
  -- returns is the failure of this very operation, the end of the context, or evidence for an id of the
  -- order that was known at the start or became known, or for none while none was: a frame of this
  -- operation that names no other order; a terminal order of that id from an event of this account,
  -- which is never taken while no id is known; or a terminal order from a read, of that id if one is
  -- known. What an order is evidence of is decided by the operation's own input.
  pub run-Justified :
      (inputs : List (Input codec op object_id)) (w : Waiting) (r : Outcome SimOrderWithFills)
      → run codec op object_id inputs w ≡ some r
      → (resolved : String) × Known inputs w.resolved resolved
        × Justified codec op object_id resolved r
  run-Justified inputs w r h = subst (RunJustified inputs w.resolved) h (run-RunJustified inputs w)
