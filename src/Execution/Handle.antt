-- ===== src/Execution/Handle.antt =====
-- operation.go: OperationHandle, whose mutation is submitted once, when the handle is made.
use arca_go_sdk.Prelude.{
  List, [], ◌∷◌, map, Option, none, some, Bool, if◌then◌else◌, ◌≡◌, refl, ap, ◌∙◌,
}
use arca_go_sdk.Execution.Types.{
  Operation, is_pending, has_failed, snapshot, Failure, Outcome, done, refused,
}

-- What one call of Wait or WaitTimeout meets: whether its context ends before the submission is
-- answered, and what `waitFn` answers if it is called.
pub record Attempt : Type 0 where
  pub cut_short : Bool
  pub answer : Outcome Operation

-- The response with the error, which Go returns side by side.
abbrev pub Reply : Type 0 → Type 0
Reply T = T × Option Failure

module _ {T : Type 0} (op_of : T → Option Operation) (set_op : T → Operation → T) (empty : T) where
  -- The submission's answer, which never changes, and the cached settlement.
  pub record OperationHandle : Type 0 where
    pub submission : Reply T
    pub settled : Option (Reply T)

  unfoldable pub new_operation_handle : Reply T → OperationHandle
  new_operation_handle submission = record { submission = submission; settled = none }

  unfoldable pub submitted : Bool → OperationHandle → Reply T
  submitted cut_short h = if cut_short then (empty, some Failure.context_done) else h.submission

  abbrev with_answer : T → Outcome Operation → Reply T
  with_answer resp (refused f) = (resp, some f)
  with_answer resp (done op) = (set_op resp op, none)

  settle_operation : T → Outcome Operation → Option Operation → Reply T
  unfolding is_pending has_failed snapshot
  settle_operation resp answer none = (resp, none)
  settle_operation resp answer (some op) =
      if has_failed op.state
      then (resp, some (Failure.operation_failed (snapshot op)))
      else if is_pending op.state
      then with_answer resp answer
      else (resp, none)

  settle_reply : Outcome Operation → Reply T → Reply T
  unfolding settle_operation
  settle_reply answer (resp, some f) = (resp, some f)
  settle_reply answer (resp, none) = settle_operation resp answer (op_of resp)

  unfoldable pub settle : Attempt → OperationHandle → Reply T
  unfolding settle_reply submitted
  settle a h = settle_reply a.answer (submitted a.cut_short h)

  -- Only a settlement without an error is cached.
  remember : Reply T → OperationHandle → OperationHandle
  remember (resp, none) h = record h { settled = some (resp, none) }
  remember (resp, some f) h = record h { settled = none }

  wait_on : Attempt → OperationHandle → Option (Reply T) → OperationHandle × Reply T
  unfolding settle remember
  wait_on a h (some r) = (h, r)
  wait_on a h none = (remember (settle a h) h, settle a h)

  unfoldable pub wait : Attempt → OperationHandle → OperationHandle × Reply T
  unfolding wait_on
  wait a h = wait_on a h h.settled

  -- One call of Wait after the other.
  unfoldable pub wait_all : List Attempt → OperationHandle → List (Reply T)
  unfolding wait
  wait_all [] h = []
  wait_all (a ∷ rest) h = (wait a h).1 ∷ wait_all rest (wait a h).0

  -- Replies up to the first without an error, and from then on that one.
  unfoldable pub first_then_same : List (Reply T) → List (Reply T)
  first_then_same [] = []
  first_then_same ((resp, none) ∷ rs) = (resp, none) ∷ map (λ r. (resp, none)) rs
  first_then_same ((resp, some f) ∷ rs) = (resp, some f) ∷ first_then_same rs

  settled-wait_all :
      (tries : List Attempt) (s r : Reply T)
      → wait_all tries (record { submission = s; settled = some r }) ≡ map (λ a. r) tries
  unfolding wait_all wait wait_on
  settled-wait_all [] s r = refl
  settled-wait_all (a ∷ rest) s r = ap (λ rs. r ∷ rs) (settled-wait_all rest s r)

  map-map :
      (tries : List Attempt) (g : Attempt → Reply T) (r : Reply T)
      → map (λ a. r) tries ≡ map (λ x. r) (map g tries)
  map-map [] g r = refl
  map-map (a ∷ rest) g r = ap (λ rs. r ∷ rs) (map-map rest g r)

  after_reply :
      (rest : List Attempt) (s r : Reply T)
      → wait_all rest (record { submission = s; settled = none })
        ≡ first_then_same (map (λ a. settle a (record { submission = s; settled = none })) rest)
      → r ∷ wait_all rest (remember r (record { submission = s; settled = none }))
        ≡ first_then_same (r ∷ map (λ a. settle a (record { submission = s; settled = none })) rest)
  unfolding remember first_then_same
  after_reply rest s (resp, none) h =
      ap (λ rs. (resp, none) ∷ rs)
        (settled-wait_all rest s (resp, none)
          ∙ map-map rest (λ a. settle a (record { submission = s; settled = none })) (resp, none))
  after_reply rest s (resp, some f) h = ap (λ rs. (resp, some f) ∷ rs) h

  -- Calls of Wait on a new handle, one after the other, return what each would return on the new
  -- handle, up to the first that has no error, and that reply from then on: an error is not cached, a
  -- settlement is, and whatever fails, the submission stays the one that the handle was made with.
  pub wait_all-first_then_same :
      (tries : List Attempt) (s : Reply T)
      → wait_all tries (new_operation_handle s)
        ≡ first_then_same (map (λ a. settle a (new_operation_handle s)) tries)
  unfolding wait_all wait wait_on new_operation_handle first_then_same
  wait_all-first_then_same [] s = refl
  wait_all-first_then_same (a ∷ rest) s =
      after_reply rest s (settle a (record { submission = s; settled = none }))
        (wait_all-first_then_same rest s)
