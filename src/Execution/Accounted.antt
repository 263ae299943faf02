-- ===== src/Execution/Accounted.antt =====
-- operation.go: what Accounted returns, whatever it reads.
use arca_go_sdk.Prelude.{
  ℕ, ◌≤◌, ◌≡◌, ◌⊎◌, inl, inr, refl, String, List, [], ◌∷◌, Option, none, some, Bool, true, false,
  Bool-cases, str_eq, eq_iff, arith,
}
use arca_go_sdk.Execution.Types.{
  SimFill, SimOrderWithFills, Failed, Failure, Outcome, done, refused,
}
use arca_go_sdk.Execution.Accounting.{
  is_accounted, next_backoff, accounted_read_initial, accounted_read_max, Wake, Turn, Progress,
  judge, read_turn, woken_turn, accounted_turn, accounted_from, accounted,
}

module _ (order_id operation_id : String) where
  abbrev pub Acceptable : Progress → Type 0
  Acceptable (Progress.goes_on b) = (accounted_read_initial ≤ b) × (b ≤ accounted_read_max)
  Acceptable (Progress.returns detail) =
      (detail.order.id ≡ order_id)
      × ((listing : Option (Outcome (List SimFill))) × (is_accounted detail order_id operation_id
              listing
            ≡ some true))
  Acceptable (Progress.fails f) =
      ((g : Failed) × (f ≡ Failure.operation_failed g)) ⊎ (f ≡ Failure.context_done)

  next_backoff-bounds :
      (b : ℕ) → 500 ≤ b → b ≤ 8_000 → (500 ≤ next_backoff b) × (next_backoff b ≤ 8_000)
  unfolding next_backoff
  next_backoff-bounds b h k = ground arith

  judge-Acceptable :
      (b : ℕ) (detail : SimOrderWithFills) (o : Option Bool)
      (listing : Option (Outcome (List SimFill)))
      → is_accounted detail order_id operation_id listing ≡ o
      → detail.order.id ≡ order_id
      → 500 ≤ b
      → b ≤ 8_000
      → Acceptable (judge order_id operation_id b detail o)
  unfolding judge
  judge-Acceptable b detail (some true) listing e q h k = (q, (listing, e))
  judge-Acceptable b detail (some false) listing e q h k = (h, k)
  judge-Acceptable b detail none listing e q h k = (h, k)

  read_turn-Acceptable :
      (b : ℕ) (listing : Option (Outcome (List SimFill))) (r : Outcome SimOrderWithFills)
      → 500 ≤ b
      → b ≤ 8_000
      → Acceptable (read_turn order_id operation_id b listing r)
  unfolding read_turn
  read_turn-Acceptable b listing (refused (Failure.operation_failed f)) h k = inl (f, refl)
  read_turn-Acceptable b listing (refused Failure.unresolved) h k = (h, k)
  read_turn-Acceptable b listing (refused Failure.identity_mismatch) h k = (h, k)
  read_turn-Acceptable b listing (refused Failure.details_pending) h k = (h, k)
  read_turn-Acceptable b listing (refused (Failure.transport t)) h k = (h, k)
  read_turn-Acceptable b listing (refused Failure.context_done) h k = (h, k)
  read_turn-Acceptable b listing (done detail) h k =
      elim (Bool-cases (str_eq detail.order.id order_id)) [
        | inl y ↦ rw y (
            judge-Acceptable b detail (is_accounted detail order_id operation_id listing) listing
              refl ((eq_iff detail.order.id order_id).0 y) h k)
        | inr n ↦ rw n (h, k)
      ]

  woken_turn-Acceptable :
      (b : ℕ) (turn : Turn) (w : Wake)
      → 500 ≤ b
      → b ≤ 8_000
      → Acceptable (woken_turn order_id operation_id b turn w)
  unfolding woken_turn
  woken_turn-Acceptable b turn Wake.context_ends h k = inr refl
  woken_turn-Acceptable b turn Wake.triggered h k =
      read_turn-Acceptable b turn.listing turn.read h k
  woken_turn-Acceptable b turn Wake.timed h k =
      let n : (500 ≤ next_backoff b) × (next_backoff b ≤ 8_000) = next_backoff-bounds b h k in
      read_turn-Acceptable (next_backoff b) turn.listing turn.read n.0 n.1

  accounted_from-Acceptable :
      (turns : List Turn) (p : Progress)
      → Acceptable p
      → Acceptable (accounted_from order_id operation_id turns p)
  unfolding accounted_from accounted_turn
  accounted_from-Acceptable [] p h = h
  accounted_from-Acceptable (turn ∷ turns) (Progress.goes_on b) h =
      accounted_from-Acceptable turns (accounted_turn order_id operation_id b turn)
        (woken_turn-Acceptable b turn turn.wake h.0 h.1)
  accounted_from-Acceptable (turn ∷ turns) (Progress.returns detail) h = h
  accounted_from-Acceptable (turn ∷ turns) (Progress.fails f) h = h

  -- Whatever wakes Accounted and whatever it reads: while it waits, its backoff lies between half a
  -- second and eight seconds; what it returns has the order's id and is accounted, by itself or by
  -- a listing; and it fails only with a failed operation or because the context ended.
  pub accounted-Acceptable :
      (turns : List Turn) → Acceptable (accounted order_id operation_id turns)
  unfolding accounted
  accounted-Acceptable turns =
      accounted_from-Acceptable turns (Progress.goes_on accounted_read_initial)
        (omega arith, omega arith)
