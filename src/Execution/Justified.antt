-- ===== src/Execution/Justified.antt =====
-- operation.go: when the examination of an event or of a read ends the wait of waitExecutionEvidence.
use mathlib.Core.Bool.{◌||◌}
use arca_go_sdk.Prelude.{
  ◌≡◌, ◌⊎◌, inl, inr, refl, arith, String, List, Option, none, some, Bool, true, false, ◌&&◌,
  Bool-cases, str_eq, eq_iff,
}
use arca_go_sdk.Execution.Types.{
  Operation, SimOrder, SimOrderWithFills, snapshot, has_failed, Failed, Failure, Outcome, done,
  refused,
}
use arca_go_sdk.Execution.Disposition.{is_terminal_order_status}
use arca_go_sdk.Execution.Evidence.{Codec, operation_execution, execution_update}
use arca_go_sdk.Execution.Waiting.{
  Event, Verdict, accepted, by_operation, returned, by_order, examine, examine_read,
}

module _ (codec : Codec) (op : Operation) (object_id : String) where
  -- Evidence of this operation on this account while `resolved` is what is known of its order's id: a
  -- frame of the operation itself, of no other order; a terminal order with that id, which an event of
  -- the account brought; or a terminal order that a read brought, with that id if one is known. An order
  -- is evidence as what the operation's own input makes of it.
  pub data FromOperation (resolved : String) (e : SimOrderWithFills) : Type 0 where
    framed :
        (o : Operation)
        → o.id ≡ op.id
        → operation_execution codec o object_id ≡ some e
        → (resolved ≡ "") ⊎ (e.order.id ≡ resolved)
        → FromOperation resolved e
    streamed :
        (ev : Event) (order : SimOrder)
        → ev.order ≡ some order
        → ev.entity_id ≡ object_id
        → order.id ≡ resolved
        → str_eq resolved "" ≡ false
        → is_terminal_order_status order.status ≡ true
        → execution_update codec op object_id order ≡ some e
        → FromOperation resolved e
    was_read :
        (order : SimOrder)
        → (resolved ≡ "") ⊎ (order.id ≡ resolved)
        → is_terminal_order_status order.status ≡ true
        → execution_update codec op object_id order ≡ some e
        → FromOperation resolved e

  -- A result is such evidence, a failure of this operation, or the end of the context.
  abbrev pub Justified : String → Outcome SimOrderWithFills → Type 0
  Justified resolved (done e) = FromOperation resolved e
  Justified resolved (refused f) =
      ((g : Failed) × (f ≡ Failure.operation_failed g)
        × (g.id ≡ op.id)
        × (has_failed g.state ≡ true))
      ⊎ (f ≡ Failure.context_done)

  abbrev pub JustifiedAt : String → Verdict → Type 0
  JustifiedAt resolved (Verdict.keeps kept) = Unit
  JustifiedAt resolved (Verdict.returns r) = Justified resolved r

  abbrev pub JustifiedIf : String → Option (Outcome SimOrderWithFills) → Type 0
  JustifiedIf resolved none = Unit
  JustifiedIf resolved (some r) = Justified resolved r

  -- `resolved == "" || id == resolved`
  known_or_same :
      (resolved id : String)
      → (str_eq resolved "" || str_eq id resolved) ≡ true
      → (resolved ≡ "") ⊎ (id ≡ resolved)
  known_or_same resolved id h = ground (arith, h, eq_iff resolved "", eq_iff id resolved)

  and_parts : (a b : Bool) → a && b ≡ true → (a ≡ true) × (b ≡ true)
  and_parts a b h = ground (arith, h)

  accepted-JustifiedIf :
      (resolved : String) (o : Operation) (x : Option SimOrderWithFills)
      → o.id ≡ op.id
      → operation_execution codec o object_id ≡ x
      → JustifiedIf resolved (accepted codec op object_id resolved x)
  unfolding accepted
  accepted-JustifiedIf resolved o none i h = tt
  accepted-JustifiedIf resolved o (some e) i h =
      elim (Bool-cases (str_eq resolved "" || str_eq e.order.id resolved)) [
        | inl y ↦ rw y (FromOperation.framed o i h (known_or_same resolved e.order.id y))
        | inr n ↦ rw n tt
      ]

  pub by_operation-JustifiedIf :
      (resolved : String) (x : Option Operation)
      → JustifiedIf resolved (by_operation codec op object_id resolved x)
  unfolding by_operation snapshot
  by_operation-JustifiedIf resolved none = tt
  by_operation-JustifiedIf resolved (some o) = elim (Bool-cases (str_eq o.id op.id)) [
    | inr n ↦ rw n tt
    | inl y ↦ elim (Bool-cases (has_failed o.state)) [
      | inl z ↦ rw (y, z) (inl (snapshot o, refl, (eq_iff o.id op.id).0 y, z))
      | inr z ↦
          rw (y, z)
            (accepted-JustifiedIf resolved o (operation_execution codec o object_id)
              ((eq_iff o.id op.id).0 y) refl)
    ]
  ]

  returned-JustifiedAt :
      (resolved : String) (order : SimOrder) (x : Option SimOrderWithFills) (kept : List Event)
      → execution_update codec op object_id order ≡ x
      → ((e : SimOrderWithFills)
          → execution_update codec op object_id order ≡ some e
          → FromOperation resolved e)
      → JustifiedAt resolved (returned codec op object_id x kept)
  unfolding returned
  returned-JustifiedAt resolved order none kept h from = tt
  returned-JustifiedAt resolved order (some e) kept h from = from e h

  by_order-JustifiedAt :
      (resolved : String) (ev : Event) (x : Option SimOrder) (kept : List Event)
      → ev.order ≡ x
      → JustifiedAt resolved (by_order codec op object_id resolved ev x kept)
  unfolding by_order
  by_order-JustifiedAt resolved ev none kept q = tt
  by_order-JustifiedAt resolved ev (some order) kept q =
      elim (Bool-cases (str_eq ev.entity_id object_id)) [
        | inr n ↦ rw n tt
        | inl y ↦ elim (Bool-cases (str_eq resolved "")) [
          | inl z ↦ rw (y, z) tt
          | inr z ↦
              elim (Bool-cases
                (str_eq order.id resolved && is_terminal_order_status order.status)) [
                  | inr t ↦ rw (y, z, t) tt
                  | inl t ↦
                      let parts = and_parts _ _ t in
                      rw (y, z, t)
                        (returned-JustifiedAt resolved order
                          (execution_update codec op object_id order) kept refl
                          (λ e h.
                            FromOperation.streamed ev order q ((eq_iff ev.entity_id object_id).0 y)
                              ((eq_iff order.id resolved).0 parts.0) z parts.1 h))
                ]
        ]
      ]

  pub examine-JustifiedAt :
      (resolved : String) (ev : Event) (x : Option (Outcome SimOrderWithFills)) (kept : List Event)
      → JustifiedIf resolved x
      → JustifiedAt resolved (examine codec op object_id resolved ev x kept)
  unfolding examine
  examine-JustifiedAt resolved ev (some r) kept j = j
  examine-JustifiedAt resolved ev none kept j = by_order-JustifiedAt resolved ev ev.order kept refl

  pub examine_read-JustifiedAt :
      (resolved : String) (r : Outcome SimOrderWithFills) (events : List Event)
      → JustifiedAt resolved (examine_read codec op object_id resolved r events)
  unfolding examine_read
  examine_read-JustifiedAt resolved (refused (Failure.operation_failed f)) events =
      elim (Bool-cases (str_eq f.id op.id)) [
        | inr n ↦ rw n tt
        | inl y ↦ elim (Bool-cases (has_failed f.state)) [
          | inl z ↦ rw (y, z) (inl (f, refl, (eq_iff f.id op.id).0 y, z))
          | inr z ↦ rw (y, z) tt
        ]
      ]
  examine_read-JustifiedAt resolved (refused Failure.unresolved) events = tt
  examine_read-JustifiedAt resolved (refused Failure.identity_mismatch) events = tt
  examine_read-JustifiedAt resolved (refused Failure.details_pending) events = tt
  examine_read-JustifiedAt resolved (refused (Failure.transport t)) events = tt
  examine_read-JustifiedAt resolved (refused Failure.context_done) events = tt
  examine_read-JustifiedAt resolved (done v) events =
      elim (Bool-cases (
        (str_eq resolved "" || str_eq v.order.id resolved)
        && is_terminal_order_status v.order.status)) [
          | inr t ↦ rw t tt
          | inl t ↦
              let parts = and_parts _ _ t in
              rw t (
                returned-JustifiedAt resolved v.order (execution_update codec op object_id v.order)
                  events refl
                  (λ e h.
                    FromOperation.was_read v.order (known_or_same resolved v.order.id parts.0)
                      parts.1 h))
        ]
