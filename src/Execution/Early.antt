-- ===== src/Execution/Early.antt =====
-- operation.go: evidence that comes before the order's id is known, while few other events do.
use arca_go_sdk.Prelude.{
  ℕ, suc, ◌+◌, ◌≤◌, ◌≡◌, ◌⊎◌, inl, inr, refl, sym, subst, ap, ◌∙◌, String, List, [], ◌∷◌, ◌++◌,
  Option, none, some, ◌&&◌, ◌||◌, Bool-cases, length, length-append, str_eq, arith,
}
use arca_go_sdk.Execution.Types.{
  Operation, SimOrder, SimOrderWithFills, has_failed, Failure, Outcome, done, refused,
}
use arca_go_sdk.Execution.Disposition.{is_terminal_order_status}
use arca_go_sdk.Execution.Evidence.{Codec, execution_update}
use arca_go_sdk.Execution.Waiting.{
  Event, Waiting, Verdict, returned, examine_next, examine_read, Input, arrived, taken, settle_read,
  in_select, step, run_on, run, final,
}
use arca_go_sdk.Execution.Buffer.{Has, Has-append, IsEvidence, Safe, SafeUnless, examined-Safe}

module _ (codec : Codec) (op : Operation) (object_id : String) where
  -- A read that does not end the wait leaves the buffer as it is.
  abbrev Leaves : List Event → Verdict → Type 0
  Leaves events (Verdict.keeps kept) = kept ≡ events
  Leaves events (Verdict.returns r) = Unit

  returned-Leaves :
      (e : Option SimOrderWithFills) (events : List Event)
      → Leaves events (returned codec op object_id e events)
  unfolding returned
  returned-Leaves none events = refl
  returned-Leaves (some e) events = tt

  examine_read-Leaves :
      (resolved : String) (r : Outcome SimOrderWithFills) (events : List Event)
      → Leaves events (examine_read codec op object_id resolved r events)
  unfolding examine_read
  examine_read-Leaves resolved (refused (Failure.operation_failed f)) events =
      elim (Bool-cases (str_eq f.id op.id && has_failed f.state)) [
        | inl y ↦ rw y tt
        | inr n ↦ rw n refl
      ]
  examine_read-Leaves resolved (refused Failure.unresolved) events = refl
  examine_read-Leaves resolved (refused Failure.identity_mismatch) events = refl
  examine_read-Leaves resolved (refused Failure.details_pending) events = refl
  examine_read-Leaves resolved (refused (Failure.transport t)) events = refl
  examine_read-Leaves resolved (refused Failure.context_done) events = refl
  examine_read-Leaves resolved (done v) events =
      elim (Bool-cases (
        (str_eq resolved "" || str_eq v.order.id resolved)
        && is_terminal_order_status v.order.status)) [
          | inl t ↦ rw t (returned-Leaves (execution_update codec op object_id v.order) events)
          | inr t ↦ rw t refl
        ]

  module _ (ev : Event) (order : SimOrder) (i : IsEvidence codec op object_id ev order) where
    -- The loop takes the next batch once the last one is used up.
    taken-Safe :
        (n : ℕ) (w : Waiting)
        → w.batch ≡ []
        → Safe codec op object_id ev order n w
        → Safe codec op object_id ev order n (taken codec op object_id w)
    taken-Safe n w e s = record {
      no_other = s.no_other;
      buffered = inl (elim s.buffered [ inl b ↦ elim (subst (Has ev) e b) [ ] | inr h ↦ h ]);
      room = omega (arith, s.room, ap length e);
    }

    in_select-Safe :
        (n : ℕ) (w : Waiting) (batch : List Event)
        (x : Waiting × Option (Outcome SimOrderWithFills))
        → w.batch ≡ batch
        → Safe codec op object_id ev order n w
        → (w.batch ≡ [] → SafeUnless codec op object_id ev order n x)
        → SafeUnless codec op object_id ev order n (in_select codec op object_id batch w x)
    in_select-Safe n w [] x e s next = next e
    in_select-Safe n w (y ∷ ys) x e s next = s

    read-Safe :
        (n : ℕ) (w : Waiting) (v : Verdict)
        → Leaves w.events v
        → w.batch ≡ []
        → Safe codec op object_id ev order n w
        → SafeUnless codec op object_id ev order n (settle_read codec op object_id w v)
    unfolding settle_read
    read-Safe n w (Verdict.returns r) l e s = tt
    read-Safe n w (Verdict.keeps kept) l e s =
        taken-Safe n (record w { events = kept }) e
          (record {
            no_other = s.no_other;
            buffered = elim s.buffered [ inl b ↦ inl b | inr h ↦ inr (subst (Has ev) (sym l) h) ];
            room = subst (λ k. length k + length w.batch + n ≤ 256) (sym l) s.room;
          })

    arrived-Safe :
        (n : ℕ) (w : Waiting) (x : Event) (o : Option Operation) (u : Option SimOrder)
        → Safe codec op object_id ev order (suc n) w
        → Safe codec op object_id ev order n
            (record w { events = arrived codec op object_id x o u w.events })
    arrived-Safe n w x o u s = by_parts o u
      where
        more : Safe codec op object_id ev order n (record w { events = w.events ++ x ∷ [] })
        more = record {
          no_other = s.no_other;
          buffered = elim s.buffered [
            | inl b ↦ inl b
            | inr h ↦ inr (Has-append ev w.events (x ∷ []) h)
          ];
          room = omega (arith, s.room, length-append w.events (x ∷ []));
        }

        by_parts :
            (p : Option Operation) (q : Option SimOrder)
            → Safe codec op object_id ev order n
                (record w { events = arrived codec op object_id x p q w.events })
        by_parts none none = record {
          no_other = s.no_other;
          buffered = s.buffered;
          room = omega (arith, s.room);
        }
        by_parts none (some q) = more
        by_parts (some p) none = more
        by_parts (some p) (some q) = more

    examined :
        (n : ℕ) (w : Waiting) (batch : List Event)
        → w.batch ≡ batch
        → Safe codec op object_id ev order n w
        → SafeUnless codec op object_id ev order n (examine_next codec op object_id w batch)
    unfolding examine_next
    examined n w [] e s = s
    examined n w (x ∷ rest) e s =
        examined-Safe codec op object_id ev order n w x rest i s.no_other
          (elim s.buffered [ inl b ↦ inl (subst (Has ev) e b) | inr h ↦ inr h ])
          (omega (arith, s.room, ap length e))

    -- How many events arrive, and that no other order's id becomes known.
    abbrev pub arrivals : List (Input codec op object_id) → ℕ
    arrivals [] = 0
    arrivals (Input.arrives x ∷ inputs) = suc (arrivals inputs)
    arrivals (_ ∷ inputs) = arrivals inputs

    abbrev pub OnlyOwn : List (Input codec op object_id) → Type 0
    OnlyOwn [] = Unit
    OnlyOwn (Input.resolves id ∷ inputs) = (id ≡ order.id) × OnlyOwn inputs
    OnlyOwn (_ ∷ inputs) = OnlyOwn inputs

    -- What the wait has come to: it returned, or it still has the event to examine.
    pub data NotLost (inputs : List (Input codec op object_id)) (w : Waiting) : Type 0 where
      returns :
          (r : Outcome SimOrderWithFills)
          → run codec op object_id inputs w ≡ some r
          → NotLost inputs w
      holds :
          Has ev (final codec op object_id inputs w).batch
            ⊎ Has ev (final codec op object_id inputs w).events
          → NotLost inputs w

    step_on :
        (input : Input codec op object_id) (inputs : List (Input codec op object_id)) (w : Waiting)
        (x : Waiting × Option (Outcome SimOrderWithFills))
        → step codec op object_id input w ≡ x
        → SafeUnless codec op object_id ev order (arrivals inputs) x
        → ((u : Waiting) → Safe codec op object_id ev order (arrivals inputs) u → NotLost inputs u)
        → NotLost (input ∷ inputs) w
    unfolding run final run_on
    step_on input inputs w (u, some r) e s next =
        NotLost.returns r (ap (λ y. run_on codec op object_id y (run codec op object_id inputs)) e)
    step_on input inputs w (u, none) e s next = elim (next u s) [
      | returns r q ↦
          NotLost.returns r
            (ap (λ y. run_on codec op object_id y (run codec op object_id inputs)) e ∙ q)
      | holds h ↦ NotLost.holds (
          subst
            (λ (y : Waiting × Option (Outcome SimOrderWithFills)).
              Has ev (final codec op object_id inputs y.0).batch
              ⊎ Has ev (final codec op object_id inputs y.0).events)
            (sym e) h)
    ]

    -- Evidence of the order that is buffered before the order's id is known, or while it is, is not lost
    -- as long as no more than 256 events are buffered or arrive: in whatever order events, turns of the
    -- loop, reads and the order's id come in, the wait has returned or still has it to examine.
    pub run-NotLost :
        (inputs : List (Input codec op object_id)) (w : Waiting)
        → OnlyOwn inputs
        → Safe codec op object_id ev order (arrivals inputs) w
        → NotLost inputs w
    unfolding run final step
    run-NotLost [] w o s = NotLost.holds s.buffered
    run-NotLost (Input.arrives x ∷ inputs) w o s =
        step_on (Input.arrives x) inputs w _ refl
          (arrived-Safe (arrivals inputs) w x x.operation x.order s) (λ u. run-NotLost inputs u o)
    run-NotLost (Input.resolves id ∷ inputs) w (k, o) s =
        step_on (Input.resolves id) inputs w _ refl
          (record { no_other = inr k; buffered = s.buffered; room = s.room })
          (λ u. run-NotLost inputs u o)
    run-NotLost (Input.examines ∷ inputs) w o s =
        step_on Input.examines inputs w _ refl (examined (arrivals inputs) w w.batch refl s)
          (λ u. run-NotLost inputs u o)
    run-NotLost (Input.wakes ∷ inputs) w o s =
        step_on Input.wakes inputs w _ refl
          (in_select-Safe (arrivals inputs) w w.batch _ refl s
            (λ e. taken-Safe (arrivals inputs) w e s))
          (λ u. run-NotLost inputs u o)
    run-NotLost (Input.reads r ∷ inputs) w o s =
        step_on (Input.reads r) inputs w _ refl
          (in_select-Safe (arrivals inputs) w w.batch _ refl s (λ e.
            read-Safe (arrivals inputs) w (examine_read codec op object_id w.resolved r w.events)
              (examine_read-Leaves w.resolved r w.events) e s))
          (λ u. run-NotLost inputs u o)
    run-NotLost (Input.context_ends ∷ inputs) w o s =
        step_on Input.context_ends inputs w _ refl
          (in_select-Safe (arrivals inputs) w w.batch _ refl s (λ e. tt))
          (λ u. run-NotLost inputs u o)
