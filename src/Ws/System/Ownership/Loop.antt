-- ===== src/Ws/System/Ownership/Loop.antt =====
-- websocket.go: a step of `connectLoop` keeps the invariant.
use arca_go_sdk.Prelude.{ℕ, ◌≤◌, ◌<◌, ◌≡◌, ◌⊎◌, sym, ap, ◌∙◌, some, arith}
use arca_go_sdk.Ws.Manager.{
  begin_attempt, end_attempt, dialed, drop_conn, is_current, on_authenticated,
}
use arca_go_sdk.Ws.System.{System, LoopPhase, Event, done, looping, step_loop}
use arca_go_sdk.Ws.System.Ownership.{
  owns, conn_of, Inv, Quiet, quiet_same, quiet_bounded, quiet_unique, quiet_idle,
}

module _ (s : System) (v : Inv s) (i g : ℕ) where
  loop_gen :
      (p : LoopPhase) (e : Event)
      → s.goroutines i ≡ looping g p
      → let t = step_loop s i g p e in
        (t.manager.gen ≡ s.manager.gen)
        × (t.manager.should_connect ≡ s.manager.should_connect)
        × (t.manager.connecting ≡ s.manager.connecting)
  unfolding step_loop begin_attempt end_attempt dialed drop_conn is_current on_authenticated
  loop_gen LoopPhase.at_begin e at = ground (arith, v.same)
  loop_gen _ e at = ground (arith, v.same)

  loop_owns :
      (p : LoopPhase) (e : Event) (j : ℕ)
      → s.goroutines i ≡ looping g p
      → let t = step_loop s i g p e in (owns t j ≡ owns s j) ⊎ (owns t j ≡ 0)
  unfolding step_loop begin_attempt end_attempt dialed drop_conn is_current on_authenticated
  loop_owns LoopPhase.at_begin e j at = ground arith
  loop_owns _ e j at = ground arith

  pub step_loop-Quiet :
      (p : LoopPhase) (e : Event) → s.goroutines i ≡ looping g p → Quiet s (step_loop s i g p e)
  step_loop-Quiet p e at =
      let k = loop_gen p e at in
      record { gen = k.0; should = k.1; connecting = k.2; owns_or_none = λ j. loop_owns p e j at }

  loop_handoff :
      (p : LoopPhase) (e : Event) (h : ℕ)
      → s.goroutines i ≡ looping g p
      → let t = step_loop s i g p e in
        t.manager.handoff_state ≡ some h
        → (s.manager.handoff_state ≡ some h)
          × (t.goroutines h ≡ s.goroutines h)
          × ((t.manager.handoffs h).new_gen ≡ (s.manager.handoffs h).new_gen)
  unfolding step_loop begin_attempt end_attempt dialed drop_conn is_current on_authenticated
  loop_handoff LoopPhase.at_begin e h at k = ground (arith, v.warm h)
  loop_handoff _ e h at k = ground (arith, v.warm h)

  loop_heap :
      (p : LoopPhase) (e : Event) (h : ℕ)
      → s.goroutines i ≡ looping g p
      → let t = step_loop s i g p e in
        ((t.manager.handoffs h).conn ≡ (s.manager.handoffs h).conn)
        × ((t.manager.handoffs h).new_gen ≡ (s.manager.handoffs h).new_gen)
        × (s.next_conn ≤ t.next_conn)
        × (t.next ≡ s.next)
  unfolding step_loop begin_attempt end_attempt dialed drop_conn is_current on_authenticated
  loop_heap LoopPhase.at_begin e h at = ground arith
  loop_heap _ e h at = ground arith

  loop_conn :
      (p : LoopPhase) (e : Event) (c : ℕ)
      → s.goroutines i ≡ looping g p
      → let t = step_loop s i g p e in
        t.manager.conn ≡ some c
        → (s.manager.conn ≡ some c) ⊎ ((c ≡ s.next_conn) × (c < t.next_conn))
  unfolding step_loop begin_attempt end_attempt dialed drop_conn is_current on_authenticated
  loop_conn LoopPhase.at_begin e c at k = ground arith
  loop_conn _ e c at k = ground arith

  loop_fresh :
      (p : LoopPhase) (e : Event) (j : ℕ)
      → s.goroutines i ≡ looping g p
      → let t = step_loop s i g p e in s.next ≤ j → t.goroutines j ≡ done
  unfolding step_loop begin_attempt end_attempt dialed drop_conn is_current on_authenticated
  loop_fresh LoopPhase.at_begin e j at k = ground (arith, v.fresh j, v.fresh i)
  loop_fresh _ e j at k = ground (arith, v.fresh j, v.fresh i)

  pub step_loop-Inv :
      (p : LoopPhase) (e : Event) → s.goroutines i ≡ looping g p → Inv (step_loop s i g p e)
  step_loop-Inv p e at =
      let q = step_loop-Quiet p e at in
      record {
        same = quiet_same v q;
        bounded = quiet_bounded v q;
        unique = quiet_unique v q;
        idle = quiet_idle v q;
        wanted = λ h k. q.should ∙ v.wanted h (loop_handoff p e h at k).0;
        warm = λ h k.
            let (old, stays, gens) = loop_handoff p e h at k in
            let w = v.warm h old in (rw (stays, q.gen) w.0, gens ∙ w.1);
        fresh = λ j n.
            let (a, b, c, d) = loop_heap p e j at in
            (loop_fresh p e j at (omega (arith, d)), b ∙ (v.fresh j (omega (arith, d))).1);
        conn_bound =
            λ c k. ground (arith, loop_conn p e c at k, v.conn_bound c, loop_heap p e c at);
        heap_bound = λ h c k. ground (arith, loop_heap p e h at, v.heap_bound h c);
        apart = λ h c k l.
            let (old, stays, gens) = loop_handoff p e h at k in
            let a = v.apart h c old (sym (ap conn_of stays) ∙ l) in
            (
              λ m. ground (arith, loop_conn p e c at m, a.1, a.0),
              omega (arith, a.1, loop_heap p e h at),
            );
      }
