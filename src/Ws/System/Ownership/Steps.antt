-- ===== src/Ws/System/Ownership/Steps.antt =====
-- websocket.go: every step of `serveHandoff` keeps the invariant, by what the goroutine becomes.
use arca_go_sdk.Prelude.{
  ℕ, suc, ◌≡◌, ◌≢◌, inl, inr, refl, sym, ap, ◌∙◌, none, some, arith, is_some_of, Bool-cases, update,
  ◌&&◌,
}
use arca_go_sdk.Ws.Manager.{Manager, is_live, warm_dialed, drop_conn}
use arca_go_sdk.Ws.System.{
  System, WarmPhase, Event, Message, done, warming, step_warm, handled, dials, warm_reads,
  warm_fails,
}
use arca_go_sdk.Ws.System.Ownership.{owned, owns, IsWarming, conn_of, Inv}
use arca_go_sdk.Ws.System.Ownership.Handoffs.{SameCore, SameCore-Inv}
use arca_go_sdk.Ws.System.Ownership.Warm.{
  MayBecome, become-Inv, close_conn-SameCore, drop_conn-SameCore, on_authenticated-SameCore,
  warm_message-Inv, stops-Inv, aborts-Inv,
}

handled-SameCore : (x : Message) (m : Manager) → SameCore m (handled x m)
handled-SameCore Message.error m = close_conn-SameCore none m
handled-SameCore (Message.authenticated l) m = on_authenticated-SameCore l m
handled-SameCore Message.pong m = close_conn-SameCore none m
handled-SameCore Message.other m = close_conn-SameCore none m

module _ (s : System) (v : Inv s) (i g : ℕ) where
  started : (p : WarmPhase) → s.goroutines i ≡ warming g p → s.goroutines i ≢ done
  started p at e = cc (at, e)

  -- From one phase to another of the same handoff: the owner, the connection and the warmth stay.
  moves :
      (p p' : WarmPhase)
      → s.goroutines i ≡ warming g p
      → ((n : ℕ) → owned n (warming g p') ≡ owned n (warming g p))
      → (IsWarming s.manager.gen (warming g p) → IsWarming s.manager.gen (warming g p'))
      → conn_of (warming g p') ≡ conn_of (warming g p)
      → MayBecome s i (warming g p')
  moves p p' at o w c = record {
    started = started p at;
    owner =
        inl (o (s.manager.handoffs i).new_gen ∙ sym (ap (owned (s.manager.handoffs i).new_gen) at));
    warms = λ k. w (rw at at (v.warm i k).0);
    conn_apart = λ d k l. v.apart i d k (ap conn_of at ∙ sym c ∙ l);
  }

  -- A connection that delivers is not that of a handoff under way.
  not_under_way :
      (p : WarmPhase) (c : ℕ)
      → s.goroutines i ≡ warming g p
      → conn_of (warming g p) ≡ some c
      → s.manager.conn ≡ some c
      → s.manager.handoff_state ≢ some i
  not_under_way p c at l m k = (v.apart i c k (ap conn_of at ∙ l)).0 m

-- A dial that works makes a new connection, and no field but the heap's can name it.
dials-Inv :
    (s : System) (v : Inv s) (i : ℕ)
    → Inv (record s {
      next_conn = suc s.next_conn;
      manager = record s.manager {
        handoffs =
            update s.manager.handoffs i (record (s.manager.handoffs i) { conn = some s.next_conn });
      };
    })
dials-Inv s v i = record {
  same = v.same;
  bounded = λ j. ground (arith, v.bounded j, gen_same j);
  unique =
      λ j k p e. v.unique j k (ground (arith, gen_same j)) (ground (arith, gen_same j, gen_same k));
  idle = λ f j p. ground (arith, v.idle f j, gen_same j);
  wanted = v.wanted;
  warm = λ h k. ((v.warm h k).0, ground (arith, (v.warm h k).1));
  fresh = λ j n. ((v.fresh j n).0, ground (arith, (v.fresh j n).1));
  conn_bound = λ c k. omega (arith, v.conn_bound c k);
  heap_bound = λ h c k. ground (arith, v.heap_bound h c);
  apart = λ h c k l. ((v.apart h c k l).0, omega (arith, (v.apart h c k l).1));
}
  where
    gen_same :
        (j : ℕ)
        → owned
            (update s.manager.handoffs i
              (record (s.manager.handoffs i) { conn = some s.next_conn })
              j).new_gen
            (s.goroutines j)
          ≡ owns s j
    gen_same j = ap (λ n. owned n (s.goroutines j)) (ground arith)

-- A dial whose connection is not kept.
wasted-Inv : (s : System) (v : Inv s) → Inv (dials s)
wasted-Inv s v = record {
  same = v.same;
  bounded = v.bounded;
  unique = v.unique;
  idle = v.idle;
  wanted = v.wanted;
  warm = v.warm;
  fresh = v.fresh;
  conn_bound = λ c k. omega (arith, v.conn_bound c k);
  heap_bound = λ h c k. omega (arith, v.heap_bound h c k);
  apart = λ h c k l. ((v.apart h c k l).0, omega (arith, (v.apart h c k l).1));
}

-- After the delivery of a message on a promoted connection.
resumes :
    (s : System) (v : Inv s) (i g c : ℕ)
    → s.goroutines i ≡ warming g (WarmPhase.handling c)
    → MayBecome s i (warming g (WarmPhase.reading c))
resumes s v i g c at = record {
  started = started s v i g _ at;
  owner = inl (sym (ap (owned (s.manager.handoffs i).new_gen) at));
  warms = λ k. absurd (rw at at (v.warm i k).0);
  conn_apart = λ d k l. absurd (rw at at (v.warm i k).0);
}

module _ (s : System) (v : Inv s) (i g : ℕ) where
  warm_reads-Inv :
      (c : ℕ) → s.goroutines i ≡ warming g (WarmPhase.reading c) → Inv (warm_reads s i g c)
  unfolding warm_reads
  warm_reads-Inv c at = elim (Bool-cases (is_some_of c s.manager.conn)) [
    | inl e ↦ rw e (
        become-Inv s v i _ (record {
          started = started s v i g _ at;
          owner = inl (sym (ap (owned (s.manager.handoffs i).new_gen) at));
          warms = λ k. absurd (not_under_way s v i g _ c at refl (ground arith) k);
          conn_apart = λ d k l. cc l;
        }))
    | inr e ↦ rw e (elim (Bool-cases (is_some_of i s.manager.handoff_state)) [
      | inl k ↦ rw k (become-Inv s v i _ (moves s v i g _ _ at (λ n. refl) (λ w. w) refl))
      | inr k ↦ rw k (
          stops-Inv _ (SameCore-Inv s _ v (close_conn-SameCore (some c) s.manager)) i
            (started s v i g _ at) (λ l. ground arith))
    ])
  ]

  warm_fails-Inv :
      (c : ℕ) → s.goroutines i ≡ warming g (WarmPhase.reading c) → Inv (warm_fails s i g c)
  unfolding warm_fails
  warm_fails-Inv c at =
      let v' = SameCore-Inv s _ v (close_conn-SameCore (some c) s.manager) in
      elim (Bool-cases (is_some_of c s.manager.conn)) [
        | inl e ↦ rw e (
            become-Inv _ v' i _ (record {
              started = started s v i g _ at;
              owner = inl (sym (ap (owned (s.manager.handoffs i).new_gen) at));
              warms = λ k. absurd (not_under_way s v i g _ c at refl (ground arith) k);
              conn_apart = λ d k l. cc l;
            }))
        | inr e ↦ rw e (
            become-Inv _ v' i _ (record {
              started = started s v i g _ at;
              owner = inr refl;
              warms = λ k. rw at at (v.warm i k).0;
              conn_apart = λ d k l. cc l;
            }))
      ]

  -- A connection that was dialed and is kept becomes the handoff's; it is new to everybody.
  warm_dials-Inv :
      s.goroutines i ≡ warming g WarmPhase.dialing
      → Inv (step_warm s i g WarmPhase.dialing Event.works)
  unfolding step_warm warm_dialed
  warm_dials-Inv at =
      elim (Bool-cases (is_some_of i s.manager.handoff_state && is_live g s.manager)) [
        | inl e ↦ rw e (
            become-Inv _ (dials-Inv s v i) i _ (record {
              started = started s v i g _ at;
              owner = inl (
                  sym (
                    ap
                      (owned
                        (update s.manager.handoffs i
                          (record (s.manager.handoffs i) { conn = some s.next_conn }) i).new_gen)
                      at));
              warms = λ k. rw at at (v.warm i k).0;
              conn_apart = λ c k l. (λ m. ground (arith, v.conn_bound c m), ground arith);
            }))
        | inr e ↦ rw e (
            stops-Inv _
              (SameCore-Inv _ _ (wasted-Inv s v) (close_conn-SameCore (some s.next_conn) s.manager))
              i (started s v i g _ at)
              (λ k.
                let w : g ≡ s.manager.gen = rw at at (v.warm i k).0 in
                ground (arith, v.wanted i k, w)))
      ]

  pub step_warm-Inv :
      (p : WarmPhase) (e : Event) → s.goroutines i ≡ warming g p → Inv (step_warm s i g p e)
  unfolding step_warm
  step_warm-Inv WarmPhase.dialing Event.works at = warm_dials-Inv at
  step_warm-Inv WarmPhase.dialing _ at = aborts-Inv s v i (started s v i g _ at)
  step_warm-Inv (WarmPhase.greeting c) Event.works at =
      become-Inv s v i _ (moves s v i g _ _ at (λ n. refl) (λ w. w) refl)
  step_warm-Inv (WarmPhase.greeting c) _ at =
      aborts-Inv _ (SameCore-Inv s _ v (close_conn-SameCore (some c) s.manager)) i
        (started s v i g _ at)
  step_warm-Inv (WarmPhase.reading c) (Event.receives x) at = warm_reads-Inv c at
  step_warm-Inv (WarmPhase.reading c) _ at = warm_fails-Inv c at
  step_warm-Inv (WarmPhase.handling c) (Event.receives x) at =
      let v' = SameCore-Inv s _ v (handled-SameCore x s.manager) in
      become-Inv _ v' i _ (resumes _ v' i g c at)
  step_warm-Inv (WarmPhase.handling c) _ at = become-Inv s v i _ (resumes s v i g c at)
  step_warm-Inv (WarmPhase.warm_handling c) (Event.receives x) at =
      let v' = warm_message-Inv s v i x in
      become-Inv _ v' i _ (moves _ v' i g _ _ at (λ n. refl) (λ w. w) refl)
  step_warm-Inv (WarmPhase.warm_handling c) _ at =
      become-Inv s v i _ (moves s v i g _ _ at (λ n. refl) (λ w. w) refl)
  step_warm-Inv (WarmPhase.dropping g' c) e at =
      become-Inv _ (SameCore-Inv s _ v (drop_conn-SameCore c s.manager)) i _ (record {
        started = started s v i g _ at;
        owner = inl (sym (ap (owned ((drop_conn c s.manager).handoffs i).new_gen) at));
        warms =
            λ k. absurd (rw at at (v.warm i (sym (drop_conn-SameCore c s.manager).state ∙ k)).0);
        conn_apart = λ d k l. cc l;
      })
  step_warm-Inv WarmPhase.failing e at = aborts-Inv s v i (started s v i g _ at)
