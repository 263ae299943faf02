-- ===== src/Ws/System/Ownership/Handoffs.antt =====
-- websocket.go: `abortHandoffIf` and `promoteHandoff` keep the invariant, whoever calls them.
use native.Mathlib.Decide.{ℕ_discrete}
use arca_go_sdk.Prelude.{
  ℕ, suc, ◌≡◌, ◌≢◌, ◌⊎◌, inl, inr, refl, sym, ap, subst, ◌∙◌, none, some, true, arith,
  if◌then◌else◌, ◌==◌,
}
use arca_go_sdk.Ws.Manager.{Manager, abort_handoff_if, promote_handoff}
use arca_go_sdk.Ws.System.{System, Goroutine, WarmPhase, done, looping, warming}
use arca_go_sdk.Ws.System.Ownership.{
  owned, owns, IsWarming, Inv, Quiet, quiet_same, quiet_bounded, quiet_unique, quiet_idle,
}

abbrev pub set_manager : System → Manager → System
set_manager s m = record s { manager = m }

warming_owned : (n gen : ℕ) (g : Goroutine) → IsWarming gen g → (owned n g ≡ n) ⊎ (owned n g ≡ 0)
warming_owned n gen done w = absurd w
warming_owned n gen (looping g p) w = absurd w
warming_owned n gen (warming g WarmPhase.dialing) w = inl refl
warming_owned n gen (warming g WarmPhase.failing) w = inr refl
warming_owned n gen (warming g (WarmPhase.greeting c)) w = inl refl
warming_owned n gen (warming g (WarmPhase.reading c)) w = inl refl
warming_owned n gen (warming g (WarmPhase.handling c)) w = absurd w
warming_owned n gen (warming g (WarmPhase.warm_handling c)) w = inl refl
warming_owned n gen (warming g (WarmPhase.dropping g' c)) w = absurd w

-- `m'` differs from `m` in nothing that the invariant reads, except that it may have no connection.
pub record SameCore (m m' : Manager) : Type 0 where
  pub gen : m'.gen ≡ m.gen
  pub should : m'.should_connect ≡ m.should_connect
  pub connecting : m'.connecting ≡ m.connecting
  pub state : m'.handoff_state ≡ m.handoff_state
  pub conn : (c : ℕ) → m'.conn ≡ some c → m.conn ≡ some c
  pub new_gen : (h : ℕ) → (m'.handoffs h).new_gen ≡ (m.handoffs h).new_gen
  pub heap : (h : ℕ) → (m'.handoffs h).conn ≡ (m.handoffs h).conn

pub SameCore-Inv : (s : System) (m : Manager) → Inv s → SameCore s.manager m → Inv (set_manager s m)
SameCore-Inv s m v k =
    let q : Quiet s (set_manager s m) = record {
      gen = k.gen;
      should = k.should;
      connecting = k.connecting;
      owns_or_none = λ j. inl (ap (λ n. owned n (s.goroutines j)) (k.new_gen j));
    } in
    record {
      same = quiet_same v q;
      bounded = quiet_bounded v q;
      unique = quiet_unique v q;
      idle = quiet_idle v q;
      wanted = λ h e. k.should ∙ v.wanted h (sym k.state ∙ e);
      warm = λ h e. let w = v.warm h (sym k.state ∙ e) in (rw k.gen w.0, k.new_gen h ∙ w.1);
      fresh = λ j n. ((v.fresh j n).0, k.new_gen j ∙ (v.fresh j n).1);
      conn_bound = λ c e. v.conn_bound c (k.conn c e);
      heap_bound = λ h c e. v.heap_bound h c (sym (k.heap h) ∙ e);
      apart = λ h c e l. let a = v.apart h c (sym k.state ∙ e) l in (λ x. a.0 (k.conn c x), a.1);
    }

module _ (s : System) (v : Inv s) where
  abort_facts :
      (i h : ℕ)
      → let m = abort_handoff_if i s.manager in
        (m.gen ≡ s.manager.gen)
        × (m.should_connect ≡ s.manager.should_connect)
        × (m.connecting ≡ s.manager.connecting)
        × (m.conn ≡ s.manager.conn)
        × ((m.handoffs h).new_gen ≡ (s.manager.handoffs h).new_gen)
        × ((m.handoffs h).conn ≡ (s.manager.handoffs h).conn)
  unfolding abort_handoff_if
  abort_facts i h = ground arith

  pub abort_state :
      (i h : ℕ)
      → (abort_handoff_if i s.manager).handoff_state ≡ some h
      → (s.manager.handoff_state ≡ some h) × (h ≢ i)
  unfolding abort_handoff_if
  abort_state i h k = ground arith

  pub abort-Inv : (i : ℕ) → Inv (set_manager s (abort_handoff_if i s.manager))
  abort-Inv i =
      let f = λ (h : ℕ). abort_facts i h in
      let q : Quiet s (set_manager s (abort_handoff_if i s.manager)) = record {
        gen = (f i).0;
        should = (f i).1;
        connecting = (f i).2;
        owns_or_none = λ j. inl (ap (λ n. owned n (s.goroutines j)) (f j).4);
      } in
      record {
        same = quiet_same v q;
        bounded = quiet_bounded v q;
        unique = quiet_unique v q;
        idle = quiet_idle v q;
        wanted = λ h k. q.should ∙ v.wanted h (abort_state i h k).0;
        warm = λ h k. let w = v.warm h (abort_state i h k).0 in (rw q.gen w.0, (f h).4 ∙ w.1);
        fresh = λ j n. ((v.fresh j n).0, (f j).4 ∙ (v.fresh j n).1);
        conn_bound = λ c k. v.conn_bound c (sym (f i).3 ∙ k);
        heap_bound = λ h c k. v.heap_bound h c (sym (f h).5 ∙ k);
        apart = λ h c k l.
            let a = v.apart h c (abort_state i h k).0 l in (λ m. a.0 (sym (f i).3 ∙ m), a.1);
      }

  -- The promotion either waits or happens.
  promote_facts :
      (i h : ℕ)
      → let m = promote_handoff i s.manager in
        ((m.gen ≡ s.manager.gen)
          × (m.should_connect ≡ s.manager.should_connect)
          × (m.connecting ≡ s.manager.connecting)
          × (m.conn ≡ s.manager.conn)
          × (m.handoff_state ≡ s.manager.handoff_state)
          × ((m.handoffs h).new_gen ≡ (s.manager.handoffs h).new_gen)
          × ((m.handoffs h).conn ≡ (s.manager.handoffs h).conn))
        ⊎ ((s.manager.handoff_state ≡ some i)
            × (m.gen ≡ suc s.manager.gen)
            × (m.should_connect ≡ s.manager.should_connect)
            × (m.connecting ≡ true)
            × (m.conn ≡ (s.manager.handoffs i).conn)
            × (m.handoff_state ≡ none)
            × ((m.handoffs h).new_gen
                ≡ (if i == h then suc s.manager.gen else (s.manager.handoffs h).new_gen))
            × ((m.handoffs h).conn ≡ (s.manager.handoffs h).conn))
  unfolding promote_handoff
  promote_facts i h = ground arith

  abbrev pub promoted : ℕ → System
  promoted i = set_manager s (promote_handoff i s.manager)

  pub promote_owns :
      (i j : ℕ)
      → ((promote_handoff i s.manager).gen ≡ s.manager.gen) × (owns (promoted i) j ≡ owns s j)
        ⊎ ((promote_handoff i s.manager).gen ≡ suc s.manager.gen)
          × (((i ≡ j) × ((owns (promoted i) j ≡ suc s.manager.gen) ⊎ (owns (promoted i) j ≡ 0)))
              ⊎ (owns (promoted i) j ≡ owns s j))
  promote_owns i j = elim (promote_facts i j) [
    | inl a ↦ inl (a.0, ap (λ n. owned n (s.goroutines j)) a.5)
    | inr b ↦ inr (
      b.1,
      elim (ℕ_discrete i j) [
        | yes e ↦ inl (
          e,
          at_promoted (subst (λ h. IsWarming s.manager.gen (s.goroutines h)) e (v.warm i b.0).0)
              (ground (arith, b.6)),
        )
        | no n ↦ inr (ap (λ n. owned n (s.goroutines j)) (ground (arith, b.6)))
      ],
    )
  ]
    where
      at_promoted :
          IsWarming s.manager.gen (s.goroutines j)
          → ((promote_handoff i s.manager).handoffs j).new_gen ≡ suc s.manager.gen
          → (owns (promoted i) j ≡ suc s.manager.gen) ⊎ (owns (promoted i) j ≡ 0)
      at_promoted w e =
          elim (warming_owned ((promote_handoff i s.manager).handoffs j).new_gen _ _ w) [
            | inl p ↦ inl (p ∙ e)
            | inr p ↦ inr p
          ]

  -- The handoff that is promoted is wanted, so a promotion never connects an idle manager.
  promote_should :
      (i : ℕ)
      → ((promote_handoff i s.manager).should_connect ≡ s.manager.should_connect)
        × ((promote_handoff i s.manager).connecting ≡ s.manager.should_connect)
        × (((promote_handoff i s.manager).gen ≡ suc s.manager.gen)
            → s.manager.should_connect ≡ true)
  promote_should i = elim (promote_facts i i) [
    | inl a ↦ (a.1, a.2 ∙ v.same, λ e. absurd (ground (arith, a.0)))
    | inr b ↦ (b.2, b.3 ∙ sym (v.wanted i b.0), λ e. v.wanted i b.0)
  ]

  promote_handoff_state :
      (i h : ℕ)
      → (promote_handoff i s.manager).handoff_state ≡ some h
      → (s.manager.handoff_state ≡ some h)
        × ((promote_handoff i s.manager).gen ≡ s.manager.gen)
        × ((promote_handoff i s.manager).conn ≡ s.manager.conn)
        × (((promote_handoff i s.manager).handoffs h).new_gen ≡ (s.manager.handoffs h).new_gen)
  promote_handoff_state i h k = ground (arith, promote_facts i h)

  pub promoted-Inv : (i : ℕ) → Inv (promoted i)
  promoted-Inv i = record {
    same = (promote_should i).1 ∙ sym (promote_should i).0;
    bounded = λ j. ground (arith, promote_owns i j, v.bounded j);
    unique = λ j k p e.
        ground (arith, promote_owns i j, promote_owns i k, v.bounded j, v.bounded k, v.unique j k);
    idle = λ f j p.
        ground (arith, promote_should i, promote_owns i j, v.idle (sym (promote_should i).0 ∙ f) j);
    wanted = λ h k. (promote_should i).0 ∙ v.wanted h (promote_handoff_state i h k).0;
    warm = λ h k.
        let p = promote_handoff_state i h k in let w = v.warm h p.0 in (rw p.1 w.0, p.3 ∙ w.1);
    fresh = λ j n.
        let d = (v.fresh j n).0 in
        (
          d,
          ground (arith, promote_facts i j, v.fresh j n, ap (IsWarming s.manager.gen) d, v.warm i),
        );
    conn_bound = λ c k. ground (arith, promote_facts i i, v.conn_bound c, v.heap_bound i c);
    heap_bound = λ h c k. ground (arith, promote_facts i h, v.heap_bound h c);
    apart = λ h c k l.
        let p = promote_handoff_state i h k in
        let a = v.apart h c p.0 l in (λ m. a.0 (sym p.2 ∙ m), a.1);
  }
