-- ===== src/Ws/System/Ownership/Renewal.antt =====
-- websocket.go: a call that begins a new generation keeps the invariant.
use native.Mathlib.Decide.{ℕ_discrete}
use arca_go_sdk.Prelude.{
  ℕ, suc, ◌≤◌, ◌≡◌, ◌≢◌, ◌⊎◌, inl, inr, refl, sym, ap, ◌∙◌, none, some, true, false, arith,
  if◌then◌else◌, ◌==◌,
}
use arca_go_sdk.Ws.Manager.{Manager}
use arca_go_sdk.Ws.System.{System, Goroutine, LoopPhase, done, looping, spawn_loop}
use arca_go_sdk.Ws.System.Ownership.{owned, owns, Inv}
use arca_go_sdk.Ws.System.Ownership.Handoffs.{set_manager}

-- The connect loops before are of older generations, the handoff is gone, and either a new loop
-- runs for the new generation or nothing is wanted.
pub record Renewed (s t : System) : Type 0 where
  pub gen : t.manager.gen ≡ suc s.manager.gen
  pub connecting : t.manager.connecting ≡ t.manager.should_connect
  pub state : (h : ℕ) → t.manager.handoff_state ≢ some h
  pub conn : (c : ℕ) → t.manager.conn ≡ some c → s.manager.conn ≡ some c
  pub new_gen : (h : ℕ) → (t.manager.handoffs h).new_gen ≡ (s.manager.handoffs h).new_gen
  pub heap : (h : ℕ) → (t.manager.handoffs h).conn ≡ (s.manager.handoffs h).conn
  pub next_conn : t.next_conn ≡ s.next_conn
  pub spawned :
      ((t.manager.should_connect ≡ false) × (t.next ≡ s.next) × (t.goroutines ≡ s.goroutines))
      ⊎ ((t.next ≡ suc s.next)
          × ((j : ℕ)
              → t.goroutines j ≡ (
                  if s.next == j
                  then looping (suc s.manager.gen) LoopPhase.at_begin
                  else s.goroutines j))
          × (t.manager.should_connect ≡ true))

module _ {s t : System} (v : Inv s) (r : Renewed s t) where
  renewed_owns :
      (j : ℕ)
      → ((owns t j ≡ owns s j) × (s.next ≢ j))
        ⊎ ((owns t j ≡ owns s j) × (t.manager.should_connect ≡ false))
        ⊎ ((j ≡ s.next) × (owns t j ≡ suc s.manager.gen) × (t.manager.should_connect ≡ true))
  renewed_owns j = elim r.spawned [
    | inl e ↦ inr (inl (kept (ap (λ (f : ℕ → Goroutine). f j) e.2), e.0))
    | inr e ↦ elim (ℕ_discrete s.next j) [
      | yes h ↦ inr (inr (sym h, began (ground (arith, e.1 j)), e.2))
      | no h ↦ inl (kept (ground (arith, e.1 j)), h)
    ]
  ]
    where
      kept : t.goroutines j ≡ s.goroutines j → owns t j ≡ owns s j
      kept g =
          ap (λ n. owned n (t.goroutines j)) (r.new_gen j)
          ∙ ap (owned (s.manager.handoffs j).new_gen) g

      began :
          t.goroutines j ≡ looping (suc s.manager.gen) LoopPhase.at_begin
          → owns t j ≡ suc s.manager.gen
      began g = ap (owned (t.manager.handoffs j).new_gen) g

  renewed_fresh :
      (j : ℕ) → t.next ≤ j → (t.goroutines j ≡ done) × ((t.manager.handoffs j).new_gen ≡ 0)
  renewed_fresh j n = elim r.spawned [
    | inl e ↦
        let f = v.fresh j (omega (arith, e.1)) in
        (ap (λ (f : ℕ → Goroutine). f j) e.2 ∙ f.0, r.new_gen j ∙ f.1)
    | inr e ↦
        let f = v.fresh j (omega (arith, e.0)) in
        (ground (arith, e.1 j, f.0, e.0), r.new_gen j ∙ f.1)
  ]

  pub Renewed-Inv : Inv t
  Renewed-Inv = record {
    same = r.connecting;
    bounded = λ j. ground (arith, renewed_owns j, v.bounded j, r.gen);
    unique = λ j k p e.
        ground (arith, renewed_owns j, renewed_owns k, v.bounded j, v.bounded k, v.unique j k);
    idle = λ f j p. ground (arith, renewed_owns j, v.bounded j, r.gen);
    wanted = λ h k. absurd (r.state h k);
    warm = λ h k. absurd (r.state h k);
    fresh = renewed_fresh;
    conn_bound = λ c k. ground (arith, v.conn_bound c (r.conn c k), r.next_conn);
    heap_bound = λ h c k. ground (arith, v.heap_bound h c (sym (r.heap h) ∙ k), r.next_conn);
    apart = λ h c k. absurd (r.state h k);
  }

-- What a call did to the manager: nothing, or it began a new generation.
abbrev pub Began : Manager → Manager → Type 0
Began m m' =
    (m'.gen ≡ suc m.gen)
    × (m'.connecting ≡ m'.should_connect)
    × (m'.handoff_state ≡ none)
    × ((m'.conn ≡ none) ⊎ (m'.conn ≡ m.conn))
    × ((h : ℕ) → (m'.handoffs h).new_gen ≡ (m.handoffs h).new_gen)
    × ((h : ℕ) → (m'.handoffs h).conn ≡ (m.handoffs h).conn)

pub begins-Inv :
    (s : System) (m : Manager)
    → Inv s
    → Began s.manager m
    → m.should_connect ≡ true
    → Inv (spawn_loop s (m, some (suc s.manager.gen)))
begins-Inv s m v b w = Renewed-Inv v (record {
  gen = b.0;
  connecting = b.1;
  state = λ h k. cc (b.2, k);
  conn = λ c k. ground (arith, b.3);
  new_gen = b.4;
  heap = b.5;
  next_conn = refl;
  spawned = inr (refl, λ j. refl, w);
})

pub ends-Inv :
    (s : System) (m : Manager)
    → Inv s
    → Began s.manager m
    → m.should_connect ≡ false
    → Inv (set_manager s m)
ends-Inv s m v b w = Renewed-Inv v (record {
  gen = b.0;
  connecting = b.1;
  state = λ h k. cc (b.2, k);
  conn = λ c k. ground (arith, b.3);
  new_gen = b.4;
  heap = b.5;
  next_conn = refl;
  spawned = inl (w, refl, refl);
})
