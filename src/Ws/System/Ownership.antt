-- ===== src/Ws/System/Ownership.antt =====
-- websocket.go: which goroutine answers for the current generation, over every interleaving.
pub mod Loop
pub mod Handoffs
pub mod Warm
pub mod Steps
pub mod Renewal
pub mod Calls
pub mod Runs
pub mod Race
use arca_go_sdk.Prelude.{ℕ, ◌≤◌, ◌<◌, ◌≡◌, ◌≢◌, ◌⊎◌, Option, none, some, true, false, arith}
use arca_go_sdk.Ws.System.{System, Goroutine, LoopPhase, WarmPhase, done, looping, warming}

-- The generation that a goroutine answers for, 0 for none: that of its loop, or after a promotion
-- the new one. One that is about to give up answers for none.
abbrev pub owned : ℕ → Goroutine → ℕ
owned new_gen done = 0
owned new_gen (looping g p) = g
owned new_gen (warming g WarmPhase.failing) = 0
owned new_gen (warming g (WarmPhase.dropping g' c)) = g'
owned new_gen (warming g _) = new_gen

abbrev pub owns : System → ℕ → ℕ
owns s i = owned (s.manager.handoffs i).new_gen (s.goroutines i)

-- A goroutine that warms up a connection for the generation, and has not seen its own promotion.
abbrev pub IsWarming : ℕ → Goroutine → Type 0
IsWarming gen done = ⊥
IsWarming gen (looping g p) = ⊥
IsWarming gen (warming g (WarmPhase.handling c)) = ⊥
IsWarming gen (warming g (WarmPhase.dropping g' c)) = ⊥
IsWarming gen (warming g _) = g ≡ gen

abbrev pub conn_of : Goroutine → Option ℕ
conn_of (warming g (WarmPhase.greeting c)) = some c
conn_of (warming g (WarmPhase.reading c)) = some c
conn_of (warming g (WarmPhase.warm_handling c)) = some c
conn_of _ = none

pub record Inv (s : System) : Type 0 where
  pub same : s.manager.connecting ≡ s.manager.should_connect
  pub bounded : (i : ℕ) → owns s i ≤ s.manager.gen
  pub unique : (i j : ℕ) → 0 < owns s i → owns s i ≡ owns s j → i ≡ j
  pub idle : s.manager.should_connect ≡ false → (i : ℕ) → 0 < owns s i → owns s i < s.manager.gen
  pub wanted : (h : ℕ) → s.manager.handoff_state ≡ some h → s.manager.should_connect ≡ true
  pub warm :
      (h : ℕ)
      → s.manager.handoff_state ≡ some h
      → IsWarming s.manager.gen (s.goroutines h) × ((s.manager.handoffs h).new_gen ≡ 0)
  pub fresh : (i : ℕ) → s.next ≤ i → (s.goroutines i ≡ done) × ((s.manager.handoffs i).new_gen ≡ 0)
  pub conn_bound : (c : ℕ) → s.manager.conn ≡ some c → c < s.next_conn
  pub heap_bound : (h c : ℕ) → (s.manager.handoffs h).conn ≡ some c → c < s.next_conn
  pub apart :
      (h c : ℕ)
      → s.manager.handoff_state ≡ some h
      → conn_of (s.goroutines h) ≡ some c
      → (s.manager.conn ≢ some c) × (c < s.next_conn)

-- `t` follows `s` with the same generation and wishes, and no goroutine answers for more than it did.
pub record Quiet (s t : System) : Type 0 where
  pub gen : t.manager.gen ≡ s.manager.gen
  pub should : t.manager.should_connect ≡ s.manager.should_connect
  pub connecting : t.manager.connecting ≡ s.manager.connecting
  pub owns_or_none : (j : ℕ) → (owns t j ≡ owns s j) ⊎ (owns t j ≡ 0)

-- The part of the invariant that a quiet step keeps.
module _ {s t : System} (v : Inv s) (q : Quiet s t) where
  quiet_same : t.manager.connecting ≡ t.manager.should_connect
  quiet_same = cc (v.same, q.should, q.connecting)

  quiet_bounded : (i : ℕ) → owns t i ≤ t.manager.gen
  quiet_bounded i = ground (arith, q.owns_or_none i, v.bounded i, q.gen)

  quiet_unique : (i j : ℕ) → 0 < owns t i → owns t i ≡ owns t j → i ≡ j
  quiet_unique i j p e = ground (arith, q.owns_or_none i, q.owns_or_none j, v.unique i j)

  quiet_idle : t.manager.should_connect ≡ false → (i : ℕ) → 0 < owns t i → owns t i < t.manager.gen
  quiet_idle f i p = ground (arith, q.owns_or_none i, v.idle (ground (arith, q.should)) i, q.gen)
