-- ===== src/Ws/System/Ownership/Runs.antt =====
-- websocket.go: the invariant after every sequence of steps, and what it says.
use arca_go_sdk.Prelude.{
  ℕ, ◌≤◌, ◌<◌, ◌≡◌, inl, inr, refl, List, [], ◌∷◌, false, arith, Bool-cases, ltb,
}
use arca_go_sdk.Prelude.Int.{ℤ}
use arca_go_sdk.Ws.System.{
  System, Goroutine, Event, Action, done, looping, warming, step_goroutine, step, run, initial,
}
use arca_go_sdk.Ws.System.Ownership.{owns, Inv}
use arca_go_sdk.Ws.System.Ownership.Handoffs.{SameCore-Inv, abort-Inv, promoted-Inv}
use arca_go_sdk.Ws.System.Ownership.Loop.{step_loop-Inv}
use arca_go_sdk.Ws.System.Ownership.Steps.{step_warm-Inv}
use arca_go_sdk.Ws.System.Ownership.Calls.{
  ensure_connected-Inv, reconnect-Inv, disconnect-Inv, rotate_connection-Inv,
}

pub initial-Inv : (lifetime : ℤ) → Inv (initial lifetime)
unfolding initial
initial-Inv lifetime = record {
  same = refl;
  bounded = λ i. omega arith;
  unique = λ i j p e. absurd (omega arith);
  idle = λ f i p. absurd (omega arith);
  wanted = λ h k. absurd (ground arith);
  warm = λ h k. absurd (ground arith);
  fresh = λ i n. (refl, refl);
  conn_bound = λ c k. absurd (ground arith);
  heap_bound = λ h c k. absurd (ground arith);
  apart = λ h c k l. absurd (ground arith);
}

step_goroutine-Inv :
    (s : System) (v : Inv s) (i : ℕ) (g : Goroutine) (e : Event)
    → s.goroutines i ≡ g
    → Inv (step_goroutine s i g e)
unfolding step_goroutine
step_goroutine-Inv s v i done e at = v
step_goroutine-Inv s v i (looping g p) e at = step_loop-Inv s v i g p e at
step_goroutine-Inv s v i (warming g p) e at = step_warm-Inv s v i g p e at

-- Every step of every goroutine, call and timer keeps the invariant.
pub step-Inv : (s : System) (a : Action) → Inv s → Inv (step s a)
unfolding step
step-Inv s Action.ensure_connecteds v = ensure_connected-Inv s v
step-Inv s Action.reconnects v = reconnect-Inv s v
step-Inv s Action.disconnects v = disconnect-Inv s v
step-Inv s Action.rotates v = rotate_connection-Inv s v
step-Inv s (Action.advances i e) v = step_goroutine-Inv s v i (s.goroutines i) e refl
step-Inv s (Action.times_out i) v = abort-Inv s v i
step-Inv s (Action.retries_promotion i) v =
    elim (Bool-cases (ltb 0 (s.manager.handoffs i).attempts)) [
      | inl e ↦ rw e (promoted-Inv s v i)
      | inr e ↦ rw e v
    ]
step-Inv s (Action.registers k) v = SameCore-Inv s _ v (record {
  gen = refl;
  should = refl;
  connecting = refl;
  state = refl;
  conn = λ c e. e;
  new_gen = λ h. refl;
  heap = λ h. refl;
})
step-Inv s (Action.resolves k) v = SameCore-Inv s _ v (record {
  gen = refl;
  should = refl;
  connecting = refl;
  state = refl;
  conn = λ c e. e;
  new_gen = λ h. refl;
  heap = λ h. refl;
})

pub run-Inv : (s : System) (as_ : List Action) → Inv s → Inv (run s as_)
unfolding run
run-Inv s [] v = v
run-Inv s (a ∷ as_) v = run-Inv (step s a) as_ (step-Inv s a v)

-- Over every interleaving of calls, goroutines and timers: no two goroutines ever answer for the same
-- generation, none answers for a generation that was not issued, none answers for the current one
-- while no connection is wanted, and the connecting flag says exactly whether one is wanted.
pub run_one_owner :
    (lifetime : ℤ) (as_ : List Action)
    → let s = run (initial lifetime) as_ in
      ((i j : ℕ) → 0 < owns s i → owns s i ≡ owns s j → i ≡ j)
      × ((i : ℕ) → owns s i ≤ s.manager.gen)
      × (s.manager.should_connect ≡ false → (i : ℕ) → 0 < owns s i → owns s i < s.manager.gen)
      × (s.manager.connecting ≡ s.manager.should_connect)
run_one_owner lifetime as_ =
    let v = run-Inv (initial lifetime) as_ (initial-Inv lifetime) in
    (v.unique, v.bounded, v.idle, v.same)
