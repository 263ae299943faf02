-- ===== src/Ws/System/Ownership/Warm.antt =====
-- websocket.go: a step of `warmAndServe` keeps the invariant.
use arca_go_sdk.Prelude.{
  ℕ, ◌<◌, ◌≡◌, ◌≢◌, ◌⊎◌, inl, inr, refl, sym, ap, ◌∙◌, Option, none, some, arith,
}
use arca_go_sdk.Prelude.Int.{ℤ}
use arca_go_sdk.Ws.Manager.{
  Manager, abort_handoff_if, clear_handoff_timeout, read_server_lifetime, on_authenticated,
  drop_conn, close_conn,
}
use arca_go_sdk.Ws.System.{System, Goroutine, Message, done, goes, warm_message}
use arca_go_sdk.Ws.System.Ownership.{
  owned, owns, IsWarming, conn_of, Inv, Quiet, quiet_bounded, quiet_unique, quiet_idle,
}
use arca_go_sdk.Ws.System.Ownership.Handoffs.{
  set_manager, SameCore, SameCore-Inv, abort-Inv, abort_state, promoted-Inv,
}

-- What goroutine `i` may become, with the rest of the state as it is.
pub record MayBecome (s : System) (i : ℕ) (g : Goroutine) : Type 0 where
  pub started : s.goroutines i ≢ done
  pub owner :
      (owned (s.manager.handoffs i).new_gen g ≡ owns s i)
      ⊎ (owned (s.manager.handoffs i).new_gen g ≡ 0)
  pub warms : s.manager.handoff_state ≡ some i → IsWarming s.manager.gen g
  pub conn_apart :
      (c : ℕ)
      → s.manager.handoff_state ≡ some i
      → conn_of g ≡ some c
      → (s.manager.conn ≢ some c) × (c < s.next_conn)

module _ (s : System) (v : Inv s) (i : ℕ) (g : Goroutine) (b : MayBecome s i g) where
  become_owns : (j : ℕ) → let t = goes s i s.manager g in (owns t j ≡ owns s j) ⊎ (owns t j ≡ 0)
  become_owns j = ground (arith, b.owner)

  become_goroutine :
      (j : ℕ)
      → (i ≢ j) × ((goes s i s.manager g).goroutines j ≡ s.goroutines j)
        ⊎ (i ≡ j) × ((goes s i s.manager g).goroutines j ≡ g)
  become_goroutine j = ground arith

  pub become-Inv : Inv (goes s i s.manager g)
  become-Inv =
      let q : Quiet s (goes s i s.manager g) = record {
        gen = refl;
        should = refl;
        connecting = refl;
        owns_or_none = become_owns;
      } in
      record {
        same = v.same;
        bounded = quiet_bounded v q;
        unique = quiet_unique v q;
        idle = quiet_idle v q;
        wanted = v.wanted;
        warm = λ h k. elim (become_goroutine h) [
          | inl e ↦ (rw e.1 (v.warm h k).0, (v.warm h k).1)
          | inr e ↦ (rw e.1 (b.warms (k ∙ ap some (sym e.0))), (v.warm h k).1)
        ];
        fresh = λ j n. elim (become_goroutine j) [
          | inl e ↦ (e.1 ∙ (v.fresh j n).0, (v.fresh j n).1)
          | inr e ↦ absurd (b.started (ap s.goroutines e.0 ∙ (v.fresh j n).0))
        ];
        conn_bound = v.conn_bound;
        heap_bound = v.heap_bound;
        apart = λ h c k l. elim (become_goroutine h) [
          | inl e ↦ v.apart h c k (sym (ap conn_of e.1) ∙ l)
          | inr e ↦ b.conn_apart c (k ∙ ap some (sym e.0)) (sym (ap conn_of e.1) ∙ l)
        ];
      }

pub close_conn-SameCore : (o : Option ℕ) (m : Manager) → SameCore m (close_conn o m)
close_conn-SameCore none m = record {
  gen = refl;
  should = refl;
  connecting = refl;
  state = refl;
  conn = λ c e. e;
  new_gen = λ h. refl;
  heap = λ h. refl;
}
close_conn-SameCore (some d) m = record {
  gen = refl;
  should = refl;
  connecting = refl;
  state = refl;
  conn = λ c e. e;
  new_gen = λ h. refl;
  heap = λ h. refl;
}

pub drop_conn-SameCore : (d : ℕ) (m : Manager) → SameCore m (drop_conn d m)
unfolding drop_conn
drop_conn-SameCore d m = record {
  gen = ground arith;
  should = ground arith;
  connecting = ground arith;
  state = ground arith;
  conn = λ c e. ground arith;
  new_gen = λ h. ground arith;
  heap = λ h. ground arith;
}

pub on_authenticated-SameCore : (l : Option ℤ) (m : Manager) → SameCore m (on_authenticated l m)
unfolding on_authenticated
on_authenticated-SameCore l m = record {
  gen = ground arith;
  should = ground arith;
  connecting = ground arith;
  state = ground arith;
  conn = λ c e. ground arith;
  new_gen = λ h. ground arith;
  heap = λ h. ground arith;
}

read_server_lifetime-SameCore : (l : Option ℤ) (m : Manager) → SameCore m (read_server_lifetime l m)
unfolding read_server_lifetime
read_server_lifetime-SameCore l m = record {
  gen = ground arith;
  should = ground arith;
  connecting = ground arith;
  state = ground arith;
  conn = λ c e. ground arith;
  new_gen = λ h. ground arith;
  heap = λ h. ground arith;
}

clear_handoff_timeout-SameCore : (i : ℕ) (m : Manager) → SameCore m (clear_handoff_timeout i m)
unfolding clear_handoff_timeout
clear_handoff_timeout-SameCore i m = record {
  gen = ground arith;
  should = ground arith;
  connecting = ground arith;
  state = ground arith;
  conn = λ c e. ground arith;
  new_gen = λ h. ground arith;
  heap = λ h. ground arith;
}

pub warm_message-Inv :
    (s : System) (v : Inv s) (i : ℕ) (x : Message)
    → Inv (set_manager s (warm_message i x s.manager))
unfolding warm_message
warm_message-Inv s v i Message.error = abort-Inv s v i
warm_message-Inv s v i (Message.authenticated l) =
    SameCore-Inv s _ v (read_server_lifetime-SameCore l s.manager)
warm_message-Inv s v i Message.pong =
    promoted-Inv _ (SameCore-Inv s _ v (clear_handoff_timeout-SameCore i s.manager)) i
warm_message-Inv s v i Message.other = v

-- A goroutine that is no current handoff may stop.
pub stops-Inv :
    (s : System) (v : Inv s) (i : ℕ)
    → s.goroutines i ≢ done
    → s.manager.handoff_state ≢ some i
    → Inv (goes s i s.manager done)
stops-Inv s v i started n = become-Inv s v i done (record {
  started = started;
  owner = inr refl;
  warms = λ k. absurd (n k);
  conn_apart = λ c k. absurd (n k);
})

pub aborts-Inv :
    (s : System) (v : Inv s) (i : ℕ)
    → s.goroutines i ≢ done
    → Inv (goes s i (abort_handoff_if i s.manager) done)
aborts-Inv s v i started =
    stops-Inv (set_manager s (abort_handoff_if i s.manager)) (abort-Inv s v i) i started
      (λ k. (abort_state s v i i k).1 refl)
