-- ===== src/Ws/System.antt =====
-- websocket.go: the goroutines around the connection, and their interleavings.
-- A goroutine is where it stands in `connectLoop` or `serveHandoff`; one step of it runs to the next
-- point where it gives up `m.mu` or waits, so each step is one section under the lock. What the
-- network and the clock do is the event of the step. Any goroutine may be the next to run.
pub mod Ownership
use arca_go_sdk.Prelude.{
  ℕ, zero, suc, String, List, [], ◌∷◌, Option, none, some, Bool, true, false, if◌then◌else◌, ltb,
  ◌==◌, is_some_of, update, str_eq, not,
}
use arca_go_sdk.Prelude.Int.{ℤ}
use arca_go_sdk.Ws.Manager.{
  Manager, Handoff, new_manager, close_conn, ensure_connected, reconnect, disconnect, begin_attempt,
  end_attempt, dialed, drop_conn, is_current, on_authenticated, read_server_lifetime,
  rotate_connection, warm_dialed, abort_handoff_if, clear_handoff_timeout, promote_handoff,
}

-- `failing` and `dropping` stand between the section that saw a read error and the next one.
pub data LoopPhase : Type 0 where
  at_begin dialing ended : LoopPhase
  greeting serving handling : ℕ → LoopPhase

pub data WarmPhase : Type 0 where
  dialing failing : WarmPhase
  greeting reading handling warm_handling : ℕ → WarmPhase
  dropping : ℕ → ℕ → WarmPhase

pub data Goroutine : Type 0 where
  done : Goroutine
  looping : ℕ → LoopPhase → Goroutine
  warming : ℕ → WarmPhase → Goroutine

pub data Message : Type 0 where
  authenticated : Option ℤ → Message
  error pong other : Message

-- A wait ends well, badly, or with a message.
pub data Event : Type 0 where
  works fails : Event
  receives : Message → Event

pub record System : Type 0 where
  pub manager : Manager
  pub goroutines : ℕ → Goroutine
  pub next : ℕ
  pub next_conn : ℕ

unfoldable pub initial : ℤ → System
unfolding new_manager
initial lifetime = record {
  manager = new_manager lifetime;
  goroutines = λ i. done;
  next = 0;
  next_conn = 0;
}

abbrev pub goes : System → ℕ → Manager → Goroutine → System
goes s i m g = record s { manager = m; goroutines = update s.goroutines i g }

-- `go m.connectLoop(gen)`, where a loop is started.
abbrev pub spawn_loop : System → Manager × Option ℕ → System
spawn_loop s (m, none) = record s { manager = m }
spawn_loop s (m, some gen) = record s {
  manager = m;
  goroutines = update s.goroutines s.next (looping gen at_begin);
  next = suc s.next;
}

abbrev pub spawn_handoff : System → Manager × Bool → System
spawn_handoff s (m, false) = record s { manager = m }
spawn_handoff s (m, true) = record s {
  manager = m;
  goroutines = update s.goroutines s.next (warming m.gen dialing);
  next = suc s.next;
}

abbrev pub choose : System → ℕ → Manager × Bool → Goroutine → Goroutine → System
choose s i (m, b) yes_g no_g = goes s i m (if b then yes_g else no_g)

-- A dial that works yields a connection that was never seen before.
abbrev pub dials : System → System
dials s = record s { next_conn = suc s.next_conn }

abbrev handled : Message → Manager → Manager
handled (authenticated l) m = on_authenticated l m
handled _ m = m

-- `connectLoop` and `dialAndServe`.
unfoldable pub step_loop : System → ℕ → ℕ → LoopPhase → Event → System
step_loop s i g at_begin e = choose s i (begin_attempt g s.manager) (looping g dialing) done
step_loop s i g dialing works =
    choose (dials s) i (dialed g s.next_conn s.manager) (looping g (greeting s.next_conn))
      (looping g ended)
step_loop s i g dialing _ = goes s i s.manager (looping g ended)
step_loop s i g (greeting c) works = goes s i s.manager (looping g (serving c))
step_loop s i g (greeting c) _ = goes s i (close_conn (some c) s.manager) (looping g ended)
step_loop s i g (serving c) (receives x) =
    if is_current g c s.manager
    then goes s i s.manager (looping g (handling c))
    else goes s i (close_conn (some c) s.manager) (looping g ended)
step_loop s i g (serving c) _ =
    goes s i (drop_conn c (close_conn (some c) s.manager)) (looping g ended)
step_loop s i g (handling c) (receives x) = goes s i (handled x s.manager) (looping g (serving c))
step_loop s i g (handling c) _ = goes s i s.manager (looping g (serving c))
step_loop s i g ended e = choose s i (end_attempt g s.manager) (looping g at_begin) done

-- `handleWarmMessage`.
unfoldable pub warm_message : ℕ → Message → Manager → Manager
warm_message i error m = abort_handoff_if i m
warm_message i (authenticated l) m = read_server_lifetime l m
warm_message i pong m = promote_handoff i (clear_handoff_timeout i m)
warm_message i other m = m

-- One round of the read loop of `warmAndServe` on a message.
warm_reads : System → ℕ → ℕ → ℕ → System
warm_reads s i g c =
    if is_some_of c s.manager.conn
    then goes s i s.manager (warming g (handling c))
    else if is_some_of i s.manager.handoff_state
    then goes s i s.manager (warming g (warm_handling c))
    else goes s i (close_conn (some c) s.manager) done

-- ... and on a read error, up to the end of its first section.
warm_fails : System → ℕ → ℕ → ℕ → System
warm_fails s i g c =
    let m = close_conn (some c) s.manager in
    if is_some_of c s.manager.conn
    then goes s i m (warming g (dropping (s.manager.handoffs i).new_gen c))
    else goes s i m (warming g failing)

-- `serveHandoff` and `warmAndServe`.
unfoldable pub step_warm : System → ℕ → ℕ → WarmPhase → Event → System
unfolding warm_reads warm_fails warm_message
step_warm s i g dialing works =
    choose (dials s) i (warm_dialed g i s.next_conn s.manager) (warming g (greeting s.next_conn))
      done
step_warm s i g dialing _ = goes s i (abort_handoff_if i s.manager) done
step_warm s i g (greeting c) works = goes s i s.manager (warming g (reading c))
step_warm s i g (greeting c) _ = goes s i (abort_handoff_if i (close_conn (some c) s.manager)) done
step_warm s i g (reading c) (receives x) = warm_reads s i g c
step_warm s i g (reading c) _ = warm_fails s i g c
step_warm s i g (handling c) (receives x) = goes s i (handled x s.manager) (warming g (reading c))
step_warm s i g (handling c) _ = goes s i s.manager (warming g (reading c))
step_warm s i g (warm_handling c) (receives x) =
    goes s i (warm_message i x s.manager) (warming g (reading c))
step_warm s i g (warm_handling c) _ = goes s i s.manager (warming g (reading c))
step_warm s i g (dropping g' c) e = goes s i (drop_conn c s.manager) (looping g' ended)
step_warm s i g failing e = goes s i (abort_handoff_if i s.manager) done

unfoldable pub step_goroutine : System → ℕ → Goroutine → Event → System
unfolding step_loop step_warm
step_goroutine s i done e = s
step_goroutine s i (looping g p) e = step_loop s i g p e
step_goroutine s i (warming g p) e = step_warm s i g p e

-- What can happen next: a call of the client's (a rotation also by its timer), a step of a
-- goroutine, a timer of a handoff that was once set, or a request that is sent or answered.
pub data Action : Type 0 where
  ensure_connecteds reconnects disconnects rotates : Action
  advances : ℕ → Event → Action
  times_out retries_promotion : ℕ → Action
  registers resolves : String → Action

remove_id : String → List String → List String
remove_id k [] = []
remove_id k (j ∷ js) = if str_eq j k then remove_id k js else j ∷ remove_id k js

-- A timer that fired before it was stopped runs all the same.
unfoldable pub step : System → Action → System
unfolding step_goroutine remove_id
step s ensure_connecteds = spawn_loop s (ensure_connected s.manager)
step s reconnects = spawn_loop s (reconnect s.manager)
step s disconnects = record s { manager = disconnect s.manager }
step s rotates = spawn_handoff s (rotate_connection s.next s.manager)
step s (advances i e) = step_goroutine s i (s.goroutines i) e
step s (times_out i) = record s { manager = abort_handoff_if i s.manager }
step s (retries_promotion i) =
    if ltb 0 (s.manager.handoffs i).attempts
    then record s { manager = promote_handoff i s.manager }
    else s
step s (registers k) = record s { manager = record s.manager { pending = k ∷ s.manager.pending } }
step s (resolves k) = record s {
  manager = record s.manager { pending = remove_id k s.manager.pending };
}

unfoldable pub run : System → List Action → System
run s [] = s
run s (a ∷ as_) = run (step s a) as_
