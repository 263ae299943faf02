-- ===== src/Ws/Manager.antt =====
-- websocket.go: the connection state of WebSocketManager, and each section that holds `m.mu`.
-- Connections and goroutines are numbers. A handoff struct lives in the heap `handoffs`, under the
-- number of the goroutine that serves it, which stands for its pointer. A timer is whether it is set.
-- Callbacks to listeners and the frames written by `resubscribe` do not change this state.
use arca_go_sdk.Prelude.{
  ℕ, suc, String, List, [], ◌∷◌, Option, none, some, Bool, true, false, ◌&&◌, ◌||◌, not,
  if◌then◌else◌, ltb, ◌==◌, is_some_of, is_none, update,
}
use arca_go_sdk.Prelude.Int.{ℤ, pos, ltb_ℤ, leb_ℤ}

pub data ConnectionStatus : Type 0 where
  connecting connected disconnected : ConnectionStatus

pub record Handoff : Type 0 where
  pub conn : Option ℕ
  pub new_gen : ℕ
  pub timeout : Bool
  pub promote : Bool
  pub attempts : ℕ

pub record Manager : Type 0 where
  pub conn : Option ℕ
  pub status : ConnectionStatus
  pub should_connect : Bool
  pub connecting : Bool
  pub gen : ℕ
  pub pending : List String
  pub last_delivery_seq : ℤ
  pub handoff_state : Option ℕ
  pub handoffs : ℕ → Handoff
  pub rotation_timer : Bool
  pub lifetime : ℤ  -- cfg.lifetime
  pub server_lifetime : ℤ
  pub closed : List ℕ  -- the connections closed so far

abbrev pub new_handoff : Handoff
new_handoff = record { conn = none; new_gen = 0; timeout = false; promote = false; attempts = 0 }

unfoldable pub new_manager : ℤ → Manager
new_manager lifetime = record {
  conn = none;
  status = disconnected;
  should_connect = false;
  connecting = false;
  gen = 0;
  pending = [];
  last_delivery_seq = pos 0;
  handoff_state = none;
  handoffs = λ h. new_handoff;
  rotation_timer = false;
  lifetime = lifetime;
  server_lifetime = pos 0;
  closed = [];
}

abbrev pub ws_promote_max_attempts : ℕ
ws_promote_max_attempts = 20

abbrev is_connected : ConnectionStatus → Bool
is_connected connected = true
is_connected _ = false

abbrev pub close_conn : Option ℕ → Manager → Manager
close_conn none m = m
close_conn (some c) m = record m { closed = c ∷ m.closed }

-- `cancelRotationLocked`, `stopHandoffTimersLocked`, `takeHandoffLocked`.
abbrev pub cancel_rotation : Manager → Manager
cancel_rotation m = record m { rotation_timer = false }

abbrev pub stopped : Handoff → Handoff
stopped h = record h { timeout = false; promote = false }

abbrev pub detach : ℕ → Manager → Manager
detach h m = record m {
  handoff_state = none;
  handoffs = update m.handoffs h (stopped (m.handoffs h));
}

abbrev pub take_handoff : Option ℕ → Manager → Manager × Option ℕ
take_handoff none m = (m, none)
take_handoff (some h) m = (detach h m, (m.handoffs h).conn)

-- The second part is the generation of the connect loop that is started.
unfoldable pub ensure_connected : Manager → Manager × Option ℕ
ensure_connected m =
    if m.should_connect && (m.connecting || is_connected m.status)
    then (m, none)
    else if m.connecting
    then (record m { should_connect = true }, none)
    else (record m { should_connect = true; connecting = true; gen = suc m.gen }, some (suc m.gen))

unfoldable pub reconnect : Manager → Manager × Option ℕ
reconnect m =
    if not m.should_connect
    then (m, none)
    else let (m', warming) =
        take_handoff m.handoff_state
          (cancel_rotation (record m { gen = suc m.gen; conn = none; connecting = true })) in
      (close_conn m.conn (close_conn warming m'), some (suc m.gen))

unfoldable pub disconnect : Manager → Manager
disconnect m =
    let (m', warming) = take_handoff m.handoff_state (
      cancel_rotation
        (record m { should_connect = false; connecting = false; gen = suc m.gen; conn = none })) in
    close_conn m.conn (close_conn warming (record m' { status = disconnected }))

-- A generation that was superseded leaves the flag to its successor.
abbrev pub clear_connecting : ℕ → Manager → Manager
clear_connecting gen m = if m.gen == gen then record m { connecting = false } else m

abbrev pub is_live : ℕ → Manager → Bool
is_live gen m = m.should_connect && (m.gen == gen)

unfoldable pub begin_attempt : ℕ → Manager → Manager × Bool
begin_attempt gen m =
    if is_live gen m
    then (record m { status = connecting }, true)
    else (clear_connecting gen m, false)

unfoldable pub end_attempt : ℕ → Manager → Manager × Bool
end_attempt gen m =
    if is_live gen m
    then (let (m', warming) = take_handoff m.handoff_state (cancel_rotation m) in
        (close_conn warming (record m' { status = disconnected; pending = [] }), true))
    else (clear_connecting gen m, false)

-- `dialAndServe` after the dial: whether this generation serves the connection.
unfoldable pub dialed : ℕ → ℕ → Manager → Manager × Bool
dialed gen c m =
    if is_live gen m then (record m { conn = some c }, true) else (close_conn (some c) m, false)

-- After a read error, here and in `warmAndServe`.
unfoldable pub drop_conn : ℕ → Manager → Manager
drop_conn c m = if is_some_of c m.conn then record m { conn = none } else m

unfoldable pub is_current : ℕ → ℕ → Manager → Bool
is_current gen c m = (m.gen == gen) && is_some_of c m.conn

-- `scheduleRotation`: with no delay given, the lifetime that the server reported outranks the
-- configured one, except a configured 0, which turns rotation off.
unfoldable pub effective_lifetime : Manager → ℤ
effective_lifetime m =
    if (ltb_ℤ m.lifetime (pos 0) || ltb_ℤ (pos 0) m.lifetime) && ltb_ℤ (pos 0) m.server_lifetime
    then m.server_lifetime
    else m.lifetime

unfoldable pub schedule_rotation : ℤ → Manager → Manager
unfolding effective_lifetime
schedule_rotation delay m =
    if leb_ℤ delay (pos 0) && leb_ℤ (effective_lifetime m) (pos 0)
    then cancel_rotation m
    else record m { rotation_timer = true }

-- `wsHandoffRetry`, in nanoseconds.
abbrev pub ws_handoff_retry : ℤ
ws_handoff_retry = pos 60000000000

-- `readServerLifetime`: a missing or non-positive figure changes nothing.
unfoldable pub read_server_lifetime : Option ℤ → Manager → Manager
read_server_lifetime none m = m
read_server_lifetime (some l) m = if leb_ℤ l (pos 0) then m else record m { server_lifetime = l }

unfoldable pub on_authenticated : Option ℤ → Manager → Manager
unfolding read_server_lifetime schedule_rotation
on_authenticated l m =
    schedule_rotation (pos 0)
      (record (read_server_lifetime l m) { last_delivery_seq = pos 0; status = connected })

-- `RotateConnection`, for the handoff of the goroutine `h`; the timeout is set right after.
unfoldable pub rotate_connection : ℕ → Manager → Manager × Bool
rotate_connection h m =
    if not m.should_connect
      || not (is_none m.handoff_state)
      || not (is_connected m.status)
      || is_none m.conn
    then (m, false)
    else (
      record m {
        handoff_state = some h;
        handoffs = update m.handoffs h (record new_handoff { timeout = true });
      },
      true,
    )

-- `warmAndServe` after the dial.
unfoldable pub warm_dialed : ℕ → ℕ → ℕ → Manager → Manager × Bool
warm_dialed gen h c m =
    if is_some_of h m.handoff_state && is_live gen m
    then (
      record m { handoffs = update m.handoffs h (record (m.handoffs h) { conn = some c }) },
      true,
    )
    else (close_conn (some c) m, false)

-- `if m.abortHandoffIf(h) { m.scheduleRotation(wsHandoffRetry) }`.
unfoldable pub abort_handoff_if : ℕ → Manager → Manager
unfolding schedule_rotation
abort_handoff_if h m =
    if is_some_of h m.handoff_state
    then schedule_rotation ws_handoff_retry (close_conn (m.handoffs h).conn (detach h m))
    else m

unfoldable pub clear_handoff_timeout : ℕ → Manager → Manager
clear_handoff_timeout h m =
    if is_some_of h m.handoff_state
    then record m { handoffs = update m.handoffs h (record (m.handoffs h) { timeout = false }) }
    else m

abbrev has_pending : List String → Bool
has_pending [] = false
has_pending (_ ∷ _) = true

-- The swap itself.
promote_now : ℕ → Manager → Manager
unfolding schedule_rotation
promote_now h m = schedule_rotation (pos 0) (
    close_conn m.conn (record m {
      conn = (m.handoffs h).conn;
      gen = suc m.gen;
      connecting = true;
      last_delivery_seq = pos 0;
      handoff_state = none;
      handoffs = update m.handoffs h (record (stopped (m.handoffs h)) { new_gen = suc m.gen });
    }))

-- While replies are awaited on the old connection, the promotion is tried again later, up to a limit.
unfoldable pub promote_handoff : ℕ → Manager → Manager
unfolding promote_now
promote_handoff h m =
    if not (is_some_of h m.handoff_state) || is_none (m.handoffs h).conn
    then m
    else if has_pending m.pending && ltb (m.handoffs h).attempts ws_promote_max_attempts
    then record m {
      handoffs =
          update m.handoffs h
            (record (m.handoffs h) { attempts = suc (m.handoffs h).attempts; promote = true });
    }
    else promote_now h m
