-- ===== src/Ws/Requests.antt =====
-- websocket.go: requests over the connection that wait for their answer. `pending` has the channel of
-- each request id; a channel is a number, and `channels` has what is in it. Its capacity is 1.
pub mod Channels
pub mod Runs
pub mod Replies
use arca_go_sdk.Prelude.{
  ℕ, suc, String, List, [], ◌∷◌, Option, none, some, Bool, true, false, update, lookup, put, del,
  if◌then◌else◌, str_eq,
}
use arca_go_sdk.Client.Errors.{Error, typed, base, new_arca_error, Result, ok, err, ◌>>=◌}

-- `broken` is a channel whose sender would wait for ever or panic, or that was closed twice.
pub data Channel : Type 0 where
  idle shut broken : Channel
  holding : String → Channel

abbrev pub send_on : String → Channel → Channel
send_on data_ idle = holding data_
send_on data_ _ = broken

abbrev pub close_on : Channel → Channel
close_on idle = shut
close_on (holding data_) = shut
close_on _ = broken

pub record Requests : Type 0 where
  pub pending : List (String × ℕ)
  pub channels : ℕ → Channel
  pub sending : ℕ → Option String  -- what a goroutine has taken for the channel and not yet sent
  pub next_channel : ℕ

unfoldable pub no_requests : Requests
no_requests = record { pending = []; channels = λ c. idle; sending = λ c. none; next_channel = 0 }

unfoldable pub register_pending : String → Requests → Requests
register_pending id s = record {
  pending = put id s.next_channel s.pending;
  channels = update s.channels s.next_channel idle;
  sending = s.sending;
  next_channel = suc s.next_channel;
}

-- The section of `resolvePending` under the lock: the channel that the answer is to go to.
unfoldable pub take_pending : String → String → Requests → Requests × Option ℕ
take_pending id data_ s = elim (lookup id s.pending) [
  | none ↦ (s, none)
  | some c ↦
      (record s { pending = del id s.pending; sending = update s.sending c (some data_) }, some c)
]

-- The send after it, outside the lock.
unfoldable pub send_taken : ℕ → Requests → Requests
send_taken c s = elim (s.sending c) [
  | none ↦ s
  | some data_ ↦ record s {
    channels = update s.channels c (send_on data_ (s.channels c));
    sending = update s.sending c none;
  }
]

-- `resolvePending`, where nothing comes between the two.
unfoldable pub resolve_pending : String → String → Requests → Requests × Bool
unfolding take_pending send_taken
resolve_pending id data_ s = elim (take_pending id data_ s).1 [
  | none ↦ ((take_pending id data_ s).0, false)
  | some c ↦ (send_taken c (take_pending id data_ s).0, true)
]

-- The loop of `rejectPendingLocked`.
unfoldable pub close_all : List (String × ℕ) → (ℕ → Channel) → ℕ → Channel
close_all [] chans = chans
close_all ((id, c) ∷ ps) chans = close_all ps (update chans c (close_on (chans c)))

unfoldable pub reject_pending : Requests → Requests
unfolding close_all
reject_pending s = record s { pending = []; channels = close_all s.pending s.channels }

unfoldable pub drop_pending : String → Requests → Requests
drop_pending id s = record s { pending = del id s.pending }

-- The calls of a client, the answers of the server, the sends that hand them on, and the ends of live
-- connection attempts, in any order.
pub data Event : Type 0 where
  registers drops : String → Event
  answers : String → String → Event
  sends : ℕ → Event
  rejects : Event

abbrev pub step : Requests → Event → Requests
step s (registers id) = register_pending id s
step s (drops id) = drop_pending id s
step s (answers id data_) = (take_pending id data_ s).0
step s (sends c) = send_taken c s
step s rejects = reject_pending s

unfoldable pub run : Requests → List Event → Requests
run s [] = s
run s (e ∷ es) = run (step s e) es

-- What ends the wait of a caller: its context, its timer, or its channel, which has an answer or
-- was closed.
pub data Wake : Type 0 where
  context_done timed_out : Wake
  woken : Option String → Wake

abbrev pub ws_error : String → String → Error
ws_error code message = typed base (new_arca_error code message "")

-- The decoding of an answer: its type and message, and its body.
pub record Decoder (A : Type 0) : Type 0 where
  pub head : String → Result (String × String)
  pub body : String → Result A
  pub ctx_err : Error

module _ {A : Type 0} (d : Decoder A) where
  abbrev pub checked : String → String × String → Result A
  checked raw (kind, message) =
      if str_eq kind "error" then err (ws_error "WS_ERROR" message) else d.body raw

  -- `projectionRequest`.
  unfoldable pub projection_reply : Wake → Result A
  projection_reply context_done = err d.ctx_err
  projection_reply timed_out =
      err (ws_error "WS_TIMEOUT" "timeout waiting for the projection watch reply")
  projection_reply (woken none) = err (ws_error "WS_DISCONNECTED" "websocket disconnected")
  projection_reply (woken (some raw)) = d.head raw >>= checked raw

  -- `requestPathSnapshot`.
  unfoldable pub path_snapshot_reply : Wake → Result A
  path_snapshot_reply context_done = err d.ctx_err
  path_snapshot_reply timed_out = err (ws_error "WS_TIMEOUT" "timeout waiting for watch snapshot")
  path_snapshot_reply (woken none) = err (ws_error "WS_DISCONNECTED" "websocket disconnected")
  path_snapshot_reply (woken (some raw)) = d.head raw >>= checked raw

  -- `createAggregationWatch`: the body is the watch id and the aggregation.
  unfoldable pub aggregation_reply : Wake → Result A
  aggregation_reply context_done = err d.ctx_err
  aggregation_reply timed_out = err (ws_error "WS_TIMEOUT" "timeout creating aggregation watch")
  aggregation_reply (woken none) = err (ws_error "WS_DISCONNECTED" "websocket disconnected")
  aggregation_reply (woken (some raw)) = d.body raw

-- `createChartHistoryWatch` for a watch of this id.
unfoldable pub chart_reply : Error → String → Wake → Result String
chart_reply ctx_err id context_done = err ctx_err
chart_reply ctx_err id timed_out =
    err (ws_error "WS_TIMEOUT" "timeout creating chart history watch")
chart_reply ctx_err id (woken answer) = ok id
