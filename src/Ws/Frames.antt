-- ===== src/Ws/Frames.antt =====
-- websocket.go: the subscriptions that WebSocketManager holds for its callers, and the frames that
-- it writes for them. `online` is "there is a connection and its status is connected"; the call of
-- EnsureConnected that comes with every acquisition is in Ws/Manager.antt. Each call is one step:
-- another call between its change of the maps and its write is left out.
use text.Mathlib.Text.{is_le}
use Prim.Native.String.{compare}
use arca_go_sdk.Prelude.{ℕ, String, List, [], ◌∷◌, ◌++◌, Bool, true, false, if◌then◌else◌}
use arca_go_sdk.Ws.Counters.{Counters}

pub record ChartWatch : Type 0 where
  pub target : String
  pub kind : String
  pub object_id : String

-- The messages to the server, by their "action".
pub data Frame : Type 0 where
  subscribe_mids : String → List String → Frame
  subscribe_candles subscribe_oi : List String → List String → Frame
  subscribe_trades subscribe_events unsubscribe_events : List String → Frame
  unsubscribe_mids unsubscribe_candles unsubscribe_oi unsubscribe_trades : Frame
  watch : String → ℕ → Frame
  watch_chart_history : String → ChartWatch → Frame
  unwatch unwatch_chart_history attach_watch detach_watch : String → Frame

-- map[string]map[CandleInterval]bool.
abbrev pub IntervalSets : Type 0
IntervalSets = List (String × List String)

pub record Subscriptions : Type 0 where
  pub path_refs : Counters
  pub mids_all : ℕ
  pub mids_coins : Counters
  pub mids_exch : String
  pub candle_refs : IntervalSets
  pub oi_refs : IntervalSets
  pub trade_refs : Counters
  pub event_type_subs : Counters
  pub chart_watches : List (String × ChartWatch)
  pub attached_watches : List String
  pub next_req_id : ℕ
  pub online : Bool  -- the status is connected, and there is a connection to write to
  pub wire : List Frame  -- the frames written, the latest first
  pub deferred : List Frame  -- what `sendWhenConnected` writes after the next authentication

abbrev pub send : Frame → Subscriptions → Subscriptions
send f s = if s.online then record s { wire = f ∷ s.wire } else s

abbrev pub send_when_connected : Frame → Subscriptions → Subscriptions
send_when_connected f s =
    if s.online
    then record s { wire = f ∷ s.wire }
    else record s { deferred = s.deferred ++ f ∷ [] }

-- `sort.Strings`.
unfoldable pub insert_sorted : String → List String → List String
insert_sorted k [] = k ∷ []
insert_sorted k (j ∷ js) = if is_le (compare k j) then k ∷ j ∷ js else j ∷ insert_sorted k js

unfoldable pub sort_strings : List String → List String
unfolding insert_sorted
sort_strings [] = []
sort_strings (k ∷ ks) = insert_sorted k (sort_strings ks)

abbrev pub is_empty {ℓ} : {A : Type ℓ} → List A → Bool
is_empty [] = true
is_empty (_ ∷ _) = false
