-- ===== src/Ws/Subscriptions/Server.antt =====
-- The server's side of the subscriptions of websocket.go: what it serves to a connection after the
-- frames it read there. Each frame decides some questions, and the latest one that does has its way.
use arca_go_sdk.Prelude.{
  String, List, [], ◌∷◌, Option, none, some, Bool, true, false, ◌&&◌, ◌||◌, if◌then◌else◌, str_eq,
  contains,
}
use arca_go_sdk.Ws.Frames.{
  Frame, subscribe_mids, unsubscribe_mids, subscribe_trades, unsubscribe_trades, subscribe_candles,
  unsubscribe_candles, subscribe_events, unsubscribe_events, watch, unwatch, attach_watch,
  detach_watch, is_empty,
}

abbrev decided : Option Bool → Bool → Bool
decided none later = later
decided (some b) later = b

-- The answer to one question, where `reading` says what a frame decides of it.
unfoldable pub see : (Frame → Option Bool) → List Frame → Bool
see reading [] = false
see reading (f ∷ w) = decided (reading f) (see reading w)

-- Mids of a coin: a subscription without coins is for all of them.
abbrev pub mids_of : String → Frame → Option Bool
mids_of c (subscribe_mids e coins) = some (is_empty coins || contains c coins)
mids_of c unsubscribe_mids = some false
mids_of c _ = none

abbrev pub trades_of : String → Frame → Option Bool
trades_of c (subscribe_trades coins) = some (contains c coins)
trades_of c unsubscribe_trades = some false
trades_of c _ = none

-- Candles of a coin and an interval: each interval of a subscription is for each of its coins.
abbrev pub candles_of : String → String → Frame → Option Bool
candles_of c iv (subscribe_candles coins ivs) = some (contains c coins && contains iv ivs)
candles_of c iv unsubscribe_candles = some false
candles_of c iv _ = none

-- Events, paths and attached watches are added and removed one by one.
abbrev if_named : Bool → Bool → Option Bool
if_named named b = if named then some b else none

abbrev pub event_on : String → Frame → Option Bool
event_on t (subscribe_events ts) = if_named (contains t ts) true
event_on t (unsubscribe_events ts) = if_named (contains t ts) false
event_on t _ = none

abbrev pub path_on : String → Frame → Option Bool
path_on p (watch q id) = if_named (str_eq q p) true
path_on p (unwatch q) = if_named (str_eq q p) false
path_on p _ = none

abbrev pub attached_on : String → Frame → Option Bool
attached_on i (attach_watch j) = if_named (str_eq j i) true
attached_on i (detach_watch j) = if_named (str_eq j i) false
attached_on i _ = none

abbrev pub trades_on : List Frame → String → Bool
trades_on w c = see (trades_of c) w

abbrev pub mids_on : List Frame → String → Bool
mids_on w c = see (mids_of c) w

abbrev pub serves : List Frame → String → Bool
serves w t = see (event_on t) w

abbrev pub watches : List Frame → String → Bool
watches w p = see (path_on p) w
