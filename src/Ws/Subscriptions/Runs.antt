-- ===== src/Ws/Subscriptions/Runs.antt =====
-- websocket.go: any sequence of the calls of Ws/Subscriptions, with a connection or without.
use arca_go_sdk.Prelude.{String, List, [], ◌∷◌, Bool, false}
use arca_go_sdk.Ws.Frames.{Subscriptions}
use arca_go_sdk.Ws.Subscriptions.{
  acquire_mids, release_mids, acquire_trades, release_trades, acquire_candles, release_candles,
  acquire_oi, release_oi, subscribe_event_types, unsubscribe_event_types, watch_path, unwatch_path,
  attach_aggregation_watch, detach_aggregation_watch,
}

-- `turns` is the connection that comes (true) or goes.
pub data Call : Type 0 where
  acquires_mids : String → List String → Call
  releases_mids acquires_trades releases_trades subscribes unsubscribes : List String → Call
  acquires_candles releases_candles acquires_oi releases_oi : List String → List String → Call
  watches_path unwatches_path attaches detaches : String → Call
  turns : Bool → Call

abbrev pub call : Subscriptions → Call → Subscriptions
call s (acquires_mids e cs) = acquire_mids e cs s
call s (releases_mids cs) = release_mids cs s
call s (acquires_trades cs) = acquire_trades cs s
call s (releases_trades cs) = release_trades cs s
call s (subscribes ts) = subscribe_event_types ts s
call s (unsubscribes ts) = unsubscribe_event_types ts s
call s (acquires_candles cs is) = acquire_candles cs is s
call s (releases_candles cs is) = release_candles cs is s
call s (acquires_oi cs is) = acquire_oi cs is s
call s (releases_oi cs is) = release_oi cs is s
call s (watches_path p) = watch_path p s
call s (unwatches_path p) = unwatch_path p s
call s (attaches i) = attach_aggregation_watch i s
call s (detaches i) = detach_aggregation_watch i s
call s (turns b) = record s { online = b }

unfoldable pub calls : Subscriptions → List Call → Subscriptions
calls s [] = s
calls s (c ∷ cs) = calls (call s c) cs

abbrev pub no_subscriptions : Subscriptions
no_subscriptions = record {
  path_refs = [];
  mids_all = 0;
  mids_coins = [];
  mids_exch = "";
  candle_refs = [];
  oi_refs = [];
  trade_refs = [];
  event_type_subs = [];
  chart_watches = [];
  attached_watches = [];
  next_req_id = 0;
  online = false;
  wire = [];
  deferred = [];
}
