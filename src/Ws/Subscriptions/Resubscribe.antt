-- ===== src/Ws/Subscriptions/Resubscribe.antt =====
-- websocket.go, `resubscribe`: what is written on a connection that has authenticated. The state is
-- read in one section under the lock, and the frames are written after it.
pub mod Skips
pub mod Restores
use arca_go_sdk.Prelude.{
  ℕ, suc, ◌+◌, String, List, [], ◌∷◌, Option, none, some, Bool, true, false, if◌then◌else◌, keys,
  length,
}
use arca_go_sdk.Ws.Frames.{
  Frame, ChartWatch, Subscriptions, subscribe_mids, subscribe_candles, subscribe_oi,
  subscribe_trades, subscribe_events, watch, watch_chart_history, attach_watch, is_empty,
}
use arca_go_sdk.Ws.Subscriptions.{mids_subscription_coins, all_intervals}

-- `none` where nothing is subscribed.
abbrev pub write_mids : Option (List String) → String → List Frame → List Frame
write_mids none e w = w
write_mids (some coins) e w = subscribe_mids e coins ∷ w

abbrev pub write_candles : Subscriptions → List Frame → List Frame
write_candles s w =
    if is_empty s.candle_refs
    then w
    else subscribe_candles (keys s.candle_refs) (all_intervals s.candle_refs) ∷ w

abbrev pub write_oi : Subscriptions → List Frame → List Frame
write_oi s w =
    if is_empty s.oi_refs then w else subscribe_oi (keys s.oi_refs) (all_intervals s.oi_refs) ∷ w

abbrev pub write_trades : Subscriptions → List Frame → List Frame
write_trades s w = if is_empty s.trade_refs then w else subscribe_trades (keys s.trade_refs) ∷ w

-- Each watch of a path has a request id of its own.
unfoldable pub write_paths : List String → ℕ → List Frame → List Frame
write_paths [] n w = w
write_paths (p ∷ ps) n w = write_paths ps (suc n) (watch p (suc n) ∷ w)

unfoldable pub write_charts : List (String × ChartWatch) → List Frame → List Frame
write_charts [] w = w
write_charts ((i, c) ∷ cs) w = write_charts cs (watch_chart_history i c ∷ w)

unfoldable pub write_attached : List String → List Frame → List Frame
write_attached [] w = w
write_attached (i ∷ is) w = write_attached is (attach_watch i ∷ w)

abbrev pub write_events : Subscriptions → List Frame → List Frame
write_events s w =
    if is_empty s.event_type_subs then w else subscribe_events (keys s.event_type_subs) ∷ w

unfoldable pub resubscribe : Subscriptions → List Frame → Subscriptions × List Frame
unfolding mids_subscription_coins write_paths write_charts write_attached
resubscribe s w = (
  record s { next_req_id = s.next_req_id + length s.path_refs },
  write_events s (
      write_attached s.attached_watches (
        write_charts s.chart_watches (
          write_paths (keys s.path_refs) s.next_req_id (
            write_trades s (
              write_oi s
                (write_candles s (write_mids (mids_subscription_coins s) s.mids_exch w))))))),
)
