-- ===== src/Ws/Subscriptions.antt =====
-- websocket.go: the calls that acquire and release subscriptions.
pub mod Server
pub mod Mids
pub mod Events
pub mod Candles
pub mod Resubscribe
pub mod Runs
pub mod Calls
use text.Mathlib.Text.{is_le}
use Prim.Native.String.{compare}
use arca_go_sdk.Prelude.{
  ℕ, zero, suc, ◌-◌, String, List, [], ◌∷◌, ◌++◌, map, Option, none, some, Bool, true, false, ◌||◌,
  if◌then◌else◌, str_eq, ◌==◌, ltb, leb, contains, lookup, put, del, keys,
}
use arca_go_sdk.Ws.Counters.{Counters, count, incr, incr_all, decr_all}
use arca_go_sdk.Ws.Frames.{
  Frame, ChartWatch, Subscriptions, IntervalSets, subscribe_mids, unsubscribe_mids,
  subscribe_trades, unsubscribe_trades, subscribe_candles, unsubscribe_candles, subscribe_oi,
  unsubscribe_oi, subscribe_events, unsubscribe_events, watch, unwatch, attach_watch, detach_watch,
  watch_chart_history, unwatch_chart_history, send, send_when_connected, sort_strings, is_empty,
}

-- Mids: an owner of all coins outranks the owners of some.
unfoldable pub mids_subscription_coins : Subscriptions → Option (List String)
mids_subscription_coins s =
    if ltb 0 s.mids_all
    then some []
    else if is_empty s.mids_coins
    then none
    else some (sort_strings (keys s.mids_coins))

unfoldable pub sync_mids : Subscriptions → Subscriptions
unfolding mids_subscription_coins
sync_mids s = elim (mids_subscription_coins s) [
  | none ↦ send unsubscribe_mids s
  | some coins ↦ send (subscribe_mids s.mids_exch coins) s
]

unfoldable pub acquire_mids : String → List String → Subscriptions → Subscriptions
unfolding sync_mids
acquire_mids exchange [] s =
    sync_mids (record s { mids_exch = exchange; mids_all = suc s.mids_all })
acquire_mids exchange (c ∷ cs) s =
    sync_mids (record s { mids_exch = exchange; mids_coins = incr_all (c ∷ cs) s.mids_coins })

unfoldable pub release_mids : List String → Subscriptions → Subscriptions
unfolding sync_mids
release_mids [] s = sync_mids (record s { mids_all = s.mids_all - 1 })
release_mids (c ∷ cs) s = sync_mids (record s { mids_coins = decr_all (c ∷ cs) s.mids_coins })

-- Trades.
unfoldable pub sync_trades : Subscriptions → Subscriptions
sync_trades s =
    if is_empty s.trade_refs
    then send unsubscribe_trades s
    else send (subscribe_trades (keys s.trade_refs)) s

unfoldable pub acquire_trades : List String → Subscriptions → Subscriptions
unfolding sync_trades
acquire_trades coins s = sync_trades (record s { trade_refs = incr_all coins s.trade_refs })

unfoldable pub release_trades : List String → Subscriptions → Subscriptions
unfolding sync_trades
release_trades coins s = sync_trades (record s { trade_refs = decr_all coins s.trade_refs })

-- Candles and open interest: a set of intervals for each coin.
abbrev pub or_empty : Option (List String) → List String
or_empty none = []
or_empty (some ivs) = ivs

unfoldable pub add_intervals : List String → List String → List String
add_intervals [] set = set
add_intervals (iv ∷ ivs) set = add_intervals ivs (if contains iv set then set else iv ∷ set)

unfoldable pub remove_key : String → List String → List String
remove_key iv [] = []
remove_key iv (x ∷ xs) = let rest = remove_key iv xs in if str_eq x iv then rest else x ∷ rest

unfoldable pub remove_intervals : List String → List String → List String
unfolding remove_key
remove_intervals [] set = set
remove_intervals (iv ∷ ivs) set = remove_intervals ivs (remove_key iv set)

unfoldable pub acquire_sets : List String → List String → IntervalSets → IntervalSets
acquire_sets [] ivs m = m
acquire_sets (c ∷ cs) ivs m =
    acquire_sets cs ivs (put c (add_intervals ivs (or_empty (lookup c m))) m)

-- One coin of a release: nothing to do for a coin that is not there.
release_set : String → List String → Option (List String) → IntervalSets → IntervalSets
release_set c ivs none m = m
release_set c ivs (some set) m =
    if is_empty (remove_intervals ivs set) then del c m else put c (remove_intervals ivs set) m

unfoldable pub release_sets : List String → List String → IntervalSets → IntervalSets
unfolding release_set
release_sets [] ivs m = m
release_sets (c ∷ cs) ivs m = release_sets cs ivs (release_set c ivs (lookup c m) m)

-- All intervals of all coins, each once.
unfoldable pub all_intervals : IntervalSets → List String
all_intervals [] = []
all_intervals ((c, ivs) ∷ m) = add_intervals ivs (all_intervals m)

unfoldable pub sync_candles : Subscriptions → Subscriptions
sync_candles s =
    if is_empty s.candle_refs
    then send unsubscribe_candles s
    else send (subscribe_candles (keys s.candle_refs) (all_intervals s.candle_refs)) s

unfoldable pub acquire_candles : List String → List String → Subscriptions → Subscriptions
unfolding sync_candles
acquire_candles coins ivs s =
    sync_candles (record s { candle_refs = acquire_sets coins ivs s.candle_refs })

unfoldable pub release_candles : List String → List String → Subscriptions → Subscriptions
unfolding sync_candles
release_candles coins ivs s =
    sync_candles (record s { candle_refs = release_sets coins ivs s.candle_refs })

unfoldable pub sync_oi : Subscriptions → Subscriptions
sync_oi s =
    if is_empty s.oi_refs
    then send unsubscribe_oi s
    else send (subscribe_oi (keys s.oi_refs) (all_intervals s.oi_refs)) s

unfoldable pub acquire_oi : List String → List String → Subscriptions → Subscriptions
unfolding sync_oi
acquire_oi coins ivs s = sync_oi (record s { oi_refs = acquire_sets coins ivs s.oi_refs })

unfoldable pub release_oi : List String → List String → Subscriptions → Subscriptions
unfolding sync_oi
release_oi coins ivs s = sync_oi (record s { oi_refs = release_sets coins ivs s.oi_refs })

-- Events by type: only what changes is written.
unfoldable pub add_types : List String → Counters → Counters × List String
add_types [] m = (m, [])
add_types (t ∷ ts) m =
    let (m', added) = add_types ts (incr t m) in (m', if count t m == 0 then t ∷ added else added)

unfoldable pub drop_types : List String → Counters → Counters × List String
drop_types [] m = (m, [])
drop_types (t ∷ ts) m =
    let n = count t m in
    let (m', dropped) =
      drop_types ts (if ltb 1 n then put t (n - 1) m else if n == 1 then del t m else m) in
    (m', if n == 1 then t ∷ dropped else dropped)

abbrev pub send_added : Counters × List String → Subscriptions → Subscriptions
send_added (m, []) s = record s { event_type_subs = m }
send_added (m, t ∷ ts) s =
    send_when_connected (subscribe_events (t ∷ ts)) (record s { event_type_subs = m })

unfoldable pub subscribe_event_types : List String → Subscriptions → Subscriptions
subscribe_event_types [] s = s
subscribe_event_types (t ∷ ts) s = send_added (add_types (t ∷ ts) s.event_type_subs) s

abbrev pub send_dropped : Counters × List String → Subscriptions → Subscriptions
send_dropped (m, []) s = record s { event_type_subs = m }
send_dropped (m, t ∷ ts) s = send (unsubscribe_events (t ∷ ts)) (record s { event_type_subs = m })

unfoldable pub unsubscribe_event_types : List String → Subscriptions → Subscriptions
unsubscribe_event_types types s = send_dropped (drop_types types s.event_type_subs) s

-- The lease of `watchPath` and its release; the wait for the snapshot is in Ws/Requests.antt.
unfoldable pub watch_path : String → Subscriptions → Subscriptions
watch_path path s =
    send_when_connected (watch path (suc s.next_req_id))
      (record s { path_refs = incr path s.path_refs; next_req_id = suc s.next_req_id })

unfoldable pub unwatch_path : String → Subscriptions → Subscriptions
unwatch_path path s =
    if leb (count path s.path_refs) 1
    then send (unwatch path) (record s { path_refs = del path s.path_refs })
    else record s { path_refs = put path (count path s.path_refs - 1) s.path_refs }

-- Watches that were made over REST, and chart histories (the `kind` of the caller, "path" if empty).
unfoldable pub attach_aggregation_watch : String → Subscriptions → Subscriptions
attach_aggregation_watch id s =
    if str_eq id ""
    then s
    else send_when_connected (attach_watch id) (record s {
      attached_watches =
          if contains id s.attached_watches then s.attached_watches else id ∷ s.attached_watches;
    })

unfoldable pub detach_aggregation_watch : String → Subscriptions → Subscriptions
unfolding remove_key
detach_aggregation_watch id s =
    if str_eq id ""
    then s
    else send (detach_watch id) (record s { attached_watches = remove_key id s.attached_watches })
