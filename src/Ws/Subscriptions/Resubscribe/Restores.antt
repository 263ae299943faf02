-- ===== src/Ws/Subscriptions/Resubscribe/Restores.antt =====
-- websocket.go, `resubscribe`: what the frames of each section make the server send.
use arca_go_sdk.Prelude.{
  ℕ, suc, ◌≡◌, refl, ◌∙◌, String, List, [], ◌∷◌, Option, none, some, Bool, true, false, ◌||◌, arith,
  ltb, keys, contains, lookup,
}
use arca_go_sdk.Ws.Counters.{Counters, count, IsPositive, contains-keys-IsPositive}
use arca_go_sdk.Ws.Frames.{
  Frame, ChartWatch, Subscriptions, IntervalSets, subscribe_events, watch, watch_chart_history,
  attach_watch, is_empty,
}
use arca_go_sdk.Ws.Subscriptions.{mids_subscription_coins, all_intervals}
use arca_go_sdk.Ws.Subscriptions.Server.{
  see, mids_of, trades_of, candles_of, event_on, path_on, attached_on, mids_on, trades_on, serves,
  watches,
}
use arca_go_sdk.Ws.Subscriptions.Mids.{mids_owned, coins_cover, coins_cover_lem}
use arca_go_sdk.Ws.Subscriptions.Candles.{holds, contains-add_intervals}
use arca_go_sdk.Ws.Subscriptions.Resubscribe.{
  write_mids, write_candles, write_oi, write_trades, write_paths, write_charts, write_attached,
  write_events, resubscribe,
}
use arca_go_sdk.Ws.Subscriptions.Resubscribe.Skips.{
  skip_candles, skip_oi, skip_trades, skip_events, skip_mids, skip_paths, skip_charts,
  skip_attached,
}

see-write_mids :
    (o : Option (List String)) (e c : String) → mids_on (write_mids o e []) c ≡ coins_cover o c
unfolding see
see-write_mids none e c = refl
see-write_mids (some cs) e c = refl

nonempty_count : (k : String) (m : Counters) → is_empty m ≡ true → count k m ≡ 0
unfolding count lookup
nonempty_count k [] e = refl
nonempty_count k (x ∷ m) e = absurd (ground (arith, e))

see-write_trades :
    (s : Subscriptions) (w : List Frame) (c : String)
    → IsPositive s.trade_refs
    → trades_on w c ≡ false
    → trades_on (write_trades s w) c ≡ ltb 0 (count c s.trade_refs)
unfolding see
see-write_trades s w c p e =
    ground (arith, e, contains-keys-IsPositive c s.trade_refs p, nonempty_count c s.trade_refs)

see-write_events :
    (s : Subscriptions) (w : List Frame) (t : String)
    → IsPositive s.event_type_subs
    → serves w t ≡ false
    → serves (write_events s w) t ≡ ltb 0 (count t s.event_type_subs)
unfolding see
see-write_events s w t p e =
    ground
      (arith, e, contains-keys-IsPositive t s.event_type_subs p, nonempty_count t s.event_type_subs)

see-write_paths :
    (ps : List String) (n : ℕ) (w : List Frame) (p : String)
    → watches (write_paths ps n w) p ≡ contains p ps || watches w p
unfolding write_paths see contains
see-write_paths [] n w p = refl
see-write_paths (q ∷ ps) n w p = see-write_paths ps (suc n) (watch q (suc n) ∷ w) p ∙ ground arith

see-write_attached :
    (is : List String) (w : List Frame) (i : String)
    → see (attached_on i) (write_attached is w) ≡ contains i is || see (attached_on i) w
unfolding write_attached see contains
see-write_attached [] w i = refl
see-write_attached (j ∷ is) w i = see-write_attached is (attach_watch j ∷ w) i ∙ ground arith

all_intervals-holds :
    (m : IntervalSets) (c iv : String) → holds c iv m ≡ true → contains iv (all_intervals m) ≡ true
unfolding holds all_intervals lookup contains
all_intervals-holds [] c iv h = absurd (ground (arith, h))
all_intervals-holds ((d, set) ∷ m) c iv h =
    ground (arith, h, contains-add_intervals set iv (all_intervals m), all_intervals-holds m c iv)

keys-holds :
    (m : IntervalSets) (c iv : String)
    → holds c iv m ≡ true
    → (contains c (keys m) ≡ true) × (is_empty m ≡ false)
unfolding holds lookup contains keys
keys-holds [] c iv h = absurd (ground (arith, h))
keys-holds ((d, set) ∷ m) c iv h = ground (arith, h, keys-holds m c iv)

see-write_candles :
    (s : Subscriptions) (w : List Frame) (c iv : String)
    → holds c iv s.candle_refs ≡ true
    → see (candles_of c iv) (write_candles s w) ≡ true
unfolding see
see-write_candles s w c iv h =
    ground (arith, keys-holds s.candle_refs c iv h, all_intervals-holds s.candle_refs c iv h)

-- The frames of each stage, on a connection that has none.
module _ (s : Subscriptions) where
  after_mids : List Frame
  after_mids = write_mids (mids_subscription_coins s) s.mids_exch []

  after_trades : List Frame
  unfolding after_mids
  after_trades = write_trades s (write_oi s (write_candles s after_mids))

  after_paths : List Frame
  unfolding after_trades
  after_paths = write_paths (keys s.path_refs) s.next_req_id after_trades

  after_attached : List Frame
  unfolding after_paths
  after_attached = write_attached s.attached_watches (write_charts s.chart_watches after_paths)

  -- A question that no frame from candles on decides, and so on from the later stages.
  see_from_attached :
      (r : Frame → Option Bool)
      → ((ts : List String) → r (subscribe_events ts) ≡ none)
      → see r (resubscribe s []).1 ≡ see r after_attached
  unfolding resubscribe after_attached after_paths after_trades after_mids
  see_from_attached r h = skip_events r s after_attached h

  see_from_paths :
      (r : Frame → Option Bool)
      → ((ts : List String) → r (subscribe_events ts) ≡ none)
      → ((i : String) → r (attach_watch i) ≡ none)
      → ((i : String) (c : ChartWatch) → r (watch_chart_history i c) ≡ none)
      → see r (resubscribe s []).1 ≡ see r after_paths
  unfolding after_attached
  see_from_paths r h1 h2 h3 =
      see_from_attached r h1
      ∙ skip_attached r s.attached_watches (write_charts s.chart_watches after_paths) h2
      ∙ skip_charts r s.chart_watches after_paths h3

  see_from_trades :
      (r : Frame → Option Bool)
      → ((ts : List String) → r (subscribe_events ts) ≡ none)
      → ((i : String) → r (attach_watch i) ≡ none)
      → ((i : String) (c : ChartWatch) → r (watch_chart_history i c) ≡ none)
      → ((p : String) (n : ℕ) → r (watch p n) ≡ none)
      → see r (resubscribe s []).1 ≡ see r after_trades
  unfolding after_paths
  see_from_trades r h1 h2 h3 h4 =
      see_from_paths r h1 h2 h3 ∙ skip_paths r (keys s.path_refs) s.next_req_id after_trades h4

  -- Mids, trades and events of what was written before them.
  trades_before : (c : String) → trades_on (write_oi s (write_candles s after_mids)) c ≡ false
  unfolding after_mids see
  trades_before c =
      skip_oi (trades_of c) s (write_candles s after_mids) (λ cs is. refl)
      ∙ skip_candles (trades_of c) s after_mids (λ cs is. refl)
      ∙ skip_mids (trades_of c) (mids_subscription_coins s) s.mids_exch [] (λ e cs. refl)

  paths_before : (p : String) → watches after_trades p ≡ false
  unfolding after_trades after_mids see
  paths_before p =
      skip_trades (path_on p) s (write_oi s (write_candles s after_mids)) (λ cs. refl)
      ∙ skip_oi (path_on p) s (write_candles s after_mids) (λ cs is. refl)
      ∙ skip_candles (path_on p) s after_mids (λ cs is. refl)
      ∙ skip_mids (path_on p) (mids_subscription_coins s) s.mids_exch [] (λ e cs. refl)

  attached_before :
      (i : String) → see (attached_on i) (write_charts s.chart_watches after_paths) ≡ false
  unfolding after_paths after_trades after_mids see
  attached_before i =
      let r = attached_on i in
      skip_charts r s.chart_watches after_paths (λ i c. refl)
      ∙ skip_paths r (keys s.path_refs) s.next_req_id after_trades (λ p n. refl)
      ∙ skip_trades r s (write_oi s (write_candles s after_mids)) (λ cs. refl)
      ∙ skip_oi r s (write_candles s after_mids) (λ cs is. refl)
      ∙ skip_candles r s after_mids (λ cs is. refl)
      ∙ skip_mids r (mids_subscription_coins s) s.mids_exch [] (λ e cs. refl)

  events_before : (t : String) → serves after_attached t ≡ false
  unfolding after_attached after_paths after_trades after_mids see
  events_before t =
      let r = event_on t in
      skip_attached r s.attached_watches (write_charts s.chart_watches after_paths) (λ i. refl)
      ∙ skip_charts r s.chart_watches after_paths (λ i c. refl)
      ∙ skip_paths r (keys s.path_refs) s.next_req_id after_trades (λ p n. refl)
      ∙ skip_trades r s (write_oi s (write_candles s after_mids)) (λ cs. refl)
      ∙ skip_oi r s (write_candles s after_mids) (λ cs is. refl)
      ∙ skip_candles r s after_mids (λ cs is. refl)
      ∙ skip_mids r (mids_subscription_coins s) s.mids_exch [] (λ e cs. refl)

-- On a connection that has just authenticated, with no count of 0 in the maps, the frames of
-- `resubscribe` make the server send the mids and the trades of exactly the coins with an owner, the
-- event types with an owner and the paths with an owner, deliver exactly the attached watches, and
-- send at least each interval of candles that is held for a coin.
pub resubscribe_restores :
    (s : Subscriptions)
    → IsPositive s.mids_coins
    → IsPositive s.trade_refs
    → IsPositive s.event_type_subs
    → IsPositive s.path_refs
    → let w = (resubscribe s []).1 in
      ((c : String) → mids_on w c ≡ mids_owned s c)
      × ((c : String) → trades_on w c ≡ ltb 0 (count c s.trade_refs))
      × ((t : String) → serves w t ≡ ltb 0 (count t s.event_type_subs))
      × ((p : String) → watches w p ≡ ltb 0 (count p s.path_refs))
      × ((i : String) → see (attached_on i) w ≡ contains i s.attached_watches)
      × ((c iv : String) → holds c iv s.candle_refs ≡ true → see (candles_of c iv) w ≡ true)
unfolding resubscribe after_attached after_paths after_trades after_mids
resubscribe_restores s pm pt pe pp = (
  λ c.
      let r = mids_of c in
      see_from_trades s r (λ ts. refl) (λ i. refl) (λ i c. refl) (λ p n. refl)
      ∙ skip_trades r s (write_oi s (write_candles s (after_mids s))) (λ cs. refl)
      ∙ skip_oi r s (write_candles s (after_mids s)) (λ cs is. refl)
      ∙ skip_candles r s (after_mids s) (λ cs is. refl)
      ∙ see-write_mids (mids_subscription_coins s) s.mids_exch c
      ∙ coins_cover_lem s c pm,
  λ c.
      see_from_trades s (trades_of c) (λ ts. refl) (λ i. refl) (λ i c. refl) (λ p n. refl)
      ∙ see-write_trades s (write_oi s (write_candles s (after_mids s))) c pt (trades_before s c),
  λ t. see-write_events s (after_attached s) t pe (events_before s t),
  λ p.
      see_from_paths s (path_on p) (λ ts. refl) (λ i. refl) (λ i c. refl)
      ∙ see-write_paths (keys s.path_refs) s.next_req_id (after_trades s) p
      ∙ ground (arith, paths_before s p, contains-keys-IsPositive p s.path_refs pp),
  λ i.
      see_from_attached s (attached_on i) (λ ts. refl)
      ∙ see-write_attached s.attached_watches (write_charts s.chart_watches (after_paths s)) i
      ∙ ground (arith, attached_before s i),
  λ c iv h.
      let r = candles_of c iv in
      see_from_trades s r (λ ts. refl) (λ i. refl) (λ i c. refl) (λ p n. refl)
      ∙ skip_trades r s (write_oi s (write_candles s (after_mids s))) (λ cs. refl)
      ∙ skip_oi r s (write_candles s (after_mids s)) (λ cs is. refl)
      ∙ see-write_candles s (after_mids s) c iv h,
)
