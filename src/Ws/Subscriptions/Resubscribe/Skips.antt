-- ===== src/Ws/Subscriptions/Resubscribe/Skips.antt =====
-- websocket.go, `resubscribe`: the frames of one section do not answer for another.
use arca_go_sdk.Prelude.{
  ℕ, suc, ◌≡◌, refl, ◌∙◌, String, List, [], ◌∷◌, Option, none, some, Bool, arith, keys,
}
use arca_go_sdk.Ws.Frames.{
  Frame, ChartWatch, Subscriptions, subscribe_mids, subscribe_candles, subscribe_oi,
  subscribe_trades, subscribe_events, watch, watch_chart_history, attach_watch,
}
use arca_go_sdk.Ws.Subscriptions.{all_intervals}
use arca_go_sdk.Ws.Subscriptions.Server.{see}
use arca_go_sdk.Ws.Subscriptions.Resubscribe.{
  write_mids, write_candles, write_oi, write_trades, write_paths, write_charts, write_attached,
  write_events,
}

-- A section that writes no frame that decides a question leaves its answer.
module _ (r : Frame → Option Bool) where
  pub skip_candles :
      (s : Subscriptions) (w : List Frame)
      → ((cs is : List String) → r (subscribe_candles cs is) ≡ none)
      → see r (write_candles s w) ≡ see r w
  unfolding see
  skip_candles s w h = ground (arith, h (keys s.candle_refs) (all_intervals s.candle_refs))

  pub skip_oi :
      (s : Subscriptions) (w : List Frame)
      → ((cs is : List String) → r (subscribe_oi cs is) ≡ none)
      → see r (write_oi s w) ≡ see r w
  unfolding see
  skip_oi s w h = ground (arith, h (keys s.oi_refs) (all_intervals s.oi_refs))

  pub skip_trades :
      (s : Subscriptions) (w : List Frame)
      → ((cs : List String) → r (subscribe_trades cs) ≡ none)
      → see r (write_trades s w) ≡ see r w
  unfolding see
  skip_trades s w h = ground (arith, h (keys s.trade_refs))

  pub skip_events :
      (s : Subscriptions) (w : List Frame)
      → ((ts : List String) → r (subscribe_events ts) ≡ none)
      → see r (write_events s w) ≡ see r w
  unfolding see
  skip_events s w h = ground (arith, h (keys s.event_type_subs))

  pub skip_mids :
      (o : Option (List String)) (e : String) (w : List Frame)
      → ((e : String) (cs : List String) → r (subscribe_mids e cs) ≡ none)
      → see r (write_mids o e w) ≡ see r w
  unfolding see
  skip_mids none e w h = refl
  skip_mids (some cs) e w h = ground (arith, h e cs)

  pub skip_paths :
      (ps : List String) (n : ℕ) (w : List Frame)
      → ((p : String) (n : ℕ) → r (watch p n) ≡ none)
      → see r (write_paths ps n w) ≡ see r w
  unfolding write_paths see
  skip_paths [] n w h = refl
  skip_paths (p ∷ ps) n w h =
      skip_paths ps (suc n) (watch p (suc n) ∷ w) h ∙ ground (arith, h p (suc n))

  pub skip_charts :
      (cs : List (String × ChartWatch)) (w : List Frame)
      → ((i : String) (c : ChartWatch) → r (watch_chart_history i c) ≡ none)
      → see r (write_charts cs w) ≡ see r w
  unfolding write_charts see
  skip_charts [] w h = refl
  skip_charts ((i, c) ∷ cs) w h =
      skip_charts cs (watch_chart_history i c ∷ w) h ∙ ground (arith, h i c)

  pub skip_attached :
      (is : List String) (w : List Frame)
      → ((i : String) → r (attach_watch i) ≡ none)
      → see r (write_attached is w) ≡ see r w
  unfolding write_attached see
  skip_attached [] w h = refl
  skip_attached (i ∷ is) w h = skip_attached is (attach_watch i ∷ w) h ∙ ground (arith, h i)
