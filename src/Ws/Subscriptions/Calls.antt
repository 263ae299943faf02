-- ===== src/Ws/Subscriptions/Calls.antt =====
-- websocket.go: any sequence of the calls, and then a connection that authenticates.
use arca_go_sdk.Ws.Counters.{Counters, IsPositive}
use arca_go_sdk.Ws.Frames.{Subscriptions}

-- The counted maps.
abbrev Maps : Type 0
Maps = Counters × Counters × Counters × Counters

maps : Subscriptions → Maps
maps s = (s.path_refs, s.mids_coins, s.trade_refs, s.event_type_subs)

abbrev Positive : Maps → Type 0
Positive (a, b, c, d) = IsPositive a × IsPositive b × IsPositive c × IsPositive d

Sound : Subscriptions → Type 0
unfolding maps
Sound s = Positive (maps s)
