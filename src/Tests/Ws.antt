-- ===== src/Tests/Ws.antt =====
-- websocket.go at concrete inputs.
use arca_go_sdk.Prelude.{
  ℕ, ◌-◌, ◌≡◌, ◌≤◌, ◌<◌, refl, String, List, [], ◌∷◌, none, some, true, false, arith, lookup,
  contains,
}
use arca_go_sdk.Prelude.Int.{pos}
use arca_go_sdk.Ws.Manager.{
  ConnectionStatus, rotate_connection, ensure_connected, begin_attempt, dialed, is_current,
  on_authenticated, warm_dialed, promote_handoff, clear_handoff_timeout,
}
use arca_go_sdk.Ws.System.{
  System, Event, Message, Action, initial, step, run, step_goroutine, step_loop, step_warm,
}
use arca_go_sdk.Ws.System.Ownership.{owns}
use arca_go_sdk.Ws.System.Ownership.Runs.{run_one_owner, run-Inv, initial-Inv}
use arca_go_sdk.Ws.System.Ownership.Race.{promote_after_failure_orphans}
use arca_go_sdk.Ws.Counters.{Counters, count, occurrences, IsPositive}
use arca_go_sdk.Ws.Frames.{Frame, Subscriptions, subscribe_events}
use arca_go_sdk.Ws.Subscriptions.{unsubscribe_event_types}
use arca_go_sdk.Ws.Subscriptions.Server.{see}
use arca_go_sdk.Ws.Subscriptions.Events.{Agrees, unsubscribe_event_types-Agrees}
use arca_go_sdk.Ws.Subscriptions.Runs.{Call}

-- A connection that authenticates, a rotation whose promotion is put off for a reply, and the read
-- error of the new connection.
abbrev race_prefix : List Action
race_prefix =
    Action.ensure_connecteds
    ∷ Action.advances 0 Event.works
    ∷ Action.advances 0 Event.works
    ∷ Action.advances 0 Event.works
    ∷ Action.advances 0 (Event.receives (Message.authenticated none))
    ∷ Action.advances 0 (Event.receives (Message.authenticated none))
    ∷ Action.rotates
    ∷ Action.advances 1 Event.works
    ∷ Action.advances 1 Event.works
    ∷ Action.registers "1"
    ∷ Action.advances 1 (Event.receives Message.pong)
    ∷ Action.advances 1 (Event.receives Message.pong)
    ∷ Action.resolves "1"
    ∷ Action.advances 1 Event.fails
    ∷ []

abbrev before_race : System
before_race = run (initial (pos 3600)) race_prefix

run_one_owner_example :
    ((i j : ℕ) → 0 < owns before_race i → owns before_race i ≡ owns before_race j → i ≡ j)
    × ((i : ℕ) → owns before_race i ≤ before_race.manager.gen)
    × (before_race.manager.should_connect ≡ false
        → (i : ℕ) → 0 < owns before_race i
        → owns before_race i < before_race.manager.gen)
    × (before_race.manager.connecting ≡ before_race.manager.should_connect)
run_one_owner_example = run_one_owner (pos 3600) race_prefix

promote_after_failure_orphans_example :
    let t = run before_race (Action.retries_promotion 1 ∷ Action.advances 1 Event.fails ∷ []) in
    (t.manager.should_connect ≡ true)
    × (t.manager.status ≡ ConnectionStatus.connected)
    × (t.manager.conn ≡ some 1)
    × ((j : ℕ) → owns t j < t.manager.gen)
    × (step t Action.ensure_connecteds ≡ t)
unfolding initial run step step_goroutine step_loop step_warm rotate_connection ensure_connected
    begin_attempt dialed is_current on_authenticated warm_dialed promote_handoff
    clear_handoff_timeout
promote_after_failure_orphans_example =
    promote_after_failure_orphans before_race
      (run-Inv (initial (pos 3600)) race_prefix (initial-Inv (pos 3600))) 1 1 1 refl refl refl
      (omega arith) refl refl

-- Subscriptions of one coin, in use by two owners.
abbrev two_owners : Counters
two_owners = ("BTC", 2) ∷ []

two_owners-IsPositive : IsPositive two_owners
unfolding lookup
two_owners-IsPositive k n e = ground (arith, e)

abbrev test_subs : Subscriptions
test_subs = record {
  path_refs = two_owners;
  mids_all = 1;
  mids_coins = two_owners;
  mids_exch = "hl";
  candle_refs = [];
  oi_refs = [];
  trade_refs = two_owners;
  event_type_subs = two_owners;
  chart_watches = [];
  attached_watches = "w1" ∷ [];
  next_req_id = 4;
  online = true;
  wire = subscribe_events ("BTC" ∷ []) ∷ Frame.watch "BTC" 1 ∷ [];
  deferred = [];
}

test_subs-Agrees : Agrees test_subs
unfolding see contains count lookup
test_subs-Agrees t = ground arith

unsubscribe_event_types-Agrees_example :
    let ts : List String = "BTC" ∷ "BTC" ∷ [] in
    Agrees (unsubscribe_event_types ts test_subs)
    × ((t : String)
        → count t (unsubscribe_event_types ts test_subs).event_type_subs
          ≡ count t two_owners - occurrences t ts)
unsubscribe_event_types-Agrees_example =
    unsubscribe_event_types-Agrees test_subs ("BTC" ∷ "BTC" ∷ []) refl test_subs-Agrees

abbrev test_calls : List Call
test_calls =
    Call.acquires_mids "hl" []
    ∷ Call.turns true
    ∷ Call.acquires_trades ("BTC" ∷ [])
    ∷ Call.watches_path "/a"
    ∷ Call.subscribes ("fill.recorded" ∷ [])
    ∷ Call.acquires_candles ("BTC" ∷ []) ("1m" ∷ [])
    ∷ Call.attaches "w1"
    ∷ Call.turns false
    ∷ Call.releases_trades ("BTC" ∷ [])
    ∷ []
