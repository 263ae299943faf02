-- ===== src/Tests/Requests.antt =====
-- The requests of websocket.go at concrete inputs.
use arca_go_sdk.Prelude.{
  ℕ, lookup, put, del, ◌≡◌, ◌≢◌, refl, String, List, [], ◌∷◌, some, false, All,
}
use arca_go_sdk.Ws.Requests.{
  shut, broken, holding, no_requests, register_pending, resolve_pending, send_taken, take_pending,
  reject_pending, drop_pending, Event, run,
}
use arca_go_sdk.Ws.Requests.Channels.{On}
use arca_go_sdk.Ws.Requests.Runs.{run_sound, run-answered}

abbrev test_events : List Event
test_events =
    Event.registers "watch-1"
    ∷ Event.answers "watch-1" "{}"
    ∷ Event.sends 0
    ∷ Event.registers "watch-1"
    ∷ Event.rejects
    ∷ Event.registers "2"
    ∷ Event.registers "3"
    ∷ Event.drops "3"
    ∷ []

run_sound_example :
    let s = run no_requests test_events in
    ((c : ℕ) → s.channels c ≢ broken)
    × All (On (λ c. (reject_pending s).channels c ≡ shut)) s.pending
    × ((c : ℕ) (data_ : String)
        → s.sending c ≡ some data_
        → ((send_taken c s).channels c ≡ holding data_)
          × ((send_taken c (reject_pending s)).channels c ≡ holding data_))
run_sound_example = run_sound test_events

run-answered_example :
    let s = run no_requests test_events in
    let t = (resolve_pending "2" "{}" s).0 in
    (t.channels 2 ≡ holding "{}")
    × ((d : ℕ) → d ≢ 2 → t.channels d ≡ s.channels d)
    × ((later : String) → resolve_pending "2" later t ≡ (t, false))
unfolding run no_requests register_pending resolve_pending send_taken take_pending drop_pending
    reject_pending lookup del put
run-answered_example = run-answered test_events "2" "{}" 2 refl
