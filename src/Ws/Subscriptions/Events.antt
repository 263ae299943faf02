-- ===== src/Ws/Subscriptions/Events.antt =====
-- websocket.go, `subscribeEvents` and `unsubscribeEvents`: the owners of event types, and what the
-- server serves. Only the types whose first owner comes or whose last owner goes are written.
use arca_go_sdk.Prelude.{
  ◌-◌, ◌≡◌, refl, sym, ap, ◌∙◌, String, List, [], ◌∷◌, Bool, true, ◌&&◌, not, arith, ltb, ◌==◌,
  contains, put, del, lookup-put, lookup-del, if◌then◌else◌, str_eq, eq_iff,
}
use arca_go_sdk.Ws.Counters.{Counters, count, occurrences}
use arca_go_sdk.Ws.Frames.{Subscriptions}
use arca_go_sdk.Ws.Subscriptions.Server.{see, serves}
use arca_go_sdk.Ws.Subscriptions.{drop_types, send_dropped, unsubscribe_event_types}

-- One turn of the loop of a release.
dropped_one : String → Counters → Counters
dropped_one t m =
    if ltb 1 (count t m) then put t (count t m - 1) m else if count t m == 1 then del t m else m

count-dropped_one :
    (t j : String) (m : Counters)
    → count j (dropped_one t m) ≡ (if str_eq t j then count t m - 1 else count j m)
unfolding dropped_one count
count-dropped_one t j m =
    ground (arith, lookup-put t j (count t m - 1) m, lookup-del t j m, eq_iff t j)

count-drop_types :
    (ts : List String) (j : String) (m : Counters)
    → count j (drop_types ts m).0 ≡ count j m - occurrences j ts
unfolding drop_types occurrences dropped_one
count-drop_types [] j m = omega arith
count-drop_types (t ∷ ts) j m =
    ground (arith, count-drop_types ts j (dropped_one t m), count-dropped_one t j m, eq_iff t j)

contains-drop_types :
    (ts : List String) (j : String) (m : Counters)
    → contains j (drop_types ts m).1
      ≡ (ltb 0 (count j m) && not (ltb (occurrences j ts) (count j m)))
unfolding drop_types contains occurrences dropped_one
contains-drop_types [] j m = ground arith
contains-drop_types (t ∷ ts) j m =
    ground (arith, contains-drop_types ts j (dropped_one t m), count-dropped_one t j m, eq_iff t j)

-- The server serves what has an owner.
abbrev pub Agrees : Subscriptions → Type 0
Agrees s = (t : String) → serves s.wire t ≡ ltb 0 (count t s.event_type_subs)

drop_serves :
    (ts : List String) (j : String) (m : Counters) (b : Bool)
    → b ≡ ltb 0 (count j m)
    → not (contains j (drop_types ts m).1) && b ≡ ltb 0 (count j (drop_types ts m).0)
drop_serves ts j m b e = ground (arith, e, contains-drop_types ts j m, count-drop_types ts j m)

send_dropped-serves :
    (s : Subscriptions) (r : Counters × List String) (j : String)
    → s.online ≡ true
    → serves (send_dropped r s).wire j ≡ not (contains j r.1) && serves s.wire j
unfolding see contains
send_dropped-serves s (m, []) j up = ground arith
send_dropped-serves s (m, t ∷ ts) j up = ground (arith, up)

send_dropped-count :
    (s : Subscriptions) (r : Counters × List String) (j : String)
    → count j (send_dropped r s).event_type_subs ≡ count j r.0
send_dropped-count s (m, []) j = refl
send_dropped-count s (m, t ∷ ts) j = ground arith

-- While connected, a server that serves exactly the event types with an owner still does after
-- `unsubscribeEvents`, and each type has as many owners less as it was named, down to none.
pub unsubscribe_event_types-Agrees :
    (s : Subscriptions) (types : List String)
    → s.online ≡ true
    → Agrees s
    → Agrees (unsubscribe_event_types types s)
      × ((t : String)
          → count t (unsubscribe_event_types types s).event_type_subs
            ≡ count t s.event_type_subs - occurrences t types)
unfolding unsubscribe_event_types
unsubscribe_event_types-Agrees s types up a =
    let r = drop_types types s.event_type_subs in
    (
      λ t.
          send_dropped-serves s r t up
          ∙ drop_serves types t s.event_type_subs _ (a t)
          ∙ ap (ltb 0) (sym (send_dropped-count s r t)),
      λ t. send_dropped-count s r t ∙ count-drop_types types t s.event_type_subs,
    )
