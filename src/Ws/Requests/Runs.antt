-- ===== src/Ws/Requests/Runs.antt =====
-- websocket.go: the channels of the requests after any sequence of events.
use arca_go_sdk.Prelude.{
  ℕ, ◌≡◌, ◌≢◌, String, List, [], ◌∷◌, some, false, lookup, lookup-del, arith, All, eq_refl,
}
use arca_go_sdk.Ws.Requests.{
  shut, broken, holding, Requests, no_requests, resolve_pending, take_pending, send_taken,
  reject_pending, Event, registers, drops, answers, sends, rejects, step, run,
}
use arca_go_sdk.Ws.Requests.Channels.{
  On, Inv, All-lookup, register-Inv, drop-Inv, take-Inv, send-Inv, reject-Inv, close_all-wakes,
  idle_only, taken_elsewhere, Waits,
}

step-Inv : (s : Requests) (e : Event) → Inv s → Inv (step s e)
step-Inv s (registers id) v = register-Inv s v id
step-Inv s (drops id) v = drop-Inv s v id
step-Inv s (answers id data_) v = take-Inv s v id data_
step-Inv s (sends c) v = send-Inv s v c
step-Inv s rejects v = reject-Inv s v

no_requests-Inv : Inv no_requests
unfolding no_requests
no_requests-Inv = record {
  waiting = tt;
  apart = tt;
  taken = λ c d e. absurd (ground (arith, e));
  sound = λ c. ground arith;
}

run-Inv : (s : Requests) (es : List Event) → Inv s → Inv (run s es)
unfolding run
run-Inv s [] v = v
run-Inv s (e ∷ es) v = run-Inv (step s e) es (step-Inv s e v)

-- In every order of registrations, withdrawals, answers, the sends that hand them on outside the lock,
-- and rejections, also with request ids that come again: no sender ever waits or panics and no channel
-- is closed twice; rejectPendingLocked, which the end of a live connection attempt calls, then closes
-- the channel of every request that still waits; and an answer that was taken reaches its channel when
-- its sender runs, also after such a rejection.
pub run_sound :
    (es : List Event)
    → let s = run no_requests es in
      ((c : ℕ) → s.channels c ≢ broken)
      × All (On (λ c. (reject_pending s).channels c ≡ shut)) s.pending
      × ((c : ℕ) (data_ : String)
          → s.sending c ≡ some data_
          → ((send_taken c s).channels c ≡ holding data_)
            × ((send_taken c (reject_pending s)).channels c ≡ holding data_))
unfolding reject_pending send_taken
run_sound es =
    let s = run no_requests es in
    let v = run-Inv no_requests es no_requests-Inv in
    (
      v.sound,
      close_all-wakes s.pending s.channels (idle_only s v) v.apart,
      λ c data_ e.
          let here = (v.taken c data_ e).0 in
          let there = taken_elsewhere s v c data_ e in
          (ground (arith, e, here), ground (arith, e, there)),
    )

-- After every such sequence, an answer to a request that waits is put into the channel of that
-- request alone, and the same id is not answered again.
pub run-answered :
    (es : List Event) (id data_ : String) (c : ℕ)
    → let s = run no_requests es in
      let t = (resolve_pending id data_ s).0 in
      lookup id s.pending ≡ some c
      → (t.channels c ≡ holding data_)
        × ((d : ℕ) → d ≢ c → t.channels d ≡ s.channels d)
        × ((later : String) → resolve_pending id later t ≡ (t, false))
unfolding resolve_pending take_pending send_taken
run-answered es id data_ c e =
    let s = run no_requests es in
    let v = run-Inv no_requests es no_requests-Inv in
    let open_ = All-lookup (Waits s) id s.pending c v.waiting e in
    (
      ground (arith, e, open_),
      λ d n. ground (arith, e, n),
      λ later. ground (arith, e, lookup-del id id s.pending, eq_refl id),
    )
