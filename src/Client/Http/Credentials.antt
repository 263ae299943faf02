-- ===== src/Client/Http/Credentials.antt =====
-- client.go: what a whole call does to the credential, the flag and the handlers.
use arca_go_sdk.Prelude.{
  ℕ, ◌+◌, ◌*◌, ◌≤◌, ◌≡◌, refl, ap, inl, inr, String, List, ◌∷◌, ◌++◌, none, true, false, arith,
  length, length-append, All, Bool-cases, Option-cases,
}
use arca_go_sdk.Client.Challenges.{StepUpChallenge}
use arca_go_sdk.Client.Errors.{
  Error, Result, ok, err, is_auth_rejection, is_unauthorized, as_step_up, Result-cases,
}
use arca_go_sdk.Client.Types.{Request, Call, Net, HttpClient, AuthRefreshTrigger}
use arca_go_sdk.Client.Http.{
  is_read, request_with_retry, max_retries, update_credential, emit_auth_error, run_refresh,
  run_step_up_retry, step_up_or_fail, handle_failure, build_request, read_outcome, request_attempts,
  request_once, send, execute_with_auth_retry, trigger_of,
}
use arca_go_sdk.Client.Http.Sends.{budget, request_with_retry-Sends}

-- `c'` is `c` after at most `n` requests, `k` handler calls; the credential stays, unless it was
-- refreshed.
pub record Follows (n k : ℕ) (c c' : HttpClient) : Type 0 where
  pub requests : length c'.sent ≤ length c.sent + n
  pub handlers :
      length c'.refreshes + length c'.challenges ≤ length c.refreshes + length c.challenges + k
  pub reports : length c'.auth_errors ≤ length c.auth_errors + 1
  pub flag : c'.step_up_in_flight ≡ c.step_up_in_flight
  pub kept : length c'.refreshes ≡ length c.refreshes → c'.credential ≡ c.credential
  pub grows : length c.refreshes ≤ length c'.refreshes

module _ {A : Type 0} (net : Net A) where
  -- What `Sends` says of a call without auth handling, field by field.
  frame :
      (c : HttpClient) (call : Call)
      → let c' = (request_with_retry net c call).0 in
        (length c'.sent ≤ length c.sent + budget call.method max_retries)
        × (c'.credential ≡ c.credential)
        × (c'.step_up_in_flight ≡ c.step_up_in_flight)
        × (c'.refreshes ≡ c.refreshes)
        × (c'.challenges ≡ c.challenges)
        × (c'.auth_errors ≡ c.auth_errors)
  frame c call =
      let s = request_with_retry-Sends net c call in
      ground (arith, s.after, s.few, length-append s.fresh c.sent)

  run_refresh-Follows :
      (provider : List Request → AuthRefreshTrigger → Result String)
      → (c : HttpClient) (call : Call) (e : Error)
      → Follows (budget call.method max_retries) 1 c (run_refresh net provider c call e).0
  unfolding run_refresh emit_auth_error update_credential
  run_refresh-Follows provider c call e = elim (Result-cases (provider c.sent (trigger_of e))) [
    | inl (cred, p) ↦
        rw (p, run_refresh)
          (ground (
            arith,
            frame (record c { credential = cred; refreshes = trigger_of e ∷ c.refreshes }) call,
          ))
    | inr (x, p) ↦ rw (p, run_refresh) (ground arith)
  ]

  run_step_up_retry-Follows :
      (handler : List Request → StepUpChallenge → Result String)
      → (c : HttpClient) (call : Call) (s : StepUpChallenge) → c.step_up_in_flight ≡ false
      → Follows (budget call.method max_retries) 1 c (run_step_up_retry net handler c call s).0
  unfolding run_step_up_retry update_credential
  run_step_up_retry-Follows handler c call s idle = elim (Result-cases (handler c.sent s)) [
    | inl (token, p) ↦
        rw (p, run_step_up_retry)
          (ground (
            arith,
            frame
                (record c {
                  credential = token;
                  step_up_in_flight = true;
                  challenges = s ∷ c.challenges;
                })
                call,
          ))
    | inr (x, p) ↦ rw (p, run_step_up_retry) (ground arith)
  ]

  step_up_or_fail-Follows :
      (c : HttpClient) (call : Call) (e : Error)
      → Follows (budget call.method max_retries) 1 c (step_up_or_fail net c call e).0
  unfolding step_up_or_fail
  step_up_or_fail-Follows c call e = elim (Option-cases (as_step_up e)) [
    | inl p ↦ rw (p, step_up_or_fail) (ground arith)
    | inr (s, p) ↦
        rw (p, step_up_or_fail)
          (elim (Option-cases net.step_up_handler) [
            | inl q ↦ rw (q, step_up_or_fail) (ground arith)
            | inr (handler, q) ↦
                rw (q, step_up_or_fail)
                  (elim (Bool-cases c.step_up_in_flight) [
                    | inl busy ↦ simp busy (ground arith)
                    | inr idle ↦ simp idle (run_step_up_retry-Follows handler c call s idle)
                  ])
          ])
  ]

  handle_failure-Follows :
      (c : HttpClient) (call : Call) (e : Error)
      → Follows (budget call.method max_retries) 1 c (handle_failure net c call e).0
  unfolding handle_failure
  handle_failure-Follows c call e = elim (Option-cases net.on_unauthorized) [
    | inl p ↦
        rw (p, handle_failure)
          (elim (Bool-cases (is_unauthorized e)) [
            | inl u ↦ rw u (unfold emit_auth_error in (ground arith))
            | inr u ↦ rw u (step_up_or_fail-Follows c call e)
          ])
    | inr (provider, p) ↦
        rw (p, handle_failure)
          (elim (Bool-cases (is_auth_rejection e)) [
            | inl u ↦ rw u (run_refresh-Follows provider c call e)
            | inr u ↦ rw u (step_up_or_fail-Follows c call e)
          ])
  ]

  -- One whole call: a mutation reaches the network at most twice and a read at most six times; the
  -- token provider and the step-up handler are asked once between them; at most one auth error is
  -- reported; the step-up flag ends as it was; and unless the provider was asked, the credential
  -- does.
  pub execute_with_auth_retry-Follows :
      (c : HttpClient) (call : Call)
      → Follows (2 * budget call.method max_retries) 1 c (execute_with_auth_retry net c call).0
  unfolding execute_with_auth_retry
  execute_with_auth_retry-Follows c call = elim (Result-cases (request_with_retry net c call).1) [
    | inl (a, p) ↦ rw (p, execute_with_auth_retry) (ground (arith, frame c call))
    | inr (e, p) ↦
        rw (p, execute_with_auth_retry)
          (ground
            (arith, frame c call, handle_failure-Follows (request_with_retry net c call).0 call e))
  ]

  -- A mutation whose answer is no auth rejection and no step-up challenge is never sent again, and
  -- nobody is asked for a token: the caller gets that answer.
  pub execute_with_auth_retry_ambiguous :
      (c : HttpClient) (call : Call) (req : Request) (e : Error)
      → is_read call.method ≡ false
      → build_request net c call ≡ ok req
      → read_outcome net (net.server c.sent req) ≡ err e
      → is_auth_rejection e ≡ false
      → as_step_up e ≡ none
      → execute_with_auth_retry net c call ≡ (record c { sent = req ∷ c.sent }, err e)
  unfolding execute_with_auth_retry request_with_retry request_attempts request_once send
      handle_failure step_up_or_fail is_auth_rejection
  execute_with_auth_retry_ambiguous c call req e m b o r s = ground arith

  -- The step-up token is the credential of every request that is sent after the handler gave it,
  -- and the client has its own credential again at the end.
  pub run_step_up_retry-credentials :
      (handler : List Request → StepUpChallenge → Result String)
      → (c : HttpClient) (call : Call) (s : StepUpChallenge) (token : String)
      → handler c.sent s ≡ ok token
      → let c' = (run_step_up_retry net handler c call s).0 in
        (fresh : List Request) × (c'.sent ≡ fresh ++ c.sent)
        × All (λ r. (r.credential ≡ token) × (r.method ≡ call.method)) fresh
        × (c'.credential ≡ c.credential)
        × (c'.step_up_in_flight ≡ false)
  unfolding run_step_up_retry update_credential
  run_step_up_retry-credentials handler c call s token h =
      let asked = record c {
        credential = token;
        step_up_in_flight = true;
        challenges = s ∷ c.challenges;
      } in
      let q = request_with_retry-Sends net asked call in
      rw (h, run_step_up_retry)
        (q.fresh, ap (λ (x : HttpClient). x.sent) q.after, q.each, refl, refl)
