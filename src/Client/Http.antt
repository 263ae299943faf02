-- ===== src/Client/Http.antt =====
-- client.go: one request, the retries of a read, the credential refresh and the step-up retry.
-- The transport, the token provider, the step-up handler and the JSON decoder are parameters. They
-- may answer by all that was sent before, so a theorem holds of every behaviour of the server.
-- One call runs alone: what another goroutine does to the credential in between is left out.
pub mod Sends
pub mod Credentials
use arca_go_sdk.Prelude.{
  ℕ, zero, suc, ◌*◌, ◌^◌, String, List, [], ◌∷◌, Option, none, some, Bool, true, false, ◌||◌, not,
  if◌then◌else◌, str_eq, ◌==◌, ltb,
}
use arca_go_sdk.Client.Challenges.{StepUpChallenge}
use arca_go_sdk.Client.Errors.{
  Error, typed, transient, Result, ok, err, ◌>>=◌, unauthorized, base, step_up_cancelled,
  new_arca_error, is_unauthorized, is_forbidden, is_auth_rejection, as_step_up,
  as_step_up_cancelled, is_transient,
}
use arca_go_sdk.Client.Envelope.{Outcome, no_response, responded, Codec, unwrap}
use arca_go_sdk.Client.Types.{
  AuthRefreshTrigger, Call, HttpClient, Method, Net, Request, by_forbidden, by_unauthorized, get,
  head,
}

abbrev pub max_retries : ℕ
max_retries = 2

abbrev pub is_read : Method → Bool
is_read get = true
is_read head = true
is_read _ = false

abbrev is_gateway_status : ℕ → Bool
is_gateway_status s = (s == 502) || (s == 503) || (s == 504)

-- `req.Header.Set` for each value of the hook that is not empty.
hook_headers : List (String × String) → List (String × String)
hook_headers [] = []
hook_headers ((k, v) ∷ hs) = if str_eq v "" then hook_headers hs else (k, v) ∷ hook_headers hs

abbrev all_headers : Option (List (String × String)) → List (String × String)
all_headers none = ("Content-Type", "application/json") ∷ []
all_headers (some hs) = ("Content-Type", "application/json") ∷ hook_headers hs

abbrev marshalled : Option (Result String) → Result (Option String)
marshalled none = ok none
marshalled (some (ok text)) = ok (some text)
marshalled (some (err e)) = err e

unfoldable pub update_credential : HttpClient → String → HttpClient
update_credential c cred = record c { credential = cred }

abbrev trigger_of : Error → AuthRefreshTrigger
trigger_of e = if is_forbidden e then by_forbidden else by_unauthorized

module _ {A : Type 0} (net : Net A) where
  -- `buildURL` and the encoding of the body come first: they can fail before anything is sent.
  unfoldable pub build_request : HttpClient → Call → Result Request
  unfolding hook_headers
  build_request c call = do
    url ← net.parse_url c.base_url call.path call.params
    body ← marshalled call.body
    ok (record {
      method = call.method;
      url = url;
      headers = all_headers net.header_hook;
      credential = c.credential;
      body = body;
    })

  -- A gateway status is transient also where the envelope says success.
  gateway_error : ℕ → Result A → Error
  gateway_error status (ok a) =
      transient status
        (typed base (new_arca_error "HTTP_ERROR" (net.codec.sprintf "HTTP %d" status "") ""))
  gateway_error status (err e) = transient status e

  unfoldable pub read_outcome : Outcome → Result A
  unfolding gateway_error
  read_outcome (no_response e) = err (transient 0 e)
  read_outcome (responded resp) =
      if is_gateway_status resp.status
      then err (gateway_error resp.status (unwrap net.codec resp))
      else unwrap net.codec resp

  unfoldable pub send : HttpClient → Request → HttpClient × Result A
  send c req = (record c { sent = req ∷ c.sent }, read_outcome (net.server c.sent req))

  unfoldable pub request_once : HttpClient → Call → HttpClient × Result A
  unfolding send
  request_once c call = elim (build_request c call) [ err e ↦ (c, err e) | ok req ↦ send c req ]

  -- The loop of `requestWithRetry`, with the attempts that are left after this one. No attempt is
  -- left where `attempt == maxRetries`.
  abbrev retry_or_stop :
      Call → (HttpClient → HttpClient × Result A) → HttpClient × Result A → HttpClient × Result A
  retry_or_stop call again (c, ok a) = (c, ok a)
  retry_or_stop call again (c, err e) =
      if not (is_read call.method) || not (is_transient e)
      then (c, err e)
      else if net.is_done c.sent
      then (c, err net.ctx_err)
      else again c

  unfoldable pub request_attempts : ℕ → HttpClient → Call → HttpClient × Result A
  unfolding request_once
  request_attempts zero c call = request_once c call
  request_attempts (suc left) c call =
      retry_or_stop call (λ c'. request_attempts left c' call) (request_once c call)

  unfoldable pub request_with_retry : HttpClient → Call → HttpClient × Result A
  unfolding request_attempts
  request_with_retry c call = request_attempts max_retries c call

  -- `if c.onAuthError != nil { c.onAuthError(err) }`.
  unfoldable pub emit_auth_error : HttpClient → Error → HttpClient
  emit_auth_error c e =
      if net.has_on_auth_error then record c { auth_errors = e ∷ c.auth_errors } else c

  as_unauthorized : Error → Error
  as_unauthorized e =
      if is_unauthorized e
      then e
      else typed unauthorized (new_arca_error "UNAUTHORIZED" (net.error_text e) "")

  -- After the retry with a fresh credential.
  abbrev report_rejection : HttpClient × Result A → HttpClient × Result A
  report_rejection (c, ok a) = (c, ok a)
  report_rejection (c, err e) = (if is_auth_rejection e then emit_auth_error c e else c, err e)

  abbrev with_refreshed : Call → HttpClient → Result String → HttpClient × Result A
  with_refreshed call c (err e) = (emit_auth_error c (as_unauthorized e), err e)
  with_refreshed call c (ok cred) =
      report_rejection (request_with_retry (update_credential c cred) call)

  unfoldable pub run_refresh :
      (List Request → AuthRefreshTrigger → Result String)
      → HttpClient
      → Call
      → Error
      → HttpClient × Result A
  unfolding as_unauthorized emit_auth_error
  run_refresh provider c call e =
      with_refreshed call (record c { refreshes = trigger_of e ∷ c.refreshes })
        (provider c.sent (trigger_of e))

  abbrev cancelled_error : Error → Error
  cancelled_error e =
      if as_step_up_cancelled e
      then e
      else typed step_up_cancelled (new_arca_error "STEP_UP_CANCELLED" (net.error_text e) "")

  -- The deferred calls restore the credential, then clear the flag.
  abbrev restored : String → HttpClient × Result A → HttpClient × Result A
  restored original (c, r) = (record c { credential = original; step_up_in_flight = false }, r)

  abbrev with_step_up_token : Call → HttpClient → Result String → HttpClient × Result A
  with_step_up_token call c (err e) =
      (record c { step_up_in_flight = false }, err (cancelled_error e))
  with_step_up_token call c (ok token) =
      restored c.credential (request_with_retry (update_credential c token) call)

  unfoldable pub run_step_up_retry :
      (List Request → StepUpChallenge → Result String)
      → HttpClient
      → Call
      → StepUpChallenge
      → HttpClient × Result A
  run_step_up_retry handler c call challenge =
      with_step_up_token call
        (record c { step_up_in_flight = true; challenges = challenge ∷ c.challenges })
        (handler c.sent challenge)

  -- The part of `executeWithAuthRetry` after the auth rejection was handled or ruled out.
  unfoldable pub step_up_or_fail : HttpClient → Call → Error → HttpClient × Result A
  step_up_or_fail c call e = elim (as_step_up e) [
    | none ↦ (c, err e)
    | some challenge ↦ elim net.step_up_handler [
      | none ↦ (c, err e)
      | some handler ↦
          if c.step_up_in_flight then (c, err e) else run_step_up_retry handler c call challenge
    ]
  ]

  unfoldable pub handle_failure : HttpClient → Call → Error → HttpClient × Result A
  handle_failure c call e = elim net.on_unauthorized [
    | some provider ↦
        if is_auth_rejection e then run_refresh provider c call e else step_up_or_fail c call e
    | none ↦ if is_unauthorized e then (emit_auth_error c e, err e) else step_up_or_fail c call e
  ]

  abbrev after_first : Call → HttpClient × Result A → HttpClient × Result A
  after_first call (c, ok a) = (c, ok a)
  after_first call (c, err e) = handle_failure c call e

  unfoldable pub execute_with_auth_retry : HttpClient → Call → HttpClient × Result A
  execute_with_auth_retry c call = after_first call (request_with_retry c call)

-- client.go, `retryDelay`: `draw` is rand.Int64N, times are in milliseconds.
abbrev pub retry_base_delay : ℕ
retry_base_delay = 250

abbrev pub retry_max_delay : ℕ
retry_max_delay = 2000

unfoldable pub retry_ceiling : ℕ → ℕ
retry_ceiling attempt =
    if ltb retry_max_delay (retry_base_delay * 2 ^ attempt)
    then retry_max_delay
    else retry_base_delay * 2 ^ attempt

unfoldable pub retry_delay : (ℕ → ℕ) → ℕ → ℕ
unfolding retry_ceiling
retry_delay draw attempt = draw (retry_ceiling attempt)
