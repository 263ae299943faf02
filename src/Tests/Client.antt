-- ===== src/Tests/Client.antt =====
-- errors.go and client.go at concrete inputs.
use arca_go_sdk.Prelude.{
  ℕ, String, ◌*◌, ◌≡◌, ◌↔◌, ◌⊎◌, refl, [], ◌∷◌, none, some, true, false, length,
}
use arca_go_sdk.Client.Json.{Fields, str, arr, nil, cons, field, end}
use arca_go_sdk.Client.Challenges.{StepUpChallenge}
use arca_go_sdk.Client.Errors.{
  ok, err, transient, other, map_api_error, as_arca_error, as_step_up, is_auth_rejection,
  is_transient, is_unauthorized, is_forbidden,
}
use arca_go_sdk.Client.Mapping.{Asks, map_api_error_lem}
use arca_go_sdk.Client.Envelope.{Codec, Wire, Response, no_response, wired}
use arca_go_sdk.Client.Types.{Request, Call, Net, HttpClient, get, post}
use arca_go_sdk.Client.Http.{
  build_request, read_outcome, request_with_retry, execute_with_auth_retry, max_retries,
}
use arca_go_sdk.Client.Http.Sends.{
  Sends, budget, request_with_retry-Sends, request_with_retry_exhausted,
}
use arca_go_sdk.Client.Http.Credentials.{
  Follows, execute_with_auth_retry-Follows, execute_with_auth_retry_ambiguous,
}

abbrev step_up_details : Fields
step_up_details =
    field "action" (str "arca:DeleteObject") (field "resources" (arr (cons (str "obj_1") nil)) end)

abbrev test_code : String
test_code = "STEP_UP_REQUIRED"

map_api_error_lem_example :
    ((c : StepUpChallenge)
      → (as_step_up (map_api_error test_code "m" "e2" (some step_up_details)) ≡ some c)
        ↔ ((test_code ≡ test_code) × Asks (some step_up_details) c))
    × ((is_unauthorized (map_api_error test_code "m" "e2" (some step_up_details)) ≡ true)
        ↔ (test_code ≡ "UNAUTHORIZED"))
    × ((is_forbidden (map_api_error test_code "m" "e2" (some step_up_details)) ≡ true)
        ↔ ((test_code ≡ "FORBIDDEN") ⊎ (test_code ≡ "REALM_SCOPE_MISMATCH")))
    × (as_arca_error (map_api_error test_code "m" "e2" (some step_up_details))
        ≡ some (record {
          details = some step_up_details;
          status_code = 0;
          code = test_code;
          message = "m";
          error_id = "e2";
        }))
map_api_error_lem_example = map_api_error_lem test_code "m" "e2" (some step_up_details)

-- A client whose server never answers.
abbrev test_codec : Codec ℕ
test_codec = record { decode_error = λ fs. none; decode = λ v. ok 7; sprintf = λ f n s. f }

abbrev dead_net : Net ℕ
dead_net = record {
  codec = test_codec;
  server = λ log req. no_response (other "connection refused");
  parse_url = λ base path params. ok "https://api/x";
  header_hook = none;
  on_unauthorized = none;
  has_on_auth_error = true;
  step_up_handler = none;
  error_text = λ e. "text";
  is_done = λ log. false;
  ctx_err = other "context canceled";
}

abbrev test_client : HttpClient
test_client = record {
  base_url = "https://api";
  credential = "key";
  step_up_in_flight = false;
  sent = [];
  refreshes = [];
  auth_errors = [];
  challenges = [];
}

abbrev read_call : Call
read_call = record { method = get; path = "/x"; params = []; body = none }

abbrev write_call : Call
write_call = record { method = post; path = "/x"; params = []; body = none }

abbrev request_of : Call → Request
request_of call = record {
  method = call.method;
  url = "https://api/x";
  headers = ("Content-Type", "application/json") ∷ [];
  credential = "key";
  body = none;
}

request_with_retry-Sends_example :
    Sends
      (budget post max_retries)
      post
      test_client
      (request_with_retry dead_net test_client write_call).0
request_with_retry-Sends_example = request_with_retry-Sends dead_net test_client write_call

request_with_retry_exhausted_example :
    length (request_with_retry dead_net test_client read_call).0.sent ≡ 3
unfolding request_with_retry build_request read_outcome is_transient
request_with_retry_exhausted_example =
    request_with_retry_exhausted dead_net test_client read_call (request_of read_call)
      (transient 0 (other "connection refused")) refl (λ log. refl) refl refl refl

execute_with_auth_retry-Follows_example :
    Follows
      (2 * budget get max_retries)
      1
      test_client
      (execute_with_auth_retry dead_net test_client read_call).0
execute_with_auth_retry-Follows_example =
    execute_with_auth_retry-Follows dead_net test_client read_call

execute_with_auth_retry_ambiguous_example :
    execute_with_auth_retry dead_net test_client write_call ≡ (
      record test_client { sent = request_of write_call ∷ [] },
      err (transient 0 (other "connection refused")),
    )
unfolding build_request read_outcome is_auth_rejection as_step_up
execute_with_auth_retry_ambiguous_example =
    execute_with_auth_retry_ambiguous dead_net test_client write_call (request_of write_call)
      (transient 0 (other "connection refused")) refl refl refl refl refl

abbrev refused_wire : Wire
refused_wire = record {
  success = false;
  content = none;
  error = some (str "gone");
  code = "NOT_FOUND";
  message = "";
  error_id = "e3";
  details = none;
}

abbrev refused : Response
refused = record { status = 404; body = wired "{}" refused_wire }
