-- ===== src/Client/Types.antt =====
-- client.go: what a request is, what the client uses, and its state.
use arca_go_sdk.Prelude.{String, List, Option, Bool}
use arca_go_sdk.Client.Challenges.{StepUpChallenge}
use arca_go_sdk.Client.Errors.{Error, Result}
use arca_go_sdk.Client.Envelope.{Outcome, Codec}

pub data Method : Type 0 where
  get head post put patch delete : Method

pub data AuthRefreshTrigger : Type 0 where
  by_unauthorized by_forbidden : AuthRefreshTrigger

pub record Request : Type 0 where
  pub method : Method
  pub url : String
  -- The other headers. A hook that sets Authorization too would replace the credential; the one that
  -- the SDK installs sets X-Arca-Org-Id.
  pub headers : List (String × String)
  pub credential : String  -- the bearer of the Authorization header; empty without the header
  pub body : Option String

-- The arguments of a call: the body is `none` for nil, and else the result of json.Marshal.
pub record Call : Type 0 where
  pub method : Method
  pub path : String
  pub params : List (String × String)
  pub body : Option (Result String)

-- What the client uses and does not implement.
pub record Net (A : Type 0) : Type 0 where
  pub codec : Codec A
  pub server : List Request → Request → Outcome
  pub parse_url : String → String → List (String × String) → Result String
  pub header_hook : Option (List (String × String))
  pub on_unauthorized : Option (List Request → AuthRefreshTrigger → Result String)
  pub has_on_auth_error : Bool
  pub step_up_handler : Option (List Request → StepUpChallenge → Result String)
  pub error_text : Error → String
  pub is_done : List Request → Bool  -- the context ends during the wait after these requests
  pub ctx_err : Error

-- `httpClient`, with what it has sent and called so far, the latest first.
pub record HttpClient : Type 0 where
  pub base_url : String
  pub credential : String
  pub step_up_in_flight : Bool
  pub sent : List Request
  pub refreshes : List AuthRefreshTrigger
  pub auth_errors : List Error
  pub challenges : List StepUpChallenge
