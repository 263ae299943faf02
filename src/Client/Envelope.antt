-- ===== src/Client/Envelope.antt =====
-- client.go: the response envelope, in both generations, and `unwrap`.
pub mod Unwrap
use arca_go_sdk.Prelude.{
  ℕ, String, List, [], ◌∷◌, Option, none, some, Bool, true, false, ◌&&◌, ◌||◌, not, if◌then◌else◌,
  str_eq, ◌==◌,
}
use arca_go_sdk.Client.Json.{Json, Fields, null, str, obj}
use arca_go_sdk.Client.Challenges.{Details}
use arca_go_sdk.Client.Errors.{
  ArcaError, Error, typed, transient, other, Result, ok, err, ◌>>=◌, unauthorized, base,
  new_arca_error, map_api_error,
}

pub record ApiResponseError : Type 0 where
  pub code : String
  pub message : String
  pub error_id : String
  pub details : Details

-- The struct `wire` of `UnmarshalJSON`; a raw message is `none` where the field is absent.
pub record Wire : Type 0 where
  pub success : Bool
  pub content : Option Json
  pub error : Option Json
  pub code : String
  pub message : String
  pub error_id : String
  pub details : Details

pub record Envelope : Type 0 where
  pub success : Bool
  pub content : Option Json
  pub error : Option ApiResponseError

-- What `io.ReadAll` and the first `json.Unmarshal` make of a body, with the text that a message
-- about it shows (at most 200 bytes of it).
pub data Body : Type 0 where
  unreadable : Error → Body
  non_json : String → Body
  wired : String → Wire → Body

pub record Response : Type 0 where
  pub status : ℕ
  pub body : Body

-- What the transport gives back for one request.
pub data Outcome : Type 0 where
  no_response : Error → Outcome
  responded : Response → Outcome

-- encoding/json and fmt: decoding of an error object, of the payload into `out` (which may be nil),
-- and the text of a formatted message.
pub record Codec (A : Type 0) : Type 0 where
  pub decode_error : Fields → Option ApiResponseError
  pub decode : Json → Result A
  pub sprintf : String → ℕ → String → String

-- The code and message beside `error`, or none of both.
flat_error : Wire → String → Option ApiResponseError
flat_error w message =
    if not (str_eq w.code "") || not (str_eq message "")
    then some
        (record { code = w.code; message = message; error_id = w.error_id; details = w.details })
    else none

envelope_with : Wire → Option ApiResponseError → Envelope
envelope_with w e = record { success = w.success; content = w.content; error = e }

-- `(*apiResponse).UnmarshalJSON`; `none` is a decoding error.
unmarshal_error : (Fields → Option ApiResponseError) → Wire → Option Json → Option Envelope
unfolding flat_error envelope_with
unmarshal_error decode w none = some (envelope_with w (flat_error w w.message))
unmarshal_error decode w (some null) = some (envelope_with w (flat_error w w.message))
unmarshal_error decode w (some (obj fs)) = elim (decode fs) [
  | none ↦ none
  | some e ↦ some (envelope_with w (some e))
]
unmarshal_error decode w (some (str m)) =
    some (envelope_with w (flat_error w (if str_eq w.message "" then m else w.message)))
unmarshal_error decode w (some _) = none

unfoldable pub unmarshal_envelope : (Fields → Option ApiResponseError) → Wire → Option Envelope
unfolding unmarshal_error
unmarshal_envelope decode w = unmarshal_error decode w w.error

-- The deferred function of `unwrap`: it stamps the status on the SDK error in the chain.
unfoldable pub stamp : ℕ → Error → Error
stamp status (typed k e) = typed k (record e { status_code = status })
stamp status (transient s e) = transient s (stamp status e)
stamp status (other m) = other m

abbrev stamp_result : {A : Type 0} → ℕ → Result A → Result A
stamp_result status (ok a) = ok a
stamp_result status (err e) = err (stamp status e)

-- `len(env.Data) == 0 || string(env.Data) == "null"`.
abbrev has_content : Option Json → Bool
has_content none = false
has_content (some null) = false
has_content (some _) = true

abbrev unauthorized_text : Option ApiResponseError → String
unauthorized_text none = "Invalid or expired authentication"
unauthorized_text (some e) =
    if str_eq e.message "" then "Invalid or expired authentication" else e.message

abbrev error_id_of : Option ApiResponseError → String
error_id_of none = ""
error_id_of (some e) = e.error_id

module _ {A : Type 0} (codec : Codec A) where
  -- The error of an envelope that is no success.
  refusal_of : ℕ → Option ApiResponseError → Error
  refusal_of status none =
      typed base
        (new_arca_error "UNKNOWN" (codec.sprintf "Request failed with status %d" status "") "")
  refusal_of status (some e) = map_api_error e.code e.message e.error_id e.details

  payload_of : Option Json → Result A
  payload_of none = codec.decode null
  payload_of (some v) = codec.decode v

  unwrap_envelope : ℕ → Envelope → Result A
  unfolding refusal_of payload_of
  unwrap_envelope status env =
      if not env.success || not (has_content env.content)
      then if status == 401
        then err (
            typed unauthorized
              (new_arca_error "UNAUTHORIZED" (unauthorized_text env.error) (error_id_of env.error)))
        else err (refusal_of status env.error)
      else payload_of env.content

  non_json_error : ℕ → String → Error
  non_json_error status text = typed base (
      new_arca_error "NON_JSON_RESPONSE"
        (codec.sprintf "Server returned non-JSON response (HTTP %d): %s" status text) "")

  unwrap_body : ℕ → Body → Result A
  unfolding unwrap_envelope non_json_error unmarshal_envelope
  unwrap_body status (unreadable e) = err e
  unwrap_body status (non_json text) = err (non_json_error status text)
  unwrap_body status (wired text w) = elim (unmarshal_envelope codec.decode_error w) [
    | none ↦ err (non_json_error status text)
    | some env ↦ unwrap_envelope status env
  ]

  unfoldable pub unwrap : Response → Result A
  unfolding unwrap_body stamp
  unwrap resp = stamp_result resp.status (unwrap_body resp.status resp.body)
