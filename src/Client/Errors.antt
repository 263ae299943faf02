-- ===== src/Client/Errors.antt =====
-- errors.go: the typed errors, how an API error envelope becomes one, and what `errors.As` sees.
use arca_go_sdk.Prelude.{
  ℕ, ◌≡◌, refl, ◌⊎◌, inl, inr, String, List, [], ◌∷◌, Option, none, some, Bool, true, false, ◌||◌,
  if◌then◌else◌, str_eq,
}
use arca_go_sdk.Client.Challenges.{
  CosignNonceUsedDetails, CosignRequiredChallenge, Details, StepUpChallenge, one_of,
  parse_cosign_challenge, parse_cosign_nonce_used, parse_step_up_challenge,
}

pub record ArcaError : Type 0 where
  pub details : Details
  pub status_code : ℕ
  pub code : String
  pub message : String
  pub error_id : String

unfoldable pub new_arca_error : String → String → String → ArcaError
new_arca_error code message error_id = record {
  details = none;
  status_code = 0;
  code = code;
  message = message;
  error_id = error_id;
}

-- The Go error types that embed `*ArcaError`; `base` is the plain `*ArcaError`.
pub data Kind : Type 0 where
  base validation unauthorized forbidden not_found conflict internal exchange step_up_cancelled :
      Kind
  step_up_required : StepUpChallenge → Kind
  cosign_required : CosignRequiredChallenge → Kind
  cosign_nonce_used : CosignNonceUsedDetails → Kind

-- An error value: a typed SDK error, a `transientError` around another error (status 0 is a network
-- failure), or an error of another package.
pub data Error : Type 0 where
  typed : Kind → ArcaError → Error
  transient : ℕ → Error → Error
  other : String → Error

pub data Result {ℓ} (A : Type ℓ) : Type ℓ where
  ok : A → Result A
  err : Error → Result A

infixl 5 ◌>>=◌
abbrev pub ◌>>=◌ {ℓ κ} : {A : Type ℓ} {B : Type κ} → Result A → (A → Result B) → Result B
ok a >>= f = f a
err e >>= f = err e

abbrev pub not_found_codes : List String
not_found_codes =
    "NOT_FOUND" ∷ "USER_NOT_FOUND" ∷ "REALM_NOT_FOUND" ∷ "OBJECT_NOT_FOUND" ∷ "ORG_NOT_FOUND"
    ∷ "ORDER_NOT_FOUND" ∷ "ACCOUNT_NOT_FOUND" ∷ "MEMBER_NOT_FOUND" ∷ "PROFILE_NOT_FOUND"
    ∷ "INVITATION_NOT_FOUND" ∷ []

abbrev pub conflict_codes : List String
conflict_codes =
    "CONFLICT" ∷ "ALREADY_EXISTS" ∷ "ALREADY_MEMBER" ∷ "ALREADY_DELETED" ∷ "DUPLICATE_REALM"
    ∷ "ALREADY_REVOKED" ∷ "IDEMPOTENCY_VIOLATION" ∷ "NO_LIQUIDITY" ∷ "MARKET_DELISTED"
    ∷ "MARKET_NOT_TRADABLE" ∷ "MARKET_NOT_USDC_COLLATERAL" ∷ "VENUE_RATE_LIMITED" ∷ "ORDER_FAILED"
    ∷ "ACTION_REQUEST_CONFLICT" ∷ "ACTION_ATTEMPT_STALE" ∷ "ACTION_PAYLOAD_MISMATCH"
    ∷ "V9_PROPOSAL_CLOSED" ∷ "ACTION_PROPOSAL_REQUIRED" ∷ []

abbrev kind_or_base {ℓ} : {A : Type ℓ} → (A → Kind) → Option A → Kind
kind_or_base f none = base
kind_or_base f (some a) = f a

-- The `switch code` of `mapAPIError`: which error type is built.
unfoldable pub kind_of_code : String → Details → Kind
kind_of_code code details =
    if str_eq code "VALIDATION_ERROR"
    then validation
    else if str_eq code "UNAUTHORIZED"
    then unauthorized
    else if one_of ("FORBIDDEN" ∷ "REALM_SCOPE_MISMATCH" ∷ []) code
    then forbidden
    else if one_of not_found_codes code
    then not_found
    else if one_of conflict_codes code
    then conflict
    else if str_eq code "INTERNAL_ERROR"
    then internal
    else if one_of ("EXCHANGE_ERROR" ∷ "EXCHANGE_UNAVAILABLE" ∷ "INVALID_REQUEST" ∷ []) code
    then exchange
    else if str_eq code "STEP_UP_REQUIRED"
    then kind_or_base step_up_required (parse_step_up_challenge details)
    else if str_eq code "COSIGN_REQUIRED"
    then kind_or_base cosign_required (parse_cosign_challenge details)
    else if str_eq code "COSIGN_NONCE_USED"
    then kind_or_base cosign_nonce_used (parse_cosign_nonce_used details)
    else base

unfoldable pub map_api_error : String → String → String → Details → Error
unfolding kind_of_code new_arca_error
map_api_error code message error_id details =
    typed (kind_of_code code details)
      (record (new_arca_error code message error_id) { details = details })

-- `errors.As(err, &e)` for each target type; it follows `Unwrap`.
unfoldable pub as_arca_error : Error → Option ArcaError
as_arca_error (typed k e) = some e
as_arca_error (transient s e) = as_arca_error e
as_arca_error (other m) = none

unfoldable pub kind_of : Error → Option Kind
kind_of (typed k e) = some k
kind_of (transient s e) = kind_of e
kind_of (other m) = none

abbrev is_unauthorized_kind : Option Kind → Bool
is_unauthorized_kind (some unauthorized) = true
is_unauthorized_kind _ = false

abbrev is_forbidden_kind : Option Kind → Bool
is_forbidden_kind (some forbidden) = true
is_forbidden_kind _ = false

unfoldable pub is_unauthorized : Error → Bool
unfolding kind_of
is_unauthorized e = is_unauthorized_kind (kind_of e)

unfoldable pub is_forbidden : Error → Bool
unfolding kind_of
is_forbidden e = is_forbidden_kind (kind_of e)

unfoldable pub is_auth_rejection : Error → Bool
unfolding is_unauthorized is_forbidden
is_auth_rejection e = is_unauthorized e || is_forbidden e

abbrev step_up_of_kind : Option Kind → Option StepUpChallenge
step_up_of_kind (some (step_up_required c)) = some c
step_up_of_kind _ = none

unfoldable pub as_step_up : Error → Option StepUpChallenge
unfolding kind_of
as_step_up e = step_up_of_kind (kind_of e)

abbrev is_cancelled_kind : Option Kind → Bool
is_cancelled_kind (some step_up_cancelled) = true
is_cancelled_kind _ = false

unfoldable pub as_step_up_cancelled : Error → Bool
unfolding kind_of
as_step_up_cancelled e = is_cancelled_kind (kind_of e)

unfoldable pub is_transient : Error → Bool
is_transient (transient s e) = true
is_transient _ = false

-- To split on a result and keep the equation.
pub Result-cases {ℓ} :
    {A : Type ℓ} (r : Result A) → ((a : A) × (r ≡ ok a)) ⊎ ((e : Error) × (r ≡ err e))
Result-cases (ok a) = inl (a, refl)
Result-cases (err e) = inr (e, refl)
