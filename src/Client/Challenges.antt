-- ===== src/Client/Challenges.antt =====
-- errors.go: the details of an API error, and the challenges that are read from them.
use arca_go_sdk.Prelude.{
  String, List, [], ◌∷◌, Option, none, some, Bool, false, ◌||◌, if◌then◌else◌, str_eq,
}
use arca_go_sdk.Client.Json.{Json, Fields, str, arr, get_field, as_string, strings_of}

-- `details map[string]any`; `none` is the nil map.
abbrev pub Details : Type 0
Details = Option Fields

pub record StepUpChallenge : Type 0 where
  pub action : String
  pub resources : List String

pub record CosignRequiredChallenge : Type 0 where
  pub surface : String
  pub boundary_id : String
  pub arca_path : String
  pub source_arca_path : String
  pub target_arca_path : String
  pub propose : String
  pub submit : String

pub record CosignNonceUsedDetails : Type 0 where
  pub boundary_id : String
  pub nonce : String
  pub reason : String
  pub resolution : String
  pub disposition : String
  pub tx_hash : String
  pub operation_id : String

unfoldable pub one_of : List String → String → Bool
one_of [] s = false
one_of (c ∷ cs) s = str_eq s c || one_of cs s

abbrev cosign_nonce_dispositions : List String
cosign_nonce_dispositions = "" ∷ "executed" ∷ "revoked" ∷ "unknown" ∷ []

unfoldable pub normalize_cosign_disposition : String → String
unfolding one_of
normalize_cosign_disposition d = if one_of cosign_nonce_dispositions d then d else "unknown"

cosign_challenge_of : Fields → String → Option CosignRequiredChallenge
unfolding get_field as_string
cosign_challenge_of d boundary_id =
    if str_eq boundary_id ""
    then none
    else some (record {
      surface = as_string (get_field d "surface");
      boundary_id = boundary_id;
      arca_path = as_string (get_field d "arcaPath");
      source_arca_path = as_string (get_field d "sourceArcaPath");
      target_arca_path = as_string (get_field d "targetArcaPath");
      propose = as_string (get_field d "propose");
      submit = as_string (get_field d "submit");
    })

unfoldable pub parse_cosign_challenge : Details → Option CosignRequiredChallenge
unfolding cosign_challenge_of
parse_cosign_challenge none = none
parse_cosign_challenge (some d) = cosign_challenge_of d (as_string (get_field d "boundaryId"))

cosign_nonce_of : Fields → String → Option CosignNonceUsedDetails
unfolding get_field as_string normalize_cosign_disposition
cosign_nonce_of d boundary_id =
    if str_eq boundary_id ""
    then none
    else some (record {
      boundary_id = boundary_id;
      nonce = as_string (get_field d "nonce");
      reason = as_string (get_field d "reason");
      resolution = as_string (get_field d "resolution");
      disposition = normalize_cosign_disposition (as_string (get_field d "disposition"));
      tx_hash = as_string (get_field d "txHash");
      operation_id = as_string (get_field d "operationId");
    })

unfoldable pub parse_cosign_nonce_used : Details → Option CosignNonceUsedDetails
unfolding cosign_nonce_of
parse_cosign_nonce_used none = none
parse_cosign_nonce_used (some d) = cosign_nonce_of d (as_string (get_field d "boundaryId"))

unfoldable pub step_up_of : Option Json → Option Json → Option StepUpChallenge
unfolding strings_of
step_up_of (some (str action)) (some (arr raw)) =
    some (record { action = action; resources = strings_of raw })
step_up_of _ _ = none

unfoldable pub parse_step_up_challenge : Details → Option StepUpChallenge
unfolding step_up_of get_field
parse_step_up_challenge none = none
parse_step_up_challenge (some d) = step_up_of (get_field d "action") (get_field d "resources")
