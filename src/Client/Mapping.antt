-- ===== src/Client/Mapping.antt =====
-- errors.go and client.go: what the caller can rely on of the error that an answer becomes.
use mathlib.Core.Bool.{false≢true}
use mathlib.Core.Option.{some-injective}
use arca_go_sdk.Prelude.{
  ◌≡◌, ◌↔◌, refl, ap, ◌∙◌, ◌⊎◌, inl, inr, String, [], ◌∷◌, Option, none, some, true, false,
  Bool-cases, arith, str_eq, eq_iff, subst, sym,
}
use arca_go_sdk.Client.Json.{Json, Items, Fields, str, arr, get_field, strings_of}
use arca_go_sdk.Client.Challenges.{
  Details, one_of, step_up_of, parse_step_up_challenge, StepUpChallenge,
}
use arca_go_sdk.Client.Errors.{
  map_api_error, as_arca_error, as_step_up, is_unauthorized, is_forbidden, kind_of_code,
}

-- The details hold an action, which is a text, and a list of resources, and these make the challenge;
-- what in the list is no text is left out.
pub record Asks (details : Details) (c : StepUpChallenge) : Type 0 where
  pub entries : Fields
  pub raw : Items
  pub is_map : details ≡ some entries
  pub action : get_field entries "action" ≡ some (str c.action)
  pub resources : get_field entries "resources" ≡ some (arr raw)
  pub texts : c.resources ≡ strings_of raw

made_of :
    (d : Fields) (c : StepUpChallenge) (o u : Option Json)
    → get_field d "action" ≡ o
    → get_field d "resources" ≡ u
    → step_up_of o u ≡ some c
    → Asks (some d) c
unfolding step_up_of
made_of d c (some (str a)) (some (arr raw)) h k e =
    let same : record { action = a; resources = strings_of raw } ≡ c = some-injective _ c e in
    record {
      entries = d;
      raw = raw;
      is_map = refl;
      action = h ∙ ap (λ (s : StepUpChallenge). some (str s.action)) same;
      resources = k;
      texts = sym (ap (λ (s : StepUpChallenge). s.resources) same);
    }
made_of d c none u h k e = cc
made_of d c (some Json.null) u h k e = cc
made_of d c (some (Json.bool b)) u h k e = cc
made_of d c (some (Json.number n)) u h k e = cc
made_of d c (some (arr i)) u h k e = cc
made_of d c (some (Json.obj f)) u h k e = cc
made_of d c (some (str a)) none h k e = cc
made_of d c (some (str a)) (some Json.null) h k e = cc
made_of d c (some (str a)) (some (Json.bool b)) h k e = cc
made_of d c (some (str a)) (some (Json.number n)) h k e = cc
made_of d c (some (str a)) (some (str s)) h k e = cc
made_of d c (some (str a)) (some (Json.obj f)) h k e = cc

parse-made :
    (details : Details) (c : StepUpChallenge)
    → parse_step_up_challenge details ≡ some c
    → Asks details c
unfolding parse_step_up_challenge
parse-made none c h = cc
parse-made (some d) c h = made_of d c (get_field d "action") (get_field d "resources") refl refl h

made-parse :
    (details : Details) (c : StepUpChallenge)
    → Asks details c
    → parse_step_up_challenge details ≡ some c
unfolding parse_step_up_challenge step_up_of
made-parse details c a =
    rw a.is_map
      (rw a.action (rw a.resources (ap (λ rs. some (record c { resources = rs })) (sym a.texts))))

module _ (code message error_id : String) (details : Details) where
  step_up_code :
      code ≡ "STEP_UP_REQUIRED"
      → as_step_up (map_api_error code message error_id details) ≡ parse_step_up_challenge details
  unfolding map_api_error
  step_up_code e =
      subst
        (λ c.
          as_step_up (map_api_error c message error_id details) ≡ parse_step_up_challenge details)
        (sym e) (at_step_up _ refl)
    where
      at_step_up :
          (o : Option StepUpChallenge)
          → parse_step_up_challenge details ≡ o
          → as_step_up (map_api_error "STEP_UP_REQUIRED" message error_id details) ≡ o
      at_step_up none p = unfold one_of in (unfold as_step_up in (rw (p, map_api_error) refl))
      at_step_up (some c) p = unfold one_of in (unfold as_step_up in (rw (p, map_api_error) refl))

  other_code :
      str_eq code "STEP_UP_REQUIRED" ≡ false
      → as_step_up (map_api_error code message error_id details) ≡ none
  unfolding map_api_error as_step_up
  other_code e = ground arith

  step_up_iff :
      (c : StepUpChallenge)
      → (as_step_up (map_api_error code message error_id details) ≡ some c)
        ↔ ((code ≡ "STEP_UP_REQUIRED") × Asks details c)
  step_up_iff c = (
    λ h. elim (Bool-cases (str_eq code "STEP_UP_REQUIRED")) [
      | inl y ↦
          let e : code ≡ "STEP_UP_REQUIRED" = (eq_iff code "STEP_UP_REQUIRED").0 y in
          (e, parse-made details c (sym (step_up_code e) ∙ h))
      | inr n ↦ cc (other_code n, h)
    ],
    λ (e, a). step_up_code e ∙ made-parse details c a,
  )

  not_unauthorized :
      str_eq code "UNAUTHORIZED" ≡ false
      → is_unauthorized (map_api_error code message error_id details) ≡ false
  unfolding map_api_error is_unauthorized kind_of_code
  not_unauthorized n = ground arith

  unauthorized_iff :
      (is_unauthorized (map_api_error code message error_id details) ≡ true)
      ↔ (code ≡ "UNAUTHORIZED")
  unfolding map_api_error is_unauthorized kind_of_code
  unauthorized_iff = (
    λ h. elim (Bool-cases (str_eq code "UNAUTHORIZED")) [
      | inl y ↦ (eq_iff code "UNAUTHORIZED").0 y
      | inr n ↦ absurd (false≢true (sym (not_unauthorized n) ∙ h))
    ],
    λ e.
        subst (λ c. is_unauthorized (map_api_error c message error_id details) ≡ true) (sym e) refl,
  )

  scope_codes :
      one_of ("FORBIDDEN" ∷ "REALM_SCOPE_MISMATCH" ∷ []) code ≡ true
      → (code ≡ "FORBIDDEN") ⊎ (code ≡ "REALM_SCOPE_MISMATCH")
  unfolding one_of
  scope_codes h = ground (arith, eq_iff code "FORBIDDEN", eq_iff code "REALM_SCOPE_MISMATCH")

  not_forbidden :
      one_of ("FORBIDDEN" ∷ "REALM_SCOPE_MISMATCH" ∷ []) code ≡ false
      → is_forbidden (map_api_error code message error_id details) ≡ false
  unfolding map_api_error is_forbidden kind_of_code
  not_forbidden n = ground arith

  forbidden_iff :
      (is_forbidden (map_api_error code message error_id details) ≡ true)
      ↔ ((code ≡ "FORBIDDEN") ⊎ (code ≡ "REALM_SCOPE_MISMATCH"))
  unfolding map_api_error is_forbidden kind_of_code one_of
  forbidden_iff = (
    λ h. elim (Bool-cases (one_of ("FORBIDDEN" ∷ "REALM_SCOPE_MISMATCH" ∷ []) code)) [
      | inl y ↦ scope_codes y
      | inr n ↦ absurd (false≢true (sym (not_forbidden n) ∙ h))
    ],
    λ e. elim e [
      | inl f ↦
          subst (λ c. is_forbidden (map_api_error c message error_id details) ≡ true) (sym f) refl
      | inr f ↦
          subst (λ c. is_forbidden (map_api_error c message error_id details) ≡ true) (sym f) refl
    ],
  )

  -- Of the error that an envelope becomes: it is a step-up error with some challenge exactly if the code
  -- is STEP_UP_REQUIRED and the details hold an action that is a text and a list of resources, which are
  -- then those of the challenge; it counts as unauthorized exactly if the code is UNAUTHORIZED, and as
  -- forbidden exactly if it is FORBIDDEN or REALM_SCOPE_MISMATCH; and `errors.As` reaches the base error
  -- with the envelope's code, message, error id and details.
  pub map_api_error_lem :
      ((c : StepUpChallenge)
        → (as_step_up (map_api_error code message error_id details) ≡ some c)
          ↔ ((code ≡ "STEP_UP_REQUIRED") × Asks details c))
      × ((is_unauthorized (map_api_error code message error_id details) ≡ true)
          ↔ (code ≡ "UNAUTHORIZED"))
      × ((is_forbidden (map_api_error code message error_id details) ≡ true)
          ↔ ((code ≡ "FORBIDDEN") ⊎ (code ≡ "REALM_SCOPE_MISMATCH")))
      × (as_arca_error (map_api_error code message error_id details)
          ≡ some (record {
            details = details;
            status_code = 0;
            code = code;
            message = message;
            error_id = error_id;
          }))
  unfolding map_api_error as_arca_error
  map_api_error_lem = (step_up_iff, unauthorized_iff, forbidden_iff, refl)
