-- ===== src/Cosign/Hop.antt =====
-- venue_hop.go: a transfer, and the co-signed hop in its place if the boundary asks for one.
use arca_go_sdk.Prelude.{
  ℕ, String, List, ◌∷◌, Option, none, some, Bool, true, false, if◌then◌else◌, str_eq,
}
use arca_go_sdk.Prelude.Int.{ℤ}
use arca_go_sdk.Client.Errors.{Kind, cosign_required, Error, other, Result, ok, err, kind_of}
use arca_go_sdk.Cosign.Types.{
  VenueHopProposal, Verdict, verified, foreign_domain, foreign_action, malformed, params_mismatch,
  digest_mismatch,
}
use arca_go_sdk.Cosign.Digest.{verify}

pub record ProposeVenueHopOptions : Type 0 where
  pub path : String
  pub from : String
  pub to : String
  pub amount : String
  pub deadline : ℤ

pub record SubmitVenueHopOptions : Type 0 where
  pub path : String
  pub from : String
  pub to : String
  pub amount : String
  pub nonce : String
  pub deadline : ℤ
  pub signature : String
  pub ref : String

pub record VenueHopResponse (A : Type 0) : Type 0 where
  pub operation : A
  pub boundary_id : String
  pub target_boundary_id : String

abbrev pub CosignDigestSigner : Type 0
CosignDigestSigner = String → VenueHopProposal → Result String

pub record HopVenuesOptions : Type 0 where
  pub path : String
  pub from : String
  pub to : String
  pub amount : String
  pub sign : Option CosignDigestSigner
  pub deadline : ℤ

-- What is sent and what is signed; a submitted ref is left out if it is empty.
pub data Call : Type 0 where
  transferred : String → String → String → String → String → Call
  proposed : String → ProposeVenueHopOptions → Call
  signed : String → VenueHopProposal → Call
  submitted : String → SubmitVenueHopOptions → Option String → Call

abbrev is_cosign_kind : Option Kind → Bool
is_cosign_kind (some (cosign_required c)) = true
is_cosign_kind _ = false

-- `errors.As(err, &cosignErr)`
unfoldable pub is_cosign_required : Error → Bool
unfolding kind_of
is_cosign_required e = is_cosign_kind (kind_of e)

-- The error of a proposal that is not verified.
unfoldable pub verify_error : Verdict → Option Error
verify_error verified = none
verify_error foreign_domain = some (other "proposal is for another EIP-712 domain")
verify_error foreign_action = some (other "proposal carries another action")
verify_error malformed = some (other "proposal cannot be encoded")
verify_error params_mismatch = some (other "paramsHash mismatch")
verify_error digest_mismatch = some (other "digest mismatch")

-- The platform, which may answer by what was called before, latest first: the transfer endpoint,
-- `realmID`, and the two endpoints of a hop.
pub record Platform (A : Type 0) : Type 0 where
  pub transfer : List Call → HopVenuesOptions → Result A
  pub realm_id : List Call → Result String
  pub propose : List Call → String → ProposeVenueHopOptions → Result VenueHopProposal
  pub submit : List Call → String → SubmitVenueHopOptions → Result (VenueHopResponse A)

abbrev pub propose_options : HopVenuesOptions → ProposeVenueHopOptions
propose_options opts = record {
  path = opts.path;
  from = opts.from;
  to = opts.to;
  amount = opts.amount;
  deadline = opts.deadline;
}

abbrev pub submit_options : HopVenuesOptions → VenueHopProposal → String → SubmitVenueHopOptions
submit_options opts proposal signature = record {
  path = opts.path;
  from = opts.from;
  to = opts.to;
  amount = opts.amount;
  nonce = proposal.nonce;
  deadline = proposal.deadline;
  signature = signature;
  ref = proposal.ref;
}

-- The reference that the body of the request carries.
abbrev pub body_ref : String → Option String
body_ref ref = if str_eq ref "" then none else some ref

module _ {A : Type 0} (platform : Platform A) where
  unfoldable pub submit_in :
      List Call → SubmitVenueHopOptions → Result String → List Call × Result (VenueHopResponse A)
  submit_in log opts (err e) = (log, err e)
  submit_in log opts (ok realm) =
      (submitted realm opts (body_ref opts.ref) ∷ log, platform.submit log realm opts)

  unfoldable pub submit_venue_hop :
      List Call → SubmitVenueHopOptions → List Call × Result (VenueHopResponse A)
  unfolding submit_in
  submit_venue_hop log opts = submit_in log opts (platform.realm_id log)

  unfoldable pub propose_in :
      List Call → ProposeVenueHopOptions → Result String → List Call × Result VenueHopProposal
  propose_in log opts (err e) = (log, err e)
  propose_in log opts (ok realm) = (proposed realm opts ∷ log, platform.propose log realm opts)

  unfoldable pub propose_venue_hop :
      List Call → ProposeVenueHopOptions → List Call × Result VenueHopProposal
  unfolding propose_in
  propose_venue_hop log opts = propose_in log opts (platform.realm_id log)

  -- `keccak` is that of the digests.
  module _ (keccak : List ℕ → List ℕ) where
    unfoldable pub submit_signed :
        HopVenuesOptions
        → VenueHopProposal
        → List Call
        → Result String
        → List Call × Result (VenueHopResponse A)
    unfolding submit_venue_hop
    submit_signed opts proposal log (err e) = (log, err e)
    submit_signed opts proposal log (ok signature) =
        submit_venue_hop log (submit_options opts proposal signature)

    unfoldable pub sign_verified :
        HopVenuesOptions
        → CosignDigestSigner
        → List Call
        → VenueHopProposal
        → Option Error
        → List Call × Result (VenueHopResponse A)
    unfolding submit_signed
    sign_verified opts sign log proposal (some e) = (log, err e)
    sign_verified opts sign log proposal none =
        submit_signed opts proposal (signed proposal.digest proposal ∷ log)
          (sign proposal.digest proposal)

    unfoldable pub sign_proposal :
        HopVenuesOptions
        → CosignDigestSigner
        → List Call
        → Result VenueHopProposal
        → List Call × Result (VenueHopResponse A)
    unfolding sign_verified verify_error verify
    sign_proposal opts sign log (err e) = (log, err e)
    sign_proposal opts sign log (ok proposal) =
        sign_verified opts sign log proposal (verify_error (verify keccak proposal))

    unfoldable pub co_sign :
        HopVenuesOptions → CosignDigestSigner → List Call → List Call × Result (VenueHopResponse A)
    unfolding sign_proposal propose_venue_hop
    co_sign opts sign log =
        sign_proposal opts sign (propose_venue_hop log (propose_options opts)).0
          (propose_venue_hop log (propose_options opts)).1

    unfoldable pub after_refusal :
        HopVenuesOptions
        → Option CosignDigestSigner
        → List Call
        → Error
        → List Call × Result (VenueHopResponse A)
    unfolding co_sign is_cosign_required
    after_refusal opts none log e = (log, err e)
    after_refusal opts (some sign) log e =
        if is_cosign_required e then co_sign opts sign log else (log, err e)

    unfoldable pub after_transfer :
        HopVenuesOptions → List Call → Result A → List Call × Result (VenueHopResponse A)
    unfolding after_refusal
    after_transfer opts log (ok operation) =
        (log, ok (record { operation = operation; boundary_id = ""; target_boundary_id = "" }))
    after_transfer opts log (err e) = after_refusal opts opts.sign log e

    -- The body of the operation that HopVenues starts, in the realm `realm`.
    unfoldable pub hop_venues :
        String → HopVenuesOptions → List Call → List Call × Result (VenueHopResponse A)
    unfolding after_transfer
    hop_venues realm opts log =
        after_transfer opts (transferred realm opts.path opts.from opts.to opts.amount ∷ log)
          (platform.transfer log opts)
