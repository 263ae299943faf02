-- ===== src/Cosign/Consistent.antt =====
-- cosign.go and venue_hop.go: a proposal that is consistent in itself is signed.
use arca_go_sdk.Prelude.{
  ℕ, ◌≡◌, ◌⊎◌, refl, String, List, [], ◌∷◌, some, true, false, not, ◌&&◌, ◌==◌, eq_refl, to_upper,
  inl, inr, arith,
}
use arca_go_sdk.Client.Errors.{Error, Result, ok, err}
use arca_go_sdk.Cosign.Words.{hex_equal}
use arca_go_sdk.Cosign.Types.{VenueHopProposal, verified}
use arca_go_sdk.Cosign.Digest.{
  cosign_domain_name, cosign_domain_version, transfer_between_venues,
  transfer_between_venues_pre_auth, transfer_between_venues_params_hash, params_of, action_of,
  operator_action_digest, verify_digest, verify_params, verify,
}
use arca_go_sdk.Cosign.Hop.{
  CosignDigestSigner, HopVenuesOptions, Call, transferred, proposed, signed, submitted,
  is_cosign_required, verify_error, Platform, propose_options, submit_options, submit_in,
  submit_venue_hop, propose_in, propose_venue_hop, submit_signed, sign_verified, sign_proposal,
  co_sign, after_refusal, after_transfer, hop_venues,
}

-- A proposal for this kernel whose hashes are those of its own fields.
pub record IsConsistent (keccak : List ℕ → List ℕ) (p : VenueHopProposal) : Type 0 where
  pub name : p.domain.name ≡ cosign_domain_name
  pub version : p.domain.version ≡ cosign_domain_version
  pub action : (p.action ≡ transfer_between_venues) ⊎ (p.action ≡ transfer_between_venues_pre_auth)
  pub params : transfer_between_venues_params_hash keccak (params_of p) ≡ some p.params_hash
  pub digest : operator_action_digest keccak (action_of p p.params_hash) ≡ some p.digest

known : (a : ℕ) → (a ≡ 11) ⊎ (a ≡ 12) → not (a == 11) && not (a == 12) ≡ false
known a (inl e) = ground arith
known a (inr e) = ground arith

hex_equal_refl : (s : String) → hex_equal s s ≡ true
unfolding hex_equal
hex_equal_refl s = eq_refl (to_upper _)

module _ (keccak : List ℕ → List ℕ) (p : VenueHopProposal) (c : IsConsistent keccak p) where
  verify_params-consistent : verify_params keccak p (some p.params_hash) ≡ verified
  unfolding verify_params verify_digest
  verify_params-consistent =
      rw (hex_equal_refl p.params_hash) (rw c.digest (rw (hex_equal_refl p.digest) refl))

  verify-consistent : verify keccak p ≡ verified
  unfolding verify
  verify-consistent =
      rw c.name (rw c.version (rw (known p.action c.action) (rw c.params verify_params-consistent)))

abbrev pub signed_proposals : List Call → List VenueHopProposal
signed_proposals [] = []
signed_proposals (signed d p ∷ log) = p ∷ signed_proposals log
signed_proposals (transferred r q f t a ∷ log) = signed_proposals log
signed_proposals (proposed r o ∷ log) = signed_proposals log
signed_proposals (submitted r o f ∷ log) = signed_proposals log

module _ {A : Type 0} (platform : Platform A) (keccak : List ℕ → List ℕ) (realm : String)
    (opts : HopVenuesOptions) (p : VenueHopProposal) where
  abbrev pub first_log : List Call
  first_log = transferred realm opts.path opts.from opts.to opts.amount ∷ []

  -- The platform asks for a co-signature and proposes this.
  pub record Proposes (sign : CosignDigestSigner) : Type 0 where
    pub error : Error
    pub armed : opts.sign ≡ some sign
    pub is_refused : platform.transfer [] opts ≡ err error
    pub is_armed : is_cosign_required error ≡ true
    pub is_ready : platform.realm_id first_log ≡ ok realm
    pub is_proposed : platform.propose first_log realm (propose_options opts) ≡ ok p

  submit_in-signs_same :
      (log : List Call) (signature : String) (r : Result String)
      → signed_proposals (submit_in platform log (submit_options opts p signature) r).0
        ≡ signed_proposals log
  unfolding submit_in
  submit_in-signs_same log signature (err e) = refl
  submit_in-signs_same log signature (ok r) = refl

  submit-signs_same :
      (log : List Call) (signature : Result String)
      → signed_proposals (submit_signed platform keccak opts p log signature).0
        ≡ signed_proposals log
  unfolding submit_signed submit_venue_hop
  submit-signs_same log (err e) = refl
  submit-signs_same log (ok signature) = submit_in-signs_same log signature (platform.realm_id log)

  -- A signer is handed whatever proposal is consistent in itself: nothing in it is held against the
  -- options of the caller.
  pub hop_venues_signs_consistent :
      (sign : CosignDigestSigner)
      → IsConsistent keccak p
      → Proposes sign
      → signed_proposals (hop_venues platform keccak realm opts []).0 ≡ p ∷ []
  unfolding hop_venues after_transfer after_refusal co_sign propose_venue_hop propose_in
      sign_proposal verify_error sign_verified
  hop_venues_signs_consistent sign c q = rw q.is_refused (
      rw q.armed (
        rw q.is_armed (
          rw q.is_ready (
            rw q.is_proposed (
              rw (verify-consistent keccak p c) (
                submit-signs_same
                  (signed p.digest p ∷ proposed realm (propose_options opts) ∷ first_log)
                  (sign p.digest p)))))))
