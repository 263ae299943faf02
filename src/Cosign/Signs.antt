-- ===== src/Cosign/Signs.antt =====
-- venue_hop.go: when the co-sign key is used.
use arca_go_sdk.Prelude.{
  ℕ, suc, ◌≤◌, ◌≡◌, refl, String, List, [], ◌∷◌, All, Option, none, some, true, inl, inr,
  Bool-cases, arith,
}
use arca_go_sdk.Client.Errors.{Error, Result, ok, err}
use arca_go_sdk.Cosign.Types.{
  VenueHopProposal, Verdict, verified, foreign_domain, foreign_action, malformed, params_mismatch,
  digest_mismatch,
}
use arca_go_sdk.Cosign.Digest.{verify}
use arca_go_sdk.Cosign.Hop.{
  SubmitVenueHopOptions, CosignDigestSigner, HopVenuesOptions, Call, transferred, proposed, signed,
  submitted, is_cosign_required, verify_error, Platform, propose_options, submit_options, body_ref,
  submit_in, submit_venue_hop, propose_in, propose_venue_hop, sign_verified, submit_signed,
  sign_proposal, co_sign, after_refusal, after_transfer, hop_venues,
}

unfoldable pub count_signed : List Call → ℕ
count_signed [] = 0
count_signed (signed d p ∷ log) = suc (count_signed log)
count_signed (transferred r q f t a ∷ log) = count_signed log
count_signed (proposed r o ∷ log) = count_signed log
count_signed (submitted r o f ∷ log) = count_signed log

unfoldable pub count_submitted : List Call → ℕ
count_submitted [] = 0
count_submitted (submitted r o f ∷ log) = suc (count_submitted log)
count_submitted (transferred r q f t a ∷ log) = count_submitted log
count_submitted (proposed r o ∷ log) = count_submitted log
count_submitted (signed d p ∷ log) = count_submitted log

module _ {A : Type 0} (platform : Platform A) (keccak : List ℕ → List ℕ)
    (opts : HopVenuesOptions) where
  -- A signature that the key made: of the digest of a proposal that is verified.
  pub record Signature (sent : SubmitVenueHopOptions) : Type 0 where
    pub proposal : VenueHopProposal
    pub signature : String
    pub sign : CosignDigestSigner
    pub is_verified : verify keccak proposal ≡ verified
    pub is_signer : opts.sign ≡ some sign
    pub is_made : sign proposal.digest proposal ≡ ok signature
    pub is_sent : sent ≡ submit_options opts proposal signature

  -- A refusal of the plain transfer that asks for a co-signature.
  pub record Refusal : Type 0 where
    pub error : Error
    pub is_refused : platform.transfer [] opts ≡ err error
    pub is_armed : is_cosign_required error ≡ true

  -- What a hop may do.
  abbrev pub IsAllowed : Call → Type 0
  IsAllowed (transferred r q f t a) =
      (q ≡ opts.path) × (f ≡ opts.from) × (t ≡ opts.to) × (a ≡ opts.amount)
  IsAllowed (proposed r o) = Refusal × (o ≡ propose_options opts)
  IsAllowed (signed d p) = Refusal × (d ≡ p.digest) × (verify keccak p ≡ verified)
  IsAllowed (submitted r o f) = Refusal × Signature o × (f ≡ body_ref o.ref)

  pub record IsSafe (log : List Call) : Type 0 where
    pub allowed : All IsAllowed log
    pub signed_once : count_signed log ≤ 1
    pub submitted_once : count_submitted log ≤ count_signed log

  -- A log in which nothing is signed yet.
  record IsUnsigned (log : List Call) : Type 0 where
    allowed : All IsAllowed log
    none_signed : count_signed log ≡ 0
    none_submitted : count_submitted log ≡ 0

  IsUnsigned-IsSafe : (log : List Call) → IsUnsigned log → IsSafe log
  IsUnsigned-IsSafe log u = record {
    allowed = u.allowed;
    signed_once = omega (arith, u.none_signed);
    submitted_once = omega (arith, u.none_submitted);
  }

  module _ (refusal : Refusal) (sign : CosignDigestSigner) (is_signer : opts.sign ≡ some sign) where
    module _ (p : VenueHopProposal) (v : verify keccak p ≡ verified) (log : List Call)
        (u : IsUnsigned log) where
      made :
          (signature : String)
          → sign p.digest p ≡ ok signature
          → Signature (submit_options opts p signature)
      made signature e = record {
        proposal = p;
        signature = signature;
        sign = sign;
        is_verified = v;
        is_signer = is_signer;
        is_made = e;
        is_sent = refl;
      }

      signed-IsSafe : IsSafe (signed p.digest p ∷ log)
      unfolding count_signed count_submitted
      signed-IsSafe = record {
        allowed = ((refusal, refl, v), u.allowed);
        signed_once = omega (arith, u.none_signed);
        submitted_once = omega (arith, u.none_submitted);
      }

      submit-IsSafe :
          (signature : String)
          → sign p.digest p ≡ ok signature
          → (realm : Result String)
          → IsSafe
              (submit_in platform
                (signed p.digest p ∷ log)
                (submit_options opts p signature)
                realm).0
      unfolding submit_in count_signed count_submitted
      submit-IsSafe signature e (err x) = signed-IsSafe
      submit-IsSafe signature e (ok realm) = record {
        allowed = ((refusal, made signature e, refl), signed-IsSafe.allowed);
        signed_once = signed-IsSafe.signed_once;
        submitted_once = omega (arith, u.none_submitted, u.none_signed);
      }

      submit_signed-IsSafe :
          (r : Result String)
          → sign p.digest p ≡ r
          → IsSafe (submit_signed platform keccak opts p (signed p.digest p ∷ log) r).0
      unfolding submit_signed submit_venue_hop
      submit_signed-IsSafe (err x) e = signed-IsSafe
      submit_signed-IsSafe (ok signature) e =
          submit-IsSafe signature e (platform.realm_id (signed p.digest p ∷ log))

      sign_verified-IsSafe : IsSafe (sign_verified platform keccak opts sign log p none).0
      unfolding sign_verified
      sign_verified-IsSafe = submit_signed-IsSafe (sign p.digest p) refl

    by_verdict :
        (log : List Call) (p : VenueHopProposal) (v : Verdict)
        → verify keccak p ≡ v
        → IsUnsigned log
        → IsSafe (sign_verified platform keccak opts sign log p (verify_error v)).0
    unfolding sign_verified verify_error
    by_verdict log p verified e u = sign_verified-IsSafe p e log u
    by_verdict log p foreign_domain e u = IsUnsigned-IsSafe log u
    by_verdict log p foreign_action e u = IsUnsigned-IsSafe log u
    by_verdict log p malformed e u = IsUnsigned-IsSafe log u
    by_verdict log p params_mismatch e u = IsUnsigned-IsSafe log u
    by_verdict log p digest_mismatch e u = IsUnsigned-IsSafe log u

    sign_proposal-IsSafe :
        (log : List Call) (r : Result VenueHopProposal)
        → IsUnsigned log
        → IsSafe (sign_proposal platform keccak opts sign log r).0
    unfolding sign_proposal
    sign_proposal-IsSafe log (err x) u = IsUnsigned-IsSafe log u
    sign_proposal-IsSafe log (ok p) u = by_verdict log p (verify keccak p) refl u

    propose-IsUnsigned :
        (log : List Call) (realm : Result String)
        → IsUnsigned log
        → IsUnsigned (propose_in platform log (propose_options opts) realm).0
    unfolding propose_in count_signed count_submitted
    propose-IsUnsigned log (err x) u = u
    propose-IsUnsigned log (ok realm) u = record {
      allowed = ((refusal, refl), u.allowed);
      none_signed = u.none_signed;
      none_submitted = u.none_submitted;
    }

    co_sign-IsSafe :
        (log : List Call) → IsUnsigned log → IsSafe (co_sign platform keccak opts sign log).0
    unfolding co_sign propose_venue_hop
    co_sign-IsSafe log u =
        sign_proposal-IsSafe (propose_venue_hop platform log (propose_options opts)).0
          (propose_venue_hop platform log (propose_options opts)).1
          (propose-IsUnsigned log (platform.realm_id log) u)

  after_refusal-IsSafe :
      (log : List Call) (e : Error) (o : Option CosignDigestSigner)
      → platform.transfer [] opts ≡ err e
      → opts.sign ≡ o
      → IsUnsigned log
      → IsSafe (after_refusal platform keccak opts o log e).0
  unfolding after_refusal
  after_refusal-IsSafe log e none h k u = IsUnsigned-IsSafe log u
  after_refusal-IsSafe log e (some sign) h k u = elim (Bool-cases (is_cosign_required e)) [
    | inl y ↦
        rw y (co_sign-IsSafe (record { error = e; is_refused = h; is_armed = y }) sign k log u)
    | inr y ↦ rw y (IsUnsigned-IsSafe log u)
  ]

  after_transfer-IsSafe :
      (log : List Call) (r : Result A)
      → platform.transfer [] opts ≡ r
      → IsUnsigned log
      → IsSafe (after_transfer platform keccak opts log r).0
  unfolding after_transfer
  after_transfer-IsSafe log (ok operation) h u = IsUnsigned-IsSafe log u
  after_transfer-IsSafe log (err e) h u = after_refusal-IsSafe log e opts.sign h refl u

  -- Whatever the platform answers: a hop asks for a proposal and signs only if the plain transfer was
  -- refused for want of a co-signature, signs at most one proposal, which it has verified, by its
  -- digest, and submits only with that signature, by the options of the caller and with the proposal's
  -- nonce, deadline and ref.
  pub hop_venues-IsSafe : (realm : String) → IsSafe (hop_venues platform keccak realm opts []).0
  unfolding hop_venues count_signed count_submitted
  hop_venues-IsSafe realm =
      after_transfer-IsSafe (transferred realm opts.path opts.from opts.to opts.amount ∷ [])
        (platform.transfer [] opts) refl
        (record {
          allowed = ((refl, refl, refl, refl), tt);
          none_signed = refl;
          none_submitted = refl;
        })
