-- ===== src/Cosign/Types.antt =====
-- venue_hop.go and cosign.go: proposals, and why one is not signed.
use arca_go_sdk.Prelude.{ℕ, String}
use arca_go_sdk.Prelude.Int.{ℤ}

pub record CosignDomain : Type 0 where
  pub name : String
  pub version : String
  pub chain_id : ℤ
  pub verifying_contract : String

pub record VenueHopProposal : Type 0 where
  pub action : ℕ
  pub boundary_id : String
  pub boundary_key : String
  pub target_boundary_id : String
  pub target_boundary_key : String
  pub from_venue : String
  pub to_venue : String
  pub to_venue_account_key : String
  pub token : String
  pub domain : CosignDomain
  pub amount : String
  pub amount_raw : String
  pub ref : String
  pub nonce : String
  pub deadline : ℤ
  pub params_hash : String
  pub digest : String

pub record OperatorAction : Type 0 where
  pub chain_id : ℤ
  pub kernel_address : String
  pub action : ℕ
  pub boundary : String
  pub params_hash : String
  pub nonce : String
  pub deadline : ℤ

pub record TransferBetweenVenuesParams : Type 0 where
  pub from_venue : String
  pub from_boundary : String
  pub to_boundary : String
  pub to_venue : String
  pub to_venue_account_id : String
  pub token : String
  pub amount : String
  pub ref : String

-- What Verify reports, by the test that fails.
pub data Verdict : Type 0 where
  verified : Verdict
  foreign_domain : Verdict
  foreign_action : Verdict
  malformed : Verdict
  params_mismatch : Verdict
  digest_mismatch : Verdict
