-- ===== src/Cosign/Digest.antt =====
-- cosign.go: the EIP-712 digest of an operator action, and the check of a proposal.
use arca_go_sdk.Prelude.{
  ℕ, String, List, [], ◌∷◌, ◌++◌, Option, none, some, not, ◌&&◌, ◌||◌, if◌then◌else◌, ◌==◌, str_eq,
}
use arca_go_sdk.Prelude.Int.{ℤ, pos}
use arca_go_sdk.Cosign.Words.{
  ascii, encode_hex, hex_equal, abi_uint, abi_decimal, abi_address, abi_bytes32,
}
use arca_go_sdk.Cosign.Types.{
  VenueHopProposal, OperatorAction, TransferBetweenVenuesParams, Verdict, verified, foreign_domain,
  foreign_action, malformed, params_mismatch, digest_mismatch,
}

abbrev pub cosign_domain_name : String
cosign_domain_name = "ArcaCustodyKernel"

abbrev pub cosign_domain_version : String
cosign_domain_version = "2"

abbrev pub transfer_between_venues : ℕ
transfer_between_venues = 11

abbrev pub transfer_between_venues_pre_auth : ℕ
transfer_between_venues_pre_auth = 12

-- `"0x" + s`
abbrev pub prefixed : String → String
prefixed s = String.◌∷◌ "0" (String.◌∷◌ "x" s)

-- The words, if each could be encoded, one after the other.
unfoldable pub concat_words : List (Option (List ℕ)) → Option (List ℕ)
concat_words [] = some []
concat_words (none ∷ ws) = none
concat_words (some w ∷ ws) = elim (concat_words ws) [ none ↦ none | some bs ↦ some (w ++ bs) ]

unfoldable pub params_words : TransferBetweenVenuesParams → List (Option (List ℕ))
unfolding abi_address abi_bytes32 abi_decimal
params_words p =
    abi_address p.from_venue
    ∷ abi_bytes32 p.from_boundary
    ∷ abi_bytes32 p.to_boundary
    ∷ abi_address p.to_venue
    ∷ abi_bytes32 p.to_venue_account_id
    ∷ abi_address p.token
    ∷ abi_decimal p.amount
    ∷ abi_bytes32 p.ref
    ∷ []

abbrev pub separator_word : Option String → Option (List ℕ)
separator_word none = none
separator_word (some s) = abi_bytes32 s

abbrev pub params_of : VenueHopProposal → TransferBetweenVenuesParams
params_of p = record {
  from_venue = p.from_venue;
  from_boundary = p.boundary_key;
  to_boundary = p.target_boundary_key;
  to_venue = p.to_venue;
  to_venue_account_id = p.to_venue_account_key;
  token = p.token;
  amount = p.amount_raw;
  ref = p.ref;
}

abbrev pub action_of : VenueHopProposal → String → OperatorAction
action_of p params_hash = record {
  chain_id = p.domain.chain_id;
  kernel_address = p.domain.verifying_contract;
  action = p.action;
  boundary = p.boundary_key;
  params_hash = params_hash;
  nonce = p.nonce;
  deadline = p.deadline;
}

unfoldable pub verify_digest : VenueHopProposal → Option String → Verdict
unfolding hex_equal
verify_digest p none = malformed
verify_digest p (some digest) = if hex_equal digest p.digest then verified else digest_mismatch

-- `keccak` is sha3.NewLegacyKeccak256 of golang.org/x/crypto.
module _ (keccak : List ℕ → List ℕ) where
  abbrev pub hex_hash : Option (List ℕ) → Option String
  hex_hash none = none
  hex_hash (some bs) = some (prefixed (encode_hex (keccak bs)))

  unfoldable pub eip712_domain_typehash : List ℕ
  unfolding ascii
  eip712_domain_typehash =
      keccak
        (ascii "EIP712Domain(string name,string version,uint256 chainId,address verifyingContract)")

  unfoldable pub operator_action_typehash : List ℕ
  unfolding ascii
  operator_action_typehash = keccak (
      ascii
        "OperatorAction(uint8 actionType,bytes32 boundary,bytes32 paramsHash,uint256 nonce,uint256 deadline)")

  unfoldable pub domain_words : ℤ → String → List (Option (List ℕ))
  unfolding eip712_domain_typehash ascii abi_uint abi_address
  domain_words chain_id kernel_address =
      some eip712_domain_typehash
      ∷ some (keccak (ascii cosign_domain_name))
      ∷ some (keccak (ascii cosign_domain_version))
      ∷ some (abi_uint chain_id)
      ∷ abi_address kernel_address
      ∷ []

  unfoldable pub cosign_domain_separator : ℤ → String → Option String
  unfolding concat_words domain_words encode_hex
  cosign_domain_separator chain_id kernel_address =
      hex_hash (concat_words (domain_words chain_id kernel_address))

  unfoldable pub struct_words : OperatorAction → List (Option (List ℕ))
  unfolding operator_action_typehash abi_uint abi_bytes32 abi_decimal
  struct_words a =
      some operator_action_typehash
      ∷ some (abi_uint (pos a.action))
      ∷ abi_bytes32 a.boundary
      ∷ abi_bytes32 a.params_hash
      ∷ abi_decimal a.nonce
      ∷ some (abi_uint a.deadline)
      ∷ []

  abbrev pub hashed : Option (List ℕ) → Option (List ℕ)
  hashed none = none
  hashed (some bs) = some (keccak bs)

  unfoldable pub operator_action_digest : OperatorAction → Option String
  unfolding concat_words struct_words cosign_domain_separator abi_bytes32 encode_hex
  operator_action_digest a = hex_hash (
      concat_words (
        some (0x19 ∷ 0x01 ∷ [])
        ∷ separator_word (cosign_domain_separator a.chain_id a.kernel_address)
        ∷ hashed (concat_words (struct_words a))
        ∷ []))

  unfoldable pub transfer_between_venues_params_hash : TransferBetweenVenuesParams → Option String
  unfolding concat_words params_words encode_hex
  transfer_between_venues_params_hash p = hex_hash (concat_words (params_words p))

  unfoldable pub verify_params : VenueHopProposal → Option String → Verdict
  unfolding hex_equal verify_digest operator_action_digest
  verify_params p none = malformed
  verify_params p (some params_hash) =
      if not (hex_equal params_hash p.params_hash)
      then params_mismatch
      else verify_digest p (operator_action_digest (action_of p params_hash))

  unfoldable pub verify : VenueHopProposal → Verdict
  unfolding verify_params transfer_between_venues_params_hash
  verify p =
      if not (str_eq p.domain.name cosign_domain_name)
        || not (str_eq p.domain.version cosign_domain_version)
      then foreign_domain
      else if not (p.action == transfer_between_venues)
          && not (p.action == transfer_between_venues_pre_auth)
      then foreign_action
      else verify_params p (transfer_between_venues_params_hash (params_of p))
