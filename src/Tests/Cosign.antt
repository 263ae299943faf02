-- ===== src/Tests/Cosign.antt =====
-- cosign.go, venue_hop.go and recovery.go at concrete inputs.
use arca_go_sdk.Prelude.{
  ℕ, zero, suc, ◌+◌, ◌*◌, ◌/◌, ◌%◌, ◌≡◌, ◌⊎◌, ◌↔◌, inl, refl, String, List, [], ◌∷◌, ◌++◌, All,
  All-append, Option, none, some, arith,
}
use arca_go_sdk.Prelude.Int.{pos}
use arca_go_sdk.Client.Errors.{Error, typed, cosign_required, new_arca_error, ok, err}
use arca_go_sdk.Cosign.Words.{bytes_of, decode_string, encode_hex}
use arca_go_sdk.Cosign.Layout.{length-bytes_of}
use arca_go_sdk.Cosign.Coding.{IsByte}
use arca_go_sdk.Cosign.Types.{VenueHopProposal, verified}
use arca_go_sdk.Cosign.Digest.{
  prefixed, transfer_between_venues_params_hash, operator_action_digest, params_of, action_of,
  verify,
}
use arca_go_sdk.Cosign.Hashes.{IsWord}
use arca_go_sdk.Cosign.Binding.{SameAction, Collision, verify-SameAction}
use arca_go_sdk.Cosign.Hop.{is_cosign_required, Platform, HopVenuesOptions, hop_venues}
use arca_go_sdk.Cosign.Signs.{IsSafe, hop_venues-IsSafe}
use arca_go_sdk.Cosign.Consistent.{signed_proposals, hop_venues_signs_consistent}
use arca_go_sdk.Cosign.Keys.{
  IsMade, sign_venue_hop, sign_venue_hop_sound, checksum_address, checksum_address-decode,
}

-- A checksum in the place of a hash.
unfoldable weigh : ℕ → List ℕ → ℕ
weigh acc [] = acc
weigh acc (b ∷ bs) = weigh (acc * 31 + b + 1) bs

unfoldable test_keccak : List ℕ → List ℕ
unfolding weigh bytes_of
test_keccak bs = bytes_of 32 (weigh 7 bs)

bytes_of-IsByte : (k n : ℕ) → All IsByte (bytes_of k n)
unfolding bytes_of
bytes_of-IsByte zero n = tt
bytes_of-IsByte (suc k) n =
    All-append IsByte (bytes_of k (n / 256)) (n % 256 ∷ []) (bytes_of-IsByte k (n / 256))
      (omega arith, tt)

test_hashes : (bs : List ℕ) → IsWord (test_keccak bs)
unfolding test_keccak
test_hashes bs = record {
  is_32 = length-bytes_of 32 (weigh 7 bs);
  are_bytes = bytes_of-IsByte 32 (weigh 7 bs);
}

abbrev test_key : String
test_key = "0x000102030405060708090a0b0c0d0e0f101112131415161718191a1b1c1d1e1F"

abbrev test_address : String
test_address = "0x00112233445566778899aabbccddeeff00112233"

abbrev unsealed : VenueHopProposal
unsealed = record {
  action = 11;
  boundary_id = "bnd_1";
  boundary_key = test_key;
  target_boundary_id = "bnd_2";
  target_boundary_key = test_key;
  from_venue = test_address;
  to_venue = test_address;
  to_venue_account_key = test_key;
  token = test_address;
  domain = record {
    name = "ArcaCustodyKernel";
    version = "2";
    chain_id = pos 42161;
    verifying_contract = test_address;
  };
  amount = "500";
  amount_raw = "500000000";
  ref = test_key;
  nonce = "12";
  deadline = pos 1700000000;
  params_hash = "";
  digest = "";
}

abbrev text_or_empty : Option String → String
text_or_empty none = ""
text_or_empty (some s) = s

unfoldable with_params : VenueHopProposal
unfolding transfer_between_venues_params_hash test_keccak
with_params = record unsealed {
  params_hash =
      text_or_empty (transfer_between_venues_params_hash test_keccak (params_of unsealed));
}

unfoldable test_proposal : VenueHopProposal
unfolding with_params operator_action_digest test_keccak
test_proposal = record with_params {
  digest =
      text_or_empty
        (operator_action_digest test_keccak (action_of with_params with_params.params_hash));
}

test_verified : verify test_keccak test_proposal ≡ verified
unfolding verify test_proposal
test_verified = refl

-- The same in other letters, and with texts that no digest covers.
unfoldable other_proposal : VenueHopProposal
unfolding test_proposal
other_proposal = record test_proposal {
  amount = "9000";
  boundary_id = "bnd_9";
  token = "0x00112233445566778899AABBCCDDEEFF00112233";
  nonce = " +012 ";
}

other_verified : verify test_keccak other_proposal ≡ verified
unfolding verify other_proposal
other_verified = refl

verify-SameAction_example :
    SameAction test_proposal other_proposal ⊎ Collision test_keccak test_proposal other_proposal
unfolding other_proposal
verify-SameAction_example =
    verify-SameAction test_keccak test_hashes test_proposal other_proposal test_verified
      other_verified refl (omega arith) (omega arith) (omega arith) (omega arith)

abbrev test_error : Error
test_error =
    typed
      (cosign_required (record {
        surface = "";
        boundary_id = "bnd_1";
        arca_path = "";
        source_arca_path = "";
        target_arca_path = "";
        propose = "";
        submit = "";
      }))
      (new_arca_error "COSIGN_REQUIRED" "" "")

abbrev test_platform : Platform String
test_platform = record {
  transfer = λ log opts. err test_error;
  realm_id = λ log. ok "r1";
  propose = λ log realm opts. ok test_proposal;
  submit = λ log realm opts.
      ok (record { operation = "op"; boundary_id = "bnd_1"; target_boundary_id = "bnd_2" });
}

abbrev test_options : HopVenuesOptions
test_options = record {
  path = "/op/1";
  from = "/a";
  to = "/b";
  amount = "1";
  sign = some (λ digest proposal. ok "0xsig");
  deadline = pos 0;
}

hop_venues-IsSafe_example :
    IsSafe test_platform test_keccak test_options
      (hop_venues test_platform test_keccak "r1" test_options []).0
hop_venues-IsSafe_example = hop_venues-IsSafe test_platform test_keccak test_options "r1"

-- The proposal is for 500, and the options say 1.
hop_venues_signs_consistent_example :
    signed_proposals (hop_venues test_platform test_keccak "r1" test_options []).0
    ≡ test_proposal ∷ []
unfolding test_proposal is_cosign_required
hop_venues_signs_consistent_example =
    hop_venues_signs_consistent test_platform test_keccak "r1" test_options test_proposal
      (λ digest proposal. ok "0xsig")
      (record { name = refl; version = refl; action = inl refl; params = refl; digest = refl })
      (record {
        error = test_error;
        armed = refl;
        is_refused = refl;
        is_armed = refl;
        is_ready = refl;
        is_proposed = refl;
      })

unfoldable test_compact : List ℕ → List ℕ → List ℕ
test_compact key digest = 27 ∷ (key ++ digest)

unfoldable test_signature : String
unfolding sign_venue_hop test_compact test_proposal test_keccak
test_signature = text_or_empty (sign_venue_hop test_compact test_keccak test_key test_proposal)

test_signed : sign_venue_hop test_compact test_keccak test_key test_proposal ≡ some test_signature
unfolding test_signature sign_venue_hop
test_signed = refl

sign_venue_hop_sound_example :
    (sign_venue_hop test_compact test_keccak test_key test_proposal ≡ some test_signature) ↔ (
      (verify test_keccak test_proposal ≡ verified)
      × IsMade test_compact test_key test_proposal.digest test_signature)
sign_venue_hop_sound_example =
    sign_venue_hop_sound test_compact test_keccak test_key test_proposal test_signature

abbrev test_bytes : List ℕ
test_bytes =
    171 ∷ 205 ∷ 239 ∷ 1 ∷ 2 ∷ 3 ∷ 4 ∷ 5 ∷ 6 ∷ 7 ∷ 8 ∷ 9 ∷ 10 ∷ 11 ∷ 12 ∷ 13 ∷ 14 ∷ 15 ∷ 254 ∷ 255
    ∷ []

checksum_address-decode_example :
    (t : String) × (checksum_address test_keccak (encode_hex test_bytes) ≡ prefixed t)
    × (decode_string t ≡ some test_bytes)
checksum_address-decode_example =
    checksum_address-decode test_keccak test_bytes (λ cs. (test_hashes cs).is_32) (omega arith) refl
