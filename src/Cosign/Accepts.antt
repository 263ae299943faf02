-- ===== src/Cosign/Accepts.antt =====
-- cosign.go: what a proposal that is verified hashes to its digest.
use arca_go_sdk.Prelude.{
  ℕ, ◌≤◌, ◌≡◌, inl, inr, refl, subst, String, List, [], ◌∷◌, ◌++◌, Option, none, some, Bool, true,
  false, not, ◌&&◌, ◌||◌, ◌==◌, str_eq, Bool-cases, arith,
}
use arca_go_sdk.Cosign.Words.{encode_hex, hex_equal}
use arca_go_sdk.Cosign.Types.{VenueHopProposal, Verdict, verified}
use arca_go_sdk.Cosign.Digest.{
  concat_words, params_words, prefixed, hex_hash, domain_words, cosign_domain_separator,
  struct_words, hashed, operator_action_digest, transfer_between_venues_params_hash, params_of,
  action_of, verify_digest, verify_params, verify, transfer_between_venues,
  transfer_between_venues_pre_auth, cosign_domain_name, cosign_domain_version,
}
use arca_go_sdk.Cosign.Hashes.{IsWord, hash_word}

-- The parts of the preimage of a digest.
module _ (keccak : List ℕ → List ℕ) where
  abbrev pub params_text : List ℕ → String
  params_text params = prefixed (encode_hex (keccak params))

  abbrev pub preimage : List ℕ → List ℕ → List ℕ
  preimage domain struct = (0x19 ∷ 0x01 ∷ []) ++ (keccak domain ++ (keccak struct ++ []))

  -- What a proposal that is verified hashes to its digest.
  pub record Accepted (p : VenueHopProposal) : Type 0 where
    pub params : List ℕ
    pub domain : List ℕ
    pub struct : List ℕ
    pub params_ok : concat_words (params_words (params_of p)) ≡ some params
    pub domain_ok :
        concat_words (domain_words keccak p.domain.chain_id p.domain.verifying_contract)
        ≡ some domain
    pub struct_ok :
        concat_words (struct_words keccak (action_of p (params_text params))) ≡ some struct
    pub agrees : hex_equal (prefixed (encode_hex (keccak (preimage domain struct)))) p.digest ≡ true
    pub is_known : p.action ≤ 12

  module _ (hashes : (bs : List ℕ) → IsWord (keccak bs)) (p : VenueHopProposal) where
    Hashed : Option (List ℕ) → Option (List ℕ) → Type 0
    Hashed o u =
        (d : List ℕ) × (s : List ℕ) × (o ≡ some d)
        × (u ≡ some s)
        × (hex_equal (prefixed (encode_hex (keccak (preimage d s)))) p.digest ≡ true)

    verdict_of : Option (List ℕ) → Option (List ℕ) → Verdict
    verdict_of o u = verify_digest p (
        hex_hash keccak
          (concat_words (some (0x19 ∷ 0x01 ∷ []) ∷ hashed keccak o ∷ hashed keccak u ∷ [])))

    verdict_of-Hashed : (o u : Option (List ℕ)) → verdict_of o u ≡ verified → Hashed o u
    unfolding verdict_of Hashed verify_digest concat_words
    verdict_of-Hashed none u h = cc
    verdict_of-Hashed (some d) none h = cc
    verdict_of-Hashed (some d) (some s) h =
        elim (Bool-cases (hex_equal (prefixed (encode_hex (keccak (preimage d s)))) p.digest)) [
          | inl y ↦ (d, s, refl, refl, y)
          | inr y ↦ cc
        ]

    digest_cases :
        (text : String)
        → verify_digest p (operator_action_digest keccak (action_of p text)) ≡ verified
        → Hashed
            (concat_words (domain_words keccak p.domain.chain_id p.domain.verifying_contract))
            (concat_words (struct_words keccak (action_of p text)))
    unfolding operator_action_digest cosign_domain_separator verdict_of
    digest_cases text h =
        let o : Option (List ℕ) =
          concat_words (domain_words keccak p.domain.chain_id p.domain.verifying_contract) in
        let u : Option (List ℕ) = concat_words (struct_words keccak (action_of p text)) in
        verdict_of-Hashed o u (
          subst
            (λ (w : Option (List ℕ)).
              verify_digest p (
                hex_hash keccak (concat_words (some (0x19 ∷ 0x01 ∷ []) ∷ w ∷ hashed keccak u ∷ [])))
              ≡ verified)
            (hash_word keccak hashes o) h)

    params_cases :
        (o : Option (List ℕ))
        → p.action ≤ 12
        → concat_words (params_words (params_of p)) ≡ o
        → verify_params keccak p (hex_hash keccak o) ≡ verified
        → Accepted p
    unfolding verify_params Hashed
    params_cases none k e h = cc
    params_cases (some params) k e h =
        elim (Bool-cases (hex_equal (prefixed (encode_hex (keccak params))) p.params_hash)) [
          | inl y ↦ accepted (digest_cases (params_text params) (rw y at h))
          | inr y ↦ cc (rw y at h)
        ]
      where
        accepted :
            Hashed
              (concat_words (domain_words keccak p.domain.chain_id p.domain.verifying_contract))
              (concat_words (struct_words keccak (action_of p (params_text params))))
            → Accepted p
        accepted (d, s, a, b, c) = record {
          params = params;
          domain = d;
          struct = s;
          params_ok = e;
          domain_ok = a;
          struct_ok = b;
          agrees = c;
          is_known = k;
        }

    abbrev is_foreign : Bool
    is_foreign =
        not (str_eq p.domain.name cosign_domain_name)
        || not (str_eq p.domain.version cosign_domain_version)

    abbrev is_unknown : Bool
    is_unknown =
        not (p.action == transfer_between_venues)
        && not (p.action == transfer_between_venues_pre_auth)

    known_action : is_unknown ≡ false → p.action ≤ 12
    known_action h = ground arith

    pub verify-Accepted : verify keccak p ≡ verified → Accepted p
    unfolding verify transfer_between_venues_params_hash
    verify-Accepted h = elim (Bool-cases is_foreign) [
      | inl y ↦ cc (rw y at h)
      | inr y ↦ elim (Bool-cases is_unknown) [
        | inl z ↦ cc (rw z at (rw y at h))
        | inr z ↦
            params_cases (concat_words (params_words (params_of p))) (known_action z) refl
              (rw z at (rw y at h))
      ]
    ]
