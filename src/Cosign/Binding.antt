-- ===== src/Cosign/Binding.antt =====
-- cosign.go: what a digest commits to.
use mathlib.Core.List.{tail-eq_of_cons-eq}
use mathlib.Core.Option.{some-injective}
use arca_go_sdk.Prelude.{
  ℕ, zero, suc, ◌≤◌, ◌^◌, ◌≡◌, ◌⊎◌, inl, sym, ap, ◌∙◌, subst, String, List, [], ◌∷◌, ◌++◌, length,
  Option, none, some, true, arith,
}
use arca_go_sdk.Prelude.Int.{ℤ, pos}
use arca_go_sdk.Cosign.Words.{encode_hex, hex_equal, uint256_of, abi_address, abi_bytes32}
use arca_go_sdk.Cosign.Types.{
  VenueHopProposal, OperatorAction, TransferBetweenVenuesParams, verified,
}
use arca_go_sdk.Cosign.Digest.{
  concat_words, params_words, prefixed, domain_words, eip712_domain_typehash,
  operator_action_typehash, struct_words, params_of, action_of, verify,
}
use arca_go_sdk.Cosign.Hashes.{IsWord, Collide, peel, unless, same_hash, hash_word}
use arca_go_sdk.Cosign.Accepts.{Accepted, preimage, params_text, verify-Accepted}
use arca_go_sdk.Cosign.Layout.{
  append-injective, HaveLengths, concat_words-injective, length-abi_uint, abi_address-HasLength,
  abi_bytes32-HasLength, abi_decimal-HasLength, size_of, abi_uint-injective, abi_decimal-injective,
}

-- The two proposals say the same in every field that a digest covers.
pub record SameAction (p q : VenueHopProposal) : Type 0 where
  pub chain_id : size_of p.domain.chain_id ≡ size_of q.domain.chain_id
  pub kernel : abi_address p.domain.verifying_contract ≡ abi_address q.domain.verifying_contract
  pub action : p.action ≡ q.action
  pub boundary : abi_bytes32 p.boundary_key ≡ abi_bytes32 q.boundary_key
  pub target_boundary : abi_bytes32 p.target_boundary_key ≡ abi_bytes32 q.target_boundary_key
  pub from_venue : abi_address p.from_venue ≡ abi_address q.from_venue
  pub to_venue : abi_address p.to_venue ≡ abi_address q.to_venue
  pub account : abi_bytes32 p.to_venue_account_key ≡ abi_bytes32 q.to_venue_account_key
  pub token : abi_address p.token ≡ abi_address q.token
  pub amount : uint256_of p.amount_raw ≡ uint256_of q.amount_raw
  pub ref : abi_bytes32 p.ref ≡ abi_bytes32 q.ref
  pub nonce : uint256_of p.nonce ≡ uint256_of q.nonce
  pub deadline : size_of p.deadline ≡ size_of q.deadline

-- Two different parts of what the two proposals are hashed from, which have one hash: the encoded
-- parameters, the domains, the structs, or what the digests themselves are the hash of.
pub data Collision (keccak : List ℕ → List ℕ) (p q : VenueHopProposal) : Type 0 where
  of_params :
      (a : Accepted keccak p) (b : Accepted keccak q)
      → Collide keccak a.params b.params
      → Collision keccak p q
  of_domains :
      (a : Accepted keccak p) (b : Accepted keccak q)
      → Collide keccak a.domain b.domain
      → Collision keccak p q
  of_structs :
      (a : Accepted keccak p) (b : Accepted keccak q)
      → Collide keccak a.struct b.struct
      → Collision keccak p q
  of_digests :
      (a : Accepted keccak p) (b : Accepted keccak q)
      → Collide keccak (preimage keccak a.domain a.struct) (preimage keccak b.domain b.struct)
      → Collision keccak p q

-- Go's int64.
abbrev pub IsInt64 : ℤ → Type 0
IsInt64 z = size_of z ≤ 2 ^ 63

abbrev nth_word : ℕ → List (Option (List ℕ)) → Option (List ℕ)
nth_word n [] = none
nth_word zero (w ∷ ws) = w
nth_word (suc n) (w ∷ ws) = nth_word n ws

module _ (keccak : List ℕ → List ℕ) (hashes : (bs : List ℕ) → IsWord (keccak bs)) where
  typehash_length : (bs : List ℕ) → length (keccak bs) ≡ 32
  typehash_length bs = (hashes bs).is_32

  abbrev word_lengths : List ℕ
  word_lengths = 32 ∷ 32 ∷ 32 ∷ 32 ∷ 32 ∷ 32 ∷ 32 ∷ 32 ∷ []

  params-HaveLengths : (t : TransferBetweenVenuesParams) → HaveLengths word_lengths (params_words t)
  unfolding params_words
  params-HaveLengths t = (
    abi_address-HasLength t.from_venue,
    (
      abi_bytes32-HasLength t.from_boundary,
      (
        abi_bytes32-HasLength t.to_boundary,
        (
          abi_address-HasLength t.to_venue,
          (
            abi_bytes32-HasLength t.to_venue_account_id,
            (
              abi_address-HasLength t.token,
              (abi_decimal-HasLength t.amount, (abi_bytes32-HasLength t.ref, tt)),
            ),
          ),
        ),
      ),
    ),
  )

  domain-HaveLengths :
      (c : ℤ) (k : String) → HaveLengths (32 ∷ 32 ∷ 32 ∷ 32 ∷ 32 ∷ []) (domain_words keccak c k)
  unfolding domain_words eip712_domain_typehash
  domain-HaveLengths c k = (
    typehash_length _,
    (typehash_length _, (typehash_length _, (length-abi_uint c, (abi_address-HasLength k, tt)))),
  )

  struct-HaveLengths :
      (a : OperatorAction) → HaveLengths (32 ∷ 32 ∷ 32 ∷ 32 ∷ 32 ∷ 32 ∷ []) (struct_words keccak a)
  unfolding struct_words operator_action_typehash
  struct-HaveLengths a = (
    typehash_length _,
    (
      length-abi_uint (pos a.action),
      (
        abi_bytes32-HasLength a.boundary,
        (
          abi_bytes32-HasLength a.params_hash,
          (abi_decimal-HasLength a.nonce, (length-abi_uint a.deadline, tt)),
        ),
      ),
    ),
  )

  module _ (p q : VenueHopProposal) where
    same_params :
        (w : List ℕ)
        → concat_words (params_words (params_of p)) ≡ some w
        → concat_words (params_words (params_of q)) ≡ some w
        → params_words (params_of p) ≡ params_words (params_of q)
    same_params w h k =
        concat_words-injective word_lengths (params_words (params_of p))
          (params_words (params_of q)) w (params-HaveLengths (params_of p))
          (params-HaveLengths (params_of q)) h k

    -- The hashes that the digest is made of.
    same_parts :
        (a : Accepted keccak p) (b : Accepted keccak q)
        → preimage keccak a.domain a.struct ≡ preimage keccak b.domain b.struct
        → (keccak a.domain ≡ keccak b.domain) × (keccak a.struct ≡ keccak b.struct)
    same_parts a b e =
        let tails =
          append-injective (keccak a.domain) (keccak b.domain) (keccak a.struct ++ [])
            (keccak b.struct ++ []) (typehash_length a.domain ∙ sym (typehash_length b.domain))
            (tail-eq_of_cons-eq (tail-eq_of_cons-eq e)) in
        (
          tails.0,
          (append-injective (keccak a.struct) (keccak b.struct) [] []
              (typehash_length a.struct ∙ sym (typehash_length b.struct)) tails.1).0,
        )

    params_word : (params : List ℕ) → abi_bytes32 (params_text keccak params) ≡ some (keccak params)
    params_word params = hash_word keccak hashes (some params)

    same_fields :
        (a : Accepted keccak p) (b : Accepted keccak q)
        → IsInt64 p.domain.chain_id
        → IsInt64 q.domain.chain_id
        → IsInt64 p.deadline
        → IsInt64 q.deadline
        → domain_words keccak p.domain.chain_id p.domain.verifying_contract
          ≡ domain_words keccak q.domain.chain_id q.domain.verifying_contract
        → struct_words keccak (action_of p (params_text keccak a.params))
          ≡ struct_words keccak (action_of q (params_text keccak b.params))
        → params_words (params_of p) ≡ params_words (params_of q)
        → SameAction p q
    unfolding domain_words struct_words params_words
    same_fields a b cp cq dp dq d s w = record {
      chain_id =
          abi_uint-injective p.domain.chain_id q.domain.chain_id (omega (arith, cp))
            (omega (arith, cq)) (some-injective _ _ (ap (nth_word 3) d));
      kernel = ap (nth_word 4) d;
      action =
          abi_uint-injective (pos p.action) (pos q.action) (omega (arith, a.is_known))
            (omega (arith, b.is_known)) (some-injective _ _ (ap (nth_word 1) s));
      boundary = ap (nth_word 2) s;
      nonce = abi_decimal-injective p.nonce q.nonce (ap (nth_word 4) s);
      deadline =
          abi_uint-injective p.deadline q.deadline (omega (arith, dp)) (omega (arith, dq))
            (some-injective _ _ (ap (nth_word 5) s));
      from_venue = ap (nth_word 0) w;
      target_boundary = ap (nth_word 2) w;
      to_venue = ap (nth_word 3) w;
      account = ap (nth_word 4) w;
      token = ap (nth_word 5) w;
      amount = abi_decimal-injective p.amount_raw q.amount_raw (ap (nth_word 6) w);
      ref = ap (nth_word 7) w;
    }

    same_domains :
        (a : Accepted keccak p) (b : Accepted keccak q)
        → a.domain ≡ b.domain
        → domain_words keccak p.domain.chain_id p.domain.verifying_contract
          ≡ domain_words keccak q.domain.chain_id q.domain.verifying_contract
    same_domains a b e =
        concat_words-injective (32 ∷ 32 ∷ 32 ∷ 32 ∷ 32 ∷ [])
          (domain_words keccak p.domain.chain_id p.domain.verifying_contract)
          (domain_words keccak q.domain.chain_id q.domain.verifying_contract) b.domain
          (domain-HaveLengths p.domain.chain_id p.domain.verifying_contract)
          (domain-HaveLengths q.domain.chain_id q.domain.verifying_contract)
          (a.domain_ok ∙ ap some e) b.domain_ok

    same_structs :
        (a : Accepted keccak p) (b : Accepted keccak q)
        → a.struct ≡ b.struct
        → struct_words keccak (action_of p (params_text keccak a.params))
          ≡ struct_words keccak (action_of q (params_text keccak b.params))
    same_structs a b e =
        concat_words-injective (32 ∷ 32 ∷ 32 ∷ 32 ∷ 32 ∷ 32 ∷ [])
          (struct_words keccak (action_of p (params_text keccak a.params)))
          (struct_words keccak (action_of q (params_text keccak b.params))) b.struct
          (struct-HaveLengths (action_of p (params_text keccak a.params)))
          (struct-HaveLengths (action_of q (params_text keccak b.params))) (a.struct_ok ∙ ap some e)
          b.struct_ok

    params_hashes :
        (a : Accepted keccak p) (b : Accepted keccak q)
        → struct_words keccak (action_of p (params_text keccak a.params))
          ≡ struct_words keccak (action_of q (params_text keccak b.params))
        → keccak a.params ≡ keccak b.params
    unfolding struct_words
    params_hashes a b e =
        some-injective (keccak a.params) (keccak b.params)
          (sym (params_word a.params) ∙ ap (nth_word 3) e ∙ params_word b.params)

    -- Two proposals that are verified and have the same digest say the same in every field that the
    -- digest covers: the kernel and its chain, the action, both boundaries and venues, the account, the
    -- token, the amount, the ref, the nonce and the deadline; or else the encodings of the two that are
    -- hashed (the parameters, the domains, the structs or what the digests are made of) are different
    -- and have one hash. Of the chain and the deadline, which are int64, that is the absolute value.
    pub verify-SameAction :
        verify keccak p ≡ verified
        → verify keccak q ≡ verified
        → p.digest ≡ q.digest
        → IsInt64 p.domain.chain_id
        → IsInt64 q.domain.chain_id
        → IsInt64 p.deadline
        → IsInt64 q.deadline
        → SameAction p q ⊎ Collision keccak p q
    verify-SameAction hp hq e cp cq dp dq =
        let a : Accepted keccak p = verify-Accepted keccak hashes p hp in
        let b : Accepted keccak q = verify-Accepted keccak hashes q hq in
        let digests =
          same_hash keccak hashes (preimage keccak a.domain a.struct)
            (preimage keccak b.domain b.struct) q.digest
            (subst
              (λ (t : String).
                hex_equal (prefixed (encode_hex (keccak (preimage keccak a.domain a.struct)))) t
                ≡ true)
              e a.agrees)
            b.agrees in
        unless keccak hashes (peel keccak hashes _ _ digests) (Collision.of_digests a b) (λ parts.
          let hashes_of = same_parts a b parts in
          unless keccak hashes (peel keccak hashes _ _ hashes_of.0) (Collision.of_domains a b)
            (λ domains.
              unless keccak hashes (peel keccak hashes _ _ hashes_of.1) (Collision.of_structs a b)
                (λ structs.
                  let s = same_structs a b structs in
                  unless keccak hashes (peel keccak hashes _ _ (params_hashes a b s))
                    (Collision.of_params a b)
                    (λ params. inl (
                      same_fields a b cp cq dp dq (same_domains a b domains) s
                        (same_params b.params (a.params_ok ∙ ap some params) b.params_ok))))))
