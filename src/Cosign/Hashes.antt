-- ===== src/Cosign/Hashes.antt =====
-- cosign.go: equal hashes are hashes of equal bytes, or else a collision is at hand.
use mathlib.Core.List.{head-eq_of_cons-eq, tail-eq_of_cons-eq}
use mathlib.Core.Option.{some-injective}
use arca_go_sdk.Prelude.{
  ℕ, ◌≡◌, ◌≢◌, ◌⊎◌, inl, inr, refl, sym, ap, ◌∙◌, String, List, [], ◌∷◌, All, length, Option, none,
  some, true, ◌==◌, ==_iff, eq_iff, Bool-cases, to_upper, arith,
}
use arca_go_sdk.Cosign.Words.{
  encode_hex, hex_equal, trim_zero, trim_0x, abi_bytes32, sized, decode_hex, decode_string,
}
use arca_go_sdk.Cosign.Digest.{prefixed, hex_hash, hashed, separator_word}
use arca_go_sdk.Cosign.Coding.{IsByte, decode-upper, decode_hex-prefixed, trim_zero-encode}

same_bytes : (xs ys : List ℕ) → (xs ≡ ys) ⊎ (xs ≢ ys)
same_bytes [] [] = inl refl
same_bytes [] (y ∷ ys) = inr (λ h. cc)
same_bytes (x ∷ xs) [] = inr (λ h. cc)
same_bytes (x ∷ xs) (y ∷ ys) = elim (Bool-cases (x == y)) [
  | inl e ↦ elim (same_bytes xs ys) [
    | inl r ↦ inl (λ i. (==_iff x y).0 e i ∷ r i)
    | inr n ↦ inr (λ h. n (tail-eq_of_cons-eq h))
  ]
  | inr n ↦ inr (λ h. cc (n, (==_iff x y).1 (head-eq_of_cons-eq h)))
]

-- A word of 32 bytes.
pub record IsWord (bs : List ℕ) : Type 0 where
  pub is_32 : length bs ≡ 32
  pub are_bytes : All IsByte bs

-- These two are different and have one hash.
pub record Collide (keccak : List ℕ → List ℕ) (one other : List ℕ) : Type 0 where
  pub one_hash : keccak one ≡ keccak other
  pub apart : one ≢ other

-- `keccak` is a hash of 32 bytes.
module _ (keccak : List ℕ → List ℕ) (hashes : (bs : List ℕ) → IsWord (keccak bs)) where
  pub peel : (xs ys : List ℕ) → keccak xs ≡ keccak ys → (xs ≡ ys) ⊎ Collide keccak xs ys
  peel xs ys h = elim (same_bytes xs ys) [
    | inl e ↦ inl e
    | inr n ↦ inr (record { one_hash = h; apart = n })
  ]

  pub unless :
      {A : Type 0} {B : Type 0} {C : Type 0} {D : Type 0} → A ⊎ D → (D → C) → (A → B ⊎ C) → B ⊎ C
  unless (inl a) g f = f a
  unless (inr c) g f = inr (g c)

  -- The word that a hash in hexadecimal digits is read back as.
  pub read_back : (bs : List ℕ) → abi_bytes32 (prefixed (encode_hex (keccak bs))) ≡ some (keccak bs)
  unfolding abi_bytes32 sized
  read_back bs = word_back (keccak bs) (hashes bs)
    where
      word_back : (w : List ℕ) → IsWord w → sized 32 (decode_hex (prefixed (encode_hex w))) ≡ some w
      word_back [] h = absurd (omega (arith, h.is_32))
      word_back (b ∷ bs) h =
          rw (decode_hex-prefixed b bs h.are_bytes)
            (rw ((==_iff (length (b ∷ bs)) 32).1 h.is_32) refl)

  -- Two hashes that both equal one text are the same.
  pub same_hash :
      (xs ys : List ℕ) (text : String)
      → hex_equal (prefixed (encode_hex (keccak xs))) text ≡ true
      → hex_equal (prefixed (encode_hex (keccak ys))) text ≡ true
      → keccak xs ≡ keccak ys
  unfolding hex_equal trim_zero
  same_hash xs ys text h k = some-injective (keccak xs) (keccak ys) (
      sym (decode-upper (keccak xs) (hashes xs).are_bytes)
      ∙ ap decode_string (upper xs h ∙ sym (upper ys k))
      ∙ decode-upper (keccak ys) (hashes ys).are_bytes)
    where
      upper :
          (zs : List ℕ)
          → hex_equal (prefixed (encode_hex (keccak zs))) text ≡ true
          → to_upper (encode_hex (keccak zs)) ≡ to_upper (trim_0x text)
      upper zs e =
          ap to_upper (sym (trim_zero-encode (keccak zs) (hashes zs).are_bytes))
          ∙ (eq_iff (to_upper (trim_0x (prefixed (encode_hex (keccak zs)))))
                (to_upper (trim_0x text))).0
              e

  pub hash_word : (o : Option (List ℕ)) → separator_word (hex_hash keccak o) ≡ hashed keccak o
  hash_word none = refl
  hash_word (some bs) = read_back bs
