-- ===== src/Cosign/Keys.antt =====
-- cosign.go and recovery.go: signatures made with a key at hand, and checksummed addresses.
use Prim.Native.Char.{Char, code}
use mathlib.Core.Option.{some-injective}
use arca_go_sdk.Prelude.{
  ℕ, zero, suc, ◌/◌, ◌%◌, ◌<◌, ◌≡◌, ◌↔◌, refl, sym, ap, ◌∙◌, String, List, [], ◌∷◌, ◌++◌, All,
  length, Option, none, some, Bool, ◌&&◌, ◌||◌, if◌then◌else◌, leb, ◌==◌, ==_iff, upper_char, inl,
  inr, Bool-cases, Option-cases, ◌≤◌, arith,
}
use arca_go_sdk.Cosign.Words.{
  hex_digit, encode_hex, digit_value, decode_string, decode_hex, abi_bytes32, ascii, sized,
}
use arca_go_sdk.Cosign.Types.{
  VenueHopProposal, Verdict, verified, foreign_domain, foreign_action, malformed, params_mismatch,
  digest_mismatch,
}
use arca_go_sdk.Cosign.Digest.{prefixed, verify}
use arca_go_sdk.Cosign.Coding.{IsByte, digit-read, upper_digit-read}

-- `[v ‖ r ‖ s]` as `[r ‖ s ‖ v]`.
unfoldable pub rotated : List ℕ → List ℕ
rotated [] = []
rotated (v ∷ rs) = rs ++ v ∷ []

-- `sign_compact` is SignCompact of secp256k1, for a key and a digest.
module _ (sign_compact : List ℕ → List ℕ → List ℕ) where
  unfoldable pub compact_text : List ℕ → Option String
  unfolding rotated encode_hex
  compact_text compact =
      if length compact == 65 then some (prefixed (encode_hex (rotated compact))) else none

  abbrev pub with_digest : List ℕ → Option (List ℕ) → Option String
  with_digest key none = none
  with_digest key (some digest) = compact_text (sign_compact key digest)

  abbrev pub with_key : String → Option (List ℕ) → Option String
  with_key digest none = none
  with_key digest (some key) =
      if length key == 32 then with_digest key (abi_bytes32 digest) else none

  unfoldable pub sign_cosign_digest : String → String → Option String
  unfolding decode_hex abi_bytes32 compact_text
  sign_cosign_digest private_key digest = with_key digest (decode_hex private_key)

  unfoldable pub sign_venue_hop : (List ℕ → List ℕ) → String → VenueHopProposal → Option String
  unfolding sign_cosign_digest verify
  sign_venue_hop keccak private_key p = elim (verify keccak p) [
    | verified ↦ sign_cosign_digest private_key p.digest
    | _ ↦ none
  ]

-- `hash[i] >= '8' && hash[i] <= '9' || (hash[i] >= 'a' && hash[i] <= 'f')`
abbrev is_high : ℕ → Bool
is_high h = (leb b'8' h && leb h b'9') || (leb b'a' h && leb h b'f')

abbrev is_letter : ℕ → Bool
is_letter c = leb b'a' c && leb c b'f'

unfoldable pub raised : Char → Char → Char
unfolding upper_char
raised c h = if is_high (code h) then (if is_letter (code c) then upper_char c else c) else c

-- The loop, for as many characters as are left of 40. The text of a hash has 64 digits.
unfoldable pub checksummed : ℕ → String → String → String
unfolding raised
checksummed zero address hash = ""
checksummed (suc n) String.[] hash = ""
checksummed (suc n) (String.◌∷◌ c s) String.[] = ""
checksummed (suc n) (String.◌∷◌ c s) (String.◌∷◌ h hs) =
    String.◌∷◌ (raised c h) (checksummed n s hs)

unfoldable pub checksum_address : (List ℕ → List ℕ) → String → String
unfolding checksummed encode_hex ascii
checksum_address keccak address =
    prefixed (checksummed 40 address (encode_hex (keccak (ascii address))))

raised-read : (n : ℕ) (h : Char) → n < 16 → digit_value (code (raised (hex_digit n) h)) ≡ some n
unfolding raised
raised-read n h l = elim (Bool-cases (is_high (code h))) [
  | inl y ↦ rw y (elim (Bool-cases (is_letter (code (hex_digit n)))) [
    | inl z ↦ rw z (upper_digit-read n l)
    | inr z ↦ rw z (digit-read n l)
  ])
  | inr y ↦ rw y (digit-read n l)
]

abbrev twice : ℕ → ℕ
twice zero = zero
twice (suc n) = suc (suc (twice n))

-- Two digits a byte.
checksummed-read :
    (n : ℕ) (bs hs : List ℕ)
    → All IsByte bs
    → length bs ≡ n
    → n ≤ length hs
    → decode_string (checksummed (twice n) (encode_hex bs) (encode_hex hs)) ≡ some bs
unfolding checksummed encode_hex decode_string
checksummed-read zero [] hs p l m = refl
checksummed-read zero (b ∷ bs) hs p l m = absurd (omega (arith, l))
checksummed-read (suc n) [] hs p l m = absurd (omega (arith, l))
checksummed-read (suc n) (b ∷ bs) [] p l m = absurd (omega (arith, m))
checksummed-read (suc n) (b ∷ bs) (h ∷ hs) p l m =
    rw (raised-read (b / 16) (hex_digit (h / 16)) (omega (arith, p.0))) (
      rw (raised-read (b % 16) (hex_digit (h % 16)) (omega arith)) (
        rw (checksummed-read n bs hs p.1 (omega (arith, l)) (omega (arith, m)))
          (ap (λ (t : ℕ). some (t ∷ bs)) (omega arith))))

-- The checksum of an address of 20 bytes, in lower case, is a text behind "0x" that reads back as those
-- bytes: it changes letters in case only.
pub checksum_address-decode :
    (keccak : List ℕ → List ℕ) (bs : List ℕ)
    → ((cs : List ℕ) → length (keccak cs) ≡ 32)
    → All IsByte bs
    → length bs ≡ 20
    → (t : String) × (checksum_address keccak (encode_hex bs) ≡ prefixed t)
      × (decode_string t ≡ some bs)
unfolding checksum_address
checksum_address-decode keccak bs hashes p l = (
  checksummed 40 (encode_hex bs) (encode_hex (keccak (ascii (encode_hex bs)))),
  refl,
  checksummed-read 20 bs (keccak (ascii (encode_hex bs))) p l
      (omega (arith, hashes (ascii (encode_hex bs)))),
)

-- The text of a signature of a key of 32 bytes for a digest of 32 bytes: SignCompact gives the recovery
-- byte first, and the text has it last, behind the 64 bytes of r and s.
pub record IsMade (sign_compact : List ℕ → List ℕ → List ℕ) (private_key digest s : String)
    : Type 0 where
  pub key : List ℕ
  pub bytes : List ℕ
  pub recovery : ℕ
  pub r_and_s : List ℕ
  pub is_key : decode_hex private_key ≡ some key
  pub key_size : length key ≡ 32
  pub is_digest : decode_hex digest ≡ some bytes
  pub digest_size : length bytes ≡ 32
  pub is_signature : sign_compact key bytes ≡ recovery ∷ r_and_s
  pub size : length r_and_s ≡ 64
  pub is_text : s ≡ String.◌∷◌ "0" (String.◌∷◌ "x" (encode_hex (r_and_s ++ recovery ∷ [])))

abi_bytes32_parts :
    (t : String) (bs : List ℕ) (o : Option (List ℕ))
    → decode_hex t ≡ o
    → abi_bytes32 t ≡ some bs
    → (decode_hex t ≡ some bs) × (length bs ≡ 32)
unfolding abi_bytes32 sized
abi_bytes32_parts t bs none h e = cc (rw h at e)
abi_bytes32_parts t bs (some cs) h e = elim (Bool-cases (length cs == 32)) [
  | inr y ↦ cc (rw y at (rw h at e))
  | inl y ↦
      let same : cs ≡ bs = some-injective cs bs (rw y at (rw h at e)) in
      (h ∙ ap some same, sym (ap length same) ∙ (==_iff (length cs) 32).0 y)
]

module _ (sign_compact : List ℕ → List ℕ → List ℕ) where
  text-IsMade :
      (private_key digest s : String) (key bytes sig : List ℕ)
      → decode_hex private_key ≡ some key
      → length key ≡ 32
      → abi_bytes32 digest ≡ some bytes
      → sign_compact key bytes ≡ sig
      → length sig ≡ 65
      → some (prefixed (encode_hex (rotated sig))) ≡ some s
      → IsMade sign_compact private_key digest s
  unfolding rotated
  text-IsMade private_key digest s key bytes [] h k d g l e = absurd (omega (arith, l))
  text-IsMade private_key digest s key bytes (v ∷ rs) h k d g l e =
      let parts : (decode_hex digest ≡ some bytes) × (length bytes ≡ 32) =
        abi_bytes32_parts digest bytes (decode_hex digest) refl d in
      record {
        key = key;
        bytes = bytes;
        recovery = v;
        r_and_s = rs;
        is_key = h;
        key_size = k;
        is_digest = parts.0;
        digest_size = parts.1;
        is_signature = g;
        size = omega (arith, l);
        is_text = sym (some-injective _ _ e);
      }

  with_key-IsMade :
      (private_key digest s : String) (o u : Option (List ℕ))
      → decode_hex private_key ≡ o
      → abi_bytes32 digest ≡ u
      → with_key sign_compact digest o ≡ some s
      → IsMade sign_compact private_key digest s
  unfolding compact_text
  with_key-IsMade private_key digest s none u h k e = cc
  with_key-IsMade private_key digest s (some key) u h k e = elim (Bool-cases (length key == 32)) [
    | inr y ↦ cc (rw y at e)
    | inl y ↦ elim (Option-cases u) [
      | inl z ↦ cc (rw (k ∙ z) at (rw y at e))
      | inr (bytes, z) ↦ elim (Bool-cases (length (sign_compact key bytes) == 65)) [
        | inr w ↦ cc (rw w at (rw (k ∙ z) at (rw y at e)))
        | inl w ↦
            text-IsMade private_key digest s key bytes (sign_compact key bytes) h
              ((==_iff (length key) 32).0 y) (k ∙ z) refl
              ((==_iff (length (sign_compact key bytes)) 65).0 w)
              (rw w at (rw (k ∙ z) at (rw y at e)))
      ]
    ]
  ]

  made-signed :
      (private_key digest s : String)
      → IsMade sign_compact private_key digest s
      → sign_cosign_digest sign_compact private_key digest ≡ some s
  unfolding sign_cosign_digest compact_text rotated abi_bytes32 sized
  made-signed private_key digest s m = rw m.is_key (
      rw ((==_iff (length m.key) 32).1 m.key_size) (
        rw m.is_digest (
          rw ((==_iff (length m.bytes) 32).1 m.digest_size) (
            rw m.is_signature (
              rw ((==_iff (suc (length m.r_and_s)) 65).1 (ap suc m.size))
                (ap some (sym m.is_text)))))))

  -- A key at hand signs a proposal exactly if it is verified, the key and the digest have 32 bytes and
  -- the signature 65; the text is that of the signature, with r and s first and the recovery byte, which
  -- SignCompact gives first, last.
  pub sign_venue_hop_sound :
      (keccak : List ℕ → List ℕ) (private_key : String) (p : VenueHopProposal) (s : String)
      → (sign_venue_hop sign_compact keccak private_key p ≡ some s)
        ↔ ((verify keccak p ≡ verified) × IsMade sign_compact private_key p.digest s)
  unfolding sign_venue_hop sign_cosign_digest
  sign_venue_hop_sound keccak private_key p s = (
    by_verdict (verify keccak p) refl,
    λ (e, m). rw (sign_venue_hop, e) (made-signed private_key p.digest s m),
  )
    where
      by_verdict :
          (v : Verdict)
          → verify keccak p ≡ v
          → (elim v [ verified ↦ sign_cosign_digest sign_compact private_key p.digest | _ ↦ none ])
            ≡ some s
          → (verify keccak p ≡ verified) × IsMade sign_compact private_key p.digest s
      by_verdict verified e h = (
        e,
        with_key-IsMade private_key p.digest s (decode_hex private_key) (abi_bytes32 p.digest) refl
            refl h,
      )
      by_verdict foreign_domain e h = cc
      by_verdict foreign_action e h = cc
      by_verdict malformed e h = cc
      by_verdict params_mismatch e h = cc
      by_verdict digest_mismatch e h = cc
