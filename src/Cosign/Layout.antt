-- ===== src/Cosign/Layout.antt =====
-- cosign.go: the words of a preimage have fixed lengths, so its bytes determine them.
use mathlib.Core.List.{head-eq_of_cons-eq, tail-eq_of_cons-eq}
use mathlib.Core.Option.{some-injective}
use arca_go_sdk.Prelude.{
  ℕ, zero, suc, ◌/◌, ◌%◌, ◌^◌, ◌<◌, ◌≡◌, refl, sym, ap, ◌∙◌, String, List, [], ◌∷◌, ◌++◌, length,
  length-append, Option, none, some, true, ltb, ◌==◌, ==_iff, inl, inr, Bool-cases, arith,
  trim_space,
}
use arca_go_sdk.Prelude.Int.{ℤ, pos, negsuc}
use arca_go_sdk.Money.Micro.{set_string}
use arca_go_sdk.Cosign.Words.{
  bytes_of, abi_uint, in_uint256, uint256_of, word_of, abi_decimal, sized, padded, abi_address,
  abi_bytes32, decode_hex,
}
use arca_go_sdk.Cosign.Digest.{concat_words}

-- A word that has this length, if it could be encoded.
abbrev pub HasLength : ℕ → Option (List ℕ) → Type 0
HasLength n none = Unit
HasLength n (some w) = length w ≡ n

abbrev pub HaveLengths : List ℕ → List (Option (List ℕ)) → Type 0
HaveLengths [] [] = Unit
HaveLengths (n ∷ ns) (w ∷ ws) = HasLength n w × HaveLengths ns ws
HaveLengths _ _ = ⊥

pub append-injective :
    (xs ys us vs : List ℕ) → length xs ≡ length ys → xs ++ us ≡ ys ++ vs → (xs ≡ ys) × (us ≡ vs)
append-injective [] [] us vs h e = (refl, e)
append-injective (x ∷ xs) (y ∷ ys) us vs h e =
    let rest = append-injective xs ys us vs (omega (arith, h)) (tail-eq_of_cons-eq e) in
    ((λ i. head-eq_of_cons-eq e i ∷ rest.0 i), rest.1)
append-injective [] (y ∷ ys) us vs h e = absurd (omega (arith, h))
append-injective (x ∷ xs) [] us vs h e = absurd (omega (arith, h))

abbrev append_words : List ℕ → Option (List ℕ) → Option (List ℕ)
append_words w none = none
append_words w (some bs) = some (w ++ bs)

pub none≢some : {A : Type 0} (a : A) → none ≡ some a → ⊥
none≢some a h = cc

append_words-injective :
    (x y : List ℕ) (o u : Option (List ℕ)) (bs : List ℕ)
    → length x ≡ length y
    → append_words x o ≡ some bs
    → append_words y u ≡ some bs
    → (x ≡ y) × ((cs : List ℕ) × (o ≡ some cs) × (u ≡ some cs))
append_words-injective x y none u bs l h k = absurd (none≢some bs h)
append_words-injective x y (some cs) none bs l h k = absurd (none≢some bs k)
append_words-injective x y (some cs) (some ds) bs l h k =
    let e =
      append-injective x y cs ds l
        (some-injective (x ++ cs) bs h ∙ sym (some-injective (y ++ ds) bs k)) in
    (e.0, (cs, refl, ap some (sym e.1)))

-- Words of the same lengths that make the same bytes are the same.
pub concat_words-injective :
    (ns : List ℕ) (ws vs : List (Option (List ℕ))) (bs : List ℕ)
    → HaveLengths ns ws
    → HaveLengths ns vs
    → concat_words ws ≡ some bs
    → concat_words vs ≡ some bs
    → ws ≡ vs
unfolding concat_words
concat_words-injective [] [] [] bs l m h k = refl
concat_words-injective [] [] (v ∷ vs) bs l m h k = absurd m
concat_words-injective [] (w ∷ ws) vs bs l m h k = absurd l
concat_words-injective (n ∷ ns) [] vs bs l m h k = absurd l
concat_words-injective (n ∷ ns) (w ∷ ws) [] bs l m h k = absurd m
concat_words-injective (n ∷ ns) (none ∷ ws) (v ∷ vs) bs l m h k = absurd (none≢some bs h)
concat_words-injective (n ∷ ns) (some w ∷ ws) (none ∷ vs) bs l m h k = absurd (none≢some bs k)
concat_words-injective (n ∷ ns) (some w ∷ ws) (some v ∷ vs) bs l m h k =
    let e = append_words-injective w v (concat_words ws) (concat_words vs) bs (l.0 ∙ sym m.0) h k in
    let rest : ws ≡ vs = concat_words-injective ns ws vs e.1.0 l.1 m.1 e.1.1 e.1.2 in
    λ i. some (e.0 i) ∷ rest i

pub length-bytes_of : (k n : ℕ) → length (bytes_of k n) ≡ k
unfolding bytes_of
length-bytes_of zero n = refl
length-bytes_of (suc k) n =
    length-append (bytes_of k (n / 256)) (n % 256 ∷ []) ∙ omega (arith, length-bytes_of k (n / 256))

pub length-abi_uint : (z : ℤ) → length (abi_uint z) ≡ 32
unfolding abi_uint
length-abi_uint (pos n) = length-bytes_of 32 n
length-abi_uint (negsuc n) = length-bytes_of 32 (suc n)

sized-HasLength : (n : ℕ) (o : Option (List ℕ)) → HasLength n (sized n o)
unfolding sized
sized-HasLength n none = tt
sized-HasLength n (some raw) = elim (Bool-cases (length raw == n)) [
  | inl y ↦ rw y ((==_iff (length raw) n).0 y)
  | inr y ↦ rw y tt
]

padded-HasLength : (o : Option (List ℕ)) → HasLength 20 o → HasLength 32 (padded o)
padded-HasLength none h = tt
padded-HasLength (some raw) h = omega (arith, h)

pub abi_address-HasLength : (s : String) → HasLength 32 (abi_address s)
unfolding abi_address
abi_address-HasLength s =
    padded-HasLength (sized 20 (decode_hex s)) (sized-HasLength 20 (decode_hex s))

pub abi_bytes32-HasLength : (s : String) → HasLength 32 (abi_bytes32 s)
unfolding abi_bytes32
abi_bytes32-HasLength s = sized-HasLength 32 (decode_hex s)

word_of-HasLength : (o : Option ℕ) → HasLength 32 (word_of o)
word_of-HasLength none = tt
word_of-HasLength (some n) = length-abi_uint (pos n)

pub abi_decimal-HasLength : (s : String) → HasLength 32 (abi_decimal s)
unfolding abi_decimal
abi_decimal-HasLength s = word_of-HasLength (uint256_of s)

drop_byte : (k m : ℕ) → m < 256 ^ suc k → m / 256 < 256 ^ k
drop_byte k m h = omega (arith, h)

below_bound : (m n : ℕ) → ltb m n ≡ true → m < n
below_bound m n h = ground arith

bytes_of-injective : (k m n : ℕ) → m < 256 ^ k → n < 256 ^ k → bytes_of k m ≡ bytes_of k n → m ≡ n
unfolding bytes_of
bytes_of-injective zero m n hm hn e = omega arith
bytes_of-injective (suc k) m n hm hn e =
    let parts =
      append-injective (bytes_of k (m / 256)) (bytes_of k (n / 256)) (m % 256 ∷ []) (n % 256 ∷ [])
        (length-bytes_of k (m / 256) ∙ sym (length-bytes_of k (n / 256))) e in
    let low : m % 256 ≡ n % 256 = head-eq_of_cons-eq parts.1 in
    let high : m / 256 ≡ n / 256 =
      bytes_of-injective k (m / 256) (n / 256) (drop_byte k m hm) (drop_byte k n hn) parts.0 in
    omega (arith, low, high)

abbrev pub size_of : ℤ → ℕ
size_of (pos n) = n
size_of (negsuc n) = suc n

abi_uint-bytes_of : (z : ℤ) → abi_uint z ≡ bytes_of 32 (size_of z)
unfolding abi_uint
abi_uint-bytes_of (pos n) = refl
abi_uint-bytes_of (negsuc n) = refl

-- A word of the ABI determines the absolute value of the number.
pub abi_uint-injective :
    (x y : ℤ)
    → size_of x < 2 ^ 256
    → size_of y < 2 ^ 256
    → abi_uint x ≡ abi_uint y
    → size_of x ≡ size_of y
abi_uint-injective x y hx hy e =
    bytes_of-injective 32 (size_of x) (size_of y) hx hy
      (sym (abi_uint-bytes_of x) ∙ e ∙ abi_uint-bytes_of y)

InRange : Option ℕ → Type 0
InRange none = Unit
InRange (some n) = n < 2 ^ 256

in_uint256-InRange : (o : Option ℤ) → InRange (in_uint256 o)
unfolding in_uint256 InRange
in_uint256-InRange none = tt
in_uint256-InRange (some (negsuc n)) = tt
in_uint256-InRange (some (pos n)) = elim (Bool-cases (ltb n (2 ^ 256))) [
  | inl y ↦ rw y (below_bound n (2 ^ 256) y)
  | inr y ↦ rw y tt
]

word_of-injective : (o u : Option ℕ) → InRange o → InRange u → word_of o ≡ word_of u → o ≡ u
unfolding InRange
word_of-injective none none h k e = refl
word_of-injective none (some n) h k e = absurd (none≢some _ e)
word_of-injective (some m) none h k e = absurd (none≢some _ (sym e))
word_of-injective (some m) (some n) h k e =
    ap some (abi_uint-injective (pos m) (pos n) h k (some-injective _ _ e))

-- A word determines the number of a decimal text.
pub abi_decimal-injective :
    (s t : String) → abi_decimal s ≡ abi_decimal t → uint256_of s ≡ uint256_of t
unfolding abi_decimal uint256_of
abi_decimal-injective s t e =
    word_of-injective (uint256_of s) (uint256_of t) (in_uint256-InRange (set_string (trim_space s)))
      (in_uint256-InRange (set_string (trim_space t))) e
