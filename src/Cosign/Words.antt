-- ===== src/Cosign/Words.antt =====
-- cosign.go: texts of hexadecimal digits, and the 32-byte words of the ABI.
use Prim.Native.Char.{Char, code}
use arca_go_sdk.Prelude.{
  ℕ, zero, suc, ◌+◌, ◌-◌, ◌*◌, ◌/◌, ◌%◌, ◌^◌, String, List, [], ◌∷◌, ◌++◌, length, Option, none,
  some, Bool, ◌&&◌, if◌then◌else◌, leb, ltb, ◌==◌, str_eq, letter_at, to_upper, trim_space,
}
use arca_go_sdk.Prelude.Int.{ℤ, pos, negsuc}
use arca_go_sdk.Money.Micro.{set_string}

-- The UTF-8 bytes of a text of ASCII characters.
unfoldable pub ascii : String → List ℕ
ascii String.[] = []
ascii (String.◌∷◌ c s) = code c ∷ ascii s

unfoldable pub hex_digit : ℕ → Char
unfolding letter_at
hex_digit n = letter_at "0123456789abcdef" n

-- hex.EncodeToString
unfoldable pub encode_hex : List ℕ → String
unfolding hex_digit
encode_hex [] = ""
encode_hex (b ∷ bs) =
    String.◌∷◌ (hex_digit (b / 16)) (String.◌∷◌ (hex_digit (b % 16)) (encode_hex bs))

unfoldable pub digit_value : ℕ → Option ℕ
digit_value c =
    if leb b'0' c && leb c b'9'
    then some (c - b'0')
    else if leb b'a' c && leb c b'f'
    then some (c - b'a' + 10)
    else if leb b'A' c && leb c b'F'
    then some (c - b'A' + 10)
    else none

abbrev pub byte_before : Option ℕ → Option ℕ → Option (List ℕ) → Option (List ℕ)
byte_before (some h) (some l) (some bs) = some ((h * 16 + l) ∷ bs)
byte_before _ _ _ = none

-- hex.DecodeString
unfoldable pub decode_string : String → Option (List ℕ)
unfolding digit_value
decode_string String.[] = some []
decode_string (String.◌∷◌ c String.[]) = none
decode_string (String.◌∷◌ c (String.◌∷◌ d s)) =
    byte_before (digit_value (code c)) (digit_value (code d)) (decode_string s)

-- strings.TrimPrefix(s, "0x"), and with "0X", by the second character.
unfoldable pub trim_zero : ℕ → String → String
trim_zero x String.[] = ""
trim_zero x (String.◌∷◌ c String.[]) = String.◌∷◌ c ""
trim_zero x (String.◌∷◌ c (String.◌∷◌ d s)) =
    if code c == b'0' && code d == x then s else String.◌∷◌ c (String.◌∷◌ d s)

abbrev pub trim_0x : String → String
trim_0x s = trim_zero b'X' (trim_zero b'x' s)

unfoldable pub decode_hex : String → Option (List ℕ)
unfolding trim_space trim_zero decode_string
decode_hex s =
    if str_eq (trim_0x (trim_space s)) "" then none else decode_string (trim_0x (trim_space s))

-- strings.EqualFold, which compares as `to_upper` does where one of the texts has no other letters than
-- hexadecimal digits, as the first one has here.
unfoldable pub hex_equal : String → String → Bool
unfolding trim_zero to_upper
hex_equal a b = str_eq (to_upper (trim_0x a)) (to_upper (trim_0x b))

-- The last `k` bytes of a number, the most significant one first.
unfoldable pub bytes_of : ℕ → ℕ → List ℕ
bytes_of zero n = []
bytes_of (suc k) n = bytes_of k (n / 256) ++ n % 256 ∷ []

-- FillBytes takes the absolute value, and none that is given to it here needs more than 32 bytes.
unfoldable pub abi_uint : ℤ → List ℕ
unfolding bytes_of
abi_uint (pos n) = bytes_of 32 n
abi_uint (negsuc n) = bytes_of 32 (suc n)

-- The number of a decimal text that fits a uint256.
unfoldable pub in_uint256 : Option ℤ → Option ℕ
in_uint256 (some (pos n)) = if ltb n (2 ^ 256) then some n else none
in_uint256 _ = none

unfoldable pub uint256_of : String → Option ℕ
unfolding in_uint256 set_string trim_space
uint256_of s = in_uint256 (set_string (trim_space s))

abbrev pub word_of : Option ℕ → Option (List ℕ)
word_of none = none
word_of (some n) = some (abi_uint (pos n))

unfoldable pub abi_decimal : String → Option (List ℕ)
unfolding uint256_of abi_uint
abi_decimal s = word_of (uint256_of s)

unfoldable pub sized : ℕ → Option (List ℕ) → Option (List ℕ)
sized n none = none
sized n (some raw) = if length raw == n then some raw else none

abbrev pub padded : Option (List ℕ) → Option (List ℕ)
padded none = none
padded (some raw) = some (0 ∷ 0 ∷ 0 ∷ 0 ∷ 0 ∷ 0 ∷ 0 ∷ 0 ∷ 0 ∷ 0 ∷ 0 ∷ 0 ∷ raw)

unfoldable pub abi_address : String → Option (List ℕ)
unfolding sized decode_hex
abi_address s = padded (sized 20 (decode_hex s))

unfoldable pub abi_bytes32 : String → Option (List ℕ)
unfolding sized decode_hex
abi_bytes32 s = sized 32 (decode_hex s)
