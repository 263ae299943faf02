-- ===== src/Prelude/Texts.antt =====
-- Texts as Go's strings package reads them.
use Prim.Native.Char.{Char, code}
use Prim.Native.Nat.{ℕ, zero, suc, ◌-◌}
use Prim.Native.String.{String}
use mathlib.Core.Bool.{Bool, true, false, ◌&&◌, ◌||◌}
use arca_go_sdk.Prelude.Tests.{leb, ◌==◌, if◌then◌else◌}

-- unicode.IsSpace
abbrev pub is_space : ℕ → Bool
is_space c =
    (leb 9 c && leb c 13)
    || (c == 32)
    || (c == 0x85)
    || (c == 0xA0)
    || (c == 0x1680)
    || (leb 0x2000 c && leb c 0x200a)
    || (c == 0x2028)
    || (c == 0x2029)
    || (c == 0x202f)
    || (c == 0x205f)
    || (c == 0x3000)

unfoldable pub trim_left : String → String
trim_left String.[] = ""
trim_left (String.◌∷◌ c s) =
    let rest = trim_left s in if is_space (code c) then rest else String.◌∷◌ c s

abbrev pub is_empty : String → Bool
is_empty String.[] = true
is_empty (String.◌∷◌ c s) = false

unfoldable pub trim_right : String → String
trim_right String.[] = ""
trim_right (String.◌∷◌ c s) =
    let rest = trim_right s in if is_space (code c) && is_empty rest then "" else String.◌∷◌ c rest

-- strings.TrimSpace
unfoldable pub trim_space : String → String
unfolding trim_left trim_right
trim_space s = trim_right (trim_left s)

-- The number of characters.
unfoldable pub size : String → ℕ
size String.[] = 0
size (String.◌∷◌ c s) = suc (size s)

-- The character at a place.
unfoldable pub letter_at : String → ℕ → Char
letter_at String.[] n = "?"
letter_at (String.◌∷◌ c s) zero = c
letter_at (String.◌∷◌ c s) (suc n) = letter_at s n

-- The upper case of ASCII, and of the two other characters whose upper case is an ASCII letter; the
-- texts that this is compared with are ASCII.
unfoldable pub upper_char : Char → Char
unfolding letter_at
upper_char c =
    if leb b'a' (code c) && leb (code c) b'z'
    then letter_at "ABCDEFGHIJKLMNOPQRSTUVWXYZ" (code c - b'a')
    else if code c == 0x131
    then "I"
    else if code c == 0x17F
    then "S"
    else c

-- strings.ToUpper
unfoldable pub to_upper : String → String
unfolding upper_char
to_upper String.[] = ""
to_upper (String.◌∷◌ c s) = String.◌∷◌ (upper_char c) (to_upper s)

-- The lower case of ASCII, and of the two other characters whose lower case is an ASCII letter.
unfoldable pub lower_char : Char → Char
unfolding letter_at
lower_char c =
    if leb b'A' (code c) && leb (code c) b'Z'
    then letter_at "abcdefghijklmnopqrstuvwxyz" (code c - b'A')
    else if code c == 0x130
    then "i"
    else if code c == 0x212A
    then "k"
    else c

-- strings.ToLower, of texts that are compared with ASCII texts.
unfoldable pub to_lower : String → String
unfolding lower_char
to_lower String.[] = ""
to_lower (String.◌∷◌ c s) = String.◌∷◌ (lower_char c) (to_lower s)
