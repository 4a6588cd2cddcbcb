-- ===== src/Text/Encoding.antt =====
-- UTF-8 and base64: Go's `unicode/utf8`, `strings.ToValidUTF8` and `encoding/base64`.
pub mod Valid
use gateway_service.Prelude.{
  ℕ, zero, suc, ◌+◌, ◌-◌, ◌*◌, ◌/◌, ◌%◌, Bool, true, false, ◌&&◌, ◌||◌, Option, none, some, List,
  [], ◌∷◌, ◌++◌, ltb, leb, ◌==◌, if◌then◌else◌, ◌>>=◌,
}
use gateway_service.Text.{Str}

is_cont : ℕ → Bool
is_cont c = leb 0x80 c && leb c 0xbf

width_2 : ℕ → ℕ → ℕ
unfolding is_cont
width_2 a b = if leb 0xc2 a && leb a 0xdf && is_cont b then 2 else 0

width_3 : ℕ → ℕ → ℕ → ℕ
unfolding is_cont
width_3 a b c =
    if is_cont c
      && (a == 0xe0 && leb 0xa0 b && leb b 0xbf
          || (leb 0xe1 a && leb a 0xec || leb 0xee a && leb a 0xef) && is_cont b
          || a == 0xed && leb 0x80 b && leb b 0x9f)
    then 3
    else 0

width_4 : ℕ → ℕ → ℕ → ℕ → ℕ
unfolding is_cont
width_4 a b c d =
    if is_cont c
      && is_cont d
      && (a == 0xf0 && leb 0x90 b && leb b 0xbf
          || leb 0xf1 a && leb a 0xf3 && is_cont b
          || a == 0xf4 && leb 0x80 b && leb b 0x8f)
    then 4
    else 0

-- The bytes of the rune that a text starts with, 0 where its encoding is invalid.
rune_width : Str → ℕ
unfolding width_2 width_3 width_4
rune_width [] = 0
rune_width (a ∷ []) = if ltb a 0x80 then 1 else 0
rune_width (a ∷ b ∷ []) = if ltb a 0x80 then 1 else width_2 a b
rune_width (a ∷ b ∷ c ∷ []) = if ltb a 0x80 then 1 else width_2 a b + width_3 a b c
rune_width (a ∷ b ∷ c ∷ d ∷ s) =
    if ltb a 0x80 then 1 else width_2 a b + width_3 a b c + width_4 a b c d

-- The number counts bytes of a rune still to be read.
valid_from : ℕ → Str → Bool
unfolding rune_width
valid_from n [] = true
valid_from (suc n) (a ∷ s) = valid_from n s
valid_from zero (a ∷ s) = elim (rune_width (a ∷ s)) [ zero ↦ false | suc n ↦ valid_from n s ]

-- utf8.Valid, utf8.ValidString
unfoldable pub utf8_valid : Str → Bool
unfolding valid_from
utf8_valid s = valid_from 0 s

to_valid_from : ℕ → Str → Str
unfolding rune_width
to_valid_from n [] = []
to_valid_from (suc n) (a ∷ s) = a ∷ to_valid_from n s
to_valid_from zero (a ∷ s) = elim (rune_width (a ∷ s)) [
  | zero ↦ to_valid_from 0 s
  | suc n ↦ a ∷ to_valid_from n s
]

-- strings.ToValidUTF8 with an empty replacement
unfoldable pub to_valid_utf8 : Str → Str
unfolding to_valid_from
to_valid_utf8 s = to_valid_from 0 s

-- The character of six bits, in base64.StdEncoding.
base64_char : ℕ → ℕ
base64_char n =
    if ltb n 26
    then b'A' + n
    else if ltb n 52
    then b'a' + (n - 26)
    else if ltb n 62
    then b'0' + (n - 52)
    else if n == 62
    then b'+'
    else b'/'

-- base64.StdEncoding.EncodeToString
unfoldable pub base64_encode : Str → Str
unfolding base64_char
base64_encode [] = []
base64_encode (a ∷ []) = base64_char (a / 4) ∷ base64_char (a % 4 * 16) ∷ b'=' ∷ b'=' ∷ []
base64_encode (a ∷ b ∷ []) =
    base64_char (a / 4) ∷ base64_char (a % 4 * 16 + b / 16) ∷ base64_char (b % 16 * 4) ∷ b'=' ∷ []
base64_encode (a ∷ b ∷ c ∷ s) =
    base64_char (a / 4)
    ∷ base64_char (a % 4 * 16 + b / 16)
    ∷ base64_char (b % 16 * 4 + c / 64)
    ∷ base64_char (c % 64)
    ∷ base64_encode s

-- The six bits of a character of base64.RawURLEncoding.
base64_url_bits : ℕ → Option ℕ
base64_url_bits c =
    if leb b'A' c && leb c b'Z'
    then some (c - b'A')
    else if leb b'a' c && leb c b'z'
    then some (c - b'a' + 26)
    else if leb b'0' c && leb c b'9'
    then some (c - b'0' + 52)
    else if c == b'-'
    then some 62
    else if c == b'_'
    then some 63
    else none

-- The bytes of the bits that are read, the last incomplete ones dropped; one left over character is
-- an error.
base64_join : List ℕ → Option Str
base64_join [] = some []
base64_join (a ∷ []) = none
base64_join (a ∷ b ∷ []) = some ((a * 4 + b / 16) ∷ [])
base64_join (a ∷ b ∷ c ∷ []) = some ((a * 4 + b / 16) ∷ (b % 16 * 16 + c / 4) ∷ [])
base64_join (a ∷ b ∷ c ∷ d ∷ s) = do
  rest ← base64_join s
  some ((a * 4 + b / 16) ∷ (b % 16 * 16 + c / 4) ∷ (c % 4 * 64 + d) ∷ rest)

-- Line breaks are skipped.
base64_bits : Str → Option (List ℕ)
unfolding base64_url_bits
base64_bits [] = some []
base64_bits (c ∷ s) =
    let rest = base64_bits s in
    if c == 10 || c == 13 then rest else do b ← base64_url_bits c; bs ← rest; some (b ∷ bs)

-- base64.RawURLEncoding.DecodeString
unfoldable pub base64_url_decode : Str → Option Str
unfolding base64_bits base64_join
base64_url_decode s = do bits ← base64_bits s; base64_join bits

hex_value : ℕ → Option ℕ
hex_value c =
    if leb b'0' c && leb c b'9'
    then some (c - b'0')
    else if leb b'a' c && leb c b'f'
    then some (c - b'a' + 10)
    else if leb b'A' c && leb c b'F'
    then some (c - b'A' + 10)
    else none

-- The byte of two hexadecimal digits.
hex_pair : Str → Option ℕ
unfolding hex_value
hex_pair [] = none
hex_pair (c ∷ []) = none
hex_pair (c ∷ d ∷ s) = do h ← hex_value c; l ← hex_value d; some (h * 16 + l)

-- The number counts digits of an escape still to be skipped.
unescape_from : ℕ → Str → Option Str
unfolding hex_pair
unescape_from n [] = some []
unescape_from (suc n) (c ∷ s) = unescape_from n s
unescape_from zero (c ∷ s) = elim (c == b'%') [
  | true ↦ do b ← hex_pair s; t ← unescape_from 2 s; some (b ∷ t)
  | false ↦ do t ← unescape_from 0 s; some ((if c == b'+' then 32 else c) ∷ t)
]

-- url.QueryUnescape
unfoldable pub query_unescape : Str → Option Str
unfolding unescape_from
query_unescape s = unescape_from 0 s
