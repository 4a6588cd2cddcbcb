-- ===== src/Text.antt =====
-- Go strings as lists of bytes, with the functions of Go's `strings` and `strconv` packages that
-- the gateway calls.
pub mod Laws
pub mod Encoding
pub mod Digits
pub mod Trimming
use Prim.Native.Char.{code}
use Prim.Native.String.{String}
use mathlib.Core.Option
use gateway_service.Prelude.{
  ℕ, zero, suc, ◌+◌, ◌-◌, ◌*◌, ◌/◌, ◌%◌, Bool, true, false, not, ◌&&◌, ◌||◌, Option, none, some,
  List, [], ◌∷◌, ◌++◌, reverse, ltb, leb, ◌==◌, if◌then◌else◌, length, all, drop, ◌^◌, ℤ, pos,
  negate,
}

abbrev pub Str : Type 0
Str = List ℕ

-- The bytes of an ASCII literal.
abbrev pub lit : String → Str
lit String.[] = []
lit (String.◌∷◌ c s) = code c ∷ lit s

-- `==` on strings
unfoldable pub eqb : Str → Str → Bool
eqb [] [] = true
eqb [] (b ∷ t) = false
eqb (a ∷ s) [] = false
eqb (a ∷ s) (b ∷ t) = a == b && eqb s t

-- strings.HasPrefix
unfoldable pub has_prefix : Str → Str → Bool
has_prefix s [] = true
has_prefix [] (b ∷ p) = false
has_prefix (a ∷ s) (b ∷ p) = a == b && has_prefix s p

-- strings.HasSuffix
unfoldable pub has_suffix : Str → Str → Bool
unfolding has_prefix
has_suffix s p = has_prefix (reverse s) (reverse p)

-- strings.TrimPrefix
unfoldable pub trim_prefix : Str → Str → Str
unfolding has_prefix
trim_prefix s p = if has_prefix s p then drop (length p) s else s

-- strings.TrimLeft with a cutset of one byte
unfoldable pub trim_left : Str → ℕ → Str
trim_left [] c = []
trim_left (a ∷ s) c = if a == c then trim_left s c else a ∷ s

-- strings.TrimRight with a cutset of one byte
unfoldable pub trim_right : Str → ℕ → Str
unfolding trim_left
trim_right s c = reverse (trim_left (reverse s) c)

-- strings.Contains
unfoldable pub contains : Str → Str → Bool
unfolding has_prefix
contains [] p = has_prefix [] p
contains (a ∷ s) p = has_prefix (a ∷ s) p || contains s p

-- The bytes of the white space rune that a text starts with, 0 if it starts with another rune
-- (unicode.IsSpace over UTF-8).
unfoldable pub space_width : Str → ℕ
space_width [] = 0
space_width (a ∷ []) = if leb 9 a && leb a 13 || a == 32 then 1 else 0
space_width (a ∷ b ∷ []) =
    if leb 9 a && leb a 13 || a == 32
    then 1
    else if a == 0xc2 && (b == 0x85 || b == 0xa0)
    then 2
    else 0
space_width (a ∷ b ∷ c ∷ s) =
    if leb 9 a && leb a 13 || a == 32
    then 1
    else if a == 0xc2 && (b == 0x85 || b == 0xa0)
    then 2
    else if a == 0xe1 && b == 0x9a && c == 0x80
        || a == 0xe2
          && b == 0x80
          && (leb 0x80 c && leb c 0x8a || c == 0xa8 || c == 0xa9 || c == 0xaf)
        || a == 0xe2 && b == 0x81 && c == 0x9f
        || a == 0xe3 && b == 0x80 && c == 0x80
    then 3
    else 0

-- The same at the end of a text that is read backwards.
unfoldable pub space_width_back : Str → ℕ
unfolding space_width
space_width_back [] = 0
space_width_back (c ∷ []) = space_width (c ∷ [])
space_width_back (c ∷ b ∷ []) =
    if space_width (c ∷ []) == 1 then 1 else if space_width (b ∷ c ∷ []) == 2 then 2 else 0
space_width_back (c ∷ b ∷ a ∷ s) =
    if space_width (c ∷ []) == 1
    then 1
    else if space_width (b ∷ c ∷ []) == 2
    then 2
    else if space_width (a ∷ b ∷ c ∷ []) == 3
    then 3
    else 0

-- Drops leading white space; the number counts bytes of a white space rune still to be dropped.
trim_space_from : (Str → ℕ) → ℕ → Str → Str
trim_space_from width n [] = []
trim_space_from width (suc n) (a ∷ s) = trim_space_from width n s
trim_space_from width zero (a ∷ s) = elim (width (a ∷ s)) [
  | zero ↦ a ∷ s
  | suc n ↦ trim_space_from width n s
]

-- strings.TrimSpace
unfoldable pub trim_space : Str → Str
unfolding trim_space_from space_width space_width_back
trim_space s =
    reverse (trim_space_from space_width_back 0 (reverse (trim_space_from space_width 0 s)))

-- The loop of strings.Fields: bytes to skip, the field read so far, the text.
fields_from : ℕ → Str → Str → List Str
unfolding space_width
fields_from n cur [] = if length cur == 0 then [] else cur ∷ []
fields_from (suc n) cur (a ∷ s) = fields_from n cur s
fields_from zero cur (a ∷ s) = elim (space_width (a ∷ s)) [
  | zero ↦ fields_from 0 (cur ++ a ∷ []) s
  | suc n ↦ let rest = fields_from n [] s in if length cur == 0 then rest else cur ∷ rest
]

-- strings.Fields
unfoldable pub fields : Str → List Str
unfolding fields_from
fields s = fields_from 0 [] s

-- A byte in lower case and in upper case, where it is an ASCII letter.
unfoldable pub lower : ℕ → ℕ
lower c = if leb b'A' c && leb c b'Z' then c + 32 else c

unfoldable pub upper : ℕ → ℕ
upper c = if leb b'a' c && leb c b'z' then c - 32 else c

unfoldable pub is_digit : ℕ → Bool
is_digit c = leb b'0' c && leb c b'9'

-- strings.Split at one byte
push_byte : ℕ → List Str → List Str
push_byte b [] = (b ∷ []) ∷ []
push_byte b (p ∷ ps) = (b ∷ p) ∷ ps

unfoldable pub split : Str → ℕ → List Str
unfolding push_byte
split [] c = [] ∷ []
split (a ∷ s) c = let rest = split s c in if a == c then [] ∷ rest else push_byte a rest

-- strings.SplitN at one byte into two parts, if the byte is there
unfoldable pub cut : Str → ℕ → Option (Str × Str)
cut [] c = none
cut (a ∷ s) c =
    if a == c then some ([], s) else Option.map (λ (p : Str × Str). (a ∷ p.0, p.1)) (cut s c)

-- strings.LastIndex at one byte, as what stands before and behind it
unfoldable pub cut_last : Str → ℕ → Option (Str × Str)
unfolding cut
cut_last s c = Option.map (λ (p : Str × Str). (reverse p.1, reverse p.0)) (cut (reverse s) c)

-- The number that digits spell behind `n`.
abbrev pub value : ℕ → Str → ℕ
value n [] = n
value n (c ∷ s) = value (n * 10 + (c - b'0')) s

-- The digits of an unsigned number, if there are any and nothing else.
unfoldable pub digits_value : Str → Option ℕ
unfolding is_digit
digits_value [] = none
digits_value (c ∷ s) = if all is_digit (c ∷ s) then some (value 0 (c ∷ s)) else none

-- strconv.Atoi, and strconv.ParseInt with base 10 and 64 bits
unfoldable pub parse_int : Str → Option ℤ
unfolding digits_value
parse_int [] = none
parse_int (c ∷ s) =
    if c == b'-'
    then elim (digits_value s) [
      | none ↦ none
      | some n ↦ if leb n (2 ^ 63) then some (negate n) else none
    ]
    else elim (digits_value (if c == b'+' then s else c ∷ s)) [
      | none ↦ none
      | some n ↦ if ltb n (2 ^ 63) then some (pos n) else none
    ]

-- strconv.Itoa on a number that is not negative: the fuel bounds the digits.
itoa_from : ℕ → ℕ → Str → Str
itoa_from zero n out = out
itoa_from (suc fuel) n out =
    let next = (b'0' + n % 10) ∷ out in
    let rest = itoa_from fuel (n / 10) next in if ltb n 10 then next else rest

unfoldable pub itoa : ℕ → Str
unfolding itoa_from
itoa n = itoa_from (suc n) n []
