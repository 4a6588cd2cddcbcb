-- ===== src/Token.antt =====
-- internal/gateway/token.go: the access token of a request, from its Authorization header or from the
-- Supabase cookies.
pub mod Chunks
pub mod Sessions
use gateway_service.Prelude.{
  ℕ, zero, suc, ◌+◌, Bool, true, false, not, ◌&&◌, Option, none, some, List, [], ◌∷◌, ◌++◌, map,
  ltb, ◌==◌, if◌then◌else◌, length, is_empty, all,
}
use gateway_service.Text.{
  Str, lit, eqb, lower, trim_space, fields, has_prefix, has_suffix, trim_prefix, cut_last, is_digit,
  itoa,
}
use gateway_service.Text.Encoding.{base64_url_decode, query_unescape}
use gateway_service.Header.{get}
use gateway_service.Http.{Request}
use gateway_service.Json.{Shape, Fields, Meaning, unmarshal}
use gateway_service.World.{Platform}

-- `(token, token != "")`
abbrev pub nonempty : Str → Option Str
nonempty [] = none
nonempty (c ∷ s) = some (c ∷ s)

-- strings.EqualFold against an ASCII text with no k and no s, where no other rune folds to a letter.
equal_fold : Str → Str → Bool
equal_fold s t = eqb (map lower s) (map lower t)

bearer_fields : List Str → Option Str
unfolding equal_fold
bearer_fields [] = none
bearer_fields (scheme ∷ []) = none
bearer_fields (scheme ∷ token ∷ []) =
    if equal_fold scheme (lit "Bearer") then nonempty (trim_space token) else none
bearer_fields (scheme ∷ token ∷ more ∷ rest) = none

unfoldable pub bearer_token : Str → Option Str
unfolding bearer_fields
bearer_token value = bearer_fields (fields (trim_space value))

-- A Go map from cookie names to values.
abbrev pub Values : Type 0
Values = List (Str × Str)

unfoldable pub lookup : Values → Str → Option Str
lookup [] name = none
lookup ((k, v) ∷ values) name = if eqb k name then some v else lookup values name

unfoldable pub insert : Values → Str → Str → Values
insert [] name value = (name, value) ∷ []
insert ((k, v) ∷ values) name value =
    if eqb k name then (k, value) ∷ values else (k, v) ∷ insert values name value

-- The first loop of accessTokenFromCookies: nil cookies are skipped, later ones win.
unfoldable pub cookie_values : List (Option (Str × Str)) → Values → Values
unfolding insert
cookie_values [] values = values
cookie_values (none ∷ cookies) values = cookie_values cookies values
cookie_values (some (name, value) ∷ cookies) values =
    cookie_values cookies (insert values name value)

-- The name without a final dot and number.
unfoldable pub chunk_base_name : Str → Str
unfolding cut_last is_digit
chunk_base_name name = elim (cut_last name b'.') [
  | none ↦ name
  | some (base, digits) ↦ if not (is_empty digits) && all is_digit digits then base else name
]

unfoldable pub chunk_name : Str → ℕ → Str
chunk_name name index = name ++ (lit "." ++ itoa index)

-- The loop over the chunks from an index on; the fuel bounds the chunks.
pub chunks_from : ℕ → Values → Str → ℕ → Str
unfolding chunk_name
chunks_from zero values name index = []
chunks_from (suc fuel) values name index = elim (lookup values (chunk_name name index)) [
  | none ↦ []
  | some value ↦ value ++ chunks_from fuel values name (index + 1)
]

-- `values[name]`, empty for a missing key.
abbrev pub value_or_empty : Option Str → Str
value_or_empty none = []
value_or_empty (some v) = v

-- Each chunk is an entry of the map, so their number bounds the loop.
unfoldable pub combine_cookie_chunks : Values → Str → Str
unfolding chunks_from
combine_cookie_chunks values name =
    let whole = value_or_empty (lookup values name) in
    if not (is_empty whole) then whole else chunks_from (length values) values name 0

abbrev pub base64_cookie_prefix : Str
base64_cookie_prefix = lit "base64-"

-- `json.Unmarshal` succeeded with a token that is not blank.
trimmed_token : Option Str → Option Str
trimmed_token none = none
trimmed_token (some token) = nonempty (trim_space token)

-- The two types that a session is read as: a struct with the access token, and a slice that starts
-- with it.
abbrev session_type : Shape
session_type = Shape.struct (Fields.field (lit "access_token") false Shape.string Fields.end)

abbrev session_token : Option (Meaning session_type) → Option Str
session_token none = none
session_token (some session) = some session.0

abbrev legacy_type : Shape
legacy_type = Shape.slice Shape.string

abbrev first_element : List Str → Option Str
first_element [] = none
first_element (token ∷ tokens) = some token

abbrev first_token : Option (Meaning legacy_type) → Option Str
first_token none = none
first_token (some none) = none
first_token (some (some legacy)) = first_element legacy.elements

abbrev either {ℓ} : {A : Type ℓ} → Option A → Option A → Option A
either none b = b
either (some a) b = some a

-- The value behind its encoding, or none if base64 fails.
session_text : Str → Option Str
session_text value =
    if has_prefix value base64_cookie_prefix
    then base64_url_decode (trim_prefix value base64_cookie_prefix)
    else elim (query_unescape value) [ none ↦ some value | some decoded ↦ some decoded ]

-- The names in sorted order with no name twice: strings compare by their bytes.
before : Str → Str → Bool
before s [] = false
before [] (b ∷ t) = true
before (a ∷ s) (b ∷ t) = if a == b then before s t else ltb a b

insert_name : Str → List Str → List Str
unfolding before
insert_name name [] = name ∷ []
insert_name name (n ∷ names) =
    if eqb name n
    then n ∷ names
    else if before name n
    then name ∷ n ∷ names
    else n ∷ insert_name name names

-- The base names of Supabase's cookies.
is_candidate : Str → Bool
is_candidate name = has_prefix name (lit "sb-") && has_suffix name (lit "-auth-token")

candidates : Values → List Str
unfolding is_candidate insert_name
candidates [] = []
candidates ((name, value) ∷ values) =
    let base = chunk_base_name name in
    let rest = candidates values in if is_candidate base then insert_name base rest else rest

module _ (p : Platform) where
  unfoldable pub decode_session_access_token : Str → Option Str
  unfolding session_text trimmed_token
  decode_session_access_token raw =
      let value = trim_space raw in
      if is_empty value then none else elim (session_text value) [
        | none ↦ none
        | some text ↦
            either (trimmed_token (session_token (unmarshal p.json session_type text)))
              (trimmed_token (first_token (unmarshal p.json legacy_type text)))
      ]

  unfoldable pub access_token_from_cookie : Values → Str → Option Str
  unfolding decode_session_access_token combine_cookie_chunks
  access_token_from_cookie values name =
      let raw_value = combine_cookie_chunks values name in
      if is_empty raw_value then none else decode_session_access_token raw_value

  -- The last loop: the first name whose cookie holds a token.
  first_access_token : Values → List Str → Option Str
  first_access_token values [] = none
  first_access_token values (name ∷ names) =
      either (access_token_from_cookie values name) (first_access_token values names)

  unfoldable pub access_token_from_cookies : List (Option (Str × Str)) → Str → Option Str
  unfolding cookie_values candidates access_token_from_cookie first_access_token
  access_token_from_cookies cookies preferred_name =
      let values = cookie_values cookies [] in
      either
        (if is_empty preferred_name then none else access_token_from_cookie values preferred_name)
        (first_access_token values (candidates values))

  unfoldable pub extract_access_token : Request → Str → Option Str
  unfolding bearer_token access_token_from_cookies
  extract_access_token r auth_cookie_name =
      either (bearer_token (get r.header (lit "Authorization")))
        (access_token_from_cookies r.cookies auth_cookie_name)
