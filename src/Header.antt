-- ===== src/Header.antt =====
-- net/http's `Header` as an association list from keys to values; a Go map is iterated in no fixed
-- order, so the order of the entries is arbitrary. The header filters of internal/gateway/server.go.
pub mod Laws
use gateway_service.Prelude.{
  ℕ, Bool, true, false, ◌&&◌, ◌||◌, List, [], ◌∷◌, ◌++◌, if◌then◌else◌, leb, ◌==◌, any, all,
}
use gateway_service.Text.{Str, lit, eqb, lower, upper, is_digit}

abbrev pub Header : Type 0
Header = List (Str × List Str)

-- A byte that a header field's name may hold.
is_token : ℕ → Bool
unfolding is_digit
is_token c =
    is_digit c
    || leb b'A' c && leb c b'Z'
    || leb b'a' c && leb c b'z'
    || any (λ b. b == c) (lit "!#$%&'*+-.^_`|~")

-- The first letter, and each letter behind a dash, is put in upper case, the others in lower case.
canonical_from : Bool → Str → Str
unfolding lower upper
canonical_from up [] = []
canonical_from up (c ∷ s) = (if up then upper c else lower c) ∷ canonical_from (c == b'-') s

-- http.CanonicalHeaderKey
unfoldable pub canonical_header_key : Str → Str
unfolding canonical_from is_token
canonical_header_key key = if all is_token key then canonical_from true key else key

-- The values under a key as it is spelled in the map.
unfoldable pub values : Header → Str → List Str
values [] key = []
values ((k, vs) ∷ h) key = if eqb k key then vs else values h key

-- `header[key] = vs`
unfoldable pub put : Header → Str → List Str → Header
put [] key vs = (key, vs) ∷ []
put ((k, ws) ∷ h) key vs = if eqb k key then (k, vs) ∷ h else (k, ws) ∷ put h key vs

abbrev first : List Str → Str
first [] = []
first (v ∷ vs) = v

-- Header.Get
unfoldable pub get : Header → Str → Str
get h key = first (values h (canonical_header_key key))

-- Header.Set
unfoldable pub set : Header → Str → Str → Header
set h key value = put h (canonical_header_key key) (value ∷ [])

-- Header.Add
unfoldable pub add : Header → Str → Str → Header
add h key value =
    put h (canonical_header_key key) (values h (canonical_header_key key) ++ value ∷ [])

-- `for _, value := range values { dst.Add(key, value) }`
unfoldable pub add_all : Header → Str → List Str → Header
add_all h key [] = h
add_all h key (v ∷ vs) = add_all (add h key v) key vs

-- The loop that copyForwardHeaders and copyResponseHeaders share.
unfoldable pub copy_headers : (Str → Bool) → Header → Header → Header
copy_headers drop dst [] = dst
copy_headers drop dst ((key, vs) ∷ src) =
    copy_headers drop (if drop key then dst else add_all dst key vs) src

abbrev pub internal_token_header : Str
internal_token_header = lit "X-Internal-Token"

abbrev pub user_id_header : Str
user_id_header = lit "X-User-Id"

abbrev pub request_accepted_at_header : Str
request_accepted_at_header = lit "X-Request-Accepted-At"

abbrev pub request_id_header : Str
request_id_header = lit "X-Request-Id"

unfoldable pub should_drop_request_header : Str → Bool
should_drop_request_header key = any (eqb (canonical_header_key key)) (
    lit "Authorization"
    ∷ lit "Connection"
    ∷ lit "Cookie"
    ∷ lit "Keep-Alive"
    ∷ lit "Proxy-Authenticate"
    ∷ lit "Proxy-Authorization"
    ∷ lit "Te"
    ∷ lit "Trailer"
    ∷ lit "Transfer-Encoding"
    ∷ lit "Upgrade"
    ∷ lit "X-Forwarded-For"
    ∷ lit "X-Forwarded-Host"
    ∷ lit "X-Forwarded-Proto"
    ∷ internal_token_header
    ∷ user_id_header
    ∷ request_accepted_at_header
    ∷ [])

unfoldable pub should_drop_response_header : Str → Bool
should_drop_response_header key = any (eqb (canonical_header_key key)) (
    lit "Connection"
    ∷ lit "Keep-Alive"
    ∷ lit "Proxy-Authenticate"
    ∷ lit "Proxy-Authorization"
    ∷ lit "Set-Cookie"
    ∷ lit "Te"
    ∷ lit "Trailer"
    ∷ lit "Transfer-Encoding"
    ∷ lit "Upgrade"
    ∷ [])

unfoldable pub copy_forward_headers : Header → Header → Header
copy_forward_headers dst src = copy_headers should_drop_request_header dst src

unfoldable pub copy_response_headers : Header → Header → Header
copy_response_headers dst src = copy_headers should_drop_response_header dst src
