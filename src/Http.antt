-- ===== src/Http.antt =====
-- net/http as the gateway uses it: requests with their bodies, outgoing requests, upstream responses
-- and the response writer.
use gateway_service.Prelude.{
  ℕ, ◌+◌, ◌^◌, ◌≡◌, Bool, true, not, ◌&&◌, ◌||◌, Option, none, some, List, [], ◌++◌, ltb, leb, ◌==◌,
  if◌then◌else◌, length, take,
}
use gateway_service.Text.{Str}
use gateway_service.Header.{Header}
use gateway_service.Route.{Url}

-- What a body yields: bytes and then the end, or bytes and then an error.
pub data Stream : Type 0 where
  whole : Str → Stream
  broken : Str → Stream

-- The bytes that `io.LimitReader(r, n)` may read when `n` is `max + 1` in int64: the sum wraps to a
-- negative number at the largest int64, and then the reader ends at once.
unfoldable pub limit_above : ℕ → ℕ
limit_above max = if ltb (max + 1) (2 ^ 63) then max + 1 else 0

-- io.ReadAll(io.LimitReader(r, n)); `none` is an error.
unfoldable pub read_limited : Stream → ℕ → Option Str
read_limited (whole s) n = some (take n s)
read_limited (broken s) n = if leb n (length s) then some (take n s) else none

-- io.ReadAll(r)
unfoldable pub read_all : Stream → Option Str
read_all (whole s) = some s
read_all (broken s) = none

-- An incoming request. `cookies` are those that net/http parses from its headers, `query` is
-- `URL.Query().Get`, `path_value` the mux's wildcards, `trace_id` that of a valid span, and
-- `context_id` the request id that a handler has put into the context.
pub record Request : Type 0 where
  pub method : Str
  pub url : Url
  pub remote_addr : Str
  pub host : Str
  pub tls : Bool
  pub header : Header
  pub cookies : List (Option (Str × Str))
  pub query : Str → Str
  pub path_value : Str → Str
  pub trace_id : Option Str
  pub context_id : Option Str
  pub body : Option Stream

-- A request that the gateway sends.
pub record Outgoing : Type 0 where
  pub method : Str
  pub url : Url
  pub header : Header
  pub body : Str
  pub content_length : ℕ

pub record Upstream : Type 0 where
  pub status : ℕ
  pub header : Header
  pub body : Stream

-- A response writer: `status` is 0 until the header is written, and `sent` is the header at that
-- moment.
pub record Writer : Type 0 where
  pub header : Header
  pub status : ℕ
  pub sent : Header
  pub body : Str

abbrev pub new_writer : Writer
new_writer = record { header = []; status = 0; sent = []; body = [] }

-- The statuses of a final response: WriteHeader sends those of 100 to 199 but 101 as informational
-- responses, and panics on what has not three digits.
abbrev pub is_final : ℕ → Bool
is_final status = (status == 101 || leb 200 status) && leb status 999

abbrev pub IsFinal : ℕ → Type 0
IsFinal status = is_final status ≡ true

abbrev pub is_valid : ℕ → Bool
is_valid status = leb 100 status && leb status 999

-- ResponseWriter.WriteHeader of a status that does not panic: only the first final one counts.
unfoldable pub write_header : Writer → ℕ → Writer
write_header w status =
    if w.status == 0 && is_final status then record w { status = status; sent = w.header } else w

-- bodyAllowedForStatus
abbrev pub body_allowed : ℕ → Bool
body_allowed status = not (ltb status 200 || status == 204 || status == 304)

-- ResponseWriter.Write, with the length of what is written as its result. The length that the header
-- declares, which net/http holds the payloads to, is not modelled.
unfoldable pub write_body : Writer → Str → Writer × ℕ
unfolding write_header
write_body w payload =
    let w' = write_header w 200 in
    if body_allowed w'.status
    then (record w' { body = w'.body ++ payload }, length payload)
    else (w', 0)
