-- ===== src/Handler/Mux.antt =====
-- How the mux of net/http selects among the routes of `Handler` (internal/gateway/server.go).
use gateway_service.Prelude.{
  Bool, not, ◌&&◌, ◌||◌, Option, none, some, List, [], ◌∷◌, map, drop, if◌then◌else◌, is_empty,
}
use gateway_service.Text.{Str, lit, eqb, split}
use gateway_service.Http.{Request}
use gateway_service.World.{Platform}

-- What the mux selects, with the values of the wildcards.
pub data Endpoint : Type 0 where
  asterisk not_found health ready audit_list proxy : Endpoint
  redirect : Str → Endpoint
  audit_detail : Str → Endpoint
  player_support : Str → Endpoint
  pull_replay : Str → Str → Endpoint

-- A segment that a wildcard takes: the mux reads a trailing slash as the segment "/".
unfoldable pub is_value : Str → Bool
is_value segment = not (eqb segment (lit "/"))

-- The patterns below a prefix that end in a player, or in a player and an operation.
unfoldable pub support_endpoint : List Str → Endpoint
unfolding is_value
support_endpoint (user ∷ []) = if is_value user then player_support user else proxy
support_endpoint (user ∷ pulls ∷ operation ∷ replay ∷ []) =
    if is_value user && eqb pulls (lit "pulls") && is_value operation && eqb replay (lit "replay")
    then pull_replay user operation
    else proxy
support_endpoint _ = proxy

unfoldable pub audit_endpoint : List Str → Endpoint
unfolding is_value
audit_endpoint [] = audit_list
audit_endpoint (id ∷ []) = if is_value id then audit_detail id else proxy
audit_endpoint _ = proxy

-- What stands behind a prefix of segments.
unfoldable pub behind : List Str → List Str → Option (List Str)
behind [] segments = some segments
behind (s ∷ prefix) [] = none
behind (s ∷ prefix) (t ∷ segments) = if eqb s t then behind prefix segments else none

abbrev audit_prefix : List Str
audit_prefix = lit "api" ∷ lit "v1" ∷ lit "admin" ∷ lit "audit" ∷ lit "http-api-calls" ∷ []

abbrev support_prefix : List Str
support_prefix = lit "api" ∷ lit "v1" ∷ lit "admin" ∷ lit "player-support" ∷ lit "players" ∷ []

unfoldable pub support_below : Option (List Str) → Endpoint
unfolding support_endpoint
support_below none = proxy
support_below (some rest) = support_endpoint rest

unfoldable pub audit_below : List Str → Option (List Str) → Endpoint
unfolding support_below behind audit_endpoint
audit_below segments none = support_below (behind support_prefix segments)
audit_below segments (some rest) = audit_endpoint rest

-- The patterns for GET and HEAD.
unfoldable pub get_endpoint : List Str → Endpoint
unfolding audit_below behind
get_endpoint (s ∷ []) =
    if eqb s (lit "health") then health else if eqb s (lit "ready") then ready else proxy
get_endpoint segments = audit_below segments (behind audit_prefix segments)

module _ (p : Platform) where
  -- The segments of a clean path, without their escapes.
  unfoldable pub segments : Str → List Str
  segments path =
      map (λ (segment : Str). if is_empty segment then lit "/" else p.path_unescape segment)
        (split (drop 1 path) b'/')

  -- The mux on a path that is clean already, and on one that is not.
  unfoldable pub select_clean : Request → Str → Endpoint
  unfolding segments get_endpoint
  select_clean r path =
      if eqb r.method (lit "GET") || eqb r.method (lit "HEAD")
      then get_endpoint (segments path)
      else proxy

  unfoldable pub select : Request → Endpoint
  unfolding select_clean
  select r =
      let path = p.escaped_path r.url in
      if eqb r.url.path (lit "*")
      then asterisk
      else if eqb r.method (lit "CONNECT")
      then (if is_empty path then not_found else proxy)
      else if eqb (p.clean_path path) path
      then select_clean r path
      else redirect (
          p.url_string (record {
            scheme = [];
            host = [];
            path = p.clean_path path;
            raw_query = r.url.raw_query;
            rest = [];
          }))
