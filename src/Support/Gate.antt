-- ===== src/Support/Gate.antt =====
-- Whom the views of a player are made for, and what the gateway asks its services for them.
use mathlib.Core.List.{Memᴰ}
use gateway_service.Prelude.{
  ℕ, ◌≡◌, refl, Bool, true, false, List, [], ◌∷◌, arith, Option, none, some, Bool-cases, inl, inr,
}
use gateway_service.Text.{Str, lit, eqb, trim_space}
use gateway_service.Header.{
  put, canonical_header_key, values, set, internal_token_header, user_id_header,
}
use gateway_service.Route.{Url, Route, route_by_name}
use gateway_service.Http.{Request, Outgoing}
use gateway_service.Audit.{AuditEntry}
use gateway_service.World.{Platform, Server, World, Event}
use gateway_service.Admin.Gate.{
  ReadsOnly, IsAdminSession, write_audited_error-ReadsOnly, write_audited_json-ReadsOnly,
  direct-ReadsOnly,
}
use gateway_service.Support.{
  UpstreamQuery, SupportSchedule, support_request, load_created, section_target, load_routed,
  load_player_support_upstream, load_all, load_player_support, support_parsed,
  handle_player_support, support_queries, in_context,
}

pub route_by_name-Memᴰ :
    (routes : List Route) (name : Str) (route : Route)
    → route_by_name routes name ≡ some route
    → Memᴰ route routes
unfolding route_by_name
route_by_name-Memᴰ [] name route h = cc
route_by_name-Memᴰ (x ∷ routes) name route h = elim (Bool-cases (eqb x.name name)) [
  | inl same ↦ Memᴰ.head (ground arith)
  | inr other ↦ Memᴰ.tail (route_by_name-Memᴰ routes name route (ground arith))
]

-- A call of an internal service for the player that the path names: a GET without a body to the host
-- of a configured route, under the gateway's token and the player's id and with no header of the
-- client's.
pub record IsPlayerCall (p : Platform) (s : Server) (r : Request) (o : Outgoing) : Type 0 where
  pub player : ℕ
  pub route : Route
  pub named : p.uuid_parse (trim_space (r.path_value (lit "user_id"))) ≡ some player
  pub configured : Memᴰ route s.routes
  pub same_host : o.url.host ≡ route.target.host
  pub same_scheme : o.url.scheme ≡ route.target.scheme
  pub is_get : o.method ≡ lit "GET"
  pub no_body : o.body ≡ []
  pub with_token : values o.header internal_token_header ≡ s.internal_token ∷ []
  pub with_player : values o.header user_id_header ≡ p.uuid_string player ∷ []
  pub no_authorization : values o.header (lit "Authorization") ≡ []
  pub no_cookie : values o.header (lit "Cookie") ≡ []

-- What the views of a player may do: call services for that player, for an administrator.
abbrev pub SupportReads : Platform → Server → Request → Event → Type 0
SupportReads p s r (Event.forward o) = IsAdminSession p s r × IsPlayerCall p s r o
SupportReads p s r _ = ⊥

module _ (p : Platform) (s : Server) (r : Request) (player : ℕ)
    (named : p.uuid_parse (trim_space (r.path_value (lit "user_id"))) ≡ some player) where
  pub support_request-IsPlayerCall :
      (r' : Request) (route : Route) (target : Url)
      → Memᴰ route s.routes
      → target.host ≡ route.target.host
      → target.scheme ≡ route.target.scheme
      → IsPlayerCall p s r (support_request p s r' player target)
  unfolding support_request values set put eqb canonical_header_key
  support_request-IsPlayerCall r' route target m h k = record {
    player = player;
    route = route;
    named = named;
    configured = m;
    same_host = h;
    same_scheme = k;
    is_get = refl;
    no_body = refl;
    with_token = refl;
    with_player = refl;
    no_authorization = refl;
    no_cookie = refl;
  }

  load_created-ReadsOnly :
      (r' : Request) (query : UpstreamQuery) (target : Url) (valid : Bool) (w : World)
      → SupportReads p s r (Event.forward (support_request p s r' player target))
      → ReadsOnly (SupportReads p s r) w.trace
      → ReadsOnly (SupportReads p s r) (load_created p s r' player query target valid w).1.trace
  unfolding load_created
  load_created-ReadsOnly r' query target false w q h = h
  load_created-ReadsOnly r' query target true w q h = (q, h)

  load_routed-ReadsOnly :
      (r' : Request) (query : UpstreamQuery) (o : Option Route) (w : World)
      → route_by_name s.routes query.route_name ≡ o
      → IsAdminSession p s r
      → ReadsOnly (SupportReads p s r) w.trace
      → ReadsOnly (SupportReads p s r) (load_routed p s r' player query o w).1.trace
  unfolding load_routed section_target
  load_routed-ReadsOnly r' query none w found admin h = h
  load_routed-ReadsOnly r' query (some route) w found admin h =
      load_created-ReadsOnly r' query _ _ w
        (
          admin,
          support_request-IsPlayerCall r' route _ (route_by_name-Memᴰ s.routes _ route found) refl
              refl,
        )
        h

  load_all-ReadsOnly :
      (r' : Request) (queries : List UpstreamQuery) (w : World)
      → IsAdminSession p s r
      → ReadsOnly (SupportReads p s r) w.trace
      → ReadsOnly (SupportReads p s r) (load_all p s r' player queries w).1.trace
  unfolding load_all load_player_support_upstream
  load_all-ReadsOnly r' [] w admin h = h
  load_all-ReadsOnly r' (query ∷ queries) w admin h =
      load_all-ReadsOnly r' queries _ admin (load_routed-ReadsOnly r' query _ w refl admin h)

module _ (p : Platform) (s : Server) (r : Request) where
  support_parsed-ReadsOnly :
      (schedule : SupportSchedule) (r' : Request) (entry : AuditEntry) (o : Option ℕ) (w : World)
      → p.uuid_parse (trim_space (r.path_value (lit "user_id"))) ≡ o
      → IsAdminSession p s r
      → ReadsOnly (SupportReads p s r) w.trace
      → ReadsOnly (SupportReads p s r) (support_parsed p s schedule r' entry o w).1.trace
  unfolding support_parsed load_player_support
  support_parsed-ReadsOnly schedule r' entry none w named admin h =
      write_audited_error-ReadsOnly p s (SupportReads p s r) entry 400 _ _ w h
  support_parsed-ReadsOnly schedule r' entry (some player) w named admin h =
      write_audited_json-ReadsOnly p s (SupportReads p s r) entry 200 _ _
        (load_all-ReadsOnly p s r player named r' (schedule.start support_queries) w admin h)

-- The view of a player calls the internal services only for a session that the verifier gives to an
-- administrator, and each call is a GET to the host of a configured route for the player that the
-- path names, without the client's credentials, whatever the services answer and in whatever order
-- the workers run.
pub handle_player_support-ReadsOnly :
    (p : Platform) (s : Server) (schedule : SupportSchedule) (r : Request) (w : World)
    → w.trace ≡ []
    → ReadsOnly (SupportReads p s r) (handle_player_support p s schedule r w).1.trace
unfolding handle_player_support
handle_player_support-ReadsOnly p s schedule r w e =
    direct-ReadsOnly p s r (SupportReads p s r) _ _ w
      (λ entry w' admin h.
        support_parsed-ReadsOnly p s r schedule (in_context p s r entry) entry _ w' refl admin h)
      e
