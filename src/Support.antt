-- ===== src/Support.antt =====
-- The administrators' views of a player: internal/gateway/player_support.go. The workers of a view run
-- one load each; a Schedule says in which order they call their services and in which order their
-- results come out of the channel.
pub mod Replay
pub mod Gate
pub mod Collecting
pub mod Complete
pub mod Confined
use gateway_service.Prelude.{
  ℕ, ◌+◌, Bool, true, false, not, ◌&&◌, ◌||◌, Option, none, some, List, [], ◌∷◌, ◌++◌, ltb, leb,
  ◌==◌, if◌then◌else◌, length, is_empty,
}
use gateway_service.Text.{Str, lit, eqb, trim_space, itoa}
use gateway_service.Header.{Header, set, internal_token_header, user_id_header, request_id_header}
use gateway_service.Route.{Url, Route, route_by_name, join_url_path}
use gateway_service.Http.{Request, Outgoing, Upstream, Stream, limit_above, read_limited}
use gateway_service.Audit.{AuditEntry}
use gateway_service.Section.{
  Section, SectionName, Sections, SectionStatus, SupportResponse, support_json, unavailable_section,
  not_applicable_section, not_found_section, ok_section, is_unavailable, no_sections,
}
use gateway_service.Section.Shapes.{
  player_support_account, player_support_page, player_support_ledger_entry,
  player_support_operation, player_support_inventory_item, player_support_pull_event,
  player_support_pull_record,
}
use gateway_service.Json.{Json, Shape, Meaning, encode, unmarshal, printed}
use gateway_service.World.{Platform, Server, Event, Exec, ◌>>=◌, ◌>>◌, pure, draw, note, past}
use gateway_service.Proxy.{write_audited_error, request_id_from_context}
use gateway_service.Admin.{direct, write_audited_json}

abbrev pub player_support_admin_route_name : Str
player_support_admin_route_name = lit "player-support-admin"

-- `playerSupportUpstreamQuery`; each query has one key with one value.
pub record UpstreamQuery : Type 0 where
  pub name : SectionName
  pub route_name : Str
  pub path : Str
  pub key : Str
  pub value : Str
  pub allow_not_found : Bool

-- The queries of loadPlayerSupport.
abbrev pub support_queries : List UpstreamQuery
support_queries =
    record {
      name = SectionName.account;
      route_name = lit "assets";
      path = lit "/me/account";
      key = lit "create";
      value = lit "false";
      allow_not_found = true;
    }
    ∷ record {
      name = SectionName.ledger;
      route_name = lit "assets";
      path = lit "/me/ledger";
      key = lit "limit";
      value = lit "20";
      allow_not_found = false;
    }
    ∷ record {
      name = SectionName.pull_operations;
      route_name = lit "gacha";
      path = lit "/me/pulls/operations";
      key = lit "limit";
      value = lit "20";
      allow_not_found = false;
    }
    ∷ record {
      name = SectionName.inventory;
      route_name = lit "backpack";
      path = lit "/me/inventory";
      key = lit "limit";
      value = lit "50";
      allow_not_found = false;
    }
    ∷ record {
      name = SectionName.pull_events;
      route_name = lit "backpack";
      path = lit "/me/pull-events";
      key = lit "limit";
      value = lit "20";
      allow_not_found = false;
    }
    ∷ record {
      name = SectionName.pull_records;
      route_name = lit "backpack";
      path = lit "/me/pull-records";
      key = lit "limit";
      value = lit "50";
      allow_not_found = false;
    }
    ∷ []

-- `playerSupportSectionResult`
pub record SectionResult : Type 0 where
  pub name : SectionName
  pub section : Section

-- `start` puts the workers in the order of their calls, `arrive` their results in the order of the
-- channel.
pub record Schedule (Job : Type 0) (Result : Type 0) : Type 0 where
  pub start : List Job → List Job
  pub arrive : List Result → List Result

abbrev pub SupportSchedule : Type 0
SupportSchedule = Schedule UpstreamQuery SectionResult

-- The `switch` of loadPlayerSupport.
set_section : SectionName → Section → Sections → Sections
set_section SectionName.account section x = record x { account = section }
set_section SectionName.ledger section x = record x { ledger = section }
set_section SectionName.pull_operations section x = record x { pull_operations = section }
set_section SectionName.inventory section x = record x { inventory = section }
set_section SectionName.pull_events section x = record x { pull_events = section }
set_section SectionName.pull_records section x = record x { pull_records = section }

-- The loop of loadPlayerSupport over the results.
pub collect : List SectionResult → SupportResponse → SupportResponse
unfolding set_section
collect [] response = response
collect (result ∷ results) response = collect results (record response {
  partial = response.partial || is_unavailable result.section.status;
  sections = set_section result.name result.section response.sections;
})

-- The type that projectPlayerSupportData unmarshals into.
unfoldable pub destination : SectionName → Shape
destination SectionName.account = player_support_account
destination SectionName.ledger = player_support_page player_support_ledger_entry
destination SectionName.pull_operations = player_support_page player_support_operation
destination SectionName.inventory = player_support_page player_support_inventory_item
destination SectionName.pull_events = player_support_page player_support_pull_event
destination SectionName.pull_records = player_support_page player_support_pull_record

-- Whether a status is outside 200 to 299.
abbrev pub is_failure : ℕ → Bool
is_failure status = ltb status 200 || leb 300 status

-- What readPlayerSupportUpstream returns; `none` is an error.
abbrev pub Fetched : Type 0
Fetched = Option (Str × ℕ)

module _ (p : Platform) (s : Server) where
  -- projectPlayerSupportData behind json.Unmarshal; no value of these types is one that json.Marshal
  -- refuses.
  project_as : (shape : Shape) → Option (Meaning shape) → Option Json
  project_as shape none = none
  project_as shape (some value) = some (encode p.json.quote shape value)

  pub project_player_support_data : SectionName → Str → Option Json
  unfolding project_as destination
  project_player_support_data name body =
      project_as (destination name) (unmarshal p.json (destination name) body)

  -- `url.Values.Encode` on one key with one value
  encoded : Str → Str → Str
  encoded key value = p.query_escape key ++ (lit "=" ++ p.query_escape value)

  -- The request of loadPlayerSupportUpstream and readPlayerSupportUpstream to a target.
  pub support_request : Request → ℕ → Url → Outgoing
  support_request r player target = record {
    method = lit "GET";
    url = target;
    header =
        set
          (set
            (set (set [] (lit "Accept") (lit "application/json")) internal_token_header
              s.internal_token)
            user_id_header (p.uuid_string player))
          request_id_header (request_id_from_context r);
    body = [];
    content_length = 0;
  }

  -- loadPlayerSupportUpstream behind the projection
  section_projected : Option Json → Section
  section_projected none =
      unavailable_section (lit "invalid_upstream_response")
        (lit "upstream response was not valid JSON")
  section_projected (some body) = ok_section body

  -- loadPlayerSupportUpstream behind the reading of the answer's body
  section_read : UpstreamQuery → ℕ → Option Str → Section
  unfolding section_projected
  section_read query status none =
      unavailable_section (lit "upstream_response_unavailable")
        (lit "upstream response could not be read")
  section_read query status (some body) =
      if ltb s.max_body_bytes (length body)
      then unavailable_section (lit "upstream_response_unavailable")
          (lit "upstream response could not be read")
      else if query.allow_not_found && status == 404
      then not_found_section
      else if is_failure status
      then unavailable_section (lit "upstream_http_" ++ itoa status)
          (query.route_name ++ lit " service returned an error")
      else section_projected (project_player_support_data query.name body)

  -- loadPlayerSupportUpstream behind the client's answer
  section_answered : UpstreamQuery → Option Upstream → Section
  unfolding section_read
  section_answered query none =
      unavailable_section (lit "upstream_unavailable")
        (query.route_name ++ lit " service is unavailable")
  section_answered query (some response) =
      section_read query response.status (read_limited response.body (limit_above s.max_body_bytes))

  -- loadPlayerSupportUpstream behind http.NewRequestWithContext
  load_created : Request → ℕ → UpstreamQuery → Url → Bool → Exec Section
  load_created r player query target false = pure (
      unavailable_section (lit "request_unavailable") (lit "upstream request could not be created"))
  load_created r player query target true = do
    t ← past
    note (Event.forward (support_request r player target))
    pure (section_answered query (s.client t (support_request r player target)))

  section_target : UpstreamQuery → Route → Url
  section_target query route = record (route.target) {
    path = join_url_path route.target.path query.path;
    raw_query = encoded query.key query.value;
  }

  -- loadPlayerSupportUpstream behind the route's selection
  load_routed : Request → ℕ → UpstreamQuery → Option Route → Exec Section
  load_routed r player query none = pure (
      unavailable_section (lit "route_unavailable")
        (query.route_name ++ lit " route is unavailable"))
  load_routed r player query (some route) =
      load_created r player query (section_target query route)
        (p.request_valid (lit "GET") (section_target query route))

  pub load_player_support_upstream : Request → ℕ → UpstreamQuery → Exec Section
  load_player_support_upstream r player query =
      load_routed r player query (route_by_name s.routes query.route_name)

  -- The workers of loadPlayerSupport, in the order in which they call their services.
  load_all : Request → ℕ → List UpstreamQuery → Exec (List SectionResult)
  load_all r player [] = pure []
  load_all r player (query ∷ queries) = do
    section ← load_player_support_upstream r player query
    results ← load_all r player queries
    pure (record { name = query.name; section = section } ∷ results)

  pub load_player_support : SupportSchedule → Request → ℕ → Exec SupportResponse
  load_player_support schedule r player = do
    results ← load_all r player (schedule.start support_queries)
    generated_at ← draw s.now
    pure (
        collect (schedule.arrive results) (record {
          player_id = p.uuid_string player;
          generated_at = generated_at;
          partial = false;
          sections = no_sections;
        }))

  -- handlePlayerSupport behind the parsing of the player's id
  support_parsed : SupportSchedule → Request → AuditEntry → Option ℕ → Exec (Unit {0})
  support_parsed schedule r entry none =
      write_audited_error p s entry 400 (lit "invalid_user_id") (lit "user_id must be a UUID")
  support_parsed schedule r entry (some player) = do
    response ← load_player_support schedule r player
    write_audited_json p s entry 200 (printed p.json (support_json p.json p.time_json response))

  -- The request that beginDirectAudit returns with the entry.
  unfoldable pub in_context : Request → AuditEntry → Request
  in_context r entry = record r { context_id = some (p.uuid_string entry.request_id) }

  pub handle_player_support : SupportSchedule → Request → Exec (Unit {0})
  unfolding in_context
  handle_player_support schedule r = direct p s r player_support_admin_route_name λ entry.
      support_parsed schedule (in_context r entry) entry
        (p.uuid_parse (trim_space (r.path_value (lit "user_id"))))
