-- ===== src/Support/Replay.antt =====
-- The replay of one pull operation: handlePlayerSupportPullReplay, loadPlayerSupportReplayEvidence and
-- readPlayerSupportUpstream of internal/gateway/player_support.go.
pub mod Gate
pub mod Accounting
pub mod Confined
use gateway_service.Prelude.{
  ℕ, Bool, true, false, not, ◌||◌, Option, none, some, List, [], ◌∷◌, ◌++◌, ltb, ◌==◌,
  if◌then◌else◌, length, is_empty,
}
use gateway_service.Text.{Str, lit, eqb, trim_space, itoa}
use gateway_service.Route.{Url, Route, route_by_name, join_url_path}
use gateway_service.Http.{Request, Upstream, limit_above, read_limited}
use gateway_service.Audit.{AuditEntry}
use gateway_service.Section.{
  Section, replay_json, unavailable_section, not_applicable_section, not_found_section, ok_section,
  is_unavailable,
}
use gateway_service.Section.Shapes.{
  player_support_ledger_entry, player_support_replay_backpack_detail,
  player_support_pull_replay_operation, ReplayOperation, operation_id_of, event_id_of,
}
use gateway_service.Json.{Shape, Meaning, encode, unmarshal, printed}
use gateway_service.World.{Platform, Server, Event, Exec, ◌>>=◌, ◌>>◌, pure, draw, note, past}
use gateway_service.Proxy.{write_audited_error}
use gateway_service.Admin.{direct, write_audited_json}
use gateway_service.Support.{
  Schedule, player_support_admin_route_name, is_failure, encoded, support_request, in_context,
}

-- The two loads of the replay view.
pub data EvidenceName : Type 0 where
  asset_spend backpack_delivery : EvidenceName

pub record EvidenceResult : Type 0 where
  pub name : EvidenceName
  pub section : Section

pub record Evidence : Type 0 where
  pub asset_spend : Section
  pub backpack_delivery : Section

abbrev pub ReplaySchedule : Type 0
ReplaySchedule = Schedule EvidenceName EvidenceResult

abbrev no_event : Section
no_event = not_applicable_section (lit "pull event has not been created")

-- The `switch` of handlePlayerSupportPullReplay.
set_evidence : EvidenceName → Section → Evidence → Evidence
set_evidence EvidenceName.asset_spend section x = record x { asset_spend = section }
set_evidence EvidenceName.backpack_delivery section x = record x { backpack_delivery = section }

collect_evidence : List EvidenceResult → Evidence → Evidence
unfolding set_evidence
collect_evidence [] x = x
collect_evidence (result ∷ results) x =
    collect_evidence results (set_evidence result.name result.section x)

-- The type that loadPlayerSupportReplayEvidence unmarshals into.
pub evidence_destination : EvidenceName → Shape
evidence_destination EvidenceName.asset_spend = player_support_ledger_entry
evidence_destination EvidenceName.backpack_delivery = player_support_replay_backpack_detail

module _ (p : Platform) (s : Server) where
  -- readPlayerSupportUpstream behind the reading of the answer's body; `none` is an error.
  fetched_body : ℕ → Option Str → Option (Str × ℕ)
  fetched_body status none = none
  fetched_body status (some body) =
      if ltb s.max_body_bytes (length body) then none else some (body, status)

  fetched : Option Upstream → Option (Str × ℕ)
  unfolding fetched_body
  fetched none = none
  fetched (some response) =
      fetched_body response.status (read_limited response.body (limit_above s.max_body_bytes))

  -- readPlayerSupportUpstream's assignment of the query
  with_query : Option (Str × Str) → Url → Url
  with_query none target = target
  with_query (some (key, value)) target = record target { raw_query = encoded p s key value }

  -- readPlayerSupportUpstream behind http.NewRequestWithContext
  read_created : Request → ℕ → Url → Bool → Exec (Option (Str × ℕ))
  read_created r player target false = pure none
  read_created r player target true = do
    t ← past
    note (Event.forward (support_request p s r player target))
    pure (fetched (s.client t (support_request p s r player target)))

  read_target : Str → Option (Str × Str) → Route → Url
  read_target path query route =
      with_query query (record (route.target) { path = join_url_path route.target.path path })

  -- readPlayerSupportUpstream behind the route's selection
  read_routed : Request → ℕ → Str → Option (Str × Str) → Option Route → Exec (Option (Str × ℕ))
  read_routed r player path query none = pure none
  read_routed r player path query (some route) =
      read_created r player (read_target path query route)
        (p.request_valid (lit "GET") (read_target path query route))

  read_player_support_upstream :
      Request → ℕ → Str → Str → Option (Str × Str) → Exec (Option (Str × ℕ))
  read_player_support_upstream r player route_name path query =
      read_routed r player path query (route_by_name s.routes route_name)

  -- loadPlayerSupportReplayEvidence behind json.Unmarshal; no value of these types is one that
  -- json.Marshal refuses.
  evidence_decoded : (shape : Shape) → Option (Meaning shape) → Section
  evidence_decoded shape none =
      unavailable_section (lit "invalid_upstream_response")
        (lit "upstream response was not valid JSON")
  evidence_decoded shape (some value) = ok_section (encode p.json.quote shape value)

  -- loadPlayerSupportReplayEvidence behind readPlayerSupportUpstream
  evidence_read : Str → EvidenceName → Option (Str × ℕ) → Section
  evidence_read route_name name none =
      unavailable_section (lit "upstream_unavailable") (route_name ++ lit " service is unavailable")
  evidence_read route_name name (some (body, status)) =
      if status == 404
      then not_found_section
      else if is_failure status
      then unavailable_section (lit "upstream_http_" ++ itoa status)
          (route_name ++ lit " service returned an error")
      else evidence_decoded (evidence_destination name)
          (unmarshal p.json (evidence_destination name) body)

  load_player_support_replay_evidence :
      Request → ℕ → Str → Str → Option (Str × Str) → EvidenceName → Exec Section
  load_player_support_replay_evidence r player route_name path query name = do
    answer ← read_player_support_upstream r player route_name path query
    pure (evidence_read route_name name answer)

  -- What the two workers of handlePlayerSupportPullReplay call.
  load_evidence : Request → ℕ → Str → EvidenceName → Exec Section
  load_evidence r player event EvidenceName.asset_spend =
      load_player_support_replay_evidence r player (lit "assets") (lit "/me/ledger-entry")
        (some (lit "idempotency_key", lit "spend:gacha-pull:" ++ event)) EvidenceName.asset_spend
  load_evidence r player event EvidenceName.backpack_delivery =
      load_player_support_replay_evidence r player (lit "backpack")
        (lit "/me/pull-events/" ++ p.path_escape event) none EvidenceName.backpack_delivery

  load_all_evidence : Request → ℕ → Str → List EvidenceName → Exec (List EvidenceResult)
  load_all_evidence r player event [] = pure []
  load_all_evidence r player event (name ∷ names) = do
    section ← load_evidence r player event name
    results ← load_all_evidence r player event names
    pure (record { name = name; section = section } ∷ results)

  -- The evidence for an operation whose request has an event, and for one whose has none.
  pub replay_evidence : ReplaySchedule → Request → ℕ → Option Str → Exec Evidence
  replay_evidence schedule r player none =
      pure (record { asset_spend = no_event; backpack_delivery = no_event })
  replay_evidence schedule r player (some event) =
      if is_empty (trim_space event)
      then pure (record { asset_spend = no_event; backpack_delivery = no_event })
      else do
        results ←
            load_all_evidence r player (trim_space event)
              (schedule.start (EvidenceName.asset_spend ∷ EvidenceName.backpack_delivery ∷ []))
        pure (
            collect_evidence (schedule.arrive results)
              (record { asset_spend = no_event; backpack_delivery = no_event }))

  -- handlePlayerSupportPullReplay behind json.Unmarshal
  replay_decoded :
      ReplaySchedule → Request → AuditEntry → ℕ → ℕ → Option ReplayOperation → Exec (Unit {0})
  replay_decoded schedule r entry player id none =
      write_audited_error p s entry 502 (lit "invalid_pull_replay")
        (lit "pull replay response was invalid")
  replay_decoded schedule r entry player id (some operation) =
      if not (eqb (operation_id_of operation) (p.uuid_string id))
      then write_audited_error p s entry 502 (lit "invalid_pull_replay")
          (lit "pull replay response was invalid")
      else do
        evidence ← replay_evidence schedule r player (event_id_of operation)
        generated_at ← draw s.now
        write_audited_json p s entry 200 (
            printed p.json (
              replay_json p.json p.time_json (record {
                player_id = p.uuid_string player;
                generated_at = generated_at;
                partial =
                    is_unavailable evidence.asset_spend.status
                    || is_unavailable evidence.backpack_delivery.status;
                operation = operation;
                asset_spend = evidence.asset_spend;
                backpack_delivery = evidence.backpack_delivery;
              })))

  -- handlePlayerSupportPullReplay behind the reading of the operation
  replay_read : ReplaySchedule → Request → AuditEntry → ℕ → ℕ → Option (Str × ℕ) → Exec (Unit {0})
  replay_read schedule r entry player id none =
      write_audited_error p s entry 502 (lit "pull_replay_unavailable")
        (lit "pull replay is unavailable")
  replay_read schedule r entry player id (some (body, status)) =
      if status == 404
      then write_audited_error p s entry 404 (lit "pull_operation_not_found")
          (lit "pull operation was not found")
      else if is_failure status
      then write_audited_error p s entry 502 (lit "pull_replay_unavailable")
          (lit "pull replay is unavailable")
      else replay_decoded schedule r entry player id
          (unmarshal p.json player_support_pull_replay_operation body)

  -- handlePlayerSupportPullReplay behind the parsing of the ids
  replay_identified : ReplaySchedule → Request → AuditEntry → ℕ → Option ℕ → Exec (Unit {0})
  replay_identified schedule r entry player none =
      write_audited_error p s entry 400 (lit "invalid_operation_id")
        (lit "operation_id must be a UUID")
  replay_identified schedule r entry player (some id) = do
    answer ←
        read_player_support_upstream r player (lit "gacha")
          (lit "/me/pulls/operations/" ++ (p.path_escape (p.uuid_string id) ++ lit "/replay")) none
    replay_read schedule r entry player id answer

  replay_parsed : ReplaySchedule → Request → AuditEntry → Option ℕ → Exec (Unit {0})
  replay_parsed schedule r entry none =
      write_audited_error p s entry 400 (lit "invalid_user_id") (lit "user_id must be a UUID")
  replay_parsed schedule r entry (some player) =
      replay_identified schedule r entry player
        (p.uuid_parse (trim_space (r.path_value (lit "operation_id"))))

  pub handle_player_support_pull_replay : ReplaySchedule → Request → Exec (Unit {0})
  handle_player_support_pull_replay schedule r =
      direct p s r player_support_admin_route_name λ entry.
        replay_parsed schedule (in_context p s r entry) entry
          (p.uuid_parse (trim_space (r.path_value (lit "user_id"))))
