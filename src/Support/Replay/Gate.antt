-- ===== src/Support/Replay/Gate.antt =====
-- Whom the replay of a pull operation is made for, and what the gateway asks its services for it.
use gateway_service.Prelude.{
  ℕ, ◌≡◌, refl, Bool, true, false, List, [], ◌∷◌, Option, none, some, Bool-cases, inl, inr,
  is_empty, ◌==◌,
}
use gateway_service.Text.{Str, lit, eqb, trim_space}
use gateway_service.Route.{Url, Route, route_by_name}
use gateway_service.Http.{Request}
use gateway_service.Audit.{AuditEntry}
use gateway_service.Section.Shapes.{
  ReplayOperation, operation_id_of, event_id_of, player_support_pull_replay_operation,
}
use gateway_service.Json.{unmarshal}
use gateway_service.World.{Platform, Server, World, Event}
use gateway_service.Admin.Gate.{
  ReadsOnly, IsAdminSession, write_audited_error-ReadsOnly, write_audited_json-ReadsOnly,
  direct-ReadsOnly,
}
use gateway_service.Support.{support_request, in_context, is_failure}
use gateway_service.Support.Gate.{SupportReads, support_request-IsPlayerCall, route_by_name-Memᴰ}
use gateway_service.Support.Replay.{
  EvidenceName, ReplaySchedule, with_query, read_created, read_target, read_routed,
  read_player_support_upstream, load_player_support_replay_evidence, load_evidence,
  load_all_evidence, replay_evidence, replay_decoded, replay_read, replay_identified, replay_parsed,
  handle_player_support_pull_replay,
}

with_query-keeps :
    (p : Platform) (s : Server) (query : Option (Str × Str)) (target : Url)
    → ((with_query p s query target).host ≡ target.host)
      × ((with_query p s query target).scheme ≡ target.scheme)
unfolding with_query
with_query-keeps p s none target = (refl, refl)
with_query-keeps p s (some (key, value)) target = (refl, refl)

module _ (p : Platform) (s : Server) (r : Request) (player : ℕ)
    (named : p.uuid_parse (trim_space (r.path_value (lit "user_id"))) ≡ some player)
    (admin : IsAdminSession p s r) where
  read_created-ReadsOnly :
      (r' : Request) (target : Url) (valid : Bool) (w : World)
      → SupportReads p s r (Event.forward (support_request p s r' player target))
      → ReadsOnly (SupportReads p s r) w.trace
      → ReadsOnly (SupportReads p s r) (read_created p s r' player target valid w).1.trace
  unfolding read_created
  read_created-ReadsOnly r' target false w q h = h
  read_created-ReadsOnly r' target true w q h = (q, h)

  read_routed-ReadsOnly :
      (r' : Request) (route_name path : Str) (query : Option (Str × Str)) (o : Option Route)
      (w : World)
      → route_by_name s.routes route_name ≡ o
      → ReadsOnly (SupportReads p s r) w.trace
      → ReadsOnly (SupportReads p s r) (read_routed p s r' player path query o w).1.trace
  unfolding read_routed read_target
  read_routed-ReadsOnly r' route_name path query none w found h = h
  read_routed-ReadsOnly r' route_name path query (some route) w found h =
      read_created-ReadsOnly r' _ _ w
        (
          admin,
          support_request-IsPlayerCall p s r player named r' route _
              (route_by_name-Memᴰ s.routes route_name route found) (with_query-keeps p s query _).0
              (with_query-keeps p s query _).1,
        )
        h

  load_evidence-ReadsOnly :
      (r' : Request) (event : Str) (name : EvidenceName) (w : World)
      → ReadsOnly (SupportReads p s r) w.trace
      → ReadsOnly (SupportReads p s r) (load_evidence p s r' player event name w).1.trace
  unfolding load_evidence load_player_support_replay_evidence read_player_support_upstream
  load_evidence-ReadsOnly r' event EvidenceName.asset_spend w h =
      read_routed-ReadsOnly r' (lit "assets") _ _ _ w refl h
  load_evidence-ReadsOnly r' event EvidenceName.backpack_delivery w h =
      read_routed-ReadsOnly r' (lit "backpack") _ _ _ w refl h

  load_all_evidence-ReadsOnly :
      (r' : Request) (event : Str) (names : List EvidenceName) (w : World)
      → ReadsOnly (SupportReads p s r) w.trace
      → ReadsOnly (SupportReads p s r) (load_all_evidence p s r' player event names w).1.trace
  unfolding load_all_evidence
  load_all_evidence-ReadsOnly r' event [] w h = h
  load_all_evidence-ReadsOnly r' event (name ∷ names) w h =
      load_all_evidence-ReadsOnly r' event names _ (load_evidence-ReadsOnly r' event name w h)

  replay_evidence-ReadsOnly :
      (schedule : ReplaySchedule) (r' : Request) (o : Option Str) (w : World)
      → ReadsOnly (SupportReads p s r) w.trace
      → ReadsOnly (SupportReads p s r) (replay_evidence p s schedule r' player o w).1.trace
  unfolding replay_evidence
  replay_evidence-ReadsOnly schedule r' none w h = h
  replay_evidence-ReadsOnly schedule r' (some event) w h =
      elim (Bool-cases (is_empty (trim_space event))) [
        | inl blank ↦ rw blank h
        | inr filled ↦ rw filled (load_all_evidence-ReadsOnly r' (trim_space event) _ w h)
      ]

  replay_decoded-ReadsOnly :
      (schedule : ReplaySchedule) (r' : Request) (entry : AuditEntry) (id : ℕ)
      (o : Option ReplayOperation) (w : World)
      → ReadsOnly (SupportReads p s r) w.trace
      → ReadsOnly (SupportReads p s r) (replay_decoded p s schedule r' entry player id o w).1.trace
  unfolding replay_decoded
  replay_decoded-ReadsOnly schedule r' entry id none w h =
      write_audited_error-ReadsOnly p s (SupportReads p s r) entry 502 _ _ w h
  replay_decoded-ReadsOnly schedule r' entry id (some operation) w h =
      elim (Bool-cases (eqb (operation_id_of operation) (p.uuid_string id))) [
        | inl same ↦ rw same (
            write_audited_json-ReadsOnly p s (SupportReads p s r) entry 200 _ _
              (replay_evidence-ReadsOnly schedule r' (event_id_of operation) w h))
        | inr other ↦
            rw other (write_audited_error-ReadsOnly p s (SupportReads p s r) entry 502 _ _ w h)
      ]

  replay_read-ReadsOnly :
      (schedule : ReplaySchedule) (r' : Request) (entry : AuditEntry) (id : ℕ)
      (o : Option (Str × ℕ)) (w : World)
      → ReadsOnly (SupportReads p s r) w.trace
      → ReadsOnly (SupportReads p s r) (replay_read p s schedule r' entry player id o w).1.trace
  unfolding replay_read
  replay_read-ReadsOnly schedule r' entry id none w h =
      write_audited_error-ReadsOnly p s (SupportReads p s r) entry 502 _ _ w h
  replay_read-ReadsOnly schedule r' entry id (some (body, status)) w h =
      elim (Bool-cases (status == 404)) [
        | inl missing ↦
            rw missing (write_audited_error-ReadsOnly p s (SupportReads p s r) entry 404 _ _ w h)
        | inr present ↦ elim (Bool-cases (is_failure status)) [
          | inl failure ↦
              rw (present, failure)
                (write_audited_error-ReadsOnly p s (SupportReads p s r) entry 502 _ _ w h)
          | inr success ↦
              rw (present, success)
                (replay_decoded-ReadsOnly schedule r' entry id
                  (unmarshal p.json player_support_pull_replay_operation body) w h)
        ]
      ]

  replay_identified-ReadsOnly :
      (schedule : ReplaySchedule) (r' : Request) (entry : AuditEntry) (o : Option ℕ) (w : World)
      → ReadsOnly (SupportReads p s r) w.trace
      → ReadsOnly (SupportReads p s r) (replay_identified p s schedule r' entry player o w).1.trace
  unfolding replay_identified read_player_support_upstream
  replay_identified-ReadsOnly schedule r' entry none w h =
      write_audited_error-ReadsOnly p s (SupportReads p s r) entry 400 _ _ w h
  replay_identified-ReadsOnly schedule r' entry (some id) w h =
      replay_read-ReadsOnly schedule r' entry id _ _
        (read_routed-ReadsOnly r' (lit "gacha") _ none _ w refl h)

module _ (p : Platform) (s : Server) (r : Request) where
  replay_parsed-ReadsOnly :
      (schedule : ReplaySchedule) (r' : Request) (entry : AuditEntry) (o : Option ℕ) (w : World)
      → p.uuid_parse (trim_space (r.path_value (lit "user_id"))) ≡ o
      → IsAdminSession p s r
      → ReadsOnly (SupportReads p s r) w.trace
      → ReadsOnly (SupportReads p s r) (replay_parsed p s schedule r' entry o w).1.trace
  unfolding replay_parsed
  replay_parsed-ReadsOnly schedule r' entry none w named admin h =
      write_audited_error-ReadsOnly p s (SupportReads p s r) entry 400 _ _ w h
  replay_parsed-ReadsOnly schedule r' entry (some player) w named admin h =
      replay_identified-ReadsOnly p s r player named admin schedule r' entry _ w h

-- The replay of a pull operation calls the internal services only for a session that the verifier
-- gives to an administrator, and each call is a GET to the host of a configured route for the player
-- that the path names, without the client's credentials, whatever the services answer and in
-- whatever order the workers run.
pub handle_player_support_pull_replay-ReadsOnly :
    (p : Platform) (s : Server) (schedule : ReplaySchedule) (r : Request) (w : World)
    → w.trace ≡ []
    → ReadsOnly (SupportReads p s r) (handle_player_support_pull_replay p s schedule r w).1.trace
unfolding handle_player_support_pull_replay
handle_player_support_pull_replay-ReadsOnly p s schedule r w e =
    direct-ReadsOnly p s r (SupportReads p s r) _ _ w
      (λ entry w' admin h.
        replay_parsed-ReadsOnly p s r schedule (in_context p s r entry) entry _ w' refl admin h)
      e
