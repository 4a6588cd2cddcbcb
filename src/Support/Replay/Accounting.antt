-- ===== src/Support/Replay/Accounting.antt =====
-- What the audit log records of the views of a player.
use gateway_service.Prelude.{
  ℕ, ◌≡◌, refl, Bool, true, false, List, [], ◌∷◌, Option, none, some, Bool-cases, inl, inr,
  is_empty, ◌==◌,
}
use gateway_service.Text.{Str, eqb, trim_space}
use gateway_service.Route.{Url, Route}
use gateway_service.Http.{Request}
use gateway_service.Audit.{AuditEntry}
use gateway_service.Section.Shapes.{
  ReplayOperation, operation_id_of, event_id_of, player_support_pull_replay_operation,
}
use gateway_service.Json.{unmarshal}
use gateway_service.World.{Platform, Server, World, AuditSink, Event}
use gateway_service.Proxy.Accounting.{IsClosed, closing}
use gateway_service.Proxy.Bookkeeping.{Bookkeeping}
use gateway_service.Proxy.Answering.{write_audited_error-IsAnswered}
use gateway_service.Admin.Accounting.{direct-IsAnswered, write_audited_json-IsAnswered}
use gateway_service.Support.{
  UpstreamQuery, SupportSchedule, load_created, load_routed, load_player_support_upstream, load_all,
  load_player_support, support_parsed, handle_player_support, support_queries, in_context,
  support_request, is_failure,
}
use gateway_service.Support.Replay.{
  EvidenceName, ReplaySchedule, read_created, read_routed, read_player_support_upstream,
  load_player_support_replay_evidence, load_evidence, load_all_evidence, replay_evidence,
  replay_decoded, replay_read, replay_identified, replay_parsed, handle_player_support_pull_replay,
}

-- The loads leave the record open and the response unwritten.
module _ (p : Platform) (s : Server) (r : Request) (player : ℕ) (k : Bookkeeping p s) (id : ℕ) where
  load_created-IsPending :
      (query : UpstreamQuery) (target : Url) (valid : Bool) (w : World)
      → k.pending id w
      → k.pending id (load_created p s r player query target valid w).1
  unfolding load_created
  load_created-IsPending query target false w h = h
  load_created-IsPending query target true w h =
      k.calls id (Event.forward (support_request p s r player target)) w tt h

  load_routed-IsPending :
      (query : UpstreamQuery) (o : Option Route) (w : World)
      → k.pending id w
      → k.pending id (load_routed p s r player query o w).1
  unfolding load_routed
  load_routed-IsPending query none w h = h
  load_routed-IsPending query (some route) w h = load_created-IsPending query _ _ w h

  load_all-IsPending :
      (queries : List UpstreamQuery) (w : World)
      → k.pending id w
      → k.pending id (load_all p s r player queries w).1
  unfolding load_all load_player_support_upstream
  load_all-IsPending [] w h = h
  load_all-IsPending (query ∷ queries) w h =
      load_all-IsPending queries _ (load_routed-IsPending query _ w h)

  read_created-IsPending :
      (target : Url) (valid : Bool) (w : World)
      → k.pending id w
      → k.pending id (read_created p s r player target valid w).1
  unfolding read_created
  read_created-IsPending target false w h = h
  read_created-IsPending target true w h =
      k.calls id (Event.forward (support_request p s r player target)) w tt h

  read_routed-IsPending :
      (path : Str) (query : Option (Str × Str)) (o : Option Route) (w : World)
      → k.pending id w
      → k.pending id (read_routed p s r player path query o w).1
  unfolding read_routed
  read_routed-IsPending path query none w h = h
  read_routed-IsPending path query (some route) w h = read_created-IsPending _ _ w h

  load_evidence-IsPending :
      (event : Str) (name : EvidenceName) (w : World)
      → k.pending id w
      → k.pending id (load_evidence p s r player event name w).1
  unfolding load_evidence load_player_support_replay_evidence read_player_support_upstream
  load_evidence-IsPending event EvidenceName.asset_spend w h = read_routed-IsPending _ _ _ w h
  load_evidence-IsPending event EvidenceName.backpack_delivery w h = read_routed-IsPending _ _ _ w h

  load_all_evidence-IsPending :
      (event : Str) (names : List EvidenceName) (w : World)
      → k.pending id w
      → k.pending id (load_all_evidence p s r player event names w).1
  unfolding load_all_evidence
  load_all_evidence-IsPending event [] w h = h
  load_all_evidence-IsPending event (name ∷ names) w h =
      load_all_evidence-IsPending event names _ (load_evidence-IsPending event name w h)

  replay_evidence-IsPending :
      (schedule : ReplaySchedule) (o : Option Str) (w : World)
      → k.pending id w
      → k.pending id (replay_evidence p s schedule r player o w).1
  unfolding replay_evidence
  replay_evidence-IsPending schedule none w h = h
  replay_evidence-IsPending schedule (some event) w h =
      elim (Bool-cases (is_empty (trim_space event))) [
        | inl blank ↦ rw blank h
        | inr filled ↦ rw filled (load_all_evidence-IsPending (trim_space event) _ w h)
      ]

module _ (p : Platform) (s : Server) (k : Bookkeeping p s) where
  support_parsed-IsAnswered :
      (schedule : SupportSchedule) (r : Request) (entry : AuditEntry) (o : Option ℕ) (w : World)
      → k.pending entry.request_id w
      → k.answered (support_parsed p s schedule r entry o w).1
  unfolding support_parsed load_player_support
  support_parsed-IsAnswered schedule r entry none w h =
      write_audited_error-IsAnswered p s k entry 400 _ _ w refl h
  support_parsed-IsAnswered schedule r entry (some player) w h =
      write_audited_json-IsAnswered p s k entry 200 _ _ refl (
        k.ticks entry.request_id _ _
          (load_all-IsPending p s r player k entry.request_id (schedule.start support_queries) w h))

  replay_decoded-IsAnswered :
      (schedule : ReplaySchedule) (r : Request) (entry : AuditEntry) (player id : ℕ)
      (o : Option ReplayOperation) (w : World)
      → k.pending entry.request_id w
      → k.answered (replay_decoded p s schedule r entry player id o w).1
  unfolding replay_decoded
  replay_decoded-IsAnswered schedule r entry player id none w h =
      write_audited_error-IsAnswered p s k entry 502 _ _ w refl h
  replay_decoded-IsAnswered schedule r entry player id (some operation) w h =
      elim (Bool-cases (eqb (operation_id_of operation) (p.uuid_string id))) [
        | inl same ↦ rw same (
            write_audited_json-IsAnswered p s k entry 200 _ _ refl (
              k.ticks entry.request_id _ _ (
                replay_evidence-IsPending p s r player k entry.request_id schedule
                  (event_id_of operation) w h)))
        | inr other ↦ rw other (write_audited_error-IsAnswered p s k entry 502 _ _ w refl h)
      ]

  replay_read-IsAnswered :
      (schedule : ReplaySchedule) (r : Request) (entry : AuditEntry) (player id : ℕ)
      (o : Option (Str × ℕ)) (w : World)
      → k.pending entry.request_id w
      → k.answered (replay_read p s schedule r entry player id o w).1
  unfolding replay_read
  replay_read-IsAnswered schedule r entry player id none w h =
      write_audited_error-IsAnswered p s k entry 502 _ _ w refl h
  replay_read-IsAnswered schedule r entry player id (some (body, status)) w h =
      elim (Bool-cases (status == 404)) [
        | inl missing ↦ rw missing (write_audited_error-IsAnswered p s k entry 404 _ _ w refl h)
        | inr present ↦ elim (Bool-cases (is_failure status)) [
          | inl failure ↦
              rw (present, failure) (write_audited_error-IsAnswered p s k entry 502 _ _ w refl h)
          | inr success ↦
              rw (present, success)
                (replay_decoded-IsAnswered schedule r entry player id
                  (unmarshal p.json player_support_pull_replay_operation body) w h)
        ]
      ]

  replay_identified-IsAnswered :
      (schedule : ReplaySchedule) (r : Request) (entry : AuditEntry) (player : ℕ) (o : Option ℕ)
      (w : World)
      → k.pending entry.request_id w
      → k.answered (replay_identified p s schedule r entry player o w).1
  unfolding replay_identified read_player_support_upstream
  replay_identified-IsAnswered schedule r entry player none w h =
      write_audited_error-IsAnswered p s k entry 400 _ _ w refl h
  replay_identified-IsAnswered schedule r entry player (some id) w h =
      replay_read-IsAnswered schedule r entry player id _ _
        (read_routed-IsPending p s r player k entry.request_id _ none _ w h)

  replay_parsed-IsAnswered :
      (schedule : ReplaySchedule) (r : Request) (entry : AuditEntry) (o : Option ℕ) (w : World)
      → k.pending entry.request_id w
      → k.answered (replay_parsed p s schedule r entry o w).1
  unfolding replay_parsed
  replay_parsed-IsAnswered schedule r entry none w h =
      write_audited_error-IsAnswered p s k entry 400 _ _ w refl h
  replay_parsed-IsAnswered schedule r entry (some player) w h =
      replay_identified-IsAnswered schedule r entry player _ w h

  pub handle_player_support-IsAnswered :
      (schedule : SupportSchedule) (replay : ReplaySchedule) (r : Request) (w : World)
      → w.trace ≡ []
      → w.writer.status ≡ 0
      → k.answered (handle_player_support p s schedule r w).1
        × k.answered (handle_player_support_pull_replay p s replay r w).1
  unfolding handle_player_support handle_player_support_pull_replay
  handle_player_support-IsAnswered schedule replay r w e f = (
    direct-IsAnswered p s k r _ _ w
        (λ entry w' h. support_parsed-IsAnswered schedule (in_context p s r entry) entry _ w' h) e
        f,
    direct-IsAnswered p s k r _ _ w
        (λ entry w' h. replay_parsed-IsAnswered replay (in_context p s r entry) entry _ w' h) e f,
  )

-- With an audit sink, each request for a view of a player or for a replay leaves one complete audit
-- record, finished right before the response and with its status, whatever the workers meet; unless
-- the sink refuses the record, when the client gets a 503 and nothing else happens.
pub handle_player_support-IsClosed :
    (p : Platform) (s : Server) (sink : AuditSink) (schedule : SupportSchedule)
    (replay : ReplaySchedule) (r : Request) (w : World)
    → s.audit_sink ≡ some sink
    → w.trace ≡ []
    → w.writer.status ≡ 0
    → IsClosed sink
        (handle_player_support p s schedule r w).1.writer.status
        (handle_player_support p s schedule r w).1.trace
      × IsClosed sink
          (handle_player_support_pull_replay p s replay r w).1.writer.status
          (handle_player_support_pull_replay p s replay r w).1.trace
unfolding closing
handle_player_support-IsClosed p s sink schedule replay r w audited e f =
    handle_player_support-IsAnswered p s (closing p s sink audited) schedule replay r w e f
