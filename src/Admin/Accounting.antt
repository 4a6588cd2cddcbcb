-- ===== src/Admin/Accounting.antt =====
-- What the audit log records of the administrators' own requests.
use gateway_service.Prelude.{
  ◌+◌, ℕ, ◌≡◌, refl, Bool, true, false, List, [], ◌∷◌, Option, none, some,
}
use gateway_service.Text.{Str, lit}
use gateway_service.Http.{IsFinal, Request}
use gateway_service.Audit.{AuditEntry}
use gateway_service.Filter.{AuditLogFilter}
use gateway_service.Filter.Parse.{Result, ok, err}
use gateway_service.Token.{extract_access_token}
use gateway_service.World.{
  Platform, Server, World, Event, Verified, AuditSink, AuthVerifier, AuditLogStore, Lookup, Exec,
}
use gateway_service.Proxy.Accounting.{IsClosed, closing}
use gateway_service.Header.{set}
use gateway_service.Proxy.Bookkeeping.{Bookkeeping, content_type-KeepsId}
use gateway_service.Proxy.Answering.{
  write_audited_error-IsAnswered, deny-IsAnswered, auth_down-IsAnswered, started_or_stop-IsAnswered,
}
use gateway_service.Admin.{
  begin_direct_audit, authorize_user, authorize_decided, authorize_token, authorize_presented,
  authorize_audit_log_admin, json_entry, write_audited_json, direct, direct_authorized,
  list_answered, list_stored, list_parsed, handle_audit_log_list, detail_answered, detail_stored,
  detail_parsed, handle_audit_log_detail,
}

module _ (p : Platform) (s : Server) (k : Bookkeeping p s) where
  -- A session that was turned away is answered; else the same record is pending.
  abbrev IsJudged : ℕ → Option AuditEntry → World → Type 0
  IsJudged id none w = k.answered w
  IsJudged id (some entry) w = (entry.request_id ≡ id) × k.pending id w

  authorize_user-IsJudged :
      (entry : AuditEntry) (user : ℕ) (admin : Bool) (w : World)
      → k.pending entry.request_id w
      → IsJudged entry.request_id
          (authorize_user p s entry user admin w).0
          (authorize_user p s entry user admin w).1
  unfolding authorize_user
  authorize_user-IsJudged entry user true w h = (refl, h)
  authorize_user-IsJudged entry user false w h =
      write_audited_error-IsAnswered p s k
        (record entry { auth_result = lit "forbidden"; user_id = some user }) 403 _ _ w refl h

  authorize_decided-IsJudged :
      (entry : AuditEntry) (v : Verified) (w : World)
      → k.pending entry.request_id w
      → IsJudged entry.request_id
          (authorize_decided p s entry v w).0
          (authorize_decided p s entry v w).1
  unfolding authorize_decided
  authorize_decided-IsJudged entry (Verified.user id) w h = authorize_user-IsJudged entry id _ w h
  authorize_decided-IsJudged entry Verified.invalid_session w h =
      deny-IsAnswered p s k entry (lit "invalid_session") w h
  authorize_decided-IsJudged entry Verified.auth_unavailable w h =
      auth_down-IsAnswered p s k entry (lit "auth_verification_failed") w h

  authorize_token-IsJudged :
      (entry : AuditEntry) (token : Str) (o : Option AuthVerifier) (w : World)
      → k.pending entry.request_id w
      → IsJudged entry.request_id
          (authorize_token p s entry token o w).0
          (authorize_token p s entry token o w).1
  unfolding authorize_token
  authorize_token-IsJudged entry token none w h =
      auth_down-IsAnswered p s k entry (lit "auth_verifier_missing") w h
  authorize_token-IsJudged entry token (some verifier) w h =
      authorize_decided-IsJudged entry (verifier w.trace token)
        (record w { trace = Event.verify token ∷ w.trace })
        (k.calls entry.request_id (Event.verify token) w tt h)

  authorize_presented-IsJudged :
      (entry : AuditEntry) (o : Option Str) (w : World)
      → k.pending entry.request_id w
      → IsJudged entry.request_id
          (authorize_presented p s entry o w).0
          (authorize_presented p s entry o w).1
  unfolding authorize_presented
  authorize_presented-IsJudged entry none w h =
      deny-IsAnswered p s k entry (lit "missing_session") w h
  authorize_presented-IsJudged entry (some token) w h =
      authorize_token-IsJudged entry token s.verifier w h

  pub write_audited_json-IsAnswered :
      (entry : AuditEntry) (status : ℕ) (payload : Option Str) (w : World)
      → IsFinal status
      → k.pending entry.request_id w
      → k.answered (write_audited_json p s entry status payload w).1
  unfolding write_audited_json
  write_audited_json-IsAnswered entry status none w final h =
      write_audited_error-IsAnswered p s k entry 500 _ _ w refl h
  write_audited_json-IsAnswered entry status (some body) w final h =
      k.ends (json_entry p s entry status body)
        (λ x. set x (lit "Content-Type") (lit "application/json")) body w (k.own status final) refl
        (content_type-KeepsId (lit "application/json")) h

  -- What a handler does behind the session finishes the record.
  abbrev pub Finishes : (AuditEntry → Exec (Unit {0})) → Type 0
  Finishes rest =
      (entry : AuditEntry) (w : World) → k.pending entry.request_id w → k.answered (rest entry w).1

  direct_authorized-IsAnswered :
      (rest : AuditEntry → Exec (Unit {0})) (o : Option AuditEntry) (id : ℕ) (w : World)
      → Finishes rest
      → IsJudged id o w
      → k.answered (direct_authorized p s rest o w).1
  unfolding direct_authorized
  direct_authorized-IsAnswered rest none id w f h = h
  direct_authorized-IsAnswered rest (some entry) id w f (same, h) = f entry w (rw same h)

  pub direct-IsAnswered :
      (r : Request) (route : Str) (rest : AuditEntry → Exec (Unit {0})) (w : World)
      → Finishes rest
      → w.trace ≡ []
      → w.writer.status ≡ 0
      → k.answered (direct p s r route rest w).1
  unfolding direct begin_direct_audit authorize_audit_log_admin gateway_service.Proxy.fresh_entry
  direct-IsAnswered r route rest w f e fresh =
      let b = begin_direct_audit p s r route w in
      started_or_stop-IsAnswered p s k b.0.0 _ b.1
        (k.begins (p.new_uuid (w.ticks + 1)) (record w { ticks = w.ticks + 1 + 1 }) e fresh)
        λ w' h.
          let a = authorize_audit_log_admin p s b.0.1 b.0.0 w' in
          direct_authorized-IsAnswered rest a.0 b.0.0.request_id a.1 f (
            authorize_presented-IsJudged b.0.0 (extract_access_token p b.0.1 s.auth_cookie_name) w'
              h)

  list_answered-IsAnswered :
      (entry : AuditEntry) (filter : AuditLogFilter) (o : Option (List Str)) (w : World)
      → k.pending entry.request_id w
      → k.answered (list_answered p s entry filter o w).1
  unfolding list_answered
  list_answered-IsAnswered entry filter none w h =
      write_audited_error-IsAnswered p s k entry 503 _ _ w refl h
  list_answered-IsAnswered entry filter (some items) w h =
      write_audited_json-IsAnswered entry 200 _ w refl h

  list_stored-IsAnswered :
      (entry : AuditEntry) (filter : AuditLogFilter) (o : Option AuditLogStore) (w : World)
      → k.pending entry.request_id w
      → k.answered (list_stored p s entry filter o w).1
  unfolding list_stored
  list_stored-IsAnswered entry filter none w h =
      write_audited_error-IsAnswered p s k entry 503 _ _ w refl h
  list_stored-IsAnswered entry filter (some store) w h =
      list_answered-IsAnswered entry filter (store.list_http_api_calls w.trace filter)
        (record w { trace = Event.list_calls filter ∷ w.trace })
        (k.calls entry.request_id (Event.list_calls filter) w tt h)

  list_parsed-IsAnswered :
      (entry : AuditEntry) (parsed : Result AuditLogFilter) (w : World)
      → k.pending entry.request_id w
      → k.answered (list_parsed p s entry parsed w).1
  unfolding list_parsed
  list_parsed-IsAnswered entry (err e) w h =
      write_audited_error-IsAnswered p s k entry 400 _ _ w refl h
  list_parsed-IsAnswered entry (ok filter) w h =
      list_stored-IsAnswered entry filter s.audit_log_store w h

  detail_answered-IsAnswered :
      (entry : AuditEntry) (answer : Lookup) (w : World)
      → k.pending entry.request_id w
      → k.answered (detail_answered p s entry answer w).1
  unfolding detail_answered
  detail_answered-IsAnswered entry Lookup.failed w h =
      write_audited_error-IsAnswered p s k entry 503 _ _ w refl h
  detail_answered-IsAnswered entry Lookup.missing w h =
      write_audited_error-IsAnswered p s k entry 404 _ _ w refl h
  detail_answered-IsAnswered entry (Lookup.found item) w h =
      write_audited_json-IsAnswered entry 200 _ w refl h

  detail_stored-IsAnswered :
      (entry : AuditEntry) (request_id : ℕ) (o : Option AuditLogStore) (w : World)
      → k.pending entry.request_id w
      → k.answered (detail_stored p s entry request_id o w).1
  unfolding detail_stored
  detail_stored-IsAnswered entry request_id none w h =
      write_audited_error-IsAnswered p s k entry 503 _ _ w refl h
  detail_stored-IsAnswered entry request_id (some store) w h =
      detail_answered-IsAnswered entry (store.get_http_api_call w.trace request_id)
        (record w { trace = Event.get_call request_id ∷ w.trace })
        (k.calls entry.request_id (Event.get_call request_id) w tt h)

  detail_parsed-IsAnswered :
      (entry : AuditEntry) (o : Option ℕ) (w : World)
      → k.pending entry.request_id w
      → k.answered (detail_parsed p s entry o w).1
  unfolding detail_parsed
  detail_parsed-IsAnswered entry none w h =
      write_audited_error-IsAnswered p s k entry 400 _ _ w refl h
  detail_parsed-IsAnswered entry (some id) w h =
      detail_stored-IsAnswered entry id s.audit_log_store w h

  pub handle_audit_log-IsAnswered :
      (r : Request) (w : World)
      → w.trace ≡ []
      → w.writer.status ≡ 0
      → k.answered (handle_audit_log_list p s r w).1
        × k.answered (handle_audit_log_detail p s r w).1
  unfolding handle_audit_log_list handle_audit_log_detail
  handle_audit_log-IsAnswered r w e fresh = (
    direct-IsAnswered r _ _ w (λ entry w' h. list_parsed-IsAnswered entry _ w' h) e fresh,
    direct-IsAnswered r _ _ w (λ entry w' h. detail_parsed-IsAnswered entry _ w' h) e fresh,
  )

-- With an audit sink, each request for the list or for one entry of the audit log leaves one record of
-- its own, complete, finished right before the response and with its status; unless the sink refuses
-- the record, when the client gets a 503 and nothing else happens.
pub handle_audit_log-IsClosed :
    (p : Platform) (s : Server) (sink : AuditSink) (r : Request) (w : World)
    → s.audit_sink ≡ some sink
    → w.trace ≡ []
    → w.writer.status ≡ 0
    → IsClosed sink
        (handle_audit_log_list p s r w).1.writer.status
        (handle_audit_log_list p s r w).1.trace
      × IsClosed sink
          (handle_audit_log_detail p s r w).1.writer.status
          (handle_audit_log_detail p s r w).1.trace
unfolding closing
handle_audit_log-IsClosed p s sink r w audited e fresh =
    handle_audit_log-IsAnswered p s (closing p s sink audited) r w e fresh
