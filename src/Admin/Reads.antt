-- ===== src/Admin/Reads.antt =====
-- What the handlers of the audit log do behind an administrator's session.
use gateway_service.Prelude.{ℕ, ◌≡◌, List, [], ◌∷◌, Option, none, some}
use gateway_service.Text.{Str}
use gateway_service.Http.{Request}
use gateway_service.Audit.{AuditEntry}
use gateway_service.Filter.{AuditLogFilter}
use gateway_service.Filter.Parse.{Result, ok, err}
use gateway_service.World.{Platform, Server, World, Event, AuditLogStore, Lookup}
use gateway_service.Admin.{
  list_answered, list_stored, list_parsed, handle_audit_log_list, detail_answered, detail_stored,
  detail_parsed, handle_audit_log_detail,
}
use gateway_service.Admin.Gate.{
  ReadsOnly, IsAdminSession, write_audited_error-ReadsOnly, write_audited_json-ReadsOnly,
  direct-ReadsOnly,
}

-- What the handlers of the audit log may do: read it for an administrator, and call no service.
abbrev pub AuditReads : Platform → Server → Request → Event → Type 0
AuditReads p s r (Event.list_calls f) = IsAdminSession p s r
AuditReads p s r (Event.get_call n) = IsAdminSession p s r
AuditReads p s r _ = ⊥

module _ (p : Platform) (s : Server) (P : Event → Type 0) where
  list_parsed-ReadsOnly :
      (entry : AuditEntry) (parsed : Result AuditLogFilter) (w : World)
      → ((filter : AuditLogFilter) → P (Event.list_calls filter))
      → ReadsOnly P w.trace
      → ReadsOnly P (list_parsed p s entry parsed w).1.trace
  unfolding list_parsed
  list_parsed-ReadsOnly entry (err e) w reason h =
      write_audited_error-ReadsOnly p s P entry 400 _ _ w h
  list_parsed-ReadsOnly entry (ok filter) w reason h = stored s.audit_log_store
    where
      answered :
          (o : Option (List Str)) (w' : World)
          → ReadsOnly P w'.trace
          → ReadsOnly P (list_answered p s entry filter o w').1.trace
      answered none w' h' =
          unfold list_answered in write_audited_error-ReadsOnly p s P entry 503 _ _ w' h'
      answered (some items) w' h' =
          unfold list_answered in write_audited_json-ReadsOnly p s P entry 200 _ w' h'

      stored : (o : Option AuditLogStore) → ReadsOnly P (list_stored p s entry filter o w).1.trace
      stored none = unfold list_stored in write_audited_error-ReadsOnly p s P entry 503 _ _ w h
      stored (some store) =
          unfold list_stored in
          answered (store.list_http_api_calls w.trace filter)
            (record w { trace = Event.list_calls filter ∷ w.trace }) (reason filter, h)

  detail_parsed-ReadsOnly :
      (entry : AuditEntry) (o : Option ℕ) (w : World)
      → ((id : ℕ) → P (Event.get_call id))
      → ReadsOnly P w.trace
      → ReadsOnly P (detail_parsed p s entry o w).1.trace
  unfolding detail_parsed
  detail_parsed-ReadsOnly entry none w reason h =
      write_audited_error-ReadsOnly p s P entry 400 _ _ w h
  detail_parsed-ReadsOnly entry (some id) w reason h = stored s.audit_log_store
    where
      answered :
          (answer : Lookup) (w' : World)
          → ReadsOnly P w'.trace
          → ReadsOnly P (detail_answered p s entry answer w').1.trace
      answered Lookup.failed w' h' =
          unfold detail_answered in write_audited_error-ReadsOnly p s P entry 503 _ _ w' h'
      answered Lookup.missing w' h' =
          unfold detail_answered in write_audited_error-ReadsOnly p s P entry 404 _ _ w' h'
      answered (Lookup.found item) w' h' =
          unfold detail_answered in write_audited_json-ReadsOnly p s P entry 200 _ w' h'

      stored : (o : Option AuditLogStore) → ReadsOnly P (detail_stored p s entry id o w).1.trace
      stored none = unfold detail_stored in write_audited_error-ReadsOnly p s P entry 503 _ _ w h
      stored (some store) =
          unfold detail_stored in
          answered (store.get_http_api_call w.trace id)
            (record w { trace = Event.get_call id ∷ w.trace }) (reason id, h)

-- The handlers of the audit log read it only for a session that the verifier gives to an
-- administrator, and never call an internal service, whatever the services answer.
pub handle_audit_log-ReadsOnly :
    (p : Platform) (s : Server) (r : Request) (w : World)
    → w.trace ≡ []
    → ReadsOnly (AuditReads p s r) (handle_audit_log_list p s r w).1.trace
      × ReadsOnly (AuditReads p s r) (handle_audit_log_detail p s r w).1.trace
unfolding handle_audit_log_list handle_audit_log_detail
handle_audit_log-ReadsOnly p s r w e = (
  direct-ReadsOnly p s r (AuditReads p s r) _ _ w
      (λ entry w' admin h. list_parsed-ReadsOnly p s (AuditReads p s r) entry _ w' (λ _. admin) h)
      e,
  direct-ReadsOnly p s r (AuditReads p s r) _ _ w
      (λ entry w' admin h. detail_parsed-ReadsOnly p s (AuditReads p s r) entry _ w' (λ _. admin) h)
      e,
)
