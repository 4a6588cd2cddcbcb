-- ===== src/Admin/Views.antt =====
-- What writeAuditedJSON encodes for the audit log: auditLogListResponse and auditLogDetailResponse of
-- internal/gateway/admin_audit.go.
use gateway_service.Prelude.{Option, some, List, [], ◌∷◌, length, ℤ, pos, ◌>>=◌}
use gateway_service.Text.{Str}
use gateway_service.Json.{Json, Codec, encode}
use gateway_service.Section.Shapes.{audit_log_list_response, audit_log_detail_response}

-- The items as they are encoded: json.Marshal refuses a json.RawMessage that is no JSON.
raw_items : Codec → List Str → Option (List (Option Json))
raw_items c [] = some []
raw_items c (item ∷ items) = c.parse item >>= λ j. raw_items c items >>= λ js. some (some j ∷ js)

list_value : Codec → List (Option Json) → ℤ → Str
list_value c js limit = c.print (
    encode c.quote audit_log_list_response
      (some (record { elements = js; spare = [] }), ((pos (length js), (limit, tt)), tt)))

-- json.Marshal of the list's response; the items are a slice that is not nil.
pub list_json : Codec → List Str → ℤ → Option Str
unfolding raw_items list_value
list_json c items limit = raw_items c items >>= λ js. some (list_value c js limit)

-- json.Marshal of an entry's response
pub detail_json : Codec → Str → Option Str
detail_json c item =
    c.parse item >>= λ j. some (c.print (encode c.quote audit_log_detail_response (some j, tt)))
