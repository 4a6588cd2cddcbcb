-- ===== src/Section/Shapes.antt =====
-- The Go types of internal/gateway/types.go, internal/gateway/player_support.go and
-- internal/gateway/admin_audit.go that are read from JSON or written as JSON.
use gateway_service.Prelude.{Bool, true, false, List, [], ◌∷◌, Option}
use gateway_service.Text.{Str, lit}
use gateway_service.Json.{Shape, Fields, Meaning}

-- A field's name in JSON, whether it is `omitempty`, and its type.
abbrev pub Field : Type 0
Field = Str × Bool × Shape

abbrev pub always : Str → Shape → Field
always name s = (name, false, s)

abbrev unless_empty : Str → Shape → Field
unless_empty name s = (name, true, s)

abbrev pub fields_of : List Field → Fields
fields_of [] = Fields.end
fields_of ((name, omitempty, s) ∷ fields) = Fields.field name omitempty s (fields_of fields)

abbrev pub struct_of : List Field → Shape
struct_of fields = Shape.struct (fields_of fields)

abbrev pub nullable_text : Shape
nullable_text = Shape.pointer Shape.string

-- `apiError`
abbrev pub api_error : Shape
api_error = struct_of (always (lit "code") Shape.string ∷ always (lit "message") Shape.string ∷ [])

-- `errorResponse`
abbrev pub error_response : Shape
error_response = struct_of (always (lit "error") api_error ∷ [])

-- `playerSupportAccount`
abbrev pub player_support_account : Shape
player_support_account = struct_of (
    always (lit "balance_minor") Shape.integer
    ∷ unless_empty (lit "created_at") Shape.string
    ∷ unless_empty (lit "updated_at") Shape.string
    ∷ [])

-- `playerSupportLedgerEntry`
abbrev pub player_support_ledger_entry : Shape
player_support_ledger_entry = struct_of (
    unless_empty (lit "id") Shape.string
    ∷ unless_empty (lit "idempotency_key") Shape.string
    ∷ always (lit "delta_minor") Shape.integer
    ∷ always (lit "balance_before_minor") Shape.integer
    ∷ always (lit "balance_after_minor") Shape.integer
    ∷ unless_empty (lit "reason") Shape.string
    ∷ unless_empty (lit "created_at") Shape.string
    ∷ [])

-- `playerSupportPitySnapshot`
abbrev pub player_support_pity_snapshot : Shape
player_support_pity_snapshot = struct_of (
    always (lit "since_five") Shape.integer
    ∷ always (lit "since_four") Shape.integer
    ∷ always (lit "guaranteed_featured_five") Shape.boolean
    ∷ always (lit "version") Shape.integer
    ∷ [])

-- `playerSupportOperation`
abbrev pub player_support_operation : Shape
player_support_operation = struct_of (
    unless_empty (lit "operation_id") Shape.string
    ∷ always (lit "event_id") nullable_text
    ∷ always (lit "request_id") nullable_text
    ∷ always (lit "banner_id") nullable_text
    ∷ always (lit "banner_version_id") nullable_text
    ∷ always (lit "pity_group_id") nullable_text
    ∷ always (lit "count") (Shape.pointer Shape.integer)
    ∷ always (lit "status") Shape.string
    ∷ always (lit "error") (Shape.pointer api_error)
    ∷ always (lit "next_pity") (Shape.pointer player_support_pity_snapshot)
    ∷ unless_empty (lit "created_at") Shape.string
    ∷ unless_empty (lit "updated_at") Shape.string
    ∷ [])

-- `playerSupportInventoryItem`
abbrev pub player_support_inventory_item : Shape
player_support_inventory_item = struct_of (
    unless_empty (lit "item_id") Shape.string
    ∷ unless_empty (lit "item_name") Shape.string
    ∷ unless_empty (lit "item_type") Shape.string
    ∷ always (lit "rarity") Shape.integer
    ∷ always (lit "quantity") Shape.integer
    ∷ unless_empty (lit "updated_at") Shape.string
    ∷ [])

-- `playerSupportPullEvent`
abbrev pub player_support_pull_event : Shape
player_support_pull_event = struct_of (
    unless_empty (lit "event_id") Shape.string
    ∷ unless_empty (lit "banner_id") Shape.string
    ∷ always (lit "state_version") Shape.integer
    ∷ unless_empty (lit "received_at") Shape.string
    ∷ [])

-- `playerSupportPullRecord`
abbrev pub player_support_pull_record : Shape
player_support_pull_record = struct_of (
    unless_empty (lit "id") Shape.string
    ∷ unless_empty (lit "event_id") Shape.string
    ∷ always (lit "index") Shape.integer
    ∷ unless_empty (lit "item_id") Shape.string
    ∷ unless_empty (lit "item_name") Shape.string
    ∷ unless_empty (lit "item_type") Shape.string
    ∷ always (lit "rarity") Shape.integer
    ∷ unless_empty (lit "banner_id") Shape.string
    ∷ unless_empty (lit "banner_name") Shape.string
    ∷ always (lit "pity_at_five") Shape.integer
    ∷ always (lit "pity_at_four") Shape.integer
    ∷ always (lit "is_featured") Shape.boolean
    ∷ unless_empty (lit "received_at") Shape.string
    ∷ [])

-- `playerSupportReplayRequest`
abbrev pub player_support_replay_request : Shape
player_support_replay_request = struct_of (
    unless_empty (lit "source") Shape.string
    ∷ always (lit "banner_id") nullable_text
    ∷ always (lit "banner_version_id") nullable_text
    ∷ always (lit "pity_group_id") nullable_text
    ∷ always (lit "count") (Shape.pointer Shape.integer)
    ∷ always (lit "seed") nullable_text
    ∷ always (lit "event_id") nullable_text
    ∷ always (lit "amount_minor") (Shape.pointer Shape.integer)
    ∷ always (lit "accepted_at") nullable_text
    ∷ [])

-- `playerSupportPullReplayOperation`
abbrev pub player_support_pull_replay_operation : Shape
player_support_pull_replay_operation = struct_of (
    always (lit "operation_id") Shape.string
    ∷ always (lit "request_id") nullable_text
    ∷ always (lit "status") Shape.string
    ∷ always (lit "request") player_support_replay_request
    ∷ always (lit "response") Shape.raw
    ∷ always (lit "event") Shape.raw
    ∷ always (lit "error") (Shape.pointer api_error)
    ∷ always (lit "created_at") Shape.string
    ∷ always (lit "updated_at") Shape.string
    ∷ [])

-- `playerSupportReplayPullEvent`
abbrev pub player_support_replay_pull_event : Shape
player_support_replay_pull_event = struct_of (
    unless_empty (lit "event_id") Shape.string
    ∷ unless_empty (lit "event_type") Shape.string
    ∷ unless_empty (lit "banner_id") Shape.string
    ∷ unless_empty (lit "seed") Shape.string
    ∷ always (lit "state_version") Shape.integer
    ∷ always (lit "previous_pity") Shape.raw
    ∷ always (lit "next_pity") Shape.raw
    ∷ unless_empty (lit "received_at") Shape.string
    ∷ [])

-- `playerSupportReplayBackpackDetail`
abbrev pub player_support_replay_backpack_detail : Shape
player_support_replay_backpack_detail = struct_of (
    always (lit "event") player_support_replay_pull_event
    ∷ always (lit "records") (Shape.slice player_support_pull_record)
    ∷ [])

-- `playerSupportSection`
abbrev pub player_support_section : Shape
player_support_section = struct_of (
    always (lit "status") Shape.string
    ∷ always (lit "data") Shape.raw
    ∷ unless_empty (lit "error") (Shape.pointer api_error)
    ∷ [])

-- `playerSupportSections`
abbrev pub player_support_sections : Shape
player_support_sections = struct_of (
    always (lit "account") player_support_section
    ∷ always (lit "ledger") player_support_section
    ∷ always (lit "pull_operations") player_support_section
    ∷ always (lit "inventory") player_support_section
    ∷ always (lit "pull_events") player_support_section
    ∷ always (lit "pull_records") player_support_section
    ∷ [])

-- `playerSupportResponse`; a time is written by its own MarshalJSON
abbrev pub player_support_response : Shape
player_support_response = struct_of (
    always (lit "player_id") Shape.string
    ∷ always (lit "generated_at") Shape.raw
    ∷ always (lit "partial") Shape.boolean
    ∷ always (lit "sections") player_support_sections
    ∷ [])

-- `playerSupportPullReplayResponse`; a time is written by its own MarshalJSON
abbrev pub player_support_pull_replay_response : Shape
player_support_pull_replay_response = struct_of (
    always (lit "player_id") Shape.string
    ∷ always (lit "generated_at") Shape.raw
    ∷ always (lit "partial") Shape.boolean
    ∷ always (lit "operation") player_support_pull_replay_operation
    ∷ always (lit "asset_spend") player_support_section
    ∷ always (lit "backpack_delivery") player_support_section
    ∷ [])

-- `playerSupportPage[T]`
abbrev pub player_support_page : Shape → Shape
player_support_page s = struct_of (always (lit "items") (Shape.slice s) ∷ [])

-- `auditLogListResponse` and `auditLogDetailResponse`
abbrev pub audit_log_list_response : Shape
audit_log_list_response = struct_of (
    always (lit "data") (Shape.slice Shape.raw)
    ∷ always (lit "meta")
        (struct_of (always (lit "count") Shape.integer ∷ always (lit "limit") Shape.integer ∷ []))
    ∷ [])

abbrev pub audit_log_detail_response : Shape
audit_log_detail_response = struct_of (always (lit "data") Shape.raw ∷ [])

-- The replay of an operation as it is read from the service, and the fields of it that are read.
abbrev pub ReplayOperation : Type 0
ReplayOperation = Meaning player_support_pull_replay_operation

abbrev request_event_id : Meaning player_support_replay_request → Option Str
request_event_id (source, (banner, (version, (group, (count, (seed, (event, rest))))))) = event

abbrev pub operation_id_of : ReplayOperation → Str
operation_id_of (id, rest) = id

abbrev pub event_id_of : ReplayOperation → Option Str
event_id_of (id, (request_id, (status, (request, rest)))) = request_event_id request
