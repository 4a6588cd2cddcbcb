-- ===== src/Section.antt =====
-- The values of internal/gateway/player_support.go: sections and the views made of them.
pub mod Shapes
use gateway_service.Prelude.{ℕ, Bool, false, true, Option, none, some, []}
use gateway_service.Text.{Str, lit}
use gateway_service.Json.{Json, null, text, Codec, encode, Meaning}
use gateway_service.Section.Shapes.{
  api_error, player_support_section, player_support_sections, player_support_response,
  player_support_pull_replay_response, ReplayOperation,
}

-- `apiError`
pub record ApiError : Type 0 where
  pub code : Str
  pub message : Str

-- The statuses of a section; `unset` is the empty string of a section that nothing has filled.
pub data SectionStatus : Type 0 where
  unset ok not_found not_applicable unavailable : SectionStatus

-- `playerSupportSection`
pub record Section : Type 0 where
  pub status : SectionStatus
  pub payload : Option Json
  pub error : Option ApiError

abbrev pub empty_section : Section
empty_section = record { status = SectionStatus.unset; payload = none; error = none }

unfoldable pub not_applicable_section : Str → Section
not_applicable_section message = record {
  status = SectionStatus.not_applicable;
  payload = some null;
  error = some (record { code = lit "not_applicable"; message = message });
}

unfoldable pub unavailable_section : Str → Str → Section
unavailable_section code message = record {
  status = SectionStatus.unavailable;
  payload = some null;
  error = some (record { code = code; message = message });
}

abbrev pub not_found_section : Section
not_found_section = record { status = SectionStatus.not_found; payload = some null; error = none }

abbrev pub ok_section : Json → Section
ok_section payload = record { status = SectionStatus.ok; payload = some payload; error = none }

-- The test `status == playerSupportSectionUnavailable`
abbrev pub is_unavailable : SectionStatus → Bool
is_unavailable SectionStatus.unset = false
is_unavailable SectionStatus.ok = false
is_unavailable SectionStatus.not_found = false
is_unavailable SectionStatus.not_applicable = false
is_unavailable SectionStatus.unavailable = true

-- The names of the six sections.
pub data SectionName : Type 0 where
  account ledger pull_operations inventory pull_events pull_records : SectionName

-- `playerSupportSections`
pub record Sections : Type 0 where
  pub account : Section
  pub ledger : Section
  pub pull_operations : Section
  pub inventory : Section
  pub pull_events : Section
  pub pull_records : Section

abbrev pub no_sections : Sections
no_sections = record {
  account = empty_section;
  ledger = empty_section;
  pull_operations = empty_section;
  inventory = empty_section;
  pull_events = empty_section;
  pull_records = empty_section;
}

-- `playerSupportResponse`
pub record SupportResponse : Type 0 where
  pub player_id : Str
  pub generated_at : ℕ
  pub partial : Bool
  pub sections : Sections

-- `playerSupportPullReplayResponse`
pub record ReplayResponse : Type 0 where
  pub player_id : Str
  pub generated_at : ℕ
  pub partial : Bool
  pub operation : ReplayOperation
  pub asset_spend : Section
  pub backpack_delivery : Section

abbrev status_text : SectionStatus → Str
status_text SectionStatus.unset = []
status_text SectionStatus.ok = lit "ok"
status_text SectionStatus.not_found = lit "not_found"
status_text SectionStatus.not_applicable = lit "not_applicable"
status_text SectionStatus.unavailable = lit "unavailable"

abbrev pub error_value : ApiError → Meaning api_error
error_value e = (e.code, (e.message, tt))

abbrev error_pointer : Option ApiError → Option (Meaning api_error)
error_pointer none = none
error_pointer (some e) = some (error_value e)

abbrev pub section_value : Section → Meaning player_support_section
section_value x = (status_text x.status, (x.payload, (error_pointer x.error, tt)))

abbrev sections_value : Sections → Meaning player_support_sections
sections_value x = (
  section_value x.account,
  (
    section_value x.ledger,
    (
      section_value x.pull_operations,
      (
        section_value x.inventory,
        (section_value x.pull_events, (section_value x.pull_records, tt)),
      ),
    ),
  ),
)

-- json.Marshal of the two views; `time_json` is the time's own MarshalJSON, which may fail.
module _ (c : Codec) (time_json : ℕ → Option Str) where
  pub support_json : SupportResponse → Option Json
  support_json x = elim (time_json x.generated_at) [
    | none ↦ none
    | some t ↦ some (
        encode c.quote player_support_response
          (x.player_id, (some (text t), (x.partial, (sections_value x.sections, tt)))))
  ]

  pub replay_json : ReplayResponse → Option Json
  replay_json x = elim (time_json x.generated_at) [
    | none ↦ none
    | some t ↦ some (
        encode c.quote player_support_pull_replay_response (
          x.player_id,
          (
            some (text t),
            (
              x.partial,
              (x.operation, (section_value x.asset_spend, (section_value x.backpack_delivery, tt))),
            ),
          ),
        ))
  ]
