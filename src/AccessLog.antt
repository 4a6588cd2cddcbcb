-- ===== src/AccessLog.antt =====
-- The response writer of the access log: accessLogResponseWriter of internal/gateway/server.go.
use gateway_service.Prelude.{ℕ, ◌+◌, ◌≡◌, List, [], ◌∷◌, ◌==◌, if◌then◌else◌, length}
use gateway_service.Text.{Str}
use gateway_service.Http.{Writer, IsFinal, body_allowed, new_writer, write_header, write_body}

pub record AccessLogWriter : Type 0 where
  pub response_writer : Writer
  pub status : ℕ
  pub bytes : ℕ

unfoldable pub log_write_header : AccessLogWriter → ℕ → AccessLogWriter
log_write_header w status =
    if w.status == 0
    then record w { status = status; response_writer = write_header w.response_writer status }
    else w

pub log_write : AccessLogWriter → Str → AccessLogWriter
unfolding log_write_header
log_write w payload =
    let w' = if w.status == 0 then log_write_header w 200 else w in
    let written = write_body w'.response_writer payload in
    record w' { response_writer = written.0; bytes = w'.bytes + written.1 }

-- What a handler calls on its response writer.
pub data Call : Type 0 where
  header : ℕ → Call
  payload : Str → Call

abbrev pub calls : List Call → AccessLogWriter → AccessLogWriter
calls [] w = w
calls (header status ∷ rest) w = calls rest (log_write_header w status)
calls (payload s ∷ rest) w = calls rest (log_write w s)

-- Every status is that of a final response.
abbrev pub AreStatuses : List Call → Type 0
AreStatuses [] = Unit
AreStatuses (header status ∷ rest) = IsFinal status × AreStatuses rest
AreStatuses (payload s ∷ rest) = AreStatuses rest

-- The status of the first call, the bytes of all payloads, and the bytes that the client gets of them.
abbrev pub first_status : List Call → ℕ
first_status [] = 0
first_status (header status ∷ rest) = status
first_status (payload s ∷ rest) = 200

abbrev pub payload_bytes : List Call → ℕ
payload_bytes [] = 0
payload_bytes (header status ∷ rest) = payload_bytes rest
payload_bytes (payload s ∷ rest) = length s + payload_bytes rest

abbrev pub sent_bytes : List Call → ℕ
sent_bytes cs = if body_allowed (first_status cs) then payload_bytes cs else 0

-- The log knows what the writer below it was given.
abbrev IsInStep : AccessLogWriter → Type 0
IsInStep w = (w.status ≡ w.response_writer.status) × (w.bytes ≡ length w.response_writer.body)

abbrev pub new_log_writer : AccessLogWriter
new_log_writer = record { response_writer = new_writer; status = 0; bytes = 0 }
