-- ===== src/Lib.antt =====
-- The gateway service: a Go proxy that checks the Supabase session of each request, records the request
-- in an audit log and forwards it to an internal service with trusted headers.
--
-- The parts, and the files that model them (paths from the repository's root):
--   Route           Route, the sort of New, matchRoute, joinURLPath, buildTargetURL, validateRoute
--                   (internal/gateway/server.go) and routeByName (internal/gateway/player_support.go)
--   Header          net/http's header map and the filters of internal/gateway/server.go
--   Http            requests, bodies, outgoing requests, responses and the response writer
--   Audit           entries, bodies, sanitised headers, request ids (internal/gateway/audit.go)
--   Filter          AuditLogFilter, its where clause (internal/gateway/audit_logs.go) and its parsing
--                   (internal/gateway/admin_audit.go)
--   World           Options, Server, New and the state of one request
--   Token           extractAccessToken and what it calls (internal/gateway/token.go)
--   Proxy           handleProxy and what it calls (internal/gateway/server.go)
--   Admin           the handlers over the audit log (internal/gateway/admin_audit.go)
--   Json            json.Unmarshal and json.Marshal of encoding/json on Go types that are data
--   Section         the Go types that are decoded and encoded (internal/gateway/types.go,
--                   internal/gateway/player_support.go, internal/gateway/admin_audit.go), the sections
--                   and the views of a player (internal/gateway/player_support.go)
--   Support         handlePlayerSupport, handlePlayerSupportPullReplay and what they call
--                   (internal/gateway/player_support.go)
--   Config          LoadConfig and what it calls (internal/gateway/config.go)
--   AccessLog       accessLogResponseWriter (internal/gateway/server.go)
--   Verifier        NewSupabaseVerifier and Verify (internal/gateway/auth.go)
--   Postgres        PostgresAuditSink over the table of db/audit_schema.sql: Start and Finish
--                   (internal/gateway/audit.go), ListHTTPAPICalls and GetHTTPAPICall
--                   (internal/gateway/audit_logs.go)
--   Handler         Handler with its routes, the probes, securityHeaders, accessLog and routeName
--                   (internal/gateway/server.go)
--   Telemetry       the switch, the sampler, HTTPHandler (internal/telemetry/telemetry.go)
--   Startup         run and main (cmd/gateway-service/main.go)
--   Text            Go strings as lists of bytes, with the functions of `strings`, `strconv`,
--                   `unicode/utf8`, `encoding/base64` and `net/url` that the gateway calls
--   Prelude         what the modules share; Samples and Tests hold runs and instances.
--
-- A handler is an action on a World: the response writer, the trace of what the services were asked,
-- newest first, and a counter that stands for the readings of the clock and of the source of ids. An
-- early return of the source is a clause that does not call the next stage; each stage is a function
-- over the value that the source branches on. The session verifier, the audit sink, the store of the
-- audit log and the HTTP client are functions in the Server that may answer by all that happened before,
-- so the theorems hold for every behaviour of theirs. The workers of a view of a player run in an order
-- that a Schedule gives, and hand in their results in another.
-- Statements about every handled request share one interface, Proxy.Bookkeeping: states of a request with
-- the laws of its start, its calls and its end. Proxy.Answering, Admin.Accounting and
-- Support.Replay.Accounting lead it through the handlers, and three bookkeepings fill it: Proxy.Accounting,
-- Handler.Answers, Handler.Correlation.
--
-- Packages that the gateway only calls (UUIDs, RFC 3339 times, URL printing, host splitting) are fields of a
-- Platform.
--
-- encoding/json is modelled on values: a Go type is a Json.Shape, and decode and encode follow the fields
-- that it declares, also where a key comes twice, is null, or matches a field in another case. Parsing a
-- text, printing one and the quoting of strings are fields of a Codec. None of the types that the gateway
-- decodes into holds a value that json.Marshal refuses, so the branch for its error in
-- projectPlayerSupportData and loadPlayerSupportReplayEvidence is left out; a time may be
-- refused. What stored bodies are normalised to stays a parameter.
--
-- Sizes are native numbers; what can overflow an int64, the limit of a body (Http.limit_above) and a
-- duration (Config.duration_of_seconds), is written out. The loop over cookie
-- chunks has the number of cookies for its fuel, since each round reads another cookie.
-- The response writer of net/http is modelled as far as the gateway meets it: a status from 100 to 199 but
-- 101 is informational and leaves the header unwritten, one that has not three digits makes WriteHeader
-- panic, when the client gets no answer and the access log no line (World.send), and a payload is written
-- only where its status allows a body. The length that a header declares, which net/http holds the payloads
-- to, is not modelled. Logging and spans are left out.
-- A statement of the Postgres sink is a function on the rows of its table, which is computed from the
-- trace; the database may refuse any statement, or carry it out and say that it failed. Which texts,
-- JSON values and headers its columns hold, and what ilike, left and jsonb_build_object compute, are parameters. The
-- columns that the database fills itself are left out.
-- The mux of net/http selects an endpoint from the request's method and escaped path as the package
-- documents it; cleaning and unescaping paths are fields of the Platform. accessLog's duration is left
-- out.
-- Not modelled: the goroutine of the listener, the signals and the time limits of the shutdown, the
-- tracing SDK and the pool of connections, which are I/O behind calls of other packages.
-- PostgresAuditSink.Close, TimeoutClient and HTTPTransport only pass on to such packages.
mod Prelude
pub mod Text
pub mod Header
pub mod Route
pub mod Http
pub mod Audit
pub mod Filter
pub mod Json
pub mod Section
pub mod World
pub mod Token
pub mod Proxy
pub mod Admin
pub mod Support
pub mod Config
pub mod AccessLog
pub mod Verifier
pub mod Postgres
pub mod Handler
pub mod Telemetry
pub mod Startup
mod Samples
mod Tests
