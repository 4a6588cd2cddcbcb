-- ===== src/Tests/HandlerTests.antt =====
-- The whole handler on the sample gateway, with its audit log in a table.
use gateway_service.Prelude.{◌≡◌, refl, true, some, [], reverse, arith}
use gateway_service.Text.{lit}
use gateway_service.Http.{Request, broken}
use gateway_service.World.{Server}
use gateway_service.Proxy.{handle_proxy}
use gateway_service.Proxy.Gate.{ForwardsOnly}
use gateway_service.Postgres.{Reply, Database, table_of, postgres_sink}
use gateway_service.Postgres.Refusals.{handle_proxy_unreadable}
use gateway_service.Handler.{Schedules, select, handle_ready, handler}
use gateway_service.Handler.Guards.{IsPermitted, handler-ForwardsOnly}
use gateway_service.Handler.Records.{IsAccounted, handler-IsRecorded}
use gateway_service.Handler.Answers.{IsAnsweredOnce, handler-IsAnswered, answered-positive}
use gateway_service.Handler.Correlation.{IsCorrelated, handler-IsCorrelated}
use gateway_service.Handler.Readiness.{IsReady, IsProbed, handle_ready-IsProbed}
use gateway_service.Samples.{platform, server, request, fresh}

abbrev database : Database
database = record {
  initial = [];
  pings = λ t. true;
  reply = λ t. Reply.done;
  holds_text = λ s. true;
  holds_json = λ s. true;
  holds_headers = λ h. true;
}

abbrev recording : Server
recording = record server { audit_sink = some (postgres_sink database) }

abbrev schedules : Schedules
schedules = record {
  support = record { start = reverse; arrive = λ results. results };
  replay = record { start = λ names. names; arrive = λ results. results };
}

abbrev broken_request : Request
broken_request = record request { body = some (broken (lit "bo")) }

handler-ForwardsOnly_example :
    ForwardsOnly
      (IsPermitted platform server request (select platform request))
      (handler platform server schedules request fresh).1.trace
handler-ForwardsOnly_example = handler-ForwardsOnly platform server schedules request fresh refl

handler-IsAnswered_example :
    IsAnsweredOnce
      (handler platform server schedules request fresh).1.writer.status
      (handler platform server schedules request fresh).1.trace
handler-IsAnswered_example =
    handler-IsAnswered platform server schedules request fresh (λ t o u e. ground arith) refl refl

handler-IsCorrelated_example :
    IsCorrelated platform
      (handler platform server schedules request fresh).1.writer.sent
      (handler platform server schedules request fresh).1.trace
handler-IsCorrelated_example =
    handler-IsCorrelated platform server schedules request fresh refl refl (
      answered-positive _ _ (
        handler-IsAnswered platform server schedules request fresh (λ t o u e. ground arith) refl
          refl))

handler-IsRecorded_example :
    IsAccounted database
      (select platform request)
      (handler platform recording schedules request fresh).1.writer.status
      (handler platform recording schedules request fresh).1.trace
handler-IsRecorded_example =
    handler-IsRecorded platform recording database schedules request fresh refl
      (λ t o u e. ground arith) refl refl

handle_proxy_unreadable_example :
    ((handle_proxy platform recording broken_request fresh).1.writer.status ≡ 503)
    × (table_of database (handle_proxy platform recording broken_request fresh).1.trace
        ≡ database.initial)
unfolding gateway_service.Proxy.read_proxy_request_body gateway_service.Http.read_limited
    gateway_service.Http.limit_above
handle_proxy_unreadable_example =
    handle_proxy_unreadable platform recording database broken_request fresh refl refl refl refl

handle_ready-IsProbed_example :
    IsProbed
      (IsReady server fresh.trace)
      (handle_ready platform server request fresh).1.writer.status
handle_ready-IsProbed_example = handle_ready-IsProbed platform server request fresh refl
