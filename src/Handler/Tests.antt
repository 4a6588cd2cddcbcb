-- ===== src/Handler/Tests.antt =====
-- Requests that the mux selects an endpoint for.
use gateway_service.Prelude.{◌≡◌, refl}
use gateway_service.Text.{Str, lit, eqb, split}
use gateway_service.Http.{Request}
use gateway_service.Handler.{
  Endpoint, health, audit_list, audit_detail, player_support, pull_replay, proxy, select,
  select_clean, segments, get_endpoint, audit_below, behind, support_below, support_endpoint,
  audit_endpoint, is_value,
}
use gateway_service.Samples.{platform, request}

abbrev asked : Str → Str → Request
asked method path = record request { method = method; url = record request.url { path = path } }

abbrev chosen : Str → Str → Endpoint
chosen method path = select platform (asked method path)

-- The probes take GET and HEAD; another method goes to the proxy.
selects_probe :
    (chosen (lit "GET") (lit "/health") ≡ health)
    × (chosen (lit "HEAD") (lit "/health") ≡ health)
    × (chosen (lit "POST") (lit "/health") ≡ proxy)
    × (chosen (lit "GET") (lit "/health/") ≡ proxy)
unfolding select select_clean segments get_endpoint eqb split is_value audit_below behind
    support_below support_endpoint audit_endpoint
selects_probe = (refl, refl, refl, refl)

selects_audit :
    (chosen (lit "GET") (lit "/api/v1/admin/audit/http-api-calls") ≡ audit_list)
    × (chosen (lit "GET") (lit "/api/v1/admin/audit/http-api-calls/7") ≡ audit_detail (lit "7"))
    × (chosen (lit "GET") (lit "/api/v1/admin/audit/http-api-calls/") ≡ proxy)
unfolding select select_clean segments get_endpoint eqb split is_value audit_below behind
    support_below support_endpoint audit_endpoint
selects_audit = (refl, refl, refl)

selects_support :
    (chosen (lit "GET") (lit "/api/v1/admin/player-support/players/7") ≡ player_support (lit "7"))
    × (chosen (lit "GET") (lit "/api/v1/admin/player-support/players/7/pulls/9/replay")
        ≡ pull_replay (lit "7") (lit "9"))
    × (chosen (lit "DELETE") (lit "/api/v1/admin/player-support/players/7") ≡ proxy)
unfolding select select_clean segments get_endpoint eqb split is_value audit_below behind
    support_below support_endpoint audit_endpoint
selects_support = (refl, refl, refl)
