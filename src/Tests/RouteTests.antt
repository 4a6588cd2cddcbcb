-- ===== src/Tests/RouteTests.antt =====
-- Route selection and target paths on the sample routes.
use mathlib.Core.List.{Memᴰ}
use gateway_service.Prelude.{◌≡◌, refl, true, false, some, ◌∷◌, [], ◌++◌, arith, All, ◌↔◌, ◌⊎◌}
use gateway_service.Text.{Str, lit, trim_right}
use gateway_service.Route.{Url, route_matches, match_route, sort_routes, build_target_url}
use gateway_service.Route.Matching.{IsNoLonger, match_route-sort_routes}
use gateway_service.Route.Target.{slash, build_target_url_below, root_route_matches_iff}
use gateway_service.Samples.{assets, api, root, request}

selects_longest : match_route (sort_routes (api ∷ assets ∷ [])) request.url.path ≡ some assets
unfolding match_route sort_routes route_matches
selects_longest = refl

match_route-sort_routes_example :
    Memᴰ assets (api ∷ assets ∷ [])
    × (route_matches request.url.path assets ≡ true)
    × All (IsNoLonger request.url.path assets) (api ∷ assets ∷ [])
match_route-sort_routes_example =
    match_route-sort_routes (api ∷ assets ∷ []) request.url.path selects_longest

abbrev elsewhere : Str
elsewhere = lit "/metrics"

-- A path with two slashes behind the prefix.
abbrev doubled : Url
doubled = record request.url { path = lit "/api/v1/assets//me" }

build_target_url_below_example :
    ((build_target_url assets doubled).path
      ≡ trim_right assets.target.path slash ++ (lit "/" ++ (b'm' ∷ b'e' ∷ [])))
    × ((build_target_url assets doubled).scheme ≡ assets.target.scheme)
    × ((build_target_url assets doubled).host ≡ assets.target.host)
    × ((build_target_url assets doubled).raw_query ≡ doubled.raw_query)
    × ((build_target_url assets doubled).rest ≡ assets.target.rest)
build_target_url_below_example =
    build_target_url_below assets doubled (lit "//") b'm' (b'e' ∷ []) (refl, (refl, tt))
      (omega arith) refl

root_route_matches_iff_example :
    (route_matches elsewhere root ≡ true)
    ↔ ((elsewhere ≡ lit "/") ⊎ ((s : Str) × (elsewhere ≡ lit "//" ++ s)))
root_route_matches_iff_example = root_route_matches_iff elsewhere root refl

-- The root route does not take another path.
root_misses : route_matches elsewhere root ≡ false
unfolding route_matches
root_misses = refl
