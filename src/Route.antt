-- ===== src/Route.antt =====
-- Routes: `Route`, `matchRoute`, `routeByName`, `joinURLPath`, `buildTargetURL`, `validateRoute` and
-- the sort of `New` in internal/gateway/server.go, internal/gateway/player_support.go.
pub mod Matching
pub mod Target
use gateway_service.Prelude.{
  ℕ, Bool, true, false, ◌||◌, ◌&&◌, not, Option, none, some, List, [], ◌∷◌, ◌++◌, if◌then◌else◌,
  ltb, length, is_empty,
}
use gateway_service.Text.{
  Str, lit, eqb, has_prefix, has_suffix, trim_prefix, trim_left, trim_right, trim_space,
}

-- The fields of a `url.URL` that the gateway reads or writes; `rest` stands for the others, RawPath among
-- them, which it copies.
pub record Url : Type 0 where
  pub scheme : Str
  pub host : Str
  pub path : Str
  pub raw_query : Str
  pub rest : Str

-- `Target` is a pointer in the source, never nil in a route that parseRoutes accepts.
pub record Route : Type 0 where
  pub name : Str
  pub prefix : Str
  pub target : Url

-- The test of the loop of matchRoute.
unfoldable pub route_matches : Str → Route → Bool
unfolding eqb has_prefix
route_matches path route = eqb path route.prefix || has_prefix path (route.prefix ++ lit "/")

unfoldable pub match_route : List Route → Str → Option Route
match_route [] path = none
match_route (route ∷ routes) path =
    if route_matches path route then some route else match_route routes path

unfoldable pub route_by_name : List Route → Str → Option Route
route_by_name [] name = none
route_by_name (route ∷ routes) name =
    if eqb route.name name then some route else route_by_name routes name

-- `sort.SliceStable` by `len(routes[i].Prefix) > len(routes[j].Prefix)`: an insertion sort that puts a
-- route in front of the later ones whose prefixes are not longer.
insert_route : Route → List Route → List Route
insert_route route [] = route ∷ []
insert_route route (r ∷ routes) =
    if ltb (length route.prefix) (length r.prefix)
    then r ∷ insert_route route routes
    else route ∷ r ∷ routes

unfoldable pub sort_routes : List Route → List Route
unfolding insert_route
sort_routes [] = []
sort_routes (route ∷ routes) = insert_route route (sort_routes routes)

-- joinURLPath behind its two trims.
join_trimmed : Str → Str → Str
join_trimmed base [] = if is_empty base then lit "/" else base
join_trimmed base (c ∷ suffix) =
    if is_empty base then lit "/" ++ c ∷ suffix else base ++ lit "/" ++ c ∷ suffix

unfoldable pub join_url_path : Str → Str → Str
unfolding join_trimmed
join_url_path base suffix = join_trimmed (trim_right base b'/') (trim_left suffix b'/')

unfoldable pub build_target_url : Route → Url → Url
build_target_url route source = record (route.target) {
  path = join_url_path route.target.path (trim_prefix source.path route.prefix);
  raw_query = source.raw_query;
}

-- The messages of validateRoute, without the name that they quote.
pub data RouteError : Type 0 where
  name_required prefix_start prefix_end target_relative : RouteError

-- `none` is the nil error.
unfoldable pub validate_route : Route → Option RouteError
validate_route route =
    if is_empty (trim_space route.name)
    then some RouteError.name_required
    else if is_empty route.prefix || not (has_prefix route.prefix (lit "/"))
    then some RouteError.prefix_start
    else if has_suffix route.prefix (lit "/") && not (eqb route.prefix (lit "/"))
    then some RouteError.prefix_end
    else if is_empty route.target.scheme || is_empty route.target.host
    then some RouteError.target_relative
    else none
