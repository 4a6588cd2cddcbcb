-- ===== src/Filter.antt =====
-- `AuditLogFilter`, its normalisation and its where clause (internal/gateway/audit_logs.go).
pub mod Where
pub mod Parse
use gateway_service.Prelude.{
  ℕ, zero, suc, ◌+◌, Bool, true, false, ◌&&◌, ◌||◌, not, Option, none, some, List, [], ◌∷◌, ◌++◌,
  map, ltb, leb, ◌==◌, if◌then◌else◌, length, ℤ, pos, lt_ℕ, is_none, all, is_empty,
}
use gateway_service.Text.{Str, lit, upper, trim_space, itoa}

abbrev pub default_audit_log_limit : ℤ
default_audit_log_limit = pos 50

abbrev pub max_audit_log_limit : ℕ
max_audit_log_limit = 200

abbrev pub audit_admin_route_name : Str
audit_admin_route_name = lit "audit-admin"

pub record AuditLogFilter : Type 0 where
  pub limit : ℤ
  pub request_id : Option ℕ
  pub user_id : Option ℕ
  pub method : Str
  pub path_contains : Str
  pub route : Str
  pub auth_result : Str
  pub response_status : Option ℤ
  pub since : Option ℕ
  pub until : Option ℕ

-- The two tests on the limit, in order.
unfoldable pub normalize_limit : ℤ → ℤ
normalize_limit limit =
    let given = if lt_ℕ limit 1 then default_audit_log_limit else limit in
    if lt_ℕ given (max_audit_log_limit + 1) then given else pos max_audit_log_limit

-- strings.ToUpper: over ASCII it maps bytes, for other texts `unicode_upper` is Unicode's map.
unfoldable pub to_upper : (Str → Str) → Str → Str
to_upper unicode_upper s = if all (λ c. ltb c 0x80) s then map upper s else unicode_upper s

unfoldable pub normalize_audit_log_filter : (Str → Str) → AuditLogFilter → AuditLogFilter
normalize_audit_log_filter unicode_upper filter = record filter {
  limit = normalize_limit filter.limit;
  method = to_upper unicode_upper (trim_space filter.method);
  path_contains = trim_space filter.path_contains;
  route = trim_space filter.route;
  auth_result = trim_space filter.auth_result;
}

-- A value that is handed to the database.
pub data Arg : Type 0 where
  uuid : ℕ → Arg
  text : Str → Arg
  number : ℤ → Arg
  time : ℕ → Arg

-- A condition around the placeholder of its argument, `before ++ "$" ++ itoa place ++ behind`.
pub record Condition : Type 0 where
  pub before : Str
  pub place : ℕ
  pub behind : Str

-- The conditions and the arguments that the closure `add` grows.
pub record Clause : Type 0 where
  pub conditions : List Condition
  pub args : List Arg

abbrev pub no_clause : Clause
no_clause = record { conditions = []; args = [] }

unfoldable pub add : Str → Str → Arg → Clause → Clause
add before behind value clause =
    let args = clause.args ++ value ∷ [] in
    record {
      conditions =
          clause.conditions
          ++ record { before = before; place = length args; behind = behind } ∷ [];
      args = args;
    }

-- `if field != nil { add(…) }`
add_some {ℓ} : {A : Type ℓ} → Str → (A → Arg) → Option A → Clause → Clause
unfolding add
add_some before to_arg none clause = clause
add_some before to_arg (some a) clause = add before [] (to_arg a) clause

-- `if field != "" { add(…) }`
add_text : Str → Str → Str → Clause → Clause
unfolding add
add_text before behind s clause = if is_empty s then clause else add before behind (text s) clause

-- The administrators' own queries are left out, unless a route or a request is asked for.
add_route : AuditLogFilter → Clause → Clause
unfolding add
add_route filter clause =
    if not (is_empty filter.route)
    then add (lit "route = ") [] (text filter.route) clause
    else if is_none filter.request_id
    then add (lit "(route is null or route <> ") (lit ")") (text audit_admin_route_name) clause
    else clause

-- The body of auditLogWhereClause on a normalised filter.
unfoldable pub where_clause : AuditLogFilter → Clause
unfolding add_some add_text add_route
where_clause filter = add_some (lit "started_at < ") time filter.until (
    add_some (lit "started_at >= ") time filter.since (
      add_some (lit "response_status = ") number filter.response_status (
        add_text (lit "auth_result = ") [] filter.auth_result (
          add_route filter (
            add_text (lit "path ilike '%' || ") (lit " || '%'") filter.path_contains (
              add_text (lit "method = ") [] filter.method (
                add_some (lit "user_id = ") uuid filter.user_id
                  (add_some (lit "request_id = ") uuid filter.request_id no_clause))))))))

-- fmt.Sprintf
unfoldable pub render_condition : Condition → Str
render_condition c = c.before ++ (lit "$" ++ (itoa c.place ++ c.behind))

-- strings.Join(conditions, " and ")
join_conditions : List Condition → Str
unfolding render_condition
join_conditions [] = []
join_conditions (c ∷ []) = render_condition c
join_conditions (c ∷ d ∷ cs) = render_condition c ++ (lit " and " ++ join_conditions (d ∷ cs))

unfoldable pub render : Clause → Str
unfolding join_conditions
render clause =
    if is_empty clause.conditions then [] else lit "where " ++ join_conditions clause.conditions

unfoldable pub audit_log_where_clause : (Str → Str) → AuditLogFilter → Str × List Arg
unfolding where_clause normalize_audit_log_filter
audit_log_where_clause unicode_upper filter =
    let clause = where_clause (normalize_audit_log_filter unicode_upper filter) in
    (render clause, clause.args)
