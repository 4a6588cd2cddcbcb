-- ===== src/Postgres/Queries.antt =====
-- `PostgresAuditSink` as the store of the audit log (internal/gateway/audit_logs.go): the queries of
-- ListHTTPAPICalls and GetHTTPAPICall on the rows of audit.http_api_calls.
pub mod Conditions
pub mod Order
pub mod Pages
use gateway_service.Prelude.{
  ℕ, zero, suc, ◌+◌, ◌^◌, Bool, true, false, not, ◌&&◌, ◌||◌, Option, none, some, List, [], ◌∷◌,
  ◌++◌, map, ltb, leb, ◌==◌, if◌then◌else◌, length, take, all, ℤ, pos,
}
use gateway_service.Text.{Str, lit, eqb}
use gateway_service.Header.{Header}
use gateway_service.Audit.{AuditStatus, BodyEncoding}
use gateway_service.Filter.{
  AuditLogFilter, Arg, Condition, Clause, where_clause, normalize_audit_log_filter,
}
use gateway_service.World.{Trace, AuditLogStore, Lookup}
use gateway_service.Postgres.{Row, Table, Reply, Database, table_of, microseconds}

-- A value of a column, as jsonb_build_object takes it.
pub data Value : Type 0 where
  null : Value
  uuid : ℕ → Value
  text : Str → Value
  json : Str → Value
  headers : Header → Value
  number : ℤ → Value
  instant : ℕ → Value
  truth : Bool → Value
  encoding : BodyEncoding → Value
  status : AuditStatus → Value

-- What the expressions of the queries compute: `text ilike pattern`, `left(text, n)` and
-- jsonb_build_object.
pub record Expressions : Type 0 where
  pub ilike : Str → Str → Bool
  pub left : Str → ℕ → Str
  pub jsonb_build_object : List (Str × Value) → Str

-- A column that may be null.
unfoldable pub or_null : {A : Type 0} → (A → Value) → Option A → Value
or_null f none = Value.null
or_null f (some a) = f a

abbrev pub coalesce : Option Str → Str → Str
coalesce none s = s
coalesce (some t) s = t

-- A row's value under `column = $n`, which is unknown for a null and then not true.
abbrev pub is_some_of {ℓ} : {A : Type ℓ} → (A → Bool) → Option A → Bool
is_some_of test none = false
is_some_of test (some a) = test a

same_number : ℕ → ℤ → Bool
same_number n (pos m) = n == m
same_number n (ℤ.negsuc m) = false

-- The pattern `'%' || s || '%'`
abbrev pub pattern_of : Str → Str
pattern_of s = lit "%" ++ (s ++ lit "%")

-- `order by started_at desc, request_id desc`
unfoldable pub newer : Row → Row → Bool
newer a b =
    ltb b.started_at a.started_at || a.started_at == b.started_at && ltb b.request_id a.request_id

place_row : Row → Table → Table
unfolding newer
place_row row [] = row ∷ []
place_row row (r ∷ table) = if newer r row then r ∷ place_row row table else row ∷ r ∷ table

unfoldable pub newest_first : Table → Table
unfolding place_row
newest_first [] = []
newest_first (row ∷ table) = place_row row (newest_first table)

-- The argument of a placeholder.
pub arg_at : List Arg → ℕ → Option Arg
arg_at [] n = none
arg_at (a ∷ args) zero = none
arg_at (a ∷ args) (suc zero) = some a
arg_at (a ∷ args) (suc (suc n)) = arg_at args (suc n)

-- A condition and those behind it; a text that is no SQL fails the statement.
both : Option Bool → Option Bool → Option Bool
both none b = none
both (some a) none = none
both (some a) (some b) = some (a && b)

module _ (db : Database) (x : Expressions) where
  -- What a condition says of a row, by the text around its placeholder.
  test : Str → Str → Arg → Row → Option Bool
  unfolding same_number
  test before behind (Arg.uuid id) row =
      if eqb before (lit "request_id = ") && eqb behind []
      then some (row.request_id == id)
      else if eqb before (lit "user_id = ") && eqb behind []
      then some (is_some_of (λ user. user == id) row.user_id)
      else none
  test before behind (Arg.text s) row =
      if eqb before (lit "method = ") && eqb behind []
      then some (eqb row.method s)
      else if eqb before (lit "path ilike '%' || ") && eqb behind (lit " || '%'")
      then some (x.ilike row.path (pattern_of s))
      else if eqb before (lit "route = ") && eqb behind []
      then some (is_some_of (λ route. eqb route s) row.route)
      else if eqb before (lit "(route is null or route <> ") && eqb behind (lit ")")
      then some (not (is_some_of (λ route. eqb route s) row.route))
      else if eqb before (lit "auth_result = ") && eqb behind []
      then some (eqb row.auth_result s)
      else none
  test before behind (Arg.number n) row =
      if eqb before (lit "response_status = ") && eqb behind []
      then some (is_some_of (λ status. same_number status n) row.response_status)
      else none
  test before behind (Arg.time t) row =
      if eqb before (lit "started_at >= ") && eqb behind []
      then some (leb (microseconds t) row.started_at)
      else if eqb before (lit "started_at < ") && eqb behind []
      then some (ltb row.started_at (microseconds t))
      else none

  test_at : Condition → Option Arg → Row → Option Bool
  unfolding test
  test_at c none row = none
  test_at c (some a) row = test c.before c.behind a row

  pub meets : List Condition → List Arg → Row → Option Bool
  unfolding test_at both arg_at
  meets [] args row = some true
  meets (c ∷ cs) args row = both (test_at c (arg_at args c.place) row) (meets cs args row)

  with_row : Row → Option Bool → Option Table → Option Table
  with_row row none found = none
  with_row row (some met) none = none
  with_row row (some met) (some found) = some (if met then row ∷ found else found)

  -- The rows that meet the where clause.
  select_rows : List Condition → List Arg → Table → Option Table
  unfolding meets with_row
  select_rows cs args [] = some []
  select_rows cs args (row ∷ table) = with_row row (meets cs args row) (select_rows cs args table)

  -- `limit $n`
  limited : Option Arg → Table → Option Table
  limited (some (Arg.number (pos n))) found = some (take n found)
  limited _ found = none

  ordered : Option Arg → Option Table → Option Table
  unfolding newest_first limited
  ordered limit none = none
  ordered limit (some found) = limited limit (newest_first found)

  -- The arguments that the columns' types can hold.
  unfoldable pub accepts : Arg → Bool
  accepts (Arg.uuid id) = true
  accepts (Arg.text s) = db.holds_text s
  accepts (Arg.number (pos n)) = ltb n (2 ^ 31)
  accepts (Arg.number (ℤ.negsuc n)) = ltb n (2 ^ 31)
  accepts (Arg.time t) = true

  -- The query of ListHTTPAPICalls on the table.
  pub listed : (Str → Str) → AuditLogFilter → Table → Option Table
  unfolding select_rows ordered arg_at
  listed upper filter table =
      let filter = normalize_audit_log_filter upper filter in
      let clause = where_clause (normalize_audit_log_filter upper filter) in
      let args = clause.args ++ Arg.number filter.limit ∷ [] in
      if all accepts args
      then ordered (arg_at args (length args)) (select_rows clause.conditions args table)
      else none
