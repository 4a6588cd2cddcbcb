-- ===== src/Postgres/Queries/Pages.antt =====
-- The page of the audit log that a query returns.
use mathlib.Core.List.{Permᴰ}
use mathlib.Core.Path.{subst}
use gateway_service.Prelude.{
  ℕ, zero, suc, ◌≤◌, ◌≡◌, refl, sym, ap, ◌∙◌, Bool, true, Option, none, some, List, [], ◌∷◌, ◌++◌,
  arith, if◌then◌else◌, length, length-append, length-take, ℤ, pos, inl, inr, ◌⊎◌, All, All-take,
  All-drop, take, drop, take-append-drop, all,
}
use gateway_service.Text.{Str}
use gateway_service.Filter.{
  AuditLogFilter, Arg, where_clause, normalize_audit_log_filter, normalize_limit,
}
use gateway_service.Filter.Where.{normalize_limit_bounds}
use gateway_service.Postgres.{Row, Table, Database}
use gateway_service.Postgres.Queries.{
  Expressions, newest_first, arg_at, with_row, select_rows, limited, ordered, accepts, listed,
}
use gateway_service.Postgres.Queries.Order.{
  NoNewer, IsSorted, newest_first-IsSorted, newest_first-Permᴰ,
}
use gateway_service.Postgres.Queries.Conditions.{wanted, meets-where_clause, arg_at-append}

-- The rows that pass a test.
pub kept : (Row → Bool) → Table → Table
kept p [] = []
kept p (row ∷ table) = if p row then row ∷ kept p table else kept p table

-- The first rows of those that pass a test, newest first: all of them, or as many as the limit allows
-- with no newer one left out.
pub record IsPage (p : Row → Bool) (n : ℕ) (table found : Table) : Type 0 where
  pub left_out : Table
  pub splits : Permᴰ (found ++ left_out) (kept p table)
  pub bounded : length found ≤ n
  pub full : (left_out ≡ []) ⊎ (length found ≡ n)
  pub sorted : IsSorted found
  pub newest : All (λ row. All (NoNewer row) left_out) found

take-IsSorted : (n : ℕ) (table : Table) → IsSorted table → IsSorted (take n table)
take-IsSorted zero table h = tt
take-IsSorted (suc n) [] h = tt
take-IsSorted (suc n) (row ∷ table) (below, h) =
    (All-take (NoNewer row) n table below, take-IsSorted n table h)

take-newest :
    (n : ℕ) (table : Table)
    → IsSorted table
    → All (λ row. All (NoNewer row) (drop n table)) (take n table)
take-newest zero table h = tt
take-newest (suc n) [] h = tt
take-newest (suc n) (row ∷ table) (below, h) =
    (All-drop (NoNewer row) n table below, take-newest n table h)

drop-full : (n : ℕ) (table : Table) → (drop n table ≡ []) ⊎ (length (take n table) ≡ n)
drop-full zero table = inr refl
drop-full (suc n) [] = inl refl
drop-full (suc n) (row ∷ table) = elim (drop-full n table) [
  | inl e ↦ inl e
  | inr e ↦ inr (ap suc e)
]

take-IsPage :
    (p : Row → Bool) (n : ℕ) (table : Table)
    → IsPage p n table (take n (newest_first (kept p table)))
take-IsPage p n table =
    let sorted = newest_first (kept p table) in
    let is_sorted = newest_first-IsSorted (kept p table) in
    record {
      left_out = drop n sorted;
      splits =
          subst (λ (l : Table). Permᴰ l (kept p table)) (sym (take-append-drop n sorted))
            (newest_first-Permᴰ (kept p table));
      bounded = omega (arith, length-take n sorted);
      full = drop-full n sorted;
      sorted = take-IsSorted n sorted is_sorted;
      newest = take-newest n sorted is_sorted;
    }

all-append :
    (p : Arg → Bool) (args more : List Arg)
    → all p args ≡ true
    → all p more ≡ true
    → all p (args ++ more) ≡ true
all-append p [] more h k = k
all-append p (a ∷ args) more h k =
    let rest = all-append p args more (ground arith) k in ground arith

module _ (db : Database) (x : Expressions) where
  select_rows-kept :
      (f : AuditLogFilter) (more : List Arg) (table : Table)
      → select_rows db x (where_clause f).conditions ((where_clause f).args ++ more) table
        ≡ some (kept (wanted x f) table)
  unfolding select_rows with_row kept
  select_rows-kept f more [] = refl
  select_rows-kept f more (row ∷ table) =
      rw (meets-where_clause db x f more row, select_rows-kept f more table) refl

  limited-args :
      (args : List Arg) (n : ℕ) (found : Table)
      → ordered db x
          (arg_at (args ++ Arg.number (pos n) ∷ []) (length (args ++ Arg.number (pos n) ∷ [])))
          (some found)
        ≡ some (take n (newest_first found))
  unfolding ordered limited
  limited-args args n found =
      let last : length (args ++ Arg.number (pos n) ∷ []) ≡ suc (length args) =
        omega (arith, length-append args (Arg.number (pos n) ∷ [])) in
      rw (last, arg_at-append args (Arg.number (pos n)) []) refl

  limit_accepted : (n : ℕ) → n ≤ 200 → all (accepts db x) (Arg.number (pos n) ∷ []) ≡ true
  unfolding accepts
  limit_accepted n h = ground arith

  -- The body of the query behind the normalisations, with a limit.
  abbrev answer : AuditLogFilter → Table → ℤ → Option Table
  answer f table limit =
      let args = (where_clause f).args ++ Arg.number limit ∷ [] in
      if all (accepts db x) args
      then ordered db x (arg_at args (length args))
          (select_rows db x (where_clause f).conditions args table)
      else none

  answer-take :
      (f : AuditLogFilter) (table : Table) (n : ℕ)
      → n ≤ 200
      → all (accepts db x) (where_clause f).args ≡ true
      → answer f table (pos n) ≡ some (take n (newest_first (kept (wanted x f) table)))
  answer-take f table n small accepted =
      let args = (where_clause f).args in
      let limit = Arg.number (pos n) ∷ [] in
      rw
        (
          all-append (accepts db x) args limit accepted (limit_accepted n small),
          select_rows-kept f limit table,
        )
        (limited-args args n (kept (wanted x f) table))

  -- The query's answer is a page, of as many rows as the filter's limit in its bounds.
  pub listed-IsPage :
      (upper : Str → Str) (filter : AuditLogFilter) (table : Table)
      → all
          (accepts db x)
          (where_clause
            (normalize_audit_log_filter upper (normalize_audit_log_filter upper filter))).args
        ≡ true
      → (n : ℕ) × (found : Table) × (normalize_limit filter.limit ≡ pos n)
        × (listed db x upper filter table ≡ some found)
        × IsPage
            (wanted x (normalize_audit_log_filter upper (normalize_audit_log_filter upper filter)))
            n
            table
            found
  unfolding listed normalize_audit_log_filter
  listed-IsPage upper filter table h =
      let f = normalize_audit_log_filter upper (normalize_audit_log_filter upper filter) in
      let (n, limit, _, small, _) = normalize_limit_bounds filter.limit in
      (
        n,
        take n (newest_first (kept (wanted x f) table)),
        limit,
        ap (answer f table) limit ∙ answer-take f table n small h,
        take-IsPage (wanted x f) n table,
      )
