-- ===== src/Postgres/Queries/Conditions.antt =====
-- What the where clause of a filter selects.
use mathlib.Core.List.{append_assoc}
use gateway_service.Prelude.{
  ℕ, zero, suc, ◌+◌, ◌≤◌, ◌≡◌, refl, sym, ap, ◌∙◌, Bool, true, false, not, ◌&&◌, Option, none, some,
  List, [], ◌∷◌, ◌++◌, map, arith, ltb, leb, ◌==◌, length, length-append,
}
use gateway_service.Text.{Str, lit, eqb}
use gateway_service.Filter.{AuditLogFilter, Arg, Condition, where_clause, audit_admin_route_name}
use gateway_service.Filter.Where.{
  count_to, pairs, asked, asked_some, asked_text, asked_route, where_clause-asked,
}
use gateway_service.Postgres.{Row, Database, microseconds}
use gateway_service.Postgres.Queries.{
  Expressions, is_some_of, same_number, pattern_of, arg_at, both, test, test_at, meets,
}

-- What a field that may be nil, a text that may be empty and the route ask of a row.
abbrev pub asks {ℓ} : {A : Type ℓ} → (A → Bool) → Option A → Bool
asks test none = true
asks test (some a) = test a

abbrev pub asks_text : (Str → Bool) → Str → Bool
asks_text test [] = true
asks_text test (c ∷ s) = test (c ∷ s)

abbrev pub asks_route : Row → Str → Option ℕ → Bool
asks_route row (c ∷ route) id = is_some_of (λ r. eqb r (c ∷ route)) row.route
asks_route row [] none = not (is_some_of (λ r. eqb r audit_admin_route_name) row.route)
asks_route row [] (some id) = true

-- The rows that a filter asks for: each field that is set holds of the row, and the administrators' own
-- queries are left out unless a route or a request is asked for.
pub wanted : Expressions → AuditLogFilter → Row → Bool
unfolding same_number
wanted x f row =
    asks (λ id. row.request_id == id) f.request_id
    && asks (λ id. is_some_of (λ user. user == id) row.user_id) f.user_id
    && asks_text (λ s. eqb row.method s) f.method
    && asks_text (λ s. x.ilike row.path (pattern_of s)) f.path_contains
    && asks_route row f.route f.request_id
    && asks_text (λ s. eqb row.auth_result s) f.auth_result
    && asks (λ n. is_some_of (λ status. same_number status n) row.response_status) f.response_status
    && asks (λ t. leb (microseconds t) row.started_at) f.since
    && asks (λ t. ltb row.started_at (microseconds t)) f.until

count_from : ℕ → ℕ → List ℕ
count_from k zero = []
count_from k (suc n) = k ∷ count_from (suc k) n

count_from-snoc : (k n : ℕ) → count_from k n ++ (k + n) ∷ [] ≡ count_from k (suc n)
unfolding count_from
count_from-snoc k zero = ap (λ (m : ℕ). m ∷ []) (omega arith)
count_from-snoc k (suc n) =
    ap (λ (l : List ℕ). k ∷ l)
      (ap (λ (m : ℕ). count_from (suc k) n ++ m ∷ []) (omega arith) ∙ count_from-snoc (suc k) n)

count_to-from : (n : ℕ) → count_to n ≡ count_from 1 n
unfolding count_from
count_to-from zero = refl
count_to-from (suc n) =
    ap (λ (l : List ℕ). l ++ suc n ∷ []) (count_to-from n)
    ∙ ap (λ (m : ℕ). count_from 1 n ++ m ∷ []) (omega arith)
    ∙ count_from-snoc 1 n

pub arg_at-append :
    (args : List Arg) (a : Arg) (more : List Arg)
    → arg_at (args ++ a ∷ more) (suc (length args)) ≡ some a
unfolding arg_at
arg_at-append [] a more = refl
arg_at-append (b ∷ args) a more = arg_at-append args a more

both_assoc : (a b c : Option Bool) → both (both a b) c ≡ both a (both b c)
unfolding both
both_assoc none b c = refl
both_assoc (some a) none c = refl
both_assoc (some a) (some b) none = refl
both_assoc (some true) (some b) (some c) = refl
both_assoc (some false) (some b) (some c) = refl

module _ (db : Database) (x : Expressions) (row : Row) where
  -- The conditions with their arguments beside them.
  meets_pairs : List (Str × Str × Arg) → Option Bool
  meets_pairs [] = some true
  meets_pairs ((before, behind, a) ∷ ps) = both (test db x before behind a row) (meets_pairs ps)

  both-true : (o : Option Bool) → both (some true) o ≡ o
  unfolding both
  both-true none = refl
  both-true (some b) = refl

  meets_pairs-append :
      (ps qs : List (Str × Str × Arg))
      → meets_pairs (ps ++ qs) ≡ both (meets_pairs ps) (meets_pairs qs)
  unfolding meets_pairs
  meets_pairs-append [] qs = sym (both-true (meets_pairs qs))
  meets_pairs-append ((before, behind, a) ∷ ps) qs =
      ap (both (test db x before behind a row)) (meets_pairs-append ps qs)
      ∙ sym (both_assoc (test db x before behind a row) (meets_pairs ps) (meets_pairs qs))

  -- Conditions that number the arguments behind some others meet them in pairs.
  meets-numbered :
      (cs : List Condition) (used args : List Arg)
      → map (λ (c : Condition). c.place) cs ≡ count_from (suc (length used)) (length cs)
      → length cs ≤ length args
      → meets db x cs (used ++ args) row ≡ meets_pairs (pairs cs args)
  unfolding meets meets_pairs count_from test_at
  meets-numbered [] used args places h = refl
  meets-numbered (c ∷ cs) used [] places h = absurd (omega arith)
  meets-numbered (c ∷ cs) used (a ∷ args) places h =
      let (here, behind) : (c.place ≡ suc (length used))
          × (map (λ (d : Condition). d.place) cs
              ≡ count_from (suc (suc (length used))) (length cs)) =
        (cc, cc) in
      let shift : used ++ a ∷ args ≡ (used ++ a ∷ []) ++ args =
        sym (append_assoc used (a ∷ []) args) in
      let one_more : suc (length used) ≡ length (used ++ a ∷ []) =
        omega (arith, length-append used (a ∷ [])) in
      ap
        (λ (n : ℕ).
          both (test_at db x c (arg_at (used ++ a ∷ args) n) row)
            (meets db x cs (used ++ a ∷ args) row))
        here
      ∙ ap (λ (o : Option Arg). both (test_at db x c o row) (meets db x cs (used ++ a ∷ args) row))
          (arg_at-append used a args)
      ∙ ap (λ (l : List Arg). both (test db x c.before c.behind a row) (meets db x cs l row)) shift
      ∙ ap (both (test db x c.before c.behind a row)) (
          meets-numbered cs (used ++ a ∷ []) args
            (behind ∙ ap (λ (n : ℕ). count_from (suc n) (length cs)) one_more) (omega arith))

  both_one : (o : Option Bool) → both o (some true) ≡ o
  unfolding both
  both_one none = refl
  both_one (some true) = refl
  both_one (some false) = refl

  record IsMet (ps : List (Str × Str × Arg)) (b : Bool) : Type 0 where
    met : meets_pairs ps ≡ some b

  meets_some :
      {A : Type 0} (before : Str) (to_arg : A → Arg) (holds : A → Bool) (o : Option A)
      → ((a : A) → test db x before [] (to_arg a) row ≡ some (holds a))
      → IsMet (asked_some before to_arg o) (asks holds o)
  unfolding meets_pairs
  meets_some before to_arg holds none h = record { met = refl }
  meets_some before to_arg holds (some a) h = record { met = both_one _ ∙ h a }

  meets_text :
      (before behind s : Str) (holds : Str → Bool)
      → ((s : Str) → test db x before behind (Arg.text s) row ≡ some (holds s))
      → IsMet (asked_text before behind s) (asks_text holds s)
  unfolding meets_pairs
  meets_text before behind [] holds h = record { met = refl }
  meets_text before behind (c ∷ s) holds h = record { met = both_one _ ∙ h (c ∷ s) }

  meets_route :
      (route : Str) (id : Option ℕ) → IsMet (asked_route route id) (asks_route row route id)
  unfolding meets_pairs test eqb both
  meets_route (c ∷ route) id = record { met = both_one _ }
  meets_route [] none = record { met = both_one _ }
  meets_route [] (some id) = record { met = refl }

  -- Conditions one behind the other.
  infixl 40 ◌&?◌
  ◌&?◌ :
      {ps qs : List (Str × Str × Arg)} {a b : Bool}
      → IsMet ps a
      → IsMet qs b
      → IsMet (ps ++ qs) (a && b)
  unfolding both
  ◌&?◌ {ps} {qs} h k = record { met = meets_pairs-append ps qs ∙ rw (h.met, k.met) refl }

  meets_asked : (f : AuditLogFilter) → IsMet (asked f) (wanted x f row)
  unfolding wanted test eqb
  meets_asked f =
      meets_some (lit "request_id = ") Arg.uuid (λ id. row.request_id == id) f.request_id
        (λ id. refl)
      &? meets_some (lit "user_id = ") Arg.uuid (λ id. is_some_of (λ user. user == id) row.user_id)
          f.user_id (λ id. refl)
      &? meets_text (lit "method = ") [] f.method (λ s. eqb row.method s) (λ s. refl)
      &? meets_text (lit "path ilike '%' || ") (lit " || '%'") f.path_contains
          (λ s. x.ilike row.path (pattern_of s)) (λ s. refl)
      &? meets_route f.route f.request_id
      &? meets_text (lit "auth_result = ") [] f.auth_result (λ s. eqb row.auth_result s) (λ s. refl)
      &? meets_some (lit "response_status = ") Arg.number
          (λ n. is_some_of (λ status. same_number status n) row.response_status) f.response_status
          (λ n. refl)
      &? meets_some (lit "started_at >= ") Arg.time (λ t. leb (microseconds t) row.started_at)
          f.since (λ t. refl)
      &? meets_some (lit "started_at < ") Arg.time (λ t. ltb row.started_at (microseconds t))
          f.until (λ t. refl)

pairs_of_append :
    (cs : List Condition) (args more : List Arg)
    → length cs ≡ length args
    → pairs cs (args ++ more) ≡ pairs cs args
pairs_of_append [] [] more h = refl
pairs_of_append [] (a ∷ args) more h = refl
pairs_of_append (c ∷ cs) [] more h = absurd (omega arith)
pairs_of_append (c ∷ cs) (a ∷ args) more h =
    ap (λ (l : List (Str × Str × Arg)). (c.before, c.behind, a) ∷ l)
      (pairs_of_append cs args more (omega arith))

-- The where clause selects the rows that the filter asks for, whatever arguments follow its own.
pub meets-where_clause :
    (db : Database) (x : Expressions) (f : AuditLogFilter) (more : List Arg) (row : Row)
    → meets db x (where_clause f).conditions ((where_clause f).args ++ more) row
      ≡ some (wanted x f row)
meets-where_clause db x f more row =
    let cs = (where_clause f).conditions in
    let args = (where_clause f).args in
    let (places, same_length, paired) = where_clause-asked f in
    let numbered : map (λ (c : Condition). c.place) cs ≡ count_from 1 (length cs) =
      places ∙ count_to-from (length args) ∙ ap (count_from 1) (sym same_length) in
    meets-numbered db x row cs [] (args ++ more) numbered
      (omega (arith, same_length, length-append args more))
    ∙ ap (meets_pairs db x row) (pairs_of_append cs args more same_length ∙ paired)
    ∙ (meets_asked db x row f).met
