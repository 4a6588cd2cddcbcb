-- ===== src/Filter/Where.antt =====
-- The where clause and the limit of a query of the audit log.
use Prim.Native.Nat.{min}
use mathlib.Core.List.{map-append}
use gateway_service.Prelude.{
  append-nil, ℕ, zero, suc, ◌≤◌, ◌≡◌, refl, ap, List, [], ◌∷◌, ◌++◌, arith, Option, none, some,
  length, length-append, ℤ, pos, ◌∙◌, map,
}
use gateway_service.Text.{Str, lit}
use gateway_service.Filter.{
  AuditLogFilter, Arg, Condition, Clause, no_clause, add, add_some, add_text, add_route,
  where_clause, normalize_limit, max_audit_log_limit, audit_admin_route_name,
}

-- The limit of a normalised filter lies between 1 and 200, and a limit in that range is kept.
pub normalize_limit_bounds :
    (limit : ℤ)
    → (n : ℕ) × (normalize_limit limit ≡ pos n)
      × (1 ≤ n)
      × (n ≤ max_audit_log_limit)
      × ((m : ℕ) → limit ≡ pos m → 1 ≤ m → m ≤ max_audit_log_limit → n ≡ m)
unfolding normalize_limit
normalize_limit_bounds (ℤ.negsuc k) = (50, refl, omega arith, omega arith, λ m e. cc)
normalize_limit_bounds (pos zero) =
    (50, refl, omega arith, omega arith, λ m e positive. absurd (zero_case m e positive))
  where
    zero_case : (m : ℕ) → pos zero ≡ pos m → 1 ≤ m → ⊥
    zero_case m e positive = ground arith
normalize_limit_bounds (pos (suc k)) =
    (min 200 (suc k), ground arith, omega arith, omega arith, λ m e positive small. ground arith)

-- 1, 2, …, n
abbrev pub count_to : ℕ → List ℕ
count_to zero = []
count_to (suc n) = count_to n ++ suc n ∷ []

-- What each condition compares, and with which argument.
abbrev pub pairs : List Condition → List Arg → List (Str × Str × Arg)
pairs [] args = []
pairs (c ∷ cs) [] = []
pairs (c ∷ cs) (a ∷ args) = (c.before, c.behind, a) ∷ pairs cs args

pairs-append :
    (cs ds : List Condition) (args more : List Arg)
    → length cs ≡ length args
    → pairs (cs ++ ds) (args ++ more) ≡ pairs cs args ++ pairs ds more
pairs-append [] ds [] more h = refl
pairs-append [] ds (a ∷ args) more h = absurd (omega arith)
pairs-append (c ∷ cs) ds [] more h = absurd (omega arith)
pairs-append (c ∷ cs) ds (a ∷ args) more h =
    ap (λ (l : List (Str × Str × Arg)). (c.before, c.behind, a) ∷ l)
      (pairs-append cs ds args more (omega arith))

-- The placeholders are numbered from 1 on, one for each argument, and they are these pairs.
record IsNumbered (clause : Clause) (found : List (Str × Str × Arg)) : Type 0 where
  places : map (λ (c : Condition). c.place) clause.conditions ≡ count_to (length clause.args)
  same_length : length clause.conditions ≡ length clause.args
  paired : pairs clause.conditions clause.args ≡ found

add-IsNumbered :
    (before behind : Str) (value : Arg) (clause : Clause) (found : List (Str × Str × Arg))
    → IsNumbered clause found
    → IsNumbered (add before behind value clause) (found ++ (before, behind, value) ∷ [])
unfolding add
add-IsNumbered before behind value clause found n = record {
  places =
      let grown : length (clause.args ++ value ∷ []) ≡ suc (length clause.args) =
        omega (arith, length-append clause.args (value ∷ [])) in
      rw grown (
        map-append (λ (c : Condition). c.place) clause.conditions _
        ∙ ap (λ (l : List ℕ). l ++ suc (length clause.args) ∷ []) n.places);
  same_length = omega (
    arith,
    n.same_length,
    length-append clause.args (value ∷ []),
    length-append clause.conditions (
        record { before = before; place = length (clause.args ++ value ∷ []); behind = behind }
        ∷ []),
  );
  paired =
      pairs-append clause.conditions _ clause.args _ n.same_length
      ∙ ap (λ (l : List (Str × Str × Arg)). l ++ (before, behind, value) ∷ []) n.paired;
}

-- What a field that may be nil, a text that may be empty and the route ask for.
abbrev pub asked_some : {A : Type 0} → Str → (A → Arg) → Option A → List (Str × Str × Arg)
asked_some before to_arg none = []
asked_some before to_arg (some a) = (before, [], to_arg a) ∷ []

abbrev pub asked_text : Str → Str → Str → List (Str × Str × Arg)
asked_text before behind [] = []
asked_text before behind (c ∷ s) = (before, behind, Arg.text (c ∷ s)) ∷ []

-- A route that is asked for; else, unless one request is asked for, all but the administrators' own
-- queries.
abbrev pub asked_route : Str → Option ℕ → List (Str × Str × Arg)
asked_route (c ∷ route) request_id = (lit "route = ", [], Arg.text (c ∷ route)) ∷ []
asked_route [] none =
    (lit "(route is null or route <> ", lit ")", Arg.text audit_admin_route_name) ∷ []
asked_route [] (some id) = []

add_some-IsNumbered :
    {A : Type 0} (before : Str) (to_arg : A → Arg) (o : Option A) (clause : Clause)
    (found : List (Str × Str × Arg))
    → IsNumbered clause found
    → IsNumbered (add_some before to_arg o clause) (found ++ asked_some before to_arg o)
unfolding add_some
add_some-IsNumbered before to_arg none clause found n = rw append-nil n
add_some-IsNumbered before to_arg (some a) clause found n =
    add-IsNumbered before [] (to_arg a) clause found n

add_text-IsNumbered :
    (before behind s : Str) (clause : Clause) (found : List (Str × Str × Arg))
    → IsNumbered clause found
    → IsNumbered (add_text before behind s clause) (found ++ asked_text before behind s)
unfolding add_text
add_text-IsNumbered before behind [] clause found n = rw append-nil n
add_text-IsNumbered before behind (c ∷ s) clause found n =
    add-IsNumbered before behind (Arg.text (c ∷ s)) clause found n

add_route-IsNumbered :
    (filter : AuditLogFilter) (clause : Clause) (found : List (Str × Str × Arg))
    → IsNumbered clause found
    → IsNumbered (add_route filter clause) (found ++ asked_route filter.route filter.request_id)
add_route-IsNumbered filter clause found n = at filter.route filter.request_id
  where
    at :
        (route : Str) (request_id : Option ℕ)
        → IsNumbered
            (add_route (record filter { route = route; request_id = request_id }) clause)
            (found ++ asked_route route request_id)
    at (c ∷ route) request_id =
        unfold add_route in add-IsNumbered (lit "route = ") [] (Arg.text (c ∷ route)) clause found n
    at [] none =
        unfold add_route in
        add-IsNumbered (lit "(route is null or route <> ") (lit ")")
          (Arg.text audit_admin_route_name) clause found n
    at [] (some id) = unfold add_route in rw append-nil n

-- The conditions that a filter asks for, in order.
abbrev pub asked : AuditLogFilter → List (Str × Str × Arg)
asked f =
    asked_some (lit "request_id = ") Arg.uuid f.request_id
    ++ asked_some (lit "user_id = ") Arg.uuid f.user_id
    ++ asked_text (lit "method = ") [] f.method
    ++ asked_text (lit "path ilike '%' || ") (lit " || '%'") f.path_contains
    ++ asked_route f.route f.request_id
    ++ asked_text (lit "auth_result = ") [] f.auth_result
    ++ asked_some (lit "response_status = ") Arg.number f.response_status
    ++ asked_some (lit "started_at >= ") Arg.time f.since
    ++ asked_some (lit "started_at < ") Arg.time f.until

where_clause-IsNumbered : (f : AuditLogFilter) → IsNumbered (where_clause f) (asked f)
unfolding where_clause
where_clause-IsNumbered f = add_some-IsNumbered _ Arg.time f.until _ _ (
    add_some-IsNumbered _ Arg.time f.since _ _ (
      add_some-IsNumbered _ Arg.number f.response_status _ _ (
        add_text-IsNumbered _ [] f.auth_result _ _ (
          add_route-IsNumbered f _ _ (
            add_text-IsNumbered _ _ f.path_contains _ _ (
              add_text-IsNumbered _ [] f.method _ _ (
                add_some-IsNumbered _ Arg.uuid f.user_id _ _ (
                  add_some-IsNumbered _ Arg.uuid f.request_id no_clause []
                    (record { places = refl; same_length = refl; paired = refl })))))))))

-- The where clause numbers its placeholders from 1 on, one for each argument, and the conditions with
-- their arguments are those that the filter asks for: each set field once, and the administrators' own
-- queries are left out unless a route or a request is asked for.
pub where_clause-asked :
    (f : AuditLogFilter)
    → (map (λ (c : Condition). c.place) (where_clause f).conditions
        ≡ count_to (length (where_clause f).args))
      × (length (where_clause f).conditions ≡ length (where_clause f).args)
      × (pairs (where_clause f).conditions (where_clause f).args ≡ asked f)
where_clause-asked f = let n = where_clause-IsNumbered f in (n.places, n.same_length, n.paired)
