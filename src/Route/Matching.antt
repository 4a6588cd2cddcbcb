-- ===== src/Route/Matching.antt =====
-- Route selection: the longest prefix wins, and what is selected does match.
use mathlib.Core.List.{Memᴰ}
use mathlib.Core.Path.{subst}
use mathlib.Core.Bool.{false≢true}
use gateway_service.Prelude.{
  ◌∙◌, ◌≤◌, ◌≡◌, refl, sym, true, false, List, [], ◌∷◌, arith, none, some, Bool-cases, inl, inr,
  ◌↔◌, All, is_empty, length, ltb,
}
use gateway_service.Text.{Str}
use gateway_service.Route.{Route, route_matches, match_route, insert_route, sort_routes}

-- No later route has a longer prefix.
abbrev IsSorted : List Route → Type 0
IsSorted [] = Unit
IsSorted (r ∷ rs) = All (λ s. length s.prefix ≤ length r.prefix) rs × IsSorted rs

module _ (P : Route → Type 0) where
  All-insert_route : (r : Route) (rs : List Route) → P r → All P rs → All P (insert_route r rs)
  unfolding insert_route
  All-insert_route r [] p h = (p, tt)
  All-insert_route r (s ∷ rs) p (q, h) =
      elim (Bool-cases (ltb (length r.prefix) (length s.prefix))) [
        | inl e ↦ rw e (q, All-insert_route r rs p h)
        | inr e ↦ rw e (p, (q, h))
      ]

  All-sort_routes : (rs : List Route) → All P rs → All P (sort_routes rs)
  unfolding sort_routes
  All-sort_routes [] h = tt
  All-sort_routes (r ∷ rs) (p, h) = All-insert_route r (sort_routes rs) p (All-sort_routes rs h)

  All-of_insert_route : (r : Route) (rs : List Route) → All P (insert_route r rs) → P r × All P rs
  unfolding insert_route
  All-of_insert_route r [] h = h
  All-of_insert_route r (s ∷ rs) h = elim (Bool-cases (ltb (length r.prefix) (length s.prefix))) [
    | inl e ↦ let (q, k) = rw e at h in let (p, k') = All-of_insert_route r rs k in (p, (q, k'))
    | inr e ↦ let (p, k) = rw e at h in (p, k)
  ]

  All-of_sort_routes : (rs : List Route) → All P (sort_routes rs) → All P rs
  unfolding sort_routes
  All-of_sort_routes [] h = tt
  All-of_sort_routes (r ∷ rs) h =
      let (p, k) = All-of_insert_route r (sort_routes rs) h in (p, All-of_sort_routes rs k)

  -- What holds of every route holds of the selected one.
  pub match_route-All :
      (path : Str) (rs : List Route) {r : Route} → match_route rs path ≡ some r → All P rs → P r
  unfolding match_route
  match_route-All path [] e h = cc
  match_route-All path (s ∷ rs) {r} e (p, h) = elim (Bool-cases (route_matches path s)) [
    | inl m ↦ let same : s ≡ r = ground arith in subst P same p
    | inr m ↦ match_route-All path rs (rw m at e) h
  ]

All-weaken :
    (P Q : Route → Type 0) (rs : List Route) → ((s : Route) → P s → Q s) → All P rs → All Q rs
All-weaken P Q [] f h = tt
All-weaken P Q (r ∷ rs) f (p, h) = (f r p, All-weaken P Q rs f h)

All-Memᴰ : (rs : List Route) → All (λ s. Memᴰ s rs) rs
All-Memᴰ [] = tt
All-Memᴰ (r ∷ rs) = (
  Memᴰ.head refl,
  All-weaken (λ s. Memᴰ s rs) (λ s. Memᴰ s (r ∷ rs)) rs (λ s m. Memᴰ.tail m) (All-Memᴰ rs),
)

insert_route-IsSorted : (r : Route) (rs : List Route) → IsSorted rs → IsSorted (insert_route r rs)
unfolding insert_route
insert_route-IsSorted r [] h = (tt, tt)
insert_route-IsSorted r (s ∷ rs) (below, h) =
    elim (Bool-cases (ltb (length r.prefix) (length s.prefix))) [
      | inl e ↦ rw e (
        All-insert_route (λ t. length t.prefix ≤ length s.prefix) r rs (ground arith) below,
        insert_route-IsSorted r rs h,
      )
      | inr e ↦ rw e (
        (
          ground arith,
          All-weaken (λ t. length t.prefix ≤ length s.prefix)
              (λ t. length t.prefix ≤ length r.prefix) rs (λ t k. ground arith) below,
        ),
        (below, h),
      )
    ]

sort_routes-IsSorted : (rs : List Route) → IsSorted (sort_routes rs)
unfolding sort_routes
sort_routes-IsSorted [] = tt
sort_routes-IsSorted (r ∷ rs) = insert_route-IsSorted r (sort_routes rs) (sort_routes-IsSorted rs)

-- A route that matches is no better than `r`.
abbrev pub IsNoLonger : Str → Route → Route → Type 0
IsNoLonger path r s = route_matches path s ≡ true → length s.prefix ≤ length r.prefix

match_route_longest :
    (path : Str) (rs : List Route) {r : Route}
    → IsSorted rs
    → match_route rs path ≡ some r
    → (route_matches path r ≡ true) × All (IsNoLonger path r) rs
unfolding match_route
match_route_longest path [] sorted e = cc
match_route_longest path (s ∷ rs) {r} (below, sorted) e = elim (Bool-cases (route_matches path s)) [
  | inl m ↦
      let same : s ≡ r = ground arith in
      subst (λ t. (route_matches path t ≡ true) × All (IsNoLonger path t) (s ∷ rs)) same
        (
          m,
          (
            (λ _. omega arith),
            All-weaken (λ t. length t.prefix ≤ length s.prefix) (IsNoLonger path s) rs (λ t k _. k)
                below,
          ),
        )
  | inr m ↦
      let (hit, best) = match_route_longest path rs sorted (rw m at e) in
      (hit, ((λ y. absurd (false≢true (sym m ∙ y))), best))
]

-- The route that a server selects among its sorted routes is one of them, it matches the path, and
-- no matching route has a longer prefix.
pub match_route-sort_routes :
    (routes : List Route) (path : Str) {r : Route}
    → match_route (sort_routes routes) path ≡ some r
    → Memᴰ r routes × (route_matches path r ≡ true) × All (IsNoLonger path r) routes
match_route-sort_routes routes path {r} e =
    let (hit, best) =
      match_route_longest path (sort_routes routes) (sort_routes-IsSorted routes) e in
    (
      match_route-All (λ s. Memᴰ s routes) path (sort_routes routes) e
          (All-sort_routes (λ s. Memᴰ s routes) routes (All-Memᴰ routes)),
      hit,
      All-of_sort_routes (IsNoLonger path r) routes best,
    )

match_route-none :
    (path : Str) (rs : List Route)
    → (match_route rs path ≡ none) ↔ All (λ s. route_matches path s ≡ false) rs
unfolding match_route
match_route-none path [] = (λ _. tt, λ _. refl)
match_route-none path (s ∷ rs) = ground (arith, match_route-none path rs)

-- No route is selected exactly when none of the configured routes matches.
pub match_route-none-sort_routes :
    (routes : List Route) (path : Str)
    → (match_route (sort_routes routes) path ≡ none)
      ↔ All (λ s. route_matches path s ≡ false) routes
match_route-none-sort_routes routes path =
    let (to, from) = match_route-none path (sort_routes routes) in
    (
      λ e. All-of_sort_routes (λ s. route_matches path s ≡ false) routes (to e),
      λ h. from (All-sort_routes (λ s. route_matches path s ≡ false) routes h),
    )

-- Sorting loses no route.
pub sort_routes-filled : (rs : List Route) → is_empty rs ≡ false → is_empty (sort_routes rs) ≡ false
unfolding sort_routes insert_route
sort_routes-filled [] h = h
sort_routes-filled (r ∷ rs) h = at (sort_routes rs)
  where
    at : (sorted : List Route) → is_empty (insert_route r sorted) ≡ false
    at [] = unfold insert_route in refl
    at (s ∷ sorted) =
        unfold insert_route in
        elim (Bool-cases (ltb (length r.prefix) (length s.prefix))) [
          | inl e ↦ rw e refl
          | inr e ↦ rw e refl
        ]
