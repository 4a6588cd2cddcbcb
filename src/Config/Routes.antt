-- ===== src/Config/Routes.antt =====
-- What the configuration guarantees of its routes.
use gateway_service.Prelude.{
  ◌≡◌, refl, false, Option, none, some, List, [], ◌∷◌, All, Bool-cases, inl, inr, is_empty,
}
use gateway_service.Text.{Str, trim_space, split, cut}
use gateway_service.Route.{Url, Route, RouteError, validate_route}
use gateway_service.Config.{
  Parsers, Checked, accepted, rejected, ◌>>=◌, route_checked, route_targeted, route_split,
  route_named, route_parts, at_least_one, parse_routes,
}

-- A result that meets a predicate, if it is accepted.
abbrev pub Ensures : {A : Type 0} → (A → Type 0) → Checked A → Type 0
Ensures P (accepted a) = P a
Ensures P (rejected e) = Unit

-- What the steps of a chain ensure, the whole chain does.
pub bind-Ensures :
    {A B : Type 0} (P : A → Type 0) (Q : B → Type 0) (m : Checked A) (f : A → Checked B)
    → Ensures P m
    → ((a : A) → P a → Ensures Q (f a))
    → Ensures Q (m >>= f)
bind-Ensures P Q (accepted a) f h k = k a h
bind-Ensures P Q (rejected e) f h k = tt

pub any-Ensures : {A : Type 0} (m : Checked A) → Ensures (λ _. Unit) m
any-Ensures (accepted a) = tt
any-Ensures (rejected e) = tt

-- validateRoute accepts the route.
abbrev pub IsValid : Route → Type 0
IsValid route = validate_route route ≡ none

-- Routes that are valid, and at least one.
abbrev pub AreRoutes : List Route → Type 0
AreRoutes routes = All IsValid routes × (is_empty routes ≡ false)

module _ (q : Parsers) where
  route_checked-IsValid :
      (route : Route) (o : Option RouteError)
      → validate_route route ≡ o
      → Ensures IsValid (route_checked q route o)
  unfolding route_checked
  route_checked-IsValid route none h = h
  route_checked-IsValid route (some e) h = tt

  route_targeted-IsValid :
      (name prefix : Str) (o : Option Url) → Ensures IsValid (route_targeted q name prefix o)
  unfolding route_targeted
  route_targeted-IsValid name prefix none = tt
  route_targeted-IsValid name prefix (some target) = route_checked-IsValid _ _ refl

  route_split-IsValid :
      (part name : Str) (o : Option (Str × Str)) → Ensures IsValid (route_split q part name o)
  unfolding route_split
  route_split-IsValid part name none = tt
  route_split-IsValid part name (some (prefix, target)) = route_targeted-IsValid name prefix _

  route_named-IsValid :
      (part : Str) (o : Option (Str × Str)) → Ensures IsValid (route_named q part o)
  unfolding route_named
  route_named-IsValid part none = tt
  route_named-IsValid part (some (name, rest)) = route_split-IsValid part name _

  route_parts-IsValid : (parts : List Str) → Ensures (All IsValid) (route_parts q parts)
  unfolding route_parts
  route_parts-IsValid [] = tt
  route_parts-IsValid (part ∷ parts) = elim (Bool-cases (is_empty (trim_space part))) [
    | inl blank ↦ rw blank (route_parts-IsValid parts)
    | inr filled ↦ rw filled (
        bind-Ensures IsValid (All IsValid)
          (route_named q (trim_space part) (cut (trim_space part) b'=')) _
          (route_named-IsValid (trim_space part) _)
          λ route valid.
            bind-Ensures (All IsValid) (All IsValid) (route_parts q parts) _
              (route_parts-IsValid parts) λ routes all_valid. (valid, all_valid))
  ]

  -- parseRoutes accepts a text only with at least one route, and validateRoute accepts each of them.
  pub parse_routes-AreRoutes : (value : Str) → Ensures AreRoutes (parse_routes q value)
  unfolding parse_routes at_least_one
  parse_routes-AreRoutes value =
      bind-Ensures (All IsValid) AreRoutes (route_parts q (split value b',')) _
        (route_parts-IsValid (split value b',')) some_route
    where
      some_route :
          (routes : List Route) → All IsValid routes → Ensures AreRoutes (at_least_one q routes)
      some_route [] h = tt
      some_route (route ∷ routes) h = (h, refl)
