-- ===== src/Route/Target.antt =====
-- Where a request goes: joinURLPath, buildTargetURL, and routes that validateRoute accepts.
use mathlib.Core.List.{reverse-append, reverse-reverse}
use gateway_service.Prelude.{
  ◌||◌, ◌∙◌, ℕ, ◌≡◌, ◌≢◌, refl, sym, ap, Bool, true, [], ◌∷◌, ◌++◌, arith, Bool-cases, append_assoc,
  inl, inr, ◌↔◌, ◌⊎◌, All, reverse, ◌==◌,
}
use gateway_service.Text.{Str, lit, eqb, trim_left, trim_right}
use gateway_service.Text.Laws.{eqb_iff, trim_prefix-append, has_prefix_sound, has_prefix-append}
use gateway_service.Route.{Url, Route, route_matches, join_trimmed, join_url_path, build_target_url}

abbrev pub slash : ℕ
slash = b'/'

-- A path that starts with a slash, or is empty.
abbrev pub IsRooted : Str → Type 0
IsRooted [] = Unit
IsRooted (c ∷ s) = c ≡ slash

abbrev pub HasRoot : Str → Type 0
HasRoot [] = ⊥
HasRoot (c ∷ s) = c ≡ slash

join_trimmed-HasRoot : (base suffix : Str) → IsRooted base → HasRoot (join_trimmed base suffix)
unfolding join_trimmed
join_trimmed-HasRoot [] [] h = refl
join_trimmed-HasRoot [] (c ∷ s) h = refl
join_trimmed-HasRoot (b ∷ base) [] h = h
join_trimmed-HasRoot (b ∷ base) (c ∷ s) h = h

NotLed_of_append : (s t : Str) → IsRooted (s ++ t) → IsRooted s
NotLed_of_append [] t h = tt
NotLed_of_append (c ∷ s) t h = h

-- What trim_right leaves is a prefix.
trim_left-suffix : (s : Str) (c : ℕ) → (k : Str) × (s ≡ k ++ trim_left s c)
unfolding trim_left
trim_left-suffix [] c = ([], refl)
trim_left-suffix (a ∷ s) c = elim (Bool-cases (a == c)) [
  | inl e ↦ let (k, h) = trim_left-suffix s c in (a ∷ k, rw e (ap (λ (t : Str). a ∷ t) h))
  | inr e ↦ ([], rw e)
]

trim_right-prefix : (s : Str) (c : ℕ) → (k : Str) × (s ≡ trim_right s c ++ k)
unfolding trim_right
trim_right-prefix s c =
    let (k, h) = trim_left-suffix (reverse s) c in
    (reverse k, sym (reverse-reverse s) ∙ ap reverse h ∙ reverse-append k (trim_left (reverse s) c))

trim_right-IsRooted : (s : Str) (c : ℕ) → IsRooted s → IsRooted (trim_right s c)
trim_right-IsRooted s c h =
    let (k, e) = trim_right-prefix s c in NotLed_of_append (trim_right s c) k (rw e at h)

-- The path of every upstream request starts with a slash, if the target's path is empty or does.
pub build_target_url-HasRoot :
    (route : Route) (source : Url)
    → IsRooted route.target.path
    → HasRoot (build_target_url route source).path
unfolding build_target_url join_url_path
build_target_url-HasRoot route source h =
    join_trimmed-HasRoot (trim_right route.target.path b'/') _ (trim_right-IsRooted _ b'/' h)

join_trimmed_cons :
    (base : Str) (c : ℕ) (s : Str) → join_trimmed base (c ∷ s) ≡ base ++ (lit "/" ++ (c ∷ s))
unfolding join_trimmed
join_trimmed_cons [] c s = refl
join_trimmed_cons (b ∷ base) c s = append_assoc (b ∷ base) (lit "/") (c ∷ s)

trim_left-slashes :
    (slashes : Str) (c : ℕ) (s : Str)
    → All (λ x. x ≡ slash) slashes
    → c ≢ slash
    → trim_left (slashes ++ (c ∷ s)) slash ≡ c ∷ s
unfolding trim_left
trim_left-slashes [] c s h other = ground arith
trim_left-slashes (x ∷ slashes) c s (e, h) other =
    ground (arith, trim_left-slashes slashes c s h other)

-- A request for a route's prefix, any number of slashes and a rest that starts with no slash is sent to
-- the target's path without the slashes at its end, one slash and that rest, at the target's scheme and
-- host, with the query of the request. However many slashes there are, they become one, and the escaped
-- form of the request's path is not passed on: all other fields are the target's.
pub build_target_url_below :
    (route : Route) (source : Url) (slashes : Str) (c : ℕ) (s : Str)
    → All (λ x. x ≡ slash) slashes
    → c ≢ slash
    → source.path ≡ route.prefix ++ (slashes ++ (c ∷ s))
    → ((build_target_url route source).path
        ≡ trim_right route.target.path slash ++ (lit "/" ++ (c ∷ s)))
      × ((build_target_url route source).scheme ≡ route.target.scheme)
      × ((build_target_url route source).host ≡ route.target.host)
      × ((build_target_url route source).raw_query ≡ source.raw_query)
      × ((build_target_url route source).rest ≡ route.target.rest)
unfolding build_target_url join_url_path
build_target_url_below route source slashes c s all other e = (
  rw (e, trim_prefix-append, trim_left-slashes slashes c s all other)
      (join_trimmed_cons (trim_right route.target.path b'/') c s),
  refl,
  refl,
  refl,
  refl,
)

or_true_right : (a : Bool) {b : Bool} → b ≡ true → (a || b) ≡ true
or_true_right a h = ground arith

-- A path is selected by a route exactly if it is the route's prefix or goes on behind it with a slash.
pub route_matches_iff :
    (path : Str) (route : Route)
    → (route_matches path route ≡ true)
      ↔ ((path ≡ route.prefix) ⊎ ((s : Str) × (path ≡ (route.prefix ++ lit "/") ++ s)))
unfolding route_matches
route_matches_iff path route = (
  λ h. elim (Bool-cases (eqb path route.prefix)) [
    | inl e ↦ inl ((eqb_iff path route.prefix).0 e)
    | inr e ↦ inr (_, has_prefix_sound path (route.prefix ++ lit "/") (ground arith))
  ],
  λ d. elim d [
    | inl e ↦ ground (arith, eqb_iff path route.prefix)
    | inr (s, e) ↦ rw e (or_true_right _ (has_prefix-append (route.prefix ++ lit "/") s))
  ],
)

-- A route at "/", which validateRoute accepts, selects "/" and the paths that start with "//" only.
pub root_route_matches_iff :
    (path : Str) (route : Route)
    → route.prefix ≡ lit "/"
    → (route_matches path route ≡ true) ↔ ((path ≡ lit "/") ⊎ ((s : Str) × (path ≡ lit "//" ++ s)))
root_route_matches_iff path route h =
    rw (ap (λ (p : Str). (path ≡ p) ⊎ ((s : Str) × (path ≡ (p ++ lit "/") ++ s))) (sym h))
      (route_matches_iff path route)
