-- ===== src/Support/Confined.antt =====
-- What of the services' answers the views of a player show.
use gateway_service.Prelude.{
  ℕ, ◌≡◌, refl, sym, ap, ◌∙◌, Bool, true, false, ◌&&◌, Option, none, some, ltb, ◌==◌, length,
  Bool-cases, inl, inr, ◌⊎◌, ◌≢◌,
}
use mathlib.Core.Path.{subst}
use gateway_service.Text.{Str, eqb}
use gateway_service.Route.{Url, Route}
use gateway_service.Http.{Request, Upstream}
use gateway_service.Json.{Json, null, Shape, Meaning, unmarshal, decode, zero_value}
use gateway_service.Json.Shaped.{IsShaped, encode-IsShaped}
use gateway_service.Json.Exact.{distinct_names, IsExact, encode-decode}
use gateway_service.Json.Restrict.{restrict, decode-restrict}
use gateway_service.Section.{
  Section, SectionName, SectionStatus, SupportResponse, unavailable_section, not_found_section,
}
use gateway_service.World.{Platform, Server, World}
use gateway_service.Support.{
  UpstreamQuery, SupportSchedule, destination, is_failure, project_as, project_player_support_data,
  section_projected, section_read, section_answered, load_created, load_routed,
  load_player_support_upstream, load_player_support,
}
use gateway_service.Support.Collecting.{section_at}
use gateway_service.Support.Complete.{IsFair, IsComplete, IsLoaded, load_player_support-IsComplete}

-- A section that shows a value of a type, and is ok, or that shows nothing.
abbrev pub IsConfined : Shape → Section → Type 0
IsConfined shape section =
    ((section.status ≢ SectionStatus.ok) × (section.payload ≡ some null))
    ⊎ ((j : Json) × (section.status ≡ SectionStatus.ok)
        × (section.payload ≡ some j)
        × IsShaped shape j)

pub unavailable-IsConfined :
    (shape : Shape) (code message : Str) → IsConfined shape (unavailable_section code message)
unfolding unavailable_section
unavailable-IsConfined shape code message = inl (λ e. cc, refl)

pub not_found-IsConfined : (shape : Shape) → IsConfined shape not_found_section
not_found-IsConfined shape = inl (λ e. cc, refl)

module _ (p : Platform) (s : Server) where
  section_projected-IsConfined :
      (shape : Shape) (o : Option (Meaning shape))
      → IsConfined shape (section_projected p s (project_as p s shape o))
  unfolding section_projected project_as
  section_projected-IsConfined shape none = unavailable-IsConfined shape _ _
  section_projected-IsConfined shape (some v) =
      inr (_, refl, refl, encode-IsShaped p.json.quote shape v)

  section_read-IsConfined :
      (query : UpstreamQuery) (status : ℕ) (o : Option Str)
      → IsConfined (destination query.name) (section_read p s query status o)
  unfolding section_read project_player_support_data
  section_read-IsConfined query status none = unavailable-IsConfined _ _ _
  section_read-IsConfined query status (some body) =
      elim (Bool-cases (ltb s.max_body_bytes (length body))) [
        | inl long ↦ rw long (unavailable-IsConfined _ _ _)
        | inr short ↦ elim (Bool-cases (query.allow_not_found && status == 404)) [
          | inl missing ↦ rw (short, missing) (not_found-IsConfined _)
          | inr present ↦ elim (Bool-cases (is_failure status)) [
            | inl failure ↦ rw (short, present, failure) (unavailable-IsConfined _ _ _)
            | inr success ↦
                rw (short, present, success)
                  (section_projected-IsConfined (destination query.name)
                    (unmarshal p.json (destination query.name) body))
          ]
        ]
      ]

  section_answered-IsConfined :
      (query : UpstreamQuery) (o : Option Upstream)
      → IsConfined (destination query.name) (section_answered p s query o)
  unfolding section_answered
  section_answered-IsConfined query none = unavailable-IsConfined _ _ _
  section_answered-IsConfined query (some response) =
      section_read-IsConfined query response.status _

  load_created-IsConfined :
      (r : Request) (player : ℕ) (query : UpstreamQuery) (target : Url) (valid : Bool) (w : World)
      → IsConfined (destination query.name) (load_created p s r player query target valid w).0
  unfolding load_created
  load_created-IsConfined r player query target false w = unavailable-IsConfined _ _ _
  load_created-IsConfined r player query target true w = section_answered-IsConfined query _

  load_routed-IsConfined :
      (r : Request) (player : ℕ) (query : UpstreamQuery) (o : Option Route) (w : World)
      → IsConfined (destination query.name) (load_routed p s r player query o w).0
  unfolding load_routed
  load_routed-IsConfined r player query none w = unavailable-IsConfined _ _ _
  load_routed-IsConfined r player query (some route) w =
      load_created-IsConfined r player query _ _ w

  load_player_support_upstream-IsConfined :
      (r : Request) (player : ℕ) (query : UpstreamQuery) (w : World)
      → IsConfined (destination query.name) (load_player_support_upstream p s r player query w).0
  unfolding load_player_support_upstream
  load_player_support_upstream-IsConfined r player query w =
      load_routed-IsConfined r player query _ w

  loaded-IsConfined :
      (r : Request) (player : ℕ) (query : UpstreamQuery) (section : Section)
      → IsLoaded p s r player query section
      → IsConfined (destination query.name) section
  loaded-IsConfined r player query section (w, e) =
      subst (λ (x : Section). IsConfined (destination query.name) x) (sym e)
        (load_player_support_upstream-IsConfined r player query w)

  All-IsConfined :
      (r : Request) (player : ℕ) (response : SupportResponse) (name : SectionName)
      → IsComplete p s r player response
      → IsConfined (destination name) (section_at name response.sections)
  All-IsConfined r player response SectionName.account h =
      loaded-IsConfined r player _ _ h.complete.0
  All-IsConfined r player response SectionName.ledger h =
      loaded-IsConfined r player _ _ h.complete.1.0
  All-IsConfined r player response SectionName.pull_operations h =
      loaded-IsConfined r player _ _ h.complete.1.1.0
  All-IsConfined r player response SectionName.inventory h =
      loaded-IsConfined r player _ _ h.complete.1.1.1.0
  All-IsConfined r player response SectionName.pull_events h =
      loaded-IsConfined r player _ _ h.complete.1.1.1.1.0
  All-IsConfined r player response SectionName.pull_records h =
      loaded-IsConfined r player _ _ h.complete.1.1.1.1.1.0

-- Whatever the services answer and in whatever order the workers run, if each worker runs once and each
-- result arrives once, each section of a player's view is either not ok and holds null, or ok with a
-- value of its Go type: an object has the fields that its struct declares, in their order and with
-- values of their types, no other field at any depth, and only `omitempty` fields may be missing.
pub load_player_support-IsConfined :
    (p : Platform) (s : Server) (schedule : SupportSchedule) (r : Request) (player : ℕ) (w : World)
    (name : SectionName)
    → IsFair schedule
    → IsConfined
        (destination name)
        (section_at name (load_player_support p s schedule r player w).0.sections)
load_player_support-IsConfined p s schedule r player w name fair =
    All-IsConfined p s r player _ name (load_player_support-IsComplete p s schedule r player w fair)

-- Two answers of a service whose texts parse to values that differ only in members that the section's
-- Go type declares no field for, at any depth, are projected to the same value, and both or neither of
-- them are refused.
pub project_player_support_data-restrict :
    (p : Platform) (s : Server) (name : SectionName) (body other : Str) (j k : Json)
    → p.json.parse body ≡ some j
    → p.json.parse other ≡ some k
    → restrict p.json.unquote j (destination name) ≡ restrict p.json.unquote k (destination name)
    → project_player_support_data p s name body ≡ project_player_support_data p s name other
unfolding project_player_support_data unmarshal
project_player_support_data-restrict p s name body other j k e f same =
    rw (e, f)
      (ap (project_as p s (destination name)) (
        sym (decode-restrict p.json.unquote j (destination name) (zero_value (destination name)))
        ∙ ap
            (λ (x : Json).
              decode p.json.unquote x (destination name) (zero_value (destination name)))
            same
        ∙ decode-restrict p.json.unquote k (destination name) (zero_value (destination name))))

destination-distinct_names : (name : SectionName) → distinct_names (destination name) ≡ true
unfolding destination eqb
destination-distinct_names SectionName.account = refl
destination-distinct_names SectionName.ledger = refl
destination-distinct_names SectionName.pull_operations = refl
destination-distinct_names SectionName.inventory = refl
destination-distinct_names SectionName.pull_events = refl
destination-distinct_names SectionName.pull_records = refl

-- An answer that parses to a value of exactly the form of the section's Go type is projected to this
-- very value: in that form each text is what the package writes for what it reads of it, each number
-- one that it writes and reads back, a pointer or a slice may be null, and each object has the declared
-- fields in their order under names without escapes, where of these only blank `omitempty` ones are
-- missing, and all of them are.
pub project_player_support_data_fixed :
    (p : Platform) (s : Server) (name : SectionName) (body : Str) (j : Json)
    → p.json.parse body ≡ some j
    → IsExact p.json.unquote p.json.quote (destination name) j
    → project_player_support_data p s name body ≡ some j
unfolding project_player_support_data unmarshal project_as
project_player_support_data_fixed p s name body j e h =
    let (v, d, kept) =
      encode-decode p.json.unquote p.json.quote (destination name) j
        (destination-distinct_names name) h in
    rw (e, d, kept) refl
