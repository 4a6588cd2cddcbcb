-- ===== src/Support/Complete.antt =====
-- That the view of a player holds what every worker found, whatever the order of the workers.
use mathlib.Core.List.{Memᴰ, Permᴰ}
use mathlib.Core.List.Permᴰ
use mathlib.Core.Path.{subst}
use gateway_service.Prelude.{
  ℕ, ◌≡◌, refl, sym, ap, ◌∙◌, true, false, List, [], ◌∷◌, All, All-Permᴰ, Memᴰ-Permᴰ, ◌↔◌,
}
use gateway_service.Http.{Request}
use gateway_service.Section.{Section, SectionName, SupportResponse, is_unavailable}
use gateway_service.World.{Platform, Server, World}
use gateway_service.Support.{
  UpstreamQuery, SectionResult, SupportSchedule, collect, support_queries,
  load_player_support_upstream, load_all, load_player_support,
}
use gateway_service.Support.Collecting.{
  section_at, names, query_names, Distinct, Distinct-Permᴰ, names-Permᴰ, query_names-Permᴰ,
  collect-present, collect-partial, any-Memᴰ, Memᴰ-any,
}

-- Every worker runs once, and every result comes out of the channel once.
pub record IsFair (schedule : SupportSchedule) : Type 0 where
  pub starts : (queries : List UpstreamQuery) → Permᴰ queries (schedule.start queries)
  pub arrives : (results : List SectionResult) → Permᴰ results (schedule.arrive results)

module _ (p : Platform) (s : Server) (r : Request) (player : ℕ) where
  -- The section is what the query's worker returns in some state of the request.
  abbrev pub IsLoaded : UpstreamQuery → Section → Type 0
  IsLoaded query section =
      (w : World) × (section ≡ (load_player_support_upstream p s r player query w).0)

  abbrev Has : List SectionResult → UpstreamQuery → Type 0
  Has results query =
      (result : SectionResult) × Memᴰ result results
      × (result.name ≡ query.name)
      × IsLoaded query result.section

  abbrev has_more :
      (result : SectionResult) (results : List SectionResult) (query : UpstreamQuery)
      → Has results query
      → Has (result ∷ results) query
  has_more result results query (found, m, e, loaded) = (found, Memᴰ.tail m, e, loaded)

  All-has_more :
      (result : SectionResult) (results : List SectionResult) (queries : List UpstreamQuery)
      → All (Has results) queries
      → All (Has (result ∷ results)) queries
  All-has_more result results [] h = tt
  All-has_more result results (query ∷ queries) (h, hs) =
      (has_more result results query h, All-has_more result results queries hs)

  load_all-Has :
      (queries : List UpstreamQuery) (w : World)
      → All (Has (load_all p s r player queries w).0) queries
  unfolding load_all
  load_all-Has [] w = tt
  load_all-Has (query ∷ queries) w = (
    (_, Memᴰ.head refl, refl, (w, refl)),
    All-has_more _ _ queries
        (load_all-Has queries (load_player_support_upstream p s r player query w).1),
  )

  names-load_all :
      (queries : List UpstreamQuery) (w : World)
      → names (load_all p s r player queries w).0 ≡ query_names queries
  unfolding load_all
  names-load_all [] w = refl
  names-load_all (query ∷ queries) w =
      ap (λ ns. query.name ∷ ns)
        (names-load_all queries (load_player_support_upstream p s r player query w).1)

  -- A response whose sections the workers found, and that is marked partial if one of them is down.
  pub record IsComplete (response : SupportResponse) : Type 0 where
    pub complete :
        All (λ query. IsLoaded query (section_at query.name response.sections)) support_queries
    pub partial_iff : (response.partial ≡ true) ↔ (
        (name : SectionName) × (is_unavailable (section_at name response.sections).status ≡ true))

  All-IsLoaded :
      (results : List SectionResult) (queries : List UpstreamQuery) (x : SupportResponse)
      → Distinct (names results)
      → All (Has results) queries
      → All (λ query. IsLoaded query (section_at query.name (collect results x).sections)) queries
  All-IsLoaded results [] x d h = tt
  All-IsLoaded results (query ∷ queries) x d ((result, m, e, (w, found)), hs) = (
    (
      w,
      subst (λ (n : SectionName). section_at n (collect results x).sections ≡ result.section) e
            (collect-present result results x d m)
          ∙ found,
    ),
    All-IsLoaded results queries x d hs,
  )

  -- Every section has its worker.
  named_result :
      (results : List SectionResult) (name : SectionName)
      → All (Has results) support_queries
      → (result : SectionResult) × Memᴰ result results × (result.name ≡ name)
  named_result results SectionName.account (q, _) = (q.0, q.1, q.2)
  named_result results SectionName.ledger (_, (q, _)) = (q.0, q.1, q.2)
  named_result results SectionName.pull_operations (_, (_, (q, _))) = (q.0, q.1, q.2)
  named_result results SectionName.inventory (_, (_, (_, (q, _)))) = (q.0, q.1, q.2)
  named_result results SectionName.pull_events (_, (_, (_, (_, (q, _))))) = (q.0, q.1, q.2)
  named_result results SectionName.pull_records (_, (_, (_, (_, (_, (q, _)))))) = (q.0, q.1, q.2)

  collect-IsComplete :
      (results : List SectionResult) (x : SupportResponse)
      → x.partial ≡ false
      → Distinct (names results)
      → All (Has results) support_queries
      → IsComplete (collect results x)
  collect-IsComplete results x whole d h = record {
    complete = All-IsLoaded results support_queries x d h;
    partial_iff = (
      λ down.
          let (result, m, found) =
            any-Memᴰ results (sym (collect-partial results x whole) ∙ down) in
          (
            result.name,
            ap (λ section. is_unavailable section.status) (collect-present result results x d m)
                ∙ found,
          ),
      λ down.
          let (result, m, e) = named_result results down.0 h in
          collect-partial results x whole
          ∙ Memᴰ-any result results m (
              sym (
                ap (λ section. is_unavailable section.status)
                  (subst
                    (λ (n : SectionName).
                      section_at n (collect results x).sections ≡ result.section)
                    e (collect-present result results x d m)))
              ∙ down.1),
    );
  }

-- Whatever the services answer and in whatever order the workers call them and hand in their results,
-- if each worker runs once and each result arrives once, every section of the view is what its own
-- worker returned, and the view is marked partial exactly if one of its six sections is unavailable.
pub load_player_support-IsComplete :
    (p : Platform) (s : Server) (schedule : SupportSchedule) (r : Request) (player : ℕ) (w : World)
    → IsFair schedule
    → IsComplete p s r player (load_player_support p s schedule r player w).0
unfolding load_player_support
load_player_support-IsComplete p s schedule r player w fair =
    let started = schedule.start support_queries in
    let results = (load_all p s r player started w).0 in
    collect-IsComplete p s r player (schedule.arrive results) _ refl
      (Distinct-Permᴰ (names-Permᴰ (fair.arrives results)) (
        subst Distinct (sym (names-load_all p s r player started w))
          (Distinct-Permᴰ (query_names-Permᴰ (fair.starts support_queries)) distinct_queries)))
      (All-Permᴰ _ (Permᴰ.symm (fair.starts support_queries))
        (arrived results started (load_all-Has p s r player started w)))
  where
    distinct_queries : Distinct (query_names support_queries)
    distinct_queries = (
      (refl, (refl, (refl, (refl, (refl, tt))))),
      (
        (refl, (refl, (refl, (refl, tt)))),
        ((refl, (refl, (refl, tt))), ((refl, (refl, tt)), ((refl, tt), (tt, tt)))),
      ),
    )

    arrived :
        (results : List SectionResult) (queries : List UpstreamQuery)
        → All (Has p s r player results) queries
        → All (Has p s r player (schedule.arrive results)) queries
    arrived results [] h = tt
    arrived results (query ∷ queries) ((result, m, e, loaded), hs) = (
      (result, Memᴰ-Permᴰ result (fair.arrives results) m, e, loaded),
      arrived results queries hs,
    )
