-- ===== src/Support/Collecting.antt =====
-- How loadPlayerSupport puts the results of its workers together, in whatever order they come.
use mathlib.Core.List.{Memᴰ, Permᴰ}
use mathlib.Core.Path.{subst}
use gateway_service.Prelude.{
  ℕ, ◌≡◌, refl, sym, ap, ◌∙◌, Bool, true, false, ◌||◌, List, [], ◌∷◌, arith, ◌==◌, ==_iff, any, All,
  All-Permᴰ, Bool-cases, inl, inr,
}
use gateway_service.Section.{Section, SectionName, Sections, SupportResponse, is_unavailable}
use gateway_service.Support.{UpstreamQuery, SectionResult, set_section, collect}

-- The section of a name.
abbrev pub section_at : SectionName → Sections → Section
section_at SectionName.account x = x.account
section_at SectionName.ledger x = x.ledger
section_at SectionName.pull_operations x = x.pull_operations
section_at SectionName.inventory x = x.inventory
section_at SectionName.pull_events x = x.pull_events
section_at SectionName.pull_records x = x.pull_records

abbrev ordinal : SectionName → ℕ
ordinal SectionName.account = 0
ordinal SectionName.ledger = 1
ordinal SectionName.pull_operations = 2
ordinal SectionName.inventory = 3
ordinal SectionName.pull_events = 4
ordinal SectionName.pull_records = 5

abbrev same : SectionName → SectionName → Bool
same n m = ordinal n == ordinal m

same_refl : (n : SectionName) → same n n ≡ true
same_refl n = (==_iff (ordinal n) (ordinal n)).1 refl

same_sym : (n m : SectionName) → same n m ≡ false → same m n ≡ false
same_sym n m h = ground arith

abbrev choose : Bool → Section → Section → Section
choose true section old = section
choose false section old = old

section_at-set_section :
    (n m : SectionName) (section : Section) (x : Sections)
    → section_at n (set_section m section x) ≡ choose (same n m) section (section_at n x)
unfolding set_section
section_at-set_section SectionName.account m section x = ground arith
section_at-set_section SectionName.ledger m section x = ground arith
section_at-set_section SectionName.pull_operations m section x = ground arith
section_at-set_section SectionName.inventory m section x = ground arith
section_at-set_section SectionName.pull_events m section x = ground arith
section_at-set_section SectionName.pull_records m section x = ground arith

abbrev pub names : List SectionResult → List SectionName
names [] = []
names (result ∷ results) = result.name ∷ names results

abbrev pub query_names : List UpstreamQuery → List SectionName
query_names [] = []
query_names (query ∷ queries) = query.name ∷ query_names queries

-- No name stands twice in a list.
abbrev pub Distinct : List SectionName → Type 0
Distinct [] = Unit
Distinct (n ∷ ns) = All (λ m. same n m ≡ false) ns × Distinct ns

same_swap : {a b a' b' : SectionName} → a ≡ b' → b ≡ a' → same b a ≡ false → same a' b' ≡ false
same_swap {a} {b} {a'} {b'} e f h =
    subst (λ (n : SectionName). same n b' ≡ false) f
      (subst (λ (n : SectionName). same b n ≡ false) e h)

-- Two jobs with one name never run.
pub Distinct-Permᴰ : {ns ms : List SectionName} → Permᴰ ns ms → Distinct ns → Distinct ms
Distinct-Permᴰ Permᴰ.nil h = tt
Distinct-Permᴰ (Permᴰ.cons {b = b} {l₁ = l₁} e d) (h, hs) = (
  All-Permᴰ (λ m. same b m ≡ false) d
      (subst (λ (n : SectionName). All (λ m. same n m ≡ false) l₁) e h),
  Distinct-Permᴰ d hs,
)
Distinct-Permᴰ (Permᴰ.swap {a = a} {b = b} {l = l} e f) ((ab, al), (bl, h)) = (
  (
    same_swap e f (same_sym a b ab),
    subst (λ (n : SectionName). All (λ m. same n m ≡ false) l) f bl,
  ),
  (subst (λ (n : SectionName). All (λ m. same n m ≡ false) l) e al, h),
)
Distinct-Permᴰ (Permᴰ.trans d f) h = Distinct-Permᴰ f (Distinct-Permᴰ d h)

pub names-Permᴰ : {xs ys : List SectionResult} → Permᴰ xs ys → Permᴰ (names xs) (names ys)
names-Permᴰ Permᴰ.nil = Permᴰ.nil
names-Permᴰ (Permᴰ.cons e d) = Permᴰ.cons (ap (λ x. x.name) e) (names-Permᴰ d)
names-Permᴰ (Permᴰ.swap e f) = Permᴰ.swap (ap (λ x. x.name) e) (ap (λ x. x.name) f)
names-Permᴰ (Permᴰ.trans d f) = Permᴰ.trans (names-Permᴰ d) (names-Permᴰ f)

pub query_names-Permᴰ :
    {xs ys : List UpstreamQuery} → Permᴰ xs ys → Permᴰ (query_names xs) (query_names ys)
query_names-Permᴰ Permᴰ.nil = Permᴰ.nil
query_names-Permᴰ (Permᴰ.cons e d) = Permᴰ.cons (ap (λ x. x.name) e) (query_names-Permᴰ d)
query_names-Permᴰ (Permᴰ.swap e f) = Permᴰ.swap (ap (λ x. x.name) e) (ap (λ x. x.name) f)
query_names-Permᴰ (Permᴰ.trans d f) = Permᴰ.trans (query_names-Permᴰ d) (query_names-Permᴰ f)

-- A section that no later result names stays.
collect-absent :
    (n : SectionName) (results : List SectionResult) (x : SupportResponse)
    → All (λ m. same n m ≡ false) (names results)
    → section_at n (collect results x).sections ≡ section_at n x.sections
unfolding collect
collect-absent n [] x h = refl
collect-absent n (result ∷ results) x (h, hs) =
    collect-absent n results _ hs
    ∙ section_at-set_section n result.name result.section x.sections
    ∙ ap (λ b. choose b result.section (section_at n x.sections)) h

pub collect-present :
    (result : SectionResult) (results : List SectionResult) (x : SupportResponse)
    → Distinct (names results)
    → Memᴰ result results
    → section_at result.name (collect results x).sections ≡ result.section
unfolding collect
collect-present result [] x h m = elim m [ ]
collect-present result (r ∷ results) x (h, hs) (Memᴰ.head e) =
    subst (λ (q : SectionResult). section_at q.name (collect (r ∷ results) x).sections ≡ q.section)
      (sym e)
      (collect-absent r.name results _ h
        ∙ section_at-set_section r.name r.name r.section x.sections
        ∙ ap (λ b. choose b r.section (section_at r.name x.sections)) (same_refl r.name))
collect-present result (r ∷ results) x (h, hs) (Memᴰ.tail m) = collect-present result results _ hs m

collect-partial_from :
    (results : List SectionResult) (x : SupportResponse)
    → (collect results x).partial
      ≡ (x.partial || any (λ result. is_unavailable result.section.status) results)
unfolding collect
collect-partial_from [] x = ground arith
collect-partial_from (result ∷ results) x = collect-partial_from results _ ∙ ground arith

pub collect-partial :
    (results : List SectionResult) (x : SupportResponse)
    → x.partial ≡ false
    → (collect results x).partial ≡ any (λ result. is_unavailable result.section.status) results
collect-partial results x whole = collect-partial_from results x ∙ rw whole refl

pub any-Memᴰ :
    (results : List SectionResult)
    → any (λ result. is_unavailable result.section.status) results ≡ true
    → (result : SectionResult) × Memᴰ result results × (is_unavailable result.section.status ≡ true)
any-Memᴰ [] h = cc
any-Memᴰ (r ∷ results) h = elim (Bool-cases (is_unavailable r.section.status)) [
  | inl down ↦ (r, Memᴰ.head refl, down)
  | inr up ↦ let (result, m, down) = any-Memᴰ results (ground arith) in (result, Memᴰ.tail m, down)
]

pub Memᴰ-any :
    (result : SectionResult) (results : List SectionResult)
    → Memᴰ result results
    → is_unavailable result.section.status ≡ true
    → any (λ r. is_unavailable r.section.status) results ≡ true
Memᴰ-any result [] m h = elim m [ ]
Memᴰ-any result (r ∷ results) (Memᴰ.head e) h =
    rw (ap (λ (q : SectionResult). is_unavailable q.section.status) (sym e) ∙ h) refl
Memᴰ-any result (r ∷ results) (Memᴰ.tail m) h = rw (Memᴰ-any result results m h) (ground arith)
