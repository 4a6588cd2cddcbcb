-- ===== src/Token/Sessions.antt =====
-- Sessions as Supabase's clients store them, in one cookie or in numbered chunks.
use gateway_service.Prelude.{
  ℕ, ◌+◌, ◌≤◌, ◌<◌, ◌≡◌, refl, sym, ap, ◌∙◌, false, Option, none, some, List, [], ◌∷◌, ◌++◌, arith,
  length, length-append, if◌then◌else◌, Bool-cases, inl, inr, ◌≢◌, is_empty, not, ◌⊎◌,
}
use gateway_service.Text.{Str, lit, eqb, itoa}
use gateway_service.Text.Laws.{eqb_iff, eqb_refl}
use gateway_service.Token.{
  Values, lookup, insert, cookie_values, chunk_name, chunks_from, combine_cookie_chunks,
  value_or_empty,
}
use gateway_service.Token.Chunks.{
  IsChunked, ended, chunk, chunk_name-injective, chunks_from-IsChunked,
}

-- What the cookies of a name hold: the cookie itself unless it is missing or empty, and else its chunks
-- up to the first that is missing.
pub IsCombined : Values → Str → Str → Type 0
IsCombined values name out =
    ((lookup values name ≡ some out) × (is_empty out ≡ false))
    ⊎ ((value_or_empty (lookup values name) ≡ []) × IsChunked values name 0 out)

lookup-IsCombined :
    (values : Values) (name : Str) (o : Option Str)
    → lookup values name ≡ o
    → IsCombined values name (
        if not (is_empty (value_or_empty o))
        then value_or_empty o
        else chunks_from (length values) values name 0)
unfolding IsCombined
lookup-IsCombined values name none h =
    inr (ap value_or_empty h, chunks_from-IsChunked name (length values) 0 values (omega arith))
lookup-IsCombined values name (some []) h =
    inr (ap value_or_empty h, chunks_from-IsChunked name (length values) 0 values (omega arith))
lookup-IsCombined values name (some (c ∷ s)) h = inl (h, refl)

-- The loop over the chunks ends for every map of cookies, however many chunks it holds, and the text is
-- the cookie's own where it has one, or else all its chunks from the first on up to one that is missing.
pub combine_cookie_chunks-IsCombined :
    (values : Values) (name : Str) → IsCombined values name (combine_cookie_chunks values name)
unfolding combine_cookie_chunks
combine_cookie_chunks-IsCombined values name =
    lookup-IsCombined values name (lookup values name) refl

IsChunked-unique :
    (values : Values) (name : Str) (i : ℕ) (a b : Str)
    → IsChunked values name i a
    → IsChunked values name i b
    → a ≡ b
IsChunked-unique values name i a b (ended h) (ended k) = refl
IsChunked-unique values name i a b (ended h) (chunk part rest k more) = cc
IsChunked-unique values name i a b (chunk part rest h more) (ended k) = cc
IsChunked-unique values name i a b (chunk part rest h more) (chunk part' rest' k more') =
    let same = IsChunked-unique values name (i + 1) rest rest' more more' in cc

lookup-insert :
    (values : Values) (key value : Str) → lookup (insert values key value) key ≡ some value
unfolding lookup insert
lookup-insert [] key value = rw (eqb_refl key) refl
lookup-insert ((k, v) ∷ values) key value = elim (Bool-cases (eqb k key)) [
  | inl same ↦ rw (same, same) refl
  | inr other ↦ rw (other, other) (lookup-insert values key value)
]

eqb-false : (s t : Str) → s ≢ t → eqb s t ≡ false
eqb-false s t differs = elim (Bool-cases (eqb s t)) [
  | inl same ↦ absurd (differs ((eqb_iff s t).0 same))
  | inr other ↦ other
]

lookup-insert_other :
    (values : Values) (key value other : Str)
    → key ≢ other
    → lookup (insert values key value) other ≡ lookup values other
unfolding lookup insert
lookup-insert_other [] key value other differs = rw (eqb-false key other differs) refl
lookup-insert_other ((k, v) ∷ values) key value other differs = elim (Bool-cases (eqb k key)) [
  | inl same ↦
      let k_differs = eqb-false k other (λ e. differs (sym ((eqb_iff k key).0 same) ∙ e)) in
      rw (same, k_differs) refl
  | inr new ↦ rw new (
      ap (λ (o : Option Str). if eqb k other then some v else o)
        (lookup-insert_other values key value other differs))
]

-- The cookies of a session in chunks, from an index on.
pub chunk_cookies : Str → ℕ → List Str → List (Option (Str × Str))
chunk_cookies name i [] = []
chunk_cookies name i (part ∷ parts) =
    some (chunk_name name i, part) ∷ chunk_cookies name (i + 1) parts

pub joined : List Str → Str
joined [] = []
joined (part ∷ parts) = part ++ joined parts

module _ (name : Str) where
  -- Later chunks leave what is stored under another name.
  cookie_values-other :
      (parts : List Str) (i : ℕ) (values : Values) (other : Str)
      → ((j : ℕ) → i ≤ j → chunk_name name j ≢ other)
      → lookup (cookie_values (chunk_cookies name i parts) values) other ≡ lookup values other
  unfolding cookie_values chunk_cookies
  cookie_values-other [] i values other differs = refl
  cookie_values-other (part ∷ parts) i values other differs =
      cookie_values-other parts (i + 1) _ other (λ j h. differs j (omega arith))
      ∙ lookup-insert_other values (chunk_name name i) part other (differs i (omega arith))

  chunk_name-differs : (i j : ℕ) → i < j → chunk_name name j ≢ chunk_name name i
  chunk_name-differs i j h e = let same = chunk_name-injective name j i e in omega arith

  chunk_name-longer : (j : ℕ) → chunk_name name j ≢ name
  unfolding chunk_name
  chunk_name-longer j e =
      let longer = ap (length {A = ℕ}) e in
      let split = length-append name (lit "." ++ itoa j) in omega arith

  chunk_cookies-IsChunked :
      (parts : List Str) (i : ℕ) (values : Values)
      → lookup values (chunk_name name (i + length parts)) ≡ none
      → IsChunked (cookie_values (chunk_cookies name i parts) values) name i (joined parts)
  unfolding cookie_values chunk_cookies joined
  chunk_cookies-IsChunked [] i values h =
      ended (ap (λ (j : ℕ). lookup values (chunk_name name j)) (omega arith) ∙ h)
  chunk_cookies-IsChunked (part ∷ parts) i values h =
      chunk part (joined parts)
        (cookie_values-other parts (i + 1) _ (chunk_name name i)
            (λ j le. chunk_name-differs i j (omega arith))
          ∙ lookup-insert values (chunk_name name i) part)
        (chunk_cookies-IsChunked parts (i + 1) (insert values (chunk_name name i) part) (
          lookup-insert_other values (chunk_name name i) part _
            (λ e. chunk_name-differs i (i + 1 + length parts) (omega arith) (sym e))
          ∙ ap (λ (j : ℕ). lookup values (chunk_name name j)) (omega arith)
          ∙ h))

-- A session that a client stores in chunks is read back whole, whatever the parts and the cookies
-- before them, which may be older chunks of the name, as long as those hold nothing under the name
-- itself and no chunk right behind the last part.
pub combine_cookie_chunks-joined :
    (name : Str) (parts : List Str) (values : Values)
    → value_or_empty (lookup values name) ≡ []
    → lookup values (chunk_name name (length parts)) ≡ none
    → combine_cookie_chunks (cookie_values (chunk_cookies name 0 parts) values) name ≡ joined parts
unfolding IsCombined
combine_cookie_chunks-joined name parts values absent next =
    read (combine_cookie_chunks-IsCombined stored name)
  where
    stored : Values
    stored = cookie_values (chunk_cookies name 0 parts) values

    kept : lookup stored name ≡ lookup values name
    kept = cookie_values-other name parts 0 values name (λ j h. chunk_name-longer name j)

    read : {out : Str} → IsCombined stored name out → out ≡ joined parts
    read {out} (inl (h, full)) = let blank = sym absent ∙ ap value_or_empty (sym kept ∙ h) in cc
    read (inr (h, chunked)) = IsChunked-unique stored name 0 _ _ chunked (
        chunk_cookies-IsChunked name parts 0 values
          (ap (λ (j : ℕ). lookup values (chunk_name name j)) (omega arith) ∙ next))
