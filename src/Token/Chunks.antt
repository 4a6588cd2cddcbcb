-- ===== src/Token/Chunks.antt =====
-- Session cookies that a client splits into numbered chunks.
use mathlib.Core.List.{append_cancel_left}
use mathlib.Core.Path.{subst}
use gateway_service.Prelude.{
  ℕ, zero, suc, ◌+◌, ◌≤◌, ◌≡◌, refl, sym, ap, ◌∙◌, Bool, false, Option, none, some, [], ◌∷◌, ◌++◌,
  arith, length, if◌then◌else◌, Bool-cases, Option-cases, inl, inr,
}
use gateway_service.Text.{Str, lit, eqb, itoa}
use gateway_service.Text.Laws.{eqb_iff}
use gateway_service.Text.Digits.{itoa-injective}
use gateway_service.Token.{Values, lookup, chunk_name, chunks_from}

pub chunk_name-injective : (name : Str) (i j : ℕ) → chunk_name name i ≡ chunk_name name j → i ≡ j
unfolding chunk_name
chunk_name-injective name i j e =
    itoa-injective i j
      (append_cancel_left (lit ".") (itoa i) (itoa j) (append_cancel_left name _ _ e))

-- The chunks from an index on up to the first that is missing, one behind the other.
pub data IsChunked (values : Values) (name : Str) : ℕ → Str → Type 0 where
  ended : {i : ℕ} → lookup values (chunk_name name i) ≡ none → IsChunked values name i []
  chunk :
      {i : ℕ} (part rest : Str)
      → lookup values (chunk_name name i) ≡ some part
      → IsChunked values name (i + 1) rest
      → IsChunked values name i (part ++ rest)

-- The map without the first entry under a key.
erase : Values → Str → Values
erase [] key = []
erase ((k, v) ∷ values) key = if eqb k key then values else (k, v) ∷ erase values key

length-erase :
    (values : Values) (key value : Str)
    → lookup values key ≡ some value
    → length (erase values key) + 1 ≡ length values
unfolding lookup erase
length-erase [] key value h = cc
length-erase ((k, v) ∷ values) key value h = elim (Bool-cases (eqb k key)) [
  | inl same ↦ rw same (omega arith)
  | inr other ↦ let more = length-erase values key value (ground arith) in rw other (omega arith)
]

lookup-erase :
    (values : Values) (key other : Str)
    → eqb key other ≡ false
    → lookup (erase values key) other ≡ lookup values other
unfolding lookup erase
lookup-erase [] key other h = refl
lookup-erase ((k, v) ∷ values) key other h = elim (Bool-cases (eqb k key)) [
  | inl same ↦
      let is_key = (eqb_iff k key).0 same in
      rw same (
        sym (
          ap (λ (b : Bool). if b then some v else lookup values other)
            (ap (λ (n : Str). eqb n other) is_key ∙ h)))
  | inr differs ↦
      rw differs (
        ap (λ (o : Option Str). if eqb k other then some v else o)
          (lookup-erase values key other h))
]

chunks_from_missing :
    (fuel : ℕ) (values : Values) (name : Str) (i : ℕ)
    → lookup values (chunk_name name i) ≡ none
    → chunks_from (suc fuel) values name i ≡ []
unfolding chunks_from chunk_name
chunks_from_missing fuel values name i h = rw (h, chunks_from) refl

chunks_from_found :
    (fuel : ℕ) (values : Values) (name : Str) (i : ℕ) (part : Str)
    → lookup values (chunk_name name i) ≡ some part
    → chunks_from (suc fuel) values name i ≡ part ++ chunks_from fuel values name (i + 1)
unfolding chunks_from chunk_name
chunks_from_found fuel values name i part h = rw (h, chunks_from) refl

module _ (name : Str) where
  -- Two maps that agree on the chunks from an index on.
  abbrev Agree : ℕ → Values → Values → Type 0
  Agree i a b = (j : ℕ) → i ≤ j → lookup a (chunk_name name j) ≡ lookup b (chunk_name name j)

  chunks_from-Agree :
      (fuel i : ℕ) (a b : Values)
      → Agree i a b
      → chunks_from fuel a name i ≡ chunks_from fuel b name i
  unfolding chunks_from
  chunks_from-Agree zero i a b agree = refl
  chunks_from-Agree (suc fuel) i a b agree = elim (Option-cases (lookup b (chunk_name name i))) [
    | inl missing ↦
        chunks_from_missing fuel a name i (agree i (omega arith) ∙ missing)
        ∙ sym (chunks_from_missing fuel b name i missing)
    | inr (part, found) ↦
        chunks_from_found fuel a name i part (agree i (omega arith) ∙ found)
        ∙ ap (λ (s : Str). part ++ s)
            (chunks_from-Agree fuel (i + 1) a b (λ j h. agree j (omega arith)))
        ∙ sym (chunks_from_found fuel b name i part found)
  ]

  IsChunked-Agree :
      (a b : Values) (i : ℕ) (out : Str)
      → Agree i a b
      → IsChunked a name i out
      → IsChunked b name i out
  IsChunked-Agree a b i out agree (ended h) = ended (sym (agree i (omega arith)) ∙ h)
  IsChunked-Agree a b i out agree (chunk part rest h more) =
      chunk part rest (sym (agree i (omega arith)) ∙ h)
        (IsChunked-Agree a b (i + 1) rest (λ j le. agree j (omega arith)) more)

  erase-Agree : (i : ℕ) (values : Values) → Agree (i + 1) (erase values (chunk_name name i)) values
  erase-Agree i values j h =
      lookup-erase values (chunk_name name i) (chunk_name name j)
        (elim (Bool-cases (eqb (chunk_name name i) (chunk_name name j))) [
          | inl same ↦
              let e = chunk_name-injective name i j ((eqb_iff _ _).0 same) in absurd (omega arith)
          | inr other ↦ other
        ])

  -- A fuel of as many steps as the map has entries lets the loop end at a missing chunk.
  pub chunks_from-IsChunked :
      (fuel i : ℕ) (values : Values)
      → length values ≤ fuel
      → IsChunked values name i (chunks_from fuel values name i)
  unfolding chunks_from lookup
  chunks_from-IsChunked zero i [] h = ended refl
  chunks_from-IsChunked zero i (entry ∷ values) h = absurd (omega arith)
  chunks_from-IsChunked (suc fuel) i values h =
      elim (Option-cases (lookup values (chunk_name name i))) [
        | inl missing ↦
            subst (IsChunked values name i) (sym (chunks_from_missing fuel values name i missing))
              (ended missing)
        | inr (part, found) ↦
            let less = length-erase values (chunk_name name i) part found in
            let left = erase values (chunk_name name i) in
            let agree = erase-Agree i values in
            let rest =
              IsChunked-Agree left values (i + 1) _ agree
                (chunks_from-IsChunked fuel (i + 1) left (omega arith)) in
            subst (IsChunked values name i) (sym (chunks_from_found fuel values name i part found))
              (chunk part _ found (
                subst (IsChunked values name (i + 1))
                  (chunks_from-Agree fuel (i + 1) left values agree) rest))
      ]
