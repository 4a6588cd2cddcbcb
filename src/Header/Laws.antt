-- ===== src/Header/Laws.antt =====
-- Laws of the header map and of the loop that copies headers.
use gateway_service.Prelude.{
  ◌≡◌, refl, sym, Bool, true, List, [], ◌∷◌, ◌++◌, arith, if◌then◌else◌, Bool-cases, append_assoc,
  append-nil, inl, inr,
}
use gateway_service.Text.{Str, eqb}
use gateway_service.Text.Laws.{eqb_iff}
use gateway_service.Header.{
  Header, canonical_header_key, values, put, set, add, add_all, copy_headers,
}

pub values-put :
    (h : Header) (key j : Str) (vs : List Str)
    → values (put h key vs) j ≡ (if eqb key j then vs else values h j)
unfolding values put
values-put [] key j vs = refl
values-put ((k, ws) ∷ h) key j vs =
    ground (arith, eqb_iff k key, eqb_iff k j, eqb_iff key j, values-put h key j vs)

pub values-set :
    (h : Header) (key j value : Str)
    → values (set h key value) j
      ≡ (if eqb (canonical_header_key key) j then value ∷ [] else values h j)
unfolding set
values-set h key j value = values-put h (canonical_header_key key) j (value ∷ [])

pub values-add :
    (h : Header) (key j value : Str)
    → values (add h key value) j
      ≡ values h j ++ (if eqb (canonical_header_key key) j then value ∷ [] else [])
unfolding add
values-add h key j value = ground (
  arith,
  values-put h (canonical_header_key key) j (values h (canonical_header_key key) ++ value ∷ []),
  eqb_iff (canonical_header_key key) j,
  append-nil (values h j),
)

pub values-add_all :
    (h : Header) (key j : Str) (vs : List Str)
    → values (add_all h key vs) j
      ≡ values h j ++ (if eqb (canonical_header_key key) j then vs else [])
unfolding add_all
values-add_all h key j [] = ground (arith, append-nil (values h j))
values-add_all h key j (v ∷ vs) = ground (
  arith,
  values-add_all (add h key v) key j vs,
  values-add h key j v,
  append_assoc (values h j) (v ∷ []) vs,
  append-nil (values h j),
)

-- What a source's entries add under a key, in order.
abbrev pub kept : (Str → Bool) → Header → Str → List Str
kept drop [] j = []
kept drop ((key, vs) ∷ src) j =
    (if drop key then [] else if eqb (canonical_header_key key) j then vs else [])
    ++ kept drop src j

pub values-copy_headers :
    (drop : Str → Bool) (dst src : Header) (j : Str)
    → values (copy_headers drop dst src) j ≡ values dst j ++ kept drop src j
unfolding copy_headers
values-copy_headers drop dst [] j = sym (append-nil (values dst j))
values-copy_headers drop dst ((key, vs) ∷ src) j = elim (Bool-cases (drop key)) [
  | inl e ↦ rw e (values-copy_headers drop dst src j)
  | inr e ↦ rw e (
      ground (
        arith,
        values-copy_headers drop (add_all dst key vs) src j,
        values-add_all dst key j vs,
        append_assoc (values dst j) (if eqb (canonical_header_key key) j then vs else [])
            (kept drop src j),
      ))
]

-- A key that the filter drops under each spelling of it gains no value.
pub kept-nil :
    (drop : Str → Bool) (src : Header) (j : Str)
    → ((key : Str) → canonical_header_key key ≡ j → drop key ≡ true)
    → kept drop src j ≡ []
kept-nil drop [] j h = refl
kept-nil drop ((key, vs) ∷ src) j h = elim (Bool-cases (drop key)) [
  | inl e ↦ rw e (kept-nil drop src j h)
  | inr e ↦ elim (Bool-cases (eqb (canonical_header_key key) j)) [
    | inl same ↦ ground (arith, h key ((eqb_iff _ _).0 same))
    | inr other ↦ rw (e, other) (kept-nil drop src j h)
  ]
]
