-- ===== src/Json/Shaped.antt =====
-- What json.Marshal writes of a value of a type.
use gateway_service.Prelude.{
  ◌≡◌, refl, Bool, true, false, none, some, List, [], ◌∷◌, map, Bool-cases, inl, inr, ◌⊎◌,
}
use gateway_service.Text.{Str}
use gateway_service.Json.{
  Json, null, boolean, number, text, array, object, Items, nil, cons, Members, close, member, Shape,
  Fields, Meaning, Meanings, is_blank, number_of, items_of, encode, encode_fields,
}

-- Each element of an array.
abbrev pub Each : (Json → Type 0) → Items → Type 0
Each P nil = Unit
Each P (cons j js) = P j × Each P js

-- A JSON value of a type: the members of an object are the declared fields, in their order, each with a
-- value of its type; none is missing but those that may be omitted, and there is no other.
abbrev mutual
  pub IsShaped : Shape → Json → Type 0
  IsShaped Shape.string j = (t : Str) × (j ≡ text t)
  IsShaped Shape.integer j = (n : Str) × (j ≡ number n)
  IsShaped Shape.boolean j = (b : Bool) × (j ≡ boolean b)
  IsShaped Shape.raw j = Unit
  IsShaped (Shape.pointer s) j = (j ≡ null) ⊎ IsShaped s j
  IsShaped (Shape.slice s) j = (j ≡ null) ⊎ ((js : Items) × (j ≡ array js) × Each (IsShaped s) js)
  IsShaped (Shape.struct fs) j = (ms : Members) × (j ≡ object ms) × HasFields fs ms

  pub HasFields : Fields → Members → Type 0
  HasFields Fields.end ms = ms ≡ close
  HasFields (Fields.field name omitempty s fs) ms =
      ((j : Json) × (rest : Members) × (ms ≡ member name j rest) × IsShaped s j × HasFields fs rest)
      ⊎ ((omitempty ≡ true) × HasFields fs ms)

Each-items_of :
    {A : Type 0} (P : Json → Type 0) (f : A → Json) (xs : List A)
    → ((a : A) → P (f a))
    → Each P (items_of (map f xs))
unfolding items_of
Each-items_of P f [] h = tt
Each-items_of P f (x ∷ xs) h = (h x, Each-items_of P f xs h)

module _ (quote : Str → Str) where
  field-HasFields :
      (name : Str) (omitempty : Bool) (s : Shape) (fs : Fields) (v : Meaning s) (vs : Meanings fs)
      → IsShaped s (encode quote s v)
      → HasFields fs (encode_fields quote fs vs)
      → HasFields
          (Fields.field name omitempty s fs)
          (encode_fields quote (Fields.field name omitempty s fs) (v, vs))
  unfolding encode
  field-HasFields name false s fs v vs h hs =
      inl (encode quote s v, encode_fields quote fs vs, refl, h, hs)
  field-HasFields name true s fs v vs h hs = elim (Bool-cases (is_blank s v)) [
    | inl blank ↦ rw blank (inr (refl, hs))
    | inr full ↦ rw full (inl (encode quote s v, encode_fields quote fs vs, refl, h, hs))
  ]

  mutual
    unfolding encode

    encode-IsShaped_at : (s : Shape) (v : Meaning s) → IsShaped s (encode quote s v)
    encode-IsShaped_at Shape.string v = (quote v, refl)
    encode-IsShaped_at Shape.integer v = (number_of v, refl)
    encode-IsShaped_at Shape.boolean v = (v, refl)
    encode-IsShaped_at Shape.raw v = tt
    encode-IsShaped_at (Shape.pointer s) none = inl refl
    encode-IsShaped_at (Shape.pointer s) (some v) = inr (encode-IsShaped_at s v)
    encode-IsShaped_at (Shape.slice s) none = inl refl
    encode-IsShaped_at (Shape.slice s) (some v) =
        inr (_, refl, Each-items_of (IsShaped s) (encode quote s) v.elements (encode-IsShaped_at s))
    encode-IsShaped_at (Shape.struct fs) v = (_, refl, encode_fields-HasFields fs v)

    encode_fields-HasFields :
        (fs : Fields) (v : Meanings fs) → HasFields fs (encode_fields quote fs v)
    encode_fields-HasFields Fields.end v = refl
    encode_fields-HasFields (Fields.field name omitempty s fs) (v, vs) =
        field-HasFields name omitempty s fs v vs (encode-IsShaped_at s v)
          (encode_fields-HasFields fs vs)

  -- What is written of a value has its type.
  pub encode-IsShaped : (s : Shape) (v : Meaning s) → IsShaped s (encode quote s v)
  encode-IsShaped s v = encode-IsShaped_at s v
