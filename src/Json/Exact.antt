-- ===== src/Json/Exact.antt =====
-- Values that json.Unmarshal and json.Marshal leave as they are.
use gateway_service.Prelude.{
  ◌≡◌, refl, ap, ◌∙◌, Bool, true, false, not, ◌&&◌, Option, none, some, List, [], ◌∷◌, map, any,
  inl, inr, ◌⊎◌, ℤ, ◌>>=◌, arith,
}
use gateway_service.Text.{Str, eqb, parse_int}
use gateway_service.Json.{
  Json, null, boolean, number, text, array, object, Items, nil, cons, Members, close, member, Shape,
  Fields, Meaning, Meanings, zero_value, zero_values, is_blank, number_of, items_of, encode,
  encode_fields, names, allocated, update, sliced, decode_array, decode_object, decode_null,
  decode_boolean, decode_number, decode_text, first_slot, decode, decode_items, decode_members,
}
use gateway_service.Text.Laws.{eqb_refl}
use gateway_service.Json.Shaped.{Each}
use gateway_service.Json.Keys.{Known, update-here, decode_members-skip}

-- No struct of a type declares a name twice.
abbrev mutual
  pub distinct_names : Shape → Bool
  distinct_names (Shape.pointer s) = distinct_names s
  distinct_names (Shape.slice s) = distinct_names s
  distinct_names (Shape.struct fs) = distinct_fields fs
  distinct_names _ = true

  pub distinct_fields : Fields → Bool
  distinct_fields Fields.end = true
  distinct_fields (Fields.field name omitempty s fs) =
      not (any (λ n. eqb n name) (names fs)) && (distinct_names s && distinct_fields fs)

module _ (unquote quote : Str → Str) where
  -- A value of exactly a type's form: its texts and its numbers are written as the package writes them,
  -- its objects have the declared fields in their order, and of these only blank ones that are
  -- `omitempty` are missing, and all of them are.
  abbrev mutual
    pub IsExact : Shape → Json → Type 0
    IsExact Shape.string j = (t : Str) × (j ≡ text t) × (quote (unquote t) ≡ t)
    IsExact Shape.integer j =
        (z : ℤ) × (j ≡ number (number_of z)) × (parse_int (number_of z) ≡ some z)
    IsExact Shape.boolean j = (b : Bool) × (j ≡ boolean b)
    IsExact Shape.raw j = Unit
    IsExact (Shape.pointer s) j = (j ≡ null) ⊎ IsExact s j
    IsExact (Shape.slice s) j = (j ≡ null) ⊎ ((js : Items) × (j ≡ array js) × Each (IsExact s) js)
    IsExact (Shape.struct fs) j = (ms : Members) × (j ≡ object ms) × HasExactly fs ms

    pub HasExactly : Fields → Members → Type 0
    HasExactly Fields.end ms = ms ≡ close
    HasExactly (Fields.field name omitempty s fs) ms =
        ((j : Json) × (rest : Members) × (ms ≡ member name j rest)
          × (unquote name ≡ name)
          × IsExact s j
          × ((v : Meaning s)
              → decode unquote j s (zero_value s) ≡ some v
              → (omitempty && is_blank s v) ≡ false)
          × HasExactly fs rest)
        ⊎ ((omitempty ≡ true) × (is_blank s (zero_value s) ≡ true) × HasExactly fs ms)

  -- What a value of a type is read as, and written back as.
  abbrev IsKept : (s : Shape) → Json → Type 0
  IsKept s j =
      (v : Meaning s) × (decode unquote j s (zero_value s) ≡ some v) × (encode quote s v ≡ j)

  abbrev AreKept : (s : Shape) → Items → Type 0
  AreKept s js =
      (vs : List (Meaning s)) × (decode_items unquote js s []
        ≡ some (record { elements = vs; spare = [] }))
      × (items_of (map (encode quote s) vs) ≡ js)

  abbrev HasKept : (fs : Fields) → Members → Type 0
  HasKept fs ms =
      (v : Meanings fs) × (decode_members unquote ms fs (zero_values fs) ≡ some v)
      × (encode_fields quote fs v ≡ ms)
      × Known unquote fs ms

  pointer-IsKept : (s : Shape) (j : Json) → IsKept s j → IsKept (Shape.pointer s) j
  unfolding decode encode decode_null decode_boolean decode_number decode_text decode_array
      decode_object
  pointer-IsKept s null h = (none, refl, refl)
  pointer-IsKept s (boolean b) (v, d, e) = (some v, ap allocated d, e)
  pointer-IsKept s (number n) (v, d, e) = (some v, ap allocated d, e)
  pointer-IsKept s (text t) (v, d, e) = (some v, ap allocated d, e)
  pointer-IsKept s (array js) (v, d, e) = (some v, ap allocated d, e)
  pointer-IsKept s (object ms) (v, d, e) = (some v, ap allocated d, e)

  null-IsKept : (s : Shape) → IsKept (Shape.pointer s) null × IsKept (Shape.slice s) null
  unfolding decode encode decode_null
  null-IsKept s = ((none, refl, refl), (none, refl, refl))

  Each-AreKept :
      (s : Shape) (js : Items)
      → ((j : Json) → IsExact s j → IsKept s j)
      → Each (IsExact s) js
      → AreKept s js
  unfolding decode first_slot items_of
  Each-AreKept s nil go h = ([], refl, refl)
  Each-AreKept s (cons j js) go (h, hs) =
      let (v, d, e) = go j h in
      let (vs, ds, es) = Each-AreKept s js go hs in (v ∷ vs, rw (d, ds) refl, rw (e, es) refl)

  slice-IsKept : (s : Shape) (js : Items) → AreKept s js → IsKept (Shape.slice s) (array js)
  unfolding decode decode_array sliced encode items_of
  slice-IsKept s nil (vs, d, e) = (some (record { elements = []; spare = [] }), refl, refl)
  slice-IsKept s (cons j js) (vs, d, e) =
      (some (record { elements = vs; spare = [] }), ap allocated d, ap array e)

  Known-field :
      (name : Str) (omitempty : Bool) (s : Shape) (fs : Fields) (ms : Members)
      → Known unquote fs ms
      → Known unquote (Fields.field name omitempty s fs) ms
  Known-field name omitempty s fs close h = tt
  Known-field name omitempty s fs (member key j ms) (h, hs) =
      (ground (arith, h), Known-field name omitempty s fs ms hs)

  stored :
      (name : Str) (omitempty : Bool) (s : Shape) (fs : Fields) (j : Json) (v : Meaning s)
      → unquote name ≡ name
      → decode unquote j s (zero_value s) ≡ some v
      → update
          (Fields.field name omitempty s fs)
          (unquote name)
          (decode unquote j)
          (zero_value s, zero_values fs)
        ≡ some (v, zero_values fs)
  stored name omitempty s fs j v plain d =
      ap
        (λ (key : Str).
          update (Fields.field name omitempty s fs) key (decode unquote j)
            (zero_value s, zero_values fs))
        plain
      ∙ update-here unquote name omitempty s fs (decode unquote j) (zero_value s) (zero_values fs)
      ∙ rw d refl

  present-HasKept :
      (name : Str) (omitempty : Bool) (s : Shape) (fs : Fields) (j : Json) (rest : Members)
      → any (λ n. eqb n name) (names fs) ≡ false
      → unquote name ≡ name
      → ((v : Meaning s)
          → decode unquote j s (zero_value s) ≡ some v
          → (omitempty && is_blank s v) ≡ false)
      → IsKept s j
      → HasKept fs rest
      → HasKept (Fields.field name omitempty s fs) (member name j rest)
  unfolding decode encode
  present-HasKept name omitempty s fs j rest fresh plain full (v, d, e) (vs, ds, es, known) = (
    (v, vs),
    ap
          (λ (o : Option (Meaning s × Meanings fs)).
            o >>= λ u. decode_members unquote rest (Fields.field name omitempty s fs) u)
          (stored name omitempty s fs j v plain d)
        ∙ decode_members-skip unquote name omitempty s fs rest v (zero_values fs) fresh known
        ∙ rw ds refl,
    rw (full v d, e, es) refl,
    (rw (plain, eqb_refl name) refl, Known-field name omitempty s fs rest known),
  )

  absent-HasKept :
      (name : Str) (omitempty : Bool) (s : Shape) (fs : Fields) (ms : Members)
      → any (λ n. eqb n name) (names fs) ≡ false
      → omitempty ≡ true
      → is_blank s (zero_value s) ≡ true
      → HasKept fs ms
      → HasKept (Fields.field name omitempty s fs) ms
  unfolding encode
  absent-HasKept name omitempty s fs ms fresh may blank (vs, ds, es, known) = (
    (zero_value s, vs),
    decode_members-skip unquote name omitempty s fs ms (zero_value s) (zero_values fs) fresh known
        ∙ rw ds refl,
    rw (may, blank) es,
    Known-field name omitempty s fs ms known,
  )

  raw-IsKept : (j : Json) → IsKept Shape.raw j
  unfolding decode encode decode_null decode_boolean decode_number decode_text decode_array
      decode_object
  raw-IsKept null = (some null, refl, refl)
  raw-IsKept (boolean b) = (some (boolean b), refl, refl)
  raw-IsKept (number n) = (some (number n), refl, refl)
  raw-IsKept (text t) = (some (text t), refl, refl)
  raw-IsKept (array js) = (some (array js), refl, refl)
  raw-IsKept (object ms) = (some (object ms), refl, refl)

  distinct-parts :
      (a b c : Bool) → (not a && (b && c)) ≡ true → (a ≡ false) × (b ≡ true) × (c ≡ true)
  distinct-parts a b c d = ground arith

  mutual
    unfolding decode encode decode_object decode_boolean decode_number decode_text

    IsExact-IsKept : (s : Shape) (j : Json) → distinct_names s ≡ true → IsExact s j → IsKept s j
    IsExact-IsKept Shape.string j d (t, e, same) = rw e (unquote t, refl, ap text same)
    IsExact-IsKept Shape.integer j d (z, e, same) = rw e (z, same, refl)
    IsExact-IsKept Shape.boolean j d (b, e) = rw e (b, refl, refl)
    IsExact-IsKept Shape.raw j d h = raw-IsKept j
    IsExact-IsKept (Shape.pointer s) j d (inl e) = rw e (null-IsKept s).0
    IsExact-IsKept (Shape.pointer s) j d (inr h) = pointer-IsKept s j (IsExact-IsKept s j d h)
    IsExact-IsKept (Shape.slice s) j d (inl e) = rw e (null-IsKept s).1
    IsExact-IsKept (Shape.slice s) j d (inr (js, e, h)) =
        rw e (slice-IsKept s js (Each-AreKept s js (λ k kept. IsExact-IsKept s k d kept) h))
    IsExact-IsKept (Shape.struct fs) j d (ms, e, h) =
        let (v, dv, ev, known) = HasExactly-HasKept fs ms d h in rw e (v, dv, ap object ev)

    HasExactly-HasKept :
        (fs : Fields) (ms : Members) → distinct_fields fs ≡ true → HasExactly fs ms → HasKept fs ms
    HasExactly-HasKept Fields.end ms d e = rw e (tt, refl, refl, tt)
    HasExactly-HasKept (Fields.field name omitempty s fs) ms d
          (inl (j, rest, e, plain, h, full, hs)) =
        let (fresh, here, behind) = distinct-parts _ (distinct_names s) (distinct_fields fs) d in
        rw e (
          present-HasKept name omitempty s fs j rest fresh plain full (IsExact-IsKept s j here h)
            (HasExactly-HasKept fs rest behind hs))
    HasExactly-HasKept (Fields.field name omitempty s fs) ms d (inr (may, blank, hs)) =
        let (fresh, here, behind) = distinct-parts _ (distinct_names s) (distinct_fields fs) d in
        absent-HasKept name omitempty s fs ms fresh may blank (HasExactly-HasKept fs ms behind hs)

  -- A value of exactly a type's form is written as it was read.
  pub encode-decode :
      (s : Shape) (j : Json)
      → distinct_names s ≡ true
      → IsExact s j
      → (v : Meaning s) × (decode unquote j s (zero_value s) ≡ some v) × (encode quote s v ≡ j)
  encode-decode s j d h = IsExact-IsKept s j d h
