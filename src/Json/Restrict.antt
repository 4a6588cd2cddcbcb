-- ===== src/Json/Restrict.antt =====
-- What of an answer its reader sees.
use gateway_service.Prelude.{
  ◌≡◌, refl, sym, ap, ◌∙◌, Bool, Option, none, some, List, ◌∷◌, if◌then◌else◌, Bool-cases, inl, inr,
  ◌⊎◌, ◌>>=◌,
}
use gateway_service.Text.{Str}
use gateway_service.Json.{
  Json, null, boolean, number, text, array, object, Items, nil, cons, Members, close, member, Shape,
  Fields, Slots, Meaning, Meanings, or_zero, slots_of, allocated, Reader, sliced, decode_array,
  decode_object, update_where, field_test, update, first_slot, later_slots, decode, decode_items,
  decode_members,
}

-- A member whose key passes a test of a field's name, with its value cut to the field's type.
unfoldable pub keep_where : (Str → Bool) → Fields → Str → (Shape → Json) → Members → Members
keep_where test Fields.end key cut rest = rest
keep_where test (Fields.field name omitempty s fs) key cut rest =
    let behind = keep_where test fs key cut rest in
    if test name then member key (cut s) rest else behind

-- The type that a value is read into behind pointers.
abbrev items_for : Shape → (Shape → Items) → Json → Json
items_for (Shape.slice s) cut j = array (cut s)
items_for (Shape.pointer s) cut j = items_for s cut j
items_for _ cut j = j

abbrev members_for : Shape → (Fields → Members) → Json → Json
members_for (Shape.struct fs) cut j = object (cut fs)
members_for (Shape.pointer s) cut j = members_for s cut j
members_for _ cut j = j

bind-same :
    {A B : Type 0} (o : Option A) (f g : A → Option B)
    → ((a : A) → f a ≡ g a)
    → (o >>= f) ≡ (o >>= g)
bind-same none f g same = refl
bind-same (some a) f g same = same a

module _ (unquote : Str → Str) where
  -- A value without the members that a type declares no field for, at any depth.
  unfoldable mutual
    unfolding keep_where

    pub restrict : Json → Shape → Json
    restrict null s = null
    restrict (boolean b) s = boolean b
    restrict (number n) s = number n
    restrict (text t) s = text t
    restrict (array js) s = items_for s (restrict_items js) (array js)
    restrict (object ms) s = members_for s (restrict_members ms) (object ms)

    restrict_items : Items → Shape → Items
    restrict_items nil s = nil
    restrict_items (cons j js) s = cons (restrict j s) (restrict_items js s)

    restrict_members : Members → Fields → Members
    restrict_members close fs = close
    restrict_members (member key j ms) fs =
        keep_where (field_test fs (unquote key)) fs key (restrict j) (restrict_members ms fs)

  -- Readers that agree on the field that is read agree on the struct.
  keep_where-cases :
      (test : Str → Bool) (fs : Fields) (key : Str) (cut : Shape → Json) (rest : Members)
      (f : Reader)
      → ((keep_where test fs key cut rest ≡ rest)
          × ((v : Meanings fs) → update_where test fs f v ≡ some v))
        ⊎ ((s : Shape) × (keep_where test fs key cut rest ≡ member key (cut s) rest)
            × ((g : Reader)
                → ((u : Meaning s) → f s u ≡ g s u)
                → (v : Meanings fs) → update_where test fs f v ≡ update_where test fs g v))
  unfolding keep_where update_where
  keep_where-cases test Fields.end key cut rest f = inl (refl, λ v. refl)
  keep_where-cases test (Fields.field name omitempty s fs) key cut rest f =
      elim (Bool-cases (test name)) [
        | inl here ↦ inr (s, rw here refl, λ g same v. rw (here, same v.0) refl)
        | inr behind ↦ elim (keep_where-cases test fs key cut rest f) [
          | inl (gone, unread) ↦ inl (rw behind gone, λ v. rw (behind, unread v.1) refl)
          | inr (t, kept, agree) ↦
              inr (t, rw behind kept, λ g same v. rw (behind, agree g same v.1) refl)
        ]
      ]

  items_for-array :
      (s : Shape) (cut : Shape → Items) (js : Items)
      → (ks : Items) × (items_for s cut (array js) ≡ array ks)
  items_for-array (Shape.slice s) cut js = (cut s, refl)
  items_for-array (Shape.pointer s) cut js = items_for-array s cut js
  items_for-array Shape.string cut js = (js, refl)
  items_for-array Shape.integer cut js = (js, refl)
  items_for-array Shape.boolean cut js = (js, refl)
  items_for-array Shape.raw cut js = (js, refl)
  items_for-array (Shape.struct fs) cut js = (js, refl)

  members_for-object :
      (s : Shape) (cut : Fields → Members) (ms : Members)
      → (ns : Members) × (members_for s cut (object ms) ≡ object ns)
  members_for-object (Shape.struct fs) cut ms = (cut fs, refl)
  members_for-object (Shape.pointer s) cut ms = members_for-object s cut ms
  members_for-object Shape.string cut ms = (ms, refl)
  members_for-object Shape.integer cut ms = (ms, refl)
  members_for-object Shape.boolean cut ms = (ms, refl)
  members_for-object Shape.raw cut ms = (ms, refl)
  members_for-object (Shape.slice s) cut ms = (ms, refl)

  -- An array or an object is read through a pointer.
  decode_array-pointer :
      (j : Json) (js : Items) (s : Shape) (v : Option (Meaning s))
      → j ≡ array js
      → decode unquote j (Shape.pointer s) v ≡ allocated (decode unquote j s (or_zero s v))
  unfolding decode decode_array
  decode_array-pointer j js s v e = rw e refl

  decode_object-pointer :
      (j : Json) (ms : Members) (s : Shape) (v : Option (Meaning s))
      → j ≡ object ms
      → decode unquote j (Shape.pointer s) v ≡ allocated (decode unquote j s (or_zero s v))
  unfolding decode decode_object
  decode_object-pointer j ms s v e = rw e refl

  sliced-restrict :
      {A : Type 0} (js : Items) (s : Shape) (o : Option (Slots A))
      → sliced (restrict_items js s) o ≡ sliced js o
  unfolding sliced restrict
  sliced-restrict nil s o = refl
  sliced-restrict (cons j js) s o = refl

  array-restrict :
      (js : Items) (s : Shape) (v : Meaning s)
      → ((s : Shape) (slots : List (Meaning s))
          → decode_items unquote (restrict_items js s) s slots ≡ decode_items unquote js s slots)
      → decode unquote (items_for s (restrict_items js) (array js)) s v
        ≡ decode_array js (decode_items unquote js) s v
  unfolding decode decode_array
  array-restrict js (Shape.slice s) v same =
      sliced-restrict js s _ ∙ ap (sliced js) (same s (slots_of v))
  array-restrict js (Shape.pointer s) v same =
      let (ks, e) = items_for-array s (restrict_items js) js in
      decode_array-pointer _ ks s v e ∙ ap allocated (array-restrict js s (or_zero s v) same)
  array-restrict js Shape.string v same = refl
  array-restrict js Shape.integer v same = refl
  array-restrict js Shape.boolean v same = refl
  array-restrict js Shape.raw v same = refl
  array-restrict js (Shape.struct fs) v same = refl

  object-restrict :
      (ms : Members) (s : Shape) (v : Meaning s)
      → ((fs : Fields) (v : Meanings fs)
          → decode_members unquote (restrict_members ms fs) fs v ≡ decode_members unquote ms fs v)
      → decode unquote (members_for s (restrict_members ms) (object ms)) s v
        ≡ decode_object ms (decode_members unquote ms) s v
  unfolding decode decode_object
  object-restrict ms (Shape.struct fs) v same = same fs v
  object-restrict ms (Shape.pointer s) v same =
      let (ns, e) = members_for-object s (restrict_members ms) ms in
      decode_object-pointer _ ns s v e ∙ ap allocated (object-restrict ms s (or_zero s v) same)
  object-restrict ms Shape.string v same = refl
  object-restrict ms Shape.integer v same = refl
  object-restrict ms Shape.boolean v same = refl
  object-restrict ms Shape.raw v same = refl
  object-restrict ms (Shape.slice s) v same = refl

  member-restrict :
      (key : Str) (j : Json) (ms rest : Members) (fs : Fields) (v : Meanings fs)
      → ((s : Shape) (v : Meaning s) → decode unquote (restrict j s) s v ≡ decode unquote j s v)
      → ((v : Meanings fs) → decode_members unquote rest fs v ≡ decode_members unquote ms fs v)
      → decode_members unquote
          (keep_where (field_test fs (unquote key)) fs key (restrict j) rest)
          fs
          v
        ≡ decode_members unquote (member key j ms) fs v
  unfolding decode update
  member-restrict key j ms rest fs v same behind =
      elim (keep_where-cases (field_test fs (unquote key)) fs key (restrict j) rest
        (decode unquote j)) [
          | inl (gone, unread) ↦ rw (gone, unread v) (behind v)
          | inr (s, kept, agree) ↦ rw kept (
              ap (λ (o : Option (Meanings fs)). o >>= λ v'. decode_members unquote rest fs v')
                (sym (agree (decode unquote (restrict j s)) (λ u. sym (same s u)) v))
              ∙ bind-same (update_where (field_test fs (unquote key)) fs (decode unquote j) v) _ _
                  behind)
        ]

  mutual
    unfolding decode restrict

    decode-restrict_at :
        (j : Json) (s : Shape) (v : Meaning s)
        → decode unquote (restrict j s) s v ≡ decode unquote j s v
    decode-restrict_at null s v = refl
    decode-restrict_at (boolean b) s v = refl
    decode-restrict_at (number n) s v = refl
    decode-restrict_at (text t) s v = refl
    decode-restrict_at (array js) s v = array-restrict js s v (decode_items-restrict js)
    decode-restrict_at (object ms) s v = object-restrict ms s v (decode_members-restrict ms)

    decode_items-restrict :
        (js : Items) (s : Shape) (slots : List (Meaning s))
        → decode_items unquote (restrict_items js s) s slots ≡ decode_items unquote js s slots
    decode_items-restrict nil s slots = refl
    decode_items-restrict (cons j js) s slots =
        ap
          (λ (o : Option (Meaning s)). o >>= λ v.
            decode_items unquote (restrict_items js s) s (later_slots slots) >>= λ vs.
            some (record { elements = v ∷ vs.elements; spare = vs.spare }))
          (decode-restrict_at j s (first_slot s slots))
        ∙ bind-same (decode unquote j s (first_slot s slots)) _ _ (λ v.
          ap
            (λ (o : Option (Slots (Meaning s))).
              o >>= λ vs. some (record { elements = v ∷ vs.elements; spare = vs.spare }))
            (decode_items-restrict js s (later_slots slots)))

    decode_members-restrict :
        (ms : Members) (fs : Fields) (v : Meanings fs)
        → decode_members unquote (restrict_members ms fs) fs v ≡ decode_members unquote ms fs v
    decode_members-restrict close fs v = refl
    decode_members-restrict (member key j ms) fs v =
        member-restrict key j ms (restrict_members ms fs) fs v (decode-restrict_at j)
          (decode_members-restrict ms fs)

  -- A value is read as if it had only the members that its type declares.
  pub decode-restrict :
      (j : Json) (s : Shape) (v : Meaning s)
      → decode unquote (restrict j s) s v ≡ decode unquote j s v
  decode-restrict j s v = decode-restrict_at j s v
