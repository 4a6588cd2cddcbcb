-- ===== src/Json/Keys.antt =====
-- Which field a key is read into.
use gateway_service.Prelude.{
  ◌≡◌, refl, sym, ap, ◌∙◌, Bool, true, false, Option, none, some, any, if◌then◌else◌, Bool-cases,
  inl, inr, ◌>>=◌,
}
use gateway_service.Text.{Str, eqb}
use gateway_service.Json.{
  Members, close, member, Shape, Fields, Meaning, Meanings, names, Reader, update, update_where,
  field_test, decode, decode_members, fold_name,
}
use gateway_service.Text.Laws.{eqb_iff, eqb_refl}

module _ (unquote : Str → Str) where
  -- All keys are names of fields.
  abbrev pub Known : Fields → Members → Type 0
  Known fs close = Unit
  Known fs (member key j ms) = (any (λ n. eqb n (unquote key)) (names fs) ≡ true) × Known fs ms

  known_test :
      (fs : Fields) (key : Str)
      → any (λ n. eqb n key) (names fs) ≡ true
      → field_test fs key ≡ λ name. eqb name key
  known_test fs key known =
      ap {B = Str → Bool}
        (λ (b : Bool) name. if b then eqb name key else eqb (fold_name name) (fold_name key)) known

  -- A key that is a field's name is read into the field of this very name.
  update_known :
      (fs : Fields) (key : Str) (f : Reader) (v : Meanings fs)
      → any (λ n. eqb n key) (names fs) ≡ true
      → update fs key f v ≡ update_where (λ name. eqb name key) fs f v
  unfolding update
  update_known fs key f v known =
      ap (λ (test : Str → Bool). update_where test fs f v) (known_test fs key known)

  update-skip :
      (name : Str) (omitempty : Bool) (s : Shape) (fs : Fields) (key : Str) (f : Reader)
      (v : Meaning s) (vs : Meanings fs)
      → any (λ n. eqb n key) (names fs) ≡ true
      → eqb name key ≡ false
      → update (Fields.field name omitempty s fs) key f (v, vs)
        ≡ (update fs key f vs >>= λ vs'. some (v, vs'))
  unfolding update_where
  update-skip name omitempty s fs key f v vs known other =
      update_known (Fields.field name omitempty s fs) key f (v, vs) (rw (other, known) refl)
      ∙ skipped
      ∙ ap (λ (o : Option (Meanings fs)). o >>= λ vs'. some (v, vs'))
          (sym (update_known fs key f vs known))
    where
      skipped :
          update_where (λ n. eqb n key) (Fields.field name omitempty s fs) f (v, vs)
          ≡ (update_where (λ n. eqb n key) fs f vs >>= λ vs'. some (v, vs'))
      skipped = rw other refl

  pub update-here :
      (name : Str) (omitempty : Bool) (s : Shape) (fs : Fields) (f : Reader) (v : Meaning s)
      (vs : Meanings fs)
      → update (Fields.field name omitempty s fs) name f (v, vs) ≡ (f s v >>= λ v'. some (v', vs))
  unfolding update_where
  update-here name omitempty s fs f v vs =
      update_known (Fields.field name omitempty s fs) name f (v, vs) (rw (eqb_refl name) refl)
      ∙ here
    where
      here :
          update_where (λ n. eqb n name) (Fields.field name omitempty s fs) f (v, vs)
          ≡ (f s v >>= λ v'. some (v', vs))
      here = rw (eqb_refl name) refl

  -- A name that no field has is no key of known members.
  unknown-apart :
      (fs : Fields) (name key : Str)
      → any (λ n. eqb n name) (names fs) ≡ false
      → any (λ n. eqb n key) (names fs) ≡ true
      → eqb name key ≡ false
  unknown-apart fs name key fresh known = elim (Bool-cases (eqb name key)) [
    | inl same ↦
        let e = ap (λ (n : Str). any (λ m. eqb m n) (names fs)) ((eqb_iff name key).0 same) in
        let clash : false ≡ true = sym fresh ∙ e ∙ known in cc
    | inr other ↦ other
  ]

  pub decode_members-skip :
      (name : Str) (omitempty : Bool) (s : Shape) (fs : Fields) (ms : Members) (v : Meaning s)
      (vs : Meanings fs)
      → any (λ n. eqb n name) (names fs) ≡ false
      → Known fs ms
      → decode_members unquote ms (Fields.field name omitempty s fs) (v, vs)
        ≡ (decode_members unquote ms fs vs >>= λ vs'. some (v, vs'))
  unfolding decode
  decode_members-skip name omitempty s fs close v vs fresh known = refl
  decode_members-skip name omitempty s fs (member key j ms) v vs fresh (k, known) =
      ap
        (λ (o : Option (Meaning s × Meanings fs)).
          o >>= λ u. decode_members unquote ms (Fields.field name omitempty s fs) u)
        (update-skip name omitempty s fs (unquote key) (decode unquote j) v vs k
          (unknown-apart fs name (unquote key) fresh k))
      ∙ behind (update fs (unquote key) (decode unquote j) vs)
          (λ vs'. decode_members-skip name omitempty s fs ms v vs' fresh known)
    where
      behind :
          (o : Option (Meanings fs))
          → ((vs' : Meanings fs)
              → decode_members unquote ms (Fields.field name omitempty s fs) (v, vs')
                ≡ (decode_members unquote ms fs vs' >>= λ vs''. some (v, vs'')))
          → ((o >>= λ vs'. some (v, vs')) >>= λ u.
              decode_members unquote ms (Fields.field name omitempty s fs) u)
            ≡ ((o >>= λ vs'. decode_members unquote ms fs vs') >>= λ vs'. some (v, vs'))
      behind none go = refl
      behind (some vs') go = go vs'
