-- ===== src/Postgres/Queries/Order.antt =====
-- The order of the audit log, newest first.
use mathlib.Core.List.Permᴰ
use mathlib.Core.List.{Permᴰ}
use gateway_service.Prelude.{◌≤◌, ◌≡◌, refl, true, false, [], ◌∷◌, arith, Bool-cases, inl, inr, All}
use gateway_service.Postgres.{Row, Table}
use gateway_service.Postgres.Queries.{newer, newest_first, place_row}

-- The second row is no newer than the first: it started earlier, or at the same time and its id is not
-- greater.
abbrev pub NoNewer : Row → Row → Type 0
NoNewer a b =
    (b.started_at ≤ a.started_at) × (b.started_at ≡ a.started_at → b.request_id ≤ a.request_id)

abbrev pub IsSorted : Table → Type 0
IsSorted [] = Unit
IsSorted (row ∷ table) = All (NoNewer row) table × IsSorted table

module _ (P : Row → Type 0) where
  All-place_row : (row : Row) (table : Table) → P row → All P table → All P (place_row row table)
  unfolding place_row
  All-place_row row [] p h = (p, tt)
  All-place_row row (r ∷ table) p (q, h) = elim (Bool-cases (newer r row)) [
    | inl e ↦ rw e (q, All-place_row row table p h)
    | inr e ↦ rw e (p, (q, h))
  ]

newer-NoNewer : (a b : Row) → newer a b ≡ true → NoNewer a b
unfolding newer
newer-NoNewer a b h = (ground arith, λ e. ground arith)

newer_not : (a b : Row) → newer a b ≡ false → NoNewer b a
unfolding newer
newer_not a b h = (ground arith, λ e. ground arith)

NoNewer-trans : (a b c : Row) → NoNewer a b → NoNewer b c → NoNewer a c
NoNewer-trans a b c (h, h') (k, k') = (
  omega arith,
  λ e.
      let bc : c.started_at ≡ b.started_at = omega arith in
      let ab : b.started_at ≡ a.started_at = omega arith in
      let i = k' bc in let j = h' ab in omega arith,
)

All-NoNewer_trans :
    (a b : Row) (table : Table) → NoNewer a b → All (NoNewer b) table → All (NoNewer a) table
All-NoNewer_trans a b [] h k = tt
All-NoNewer_trans a b (c ∷ table) h (k, ks) =
    (NoNewer-trans a b c h k, All-NoNewer_trans a b table h ks)

place_row-IsSorted : (row : Row) (table : Table) → IsSorted table → IsSorted (place_row row table)
unfolding place_row
place_row-IsSorted row [] h = (tt, tt)
place_row-IsSorted row (r ∷ table) (below, h) = elim (Bool-cases (newer r row)) [
  | inl e ↦ rw e (
    All-place_row (NoNewer r) row table (newer-NoNewer r row e) below,
    place_row-IsSorted row table h,
  )
  | inr e ↦
      rw e
        ((newer_not r row e, All-NoNewer_trans row r table (newer_not r row e) below), (below, h))
]

pub newest_first-IsSorted : (table : Table) → IsSorted (newest_first table)
unfolding newest_first
newest_first-IsSorted [] = tt
newest_first-IsSorted (row ∷ table) =
    place_row-IsSorted row (newest_first table) (newest_first-IsSorted table)

place_row-Permᴰ : (row : Row) (table : Table) → Permᴰ (place_row row table) (row ∷ table)
unfolding place_row
place_row-Permᴰ row [] = Permᴰ.refl (row ∷ [])
place_row-Permᴰ row (r ∷ table) = elim (Bool-cases (newer r row)) [
  | inl e ↦ rw e (Permᴰ.trans (Permᴰ.cons refl (place_row-Permᴰ row table)) (Permᴰ.swap refl refl))
  | inr e ↦ rw e (Permᴰ.refl (row ∷ r ∷ table))
]

pub newest_first-Permᴰ : (table : Table) → Permᴰ (newest_first table) table
unfolding newest_first
newest_first-Permᴰ [] = Permᴰ.nil
newest_first-Permᴰ (row ∷ table) =
    Permᴰ.trans (place_row-Permᴰ row (newest_first table))
      (Permᴰ.cons refl (newest_first-Permᴰ table))
