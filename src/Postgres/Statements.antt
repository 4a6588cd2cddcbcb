-- ===== src/Postgres/Statements.antt =====
-- What the statements of Start and Finish leave of the table, whatever the database replies.
use gateway_service.Prelude.{
  ◌≡◌, refl, ap, ◌∙◌, true, false, not, ◌||◌, Option, none, some, [], ◌∷◌, map, arith, ◌==◌, any,
  all, Bool-cases, ==_iff, inl, inr, ◌⊎◌,
}
use gateway_service.Audit.{AuditEntry}
use gateway_service.Postgres.{
  Row, Table, Reply, Database, updated, admits, insert_row, changed, update_rows, effect, succeeded,
}

pub map-changed :
    (db : Database) (e : AuditEntry) (table : Table)
    → any (λ (r : Row). r.request_id == e.request_id) table ≡ false
    → map (changed db e) table ≡ table
unfolding changed
map-changed db e [] h = refl
map-changed db e (row ∷ table) h = elim (Bool-cases (row.request_id == e.request_id)) [
  | inl same ↦ ground arith
  | inr other ↦ rw other (ap (λ (l : Table). row ∷ l) (map-changed db e table (ground arith)))
]

pub insert_row-succeeded :
    (db : Database) (reply : Reply) (row : Row) (table : Table)
    → succeeded db reply (insert_row db row table) ≡ true
    → (effect db reply table (insert_row db row table) ≡ row ∷ table)
      × (any (λ (r : Row). r.request_id == row.request_id) table ≡ false)
unfolding insert_row
insert_row-succeeded db Reply.done row table h =
    elim (Bool-cases (any (λ (r : Row). r.request_id == row.request_id) table)) [
      | inl old ↦ ground arith
      | inr new ↦ ground arith
    ]
insert_row-succeeded db Reply.refused row table h = cc
insert_row-succeeded db Reply.lost row table h = cc

-- An insert that is not reported as carried out leaves the table, or puts the row on top where the
-- database lost its reply.
pub insert_row-failed :
    (db : Database) (reply : Reply) (row : Row) (table : Table)
    → succeeded db reply (insert_row db row table) ≡ false
    → (effect db reply table (insert_row db row table) ≡ table)
      ⊎ ((effect db reply table (insert_row db row table) ≡ row ∷ table) × (reply ≡ Reply.lost))
insert_row-failed db reply row table = either_way reply (insert_row db row table) found
  where
    found : (insert_row db row table ≡ none) ⊎ (insert_row db row table ≡ some (row ∷ table))
    found =
        unfold insert_row in
        elim (Bool-cases
          (any (λ (r : Row). r.request_id == row.request_id) table || not (admits db row))) [
            | inl bad ↦ inl (rw bad refl)
            | inr good ↦ inr (rw good refl)
          ]

    either_way :
        (reply : Reply) (o : Option Table)
        → (o ≡ none) ⊎ (o ≡ some (row ∷ table))
        → succeeded db reply o ≡ false
        → (effect db reply table o ≡ table)
          ⊎ ((effect db reply table o ≡ row ∷ table) × (reply ≡ Reply.lost))
    either_way Reply.done o (inl e) h = inl (rw e refl)
    either_way Reply.done none (inr e) h = cc
    either_way Reply.done (some new) (inr e) h = cc
    either_way Reply.lost o (inl e) h = inl (rw e refl)
    either_way Reply.lost o (inr e) h = inr (rw e refl, refl)
    either_way Reply.refused o e h = inl refl

-- An update of the row on top changes that row, where no other has its id, or leaves the table and is
-- reported as failed.
pub update_rows-effect :
    (db : Database) (reply : Reply) (e : AuditEntry) (row : Row) (table : Table)
    → row.request_id ≡ e.request_id
    → any (λ (r : Row). r.request_id == e.request_id) table ≡ false
    → ((effect db reply (row ∷ table) (update_rows db e (row ∷ table)) ≡ row ∷ table)
        × (succeeded db reply (update_rows db e (row ∷ table)) ≡ false))
      ⊎ (effect db reply (row ∷ table) (update_rows db e (row ∷ table)) ≡ updated e row ∷ table)
update_rows-effect db reply e row table same others =
    either_way reply (update_rows db e (row ∷ table)) found
  where
    met : map (changed db e) (row ∷ table) ≡ updated e row ∷ table
    met =
        ap (λ (l : Table). changed db e row ∷ l) (map-changed db e table others)
        ∙ ap (λ (r : Row). r ∷ table)
            (unfold changed in rw ((==_iff row.request_id e.request_id).1 same) refl)

    found :
        (update_rows db e (row ∷ table) ≡ none)
        ⊎ (update_rows db e (row ∷ table) ≡ some (updated e row ∷ table))
    found =
        unfold update_rows in
        elim (Bool-cases (
          all (λ (r : Row). not (r.request_id == e.request_id) || admits db (updated e r))
            (row ∷ table))) [ inl good ↦ inr (rw good (ap some met)) | inr bad ↦ inl (rw bad refl) ]

    either_way :
        (reply : Reply) (o : Option Table)
        → (o ≡ none) ⊎ (o ≡ some (updated e row ∷ table))
        → ((effect db reply (row ∷ table) o ≡ row ∷ table) × (succeeded db reply o ≡ false))
          ⊎ (effect db reply (row ∷ table) o ≡ updated e row ∷ table)
    either_way Reply.done o (inl e) = inl (rw e (refl, refl))
    either_way Reply.done o (inr e) = inr (rw e refl)
    either_way Reply.lost o (inl e) = inl (rw e refl, refl)
    either_way Reply.lost o (inr e) = inr (rw e refl)
    either_way Reply.refused o e = inl (refl, refl)
