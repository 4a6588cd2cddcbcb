-- ===== src/Postgres/Clock.antt =====
-- Records whose clock went backwards.
use gateway_service.Prelude.{
  ℕ, zero, suc, ◌+◌, ◌/◌, ◌≤◌, ◌≡◌, refl, ap, true, false, not, ◌||◌, Option, none, some, [], ◌∷◌,
  arith, ◌==◌, any, all, Bool-cases, inl, inr, ◌⊎◌, ℤ, negate,
}
use gateway_service.Audit.{AuditEntry}
use gateway_service.World.{Trace, Event}
use gateway_service.Postgres.{
  Row, Table, Reply, Database, updated, milliseconds, duration_check, row_checks, admits,
  update_rows, affected, effect, succeeded, table_of, postgres_finish,
}
use gateway_service.Postgres.Statements.{map-changed}

duration_check_backwards :
    (n : ℕ) → 1000000 ≤ n + 1 → duration_check (some (milliseconds (ℤ.negsuc n))) ≡ false
unfolding duration_check milliseconds
duration_check_backwards n h = positive ((n + 1) / 1000000) (omega arith)
  where
    positive : (m : ℕ) → 1 ≤ m → duration_check (some (negate m)) ≡ false
    positive zero h = absurd (omega arith)
    positive (suc m) h = unfold duration_check in refl

true-false : true ≡ false → ⊥
true-false h = cc

module _ (db : Database) (e : AuditEntry) (n : ℕ) (backwards : e.duration ≡ ℤ.negsuc n)
    (long : 1000000 ≤ n + 1) where
  admits_backwards : (row : Row) → admits db (updated e row) ≡ false
  unfolding admits row_checks updated
  admits_backwards row = rw backwards (rw (duration_check_backwards n long) (ground arith))

  update_rows_backwards :
      (table : Table)
      → any (λ (r : Row). r.request_id == e.request_id) table ≡ true
      → all (λ (r : Row). not (r.request_id == e.request_id) || admits db (updated e r)) table
        ≡ false
  update_rows_backwards [] h = cc
  update_rows_backwards (row ∷ table) h = elim (Bool-cases (row.request_id == e.request_id)) [
    | inl same ↦ rw (same, admits_backwards row) refl
    | inr other ↦ rw (other, update_rows_backwards table (rw other at h)) refl
  ]

  affected_none :
      (table : Table)
      → any (λ (r : Row). r.request_id == e.request_id) table ≡ false
      → affected db e table ≡ 0
  unfolding affected
  affected_none [] h = refl
  affected_none (row ∷ table) h = elim (Bool-cases (row.request_id == e.request_id)) [
    | inl same ↦ absurd (true-false (rw same at h))
    | inr other ↦ rw (other, affected_none table (rw other at h)) refl
  ]

  none_fails : (reply : Reply) → succeeded db reply none ≡ false
  none_fails Reply.done = refl
  none_fails Reply.lost = refl
  none_fails Reply.refused = refl

  same_table :
      (reply : Reply) (table : Table) (o : Option Table)
      → (o ≡ none) ⊎ (o ≡ some table)
      → effect db reply table o ≡ table
  same_table Reply.done table o (inl h) = rw h refl
  same_table Reply.done table o (inr h) = rw h refl
  same_table Reply.lost table o (inl h) = rw h refl
  same_table Reply.lost table o (inr h) = rw h refl
  same_table Reply.refused table o h = refl

  finish_found :
      (reply : Reply) (table : Table)
      → any (λ (r : Row). r.request_id == e.request_id) table ≡ true
      → (succeeded db reply (update_rows db e table) ≡ false)
        × (effect db reply table (update_rows db e table) ≡ table)
  unfolding update_rows
  finish_found reply table met =
      rw (update_rows_backwards table met)
        (none_fails reply, same_table reply table none (inl refl))

  finish_missing :
      (reply : Reply) (table : Table)
      → any (λ (r : Row). r.request_id == e.request_id) table ≡ false
      → (affected db e table ≡ 0) × (effect db reply table (update_rows db e table) ≡ table)
  unfolding update_rows
  finish_missing reply table new = (
    affected_none table new,
    same_table reply table _
        (elim (Bool-cases (
          all (λ (r : Row). not (r.request_id == e.request_id) || admits db (updated e r)) table)) [
            | inl good ↦ inr (rw good (ap some (map-changed db e table new)))
            | inr bad ↦ inl (rw bad refl)
          ]),
  )

-- A record that is finished a millisecond or more before it started, by the clock, is not finished: the
-- sink reports a failure and the table stays as it is, whatever the database replies.
pub postgres_finish_backwards :
    (db : Database) (e : AuditEntry) (n : ℕ) (t : Trace)
    → e.duration ≡ ℤ.negsuc n
    → 1000000 ≤ n + 1
    → (postgres_finish db t e ≡ false) × (table_of db (Event.audit_finish e ∷ t) ≡ table_of db t)
unfolding postgres_finish table_of
postgres_finish_backwards db e n t backwards long =
    elim (Bool-cases (any (λ (r : Row). r.request_id == e.request_id) (table_of db t))) [
      | inl met ↦
          let (failed, same) =
            finish_found db e n backwards long (db.reply t) (table_of db t) met in
          (rw failed refl, same)
      | inr new ↦
          let (none_met, same) =
            finish_missing db e n backwards long (db.reply t) (table_of db t) new in
          (rw none_met (ground arith), same)
    ]
