-- ===== src/MvccTrx/Examples.antt =====
-- Transactions at concrete inputs.
use my_mini_ob.Base.{
  sym, ap, Bool-cases, inl, inr, ℕ, ◌≡◌, refl, [], ◌∷◌, ◌++◌, Option, some, none, true, false,
  arith, ◌==◌, if◌then◌else◌,
}
use my_mini_ob.Base.Int.{ℤ, pos, negsuc}
use my_mini_ob.Rc.{Rc, success, record_invisible, locked_concurrency_conflict}
use my_mini_ob.MvccTrx.{
  RowId, same_row, Row, update_row, System, MvccTrx, ReadWriteMode, read_only, max_trx_id,
  insert_record, delete_record, visit_record, rollback, rollback_log, commit_with_trx_id,
  commit_log,
}
use my_mini_ob.MvccTrx.Visibility.{insert_record-IsPrivate, delete_record-FirstWins}
use my_mini_ob.MvccTrx.Rollback.{Runs, start, inserts, deletes, rollback_lem}
use my_mini_ob.MvccTrx.Marks.{Unmarked, stamp_rows}
use my_mini_ob.MvccTrx.Commit.{commit_with_trx_id_lem}
use my_mini_ob.MvccTrx.Removal.{
  row_after, rollback-fails_after_double_delete, rollback-revives_removed,
}

abbrev place : ℕ → RowId
place n = record { table = 1; page_num = 1; slot_num = n }

-- made by 2, and not removed
abbrev committed : Row
committed = record { begin_xid = pos 2; end_xid = max_trx_id; body = 5 ∷ [] }

-- made by 2, and removed by 7
abbrev gone : Row
gone = record { begin_xid = pos 2; end_xid = pos 7; body = 5 ∷ [] }

-- made by 4, which has not committed
abbrev own : Row
own = record { begin_xid = negsuc 3; end_xid = max_trx_id; body = 6 ∷ [] }

abbrev system_with : Row → System
system_with r = record {
  current_trx_id = pos 8;
  rows = update_row (place 0) (some r) (λ q. none);
  log = [];
}

abbrev trx : ℕ → MvccTrx
trx n = record { trx_id = pos n; started = true; recovering = false; operations = [] }

abbrev end_of : Option Row → ℤ
end_of none = pos 0
end_of (some r) = r.end_xid

abbrev inserted : Rc × MvccTrx × System
inserted = insert_record success (place 1) (6 ∷ []) (trx 4) (system_with committed)

-- transaction 4 inserts at place 1 and removes the row at place 0
run_of_4 :
    Runs
      (trx 4)
      (system_with committed)
      (delete_record (place 0) inserted.1 inserted.2).1
      (delete_record (place 0) inserted.1 inserted.2).2
unfolding insert_record
run_of_4 =
    deletes (place 0) (inserts success (place 1) (6 ∷ []) start (λ y. refl))
      (λ r e y. sym (ap end_of e))

rollback_lem_example :
    rollback
      (delete_record (place 0) inserted.1 inserted.2).1
      (delete_record (place 0) inserted.1 inserted.2).2
    ≡ some (
      success,
      record (delete_record (place 0) inserted.1 inserted.2).1 { started = false; operations = [] },
      record (delete_record (place 0) inserted.1 inserted.2).2 {
        rows = (system_with committed).rows;
        log =
            if (delete_record (place 0) inserted.1 inserted.2).1.recovering
            then (delete_record (place 0) inserted.1 inserted.2).2.log
            else (delete_record (place 0) inserted.1 inserted.2).2.log
              ++ (rollback_log (delete_record (place 0) inserted.1 inserted.2).1.trx_id ∷ []);
      },
    )
rollback_lem_example =
    rollback_lem 4 (trx 4) (system_with committed) (delete_record (place 0) inserted.1 inserted.2).1
      (delete_record (place 0) inserted.1 inserted.2).2 (omega arith) refl refl run_of_4

insert_record-IsPrivate_example :
    (r : Row) × ((insert_record success (place 1) (6 ∷ []) (trx 4) (system_with committed)).2.rows
        (place 1)
      ≡ some r)
    × ((other : ℕ) (mode : ReadWriteMode)
        → visit_record (pos other) r mode ≡ (if other == 4 then success else record_invisible))
    × ((q : RowId)
        → (insert_record success (place 1) (6 ∷ []) (trx 4) (system_with committed)).2.rows q
          ≡ (if same_row (place 1) q then some r else (system_with committed).rows q))
insert_record-IsPrivate_example =
    insert_record-IsPrivate success (place 1) (6 ∷ []) (trx 4) (system_with committed) 4
      (omega arith) refl refl

delete_record-FirstWins_example :
    ((delete_record (place 0) (trx 4) (system_with committed)).0 ≡ success)
    × (delete_record (place 0) (trx 5) (delete_record (place 0) (trx 4) (system_with committed)).2
        ≡ (
          locked_concurrency_conflict,
          trx 5,
          (delete_record (place 0) (trx 4) (system_with committed)).2,
        ))
delete_record-FirstWins_example =
    delete_record-FirstWins (place 0) committed (trx 4) (trx 5) (system_with committed) 2 4 5
      (omega arith) (omega arith) (omega arith) refl refl refl refl refl (omega arith)

rollback-fails_after_double_delete_example :
    let once = delete_record (place 0) (trx 4) (system_with own) in
    let twice = delete_record (place 0) once.1 once.2 in
    (once.0 ≡ success) × (twice.0 ≡ success) × (rollback twice.1 twice.2 ≡ none)
rollback-fails_after_double_delete_example =
    rollback-fails_after_double_delete (place 0) own (trx 4) (system_with own) 4 (omega arith) refl
      refl refl refl

rollback-revives_removed_example :
    (visit_record (pos 8) gone read_only ≡ record_invisible)
    × ((delete_record (place 0) (trx 4) (system_with gone)).0 ≡ success)
    × (row_after
          (rollback
            (delete_record (place 0) (trx 4) (system_with gone)).1
            (delete_record (place 0) (trx 4) (system_with gone)).2)
          (place 0)
        ≡ some committed)
    × (visit_record (pos 8) committed read_only ≡ success)
rollback-revives_removed_example =
    rollback-revives_removed (place 0) gone (trx 4) (system_with gone) 2 7 4 8 read_only
      (omega arith) (omega arith) (omega arith) (omega arith) (omega arith) refl refl refl refl refl
      refl

no_marks_of_4 : (q : RowId) → Unmarked (pos 4) ((system_with committed).rows q)
no_marks_of_4 q = elim (Bool-cases (same_row (place 0) q)) [
  | inl y ↦ rw y (refl, refl)
  | inr n ↦ rw n tt
]

commit_with_trx_id_lem_example :
    commit_with_trx_id
      (pos 9)
      (delete_record (place 0) inserted.1 inserted.2).1
      (delete_record (place 0) inserted.1 inserted.2).2
    ≡ some (
      success,
      record (delete_record (place 0) inserted.1 inserted.2).1 { started = false; operations = [] },
      record (delete_record (place 0) inserted.1 inserted.2).2 {
        rows =
            stamp_rows
              (delete_record (place 0) inserted.1 inserted.2).1.trx_id
              (pos 9)
              (delete_record (place 0) inserted.1 inserted.2).2.rows;
        log =
            (delete_record (place 0) inserted.1 inserted.2).2.log
            ++ (commit_log (delete_record (place 0) inserted.1 inserted.2).1.trx_id (pos 9) ∷ []);
      },
    )
commit_with_trx_id_lem_example =
    commit_with_trx_id_lem 9 4 (trx 4) (system_with committed)
      (delete_record (place 0) inserted.1 inserted.2).1
      (delete_record (place 0) inserted.1 inserted.2).2 (omega arith) (omega arith) refl refl refl
      no_marks_of_4 run_of_4
