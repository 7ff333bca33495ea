-- ===== src/MvccTrx/Removal.antt =====
-- Removals that the visibility test lets through though the row is already removed.
use my_mini_ob.Base.{
  ℕ, true, false, ◌≡◌, Option, none, some, List, [], ◌∷◌, ◌++◌, ◌-◌, ◌^◌, arith, ◌<◌, ◌≤◌, refl,
  ◌∙◌,
}
use my_mini_ob.Base.Int.{ltb_ℤ, ℤ, pos, neg, eq_ℤ}
use my_mini_ob.Rc.{Rc, success, record_invisible}
use my_mini_ob.MvccTrx.{
  RowId, Row, Rows, update_row, System, MvccTrx, ReadWriteMode, read_write, max_trx_id, Operation,
  delete, delete_log, delete_record, visit_record, undo_operation, undo_all, rollback,
}
use my_mini_ob.MvccTrx.Rows.{update_row-same}
use my_mini_ob.MvccTrx.Rollback.{eq_ℤ-refl, undo_all-last}
use my_mini_ob.MvccTrx.Visibility.{visit_record-uncommitted, visit_record-committed}
use mathlib.Core.List.{reverse, reverse-append}

undo_delete-restores :
    (id : ℤ) (rid : RowId) (v : Row) (rows : Rows)
    → v.end_xid ≡ neg id
    → undo_operation id false (record { kind = delete; row = rid }) (update_row rid (some v) rows)
      ≡ some
          (update_row rid (some (record v { end_xid = max_trx_id })) (update_row rid (some v) rows))
unfolding undo_operation
undo_delete-restores id rid v rows e =
    let mark : eq_ℤ v.end_xid (neg id) ≡ true = rw e (eq_ℤ-refl (neg id)) in
    rw (update_row-same rid (some v) rows, mark) refl

abbrev removing : RowId → MvccTrx → MvccTrx
removing rid t = record t {
  operations = t.operations ++ (record { kind = delete; row = rid } ∷ []);
}

abbrev marked : RowId → Row → MvccTrx → System → System
marked rid r t s = record s {
  rows = update_row rid (some (record r { end_xid = neg t.trx_id })) s.rows;
  log = s.log ++ (delete_log t.trx_id rid ∷ []);
}

delete_record-seen :
    (rid : RowId) (r : Row) (t : MvccTrx) (s : System)
    → s.rows rid ≡ some r
    → visit_record t.trx_id r read_write ≡ success
    → delete_record rid t s ≡ (success, removing rid t, marked rid r t s)
unfolding delete_record
delete_record-seen rid r t s e v = rw (e, v) refl

undo_twice :
    (id : ℤ) (rid : RowId) (v : Row) (ops : List Operation) (rows : Rows)
    → v.end_xid ≡ neg id
    → eq_ℤ max_trx_id (neg id) ≡ false
    → let op : Operation = record { kind = delete; row = rid } in
      undo_all id false (reverse ((ops ++ (op ∷ [])) ++ (op ∷ []))) (update_row rid (some v) rows)
      ≡ none
unfolding undo_all undo_operation
undo_twice id rid v ops rows e d =
    let op : Operation = record { kind = delete; row = rid } in
    let back : Rows =
      update_row rid (some (record v { end_xid = max_trx_id })) (update_row rid (some v) rows) in
    undo_all-last id false (ops ++ (op ∷ [])) op (update_row rid (some v) rows) back
      (undo_delete-restores id rid v rows e)
    ∙ rw
        (
          reverse-append ops (op ∷ []),
          update_row-same rid (some (record v { end_xid = max_trx_id }))
              (update_row rid (some v) rows),
          d,
        )
        refl

-- A transaction that is not recovering removes twice a row that it has inserted itself and not
-- committed. Both removals succeed, and its rollback then fails the ASSERT on the row's mark.
pub rollback-fails_after_double_delete :
    (rid : RowId) (r : Row) (t : MvccTrx) (s : System) (id : ℕ)
    → 0 < id
    → t.trx_id ≡ pos id
    → t.recovering ≡ false
    → s.rows rid ≡ some r
    → r.begin_xid ≡ neg (pos id)
    → let once = delete_record rid t s in
      let twice = delete_record rid once.1 once.2 in
      (once.0 ≡ success) × (twice.0 ≡ success) × (rollback twice.1 twice.2 ≡ none)
unfolding rollback
rollback-fails_after_double_delete rid r t s id h i n e b =
    let v : Row = record r { end_xid = neg t.trx_id } in
    let see : (w : Row)
        → w.begin_xid ≡ neg (pos id)
        → visit_record t.trx_id w read_write ≡ success =
      λ w c. rw i (visit_record-uncommitted id id w read_write h c ∙ ground arith) in
    let first = delete_record-seen rid r t s e (see r b) in
    let second =
      delete_record-seen rid v (removing rid t) (marked rid r t s)
        (update_row-same rid (some v) s.rows) (see v b) in
    let far : eq_ℤ max_trx_id (neg t.trx_id) ≡ false = rw i (ground arith) in
    rw
      (
        first,
        second,
        n,
        undo_twice t.trx_id rid v t.operations (update_row rid (some v) s.rows) refl far,
      )
      (refl, refl, refl)

-- the row at a place after a call, if the call returns
abbrev pub row_after : Option (Rc × MvccTrx × System) → RowId → Option Row
row_after none rid = none
row_after (some (rc, t, s)) rid = s.rows rid

-- A row has been made by committed transaction `from` and removed by committed transaction `to`.
-- Transaction `id` between them, with no operations and not recovering, removes it once more. That
-- succeeds; then the rollback of `id` leaves the row as never removed: a transaction after `to`, which
-- did not see the row before, sees it.
pub rollback-revives_removed :
    (rid : RowId) (r : Row) (t : MvccTrx) (s : System) (from to id late : ℕ) (mode : ReadWriteMode)
    → 0 < from
    → from ≤ id
    → id ≤ to
    → to < late
    → late ≤ 2 ^ 31 - 1
    → t.trx_id ≡ pos id
    → t.recovering ≡ false
    → t.operations ≡ []
    → s.rows rid ≡ some r
    → r.begin_xid ≡ pos from
    → r.end_xid ≡ pos to
    → let w : Row = record r { end_xid = max_trx_id } in
      (visit_record (pos late) r mode ≡ record_invisible)
      × ((delete_record rid t s).0 ≡ success)
      × (row_after (rollback (delete_record rid t s).1 (delete_record rid t s).2) rid ≡ some w)
      × (visit_record (pos late) w mode ≡ success)
unfolding rollback
rollback-revives_removed rid r t s from to id late mode h0 h1 h2 h3 h4 i n o e b c =
    let v : Row = record r { end_xid = neg t.trx_id } in
    let w : Row = record r { end_xid = max_trx_id } in
    let hidden : visit_record (pos late) r mode ≡ record_invisible =
      visit_record-committed from to late r mode h0 (omega arith) b c ∙ ground arith in
    let shown : visit_record (pos late) w mode ≡ success =
      visit_record-committed from (2 ^ 31 - 1) late w mode h0 (omega arith) b refl ∙ ground arith in
    let seen : visit_record t.trx_id r read_write ≡ success =
      rw i (visit_record-committed from to id r read_write h0 (omega arith) b c ∙ ground arith) in
    let undo =
      undo_all-last t.trx_id false [] (record { kind = delete; row = rid })
        (update_row rid (some v) s.rows) (update_row rid (some w) (update_row rid (some v) s.rows))
        (undo_delete-restores t.trx_id rid v s.rows refl)
      ∙ (unfold undo_all in refl) in
    let valid : ltb_ℤ (pos 0) t.trx_id ≡ true = rw i (ground arith) in
    rw (delete_record-seen rid r t s e seen, n, o, undo, valid)
      (hidden, refl, update_row-same rid (some w) (update_row rid (some v) s.rows), shown)
