-- ===== src/MvccTrx/Visibility.antt =====
-- Which transactions see a row that a transaction has made, removed or committed.
use my_mini_ob.Base.{
  ℕ, true, ◌&&◌, ◌≡◌, ◌≢◌, some, List, ◌-◌, ◌^◌, arith, if◌then◌else◌, ◌<◌, ◌≤◌, ◌==◌, leb, ap,
  refl, ◌∙◌,
}
use my_mini_ob.Base.Int.{pos, neg}
use my_mini_ob.Rc.{Rc, success, record_invisible, locked_concurrency_conflict, ob_succ}
use my_mini_ob.MvccTrx.{
  RowId, same_row, Row, System, MvccTrx, ReadWriteMode, read_only, read_write, max_trx_id,
  insert_record, delete_record, visit_record,
}
use my_mini_ob.MvccTrx.Rows.{update_row-same}

-- A row that transaction `id` has inserted and not committed is seen by `id` alone, in both modes,
-- whatever its mark of removal.
pub visit_record-uncommitted :
    (id other : ℕ) (r : Row) (mode : ReadWriteMode)
    → 0 < id
    → r.begin_xid ≡ neg (pos id)
    → visit_record (pos other) r mode ≡ (if other == id then success else record_invisible)
unfolding visit_record
visit_record-uncommitted id other r read_only h e = rw e (ground arith)
visit_record-uncommitted id other r read_write h e = rw e (ground arith)

-- A row that committed transaction `from` has made and no transaction has removed is seen by the
-- transactions from `from` on; one that `to` has removed and committed, by those up to `to`.
pub visit_record-committed :
    (from to other : ℕ) (r : Row) (mode : ReadWriteMode)
    → 0 < from
    → 0 < to
    → r.begin_xid ≡ pos from
    → r.end_xid ≡ pos to
    → visit_record (pos other) r mode
      ≡ (if leb from other && leb other to then success else record_invisible)
unfolding visit_record
visit_record-committed from to other r mode h h' e e' = rw (e, e') (ground arith)

-- A committed row that `id` is removing is invisible to `id`, readable by every other transaction,
-- and a conflict for every other one that wants to change it.
pub visit_record-removing :
    (from id other : ℕ) (r : Row) (mode : ReadWriteMode)
    → 0 < from
    → 0 < id
    → r.begin_xid ≡ pos from
    → r.end_xid ≡ neg (pos id)
    → visit_record (pos other) r mode ≡ (
        if other == id
        then record_invisible
        else elim mode [ read_only ↦ success | read_write ↦ locked_concurrency_conflict ])
unfolding visit_record
visit_record-removing from id other r read_only h h' e e' = rw (e, e') (ground arith)
visit_record-removing from id other r read_write h h' e e' = rw (e, e') (ground arith)

-- A transaction with a positive id inserts a row. Then the row stands in its place, every other place
-- is as it was, and until an end of the transaction it alone sees the row, in both modes.
pub insert_record-IsPrivate :
    (answer : Rc) (rid : RowId) (body : List ℕ) (t : MvccTrx) (s : System) (id : ℕ)
    → 0 < id
    → t.trx_id ≡ pos id
    → ob_succ answer ≡ true
    → (r : Row) × ((insert_record answer rid body t s).2.rows rid ≡ some r)
      × ((other : ℕ) (mode : ReadWriteMode)
          → visit_record (pos other) r mode ≡ (if other == id then success else record_invisible))
      × ((q : RowId)
          → (insert_record answer rid body t s).2.rows q
            ≡ (if same_row rid q then some r else s.rows q))
unfolding insert_record
insert_record-IsPrivate answer rid body t s id h e a =
    let r : Row = record { begin_xid = neg t.trx_id; end_xid = max_trx_id; body = body } in
    (
      r,
      rw a (update_row-same rid (some r) s.rows),
      (λ other mode. visit_record-uncommitted id other r mode h (ap neg e)),
      (λ q. rw a refl),
    )

-- A committed row that no transaction has removed stands at `rid`, and a transaction that sees it
-- removes it. That succeeds, and any other transaction that removes the row is then refused with a
-- conflict and changes nothing.
pub delete_record-FirstWins :
    (rid : RowId) (r : Row) (t other : MvccTrx) (s : System) (from id id' : ℕ)
    → 0 < from
    → from ≤ id
    → id ≤ 2 ^ 31 - 1
    → s.rows rid ≡ some r
    → r.begin_xid ≡ pos from
    → r.end_xid ≡ max_trx_id
    → t.trx_id ≡ pos id
    → other.trx_id ≡ pos id'
    → id' ≢ id
    → ((delete_record rid t s).0 ≡ success)
      × (delete_record rid other (delete_record rid t s).2
          ≡ (locked_concurrency_conflict, other, (delete_record rid t s).2))
unfolding delete_record
delete_record-FirstWins rid r t other s from id id' h0 h1 h2 e b e' i i' d =
    let seen : visit_record t.trx_id r read_write ≡ success = rw i (
      visit_record-committed from (2 ^ 31 - 1) id r read_write h0 (omega arith) b e'
      ∙ ground arith) in
    let v : Row = record r { end_xid = neg t.trx_id } in
    let refused : visit_record other.trx_id v read_write ≡ locked_concurrency_conflict = rw i' (
      visit_record-removing from id id' v read_write h0 (omega arith) b (ap neg i)
      ∙ ground arith) in
    rw (e, seen, update_row-same rid (some v) s.rows, refused) (refl, refl)
