-- ===== src/MvccTrx.antt =====
-- src/observer/storage/trx/mvcc_trx.{h,cpp} and trx.h: transactions over rows that carry the ids of
-- the transactions that made and removed them. A row is named by its table, page and slot. The tables
-- are one map of rows: `visit_record` gives the caller a copy and writes it back if the caller says
-- so, `delete_record` removes a row, and where an insertion goes, or how it fails, is the table's
-- answer. A failed ASSERT ends the process: `none`. The log takes every entry, and a transaction that
-- changes rows has been started, so that its id is positive as the log's ASSERTs ask.
mod Examples
pub mod Rows
pub mod Visibility
pub mod Rollback
pub mod Removal
pub mod Marks
pub mod Commit
use my_mini_ob.Base.{
  ℕ, suc, ◌-◌, ◌^◌, Bool, true, false, not, ◌&&◌, Option, none, some, List, [], ◌∷◌, ◌++◌, ◌==◌,
  if◌then◌else◌,
}
use my_mini_ob.Base.Int.{ℤ, pos, negsuc, neg, ltb_ℤ, leb_ℤ, eq_ℤ, ◌+ℤ◌}
use my_mini_ob.Rc.{
  Rc, success, record_invisible, record_not_exist, locked_concurrency_conflict, ob_succ,
}
use mathlib.Core.List.{reverse}

pub record RowId : Type 0 where
  pub table : ℕ
  pub page_num : ℕ
  pub slot_num : ℕ

abbrev pub same_row : RowId → RowId → Bool
same_row a b = a.table == b.table && (a.page_num == b.page_num && a.slot_num == b.slot_num)

-- a record: the fields `__trx_xid_begin` and `__trx_xid_end`, and the rest
pub record Row : Type 0 where
  pub begin_xid : ℤ
  pub end_xid : ℤ
  pub body : List ℕ

abbrev pub Rows : Type 0
Rows = RowId → Option Row

abbrev pub update_row : RowId → Option Row → Rows → Rows
update_row r v rows q = if same_row r q then v else rows q

-- `Operation`; UPDATE and UNDEFINED are never recorded
pub data OperationType : Type 0 where
  insert update delete undefined : OperationType

pub record Operation : Type 0 where
  pub kind : OperationType
  pub row : RowId

pub data TrxLog : Type 0 where
  insert_log delete_log : ℤ → RowId → TrxLog
  commit_log : ℤ → ℤ → TrxLog
  rollback_log : ℤ → TrxLog

-- the transaction kit, the tables and the log
pub record System : Type 0 where
  pub current_trx_id : ℤ
  pub rows : Rows
  pub log : List TrxLog

pub record MvccTrx : Type 0 where
  pub trx_id : ℤ
  pub started : Bool
  pub recovering : Bool
  pub operations : List Operation

pub data ReadWriteMode : Type 0 where
  read_only read_write : ReadWriteMode

-- numeric_limits<int32_t>::max()
abbrev pub max_trx_id : ℤ
max_trx_id = pos (2 ^ 31 - 1)

-- `++current_trx_id_`
unfoldable pub next_trx_id : System → ℤ × System
next_trx_id s = let id = s.current_trx_id +ℤ pos 1 in (id, record s { current_trx_id = id })

-- `MvccTrx(kit, log_handler)` and, for recovery, `MvccTrx(kit, log_handler, trx_id)`
abbrev pub new_trx : MvccTrx
new_trx = record { trx_id = negsuc 0; started = false; recovering = false; operations = [] }

abbrev pub recovering_trx : ℤ → MvccTrx
recovering_trx id = record { trx_id = id; started = true; recovering = true; operations = [] }

-- `visit_record(table, record, mode)`
unfoldable pub visit_record : ℤ → Row → ReadWriteMode → Rc
visit_record trx_id r mode =
    if ltb_ℤ (pos 0) r.begin_xid && ltb_ℤ (pos 0) r.end_xid
    then (if leb_ℤ r.begin_xid trx_id && leb_ℤ trx_id r.end_xid then success else record_invisible)
    else if ltb_ℤ r.begin_xid (pos 0)
    then (if eq_ℤ (neg r.begin_xid) trx_id then success else record_invisible)
    else if ltb_ℤ r.end_xid (pos 0)
    then elim mode [
      | read_only ↦ if not (eq_ℤ (neg r.end_xid) trx_id) then success else record_invisible
      | read_write ↦
          if not (eq_ℤ (neg r.end_xid) trx_id)
          then locked_concurrency_conflict
          else record_invisible
    ]
    else success

-- `insert_record`; the table's answer is its code and the place of the row
unfoldable pub insert_record : Rc → RowId → List ℕ → MvccTrx → System → Rc × MvccTrx × System
insert_record answer rid body t s =
    if ob_succ answer
    then (
      success,
      record t { operations = t.operations ++ (record { kind = insert; row = rid } ∷ []) },
      record s {
        rows =
            update_row rid
              (some (record { begin_xid = neg t.trx_id; end_xid = max_trx_id; body = body }))
              s.rows;
        log = s.log ++ (insert_log t.trx_id rid ∷ []);
      },
    )
    else (answer, t, s)

-- what `delete_record` does with the row that the table finds
abbrev pub delete_found : RowId → Option Row → MvccTrx → System → Rc × MvccTrx × System
delete_found rid none t s = (record_not_exist, t, s)
delete_found rid (some r) t s =
    let rc = visit_record t.trx_id r read_write in
    if ob_succ rc
    then (
      success,
      record t { operations = t.operations ++ (record { kind = delete; row = rid } ∷ []) },
      record s {
        rows = update_row rid (some (record r { end_xid = neg t.trx_id })) s.rows;
        log = s.log ++ (delete_log t.trx_id rid ∷ []);
      },
    )
    else (rc, t, s)

unfoldable pub delete_record : RowId → MvccTrx → System → Rc × MvccTrx × System
unfolding visit_record
delete_record rid t s = delete_found rid (s.rows rid) t s

-- ASSERT that there are no operations
unfoldable pub start_if_need : MvccTrx → System → Option (MvccTrx × System)
unfolding next_trx_id
start_if_need t s =
    if not t.started
    then elim t.operations [
      | [] ↦ let (id, s') = next_trx_id s in some (record t { trx_id = id; started = true }, s')
      | _ ↦ none
    ]
    else some (t, s)

-- `commit_with_trx_id`, one operation: the row must be there, and carry this transaction's mark
abbrev commit_found : ℤ → ℤ → Bool → OperationType → RowId → Option Row → Rows → Option Rows
commit_found trx_id commit_xid recovering insert rid (some r) rows =
    if eq_ℤ r.begin_xid (neg trx_id) && not recovering
    then some (update_row rid (some (record r { begin_xid = commit_xid })) rows)
    else none
commit_found trx_id commit_xid recovering delete rid (some r) rows =
    if eq_ℤ r.end_xid (neg trx_id)
    then some (update_row rid (some (record r { end_xid = commit_xid })) rows)
    else none
commit_found trx_id commit_xid recovering _ rid _ rows = none

unfoldable pub commit_operation : ℤ → ℤ → Bool → Operation → Rows → Option Rows
commit_operation trx_id commit_xid recovering op rows =
    commit_found trx_id commit_xid recovering op.kind op.row (rows op.row) rows

abbrev pub and_then : Option Rows → (Rows → Option Rows) → Option Rows
and_then none k = none
and_then (some rows) k = k rows

unfoldable pub commit_all : ℤ → ℤ → Bool → List Operation → Rows → Option Rows
unfolding commit_operation
commit_all trx_id commit_xid recovering [] rows = some rows
commit_all trx_id commit_xid recovering (op ∷ ops) rows =
    and_then (commit_operation trx_id commit_xid recovering op rows)
      (λ rows'. commit_all trx_id commit_xid recovering ops rows')

-- the ASSERTs of MvccTrxLogHandler on the ids
abbrev pub valid_log : TrxLog → Bool
valid_log (insert_log id rid) = ltb_ℤ (pos 0) id
valid_log (delete_log id rid) = ltb_ℤ (pos 0) id
valid_log (commit_log id commit_xid) = ltb_ℤ (pos 0) id && ltb_ℤ id commit_xid
valid_log (rollback_log id) = ltb_ℤ (pos 0) id

abbrev pub finish : MvccTrx → System → TrxLog → Option Rows → Option (Rc × MvccTrx × System)
finish t s entry none = none
finish t s entry (some rows) =
    if not (valid_log entry) && not t.recovering
    then none
    else some (
      success,
      record t { started = false; operations = [] },
      record s { rows = rows; log = if t.recovering then s.log else s.log ++ (entry ∷ []) },
    )

unfoldable pub commit_with_trx_id : ℤ → MvccTrx → System → Option (Rc × MvccTrx × System)
unfolding commit_all
commit_with_trx_id commit_xid t s =
    finish t s (commit_log t.trx_id commit_xid)
      (commit_all t.trx_id commit_xid t.recovering t.operations s.rows)

unfoldable pub commit : MvccTrx → System → Option (Rc × MvccTrx × System)
unfolding commit_with_trx_id next_trx_id
commit t s = let (commit_id, s') = next_trx_id s in commit_with_trx_id commit_id t s'

-- `rollback`, one operation. In recovery a row that is gone or is not this transaction's is passed
-- over when an insertion is undone, and one that is not this transaction's when a removal is.
abbrev undo_found : ℤ → Bool → OperationType → RowId → Option Row → Rows → Option Rows
undo_found trx_id recovering insert rid (some r) rows =
    if recovering && not (eq_ℤ r.begin_xid (neg trx_id))
    then some rows
    else some (update_row rid none rows)
undo_found trx_id recovering insert rid none rows = if recovering then some rows else none
undo_found trx_id recovering delete rid (some r) rows =
    if recovering && not (eq_ℤ r.end_xid (neg trx_id))
    then some rows
    else if eq_ℤ r.end_xid (neg trx_id)
    then some (update_row rid (some (record r { end_xid = max_trx_id })) rows)
    else none
undo_found trx_id recovering _ rid _ rows = none

unfoldable pub undo_operation : ℤ → Bool → Operation → Rows → Option Rows
undo_operation trx_id recovering op rows =
    undo_found trx_id recovering op.kind op.row (rows op.row) rows

unfoldable pub undo_all : ℤ → Bool → List Operation → Rows → Option Rows
unfolding undo_operation
undo_all trx_id recovering [] rows = some rows
undo_all trx_id recovering (op ∷ ops) rows =
    and_then (undo_operation trx_id recovering op rows)
      (λ rows'. undo_all trx_id recovering ops rows')

unfoldable pub rollback : MvccTrx → System → Option (Rc × MvccTrx × System)
unfolding undo_all
rollback t s =
    finish t s (rollback_log t.trx_id)
      (undo_all t.trx_id t.recovering (reverse t.operations) s.rows)

-- `redo`: the operations of a transaction that is being recovered are taken down again; the lookup of
-- the entry's table is left out.
unfoldable pub redo : TrxLog → MvccTrx → MvccTrx
redo (insert_log id rid) t = record t {
  operations = t.operations ++ (record { kind = insert; row = rid } ∷ []);
}
redo (delete_log id rid) t = record t {
  operations = t.operations ++ (record { kind = delete; row = rid } ∷ []);
}
redo (commit_log id commit_xid) t = t
redo (rollback_log id) t = t
