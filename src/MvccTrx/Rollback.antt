-- ===== src/MvccTrx/Rollback.antt =====
-- Rollback: what a transaction did to the rows is undone, the last change first.
use my_mini_ob.Base.{
  ℕ, ◌<◌, ℕ, Bool, true, false, ◌≡◌, ◌∙◌, ap, Option, none, some, List, [], ◌∷◌, ◌++◌, arith,
  Bool-cases, inl, inr, refl, if◌then◌else◌,
}
use my_mini_ob.Base.Int.{ℤ, pos, negsuc, neg, eq_ℤ, ltb_ℤ}
use my_mini_ob.Rc.{Rc, success, ob_succ}
use my_mini_ob.MvccTrx.{
  RowId, Row, Rows, update_row, insert, delete, Operation, rollback_log, System, MvccTrx,
  max_trx_id, insert_record, delete_found, delete_record, visit_record, read_write, undo_operation,
  undo_all, rollback,
}
use my_mini_ob.MvccTrx.Rows.{update_row-same, update_row-back}
use mathlib.Core.List.{reverse, reverse-append}

-- What a transaction does between its start and its end: insertions, which take free places, and
-- removals, of rows that no transaction has removed; each may be refused.
pub data Runs (t : MvccTrx) (s : System) : MvccTrx → System → Type 0 where
  start : Runs t s t s
  inserts :
      {t' : MvccTrx} {s' : System} (answer : Rc) (rid : RowId) (body : List ℕ)
      → Runs t s t' s'
      → (ob_succ answer ≡ true → s'.rows rid ≡ none)
      → Runs t s (insert_record answer rid body t' s').1 (insert_record answer rid body t' s').2
  deletes :
      {t' : MvccTrx} {s' : System} (rid : RowId)
      → Runs t s t' s'
      → ((r : Row)
          → s'.rows rid ≡ some r
          → ob_succ (visit_record t'.trx_id r read_write) ≡ true
          → r.end_xid ≡ max_trx_id)
      → Runs t s (delete_record rid t' s').1 (delete_record rid t' s').2

-- what of a transaction stays as it is
abbrev pub Kept : MvccTrx → MvccTrx → Type 0
Kept t t' = (t'.trx_id ≡ t.trx_id) × (t'.recovering ≡ t.recovering)

pub undo_all-last :
    (id : ℤ) (recovering : Bool) (ops : List Operation) (op : Operation) (rows rows' : Rows)
    → undo_operation id recovering op rows ≡ some rows'
    → undo_all id recovering (reverse (ops ++ (op ∷ []))) rows
      ≡ undo_all id recovering (reverse ops) rows'
unfolding undo_all
undo_all-last id recovering ops op rows rows' h = rw (reverse-append ops (op ∷ []), h) refl

pub eq_ℤ-refl : (a : ℤ) → eq_ℤ a a ≡ true
eq_ℤ-refl (pos n) = ground arith
eq_ℤ-refl (negsuc n) = ground arith

undo_insert :
    (id : ℤ) (recovering : Bool) (rid : RowId) (r : Row) (rows : Rows)
    → r.begin_xid ≡ neg id
    → rows rid ≡ none
    → undo_operation id recovering
        (record { kind = insert; row = rid })
        (update_row rid (some r) rows)
      ≡ some rows
unfolding undo_operation
undo_insert id recovering rid r rows b h =
    let mark : eq_ℤ r.begin_xid (neg id) ≡ true = rw b (eq_ℤ-refl (neg id)) in
    rw (update_row-same rid (some r) rows, mark, update_row-back rid (some r) none rows h)
      (ground arith)

undo_delete :
    (id : ℤ) (recovering : Bool) (rid : RowId) (r : Row) (rows : Rows)
    → r.end_xid ≡ max_trx_id
    → rows rid ≡ some r
    → undo_operation id recovering
        (record { kind = delete; row = rid })
        (update_row rid (some (record r { end_xid = neg id })) rows)
      ≡ some rows
unfolding undo_operation
undo_delete id recovering rid r rows b h =
    let v = some (record r { end_xid = neg id }) in
    let back : rows rid ≡ some (record r { end_xid = max_trx_id }) =
      h ∙ ap (λ (x : ℤ). some (record r { end_xid = x })) b in
    rw
      (
        update_row-same rid v rows,
        eq_ℤ-refl (neg id),
        update_row-back rid v (some (record r { end_xid = max_trx_id })) rows back,
      )
      (ground arith)

-- undoing what one removal did
undo_delete_found :
    (rid : RowId) (t : MvccTrx) (s : System) (o : Option Row)
    → s.rows rid ≡ o
    → ((r : Row)
        → o ≡ some r
        → ob_succ (visit_record t.trx_id r read_write) ≡ true
        → r.end_xid ≡ max_trx_id)
    → (undo_all t.trx_id t.recovering
          (reverse (delete_found rid o t s).1.operations)
          (delete_found rid o t s).2.rows
        ≡ undo_all t.trx_id t.recovering (reverse t.operations) s.rows)
      × Kept t (delete_found rid o t s).1
undo_delete_found rid t s none h fresh = (refl, (refl, refl))
undo_delete_found rid t s (some r) h fresh =
    elim (Bool-cases (ob_succ (visit_record t.trx_id r read_write))) [
      | inl y ↦ rw y (
        undo_all-last t.trx_id t.recovering t.operations (record { kind = delete; row = rid })
            (update_row rid (some (record r { end_xid = neg t.trx_id })) s.rows) s.rows
            (undo_delete t.trx_id t.recovering rid r s.rows (fresh r refl y) h),
        (refl, refl),
      )
      | inr n ↦ rw n (refl, (refl, refl))
    ]

undo_inserted :
    (answer : Rc) (rid : RowId) (body : List ℕ) (t : MvccTrx) (s : System)
    → (ob_succ answer ≡ true → s.rows rid ≡ none)
    → (undo_all t.trx_id t.recovering
          (reverse (insert_record answer rid body t s).1.operations)
          (insert_record answer rid body t s).2.rows
        ≡ undo_all t.trx_id t.recovering (reverse t.operations) s.rows)
      × Kept t (insert_record answer rid body t s).1
unfolding insert_record
undo_inserted answer rid body t s h = elim (Bool-cases (ob_succ answer)) [
  | inl y ↦ rw y (
    undo_all-last t.trx_id t.recovering t.operations (record { kind = insert; row = rid })
        (update_row rid
          (some (record { begin_xid = neg t.trx_id; end_xid = max_trx_id; body = body })) s.rows)
        s.rows
        (undo_insert t.trx_id t.recovering rid
          (record { begin_xid = neg t.trx_id; end_xid = max_trx_id; body = body }) s.rows refl
          (h y)),
    (refl, refl),
  )
  | inr n ↦ rw n (refl, (refl, refl))
]

abbrev pub Undone : MvccTrx → System → MvccTrx → System → Type 0
Undone t s t' s' =
    (undo_all t'.trx_id t'.recovering (reverse t'.operations) s'.rows
      ≡ undo_all t.trx_id t.recovering (reverse t.operations) s.rows)
    × Kept t t'

Undone-step :
    (t t' t'' : MvccTrx) (s s' s'' : System)
    → Undone t s t' s'
    → (undo_all t'.trx_id t'.recovering (reverse t''.operations) s''.rows
        ≡ undo_all t'.trx_id t'.recovering (reverse t'.operations) s'.rows)
      × Kept t' t''
    → Undone t s t'' s''
Undone-step t t' t'' s s' s'' (e, k) (e', k') = (
  ap (λ (x : ℤ). undo_all x t''.recovering (reverse t''.operations) s''.rows) k'.0
      ∙ (ap (λ (x : Bool). undo_all t'.trx_id x (reverse t''.operations) s''.rows) k'.1 ∙ (e' ∙ e)),
  (k'.0 ∙ k.0, k'.1 ∙ k.1),
)

pub undone :
    (t : MvccTrx) (s : System) {t' : MvccTrx} {s' : System} → Runs t s t' s' → Undone t s t' s'
undone t s start = (refl, (refl, refl))
undone t s (inserts {t'} {s'} answer rid body runs h) =
    Undone-step t t' (insert_record answer rid body t' s').1 s s'
      (insert_record answer rid body t' s').2 (undone t s runs)
      (undo_inserted answer rid body t' s' h)
undone t s (deletes {t'} {s'} rid runs fresh) =
    Undone-step t t' (delete_record rid t' s').1 s s' (delete_record rid t' s').2 (undone t s runs)
      (unfold delete_record in undo_delete_found rid t' s' (s'.rows rid) refl fresh)

-- A transaction with a positive id and no operations yet inserts into free places and removes rows that no transaction
-- has removed, each call as it may end. Then its rollback succeeds: every row of every table is as
-- it was before, the transaction has no operations and is not started, and the log gets one entry
-- for the rollback unless the transaction is being recovered.
pub rollback_lem :
    (id : ℕ) (t : MvccTrx) (s : System) (t' : MvccTrx) (s' : System)
    → 0 < id
    → t.trx_id ≡ pos id
    → t.operations ≡ []
    → Runs t s t' s'
    → rollback t' s'
      ≡ some (
        success,
        record t' { started = false; operations = [] },
        record s' {
          rows = s.rows;
          log = if t'.recovering then s'.log else s'.log ++ (rollback_log t'.trx_id ∷ []);
        },
      )
unfolding rollback
rollback_lem id t s t' s' p i e runs =
    let h : undo_all t'.trx_id t'.recovering (reverse t'.operations) s'.rows ≡ some s.rows =
      (undone t s runs).0
      ∙ ap (λ (o : List Operation). undo_all t.trx_id t.recovering (reverse o) s.rows) e
      ∙ (unfold undo_all in refl) in
    let valid : ltb_ℤ (pos 0) t'.trx_id ≡ true = rw ((undone t s runs).1.0, i) (ground arith) in
    rw (h, valid) refl
