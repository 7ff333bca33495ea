-- ===== src/MvccTrx/Commit.antt =====
-- The commit of a transaction after any run of insertions and removals.
use my_mini_ob.Base.{
  ◌&&◌, ℕ, true, false, ◌≡◌, ◌<◌, sym, ◌∙◌, ap, Option, none, some, List, [], ◌∷◌, ◌++◌, arith,
  Bool-cases, inl, inr, refl,
}
use mathlib.Core.Path.{subst}
use my_mini_ob.Base.Int.{ltb_ℤ, ℤ, pos, neg, eq_ℤ}
use my_mini_ob.Rc.{Rc, success, ob_succ}
use my_mini_ob.MvccTrx.{
  RowId, Row, commit_log, System, MvccTrx, max_trx_id, insert_record, delete_found, delete_record,
  visit_record, read_write, commit_with_trx_id,
}
use my_mini_ob.MvccTrx.Rollback.{Runs, start, inserts, deletes, undone}
use my_mini_ob.MvccTrx.Marks.{
  Commits, Commits-insert, Commits-delete, commit_all-Commits, stamp_rows, Unmarked,
}

-- the invariant of a run, for a commit with number `c`
record IsReady (c : ℤ) (t : MvccTrx) (s : System) : Type 0 where
  other : eq_ℤ c (neg t.trx_id) ≡ false
  far : eq_ℤ max_trx_id (neg t.trx_id) ≡ false
  commits : Commits t.trx_id c other t.operations s.rows

insert_record-IsReady :
    (c : ℤ) (answer : Rc) (rid : RowId) (body : List ℕ) (t : MvccTrx) (s : System)
    → (ob_succ answer ≡ true → s.rows rid ≡ none)
    → IsReady c t s
    → IsReady c (insert_record answer rid body t s).1 (insert_record answer rid body t s).2
unfolding insert_record
insert_record-IsReady c answer rid body t s free v = elim (Bool-cases (ob_succ answer)) [
  | inr n ↦ rw n v
  | inl y ↦ rw y (record {
    other = v.other;
    far = v.far;
    commits =
        Commits-insert t.trx_id c v.other t.operations s.rows rid
          (record { begin_xid = neg t.trx_id; end_xid = max_trx_id; body = body }) refl v.far
          (free y) v.commits;
  })
]

delete_found-IsReady :
    (c : ℤ) (rid : RowId) (o : Option Row) (t : MvccTrx) (s : System)
    → s.rows rid ≡ o
    → ((r : Row)
        → o ≡ some r
        → ob_succ (visit_record t.trx_id r read_write) ≡ true
        → r.end_xid ≡ max_trx_id)
    → IsReady c t s
    → IsReady c (delete_found rid o t s).1 (delete_found rid o t s).2
delete_found-IsReady c rid none t s h fresh v = v
delete_found-IsReady c rid (some r) t s h fresh v =
    elim (Bool-cases (ob_succ (visit_record t.trx_id r read_write))) [
      | inr n ↦ rw n v
      | inl y ↦ rw y (record {
        other = v.other;
        far = v.far;
        commits =
            Commits-delete t.trx_id c v.other t.operations s.rows rid r
              (ap (λ (x : ℤ). eq_ℤ x (neg t.trx_id)) (fresh r refl y) ∙ v.far) h v.commits;
      })
    ]

delete_record-IsReady :
    (c : ℤ) (rid : RowId) (t : MvccTrx) (s : System)
    → ((r : Row)
        → s.rows rid ≡ some r
        → ob_succ (visit_record t.trx_id r read_write) ≡ true
        → r.end_xid ≡ max_trx_id)
    → IsReady c t s
    → IsReady c (delete_record rid t s).1 (delete_record rid t s).2
unfolding delete_record
delete_record-IsReady c rid t s fresh v = delete_found-IsReady c rid (s.rows rid) t s refl fresh v

run-IsReady :
    (c : ℤ) (t : MvccTrx) (s : System) {t' : MvccTrx} {s' : System}
    → IsReady c t s
    → Runs t s t' s'
    → IsReady c t' s'
run-IsReady c t s v start = v
run-IsReady c t s v (inserts {t'} {s'} answer rid body runs free) =
    insert_record-IsReady c answer rid body t' s' free (run-IsReady c t s v runs)
run-IsReady c t s v (deletes {t'} {s'} rid runs fresh) =
    delete_record-IsReady c rid t' s' fresh (run-IsReady c t s v runs)

-- A transaction with a positive id, with no operations and no mark of its id in any row, inserts
-- into free places and removes rows that no transaction has removed, each call as it may end. Then
-- its commit with a later number succeeds: in every row of every table its marks become that
-- number and nothing else changes, the transaction has no operations and is not started, and the log
-- gets one entry for the commit.
pub commit_with_trx_id_lem :
    (commit_id id : ℕ) (t : MvccTrx) (s : System) (t' : MvccTrx) (s' : System)
    → 0 < id
    → id < commit_id
    → t.trx_id ≡ pos id
    → t.recovering ≡ false
    → t.operations ≡ []
    → ((q : RowId) → Unmarked (pos id) (s.rows q))
    → Runs t s t' s'
    → commit_with_trx_id (pos commit_id) t' s'
      ≡ some (
        success,
        record t' { started = false; operations = [] },
        record s' {
          rows = stamp_rows t'.trx_id (pos commit_id) s'.rows;
          log = s'.log ++ (commit_log t'.trx_id (pos commit_id) ∷ []);
        },
      )
unfolding commit_with_trx_id
commit_with_trx_id_lem commit_id id t s t' s' h h' i n o u runs =
    let first : IsReady (pos commit_id) t s = record {
      other = rw i (ground arith);
      far = rw i (ground arith);
      commits = rw o (λ q. subst (λ (x : ℤ). Unmarked x (s.rows q)) (sym i) (u q));
    } in
    let v = run-IsReady (pos commit_id) t s first runs in
    let quiet : t'.recovering ≡ false = (undone t s runs).1.1 ∙ n in
    let all =
      commit_all-Commits t'.trx_id (pos commit_id) v.other t'.operations s'.rows v.commits in
    let valid : ltb_ℤ (pos 0) t'.trx_id && ltb_ℤ t'.trx_id (pos commit_id) ≡ true =
      rw ((undone t s runs).1.0, i) (ground arith) in
    rw (quiet, all, valid) refl
