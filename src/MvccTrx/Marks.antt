-- ===== src/MvccTrx/Marks.antt =====
-- The marks that the operations of a transaction leave in the rows, and what a commit makes of them.
use mathlib.Core.Option
use mathlib.Core.Path.{fun_ext, subst}
use my_mini_ob.Base.{
  true, false, ◌≡◌, sym, ◌∙◌, ap, Option, none, some, List, [], ◌∷◌, ◌++◌, arith, Bool-cases, inl,
  inr, refl, if◌then◌else◌,
}
use my_mini_ob.Base.Int.{ℤ, neg, eq_ℤ}
use my_mini_ob.MvccTrx.{
  RowId, same_row, Row, Rows, update_row, OperationType, insert, delete, update, undefined,
  Operation, commit_found, commit_operation, commit_all,
}
use my_mini_ob.MvccTrx.Rows.{update_row-same, same_row→≡}
use my_mini_ob.MvccTrx.Rollback.{eq_ℤ-refl}

-- changes at two places do not disturb each other
update_row-commute :
    (a b : RowId) (v w : Option Row) (rows : Rows)
    → same_row a b ≡ false
    → update_row a v (update_row b w rows) ≡ update_row b w (update_row a v rows)
update_row-commute a b v w rows d = fun_ext (λ q. ground arith)

update_row-other :
    (a b : RowId) (v : Option Row) (rows : Rows)
    → same_row a b ≡ false
    → update_row b v rows a ≡ rows a
update_row-other a b v rows d = ground arith

-- a later change at a place hides an earlier one
update_row-twice :
    (a : RowId) (v w : Option Row) (rows : Rows)
    → update_row a v (update_row a w rows) ≡ update_row a v rows
update_row-twice a v w rows = fun_ext (λ q. ground arith)

-- a row with its marks of transaction `id` replaced by `c`
unfoldable pub stamp : ℤ → ℤ → Row → Row
stamp id c r = record r {
  begin_xid = if eq_ℤ r.begin_xid (neg id) then c else r.begin_xid;
  end_xid = if eq_ℤ r.end_xid (neg id) then c else r.end_xid;
}

abbrev pub stamp_rows : ℤ → ℤ → Rows → Rows
stamp_rows id c rows q = Option.map (stamp id c) (rows q)

abbrev pub IsUnmarked : ℤ → Row → Type 0
IsUnmarked id r = (eq_ℤ r.begin_xid (neg id) ≡ false) × (eq_ℤ r.end_xid (neg id) ≡ false)

abbrev pub Unmarked : ℤ → Option Row → Type 0
Unmarked id none = Unit
Unmarked id (some r) = IsUnmarked id r

module _ (id c : ℤ) (other : eq_ℤ c (neg id) ≡ false) where
  -- the operations, in order, find their rows with their marks, and leave none
  abbrev pub Commits : List Operation → Rows → Type 0
  Commits [] rows = (q : RowId) → Unmarked id (rows q)
  Commits (op ∷ ops) rows =
      (rows' : Rows) × (commit_operation id c false op rows ≡ some rows')
      × (stamp_rows id c rows' ≡ stamp_rows id c rows)
      × Commits ops rows'

  stamp-IsUnmarked : (r : Row) → IsUnmarked id r → stamp id c r ≡ r
  unfolding stamp
  stamp-IsUnmarked r (b, e) = ground (arith, b, e)

  Unmarked-map : (o : Option Row) → Unmarked id o → o ≡ Option.map (stamp id c) o
  Unmarked-map none h = refl
  Unmarked-map (some r) h = ap (λ (x : Row). some x) (sym (stamp-IsUnmarked r h))

  pub commit_all-Commits :
      (ops : List Operation) (rows : Rows)
      → Commits ops rows
      → commit_all id c false ops rows ≡ some (stamp_rows id c rows)
  unfolding commit_all
  commit_all-Commits [] rows h =
      ap (λ (x : Rows). some x) (fun_ext (λ q. Unmarked-map (rows q) (h q)))
  commit_all-Commits (op ∷ ops) rows (rows', e, s, h) =
      rw e (commit_all-Commits ops rows' h ∙ ap (λ (x : Rows). some x) s)

  -- one operation changes the row at its place, whatever the other rows are
  commit_found-updates :
      (kind : OperationType) (rid : RowId) (o : Option Row) (rows rows' : Rows)
      → commit_found id c false kind rid o rows ≡ some rows'
      → (w : Row) × (rows' ≡ update_row rid (some w) rows)
        × ((rows2 : Rows)
            → commit_found id c false kind rid o rows2 ≡ some (update_row rid (some w) rows2))
  commit_found-updates insert rid (some r) rows rows' e =
      (record r { begin_xid = c }, ground arith, λ rows2. ground arith)
  commit_found-updates delete rid (some r) rows rows' e =
      (record r { end_xid = c }, ground arith, λ rows2. ground arith)
  commit_found-updates insert rid none rows rows' e = absurd (ground arith)
  commit_found-updates delete rid none rows rows' e = absurd (ground arith)
  commit_found-updates update rid o rows rows' e = absurd (ground arith)
  commit_found-updates undefined rid o rows rows' e = absurd (ground arith)

  commit_operation-elsewhere :
      (op : Operation) (rid : RowId) (v : Option Row) (rows rows' : Rows)
      → same_row op.row rid ≡ false
      → commit_operation id c false op rows ≡ some rows'
      → (commit_operation id c false op (update_row rid v rows) ≡ some (update_row rid v rows'))
        × (rows' rid ≡ rows rid)
  unfolding commit_operation
  commit_operation-elsewhere op rid v rows rows' d e =
      let u = commit_found-updates op.kind op.row (rows op.row) rows rows' e in
      (
        rw (update_row-other op.row rid v rows d, u.1)
            (u.2 (update_row rid v rows)
              ∙ ap (λ (x : Rows). some x) (update_row-commute op.row rid (some u.0) v rows d)),
        rw u.1 (ground (arith, d)),
      )

  stamp_rows-update :
      (rid : RowId) (v : Option Row) (rows rows' : Rows)
      → stamp_rows id c rows ≡ stamp_rows id c rows'
      → stamp_rows id c (update_row rid v rows) ≡ stamp_rows id c (update_row rid v rows')
  stamp_rows-update rid v rows rows' s = fun_ext (λ q. elim (Bool-cases (same_row rid q)) [
    | inl y ↦ rw y refl
    | inr n ↦ rw n (ap (λ (f : Rows). f q) s)
  ])

  commit_found-none :
      (kind : OperationType) (rid : RowId) (rows : Rows)
      → commit_found id c false kind rid none rows ≡ none
  commit_found-none insert rid rows = refl
  commit_found-none delete rid rows = refl
  commit_found-none update rid rows = refl
  commit_found-none undefined rid rows = refl

  commit_operation-none :
      (op : Operation) (rows rows' : Rows)
      → rows op.row ≡ none
      → commit_operation id c false op rows ≡ some rows'
      → ⊥
  unfolding commit_operation
  commit_operation-none op rows rows' h e =
      let n : commit_operation id c false op rows ≡ none =
        rw h (commit_found-none op.kind op.row rows) in
      cc

  -- the last operation leaves no mark in its row
  Commits-last :
      (op : Operation) (rows : Rows) (r r2 : Row)
      → commit_operation id c false op (update_row op.row (some r) rows)
        ≡ some (update_row op.row (some r2) (update_row op.row (some r) rows))
      → stamp id c r2 ≡ stamp id c r
      → IsUnmarked id r2
      → Commits [] rows
      → Commits (op ∷ []) (update_row op.row (some r) rows)
  Commits-last op rows r r2 e s u h = (
    update_row op.row (some r2) (update_row op.row (some r) rows),
    e,
    fun_ext (λ q. elim (Bool-cases (same_row op.row q)) [
      | inl y ↦ rw y (ap (λ (x : Row). some x) s)
      | inr n ↦ rw n refl
    ]),
    λ q. elim (Bool-cases (same_row op.row q)) [ inl y ↦ rw y u | inr n ↦ rw n (h q) ],
  )

  commit_insert-found :
      (rid : RowId) (r : Row) (rows : Rows)
      → r.begin_xid ≡ neg id
      → commit_operation id c false
          (record { kind = insert; row = rid })
          (update_row rid (some r) rows)
        ≡ some (update_row rid (some (record r { begin_xid = c })) (update_row rid (some r) rows))
  unfolding commit_operation
  commit_insert-found rid r rows b =
      let mark : eq_ℤ r.begin_xid (neg id) ≡ true = rw b (eq_ℤ-refl (neg id)) in
      rw (update_row-same rid (some r) rows, mark) refl

  commit_delete-found :
      (rid : RowId) (r : Row) (rows : Rows)
      → r.end_xid ≡ neg id
      → commit_operation id c false
          (record { kind = delete; row = rid })
          (update_row rid (some r) rows)
        ≡ some (update_row rid (some (record r { end_xid = c })) (update_row rid (some r) rows))
  unfolding commit_operation
  commit_delete-found rid r rows b =
      let mark : eq_ℤ r.end_xid (neg id) ≡ true = rw b (eq_ℤ-refl (neg id)) in
      rw (update_row-same rid (some r) rows, mark) refl

  stamp-begin :
      (r : Row)
      → eq_ℤ r.begin_xid (neg id) ≡ true
      → stamp id c (record r { begin_xid = c }) ≡ stamp id c r
  unfolding stamp
  stamp-begin r mark = ground (arith, mark, other)

  stamp-end :
      (r : Row)
      → eq_ℤ r.end_xid (neg id) ≡ true
      → stamp id c (record r { end_xid = c }) ≡ stamp id c r
  unfolding stamp
  stamp-end r mark = ground (arith, mark, other)

  marked : (x : ℤ) → x ≡ neg id → eq_ℤ x (neg id) ≡ true
  marked x e = rw e (eq_ℤ-refl (neg id))

  -- a free place gets a row of the transaction
  pub Commits-insert :
      (ops : List Operation) (rows : Rows) (rid : RowId) (r : Row)
      → r.begin_xid ≡ neg id
      → eq_ℤ r.end_xid (neg id) ≡ false
      → rows rid ≡ none
      → Commits ops rows
      → Commits (ops ++ (record { kind = insert; row = rid } ∷ [])) (update_row rid (some r) rows)
  Commits-insert [] rows rid r b e free h =
      Commits-last (record { kind = insert; row = rid }) rows r (record r { begin_xid = c })
        (commit_insert-found rid r rows b) (stamp-begin r (marked r.begin_xid b)) (other, e) h
  Commits-insert (op ∷ ops) rows rid r b e free (rows', f, s, h) =
      elim (Bool-cases (same_row op.row rid)) [
        | inl y ↦ absurd (
            commit_operation-none op rows rows'
              (ap rows (same_row→≡ {a = op.row} {b = rid} y) ∙ free) f)
        | inr d ↦
            let u = commit_operation-elsewhere op rid (some r) rows rows' d f in
            (
              update_row rid (some r) rows',
              u.0,
              stamp_rows-update rid (some r) rows' rows s,
              Commits-insert ops rows' rid r b e (u.1 ∙ free) h,
            )
      ]

  commit_found-same :
      (kind : OperationType) (rid : RowId) (r : Row) (rows rows' : Rows)
      → eq_ℤ r.end_xid (neg id) ≡ false
      → commit_found id c false kind rid (some r) rows ≡ some rows'
      → (kind ≡ insert)
        × (eq_ℤ r.begin_xid (neg id) ≡ true)
        × (rows' ≡ update_row rid (some (record r { begin_xid = c })) rows)
  commit_found-same insert rid r rows rows' e f = (refl, ground arith, ground arith)
  commit_found-same delete rid r rows rows' e f = absurd (ground arith)
  commit_found-same update rid r rows rows' e f = absurd (ground arith)
  commit_found-same undefined rid r rows rows' e f = absurd (ground arith)

  commit_operation-same :
      (op : Operation) (r v : Row) (rows rows' : Rows)
      → eq_ℤ r.end_xid (neg id) ≡ false
      → rows op.row ≡ some r
      → v.begin_xid ≡ r.begin_xid
      → commit_operation id c false op rows ≡ some rows'
      → (commit_operation id c false op (update_row op.row (some v) rows)
          ≡ some (update_row op.row (some (record v { begin_xid = c })) rows'))
        × (rows' op.row ≡ some (record r { begin_xid = c }))
        × (eq_ℤ r.begin_xid (neg id) ≡ true)
  unfolding commit_operation
  commit_operation-same op r v rows rows' e g b f =
      let i = commit_found-same op.kind op.row r rows rows' e (rw (sym g) f) in
      let mark : eq_ℤ v.begin_xid (neg id) ≡ true = rw b i.1 in
      let w = some (record v { begin_xid = c }) in
      (
        rw
            (
              update_row-same op.row (some v) rows,
              i.0,
              mark,
              i.2,
              update_row-twice op.row w (some v) rows,
              update_row-twice op.row w (some (record r { begin_xid = c })) rows,
            )
            refl,
        rw i.2 (update_row-same op.row (some (record r { begin_xid = c })) rows),
        i.1,
      )

  stamp_rows-same_stamp :
      (rid : RowId) (v w : Row) (rows : Rows)
      → stamp id c v ≡ stamp id c w
      → stamp_rows id c (update_row rid (some v) rows)
        ≡ stamp_rows id c (update_row rid (some w) rows)
  stamp_rows-same_stamp rid v w rows s = fun_ext (λ q. elim (Bool-cases (same_row rid q)) [
    | inl y ↦ rw y (ap (λ (x : Row). some x) s)
    | inr n ↦ rw n refl
  ])

  -- a row that the transaction sees is removed
  pub Commits-delete :
      (ops : List Operation) (rows : Rows) (rid : RowId) (r : Row)
      → eq_ℤ r.end_xid (neg id) ≡ false
      → rows rid ≡ some r
      → Commits ops rows
      → Commits
          (ops ++ (record { kind = delete; row = rid } ∷ []))
          (update_row rid (some (record r { end_xid = neg id })) rows)
  Commits-delete [] rows rid r e there h =
      let v = record r { end_xid = neg id } in
      let u : IsUnmarked id r = rw there at (h rid) in
      Commits-last (record { kind = delete; row = rid }) rows v (record v { end_xid = c })
        (commit_delete-found rid v rows refl) (stamp-end v (marked v.end_xid refl)) (u.0, other) h
  Commits-delete (op ∷ ops) rows rid r e there (rows', f, s, h) =
      let v = record r { end_xid = neg id } in
      elim (Bool-cases (same_row op.row rid)) [
        | inl y ↦
            let p : op.row ≡ rid = same_row→≡ {a = op.row} {b = rid} y in
            let k = commit_operation-same op r v rows rows' e (ap rows p ∙ there) refl f in
            let v' = record v { begin_xid = c } in
            let step : Commits (op ∷ (ops ++ (record { kind = delete; row = op.row } ∷ [])))
                (update_row op.row (some v) rows) =
              (
                update_row op.row (some v') rows',
                k.0,
                stamp_rows-update op.row (some v') rows' rows s
                    ∙ stamp_rows-same_stamp op.row v' v rows (stamp-begin v k.2),
                Commits-delete ops rows' op.row (record r { begin_xid = c }) e k.1 h,
              ) in
            subst
              (λ (x : RowId).
                Commits (op ∷ (ops ++ (record { kind = delete; row = x } ∷ [])))
                  (update_row x (some v) rows))
              p step
        | inr d ↦
            let u = commit_operation-elsewhere op rid (some v) rows rows' d f in
            (
              update_row rid (some v) rows',
              u.0,
              stamp_rows-update rid (some v) rows' rows s,
              Commits-delete ops rows' rid r e (u.1 ∙ there) h,
            )
      ]
