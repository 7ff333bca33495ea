-- ===== src/MvccTrx/Rows.antt =====
-- The map of rows of MvccTrx: changing a place twice.
use my_mini_ob.Base.{◌≡◌, true, Option, ap, Bool-cases, inl, inr, arith}
use my_mini_ob.MvccTrx.{RowId, same_row, Row, Rows, update_row}
use mathlib.Core.Path.{fun_ext}

pub same_row_refl : (a : RowId) → same_row a a ≡ true
same_row_refl a = ground arith

pub same_row→≡ : {a b : RowId} → same_row a b ≡ true → a ≡ b
same_row→≡ {a} {b} h = ground arith

pub update_row-same : (a : RowId) (v : Option Row) (rows : Rows) → update_row a v rows a ≡ v
update_row-same a v rows = ground (arith, same_row_refl a)

-- putting back what a place held undoes a change there
pub update_row-back :
    (a : RowId) (v w : Option Row) (rows : Rows)
    → rows a ≡ w
    → update_row a w (update_row a v rows) ≡ rows
update_row-back a v w rows h = fun_ext (λ q. elim (Bool-cases (same_row a q)) [
  | inl y ↦ ground (arith, h, ap rows (same_row→≡ {a = a} {b = q} y))
  | inr n ↦ ground arith
])
