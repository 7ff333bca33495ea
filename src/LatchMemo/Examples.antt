-- ===== src/LatchMemo/Examples.antt =====
-- A memo at concrete inputs.
use my_mini_ob.Base.{◌≡◌, refl, Bool, Option, none, some, List, [], ◌∷◌}
use my_mini_ob.LatchMemo.{
  exclusive, frame, unpin_page, write_unlatch, unlock, LatchMemoItem, LatchMemo, new_memo, release,
  Operation, op_get_page, op_dispose_page, op_latch, op_xlatch_lock, op_release_to, operate_all,
  get_page, latch, xlatch_lock, release_to, memo_dispose_page, pin, get_this_page, write_latch,
  lock_exclusive, dispose, Call,
}
use my_mini_ob.LatchMemo.Balance.{taken, given}
use my_mini_ob.LatchMemo.Release.{release_lem}

-- the root lock, a page, its latch, and the lock given back; the page is to be disposed of
abbrev descent : List Operation
descent =
    op_xlatch_lock 1
    ∷ op_get_page (some 7)
    ∷ op_latch 7 exclusive
    ∷ op_get_page none
    ∷ op_release_to 1
    ∷ op_dispose_page 7
    ∷ []

abbrev held : LatchMemo
held = record {
  items = record { type = pin; on = frame 7 } ∷ record { type = exclusive; on = frame 7 } ∷ [];
  disposed_pages = 7 ∷ [];
  calls = unlock 1 ∷ write_latch 7 ∷ get_this_page 7 ∷ lock_exclusive 1 ∷ [];
}

held_after_descent : operate_all descent new_memo ≡ some held
unfolding get_page latch xlatch_lock release_to memo_dispose_page
held_after_descent = refl

release_lem_example :
    (memo' : LatchMemo) × ((release held ≡ some memo')
      × ((memo'.items ≡ [])
          × ((memo'.disposed_pages ≡ [])
              × ((t : LatchMemoItem → Bool) → given t memo'.calls ≡ taken t memo'.calls))))
release_lem_example = release_lem descent held held_after_descent

abbrev calls_of : Option LatchMemo → List Call
calls_of none = []
calls_of (some memo) = memo.calls

-- the pin and the latch go in the order opposite to the one in which they came, and then the page
last_calls :
    calls_of (release held)
    ≡ dispose 7
      ∷ unpin_page 7
      ∷ write_unlatch 7
      ∷ unlock 1
      ∷ write_latch 7
      ∷ get_this_page 7
      ∷ lock_exclusive 1
      ∷ []
unfolding release
last_calls = refl
