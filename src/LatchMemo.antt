-- ===== src/LatchMemo.antt =====
-- src/observer/storage/index/latch_memo.{h,cpp}: what a mini-transaction of the B+ tree has pinned and
-- latched. The frames, the locks and the buffer pool are their numbers, and what they answer is an
-- argument; the calls made on them are kept, the newest first. An ASSERT that fails is `none`.
mod Examples
pub mod Balance
pub mod Release
use my_mini_ob.Base.{
  ℕ, zero, suc, Bool, true, false, Option, none, some, List, [], ◌∷◌, ◌++◌, ◌==◌, leb,
  if◌then◌else◌, drop, length, get_elem?,
}

pub data LatchMemoType : Type 0 where
  nothing shared exclusive pin : LatchMemoType

-- the pointer of an item that is set
pub data Latched : Type 0 where
  frame lock : ℕ → Latched

pub record LatchMemoItem : Type 0 where
  pub type : LatchMemoType
  pub on : Latched

pub data Call : Type 0 where
  get_this_page unpin_page write_latch write_unlatch read_latch read_unlatch : ℕ → Call
  lock_exclusive unlock lock_shared unlock_shared dispose : ℕ → Call

pub record LatchMemo : Type 0 where
  pub items : List LatchMemoItem
  pub disposed_pages : List ℕ
  pub calls : List Call

abbrev pub new_memo : LatchMemo
new_memo = record { items = []; disposed_pages = []; calls = [] }

-- `items_.emplace_back` after a call
abbrev pub emplace_back : LatchMemoType → Latched → Call → LatchMemo → LatchMemo
emplace_back t on call memo = record memo {
  items = memo.items ++ (record { type = t; on = on } ∷ []);
  calls = call ∷ memo.calls;
}

-- the pool's answer is the frame, or none after an error
unfoldable pub get_page : Option ℕ → LatchMemo → LatchMemo
get_page none memo = memo
get_page (some f) memo = emplace_back pin (frame f) (get_this_page f) memo

-- the pool's answer is the frame and its pin count, or none after an error
unfoldable pub memo_allocate_page : Option (ℕ × ℕ) → LatchMemo → Option LatchMemo
memo_allocate_page none memo = some memo
memo_allocate_page (some (f, pin_count)) memo =
    if pin_count == 1 then some (emplace_back pin (frame f) (get_this_page f) memo) else none

unfoldable pub memo_dispose_page : ℕ → LatchMemo → LatchMemo
memo_dispose_page page_num memo = record memo {
  disposed_pages = memo.disposed_pages ++ (page_num ∷ []);
}

unfoldable pub latch : ℕ → LatchMemoType → LatchMemo → Option LatchMemo
latch f nothing memo = none
latch f shared memo = some (emplace_back shared (frame f) (read_latch f) memo)
latch f exclusive memo = some (emplace_back exclusive (frame f) (write_latch f) memo)
latch f pin memo = none

-- `try_read_latch` of the frame answers whether it has the latch
unfoldable pub try_slatch : Bool → ℕ → LatchMemo → LatchMemo
try_slatch false f memo = memo
try_slatch true f memo = emplace_back shared (frame f) (read_latch f) memo

unfoldable pub xlatch_lock : ℕ → LatchMemo → LatchMemo
xlatch_lock l memo = emplace_back exclusive (lock l) (lock_exclusive l) memo

unfoldable pub slatch_lock : ℕ → LatchMemo → LatchMemo
slatch_lock l memo = emplace_back shared (lock l) (lock_shared l) memo

-- `release_item`: the call; the null pointer of a pinned lock would reach `unpin_page`
abbrev pub release_of : LatchMemoType → Latched → Option Call
release_of nothing on = none
release_of shared (frame f) = some (read_unlatch f)
release_of shared (lock l) = some (unlock_shared l)
release_of exclusive (frame f) = some (write_unlatch f)
release_of exclusive (lock l) = some (unlock l)
release_of pin (frame f) = some (unpin_page f)
release_of pin (lock l) = none

unfoldable pub release_item : LatchMemoItem → Option Call
release_item item = release_of item.type item.on

abbrev pub called : Option Call → List Call → Option (List Call)
called none calls = none
called (some call) calls = some (call ∷ calls)

abbrev pub released : Option LatchMemoItem → List Call → Option (List Call)
released none calls = none
released (some item) calls = called (release_item item) calls

abbrev pub and_then {ℓ ℓ'} : {A : Type ℓ} {B : Type ℓ'} → Option A → (A → Option B) → Option B
and_then none f = none
and_then (some a) f = f a

-- the loop of `release_to`, from the item before `i` down
unfoldable pub release_from : ℕ → List LatchMemoItem → List Call → Option (List Call)
unfolding release_item
release_from zero items calls = some calls
release_from (suc i) items calls =
    and_then (released (get_elem? items i) calls) (λ c. release_from i items c)

unfoldable pub release_to : ℕ → LatchMemo → Option LatchMemo
unfolding release_from
release_to point memo =
    let rest = release_from point memo.items memo.calls in
    if leb point (length memo.items)
    then and_then rest (λ c. some (record memo { items = drop point memo.items; calls = c }))
    else none

-- `dispose_page` of the pool for each page
abbrev pub dispose_all : List ℕ → List Call → List Call
dispose_all [] calls = calls
dispose_all (p ∷ ps) calls = dispose_all ps (dispose p ∷ calls)

unfoldable pub release : LatchMemo → Option LatchMemo
unfolding release_to
release memo =
    and_then (release_to (length memo.items) memo)
      (λ m. some (record m { disposed_pages = []; calls = dispose_all m.disposed_pages m.calls }))

-- a call of the memo, with what the pool and the frame answer
pub data Operation : Type 0 where
  op_get_page : Option ℕ → Operation
  op_allocate_page : Option (ℕ × ℕ) → Operation
  op_dispose_page : ℕ → Operation
  op_latch : ℕ → LatchMemoType → Operation
  op_try_slatch : Bool → ℕ → Operation
  op_xlatch_lock op_slatch_lock op_release_to : ℕ → Operation
  op_release : Operation

abbrev pub operate : Operation → LatchMemo → Option LatchMemo
operate (op_get_page answer) memo = some (get_page answer memo)
operate (op_allocate_page answer) memo = memo_allocate_page answer memo
operate (op_dispose_page p) memo = some (memo_dispose_page p memo)
operate (op_latch f t) memo = latch f t memo
operate (op_try_slatch answer f) memo = some (try_slatch answer f memo)
operate (op_xlatch_lock l) memo = some (xlatch_lock l memo)
operate (op_slatch_lock l) memo = some (slatch_lock l memo)
operate (op_release_to point) memo = release_to point memo
operate op_release memo = release memo

abbrev pub operate_all : List Operation → LatchMemo → Option LatchMemo
operate_all [] memo = some memo
operate_all (op ∷ ops) memo = and_then (operate op memo) (λ m. operate_all ops m)
