-- ===== src/RecordFile.antt =====
-- src/observer/storage/record/record_manager.cpp: RecordFileScanner, the records of all pages of a file,
-- over the iterator of the allocated pages and that of the records of a page. What
-- `record_page_handler_.init` answers for a page is a parameter, and the pages do not change during the
-- scan. The filter is the condition filter; a null one passes everything.
mod Examples
pub mod PageScan
pub mod FileScan
pub mod FileHandler
pub mod NewPage
pub mod FileChanges
use my_mini_ob.Base.{
  ℕ, zero, suc, ◌+◌, Bool, true, false, not, Option, none, some, List, [], ◌∷◌, if◌then◌else◌,
}
use my_mini_ob.Rc.{Rc, success, record_eof, ob_succ}
use my_mini_ob.RecordPage.{Page, Record, iterator_init, iterator_next}
use my_mini_ob.BufferPool.{DiskBufferPool, BufferPoolIterator, has_next, next, init}
use my_mini_ob.BufferPool

-- `bp_iterator_`, and the page with the next slot of `record_page_iterator_`, once there is one
pub record RecordFileScanner : Type 0 where
  pub bp_iterator : BufferPoolIterator
  pub page_iterator : Option (Page × Option ℕ)

unfoldable pub open_scan : DiskBufferPool → RecordFileScanner
unfolding init
open_scan p = record { bp_iterator = init p 1; page_iterator = none }

-- `!condition_filter_->filter(next_record_)`
abbrev pub filtered_out : Option (Record → Bool) → Record → Bool
filtered_out none r = false
filtered_out (some filter) r = not (filter r)

-- one round of the loop in a page, with what the later rounds give
abbrev pub fetched :
    Option (Record → Bool)
    → Rc × Option Record × Option ℕ
    → Rc × Option Record × Option ℕ
    → Rc × Option Record × Option ℕ
fetched filter (rc, none, slot) rest = (rc, none, slot)
fetched filter (rc, some r, slot) rest =
    if not (ob_succ rc)
    then (rc, none, slot)
    else if filtered_out filter r
    then rest
    else (rc, some r, slot)

-- `fetch_next_record_in_page`, with the rounds that are left
unfoldable pub fetch_from :
    ℕ → Option (Record → Bool) → Page → Option ℕ → Rc × Option Record × Option ℕ
unfolding iterator_next
fetch_from zero filter p slot = (record_eof, none, slot)
fetch_from (suc rounds) filter p slot =
    let answer = iterator_next p slot in fetched filter answer (fetch_from rounds filter p answer.2)

-- a round takes a slot at least
unfoldable pub fetch_next_record_in_page :
    Option (Record → Bool) → Page → Option ℕ → Rc × Option Record × Option ℕ
unfolding fetch_from
fetch_next_record_in_page filter p slot = fetch_from (p.record_capacity + 2) filter p slot

-- the answer of a page with the scanner after it: at its end the scan goes on
abbrev pub or_next_page :
    Page
    → BufferPoolIterator
    → Rc × Option Record × Option ℕ
    → Rc × Option Record × RecordFileScanner
    → Rc × Option Record × RecordFileScanner
or_next_page p it (rc, some r, slot) rest =
    (rc, some r, record { bp_iterator = it; page_iterator = some (p, slot) })
or_next_page p it (rc, none, slot) rest = rest

-- the scanner at the end of a page
abbrev pub past_page : (ℕ → Rc × Page) → Option ℕ → RecordFileScanner → RecordFileScanner
past_page load none s = s
past_page load (some page_num) s = record s { page_iterator = some ((load page_num).1, none) }

-- the page that `bp_iterator_.next()` gives is opened, or refused
abbrev pub visit_page :
    Option (Record → Bool)
    → (ℕ → Rc × Page)
    → Option ℕ
    → RecordFileScanner
    → Rc × Option Record × RecordFileScanner
    → Rc × Option Record × RecordFileScanner
visit_page filter load none s rest = rest
visit_page filter load (some page_num) s rest =
    let (rc, p) = load page_num in
    if ob_succ rc
    then or_next_page p s.bp_iterator (fetch_next_record_in_page filter p (iterator_init p 0)) rest
    else (rc, none, s)

-- the loop over the pages, with the rounds that are left
unfoldable pub fetch_pages :
    ℕ
    → Option (Record → Bool)
    → (ℕ → Rc × Page)
    → RecordFileScanner
    → Rc × Option Record × RecordFileScanner
unfolding fetch_next_record_in_page iterator_init has_next next
fetch_pages zero filter load s = (record_eof, none, s)
fetch_pages (suc rounds) filter load s =
    let (page_num, it) = next s.bp_iterator in
    let s' = record s { bp_iterator = it } in
    let rest = fetch_pages rounds filter load (past_page load page_num s') in
    if has_next s.bp_iterator
    then visit_page filter load page_num s' rest
    else (record_eof, none, s)

-- the page that the scan is in comes first
abbrev pub current_page :
    Option (Record → Bool)
    → Option (Page × Option ℕ)
    → BufferPoolIterator
    → Rc × Option Record × RecordFileScanner
    → Rc × Option Record × RecordFileScanner
current_page filter none it rest = rest
current_page filter (some (p, slot)) it rest =
    or_next_page p it (fetch_next_record_in_page filter p slot) rest

-- `next`, which is `fetch_next_record`; a round takes a page at least
unfoldable pub next_record :
    Option (Record → Bool)
    → (ℕ → Rc × Page)
    → RecordFileScanner
    → Rc × Option Record × RecordFileScanner
unfolding fetch_pages fetch_next_record_in_page
next_record filter load s =
    current_page filter s.page_iterator s.bp_iterator
      (fetch_pages (s.bp_iterator.bitmap.size + 1) filter load s)

abbrev pub collected : Rc × Option Record → List Record × Rc → List Record × Rc
collected (rc, none) rest = ([], rc)
collected (rc, some r) (rs, end) = (r ∷ rs, end)

-- `while (OB_SUCC(rc = scanner.next(record)))`, with the rounds that are left
unfoldable pub read_all :
    ℕ → Option (Record → Bool) → (ℕ → Rc × Page) → RecordFileScanner → List Record × Rc
unfolding next_record
read_all zero filter load s = ([], success)
read_all (suc rounds) filter load s =
    let answer = next_record filter load s in
    let rest = read_all rounds filter load answer.2 in collected (answer.0, answer.1) rest
