-- ===== src/RecordReplay.antt =====
-- src/observer/storage/record/record_log.cpp, RecordLogReplayer: the redo of record log entries on the
-- page that they name. What `get_buffer_pool` and `get_this_page` answer for a pool's id and a page's
-- number is a map, which the replay changes. The entry is one of the record manager with a whole header.
mod Examples
pub mod Change
pub mod Redo
use my_mini_ob.Base.{ℕ, ◌&&◌, Option, none, some, List, [], ◌∷◌, ◌==◌, leb, if◌then◌else◌}
use my_mini_ob.Rc.{Rc, success, internal, ob_succ}
use my_mini_ob.RecordLog.{
  RecordOperation, RecordLogHeader, LogEntry, LogHandler, vacuous, RecordLogHandler,
}
use my_mini_ob.RecordPage.{
  Page, Handler, Rid, init_empty_page, insert_record, delete_record, update_record,
}

-- `record_page_handler.init(...)` of a page that can be read: the log handler gets the pool's id and
-- the page's record size
abbrev pub open_page : LogHandler → ℕ → Page → Handler
open_page log pool_id p = record {
  page = p;
  log = record { log_handler = log; buffer_pool_id = pool_id; record_size = p.record_real_size };
}

-- the code and the page that a fallible change leaves; a fault stays a fault
abbrev result : Rc × Handler → Option (Rc × Page)
result (rc, h) = some (rc, h.page)

abbrev insert_result : Option (Rc × Option Rid × Handler) → Option (Rc × Page)
insert_result none = none
insert_result (some (rc, rid, h)) = some (rc, h.page)

-- `replay_init_page`, `replay_insert`, `replay_delete` and `replay_update`
unfoldable pub replay_operation : RecordOperation → RecordLogHeader → Page → Option (Rc × Page)
unfolding init_empty_page insert_record delete_record update_record
replay_operation RecordOperation.init_page e p =
    result (init_empty_page e.slot_num (open_page vacuous e.buffer_pool_id p))
replay_operation RecordOperation.insert e p =
    insert_result (insert_record e.bytes (open_page vacuous e.buffer_pool_id p))
replay_operation RecordOperation.delete e p = result (
    delete_record (record { page_num = e.page_num; slot_num = e.slot_num })
      (open_page vacuous e.buffer_pool_id p))
replay_operation RecordOperation.update e p = result (
    update_record (record { page_num = e.page_num; slot_num = e.slot_num }) e.bytes
      (open_page vacuous e.buffer_pool_id p))

-- `if (OB_FAIL(rc)) return rc; frame->set_lsn(entry.lsn())`
abbrev pub finish : ℕ → Option (Rc × Page) → Option (Rc × Page)
finish lsn none = none
finish lsn (some (rc, p)) =
    if ob_succ rc then some (success, record p { lsn = lsn }) else some (rc, p)

-- the page of a frame, or the code with which it is refused
pub data Fetched : Type 0 where
  found : Page → Fetched
  refused : Rc → Fetched

-- the pages of the buffer pools, by the pool's id and the page's number
abbrev pub Pages : Type 0
Pages = ℕ → ℕ → Fetched

abbrev pub put : ℕ → ℕ → Page → Pages → Pages
put pool page_num p pages pool' page_num' =
    if pool == pool' && page_num == page_num' then found p else pages pool' page_num'

abbrev pub stored : RecordLogHeader → Pages → Option (Rc × Page) → Option (Rc × Pages)
stored header pages none = none
stored header pages (some (rc, p)) = some (rc, put header.buffer_pool_id header.page_num p pages)

-- the test of the page's number and the operation, on the page that was fetched
abbrev pub replay_on : LogEntry → Pages → Fetched → Option (Rc × Pages)
replay_on entry pages (refused rc) = some (rc, pages)
replay_on entry pages (found p) =
    if leb entry.lsn p.lsn
    then some (success, pages)
    else stored entry.payload pages
        (finish entry.lsn (replay_operation entry.payload.operation_type entry.payload p))

unfoldable pub replay : LogEntry → Pages → Option (Rc × Pages)
unfolding replay_operation
replay entry pages =
    replay_on entry pages (pages entry.payload.buffer_pool_id entry.payload.page_num)

-- the next entry, if this one succeeded; `then_replay` is the call for it
abbrev then_replay : Option (Rc × Pages) → (Pages → Option (Rc × Pages)) → Option (Rc × Pages)
then_replay none k = none
then_replay (some (rc, pages)) k = if ob_succ rc then k pages else some (rc, pages)

-- the entries in order, until one fails
unfoldable pub replay_all : List LogEntry → Pages → Option (Rc × Pages)
unfolding replay
replay_all [] pages = some (success, pages)
replay_all (e ∷ es) pages = then_replay (replay e pages) (λ q. replay_all es q)
