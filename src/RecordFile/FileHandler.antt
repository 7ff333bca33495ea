-- ===== src/RecordFile/FileHandler.antt =====
-- src/observer/storage/record/record_manager.cpp: RecordFileHandler, which chooses the page of a record.
-- What `get_this_page` answers for a page, and what `allocate_page` answers, are parameters. The pages of
-- the file are one map, beside the set of pages with room, which is a list, in the order in which
-- `begin()` gives them.
use my_mini_ob.Base.{ℕ, not, Option, none, some, List, [], ◌∷◌, ◌==◌, if◌then◌else◌}
use my_mini_ob.Rc.{Rc, success, ob_succ}
use my_mini_ob.RecordLog.{LogHandler}
use my_mini_ob.RecordPage.{
  Page, Handler, Rid, Record, is_full, init_empty_page, insert_record, delete_record, get_record,
  update_record,
}

pub record RecordFileHandler : Type 0 where
  pub pages : ℕ → Page
  pub free_pages : List ℕ
  pub log_handler : LogHandler
  pub buffer_pool_id : ℕ

-- `record_page_handler.init` of a page that can be read
abbrev pub handler_of : RecordFileHandler → ℕ → Handler
handler_of f n = record {
  page = f.pages n;
  log = record {
    log_handler = f.log_handler;
    buffer_pool_id = f.buffer_pool_id;
    record_size = (f.pages n).record_real_size;
  };
}

-- the page and the log after a call of the handler of a page
abbrev pub put_page : ℕ → Handler → RecordFileHandler → RecordFileHandler
put_page n h f = record f {
  pages = λ q. if q == n then h.page else f.pages q;
  log_handler = h.log.log_handler;
}

-- `free_pages_.insert`
unfoldable pub add_free_page : ℕ → List ℕ → List ℕ
add_free_page n [] = n ∷ []
add_free_page n (q ∷ qs) = let rest = q ∷ add_free_page n qs in if q == n then q ∷ qs else rest

-- the loop of `init_free_pages` over the pages that the iterator gives, with the set so far
unfoldable pub init_free_pages : (ℕ → Rc) → (ℕ → Page) → List ℕ → List ℕ → Rc × List ℕ
unfolding is_full add_free_page
init_free_pages opens pages [] free = (success, free)
init_free_pages opens pages (n ∷ ns) free =
    let rest =
      init_free_pages opens pages ns
        (if not (is_full (pages n)) then add_free_page n free else free) in
    if ob_succ (opens n) then rest else (opens n, free)

-- The loop over the pages with room: the page found, or the refusal of a page, or neither; and the set
-- without the full pages.
unfoldable pub find_free_page : (ℕ → Rc) → (ℕ → Page) → List ℕ → Rc × Option ℕ × List ℕ
unfolding is_full
find_free_page opens pages [] = (success, none, [])
find_free_page opens pages (n ∷ ns) =
    let rest = find_free_page opens pages ns in
    if not (ob_succ (opens n))
    then (opens n, none, n ∷ ns)
    else if not (is_full (pages n))
    then (success, some n, n ∷ ns)
    else rest

-- the insertion into the page, whatever it answers
abbrev pub inserted_in :
    ℕ
    → RecordFileHandler
    → Option (Rc × Option Rid × Handler)
    → Option (Rc × Option Rid × RecordFileHandler)
inserted_in n f none = none
inserted_in n f (some (rc, rid, h)) = some (rc, rid, put_page n h f)

-- a new page, which may be refused, or may not open
abbrev pub insert_in_new :
    (ℕ → Rc)
    → Rc × ℕ
    → List ℕ
    → ℕ
    → RecordFileHandler
    → Option (Rc × Option Rid × RecordFileHandler)
insert_in_new opens (rc, n) data' record_size f =
    if not (ob_succ rc)
    then some (rc, none, f)
    else if not (ob_succ (opens n))
    then some (opens n, none, f)
    else (let h = (init_empty_page record_size (handler_of f n)).1 in
        let f' = record (put_page n h f) { free_pages = add_free_page n f.free_pages } in
        inserted_in n f' (insert_record data' h))

abbrev pub insert_in_found :
    (ℕ → Rc)
    → Rc × ℕ
    → List ℕ
    → ℕ
    → Rc × Option ℕ
    → RecordFileHandler
    → Option (Rc × Option Rid × RecordFileHandler)
insert_in_found opens allocated data' record_size (rc, some n) f =
    inserted_in n f (insert_record data' (handler_of f n))
insert_in_found opens allocated data' record_size (rc, none) f =
    if not (ob_succ rc)
    then some (rc, none, f)
    else insert_in_new opens allocated data' record_size f

-- `insert_record`
unfoldable pub insert_in_file :
    (ℕ → Rc)
    → Rc × ℕ
    → List ℕ
    → ℕ
    → RecordFileHandler
    → Option (Rc × Option Rid × RecordFileHandler)
unfolding find_free_page add_free_page
insert_in_file opens allocated data' record_size f =
    let (rc, page, ns) = find_free_page opens f.pages f.free_pages in
    insert_in_found opens allocated data' record_size (rc, page) (record f { free_pages = ns })

-- `delete_record`: a page that lost a record has room
unfoldable pub delete_in_file : (ℕ → Rc) → Rid → RecordFileHandler → Rc × RecordFileHandler
unfolding add_free_page
delete_in_file opens rid f =
    let n = rid.page_num in
    let (rc, h) = delete_record rid (handler_of f n) in
    if not (ob_succ (opens n))
    then (opens n, f)
    else if ob_succ rc
    then (rc, record (put_page n h f) { free_pages = add_free_page n f.free_pages })
    else (rc, put_page n h f)

-- `get_record`
unfoldable pub get_in_file : (ℕ → Rc) → Rid → RecordFileHandler → Rc × Option Record
get_in_file opens rid f =
    if ob_succ (opens rid.page_num)
    then get_record rid (f.pages rid.page_num)
    else (opens rid.page_num, none)

-- what `visit_record` does with the record that it found
abbrev pub visit_found :
    (Record → Option (List ℕ))
    → Rid
    → Rc × Option Record
    → RecordFileHandler
    → Rc × RecordFileHandler
visit_found updater rid (rc, none) f = (rc, f)
visit_found updater rid (rc, some r) f = elim (updater r) [
  | none ↦ (rc, f)
  | some data' ↦
      let (rc', h) = update_record rid data' (handler_of f rid.page_num) in
      (rc', put_page rid.page_num h f)
]

-- `visit_record`: the updater answers with the new bytes if it changed the copy
unfoldable pub visit_in_file :
    (ℕ → Rc) → (Record → Option (List ℕ)) → Rid → RecordFileHandler → Rc × RecordFileHandler
unfolding get_in_file
visit_in_file opens updater rid f = visit_found updater rid (get_in_file opens rid f) f
