-- ===== src/RecordPage.antt =====
-- src/observer/storage/record/record_manager.{h,cpp}: RecordPageHandler and RecordPageIterator, the
-- records of one page. The page header and the bitmap lie at the front of the page's bytes in the
-- source; here they are fields of their own, and Layout shows that no record reaches them.
-- The handler is open for writing, as the ASSERT of each change demands. Slot numbers are not
-- negative.
mod Examples
pub mod Layout
pub mod View
pub mod Changes
use my_mini_ob.Base.{
  ℕ, zero, suc, ◌+◌, ◌-◌, ◌*◌, ◌/◌, Bool, true, false, Option, none, some, List, [], ◌∷◌, ◌==◌, ltb,
  leb, if◌then◌else◌, replicate,
}
use my_mini_ob.Base.Memory.{read_at, write_at}
use my_mini_ob.Rc.{
  Rc, success, record_nomem, record_invalid_rid, invalid_argument, record_not_exist, record_eof,
}
use my_mini_ob.Bitmap.{Bitmap, get_bit, set_bit, clear_bit, next_unsetted_bit, next_setted_bit}
use my_mini_ob.RecordLog.{
  RecordLogHeader, RecordLogHandler, append, init_payload, insert_payload, update_payload,
  delete_payload,
}

pub record PageHeader : Type 0 where
  pub record_num : ℕ
  pub record_real_size : ℕ
  pub record_size : ℕ
  pub record_capacity : ℕ
  pub first_record_offset : ℕ

-- a frame with the page in it
pub record Page : Type 0 where
  pub page_num : ℕ
  pub lsn : ℕ
  pub dirty : Bool
  pub header : PageHeader
  pub open header use *
  pub bitmap : List ℕ
  pub bytes : List ℕ

pub record Handler : Type 0 where
  pub page : Page
  pub log : RecordLogHandler

pub record Rid : Type 0 where
  pub page_num : ℕ
  pub slot_num : ℕ

pub record Record : Type 0 where
  pub rid : Rid
  pub value : List ℕ

-- sizeof(PageHeader), five int32_t
abbrev pub page_header_size : ℕ
page_header_size = 20

-- BP_PAGE_SIZE less a PageNum, an LSN and a CheckSum
abbrev pub bp_page_data_size : ℕ
bp_page_data_size = 8192 - 4 - 8 - 4

-- `(size + 7) & ~7`
unfoldable pub align8 : ℕ → ℕ
align8 size = (size + 7) / 8 * 8

-- `(page_size - PAGE_HEADER_SIZE - 1) / (record_size + 0.125)`, with both sides of the quotient
-- taken eight times
unfoldable pub page_record_capacity : ℕ → ℕ → ℕ
page_record_capacity page_size record_size =
    8 * (page_size - page_header_size - 1) / (8 * record_size + 1)

unfoldable pub page_bitmap_size : ℕ → ℕ
page_bitmap_size record_capacity = (record_capacity + 7) / 8

-- `while (last_record_offset > BP_PAGE_DATA_SIZE)`, on the capacity as fuel: it loses one each round
fix_from : ℕ → ℕ → ℕ → ℕ
fix_from zero last_record_offset record_size = 0
fix_from (suc capacity) last_record_offset record_size =
    let rest = fix_from capacity (last_record_offset - record_size) record_size in
    if ltb bp_page_data_size last_record_offset then rest else suc capacity

unfoldable pub fix_record_capacity : PageHeader → PageHeader
unfolding fix_from
fix_record_capacity h = record h {
  record_capacity =
      fix_from h.record_capacity (h.first_record_offset + h.record_capacity * h.record_size)
        h.record_size;
}

-- the header that `init_empty_page` writes
unfoldable pub empty_header : ℕ → PageHeader
unfolding align8 page_record_capacity page_bitmap_size fix_record_capacity
empty_header record_size =
    let aligned = align8 record_size in
    let capacity = page_record_capacity bp_page_data_size aligned in
    fix_record_capacity (record {
      record_num = 0;
      record_real_size = record_size;
      record_size = aligned;
      record_capacity = capacity;
      first_record_offset = align8 (page_header_size + page_bitmap_size capacity);
    })

-- `log_handler_->append(lsn, ...)` and `if (OB_SUCC(rc) && lsn > 0) frame->set_lsn(lsn)`
log_change : RecordLogHeader → Handler → Handler
unfolding append
log_change payload h =
    let (lsn, log') = append h.log.log_handler payload in
    record h {
      page = record h.page { lsn = if ltb 0 lsn then lsn else h.page.lsn };
      log = record h.log { log_handler = log' };
    }

-- `log_handler_.init(...)` with the record size given, then the entry, then the header and bitmap
unfoldable pub init_empty_page : ℕ → Handler → Rc × Handler
unfolding log_change empty_header
init_empty_page record_size h =
    let log' = record h.log { record_size = record_size } in
    let h' = log_change (init_payload log' h.page.page_num) (record h { log = log' }) in
    let header' = empty_header record_size in
    (
      success,
      record h' {
        page = record h'.page {
          header = header';
          bitmap = replicate (page_bitmap_size header'.record_capacity) 0;
        };
      },
    )

-- `Bitmap bitmap(bitmap_, page_header_->record_capacity)`
abbrev pub bits : Page → Bitmap
bits p = record { bitmap = p.bitmap; size = p.record_capacity }

-- the offset of `get_record_data(slot_num)` in the page
abbrev pub record_data : Page → ℕ → ℕ
record_data p slot_num = p.first_record_offset + p.record_size * slot_num

abbrev pub recount : Page → Bitmap → ℕ → Page
recount p b n = record p { header = record p.header { record_num = n }; bitmap = b.bitmap }

-- `memcpy(record_data, data, page_header_->record_real_size)` and `mark_dirty`
abbrev pub store : ℕ → List ℕ → Page → Page
store slot_num data' p = record p {
  dirty = true;
  bytes = write_at p.bytes (record_data p slot_num) (read_at data' 0 p.record_real_size);
}

-- `insert_record` from the free slot on
unfoldable pub insert_at : ℕ → List ℕ → Handler → Handler
unfolding log_change
insert_at index data' h =
    let h1 = record h {
      page = recount h.page (set_bit (bits h.page) index) (h.page.record_num + 1);
    } in
    let h2 = log_change (insert_payload h1.log h1.page.page_num index data') h1 in
    record h2 { page = store index data' h2.page }

-- The slot -1 of a page whose count is wrong is a write out of range in the source: `none` is a
-- fault, and View shows that a valid page has none.
unfoldable pub insert_record : List ℕ → Handler → Option (Rc × Option Rid × Handler)
unfolding insert_at
insert_record data' h =
    if h.page.record_num == h.page.record_capacity
    then some (record_nomem, none, h)
    else elim (next_unsetted_bit (bits h.page) 0) [
      | none ↦ none
      | some index ↦ some (
        success,
        some (record { page_num = h.page.page_num; slot_num = index }),
        insert_at index data' h,
      )
    ]

unfoldable pub recover_insert_record : List ℕ → Rid → Handler → Rc × Handler
recover_insert_record data' rid h =
    if leb h.page.record_capacity rid.slot_num
    then (record_invalid_rid, h)
    else let p =
        if get_bit (bits h.page) rid.slot_num
        then h.page
        else recount h.page (set_bit (bits h.page) rid.slot_num) (h.page.record_num + 1) in
      (success, record h { page = store rid.slot_num data' p })

unfoldable pub delete_record : Rid → Handler → Rc × Handler
unfolding log_change
delete_record rid h =
    if leb h.page.record_capacity rid.slot_num
    then (invalid_argument, h)
    else if get_bit (bits h.page) rid.slot_num
    then (let p = recount h.page (clear_bit (bits h.page) rid.slot_num) (h.page.record_num - 1) in
        let h1 = record h { page = record p { dirty = true } } in
        (success, log_change (delete_payload h1.log rid.page_num rid.slot_num) h1))
    else (record_not_exist, h)

-- `data` is not the record's own place in the page
unfoldable pub update_record : Rid → List ℕ → Handler → Rc × Handler
unfolding log_change
update_record rid data' h =
    if leb h.page.record_capacity rid.slot_num
    then (invalid_argument, h)
    else if get_bit (bits h.page) rid.slot_num
    then (let h1 = record h { page = store rid.slot_num data' h.page } in
        (success, log_change (update_payload h1.log rid.page_num rid.slot_num data') h1))
    else (record_not_exist, h)

unfoldable pub get_record : Rid → Page → Rc × Option Record
get_record rid p =
    if leb p.record_capacity rid.slot_num
    then (record_invalid_rid, none)
    else if get_bit (bits p) rid.slot_num
    then (
      success,
      some (record {
        rid = rid;
        value = read_at p.bytes (record_data p rid.slot_num) p.record_real_size;
      }),
    )
    else (record_not_exist, none)

unfoldable pub is_full : Page → Bool
is_full p = leb p.record_capacity p.record_num

-- RecordPageIterator over a page: its next slot, where `none` stands for -1
unfoldable pub iterator_init : Page → ℕ → Option ℕ
iterator_init p start_slot_num = next_setted_bit (bits p) start_slot_num

-- `next`: the record's slot, and the slot after it. The record's length is not set by this call;
-- `value` is the record's place read at its real size.
unfoldable pub iterator_next : Page → Option ℕ → Rc × Option Record × Option ℕ
iterator_next p none = (record_eof, none, none)
iterator_next p (some slot) = (
  success,
  some (record {
    rid = record { page_num = p.page_num; slot_num = slot };
    value = read_at p.bytes (record_data p slot) p.record_real_size;
  }),
  next_setted_bit (bits p) (slot + 1),
)
