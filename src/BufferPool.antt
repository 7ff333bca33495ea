-- ===== src/BufferPool.antt =====
-- src/observer/storage/buffer/disk_buffer_pool.{h,cpp} and buffer_pool_log.cpp: which pages of a file
-- are allocated. The header page holds the counts and the bitmap; every change of them is logged and
-- can be redone. The frames that hold pages in memory are left out: what `get_this_page` answers is a
-- parameter, and `allocate_frame` waits until it has a frame. The log's answer is the number of the
-- entry, or none if it fails. A 32-bit count that the code decrements is an integer; a page number is
-- not negative.
mod Examples
pub mod Header
pub mod Redo
pub mod Iterator
pub mod Pages
pub mod Allocation
pub mod Recovery
use my_mini_ob.Base.{
  ℕ, zero, suc, ◌+◌, ◌-◌, ◌*◌, ◌^◌, Bool, true, false, not, Option, none, some, List, [], ◌∷◌, ◌++◌,
  ◌==◌, ltb, leb, if◌then◌else◌,
}
use my_mini_ob.Base.Int.{ℤ, pos, ltb_ℤ, ◌+ℤ◌, ◌-ℤ◌}
use my_mini_ob.Rc.{Rc, success, internal, bufferpool_nobuf, bufferpool_invalid_page_num, ob_succ}
use my_mini_ob.Bitmap.{Bitmap, get_bit, set_bit, clear_bit, next_setted_bit}

-- `BPFileHeader` on the header page
pub record BpFileHeader : Type 0 where
  pub page_count : ℕ
  pub allocated_pages : ℤ
  pub bitmap : List ℕ

-- `BP_PAGE_SIZE - sizeof(PageNum) - sizeof(LSN) - sizeof(CheckSum)`
abbrev pub bp_page_data_size : ℕ
bp_page_data_size = 2 ^ 13 - 4 - 8 - 4

-- `BPFileHeader::MAX_PAGE_NUM`
abbrev pub max_page_num : ℕ
max_page_num = (bp_page_data_size - 4 - 4) * 8

pub data BufferPoolOperation : Type 0 where
  allocate deallocate : BufferPoolOperation

-- an entry of the log and its number
pub record BufferPoolLogEntry : Type 0 where
  pub lsn : ℕ
  pub operation_type : BufferPoolOperation
  pub page_num : ℕ

-- `file_header_`, `hdr_frame_` with its number and its mark, and the log
pub record DiskBufferPool : Type 0 where
  pub file_header : BpFileHeader
  pub hdr_lsn : ℕ
  pub hdr_dirty : Bool
  pub log : List BufferPoolLogEntry

-- the header that `create_file` writes, with the room that the page has for the bitmap
unfoldable pub create_file : List ℕ → DiskBufferPool
unfolding set_bit
create_file zeros = record {
  file_header = record {
    page_count = 1;
    allocated_pages = pos 1;
    bitmap = (set_bit (record { bitmap = zeros; size = 8 }) 0).bitmap;
  };
  hdr_lsn = 0;
  hdr_dirty = false;
  log = [];
}

-- `Bitmap bitmap(file_header_->bitmap, file_header_->page_count)`
abbrev pub bitmap_of : BpFileHeader → Bitmap
bitmap_of h = record { bitmap = h.bitmap; size = h.page_count }

-- `append_log`, then `set_lsn` of the header with the number, which is 0 if the log fails
abbrev pub append_log : BufferPoolOperation → ℕ → Option ℕ → DiskBufferPool → DiskBufferPool
append_log operation page_num none p = record p { hdr_lsn = 0 }
append_log operation page_num (some lsn) p = record p {
  hdr_lsn = lsn;
  log = p.log ++ (record { lsn = lsn; operation_type = operation; page_num = page_num } ∷ []);
}

-- the loop for a page that is not allocated, with the rounds that are left
pub free_page_from : ℕ → Bitmap → ℕ → Option ℕ
unfolding get_bit
free_page_from zero b i = none
free_page_from (suc n) b i =
    let rest = free_page_from n b (i + 1) in if not (get_bit b i) then some i else rest

-- the page is counted and its bit is set
abbrev pub take_page : ℕ → BpFileHeader → BpFileHeader
take_page i h = record h {
  allocated_pages = h.allocated_pages +ℤ pos 1;
  bitmap = (set_bit (bitmap_of h) i).bitmap;
}

abbrev pub give_page : ℕ → BpFileHeader → BpFileHeader
give_page i h = record h {
  allocated_pages = h.allocated_pages -ℤ pos 1;
  bitmap = (clear_bit (bitmap_of h) i).bitmap;
}

abbrev pub extend : BpFileHeader → BpFileHeader
extend h = record h { page_count = suc h.page_count }

abbrev pub changed : BpFileHeader → DiskBufferPool → DiskBufferPool
changed h p = record p { file_header = h; hdr_dirty = true }

-- a page at the end of the file
abbrev pub allocate_last : Option ℕ → DiskBufferPool → Rc × Option ℕ × DiskBufferPool
allocate_last logged p =
    let n = p.file_header.page_count in
    if leb max_page_num n then (bufferpool_nobuf, none, p) else (
      success,
      some n,
      changed (take_page n (extend p.file_header)) (append_log allocate n logged p),
    )

-- a free page of the file if there is one, whose contents may fail to load
abbrev pub allocate_found :
    Option ℕ → (ℕ → Rc) → Option ℕ → DiskBufferPool → Rc × Option ℕ × DiskBufferPool
allocate_found logged get_this_page none p = allocate_last logged p
allocate_found logged get_this_page (some i) p = (
  get_this_page i,
  (if ob_succ (get_this_page i) then some i else none),
  append_log allocate i logged (changed (take_page i p.file_header) p),
)

-- `allocate_page`, with the page whose frame it gives
unfoldable pub allocate_page : Option ℕ → (ℕ → Rc) → DiskBufferPool → Rc × Option ℕ × DiskBufferPool
unfolding free_page_from
allocate_page logged get_this_page p =
    let h = p.file_header in
    if ltb_ℤ h.allocated_pages (pos h.page_count)
    then allocate_found logged get_this_page (free_page_from h.page_count (bitmap_of h) 0) p
    else allocate_last logged p

-- `dispose_page`; that the page's frame is not in use is not checked (the ASSERT tests a string)
unfoldable pub dispose_page : Option ℕ → ℕ → DiskBufferPool → Rc × DiskBufferPool
dispose_page logged page_num p = if page_num == 0 then (internal, p) else (
  success,
  changed (give_page page_num p.file_header) (append_log deallocate page_num logged p),
)

unfoldable pub redo_allocate_page : ℕ → ℕ → DiskBufferPool → Rc × DiskBufferPool
redo_allocate_page lsn page_num p =
    let h = p.file_header in
    if leb lsn p.hdr_lsn
    then (success, p)
    else if ltb page_num h.page_count
    then (if get_bit (bitmap_of h) page_num
        then (success, p)
        else (success, changed (take_page page_num h) p))
    else if ltb h.page_count page_num
    then (internal, p)
    else if leb max_page_num h.page_count
    then (internal, p)
    else (success, record (changed (take_page page_num (extend h)) p) { hdr_lsn = lsn })

unfoldable pub redo_deallocate_page : ℕ → ℕ → DiskBufferPool → Rc × DiskBufferPool
redo_deallocate_page lsn page_num p =
    let h = p.file_header in
    if leb lsn p.hdr_lsn
    then (success, p)
    else if leb h.page_count page_num
    then (internal, p)
    else if not (get_bit (bitmap_of h) page_num)
    then (internal, p)
    else (success, record (changed (give_page page_num h) p) { hdr_lsn = lsn })

-- `BufferPoolLogReplayer::replay` for the entries of this file
abbrev pub replay_entry : BufferPoolLogEntry → DiskBufferPool → Rc × DiskBufferPool
replay_entry e p = elim e.operation_type [
  | allocate ↦ redo_allocate_page e.lsn e.page_num p
  | deallocate ↦ redo_deallocate_page e.lsn e.page_num p
]

-- `replay` for each entry until one fails
unfoldable pub replay_all : List BufferPoolLogEntry → DiskBufferPool → Rc × DiskBufferPool
unfolding redo_allocate_page redo_deallocate_page
replay_all [] p = (success, p)
replay_all (e ∷ es) p =
    let (rc, p') = replay_entry e p in
    let rest = replay_all es p' in if ob_succ rc then rest else (rc, p')

unfoldable pub recover_page : ℕ → DiskBufferPool → DiskBufferPool
recover_page page_num p =
    let h = p.file_header in
    if not (get_bit (bitmap_of h) page_num) then changed (take_page page_num (extend h)) p else p

unfoldable pub check_page_num : ℕ → DiskBufferPool → Rc
check_page_num page_num p =
    if leb p.file_header.page_count page_num
    then bufferpool_invalid_page_num
    else if not (get_bit (bitmap_of p.file_header) page_num)
    then bufferpool_invalid_page_num
    else success

-- `BufferPoolIterator` after `init`; the field is `current_page_num_ + 1`
pub record BufferPoolIterator : Type 0 where
  pub bitmap : Bitmap
  pub next_page_num : ℕ

-- `init`: a start of 0 or less and a positive one both make the field the start
unfoldable pub init : DiskBufferPool → ℕ → BufferPoolIterator
init p start_page = record { bitmap = bitmap_of p.file_header; next_page_num = start_page }

abbrev is_some : Option ℕ → Bool
is_some none = false
is_some (some n) = true

unfoldable pub has_next : BufferPoolIterator → Bool
has_next it = is_some (next_setted_bit it.bitmap it.next_page_num)

abbrev advance : Option ℕ → BufferPoolIterator → BufferPoolIterator
advance none it = it
advance (some next_page) it = record it { next_page_num = suc next_page }

-- `next`; `-1` is none
unfoldable pub next : BufferPoolIterator → Option ℕ × BufferPoolIterator
next it =
    let next_page = next_setted_bit it.bitmap it.next_page_num in (next_page, advance next_page it)

-- `current_page_num_ = 0`
unfoldable pub reset : BufferPoolIterator → BufferPoolIterator
reset it = record it { next_page_num = 1 }

abbrev visited : Option ℕ → List ℕ → List ℕ
visited none rest = rest
visited (some page_num) rest = page_num ∷ rest

-- `while (it.has_next()) it.next()`, with the rounds that are left
unfoldable pub pages_from : ℕ → BufferPoolIterator → List ℕ
unfolding has_next next
pages_from zero it = []
pages_from (suc n) it =
    let (page_num, it') = next it in
    let rest = pages_from n it' in if has_next it then visited page_num rest else []
