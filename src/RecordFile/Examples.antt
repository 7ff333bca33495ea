-- ===== src/RecordFile/Examples.antt =====
-- A scan of a file with two record pages.
use my_mini_ob.Base.{
  none, ℕ, ◌-◌, ◌<◌, ◌≡◌, refl, ◌+◌, Bool, false, Option, some, [], ◌∷◌, arith, replicate, length,
  length-replicate, ◌==◌,
}
use my_mini_ob.Base.Int.{pos}
use my_mini_ob.Base.Places.{places}
use my_mini_ob.Rc.{Rc, success, record_eof}
use my_mini_ob.Bitmap.{get_bit, test_bit}
use my_mini_ob.RecordLog.{disk}
use my_mini_ob.RecordPage.{Page, Record, bp_page_data_size}
use my_mini_ob.RecordPage.View.{view}
use my_mini_ob.RecordFile.FileHandler.{RecordFileHandler, insert_in_file}
use my_mini_ob.RecordFile.FileChanges.{Returns, insert_in_file_lem}
use my_mini_ob.BufferPool.{DiskBufferPool}
use my_mini_ob.BufferPool.Header.{bit}
use my_mini_ob.RecordFile.{open_scan, read_all}
use my_mini_ob.RecordFile.FileScan.{file_records, read_all_lem}

-- two slots of two bytes, as the bitmap says
abbrev page : ℕ → ℕ → Page
page n used = record {
  page_num = n;
  lsn = 0;
  dirty = false;
  header = record {
    record_num = 1;
    record_real_size = 2;
    record_size = 8;
    record_capacity = 2;
    first_record_offset = 24;
  };
  bitmap = used ∷ [];
  bytes = replicate 40 n;
}

-- page 1 has a record in slot 1, page 2 in both slots
abbrev load : ℕ → Rc × Page
load n = (success, page n (n + 1))

-- pages 0, 1 and 2 are allocated
abbrev file : DiskBufferPool
file = record {
  file_header = record { page_count = 3; allocated_pages = pos 3; bitmap = 7 ∷ [] };
  hdr_lsn = 0;
  hdr_dirty = false;
  log = [];
}

-- the record in slot 0 does not pass
abbrev filter : Option (Record → Bool)
filter = some (λ r. r.rid.slot_num == 1)

two_records : length (file_records filter load (places (bit file.file_header) (3 - 1) 1)) < 3
unfolding get_bit test_bit
two_records = omega arith

read_all_lem_example :
    read_all 3 filter load (open_scan file)
    ≡ (file_records filter load (places (bit file.file_header) (3 - 1) 1), record_eof)
read_all_lem_example = read_all_lem filter load file 3 (λ j h. refl) two_records

abbrev found : ℕ → Record
found n = record { rid = record { page_num = n; slot_num = 1 }; value = n ∷ n ∷ [] }

records_of_file :
    file_records filter load (places (bit file.file_header) (3 - 1) 1) ≡ found 1 ∷ found 2 ∷ []
unfolding get_bit test_bit
records_of_file = refl

-- a page that has just been allocated, as the disk gives it
abbrev blank : ℕ → Page
blank n = record {
  page_num = n;
  lsn = 0;
  dirty = false;
  header = record {
    record_num = 0;
    record_real_size = 0;
    record_size = 0;
    record_capacity = 0;
    first_record_offset = 0;
  };
  bitmap = [];
  bytes = replicate bp_page_data_size 0;
}

abbrev empty_file : RecordFileHandler
empty_file = record { pages = blank; free_pages = []; log_handler = disk 6 []; buffer_pool_id = 2 }

blank-whole : (n : ℕ) → length (blank n).bytes ≡ bp_page_data_size
blank-whole n = length-replicate {A = ℕ} bp_page_data_size 0

blank-view : (n j : ℕ) → view (blank n) j ≡ none
unfolding view
blank-view n j = ground arith

insert_in_file_lem_example :
    Returns
      (1 ∷ 2 ∷ [])
      empty_file
      (insert_in_file (λ n. success) (success, 5) (1 ∷ 2 ∷ []) 2 empty_file)
insert_in_file_lem_example =
    insert_in_file_lem (λ n. success) (success, 5) (1 ∷ 2 ∷ []) 2 empty_file tt (λ q. refl)
      (omega arith) (omega arith) (λ y. (blank-whole 5, blank-view 5))
