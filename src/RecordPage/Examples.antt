-- ===== src/RecordPage/Examples.antt =====
-- The page of records at a concrete page.
use mathlib.Core.Option
use my_mini_ob.Base.{
  ℕ, zero, suc, ◌+◌, ◌*◌, ◌≡◌, ◌≢◌, ◌<◌, ◌≤◌, ◌⊎◌, ◌↔◌, refl, [], ◌∷◌, false, some, none, arith,
  get_or, replicate, ◌==◌, if◌then◌else◌,
}
use my_mini_ob.Base.Memory.{read_at}
use my_mini_ob.Rc.{success, record_nomem, record_invalid_rid}
use my_mini_ob.Bitmap.{get_bit, test_bit}
use my_mini_ob.RecordLog.{disk}
use my_mini_ob.RecordPage.{
  Page, Handler, Rid, insert_record, delete_record, update_record, get_record,
  recover_insert_record, empty_header, page_header_size, page_bitmap_size, bp_page_data_size,
}
use my_mini_ob.RecordPage.View.{IsValid, view}
use my_mini_ob.RecordPage.Layout.{empty_header_fits, empty_header_holds_a_record}
use my_mini_ob.RecordPage.Changes.{
  Inserted, Changed, remove, replace, insert_record_lem, delete_record_lem, update_record_lem,
  get_record_lem, recover_insert_record_lem,
}

-- room for three records of three bytes; slot 1 is in use
abbrev small : Page
small = record {
  page_num = 4;
  lsn = 6;
  dirty = false;
  header = record {
    record_num = 1;
    record_real_size = 3;
    record_size = 8;
    record_capacity = 3;
    first_record_offset = 24;
  };
  bitmap = 2 ∷ [];
  bytes = replicate 48 0;
}

small-is_byte : (i : ℕ) → get_or small.bitmap i 0 < 256
small-is_byte zero = omega arith
small-is_byte (suc i) = omega arith

pub small-IsValid : IsValid small
unfolding get_bit test_bit
small-IsValid = record {
  bits_valid = record { room = omega arith; is_byte = small-is_byte };
  counted = refl;
  room = omega arith;
  fits = omega arith;
}

abbrev handler : Handler
handler = record {
  page = small;
  log = record { log_handler = disk 6 []; buffer_pool_id = 2; record_size = 3 };
}

abbrev slot : ℕ → Rid
slot n = record { page_num = 4; slot_num = n }

insert_record_lem_example :
    ((1 ≡ small.record_capacity)
      × (insert_record (1 ∷ 2 ∷ 3 ∷ []) handler ≡ some (record_nomem, none, handler)))
    ⊎ ((k : ℕ) × Inserted (1 ∷ 2 ∷ 3 ∷ []) handler k)
insert_record_lem_example = insert_record_lem (1 ∷ 2 ∷ 3 ∷ []) handler small-IsValid

delete_record_lem_example : Changed small 1 remove (delete_record (slot 1) handler)
delete_record_lem_example = delete_record_lem handler (slot 1) small-IsValid

update_record_lem_example :
    Changed small 1
      (replace (read_at (7 ∷ 8 ∷ 9 ∷ []) 0 3))
      (update_record (slot 1) (7 ∷ 8 ∷ 9 ∷ []) handler)
update_record_lem_example = update_record_lem handler (slot 1) (7 ∷ 8 ∷ 9 ∷ []) small-IsValid

get_record_lem_example :
    ((get_record (slot 1) small).1
      ≡ Option.map (λ b. record { rid = slot 1; value = b }) (view small 1))
    × (((get_record (slot 1) small).0 ≡ success) ↔ (view small 1 ≢ none))
get_record_lem_example = get_record_lem (slot 1) small

recover_insert_record_lem_example :
    ((2 < 3)
      × ((recover_insert_record (1 ∷ 2 ∷ 3 ∷ []) (slot 2) handler).0 ≡ success)
      × ((j : ℕ)
          → view (recover_insert_record (1 ∷ 2 ∷ 3 ∷ []) (slot 2) handler).1.page j
            ≡ (if 2 == j then some (read_at (1 ∷ 2 ∷ 3 ∷ []) 0 3) else view small j))
      × IsValid (recover_insert_record (1 ∷ 2 ∷ 3 ∷ []) (slot 2) handler).1.page)
    ⊎ ((3 ≤ 2)
        × (recover_insert_record (1 ∷ 2 ∷ 3 ∷ []) (slot 2) handler ≡ (record_invalid_rid, handler)))
recover_insert_record_lem_example =
    recover_insert_record_lem handler (1 ∷ 2 ∷ 3 ∷ []) (slot 2) small-IsValid

empty_header_fits_example :
    (page_header_size + page_bitmap_size (empty_header 100).record_capacity
      ≤ (empty_header 100).first_record_offset)
    × ((empty_header 100).first_record_offset
          + (empty_header 100).record_capacity * (empty_header 100).record_size
        ≤ bp_page_data_size)
    × ((empty_header 100).record_real_size ≤ (empty_header 100).record_size)
    × ((empty_header 100).record_num ≡ 0)
empty_header_fits_example = empty_header_fits 100 (omega arith)

empty_header_holds_a_record_example : 0 < (empty_header 4096).record_capacity
empty_header_holds_a_record_example = empty_header_holds_a_record 4096 (omega arith) (omega arith)
