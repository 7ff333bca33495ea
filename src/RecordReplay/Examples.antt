-- ===== src/RecordReplay/Examples.antt =====
-- Recovery of a concrete page.
use my_mini_ob.Base.{
  ℕ, zero, suc, ◌<◌, refl, [], ◌∷◌, false, arith, ◌==◌, if◌then◌else◌, get_or, replicate,
}
use my_mini_ob.Bitmap.{get_bit, test_bit}
use my_mini_ob.RecordPage.{Page}
use my_mini_ob.RecordPage.View.{IsValid}
use my_mini_ob.Rc.{internal}
use my_mini_ob.RecordReplay.{Pages, found, refused}
use my_mini_ob.RecordReplay.Change.{insert, delete, update}
use my_mini_ob.RecordReplay.Redo.{Recovery, recovery}

-- room for three records of three bytes; slot 0 is in use
abbrev page_before : Page
page_before = record {
  page_num = 4;
  lsn = 6;
  dirty = false;
  header = record {
    record_num = 1;
    record_real_size = 3;
    record_size = 8;
    record_capacity = 3;
    first_record_offset = 24;
  };
  bitmap = 1 ∷ [];
  bytes = replicate 48 0;
}

before-is_byte : (i : ℕ) → get_or page_before.bitmap i 0 < 256
before-is_byte zero = omega arith
before-is_byte (suc i) = omega arith

before-IsValid : IsValid page_before
unfolding get_bit test_bit
before-IsValid = record {
  bits_valid = record { room = omega arith; is_byte = before-is_byte };
  counted = refl;
  room = omega arith;
  fits = omega arith;
}

-- another page of the pool, 7, and no other pages
abbrev other_pages : Pages
other_pages pool page_num =
    if page_num == 7 then found (record page_before { page_num = 7; lsn = 3 }) else refused internal

recovery_example :
    Recovery 2
      (insert (1 ∷ 2 ∷ 3 ∷ []) ∷ delete (record { page_num = 4; slot_num = 0 }) ∷ [])
      (update (record { page_num = 4; slot_num = 1 }) (4 ∷ 5 ∷ 6 ∷ []) ∷ [])
      9
      []
      page_before
      other_pages
recovery_example =
    recovery 2 (insert (1 ∷ 2 ∷ 3 ∷ []) ∷ delete (record { page_num = 4; slot_num = 0 }) ∷ [])
      (update (record { page_num = 4; slot_num = 1 }) (4 ∷ 5 ∷ 6 ∷ []) ∷ []) 9 [] page_before
      other_pages before-IsValid (omega arith) refl refl
