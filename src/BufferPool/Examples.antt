-- ===== src/BufferPool/Examples.antt =====
-- Pages of a file at concrete inputs.
use my_mini_ob.Base.{ℕ, ◌+◌, ◌*◌, ◌-◌, ◌≡◌, refl, some, [], ◌∷◌, arith, replicate}
use my_mini_ob.Base.Int.{pos, ◌+ℤ◌, ◌-ℤ◌}
use my_mini_ob.Bitmap.{get_bit, test_bit, set_bit, clear_bit, next_setted_bit, bytes}
use my_mini_ob.Base.Places.{places}
use my_mini_ob.Rc.{Rc, success, internal}
use my_mini_ob.BufferPool.{
  DiskBufferPool, max_page_num, bp_page_data_size, create_file, allocate_page, dispose_page,
  replay_all, init, pages_from, check_page_num,
}
use my_mini_ob.BufferPool.Header.{IsValid, bit, create_file-IsValid}
use my_mini_ob.BufferPool.Allocation.{Allocated, allocate_page_lem}
use my_mini_ob.BufferPool.Recovery.{Runs, start, allocates, disposes, recovery_lem}
use my_mini_ob.BufferPool.Iterator.{pages_from_lem}

abbrev loads : ℕ → Rc
loads i = success

-- a new file, with room for 16 pages
abbrev file : DiskBufferPool
file = create_file (replicate 2 0)

abbrev two : DiskBufferPool
two = (allocate_page (some 1) loads file).2

abbrev three : DiskBufferPool
three = (allocate_page (some 2) loads two).2

-- page 1 is released, after the header was written with two pages
abbrev released : DiskBufferPool
released = (dispose_page (some 3) 1 three).1

abbrev again : DiskBufferPool
again = (allocate_page (some 4) loads released).2

abbrev on_disk : DiskBufferPool
on_disk = record two { log = [] }

to_two : Runs file two
unfolding create_file allocate_page ◌+ℤ◌ ◌-ℤ◌ get_bit test_bit set_bit clear_bit
to_two = allocates 1 loads start (omega arith) (omega arith)

to_again : Runs two again
unfolding create_file allocate_page dispose_page check_page_num ◌+ℤ◌ ◌-ℤ◌ get_bit test_bit set_bit
    clear_bit
to_again =
    allocates 4 loads
      (disposes 3 1 (allocates 2 loads start (omega arith) (omega arith)) (omega arith) refl)
      (omega arith) (omega arith)

recovery_lem_example :
    ((replay_all again.log on_disk).0 ≡ success)
    × ((replay_all again.log on_disk).1.file_header ≡ again.file_header)
    × IsValid again.file_header
recovery_lem_example =
    recovery_lem file two again on_disk (create_file-IsValid 2 (omega arith))
      (unfold create_file in refl) to_two to_again refl refl

allocate_page_lem_example : Allocated (some 1) loads file (allocate_page (some 1) loads file)
unfolding create_file set_bit
allocate_page_lem_example =
    allocate_page_lem (some 1) loads file (create_file-IsValid 2 (omega arith)) (omega arith)

three_pages : 0 + 3 ≡ released.file_header.page_count
unfolding create_file allocate_page dispose_page ◌+ℤ◌ ◌-ℤ◌ get_bit test_bit set_bit clear_bit
three_pages = refl

pages_from_lem_example : pages_from 4 (init released 0) ≡ places (bit released.file_header) 3 0
pages_from_lem_example = pages_from_lem released 0 4 3 three_pages (omega arith)

pages_of_released : pages_from 4 (init released 0) ≡ 0 ∷ 2 ∷ []
unfolding create_file allocate_page dispose_page init pages_from next_setted_bit bytes ◌+ℤ◌ ◌-ℤ◌
    get_bit test_bit set_bit clear_bit
pages_of_released = refl

page_1_again : (allocate_page (some 4) loads released).1 ≡ some 1
unfolding create_file allocate_page dispose_page ◌+ℤ◌ ◌-ℤ◌ get_bit test_bit set_bit clear_bit
page_1_again = refl

-- a page that is released twice: the count drops below the number of bits, and the log cannot be
-- replayed any more
dispose_twice : (dispose_page (some 4) 1 released).1.file_header.allocated_pages ≡ pos 1
unfolding create_file allocate_page dispose_page ◌+ℤ◌ ◌-ℤ◌ get_bit test_bit set_bit clear_bit
dispose_twice = refl

replay_twice : (replay_all (dispose_page (some 4) 1 released).1.log file).0 ≡ internal
unfolding create_file allocate_page dispose_page replay_all ◌+ℤ◌ ◌-ℤ◌ get_bit test_bit set_bit
    clear_bit
replay_twice = refl

-- the bitmap has 12 bytes before it on the page
room_is_short : 8 * (bp_page_data_size - 12) + 32 ≡ max_page_num
room_is_short = refl
