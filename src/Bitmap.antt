-- ===== src/Bitmap.antt =====
-- deps/common/lang/bitmap.cpp: bits in a byte array. A `char` is its bit pattern, a number below
-- 256, and `1 << i` is `2 ^ i`. The result -1 of a search is `none`.
mod Examples
pub mod Bytes
pub mod Laws
pub mod Search
use Prim.Native.Nat.{bit_and, bit_or}
use my_mini_ob.Base.{
  ℕ, zero, suc, ◌+◌, ◌-◌, ◌*◌, ◌/◌, ◌%◌, ◌^◌, Bool, true, false, not, Option, none, some, List, [],
  ◌∷◌, ◌==◌, leb, if◌then◌else◌, get_or, set,
}

-- `(byte & (1 << i)) != 0`
unfoldable pub test_bit : ℕ → ℕ → Bool
test_bit byte i = not (bit_and byte (2 ^ i) == 0)

-- `for (int i = start; i < 8; i++)`, with the rounds that are left
find_first_zero_from : ℕ → ℕ → ℕ → Option ℕ
find_first_zero_from zero byte i = none
find_first_zero_from (suc n) byte i =
    let rest = find_first_zero_from n byte (i + 1) in
    if bit_and byte (2 ^ i) == 0 then some i else rest

pub find_first_zero : ℕ → ℕ → Option ℕ
unfolding find_first_zero_from
find_first_zero byte start = find_first_zero_from (8 - start) byte start

find_first_setted_from : ℕ → ℕ → ℕ → Option ℕ
find_first_setted_from zero byte i = none
find_first_setted_from (suc n) byte i =
    let rest = find_first_setted_from n byte (i + 1) in
    if not (bit_and byte (2 ^ i) == 0) then some i else rest

pub find_first_setted : ℕ → ℕ → Option ℕ
unfolding find_first_setted_from
find_first_setted byte start = find_first_setted_from (8 - start) byte start

unfoldable pub bytes : ℕ → ℕ
bytes size = if size % 8 == 0 then size / 8 else size / 8 + 1

-- `bitmap_` and `size_`. The bytes are those from the pointer on.
pub record Bitmap : Type 0 where
  pub bitmap : List ℕ
  pub size : ℕ

unfoldable pub get_bit : Bitmap → ℕ → Bool
get_bit b index = test_bit (get_or b.bitmap (index / 8) 0) (index % 8)

unfoldable pub set_bit : Bitmap → ℕ → Bitmap
set_bit b index = record b {
  bitmap = set b.bitmap (index / 8) (bit_or (get_or b.bitmap (index / 8) 0) (2 ^ (index % 8)));
}

-- `~(1 << i)` kept to a byte is `255 - 2 ^ i`
unfoldable pub clear_bit : Bitmap → ℕ → Bitmap
clear_bit b index = record b {
  bitmap =
      set b.bitmap (index / 8) (bit_and (get_or b.bitmap (index / 8) 0) (255 - 2 ^ (index % 8)));
}

-- the rest of the loop when a byte has been searched
abbrev hit_or : ℕ → Option ℕ → Option ℕ → Option ℕ
hit_or iter none rest = rest
hit_or iter (some index_in_byte) rest = some (iter * 8 + index_in_byte)

-- `if (ret >= size_) ret = -1`
abbrev cut : ℕ → Option ℕ → Option ℕ
cut size none = none
cut size (some ret) = if leb size ret then none else some ret

-- the loop over the bytes, with the rounds that are left; `-1` as a `char` is 255
next_unsetted_from : ℕ → List ℕ → ℕ → ℕ → Option ℕ
next_unsetted_from zero bitmap iter start_in_byte = none
next_unsetted_from (suc n) bitmap iter start_in_byte =
    let byte = get_or bitmap iter 0 in
    let rest = next_unsetted_from n bitmap (iter + 1) 0 in
    if not (byte == 255) then hit_or iter (find_first_zero byte start_in_byte) rest else rest

unfoldable pub next_unsetted_bit : Bitmap → ℕ → Option ℕ
unfolding next_unsetted_from find_first_zero
next_unsetted_bit b start =
    cut b.size (next_unsetted_from (bytes b.size - start / 8) b.bitmap (start / 8) (start % 8))

next_setted_from : ℕ → List ℕ → ℕ → ℕ → Option ℕ
next_setted_from zero bitmap iter start_in_byte = none
next_setted_from (suc n) bitmap iter start_in_byte =
    let byte = get_or bitmap iter 0 in
    let rest = next_setted_from n bitmap (iter + 1) 0 in
    if not (byte == 0) then hit_or iter (find_first_setted byte start_in_byte) rest else rest

unfoldable pub next_setted_bit : Bitmap → ℕ → Option ℕ
unfolding next_setted_from find_first_setted
next_setted_bit b start =
    cut b.size (next_setted_from (bytes b.size - start / 8) b.bitmap (start / 8) (start % 8))
