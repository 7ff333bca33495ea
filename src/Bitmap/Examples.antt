-- ===== src/Bitmap/Examples.antt =====
-- The bitmap at concrete inputs.
use my_mini_ob.Base.{ℕ, zero, suc, ◌≡◌, ◌<◌, refl, some, [], ◌∷◌, true, false, arith, get_or}
use my_mini_ob.Bitmap.{
  Bitmap, bytes, get_bit, set_bit, clear_bit, test_bit, next_unsetted_bit, next_unsetted_from,
  next_setted_bit, next_setted_from, find_first_zero, find_first_zero_from, find_first_setted,
  find_first_setted_from,
}
use my_mini_ob.Base.First.{IsFirst}
use my_mini_ob.Bitmap.Laws.{IsValid, get_bit-set_bit, get_bit-clear_bit}
use my_mini_ob.Bitmap.Search.{next_unsetted_bit-IsFirst, next_setted_bit-IsFirst}

-- bits 0 to 9 and 12 of 13
abbrev thirteen : Bitmap
thirteen = record { bitmap = 255 ∷ 19 ∷ []; size = 13 }

thirteen-is_byte : (i : ℕ) → get_or thirteen.bitmap i 0 < 256
thirteen-is_byte zero = omega arith
thirteen-is_byte (suc zero) = omega arith
thirteen-is_byte (suc (suc i)) = omega arith

thirteen-IsValid : IsValid thirteen
thirteen-IsValid = record { room = omega arith; is_byte = thirteen-is_byte }

first_clear : next_unsetted_bit thirteen 3 ≡ some 10
unfolding next_unsetted_bit next_unsetted_from find_first_zero find_first_zero_from test_bit bytes
first_clear = refl

first_set : next_setted_bit thirteen 10 ≡ some 12
unfolding next_setted_bit next_setted_from find_first_setted find_first_setted_from test_bit bytes
first_set = refl

next_unsetted_bit-IsFirst_example :
    IsFirst (get_bit thirteen) false 3 13 (next_unsetted_bit thirteen 3)
next_unsetted_bit-IsFirst_example = next_unsetted_bit-IsFirst thirteen 3

next_setted_bit-IsFirst_example :
    IsFirst (get_bit thirteen) true 10 13 (next_setted_bit thirteen 10)
next_setted_bit-IsFirst_example = next_setted_bit-IsFirst thirteen 10

get_bit-set_bit_example : get_bit (set_bit thirteen 10) 10 ≡ true
get_bit-set_bit_example = get_bit-set_bit thirteen-IsValid 10 (omega arith) 10

get_bit-clear_bit_example : get_bit (clear_bit thirteen 9) 9 ≡ false
get_bit-clear_bit_example = get_bit-clear_bit thirteen-IsValid 9 (omega arith) 9
