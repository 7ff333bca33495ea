-- ===== src/BufferedWriter/Examples.antt =====
-- The writer at concrete inputs.
use my_mini_ob.Base.{◌≡◌, refl, [], ◌∷◌, ◌++◌, some, true, arith}
use my_mini_ob.Base.Int.{pos}
use my_mini_ob.Base.Memory.{read_at}
use my_mini_ob.Rc.{success}
use my_mini_ob.RingBuffer.Window.{IsValid}
use my_mini_ob.BufferedWriter.{BufferedWriter, accepts, again, is_closed, writen, flush, close}
use my_mini_ob.BufferedWriter.Stream.{stream}
use my_mini_ob.BufferedWriter.Calls.{writen_lem, flush_lem, close_lem}

-- a writer with three bytes in a ring of four, to a slow descriptor
abbrev slow : BufferedWriter
slow = record {
  fd = pos 7;
  buffer = record { buffer = 1 ∷ 2 ∷ 3 ∷ 0 ∷ []; data_size = 3; write_pos = 3 };
  sent = 9 ∷ [];
  answers = again ∷ accepts 2 ∷ accepts 1 ∷ again ∷ accepts 4 ∷ accepts 1 ∷ accepts 8 ∷ [];
}

slow-IsValid : IsValid slow.buffer
slow-IsValid = record { write_in = omega arith; size_in = omega arith }

writen_lem_example :
    (after : BufferedWriter) × (writen (5 ∷ 6 ∷ []) (pos 2) slow ≡ some (success, after))
    × (stream after ≡ stream slow ++ read_at (5 ∷ 6 ∷ []) 0 2)
    × IsValid after.buffer
writen_lem_example = writen_lem (5 ∷ 6 ∷ []) 2 slow slow-IsValid refl tt

flush_lem_example :
    (after : BufferedWriter) × (flush slow ≡ some (success, after))
    × (after.sent ≡ stream slow)
    × (after.buffer.data_size ≡ 0)
    × (after.fd ≡ pos 7)
    × IsValid after.buffer
flush_lem_example = flush_lem slow slow-IsValid refl tt

close_lem_example :
    (after : BufferedWriter) × (close slow ≡ some (success, after))
    × (after.sent ≡ stream slow)
    × (is_closed after ≡ true)
close_lem_example = close_lem slow slow-IsValid refl tt
