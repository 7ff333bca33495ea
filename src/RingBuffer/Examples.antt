-- ===== src/RingBuffer/Examples.antt =====
-- The ring at concrete inputs.
use my_mini_ob.Base.{ℕ, ◌≡◌, refl, List, [], ◌∷◌, ◌++◌, length, min, some, arith, ◌⊎◌}
use my_mini_ob.Base.Int.{pos}
use my_mini_ob.Base.Memory.{read_at}
use my_mini_ob.Rc.{success, invalid_argument}
use my_mini_ob.RingBuffer.{RingBuffer, capacity, remain, read, forward, write}
use my_mini_ob.RingBuffer.Window.{IsValid, contents}
use my_mini_ob.RingBuffer.Queue.{read_lem, write_lem, forward_lem}

-- five places, three bytes held, one of them past the end
abbrev wrapped : RingBuffer
wrapped = record { buffer = 30 ∷ 0 ∷ 0 ∷ 10 ∷ 20 ∷ []; data_size = 3; write_pos = 1 }

wrapped-IsValid : IsValid wrapped
wrapped-IsValid = record { write_in = omega arith; size_in = omega arith }

held : contents wrapped ≡ 10 ∷ 20 ∷ 30 ∷ []
held = refl

read_lem_example :
    (out : List ℕ) × (after : RingBuffer) × (read (pos 4) wrapped ≡ some (success, out, after))
    × (contents wrapped ≡ out ++ contents after)
    × (length out ≡ min 4 3)
    × IsValid after
read_lem_example = read_lem 4 wrapped wrapped-IsValid

write_lem_example :
    (count : ℕ) × (after : RingBuffer) × (write (1 ∷ 2 ∷ 3 ∷ []) (pos 3) wrapped
      ≡ some (success, count, after))
    × (contents after ≡ contents wrapped ++ read_at (1 ∷ 2 ∷ 3 ∷ []) 0 count)
    × (count ≡ min 3 (remain wrapped))
    × IsValid after
    × (capacity after ≡ 5)
write_lem_example = write_lem (1 ∷ 2 ∷ 3 ∷ []) 3 wrapped wrapped-IsValid

forward_lem_example :
    ((k : ℕ) × (pos 2 ≡ pos k)
      × (dropped : List ℕ) × (length dropped ≡ k)
      × (after : RingBuffer) × (forward (pos 2) wrapped ≡ (success, after))
      × (contents wrapped ≡ dropped ++ contents after)
      × IsValid after)
    ⊎ (forward (pos 2) wrapped ≡ (invalid_argument, wrapped))
forward_lem_example = forward_lem (pos 2) wrapped wrapped-IsValid
