-- ===== src/RingBuffer.antt =====
-- src/observer/net/ring_buffer.{h,cpp}: a byte ring with one write position and a size. A size that a
-- caller passes is an `int32_t`, which may be negative; the ring's own numbers are not. What a call
-- returns through `buf` and `read_size` is the list of the bytes copied.
mod Examples
pub mod Window
pub mod Queue
use my_mini_ob.Base.{
  ℕ, zero, suc, ◌+◌, ◌-◌, ◌%◌, min, Bool, Option, none, some, List, [], ◌∷◌, ◌++◌, ◌==◌, ltb, leb,
  ◌&&◌, if◌then◌else◌, length, replicate,
}
use my_mini_ob.Base.Int.{ℤ, pos, negsuc}
use my_mini_ob.Base.Memory.{read_at, write_at}
use my_mini_ob.Rc.{Rc, success, invalid_argument, ob_succ}

pub record RingBuffer : Type 0 where
  pub buffer : List ℕ
  pub data_size : ℕ
  pub write_pos : ℕ

-- `RingBuffer(size)`: the vector is filled with zeros
abbrev pub ring_buffer : ℕ → RingBuffer
ring_buffer size = record { buffer = replicate size 0; data_size = 0; write_pos = 0 }

abbrev pub capacity : RingBuffer → ℕ
capacity r = length r.buffer

abbrev pub remain : RingBuffer → ℕ
remain r = capacity r - r.data_size

-- `(write_pos_ - size() + capacity()) % capacity()`, added first since the size is not past the
-- capacity
abbrev pub read_pos : RingBuffer → ℕ
read_pos r = (r.write_pos + capacity r - r.data_size) % capacity r

-- `buffer`: where the readable bytes start, and how many lie in one piece
unfoldable pub chunk : RingBuffer → ℕ × ℕ
chunk r = if r.data_size == 0 then (0, 0) else (
  read_pos r,
  (if ltb (read_pos r) r.write_pos then r.write_pos - read_pos r else capacity r - read_pos r),
)

unfoldable pub forward : ℤ → RingBuffer → Rc × RingBuffer
forward (negsuc n) r = (invalid_argument, r)
forward (pos size) r =
    if ltb r.data_size size
    then (invalid_argument, r)
    else (success, record r { data_size = r.data_size - size })

-- the loop of `read`, on fuel; `none` means that the fuel ran out
read_from : ℕ → ℕ → List ℕ → Rc → RingBuffer → Option (Rc × List ℕ × RingBuffer)
read_from zero size out rc r = none
read_from (suc fuel) size out rc r =
    let (off, tmp_size) = chunk r in
    let copy_size = min (size - length out) tmp_size in
    let (rc', r') = forward (pos copy_size) r in
    let rest = read_from fuel size (out ++ read_at r.buffer off copy_size) rc' r' in
    if ob_succ rc && (ltb (length out) size && ltb 0 r.data_size) then rest else some (rc, out, r)

unfoldable pub read : ℤ → RingBuffer → Option (Rc × List ℕ × RingBuffer)
unfolding read_from chunk forward
read (negsuc n) r = some (invalid_argument, [], r)
read (pos size) r = read_from (suc size) size [] success r

-- the number of bytes that one round of `write` can copy
abbrev pub room_at_write_pos : RingBuffer → ℕ
room_at_write_pos r =
    if leb (read_pos r) r.write_pos then capacity r - r.write_pos else read_pos r - r.write_pos

-- one round of `write`, at `write_size` bytes written
abbrev pub write_round : List ℕ → ℕ → ℕ → RingBuffer → RingBuffer
write_round data' size write_size r =
    let copy_size = min (size - write_size) (room_at_write_pos r) in
    record {
      buffer = write_at r.buffer r.write_pos (read_at data' write_size copy_size);
      data_size = r.data_size + copy_size;
      write_pos = (r.write_pos + copy_size) % capacity r;
    }

write_from : ℕ → List ℕ → ℕ → ℕ → RingBuffer → Option (Rc × ℕ × RingBuffer)
write_from zero data' size write_size r = none
write_from (suc fuel) data' size write_size r =
    let copy_size = min (size - write_size) (room_at_write_pos r) in
    let rest =
      write_from fuel data' size (write_size + copy_size) (write_round data' size write_size r) in
    if ltb write_size size && ltb 0 (remain r) then rest else some (success, write_size, r)

-- the code, `write_size` and the ring
unfoldable pub write : List ℕ → ℤ → RingBuffer → Option (Rc × ℕ × RingBuffer)
unfolding write_from
write data' (negsuc n) r = some (invalid_argument, 0, r)
write data' (pos size) r = write_from (suc size) data' size 0 r
