-- ===== src/BufferedWriter.antt =====
-- src/observer/net/buffered_writer.{h,cpp}: a writer to a file descriptor behind a ring buffer. The
-- system call `::write` is the environment's: what it answers to the calls to come is a list, and
-- what it has accepted is kept in order. A call that no answer is left for does not return: `none`.
mod Examples
pub mod Stream
pub mod Progress
pub mod Writing
pub mod Calls
use my_mini_ob.Base.{
  ℕ, zero, suc, ◌+◌, ◌-◌, ◌<◌, min, Bool, true, false, Option, none, some, List, [], ◌∷◌, ◌++◌,
  ◌==◌, ltb, ◌&&◌, if◌then◌else◌, drop,
}
use my_mini_ob.Base.Int.{ℤ, pos, negsuc, pos_part, ltb_ℤ}
use my_mini_ob.Base.Memory.{read_at}
use my_mini_ob.Rc.{Rc, success, invalid_argument, ioerr_write, ob_succ}
use my_mini_ob.RingBuffer
use my_mini_ob.RingBuffer.{RingBuffer, remain, chunk, forward}

-- An answer of `::write`: it takes up to so many bytes (POSIX: never more than it is given), it asks
-- to be called again (EAGAIN or EINTR), or it fails.
pub data Answer : Type 0 where
  accepts : ℕ → Answer
  again : Answer
  fails : Answer

pub record BufferedWriter : Type 0 where
  pub fd : ℤ
  pub buffer : RingBuffer
  pub sent : List ℕ
  pub answers : List Answer

-- `fd_ < 0`
abbrev pub is_closed : BufferedWriter → Bool
is_closed w = ltb_ℤ w.fd (pos 0)

-- a successful `::write` of the first `n` bytes of the readable piece, and `forward` past them
abbrev pub sent_chunk : ℕ → List Answer → BufferedWriter → BufferedWriter
sent_chunk n answers w = record w {
  buffer = (forward (pos n) w.buffer).1;
  sent = w.sent ++ read_at w.buffer.buffer (chunk w.buffer).0 n;
  answers = answers;
}

-- The loops of `flush_internal` over the answers. The inner loop calls `::write` on the same bytes
-- until it takes some, which is a round that changes nothing but the answers.
pub flush_from : List Answer → ℕ → ℕ → BufferedWriter → Option (Rc × BufferedWriter)
flush_from [] size write_size w =
    if ltb 0 w.buffer.data_size && ltb write_size size then none else some (success, w)
flush_from (accepts k ∷ answers) size write_size w =
    let n = min k (chunk w.buffer).1 in
    let rest = flush_from answers size (write_size + n) (sent_chunk n answers w) in
    if ltb 0 w.buffer.data_size && ltb write_size size then rest else some (success, w)
flush_from (again ∷ answers) size write_size w =
    let rest = flush_from answers size write_size (record w { answers = answers }) in
    if ltb 0 w.buffer.data_size && ltb write_size size then rest else some (success, w)
flush_from (fails ∷ answers) size write_size w =
    if ltb 0 w.buffer.data_size && ltb write_size size
    then some (ioerr_write, record w { answers = answers })
    else some (success, w)

-- A negative size asks for nothing, as 0 does.
unfoldable pub flush_internal : ℕ → BufferedWriter → Option (Rc × BufferedWriter)
unfolding flush_from
flush_internal size w =
    if is_closed w then some (invalid_argument, w) else flush_from w.answers size 0 w

-- what follows a call that returned
abbrev pub and_then {ℓ} :
    {A : Type ℓ} → Option (Rc × BufferedWriter) → (Rc → BufferedWriter → Option A) → Option A
and_then none k = none
and_then (some (rc, w)) k = k rc w

-- `buffer_.write(data, size, write_size)`
abbrev written : BufferedWriter → Option (Rc × ℕ × RingBuffer) → Option (Rc × ℕ × BufferedWriter)
written w none = none
written w (some (rc, n, r)) = some (rc, n, record w { buffer = r })

abbrev write_full : List ℕ → ℤ → Rc → BufferedWriter → Option (Rc × ℕ × BufferedWriter)
write_full data' size rc w =
    if ob_succ rc then written w (RingBuffer.write data' size w.buffer) else some (rc, 0, w)

unfoldable pub write : List ℕ → ℤ → BufferedWriter → Option (Rc × ℕ × BufferedWriter)
unfolding flush_internal
write data' size w =
    if is_closed w
    then some (invalid_argument, 0, w)
    else if remain w.buffer == 0
    then and_then (flush_internal (pos_part size) w) (write_full data' size)
    else written w (RingBuffer.write data' size w.buffer)

-- the loop of `writen`, on fuel: a round that does not fail takes at least a byte
abbrev after_write :
    Option (Rc × ℕ × BufferedWriter)
    → (ℕ → BufferedWriter → Option (Rc × BufferedWriter))
    → Option (Rc × BufferedWriter)
after_write none k = none
after_write (some (rc, n, w)) k = if ob_succ rc then k n w else some (rc, w)

writen_from : ℕ → List ℕ → ℕ → ℕ → BufferedWriter → Option (Rc × BufferedWriter)
writen_from zero data' size write_size w = none
writen_from (suc fuel) data' size write_size w =
    let rest =
      after_write (write (drop write_size data') (pos (size - write_size)) w)
        (λ n w'. writen_from fuel data' size (write_size + n) w') in
    if ltb write_size size then rest else some (success, w)

unfoldable pub writen : List ℕ → ℤ → BufferedWriter → Option (Rc × BufferedWriter)
unfolding writen_from write
writen data' size w =
    if is_closed w
    then some (invalid_argument, w)
    else writen_from (suc (pos_part size)) data' (pos_part size) 0 w

-- the loop of `flush`, on fuel: a round that does not fail sends at least a byte
flush_rounds : ℕ → Rc → BufferedWriter → Option (Rc × BufferedWriter)
flush_rounds zero rc w = none
flush_rounds (suc fuel) rc w =
    let rest = and_then (flush_internal w.buffer.data_size w) (flush_rounds fuel) in
    if ob_succ rc && ltb 0 w.buffer.data_size then rest else some (rc, w)

unfoldable pub flush : BufferedWriter → Option (Rc × BufferedWriter)
unfolding flush_rounds flush_internal
flush w =
    if is_closed w
    then some (invalid_argument, w)
    else flush_rounds (suc (w.buffer.data_size)) success w

unfoldable pub clean : BufferedWriter → Rc × BufferedWriter
unfolding forward
clean w = let (rc, r) = forward (pos w.buffer.data_size) w.buffer in (rc, record w { buffer = r })

abbrev pub close_flushed : Rc → BufferedWriter → Option (Rc × BufferedWriter)
close_flushed rc w = if ob_succ rc then some (success, record w { fd = negsuc 0 }) else some (rc, w)

unfoldable pub close : BufferedWriter → Option (Rc × BufferedWriter)
unfolding flush
close w = if is_closed w then some (success, w) else and_then (flush w) close_flushed
