-- ===== src/BufferedWriter/Writing.antt =====
-- One call of `write`: what it adds to the stream, and that it returns while the descriptor accepts
-- bytes.
use my_mini_ob.Base.{
  ℕ, ◌+◌, ◌-◌, ◌≤◌, ◌<◌, ◌≡◌, ◌≢◌, inl, inr, refl, ap, sym, ◌∙◌, List, ◌++◌, arith, ◌==◌, true,
  false, Bool-cases, Option, some, none, append_assoc, append-nil, length, length-append,
}
use my_mini_ob.Base.Int.{pos}
use my_mini_ob.Base.Memory.{read_at, length-read_at}
use my_mini_ob.Rc.{Rc, success, ob_succ}
use my_mini_ob.RingBuffer
use my_mini_ob.RingBuffer.{RingBuffer, capacity, remain}
use my_mini_ob.RingBuffer.Window.{IsValid, contents, length-contents}
use my_mini_ob.RingBuffer.Queue.{write_lem}
use my_mini_ob.BufferedWriter.{
  BufferedWriter, is_closed, flush_from, and_then, written, write_full, write,
}
use my_mini_ob.BufferedWriter.Stream.{stream, Flushed, Returns, flush_from-Flushed}
use my_mini_ob.BufferedWriter.Progress.{Ready, Ready-le, flush_from-Sent}

-- What `write` of `size` bytes may do.
pub record Wrote (data' : List ℕ) (size : ℕ) (w : BufferedWriter) (rc : Rc) (n : ℕ)
    (w' : BufferedWriter) : Type 0 where
  pub valid : IsValid w'.buffer
  pub adds : stream w' ≡ stream w ++ read_at data' 0 n
  pub part : n ≤ size
  pub progress : rc ≡ success → 0 < size → 0 < n
  pub same_fd : w'.fd ≡ w.fd

abbrev pub ReturnsCount :
    (Rc → ℕ → BufferedWriter → Type 0) → Option (Rc × ℕ × BufferedWriter) → Type 0
ReturnsCount P none = Unit
ReturnsCount P (some (rc, n, w)) = P rc n w

-- `buffer_.write` when there is room, after the stream of `w` has been kept up to `w1`
put-Wrote :
    (data' : List ℕ) (size : ℕ) (w w1 : BufferedWriter)
    → IsValid w1.buffer
    → stream w1 ≡ stream w
    → w1.fd ≡ w.fd
    → (0 < size → 0 < remain w1.buffer)
    → ReturnsCount (Wrote data' size w) (written w1 (RingBuffer.write data' (pos size) w1.buffer))
put-Wrote data' size w w1 v s f room =
    let (n, r, e, c, m, vr, k) = write_lem data' size w1.buffer v in
    rw e (record {
      valid = vr;
      adds =
          ap (λ l. w1.sent ++ l) c
          ∙ sym (append_assoc w1.sent (contents w1.buffer) (read_at data' 0 n))
          ∙ ap (λ l. l ++ read_at data' 0 n) s;
      part = omega arith;
      progress = λ _ p. omega (arith, room p);
      same_fd = f;
    })

not_success : (rc : Rc) → ob_succ rc ≡ false → rc ≢ success
not_success rc e q = ground arith

is_success : (rc : Rc) → ob_succ rc ≡ true → rc ≡ success
is_success rc e = ground arith

-- A flush of a full buffer that succeeded made room.
room_made :
    (size : ℕ) (w w1 : BufferedWriter)
    → IsValid w.buffer
    → capacity w.buffer ≤ w.buffer.data_size
    → Flushed size 0 w success w1
    → 0 < size
    → 0 < remain w1.buffer
room_made size w w1 v full f p =
    omega (arith, f.enough refl, f.same_capacity, v.write_in, v.size_in)

after_flush-Wrote :
    (data' : List ℕ) (size : ℕ) (w : BufferedWriter) (o : Option (Rc × BufferedWriter))
    → IsValid w.buffer
    → capacity w.buffer ≤ w.buffer.data_size
    → Returns (Flushed size 0 w) o
    → ReturnsCount (Wrote data' size w) (and_then o (write_full data' (pos size)))
after_flush-Wrote data' size w none v full h = tt
after_flush-Wrote data' size w (some (rc, w1)) v full f = elim (Bool-cases (ob_succ rc)) [
  | inl ok ↦
      let g : Flushed size 0 w success w1 = rw (is_success rc ok) at f in
      rw ok
        (put-Wrote data' size w w1 f.valid f.same_stream f.same_fd (room_made size w w1 v full g))
  | inr bad ↦ rw bad (record {
    valid = f.valid;
    adds = f.same_stream ∙ sym (append-nil (stream w));
    part = omega arith;
    progress = λ e. absurd (not_success rc bad e);
    same_fd = f.same_fd;
  })
]

-- `write(data, size, n)` on an open writer with a valid buffer, if it returns, adds the first `n`
-- bytes of the data behind the stream and nothing else, with `n` at most the size; if it succeeds on
-- a positive size then `n` is positive; the buffer stays valid and the descriptor open. When it fails
-- the count 0 is what the caller's variable holds.
pub write-Wrote :
    (data' : List ℕ) (size : ℕ) (w : BufferedWriter)
    → IsValid w.buffer
    → is_closed w ≡ false
    → ReturnsCount (Wrote data' size w) (write data' (pos size) w)
unfolding write
write-Wrote data' size w v open' = elim (Bool-cases (remain w.buffer == 0)) [
  | inr some_room ↦ rw (open', some_room) (put-Wrote data' size w w v refl refl (λ _. ground arith))
  | inl full ↦
      rw (open', full)
        (after_flush-Wrote data' size w (flush_from w.answers size 0 w) v (ground arith)
          (flush_from-Flushed size w.answers 0 w v))
]

grows :
    (r after : RingBuffer) (data' : List ℕ) (n : ℕ)
    → contents after ≡ contents r ++ read_at data' 0 n
    → after.data_size ≡ r.data_size + n
grows r after data' n e = omega (
  arith,
  ap (λ l. length l) e,
  length-append {0} (contents r) (read_at data' 0 n),
  length-read_at data' 0 n,
  length-contents r,
  length-contents after,
)

-- `write` while the descriptor accepts bytes: it returns and succeeds.
pub record WroteReady (data' : List ℕ) (size m : ℕ) (w : BufferedWriter)
    (result : Option (Rc × ℕ × BufferedWriter)) : Type 0 where
  pub count : ℕ
  pub after : BufferedWriter
  pub returns : result ≡ some (success, count, after)
  pub ready : Ready (m + after.buffer.data_size - count - w.buffer.data_size) after.answers
  pub bound : after.buffer.data_size ≤ w.buffer.data_size + count
  pub counted : count ≤ after.buffer.data_size

put-WroteReady :
    (data' : List ℕ) (size m : ℕ) (w w1 : BufferedWriter)
    → IsValid w1.buffer
    → Ready (m + w1.buffer.data_size - w.buffer.data_size) w1.answers
    → w1.buffer.data_size ≤ w.buffer.data_size
    → WroteReady data' size m w (written w1 (RingBuffer.write data' (pos size) w1.buffer))
put-WroteReady data' size m w w1 v r l =
    let (n, b, e, c, k, vr, q) = write_lem data' size w1.buffer v in
    let g = grows w1.buffer b data' n c in
    rw e (record {
      count = n;
      after = record w1 { buffer = b };
      returns = refl;
      ready = Ready-le _ (m + b.data_size - n - w.buffer.data_size) w1.answers (omega arith) r;
      bound = omega arith;
      counted = omega arith;
    })

pub write-WroteReady :
    (data' : List ℕ) (size m : ℕ) (w : BufferedWriter)
    → IsValid w.buffer
    → is_closed w ≡ false
    → w.buffer.data_size ≤ m
    → Ready m w.answers
    → WroteReady data' size m w (write data' (pos size) w)
unfolding write
write-WroteReady data' size m w v open' l r = elim (Bool-cases (remain w.buffer == 0)) [
  | inr some_room ↦
      rw (open', some_room)
        (put-WroteReady data' size m w w v
          (Ready-le m (m + w.buffer.data_size - w.buffer.data_size) w.answers (omega arith) r)
          (omega arith))
  | inl full ↦
      let s = flush_from-Sent size w.answers m 0 w v refl l r in
      let f : Returns (Flushed size 0 w) (some (success, s.after)) =
        rw s.returns at (flush_from-Flushed size w.answers 0 w v) in
      rw (open', full, s.returns) (put-WroteReady data' size m w s.after f.valid s.ready s.shrinks)
]
