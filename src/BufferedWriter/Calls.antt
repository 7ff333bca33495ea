-- ===== src/BufferedWriter/Calls.antt =====
-- The calls of a writer that go on until all is done: they return while the descriptor accepts bytes,
-- and what each does to the stream.
use native.Mathlib.Decide.{ℕ_discrete}
use my_mini_ob.Base.{
  ℕ, zero, suc, ◌+◌, ◌-◌, ◌≤◌, ◌<◌, ◌≡◌, inl, inr, refl, ap, sym, ◌∙◌, List, ◌++◌, arith, ltb, true,
  false, Bool-cases, Option, some, append_assoc, append-nil, drop, ltb→lt,
}
use my_mini_ob.Base.Int.{pos, negsuc}
use my_mini_ob.Base.Memory.{read_at, read_at-append, read_at-drop}
use my_mini_ob.Rc.{Rc, success}
use my_mini_ob.RingBuffer.Window.{IsValid}
use my_mini_ob.BufferedWriter.{
  BufferedWriter, is_closed, flush_from, flush_internal, and_then, writen_from, writen,
  flush_rounds, flush, close, close_flushed,
}
use my_mini_ob.BufferedWriter.Stream.{stream, Flushed, Returns, flush_from-Flushed}
use my_mini_ob.BufferedWriter.Progress.{Ready, flush_from-Sent}
use my_mini_ob.BufferedWriter.Writing.{Wrote, ReturnsCount, write-Wrote, write-WroteReady}

-- What the loop of `writen` has done.
record WritingDone (data' : List ℕ) (size write_size : ℕ) (w : BufferedWriter)
    (result : Option (Rc × BufferedWriter)) : Type 0 where
  after : BufferedWriter
  returns : result ≡ some (success, after)
  valid : IsValid after.buffer
  adds : stream after ≡ stream w ++ read_at data' write_size (size - write_size)
  same_fd : after.fd ≡ w.fd

closed_same : (w w' : BufferedWriter) → w'.fd ≡ w.fd → is_closed w ≡ false → is_closed w' ≡ false
closed_same w w' e c = rw e c

-- one more `write` in front
writing_more :
    (data' : List ℕ) (size write_size n : ℕ) (w w1 : BufferedWriter)
    {result : Option (Rc × BufferedWriter)}
    → Wrote (drop write_size data') (size - write_size) w success n w1
    → WritingDone data' size (write_size + n) w1 result
    → WritingDone data' size write_size w result
writing_more data' size write_size n w w1 d rest =
    let split : n + (size - (write_size + n)) ≡ size - write_size = omega (arith, d.part) in
    let here : write_size + 0 ≡ write_size = omega arith in
    record {
      after = rest.after;
      returns = rest.returns;
      valid = rest.valid;
      adds =
          rest.adds
          ∙ ap (λ l. l ++ read_at data' (write_size + n) (size - (write_size + n)))
              (d.adds
                ∙ ap (λ l. stream w ++ l)
                    (read_at-drop write_size data' 0 n ∙ ap (λ i. read_at data' i n) here))
          ∙ append_assoc (stream w) (read_at data' write_size n)
              (read_at data' (write_size + n) (size - (write_size + n)))
          ∙ ap (λ l. stream w ++ l)
              (read_at-append data' write_size n (size - (write_size + n))
                ∙ ap (read_at data' write_size) split);
      same_fd = rest.same_fd ∙ d.same_fd;
    }

writen_from-WritingDone :
    (fuel : ℕ) (data' : List ℕ) (size write_size m : ℕ) (w : BufferedWriter)
    → IsValid w.buffer
    → is_closed w ≡ false
    → write_size ≤ size
    → size - write_size < fuel
    → w.buffer.data_size + (size - write_size) ≤ m
    → Ready m w.answers
    → WritingDone data' size write_size w (writen_from fuel data' size write_size w)
unfolding writen_from
writen_from-WritingDone zero data' size write_size m w v c l f b r = absurd (omega arith)
writen_from-WritingDone (suc fuel) data' size write_size m w v c l f b r =
    elim (Bool-cases (ltb write_size size)) [
      | inr stop ↦
          let z : size - write_size ≡ 0 = ground arith in
          rw stop (record {
            after = w;
            returns = refl;
            valid = v;
            adds = rw (z, append-nil);
            same_fd = refl;
          })
      | inl go ↦
          let front : List ℕ = drop write_size data' in
          let left : write_size < size = ltb→lt _ _ go in
          let s = write-WroteReady front (size - write_size) m w v c (omega arith) r in
          let d : ReturnsCount (Wrote front (size - write_size) w)
              (some (success, s.count, s.after)) =
            rw s.returns at (write-Wrote front (size - write_size) w v c) in
          let n : ℕ = s.count in
          let p : 0 < n = d.progress refl (omega arith) in
          let rest =
            writen_from-WritingDone fuel data' size (write_size + n)
              (m + s.after.buffer.data_size - n - w.buffer.data_size) s.after d.valid
              (closed_same w s.after d.same_fd c) (omega (arith, d.part)) (omega (arith, d.part))
              (omega (arith, d.part, s.bound, s.counted)) s.ready in
          rw (go, s.returns) (writing_more data' size write_size n w s.after d rest)
    ]

-- an empty buffer holds nothing of the stream
no_bytes : (w : BufferedWriter) → w.buffer.data_size ≡ 0 → stream w ≡ w.sent
no_bytes w e = rw e (append-nil w.sent)

writen-open :
    (data' : List ℕ) (size : ℕ) (w : BufferedWriter)
    → is_closed w ≡ false
    → writen data' (pos size) w ≡ writen_from (suc size) data' size 0 w
unfolding writen
writen-open data' size w c = rw c

flush-empty :
    (w : BufferedWriter)
    → is_closed w ≡ false
    → w.buffer.data_size ≡ 0
    → flush w ≡ some (success, w)
unfolding flush
flush-empty w c e = rw c (ground arith)

flush-open :
    (w : BufferedWriter)
    → is_closed w ≡ false
    → flush w ≡ flush_rounds (suc w.buffer.data_size) success w
unfolding flush
flush-open w c = rw c

flush_internal-open :
    (size : ℕ) (w : BufferedWriter)
    → is_closed w ≡ false
    → flush_internal size w ≡ flush_from w.answers size 0 w
unfolding flush_internal
flush_internal-open size w c = rw c

flush_rounds-step :
    (fuel : ℕ) (w w1 : BufferedWriter)
    → 0 < w.buffer.data_size
    → flush_internal w.buffer.data_size w ≡ some (success, w1)
    → flush_rounds (suc fuel) success w ≡ flush_rounds fuel success w1
unfolding flush_rounds
flush_rounds-step fuel w w1 h e =
    let t : ltb 0 w.buffer.data_size ≡ true = ground arith in rw (t, e)

flush_rounds-empty :
    (fuel : ℕ) (w : BufferedWriter)
    → 0 < fuel
    → w.buffer.data_size ≡ 0
    → flush_rounds fuel success w ≡ some (success, w)
unfolding flush_rounds
flush_rounds-empty zero w h z = absurd (omega arith)
flush_rounds-empty (suc fuel) w h z =
    let t : ltb 0 w.buffer.data_size ≡ false = ground arith in rw t

-- `flush` after one round that emptied the buffer
flush-once :
    (w w1 : BufferedWriter)
    → is_closed w ≡ false
    → 0 < w.buffer.data_size
    → flush_from w.answers w.buffer.data_size 0 w ≡ some (success, w1)
    → w1.buffer.data_size ≡ 0
    → flush w ≡ some (success, w1)
flush-once w w1 c h e z =
    flush-open w c
    ∙ flush_rounds-step w.buffer.data_size w w1 h (flush_internal-open w.buffer.data_size w c ∙ e)
    ∙ flush_rounds-empty w.buffer.data_size w1 h z

-- `writen(data, size)` on an open writer with a valid buffer returns and succeeds, if the descriptor
-- takes bytes often enough: as many times as there are bytes, held and new. The data is then behind
-- the stream, whole, and the buffer is valid.
pub writen_lem :
    (data' : List ℕ) (size : ℕ) (w : BufferedWriter)
    → IsValid w.buffer
    → is_closed w ≡ false
    → Ready (w.buffer.data_size + size) w.answers
    → (after : BufferedWriter) × (writen data' (pos size) w ≡ some (success, after))
      × (stream after ≡ stream w ++ read_at data' 0 size)
      × IsValid after.buffer
writen_lem data' size w v c r =
    let d =
      writen_from-WritingDone (suc size) data' size 0 (w.buffer.data_size + size) w v c
        (omega arith) (omega arith) (omega arith) r in
    let all : size - 0 ≡ size = omega arith in
    (
      d.after,
      writen-open data' size w c ∙ d.returns,
      d.adds ∙ ap (λ k. stream w ++ read_at data' 0 k) all,
      d.valid,
    )

-- `flush()` on an open writer with a valid buffer returns and succeeds, if the descriptor takes bytes
-- as many times as the buffer holds bytes. Then all that was handed over is sent, in order, and the
-- buffer is empty.
pub flush_lem :
    (w : BufferedWriter)
    → IsValid w.buffer
    → is_closed w ≡ false
    → Ready w.buffer.data_size w.answers
    → (after : BufferedWriter) × (flush w ≡ some (success, after))
      × (after.sent ≡ stream w)
      × (after.buffer.data_size ≡ 0)
      × (after.fd ≡ w.fd)
      × IsValid after.buffer
flush_lem w v c r = elim (ℕ_discrete w.buffer.data_size 0) [
  | yes e ↦ (w, flush-empty w c e, sym (no_bytes w e), e, refl, v)
  | no ne ↦
      let s =
        flush_from-Sent w.buffer.data_size w.answers w.buffer.data_size 0 w v refl (omega arith)
          r in
      let f : Returns (Flushed w.buffer.data_size 0 w) (some (success, s.after)) =
        rw s.returns at (flush_from-Flushed w.buffer.data_size w.answers 0 w v) in
      let z : s.after.buffer.data_size ≡ 0 = omega (arith, f.enough refl) in
      (
        s.after,
        flush-once w s.after c (omega arith) s.returns z,
        sym (no_bytes s.after z) ∙ f.same_stream,
        z,
        f.same_fd,
        f.valid,
      )
]

close-open : (w : BufferedWriter) → is_closed w ≡ false → close w ≡ and_then (flush w) close_flushed
unfolding close
close-open w c = rw c

-- `close()` on an open writer with a valid buffer returns and succeeds, if the descriptor takes bytes
-- as many times as the buffer holds bytes. Then all that was handed over is sent, in order, and the
-- writer is closed.
pub close_lem :
    (w : BufferedWriter)
    → IsValid w.buffer
    → is_closed w ≡ false
    → Ready w.buffer.data_size w.answers
    → (after : BufferedWriter) × (close w ≡ some (success, after))
      × (after.sent ≡ stream w)
      × (is_closed after ≡ true)
close_lem w v c r =
    let f = flush_lem w v c r in
    (
      record (f.0) { fd = negsuc 0 },
      close-open w c ∙ ap (λ o. and_then o close_flushed) f.1,
      f.2,
      refl,
    )
