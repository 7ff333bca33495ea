-- ===== src/BufferedWriter/Stream.antt =====
-- Every byte handed to a writer reaches the descriptor once and in order.
use my_mini_ob.Base.{
  ℕ, ◌+◌, ◌-◌, ◌≤◌, ◌<◌, min, ◌≡◌, ◌≢◌, ◌⊎◌, inl, inr, refl, ap, sym, ◌∙◌, List, [], ◌∷◌, ◌++◌,
  arith, ltb, ◌&&◌, false, Bool-cases, Option, some, none, append_assoc,
}
use my_mini_ob.Base.Memory.{read_at}
use my_mini_ob.Rc.{Rc, success, ioerr_write}
use my_mini_ob.RingBuffer.{capacity, chunk}
use my_mini_ob.RingBuffer.Window.{
  IsValid, contents, chunk_bounds, passed, passed-IsValid, chunk-passed,
}
use my_mini_ob.RingBuffer.Queue.{forward-pos}
use my_mini_ob.BufferedWriter.{
  Answer, accepts, again, fails, BufferedWriter, is_closed, sent_chunk, flush_from, flush_internal,
}

-- all that has been handed to the writer and not discarded, oldest first
abbrev pub stream : BufferedWriter → List ℕ
stream w = w.sent ++ contents w.buffer

-- What a flush of `size` bytes, `write_size` of them sent, may do.
pub record Flushed (size write_size : ℕ) (w : BufferedWriter) (rc : Rc) (w' : BufferedWriter)
    : Type 0 where
  pub valid : IsValid w'.buffer
  pub same_stream : stream w' ≡ stream w
  pub same_fd : w'.fd ≡ w.fd
  pub same_capacity : capacity w'.buffer ≡ capacity w.buffer
  -- success: the buffer is empty, or as much as was asked for is sent
  pub enough :
      rc ≡ success
      → (w'.buffer.data_size ≡ 0) ⊎ (size + w'.buffer.data_size ≤ write_size + w.buffer.data_size)
  pub shrinks : w'.buffer.data_size ≤ w.buffer.data_size

pub chunk_sent :
    (n : ℕ) (answers : List Answer) (w : BufferedWriter)
    → IsValid w.buffer
    → 0 < w.buffer.data_size
    → n ≤ (chunk w.buffer).1
    → (stream (sent_chunk n answers w) ≡ stream w)
      × IsValid (sent_chunk n answers w).buffer
      × ((sent_chunk n answers w).buffer ≡ passed n w.buffer)
chunk_sent n answers w v h l =
    let r = w.buffer in
    let b = chunk_bounds v h in
    let small : n ≤ r.data_size = omega (arith, b.2) in
    let e : (sent_chunk n answers w).buffer ≡ passed n r = ap (λ q. q.1) (forward-pos n r small) in
    (
      rw e (
          append_assoc w.sent (read_at r.buffer (chunk r).0 n) (contents (passed n r))
          ∙ ap (λ l. w.sent ++ l) (sym (chunk-passed n v h l))),
      rw e (passed-IsValid v n small),
      e,
    )

-- A predicate on what a call leaves, if it returns.
abbrev pub Returns : (Rc → BufferedWriter → Type 0) → Option (Rc × BufferedWriter) → Type 0
Returns P none = Unit
Returns P (some (rc, w)) = P rc w

pub Returns-map :
    {P Q : Rc → BufferedWriter → Type 0} (o : Option (Rc × BufferedWriter))
    → ((rc : Rc) (w : BufferedWriter) → P rc w → Q rc w)
    → Returns P o
    → Returns Q o
Returns-map none f h = tt
Returns-map (some (rc, w)) f h = f rc w h

pub ioerr_write≢success : ioerr_write ≢ success
ioerr_write≢success e = cc

module _ (size : ℕ) where
  after_chunk :
      (write_size n : ℕ) (answers : List Answer) (w : BufferedWriter)
      → IsValid w.buffer
      → 0 < w.buffer.data_size
      → n ≤ (chunk w.buffer).1
      → (rc : Rc) (w' : BufferedWriter)
      → Flushed size (write_size + n) (sent_chunk n answers w) rc w'
      → Flushed size write_size w rc w'
  after_chunk write_size n answers w v h l rc w' f =
      let c = chunk_sent n answers w v h l in
      let b = chunk_bounds v h in
      let left : (sent_chunk n answers w).buffer.data_size ≡ w.buffer.data_size - n =
        ap (λ r. r.data_size) c.2 in
      record {
        valid = f.valid;
        same_stream = f.same_stream ∙ c.0;
        same_fd = f.same_fd;
        same_capacity = f.same_capacity ∙ ap (λ r. capacity r) c.2;
        enough = λ e. omega (arith, f.enough e, left, b.2);
        shrinks = omega (arith, f.shrinks, left);
      }

  nothing_to_do :
      (write_size : ℕ) (w : BufferedWriter)
      → IsValid w.buffer
      → (ltb 0 w.buffer.data_size && ltb write_size size) ≡ false
      → Flushed size write_size w success w
  nothing_to_do write_size w v stop = record {
    valid = v;
    same_stream = refl;
    same_fd = refl;
    same_capacity = refl;
    enough = λ _. ground arith;
    shrinks = omega arith;
  }

  pub flush_from-Flushed :
      (answers : List Answer) (write_size : ℕ) (w : BufferedWriter)
      → IsValid w.buffer
      → Returns (Flushed size write_size w) (flush_from answers size write_size w)
  unfolding flush_from
  flush_from-Flushed [] write_size w v =
      elim (Bool-cases (ltb 0 w.buffer.data_size && ltb write_size size)) [
        | inr stop ↦ rw stop (nothing_to_do write_size w v stop)
        | inl go ↦ rw go tt
      ]
  flush_from-Flushed (accepts k ∷ answers) write_size w v =
      elim (Bool-cases (ltb 0 w.buffer.data_size && ltb write_size size)) [
        | inr stop ↦ rw stop (nothing_to_do write_size w v stop)
        | inl go ↦
            let n : ℕ = min k (chunk w.buffer).1 in
            let h : 0 < w.buffer.data_size = ground arith in
            let c = chunk_sent n answers w v h (omega arith) in
            rw go (
              Returns-map {P = Flushed size (write_size + n) (sent_chunk n answers w)}
                {Q = Flushed size write_size w} _
                (λ rc w'. after_chunk write_size n answers w v h (omega arith) rc w')
                (flush_from-Flushed answers (write_size + n) (sent_chunk n answers w) c.1))
      ]
  flush_from-Flushed (again ∷ answers) write_size w v =
      elim (Bool-cases (ltb 0 w.buffer.data_size && ltb write_size size)) [
        | inr stop ↦ rw stop (nothing_to_do write_size w v stop)
        | inl go ↦ rw go (
            Returns-map {P = Flushed size write_size (record w { answers = answers })}
              {Q = Flushed size write_size w} _
              (λ rc w' f. record {
                valid = f.valid;
                same_stream = f.same_stream;
                same_fd = f.same_fd;
                same_capacity = f.same_capacity;
                enough = f.enough;
                shrinks = f.shrinks;
              })
              (flush_from-Flushed answers write_size (record w { answers = answers }) v))
      ]
  flush_from-Flushed (fails ∷ answers) write_size w v =
      elim (Bool-cases (ltb 0 w.buffer.data_size && ltb write_size size)) [
        | inr stop ↦ rw stop (nothing_to_do write_size w v stop)
        | inl go ↦ rw go (record {
          valid = v;
          same_stream = refl;
          same_fd = refl;
          same_capacity = refl;
          enough = λ e. absurd (ioerr_write≢success e);
          shrinks = omega arith;
        })
      ]

-- `flush_internal(size)` on an open writer with a valid buffer, if it returns, loses, repeats and
-- reorders nothing, whether it succeeds or the descriptor fails half-way.
pub flush_internal-Flushed :
    (size : ℕ) (w : BufferedWriter)
    → IsValid w.buffer
    → is_closed w ≡ false
    → Returns (Flushed size 0 w) (flush_internal size w)
unfolding flush_internal
flush_internal-Flushed size w v open' = rw open' (flush_from-Flushed size w.answers 0 w v)
