-- ===== src/BufferedWriter/Progress.antt =====
-- When the descriptor keeps accepting bytes, the calls return and succeed.
use my_mini_ob.Base.{
  ℕ, zero, suc, ◌+◌, ◌-◌, ◌≤◌, ◌<◌, min, ◌≡◌, inl, inr, refl, ap, List, [], ◌∷◌, arith, ltb, ◌&&◌,
  false, Bool-cases, Option, some,
}
use my_mini_ob.Rc.{Rc, success}
use my_mini_ob.RingBuffer.{chunk}
use my_mini_ob.RingBuffer.Window.{IsValid, chunk_bounds, passed}
use my_mini_ob.BufferedWriter.{
  Answer, accepts, again, fails, BufferedWriter, sent_chunk, flush_from,
}
use my_mini_ob.BufferedWriter.Stream.{chunk_sent}

-- The answers take bytes `n` times before one fails or there are no more.
abbrev pub Ready : ℕ → List Answer → Type 0
Ready zero answers = Unit
Ready (suc n) [] = ⊥
Ready (suc n) (accepts zero ∷ answers) = Ready (suc n) answers
Ready (suc n) (accepts (suc k) ∷ answers) = Ready n answers
Ready (suc n) (again ∷ answers) = Ready (suc n) answers
Ready (suc n) (fails ∷ answers) = ⊥

pub Ready-le : (m n : ℕ) (answers : List Answer) → n ≤ m → Ready m answers → Ready n answers
Ready-le m zero answers l h = tt
Ready-le zero (suc n) answers l h = absurd (omega arith)
Ready-le (suc m) (suc n) [] l h = h
Ready-le (suc m) (suc n) (accepts zero ∷ answers) l h = Ready-le (suc m) (suc n) answers l h
Ready-le (suc m) (suc n) (accepts (suc k) ∷ answers) l h = Ready-le m n answers (omega arith) h
Ready-le (suc m) (suc n) (again ∷ answers) l h = Ready-le (suc m) (suc n) answers l h
Ready-le (suc m) (suc n) (fails ∷ answers) l h = h

-- The loop has ended with success, and what it sent it paid for, a byte or more an answer.
pub record Sent (m : ℕ) (w : BufferedWriter) (result : Option (Rc × BufferedWriter)) : Type 0 where
  pub after : BufferedWriter
  pub returns : result ≡ some (success, after)
  pub ready : Ready (m + after.buffer.data_size - w.buffer.data_size) after.answers
  pub shrinks : after.buffer.data_size ≤ w.buffer.data_size

module _ (size : ℕ) where
  stopped :
      (m write_size : ℕ) (w : BufferedWriter) → Ready m w.answers → Sent m w (some (success, w))
  stopped m write_size w h = record {
    after = w;
    returns = refl;
    ready = Ready-le m (m + w.buffer.data_size - w.buffer.data_size) w.answers (omega arith) h;
    shrinks = omega arith;
  }

  -- a round that changes nothing but the answers
  again-Sent :
      (m : ℕ) (answers : List Answer) (w : BufferedWriter) {result : Option (Rc × BufferedWriter)}
      → Sent m (record w { answers = answers }) result
      → Sent m w result
  again-Sent m answers w s = record {
    after = s.after;
    returns = s.returns;
    ready = s.ready;
    shrinks = s.shrinks;
  }

  -- a round that sends `n` bytes for one answer
  chunk-Sent :
      (m m' n : ℕ) (answers : List Answer) (w : BufferedWriter)
      {result : Option (Rc × BufferedWriter)}
      → (sent_chunk n answers w).buffer ≡ passed n w.buffer
      → m ≤ m' + n
      → n ≤ w.buffer.data_size
      → Sent m' (sent_chunk n answers w) result
      → Sent m w result
  chunk-Sent m m' n answers w e p l s =
      let left : (sent_chunk n answers w).buffer.data_size ≡ w.buffer.data_size - n =
        ap (λ r. r.data_size) e in
      record {
        after = s.after;
        returns = s.returns;
        ready =
            Ready-le _ (m + s.after.buffer.data_size - w.buffer.data_size) s.after.answers
              (omega (arith, left, s.shrinks)) s.ready;
        shrinks = omega (arith, left, s.shrinks);
      }

  pub flush_from-Sent :
      (answers : List Answer) (m write_size : ℕ) (w : BufferedWriter)
      → IsValid w.buffer
      → w.answers ≡ answers
      → w.buffer.data_size ≤ m
      → Ready m answers
      → Sent m w (flush_from answers size write_size w)
  unfolding flush_from
  flush_from-Sent [] zero write_size w v e l h =
      let stop : (ltb 0 w.buffer.data_size && ltb write_size size) ≡ false = ground arith in
      rw stop (stopped zero write_size w tt)
  flush_from-Sent (accepts k ∷ answers) zero write_size w v e l h =
      let stop : (ltb 0 w.buffer.data_size && ltb write_size size) ≡ false = ground arith in
      rw stop (stopped zero write_size w tt)
  flush_from-Sent (again ∷ answers) zero write_size w v e l h =
      let stop : (ltb 0 w.buffer.data_size && ltb write_size size) ≡ false = ground arith in
      rw stop (stopped zero write_size w tt)
  flush_from-Sent (fails ∷ answers) zero write_size w v e l h =
      let stop : (ltb 0 w.buffer.data_size && ltb write_size size) ≡ false = ground arith in
      rw stop (stopped zero write_size w tt)
  flush_from-Sent [] (suc m) write_size w v e l h = absurd h
  flush_from-Sent (fails ∷ answers) (suc m) write_size w v e l h = absurd h
  flush_from-Sent (accepts zero ∷ answers) (suc m) write_size w v e l h =
      elim (Bool-cases (ltb 0 w.buffer.data_size && ltb write_size size)) [
        | inr stop ↦ rw stop (stopped (suc m) write_size w (rw e h))
        | inl go ↦
            let n : ℕ = min zero (chunk w.buffer).1 in
            let held : 0 < w.buffer.data_size = ground arith in
            let c = chunk_sent n answers w v held (omega arith) in
            let left : (sent_chunk n answers w).buffer.data_size ≡ w.buffer.data_size - n =
              ap (λ r. r.data_size) c.2 in
            rw go (
              chunk-Sent (suc m) (suc m) n answers w c.2 (omega arith) (omega arith) (
                flush_from-Sent answers (suc m) (write_size + n) (sent_chunk n answers w) c.1 refl
                  (omega (arith, left)) h))
      ]
  flush_from-Sent (again ∷ answers) (suc m) write_size w v e l h =
      elim (Bool-cases (ltb 0 w.buffer.data_size && ltb write_size size)) [
        | inr stop ↦ rw stop (stopped (suc m) write_size w (rw e h))
        | inl go ↦ rw go (
            again-Sent (suc m) answers w (
              flush_from-Sent answers (suc m) write_size (record w { answers = answers }) v refl l
                h))
      ]
  flush_from-Sent (accepts (suc k) ∷ answers) (suc m) write_size w v e l h =
      elim (Bool-cases (ltb 0 w.buffer.data_size && ltb write_size size)) [
        | inr stop ↦ rw stop (stopped (suc m) write_size w (rw e h))
        | inl go ↦
            let n : ℕ = min (suc k) (chunk w.buffer).1 in
            let held : 0 < w.buffer.data_size = ground arith in
            let b = chunk_bounds v held in
            let c = chunk_sent n answers w v held (omega arith) in
            let left : (sent_chunk n answers w).buffer.data_size ≡ w.buffer.data_size - n =
              ap (λ r. r.data_size) c.2 in
            rw go (
              chunk-Sent (suc m) m n answers w c.2 (omega (arith, b.1)) (omega (arith, b.2)) (
                flush_from-Sent answers m (write_size + n) (sent_chunk n answers w) c.1 refl
                  (omega (arith, left, b.1)) h))
      ]
