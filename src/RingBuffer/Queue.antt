-- ===== src/RingBuffer/Queue.antt =====
-- A valid ring behaves as a bounded first-in first-out queue of its bytes.
use my_mini_ob.Base.{
  ℕ, zero, suc, ◌+◌, ◌-◌, ◌≤◌, ◌<◌, min, ◌≡◌, ◌⊎◌, inl, inr, refl, ap, sym, ◌∙◌, List, [], ◌++◌,
  length, arith, ltb, ◌&&◌, Bool-cases, Option, some, length-append, append_assoc, append-nil,
}
use my_mini_ob.Base.Int.{ℤ, pos, negsuc}
use my_mini_ob.Base.Memory.{read_at, length-read_at, read_at-append, length-write_at}
use my_mini_ob.Base.Tabulate.{tabulate, length-tabulate}
use my_mini_ob.Rc.{Rc, success, invalid_argument}
use my_mini_ob.RingBuffer.{
  RingBuffer, capacity, remain, read_pos, chunk, forward, read_from, read, room_at_write_pos,
  write_round, write_from, write,
}
use my_mini_ob.RingBuffer.Window.{
  IsValid, contents, at, chunk_bounds, room_bounds, passed, passed-IsValid, contents-passed,
  chunk-passed, grown-IsValid, contents-grown,
}

-- What a loop of `read` has done, from `r` with the bytes `out` read.
record Done (size : ℕ) (out : List ℕ) (r : RingBuffer) (result : Option (Rc × List ℕ × RingBuffer))
    : Type 0 where
  more : List ℕ
  after : RingBuffer
  returns : result ≡ some (success, out ++ more, after)
  valid : IsValid after
  moved : contents r ≡ more ++ contents after
  count : length more ≡ min (size - length out) r.data_size
  left : after.data_size + length more ≡ r.data_size
  same : after.buffer ≡ r.buffer

-- one round passes the bytes that it copies
module _ (size : ℕ) (out : List ℕ) (r : RingBuffer) where
  abbrev copied : ℕ
  copied = min (size - length out) (chunk r).1

  round_bytes :
      IsValid r
      → 0 < r.data_size
      → contents r ≡ read_at r.buffer (chunk r).0 copied ++ contents (passed copied r)
  round_bytes v h = chunk-passed copied v h (omega arith)

pub forward-pos :
    (k : ℕ) (r : RingBuffer) → k ≤ r.data_size → forward (pos k) r ≡ (success, passed k r)
unfolding forward
forward-pos k r h = ground arith

-- one more round in front
Done-cons :
    (size : ℕ) (out : List ℕ) (r : RingBuffer) {result rest : Option (Rc × List ℕ × RingBuffer)}
    → IsValid r
    → result ≡ rest
    → length out < size
    → 0 < r.data_size
    → Done size
        (out ++ read_at r.buffer (chunk r).0 (copied size out r))
        (passed (copied size out r) r)
        rest
    → Done size out r result
Done-cons size out r v e l h d =
    let c : ℕ = copied size out r in
    let front : List ℕ = read_at r.buffer (chunk r).0 c in
    let small : c ≤ r.data_size = omega (arith, (chunk_bounds v h).2) in
    record {
      more = front ++ d.more;
      after = d.after;
      returns =
          e ∙ d.returns ∙ ap (λ l. some (success, l, d.after)) (append_assoc out front d.more);
      valid = d.valid;
      moved =
          round_bytes size out r v h
          ∙ ap (λ l. front ++ l) d.moved
          ∙ sym (append_assoc front d.more (contents d.after));
      count = omega (
        arith,
        length-append {0} front d.more,
        length-append {0} out front,
        length-read_at r.buffer (chunk r).0 c,
        d.count,
        small,
      );
      left = omega (
        arith,
        length-append {0} front d.more,
        length-read_at r.buffer (chunk r).0 c,
        d.left,
        small,
      );
      same = d.same;
    }

read_from-Done :
    (fuel size : ℕ) (out : List ℕ) {r : RingBuffer}
    → IsValid r
    → length out ≤ size
    → size - length out < fuel
    → Done size out r (read_from fuel size out success r)
unfolding read_from
read_from-Done zero size out v l f = absurd (omega arith)
read_from-Done (suc fuel) size out {r} v l f =
    elim (Bool-cases (ltb (length out) size && ltb 0 r.data_size)) [
      | inr stop ↦ record {
        more = [];
        after = r;
        returns = rw (stop, append-nil);
        valid = v;
        moved = refl;
        count = ground arith;
        left = omega arith;
        same = refl;
      }
      | inl go ↦
          let c : ℕ = copied size out r in
          let piece' : List ℕ = read_at r.buffer (chunk r).0 c in
          let some_left : (length out < size) × (0 < r.data_size) = (ground arith, ground arith) in
          let b = chunk_bounds v some_left.1 in
          let n : length (out ++ piece') ≡ length out + c =
            omega (arith, length-append {0} out piece', length-read_at r.buffer (chunk r).0 c) in
          let small : c ≤ r.data_size = omega (arith, b.2) in
          let d =
            read_from-Done fuel size (out ++ piece') (passed-IsValid v c small) (omega (arith, n))
              (omega (arith, n, b.1, some_left.0)) in
          Done-cons size out r v (rw (go, forward-pos c r small)) some_left.0 some_left.1 d
    ]

-- `read(buf, size, read_size)` on a valid ring always returns: it succeeds, takes the oldest bytes,
-- as many as were asked for or as there are, and leaves the others in order and the ring valid.
pub read_lem :
    (size : ℕ) (r : RingBuffer)
    → IsValid r
    → (out : List ℕ) × (after : RingBuffer) × (read (pos size) r ≡ some (success, out, after))
      × (contents r ≡ out ++ contents after)
      × (length out ≡ min size r.data_size)
      × IsValid after
unfolding read
read_lem size r v =
    let d = read_from-Done (suc size) size [] v (omega arith) (omega arith) in
    (d.more, d.after, d.returns, d.moved, omega (arith, d.count), d.valid)

-- `forward(size)` drops that many of the oldest bytes, and a size that is negative or more than the
-- ring holds is refused and changes nothing.
pub forward_lem :
    (size : ℤ) (r : RingBuffer)
    → IsValid r
    → ((k : ℕ) × (size ≡ pos k)
        × (dropped : List ℕ) × (length dropped ≡ k)
        × (after : RingBuffer) × (forward size r ≡ (success, after))
        × (contents r ≡ dropped ++ contents after)
        × IsValid after)
      ⊎ (forward size r ≡ (invalid_argument, r))
forward_lem (negsuc n) r v = inr (unfold forward in refl)
forward_lem (pos k) r v = elim (Bool-cases (ltb r.data_size k)) [
  | inl big ↦ inr (unfold forward in rw big)
  | inr small ↦
      let h : k ≤ r.data_size = ground arith in
      inl (
        k,
        refl,
        tabulate (at r.buffer (read_pos r)) k,
        length-tabulate _ k,
        passed k r,
        forward-pos k r h,
        contents-passed v k h,
        passed-IsValid v k h,
      )
]

-- What the loop of `write` has done, from `r` with `write_size` bytes written.
record Wrote (data' : List ℕ) (size write_size : ℕ) (r : RingBuffer)
    (result : Option (Rc × ℕ × RingBuffer)) : Type 0 where
  count : ℕ
  after : RingBuffer
  returns : result ≡ some (success, write_size + count, after)
  valid : IsValid after
  moved : contents after ≡ contents r ++ read_at data' write_size count
  many : count ≡ min (size - write_size) (remain r)
  same : capacity after ≡ capacity r

module _ (data' : List ℕ) (size write_size : ℕ) (r : RingBuffer) where
  abbrev taken : ℕ
  taken = min (size - write_size) (room_at_write_pos r)

  Wrote-cons :
      {result rest : Option (Rc × ℕ × RingBuffer)}
      → IsValid r
      → result ≡ rest
      → write_size < size
      → 0 < remain r
      → Wrote data' size (write_size + taken) (write_round data' size write_size r) rest
      → Wrote data' size write_size r result
  Wrote-cons v e l h d =
      let b = room_bounds v h in
      let new : List ℕ = read_at data' write_size taken in
      let len : length new ≡ taken = length-read_at data' write_size taken in
      record {
        count = taken + d.count;
        after = d.after;
        returns = e ∙ d.returns ∙ ap (λ n. some (success, n, d.after)) (omega arith);
        valid = d.valid;
        moved =
            d.moved
            ∙ ap (λ l. l ++ read_at data' (write_size + taken) d.count)
                (contents-grown v taken new len (omega (arith, b.2)) (omega (arith, b.1)))
            ∙ append_assoc (contents r) new (read_at data' (write_size + taken) d.count)
            ∙ ap (λ l. contents r ++ l) (read_at-append data' write_size taken d.count);
        many = omega (arith, d.many, b.1, b.2, v.size_in, length-write_at r.buffer r.write_pos new);
        same = d.same ∙ length-write_at r.buffer r.write_pos new;
      }

write_from-Wrote :
    (fuel : ℕ) (data' : List ℕ) (size write_size : ℕ) {r : RingBuffer}
    → IsValid r
    → write_size ≤ size
    → size - write_size < fuel
    → Wrote data' size write_size r (write_from fuel data' size write_size r)
unfolding write_from
write_from-Wrote zero data' size write_size v l f = absurd (omega arith)
write_from-Wrote (suc fuel) data' size write_size {r} v l f =
    elim (Bool-cases (ltb write_size size && ltb 0 (remain r))) [
      | inr stop ↦ record {
        count = 0;
        after = r;
        returns = rw stop (ap (λ n. some (success, n, r)) (omega arith));
        valid = v;
        moved = rw append-nil;
        many = ground arith;
        same = refl;
      }
      | inl go ↦
          let left : (write_size < size) × (0 < remain r) = (ground arith, ground arith) in
          let b = room_bounds v left.1 in
          let c : ℕ = taken data' size write_size r in
          Wrote-cons data' size write_size r v (rw go) left.0 left.1 (
            write_from-Wrote fuel data' size (write_size + c)
              (grown-IsValid v c (read_at data' write_size c) (length-read_at data' write_size c)
                (omega (arith, b.2)) (omega (arith, b.1)))
              (omega arith) (omega (arith, b.0)))
    ]

-- `write(data, size, write_size)` on a valid ring always returns: it succeeds, appends the front of
-- the data, all of it or as much as there is room for, behind the bytes held, and leaves the ring
-- valid and of the same capacity.
pub write_lem :
    (data' : List ℕ) (size : ℕ) (r : RingBuffer)
    → IsValid r
    → (count : ℕ) × (after : RingBuffer) × (write data' (pos size) r ≡ some (success, count, after))
      × (contents after ≡ contents r ++ read_at data' 0 count)
      × (count ≡ min size (remain r))
      × IsValid after
      × (capacity after ≡ capacity r)
unfolding write
write_lem data' size r v =
    let d = write_from-Wrote (suc size) data' size 0 v (omega arith) (omega arith) in
    (
      d.count,
      d.after,
      d.returns ∙ ap (λ n. some (success, n, d.after)) (omega arith),
      d.moved,
      omega (arith, d.many),
      d.valid,
      d.same,
    )
