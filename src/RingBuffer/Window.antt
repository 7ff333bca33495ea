-- ===== src/RingBuffer/Window.antt =====
-- The bytes that a valid ring holds, and where the next ones are read and written.
use mathlib.Core.Path.{ap₂}
use native.Mathlib.Nat.{mod-add-mod, mod-eq_of_lt, mod-eq-sub-mod}
use native.Mathlib.Decide.{dec_lt}
use my_mini_ob.Base.{
  ℕ, ◌+◌, ◌-◌, ◌%◌, ◌≤◌, ◌<◌, ◌≡◌, ◌⊎◌, inl, inr, ap, sym, ◌∙◌, List, ◌++◌, length, get_or, arith,
}
use my_mini_ob.Base.Memory.{
  read_at, write_at, length-write_at, get_or-write_at_inside, get_or-write_at_outside,
}
use my_mini_ob.Base.Tabulate.{
  tabulate, tabulate_eq, tabulate-add, length-tabulate, tabulate-get_or, read_at-eq-tabulate,
}
use my_mini_ob.RingBuffer.{RingBuffer, capacity, remain, read_pos, chunk, room_at_write_pos}

pub record IsValid (r : RingBuffer) : Type 0 where
  pub write_in : r.write_pos < capacity r
  pub size_in : r.data_size ≤ capacity r

-- the byte `j` places after `start`, going round
abbrev pub at : List ℕ → ℕ → ℕ → ℕ
at buffer start j = get_or buffer ((start + j) % length buffer) 0

-- the bytes held, oldest first
abbrev pub contents : RingBuffer → List ℕ
contents r = tabulate (at r.buffer (read_pos r)) r.data_size

-- The read position, before or after the write position.
pub read_pos_cases :
    {r : RingBuffer}
    → IsValid r
    → ((r.data_size ≤ r.write_pos) × (read_pos r ≡ r.write_pos - r.data_size))
      ⊎ ((r.write_pos < r.data_size) × (read_pos r ≡ r.write_pos + capacity r - r.data_size))
read_pos_cases {r} v = elim (dec_lt r.write_pos r.data_size) [
  | yes p ↦ inr (p, mod-eq_of_lt (omega arith))
  | no p ↦ inl (
    omega arith,
    mod-eq-sub-mod {n = r.write_pos + capacity r - r.data_size} {m = capacity r} (omega arith)
        ∙ mod-eq_of_lt (omega arith)
        ∙ omega arith,
  )
]

-- What `buffer` points at lies inside the array, is no more than the ring holds, and is something if
-- the ring holds anything.
pub chunk_bounds :
    {r : RingBuffer}
    → IsValid r
    → 0 < r.data_size
    → ((chunk r).0 ≡ read_pos r)
      × (0 < (chunk r).1)
      × ((chunk r).1 ≤ r.data_size)
      × (read_pos r + (chunk r).1 ≤ capacity r)
unfolding chunk
chunk_bounds {r} v h = ground (arith, read_pos_cases v)

-- The place for the next bytes: after the ones held, and some if there is any room.
pub room_bounds :
    {r : RingBuffer}
    → IsValid r
    → 0 < remain r
    → (0 < room_at_write_pos r)
      × (room_at_write_pos r ≤ remain r)
      × (r.write_pos + room_at_write_pos r ≤ capacity r)
room_bounds {r} v h = ground (arith, read_pos_cases v)

-- a remainder of a number less than twice the modulus
pub mod_once :
    (x cap : ℕ) → x < cap + cap → ((x < cap) × (x % cap ≡ x)) ⊎ ((cap ≤ x) × (x % cap ≡ x - cap))
mod_once x cap h = elim (dec_lt x cap) [
  | yes p ↦ inl (p, mod-eq_of_lt p)
  | no p ↦
      inr (omega arith, mod-eq-sub-mod {n = x} {m = cap} (omega arith) ∙ mod-eq_of_lt (omega arith))
]

-- the ring after `forward` has passed `k` bytes
abbrev pub passed : ℕ → RingBuffer → RingBuffer
passed k r = record r { data_size = r.data_size - k }

module _ {r : RingBuffer} (v : IsValid r) (k : ℕ) (h : k ≤ r.data_size) where
  read_pos-passed : read_pos (passed k r) ≡ (read_pos r + k) % capacity r
  read_pos-passed =
      let e : r.write_pos + capacity r - (r.data_size - k)
          ≡ r.write_pos + capacity r - r.data_size + k =
        omega (arith, v.size_in) in
      rw e (sym (mod-add-mod (r.write_pos + capacity r - r.data_size) (capacity r) k))

  pub passed-IsValid : IsValid (passed k r)
  passed-IsValid = record { write_in = v.write_in; size_in = omega (arith, v.size_in) }

  -- The first `k` bytes are gone and the others stay.
  pub contents-passed : contents r ≡ tabulate (at r.buffer (read_pos r)) k ++ contents (passed k r)
  contents-passed =
      let e : r.data_size ≡ k + (r.data_size - k) = omega arith in
      ap (tabulate (at r.buffer (read_pos r))) e
      ∙ tabulate-add (at r.buffer (read_pos r)) k (r.data_size - k)
      ∙ ap (λ l. tabulate (at r.buffer (read_pos r)) k ++ l)
          (tabulate_eq _ _ (r.data_size - k) (λ j q.
            let a : read_pos r + (k + j) ≡ read_pos r + k + j = omega arith in
            rw (a, read_pos-passed, mod-add-mod (read_pos r + k) (capacity r) j)))

-- One piece is what `memcpy` copies out of the array.
pub piece :
    (buffer : List ℕ) (start n : ℕ)
    → start + n ≤ length buffer
    → read_at buffer start n ≡ tabulate (at buffer start) n
piece buffer start n h =
    read_at-eq-tabulate buffer start n
    ∙ tabulate_eq _ _ n (λ j q. ap (λ i. get_or buffer i 0) (sym (mod-eq_of_lt (omega arith))))

module _ {r : RingBuffer} (v : IsValid r) (c : ℕ) (new : List ℕ) (len : length new ≡ c)
    (fits : r.write_pos + c ≤ capacity r) (room : c ≤ remain r) where
  abbrev grown : RingBuffer
  grown = record {
    buffer = write_at r.buffer r.write_pos new;
    data_size = r.data_size + c;
    write_pos = (r.write_pos + c) % capacity r;
  }

  capacity-grown : capacity grown ≡ capacity r
  capacity-grown = length-write_at r.buffer r.write_pos new

  pub grown-IsValid : IsValid grown
  grown-IsValid = record {
    write_in = omega (
      arith,
      capacity-grown,
      mod_once (r.write_pos + c) (capacity r) (omega (arith, v.write_in)),
      v.write_in,
    );
    size_in = omega (arith, capacity-grown, v.size_in);
  }

  read_pos-grown : read_pos grown ≡ read_pos r
  read_pos-grown = omega (
    arith,
    capacity-grown,
    mod_once (r.write_pos + c) (capacity r) (omega (arith, v.write_in)),
    read_pos_cases grown-IsValid,
    read_pos_cases v,
    v.write_in,
    v.size_in,
  )

  -- a byte that was held
  old_byte : (j : ℕ) → j < r.data_size → at grown.buffer (read_pos r) j ≡ at r.buffer (read_pos r) j
  old_byte j h = rw capacity-grown (
      get_or-write_at_outside r.buffer r.write_pos new ((read_pos r + j) % capacity r) (
        omega (
          arith,
          read_pos_cases v,
          mod_once (read_pos r + j) (capacity r)
              (omega (arith, v.size_in, read_pos_cases v, v.write_in)),
          v.write_in,
          v.size_in,
          len,
        )))

  new_byte : (j : ℕ) → j < c → at grown.buffer (read_pos r) (r.data_size + j) ≡ get_or new j 0
  new_byte j h =
      let e : (read_pos r + (r.data_size + j)) % capacity r ≡ r.write_pos + j = omega (
        arith,
        read_pos_cases v,
        mod_once (read_pos r + (r.data_size + j)) (capacity r)
            (omega (arith, v.size_in, read_pos_cases v, v.write_in)),
        v.write_in,
        v.size_in,
      ) in
      rw (capacity-grown, e)
        (get_or-write_at_inside r.buffer r.write_pos new j (omega arith) (omega arith))

  -- The bytes held are those that were, and the new ones behind them.
  pub contents-grown : contents grown ≡ contents r ++ new
  contents-grown =
      ap (λ i. tabulate (at grown.buffer i) (r.data_size + c)) read_pos-grown
      ∙ tabulate-add (at grown.buffer (read_pos r)) r.data_size c
      ∙ ap₂ ◌++◌ (tabulate_eq _ _ r.data_size old_byte) (
          tabulate_eq _ _ c new_byte
          ∙ ap (tabulate (λ j. get_or new j 0)) (sym len)
          ∙ tabulate-get_or new)

-- The bytes copied out of the readable piece and passed are the oldest ones.
pub chunk-passed :
    {r : RingBuffer} (n : ℕ)
    → IsValid r
    → 0 < r.data_size
    → n ≤ (chunk r).1
    → contents r ≡ read_at r.buffer (chunk r).0 n ++ contents (passed n r)
chunk-passed {r} n v h l =
    let b = chunk_bounds v h in
    contents-passed v n (omega (arith, b.2))
    ∙ ap (λ l. l ++ contents (passed n r))
        (sym (piece r.buffer (read_pos r) n (omega (arith, b.3)))
          ∙ ap (λ i. read_at r.buffer i n) (sym b.0))

pub length-contents : (r : RingBuffer) → length (contents r) ≡ r.data_size
length-contents r = length-tabulate (at r.buffer (read_pos r)) r.data_size
