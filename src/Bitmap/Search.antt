-- ===== src/Bitmap/Search.antt =====
-- The searches find the first bit of the wanted value, and report none only if there is none.
use Prim.Native.Nat.{bit_and}
use native.Mathlib.Decide.{dec_lt}
use my_mini_ob.Base.{
  ℕ, zero, suc, ◌-◌, ◌+◌, ◌∙◌, ◌*◌, ◌/◌, ◌%◌, ◌^◌, ◌≤◌, ◌<◌, ◌≡◌, refl, Bool, true, false, not,
  ◌==◌, arith, List, get_or, Bool-cases, inl, inr, Option, none, some, leb, ==_iff,
}
use my_mini_ob.Base.First.{Misses, IsFirst, IsFirst-earlier}
use my_mini_ob.Bitmap.{
  test_bit, find_first_zero_from, find_first_zero, find_first_setted_from, find_first_setted,
  Bitmap, get_bit, bytes, hit_or, cut, next_unsetted_from, next_unsetted_bit, next_setted_from,
  next_setted_bit,
}
use my_mini_ob.Bitmap.Bytes.{test_bit-full, test_bit-zero}

one : (p : ℕ → Bool) (want : Bool) (i : ℕ) → p i ≡ not want → Misses p want i (i + 1)
one p want i e j l h = let q : i ≡ j = omega arith in rw (← q) e

module _ (byte : ℕ) where
  find_first_zero_from-IsFirst :
      (n i : ℕ) → i + n ≡ 8 → IsFirst (test_bit byte) false i 8 (find_first_zero_from n byte i)
  unfolding find_first_zero_from test_bit
  find_first_zero_from-IsFirst zero i e = λ j l h. absurd (omega arith)
  find_first_zero_from-IsFirst (suc n) i e = elim (Bool-cases (bit_and byte (2 ^ i) == 0)) [
    | inl z ↦ rw z (omega arith, omega arith, rw z, λ j l h. absurd (omega arith))
    | inr s ↦ rw s (
        IsFirst-earlier (test_bit byte) false i (i + 1) 8 _ (omega arith)
          (one (test_bit byte) false i (rw s))
          (find_first_zero_from-IsFirst n (i + 1) (omega arith)))
  ]

  find_first_setted_from-IsFirst :
      (n i : ℕ) → i + n ≡ 8 → IsFirst (test_bit byte) true i 8 (find_first_setted_from n byte i)
  unfolding find_first_setted_from test_bit
  find_first_setted_from-IsFirst zero i e = λ j l h. absurd (omega arith)
  find_first_setted_from-IsFirst (suc n) i e = elim (Bool-cases (bit_and byte (2 ^ i) == 0)) [
    | inl z ↦ rw z (
        IsFirst-earlier (test_bit byte) true i (i + 1) 8 _ (omega arith)
          (one (test_bit byte) true i (rw z))
          (find_first_setted_from-IsFirst n (i + 1) (omega arith)))
    | inr s ↦ rw s (omega arith, omega arith, rw s, λ j l h. absurd (omega arith))
  ]

  -- The search of a byte finds its first zero bit.
  pub find_first_zero-IsFirst :
      (start : ℕ) → start < 8 → IsFirst (test_bit byte) false start 8 (find_first_zero byte start)
  unfolding find_first_zero
  find_first_zero-IsFirst start h = find_first_zero_from-IsFirst (8 - start) start (omega arith)

  pub find_first_setted-IsFirst :
      (start : ℕ) → start < 8 → IsFirst (test_bit byte) true start 8 (find_first_setted byte start)
  unfolding find_first_setted
  find_first_setted-IsFirst start h = find_first_setted_from-IsFirst (8 - start) start (omega arith)

-- Bits of one byte, seen as bits of the array.
module _ (bitmap : List ℕ) (want : Bool) where
  abbrev bit : ℕ → Bool
  bit j = test_bit (get_or bitmap (j / 8) 0) (j % 8)

  bit_in :
      (iter j : ℕ)
      → iter * 8 ≤ j
      → j < iter * 8 + 8
      → bit j ≡ test_bit (get_or bitmap iter 0) (j - iter * 8)
  bit_in iter j l h =
      let q : j / 8 ≡ iter = omega arith in let r : j % 8 ≡ j - iter * 8 = omega arith in rw (q, r)

  Misses-in :
      (iter s t : ℕ)
      → t ≤ 8
      → Misses (test_bit (get_or bitmap iter 0)) want s t
      → Misses bit want (iter * 8 + s) (iter * 8 + t)
  Misses-in iter s t le f j l h =
      bit_in iter j (omega arith) (omega arith) ∙ f (j - iter * 8) (omega arith) (omega arith)

  -- one byte of the loop: a hit in the byte, or the rest
  hit_or-IsFirst :
      (iter s hi : ℕ) (r rest : Option ℕ)
      → iter * 8 + 8 ≤ hi
      → s ≤ 8
      → IsFirst (test_bit (get_or bitmap iter 0)) want s 8 r
      → IsFirst bit want ((iter + 1) * 8 + 0) hi rest
      → IsFirst bit want (iter * 8 + s) hi (hit_or iter r rest)
  hit_or-IsFirst iter s hi none rest e sl f g =
      IsFirst-earlier bit want (iter * 8 + s) ((iter + 1) * 8 + 0) hi rest (omega arith)
        (λ j l h. Misses-in iter s 8 (omega arith) f j l (omega arith)) g
  hit_or-IsFirst iter s hi (some k) rest e sl f g = (
    omega arith,
    omega arith,
    bit_in iter (iter * 8 + k) (omega arith) (omega arith)
        ∙ (let q : iter * 8 + k - iter * 8 ≡ k = omega arith in rw q f.2),
    Misses-in iter s k (omega arith) f.3,
  )

module _ (bitmap : List ℕ) where
  next_unsetted_from-IsFirst :
      (n iter s hi : ℕ)
      → (iter + n) * 8 ≡ hi
      → s < 8
      → IsFirst (bit bitmap false) false (iter * 8 + s) hi (next_unsetted_from n bitmap iter s)
  unfolding next_unsetted_from
  next_unsetted_from-IsFirst zero iter s hi e sl = λ j l h. absurd (omega arith)
  next_unsetted_from-IsFirst (suc n) iter s hi e sl =
      elim (Bool-cases (get_or bitmap iter 0 == 255)) [
        | inl f ↦ rw f (
            hit_or-IsFirst bitmap false iter s hi none _ (omega arith) (omega arith)
              (λ j l h. rw ((==_iff _ _).0 f) (test_bit-full j h))
              (next_unsetted_from-IsFirst n (iter + 1) 0 hi (omega arith) (omega arith)))
        | inr f ↦ rw f (
            hit_or-IsFirst bitmap false iter s hi _ _ (omega arith) (omega arith)
              (find_first_zero-IsFirst (get_or bitmap iter 0) s sl)
              (next_unsetted_from-IsFirst n (iter + 1) 0 hi (omega arith) (omega arith)))
      ]

module _ (bitmap : List ℕ) where
  next_setted_from-IsFirst :
      (n iter s hi : ℕ)
      → (iter + n) * 8 ≡ hi
      → s < 8
      → IsFirst (bit bitmap true) true (iter * 8 + s) hi (next_setted_from n bitmap iter s)
  unfolding next_setted_from
  next_setted_from-IsFirst zero iter s hi e sl = λ j l h. absurd (omega arith)
  next_setted_from-IsFirst (suc n) iter s hi e sl = elim (Bool-cases (get_or bitmap iter 0 == 0)) [
    | inl f ↦ rw f (
        hit_or-IsFirst bitmap true iter s hi none _ (omega arith) (omega arith)
          (λ j l h. rw ((==_iff _ _).0 f) (test_bit-zero j h))
          (next_setted_from-IsFirst n (iter + 1) 0 hi (omega arith) (omega arith)))
    | inr f ↦ rw f (
        hit_or-IsFirst bitmap true iter s hi _ _ (omega arith) (omega arith)
          (find_first_setted-IsFirst (get_or bitmap iter 0) s sl)
          (next_setted_from-IsFirst n (iter + 1) 0 hi (omega arith) (omega arith)))
  ]

cut-IsFirst :
    (p : ℕ → Bool) (want : Bool) (lo hi size : ℕ) (r : Option ℕ)
    → size ≤ hi
    → IsFirst p want lo hi r
    → IsFirst p want lo size (cut size r)
cut-IsFirst p want lo hi size none e f = λ j l h. f j l (omega arith)
cut-IsFirst p want lo hi size (some k) e f = elim (dec_lt k size) [
  | yes q ↦ let c : leb size k ≡ false = ground arith in rw c (omega arith, q, f.2, f.3)
  | no q ↦ let c : leb size k ≡ true = ground arith in rw c (λ j l h. f.3 j l (omega arith))
]

last_byte : (size start : ℕ) → size ≤ (start / 8 + (bytes size - start / 8)) * 8
unfolding bytes
last_byte size start = ground arith

split_start : (start : ℕ) → start / 8 * 8 + start % 8 ≡ start
split_start start = omega arith

-- `next_unsetted_bit(start)` is the first clear bit from `start` on and below the size; if it is
-- none, all of them are set.
pub next_unsetted_bit-IsFirst :
    (b : Bitmap) (start : ℕ) → IsFirst (get_bit b) false start b.size (next_unsetted_bit b start)
unfolding next_unsetted_bit get_bit
next_unsetted_bit-IsFirst b start = cut-IsFirst _ false start _ b.size _ (last_byte b.size start) (
    rw split_start at (
      next_unsetted_from-IsFirst b.bitmap (bytes b.size - start / 8) (start / 8) (start % 8) _ refl
        (omega arith)))

-- `next_setted_bit(start)` is the first set bit from `start` on and below the size; if it is none,
-- all of them are clear.
pub next_setted_bit-IsFirst :
    (b : Bitmap) (start : ℕ) → IsFirst (get_bit b) true start b.size (next_setted_bit b start)
unfolding next_setted_bit get_bit
next_setted_bit-IsFirst b start = cut-IsFirst _ true start _ b.size _ (last_byte b.size start) (
    rw split_start at (
      next_setted_from-IsFirst b.bitmap (bytes b.size - start / 8) (start / 8) (start % 8) _ refl
        (omega arith)))
