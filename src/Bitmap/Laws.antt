-- ===== src/Bitmap/Laws.antt =====
-- Reading a bit after a bit has been set or cleared.
use native.Mathlib.Decide.{ℕ_discrete}
use Prim.Native.Nat.{bit_and, bit_or}
use my_mini_ob.Base.{
  ℕ, ◌-◌, ◌*◌, ◌/◌, ◌%◌, ◌^◌, ◌≤◌, ◌<◌, ◌≡◌, ◌≢◌, refl, true, false, ◌==◌, arith, if◌then◌else◌,
  List, length, get_or, set, length-set, get_or-set_self, get_or-set_ne,
}
use my_mini_ob.Bitmap.{Bitmap, get_bit, set_bit, clear_bit}
use my_mini_ob.Bitmap.Bytes.{test_bit-bit_or, test_bit-bit_and}

-- The array has a byte for every eight bits of the size, and holds bytes.
pub record IsValid (b : Bitmap) : Type 0 where
  pub room : b.size ≤ 8 * length b.bitmap
  pub is_byte : (i : ℕ) → get_or b.bitmap i 0 < 256

pub byte_index : (i n m : ℕ) → i < n → n ≤ 8 * m → i / 8 < m
byte_index i n m h k = omega arith

same_byte : (i j : ℕ) → i / 8 ≡ j / 8 → (i % 8 == j % 8) ≡ (i == j)
same_byte i j e = ground arith

other_byte : (i j : ℕ) → i / 8 ≢ j / 8 → (i == j) ≡ false
other_byte i j e = ground arith

module _ (xs : List ℕ) (i v : ℕ) (all : (k : ℕ) → get_or xs k 0 < 256) (hv : v < 256) where
  set-is_byte : i < length xs → (k : ℕ) → get_or (set xs i v) k 0 < 256
  set-is_byte h k = elim (ℕ_discrete i k) [
    | yes e ↦ rw (← e, get_or-set_self xs i v 0 h) hv
    | no ne ↦ rw (get_or-set_ne xs i k v 0 ne) (all k)
  ]

module _ {b : Bitmap} (v : IsValid b) (i : ℕ) (h : i < b.size) where
  here : i / 8 < length b.bitmap
  here = byte_index i b.size (length b.bitmap) h v.room

  abbrev old : ℕ → ℕ
  old j = get_or b.bitmap (j / 8) 0

  -- Setting a bit of a valid bitmap, inside its size, sets that bit and no other, also beyond the size.
  pub get_bit-set_bit : (j : ℕ) → get_bit (set_bit b i) j ≡ (if i == j then true else get_bit b j)
  unfolding get_bit set_bit
  get_bit-set_bit j = elim (ℕ_discrete (i / 8) (j / 8)) [
    | yes e ↦
        rw (← e, get_or-set_self b.bitmap (i / 8) (bit_or (old i) (2 ^ (i % 8))) 0 here)
          (rw (
            (test_bit-bit_or (old i) (i % 8) (j % 8) (v.is_byte _) (omega arith) (omega arith)).0,
            same_byte i j e,
          ))
    | no ne ↦ rw (get_or-set_ne b.bitmap (i / 8) (j / 8) _ 0 ne, other_byte i j ne)
  ]

  -- Clearing a bit of a valid bitmap, inside its size, clears that bit and no other, also beyond the
  -- size.
  pub get_bit-clear_bit :
      (j : ℕ) → get_bit (clear_bit b i) j ≡ (if i == j then false else get_bit b j)
  unfolding get_bit clear_bit
  get_bit-clear_bit j = elim (ℕ_discrete (i / 8) (j / 8)) [
    | yes e ↦
        rw (← e, get_or-set_self b.bitmap (i / 8) (bit_and (old i) (255 - 2 ^ (i % 8))) 0 here)
          (rw (
            (test_bit-bit_and (old i) (i % 8) (j % 8) (v.is_byte _) (omega arith) (omega arith)).0,
            same_byte i j e,
          ))
    | no ne ↦ rw (get_or-set_ne b.bitmap (i / 8) (j / 8) _ 0 ne, other_byte i j ne)
  ]

  pub set_bit-IsValid : IsValid (set_bit b i)
  unfolding set_bit
  set_bit-IsValid = record {
    room = rw length-set v.room;
    is_byte =
        set-is_byte b.bitmap (i / 8) _ v.is_byte
          (test_bit-bit_or (old i) (i % 8) 0 (v.is_byte _) (omega arith) (omega arith)).1 here;
  }

  pub clear_bit-IsValid : IsValid (clear_bit b i)
  unfolding clear_bit
  clear_bit-IsValid = record {
    room = rw length-set v.room;
    is_byte =
        set-is_byte b.bitmap (i / 8) _ v.is_byte
          (test_bit-bit_and (old i) (i % 8) 0 (v.is_byte _) (omega arith) (omega arith)).1 here;
  }

pub size-set_bit : (b : Bitmap) (i : ℕ) → (set_bit b i).size ≡ b.size
unfolding set_bit
size-set_bit b i = refl

pub size-clear_bit : (b : Bitmap) (i : ℕ) → (clear_bit b i).size ≡ b.size
unfolding clear_bit
size-clear_bit b i = refl
