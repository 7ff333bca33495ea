-- ===== src/Bitmap/Bytes.antt =====
-- How the mask operations of a byte act on its eight bits, checked over all bytes.
use Prim.Native.Nat.{bit_and, bit_or}
use my_mini_ob.Base.{
  ℕ, zero, suc, ◌-◌, ◌^◌, ◌<◌, ◌≡◌, refl, Bool, true, false, not, ◌&&◌, ◌==◌, ltb, arith,
  if◌then◌else◌, ltb→lt,
}
use my_mini_ob.Bitmap.{test_bit}

-- a test of the first numbers, the last one last
holds_to : (ℕ → Bool) → ℕ → Bool
holds_to test zero = true
holds_to test (suc last) = holds_to test last && test last

holds_to_at :
    (test : ℕ → Bool) (bound k : ℕ) → k < bound → holds_to test bound ≡ true → test k ≡ true
unfolding holds_to
holds_to_at test zero k low h = ground arith
holds_to_at test (suc last) k low h = ground (arith, holds_to_at test last k)

-- the two Booleans agree
same : Bool → Bool → Bool
same true b = b
same false b = not b

same_sound : (a b : Bool) → same a b ≡ true → a ≡ b
unfolding same
same_sound true b h = ground arith
same_sound false b h = ground arith

-- over every byte and every two bits of it
everywhere : (ℕ → ℕ → ℕ → Bool) → Bool
everywhere p = holds_to (λ b. holds_to (λ i. holds_to (λ j. p b i j) 8) 8) 256

everywhere_sound :
    (p : ℕ → ℕ → ℕ → Bool) (b i j : ℕ)
    → everywhere p ≡ true
    → b < 256
    → i < 8
    → j < 8
    → p b i j ≡ true
unfolding everywhere
everywhere_sound p b i j h hb hi hj = holds_to_at (p b i) 8 j hj (
    holds_to_at (λ i. holds_to (λ j. p b i j) 8) 8 i hi
      (holds_to_at (λ b. holds_to (λ i. holds_to (λ j. p b i j) 8) 8) 256 b hb h))

set_check : ℕ → ℕ → ℕ → Bool
set_check b i j =
    same (test_bit (bit_or b (2 ^ i)) j) (if i == j then true else test_bit b j)
    && ltb (bit_or b (2 ^ i)) 256

clear_check : ℕ → ℕ → ℕ → Bool
clear_check b i j =
    same (test_bit (bit_and b (255 - 2 ^ i)) j) (if i == j then false else test_bit b j)
    && ltb (bit_and b (255 - 2 ^ i)) 256

set_table : everywhere set_check ≡ true
unfolding everywhere holds_to set_check same test_bit
set_table = refl

clear_table : everywhere clear_check ≡ true
unfolding everywhere holds_to clear_check same test_bit
clear_table = refl

and_parts : (a b : Bool) → (a && b) ≡ true → (a ≡ true) × (b ≡ true)
and_parts true b h = (refl, h)
and_parts false b h = absurd (cc)

module _ (b i j : ℕ) (hb : b < 256) (hi : i < 8) (hj : j < 8) where
  pub test_bit-bit_or :
      (test_bit (bit_or b (2 ^ i)) j ≡ (if i == j then true else test_bit b j))
      × (bit_or b (2 ^ i) < 256)
  unfolding set_check
  test_bit-bit_or =
      let e = and_parts _ _ (everywhere_sound set_check b i j set_table hb hi hj) in
      (same_sound _ _ e.0, ltb→lt _ _ e.1)

  pub test_bit-bit_and :
      (test_bit (bit_and b (255 - 2 ^ i)) j ≡ (if i == j then false else test_bit b j))
      × (bit_and b (255 - 2 ^ i) < 256)
  unfolding clear_check
  test_bit-bit_and =
      let e = and_parts _ _ (everywhere_sound clear_check b i j clear_table hb hi hj) in
      (same_sound _ _ e.0, ltb→lt _ _ e.1)

full_table : holds_to (test_bit 255) 8 ≡ true
unfolding holds_to test_bit
full_table = refl

empty_table : holds_to (λ i. not (test_bit 0 i)) 8 ≡ true
unfolding holds_to test_bit
empty_table = refl

pub test_bit-full : (i : ℕ) → i < 8 → test_bit 255 i ≡ true
test_bit-full i h = holds_to_at (test_bit 255) 8 i h full_table

pub test_bit-zero : (i : ℕ) → i < 8 → test_bit 0 i ≡ false
test_bit-zero i h = ground (arith, holds_to_at (λ i. not (test_bit 0 i)) 8 i h empty_table)
