-- ===== src/Base/Count.antt =====
-- How many of the first `n` places of a Boolean sequence hold.
use my_mini_ob.Base.Tests.{◌==◌, if◌then◌else◌}
use Prim.Native.Nat.{ℕ, zero, suc, ◌+◌, ◌≤◌, ◌<◌}
use mathlib.Core.Path.{◌≡◌, refl}
use mathlib.Core.Bool.{Bool, true, false}
use native.Mathlib.Omega.{arith}
use native.Mathlib.Decide.{ℕ_discrete}

abbrev pub count : (ℕ → Bool) → ℕ → ℕ
count p zero = 0
count p (suc n) = count p n + (if p n then 1 else 0)

module _ (p q : ℕ → Bool) where
  pub count-eq : (n : ℕ) → ((j : ℕ) → j < n → p j ≡ q j) → count p n ≡ count q n
  count-eq zero h = refl
  count-eq (suc n) h = ground (arith, count-eq n (λ j k. h j (omega arith)), h n (omega arith))

module _ (p : ℕ → Bool) where
  pub count-le : (n : ℕ) → count p n ≤ n
  count-le zero = omega arith
  count-le (suc n) = ground (arith, count-le n)

  pub count-all : (n : ℕ) → ((j : ℕ) → j < n → p j ≡ true) → count p n ≡ n
  count-all zero h = refl
  count-all (suc n) h = ground (arith, count-all n (λ j k. h j (omega arith)), h n (omega arith))

  -- if all places count, all of them hold
  pub count-full : (n : ℕ) → count p n ≡ n → (j : ℕ) → j < n → p j ≡ true
  count-full zero e j l = absurd (omega arith)
  count-full (suc n) e j l = elim (ℕ_discrete j n) [
    | yes q ↦ ground (arith, q, count-le n)
    | no q ↦ count-full n (ground (arith, count-le n)) j (omega arith)
  ]

  pub count-set :
      (i n : ℕ)
      → i < n
      → p i ≡ false
      → count (λ j. if i == j then true else p j) n ≡ suc (count p n)
  count-set i zero h e = absurd (omega arith)
  count-set i (suc n) h e = elim (ℕ_discrete i n) [
    | yes q ↦
        ground (arith, q, count-eq (λ j. if i == j then true else p j) p n (λ j k. ground arith))
    | no q ↦ ground (arith, count-set i n (omega arith) e)
  ]

  pub count-clear :
      (i n : ℕ)
      → i < n
      → p i ≡ true
      → suc (count (λ j. if i == j then false else p j) n) ≡ count p n
  count-clear i zero h e = absurd (omega arith)
  count-clear i (suc n) h e = elim (ℕ_discrete i n) [
    | yes q ↦
        ground (arith, q, count-eq (λ j. if i == j then false else p j) p n (λ j k. ground arith))
    | no q ↦ ground (arith, count-clear i n (omega arith) e)
  ]
