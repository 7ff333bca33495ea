-- ===== src/Base/First.antt =====
-- What it means for an optional index to be the first place, from `lo` on and below `hi`, at which a
-- sequence of Booleans has a given value.
use my_mini_ob.Base.Tests.{ltb, if◌then◌else◌}
use Prim.Native.Nat.{ℕ, ◌≤◌, ◌<◌}
use mathlib.Core.Path.{◌≡◌}
use mathlib.Core.Bool.{Bool, not}
use mathlib.Core.Option.{Option, none, some}
use native.Mathlib.Omega.{arith}
use native.Mathlib.Decide.{dec_lt}

abbrev pub Misses : (ℕ → Bool) → Bool → ℕ → ℕ → Type 0
Misses p want lo hi = (j : ℕ) → lo ≤ j → j < hi → p j ≡ not want

abbrev pub IsFirst : (ℕ → Bool) → Bool → ℕ → ℕ → Option ℕ → Type 0
IsFirst p want lo hi none = Misses p want lo hi
IsFirst p want lo hi (some k) = (lo ≤ k) × (k < hi) × (p k ≡ want) × Misses p want lo k

module _ (p : ℕ → Bool) (want : Bool) where
  pub Misses-append :
      (lo mid hi : ℕ) → Misses p want lo mid → Misses p want mid hi → Misses p want lo hi
  Misses-append lo mid hi f g j l h = elim (dec_lt j mid) [
    | yes q ↦ f j l q
    | no q ↦ g j (omega arith) h
  ]

  -- A search may start later if nothing is missed.
  pub IsFirst-earlier :
      (lo mid hi : ℕ) (r : Option ℕ)
      → lo ≤ mid
      → Misses p want lo mid
      → IsFirst p want mid hi r
      → IsFirst p want lo hi r
  IsFirst-earlier lo mid hi none l f g = Misses-append lo mid hi f g
  IsFirst-earlier lo mid hi (some k) l f g = (omega arith, g.1, g.2, Misses-append lo mid k f g.3)

  -- A hit at or past a smaller end is no hit.
  abbrev pub cut : ℕ → Option ℕ → Option ℕ
  cut hi none = none
  cut hi (some k) = if ltb k hi then some k else none
