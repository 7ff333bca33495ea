-- ===== src/LowerBound/Examples.antt =====
-- The search on a concrete sequence.
use my_mini_ob.Base.{ℕ, ◌≡◌, refl, true, some, arith}
use my_mini_ob.Base.Int.{ℤ, sub_ℕ}
use my_mini_ob.LowerBound.{search, lower_bound}
use my_mini_ob.LowerBound.Laws.{IsSorted, Found, lower_bound-Found}

-- the numbers 0 to 5 against 3
abbrev against_three : ℕ → ℤ
against_three n = sub_ℕ n 3

against_three-IsSorted : IsSorted against_three 6
against_three-IsSorted = record {
  before = λ j k h h' e. ground arith;
  behind = λ j k h h' e. ground arith;
}

at_three : lower_bound against_three 6 ≡ some (3, true)
unfolding lower_bound search
at_three = refl

lower_bound-Found_example : Found against_three 6 (lower_bound against_three 6)
lower_bound-Found_example = lower_bound-Found against_three 6 against_three-IsSorted
