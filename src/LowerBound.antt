-- ===== src/LowerBound.antt =====
-- deps/common/lang/lower_bound.h: the binary search for the first element that is not less than a
-- value. The sequence and the value show only through `comp`, the answer of the comparison of the
-- element at a place with the value: negative, 0 or positive.
pub mod Laws
mod Examples
use my_mini_ob.Base.{
  ℕ, zero, suc, ◌+◌, ◌-◌, ◌/◌, Bool, true, false, Option, none, some, ltb, if◌then◌else◌,
}
use my_mini_ob.Base.Int.{ℤ, pos, negsuc, eq_ℤ, ltb_ℤ}

-- the loop, on fuel: the place that it ends at, and whether the value is there
unfoldable pub search : ℕ → (ℕ → ℤ) → ℕ → ℕ → Option (ℕ × Bool)
search zero comp first last_count = none
search (suc fuel) comp first last_count =
    let step = last_count / 2 in
    let iter = first + step in
    let less = ltb_ℤ (comp iter) (pos 0) in
    let rest =
      search fuel comp (if less then iter + 1 else first)
        (if less then last_count - (step + 1) else step) in
    if ltb 0 last_count
    then (if eq_ℤ (comp iter) (pos 0) then some (iter, true) else rest)
    else some (first, false)

-- `lower_bound(first, last, val, comp, &found)` on a sequence of `count` elements; each round at least
-- halves what is left
unfoldable pub lower_bound : (ℕ → ℤ) → ℕ → Option (ℕ × Bool)
unfolding search
lower_bound comp count = search (suc count) comp 0 count
