-- ===== src/LowerBound/Laws.antt =====
-- The search ends at the lower bound of a sorted sequence.
use my_mini_ob.Base.{
  ℕ, zero, suc, ◌+◌, ◌-◌, ◌/◌, ◌≤◌, ◌<◌, ◌≡◌, ◌⊎◌, inl, inr, refl, Bool, true, false, Option, some,
  ltb, arith, Bool-cases,
}
use my_mini_ob.Base.Int.{ℤ, pos, negsuc, eq_ℤ, ltb_ℤ}
use my_mini_ob.LowerBound.{search, lower_bound}
use native.Mathlib.Decide.{ℕ_discrete}

abbrev pub IsLess : ℤ → Type 0
IsLess c = ltb_ℤ c (pos 0) ≡ true

abbrev pub IsGreater : ℤ → Type 0
IsGreater c = ltb_ℤ (pos 0) c ≡ true

-- What is before a lesser element is less, and what is behind one that is not less is greater.
pub record IsSorted (comp : ℕ → ℤ) (count : ℕ) : Type 0 where
  pub before : (j k : ℕ) → j < k → k < count → IsLess (comp k) → IsLess (comp j)
  pub behind : (j k : ℕ) → j < k → k < count → ltb_ℤ (comp j) (pos 0) ≡ false → IsGreater (comp k)

-- The elements before `first` are less; the value is at `first`, or all from there on are greater.
pub record Found (comp : ℕ → ℤ) (count : ℕ) (r : Option (ℕ × Bool)) : Type 0 where
  pub first : ℕ
  pub found : Bool
  pub returns : r ≡ some (first, found)
  pub inside : first ≤ count
  pub lesser : (j : ℕ) → j < first → IsLess (comp j)
  pub rest :
      ((found ≡ true) × (first < count) × (comp first ≡ pos 0))
      ⊎ ((found ≡ false) × ((j : ℕ) → first ≤ j → j < count → IsGreater (comp j)))

eq_ℤ→≡ : (c : ℤ) → eq_ℤ c (pos 0) ≡ true → c ≡ pos 0
eq_ℤ→≡ (pos n) h = ground arith
eq_ℤ→≡ (negsuc n) h = ground arith

not_less : (c : ℤ) → eq_ℤ c (pos 0) ≡ false → ltb_ℤ c (pos 0) ≡ false → IsGreater c
not_less (pos n) h h' = ground arith
not_less (negsuc n) h h' = ground arith

not_greater : (c : ℤ) → c ≡ pos 0 → IsGreater c → ⊥
not_greater (pos n) e h = ground arith
not_greater (negsuc n) e h = ground arith

module _ (comp : ℕ → ℤ) (count : ℕ) (sorted : IsSorted comp count) where
  IsLess-before_hit : (j k : ℕ) → j < k → k < count → comp k ≡ pos 0 → IsLess (comp j)
  IsLess-before_hit j k h h' e = elim (Bool-cases (ltb_ℤ (comp j) (pos 0))) [
    | inl y ↦ y
    | inr n ↦ absurd (not_greater (comp k) e (sorted.behind j k h h' n))
  ]

  -- up to a lesser element all are less, from one that is greater on all are greater
  IsLess-up_to : (j k : ℕ) → j ≤ k → k < count → IsLess (comp k) → IsLess (comp j)
  IsLess-up_to j k h h' e = elim (ℕ_discrete j k) [
    | yes q ↦ rw q e
    | no q ↦ sorted.before j k (omega arith) h' e
  ]

  IsGreater-from :
      (j k : ℕ)
      → k ≤ j
      → j < count
      → eq_ℤ (comp k) (pos 0) ≡ false
      → ltb_ℤ (comp k) (pos 0) ≡ false
      → IsGreater (comp j)
  IsGreater-from j k h h' e e' = elim (ℕ_discrete j k) [
    | yes q ↦ rw q (not_less (comp k) e e')
    | no q ↦ sorted.behind k j (omega arith) h' e'
  ]

  search-Found :
      (fuel first last_count : ℕ)
      → last_count < fuel
      → first + last_count ≤ count
      → ((j : ℕ) → j < first → IsLess (comp j))
      → ((j : ℕ) → first + last_count ≤ j → j < count → IsGreater (comp j))
      → Found comp count (search fuel comp first last_count)
  unfolding search
  search-Found zero first last_count f b l g = absurd (omega arith)
  search-Found (suc fuel) first last_count f b l g =
      let step = last_count / 2 in
      let iter = first + step in
      elim (Bool-cases (ltb 0 last_count)) [
        | inr empty ↦ rw empty (record {
          first = first;
          found = false;
          returns = refl;
          inside = omega arith;
          lesser = l;
          rest = inr (
            refl,
            λ j h h'. g j (let z : last_count ≡ 0 = ground arith in omega (arith, z, h)) h',
          );
        })
        | inl more ↦
            let p : 0 < last_count = ground arith in
            elim (Bool-cases (eq_ℤ (comp iter) (pos 0))) [
              | inl hit ↦
                  rw (more, hit)
                    (record {
                      first = iter;
                      found = true;
                      returns = refl;
                      inside = omega arith;
                      lesser =
                          λ j h. IsLess-before_hit j iter h (omega arith) (eq_ℤ→≡ (comp iter) hit);
                      rest = inl (refl, omega arith, eq_ℤ→≡ (comp iter) hit);
                    })
              | inr miss ↦ elim (Bool-cases (ltb_ℤ (comp iter) (pos 0))) [
                | inl less ↦
                    rw (more, miss, less)
                      (search-Found fuel (iter + 1) (last_count - (step + 1)) (omega arith)
                        (omega arith) (λ j h. IsLess-up_to j iter (omega arith) (omega arith) less)
                        (λ j h h'. g j (omega arith) h'))
                | inr more' ↦
                    rw (more, miss, more')
                      (search-Found fuel first step (omega arith) (omega arith) l
                        (λ j h h'. IsGreater-from j iter h h' miss more'))
              ]
            ]
      ]

-- A sequence is sorted: what is before a lesser element is less than the value, what is behind one that
-- is not less is greater. Then the search returns a place: the elements before it are less, and either
-- the value is reported found and stands there, or it is reported missing and all elements from there
-- on are greater.
pub lower_bound-Found :
    (comp : ℕ → ℤ) (count : ℕ) → IsSorted comp count → Found comp count (lower_bound comp count)
unfolding lower_bound
lower_bound-Found comp count sorted =
    search-Found comp count sorted (suc count) 0 count (omega arith) (omega arith)
      (λ j h. absurd (omega arith)) (λ j h h'. absurd (omega arith))
