-- ===== src/Base/Memory.antt =====
-- Byte arrays, and copies between them. A copy that would leave the array writes what lies inside.
use my_mini_ob.Base.Lists.{length, drop, get_or, set, length-set, get_or-set_self, get_or-set_ne}
use Prim.Native.Nat.{ℕ, zero, suc, ◌+◌, ◌≤◌, ◌<◌}
use mathlib.Core.Path.{◌≡◌, refl, ap, ap₂, ◌∙◌}
use mathlib.Core.Logic.{◌⊎◌}
use mathlib.Core.List.{List, [], ◌∷◌, ◌++◌}
use native.Mathlib.Omega.{arith}

-- the `n` bytes from `off` on
abbrev pub read_at : List ℕ → ℕ → ℕ → List ℕ
read_at xs off zero = []
read_at xs off (suc n) = get_or xs off 0 ∷ read_at xs (off + 1) n

-- the bytes `ys` written from `off` on
abbrev pub write_at : List ℕ → ℕ → List ℕ → List ℕ
write_at xs off [] = xs
write_at xs off (y ∷ ys) = write_at (set xs off y) (off + 1) ys

pub length-read_at : (xs : List ℕ) (off n : ℕ) → length (read_at xs off n) ≡ n
length-read_at xs off zero = refl
length-read_at xs off (suc n) = ap suc (length-read_at xs (off + 1) n)

pub length-write_at :
    (xs : List ℕ) (off : ℕ) (ys : List ℕ) → length (write_at xs off ys) ≡ length xs
length-write_at xs off [] = refl
length-write_at xs off (y ∷ ys) = length-write_at (set xs off y) (off + 1) ys ∙ length-set xs off y

-- a byte outside the written range
pub get_or-write_at_outside :
    (xs : List ℕ) (off : ℕ) (ys : List ℕ) (j : ℕ)
    → (j < off) ⊎ (off + length ys ≤ j)
    → get_or (write_at xs off ys) j 0 ≡ get_or xs j 0
get_or-write_at_outside xs off [] j h = refl
get_or-write_at_outside xs off (y ∷ ys) j h =
    get_or-write_at_outside (set xs off y) (off + 1) ys j (omega arith)
    ∙ get_or-set_ne xs off j y 0 (omega arith)

-- a range outside the written range
pub read_at-write_at_outside :
    (xs : List ℕ) (off : ℕ) (ys : List ℕ) (o n : ℕ)
    → (o + n ≤ off) ⊎ (off + length ys ≤ o)
    → read_at (write_at xs off ys) o n ≡ read_at xs o n
read_at-write_at_outside xs off ys o zero h = refl
read_at-write_at_outside xs off ys o (suc n) h =
    ap₂ ◌∷◌ (get_or-write_at_outside xs off ys o (omega arith))
      (read_at-write_at_outside xs off ys (o + 1) n (omega arith))

-- what was written is read back
pub read_at-write_at_self :
    (xs : List ℕ) (off : ℕ) (ys : List ℕ) (n : ℕ)
    → off + length ys ≤ length xs
    → n ≡ length ys
    → read_at (write_at xs off ys) off n ≡ ys
read_at-write_at_self xs off [] zero h e = refl
read_at-write_at_self xs off [] (suc n) h e = absurd (omega arith)
read_at-write_at_self xs off (y ∷ ys) zero h e = absurd (omega arith)
read_at-write_at_self xs off (y ∷ ys) (suc n) h e =
    ap₂ ◌∷◌
      (get_or-write_at_outside (set xs off y) (off + 1) ys off (omega arith)
        ∙ get_or-set_self xs off y 0 (omega arith))
      (read_at-write_at_self (set xs off y) (off + 1) ys n (omega (arith, length-set xs off y))
        (omega arith))

pub read_at-append :
    (xs : List ℕ) (off m n : ℕ)
    → read_at xs off m ++ read_at xs (off + m) n ≡ read_at xs off (m + n)
read_at-append xs off zero n =
    let e : off + 0 ≡ off = omega arith in let d : 0 + n ≡ n = omega arith in rw (e, d)
read_at-append xs off (suc m) n =
    let e : off + suc m ≡ off + 1 + m = omega arith in
    let d : suc m + n ≡ suc (m + n) = omega arith in
    rw (e, d) (ap (λ l. get_or xs off 0 ∷ l) (read_at-append xs (off + 1) m n))

pub read_at_eq :
    (a b : List ℕ) (o o' n : ℕ)
    → ((j : ℕ) → j < n → get_or a (o + j) 0 ≡ get_or b (o' + j) 0)
    → read_at a o n ≡ read_at b o' n
read_at_eq a b o o' zero h = refl
read_at_eq a b o o' (suc n) h =
    let e : o + 0 ≡ o = omega arith in
    let e' : o' + 0 ≡ o' = omega arith in
    ap₂ ◌∷◌ (rw (e, e') at (h 0 (omega arith))) (
      read_at_eq a b (o + 1) (o' + 1) n (λ j k.
        let f : o + 1 + j ≡ o + suc j = omega arith in
        let f' : o' + 1 + j ≡ o' + suc j = omega arith in rw (f, f') (h (suc j) (omega arith))))

pub get_or-read_at :
    (xs : List ℕ) (off n j : ℕ) → j < n → get_or (read_at xs off n) j 0 ≡ get_or xs (off + j) 0
get_or-read_at xs off zero j h = absurd (omega arith)
get_or-read_at xs off (suc n) zero h = let e : off + 0 ≡ off = omega arith in rw e
get_or-read_at xs off (suc n) (suc j) h =
    let e : off + suc j ≡ off + 1 + j = omega arith in
    rw e (get_or-read_at xs (off + 1) n j (omega arith))

-- The front of a copy, as long as the copy, is the copy.
pub read_at-read_at : (xs : List ℕ) (off n : ℕ) → read_at (read_at xs off n) 0 n ≡ read_at xs off n
read_at-read_at xs off n =
    read_at_eq (read_at xs off n) xs 0 off n
      (λ j h. let e : 0 + j ≡ j = omega arith in rw e (get_or-read_at xs off n j h))

-- a byte inside the written range
pub get_or-write_at_inside :
    (xs : List ℕ) (off : ℕ) (ys : List ℕ) (j : ℕ)
    → off + length ys ≤ length xs
    → j < length ys
    → get_or (write_at xs off ys) (off + j) 0 ≡ get_or ys j 0
get_or-write_at_inside xs off [] j h k = absurd (omega arith)
get_or-write_at_inside xs off (y ∷ ys) zero h k =
    let e : off + 0 ≡ off = omega arith in
    rw e (
      get_or-write_at_outside (set xs off y) (off + 1) ys off (omega arith)
      ∙ get_or-set_self xs off y 0 (omega arith))
get_or-write_at_inside xs off (y ∷ ys) (suc j) h k =
    let e : off + suc j ≡ off + 1 + j = omega arith in
    rw e (
      get_or-write_at_inside (set xs off y) (off + 1) ys j (omega (arith, length-set xs off y))
        (omega arith))

get_or-drop : (k : ℕ) (xs : List ℕ) (j : ℕ) → get_or (drop k xs) j 0 ≡ get_or xs (k + j) 0
get_or-drop zero xs j = let e : zero + j ≡ j = omega arith in rw e
get_or-drop (suc k) [] j = refl
get_or-drop (suc k) (x ∷ xs) j =
    let e : suc k + j ≡ suc (k + j) = omega arith in rw e (get_or-drop k xs j)

-- Reading behind a pointer that has been moved on.
pub read_at-drop :
    (k : ℕ) (xs : List ℕ) (off n : ℕ) → read_at (drop k xs) off n ≡ read_at xs (k + off) n
read_at-drop k xs off n =
    read_at_eq (drop k xs) xs off (k + off) n (λ j h.
      let e : k + off + j ≡ k + (off + j) = omega arith in rw e (get_or-drop k xs (off + j)))
