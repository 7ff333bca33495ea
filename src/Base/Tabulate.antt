-- ===== src/Base/Tabulate.antt =====
-- The list of the first `n` values of a sequence.
use my_mini_ob.Base.Lists.{length, get_or}
use my_mini_ob.Base.Memory.{read_at}
use Prim.Native.Nat.{ℕ, zero, suc, ◌+◌, ◌<◌}
use mathlib.Core.Path.{◌≡◌, refl, ap, ap₂, ◌∙◌}
use mathlib.Core.List.{List, [], ◌∷◌, ◌++◌}
use native.Mathlib.Omega.{arith}

abbrev pub tabulate {ℓ} : {A : Type ℓ} → (ℕ → A) → ℕ → List A
tabulate f zero = []
tabulate f (suc n) = f 0 ∷ tabulate (λ j. f (suc j)) n

pub length-tabulate {ℓ} : {A : Type ℓ} (f : ℕ → A) (n : ℕ) → length (tabulate f n) ≡ n
length-tabulate f zero = refl
length-tabulate f (suc n) = ap suc (length-tabulate (λ j. f (suc j)) n)

pub tabulate_eq {ℓ} :
    {A : Type ℓ} (f g : ℕ → A) (n : ℕ) → ((j : ℕ) → j < n → f j ≡ g j) → tabulate f n ≡ tabulate g n
tabulate_eq f g zero h = refl
tabulate_eq f g (suc n) h =
    ap₂ ◌∷◌ (h 0 (omega arith))
      (tabulate_eq (λ j. f (suc j)) (λ j. g (suc j)) n (λ j k. h (suc j) (omega arith)))

pub tabulate-add {ℓ} :
    {A : Type ℓ} (f : ℕ → A) (m n : ℕ)
    → tabulate f (m + n) ≡ tabulate f m ++ tabulate (λ j. f (m + j)) n
tabulate-add f zero n =
    let e : zero + n ≡ n = omega arith in
    rw e (tabulate_eq f (λ j. f (zero + j)) n (λ j h. ap f (omega arith)))
tabulate-add f (suc m) n =
    let e : suc m + n ≡ suc (m + n) = omega arith in
    rw e (
      ap (λ l. f 0 ∷ l)
        (tabulate-add (λ j. f (suc j)) m n
          ∙ ap (λ l. tabulate (λ j. f (suc j)) m ++ l)
              (tabulate_eq (λ j. f (suc (m + j))) (λ j. f (suc m + j)) n
                (λ j h. ap f (omega arith)))))

pub read_at-eq-tabulate :
    (xs : List ℕ) (off n : ℕ) → read_at xs off n ≡ tabulate (λ j. get_or xs (off + j) 0) n
read_at-eq-tabulate xs off zero = refl
read_at-eq-tabulate xs off (suc n) = ap₂ ◌∷◌ (ap (λ i. get_or xs i 0) (omega arith)) (
    read_at-eq-tabulate xs (off + 1) n
    ∙ tabulate_eq (λ j. get_or xs (off + 1 + j) 0) (λ j. get_or xs (off + suc j) 0) n
        (λ j h. ap (λ i. get_or xs i 0) (omega arith)))

pub tabulate-get_or : (xs : List ℕ) → tabulate (λ j. get_or xs j 0) (length xs) ≡ xs
tabulate-get_or [] = refl
tabulate-get_or (x ∷ xs) = ap (λ l. x ∷ l) (tabulate-get_or xs)
