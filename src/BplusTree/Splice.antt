-- ===== src/BplusTree/Splice.antt =====
-- Putting a list into another at a place.
use my_mini_ob.Base.{
  ℕ, zero, suc, ◌-◌, ◌≤◌, ◌≡◌, refl, ap, ◌∙◌, List, [], ◌∷◌, ◌++◌, append_assoc, arith, length,
  take, drop,
}

module _ {ℓ} {A : Type ℓ} where
  abbrev pub splice : ℕ → List A → List A → List A
  splice i new xs = take i xs ++ (new ++ drop i xs)

  -- a place in the first part
  pub splice-front :
      (i : ℕ) (new xs ys : List A) → i ≤ length xs → splice i new xs ++ ys ≡ splice i new (xs ++ ys)
  splice-front zero new xs ys h = append_assoc new xs ys
  splice-front (suc i) new [] ys h = absurd (omega arith)
  splice-front (suc i) new (x ∷ xs) ys h = ap (λ l. x ∷ l) (splice-front i new xs ys (omega arith))

  -- a place in the second part
  pub splice-back :
      (i : ℕ) (new xs ys : List A)
      → length xs ≤ i
      → xs ++ splice (i - length xs) new ys ≡ splice i new (xs ++ ys)
  splice-back i new [] ys h = let e : i - 0 ≡ i = omega arith in ap (λ j. splice j new ys) e
  splice-back zero new (x ∷ xs) ys h = absurd (omega arith)
  splice-back (suc i) new (x ∷ xs) ys h =
      let e : suc i - suc (length xs) ≡ i - length xs = omega arith in
      ap (λ l. x ∷ l) (ap (λ j. xs ++ splice j new ys) e ∙ splice-back i new xs ys (omega arith))

  -- one item put in and taken out again
  pub undo_splice :
      (i : ℕ) (x : A) (xs : List A)
      → i ≤ length xs
      → take i (splice i (x ∷ []) xs) ++ drop (suc i) (splice i (x ∷ []) xs) ≡ xs
  undo_splice zero x xs h = refl
  undo_splice (suc i) x [] h = absurd (omega arith)
  undo_splice (suc i) x (y ∷ ys) h = ap (λ l. y ∷ l) (undo_splice i x ys (omega arith))

  -- one item taken out and put in again
  pub splice-rest :
      (i : ℕ) (xs : List A)
      → suc i ≤ length xs
      → splice i (take 1 (drop i xs)) (take i xs ++ drop (suc i) xs) ≡ xs
  splice-rest i [] h = absurd (omega arith)
  splice-rest zero (x ∷ xs) h = refl
  splice-rest (suc i) (x ∷ xs) h = ap (λ l. x ∷ l) (splice-rest i xs (omega arith))
