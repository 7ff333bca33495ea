-- ===== src/BplusTree/Items.antt =====
-- The items of a node after items are put in and taken out.
use mathlib.Core.Path.{ap₂}
use my_mini_ob.Base.{
  ℕ, zero, suc, ◌+◌, ◌-◌, ◌≤◌, ◌<◌, ◌≡◌, refl, sym, ap, ◌∙◌, true, false, Bool-cases, inl, inr,
  List, [], ◌∷◌, ◌++◌, append-nil, arith, ltb, leb, if◌then◌else◌, get_or, length, take, drop,
}
use my_mini_ob.Base.Tabulate.{tabulate, length-tabulate, tabulate_eq, tabulate-add}
use my_mini_ob.BplusTree.{
  Key, IndexNode, memmove, memcpy, items, items_at, recover_insert_items, recover_remove_items,
}

module _ {ℓ} {A : Type ℓ} where
  pub take-front : (xs ys : List A) (n : ℕ) → length xs ≡ n → take n (xs ++ ys) ≡ xs
  take-front [] ys zero e = refl
  take-front [] ys (suc n) e = absurd (omega arith)
  take-front (x ∷ xs) ys zero e = absurd (omega arith)
  take-front (x ∷ xs) ys (suc n) e = ap (λ l. x ∷ l) (take-front xs ys n (omega arith))

  pub drop-front : (xs ys : List A) (n : ℕ) → length xs ≡ n → drop n (xs ++ ys) ≡ ys
  drop-front [] ys zero e = refl
  drop-front [] ys (suc n) e = absurd (omega arith)
  drop-front (x ∷ xs) ys zero e = absurd (omega arith)
  drop-front (x ∷ xs) ys (suc n) e = drop-front xs ys n (omega arith)

  -- reading a list by its places
  pub tabulate-list :
      (xs : List A) (f : ℕ → A) (n : ℕ) → length xs ≡ n → tabulate (λ j. get_or xs j (f j)) n ≡ xs
  tabulate-list [] f zero e = refl
  tabulate-list [] f (suc n) e = absurd (omega arith)
  tabulate-list (x ∷ xs) f zero e = absurd (omega arith)
  tabulate-list (x ∷ xs) f (suc n) e =
      ap (λ l. x ∷ l) (tabulate-list xs (λ j. f (suc j)) n (omega arith))

  -- the values from place `i` on
  pub take-tabulate : (f : ℕ → A) (i n : ℕ) → i ≤ n → take i (tabulate f n) ≡ tabulate f i
  take-tabulate f i n h =
      let e : n ≡ i + (n - i) = omega arith in
      ap (λ m. take i (tabulate f m)) e
      ∙ ap (take i) (tabulate-add f i (n - i))
      ∙ take-front (tabulate f i) _ i (length-tabulate f i)

  pub drop-tabulate :
      (f : ℕ → A) (i n : ℕ) → i ≤ n → drop i (tabulate f n) ≡ tabulate (λ j. f (i + j)) (n - i)
  drop-tabulate f i n h =
      let e : n ≡ i + (n - i) = omega arith in
      ap (λ m. drop i (tabulate f m)) e
      ∙ ap (drop i) (tabulate-add f i (n - i))
      ∙ drop-front (tabulate f i) _ i (length-tabulate f i)

module _ {Value : Type 0} (array : ℕ → Key × Value) where
  memmove-inside : (dst src n j : ℕ) → j < n → memmove dst src n array (dst + j) ≡ array (src + j)
  memmove-inside dst src n j h =
      let low : leb dst (dst + j) ≡ true = ground arith in
      let high : ltb (dst + j) (dst + n) ≡ true = ground arith in
      let back : dst + j - dst ≡ j = omega arith in rw (low, high, back) refl

  memmove-before : (dst src n j : ℕ) → j < dst → memmove dst src n array j ≡ array j
  memmove-before dst src n j h = let low : leb dst j ≡ false = ground arith in rw low refl

  memcpy-inside :
      (dst : ℕ) (new : List (Key × Value)) (n j : ℕ)
      → j < n
      → memcpy dst new n array (dst + j) ≡ get_or new j (array (dst + j))
  memcpy-inside dst new n j h =
      let low : leb dst (dst + j) ≡ true = ground arith in
      let high : ltb (dst + j) (dst + n) ≡ true = ground arith in
      let back : dst + j - dst ≡ j = omega arith in rw (low, high, back) refl

  memcpy-before :
      (dst : ℕ) (new : List (Key × Value)) (n j : ℕ) → j < dst → memcpy dst new n array j ≡ array j
  memcpy-before dst new n j h = let low : leb dst j ≡ false = ground arith in rw low refl

  memcpy-behind :
      (dst : ℕ) (new : List (Key × Value)) (n j : ℕ)
      → dst + n ≤ j
      → memcpy dst new n array j ≡ array j
  memcpy-behind dst new n j h =
      let low : leb dst j ≡ true = ground arith in
      let high : ltb j (dst + n) ≡ false = ground arith in rw (low, high) refl

module _ {Value : Type 0} (n : IndexNode Value) where
  -- the array with the gap for the new items
  abbrev gap : ℕ → ℕ → (ℕ → Key × Value)
  gap index num =
      if ltb index n.key_num
      then memmove (index + num) index (n.key_num - index) n.array
      else n.array

  gap-before : (index num j : ℕ) → j < index → gap index num j ≡ n.array j
  gap-before index num j h = elim (Bool-cases (ltb index n.key_num)) [
    | inl y ↦ rw y (memmove-before n.array (index + num) index (n.key_num - index) j (omega arith))
    | inr m ↦ rw m refl
  ]

  gap-behind :
      (index num j : ℕ)
      → j < n.key_num - index
      → gap index num (index + num + j) ≡ n.array (index + j)
  gap-behind index num j h =
      let inside : ltb index n.key_num ≡ true = ground arith in
      rw inside (memmove-inside n.array (index + num) index (n.key_num - index) j h)

  -- the array with the gap closed
  abbrev closed : ℕ → ℕ → (ℕ → Key × Value)
  closed index num =
      if ltb index (n.key_num - num)
      then memmove index (index + num) (n.key_num - index - num) n.array
      else n.array

  closed-before : (index num j : ℕ) → j < index → closed index num j ≡ n.array j
  closed-before index num j h = elim (Bool-cases (ltb index (n.key_num - num))) [
    | inl y ↦
        rw y (memmove-before n.array index (index + num) (n.key_num - index - num) j (omega arith))
    | inr m ↦ rw m refl
  ]

  closed-behind :
      (index num j : ℕ)
      → j < n.key_num - index - num
      → closed index num (index + j) ≡ n.array (index + num + j)
  closed-behind index num j h =
      let inside : ltb index (n.key_num - num) ≡ true = ground arith in
      rw inside (memmove-inside n.array index (index + num) (n.key_num - index - num) j h)

  -- Items put in stand between those before the place and those from it on.
  pub items-recover_insert_items :
      (index num : ℕ) (new : List (Key × Value))
      → index ≤ n.key_num
      → length new ≡ num
      → items (recover_insert_items index new num n)
        ≡ take index (items n) ++ (new ++ drop index (items n))
  unfolding recover_insert_items
  items-recover_insert_items index num new h e =
      let put = memcpy index new num (gap index num) in
      let size : n.key_num + num ≡ index + (num + (n.key_num - index)) = omega arith in
      let front : tabulate put index ≡ take index (items n) =
        tabulate_eq put n.array index
          (λ j k. memcpy-before (gap index num) index new num j k ∙ gap-before index num j k)
        ∙ sym (take-tabulate n.array index n.key_num h) in
      let middle : tabulate (λ j. put (index + j)) num ≡ new =
        tabulate_eq (λ j. put (index + j)) (λ j. get_or new j (gap index num (index + j))) num
          (λ j k. memcpy-inside (gap index num) index new num j k)
        ∙ tabulate-list new (λ j. gap index num (index + j)) num e in
      let back : tabulate (λ j. put (index + (num + j))) (n.key_num - index)
          ≡ drop index (items n) =
        tabulate_eq (λ j. put (index + (num + j))) (λ j. n.array (index + j)) (n.key_num - index)
          (λ j k.
            memcpy-behind (gap index num) index new num (index + (num + j)) (omega arith)
            ∙ ap (gap index num) (omega arith)
            ∙ gap-behind index num j k)
        ∙ sym (drop-tabulate n.array index n.key_num h) in
      ap (tabulate put) size
      ∙ tabulate-add put index (num + (n.key_num - index))
      ∙ ap₂ ◌++◌ front
          (tabulate-add (λ j. put (index + j)) num (n.key_num - index) ∙ ap₂ ◌++◌ middle back)

  -- Items taken out leave those before them and those behind them.
  pub items-recover_remove_items :
      (index num : ℕ)
      → index + num ≤ n.key_num
      → items (recover_remove_items index num n)
        ≡ take index (items n) ++ drop (index + num) (items n)
  unfolding recover_remove_items
  items-recover_remove_items index num h =
      let rest = n.key_num - num - index in
      let cut = closed index num in
      let size : n.key_num - num ≡ index + rest = omega arith in
      let front : tabulate cut index ≡ take index (items n) =
        tabulate_eq cut n.array index (λ j k. closed-before index num j k)
        ∙ sym (take-tabulate n.array index n.key_num (omega arith)) in
      let left : n.key_num - (index + num) ≡ rest = omega arith in
      let back : tabulate (λ j. cut (index + j)) rest ≡ drop (index + num) (items n) =
        tabulate_eq (λ j. cut (index + j)) (λ j. n.array (index + num + j)) rest
          (λ j k. closed-behind index num j (omega arith))
        ∙ sym (
            drop-tabulate n.array (index + num) n.key_num h
            ∙ ap (tabulate (λ j. n.array (index + num + j))) left) in
      ap (tabulate cut) size ∙ tabulate-add cut index rest ∙ ap₂ ◌++◌ front back

  take-items : take n.key_num (items n) ≡ items n
  take-items = take-tabulate n.array n.key_num n.key_num (omega arith)

  pub drop-items : drop n.key_num (items n) ≡ []
  drop-items =
      drop-tabulate n.array n.key_num n.key_num (omega arith)
      ∙ (let e : n.key_num - n.key_num ≡ 0 = omega arith in
          ap (tabulate (λ j. n.array (n.key_num + j))) e)

  -- items put in at the end
  pub items-append :
      (num : ℕ) (new : List (Key × Value))
      → length new ≡ num
      → items (recover_insert_items n.key_num new num n) ≡ items n ++ new
  items-append num new e =
      items-recover_insert_items n.key_num num new (omega arith) e
      ∙ ap₂ ◌++◌ take-items (ap (λ l. new ++ l) drop-items ∙ append-nil new)

  -- all items from a place on taken out
  pub items-truncate :
      (index : ℕ)
      → index ≤ n.key_num
      → items (recover_remove_items index (n.key_num - index) n) ≡ take index (items n)
  items-truncate index h =
      let all : index + (n.key_num - index) ≡ n.key_num = omega arith in
      items-recover_remove_items index (n.key_num - index) (omega arith)
      ∙ ap (λ (l : List (Key × Value)). take index (items n) ++ l)
          (ap (λ (m : ℕ). drop m (items n)) all ∙ drop-items)
      ∙ append-nil (take index (items n))

  -- the items from a place on
  pub items_at-rest :
      (index : ℕ) → index ≤ n.key_num → items_at n index (n.key_num - index) ≡ drop index (items n)
  items_at-rest index h = sym (drop-tabulate n.array index n.key_num h)
