-- ===== src/BplusTree/ChildLookup.antt =====
-- Which child an internal node sends a key to, and where it takes a new child.
use mathlib.Core.Path.{subst}
use my_mini_ob.Base.{
  ℕ, zero, suc, ◌+◌, ◌-◌, ◌≤◌, ◌<◌, ◌≡◌, ◌⊎◌, refl, ap, ◌∙◌, Bool, true, false, Bool-cases, inl,
  inr, some, [], ◌∷◌, arith, ◌==◌, leb, ◌||◌,
}
use my_mini_ob.Base.Int.{ℤ, pos, ltb_ℤ}
use my_mini_ob.LowerBound.{lower_bound}
use my_mini_ob.LowerBound.Laws.{IsLess, IsGreater, IsSorted, Found, lower_bound-Found}
use my_mini_ob.BplusTree.{Key, IndexNode, NodeHandler, items, insert_items}
use my_mini_ob.BplusTree.Items.{items-recover_insert_items}
use my_mini_ob.BplusTree.Splice.{splice}
use my_mini_ob.BplusTree.InternalNode.{internal_lookup, internal_insert}

module _ (comparator : Key → Key → ℤ) (key : Key) (n : IndexNode ℕ) where
  -- the comparison of the key at a place with the key
  abbrev pub at : ℕ → ℤ
  at i = comparator (n.array i).0 key

  -- The child is behind the last key that is not greater.
  abbrev pub IsChild : ℕ → Type 0
  IsChild child =
      (child < n.key_num)
      × (((child ≡ 0) ⊎ ((0 < child) × (ltb_ℤ (pos 0) (at child) ≡ false)))
          × ((j : ℕ) → child < j → j < n.key_num → IsGreater (at j)))

  -- The key is at the place to insert, or it goes between the lesser and the greater keys.
  abbrev pub IsPosition : Bool → ℕ → Type 0
  IsPosition found position =
      (0 < position)
      × ((position ≤ n.key_num)
          × (((j : ℕ) → 0 < j → j < position → IsLess (at j))
              × (((found ≡ true) × (position < n.key_num) × (at position ≡ pos 0))
                  ⊎ ((found ≡ false)
                      × ((j : ℕ) → position ≤ j → j < n.key_num → IsGreater (at j))))))

  less_not_greater : (c : ℤ) → IsLess c → ltb_ℤ (pos 0) c ≡ false
  less_not_greater c h = ground arith

  -- from places counted from 1 to places of the node
  IsLess-before :
      (first : ℕ)
      → ((j : ℕ) → j < first → IsLess (at (j + 1)))
      → (j : ℕ) → 0 < j
      → j < first + 1
      → IsLess (at j)
  IsLess-before first f j p l =
      let e : j - 1 + 1 ≡ j = omega arith in
      subst (λ (i : ℕ). IsLess (at i)) e (f (j - 1) (omega arith))

  IsGreater-from :
      (first : ℕ)
      → ((j : ℕ) → first ≤ j → j < n.key_num - 1 → IsGreater (at (j + 1)))
      → (j : ℕ) → first + 1 ≤ j
      → j < n.key_num
      → IsGreater (at j)
  IsGreater-from first f j p l =
      let e : j - 1 + 1 ≡ j = omega arith in
      subst (λ (i : ℕ). IsGreater (at i)) e (f (j - 1) (omega arith) (omega arith))

  IsChild-before :
      (first : ℕ)
      → first < n.key_num
      → ((j : ℕ) → j < first → IsLess (at (j + 1)))
      → ((j : ℕ) → first + 1 ≤ j → j < n.key_num → IsGreater (at j))
      → IsChild first
  IsChild-before zero l f g = (l, (inl refl, λ j p q. g j (omega arith) q))
  IsChild-before (suc first) l f g = (
    l,
    (
      inr (
        omega arith,
        less_not_greater (at (suc first))
            (IsLess-before (suc first) f (suc first) (omega arith) (omega arith)),
      ),
      λ j p q. g j (omega arith) q,
    ),
  )

  turns_away :
      (position : ℕ)
      → ltb_ℤ (comparator key (n.array position).0) (pos 0) ≡ ltb_ℤ (pos 0) (at position)
      → (position < n.key_num → IsGreater (at position))
      → (leb n.key_num position || ltb_ℤ (comparator key (n.array position).0) (pos 0)) ≡ true
  turns_away position t g = elim (Bool-cases (leb n.key_num position)) [
    | inl y ↦ rw y refl
    | inr m ↦ rw (m, t) (g (ground arith))
  ]

-- what a search gives
abbrev pub Sends : (Key → Key → ℤ) → Key → IndexNode ℕ → ℕ → Bool → ℕ → Type 0
Sends comparator key n child found position =
    (internal_lookup comparator key n ≡ some (child, found, position))
    × (IsChild comparator key n child × IsPosition comparator key n found position)

module _ (comparator : Key → Key → ℤ) (key : Key) (n : IndexNode ℕ) (some_child : 0 < n.key_num)
    (sorted : IsSorted (λ i. comparator (n.array (i + 1)).0 key) (n.key_num - 1))
    (turned : (j : ℕ)
      → ltb_ℤ (comparator key (n.array j).0) (pos 0) ≡ ltb_ℤ (pos 0) (comparator (n.array j).0 key))
    (f : Found
      (λ i. comparator (n.array (i + 1)).0 key)
      (n.key_num - 1)
      (lower_bound (λ i. comparator (n.array (i + 1)).0 key) (n.key_num - 1))) where
  abbrev position : ℕ
  position = f.first + 1

  filled : (n.key_num == 0) ≡ false
  filled = ground arith

  -- the key is in the node
  Sends-found :
      f.found ≡ true
      → f.first < n.key_num - 1
      → at comparator key n position ≡ pos 0
      → Sends comparator key n position true position
  unfolding internal_lookup
  Sends-found y l e =
      let inside : leb n.key_num position ≡ false = ground arith in
      let not_greater : ltb_ℤ (pos 0) (at comparator key n position) ≡ false =
        ap (ltb_ℤ (pos 0)) e in
      let stays = turned position ∙ not_greater in
      let behind : (j : ℕ) → position < j → j < n.key_num → IsGreater (at comparator key n j) =
        λ j p q.
          let back : j - 1 + 1 ≡ j = omega arith in
          subst (λ (i : ℕ). IsGreater (at comparator key n i)) back
            (sorted.behind f.first (j - 1) (omega arith) (omega arith)
              (ap (λ (c : ℤ). ltb_ℤ c (pos 0)) e)) in
      (
        rw (filled, f.returns, y, inside, stays) refl,
        (
          (omega arith, (inr (omega arith, not_greater), behind)),
          (
            omega arith,
            (
              omega arith,
              (IsLess-before comparator key n f.first f.lesser, inl (refl, omega arith, e)),
            ),
          ),
        ),
      )

  -- the key is not in the node
  Sends-missing :
      f.found ≡ false
      → ((j : ℕ) → f.first ≤ j → j < n.key_num - 1 → IsGreater (at comparator key n (j + 1)))
      → Sends comparator key n f.first false position
  unfolding internal_lookup
  Sends-missing m g =
      let inside = f.inside in
      let behind = IsGreater-from comparator key n f.first g in
      let away =
        turns_away comparator key n position (turned position)
          (λ l. behind position (omega arith) l) in
      let back : position - 1 ≡ f.first = omega arith in
      (
        rw (filled, f.returns, m, away, back) refl,
        (
          IsChild-before comparator key n f.first (omega arith) f.lesser behind,
          (
            omega arith,
            (omega arith, (IsLess-before comparator key n f.first f.lesser, inr (refl, behind))),
          ),
        ),
      )

-- A node has a child, its keys from place 1 on are in order, and the comparator turns its sign when its
-- arguments are exchanged. Then the search for a key ends; it gives the child behind the last key that
-- is not greater, or the first child if all keys are greater, and the place at which the key stands, or
-- would keep the order.
pub internal_lookup_lem :
    (comparator : Key → Key → ℤ) (key : Key) (n : IndexNode ℕ)
    → 0 < n.key_num
    → IsSorted (λ i. comparator (n.array (i + 1)).0 key) (n.key_num - 1)
    → ((j : ℕ)
        → ltb_ℤ (comparator key (n.array j).0) (pos 0)
          ≡ ltb_ℤ (pos 0) (comparator (n.array j).0 key))
    → (child : ℕ) × ((found : Bool) × ((position : ℕ) × Sends comparator key n child found
            position))
internal_lookup_lem comparator key n some_child sorted turned =
    let f = lower_bound-Found (λ i. comparator (n.array (i + 1)).0 key) (n.key_num - 1) sorted in
    elim f.rest [
      | inl (y, l, e) ↦ (
        f.first + 1,
        (true, (f.first + 1, Sends-found comparator key n some_child sorted turned f y l e)),
      )
      | inr (m, g) ↦ (
        f.first,
        (false, (f.first + 1, Sends-missing comparator key n some_child sorted turned f m g)),
      )
    ]

-- The node has a child, its keys from place 1 on are in order, and the comparator turns its sign with
-- its arguments. Then a new child under a key goes to the place at which the key stands, or would keep
-- the order, and the other items stay in their order.
pub internal_insert_lem :
    (comparator : Key → Key → ℤ) (key : Key) (page_num : ℕ) (h : NodeHandler ℕ)
    → 0 < h.node.key_num
    → IsSorted (λ i. comparator (h.node.array (i + 1)).0 key) (h.node.key_num - 1)
    → ((j : ℕ)
        → ltb_ℤ (comparator key (h.node.array j).0) (pos 0)
          ≡ ltb_ℤ (pos 0) (comparator (h.node.array j).0 key))
    → (h' : NodeHandler ℕ) × ((found : Bool) × ((position : ℕ) × ((internal_insert comparator key
                page_num h
              ≡ some h')
            × (IsPosition comparator key h.node found position
                × (items h'.node ≡ splice position ((key, page_num) ∷ []) (items h.node))))))
unfolding internal_insert
internal_insert_lem comparator key page_num h some_child sorted turned =
    let (child, (found, (position, (e, (c, p))))) =
      internal_lookup_lem comparator key h.node some_child sorted turned in
    (
      insert_items position ((key, page_num) ∷ []) 1 h,
      (
        found,
        (
          position,
          (
            rw e refl,
            (p, items-recover_insert_items h.node position 1 ((key, page_num) ∷ []) p.1.0 refl),
          ),
        ),
      ),
    )
