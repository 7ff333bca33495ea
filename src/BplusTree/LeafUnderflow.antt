-- ===== src/BplusTree/LeafUnderflow.antt =====
-- A leaf that a removal has left with too few items.
use my_mini_ob.Base.{
  ℕ, ◌+◌, ◌-◌, ◌≤◌, ◌<◌, ◌≡◌, ◌⊎◌, refl, ap, ◌∙◌, Bool, true, false, Bool-cases, inl, inr, some,
  arith, ◌==◌, ltb, leb, if◌then◌else◌,
}
use my_mini_ob.Base.Int.{ℤ}
use my_mini_ob.BplusTree.{Key, IndexFileHeader, NodeHandler, max_size, min_size}
use my_mini_ob.BplusTree.InternalNode.{internal_lookup}
use my_mini_ob.BplusTree.LeafMerge.{
  Three, balanced, beside_place, key_at, redistribute, coalesce, coalesce_or_redistribute,
}
use my_mini_ob.BplusTree.LeafBalance.{Shares, Joins, redistribute_lem, coalesce_lem}

module _ {Value : Type 0} (header : IndexFileHeader) (comparator : Key → Key → ℤ)
    (leaf_at : ℕ → NodeHandler Value) (page_num : ℕ) (parent : NodeHandler ℕ)
    (node : NodeHandler Value) (index : ℕ) where
  abbrev neighbor : NodeHandler Value
  neighbor = leaf_at (parent.node.array (beside_place index)).1

  -- one item has moved if the two leaves have more than fits in one, and else they are one
  abbrev pub Balances : Three Value → Type 0
  Balances r =
      ((max_size header node.node < node.node.key_num + neighbor.node.key_num)
        × Shares index parent neighbor node r)
      ⊎ ((node.node.key_num + neighbor.node.key_num ≤ max_size header node.node)
          × Joins index parent neighbor node r)

  module _ (found : Bool) (position : ℕ) (some_there : 0 < node.node.key_num)
      (few : node.node.key_num < min_size header node.node)
      (sent : internal_lookup comparator (node.node.array (node.node.key_num - 1)).0 parent.node
        ≡ some (index, found, position))
      (l : index < parent.node.key_num) (two : 1 < parent.node.key_num)
      (own : (parent.node.array index).1 ≡ page_num) where
    balances_by_size :
        coalesce_or_redistribute header comparator leaf_at page_num (some parent) node
        ≡ balanced (
            if ltb (max_size header node.node) (node.node.key_num + neighbor.node.key_num)
            then redistribute index parent neighbor node
            else coalesce index parent neighbor node)
    unfolding coalesce_or_redistribute key_at
    balances_by_size =
        let k = node.node.key_num in
        let small : leb (min_size header node.node) k ≡ false = ground arith in
        let filled : k == 0 ≡ false = ground arith in
        let last : ltb (k - 1) k ≡ true = ground arith in
        let here : (parent.node.array index).1 == page_num ≡ true = ground arith in
        let room : ltb (beside_place index) parent.node.key_num ≡ true = ground arith in
        rw small (rw filled (rw last (rw sent (rw here (rw room refl)))))

    -- A leaf with an item, but fewer than the minimum, whose parent has another child and finds the
    -- leaf's page by its last key, is balanced with the leaf beside it and no assert fails: if the two
    -- have more items than fit in one leaf then one item moves over, and else they become one leaf. A
    -- leaf may have two items at least.
    pub coalesce_or_redistribute_lem :
        1 < max_size header node.node
        → (r : Three Value) × ((coalesce_or_redistribute header comparator leaf_at page_num
                (some parent)
                node
              ≡ balanced (some r))
            × Balances r)
    unfolding min_size
    coalesce_or_redistribute_lem fits =
        let k = node.node.key_num in
        elim (Bool-cases (ltb (max_size header node.node) (k + neighbor.node.key_num))) [
          | inl y ↦
              let over : max_size header node.node < k + neighbor.node.key_num = ground arith in
              let more : 1 < neighbor.node.key_num = omega arith in
              let (r, (e, shares)) = redistribute_lem index parent neighbor node l two more in
              (r, (balances_by_size ∙ ap balanced (rw y e), inl (over, shares)))
          | inr n ↦
              let under : k + neighbor.node.key_num ≤ max_size header node.node = ground arith in
              let (r, (e, joins)) = coalesce_lem index parent neighbor node l two in
              (r, (balances_by_size ∙ ap balanced (rw n e), inr (under, joins)))
        ]
