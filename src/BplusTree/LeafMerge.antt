-- ===== src/BplusTree/LeafMerge.antt =====
-- src/observer/storage/index/bplus_tree.cpp: what happens to a leaf that a removal has made too small
-- (coalesce_or_redistribute, coalesce, redistribute, for leaves). The neighbour is the leaf that the
-- parent has beside it; the recursion on the parent and the change of the root are left out.
use my_mini_ob.Base.{ℕ, ◌+◌, ◌-◌, Bool, ◌&&◌, Option, none, some, ◌==◌, ltb, leb, if◌then◌else◌}
use my_mini_ob.Base.Int.{ℤ}
use my_mini_ob.BplusTree.{Key, IndexNode, IndexFileHeader, NodeHandler, max_size, min_size}
use my_mini_ob.BplusTree.LeafNode.{
  leaf_move_first_to_end, leaf_move_last_to_front, leaf_move_to, set_next_page,
}
use my_mini_ob.BplusTree.InternalNode.{internal_lookup, internal_remove, set_key_at}

-- the parent, the neighbour and the leaf
abbrev pub Three : Type 0 → Type 0
Three Value = NodeHandler ℕ × NodeHandler Value × NodeHandler Value

-- how `coalesce_or_redistribute` ends; `balanced none` after an assert that fails
pub data Balance (Value : Type 0) : Type 0 where
  large_enough root : Balance Value
  balanced : Option (Three Value) → Balance Value

-- the place of the neighbour in the parent
abbrev pub beside_place : ℕ → ℕ
beside_place index = if index == 0 then 1 else index - 1

module _ {Value : Type 0} where
  -- `key_at(index)`
  unfoldable pub key_at : ℕ → IndexNode Value → Option Key
  key_at index n = if ltb index n.key_num then some (n.array index).0 else none

  abbrev with_parent :
      Option (IndexNode ℕ)
      → NodeHandler ℕ
      → NodeHandler Value
      → NodeHandler Value
      → Option (Three Value)
  with_parent none parent neighbor node = none
  with_parent (some n) parent neighbor node = some (record parent { node = n }, neighbor, node)

  abbrev rekeyed :
      Option Key → ℕ → NodeHandler ℕ → NodeHandler Value → NodeHandler Value → Option (Three Value)
  rekeyed none index parent neighbor node = none
  rekeyed (some key) index parent neighbor node =
      with_parent (set_key_at index key parent.node) parent neighbor node

  -- the neighbour on the right gives its first item, and the parent its new first key
  abbrev from_right :
      ℕ → NodeHandler ℕ → Option (NodeHandler Value × NodeHandler Value) → Option (Three Value)
  from_right index parent none = none
  from_right index parent (some (neighbor, node)) =
      rekeyed (key_at 0 neighbor.node) (index + 1) parent neighbor node

  -- the neighbour on the left gives its last item, and the parent the leaf's new first key
  abbrev from_left :
      ℕ → NodeHandler ℕ → Option (NodeHandler Value × NodeHandler Value) → Option (Three Value)
  from_left index parent none = none
  from_left index parent (some (neighbor, node)) =
      rekeyed (key_at 0 node.node) index parent neighbor node

  unfoldable pub redistribute :
      ℕ → NodeHandler ℕ → NodeHandler Value → NodeHandler Value → Option (Three Value)
  unfolding key_at leaf_move_first_to_end leaf_move_last_to_front set_key_at
  redistribute index parent neighbor node =
      if index == 0
      then from_right index parent (leaf_move_first_to_end neighbor node)
      else from_left index parent (leaf_move_last_to_front neighbor node)

  -- the right leaf goes into the left one and out of the parent: the parent, the left and the right
  abbrev pub merged :
      Option (NodeHandler ℕ) → NodeHandler Value → NodeHandler Value → Option (Three Value)
  merged none left right = none
  merged (some parent) left right =
      let (right', left') = leaf_move_to right left in
      some (parent, set_next_page right'.node.next_brother left', right')

  unfoldable pub coalesce :
      ℕ → NodeHandler ℕ → NodeHandler Value → NodeHandler Value → Option (Three Value)
  unfolding leaf_move_to set_next_page internal_remove
  coalesce index parent neighbor node =
      if index == 0
      then merged (internal_remove (index + 1) parent) node neighbor
      else merged (internal_remove index parent) neighbor node

  -- the place of the leaf in its parent, by its last key; the page there must be the leaf's
  abbrev placed :
      IndexFileHeader
      → (ℕ → NodeHandler Value)
      → ℕ
      → NodeHandler ℕ
      → NodeHandler Value
      → Option (ℕ × Bool × ℕ)
      → Option (Three Value)
  placed header leaf_at page_num parent node none = none
  placed header leaf_at page_num parent node (some (index, found, position)) =
      let beside = beside_place index in
      let neighbor = leaf_at (parent.node.array beside).1 in
      if (parent.node.array index).1 == page_num && ltb beside parent.node.key_num
      then (if ltb (max_size header node.node) (node.node.key_num + neighbor.node.key_num)
          then redistribute index parent neighbor node
          else coalesce index parent neighbor node)
      else none

  abbrev pub by_last_key :
      IndexFileHeader
      → (Key → Key → ℤ)
      → (ℕ → NodeHandler Value)
      → ℕ
      → NodeHandler ℕ
      → NodeHandler Value
      → Option Key
      → Option (Three Value)
  by_last_key header comparator leaf_at page_num parent node none = none
  by_last_key header comparator leaf_at page_num parent node (some key) =
      placed header leaf_at page_num parent node (internal_lookup comparator key parent.node)

  -- the last key of an empty leaf would be at -1
  abbrev last_key : IndexNode Value → Option Key
  last_key n = if n.key_num == 0 then none else key_at (n.key_num - 1) n

  unfoldable pub coalesce_or_redistribute :
      IndexFileHeader
      → (Key → Key → ℤ)
      → (ℕ → NodeHandler Value)
      → ℕ
      → Option (NodeHandler ℕ)
      → NodeHandler Value
      → Balance Value
  unfolding min_size max_size key_at internal_lookup redistribute coalesce
  coalesce_or_redistribute header comparator leaf_at page_num parent node =
      if leb (min_size header node.node) node.node.key_num then large_enough else elim parent [
        | none ↦ root
        | some p ↦
            balanced (by_last_key header comparator leaf_at page_num p node (last_key node.node))
      ]
