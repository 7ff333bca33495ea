-- ===== src/BplusTree/LeafNode.antt =====
-- src/observer/storage/index/bplus_tree.cpp: the leaves of the B+ tree (LeafIndexNodeHandler), the split
-- of a full leaf, and the insertion of an entry into a leaf. The log entry that initialises a page is
-- left out, and so is what the parent does with the leaf that a split makes.
use my_mini_ob.Base.{ℕ, ◌-◌, ◌/◌, Bool, true, Option, none, some, List, [], ◌∷◌, ltb, if◌then◌else◌}
use my_mini_ob.Base.Int.{ℤ}
use my_mini_ob.Rc.{Rc, success, record_duplicate_key}
use my_mini_ob.LowerBound.{lower_bound}
use my_mini_ob.BplusTree.{
  Key, IndexNode, IndexFileHeader, NodeHandler, node_remove, leaf_set_next_page, items_at, max_size,
  logged, insert_items, remove_items, recover_insert_items, recover_remove_items,
  set_parent_page_num,
}

module _ {Value : Type 0} where
  -- `LeafIndexNodeHandler`
  unfoldable pub set_next_page : Option ℕ → NodeHandler Value → NodeHandler Value
  set_next_page page_num h =
      logged (leaf_set_next_page page_num h.node.next_brother)
        (record h.node { next_brother = page_num }) h

  unfoldable pub leaf_lookup : (Key → Key → ℤ) → Key → IndexNode Value → Option (ℕ × Bool)
  leaf_lookup comparator key n = lower_bound (λ i. comparator (n.array i).0 key) n.key_num

  unfoldable pub leaf_insert : ℕ → Key → Value → NodeHandler Value → NodeHandler Value
  unfolding recover_insert_items
  leaf_insert index key value h = insert_items index ((key, value) ∷ []) 1 h

  unfoldable pub leaf_remove : ℕ → NodeHandler Value → Option (NodeHandler Value)
  unfolding recover_remove_items
  leaf_remove index h = if ltb index h.node.key_num then some (remove_items index 1 h) else none

  abbrev one_removed : Option (NodeHandler Value) → Option (ℕ × NodeHandler Value)
  one_removed none = none
  one_removed (some h) = some (1, h)

  abbrev remove_found : Option (ℕ × Bool) → NodeHandler Value → Option (ℕ × NodeHandler Value)
  remove_found none h = none
  remove_found (some (index, found)) h =
      let removed = one_removed (leaf_remove index h) in if found then removed else some (0, h)

  -- `remove(key, comparator)`, with how many items go
  unfoldable pub leaf_remove_key :
      (Key → Key → ℤ) → Key → NodeHandler Value → Option (ℕ × NodeHandler Value)
  unfolding leaf_lookup leaf_remove
  leaf_remove_key comparator key h = remove_found (leaf_lookup comparator key h.node) h

  abbrev pub leaf_append : List (Key × Value) → ℕ → NodeHandler Value → NodeHandler Value
  leaf_append new num h = insert_items h.node.key_num new num h

  -- the upper half goes to the end of the other node
  unfoldable pub leaf_move_half_to :
      NodeHandler Value → NodeHandler Value → NodeHandler Value × NodeHandler Value
  unfolding recover_insert_items recover_remove_items
  leaf_move_half_to h other =
      let size = h.node.key_num in
      let move_index = size / 2 in
      let move_item_num = size - move_index in
      (
        remove_items move_index move_item_num h,
        leaf_append (items_at h.node move_index move_item_num) move_item_num other,
      )

  -- the answers of the parts of a move that may fail an assert
  abbrev beside :
      Option (NodeHandler Value)
      → NodeHandler Value
      → Option (NodeHandler Value × NodeHandler Value)
  beside none other = none
  beside (some h) other = some (h, other)

  unfoldable pub leaf_move_first_to_end :
      NodeHandler Value → NodeHandler Value → Option (NodeHandler Value × NodeHandler Value)
  unfolding leaf_remove
  leaf_move_first_to_end h other =
      beside (leaf_remove 0 h) (leaf_append (items_at h.node 0 1) 1 other)

  -- `preappend` inserts in front; the item at `size() - 1` of an empty node is never asked for
  unfoldable pub leaf_move_last_to_front :
      NodeHandler Value → NodeHandler Value → Option (NodeHandler Value × NodeHandler Value)
  unfolding leaf_remove
  leaf_move_last_to_front h other =
      let last = h.node.key_num - 1 in
      beside (leaf_remove last h) (insert_items 0 (items_at h.node last 1) 1 other)

  -- all items go to the left node, and the link behind this one
  unfoldable pub leaf_move_to :
      NodeHandler Value → NodeHandler Value → NodeHandler Value × NodeHandler Value
  unfolding set_next_page recover_insert_items
  leaf_move_to h other =
      let size = h.node.key_num in
      (
        logged (node_remove 0 (items_at h.node 0 size) size)
            (record h.node { key_num = size - size }) h,
        set_next_page h.node.next_brother (leaf_append (items_at h.node 0 size) size other),
      )

  -- `init_empty` of a new page
  abbrev pub empty_node : Bool → (ℕ → Key × Value) → NodeHandler Value
  empty_node leaf garbage = record {
    node = record {
      is_leaf = leaf;
      key_num = 0;
      parent = none;
      next_brother = none;
      array = garbage;
    };
    entries = [];
  }

  -- `split<LeafIndexNodeHandler>`, with the new page's old contents
  unfoldable pub split :
      (ℕ → Key × Value) → NodeHandler Value → NodeHandler Value × NodeHandler Value
  unfolding set_parent_page_num leaf_move_half_to
  split garbage h =
      leaf_move_half_to h (set_parent_page_num h.node.parent (empty_node true garbage))

  -- `insert_entry_into_leaf_node` after a split: the links, and the new item
  abbrev pub link_and_insert :
      ℕ
      → ℕ
      → Key
      → Value
      → NodeHandler Value × NodeHandler Value
      → NodeHandler Value × NodeHandler Value
  link_and_insert new_page position key value (h, other) =
      let other' = set_parent_page_num h.node.parent (set_next_page h.node.next_brother other) in
      let h' = set_next_page (some new_page) h in
      if ltb position h'.node.key_num
      then (leaf_insert position key value h', other')
      else (h', leaf_insert (position - h'.node.key_num) key value other')

  -- What `insert_entry_into_leaf_node` does to the leaf: its code, the leaf, and the new leaf if the
  -- old one is split, which is then to be entered in the parent under its first key.
  abbrev pub inserted_at :
      IndexFileHeader
      → ℕ
      → (ℕ → Key × Value)
      → Key
      → Value
      → Option (ℕ × Bool)
      → NodeHandler Value
      → Option (Rc × NodeHandler Value × Option (NodeHandler Value))
  inserted_at header new_page garbage key value none h = none
  inserted_at header new_page garbage key value (some (position, exists)) h =
      if exists
      then some (record_duplicate_key, h, none)
      else if ltb h.node.key_num (max_size header h.node)
      then some (success, leaf_insert position key value h, none)
      else (let (left, right) = link_and_insert new_page position key value (split garbage h) in
          some (success, left, some right))

  unfoldable pub insert_entry_into_leaf_node :
      IndexFileHeader
      → (Key → Key → ℤ)
      → ℕ
      → (ℕ → Key × Value)
      → Key
      → Value
      → NodeHandler Value
      → Option (Rc × NodeHandler Value × Option (NodeHandler Value))
  unfolding leaf_lookup max_size leaf_insert split set_next_page set_parent_page_num
  insert_entry_into_leaf_node header comparator new_page garbage key value h =
      inserted_at header new_page garbage key value (leaf_lookup comparator key h.node) h
