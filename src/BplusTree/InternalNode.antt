-- ===== src/BplusTree/InternalNode.antt =====
-- src/observer/storage/index/bplus_tree.cpp: the internal nodes of the B+ tree
-- (InternalIndexNodeHandler). The value of an item is the page number of a child; the key at place 0
-- is not used. The moves between internal nodes, which also write the children's pages, are left out.
use my_mini_ob.Base.{
  ℕ, zero, suc, ◌+◌, ◌-◌, Bool, false, ◌||◌, Option, none, some, [], ◌∷◌, ◌==◌, ltb, leb,
  if◌then◌else◌,
}
use my_mini_ob.Base.Int.{ℤ, pos, ltb_ℤ}
use my_mini_ob.LowerBound.{lower_bound}
use my_mini_ob.BplusTree.{
  Key, IndexNode, NodeHandler, insert_items, remove_items, recover_insert_items,
  recover_remove_items,
}

-- `create_new_root`, on a page that `init_empty` has emptied; `zeros` is the key that is all zeros
unfoldable pub create_new_root : Key → ℕ → Key → ℕ → IndexNode ℕ → IndexNode ℕ
create_new_root zeros first_page_num key page_num n = record n {
  key_num = n.key_num + 2;
  array = λ j.
      if j == 0 then (zeros, first_page_num) else if j == 1 then (key, page_num) else n.array j;
}

-- the answer of `lower_bound` on the keys from place 1 on, as the child's place and the place to
-- insert at
abbrev pub child_and_position :
    (Key → Key → ℤ) → Key → IndexNode ℕ → Option (ℕ × Bool) → Option (ℕ × Bool × ℕ)
child_and_position comparator key n none = none
child_and_position comparator key n (some (iter, found)) =
    let ret = iter + 1 in
    some (
      (if leb n.key_num ret || ltb_ℤ (comparator key (n.array ret).0) (pos 0)
          then ret - 1
          else ret),
      found,
      ret,
    )

-- `lookup`: the child, whether the key is there, and where it would be inserted
unfoldable pub internal_lookup : (Key → Key → ℤ) → Key → IndexNode ℕ → Option (ℕ × Bool × ℕ)
internal_lookup comparator key n =
    if n.key_num == 0
    then some (0, false, 1)
    else child_and_position comparator key n
        (lower_bound (λ i. comparator (n.array (i + 1)).0 key) (n.key_num - 1))

abbrev insert_found : Key → ℕ → NodeHandler ℕ → Option (ℕ × Bool × ℕ) → Option (NodeHandler ℕ)
insert_found key page_num h none = none
insert_found key page_num h (some (child, found, position)) =
    some (insert_items position ((key, page_num) ∷ []) 1 h)

-- `insert`; a key that is there already is inserted once more
unfoldable pub internal_insert : (Key → Key → ℤ) → Key → ℕ → NodeHandler ℕ → Option (NodeHandler ℕ)
unfolding internal_lookup recover_insert_items
internal_insert comparator key page_num h =
    insert_found key page_num h (internal_lookup comparator key h.node)

-- `value_index`, the loop with the rounds that are left; `-1` is none
unfoldable pub value_index_from : ℕ → ℕ → ℕ → IndexNode ℕ → Option ℕ
value_index_from zero i page_num n = none
value_index_from (suc rounds) i page_num n =
    let rest = value_index_from rounds (i + 1) page_num n in
    if page_num == (n.array i).1 then some i else rest

unfoldable pub value_index : ℕ → IndexNode ℕ → Option ℕ
unfolding value_index_from
value_index page_num n = value_index_from n.key_num 0 page_num n

-- `remove(index)`
unfoldable pub internal_remove : ℕ → NodeHandler ℕ → Option (NodeHandler ℕ)
unfolding recover_remove_items
internal_remove index h = if ltb index h.node.key_num then some (remove_items index 1 h) else none

-- `set_key_at`; its log entry is left out
unfoldable pub set_key_at : ℕ → Key → IndexNode ℕ → Option (IndexNode ℕ)
set_key_at index key n =
    if ltb index n.key_num
    then some (record n { array = λ j. if j == index then (key, (n.array index).1) else n.array j })
    else none
