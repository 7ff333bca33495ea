-- ===== src/BplusTree/Examples.antt =====
-- Nodes of a B+ tree at concrete inputs.
use my_mini_ob.Base.{
  ℕ, ◌+◌, ◌*◌, ◌≤◌, ◌<◌, ◌≡◌, ◌⊎◌, refl, true, false, Bool, Option, some, none, List, [], ◌∷◌, ◌++◌,
  arith, get_or,
}
use my_mini_ob.Base.Int.{ℤ, pos, sub_ℕ, ltb_ℤ}
use my_mini_ob.Rc.{Rc, success, record_duplicate_key}
use my_mini_ob.LowerBound.{search, lower_bound}
use my_mini_ob.LowerBound.Laws.{IsLess, IsGreater, IsSorted}
use my_mini_ob.BplusTree.{
  Key, IndexFileHeader, NodeHandler, node_remove, items, items_at, rollback_entry,
  recover_insert_items_through, recover_remove_items_through, max_size, min_size, node_insert,
}
use my_mini_ob.BplusTree.Splice.{splice}
use my_mini_ob.BplusTree.LeafNode.{leaf_insert, leaf_remove, insert_entry_into_leaf_node}
use my_mini_ob.BplusTree.InternalNode.{internal_lookup, internal_insert}
use my_mini_ob.BplusTree.LeafInsertion.{Enters, insert_entry_into_leaf_node_lem}
use my_mini_ob.BplusTree.LeafMerge.{Three, Balance, balanced, coalesce_or_redistribute}
use my_mini_ob.BplusTree.LeafUnderflow.{Balances, coalesce_or_redistribute_lem}
use my_mini_ob.BplusTree.ChildLookup.{IsPosition, Sends, internal_lookup_lem, internal_insert_lem}
use my_mini_ob.BplusTree.NodeLog.{Rebuilds, NewRebuilds, redo_entries_lem}
use my_mini_ob.BplusTree.NodeRollback.{
  Restores, rollback_entry-leaf_insert, rollback_entry-leaf_remove,
}

-- keys of one byte
abbrev by_byte : Key → Key → ℤ
by_byte a b = sub_ℕ (get_or a 0 0) (get_or b 0 0)

abbrev header : IndexFileHeader
header = record { internal_max_size = 4; leaf_max_size = 2 }

-- the keys 1, 3, 5 and so on
abbrev odd : ℕ → Key × ℕ
odd j = ((2 * j + 1) ∷ [], 10 + j)

abbrev leaf : NodeHandler ℕ
leaf = record {
  node = record {
    is_leaf = true;
    key_num = 2;
    parent = some 9;
    next_brother = some 5;
    array = odd;
  };
  entries = [];
}

abbrev inner : NodeHandler ℕ
inner = record {
  node = record { is_leaf = false; key_num = 3; parent = none; next_brother = none; array = odd };
  entries = [];
}

odd-IsSorted : (k n : ℕ) → IsSorted (λ i. by_byte (odd i).0 (k ∷ [])) n
odd-IsSorted k n = record { before = λ i j l m h. ground arith; behind = λ i j l m h. ground arith }

odd_from_1-IsSorted : (k n : ℕ) → IsSorted (λ i. by_byte (odd (i + 1)).0 (k ∷ [])) n
odd_from_1-IsSorted k n = record {
  before = λ i j l m h. ground arith;
  behind = λ i j l m h. ground arith;
}

turned :
    (k j : ℕ)
    → ltb_ℤ (by_byte (k ∷ []) (odd j).0) (pos 0) ≡ ltb_ℤ (pos 0) (by_byte (odd j).0 (k ∷ []))
turned k j = ground arith

-- the key 2 goes between 1 and 3, in a leaf that is full
insert_entry_into_leaf_node_lem_example :
    (position : ℕ) × (((j : ℕ) → j < position → IsLess (by_byte (odd j).0 (2 ∷ [])))
      × (((position < 2)
            × ((by_byte (odd position).0 (2 ∷ []) ≡ pos 0)
                × (insert_entry_into_leaf_node header by_byte 7 odd (2 ∷ []) 8 leaf
                    ≡ some (record_duplicate_key, leaf, none))))
          ⊎ ((position ≤ 2)
              × (((j : ℕ) → position ≤ j → j < 2 → IsGreater (by_byte (odd j).0 (2 ∷ [])))
                  × ((r : Rc × NodeHandler ℕ × Option (NodeHandler ℕ))
                      × ((insert_entry_into_leaf_node header by_byte 7 odd (2 ∷ []) 8 leaf ≡ some r)
                          × Enters header 7 position (2 ∷ []) 8 leaf r))))))
insert_entry_into_leaf_node_lem_example =
    insert_entry_into_leaf_node_lem header by_byte 7 odd (2 ∷ []) 8 leaf refl (odd-IsSorted 2 2)

abbrev items_after : Option (Rc × NodeHandler ℕ × Option (NodeHandler ℕ)) → List (Key × ℕ)
items_after none = []
items_after (some (rc, left, none)) = items left.node
items_after (some (rc, left, some right)) = items left.node ++ items right.node

split_items :
    items_after (insert_entry_into_leaf_node header by_byte 7 odd (2 ∷ []) 8 leaf)
    ≡ (1 ∷ [], 10) ∷ (2 ∷ [], 8) ∷ (3 ∷ [], 11) ∷ []
unfolding insert_entry_into_leaf_node lower_bound
split_items = refl

internal_lookup_lem_example :
    (child : ℕ) × ((found : Bool) × ((position : ℕ) × Sends by_byte
          (4 ∷ [])
          inner.node
          child
          found
          position))
internal_lookup_lem_example =
    internal_lookup_lem by_byte (4 ∷ []) inner.node (omega arith) (odd_from_1-IsSorted 4 2)
      (turned 4)

child_of_4 : internal_lookup by_byte (4 ∷ []) inner.node ≡ some (1, false, 2)
unfolding internal_lookup lower_bound search
child_of_4 = refl

internal_insert_lem_example :
    (h' : NodeHandler ℕ) × ((found : Bool) × ((position : ℕ) × ((internal_insert by_byte
              (4 ∷ [])
              6
              inner
            ≡ some h')
          × (IsPosition by_byte (4 ∷ []) inner.node found position
              × (items h'.node ≡ splice position ((4 ∷ [], 6) ∷ []) (items inner.node))))))
internal_insert_lem_example =
    internal_insert_lem by_byte (4 ∷ []) 6 inner (omega arith) (odd_from_1-IsSorted 4 2) (turned 4)

abbrev after : NodeHandler ℕ
after = leaf_insert 1 (2 ∷ []) 8 leaf

one_more :
    insert_entry_into_leaf_node (record header { leaf_max_size = 3 }) by_byte 7 odd (2 ∷ []) 8 leaf
    ≡ some (success, after, none)
unfolding insert_entry_into_leaf_node leaf_insert lower_bound
one_more = refl

-- a leaf with one item, on page 21, and the leaf before it on page 20, which has three
abbrev sibling : ℕ → NodeHandler ℕ
sibling page_num = record leaf { node = record leaf.node { key_num = 3 } }

abbrev short_leaf : NodeHandler ℕ
short_leaf = record leaf { node = record leaf.node { key_num = 1; array = λ j. odd (3 + j) } }

abbrev parent_of_two : NodeHandler ℕ
parent_of_two = record inner {
  node = record inner.node { key_num = 2; array = λ j. ((7 * j) ∷ [], 20 + j) };
}

sent_to_short_leaf :
    internal_lookup by_byte (short_leaf.node.array 0).0 parent_of_two.node ≡ some (1, true, 1)
unfolding internal_lookup lower_bound search
sent_to_short_leaf = refl

coalesce_or_redistribute_lem_example :
    (r : Three ℕ) × ((coalesce_or_redistribute
          (record header { leaf_max_size = 4 })
          by_byte
          sibling
          21
          (some parent_of_two)
          short_leaf
        ≡ balanced (some r))
      × Balances
          (record header { leaf_max_size = 4 })
          by_byte
          sibling
          21
          parent_of_two
          short_leaf
          1
          r)
unfolding min_size max_size
coalesce_or_redistribute_lem_example =
    coalesce_or_redistribute_lem (record header { leaf_max_size = 4 }) by_byte sibling 21
      parent_of_two short_leaf 1 true 1 (omega arith) (omega arith) sent_to_short_leaf (omega arith)
      (omega arith) refl (omega arith)

abbrev items_of_both : Balance ℕ → List (Key × ℕ)
items_of_both (balanced (some (parent, left, right))) = items left.node
items_of_both b = []

joined_items :
    items_of_both (
      coalesce_or_redistribute
        (record header { leaf_max_size = 4 })
        by_byte
        sibling
        21
        (some parent_of_two)
        short_leaf)
    ≡ items (sibling 20).node ++ ((7 ∷ [], 13) ∷ [])
unfolding coalesce_or_redistribute lower_bound search
joined_items = refl

redo_entries_lem_example : Rebuilds leaf after × NewRebuilds odd none
redo_entries_lem_example =
    redo_entries_lem (record header { leaf_max_size = 3 }) by_byte 7 odd (2 ∷ []) 8 leaf success
      after none one_more

rollback_entry-leaf_insert_example :
    Restores leaf (recover_remove_items_through (some after.node.array) 1 1 after.node)
    × (((1 < leaf.node.key_num)
          × (rollback_entry (node_insert 1 ((2 ∷ [], 8) ∷ []) 1) after.node ≡ none))
        ⊎ ((1 ≡ leaf.node.key_num)
            × Restores leaf (rollback_entry (node_insert 1 ((2 ∷ [], 8) ∷ []) 1) after.node)))
rollback_entry-leaf_insert_example = rollback_entry-leaf_insert 1 (2 ∷ []) 8 leaf (omega arith)

rollback_entry-leaf_remove_example :
    (h' : NodeHandler ℕ) × ((leaf_remove 1 leaf ≡ some h')
      × (Restores leaf
            (recover_insert_items_through (some h'.node.array) 1 (items_at leaf.node 1 1) 1 h'.node)
          × ((h'.entries ≡ leaf.entries ++ (node_remove 1 (items_at leaf.node 1 1) 1 ∷ []))
              × (rollback_entry (node_remove 1 (items_at leaf.node 1 1) 1) h'.node ≡ none))))
rollback_entry-leaf_remove_example = rollback_entry-leaf_remove 1 leaf (omega arith)
