-- ===== src/BplusTree/NodeRollback.antt =====
-- The rollback of the entries of a leaf (NormalOperationLogEntryHandler::rollback), through a handler of
-- the base class as the code has it, and through the leaf's own `__item_at`.
use mathlib.Core.Path.{ap₂}
use my_mini_ob.Base.{
  ℕ, suc, ◌+◌, ◌-◌, ◌≤◌, ◌<◌, ◌≡◌, ◌⊎◌, refl, sym, ap, ◌∙◌, true, false, Bool-cases, inl, inr,
  Option, none, some, List, [], ◌∷◌, ◌++◌, arith, ltb, ◌==◌, take, drop, length,
}
use my_mini_ob.Base.Tabulate.{length-tabulate}
use my_mini_ob.BplusTree.{
  Key, IndexNode, node_insert, node_remove, NodeHandler, items, items_at, remove_items,
  recover_insert_items, recover_remove_items, recover_insert_items_through,
  recover_remove_items_through, rollback_entry,
}
use my_mini_ob.BplusTree.Items.{
  take-tabulate, drop-tabulate, items-recover_insert_items, items-recover_remove_items,
}
use my_mini_ob.BplusTree.Splice.{splice, undo_splice, splice-rest}
use my_mini_ob.BplusTree.LeafNode.{leaf_insert, leaf_remove}

module _ {Value : Type 0} where
  -- with the array of the node, as a leaf and an internal node have it
  recover_insert_items_through-array :
      (index : ℕ) (new : List (Key × Value)) (num : ℕ) (n : IndexNode Value)
      → recover_insert_items_through (some n.array) index new num n
        ≡ some (recover_insert_items index new num n)
  unfolding recover_insert_items_through recover_insert_items
  recover_insert_items_through-array index new num n = elim (Bool-cases (ltb index n.key_num)) [
    | inl y ↦ rw y refl
    | inr f ↦ rw f refl
  ]

  recover_remove_items_through-array :
      (index num : ℕ) (n : IndexNode Value)
      → recover_remove_items_through (some n.array) index num n
        ≡ some (recover_remove_items index num n)
  unfolding recover_remove_items_through recover_remove_items
  recover_remove_items_through-array index num n = elim (Bool-cases (ltb index (n.key_num - num))) [
    | inl y ↦ rw y refl
    | inr f ↦ rw f refl
  ]

  -- the node that a call leaves has the items of this one
  abbrev pub Restores : NodeHandler Value → Option (IndexNode Value) → Type 0
  Restores h r = (n : IndexNode Value) × ((r ≡ some n) × (items n ≡ items h.node))

  items-inserted_removed :
      (index : ℕ) (key : Key) (value : Value) (h : NodeHandler Value)
      → index ≤ h.node.key_num
      → items (recover_remove_items index 1 (leaf_insert index key value h).node) ≡ items h.node
  unfolding leaf_insert recover_insert_items
  items-inserted_removed index key value h l =
      let xs = items h.node in
      let one : index + 1 ≡ suc index = omega arith in
      let put : items (recover_insert_items index ((key, value) ∷ []) 1 h.node)
          ≡ splice index ((key, value) ∷ []) xs =
        items-recover_insert_items h.node index 1 ((key, value) ∷ []) l refl in
      let long : index ≤ length xs =
        let e = length-tabulate h.node.array h.node.key_num in omega (arith, e) in
      items-recover_remove_items (leaf_insert index key value h).node index 1 (omega arith)
      ∙ ap (λ (l : List (Key × Value)). take index l ++ drop (index + 1) l) put
      ∙ ap
          (λ (k : ℕ).
            take index (splice index ((key, value) ∷ []) xs)
            ++ drop k (splice index ((key, value) ∷ []) xs))
          one
      ∙ undo_splice index (key, value) xs long

  items-removed_inserted :
      (index : ℕ) (h : NodeHandler Value)
      → index < h.node.key_num
      → items (recover_insert_items index (items_at h.node index 1) 1 (remove_items index 1 h).node)
        ≡ items h.node
  unfolding recover_remove_items
  items-removed_inserted index h l =
      let xs = items h.node in
      let one : index + 1 ≡ suc index = omega arith in
      let old : items_at h.node index 1 ≡ take 1 (drop index xs) = sym (
        ap (take 1) (drop-tabulate h.node.array index h.node.key_num (omega arith))
        ∙ take-tabulate (λ j. h.node.array (index + j)) 1 (h.node.key_num - index) (omega arith)) in
      let left : items (recover_remove_items index 1 h.node)
          ≡ take index xs ++ drop (suc index) xs =
        items-recover_remove_items h.node index 1 (omega arith)
        ∙ ap (λ (k : ℕ). take index xs ++ drop k xs) one in
      let long : suc index ≤ length xs =
        let e = length-tabulate h.node.array h.node.key_num in omega (arith, e) in
      items-recover_insert_items (remove_items index 1 h).node index 1 (items_at h.node index 1)
        (omega arith) refl
      ∙ ap₂ (λ (new : List (Key × Value)) (l : List (Key × Value)). splice index new l) old left
      ∙ splice-rest index xs long

  -- The rollback of an insertion into a leaf, of which the leaf's own array would restore the items,
  -- goes through a null pointer: if the item is not the last it is undefined, and if it is the last
  -- then it takes the item out.
  pub rollback_entry-leaf_insert :
      (index : ℕ) (key : Key) (value : Value) (h : NodeHandler Value)
      → index ≤ h.node.key_num
      → Restores h (
          recover_remove_items_through
            (some (leaf_insert index key value h).node.array)
            index
            1
            (leaf_insert index key value h).node)
        × (((index < h.node.key_num)
              × (rollback_entry
                    (node_insert index ((key, value) ∷ []) 1)
                    (leaf_insert index key value h).node
                  ≡ none))
            ⊎ ((index ≡ h.node.key_num)
                × Restores h (
                    rollback_entry
                      (node_insert index ((key, value) ∷ []) 1)
                      (leaf_insert index key value h).node)))
  unfolding rollback_entry leaf_insert recover_insert_items recover_remove_items
  rollback_entry-leaf_insert index key value h l =
      let n : IndexNode Value = (leaf_insert index key value h).node in
      let back : items (recover_remove_items index 1 n) ≡ items h.node =
        items-inserted_removed index key value h l in
      (
        (recover_remove_items index 1 n, (recover_remove_items_through-array index 1 n, back)),
        elim (Bool-cases (ltb index h.node.key_num)) [
          | inl y ↦
              let inside : ltb index (h.node.key_num + 1 - 1) ≡ true = ground arith in
              let some_moved : h.node.key_num + 1 - index - 1 == 0 ≡ false = ground arith in
              inl (ground arith, rw inside (rw some_moved refl))
          | inr f ↦
              let outside : ltb index (h.node.key_num + 1 - 1) ≡ false = ground arith in
              inr (ground arith, (recover_remove_items index 1 n, (rw outside refl, back)))
        ],
      )

  -- The rollback of a removal from a leaf, of which the leaf's own array would restore the items, goes
  -- through a null pointer and is undefined.
  pub rollback_entry-leaf_remove :
      (index : ℕ) (h : NodeHandler Value)
      → index < h.node.key_num
      → (h' : NodeHandler Value) × ((leaf_remove index h ≡ some h')
          × (Restores h (
                recover_insert_items_through
                  (some h'.node.array)
                  index
                  (items_at h.node index 1)
                  1
                  h'.node)
              × ((h'.entries ≡ h.entries ++ (node_remove index (items_at h.node index 1) 1 ∷ []))
                  × (rollback_entry (node_remove index (items_at h.node index 1) 1) h'.node
                      ≡ none))))
  unfolding rollback_entry leaf_remove recover_remove_items
  rollback_entry-leaf_remove index h l =
      let there : ltb index h.node.key_num ≡ true = ground arith in
      (
        remove_items index 1 h,
        (
          rw there refl,
          (
            (
              recover_insert_items index (items_at h.node index 1) 1 (remove_items index 1 h).node,
              (
                recover_insert_items_through-array index (items_at h.node index 1) 1
                    (remove_items index 1 h).node,
                items-removed_inserted index h l,
              ),
            ),
            (
              refl,
              elim (Bool-cases (ltb index (h.node.key_num - 1))) [
                | inl y ↦
                    let some_moved : h.node.key_num - 1 - index == 0 ≡ false = ground arith in
                    rw y (rw some_moved refl)
                | inr f ↦ rw f refl
              ],
            ),
          ),
        ),
      )
