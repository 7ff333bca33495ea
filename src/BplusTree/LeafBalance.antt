-- ===== src/BplusTree/LeafBalance.antt =====
-- Two neighbouring leaves after they have shared or joined their items.
use mathlib.Core.Path.{ap₂, subst}
use my_mini_ob.Base.{
  ℕ, ◌+◌, ◌-◌, ◌≤◌, ◌<◌, ◌≡◌, refl, sym, ap, ◌∙◌, true, false, Bool-cases, inl, inr, Option, some,
  List, ◌++◌, append_assoc, arith, ◌==◌, ltb, if◌then◌else◌, take, drop, take-append-drop,
}
use my_mini_ob.Base.Tabulate.{length-tabulate, tabulate_eq}
use my_mini_ob.BplusTree.{
  Key, NodeHandler, items, items_at, insert_items, remove_items, recover_insert_items,
  recover_remove_items,
}
use my_mini_ob.BplusTree.Items.{
  take-tabulate, items-recover_insert_items, items-recover_remove_items, items-append,
  items-truncate, items_at-rest,
}
use my_mini_ob.BplusTree.LeafNode.{set_next_page, leaf_append, leaf_move_to}
use my_mini_ob.BplusTree.InternalNode.{internal_remove}
use my_mini_ob.BplusTree.LeafMerge.{Three, merged, redistribute, coalesce}

keeps_children :
    (i : ℕ) (key : Key) (a : ℕ → Key × ℕ) (j : ℕ)
    → (if j == i then (key, (a i).1) else a j).1 ≡ (a j).1
keeps_children i key a j = elim (Bool-cases (j == i)) [
  | inl y ↦ let e : i ≡ j = ground arith in rw y (ap (λ (x : ℕ). (a x).1) e)
  | inr n ↦ rw n refl
]

-- the parent with a new key in front of a child
abbrev parent_with : ℕ → Key → NodeHandler ℕ → NodeHandler ℕ
parent_with i key parent = record parent {
  node = record parent.node {
    array = λ j. if j == i then (key, (parent.node.array i).1) else parent.node.array j;
  };
}

internal_remove-some :
    (index : ℕ) (parent : NodeHandler ℕ)
    → index < parent.node.key_num
    → internal_remove index parent ≡ some (remove_items index 1 parent)
unfolding internal_remove
internal_remove-some index parent l =
    let room : ltb index parent.node.key_num ≡ true = ground arith in rw room refl

module _ {Value : Type 0} where
  -- the first item moved from the right leaf to the end of the left one
  items-move_first :
      (right left : NodeHandler Value)
      → 0 < right.node.key_num
      → items (leaf_append (items_at right.node 0 1) 1 left).node
          ++ items (remove_items 0 1 right).node
        ≡ items left.node ++ items right.node
  items-move_first right left l =
      let first : items_at right.node 0 1 ≡ take 1 (items right.node) =
        sym (take-tabulate right.node.array 1 right.node.key_num (omega arith)) in
      ap₂ ◌++◌ (items-append left.node 1 (items_at right.node 0 1) refl)
        (items-recover_remove_items right.node 0 1 (omega arith))
      ∙ append_assoc (items left.node) (items_at right.node 0 1) (drop 1 (items right.node))
      ∙ ap (λ (x : List (Key × Value)). items left.node ++ (x ++ drop 1 (items right.node))) first
      ∙ ap (λ (x : List (Key × Value)). items left.node ++ x)
          (take-append-drop 1 (items right.node))

  -- the last item moved from the left leaf to the front of the right one
  items-move_last :
      (left right : NodeHandler Value)
      → 0 < left.node.key_num
      → items (remove_items (left.node.key_num - 1) 1 left).node
          ++ items (insert_items 0 (items_at left.node (left.node.key_num - 1) 1) 1 right).node
        ≡ items left.node ++ items right.node
  items-move_last left right l =
      let k = left.node.key_num in
      let one : 1 ≡ k - (k - 1) = omega arith in
      let front : items (recover_remove_items (k - 1) 1 left.node)
          ≡ take (k - 1) (items left.node) =
        ap (λ (m : ℕ). items (recover_remove_items (k - 1) m left.node)) one
        ∙ items-truncate left.node (k - 1) (omega arith) in
      let last : items_at left.node (k - 1) 1 ≡ drop (k - 1) (items left.node) =
        ap (items_at left.node (k - 1)) one ∙ items_at-rest left.node (k - 1) (omega arith) in
      ap₂ ◌++◌ front (
        items-recover_insert_items right.node 0 1 (items_at left.node (k - 1) 1) (omega arith) refl
        ∙ ap (λ (x : List (Key × Value)). x ++ items right.node) last)
      ∙ sym (
          append_assoc (take (k - 1) (items left.node)) (drop (k - 1) (items left.node))
            (items right.node))
      ∙ ap (λ (x : List (Key × Value)). x ++ items right.node)
          (take-append-drop (k - 1) (items left.node))

  -- the two leaves in the order of the parent: the neighbour of the first leaf is on its right
  abbrev pub in_order : ℕ → NodeHandler Value → NodeHandler Value → List (Key × Value)
  in_order index neighbor node =
      if index == 0
      then items node.node ++ items neighbor.node
      else items neighbor.node ++ items node.node

  -- the key in the parent in front of the right leaf is that leaf's first
  abbrev pub Separated : ℕ → NodeHandler ℕ → NodeHandler Value → NodeHandler Value → Type 0
  Separated index parent neighbor node =
      (parent.node.array (if index == 0 then 1 else index)).0
      ≡ (if index == 0 then (neighbor.node.array 0).0 else (node.node.array 0).0)

  abbrev pub Shares :
      ℕ → NodeHandler ℕ → NodeHandler Value → NodeHandler Value → Three Value → Type 0
  Shares index parent neighbor node (parent', neighbor', node') =
      (in_order index neighbor' node' ≡ in_order index neighbor node)
      × ((neighbor'.node.key_num + 1 ≡ neighbor.node.key_num)
          × ((node'.node.key_num ≡ node.node.key_num + 1)
              × (Separated index parent' neighbor' node'
                  × ((j : ℕ) → (parent'.node.array j).1 ≡ (parent.node.array j).1))))

  abbrev after_right : NodeHandler ℕ → NodeHandler Value → NodeHandler Value → Three Value
  after_right parent neighbor node =
      let neighbor' = remove_items 0 1 neighbor in
      (
        parent_with 1 (neighbor'.node.array 0).0 parent,
        neighbor',
        leaf_append (items_at neighbor.node 0 1) 1 node,
      )

  abbrev after_left : ℕ → NodeHandler ℕ → NodeHandler Value → NodeHandler Value → Three Value
  after_left index parent neighbor node =
      let last = neighbor.node.key_num - 1 in
      let node' = insert_items 0 (items_at neighbor.node last 1) 1 node in
      (parent_with index (node'.node.array 0).0 parent, remove_items last 1 neighbor, node')

  redistribute-right :
      (parent : NodeHandler ℕ) (neighbor node : NodeHandler Value)
      → 1 < parent.node.key_num
      → 1 < neighbor.node.key_num
      → redistribute 0 parent neighbor node ≡ some (after_right parent neighbor node)
  unfolding redistribute
  redistribute-right parent neighbor node two more =
      let here : ltb 0 neighbor.node.key_num ≡ true = ground arith in
      let still : ltb 0 (neighbor.node.key_num - 1) ≡ true = ground arith in
      let room : ltb 1 parent.node.key_num ≡ true = ground arith in
      rw here (rw still (rw room refl))

  redistribute-left :
      (index : ℕ) (parent : NodeHandler ℕ) (neighbor node : NodeHandler Value)
      → index == 0 ≡ false
      → index < parent.node.key_num
      → 0 < neighbor.node.key_num
      → redistribute index parent neighbor node ≡ some (after_left index parent neighbor node)
  unfolding redistribute recover_insert_items
  redistribute-left index parent neighbor node n l some_there =
      let here : ltb (neighbor.node.key_num - 1) neighbor.node.key_num ≡ true = ground arith in
      let still : ltb 0 (node.node.key_num + 1) ≡ true = ground arith in
      let room : ltb index parent.node.key_num ≡ true = ground arith in
      rw n (rw here (rw still (rw room refl)))

  redistribute-right-Shares :
      (parent : NodeHandler ℕ) (neighbor node : NodeHandler Value)
      → 1 < neighbor.node.key_num
      → Shares 0 parent neighbor node (after_right parent neighbor node)
  unfolding recover_insert_items recover_remove_items
  redistribute-right-Shares parent neighbor node more = (
    items-move_first neighbor node (omega arith),
    (
      omega arith,
      (
        refl,
        (refl, keeps_children 1 ((remove_items 0 1 neighbor).node.array 0).0 parent.node.array),
      ),
    ),
  )

  redistribute-left-Shares :
      (index : ℕ) (parent : NodeHandler ℕ) (neighbor node : NodeHandler Value)
      → index == 0 ≡ false
      → 0 < neighbor.node.key_num
      → Shares index parent neighbor node (after_left index parent neighbor node)
  unfolding recover_insert_items recover_remove_items
  redistribute-left-Shares index parent neighbor node n some_there =
      let same : index == index ≡ true = ground arith in
      (
        rw n (items-move_last neighbor node some_there),
        (
          omega arith,
          (
            refl,
            (
              rw n (rw same refl),
              keeps_children index (neighbor.node.array (neighbor.node.key_num - 1 + 0)).0
                  parent.node.array,
            ),
          ),
        ),
      )

  -- Between a leaf and a neighbour with two items at least, one item moves over: the items stay as they
  -- are in order, the parent keeps its children, and its key between the two leaves is the first of the
  -- right one.
  pub redistribute_lem :
      (index : ℕ) (parent : NodeHandler ℕ) (neighbor node : NodeHandler Value)
      → index < parent.node.key_num
      → 1 < parent.node.key_num
      → 1 < neighbor.node.key_num
      → (r : Three Value) × ((redistribute index parent neighbor node ≡ some r)
          × Shares index parent neighbor node r)
  redistribute_lem index parent neighbor node l two more = elim (Bool-cases (index == 0)) [
    | inl y ↦
        let e : 0 ≡ index = ground arith in
        subst
          (λ i.
            (r : Three Value) × ((redistribute i parent neighbor node ≡ some r)
              × Shares i parent neighbor node r))
          e
          (
            after_right parent neighbor node,
            (
              redistribute-right parent neighbor node two more,
              redistribute-right-Shares parent neighbor node more,
            ),
          )
    | inr n ↦ (
      after_left index parent neighbor node,
      (
        redistribute-left index parent neighbor node n l (omega arith),
        redistribute-left-Shares index parent neighbor node n (omega arith),
      ),
    )
  ]

  -- the left leaf has all items and the link of the right one, which is empty and out of the parent
  abbrev JoinsAt : ℕ → NodeHandler ℕ → NodeHandler Value → NodeHandler Value → Three Value → Type 0
  JoinsAt place parent left right (parent', left', right') =
      (items left'.node ≡ items left.node ++ items right.node)
      × ((left'.node.next_brother ≡ right.node.next_brother)
          × ((right'.node.key_num ≡ 0)
              × (items parent'.node
                  ≡ take place (items parent.node) ++ drop (place + 1) (items parent.node))))

  abbrev pub Joins :
      ℕ → NodeHandler ℕ → NodeHandler Value → NodeHandler Value → Three Value → Type 0
  Joins index parent neighbor node r =
      if index == 0 then JoinsAt 1 parent node neighbor r else JoinsAt index parent neighbor node r

  -- what joining two leaves makes of them
  abbrev joined : ℕ → NodeHandler ℕ → NodeHandler Value → NodeHandler Value → Three Value
  joined place parent left right =
      let (right', left') = leaf_move_to right left in
      (remove_items place 1 parent, set_next_page right'.node.next_brother left', right')

  joined-JoinsAt :
      (place : ℕ) (parent : NodeHandler ℕ) (left right : NodeHandler Value)
      → place + 1 ≤ parent.node.key_num
      → JoinsAt place parent left right (joined place parent left right)
  unfolding leaf_move_to set_next_page recover_insert_items recover_remove_items
  joined-JoinsAt place parent left right l = (
    items-append left.node right.node.key_num (items_at right.node 0 right.node.key_num)
          (length-tabulate (λ j. right.node.array (0 + j)) right.node.key_num)
        ∙ ap (λ (x : List (Key × Value)). items left.node ++ x)
            (tabulate_eq (λ j. right.node.array (0 + j)) right.node.array right.node.key_num
              (λ j m. ap right.node.array (omega arith))),
    (refl, (omega arith, items-recover_remove_items parent.node place 1 l)),
  )

  -- Two leaves of one parent become one: the left leaf has all items in order and the right one's link,
  -- the right one is empty, and the parent has lost exactly the item of the right leaf.
  pub coalesce_lem :
      (index : ℕ) (parent : NodeHandler ℕ) (neighbor node : NodeHandler Value)
      → index < parent.node.key_num
      → 1 < parent.node.key_num
      → (r : Three Value) × ((coalesce index parent neighbor node ≡ some r)
          × Joins index parent neighbor node r)
  unfolding coalesce
  coalesce_lem index parent neighbor node l two = elim (Bool-cases (index == 0)) [
    | inl y ↦
        let one : index + 1 ≡ 1 = ground arith in
        (
          joined 1 parent node neighbor,
          (
            rw y (
                ap (λ (k : ℕ). merged (internal_remove k parent) node neighbor) one
                ∙ ap (λ (p : Option (NodeHandler ℕ)). merged p node neighbor)
                    (internal_remove-some 1 parent two)),
            rw y (joined-JoinsAt 1 parent node neighbor (omega arith)),
          ),
        )
    | inr n ↦ (
      joined index parent neighbor node,
      (
        rw n (
            ap (λ (p : Option (NodeHandler ℕ)). merged p neighbor node)
              (internal_remove-some index parent l)),
        rw n (joined-JoinsAt index parent neighbor node (omega arith)),
      ),
    )
  ]
