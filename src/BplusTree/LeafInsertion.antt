-- ===== src/BplusTree/LeafInsertion.antt =====
-- An entry put into a leaf, which is split if it is full.
use mathlib.Core.Path.{ap₂}
use my_mini_ob.Base.{
  ℕ, ◌+◌, ◌-◌, ◌/◌, ◌≤◌, ◌<◌, ◌≡◌, ◌⊎◌, refl, sym, ap, ◌∙◌, true, false, Bool-cases, inl, inr,
  Option, none, some, List, [], ◌∷◌, ◌++◌, arith, ltb, take, drop, take-append-drop,
}
use my_mini_ob.Base.Int.{ℤ, pos}
use my_mini_ob.Base.Tabulate.{length-tabulate}
use my_mini_ob.Rc.{Rc, success, record_duplicate_key}
use my_mini_ob.LowerBound.Laws.{IsLess, IsGreater, IsSorted, lower_bound-Found}
use my_mini_ob.BplusTree.{
  Key, IndexNode, IndexFileHeader, NodeHandler, items, items_at, max_size, recover_insert_items,
  recover_remove_items, set_parent_page_num,
}
use my_mini_ob.BplusTree.Items.{
  items-recover_insert_items, items-append, items-truncate, items_at-rest,
}
use my_mini_ob.BplusTree.Splice.{splice, splice-front, splice-back}
use my_mini_ob.BplusTree.LeafNode.{
  set_next_page, leaf_lookup, leaf_insert, leaf_move_half_to, split, empty_node, link_and_insert,
  inserted_at, insert_entry_into_leaf_node,
}

module _ {Value : Type 0} where
  items-leaf_insert :
      (index : ℕ) (key : Key) (value : Value) (h : NodeHandler Value)
      → index ≤ h.node.key_num
      → items (leaf_insert index key value h).node ≡ splice index ((key, value) ∷ []) (items h.node)
  unfolding leaf_insert
  items-leaf_insert index key value h l =
      items-recover_insert_items h.node index 1 ((key, value) ∷ []) l refl

  key_num-leaf_insert :
      (index : ℕ) (key : Key) (value : Value) (h : NodeHandler Value)
      → (leaf_insert index key value h).node.key_num ≡ h.node.key_num + 1
  unfolding leaf_insert recover_insert_items
  key_num-leaf_insert index key value h = refl

  -- what the links and the parent of a leaf are after an insertion
  links-leaf_insert :
      (index : ℕ) (key : Key) (value : Value) (h : NodeHandler Value)
      → ((leaf_insert index key value h).node.next_brother ≡ h.node.next_brother)
        × ((leaf_insert index key value h).node.parent ≡ h.node.parent)
  unfolding leaf_insert recover_insert_items
  links-leaf_insert index key value h = (refl, refl)

  -- The lower half stays, the upper half goes to the end of the other node.
  items-leaf_move_half_to :
      (h other : NodeHandler Value)
      → (items (leaf_move_half_to h other).0.node ≡ take (h.node.key_num / 2) (items h.node))
        × (items (leaf_move_half_to h other).1.node
            ≡ items other.node ++ drop (h.node.key_num / 2) (items h.node))
  unfolding leaf_move_half_to
  items-leaf_move_half_to h other =
      let mid = h.node.key_num / 2 in
      (
        items-truncate h.node mid (omega arith),
        items-append other.node (h.node.key_num - mid) (items_at h.node mid (h.node.key_num - mid))
              (length-tabulate (λ j. h.node.array (mid + j)) (h.node.key_num - mid))
            ∙ ap (λ (l : List (Key × Value)). items other.node ++ l)
                (items_at-rest h.node mid (omega arith)),
      )

  key_num-leaf_move_half_to :
      (h other : NodeHandler Value)
      → ((leaf_move_half_to h other).0.node.key_num ≡ h.node.key_num / 2)
        × ((leaf_move_half_to h other).1.node.key_num
            ≡ other.node.key_num + (h.node.key_num - h.node.key_num / 2))
  unfolding leaf_move_half_to recover_insert_items recover_remove_items
  key_num-leaf_move_half_to h other = (omega arith, refl)

  -- A split: the two halves, the parent, and the old link.
  split_lem :
      (garbage : ℕ → Key × Value) (h : NodeHandler Value)
      → (items (split garbage h).0.node ≡ take (h.node.key_num / 2) (items h.node))
        × (items (split garbage h).1.node ≡ drop (h.node.key_num / 2) (items h.node))
        × ((split garbage h).0.node.key_num ≡ h.node.key_num / 2)
        × ((split garbage h).1.node.key_num ≡ h.node.key_num - h.node.key_num / 2)
  unfolding split set_parent_page_num
  split_lem garbage h =
      let new = set_parent_page_num h.node.parent (empty_node true garbage) in
      let halves = items-leaf_move_half_to h new in
      let sizes = key_num-leaf_move_half_to h new in
      (halves.0, halves.1, sizes.0, omega (arith, sizes.1))

  links-split :
      (garbage : ℕ → Key × Value) (h : NodeHandler Value)
      → ((split garbage h).0.node.next_brother ≡ h.node.next_brother)
        × ((split garbage h).0.node.parent ≡ h.node.parent)
  unfolding split leaf_move_half_to recover_remove_items
  links-split garbage h = (refl, refl)

  -- the chain of leaves and the parent after an insertion that split a leaf
  abbrev pub Linked : ℕ → IndexNode Value → IndexNode Value → IndexNode Value → Type 0
  Linked new_page n left right =
      (left.next_brother ≡ some new_page)
      × ((right.next_brother ≡ n.next_brother) × (right.parent ≡ n.parent))

  -- The new item is in its place in the two leaves that a split makes, which are not too large.
  abbrev pub Splits :
      ℕ → ℕ → Key → Value → NodeHandler Value → NodeHandler Value × NodeHandler Value → Type 0
  Splits new_page position key value h (left, right) =
      (items left.node ++ items right.node ≡ splice position ((key, value) ∷ []) (items h.node))
      × (Linked new_page h.node left.node right.node
          × ((h.node.key_num / 2 ≤ left.node.key_num)
              × ((h.node.key_num / 2 ≤ right.node.key_num)
                  × (left.node.key_num + right.node.key_num ≡ h.node.key_num + 1))))

  link_and_insert-Splits :
      (new_page position : ℕ) (garbage : ℕ → Key × Value) (key : Key) (value : Value)
      (h : NodeHandler Value)
      → position ≤ h.node.key_num
      → Splits new_page position key value h
          (link_and_insert new_page position key value (split garbage h))
  unfolding set_next_page set_parent_page_num
  link_and_insert-Splits new_page position garbage key value h l =
      let (low, high, size, size') = split_lem garbage h in
      let left = set_next_page (some new_page) (split garbage h).0 in
      let right =
        set_parent_page_num (split garbage h).0.node.parent
          (set_next_page (split garbage h).0.node.next_brother (split garbage h).1) in
      let (next, parent) = links-split garbage h in
      let both : items left.node ++ items right.node ≡ items h.node =
        ap₂ ◌++◌ low high ∙ take-append-drop (h.node.key_num / 2) (items h.node) in
      let new : List (Key × Value) = (key, value) ∷ [] in
      let long = length-tabulate left.node.array left.node.key_num in
      elim (Bool-cases (ltb position left.node.key_num)) [
        | inl y ↦
            let below : position ≤ left.node.key_num = ground arith in
            let grown = key_num-leaf_insert position key value left in
            let links = links-leaf_insert position key value left in
            rw y (
              ap (λ (x : List (Key × Value)). x ++ items right.node)
                    (items-leaf_insert position key value left below)
                  ∙ splice-front position new (items left.node) (items right.node)
                      (omega (arith, long, below))
                  ∙ ap (splice position new) both,
              (
                (links.0, (next, parent)),
                (
                  omega (arith, grown, size),
                  (omega (arith, size'), omega (arith, grown, size, size')),
                ),
              ),
            )
        | inr n ↦
            let from : left.node.key_num ≤ position = ground arith in
            let place = position - left.node.key_num in
            let grown = key_num-leaf_insert place key value right in
            let links = links-leaf_insert place key value right in
            rw n (
              ap (λ (x : List (Key × Value)). items left.node ++ x)
                    (items-leaf_insert place key value right (omega (arith, size', size, l)))
                  ∙ ap (λ (m : ℕ). items left.node ++ splice (position - m) new (items right.node))
                      (sym long)
                  ∙ splice-back position new (items left.node) (items right.node)
                      (omega (arith, long, from))
                  ∙ ap (splice position new) both,
              (
                (refl, (links.0 ∙ next, links.1 ∙ parent)),
                (
                  omega (arith, size),
                  (omega (arith, grown, size'), omega (arith, grown, size, size')),
                ),
              ),
            )
      ]

  -- What becomes of the leaf, when the entry is not in it: it is in its place in the leaf, which had
  -- room, or in the two leaves of the split.
  abbrev pub Enters :
      IndexFileHeader
      → ℕ
      → ℕ
      → Key
      → Value
      → NodeHandler Value
      → Rc × NodeHandler Value × Option (NodeHandler Value)
      → Type 0
  Enters header new_page position key value h (rc, left, none) =
      (rc ≡ success)
      × ((h.node.key_num < header.leaf_max_size)
          × ((items left.node ≡ splice position ((key, value) ∷ []) (items h.node))
              × (left.node.key_num ≡ h.node.key_num + 1)))
  Enters header new_page position key value h (rc, left, some right) =
      (rc ≡ success)
      × ((header.leaf_max_size ≤ h.node.key_num)
          × Splits new_page position key value h (left, right))

  inserted_at-Enters :
      (header : IndexFileHeader) (new_page : ℕ) (garbage : ℕ → Key × Value) (key : Key)
      (value : Value) (position : ℕ) (h : NodeHandler Value)
      → h.node.is_leaf ≡ true
      → position ≤ h.node.key_num
      → (r : Rc × NodeHandler Value × Option (NodeHandler Value)) × ((inserted_at header new_page
              garbage key value
              (some (position, false))
              h
            ≡ some r)
          × Enters header new_page position key value h r)
  unfolding max_size
  inserted_at-Enters header new_page garbage key value position h leaf l =
      elim (Bool-cases (ltb h.node.key_num header.leaf_max_size)) [
        | inl y ↦
            let room : h.node.key_num < header.leaf_max_size = ground arith in
            (
              (success, leaf_insert position key value h, none),
              (
                rw (leaf, y) refl,
                (
                  refl,
                  (
                    room,
                    (
                      items-leaf_insert position key value h l,
                      key_num-leaf_insert position key value h,
                    ),
                  ),
                ),
              ),
            )
        | inr n ↦
            let full : header.leaf_max_size ≤ h.node.key_num = ground arith in
            let two = link_and_insert new_page position key value (split garbage h) in
            (
              (success, two.0, some two.1),
              (
                rw (leaf, n) refl,
                (refl, (full, link_and_insert-Splits new_page position garbage key value h l)),
              ),
            )
      ]

  -- The keys of a leaf are in order. If the key is among them, the insertion is refused and changes
  -- nothing. If not, the new item is put behind the lesser keys and before the greater ones: in the
  -- leaf if it has room, and else in two leaves that share the items, each of which has at least half
  -- of the old one's number, rounded down; they are linked in order, and the new one has the same
  -- parent.
  pub insert_entry_into_leaf_node_lem :
      (header : IndexFileHeader) (comparator : Key → Key → ℤ) (new_page : ℕ)
      (garbage : ℕ → Key × Value) (key : Key) (value : Value) (h : NodeHandler Value)
      → h.node.is_leaf ≡ true
      → IsSorted (λ i. comparator (h.node.array i).0 key) h.node.key_num
      → (position : ℕ) × (((j : ℕ) → j < position → IsLess (comparator (h.node.array j).0 key))
          × (((position < h.node.key_num)
                × ((comparator (h.node.array position).0 key ≡ pos 0)
                    × (insert_entry_into_leaf_node header comparator new_page garbage key value h
                        ≡ some (record_duplicate_key, h, none))))
              ⊎ ((position ≤ h.node.key_num)
                  × (((j : ℕ)
                        → position ≤ j
                        → j < h.node.key_num
                        → IsGreater (comparator (h.node.array j).0 key))
                      × ((r : Rc × NodeHandler Value × Option (NodeHandler Value))
                          × ((insert_entry_into_leaf_node header comparator new_page garbage key
                                  value h
                                ≡ some r)
                              × Enters header new_page position key value h r))))))
  unfolding insert_entry_into_leaf_node leaf_lookup
  insert_entry_into_leaf_node_lem header comparator new_page garbage key value h leaf sorted =
      let f = lower_bound-Found (λ i. comparator (h.node.array i).0 key) h.node.key_num sorted in
      (
        f.first,
        (
          f.lesser,
          elim f.rest [
            | inl (y, l, e) ↦ inl (l, (e, rw (f.returns, y) refl))
            | inr (n, g) ↦
                let (r, (e, entered)) =
                  inserted_at-Enters header new_page garbage key value f.first h leaf f.inside in
                inr (f.inside, (g, (r, (rw (f.returns, n) e, entered))))
          ],
        ),
      )
