-- ===== src/BplusTree/NodeLog.antt =====
-- The entries that a mini-transaction logs for a leaf: what their redo makes.
use mathlib.Core.Path.{subst}
use my_mini_ob.Base.{
  ℕ, ◌-◌, ◌≡◌, refl, sym, ap, ◌∙◌, Bool, true, false, Bool-cases, inl, inr, Option, none, some,
  List, [], ◌∷◌, ◌++◌, append-nil, append_assoc, ltb,
}
use my_mini_ob.Base.Int.{ℤ}
use my_mini_ob.Rc.{Rc}
use my_mini_ob.BplusTree.{
  Key, IndexNode, IndexFileHeader, LogEntry, NodeHandler, logged, max_size, set_parent_page_num,
  redo_entry, redo_entries,
}
use my_mini_ob.BplusTree.LeafNode.{
  set_next_page, leaf_insert, leaf_move_half_to, split, empty_node, link_and_insert, inserted_at,
  leaf_lookup, insert_entry_into_leaf_node,
}

module _ {Value : Type 0} where
  -- The entries logged between two states of a node make the second of the first.
  abbrev pub Rebuilds : NodeHandler Value → NodeHandler Value → Type 0
  Rebuilds h h' =
      (es : List (LogEntry Value)) × ((h'.entries ≡ h.entries ++ es)
        × (redo_entries es h.node ≡ h'.node))

  redo_entries-append :
      (es es' : List (LogEntry Value)) (n : IndexNode Value)
      → redo_entries (es ++ es') n ≡ redo_entries es' (redo_entries es n)
  unfolding redo_entries
  redo_entries-append [] es' n = refl
  redo_entries-append (e ∷ es) es' n = redo_entries-append es es' (redo_entry e n)

  Rebuilds-self : (h : NodeHandler Value) → Rebuilds h h
  unfolding redo_entries
  Rebuilds-self h = ([], (sym (append-nil h.entries), refl))

  Rebuilds-logged :
      (e : LogEntry Value) (n : IndexNode Value) (h : NodeHandler Value)
      → redo_entry e h.node ≡ n
      → Rebuilds h (logged e n h)
  unfolding redo_entries
  Rebuilds-logged e n h r = (e ∷ [], (refl, r))

  Rebuilds-trans : (h h' h'' : NodeHandler Value) → Rebuilds h h' → Rebuilds h' h'' → Rebuilds h h''
  Rebuilds-trans h h' h'' (es, (e, r)) (es', (e', r')) = (
    es ++ es',
    (
      e' ∙ ap (λ (x : List (LogEntry Value)). x ++ es') e ∙ append_assoc h.entries es es',
      redo_entries-append es es' h.node ∙ ap (redo_entries es') r ∙ r',
    ),
  )

  Rebuilds-leaf_insert :
      (index : ℕ) (key : Key) (value : Value) (h : NodeHandler Value)
      → Rebuilds h (leaf_insert index key value h)
  unfolding leaf_insert redo_entry
  Rebuilds-leaf_insert index key value h = Rebuilds-logged _ _ h refl

  Rebuilds-set_next_page :
      (page_num : Option ℕ) (h : NodeHandler Value) → Rebuilds h (set_next_page page_num h)
  unfolding set_next_page redo_entry
  Rebuilds-set_next_page page_num h = Rebuilds-logged _ _ h refl

  Rebuilds-set_parent_page_num :
      (page_num : Option ℕ) (h : NodeHandler Value) → Rebuilds h (set_parent_page_num page_num h)
  unfolding set_parent_page_num redo_entry
  Rebuilds-set_parent_page_num page_num h = Rebuilds-logged _ _ h refl

  Rebuilds-leaf_move_half_to :
      (h other : NodeHandler Value)
      → Rebuilds h (leaf_move_half_to h other).0 × Rebuilds other (leaf_move_half_to h other).1
  unfolding leaf_move_half_to redo_entry
  Rebuilds-leaf_move_half_to h other = (Rebuilds-logged _ _ h refl, Rebuilds-logged _ _ other refl)

  Rebuilds-split :
      (garbage : ℕ → Key × Value) (h : NodeHandler Value)
      → Rebuilds h (split garbage h).0 × Rebuilds (empty_node true garbage) (split garbage h).1
  unfolding split
  Rebuilds-split garbage h =
      let new = empty_node true garbage in
      let new' = set_parent_page_num h.node.parent new in
      let (left, right) = Rebuilds-leaf_move_half_to h new' in
      (
        left,
        Rebuilds-trans new new' (leaf_move_half_to h new').1
            (Rebuilds-set_parent_page_num h.node.parent new) right,
      )

  Rebuilds-link_and_insert :
      (new_page position : ℕ) (key : Key) (value : Value) (h other : NodeHandler Value)
      → Rebuilds h (link_and_insert new_page position key value (h, other)).0
        × Rebuilds other (link_and_insert new_page position key value (h, other)).1
  Rebuilds-link_and_insert new_page position key value h other =
      let h' = set_next_page (some new_page) h in
      let next = set_next_page h.node.next_brother other in
      let other' = set_parent_page_num h.node.parent next in
      let left = Rebuilds-set_next_page (some new_page) h in
      let right =
        Rebuilds-trans other next other' (Rebuilds-set_next_page h.node.next_brother other)
          (Rebuilds-set_parent_page_num h.node.parent next) in
      let place = position - h'.node.key_num in
      elim (Bool-cases (ltb position h'.node.key_num)) [
        | inl y ↦ rw y (
          Rebuilds-trans h h' (leaf_insert position key value h') left
              (Rebuilds-leaf_insert position key value h'),
          right,
        )
        | inr n ↦ rw n (
          left,
          Rebuilds-trans other other' (leaf_insert place key value other') right
              (Rebuilds-leaf_insert place key value other'),
        )
      ]

  -- the new leaf, if there is one, from an empty page
  abbrev pub NewRebuilds : (ℕ → Key × Value) → Option (NodeHandler Value) → Type 0
  NewRebuilds garbage none = Unit
  NewRebuilds garbage (some right) = Rebuilds (empty_node true garbage) right

  abbrev AllRebuild :
      (ℕ → Key × Value)
      → NodeHandler Value
      → Option (Rc × NodeHandler Value × Option (NodeHandler Value))
      → Type 0
  AllRebuild garbage h none = Unit
  AllRebuild garbage h (some (rc, left, right)) = Rebuilds h left × NewRebuilds garbage right

  inserted_at-AllRebuild :
      (header : IndexFileHeader) (new_page : ℕ) (garbage : ℕ → Key × Value) (key : Key)
      (value : Value) (answer : Option (ℕ × Bool)) (h : NodeHandler Value)
      → AllRebuild garbage h (inserted_at header new_page garbage key value answer h)
  inserted_at-AllRebuild header new_page garbage key value none h = tt
  inserted_at-AllRebuild header new_page garbage key value (some (position, true)) h =
      (Rebuilds-self h, tt)
  inserted_at-AllRebuild header new_page garbage key value (some (position, false)) h =
      elim (Bool-cases (ltb h.node.key_num (max_size header h.node))) [
        | inl y ↦ rw y (Rebuilds-leaf_insert position key value h, tt)
        | inr n ↦
            let two = split garbage h in
            let (left, right) = Rebuilds-split garbage h in
            let (left', right') =
              Rebuilds-link_and_insert new_page position key value two.0 two.1 in
            let done = link_and_insert new_page position key value two in
            rw n (
              Rebuilds-trans h two.0 done.0 left left',
              Rebuilds-trans (empty_node true garbage) two.1 done.1 right right',
            )
      ]

  -- Whatever an insertion does to a leaf, and to a new leaf if it splits, the redo of the entries that
  -- it logged for each page makes the same page: of the old leaf, and of an empty page.
  pub redo_entries_lem :
      (header : IndexFileHeader) (comparator : Key → Key → ℤ) (new_page : ℕ)
      (garbage : ℕ → Key × Value) (key : Key) (value : Value) (h : NodeHandler Value) (rc : Rc)
      (left : NodeHandler Value) (right : Option (NodeHandler Value))
      → insert_entry_into_leaf_node header comparator new_page garbage key value h
        ≡ some (rc, left, right)
      → Rebuilds h left × NewRebuilds garbage right
  unfolding insert_entry_into_leaf_node
  redo_entries_lem header comparator new_page garbage key value h rc left right e =
      subst (AllRebuild garbage h) e (
        inserted_at-AllRebuild header new_page garbage key value (leaf_lookup comparator key h.node)
          h)
