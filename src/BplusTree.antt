-- ===== src/BplusTree.antt =====
-- src/observer/storage/index/bplus_tree.{h,cpp}, bplus_tree_log.cpp and bplus_tree_log_entry.cpp: the
-- nodes of the B+ tree of an index. A page's array is a map from places to items; an item is a key,
-- which is the bytes of the attribute and of the record's id, and a value: the record's id in a leaf,
-- the number of the child's page in an internal node. `comparator` is the argument that it is in the
-- source. The entries that the mini-transaction logs for a node stand beside the node. An `assert` that
-- fails ends the process: `none`. The page number -1 is `none`.
mod Examples
pub mod Items
pub mod Splice
pub mod LeafNode
pub mod LeafInsertion
pub mod InternalNode
pub mod ChildLookup
pub mod NodeLog
pub mod NodeRollback
pub mod LeafMerge
pub mod LeafBalance
pub mod LeafUnderflow
use my_mini_ob.Base.{
  ℕ, zero, suc, ◌+◌, ◌-◌, ◌*◌, ◌/◌, Bool, true, false, not, ◌&&◌, Option, none, some, List, [], ◌∷◌,
  ◌++◌, ◌==◌, ltb, leb, if◌then◌else◌, get_or, length,
}
use my_mini_ob.Base.Int.{ℤ, pos, ltb_ℤ}
use my_mini_ob.Base.Tabulate.{tabulate}
use my_mini_ob.Rc.{Rc}
use my_mini_ob.LowerBound.{lower_bound}
use mathlib.Core.List.{reverse}

abbrev pub Key : Type 0
Key = List ℕ

-- `IndexNode`, with the array that follows it; `next_brother` is of leaves alone
pub record IndexNode (Value : Type 0) : Type 0 where
  pub is_leaf : Bool
  pub key_num : ℕ
  pub parent : Option ℕ
  pub next_brother : Option ℕ
  pub array : ℕ → Key × Value

-- the fields of `IndexFileHeader` that bound the nodes
pub record IndexFileHeader : Type 0 where
  pub internal_max_size : ℕ
  pub leaf_max_size : ℕ

pub data LogEntry (Value : Type 0) : Type 0 where
  node_insert node_remove : ℕ → List (Key × Value) → ℕ → LogEntry Value
  set_parent_page leaf_set_next_page : Option ℕ → Option ℕ → LogEntry Value

-- a node and what has been logged for it
pub record NodeHandler (Value : Type 0) : Type 0 where
  pub node : IndexNode Value
  pub entries : List (LogEntry Value)

pub data BplusTreeOperationType : Type 0 where
  op_read op_insert op_delete : BplusTreeOperationType

abbrev is_none : Option ℕ → Bool
is_none none = true
is_none (some p) = false

module _ {Value : Type 0} where
  -- `memmove` inside the array, and `memcpy` into it
  abbrev pub memmove : ℕ → ℕ → ℕ → (ℕ → Key × Value) → (ℕ → Key × Value)
  memmove dst src n array j =
      if leb dst j && ltb j (dst + n) then array (src + (j - dst)) else array j

  abbrev pub memcpy : ℕ → List (Key × Value) → ℕ → (ℕ → Key × Value) → (ℕ → Key × Value)
  memcpy dst items n array j =
      if leb dst j && ltb j (dst + n) then get_or items (j - dst) (array j) else array j

  -- the items of a node
  abbrev pub items : IndexNode Value → List (Key × Value)
  items n = tabulate n.array n.key_num

  abbrev pub items_at : IndexNode Value → ℕ → ℕ → List (Key × Value)
  items_at n index num = tabulate (λ j. n.array (index + j)) num

  unfoldable pub max_size : IndexFileHeader → IndexNode Value → ℕ
  max_size header n = if n.is_leaf then header.leaf_max_size else header.internal_max_size

  unfoldable pub min_size : IndexFileHeader → IndexNode Value → ℕ
  unfolding max_size
  min_size header n = max_size header n - max_size header n / 2

  unfoldable pub is_safe : IndexFileHeader → BplusTreeOperationType → Bool → IndexNode Value → Bool
  unfolding min_size
  is_safe header op_read is_root_node n = true
  is_safe header op_insert is_root_node n = ltb n.key_num (max_size header n)
  is_safe header op_delete is_root_node n =
      if is_root_node
      then (if n.is_leaf then ltb 1 n.key_num else ltb 2 n.key_num)
      else ltb (min_size header n) n.key_num

  -- `IndexNodeHandler::validate`
  unfoldable pub validate : IndexNode Value → Bool
  validate n =
      if is_none n.parent
      then not (ltb n.key_num 1) && not (not n.is_leaf && ltb n.key_num 2)
      else true

  unfoldable pub recover_insert_items :
      ℕ → List (Key × Value) → ℕ → IndexNode Value → IndexNode Value
  recover_insert_items index new num n = record n {
    key_num = n.key_num + num;
    array = memcpy index new num (
        if ltb index n.key_num
        then memmove (index + num) index (n.key_num - index) n.array
        else n.array);
  }

  unfoldable pub recover_remove_items : ℕ → ℕ → IndexNode Value → IndexNode Value
  recover_remove_items index num n = record n {
    key_num = n.key_num - num;
    array =
        if ltb index (n.key_num - num)
        then memmove index (index + num) (n.key_num - index - num) n.array
        else n.array;
  }

  abbrev pub logged : LogEntry Value → IndexNode Value → NodeHandler Value → NodeHandler Value
  logged entry n h = record { node = n; entries = h.entries ++ (entry ∷ []) }

  -- `node_insert_items` in the log, then the change
  abbrev pub insert_items : ℕ → List (Key × Value) → ℕ → NodeHandler Value → NodeHandler Value
  insert_items index new num h =
      logged (node_insert index new num) (recover_insert_items index new num h.node) h

  abbrev pub remove_items : ℕ → ℕ → NodeHandler Value → NodeHandler Value
  remove_items index num h =
      logged (node_remove index (items_at h.node index num) num)
        (recover_remove_items index num h.node) h

  unfoldable pub set_parent_page_num : Option ℕ → NodeHandler Value → NodeHandler Value
  set_parent_page_num page_num h =
      logged (set_parent_page page_num h.node.parent) (record h.node { parent = page_num }) h

  -- `redo` of an entry on the page that it names
  unfoldable pub redo_entry : LogEntry Value → IndexNode Value → IndexNode Value
  unfolding recover_insert_items recover_remove_items
  redo_entry (node_insert index new num) n = recover_insert_items index new num n
  redo_entry (node_remove index old num) n = recover_remove_items index num n
  redo_entry (set_parent_page page_num old) n = record n { parent = page_num }
  redo_entry (leaf_set_next_page page_num old) n = record n { next_brother = page_num }

  -- the loop of `__redo` on a page whose number is lower than the entry's
  unfoldable pub redo_entries : List (LogEntry Value) → IndexNode Value → IndexNode Value
  unfolding redo_entry
  redo_entries [] n = n
  redo_entries (e ∷ es) n = redo_entries es (redo_entry e n)

  -- `memmove` and `memcpy` through `__item_at`, which is the array or the null pointer; a copy of any
  -- item through that is undefined
  abbrev memmove_through : Option (ℕ → Key × Value) → ℕ → ℕ → ℕ → Option (Option (ℕ → Key × Value))
  memmove_through none dst src n = if n == 0 then some none else none
  memmove_through (some array) dst src n = some (some (memmove dst src n array))

  abbrev memcpy_through :
      Option (ℕ → Key × Value) → ℕ → List (Key × Value) → ℕ → Option (Option (ℕ → Key × Value))
  memcpy_through none dst items n = if n == 0 then some none else none
  memcpy_through (some array) dst items n = some (some (memcpy dst items n array))

  -- the node with its new size, and with the array if the pointer was to it
  abbrev resized :
      IndexNode Value → ℕ → Option (Option (ℕ → Key × Value)) → Option (IndexNode Value)
  resized n key_num none = none
  resized n key_num (some none) = some (record n { key_num = key_num })
  resized n key_num (some (some array)) = some (record n { key_num = key_num; array = array })

  abbrev then_memcpy :
      Option (Option (ℕ → Key × Value))
      → ℕ
      → List (Key × Value)
      → ℕ
      → Option (Option (ℕ → Key × Value))
  then_memcpy none index new num = none
  then_memcpy (some item_at) index new num = memcpy_through item_at index new num

  -- `recover_insert_items` and `recover_remove_items` of a handler with this `__item_at`
  unfoldable pub recover_insert_items_through :
      Option (ℕ → Key × Value)
      → ℕ
      → List (Key × Value)
      → ℕ
      → IndexNode Value
      → Option (IndexNode Value)
  recover_insert_items_through item_at index new num n = resized n (n.key_num + num) (
      then_memcpy
        (if ltb index n.key_num
          then memmove_through item_at (index + num) index (n.key_num - index)
          else some item_at)
        index new num)

  unfoldable pub recover_remove_items_through :
      Option (ℕ → Key × Value) → ℕ → ℕ → IndexNode Value → Option (IndexNode Value)
  recover_remove_items_through item_at index num n = resized n (n.key_num - num) (
      if ltb index (n.key_num - num)
      then memmove_through item_at index (index + num) (n.key_num - index - num)
      else some item_at)

  -- `IndexNodeHandler::__item_at`, which the leaves and the internal nodes override
  abbrev pub base_item_at : Option (ℕ → Key × Value)
  base_item_at = none

  -- `rollback` of an entry, through a handler of the base class
  unfoldable pub rollback_entry : LogEntry Value → IndexNode Value → Option (IndexNode Value)
  unfolding recover_insert_items_through recover_remove_items_through
  rollback_entry (node_insert index new num) n =
      recover_remove_items_through base_item_at index num n
  rollback_entry (node_remove index old num) n =
      recover_insert_items_through base_item_at index old num n
  rollback_entry (set_parent_page page_num old) n = some (record n { parent = old })
  rollback_entry (leaf_set_next_page page_num old) n = some (record n { next_brother = old })

  abbrev and_back :
      Option (IndexNode Value)
      → (IndexNode Value → Option (IndexNode Value))
      → Option (IndexNode Value)
  and_back none k = none
  and_back (some n) k = k n

  -- the entries that are given, the last of the log first
  unfoldable pub rollback_entries :
      List (LogEntry Value) → IndexNode Value → Option (IndexNode Value)
  unfolding rollback_entry
  rollback_entries [] n = some n
  rollback_entries (e ∷ es) n = and_back (rollback_entry e n) (λ n'. rollback_entries es n')
