-- ===== src/TrxReplay.antt =====
-- src/observer/storage/trx/mvcc_trx_log.cpp (MvccTrxLogReplayer) and mvcc_trx.cpp (MvccTrxKit): the
-- transactions that the kit owns, and the replay of their log entries after a restart. A transaction
-- is named by a handle, which stands for its address; a use of the null pointer or of a transaction
-- that has been deleted is undefined: `none`. `trx_map_` is a list of pairs, in any order. What
-- `find_table` answers for an entry is a parameter.
mod Examples
pub mod Recovery
use my_mini_ob.Base.{
  ℕ, suc, ◌+◌, Bool, true, false, Option, none, some, List, [], ◌∷◌, ◌++◌, ◌==◌, if◌then◌else◌,
}
use my_mini_ob.Base.Int.{ℤ, ltb_ℤ, eq_ℤ}
use my_mini_ob.Rc.{Rc, success, log_entry_invalid, ob_succ}
use my_mini_ob.MvccTrx.{
  System, MvccTrx, new_trx, recovering_trx, TrxLog, insert_log, delete_log, commit_log,
  rollback_log, redo, rollback,
}

-- the transactions in memory; `current_trx_id_` stands in the system
pub record MvccTrxKit : Type 0 where
  pub fresh : ℕ
  pub trx_at : ℕ → Option MvccTrx
  pub trxes : List ℕ

-- the kit, the rows and the replayer's `trx_map_`; a null pointer is `none`
pub record Replayer : Type 0 where
  pub system : System
  pub kit : MvccTrxKit
  pub trx_map : List (ℤ × Option ℕ)

abbrev pub put_trx : ℕ → Option MvccTrx → MvccTrxKit → MvccTrxKit
put_trx h t k = record k { trx_at = λ q. if q == h then t else k.trx_at q }

-- `new` and `trxes_.push_back`
abbrev pub add_trx : MvccTrx → MvccTrxKit → ℕ × MvccTrxKit
add_trx t k = (
  k.fresh,
  record (put_trx k.fresh (some t) k) { fresh = suc k.fresh; trxes = k.trxes ++ (k.fresh ∷ []) },
)

-- `create_trx(log_handler)`
unfoldable pub create_trx : MvccTrxKit → ℕ × MvccTrxKit
create_trx k = add_trx new_trx k

-- `create_trx(log_handler, trx_id)`
unfoldable pub create_trx_with_id : ℤ → System → MvccTrxKit → ℕ × System × MvccTrxKit
create_trx_with_id trx_id s k =
    let (h, k') = add_trx (recovering_trx trx_id) k in
    (h, (if ltb_ℤ s.current_trx_id trx_id then record s { current_trx_id = trx_id } else s), k')

-- the first of the handles that equals `h` goes
pub erase_first : ℕ → List ℕ → List ℕ
erase_first h [] = []
erase_first h (q ∷ qs) = let rest = q ∷ erase_first h qs in if q == h then qs else rest

-- `destroy_trx`; `delete` of the null pointer does nothing
unfoldable pub destroy_trx : Option ℕ → MvccTrxKit → MvccTrxKit
unfolding erase_first
destroy_trx none k = k
destroy_trx (some h) k = record (put_trx h none k) { trxes = erase_first h k.trxes }

abbrev has_id : ℤ → Option MvccTrx → Bool
has_id trx_id none = false
has_id trx_id (some t) = eq_ℤ t.trx_id trx_id

find_in : ℤ → (ℕ → Option MvccTrx) → List ℕ → Option ℕ
find_in trx_id trx_at [] = none
find_in trx_id trx_at (h ∷ hs) =
    let rest = find_in trx_id trx_at hs in if has_id trx_id (trx_at h) then some h else rest

unfoldable pub find_trx : ℤ → MvccTrxKit → Option ℕ
unfolding find_in
find_trx trx_id k = find_in trx_id k.trx_at k.trxes

-- `trx_map_.find(id)`: a missing key is `none`, a null pointer `some none`
unfoldable pub find_in_map : ℤ → List (ℤ × Option ℕ) → Option (Option ℕ)
find_in_map id [] = none
find_in_map id (e ∷ es) = let rest = find_in_map id es in if eq_ℤ e.0 id then some e.1 else rest

unfoldable pub erase_from_map : ℤ → List (ℤ × Option ℕ) → List (ℤ × Option ℕ)
erase_from_map id [] = []
erase_from_map id (e ∷ es) =
    let rest = erase_from_map id es in if eq_ℤ e.0 id then rest else e ∷ rest

-- the field `trx_id` of the entry's header
abbrev pub header_trx_id : TrxLog → ℤ
header_trx_id (insert_log id rid) = id
header_trx_id (delete_log id rid) = id
header_trx_id (commit_log id commit_xid) = id
header_trx_id (rollback_log id) = id

abbrev is_end : TrxLog → Bool
is_end (insert_log id rid) = false
is_end (delete_log id rid) = false
is_end (commit_log id commit_xid) = true
is_end (rollback_log id) = true

-- `trx_map_[id]`, which adds a null pointer if the key is missing
abbrev mapped : Option (Option ℕ) → Option ℕ
mapped none = none
mapped (some p) = p

-- the transaction of the entry: from the map, or made for the entry
abbrev trx_of : ℤ → Option (Option ℕ) → System → MvccTrxKit → Option ℕ × System × MvccTrxKit
trx_of id none s k = let (h, s', k') = create_trx_with_id id s k in (some h, s', k')
trx_of id (some p) s k = (p, s, k)

abbrev trx_behind : Option ℕ → MvccTrxKit → Option MvccTrx
trx_behind none k = none
trx_behind (some h) k = k.trx_at h

-- `redo` through the pointer; without its table an entry is not taken down
abbrev redo_at : Rc → TrxLog → Option ℕ → Option MvccTrx → MvccTrxKit → Option MvccTrxKit
redo_at found entry (some h) (some t) k =
    some (if ob_succ found then put_trx h (some (redo entry t)) k else k)
redo_at found entry _ _ k = none

-- the end of `replay`: a transaction that has ended leaves the kit and the map
abbrev pub drop_ended :
    TrxLog → List (ℤ × Option ℕ) → Rc → System → Option MvccTrxKit → Option (Rc × Replayer)
drop_ended entry m found s none = none
drop_ended entry m found s (some k) =
    let id = header_trx_id entry in
    some (
      found,
      (if is_end entry
          then record {
            system = s;
            kit = destroy_trx (mapped (find_in_map id m)) k;
            trx_map = erase_from_map id m;
          }
          else record { system = s; kit = k; trx_map = m }),
    )

-- `MvccTrxLogReplayer::replay`; an entry that is shorter than a header is `none`
unfoldable pub replay : (TrxLog → Rc) → Option TrxLog → Replayer → Option (Rc × Replayer)
unfolding create_trx_with_id destroy_trx find_in_map erase_from_map
replay find_table none r = some (log_entry_invalid, r)
replay find_table (some entry) r =
    let (p, s, k) =
      trx_of (header_trx_id entry) (find_in_map (header_trx_id entry) r.trx_map) r.system r.kit in
    drop_ended entry r.trx_map (find_table entry) s
      (redo_at (find_table entry) entry p (trx_behind p k) k)

abbrev rolled_back : ℕ → MvccTrxKit → Option (Rc × MvccTrx × System) → Option (System × MvccTrxKit)
rolled_back h k none = none
rolled_back h k (some (rc, t, s)) = some (s, put_trx h none k)

abbrev roll_back_at : Option ℕ → Option MvccTrx → System → MvccTrxKit → Option (System × MvccTrxKit)
roll_back_at (some h) (some t) s k = rolled_back h k (rollback t s)
roll_back_at _ _ s k = none

abbrev then_next :
    Option (System × MvccTrxKit) → (System → MvccTrxKit → Option Replayer) → Option Replayer
then_next none next = none
then_next (some (s, k)) next = next s k

-- `on_done`: every transaction of the map is rolled back and deleted
unfoldable pub roll_back_all : List (ℤ × Option ℕ) → System → MvccTrxKit → Option Replayer
roll_back_all [] s k = some (record { system = s; kit = k; trx_map = [] })
roll_back_all ((id, p) ∷ es) s k =
    then_next (roll_back_at p (trx_behind p k) s k) (λ s' k'. roll_back_all es s' k')

unfoldable pub on_done : Replayer → Option Replayer
unfolding roll_back_all
on_done r = roll_back_all r.trx_map r.system r.kit

abbrev after : Option (Rc × Replayer) → (Replayer → Option (Rc × Replayer)) → Option (Rc × Replayer)
after none k = none
after (some (rc, r)) k = if ob_succ rc then k r else some (rc, r)

abbrev ended : Option Replayer → Option (Rc × Replayer)
ended none = none
ended (some r) = some (success, r)

-- the recovery as far as transactions go: `replay` for each entry until one fails, then `on_done`
unfoldable pub recover : (TrxLog → Rc) → List (Option TrxLog) → Replayer → Option (Rc × Replayer)
unfolding replay on_done
recover find_table [] r = ended (on_done r)
recover find_table (e ∷ es) r = after (replay find_table e r) (λ r'. recover find_table es r')
