-- ===== src/TrxReplay/Recovery.antt =====
-- What the replay of the transaction log does after a restart, when `trx_map_` starts out empty.
use my_mini_ob.Base.{
  ℕ, suc, ◌+◌, ◌≡◌, refl, sym, ap, true, Bool-cases, inl, inr, Option, none, some, List, [], ◌∷◌,
  ◌==◌, arith, length, length-append, if◌then◌else◌,
}
use mathlib.Core.Path.{subst}
use my_mini_ob.Base.Int.{ℤ, ltb_ℤ}
use my_mini_ob.Rc.{Rc, success, log_entry_invalid, ob_succ}
use my_mini_ob.MvccTrx.{
  System, TrxLog, insert_log, delete_log, commit_log, rollback_log, recovering_trx, redo,
}
use my_mini_ob.TrxReplay.{
  MvccTrxKit, Replayer, drop_ended, put_trx, add_trx, create_trx_with_id, destroy_trx, find_in_map,
  erase_from_map, header_trx_id, replay, roll_back_all, on_done, recover,
}

-- the code of the first entry that is refused
abbrev pub answer : (TrxLog → Rc) → List (Option TrxLog) → Rc
answer find_table [] = success
answer find_table (none ∷ es) = log_entry_invalid
answer find_table (some e ∷ es) =
    if ob_succ (find_table e) then answer find_table es else find_table e

abbrev pub raise : ℤ → TrxLog → ℤ
raise id e = if ltb_ℤ id (header_trx_id e) then header_trx_id e else id

-- the largest id of the entries up to the first that is refused
abbrev pub raised : (TrxLog → Rc) → List (Option TrxLog) → ℤ → ℤ
raised find_table [] id = id
raised find_table (none ∷ es) id = id
raised find_table (some e ∷ es) id =
    if ob_succ (find_table e) then raised find_table es (raise id e) else raise id e

-- how many entries are taken
abbrev pub taken : (TrxLog → Rc) → List (Option TrxLog) → ℕ
taken find_table [] = 0
taken find_table (none ∷ es) = 0
taken find_table (some e ∷ es) = if ob_succ (find_table e) then suc (taken find_table es) else 1

abbrev Replayed : Rc → ℤ → ℕ → Replayer → Option (Rc × Replayer) → Type 0
Replayed rc id n r result =
    (kit : MvccTrxKit) × ((result
        ≡ some (
          rc,
          record { system = record r.system { current_trx_id = id }; kit = kit; trx_map = [] },
        ))
      × (length kit.trxes ≡ length r.kit.trxes + n))

-- the kit after an entry for a new transaction
abbrev entered : (TrxLog → Rc) → TrxLog → MvccTrxKit → MvccTrxKit
entered find_table e k =
    let k' = (add_trx (recovering_trx (header_trx_id e)) k).1 in
    if ob_succ (find_table e)
    then put_trx k.fresh (some (redo e (recovering_trx (header_trx_id e)))) k'
    else k'

length-entered :
    (find_table : TrxLog → Rc) (e : TrxLog) (k : MvccTrxKit)
    → length (entered find_table e k).trxes ≡ length k.trxes + 1
length-entered find_table e k = elim (Bool-cases (ob_succ (find_table e))) [
  | inl y ↦ rw y (length-append k.trxes (k.fresh ∷ []))
  | inr n ↦ rw n (length-append k.trxes (k.fresh ∷ []))
]

==-refl : (n : ℕ) → (n == n) ≡ true
==-refl n = ground arith

drop_ended-empty :
    (e : TrxLog) (found : Rc) (s : System) (k : MvccTrxKit)
    → drop_ended e [] found s (some k) ≡ some (found, record { system = s; kit = k; trx_map = [] })
unfolding find_in_map erase_from_map destroy_trx
drop_ended-empty (insert_log id rid) found s k = refl
drop_ended-empty (delete_log id rid) found s k = refl
drop_ended-empty (commit_log id c) found s k = refl
drop_ended-empty (rollback_log id) found s k = refl

replay-new :
    (find_table : TrxLog → Rc) (e : TrxLog) (s : System) (k : MvccTrxKit)
    → replay find_table (some e) (record { system = s; kit = k; trx_map = [] })
      ≡ some (
        find_table e,
        record {
          system = record s { current_trx_id = raise s.current_trx_id e };
          kit = entered find_table e k;
          trx_map = [];
        },
      )
unfolding replay create_trx_with_id find_in_map
replay-new find_table e s k = elim (Bool-cases (ltb_ℤ s.current_trx_id (header_trx_id e))) [
  | inl y ↦ rw (y, ==-refl k.fresh) (drop_ended-empty e (find_table e) _ _)
  | inr n ↦ rw (n, ==-refl k.fresh) (drop_ended-empty e (find_table e) _ _)
]

module _ (find_table : TrxLog → Rc) (e : TrxLog) (es : List (Option TrxLog)) (s : System)
    (k k' : MvccTrxKit) where
  abbrev next_system : System
  next_system = record s { current_trx_id = raise s.current_trx_id e }

  -- one entry that is taken, whatever kit it leaves
  recover-next :
      replay find_table (some e) (record { system = s; kit = k; trx_map = [] })
        ≡ some (find_table e, record { system = next_system; kit = k'; trx_map = [] })
      → length k'.trxes ≡ length k.trxes + 1
      → Replayed
          (answer find_table es)
          (raised find_table es (raise s.current_trx_id e))
          (taken find_table es)
          (record { system = next_system; kit = k'; trx_map = [] })
          (recover find_table es (record { system = next_system; kit = k'; trx_map = [] }))
      → Replayed
          (answer find_table (some e ∷ es))
          (raised find_table (some e ∷ es) s.current_trx_id)
          (taken find_table (some e ∷ es))
          (record { system = s; kit = k; trx_map = [] })
          (recover find_table (some e ∷ es) (record { system = s; kit = k; trx_map = [] }))
  unfolding recover
  recover-next step more (k'', (rest, grown)) = elim (Bool-cases (ob_succ (find_table e))) [
    | inl y ↦ rw (step, y) (k'', (rest, omega (arith, grown, more)))
    | inr n ↦ rw (step, n) (k', (refl, more))
  ]

recover-empty :
    (find_table : TrxLog → Rc) (es : List (Option TrxLog)) (s : System) (k : MvccTrxKit)
    → Replayed
        (answer find_table es)
        (raised find_table es s.current_trx_id)
        (taken find_table es)
        (record { system = s; kit = k; trx_map = [] })
        (recover find_table es (record { system = s; kit = k; trx_map = [] }))
unfolding recover on_done roll_back_all
recover-empty find_table [] s k = (k, (refl, omega arith))
recover-empty find_table (none ∷ es) s k = (k, ((unfold replay in refl), omega arith))
recover-empty find_table (some e ∷ es) s k =
    recover-next find_table e es s k (entered find_table e k) (replay-new find_table e s k)
      (length-entered find_table e k)
      (recover-empty find_table es (record s { current_trx_id = raise s.current_trx_id e })
        (entered find_table e k))

-- Whatever entries the transaction log holds, a recovery that starts with an empty `trx_map_` ends
-- with the map empty and changes no row: no transaction is ever rolled back. The code is that of the
-- first entry that is refused; the next transaction number lies above the ids in the headers of the
-- entries taken, and the numbers of the commits are not looked at; and the kit is left with one
-- transaction more for each entry taken, those of ended transactions included.
pub recover_lem :
    (find_table : TrxLog → Rc) (es : List (Option TrxLog)) (r : Replayer)
    → r.trx_map ≡ []
    → (kit : MvccTrxKit) × ((recover find_table es r
          ≡ some (
            answer find_table es,
            record {
              system = record r.system {
                current_trx_id = raised find_table es r.system.current_trx_id;
              };
              kit = kit;
              trx_map = [];
            },
          ))
        × (length kit.trxes ≡ length r.kit.trxes + taken find_table es))
recover_lem find_table es r h =
    let empty : r ≡ record { system = r.system; kit = r.kit; trx_map = [] } =
      ap (λ (m : List (ℤ × Option ℕ)). record r { trx_map = m }) h in
    subst
      (λ (q : Replayer).
        Replayed (answer find_table es) (raised find_table es r.system.current_trx_id)
          (taken find_table es) r (recover find_table es q))
      (sym empty) (recover-empty find_table es r.system r.kit)
