-- ===== src/TrxReplay/Examples.antt =====
-- Recovery of transactions at a concrete log.
use my_mini_ob.Base.{ℕ, ◌≡◌, refl, Option, some, none, List, [], ◌∷◌, length}
use my_mini_ob.Base.Int.{pos, negsuc}
use my_mini_ob.Rc.{success}
use my_mini_ob.MvccTrx.{RowId, Row, update_row, max_trx_id, TrxLog, insert_log, commit_log}
use my_mini_ob.TrxReplay.{MvccTrxKit, Replayer, create_trx, destroy_trx, find_trx, recover}
use my_mini_ob.TrxReplay.Recovery.{recover_lem}

abbrev place : RowId
place = record { table = 1; page_num = 1; slot_num = 0 }

-- a row that transaction 3 inserted; 3 has not ended
abbrev left : Row
left = record { begin_xid = negsuc 2; end_xid = max_trx_id; body = [] }

abbrev restarted : Replayer
restarted = record {
  system = record {
    current_trx_id = pos 0;
    rows = update_row place (some left) (λ q. none);
    log = [];
  };
  kit = record { fresh = 0; trx_at = λ h. none; trxes = [] };
  trx_map = [];
}

-- transaction 2 commits under number 4, transaction 3 is cut off
abbrev entries : List (Option TrxLog)
entries =
    some (insert_log (pos 2) (record place { slot_num = 1 }))
    ∷ some (insert_log (pos 3) place)
    ∷ some (commit_log (pos 2) (pos 4))
    ∷ []

-- the row stays marked, the number 4 is given out again, and three transactions stay in the kit
recover_lem_example :
    (kit : MvccTrxKit) × ((recover (λ e. success) entries restarted
        ≡ some (
          success,
          record {
            system = record restarted.system { current_trx_id = pos 3 };
            kit = kit;
            trx_map = [];
          },
        ))
      × (length kit.trxes ≡ 3))
recover_lem_example = recover_lem (λ e. success) entries restarted refl

abbrev created : ℕ × MvccTrxKit
created = create_trx restarted.kit

find_created : find_trx (negsuc 0) created.1 ≡ some 0
unfolding find_trx create_trx
find_created = refl

destroy_created : (destroy_trx (some 0) created.1).trxes ≡ []
unfolding destroy_trx create_trx
destroy_created = refl
