-- ===== src/Clog/Examples.antt =====
-- The log at concrete inputs.
use my_mini_ob.Base.{
  ℕ, zero, suc, ◌≡◌, refl, List, [], ◌∷◌, ◌++◌, some, true, arith, replicate, get_or,
}
use my_mini_ob.Base.Int.{pos, ◌-ℤ◌}
use my_mini_ob.Rc.{Rc, success}
use my_mini_ob.Clog.{
  LogEntry, HeaderLayout, all, part, LogFileWriter, LogEntryBuffer, append, flush, iterate,
}
use my_mini_ob.Clog.Layout.{IsLayout, AllSized, file_bytes}
use my_mini_ob.Clog.Flush.{Returns, flush-Flushed}
use my_mini_ob.Clog.Replay.{from_lsn, fold_entries, iterate_lem}
use my_mini_ob.Clog.Durability.{emptied, grown, iterate-flush, flush-append_bytes}

-- a layout that keeps a number in one place and fills up to 16
abbrev plain : HeaderLayout
plain = record {
  encode = λ h. h.lsn ∷ h.size ∷ h.module_id ∷ replicate 13 0;
  decode = λ bytes. record {
    lsn = get_or bytes 0 0;
    size = get_or bytes 1 0;
    module_id = get_or bytes 2 0;
  };
}

plain-IsLayout : IsLayout plain
plain-IsLayout = record { encode_size = λ h. refl; decode_encode = λ h. refl }

abbrev fifth : LogEntry
fifth = record { header = record { lsn = 5; size = 2; module_id = 1 }; payload = 7 ∷ 8 ∷ [] }

abbrev sixth : LogEntry
sixth = record { header = record { lsn = 6; size = 1; module_id = 2 }; payload = 9 ∷ [] }

abbrev two : LogEntryBuffer
two = record {
  entries = fifth ∷ sixth ∷ [];
  bytes = pos 32;
  current_lsn = 6;
  flushed_lsn = 4;
  max_bytes = 100;
}

abbrev no_entries : LogEntryBuffer
no_entries = record {
  entries = [];
  bytes = pos 0;
  current_lsn = 4;
  flushed_lsn = 4;
  max_bytes = 100;
}

abbrev writer : LogFileWriter
writer = record { opened = true; last_lsn = 4; end_lsn = 999; file = [] }

abbrev collect : LogEntry → List ℕ → Rc × List ℕ
collect e seen = (success, seen ++ (e.header.lsn ∷ []))

sized : AllSized (fifth ∷ sixth ∷ [])
sized = (
  record { size_eq = refl; size_le = omega arith },
  (record { size_eq = refl; size_le = omega arith }, tt),
)

-- the second header is cut off
flush-Flushed_example :
    Returns plain
      (fifth ∷ sixth ∷ [])
      two
      writer
      0
      (flush plain (λ n. elim n [ zero ↦ (all, all) | suc m ↦ (part 3, all) ]) two writer)
flush-Flushed_example =
    flush-Flushed plain (λ n. elim n [ zero ↦ (all, all) | suc m ↦ (part 3, all) ]) two writer sized
      (refl, (refl, tt))

iterate_lem_example :
    iterate plain collect 6 (file_bytes plain (fifth ∷ sixth ∷ [])) []
    ≡ some (fold_entries collect (from_lsn 6 (fifth ∷ sixth ∷ [])) [])
iterate_lem_example = iterate_lem plain plain-IsLayout collect 6 (fifth ∷ sixth ∷ []) [] sized

iterate-flush_example :
    (flush plain (λ n. (all, all)) two writer
      ≡ some
          (success, 2, emptied two (fifth ∷ sixth ∷ []), grown plain writer (fifth ∷ sixth ∷ [])))
    × (iterate plain collect 6 (grown plain writer (fifth ∷ sixth ∷ [])).file []
        ≡ some (fold_entries collect (from_lsn 6 (fifth ∷ sixth ∷ [])) []))
iterate-flush_example =
    iterate-flush plain (λ n. (all, all)) two writer [] collect 6 [] plain-IsLayout (λ n. refl)
      sized (refl, (refl, tt)) refl (omega arith) refl tt

flush-append_bytes_example :
    (b' : LogEntryBuffer) × (b'' : LogEntryBuffer) × (w' : LogFileWriter) × (append 1
        (3 ∷ 4 ∷ [])
        no_entries
      ≡ some (success, 5, b'))
    × (flush plain (λ n. (all, all)) b' writer ≡ some (success, 1, b'', w'))
    × (b''.entries ≡ [])
    × (b''.bytes ≡ pos 0 -ℤ pos 2)
flush-append_bytes_example =
    flush-append_bytes plain (λ n. (all, all)) 1 (3 ∷ 4 ∷ []) no_entries writer (λ n. refl) refl
      refl (omega arith) (omega arith) refl (omega arith) (omega arith)
