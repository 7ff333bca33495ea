-- ===== src/Clog/Durability.antt =====
-- What is appended and flushed is what is read back, and how the buffer's count of bytes ends.
use my_mini_ob.Base.{
  ℕ, ◌+◌, ◌≤◌, ◌<◌, ◌≡◌, refl, sym, ◌∙◌, List, [], ◌∷◌, ◌++◌, length, arith, append_assoc, true,
  false, some, ltb, leb, append-nil,
}
use my_mini_ob.Base.Int.{ℤ, pos, negsuc, ◌+ℤ◌, ◌-ℤ◌, leb_ℤ}
use my_mini_ob.Rc.{Rc, success}
use my_mini_ob.Clog.{
  LogEntry, HeaderLayout, max_payload_size, init, Sent, all, LogFileWriter, write, LogEntryBuffer,
  append, flush_from, flush, valid_entry, total_size, iterate,
}
use my_mini_ob.Clog.Layout.{IsLayout, IsSized, AllSized, entry_bytes, file_bytes, file_bytes-append}
use my_mini_ob.Clog.Flush.{AllValid, last_lsn_of, take_whole, flush_from-step}
use my_mini_ob.Clog.Replay.{from_lsn, fold_entries, iterate_lem}

-- the numbers rise from `last` on, up to `end`
abbrev pub InOrder : ℕ → ℕ → List LogEntry → Type 0
InOrder last end [] = Unit
InOrder last end (e ∷ es) =
    (last < e.header.lsn) × (e.header.lsn ≤ end) × InOrder e.header.lsn end es

-- the count of bytes after entries have left the buffer
abbrev pub drained : ℤ → List LogEntry → ℤ
drained n [] = n
drained n (e ∷ es) = drained (n -ℤ pos (total_size e)) es

abbrev pub emptied : LogEntryBuffer → List LogEntry → LogEntryBuffer
emptied b es = record b {
  entries = [];
  bytes = drained b.bytes es;
  flushed_lsn = last_lsn_of b.flushed_lsn es;
}

abbrev pub grown : HeaderLayout → LogFileWriter → List LogEntry → LogFileWriter
grown layout w es = record w {
  last_lsn = last_lsn_of w.last_lsn es;
  file = w.file ++ file_bytes layout es;
}

write_whole :
    (layout : HeaderLayout) (e : LogEntry) (w : LogFileWriter)
    → IsSized e
    → w.opened ≡ true
    → w.last_lsn < e.header.lsn
    → e.header.lsn ≤ w.end_lsn
    → write layout all all e w
      ≡ (success, record w { last_lsn = e.header.lsn; file = w.file ++ entry_bytes layout e })
unfolding write
write_whole layout e w s o h h' =
    let full : ltb w.end_lsn e.header.lsn ≡ false = ground arith in
    let fresh : leb e.header.lsn w.last_lsn ≡ false = ground arith in
    rw (full, take_whole e s, append_assoc w.file (layout.encode e.header) e.payload, fresh)
      (ground arith)

flush_from-all :
    (layout : HeaderLayout) (answers : ℕ → Sent × Sent) (count : ℕ) (es : List LogEntry)
    (b : LogEntryBuffer) (w : LogFileWriter)
    → ((n : ℕ) → answers n ≡ (all, all))
    → AllSized es
    → AllValid es
    → w.opened ≡ true
    → InOrder w.last_lsn w.end_lsn es
    → flush_from layout answers count es b w
      ≡ some (success, count + length es, emptied b es, grown layout w es)
flush_from-all layout answers count [] b w a s v o i =
    unfold flush_from in ground (arith, append-nil w.file)
flush_from-all layout answers count (e ∷ es) b w a (s, ss) (v, vs) o (i, i', is) =
    let b' = record b { bytes = b.bytes -ℤ pos (total_size e); flushed_lsn = e.header.lsn } in
    let w' = record w { last_lsn = e.header.lsn; file = w.file ++ entry_bytes layout e } in
    let ih = flush_from-all layout answers (count + 1) es b' w' a ss vs o is in
    rw
      (
        flush_from-step layout answers count e es b w v,
        a count,
        write_whole layout e w s o i i',
        ih,
        append_assoc w.file (entry_bytes layout e) (file_bytes layout es),
      )
      (ground arith)

AllSized-append : (es es' : List LogEntry) → AllSized es → AllSized es' → AllSized (es ++ es')
AllSized-append [] es' v v' = v'
AllSized-append (e ∷ es) es' (v, vs) v' = (v, AllSized-append es es' vs v')

-- The writer is open and the buffer's entries are sized, valid, and numbered in order from the last one
-- the writer wrote up to the last one its file takes; all calls of `writen` take all bytes. Then the
-- flush succeeds: it counts every entry, the buffer is empty, and the file has all of them behind
-- what it had. If the file held the entries `old`, a reader that starts at any number calls its
-- callback on the old and the flushed entries from that number on, in their order.
pub iterate-flush :
    {S : Type 0} (layout : HeaderLayout) (answers : ℕ → Sent × Sent) (b : LogEntryBuffer)
    (w : LogFileWriter) (old : List LogEntry) (callback : LogEntry → S → Rc × S) (start_lsn : ℕ)
    (s : S)
    → IsLayout layout
    → ((n : ℕ) → answers n ≡ (all, all))
    → AllSized b.entries
    → AllValid b.entries
    → w.opened ≡ true
    → InOrder w.last_lsn w.end_lsn b.entries
    → w.file ≡ file_bytes layout old
    → AllSized old
    → (flush layout answers b w
        ≡ some (success, length b.entries, emptied b b.entries, grown layout w b.entries))
      × (iterate layout callback start_lsn (grown layout w b.entries).file s
          ≡ some (fold_entries callback (from_lsn start_lsn (old ++ b.entries)) s))
iterate-flush layout answers b w old callback start_lsn s laws a sized valid o i f so =
    let read : iterate layout callback start_lsn (grown layout w b.entries).file s
        ≡ some (fold_entries callback (from_lsn start_lsn (old ++ b.entries)) s) =
      rw (f, sym (file_bytes-append layout old b.entries))
        (iterate_lem layout laws callback start_lsn (old ++ b.entries) s
          (AllSized-append old b.entries so sized)) in
    (
      unfold flush in
          flush_from-all layout answers 0 b.entries b w a sized valid o i ∙ ground arith,
      read,
    )

bytes_drift : (n : ℤ) (size : ℕ) → (n +ℤ pos 16) -ℤ pos (16 + size) ≡ n -ℤ pos size
unfolding ◌+ℤ◌ ◌-ℤ◌
bytes_drift (pos n) size = ground arith
bytes_drift (negsuc n) size = ground arith

-- One entry is appended to an empty buffer that has room, and flushed with all bytes taken. Then the
-- buffer is empty again, but its count of bytes has fallen by the size of the payload: the append has
-- counted the header alone.
pub flush-append_bytes :
    (layout : HeaderLayout) (answers : ℕ → Sent × Sent) (module_id : ℕ) (payload : List ℕ)
    (b : LogEntryBuffer) (w : LogFileWriter)
    → ((n : ℕ) → answers n ≡ (all, all))
    → b.entries ≡ []
    → leb_ℤ (pos b.max_bytes) b.bytes ≡ false
    → 0 < length payload
    → length payload ≤ max_payload_size
    → w.opened ≡ true
    → w.last_lsn < b.current_lsn + 1
    → b.current_lsn + 1 ≤ w.end_lsn
    → (b' : LogEntryBuffer) × (b'' : LogEntryBuffer) × (w' : LogFileWriter) × (append module_id
          payload b
        ≡ some (success, b.current_lsn + 1, b'))
      × (flush layout answers b' w ≡ some (success, 1, b'', w'))
      × (b''.entries ≡ [])
      × (b''.bytes ≡ b.bytes -ℤ pos (length payload))
flush-append_bytes layout answers module_id payload b w a n room p q o i i' =
    let e : LogEntry = record {
      header = record { lsn = b.current_lsn + 1; size = length payload; module_id = module_id };
      payload = payload;
    } in
    let b' : LogEntryBuffer = record b {
      current_lsn = b.current_lsn + 1;
      entries = e ∷ [];
      bytes = b.bytes +ℤ pos 16;
    } in
    let fits : ltb max_payload_size (length payload) ≡ false = ground arith in
    let valid : valid_entry e ≡ true = ground arith in
    (
      b',
      emptied b' (e ∷ []),
      grown layout w (e ∷ []),
      unfold append init in rw (room, n, fits) refl,
      unfold flush in
          flush_from-all layout answers 0 (e ∷ []) b' w a
            (record { size_eq = refl; size_le = q }, tt) (valid, tt) o (i, i', tt),
      refl,
      bytes_drift b.bytes (length payload),
    )
