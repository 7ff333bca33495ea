-- ===== src/Clog.antt =====
-- src/observer/storage/clog/log_entry.{h,cpp}, log_buffer.{h,cpp} and the reader and the writer of
-- log_file.{h,cpp}: log entries wait in a buffer, are written to a file and read back from it. A file
-- is its bytes. How a header lies in memory is a parameter, `HeaderLayout`; it stands for the copy of
-- the struct's 16 bytes. Sizes of headers are natural numbers, so the tests `header.size < 0` are
-- left out. A failed ASSERT ends the process: `none`. Other threads are left out within a call.
mod Examples
pub mod Layout
pub mod Flush
pub mod Replay
pub mod Durability
use my_mini_ob.Base.{
  ℕ, zero, suc, ◌+◌, ◌-◌, ◌*◌, Bool, true, false, not, ◌||◌, ◌&&◌, Option, none, some, List, [],
  ◌∷◌, ◌++◌, ltb, leb, ◌==◌, if◌then◌else◌, length, take, drop,
}
use my_mini_ob.Base.Int.{ℤ, pos, leb_ℤ, ◌+ℤ◌, ◌-ℤ◌}
use my_mini_ob.Rc.{
  Rc, success, invalid_argument, log_file_full, file_not_opened, ioerr_write, ioerr_read, ob_succ,
}

pub record LogHeader : Type 0 where
  pub lsn : ℕ
  pub size : ℕ
  pub module_id : ℕ

pub record LogEntry : Type 0 where
  pub header : LogHeader
  pub payload : List ℕ

-- `LogHeader::SIZE` and `LogEntry::max_payload_size()`
abbrev pub header_size : ℕ
header_size = 16

abbrev pub max_payload_size : ℕ
max_payload_size = 4 * 1024 * 1024 - header_size

abbrev pub new_entry : LogEntry
new_entry = record { header = record { lsn = 0; size = 0; module_id = 0 }; payload = [] }

abbrev pub total_size : LogEntry → ℕ
total_size e = header_size + e.header.size

-- what a move leaves behind
abbrev pub moved_from : LogEntry → LogEntry
moved_from e = record { header = record (e.header) { lsn = 0; size = 0 }; payload = [] }

-- `LogEntry::init(lsn, module, data)`
unfoldable pub init : ℕ → ℕ → List ℕ → LogEntry → Rc × LogEntry
init lsn module_id bytes e =
    if ltb max_payload_size (length bytes) then (invalid_argument, e) else (
      success,
      record {
        header = record { lsn = lsn; size = length bytes; module_id = module_id };
        payload = bytes;
      },
    )

-- how a header lies in memory
pub record HeaderLayout : Type 0 where
  pub encode : LogHeader → List ℕ
  pub decode : List ℕ → LogHeader

pub record LogFileWriter : Type 0 where
  pub opened : Bool
  pub last_lsn : ℕ
  pub end_lsn : ℕ
  pub file : List ℕ

-- what `writen` does: all bytes, or the first ones and an error
pub data Sent : Type 0 where
  all : Sent
  part : ℕ → Sent

-- the two calls of `writen` in `LogFileWriter::write`, with their answers
abbrev pub write_parts : HeaderLayout → Sent → Sent → LogEntry → LogFileWriter → Rc × LogFileWriter
write_parts layout (part n) b e w =
    (ioerr_write, record w { file = w.file ++ take n (layout.encode e.header) })
write_parts layout all (part n) e w = (
  ioerr_write,
  record w { file = (w.file ++ layout.encode e.header) ++ take n (take e.header.size e.payload) },
)
write_parts layout all all e w = (
  success,
  record w {
    file = (w.file ++ layout.encode e.header) ++ take e.header.size e.payload;
    last_lsn = e.header.lsn;
  },
)

-- `LogFileWriter::write`
unfoldable pub write : HeaderLayout → Sent → Sent → LogEntry → LogFileWriter → Rc × LogFileWriter
write layout a b e w =
    if ltb w.end_lsn e.header.lsn
    then (log_file_full, w)
    else if not w.opened
    then (file_not_opened, w)
    else if leb e.header.lsn w.last_lsn
    then (invalid_argument, w)
    else write_parts layout a b e w

pub record LogEntryBuffer : Type 0 where
  pub entries : List LogEntry
  pub bytes : ℤ
  pub current_lsn : ℕ
  pub flushed_lsn : ℕ
  pub max_bytes : ℕ

-- `LogEntryBuffer::init`
unfoldable pub init_buffer : ℕ → ℕ → LogEntryBuffer → LogEntryBuffer
init_buffer lsn max_bytes b = record b {
  current_lsn = lsn;
  flushed_lsn = lsn;
  max_bytes = if ltb 0 max_bytes then max_bytes else b.max_bytes;
}

-- `LogEntryBuffer::append`: `none` while the buffer is full and the call waits. The last line adds
-- the size of the entry that the push has moved from.
unfoldable pub append : ℕ → List ℕ → LogEntryBuffer → Option (Rc × ℕ × LogEntryBuffer)
unfolding init
append module_id payload b =
    if leb_ℤ (pos b.max_bytes) b.bytes
    then none
    else let (rc, e) = init 0 module_id payload new_entry in
      if not (ob_succ rc)
      then some (rc, 0, b)
      else let lsn = b.current_lsn + 1 in
        let e' = record e { header = record (e.header) { lsn = lsn } } in
        some (
          success,
          lsn,
          record b {
            current_lsn = lsn;
            entries = b.entries ++ (e' ∷ []);
            bytes = b.bytes +ℤ pos (total_size (moved_from e'));
          },
        )

-- the ASSERTs on an entry at the front
abbrev pub valid_entry : LogEntry → Bool
valid_entry e = ltb 0 e.header.lsn && ltb 0 e.header.size

-- `LogEntryBuffer::flush`, from its count on: the `n`-th round's calls of `writen` answer `answers n`.
-- A refused entry goes back to the front, and its size is not added again.
unfoldable pub flush_from :
    HeaderLayout
    → (ℕ → Sent × Sent)
    → ℕ
    → List LogEntry
    → LogEntryBuffer
    → LogFileWriter
    → Option (Rc × ℕ × LogEntryBuffer × LogFileWriter)
unfolding write
flush_from layout answers count [] b w = some (success, count, record b { entries = [] }, w)
flush_from layout answers count (e ∷ es) b w =
    let b' = record b { bytes = b.bytes -ℤ pos (total_size e) } in
    let (rc, w') = write layout (answers count).0 (answers count).1 e w in
    let rest =
      flush_from layout answers (count + 1) es (record b' { flushed_lsn = e.header.lsn }) w' in
    if not (valid_entry e)
    then none
    else if not (ob_succ rc)
    then some (rc, count, record b' { entries = e ∷ es }, w')
    else rest

unfoldable pub flush :
    HeaderLayout
    → (ℕ → Sent × Sent)
    → LogEntryBuffer
    → LogFileWriter
    → Option (Rc × ℕ × LogEntryBuffer × LogFileWriter)
unfolding flush_from
flush layout answers b w = flush_from layout answers 0 b.entries b w

-- `LogFileReader::skip_to` on what is left of the file, on fuel: the code, and the file from where the
-- reader stands. `readn` fails only at the end of the file.
unfoldable pub skip_from : HeaderLayout → ℕ → ℕ → List ℕ → Option (Rc × List ℕ)
skip_from layout start_lsn zero file = none
skip_from layout start_lsn (suc fuel) file =
    let header = layout.decode (take header_size file) in
    let rest = skip_from layout start_lsn fuel (drop header.size (drop header_size file)) in
    if ltb (length file) header_size
    then some (success, [])
    else if leb start_lsn header.lsn
    then some (success, file)
    else if ltb max_payload_size header.size
    then some (ioerr_read, drop header_size file)
    else rest

-- the loop of `LogFileReader::iterate`, on fuel: the code, and what the callback has made of its state
unfoldable pub iterate_from :
    {S : Type 0} → HeaderLayout → (LogEntry → S → Rc × S) → ℕ → List ℕ → S → Option (Rc × S)
unfolding init
iterate_from layout callback zero file s = none
iterate_from layout callback (suc fuel) file s =
    let header = layout.decode (take header_size file) in
    let body = drop header_size file in
    let entry = (init header.lsn header.module_id (take header.size body) new_entry).1 in
    let (rc, s') = callback entry s in
    let rest = iterate_from layout callback fuel (drop header.size body) s' in
    if ltb (length file) header_size
    then some (success, s)
    else if ltb max_payload_size header.size || ltb (length body) header.size
    then some (ioerr_read, s)
    else if not (ob_succ rc)
    then some (rc, s')
    else rest

-- a state is read on where the reader stands
abbrev pub read_on :
    {S : Type 0} → Option (Rc × List ℕ) → (List ℕ → S → Option (Rc × S)) → S → Option (Rc × S)
read_on none k s = none
read_on (some (rc, file)) k s = if ob_succ rc then k file s else some (rc, s)

-- `LogFileReader::iterate(callback, start_lsn)` on an open file. A round consumes a header at least,
-- so a file of n bytes takes at most n + 1 rounds.
unfoldable pub iterate :
    {S : Type 0} → HeaderLayout → (LogEntry → S → Rc × S) → ℕ → List ℕ → S → Option (Rc × S)
unfolding skip_from iterate_from
iterate layout callback start_lsn file s =
    let fuel = suc (length file) in
    read_on (skip_from layout start_lsn fuel file)
      (λ rest. λ s. iterate_from layout callback fuel rest s) s
