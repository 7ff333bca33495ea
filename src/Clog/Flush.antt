-- ===== src/Clog/Flush.antt =====
-- Flushing the buffer of log entries to a file.
use my_mini_ob.Base.{
  ℕ, ◌+◌, ◌≡◌, ◌⊎◌, refl, sym, ap, ◌∙◌, List, [], ◌∷◌, ◌++◌, length, take, arith, append_assoc,
  Bool, true, false, not, Option, some, none, ltb, leb, if◌then◌else◌, inl, inr, append-nil,
}
use my_mini_ob.Base.Int.{pos, ◌-ℤ◌}
use my_mini_ob.Rc.{Rc, ob_succ, log_file_full, file_not_opened, invalid_argument}
use my_mini_ob.Clog.{
  LogEntry, HeaderLayout, Sent, all, part, write_parts, LogFileWriter, write, LogEntryBuffer,
  flush_from, flush, valid_entry, total_size,
}
use my_mini_ob.Clog.Layout.{IsSized, AllSized, entry_bytes, file_bytes, take_exact}

abbrev pub AllValid : List LogEntry → Type 0
AllValid [] = Unit
AllValid (e ∷ es) = (valid_entry e ≡ true) × AllValid es

abbrev pub last_lsn_of : ℕ → List LogEntry → ℕ
last_lsn_of n [] = n
last_lsn_of n (e ∷ es) = last_lsn_of e.header.lsn es

pub take_whole : (e : LogEntry) → IsSized e → take e.header.size e.payload ≡ e.payload
take_whole e v =
    ap (take e.header.size) (sym (append-nil e.payload))
    ∙ take_exact e.payload [] e.header.size v.size_eq

-- what both branches have
either_branch :
    {A : Type 0} (P : A → Type 0) (b : Bool) (x y : A) → P x → P y → P (if b then x else y)
either_branch P true x y p q = p
either_branch P false x y p q = q

-- a write takes the whole entry, or fails and leaves some of its bytes
abbrev Wrote : HeaderLayout → LogEntry → LogFileWriter → Rc × LogFileWriter → Type 0
Wrote layout e w r =
    ((ob_succ r.0 ≡ true) × (r.1.file ≡ w.file ++ entry_bytes layout e))
    ⊎ ((ob_succ r.0 ≡ false) × ((torn : List ℕ) × (r.1.file ≡ w.file ++ torn)))

write_parts-Wrote :
    (layout : HeaderLayout) (a b : Sent) (e : LogEntry) (w : LogFileWriter)
    → IsSized e
    → Wrote layout e w (write_parts layout a b e w)
write_parts-Wrote layout (part n) b e w v = inr (refl, (take n (layout.encode e.header), refl))
write_parts-Wrote layout all (part n) e w v = inr (
  refl,
  (
    layout.encode e.header ++ take n (take e.header.size e.payload),
    append_assoc w.file (layout.encode e.header) (take n (take e.header.size e.payload)),
  ),
)
write_parts-Wrote layout all all e w v =
    inl (refl, rw (take_whole e v) (append_assoc w.file (layout.encode e.header) e.payload))

write-Wrote :
    (layout : HeaderLayout) (a b : Sent) (e : LogEntry) (w : LogFileWriter)
    → IsSized e
    → Wrote layout e w (write layout a b e w)
unfolding write
write-Wrote layout a b e w v =
    let P = Wrote layout e w in
    let refused : (rc : Rc) → ob_succ rc ≡ false → P (rc, w) =
      λ rc f. inr (f, ([], sym (append-nil w.file))) in
    let written = write_parts layout a b e w in
    let fresh = if leb e.header.lsn w.last_lsn then (invalid_argument, w) else written in
    let writable = if not w.opened then (file_not_opened, w) else fresh in
    either_branch P (ltb w.end_lsn e.header.lsn) (log_file_full, w) writable
      (refused log_file_full refl)
      (either_branch P (not w.opened) (file_not_opened, w) fresh (refused file_not_opened refl)
        (either_branch P (leb e.header.lsn w.last_lsn) (invalid_argument, w) written
          (refused invalid_argument refl) (write_parts-Wrote layout a b e w v)))

-- What a flush leaves: the entries `done` are in the file and out of the buffer, counted, and the
-- others are in the buffer still; behind them, after a failure, are the bytes `torn`.
pub record Flushed (layout : HeaderLayout) (entries : List LogEntry) (b : LogEntryBuffer)
    (w : LogFileWriter) (count : ℕ) (rc : Rc) (count' : ℕ) (b' : LogEntryBuffer)
    (w' : LogFileWriter) : Type 0 where
  pub done : List LogEntry
  pub torn : List ℕ
  pub split : entries ≡ done ++ b'.entries
  pub counted : count' ≡ count + length done
  pub in_file : w'.file ≡ w.file ++ (file_bytes layout done ++ torn)
  pub flushed : b'.flushed_lsn ≡ last_lsn_of b.flushed_lsn done
  pub current : b'.current_lsn ≡ b.current_lsn
  pub whole : ((b'.entries ≡ []) × (torn ≡ [])) ⊎ (ob_succ rc ≡ false)

abbrev pub Returns :
    HeaderLayout
    → List LogEntry
    → LogEntryBuffer
    → LogFileWriter
    → ℕ
    → Option (Rc × ℕ × LogEntryBuffer × LogFileWriter)
    → Type 0
Returns layout entries b w count none = ⊥
Returns layout entries b w count (some (rc, count', b', w')) =
    Flushed layout entries b w count rc count' b' w'

-- one round of the loop
pub flush_from-step :
    (layout : HeaderLayout) (answers : ℕ → Sent × Sent) (count : ℕ) (e : LogEntry)
    (es : List LogEntry) (b : LogEntryBuffer) (w : LogFileWriter)
    → valid_entry e ≡ true
    → let r = write layout (answers count).0 (answers count).1 e w in
      let b' = record b { bytes = b.bytes -ℤ pos (total_size e) } in
      flush_from layout answers count (e ∷ es) b w ≡ (
        if not (ob_succ r.0)
        then some (r.0, count, record b' { entries = e ∷ es }, r.1)
        else flush_from layout answers
            (count + 1)
            es
            (record b' { flushed_lsn = e.header.lsn })
            r.1)
unfolding flush_from
flush_from-step layout answers count e es b w v = rw v refl

put_first :
    (layout : HeaderLayout) (e : LogEntry) (es : List LogEntry) (b b1 : LogEntryBuffer)
    (w w1 : LogFileWriter) (count : ℕ) (o : Option (Rc × ℕ × LogEntryBuffer × LogFileWriter))
    → w1.file ≡ w.file ++ entry_bytes layout e
    → b1.flushed_lsn ≡ e.header.lsn
    → b1.current_lsn ≡ b.current_lsn
    → Returns layout es b1 w1 (count + 1) o
    → Returns layout (e ∷ es) b w count o
put_first layout e es b b1 w w1 count none f l c h = h
put_first layout e es b b1 w w1 count (some (rc, n, b', w')) f l c h = record {
  done = e ∷ h.done;
  torn = h.torn;
  split = ap (λ (x : List LogEntry). e ∷ x) h.split;
  counted = omega (arith, h.counted);
  in_file =
      h.in_file
      ∙ rw (f, append_assoc (entry_bytes layout e) (file_bytes layout h.done) h.torn)
          (append_assoc w.file (entry_bytes layout e) (file_bytes layout h.done ++ h.torn));
  flushed = h.flushed ∙ ap (λ (x : ℕ). last_lsn_of x h.done) l;
  current = h.current ∙ c;
  whole = h.whole;
}

flush_from_lem :
    (layout : HeaderLayout) (answers : ℕ → Sent × Sent) (count : ℕ) (es : List LogEntry)
    (b : LogEntryBuffer) (w : LogFileWriter)
    → AllSized es
    → AllValid es
    → Returns layout es b w count (flush_from layout answers count es b w)
flush_from_lem layout answers count [] b w s v =
    unfold flush_from in
    record {
      done = [];
      torn = [];
      split = refl;
      counted = omega arith;
      in_file = sym (append-nil w.file);
      flushed = refl;
      current = refl;
      whole = inl (refl, refl);
    }
flush_from_lem layout answers count (e ∷ es) b w (s, ss) (v, vs) =
    let r = write layout (answers count).0 (answers count).1 e w in
    let b' = record b { bytes = b.bytes -ℤ pos (total_size e) } in
    let b'' = record b' { flushed_lsn = e.header.lsn } in
    rw (flush_from-step layout answers count e es b w v)
      (elim (write-Wrote layout (answers count).0 (answers count).1 e w s) [
        | inl (y, f) ↦ rw y (
            put_first layout e es b b'' w r.1 count
              (flush_from layout answers (count + 1) es b'' r.1) f refl refl
              (flush_from_lem layout answers (count + 1) es b'' r.1 ss vs))
        | inr (n, (torn, f)) ↦ rw n (record {
          done = [];
          torn = torn;
          split = refl;
          counted = omega arith;
          in_file = f;
          flushed = refl;
          current = refl;
          whole = inr n;
        })
      ])

-- The buffer holds sized entries with positive numbers and sizes. However the calls of `writen`
-- answer, the flush returns: the entries in front that it counts are whole in the file, in order, and
-- out of the buffer, the others are in the buffer as they were, `flushed_lsn` is the number of the last
-- one written, `current_lsn` is kept; and if it succeeds the buffer is empty and the file has those
-- entries and nothing else behind what it had.
pub flush-Flushed :
    (layout : HeaderLayout) (answers : ℕ → Sent × Sent) (b : LogEntryBuffer) (w : LogFileWriter)
    → AllSized b.entries
    → AllValid b.entries
    → Returns layout b.entries b w 0 (flush layout answers b w)
unfolding flush
flush-Flushed layout answers b w s v = flush_from_lem layout answers 0 b.entries b w s v
