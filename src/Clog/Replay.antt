-- ===== src/Clog/Replay.antt =====
-- Reading a log file back.
use my_mini_ob.Base.{
  ℕ, zero, suc, ◌≤◌, ◌<◌, ◌≡◌, refl, List, [], ◌∷◌, ◌++◌, length, take, drop, arith, append_assoc,
  true, false, length-append, some, ltb, leb, if◌then◌else◌, Bool-cases, inl, inr,
}
use my_mini_ob.Rc.{Rc, success, ob_succ}
use my_mini_ob.Clog.{
  LogEntry, HeaderLayout, header_size, max_payload_size, init, skip_from, iterate_from, iterate,
}
use my_mini_ob.Clog.Layout.{IsLayout, AllSized, entry_bytes, file_bytes, take_exact, drop_exact}

-- the entries from the first one on whose number is at least `start_lsn`
unfoldable pub from_lsn : ℕ → List LogEntry → List LogEntry
from_lsn start_lsn [] = []
from_lsn start_lsn (e ∷ es) =
    let rest = from_lsn start_lsn es in if leb start_lsn e.header.lsn then e ∷ es else rest

from_lsn-keeps :
    (start_lsn : ℕ) (e : LogEntry) (es : List LogEntry)
    → leb start_lsn e.header.lsn ≡ true
    → from_lsn start_lsn (e ∷ es) ≡ e ∷ es
unfolding from_lsn
from_lsn-keeps start_lsn e es y = rw y refl

from_lsn-skips :
    (start_lsn : ℕ) (e : LogEntry) (es : List LogEntry)
    → leb start_lsn e.header.lsn ≡ false
    → from_lsn start_lsn (e ∷ es) ≡ from_lsn start_lsn es
unfolding from_lsn
from_lsn-skips start_lsn e es n = rw n refl

from_lsn-AllSized :
    (start_lsn : ℕ) (es : List LogEntry) → AllSized es → AllSized (from_lsn start_lsn es)
unfolding from_lsn
from_lsn-AllSized start_lsn [] v = v
from_lsn-AllSized start_lsn (e ∷ es) (v, vs) = elim (Bool-cases (leb start_lsn e.header.lsn)) [
  | inl y ↦ rw y (v, vs)
  | inr n ↦ rw n (from_lsn-AllSized start_lsn es vs)
]

length-from_lsn :
    (layout : HeaderLayout) (start_lsn : ℕ) (es : List LogEntry)
    → length (file_bytes layout (from_lsn start_lsn es)) ≤ length (file_bytes layout es)
unfolding from_lsn
length-from_lsn layout start_lsn [] = omega arith
length-from_lsn layout start_lsn (e ∷ es) = elim (Bool-cases (leb start_lsn e.header.lsn)) [
  | inl y ↦ rw y (omega arith)
  | inr n ↦ rw n (
      omega (
        arith,
        length-from_lsn layout start_lsn es,
        length-append (entry_bytes layout e) (file_bytes layout es),
      ))
]

-- a callback is called on one entry after the other, until one is refused
unfoldable pub fold_entries : {S : Type 0} → (LogEntry → S → Rc × S) → List LogEntry → S → Rc × S
fold_entries callback [] s = (success, s)
fold_entries callback (e ∷ es) s =
    let (rc, s') = callback e s in
    let rest = fold_entries callback es s' in if ob_succ rc then rest else (rc, s')

module _ (layout : HeaderLayout) (laws : IsLayout layout) where
  header_read :
      (e : LogEntry) (rest : List ℕ)
      → take header_size (entry_bytes layout e ++ rest) ≡ layout.encode e.header
  header_read e rest = rw (append_assoc (layout.encode e.header) e.payload rest) (
      take_exact (layout.encode e.header) (e.payload ++ rest) header_size
        (laws.encode_size e.header))

  header_passed :
      (e : LogEntry) (rest : List ℕ)
      → drop header_size (entry_bytes layout e ++ rest) ≡ e.payload ++ rest
  header_passed e rest = rw (append_assoc (layout.encode e.header) e.payload rest) (
      drop_exact (layout.encode e.header) (e.payload ++ rest) header_size
        (laws.encode_size e.header))

  entry_long : (e : LogEntry) (rest : List ℕ) → header_size ≤ length (entry_bytes layout e ++ rest)
  entry_long e rest = omega (
    arith,
    length-append (entry_bytes layout e) rest,
    length-append (layout.encode e.header) e.payload,
    laws.encode_size e.header,
  )

  not_short :
      (e : LogEntry) (rest : List ℕ)
      → ltb (length (entry_bytes layout e ++ rest)) header_size ≡ false
  not_short e rest = ground (arith, entry_long e rest)

  entry_decoded :
      (e : LogEntry) (rest : List ℕ)
      → layout.decode (take header_size (entry_bytes layout e ++ rest)) ≡ e.header
  entry_decoded e rest = rw (header_read e rest) (laws.decode_encode e.header)

  rest_shorter :
      (e : LogEntry) (rest : List ℕ) (fuel : ℕ)
      → length (entry_bytes layout e ++ rest) < suc fuel
      → length rest < fuel
  rest_shorter e rest fuel h = omega (
    arith,
    h,
    length-append (entry_bytes layout e) rest,
    length-append (layout.encode e.header) e.payload,
    laws.encode_size e.header,
  )

  skip_from_lem :
      (start_lsn fuel : ℕ) (es : List LogEntry)
      → AllSized es
      → length (file_bytes layout es) < fuel
      → skip_from layout start_lsn fuel (file_bytes layout es)
        ≡ some (success, file_bytes layout (from_lsn start_lsn es))
  unfolding skip_from
  skip_from_lem start_lsn zero es v h = ground arith
  skip_from_lem start_lsn (suc fuel) [] v h = unfold from_lsn in refl
  skip_from_lem start_lsn (suc fuel) (e ∷ es) (v, vs) h =
      let rest = file_bytes layout es in
      let small : ltb max_payload_size e.header.size ≡ false = ground arith in
      let ih = skip_from_lem start_lsn fuel es vs (rest_shorter e rest fuel h) in
      rw
        (
          not_short e rest,
          entry_decoded e rest,
          header_passed e rest,
          drop_exact e.payload rest e.header.size v.size_eq,
        )
        (elim (Bool-cases (leb start_lsn e.header.lsn)) [
          | inl y ↦ rw (from_lsn-keeps start_lsn e es y, y) refl
          | inr n ↦ rw (from_lsn-skips start_lsn e es n, n, small) ih
        ])

  iterate_from_lem :
      {S : Type 0} (callback : LogEntry → S → Rc × S) (fuel : ℕ) (es : List LogEntry) (s : S)
      → AllSized es
      → length (file_bytes layout es) < fuel
      → iterate_from layout callback fuel (file_bytes layout es) s
        ≡ some (fold_entries callback es s)
  unfolding iterate_from fold_entries init
  iterate_from_lem callback zero es s v h = ground arith
  iterate_from_lem callback (suc fuel) [] s v h = refl
  iterate_from_lem callback (suc fuel) (e ∷ es) s (v, vs) h =
      let rest = file_bytes layout es in
      let small : ltb max_payload_size e.header.size ≡ false = ground arith in
      let ih = iterate_from_lem callback fuel es (callback e s).1 vs (rest_shorter e rest fuel h) in
      let there : ltb (length (e.payload ++ rest)) e.header.size ≡ false =
        ground (arith, length-append e.payload rest, v.size_eq) in
      rw
        (
          not_short e rest,
          entry_decoded e rest,
          header_passed e rest,
          drop_exact e.payload rest e.header.size v.size_eq,
          take_exact e.payload rest e.header.size v.size_eq,
          v.size_eq,
          small,
          there,
        )
        (elim (Bool-cases (ob_succ (callback e s).0)) [ inl y ↦ rw y ih | inr n ↦ rw n refl ])

  -- A file that holds sized log entries is read from number `start_lsn` on: the reader calls the
  -- callback on the entries from the first one with such a number on, in their order and as they were
  -- written, until the callback refuses one, and answers as the callback did last; the loop ends.
  pub iterate_lem :
      {S : Type 0} (callback : LogEntry → S → Rc × S) (start_lsn : ℕ) (es : List LogEntry) (s : S)
      → AllSized es
      → iterate layout callback start_lsn (file_bytes layout es) s
        ≡ some (fold_entries callback (from_lsn start_lsn es) s)
  unfolding iterate
  iterate_lem callback start_lsn es s v =
      rw (skip_from_lem start_lsn (suc (length (file_bytes layout es))) es v (omega arith)) (
        iterate_from_lem callback (suc (length (file_bytes layout es))) (from_lsn start_lsn es) s
          (from_lsn-AllSized start_lsn es v) (omega (arith, length-from_lsn layout start_lsn es)))
