-- ===== src/RecordFile/FileScan.antt =====
-- The records that a scan of a file gives, page by page.
use mathlib.Core.Path.{subst}
use my_mini_ob.Base.{
  ℕ, zero, suc, ◌+◌, ◌-◌, ◌<◌, ◌≡◌, refl, sym, ap, ◌∙◌, Bool, true, Option-cases, inl, inr, Option,
  none, some, List, [], ◌∷◌, ◌++◌, arith, length,
}
use my_mini_ob.Base.Places.{places, length-places, remaining, remaining-IsFirst}
use my_mini_ob.Base.First.{IsFirst}
use my_mini_ob.Rc.{Rc, success, record_eof}
use my_mini_ob.Bitmap.{Bitmap, get_bit, next_setted_bit}
use my_mini_ob.Bitmap.Search.{next_setted_bit-IsFirst}
use my_mini_ob.RecordPage.{Page, Record, iterator_init}
use my_mini_ob.BufferPool.{DiskBufferPool, BufferPoolIterator}
use my_mini_ob.BufferPool.Header.{bit}
use my_mini_ob.RecordFile.{
  RecordFileScanner, open_scan, fetch_next_record_in_page, fetch_pages, next_record, read_all,
  or_next_page, past_page, current_page,
}
use my_mini_ob.RecordFile.PageScan.{
  passed, slots_left, slots_left-start, Fetches, fetch_next_record_in_page-Fetches, page_records,
}

-- the pages that the iterator has not given yet
abbrev pages_left : BufferPoolIterator → List ℕ
pages_left it = places (get_bit it.bitmap) (it.bitmap.size - it.next_page_num) it.next_page_num

module _ (filter : Option (Record → Bool)) (load : ℕ → Rc × Page) where
  -- the records of these pages that pass, in order
  abbrev pub file_records : List ℕ → List Record
  file_records [] = []
  file_records (k ∷ ks) = page_records filter (load k).1 ++ file_records ks

  abbrev in_page : Option (Page × Option ℕ) → List Record
  in_page none = []
  in_page (some (p, slot)) = passed filter p (slots_left p slot)

  -- what a scan has still to give
  abbrev scan_left : RecordFileScanner → List Record
  scan_left s = in_page s.page_iterator ++ file_records (pages_left s.bp_iterator)

  abbrev Opens : RecordFileScanner → Type 0
  Opens s = (j : ℕ) → get_bit s.bp_iterator.bitmap j ≡ true → (load j).0 ≡ success

  -- the answer of a search that has these records before it
  abbrev Gives : List Record → Bitmap → Rc × Option Record × RecordFileScanner → Type 0
  Gives rs b (rc, none, s') = (rc ≡ record_eof) × (rs ≡ [])
  Gives rs b (rc, some r, s') =
      (rc ≡ success) × ((rs ≡ r ∷ scan_left s') × (s'.bp_iterator.bitmap ≡ b))

  Gives-eq :
      (rs rs' : List Record) (b : Bitmap) (r : Rc × Option Record × RecordFileScanner)
      → rs' ≡ rs
      → Gives rs b r
      → Gives rs' b r
  Gives-eq rs rs' b (rc, none, s') e (c, f) = (c, e ∙ f)
  Gives-eq rs rs' b (rc, some r, s') e (c, (f, k)) = (c, (e ∙ f, k))

  -- a page, and the search behind it
  or_next_page-Gives :
      (p : Page) (slot : Option ℕ) (it : BufferPoolIterator)
      (answer : Rc × Option Record × Option ℕ) (rest : Rc × Option Record × RecordFileScanner)
      → Fetches filter p slot answer
      → Gives (file_records (pages_left it)) it.bitmap rest
      → Gives
          (passed filter p (slots_left p slot) ++ file_records (pages_left it))
          it.bitmap
          (or_next_page p it answer rest)
  or_next_page-Gives p slot it (rc, none, slot') rest (c, f) g =
      Gives-eq (file_records (pages_left it)) _ it.bitmap rest
        (ap (λ (l : List Record). l ++ file_records (pages_left it)) f) g
  or_next_page-Gives p slot it (rc, some r, slot') rest (c, f) g =
      (c, (ap (λ (l : List Record). l ++ file_records (pages_left it)) f, refl))

  pages_left-next :
      (it : BufferPoolIterator) (r : Option ℕ)
      → next_setted_bit it.bitmap it.next_page_num ≡ r
      → pages_left it ≡ remaining (get_bit it.bitmap) it.bitmap.size r
  pages_left-next it r e =
      sym (
        remaining-IsFirst (get_bit it.bitmap) it.next_page_num it.bitmap.size
          (next_setted_bit it.bitmap it.next_page_num)
          (next_setted_bit-IsFirst it.bitmap it.next_page_num))
      ∙ ap (remaining (get_bit it.bitmap) it.bitmap.size) e

  -- the iterator and the scanner behind a page
  abbrev behind : ℕ → BufferPoolIterator → BufferPoolIterator
  behind k it = record it { next_page_num = suc k }

  abbrev behind_page : ℕ → RecordFileScanner → RecordFileScanner
  behind_page k s = past_page load (some k) (record s { bp_iterator = behind k s.bp_iterator })

  fetch_pages-end :
      (rounds : ℕ) (s : RecordFileScanner)
      → next_setted_bit s.bp_iterator.bitmap s.bp_iterator.next_page_num ≡ none
      → fetch_pages (suc rounds) filter load s ≡ (record_eof, none, s)
  unfolding fetch_pages
  fetch_pages-end rounds s e = rw e refl

  fetch_pages-page :
      (rounds k : ℕ) (s : RecordFileScanner)
      → next_setted_bit s.bp_iterator.bitmap s.bp_iterator.next_page_num ≡ some k
      → (load k).0 ≡ success
      → fetch_pages (suc rounds) filter load s
        ≡ or_next_page
            (load k).1
            (behind k s.bp_iterator)
            (fetch_next_record_in_page filter (load k).1 (iterator_init (load k).1 0))
            (fetch_pages rounds filter load (behind_page k s))
  unfolding fetch_pages
  fetch_pages-page rounds k s e opened = rw (e, opened) refl

  fetch_pages-Gives :
      (rounds : ℕ) (s : RecordFileScanner)
      → Opens s
      → length (pages_left s.bp_iterator) < rounds
      → Gives
          (file_records (pages_left s.bp_iterator))
          s.bp_iterator.bitmap
          (fetch_pages rounds filter load s)
  fetch_pages-Gives zero s opens l = absurd (omega arith)
  fetch_pages-Gives (suc rounds) s opens l =
      let it = s.bp_iterator in
      elim (Option-cases (next_setted_bit it.bitmap it.next_page_num)) [
        | inl e ↦
            rw (fetch_pages-end rounds s e) (refl, ap file_records (pages_left-next it none e))
        | inr (k, e) ↦
            let first =
              subst (IsFirst (get_bit it.bitmap) true it.next_page_num it.bitmap.size) e
                (next_setted_bit-IsFirst it.bitmap it.next_page_num) in
            let left = pages_left-next it (some k) e in
            let longer : length (k ∷ pages_left (behind k it)) < suc rounds =
              subst (λ (x : List ℕ). length x < suc rounds) left l in
            let fewer : length (pages_left (behind k it)) < rounds = omega arith in
            rw (fetch_pages-page rounds k s e (opens k first.2)) (
              Gives-eq
                (passed filter (load k).1 (slots_left (load k).1 (iterator_init (load k).1 0))
                  ++ file_records (pages_left (behind k it)))
                (file_records (pages_left it)) it.bitmap _
                (ap file_records left
                  ∙ ap
                      (λ (l : List ℕ).
                        passed filter (load k).1 l ++ file_records (pages_left (behind k it)))
                      (sym (slots_left-start (load k).1)))
                (or_next_page-Gives (load k).1 (iterator_init (load k).1 0) (behind k it)
                  (fetch_next_record_in_page filter (load k).1 (iterator_init (load k).1 0))
                  (fetch_pages rounds filter load (behind_page k s))
                  (fetch_next_record_in_page-Fetches filter (load k).1 (iterator_init (load k).1 0))
                  (fetch_pages-Gives rounds (behind_page k s) opens fewer)))
      ]

  current_page-Gives :
      (o : Option (Page × Option ℕ)) (it : BufferPoolIterator)
      (rest : Rc × Option Record × RecordFileScanner)
      → Gives (file_records (pages_left it)) it.bitmap rest
      → Gives (in_page o ++ file_records (pages_left it)) it.bitmap (current_page filter o it rest)
  current_page-Gives none it rest g = g
  current_page-Gives (some (p, slot)) it rest g =
      or_next_page-Gives p slot it (fetch_next_record_in_page filter p slot) rest
        (fetch_next_record_in_page-Fetches filter p slot) g

  next_record-Gives :
      (s : RecordFileScanner)
      → Opens s
      → Gives (scan_left s) s.bp_iterator.bitmap (next_record filter load s)
  unfolding next_record
  next_record-Gives s opens =
      let it = s.bp_iterator in
      let few =
        length-places (get_bit it.bitmap) (it.bitmap.size - it.next_page_num) it.next_page_num in
      current_page-Gives s.page_iterator it (fetch_pages (it.bitmap.size + 1) filter load s)
        (fetch_pages-Gives (it.bitmap.size + 1) s opens (omega arith))

  -- one call and those after it
  read_all-step :
      (rounds : ℕ) (s : RecordFileScanner) (answer : Rc × Option Record × RecordFileScanner)
      → next_record filter load s ≡ answer
      → Gives (scan_left s) s.bp_iterator.bitmap answer
      → (length (scan_left answer.2) < rounds
          → answer.2.bp_iterator.bitmap ≡ s.bp_iterator.bitmap
          → read_all rounds filter load answer.2 ≡ (scan_left answer.2, record_eof))
      → length (scan_left s) < suc rounds
      → read_all (suc rounds) filter load s ≡ (scan_left s, record_eof)
  unfolding read_all
  read_all-step rounds s (rc, none, s') e (c, f) rest l = rw (e, c, f) refl
  read_all-step rounds s (rc, some r, s') e (c, (f, k)) rest l =
      let longer : length (r ∷ scan_left s') < suc rounds =
        subst (λ (x : List Record). length x < suc rounds) f l in
      rw (e, rest (omega arith) k, f) refl

  read_all-Opens :
      (rounds : ℕ) (s : RecordFileScanner)
      → Opens s
      → length (scan_left s) < rounds
      → read_all rounds filter load s ≡ (scan_left s, record_eof)
  read_all-Opens zero s opens l = absurd (omega arith)
  read_all-Opens (suc rounds) s opens l =
      let answer = next_record filter load s in
      read_all-step rounds s answer refl (next_record-Gives s opens)
        (λ shorter same.
          read_all-Opens rounds answer.2
            (λ j h. opens j (ap (λ (b : Bitmap). get_bit b j) (sym same) ∙ h)) shorter)
        l

-- All allocated pages of a file can be opened, and nothing changes during the scan. Then calling `next`
-- until it fails gives the records of those pages that pass the filter, each once, in the order of the
-- pages from page 1 on and of the slots in a page, and the scan ends with RECORD_EOF; calls more than
-- those records are enough.
pub read_all_lem :
    (filter : Option (Record → Bool)) (load : ℕ → Rc × Page) (p : DiskBufferPool) (rounds : ℕ)
    → ((j : ℕ) → bit p.file_header j ≡ true → (load j).0 ≡ success)
    → length
        (file_records filter load (places (bit p.file_header) (p.file_header.page_count - 1) 1))
      < rounds
    → read_all rounds filter load (open_scan p) ≡ (
      file_records filter load (places (bit p.file_header) (p.file_header.page_count - 1) 1),
      record_eof,
    )
unfolding open_scan
read_all_lem filter load p rounds opens l = read_all-Opens filter load rounds (open_scan p) opens l
