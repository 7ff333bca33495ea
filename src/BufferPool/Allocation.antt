-- ===== src/BufferPool/Allocation.antt =====
-- What an allocation does to the bits, the counts and the log.
use mathlib.Core.Path.{subst}
use my_mini_ob.Base.{
  ℕ, suc, ◌*◌, ◌≤◌, ◌<◌, ◌≡◌, refl, sym, ap, ◌∙◌, true, false, Bool-cases, inl, inr, Option, none,
  some, List, [], ◌∷◌, ◌++◌, append-nil, arith, ◌==◌, leb, leb→le, if◌then◌else◌, length,
}
use my_mini_ob.Base.Int.{pos, ◌+ℤ◌}
use my_mini_ob.Base.First.{Misses, IsFirst}
use my_mini_ob.Rc.{Rc, success, bufferpool_nobuf, ob_succ}
use my_mini_ob.Bitmap
use my_mini_ob.Bitmap.Laws
use my_mini_ob.BufferPool.{
  BpFileHeader, DiskBufferPool, BufferPoolLogEntry, max_page_num, bitmap_of, take_page, extend,
  allocate, append_log, changed, allocate_found, allocate_page,
}
use my_mini_ob.BufferPool.Header.{
  IsValid, bit, bits, bit-take_page, bit-extend, take_page-IsValid, extend-IsValid,
}
use my_mini_ob.BufferPool.Pages.{free_page_from-IsFirst, allocate_page-search}

-- The header `h'` has `n` pages and counts one more than `h`: page `i`, whose bit is set; the other
-- bits are as they were, and the counts agree with the bits.
pub record Takes (h : BpFileHeader) (i n : ℕ) (h' : BpFileHeader) : Type 0 where
  pub pages : h'.page_count ≡ n
  pub counts : h'.allocated_pages ≡ h.allocated_pages +ℤ pos 1
  pub sets : (j : ℕ) → bit h' j ≡ (if i == j then true else bit h j)
  pub valid : IsValid h'

-- the entry of an allocation, if the log gave it a number
abbrev pub entries_of : Option ℕ → ℕ → List BufferPoolLogEntry
entries_of none i = []
entries_of (some lsn) i = record { lsn = lsn; operation_type = allocate; page_num = i } ∷ []

abbrev pub lsn_of : Option ℕ → ℕ
lsn_of none = 0
lsn_of (some lsn) = lsn

-- the header page is dirty and has the entry's number, and the log has the entry
pub record Logs (logged : Option ℕ) (i : ℕ) (p p' : DiskBufferPool) : Type 0 where
  pub dirty : p'.hdr_dirty ≡ true
  pub numbered : p'.hdr_lsn ≡ lsn_of logged
  pub entered : p'.log ≡ p.log ++ entries_of logged i

-- no page below this one is free
abbrev pub AllTaken : BpFileHeader → ℕ → Type 0
AllTaken h n = (j : ℕ) → j < n → bit h j ≡ true

-- what an allocation answers, and what it leaves
pub data Allocated (logged : Option ℕ) (get_this_page : ℕ → Rc) (p : DiskBufferPool)
    : Rc × Option ℕ × DiskBufferPool → Type 0 where
  no_page :
      max_page_num ≤ p.file_header.page_count
      → AllTaken p.file_header p.file_header.page_count
      → Allocated logged get_this_page p (bufferpool_nobuf, none, p)
  free_page :
      (i : ℕ) (p' : DiskBufferPool)
      → i < p.file_header.page_count
      → bit p.file_header i ≡ false
      → AllTaken p.file_header i
      → Takes p.file_header i p.file_header.page_count p'.file_header
      → Logs logged i p p'
      → Allocated logged get_this_page p
          (get_this_page i, (if ob_succ (get_this_page i) then some i else none), p')
  page_at_end :
      (p' : DiskBufferPool)
      → p.file_header.page_count < max_page_num
      → AllTaken p.file_header p.file_header.page_count
      → Takes p.file_header p.file_header.page_count (suc p.file_header.page_count) p'.file_header
      → Logs logged p.file_header.page_count p p'
      → Allocated logged get_this_page p (success, some p.file_header.page_count, p')

Misses-AllTaken : (h : BpFileHeader) (n : ℕ) → Misses (bit h) false 0 n → AllTaken h n
Misses-AllTaken h n m j l = m j (omega arith) l

take_page-Takes :
    (h : BpFileHeader) (i : ℕ)
    → IsValid h
    → i < h.page_count
    → bit h i ≡ false
    → Takes h i h.page_count (take_page i h)
take_page-Takes h i v l free = record {
  pages = refl;
  counts = refl;
  sets = bit-take_page h (bits v) i l;
  valid = take_page-IsValid v i l free;
}

extend-Takes :
    (h : BpFileHeader)
    → IsValid h
    → suc h.page_count ≤ 8 * length h.bitmap
    → Takes h h.page_count (suc h.page_count) (take_page h.page_count (extend h))
extend-Takes h v room =
    let n = h.page_count in
    let b : Bitmap.Laws.IsValid (bitmap_of (extend h)) = record {
      room = room;
      is_byte = v.is_byte;
    } in
    record {
      pages = refl;
      counts = refl;
      sets = λ j.
          bit-take_page (extend h) b n (omega arith) j
          ∙ ap (λ x. if n == j then true else x) (bit-extend h j);
      valid = extend-IsValid v room;
    }

append_log-Logs :
    (logged : Option ℕ) (i : ℕ) (h : BpFileHeader) (p : DiskBufferPool)
    → Logs logged i p
        (record (append_log allocate i logged p) { file_header = h; hdr_dirty = true })
append_log-Logs none i h p = record {
  dirty = refl;
  numbered = refl;
  entered = sym (append-nil p.log);
}
append_log-Logs (some lsn) i h p = record { dirty = refl; numbered = refl; entered = refl }

changed-Logs :
    (logged : Option ℕ) (i : ℕ) (h : BpFileHeader) (p : DiskBufferPool)
    → Logs logged i p (append_log allocate i logged (changed h p))
changed-Logs none i h p = record { dirty = refl; numbered = refl; entered = sym (append-nil p.log) }
changed-Logs (some lsn) i h p = record { dirty = refl; numbered = refl; entered = refl }

append_log-header :
    (logged : Option ℕ) (i : ℕ) (p : DiskBufferPool)
    → (append_log allocate i logged p).file_header ≡ p.file_header
append_log-header none i p = refl
append_log-header (some lsn) i p = refl

module _ (logged : Option ℕ) (get_this_page : ℕ → Rc) (p : DiskBufferPool)
    (v : IsValid p.file_header)
    (room : suc p.file_header.page_count ≤ 8 * length p.file_header.bitmap) where
  allocate_found-Allocated :
      (r : Option ℕ)
      → IsFirst (bit p.file_header) false 0 p.file_header.page_count r
      → Allocated logged get_this_page p (allocate_found logged get_this_page r p)
  allocate_found-Allocated none f =
      let h = p.file_header in
      let n = h.page_count in
      elim (Bool-cases (leb max_page_num n)) [
        | inl y ↦ rw y (no_page (leb→le max_page_num n y) (Misses-AllTaken h n f))
        | inr m ↦ rw m (
            page_at_end _ (ground arith) (Misses-AllTaken h n f) (extend-Takes h v room)
              (append_log-Logs logged n (take_page n (extend h)) p))
      ]
  allocate_found-Allocated (some i) f =
      let h = p.file_header in
      free_page i _ f.1 f.2 (Misses-AllTaken h i f.3)
        (subst (λ k. Takes h i h.page_count k)
          (sym (append_log-header logged i (changed (take_page i h) p)))
          (take_page-Takes h i v f.1 f.2))
        (changed-Logs logged i (take_page i h) p)

  -- If the counts of the header are right and the bitmap has a bit for one page more, an allocation
  -- takes the lowest free page of the file, or else a page at its end, or none if all are taken and the
  -- file has its full number of pages. It sets that page's bit and no other, counts the page, marks the
  -- header page, gives it the number of the log's entry, which names the page, and answers with the page
  -- unless its contents cannot be loaded. The counts of the header are right again.
  pub allocate_page_lem : Allocated logged get_this_page p (allocate_page logged get_this_page p)
  allocate_page_lem =
      let h = p.file_header in
      rw (allocate_page-search logged get_this_page p v) (
        allocate_found-Allocated _
          (free_page_from-IsFirst (bitmap_of h) h.page_count 0 h.page_count (omega arith)))
