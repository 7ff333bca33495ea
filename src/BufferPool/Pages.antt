-- ===== src/BufferPool/Pages.antt =====
-- Which page an allocation gives, and what a release changes.
use mathlib.Core.Path.{subst}
use my_mini_ob.Base.{
  ℕ, zero, suc, ◌+◌, ◌*◌, ◌≤◌, ◌<◌, ◌≡◌, refl, false, Bool-cases, inl, inr, Option, none, some,
  arith, ltb, leb, leb→le, lt→ltb, if◌then◌else◌, length,
}
use my_mini_ob.Base.Int.{ℤ, pos, ltb_ℤ}
use my_mini_ob.Base.First.{Misses, IsFirst, IsFirst-earlier}
use my_mini_ob.Base.Count.{count-le, count-full}
use my_mini_ob.Rc.{Rc, success, bufferpool_nobuf, ob_succ}
use my_mini_ob.Bitmap.{Bitmap, get_bit}
use my_mini_ob.BufferPool.{
  BpFileHeader, DiskBufferPool, max_page_num, bitmap_of, take_page, extend, append_log, allocate,
  free_page_from, allocate_found, allocate_page,
}
use my_mini_ob.BufferPool.Header.{IsValid, bit, take_page-IsValid, extend-IsValid}

pub free_page_from-IsFirst :
    (b : Bitmap) (n i hi : ℕ) → i + n ≡ hi → IsFirst (get_bit b) false i hi (free_page_from n b i)
unfolding free_page_from
free_page_from-IsFirst b zero i hi e = λ j l h. absurd (omega arith)
free_page_from-IsFirst b (suc n) i hi e = elim (Bool-cases (get_bit b i)) [
  | inl y ↦ rw y (
      IsFirst-earlier (get_bit b) false i (i + 1) hi _ (omega arith)
        (λ j l h. let q : i ≡ j = omega arith in rw (← q) y)
        (free_page_from-IsFirst b n (i + 1) hi (omega arith)))
  | inr f ↦ rw f (omega arith, omega arith, f, λ j l h. absurd (omega arith))
]

-- how the header may change when a page is allocated
pub data Allocates (h : BpFileHeader) : Option ℕ → BpFileHeader → Type 0 where
  full : max_page_num ≤ h.page_count → Misses (bit h) false 0 h.page_count → Allocates h none h
  reuse :
      (i : ℕ)
      → i < h.page_count
      → bit h i ≡ false
      → Misses (bit h) false 0 i
      → Allocates h (some i) (take_page i h)
  last :
      h.page_count < max_page_num
      → Misses (bit h) false 0 h.page_count
      → Allocates h (some h.page_count) (take_page h.page_count (extend h))

full_count : (a : ℤ) (c n : ℕ) → a ≡ pos c → ltb_ℤ a (pos n) ≡ false → c ≤ n → c ≡ n
full_count a c n e f l =
    let f' = subst (λ (x : ℤ). ltb_ℤ x (pos n) ≡ false) e f in ground (arith, f', l)

full_or_free :
    (h : BpFileHeader)
    → IsValid h
    → ltb_ℤ h.allocated_pages (pos h.page_count) ≡ false
    → Misses (bit h) false 0 h.page_count
full_or_free h v f j l k =
    count-full (bit h) h.page_count
      (full_count h.allocated_pages _ h.page_count v.counted f (count-le (bit h) h.page_count)) j k

no_hit :
    (h : BpFileHeader) (r : Option ℕ)
    → Misses (bit h) false 0 h.page_count
    → IsFirst (bit h) false 0 h.page_count r
    → r ≡ none
no_hit h none m f = refl
no_hit h (some k) m f = let q = m k (omega arith) f.1 in let q' = f.2 in cc

-- The test of the counts only saves the search: a valid header has a free page just if it says so.
pub allocate_page-search :
    (logged : Option ℕ) (get_this_page : ℕ → Rc) (p : DiskBufferPool)
    → IsValid p.file_header
    → allocate_page logged get_this_page p
      ≡ allocate_found logged get_this_page
          (free_page_from p.file_header.page_count (bitmap_of p.file_header) 0)
          p
unfolding allocate_page
allocate_page-search logged get_this_page p v =
    let h = p.file_header in
    elim (Bool-cases (ltb_ℤ h.allocated_pages (pos h.page_count))) [
      | inl y ↦ rw y refl
      | inr n ↦
          let none_free =
            no_hit h _ (full_or_free h v n)
              (free_page_from-IsFirst (bitmap_of h) h.page_count 0 h.page_count (omega arith)) in
          rw (n, none_free) refl
    ]

-- the code for the page taken: only a page that is used again is loaded
abbrev pub answer : (ℕ → Rc) → BpFileHeader → Option ℕ → Rc
answer get_this_page h none = bufferpool_nobuf
answer get_this_page h (some i) = if ltb i h.page_count then get_this_page i else success

-- the log and the number of the header after the page is taken
abbrev pub entered : Option ℕ → Option ℕ → DiskBufferPool → DiskBufferPool
entered logged none p = p
entered logged (some i) p = append_log allocate i logged p

abbrev pub Outcome : Option ℕ → (ℕ → Rc) → DiskBufferPool → Rc × Option ℕ × DiskBufferPool → Type 0
Outcome logged get_this_page p (rc, frame, p') =
    (page : Option ℕ) × (Allocates p.file_header page p'.file_header
      × ((rc ≡ answer get_this_page p.file_header page)
          × ((frame ≡ (if ob_succ rc then page else none))
              × ((p'.hdr_lsn ≡ (entered logged page p).hdr_lsn)
                  × (p'.log ≡ (entered logged page p).log)))))

allocate_found-Outcome :
    (logged : Option ℕ) (get_this_page : ℕ → Rc) (p : DiskBufferPool) (r : Option ℕ)
    → IsFirst (bit p.file_header) false 0 p.file_header.page_count r
    → Outcome logged get_this_page p (allocate_found logged get_this_page r p)
allocate_found-Outcome logged get_this_page p none f =
    let n = p.file_header.page_count in
    elim (Bool-cases (leb max_page_num n)) [
      | inl y ↦ rw y (none, (full (leb→le max_page_num n y) f, (refl, (refl, (refl, refl)))))
      | inr m ↦
          let same : ltb n n ≡ false = ground arith in
          let small : n < max_page_num = ground arith in
          rw m (some n, (last small f, (rw same refl, (refl, (refl, refl)))))
    ]
allocate_found-Outcome none get_this_page p (some i) f =
    let l = lt→ltb i p.file_header.page_count f.1 in
    (some i, (reuse i f.1 f.2 f.3, (rw l refl, (refl, (refl, refl)))))
allocate_found-Outcome (some lsn) get_this_page p (some i) f =
    let l = lt→ltb i p.file_header.page_count f.1 in
    (some i, (reuse i f.1 f.2 f.3, (rw l refl, (refl, (refl, refl)))))

-- an allocation from a valid header, in the terms of the code
pub allocate_page-Outcome :
    (logged : Option ℕ) (get_this_page : ℕ → Rc) (p : DiskBufferPool)
    → IsValid p.file_header
    → Outcome logged get_this_page p (allocate_page logged get_this_page p)
allocate_page-Outcome logged get_this_page p v =
    let h = p.file_header in
    rw (allocate_page-search logged get_this_page p v) (
      allocate_found-Outcome logged get_this_page p _
        (free_page_from-IsFirst (bitmap_of h) h.page_count 0 h.page_count (omega arith)))

-- what an allocation does to a valid header, if the bitmap has a byte for a page more
pub Allocates-IsValid :
    {h h' : BpFileHeader} {page : Option ℕ}
    → IsValid h
    → suc h.page_count ≤ 8 * length h.bitmap
    → Allocates h page h'
    → IsValid h'
Allocates-IsValid v room (full m f) = v
Allocates-IsValid v room (reuse i l free f) = take_page-IsValid v i l free
Allocates-IsValid v room (last l f) = extend-IsValid v room
