-- ===== src/BufferPool/Redo.antt =====
-- Redoing the entry of a change makes the same change of the header.
use mathlib.Core.Path.{subst}
use mathlib.Core.Option.{some-injective}
use my_mini_ob.Base.{
  ℕ, suc, ◌*◌, ◌≤◌, ◌<◌, ◌≡◌, ◌⊎◌, refl, sym, ap, ◌∙◌, true, false, Bool-cases, inl, inr, Option,
  none, some, [], ◌∷◌, ◌++◌, arith, ◌==◌, ltb, leb, length, lt→ltb,
}
use my_mini_ob.Rc.{Rc, success, bufferpool_invalid_page_num}
use my_mini_ob.BufferPool.{
  BpFileHeader, DiskBufferPool, BufferPoolLogEntry, allocate, deallocate, max_page_num, take_page,
  give_page, extend, allocate_page, dispose_page, redo_allocate_page, redo_deallocate_page,
  replay_entry, check_page_num,
}
use my_mini_ob.BufferPool.Header.{IsValid, bit, give_page-IsValid}
use my_mini_ob.BufferPool.Pages.{
  Allocates, full, reuse, last, entered, allocate_page-Outcome, Allocates-IsValid,
}

-- the entry with this number is redone, and makes this header
abbrev pub Redone : ℕ → BpFileHeader → Rc × DiskBufferPool → Type 0
Redone lsn h (rc, q) = (rc ≡ success) × ((q.file_header ≡ h) × (q.hdr_lsn ≤ lsn))

redo_reuse :
    (lsn i : ℕ) (q : DiskBufferPool)
    → q.hdr_lsn < lsn
    → i < q.file_header.page_count
    → bit q.file_header i ≡ false
    → Redone lsn (take_page i q.file_header) (redo_allocate_page lsn i q)
unfolding redo_allocate_page
redo_reuse lsn i q old l free =
    let newer : leb lsn q.hdr_lsn ≡ false = ground arith in
    rw (newer, lt→ltb i q.file_header.page_count l, free) (refl, (refl, omega arith))

redo_last :
    (lsn : ℕ) (q : DiskBufferPool)
    → q.hdr_lsn < lsn
    → q.file_header.page_count < max_page_num
    → Redone lsn
        (take_page q.file_header.page_count (extend q.file_header))
        (redo_allocate_page lsn q.file_header.page_count q)
unfolding redo_allocate_page
redo_last lsn q old small =
    let newer : leb lsn q.hdr_lsn ≡ false = ground arith in
    let same : ltb q.file_header.page_count q.file_header.page_count ≡ false = ground arith in
    let room : leb max_page_num q.file_header.page_count ≡ false = ground arith in
    rw (newer, same, room) (refl, (refl, omega arith))

redo-Allocates :
    (lsn : ℕ) (q : DiskBufferPool) {h h' : BpFileHeader} (page : Option ℕ) (i : ℕ)
    → q.hdr_lsn < lsn
    → q.file_header ≡ h
    → page ≡ some i
    → Allocates h page h'
    → Redone lsn h' (redo_allocate_page lsn i q)
redo-Allocates lsn q page i old e s (full m f) = absurd (let s' = s in cc)
redo-Allocates lsn q {h} page i old e s (reuse j l free f) =
    subst (λ (k : ℕ). Redone lsn (take_page j h) (redo_allocate_page lsn k q))
      (some-injective j i s)
      (subst (λ (x : BpFileHeader). Redone lsn (take_page j x) (redo_allocate_page lsn j q)) e
        (redo_reuse lsn j q old (subst (λ (x : BpFileHeader). j < x.page_count) (sym e) l)
          (ap (λ (x : BpFileHeader). bit x j) e ∙ free)))
redo-Allocates lsn q {h} page i old e s (last l f) =
    subst (λ (k : ℕ). Redone lsn (take_page h.page_count (extend h)) (redo_allocate_page lsn k q))
      (some-injective h.page_count i s)
      (subst
        (λ (x : BpFileHeader).
          Redone lsn (take_page x.page_count (extend x)) (redo_allocate_page lsn x.page_count q))
        e
        (redo_last lsn q old (subst (λ (x : BpFileHeader). x.page_count < max_page_num) (sym e) l)))

none_same : {h h' : BpFileHeader} (page : Option ℕ) → page ≡ none → Allocates h page h' → h' ≡ h
none_same page s (full m f) = refl
none_same page s (reuse j l free f) = absurd (let s' = s in cc)
none_same page s (last l f) = absurd (let s' = s in cc)

pub check_page_num-allocated :
    (page_num : ℕ) (p : DiskBufferPool)
    → check_page_num page_num p ≡ success
    → (page_num < p.file_header.page_count) × (bit p.file_header page_num ≡ true)
unfolding check_page_num
check_page_num-allocated page_num p e = elim (Bool-cases (leb p.file_header.page_count page_num)) [
  | inl y ↦ absurd (let q : bufferpool_invalid_page_num ≡ success = rw y at e in cc)
  | inr n ↦ elim (Bool-cases (bit p.file_header page_num)) [
    | inl t ↦ (ground arith, t)
    | inr f ↦ absurd (let q : bufferpool_invalid_page_num ≡ success = rw (n, f) at e in cc)
  ]
]

redo_give :
    (lsn i : ℕ) (q : DiskBufferPool) (h : BpFileHeader)
    → q.hdr_lsn < lsn
    → q.file_header ≡ h
    → i < h.page_count
    → bit h i ≡ true
    → Redone lsn (give_page i h) (redo_deallocate_page lsn i q)
unfolding redo_deallocate_page
redo_give lsn i q h old e l taken =
    let newer : leb lsn q.hdr_lsn ≡ false = ground arith in
    let inside : leb q.file_header.page_count i ≡ false =
      subst (λ (x : BpFileHeader). leb x.page_count i ≡ false) (sym e) (ground arith) in
    let held : bit q.file_header i ≡ true = ap (λ (x : BpFileHeader). bit x i) e ∙ taken in
    rw (newer, inside, held) (refl, (ap (give_page i) e, omega arith))

-- What a call does to the file: nothing, or one change of the header with one new entry, whose redo
-- makes that change.
abbrev pub Silent : DiskBufferPool → DiskBufferPool → Type 0
Silent p p' = (p'.file_header ≡ p.file_header) × ((p'.hdr_lsn ≡ p.hdr_lsn) × (p'.log ≡ p.log))

abbrev pub Enters : DiskBufferPool → DiskBufferPool → BufferPoolLogEntry → Type 0
Enters p p' e =
    (p.hdr_lsn < e.lsn)
    × ((p'.hdr_lsn ≡ e.lsn)
        × ((p'.log ≡ p.log ++ (e ∷ []))
            × ((q : DiskBufferPool)
                → q.file_header ≡ p.file_header
                → q.hdr_lsn < e.lsn
                → Redone e.lsn p'.file_header (replay_entry e q))))

abbrev pub Step : DiskBufferPool → DiskBufferPool → Type 0
Step p p' = IsValid p'.file_header × (Silent p p' ⊎ ((e : BufferPoolLogEntry) × Enters p p' e))

module _ (lsn : ℕ) (p : DiskBufferPool) (new : p.hdr_lsn < lsn) (v : IsValid p.file_header) where
  outcome-Step :
      (get_this_page : ℕ → Rc) (r : Rc × Option ℕ × DiskBufferPool) (page : Option ℕ)
      → suc p.file_header.page_count ≤ 8 * length p.file_header.bitmap
      → Allocates p.file_header page r.2.file_header
      → r.2.hdr_lsn ≡ (entered (some lsn) page p).hdr_lsn
      → r.2.log ≡ (entered (some lsn) page p).log
      → Step p r.2
  outcome-Step get_this_page r none room a n l =
      (Allocates-IsValid v room a, inl (none_same none refl a, (n, l)))
  outcome-Step get_this_page r (some i) room a n l = (
    Allocates-IsValid v room a,
    inr (
      record { lsn = lsn; operation_type = allocate; page_num = i },
      (new, (n, (l, λ q e old. redo-Allocates lsn q (some i) i old e refl a))),
    ),
  )

  pub allocate_page-Step :
      (get_this_page : ℕ → Rc)
      → suc p.file_header.page_count ≤ 8 * length p.file_header.bitmap
      → Step p (allocate_page (some lsn) get_this_page p).2
  allocate_page-Step get_this_page room =
      let (page, (a, (c, (f, (n, l))))) = allocate_page-Outcome (some lsn) get_this_page p v in
      outcome-Step get_this_page (allocate_page (some lsn) get_this_page p) page room a n l

  pub dispose_page-Step :
      (page_num : ℕ)
      → check_page_num page_num p ≡ success
      → Step p (dispose_page (some lsn) page_num p).1
  unfolding dispose_page
  dispose_page-Step page_num ok = elim (Bool-cases (page_num == 0)) [
    | inl y ↦ rw y (v, inl (refl, (refl, refl)))
    | inr n ↦
        let (l, taken) = check_page_num-allocated page_num p ok in
        rw n (
          give_page-IsValid v page_num l taken,
          inr (
            record { lsn = lsn; operation_type = deallocate; page_num = page_num },
            (
              new,
              (refl, (refl, λ q e old. redo_give lsn page_num q (p.file_header) old e l taken)),
            ),
          ),
        )
  ]
