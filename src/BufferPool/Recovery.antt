-- ===== src/BufferPool/Recovery.antt =====
-- Replaying the log on the header page as it was when it was last written.
use my_mini_ob.Base.{
  ℕ, suc, ◌*◌, ◌≤◌, ◌<◌, ◌≡◌, refl, ap, ◌∙◌, true, Bool-cases, inl, inr, some, List, [], ◌∷◌, ◌++◌,
  arith, leb, length,
}
use my_mini_ob.Rc.{Rc, success, ob_succ}
use my_mini_ob.BufferPool.{
  DiskBufferPool, BufferPoolLogEntry, BufferPoolOperation, allocate, deallocate, allocate_page,
  dispose_page, redo_allocate_page, redo_deallocate_page, replay_entry, replay_all, check_page_num,
}
use my_mini_ob.BufferPool.Header.{IsValid}
use my_mini_ob.BufferPool.Redo.{Redone, Step, allocate_page-Step, dispose_page-Step}

-- Allocations and releases of allocated pages, each logged under a number that is larger than those
-- before, while the bitmap has a byte for one page more.
pub data Runs (p : DiskBufferPool) : DiskBufferPool → Type 0 where
  start : Runs p p
  allocates :
      {p' : DiskBufferPool} (lsn : ℕ) (get_this_page : ℕ → Rc)
      → Runs p p'
      → p'.hdr_lsn < lsn
      → suc p'.file_header.page_count ≤ 8 * length p'.file_header.bitmap
      → Runs p (allocate_page (some lsn) get_this_page p').2
  disposes :
      {p' : DiskBufferPool} (lsn page_num : ℕ)
      → Runs p p'
      → p'.hdr_lsn < lsn
      → check_page_num page_num p' ≡ success
      → Runs p (dispose_page (some lsn) page_num p').1

replay_all-append :
    (es : List BufferPoolLogEntry) (e : BufferPoolLogEntry) (q : DiskBufferPool)
    → (replay_all es q).0 ≡ success
    → (replay_entry e (replay_all es q).1).0 ≡ success
    → replay_all (es ++ (e ∷ [])) q ≡ (success, (replay_entry e (replay_all es q).1).1)
unfolding replay_all
replay_all-append [] e q h g = rw g refl
replay_all-append (x ∷ es) e q h g = elim (Bool-cases (ob_succ (replay_entry x q).0)) [
  | inl y ↦ rw y (replay_all-append es e (replay_entry x q).1 (rw y at h) (rw y at g))
  | inr n ↦ absurd (
      let h' : (replay_entry x q).0 ≡ success = rw n at h in
      let t : ob_succ (replay_entry x q).0 ≡ true = ap ob_succ h' in cc)
]

replay_all-next :
    (es : List BufferPoolLogEntry) (e : BufferPoolLogEntry) (q q' : DiskBufferPool)
    → replay_all es q ≡ (success, q')
    → (replay_entry e q').0 ≡ success
    → replay_all (es ++ (e ∷ [])) q ≡ (success, (replay_entry e q').1)
replay_all-next es e q q' h g =
    let same : (replay_all es q).1 ≡ q' = ap (λ (r : Rc × DiskBufferPool). r.1) h in
    replay_all-append es e q (ap (λ (r : Rc × DiskBufferPool). r.0) h) (rw same g) ∙ (rw same refl)

old_entry :
    (lsn i : ℕ) (op : BufferPoolOperation) (q : DiskBufferPool)
    → lsn ≤ q.hdr_lsn
    → replay_entry (record { lsn = lsn; operation_type = op; page_num = i }) q ≡ (success, q)
unfolding redo_allocate_page redo_deallocate_page
old_entry lsn i allocate q l = let o : leb lsn q.hdr_lsn ≡ true = ground arith in rw o refl
old_entry lsn i deallocate q l = let o : leb lsn q.hdr_lsn ≡ true = ground arith in rw o refl

-- The entries of the log so far are passed over by a header whose number is that of the last.
abbrev Settled : DiskBufferPool → Type 0
Settled p = (q : DiskBufferPool) → p.hdr_lsn ≤ q.hdr_lsn → replay_all p.log q ≡ (success, q)

-- The entries after those of `p` make the header of `p'` from that of `p`.
abbrev Rebuilds : DiskBufferPool → DiskBufferPool → Type 0
Rebuilds p p' =
    IsValid p'.file_header
    × ((p.hdr_lsn ≤ p'.hdr_lsn)
        × ((q : DiskBufferPool)
            → q.file_header ≡ p.file_header
            → q.hdr_lsn ≡ p.hdr_lsn
            → Redone p'.hdr_lsn p'.file_header (replay_all p'.log q)))

Settled-start : (p : DiskBufferPool) → p.log ≡ [] → Settled p
unfolding replay_all
Settled-start p e q l = rw e refl

Settled-Step : (p p' : DiskBufferPool) → Settled p → Step p p' → Settled p'
Settled-Step p p' s (v, inl (h, (n, l))) q m = rw l (s q (rw n at m))
Settled-Step p p' s (v, inr (e, (new, (n, (l, redo))))) q m =
    let past : e.lsn ≤ q.hdr_lsn = rw n at m in
    let before = s q (omega arith) in
    let skipped = old_entry e.lsn e.page_num e.operation_type q past in
    rw
      (
        l,
        replay_all-next p.log e q q before (ap (λ (r : Rc × DiskBufferPool). r.0) skipped),
        skipped,
      )
      refl

Rebuilds-start : (p : DiskBufferPool) → IsValid p.file_header → Settled p → Rebuilds p p
Rebuilds-start p v s =
    (v, (omega arith, λ q e n. rw (s q (rw n (omega arith))) (refl, (e, rw n (omega arith)))))

Rebuilds-Step : (p p' p'' : DiskBufferPool) → Rebuilds p p' → Step p' p'' → Rebuilds p p''
Rebuilds-Step p p' p'' (v, (m, redo)) (v', inl (h, (n, l))) =
    (v', (rw n m, λ q e k. let (r, (f, o)) = redo q e k in rw (l, n, h) (r, (f, o))))
Rebuilds-Step p p' p'' (v, (m, redo)) (v', inr (e, (new, (n, (l, step))))) = (
  v',
  (
    rw n (omega arith),
    λ q f k.
        let (r, (g, o)) = redo q f k in
        let (r', (g', o')) = step (replay_all p'.log q).1 g (omega arith) in
        rw
          (
            l,
            replay_all-next p'.log e q (replay_all p'.log q).1
                (ap (λ (c : Rc). (c, (replay_all p'.log q).1)) r) r',
          )
          (refl, (g', rw n o')),
  ),
)

Runs-Settled :
    (p p' : DiskBufferPool)
    → IsValid p.file_header
    → Settled p
    → Runs p p'
    → IsValid p'.file_header × Settled p'
Runs-Settled p _ v s start = (v, s)
Runs-Settled p _ v s (allocates {p' = q} lsn get_this_page runs new room) =
    let (v', s') = Runs-Settled p q v s runs in
    let step = allocate_page-Step lsn q new v' get_this_page room in
    (step.0, Settled-Step q (allocate_page (some lsn) get_this_page q).2 s' step)
Runs-Settled p _ v s (disposes {p' = q} lsn page_num runs new ok) =
    let (v', s') = Runs-Settled p q v s runs in
    let step = dispose_page-Step lsn q new v' page_num ok in
    (step.0, Settled-Step q (dispose_page (some lsn) page_num q).1 s' step)

Runs-Rebuilds :
    (p p' : DiskBufferPool) → IsValid p.file_header → Settled p → Runs p p' → Rebuilds p p'
Runs-Rebuilds p _ v s start = Rebuilds-start p v s
Runs-Rebuilds p _ v s (allocates {p' = q} lsn get_this_page runs new room) =
    let before = Runs-Rebuilds p q v s runs in
    Rebuilds-Step p q (allocate_page (some lsn) get_this_page q).2 before
      (allocate_page-Step lsn q new before.0 get_this_page room)
Runs-Rebuilds p _ v s (disposes {p' = q} lsn page_num runs new ok) =
    let before = Runs-Rebuilds p q v s runs in
    Rebuilds-Step p q (dispose_page (some lsn) page_num q).1 before
      (dispose_page-Step lsn q new before.0 page_num ok)

-- A file starts with an empty log and right counts. Pages are allocated and released, each change
-- logged, until the header page is written to the disk, and again after that until the crash. Then
-- the replay of the whole log on the header on the disk succeeds and makes the header as it was at
-- the crash, whose counts are right.
pub recovery_lem :
    (p p' p'' q : DiskBufferPool)
    → IsValid p.file_header
    → p.log ≡ []
    → Runs p p'
    → Runs p' p''
    → q.file_header ≡ p'.file_header
    → q.hdr_lsn ≡ p'.hdr_lsn
    → ((replay_all p''.log q).0 ≡ success)
      × ((replay_all p''.log q).1.file_header ≡ p''.file_header)
      × IsValid p''.file_header
recovery_lem p p' p'' q v e runs more h n =
    let (v', s') = Runs-Settled p p' v (Settled-start p e) runs in
    let (v'', (m, redo)) = Runs-Rebuilds p' p'' v' s' more in
    let (r, (f, o)) = redo q h n in (r, f, v'')
