-- ===== src/RecordReplay/Redo.antt =====
-- Crash recovery of a record page: replaying the log that a sequence of changes wrote, on the page as
-- it was at any moment in between, gives the page that the changes left.
use mathlib.Core.Path.{subst}
use my_mini_ob.Base.{
  ℕ, ◌+◌, ◌≤◌, ◌≡◌, inl, inr, refl, Bool, true, false, Option, none, some, List, [], ◌∷◌, ◌++◌,
  arith, Bool-cases, append-nil, append_assoc, ◌∙◌, ap, sym, ◌<◌, ◌==◌, ◌&&◌, leb,
}
use my_mini_ob.Rc.{Rc, success, ob_succ}
use my_mini_ob.RecordLog.{LogEntry, disk}
use my_mini_ob.RecordPage.{Page, Handler}
use my_mini_ob.RecordPage.View.{IsValid}
use my_mini_ob.RecordReplay.{
  Pages, found, put, stored, replay_on, open_page, replay, then_replay, replay_all,
}
use my_mini_ob.RecordReplay.Change.{
  Change, run, with_dirty, target, on_page, Redoes, Logged, unlogged, logged, apply-Logged,
}

replay_skipped :
    (e : LogEntry) (pages : Pages) (p : Page)
    → pages e.payload.buffer_pool_id e.payload.page_num ≡ found p
    → e.lsn ≤ p.lsn
    → replay e pages ≡ some (success, pages)
unfolding replay
replay_skipped e pages p fetched h =
    let known : leb e.lsn p.lsn ≡ true = ground arith in
    ap (replay_on e pages) fetched ∙ rw known refl

-- an entry that the fetched page does not have yet
replay_redone :
    (e : LogEntry) (pages : Pages) (p q : Page)
    → pages e.payload.buffer_pool_id e.payload.page_num ≡ found p
    → p.lsn < e.lsn
    → Redoes e p q
    → replay e pages ≡ some (success, put e.payload.buffer_pool_id e.payload.page_num q pages)
unfolding replay
replay_redone e pages p q fetched new redoes =
    let unknown : leb e.lsn p.lsn ≡ false = ground arith in
    ap (replay_on e pages) fetched ∙ rw unknown (ap (stored e.payload pages) redoes)

failed :
    (rc : Rc) (s q : Pages)
    → ob_succ rc ≡ false
    → ◌≡◌ {A = Option (Rc × Pages)} (some (rc, s)) (some (success, q))
    → ⊥
failed rc s q f k = ground arith

-- Entries replayed one batch after another.
replay_all-append :
    (es fs : List LogEntry) (p : Pages) {q : Pages}
    → replay_all es p ≡ some (success, q)
    → replay_all (es ++ fs) p ≡ replay_all fs q
unfolding replay_all
replay_all-append [] fs p h = ground arith
replay_all-append (e ∷ es) fs p {q} h = go (λ s k. replay_all-append es fs s k) (replay e p) h
  where
    go :
        ((s : Pages)
          → replay_all es s ≡ some (success, q)
          → replay_all (es ++ fs) s ≡ replay_all fs q)
        → (r : Option (Rc × Pages)) → then_replay r (λ s. replay_all es s) ≡ some (success, q)
        → then_replay r (λ s. replay_all (es ++ fs) s) ≡ replay_all fs q
    go rest none k = absurd (cc)
    go rest (some (rc, s)) k = elim (Bool-cases (ob_succ rc)) [
      | inl t ↦ rw t (rest s (rw t at k))
      | inr f ↦ absurd (failed rc s q f (rw f at k))
    ]

-- the fetched page of a pool and a number, and the others as they were
abbrev pub Holds : ℕ → ℕ → Page → Pages → Pages → Type 0
Holds pool num q pages pages' =
    (pages' pool num ≡ found q)
    × ((pool' num' : ℕ)
        → pool == pool' && num == num' ≡ false
        → pages' pool' num' ≡ pages pool' num')

put_found : (pool num : ℕ) (q : Page) (pages : Pages) → put pool num q pages pool num ≡ found q
put_found pool num q pages =
    let same : pool == pool && num == num ≡ true = ground arith in rw same refl

on_page-cons :
    (num m : ℕ) (c : Change) (cs : List Change)
    → m ≡ num
    → on_page num (c ∷ cs) ≡ true
    → (target m c ≡ m) × (on_page num cs ≡ true)
on_page-cons num m c cs e h =
    subst (λ k. (target k c ≡ k) × (on_page num cs ≡ true)) (sym e) (ground arith, ground arith)

module _ (pool num : ℕ) where
  -- What a sequence of changes of page `p`, on a log that ends at `n`, leaves: the handler, the
  -- entries that it added to the log, and what replaying those does.
  record Redone (cs : List Change) (n : ℕ) (es : List LogEntry) (p : Page) : Type 0 where
    last : ℕ
    news : List LogEntry
    after : Page
    runs :
        run cs (open_page (disk n es) pool p) ≡ some (open_page (disk last (es ++ news)) pool after)
    valid : IsValid after
    numbered : after.page_num ≡ num
    flushed_in : after.lsn ≤ last
    grows : p.lsn ≤ after.lsn
    -- on the page as it was before, clean or dirty
    dirty_after : Bool → Bool
    replays :
        (b : Bool) (pages : Pages)
        → pages pool num ≡ found (with_dirty b p)
        → (pages' : Pages) × ((replay_all news pages ≡ some (success, pages'))
            × Holds pool num (with_dirty (dirty_after b) after) pages pages')
    -- on a page that has all of them
    skips :
        (q : Page) (pages : Pages)
        → pages pool num ≡ found q
        → after.lsn ≤ q.lsn
        → replay_all news pages ≡ some (success, pages)

  module _ (e : LogEntry) (own_pool : e.payload.buffer_pool_id ≡ pool)
      (own : e.payload.page_num ≡ num) where
    fetched_by :
        (pages : Pages) → pages e.payload.buffer_pool_id e.payload.page_num ≡ pages pool num
    fetched_by pages =
        ap (λ (k : ℕ). pages k e.payload.page_num) own_pool ∙ ap (λ (k : ℕ). pages pool k) own

    -- the entry redone, and then others of the same page
    replays-cons :
        (news : List LogEntry) (p q r : Page) (pages : Pages)
        → pages pool num ≡ found p
        → p.lsn < e.lsn
        → Redoes e p q
        → ((pages' : Pages)
            → pages' pool num ≡ found q
            → (last : Pages) × ((replay_all news pages' ≡ some (success, last))
                × Holds pool num r pages' last))
        → (last : Pages) × ((replay_all (e ∷ news) pages ≡ some (success, last))
            × Holds pool num r pages last)
    unfolding replay_all
    replays-cons news p q r pages fetched new redoes rest =
        let mid : Pages = put pool num q pages in
        let step : replay e pages ≡ some (success, mid) =
          replay_redone e pages p q (fetched_by pages ∙ fetched) new redoes
          ∙ ap (λ (k : ℕ). some (success, put k e.payload.page_num q pages)) own_pool
          ∙ ap (λ (k : ℕ). some (success, put pool k q pages)) own in
        let (last, (runs, (holds, others))) = rest mid (put_found pool num q pages) in
        (
          last,
          (
            ap (λ (r : Option (Rc × Pages)). then_replay r (replay_all news)) step ∙ runs,
            (holds, λ pool' num' ne. others pool' num' ne ∙ rw ne refl),
          ),
        )

  Redone-cons :
      (c : Change) (cs : List Change) (n : ℕ) (es : List LogEntry) {p : Page}
      → p.lsn ≤ n
      → p.page_num ≡ num
      → Logged pool c n es p
      → ((n' : ℕ) (es' : List LogEntry) (q : Page)
          → IsValid q
          → q.lsn ≤ n'
          → q.page_num ≡ num
          → Redone cs n' es' q)
      → IsValid p
      → Redone (c ∷ cs) n es p
  unfolding run
  Redone-cons c cs n es {p} old own (unlogged e) rest v =
      let r = rest n es p v old own in
      record {
        last = r.last;
        news = r.news;
        after = r.after;
        runs = rw e r.runs;
        valid = r.valid;
        numbered = r.numbered;
        flushed_in = r.flushed_in;
        grows = r.grows;
        dirty_after = r.dirty_after;
        replays = r.replays;
        skips = r.skips;
      }
  Redone-cons c cs n es {p} old own (logged e q runs le lq vq pe ne nq reps) rest v =
      let r = rest (n + 1) (es ++ (e ∷ [])) q vq (omega arith) (nq ∙ own) in
      record {
        last = r.last;
        news = e ∷ r.news;
        after = r.after;
        runs = rw runs (
            r.runs
            ∙ ap (λ l. some (open_page (disk r.last l) pool r.after))
                (append_assoc es (e ∷ []) r.news));
        valid = r.valid;
        numbered = r.numbered;
        flushed_in = r.flushed_in;
        grows = omega (arith, r.grows);
        dirty_after = λ b. r.dirty_after true;
        replays = λ b pages fetched.
            replays-cons e pe (ne ∙ own) r.news (with_dirty b p) (with_dirty true q) _ pages fetched
              (omega arith) (reps b) (r.replays true);
        skips = λ s pages fetched h.
            unfold replay_all in
            rw
              (replay_skipped e pages s (fetched_by e pe (ne ∙ own) pages ∙ fetched)
                (omega (arith, r.grows)))
              (r.skips s pages fetched h);
      }

  redo :
      (cs : List Change) (n : ℕ) (es : List LogEntry) {p : Page}
      → IsValid p
      → p.lsn ≤ n
      → p.page_num ≡ num
      → on_page num cs ≡ true
      → Redone cs n es p
  unfolding run replay_all
  redo [] n es {p} v old own _ = record {
    last = n;
    news = [];
    after = p;
    runs = rw append-nil;
    valid = v;
    numbered = own;
    flushed_in = old;
    grows = omega arith;
    dirty_after = λ b. b;
    replays = λ b pages fetched. (pages, (refl, (fetched, λ pool' num' ne. refl)));
    skips = λ q pages fetched h. refl;
  }
  redo (c ∷ cs) n es {p} v old own all =
      let (meant, others) = on_page-cons num p.page_num c cs own all in
      Redone-cons c cs n es old own (apply-Logged pool c n es v old meant)
        (λ n' es' q w o own'. redo cs n' es' w o own' others) v

-- The page at two moments, `mid` when it was flushed and `after` at the crash, and the log between.
pub record Recovery (pool : ℕ) (cs cs' : List Change) (n : ℕ) (es : List LogEntry) (p : Page)
    (pages : Pages) : Type 0 where
  pub mid : Handler
  pub after : Handler
  pub last : ℕ
  pub news : List LogEntry
  pub dirty_after : Bool
  pub runs_before : run cs (open_page (disk n es) pool p) ≡ some mid
  pub runs_after : run cs' mid ≡ some after
  pub logged : after.log.log_handler ≡ disk last (es ++ news)
  pub valid : IsValid after.page
  pub numbered : after.page.page_num ≡ p.page_num
  pub recovered : Pages
  pub recovers :
      replay_all news (put pool p.page_num (with_dirty false mid.page) pages)
      ≡ some (success, recovered)
  pub holds : recovered pool p.page_num ≡ found (with_dirty dirty_after after.page)
  pub keeps :
      (pool' num' : ℕ)
      → pool == pool' && p.page_num == num' ≡ false
      → recovered pool' num' ≡ pages pool' num'

-- From a valid page whose sequence number is not past the log's, any changes `cs` and then `cs'` that
-- are meant for this page run without fault. Replaying all the entries that both wrote, on buffer
-- pools that have the page as it was flushed between the runs, succeeds: the page is then as the runs
-- left it, up to the dirty flag, and every other page of every pool is as it was. The entries that the
-- flushed page already has are skipped, and the others give the same slots and bytes.
pub recovery :
    (pool : ℕ) (cs cs' : List Change) (n : ℕ) (es : List LogEntry) (p : Page) (pages : Pages)
    → IsValid p
    → p.lsn ≤ n
    → on_page p.page_num cs ≡ true
    → on_page p.page_num cs' ≡ true
    → Recovery pool cs cs' n es p pages
recovery pool cs cs' n es p pages v old own own' =
    let num = p.page_num in
    let r = redo pool num cs n es v old refl own in
    let t = redo pool num cs' r.last (es ++ r.news) r.valid r.flushed_in r.numbered own' in
    let flushed : Pages = put pool num (with_dirty false r.after) pages in
    let there : flushed pool num ≡ found (with_dirty false r.after) =
      put_found pool num (with_dirty false r.after) pages in
    let (last, (redone, (holds, others))) = t.replays false flushed there in
    record {
      mid = open_page (disk r.last (es ++ r.news)) pool r.after;
      after = open_page (disk t.last ((es ++ r.news) ++ t.news)) pool t.after;
      last = t.last;
      news = r.news ++ t.news;
      dirty_after = t.dirty_after false;
      runs_before = r.runs;
      runs_after = t.runs;
      logged = ap (disk t.last) (append_assoc es r.news t.news);
      valid = t.valid;
      numbered = t.numbered;
      recovered = last;
      recovers =
          replay_all-append r.news t.news flushed
            (r.skips (with_dirty false r.after) flushed there (omega arith))
          ∙ redone;
      holds = holds;
      keeps = λ pool' num' ne. others pool' num' ne ∙ rw ne refl;
    }
