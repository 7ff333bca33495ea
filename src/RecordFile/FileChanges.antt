-- ===== src/RecordFile/FileChanges.antt =====
-- What an insertion does to the records of a file.
use native.Mathlib.Decide.{ℕ_discrete}
use my_mini_ob.Base.{
  ℕ, ◌≤◌, ◌<◌, ◌≡◌, ◌≢◌, refl, sym, ap, ◌∙◌, Bool, true, false, ◌&&◌, Bool-cases, inl, inr, Option,
  none, some, List, [], ◌∷◌, arith, ◌==◌, if◌then◌else◌, length,
}
use my_mini_ob.Base.Memory.{read_at}
use my_mini_ob.Rc.{Rc, success, ob_succ}
use my_mini_ob.RecordPage.{
  Page, Handler, Rid, is_full, init_empty_page, insert_at, insert_record, bp_page_data_size,
}
use my_mini_ob.RecordPage.View.{view, IsValid}
use my_mini_ob.RecordPage.Layout.{empty_header_fits, empty_header_holds_a_record}
use my_mini_ob.RecordPage.Changes.{Inserted, insert_record_lem, page-insert_at}
use my_mini_ob.RecordFile.FileHandler.{
  RecordFileHandler, handler_of, put_page, add_free_page, find_free_page, inserted_in,
  insert_in_new, insert_in_found, insert_in_file,
}
use my_mini_ob.RecordFile.NewPage.{init_empty_page-view, init_empty_page-IsValid}

-- the record with an id
abbrev pub file_view : RecordFileHandler → Rid → Option (List ℕ)
file_view f q = view (f.pages q.page_num) q.slot_num

abbrev pub same_rid : Rid → Rid → Bool
same_rid a b = a.page_num == b.page_num && a.slot_num == b.slot_num

-- the pages in the list are valid
abbrev pub AllValid : (ℕ → Page) → List ℕ → Type 0
AllValid pages [] = Unit
AllValid pages (n ∷ ns) = IsValid (pages n) × AllValid pages ns

AllValid-put :
    (pages : ℕ → Page) (n : ℕ) (p : Page) (ns : List ℕ)
    → IsValid p
    → AllValid pages ns
    → AllValid (λ q. if q == n then p else pages q) ns
AllValid-put pages n p [] v all = tt
AllValid-put pages n p (m ∷ ns) v (w, all) = elim (Bool-cases (m == n)) [
  | inl y ↦ (rw y v, AllValid-put pages n p ns v all)
  | inr x ↦ (rw x w, AllValid-put pages n p ns v all)
]

AllValid-add :
    (pages : ℕ → Page) (n : ℕ) (ns : List ℕ)
    → IsValid (pages n)
    → AllValid pages ns
    → AllValid pages (add_free_page n ns)
unfolding add_free_page
AllValid-add pages n [] v all = (v, tt)
AllValid-add pages n (m ∷ ns) v (w, all) = elim (Bool-cases (m == n)) [
  | inl y ↦ rw y (w, all)
  | inr x ↦ rw x (w, AllValid-add pages n ns v all)
]

-- The page found is valid and has room.
abbrev FindsFree : (ℕ → Page) → Rc × Option ℕ × List ℕ → Type 0
FindsFree pages (rc, none, ns) = AllValid pages ns
FindsFree pages (rc, some n, ns) =
    IsValid (pages n) × ((is_full (pages n) ≡ false) × AllValid pages ns)

find_free_page-FindsFree :
    (opens : ℕ → Rc) (pages : ℕ → Page) (ns : List ℕ)
    → AllValid pages ns
    → FindsFree pages (find_free_page opens pages ns)
unfolding find_free_page
find_free_page-FindsFree opens pages [] all = tt
find_free_page-FindsFree opens pages (n ∷ ns) (v, all) = elim (Bool-cases (ob_succ (opens n))) [
  | inr x ↦ rw x (v, all)
  | inl y ↦ elim (Bool-cases (is_full (pages n))) [
    | inl full ↦ rw (y, full) (find_free_page-FindsFree opens pages ns all)
    | inr room ↦ rw (y, room) (v, (room, (v, all)))
  ]
]

-- A refusal changes no record; an insertion takes an id without a record, and changes no other.
abbrev pub Stores : List ℕ → RecordFileHandler → Rc × Option Rid × RecordFileHandler → Type 0
Stores d f (rc, none, f') = (ob_succ rc ≡ false) × ((q : Rid) → file_view f' q ≡ file_view f q)
Stores d f (rc, some rid, f') =
    (rc ≡ success)
    × ((file_view f rid ≡ none)
        × ((q : Rid)
            → file_view f' q ≡ (
                if same_rid rid q
                then some (read_at d 0 (f'.pages rid.page_num).record_real_size)
                else file_view f q)))

-- what holds after an insertion that returns
abbrev pub Returns :
    List ℕ → RecordFileHandler → Option (Rc × Option Rid × RecordFileHandler) → Type 0
Returns d f result =
    (r : Rc × Option Rid × RecordFileHandler) × ((result ≡ some r)
      × (Stores d f r × AllValid r.2.pages r.2.free_pages))

-- the insertion into a page with room, which held what page `n` of the file held
module _ (d : List ℕ) (n : ℕ) (f f' : RecordFileHandler) (h : Handler) (v : IsValid h.page)
    (numbered : h.page.page_num ≡ n) (room : h.page.record_num ≢ h.page.record_capacity)
    (before : (j : ℕ) → view h.page j ≡ view (f.pages n) j)
    (others : (q : ℕ) → (q == n) ≡ false → f'.pages q ≡ f.pages q)
    (all : AllValid f'.pages f'.free_pages) where
  -- the file after slot `k` of the page has taken the record
  module _ (k : ℕ) (i : Inserted d h k) where
    abbrev after : RecordFileHandler
    after = put_page n (insert_at k d h) f'

    abbrev id : Rid
    id = record { page_num = n; slot_num = k }

    here : (n == n) ≡ true
    here = ground arith

    real_size : (after.pages n).record_real_size ≡ h.page.record_real_size
    real_size = rw (here, page-insert_at k d h) refl

    views-in :
        (j : ℕ)
        → view (insert_at k d h).page j ≡ (
            if k == j
            then some (read_at d 0 (after.pages n).record_real_size)
            else view (f.pages n) j)
    views-in j = i.views j ∙ rw (real_size, before j) refl

    views-after :
        (q : Rid)
        → file_view after q ≡ (
            if same_rid id q
            then some (read_at d 0 (after.pages n).record_real_size)
            else file_view f q)
    views-after q = elim (ℕ_discrete q.page_num n) [
      | yes e ↦
          let y : (q.page_num == n) ≡ true = ground arith in
          let y' : (n == q.page_num) ≡ true = ground arith in
          rw (y, y')
            (views-in q.slot_num
              ∙ ap
                  (λ (x : ℕ).
                    if k == q.slot_num
                    then some (read_at d 0 (after.pages n).record_real_size)
                    else view (f.pages x) q.slot_num)
                  (sym e))
      | no ne ↦
          let x : (q.page_num == n) ≡ false = ground arith in
          let x' : (n == q.page_num) ≡ false = ground arith in
          rw (x, x') (ap (λ (p : Page). view p q.slot_num) (others q.page_num x))
    ]

    inserted_in-some : Returns d f (inserted_in n f' (insert_record d h))
    inserted_in-some =
        let returned =
          i.returns
          ∙ ap
              (λ (x : ℕ).
                some (success, some (record { page_num = x; slot_num = k }), insert_at k d h))
              numbered in
        (
          (success, some id, after),
          (
            ap (inserted_in n f') returned,
            (
              (refl, (sym (before k) ∙ i.was_free, views-after)),
              AllValid-put f'.pages n (insert_at k d h).page f'.free_pages i.valid all,
            ),
          ),
        )

  inserted_in-Returns : Returns d f (inserted_in n f' (insert_record d h))
  inserted_in-Returns = elim (insert_record_lem d h v) [
    | inl (full, e) ↦ absurd (room full)
    | inr (k, i) ↦ inserted_in-some k i
  ]

room-is_full : (p : Page) → is_full p ≡ false → p.record_num ≢ p.record_capacity
unfolding is_full
room-is_full p x e = ground arith

init_empty_page-page_num :
    (record_size : ℕ) (h : Handler)
    → (init_empty_page record_size h).1.page.page_num ≡ h.page.page_num
unfolding init_empty_page
init_empty_page-page_num record_size h = refl

init_empty_page-room :
    (record_size : ℕ) (h : Handler)
    → 0 < record_size
    → record_size ≤ 8152
    → (init_empty_page record_size h).1.page.record_num
      ≢ (init_empty_page record_size h).1.page.record_capacity
unfolding init_empty_page
init_empty_page-room record_size h p l e =
    let none_yet = (empty_header_fits record_size p).3 in
    let some_room = empty_header_holds_a_record record_size p l in omega arith

module _ (opens : ℕ → Rc) (allocated : Rc × ℕ) (d : List ℕ) (record_size : ℕ)
    (f : RecordFileHandler) (numbered : (q : ℕ) → (f.pages q).page_num ≡ q)
    (positive : 0 < record_size) (small : record_size ≤ 8152)
    (blank : ob_succ allocated.0 ≡ true
      → (length (f.pages allocated.1).bytes ≡ bp_page_data_size)
        × ((j : ℕ) → view (f.pages allocated.1) j ≡ none)) where
  insert_in_new-Returns :
      AllValid f.pages f.free_pages → Returns d f (insert_in_new opens allocated d record_size f)
  insert_in_new-Returns all = elim (Bool-cases (ob_succ allocated.0)) [
    | inr x ↦ rw x ((allocated.0, none, f), (refl, ((x, λ q. refl), all)))
    | inl y ↦ elim (Bool-cases (ob_succ (opens allocated.1))) [
      | inr x ↦ rw (y, x) ((opens allocated.1, none, f), (refl, ((x, λ q. refl), all)))
      | inl z ↦
          let n = allocated.1 in
          let start = handler_of f n in
          let h = (init_empty_page record_size start).1 in
          let pages : ℕ → Page = λ q. if q == n then h.page else f.pages q in
          let f' : RecordFileHandler = record (put_page n h f) {
            free_pages = add_free_page n f.free_pages;
          } in
          let (whole, empty) = blank y in
          let v = init_empty_page-IsValid record_size start positive whole in
          let here : (n == n) ≡ true = ground arith in
          rw (y, z)
            (inserted_in-Returns d n f f' h v
              (init_empty_page-page_num record_size start ∙ numbered n)
              (init_empty_page-room record_size start positive small)
              (λ j. init_empty_page-view record_size start j ∙ sym (empty j)) (λ q x. rw x refl)
              (AllValid-add pages n f.free_pages (rw here v)
                (AllValid-put f.pages n h.page f.free_pages v all)))
    ]
  ]

insert_in_found-Returns :
    (opens : ℕ → Rc) (allocated : Rc × ℕ) (d : List ℕ) (record_size : ℕ) (f : RecordFileHandler)
    (rc : Rc) (page : Option ℕ) (ns : List ℕ)
    → ((q : ℕ) → (f.pages q).page_num ≡ q)
    → 0 < record_size
    → record_size ≤ 8152
    → (ob_succ allocated.0 ≡ true
        → (length (f.pages allocated.1).bytes ≡ bp_page_data_size)
          × ((j : ℕ) → view (f.pages allocated.1) j ≡ none))
    → FindsFree f.pages (rc, page, ns)
    → Returns d f
        (insert_in_found opens allocated d record_size (rc, page) (record f { free_pages = ns }))
insert_in_found-Returns opens allocated d record_size f rc (some n) ns numbered positive small blank
      (v, (x, all)) =
    inserted_in-Returns d n f (record f { free_pages = ns }) (handler_of f n) v (numbered n)
      (room-is_full (f.pages n) x) (λ j. refl) (λ q y. refl) all
insert_in_found-Returns opens allocated d record_size f rc none ns numbered positive small blank
      all =
    let f' : RecordFileHandler = record f { free_pages = ns } in
    elim (Bool-cases (ob_succ rc)) [
      | inr x ↦ rw x ((rc, none, f'), (refl, ((x, λ q. refl), all)))
      | inl y ↦
          rw y (
            insert_in_new-Returns opens allocated d record_size f' numbered positive small blank
              all)
    ]

-- The pages known to have room are valid, a page bears its own number, a page that is newly allocated is
-- whole and holds no record, and the record size is from 1 to 8152. Then an insertion returns. If it
-- succeeds, its id had no record and has the front of the data now, and every other record of the file
-- is as before; if it is refused, every record is as before. The pages known to have room are valid
-- again.
pub insert_in_file_lem :
    (opens : ℕ → Rc) (allocated : Rc × ℕ) (d : List ℕ) (record_size : ℕ) (f : RecordFileHandler)
    → AllValid f.pages f.free_pages
    → ((q : ℕ) → (f.pages q).page_num ≡ q)
    → 0 < record_size
    → record_size ≤ 8152
    → (ob_succ allocated.0 ≡ true
        → (length (f.pages allocated.1).bytes ≡ bp_page_data_size)
          × ((j : ℕ) → view (f.pages allocated.1) j ≡ none))
    → Returns d f (insert_in_file opens allocated d record_size f)
unfolding insert_in_file
insert_in_file_lem opens allocated d record_size f all numbered positive small blank =
    let (rc, page, ns) = find_free_page opens f.pages f.free_pages in
    insert_in_found-Returns opens allocated d record_size f rc page ns numbered positive small blank
      (find_free_page-FindsFree opens f.pages f.free_pages all)
