-- ===== src/LatchMemo/Balance.antt =====
-- What a memo has taken it gives back.
use my_mini_ob.Base.{
  ℕ, zero, suc, ◌+◌, ◌≤◌, ◌<◌, ◌≡◌, refl, sym, ap, ◌∙◌, Bool, true, Option, some, List, [], ◌∷◌,
  ◌++◌, arith, leb, if◌then◌else◌, take, drop, take-append-drop, length, get_elem?,
}
use my_mini_ob.LatchMemo.{
  LatchMemoItem, shared, exclusive, pin, frame, lock, Call, get_this_page, unpin_page, write_latch,
  write_unlatch, read_latch, read_unlatch, lock_exclusive, unlock, lock_shared, unlock_shared,
  dispose, LatchMemo, release_item, called, released, and_then, release_from, release_to,
}

-- what a call takes, and what it gives back
abbrev pub taken_of : Call → List LatchMemoItem
taken_of (get_this_page f) = record { type = pin; on = frame f } ∷ []
taken_of (read_latch f) = record { type = shared; on = frame f } ∷ []
taken_of (write_latch f) = record { type = exclusive; on = frame f } ∷ []
taken_of (lock_shared l) = record { type = shared; on = lock l } ∷ []
taken_of (lock_exclusive l) = record { type = exclusive; on = lock l } ∷ []
taken_of (unpin_page f) = []
taken_of (read_unlatch f) = []
taken_of (write_unlatch f) = []
taken_of (unlock_shared l) = []
taken_of (unlock l) = []
taken_of (dispose p) = []

abbrev pub given_of : Call → List LatchMemoItem
given_of (unpin_page f) = record { type = pin; on = frame f } ∷ []
given_of (read_unlatch f) = record { type = shared; on = frame f } ∷ []
given_of (write_unlatch f) = record { type = exclusive; on = frame f } ∷ []
given_of (unlock_shared l) = record { type = shared; on = lock l } ∷ []
given_of (unlock l) = record { type = exclusive; on = lock l } ∷ []
given_of (get_this_page f) = []
given_of (read_latch f) = []
given_of (write_latch f) = []
given_of (lock_shared l) = []
given_of (lock_exclusive l) = []
given_of (dispose p) = []

-- a call that releases the item, and does no more
abbrev pub Releasable : LatchMemoItem → Type 0
Releasable x =
    (c : Call) × ((release_item x ≡ some c) × ((taken_of c ≡ []) × (given_of c ≡ x ∷ [])))

abbrev pub AllReleasable : List LatchMemoItem → Type 0
AllReleasable [] = zero ≡ zero
AllReleasable (x ∷ xs) = Releasable x × AllReleasable xs

pub AllReleasable-append :
    (xs : List LatchMemoItem) (x : LatchMemoItem)
    → AllReleasable xs
    → Releasable x
    → AllReleasable (xs ++ (x ∷ []))
AllReleasable-append [] x all r = (r, refl)
AllReleasable-append (y ∷ ys) x (s, all) r = (s, AllReleasable-append ys x all r)

pub AllReleasable-drop :
    (n : ℕ) (xs : List LatchMemoItem) → AllReleasable xs → AllReleasable (drop n xs)
AllReleasable-drop zero [] all = all
AllReleasable-drop zero (x ∷ xs) all = all
AllReleasable-drop (suc n) [] all = all
AllReleasable-drop (suc n) (x ∷ xs) (r, all) = AllReleasable-drop n xs all

-- the items that a test tells from the others
module _ (t : LatchMemoItem → Bool) where
  abbrev pub count_items : List LatchMemoItem → ℕ
  count_items [] = 0
  count_items (x ∷ xs) = (if t x then 1 else 0) + count_items xs

  abbrev pub taken : List Call → ℕ
  taken [] = 0
  taken (c ∷ cs) = count_items (taken_of c) + taken cs

  abbrev pub given : List Call → ℕ
  given [] = 0
  given (c ∷ cs) = count_items (given_of c) + given cs

  pub count_items-append :
      (xs ys : List LatchMemoItem) → count_items (xs ++ ys) ≡ count_items xs + count_items ys
  count_items-append [] ys = omega arith
  count_items-append (x ∷ xs) ys =
      let rest : count_items (xs ++ ys) ≡ count_items xs + count_items ys =
        count_items-append xs ys in
      omega arith

  count_items-take-drop :
      (n : ℕ) (xs : List LatchMemoItem)
      → count_items (take n xs) + count_items (drop n xs) ≡ count_items xs
  count_items-take-drop n xs =
      sym (count_items-append (take n xs) (drop n xs)) ∙ ap count_items (take-append-drop n xs)

-- the item before a place below the end, and what taking it in adds
get_elem?-some :
    (items : List LatchMemoItem) (i : ℕ)
    → AllReleasable items
    → i < length items
    → (x : LatchMemoItem) × ((get_elem? items i ≡ some x)
        × (Releasable x
            × ((t : LatchMemoItem → Bool)
                → count_items t (take (suc i) items)
                  ≡ count_items t (take i items) + count_items t (x ∷ []))))
get_elem?-some [] i all l = absurd (omega arith)
get_elem?-some (x ∷ xs) zero (r, all) l = (x, (refl, (r, λ t. omega arith)))
get_elem?-some (x ∷ xs) (suc i) (r, all) l =
    let (y, (e, (s, more))) = get_elem?-some xs i all (omega arith) in
    (
      y,
      (
        e,
        (
          s,
          λ t.
              let m : count_items t (take (suc i) xs)
                  ≡ count_items t (take i xs) + count_items t (y ∷ []) =
                more t in
              omega arith,
        ),
      ),
    )

-- calls that have given back the items and taken nothing
abbrev pub GivesBack : List LatchMemoItem → List Call → List Call → Type 0
GivesBack items before after =
    (t : LatchMemoItem → Bool)
    → (taken t after ≡ taken t before) × (given t after ≡ given t before + count_items t items)

release_from-GivesBack :
    (i : ℕ) (items : List LatchMemoItem) (calls : List Call)
    → AllReleasable items
    → i ≤ length items
    → (calls' : List Call) × ((release_from i items calls ≡ some calls')
        × GivesBack (take i items) calls calls')
unfolding release_from
release_from-GivesBack zero items calls all l = (calls, (refl, λ t. (refl, omega arith)))
release_from-GivesBack (suc i) items calls all l =
    let (x, (e, ((c, (is, (takes, gives))), more))) = get_elem?-some items i all (omega arith) in
    let (calls', (rest, back)) = release_from-GivesBack i items (c ∷ calls) all (omega arith) in
    (
      calls',
      (
        ap (λ (o : Option LatchMemoItem). and_then (released o calls) (λ d. release_from i items d))
              e
            ∙ ap (λ (o : Option Call). and_then (called o calls) (λ d. release_from i items d)) is
            ∙ rest,
        λ t.
            let m : count_items t (take (suc i) items)
                ≡ count_items t (take i items) + count_items t (x ∷ []) =
              more t in
            let took : count_items t (taken_of c) ≡ 0 = ap (count_items t) takes in
            let gave : count_items t (given_of c) ≡ count_items t (x ∷ []) =
              ap (count_items t) gives in
            let same : taken t calls' ≡ count_items t (taken_of c) + taken t calls = (back t).0 in
            let all_given : given t calls'
                ≡ count_items t (given_of c) + given t calls + count_items t (take i items) =
              (back t).1 in
            (omega arith, omega arith),
      ),
    )

-- every item of a memo can be released, and stands for a call that took it
abbrev pub Sound : LatchMemo → Type 0
Sound memo =
    AllReleasable memo.items
    × ((t : LatchMemoItem → Bool)
        → taken t memo.calls ≡ given t memo.calls + count_items t memo.items)

pub release_to-Sound :
    (point : ℕ) (memo : LatchMemo)
    → Sound memo
    → point ≤ length memo.items
    → (memo' : LatchMemo) × ((release_to point memo ≡ some memo')
        × (Sound memo' × (memo'.items ≡ drop point memo.items)))
unfolding release_to
release_to-Sound point memo (all, balanced) l =
    let (calls', (e, back)) = release_from-GivesBack point memo.items memo.calls all l in
    let fits : leb point (length memo.items) ≡ true = ground arith in
    (
      record memo { items = drop point memo.items; calls = calls' },
      (
        rw fits (
            ap
              (λ (o : Option (List Call)).
                and_then o (λ c. some (record memo { items = drop point memo.items; calls = c })))
              e),
        (
          (
            AllReleasable-drop point memo.items all,
            λ t.
                let (same, all_given) = back t in
                let before : taken t memo.calls ≡ given t memo.calls + count_items t memo.items =
                  balanced t in
                let parts = count_items-take-drop t point memo.items in omega arith,
          ),
          refl,
        ),
      ),
    )
