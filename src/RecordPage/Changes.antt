-- ===== src/RecordPage/Changes.antt =====
-- What each change of a valid page does to its map of records, on every branch.
use native.Mathlib.Decide.{ℕ_discrete}
use mathlib.Core.Option
use my_mini_ob.Base.{
  ℕ, ◌≤◌, ◌<◌, ◌≡◌, ◌≢◌, ◌↔◌, ◌⊎◌, inl, inr, refl, true, false, Option, none, some, List, ◌==◌, leb,
  if◌then◌else◌, arith, Bool-cases, leb→le, ◌∙◌,
}
use my_mini_ob.Base.Memory.{read_at}
use my_mini_ob.Rc.{
  Rc, success, record_nomem, record_invalid_rid, invalid_argument, record_not_exist,
}
use my_mini_ob.Bitmap.{get_bit}
use my_mini_ob.RecordPage.{
  Page, Handler, Rid, bits, insert_at, insert_record, recover_insert_record, delete_record,
  update_record, get_record,
}
use my_mini_ob.RecordPage.View.{
  view, IsValid, occupied, written, view-occupied, occupied-IsValid, view-written, written-IsValid,
  view-vacated, vacated-IsValid, free_slot,
}

-- A slot is in use exactly if it has a record.
pub view_used :
    (p : Page) (j : ℕ) → j < p.record_capacity → get_bit (bits p) j ≡ true → view p j ≢ none
unfolding view
view_used p j h e = ground arith

pub view_free : (p : Page) (j : ℕ) → get_bit (bits p) j ≡ false → view p j ≡ none
unfolding view
view_free p j e = ground arith

pub view_out : (p : Page) (j : ℕ) → p.record_capacity ≤ j → view p j ≡ none
unfolding view
view_out p j e = ground arith

pub page-insert_at :
    (k : ℕ) (d : List ℕ) (h : Handler)
    → (insert_at k d h).page ≡ occupied (insert_at k d h).page.lsn k d h.page
unfolding insert_at
page-insert_at k d h = refl

-- What `insert_record` does to a valid page.
pub record Inserted (d : List ℕ) (h : Handler) (k : ℕ) : Type 0 where
  pub slot : k < h.page.record_capacity
  pub returns :
      insert_record d h
      ≡ some (success, some (record { page_num = h.page.page_num; slot_num = k }), insert_at k d h)
  pub was_free : view h.page k ≡ none
  pub views :
      (j : ℕ)
      → view (insert_at k d h).page j
        ≡ (if k == j then some (read_at d 0 h.page.record_real_size) else view h.page j)
  pub valid : IsValid (insert_at k d h).page

-- `insert_record` on a valid page either finds the page full, says so and changes nothing, or takes
-- a slot that was free, stores the record there, leaves the other slots alone and keeps the page
-- valid.
pub insert_record_lem :
    (d : List ℕ) (h : Handler)
    → IsValid h.page
    → ((h.page.record_num ≡ h.page.record_capacity)
        × (insert_record d h ≡ some (record_nomem, none, h)))
      ⊎ ((k : ℕ) × Inserted d h k)
insert_record_lem d h v = elim (ℕ_discrete h.page.record_num h.page.record_capacity) [
  | yes e ↦ inl (e, unfold insert_record in ground arith)
  | no ne ↦
      let (k, found, inside, clear) = free_slot v ne in
      inr (
        k,
        record {
          slot = inside;
          returns = unfold insert_record in ground (arith, found);
          was_free = view_free h.page k clear;
          views = λ j. rw (page-insert_at k d h) (view-occupied v _ k d inside j);
          valid = rw (page-insert_at k d h) (occupied-IsValid v _ k d inside clear);
        },
      )
]

-- A change of one slot: its record goes through `f` and the other slots stay; it succeeds exactly if
-- the slot has a record; and the page stays valid.
pub record Changed (p : Page) (slot : ℕ) (f : Option (List ℕ) → Option (List ℕ)) (r : Rc × Handler)
    : Type 0 where
  pub views : (j : ℕ) → view r.1.page j ≡ (if slot == j then f (view p j) else view p j)
  pub succeeds : (r.0 ≡ success) ↔ (view p slot ≢ none)
  pub valid : IsValid r.1.page

-- a refusal at an empty slot
refused :
    {h : Handler} (slot : ℕ) (f : Option (List ℕ) → Option (List ℕ)) (rc : Rc)
    → IsValid h.page
    → f none ≡ none
    → rc ≢ success
    → view h.page slot ≡ none
    → Changed h.page slot f (rc, h)
refused {h} slot f rc v e ne empty = record {
  views = λ j. elim (ℕ_discrete slot j) [
    | yes q ↦ let t : (slot == j) ≡ true = ground arith in rw (t, ← q, empty, e)
    | no q ↦ let t : (slot == j) ≡ false = ground arith in rw t
  ];
  succeeds = ((λ s. absurd (ne s)), (λ s. absurd (s empty)));
  valid = v;
}

abbrev pub remove : Option (List ℕ) → Option (List ℕ)
remove o = none

abbrev pub replace : List ℕ → Option (List ℕ) → Option (List ℕ)
replace new o = Option.map (λ _. new) o

invalid≢success : invalid_argument ≢ success
invalid≢success e = cc

absent≢success : record_not_exist ≢ success
absent≢success e = cc

-- `delete_record` on a valid page: the slot of the id has no record afterwards and the other slots keep
-- theirs; it succeeds exactly if there was a record; the page stays valid.
pub delete_record_lem :
    (h : Handler) (rid : Rid)
    → IsValid h.page
    → Changed h.page rid.slot_num remove (delete_record rid h)
unfolding delete_record
delete_record_lem h rid v = elim (Bool-cases (leb h.page.record_capacity rid.slot_num)) [
  | inl out ↦ rw out (
      refused rid.slot_num remove invalid_argument v refl invalid≢success
        (view_out h.page rid.slot_num (leb→le _ _ out)))
  | inr inside ↦ elim (Bool-cases (get_bit (bits h.page) rid.slot_num)) [
    | inl used ↦
        let hk : rid.slot_num < h.page.record_capacity = ground arith in
        rw (inside, used)
          (record {
            views = view-vacated v _ rid.slot_num hk;
            succeeds = ((λ s. view_used h.page rid.slot_num hk used), (λ s. refl));
            valid = vacated-IsValid v _ rid.slot_num hk used;
          })
    | inr free ↦
        rw (inside, free)
          (refused rid.slot_num remove record_not_exist v refl absent≢success
            (view_free h.page rid.slot_num free))
  ]
]

view-written_map :
    {p : Page} (l k : ℕ) (d : List ℕ) (j : ℕ)
    → IsValid p
    → k < p.record_capacity
    → get_bit (bits p) k ≡ true
    → view (written l k d p) j
      ≡ (if k == j then replace (read_at d 0 p.record_real_size) (view p j) else view p j)
unfolding view
view-written_map {p} l k d j v hk used = view-written v l k d hk j used ∙ ground arith

-- `update_record` on a valid page: if the slot of the id has a record, the front of the data replaces
-- it, and the other slots keep theirs; it succeeds exactly if there was a record; the page stays
-- valid.
pub update_record_lem :
    (h : Handler) (rid : Rid) (d : List ℕ)
    → IsValid h.page
    → Changed h.page rid.slot_num
        (replace (read_at d 0 h.page.record_real_size))
        (update_record rid d h)
unfolding update_record
update_record_lem h rid d v = elim (Bool-cases (leb h.page.record_capacity rid.slot_num)) [
  | inl out ↦ rw out (
      refused rid.slot_num _ invalid_argument v refl invalid≢success
        (view_out h.page rid.slot_num (leb→le _ _ out)))
  | inr inside ↦ elim (Bool-cases (get_bit (bits h.page) rid.slot_num)) [
    | inl used ↦
        let hk : rid.slot_num < h.page.record_capacity = ground arith in
        rw (inside, used)
          (record {
            views = λ j. view-written_map _ rid.slot_num d j v hk used;
            succeeds = ((λ s. view_used h.page rid.slot_num hk used), (λ s. refl));
            valid = written-IsValid v _ rid.slot_num d hk;
          })
    | inr free ↦
        rw (inside, free)
          (refused rid.slot_num _ record_not_exist v refl absent≢success
            (view_free h.page rid.slot_num free))
  ]
]

-- `get_record` gives the slot's record with the id asked for, or none, and succeeds exactly if
-- there is one.
pub get_record_lem :
    (rid : Rid) (p : Page)
    → ((get_record rid p).1
        ≡ Option.map (λ b. record { rid = rid; value = b }) (view p rid.slot_num))
      × (((get_record rid p).0 ≡ success) ↔ (view p rid.slot_num ≢ none))
unfolding get_record view
get_record_lem rid p = (ground arith, ((λ s. ground arith), (λ s. ground arith)))

-- `recover_insert_record` on a valid page puts the record into the slot that it is told, in use or
-- not, leaves the other slots alone and keeps the page valid; a slot out of range is refused and
-- nothing changes.
pub recover_insert_record_lem :
    (h : Handler) (d : List ℕ) (rid : Rid)
    → IsValid h.page
    → ((rid.slot_num < h.page.record_capacity)
        × ((recover_insert_record d rid h).0 ≡ success)
        × ((j : ℕ)
            → view (recover_insert_record d rid h).1.page j ≡ (
                if rid.slot_num == j
                then some (read_at d 0 h.page.record_real_size)
                else view h.page j))
        × IsValid (recover_insert_record d rid h).1.page)
      ⊎ ((h.page.record_capacity ≤ rid.slot_num)
          × (recover_insert_record d rid h ≡ (record_invalid_rid, h)))
unfolding recover_insert_record
recover_insert_record_lem h d rid v = elim (Bool-cases (leb h.page.record_capacity rid.slot_num)) [
  | inl out ↦ inr (leb→le _ _ out, rw out)
  | inr inside ↦
      let hk : rid.slot_num < h.page.record_capacity = ground arith in
      elim (Bool-cases (get_bit (bits h.page) rid.slot_num)) [
        | inl used ↦ inl (
            rw (inside, used)
              (
                hk,
                refl,
                (λ j. view-written v h.page.lsn rid.slot_num d hk j used),
                written-IsValid v h.page.lsn rid.slot_num d hk,
              ))
        | inr free ↦ inl (
            rw (inside, free)
              (
                hk,
                refl,
                view-occupied v h.page.lsn rid.slot_num d hk,
                occupied-IsValid v h.page.lsn rid.slot_num d hk free,
              ))
      ]
]
