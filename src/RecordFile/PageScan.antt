-- ===== src/RecordFile/PageScan.antt =====
-- The records that a scan gives of one page.
use my_mini_ob.Base.{
  ℕ, zero, suc, ◌+◌, ◌-◌, ◌<◌, ◌≡◌, refl, ap, ◌∙◌, Bool, Bool-cases, inl, inr, Option, none, some,
  List, [], ◌∷◌, arith, length, if◌then◌else◌,
}
use my_mini_ob.Base.Memory.{read_at}
use my_mini_ob.Base.Places.{places, length-places, remaining, remaining-IsFirst}
use my_mini_ob.Rc.{Rc, success, record_eof}
use my_mini_ob.Bitmap.{get_bit, next_setted_bit}
use my_mini_ob.Bitmap.Search.{next_setted_bit-IsFirst}
use my_mini_ob.RecordPage.{Page, Record, bits, record_data, iterator_init, iterator_next}
use my_mini_ob.RecordFile.{filtered_out, fetch_from, fetch_next_record_in_page}

-- the record in a slot
abbrev pub slot_record : Page → ℕ → Record
slot_record p slot = record {
  rid = record { page_num = p.page_num; slot_num = slot };
  value = read_at p.bytes (record_data p slot) p.record_real_size;
}

-- the records of the slots, less those that the filter does not pass
abbrev pub passed : Option (Record → Bool) → Page → List ℕ → List Record
passed filter p [] = []
passed filter p (slot ∷ slots) =
    if filtered_out filter (slot_record p slot)
    then passed filter p slots
    else slot_record p slot ∷ passed filter p slots

-- the slots that the iterator has not given yet
abbrev pub slots_left : Page → Option ℕ → List ℕ
slots_left p slot = remaining (get_bit (bits p)) p.record_capacity slot

slots_left-next :
    (p : Page) (i : ℕ)
    → slots_left p (next_setted_bit (bits p) i)
      ≡ places (get_bit (bits p)) (p.record_capacity - i) i
slots_left-next p i =
    remaining-IsFirst (get_bit (bits p)) i p.record_capacity (next_setted_bit (bits p) i)
      (next_setted_bit-IsFirst (bits p) i)

-- A search in a page gives the first record that passes and leaves the others, or none if none does.
abbrev pub Fetches :
    Option (Record → Bool) → Page → Option ℕ → Rc × Option Record × Option ℕ → Type 0
Fetches filter p slot (rc, none, slot') =
    (rc ≡ record_eof) × (passed filter p (slots_left p slot) ≡ [])
Fetches filter p slot (rc, some r, slot') =
    (rc ≡ success)
    × (passed filter p (slots_left p slot) ≡ r ∷ passed filter p (slots_left p slot'))

slots_left-after :
    (p : Page) (k : ℕ)
    → slots_left p (next_setted_bit (bits p) (k + 1))
      ≡ places (get_bit (bits p)) (p.record_capacity - suc k) (suc k)
slots_left-after p k =
    let e : k + 1 ≡ suc k = omega arith in
    slots_left-next p (k + 1)
    ∙ ap (λ (i : ℕ). places (get_bit (bits p)) (p.record_capacity - i) i) e

Fetches-skip :
    (filter : Option (Record → Bool)) (p : Page) (slot slot' : Option ℕ)
    (r : Rc × Option Record × Option ℕ)
    → passed filter p (slots_left p slot) ≡ passed filter p (slots_left p slot')
    → Fetches filter p slot' r
    → Fetches filter p slot r
Fetches-skip filter p slot slot' (rc, none, o) e (c, f) = (c, e ∙ f)
Fetches-skip filter p slot slot' (rc, some r, o) e (c, f) = (c, e ∙ f)

fetch_from-Fetches :
    (filter : Option (Record → Bool)) (p : Page) (rounds : ℕ) (slot : Option ℕ)
    → length (slots_left p slot) < rounds
    → Fetches filter p slot (fetch_from rounds filter p slot)
unfolding fetch_from iterator_next
fetch_from-Fetches filter p zero slot l = absurd (omega arith)
fetch_from-Fetches filter p (suc rounds) none l = (refl, refl)
fetch_from-Fetches filter p (suc rounds) (some k) l =
    let slot' = next_setted_bit (bits p) (k + 1) in
    let after = slots_left-after p k in
    let shorter : length (slots_left p slot') < rounds = rw after (omega arith) in
    elim (Bool-cases (filtered_out filter (slot_record p k))) [
      | inl y ↦ rw y (
          Fetches-skip filter p (some k) slot' (fetch_from rounds filter p slot')
            (rw (y, after) refl) (fetch_from-Fetches filter p rounds slot' shorter))
      | inr n ↦ rw n (refl, rw (n, after) refl)
    ]

length-slots_left :
    (p : Page) (slot : Option ℕ) → length (slots_left p slot) < p.record_capacity + 2
length-slots_left p none = omega arith
length-slots_left p (some k) =
    let h = length-places (get_bit (bits p)) (p.record_capacity - suc k) (suc k) in omega arith

pub fetch_next_record_in_page-Fetches :
    (filter : Option (Record → Bool)) (p : Page) (slot : Option ℕ)
    → Fetches filter p slot (fetch_next_record_in_page filter p slot)
unfolding fetch_next_record_in_page
fetch_next_record_in_page-Fetches filter p slot =
    fetch_from-Fetches filter p (p.record_capacity + 2) slot (length-slots_left p slot)

-- all the records of a page that pass
abbrev pub page_records : Option (Record → Bool) → Page → List Record
page_records filter p = passed filter p (places (get_bit (bits p)) p.record_capacity 0)

pub slots_left-start :
    (p : Page) → slots_left p (iterator_init p 0) ≡ places (get_bit (bits p)) p.record_capacity 0
unfolding iterator_init
slots_left-start p =
    let e : p.record_capacity - 0 ≡ p.record_capacity = omega arith in
    slots_left-next p 0 ∙ ap (λ (n : ℕ). places (get_bit (bits p)) n 0) e
