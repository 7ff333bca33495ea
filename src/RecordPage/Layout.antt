-- ===== src/RecordPage/Layout.antt =====
-- Where the records of a page lie.
use native.Mathlib.Nat.{mul_comm, mul-div-le, le-div_iff_mul-le}
use native.Mathlib.Decide.{dec_lt}
use my_mini_ob.Base.{
  ℕ, zero, suc, ◌+◌, ◌-◌, ◌*◌, ◌/◌, ◌≤◌, ◌<◌, ◌≡◌, ◌⊎◌, inl, inr, refl, Bool-cases, arith, ltb,
  ltb→lt,
}
use my_mini_ob.RecordPage.{
  page_header_size, bp_page_data_size, align8, page_record_capacity, page_bitmap_size, fix_from,
  empty_header,
}

fix_from_fits :
    (n last size first : ℕ)
    → last ≡ first + n * size
    → first ≤ bp_page_data_size
    → (first + fix_from n last size * size ≤ bp_page_data_size) × (fix_from n last size ≤ n)
unfolding fix_from
fix_from_fits zero last size first e h = omega arith
fix_from_fits (suc n) last size first e h =
    ground (arith, fix_from_fits n (last - size) size first (grind arith) h)

one_more :
    (n last size first : ℕ) {m : ℕ}
    → last ≡ first + suc n * size
    → bp_page_data_size < last
    → (m ≡ n) ⊎ (bp_page_data_size < first + (m + 1) * size)
    → (m ≡ suc n) ⊎ (bp_page_data_size < first + (m + 1) * size)
one_more n last size first {m} e t (inl q) = inr (rw q (grind arith))
one_more n last size first {m} e t (inr q) = inr q

-- The loop stops as soon as the records fit.
fix_from_most :
    (n last size first : ℕ)
    → last ≡ first + n * size
    → (fix_from n last size ≡ n) ⊎ (bp_page_data_size < first + (fix_from n last size + 1) * size)
unfolding fix_from
fix_from_most zero last size first e = inl refl
fix_from_most (suc n) last size first e = elim (Bool-cases (ltb bp_page_data_size last)) [
  | inr f ↦ inl (rw f)
  | inl t ↦ rw t (
      one_more n last size first e (ltb→lt _ _ t)
        (fix_from_most n (last - size) size first (grind arith)))
]

div_bound : (n q r : ℕ) → q ≡ n / (8 * r + 1) → q * (8 * r + 1) ≤ n
div_bound n q r e = rw (e, mul_comm (n / (8 * r + 1)) (8 * r + 1)) (mul-div-le n (8 * r + 1))

capacity_bound : (r : ℕ) → 8 ≤ r → page_record_capacity bp_page_data_size r ≤ 1003
unfolding page_record_capacity
capacity_bound r h =
    let q : ℕ = 65240 / (8 * r + 1) in
    let m : q * 65 ≤ q * (8 * r + 1) = grind arith in omega (arith, div_bound 65240 q r refl)

front_fits :
    (capacity fixed : ℕ)
    → fixed ≤ capacity
    → page_header_size + page_bitmap_size fixed
      ≤ align8 (page_header_size + page_bitmap_size capacity)
unfolding align8 page_bitmap_size
front_fits capacity fixed h = omega arith

front_small :
    (capacity : ℕ)
    → capacity ≤ 1003
    → align8 (page_header_size + page_bitmap_size capacity) ≤ bp_page_data_size
unfolding align8 page_bitmap_size
front_small capacity h = omega arith

align8-le : (size : ℕ) → 0 < size → (size ≤ align8 size) × (8 ≤ align8 size)
unfolding align8
align8-le size h = omega arith

-- What `init_empty_page` lays out for records of a positive size: the header and the bitmap end
-- before the first record, the records end inside the page, and a record has room in its slot.
pub empty_header_fits :
    (record_size : ℕ)
    → 0 < record_size
    → let h = empty_header record_size in
      (page_header_size + page_bitmap_size h.record_capacity ≤ h.first_record_offset)
      × (h.first_record_offset + h.record_capacity * h.record_size ≤ bp_page_data_size)
      × (h.record_real_size ≤ h.record_size)
      × (h.record_num ≡ 0)
unfolding empty_header
empty_header_fits record_size p =
    let aligned : ℕ = align8 record_size in
    let capacity : ℕ = page_record_capacity bp_page_data_size aligned in
    let first : ℕ = align8 (page_header_size + page_bitmap_size capacity) in
    let small = capacity_bound aligned (align8-le record_size p).1 in
    let fixed =
      fix_from_fits capacity (first + capacity * aligned) aligned first refl
        (front_small capacity small) in
    (front_fits capacity _ fixed.1, fixed.0, (align8-le record_size p).0, refl)

align8-le_max : (size : ℕ) → size ≤ 8152 → align8 size ≤ 8152
unfolding align8
align8-le_max size h = omega arith

-- the capacity computed before the correction is one or more
capacity_pos : (r : ℕ) → r ≤ 8152 → 0 < page_record_capacity bp_page_data_size r
unfolding page_record_capacity
capacity_pos r h = (le-div_iff_mul-le {k = 8 * r + 1} (omega arith)).1 (omega arith)

front_of_one :
    (capacity : ℕ) → capacity ≤ 1 → align8 (page_header_size + page_bitmap_size capacity) ≤ 24
unfolding align8 page_bitmap_size
front_of_one capacity h = omega arith

front_max :
    (capacity : ℕ) → capacity ≤ 1003 → align8 (page_header_size + page_bitmap_size capacity) ≤ 152
unfolding align8 page_bitmap_size
front_max capacity h = omega arith

-- records of over 8000 bytes
capacity_of_large : (r : ℕ) → 8000 < r → page_record_capacity bp_page_data_size r ≤ 1
unfolding page_record_capacity
capacity_of_large r h =
    let q : ℕ = 65240 / (8 * r + 1) in
    let m : q * 64000 ≤ q * (8 * r + 1) = grind arith in omega (arith, div_bound 65240 q r refl)

holds :
    (r c first m : ℕ)
    → 8 ≤ r
    → r ≤ 8152
    → c ≡ page_record_capacity bp_page_data_size r
    → first ≡ align8 (page_header_size + page_bitmap_size c)
    → (m ≡ c) ⊎ (bp_page_data_size < first + (m + 1) * r)
    → 0 < m
holds r c first m lo hi ec ef (inl e) = rw (e, ec) (capacity_pos r hi)
holds r c first zero lo hi ec ef (inr q) = elim (dec_lt 8000 r) [
  | yes big ↦ absurd (omega (arith, front_of_one c (rw ec (capacity_of_large r big)), ef))
  | no small ↦ absurd (omega (arith, front_max c (rw ec (capacity_bound r lo)), ef))
]
holds r c first (suc m) lo hi ec ef (inr q) = omega arith

-- A page has room for at least one record, up to records of 8152 bytes.
pub empty_header_holds_a_record :
    (record_size : ℕ)
    → 0 < record_size
    → record_size ≤ 8152
    → 0 < (empty_header record_size).record_capacity
unfolding empty_header
empty_header_holds_a_record record_size p h =
    let aligned : ℕ = align8 record_size in
    let capacity : ℕ = page_record_capacity bp_page_data_size aligned in
    let first : ℕ = align8 (page_header_size + page_bitmap_size capacity) in
    holds aligned capacity first _ (align8-le record_size p).1 (align8-le_max record_size h) refl
      refl (fix_from_most capacity (first + capacity * aligned) aligned first refl)
