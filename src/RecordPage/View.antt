-- ===== src/RecordPage/View.antt =====
-- A valid page as the map from its slots to their records, and what the changes do to the map.
use native.Mathlib.Decide.{ℕ_discrete, dec_lt}
use my_mini_ob.Base.{
  ℕ, ◌+◌, ◌-◌, ◌*◌, ◌≤◌, ◌<◌, ◌≡◌, ◌≢◌, ◌⊎◌, inl, inr, refl, true, false, ◌&&◌, Option, none, some,
  List, ◌==◌, ltb, if◌then◌else◌, length, arith, sym,
}
use my_mini_ob.Base.Memory.{
  read_at, length-read_at, length-write_at, read_at-write_at_self, read_at-write_at_outside,
}
use my_mini_ob.Base.Count.{count, count-eq, count-set, count-clear, count-all}
use my_mini_ob.Base.First.{IsFirst}
use my_mini_ob.Bitmap.{get_bit, set_bit, clear_bit, next_unsetted_bit}
use my_mini_ob.Bitmap.Laws
use my_mini_ob.Bitmap.Laws.{
  get_bit-set_bit, get_bit-clear_bit, set_bit-IsValid, clear_bit-IsValid, size-set_bit,
  size-clear_bit,
}
use my_mini_ob.Bitmap.Search.{next_unsetted_bit-IsFirst}
use my_mini_ob.RecordPage.{Page, bits, record_data, recount, store}

-- the record in a slot, if the slot is in use
unfoldable pub view : Page → ℕ → Option (List ℕ)
view p j =
    if ltb j p.record_capacity && get_bit (bits p) j
    then some (read_at p.bytes (record_data p j) p.record_real_size)
    else none

pub record IsValid (p : Page) : Type 0 where
  pub bits_valid : Laws.IsValid (bits p)
  pub counted : p.record_num ≡ count (get_bit (bits p)) p.record_capacity
  pub room : p.first_record_offset + p.record_capacity * p.record_size ≤ length p.bytes
  pub fits : p.record_real_size ≤ p.record_size

-- Two slots do not overlap.
apart :
    (first size real i j : ℕ)
    → real ≤ size
    → i ≢ j
    → (first + size * i + real ≤ first + size * j) ⊎ (first + size * j + real ≤ first + size * i)
apart first size real i j h ne = elim (dec_lt i j) [
  | yes p ↦ inl (grind arith)
  | no p ↦ let q : j < i = omega arith in inr (grind arith)
]

in_page :
    (first size real cap len i : ℕ)
    → real ≤ size
    → first + cap * size ≤ len
    → i < cap
    → first + size * i + real ≤ len
in_page first size real cap len i h k l = grind arith

module _ {p : Page} (v : IsValid p) (k : ℕ) (d : List ℕ) (hk : k < p.record_capacity) where
  abbrev new : List ℕ
  new = read_at d 0 p.record_real_size

  -- the record of a slot after slot `k` has been written
  read-store :
      (j : ℕ)
      → read_at (store k d p).bytes (record_data p j) p.record_real_size
        ≡ (if k == j then new else read_at p.bytes (record_data p j) p.record_real_size)
  read-store j = elim (ℕ_discrete k j) [
    | yes e ↦
        let t : (k == j) ≡ true = ground arith in
        rw (t, ← e)
          (read_at-write_at_self p.bytes (record_data p k) new p.record_real_size
            (rw length-read_at (
              in_page p.first_record_offset p.record_size p.record_real_size p.record_capacity
                (length p.bytes) k v.fits v.room hk))
            (rw length-read_at))
    | no ne ↦
        let t : (k == j) ≡ false = ground arith in
        rw t (
          read_at-write_at_outside p.bytes (record_data p k) new (record_data p j)
            p.record_real_size
            (rw length-read_at (
              apart p.first_record_offset p.record_size p.record_real_size j k v.fits
                (λ e. ne (sym e)))))
  ]

-- The pages that the changes leave, whatever sequence number they get.
abbrev pub occupied : ℕ → ℕ → List ℕ → Page → Page
occupied l k d p = record (store k d (recount p (set_bit (bits p) k) (p.record_num + 1))) {
  lsn = l;
}

abbrev pub vacated : ℕ → ℕ → Page → Page
vacated l k p = record (recount p (clear_bit (bits p) k) (p.record_num - 1)) {
  lsn = l;
  dirty = true;
}

abbrev pub written : ℕ → ℕ → List ℕ → Page → Page
written l k d p = record (store k d p) { lsn = l }

module _ {p : Page} (v : IsValid p) (l k : ℕ) (d : List ℕ) (hk : k < p.record_capacity) where
  pub view-occupied :
      (j : ℕ)
      → view (occupied l k d p) j
        ≡ (if k == j then some (read_at d 0 p.record_real_size) else view p j)
  unfolding view set_bit
  view-occupied j = ground (arith, get_bit-set_bit v.bits_valid k hk j, read-store v k d hk j)

  pub occupied-IsValid : get_bit (bits p) k ≡ false → IsValid (occupied l k d p)
  unfolding set_bit
  occupied-IsValid e = record {
    bits_valid = set_bit-IsValid v.bits_valid k hk;
    counted = omega (
      arith,
      count-set (get_bit (bits p)) k p.record_capacity hk e,
      count-eq (get_bit (set_bit (bits p) k)) (λ j. if k == j then true else get_bit (bits p) j)
          p.record_capacity (λ j _. get_bit-set_bit v.bits_valid k hk j),
      v.counted,
    );
    room =
        omega (
          arith,
          length-write_at p.bytes (record_data p k) (read_at d 0 p.record_real_size),
          v.room,
        );
    fits = v.fits;
  }

  -- A record written over another one.
  pub view-written :
      (j : ℕ)
      → get_bit (bits p) k ≡ true
      → view (written l k d p) j
        ≡ (if k == j then some (read_at d 0 p.record_real_size) else view p j)
  unfolding view
  view-written j e = ground (arith, read-store v k d hk j)

  pub written-IsValid : IsValid (written l k d p)
  written-IsValid = record {
    bits_valid = v.bits_valid;
    counted = v.counted;
    room =
        omega (
          arith,
          length-write_at p.bytes (record_data p k) (read_at d 0 p.record_real_size),
          v.room,
        );
    fits = v.fits;
  }

module _ {p : Page} (v : IsValid p) (l k : ℕ) (hk : k < p.record_capacity) where
  pub view-vacated : (j : ℕ) → view (vacated l k p) j ≡ (if k == j then none else view p j)
  unfolding view clear_bit
  view-vacated j = ground (arith, get_bit-clear_bit v.bits_valid k hk j)

  pub vacated-IsValid : get_bit (bits p) k ≡ true → IsValid (vacated l k p)
  unfolding clear_bit
  vacated-IsValid e = record {
    bits_valid = clear_bit-IsValid v.bits_valid k hk;
    counted = omega (
      arith,
      count-clear (get_bit (bits p)) k p.record_capacity hk e,
      count-eq (get_bit (clear_bit (bits p) k)) (λ j. if k == j then false else get_bit (bits p) j)
          p.record_capacity (λ j _. get_bit-clear_bit v.bits_valid k hk j),
      v.counted,
    );
    room = v.room;
    fits = v.fits;
  }

-- A valid page that is not full has a free slot, and the search finds the first.
pub free_slot :
    {p : Page}
    → IsValid p
    → p.record_num ≢ p.record_capacity
    → (k : ℕ) × (next_unsetted_bit (bits p) 0 ≡ some k)
      × (k < p.record_capacity)
      × (get_bit (bits p) k ≡ false)
free_slot {p} v ne = go (next_unsetted_bit (bits p) 0) refl (next_unsetted_bit-IsFirst (bits p) 0)
  where
    go :
        (r : Option ℕ)
        → next_unsetted_bit (bits p) 0 ≡ r
        → IsFirst (get_bit (bits p)) false 0 p.record_capacity r
        → (k : ℕ) × (next_unsetted_bit (bits p) 0 ≡ some k)
          × (k < p.record_capacity)
          × (get_bit (bits p) k ≡ false)
    go none e f = absurd (
        omega (
          arith,
          v.counted,
          ne,
          count-all (get_bit (bits p)) p.record_capacity (λ j h. f j (omega arith) h),
        ))
    go (some k) e f = (k, e, f.1, f.2)
