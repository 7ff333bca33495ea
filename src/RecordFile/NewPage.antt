-- ===== src/RecordFile/NewPage.antt =====
-- A page that is laid out anew is valid and holds no record.
use my_mini_ob.Base.{
  ℕ, zero, suc, ◌+◌, ◌*◌, ◌/◌, ◌%◌, ◌≤◌, ◌<◌, ◌≡◌, refl, sym, ◌∙◌, Bool, false, none, arith, length,
  length-replicate, replicate, get_or,
}
use my_mini_ob.Base.Count.{count}
use my_mini_ob.Bitmap.{get_bit}
use my_mini_ob.Bitmap.Bytes.{test_bit-zero}
use my_mini_ob.RecordPage.{
  Page, Handler, bits, empty_header, page_bitmap_size, init_empty_page, bp_page_data_size,
}
use my_mini_ob.RecordPage.Layout.{empty_header_fits}
use my_mini_ob.RecordPage.View.{view, IsValid}

get_or-replicate : (n i : ℕ) → get_or {A = ℕ} (replicate n 0) i 0 ≡ 0
get_or-replicate zero i = refl
get_or-replicate (suc n) zero = refl
get_or-replicate (suc n) (suc i) = get_or-replicate n i

count-none : (p : ℕ → Bool) (n : ℕ) → ((j : ℕ) → p j ≡ false) → count p n ≡ 0
count-none p zero h = refl
count-none p (suc n) h = ground (arith, count-none p n h, h n)

module _ (record_size : ℕ) (h : Handler) where
  abbrev laid_out : Page
  laid_out = (init_empty_page record_size h).1.page

  no_bits : (j : ℕ) → get_bit (bits laid_out) j ≡ false
  unfolding init_empty_page get_bit
  no_bits j =
      let n = page_bitmap_size (empty_header record_size).record_capacity in
      rw (get_or-replicate n (j / 8)) (test_bit-zero (j % 8) (omega arith))

  pub init_empty_page-view : (j : ℕ) → view laid_out j ≡ none
  unfolding view
  init_empty_page-view j = let e = no_bits j in ground arith

  zero_bytes : (i : ℕ) → get_or laid_out.bitmap i 0 < 256
  unfolding init_empty_page
  zero_bytes i =
      let e = get_or-replicate (page_bitmap_size (empty_header record_size).record_capacity) i in
      omega (arith, e)

  room_for_bits : laid_out.record_capacity ≤ 8 * length laid_out.bitmap
  unfolding init_empty_page page_bitmap_size
  room_for_bits =
      let n = ((empty_header record_size).record_capacity + 7) / 8 in
      omega (arith, length-replicate {A = ℕ} n 0)

  pub init_empty_page-IsValid :
      0 < record_size → length h.page.bytes ≡ bp_page_data_size → IsValid laid_out
  unfolding init_empty_page
  init_empty_page-IsValid p whole =
      let fits = empty_header_fits record_size p in
      record {
        bits_valid = record { room = room_for_bits; is_byte = zero_bytes };
        counted =
            fits.3 ∙ sym (count-none (get_bit (bits laid_out)) laid_out.record_capacity no_bits);
        room = omega (arith, fits.1, whole);
        fits = fits.2;
      }
