-- ===== src/BufferPool/Header.antt =====
-- The counts of the header page agree with its bitmap, and every operation keeps them so.
use my_mini_ob.Base.{
  ℕ, zero, suc, ◌*◌, ◌≤◌, ◌<◌, ◌≡◌, refl, sym, ap, ◌∙◌, Bool, true, false, arith, ◌==◌,
  if◌then◌else◌, length, length-replicate, replicate, get_or,
}
use my_mini_ob.Base.Int.{ℤ, pos, ◌+ℤ◌, ◌-ℤ◌}
use my_mini_ob.Base.Count.{count, count-eq, count-set, count-clear}
use my_mini_ob.Bitmap.{Bitmap, get_bit, set_bit, clear_bit}
use my_mini_ob.Bitmap
use my_mini_ob.Bitmap.Laws.{get_bit-set_bit, get_bit-clear_bit, set_bit-IsValid, clear_bit-IsValid}
use my_mini_ob.BufferPool.{BpFileHeader, bitmap_of, take_page, give_page, extend, create_file}

-- whether a page is allocated
abbrev pub bit : BpFileHeader → ℕ → Bool
bit h = get_bit (bitmap_of h)

-- the bitmap holds bytes, with a bit for every page; the count is that of the bits that are set
pub record IsValid (h : BpFileHeader) : Type 0 where
  pub room : h.page_count ≤ 8 * length h.bitmap
  pub is_byte : (i : ℕ) → get_or h.bitmap i 0 < 256
  pub counted : h.allocated_pages ≡ pos (count (bit h) h.page_count)

suc_ℤ : (a : ℤ) (n : ℕ) → a ≡ pos n → a +ℤ pos 1 ≡ pos (suc n)
unfolding ◌+ℤ◌
suc_ℤ a n e = rw e (ground arith)

pred_ℤ : (a : ℤ) (n : ℕ) → a ≡ pos (suc n) → a -ℤ pos 1 ≡ pos n
unfolding ◌-ℤ◌
pred_ℤ a n e = rw e (ground arith)

pub bits : {h : BpFileHeader} → IsValid h → Bitmap.Laws.IsValid (bitmap_of h)
bits v = record { room = v.room; is_byte = v.is_byte }

module _ (h : BpFileHeader) (b : Bitmap.Laws.IsValid (bitmap_of h)) (i : ℕ)
    (l : i < h.page_count) where
  pub bit-take_page : (j : ℕ) → bit (take_page i h) j ≡ (if i == j then true else bit h j)
  unfolding get_bit set_bit
  bit-take_page j = get_bit-set_bit b i l j

  pub bit-give_page : (j : ℕ) → bit (give_page i h) j ≡ (if i == j then false else bit h j)
  unfolding get_bit clear_bit
  bit-give_page j = get_bit-clear_bit b i l j

pub bit-extend : (h : BpFileHeader) (j : ℕ) → bit (extend h) j ≡ bit h j
unfolding get_bit
bit-extend h j = refl

module _ {h : BpFileHeader} (v : IsValid h) where
  pub take_page-IsValid : (i : ℕ) → i < h.page_count → bit h i ≡ false → IsValid (take_page i h)
  take_page-IsValid i l free =
      let valid = set_bit-IsValid (bits v) i l in
      record {
        room = unfold set_bit in valid.room;
        is_byte = valid.is_byte;
        counted =
            suc_ℤ h.allocated_pages (count (bit h) h.page_count) v.counted
            ∙ ap pos (
                sym (
                  count-eq (bit (take_page i h)) (λ j. if i == j then true else bit h j)
                    h.page_count (λ j k. bit-take_page h (bits v) i l j)
                  ∙ count-set (bit h) i h.page_count l free));
      }

  pub give_page-IsValid : (i : ℕ) → i < h.page_count → bit h i ≡ true → IsValid (give_page i h)
  give_page-IsValid i l taken =
      let valid = clear_bit-IsValid (bits v) i l in
      let cleared : count (λ j. if i == j then false else bit h j) h.page_count
          ≡ count (bit (give_page i h)) h.page_count =
        sym (
          count-eq (bit (give_page i h)) (λ j. if i == j then false else bit h j) h.page_count
            (λ j k. bit-give_page h (bits v) i l j)) in
      record {
        room = unfold clear_bit in valid.room;
        is_byte = valid.is_byte;
        counted =
            pred_ℤ h.allocated_pages _
              (v.counted ∙ ap pos (sym (count-clear (bit h) i h.page_count l taken)))
            ∙ ap pos cleared;
      }

  -- a page more, if the bitmap has a byte for it
  pub extend-IsValid :
      suc h.page_count ≤ 8 * length h.bitmap → IsValid (take_page h.page_count (extend h))
  extend-IsValid more =
      let n = h.page_count in
      let b : Bitmap.Laws.IsValid (bitmap_of (extend h)) = record {
        room = more;
        is_byte = v.is_byte;
      } in
      let valid = set_bit-IsValid b n (omega arith) in
      let last : bit (take_page n (extend h)) n ≡ true =
        bit-take_page (extend h) b n (omega arith) n ∙ ground arith in
      let others : count (bit (take_page n (extend h))) n ≡ count (bit h) n =
        count-eq (bit (take_page n (extend h))) (bit h) n (λ j k.
          bit-take_page (extend h) b n (omega arith) j
          ∙ (let apart : (n == j) ≡ false = ground arith in rw apart (bit-extend h j))) in
      record {
        room = unfold set_bit in valid.room;
        is_byte = valid.is_byte;
        counted =
            suc_ℤ h.allocated_pages (count (bit h) n) v.counted
            ∙ ap pos (rw (last, others) (omega arith));
      }

zero_bytes : (n i : ℕ) → get_or (replicate n 0) i 0 < 256
zero_bytes zero i = omega arith
zero_bytes (suc n) zero = omega arith
zero_bytes (suc n) (suc i) = zero_bytes n i

zeroed : (n : ℕ) → 0 < n → Bitmap.Laws.IsValid (record { bitmap = replicate n 0; size = 8 })
zeroed n l = record { room = omega (arith, length-replicate {A = ℕ} n 0); is_byte = zero_bytes n }

-- The header of a new file is valid if the bitmap has a byte.
pub create_file-IsValid : (n : ℕ) → 0 < n → IsValid (create_file (replicate n 0)).file_header
unfolding create_file set_bit get_bit
create_file-IsValid n l =
    let v = set_bit-IsValid (zeroed n l) 0 (omega arith) in
    let h = (create_file (replicate n 0)).file_header in
    let first : bit h 0 ≡ true = get_bit-set_bit (zeroed n l) 0 (omega arith) 0 in
    let room' : 8 ≤ 8 * length h.bitmap = v.room in
    record { room = omega (arith, room'); is_byte = v.is_byte; counted = rw first refl }
