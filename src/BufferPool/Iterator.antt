-- ===== src/BufferPool/Iterator.antt =====
-- The walk over the allocated pages of a file.
use mathlib.Core.Path.{subst}
use my_mini_ob.Base.{
  ℕ, zero, suc, ◌+◌, ◌-◌, ◌<◌, ◌≡◌, refl, sym, ap, ◌∙◌, true, Option-cases, inl, inr, none, some,
  List, [], ◌∷◌, arith,
}
use my_mini_ob.Base.Places.{places, places-none, places-first}
use my_mini_ob.Base.First.{IsFirst}
use my_mini_ob.Bitmap.{Bitmap, get_bit, next_setted_bit}
use my_mini_ob.Bitmap.Search.{next_setted_bit-IsFirst}
use my_mini_ob.BufferPool.{
  DiskBufferPool, BufferPoolIterator, bitmap_of, init, has_next, next, pages_from,
}
use my_mini_ob.BufferPool.Header.{bit}

module _ (b : Bitmap) where
  abbrev at : ℕ → BufferPoolIterator
  at i = record { bitmap = b; next_page_num = i }

  -- the walk goes on after a page that is allocated
  pages_from-some :
      (m i k : ℕ)
      → next_setted_bit b i ≡ some k
      → pages_from (suc m) (at i) ≡ k ∷ pages_from m (at (suc k))
  unfolding pages_from next has_next
  pages_from-some m i k e = rw e refl

  pages_from-none : (m i : ℕ) → next_setted_bit b i ≡ none → pages_from (suc m) (at i) ≡ []
  unfolding pages_from next has_next
  pages_from-none m i e = rw e refl

  pages_from-places :
      (m n i : ℕ) → i + n ≡ b.size → n < m → pages_from m (at i) ≡ places (get_bit b) n i
  pages_from-places zero n i e l = absurd (omega arith)
  pages_from-places (suc m) n i e l = elim (Option-cases (next_setted_bit b i)) [
    | inl end ↦
        pages_from-none m i end
        ∙ sym (
            places-none (get_bit b) n i
              (rw e (subst (IsFirst (get_bit b) true i b.size) end (next_setted_bit-IsFirst b i))))
    | inr (k, hit) ↦
        let f = subst (IsFirst (get_bit b) true i b.size) hit (next_setted_bit-IsFirst b i) in
        pages_from-some m i k hit
        ∙ ap (λ (x : List ℕ). k ∷ x)
            (pages_from-places m (b.size - suc k) (suc k) (let r = f.1 in omega arith)
              (let q = f.0 in let r = f.1 in omega arith))
        ∙ sym (places-first (get_bit b) n i b.size k e f)
  ]

-- A walk over the allocated pages that starts at a page of the file, and changes none of them, gives
-- the allocated pages from there on, each once and in order, and then ends; rounds more than the
-- pages left are enough.
pub pages_from_lem :
    (p : DiskBufferPool) (start_page rounds n : ℕ)
    → start_page + n ≡ p.file_header.page_count
    → n < rounds
    → pages_from rounds (init p start_page) ≡ places (bit p.file_header) n start_page
unfolding init
pages_from_lem p start_page rounds n e l =
    pages_from-places (bitmap_of p.file_header) rounds n start_page e l
