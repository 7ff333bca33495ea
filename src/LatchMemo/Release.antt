-- ===== src/LatchMemo/Release.antt =====
-- A mini-transaction from its first call on the memo to the release of all that it holds.
use mathlib.Core.Path.{subst}
use mathlib.Core.Option.{some-injective, none-ne-some}
use my_mini_ob.Base.{
  ℕ, ◌+◌, ◌≡◌, refl, sym, ap, ◌∙◌, Bool, true, false, Bool-cases, inl, inr, Option, none, some,
  List, [], ◌∷◌, arith, ◌==◌, leb, drop, length,
}
use my_mini_ob.LatchMemo.{
  LatchMemoType, nothing, shared, exclusive, pin, Latched, frame, lock, Call, get_this_page,
  unpin_page, write_latch, write_unlatch, read_latch, read_unlatch, lock_exclusive, unlock,
  lock_shared, unlock_shared, dispose, LatchMemoItem, LatchMemo, new_memo, emplace_back, get_page,
  memo_allocate_page, memo_dispose_page, latch, try_slatch, xlatch_lock, slatch_lock, release_item,
  and_then, release_to, dispose_all, release, Operation, op_get_page, op_allocate_page,
  op_dispose_page, op_latch, op_try_slatch, op_xlatch_lock, op_slatch_lock, op_release_to,
  op_release, operate, operate_all,
}
use my_mini_ob.LatchMemo.Balance.{
  taken_of, given_of, Releasable, AllReleasable-append, count_items, count_items-append, taken,
  given, Sound, release_to-Sound,
}

-- an item behind the others, and the call that took it
emplace_back-Sound :
    (t : LatchMemoType) (on : Latched) (call : Call) (memo : LatchMemo)
    → Releasable (record { type = t; on = on })
    → taken_of call ≡ record { type = t; on = on } ∷ []
    → given_of call ≡ []
    → Sound memo
    → Sound (emplace_back t on call memo)
emplace_back-Sound t on call memo r takes gives (all, balanced) = (
  AllReleasable-append memo.items (record { type = t; on = on }) all r,
  λ test.
      let x : LatchMemoItem = record { type = t; on = on } in
      let took : count_items test (taken_of call) ≡ count_items test (x ∷ []) =
        ap (count_items test) takes in
      let gave : count_items test (given_of call) ≡ 0 = ap (count_items test) gives in
      let before : taken test memo.calls ≡ given test memo.calls + count_items test memo.items =
        balanced test in
      let longer = count_items-append test memo.items (x ∷ []) in omega arith,
)

dispose_all-same :
    (pages : List ℕ) (calls : List Call) (t : LatchMemoItem → Bool)
    → (taken t (dispose_all pages calls) ≡ taken t calls)
      × (given t (dispose_all pages calls) ≡ given t calls)
dispose_all-same [] calls t = (refl, refl)
dispose_all-same (p ∷ ps) calls t =
    let (a, b) = dispose_all-same ps (dispose p ∷ calls) t in (a ∙ omega arith, b ∙ omega arith)

drop-all : (xs : List LatchMemoItem) → drop (length xs) xs ≡ []
drop-all [] = refl
drop-all (x ∷ xs) = drop-all xs

-- A release of all always succeeds on a sound memo and leaves it empty.
release-Sound :
    (memo : LatchMemo)
    → Sound memo
    → (memo' : LatchMemo) × ((release memo ≡ some memo')
        × (Sound memo' × ((memo'.items ≡ []) × (memo'.disposed_pages ≡ []))))
unfolding release
release-Sound memo sound =
    let (m, (e, ((all, balanced), rest))) =
      release_to-Sound (length memo.items) memo sound (omega arith) in
    let m' : LatchMemo = record m {
      disposed_pages = [];
      calls = dispose_all m.disposed_pages m.calls;
    } in
    (
      m',
      (
        ap
            (λ (o : Option LatchMemo). and_then o (λ k.
              some
                (record k { disposed_pages = []; calls = dispose_all k.disposed_pages k.calls })))
            e,
        (
          (
            all,
            λ t.
                let (a, b) = dispose_all-same m.disposed_pages m.calls t in
                let before : taken t m.calls ≡ given t m.calls + count_items t m.items =
                  balanced t in
                omega arith,
          ),
          (rest ∙ drop-all memo.items, refl),
        ),
      ),
    )

-- an operation that answers, on a sound memo
abbrev Keeps : LatchMemo → Option LatchMemo → Type 0
Keeps memo o = Sound memo → (memo' : LatchMemo) → o ≡ some memo' → Sound memo'

Keeps-some : (memo m : LatchMemo) → (Sound memo → Sound m) → Keeps memo (some m)
Keeps-some memo m f sound memo' e =
    subst (λ (k : LatchMemo). Sound k) (some-injective m memo' e) (f sound)

Keeps-none : (memo : LatchMemo) → Keeps memo none
Keeps-none memo sound memo' e = absurd (none-ne-some memo' e)

pinned-Sound :
    (f : ℕ) (memo : LatchMemo)
    → Sound memo
    → Sound (emplace_back pin (frame f) (get_this_page f) memo)
unfolding release_item
pinned-Sound f memo =
    emplace_back-Sound pin (frame f) (get_this_page f) memo (unpin_page f, (refl, (refl, refl)))
      refl refl

read_latched-Sound :
    (f : ℕ) (memo : LatchMemo)
    → Sound memo
    → Sound (emplace_back shared (frame f) (read_latch f) memo)
unfolding release_item
read_latched-Sound f memo =
    emplace_back-Sound shared (frame f) (read_latch f) memo (read_unlatch f, (refl, (refl, refl)))
      refl refl

release_to-Keeps : (point : ℕ) (memo : LatchMemo) → Keeps memo (release_to point memo)
unfolding release_to
release_to-Keeps point memo sound memo' e = elim (Bool-cases (leb point (length memo.items))) [
  | inl y ↦
      let (m, (answer, (kept, rest))) = release_to-Sound point memo sound (ground arith) in
      Keeps-some memo m (λ s. kept) sound memo' (sym answer ∙ e)
  | inr n ↦
      let refused : release_to point memo ≡ none = rw n refl in
      Keeps-none memo sound memo' (sym refused ∙ e)
]

and_then-some :
    (o : Option LatchMemo) (f : LatchMemo → Option LatchMemo) (b : LatchMemo)
    → and_then o f ≡ some b
    → (a : LatchMemo) × ((o ≡ some a) × (f a ≡ some b))
and_then-some none f b e = absurd (none-ne-some b e)
and_then-some (some a) f b e = (a, (refl, e))

operate-Keeps : (op : Operation) (memo : LatchMemo) → Keeps memo (operate op memo)
unfolding get_page memo_allocate_page memo_dispose_page latch try_slatch xlatch_lock slatch_lock
    release_item
operate-Keeps (op_get_page none) memo = Keeps-some memo memo (λ s. s)
operate-Keeps (op_get_page (some f)) memo = Keeps-some memo _ (pinned-Sound f memo)
operate-Keeps (op_allocate_page none) memo = Keeps-some memo memo (λ s. s)
operate-Keeps (op_allocate_page (some (f, n))) memo = elim (Bool-cases (n == 1)) [
  | inl y ↦ rw y (Keeps-some memo _ (pinned-Sound f memo))
  | inr n' ↦ rw n' (Keeps-none memo)
]
operate-Keeps (op_dispose_page p) memo = Keeps-some memo _ (λ s. s)
operate-Keeps (op_latch f nothing) memo = Keeps-none memo
operate-Keeps (op_latch f shared) memo = Keeps-some memo _ (read_latched-Sound f memo)
operate-Keeps (op_latch f exclusive) memo = Keeps-some memo _ (
    emplace_back-Sound exclusive (frame f) (write_latch f) memo
      (write_unlatch f, (refl, (refl, refl))) refl refl)
operate-Keeps (op_latch f pin) memo = Keeps-none memo
operate-Keeps (op_try_slatch false f) memo = Keeps-some memo memo (λ s. s)
operate-Keeps (op_try_slatch true f) memo = Keeps-some memo _ (read_latched-Sound f memo)
operate-Keeps (op_xlatch_lock l) memo = Keeps-some memo _ (
    emplace_back-Sound exclusive (lock l) (lock_exclusive l) memo (unlock l, (refl, (refl, refl)))
      refl refl)
operate-Keeps (op_slatch_lock l) memo = Keeps-some memo _ (
    emplace_back-Sound shared (lock l) (lock_shared l) memo (unlock_shared l, (refl, (refl, refl)))
      refl refl)
operate-Keeps (op_release_to point) memo = release_to-Keeps point memo
operate-Keeps op_release memo = λ sound memo' e.
    let (m, (answer, (kept, rest))) = release-Sound memo sound in
    Keeps-some memo m (λ s. kept) sound memo' (sym answer ∙ e)

operate_all-Keeps : (ops : List Operation) (memo : LatchMemo) → Keeps memo (operate_all ops memo)
operate_all-Keeps [] memo = Keeps-some memo memo (λ s. s)
operate_all-Keeps (op ∷ ops) memo = λ sound memo' e.
    let (m, (first, rest)) = and_then-some (operate op memo) (operate_all ops) memo' e in
    operate_all-Keeps ops m (operate-Keeps op memo sound m first) memo' rest

-- After any sequence of calls on a new memo that no ASSERT ends, whatever the pool and the frames
-- answer, a release of all succeeds; the memo holds nothing and has no page to dispose of, and each pin
-- and each latch has been given back as often as it was taken.
pub release_lem :
    (ops : List Operation) (memo : LatchMemo)
    → operate_all ops new_memo ≡ some memo
    → (memo' : LatchMemo) × ((release memo ≡ some memo')
        × ((memo'.items ≡ [])
            × ((memo'.disposed_pages ≡ [])
                × ((t : LatchMemoItem → Bool) → given t memo'.calls ≡ taken t memo'.calls))))
release_lem ops memo e =
    let start : Sound new_memo = (refl, λ t. refl) in
    let (memo', (answer, ((all, balanced), (empty, disposed)))) =
      release-Sound memo (operate_all-Keeps ops new_memo start memo e) in
    (
      memo',
      (
        answer,
        (
          empty,
          (
            disposed,
            λ t.
                let none_held : count_items t memo'.items ≡ 0 = ap (count_items t) empty in
                let both : taken t memo'.calls ≡ given t memo'.calls + count_items t memo'.items =
                  balanced t in
                omega arith,
          ),
        ),
      ),
    )
