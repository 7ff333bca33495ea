-- ===== src/RecordReplay/Change.antt =====
-- Changes of a record page, and that one change writes an entry that replays to the new page.
use native.Mathlib.Decide.{ℕ_discrete}
use my_mini_ob.Base.{
  ℕ, ◌+◌, ◌≤◌, ◌<◌, ◌≡◌, ◌≢◌, inl, inr, refl, Bool, true, Option, none, some, List, [], ◌∷◌, ◌++◌,
  leb, ◌==◌, ◌&&◌, arith, Bool-cases,
}
use my_mini_ob.Base.Memory.{read_at-read_at}
use my_mini_ob.Rc.{Rc, success}
use my_mini_ob.Bitmap.{get_bit, next_unsetted_bit}
use my_mini_ob.RecordLog.{
  RecordLogHeader, LogEntry, disk, insert_payload, delete_payload, update_payload,
}
use my_mini_ob.RecordPage.{Page, Handler, Rid, bits, insert_record, delete_record, update_record}
use my_mini_ob.RecordPage.View.{
  IsValid, occupied, vacated, written, occupied-IsValid, written-IsValid, vacated-IsValid,
  free_slot,
}
use my_mini_ob.RecordReplay.{open_page, finish, replay_operation}

-- a change of one page
pub data Change : Type 0 where
  insert : List ℕ → Change
  delete : Rid → Change
  update : Rid → List ℕ → Change

-- the page that a change is meant for, on the handler of page `page_num`
abbrev pub target : ℕ → Change → ℕ
target page_num (insert d) = page_num
target page_num (delete rid) = rid.page_num
target page_num (update rid d) = rid.page_num

-- whether all changes are meant for the handler's own page
abbrev pub on_page : ℕ → List Change → Bool
on_page page_num [] = true
on_page page_num (c ∷ cs) = (target page_num c == page_num) && on_page page_num cs

abbrev changed : Option (Rc × Option Rid × Handler) → Option Handler
changed none = none
changed (some (rc, rid, h)) = some h

unfoldable pub apply : Change → Handler → Option Handler
apply (insert d) h = changed (insert_record d h)
apply (delete rid) h = some (delete_record rid h).1
apply (update rid d) h = some (update_record rid d h).1

abbrev and_then : Option Handler → (Handler → Option Handler) → Option Handler
and_then none k = none
and_then (some h) k = k h

-- the changes in order, whatever code each returns; `none` is a fault
unfoldable pub run : List Change → Handler → Option Handler
unfolding apply
run [] h = some h
run (c ∷ cs) h = and_then (apply c h) (λ h'. run cs h')

abbrev pub with_dirty : Bool → Page → Page
with_dirty b p = record p { dirty = b }

-- the operation of an entry, done on the page, gives this page and the entry's number
abbrev pub Redoes : LogEntry → Page → Page → Type 0
Redoes e p q =
    finish e.lsn (replay_operation e.payload.operation_type e.payload p) ≡ some (success, q)

module _ (pool : ℕ) where
  -- One change: nothing is written, or one entry that names the page and redoes the change.
  pub data Logged (c : Change) (n : ℕ) (es : List LogEntry) (p : Page) : Type 0 where
    unlogged :
        apply c (open_page (disk n es) pool p) ≡ some (open_page (disk n es) pool p)
        → Logged c n es p
    logged :
        (e : LogEntry) (q : Page)
        → apply c (open_page (disk n es) pool p)
          ≡ some (open_page (disk (n + 1) (es ++ (e ∷ []))) pool q)
        → e.lsn ≡ n + 1
        → q.lsn ≡ n + 1
        → IsValid q
        → e.payload.buffer_pool_id ≡ pool
        → e.payload.page_num ≡ p.page_num
        → q.page_num ≡ p.page_num
        → ((b : Bool) → Redoes e (with_dirty b p) (with_dirty true q))
        → Logged c n es p

  module _ (p : Page) (n : ℕ) (es : List LogEntry) (old : p.lsn ≤ n) where
    abbrev log_entry : RecordLogHeader → LogEntry
    log_entry payload = record { lsn = n + 1; payload = payload }

    module _ (d : List ℕ) (k : ℕ) (found : next_unsetted_bit (bits p) 0 ≡ some k)
        (room : p.record_num ≢ p.record_capacity) where
      abbrev insert_entry : LogEntry
      insert_entry = log_entry (insert_payload (open_page (disk n es) pool p).log p.page_num k d)

      insert_logs :
          apply (insert d) (open_page (disk n es) pool p)
          ≡ some
              (open_page (disk (n + 1) (es ++ (insert_entry ∷ []))) pool (occupied (n + 1) k d p))
      unfolding apply insert_record
      insert_logs = ground (arith, found)

      insert_replays :
          (b : Bool)
          → Redoes insert_entry (with_dirty b p) (with_dirty true (occupied (n + 1) k d p))
      unfolding replay_operation
      insert_replays b = ground (arith, found, read_at-read_at d 0 p.record_real_size)

    module _ (rid : Rid) (inside : rid.slot_num < p.record_capacity)
        (used : get_bit (bits p) rid.slot_num ≡ true) where
      abbrev delete_entry : LogEntry
      delete_entry =
          log_entry (delete_payload (open_page (disk n es) pool p).log rid.page_num rid.slot_num)

      delete_logs :
          apply (delete rid) (open_page (disk n es) pool p)
          ≡ some (
              open_page
                (disk (n + 1) (es ++ (delete_entry ∷ [])))
                pool
                (vacated (n + 1) rid.slot_num p))
      unfolding apply delete_record
      delete_logs = ground arith

      delete_replays :
          (b : Bool)
          → Redoes delete_entry (with_dirty b p) (with_dirty true (vacated (n + 1) rid.slot_num p))
      unfolding replay_operation
      delete_replays b = ground arith

      module _ (d : List ℕ) where
        abbrev update_entry : LogEntry
        update_entry =
            log_entry
              (update_payload (open_page (disk n es) pool p).log rid.page_num rid.slot_num d)

        update_logs :
            apply (update rid d) (open_page (disk n es) pool p)
            ≡ some (
                open_page
                  (disk (n + 1) (es ++ (update_entry ∷ [])))
                  pool
                  (written (n + 1) rid.slot_num d p))
        unfolding apply update_record
        update_logs = ground arith

        update_replays :
            (b : Bool)
            → Redoes update_entry
                (with_dirty b p)
                (with_dirty true (written (n + 1) rid.slot_num d p))
        unfolding replay_operation
        update_replays b = ground (arith, read_at-read_at d 0 p.record_real_size)

  pub apply-Logged :
      (c : Change) (n : ℕ) (es : List LogEntry) {p : Page}
      → IsValid p
      → p.lsn ≤ n
      → target p.page_num c ≡ p.page_num
      → Logged c n es p
  apply-Logged (insert d) n es {p} v old own = elim (ℕ_discrete p.record_num p.record_capacity) [
    | yes e ↦ unlogged (unfold apply insert_record in ground arith)
    | no ne ↦
        let (k, found, inside, clear) = free_slot v ne in
        logged (insert_entry p n es old d k found ne) (occupied (n + 1) k d p)
          (insert_logs p n es old d k found ne) refl refl
          (occupied-IsValid v (n + 1) k d inside clear) refl refl refl
          (insert_replays p n es old d k found ne)
  ]
  apply-Logged (delete rid) n es {p} v old own =
      elim (Bool-cases (leb p.record_capacity rid.slot_num)) [
        | inl out ↦ unlogged (unfold apply delete_record in rw out)
        | inr inside ↦ elim (Bool-cases (get_bit (bits p) rid.slot_num)) [
          | inr free ↦ unlogged (unfold apply delete_record in rw (inside, free))
          | inl used ↦
              let hk : rid.slot_num < p.record_capacity = ground arith in
              logged (delete_entry p n es old rid hk used) (vacated (n + 1) rid.slot_num p)
                (delete_logs p n es old rid hk used) refl refl
                (vacated-IsValid v (n + 1) rid.slot_num hk used) refl own refl
                (delete_replays p n es old rid hk used)
        ]
      ]
  apply-Logged (update rid d) n es {p} v old own =
      elim (Bool-cases (leb p.record_capacity rid.slot_num)) [
        | inl out ↦ unlogged (unfold apply update_record in rw out)
        | inr inside ↦ elim (Bool-cases (get_bit (bits p) rid.slot_num)) [
          | inr free ↦ unlogged (unfold apply update_record in rw (inside, free))
          | inl used ↦
              let hk : rid.slot_num < p.record_capacity = ground arith in
              logged (update_entry p n es old rid hk used d) (written (n + 1) rid.slot_num d p)
                (update_logs p n es old rid hk used d) refl refl
                (written-IsValid v (n + 1) rid.slot_num d hk) refl own refl
                (update_replays p n es old rid hk used d)
        ]
      ]
