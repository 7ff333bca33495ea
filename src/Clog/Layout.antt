-- ===== src/Clog/Layout.antt =====
-- The bytes of log entries in a file, and what is asked of the layout of a header.
use my_mini_ob.Base.{
  ℕ, zero, suc, ◌≤◌, ◌≡◌, refl, sym, ap, List, [], ◌∷◌, ◌++◌, length, take, drop, arith,
  append_assoc,
}
use my_mini_ob.Clog.{LogHeader, LogEntry, HeaderLayout, header_size, max_payload_size}

-- A header takes 16 bytes, and what is read from them is what was written.
pub record IsLayout (layout : HeaderLayout) : Type 0 where
  pub encode_size : (h : LogHeader) → length (layout.encode h) ≡ header_size
  pub decode_encode : (h : LogHeader) → layout.decode (layout.encode h) ≡ h

-- the entry's size is that of its payload, and in bounds
pub record IsSized (e : LogEntry) : Type 0 where
  pub size_eq : length e.payload ≡ e.header.size
  pub size_le : e.header.size ≤ max_payload_size

abbrev pub AllSized : List LogEntry → Type 0
AllSized [] = Unit
AllSized (e ∷ es) = IsSized e × AllSized es

abbrev pub entry_bytes : HeaderLayout → LogEntry → List ℕ
entry_bytes layout e = layout.encode e.header ++ e.payload

abbrev pub file_bytes : HeaderLayout → List LogEntry → List ℕ
file_bytes layout [] = []
file_bytes layout (e ∷ es) = entry_bytes layout e ++ file_bytes layout es

pub file_bytes-append :
    (layout : HeaderLayout) (es es' : List LogEntry)
    → file_bytes layout (es ++ es') ≡ file_bytes layout es ++ file_bytes layout es'
file_bytes-append layout [] es' = refl
file_bytes-append layout (e ∷ es) es' =
    rw (file_bytes-append layout es es')
      (sym (append_assoc (entry_bytes layout e) (file_bytes layout es) (file_bytes layout es')))

-- an appended part is read by its length
pub take_exact : (xs ys : List ℕ) (n : ℕ) → length xs ≡ n → take n (xs ++ ys) ≡ xs
take_exact [] ys zero h = refl
take_exact [] ys (suc n) h = ground arith
take_exact (x ∷ xs) ys zero h = ground arith
take_exact (x ∷ xs) ys (suc n) h =
    ap (λ (zs : List ℕ). x ∷ zs) (take_exact xs ys n (omega (arith, h)))

pub drop_exact : (xs ys : List ℕ) (n : ℕ) → length xs ≡ n → drop n (xs ++ ys) ≡ ys
drop_exact [] ys zero h = refl
drop_exact [] ys (suc n) h = ground arith
drop_exact (x ∷ xs) ys zero h = ground arith
drop_exact (x ∷ xs) ys (suc n) h = drop_exact xs ys n (omega (arith, h))
