-- ===== src/Base/Places.antt =====
-- The places of a Boolean sequence that hold, in order.
use native.Mathlib.Decide.{ℕ_discrete}
use my_mini_ob.Base.Tests.{if◌then◌else◌}
use my_mini_ob.Base.First.{Misses, IsFirst}
use my_mini_ob.Base.Lists.{length}
use Prim.Native.Nat.{ℕ, zero, suc, ◌+◌, ◌-◌, ◌≤◌}
use mathlib.Core.Path.{◌≡◌, refl, sym, ap, ◌∙◌}
use mathlib.Core.Bool.{Bool, true}
use mathlib.Core.Option.{Option, none, some}
use mathlib.Core.List.{List, [], ◌∷◌}
use native.Mathlib.Omega.{arith}

-- the places from `i` on, `n` of them, that hold
abbrev pub places : (ℕ → Bool) → ℕ → ℕ → List ℕ
places p zero i = []
places p (suc n) i = if p i then i ∷ places p n (suc i) else places p n (suc i)

module _ (p : ℕ → Bool) where
  pub places-none : (n i : ℕ) → Misses p true i (i + n) → places p n i ≡ []
  places-none zero i f = refl
  places-none (suc n) i f =
      let no = f i (omega arith) (omega arith) in
      rw no (places-none n (suc i) (λ j l h. f j (omega arith) (omega arith)))

  -- places that miss may be passed over
  pub places-first :
      (n i hi k : ℕ)
      → i + n ≡ hi
      → IsFirst p true i hi (some k)
      → places p n i ≡ k ∷ places p (hi - suc k) (suc k)
  places-first zero i hi k e f = absurd (let l = f.0 in let r = f.1 in omega arith)
  places-first (suc n) i hi k e f = elim (ℕ_discrete i k) [
    | yes q ↦
        let y : p i ≡ true = ap p q ∙ f.2 in
        let rest : n ≡ hi - suc k = omega arith in
        rw y (ap (λ (x : ℕ). x ∷ places p n (suc x)) q ∙ (rw rest refl))
    | no q ↦
        let l = f.0 in
        let r = f.1 in
        let no = f.3 i (omega arith) (omega arith) in
        rw no (
          places-first n (suc i) hi k (omega arith)
            (omega arith, r, f.2, λ j l' h. f.3 j (omega arith) h))
  ]

  pub length-places : (n i : ℕ) → length (places p n i) ≤ n
  length-places zero i = omega arith
  length-places (suc n) i = ground (arith, length-places n (suc i))

  -- what a search from `i` on leaves to visit
  abbrev pub remaining : ℕ → Option ℕ → List ℕ
  remaining hi none = []
  remaining hi (some k) = k ∷ places p (hi - suc k) (suc k)

  pub remaining-IsFirst :
      (i hi : ℕ) (r : Option ℕ) → IsFirst p true i hi r → remaining hi r ≡ places p (hi - i) i
  remaining-IsFirst i hi none f = sym (places-none (hi - i) i (λ j l h. f j l (omega arith)))
  remaining-IsFirst i hi (some k) f =
      let l = f.0 in let r = f.1 in sym (places-first (hi - i) i hi k (omega arith) f)
