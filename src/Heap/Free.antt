-- ===== src/Heap/Free.antt =====
-- The free list of the heap as a set of segments.
use mathlib.Core.Path.{subst}
use telos.Prelude.{
  leb→le, ℕ, ◌≤◌, ◌≡◌, refl, ◌==◌, leb, some, Bool, true, false, not, ◌&&◌, ◌||◌, inl, inr, List,
  [], ◌∷◌, arith, Bool-cases,
}
use telos.Heap.{first_fit, replace, remove}

abbrev pub mem : ℕ → List ℕ → Bool
mem a [] = false
mem a (x ∷ xs) = (a == x) || mem a xs

abbrev pub NoDouble : List ℕ → Type 0
NoDouble [] = Unit
NoDouble (x ∷ xs) = (mem x xs ≡ false) × NoDouble xs

pub first_fit_sound :
    (size : ℕ → ℕ) (ps : List ℕ) (n p : ℕ)
    → first_fit size ps n ≡ some p
    → (mem p ps ≡ true) × (n ≤ size p)
unfolding first_fit
first_fit_sound size [] n p e = absurd (ground arith)
first_fit_sound size (x ∷ ps) n p e = elim (Bool-cases (leb n (size x))) [
  | inl b ↦
      let q : x ≡ p = ground arith in
      (ground arith, subst (λ y. n ≤ size y) q (omega (arith, leb→le n (size x) b)))
  | inr b ↦ let (m, l) = first_fit_sound size ps n p (ground arith) in (ground arith, l)
]

pub mem-remove :
    (a p : ℕ) (xs : List ℕ) → NoDouble xs → mem a (remove p xs) ≡ (mem a xs && not (a == p))
unfolding remove
mem-remove a p [] d = refl
mem-remove a p (x ∷ xs) d = ground (arith, mem-remove a p xs d.1)

pub mem-replace :
    (a p r : ℕ) (xs : List ℕ)
    → NoDouble xs
    → mem p xs ≡ true
    → mem r xs ≡ false
    → mem a (replace p r xs) ≡ ((mem a xs && not (a == p)) || (a == r))
unfolding replace
mem-replace a p r [] d m f = absurd (ground arith)
mem-replace a p r (x ∷ xs) d m f = ground (arith, mem-replace a p r xs d.1)

pub remove-NoDouble : (p : ℕ) (xs : List ℕ) → NoDouble xs → NoDouble (remove p xs)
unfolding remove
remove-NoDouble p [] d = tt
remove-NoDouble p (x ∷ xs) d = ground (arith, remove-NoDouble p xs d.1, mem-remove x p xs d.1)

pub replace-NoDouble :
    (p r : ℕ) (xs : List ℕ)
    → NoDouble xs
    → mem p xs ≡ true
    → mem r xs ≡ false
    → NoDouble (replace p r xs)
unfolding replace
replace-NoDouble p r [] d m f = tt
replace-NoDouble p r (x ∷ xs) d m f =
    ground (arith, replace-NoDouble p r xs d.1, mem-replace x p r xs d.1)
