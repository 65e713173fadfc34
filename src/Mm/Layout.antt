-- ===== src/Mm/Layout.antt =====
-- The layout of an address space: areas in order of address, apart, and on page boundaries.
use telos.Prelude.{
  ℕ, ◌%◌, ◌≤◌, ◌<◌, ◌≡◌, ◌⊎◌, inl, inr, List, [], ◌∷◌, some, arith, All, ltb, Bool-cases,
}
use telos.Mm.{Vma, vma_insert, vma_get}

-- No area begins before the one in front of it ends.
abbrev pub Chain : ℕ → List Vma → Type 0
Chain lo [] = Unit {0}
Chain lo (v ∷ vs) = (lo ≤ v.start) × (v.start ≤ v.end) × Chain v.end vs

-- The range from `s` to `e` does not meet the area.
abbrev pub Apart : ℕ → ℕ → Vma → Type 0
Apart s e v = (v.end ≤ s) ⊎ (e ≤ v.start)

abbrev pub Contains : ℕ → Vma → Type 0
Contains a v = (v.start ≤ a) × (a < v.end)

abbrev pub OnPages : Vma → Type 0
OnPages v = (v.start % 4096 ≡ 0) × (v.end % 4096 ≡ 0) × (v.end ≤ 0xFFFF_F000)

abbrev pub In : Vma → List Vma → Type 0
In v [] = ⊥
In v (x ∷ xs) = (v ≡ x) ⊎ In v xs

pub record IsLaidOut (areas : List Vma) : Type 0 where
  pub chain : Chain 0 areas
  pub on_pages : All OnPages areas

pub Chain-mono : (lo lo' : ℕ) (vs : List Vma) → lo' ≤ lo → Chain lo vs → Chain lo' vs
Chain-mono lo lo' [] h c = tt
Chain-mono lo lo' (v ∷ vs) h c = (omega arith, c.1, c.2)

-- A nonempty area that meets no other goes to its place in the order.
pub vma_insert-Chain :
    (areas : List Vma) (v : Vma) (lo : ℕ)
    → lo ≤ v.start
    → v.start < v.end
    → All (Apart v.start v.end) areas
    → Chain lo areas
    → Chain lo (vma_insert areas v)
unfolding vma_insert
vma_insert-Chain [] v lo h ne apart c = (h, omega arith, tt)
vma_insert-Chain (x ∷ xs) v lo h ne apart c = ground (arith, vma_insert-Chain xs v x.end)

pub vma_insert-All {ℓ} :
    (P : Vma → Type ℓ) (areas : List Vma) (v : Vma) → P v → All P areas → All P (vma_insert areas v)
unfolding vma_insert
vma_insert-All P [] v p h = (p, tt)
vma_insert-All P (x ∷ xs) v p h = elim (Bool-cases (ltb v.start x.start)) [
  | inl e ↦ rw e (p, h)
  | inr e ↦ rw e (h.0, vma_insert-All P xs v p h.1)
]

-- `vma_get` returns an area of the list, and one that holds the address.
pub vma_get_sound :
    (areas : List Vma) (a : ℕ) (v : Vma) → vma_get areas a ≡ some v → In v areas × Contains a v
unfolding vma_get
vma_get_sound [] a v e = ground arith
vma_get_sound (x ∷ xs) a v e = ground (arith, vma_get_sound xs a v)

pub Chain-le : (areas : List Vma) (lo : ℕ) (v : Vma) → Chain lo areas → In v areas → lo ≤ v.start
Chain-le [] lo v c i = absurd i
Chain-le (x ∷ xs) lo v c i = ground (arith, Chain-le xs x.end v)

-- `vma_get` on areas that stand in order without overlap finds the one that holds the address, if
-- there is one.
pub vma_get_complete :
    (areas : List Vma) (a lo : ℕ) (v : Vma)
    → Chain lo areas
    → In v areas
    → Contains a v
    → vma_get areas a ≡ some v
unfolding vma_get
vma_get_complete [] a lo v c i h = absurd i
vma_get_complete (x ∷ xs) a lo v c i h =
    ground (arith, vma_get_complete xs a x.end v, Chain-le xs x.end v)

pub Chain-Apart : (vs : List Vma) (lo s e : ℕ) → e ≤ lo → Chain lo vs → All (Apart s e) vs
Chain-Apart [] lo s e h c = tt
Chain-Apart (v ∷ vs) lo s e h c = (inr (omega arith), Chain-Apart vs v.end s e (omega arith) c.2)
