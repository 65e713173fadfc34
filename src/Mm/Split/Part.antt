-- ===== src/Mm/Split/Part.antt =====
-- `vma_split` changes the flags of a part of an area and of nothing else.
use telos.Prelude.{
  ℕ, ◌≤◌, ◌≡◌, ◌≢◌, refl, ◌⊎◌, ltb, leb, ◌&&◌, if◌then◌else◌, some, List, [], ◌∷◌, arith, All,
}
use telos.Errno.{ok}
use telos.Mm.{Vma, Pool, store, list_add}
use telos.Mm.Layout.{Chain, In, Contains, Chain-le, vma_get_complete}
use telos.Mm.Ops.{Ops}
use telos.Mm.Split.{split_middle, vma_split}
use telos.Mm.Split.View.{Distinct, In-head, In-tail, flags_at, flags_at-cons, vma_bisect-flags}

-- The list step of the middle case: the area becomes three.
abbrev cut3 : List Vma → Vma → Vma → Vma → Vma → List Vma
cut3 areas v left mid right = list_add mid.id right (list_add v.id mid (store left areas))

-- The three parts, end to end, cover the area.
abbrev Parts : Vma → Vma → Vma → Vma → Type 0
Parts v left mid right =
    (left.id ≡ v.id)
    × (left.start ≡ v.start)
    × (left.end ≡ mid.start)
    × (mid.end ≡ right.start)
    × (right.end ≡ v.end)
    × (v.start ≤ mid.start)
    × (mid.start ≤ mid.end)
    × (mid.end ≤ v.end)

module _ (v left mid right : Vma) (parts : Parts v left mid right) where
  flags_at-cut3 :
      (areas : List Vma) (lo a : ℕ)
      → Chain lo areas
      → Distinct areas
      → All (λ w. w.id ≢ mid.id) areas
      → In v areas
      → flags_at (cut3 areas v left mid right) a ≡ (
          if leb v.start a && ltb a v.end
          then (if ltb a mid.start
              then some left.flags
              else if ltb a mid.end
              then some mid.flags
              else some right.flags)
          else flags_at areas a)
  unfolding store list_add
  flags_at-cut3 [] lo a c d f i = absurd i
  flags_at-cut3 (x ∷ xs) lo a c d f i = ground (
    arith,
    flags_at-cons x xs a,
    flags_at-cons left (mid ∷ right ∷ xs) a,
    flags_at-cons mid (right ∷ xs) a,
    flags_at-cons right xs a,
    flags_at-cons x (cut3 xs v left mid right) a,
    In-head x xs v d i,
    In-tail x xs v i,
    Chain-le xs x.end v c.2,
    flags_at-cut3 xs x.end a c.2 d.1 f.1,
  )

  cut3-Chain :
      (areas : List Vma) (lo : ℕ)
      → Chain lo areas
      → Distinct areas
      → All (λ w. w.id ≢ mid.id) areas
      → In v areas
      → Chain lo (cut3 areas v left mid right)
  unfolding store list_add
  cut3-Chain [] lo c d f i = absurd i
  cut3-Chain (x ∷ xs) lo c d f i =
      ground (arith, In-head x xs v d i, In-tail x xs v i, cut3-Chain xs x.end c.2 d.1 f.1)

flags_at-In :
    (areas : List Vma) (lo a : ℕ) (v : Vma)
    → Chain lo areas
    → In v areas
    → Contains a v
    → flags_at areas a ≡ some v.flags
unfolding flags_at
flags_at-In areas lo a v c i h = rw (vma_get_complete areas a lo v c i h)

-- The free `struct vma`s are none of the areas.
abbrev pub Fresh : Pool → List Vma → Type 0
Fresh pool areas = All (λ p. All (λ (w : Vma). w.id ≢ p) areas) pool

abbrev Changed : List Vma → ℕ → ℕ → ℕ → ℕ → List Vma → Type 0
Changed areas start end flags a areas' =
    Chain 0 areas'
    × (flags_at areas' a ≡ (if leb start a && ltb a end then some flags else flags_at areas a))

split_middle-flags :
    (ops : Ops) (areas : List Vma) (pool : Pool) (v : Vma) (p q start end flags a : ℕ)
    → Chain 0 areas
    → Distinct areas
    → All (λ w. w.id ≢ p) areas
    → In v areas
    → v.start ≤ start
    → start ≤ end
    → end ≤ v.end
    → let r = split_middle ops areas pool v p q start end flags in
      ((r.status ≡ ok) × Changed areas start end flags a r.areas)
      ⊎ ((r.status ≢ ok) × (r.areas ≡ areas))
unfolding split_middle
split_middle-flags ops areas pool v p q start end flags a c d f i h1 h2 h3 =
    let right : Vma = record { id = q; start = end; end = v.end; flags = v.flags; op = v.op } in
    let mid : Vma = record { id = p; start = start; end = end; flags = flags; op = v.op } in
    let left : Vma = record v { end = start } in
    let parts : Parts v left mid right = (refl, refl, refl, refl, refl, h1, h2, h3) in
    let chain = cut3-Chain v left mid right parts areas 0 c d f i in
    let view = flags_at-cut3 v left mid right parts areas 0 a c d f i in
    ground (arith, chain, view, flags_at-In areas 0 a v c i)

-- On areas in order and with identities of their own, for a part of one of them and with free
-- `struct vma`s that are not in use: `vma_split` that succeeds keeps the order of the areas,
-- gives the addresses from `start` to `end` the new flags, and leaves the flags of every other
-- address; if it fails, the areas are as before.
pub vma_split-flags :
    (ops : Ops) (areas : List Vma) (pool : Pool) (v : Vma) (start end flags a : ℕ)
    → Chain 0 areas
    → Distinct areas
    → Fresh pool areas
    → In v areas
    → v.start ≤ start
    → start ≤ end
    → end ≤ v.end
    → let r = vma_split ops areas pool v start end flags in
      ((r.status ≡ ok) × Changed areas start end flags a r.areas)
      ⊎ ((r.status ≢ ok) × (r.areas ≡ areas))
unfolding vma_split
vma_split-flags ops areas [] v start end flags a c d f i h1 h2 h3 = ground (
  arith,
  flags_at-In areas 0 a v c i,
  vma_bisect-flags ops areas [] v end flags v.flags a c d i,
  vma_bisect-flags ops areas [] v start v.flags flags a c d i,
)
vma_split-flags ops areas (p ∷ []) v start end flags a c d f i h1 h2 h3 = ground (
  arith,
  flags_at-In areas 0 a v c i,
  vma_bisect-flags ops areas (p ∷ []) v end flags v.flags a c d i,
  vma_bisect-flags ops areas (p ∷ []) v start v.flags flags a c d i,
)
vma_split-flags ops areas (p ∷ q ∷ rest) v start end flags a c d f i h1 h2 h3 = ground (
  arith,
  flags_at-In areas 0 a v c i,
  vma_bisect-flags ops areas (p ∷ q ∷ rest) v end flags v.flags a c d i,
  vma_bisect-flags ops areas (p ∷ q ∷ rest) v start v.flags flags a c d i,
  split_middle-flags ops areas rest v p q start end flags a c d f.0 i h1 h2 h3,
)
