-- ===== src/Mm/Life/Clone.antt =====
-- What `mm_clone` copies.
use mathlib.Core.List.{append_assoc, append-nil, map-append}
use telos.Prelude.{
  ℕ, ◌≤◌, ◌<◌, ◌≡◌, refl, sym, ◌∙◌, inl, inr, if◌then◌else◌, List, [], ◌∷◌, ◌++◌, map, arith,
  Bool-cases, length, drop, take, some,
}
use telos.Errno.{ok, fail, enomem}
use telos.Mm.{Vma, Mm, Pool}
use telos.Mm.Ops.{Pages}
use telos.Mm.Life.{Cloned, copy_on_write, clone_areas, mm_clone}

-- An area apart from where its `struct vma` is.
abbrev pub anonymous : Vma → Vma
anonymous v = record v { id = 0 }

-- The areas that `pm_disable_write` is called on: each that is copied on write, and its copy.
abbrev pub guarded : List Vma → Pool → List ℕ
guarded [] pool = []
guarded (v ∷ vs) [] = []
guarded (v ∷ vs) (p ∷ pool) = (if copy_on_write v then v.id ∷ p ∷ [] else []) ++ guarded vs pool

-- Where the `struct vma`s of areas are.
abbrev pub ids : List Vma → List ℕ
ids areas = map (λ (v : Vma). v.id) areas

abbrev IsCopy : List Vma → List Vma → Pool → List ℕ → Cloned → Type 0
IsCopy src done pool prot c =
    (c.status ≡ ok)
    × (map anonymous c.areas ≡ map anonymous done ++ map anonymous src)
    × (ids c.areas ≡ ids done ++ take (length src) pool)
    × (c.pool ≡ drop (length src) pool)
    × (c.protected ≡ prot ++ guarded src pool)

guarded_step :
    (v : Vma) (p : ℕ) (vs : List Vma) (pool : Pool) (prot : List ℕ)
    → (if copy_on_write v then prot ++ v.id ∷ p ∷ [] else prot) ++ guarded vs pool
      ≡ prot ++ guarded (v ∷ vs) (p ∷ pool)
guarded_step v p vs pool prot = elim (Bool-cases (copy_on_write v)) [
  | inl e ↦ rw e (append_assoc prot (v.id ∷ p ∷ []) (guarded vs pool))
  | inr e ↦ rw e
]

clone_areas-IsCopy :
    (src done : List Vma) (pool : Pool) (prot : List ℕ)
    → length src ≤ length pool
    → IsCopy src done pool prot (clone_areas src done pool prot)
unfolding clone_areas
clone_areas-IsCopy [] done pool prot h =
    (refl, sym (append-nil _), sym (append-nil _), refl, sym (append-nil _))
clone_areas-IsCopy (v ∷ vs) done [] prot h = absurd (omega arith)
clone_areas-IsCopy (v ∷ vs) done (p ∷ pool) prot h =
    let (s, a, i, q, g) =
      clone_areas-IsCopy vs (done ++ record v { id = p } ∷ []) pool
        (if copy_on_write v then prot ++ v.id ∷ p ∷ [] else prot) (omega arith) in
    (
      s,
      simp (map-append, append_assoc) at a,
      simp (map-append, append_assoc) at i,
      q,
      g ∙ guarded_step v p vs pool prot,
    )

clone_areas_short :
    (src done : List Vma) (pool : Pool) (prot : List ℕ)
    → length pool < length src
    → (clone_areas src done pool prot).status ≡ fail enomem
unfolding clone_areas
clone_areas_short [] done pool prot h = absurd (omega arith)
clone_areas_short (v ∷ vs) done [] prot h = refl
clone_areas_short (v ∷ vs) done (p ∷ pool) prot h =
    clone_areas_short vs (done ++ record v { id = p } ∷ []) pool
      (if copy_on_write v then prot ++ v.id ∷ p ∷ [] else prot) (omega arith)

-- With a page directory and as many free `struct vma`s as there are areas, `mm_clone` succeeds: the
-- copy has the same areas in the same order, at the first free `struct vma`s in their order, the page
-- directory and the same break, and `pm_disable_write` was
-- called on exactly the writable areas that are not shared and their copies.
pub mm_clone-copies :
    (pages : Pages) (pgdir : ℕ) (dst src : Mm) (pool : Pool)
    → length src.map ≤ length pool
    → let (status, mm, rest, prot) = mm_clone pages (some pgdir) dst src pool in
      (status ≡ ok)
      × (map anonymous mm.map ≡ map anonymous src.map)
      × (ids mm.map ≡ take (length src.map) pool)
      × (mm.pgdir ≡ pgdir)
      × (mm.brk ≡ src.brk)
      × (rest ≡ drop (length src.map) pool)
      × (prot ≡ guarded src.map pool)
unfolding mm_clone
mm_clone-copies pages pgdir dst src pool h =
    let (s, a, i, q, g) = clone_areas-IsCopy src.map [] pool [] h in
    rw (s, mm_clone) (refl, a, i, refl, refl, q, g)

-- With fewer it fails for lack of memory.
pub mm_clone_short :
    (pages : Pages) (pgdir : ℕ) (dst src : Mm) (pool : Pool)
    → length pool < length src.map
    → (mm_clone pages (some pgdir) dst src pool).0 ≡ fail enomem
unfolding mm_clone
mm_clone_short pages pgdir dst src pool h = rw (clone_areas_short src.map [] pool [] h, mm_clone)
