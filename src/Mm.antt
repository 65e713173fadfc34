-- ===== src/Mm.antt =====
-- The address space of a process: `struct vma`, `struct mm_struct` (include/kernel/mm/vma.h) and
-- the list operations of kernel/vma.c. The list `map` holds the areas in chain order. A `struct
-- vma *` is the area's `id`, its address; the slab cache of areas is the list of free addresses,
-- `alloc_vma` takes the first and fails on none.

pub mod Flag
pub mod Space
pub mod Layout
pub mod Ops
pub mod Split
pub mod Access
pub mod Life
pub mod Brk
mod Tests
use telos.Prelude.{
  ℕ, ◌+◌, ◌-◌, ◌%◌, ◌*◌, ◌≡◌, List, [], ◌∷◌, Option, none, some, Bool, true, false, ◌&&◌, ◌||◌, ltb,
  leb, ◌==◌, if◌then◌else◌, bit_and,
}
use telos.Word.{add32, sub32}
use telos.Paging.{page_align, page_base, pages_in_range, frame_size}

-- `op` is the address of the table of callbacks, 0 for none. The field `private`, which only the
-- callbacks read and write, is left out. The back pointer `mmap` is the
-- address space whose list holds the area.
pub record Vma : Type 0 where
  pub id : ℕ
  pub start : ℕ
  pub end : ℕ
  pub flags : ℕ
  pub op : ℕ

pub record Mm : Type 0 where
  pub pgdir : ℕ
  pub map : List Vma
  pub brk : ℕ

abbrev pub Pool : Type 0
Pool = List ℕ

-- `flags & bits` as a condition
abbrev pub has : ℕ → ℕ → Bool
has flags bits = if bit_and flags bits == 0 then false else true

-- `new_vma`: the area and the rest of the cache
unfoldable pub new_vma : Pool → ℕ → ℕ → ℕ → Option (Vma × Pool)
new_vma [] start end flags = none
new_vma (p ∷ pool) start end flags =
    some (record { id = p; start = start; end = end; flags = flags; op = 0 }, pool)

-- `vma_insert`: before the first area that starts later
unfoldable pub vma_insert : List Vma → Vma → List Vma
vma_insert [] v = v ∷ []
vma_insert (x ∷ xs) v = if ltb v.start x.start then v ∷ x ∷ xs else x ∷ vma_insert xs v

-- `vma_find`: the first area that ends past the address
unfoldable pub vma_find : List Vma → ℕ → Option Vma
vma_find [] addr = none
vma_find (x ∷ xs) addr = if ltb addr x.end then some x else vma_find xs addr

unfoldable pub vma_contains : Vma → ℕ → Bool
vma_contains v addr = leb v.start addr && ltb addr v.end

unfoldable pub vma_get : List Vma → ℕ → Option Vma
unfolding vma_find vma_contains
vma_get areas addr = elim (vma_find areas addr) [
  | none ↦ none
  | some v ↦ if vma_contains v addr then some v else none
]

unfoldable pub vma_size : Vma → ℕ
vma_size v = sub32 v.end v.start

-- `list_add(&new->chain, &at->chain)`
unfoldable pub list_add : ℕ → Vma → List Vma → List Vma
list_add at new [] = []
list_add at new (x ∷ xs) = if x.id == at then x ∷ new ∷ xs else x ∷ list_add at new xs

-- a write through the pointer `v.id`
unfoldable pub store : Vma → List Vma → List Vma
store v [] = []
store v (x ∷ xs) = if x.id == v.id then v ∷ xs else x ∷ store v xs

-- `list_del(&vma->chain)`
unfoldable pub list_del : ℕ → List Vma → List Vma
list_del p [] = []
list_del p (x ∷ xs) = if x.id == p then xs else x ∷ list_del p xs

-- `vma_map`: no check that the range is free
unfoldable pub vma_map : Mm → Pool → ℕ → ℕ → ℕ → Option (Vma × Mm × Pool)
unfolding new_vma vma_insert
vma_map mm pool dst len flags =
    let nr_pages = pages_in_range dst len in
    let base = page_base dst in
    elim (new_vma pool base (add32 base (nr_pages * frame_size)) flags) [
      | none ↦ none
      | some (v, rest) ↦ some (v, record mm { map = vma_insert mm.map v }, rest)
    ]
