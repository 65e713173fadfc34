-- ===== src/Heap.antt =====
-- The kernel heap (kernel/kmalloc.c, include/kernel/mm/kmalloc.h). A segment is known by the
-- address of its header; what the headers hold is a function of that address.
pub mod Free
pub mod Apart
pub mod Alloc
mod Tests
use telos.Prelude.{
  ℕ, ◌+◌, ◌*◌, ◌/◌, ◌==◌, leb, if◌then◌else◌, Option, none, some, Bool, true, false, ◌||◌, List, [],
  ◌∷◌,
}
use telos.Word.{add32, sub32}
use telos.Paging.{align_up, frame_size}

-- What stands in the field: MAGIC_OK, MAGIC_FREE or anything else.
pub data Magic : Type 0 where
  magic_ok magic_free : Magic
  other : ℕ → Magic

pub record Heap : Type 0 where
  pub size : ℕ → ℕ
  pub magic : ℕ → Magic
  pub free_list : List ℕ

-- `sizeof(struct mem_header)`
abbrev pub header : ℕ
header = 16

abbrev pub put {ℓ} : {A : Type ℓ} → (ℕ → A) → ℕ → A → ℕ → A
put f a v b = if b == a then v else f b

unfoldable pub pages_needed : ℕ → ℕ
pages_needed size = align_up (add32 size header) frame_size / frame_size

-- The search of `hmalloc` for a segment that is large enough.
unfoldable pub first_fit : (ℕ → ℕ) → List ℕ → ℕ → Option ℕ
first_fit size [] n = none
first_fit size (p ∷ ps) n =
    let rest = first_fit size ps n in if leb n (size p) then some p else rest

-- `list_replace` on the free list, and `list_del`
unfoldable pub replace : ℕ → ℕ → List ℕ → List ℕ
replace p r [] = []
replace p r (q ∷ qs) = if q == p then r ∷ qs else q ∷ replace p r qs

unfoldable pub remove : ℕ → List ℕ → List ℕ
remove p [] = []
remove p (q ∷ qs) = if q == p then qs else q ∷ remove p qs

-- `hmalloc` once it has the segment `p`: all of it is taken, or it is split in two.
unfoldable pub take_segment : Heap → ℕ → ℕ → Heap
unfolding remove replace
take_segment h p size =
    let r = add32 (add32 p header) size in
    if leb (sub32 (h.size p) size) (header + 16)
    then record h { magic = put h.magic p magic_ok; free_list = remove p h.free_list }
    else record {
      size = put (put h.size r (sub32 (sub32 (h.size p) size) header)) p size;
      magic = put (put h.magic r magic_free) p magic_ok;
      free_list = replace p r h.free_list;
    }

-- A new segment, at what `kalloc_pages` returned, at the head of the free list.
unfoldable pub grow : Heap → ℕ → ℕ → Heap
grow h p pages = record h {
  size = put h.size p (sub32 (pages * frame_size) header);
  free_list = p ∷ h.free_list;
}

-- `hmalloc`; `kalloc_pages` is given. It returns the header.
unfoldable pub hmalloc : (ℕ → ℕ) → Heap → ℕ → ℕ × Heap
unfolding pages_needed
hmalloc kalloc_pages h n =
    let size = align_up n 16 in
    let pages = pages_needed size in
    elim (first_fit h.size h.free_list size) [
      | some p ↦ (p, take_segment h p size)
      | none ↦ (
        kalloc_pages pages,
        take_segment (grow h (kalloc_pages pages) pages) (kalloc_pages pages) size,
      )
    ]

-- `hfree`. The segment keeps its `magic`.
unfoldable pub hfree : Heap → ℕ → Heap
hfree h p = elim (h.magic p) [
  | magic_ok ↦ record h { free_list = p ∷ h.free_list }
  | magic_free ↦ h
  | other x ↦ h
]
