-- ===== src/Mm/Split.antt =====
-- Cutting areas in two and in three, and growing them (kernel/vma.c).
pub mod View
pub mod Part
use telos.Prelude.{
  ℕ, ◌+◌, ◌==◌, ltb, if◌then◌else◌, Option, none, some, Bool, true, false, List, [], ◌∷◌,
}
use telos.Word.{add32}
use telos.Errno.{Status, ok, fail, enomem}
use telos.Paging.{page_align}
use telos.Mm.{Vma, Mm, Pool, store, list_add, vma_map}
use telos.Mm.Ops.{Ops, vm_split}

-- What a change of the map returns: the result, the areas and the free `struct vma`s.
pub record After : Type 0 where
  pub status : Status
  pub areas : List Vma
  pub pool : Pool

-- `vma_bisect`. If the callback refuses, the area gets its flags and its end back.
unfoldable pub vma_bisect : Ops → List Vma → Pool → Vma → ℕ → ℕ → ℕ → After
unfolding vm_split
vma_bisect ops areas [] v split lflags rflags = record {
  status = fail enomem;
  areas = areas;
  pool = [];
}
vma_bisect ops areas (p ∷ pool) v split lflags rflags =
    let right : Vma = record { id = p; start = split; end = v.end; flags = rflags; op = v.op } in
    let left : Vma = record v { end = split; flags = lflags } in
    let cut = store left areas in
    elim (vm_split ops right left).1 [
      | ok ↦ record {
        status = ok;
        areas = list_add v.id (vm_split ops right left).0 cut;
        pool = pool;
      }
      | fail e ↦ record {
        status = fail e;
        areas = store (record left { flags = v.flags; end = right.end }) cut;
        pool = p ∷ pool;
      }
    ]

-- The middle case of `vma_split`, once both areas are there. `mid` is split off while the area
-- still has its old end.
unfoldable pub split_middle : Ops → List Vma → Pool → Vma → ℕ → ℕ → ℕ → ℕ → ℕ → After
unfolding vm_split
split_middle ops areas pool v p q start end flags =
    let right : Vma = record { id = q; start = end; end = v.end; flags = v.flags; op = 0 } in
    let mid : Vma = record { id = p; start = start; end = end; flags = flags; op = 0 } in
    let (mid', first) = vm_split ops mid v in
    let (right', second) = vm_split ops right mid' in
    let undo : Status → After = λ s. record { status = s; areas = areas; pool = q ∷ p ∷ pool } in
    elim first [
      | fail e ↦ undo (fail e)
      | ok ↦ elim second [
        | fail e ↦ undo (fail e)
        | ok ↦ record {
          status = ok;
          areas = list_add p right' (list_add v.id mid' (store (record v { end = start }) areas));
          pool = pool;
        }
      ]
    ]

-- `vma_split`: change the flags of the part from `start` to `end`
unfoldable pub vma_split : Ops → List Vma → Pool → Vma → ℕ → ℕ → ℕ → After
vma_split ops areas pool v start end flags =
    if v.start == start
    then vma_bisect ops areas pool v end flags v.flags
    else if v.end == end
    then vma_bisect ops areas pool v start v.flags flags
    else elim pool [
      | [] ↦ record { status = fail enomem; areas = areas; pool = [] }
      | p ∷ rest ↦ elim rest [
        | [] ↦ record { status = fail enomem; areas = areas; pool = p ∷ [] }
        | q ∷ rest' ↦ split_middle ops areas rest' v p q start end flags
      ]
    ]

-- `vma->chain.next`
unfoldable pub next_area : List Vma → ℕ → Option Vma
next_area [] p = none
next_area (x ∷ xs) p = if x.id == p then first xs else next_area xs p
  where
    first : List Vma → Option Vma
    first [] = none
    first (y ∷ ys) = some y

-- The test of `vma_grow_up` on the next area.
unfoldable pub runs_into : Option Vma → ℕ → Bool
runs_into none top = false
runs_into (some next) top = ltb next.start top

unfoldable pub vma_grow_up : Mm → Pool → Vma → ℕ → ℕ → Status × Mm × Pool
unfolding runs_into
vma_grow_up mm pool v amount flags =
    if flags == v.flags
    then (if runs_into (next_area mm.map v.id) (add32 v.end amount)
        then (fail enomem, mm, pool)
        else (
          ok,
          record mm { map = store (record v { end = add32 v.end (page_align amount) }) mm.map },
          pool,
        ))
    else elim (vma_map mm pool v.end amount flags) [
      | none ↦ (fail enomem, mm, pool)
      | some (w, mm', rest) ↦ (ok, mm', rest)
    ]
