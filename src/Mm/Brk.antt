-- ===== src/Mm/Brk.antt =====
-- The program break (dispatch/mem.c, `get_heap` of dispatch/process.c).
pub mod Room
mod Tests
use telos.Prelude.{
  ℕ, ◌+◌, ◌-◌, ◌%◌, ◌^◌, ◌==◌, ◌||◌, not, ltb, leb, if◌then◌else◌, Option, none, some, Bool, true,
  false, List, [], ◌∷◌, ◌≤◌, ◌<◌, ◌≡◌, ◌⊎◌, inl, inr, refl, arith, Bool-cases,
}
use telos.Word.{add32, sub32}
use telos.Errno.{Status, ok, fail, efault, einval, enomem}
use telos.Mm.{Vma, Mm, Pool, vma_get, vma_map}
use telos.Mm.Access.{vm_verify}
use telos.Mm.Split.{vma_grow_up}

-- `HEAP_FLAGS`: VM_READ | VM_WRITE | VM_ZERO
abbrev pub heap_flags : ℕ
heap_flags = 14

unfoldable pub get_heap : Mm → Pool → Option (Vma × Mm × Pool)
get_heap mm pool = elim (vma_get mm.map (sub32 mm.brk 1)) [
  | some heap ↦ some (heap, mm, pool)
  | none ↦ vma_map mm pool (sub32 mm.brk 1) 1 heap_flags
]

-- The end of `sys_sbrk`, after `vma_grow_up`.
unfoldable pub set_brk : ℕ → Status × Mm × Pool → Status × Mm × Pool
set_brk new (ok, mm, pool) = (ok, record mm { brk = new }, pool)
set_brk new (fail e, mm, pool) = (fail e, mm, pool)

-- `sys_sbrk` from the test of `new` on.
unfoldable pub move_brk : Vma → Mm → Pool → ℕ → Status × Mm × Pool
move_brk heap mm pool inc =
    let new : ℕ = add32 mm.brk inc in
    if ltb new heap.start
    then (fail einval, mm, pool)
    else if inc == 0 || leb (2 ^ 31) inc || ltb new heap.end
    then (ok, record mm { brk = new }, pool)
    else set_brk new (vma_grow_up mm pool heap inc heap.flags)

-- `sys_sbrk`; a negative `inc` is one from 2 ^ 31 on. The second result is what is written to
-- `oldbrk`, if anything.
unfoldable pub sys_sbrk : Mm → Pool → ℕ → ℕ → Status × Option ℕ × Mm × Pool
sys_sbrk mm pool inc oldbrk =
    if not (vm_verify mm.map oldbrk 4 2)
    then (fail efault, none, mm, pool)
    else elim (get_heap mm pool) [
      | none ↦ (fail enomem, some mm.brk, mm, pool)
      | some (heap, mm', pool') ↦
          let (status, mm'', pool'') = move_brk heap mm' pool' inc in
          (status, some mm.brk, mm'', pool'')
    ]
