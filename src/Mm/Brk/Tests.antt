-- ===== src/Mm/Brk/Tests.antt =====
-- A heap of one page, below a stack.
use telos.Prelude.{[], ◌∷◌, some, ◌≡◌, refl, true, ◌+◌, ◌⊎◌, arith}
use telos.Errno.{ok, fail, enomem}
use telos.Word.{sub32}
use telos.Mm.{Vma, Mm, vma_get}
use telos.Mm.Access.{vm_verify}
use telos.Mm.Split.{next_area, runs_into}
use telos.Mm.Brk.{sys_sbrk}
use telos.Mm.Brk.Room.{Grown, sys_sbrk-Grown}

abbrev heap : Vma
heap = record { id = 20; start = 0x100000; end = 0x101000; flags = 14; op = 0 }

abbrev above : Vma
above = record { id = 21; start = 0x800000; end = 0x802000; flags = 0x36; op = 0 }

abbrev small_space : Mm
small_space = record { pgdir = 7; map = heap ∷ above ∷ []; brk = 0x101000 }

heap_found : vma_get small_space.map (sub32 small_space.brk 1) ≡ some heap
unfolding vma_get
heap_found = refl

writable : vm_verify small_space.map 0x100800 4 2 ≡ true
unfolding vm_verify vma_get
writable = refl

sys_sbrk-Grown_example :
    ((sys_sbrk small_space [] 5000 0x100800 ≡ (fail enomem, some 0x101000, small_space, []))
      × (runs_into (next_area small_space.map 20) (0x101000 + 5000) ≡ true))
    ⊎ ((mm' : Mm) × (sys_sbrk small_space [] 5000 0x100800 ≡ (ok, some 0x101000, mm', []))
        × Grown small_space heap 5000 mm')
sys_sbrk-Grown_example =
    sys_sbrk-Grown small_space [] 5000 0x100800 heap
      (omega arith, omega arith, (omega arith, omega arith, tt))
      ((refl, refl, omega arith), ((refl, refl, omega arith), tt))
      ((λ e. absurd (omega arith), tt), (tt, tt)) (omega arith) (omega arith) (omega arith)
      (omega arith) (omega arith) heap_found writable
