-- ===== src/Mm/Tests.antt =====
-- The theorems about address spaces at concrete areas.
use telos.Prelude.{
  ◌<◌, ◌≡◌, ◌≢◌, ◌⊎◌, ◌↔◌, refl, inl, inr, List, [], ◌∷◌, none, some, true, false, arith, All, map,
  if◌then◌else◌, ltb, leb, ◌&&◌,
}
use telos.Errno.{ok}
use telos.Paging.{page_align}
use telos.Mm.{list_add, store, Vma, Mm, vma_find, vma_contains, vma_get}
use telos.Mm.Layout.{IsLaidOut, Chain, Apart, vma_get_complete}
use telos.Mm.Space.{
  vma_create_high, vma_create_low, vma_create_fixed, vma_find_space_high, find_high, create_at,
  vma_find_space,
}
use telos.Mm.Space.Free.{vma_find_space_high_wraps}
use telos.Mm.Space.Create.{
  Created, vma_create_high-Created, vma_create_low-Created, vma_create_fixed-Created,
}
use telos.Mm.Ops.{Ops, Pages}
use telos.Mm.Split.{vma_bisect, vma_split}
use telos.Mm.Split.View.{flags_at, vma_bisect-flags}
use telos.Mm.Split.Part.{vma_split-flags}
use telos.Mm.Access.{vm_verify, vm_verify_unmapped}
use telos.Mm.Access.Verify.{Verified, vm_verify_iff, vm_verify_misses_end, vm_verify_unmapped-Apart}
use telos.Mm.Life.{copy_on_write, Areas, mm_exec, mm_fini, mm_clone}
use telos.Mm.Life.Exec.{mm_exec-select, mm_fini-select}
use telos.Mm.Life.Clone.{anonymous, ids, mm_clone-copies}

abbrev text : Vma
text = record { id = 10; start = 0x1000; end = 0x3000; flags = 5; op = 0 }

abbrev stack : Vma
stack = record { id = 11; start = 0x8000; end = 0xA000; flags = 0x36; op = 0 }

abbrev areas : List Vma
areas = text ∷ stack ∷ []

abbrev mm : Mm
mm = record { pgdir = 7; map = areas; brk = 0x3000 }

abbrev no_ops : Ops
no_ops = record {
  map = λ p. none;
  writeback = λ p. none;
  read_perm = λ p. none;
  write_perm = λ p. none;
  unmap = λ p. none;
  clone = λ p. none;
  split = λ p. none;
}

abbrev pages : Pages
pages = record { map_page = λ a f. ok; copy_page = λ a f. ok; pm_unmap = λ v. ok }

areas-IsLaidOut : IsLaidOut areas
areas-IsLaidOut = omega arith

abbrev high : Vma
high = record { id = 20; start = 0xE000; end = 0x10000; flags = 3; op = 0 }

create_high_runs :
    vma_create_high mm (20 ∷ []) 0x1000 0x10000 0x1800 3
    ≡ some (high, record mm { map = text ∷ stack ∷ high ∷ [] }, [])
unfolding vma_create_high vma_find_space_high find_high create_at page_align
create_high_runs = refl

vma_create_high-Created_example :
    Created mm
      (20 ∷ [])
      0x1000
      0x10000
      0x1800
      3
      high
      (record mm { map = text ∷ stack ∷ high ∷ [] })
      []
vma_create_high-Created_example =
    vma_create_high-Created mm (20 ∷ []) 0x1000 0x10000 0x1800 3 high
      (record mm { map = text ∷ stack ∷ high ∷ [] }) [] areas-IsLaidOut (omega arith) refl
      (omega arith) (omega arith) (omega arith) create_high_runs

abbrev low : Vma
low = record { id = 20; start = 0x3000; end = 0x5000; flags = 3; op = 0 }

create_low_runs :
    vma_create_low mm (20 ∷ []) 0x1000 0x10000 0x1800 3
    ≡ some (low, record mm { map = text ∷ low ∷ stack ∷ [] }, [])
unfolding vma_create_low vma_find_space create_at page_align
create_low_runs = refl

vma_create_low-Created_run :
    Created mm
      (20 ∷ [])
      0x1000
      0x10000
      0x1800
      3
      low
      (record mm { map = text ∷ low ∷ stack ∷ [] })
      []
vma_create_low-Created_run =
    vma_create_low-Created mm (20 ∷ []) 0x1000 0x10000 0x1800 3 low
      (record mm { map = text ∷ low ∷ stack ∷ [] }) [] areas-IsLaidOut (omega arith) refl refl
      (omega arith) (omega arith) (omega arith) create_low_runs

abbrev fixed : Vma
fixed = record { id = 20; start = 0x4000; end = 0x6000; flags = 3; op = 0 }

create_fixed_runs :
    vma_create_fixed mm (20 ∷ []) 0x4000 0x1800 3
    ≡ some (fixed, record mm { map = text ∷ fixed ∷ stack ∷ [] }, [])
unfolding vma_create_fixed vma_find vma_contains create_at page_align
create_fixed_runs = refl

create_fixed_refuses : vma_create_fixed mm (20 ∷ []) 0x7000 0x1800 3 ≡ none
unfolding vma_create_fixed vma_find vma_contains
create_fixed_refuses = refl

vma_create_fixed-Created_example :
    (fixed.start ≡ 0x4000)
    × Created mm
        (20 ∷ [])
        0x4000
        (page_align 0x5800)
        0x1800
        3
        fixed
        (record mm { map = text ∷ fixed ∷ stack ∷ [] })
        []
vma_create_fixed-Created_example =
    vma_create_fixed-Created mm (20 ∷ []) 0x4000 0x1800 3 fixed
      (record mm { map = text ∷ fixed ∷ stack ∷ [] }) [] areas-IsLaidOut refl (omega arith)
      (omega arith) create_fixed_runs

finds_area : vma_get areas 0x8010 ≡ some stack
finds_area = vma_get_complete areas 0x8010 0 stack (omega arith) (inr (inl refl)) (omega arith)

-- Write permission is taken from the first page of the stack.
vma_split-flags_example :
    let r = vma_split no_ops areas (20 ∷ []) stack 0x8000 0x9000 0x34 in
    ((r.status ≡ ok)
      × (Chain 0 r.areas
          × (flags_at r.areas 0x8010 ≡ (
              if leb 0x8000 0x8010 && ltb 0x8010 0x9000
              then some 0x34
              else flags_at areas 0x8010))))
    ⊎ ((r.status ≢ ok) × (r.areas ≡ areas))
vma_split-flags_example =
    vma_split-flags no_ops areas (20 ∷ []) stack 0x8000 0x9000 0x34 0x8010 (omega arith)
      (omega arith) (omega arith) (inr (inl refl)) (omega arith) (omega arith) (omega arith)

split_runs :
    (vma_split no_ops areas (20 ∷ []) stack 0x8000 0x9000 0x34).areas
    ≡ text
      ∷ record stack { end = 0x9000; flags = 0x34 }
      ∷ record stack { id = 20; start = 0x9000 }
      ∷ []
unfolding vma_split vma_bisect list_add store
split_runs = refl

vma_bisect-flags_run :
    let r = vma_bisect no_ops areas (20 ∷ []) stack 0x9000 1 2 in
    ((r.status ≡ ok)
      × Chain 0 r.areas
      × (flags_at r.areas 0x9010 ≡ (
          if leb 0x8000 0x9010 && ltb 0x9010 0xA000
          then (if ltb 0x9010 0x9000 then some 1 else some 2)
          else flags_at areas 0x9010)))
    ⊎ ((r.status ≢ ok) × (r.areas ≡ areas) × (r.pool ≡ 20 ∷ []))
vma_bisect-flags_run =
    vma_bisect-flags no_ops areas (20 ∷ []) stack 0x9000 1 2 0x9010 (omega arith) (omega arith)
      (inr (inl refl)) (omega arith) (omega arith)

vm_verify_iff_example : (vm_verify areas 0x8010 8 4 ≡ true) ↔ Verified areas 0x8010 8 4
vm_verify_iff_example = vm_verify_iff areas 0x8010 8 4 (omega arith) (omega arith)

vm_verify_misses_end_example :
    (vm_verify areas 0x9FF8 16 4 ≡ true) × (vm_verify areas 0x8000 16 4 ≡ false)
vm_verify_misses_end_example =
    vm_verify_misses_end areas stack 0x9FF8 16 4 (omega arith) (inr (inl refl)) (omega arith)
      (omega arith) (omega arith) (omega arith) refl

unmapped_runs : vm_verify_unmapped areas 0x3000 0x4000 ≡ true
unfolding vm_verify_unmapped vma_find
unmapped_runs = refl

vm_verify_unmapped-Apart_run : All (Apart 0x3000 0x7000) areas
vm_verify_unmapped-Apart_run =
    vm_verify_unmapped-Apart areas 0x3000 0x4000 0 (omega arith) (omega arith) unmapped_runs

abbrev held : Areas
held = record { areas = areas; pool = [] }

-- The text goes, the stack stays.
mm_exec-select_run : (mm_exec pages held).areas ≡ stack ∷ []
mm_exec-select_run = mm_exec-select pages held (omega arith)

fini_leaves : (mm_fini pages held).areas ≡ stack ∷ []
fini_leaves = mm_fini-select pages held (omega arith)

mm_clone-copies_example :
    let (status, mm', rest, prot) = mm_clone pages (some 8) mm mm (30 ∷ 31 ∷ 32 ∷ []) in
    (status ≡ ok)
    × (map anonymous mm'.map ≡ map anonymous areas)
    × (ids mm'.map ≡ 30 ∷ 31 ∷ [])
    × (mm'.pgdir ≡ 8)
    × (mm'.brk ≡ 0x3000)
    × (rest ≡ 32 ∷ [])
    × (prot ≡ 11 ∷ 31 ∷ [])
unfolding copy_on_write
mm_clone-copies_example = mm_clone-copies pages 8 mm mm (30 ∷ 31 ∷ 32 ∷ []) (omega arith)

vma_find_space_high_wraps_example :
    (vma_find_space_high areas 0x2000 0xC000 0xFFFF_E000 ≡ 0xE000)
    × (0xC000 < vma_find_space_high areas 0x2000 0xC000 0xFFFF_E000)
unfolding page_align
vma_find_space_high_wraps_example =
    vma_find_space_high_wraps areas (text ∷ []) stack 0x2000 0xC000 0xFFFF_E000 refl (omega arith)
      (omega arith) (omega arith) (omega arith) (omega arith) (omega arith)
