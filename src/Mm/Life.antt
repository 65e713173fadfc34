-- ===== src/Mm/Life.antt =====
-- Setting up, copying and tearing down an address space (kernel/vma.c).
pub mod Exec
pub mod Clone
use telos.Prelude.{
  ℕ, ◌==◌, if◌then◌else◌, Option, none, some, Bool, true, false, not, ◌&&◌, List, [], ◌∷◌, ◌++◌,
}
use telos.Errno.{Status, ok, fail, enomem}
use telos.Mm.{Vma, Mm, Pool, has, new_vma, list_del}
use telos.Mm.Flag
use telos.Mm.Ops.{Ops, Pages, callback}

-- The areas and the free `struct vma`s.
pub record Areas : Type 0 where
  pub areas : List Vma
  pub pool : Pool

module _ (pages : Pages) where
  -- `vm_unmap`. What the callback `unmap` returns is not looked at.
  unfoldable pub vm_unmap : Areas → Vma → Areas × Status
  vm_unmap s v = if has v.flags Flag.keep then (s, ok) else elim (pages.pm_unmap v) [
    | fail e ↦ (s, fail e)
    | ok ↦ (record { areas = list_del v.id s.areas; pool = v.id ∷ s.pool }, ok)
  ]

  -- The loop of `mm_fini` over the areas; the next one is read before an area goes.
  unfoldable pub unmap_all : Areas → List Vma → Areas
  unfolding vm_unmap
  unmap_all s [] = s
  unmap_all s (v ∷ vs) = unmap_all (vm_unmap s v).0 vs

  -- The loop of `mm_exec`.
  unfoldable pub unmap_exec : Areas → List Vma → Areas
  unfolding vm_unmap
  unmap_exec s [] = s
  unmap_exec s (v ∷ vs) = unmap_exec (if has v.flags Flag.keep_exec then s else (vm_unmap s v).0) vs

  unfoldable pub mm_exec : Areas → Areas
  unfolding unmap_exec
  mm_exec s = unmap_exec s s.areas

  -- `mm_fini`; the page directory goes last.
  unfoldable pub mm_fini : Areas → Areas
  unfolding unmap_all
  mm_fini s = unmap_all s s.areas

-- `mm_init`; `new_pgdir` may be out of memory.
unfoldable pub mm_init : Option ℕ → Mm → Status × Mm
mm_init none mm = (fail enomem, record mm { pgdir = 0 })
mm_init (some pgdir) mm = (ok, record mm { pgdir = pgdir; map = [] })

-- Both copies of such an area are write-protected by `vm_clone`, and copied on the first write.
unfoldable pub copy_on_write : Vma → Bool
copy_on_write v = has v.flags Flag.write && not (has v.flags Flag.share)

-- What `mm_clone` has done so far: the new areas, the free `struct vma`s, and the areas that
-- `pm_disable_write` was called on.
pub record Cloned : Type 0 where
  pub status : Status
  pub areas : List Vma
  pub pool : Pool
  pub protected : List ℕ

-- The loop of `mm_clone` with `vm_clone`. What the callback `clone` returns is not looked at. The
-- areas are added at the end of the new list.
unfoldable pub clone_areas : List Vma → List Vma → Pool → List ℕ → Cloned
unfolding new_vma copy_on_write
clone_areas [] done pool prot = record { status = ok; areas = done; pool = pool; protected = prot }
clone_areas (v ∷ vs) done pool prot = elim (new_vma pool v.start v.end v.flags) [
  | none ↦ record { status = fail enomem; areas = done; pool = pool; protected = prot }
  | some (new, rest) ↦
      clone_areas vs (done ++ record new { op = v.op } ∷ []) rest
        (if copy_on_write v then prot ++ v.id ∷ new.id ∷ [] else prot)
]

-- `mm_clone` into `dst`; `clone_pgdir` may be out of memory. A copy that fails is undone by
-- `mm_fini`.
unfoldable pub mm_clone : Pages → Option ℕ → Mm → Mm → Pool → Status × Mm × Pool × List ℕ
unfolding clone_areas mm_fini
mm_clone pages none dst src pool = (fail enomem, record dst { pgdir = 0 }, pool, [])
mm_clone pages (some pgdir) dst src pool =
    let c = clone_areas src.map [] pool [] in
    elim c.status [
      | ok ↦ (ok, record { pgdir = pgdir; map = c.areas; brk = src.brk }, c.pool, c.protected)
      | fail e ↦
          let left = mm_fini pages (record { areas = c.areas; pool = c.pool }) in
          (fail e, record dst { pgdir = pgdir; map = left.areas }, left.pool, c.protected)
    ]
