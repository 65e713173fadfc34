-- ===== src/Mm/Ops.antt =====
-- The callbacks of an area, `struct vma_operations`, and the functions of kernel/vma.c that call
-- them or fall back on the default (lines 322-349 and 381-407). A table is named by its address.
use telos.Prelude.{ℕ, ◌==◌, if◌then◌else◌, Option, none, some}
use telos.Errno.{Status, ok, fail, efault}
use telos.Mm.{Vma, has}
use telos.Mm.Flag

-- What the callbacks of the table at an address do, so far as the caller sees it.
pub record Ops : Type 0 where
  pub map : ℕ → Option (Vma → ℕ → Status)
  pub writeback : ℕ → Option (Vma → ℕ → ℕ → Status)
  pub read_perm : ℕ → Option (Vma → ℕ → Status)
  pub write_perm : ℕ → Option (Vma → ℕ → Status)
  pub unmap : ℕ → Option (Vma → Status)
  pub clone : ℕ → Option (Vma → Vma → Status)
  pub split : ℕ → Option (Vma → Vma → Status)

-- `op && op->f`
abbrev pub callback {ℓ} : {F : Type ℓ} → (ℕ → Option F) → ℕ → Option F
callback f op = if op == 0 then none else f op

-- The page-table operations of kernel/paging.c that this file calls, with their results.
pub record Pages : Type 0 where
  pub map_page : ℕ → ℕ → Status
  pub copy_page : ℕ → ℕ → Status
  pub pm_unmap : Vma → Status

module _ (ops : Ops) (pages : Pages) where
  unfoldable pub vm_map_page : Vma → ℕ → Status
  vm_map_page v addr = elim (callback ops.map v.op) [
    | none ↦ pages.map_page addr v.flags
    | some f ↦ f v addr
  ]

  unfoldable pub vm_writeback : Vma → ℕ → ℕ → Status
  vm_writeback v addr len = elim (callback ops.writeback v.op) [ none ↦ ok | some f ↦ f v addr len ]

  unfoldable pub vm_read_perm : Vma → ℕ → Status
  vm_read_perm v addr = elim (callback ops.read_perm v.op) [
    | none ↦ fail efault
    | some f ↦ f v addr
  ]

  unfoldable pub vm_write_perm : Vma → ℕ → Status
  vm_write_perm v addr =
      if has v.flags Flag.write
      then pages.copy_page addr v.flags
      else elim (callback ops.write_perm v.op) [ none ↦ fail efault | some f ↦ f v addr ]

-- `vm_split`: the new area with the callbacks of the old, and the result
unfoldable pub vm_split : Ops → Vma → Vma → Vma × Status
vm_split ops new old =
    let new' : Vma = record new { op = old.op } in
    (new', elim (callback ops.split old.op) [ none ↦ ok | some f ↦ f new' old ])
