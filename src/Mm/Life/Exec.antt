-- ===== src/Mm/Life/Exec.antt =====
-- What is left after `mm_exec` and `mm_fini`.
use mathlib.Core.List.{append_assoc}
use telos.Prelude.{
  ℕ, ◌≡◌, ◌≢◌, refl, sym, ap, inl, inr, if◌then◌else◌, Bool, true, false, ◌||◌, List, [], ◌∷◌, ◌++◌,
  arith, All-middle, Bool-cases, select, ==-refl, ==-ne,
}
use telos.Errno.{ok, fail}
use telos.Mm.{Vma, has, list_del}
use telos.Mm.Flag
use telos.Mm.Ops.{Pages}
use telos.Mm.Split.View.{Distinct}
use telos.Mm.Life.{Areas, vm_unmap, unmap_all, unmap_exec, mm_exec, mm_fini}

-- `pm_unmap` refuses the area.
abbrev refused : Pages → Vma → Bool
refused pages v = elim (pages.pm_unmap v) [ ok ↦ false | fail e ↦ true ]

-- Why an area survives `vm_unmap`, and why it survives `mm_exec`.
abbrev pub survives : Pages → Vma → Bool
survives pages v = has v.flags Flag.keep || refused pages v

abbrev pub survives_exec : Pages → Vma → Bool
survives_exec pages v = has v.flags Flag.keep_exec || survives pages v

list_del-middle :
    (kept vs : List Vma) (v : Vma)
    → Distinct (kept ++ v ∷ vs)
    → list_del v.id (kept ++ v ∷ vs) ≡ kept ++ vs
unfolding list_del
list_del-middle [] vs v d = rw (==-refl v.id)
list_del-middle (x ∷ xs) vs v d =
    let ne : x.id ≢ v.id = λ e. (All-middle (λ (y : Vma). y.id ≢ x.id) xs vs v d.0).0 (sym e) in
    rw (==-ne x.id v.id ne) (ap (λ l. x ∷ l) (list_del-middle xs vs v d.1))

Distinct-middle : (kept vs : List Vma) (v : Vma) → Distinct (kept ++ v ∷ vs) → Distinct (kept ++ vs)
Distinct-middle [] vs v d = d.1
Distinct-middle (x ∷ xs) vs v d =
    ((All-middle (λ (y : Vma). y.id ≢ x.id) xs vs v d.0).1, Distinct-middle xs vs v d.1)

-- One step: the area goes, and its `struct vma` is free, or it stays.
vm_unmap-middle :
    (pages : Pages) (kept vs : List Vma) (pool : List ℕ) (v : Vma)
    → Distinct (kept ++ v ∷ vs)
    → (vm_unmap pages (record { areas = kept ++ v ∷ vs; pool = pool }) v).0 ≡ (
        if survives pages v
        then record { areas = kept ++ v ∷ vs; pool = pool }
        else record { areas = kept ++ vs; pool = v.id ∷ pool })
unfolding vm_unmap
vm_unmap-middle pages kept vs pool v d = ground (arith, list_del-middle kept vs v d)

module _ (pages : Pages) where
  exec_step :
      (kept vs : List Vma) (pool : List ℕ) (v : Vma)
      → Distinct (kept ++ v ∷ vs)
      → let s : Areas = record { areas = kept ++ v ∷ vs; pool = pool } in
        (if has v.flags Flag.keep_exec then s else (vm_unmap pages s v).0)
        ≡ (if survives_exec pages v then s else record { areas = kept ++ vs; pool = v.id ∷ pool })
  exec_step kept vs pool v d = ground (arith, vm_unmap-middle pages kept vs pool v d)

  unmap_exec-select :
      (kept vs : List Vma) (pool : List ℕ)
      → Distinct (kept ++ vs)
      → (unmap_exec pages (record { areas = kept ++ vs; pool = pool }) vs).areas
        ≡ kept ++ select (survives_exec pages) vs
  unfolding unmap_exec
  unmap_exec-select kept [] pool d = refl
  unmap_exec-select kept (v ∷ vs) pool d = elim (Bool-cases (survives_exec pages v)) [
    | inl e ↦
        let ih : (unmap_exec pages (record { areas = kept ++ v ∷ vs; pool = pool }) vs).areas
            ≡ kept ++ v ∷ select (survives_exec pages) vs =
          simp append_assoc at
            (unmap_exec-select (kept ++ v ∷ []) vs pool (rw (append_assoc kept (v ∷ []) vs) d)) in
        ground (arith, exec_step kept vs pool v d)
    | inr e ↦
        let ih = unmap_exec-select kept vs (v.id ∷ pool) (Distinct-middle kept vs v d) in
        ground (arith, exec_step kept vs pool v d)
  ]

-- On areas with identities of their own, `mm_exec` leaves exactly those that are to stay mapped
-- across exec, that are never unmapped, or that the page tables refuse to unmap, in the order
-- they were in.
pub mm_exec-select :
    (pages : Pages) (s : Areas)
    → Distinct s.areas
    → (mm_exec pages s).areas ≡ select (survives_exec pages) s.areas
unfolding mm_exec
mm_exec-select pages s d = unmap_exec-select pages [] s.areas s.pool d

unmap_all-select :
    (pages : Pages) (kept vs : List Vma) (pool : List ℕ)
    → Distinct (kept ++ vs)
    → (unmap_all pages (record { areas = kept ++ vs; pool = pool }) vs).areas
      ≡ kept ++ select (survives pages) vs
unfolding unmap_all
unmap_all-select pages kept [] pool d = refl
unmap_all-select pages kept (v ∷ vs) pool d = elim (Bool-cases (survives pages v)) [
  | inl e ↦
      let ih : (unmap_all pages (record { areas = kept ++ v ∷ vs; pool = pool }) vs).areas
          ≡ kept ++ v ∷ select (survives pages) vs =
        simp append_assoc at (
          unmap_all-select pages (kept ++ v ∷ []) vs pool (rw (append_assoc kept (v ∷ []) vs) d)) in
      ground (arith, vm_unmap-middle pages kept vs pool v d)
  | inr e ↦
      let ih = unmap_all-select pages kept vs (v.id ∷ pool) (Distinct-middle kept vs v d) in
      ground (arith, vm_unmap-middle pages kept vs pool v d)
]

-- `mm_fini` leaves the areas that are never unmapped, and those that the page tables refuse to
-- unmap; all others are freed.
pub mm_fini-select :
    (pages : Pages) (s : Areas)
    → Distinct s.areas
    → (mm_fini pages s).areas ≡ select (survives pages) s.areas
unfolding mm_fini
mm_fini-select pages s d = unmap_all-select pages [] s.areas s.pool d
