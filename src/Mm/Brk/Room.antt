-- ===== src/Mm/Brk/Room.antt =====
-- When the heap grows with the program break (dispatch/mem.c), it stays apart from the other areas.
use mathlib.Core.Path.{subst}
use telos.Prelude.{
  ℕ, ◌+◌, ◌%◌, ◌^◌, ◌==◌, ◌||◌, ltb, leb, some, true, false, List, [], ◌∷◌, ◌≤◌, ◌<◌, ◌≡◌, ◌⊎◌, inl,
  inr, refl, ap, sym, ◌∙◌, arith, ==-refl, Bool-cases, All,
}
use telos.Word.{add32, sub32, word_mod}
use telos.Errno.{Status, ok, fail, enomem}
use telos.Paging.{page_align}
use telos.Paging.Align.{page_align_lem}
use telos.Mm.{Vma, Mm, Pool, vma_get, store}
use telos.Mm.Layout.{Chain, In, OnPages, vma_get_sound}
use telos.Mm.Split.{next_area, runs_into, vma_grow_up}
use telos.Mm.Split.View.{Distinct, In-head, In-tail}
use telos.Mm.Access.{vm_verify}
use telos.Mm.Brk.{get_heap, set_brk, move_brk, sys_sbrk}

-- The area that comes next stands behind `top`, if there is one.
grown-Chain :
    (areas : List Vma) (lo : ℕ) (v w : Vma)
    → Chain lo areas
    → Distinct areas
    → In v areas
    → w.id ≡ v.id
    → w.start ≡ v.start
    → v.end ≤ w.end
    → runs_into (next_area areas v.id) w.end ≡ false
    → Chain lo (store w areas)
unfolding store next_area runs_into
grown-Chain [] lo v w c d i e1 e2 h r = absurd i
grown-Chain (x ∷ []) lo v w c d i e1 e2 h r = ground (arith, In-head x [] v d i, In-tail x [] v i)
grown-Chain (x ∷ y ∷ ys) lo v w c d i e1 e2 h r = ground (
  arith,
  In-head x (y ∷ ys) v d i,
  In-tail x (y ∷ ys) v i,
  grown-Chain (y ∷ ys) x.end v w c.2 d.1,
)

stored-In : (areas : List Vma) (v w : Vma) → In v areas → w.id ≡ v.id → In w (store w areas)
unfolding store
stored-In [] v w i e = absurd i
stored-In (x ∷ xs) v w i e = ground (arith, stored-In xs v w, In-tail x xs v i)

-- The next area begins on a page, so that it is enough to look as far as the bytes asked for.
next_on_page :
    (areas : List Vma) (v : Vma) (top top' : ℕ)
    → All OnPages areas
    → top' % 4096 ≡ 0
    → top' < top + 4096
    → runs_into (next_area areas v.id) top ≡ false
    → runs_into (next_area areas v.id) top' ≡ false
unfolding next_area runs_into
next_on_page [] v top top' p m l r = refl
next_on_page (x ∷ []) v top top' p m l r = ground arith
next_on_page (x ∷ y ∷ ys) v top top' p m l r =
    ground (arith, next_on_page (y ∷ ys) v top top' p.1 m l)

In-All : (P : Vma → Type 0) (areas : List Vma) (v : Vma) → All P areas → In v areas → P v
In-All P [] v h i = absurd i
In-All P (x ∷ xs) v h (inl e) = subst P (sym e) h.0
In-All P (x ∷ xs) v h (inr i) = In-All P xs v h.1 i

get_heap_found :
    (mm : Mm) (pool : Pool) (heap : Vma)
    → vma_get mm.map (sub32 mm.brk 1) ≡ some heap
    → get_heap mm pool ≡ some (heap, mm, pool)
unfolding get_heap
get_heap_found mm pool heap e = rw (e, get_heap) refl

-- What `sys_sbrk` leaves when it succeeds: the break is `inc` higher, the heap reaches it, and the
-- areas stand apart.
pub record Grown (mm : Mm) (heap : Vma) (inc : ℕ) (mm' : Mm) : Type 0 where
  pub moved : mm'.brk ≡ mm.brk + inc
  pub apart : Chain 0 mm'.map
  pub heap_reaches :
      (v : Vma) × In v mm'.map × (v.id ≡ heap.id) × (v.start ≡ heap.start) × (mm'.brk ≤ v.end)

move_brk-Grown :
    (mm : Mm) (pool : Pool) (inc : ℕ) (heap : Vma)
    → Chain 0 mm.map
    → All OnPages mm.map
    → Distinct mm.map
    → 1 ≤ mm.brk
    → mm.brk < word_mod
    → 1 ≤ inc
    → inc < 2 ^ 31
    → heap.end + inc ≤ 0xFFFF_F000
    → vma_get mm.map (sub32 mm.brk 1) ≡ some heap
    → ((move_brk heap mm pool inc ≡ (fail enomem, mm, pool))
        × (runs_into (next_area mm.map heap.id) (heap.end + inc) ≡ true))
      ⊎ ((mm' : Mm) × (move_brk heap mm pool inc ≡ (ok, mm', pool)) × Grown mm heap inc mm')
unfolding move_brk set_brk vma_grow_up
move_brk-Grown mm pool inc heap chain pages distinct b1 b2 pos small room found =
    let (here, inside) = vma_get_sound mm.map (sub32 mm.brk 1) heap found in
    let page : OnPages heap = In-All OnPages mm.map heap pages here in
    let new : ℕ = add32 mm.brk inc in
    let plain : new ≡ mm.brk + inc = omega arith in
    let low : ltb new heap.start ≡ false = ground arith in
    elim (Bool-cases (ltb new heap.end)) [
      | inl fits ↦
          let skip : (inc == 0 || leb (2 ^ 31) inc || ltb new heap.end) ≡ true = ground arith in
          inr (
            record mm { brk = new },
            rw (low, skip, move_brk) refl,
            record {
              moved = plain;
              apart = chain;
              heap_reaches = (heap, here, refl, refl, ground arith);
            },
          )
      | inr over ↦
          let goes : (inc == 0 || leb (2 ^ 31) inc || ltb new heap.end) ≡ false = ground arith in
          let same : (heap.flags == heap.flags) ≡ true = ==-refl heap.flags in
          elim (Bool-cases (runs_into (next_area mm.map heap.id) (add32 heap.end inc))) [
            | inl full ↦
                let whole : add32 heap.end inc ≡ heap.end + inc = omega arith in
                let g : vma_grow_up mm pool heap inc heap.flags ≡ (fail enomem, mm, pool) =
                  rw (same, full, vma_grow_up) refl in
                inl (
                  rw (low, goes, move_brk) (ap (set_brk new) g),
                  ap (runs_into (next_area mm.map heap.id)) (sym whole) ∙ full,
                )
            | inr free ↦
                let w : Vma = record heap { end = add32 heap.end (page_align inc) } in
                let (m, l, u) = page_align_lem inc (omega arith) in
                let top : w.end ≡ heap.end + page_align inc = omega (arith, page.0, page.1) in
                let g : vma_grow_up mm pool heap inc heap.flags
                    ≡ (ok, record mm { map = store w mm.map }, pool) =
                  rw (same, free, vma_grow_up) refl in
                inr (
                  record mm { brk = new; map = store w mm.map },
                  rw (low, goes, move_brk) (ap (set_brk new) g),
                  record {
                    moved = plain;
                    apart =
                        grown-Chain mm.map 0 heap w chain distinct here refl refl (omega arith) (
                          next_on_page mm.map heap (add32 heap.end inc) w.end pages
                            (omega (arith, page.1)) (omega arith) free);
                    heap_reaches =
                        (w, stored-In mm.map heap w here refl, refl, refl, omega (arith, inside.1));
                  },
                )
          ]
    ]

-- Up to the writing of the old break.
sys_sbrk_lem :
    (mm : Mm) (pool : Pool) (inc oldbrk : ℕ) (heap : Vma)
    → vma_get mm.map (sub32 mm.brk 1) ≡ some heap
    → vm_verify mm.map oldbrk 4 2 ≡ true
    → (r : Status × Mm × Pool) → move_brk heap mm pool inc ≡ r
    → sys_sbrk mm pool inc oldbrk ≡ (r.0, some mm.brk, r.1, r.2)
unfolding sys_sbrk
sys_sbrk_lem mm pool inc oldbrk heap found writable r e =
    rw (writable, get_heap_found mm pool heap found, sys_sbrk)
      (ap (λ (t : Status × Mm × Pool). (t.0, some mm.brk, t.1, t.2)) e)

-- The areas are in order, on pages and have identities of their own, the break is in memory, the
-- heap holds its last byte, and the pointer is writable: a call of `sys_sbrk` with a positive
-- increment that stays below the last page writes the old break, and either fails with ENOMEM and
-- changes nothing, since the next area is in the way of the heap, or moves the break, the heap
-- reaches the new one, and the areas are apart.
pub sys_sbrk-Grown :
    (mm : Mm) (pool : Pool) (inc oldbrk : ℕ) (heap : Vma)
    → Chain 0 mm.map
    → All OnPages mm.map
    → Distinct mm.map
    → 1 ≤ mm.brk
    → mm.brk < word_mod
    → 1 ≤ inc
    → inc < 2 ^ 31
    → heap.end + inc ≤ 0xFFFF_F000
    → vma_get mm.map (sub32 mm.brk 1) ≡ some heap
    → vm_verify mm.map oldbrk 4 2 ≡ true
    → ((sys_sbrk mm pool inc oldbrk ≡ (fail enomem, some mm.brk, mm, pool))
        × (runs_into (next_area mm.map heap.id) (heap.end + inc) ≡ true))
      ⊎ ((mm' : Mm) × (sys_sbrk mm pool inc oldbrk ≡ (ok, some mm.brk, mm', pool))
          × Grown mm heap inc mm')
sys_sbrk-Grown mm pool inc oldbrk heap chain pages distinct b1 b2 pos small room found writable =
    elim (move_brk-Grown mm pool inc heap chain pages distinct b1 b2 pos small room found) [
      | inl (e, full) ↦ inl (sys_sbrk_lem mm pool inc oldbrk heap found writable _ e, full)
      | inr (mm', e, g) ↦ inr (mm', sys_sbrk_lem mm pool inc oldbrk heap found writable _ e, g)
    ]
