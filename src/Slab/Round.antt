-- ===== src/Slab/Round.antt =====
-- From `slab_alloc` back through `slab_free` (kernel/slab.c).
use mathlib.Core.Path.{subst}
use native.Mathlib.Decide.{ℕ_discrete}
use native.Mathlib.Nat.{suc-mul, mul-le-mul_right, mul-div_cancel}
use telos.Prelude.{
  ℕ, suc, ◌+◌, ◌*◌, ◌/◌, ◌<◌, ◌≤◌, ◌==◌, ltb, leb, Option, none, some, Bool, true, false, not, ◌&&◌,
  ◌||◌, List, [], ◌∷◌, ◌≡◌, ◌≢◌, refl, ap, sym, ◌∙◌, arith, ◌⊎◌, inl, inr, All, ==-refl, ==-ne,
  Bool-cases,
}
use telos.Word.{word_mod, add32, sub32}
use telos.Slab.{
  SlabCache, slab_mem_size, holds, find_in, find_slab, get_slab, slab_alloc, slab_free,
}
use telos.Slab.Bitmap.{bitmap_bit}
use telos.Slab.Valid.{IsCache}
use telos.Slab.Lists.{Listed, SameLists, SameLists-trans}
use telos.Slab.Take.{Allocated}
use telos.Slab.Alloc.{slab_alloc-get_slab}
use telos.Slab.Release.{Released, slab_free-Released}

-- No other slab of the list has `p` in its memory.
abbrev pub NoOther : SlabCache → ℕ → ℕ → List ℕ → Type 0
NoOther c p s ss = All (λ a. (a ≡ s) ⊎ (holds c p a ≡ false)) ss

find_in_only :
    (c : SlabCache) (p s : ℕ) (ss : List ℕ)
    → NoOther c p s ss
    → (find_in c p ss ≡ none) ⊎ (find_in c p ss ≡ some s)
unfolding find_in
find_in_only c p s [] h = inl refl
find_in_only c p s (a ∷ ss) h = elim (Bool-cases (holds c p a)) [
  | inr t ↦ elim (find_in_only c p s ss h.1) [
    | inl e ↦ inl (ground arith)
    | inr e ↦ inr (ground arith)
  ]
  | inl t ↦ elim h.0 [ inl same ↦ inr (ground arith) | inr other ↦ absurd (ground arith) ]
]

find_in_head :
    (c : SlabCache) (p s : ℕ) (rest ss : List ℕ)
    → holds c p s ≡ true
    → ss ≡ s ∷ rest
    → find_in c p ss ≡ some s
unfolding find_in
find_in_head c p s rest ss t e = rw e (rw (t, find_in) refl)

find_slab_only :
    (c : SlabCache) (p s : ℕ)
    → holds c p s ≡ true
    → NoOther c p s c.full
    → (rest : List ℕ) × ((c.full ≡ s ∷ rest) ⊎ (c.partial ≡ s ∷ rest))
    → find_slab c p ≡ some s
unfolding find_slab
find_slab_only c p s t only (rest, inl e) = rw (find_in_head c p s rest c.full t e, find_slab) refl
find_slab_only c p s t only (rest, inr e) = elim (find_in_only c p s c.full only) [
  | inl f ↦ rw (f, find_slab) (find_in_head c p s rest c.partial t e)
  | inr f ↦ rw (f, find_slab) refl
]

object_at :
    (mem z n size total : ℕ)
    → z < n
    → 1 ≤ size
    → n * size ≤ total
    → mem + total < word_mod
    → (sub32 (add32 mem (z * size)) mem ≡ z * size)
      × ((leb mem (add32 mem (z * size)) && ltb (add32 mem (z * size)) (add32 mem total)) ≡ true)
object_at mem z n size total l pos fit room =
    let below : z * size < total =
      omega (arith, suc-mul z size, mul-le-mul_right {m = suc z} {n = n} size (omega arith)) in
    (omega arith, ground arith)

-- The object was handed out: `slab_free` of it finds the slab and the place.
find_slab_finds :
    (before after : SlabCache) (s z : ℕ)
    → Allocated before s z after
    → 1 ≤ before.obj_size
    → before.objs_per_slab * before.obj_size ≤ slab_mem_size before.pages_per_slab
    → (before.slabs s).mem + slab_mem_size before.pages_per_slab < word_mod
    → NoOther after (add32 (before.slabs s).mem (z * before.obj_size)) s after.full
    → (find_slab after (add32 (before.slabs s).mem (z * before.obj_size)) ≡ some s)
      × (sub32 (add32 (before.slabs s).mem (z * before.obj_size)) (after.slabs s).mem
            / after.obj_size
          ≡ z)
unfolding holds
find_slab_finds before after s z a pos fit room only =
    let mem : ℕ = (before.slabs s).mem in
    let (offset, inside) =
      object_at mem z before.objs_per_slab before.obj_size (slab_mem_size before.pages_per_slab)
        a.fits pos fit room in
    (
      find_slab_only after (add32 mem (z * before.obj_size)) s
          (rw (a.same_place, a.same_sizes.pages) inside) only a.listed,
      rw (a.same_place, a.same_sizes.size, offset) (mul-div_cancel z pos),
    )

-- Of `after` the slab `s` is what it was before, and is on the list for it.
Restored : SlabCache → ℕ → SlabCache → SlabCache → Type 0
Restored before s after c =
    ((i : ℕ) → bitmap_bit (c.slabs s).bitmap i ≡ bitmap_bit (before.slabs s).bitmap i)
    × ((c.slabs s).in_use ≡ (before.slabs s).in_use)
    × ((a : ℕ) → a ≢ s → c.slabs a ≡ after.slabs a)
    × SameLists after s c
    × ((((before.slabs s).in_use ≡ 0) × Listed s c.empty)
        ⊎ ((1 ≤ (before.slabs s).in_use) × Listed s c.partial))
    × IsCache c

abbrev OfCall : SlabCache → ℕ → Option (ℕ × SlabCache) → Type 0
OfCall before s none = Unit
OfCall before s (some (p, after)) =
    NoOther after p s after.full → Restored before s after (slab_free after p)

abbrev Untouched : SlabCache → ℕ → Option (ℕ × SlabCache) → Type 0
Untouched cache s none = Unit
Untouched cache s (some (p, after)) =
    SameLists cache s after × ((a : ℕ) → a ≢ s → after.slabs a ≡ cache.slabs a)

back :
    (i z : ℕ) (after before : Bool)
    → after ≡ ((i == z) || before)
    → (i ≡ z → before ≡ false)
    → (after && not (i == z)) ≡ before
back i z after before e free = elim (ℕ_discrete i z) [
  | yes same ↦ ground (arith, free same)
  | no other ↦ rw (e, ==-ne i z other) (ground arith)
]

freed :
    (before after : SlabCache) (s z : ℕ)
    → Allocated before s z after
    → 1 ≤ before.obj_size
    → before.objs_per_slab * before.obj_size ≤ slab_mem_size before.pages_per_slab
    → (before.slabs s).mem + slab_mem_size before.pages_per_slab < word_mod
    → NoOther after (add32 (before.slabs s).mem (z * before.obj_size)) s after.full
    → Restored before s after (slab_free after (add32 (before.slabs s).mem (z * before.obj_size)))
unfolding Restored
freed before after s z a pos fit room only =
    let p : ℕ = add32 (before.slabs s).mem (z * before.obj_size) in
    let (found, at_z) = find_slab_finds before after s z a pos fit room only in
    let r : Released after s z (slab_free after p) =
      subst (λ i. Released after s i (slab_free after p)) at_z
        (slab_free-Released after p s a.valid found (omega (arith, at_z, a.fits, a.same_sizes.objs))
          (ap (bitmap_bit (after.slabs s).bitmap) at_z ∙ a.taken z ∙ rw (==-refl z) refl)) in
    let same : ((slab_free after p).slabs s).in_use ≡ (before.slabs s).in_use =
      omega (arith, r.counted, a.counted) in
    (
      λ i.
          r.cleared i
          ∙ back i z (bitmap_bit (after.slabs s).bitmap i) (bitmap_bit (before.slabs s).bitmap i)
              (a.taken i) (λ e. ap (bitmap_bit (before.slabs s).bitmap) e ∙ a.was_free),
      same,
      r.others,
      r.same_lists,
      subst
          (λ n.
            ((n ≡ 0) × Listed s (slab_free after p).empty)
            ⊎ ((1 ≤ n) × Listed s (slab_free after p).partial))
          same r.placed,
      r.valid,
    )

-- The cache is valid, `get_slab` finds or makes the slab `s`, objects have a size and fit into a slab,
-- the slab does not reach the end of the addresses, and no full slab but `s` has the new object in
-- its memory: the object that `slab_alloc` hands out can be given back to `slab_free`. Then the
-- bitmap and the count of `s` are those that `get_slab` left, `s` is on the list of the empty slabs
-- if no object of it is in use and else on that of the partial ones, all other slabs and their
-- places on the lists are as they were before the two calls, and the cache is valid.
pub slab_free-slab_alloc :
    (cache : SlabCache) (page : Option ℕ) (s p : ℕ) (before after : SlabCache)
    → IsCache cache
    → get_slab cache page ≡ some (s, before)
    → slab_alloc cache page ≡ some (p, after)
    → 1 ≤ before.obj_size
    → before.objs_per_slab * before.obj_size ≤ slab_mem_size before.pages_per_slab
    → (before.slabs s).mem + slab_mem_size before.pages_per_slab < word_mod
    → NoOther after p s after.full
    → ((i : ℕ)
        → bitmap_bit ((slab_free after p).slabs s).bitmap i ≡ bitmap_bit (before.slabs s).bitmap i)
      × (((slab_free after p).slabs s).in_use ≡ (before.slabs s).in_use)
      × ((a : ℕ) → a ≢ s → (slab_free after p).slabs a ≡ cache.slabs a)
      × SameLists cache s (slab_free after p)
      × ((((before.slabs s).in_use ≡ 0) × Listed s (slab_free after p).empty)
          ⊎ ((1 ≤ (before.slabs s).in_use) × Listed s (slab_free after p).partial))
      × IsCache (slab_free after p)
unfolding Restored
slab_free-slab_alloc cache page s p before after c got call pos fit room only =
    let (z, after', e, a, l, o) = slab_alloc-get_slab cache page s before c got in
    let (bits, n, others, lists, placed, valid) =
      subst (OfCall before s) (sym e ∙ call) (freed before after' s z a pos fit room) only in
    let (l', o') = subst (Untouched cache s) (sym e ∙ call) (l, o) in
    (
      bits,
      n,
      λ b ne. others b ne ∙ o' b ne,
      SameLists-trans cache after (slab_free after p) s l' lists,
      placed,
      valid,
    )
