-- ===== src/Slab/Tests.antt =====
-- A cache for objects of 2000 bytes, two to a slab, and one page for it.
use mathlib.Core.Path.{subst}
use telos.Prelude.{ℕ, ◌*◌, ◌≤◌, Option, none, some, true, [], ◌≡◌, ◌≢◌, refl, sym, ◌∙◌, arith, ◌⊎◌}
use telos.Word.{add32}
use telos.Slab.{
  Slab, SlabCache, slab_cache_create, new_slab, with_slab, get_slab, slab_alloc, take_object,
  slab_free, find_slab, slab_mem_size, move_partial,
}
use telos.Word.Bits.{bit}
use telos.Slab.Bitmap.{ffz, bitmap_bit, bitmap_ffz, bitmap_set}
use telos.Slab.Valid.{IsCache}
use telos.Slab.Create.{slab_cache_create-IsCache}
use telos.Slab.Lists.{SameLists, Listed}
use telos.Slab.Take.{Allocated}
use telos.Slab.Alloc.{OfResult, slab_alloc-Allocated, slab_alloc-get_slab}
use telos.Slab.Release.{Released, slab_free-Released}
use telos.Slab.Round.{slab_free-slab_alloc}

abbrev memory : ℕ → Slab
memory a = record { in_use = 0; mem = 0; bitmap = [] }

abbrev page : Option ℕ
page = some 65536

abbrev new_cache : SlabCache
new_cache = slab_cache_create memory 2000

slab_cache_create-IsCache_example :
    IsCache (slab_cache_create memory 2000)
    × (1 ≤ (slab_cache_create memory 2000).obj_size)
    × (2000 ≤ (slab_cache_create memory 2000).obj_size)
    × ((slab_cache_create memory 2000).objs_per_slab * (slab_cache_create memory 2000).obj_size
        ≤ slab_mem_size (slab_cache_create memory 2000).pages_per_slab)
slab_cache_create-IsCache_example = slab_cache_create-IsCache memory 2000 (omega arith)

new_cache-IsCache : IsCache new_cache
new_cache-IsCache = (slab_cache_create-IsCache memory 2000 (omega arith)).0

slab_alloc-Allocated_example :
    ((slab_alloc new_cache page ≡ none)
      × (new_cache.partial ≡ [])
      × (new_cache.empty ≡ [])
      × (page ≡ none))
    ⊎ ((s : ℕ) × (z : ℕ) × (before : SlabCache) × (after : SlabCache) × ((before ≡ new_cache)
          ⊎ ((page ≡ some s) × (before.slabs s ≡ new_slab new_cache s)))
        × (slab_alloc new_cache page
            ≡ some (add32 (before.slabs s).mem (z * before.obj_size), after))
        × Allocated before s z after
        × SameLists new_cache s after
        × ((a : ℕ) → a ≢ s → after.slabs a ≡ new_cache.slabs a))
slab_alloc-Allocated_example = slab_alloc-Allocated new_cache page new_cache-IsCache

abbrev one_slab : SlabCache
one_slab = with_slab new_cache 65536

abbrev one_taken : SlabCache
one_taken = (take_object one_slab 65536).1

got : get_slab new_cache page ≡ some (65536, one_slab)
unfolding get_slab slab_cache_create
got = refl

-- The first object of the slab stands behind its descriptor.
taken : slab_alloc new_cache page ≡ some (65584, one_taken)
unfolding slab_alloc get_slab slab_cache_create take_object new_slab bitmap_ffz ffz
taken = refl

one_taken-IsCache : IsCache one_taken
one_taken-IsCache =
    let (z, after, e, a, l, o) =
      slab_alloc-get_slab new_cache page 65536 one_slab new_cache-IsCache got in
    subst (OfResult (λ p c. IsCache c)) (sym e ∙ taken) a.valid

found_object :
    (find_slab one_taken 65584 ≡ some 65536) × (bitmap_bit (one_taken.slabs 65536).bitmap 0 ≡ true)
unfolding find_slab slab_cache_create take_object new_slab bitmap_ffz bitmap_bit bitmap_set
    move_partial bit ffz
found_object = (refl, refl)

slab_free-Released_example : Released one_taken 65536 0 (slab_free one_taken 65584)
unfolding take_object new_slab slab_cache_create move_partial
slab_free-Released_example =
    slab_free-Released one_taken 65584 65536 one_taken-IsCache found_object.0 (omega arith)
      found_object.1

slab_free-slab_alloc_example :
    ((i : ℕ)
      → bitmap_bit ((slab_free one_taken 65584).slabs 65536).bitmap i
        ≡ bitmap_bit (one_slab.slabs 65536).bitmap i)
    × (((slab_free one_taken 65584).slabs 65536).in_use ≡ (one_slab.slabs 65536).in_use)
    × ((a : ℕ) → a ≢ 65536 → (slab_free one_taken 65584).slabs a ≡ new_cache.slabs a)
    × SameLists new_cache 65536 (slab_free one_taken 65584)
    × ((((one_slab.slabs 65536).in_use ≡ 0) × Listed 65536 (slab_free one_taken 65584).empty)
        ⊎ ((1 ≤ (one_slab.slabs 65536).in_use) × Listed 65536 (slab_free one_taken 65584).partial))
    × IsCache (slab_free one_taken 65584)
unfolding slab_mem_size new_slab slab_cache_create take_object move_partial
slab_free-slab_alloc_example =
    slab_free-slab_alloc new_cache page 65536 65584 one_slab one_taken new_cache-IsCache got taken
      (omega arith) (omega arith) (omega arith) tt
