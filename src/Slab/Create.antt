-- ===== src/Slab/Create.antt =====
-- What `slab_cache_create` (kernel/slab.c) makes.
use native.Mathlib.Nat.{div-mul-le_self, le-div_iff_mul-le, div-lt_iff_lt-mul}
use telos.Prelude.{ℕ, ◌*◌, ◌/◌, ◌≤◌, ltb, if◌then◌else◌, ◌≡◌, refl, arith}
use telos.Slab.{Slab, slab_cache_create, slab_mem_size, bitmap_length}
use telos.Slab.Valid.{IsCache}

mem_size : slab_mem_size 1 ≡ 4048
unfolding slab_mem_size
mem_size = refl

count_fits : (d : ℕ) → 16 ≤ d → d ≤ 4048 → (1 ≤ 4048 / d) × (4048 / d ≤ 256) × (4048 / d * d ≤ 4048)
count_fits d l h = (
  (le-div_iff_mul-le {k = d} {x = 1} {y = 4048} (omega arith)).1 (omega arith),
  omega (arith, (div-lt_iff_lt-mul {k = d} {x = 4048} {y = 257} (omega arith)).1 (omega arith)),
  div-mul-le_self 4048 d,
)

-- The size of an object is at most what a slab has room for: the new cache is valid, and so are the
-- sizes, which round trips of objects ask for.
pub slab_cache_create-IsCache :
    (slabs : ℕ → Slab) (size : ℕ)
    → size ≤ 4048
    → IsCache (slab_cache_create slabs size)
      × (1 ≤ (slab_cache_create slabs size).obj_size)
      × (size ≤ (slab_cache_create slabs size).obj_size)
      × ((slab_cache_create slabs size).objs_per_slab * (slab_cache_create slabs size).obj_size
          ≤ slab_mem_size (slab_cache_create slabs size).pages_per_slab)
unfolding slab_cache_create bitmap_length
slab_cache_create-IsCache slabs size h =
    let d : ℕ = if ltb size 16 then 16 else size in
    let low : 16 ≤ d = ground arith in
    let (some_objects, few, fit) = count_fits d low (ground arith) in
    (
      record {
        sized = record {
          some_objects = rw mem_size some_objects;
          room = rw mem_size few;
          small = omega arith;
        };
        full = tt;
        partial = tt;
        empty = tt;
      },
      omega arith,
      ground arith,
      rw mem_size fit,
    )
