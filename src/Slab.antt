-- ===== src/Slab.antt =====
-- The slab allocator (kernel/slab.c, include/kernel/mm/slab.h). A slab is known by its address, the
-- lists of a cache are lists of addresses, and what the slabs hold is a function of them.
pub mod Bitmap
pub mod Count
pub mod Valid
pub mod Lists
pub mod Take
pub mod Alloc
pub mod Create
pub mod Release
pub mod Round
mod Tests
use telos.Prelude.{
  ℕ, zero, suc, ◌+◌, ◌*◌, ◌/◌, ◌%◌, ◌^◌, ◌==◌, ltb, leb, if◌then◌else◌, Option, none, some, Bool,
  true, false, ◌&&◌, List, [], ◌∷◌,
}
use telos.Word.{word_mod, add32, sub32}
use telos.Paging.{frame_size}
use telos.Heap.{put}
use telos.Slab.Bitmap.{bitmap_set, bitmap_clear, bitmap_ffz}

pub record Slab : Type 0 where
  pub in_use : ℕ
  pub mem : ℕ
  pub bitmap : List ℕ

pub record SlabCache : Type 0 where
  pub full : List ℕ
  pub partial : List ℕ
  pub empty : List ℕ
  pub pages_per_slab : ℕ
  pub objs_per_slab : ℕ
  pub obj_size : ℕ
  pub slabs : ℕ → Slab

unfoldable pub bitmap_length : ℕ → ℕ
bitmap_length pages = pages * (256 / 32)

-- `sizeof(struct slab)` is 16, and a word of the bitmap has 4 bytes.
unfoldable pub slab_mem_size : ℕ → ℕ
unfolding bitmap_length
slab_mem_size pages = sub32 (pages * frame_size) (16 + bitmap_length pages * 4)

-- `slab_cache_create`, once `kmalloc` gave it memory; `slabs` is what the memory holds.
unfoldable pub slab_cache_create : (ℕ → Slab) → ℕ → SlabCache
unfolding slab_mem_size
slab_cache_create slabs size =
    let obj_size = if ltb size 16 then 16 else size in
    record {
      full = [];
      partial = [];
      empty = [];
      pages_per_slab = 1;
      objs_per_slab = slab_mem_size 1 / obj_size;
      obj_size = obj_size;
      slabs = slabs;
    }

unfoldable pub zeros : ℕ → List ℕ
zeros zero = []
zeros (suc n) = 0 ∷ zeros n

-- `new_slab` at the address that `kalloc_pages` returned
unfoldable pub new_slab : SlabCache → ℕ → Slab
unfolding zeros bitmap_length
new_slab cache a =
    let len = bitmap_length cache.pages_per_slab in
    record { mem = add32 a (16 + len * 4); in_use = 0; bitmap = zeros len }

-- A new slab goes to the head of the partial ones.
abbrev pub with_slab : SlabCache → ℕ → SlabCache
with_slab cache a = record cache {
  partial = a ∷ cache.partial;
  slabs = put cache.slabs a (new_slab cache a);
}

-- `get_slab` by what the lists are; `page` is what `kalloc_pages` returns if it is called.
unfoldable pub pick_slab : SlabCache → Option ℕ → List ℕ → List ℕ → Option (ℕ × SlabCache)
pick_slab cache page (s ∷ ss) empty = some (s, cache)
pick_slab cache page [] (s ∷ ss) = some (s, cache)
pick_slab cache none [] [] = none
pick_slab cache (some a) [] [] = some (a, with_slab cache a)

unfoldable pub get_slab : SlabCache → Option ℕ → Option (ℕ × SlabCache)
unfolding pick_slab
get_slab cache page = pick_slab cache page cache.partial cache.empty

-- `list_del(&slab->chain)`: the slab leaves the list that it is in.
unfoldable pub without : ℕ → List ℕ → List ℕ
without s [] = []
without s (a ∷ as') = let rest = without s as' in if a == s then rest else a ∷ rest

unfoldable pub leave_lists : SlabCache → ℕ → SlabCache
unfolding without
leave_lists cache s = record cache {
  full = without s cache.full;
  partial = without s cache.partial;
  empty = without s cache.empty;
}

-- The two moves of a slab by `list_del` and `list_add`, and that of `slab_free` to the empty ones.
unfoldable pub move_full : SlabCache → ℕ → SlabCache
unfolding leave_lists
move_full cache s = let c = leave_lists cache s in record c { full = s ∷ c.full }

unfoldable pub move_partial : SlabCache → ℕ → SlabCache
unfolding leave_lists
move_partial cache s = let c = leave_lists cache s in record c { partial = s ∷ c.partial }

unfoldable pub move_empty : SlabCache → ℕ → SlabCache
unfolding leave_lists
move_empty cache s = let c = leave_lists cache s in record c { empty = s ∷ c.empty }

-- `slab_alloc` with the slab that it found: an object's address.
unfoldable pub take_object : SlabCache → ℕ → ℕ × SlabCache
take_object cache s =
    let slab = cache.slabs s in
    let zero_at = bitmap_ffz slab.bitmap (bitmap_length cache.pages_per_slab) in
    let in_use : ℕ = add32 slab.in_use 1 in
    let c = record cache {
      slabs =
          put cache.slabs s
            (record slab { bitmap = bitmap_set slab.bitmap zero_at; in_use = in_use });
    } in
    (
      add32 slab.mem (zero_at * cache.obj_size),
      if in_use == cache.objs_per_slab
          then move_full c s
          else if in_use == 1
          then move_partial c s
          else c,
    )

-- `none` is the access through a null pointer when `get_slab` fails.
unfoldable pub slab_alloc : SlabCache → Option ℕ → Option (ℕ × SlabCache)
unfolding take_object
slab_alloc cache page = elim (get_slab cache page) [
  | none ↦ none
  | some (s, c) ↦ some (take_object c s)
]

unfoldable pub holds : SlabCache → ℕ → ℕ → Bool
holds cache p s =
    let mem = (cache.slabs s).mem in
    leb mem p && ltb p (add32 mem (slab_mem_size cache.pages_per_slab))

unfoldable pub find_in : SlabCache → ℕ → List ℕ → Option ℕ
unfolding holds
find_in cache p [] = none
find_in cache p (s ∷ ss) = elim (holds cache p s) [ true ↦ some s | false ↦ find_in cache p ss ]

unfoldable pub find_slab : SlabCache → ℕ → Option ℕ
unfolding find_in
find_slab cache p = elim (find_in cache p cache.full) [
  | some s ↦ some s
  | none ↦ find_in cache p cache.partial
]

-- `slab_free` with the slab that it found
unfoldable pub give_object : SlabCache → ℕ → ℕ → SlabCache
give_object cache p s =
    let slab = cache.slabs s in
    let idx = sub32 p slab.mem / cache.obj_size in
    let in_use : ℕ = sub32 slab.in_use 1 in
    let c = record cache {
      slabs =
          put cache.slabs s
            (record slab { bitmap = bitmap_clear slab.bitmap idx; in_use = in_use });
    } in
    if in_use == 0
    then move_empty c s
    else if add32 in_use 1 == cache.objs_per_slab
    then move_partial c s
    else c

unfoldable pub slab_free : SlabCache → ℕ → SlabCache
slab_free cache p = elim (find_slab cache p) [ none ↦ cache | some s ↦ give_object cache p s ]
