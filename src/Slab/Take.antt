-- ===== src/Slab/Take.antt =====
-- How `slab_alloc` (kernel/slab.c) takes an object from the slab that it found.
use telos.Prelude.{
  ℕ, ◌+◌, ◌-◌, ◌*◌, ◌<◌, ◌≤◌, ◌==◌, false, ◌||◌, List, ◌∷◌, length-set, ◌≡◌, ◌≢◌, refl, ap, ◌∙◌,
  arith, ◌⊎◌, inl, inr, ==-ne, ==-refl, Bool-cases,
}
use telos.Word.{add32}
use telos.Heap.{put}
use telos.Slab.{Slab, SlabCache, bitmap_length, take_object, move_full, move_partial}
use telos.Slab.Bitmap.{bitmap_bit, bitmap_set, bitmap_ffz}
use telos.Slab.Bitmap.Found.{bitmap_set-IsWords, bitmap_bit-set, bitmap_ffz_first}
use telos.Slab.Lists.{SameLists, move_full-SameLists, move_partial-SameLists}
use telos.Slab.Count.{count-lt, count_more}
use telos.Slab.Valid.{
  IsSlab, IsSized, IsCache, IsCacheBut, write, write-but, write-IsCache, move_full-IsCache,
  move_partial-IsCache,
}

-- The fields that are set once.
pub record SameSizes (before after : SlabCache) : Type 0 where
  pub pages : after.pages_per_slab ≡ before.pages_per_slab
  pub objs : after.objs_per_slab ≡ before.objs_per_slab
  pub size : after.obj_size ≡ before.obj_size

-- From the cache that `get_slab` left, with its slab `s`: the object at `z` was the first that is
-- free, it is taken and nothing else is, the slab heads the list that it is on now, the other slabs
-- keep their lists, and the cache is valid.
pub record Allocated (before : SlabCache) (s z : ℕ) (after : SlabCache) : Type 0 where
  pub fits : z < before.objs_per_slab
  pub was_free : bitmap_bit (before.slabs s).bitmap z ≡ false
  pub first :
      (k : ℕ) → k < before.objs_per_slab → bitmap_bit (before.slabs s).bitmap k ≡ false → z ≤ k
  pub taken :
      (i : ℕ)
      → bitmap_bit (after.slabs s).bitmap i ≡ ((i == z) || bitmap_bit (before.slabs s).bitmap i)
  pub counted : (after.slabs s).in_use ≡ (before.slabs s).in_use + 1
  pub listed : (rest : List ℕ) × ((after.full ≡ s ∷ rest) ⊎ (after.partial ≡ s ∷ rest))
  pub same_lists : SameLists before s after
  pub same_place : (after.slabs s).mem ≡ (before.slabs s).mem
  pub same_sizes : SameSizes before after
  pub others : (a : ℕ) → a ≢ s → after.slabs a ≡ before.slabs a
  pub valid : IsCache after

-- The slab `s` of the cache has a free object.
module _ (c : SlabCache) (s : ℕ) (sized : IsSized c)
    (h : IsSlab c.pages_per_slab c.objs_per_slab 0 (c.objs_per_slab - 1) (c.slabs s)) where
  abbrev slab : Slab
  slab = c.slabs s

  abbrev z : ℕ
  z = bitmap_ffz slab.bitmap (bitmap_length c.pages_per_slab)

  abbrev slab' : Slab
  slab' = record slab { bitmap = bitmap_set slab.bitmap z; in_use = add32 slab.in_use 1 }

  some_free : (k : ℕ) × (k < c.objs_per_slab) × (bitmap_bit slab.bitmap k ≡ false)
  some_free =
      count-lt (bitmap_bit slab.bitmap) c.objs_per_slab
        (omega (arith, h.counted, h.most, sized.some_objects))

  before_free :
      (k : ℕ)
      → k < c.objs_per_slab
      → bitmap_bit slab.bitmap k ≡ false
      → (bitmap_bit slab.bitmap z ≡ false) × (z ≤ k)
  before_free k l e =
      bitmap_ffz_first slab.bitmap (bitmap_length c.pages_per_slab) k h.words sized.small
        (omega (arith, sized.room)) e

  z-lt : z < c.objs_per_slab
  z-lt = let (k, l, e) = some_free in omega (arith, (before_free k l e).1)

  z_free : bitmap_bit slab.bitmap z ≡ false
  z_free = let (k, l, e) = some_free in (before_free k l e).0

  bits_taken : (i : ℕ) → bitmap_bit slab'.bitmap i ≡ ((i == z) || bitmap_bit slab.bitmap i)
  bits_taken i = bitmap_bit-set slab.bitmap z i (omega (arith, h.whole, z-lt, sized.room))

  more : add32 slab.in_use 1 ≡ slab.in_use + 1
  more = omega (arith, h.most, sized.some_objects, sized.room, sized.small)

  taken-IsSlab :
      (low high : ℕ)
      → low ≤ slab.in_use + 1
      → slab.in_use + 1 ≤ high
      → IsSlab c.pages_per_slab c.objs_per_slab low high slab'
  unfolding bitmap_set
  taken-IsSlab low high l u = record {
    words = bitmap_set-IsWords slab.bitmap z h.words;
    whole = length-set slab.bitmap _ _ ∙ h.whole;
    counted =
        count_more (bitmap_bit slab.bitmap) (bitmap_bit slab'.bitmap) c.objs_per_slab z z-lt z_free
          (bits_taken z ∙ rw (==-refl z) refl) (λ i ne. bits_taken i ∙ rw (==-ne i z ne) refl)
        ∙ omega (arith, h.counted, more);
    least = omega (arith, more);
    most = omega (arith, more);
  }

  -- The cache with that slab written, wherever the slab is moved to.
  taken-Allocated :
      (after : SlabCache)
      → ((a : ℕ) → after.slabs a ≡ put c.slabs s slab' a)
      → (rest : List ℕ) × ((after.full ≡ s ∷ rest) ⊎ (after.partial ≡ s ∷ rest))
      → SameLists c s after
      → SameSizes c after
      → IsCache after
      → Allocated c s z after
  taken-Allocated after same listed lists sizes valid =
      let here : after.slabs s ≡ slab' = same s ∙ rw (==-refl s) refl in
      record {
        fits = z-lt;
        was_free = z_free;
        first = λ k l e. (before_free k l e).1;
        taken = λ i. ap (λ (x : Slab). bitmap_bit x.bitmap i) here ∙ bits_taken i;
        counted = ap (λ (x : Slab). x.in_use) here ∙ more;
        others = λ a ne. same a ∙ rw (==-ne a s ne) refl;
        listed = listed;
        same_lists = lists;
        same_place = ap (λ (x : Slab). x.mem) here;
        same_sizes = sizes;
        valid = valid;
      }

  -- The lists are not written with the slab.
  of_write : (after : SlabCache) → SameLists (write c s slab') s after → SameLists c s after
  of_write after l = record { full = l.full; partial = l.partial; empty = l.empty }

  pub take_object-Allocated :
      IsCacheBut c s
      → (1 ≤ slab.in_use → IsCache c × ((rest : List ℕ) × (c.partial ≡ s ∷ rest)))
      → (after : SlabCache) × (take_object c s ≡ (add32 slab.mem (z * c.obj_size), after))
        × Allocated c s z after
  unfolding take_object move_full move_partial
  take_object-Allocated but stays =
      let w : SlabCache = write c s slab' in
      let wbut : IsCacheBut w s = write-but c s slab' but in
      let here : put c.slabs s slab' s ≡ slab' = rw (==-refl s) refl in
      elim (Bool-cases (add32 slab.in_use 1 == c.objs_per_slab)) [
        | inl full ↦ (
          move_full w s,
          rw full refl,
          taken-Allocated (move_full w s) (λ a. refl) (_, inl refl)
              (of_write (move_full w s) (move_full-SameLists w s))
              (record { pages = refl; objs = refl; size = refl })
              (move_full-IsCache w s wbut
                (rw here (taken-IsSlab _ _ (ground (arith, more)) (ground (arith, more))))),
        )
        | inr other ↦ elim (Bool-cases (add32 slab.in_use 1 == 1)) [
          | inl one ↦ (
            move_partial w s,
            rw (other, one) refl,
            taken-Allocated (move_partial w s) (λ a. refl) (_, inr refl)
                (of_write (move_partial w s) (move_partial-SameLists w s))
                (record { pages = refl; objs = refl; size = refl })
                (move_partial-IsCache w s wbut
                  (rw here (taken-IsSlab _ _ (omega arith) (ground (arith, more, h.most))))),
          )
          | inr few ↦
              let (ok, head) = stays (ground (arith, more)) in
              (
                w,
                rw (other, few) refl,
                taken-Allocated w (λ a. refl) (head.0, inr head.1)
                    (record { full = refl; partial = refl; empty = refl })
                    (record { pages = refl; objs = refl; size = refl })
                    (write-IsCache c s slab' ok (ground (arith, more))
                      (ground (arith, more, h.most))
                      (taken-IsSlab _ _ (omega arith) (ground (arith, more, h.most)))),
              )
        ]
      ]
