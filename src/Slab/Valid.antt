-- ===== src/Slab/Valid.antt =====
-- When the lists of a cache agree with what its slabs hold, and that moving a slab keeps this.
use native.Mathlib.Decide.{ℕ_discrete}
use telos.Prelude.{
  ℕ, ◌-◌, ◌*◌, ◌<◌, ◌≤◌, ◌==◌, true, List, [], ◌∷◌, length, ◌≡◌, ◌≢◌, refl, arith, All, All-mono,
  ==-ne, ==_iff,
}
use telos.Word.{word_mod}
use telos.Heap.{put}
use telos.Slab.{
  Slab, SlabCache, bitmap_length, new_slab, with_slab, without, move_full, move_partial, move_empty,
}
use telos.Slab.Bitmap.{bitmap_bit}
use telos.Slab.Bitmap.Found.{IsWords}
use telos.Slab.Count.{count}

-- The bitmap of a slab has its length, and the count of the objects in use is right and between
-- two bounds.
pub record IsSlab (pages objs low high : ℕ) (slab : Slab) : Type 0 where
  pub words : IsWords slab.bitmap
  pub whole : length slab.bitmap ≡ bitmap_length pages
  pub counted : count (bitmap_bit slab.bitmap) objs ≡ slab.in_use
  pub least : low ≤ slab.in_use
  pub most : slab.in_use ≤ high

pub widen :
    (pages objs low low' high high' : ℕ) (slab : Slab)
    → low' ≤ low
    → high ≤ high'
    → IsSlab pages objs low high slab
    → IsSlab pages objs low' high' slab
widen pages objs low low' high high' slab k l h = record {
  words = h.words;
  whole = h.whole;
  counted = h.counted;
  least = omega (arith, h.least);
  most = omega (arith, h.most);
}

-- The bitmaps have a bit for each object.
pub record IsSized (cache : SlabCache) : Type 0 where
  pub some_objects : 1 ≤ cache.objs_per_slab
  pub room : cache.objs_per_slab ≤ bitmap_length cache.pages_per_slab * 32
  pub small : bitmap_length cache.pages_per_slab * 32 < word_mod

-- The slabs in the list `ss`, the one at `s` left aside.
pub Others : SlabCache → ℕ → ℕ → ℕ → List ℕ → Type 0
Others cache s low high ss =
    All (λ a. a ≢ s → IsSlab cache.pages_per_slab cache.objs_per_slab low high (cache.slabs a)) ss

pub record IsCache (cache : SlabCache) : Type 0 where
  pub sized : IsSized cache
  pub full :
      All
        (λ a.
          IsSlab cache.pages_per_slab cache.objs_per_slab cache.objs_per_slab cache.objs_per_slab
            (cache.slabs a))
        cache.full
  pub partial :
      All
        (λ a.
          IsSlab cache.pages_per_slab cache.objs_per_slab 1
            (cache.objs_per_slab - 1)
            (cache.slabs a))
        cache.partial
  pub empty :
      All (λ a. IsSlab cache.pages_per_slab cache.objs_per_slab 0 0 (cache.slabs a)) cache.empty

-- All of it, but for the slab at `s`.
pub record IsCacheBut (cache : SlabCache) (s : ℕ) : Type 0 where
  pub sized : IsSized cache
  pub full : Others cache s cache.objs_per_slab cache.objs_per_slab cache.full
  pub partial : Others cache s 1 (cache.objs_per_slab - 1) cache.partial
  pub empty : Others cache s 0 0 cache.empty

weaken_all : (P : ℕ → Type 0) (s : ℕ) (ss : List ℕ) → All P ss → All (λ a. a ≢ s → P a) ss
weaken_all P s ss h = All-mono P (λ a. a ≢ s → P a) ss (λ a p ne. p) h

pub IsCache-but : (cache : SlabCache) (s : ℕ) → IsCache cache → IsCacheBut cache s
unfolding Others
IsCache-but cache s c = record {
  sized = c.sized;
  full = weaken_all _ s cache.full c.full;
  partial = weaken_all _ s cache.partial c.partial;
  empty = weaken_all _ s cache.empty c.empty;
}

-- The slab at `s` is written.
abbrev pub write : SlabCache → ℕ → Slab → SlabCache
write cache s slab = record cache { slabs = put cache.slabs s slab }

write_others :
    (cache : SlabCache) (s low high : ℕ) (slab : Slab) (ss : List ℕ)
    → Others cache s low high ss
    → Others (write cache s slab) s low high ss
unfolding Others
write_others cache s low high slab [] h = tt
write_others cache s low high slab (a ∷ ss) h =
    (λ ne. rw (==-ne a s ne) (h.0 ne), write_others cache s low high slab ss h.1)

pub write-but :
    (cache : SlabCache) (s : ℕ) (slab : Slab)
    → IsCacheBut cache s
    → IsCacheBut (write cache s slab) s
write-but cache s slab c = record {
  sized = record {
    some_objects = c.sized.some_objects;
    room = c.sized.room;
    small = c.sized.small;
  };
  full = write_others cache s _ _ slab cache.full c.full;
  partial = write_others cache s _ _ slab cache.partial c.partial;
  empty = write_others cache s _ _ slab cache.empty c.empty;
}

pub with_slab-but : (cache : SlabCache) (a : ℕ) → IsCache cache → IsCacheBut (with_slab cache a) a
unfolding Others
with_slab-but cache a c =
    let w = write-but cache a (new_slab cache a) (IsCache-but cache a c) in
    record {
      sized = record {
        some_objects = c.sized.some_objects;
        room = c.sized.room;
        small = c.sized.small;
      };
      full = w.full;
      partial = (λ ne. absurd (ne refl), w.partial);
      empty = w.empty;
    }

without-All :
    (P : ℕ → Type 0) (s : ℕ) (ss : List ℕ) → All (λ a. a ≢ s → P a) ss → All P (without s ss)
unfolding without
without-All P s [] h = tt
without-All P s (a ∷ ss) h = elim (ℕ_discrete a s) [
  | yes same ↦ rw ((==_iff a s).1 same) (without-All P s ss h.1)
  | no other ↦ rw (==-ne a s other) (h.0 other, without-All P s ss h.1)
]

-- A slab that is moved belongs where it goes.
module _ (cache : SlabCache) (s : ℕ) (c : IsCacheBut cache s) where
  pub move_full-IsCache :
      IsSlab cache.pages_per_slab cache.objs_per_slab cache.objs_per_slab cache.objs_per_slab
        (cache.slabs s)
      → IsCache (move_full cache s)
  unfolding move_full Others
  move_full-IsCache h = record {
    sized = record {
      some_objects = c.sized.some_objects;
      room = c.sized.room;
      small = c.sized.small;
    };
    full = (h, without-All _ s cache.full c.full);
    partial = without-All _ s cache.partial c.partial;
    empty = without-All _ s cache.empty c.empty;
  }

  pub move_partial-IsCache :
      IsSlab cache.pages_per_slab cache.objs_per_slab 1 (cache.objs_per_slab - 1) (cache.slabs s)
      → IsCache (move_partial cache s)
  unfolding move_partial Others
  move_partial-IsCache h = record {
    sized = record {
      some_objects = c.sized.some_objects;
      room = c.sized.room;
      small = c.sized.small;
    };
    full = without-All _ s cache.full c.full;
    partial = (h, without-All _ s cache.partial c.partial);
    empty = without-All _ s cache.empty c.empty;
  }

  pub move_empty-IsCache :
      IsSlab cache.pages_per_slab cache.objs_per_slab 0 0 (cache.slabs s)
      → IsCache (move_empty cache s)
  unfolding move_empty Others
  move_empty-IsCache h = record {
    sized = record {
      some_objects = c.sized.some_objects;
      room = c.sized.room;
      small = c.sized.small;
    };
    full = without-All _ s cache.full c.full;
    partial = without-All _ s cache.partial c.partial;
    empty = (h, without-All _ s cache.empty c.empty);
  }

-- A list whose slabs stay as they are when the one at `s` is written, where its old content does not
-- belong in the list or its new one does.
stay_all :
    (cache : SlabCache) (s low high : ℕ) (slab : Slab) (ss : List ℕ)
    → (IsSlab cache.pages_per_slab cache.objs_per_slab low high (cache.slabs s)
        → IsSlab cache.pages_per_slab cache.objs_per_slab low high slab)
    → All (λ a. IsSlab cache.pages_per_slab cache.objs_per_slab low high (cache.slabs a)) ss
    → All
        (λ a. IsSlab cache.pages_per_slab cache.objs_per_slab low high (put cache.slabs s slab a))
        ss
stay_all cache s low high slab [] f h = tt
stay_all cache s low high slab (a ∷ ss) f h = elim (ℕ_discrete a s) [
  | yes same ↦
      let here : (a == s) ≡ true = (==_iff a s).1 same in
      rw here (f (rw same at h.0), stay_all cache s low high slab ss f h.1)
  | no other ↦ rw (==-ne a s other) (h.0, stay_all cache s low high slab ss f h.1)
]

-- A slab with some objects in use and some free stays where it is while this is so.
pub write-IsCache :
    (cache : SlabCache) (s : ℕ) (slab : Slab)
    → IsCache cache
    → 1 ≤ (cache.slabs s).in_use
    → (cache.slabs s).in_use < cache.objs_per_slab
    → IsSlab cache.pages_per_slab cache.objs_per_slab 1 (cache.objs_per_slab - 1) slab
    → IsCache (write cache s slab)
write-IsCache cache s slab c used free h = record {
  sized = record {
    some_objects = c.sized.some_objects;
    room = c.sized.room;
    small = c.sized.small;
  };
  full = stay_all cache s _ _ slab cache.full (λ p. absurd (omega (arith, p.least))) c.full;
  partial = stay_all cache s _ _ slab cache.partial (λ p. h) c.partial;
  empty = stay_all cache s _ _ slab cache.empty (λ p. absurd (omega (arith, p.most))) c.empty;
}
