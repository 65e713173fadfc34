-- ===== src/Slab/Release.antt =====
-- What `slab_free` (kernel/slab.c) takes back.
use telos.Prelude.{
  ℕ, ◌+◌, ◌-◌, ◌/◌, ◌<◌, ◌≤◌, ◌==◌, some, true, not, ◌&&◌, List, [], ◌∷◌, length-set, ◌≡◌, ◌≢◌,
  refl, ap, sym, ◌∙◌, arith, ◌⊎◌, inl, inr, All, ==-ne, ==-refl, Bool-cases, Option-cases,
}
use telos.Word.{add32, sub32}
use telos.Heap.{put}
use telos.Slab.{
  Slab, SlabCache, holds, find_in, find_slab, give_object, slab_free, move_empty, move_partial,
}
use telos.Slab.Bitmap.{bitmap_bit, bitmap_clear}
use telos.Slab.Bitmap.Found.{bitmap_clear-IsWords, bitmap_bit-clear}
use telos.Slab.Lists.{Listed, SameLists, move_empty-SameLists, move_partial-SameLists}
use telos.Slab.Count.{count_more}
use telos.Slab.Valid.{
  IsSlab, IsCache, IsCacheBut, widen, IsCache-but, write, write-but, write-IsCache,
  move_empty-IsCache, move_partial-IsCache,
}

-- The object at `idx` of the slab `s` is free again and nothing else is, the slab is on the list that
-- its count calls for, the other slabs keep their lists, and the cache is valid.
pub record Released (before : SlabCache) (s idx : ℕ) (after : SlabCache) : Type 0 where
  pub cleared :
      (i : ℕ)
      → bitmap_bit (after.slabs s).bitmap i
        ≡ (bitmap_bit (before.slabs s).bitmap i && not (i == idx))
  pub counted : (after.slabs s).in_use + 1 ≡ (before.slabs s).in_use
  pub placed :
      (((after.slabs s).in_use ≡ 0) × Listed s after.empty)
      ⊎ ((1 ≤ (after.slabs s).in_use) × Listed s after.partial)
  pub same_lists : SameLists before s after
  pub others : (a : ℕ) → a ≢ s → after.slabs a ≡ before.slabs a
  pub valid : IsCache after

module _ (c : SlabCache) (s idx : ℕ) (valid : IsCache c)
    (h : IsSlab c.pages_per_slab c.objs_per_slab 1 c.objs_per_slab (c.slabs s))
    (fits : idx < c.objs_per_slab) (taken : bitmap_bit (c.slabs s).bitmap idx ≡ true)
    (stays : (c.slabs s).in_use ≢ c.objs_per_slab → Listed s c.partial) where
  abbrev slab : Slab
  slab = c.slabs s

  abbrev slab' : Slab
  slab' = record slab { bitmap = bitmap_clear slab.bitmap idx; in_use = sub32 slab.in_use 1 }

  bits_cleared : (i : ℕ) → bitmap_bit slab'.bitmap i ≡ (bitmap_bit slab.bitmap i && not (i == idx))
  bits_cleared i = bitmap_bit-clear slab.bitmap idx i (omega (arith, h.whole, valid.sized.room))

  fewer : sub32 slab.in_use 1 + 1 ≡ slab.in_use
  fewer = omega (arith, h.least, h.most, valid.sized.room, valid.sized.small)

  cleared-IsSlab :
      (low high : ℕ)
      → low + 1 ≤ slab.in_use
      → slab.in_use ≤ high + 1
      → IsSlab c.pages_per_slab c.objs_per_slab low high slab'
  unfolding bitmap_clear
  cleared-IsSlab low high l u = record {
    words = bitmap_clear-IsWords slab.bitmap idx h.words;
    whole = length-set slab.bitmap _ _ ∙ h.whole;
    counted =
        let back =
          count_more (bitmap_bit slab'.bitmap) (bitmap_bit slab.bitmap) c.objs_per_slab idx fits
            (bits_cleared idx ∙ rw (==-refl idx, taken) refl) taken
            (λ i ne. sym (bits_cleared i ∙ rw (==-ne i idx ne) (ground arith))) in
        omega (arith, back, h.counted, fewer);
    least = omega (arith, fewer);
    most = omega (arith, fewer);
  }

  cleared-Released :
      (after : SlabCache)
      → ((a : ℕ) → after.slabs a ≡ put c.slabs s slab' a)
      → ((slab'.in_use ≡ 0) × Listed s after.empty) ⊎ ((1 ≤ slab'.in_use) × Listed s after.partial)
      → SameLists c s after
      → IsCache after
      → Released c s idx after
  cleared-Released after same placed lists v =
      let here : after.slabs s ≡ slab' = same s ∙ rw (==-refl s) refl in
      record {
        cleared = λ i. ap (λ (x : Slab). bitmap_bit x.bitmap i) here ∙ bits_cleared i;
        counted = ap (λ (x : Slab). x.in_use + 1) here ∙ fewer;
        placed = rw here placed;
        same_lists = lists;
        others = λ a ne. same a ∙ rw (==-ne a s ne) refl;
        valid = v;
      }

  of_write : (after : SlabCache) → SameLists (write c s slab') s after → SameLists c s after
  of_write after l = record { full = l.full; partial = l.partial; empty = l.empty }

  pub give_object-Released :
      (p : ℕ) → sub32 p slab.mem / c.obj_size ≡ idx → Released c s idx (give_object c p s)
  unfolding give_object move_empty move_partial
  give_object-Released p at_idx =
      let w : SlabCache = write c s slab' in
      let wbut : IsCacheBut w s = write-but c s slab' (IsCache-but c s valid) in
      let here : put c.slabs s slab' s ≡ slab' = rw (==-refl s) refl in
      elim (Bool-cases (sub32 slab.in_use 1 == 0)) [
        | inl none_left ↦
            rw (at_idx, none_left)
              (cleared-Released (move_empty w s) (λ a. refl) (inl (ground arith, inl refl))
                (of_write (move_empty w s) (move_empty-SameLists w s))
                (move_empty-IsCache w s wbut
                  (rw here (cleared-IsSlab 0 0 (omega (arith, h.least)) (ground (arith, fewer))))))
        | inr some_left ↦ elim (Bool-cases (add32 (sub32 slab.in_use 1) 1 == c.objs_per_slab)) [
          | inl was_full ↦
              rw (at_idx, some_left, was_full)
                (cleared-Released (move_partial w s) (λ a. refl) (inr (ground arith, inl refl))
                  (of_write (move_partial w s) (move_partial-SameLists w s))
                  (move_partial-IsCache w s wbut
                    (rw here (cleared-IsSlab _ _ (ground (arith, fewer)) (omega (arith, h.most))))))
          | inr few ↦
              rw (at_idx, some_left, few)
                (cleared-Released w (λ a. refl)
                  (inr (
                    ground arith,
                    stays (ground (arith, fewer, h.most, valid.sized.small, valid.sized.room)),
                  ))
                  (record { full = refl; partial = refl; empty = refl })
                  (write-IsCache c s slab' valid h.least
                    (ground (arith, fewer, h.most, valid.sized.small, valid.sized.room))
                    (cleared-IsSlab _ _ (ground (arith, fewer)) (omega (arith, h.most)))))
        ]
      ]

find_in_cases :
    (c : SlabCache) (p s a : ℕ) (ss : List ℕ)
    → find_in c p (a ∷ ss) ≡ some s
    → (a ≡ s) ⊎ (find_in c p ss ≡ some s)
unfolding find_in
find_in_cases c p s a ss e = elim (Bool-cases (holds c p a)) [
  | inl t ↦ inl (ground arith)
  | inr t ↦ inr (ground arith)
]

find_in-All :
    (P : ℕ → Type 0) (c : SlabCache) (p s : ℕ) (ss : List ℕ)
    → find_in c p ss ≡ some s
    → All P ss
    → P s
unfolding find_in
find_in-All P c p s [] e h = absurd (ground arith)
find_in-All P c p s (a ∷ ss) e h = elim (find_in_cases c p s a ss e) [
  | inl same ↦ rw same at h.0
  | inr later ↦ find_in-All P c p s ss later h.1
]

find_slab_cases :
    (c : SlabCache) (p s : ℕ)
    → find_slab c p ≡ some s
    → (find_in c p c.full ≡ some s) ⊎ (find_in c p c.partial ≡ some s)
unfolding find_slab
find_slab_cases c p s e = elim (Option-cases (find_in c p c.full)) [
  | inl f ↦ inr (ground arith)
  | inr (a, f) ↦ inl (ground arith)
]

find_slab-IsSlab :
    (c : SlabCache) (p s : ℕ)
    → IsCache c
    → find_slab c p ≡ some s
    → IsSlab c.pages_per_slab c.objs_per_slab 1 c.objs_per_slab (c.slabs s)
find_slab-IsSlab c p s valid e = elim (find_slab_cases c p s e) [
  | inl f ↦ widen _ _ _ _ _ _ _ valid.sized.some_objects (omega arith) (
      find_in-All
        (λ a. IsSlab c.pages_per_slab c.objs_per_slab c.objs_per_slab c.objs_per_slab (c.slabs a)) c
        p s c.full f valid.full)
  | inr f ↦ widen _ _ _ _ _ _ _ (omega arith) (omega arith) (
      find_in-All (λ a. IsSlab c.pages_per_slab c.objs_per_slab 1 (c.objs_per_slab - 1) (c.slabs a))
        c p s c.partial f valid.partial)
]

find_in-Listed : (c : SlabCache) (p s : ℕ) (ss : List ℕ) → find_in c p ss ≡ some s → Listed s ss
unfolding find_in
find_in-Listed c p s [] e = absurd (ground arith)
find_in-Listed c p s (a ∷ ss) e = elim (find_in_cases c p s a ss e) [
  | inl same ↦ inl (sym same)
  | inr later ↦ inr (find_in-Listed c p s ss later)
]

-- A slab that is found and not full is on the list of the partial ones.
find_slab-partial :
    (c : SlabCache) (p s : ℕ)
    → IsCache c
    → find_slab c p ≡ some s
    → (c.slabs s).in_use ≢ c.objs_per_slab
    → Listed s c.partial
find_slab-partial c p s valid e few = elim (find_slab_cases c p s e) [
  | inl f ↦
      let h =
        find_in-All
          (λ a. IsSlab c.pages_per_slab c.objs_per_slab c.objs_per_slab c.objs_per_slab (c.slabs a))
          c p s c.full f valid.full in
      absurd (few (omega (arith, h.least, h.most)))
  | inr f ↦ find_in-Listed c p s c.partial f
]

-- The cache is valid, `find_slab` finds the slab `s` for `p`, and the object of `s` at `p` is in
-- use: `slab_free` frees this object and nothing else, has `s` on the list of the empty slabs if no
-- object of it is left in use and on that of the partial ones if one is, keeps the other slabs and
-- their places on the lists, and leaves the cache valid.
pub slab_free-Released :
    (c : SlabCache) (p s : ℕ)
    → IsCache c
    → find_slab c p ≡ some s
    → sub32 p (c.slabs s).mem / c.obj_size < c.objs_per_slab
    → bitmap_bit (c.slabs s).bitmap (sub32 p (c.slabs s).mem / c.obj_size) ≡ true
    → Released c s (sub32 p (c.slabs s).mem / c.obj_size) (slab_free c p)
unfolding slab_free
slab_free-Released c p s valid found fits taken =
    rw (found, slab_free)
      (give_object-Released c s (sub32 p (c.slabs s).mem / c.obj_size) valid
        (find_slab-IsSlab c p s valid found) fits taken (find_slab-partial c p s valid found) p
        refl)
