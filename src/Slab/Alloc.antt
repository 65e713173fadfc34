-- ===== src/Slab/Alloc.antt =====
-- What `slab_alloc` (kernel/slab.c) hands out.
use mathlib.Core.Path.{subst}
use telos.Prelude.{
  ℕ, zero, suc, get_or, ◌-◌, ◌*◌, ◌/◌, ◌%◌, ◌≤◌, Option, none, some, Bool, false, List, [], ◌∷◌,
  length, ◌≡◌, ◌≢◌, refl, ap, ap₂, sym, ◌∙◌, arith, ◌⊎◌, inl, inr, ==-ne, ==-refl,
}
use telos.Word.{add32}
use telos.Word.Bits.{bit_of_zero}
use telos.Slab.{
  Slab, SlabCache, bitmap_length, zeros, new_slab, with_slab, pick_slab, get_slab, slab_alloc,
}
use telos.Slab.Bitmap.{bitmap_bit}
use telos.Slab.Bitmap.Found.{IsWords}
use telos.Slab.Count.{count}
use telos.Slab.Valid.{IsSlab, IsCache, IsCacheBut, widen, IsCache-but, with_slab-but}
use telos.Slab.Lists.{SameLists, SameLists-trans, without_self}
use telos.Slab.Take.{Allocated, take_object-Allocated}

zeros-length : (n : ℕ) → length (zeros n) ≡ n
unfolding zeros
zeros-length zero = refl
zeros-length (suc n) = ap suc (zeros-length n)

get_or-zeros : (n j : ℕ) → get_or (zeros n) j 0 ≡ 0
unfolding zeros
get_or-zeros zero j = refl
get_or-zeros (suc n) zero = refl
get_or-zeros (suc n) (suc j) = get_or-zeros n j

clear_bit : (n i : ℕ) → bitmap_bit (zeros n) i ≡ false
unfolding bitmap_bit
clear_bit n i = bit_of_zero (get_or (zeros n) (i / 32) 0) (i % 32) (get_or-zeros n (i / 32))

count_clear : (f : ℕ → Bool) (n : ℕ) → ((i : ℕ) → f i ≡ false) → count f n ≡ 0
unfolding count
count_clear f zero e = refl
count_clear f (suc n) e = rw (e n) (count_clear f n e)

new_slab-IsSlab :
    (cache : SlabCache) (a high : ℕ)
    → IsSlab cache.pages_per_slab cache.objs_per_slab 0 high (new_slab cache a)
unfolding new_slab IsWords
new_slab-IsSlab cache a high =
    let len : ℕ = bitmap_length cache.pages_per_slab in
    record {
      words = λ j. rw (get_or-zeros len j) (omega arith);
      whole = zeros-length len;
      counted = count_clear (bitmap_bit (zeros len)) cache.objs_per_slab (clear_bit len);
      least = omega arith;
      most = omega arith;
    }

-- What `get_slab` found: a slab `s` with a free object.
record Ready (cache : SlabCache) (page : Option ℕ) (s : ℕ) (before : SlabCache) : Type 0 where
  found : get_slab cache page ≡ some (s, before)
  whence : (before ≡ cache) ⊎ ((page ≡ some s) × (before.slabs s ≡ new_slab cache s))
  slab :
      IsSlab before.pages_per_slab before.objs_per_slab 0
        (before.objs_per_slab - 1)
        (before.slabs s)
  lists : SameLists cache s before
  untouched : (a : ℕ) → a ≢ s → before.slabs a ≡ cache.slabs a
  but : IsCacheBut before s
  stays :
      1 ≤ (before.slabs s).in_use → IsCache before × ((rest : List ℕ) × (before.partial ≡ s ∷ rest))

new_unused : (cache : SlabCache) (a : ℕ) → (new_slab cache a).in_use ≡ 0
unfolding new_slab
new_unused cache a = refl

unused : (n : ℕ) → 1 ≤ n → n ≢ 0
unused n l e = omega arith

get_slab-Ready :
    (cache : SlabCache) (page : Option ℕ) (part emp : List ℕ)
    → IsCache cache
    → cache.partial ≡ part
    → cache.empty ≡ emp
    → ((get_slab cache page ≡ none) × (part ≡ []) × (emp ≡ []) × (page ≡ none))
      ⊎ ((s : ℕ) × (before : SlabCache) × Ready cache page s before)
unfolding get_slab pick_slab
get_slab-Ready cache page (s ∷ ss) emp c p e = inr (
  s,
  cache,
  record {
    found = ap₂ (pick_slab cache page) p e;
    whence = inl refl;
    slab = widen _ _ _ _ _ _ _ (omega arith) (omega arith) (rw p at c.partial).0;
    lists = record { full = refl; partial = refl; empty = refl };
    untouched = λ a ne. refl;
    but = IsCache-but cache s c;
    stays = λ l. (c, (ss, p));
  },
)
get_slab-Ready cache page [] (s ∷ ss) c p e = inr (
  s,
  cache,
  record {
    found = ap₂ (pick_slab cache page) p e;
    whence = inl refl;
    slab = widen _ _ _ _ _ _ _ (omega arith) (omega arith) (rw e at c.empty).0;
    lists = record { full = refl; partial = refl; empty = refl };
    untouched = λ a ne. refl;
    but = IsCache-but cache s c;
    stays = λ l. absurd (omega (arith, (rw e at c.empty).0.most));
  },
)
get_slab-Ready cache none [] [] c p e = inl (ap₂ (pick_slab cache none) p e, refl, refl, refl)
get_slab-Ready cache (some a) [] [] c p e =
    let before : SlabCache = with_slab cache a in
    let here : before.slabs a ≡ new_slab cache a = rw (==-refl a) refl in
    inr (
      a,
      before,
      record {
        found = ap₂ (pick_slab cache (some a)) p e;
        whence = inr (refl, here);
        slab = rw here (new_slab-IsSlab cache a (cache.objs_per_slab - 1));
        lists = record { full = refl; partial = without_self a cache.partial; empty = refl };
        untouched = λ b ne. rw (==-ne b a ne) refl;
        but = with_slab-but cache a c;
        stays = λ l. absurd (unused _ l (ap (λ (x : Slab). x.in_use) here ∙ new_unused cache a));
      },
    )

-- The caches are valid and `page` is what `kalloc_pages` would give: unless there is neither a slab
-- with a free object nor a page, when the code follows a null pointer, `slab_alloc` hands out the
-- first free object of a slab of the cache or of a new one, marks it and nothing else as taken,
-- keeps the other slabs and their places on the lists, and leaves the cache valid.
pub slab_alloc-Allocated :
    (cache : SlabCache) (page : Option ℕ)
    → IsCache cache
    → ((slab_alloc cache page ≡ none) × (cache.partial ≡ []) × (cache.empty ≡ []) × (page ≡ none))
      ⊎ ((s : ℕ) × (z : ℕ) × (before : SlabCache) × (after : SlabCache) × ((before ≡ cache)
            ⊎ ((page ≡ some s) × (before.slabs s ≡ new_slab cache s)))
          × (slab_alloc cache page ≡ some (add32 (before.slabs s).mem (z * before.obj_size), after))
          × Allocated before s z after
          × SameLists cache s after
          × ((a : ℕ) → a ≢ s → after.slabs a ≡ cache.slabs a))
unfolding slab_alloc
slab_alloc-Allocated cache page c =
    elim (get_slab-Ready cache page cache.partial cache.empty c refl refl) [
      | inl (fails, p, e, none_left) ↦ inl (rw (fails, slab_alloc) refl, p, e, none_left)
      | inr (s, before, r) ↦
          let (after, e, allocated) =
            take_object-Allocated before s r.but.sized r.slab r.but r.stays in
          inr (
            s,
            _,
            before,
            after,
            r.whence,
            rw (r.found, slab_alloc) (ap some e),
            allocated,
            SameLists-trans cache before after s r.lists allocated.same_lists,
            λ a ne. allocated.others a ne ∙ r.untouched a ne,
          )
    ]

-- What holds of the slab and the cache that a call returned.
abbrev pub OfResult : (ℕ → SlabCache → Type 0) → Option (ℕ × SlabCache) → Type 0
OfResult P none = Unit
OfResult P (some (s, c)) = P s c

Got : SlabCache → Option ℕ → ℕ → SlabCache → Type 0
Got cache page s before =
    (z : ℕ) × (after : SlabCache) × (slab_alloc cache page
      ≡ some (add32 (before.slabs s).mem (z * before.obj_size), after))
    × Allocated before s z after
    × SameLists cache s after
    × ((a : ℕ) → a ≢ s → after.slabs a ≡ cache.slabs a)

pub slab_alloc-get_slab :
    (cache : SlabCache) (page : Option ℕ) (s : ℕ) (before : SlabCache)
    → IsCache cache
    → get_slab cache page ≡ some (s, before)
    → (z : ℕ) × (after : SlabCache) × (slab_alloc cache page
        ≡ some (add32 (before.slabs s).mem (z * before.obj_size), after))
      × Allocated before s z after
      × SameLists cache s after
      × ((a : ℕ) → a ≢ s → after.slabs a ≡ cache.slabs a)
unfolding slab_alloc Got
slab_alloc-get_slab cache page s before c e =
    elim (get_slab-Ready cache page cache.partial cache.empty c refl refl) [
      | inl (fails, p, q, r) ↦ absurd (ground arith)
      | inr (s', before', r) ↦
          let (after, t, allocated) =
            take_object-Allocated before' s' r.but.sized r.slab r.but r.stays in
          subst (OfResult (Got cache page)) (sym r.found ∙ e) (
            _,
            after,
            rw (r.found, slab_alloc) (ap some t),
            allocated,
            SameLists-trans cache before' after s' r.lists allocated.same_lists,
            λ a ne. allocated.others a ne ∙ r.untouched a ne,
          )
    ]
