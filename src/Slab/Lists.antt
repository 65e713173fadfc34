-- ===== src/Slab/Lists.antt =====
-- Which slabs the lists of a cache hold (kernel/slab.c), when one slab moves between them.
use telos.Prelude.{ℕ, ◌==◌, List, [], ◌∷◌, ◌≡◌, ◌⊎◌, inl, inr, refl, ap, ◌∙◌, ==-refl, Bool-cases}
use telos.Slab.{SlabCache, without, move_full, move_partial, move_empty}

-- A slab is in the list.
abbrev pub Listed : ℕ → List ℕ → Type 0
Listed s [] = ⊥
Listed s (a ∷ ss) = (s ≡ a) ⊎ Listed s ss

-- But for the slab `s`, the lists hold the same slabs in the same order.
pub record SameLists (before : SlabCache) (s : ℕ) (after : SlabCache) : Type 0 where
  pub full : without s after.full ≡ without s before.full
  pub partial : without s after.partial ≡ without s before.partial
  pub empty : without s after.empty ≡ without s before.empty

pub without_self : (s : ℕ) (ss : List ℕ) → without s (s ∷ ss) ≡ without s ss
unfolding without
without_self s ss = rw (==-refl s) refl

without_twice : (s : ℕ) (ss : List ℕ) → without s (without s ss) ≡ without s ss
unfolding without
without_twice s [] = refl
without_twice s (a ∷ ss) = elim (Bool-cases (a == s)) [
  | inl same ↦ rw same (without_twice s ss)
  | inr other ↦ rw other (rw other (ap (λ xs. a ∷ xs) (without_twice s ss)))
]

moved_to : (s : ℕ) (ss : List ℕ) → without s (s ∷ without s ss) ≡ without s ss
moved_to s ss = without_self s (without s ss) ∙ without_twice s ss

pub move_full-SameLists : (cache : SlabCache) (s : ℕ) → SameLists cache s (move_full cache s)
unfolding move_full
move_full-SameLists cache s = record {
  full = moved_to s cache.full;
  partial = without_twice s cache.partial;
  empty = without_twice s cache.empty;
}

pub move_partial-SameLists : (cache : SlabCache) (s : ℕ) → SameLists cache s (move_partial cache s)
unfolding move_partial
move_partial-SameLists cache s = record {
  full = without_twice s cache.full;
  partial = moved_to s cache.partial;
  empty = without_twice s cache.empty;
}

pub move_empty-SameLists : (cache : SlabCache) (s : ℕ) → SameLists cache s (move_empty cache s)
unfolding move_empty
move_empty-SameLists cache s = record {
  full = without_twice s cache.full;
  partial = without_twice s cache.partial;
  empty = moved_to s cache.empty;
}

pub SameLists-trans :
    (c d e : SlabCache) (s : ℕ) → SameLists c s d → SameLists d s e → SameLists c s e
SameLists-trans c d e s f g = record {
  full = g.full ∙ f.full;
  partial = g.partial ∙ f.partial;
  empty = g.empty ∙ f.empty;
}
