-- ===== src/Mm/Space/Free.antt =====
-- What the searches for free space return, and that the functions built on them keep the layout.
use mathlib.Core.List.{reverse, reverse-cons}
use telos.Prelude.{
  ◌≡◌, ℕ, ◌+◌, ◌-◌, ◌≤◌, ◌<◌, ◌≢◌, inl, List, [], ◌∷◌, ◌++◌, arith, All, All-reverse,
  All-of-reverse, All-mono,
}
use telos.Word.{word_mod}
use telos.Paging.{page_align}
use telos.Mm.{Vma}
use telos.Mm.Layout.{Chain, Apart, Chain-Apart, IsLaidOut}
use telos.Mm.Space.{find_high, vma_find_space_high, vma_find_space}

-- The areas from the last to the first.
abbrev Descending : ℕ → List Vma → Type 0
Descending hi [] = Unit {0}
Descending hi (v ∷ vs) = (v.end ≤ hi) × (v.start ≤ v.end) × Descending v.start vs

Descending-append :
    (vs : List Vma) (x : Vma) (hi : ℕ)
    → Descending hi vs
    → All (λ v. x.end ≤ v.start) vs
    → x.end ≤ hi
    → x.start ≤ x.end
    → Descending hi (vs ++ x ∷ [])
Descending-append [] x hi d h le ne = (le, ne, tt)
Descending-append (v ∷ vs) x hi d h le ne =
    (d.0, d.1, Descending-append vs x v.start d.2 h.1 h.0 ne)

Chain-All-le : (vs : List Vma) (lo : ℕ) → Chain lo vs → All (λ v. lo ≤ v.start) vs
Chain-All-le [] lo c = tt
Chain-All-le (v ∷ vs) lo c = (
  c.0,
  All-mono (λ w. v.end ≤ w.start) (λ w. lo ≤ w.start) vs (λ w h. omega arith)
      (Chain-All-le vs v.end c.2),
)

Descending-reverse :
    (vs : List Vma) (lo hi : ℕ)
    → Chain lo vs
    → All (λ v. v.end ≤ hi) vs
    → Descending hi (reverse vs)
Descending-reverse [] lo hi c h = tt
Descending-reverse (v ∷ vs) lo hi c h = rw (reverse-cons v vs) (
    Descending-append (reverse vs) v hi (Descending-reverse vs v.end hi c.2 h.1)
      (All-reverse (λ w. v.end ≤ w.start) vs (Chain-All-le vs v.end c.2)) h.0 c.1)

Descending-Apart : (vs : List Vma) (hi r e : ℕ) → hi ≤ r → Descending hi vs → All (Apart r e) vs
Descending-Apart [] hi r e h d = tt
Descending-Apart (v ∷ vs) hi r e h d =
    (inl (omega arith), Descending-Apart vs v.start r e (omega arith) d.2)

-- A range that the search may return: inside the bounds, clear of every area.
abbrev pub Fits : List Vma → ℕ → ℕ → ℕ → ℕ → Type 0
Fits vs start end len r = (start ≤ r) × (r + len ≤ end) × All (Apart r (r + len)) vs

find_high-Fits :
    (vs : List Vma) (hi start end len : ℕ)
    → Descending hi vs
    → hi + len < word_mod
    → start + len < word_mod
    → end < word_mod
    → find_high vs start end len ≢ 0
    → Fits vs start end len (find_high vs start end len)
unfolding find_high
find_high-Fits [] hi start end len d a b c ne = ground arith
find_high-Fits (v ∷ vs) hi start end len d a b c ne = ground (
  arith,
  find_high-Fits vs v.start start end len d.2,
  find_high-Fits vs v.start start v.start len d.2,
  Descending-Apart vs v.start (end - len) (end - len + len),
)

-- What `vma_find_space_high` returns, when it is not 0, is room for `page_align len` bytes between
-- the bounds, clear of every area, provided that no address plus the length wraps.
pub vma_find_space_high-Fits :
    (areas : List Vma) (start end len top : ℕ)
    → IsLaidOut areas
    → All (λ v. v.end ≤ top) areas
    → top + page_align len < word_mod
    → start + page_align len < word_mod
    → end < word_mod
    → vma_find_space_high areas start end len ≢ 0
    → Fits areas start end (page_align len) (vma_find_space_high areas start end len)
unfolding vma_find_space_high
vma_find_space_high-Fits areas start end len top ok below a b c ne =
    (f.0, f.1, All-of-reverse (Apart r (r + page_align len)) areas f.2)
  where
    r : ℕ
    r = find_high (reverse areas) start end (page_align len)

    f : Fits (reverse areas) start end (page_align len) r
    f =
        find_high-Fits (reverse areas) top start end (page_align len)
          (Descending-reverse areas 0 top ok.chain below) a b c ne

-- The low search leaves `len` as it is.
pub vma_find_space-Fits :
    (areas : List Vma) (lo start end len : ℕ)
    → Chain lo areas
    → All (λ v. v.end ≤ end) areas
    → end + len < word_mod
    → start + len < word_mod
    → vma_find_space areas start end len ≢ 0
    → Fits areas start end len (vma_find_space areas start end len)
unfolding vma_find_space
vma_find_space-Fits [] lo start end len c below a b ne = ground arith
vma_find_space-Fits (v ∷ vs) lo start end len c below a b ne = ground (
  arith,
  vma_find_space-Fits vs v.end start end len c.2 below.1,
  vma_find_space-Fits vs v.end v.end end len c.2 below.1,
  Chain-Apart vs v.end start (start + len),
)

-- For a request whose aligned length is past the upper bound and wraps with the lower bound, and a
-- last area that begins below the upper bound, ends not above it and not below the lower one, `vma_find_space_high`
-- returns an address past the upper bound.
pub vma_find_space_high_wraps :
    (areas below : List Vma) (v : Vma) (start end len : ℕ)
    → reverse areas ≡ v ∷ below
    → v.start < end
    → v.end ≤ end
    → end < page_align len
    → page_align len < word_mod
    → word_mod ≤ start + page_align len
    → start ≤ v.end
    → (vma_find_space_high areas start end len ≡ end + word_mod - page_align len)
      × (end < vma_find_space_high areas start end len)
unfolding vma_find_space_high find_high
vma_find_space_high_wraps areas below v start end len e h1 h2 h3 h4 h5 h6 =
    (rw (e, find_high) (ground arith), rw (e, find_high) (ground arith))
