-- ===== src/Mm/Space/Create.antt =====
-- The functions that create an area keep the layout.
use mathlib.Core.List.{reverse}
use mathlib.Core.Path.{subst}
use mathlib.Core.Option.{some-injective}
use telos.Prelude.{
  ℕ, ◌+◌, ◌%◌, ◌≤◌, ◌<◌, ◌≡◌, ◌≢◌, refl, ap, ltb, Bool-cases, inl, inr, List, [], ◌∷◌, ◌++◌, some,
  false, arith, All, All-reverse, All-mono,
}
use telos.Word.{word_mod, add32}
use telos.Paging.{page_align}
use telos.Paging.Align.{page_align_lem}
use telos.Mm.{Vma, Mm, Pool, vma_insert, vma_find, vma_contains}
use telos.Mm.Layout.{
  Chain, Apart, Chain-Apart, OnPages, IsLaidOut, vma_insert-Chain, vma_insert-All,
}
use telos.Mm.Space.{
  find_high, vma_find_space_high, vma_find_space, create_at, vma_create_high, vma_create_low,
  vma_create_fixed, clashes,
}
use telos.Mm.Space.Free.{Fits, vma_find_space_high-Fits, vma_find_space-Fits}

-- The new area `v` of `mm'`, for a request of `len` bytes between `start` and `end`: the areas of
-- `mm'` are those of `mm` and `v`, and `rest` are the free `struct vma`s without the one of `v`.
pub record Created (mm : Mm) (pool : Pool) (start end len flags : ℕ) (v : Vma) (mm' : Mm)
    (rest : Pool) : Type 0 where
  pub with_flags : v.flags ≡ flags
  pub taken : pool ≡ v.id ∷ rest
  pub inserted :
      (front : List Vma) × (back : List Vma) × (mm.map ≡ front ++ back)
      × (mm'.map ≡ front ++ v ∷ back)
  pub same_pgdir : mm'.pgdir ≡ mm.pgdir
  pub same_brk : mm'.brk ≡ mm.brk
  pub above : start ≤ v.start
  pub below : v.end ≤ end
  pub room : v.start + len ≤ v.end
  pub close : v.end < v.start + len + 4096
  pub clear : All (Apart v.start v.end) mm.map
  pub laid_out : IsLaidOut mm'.map

Apart-page_align :
    (r e : ℕ) (v : Vma) → e ≤ 0xFFFF_F000 → OnPages v → Apart r e v → Apart r (page_align e) v
Apart-page_align r e v h p (inl a) = inl a
Apart-page_align r e v h p (inr a) = inr (omega (arith, page_align_lem e h))

All-Apart-page_align :
    (r e : ℕ) (vs : List Vma)
    → e ≤ 0xFFFF_F000
    → All OnPages vs
    → All (Apart r e) vs
    → All (Apart r (page_align e)) vs
All-Apart-page_align r e [] h p a = tt
All-Apart-page_align r e (v ∷ vs) h p a =
    (Apart-page_align r e v h p.0 a.0, All-Apart-page_align r e vs h p.1 a.1)

insert-IsLaidOut :
    (areas : List Vma) (v : Vma)
    → IsLaidOut areas
    → OnPages v
    → v.start < v.end
    → All (Apart v.start v.end) areas
    → IsLaidOut (vma_insert areas v)
insert-IsLaidOut areas v ok p ne a = record {
  chain = vma_insert-Chain areas v 0 (omega arith) ne a ok.chain;
  on_pages = vma_insert-All OnPages areas v p ok.on_pages;
}

vma_insert_between :
    (areas : List Vma) (v : Vma)
    → (front : List Vma) × (back : List Vma) × (areas ≡ front ++ back)
      × (vma_insert areas v ≡ front ++ v ∷ back)
unfolding vma_insert
vma_insert_between [] v = ([], [], refl, refl)
vma_insert_between (x ∷ xs) v = elim (Bool-cases (ltb v.start x.start)) [
  | inl first ↦ rw first ([], x ∷ xs, refl, refl)
  | inr later ↦
      let (front, back, e, f) = vma_insert_between xs v in
      rw later (x ∷ front, back, ap (λ ys. x ∷ ys) e, ap (λ ys. x ∷ ys) f)
]

abbrev fresh_area : ℕ → ℕ → ℕ → ℕ → Vma
fresh_area p start end flags = record { id = p; start = start; end = end; flags = flags; op = 0 }

fresh_area-Created :
    (mm : Mm) (p : ℕ) (rest : Pool) (start end addr len flags : ℕ)
    → IsLaidOut mm.map
    → addr % 4096 ≡ 0
    → end % 4096 ≡ 0
    → 0 < len
    → end ≤ 0xFFFF_F000
    → Fits mm.map start end len addr
    → let v = fresh_area p addr (page_align (add32 addr len)) flags in
      Created mm (p ∷ rest) start end len flags v (record mm { map = vma_insert mm.map v }) rest
fresh_area-Created mm p rest start end addr len flags ok a b pos top fit =
    let (lo, hi, clear) = fit in
    let e : add32 addr len ≡ addr + len = omega arith in
    let round = page_align_lem (addr + len) (omega arith) in
    let apart : All (Apart addr (page_align (addr + len))) mm.map =
      All-Apart-page_align addr (addr + len) mm.map (omega arith) ok.on_pages clear in
    rw e (record {
      with_flags = refl;
      taken = refl;
      inserted = vma_insert_between mm.map (fresh_area p addr (page_align (addr + len)) flags);
      same_pgdir = refl;
      same_brk = refl;
      above = lo;
      below = omega (arith, round);
      room = omega (arith, round);
      close = omega (arith, round);
      clear = apart;
      laid_out =
          insert-IsLaidOut mm.map (fresh_area p addr (page_align (addr + len)) flags) ok
            (omega (arith, round)) (omega (arith, round)) apart;
    })

create_at-Created :
    (mm : Mm) (pool : Pool) (start end addr len flags : ℕ) (v : Vma) (mm' : Mm) (rest : Pool)
    → IsLaidOut mm.map
    → addr % 4096 ≡ 0
    → end % 4096 ≡ 0
    → 0 < len
    → end ≤ 0xFFFF_F000
    → Fits mm.map start end len addr
    → create_at mm pool addr len flags ≡ some (v, mm', rest)
    → (v.start ≡ addr) × Created mm pool start end len flags v mm' rest
unfolding create_at
create_at-Created mm [] start end addr len flags v mm' rest ok a b pos top fit e = cc
create_at-Created mm (p ∷ pool) start end addr len flags v mm' rest ok a b pos top fit e =
    subst
      (λ (t : Vma × Mm × Pool).
        (t.0.start ≡ addr) × Created mm (p ∷ pool) start end len flags t.0 t.1 t.2)
      (some-injective _ _ e)
      (refl, fresh_area-Created mm p pool start end addr len flags ok a b pos top fit)

-- Where the searches place an area on a page boundary.
find_high-OnPages :
    (vs : List Vma) (start end len : ℕ)
    → All OnPages vs
    → end % 4096 ≡ 0
    → len % 4096 ≡ 0
    → end < word_mod
    → len < word_mod
    → find_high vs start end len % 4096 ≡ 0
unfolding find_high
find_high-OnPages [] start end len p a b c d = ground arith
find_high-OnPages (v ∷ vs) start end len p a b c d =
    ground
      (arith, find_high-OnPages vs start end len p.1, find_high-OnPages vs start v.start len p.1)

vma_find_space_high-OnPages :
    (areas : List Vma) (start end len : ℕ)
    → All OnPages areas
    → end % 4096 ≡ 0
    → len ≤ 0xFFFF_F000
    → end < word_mod
    → vma_find_space_high areas start end len % 4096 ≡ 0
unfolding vma_find_space_high
vma_find_space_high-OnPages areas start end len p b h k =
    let round = page_align_lem len h in
    find_high-OnPages (reverse areas) start end (page_align len) (All-reverse OnPages areas p) b
      round.0 k (omega (arith, round))

vma_find_space-OnPages :
    (vs : List Vma) (start end len : ℕ)
    → All OnPages vs
    → start % 4096 ≡ 0
    → vma_find_space vs start end len % 4096 ≡ 0
unfolding vma_find_space
vma_find_space-OnPages [] start end len p a = ground arith
vma_find_space-OnPages (v ∷ vs) start end len p a = ground (
  arith,
  vma_find_space-OnPages vs start end len p.1,
  vma_find_space-OnPages vs v.end end len p.1,
)

Fits-mono :
    (areas : List Vma) (start end len len' r : ℕ)
    → len ≤ len'
    → Fits areas start end len' r
    → Fits areas start end len r
Fits-mono areas start end len len' r h f = (
  f.0,
  omega arith,
  All-mono (Apart r (r + len')) (Apart r (r + len)) areas (λ v a. omega arith) f.2,
)

-- A search that found something, and the area created there.
vma_create_high_cases :
    (mm : Mm) (pool : Pool) (start end len flags : ℕ) (t : Vma × Mm × Pool)
    → vma_create_high mm pool start end len flags ≡ some t
    → (vma_find_space_high mm.map start end len ≢ 0)
      × (create_at mm pool (vma_find_space_high mm.map start end len) len flags ≡ some t)
unfolding vma_create_high
vma_create_high_cases mm pool start end len flags t e = ground arith

vma_create_low_cases :
    (mm : Mm) (pool : Pool) (start end len flags : ℕ) (t : Vma × Mm × Pool)
    → vma_create_low mm pool start end len flags ≡ some t
    → (vma_find_space mm.map start end len ≢ 0)
      × (create_at mm pool (vma_find_space mm.map start end len) len flags ≡ some t)
unfolding vma_create_low
vma_create_low_cases mm pool start end len flags t e = ground arith

vma_create_fixed_cases :
    (mm : Mm) (pool : Pool) (start len flags : ℕ) (t : Vma × Mm × Pool)
    → vma_create_fixed mm pool start len flags ≡ some t
    → (clashes (vma_find mm.map start) start len ≡ false)
      × (create_at mm pool start len flags ≡ some t)
unfolding vma_create_fixed
vma_create_fixed_cases mm pool start len flags t e = ground arith

-- In a map that is laid out, with all areas below the upper bound, the upper bound on a page
-- boundary, and a request that is not empty and does not wrap above it: if `vma_create_high`
-- returns an area, the area has room for the request and the flags, lies between the bounds and
-- clear of all others, its `struct vma` is the first of the free ones, the new map is the old one
-- with the area added, and it is laid out.
pub vma_create_high-Created :
    (mm : Mm) (pool : Pool) (start end len flags : ℕ) (v : Vma) (mm' : Mm) (rest : Pool)
    → IsLaidOut mm.map
    → All (λ w. w.end ≤ end) mm.map
    → end % 4096 ≡ 0
    → 0 < len
    → end + len ≤ 0xFFFF_F000
    → start ≤ end
    → vma_create_high mm pool start end len flags ≡ some (v, mm', rest)
    → Created mm pool start end len flags v mm' rest
vma_create_high-Created mm pool start end len flags v mm' rest ok below b pos top se e =
    let (ne, made) = vma_create_high_cases mm pool start end len flags (v, mm', rest) e in
    let round = page_align_lem len (omega arith) in
    let fit =
      vma_find_space_high-Fits mm.map start end len end ok below (omega (arith, round))
        (omega (arith, round)) (omega arith) ne in
    (create_at-Created mm pool start end (vma_find_space_high mm.map start end len) len flags v mm'
      rest ok
      (vma_find_space_high-OnPages mm.map start end len ok.on_pages b (omega arith) (omega arith)) b
      pos (omega arith) (Fits-mono mm.map start end len (page_align len) _ round.1 fit) made).1

-- In a map that is laid out, with all areas below the upper bound, both bounds on page
-- boundaries, and a request that is not empty and does not wrap above them: if `vma_create_low`
-- returns an area, the area has room for the request and the flags, lies between the bounds and
-- clear of all others, its `struct vma` is the first of the free ones, the new map is the old one
-- with the area added, and it is laid out.
pub vma_create_low-Created :
    (mm : Mm) (pool : Pool) (start end len flags : ℕ) (v : Vma) (mm' : Mm) (rest : Pool)
    → IsLaidOut mm.map
    → All (λ w. w.end ≤ end) mm.map
    → start % 4096 ≡ 0
    → end % 4096 ≡ 0
    → 0 < len
    → end + len ≤ 0xFFFF_F000
    → start ≤ end
    → vma_create_low mm pool start end len flags ≡ some (v, mm', rest)
    → Created mm pool start end len flags v mm' rest
vma_create_low-Created mm pool start end len flags v mm' rest ok below a b pos top se e =
    let (ne, made) = vma_create_low_cases mm pool start end len flags (v, mm', rest) e in
    (create_at-Created mm pool start end (vma_find_space mm.map start end len) len flags v mm' rest
      ok (vma_find_space-OnPages mm.map start end len ok.on_pages a) b pos (omega arith)
      (vma_find_space-Fits mm.map 0 start end len ok.chain below (omega arith) (omega arith) ne)
      made).1

not-clashes-Apart :
    (areas : List Vma) (lo start len : ℕ)
    → Chain lo areas
    → All OnPages areas
    → start < word_mod
    → clashes (vma_find areas start) start len ≡ false
    → All (Apart start (start + len)) areas
unfolding clashes vma_find vma_contains
not-clashes-Apart [] lo start len c p h e = tt
not-clashes-Apart (v ∷ vs) lo start len c p h e = ground (
  arith,
  not-clashes-Apart vs v.end start len c.2 p.1 h,
  Chain-Apart vs v.end start (start + len),
)

-- In a map that is laid out, for an address on a page boundary and a request that is not empty
-- and does not wrap: if `vma_create_fixed` returns an area, the area begins at the address, has
-- room for the request and the flags, is less than a page longer and clear of all others, its `struct
-- vma` is the first of the free ones, the new map is the old one with the area added, and it is laid
-- out.
pub vma_create_fixed-Created :
    (mm : Mm) (pool : Pool) (start len flags : ℕ) (v : Vma) (mm' : Mm) (rest : Pool)
    → IsLaidOut mm.map
    → start % 4096 ≡ 0
    → 0 < len
    → start + len ≤ 0xFFFF_F000
    → vma_create_fixed mm pool start len flags ≡ some (v, mm', rest)
    → (v.start ≡ start) × Created mm pool start (page_align (start + len)) len flags v mm' rest
vma_create_fixed-Created mm pool start len flags v mm' rest ok b pos top e =
    let (free, made) = vma_create_fixed_cases mm pool start len flags (v, mm', rest) e in
    let round = page_align_lem (start + len) (omega arith) in
    create_at-Created mm pool start (page_align (start + len)) start len flags v mm' rest ok b
      round.0 pos (omega (arith, round))
      (
        omega arith,
        round.1,
        not-clashes-Apart mm.map 0 start len ok.chain ok.on_pages (omega arith) free,
      )
      made
