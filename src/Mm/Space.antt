-- ===== src/Mm/Space.antt =====
-- Searching for free space, and the functions that create areas (kernel/vma.c).
pub mod Free
pub mod Create
use mathlib.Core.List.{reverse}
use telos.Prelude.{
  ℕ, ◌+◌, ◌-◌, ◌%◌, ◌*◌, ◌≡◌, List, [], ◌∷◌, Option, none, some, Bool, true, false, ◌&&◌, ◌||◌, ltb,
  leb, ◌==◌, if◌then◌else◌,
}
use telos.Word.{add32, sub32}
use telos.Paging.{page_align}
use telos.Mm.{Vma, Mm, Pool, new_vma, vma_insert, vma_find, vma_contains}

-- The loop of `vma_find_space_high` over the areas from the last to the first, with the final test
-- once they are used up; `len` is aligned before it starts. 0 stands for no space.
unfoldable pub find_high : List Vma → ℕ → ℕ → ℕ → ℕ
find_high [] start end len = if leb end start || ltb (sub32 end start) len then 0 else sub32 end len
find_high (v ∷ vs) start end len =
    let skip = find_high vs start end len in
    let down = find_high vs start v.start len in
    if leb end v.start
    then skip
    else if ltb end (add32 start len)
    then 0
    else if leb (add32 v.end len) end
    then sub32 end len
    else down

unfoldable pub vma_find_space_high : List Vma → ℕ → ℕ → ℕ → ℕ
vma_find_space_high areas start end len = find_high (reverse areas) start end (page_align len)

-- `vma_find_space`: from the first area up; here `len` is not aligned.
unfoldable pub vma_find_space : List Vma → ℕ → ℕ → ℕ → ℕ
vma_find_space [] start end len = if leb end start || ltb end (add32 start len) then 0 else start
vma_find_space (v ∷ vs) start end len =
    let skip = vma_find_space vs start end len in
    let up = vma_find_space vs v.end end len in
    if leb v.end start
    then skip
    else if leb end (add32 start len)
    then 0
    else if ltb (add32 start len) v.start
    then start
    else up

-- `new_vma(addr, page_align(addr+len), flags)` and `vma_insert`
unfoldable pub create_at : Mm → Pool → ℕ → ℕ → ℕ → Option (Vma × Mm × Pool)
unfolding new_vma vma_insert
create_at mm pool addr len flags = elim (new_vma pool addr (page_align (add32 addr len)) flags) [
  | none ↦ none
  | some (v, rest) ↦ some (v, record mm { map = vma_insert mm.map v }, rest)
]

unfoldable pub vma_create_high : Mm → Pool → ℕ → ℕ → ℕ → ℕ → Option (Vma × Mm × Pool)
vma_create_high mm pool start end len flags =
    let addr = vma_find_space_high mm.map start end len in
    if addr == 0 then none else create_at mm pool addr len flags

unfoldable pub vma_create_low : Mm → Pool → ℕ → ℕ → ℕ → ℕ → Option (Vma × Mm × Pool)
vma_create_low mm pool start end len flags =
    let addr = vma_find_space mm.map start end len in
    if addr == 0 then none else create_at mm pool addr len flags

-- The test of `vma_create_fixed` on the area that `vma_find` returns.
unfoldable pub clashes : Option Vma → ℕ → ℕ → Bool
clashes none start len = false
clashes (some v) start len = vma_contains v start || ltb (sub32 v.start start) len

unfoldable pub vma_create_fixed : Mm → Pool → ℕ → ℕ → ℕ → Option (Vma × Mm × Pool)
unfolding clashes vma_contains
vma_create_fixed mm pool start len flags =
    if clashes (vma_find mm.map start) start len then none else create_at mm pool start len flags
