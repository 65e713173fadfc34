-- ===== src/Mm/Access/Verify.antt =====
-- What the range checks accept.
use telos.Prelude.{
  ℕ, ◌+◌, ◌≤◌, ◌<◌, ◌≡◌, refl, ◌↔◌, Option, none, some, true, false, List, [], ◌∷◌, bit_and, arith,
  All,
}
use telos.Word.{word_mod, sub32}
use telos.Mm.{Vma, vma_get, vma_find}
use telos.Mm.Layout.{Chain, Chain-Apart, In, Contains, Apart, vma_get_sound, vma_get_complete}
use telos.Mm.Access.{verify_area, vm_verify, vm_verify_unmapped}

verify_area-some :
    (o : Option Vma) (start len flags : ℕ)
    → verify_area o start len flags ≡ true
    → (v : Vma) × (o ≡ some v) × (bit_and v.flags flags ≡ flags) × (len ≤ sub32 start v.start)
unfolding verify_area
verify_area-some none start len flags e = cc
verify_area-some (some v) start len flags e = (v, refl, ground arith, ground arith)

-- A range that begins in an area with the flags, `len` bytes or more past the area's beginning.
abbrev pub Verified : List Vma → ℕ → ℕ → ℕ → Type 0
Verified areas start len flags =
    (v : Vma) × In v areas
    × Contains start v
    × (bit_and v.flags flags ≡ flags)
    × (v.start + len ≤ start)

-- On areas in order, for an address of 32 bits, `vm_verify` accepts a range exactly when it
-- begins in an area that has the flags, at least `len` bytes past the beginning of the area. The
-- end of the area plays no part.
pub vm_verify_iff :
    (areas : List Vma) (start len flags : ℕ)
    → Chain 0 areas
    → start < word_mod
    → (vm_verify areas start len flags ≡ true) ↔ Verified areas start len flags
unfolding vm_verify
vm_verify_iff areas start len flags c h = (forth, back)
  where
    forth :
        verify_area (vma_get areas start) start len flags ≡ true → Verified areas start len flags
    forth e =
        let (v, f, g, l) = verify_area-some (vma_get areas start) start len flags e in
        let (i, k) = vma_get_sound areas start v f in (v, i, k, g, omega arith)

    back : Verified areas start len flags → verify_area (vma_get areas start) start len flags ≡ true
    back (v, i, k, f, l) = ground (arith, vma_get_complete areas start 0 v c i k)

-- `vm_verify` gets both ends of an area wrong: for areas in order, it accepts a range that runs
-- past the end of its area, if the area has the flags and the range begins `len` bytes or more
-- inside, and refuses as long a range at the very beginning of the same area.
pub vm_verify_misses_end :
    (areas : List Vma) (v : Vma) (start len flags : ℕ)
    → Chain 0 areas
    → In v areas
    → start < v.end
    → v.end < word_mod
    → v.end < start + len
    → v.start + len ≤ start
    → bit_and v.flags flags ≡ flags
    → (vm_verify areas start len flags ≡ true) × (vm_verify areas v.start len flags ≡ false)
unfolding vm_verify
vm_verify_misses_end areas v start len flags c i inside b past far f = (
  ground (arith, vma_get_complete areas start 0 v c i),
  ground (arith, vma_get_complete areas v.start 0 v c i),
)

-- On areas in order, a range that does not wrap and that `vm_verify_unmapped` accepts meets no
-- area.
pub vm_verify_unmapped-Apart :
    (areas : List Vma) (start len lo : ℕ)
    → Chain lo areas
    → start + len < word_mod
    → vm_verify_unmapped areas start len ≡ true
    → All (Apart start (start + len)) areas
unfolding vm_verify_unmapped vma_find
vm_verify_unmapped-Apart [] start len lo c h e = tt
vm_verify_unmapped-Apart (v ∷ vs) start len lo c h e = ground (
  arith,
  vm_verify_unmapped-Apart vs start len v.end c.2 h,
  Chain-Apart vs v.end start (start + len),
)
