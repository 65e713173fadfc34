-- ===== src/Mm/Access.antt =====
-- The checks of a range that user code hands over (kernel/vma.c): `true` is the
-- return value 0, `false` is -1. The messages to the console are left out.
pub mod Verify
use telos.Prelude.{
  ℕ, ltb, ◌==◌, if◌then◌else◌, Option, none, some, Bool, true, false, List, bit_and,
}
use telos.Word.{add32, sub32}
use telos.Mm.{Vma, vma_get, vma_find}

-- The tests of `vm_verify` on the area that `vma_get` returns.
unfoldable pub verify_area : Option Vma → ℕ → ℕ → ℕ → Bool
verify_area none start len flags = false
verify_area (some v) start len flags =
    if bit_and v.flags flags == flags
    then (if ltb (sub32 start v.start) len then false else true)
    else false

unfoldable pub vm_verify : List Vma → ℕ → ℕ → ℕ → Bool
unfolding verify_area
vm_verify areas start len flags = verify_area (vma_get areas start) start len flags

unfoldable pub unmapped_from : Option Vma → ℕ → ℕ → Bool
unmapped_from none start len = true
unmapped_from (some v) start len = ltb (add32 start len) v.start

unfoldable pub vm_verify_unmapped : List Vma → ℕ → ℕ → Bool
unfolding unmapped_from
vm_verify_unmapped areas start len = unmapped_from (vma_find areas start) start len
