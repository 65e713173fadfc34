-- ===== src/Word.antt =====
-- Machine words of the i386 target: `uintptr_t`, `size_t` and `unsigned long` are 32 bits wide
-- (include/telos/type_defs.h). A word is a number below `2 ^ 32`.
pub mod Mask
pub mod Bits
use telos.Prelude.{ℕ, ◌+◌, ◌-◌, ◌%◌, ◌^◌}

abbrev pub word_mod : ℕ
word_mod = 2 ^ 32

-- Addition and subtraction wrap.
abbrev pub add32 : ℕ → ℕ → ℕ
add32 a b = (a + b) % word_mod

abbrev pub sub32 : ℕ → ℕ → ℕ
sub32 a b = (a + word_mod - b) % word_mod

-- `~a`
abbrev pub not32 : ℕ → ℕ
not32 a = word_mod - 1 - a
