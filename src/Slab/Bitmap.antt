-- ===== src/Slab/Bitmap.antt =====
-- Bitmaps (include/kernel/bitmap.h) and `ffz` of include/asm/bitops.h.
pub mod Found
use telos.Prelude.{
  ℕ, zero, suc, ◌+◌, ◌-◌, ◌*◌, ◌/◌, ◌%◌, ◌^◌, ◌==◌, Bool, true, false, List, bit_and, bit_or,
  get_or, set,
}
use telos.Word.{word_mod, not32}
use telos.Word.Bits.{bit}

unfoldable pub bitmap_set : List ℕ → ℕ → List ℕ
bitmap_set bitmap idx = set bitmap (idx / 32) (bit_or (get_or bitmap (idx / 32) 0) (2 ^ (idx % 32)))

unfoldable pub bitmap_clear : List ℕ → ℕ → List ℕ
bitmap_clear bitmap idx =
    set bitmap (idx / 32) (bit_and (get_or bitmap (idx / 32) 0) (not32 (2 ^ (idx % 32))))

-- The first of the `n` lowest bits that is zero; `n` when there is none.
unfoldable pub zero_below : ℕ → ℕ → ℕ
zero_below zero a = 0
zero_below (suc n) a = elim (a % 2 == 0) [ true ↦ 0 | false ↦ suc (zero_below n (a / 2)) ]

unfoldable pub ffz : ℕ → ℕ
unfolding zero_below
ffz word = zero_below 32 word

-- The loop of `bitmap_ffz`, with `n` words to go from the one at `i`; it returns -1 at the end.
unfoldable pub ffz_words : ℕ → ℕ → List ℕ → ℕ
ffz_words zero i bitmap = word_mod - 1
ffz_words (suc n) i bitmap = elim (get_or bitmap i 0 == word_mod - 1) [
  | true ↦ ffz_words n (i + 1) bitmap
  | false ↦ (ffz (get_or bitmap i 0) + i * 32) % word_mod
]

unfoldable pub bitmap_ffz : List ℕ → ℕ → ℕ
unfolding ffz_words
bitmap_ffz bitmap len = ffz_words len 0 bitmap

-- Whether the bit `i` of a bitmap is set.
unfoldable pub bitmap_bit : List ℕ → ℕ → Bool
bitmap_bit bitmap i = bit (i % 32) (get_or bitmap (i / 32) 0)
