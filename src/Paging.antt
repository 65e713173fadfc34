-- ===== src/Paging.antt =====
-- The page arithmetic of include/kernel/mm/paging.h.
pub mod Align
use telos.Prelude.{ℕ, ◌+◌, ◌-◌, ◌/◌, ◌%◌, bit_and, if◌then◌else◌, ◌==◌}
use telos.Word.{add32, sub32, not32}

abbrev pub frame_size : ℕ
frame_size = 4096

-- `(((addr & 0xFFF) + (len - 1)) / FRAME_SIZE) + 1`; `len - 1` wraps at `len == 0`.
unfoldable pub pages_in_range : ℕ → ℕ → ℕ
pages_in_range addr len = add32 (add32 (bit_and addr 0xFFF) (sub32 len 1) / frame_size) 1

-- `align` is a power of two; `mask` is `align - 1`.
unfoldable pub align_up : ℕ → ℕ → ℕ
align_up addr align =
    let mask : ℕ = sub32 align 1 in
    if bit_and addr mask == 0 then addr else bit_and (add32 addr align) (not32 mask)

unfoldable pub align_down : ℕ → ℕ → ℕ
align_down addr align = bit_and addr (not32 (sub32 align 1))

unfoldable pub page_align : ℕ → ℕ
unfolding align_up
page_align n = align_up n frame_size

unfoldable pub page_base : ℕ → ℕ
unfolding align_down
page_base n = align_down n frame_size
