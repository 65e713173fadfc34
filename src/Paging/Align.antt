-- ===== src/Paging/Align.antt =====
-- `page_align` and `page_base` as rounding to a multiple of the frame size.
use telos.Prelude.{ℕ, ◌+◌, ◌-◌, ◌*◌, ◌%◌, ◌≤◌, ◌<◌, ◌≡◌, arith}
use telos.Word.{word_mod, add32}
use telos.Word.Mask.{bit_and_page, bit_and-not_page, bit_and_ones, bit_and-not_para}
use telos.Paging.{align_up, page_align, page_base, pages_in_range}

-- Up to the last page boundary, `page_align` is the least multiple of the frame size not below `n`.
pub page_align_lem :
    (n : ℕ)
    → n ≤ 0xFFFF_F000
    → (page_align n % 4096 ≡ 0) × (n ≤ page_align n) × (page_align n < n + 4096)
unfolding page_align
page_align_lem n h = ground (arith, bit_and_page n, bit_and-not_page (add32 n 4096) (omega arith))

-- Past it the sum wraps, and the result is 0.
pub page_align_wraps : (n : ℕ) → 0xFFFF_F000 < n → n < word_mod → page_align n ≡ 0
unfolding page_align
page_align_wraps n h k =
    ground (arith, bit_and_page n, bit_and-not_page (add32 n 4096) (omega arith))

pub page_align_self : (n : ℕ) → n % 4096 ≡ 0 → page_align n ≡ n
unfolding page_align
page_align_self n h = ground (arith, bit_and_page n)

pub page_base_lem : (n : ℕ) → n < word_mod → page_base n ≡ n - n % 4096
unfolding page_base
page_base_lem n h = bit_and-not_page n h

-- For a range that does not wrap, the pages from `page_base addr` on cover it, and no fewer do.
pub pages_in_range_lem :
    (addr len : ℕ)
    → 0 < len
    → addr + len ≤ 0xFFFF_F000
    → (addr + len ≤ page_base addr + pages_in_range addr len * 4096)
      × (page_base addr + pages_in_range addr len * 4096 < addr + len + 4096)
unfolding pages_in_range
pages_in_range_lem addr len pos h =
    omega (arith, bit_and_page addr, page_base_lem addr (omega arith))

pub align_up_16 :
    (n : ℕ)
    → n ≤ 0xFFFF_FFF0
    → (align_up n 16 % 16 ≡ 0) × (n ≤ align_up n 16) × (align_up n 16 < n + 16)
unfolding align_up
align_up_16 n h = ground (arith, bit_and_ones 4 n, bit_and-not_para (add32 n 16) (omega arith))
