-- ===== src/Mm/Flag.antt =====
-- The mode bits of an area: the enumeration of include/kernel/mm/vma.h.
use telos.Prelude.{ℕ}

abbrev pub exec : ℕ
exec = 0x1

abbrev pub write : ℕ
write = 0x2

abbrev pub read : ℕ
read = 0x4

abbrev pub zeroed : ℕ
zeroed = 0x8

-- never unmap
abbrev pub keep : ℕ
keep = 0x10

-- stay mapped across exec
abbrev pub keep_exec : ℕ
keep_exec = 0x20

-- shared across fork
abbrev pub share : ℕ
share = 0x40
