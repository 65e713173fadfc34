-- ===== src/Parse.antt =====
-- Reading numbers (lib/kstrtox.c, the tests of lib/ctype.h). A string is the list of its bytes
-- without the final NUL; a byte past its end reads as 0. An `unsigned long long` is below
-- 2 ^ 64, a `long long` its two's complement.
pub mod Digits
pub mod Numeral
pub mod Narrow
mod Tests
use telos.Prelude.{
  ℕ, ◌+◌, ◌-◌, ◌*◌, ◌%◌, ◌^◌, ◌==◌, leb, ltb, if◌then◌else◌, Option, none, some, Bool, true, false,
  not, ◌&&◌, ◌||◌, List, [], ◌∷◌, bit_and, bit_or, get_or, drop,
}
use telos.Word.{add32}
use telos.Errno.{Errno, erange, einval, Result, got, failed}

abbrev pub long_long_mod : ℕ
long_long_mod = 2 ^ 64

-- `_tolower`
unfoldable pub lower : ℕ → ℕ
lower c = bit_or c 32

-- `isxdigit`: the bytes that the table marks with _D or _X
unfoldable pub isxdigit : ℕ → Bool
isxdigit c = (leb 48 c && leb c 57) || (leb 65 c && leb c 70) || (leb 97 c && leb c 102)

-- The first `if` of `_parse_integer_fixup_radix`: base 0 is replaced by the one found.
unfoldable pub found_base : List ℕ → ℕ → ℕ
unfolding lower isxdigit
found_base s base =
    if base == 0
    then (if get_or s 0 0 == 48
        then (if lower (get_or s 1 0) == 120 && isxdigit (get_or s 2 0) then 16 else 8)
        else 10)
    else base

unfoldable pub fixup_radix : List ℕ → ℕ → List ℕ × ℕ
unfolding lower
fixup_radix s base =
    let b = found_base s base in
    (if b == 16 && get_or s 0 0 == 48 && lower (get_or s 1 0) == 120 then drop 2 s else s, b)

-- `val` of `_parse_integer`, before it is compared with the base
unfoldable pub digit_value : ℕ → Option ℕ
unfolding lower
digit_value c =
    if leb 48 c && leb c 57
    then some (c - 48)
    else if leb 97 (lower c) && leb (lower c) 102
    then some (lower c - 97 + 10)
    else none

-- The loop of `_parse_integer`: what is left of the string, the base, `res` and `rv`. It returns
-- `rv` and `res`. The test for overflow is commented out in the code.
unfoldable pub parse_integer : List ℕ → ℕ → ℕ → ℕ → ℕ × ℕ
parse_integer [] base res rv = (rv, res)
parse_integer (c ∷ s) base res rv = elim (digit_value c) [
  | none ↦ (rv, res)
  | some val ↦
      let rest = parse_integer s base ((res * base + val) % long_long_mod) (add32 rv 1) in
      if leb base val then (rv, res) else rest
]

-- KSTRTOX_OVERFLOW
abbrev pub overflow_bit : ℕ
overflow_bit = 2 ^ 31

-- `_kstrtoull` after the digits: a newline may follow, and nothing else.
unfoldable pub at_end : List ℕ → Bool
at_end s = get_or (if get_or s 0 0 == 10 then drop 1 s else s) 0 0 == 0

unfoldable pub kstrtoull_unsigned : List ℕ → ℕ → Result ℕ
kstrtoull_unsigned s base =
    let (t, b) = fixup_radix s base in
    let (rv, res) = parse_integer t b 0 0 in
    if not (bit_and rv overflow_bit == 0)
    then failed erange
    else if rv == 0
    then failed einval
    else if at_end (drop rv t)
    then got res
    else failed einval

unfoldable pub kstrtoull : List ℕ → ℕ → Result ℕ
kstrtoull s base = kstrtoull_unsigned (if get_or s 0 0 == 43 then drop 1 s else s) base

-- `-tmp` and `(long long) tmp < 0`
abbrev pub neg64 : ℕ → ℕ
neg64 t = (long_long_mod - t) % long_long_mod

abbrev pub is_negative : ℕ → Bool
is_negative t = leb (2 ^ 63) t

unfoldable pub kstrtoll : List ℕ → ℕ → Result ℕ
kstrtoll s base =
    let minus : Result ℕ = elim (kstrtoull_unsigned (drop 1 s) base) [
      | failed e ↦ failed e
      | got tmp ↦ if not (is_negative (neg64 tmp)) then failed erange else got (neg64 tmp)
    ] in
    let plus : Result ℕ = elim (kstrtoull s base) [
      | failed e ↦ failed e
      | got tmp ↦ if is_negative tmp then failed erange else got tmp
    ] in
    if get_or s 0 0 == 45 then minus else plus

-- A value cast to an unsigned and to a signed type of `w` bits, and back to 64.
abbrev pub zero_extend : ℕ → ℕ → ℕ
zero_extend w t = t % 2 ^ w

abbrev pub sign_extend : ℕ → ℕ → ℕ
sign_extend w t =
    if ltb (t % 2 ^ w) (2 ^ (w - 1)) then t % 2 ^ w else t % 2 ^ w + (long_long_mod - 2 ^ w)

unfoldable pub narrow : (ℕ → ℕ) → Result ℕ → Result ℕ
narrow cast (failed e) = failed e
narrow cast (got tmp) = if tmp == cast tmp then got tmp else failed erange

-- `_kstrtoul` and `kstrtouint`, `_kstrtol` and `kstrtoint`: all of 32 bits
unfoldable pub kstrtoul : List ℕ → ℕ → Result ℕ
unfolding narrow
kstrtoul s base = narrow (zero_extend 32) (kstrtoull s base)

unfoldable pub kstrtol : List ℕ → ℕ → Result ℕ
unfolding narrow
kstrtol s base = narrow (sign_extend 32) (kstrtoll s base)

unfoldable pub kstrtouint : List ℕ → ℕ → Result ℕ
unfolding narrow
kstrtouint s base = narrow (zero_extend 32) (kstrtoull s base)

unfoldable pub kstrtoint : List ℕ → ℕ → Result ℕ
unfolding narrow
kstrtoint s base = narrow (sign_extend 32) (kstrtoll s base)

unfoldable pub kstrtou16 : List ℕ → ℕ → Result ℕ
unfolding narrow
kstrtou16 s base = narrow (zero_extend 16) (kstrtoull s base)

unfoldable pub kstrtos16 : List ℕ → ℕ → Result ℕ
unfolding narrow
kstrtos16 s base = narrow (sign_extend 16) (kstrtoll s base)

unfoldable pub kstrtou8 : List ℕ → ℕ → Result ℕ
unfolding narrow
kstrtou8 s base = narrow (zero_extend 8) (kstrtoull s base)

unfoldable pub kstrtos8 : List ℕ → ℕ → Result ℕ
unfolding narrow
kstrtos8 s base = narrow (sign_extend 8) (kstrtoll s base)
