-- ===== src/Parse/Numeral.antt =====
-- What `kstrtoull` and `kstrtoll` make of a well-formed numeral.
use telos.Prelude.{
  ℕ, suc, ◌+◌, ◌-◌, ◌*◌, ◌%◌, ◌^◌, ◌≤◌, ◌<◌, ◌≡◌, ◌≢◌, refl, ap, ◌∙◌, ◌==◌, if◌then◌else◌, Bool,
  true, false, List, [], ◌∷◌, ◌++◌, map, arith, All, length, get_or, drop, bit_and,
}
use telos.Word.Bits.{bit_and-shift, bit_high}
use telos.Errno.{got}
use telos.Parse.{
  lower, digit_value, fixup_radix, found_base, at_end, kstrtoull_unsigned, kstrtoull, long_long_mod,
  overflow_bit, isxdigit,
}
use telos.Parse.Digits.{digit_char, numeral, Stops, digit_char_plain, parse_integer_digits}

abbrev pub newline : Bool → List ℕ
newline true = 10 ∷ []
newline false = []

newline-Stops : (nl : Bool) → Stops (newline nl)
unfolding digit_value lower
newline-Stops true = refl
newline-Stops false = refl

at_end-newline : (nl : Bool) → at_end (newline nl) ≡ true
unfolding at_end
at_end-newline true = refl
at_end-newline false = refl

drop-map : (ds : List ℕ) (f : ℕ → ℕ) (s : List ℕ) → drop (length ds) (map f ds ++ s) ≡ s
drop-map [] f s = refl
drop-map (d ∷ ds) f s = drop-map ds f s

no_overflow : (n : ℕ) → n < overflow_bit → bit_and n overflow_bit ≡ 0
no_overflow n h = ground (arith, bit_and-shift 31 n, bit_high 31 31 n)

-- The text of a numeral: its digits, and perhaps a newline.
abbrev pub text : List ℕ → Bool → List ℕ
text ds nl = map digit_char ds ++ newline nl

first_plain :
    (ds : List ℕ) (nl : Bool) (base : ℕ)
    → All (λ x. x < base) ds
    → base ≤ 16
    → (lower (get_or (text ds nl) 0 0) == 120) ≡ false
unfolding lower
first_plain [] true base a b = refl
first_plain [] false base a b = refl
first_plain (d ∷ ds) nl base a b = (digit_char_plain d (omega (arith, a.0))).0

-- With the base given, the text of a numeral has no prefix to skip.
fixup_radix-text :
    (d : ℕ) (ds : List ℕ) (nl : Bool) (base : ℕ)
    → All (λ x. x < base) (d ∷ ds)
    → base ≤ 16
    → 0 < base
    → fixup_radix (text (d ∷ ds) nl) base ≡ (text (d ∷ ds) nl, base)
unfolding fixup_radix found_base
fixup_radix-text d ds nl base a b p = rw (first_plain ds nl base a.1 b, fixup_radix) (ground arith)

kstrtoull_unsigned_digits :
    (s : List ℕ) (base base' : ℕ) (d : ℕ) (ds : List ℕ) (nl : Bool)
    → fixup_radix s base ≡ (text (d ∷ ds) nl, base')
    → All (λ x. x < base') (d ∷ ds)
    → base' ≤ 16
    → length (d ∷ ds) < overflow_bit
    → kstrtoull_unsigned s base ≡ got (numeral base' (d ∷ ds) % long_long_mod)
unfolding kstrtoull_unsigned
kstrtoull_unsigned_digits s base base' d ds nl e a b l =
    let p =
      parse_integer_digits (d ∷ ds) (newline nl) base' 0 0 a b (omega (arith, l)) (newline-Stops nl)
        (omega arith) in
    let n : ℕ = length ds in
    let count : 0 + suc n ≡ suc n = omega arith in
    let small = no_overflow (suc n) l in
    let rest = drop-map ds digit_char (newline nl) in
    let total : 0 * base' ^ suc n + (d * base' ^ n + numeral base' ds)
        ≡ d * base' ^ n + numeral base' ds =
      omega arith in
    rw (kstrtoull_unsigned, e, p, count, small, rest, at_end-newline nl, total) (ground arith)

pub kstrtoull_unsigned-text :
    (d : ℕ) (ds : List ℕ) (nl : Bool) (base : ℕ)
    → All (λ x. x < base) (d ∷ ds)
    → base ≤ 16
    → length (d ∷ ds) < overflow_bit
    → kstrtoull_unsigned (text (d ∷ ds) nl) base ≡ got (numeral base (d ∷ ds) % long_long_mod)
kstrtoull_unsigned-text d ds nl base a b l =
    kstrtoull_unsigned_digits (text (d ∷ ds) nl) base base d ds nl
      (fixup_radix-text d ds nl base a b (omega (arith, a.0))) a b l

kstrtoull_unsigned-kstrtoull :
    (d : ℕ) (s : List ℕ) (base : ℕ)
    → d < 16
    → kstrtoull (digit_char d ∷ s) base ≡ kstrtoull_unsigned (digit_char d ∷ s) base
unfolding kstrtoull
kstrtoull_unsigned-kstrtoull d s base h =
    let p = digit_char_plain d h in let e : (digit_char d == 43) ≡ false = p.1 in rw e

-- A numeral of one digit or more and less than 2 ^ 31, in a base from 1 to 16, which may have a
-- plus sign before it and a newline behind it, is read by `kstrtoull` as its value. A value of 2
-- ^ 64 or more is reduced modulo 2 ^ 64, and no error is returned.
pub kstrtoull-numeral :
    (plus : Bool) (d : ℕ) (ds : List ℕ) (nl : Bool) (base : ℕ)
    → All (λ x. x < base) (d ∷ ds)
    → base ≤ 16
    → length (d ∷ ds) < overflow_bit
    → kstrtoull (if plus then 43 ∷ text (d ∷ ds) nl else text (d ∷ ds) nl) base
      ≡ got (numeral base (d ∷ ds) % long_long_mod)
unfolding kstrtoull
kstrtoull-numeral true d ds nl base a b l = kstrtoull_unsigned-text d ds nl base a b l
kstrtoull-numeral false d ds nl base a b l =
    kstrtoull_unsigned-kstrtoull d (map digit_char ds ++ newline nl) base (omega (arith, a.0))
    ∙ kstrtoull_unsigned-text d ds nl base a b l

isxdigit-digit_char : (d : ℕ) → d < 16 → isxdigit (digit_char d) ≡ true
unfolding isxdigit
isxdigit-digit_char d h = ground arith

fixup_radix-hex :
    (d : ℕ) (s : List ℕ) (x : ℕ)
    → lower x ≡ 120
    → d < 16
    → fixup_radix (48 ∷ x ∷ digit_char d ∷ s) 0 ≡ (digit_char d ∷ s, 16)
unfolding fixup_radix found_base
fixup_radix-hex d s x e h = rw (e, isxdigit-digit_char d h, fixup_radix)

fixup_radix-octal :
    (ds : List ℕ) (nl : Bool)
    → All (λ x. x < 8) ds
    → fixup_radix (48 ∷ text ds nl) 0 ≡ (48 ∷ text ds nl, 8)
unfolding fixup_radix found_base
fixup_radix-octal ds nl a = rw (first_plain ds nl 8 a (omega arith), fixup_radix)

fixup_radix-decimal :
    (d : ℕ) (s : List ℕ)
    → d < 10
    → d ≢ 0
    → fixup_radix (digit_char d ∷ s) 0 ≡ (digit_char d ∷ s, 10)
unfolding fixup_radix found_base
fixup_radix-decimal d s h ne = ground arith

-- With base 0, `kstrtoull` finds the base of a numeral of less than 2 ^ 31 - 1 digits: 16 behind
-- `0x` or `0X`, 8 behind `0`, and 10 if the first digit is not 0; it reads the value modulo 2 ^
-- 64.
pub kstrtoull_detects :
    (d : ℕ) (ds : List ℕ) (nl : Bool) (x : ℕ)
    → length (d ∷ ds) < overflow_bit - 1
    → ((lower x ≡ 120)
        → All (λ y. y < 16) (d ∷ ds)
        → kstrtoull (48 ∷ x ∷ text (d ∷ ds) nl) 0 ≡ got (numeral 16 (d ∷ ds) % long_long_mod))
      × (All (λ y. y < 8) (d ∷ ds)
          → kstrtoull (48 ∷ text (d ∷ ds) nl) 0 ≡ got (numeral 8 (d ∷ ds) % long_long_mod))
      × (All (λ y. y < 10) (d ∷ ds)
          → d ≢ 0
          → kstrtoull (text (d ∷ ds) nl) 0 ≡ got (numeral 10 (d ∷ ds) % long_long_mod))
unfolding kstrtoull
kstrtoull_detects d ds nl x l = (
  (λ e a.
      kstrtoull_unsigned_digits (48 ∷ x ∷ text (d ∷ ds) nl) 0 16 d ds nl
        (fixup_radix-hex d (map digit_char ds ++ newline nl) x e a.0) a (omega arith)
        (omega arith)),
  (λ a.
      kstrtoull_unsigned_digits (48 ∷ text (d ∷ ds) nl) 0 8 0 (d ∷ ds) nl
        (fixup_radix-octal (d ∷ ds) nl a) (omega arith, a) (omega arith) (omega arith)
      ∙ ap (λ v. got (v % long_long_mod)) (omega arith)),
  (λ a ne.
      kstrtoull_unsigned-kstrtoull d (map digit_char ds ++ newline nl) 0 (omega (arith, a.0))
      ∙ kstrtoull_unsigned_digits (text (d ∷ ds) nl) 0 10 d ds nl
          (fixup_radix-decimal d (map digit_char ds ++ newline nl) a.0 ne) a (omega arith)
          (omega arith)),
)
