-- ===== src/Parse/Narrow.antt =====
-- The signed reading and the readings into narrower types.
use telos.Prelude.{
  ℕ, zero, suc, ◌-◌, ◌%◌, ◌^◌, ◌≤◌, ◌<◌, ◌≡◌, refl, ap, ◌∙◌, ◌==◌, ltb, if◌then◌else◌, Bool, true,
  false, not, ◌||◌, List, ◌∷◌, arith, All, length,
}
use telos.Errno.{erange, Result, got, failed}
use telos.Parse.{
  kstrtoll, kstrtol, kstrtoint, kstrtos16, kstrtos8, kstrtoul, kstrtouint, kstrtou16, kstrtou8,
  narrow, long_long_mod, neg64, is_negative, overflow_bit, sign_extend, zero_extend,
}
use telos.Parse.Digits.{numeral, digit_char_plain}
use telos.Parse.Numeral.{text, kstrtoull-numeral, kstrtoull_unsigned-text}

-- What a reading into `w` bits returns for a value: the code returns its two's complement of 64
-- bits if it fits, without or with a sign.
abbrev pub fit_unsigned : ℕ → ℕ → Result ℕ
fit_unsigned w v = if ltb v (2 ^ w) then got v else failed erange

abbrev pub fit_signed : ℕ → Bool → ℕ → Result ℕ
fit_signed w minus v =
    if minus
    then (if v == 0 || ltb (2 ^ (w - 1)) v then failed erange else got (long_long_mod - v))
    else (if ltb v (2 ^ (w - 1)) then got v else failed erange)

abbrev pub signed_text : Bool → List ℕ → Bool → List ℕ
signed_text minus ds nl = if minus then 45 ∷ text ds nl else text ds nl

plus_fits :
    (v : ℕ)
    → v < long_long_mod
    → (if is_negative (v % long_long_mod) then failed erange else got (v % long_long_mod))
      ≡ fit_signed 64 false v
plus_fits v h = let e : v % long_long_mod ≡ v = omega arith in rw e (ground arith)

minus_fits :
    (v : ℕ)
    → v < long_long_mod
    → (if not (is_negative (neg64 (v % long_long_mod)))
        then failed erange
        else got (neg64 (v % long_long_mod)))
      ≡ fit_signed 64 true v
minus_fits zero h = refl
minus_fits (suc v) h =
    let e : suc v % long_long_mod ≡ suc v = omega arith in
    let m : neg64 (suc v) ≡ long_long_mod - suc v = omega arith in rw (e, m) (ground arith)

-- `kstrtoll` on a numeral whose value fits an `unsigned long long`
kstrtoll-numeral :
    (minus : Bool) (d : ℕ) (ds : List ℕ) (nl : Bool) (base : ℕ)
    → All (λ x. x < base) (d ∷ ds)
    → base ≤ 16
    → length (d ∷ ds) < overflow_bit
    → numeral base (d ∷ ds) < long_long_mod
    → kstrtoll (signed_text minus (d ∷ ds) nl) base ≡ fit_signed 64 minus (numeral base (d ∷ ds))
unfolding kstrtoll
kstrtoll-numeral true d ds nl base a b l v =
    rw (kstrtoull_unsigned-text d ds nl base a b l) (minus_fits (numeral base (d ∷ ds)) v)
kstrtoll-numeral false d ds nl base a b l v =
    let e = kstrtoull-numeral false d ds nl base a b l in
    let p = digit_char_plain d (omega (arith, a.0)) in
    rw (p.2, e) (plus_fits (numeral base (d ∷ ds)) v)

narrow-fit_32 :
    (minus : Bool) (v : ℕ) → narrow (sign_extend 32) (fit_signed 64 minus v) ≡ fit_signed 32 minus v
unfolding narrow
narrow-fit_32 true v = ground arith
narrow-fit_32 false v = ground arith

narrow-fit_16 :
    (minus : Bool) (v : ℕ) → narrow (sign_extend 16) (fit_signed 64 minus v) ≡ fit_signed 16 minus v
unfolding narrow
narrow-fit_16 true v = ground arith
narrow-fit_16 false v = ground arith

narrow-fit_8 :
    (minus : Bool) (v : ℕ) → narrow (sign_extend 8) (fit_signed 64 minus v) ≡ fit_signed 8 minus v
unfolding narrow
narrow-fit_8 true v = ground arith
narrow-fit_8 false v = ground arith

-- A numeral of less than 2 ^ 31 digits with a value below 2 ^ 64, in a base from 1 to 16, is read
-- with its sign into a signed type of 32, 16 or 8 bits if the type has its value, and refused
-- with ERANGE otherwise. `-0` is refused too.
pub kstrtoint-numeral :
    (minus : Bool) (d : ℕ) (ds : List ℕ) (nl : Bool) (base : ℕ)
    → All (λ x. x < base) (d ∷ ds)
    → base ≤ 16
    → length (d ∷ ds) < overflow_bit
    → numeral base (d ∷ ds) < long_long_mod
    → let s = signed_text minus (d ∷ ds) nl in
      let v = numeral base (d ∷ ds) in
      (kstrtoint s base ≡ fit_signed 32 minus v)
      × (kstrtol s base ≡ fit_signed 32 minus v)
      × (kstrtos16 s base ≡ fit_signed 16 minus v)
      × (kstrtos8 s base ≡ fit_signed 8 minus v)
unfolding kstrtoint kstrtol kstrtos16 kstrtos8
kstrtoint-numeral minus d ds nl base a b l v =
    let e = kstrtoll-numeral minus d ds nl base a b l v in
    let n : ℕ = numeral base (d ∷ ds) in
    (
      ap (narrow (sign_extend 32)) e ∙ narrow-fit_32 minus n,
      ap (narrow (sign_extend 32)) e ∙ narrow-fit_32 minus n,
      ap (narrow (sign_extend 16)) e ∙ narrow-fit_16 minus n,
      ap (narrow (sign_extend 8)) e ∙ narrow-fit_8 minus n,
    )

narrow-zero_32 : (v : ℕ) → narrow (zero_extend 32) (got v) ≡ fit_unsigned 32 v
unfolding narrow
narrow-zero_32 v = ground arith

narrow-zero_16 : (v : ℕ) → narrow (zero_extend 16) (got v) ≡ fit_unsigned 16 v
unfolding narrow
narrow-zero_16 v = ground arith

narrow-zero_8 : (v : ℕ) → narrow (zero_extend 8) (got v) ≡ fit_unsigned 8 v
unfolding narrow
narrow-zero_8 v = ground arith

-- A numeral of less than 2 ^ 31 digits with a value below 2 ^ 64, in a base from 1 to 16, is read
-- into an unsigned type of 32, 16 or 8 bits if the type has its value, and refused with ERANGE
-- otherwise.
pub kstrtouint-numeral :
    (d : ℕ) (ds : List ℕ) (nl : Bool) (base : ℕ)
    → All (λ x. x < base) (d ∷ ds)
    → base ≤ 16
    → length (d ∷ ds) < overflow_bit
    → numeral base (d ∷ ds) < long_long_mod
    → let s = text (d ∷ ds) nl in
      let v = numeral base (d ∷ ds) in
      (kstrtouint s base ≡ fit_unsigned 32 v)
      × (kstrtoul s base ≡ fit_unsigned 32 v)
      × (kstrtou16 s base ≡ fit_unsigned 16 v)
      × (kstrtou8 s base ≡ fit_unsigned 8 v)
unfolding kstrtouint kstrtoul kstrtou16 kstrtou8
kstrtouint-numeral d ds nl base a b l v =
    let n : ℕ = numeral base (d ∷ ds) in
    let m : n % long_long_mod ≡ n = omega (arith, v) in
    let e = kstrtoull-numeral false d ds nl base a b l ∙ ap got m in
    (
      ap (narrow (zero_extend 32)) e ∙ narrow-zero_32 n,
      ap (narrow (zero_extend 32)) e ∙ narrow-zero_32 n,
      ap (narrow (zero_extend 16)) e ∙ narrow-zero_16 n,
      ap (narrow (zero_extend 8)) e ∙ narrow-zero_8 n,
    )
