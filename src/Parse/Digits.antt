-- ===== src/Parse/Digits.antt =====
-- The digits: what single bytes are read as, and what `_parse_integer` makes of a row of them.
use native.Mathlib.Decide.{ℕ_discrete}
use native.Mathlib.Nat.{
  pow-suc, pow-zero, mod-lt, mod-eq_of_lt, mul-add-mod_self_left, div-add-mod, add-mul, mul_assoc,
  mul_comm,
}
use telos.Prelude.{
  ℕ, zero, suc, ◌+◌, ◌*◌, ◌/◌, ◌%◌, ◌^◌, ◌≤◌, ◌<◌, ◌≡◌, refl, ap, ap₂, sym, ◌∙◌, ◌==◌, ltb,
  if◌then◌else◌, Option, none, some, Bool, true, false, not, ◌&&◌, List, [], ◌∷◌, ◌++◌, map, arith,
  All, length, get_or,
}
use telos.Word.{add32}
use telos.Parse.{lower, digit_value, parse_integer, long_long_mod}

-- The byte that stands for a digit, in lower case.
abbrev pub digit_char : ℕ → ℕ
digit_char d = if ltb d 10 then 48 + d else 87 + d

-- The number that a row of digits is in positional notation.
abbrev pub numeral : ℕ → List ℕ → ℕ
numeral base [] = 0
numeral base (d ∷ ds) = d * base ^ length ds + numeral base ds

abbrev every : (ℕ → Bool) → ℕ → Bool
every p zero = true
every p (suc n) = p n && every p n

every_below : (p : ℕ → Bool) (n k : ℕ) → every p n ≡ true → k < n → p k ≡ true
every_below p zero k e h = absurd (omega arith)
every_below p (suc n) k e h = elim (ℕ_discrete k n) [
  | yes same ↦ rw same (ground arith)
  | no less ↦ every_below p n k (ground arith) (omega arith)
]

abbrev is_some : Option ℕ → ℕ → Bool
is_some none d = false
is_some (some x) d = x == d

is_some_lem : (o : Option ℕ) (d : ℕ) → is_some o d ≡ true → o ≡ some d
is_some_lem none d e = ground arith
is_some_lem (some x) d e = ap some (ground arith)

pub digit_value-digit_char : (d : ℕ) → d < 16 → digit_value (digit_char d) ≡ some d
unfolding digit_value
digit_value-digit_char d h =
    is_some_lem (digit_value (digit_char d)) d
      (every_below (λ k. is_some (digit_value (digit_char k)) k) 16 d refl h)

-- No digit is the `x` of a prefix, a sign, or the end of the string.
abbrev plain : ℕ → Bool
plain c = not (lower c == 120) && not (c == 43) && not (c == 45) && not (c == 0)

pub digit_char_plain :
    (d : ℕ)
    → d < 16
    → ((lower (digit_char d) == 120) ≡ false)
      × ((digit_char d == 43) ≡ false)
      × ((digit_char d == 45) ≡ false)
      × ((digit_char d == 0) ≡ false)
unfolding lower
digit_char_plain d h = let e = every_below (λ k. plain (digit_char k)) 16 d refl h in ground arith

-- `s` begins with no digit.
abbrev pub Stops : List ℕ → Type 0
Stops s = digit_value (get_or s 0 0) ≡ none

parse-Stops : (s : List ℕ) (base res rv : ℕ) → Stops s → parse_integer s base res rv ≡ (rv, res)
unfolding parse_integer
parse-Stops [] base res rv h = refl
parse-Stops (c ∷ s) base res rv h = let e : digit_value c ≡ none = h in rw (e, parse_integer)

parse_step :
    (c d : ℕ) (s : List ℕ) (base res rv : ℕ)
    → digit_value c ≡ some d
    → d < base
    → parse_integer (c ∷ s) base res rv
      ≡ parse_integer s base ((res * base + d) % long_long_mod) (add32 rv 1)
unfolding parse_integer
parse_step c d s base res rv e h = rw (e, parse_integer) (ground arith)

mod-mul-add : (x k c m : ℕ) → (x % m * k + c) % m ≡ (x * k + c) % m
mod-mul-add x k c m =
    sym (mul-add-mod_self_left m (x / m * k) (x % m * k + c)) ∙ ap (λ y. y % m) split
  where
    split : m * (x / m * k) + (x % m * k + c) ≡ x * k + c
    split =
        let e = div-add-mod x m in
        omega (arith, add-mul (m * (x / m)) (x % m) k, mul_assoc m (x / m) k, ap (λ y. y * k) e)

horner :
    (res base d n c : ℕ) → (res * base + d) * base ^ n + c ≡ res * base ^ suc n + (d * base ^ n + c)
horner res base d n c = omega (
  arith,
  add-mul (res * base) d (base ^ n),
  mul_assoc res base (base ^ n),
  ap (λ y. res * y) (pow-suc base n),
  ap (λ y. res * y) (mul_comm base (base ^ n)),
)

-- A row of digits after the value `res` of those before it.
pub parse_integer_digits :
    (ds s : List ℕ) (base res rv : ℕ)
    → All (λ d. d < base) ds
    → base ≤ 16
    → rv + length ds < 2 ^ 32
    → Stops s
    → res < long_long_mod
    → parse_integer (map digit_char ds ++ s) base res rv
      ≡ (rv + length ds, (res * base ^ length ds + numeral base ds) % long_long_mod)
parse_integer_digits [] s base res rv a b l h r =
    let z : base ^ 0 ≡ 1 = pow-zero base in
    let one : res ≡ (res * base ^ 0 + 0) % long_long_mod = rw z (omega (arith, mod-eq_of_lt r)) in
    parse-Stops s base res rv h ∙ ap₂ (λ (x y : ℕ). (x, y)) (omega arith) one
parse_integer_digits (d ∷ ds) s base res rv a b l h r =
    let c = digit_value-digit_char d (omega (arith, a.0)) in
    let more : add32 rv 1 ≡ rv + 1 = omega arith in
    let n : ℕ = length ds in
    let res' : ℕ = (res * base + d) % long_long_mod in
    let ih =
      parse_integer_digits ds s base res' (rv + 1) a.1 b (omega arith) h
        (mod-lt (res * base + d) (omega arith)) in
    let count : rv + 1 + n ≡ rv + suc n = omega arith in
    let total : (res' * base ^ n + numeral base ds) % long_long_mod
        ≡ (res * base ^ suc n + (d * base ^ n + numeral base ds)) % long_long_mod =
      mod-mul-add (res * base + d) (base ^ n) (numeral base ds) long_long_mod
      ∙ ap (λ y. y % long_long_mod) (horner res base d n (numeral base ds)) in
    parse_step (digit_char d) d (map digit_char ds ++ s) base res rv c a.0
    ∙ ap (parse_integer (map digit_char ds ++ s) base res') more
    ∙ ih
    ∙ ap₂ (λ (x y : ℕ). (x, y)) count total
