-- ===== src/Word/Bits.antt =====
-- The bits of a word, one by one: what `&`, `|`, `~` and `1UL << k` do to each.
use Prim.Native.Nat.{bitwise, bit_or-bitwise}
use native.Mathlib.Nat.{pow-suc, one-le-pow, pow-le-pow_right}
use native.Mathlib.Decide.{ℕ_discrete, dec_le}
use telos.Prelude.{
  ℕ, zero, suc, ◌+◌, ◌-◌, ◌*◌, ◌/◌, ◌%◌, ◌^◌, ◌≤◌, ◌<◌, max, bit_and, bit_or, ◌≡◌, ◌∙◌, refl, ap,
  sym, arith, Bool, true, false, ◌&&◌, ◌||◌, not, ◌==◌, Bool-cases, inl, inr,
}
use telos.Word.{word_mod, not32}
use telos.Word.Mask.{nothing_and, bit_and_nothing, bit_and-halves, bitwise_step}

-- Bit `k`, from the lowest one, is set.
unfoldable pub bit : ℕ → ℕ → Bool
bit zero a = a % 2 == 1
bit (suc k) a = bit k (a / 2)

pub nothing_or : (b : ℕ) → bit_or 0 b ≡ b
nothing_or b = bit_or-bitwise 0 b

pub bit_or-halves : (m n : ℕ) → bit_or m n ≡ max (m % 2) (n % 2) + 2 * bit_or (m / 2) (n / 2)
bit_or-halves zero n = omega (arith, nothing_or n, nothing_or (n / 2))
bit_or-halves (suc m) n =
    let low : ℕ = max (suc m % 2) (n % 2) in
    let here : bit_or (suc m) n ≡ bitwise (λ c. c) max (suc m / 2) (n / 2) * 2 + low =
      bit_or-bitwise (suc m) n ∙ bitwise_step (λ c. c) max m n in
    omega (arith, here, bit_or-bitwise (suc m / 2) (n / 2))

pub bit-bit_and : (k a b : ℕ) → bit k (bit_and a b) ≡ (bit k a && bit k b)
unfolding bit
bit-bit_and zero a b = ground (arith, bit_and-halves a b)
bit-bit_and (suc k) a b =
    let e : bit_and a b / 2 ≡ bit_and (a / 2) (b / 2) = omega (arith, bit_and-halves a b) in
    rw e (bit-bit_and k (a / 2) (b / 2))

pub bit-bit_or : (k a b : ℕ) → bit k (bit_or a b) ≡ (bit k a || bit k b)
unfolding bit
bit-bit_or zero a b = ground (arith, bit_or-halves a b)
bit-bit_or (suc k) a b =
    let e : bit_or a b / 2 ≡ bit_or (a / 2) (b / 2) = omega (arith, bit_or-halves a b) in
    rw e (bit-bit_or k (a / 2) (b / 2))

bit-zero : (k : ℕ) → bit k 0 ≡ false
unfolding bit
bit-zero zero = refl
bit-zero (suc k) = bit-zero k

bit-complement : (k w a : ℕ) → k < w → a < 2 ^ w → bit k (2 ^ w - 1 - a) ≡ not (bit k a)
unfolding bit
bit-complement k zero a h l = absurd (omega arith)
bit-complement zero (suc w) a h l = ground (arith, pow-suc 2 w, one-le-pow w 2 (omega arith))
bit-complement (suc k) (suc w) a h l =
    let e : (2 ^ suc w - 1 - a) / 2 ≡ 2 ^ w - 1 - a / 2 = omega (arith, pow-suc 2 w) in
    rw e (bit-complement k w (a / 2) (omega arith) (omega (arith, pow-suc 2 w)))

-- `~a`
pub bit-not32 : (k a : ℕ) → k < 32 → a < word_mod → bit k (not32 a) ≡ not (bit k a)
bit-not32 k a h l = bit-complement k 32 a h l

-- `1UL << k`
pub bit-shift : (j k : ℕ) → bit j (2 ^ k) ≡ (j == k)
unfolding bit
bit-shift zero zero = refl
bit-shift (suc j) zero = ground (arith, bit-zero j)
bit-shift zero (suc k) = ground (arith, pow-suc 2 k)
bit-shift (suc j) (suc k) =
    let e : 2 ^ suc k / 2 ≡ 2 ^ k = omega (arith, pow-suc 2 k) in
    rw e (ground (arith, bit-shift j k))

pub bit_and-le : (n a b : ℕ) → a ≤ n → bit_and a b ≤ a
bit_and-le zero zero b h = omega (arith, nothing_and b)
bit_and-le zero (suc a) b h = absurd (omega arith)
bit_and-le (suc n) zero b h = omega (arith, nothing_and b)
bit_and-le (suc n) (suc a) b h =
    omega (arith, bit_and-halves (suc a) b, bit_and-le n (suc a / 2) (b / 2) (omega arith))

pub bit_or-lt : (w a b : ℕ) → a < 2 ^ w → b < 2 ^ w → bit_or a b < 2 ^ w
bit_or-lt zero a b h k =
    let first : a ≡ 0 = omega arith in
    let second : b ≡ 0 = omega arith in rw (first, second) (omega arith)
bit_or-lt (suc w) a b h k =
    omega (arith, bit_or-halves a b, pow-suc 2 w, bit_or-lt w (a / 2) (b / 2))

-- `fls`: one more than the highest bit that is set, 0 for none; `top` bits are looked at.
unfoldable pub fls_below : ℕ → ℕ → ℕ
fls_below zero a = 0
fls_below (suc top) a = elim (bit top a) [ true ↦ suc top | false ↦ fls_below top a ]

unfoldable pub fls : ℕ → ℕ
unfolding fls_below
fls a = fls_below 32 a

-- Past what `fls` returns no bit is set.
pub fls_below_clear : (top a k : ℕ) → fls_below top a ≤ k → k < top → bit k a ≡ false
unfolding fls_below
fls_below_clear zero a k e h = absurd (omega arith)
fls_below_clear (suc top) a k e h = elim (ℕ_discrete k top) [
  | yes same ↦ rw same (ground (arith, same))
  | no other ↦ ground (arith, fls_below_clear top a k)
]

-- It names a bit that is set.
pub fls_below_set : (top a n : ℕ) → fls_below top a ≡ suc n → (n < top) × (bit n a ≡ true)
unfolding fls_below
fls_below_set zero a n e = absurd (omega arith)
fls_below_set (suc top) a n e = elim (Bool-cases (bit top a)) [
  | inl b ↦ let same : n ≡ top = ground arith in (omega arith, rw same b)
  | inr b ↦ ground (arith, fls_below_set top a n)
]

-- A word with some bit set has an `fls` that is not 0.
pub fls_below_pos : (top a k : ℕ) → k < top → bit k a ≡ true → k < fls_below top a
fls_below_pos top a k h b = elim (dec_le (fls_below top a) k) [
  | yes le ↦ absurd (ground (arith, fls_below_clear top a k le h))
  | no gt ↦ omega arith
]

bit_and-shift-zero : (k a : ℕ) → (bit_and a (2 ^ k) == 0) ≡ not (bit k a)
unfolding bit
bit_and-shift-zero zero a = ground (arith, bit_and-halves a 1, bit_and_nothing (a / 2))
bit_and-shift-zero (suc k) a =
    let e : 2 ^ suc k / 2 ≡ 2 ^ k = omega (arith, pow-suc 2 k) in
    let f : 2 ^ suc k % 2 ≡ 0 = omega (arith, pow-suc 2 k) in
    ground
      (arith, bit_and-halves a (2 ^ suc k), ap (bit_and (a / 2)) e, bit_and-shift-zero k (a / 2))

-- `word & 1UL << k` as a condition
pub bit_and-shift : (k a : ℕ) → not (bit_and a (2 ^ k) == 0) ≡ bit k a
bit_and-shift k a = ground (arith, bit_and-shift-zero k a)

-- Words that agree in every bit are the same.
pub bit-ext : (w a b : ℕ) → a < 2 ^ w → b < 2 ^ w → ((k : ℕ) → k < w → bit k a ≡ bit k b) → a ≡ b
unfolding bit
bit-ext zero a b h l e = omega arith
bit-ext (suc w) a b h l e = omega (
  arith,
  bit-ext w (a / 2) (b / 2) (omega (arith, pow-suc 2 w)) (omega (arith, pow-suc 2 w))
      (λ k lt. e (suc k) (omega arith)),
  lowest,
)
  where
    lowest : a % 2 ≡ b % 2
    lowest = ground (arith, e 0 (omega arith))

pub shift-lt : (k : ℕ) → k < 32 → 2 ^ k < word_mod
shift-lt k h = omega (
  arith,
  pow-suc 2 k,
  one-le-pow k 2 (omega arith),
  pow-le-pow_right {n = 2} (omega arith) {i = suc k} {j = 32} h,
)

-- `word & ~(1UL << j)`
pub bit-clear :
    (k j a : ℕ) → k < 32 → j < 32 → bit k (bit_and a (not32 (2 ^ j))) ≡ (bit k a && not (k == j))
bit-clear k j a h l =
    ground
      (arith, bit-bit_and k a (not32 (2 ^ j)), bit-not32 k (2 ^ j) h (shift-lt j l), bit-shift k j)

pub bit_high : (k w a : ℕ) → w ≤ k → a < 2 ^ w → bit k a ≡ false
unfolding bit
bit_high zero w a h l =
    let e : w ≡ 0 = omega arith in let z : a < 2 ^ 0 = rw (ap (λ n. 2 ^ n) e) at l in ground arith
bit_high (suc k) zero a h l = let e : a ≡ 0 = omega arith in rw e (bit-zero k)
bit_high (suc k) (suc w) a h l = bit_high k w (a / 2) (omega arith) (omega (arith, pow-suc 2 w))

-- A word with no bit set is 0, and the other way round.
pub zero_of_bits : (a : ℕ) → a < word_mod → ((k : ℕ) → k < 32 → bit k a ≡ false) → a ≡ 0
zero_of_bits a h e = bit-ext 32 a 0 h (omega arith) (λ k l. e k l ∙ sym (bit-zero k))

pub bit_of_zero : (a k : ℕ) → a ≡ 0 → bit k a ≡ false
bit_of_zero a k e = rw e (bit-zero k)
