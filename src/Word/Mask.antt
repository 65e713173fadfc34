-- ===== src/Word/Mask.antt =====
-- Masks of ones: what `& (2 ^ k - 1)` and `& ~(2 ^ k - 1)` mean for the numbers.
use Prim.Native.Nat.{digits, bitwise, bit_and-bitwise}
use native.Mathlib.Decide.{ℕ_discrete}
use telos.Prelude.{
  ℕ, zero, suc, ◌+◌, ◌-◌, ◌*◌, ◌/◌, ◌%◌, ◌^◌, ◌≤◌, ◌<◌, min, bit_and, ◌≡◌, ◌≢◌, ◌∙◌, refl, ap, sym,
  arith,
}
use mathlib.Core.Path.{◌≡⟨◌⟩◌, ◌∎}
use native.Mathlib.Nat.{
  pow-suc, one-le-pow, mod-lt, mod-eq_of_lt, div-add-mod, mul-add-mod_self_left,
}

-- The native operations recur on a count of digits; a count that is large enough may grow.
module _ (run_out : ℕ → ℕ) (digit : ℕ → ℕ → ℕ) where
  spare_digit :
      (count a b : ℕ)
      → a ≤ count
      → digits run_out digit (suc count) a b ≡ digits run_out digit count a b
  spare_digit zero zero b h = refl
  spare_digit zero (suc a) b h = absurd (omega arith)
  spare_digit (suc count) zero b h = refl
  spare_digit (suc count) (suc a) b h =
      ap (λ high. high * 2 + digit (suc a % 2) (b % 2))
        (spare_digit count (suc a / 2) (b / 2) (omega arith))

  spare_digits :
      (extra count a b : ℕ)
      → a ≤ count
      → count ≤ extra
      → digits run_out digit extra a b ≡ digits run_out digit count a b
  spare_digits extra count a b h k = elim (ℕ_discrete extra count) [
    | yes same ↦ rw same
    | no more ↦ shrink extra k more
  ]
    where
      shrink :
          (m : ℕ)
          → count ≤ m
          → m ≢ count
          → digits run_out digit m a b ≡ digits run_out digit count a b
      shrink zero le ne = absurd (omega arith)
      shrink (suc m) le ne = elim (ℕ_discrete m count) [
        | yes same ↦ rw same (spare_digit count a b h)
        | no more ↦ spare_digit m a b (omega arith) ∙ shrink m (omega arith) more
      ]

  -- The lowest digit, and the same operation on the rest.
  pub bitwise_step :
      (a b : ℕ)
      → bitwise run_out digit (suc a) b
        ≡ bitwise run_out digit (suc a / 2) (b / 2) * 2 + digit (suc a % 2) (b % 2)
  bitwise_step a b =
      ap (λ high. high * 2 + digit (suc a % 2) (b % 2))
        (spare_digits a (suc a / 2) (suc a / 2) (b / 2) (omega arith) (omega arith))

pub nothing_and : (b : ℕ) → bit_and 0 b ≡ 0
nothing_and b = bit_and-bitwise 0 b

-- The lowest bit of `&`, and the others.
pub bit_and-halves : (m n : ℕ) → bit_and m n ≡ min (m % 2) (n % 2) + 2 * bit_and (m / 2) (n / 2)
bit_and-halves zero n = omega (arith, nothing_and n, nothing_and (n / 2))
bit_and-halves (suc m) n =
    let low : ℕ = min (suc m % 2) (n % 2) in
    let here : bit_and (suc m) n ≡ bitwise (λ _. zero) min (suc m / 2) (n / 2) * 2 + low =
      bit_and-bitwise (suc m) n ∙ bitwise_step (λ _. zero) min m n in
    omega (arith, here, bit_and-bitwise (suc m / 2) (n / 2))

digits_and_nothing : (count a : ℕ) → digits (λ _. zero) min count a 0 ≡ 0
digits_and_nothing zero a = refl
digits_and_nothing (suc count) zero = refl
digits_and_nothing (suc count) (suc a) = omega (arith, digits_and_nothing count (suc a / 2))

pub bit_and_nothing : (m : ℕ) → bit_and m 0 ≡ 0
bit_and_nothing m = bit_and-bitwise m 0 ∙ digits_and_nothing m m

-- A one, and a zero, at the end of the mask.
bit_and_odd : (a b : ℕ) → bit_and a (b * 2 + 1) ≡ bit_and (a / 2) b * 2 + a % 2
bit_and_odd a b =
    let e : (b * 2 + 1) / 2 ≡ b = omega arith in
    omega (arith, bit_and-halves a (b * 2 + 1), ap (λ k. bit_and (a / 2) k) e)

bit_and_even : (a b : ℕ) → bit_and a (b * 2) ≡ bit_and (a / 2) b * 2
bit_and_even a b =
    let e : b * 2 / 2 ≡ b = omega arith in
    omega (arith, bit_and-halves a (b * 2), ap (λ k. bit_and (a / 2) k) e)

mod_double : (a p : ℕ) → 0 < p → a % (p * 2) ≡ a / 2 % p * 2 + a % 2
mod_double a p h =
    a % (p * 2)
    ≡⟨ ap (λ n. n % (p * 2)) split ⟩ (p * 2 * (a / 2 / p) + (a / 2 % p * 2 + a % 2)) % (p * 2)
    ≡⟨ mul-add-mod_self_left (p * 2) (a / 2 / p) (a / 2 % p * 2 + a % 2) ⟩
      (a / 2 % p * 2 + a % 2) % (p * 2)
    ≡⟨ mod-eq_of_lt (omega (arith, mod-lt (a / 2) h)) ⟩ a / 2 % p * 2 + a % 2 ∎
  where
    split : a ≡ p * 2 * (a / 2 / p) + (a / 2 % p * 2 + a % 2)
    split = omega (arith, div-add-mod (a / 2) p)

-- `x & (2 ^ k - 1)`
pub bit_and_ones : (k a : ℕ) → bit_and a (2 ^ k - 1) ≡ a % 2 ^ k
bit_and_ones zero a = omega (arith, bit_and_nothing a)
bit_and_ones (suc k) a =
    let pos : 0 < 2 ^ k = one-le-pow k 2 (omega arith) in
    let e : 2 ^ suc k - 1 ≡ (2 ^ k - 1) * 2 + 1 = omega (arith, pow-suc 2 k) in
    bit_and a (2 ^ suc k - 1)
    ≡⟨ ap (bit_and a) e ⟩ bit_and a ((2 ^ k - 1) * 2 + 1)
    ≡⟨ bit_and_odd a (2 ^ k - 1) ⟩ bit_and (a / 2) (2 ^ k - 1) * 2 + a % 2
    ≡⟨ ap (λ n. n * 2 + a % 2) (bit_and_ones k (a / 2)) ⟩ a / 2 % 2 ^ k * 2 + a % 2
    ≡⟨ sym (mod_double a (2 ^ k) pos) ⟩ a % (2 ^ k * 2)
    ≡⟨ ap (λ n. a % n) (sym (pow-suc 2 k)) ⟩ a % 2 ^ suc k ∎

pub bit_and_page : (a : ℕ) → bit_and a 0xFFF ≡ a % 4096
bit_and_page a = bit_and_ones 12 a

-- `x & ~0xFFF`
pub bit_and-not_page : (a : ℕ) → a < 2 ^ 32 → bit_and a 0xFFFF_F000 ≡ a - a % 4096
bit_and-not_page a h = omega (
  arith,
  bit_and_even a 0x7FFF_F800,
  bit_and_even (a / 2) 0x3FFF_FC00,
  bit_and_even (a / 2 / 2) 0x1FFF_FE00,
  bit_and_even (a / 2 / 2 / 2) 0x0FFF_FF00,
  bit_and_even (a / 2 / 2 / 2 / 2) 0x07FF_FF80,
  bit_and_even (a / 2 / 2 / 2 / 2 / 2) 0x03FF_FFC0,
  bit_and_even (a / 2 / 2 / 2 / 2 / 2 / 2) 0x01FF_FFE0,
  bit_and_even (a / 2 / 2 / 2 / 2 / 2 / 2 / 2) 0x00FF_FFF0,
  bit_and_even (a / 2 / 2 / 2 / 2 / 2 / 2 / 2 / 2) 0x007F_FFF8,
  bit_and_even (a / 2 / 2 / 2 / 2 / 2 / 2 / 2 / 2 / 2) 0x003F_FFFC,
  bit_and_even (a / 2 / 2 / 2 / 2 / 2 / 2 / 2 / 2 / 2 / 2) 0x001F_FFFE,
  bit_and_even (a / 2 / 2 / 2 / 2 / 2 / 2 / 2 / 2 / 2 / 2 / 2) 0x000F_FFFF,
  bit_and_ones 20 (a / 2 / 2 / 2 / 2 / 2 / 2 / 2 / 2 / 2 / 2 / 2 / 2),
)

-- `x & ~0xF`
pub bit_and-not_para : (a : ℕ) → a < 2 ^ 32 → bit_and a 0xFFFF_FFF0 ≡ a - a % 16
bit_and-not_para a h = omega (
  arith,
  bit_and_even a 0x7FFF_FFF8,
  bit_and_even (a / 2) 0x3FFF_FFFC,
  bit_and_even (a / 2 / 2) 0x1FFF_FFFE,
  bit_and_even (a / 2 / 2 / 2) 0x0FFF_FFFF,
  bit_and_ones 28 (a / 2 / 2 / 2 / 2),
)

-- `x & ~0x3`
pub bit_and-not_three : (a : ℕ) → a < 2 ^ 32 → bit_and a 0xFFFF_FFFC ≡ a - a % 4
bit_and-not_three a h = omega (
  arith,
  bit_and_even a 0x7FFF_FFFE,
  bit_and_even (a / 2) 0x3FFF_FFFF,
  bit_and_ones 30 (a / 2 / 2),
)
