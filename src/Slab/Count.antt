-- ===== src/Slab/Count.antt =====
-- How many of the first `n` places a test holds at.
use native.Mathlib.Decide.{ℕ_discrete}
use telos.Prelude.{
  ℕ, zero, suc, ◌<◌, ◌≤◌, Bool, true, false, if◌then◌else◌, ◌≡◌, ◌≢◌, refl, ap, sym, ◌∙◌, arith,
  Bool-cases, inl, inr,
}

unfoldable pub count : (ℕ → Bool) → ℕ → ℕ
count f zero = 0
count f (suc n) = let rest = count f n in if f n then suc rest else rest

pub count-le : (f : ℕ → Bool) (n : ℕ) → count f n ≤ n
unfolding count
count-le f zero = omega arith
count-le f (suc n) = ground (arith, count-le f n)

-- Where the count is less than the places, one is free.
pub count-lt : (f : ℕ → Bool) (n : ℕ) → count f n < n → (k : ℕ) × (k < n) × (f k ≡ false)
unfolding count
count-lt f zero h = absurd (omega arith)
count-lt f (suc n) h = elim (Bool-cases (f n)) [
  | inl t ↦ let (k, l, e) = count-lt f n (ground arith) in (k, omega arith, e)
  | inr t ↦ (n, omega arith, t)
]

pub count-ext : (f g : ℕ → Bool) (n : ℕ) → ((i : ℕ) → i < n → g i ≡ f i) → count g n ≡ count f n
unfolding count
count-ext f g zero e = refl
count-ext f g (suc n) e =
    let rest : count g n ≡ count f n = count-ext f g n (λ i l. e i (omega arith)) in
    rw (rest, e n (omega arith)) refl

-- Two tests differ at one place.
pub count_more :
    (f g : ℕ → Bool) (n k : ℕ)
    → k < n
    → f k ≡ false
    → g k ≡ true
    → ((i : ℕ) → i ≢ k → g i ≡ f i)
    → count g n ≡ suc (count f n)
unfolding count
count_more f g zero k h free taken e = absurd (omega arith)
count_more f g (suc n) k h free taken e = elim (ℕ_discrete k n) [
  | yes last ↦
      let rest : count g n ≡ count f n = count-ext f g n (λ i l. e i (λ s. absurd (omega arith))) in
      let free' : f n ≡ false = ap f (sym last) ∙ free in
      let taken' : g n ≡ true = ap g (sym last) ∙ taken in rw (free', taken', rest) refl
  | no other ↦
      let rest : count g n ≡ suc (count f n) = count_more f g n k (omega arith) free taken e in
      rw (rest, e n (λ s. other (sym s))) (ground arith)
]
