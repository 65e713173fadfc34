-- ===== src/Slab/Bitmap/Found.antt =====
-- What setting and clearing a bit do to the others, and what the search of a bitmap finds.
use native.Mathlib.Decide.{ℕ_discrete, dec_le}
use native.Mathlib.Nat.{pow-suc, one-le-pow}
use telos.Prelude.{
  ℕ, zero, suc, ◌+◌, ◌-◌, ◌*◌, ◌/◌, ◌%◌, ◌^◌, ◌<◌, ◌≤◌, ◌==◌, true, false, not, ◌||◌, ◌&&◌, List,
  [], ◌∷◌, bit_and, bit_or, get_or, set, length, ◌≡◌, ◌≢◌, refl, ap, sym, ◌∙◌, arith, Bool-cases,
  inl, inr, get_or-set_self, get_or-set_ne, ==_iff, ==-ne,
}
use telos.Word.{word_mod, not32}
use telos.Word.Bits.{
  bit, bit-bit_or, bit-shift, bit-clear, bit_or-lt, bit_and-le, shift-lt, bit-not32, bit_of_zero,
}
use telos.Slab.Bitmap.{bitmap_set, bitmap_clear, zero_below, ffz, ffz_words, bitmap_ffz, bitmap_bit}

-- Each word has 32 bits.
unfoldable pub IsWords : List ℕ → Type 0
IsWords bitmap = (j : ℕ) → get_or bitmap j 0 < word_mod

set_word-lt :
    (bitmap : List ℕ) (i w j : ℕ)
    → get_or bitmap j 0 < word_mod
    → w < word_mod
    → get_or (set bitmap i w) j 0 < word_mod
set_word-lt [] i w j h l = h
set_word-lt (x ∷ xs) zero w zero h l = l
set_word-lt (x ∷ xs) zero w (suc j) h l = h
set_word-lt (x ∷ xs) (suc i) w zero h l = h
set_word-lt (x ∷ xs) (suc i) w (suc j) h l = set_word-lt xs i w j h l

pub bitmap_set-IsWords : (bitmap : List ℕ) (k : ℕ) → IsWords bitmap → IsWords (bitmap_set bitmap k)
unfolding bitmap_set IsWords
bitmap_set-IsWords bitmap k h j = set_word-lt bitmap (k / 32) _ j (h j) (
    bit_or-lt 32 (get_or bitmap (k / 32) 0) (2 ^ (k % 32)) (h (k / 32))
      (shift-lt (k % 32) (omega arith)))

pub bitmap_clear-IsWords :
    (bitmap : List ℕ) (k : ℕ) → IsWords bitmap → IsWords (bitmap_clear bitmap k)
unfolding bitmap_clear IsWords
bitmap_clear-IsWords bitmap k h j =
    let w : ℕ = get_or bitmap (k / 32) 0 in
    set_word-lt bitmap (k / 32) _ j (h j)
      (omega (arith, h (k / 32), bit_and-le w w (not32 (2 ^ (k % 32))) (omega arith)))

same_bit : (i k : ℕ) → i / 32 ≡ k / 32 → (i % 32 == k % 32) ≡ (i == k)
same_bit i k e = ground arith

pub bitmap_bit-set :
    (bitmap : List ℕ) (k i : ℕ)
    → k / 32 < length bitmap
    → bitmap_bit (bitmap_set bitmap k) i ≡ ((i == k) || bitmap_bit bitmap i)
unfolding bitmap_bit bitmap_set
bitmap_bit-set bitmap k i h = elim (ℕ_discrete (i / 32) (k / 32)) [
  | yes same ↦
      let w : ℕ = get_or bitmap (k / 32) 0 in
      rw
        (
          same,
          get_or-set_self bitmap (k / 32) (bit_or w (2 ^ (k % 32))) 0 h,
          bit-bit_or (i % 32) w (2 ^ (k % 32)),
          bit-shift (i % 32) (k % 32),
          same_bit i k same,
        )
        (ground arith)
  | no other ↦
      let ne : (i == k) ≡ false = ==-ne i k (λ e. other (ap (λ n. n / 32) e)) in
      rw
        (
          ne,
          get_or-set_ne bitmap (k / 32) (i / 32) (bit_or (get_or bitmap (k / 32) 0) (2 ^ (k % 32)))
              0 (λ e. other (sym e)),
        )
        refl
]

pub bitmap_bit-clear :
    (bitmap : List ℕ) (k i : ℕ)
    → k / 32 < length bitmap
    → bitmap_bit (bitmap_clear bitmap k) i ≡ (bitmap_bit bitmap i && not (i == k))
unfolding bitmap_bit bitmap_clear
bitmap_bit-clear bitmap k i h = elim (ℕ_discrete (i / 32) (k / 32)) [
  | yes same ↦
      let w : ℕ = get_or bitmap (k / 32) 0 in
      rw
        (
          same,
          get_or-set_self bitmap (k / 32) (bit_and w (not32 (2 ^ (k % 32)))) 0 h,
          bit-clear (i % 32) (k % 32) w (omega arith) (omega arith),
          same_bit i k same,
        )
        refl
  | no other ↦
      let ne : (i == k) ≡ false = ==-ne i k (λ e. other (ap (λ n. n / 32) e)) in
      rw
        (
          ne,
          get_or-set_ne bitmap (k / 32) (i / 32)
              (bit_and (get_or bitmap (k / 32) 0) (not32 (2 ^ (k % 32)))) 0 (λ e. other (sym e)),
        )
        (ground arith)
]

zero_below_clear : (n a : ℕ) → zero_below n a < n → bit (zero_below n a) a ≡ false
unfolding zero_below bit
zero_below_clear zero a h = absurd (omega arith)
zero_below_clear (suc n) a h = elim (Bool-cases (a % 2 == 0)) [
  | inl e ↦ ground arith
  | inr e ↦ ground (arith, zero_below_clear n (a / 2))
]

zero_below_set : (n a k : ℕ) → k < zero_below n a → bit k a ≡ true
unfolding zero_below bit
zero_below_set zero a k h = absurd (omega arith)
zero_below_set (suc n) a zero h = ground arith
zero_below_set (suc n) a (suc k) h = ground (arith, zero_below_set n (a / 2) k)

zero_below-lt : (n a : ℕ) → a < 2 ^ n → a ≢ 2 ^ n - 1 → zero_below n a < n
unfolding zero_below
zero_below-lt zero a h ne = absurd (ne (omega arith))
zero_below-lt (suc n) a h ne =
    ground (arith, pow-suc 2 n, one-le-pow n 2 (omega arith), zero_below-lt n (a / 2))

ones_set : (k : ℕ) → k < 32 → bit k (word_mod - 1) ≡ true
ones_set k h = bit-not32 k 0 h (omega arith) ∙ ap not (bit_of_zero 0 k refl)

-- What `ffz` finds in a word that is not full: a clear bit, behind set bits.
ffz_lem :
    (a : ℕ)
    → a < word_mod
    → a ≢ word_mod - 1
    → (ffz a < 32) × (bit (ffz a) a ≡ false) × ((k : ℕ) → k < ffz a → bit k a ≡ true)
unfolding ffz
ffz_lem a h ne =
    let l : zero_below 32 a < 32 = zero_below-lt 32 a h ne in
    (l, zero_below_clear 32 a l, zero_below_set 32 a)

bitmap_bit_at :
    (bitmap : List ℕ) (i b z : ℕ)
    → z ≡ b + i * 32
    → b < 32
    → bitmap_bit bitmap z ≡ bit b (get_or bitmap i 0)
unfolding bitmap_bit
bitmap_bit_at bitmap i b z e h =
    let low : z % 32 ≡ b = omega arith in let high : z / 32 ≡ i = omega arith in rw (low, high) refl

full_word_set :
    (bitmap : List ℕ) (i k : ℕ)
    → get_or bitmap i 0 ≡ word_mod - 1
    → k / 32 ≡ i
    → bitmap_bit bitmap k ≡ true
full_word_set bitmap i k full e =
    bitmap_bit_at bitmap i (k % 32) k (omega arith) (omega arith)
    ∙ ap (bit (k % 32)) full
    ∙ ones_set (k % 32) (omega arith)

-- The word at `i` is not full, and `z` is what its search gives: a clear bit, and none from that
-- word on comes before.
clear_word_first :
    (bitmap : List ℕ) (i z k : ℕ)
    → get_or bitmap i 0 < word_mod
    → get_or bitmap i 0 ≢ word_mod - 1
    → z ≡ ffz (get_or bitmap i 0) + i * 32
    → i * 32 ≤ k
    → bitmap_bit bitmap k ≡ false
    → (bitmap_bit bitmap z ≡ false) × (z ≤ k)
clear_word_first bitmap i z k h ne e low clear =
    let (l, here, before) = ffz_lem (get_or bitmap i 0) h ne in
    (
      bitmap_bit_at bitmap i (ffz (get_or bitmap i 0)) z e l ∙ here,
      elim (dec_le z k) [
        | yes le ↦ le
        | no gt ↦
            let set_at : bitmap_bit bitmap k ≡ true =
              bitmap_bit_at bitmap i (k - i * 32) k (omega arith) (omega arith)
              ∙ before (k - i * 32) (omega arith) in
            absurd (ground arith)
      ],
    )

-- Where a bit of the words from `i` on is clear, the search finds the first.
ffz_words_lem :
    (n i : ℕ) (bitmap : List ℕ) (k : ℕ)
    → IsWords bitmap
    → (i + n) * 32 < word_mod
    → i * 32 ≤ k
    → k < (i + n) * 32
    → bitmap_bit bitmap k ≡ false
    → (bitmap_bit bitmap (ffz_words n i bitmap) ≡ false) × (ffz_words n i bitmap ≤ k)
unfolding ffz_words IsWords
ffz_words_lem zero i bitmap k h room low high e = absurd (omega arith)
ffz_words_lem (suc n) i bitmap k h room low high e =
    elim (Bool-cases (get_or bitmap i 0 == word_mod - 1)) [
      | inl full ↦
          let w : get_or bitmap i 0 ≡ word_mod - 1 =
            (==_iff (get_or bitmap i 0) (word_mod - 1)).0 full in
          let next : (i + 1) * 32 ≤ k = elim (ℕ_discrete (k / 32) i) [
            | yes here ↦ absurd (ground (arith, full_word_set bitmap i k w here))
            | no later ↦ omega arith
          ] in
          rw (full, ffz_words)
            (ffz_words_lem n (i + 1) bitmap k h (omega arith) next (omega arith) e)
      | inr other ↦
          let ne : get_or bitmap i 0 ≢ word_mod - 1 = λ w. ground arith in
          rw (other, ffz_words)
            (clear_word_first bitmap i ((ffz (get_or bitmap i 0) + i * 32) % word_mod) k (h i) ne
              (omega (arith, (ffz_lem (get_or bitmap i 0) (h i) ne).0)) low e)
    ]

pub bitmap_ffz_first :
    (bitmap : List ℕ) (len k : ℕ)
    → IsWords bitmap
    → len * 32 < word_mod
    → k < len * 32
    → bitmap_bit bitmap k ≡ false
    → (bitmap_bit bitmap (bitmap_ffz bitmap len) ≡ false) × (bitmap_ffz bitmap len ≤ k)
unfolding bitmap_ffz
bitmap_ffz_first bitmap len k h room l e =
    ffz_words_lem len 0 bitmap k h (omega arith) (omega arith) (omega arith) e
