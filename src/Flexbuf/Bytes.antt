-- ===== src/Flexbuf/Bytes.antt =====
-- Ranges of bytes, and bytes written one after the other.
use native.Mathlib.Decide.{dec_lt, ℕ_discrete}
use telos.Prelude.{
  ℕ, zero, suc, ◌+◌, ◌-◌, ◌≤◌, ◌<◌, min, ltb, if◌then◌else◌, List, [], ◌∷◌, ◌++◌, take, drop,
  length, get_or, ◌≡◌, refl, ap, ap₂, ◌∙◌, arith, leb, ◌&&◌,
}
use telos.Flexbuf.{bytes, poke, update}

pub bytes-append : (f : ℕ → ℕ) (i a b : ℕ) → bytes f i (a + b) ≡ bytes f i a ++ bytes f (i + a) b
unfolding bytes
bytes-append f i zero b = ap₂ (bytes f) (omega arith) (omega arith)
bytes-append f i (suc a) b =
    let e : suc a + b ≡ suc (a + b) = omega arith in
    let s : i + 1 + a ≡ i + suc a = omega arith in
    rw e (
      ap (λ r. f i ∷ r) (bytes-append f (i + 1) a b ∙ ap (λ j. bytes f (i + 1) a ++ bytes f j b) s))

pub length-bytes : (f : ℕ → ℕ) (i n : ℕ) → length (bytes f i n) ≡ n
unfolding bytes
length-bytes f i zero = refl
length-bytes f i (suc n) = ap suc (length-bytes f (i + 1) n)

pub bytes_from : (f : ℕ → ℕ) (i j n : ℕ) → (0 < n → i ≡ j) → bytes f i n ≡ bytes f j n
unfolding bytes
bytes_from f i j zero h = refl
bytes_from f i j (suc n) h = ap (λ k. bytes f k (suc n)) (h (omega arith))

-- The memory at one byte after `xs` was written from `i` on.
pub poke_at :
    (f : ℕ → ℕ) (i : ℕ) (xs : List ℕ) (j : ℕ)
    → poke f i xs j ≡ (if leb i j && ltb j (i + length xs) then get_or xs (j - i) 0 else f j)
unfolding poke
poke_at f i [] j = ground arith
poke_at f i (x ∷ xs) j =
    let ih = poke_at (update f i x) (i + 1) xs j in
    elim (dec_lt i j) [
      | yes above ↦ let e : j - i ≡ suc (j - (i + 1)) = omega arith in rw (e, ih) (ground arith)
      | no below ↦ elim (ℕ_discrete j i) [
        | yes same ↦ let e : j - i ≡ 0 = omega arith in rw (e, ih) (ground arith)
        | no other ↦ rw ih (ground arith)
      ]
    ]

pub poke-append :
    (f : ℕ → ℕ) (i : ℕ) (xs ys : List ℕ) (j : ℕ)
    → poke f i (xs ++ ys) j ≡ poke (poke f i xs) (i + length xs) ys j
unfolding poke
poke-append f i [] ys j = ap (λ k. poke f k ys j) (omega arith)
poke-append f i (x ∷ xs) ys j =
    poke-append (update f i x) (i + 1) xs ys j
    ∙ ap (λ k. poke (poke (update f i x) (i + 1) xs) k ys j) (omega arith)

-- A write that only matters pointwise.
pub poke_ext :
    (f g : ℕ → ℕ) (i : ℕ) (xs : List ℕ) (j : ℕ) → f j ≡ g j → poke f i xs j ≡ poke g i xs j
poke_ext f g i xs j e = ground (arith, poke_at f i xs j, poke_at g i xs j)

pub poke_from :
    (f : ℕ → ℕ) (i i' : ℕ) (xs : List ℕ) (j : ℕ)
    → (0 < length xs → i ≡ i')
    → poke f i xs j ≡ poke f i' xs j
unfolding poke
poke_from f i i' [] j e = refl
poke_from f i i' (x ∷ xs) j e = ap (λ k. poke f k (x ∷ xs) j) (e (omega arith))

-- Ranges that agree byte by byte.
pub bytes_ext :
    (f g : ℕ → ℕ) (i j n : ℕ)
    → ((k : ℕ) → k < n → f (i + k) ≡ g (j + k))
    → bytes f i n ≡ bytes g j n
unfolding bytes
bytes_ext f g i j zero h = refl
bytes_ext f g i j (suc n) h =
    ap₂ ◌∷◌ (ap f (omega arith) ∙ h 0 (omega arith) ∙ ap g (omega arith)) (
      bytes_ext f g (i + 1) (j + 1) n
        (λ k l. ap f (omega arith) ∙ h (suc k) (omega arith) ∙ ap g (omega arith)))

-- A range below what was written, and the range that was.
pub bytes-poke_below :
    (f : ℕ → ℕ) (i n k : ℕ) (xs : List ℕ) → i + n ≤ k → bytes (poke f k xs) i n ≡ bytes f i n
bytes-poke_below f i n k xs h =
    bytes_ext (poke f k xs) f i i n (λ j l. ground (arith, poke_at f k xs (i + j)))

pub bytes-poke : (f : ℕ → ℕ) (i : ℕ) (xs : List ℕ) → bytes (poke f i xs) i (length xs) ≡ xs
unfolding bytes poke
bytes-poke f i [] = refl
bytes-poke f i (x ∷ xs) =
    ap₂ ◌∷◌ (ground (arith, poke_at (update f i x) (i + 1) xs i))
      (bytes-poke (update f i x) (i + 1) xs)

pub take-bytes : (k : ℕ) (f : ℕ → ℕ) (i n : ℕ) → take k (bytes f i n) ≡ bytes f i (min k n)
unfolding bytes
take-bytes zero f i n = let e : min 0 n ≡ 0 = omega arith in rw e refl
take-bytes (suc k) f i zero = let e : min (suc k) 0 ≡ 0 = omega arith in rw e refl
take-bytes (suc k) f i (suc n) =
    let e : min (suc k) (suc n) ≡ suc (min k n) = omega arith in
    rw e (ap (λ r. f i ∷ r) (take-bytes k f (i + 1) n))

pub drop-bytes : (k : ℕ) (f : ℕ → ℕ) (i n : ℕ) → drop k (bytes f i n) ≡ bytes f (i + k) (n - k)
unfolding bytes
drop-bytes zero f i n = ap₂ (bytes f) (omega arith) (omega arith)
drop-bytes (suc k) f i zero = let e : 0 - suc k ≡ 0 = omega arith in rw e refl
drop-bytes (suc k) f i (suc n) =
    drop-bytes k f (i + 1) n ∙ ap₂ (bytes f) (omega arith) (omega arith)

pub get_or-bytes : (f : ℕ → ℕ) (i n k d : ℕ) → k < n → get_or (bytes f i n) k d ≡ f (i + k)
unfolding bytes
get_or-bytes f i zero k d h = absurd (omega arith)
get_or-bytes f i (suc n) zero d h = ap f (omega arith)
get_or-bytes f i (suc n) (suc k) d h =
    get_or-bytes f (i + 1) n k d (omega arith) ∙ ap f (omega arith)
