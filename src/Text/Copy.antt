-- ===== src/Text/Copy.antt =====
-- What the functions that write strings leave in the buffer.
use native.Mathlib.Decide.{ℕ_discrete}
use telos.Prelude.{
  ℕ, zero, suc, ◌+◌, ◌≤◌, ◌<◌, ◌≡◌, refl, ap, sym, ◌∙◌, List, [], ◌∷◌, ◌++◌, arith, take, drop,
  replicate, length, ==-ne,
}
use telos.Text.{strlen, strcpy, strncpy, strcat, memset}
use telos.Text.Scan.{cstr}

-- `strcpy` into a buffer that has room leaves the string of the source in it.
pub cstr-strcpy : (dest src : List ℕ) → strlen src < length dest → cstr (strcpy dest src) ≡ cstr src
unfolding strcpy strlen
cstr-strcpy [] src h = absurd (omega arith)
cstr-strcpy (d ∷ dest) [] h = refl
cstr-strcpy (d ∷ dest) (x ∷ src) h = elim (ℕ_discrete x 0) [
  | yes z ↦ rw z refl
  | no nz ↦ ground (arith, cstr-strcpy dest src)
]

-- `strcat` into a buffer that has room leaves the two strings in it, one behind the other.
pub cstr-strcat :
    (dest src : List ℕ)
    → strlen dest + strlen src < length dest
    → cstr (strcat dest src) ≡ cstr dest ++ cstr src
unfolding strcat strlen
cstr-strcat [] src h = absurd (omega arith)
cstr-strcat (d ∷ dest) src h = elim (ℕ_discrete d 0) [
  | yes z ↦ ground (arith, cstr-strcpy (d ∷ dest) src)
  | no nz ↦ ground (arith, cstr-strcat dest src)
]

take-replicate : (m n c : ℕ) → n ≤ m → take n (replicate m c) ≡ replicate n c
take-replicate m zero c h = refl
take-replicate zero (suc n) c h = absurd (omega arith)
take-replicate (suc m) (suc n) c h = ap (λ l. c ∷ l) (take-replicate m n c (omega arith))

memset-replicate :
    (dest : List ℕ) (c n : ℕ) → n ≤ length dest → memset dest c n ≡ replicate n c ++ drop n dest
unfolding memset
memset-replicate [] c zero h = refl
memset-replicate [] c (suc n) h = absurd (omega arith)
memset-replicate (d ∷ dest) c zero h = refl
memset-replicate (d ∷ dest) c (suc n) h = ap (λ l. c ∷ l) (memset-replicate dest c n (omega arith))

strncpy-padded :
    (dest src : List ℕ) (n m : ℕ)
    → n ≤ length dest
    → n ≤ m
    → strncpy dest src n ≡ take n (cstr src ++ replicate m 0) ++ drop n dest
unfolding strncpy
strncpy-padded [] src zero m h k = refl
strncpy-padded [] src (suc n) m h k = absurd (omega arith)
strncpy-padded (d ∷ dest) src zero m h k = refl
strncpy-padded (d ∷ dest) src (suc n) zero h k = absurd (omega arith)
strncpy-padded (d ∷ dest) [] (suc n) (suc m) h k =
    ap (λ l. 0 ∷ l)
      (memset-replicate dest 0 n (omega arith)
        ∙ ap (λ l. l ++ drop n dest) (sym (take-replicate m n 0 (omega arith))))
strncpy-padded (d ∷ dest) (x ∷ src) (suc n) (suc m) h k = elim (ℕ_discrete x 0) [
  | yes z ↦ rw z (
      ap (λ l. 0 ∷ l)
        (memset-replicate dest 0 n (omega arith)
          ∙ ap (λ l. l ++ drop n dest) (sym (take-replicate m n 0 (omega arith)))))
  | no nz ↦
      rw (==-ne x 0 nz)
        (ap (λ l. x ∷ l) (strncpy-padded dest src n (suc m) (omega arith) (omega arith)))
]

-- `strncpy` writes exactly `n` bytes into a buffer that has them: the string of the source, cut to
-- `n` bytes or filled up with NULs. What follows in the buffer stays.
pub strncpy-cstr :
    (dest src : List ℕ) (n : ℕ)
    → n ≤ length dest
    → strncpy dest src n ≡ take n (cstr src ++ replicate n 0) ++ drop n dest
strncpy-cstr dest src n h = strncpy-padded dest src n n h (omega arith)
