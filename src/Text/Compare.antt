-- ===== src/Text/Compare.antt =====
-- What the results of comparisons mean.
use native.Mathlib.Decide.{ℕ_discrete}
use telos.Prelude.{ℕ, zero, suc, ◌<◌, ◌≡◌, ◌≢◌, refl, List, [], ◌∷◌, ◌++◌, arith, All, ◌↔◌}
use telos.Word.{sub32}
use telos.Text.{char, strcmp, strncmp}
use telos.Text.Scan.{cstr}

-- Two bytes that differ have a difference other than 0 as `int`s.
char_differ : (a b : ℕ) → a < 256 → b < 256 → a ≢ b → sub32 (char a) (char b) ≢ 0
char_differ a b h k ne = ground arith

-- On bytes, `strcmp` returns 0 exactly for equal strings.
pub strcmp_iff :
    (s t : List ℕ)
    → All (λ x. x < 256) s
    → All (λ x. x < 256) t
    → (strcmp s t ≡ 0) ↔ (cstr s ≡ cstr t)
unfolding strcmp
strcmp_iff [] [] a b = (λ e. refl, λ e. refl)
strcmp_iff [] (y ∷ t) a b =
    (λ e. ground (arith, char_differ 0 y (omega arith) b.0), λ e. ground arith)
strcmp_iff (x ∷ s) [] a b =
    (λ e. ground (arith, char_differ x 0 a.0 (omega arith)), λ e. ground arith)
strcmp_iff (x ∷ s) (y ∷ t) a b = elim (ℕ_discrete x y) [
  | no other ↦ (λ e. ground (arith, char_differ x y a.0 b.0), λ e. ground arith)
  | yes same ↦ elim (ℕ_discrete x 0) [
    | yes z ↦ (λ e. ground arith, λ e. ground arith)
    | no nz ↦
        let (forth, back) = strcmp_iff s t a.1 b.1 in
        (λ e. ground (arith, forth), λ e. ground (arith, back))
  ]
]

-- `strncmp` stops where its first string ends: it returns 0 if that is the beginning of the second,
-- however many bytes are to be compared.
pub strncmp_prefix : (s t : List ℕ) (n : ℕ) → All (λ x. x ≢ 0) s → strncmp s (s ++ t) n ≡ 0
unfolding strncmp
strncmp_prefix s t zero a = refl
strncmp_prefix [] t (suc n) a = refl
strncmp_prefix (x ∷ s) t (suc n) a = ground (arith, strncmp_prefix s t n a.1)
