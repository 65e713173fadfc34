-- ===== src/Text/Scan.antt =====
-- What the functions that look for a byte find.
use native.Mathlib.Decide.{ℕ_discrete}
use telos.Prelude.{
  ℕ, zero, suc, ◌-◌, ◌<◌, ◌≡◌, ◌≢◌, refl, ap, sym, ◌∙◌, ◌==◌, if◌then◌else◌, Option, none, some,
  true, ◌⊎◌, inl, inr, List, [], ◌∷◌, arith, All, take, get_or, ==-ne,
}
use telos.Text.{strlen, strchr, memrchr, memrchr_from}

-- The string in a buffer: the bytes before the first NUL.
abbrev pub cstr : List ℕ → List ℕ
cstr [] = []
cstr (c ∷ s) = let rest = cstr s in if c == 0 then [] else c ∷ rest

is_same : (x y : ℕ) → x ≡ y → (x == y) ≡ true
is_same x y e = ground arith

-- The first place of `c` in the string of `s`, as an offset, or the lack of one.
abbrev pub FirstOf : List ℕ → ℕ → Option ℕ → Type 0
FirstOf s c found =
    ((found ≡ none) × All (λ x. x ≢ c) (cstr s))
    ⊎ ((i : ℕ) × (found ≡ some i)
        × (i < strlen s)
        × (get_or s i 0 ≡ c)
        × All (λ x. x ≢ c) (take i s))

-- `strchr` finds the first place of a byte in a string, or returns NULL if there is none.
pub strchr-FirstOf : (s : List ℕ) (c : ℕ) → FirstOf s c (strchr s c)
unfolding strchr strlen
strchr-FirstOf [] c = inl (refl, tt)
strchr-FirstOf (x ∷ s) c = elim (ℕ_discrete x 0) [
  | yes z ↦ rw z (inl (refl, tt))
  | no nz ↦ elim (ℕ_discrete x c) [
    | yes here ↦ rw (==-ne x 0 nz, is_same x c here) (inr (0, refl, omega arith, here, tt))
    | no other ↦ elim (strchr-FirstOf s c) [
      | inl (e, a) ↦ rw (==-ne x 0 nz, ==-ne x c other, e) (inl (refl, (other, a)))
      | inr (i, e, l, g, a) ↦
          rw (==-ne x 0 nz, ==-ne x c other, e) (inr (suc i, refl, omega arith, g, (other, a)))
    ]
  ]
]

abbrev pub LastOf : List ℕ → ℕ → ℕ → Option ℕ → Type 0
LastOf s c n found =
    ((found ≡ none) × ((j : ℕ) → 0 < j → j < n → get_or s j 0 ≢ c))
    ⊎ ((i : ℕ) × (found ≡ some i)
        × (0 < i)
        × (i < n)
        × (get_or s i 0 ≡ c)
        × ((j : ℕ) → i < j → j < n → get_or s j 0 ≢ c))

memrchr_from-LastOf : (s : List ℕ) (c i : ℕ) → LastOf s c (suc i) (memrchr_from s c i)
unfolding memrchr_from
memrchr_from-LastOf s c zero = inl (refl, λ j p q. absurd (omega arith))
memrchr_from-LastOf s c (suc i) = elim (ℕ_discrete (get_or s (suc i) 0) c) [
  | yes here ↦
      rw (is_same (get_or s (suc i) 0) c here)
        (inr (suc i, refl, omega arith, omega arith, here, λ j p q. absurd (omega arith)))
  | no other ↦ elim (memrchr_from-LastOf s c i) [
    | inl (e, a) ↦
        rw (==-ne (get_or s (suc i) 0) c other, e)
          (inl (
            refl,
            λ j p q. elim (ℕ_discrete j (suc i)) [
              | yes same ↦ λ h. other (ap (λ k. get_or s k 0) (sym same) ∙ h)
              | no d ↦ a j p (omega arith)
            ],
          ))
    | inr (k, e, p, l, g, a) ↦
        rw (==-ne (get_or s (suc i) 0) c other, e)
          (inr (
            k,
            refl,
            p,
            omega arith,
            g,
            λ j p q. elim (ℕ_discrete j (suc i)) [
              | yes same ↦ λ h. other (ap (λ m. get_or s m 0) (sym same) ∙ h)
              | no d ↦ a j p (omega arith)
            ],
          ))
  ]
]

-- `memrchr` finds the last place of a byte among the first `n`, but never the very first byte: it
-- returns NULL if the byte stands there only.
pub memrchr-LastOf : (s : List ℕ) (c n : ℕ) → 0 < n → LastOf s c n (memrchr s c n)
unfolding memrchr
memrchr-LastOf s c zero h = absurd (omega arith)
memrchr-LastOf s c (suc n) h =
    let e : suc n - 1 ≡ n = omega arith in rw e (memrchr_from-LastOf s c n)
