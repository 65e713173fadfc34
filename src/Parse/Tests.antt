-- ===== src/Parse/Tests.antt =====
-- Runs of the parsers at concrete inputs.
use telos.Prelude.{ℕ, ◌<◌, ◌≡◌, ◌≢◌, refl, true, false, [], ◌∷◌, arith, All, ◌-◌}
use telos.Errno.{erange, got, failed}
use telos.Parse.{
  kstrtoull, kstrtoint, kstrtol, kstrtos16, kstrtos8, kstrtouint, kstrtoul, kstrtou16, kstrtou8,
  long_long_mod, lower,
}
use telos.Parse.Numeral.{text, kstrtoull-numeral, kstrtoull_detects}
use telos.Parse.Narrow.{kstrtoint-numeral, kstrtouint-numeral}

-- 18446744073709551621, which is 2 ^ 64 + 5, is read as 5.
reads_past_end :
    kstrtoull
      (49 ∷ 56 ∷ 52 ∷ 52 ∷ 54 ∷ 55 ∷ 52 ∷ 52 ∷ 48 ∷ 55 ∷ 51 ∷ 55 ∷ 48 ∷ 57 ∷ 53 ∷ 53 ∷ 49 ∷ 54 ∷ 50
        ∷ 49 ∷ [])
      10
    ≡ got 5
unfolding kstrtoull telos.Parse.kstrtoull_unsigned telos.Parse.fixup_radix telos.Parse.found_base
    telos.Parse.parse_integer telos.Parse.digit_value telos.Parse.at_end
reads_past_end = refl

kstrtoull-numeral_example : kstrtoull (43 ∷ text (3 ∷ 0 ∷ 0 ∷ []) true) 10 ≡ got 300
kstrtoull-numeral_example =
    kstrtoull-numeral true 3 (0 ∷ 0 ∷ []) true 10 (omega arith, (omega arith, (omega arith, tt)))
      (omega arith) (omega arith)

kstrtoull_detects_run :
    ((lower 88 ≡ 120)
      → All (λ y. y < 16) (1 ∷ 7 ∷ [])
      → kstrtoull (48 ∷ 88 ∷ text (1 ∷ 7 ∷ []) false) 0 ≡ got 23)
    × (All (λ y. y < 8) (1 ∷ 7 ∷ []) → kstrtoull (48 ∷ text (1 ∷ 7 ∷ []) false) 0 ≡ got 15)
    × (All (λ y. y < 10) (1 ∷ 7 ∷ [])
        → ◌≢◌ {A = ℕ} 1 0
        → kstrtoull (text (1 ∷ 7 ∷ []) false) 0 ≡ got 17)
kstrtoull_detects_run = kstrtoull_detects 1 (7 ∷ []) false 88 (omega arith)

kstrtoint-numeral_example :
    (kstrtoint (45 ∷ text (3 ∷ 0 ∷ 0 ∷ []) false) 10 ≡ got (long_long_mod - 300))
    × (kstrtol (45 ∷ text (3 ∷ 0 ∷ 0 ∷ []) false) 10 ≡ got (long_long_mod - 300))
    × (kstrtos16 (45 ∷ text (3 ∷ 0 ∷ 0 ∷ []) false) 10 ≡ got (long_long_mod - 300))
    × (kstrtos8 (45 ∷ text (3 ∷ 0 ∷ 0 ∷ []) false) 10 ≡ failed erange)
kstrtoint-numeral_example =
    kstrtoint-numeral true 3 (0 ∷ 0 ∷ []) false 10 (omega arith, (omega arith, (omega arith, tt)))
      (omega arith) (omega arith) (omega arith)

kstrtouint-numeral_run :
    (kstrtouint (text (3 ∷ 0 ∷ 0 ∷ []) false) 10 ≡ got 300)
    × (kstrtoul (text (3 ∷ 0 ∷ 0 ∷ []) false) 10 ≡ got 300)
    × (kstrtou16 (text (3 ∷ 0 ∷ 0 ∷ []) false) 10 ≡ got 300)
    × (kstrtou8 (text (3 ∷ 0 ∷ 0 ∷ []) false) 10 ≡ failed erange)
kstrtouint-numeral_run =
    kstrtouint-numeral 3 (0 ∷ 0 ∷ []) false 10 (omega arith, (omega arith, (omega arith, tt)))
      (omega arith) (omega arith) (omega arith)
