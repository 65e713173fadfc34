-- ===== src/Text/Tests.antt =====
-- Runs of the string functions at concrete inputs.
use telos.Prelude.{ℕ, ◌<◌, ◌≡◌, refl, List, [], ◌∷◌, arith, All, ◌↔◌}
use telos.Text.{
  strlen, strchr, strrchr, memrchr, strcmp, strncmp, strcpy, strncpy, strcat, strspn, strcspn,
  strchrnul, strnlen, atoi, memcmp, memchr, memcpy, memset,
}
use telos.Text.Scan.{cstr, FirstOf, LastOf, strchr-FirstOf, memrchr-LastOf}
use telos.Text.Compare.{strcmp_iff, strncmp_prefix}
use telos.Text.Copy.{cstr-strcpy, cstr-strcat, strncpy-cstr}

-- `abc`, and `abcd`
abbrev abc : List ℕ
abc = 97 ∷ 98 ∷ 99 ∷ 0 ∷ []

abbrev abcd : List ℕ
abcd = 97 ∷ 98 ∷ 99 ∷ 100 ∷ 0 ∷ []

atoi_42 : atoi 0 (52 ∷ 50 ∷ 0 ∷ []) ≡ 42
unfolding atoi
atoi_42 = refl

strcspn-abcd : strcspn abcd (100 ∷ 120 ∷ 0 ∷ []) ≡ 3
unfolding strcspn telos.Text.span strchr
strcspn-abcd = refl

strchr-FirstOf_run : FirstOf abc 99 (strchr abc 99)
strchr-FirstOf_run = strchr-FirstOf abc 99

memrchr-LastOf_run : LastOf abc 97 3 (memrchr abc 97 3)
memrchr-LastOf_run = memrchr-LastOf abc 97 3 (omega arith)

bytes_abc : All (λ x. x < 256) abc
bytes_abc = (omega arith, (omega arith, (omega arith, (omega arith, tt))))

bytes_abcd : All (λ x. x < 256) abcd
bytes_abcd = (omega arith, (omega arith, (omega arith, (omega arith, (omega arith, tt)))))

strcmp_iff_example : (strcmp abc abcd ≡ 0) ↔ (cstr abc ≡ cstr abcd)
strcmp_iff_example = strcmp_iff abc abcd bytes_abc bytes_abcd

strncmp_prefix_run : strncmp (97 ∷ 98 ∷ []) (97 ∷ 98 ∷ 99 ∷ 0 ∷ []) 3 ≡ 0
strncmp_prefix_run =
    strncmp_prefix (97 ∷ 98 ∷ []) (99 ∷ 0 ∷ []) 3
      ((λ e. omega (arith, e)), ((λ e. omega (arith, e)), tt))

copied : cstr (strcpy (1 ∷ 1 ∷ 1 ∷ 1 ∷ 1 ∷ []) abc) ≡ cstr abc
unfolding strlen
copied = cstr-strcpy (1 ∷ 1 ∷ 1 ∷ 1 ∷ 1 ∷ []) abc (omega arith)

cstr-strcat_run : cstr (strcat (100 ∷ 0 ∷ 1 ∷ 1 ∷ 1 ∷ 1 ∷ []) abc) ≡ 100 ∷ 97 ∷ 98 ∷ 99 ∷ []
unfolding strlen
cstr-strcat_run = cstr-strcat (100 ∷ 0 ∷ 1 ∷ 1 ∷ 1 ∷ 1 ∷ []) abc (omega arith)

strncpy-cstr_run : strncpy (1 ∷ 1 ∷ 1 ∷ 1 ∷ 1 ∷ 1 ∷ []) abc 5 ≡ 97 ∷ 98 ∷ 99 ∷ 0 ∷ 0 ∷ 1 ∷ []
strncpy-cstr_run = strncpy-cstr (1 ∷ 1 ∷ 1 ∷ 1 ∷ 1 ∷ 1 ∷ []) abc 5 (omega arith)
