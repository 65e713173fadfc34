-- ===== src/Text.antt =====
-- The string functions (lib/string.c). A pointer is the list of the bytes from there on; a byte past
-- the end of the list reads as 0, and a write there is lost.
pub mod Scan
pub mod Compare
pub mod Copy
mod Tests
use telos.Prelude.{
  ℕ, zero, suc, ◌+◌, ◌-◌, ◌*◌, ◌%◌, ◌==◌, leb, ltb, if◌then◌else◌, Option, none, some, Bool, true,
  false, not, ◌&&◌, List, [], ◌∷◌, get_or, set, take, drop,
}
use telos.Word.{add32, sub32, word_mod}

-- A `char` as an `int`: it has a sign.
abbrev pub char : ℕ → ℕ
char c = if ltb c 128 then c else word_mod - 256 + c

-- The loop of `atoi`, with `n` as it is so far.
unfoldable pub atoi : ℕ → List ℕ → ℕ
atoi n [] = n
atoi n (c ∷ s) =
    let rest = atoi (sub32 (add32 (n * 10 % word_mod) (char c)) 48) s in if c == 0 then n else rest

unfoldable pub memcmp : List ℕ → List ℕ → ℕ → ℕ
memcmp s t zero = 0
memcmp s t (suc n) =
    let rest = memcmp (drop 1 s) (drop 1 t) n in
    if get_or s 0 0 == get_or t 0 0 then rest else sub32 (char (get_or s 0 0)) (char (get_or t 0 0))

-- The copy of `n` bytes to the start of `dest`.
unfoldable pub memcpy : List ℕ → List ℕ → ℕ → List ℕ
memcpy [] src n = []
memcpy (d ∷ dest) src zero = d ∷ dest
memcpy (d ∷ dest) src (suc n) = get_or src 0 0 ∷ memcpy dest (drop 1 src) n

unfoldable pub memset : List ℕ → ℕ → ℕ → List ℕ
memset [] c n = []
memset (d ∷ s) c zero = d ∷ s
memset (d ∷ s) c (suc n) = c ∷ memset s c n

-- The offset of the byte found.
unfoldable pub memchr : List ℕ → ℕ → ℕ → Option ℕ
memchr s c zero = none
memchr s c (suc n) =
    let rest = memchr (drop 1 s) c n in
    if get_or s 0 0 == c then some 0 else elim rest [ none ↦ none | some i ↦ some (suc i) ]

-- The loop of `memrchr` from offset `i` down; it stops before 0.
unfoldable pub memrchr_from : List ℕ → ℕ → ℕ → Option ℕ
memrchr_from s c zero = none
memrchr_from s c (suc i) =
    let rest = memrchr_from s c i in if get_or s (suc i) 0 == c then some (suc i) else rest

-- `memrchr` for `n` above 0
unfoldable pub memrchr : List ℕ → ℕ → ℕ → Option ℕ
memrchr s c n = memrchr_from s c (n - 1)

unfoldable pub strlen : List ℕ → ℕ
strlen [] = 0
strlen (c ∷ s) = let rest = strlen s in if c == 0 then 0 else suc rest

unfoldable pub strnlen : List ℕ → ℕ → ℕ
strnlen s zero = 0
strnlen [] (suc n) = 0
strnlen (c ∷ s) (suc n) = let rest = strnlen s n in if c == 0 then 0 else suc rest

unfoldable pub strchr : List ℕ → ℕ → Option ℕ
strchr [] c = none
strchr (x ∷ s) c =
    let rest = strchr s c in
    if x == 0
    then none
    else if x == c
    then some 0
    else elim rest [ none ↦ none | some i ↦ some (suc i) ]

-- The loop of `strrchr` at offset `i`, with the last match in `rc`.
unfoldable pub strrchr_from : List ℕ → ℕ → ℕ → Option ℕ → Option ℕ
strrchr_from [] c i rc = rc
strrchr_from (x ∷ s) c i rc =
    let rest = strrchr_from s c (suc i) (if x == c then some i else rc) in
    if x == 0 then rc else rest

unfoldable pub strrchr : List ℕ → ℕ → Option ℕ
strrchr s c = strrchr_from s c 0 none

unfoldable pub strchrnul : List ℕ → ℕ → ℕ
strchrnul [] c = 0
strchrnul (x ∷ s) c =
    let rest = strchrnul s c in if x == 0 then 0 else if x == c then 0 else suc rest

unfoldable pub strcmp : List ℕ → List ℕ → ℕ
strcmp [] t = sub32 0 (char (get_or t 0 0))
strcmp (x ∷ s) t =
    let rest = strcmp s (drop 1 t) in
    if x == get_or t 0 0 then (if x == 0 then 0 else rest) else sub32 (char x) (char (get_or t 0 0))

unfoldable pub strncmp : List ℕ → List ℕ → ℕ → ℕ
strncmp s t zero = 0
strncmp [] t (suc n) = 0
strncmp (x ∷ s) t (suc n) =
    let rest = strncmp s (drop 1 t) n in
    if x == 0 then 0 else if x == get_or t 0 0 then rest else sub32 (char x) (char (get_or t 0 0))

-- The loop of `strcpy`, and the final NUL.
unfoldable pub strcpy : List ℕ → List ℕ → List ℕ
strcpy [] src = []
strcpy (d ∷ dest) src =
    let rest = strcpy dest (drop 1 src) in
    if get_or src 0 0 == 0 then 0 ∷ dest else get_or src 0 0 ∷ rest

-- Both loops of `strncpy`: once the string is over, NULs.
unfoldable pub strncpy : List ℕ → List ℕ → ℕ → List ℕ
strncpy [] src n = []
strncpy (d ∷ dest) src zero = d ∷ dest
strncpy (d ∷ dest) src (suc n) =
    let rest = strncpy dest (drop 1 src) n in
    let nuls = memset dest 0 n in if get_or src 0 0 == 0 then 0 ∷ nuls else get_or src 0 0 ∷ rest

-- `strcat`: what it writes at the end of the string in `dest` is what `strcpy` writes.
unfoldable pub strcat : List ℕ → List ℕ → List ℕ
unfolding strcpy
strcat [] src = []
strcat (d ∷ dest) src =
    let rest = strcat dest src in if d == 0 then strcpy (d ∷ dest) src else d ∷ rest

-- `strspn` and `strcspn`: `wanted` is whether `strchr` is to find the byte.
abbrev pub is_found : Option ℕ → Bool
is_found none = false
is_found (some i) = true

unfoldable pub span : Bool → List ℕ → List ℕ → ℕ
span wanted [] bytes = 0
span wanted (x ∷ s) bytes =
    let rest = span wanted s bytes in
    let goes_on = if wanted then is_found (strchr bytes x) else not (is_found (strchr bytes x)) in
    if x == 0 then 0 else if goes_on then suc rest else 0

unfoldable pub strspn : List ℕ → List ℕ → ℕ
strspn = span true

unfoldable pub strcspn : List ℕ → List ℕ → ℕ
strcspn = span false
