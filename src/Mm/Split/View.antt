-- ===== src/Mm/Split/View.antt =====
-- Cutting seen from outside: which flags hold at each address.
use mathlib.Core.Option
use telos.Prelude.{
  ℕ, ◌≤◌, ◌≡◌, ◌≢◌, refl, sym, ap, ◌∙◌, ◌⊎◌, inl, inr, ltb, leb, ◌&&◌, if◌then◌else◌, Option, none,
  some, List, [], ◌∷◌, arith, All,
}
use telos.Errno.{ok, Status-cases}
use telos.Mm.{Vma, Pool, store, list_add, vma_get}
use telos.Mm.Layout.{Chain, In, Chain-le}
use telos.Mm.Ops.{Ops, vm_split}
use telos.Mm.Split.{vma_bisect}

-- No two areas are the same `struct vma`.
abbrev pub Distinct : List Vma → Type 0
Distinct [] = Unit {0}
Distinct (x ∷ xs) = All (λ y. y.id ≢ x.id) xs × Distinct xs

-- The flags at an address, if it is mapped.
unfoldable pub flags_at : List Vma → ℕ → Option ℕ
flags_at areas a = Option.map (λ v. v.flags) (vma_get areas a)

In-id-ne : (xs : List Vma) (k : ℕ) (v : Vma) → All (λ y. y.id ≢ k) xs → In v xs → v.id ≢ k
In-id-ne [] k v h i = absurd i
In-id-ne (x ∷ xs) k v h (inl e) = λ q. h.0 (sym (ap (λ (w : Vma). w.id) e) ∙ q)
In-id-ne (x ∷ xs) k v h (inr i) = In-id-ne xs k v h.1 i

-- With distinct areas the id tells where an area is.
pub In-head :
    (x : Vma) (xs : List Vma) (v : Vma) → Distinct (x ∷ xs) → In v (x ∷ xs) → x.id ≡ v.id → v ≡ x
In-head x xs v d (inl e) q = e
In-head x xs v d (inr i) q = absurd (In-id-ne xs x.id v d.0 i (sym q))

pub In-tail : (x : Vma) (xs : List Vma) (v : Vma) → In v (x ∷ xs) → x.id ≢ v.id → In v xs
In-tail x xs v (inl e) q = absurd (q (sym (ap (λ (w : Vma). w.id) e)))
In-tail x xs v (inr i) q = i

pub flags_at-cons :
    (x : Vma) (xs : List Vma) (a : ℕ)
    → flags_at (x ∷ xs) a
      ≡ (if ltb a x.end then (if leb x.start a then some x.flags else none) else flags_at xs a)
unfolding flags_at vma_get
flags_at-cons x xs a = ground arith

-- The list step that `vma_bisect` makes: the area becomes two.
abbrev pub cut : List Vma → Vma → Vma → Vma → List Vma
cut areas v left right = list_add v.id right (store left areas)

flags_at-cut :
    (areas : List Vma) (lo a : ℕ) (v left right : Vma)
    → Chain lo areas
    → Distinct areas
    → In v areas
    → left.id ≡ v.id
    → left.start ≡ v.start
    → left.end ≡ right.start
    → right.end ≡ v.end
    → v.start ≤ left.end
    → left.end ≤ v.end
    → flags_at (cut areas v left right) a ≡ (
        if leb v.start a && ltb a v.end
        then (if ltb a left.end then some left.flags else some right.flags)
        else flags_at areas a)
unfolding store list_add
flags_at-cut [] lo a v left right c d i e1 e2 e3 e4 h1 h2 = absurd i
flags_at-cut (x ∷ xs) lo a v left right c d i e1 e2 e3 e4 h1 h2 = ground (
  arith,
  flags_at-cons x xs a,
  flags_at-cons left (right ∷ xs) a,
  flags_at-cons right xs a,
  flags_at-cons x (cut xs v left right) a,
  In-head x xs v d i,
  In-tail x xs v i,
  Chain-le xs x.end v c.2,
  flags_at-cut xs x.end a v left right c.2 d.1,
)

cut-Chain :
    (areas : List Vma) (lo : ℕ) (v left right : Vma)
    → Chain lo areas
    → Distinct areas
    → In v areas
    → left.id ≡ v.id
    → left.start ≡ v.start
    → left.end ≡ right.start
    → right.end ≡ v.end
    → v.start ≤ left.end
    → left.end ≤ v.end
    → Chain lo (cut areas v left right)
unfolding store list_add
cut-Chain [] lo v left right c d i e1 e2 e3 e4 h1 h2 = absurd i
cut-Chain (x ∷ xs) lo v left right c d i e1 e2 e3 e4 h1 h2 =
    ground (arith, In-head x xs v d i, In-tail x xs v i, cut-Chain xs x.end v left right c.2 d.1)

store_self :
    (areas : List Vma) (v w : Vma)
    → Distinct areas
    → In v areas
    → w.id ≡ v.id
    → store v (store w areas) ≡ areas
unfolding store
store_self [] v w d i e = refl
store_self (x ∷ xs) v w d i e =
    ground (arith, In-head x xs v d i, In-tail x xs v i, store_self xs v w d.1)

-- On areas in order and with identities of their own, for an address in one of them: `vma_bisect`
-- that succeeds keeps the order, and changes the flags of the two parts and of no other address;
-- if it fails, the areas and the free `struct vma`s are as before.
pub vma_bisect-flags :
    (ops : Ops) (areas : List Vma) (pool : Pool) (v : Vma) (split lflags rflags a : ℕ)
    → Chain 0 areas
    → Distinct areas
    → In v areas
    → v.start ≤ split
    → split ≤ v.end
    → let r = vma_bisect ops areas pool v split lflags rflags in
      ((r.status ≡ ok)
        × Chain 0 r.areas
        × (flags_at r.areas a ≡ (
            if leb v.start a && ltb a v.end
            then (if ltb a split then some lflags else some rflags)
            else flags_at areas a)))
      ⊎ ((r.status ≢ ok) × (r.areas ≡ areas) × (r.pool ≡ pool))
unfolding vma_bisect
vma_bisect-flags ops areas [] v split lflags rflags a c d i h1 h2 = inr ((λ e. cc), refl, refl)
vma_bisect-flags ops areas (p ∷ pool) v split lflags rflags a c d i h1 h2 =
    let right : Vma = record { id = p; start = split; end = v.end; flags = rflags; op = v.op } in
    let left : Vma = record v { end = split; flags = lflags } in
    elim (Status-cases (vm_split ops right left).1) [
      | inl e ↦
          rw (e, vma_bisect)
            (inl (
              refl,
              cut-Chain areas 0 v left right c d i refl refl refl refl h1 h2,
              flags_at-cut areas 0 a v left right c d i refl refl refl refl h1 h2,
            ))
      | inr (w, e) ↦ rw (e, vma_bisect) (inr ((λ q. cc), store_self areas v left d i refl, refl))
    ]
