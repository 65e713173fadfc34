-- ===== src/Heap/Apart.antt =====
-- Segments that do not overlap: what it means for a heap, and that it survives when a segment is
-- taken whole or split in two.
use native.Mathlib.Decide.{ℕ_discrete}
use telos.Prelude.{
  ℕ, ◌+◌, ◌-◌, ◌≤◌, ◌<◌, ◌≡◌, ◌≢◌, refl, ap, sym, ◌∙◌, ◌==◌, Bool, true, false, not, ◌&&◌, ◌||◌,
  ◌⊎◌, inl, inr, List, ◌∷◌, arith, Bool-cases,
}
use telos.Word.{word_mod}
use telos.Heap.{Heap, Magic, header, put, remove, replace}
use telos.Heap.Free.{mem, NoDouble, mem-remove, mem-replace, remove-NoDouble, replace-NoDouble}

-- The segments at `a` and `b`, headers and data, do not overlap.
abbrev pub Off : (ℕ → ℕ) → ℕ → ℕ → Type 0
Off size a b = (a + header + size a ≤ b) ⊎ (b + header + size b ≤ a)

-- The segments that are handed out (`live`) and those that are free lie below 2 ^ 32 without
-- overlap, and none is both or free twice.
pub record IsHeap (h : Heap) (live : List ℕ) : Type 0 where
  pub no_double : NoDouble h.free_list
  pub apart : (a : ℕ) → mem a live ≡ true → mem a h.free_list ≡ false
  pub off :
      (a b : ℕ)
      → (mem a live || mem a h.free_list) ≡ true
      → (mem b live || mem b h.free_list) ≡ true
      → a ≢ b
      → Off h.size a b
  pub below : (a : ℕ) → (mem a live || mem a h.free_list) ≡ true → a + header + h.size a < word_mod

pub whole-IsHeap :
    (h : Heap) (live : List ℕ) (p : ℕ) (magic : ℕ → Magic)
    → IsHeap h live
    → mem p h.free_list ≡ true
    → IsHeap (record h { magic = magic; free_list = remove p h.free_list }) (p ∷ live)
whole-IsHeap h live p magic good m =
    let gone : (a : ℕ) → mem a (remove p h.free_list) ≡ (mem a h.free_list && not (a == p)) =
      λ a. mem-remove a p h.free_list good.no_double in
    let used : (a : ℕ)
        → (mem a (p ∷ live) || mem a (remove p h.free_list)) ≡ true
        → (mem a live || mem a h.free_list) ≡ true =
      λ a u. elim (ℕ_discrete a p) [
        | yes same ↦ rw same (ground (arith, m))
        | no ne ↦ ground (arith, gone a)
      ] in
    record {
      no_double = remove-NoDouble p h.free_list good.no_double;
      apart = λ a u. ground (arith, gone a, good.apart a);
      off = λ a b u w. good.off a b (used a u) (used b w);
      below = λ a u. good.below a (used a u);
    }

-- What the headers hold once `p` is split: `n` bytes at `p`, `rest` at `r`.
abbrev pub split_size : (ℕ → ℕ) → ℕ → ℕ → ℕ → ℕ → ℕ → ℕ
split_size size p n r rest = put (put size r rest) p n

pub split_size_p : (size : ℕ → ℕ) (p n r rest : ℕ) → split_size size p n r rest p ≡ n
split_size_p size p n r rest = ground arith

split_size_r : (size : ℕ → ℕ) (p n r rest : ℕ) → r ≢ p → split_size size p n r rest r ≡ rest
split_size_r size p n r rest ne = ground arith

split_size_else :
    (size : ℕ → ℕ) (p n r rest a : ℕ) → a ≢ p → a ≢ r → split_size size p n r rest a ≡ size a
split_size_else size p n r rest a ne nr = ground arith

-- A segment after the split lies in one before it: in itself, or in the one that was split.
abbrev Inside : (ℕ → ℕ) → (ℕ → Bool) → ℕ → ℕ → ℕ → ℕ → Type 0
Inside size used p r a bytes =
    (o : ℕ) × (used o ≡ true)
    × (o ≤ a)
    × (a + header + bytes ≤ o + header + size o)
    × ((o ≡ a) ⊎ ((o ≡ p) × (a ≡ r)))

Off-inside :
    (size : ℕ → ℕ) (oa ob a b na nb : ℕ)
    → Off size oa ob
    → oa ≤ a
    → a + header + na ≤ oa + header + size oa
    → ob ≤ b
    → b + header + nb ≤ ob + header + size ob
    → (a + header + na ≤ b) ⊎ (b + header + nb ≤ a)
Off-inside size oa ob a b na nb (inl o) la ta lb tb = inl (omega arith)
Off-inside size oa ob a b na nb (inr o) la ta lb tb = inr (omega arith)

Inside-Off :
    (size size' : ℕ → ℕ) (used : ℕ → Bool) (p n a b : ℕ)
    → ((x y : ℕ) → used x ≡ true → used y ≡ true → x ≢ y → Off size x y)
    → size' p ≡ n
    → a ≢ b
    → Inside size used p (p + header + n) a (size' a)
    → Inside size used p (p + header + n) b (size' b)
    → Off size' a b
Inside-Off size size' used p n a b off at_p d (oa, ua, la, ta, wa) (ob, ub, lb, tb, wb) =
    elim (ℕ_discrete oa ob) [
      | no apart ↦ Off-inside size oa ob a b (size' a) (size' b) (off oa ob ua ub apart) la ta lb tb
      | yes same ↦ two_parts wa wb same
    ]
  where
    two_parts :
        ((oa ≡ a) ⊎ ((oa ≡ p) × (a ≡ p + header + n)))
        → ((ob ≡ b) ⊎ ((ob ≡ p) × (b ≡ p + header + n)))
        → oa ≡ ob
        → Off size' a b
    two_parts (inl ea) (inl eb) same = absurd (d (sym ea ∙ same ∙ eb))
    two_parts (inl ea) (inr (eb, fb)) same =
        let e : a ≡ p = sym ea ∙ same ∙ eb in inl (omega (arith, ap size' e, at_p, e, fb))
    two_parts (inr (ea, fa)) (inl eb) same =
        let e : b ≡ p = sym eb ∙ sym same ∙ ea in inr (omega (arith, ap size' e, at_p, e, fa))
    two_parts (inr (ea, fa)) (inr (eb, fb)) same = absurd (d (fa ∙ sym fb))

pub split-IsHeap :
    (h : Heap) (live : List ℕ) (p n : ℕ) (magic : ℕ → Magic)
    → IsHeap h live
    → mem p h.free_list ≡ true
    → n + header < h.size p
    → let r = p + header + n in
      IsHeap
        (record {
          size = split_size h.size p n r (h.size p - n - header);
          magic = magic;
          free_list = replace p r h.free_list;
        })
        (p ∷ live)
split-IsHeap h live p n magic good m fits =
    let r : ℕ = p + header + n in
    let used : ℕ → Bool = λ a. mem a live || mem a h.free_list in
    let rest : ℕ = h.size p - n - header in
    let size' : ℕ → ℕ = split_size h.size p n r rest in
    let ne : r ≢ p = omega arith in
    let at_p : size' p ≡ n = split_size_p h.size p n r rest in
    let at_r : size' r ≡ rest = split_size_r h.size p n r rest ne in
    let used_p : used p ≡ true = ground (arith, m) in
    let new : (b : ℕ) → used b ≡ true → b ≢ p → b ≢ r =
      λ b u d e. ground (arith, good.off b p u used_p d) in
    let r_free : used r ≡ false = elim (Bool-cases (used r)) [
      | inl u ↦ absurd (new r u ne refl)
      | inr e ↦ e
    ] in
    let gone : (a : ℕ)
        → mem a (replace p r h.free_list) ≡ ((mem a h.free_list && not (a == p)) || (a == r)) =
      λ a. mem-replace a p r h.free_list good.no_double m (ground (arith, r_free)) in
    let inside : (a : ℕ)
        → (mem a (p ∷ live) || mem a (replace p r h.free_list)) ≡ true
        → Inside h.size used p r a (size' a) =
      λ a u. elim (ℕ_discrete a p) [
        | yes same ↦ (p, used_p, omega arith, omega (arith, ap size' same, at_p), inl (sym same))
        | no d ↦ elim (ℕ_discrete a r) [
          | yes same ↦
              (p, used_p, omega arith, omega (arith, ap size' same, at_r), inr (refl, same))
          | no d' ↦ (
            a,
            ground (arith, gone a),
            omega arith,
            omega (arith, split_size_else h.size p n r rest a d d'),
            inl refl,
          )
        ]
      ] in
    record {
      no_double = replace-NoDouble p r h.free_list good.no_double m (ground (arith, r_free));
      apart = λ a u. elim (ℕ_discrete a p) [
        | yes same ↦ ground (arith, gone a)
        | no d ↦ ground (arith, gone a, good.apart a, new a)
      ];
      off = λ a b u w d.
          Inside-Off h.size size' used p n a b good.off at_p d (inside a u) (inside b w);
      below = λ a u.
          let (o, used_o, low, top, which) = inside a u in omega (arith, top, good.below o used_o);
    }
