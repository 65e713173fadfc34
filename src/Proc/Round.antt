-- ===== src/Proc/Round.antt =====
-- The ready queue goes round.
use mathlib.Core.List.{append_assoc}
use telos.Prelude.{
  ℕ, zero, suc, ◌≤◌, ◌≡◌, refl, ap, ◌∙◌, ◌==◌, Option, none, some, Bool, true, false, List, [], ◌∷◌,
  ◌++◌, arith, length, get_or-set_keeps, Bool-cases, inl, inr,
}
use telos.Proc.{Kernel, Pcb, runnable, no_pcb, pcb_at, ready, next_of, sys_yield}

abbrev pub is_idle : Kernel → ℕ → Bool
is_idle k p = (pcb_at k p).pid == k.idle_pid

-- The same processes have the same pids.
abbrev SamePids : Kernel → Kernel → Type 0
SamePids k k' = ((p : ℕ) → (pcb_at k' p).pid ≡ (pcb_at k p).pid) × (k'.idle_pid ≡ k.idle_pid)

ready-SamePids : (k : Kernel) (p : ℕ) → SamePids k (ready k p)
unfolding ready
ready-SamePids k p = (
  (λ q.
      get_or-set_keeps (λ (x : Pcb). x.pid) k.proctab p q (record (pcb_at k p) { state = runnable })
        no_pcb refl),
  refl,
)

-- After one `sys_yield`, `p` runs and `queue` is left.
abbrev Yielded : Kernel → ℕ → List ℕ → Type 0
Yielded k p queue =
    (k' : Kernel) × (sys_yield k ≡ some k')
    × (k'.current ≡ p)
    × (k'.ready_queue ≡ queue)
    × SamePids k k'

next_of_first :
    (k : Kernel) (p : ℕ) (rest : List ℕ)
    → is_idle k p ≡ false
    → next_of k (p ∷ rest) ≡ some (p, record k { ready_queue = rest })
unfolding next_of
next_of_first k p [] i = refl
next_of_first k p (q ∷ qs) i = rw i

next_of_idle :
    (k : Kernel) (p q : ℕ) (qs : List ℕ)
    → is_idle k p ≡ true
    → next_of k (p ∷ q ∷ qs) ≡ some (q, record (ready k p) { ready_queue = qs ++ p ∷ [] })
unfolding next_of
next_of_idle k p q qs i = rw i

-- What `sys_yield` does with the queue `queue` once the process that calls it is on it.
yield_next :
    (k k' : Kernel) (queue : List ℕ) (p : ℕ)
    → (ready k k.current).ready_queue ≡ queue
    → next_of (ready k k.current) queue ≡ some (p, k')
    → sys_yield k ≡ some (record k' { current = p })
unfolding sys_yield
yield_next k k' queue p e n =
    ap
      (λ (o : Option (ℕ × Kernel)). elim o [
        | none ↦ none
        | some (q, t) ↦ some (record t { current = q })
      ])
      (ap (next_of (ready k k.current)) e ∙ n)

idle_after : (k : Kernel) (p q : ℕ) (b : Bool) → is_idle k p ≡ b → is_idle (ready k q) p ≡ b
unfolding ready
idle_after k p q b i = ap (λ x. x == k.idle_pid) ((ready-SamePids k q).0 p) ∙ i

yield_first :
    (k : Kernel) (p : ℕ) (rest : List ℕ)
    → k.ready_queue ≡ p ∷ rest
    → is_idle k p ≡ false
    → Yielded k p (rest ++ k.current ∷ [])
unfolding ready
yield_first k p rest e i =
    let k1 = ready k k.current in
    let queue = rest ++ k.current ∷ [] in
    (
      record k1 { ready_queue = queue; current = p },
      yield_next k (record k1 { ready_queue = queue }) (p ∷ queue) p
          (ap (λ l. l ++ k.current ∷ []) e)
          (next_of_first k1 p queue (idle_after k p k.current false i)),
      refl,
      refl,
      ready-SamePids k k.current,
    )

yield_idle :
    (k : Kernel) (p q : ℕ) (rest : List ℕ)
    → k.ready_queue ≡ p ∷ q ∷ rest
    → is_idle k p ≡ true
    → Yielded k q (rest ++ k.current ∷ p ∷ [])
unfolding ready
yield_idle k p q rest e i =
    let k1 = ready k k.current in
    let k2 = ready k1 p in
    let queue = (rest ++ k.current ∷ []) ++ p ∷ [] in
    (
      record k2 { ready_queue = queue; current = q },
      yield_next k (record k2 { ready_queue = queue }) (p ∷ q ∷ rest ++ k.current ∷ []) q
          (ap (λ l. l ++ k.current ∷ []) e)
          (next_of_idle k1 p q (rest ++ k.current ∷ []) (idle_after k p k.current true i)),
      refl,
      append_assoc rest (k.current ∷ []) (p ∷ []),
      ((λ x. (ready-SamePids k1 p).0 x ∙ (ready-SamePids k k.current).0 x), refl),
    )

-- `n` times `sys_yield`
abbrev pub yields : ℕ → Kernel → Option Kernel
yields zero k = some k
yields (suc n) k = elim (sys_yield k) [ none ↦ none | some k' ↦ yields n k' ]

yields_step :
    (n : ℕ) (k k' k'' : Kernel)
    → sys_yield k ≡ some k'
    → yields n k' ≡ some k''
    → yields (suc n) k ≡ some k''
yields_step n k k' k'' e f =
    ap (λ (o : Option Kernel). elim o [ none ↦ none | some t ↦ yields n t ]) e ∙ f

still : (k k' : Kernel) (p : ℕ) → SamePids k k' → is_idle k p ≡ false → is_idle k' p ≡ false
still k k' p same i = rw (same.0 p, same.1) i

-- A process that is in the ready queue and is not the idle process runs after at most as many
-- calls of `sys_yield`, one after the other by whichever processes run, as its place in the
-- queue, counted from 1.
pub yields_reach :
    (front : List ℕ) (k : Kernel) (p : ℕ) (back : List ℕ)
    → k.ready_queue ≡ front ++ p ∷ back
    → is_idle k p ≡ false
    → (n : ℕ) × (n ≤ suc (length front))
      × ((k' : Kernel) × (yields n k ≡ some k') × (k'.current ≡ p))
yields_reach [] k p back e i =
    let (k', y, c, q, same) = yield_first k p back e i in
    (1, omega arith, (k', yields_step 0 k k' k' y refl, c))
yields_reach (x ∷ []) k p back e i = elim (Bool-cases (is_idle k x)) [
  | inl idle ↦
      let (k', y, c, q, same) = yield_idle k x p back e idle in
      (1, omega arith, (k', yields_step 0 k k' k' y refl, c))
  | inr busy ↦
      let (k', y, c, q, same) = yield_first k x (p ∷ back) e busy in
      let (n, le, (k'', ys, c')) =
        yields_reach [] k' p (back ++ k.current ∷ []) q (still k k' p same i) in
      (suc n, omega (arith, le), (k'', yields_step n k k' k'' y ys, c'))
]
yields_reach (x ∷ y ∷ front) k p back e i = elim (Bool-cases (is_idle k x)) [
  | inl idle ↦
      let (k', s, c, q, same) = yield_idle k x y (front ++ p ∷ back) e idle in
      let q' = q ∙ append_assoc front (p ∷ back) (k.current ∷ x ∷ []) in
      let (n, le, (k'', ys, c')) =
        yields_reach front k' p (back ++ k.current ∷ x ∷ []) q' (still k k' p same i) in
      (suc n, omega (arith, le), (k'', yields_step n k k' k'' s ys, c'))
  | inr busy ↦
      let (k', s, c, q, same) = yield_first k x (y ∷ front ++ p ∷ back) e busy in
      let q' = q ∙ ap (λ l. y ∷ l) (append_assoc front (p ∷ back) (k.current ∷ [])) in
      let (n, le, (k'', ys, c')) =
        yields_reach (y ∷ front) k' p (back ++ k.current ∷ []) q' (still k k' p same i) in
      (suc n, omega (arith, le), (k'', yields_step n k k' k'' s ys, c'))
]
