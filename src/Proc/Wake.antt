-- ===== src/Proc/Wake.antt =====
-- Waking: the ready queue, and what `__kill` does to it.
use mathlib.Core.Path.{subst}
use telos.Prelude.{
  ℕ, ◌<◌, ◌≡◌, ◌≢◌, refl, ap, sym, ◌∙◌, ◌==◌, Bool, true, false, ◌||◌, List, [], ◌∷◌, ◌++◌, arith,
  All, All-append, All-mono, length, get_or, set, get_or-set_self, get_or-set_ne, Bool-cases, inl,
  inr, length-set, get_or-set_keeps,
}
use native.Mathlib.Decide.{ℕ_discrete}
use telos.Signal.{signal_accepted, sigchld}
use telos.Proc.{
  Kernel, Pcb, ProcState, runnable, sigwait, waiting, interruptible, no_pcb, pcb_at, with_pcb,
  ready, wake,
}
use telos.Proc.Kill.{needs_wake, post, kill}

abbrev pub is_runnable : ProcState → Bool
is_runnable runnable = true
is_runnable _ = false

-- No place stands in the queue twice.
abbrev pub Once : List ℕ → Type 0
Once [] = Unit
Once (p ∷ ps) = All (λ q. p ≢ q) ps × Once ps

-- The ready queue holds places of the table, each once, and of runnable processes only.
pub record IsQueued (k : Kernel) : Type 0 where
  pub in_table : All (λ p. p < length k.proctab) k.ready_queue
  pub once : Once k.ready_queue
  pub runs : All (λ p. is_runnable (pcb_at k p).state ≡ true) k.ready_queue

Once-append : (ps : List ℕ) (p : ℕ) → Once ps → All (λ q. q ≢ p) ps → Once (ps ++ p ∷ [])
Once-append [] p o a = (tt, tt)
Once-append (x ∷ ps) p o a =
    (All-append (λ q. x ≢ q) ps (p ∷ []) o.0 (a.0, tt), Once-append ps p o.1 a.1)

-- A process whose state is another does not stand in the queue.
not_queued :
    (k : Kernel) (p : ℕ)
    → IsQueued k
    → is_runnable (pcb_at k p).state ≡ false
    → All (λ q. q ≢ p) k.ready_queue
not_queued k p good h =
    All-mono (λ q. is_runnable (pcb_at k q).state ≡ true) (λ q. q ≢ p) k.ready_queue
      (λ q r e. ground (arith, ap (λ x. is_runnable (pcb_at k x).state) e)) good.runs

still_runs :
    (ps : List Pcb) (p q : ℕ) (v : Pcb)
    → p < length ps
    → is_runnable v.state ≡ true
    → is_runnable (get_or ps q no_pcb).state ≡ true
    → is_runnable (get_or (set ps p v) q no_pcb).state ≡ true
still_runs ps p q v h e r = elim (ℕ_discrete p q) [
  | yes same ↦
      ap (λ j. is_runnable (get_or (set ps p v) j no_pcb).state) (sym same)
      ∙ ap (λ (x : Pcb). is_runnable x.state) (get_or-set_self ps p v no_pcb h)
      ∙ e
  | no other ↦ ap (λ (x : Pcb). is_runnable x.state) (get_or-set_ne ps p q v no_pcb other) ∙ r
]

-- A change of a process that keeps its state does nothing to the queue.
pub with_pcb-IsQueued :
    (k : Kernel) (p : ℕ) (v : Pcb)
    → v.state ≡ (pcb_at k p).state
    → IsQueued k
    → IsQueued (with_pcb k p v)
with_pcb-IsQueued k p v e good = record {
  in_table =
      All-mono (λ q. q < length k.proctab) (λ q. q < length (set k.proctab p v)) k.ready_queue
        (λ q l. omega (arith, length-set k.proctab p v)) good.in_table;
  once = good.once;
  runs =
      All-mono (λ q. is_runnable (pcb_at k q).state ≡ true)
        (λ q. is_runnable (get_or (set k.proctab p v) q no_pcb).state ≡ true) k.ready_queue
        (λ q r.
          ap is_runnable (get_or-set_keeps (λ (x : Pcb). x.state) k.proctab p q v no_pcb e) ∙ r)
        good.runs;
}

-- Making a process ready that is not yet keeps the queue as it should be.
ready-IsQueued :
    (k : Kernel) (p : ℕ)
    → IsQueued k
    → p < length k.proctab
    → is_runnable (pcb_at k p).state ≡ false
    → IsQueued (ready k p)
unfolding ready
ready-IsQueued k p good h n =
    let v : Pcb = record (pcb_at k p) { state = runnable } in
    let apart = not_queued k p good n in
    record {
      in_table =
          All-append (λ q. q < length (set k.proctab p v)) k.ready_queue (p ∷ [])
            (All-mono (λ q. q < length k.proctab) (λ q. q < length (set k.proctab p v))
              k.ready_queue (λ q l. omega (arith, length-set k.proctab p v)) good.in_table)
            (omega (arith, length-set k.proctab p v), tt);
      once = Once-append k.ready_queue p good.once apart;
      runs =
          All-append (λ q. is_runnable (get_or (set k.proctab p v) q no_pcb).state ≡ true)
            k.ready_queue (p ∷ [])
            (All-mono (λ q. is_runnable (pcb_at k q).state ≡ true)
              (λ q. is_runnable (get_or (set k.proctab p v) q no_pcb).state ≡ true) k.ready_queue
              (λ q r. still_runs k.proctab p q v h refl r) good.runs)
            (ap (λ (x : Pcb). is_runnable x.state) (get_or-set_self k.proctab p v no_pcb h), tt);
    }

wake-IsQueued :
    (k : Kernel) (p rc : ℕ)
    → IsQueued k
    → p < length k.proctab
    → is_runnable (pcb_at k p).state ≡ false
    → IsQueued (wake k p rc)
unfolding wake
wake-IsQueued k p rc good h n =
    let v : Pcb = record (pcb_at k p) { rc = rc } in
    ready-IsQueued (with_pcb k p v) p (with_pcb-IsQueued k p v refl good)
      (omega (arith, length-set k.proctab p v))
      (ap (λ (x : Pcb). is_runnable x.state) (get_or-set_self k.proctab p v no_pcb h) ∙ n)

post_state : (x : Pcb) (n code pid : ℕ) → (post x n code pid).state ≡ x.state
unfolding post
post_state x n code pid = refl

needs_wake_sleeps : (x : Pcb) (n : ℕ) → needs_wake x n ≡ true → is_runnable x.state ≡ false
unfolding needs_wake
needs_wake_sleeps x n e = sleeps x.state e
  where
    sleeps :
        (s : ProcState)
        → elim s [
          | sigwait ↦ true
          | interruptible ↦ signal_accepted x.sig n
          | waiting ↦ n == sigchld || signal_accepted x.sig n
          | t ↦ false
        ]
          ≡ true
        → is_runnable s ≡ false
    sleeps runnable e = absurd (ground arith)
    sleeps s e = refl

-- If the ready queue holds each place once and only runnable processes, it still does after a
-- signal is sent to any process of the table: only processes that sleep are woken.
pub kill-IsQueued :
    (k : Kernel) (p n code : ℕ) → IsQueued k → p < length k.proctab → IsQueued (kill k p n code)
unfolding kill
kill-IsQueued k p n code good h =
    let v : Pcb = post (pcb_at k p) n code (pcb_at k k.current).pid in
    let k' = with_pcb k p v in
    let good' =
      with_pcb-IsQueued k p v (post_state (pcb_at k p) n code (pcb_at k k.current).pid) good in
    elim (Bool-cases (needs_wake (pcb_at k' p) n)) [
      | inl w ↦ rw w (
          wake-IsQueued k' p n good' (omega (arith, length-set k.proctab p v))
            (needs_wake_sleeps (pcb_at k' p) n w))
      | inr w ↦ rw w good'
    ]

last_of : (P : ℕ → Type 0) (ps : List ℕ) (p : ℕ) → All P (ps ++ p ∷ []) → P p
last_of P [] p a = a.0
last_of P (x ∷ ps) p a = last_of P ps p a.1

not_twice : (front back : List ℕ) (p : ℕ) → Once ((front ++ p ∷ back) ++ p ∷ []) → ⊥
not_twice [] back p o = last_of (λ q. p ≢ q) back p o.0 refl
not_twice (x ∷ front) back p o = not_twice front back p o.1

-- `wake` does not look at the state: on a process that waits in the ready queue it puts it there a
-- second time. `wake_action` of a timer and `wake_all` call it like that.
pub wake_again :
    (k : Kernel) (p rc : ℕ) (front back : List ℕ)
    → k.ready_queue ≡ front ++ p ∷ back
    → ((wake k p rc).ready_queue ≡ (front ++ p ∷ back) ++ p ∷ []) × (IsQueued (wake k p rc) → ⊥)
unfolding wake ready
wake_again k p rc front back e =
    let twice : (wake k p rc).ready_queue ≡ (front ++ p ∷ back) ++ p ∷ [] =
      ap (λ l. l ++ p ∷ []) e in
    (twice, λ q. not_twice front back p (subst Once twice q.once))
