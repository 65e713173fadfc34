-- ===== src/Proc/Sent.antt =====
-- What a signal that is sent changes, and the outcomes of `sys_kill`.
use telos.Prelude.{
  ℕ, ◌<◌, ◌≡◌, ◌≢◌, refl, ap, sym, ◌∙◌, none, some, true, false, ◌⊎◌, arith, length, get_or, set,
  get_or-set_self, get_or-set_ne, Bool-cases, Option-cases, inl, inr, get_or-set_keeps,
}
use native.Mathlib.Decide.{ℕ_discrete}
use telos.Errno.{ok, fail, esrch, einval}
use telos.Signal.{SigStruct, signo_valid, sigaddset}
use telos.Proc.{Kernel, Pcb, runnable, no_pcb, pcb_at, with_pcb, get_pcb, ready, wake}
use telos.Proc.Kill.{needs_wake, post, kill, sys_kill, si_user}

wake_other : (k : Kernel) (p rc q : ℕ) → q ≢ p → pcb_at (wake k p rc) q ≡ pcb_at k q
unfolding wake ready
wake_other k p rc q ne =
    let v : Pcb = record (pcb_at k p) { rc = rc } in
    let v' : Pcb = record (get_or (set k.proctab p v) p no_pcb) { state = runnable } in
    get_or-set_ne (set k.proctab p v) p q v' no_pcb (λ e. ne (sym e))
    ∙ get_or-set_ne k.proctab p q v no_pcb (λ e. ne (sym e))

wake_sig : (k : Kernel) (p rc q : ℕ) → (pcb_at (wake k p rc) q).sig ≡ (pcb_at k q).sig
unfolding wake ready
wake_sig k p rc q =
    let v : Pcb = record (pcb_at k p) { rc = rc } in
    let v' : Pcb = record (get_or (set k.proctab p v) p no_pcb) { state = runnable } in
    get_or-set_keeps (λ (x : Pcb). x.sig) (set k.proctab p v) p q v' no_pcb refl
    ∙ get_or-set_keeps (λ (x : Pcb). x.sig) k.proctab p q v no_pcb refl

kill_other : (k : Kernel) (p n code q : ℕ) → q ≢ p → pcb_at (kill k p n code) q ≡ pcb_at k q
unfolding kill
kill_other k p n code q ne =
    let v : Pcb = post (pcb_at k p) n code (pcb_at k k.current).pid in
    let k' = with_pcb k p v in
    let same : pcb_at k' q ≡ pcb_at k q = get_or-set_ne k.proctab p q v no_pcb (λ e. ne (sym e)) in
    elim (Bool-cases (needs_wake (pcb_at k' p) n)) [
      | inl w ↦ rw w (wake_other k' p n q ne ∙ same)
      | inr w ↦ rw w same
    ]

post_pending :
    (x : Pcb) (n code pid : ℕ) → (post x n code pid).sig.pending ≡ sigaddset x.sig.pending n
unfolding post
post_pending x n code pid = ground arith

kill_pending :
    (k : Kernel) (p n code : ℕ)
    → p < length k.proctab
    → (pcb_at (kill k p n code) p).sig.pending ≡ sigaddset (pcb_at k p).sig.pending n
unfolding kill
kill_pending k p n code h =
    let v : Pcb = post (pcb_at k p) n code (pcb_at k k.current).pid in
    let k' = with_pcb k p v in
    let here : (pcb_at k' p).sig.pending ≡ sigaddset (pcb_at k p).sig.pending n =
      ap (λ (x : Pcb). x.sig.pending) (get_or-set_self k.proctab p v no_pcb h)
      ∙ post_pending (pcb_at k p) n code (pcb_at k k.current).pid in
    elim (Bool-cases (needs_wake (pcb_at k' p) n)) [
      | inl w ↦ rw w (ap (λ (x : SigStruct). x.pending) (wake_sig k' p n p) ∙ here)
      | inr w ↦ rw w here
    ]

-- What `sys_kill` does to the process at `p`: nothing, or what `__kill` does.
abbrev pub Killed : Kernel → ℕ → ℕ → ℕ → Type 0
Killed k pid n p =
    ((n ≡ 0) × (sys_kill k pid n ≡ (ok, k)))
    ⊎ ((n ≢ 0) × (signo_valid n ≡ false) × (sys_kill k pid n ≡ (fail einval, k)))
    ⊎ ((signo_valid n ≡ true)
        × (sys_kill k pid n ≡ (ok, kill k p n si_user))
        × ((q : ℕ) → q ≢ p → pcb_at (kill k p n si_user) q ≡ pcb_at k q)
        × (p < length k.proctab
            → (pcb_at (kill k p n si_user) p).sig.pending ≡ sigaddset (pcb_at k p).sig.pending n))

sys_kill-Killed : (k : Kernel) (pid n p : ℕ) → get_pcb k pid ≡ some p → Killed k pid n p
unfolding sys_kill
sys_kill-Killed k pid n p e = elim (ℕ_discrete n 0) [
  | yes z ↦ inl (z, rw (e, sys_kill) (ground arith))
  | no nz ↦ elim (Bool-cases (signo_valid n)) [
    | inl v ↦ inr (
        inr (
          v,
          rw (e, sys_kill, v) (ground arith),
          (λ q. kill_other k p n si_user q),
          kill_pending k p n si_user,
        ))
    | inr v ↦ inr (inl (nz, v, rw (e, sys_kill, v) (ground arith)))
  ]
]

-- Without such a process `sys_kill` fails and changes nothing. Signal 0 only asks whether the
-- process is there, and an invalid signal is refused; any other is handed to `__kill`, after which
-- it is pending for the process, and no other process has changed.
pub sys_kill_cases :
    (k : Kernel) (pid n : ℕ)
    → ((get_pcb k pid ≡ none) × (sys_kill k pid n ≡ (fail esrch, k)))
      ⊎ ((p : ℕ) × (get_pcb k pid ≡ some p) × Killed k pid n p)
unfolding sys_kill
sys_kill_cases k pid n = elim (Option-cases (get_pcb k pid)) [
  | inl e ↦ inl (e, rw (e, sys_kill))
  | inr (p, e) ↦ inr (p, e, sys_kill-Killed k pid n p e)
]
