-- ===== src/Proc/Exit/Adopt.antt =====
-- Orphans are given to init (`do_exit` of dispatch/process.c).
use telos.Prelude.{
  ℕ, suc, zero, ◌<◌, ◌==◌, if◌then◌else◌, none, some, Bool, false, not, ◌&&◌, List, [], ◌∷◌, get_or,
  length, ◌≡◌, refl, ap, ap₂, ◌∙◌, arith, All, All-mono, get_or-set_self, get_or-set_ne,
  get_or-set_keeps, length-set, bit_and,
}
use native.Mathlib.Decide.{ℕ_discrete}
use telos.Proc.{Kernel, Pcb, no_pcb, pcb_at, with_pcb, get_pcb, pid_mask}
use telos.Proc.Exit.{reparent}
use telos.Proc.Exit.Family.{Family, family_of, family}

-- The family with init as the parent: what `reparent` leaves alone.
abbrev pub adopted : Family → Family
adopted f = record f { parent_pid = 1 }

adopt-family : (x : Pcb) → adopted (family_of (record x { parent_pid = 1 })) ≡ adopted (family_of x)
unfolding family_of
adopt-family x = refl

pub reparent_keeps :
    (cs : List ℕ) (k : Kernel) (q : ℕ) → adopted (family (reparent cs k) q) ≡ adopted (family k q)
unfolding reparent
reparent_keeps [] k q = refl
reparent_keeps (c ∷ cs) k q =
    reparent_keeps cs (with_pcb k c (record (pcb_at k c) { parent_pid = 1 })) q
    ∙ get_or-set_keeps (λ (x : Pcb). adopted (family_of x)) k.proctab c q _ no_pcb
        (adopt-family (pcb_at k c))

length-reparent : (cs : List ℕ) (k : Kernel) → length (reparent cs k).proctab ≡ length k.proctab
unfolding reparent
length-reparent [] k = refl
length-reparent (c ∷ cs) k = length-reparent cs _ ∙ length-set k.proctab c _

-- Only places of the table hold a process that is not gone.
pub alive_in_table :
    (ps : List Pcb) (p : ℕ) → (family_of (get_or ps p no_pcb)).gone ≡ false → p < length ps
unfolding family_of
alive_in_table [] p h = absurd (ground arith)
alive_in_table (x ∷ ps) zero h = omega arith
alive_in_table (x ∷ ps) (suc p) h = omega (arith, alive_in_table ps p h)

stays_adopted :
    (cs : List ℕ) (k : Kernel) (q : ℕ)
    → (pcb_at k q).parent_pid ≡ 1
    → q < length k.proctab
    → (pcb_at (reparent cs k) q).parent_pid ≡ 1
unfolding reparent
stays_adopted [] k q e h = e
stays_adopted (c ∷ cs) k q e h =
    let v : Pcb = record (pcb_at k c) { parent_pid = 1 } in
    let here : (pcb_at (with_pcb k c v) q).parent_pid ≡ 1 = elim (ℕ_discrete c q) [
      | yes same ↦ rw same (ap (λ (x : Pcb). x.parent_pid) (get_or-set_self k.proctab q _ no_pcb h))
      | no other ↦ ap (λ (x : Pcb). x.parent_pid) (get_or-set_ne k.proctab c q v no_pcb other) ∙ e
    ] in
    stays_adopted cs (with_pcb k c v) q here (omega (arith, length-set k.proctab c v))

pub reparent-All :
    (cs : List ℕ) (k : Kernel)
    → All (λ c. c < length k.proctab) cs
    → All (λ c. (pcb_at (reparent cs k) c).parent_pid ≡ 1) cs
unfolding reparent
reparent-All [] k h = tt
reparent-All (c ∷ cs) k h =
    let v : Pcb = record (pcb_at k c) { parent_pid = 1 } in
    let k' = with_pcb k c v in
    (
      stays_adopted cs k' c
          (ap (λ (x : Pcb). x.parent_pid) (get_or-set_self k.proctab c v no_pcb h.0))
          (omega (arith, length-set k.proctab c v, h.0)),
      reparent-All cs k' (
          All-mono (λ d. d < length k.proctab) (λ d. d < length k'.proctab) cs
            (λ d l. omega (arith, length-set k.proctab c v)) h.1),
    )

-- `get_pcb` looks at the family only.
pub get_pcb_ext :
    (k k' : Kernel) (pid : ℕ)
    → ((q : ℕ) → (family k' q).gone ≡ (family k q).gone)
    → ((q : ℕ) → (family k' q).pid ≡ (family k q).pid)
    → get_pcb k' pid ≡ get_pcb k pid
unfolding get_pcb family_of
get_pcb_ext k k' pid same_gone same_pid =
    let p = bit_and pid pid_mask in
    ap₂ (λ (d : Bool) (n : ℕ). if not d && n == pid then some p else none) (same_gone p)
      (same_pid p)
