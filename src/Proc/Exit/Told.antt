-- ===== src/Proc/Exit/Told.antt =====
-- Statuses that a process is given (`assert_status` of dispatch/process.c).
use telos.Prelude.{
  ℕ, ◌<◌, List, [], ◌∷◌, ◌++◌, set, length, ◌≡◌, ◌≢◌, refl, ap, sym, ◌∙◌, arith, inl, inr,
  Bool-cases, get_or-set_self, get_or-set_ne, get_or-set_keeps, length-set,
}
use telos.Proc.{Kernel, Pcb, ProcStatus, no_pcb, pcb_at, with_pcb, wake, ready}
use telos.Proc.Kill.{kill, post, needs_wake, assert_status}
use telos.Proc.Exit.{give_statuses}
use telos.Proc.Exit.Family.{Family, family_of, family, kill-SameFamilies}
use mathlib.Core.List.{append-nil, append_assoc}

-- A status more, for the process at place `i`.
abbrev pub told : List ProcStatus → Family → Family
told ss f = record f { child_stats = f.child_stats ++ ss }

length-wake : (k : Kernel) (p rc : ℕ) → length (wake k p rc).proctab ≡ length k.proctab
unfolding wake ready
length-wake k p rc = length-set (set k.proctab p _) p _ ∙ length-set k.proctab p _

length-kill : (k : Kernel) (p n code : ℕ) → length (kill k p n code).proctab ≡ length k.proctab
unfolding kill
length-kill k p n code =
    let v : Pcb = post (pcb_at k p) n code (pcb_at k k.current).pid in
    let k1 = with_pcb k p v in
    elim (Bool-cases (needs_wake (pcb_at k1 p) n)) [
      | inl w ↦ rw w (length-wake k1 p n ∙ length-set k.proctab p v)
      | inr w ↦ rw w (length-set k.proctab p v)
    ]

family-told :
    (x : Pcb) (ss : List ProcStatus)
    → family_of (record x { child_stats = x.child_stats ++ ss }) ≡ told ss (family_of x)
unfolding family_of
family-told x ss = refl

module _ (k : Kernel) (i : ℕ) (s : ProcStatus) where
  pub assert_status_self :
      i < length k.proctab → family (assert_status k i s) i ≡ told (s ∷ []) (family k i)
  unfolding assert_status
  assert_status_self h =
      kill-SameFamilies _ i _ _ i
      ∙ ap family_of (get_or-set_self k.proctab i _ no_pcb h)
      ∙ family-told (pcb_at k i) (s ∷ [])

  pub assert_status_other : (q : ℕ) → q ≢ i → family (assert_status k i s) q ≡ family k q
  unfolding assert_status
  assert_status_other q ne =
      kill-SameFamilies _ i _ _ q
      ∙ ap family_of (get_or-set_ne k.proctab i q _ no_pcb (λ e. ne (sym e)))

  pub length-assert_status : length (assert_status k i s).proctab ≡ length k.proctab
  unfolding assert_status
  length-assert_status = length-kill _ i _ _ ∙ length-set k.proctab i _

pub give_statuses_self :
    (i : ℕ) (ss : List ProcStatus) (k : Kernel)
    → i < length k.proctab
    → family (give_statuses i ss k) i ≡ told ss (family k i)
unfolding give_statuses
give_statuses_self i [] k h =
    ap (λ xs. record (family k i) { child_stats = xs }) (sym (append-nil (family k i).child_stats))
give_statuses_self i (s ∷ ss) k h =
    give_statuses_self i ss (assert_status k i s) (omega (arith, length-assert_status k i s))
    ∙ ap (told ss) (assert_status_self k i s h)
    ∙ ap (λ xs. record (family k i) { child_stats = xs })
        (append_assoc (family k i).child_stats (s ∷ []) ss)

pub give_statuses_other :
    (i : ℕ) (ss : List ProcStatus) (k : Kernel) (q : ℕ)
    → q ≢ i
    → family (give_statuses i ss k) q ≡ family k q
unfolding give_statuses
give_statuses_other i [] k q ne = refl
give_statuses_other i (s ∷ ss) k q ne =
    give_statuses_other i ss (assert_status k i s) q ne ∙ assert_status_other k i s q ne

-- What being told a status does not change.
module _ {ℓ} {A : Type ℓ} (f : Family → A)
    (keeps : (ss : List ProcStatus) (x : Family) → f (told ss x) ≡ f x) where
  pub assert_status_keeps :
      (k : Kernel) (i : ℕ) (s : ProcStatus) (q : ℕ)
      → f (family (assert_status k i s) q) ≡ f (family k q)
  unfolding assert_status
  assert_status_keeps k i s q =
      ap f (kill-SameFamilies _ i _ _ q)
      ∙ get_or-set_keeps (λ (x : Pcb). f (family_of x)) k.proctab i q _ no_pcb
          (ap f (family-told (pcb_at k i) (s ∷ [])) ∙ keeps (s ∷ []) (family k i))

  pub give_statuses_keeps :
      (i : ℕ) (ss : List ProcStatus) (k : Kernel) (q : ℕ)
      → f (family (give_statuses i ss k) q) ≡ f (family k q)
  unfolding give_statuses
  give_statuses_keeps i [] k q = refl
  give_statuses_keeps i (s ∷ ss) k q =
      give_statuses_keeps i ss (assert_status k i s) q ∙ assert_status_keeps k i s q
