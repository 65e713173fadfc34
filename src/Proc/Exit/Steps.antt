-- ===== src/Proc/Exit/Steps.antt =====
-- The steps of `do_exit` (dispatch/process.c), one by one.
use telos.Prelude.{
  ℕ, ◌-◌, some, false, [], ◌≡◌, ◌≢◌, refl, ap, sym, ◌∙◌, arith, get_or-set_ne, get_or-set_keeps,
  ==-ne,
}
use telos.Proc.{Kernel, Pcb, zombified, no_pcb, pcb_at, with_pcb, get_pcb, zombie, nr_files}
use telos.Proc.Kill.{assert_status, report_status, make_status, how_exited}
use telos.Proc.Exit.{close_files, reparent, give_statuses, leave_family, do_exit}
use telos.Proc.Exit.Family.{Family, family_of, family}
use telos.Proc.Exit.Adopt.{reparent_keeps, get_pcb_ext}

pub report_status_told :
    (k : Kernel) (p q how val : ℕ)
    → get_pcb k (pcb_at k p).parent_pid ≡ some q
    → k.free_statuses ≢ 0
    → report_status k p how val
      ≡ some (
          assert_status
            (record k { free_statuses = k.free_statuses - 1 })
            q
            (record { pid = (pcb_at k p).pid; status = make_status how val }))
unfolding report_status
report_status_told k p q how val e m = rw (e, report_status) (rw (==-ne k.free_statuses 0 m) refl)

pub leave_family_told :
    (k : Kernel) (p init : ℕ)
    → get_pcb k 1 ≡ some init
    → let k' = reparent (pcb_at k p).children k in
      leave_family k p
      ≡ some (
          give_statuses init
            (pcb_at k' p).child_stats
            (with_pcb k' p (record (pcb_at k' p) { child_stats = [] })))
unfolding leave_family
leave_family_told k p init e =
    let k' = reparent (pcb_at k p).children k in
    let same = reparent_keeps (pcb_at k p).children k in
    let found =
      get_pcb_ext k k' 1 (λ q. ap (λ (f : Family). f.gone) (same q))
        (λ q. ap (λ (f : Family). f.pid) (same q)) in
    rw (found ∙ e, leave_family) refl

pub do_exit_told :
    (release : ℕ → Kernel → Kernel) (k k1 k2 : Kernel) (p status : ℕ)
    → report_status k p how_exited status ≡ some k1
    → leave_family (close_files release nr_files 0 k1) p ≡ some k2
    → do_exit release k p status ≡ some (zombie k2 p)
unfolding do_exit
do_exit_told release k k1 k2 p status e f = rw (e, do_exit) (rw f refl)

pub zombie_other : (k : Kernel) (p q : ℕ) → q ≢ p → family (zombie k p) q ≡ family k q
unfolding zombie
zombie_other k p q ne = ap family_of (get_or-set_ne k.proctab p q _ no_pcb (λ e. ne (sym e)))

pub zombie_keeps {ℓ} :
    {A : Type ℓ} (f : Pcb → A) (k : Kernel) (p q : ℕ)
    → ((x : Pcb) → f (record x { state = zombified }) ≡ f x)
    → f (pcb_at (zombie k p) q) ≡ f (pcb_at k q)
unfolding zombie
zombie_keeps f k p q e = get_or-set_keeps f k.proctab p q _ no_pcb (e (pcb_at k p))

pub get_pcb_alive : (k : Kernel) (pid p : ℕ) → get_pcb k pid ≡ some p → (family k p).gone ≡ false
unfolding get_pcb family_of
get_pcb_alive k pid p e = ground arith
