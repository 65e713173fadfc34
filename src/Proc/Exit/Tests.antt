-- ===== src/Proc/Exit/Tests.antt =====
-- A family at concrete inputs: init, a parent, its child that ends, and that one's child.
use telos.Prelude.{
  ℕ, ◌%◌, ◌^◌, ◌≡◌, refl, none, some, true, false, List, [], ◌∷◌, ◌++◌, All, arith, ◌⊎◌, ◌==◌, ◌||◌,
}
use telos.Errno.{echild}
use telos.Proc.{Kernel, Pcb, ProcStatus, runnable, is_dead, no_pcb, pcb_at, get_pcb}
use telos.Proc.Kill.{make_status, how_exited, how_signaled, whow, wvalue, status_to_si_code}
use telos.Proc.Exit.{
  do_exit, sys_waitid, get_status, status_matches, WaitInfo, waited_for, wait_fails, wexited,
}
use telos.Proc.Exit.Ended.{Ended, do_exit-Ended}
use telos.Proc.Exit.Matching.{get_status_first}
use telos.Proc.Exit.Collect.{Collected, sys_waitid-Collected}
use telos.Proc.Exit.Round.{do_exit-waited, do_exit_orphans_unwaited}

abbrev process : ℕ → ℕ → List ℕ → List ProcStatus → Pcb
process pid parent kids stats = record no_pcb {
  pid = pid;
  parent_pid = parent;
  state = runnable;
  children = kids;
  child_stats = stats;
}

abbrev kernel : List ProcStatus → Kernel
kernel stats = record {
  proctab =
      no_pcb
      ∷ process 1 1 [] []
      ∷ process 2 1 (3 ∷ []) stats
      ∷ process 3 2 (4 ∷ []) []
      ∷ process 4 3 [] []
      ∷ [];
  current = 3;
  ready_queue = [];
  zombies = [];
  idle_pid = 9;
  f_counts = [];
  free_statuses = 5;
}

abbrev release : ℕ → Kernel → Kernel
release f k = k

abbrev exited : ProcStatus
exited = record { pid = 3; status = 29 }

-- `exit(7)` of the child leaves 7 * 4 + 1.
status_runs : make_status how_exited 7 ≡ 29
unfolding make_status
status_runs = refl

third : (k : List ProcStatus) → get_pcb (kernel k) 3 ≡ some 3
unfolding get_pcb
third k = refl

second : get_pcb (kernel []) 2 ≡ some 2
unfolding get_pcb
second = refl

first : get_pcb (kernel []) 1 ≡ some 1
unfolding get_pcb
first = refl

do_exit-Ended_example :
    (k' : Kernel) × (do_exit release (kernel []) 3 7 ≡ some k') × Ended (kernel []) 3 2 1 7 k'
do_exit-Ended_example =
    do_exit-Ended release (λ f j p. refl) (kernel []) 3 2 1 7 second first
      (λ e. absurd (omega arith)) (λ e. absurd (omega arith)) (λ e. absurd (omega arith)) refl
      (refl, tt)

do_exit-waited_example :
    (k' : Kernel) × (k'' : Kernel) × (info : WaitInfo) × (do_exit release (kernel []) 3 7 ≡ some k')
    × (sys_waitid (record k' { current = 2 }) 0 0 wexited true ≡ some (waited_for info, k''))
    × (info.pid ≡ 3)
    × (info.status ≡ 7 % 2 ^ 30)
    × (is_dead (pcb_at k'' 3).state ≡ true)
    × (get_pcb k'' 3 ≡ none)
do_exit-waited_example =
    do_exit-waited release (kernel []) 3 2 1 7 (λ f j p. refl) second (third []) first
      (λ e. absurd (omega arith)) (λ e. absurd (omega arith)) (λ e. absurd (omega arith))
      (λ e. absurd (omega arith)) (refl, tt) refl (λ e. absurd (omega arith))

do_exit_orphans_unwaited_example :
    (k' : Kernel) × (do_exit release (kernel []) 3 7 ≡ some k')
    × All (λ c. (pcb_at k' c).parent_pid ≡ 1) (4 ∷ [])
    × (sys_waitid (record k' { current = 1 }) 0 0 wexited true
        ≡ some (wait_fails echild, record k' { current = 1 }))
do_exit_orphans_unwaited_example =
    do_exit_orphans_unwaited release (kernel []) 3 2 1 7 0 0 wexited (λ f j p. refl) second first
      (λ e. absurd (omega arith)) (λ e. absurd (omega arith)) (λ e. absurd (omega arith)) refl
      (refl, tt) refl

abbrev parent_waits : Kernel
parent_waits = record (kernel (exited ∷ [])) { current = 2 }

found_exited : get_status 0 0 wexited (exited ∷ []) ≡ some (exited, [])
unfolding get_status status_matches whow
found_exited = refl

ended : (whow exited.status == how_exited || whow exited.status == how_signaled) ≡ true
unfolding whow
ended = refl

child : get_pcb parent_waits 3 ≡ some 3
unfolding get_pcb
child = refl

sys_waitid-Collected_example :
    (info : WaitInfo) × (k' : Kernel) × (sys_waitid parent_waits 0 0 wexited true
      ≡ some (waited_for info, k'))
    × (info.pid ≡ 3)
    × (info.status ≡ wvalue 29)
    × (info.code ≡ status_to_si_code 29)
    × Collected parent_waits 3 [] k'
sys_waitid-Collected_example =
    sys_waitid-Collected parent_waits 0 0 wexited 3 exited [] (λ e. absurd (omega arith))
      found_exited ended child (omega arith) (omega arith) (λ e. absurd (omega arith))

get_status_first_example :
    ((get_status 0 0 wexited (exited ∷ []) ≡ none)
      × All (λ s. status_matches 0 0 wexited s ≡ false) (exited ∷ []))
    ⊎ ((front : List ProcStatus) × (back : List ProcStatus) × (s : ProcStatus) × (exited ∷ []
          ≡ front ++ s ∷ back)
        × All (λ t. status_matches 0 0 wexited t ≡ false) front
        × (status_matches 0 0 wexited s ≡ true)
        × (get_status 0 0 wexited (exited ∷ []) ≡ some (s, front ++ back)))
get_status_first_example = get_status_first 0 0 wexited (exited ∷ [])
