-- ===== src/Proc/Tests.antt =====
-- Runs of the scheduler and of `__kill` at concrete inputs.
use telos.Prelude.{
  ℕ, ◌<◌, ◌≤◌, ◌≡◌, refl, ◌∙◌, ◌⊎◌, none, some, false, List, [], ◌∷◌, arith, length, length-set,
  replicate, set,
}
use telos.Errno.{fail, esrch}
use telos.Proc.{
  Kernel, Pcb, runnable, interruptible, is_dead, no_pcb, pcb_at, get_pcb, wake, proctab_init,
  pcb_clone,
}
use telos.Proc.Kill.{kill, sys_kill}
use telos.Proc.Table.{
  Placed, Forked, set-Placed, length-proctab_init, proctab_init-Placed, pcb_clone-Forked,
}
use telos.Proc.Round.{yields, yields_reach}
use telos.Proc.Wake.{IsQueued, kill-IsQueued, wake_again}
use telos.Proc.Sent.{sys_kill_cases, Killed}

abbrev empty_table : List Pcb
empty_table = proctab_init 0 (replicate 256 no_pcb)

empty_table-Placed : Placed empty_table
empty_table-Placed = proctab_init-Placed (replicate 256 no_pcb) (omega arith)

abbrev first_process : Pcb
first_process = record no_pcb { pid = 1; state = runnable }

abbrev one_process : Kernel
one_process = record {
  proctab = set empty_table 1 first_process;
  current = 1;
  ready_queue = 3 ∷ 4 ∷ [];
  zombies = [];
  idle_pid = 7;
  f_counts = [];
  free_statuses = 1;
}

one_process-Placed : Placed one_process.proctab
one_process-Placed = set-Placed empty_table 1 first_process empty_table-Placed refl

one_process_size : length one_process.proctab ≡ 256
one_process_size =
    length-set empty_table 1 first_process ∙ length-proctab_init (replicate 256 no_pcb) 0

first_alive : is_dead (pcb_at one_process 1).state ≡ false
unfolding proctab_init
first_alive = refl

pcb_clone-Forked_example :
    ((pcb_clone one_process ≡ none)
      × ((p : ℕ) → p < 256 → is_dead (pcb_at one_process p).state ≡ false))
    ⊎ ((p : ℕ) × (k : Kernel) × (pcb_clone one_process ≡ some (p, k)) × Forked one_process p k)
pcb_clone-Forked_example =
    pcb_clone-Forked one_process one_process-Placed one_process_size (omega arith) first_alive

yields_reach_example :
    (n : ℕ) × (n ≤ 2) × ((k : Kernel) × (yields n one_process ≡ some k) × (k.current ≡ 4))
unfolding proctab_init
yields_reach_example = yields_reach (3 ∷ []) one_process 4 [] refl refl

-- A process that sleeps at place 0, and one that waits in the queue at place 1.
abbrev one_asleep : Kernel
one_asleep = record one_process {
  proctab = record no_pcb { pid = 256; state = interruptible } ∷ first_process ∷ [];
  ready_queue = 1 ∷ [];
}

one_asleep-IsQueued : IsQueued one_asleep
one_asleep-IsQueued = record { in_table = (omega arith, tt); once = (tt, tt); runs = (refl, tt) }

kill-IsQueued_example : IsQueued (kill one_asleep 0 1 1)
kill-IsQueued_example = kill-IsQueued one_asleep 0 1 1 one_asleep-IsQueued (omega arith)

wake_again_run :
    ((wake one_asleep 1 0).ready_queue ≡ 1 ∷ 1 ∷ []) × (IsQueued (wake one_asleep 1 0) → ⊥)
wake_again_run = wake_again one_asleep 1 0 [] [] refl

sys_kill_cases_example :
    ((get_pcb one_asleep 256 ≡ none) × (sys_kill one_asleep 256 1 ≡ (fail esrch, one_asleep)))
    ⊎ ((p : ℕ) × (get_pcb one_asleep 256 ≡ some p) × Killed one_asleep 256 1 p)
sys_kill_cases_example = sys_kill_cases one_asleep 256 1
