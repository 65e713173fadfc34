-- ===== src/Proc/Wait.antt =====
-- Wait queues (include/kernel/wait.h, `wait_interruptible` of kernel/schedule.c). A queue is the
-- list of the places of the processes that wait; being woken does not take one off.
use telos.Prelude.{ℕ, List, [], ◌∷◌, ◌++◌, Bool, true, false}
use telos.Proc.{Kernel, interruptible, pcb_at, with_pcb, wake, dequeue}

unfoldable pub wait_queue_empty : List ℕ → Bool
wait_queue_empty [] = true
wait_queue_empty (p ∷ q) = false

unfoldable pub wake_first : Kernel → List ℕ → ℕ → Kernel
wake_first k [] rc = k
wake_first k (p ∷ q) rc = wake k p rc

unfoldable pub wake_all : Kernel → List ℕ → ℕ → Kernel
wake_all k [] rc = k
wake_all k (p ∷ q) rc = wake_all (wake k p rc) q rc

-- `wait_interruptible` up to `schedule`, and after it.
unfoldable pub wait_begin : Kernel → List ℕ → Kernel × List ℕ
wait_begin k q = (
  with_pcb k k.current (record (pcb_at k k.current) { state = interruptible }),
  q ++ k.current ∷ [],
)

unfoldable pub wait_end : Kernel → List ℕ → List ℕ
wait_end k q = dequeue k.current q
