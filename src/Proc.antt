-- ===== src/Proc.antt =====
-- The process table and the queues of the scheduler (include/kernel/process.h, kernel/schedule.c,
-- the table of dispatch/process.c). A process is known by its place in `proctab`; a pid is a
-- number of 32 bits.
pub mod Kill
pub mod Table
pub mod Round
pub mod Wake
pub mod Sent
pub mod Wait
pub mod Exit
mod Tests
use telos.Prelude.{
  ℕ, zero, suc, ◌+◌, ◌-◌, ◌%◌, ◌^◌, ◌==◌, leb, ltb, if◌then◌else◌, Option, none, some, Bool, true,
  false, not, ◌&&◌, ◌||◌, List, [], ◌∷◌, ◌++◌, bit_and, get_or, set, length, map,
}
use telos.Word.{add32, word_mod}
use telos.Errno.{Errno, einval, emfile, Result, got, failed}
use telos.Signal.{SigStruct, sig_clone}

abbrev pub pt_size : ℕ
pt_size = 256

abbrev pub pid_mask : ℕ
pid_mask = pt_size - 1

abbrev pub nr_files : ℕ
nr_files = 8

-- The codes PROC_DEAD to PROC_INTERRUPTIBLE.
pub data ProcState : Type 0 where
  dead nascent runnable running stopped zombified sigwait waiting interruptible : ProcState

abbrev pub is_dead : ProcState → Bool
is_dead dead = true
is_dead _ = false

-- A status of a child that has not been waited for.
pub record ProcStatus : Type 0 where
  pub pid : ℕ
  pub status : ℕ

-- `struct pcb` without its address space, timers, time stamp, directories (`pwd`, `root`) and saved
-- stack pointers (`esp`, `ifp`). `iret_eip` is where it was interrupted; the list of its children
-- holds places of the table.
pub record Pcb : Type 0 where
  pub rc : ℕ
  pub pid : ℕ
  pub parent_pid : ℕ
  pub flags : ℕ
  pub state : ProcState
  pub child_stats : List ProcStatus
  pub children : List ℕ
  pub sig : SigStruct
  pub iret_eip : ℕ
  pub filp : List (Option ℕ)

-- `proctab`, `current`, the two queues, `idle_pid`, the `f_count` of each open file, and the
-- number of `struct proc_status` that are free.
pub record Kernel : Type 0 where
  pub proctab : List Pcb
  pub current : ℕ
  pub ready_queue : List ℕ
  pub zombies : List ℕ
  pub idle_pid : ℕ
  pub f_counts : List ℕ
  pub free_statuses : ℕ

abbrev pub no_sig : SigStruct
no_sig = record { pending = 0; mask = 0; restore = 0; actions = []; infos = [] }

abbrev pub no_pcb : Pcb
no_pcb = record {
  rc = 0;
  pid = 0;
  parent_pid = 0;
  flags = 0;
  state = dead;
  child_stats = [];
  children = [];
  sig = no_sig;
  iret_eip = 0;
  filp = [];
}

abbrev pub pcb_at : Kernel → ℕ → Pcb
pcb_at k p = get_or k.proctab p no_pcb

abbrev pub with_pcb : Kernel → ℕ → Pcb → Kernel
with_pcb k p pcb = record k { proctab = set k.proctab p pcb }

unfoldable pub get_pcb : Kernel → ℕ → Option ℕ
get_pcb k pid =
    let p = bit_and pid pid_mask in
    if not (is_dead (pcb_at k p).state) && (pcb_at k p).pid == pid then some p else none

-- The loop of `get_fd` from `start` over the files that are left.
unfoldable pub first_free : List (Option ℕ) → ℕ → Result ℕ
first_free [] start = failed emfile
first_free (f ∷ fs) start =
    let rest = first_free fs (start + 1) in elim f [ none ↦ got start | some file ↦ rest ]

abbrev pub skip : ℕ → List (Option ℕ) → List (Option ℕ)
skip zero fs = fs
skip (suc n) [] = []
skip (suc n) (f ∷ fs) = skip n fs

unfoldable pub get_fd : Pcb → ℕ → Result ℕ
unfolding first_free
get_fd p start = if leb nr_files start then failed einval else first_free (skip start p.filp) start

unfoldable pub ready : Kernel → ℕ → Kernel
ready k p =
    let k' = with_pcb k p (record (pcb_at k p) { state = runnable }) in
    record k' { ready_queue = k.ready_queue ++ p ∷ [] }

unfoldable pub wake : Kernel → ℕ → ℕ → Kernel
wake k p rc = ready (with_pcb k p (record (pcb_at k p) { rc = rc })) p

unfoldable pub zombie : Kernel → ℕ → Kernel
zombie k p =
    let k' = with_pcb k p (record (pcb_at k p) { state = zombified }) in
    record k' { zombies = k.zombies ++ p ∷ [] }

-- `list_del` on a queue of places
unfoldable pub dequeue : ℕ → List ℕ → List ℕ
dequeue p [] = []
dequeue p (q ∷ qs) = if q == p then qs else q ∷ dequeue p qs

-- The link of a zombie is in the list of zombies.
unfoldable pub reap : Kernel → ℕ → Kernel
unfolding dequeue
reap k p =
    let k' = with_pcb k p (record (pcb_at k p) { state = dead }) in
    record k' { zombies = dequeue p k.zombies }

-- `next_process` on the ready queue given; `none` if it is empty, which the code takes for granted
-- not to happen.
unfoldable pub next_of : Kernel → List ℕ → Option (ℕ × Kernel)
unfolding ready
next_of k [] = none
next_of k (p ∷ []) = some (p, record k { ready_queue = [] })
next_of k (p ∷ q ∷ qs) =
    if (pcb_at k p).pid == k.idle_pid
    then some (q, record (ready k p) { ready_queue = qs ++ p ∷ [] })
    else some (p, record k { ready_queue = q ∷ qs })

unfoldable pub next_process : Kernel → Option (ℕ × Kernel)
next_process k = next_of k k.ready_queue

-- `_schedule`
unfoldable pub schedule : Kernel → Option Kernel
unfolding next_process
schedule k = elim (next_process k) [ none ↦ none | some (p, k') ↦ some (record k' { current = p }) ]

unfoldable pub sys_yield : Kernel → Option Kernel
unfolding schedule
sys_yield k = schedule (ready k k.current)

-- SYSINIT(proctab): entry `i` starts with pid `i - PT_SIZE`.
unfoldable pub proctab_init : ℕ → List Pcb → List Pcb
proctab_init i [] = []
proctab_init i (p ∷ ps) =
    record p { pid = if i == 0 then 0 else word_mod - pt_size + i; state = dead }
    ∷ proctab_init (i + 1) ps

-- The loop of `get_free_pcb`: the first place from `i` on that is not in use.
unfoldable pub free_place : ℕ → List Pcb → Option ℕ
free_place i [] = none
free_place i (p ∷ ps) = let rest = free_place (i + 1) ps in if is_dead p.state then some i else rest

unfoldable pub pcb_common_init : Pcb → Pcb
pcb_common_init p = record p { state = nascent; children = []; child_stats = [] }

-- Each open file of the parent counts one reference more; `f_count` is an `unsigned short`.
unfoldable pub count_files : List (Option ℕ) → List ℕ → List ℕ
count_files [] counts = counts
count_files (none ∷ fs) counts = count_files fs counts
count_files (some f ∷ fs) counts = count_files fs (set counts f ((get_or counts f 0 + 1) % 2 ^ 16))

-- The child that `pcb_clone` makes of `src` at the place of `free`.
unfoldable pub child_of : Pcb → Pcb → Pcb
unfolding pcb_common_init
child_of src free =
    let new = pcb_common_init free in
    record new {
      iret_eip = src.iret_eip;
      sig = sig_clone new.sig src.sig;
      filp = src.filp;
      pid = add32 new.pid pt_size;
      parent_pid = src.pid;
      flags = src.flags;
    }

unfoldable pub clone_to : Kernel → ℕ → Kernel
unfolding count_files
clone_to k p =
    let src = pcb_at k k.current in
    let k' = with_pcb k p (child_of src (pcb_at k p)) in
    let parent : Pcb = record (pcb_at k' k.current) { children = src.children ++ p ∷ [] } in
    record (with_pcb k' k.current parent) { f_counts = count_files src.filp k.f_counts }

-- `pcb_clone(current)`
unfoldable pub pcb_clone : Kernel → Option (ℕ × Kernel)
pcb_clone k = elim (free_place 0 k.proctab) [ none ↦ none | some p ↦ some (p, clone_to k p) ]
