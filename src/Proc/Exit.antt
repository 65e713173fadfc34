-- ===== src/Proc/Exit.antt =====
-- The end of a process and waiting for it (dispatch/process.c from `sys_fork` on, `sys_close` of
-- fs/open.c and `file_unref` of fs/inode.c). The address space of a process is Mm's.
mod Tests
pub mod Matching
pub mod Collect
pub mod Family
pub mod Told
pub mod Adopt
pub mod Steps
pub mod Ended
pub mod Round
use telos.Prelude.{
  ℕ, zero, suc, ◌+◌, ◌-◌, ◌%◌, ◌^◌, ◌==◌, ltb, leb, if◌then◌else◌, Option, none, some, Bool, true,
  false, not, ◌||◌, ◌&&◌, List, [], ◌∷◌, ◌++◌, bit_and, get_or, set, map,
}
use telos.Word.{add32}
use telos.Errno.{Errno, eagain, ebadf, echild, efault, eintr, Status, ok, fail, Result, got, failed}
use telos.Signal.{sigchld, no_info}
use telos.Proc.{
  Kernel, Pcb, ProcStatus, waiting, pcb_at, with_pcb, get_pcb, ready, zombie, dequeue, reap,
  pcb_clone, nr_files,
}
use telos.Proc.Kill.{
  assert_status, report_status, status_to_si_code, whow, wvalue, how_continued, how_exited,
  how_signaled,
}

-- `sys_fork`; `cloned` is what `mm_clone` returns. When it fails, the new process stays.
unfoldable pub sys_fork : Kernel → Status → Result ℕ × Kernel
sys_fork k cloned = elim (pcb_clone k) [
  | none ↦ (failed eagain, k)
  | some (p, k') ↦ elim cloned [
    | fail e ↦ (failed e, k')
    | ok ↦ (got (pcb_at k' p).pid, ready k' p)
  ]
]

unfoldable pub sys_getpid : Kernel → ℕ
sys_getpid k = (pcb_at k k.current).pid

unfoldable pub sys_getppid : Kernel → ℕ
sys_getppid k = (pcb_at k k.current).parent_pid

-- `release` is what happens to a file to which nothing refers any more.
module _ (release : ℕ → Kernel → Kernel) where
  unfoldable pub file_unref : Kernel → ℕ → Kernel
  file_unref k f =
      let n : ℕ = (get_or k.f_counts f 0 + (2 ^ 16 - 1)) % 2 ^ 16 in
      let k' = record k { f_counts = set k.f_counts f n } in if ltb 0 n then k' else release f k'

  unfoldable pub close_file : Kernel → ℕ → ℕ → Kernel
  close_file k fd f =
      let p = pcb_at k k.current in
      let k' = with_pcb k k.current (record p { filp = set p.filp fd none }) in
      if get_or k.f_counts f 0 == 0 then k' else file_unref k' f

  unfoldable pub sys_close : Kernel → ℕ → Status × Kernel
  sys_close k fd =
      if leb nr_files fd then (fail ebadf, k) else elim (get_or (pcb_at k k.current).filp fd none) [
        | none ↦ (fail ebadf, k)
        | some f ↦ (ok, close_file k fd f)
      ]

  -- The loop of `do_exit` over `n` descriptors from `fd` on; on a free one `sys_close` does nothing.
  unfoldable pub close_files : ℕ → ℕ → Kernel → Kernel
  close_files zero fd k = k
  close_files (suc n) fd k = close_files n (fd + 1) (sys_close k fd).1

-- Init becomes the parent of the processes at these places.
unfoldable pub reparent : List ℕ → Kernel → Kernel
reparent [] k = k
reparent (c ∷ cs) k = reparent cs (with_pcb k c (record (pcb_at k c) { parent_pid = 1 }))

-- The process at place `init` is given statuses that nobody waited for.
unfoldable pub give_statuses : ℕ → List ProcStatus → Kernel → Kernel
give_statuses init [] k = k
give_statuses init (s ∷ ss) k = give_statuses init ss (assert_status k init s)

-- `do_exit` once the status is reported; `none` is the panic when there is no init.
unfoldable pub leave_family : Kernel → ℕ → Option Kernel
leave_family k p =
    let k' = reparent (pcb_at k p).children k in
    elim (get_pcb k' 1) [
      | none ↦ none
      | some init ↦
          let old = pcb_at k' p in
          some
            (give_statuses init old.child_stats (with_pcb k' p (record old { child_stats = [] })))
    ]

unfoldable pub do_exit : (ℕ → Kernel → Kernel) → Kernel → ℕ → ℕ → Option Kernel
do_exit release k p status = elim (report_status k p how_exited status) [
  | none ↦ none
  | some k' ↦ elim (leave_family (close_files release nr_files 0 k') p) [
    | none ↦ none
    | some k'' ↦ some (zombie k'' p)
  ]
]

-- `idtype_t`, and the bits of `options`
abbrev pub p_pid : ℕ
p_pid = 2

abbrev pub wcontinued : ℕ
wcontinued = 1

abbrev pub wexited : ℕ
wexited = 2

abbrev pub wstopped : ℕ
wstopped = 8

abbrev pub wnohang : ℕ
wnohang = 16

abbrev has : ℕ → ℕ → Bool
has options bits = not (bit_and options bits == 0)

-- The test of `get_status` on one status.
unfoldable pub status_matches : ℕ → ℕ → ℕ → ProcStatus → Bool
unfolding whow
status_matches idtype id options s =
    let how = whow s.status in
    if idtype == p_pid && not (s.pid == id)
    then false
    else if how == how_continued
    then has options wcontinued
    else if how == how_exited
    then has options wexited
    else if how == how_signaled
    then true
    else has options wstopped

-- `get_status`, with the list without the status that it finds.
unfoldable pub get_status : ℕ → ℕ → ℕ → List ProcStatus → Option (ProcStatus × List ProcStatus)
get_status idtype id options [] = none
get_status idtype id options (s ∷ ss) = elim (status_matches idtype id options s) [
  | true ↦ some (s, ss)
  | false ↦ elim (get_status idtype id options ss) [
    | none ↦ none
    | some (t, rest) ↦ some (t, s ∷ rest)
  ]
]

-- What `sys_waitid` writes to `infop`.
pub record WaitInfo : Type 0 where
  pub code : ℕ
  pub pid : ℕ
  pub status : ℕ
  pub value : ℕ

pub data WaitResult : Type 0 where
  wait_fails : Errno → WaitResult
  nothing_yet : WaitResult
  waited_for : WaitInfo → WaitResult
  wait_sleeps : WaitResult

-- `list_del(&p->child_chain)`: the list that `p` is in is that of some process.
unfoldable pub unlink_child : Kernel → ℕ → Kernel
unlink_child k p = record k {
  proctab = map (λ (x : Pcb). record x { children = dequeue p x.children }) k.proctab;
}

-- The status that was found; `none` is the panic for a process that is not there.
unfoldable pub collect : Kernel → ProcStatus → List ProcStatus → Option (WaitResult × Kernel)
unfolding whow wvalue unlink_child
collect k s rest =
    let info : WaitInfo = record {
      code = status_to_si_code s.status;
      pid = s.pid;
      status = wvalue s.status;
      value = s.status;
    } in
    let done : Kernel → Option (WaitResult × Kernel) = λ k1. some (
      waited_for info,
      record (with_pcb k1 k.current (record (pcb_at k1 k.current) { child_stats = rest })) {
        free_statuses = k1.free_statuses + 1;
      },
    ) in
    if whow s.status == how_exited || whow s.status == how_signaled
    then elim (get_pcb k s.pid) [ none ↦ none | some p ↦ done (reap (unlink_child k p) p) ]
    else done k

-- The loop of `sys_waitid` from its top.
unfoldable pub wait_for : Kernel → ℕ → ℕ → ℕ → Option (WaitResult × Kernel)
wait_for k idtype id options =
    let me = pcb_at k k.current in
    elim (get_status idtype id options me.child_stats) [
      | some (s, rest) ↦ collect k s rest
      | none ↦ some (
          if has options wnohang
          then (nothing_yet, k)
          else (wait_sleeps, with_pcb k k.current (record me { state = waiting })))
    ]

-- `writable` is what `vm_verify` says of `infop`.
unfoldable pub sys_waitid : Kernel → ℕ → ℕ → ℕ → Bool → Option (WaitResult × Kernel)
unfolding wait_for
sys_waitid k idtype id options writable =
    if not writable then some (wait_fails efault, k) else elim (pcb_at k k.current).children [
      | [] ↦ some (wait_fails echild, k)
      | c ∷ cs ↦ wait_for k idtype id options
    ]

unfoldable pub signal_from_user : ℕ → Bool
signal_from_user code = leb 1 code && leb code 5

-- The loop goes on with the signal that `schedule` returns.
unfoldable pub waitid_woken : Kernel → ℕ → ℕ → ℕ → ℕ → Option (WaitResult × Kernel)
unfolding wait_for signal_from_user
waitid_woken k idtype id options signo =
    if not (signo == sigchld)
      || signal_from_user (get_or (pcb_at k k.current).sig.infos signo no_info).code
    then some (wait_fails eintr, k)
    else wait_for k idtype id options
