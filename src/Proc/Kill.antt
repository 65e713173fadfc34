-- ===== src/Proc/Kill.antt =====
-- Signals from one process to another, and the statuses of children (dispatch/signal.c from
-- `sys_sigwait` on, dispatch/process.c, include/telos/wait.h).
use telos.Prelude.{
  ℕ, ◌-◌, ◌*◌, ◌/◌, ◌%◌, ◌==◌, if◌then◌else◌, Option, none, some, Bool, true, false, not, ◌||◌, [],
  ◌∷◌, ◌++◌, bit_and, bit_or, get_or, set,
}
use telos.Word.{word_mod, not32}
use telos.Word.Bits.{fls}
use telos.Errno.{Status, ok, fail, esrch, einval, eintr, efault}
use telos.Signal.{
  Siginfo, no_info, action_of, sigchld, sa_siginfo, sig_noignore, signo_valid, sigaddset, sigdelset,
  sigismember, signal_accepted,
}
use telos.Proc.{
  Kernel, Pcb, ProcStatus, sigwait, waiting, interruptible, pcb_at, with_pcb, get_pcb, wake,
}

unfoldable pub needs_wake : Pcb → ℕ → Bool
needs_wake p n = elim p.state [
  | sigwait ↦ true
  | interruptible ↦ signal_accepted p.sig n
  | waiting ↦ n == sigchld || signal_accepted p.sig n
  | s ↦ false
]

-- The information that `__kill` stores for SA_SIGINFO; the value stays.
abbrev pub kill_info : Siginfo → ℕ → ℕ → ℕ → Siginfo
kill_info i code pid eip = record i { code = code; errno = 0; pid = pid; addr = eip }

unfoldable pub post : Pcb → ℕ → ℕ → ℕ → Pcb
unfolding sigaddset
post p n code pid =
    let s = p.sig in
    let pending = sigaddset s.pending n in
    let infos = set s.infos n (kill_info (get_or s.infos n no_info) code pid p.iret_eip) in
    record p {
      sig =
          if bit_and (action_of s n).flags sa_siginfo == 0
          then record s { pending = pending }
          else record s { pending = pending; infos = infos };
    }

-- `__kill`
unfoldable pub kill : Kernel → ℕ → ℕ → ℕ → Kernel
kill k p n code =
    let k' = with_pcb k p (post (pcb_at k p) n code (pcb_at k k.current).pid) in
    if needs_wake (pcb_at k' p) n then wake k' p n else k'

abbrev pub si_user : ℕ
si_user = 1

abbrev pub si_queue : ℕ
si_queue = 2

unfoldable pub sys_kill : Kernel → ℕ → ℕ → Status × Kernel
sys_kill k pid n = elim (get_pcb k pid) [
  | none ↦ (fail esrch, k)
  | some p ↦
      if n == 0
      then (ok, k)
      else if not (signo_valid n)
      then (fail einval, k)
      else (ok, kill k p n si_user)
]

abbrev pub with_value : Pcb → ℕ → ℕ → Pcb
with_value p n value =
    let s = p.sig in
    record p {
      sig = record s {
        infos = set s.infos n (record (get_or s.infos n no_info) { value = value });
      };
    }

unfoldable pub sys_sigqueue : Kernel → ℕ → ℕ → ℕ → Status × Kernel
sys_sigqueue k pid n value = elim (get_pcb k pid) [
  | none ↦ (fail esrch, k)
  | some p ↦
      if n == 0
      then (ok, k)
      else if not (signo_valid n)
      then (fail einval, k)
      else (ok, kill (with_pcb k p (with_value (pcb_at k p) n value)) p n si_queue)
]

-- `sys_sigwait` up to where it gives up the processor, and each time that it is woken, with the
-- signal that `schedule` returns. `writable` is what `vm_verify` says of the pointer.
pub data SigWait : Type 0 where
  returns : Status → Option ℕ → Kernel → SigWait
  sleeps : ℕ → Kernel → SigWait

abbrev take_signal : Kernel → ℕ → SigWait
take_signal k n =
    let p = pcb_at k k.current in
    let s = p.sig in
    returns ok (some n)
      (with_pcb k k.current (record p { sig = record s { pending = sigdelset s.pending n } }))

abbrev sleep : Kernel → ℕ → SigWait
sleep k set = sleeps set (with_pcb k k.current (record (pcb_at k k.current) { state = sigwait }))

unfoldable pub sys_sigwait : Kernel → ℕ → Bool → SigWait
sys_sigwait k sigs writable =
    let set = bit_and sigs (not32 sig_noignore) in
    let ready_now = bit_and (pcb_at k k.current).sig.pending set in
    if not writable
    then returns (fail efault) none k
    else if ready_now == 0
    then sleep k set
    else take_signal k (fls ready_now)

unfoldable pub sigwait_woken : Kernel → ℕ → ℕ → SigWait
sigwait_woken k set n =
    if sigismember set n
    then take_signal k n
    else if signal_accepted (pcb_at k k.current).sig n
    then returns (fail eintr) none k
    else sleep k set

-- `make_status`, WHOW, WVALUE
unfoldable pub make_status : ℕ → ℕ → ℕ
make_status how val = bit_or (bit_and how 3) (val * 4 % word_mod)

unfoldable pub whow : ℕ → ℕ
whow s = bit_and s 3

unfoldable pub wvalue : ℕ → ℕ
wvalue s = bit_and s (not32 3) / 4

-- _WCONTINUED to _WSTOPPED
abbrev pub how_continued : ℕ
how_continued = 0

abbrev pub how_exited : ℕ
how_exited = 1

abbrev pub how_signaled : ℕ
how_signaled = 2

unfoldable pub status_to_si_code : ℕ → ℕ
unfolding whow
status_to_si_code s =
    if whow s == how_continued
    then 29
    else if whow s == how_exited
    then 24
    else if whow s == how_signaled
    then 25
    else 28

unfoldable pub assert_status : Kernel → ℕ → ProcStatus → Kernel
assert_status k parent s =
    let p = pcb_at k parent in
    kill (with_pcb k parent (record p { child_stats = p.child_stats ++ s ∷ [] })) parent sigchld
      (status_to_si_code s.status)

-- `none` is the panic for a process without a parent. Without memory for the status it is lost.
unfoldable pub report_status : Kernel → ℕ → ℕ → ℕ → Option Kernel
report_status k p how val = elim (get_pcb k (pcb_at k p).parent_pid) [
  | none ↦ none
  | some parent ↦ some (
      if k.free_statuses == 0
      then k
      else assert_status (record k { free_statuses = k.free_statuses - 1 }) parent
          (record { pid = (pcb_at k p).pid; status = make_status how val }))
]
