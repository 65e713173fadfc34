-- ===== src/Proc/Exit/Round.antt =====
-- From the end of a process to its parent's wait for it (dispatch/process.c).
use telos.Prelude.{
  ℕ, ◌+◌, ◌*◌, ◌/◌, ◌%◌, ◌^◌, ◌<◌, ◌==◌, none, some, true, false, ◌||◌, [], ◌∷◌, length, ◌≡◌, ◌≢◌,
  refl, ap, sym, ◌∙◌, arith, All, ==-ne, bit_and,
}
use telos.Word.{word_mod}
use telos.Word.Mask.{bit_and_ones, bit_and-not_three}
use telos.Word.Bits.{bit_or-halves, nothing_or}
use telos.Errno.{echild}
use telos.Proc.{Kernel, ProcStatus, is_dead, pcb_at, get_pcb}
use telos.Proc.Kill.{make_status, whow, wvalue, how_exited, how_signaled}
use telos.Proc.Exit.{
  do_exit, sys_waitid, get_status, status_matches, waited_for, wait_fails, WaitInfo, wexited,
}
use telos.Proc.Exit.Family.{SameFamilies}
use telos.Proc.Exit.Adopt.{alive_in_table}
use telos.Proc.Exit.Steps.{get_pcb_alive}
use telos.Proc.Exit.Ended.{do_exit-Ended}
use telos.Proc.Exit.Collect.{sys_waitid-Collected, get_pcb-pid}

make_status-exited : (val : ℕ) → make_status how_exited val ≡ val * 4 % word_mod + 1
unfolding make_status
make_status-exited val =
    let m : ℕ = val * 4 % word_mod in omega (arith, bit_or-halves 1 m, nothing_or (m / 2))

make_status_how : (val : ℕ) → whow (make_status how_exited val) ≡ how_exited
unfolding whow
make_status_how val =
    omega (arith, make_status-exited val, bit_and_ones 2 (make_status how_exited val))

make_status_value : (val : ℕ) → wvalue (make_status how_exited val) ≡ val % 2 ^ 30
unfolding wvalue
make_status_value val = omega (
  arith,
  make_status-exited val,
  bit_and-not_three (make_status how_exited val) (omega (arith, make_status-exited val)),
)

-- A single status of a process that exited is found by a call that asks for any process with
-- WEXITED.
matches-exited :
    (id val : ℕ) (s : ProcStatus)
    → s.status ≡ make_status how_exited val
    → status_matches 0 id wexited s ≡ true
unfolding status_matches whow
matches-exited id val s e =
    let how : bit_and s.status 3 ≡ how_exited = ap (λ n. bit_and n 3) e ∙ make_status_how val in
    rw how refl

get_status-exited :
    (id val : ℕ) (s : ProcStatus)
    → s.status ≡ make_status how_exited val
    → get_status 0 id wexited (s ∷ []) ≡ some (s, [])
unfolding get_status
get_status-exited id val s e = rw (matches-exited id val s e, get_status) refl

get_pcb_current : (k : Kernel) (q pid : ℕ) → get_pcb (record k { current = q }) pid ≡ get_pcb k pid
unfolding get_pcb
get_pcb_current k q pid = refl

get_pcb_not_dead :
    (k : Kernel) (pid p : ℕ) → get_pcb k pid ≡ some p → is_dead (pcb_at k p).state ≡ false
unfolding get_pcb
get_pcb_not_dead k pid p e = ground arith

get_pcb_in_table : (k : Kernel) (pid p : ℕ) → get_pcb k pid ≡ some p → p < length k.proctab
get_pcb_in_table k pid p e = alive_in_table k.proctab p (get_pcb_alive k pid p e)

-- The release of a file changes no process's pid, parent, children or statuses, and not whether it is
-- dead; init and the parent live, the children of the process are not dead, and there is memory for its
-- status. The process at place `p`, which is not init, ends, and its parent at place `q`, which is not init and has no other
-- status to wait for, waits for any child with WEXITED: it is given the pid of `p` and the status
-- modulo 2 ^ 30, and the place of `p` is free.
pub do_exit-waited :
    (release : ℕ → Kernel → Kernel) (k : Kernel) (p q init status : ℕ)
    → ((f : ℕ) (j : Kernel) → SameFamilies j (release f j))
    → get_pcb k (pcb_at k p).parent_pid ≡ some q
    → get_pcb k (pcb_at k p).pid ≡ some p
    → get_pcb k 1 ≡ some init
    → p ≢ q
    → p ≢ init
    → q ≢ init
    → k.free_statuses ≢ 0
    → All (λ c. is_dead (pcb_at k c).state ≡ false) (pcb_at k p).children
    → (pcb_at k q).child_stats ≡ []
    → length (pcb_at k q).children ≢ 0
    → (k' : Kernel) × (k'' : Kernel) × (info : WaitInfo) × (do_exit release k p status ≡ some k')
      × (sys_waitid (record k' { current = q }) 0 0 wexited true ≡ some (waited_for info, k''))
      × (info.pid ≡ (pcb_at k p).pid)
      × (info.status ≡ status % 2 ^ 30)
      × (is_dead (pcb_at k'' p).state ≡ true)
      × (get_pcb k'' (pcb_at k p).pid ≡ none)
do_exit-waited release k p q init status keeps parent self one pq pi qi memory kids no_stats
      some_kids =
    let alive : is_dead (pcb_at k p).state ≡ false = get_pcb_not_dead k (pcb_at k p).pid p self in
    let (k', e, ended) =
      do_exit-Ended release keeps k p q init status parent one pq pi memory alive kids in
    let j : Kernel = record k' { current = q } in
    let s : ProcStatus = record {
      pid = (pcb_at k p).pid;
      status = make_status how_exited status;
    } in
    let only : (pcb_at j q).child_stats ≡ s ∷ [] =
      ended.told_parent ∙ rw (no_stats, ==-ne q init qi) refl in
    let found : get_pcb j s.pid ≡ some p =
      get_pcb_current k' q s.pid ∙ ended.named (pcb_at k p).pid ∙ self in
    let found_parent : get_pcb j (pcb_at k p).parent_pid ≡ some q =
      get_pcb_current k' q _ ∙ ended.named _ ∙ parent in
    let over : (whow s.status == how_exited || whow s.status == how_signaled) ≡ true =
      rw (make_status_how status) refl in
    let (info, k'', w, pid, value, code, c) =
      sys_waitid-Collected j 0 0 wexited p s []
        (λ e. some_kids (ap length (sym (ended.lists q)) ∙ e))
        (ap (get_status 0 0 wexited) only ∙ get_status-exited 0 status s refl) over found
        (get_pcb_in_table j _ p found) (get_pcb_in_table j _ q found_parent) pq in
    (
      k',
      k'',
      info,
      e,
      w,
      pid,
      value ∙ make_status_value status,
      c.free,
      ap (get_pcb k'') (sym (get_pcb-pid j s.pid p found)) ∙ c.gone,
    )

-- The release of a file changes no process's pid, parent, children or statuses, and not whether it is
-- dead; the process at `p` and its children are not dead, its parent and init live and are others,
-- there is memory for its status, and init has no children of its own. When the process ends, init
-- becomes the parent of its children, and then `sys_waitid` refuses init with ECHILD.
pub do_exit_orphans_unwaited :
    (release : ℕ → Kernel → Kernel) (k : Kernel) (p q init status idtype id options : ℕ)
    → ((f : ℕ) (j : Kernel) → SameFamilies j (release f j))
    → get_pcb k (pcb_at k p).parent_pid ≡ some q
    → get_pcb k 1 ≡ some init
    → p ≢ q
    → p ≢ init
    → k.free_statuses ≢ 0
    → is_dead (pcb_at k p).state ≡ false
    → All (λ c. is_dead (pcb_at k c).state ≡ false) (pcb_at k p).children
    → (pcb_at k init).children ≡ []
    → (k' : Kernel) × (do_exit release k p status ≡ some k')
      × All (λ c. (pcb_at k' c).parent_pid ≡ 1) (pcb_at k p).children
      × (sys_waitid (record k' { current = init }) idtype id options true
          ≡ some (wait_fails echild, record k' { current = init }))
unfolding sys_waitid
do_exit_orphans_unwaited release k p q init status idtype id options keeps parent one pq pi memory
      alive kids none_own =
    let (k', e, ended) =
      do_exit-Ended release keeps k p q init status parent one pq pi memory alive kids in
    (k', e, ended.orphans, rw (ended.lists init ∙ none_own) refl)
