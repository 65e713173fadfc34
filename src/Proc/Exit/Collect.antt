-- ===== src/Proc/Exit/Collect.antt =====
-- What `sys_waitid` (dispatch/process.c) does with the status that it finds.
use telos.Prelude.{
  ℕ, suc, zero, ◌+◌, ◌<◌, ◌==◌, if◌then◌else◌, none, some, true, ◌||◌, List, [], ◌∷◌, map, get_or,
  set, length, ◌≡◌, ◌≢◌, refl, ap, ap₂, sym, ◌∙◌, arith, ◌⊎◌, inl, inr, get_or-set_self,
  get_or-set_ne, ==-refl, ==-ne, length-set, bit_and,
}
use native.Mathlib.Decide.{ℕ_discrete}
use telos.Proc.{
  Kernel, Pcb, ProcStatus, dead, is_dead, no_pcb, pcb_at, with_pcb, get_pcb, dequeue, reap,
  pid_mask,
}
use telos.Proc.Kill.{whow, wvalue, how_exited, how_signaled, status_to_si_code}
use telos.Proc.Exit.{get_status, unlink_child, collect, wait_for, sys_waitid, waited_for, WaitInfo}

get_or-map {ℓ κ} :
    {A : Type ℓ} {B : Type κ} (f : A → B) (xs : List A) (i : ℕ) (d : A)
    → get_or (map f xs) i (f d) ≡ f (get_or xs i d)
get_or-map f [] i d = refl
get_or-map f (x ∷ xs) zero d = refl
get_or-map f (x ∷ xs) (suc i) d = get_or-map f xs i d

length-map {ℓ κ} :
    {A : Type ℓ} {B : Type κ} (f : A → B) (xs : List A) → length (map f xs) ≡ length xs
length-map f [] = refl
length-map f (x ∷ xs) = ap suc (length-map f xs)

-- Every process without the child `p`.
abbrev pub without_child : ℕ → Pcb → Pcb
without_child p x = record x { children = dequeue p x.children }

unlink_child_at :
    (k : Kernel) (p q : ℕ) → pcb_at (unlink_child k p) q ≡ without_child p (pcb_at k q)
unfolding unlink_child dequeue
unlink_child_at k p q = get_or-map (without_child p) k.proctab q no_pcb

pub pcb_at-set :
    (ps : List Pcb) (p q : ℕ) (v : Pcb)
    → p < length ps
    → get_or (set ps p v) q no_pcb ≡ (if p == q then v else get_or ps q no_pcb)
pcb_at-set ps p q v h = elim (ℕ_discrete p q) [
  | yes same ↦ rw (← same) (rw ==-refl (get_or-set_self ps p v no_pcb h))
  | no other ↦ rw (==-ne p q other) (get_or-set_ne ps p q v no_pcb other)
]

length-unlink_child : (k : Kernel) (p : ℕ) → length (unlink_child k p).proctab ≡ length k.proctab
unfolding unlink_child
length-unlink_child k p = length-map (without_child p) k.proctab

reap_at :
    (k : Kernel) (p q : ℕ)
    → p < length k.proctab
    → pcb_at (reap k p) q ≡ (if p == q then record (pcb_at k p) { state = dead } else pcb_at k q)
unfolding reap
reap_at k p q h = pcb_at-set k.proctab p q _ h

-- The current process waited for the one at place `p`: of that one only the state changed, its place
-- is free and its pid names nobody; the status is taken off the list; of the others only the link to
-- the child is gone; and of the kernel only the zombies and the count of statuses changed.
pub record Collected (k : Kernel) (p : ℕ) (rest : List ProcStatus) (k' : Kernel) : Type 0 where
  pub free : is_dead (pcb_at k' p).state ≡ true
  pub reaped : pcb_at k' p ≡ record (without_child p (pcb_at k p)) { state = dead }
  pub gone : get_pcb k' (pcb_at k p).pid ≡ none
  pub zombies : k'.zombies ≡ dequeue p k.zombies
  pub statuses : k'.free_statuses ≡ k.free_statuses + 1
  pub current : k'.current ≡ k.current
  pub ready_queue : k'.ready_queue ≡ k.ready_queue
  pub idle_pid : k'.idle_pid ≡ k.idle_pid
  pub f_counts : k'.f_counts ≡ k.f_counts
  pub places : length k'.proctab ≡ length k.proctab
  pub parent :
      pcb_at k' k.current ≡ record (without_child p (pcb_at k k.current)) { child_stats = rest }
  pub others : (q : ℕ) → q ≢ p → q ≢ k.current → pcb_at k' q ≡ without_child p (pcb_at k q)

-- The state that `collect` leaves.
abbrev collected : Kernel → ℕ → List ProcStatus → Kernel
collected k p rest =
    let k1 = reap (unlink_child k p) p in
    record (with_pcb k1 k.current (record (pcb_at k1 k.current) { child_stats = rest })) {
      free_statuses = k1.free_statuses + 1;
    }

reaped_at :
    (k : Kernel) (p q : ℕ)
    → p < length k.proctab
    → pcb_at (reap (unlink_child k p) p) q ≡ (
        if p == q
        then record (without_child p (pcb_at k p)) { state = dead }
        else without_child p (pcb_at k q))
reaped_at k p q h =
    reap_at (unlink_child k p) p q (omega (arith, length-unlink_child k p))
    ∙ ap₂ (λ (x y : Pcb). if p == q then record x { state = dead } else y) (unlink_child_at k p p)
        (unlink_child_at k p q)

length-reaped : (k : Kernel) (p : ℕ) → length (reap (unlink_child k p) p).proctab ≡ length k.proctab
unfolding reap
length-reaped k p = length-set (unlink_child k p).proctab p _ ∙ length-unlink_child k p

collected_at :
    (k : Kernel) (p q : ℕ) (rest : List ProcStatus)
    → p < length k.proctab
    → k.current < length k.proctab
    → p ≢ k.current
    → pcb_at (collected k p rest) q ≡ (
        if k.current == q
        then record (without_child p (pcb_at k k.current)) { child_stats = rest }
        else if p == q
        then record (without_child p (pcb_at k p)) { state = dead }
        else without_child p (pcb_at k q))
collected_at k p q rest h c ne =
    let k1 = reap (unlink_child k p) p in
    let me : pcb_at k1 k.current ≡ without_child p (pcb_at k k.current) =
      reaped_at k p k.current h ∙ rw (==-ne p k.current ne) refl in
    pcb_at-set k1.proctab k.current q _ (omega (arith, length-reaped k p))
    ∙ ap₂ (λ (x y : Pcb). if k.current == q then record x { child_stats = rest } else y) me
        (reaped_at k p q h)

get_pcb-place : (k : Kernel) (pid p : ℕ) → get_pcb k pid ≡ some p → bit_and pid pid_mask ≡ p
unfolding get_pcb
get_pcb-place k pid p e = ground arith

get_pcb_dead :
    (k : Kernel) (pid p : ℕ)
    → bit_and pid pid_mask ≡ p
    → is_dead (pcb_at k p).state ≡ true
    → get_pcb k pid ≡ none
unfolding get_pcb
get_pcb_dead k pid p e d = rw (e, d) refl

collected-Collected :
    (k : Kernel) (p : ℕ) (rest : List ProcStatus)
    → p < length k.proctab
    → k.current < length k.proctab
    → p ≢ k.current
    → get_pcb k (pcb_at k p).pid ≡ some p
    → Collected k p rest (collected k p rest)
collected-Collected k p rest h c ne found =
    let k' = collected k p rest in
    let apart : k.current ≢ p = λ e. ne (sym e) in
    let here : pcb_at k' p ≡ record (without_child p (pcb_at k p)) { state = dead } =
      collected_at k p p rest h c ne ∙ rw (==-ne k.current p apart, ==-refl p) refl in
    let over : is_dead (pcb_at k' p).state ≡ true = ap (λ (x : Pcb). is_dead x.state) here in
    record {
      free = over;
      reaped = here;
      gone = get_pcb_dead k' (pcb_at k p).pid p (get_pcb-place k _ p found) over;
      zombies = unfold reap unlink_child in refl;
      statuses = unfold reap unlink_child in refl;
      current = unfold reap unlink_child in refl;
      ready_queue = unfold reap unlink_child in refl;
      idle_pid = unfold reap unlink_child in refl;
      f_counts = unfold reap unlink_child in refl;
      places = length-set _ k.current _ ∙ length-reaped k p;
      parent = collected_at k p k.current rest h c ne ∙ rw (==-refl k.current) refl;
      others = λ q n m.
          collected_at k p q rest h c ne
          ∙ rw (==-ne k.current q (λ e. m (sym e)), ==-ne p q (λ e. n (sym e))) refl;
    }

pub get_pcb-pid : (k : Kernel) (pid p : ℕ) → get_pcb k pid ≡ some p → (pcb_at k p).pid ≡ pid
unfolding get_pcb
get_pcb-pid k pid p e = ground arith

List-cases {ℓ} :
    {A : Type ℓ} (xs : List A) → (xs ≡ []) ⊎ ((x : A) × (rest : List A) × (xs ≡ x ∷ rest))
List-cases [] = inl refl
List-cases (x ∷ xs) = inr (x, xs, refl)

-- With children, `sys_waitid` comes to its loop.
pub sys_waitid-loop :
    (k : Kernel) (idtype id options : ℕ)
    → length (pcb_at k k.current).children ≢ 0
    → sys_waitid k idtype id options true ≡ wait_for k idtype id options
unfolding sys_waitid
sys_waitid-loop k idtype id options kids = elim (List-cases (pcb_at k k.current).children) [
  | inl e ↦ absurd (kids (ap length e))
  | inr (c, cs, e) ↦ rw e refl
]

wait_for-collect :
    (k : Kernel) (idtype id options : ℕ) (s : ProcStatus) (rest : List ProcStatus)
    → get_status idtype id options (pcb_at k k.current).child_stats ≡ some (s, rest)
    → wait_for k idtype id options ≡ collect k s rest
unfolding wait_for
wait_for-collect k idtype id options s rest first = rw (first, wait_for) refl

abbrev info_of : ProcStatus → WaitInfo
info_of s = record {
  code = status_to_si_code s.status;
  pid = s.pid;
  status = wvalue s.status;
  value = s.status;
}

collect-collected :
    (k : Kernel) (s : ProcStatus) (rest : List ProcStatus) (p : ℕ)
    → (whow s.status == how_exited || whow s.status == how_signaled) ≡ true
    → get_pcb k s.pid ≡ some p
    → collect k s rest ≡ some (waited_for (info_of s), collected k p rest)
unfolding collect
collect-collected k s rest p over found = rw over (rw found refl)

-- A process that has children waits, and the first status that its call asks for says that the
-- process at `p` exited or was killed: `sys_waitid` returns that status, frees the place of `p`, takes
-- it off the zombies and the lists of children, uses the status up, and changes nothing else.
pub sys_waitid-Collected :
    (k : Kernel) (idtype id options p : ℕ) (s : ProcStatus) (rest : List ProcStatus)
    → length (pcb_at k k.current).children ≢ 0
    → get_status idtype id options (pcb_at k k.current).child_stats ≡ some (s, rest)
    → (whow s.status == how_exited || whow s.status == how_signaled) ≡ true
    → get_pcb k s.pid ≡ some p
    → p < length k.proctab
    → k.current < length k.proctab
    → p ≢ k.current
    → (info : WaitInfo) × (k' : Kernel) × (sys_waitid k idtype id options true
        ≡ some (waited_for info, k'))
      × (info.pid ≡ s.pid)
      × (info.status ≡ wvalue s.status)
      × (info.code ≡ status_to_si_code s.status)
      × Collected k p rest k'
sys_waitid-Collected k idtype id options p s rest kids first over found h c ne =
    let pid : (pcb_at k p).pid ≡ s.pid = get_pcb-pid k s.pid p found in
    (
      info_of s,
      collected k p rest,
      sys_waitid-loop k idtype id options kids
          ∙ wait_for-collect k idtype id options s rest first
          ∙ collect-collected k s rest p over found,
      refl,
      refl,
      refl,
      collected-Collected k p rest h c ne (ap (get_pcb k) pid ∙ found),
    )
