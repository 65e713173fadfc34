-- ===== src/Proc/Exit/Ended.antt =====
-- What the end of a process (`do_exit` of dispatch/process.c) does to its family.
use mathlib.Core.Path.{subst}
use mathlib.Core.List.{append_assoc}
use telos.Prelude.{
  ℕ, ◌-◌, ◌<◌, ◌==◌, if◌then◌else◌, some, false, List, [], ◌∷◌, ◌++◌, length, ◌≡◌, ◌≢◌, refl, ap,
  sym, ◌∙◌, All, All-mono, get_or-set_self, get_or-set_ne, get_or-set_keeps, ==-ne, ==_iff,
}
use native.Mathlib.Decide.{ℕ_discrete}
use telos.Proc.{
  Kernel, Pcb, ProcStatus, zombified, is_dead, no_pcb, pcb_at, with_pcb, get_pcb, zombie, nr_files,
}
use telos.Proc.Kill.{assert_status, make_status, how_exited}
use telos.Proc.Exit.{close_files, reparent, give_statuses, do_exit}
use telos.Proc.Exit.Family.{Family, family_of, family, SameFamilies, close_files-SameFamilies}
use telos.Proc.Exit.Told.{
  told, give_statuses_self, give_statuses_other, assert_status_self, assert_status_other,
  assert_status_keeps, give_statuses_keeps,
}
use telos.Proc.Exit.Adopt.{adopted, reparent_keeps, reparent-All, alive_in_table, get_pcb_ext}
use telos.Proc.Exit.Steps.{
  report_status_told, leave_family_told, do_exit_told, zombie_other, zombie_keeps, get_pcb_alive,
}

-- The process at place `p` ended with `status`: it is a zombie, its parent at place `q` has its
-- status, with those that `p` has not waited for if the parent is init, which has them else; init
-- is the parent of the children of `p`; every pid names the process that it did; and no list of
-- children is changed.
pub record Ended (k : Kernel) (p q init status : ℕ) (k' : Kernel) : Type 0 where
  pub zombie : (pcb_at k' p).state ≡ zombified
  pub told_parent :
      (pcb_at k' q).child_stats
      ≡ (pcb_at k q).child_stats
        ++ (record { pid = (pcb_at k p).pid; status = make_status how_exited status }
            ∷ (if q == init then (pcb_at k p).child_stats else []))
  pub told_init :
      q ≢ init
      → (pcb_at k' init).child_stats ≡ (pcb_at k init).child_stats ++ (pcb_at k p).child_stats
  pub orphans : All (λ c. (pcb_at k' c).parent_pid ≡ 1) (pcb_at k p).children
  pub named : (pid : ℕ) → get_pcb k' pid ≡ get_pcb k pid
  pub lists : (r : ℕ) → (pcb_at k' r).children ≡ (pcb_at k r).children

-- The stages of `do_exit`, for a process at `p` with its parent at `q`.
module _ (release : ℕ → Kernel → Kernel)
    (keeps : (f : ℕ) (j : Kernel) → SameFamilies j (release f j)) (k : Kernel) (p q init status : ℕ)
    (parent : get_pcb k (pcb_at k p).parent_pid ≡ some q) (one : get_pcb k 1 ≡ some init)
    (pq : p ≢ q) (pi : p ≢ init) (memory : k.free_statuses ≢ 0)
    (alive : is_dead (pcb_at k p).state ≡ false)
    (kids_alive : All (λ c. is_dead (pcb_at k c).state ≡ false) (pcb_at k p).children) where
  abbrev s : ProcStatus
  s = record { pid = (pcb_at k p).pid; status = make_status how_exited status }

  abbrev k1 : Kernel
  k1 = assert_status (record k { free_statuses = k.free_statuses - 1 }) q s

  abbrev k2 : Kernel
  k2 = close_files release nr_files 0 k1

  abbrev k3 : Kernel
  k3 = reparent (pcb_at k2 p).children k2

  abbrev k4 : Kernel
  k4 = with_pcb k3 p (record (pcb_at k3 p) { child_stats = [] })

  abbrev k5 : Kernel
  k5 = give_statuses init (pcb_at k3 p).child_stats k4

  -- What no status changes, first from `k` to `k2`, then from `k3` to `k5`.
  module _ {ℓ} {A : Type ℓ} (f : Family → A)
      (blind : (x : Family) (ss : List ProcStatus) → f (record x { child_stats = ss }) ≡ f x) where
    kept2 : (r : ℕ) → f (family k2 r) ≡ f (family k r)
    kept2 r =
        ap f (close_files-SameFamilies release keeps nr_files 0 k1 r)
        ∙ assert_status_keeps f (λ ss x. blind x (x.child_stats ++ ss))
            (record k { free_statuses = k.free_statuses - 1 }) q s r

    cleared : (x : Pcb) → f (family_of (record x { child_stats = [] })) ≡ f (family_of x)
    unfolding family_of
    cleared x = blind (family_of x) []

    kept4 : (r : ℕ) → f (family k4 r) ≡ f (family k3 r)
    kept4 r =
        get_or-set_keeps (λ (x : Pcb). f (family_of x)) k3.proctab p r _ no_pcb
          (cleared (pcb_at k3 p))

    kept5 : (r : ℕ) → f (family k5 r) ≡ f (family k3 r)
    kept5 r =
        give_statuses_keeps f (λ ss x. blind x (x.child_stats ++ ss)) init (pcb_at k3 p).child_stats
          k4 r
        ∙ kept4 r

  kids2 : (pcb_at k2 p).children ≡ (pcb_at k p).children
  unfolding family_of
  kids2 = kept2 (λ f. f.children) (λ x ss. refl) p

  gone3 : (r : ℕ) → (family k3 r).gone ≡ (family k r).gone
  gone3 r =
      ap (λ (f : Family). f.gone) (reparent_keeps (pcb_at k2 p).children k2 r)
      ∙ kept2 (λ f. f.gone) (λ x ss. refl) r

  lists_kept : (r : ℕ) → (pcb_at (zombie k5 p) r).children ≡ (pcb_at k r).children
  unfolding family_of
  lists_kept r =
      zombie_keeps (λ (x : Pcb). x.children) k5 p r (λ x. refl)
      ∙ kept5 (λ f. f.children) (λ x ss. refl) r
      ∙ ap (λ (f : Family). f.children) (reparent_keeps (pcb_at k2 p).children k2 r)
      ∙ kept2 (λ f. f.children) (λ x ss. refl) r

  pid6 : (r : ℕ) → (family (zombie k5 p) r).pid ≡ (family k r).pid
  unfolding family_of
  pid6 r =
      zombie_keeps (λ (x : Pcb). x.pid) k5 p r (λ x. refl)
      ∙ kept5 (λ f. f.pid) (λ x ss. refl) r
      ∙ ap (λ (f : Family). f.pid) (reparent_keeps (pcb_at k2 p).children k2 r)
      ∙ kept2 (λ f. f.pid) (λ x ss. refl) r

  is_zombie : (pcb_at (zombie k5 p) p).state ≡ zombified
  unfolding zombie family_of
  is_zombie =
      ap (λ (x : Pcb). x.state)
        (get_or-set_self k5.proctab p _ no_pcb
          (alive_in_table k5.proctab p (kept5 (λ f. f.gone) (λ x ss. refl) p ∙ gone3 p ∙ alive)))

  gone6 : (r : ℕ) → (family (zombie k5 p) r).gone ≡ (family k r).gone
  unfolding family_of
  gone6 r = elim (ℕ_discrete r p) [
    | yes same ↦
        ap (λ i. is_dead (pcb_at (zombie k5 p) i).state) same
        ∙ ap is_dead is_zombie
        ∙ sym alive
        ∙ ap (λ i. is_dead (pcb_at k i).state) (sym same)
    | no other ↦
        ap (λ (f : Family). f.gone) (zombie_other k5 p r other)
        ∙ kept5 (λ f. f.gone) (λ x ss. refl) r
        ∙ gone3 r
  ]

  kids_in_table : All (λ c. c < length k2.proctab) (pcb_at k p).children
  unfolding family_of
  kids_in_table =
      All-mono (λ c. is_dead (pcb_at k c).state ≡ false) (λ c. c < length k2.proctab)
        (pcb_at k p).children
        (λ c d. alive_in_table k2.proctab c (kept2 (λ f. f.gone) (λ x ss. refl) c ∙ d)) kids_alive

  adopted_kids : All (λ c. (pcb_at (zombie k5 p) c).parent_pid ≡ 1) (pcb_at k p).children
  unfolding family_of
  adopted_kids =
      All-mono (λ c. (pcb_at k3 c).parent_pid ≡ 1) (λ c. (pcb_at (zombie k5 p) c).parent_pid ≡ 1)
        (pcb_at k p).children
        (λ c e.
          zombie_keeps (λ (x : Pcb). x.parent_pid) k5 p c (λ x. refl)
          ∙ kept5 (λ f. f.parent_pid) (λ x ss. refl) c
          ∙ e)
        (subst (λ cs. All (λ c. (pcb_at k3 c).parent_pid ≡ 1) cs) kids2
          (reparent-All (pcb_at k2 p).children k2
            (subst (λ cs. All (λ c. c < length k2.proctab) cs) (sym kids2) kids_in_table)))

  -- The statuses of a process that is neither gone nor the one that ends.
  stats3 : (r : ℕ) → r ≢ q → (pcb_at k3 r).child_stats ≡ (pcb_at k r).child_stats
  unfolding family_of
  stats3 r ne =
      ap (λ (f : Family). f.child_stats)
        (reparent_keeps (pcb_at k2 p).children k2 r
          ∙ ap adopted (
              close_files-SameFamilies release keeps nr_files 0 k1 r
              ∙ assert_status_other (record k { free_statuses = k.free_statuses - 1 }) q s r ne))

  stats3_parent : (pcb_at k3 q).child_stats ≡ (pcb_at k q).child_stats ++ s ∷ []
  unfolding family_of
  stats3_parent =
      ap (λ (f : Family). f.child_stats)
        (reparent_keeps (pcb_at k2 p).children k2 q
          ∙ ap adopted (
              close_files-SameFamilies release keeps nr_files 0 k1 q
              ∙ assert_status_self (record k { free_statuses = k.free_statuses - 1 }) q s
                  (alive_in_table k.proctab q (get_pcb_alive k _ q parent))))

  -- Init is given those of `p`.
  stats6_init :
      (pcb_at (zombie k5 p) init).child_stats
      ≡ (pcb_at k3 init).child_stats ++ (pcb_at k p).child_stats
  unfolding family_of
  stats6_init =
      let there : init < length k4.proctab =
        alive_in_table k4.proctab init
          (kept4 (λ f. f.gone) (λ x ss. refl) init ∙ gone3 init ∙ get_pcb_alive k 1 init one) in
      ap (λ (f : Family). f.child_stats)
        (zombie_other k5 p init (λ e. pi (sym e))
          ∙ give_statuses_self init (pcb_at k3 p).child_stats k4 there
          ∙ ap (λ (x : Pcb). told (pcb_at k3 p).child_stats (family_of x))
              (get_or-set_ne k3.proctab p init _ no_pcb pi))
      ∙ ap (λ xs. (pcb_at k3 init).child_stats ++ xs) (stats3 p pq)

  stats6_other :
      (r : ℕ) → r ≢ init → r ≢ p → (pcb_at (zombie k5 p) r).child_stats ≡ (pcb_at k3 r).child_stats
  unfolding family_of
  stats6_other r ni np =
      ap (λ (f : Family). f.child_stats)
        (zombie_other k5 p r np
          ∙ give_statuses_other init (pcb_at k3 p).child_stats k4 r ni
          ∙ ap family_of (get_or-set_ne k3.proctab p r _ no_pcb (λ e. np (sym e))))

  init_found : get_pcb k2 1 ≡ some init
  init_found =
      get_pcb_ext k k2 1 (kept2 (λ f. f.gone) (λ x ss. refl)) (kept2 (λ f. f.pid) (λ x ss. refl))
      ∙ one

  told_parent_init :
      q ≡ init
      → (pcb_at (zombie k5 p) q).child_stats
        ≡ (pcb_at k q).child_stats ++ (s ∷ (if q == init then (pcb_at k p).child_stats else []))
  told_parent_init same =
      let theirs : List ProcStatus = (pcb_at k p).child_stats in
      ap (λ i. (pcb_at (zombie k5 p) i).child_stats) same
      ∙ stats6_init
      ∙ ap (λ i. (pcb_at k3 i).child_stats ++ theirs) (sym same)
      ∙ ap (λ xs. xs ++ theirs) stats3_parent
      ∙ append_assoc (pcb_at k q).child_stats (s ∷ []) theirs
      ∙ ap (λ b. (pcb_at k q).child_stats ++ (s ∷ (if b then theirs else [])))
          (sym ((==_iff q init).1 same))

  -- The release of a file changes no process's pid, parent, children or statuses, and not whether
  -- it is dead. A process that is not dead, with a live parent other than itself, where init lives
  -- and is not the one that ends, where the children of the process are not dead and there is memory
  -- for its status, ends: it becomes a zombie and its family is told.
  pub do_exit-Ended :
      (k' : Kernel) × (do_exit release k p status ≡ some k') × Ended k p q init status k'
  do_exit-Ended = (
    zombie k5 p,
    do_exit_told release k k1 k5 p status (report_status_told k p q how_exited status parent memory)
        (leave_family_told k2 p init init_found),
    record {
      zombie = is_zombie;
      told_parent = elim (ℕ_discrete q init) [
        | yes same ↦ told_parent_init same
        | no other ↦
            stats6_other q other (λ e. pq (sym e)) ∙ stats3_parent ∙ rw (==-ne q init other) refl
      ];
      told_init = λ ne.
          stats6_init ∙ ap (λ xs. xs ++ (pcb_at k p).child_stats) (stats3 init (λ e. ne (sym e)));
      orphans = adopted_kids;
      named = λ pid. get_pcb_ext k (zombie k5 p) pid gone6 pid6;
      lists = lists_kept;
    },
  )
