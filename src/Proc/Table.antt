-- ===== src/Proc/Table.antt =====
-- The process table: a pid names the place of its process.
use native.Mathlib.Decide.{ℕ_discrete}
use telos.Prelude.{
  ℕ, zero, suc, ◌+◌, ◌-◌, ◌%◌, ◌≤◌, ◌<◌, ◌≡◌, ◌≢◌, refl, ap, sym, ◌∙◌, ◌==◌, if◌then◌else◌, none,
  some, true, false, ◌⊎◌, List, [], ◌∷◌, ◌++◌, arith, length, get_or, set, get_or-set_self,
  get_or-set_ne, bit_and, length-set, Bool-cases, Option-cases, inl, inr,
}
use telos.Word.{add32, word_mod}
use telos.Word.Mask.{bit_and_ones}
use telos.Proc.{
  Kernel, Pcb, is_dead, no_pcb, pcb_at, get_pcb, pt_size, pid_mask, proctab_init, free_place,
  pcb_clone, child_of, clone_to,
}

-- Each process stands at the place that the low eight bits of its pid name.
abbrev pub Placed : List Pcb → Type 0
Placed ps = (i : ℕ) → i < length ps → (get_or ps i no_pcb).pid % pt_size ≡ i

get_or-proctab_init :
    (ps : List Pcb) (n i : ℕ)
    → i < length ps
    → (get_or (proctab_init n ps) i no_pcb).pid
      ≡ (if n + i == 0 then 0 else word_mod - pt_size + (n + i))
unfolding proctab_init
get_or-proctab_init [] n i h = absurd (omega arith)
get_or-proctab_init (p ∷ ps) n zero h = ground arith
get_or-proctab_init (p ∷ ps) n (suc i) h =
    let e : n + 1 + i ≡ n + suc i = omega arith in
    rw (get_or-proctab_init ps (n + 1) i (omega arith), e) refl

pub length-proctab_init : (ps : List Pcb) (n : ℕ) → length (proctab_init n ps) ≡ length ps
unfolding proctab_init
length-proctab_init [] n = refl
length-proctab_init (p ∷ ps) n = ap suc (length-proctab_init ps (n + 1))

-- The table is set up that way.
pub proctab_init-Placed : (ps : List Pcb) → length ps ≤ pt_size → Placed (proctab_init 0 ps)
proctab_init-Placed ps l i h =
    let l' = length-proctab_init ps 0 in
    let e = get_or-proctab_init ps 0 i (omega (arith, h, l')) in rw e (ground arith)

-- In such a table `get_pcb` finds exactly the processes that are not dead, each by its pid.
pub get_pcb_iff :
    (k : Kernel) (p pid : ℕ)
    → Placed k.proctab
    → length k.proctab ≡ pt_size
    → p < pt_size
    → ((get_pcb k pid ≡ some p) → ((pcb_at k p).pid ≡ pid) × (is_dead (pcb_at k p).state ≡ false))
      × (((pcb_at k p).pid ≡ pid) → (is_dead (pcb_at k p).state ≡ false) → get_pcb k pid ≡ some p)
unfolding get_pcb
get_pcb_iff k p pid ok l h = (
  (λ e. ground (arith, bit_and_ones 8 pid)),
  (λ e d.
      let m : bit_and pid pid_mask ≡ p =
        omega (arith, bit_and_ones 8 pid, ok p (omega (arith, l)), e) in
      rw m (ground arith)),
)

free_place_sound :
    (i : ℕ) (ps : List Pcb) (p : ℕ)
    → free_place i ps ≡ some p
    → (n : ℕ) × (p ≡ i + n) × (n < length ps) × (is_dead (get_or ps n no_pcb).state ≡ true)
unfolding free_place
free_place_sound i [] p e = absurd (ground arith)
free_place_sound i (x ∷ ps) p e = elim (Bool-cases (is_dead x.state)) [
  | inl d ↦ (0, ground arith, omega arith, d)
  | inr d ↦
      let (n, q, l, f) = free_place_sound (i + 1) ps p (ground arith) in
      (suc n, omega (arith, q), omega (arith, l), f)
]

-- `pcb_clone` made the process at place `p` a child of the current one.
pub record Forked (k : Kernel) (p : ℕ) (k' : Kernel) : Type 0 where
  pub was_free : is_dead (pcb_at k p).state ≡ true
  pub placed : Placed k'.proctab
  pub size : length k'.proctab ≡ pt_size
  pub child : pcb_at k' p ≡ child_of (pcb_at k k.current) (pcb_at k p)
  pub found : get_pcb k' (add32 (pcb_at k p).pid pt_size) ≡ some p
  pub parent :
      pcb_at k' k.current
      ≡ record (pcb_at k k.current) { children = (pcb_at k k.current).children ++ p ∷ [] }
  pub others : (q : ℕ) → q ≢ p → q ≢ k.current → pcb_at k' q ≡ pcb_at k q

child_of_fresh :
    (src free : Pcb)
    → ((child_of src free).pid ≡ add32 free.pid pt_size)
      × (is_dead (child_of src free).state ≡ false)
unfolding child_of
child_of_fresh src free = (refl, refl)

pub set-Placed :
    (ps : List Pcb) (p : ℕ) (v : Pcb) → Placed ps → v.pid % pt_size ≡ p → Placed (set ps p v)
set-Placed ps p v ok e i h = elim (ℕ_discrete p i) [
  | yes same ↦
      let s : get_or (set ps p v) i no_pcb ≡ v =
        ap (λ j. get_or (set ps p v) j no_pcb) (sym same)
        ∙ get_or-set_self ps p v no_pcb (omega (arith, h, length-set ps p v, same)) in
      rw s (e ∙ same)
  | no other ↦ rw (get_or-set_ne ps p i v no_pcb other) (ok i (omega (arith, h, length-set ps p v)))
]

clone_to-Forked :
    (k : Kernel) (p : ℕ)
    → Placed k.proctab
    → length k.proctab ≡ pt_size
    → k.current < pt_size
    → is_dead (pcb_at k k.current).state ≡ false
    → p < pt_size
    → is_dead (pcb_at k p).state ≡ true
    → Forked k p (clone_to k p)
unfolding clone_to
clone_to-Forked k p ok l c live h free =
    let tab = k.proctab in
    let src = pcb_at k k.current in
    let ch : Pcb = child_of src (pcb_at k p) in
    let tab1 : List Pcb = set tab p ch in
    let par : Pcb = record (get_or tab1 k.current no_pcb) { children = src.children ++ p ∷ [] } in
    let ne : p ≢ k.current = λ e. ground (arith, ap (λ x. is_dead (pcb_at k x).state) e) in
    let atc : get_or tab1 k.current no_pcb ≡ src = get_or-set_ne tab p k.current ch no_pcb ne in
    let e1 : ch.pid % pt_size ≡ p =
      omega (arith, child_of_fresh src (pcb_at k p), ok p (omega (arith, l))) in
    let e2 : par.pid % pt_size ≡ k.current =
      ap (λ (x : Pcb). x.pid % pt_size) atc ∙ ok k.current (omega (arith, l)) in
    let placed : Placed (set tab1 k.current par) =
      set-Placed tab1 k.current par (set-Placed tab p ch ok e1) e2 in
    let size = length-set tab1 k.current par ∙ length-set tab p ch ∙ l in
    let child : get_or (set tab1 k.current par) p no_pcb ≡ ch =
      get_or-set_ne tab1 k.current p par no_pcb (λ e. ne (sym e))
      ∙ get_or-set_self tab p ch no_pcb (omega (arith, l)) in
    let (same_pid, alive) = child_of_fresh src (pcb_at k p) in
    record {
      was_free = free;
      placed = placed;
      size = size;
      child = child;
      found =
          (get_pcb_iff (clone_to k p) p (add32 (pcb_at k p).pid pt_size) placed size h).1
            (ap (λ (x : Pcb). x.pid) child ∙ same_pid)
            (ap (λ (x : Pcb). is_dead x.state) child ∙ alive);
      parent =
          get_or-set_self tab1 k.current par no_pcb (omega (arith, l, length-set tab p ch))
          ∙ ap (λ (x : Pcb). record x { children = src.children ++ p ∷ [] }) atc;
      others = λ q n m.
          get_or-set_ne tab1 k.current q par no_pcb (λ e. m (sym e))
          ∙ get_or-set_ne tab p q ch no_pcb (λ e. n (sym e));
    }

none_free :
    (i n : ℕ) (ps : List Pcb)
    → free_place i ps ≡ none
    → n < length ps
    → is_dead (get_or ps n no_pcb).state ≡ false
unfolding free_place
none_free i n [] e h = absurd (omega arith)
none_free i zero (x ∷ ps) e h = ground arith
none_free i (suc n) (x ∷ ps) e h = none_free (i + 1) n ps (ground arith) (omega arith)

-- In a full-sized table with all processes at their places and the current one alive, `pcb_clone`
-- fails only if no place is free. Else it makes the process of a free place the last child of the
-- current one, under a pid that `get_pcb` finds, and changes no other process; all stay at their
-- places.
pub pcb_clone-Forked :
    (k : Kernel)
    → Placed k.proctab
    → length k.proctab ≡ pt_size
    → k.current < pt_size
    → is_dead (pcb_at k k.current).state ≡ false
    → ((pcb_clone k ≡ none) × ((p : ℕ) → p < pt_size → is_dead (pcb_at k p).state ≡ false))
      ⊎ ((p : ℕ) × (k' : Kernel) × (pcb_clone k ≡ some (p, k')) × Forked k p k')
unfolding pcb_clone
pcb_clone-Forked k ok l c live = elim (Option-cases (free_place 0 k.proctab)) [
  | inl e ↦ inl (rw (e, pcb_clone), λ p h. none_free 0 p k.proctab e (omega (arith, l)))
  | inr (p, e) ↦
      let (n, eq, h, free) = free_place_sound 0 k.proctab p e in
      let same : n ≡ p = omega (arith, eq) in
      inr (
        p,
        clone_to k p,
        rw (e, pcb_clone),
        clone_to-Forked k p ok l c live (omega (arith, l, h, eq)) (rw⁻¹ same free),
      )
]
