-- ===== src/Proc/Exit/Family.antt =====
-- What the end of a process (`do_exit` of dispatch/process.c) tells its parent and does to its
-- children.
use telos.Prelude.{
  ℕ, suc, zero, ◌+◌, ◌-◌, ◌%◌, ◌^◌, ◌==◌, ltb, leb, Option, none, Bool, true, false, List, get_or,
  set, ◌≡◌, refl, ap, ◌∙◌, arith, inl, inr, Bool-cases, Option-cases, get_or-set_keeps,
}
use telos.Proc.{
  Kernel, Pcb, ProcStatus, runnable, is_dead, no_pcb, pcb_at, with_pcb, wake, ready, nr_files,
}
use telos.Proc.Kill.{kill, post, needs_wake}
use telos.Proc.Exit.{file_unref, close_file, sys_close, close_files}

-- What of a process its family sees.
pub record Family : Type 0 where
  pub gone : Bool
  pub pid : ℕ
  pub parent_pid : ℕ
  pub child_stats : List ProcStatus
  pub children : List ℕ

unfoldable pub family_of : Pcb → Family
family_of x = record {
  gone = is_dead x.state;
  pid = x.pid;
  parent_pid = x.parent_pid;
  child_stats = x.child_stats;
  children = x.children;
}

abbrev pub family : Kernel → ℕ → Family
family k p = family_of (pcb_at k p)

abbrev pub SameFamilies : Kernel → Kernel → Type 0
SameFamilies k k' = (p : ℕ) → family k' p ≡ family k p

pub with_pcb-SameFamilies :
    (k : Kernel) (p : ℕ) (v : Pcb)
    → family_of v ≡ family_of (pcb_at k p)
    → SameFamilies k (with_pcb k p v)
with_pcb-SameFamilies k p v e q = get_or-set_keeps family_of k.proctab p q v no_pcb e

family_runnable :
    (x : Pcb) → is_dead x.state ≡ false → family_of (record x { state = runnable }) ≡ family_of x
unfolding family_of
family_runnable x alive = rw alive refl

pub family_gone : (x y : Pcb) → family_of x ≡ family_of y → is_dead x.state ≡ is_dead y.state
unfolding family_of
family_gone x y e = ap (λ (f : Family). f.gone) e

family_rc : (x : Pcb) (rc : ℕ) → family_of (record x { rc = rc }) ≡ family_of x
unfolding family_of
family_rc x rc = refl

family_filp :
    (x : Pcb) (files : List (Option ℕ)) → family_of (record x { filp = files }) ≡ family_of x
unfolding family_of
family_filp x files = refl

family-post : (x : Pcb) (n code pid : ℕ) → family_of (post x n code pid) ≡ family_of x
unfolding family_of post
family-post x n code pid = refl

needs_wake_alive : (x : Pcb) (n : ℕ) → needs_wake x n ≡ true → is_dead x.state ≡ false
unfolding needs_wake
needs_wake_alive x n h = ground arith

pub wake-SameFamilies :
    (k : Kernel) (p rc : ℕ) → is_dead (pcb_at k p).state ≡ false → SameFamilies k (wake k p rc)
unfolding wake ready
wake-SameFamilies k p rc alive q =
    let k1 = with_pcb k p (record (pcb_at k p) { rc = rc }) in
    let same = with_pcb-SameFamilies k p _ (family_rc (pcb_at k p) rc) in
    let alive1 : is_dead (pcb_at k1 p).state ≡ false =
      family_gone (pcb_at k1 p) (pcb_at k p) (same p) ∙ alive in
    with_pcb-SameFamilies k1 p _ (family_runnable (pcb_at k1 p) alive1) q ∙ same q

pub kill-SameFamilies : (k : Kernel) (p n code : ℕ) → SameFamilies k (kill k p n code)
unfolding kill
kill-SameFamilies k p n code q =
    let v : Pcb = post (pcb_at k p) n code (pcb_at k k.current).pid in
    let k1 = with_pcb k p v in
    let same = with_pcb-SameFamilies k p v (family-post (pcb_at k p) n code _) in
    elim (Bool-cases (needs_wake (pcb_at k1 p) n)) [
      | inl w ↦ rw w (wake-SameFamilies k1 p n (needs_wake_alive (pcb_at k1 p) n w) q ∙ same q)
      | inr w ↦ rw w (same q)
    ]

-- Closing files changes no family, if releasing a file does not.
module _ (release : ℕ → Kernel → Kernel)
    (keeps : (f : ℕ) (k : Kernel) → SameFamilies k (release f k)) where
  file_unref-SameFamilies : (k : Kernel) (f : ℕ) → SameFamilies k (file_unref release k f)
  unfolding file_unref
  file_unref-SameFamilies k f q =
      let n : ℕ = (get_or k.f_counts f 0 + (2 ^ 16 - 1)) % 2 ^ 16 in
      let k' = record k { f_counts = set k.f_counts f n } in
      elim (Bool-cases (ltb 0 n)) [ inl more ↦ rw more refl | inr last ↦ rw last (keeps f k' q) ]

  close_file-SameFamilies : (k : Kernel) (fd f : ℕ) → SameFamilies k (close_file release k fd f)
  unfolding close_file
  close_file-SameFamilies k fd f q =
      let v : Pcb = record (pcb_at k k.current) { filp = set (pcb_at k k.current).filp fd none } in
      let same = with_pcb-SameFamilies k k.current v (family_filp (pcb_at k k.current) v.filp) q in
      elim (Bool-cases (get_or k.f_counts f 0 == 0)) [
        | inl none_left ↦ rw none_left same
        | inr some_left ↦ rw some_left (file_unref-SameFamilies (with_pcb k k.current v) f q ∙ same)
      ]

  sys_close-SameFamilies : (k : Kernel) (fd : ℕ) → SameFamilies k (sys_close release k fd).1
  unfolding sys_close
  sys_close-SameFamilies k fd q = elim (Bool-cases (leb nr_files fd)) [
    | inl out ↦ rw out refl
    | inr inside ↦ rw inside (elim (Option-cases (get_or (pcb_at k k.current).filp fd none)) [
      | inl free ↦ rw free refl
      | inr (f, file) ↦ rw file (close_file-SameFamilies k fd f q)
    ])
  ]

  pub close_files-SameFamilies :
      (n fd : ℕ) (k : Kernel) → SameFamilies k (close_files release n fd k)
  unfolding close_files
  close_files-SameFamilies zero fd k q = refl
  close_files-SameFamilies (suc n) fd k q =
      close_files-SameFamilies n (fd + 1) _ q ∙ sys_close-SameFamilies k fd q
