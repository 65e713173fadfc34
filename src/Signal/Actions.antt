-- ===== src/Signal/Actions.antt =====
-- Which actions can be installed, and what is left of them across exec.
use telos.Prelude.{
  ℕ, zero, suc, ◌+◌, ◌<◌, ◌≡◌, ◌≢◌, ◌∙◌, not, ◌||◌, refl, ap, if◌then◌else◌, Option, none, some,
  Bool, true, false, ◌⊎◌, inl, inr, List, [], ◌∷◌, All, get_or, get_or-set_ne, length, arith,
}
use telos.Errno.{ok, fail, efault, einval}
use telos.Signal.{
  SigStruct, Action, Handler, ignores, is_default, no_action, action_of, sigkill, sigstop,
  sig_set_default, each_action, reset_action, sig_exec, signo_valid, sig_unblockable, default_table,
  sig_ign, user, sig_dfl, null, sig_terminate, sig_stop, sig_err, sig_hold,
}
use telos.Signal.Calls.{unreadable, unwritable, UserAction, install, sys_sigaction, is_given}

-- `sys_sigaction` either fails and changes nothing, with EFAULT only if a pointer is bad and with
-- EINVAL only for a signal that is not valid or is SIGKILL or SIGSTOP; or it is given another
-- signal, writes back the action that it had, and then installs the new one, if there is one.
pub sys_sigaction_cases :
    (s : SigStruct) (n : ℕ) (act : Option UserAction) (oact : Option Bool)
    → let r = sys_sigaction s n act oact in
      ((((unreadable act || unwritable oact) ≡ true) × (r.status ≡ fail efault)
          ⊎ ((not (signo_valid n) || sig_unblockable n) ≡ true) × (r.status ≡ fail einval))
        × (r.out ≡ none)
        × (r.sig ≡ s))
      ⊎ ((r.status ≡ ok)
          × (signo_valid n ≡ true)
          × (n ≢ sigkill)
          × (n ≢ sigstop)
          × (r.out ≡ (if is_given oact then some (action_of s n) else none))
          × (r.sig ≡ elim act [ none ↦ s | some u ↦ install s n u.action ]))
unfolding sys_sigaction signo_valid sig_unblockable
sys_sigaction_cases s n none oact = ground arith
sys_sigaction_cases s n (some u) oact = ground arith

other : {n k : ℕ} → n ≢ sigkill → n ≢ sigstop → (k ≡ sigkill) ⊎ (k ≡ sigstop) → n ≢ k
other p q (inl e) f = p (f ∙ e)
other p q (inr e) f = q (f ∙ e)

-- The actions of SIGKILL and SIGSTOP cannot be changed.
pub sys_sigaction_keeps :
    (s : SigStruct) (n k : ℕ) (act : Option UserAction) (oact : Option Bool)
    → (k ≡ sigkill) ⊎ (k ≡ sigstop)
    → action_of (sys_sigaction s n act oact).sig k ≡ action_of s k
unfolding install
sys_sigaction_keeps s n k none oact h = elim (sys_sigaction_cases s n none oact) [
  | inl c ↦ ap (λ t. action_of t k) c.2
  | inr c ↦ ap (λ t. action_of t k) c.5
]
sys_sigaction_keeps s n k (some u) oact h = elim (sys_sigaction_cases s n (some u) oact) [
  | inl c ↦ ap (λ t. action_of t k) c.2
  | inr c ↦
      ap (λ t. action_of t k) c.5
      ∙ get_or-set_ne s.actions n k
          (if is_default u.action.handler then sig_set_default u.action n else u.action) no_action
          (other c.2 c.3 h)
]

abbrev pub of_user : Handler → Bool
of_user (user x) = true
of_user _ = false

get_or-All {ℓ κ} :
    {A : Type ℓ} (P : A → Type κ) (xs : List A) (k : ℕ) (d : A) → P d → All P xs → P (get_or xs k d)
get_or-All P [] k d p h = p
get_or-All P (x ∷ xs) zero d p h = h.0
get_or-All P (x ∷ xs) (suc k) d p h = get_or-All P xs k d p h.1

default_of_user : (n : ℕ) → of_user (get_or default_table n null) ≡ false
default_of_user n = get_or-All (λ h. of_user h ≡ false) default_table n null refl (ground arith)

get_or-each_action :
    (f : Action → ℕ → Action) (as' : List Action) (n k : ℕ)
    → k < length as'
    → get_or (each_action f n as') k no_action ≡ f (get_or as' k no_action) (n + k)
unfolding each_action
get_or-each_action f [] n k h = absurd (omega arith)
get_or-each_action f (a ∷ as') n zero h = ap (f a) (omega arith)
get_or-each_action f (a ∷ as') n (suc k) h =
    let e : n + 1 + k ≡ n + suc k = omega arith in
    rw (get_or-each_action f as' (n + 1) k (omega arith), e)

reset_action_lem :
    (h : Handler) (m f k : ℕ)
    → let new = reset_action (record { handler = h; mask = m; flags = f }) k in
      (new.handler ≡ (if ignores h then sig_ign else get_or default_table k null))
      × (of_user new.handler ≡ false)
      × (new.mask ≡ m)
      × (new.flags ≡ f)
unfolding reset_action sig_set_default
reset_action_lem sig_ign m f k = (refl, refl, refl, refl)
reset_action_lem sig_dfl m f k = (refl, default_of_user k, refl, refl)
reset_action_lem sig_err m f k = (refl, default_of_user k, refl, refl)
reset_action_lem sig_hold m f k = (refl, default_of_user k, refl, refl)
reset_action_lem sig_terminate m f k = (refl, default_of_user k, refl, refl)
reset_action_lem sig_stop m f k = (refl, default_of_user k, refl, refl)
reset_action_lem null m f k = (refl, default_of_user k, refl, refl)
reset_action_lem (user x) m f k = (refl, default_of_user k, refl, refl)

-- For every signal that has an action: after exec, if it was ignored it still is, and otherwise
-- it has its default handler, never one of the user; the mask and the flags of the action stay.
pub sig_exec_lem :
    (s : SigStruct) (k : ℕ)
    → k < length s.actions
    → let old = action_of s k in
      let new = action_of (sig_exec s) k in
      (new.handler ≡ (if ignores old.handler then sig_ign else get_or default_table k null))
      × (of_user new.handler ≡ false)
      × (new.mask ≡ old.mask)
      × (new.flags ≡ old.flags)
unfolding sig_exec
sig_exec_lem s k h =
    let a = action_of s k in
    let e : 0 + k ≡ k = omega arith in
    rw (get_or-each_action reset_action s.actions 0 k h, e)
      (reset_action_lem a.handler a.mask a.flags k)
