-- ===== src/Signal/Tests.antt =====
-- Runs of the signal functions at concrete inputs.
use telos.Prelude.{
  ℕ, zero, suc, ◌<◌, ◌≡◌, ◌≢◌, refl, none, some, true, false, ◌⊎◌, inl, [], ◌∷◌, arith, get_or,
}
use telos.Word.{word_mod, not32}
use telos.Word.Bits.{bit}
use telos.Errno.{ok, fail, efault, einval}
use telos.Signal.{
  SigStruct, Action, Handler, Siginfo, user, sig_ign, sig_dfl, null, ignores, action_of, no_action,
  sigkill, sigstop, signal_blocked, signo_valid, sig_init, default_table, sig_exec, each_action,
  sig_set_default,
}
use telos.Signal.Calls.{
  UserAction, Frame, sys_sigaction, sys_sigprocmask, sys_sigsuspend, send_signal_user,
  handle_signal, sig_restore, install, is_given,
}
use telos.Signal.Mask.{sys_sigprocmask-bit, sys_sigprocmask_blocks_sigstop}
use telos.Signal.Deliver.{handle_signal-Outcome, sigsuspend_restores, deliverable, Outcome}
use telos.Signal.Actions.{sys_sigaction_cases, sys_sigaction_keeps, sig_exec_lem, of_user}

abbrev handled_action : Action
handled_action = record { handler = user 4096; mask = 2; flags = 0 }

abbrev ignored_action : Action
ignored_action = record { handler = sig_ign; mask = 0; flags = 0 }

-- Signal 1 has a handler, signal 2 is ignored, both are pending.
abbrev two_pending : SigStruct
two_pending = record {
  pending = 3;
  mask = 4294967295;
  restore = 0;
  actions = no_action ∷ handled_action ∷ ignored_action ∷ [];
  infos = [];
}

abbrev new_action : UserAction
new_action = record { action = handled_action; readable = true; handler_readable = true }

handle_twice : (handle_signal false (handle_signal false two_pending).1).1.mask ≡ 4294967293
unfolding handle_signal telos.Signal.signal_pending telos.Signal.Calls.send_signal signo_valid
    telos.Signal.pending_signal telos.Word.Bits.fls bit send_signal_user
handle_twice = refl

sys_sigprocmask-bit_example :
    let r = sys_sigprocmask two_pending 1 (some (3, true)) (some true) in
    (r.status ≡ ok) × (r.out ≡ some (not32 4294967295)) × (bit 0 r.sig.mask ≡ false)
unfolding bit
sys_sigprocmask-bit_example =
    sys_sigprocmask-bit two_pending 1 3 0 (omega arith) (omega arith) (omega arith)

sys_sigprocmask_blocks_sigstop_run :
    let s' = (sys_sigprocmask two_pending 1 (some (4294967295, true)) (some true)).sig in
    (signal_blocked s' sigkill ≡ false) × (signal_blocked s' sigstop ≡ true)
unfolding bit
sys_sigprocmask_blocks_sigstop_run =
    sys_sigprocmask_blocks_sigstop two_pending 1 4294967295 (omega arith) (omega arith)
      (omega arith) refl refl

action_mask_small : (n : ℕ) → (action_of two_pending n).mask < word_mod
action_mask_small zero = omega arith
action_mask_small (suc zero) = omega arith
action_mask_small (suc (suc zero)) = omega arith
action_mask_small (suc (suc (suc n))) = omega arith

abbrev Delivered : SigStruct → Type 0
Delivered s =
    ((n : ℕ) × (n < 28)
      × (deliverable s n ≡ true)
      × ((k : ℕ) → n < k → k < 32 → deliverable s k ≡ false)
      × Outcome s n (handle_signal false s).0 (handle_signal false s).1)
    ⊎ (((k : ℕ) → k < 32 → deliverable s k ≡ false) × (handle_signal false s ≡ (none, s)))

handle_signal-Outcome_example : Delivered two_pending
handle_signal-Outcome_example = handle_signal-Outcome two_pending (omega arith) action_mask_small

sigsuspend_restores_example :
    (frame : Frame) × ((send_signal_user (sys_sigsuspend two_pending 0) 1).0 ≡ some frame)
    × ((sig_restore (send_signal_user (sys_sigsuspend two_pending 0) 1).1 frame).mask
        ≡ two_pending.mask)
sigsuspend_restores_example = sigsuspend_restores two_pending 0 1 (omega arith) refl

sys_sigaction_cases_run :
    let r = sys_sigaction two_pending 5 (some new_action) (some true) in
    (((false ≡ true) × (r.status ≡ fail efault) ⊎ (false ≡ true) × (r.status ≡ fail einval))
      × (r.out ≡ none)
      × (r.sig ≡ two_pending))
    ⊎ ((r.status ≡ ok)
        × (signo_valid 5 ≡ true)
        × (5 ≢ sigkill)
        × (5 ≢ sigstop)
        × (r.out ≡ some (action_of two_pending 5))
        × (r.sig ≡ install two_pending 5 handled_action))
unfolding telos.Signal.Calls.verify_sigaction signo_valid telos.Signal.sig_unblockable
sys_sigaction_cases_run = sys_sigaction_cases two_pending 5 (some new_action) (some true)

sys_sigaction_keeps_run :
    action_of (sys_sigaction two_pending 5 (some new_action) none).sig 28 ≡ action_of two_pending 28
sys_sigaction_keeps_run = sys_sigaction_keeps two_pending 5 28 (some new_action) none (inl refl)

sig_exec_lem_run :
    let new = action_of (sig_exec two_pending) 1 in
    (new.handler ≡ get_or default_table 1 null)
    × (of_user new.handler ≡ false)
    × (new.mask ≡ 2)
    × (new.flags ≡ 0)
sig_exec_lem_run = sig_exec_lem two_pending 1 (omega arith)
