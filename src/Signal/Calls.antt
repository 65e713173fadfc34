-- ===== src/Signal/Calls.antt =====
-- The system calls that change how signals are handled, and delivery to a handler
-- (dispatch/signal.c). What `vm_verify` says of a pointer of the user comes as a Boolean.
use telos.Prelude.{
  ℕ, ◌==◌, if◌then◌else◌, Option, none, some, Bool, true, false, not, ◌&&◌, ◌||◌, bit_and, bit_or,
  get_or, set,
}
use telos.Word.{not32}
use telos.Errno.{Status, ok, fail, einval, efault, enotsup}
use telos.Signal.{
  SigStruct, Action, Siginfo, Handler, ignores, is_default, no_info, action_of, sig_noignore,
  sa_siginfo, signo_valid, sig_unblockable, sigaddset, sigdelset, sig_set_default, signal_pending,
  pending_signal,
}

-- A new action from the user, and whether it and its handler can be read.
pub record UserAction : Type 0 where
  pub action : Action
  pub readable : Bool
  pub handler_readable : Bool

unfoldable pub verify_sigaction : UserAction → Bool
verify_sigaction u =
    u.readable && (is_default u.action.handler || ignores u.action.handler || u.handler_readable)

-- What a call returns: the result, what it writes back, and the signals of the process.
pub record Reply {ℓ} (A : Type ℓ) : Type ℓ where
  pub status : Status
  pub out : Option A
  pub sig : SigStruct

-- The last part of `sys_sigaction`, `*sap = *act` and what follows.
unfoldable pub install : SigStruct → ℕ → Action → SigStruct
unfolding sig_set_default sigaddset
install s n act = record s {
  actions = set s.actions n (if is_default act.handler then sig_set_default act n else act);
  mask = sigaddset s.mask n;
}

abbrev pub unreadable : Option UserAction → Bool
unreadable none = false
unreadable (some u) = not (verify_sigaction u)

-- `oact` is `some` with whether it can be written, if it is given.
abbrev pub unwritable : Option Bool → Bool
unwritable none = false
unwritable (some w) = not w

abbrev pub is_given {ℓ} : {A : Type ℓ} → Option A → Bool
is_given none = false
is_given (some a) = true

unfoldable pub sys_sigaction : SigStruct → ℕ → Option UserAction → Option Bool → Reply Action
unfolding verify_sigaction install signo_valid sig_unblockable
sys_sigaction s n act oact =
    let old = action_of s n in
    if unreadable act
    then record { status = fail efault; out = none; sig = s }
    else if unwritable oact
    then record { status = fail efault; out = none; sig = s }
    else if not (signo_valid n) || sig_unblockable n
    then record { status = fail einval; out = none; sig = s }
    else record {
      status = ok;
      out = if is_given oact then some old else none;
      sig = elim act [ none ↦ s | some u ↦ install s n u.action ];
    }

abbrev pub sig_block : ℕ
sig_block = 0

abbrev pub sig_setmask : ℕ
sig_setmask = 1

abbrev pub sig_unblock : ℕ
sig_unblock = 2

-- The switch of `sys_sigprocmask` on `how`.
unfoldable pub new_mask : ℕ → ℕ → ℕ → Option ℕ
new_mask how mask sigs =
    if how == sig_block
    then some (bit_or (bit_and mask (not32 sigs)) sig_noignore)
    else if how == sig_setmask
    then some (bit_or (not32 sigs) sig_noignore)
    else if how == sig_unblock
    then some (bit_or mask sigs)
    else none

-- `set` is given with whether it can be read. The old mask is written before `how` is looked at.
unfoldable pub sys_sigprocmask : SigStruct → ℕ → Option (ℕ × Bool) → Option Bool → Reply ℕ
unfolding new_mask
sys_sigprocmask s how sigs oset =
    let out : Option ℕ = if is_given oset then some (not32 s.mask) else none in
    if unwritable (elim sigs [ none ↦ none | some p ↦ some p.1 ])
    then record { status = fail efault; out = none; sig = s }
    else if unwritable oset
    then record { status = fail efault; out = none; sig = s }
    else elim sigs [
      | none ↦ record { status = ok; out = out; sig = s }
      | some p ↦ elim (new_mask how s.mask p.0) [
        | none ↦ record { status = fail einval; out = out; sig = s }
        | some m ↦ record { status = ok; out = out; sig = record s { mask = m } }
      ]
    ]

-- `sys_sigsuspend` before it gives up the processor.
unfoldable pub sys_sigsuspend : SigStruct → ℕ → SigStruct
sys_sigsuspend s mask = record s { restore = s.mask; mask = bit_or (not32 mask) sig_noignore }

-- What `place_sig_frame` puts on the stack of the user: the handler, the signal, the information
-- that goes with it for SA_SIGINFO, and the mask to go back to.
pub record Frame : Type 0 where
  pub handler : Handler
  pub signo : ℕ
  pub info : Option Siginfo
  pub saved_mask : ℕ

unfoldable pub place_sig_frame : SigStruct → ℕ → Frame × SigStruct
place_sig_frame s n = (
  record {
    handler = (action_of s n).handler;
    signo = n;
    info =
        if bit_and (action_of s n).flags sa_siginfo == 0
        then none
        else some (get_or s.infos n no_info);
    saved_mask = if s.restore == 0 then s.mask else s.restore;
  },
  record s { restore = 0 },
)

unfoldable pub send_signal_user : SigStruct → ℕ → Option Frame × SigStruct
unfolding place_sig_frame sigdelset
send_signal_user s n =
    let (frame, s') = place_sig_frame s n in
    if ignores (action_of s n).handler
    then (none, record s { pending = sigdelset s.pending n })
    else (
      some frame,
      record s' {
        mask = bit_and s'.mask (not32 (action_of s n).mask);
        pending = sigdelset s'.pending n;
      },
    )

-- `super` is PFLAG_SUPER of the process.
unfoldable pub send_signal : Bool → SigStruct → ℕ → Status × Option Frame × SigStruct
send_signal super s n =
    let (frame, s') = send_signal_user s n in
    if not (signo_valid n)
    then (fail einval, none, s)
    else if super
    then (fail enotsup, none, s)
    else (ok, frame, s')

unfoldable pub handle_signal : Bool → SigStruct → Option Frame × SigStruct
handle_signal super s =
    let (status, frame, s') = send_signal super s (pending_signal s) in
    if signal_pending s then (frame, s') else (none, s)

-- The mask is read back from the stack of the user.
unfoldable pub sig_restore : SigStruct → Frame → SigStruct
sig_restore s frame = record s { mask = frame.saved_mask }
