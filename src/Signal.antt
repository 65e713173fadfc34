-- ===== src/Signal.antt =====
-- Signals of a process (include/telos/signal.h, include/kernel/signal.h, dispatch/signal.c). In
-- `mask` a bit is set for a signal that is let through; signal `n` is bit `n - 1`.
pub mod Calls
pub mod Mask
pub mod Deliver
pub mod Actions
mod Tests
use telos.Prelude.{
  ℕ, ◌+◌, ◌-◌, ◌^◌, ◌==◌, ltb, leb, if◌then◌else◌, Option, none, some, Bool, true, false, not, ◌&&◌,
  ◌||◌, List, [], ◌∷◌, bit_and, bit_or, get_or, set, map,
}
use telos.Word.{not32}
use telos.Word.Bits.{fls}
use telos.Errno.{Status, ok, fail, einval}

abbrev pub sigchld : ℕ
sigchld = 4

abbrev pub sigstop : ℕ
sigstop = 27

abbrev pub sigkill : ℕ
sigkill = 28

abbrev pub sigmax : ℕ
sigmax = 29

abbrev pub sa_siginfo : ℕ
sa_siginfo = 16

-- The addresses that have a meaning of their own, the two functions of the kernel, an entry of
-- the table that is not filled in, and a handler of the user.
pub data Handler : Type 0 where
  sig_dfl sig_err sig_hold sig_ign : Handler
  sig_terminate sig_stop : Handler
  null : Handler
  user : ℕ → Handler

abbrev pub ignores : Handler → Bool
ignores sig_ign = true
ignores _ = false

abbrev pub is_default : Handler → Bool
is_default sig_dfl = true
is_default _ = false

pub record Action : Type 0 where
  pub handler : Handler
  pub mask : ℕ
  pub flags : ℕ

-- `struct siginfo`
pub record Siginfo : Type 0 where
  pub code : ℕ
  pub errno : ℕ
  pub pid : ℕ
  pub addr : ℕ
  pub status : ℕ
  pub band : ℕ
  pub value : ℕ

pub record SigStruct : Type 0 where
  pub pending : ℕ
  pub mask : ℕ
  pub restore : ℕ
  pub actions : List Action
  pub infos : List Siginfo

-- The table `sig_default`, from signal 0 on.
abbrev pub default_table : List Handler
default_table =
    null ∷ sig_terminate ∷ sig_terminate ∷ sig_terminate ∷ sig_ign ∷ sig_ign ∷ sig_terminate
    ∷ sig_terminate ∷ sig_terminate ∷ sig_terminate ∷ sig_terminate ∷ sig_terminate ∷ sig_terminate
    ∷ sig_terminate ∷ sig_stop ∷ sig_stop ∷ sig_stop ∷ sig_terminate ∷ sig_terminate ∷ sig_terminate
    ∷ sig_terminate ∷ sig_terminate ∷ sig_terminate ∷ sig_ign ∷ sig_terminate ∷ sig_terminate
    ∷ sig_terminate ∷ sig_stop ∷ sig_terminate ∷ []

abbrev pub no_action : Action
no_action = record { handler = null; mask = 0; flags = 0 }

abbrev pub no_info : Siginfo
no_info = record { code = 0; errno = 0; pid = 0; addr = 0; status = 0; band = 0; value = 0 }

abbrev pub action_of : SigStruct → ℕ → Action
action_of s n = get_or s.actions n no_action

-- `BIT(nr)`, and `SIG_NOIGNORE` as it is written
abbrev pub bit_of : ℕ → ℕ
bit_of nr = 2 ^ nr

abbrev pub sig_noignore : ℕ
sig_noignore = bit_or (bit_of sigkill) (bit_of sigstop)

unfoldable pub signo_valid : ℕ → Bool
signo_valid n = ltb 0 n && ltb n sigmax

unfoldable pub sig_unblockable : ℕ → Bool
sig_unblockable n = n == sigkill || n == sigstop

-- `__SIGISMEMBER`, `set_bit(n - 1, …)`, `clear_bit(n - 1, …)`
unfoldable pub sigismember : ℕ → ℕ → Bool
sigismember sigs n = not (bit_and sigs (2 ^ (n - 1)) == 0)

unfoldable pub sigaddset : ℕ → ℕ → ℕ
sigaddset sigs n = bit_or sigs (2 ^ (n - 1))

unfoldable pub sigdelset : ℕ → ℕ → ℕ
sigdelset sigs n = bit_and sigs (not32 (2 ^ (n - 1)))

-- Two conditions and a number
unfoldable pub signal_pending : SigStruct → Bool
signal_pending s = not (bit_and s.pending s.mask == 0)

unfoldable pub pending_signal : SigStruct → ℕ
pending_signal s = fls (bit_and s.pending s.mask)

unfoldable pub signal_ignored : SigStruct → ℕ → Bool
signal_ignored s n = ignores (action_of s n).handler

unfoldable pub signal_blocked : SigStruct → ℕ → Bool
unfolding sigismember
signal_blocked s n = not (sigismember s.mask n)

unfoldable pub signal_accepted : SigStruct → ℕ → Bool
unfolding signal_ignored signal_blocked
signal_accepted s n = not (signal_ignored s n) && not (signal_blocked s n)

-- `sig_set_default` for the action of signal `n`
unfoldable pub sig_set_default : Action → ℕ → Action
sig_set_default a n = record a { handler = get_or default_table n null }

-- The loops over all signals: `f` is applied to each action with its number, from `n` on.
unfoldable pub each_action : (Action → ℕ → Action) → ℕ → List Action → List Action
each_action f n [] = []
each_action f n (a ∷ as') = f a n ∷ each_action f (n + 1) as'

unfoldable pub sig_init : SigStruct → SigStruct
unfolding each_action sig_set_default
sig_init s = record s {
  pending = 0;
  mask = not32 0;
  restore = 0;
  actions = each_action sig_set_default 0 s.actions;
}

-- `sig_clone(dst, src)`; the `infos` of `dst` stay.
unfoldable pub sig_clone : SigStruct → SigStruct → SigStruct
sig_clone dst src = record dst {
  pending = 0;
  mask = src.mask;
  restore = src.restore;
  actions = src.actions;
}

unfoldable pub reset_action : Action → ℕ → Action
unfolding sig_set_default
reset_action a n = if ignores a.handler then a else sig_set_default a n

unfoldable pub sig_exec : SigStruct → SigStruct
unfolding each_action reset_action
sig_exec s = record s { actions = each_action reset_action 0 s.actions }
