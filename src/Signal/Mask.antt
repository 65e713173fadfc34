-- ===== src/Signal/Mask.antt =====
-- The mask as a set of signals: what `sys_sigprocmask` does to each, and which signals it cannot
-- block.
use telos.Prelude.{
  ℕ, ◌-◌, ◌<◌, ◌≡◌, ltb, ◌==◌, if◌then◌else◌, some, Bool, true, false, not, ◌&&◌, ◌||◌, bit_and,
  arith, ◌^◌,
}
use telos.Word.{word_mod, not32}
use telos.Word.Bits.{bit, bit-bit_and, bit-bit_or, bit-not32, bit-shift, bit_and-shift}
use telos.Errno.{ok, fail, einval}
use telos.Signal.{SigStruct, sig_noignore, sigismember, signal_blocked, sigstop, sigkill}
use telos.Signal.Calls.{sys_sigprocmask, sig_block, sig_setmask}

pub sigismember-bit : (sigs n : ℕ) → sigismember sigs n ≡ bit (n - 1) sigs
unfolding sigismember
sigismember-bit sigs n = bit_and-shift (n - 1) sigs

-- The bits of SIG_NOIGNORE are those of the signals 28 and 29.
bit-sig_noignore : (k : ℕ) → bit k sig_noignore ≡ (k == 28 || k == 27)
bit-sig_noignore k = ground (arith, bit-bit_or k (2 ^ 28) (2 ^ 27), bit-shift k 28, bit-shift k 27)

-- What is to become of signal `k + 1`, by the three ways to change the mask.
abbrev pub unblocked_after : ℕ → Bool → Bool → ℕ → Bool
unblocked_after how before given k =
    if how == sig_block
    then (before && not given) || (k == 28 || k == 27)
    else if how == sig_setmask
    then not given || (k == 28 || k == 27)
    else before || given

-- `sys_sigprocmask` with a set that can be read and a place for the old one that can be written,
-- all of 32 bits: each signal becomes unblocked as SIG_BLOCK, SIG_SETMASK and SIG_UNBLOCK say,
-- the signals 28 and 29 always under the first two; any other `how` changes nothing and fails.
-- The old set of blocked signals is written in each case.
pub sys_sigprocmask-bit :
    (s : SigStruct) (how sigs k : ℕ)
    → s.mask < word_mod
    → sigs < word_mod
    → k < 32
    → let r = sys_sigprocmask s how (some (sigs, true)) (some true) in
      (r.status ≡ (if ltb how 3 then ok else fail einval))
      × (r.out ≡ some (not32 s.mask))
      × (bit k r.sig.mask
          ≡ (if ltb how 3 then unblocked_after how (bit k s.mask) (bit k sigs) k else bit k s.mask))
unfolding sys_sigprocmask
sys_sigprocmask-bit s how sigs k hm hs hk = ground (
  arith,
  bit-bit_or k (bit_and s.mask (not32 sigs)) sig_noignore,
  bit-bit_and k s.mask (not32 sigs),
  bit-bit_or k (not32 sigs) sig_noignore,
  bit-bit_or k s.mask sigs,
  bit-not32 k sigs hk hs,
  bit-sig_noignore k,
)

-- With SIG_SETMASK or SIG_BLOCK, a set that holds SIGSTOP, and masks of 32 bits, SIGKILL is
-- unblocked if it was before, but SIGSTOP becomes blocked: `BIT` counts from 0 and signals from
-- 1.
pub sys_sigprocmask_blocks_sigstop :
    (s : SigStruct) (how sigs : ℕ)
    → s.mask < word_mod
    → sigs < word_mod
    → how < 2
    → bit 27 s.mask ≡ true
    → bit 26 sigs ≡ true
    → let s' = (sys_sigprocmask s how (some (sigs, true)) (some true)).sig in
      (signal_blocked s' sigkill ≡ false) × (signal_blocked s' sigstop ≡ true)
unfolding signal_blocked
sys_sigprocmask_blocks_sigstop s how sigs hm hs hw kill stop =
    let s' : SigStruct = (sys_sigprocmask s how (some (sigs, true)) (some true)).sig in
    (
      ground (
        arith,
        sigismember-bit s'.mask 28,
        sys_sigprocmask-bit s how sigs 27 hm hs (omega arith),
      ),
      ground (
        arith,
        sigismember-bit s'.mask 27,
        sys_sigprocmask-bit s how sigs 26 hm hs (omega arith),
      ),
    )
