-- ===== src/Signal/Deliver.antt =====
-- Delivery of a signal to its handler, and the way back.
use telos.Prelude.{
  ℕ, suc, ◌-◌, ◌<◌, ◌≡◌, ◌≢◌, refl, ap, ◌==◌, if◌then◌else◌, Option, none, some, Bool, true, false,
  not, ◌&&◌, ◌⊎◌, inl, inr, Bool-cases, bit_and, arith, ◌^◌,
}
use telos.Word.{word_mod, not32}
use telos.Word.Bits.{
  bit, bit-bit_and, bit-not32, bit-clear, fls, fls_below_set, fls_below_clear, bit_of_zero,
  zero_of_bits, bit_high, bit_and-le,
}
use native.Mathlib.Decide.{dec_lt}
use telos.Signal.{
  SigStruct, ignores, action_of, signal_pending, pending_signal, signo_valid, sigdelset,
}
use telos.Signal.Calls.{
  Frame, place_sig_frame, send_signal_user, send_signal, handle_signal, sig_restore, sys_sigsuspend,
}

-- `k` is the index of the bit of signal `k + 1`.
abbrev pub deliverable : SigStruct → ℕ → Bool
deliverable s k = bit k s.pending && bit k s.mask

-- The signal with bit `n` has been taken: `frame` is for its handler, `s'` what is left.
pub record Taken (s : SigStruct) (n : ℕ) (frame : Frame) (s' : SigStruct) : Type 0 where
  pub signo : frame.signo ≡ suc n
  pub handler : frame.handler ≡ (action_of s (suc n)).handler
  pub saved : frame.saved_mask ≡ (if s.restore == 0 then s.mask else s.restore)
  pub restored : s'.restore ≡ 0
  pub masked :
      (k : ℕ) → k < 32 → bit k s'.mask ≡ (bit k s.mask && not (bit k (action_of s (suc n)).mask))
  pub cleared : (k : ℕ) → k < 32 → bit k s'.pending ≡ (bit k s.pending && not (k == n))

fls-deliverable :
    (s : SigStruct) (n : ℕ)
    → pending_signal s ≡ suc n
    → (n < 32) × (deliverable s n ≡ true) × ((k : ℕ) → n < k → k < 32 → deliverable s k ≡ false)
unfolding pending_signal fls
fls-deliverable s n e =
    let (lt, b) = fls_below_set 32 (bit_and s.pending s.mask) n e in
    (
      lt,
      ground (arith, bit-bit_and n s.pending s.mask),
      λ k h l. ground (
        arith,
        bit-bit_and k s.pending s.mask,
        fls_below_clear 32 (bit_and s.pending s.mask) k (omega arith) l,
      ),
    )

-- The signals of the process once the handler of `n` is about to run.
abbrev in_handler : SigStruct → ℕ → SigStruct
in_handler s n = record s {
  pending = sigdelset s.pending n;
  mask = bit_and s.mask (not32 (action_of s n).mask);
  restore = 0;
}

send_signal_user_handled :
    (s : SigStruct) (n : ℕ)
    → ignores (action_of s n).handler ≡ false
    → send_signal_user s n ≡ (some (place_sig_frame s n).0, in_handler s n)
unfolding send_signal_user
send_signal_user_handled s n i = rw i

send_signal_user_ignored :
    (s : SigStruct) (n : ℕ)
    → ignores (action_of s n).handler ≡ true
    → send_signal_user s n ≡ (none, record s { pending = sigdelset s.pending n })
unfolding send_signal_user
send_signal_user_ignored s n i = rw i

sigdelset-bit :
    (sigs n k : ℕ) → n < 32 → k < 32 → bit k (sigdelset sigs (suc n)) ≡ (bit k sigs && not (k == n))
unfolding sigdelset
sigdelset-bit sigs n k h l = let e : suc n - 1 ≡ n = omega arith in rw e (bit-clear k n sigs l h)

in_handler-Taken :
    (s : SigStruct) (n : ℕ)
    → n < 32
    → (action_of s (suc n)).mask < word_mod
    → Taken s n (place_sig_frame s (suc n)).0 (in_handler s (suc n))
unfolding place_sig_frame
in_handler-Taken s n h w = record {
  signo = refl;
  handler = refl;
  saved = refl;
  restored = refl;
  masked = λ k l. ground (
    arith,
    bit-bit_and k s.mask (not32 (action_of s (suc n)).mask),
    bit-not32 k (action_of s (suc n)).mask l w,
  );
  cleared = λ k l. sigdelset-bit s.pending n k h l;
}

-- The outcome of `handle_signal` when signal `n + 1` is taken: its handler is to run, or, if it is
-- ignored, it is no longer pending and nothing else changes.
pub data Outcome (s : SigStruct) (n : ℕ) (frame : Option Frame) (s' : SigStruct) : Type 0 where
  handled :
      (f : Frame)
      → ignores (action_of s (suc n)).handler ≡ false
      → frame ≡ some f
      → Taken s n f s'
      → Outcome s n frame s'
  ignored :
      ignores (action_of s (suc n)).handler ≡ true
      → frame ≡ none
      → s' ≡ record s { pending = sigdelset s.pending (suc n) }
      → Outcome s n frame s'

send_signal_user-Outcome :
    (s : SigStruct) (n : ℕ)
    → n < 32
    → (action_of s (suc n)).mask < word_mod
    → Outcome s n (send_signal_user s (suc n)).0 (send_signal_user s (suc n)).1
send_signal_user-Outcome s n h w = elim (Bool-cases (ignores (action_of s (suc n)).handler)) [
  | inl i ↦
      ignored i (ap (λ (r : Option Frame × SigStruct). r.0) (send_signal_user_ignored s (suc n) i))
        (ap (λ (r : Option Frame × SigStruct). r.1) (send_signal_user_ignored s (suc n) i))
  | inr i ↦
      handled (place_sig_frame s (suc n)).0 i
        (ap (λ (r : Option Frame × SigStruct). r.0) (send_signal_user_handled s (suc n) i))
        (rw (send_signal_user_handled s (suc n) i) (in_handler-Taken s n h w))
]

handle_signal_idle : (s : SigStruct) → signal_pending s ≡ false → handle_signal false s ≡ (none, s)
unfolding handle_signal
handle_signal_idle s e = ground arith

handle_signal_taken :
    (s : SigStruct) (n : ℕ)
    → n < 28
    → signal_pending s ≡ true
    → pending_signal s ≡ suc n
    → handle_signal false s ≡ send_signal_user s (suc n)
unfolding handle_signal send_signal signo_valid
handle_signal_taken s n h e f = ground (arith, ap (send_signal false s) f)

no-deliverable : (s : SigStruct) (k : ℕ) → signal_pending s ≡ false → deliverable s k ≡ false
unfolding signal_pending
no-deliverable s k e =
    ground (arith, bit-bit_and k s.pending s.mask, bit_of_zero (bit_and s.pending s.mask) k)

pending_signal_pos :
    (s : SigStruct) → s.pending < word_mod → signal_pending s ≡ true → pending_signal s ≢ 0
unfolding signal_pending pending_signal fls
pending_signal_pos s p e z =
    let word = bit_and s.pending s.mask in
    let small = bit_and-le s.pending s.pending s.mask (omega arith) in
    let clear : word ≡ 0 =
      zero_of_bits word (omega arith) (λ k l. fls_below_clear 32 word k (omega (arith, z)) l) in
    ground arith

below_28 : (s : SigStruct) (n : ℕ) → s.pending < 2 ^ 28 → deliverable s n ≡ true → n < 28
below_28 s n p e = elim (dec_lt n 28) [
  | yes h ↦ h
  | no h ↦ absurd (ground (arith, bit_high n 28 s.pending))
]

-- `handle_signal` for a process in user mode, with only valid signals pending and masks of 32
-- bits in its actions: it takes the highest signal that is pending and not blocked, calls its
-- handler or drops it if it is ignored, or, if there is none, changes nothing.
pub handle_signal-Outcome :
    (s : SigStruct)
    → s.pending < 2 ^ 28
    → ((n : ℕ) → (action_of s n).mask < word_mod)
    → ((n : ℕ) × (n < 28)
        × (deliverable s n ≡ true)
        × ((k : ℕ) → n < k → k < 32 → deliverable s k ≡ false)
        × Outcome s n (handle_signal false s).0 (handle_signal false s).1)
      ⊎ (((k : ℕ) → k < 32 → deliverable s k ≡ false) × (handle_signal false s ≡ (none, s)))
handle_signal-Outcome s p w = elim (Bool-cases (signal_pending s)) [
  | inr idle ↦ inr ((λ k l. no-deliverable s k idle), handle_signal_idle s idle)
  | inl some_pending ↦ inl (taken some_pending)
]
  where
    taken :
        signal_pending s ≡ true
        → (n : ℕ) × (n < 28)
          × (deliverable s n ≡ true)
          × ((k : ℕ) → n < k → k < 32 → deliverable s k ≡ false)
          × Outcome s n (handle_signal false s).0 (handle_signal false s).1
    taken e =
        let ne = pending_signal_pos s (omega arith) e in
        let n : ℕ = pending_signal s - 1 in
        let f : pending_signal s ≡ suc n = omega arith in
        let (lt, here, above) = fls-deliverable s n f in
        let low : n < 28 = below_28 s n p here in
        (
          n,
          low,
          here,
          above,
          rw (handle_signal_taken s n low e f) (send_signal_user-Outcome s n lt (w (suc n))),
        )

-- A process that suspended itself gets the mask from before back when the handler that woke it
-- returns, if its mask was not 0 and the frame on its stack is as it was left.
pub sigsuspend_restores :
    (s : SigStruct) (mask n : ℕ)
    → s.mask ≢ 0
    → ignores (action_of s n).handler ≡ false
    → (frame : Frame) × ((send_signal_user (sys_sigsuspend s mask) n).0 ≡ some frame)
      × ((sig_restore (send_signal_user (sys_sigsuspend s mask) n).1 frame).mask ≡ s.mask)
unfolding sys_sigsuspend sig_restore place_sig_frame
sigsuspend_restores s mask n ne i =
    let t = sys_sigsuspend s mask in
    (
      (place_sig_frame t n).0,
      ap (λ (r : Option Frame × SigStruct). r.0) (send_signal_user_handled t n i),
      ground arith,
    )
