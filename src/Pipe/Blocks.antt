-- ===== src/Pipe/Blocks.antt =====
-- The loop of `pipe_write` over blocks of PIPE_BUF bytes (fs/pipe.c).
use telos.Prelude.{
  ℕ, zero, suc, ◌+◌, ◌-◌, ◌≤◌, ◌<◌, min, ltb, leb, true, false, List, [], ◌∷◌, ◌++◌, take, drop,
  length, ◌≡◌, ◌≢◌, refl, ap, sym, ◌∙◌, arith, ◌⊎◌, inl, inr, Bool-cases, length-take, length-drop,
  ==-ne, lt→ltb, ltb→lt,
}
use telos.Word.{add32, sub32, word_mod}
use telos.Flexbuf.Transfer.{take_all}
use mathlib.Core.List.{append-nil}
use telos.Proc.{Kernel}
use telos.Proc.Wait.{wait_end}
use telos.Pipe.{
  Pipe, pipe_read, pipe_buf, nonblocking, Write, returns, sleeps, pipe_do_write,
  pipe_do_write_woken, finished, paused, out_of_fuel, block_at, pipe_write_blocks, pipe_write_woken,
  pipe_write, eintr_code, pipe_headroom,
}
use telos.Pipe.Fifo.{IsPipe, held, pipe_read-held}
use telos.Pipe.Append.{pipe_do_write_whole, pipe_do_write_part, length-held}

Write-cases : (w : Write) → ((n : ℕ) × (w ≡ returns n)) ⊎ ((n : ℕ) × (w ≡ sleeps n))
Write-cases (returns n) = inl (n, refl)
Write-cases (sleeps n) = inr (n, refl)

pub length-block_at :
    (src : List ℕ) (nr : ℕ) → length (block_at src nr) ≡ min (length src - nr) pipe_buf
length-block_at src nr =
    omega (arith, length-take (min (length src - nr) pipe_buf) (drop nr src), length-drop nr src)

-- `pipe_do_write` returns from its loop only with the whole length.
returns_all :
    (pipe : Pipe) (k : Kernel) (src : List ℕ) (done n : ℕ)
    → (pipe_do_write pipe k src done).2 ≡ returns n
    → n ≡ length src
unfolding pipe_do_write
returns_all pipe k src done n e = ground arith

pub blocks_end :
    (fuel : ℕ) (pipe : Pipe) (k : Kernel) (src : List ℕ) (nr : ℕ)
    → length src ≤ nr
    → pipe_write_blocks (suc fuel) pipe k src nr ≡ (pipe, k, finished nr)
unfolding pipe_write_blocks
blocks_end fuel pipe k src nr h = ground arith

pub blocks_next :
    (fuel : ℕ) (pipe : Pipe) (k : Kernel) (src : List ℕ) (nr n : ℕ)
    → nr < length src
    → let w = pipe_do_write pipe k (block_at src nr) 0 in
      w.2 ≡ returns n
      → pipe_write_blocks (suc fuel) pipe k src nr ≡ pipe_write_blocks fuel w.0 w.1 src (add32 nr n)
unfolding pipe_write_blocks
blocks_next fuel pipe k src nr n h e = rw (lt→ltb _ _ h, pipe_write_blocks) (rw e refl)

pub blocks_sleep :
    (fuel : ℕ) (pipe : Pipe) (k : Kernel) (src : List ℕ) (nr n : ℕ)
    → nr < length src
    → let w = pipe_do_write pipe k (block_at src nr) 0 in
      w.2 ≡ sleeps n → pipe_write_blocks (suc fuel) pipe k src nr ≡ (w.0, w.1, paused nr n)
unfolding pipe_write_blocks
blocks_sleep fuel pipe k src nr n h e = rw (lt→ltb _ _ h, pipe_write_blocks) (rw e refl)

-- With more fuel than bytes are left, of fewer than 2 ^ 32, the loop of `pipe_write` does not run out
-- of it, whatever the pipe.
blocks_enough :
    (fuel : ℕ) (pipe : Pipe) (k : Kernel) (src : List ℕ) (nr : ℕ)
    → nr ≤ length src
    → length src < word_mod
    → length src - nr < fuel
    → (pipe_write_blocks fuel pipe k src nr).2 ≢ out_of_fuel
blocks_enough zero pipe k src nr le small h = absurd (omega arith)
blocks_enough (suc fuel) pipe k src nr le small h = elim (Bool-cases (ltb nr (length src))) [
  | inr ended ↦ rw (blocks_end fuel pipe k src nr (ground arith)) (λ e. cc)
  | inl more ↦
      let w = pipe_do_write pipe k (block_at src nr) 0 in
      elim (Write-cases w.2) [
        | inl (n, r) ↦
            let all : n ≡ min (length src - nr) pipe_buf =
              returns_all pipe k (block_at src nr) 0 n r ∙ length-block_at src nr in
            let next : add32 nr n ≡ nr + n = omega arith in
            rw (blocks_next fuel pipe k src nr n (ltb→lt _ _ more) r, next)
              (blocks_enough fuel w.0 w.1 src (nr + n) (ground arith) small (ground arith))
        | inr (n, r) ↦ rw (blocks_sleep fuel pipe k src nr n (ltb→lt _ _ more) r) (λ e. cc)
      ]
]

blocks_from :
    (fuel : ℕ) (pipe : Pipe) (k : Kernel) (src : List ℕ) (nr : ℕ)
    → length src < word_mod
    → length src < fuel
    → (pipe_write_blocks fuel pipe k src nr).2 ≢ out_of_fuel
blocks_from zero pipe k src nr small h = absurd (omega arith)
blocks_from (suc fuel) pipe k src nr small h = elim (Bool-cases (ltb nr (length src))) [
  | inl more ↦ blocks_enough (suc fuel) pipe k src nr (ground arith) small (omega arith)
  | inr ended ↦ rw (blocks_end fuel pipe k src nr (ground arith)) (λ e. cc)
]

woken_from :
    (fuel : ℕ) (pipe : Pipe) (k : Kernel) (src : List ℕ) (nr done rc : ℕ)
    → length src < word_mod
    → length src < fuel
    → (pipe_write_woken fuel pipe k src nr done rc).2 ≢ out_of_fuel
unfolding pipe_write_woken
woken_from fuel pipe k src nr done rc small h =
    let w = pipe_do_write_woken pipe k (block_at src nr) done rc in
    elim (Write-cases w.2) [
      | inl (n, r) ↦ rw (r, pipe_write_woken) (blocks_from fuel w.0 w.1 src (add32 nr n) small h)
      | inr (n, r) ↦ rw (r, pipe_write_woken) (λ e. cc)
    ]

-- A run of `pipe_write` on fewer than 2 ^ 32 bytes ends or sleeps, from its start, from its loop over
-- the blocks with any count of bytes, and from where it slept, also when it was interrupted: with
-- more fuel than there are bytes, and with what `pipe_write` gives itself, the model does not run
-- out of it, whatever the pipe. How often the call sleeps is left open.
pub pipe_write_ends :
    (fuel flags : ℕ) (pipe : Pipe) (k : Kernel) (src : List ℕ) (nr done rc : ℕ)
    → length src < word_mod
    → length src < fuel
    → ((pipe_write flags pipe k src).2 ≢ out_of_fuel)
      × ((pipe_write_blocks fuel pipe k src nr).2 ≢ out_of_fuel)
      × ((pipe_write_woken fuel pipe k src nr done rc).2 ≢ out_of_fuel)
unfolding pipe_write
pipe_write_ends fuel flags pipe k src nr done rc small h = (
  λ e. ground (arith, blocks_from (length src + 1) pipe k src 0 small (omega arith)),
  blocks_from fuel pipe k src nr small h,
  woken_from fuel pipe k src nr done rc small h,
)

-- A write that fits takes the loop, whether it may block or not.
written_at_once :
    (flags : ℕ) (pipe : Pipe) (k : Kernel) (src : List ℕ)
    → IsPipe pipe
    → length src + pipe.buf.size ≤ pipe_buf
    → pipe_write flags pipe k src ≡ pipe_write_blocks (length src + 1) pipe k src 0
unfolding pipe_write pipe_headroom
written_at_once flags pipe k src good room =
    let l : leb (length src) pipe_buf ≡ true = ground arith in
    let m : ltb (sub32 pipe_buf pipe.buf.size) (length src) ≡ false = ground arith in
    rw (l, m) (ground arith)

blocks_fit :
    (pipe : Pipe) (k : Kernel) (src : List ℕ)
    → IsPipe pipe
    → length src + pipe.buf.size ≤ pipe_buf
    → let r = pipe_write_blocks (length src + 1) pipe k src 0 in
      (r.2 ≡ finished (length src)) × (held r.0 ≡ held pipe ++ src) × IsPipe r.0
blocks_fit pipe k [] good room =
    rw (blocks_end 0 pipe k [] 0 (omega arith)) (refl, sym (append-nil (held pipe)), good)
blocks_fit pipe k (x ∷ xs) good room =
    let src : List ℕ = x ∷ xs in
    let n : ℕ = length src in
    let one : block_at src 0 ≡ src = take_all (min (n - 0) pipe_buf) src (omega arith) in
    let w = pipe_do_write pipe k (block_at src 0) 0 in
    let whole = pipe_do_write_whole pipe k src good room in
    let same : w ≡ pipe_do_write pipe k src 0 = ap (λ ys. pipe_do_write pipe k ys 0) one in
    let done : w.2 ≡ returns n = ap (λ (v : Pipe × Kernel × Write). v.2) same ∙ whole.0 in
    let total : n ≤ add32 0 n = omega arith in
    let all : pipe_write_blocks (n + 1) pipe k src 0 ≡ (w.0, w.1, finished (add32 0 n)) =
      ap (λ f. pipe_write_blocks f pipe k src 0) (omega arith)
      ∙ blocks_next n pipe k src 0 n (omega arith) done
      ∙ blocks_end (length xs) w.0 w.1 src (add32 0 n) total in
    rw all (ap finished (omega arith), rw same whole.1, rw same whole.2)

-- Whatever stands in `flags`, a write that fits into the pipe is done at once: all its bytes follow
-- those that the pipe held, and its length is returned.
pub pipe_write_fits :
    (flags : ℕ) (pipe : Pipe) (k : Kernel) (src : List ℕ)
    → IsPipe pipe
    → length src + pipe.buf.size ≤ pipe_buf
    → let r = pipe_write flags pipe k src in
      (r.2 ≡ finished (length src)) × (held r.0 ≡ held pipe ++ src) × IsPipe r.0
unfolding pipe_write
pipe_write_fits flags pipe k src good room =
    rw (written_at_once flags pipe k src good room) (blocks_fit pipe k src good room)

-- A write of a block for which some room is left, but not enough, is not one step: what fits is
-- written before the writer sleeps, and after a read of `n` bytes the `n` bytes of another writer
-- follow them.
pub pipe_do_write_splits :
    (pipe : Pipe) (k1 k2 k3 : Kernel) (a b : List ℕ) (flags : ℕ)
    → IsPipe pipe
    → length a ≤ pipe_buf
    → pipe_buf < pipe.buf.size + length a
    → pipe.buf.size < pipe_buf
    → let r1 = pipe_do_write pipe k1 a 0 in
      let room = pipe_buf - pipe.buf.size in
      let r2 = pipe_read flags r1.0 k2 (length b) in
      let r3 = pipe_do_write r2.0 k3 b 0 in
      length b ≤ pipe_buf
      → (r1.2 ≡ sleeps room)
        × (held r3.0 ≡ drop (length b) (held pipe ++ take room a) ++ b)
        × (r3.2 ≡ returns (length b))
pipe_do_write_splits pipe k1 k2 k3 a b flags good small full some_room lb =
    let (how1, e1, good1) = pipe_do_write_part pipe k1 a good (omega arith) (omega arith) in
    let r1 = pipe_do_write pipe k1 a 0 in
    let (front, e2, good2) = pipe_read-held flags r1.0 k2 (length b) good1 in
    let r2 = pipe_read flags r1.0 k2 (length b) in
    let left : r2.0.buf.size ≡ length (held r1.0) - length b =
      sym (length-held r2.0) ∙ ap length e2 ∙ length-drop (length b) (held r1.0) in
    let (how3, e3, good3) =
      pipe_do_write_whole r2.0 k3 b good2 (omega (arith, left, length-held r1.0, good1.bounded)) in
    (how1, e3 ∙ ap (λ xs. xs ++ b) (e2 ∙ ap (drop (length b)) e1), how3)

interrupted_at_start :
    (pipe : Pipe) (k : Kernel) (src : List ℕ) (rc : ℕ)
    → rc ≢ 0
    → pipe_do_write_woken pipe k src 0 rc ≡ (
      record pipe { write_wait = wait_end k pipe.write_wait },
      k,
      returns (word_mod - eintr_code),
    )
unfolding pipe_do_write_woken
interrupted_at_start pipe k src rc ne = rw (==-ne rc 0 ne) refl

-- Interrupted at the start of a block, the loop goes on with a count that is 28 less.
pub woken_steps_back :
    (fuel : ℕ) (pipe : Pipe) (k : Kernel) (src : List ℕ) (nr rc : ℕ)
    → rc ≢ 0
    → eintr_code ≤ nr
    → nr < word_mod
    → pipe_write_woken fuel pipe k src nr 0 rc
      ≡ pipe_write_blocks fuel
          (record pipe { write_wait = wait_end k pipe.write_wait })
          k
          src
          (nr - eintr_code)
unfolding pipe_write_woken
woken_steps_back fuel pipe k src nr rc ne le small =
    let e : add32 nr (word_mod - eintr_code) ≡ nr - eintr_code = omega arith in
    rw (interrupted_at_start pipe k (block_at src nr) rc ne, pipe_write_woken)
      (rw (interrupted_at_start pipe k (block_at src nr) rc ne) (
        ap (pipe_write_blocks fuel (record pipe { write_wait = wait_end k pipe.write_wait }) k src)
          e))

-- Without blocking, a write of more than PIPE_BUF bytes wakes no reader, also when it writes.
pub pipe_write_wakes_none :
    (flags : ℕ) (pipe : Pipe) (k : Kernel) (src : List ℕ)
    → nonblocking flags ≡ true
    → pipe_buf < length src
    → (pipe_write flags pipe k src).1 ≡ k
unfolding pipe_write
pipe_write_wakes_none flags pipe k src nb long = ground arith
