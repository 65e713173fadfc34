-- ===== src/Pipe/Append.antt =====
-- What `pipe_do_write` (fs/pipe.c) adds to the bytes in a pipe.
use native.Mathlib.Decide.{dec_le}
use telos.Prelude.{
  ℕ, ◌+◌, ◌-◌, ◌≤◌, ◌<◌, min, leb, if◌then◌else◌, true, false, List, ◌++◌, take, drop, length, ◌≡◌,
  ◌≢◌, refl, ap, ◌∙◌, arith, length-take, length-drop, ==-refl, ==-ne,
}
use telos.Word.{add32, sub32, word_mod}
use telos.Flexbuf.Bytes.{length-bytes}
use telos.Flexbuf.Io.{flat}
use telos.Flexbuf.Transfer.{take_all}
use telos.Proc.{Kernel}
use telos.Proc.Wait.{wait_end}
use telos.Pipe.{Pipe, pipe_buf, enqueue_bytes, returns, sleeps, pipe_do_write, pipe_do_write_woken}
use telos.Pipe.Fifo.{IsPipe, held, count_of, enqueue_bytes-held}

le→leb : (a b : ℕ) → a ≤ b → leb a b ≡ true
le→leb a b h = ground arith

leb-gt : (a b : ℕ) → ¬ (a ≤ b) → leb a b ≡ false
leb-gt a b h = ground arith

-- One run of `pipe_do_write` up to where it returns or sleeps appends the bytes that it counts, the
-- next ones of `src`; it returns only when all are written, and sleeps only when the pipe is full.
pub pipe_do_write-held :
    (pipe : Pipe) (k : Kernel) (src : List ℕ) (done : ℕ)
    → IsPipe pipe
    → done ≤ length src
    → length src < word_mod
    → let r = pipe_do_write pipe k src done in
      (held r.0 ≡ held pipe ++ take (count_of r.2 - done) (drop done src))
      × IsPipe r.0
      × (r.2 ≡ (
          if leb (length src - done) (pipe_buf - pipe.buf.size)
          then returns (length src)
          else sleeps (done + (pipe_buf - pipe.buf.size))))
unfolding pipe_do_write
pipe_do_write-held pipe k src done good le small =
    let room : ℕ = pipe_buf - pipe.buf.size in
    let n : ℕ = min (length src - done) room in
    let head : sub32 pipe_buf pipe.buf.size ≡ room = omega (arith, good.bounded) in
    let xs : List ℕ = take n (drop done src) in
    let count : length xs ≡ n =
      omega (arith, length-take n (drop done src), length-drop done src) in
    let (e, good', m) = enqueue_bytes-held pipe xs good (omega (arith, good.bounded)) in
    let total : add32 done (enqueue_bytes pipe xs).1 ≡ done + n = omega arith in
    rw (head, total)
      (elim (dec_le (length src - done) room) [
        | yes fits ↦
            let whole : done + n ≡ length src = omega arith in
            let upto : n ≡ length src - done = omega arith in
            rw (whole, ==-refl, le→leb _ _ fits)
              (
                e ∙ ap (λ j. held pipe ++ take j (drop done src)) upto,
                record { live = good'.live; bounded = good'.bounded },
                refl,
              )
        | no more ↦
            let part : n ≡ room = omega arith in
            let upto : n ≡ done + n - done = omega arith in
            rw (==-ne (done + n) (length src) (λ q. more (omega arith)), leb-gt _ _ more)
              (
                e ∙ ap (λ j. held pipe ++ take j (drop done src)) upto,
                record { live = good'.live; bounded = good'.bounded },
                ap (λ j. sleeps (done + j)) part,
              )
      ])

pub pipe_do_write_whole :
    (pipe : Pipe) (k : Kernel) (src : List ℕ)
    → IsPipe pipe
    → length src + pipe.buf.size ≤ pipe_buf
    → let r = pipe_do_write pipe k src 0 in
      (r.2 ≡ returns (length src)) × (held r.0 ≡ held pipe ++ src) × IsPipe r.0
pipe_do_write_whole pipe k src good room =
    let r = pipe_do_write pipe k src 0 in
    let (e, good', how) = pipe_do_write-held pipe k src 0 good (omega arith) (omega arith) in
    let done : r.2 ≡ returns (length src) = ground arith in
    let n : count_of r.2 - 0 ≡ length src = omega (arith, ap count_of done) in
    (
      done,
      e
          ∙ ap (λ j. held pipe ++ take j src) n
          ∙ ap (λ xs. held pipe ++ xs) (take_all _ src (omega arith)),
      good',
    )

pub pipe_do_write_part :
    (pipe : Pipe) (k : Kernel) (src : List ℕ)
    → IsPipe pipe
    → pipe_buf < length src + pipe.buf.size
    → length src < word_mod
    → let r = pipe_do_write pipe k src 0 in
      let room = pipe_buf - pipe.buf.size in
      (r.2 ≡ sleeps room) × (held r.0 ≡ held pipe ++ take room src) × IsPipe r.0
pipe_do_write_part pipe k src good full small =
    let r = pipe_do_write pipe k src 0 in
    let (e, good', how) = pipe_do_write-held pipe k src 0 good (omega arith) small in
    let done : r.2 ≡ sleeps (pipe_buf - pipe.buf.size) = ground (arith, good.bounded) in
    let n : count_of r.2 - 0 ≡ pipe_buf - pipe.buf.size = omega (arith, ap count_of done) in
    (done, e ∙ ap (λ j. held pipe ++ take j src) n, good')

pub length-held : (pipe : Pipe) → length (held pipe) ≡ pipe.buf.size
length-held pipe = length-bytes (flat pipe.store.mem pipe.buf.page) pipe.buf.pos pipe.buf.size

-- A writer that was woken goes on; one that was interrupted leaves the bytes as they are.
pub pipe_do_write_woken-held :
    (pipe : Pipe) (k : Kernel) (src : List ℕ) (done : ℕ)
    → IsPipe pipe
    → done ≤ length src
    → length src < word_mod
    → let r = pipe_do_write_woken pipe k src done 0 in
      (held r.0 ≡ held pipe ++ take (count_of r.2 - done) (drop done src)) × IsPipe r.0
unfolding pipe_do_write_woken
pipe_do_write_woken-held pipe k src done good le small =
    let woken : Pipe = record pipe { write_wait = wait_end k pipe.write_wait } in
    let good' : IsPipe woken = record { live = good.live; bounded = good.bounded } in
    let (e, good'', how) = pipe_do_write-held woken k src done good' le small in (e, good'')

pub interrupted-held :
    (pipe : Pipe) (k : Kernel) (src : List ℕ) (done rc : ℕ)
    → rc ≢ 0
    → let r = pipe_do_write_woken pipe k src done rc in
      (r.0.buf ≡ pipe.buf) × (r.0.store ≡ pipe.store)
unfolding pipe_do_write_woken
interrupted-held pipe k src done rc ne = rw (==-ne rc 0 ne) (refl, refl)
