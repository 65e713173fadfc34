-- ===== src/Pipe.antt =====
-- Pipes (fs/pipe.c). A function that may sleep is cut where it does: the part up to
-- `wait_interruptible`, and the part from there on, with what `wait_interruptible` returns. The
-- files are numbers.
pub mod Fifo
pub mod Append
pub mod Run
pub mod Blocks
pub mod Again
mod Tests
use telos.Prelude.{
  ℕ, zero, suc, ◌+◌, ◌-◌, ◌*◌, ◌/◌, ◌%◌, min, ltb, leb, ◌&&◌, if◌then◌else◌, ◌==◌, Option, none,
  some, Bool, true, false, not, List, [], ◌∷◌, ◌++◌, take, drop, length, bit_and,
}
use telos.Word.{add32, sub32, word_mod}
use telos.Errno.{Errno, eagain, eintr, espipe, Status, ok, fail}
use telos.Flexbuf.{Flexbuf, Store, flexbuf_alloc, flexbuf_enqueue, flexbuf_dequeue}
use telos.Proc.{Kernel}
use telos.Proc.Wait.{wake_all, wait_begin, wait_end}

abbrev pub pipe_buf : ℕ
pipe_buf = 4096

abbrev pub o_nonblock : ℕ
o_nonblock = 0x1000

-- EINTR of include/telos/errno.h
abbrev pub eintr_code : ℕ
eintr_code = 28

-- `struct pipe_private`, with the pages of its buffer; `released` tells that it was given back.
pub record Pipe : Type 0 where
  pub buf : Flexbuf
  pub store : Store
  pub write_end : Option ℕ
  pub read_end : Option ℕ
  pub read_wait : List ℕ
  pub write_wait : List ℕ
  pub released : Bool

-- What `sys_pipe` makes of a `struct pipe_private`, for the two files.
unfoldable pub new_pipe : ℕ → ℕ → Store → Pipe
new_pipe read_file write_file st =
    let (buf, store) = flexbuf_alloc 0 st in
    record {
      buf = buf;
      store = store;
      write_end = some write_file;
      read_end = some read_file;
      read_wait = [];
      write_wait = [];
      released = false;
    }

unfoldable pub pipe_lseek : Status
pipe_lseek = fail espipe

-- How a call of `pipe_read` ends or pauses.
pub data Read : Type 0 where
  bytes_read : List ℕ → Read
  end_of_file : Read
  read_fails : Errno → Read
  read_sleeps : Read

abbrev nonblocking : ℕ → Bool
nonblocking flags = not (bit_and flags o_nonblock == 0)

abbrev sleep_reader : Pipe → Kernel → Pipe × Kernel × Read
sleep_reader pipe k =
    let (k', q) = wait_begin k pipe.read_wait in (record pipe { read_wait = q }, k', read_sleeps)

-- The pipe is empty.
unfoldable pub nothing_to_read : ℕ → Pipe → Kernel → Option ℕ → Pipe × Kernel × Read
nothing_to_read flags pipe k none = (pipe, k, end_of_file)
nothing_to_read flags pipe k (some writer) =
    if nonblocking flags then (pipe, k, read_fails eagain) else sleep_reader pipe k

unfoldable pub pipe_read : ℕ → Pipe → Kernel → ℕ → Pipe × Kernel × Read
unfolding nothing_to_read
pipe_read flags pipe k len =
    let (out, buf) = flexbuf_dequeue pipe.buf pipe.store len in
    let pipe' = record pipe { buf = buf } in
    if length out == 0
    then nothing_to_read flags pipe' k pipe.write_end
    else (pipe', wake_all k pipe.write_wait 0, bytes_read out)

-- `rc` is what `wait_interruptible` returns.
unfoldable pub pipe_read_woken : ℕ → Pipe → Kernel → ℕ → ℕ → Pipe × Kernel × Read
pipe_read_woken flags pipe k len rc =
    let pipe' = record pipe { read_wait = wait_end k pipe.read_wait } in
    if rc == 0 then pipe_read flags pipe' k len else (pipe', k, read_fails eintr)

unfoldable pub pipe_headroom : Pipe → ℕ
pipe_headroom pipe = sub32 pipe_buf pipe.buf.size

-- Bytes appended; the count comes third.
unfoldable pub enqueue_bytes : Pipe → List ℕ → Pipe × ℕ
enqueue_bytes pipe src =
    let (buf, store, n) = flexbuf_enqueue pipe.buf pipe.store src in
    (record pipe { buf = buf; store = store }, n)

-- A call of `pipe_do_write` ends with the count that it returns, or pauses with the count so far.
-- A negative count is the word that stands for it.
pub data Write : Type 0 where
  returns : ℕ → Write
  sleeps : ℕ → Write

-- From the top of the loop, with `done` bytes of `src` written.
unfoldable pub pipe_do_write : Pipe → Kernel → List ℕ → ℕ → Pipe × Kernel × Write
unfolding enqueue_bytes pipe_headroom
pipe_do_write pipe k src done =
    let this_len = min (length src - done) (pipe_headroom pipe) in
    let (pipe', this_bytes) = enqueue_bytes pipe (take this_len (drop done src)) in
    let k' = if this_bytes == 0 then k else wake_all k pipe.read_wait 0 in
    let total = add32 done this_bytes in
    if total == length src
    then (pipe', k', returns total)
    else let (k'', q) = wait_begin k' pipe.write_wait in
      (record pipe' { write_wait = q }, k'', sleeps total)

-- The loop is left with `-EINTR` or the count so far.
unfoldable pub pipe_do_write_woken : Pipe → Kernel → List ℕ → ℕ → ℕ → Pipe × Kernel × Write
pipe_do_write_woken pipe k src done rc =
    let pipe' = record pipe { write_wait = wait_end k pipe.write_wait } in
    if rc == 0
    then pipe_do_write pipe' k src done
    else (pipe', k, returns (if done == 0 then word_mod - eintr_code else done))

-- A call of `pipe_write` ends with a count or an error, or pauses in a block: with the bytes of the
-- blocks before it and those of it that are written. The model may run out of fuel.
pub data Call : Type 0 where
  finished : ℕ → Call
  call_fails : Errno → Call
  paused : ℕ → ℕ → Call
  out_of_fuel : Call

abbrev pub block_at : List ℕ → ℕ → List ℕ
block_at src nr_bytes = take (min (length src - nr_bytes) pipe_buf) (drop nr_bytes src)

-- The loop of `pipe_write` over the blocks, from its top.
unfoldable pub pipe_write_blocks : ℕ → Pipe → Kernel → List ℕ → ℕ → Pipe × Kernel × Call
pipe_write_blocks zero pipe k src nr_bytes = (pipe, k, out_of_fuel)
pipe_write_blocks (suc fuel) pipe k src nr_bytes = elim (ltb nr_bytes (length src)) [
  | false ↦ (pipe, k, finished nr_bytes)
  | true ↦
      let (pipe', k', w) = pipe_do_write pipe k (block_at src nr_bytes) 0 in
      elim w [
        | returns n ↦ pipe_write_blocks fuel pipe' k' src (add32 nr_bytes n)
        | sleeps done ↦ (pipe', k', paused nr_bytes done)
      ]
]

unfoldable pub pipe_write_woken : ℕ → Pipe → Kernel → List ℕ → ℕ → ℕ → ℕ → Pipe × Kernel × Call
pipe_write_woken fuel pipe k src nr_bytes done rc =
    let (pipe', k', w) = pipe_do_write_woken pipe k (block_at src nr_bytes) done rc in
    elim w [
      | returns n ↦ pipe_write_blocks fuel pipe' k' src (add32 nr_bytes n)
      | sleeps d ↦ (pipe', k', paused nr_bytes d)
    ]

unfoldable pub pipe_write : ℕ → Pipe → Kernel → List ℕ → Pipe × Kernel × Call
pipe_write flags pipe k src =
    let len : ℕ = length src in
    let headroom = pipe_headroom pipe in
    let all = pipe_write_blocks (len + 1) pipe k src 0 in
    let (pipe', n) = enqueue_bytes pipe (take headroom src) in
    if not (nonblocking flags)
    then all
    else if leb len pipe_buf
    then if ltb headroom len then (pipe, k, call_fails eagain) else all
    else if headroom == 0
    then (pipe, k, call_fails eagain)
    else (pipe', k, finished n)

abbrev is_end : Option ℕ → ℕ → Bool
is_end none file = false
is_end (some f) file = file == f

abbrev is_closed : Option ℕ → Bool
is_closed none = true
is_closed (some f) = false

unfoldable pub close_read_end : Pipe → Kernel → ℕ → Pipe × Kernel
close_read_end pipe k file =
    if is_end pipe.read_end file
    then (record pipe { read_end = none }, wake_all k pipe.write_wait 0)
    else (pipe, k)

unfoldable pub close_write_end : Pipe → Kernel → ℕ → Pipe × Kernel
close_write_end pipe k file =
    if is_end pipe.write_end file
    then (record pipe { write_end = none }, wake_all k pipe.read_wait 0)
    else (pipe, k)

unfoldable pub pipe_release : Pipe → Kernel → ℕ → Pipe × Kernel
unfolding close_read_end close_write_end
pipe_release pipe k file =
    let (pipe1, k1) = close_read_end pipe k file in
    let (pipe2, k2) = close_write_end pipe1 k1 file in
    if is_closed pipe2.read_end && is_closed pipe2.write_end
    then (record pipe2 { released = true }, k2)
    else (pipe2, k2)
