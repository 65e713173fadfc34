-- ===== src/Pipe/Tests.antt =====
-- Runs of pipes at concrete inputs.
use telos.Prelude.{
  ℕ, zero, suc, ◌+◌, ◌-◌, ◌≡◌, ◌≢◌, refl, List, [], ◌∷◌, ◌++◌, take, drop, some, false, arith,
  replicate,
}
use telos.Flexbuf.{Flexbuf, Store, flexbuf_nr_pages}
use telos.Proc.{Kernel, no_pcb}
use telos.Pipe.{
  Pipe, new_pipe, pipe_read, pipe_do_write, finished, out_of_fuel, pipe_write_blocks,
  pipe_write_woken, pipe_write, pipe_buf, o_nonblock, returns, sleeps, bytes_read,
}
use telos.Pipe.Fifo.{IsPipe, held, count_of, read_of}
use telos.Pipe.Run.{Ran-fifo, opened, writes, reads}
use telos.Pipe.Blocks.{
  pipe_write_ends, pipe_write_fits, pipe_do_write_splits, pipe_write_wakes_none,
}

abbrev store : Store
store = record { mem = λ p o. 0; supply = λ n. 100 + n; calls = 0; freed = [] }

-- One process that runs, the place 0.
abbrev kernel : Kernel
kernel = record {
  proctab = no_pcb ∷ [];
  current = 0;
  ready_queue = [];
  zombies = [];
  idle_pid = 9;
  f_counts = [];
  free_statuses = 0;
}

abbrev empty : Pipe
empty = record {
  buf = record { size = 0; pos = 5; nr_slots = 8; page = λ i. 0 };
  store = store;
  write_end = some 1;
  read_end = some 2;
  read_wait = [];
  write_wait = [];
  released = false;
}

abbrev abc : List ℕ
abc = 97 ∷ 98 ∷ 99 ∷ []

-- Three bytes go in, two come out.
write_abc : (pipe_write 0 empty kernel abc).2 ≡ finished 3
unfolding pipe_write pipe_write_blocks pipe_do_write telos.Paging.pages_in_range
    telos.Flexbuf.flexbuf_enqueue
write_abc = refl

read_two : (pipe_read 0 (pipe_write 0 empty kernel abc).0 kernel 2).2 ≡ bytes_read (97 ∷ 98 ∷ [])
unfolding pipe_write pipe_write_blocks pipe_do_write pipe_read telos.Paging.pages_in_range
    telos.Flexbuf.flexbuf_enqueue telos.Flexbuf.flexbuf_dequeue
read_two = refl

-- A pipe of which the buffer holds `size` bytes in the page 100.
abbrev filled : ℕ → Pipe
filled size = record empty {
  buf = record { size = size; pos = 0; nr_slots = 8; page = λ i. 100 };
  store = record store { calls = 1 };
}

one_page : flexbuf_nr_pages (filled 4000).buf ≡ 1
unfolding flexbuf_nr_pages telos.Paging.pages_in_range
one_page = refl

filled-IsPipe : IsPipe (filled 4000)
filled-IsPipe = record {
  live = record {
    in_page = omega arith;
    fits = omega arith;
    apart = λ i j h k e. omega (arith, one_page);
    fresh = λ n i h k e. omega (arith, one_page);
    once = λ m n h k e. omega arith;
  };
  bounded = omega arith;
}

Ran-fifo_example :
    let p1 = new_pipe 1 2 store in
    let p2 = (pipe_do_write p1 kernel abc 0).0 in
    let p3 = (pipe_read 0 p2 kernel 2).0 in
    ([] ++ take (count_of (pipe_do_write p1 kernel abc 0).2 - 0) abc
      ≡ ([] ++ read_of (pipe_read 0 p2 kernel 2).2) ++ held p3)
    × IsPipe p3
Ran-fifo_example = Ran-fifo (
    reads
      (writes (opened 1 2 store (λ m n h k e. omega arith)) abc 0 kernel (omega arith)
        (omega arith))
      0 2 kernel)

pipe_write_ends_example :
    ((pipe_write 0 empty kernel abc).2 ≢ out_of_fuel)
    × ((pipe_write_blocks 4 empty kernel abc 1).2 ≢ out_of_fuel)
    × ((pipe_write_woken 4 empty kernel abc 1 2 1).2 ≢ out_of_fuel)
pipe_write_ends_example = pipe_write_ends 4 0 empty kernel abc 1 2 1 (omega arith) (omega arith)

pipe_write_fits_example :
    let r = pipe_write 0 (filled 4000) kernel abc in
    (r.2 ≡ finished 3) × (held r.0 ≡ held (filled 4000) ++ abc) × IsPipe r.0
pipe_write_fits_example = pipe_write_fits 0 (filled 4000) kernel abc filled-IsPipe (omega arith)

abbrev hundred : List ℕ
hundred = replicate 100 7

pipe_do_write_splits_example :
    let r1 = pipe_do_write (filled 4000) kernel hundred 0 in
    let r2 = pipe_read 0 r1.0 kernel 3 in
    let r3 = pipe_do_write r2.0 kernel abc 0 in
    (r1.2 ≡ sleeps (pipe_buf - 4000))
    × (held r3.0 ≡ drop 3 (held (filled 4000) ++ take (pipe_buf - 4000) hundred) ++ abc)
    × (r3.2 ≡ returns 3)
pipe_do_write_splits_example =
    pipe_do_write_splits (filled 4000) kernel kernel kernel hundred abc 0 filled-IsPipe
      (omega arith) (omega arith) (omega arith) (omega arith)

-- The bytes n, n - 1, ..., 1.
countdown : ℕ → List ℕ
countdown zero = []
countdown (suc n) = suc n ∷ countdown n

pipe_write_wakes_none_example : (pipe_write o_nonblock empty kernel (replicate 4097 7)).1 ≡ kernel
pipe_write_wakes_none_example =
    pipe_write_wakes_none o_nonblock empty kernel (replicate 4097 7) refl (omega arith)
