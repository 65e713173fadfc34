-- ===== src/Pipe/Run.antt =====
-- Readers and writers of one pipe, whose calls run up to where they sleep, in any order
-- (fs/pipe.c).
use telos.Prelude.{
  ℕ, ◌-◌, ◌≤◌, ◌<◌, List, [], ◌++◌, take, drop, length, ◌≡◌, ◌≢◌, refl, ap, ap₂, sym, ◌∙◌, arith,
  take-append-drop,
}
use mathlib.Core.List.{append_assoc}
use telos.Word.{word_mod}
use telos.Flexbuf.Transfer.{contents}
use telos.Flexbuf.{Store, bytes, flexbuf_nr_pages, flexbuf_alloc}
use telos.Proc.{Kernel}
use telos.Pipe.{
  Pipe, new_pipe, pipe_read, pipe_read_woken, pipe_do_write, pipe_do_write_woken, pipe_release,
}
use telos.Pipe.Fifo.{
  IsPipe, held, read_of, count_of, pipe_read-held, pipe_read_woken-held, with_buffer,
}
use telos.Pipe.Append.{pipe_do_write-held, pipe_do_write_woken-held, interrupted-held}

abbrev pub NoRepeats : Store → Type 0
NoRepeats st = (m n : ℕ) → st.calls ≤ m → m < n → st.supply m ≢ st.supply n

-- The pipe after some runs, with the bytes that were written and those that were read, in order.
pub data Ran : Pipe → List ℕ → List ℕ → Type 0 where
  opened :
      (read_file write_file : ℕ) (st : Store)
      → NoRepeats st
      → Ran (new_pipe read_file write_file st) [] []
  reads :
      {p : Pipe} {w r : List ℕ}
      → Ran p w r
      → (flags len : ℕ) (k : Kernel)
      → Ran (pipe_read flags p k len).0 w (r ++ read_of (pipe_read flags p k len).2)
  reads_on :
      {p : Pipe} {w r : List ℕ}
      → Ran p w r
      → (flags len rc : ℕ) (k : Kernel)
      → Ran
          (pipe_read_woken flags p k len rc).0
          w
          (r ++ read_of (pipe_read_woken flags p k len rc).2)
  writes :
      {p : Pipe} {w r : List ℕ}
      → Ran p w r
      → (src : List ℕ) (done : ℕ) (k : Kernel) → done ≤ length src
      → length src < word_mod
      → Ran
          (pipe_do_write p k src done).0
          (w ++ take (count_of (pipe_do_write p k src done).2 - done) (drop done src))
          r
  writes_on :
      {p : Pipe} {w r : List ℕ}
      → Ran p w r
      → (src : List ℕ) (done : ℕ) (k : Kernel) → done ≤ length src
      → length src < word_mod
      → Ran
          (pipe_do_write_woken p k src done 0).0
          (w ++ take (count_of (pipe_do_write_woken p k src done 0).2 - done) (drop done src))
          r
  interrupted :
      {p : Pipe} {w r : List ℕ}
      → Ran p w r
      → (src : List ℕ) (done rc : ℕ) (k : Kernel) → rc ≢ 0
      → Ran (pipe_do_write_woken p k src done rc).0 w r
  releases :
      {p : Pipe} {w r : List ℕ}
      → Ran p w r
      → (k : Kernel) (file : ℕ) → Ran (pipe_release p k file).0 w r

no_slot :
    (i : ℕ) → i < flexbuf_nr_pages (record { size = 0; pos = 0; nr_slots = 8; page = λ j. 0 }) → ⊥
unfolding flexbuf_nr_pages
no_slot i h = omega arith

new_pipe-IsPipe :
    (read_file write_file : ℕ) (st : Store)
    → NoRepeats st
    → IsPipe (new_pipe read_file write_file st) × (held (new_pipe read_file write_file st) ≡ [])
unfolding new_pipe flexbuf_alloc
new_pipe-IsPipe read_file write_file st once = (
  record {
    live = record {
      in_page = omega arith;
      fits = omega arith;
      apart = λ i j h k e. absurd (no_slot i h);
      fresh = λ n i h k e. absurd (no_slot i k);
      once = once;
    };
    bounded = omega arith;
  },
  unfold bytes in refl,
)

module _ (w r out held_before held_after : List ℕ) (before : w ≡ r ++ held_before) where
  taken_step : held_before ≡ out ++ held_after → w ≡ (r ++ out) ++ held_after
  taken_step e = before ∙ ap (λ xs. r ++ xs) e ∙ sym (append_assoc r out held_after)

  put_step : held_after ≡ held_before ++ out → w ++ out ≡ r ++ held_after
  put_step e =
      ap (λ xs. xs ++ out) before ∙ append_assoc r held_before out ∙ ap (λ xs. r ++ xs) (sym e)

pipe_release-held :
    (p : Pipe) (k : Kernel) (file : ℕ)
    → ((pipe_release p k file).0.buf ≡ p.buf) × ((pipe_release p k file).0.store ≡ p.store)
unfolding pipe_release
pipe_release-held p k file = ground arith

-- From a new pipe, for which no page is handed out twice, in any order of reads, of writes of fewer
-- than 2 ^ 32 bytes, woken, interrupted or not, and of releases: the bytes that were written are
-- those that were read and then those that the pipe holds, it holds at most PIPE_BUF, and its buffer
-- is live.
pub Ran-fifo : {p : Pipe} {w r : List ℕ} → Ran p w r → (w ≡ r ++ held p) × IsPipe p
Ran-fifo (opened read_file write_file st once) =
    let (good, e) = new_pipe-IsPipe read_file write_file st once in (sym e, good)
Ran-fifo (reads {p} {w} {r} ran flags len k) =
    let (e, good) = Ran-fifo ran in
    let (front, rest, good') = pipe_read-held flags p k len good in
    (taken_step w r _ _ _ e (sym (ap₂ ◌++◌ front rest ∙ take-append-drop len (held p))), good')
Ran-fifo (reads_on {p} {w} {r} ran flags len rc k) =
    let (e, good) = Ran-fifo ran in
    let (f, good') = pipe_read_woken-held flags p k len rc good in (taken_step w r _ _ _ e f, good')
Ran-fifo (writes {p} {w} {r} ran src done k le small) =
    let (e, good) = Ran-fifo ran in
    let (f, good', how) = pipe_do_write-held p k src done good le small in
    (put_step w r _ _ _ e f, good')
Ran-fifo (writes_on {p} {w} {r} ran src done k le small) =
    let (e, good) = Ran-fifo ran in
    let (f, good') = pipe_do_write_woken-held p k src done good le small in
    (put_step w r _ _ _ e f, good')
Ran-fifo (interrupted {p} {w} {r} ran src done rc k ne) =
    let (e, good) = Ran-fifo ran in
    let same = interrupted-held p k src done rc ne in
    (
      e ∙ ap (λ xs. r ++ xs) (sym (ap₂ contents same.0 same.1)),
      with_buffer p (pipe_do_write_woken p k src done rc).0 same.0 same.1 good,
    )
Ran-fifo (releases {p} {w} {r} ran k file) =
    let (e, good) = Ran-fifo ran in
    let same = pipe_release-held p k file in
    (
      e ∙ ap (λ xs. r ++ xs) (sym (ap₂ contents same.0 same.1)),
      with_buffer p (pipe_release p k file).0 same.0 same.1 good,
    )
