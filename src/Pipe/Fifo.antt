-- ===== src/Pipe/Fifo.antt =====
-- What the operations of fs/pipe.c do to the bytes in a pipe.
use telos.Prelude.{
  ℕ, ◌+◌, ◌*◌, ◌≤◌, ◌==◌, Option, none, some, true, List, [], ◌∷◌, ◌++◌, take, drop, length, ◌≡◌,
  refl, ap, ap₂, sym, ◌∙◌, arith, inl, inr, Bool-cases, length-drop, take-append-drop,
  length-append,
}
use telos.Paging.{frame_size}
use telos.Flexbuf.{flexbuf_enqueue, flexbuf_dequeue}
use telos.Flexbuf.Bytes.{length-bytes}
use telos.Flexbuf.Io.{flat}
use telos.Flexbuf.Grow.{IsLive}
use telos.Flexbuf.Transfer.{contents}
use telos.Flexbuf.Queue.{flexbuf_enqueue-contents}
use telos.Flexbuf.Dequeue.{flexbuf_dequeue-contents}
use telos.Proc.{Kernel}
use telos.Proc.Wait.{wait_end}
use telos.Pipe.{
  Pipe, pipe_buf, Read, bytes_read, nothing_to_read, pipe_read, pipe_read_woken, enqueue_bytes,
  Write, returns, sleeps,
}

-- The buffer is live and holds at most PIPE_BUF bytes.
pub record IsPipe (pipe : Pipe) : Type 0 where
  pub live : IsLive pipe.buf pipe.store
  pub bounded : pipe.buf.size ≤ pipe_buf

abbrev pub held : Pipe → List ℕ
held pipe = contents pipe.buf pipe.store

-- What a read hands to its caller.
abbrev pub read_of : Read → List ℕ
read_of (bytes_read xs) = xs
read_of _ = []

abbrev pub count_of : Write → ℕ
count_of (returns n) = n
count_of (sleeps n) = n

pub enqueue_bytes-held :
    (pipe : Pipe) (src : List ℕ)
    → IsPipe pipe
    → length src + pipe.buf.size ≤ pipe_buf
    → (held (enqueue_bytes pipe src).0 ≡ held pipe ++ src)
      × IsPipe (enqueue_bytes pipe src).0
      × ((enqueue_bytes pipe src).1 ≡ length src)
unfolding enqueue_bytes
enqueue_bytes-held pipe src good room =
    let r = flexbuf_enqueue pipe.buf pipe.store src in
    let (e, live, n) =
      flexbuf_enqueue-contents pipe.buf pipe.store src good.live
        (omega (arith, good.live.in_page)) in
    (
      e,
      record {
        live = live;
        bounded = omega (
          arith,
          length-bytes (flat r.1.mem r.0.page) r.0.pos r.0.size,
          length-bytes (flat pipe.store.mem pipe.buf.page) pipe.buf.pos pipe.buf.size,
          ap length e,
          length-append (held pipe) src,
        );
      },
      n,
    )

-- Of an empty pipe nothing is read, and nothing changes but a process that goes to sleep.
nothing_to_read-held :
    (flags : ℕ) (pipe : Pipe) (k : Kernel) (writer : Option ℕ)
    → let r = nothing_to_read flags pipe k writer in
      (read_of r.2 ≡ []) × (r.0.buf ≡ pipe.buf) × (r.0.store ≡ pipe.store)
unfolding nothing_to_read
nothing_to_read-held flags pipe k none = (refl, refl, refl)
nothing_to_read-held flags pipe k (some writer) = ground arith

pub with_buffer :
    (pipe pipe' : Pipe)
    → pipe'.buf ≡ pipe.buf
    → pipe'.store ≡ pipe.store
    → IsPipe pipe
    → IsPipe pipe'
with_buffer pipe pipe' b s good = record { live = rw (b, s) good.live; bounded = rw b good.bounded }

no_bytes : (xs : List ℕ) → (length xs == 0) ≡ true → xs ≡ []
no_bytes [] e = refl
no_bytes (x ∷ xs) e = absurd (ground arith)

-- A read hands over the first `len` bytes of the pipe, or all if there are fewer, and leaves the
-- others in order.
pub pipe_read-held :
    (flags : ℕ) (pipe : Pipe) (k : Kernel) (len : ℕ)
    → IsPipe pipe
    → let r = pipe_read flags pipe k len in
      (read_of r.2 ≡ take len (held pipe)) × (held r.0 ≡ drop len (held pipe)) × IsPipe r.0
unfolding pipe_read
pipe_read-held flags pipe k len good =
    let two : pipe.buf.pos + pipe.buf.size ≤ 2 * frame_size = omega (arith, good.live.in_page) in
    let (front, rest, live) = flexbuf_dequeue-contents pipe.buf pipe.store len good.live two in
    let d = flexbuf_dequeue pipe.buf pipe.store len in
    let pipe' : Pipe = record pipe { buf = d.1 } in
    let good' : IsPipe pipe' = record {
      live = live;
      bounded = omega (
        arith,
        good.bounded,
        length-bytes (flat pipe.store.mem d.1.page) d.1.pos d.1.size,
        length-bytes (flat pipe.store.mem pipe.buf.page) pipe.buf.pos pipe.buf.size,
        ap length rest,
        length-drop len (held pipe),
      );
    } in
    elim (Bool-cases (length d.0 == 0)) [
      | inl empty ↦
          let (nothing, b, s) = nothing_to_read-held flags pipe' k pipe'.write_end in
          rw empty (
            nothing ∙ sym (no_bytes d.0 empty) ∙ front,
            ap₂ contents b s ∙ rest,
            with_buffer pipe' _ b s good',
          )
      | inr some_bytes ↦ rw some_bytes (front, rest, good')
    ]

pub pipe_read_woken-held :
    (flags : ℕ) (pipe : Pipe) (k : Kernel) (len rc : ℕ)
    → IsPipe pipe
    → let r = pipe_read_woken flags pipe k len rc in
      (held pipe ≡ read_of r.2 ++ held r.0) × IsPipe r.0
unfolding pipe_read_woken
pipe_read_woken-held flags pipe k len rc good = elim (Bool-cases (rc == 0)) [
  | inl woken ↦
      let waiting : Pipe = record pipe { read_wait = wait_end k pipe.read_wait } in
      let (front, rest, good') =
        pipe_read-held flags waiting k len (record { live = good.live; bounded = good.bounded }) in
      rw woken (sym (ap₂ ◌++◌ front rest ∙ take-append-drop len (held pipe)), good')
  | inr interrupted ↦ rw interrupted (refl, record { live = good.live; bounded = good.bounded })
]
