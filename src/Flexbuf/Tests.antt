-- ===== src/Flexbuf/Tests.antt =====
-- Runs of flexible buffers at concrete inputs.
use telos.Prelude.{min, ◌-◌, ℕ, ◌+◌, ◌*◌, ◌≡◌, ◌≢◌, refl, [], ◌∷◌, ◌++◌, take, drop, arith}
use telos.Paging.{frame_size}
use telos.Flexbuf.{
  Flexbuf, Store, flexbuf_alloc, flexbuf_free, flexbuf_enqueue, flexbuf_read, bytes,
  flexbuf_dequeue, flexbuf_nr_pages,
}
use telos.Flexbuf.Transfer.{contents, flexbuf_read-bytes}
use telos.Flexbuf.Io.{flat}
use telos.Flexbuf.Grow.{IsLive}
use telos.Flexbuf.Queue.{flexbuf_enqueue-contents}
use telos.Flexbuf.Dequeue.{flexbuf_dequeue-contents, flexbuf_dequeue_loses}

-- The n-th page that is handed out is page 100 + n; each byte is its page and offset.
abbrev store : ℕ → Store
store calls = record {
  mem = λ p o. p * 10000 + o;
  supply = λ n. 100 + n;
  calls = calls;
  freed = [];
}

-- `size` bytes from `pos` on, in the first pages.
abbrev buffer : ℕ → ℕ → Flexbuf
buffer pos size = record { size = size; pos = pos; nr_slots = 8; page = λ i. 100 + i }

-- Four bytes across a page boundary.
abbrev across : Flexbuf
across = buffer 4094 4

two_pages : flexbuf_nr_pages across ≡ 2
unfolding flexbuf_nr_pages telos.Paging.pages_in_range
two_pages = refl

across-IsLive : IsLive across (store 2)
across-IsLive = record {
  in_page = omega arith;
  fits = omega arith;
  apart = λ i j h k e. omega arith;
  fresh = λ n i h k e. omega (arith, two_pages);
  once = λ m n h k e. omega arith;
}

across_runs : contents across (store 2) ≡ 1004094 ∷ 1004095 ∷ 1010000 ∷ 1010001 ∷ []
unfolding telos.Flexbuf.bytes
across_runs = refl

take_three : (flexbuf_dequeue across (store 2) 3).0 ≡ 1004094 ∷ 1004095 ∷ 1010000 ∷ []
unfolding flexbuf_dequeue telos.Paging.pages_in_range
take_three = refl

append_two :
    let r = flexbuf_enqueue across (store 2) (7 ∷ 8 ∷ []) in
    contents r.0 r.1 ≡ 1004094 ∷ 1004095 ∷ 1010000 ∷ 1010001 ∷ 7 ∷ 8 ∷ []
unfolding flexbuf_enqueue telos.Paging.pages_in_range telos.Flexbuf.bytes
append_two = refl

all_freed : (flexbuf_free across (store 2)).freed ≡ 101 ∷ 100 ∷ []
unfolding flexbuf_free telos.Flexbuf.nr_pages telos.Paging.pages_in_range
all_freed = refl

two_pages_up : (flexbuf_alloc 8200 (store 0)).1.calls ≡ 2
unfolding flexbuf_alloc
two_pages_up = refl

flexbuf_enqueue-contents_example :
    let r = flexbuf_enqueue across (store 2) (7 ∷ 8 ∷ []) in
    (contents r.0 r.1 ≡ contents across (store 2) ++ 7 ∷ 8 ∷ []) × IsLive r.0 r.1 × (r.2 ≡ 2)
flexbuf_enqueue-contents_example =
    flexbuf_enqueue-contents across (store 2) (7 ∷ 8 ∷ []) across-IsLive (omega arith)

flexbuf_dequeue-contents_example :
    let r = flexbuf_dequeue across (store 2) 3 in
    (r.0 ≡ take 3 (contents across (store 2)))
    × (contents r.1 (store 2) ≡ drop 3 (contents across (store 2)))
    × IsLive r.1 (store 2)
flexbuf_dequeue-contents_example =
    flexbuf_dequeue-contents across (store 2) 3 across-IsLive (omega arith)

-- Three pages, of which the last holds one byte.
three_pages : flexbuf_nr_pages (buffer 0 8193) ≡ 3
unfolding flexbuf_nr_pages telos.Paging.pages_in_range
three_pages = refl

three-IsLive : IsLive (buffer 0 8193) (store 3)
three-IsLive = record {
  in_page = omega arith;
  fits = omega arith;
  apart = λ i j h k e. omega arith;
  fresh = λ n i h k e. omega (arith, three_pages);
  once = λ m n h k e. omega arith;
}

flexbuf_dequeue_loses_example :
    contents (flexbuf_dequeue (buffer 0 8193) (store 3) frame_size).1 (store 3)
    ≢ drop frame_size (contents (buffer 0 8193) (store 3))
flexbuf_dequeue_loses_example =
    flexbuf_dequeue_loses (buffer 0 8193) (store 3) three-IsLive refl (omega arith)
      (λ e. absurd (omega arith))

flexbuf_read-bytes_example :
    flexbuf_read across (store 2) 9 1
    ≡ bytes (flat (store 2).mem across.page) (4094 + 1) (min 9 (4 - 1))
flexbuf_read-bytes_example = flexbuf_read-bytes across (store 2) 9 1 (omega arith) (omega arith)
