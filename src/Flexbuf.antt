-- ===== src/Flexbuf.antt =====
-- The flexible buffers of kernel/flexbuf.c. A page is a number, 0 is NULL; what stands in a page
-- and which slot names which page are kept apart, so that two slots may name one page.
pub mod Bytes
pub mod Io
pub mod Transfer
pub mod Grow
pub mod Queue
pub mod Dequeue
mod Tests
use telos.Prelude.{
  ℕ, zero, suc, ◌+◌, ◌-◌, ◌*◌, ◌/◌, ◌%◌, min, max, ltb, if◌then◌else◌, ◌==◌, List, [], ◌∷◌, ◌++◌,
  take, drop, length,
}
use telos.Word.{add32, sub32}
use telos.Paging.{frame_size, pages_in_range}

-- `struct flexbuf` (include/kernel/flexbuf.h). `page` also has a value for slots past the descriptor,
-- which the code reads when a range of length 0 begins at a page boundary.
pub record Flexbuf : Type 0 where
  pub size : ℕ
  pub pos : ℕ
  pub nr_slots : ℕ
  pub page : ℕ → ℕ

-- What the pages hold, byte by byte, the page that the n-th call of `kalloc_pages` hands out, how
-- many calls there were, and the pages that were given back.
pub record Store : Type 0 where
  pub mem : ℕ → ℕ → ℕ
  pub supply : ℕ → ℕ
  pub calls : ℕ
  pub freed : List ℕ

-- An array or a memory with one element written.
abbrev pub update {ℓ} : {A : Type ℓ} → (ℕ → A) → ℕ → A → ℕ → A
update f i v j = if j == i then v else f j

unfoldable pub page_offset : ℕ → ℕ
page_offset off = off % frame_size

unfoldable pub off_to_page : ℕ → ℕ
off_to_page off = off / frame_size

-- The pages of `size` bytes from `pos` on.
unfoldable pub nr_pages : ℕ → ℕ → ℕ
nr_pages pos size = if size == 0 then 0 else pages_in_range pos size

unfoldable pub flexbuf_nr_pages : Flexbuf → ℕ
unfolding nr_pages
flexbuf_nr_pages fb = nr_pages fb.pos fb.size

-- `fb->page[i] = kalloc_pages(1)` for `n` slots from `i` on
unfoldable pub alloc_slots : ℕ → ℕ → Flexbuf → Store → Flexbuf × Store
alloc_slots zero i fb st = (fb, st)
alloc_slots (suc n) i fb st =
    alloc_slots n (i + 1) (record fb { page = update fb.page i (st.supply st.calls) })
      (record st { calls = st.calls + 1 })

-- `kfree_pages(fb->page[i], 1)` for `n` slots from `i` on
unfoldable pub free_slots : ℕ → ℕ → Flexbuf → Store → Store
free_slots zero i fb st = st
free_slots (suc n) i fb st = free_slots n (i + 1) fb (record st { freed = fb.page i ∷ st.freed })

unfoldable pub flexbuf_alloc : ℕ → Store → Flexbuf × Store
unfolding off_to_page alloc_slots
flexbuf_alloc size st =
    let pages = off_to_page size in
    let fb : Flexbuf = record { size = size; pos = 0; nr_slots = max pages 8; page = λ i. 0 } in
    alloc_slots pages 0 fb st

unfoldable pub flexbuf_free : Flexbuf → Store → Store
unfolding flexbuf_nr_pages free_slots
flexbuf_free fb st = free_slots (flexbuf_nr_pages fb) 0 fb st

-- A descriptor with more slots; the slots that it has on top hold nothing yet, here NULL.
unfoldable pub grow_slots : Flexbuf → ℕ → Flexbuf
unfolding off_to_page flexbuf_nr_pages
grow_slots fb size = record {
  size = size;
  pos = fb.pos;
  nr_slots = off_to_page (add32 fb.pos size);
  page = λ i. if ltb i (flexbuf_nr_pages fb) then fb.page i else 0;
}

-- The descriptor is replaced if it is out of slots.
unfoldable pub enough_slots : Flexbuf → ℕ → ℕ → Flexbuf
unfolding grow_slots
enough_slots fb size new_pages = if ltb fb.nr_slots new_pages then grow_slots fb size else fb

unfoldable pub flexbuf_realloc : Flexbuf → ℕ → Store → Flexbuf × Store
unfolding flexbuf_nr_pages nr_pages enough_slots alloc_slots free_slots
flexbuf_realloc fb size st =
    let old_pages = flexbuf_nr_pages fb in
    let new_pages = nr_pages fb.pos size in
    let (grown, st') =
      alloc_slots (new_pages - old_pages) old_pages (enough_slots fb size new_pages) st in
    (record grown { size = size }, free_slots (old_pages - new_pages) new_pages grown st')

-- `n` bytes from `i` on
unfoldable pub bytes : (ℕ → ℕ) → ℕ → ℕ → List ℕ
bytes f i zero = []
bytes f i (suc n) = f i ∷ bytes f (i + 1) n

-- Bytes written from `i` on.
unfoldable pub poke : (ℕ → ℕ) → ℕ → List ℕ → ℕ → ℕ
poke f i [] = f
poke f i (x ∷ xs) = poke (update f i x) (i + 1) xs

-- The loop of `flexbuf_do_io` for FB_READ, with `n` pages to go: what it copies into `ub`.
unfoldable pub io_read : ℕ → (ℕ → ℕ → ℕ) → (ℕ → ℕ) → ℕ → ℕ → ℕ → ℕ → List ℕ
unfolding bytes
io_read zero mem slot page start end left = []
io_read (suc n) mem slot page start end left =
    let left' : ℕ = left - (end - start) in
    bytes (mem (slot page)) start (end - start)
    ++ io_read n mem slot (page + 1) 0 (min frame_size left') left'

-- The same for FB_WRITE: the memory after it. `ub` holds the bytes that are left.
unfoldable pub io_write : ℕ → (ℕ → ℕ → ℕ) → (ℕ → ℕ) → ℕ → ℕ → ℕ → List ℕ → ℕ → ℕ → ℕ
unfolding poke
io_write zero mem slot page start end ub = mem
io_write (suc n) mem slot page start end ub =
    let rest = drop (end - start) ub in
    io_write n (update mem (slot page) (poke (mem (slot page)) start (take (end - start) ub))) slot
      (page + 1) 0 (min frame_size (length rest)) rest

-- `length = MIN(length, fb->size - off)`, where the difference wraps
unfoldable pub io_length : Flexbuf → ℕ → ℕ → ℕ
io_length fb len off = min len (sub32 fb.size off)

unfoldable pub flexbuf_read : Flexbuf → Store → ℕ → ℕ → List ℕ
unfolding io_length page_offset off_to_page io_read
flexbuf_read src st len off =
    let n : ℕ = io_length src len off in
    let at : ℕ = add32 src.pos off in
    let start = page_offset at in
    io_read (pages_in_range at n) st.mem src.page (off_to_page at) start
      (min frame_size (start + n)) n

unfoldable pub do_write : Flexbuf → Store → List ℕ → ℕ → Store
unfolding io_length page_offset off_to_page io_write
do_write fb st ub off =
    let n : ℕ = io_length fb (length ub) off in
    let at : ℕ = add32 fb.pos off in
    let start = page_offset at in
    record st {
      mem =
          io_write (pages_in_range at n) st.mem fb.page (off_to_page at) start
            (min frame_size (start + n)) (take n ub);
    }

-- The number of bytes written is the third part.
unfoldable pub flexbuf_write : Flexbuf → Store → List ℕ → ℕ → Flexbuf × Store × ℕ
unfolding flexbuf_realloc do_write io_length
flexbuf_write dst st src off =
    let n : ℕ = length src in
    let (fb, st') =
      if ltb dst.size (add32 off n) then flexbuf_realloc dst (add32 off n) st else (dst, st) in
    (fb, do_write fb st' src off, io_length fb n off)

unfoldable pub flexbuf_enqueue : Flexbuf → Store → List ℕ → Flexbuf × Store × ℕ
unfolding flexbuf_write
flexbuf_enqueue dst st src = flexbuf_write dst st src dst.size

-- `src->page[page] = src->page[shift+page]` for the slots below `shift`
unfoldable pub shift_slots : ℕ → (ℕ → ℕ) → ℕ → ℕ
shift_slots shift slot i = if ltb i shift then slot (shift + i) else slot i

unfoldable pub flexbuf_dequeue : Flexbuf → Store → ℕ → List ℕ × Flexbuf
unfolding flexbuf_read shift_slots page_offset
flexbuf_dequeue src st len =
    let out = flexbuf_read src st len 0 in
    let n : ℕ = length out in
    let shift : ℕ = add32 src.pos n / frame_size in
    (
      out,
      record src {
        size = sub32 src.size n;
        pos = page_offset (add32 src.pos n);
        page = shift_slots shift src.page;
      },
    )
