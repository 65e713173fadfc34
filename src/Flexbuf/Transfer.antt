-- ===== src/Flexbuf/Transfer.antt =====
-- What one read and one write of a flexible buffer do to its bytes (kernel/flexbuf.c).
use telos.Prelude.{
  ℕ, zero, suc, ◌+◌, ◌-◌, ◌*◌, ◌/◌, ◌%◌, ◌≤◌, ◌<◌, min, if◌then◌else◌, ◌==◌, List, [], ◌∷◌, take,
  length, ◌≡◌, refl, ap, ◌∙◌, arith,
}
use telos.Word.{add32, sub32}
use telos.Word.Mask.{bit_and_page}
use telos.Paging.{frame_size, pages_in_range}
use telos.Flexbuf.{Flexbuf, Store, bytes, poke, io_length, flexbuf_read, do_write, nr_pages}
use telos.Flexbuf.Io.{flat, io_read-bytes, io_write-poke, Apart}

-- The bytes that a buffer holds.
abbrev pub contents : Flexbuf → Store → List ℕ
contents fb st = bytes (flat st.mem fb.page) fb.pos fb.size

pages_cover :
    (at n : ℕ) → at + n ≤ 0xFFFF_F000 → at % frame_size + n ≤ pages_in_range at n * frame_size
unfolding pages_in_range
pages_cover at n h = omega (arith, bit_and_page at)

pub nr_pages_lem :
    (pos size : ℕ)
    → pos < frame_size
    → pos + size ≤ 0xFFFF_F000
    → nr_pages pos size ≡ (if size == 0 then 0 else (pos + size - 1) / frame_size + 1)
unfolding nr_pages pages_in_range
nr_pages_lem pos size p h = ground (arith, bit_and_page pos)

-- In a buffer that ends at 0xFFFF_F000 or before, a read from an offset in it or at its end is one
-- range of its bytes: the length asked for, cut at the end of the buffer.
pub flexbuf_read-bytes :
    (fb : Flexbuf) (st : Store) (len off : ℕ)
    → fb.pos + fb.size ≤ 0xFFFF_F000
    → off ≤ fb.size
    → flexbuf_read fb st len off
      ≡ bytes (flat st.mem fb.page) (fb.pos + off) (min len (fb.size - off))
unfolding flexbuf_read
flexbuf_read-bytes fb st len off h o =
    let sub : sub32 fb.size off ≡ fb.size - off = omega arith in
    let add : add32 fb.pos off ≡ fb.pos + off = omega arith in
    let n : ℕ = min len (fb.size - off) in
    let at : ℕ = fb.pos + off in
    let whole : at / frame_size * frame_size + at % frame_size ≡ at = omega arith in
    rw (sub, add)
      (io_read-bytes (pages_in_range at n) st.mem fb.page (at / frame_size) (at % frame_size) _ n
          refl (omega arith) (pages_cover at n (omega arith))
        ∙ ap (λ i. bytes (flat st.mem fb.page) i n) whole)

pub take_all : (n : ℕ) (xs : List ℕ) → length xs ≤ n → take n xs ≡ xs
take_all zero [] h = refl
take_all zero (x ∷ xs) h = absurd (omega arith)
take_all (suc n) [] h = refl
take_all (suc n) (x ∷ xs) h = ap (λ r. x ∷ r) (take_all n xs (omega arith))

-- A write within the buffer is a write to its bytes.
pub do_write-poke :
    (fb : Flexbuf) (st : Store) (ub : List ℕ) (off pages j : ℕ)
    → fb.pos + fb.size ≤ 0xFFFF_F000
    → off + length ub ≤ fb.size
    → (0 < length ub → fb.pos + off + length ub ≤ pages * frame_size)
    → Apart fb.page pages
    → j < pages * frame_size
    → flat (do_write fb st ub off).mem fb.page j ≡ poke (flat st.mem fb.page) (fb.pos + off) ub j
unfolding do_write
do_write-poke fb st ub off pages j h o cover apart k =
    let add : add32 fb.pos off ≡ fb.pos + off = omega arith in
    let n : io_length fb (length ub) off ≡ length ub = unfold io_length in omega arith in
    let at : ℕ = fb.pos + off in
    let whole : at / frame_size * frame_size + at % frame_size ≡ at = omega arith in
    let all : take (length ub) ub ≡ ub = take_all (length ub) ub (omega arith) in
    rw (n, add, all)
      (io_write-poke (pages_in_range at (length ub)) st.mem fb.page (at / frame_size)
          (at % frame_size) _ pages ub j refl (omega arith) (pages_cover at _ (omega arith)) apart
          (λ some_bytes. omega (arith, cover some_bytes)) k
        ∙ ap (λ i. poke (flat st.mem fb.page) i ub j) whole)
