-- ===== src/Flexbuf/Queue.antt =====
-- A flexible buffer as a queue of bytes (kernel/flexbuf.c).
use telos.Prelude.{
  ℕ, ◌+◌, ◌-◌, ◌*◌, ◌%◌, ◌≤◌, ◌<◌, ltb, List, ◌++◌, length, ◌≡◌, refl, ap, ap₂, ◌∙◌, arith, inl,
  inr, Bool-cases,
}
use telos.Word.{add32}
use telos.Paging.{frame_size}
use telos.Flexbuf.{
  Flexbuf, Store, bytes, poke, io_length, do_write, flexbuf_nr_pages, flexbuf_realloc,
  flexbuf_enqueue,
}
use telos.Flexbuf.Bytes.{bytes_ext, bytes-poke_below, bytes-poke, bytes-append}
use telos.Flexbuf.Io.{flat}
use telos.Flexbuf.Transfer.{contents, do_write-poke}
use telos.Flexbuf.Grow.{IsLive, Grown, flexbuf_nr_pages_lem, flexbuf_realloc-Grown}

-- The bytes of a live buffer stand in its pages.
in_pages :
    (fb : Flexbuf) (st : Store) (k : ℕ)
    → IsLive fb st
    → k < fb.size
    → fb.pos + k < flexbuf_nr_pages fb * frame_size
in_pages fb st k live h = ground (arith, flexbuf_nr_pages_lem fb st live)

do_write-IsLive :
    (fb : Flexbuf) (st : Store) (ub : List ℕ) (off : ℕ)
    → IsLive fb st
    → IsLive fb (do_write fb st ub off)
unfolding do_write
do_write-IsLive fb st ub off live = record {
  in_page = live.in_page;
  fits = live.fits;
  apart = live.apart;
  fresh = live.fresh;
  once = live.once;
}

module _ (fb : Flexbuf) (st : Store) (src : List ℕ) (fb' : Flexbuf) (st' : Store)
    (live : IsLive fb st) (grown : Grown fb st (fb.size + length src) fb' st') where
  written :
      (k : ℕ)
      → k < fb'.size
      → flat (do_write fb' st' src fb.size).mem fb'.page (fb'.pos + k)
        ≡ poke (flat st'.mem fb'.page) (fb.pos + fb.size) src (fb.pos + k)
  written k h =
      do_write-poke fb' st' src fb.size (flexbuf_nr_pages fb') (fb'.pos + k) grown.live.fits
        (omega (arith, grown.size_is)) cover grown.live.apart (in_pages fb' st' k grown.live h)
      ∙ ap₂ (λ a b. poke (flat st'.mem fb'.page) a src b) (omega (arith, grown.pos_is))
          (omega (arith, grown.pos_is))
    where
      cover : 0 < length src → fb'.pos + fb.size + length src ≤ flexbuf_nr_pages fb' * frame_size
      cover more = omega (
        arith,
        grown.size_is,
        in_pages fb' st' (fb.size + length src - 1) grown.live (omega (arith, grown.size_is)),
      )

  before :
      (k : ℕ) → k < fb.size → flat st'.mem fb'.page (fb.pos + k) ≡ flat st.mem fb.page (fb.pos + k)
  before k h =
      ap₂ (λ (m : ℕ → ℕ → ℕ) q. m q ((fb.pos + k) % frame_size)) grown.mem_is
        (grown.kept _ (omega (arith, in_pages fb st k live h)))

  append_contents : contents fb' (do_write fb' st' src fb.size) ≡ contents fb st ++ src
  append_contents =
      bytes_ext (flat (do_write fb' st' src fb.size).mem fb'.page) p fb'.pos fb.pos fb'.size written
      ∙ ap (bytes p fb.pos) grown.size_is
      ∙ bytes-append p fb.pos fb.size (length src)
      ∙ ap₂ ◌++◌
          (bytes-poke_below (flat st'.mem fb'.page) fb.pos fb.size (fb.pos + fb.size) src
              (omega arith)
            ∙ bytes_ext (flat st'.mem fb'.page) (flat st.mem fb.page) fb.pos fb.pos fb.size before)
          (bytes-poke (flat st'.mem fb'.page) (fb.pos + fb.size) src)
    where
      p : ℕ → ℕ
      p = poke (flat st'.mem fb'.page) (fb.pos + fb.size) src

  written_count : io_length fb' (length src) fb.size ≡ length src
  unfolding io_length
  written_count = omega (arith, grown.size_is, grown.live.fits)

nothing-Grown :
    (fb : Flexbuf) (st : Store) (n : ℕ) → IsLive fb st → n ≡ 0 → Grown fb st (fb.size + n) fb st
nothing-Grown fb st n live e = record {
  live = live;
  size_is = omega arith;
  pos_is = refl;
  mem_is = refl;
  kept = λ j h. refl;
}

-- A live buffer that then ends at 0xFFFF_F000 or before takes all bytes that are enqueued: they
-- follow what it held, the count that is returned is theirs, and the buffer is live again.
pub flexbuf_enqueue-contents :
    (fb : Flexbuf) (st : Store) (src : List ℕ)
    → IsLive fb st
    → fb.pos + fb.size + length src ≤ 0xFFFF_F000
    → let r = flexbuf_enqueue fb st src in
      (contents r.0 r.1 ≡ contents fb st ++ src) × IsLive r.0 r.1 × (r.2 ≡ length src)
unfolding flexbuf_enqueue
flexbuf_enqueue-contents fb st src live fits =
    let total : add32 fb.size (length src) ≡ fb.size + length src = omega (arith, fits) in
    rw total (elim (Bool-cases (ltb fb.size (fb.size + length src))) [
      | inl more ↦
          let size : ℕ = fb.size + length src in
          let g = flexbuf_realloc-Grown fb st size live (omega arith) (omega (arith, fits)) in
          let fb' = (flexbuf_realloc fb size st).0 in
          let st' = (flexbuf_realloc fb size st).1 in
          rw more (
            append_contents fb st src fb' st' live g,
            do_write-IsLive fb' st' src fb.size g.live,
            written_count fb st src fb' st' live g,
          )
      | inr none_more ↦
          let g = nothing-Grown fb st (length src) live (ground arith) in
          rw none_more (
            append_contents fb st src fb st live g,
            do_write-IsLive fb st src fb.size live,
            written_count fb st src fb st live g,
          )
    ])
