-- ===== src/Flexbuf/Dequeue.antt =====
-- Bytes taken from the front of a flexible buffer (kernel/flexbuf.c).
use telos.Prelude.{
  ℕ, ◌+◌, ◌-◌, ◌*◌, ◌/◌, ◌%◌, ◌≤◌, ◌<◌, min, if◌then◌else◌, ◌==◌, take, drop, length, ◌≡◌, ◌≢◌,
  refl, ap, ap₂, sym, ◌∙◌, arith, ◌⊎◌, inl, inr, Bool-cases, lt→ltb, drop-min, get_or,
}
use telos.Word.{add32, sub32}
use telos.Paging.{frame_size}
use telos.Flexbuf.{
  Flexbuf, Store, bytes, flexbuf_read, flexbuf_nr_pages, flexbuf_dequeue, shift_slots,
}
use telos.Flexbuf.Bytes.{bytes_ext, take-bytes, drop-bytes, length-bytes, get_or-bytes}
use telos.Flexbuf.Io.{flat}
use telos.Flexbuf.Transfer.{contents, nr_pages_lem, flexbuf_read-bytes}
use telos.Flexbuf.Grow.{IsLive, flexbuf_nr_pages_lem}

-- The buffer after `n` bytes were taken.
abbrev pub taken : Flexbuf → ℕ → Flexbuf
taken fb n = record fb {
  size = fb.size - n;
  pos = (fb.pos + n) % frame_size;
  page = shift_slots ((fb.pos + n) / frame_size) fb.page;
}

front :
    (fb : Flexbuf) (st : Store) (len : ℕ)
    → IsLive fb st
    → flexbuf_read fb st len 0 ≡ bytes (flat st.mem fb.page) fb.pos (min len fb.size)
front fb st len live =
    flexbuf_read-bytes fb st len 0 live.fits (omega arith)
    ∙ ap₂ (bytes (flat st.mem fb.page)) (omega arith) (omega arith)

-- What `flexbuf_dequeue` does to any live buffer.
pub flexbuf_dequeue-taken :
    (fb : Flexbuf) (st : Store) (len : ℕ)
    → IsLive fb st
    → (flexbuf_dequeue fb st len).1 ≡ taken fb (min len fb.size)
unfolding flexbuf_dequeue
flexbuf_dequeue-taken fb st len live =
    let n : ℕ = min len fb.size in
    let count : length (flexbuf_read fb st len 0) ≡ n =
      ap length (front fb st len live) ∙ length-bytes (flat st.mem fb.page) fb.pos n in
    let total : add32 fb.pos n ≡ fb.pos + n = omega (arith, live.fits) in
    let left : sub32 fb.size n ≡ fb.size - n = omega (arith, live.fits) in
    rw (count, total, left) refl

pub flexbuf_dequeue-front :
    (fb : Flexbuf) (st : Store) (len : ℕ)
    → IsLive fb st
    → (flexbuf_dequeue fb st len).0 ≡ take len (contents fb st)
unfolding flexbuf_dequeue
flexbuf_dequeue-front fb st len live =
    front fb st len live ∙ sym (take-bytes len (flat st.mem fb.page) fb.pos fb.size)

-- A slot that is used again is one that was moved, if slots were moved at all.
shift_slots_lem :
    (slot : ℕ → ℕ) (shift i : ℕ)
    → (shift ≡ 0) ⊎ (i < shift)
    → shift_slots shift slot i ≡ slot (shift + i)
unfolding shift_slots
shift_slots_lem slot shift i (inl none_moved) =
    rw none_moved (let e : 0 + i ≡ i = omega arith in rw e (ground arith))
shift_slots_lem slot shift i (inr moved) = rw (lt→ltb i shift moved) refl

-- Within two pages the slots that are moved are all that there are.
module _ (fb : Flexbuf) (st : Store) (n : ℕ) (live : IsLive fb st) (le : n ≤ fb.size)
    (two : fb.pos + fb.size ≤ 2 * frame_size) where
  place :
      (k : ℕ)
      → k < fb.size - n
      → ((fb.pos + n) / frame_size ≡ 0)
        ⊎ (((fb.pos + n) % frame_size + k) / frame_size < (fb.pos + n) / frame_size)
  place k h = elim (Bool-cases ((fb.pos + n) / frame_size == 0)) [
    | inl e ↦ inl (ground arith)
    | inr e ↦ inr (ground arith)
  ]

  -- The last page of what is left.
  used :
      (i : ℕ)
      → i < flexbuf_nr_pages (taken fb n)
      → (shift_slots ((fb.pos + n) / frame_size) fb.page i
          ≡ fb.page ((fb.pos + n) / frame_size + i))
        × ((fb.pos + n) / frame_size + i < flexbuf_nr_pages fb)
  used i h =
      let some_left : 0 < fb.size - n = ground (arith, after) in
      let before : flexbuf_nr_pages fb ≡ (fb.pos + fb.size - 1) / frame_size + 1 =
        ground (arith, flexbuf_nr_pages_lem fb st live) in
      let last : i ≤ ((fb.pos + n) % frame_size + (fb.size - n) - 1) / frame_size =
        ground (arith, after) in
      let moved : ((fb.pos + n) / frame_size ≡ 0) ⊎ (i < (fb.pos + n) / frame_size) =
        elim (place (fb.size - n - 1) (omega arith)) [
          | inl e ↦ inl e
          | inr l ↦ inr (omega arith)
        ] in
      (shift_slots_lem fb.page _ i moved, omega arith)
    where
      after : flexbuf_nr_pages (taken fb n) ≡ (
          if fb.size - n == 0
          then 0
          else ((fb.pos + n) % frame_size + (fb.size - n) - 1) / frame_size + 1)
      after = unfold flexbuf_nr_pages in nr_pages_lem _ _ (omega arith) (omega (arith, live.fits))

  taken-contents : contents (taken fb n) st ≡ drop n (contents fb st)
  taken-contents =
      bytes_ext (flat st.mem (taken fb n).page) (flat st.mem fb.page) _ (fb.pos + n) (fb.size - n)
        same
      ∙ sym (drop-bytes n (flat st.mem fb.page) fb.pos fb.size)
    where
      same :
          (k : ℕ)
          → k < fb.size - n
          → flat st.mem (taken fb n).page ((fb.pos + n) % frame_size + k)
            ≡ flat st.mem fb.page (fb.pos + n + k)
      same k h =
          ap₂ st.mem (shift_slots_lem fb.page _ _ (place k h) ∙ ap fb.page (omega arith))
            (omega arith)

  taken-IsLive : IsLive (taken fb n) st
  taken-IsLive = record {
    in_page = omega arith;
    fits = omega (arith, live.fits);
    apart = λ i j h k e.
        omega
          (arith, live.apart _ _ (used i h).1 (used j k).1 (sym (used i h).0 ∙ e ∙ (used j k).0));
    fresh = λ m i h k e. live.fresh m _ h (used i k).1 (e ∙ (used i k).0);
    once = live.once;
  }

-- From a live buffer within two pages, a dequeue takes the first `len` bytes, or all if there are
-- fewer; what is left are the bytes that followed, in order, and the buffer is live again.
pub flexbuf_dequeue-contents :
    (fb : Flexbuf) (st : Store) (len : ℕ)
    → IsLive fb st
    → fb.pos + fb.size ≤ 2 * frame_size
    → let r = flexbuf_dequeue fb st len in
      (r.0 ≡ take len (contents fb st))
      × (contents r.1 st ≡ drop len (contents fb st))
      × IsLive r.1 st
flexbuf_dequeue-contents fb st len live two =
    let n : ℕ = min len fb.size in
    rw (flexbuf_dequeue-taken fb st len live) (
      flexbuf_dequeue-front fb st len live,
      taken-contents fb st n live (omega arith) two
          ∙ ap (λ m. drop (min len m) (contents fb st))
              (sym (length-bytes (flat st.mem fb.page) fb.pos fb.size))
          ∙ drop-min len (contents fb st),
      taken-IsLive fb st n live (omega arith) two,
    )

-- From a live buffer that starts a page and goes on into a third one, a dequeue of one page leaves
-- the second page where the third should be: if their first bytes differ, what is left is not what
-- followed.
pub flexbuf_dequeue_loses :
    (fb : Flexbuf) (st : Store)
    → IsLive fb st
    → fb.pos ≡ 0
    → 2 * frame_size < fb.size
    → st.mem (fb.page 1) 0 ≢ st.mem (fb.page 2) 0
    → contents (flexbuf_dequeue fb st frame_size).1 st ≢ drop frame_size (contents fb st)
flexbuf_dequeue_loses fb st live start size ne e =
    let n : min frame_size fb.size ≡ frame_size = omega arith in
    let moved : (fb.pos + frame_size) / frame_size ≡ 1 = omega arith in
    let first : ((fb.pos + frame_size) % frame_size + frame_size) / frame_size ≡ 1 = omega arith in
    let second : (fb.pos + frame_size + frame_size) / frame_size ≡ 2 = omega arith in
    let aligned : ((fb.pos + frame_size) % frame_size + frame_size) % frame_size ≡ 0 =
      omega arith in
    let aligned' : (fb.pos + frame_size + frame_size) % frame_size ≡ 0 = omega arith in
    let left : contents (taken fb frame_size) st ≡ drop frame_size (contents fb st) =
      ap (λ m. contents (taken fb m) st) (sym n)
      ∙ ap (λ (b : Flexbuf). contents b st) (sym (flexbuf_dequeue-taken fb st frame_size live))
      ∙ e in
    ne (
      ap₂ st.mem (sym (ap₂ (λ s i. shift_slots s fb.page i) moved first ∙ stays)) (sym aligned)
      ∙ sym (get_or-bytes (flat st.mem (taken fb frame_size).page) _ _ frame_size 0 (omega arith))
      ∙ ap (λ xs. get_or xs frame_size 0)
          (left ∙ drop-bytes frame_size (flat st.mem fb.page) fb.pos fb.size)
      ∙ get_or-bytes (flat st.mem fb.page) _ _ frame_size 0 (omega arith)
      ∙ ap₂ st.mem (ap fb.page second) aligned')
  where
    stays : shift_slots 1 fb.page 1 ≡ fb.page 1
    stays = unfold shift_slots in refl
