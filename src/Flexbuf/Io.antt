-- ===== src/Flexbuf/Io.antt =====
-- What the loop of `flexbuf_do_io` (kernel/flexbuf.c) copies, as one range of bytes.
use native.Mathlib.Decide.{ℕ_discrete}
use telos.Prelude.{
  ℕ, zero, suc, ◌+◌, ◌-◌, ◌*◌, ◌/◌, ◌%◌, ◌≤◌, ◌<◌, min, List, [], ◌∷◌, ◌++◌, take, drop, length,
  get_or, ◌≡◌, ◌≢◌, refl, ap, ap₂, sym, ◌∙◌, arith, ==-ne, ==-refl, length-take, length-drop,
  take-append-drop,
}
use telos.Paging.{frame_size}
use telos.Flexbuf.{bytes, poke, update, io_read, io_write}
use telos.Flexbuf.Bytes.{bytes-append, bytes_from, poke_at, poke-append, poke_ext, poke_from}

-- The byte at offset `i` from the start of the first page.
abbrev pub flat : (ℕ → ℕ → ℕ) → (ℕ → ℕ) → ℕ → ℕ
flat mem slot i = mem (slot (i / frame_size)) (i % frame_size)

-- Bytes of one page are a range of the buffer.
bytes-page :
    (mem : ℕ → ℕ → ℕ) (slot : ℕ → ℕ) (page start n : ℕ)
    → start + n ≤ frame_size
    → bytes (mem (slot page)) start n ≡ bytes (flat mem slot) (page * frame_size + start) n
unfolding bytes
bytes-page mem slot page start zero h = refl
bytes-page mem slot page start (suc n) h =
    let q : (page * frame_size + start) / frame_size ≡ page = omega arith in
    let r : (page * frame_size + start) % frame_size ≡ start = omega arith in
    let s : page * frame_size + (start + 1) ≡ page * frame_size + start + 1 = omega arith in
    ap₂ ◌∷◌ (rw (q, r) refl)
      (bytes-page mem slot page (start + 1) n (omega arith) ∙ ap (λ i. bytes (flat mem slot) i n) s)

pub io_read-bytes :
    (n : ℕ) (mem : ℕ → ℕ → ℕ) (slot : ℕ → ℕ) (page start end left : ℕ)
    → end ≡ min frame_size (start + left)
    → start < frame_size
    → start + left ≤ n * frame_size
    → io_read n mem slot page start end left
      ≡ bytes (flat mem slot) (page * frame_size + start) left
unfolding io_read
io_read-bytes zero mem slot page start end left e h l =
    let z : left ≡ 0 = omega arith in rw z (unfold bytes in refl)
io_read-bytes (suc n) mem slot page start end left e h l =
    ap₂ ◌++◌ (bytes-page mem slot page start (end - start) (omega arith)) (
      io_read-bytes n mem slot (page + 1) 0 (min frame_size left') left'
        (ap (min frame_size) (omega arith)) (omega arith) (omega arith)
      ∙ bytes_from (flat mem slot) _ _ left' (λ pos. omega arith))
    ∙ sym (bytes-append (flat mem slot) (page * frame_size + start) (end - start) left')
    ∙ ap (bytes (flat mem slot) (page * frame_size + start)) (omega arith)
  where
    left' : ℕ
    left' = left - (end - start)

-- One page written, seen from the whole buffer, where no other of its first `pages` slots names
-- the page.
abbrev pub Apart : (ℕ → ℕ) → ℕ → Type 0
Apart slot pages = (i j : ℕ) → i < pages → j < pages → slot i ≡ slot j → i ≡ j

poke-page_here :
    (mem : ℕ → ℕ → ℕ) (slot : ℕ → ℕ) (start : ℕ) (xs : List ℕ) (j : ℕ)
    → start + length xs ≤ frame_size
    → poke (mem (slot (j / frame_size))) start xs (j % frame_size)
      ≡ poke (flat mem slot) (j / frame_size * frame_size + start) xs j
poke-page_here mem slot start xs j h = ground (
  arith,
  poke_at (mem (slot (j / frame_size))) start xs (j % frame_size),
  poke_at (flat mem slot) (j / frame_size * frame_size + start) xs j,
  ap (λ k. get_or xs k 0) offset,
)
  where
    offset : j % frame_size - start ≡ j - (j / frame_size * frame_size + start)
    offset = omega arith

poke-page :
    (mem : ℕ → ℕ → ℕ) (slot : ℕ → ℕ) (page start pages : ℕ) (xs : List ℕ) (j : ℕ)
    → start + length xs ≤ frame_size
    → Apart slot pages
    → (0 < length xs → page < pages)
    → j < pages * frame_size
    → flat (update mem (slot page) (poke (mem (slot page)) start xs)) slot j
      ≡ poke (flat mem slot) (page * frame_size + start) xs j
poke-page mem slot page start pages [] j h apart p l =
    unfold poke in
    elim (ℕ_discrete (slot (j / frame_size)) (slot page)) [
      | yes same ↦ rw same (ground arith)
      | no other ↦ rw (==-ne _ _ other) refl
    ]
poke-page mem slot page start pages (x ∷ xs) j h apart p l =
    elim (ℕ_discrete (j / frame_size) page) [
      | yes same ↦ rw (← same) (rw ==-refl (poke-page_here mem slot start (x ∷ xs) j h))
      | no other ↦
          let ne : slot (j / frame_size) ≢ slot page =
            λ e. other (apart _ _ (omega arith) (p (omega arith)) e) in
          rw (==-ne _ _ ne)
            (ground (arith, poke_at (flat mem slot) (page * frame_size + start) (x ∷ xs) j))
    ]

-- Page by page, the loop writes `ub` from its first offset on.
pub io_write-poke :
    (n : ℕ) (mem : ℕ → ℕ → ℕ) (slot : ℕ → ℕ) (page start end pages : ℕ) (ub : List ℕ) (j : ℕ)
    → end ≡ min frame_size (start + length ub)
    → start < frame_size
    → start + length ub ≤ n * frame_size
    → Apart slot pages
    → (0 < length ub → page * frame_size + start + length ub ≤ pages * frame_size)
    → j < pages * frame_size
    → flat (io_write n mem slot page start end ub) slot j
      ≡ poke (flat mem slot) (page * frame_size + start) ub j
unfolding io_write
io_write-poke zero mem slot page start end pages [] j e h l apart b k = unfold poke in refl
io_write-poke zero mem slot page start end pages (x ∷ ub) j e h l apart b k = absurd (omega arith)
io_write-poke (suc n) mem slot page start end pages ub j e h l apart b k =
    io_write-poke n mem' slot (page + 1) 0 _ pages rest j (ap (min frame_size) (omega arith))
      (omega arith) (omega (arith, later)) apart
      (λ more. omega (arith, later, b (omega (arith, later)))) k
    ∙ poke_ext (flat mem' slot) (poke (flat mem slot) at first) _ rest j (
        poke-page mem slot page start pages first j (omega (arith, now)) apart
          (λ some_bytes. omega (arith, now, b (omega (arith, now)))) k)
    ∙ poke_from (poke (flat mem slot) at first) _ _ rest j (λ more. omega (arith, later, now))
    ∙ sym (poke-append (flat mem slot) at first rest j)
    ∙ ap (λ xs. poke (flat mem slot) at xs j) (take-append-drop (end - start) ub)
  where
    at : ℕ
    at = page * frame_size + start

    first : List ℕ
    first = take (end - start) ub

    rest : List ℕ
    rest = drop (end - start) ub

    now : length first ≡ min (end - start) (length ub)
    now = length-take (end - start) ub

    later : length rest ≡ length ub - (end - start)
    later = length-drop (end - start) ub

    mem' : ℕ → ℕ → ℕ
    mem' = update mem (slot page) (poke (mem (slot page)) start first)
