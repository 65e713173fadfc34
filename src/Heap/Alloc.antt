-- ===== src/Heap/Alloc.antt =====
-- The segments that `hmalloc` hands out, and those that are free, never overlap.
use native.Mathlib.Decide.{ℕ_discrete}
use telos.Prelude.{
  ℕ, ◌+◌, ◌-◌, ◌*◌, ◌≤◌, ◌<◌, ◌≡◌, ◌≢◌, ap, sym, ◌∙◌, leb, true, false, ◌||◌, ◌⊎◌, inl, inr, List,
  ◌∷◌, arith, Bool-cases, Option-cases,
}
use telos.Word.{word_mod, add32, sub32}
use telos.Paging.{align_up, page_align, frame_size}
use telos.Paging.Align.{page_align_lem, align_up_16}
use telos.Heap.{
  Heap, magic_ok, magic_free, header, put, pages_needed, first_fit, take_segment, grow, hmalloc,
  hfree,
}
use telos.Heap.Free.{mem, first_fit_sound}
use telos.Heap.Apart.{IsHeap, whole-IsHeap, split-IsHeap, split_size_p}

take_segment-IsHeap :
    (h : Heap) (live : List ℕ) (p n : ℕ)
    → IsHeap h live
    → mem p h.free_list ≡ true
    → n ≤ h.size p
    → IsHeap (take_segment h p n) (p ∷ live) × (n ≤ (take_segment h p n).size p)
unfolding take_segment
take_segment-IsHeap h live p n good m fits =
    let b = good.below p (ground (arith, m)) in
    let r : ℕ = p + header + n in
    let room : sub32 (h.size p) n ≡ h.size p - n = omega (arith, b) in
    elim (Bool-cases (leb (sub32 (h.size p) n) (header + 16))) [
      | inl whole ↦ rw whole (whole-IsHeap h live p (put h.magic p magic_ok) good m, fits)
      | inr split ↦ rw split (
          let far : add32 (add32 p header) n ≡ r = omega (arith, b) in
          let left : sub32 (sub32 (h.size p) n) header ≡ h.size p - n - header =
            ground (arith, room) in
          rw (far, left)
            (
              split-IsHeap h live p n (put (put h.magic r magic_free) p magic_ok) good m
                  (ground arith),
              omega (arith, split_size_p h.size p n r (h.size p - n - header)),
            ))
    ]

-- `bytes` bytes of new pages at `q`, clear of every segment.
pub record Fresh (h : Heap) (live : List ℕ) (q bytes : ℕ) : Type 0 where
  pub clear :
      (a : ℕ)
      → (mem a live || mem a h.free_list) ≡ true
      → (a + header + h.size a ≤ q) ⊎ (q + bytes ≤ a)
  pub top : q + bytes < word_mod

grow-IsHeap :
    (h : Heap) (live : List ℕ) (q pages : ℕ)
    → IsHeap h live
    → Fresh h live q (pages * frame_size)
    → 0 < pages
    → IsHeap (grow h q pages) live
unfolding grow
grow-IsHeap h live q pages good fresh pos =
    let bytes : ℕ = pages * frame_size in
    let size' : ℕ → ℕ = put h.size q (sub32 bytes header) in
    let top : q + bytes < word_mod = fresh.top in
    let here : size' q ≡ bytes - header = ground arith in
    let not_used : (mem q live || mem q h.free_list) ≡ false =
      elim (Bool-cases (mem q live || mem q h.free_list)) [
        | inl u ↦ elim (fresh.clear q u) [
          | inl c ↦ absurd (omega (arith, c))
          | inr c ↦ absurd (omega (arith, c))
        ]
        | inr e ↦ e
      ] in
    let same_size : (a : ℕ) → a ≢ q → size' a ≡ h.size a = λ a ne. ground arith in
    let old : (a : ℕ)
        → a ≢ q
        → (mem a live || mem a (q ∷ h.free_list)) ≡ true
        → (mem a live || mem a h.free_list) ≡ true =
      λ a ne u. ground arith in
    record {
      no_double = (ground arith, good.no_double);
      apart = λ a u. elim (ℕ_discrete a q) [
        | yes same ↦ absurd (ground (arith, ap (λ x. mem x live) same))
        | no ne ↦ ground (arith, good.apart a)
      ];
      off = λ a b u w d. elim (ℕ_discrete a q) [
        | yes sa ↦ elim (ℕ_discrete b q) [
          | yes sb ↦ absurd (d (sa ∙ sym sb))
          | no nb ↦ elim (fresh.clear b (old b nb w)) [
            | inl c ↦ inr (omega (arith, c, sa, same_size b nb))
            | inr c ↦ inl (omega (arith, c, sa, ap size' sa, here))
          ]
        ]
        | no na ↦ elim (ℕ_discrete b q) [
          | yes sb ↦ elim (fresh.clear a (old a na u)) [
            | inl c ↦ inl (omega (arith, c, sb, same_size a na))
            | inr c ↦ inr (omega (arith, c, sb, ap size' sb, here))
          ]
          | no nb ↦ elim (good.off a b (old a na u) (old b nb w) d) [
            | inl c ↦ inl (omega (arith, c, same_size a na))
            | inr c ↦ inr (omega (arith, c, same_size b nb))
          ]
        ]
      ];
      below = λ a u. elim (ℕ_discrete a q) [
        | yes same ↦ omega (arith, same, ap size' same, here)
        | no ne ↦ omega (arith, same_size a ne, good.below a (old a ne u))
      ];
    }

grow-mem : (h : Heap) (q pages : ℕ) → mem q (grow h q pages).free_list ≡ true
unfolding grow
grow-mem h q pages = ground arith

grow-size :
    (h : Heap) (q pages n : ℕ)
    → n + 16 ≤ pages * frame_size
    → pages * frame_size < word_mod
    → n ≤ (grow h q pages).size q
unfolding grow
grow-size h q pages n room top = ground arith

pages_needed_lem :
    (n : ℕ) → n + 16 ≤ 0xFFFF_F000 → (0 < pages_needed n) × (n + 16 ≤ pages_needed n * frame_size)
unfolding pages_needed page_align
pages_needed_lem n h =
    let e : add32 n header ≡ n + 16 = omega arith in
    let (whole, up, low) = page_align_lem (n + 16) h in
    rw e (omega (arith, whole, up), omega (arith, whole, up))

-- On a heap whose segments do not overlap, for a size that does not wrap when it is rounded up,
-- and with new pages that are clear of all segments: `hmalloc` returns the header of a segment of
-- at least the size asked for that was not handed out, and afterwards no two segments overlap,
-- whether they are handed out or free.
pub hmalloc-IsHeap :
    (kalloc_pages : ℕ → ℕ) (h : Heap) (live : List ℕ) (n : ℕ)
    → IsHeap h live
    → n + 32 ≤ 0xFFFF_F000
    → let pages = pages_needed (align_up n 16) in
      Fresh h live (kalloc_pages pages) (pages * frame_size)
      → let (p, h') = hmalloc kalloc_pages h n in
        IsHeap h' (p ∷ live) × (n ≤ h'.size p) × (mem p live ≡ false)
unfolding hmalloc
hmalloc-IsHeap kalloc_pages h live n good small fresh =
    let size : ℕ = align_up n 16 in
    let pages : ℕ = pages_needed size in
    let q : ℕ = kalloc_pages pages in
    let (whole, up, low) = align_up_16 n (omega arith) in
    elim (Option-cases (first_fit h.size h.free_list size)) [
      | inr (p, e) ↦
          let (m, fits) = first_fit_sound h.size h.free_list size p e in
          let (heap, enough) = take_segment-IsHeap h live p size good m fits in
          rw (e, hmalloc) (heap, omega (arith, enough, up), ground (arith, m, good.apart p))
      | inl e ↦
          let (some_page, room) = pages_needed_lem size (omega (arith, low)) in
          let grown = grow-IsHeap h live q pages good fresh some_page in
          let m : mem q (grow h q pages).free_list ≡ true = grow-mem h q pages in
          let fits : size ≤ (grow h q pages).size q =
            grow-size h q pages size room (omega (arith, fresh.top)) in
          let (heap, enough) = take_segment-IsHeap (grow h q pages) live q size grown m fits in
          rw (e, hmalloc) (heap, omega (arith, enough, up), ground (arith, m, grown.apart q))
    ]

hfree_marked :
    (h : Heap) (p : ℕ) → h.magic p ≡ magic_ok → hfree h p ≡ record h { free_list = p ∷ h.free_list }
unfolding hfree
hfree_marked h p ok_mark = rw (ok_mark, hfree)

-- `hfree` of a segment that is handed out once, with its mark intact, on a heap whose segments do
-- not overlap: it is on the free list, and again no two segments overlap.
pub hfree-IsHeap :
    (h : Heap) (live : List ℕ) (p : ℕ)
    → IsHeap h (p ∷ live)
    → mem p live ≡ false
    → h.magic p ≡ magic_ok
    → IsHeap (hfree h p) live × (mem p (hfree h p).free_list ≡ true)
hfree-IsHeap h live p good out ok_mark =
    let absent : mem p h.free_list ≡ false = good.apart p (ground arith) in
    let used : (a : ℕ)
        → (mem a live || mem a (p ∷ h.free_list)) ≡ true
        → (mem a (p ∷ live) || mem a h.free_list) ≡ true =
      λ a u. ground arith in
    rw (hfree_marked h p ok_mark) (
      record {
        no_double = (absent, good.no_double);
        apart = λ a u. elim (ℕ_discrete a p) [
          | yes same ↦ absurd (ground (arith, out, ap (λ x. mem x live) same))
          | no ne ↦ ground (arith, good.apart a)
        ];
        off = λ a b u w d. good.off a b (used a u) (used b w) d;
        below = λ a u. good.below a (used a u);
      },
      ground arith,
    )

-- Freeing a segment twice is not noticed, although the code looks for it: `hfree` leaves the mark
-- that it tests, and the segment is on the free list twice.
pub hfree_twice :
    (h : Heap) (p : ℕ)
    → h.magic p ≡ magic_ok
    → (hfree (hfree h p) p).free_list ≡ p ∷ p ∷ h.free_list
hfree_twice h p ok_mark =
    ap (λ (t : Heap). t.free_list)
      (ap (λ t. hfree t p) (hfree_marked h p ok_mark)
        ∙ hfree_marked (record h { free_list = p ∷ h.free_list }) p ok_mark)
