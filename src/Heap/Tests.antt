-- ===== src/Heap/Tests.antt =====
-- Runs of the heap at concrete inputs.
use telos.Prelude.{ℕ, ◌≤◌, ◌≡◌, refl, ◌*◌, true, false, [], ◌∷◌, arith, inl}
use telos.Paging.{align_up, frame_size}
use telos.Heap.{Heap, magic_ok, hmalloc, hfree, pages_needed}
use telos.Heap.Free.{mem}
use telos.Heap.Apart.{IsHeap}
use telos.Heap.Alloc.{Fresh, hmalloc-IsHeap, hfree-IsHeap, hfree_twice}

-- One page at 0x100000, handed out whole.
abbrev one_page : Heap
one_page = record { size = λ a. 4080; magic = λ a. magic_ok; free_list = [] }

abbrev page : ℕ
page = 0x100000

used_page : (a : ℕ) → mem a (page ∷ []) ≡ true → a ≡ page
used_page a u = ground arith

one_page-IsHeap : IsHeap one_page (page ∷ [])
one_page-IsHeap = record {
  no_double = tt;
  apart = λ a u. refl;
  off = λ a b u w d. absurd (ground (arith, used_page a, used_page b));
  below = λ a u. ground (arith, used_page a);
}

next_page : Fresh one_page (page ∷ []) 0x200000 (pages_needed (align_up 100 16) * frame_size)
unfolding pages_needed align_up
next_page = record { clear = λ a u. inl (ground (arith, used_page a)); top = omega arith }

hmalloc-IsHeap_example :
    let r = hmalloc (λ pages. 0x200000) one_page 100 in
    IsHeap r.1 (r.0 ∷ page ∷ []) × (100 ≤ r.1.size r.0) × (mem r.0 (page ∷ []) ≡ false)
hmalloc-IsHeap_example =
    hmalloc-IsHeap (λ pages. 0x200000) one_page (page ∷ []) 100 one_page-IsHeap (omega arith)
      next_page

hfree-IsHeap_example :
    IsHeap (hfree one_page page) [] × (mem page (hfree one_page page).free_list ≡ true)
hfree-IsHeap_example = hfree-IsHeap one_page [] page one_page-IsHeap refl refl

hfree_twice_run : (hfree (hfree one_page page) page).free_list ≡ page ∷ page ∷ []
hfree_twice_run = hfree_twice one_page page refl
