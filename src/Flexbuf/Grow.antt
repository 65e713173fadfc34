-- ===== src/Flexbuf/Grow.antt =====
-- A flexible buffer that grows: its pages stay apart from one another (kernel/flexbuf.c).
use native.Mathlib.Decide.{ℕ_discrete, dec_lt}
use telos.Prelude.{
  ℕ, zero, suc, ◌+◌, ◌-◌, ◌/◌, ◌≤◌, ◌<◌, ltb, leb, ◌&&◌, if◌then◌else◌, ◌==◌, ◌≡◌, ◌≢◌, refl, ap,
  sym, ◌∙◌, arith, ◌⊎◌, inl, inr, Bool-cases,
}
use telos.Paging.{frame_size}
use telos.Flexbuf.{
  Flexbuf, Store, update, nr_pages, flexbuf_nr_pages, alloc_slots, enough_slots, flexbuf_realloc,
}
use telos.Flexbuf.Transfer.{nr_pages_lem}
use telos.Flexbuf.Io.{Apart}

-- The buffer starts in its first page and ends at 0xFFFF_F000 or before; its slots name different pages, none of
-- which `kalloc_pages` is going to hand out; nor does that hand out one page twice.
pub record IsLive (fb : Flexbuf) (st : Store) : Type 0 where
  pub in_page : fb.pos < frame_size
  pub fits : fb.pos + fb.size ≤ 0xFFFF_F000
  pub apart : Apart fb.page (flexbuf_nr_pages fb)
  pub fresh : (n i : ℕ) → st.calls ≤ n → i < flexbuf_nr_pages fb → st.supply n ≢ fb.page i
  pub once : (m n : ℕ) → st.calls ≤ m → m < n → st.supply m ≢ st.supply n

-- `n` slots from `i` on name the next pages of the supply, and the others what they did.
record Allocated (n i : ℕ) (fb : Flexbuf) (st : Store) (fb' : Flexbuf) (st' : Store) : Type 0 where
  slots :
      (j : ℕ)
      → fb'.page j
        ≡ (if leb i j && ltb j (i + n) then st.supply (st.calls + (j - i)) else fb.page j)
  calls : st'.calls ≡ st.calls + n
  supply : st'.supply ≡ st.supply
  mem : st'.mem ≡ st.mem
  pos : fb'.pos ≡ fb.pos

next_slot :
    (supply slot : ℕ → ℕ) (calls i n j : ℕ)
    → (if leb (i + 1) j && ltb j (i + 1 + n)
        then supply (calls + 1 + (j - (i + 1)))
        else if j == i
        then supply calls
        else slot j)
      ≡ (if leb i j && ltb j (i + suc n) then supply (calls + (j - i)) else slot j)
next_slot supply slot calls i n j = elim (dec_lt i j) [
  | yes above ↦
      let e : calls + 1 + (j - (i + 1)) ≡ calls + (j - i) = omega arith in rw e (ground arith)
  | no below ↦ elim (ℕ_discrete j i) [
    | yes same ↦ let e : calls + (j - i) ≡ calls = omega arith in rw e (ground arith)
    | no other ↦ ground arith
  ]
]

alloc_slots-Allocated :
    (n i : ℕ) (fb : Flexbuf) (st : Store)
    → Allocated n i fb st (alloc_slots n i fb st).0 (alloc_slots n i fb st).1
unfolding alloc_slots
alloc_slots-Allocated zero i fb st = record {
  slots = λ j. ground arith;
  calls = omega arith;
  supply = refl;
  mem = refl;
  pos = refl;
}
alloc_slots-Allocated (suc n) i fb st =
    let fb' : Flexbuf = record fb { page = update fb.page i (st.supply st.calls) } in
    let st' : Store = record st { calls = st.calls + 1 } in
    let rest = alloc_slots-Allocated n (i + 1) fb' st' in
    record {
      slots = λ j. rest.slots j ∙ next_slot st.supply fb.page st.calls i n j;
      calls = omega (arith, rest.calls);
      supply = rest.supply;
      mem = rest.mem;
      pos = rest.pos;
    }

enough_slots_lem :
    (fb : Flexbuf) (size n : ℕ)
    → ((enough_slots fb size n).pos ≡ fb.pos)
      × ((j : ℕ) → j < flexbuf_nr_pages fb → (enough_slots fb size n).page j ≡ fb.page j)
unfolding enough_slots
enough_slots_lem fb size n = elim (Bool-cases (ltb fb.nr_slots n)) [
  | inl more ↦ rw more (refl, λ j h. ground arith)
  | inr same ↦ rw same (refl, λ j h. refl)
]

-- Slots that name what they did below `old` and, from there on, the next pages of the supply.
module _ (supply slot slot' : ℕ → ℕ) (calls old new : ℕ) (apart : Apart slot old)
    (fresh : (n i : ℕ) → calls ≤ n → i < old → supply n ≢ slot i)
    (once : (m n : ℕ) → calls ≤ m → m < n → supply m ≢ supply n)
    (named : (j : ℕ)
      → j < new
      → ((j < old) × (slot' j ≡ slot j))
        ⊎ ((old ≤ j) × (slot' j ≡ supply (calls + (j - old))))) where
  supply_inj : (m n : ℕ) → calls ≤ m → calls ≤ n → supply m ≡ supply n → m ≡ n
  supply_inj m n h k e = elim (dec_lt m n) [
    | yes lt ↦ absurd (once m n h lt e)
    | no ge ↦ elim (dec_lt n m) [ yes gt ↦ absurd (once n m k gt (sym e)) | no le ↦ omega arith ]
  ]

  slots-Apart : Apart slot' new
  slots-Apart i j h k e = elim (named i h) [
    | inl (lo, p) ↦ elim (named j k) [
      | inl (lo', q) ↦ apart i j lo lo' (sym p ∙ e ∙ q)
      | inr (hi', q) ↦ absurd (fresh _ i (omega arith) lo (sym q ∙ sym e ∙ p))
    ]
    | inr (hi, p) ↦ elim (named j k) [
      | inl (lo', q) ↦ absurd (fresh _ j (omega arith) lo' (sym p ∙ e ∙ q))
      | inr (hi', q) ↦ omega (arith, supply_inj _ _ (omega arith) (omega arith) (sym p ∙ e ∙ q))
    ]
  ]

  slots_fresh : (n i : ℕ) → calls + (new - old) ≤ n → i < new → supply n ≢ slot' i
  slots_fresh n i h k e = elim (named i k) [
    | inl (lo, p) ↦ fresh n i (omega arith) lo (e ∙ p)
    | inr (hi, p) ↦ once (calls + (i - old)) n (omega arith) (omega arith) (sym p ∙ sym e)
  ]

nr_pages_mono :
    (pos size size' : ℕ)
    → pos < frame_size
    → size ≤ size'
    → pos + size' ≤ 0xFFFF_F000
    → nr_pages pos size ≤ nr_pages pos size'
nr_pages_mono pos size size' p le fits =
    ground (arith, nr_pages_lem pos size p (omega arith), nr_pages_lem pos size' p fits)

-- A buffer that grows to `size` keeps its bytes and stays live.
pub record Grown (fb : Flexbuf) (st : Store) (size : ℕ) (fb' : Flexbuf) (st' : Store) : Type 0 where
  pub live : IsLive fb' st'
  pub size_is : fb'.size ≡ size
  pub pos_is : fb'.pos ≡ fb.pos
  pub mem_is : st'.mem ≡ st.mem
  pub kept : (j : ℕ) → j < flexbuf_nr_pages fb → fb'.page j ≡ fb.page j

pub flexbuf_realloc-Grown :
    (fb : Flexbuf) (st : Store) (size : ℕ)
    → IsLive fb st
    → fb.size ≤ size
    → fb.pos + size ≤ 0xFFFF_F000
    → Grown fb st size (flexbuf_realloc fb size st).0 (flexbuf_realloc fb size st).1
unfolding flexbuf_realloc
flexbuf_realloc-Grown fb st size live le fits =
    let old : ℕ = flexbuf_nr_pages fb in
    let new : ℕ = nr_pages fb.pos size in
    let start = enough_slots fb size new in
    let (start_pos, start_page) = enough_slots_lem fb size new in
    let a = alloc_slots-Allocated (new - old) old start st in
    let mono : old ≤ new = unfold flexbuf_nr_pages in nr_pages_mono _ _ _ live.in_page le fits in
    let none_freed : old - new ≡ 0 = omega arith in
    let pos_same : (alloc_slots (new - old) old start st).0.pos ≡ fb.pos = a.pos ∙ start_pos in
    let slot' : ℕ → ℕ = (alloc_slots (new - old) old start st).0.page in
    let named : (j : ℕ)
        → j < new
        → ((j < old) × (slot' j ≡ fb.page j))
          ⊎ ((old ≤ j) × (slot' j ≡ st.supply (st.calls + (j - old)))) =
      λ j h. elim (dec_lt j old) [
        | yes lo ↦ inl (lo, ground (arith, a.slots j, start_page j lo))
        | no hi ↦ inr (omega arith, ground (arith, a.slots j))
      ] in
    let count : nr_pages (alloc_slots (new - old) old start st).0.pos size ≡ new =
      ap (λ p. nr_pages p size) pos_same in
    let same : (n : ℕ) → (alloc_slots (new - old) old start st).1.supply n ≡ st.supply n =
      λ n. ap (λ f. f n) a.supply in
    rw none_freed (record {
      live = record {
        in_page = omega (arith, pos_same, live.in_page);
        fits = omega (arith, pos_same);
        apart = λ i j h k.
            slots-Apart st.supply fb.page slot' st.calls old new live.apart live.fresh live.once
              named i j (omega (arith, count)) (omega (arith, count));
        fresh = λ n i h k e.
            slots_fresh st.supply fb.page slot' st.calls old new live.apart live.fresh live.once
              named n i (omega (arith, a.calls)) (omega (arith, count)) (sym (same n) ∙ e);
        once = λ m n h k e. live.once m n (omega (arith, a.calls)) k (sym (same m) ∙ e ∙ same n);
      };
      size_is = refl;
      pos_is = pos_same;
      mem_is = a.mem;
      kept = λ j h. ground (arith, a.slots j, start_page j h);
    })

pub flexbuf_nr_pages_lem :
    (fb : Flexbuf) (st : Store)
    → IsLive fb st
    → flexbuf_nr_pages fb ≡ (if fb.size == 0 then 0 else (fb.pos + fb.size - 1) / frame_size + 1)
unfolding flexbuf_nr_pages
flexbuf_nr_pages_lem fb st live = nr_pages_lem fb.pos fb.size live.in_page live.fits
