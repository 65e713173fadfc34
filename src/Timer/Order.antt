-- ===== src/Timer/Order.antt =====
-- The list of timers stays in order.
use telos.Prelude.{
  ℕ, ◌+◌, ◌%◌, ◌≤◌, ◌<◌, ◌≡◌, List, [], ◌∷◌, ltb, leb, refl, ap, ◌++◌, select, arith,
}
use telos.Word.{word_mod}
use telos.Timer.{Timer, Timers, insert_forward, ktimer_start, started}

-- From the front on, no timer expires before `lo`, or before the one in front of it.
abbrev pub Sorted : ℕ → List Timer → Type 0
Sorted lo [] = Unit {0}
Sorted lo (t ∷ ts) = (lo ≤ t.expires) × Sorted t.expires ts

pub Sorted-mono : (lo lo' : ℕ) (ts : List Timer) → lo' ≤ lo → Sorted lo ts → Sorted lo' ts
Sorted-mono lo lo' [] h s = tt
Sorted-mono lo lo' (t ∷ ts) h s = (omega arith, s.1)

insert_forward-Sorted :
    (ts : List Timer) (t : Timer) (lo : ℕ)
    → lo ≤ t.expires
    → Sorted lo ts
    → Sorted lo (insert_forward ts t)
unfolding insert_forward
insert_forward-Sorted [] t lo h s = (h, tt)
insert_forward-Sorted (x ∷ xs) t lo h s = ground (arith, insert_forward-Sorted xs t x.expires)

-- The timers that expire by a tick, and those that expire later.
abbrev pub due : ℕ → List Timer → List Timer
due now = select (λ t. leb t.expires now)

abbrev pub pending : ℕ → List Timer → List Timer
pending now = select (λ t. ltb now t.expires)

pub Sorted-due :
    (ts : List Timer) (lo now : ℕ)
    → Sorted lo ts
    → now < lo
    → (due now ts ≡ []) × (pending now ts ≡ ts)
Sorted-due [] lo now s h = (refl, refl)
Sorted-due (t ∷ ts) lo now s h = ground (arith, Sorted-due ts t.expires now s.1)

insert_forward-split :
    (ts : List Timer) (t : Timer) (lo : ℕ)
    → Sorted lo ts
    → insert_forward ts t ≡ due t.expires ts ++ t ∷ pending t.expires ts
unfolding insert_forward
insert_forward-split [] t lo s = refl
insert_forward-split (x ∷ xs) t lo s =
    ground (arith, insert_forward-split xs t x.expires s.1, Sorted-due xs x.expires t.expires s.1)

-- If the list of timers is in order and the sum of `tick_count` and `ticks` does not wrap,
-- `ktimer_start` keeps the list in order: the timer, which expires at that sum, goes behind those
-- that expire by then and in front of the others.
pub ktimer_start-Sorted :
    (s : Timers) (t : Timer) (ticks : ℕ)
    → s.tick_count + ticks < word_mod
    → Sorted s.tick_count s.list
    → let now = s.tick_count + ticks in
      Sorted s.tick_count (ktimer_start s t ticks).list
      × ((ktimer_start s t ticks).list
          ≡ due now s.list ++ started t s.tick_count ticks ∷ pending now s.list)
      × ((started t s.tick_count ticks).expires ≡ now)
unfolding ktimer_start
ktimer_start-Sorted s t ticks h o =
    let t' : Timer = started t s.tick_count ticks in
    let e : (s.tick_count + ticks) % word_mod ≡ s.tick_count + ticks = omega arith in
    ground (
      arith,
      insert_forward-Sorted s.list t' s.tick_count,
      insert_forward-split s.list t' s.tick_count o,
      ap (λ n. due n s.list) e,
      ap (λ n. pending n s.list) e,
    )
