-- ===== src/Timer/Run.antt =====
-- Which actions are called, and when.
use mathlib.Core.List.{append_assoc, append-nil, map-append}
use telos.Prelude.{
  ℕ, ◌/◌, ◌%◌, zero, suc, ◌+◌, ◌≤◌, ◌<◌, ◌≡◌, refl, sym, ap, List, [], ◌∷◌, ◌++◌, map, arith,
  bit_and, false, if◌then◌else◌, ◌==◌, ==-refl,
}
use telos.Word.{word_mod, add32}
use telos.Word.Mask.{bit_and-halves, bit_and_nothing}
use telos.Timer.{
  Timer, Timers, is_set, disarm, tf_armed, unlink, expire, tick_loop, ktimers_tick, tick,
}
use telos.Timer.Order.{Sorted, Sorted-mono, due, pending, Sorted-due}

-- A timer that is disarmed is not armed.
disarm-is_set : (t : Timer) → is_set (disarm t) tf_armed ≡ false
disarm-is_set t = ground (arith, low)
  where
    low : bit_and (bit_and t.flags 0xFFFF_FFFB) 4 ≡ 0
    low = omega (
      arith,
      bit_and-halves t.flags 0xFFFF_FFFB,
      bit_and-halves (t.flags / 2) 0x7FFF_FFFD,
      bit_and-halves (t.flags / 2 / 2) 0x3FFF_FFFE,
      bit_and-halves (bit_and t.flags 0xFFFF_FFFB) 4,
      bit_and-halves (bit_and t.flags 0xFFFF_FFFB / 2) 2,
      bit_and-halves (bit_and t.flags 0xFFFF_FFFB / 2 / 2) 1,
      bit_and_nothing (bit_and t.flags 0xFFFF_FFFB / 2 / 2 / 2),
    )

abbrev actions : List Timer → List ℕ
actions = map (λ t. t.action)

-- At the head of the list, expiry takes the timer off and calls its action once.
pub expire-head :
    (s : Timers) (t : Timer) (ts : List Timer)
    → s.list ≡ t ∷ ts
    → expire s t ≡ record s { list = ts; fired = s.fired ++ t.action ∷ [] }
unfolding expire unlink
expire-head s t ts e = ground (arith, disarm-is_set t, ap (unlink t.id) e, ==-refl t.id)

tick_loop_lem :
    (ts : List Timer) (s : Timers) (lo : ℕ)
    → s.list ≡ ts
    → Sorted lo ts
    → tick_loop s ts ≡ record s {
      list = pending s.tick_count ts;
      fired = s.fired ++ actions (due s.tick_count ts);
    }
unfolding tick_loop
tick_loop_lem [] s lo e o = ground (arith, append-nil s.fired)
tick_loop_lem (t ∷ ts) s lo e o = ground (
  arith,
  expire-head s t ts e,
  tick_loop_lem ts (record s { list = ts; fired = s.fired ++ t.action ∷ [] }) t.expires refl o.1,
  Sorted-due ts t.expires s.tick_count o.1,
  append_assoc s.fired (t.action ∷ []) (actions (due s.tick_count ts)),
  append-nil s.fired,
)

-- `ktimers_tick` on a list in order calls the actions of the timers that are due, each once and in
-- list order, and leaves the timers that are not.
pub ktimers_tick_lem :
    (s : Timers) (lo : ℕ)
    → Sorted lo s.list
    → ktimers_tick s ≡ record s {
      list = pending s.tick_count s.list;
      fired = s.fired ++ actions (due s.tick_count s.list);
    }
unfolding ktimers_tick
ktimers_tick_lem s lo o = tick_loop_lem s.list s lo refl o

-- `n` timer interrupts
abbrev pub ticks : ℕ → Timers → Timers
ticks zero s = s
ticks (suc n) s = tick (ticks n s)

pending-pending :
    (ts : List Timer) (now later : ℕ)
    → now ≤ later
    → pending later (pending now ts) ≡ pending later ts
pending-pending [] now later h = refl
pending-pending (t ∷ ts) now later h = ground (arith, pending-pending ts now later h)

-- In a list in order, what is due later is what is due now and then the rest that is due later.
due-append :
    (ts : List Timer) (lo now later : ℕ)
    → Sorted lo ts
    → now ≤ later
    → due now ts ++ due later (pending now ts) ≡ due later ts
due-append [] lo now later o h = refl
due-append (t ∷ ts) lo now later o h =
    ground (arith, due-append ts t.expires now later o.1 h, Sorted-due ts t.expires now o.1)

pending-Sorted : (ts : List Timer) (lo now : ℕ) → Sorted lo ts → Sorted lo (pending now ts)
pending-Sorted [] lo now o = tt
pending-Sorted (t ∷ ts) lo now o =
    ground (arith, pending-Sorted ts t.expires now o.1, Sorted-mono t.expires lo (pending now ts))

-- After `n` ticks from `s`: the clocks, the timers that are left, and the actions called.
pub record Ran (s : Timers) (n : ℕ) (r : Timers) : Type 0 where
  pub now : r.tick_count ≡ s.tick_count + n
  pub seconds : r.system_clock + s.tick_count / 100 ≡ s.system_clock + (s.tick_count + n) / 100
  pub list : r.list ≡ pending (s.tick_count + n) s.list
  pub fired : r.fired ≡ s.fired ++ actions (due (s.tick_count + n) s.list)

tick-Ran :
    (s r : Timers) (n lo : ℕ)
    → Sorted lo s.list
    → s.tick_count + n + 1 < word_mod
    → s.system_clock + n + 1 < word_mod
    → Ran s n r
    → Ran s (suc n) (tick r)
unfolding tick
tick-Ran s r n lo o h c ran = record {
  now = rw k next;
  seconds = rw k (ground (arith, ran.now, ran.seconds));
  list =
      rw (k, next, ran.list)
        (pending-pending s.list (s.tick_count + n) (s.tick_count + suc n) (omega arith));
  fired = rw (k, next, ran.list, ran.fired) fired';
}
  where
    now' : ℕ
    now' = add32 r.tick_count 1

    next : now' ≡ s.tick_count + suc n
    next = omega (arith, ran.now)

    ready : Timers
    ready = record r {
      tick_count = now';
      system_clock = if now' % 100 == 0 then add32 r.system_clock 1 else r.system_clock;
    }

    k :
        ktimers_tick ready
        ≡ record ready { list = pending now' r.list; fired = r.fired ++ actions (due now' r.list) }
    k = ktimers_tick_lem ready lo (rw ran.list (pending-Sorted s.list lo (s.tick_count + n) o))

    fired' :
        (s.fired ++ actions (due (s.tick_count + n) s.list))
          ++ actions (due (s.tick_count + suc n) (pending (s.tick_count + n) s.list))
        ≡ s.fired ++ actions (due (s.tick_count + suc n) s.list)
    fired' = rw (
      append_assoc,
      ← map-append,
      due-append s.list lo (s.tick_count + n) (s.tick_count + suc n) o (omega arith),
    )

-- From a list in order whose timers all expire in the future, `n` timer interrupts advance
-- `tick_count` by `n` and the seconds of `system_clock` at every hundredth tick; they call the
-- actions of exactly the timers that expire by then, each once and in order of expiry, and leave
-- the others armed, as long as neither clock wraps.
pub ticks-Ran :
    (n : ℕ) (s : Timers)
    → Sorted (suc s.tick_count) s.list
    → s.tick_count + n < word_mod
    → s.system_clock + n < word_mod
    → Ran s n (ticks n s)
ticks-Ran zero s o h c = record {
  now = omega arith;
  seconds = omega arith;
  list = sym none_due.1;
  fired = rw none_due.0 (sym (append-nil s.fired));
}
  where
    none_due : (due (s.tick_count + 0) s.list ≡ []) × (pending (s.tick_count + 0) s.list ≡ s.list)
    none_due = Sorted-due s.list (suc s.tick_count) (s.tick_count + 0) o (omega arith)
ticks-Ran (suc n) s o h c =
    tick-Ran s (ticks n s) n (suc s.tick_count) o (omega arith) (omega arith)
      (ticks-Ran n s o (omega arith) (omega arith))
