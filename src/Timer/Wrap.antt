-- ===== src/Timer/Wrap.antt =====
-- What happens to timers when `tick_count + ticks` wraps.
use mathlib.Core.List.{reverse, reverse-cons}
use telos.Prelude.{ℕ, ◌+◌, ◌≤◌, ◌<◌, ◌≡◌, List, [], ◌∷◌, ◌++◌, ap, arith}
use telos.Word.{word_mod, add32}
use telos.Timer.{Timer, Timers, started, insert_backward, ktimer_start, ktimers_tick}
use telos.Timer.Run.{ktimers_tick_lem}

-- If the sum of `tick_count` and `ticks` wraps, and the last two timers are in order and expire
-- at a count not above `tick_count` and above that of the new one, `ktimer_start` puts the new
-- timer between them: behind a timer that expires later.
pub ktimer_start_out_of_order :
    (s : Timers) (t y z : Timer) (rest : List Timer) (ticks : ℕ)
    → word_mod ≤ s.tick_count + ticks
    → s.tick_count < word_mod
    → ticks < word_mod
    → reverse s.list ≡ y ∷ z ∷ rest
    → y.expires ≤ s.tick_count
    → add32 s.tick_count ticks < z.expires
    → z.expires ≤ y.expires
    → (ktimer_start s t ticks).list
      ≡ (reverse rest ++ z ∷ []) ++ started t s.tick_count ticks ∷ y ∷ []
unfolding ktimer_start
ktimer_start_out_of_order s t y z rest ticks w h k e h1 h2 h3 = ground (
  arith,
  ap (λ l. insert_backward l (started t s.tick_count ticks) s.tick_count []) e,
  reverse-cons z rest,
)

-- A timer whose expiry wraps, started when no other is, has its action called by the next
-- `ktimers_tick`, however many ticks were asked for.
pub ktimers_tick_early :
    (s : Timers) (t : Timer) (ticks : ℕ)
    → word_mod ≤ s.tick_count + ticks
    → s.tick_count < word_mod
    → ticks < word_mod
    → s.list ≡ []
    → (ktimers_tick (ktimer_start s t ticks)).fired ≡ s.fired ++ t.action ∷ []
unfolding ktimer_start
ktimers_tick_early s t ticks w h k e =
    ground (arith, alone, ktimers_tick_lem (ktimer_start s t ticks) 0 (rw alone (omega arith, tt)))
  where
    alone : (ktimer_start s t ticks).list ≡ started t s.tick_count ticks ∷ []
    alone = ground (
      arith,
      ap (λ l. insert_backward (reverse l) (started t s.tick_count ticks) s.tick_count []) e,
    )
