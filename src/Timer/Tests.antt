-- ===== src/Timer/Tests.antt =====
-- The theorems about timers at concrete lists.
use mathlib.Core.List.{reverse}
use telos.Prelude.{ℕ, ◌+◌, ◌-◌, ◌^◌, ◌≡◌, refl, [], ◌∷◌, ◌++◌, arith}
use telos.Timer.{expire, Timer, Timers, started, ktimer_start, ktimers_tick, tick}
use telos.Timer.Order.{Sorted, due, pending, ktimer_start-Sorted}
use telos.Timer.Run.{Ran, ticks, ticks-Ran}
use telos.Timer.Wrap.{ktimer_start_out_of_order, ktimers_tick_early}

abbrev alarm : Timer
alarm = record { id = 1; action = 50; expires = 0; flags = 2 }

abbrev armed : ℕ → ℕ → Timer
armed id expires = record { id = id; action = id + 100; expires = expires; flags = 6 }

abbrev now : Timers
now = record {
  list = armed 2 1005 ∷ armed 3 1020 ∷ [];
  tick_count = 1000;
  system_clock = 10;
  fired = [];
}

ktimer_start-Sorted_example :
    Sorted 1000 (ktimer_start now alarm 10).list
    × ((ktimer_start now alarm 10).list
        ≡ due 1010 now.list ++ started alarm 1000 10 ∷ pending 1010 now.list)
    × ((started alarm 1000 10).expires ≡ 1010)
ktimer_start-Sorted_example = ktimer_start-Sorted now alarm 10 (omega arith) (omega arith)

start_runs :
    (ktimer_start now alarm 10).list
    ≡ armed 2 1005 ∷ record alarm { expires = 1010; flags = 6 } ∷ armed 3 1020 ∷ []
unfolding ktimer_start
start_runs = refl

ticks-Ran_example : Ran now 7 (ticks 7 now)
ticks-Ran_example = ticks-Ran 7 now (omega arith) (omega arith) (omega arith)

ticks_run : (ticks 7 now).fired ≡ 102 ∷ []
unfolding tick ktimers_tick expire
ticks_run = refl

-- Two timers beyond the wrap, the tick shortly before it.
abbrev late : Timers
late = record {
  list = armed 2 50 ∷ armed 3 70 ∷ [];
  tick_count = 2 ^ 32 - 10;
  system_clock = 10;
  fired = [];
}

ktimer_start_out_of_order_example :
    (ktimer_start late alarm 20).list
    ≡ (reverse [] ++ armed 2 50 ∷ []) ++ started alarm (2 ^ 32 - 10) 20 ∷ armed 3 70 ∷ []
ktimer_start_out_of_order_example =
    ktimer_start_out_of_order late alarm (armed 3 70) (armed 2 50) [] 20 (omega arith) (omega arith)
      (omega arith) refl (omega arith) (omega arith) (omega arith)

ktimers_tick_early_run :
    (ktimers_tick (ktimer_start (record late { list = [] }) alarm 20)).fired ≡ 50 ∷ []
ktimers_tick_early_run =
    ktimers_tick_early (record late { list = [] }) alarm 20 (omega arith) (omega arith)
      (omega arith) refl
