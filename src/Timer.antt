-- ===== src/Timer.antt =====
-- Kernel timers (kernel/timer.c and include/kernel/timer.h): a list of timers in the order in which
-- they expire. A `struct timer *` is the timer's `id`. The list and `tick_count` are global.
pub mod Order
pub mod Run
pub mod Wrap
mod Tests
use mathlib.Core.List.{reverse}
use telos.Prelude.{
  ℕ, ◌+◌, ◌-◌, ◌%◌, ltb, leb, ◌==◌, if◌then◌else◌, Bool, true, false, ◌&&◌, not, List, [], ◌∷◌,
  ◌++◌, bit_and, bit_or,
}
use telos.Word.{add32, sub32, not32}

-- call the handler if the timer is destroyed early
abbrev pub tf_always : ℕ
tf_always = 1

-- the memory is managed by the owner
abbrev pub tf_static : ℕ
tf_static = 2

abbrev pub tf_armed : ℕ
tf_armed = 4

-- `action` stands for the function and its data.
pub record Timer : Type 0 where
  pub id : ℕ
  pub action : ℕ
  pub expires : ℕ
  pub flags : ℕ

-- The list, the two clocks of dispatch/time.c, and the actions that were called, in order.
pub record Timers : Type 0 where
  pub list : List Timer
  pub tick_count : ℕ
  pub system_clock : ℕ
  pub fired : List ℕ

-- `flags & bit`
abbrev pub is_set : Timer → ℕ → Bool
is_set t flag = not (bit_and t.flags flag == 0)

-- `flags &= ~TF_ARMED`
abbrev pub disarm : Timer → Timer
disarm t = record t { flags = bit_and t.flags (not32 tf_armed) }

unfoldable pub ktimer_init : ℕ → ℕ → ℕ → Timer
ktimer_init id action flags = record {
  id = id;
  action = action;
  expires = 0;
  flags = bit_and flags (not32 tf_armed);
}

-- The scan from the front for the first timer that expires later, and the insertion before it.
unfoldable pub insert_forward : List Timer → Timer → List Timer
insert_forward [] t = t ∷ []
insert_forward (x ∷ xs) t = if ltb t.expires x.expires then t ∷ x ∷ xs else x ∷ insert_forward xs t

-- The scan from the back, when the sum has wrapped: over the timers from the last on, with those
-- behind it in list order. At a timer that expires after the present tick it inserts behind it, at
-- one that expires after the new timer before it; when the list is used up, at the end.
unfoldable pub insert_backward : List Timer → Timer → ℕ → List Timer → List Timer
insert_backward [] t tick behind = behind ++ t ∷ []
insert_backward (x ∷ xs) t tick behind =
    let rest = insert_backward xs t tick (x ∷ behind) in
    if ltb tick x.expires
    then reverse xs ++ x ∷ t ∷ behind
    else if ltb t.expires x.expires
    then reverse xs ++ t ∷ x ∷ behind
    else rest

-- The timer as it is when started.
abbrev pub started : Timer → ℕ → ℕ → Timer
started t tick ticks = record t { expires = add32 tick ticks; flags = bit_or t.flags tf_armed }

unfoldable pub ktimer_start : Timers → Timer → ℕ → Timers
unfolding insert_forward insert_backward
ktimer_start s t ticks =
    let t' = started t s.tick_count ticks in
    record s {
      list =
          if ltb t'.expires s.tick_count
          then insert_backward (reverse s.list) t' s.tick_count []
          else insert_forward s.list t';
    }

-- `list_del(&t->chain)`
unfoldable pub unlink : ℕ → List Timer → List Timer
unlink p [] = []
unlink p (x ∷ xs) = if x.id == p then xs else x ∷ unlink p xs

-- `ktimer_destroy`. The memory of a timer that is not `TF_STATIC` is not given back: the code
-- passes the address of its own variable to `slab_free`, which finds no slab for it.
unfoldable pub ktimer_destroy : Timers → Timer → Timers × ℕ
unfolding unlink
ktimer_destroy s t = (
  record s {
    fired =
        if is_set t tf_armed && is_set t tf_always && ltb s.tick_count t.expires
        then s.fired ++ t.action ∷ []
        else s.fired;
    list = unlink t.id s.list;
  },
  if leb t.expires s.tick_count then 0 else t.expires - s.tick_count,
)

unfoldable pub ktimer_remove : Timers → Timer → Timers × ℕ
unfolding unlink
ktimer_remove s t = (record s { list = unlink t.id s.list }, sub32 t.expires s.tick_count)

-- One timer of `ktimers_tick` that has expired: disarmed, its action called, destroyed.
unfoldable pub expire : Timers → Timer → Timers
unfolding ktimer_destroy
expire s t = (ktimer_destroy (record s { fired = s.fired ++ t.action ∷ [] }) (disarm t)).0

-- The loop of `ktimers_tick`; the next timer is read before one goes.
unfoldable pub tick_loop : Timers → List Timer → Timers
tick_loop s [] = s
tick_loop s (t ∷ ts) =
    let rest = tick_loop (expire s t) ts in if ltb s.tick_count t.expires then s else rest

unfoldable pub ktimers_tick : Timers → Timers
unfolding tick_loop
ktimers_tick s = tick_loop s s.list

abbrev pub ticks_per_sec : ℕ
ticks_per_sec = 100

-- The clocks and the timers of `tick` (dispatch/time.c), before it chooses a process.
unfoldable pub tick : Timers → Timers
tick s =
    let now = add32 s.tick_count 1 in
    ktimers_tick (record s {
      tick_count = now;
      system_clock = if now % ticks_per_sec == 0 then add32 s.system_clock 1 else s.system_clock;
    })
