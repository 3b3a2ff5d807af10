-- ===== src/Threads/Sleeping/Tests.antt =====
-- The theorems about sleeping threads in a kernel where 100 sleeps for three ticks and 200 for two
-- more, and 400 is ready.
use os1_proj.Prelude.{◌≡◌, refl, true, false, ◌&&◌, not, List, [], ◌∷◌, arith, ◌==◌, if◌then◌else◌}
use os1_proj.Threads.{null, Kernel}
use os1_proj.Threads.Tests.{fresh, two_waiting}
use os1_proj.Threads.Blocking.{put_sleep, take_sleep}
use os1_proj.Threads.Sync.{on_tick}
use os1_proj.Threads.Chains.{member, last}
use os1_proj.Threads.Ready.{IsQueue}
use os1_proj.Threads.Sleeping.{
  Sleeper, sleeper, names, insert, awake, asleep, tick, remaining, IsSleeping,
}
use os1_proj.Threads.Removal.Sleepers.{total, take_out, take_sleep-remaining}
use os1_proj.Threads.Sleeping.Insert.{put_sleep-IsSleeping}
use os1_proj.Threads.Sleeping.Ticks.{NotReady, Leaves, on_tick-Leaves, on_tick_ends}
use os1_proj.Threads.Sleeping.Waking.{Resting, Wakes, put_sleep-Wakes}

abbrev two_asleep : Kernel
two_asleep = record two_waiting {
  tcb = λ x.
      if x == 100
      then record fresh { sleeps = true; time_sleep_relative = 3; next_sleep = 200 }
      else if x == 200
      then record fresh { sleeps = true; time_sleep_relative = 2 }
      else fresh;
  sleep_head = 100;
}

abbrev sleepers : List Sleeper
sleepers = sleeper 100 3 ∷ sleeper 200 2 ∷ []

both_sleep : IsSleeping two_asleep sleepers
unfolding names member
both_sleep = record {
  chain = (refl, ground arith, (refl, ground arith, refl));
  distinct = (refl, (refl, tt));
  times = (refl, refl, omega arith, (refl, refl, omega arith, tt));
}

one_ready : IsQueue two_asleep (400 ∷ [])
unfolding last member
one_ready = record { chain = (refl, ground arith, refl); at_tail = refl; distinct = (refl, tt) }

neither_ready : NotReady two_asleep sleepers (400 ∷ [])
unfolding names member
neither_ready x i = (ground (arith, i), ground (arith, i))

both_rest : Resting two_asleep sleepers (400 ∷ [])
both_rest = record {
  fits = omega arith;
  left = ground arith;
  apart = neither_ready;
  sleeping = both_sleep;
  ready = one_ready;
}

put_sleep-IsSleeping_example : IsSleeping (put_sleep two_asleep 300 4) (insert 300 4 sleepers)
unfolding names member
put_sleep-IsSleeping_example =
    put_sleep-IsSleeping two_asleep 300 4 sleepers (omega arith) refl (omega arith) (omega arith)
      both_sleep

on_tick-Leaves_example :
    Leaves two_asleep (asleep (tick sleepers)) (400 ∷ awake (tick sleepers)) (on_tick two_asleep)
on_tick-Leaves_example =
    on_tick-Leaves two_asleep sleepers (400 ∷ []) (omega arith) (ground arith) neither_ready
      both_sleep one_ready

on_tick_ends_example :
    let g = on_tick two_asleep in
    (not (g.sleep_head == null) && ((g.tcb g.sleep_head).time_sleep_relative == 0)) ≡ false
on_tick_ends_example =
    on_tick_ends two_asleep sleepers (400 ∷ []) (omega arith) (ground arith) neither_ready
      both_sleep one_ready

put_sleep-Wakes_example : Wakes (put_sleep two_asleep 300 4) 300 3
unfolding names member
put_sleep-Wakes_example =
    put_sleep-Wakes two_asleep 300 3 sleepers (400 ∷ []) (omega arith) (omega arith) refl refl
      (omega arith) (omega arith) both_rest

take_sleep-remaining_example :
    let (g, r) = take_sleep two_asleep 100 in
    (r ≡ 100)
    × IsSleeping g (take_out 100 sleepers)
    × (remaining 200 (take_out 100 sleepers) ≡ remaining 200 sleepers)
unfolding names member total
take_sleep-remaining_example =
    take_sleep-remaining two_asleep 100 200 sleepers (omega arith) refl (omega arith) (omega arith)
      (omega arith) refl both_sleep
