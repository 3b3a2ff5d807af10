-- ===== src/Threads/Sound/Timer.antt =====
-- Sleep::onTick and the interrupt of the timer, and the places of the threads.
use os1_proj.Prelude.{
  ◌≡◌, refl, ◌∙◌, ap, ℕ, suc, ◌+w◌, ◌≤◌, true, List, [], ◌∷◌, arith, Bool-cases, inl, inr, leb,
}
use os1_proj.Threads.{Ptr, Kernel, yield}
use os1_proj.Threads.Sync.{on_tick, timer}
use os1_proj.Threads.Chains.{member}
use os1_proj.Threads.Frames.{KeepsWaiting}
use os1_proj.Threads.Waiting.{IsWaiting-frame}
use os1_proj.Threads.Sleeping.{Sleeper, tick, SomeLeft}
use os1_proj.Threads.Sleeping.Ticks.{count_down, count_down-Leaves, names-tick, length-tick}
use os1_proj.Threads.Removal.Sleepers.{total}
use os1_proj.Threads.Sound.{View, Linked, KeepsMarks, Place-same}
use os1_proj.Threads.Sound.Sleep.{with_asleep, few_asleep}
use os1_proj.Threads.Sound.Switch.{IsValid, yield-Sound}
use os1_proj.Threads.Sound.Inert.{Inert, Sound-Inert}
use os1_proj.Threads.Sound.Release.{Releases}
use os1_proj.Threads.Sound.Signal.{Releases-IsValid}
use os1_proj.Threads.Sound.Ticks.{wake_loop-Releases}

total-tick : (ss : List Sleeper) → total (tick ss) ≤ total ss
unfolding total tick
total-tick [] = omega arith
total-tick (s ∷ ss) = omega arith

module _ (k : Kernel) where
  count_down-KeepsWaiting : KeepsWaiting k (count_down k)
  count_down-KeepsWaiting = record {
    sems = ground arith;
    idles = ground arith;
    bound = ground arith;
    links = λ x. ground arith;
    places = λ x. ground arith;
    tokens = λ x. ground arith;
  }

  count_down-KeepsMarks : KeepsMarks k (count_down k)
  count_down-KeepsMarks = record {
    sleeps = λ x. ground arith;
    blocked = λ x. ground arith;
    finished = λ x. ground arith;
    idle = ground arith;
  }

  count_down_running : (count_down k).running ≡ k.running
  count_down_running = ground arith

count_down-Linked :
    (all : List Ptr) (k : Kernel) (v : View) (h : List Ptr)
    → SomeLeft v.asleep
    → Linked all k v h
    → Linked all (count_down k) (with_asleep v (tick v.asleep)) h
count_down-Linked all k v h left l =
    let g = count_down k in
    let after = count_down-Leaves k v.asleep v.ready left l.sleeping l.queue in
    let keeps = count_down-KeepsWaiting k in
    let marks = count_down-KeepsMarks k in
    record {
      queue = after.ready;
      sleeping = after.sleeping;
      below = omega (arith, l.below, total-tick v.asleep);
      waits = λ s n. IsWaiting-frame k g s (v.waiting s) keeps (l.waits s n);
      room = rw keeps.bound l.room;
      real = l.real;
      place = λ x.
          Place-same all k g v (with_asleep v (tick v.asleep)) h h x
            (record {
              sleeps = marks.sleeps x;
              blocked = marks.blocked x;
              finished = marks.finished x;
              idle = marks.idle;
              ready = refl;
              asleep = ap (member x) (names-tick v.asleep);
              waiting = refl;
              hands = λ i. i;
            })
            (l.place x);
    }

pub on_tick-Releases :
    (all : List Ptr) (k : Kernel) (v : View) (h : List Ptr)
    → SomeLeft v.asleep
    → Linked all k v h
    → Releases all k v h (on_tick k)
unfolding on_tick
on_tick-Releases all k v h left l =
    let g = count_down k in
    let marks = count_down-KeepsMarks k in
    let few = few_asleep all k v h l in
    let r =
      wake_loop-Releases all (suc k.threads) g (with_asleep v (tick v.asleep)) h (tick v.asleep)
        refl (omega (arith, few, length-tick v.asleep)) (count_down-Linked all k v h left l) in
    record {
      lists = r.lists;
      linked = r.linked;
      left = r.left;
      loose = λ x o. r.loose x (rw (marks.sleeps x, marks.blocked x) o);
      lives = λ x. r.lives x ∙ rw (marks.idle, marks.finished x) refl;
      runs = r.runs ∙ count_down_running k;
      idle = r.idle ∙ marks.idle;
    }

counted-Inert : (k : Kernel) (n : ℕ) → Inert k (record k { time_slice_counter = n })
counted-Inert k n = record {
  ready = record { head = refl; tail = refl; links = λ x. refl };
  asleep = record {
    head = refl;
    bound = refl;
    links = λ x. refl;
    times = λ x. refl;
    flags = λ x. refl;
  };
  marks = record { sleeps = λ x. refl; blocked = λ x. refl; finished = λ x. refl; idle = refl };
  waits = λ s ws q. record {
    chain = q.chain;
    at_tail = q.at_tail;
    distinct = q.distinct;
    blocked = q.blocked;
  };
  runs = refl;
}

pub yield-IsValid : (all : List Ptr) (k : Kernel) → IsValid all k → IsValid all (yield k true)
yield-IsValid all k h = record { lists = _; sound = yield-Sound all k h.lists h.sound }

pub on_tick-IsValid : (all : List Ptr) (k : Kernel) → IsValid all k → IsValid all (on_tick k)
on_tick-IsValid all k h =
    Releases-IsValid all k (on_tick k) h.lists h.sound
      (on_tick-Releases all k h.lists (k.running ∷ []) h.sound.left h.sound.linked)

pub timer-IsValid : (all : List Ptr) (k : Kernel) → IsValid all k → IsValid all (timer k)
unfolding timer
timer-IsValid all k h =
    let k0 = record k { time_slice_counter = k.time_slice_counter +w 1 } in
    let k1 = on_tick k0 in
    let ticked = on_tick-IsValid all k0 (record {
      lists = h.lists;
      sound = Sound-Inert all k k0 h.lists (counted-Inert k _) h.sound;
    }) in
    elim (Bool-cases (leb (k1.tcb k1.running).time_slice k1.time_slice_counter)) [
      | inl e ↦ rw e (yield-IsValid all k1 ticked)
      | inr e ↦ rw e ticked
    ]
