-- ===== src/Threads/Sleeping/Ticks.antt =====
-- Sleep::onTick on the list of sleeping threads and the ready queue.
use os1_proj.Prelude.{
  ℕ, zero, suc, ◌≤◌, ◌<◌, ◌≡◌, ◌≢◌, refl, ap, subst, true, false, List, [], ◌∷◌, ◌++◌, ◌==◌,
  if◌then◌else◌, word, ◌-w◌, arith, ◌∙◌, Bool-cases, inl, inr, length, not, ◌&&◌, ==_false, ==_iff,
}
use os1_proj.Threads.{Ptr, null, Tcb, Kernel, at_tcb}
use os1_proj.Threads.Sync.{wake_first, wake_loop, on_tick}
use os1_proj.Threads.Chains.{member, Chain-frame, member-append_one}
use os1_proj.Threads.Ready.{IsQueue}
use os1_proj.Threads.Tokens.{append_assoc, append_nil}
use os1_proj.Threads.Sleeping.{
  Sleeper, names, awake, asleep, tick, AllAsleep, AllAsleep-frame, IsSleeping, SomeLeft,
}
use os1_proj.Threads.Sleeping.Remaining.{asleep-SomeLeft}
use os1_proj.Threads.Sleeping.Wake.{first_time}
use os1_proj.Threads.Sleeping.Rounds.{wake_first-Woken}

-- The threads of the list are neither the idle one nor ready.
abbrev pub NotReady : Kernel → List Sleeper → List Ptr → Type 0
NotReady k ss xs = (x : Ptr) → member x (names ss) ≡ true → (x ≢ k.idle) × (member x xs ≡ false)

-- After it, the threads `xs` are ready and `ss` sleep.
pub record Leaves (k : Kernel) (ss : List Sleeper) (xs : List Ptr) (g : Kernel) : Type 0 where
  pub sleeping : IsSleeping g ss
  pub ready : IsQueue g xs
  pub idles : g.idle ≡ k.idle
  pub bound : g.threads ≡ k.threads

first_below : (tcb : Ptr → Tcb) (ss : List Sleeper) → AllAsleep tcb ss → first_time ss < word
first_below tcb [] a = omega arith
first_below tcb (s ∷ ss) a = a.2

wake_loop-Leaves :
    (fuel : ℕ) (k : Kernel) (ss : List Sleeper) (xs : List Ptr)
    → length ss ≤ fuel
    → NotReady k ss xs
    → IsSleeping k ss
    → IsQueue k xs
    → Leaves k (asleep ss) (xs ++ awake ss) (wake_loop fuel k)
unfolding wake_loop names asleep awake member
wake_loop-Leaves zero k [] xs f out q r = record {
  sleeping = q;
  ready = rw (append_nil xs) r;
  idles = refl;
  bound = refl;
}
wake_loop-Leaves (suc fuel) k [] xs f out q r =
    let stop : (k.sleep_head == null) ≡ true = ground (arith, q.chain) in
    rw stop (record { sleeping = q; ready = rw (append_nil xs) r; idles = refl; bound = refl })
wake_loop-Leaves zero k (s ∷ ss) xs f out q r = absurd (omega arith)
wake_loop-Leaves (suc fuel) k (s ∷ ss) xs f out q r =
    let some_one : (k.sleep_head == null) ≡ false = ground (arith, q.chain.0, q.chain.1) in
    let time : (k.tcb k.sleep_head).time_sleep_relative ≡ s.time =
      ap (λ x. (k.tcb x).time_sleep_relative) q.chain.0 ∙ q.times.0 in
    elim (Bool-cases (s.time == 0)) [
      | inr later ↦
          rw (some_one, time, later)
            (record { sleeping = q; ready = rw (append_nil xs) r; idles = refl; bound = refl })
      | inl due ↦
          let (ni, out_s) = out s.thread (ground arith) in
          let woken =
            wake_first-Woken k s ss xs ((==_iff s.time 0).0 due) (first_below k.tcb ss q.times.3) ni
              out_s q r in
          let rest =
            wake_loop-Leaves fuel (wake_first k) ss (xs ++ s.thread ∷ []) (omega arith)
              (λ x i.
                let (ni_x, out_x) = out x (ground (arith, i)) in
                (
                  λ e. ni_x (e ∙ woken.idles),
                  ground (arith, member-append_one x s.thread xs, out_x, i, q.distinct.0),
                ))
              woken.sleeping woken.ready in
          rw (some_one, time, due)
            (record {
              sleeping = rest.sleeping;
              ready = rw (← append_assoc xs (s.thread ∷ []) (awake ss)) rest.ready;
              idles = rest.idles ∙ woken.idles;
              bound = rest.bound ∙ woken.bound;
            })
    ]

pub names-tick : (ss : List Sleeper) → names (tick ss) ≡ names ss
unfolding names tick
names-tick [] = refl
names-tick (s ∷ ss) = refl

pub length-tick : (ss : List Sleeper) → length (tick ss) ≡ length ss
unfolding tick
length-tick [] = refl
length-tick (s ∷ ss) = refl

counted_time :
    (k : Kernel) (x : Ptr)
    → k.sleep_head ≡ x
    → let g =
        at_tcb k k.sleep_head
          (λ b. record b { time_sleep_relative = b.time_sleep_relative -w 1 }) in
      (g.tcb x).time_sleep_relative ≡ (k.tcb x).time_sleep_relative -w 1
counted_time k x h = ground (arith, h)

module _ (k : Kernel) where
  -- The first line of Sleep::onTick
  abbrev pub count_down : Kernel
  count_down =
      if k.sleep_head == null
      then k
      else at_tcb k k.sleep_head
          (λ b. record b { time_sleep_relative = b.time_sleep_relative -w 1 })

  pub count_down-Leaves :
      (ss : List Sleeper) (xs : List Ptr)
      → SomeLeft ss
      → IsSleeping k ss
      → IsQueue k xs
      → Leaves k (tick ss) xs count_down
  unfolding names tick member
  count_down-Leaves [] xs l q r =
      let stop : (k.sleep_head == null) ≡ true = ground (arith, q.chain) in
      rw stop (record { sleeping = q; ready = r; idles = refl; bound = refl })
  count_down-Leaves (s ∷ ss) xs l q r =
      let g =
        at_tcb k k.sleep_head
          (λ b. record b { time_sleep_relative = b.time_sleep_relative -w 1 }) in
      let go : (k.sleep_head == null) ≡ false = ground (arith, q.chain.0, q.chain.1) in
      let h = q.chain.0 in
      rw go (record {
        sleeping = record {
          chain =
              Chain-frame (λ x. (k.tcb x).next_sleep) (λ x. (g.tcb x).next_sleep) k.sleep_head
                (names (s ∷ ss)) (λ x i. ground arith) q.chain;
          distinct = q.distinct;
          times = (
            counted_time k s.thread h ∙ rw (q.times.0) (omega (arith, l, q.times.2)),
            ground (arith, q.times.1),
            omega (arith, q.times.2),
            AllAsleep-frame k.tcb g.tcb ss (λ x i. ground (arith, i, q.distinct.0, h))
                (λ x i. ground arith) q.times.3,
          );
        };
        ready = record {
          chain =
              Chain-frame (λ x. (k.tcb x).next_ready) (λ x. (g.tcb x).next_ready) k.ready_head xs
                (λ x i. ground arith) r.chain;
          at_tail = r.at_tail;
          distinct = r.distinct;
        };
        idles = refl;
        bound = refl;
      })

  -- If the threads `ss` sleep, all with time left and no more than there are threads, and `xs` are
  -- ready, and no thread of `ss` is idle or ready, then after a tick those that had one tick left
  -- are ready behind `xs`, in their order, and the others sleep on.
  pub on_tick-Leaves :
      (ss : List Sleeper) (xs : List Ptr)
      → length ss ≤ k.threads
      → SomeLeft ss
      → NotReady k ss xs
      → IsSleeping k ss
      → IsQueue k xs
      → Leaves k (asleep (tick ss)) (xs ++ awake (tick ss)) (on_tick k)
  unfolding on_tick
  on_tick-Leaves ss xs f l out q r =
      let start = count_down-Leaves ss xs l q r in
      let rest =
        wake_loop-Leaves (suc k.threads) count_down (tick ss) xs (omega (arith, f, length-tick ss))
          (λ x i.
            let (ni_x, out_x) = out x (subst (λ ys. member x ys ≡ true) (names-tick ss) i) in
            (λ e. ni_x (e ∙ start.idles), out_x))
          start.sleeping start.ready in
      record {
        sleeping = rest.sleeping;
        ready = rest.ready;
        idles = rest.idles ∙ start.idles;
        bound = rest.bound ∙ start.bound;
      }

rests :
    (g : Kernel) (ss : List Sleeper)
    → SomeLeft ss
    → IsSleeping g ss
    → (not (g.sleep_head == null) && ((g.tcb g.sleep_head).time_sleep_relative == 0)) ≡ false
unfolding names
rests g [] l q = rw q.chain refl
rests g (s ∷ ss) l q =
    let some_one : (s.thread == null) ≡ false = ==_false s.thread null q.chain.1 in
    rw (q.chain.0, q.times.0, some_one) (==_false s.time 0 l)

-- Sleep::onTick ends its loop by the loop's own test: if threads `ss` sleep, all with time left
-- and no more than there are threads, and `xs` are ready, and no thread of `ss` is idle or ready,
-- then afterwards nobody sleeps, or the first has time left.
pub on_tick_ends :
    (k : Kernel) (ss : List Sleeper) (xs : List Ptr)
    → length ss ≤ k.threads
    → SomeLeft ss
    → NotReady k ss xs
    → IsSleeping k ss
    → IsQueue k xs
    → let g = on_tick k in
      (not (g.sleep_head == null) && ((g.tcb g.sleep_head).time_sleep_relative == 0)) ≡ false
on_tick_ends k ss xs f l out q r =
    let after = on_tick-Leaves k ss xs f l out q r in
    rests (on_tick k) (asleep (tick ss)) (asleep-SomeLeft (tick ss)) after.sleeping
