-- ===== src/Threads/Sleeping/Wake.antt =====
-- How Sleep::get, with no argument, keeps the list of sleeping threads.
use os1_proj.Prelude.{ℕ, ◌+◌, ◌<◌, ◌≡◌, ◌≢◌, refl, List, [], ◌∷◌, word, ◌+w◌, arith, ◌∙◌}
use os1_proj.Threads.{Ptr, null, Kernel}
use os1_proj.Threads.Blocking.{get_sleep, awake as get_awake, inherit_time}
use os1_proj.Threads.Chains.{member, Chain-frame}
use os1_proj.Threads.Frames.{KeepsReady}
use os1_proj.Threads.Sleeping.{Sleeper, names, take_over, AllAsleep, AllAsleep-frame, IsSleeping}

module _ (k : Kernel) (x : Ptr) (first : k.sleep_head ≡ x) (nz : x ≢ null) where
  next_head : (get_sleep k).0.sleep_head ≡ (k.tcb x).next_sleep
  unfolding get_sleep inherit_time get_awake
  next_head = ground (arith, first)

  pub taken : (get_sleep k).1 ≡ x
  unfolding get_sleep
  taken = ground (arith, first)

  other_links : (y : Ptr) → y ≢ x → ((get_sleep k).0.tcb y).next_sleep ≡ (k.tcb y).next_sleep
  unfolding get_sleep inherit_time get_awake
  other_links y n = ground (arith, first)

  other_flags : (y : Ptr) → y ≢ x → ((get_sleep k).0.tcb y).sleeps ≡ (k.tcb y).sleeps
  unfolding get_sleep inherit_time get_awake
  other_flags y n = ground (arith, first)

  other_times :
      (y : Ptr)
      → y ≢ x
      → (k.tcb x).next_sleep ≢ y
      → ((get_sleep k).0.tcb y).time_sleep_relative ≡ (k.tcb y).time_sleep_relative
  unfolding get_sleep inherit_time get_awake
  other_times y n n' = ground (arith, first)

  next_time :
      (y : Ptr)
      → y ≢ x
      → y ≢ null
      → (k.tcb x).next_sleep ≡ y
      → ((get_sleep k).0.tcb y).time_sleep_relative
        ≡ (k.tcb y).time_sleep_relative +w (k.tcb x).time_sleep_relative
  unfolding get_sleep inherit_time get_awake
  next_time y n n' e = ground (arith, first, e)

pub get_sleep-KeepsReady : (k : Kernel) → KeepsReady k (get_sleep k).0
unfolding get_sleep inherit_time get_awake
get_sleep-KeepsReady k = record {
  head = ground arith;
  tail = ground arith;
  links = λ x. ground arith;
}

pub get_sleep_statics :
    (k : Kernel) → ((get_sleep k).0.threads ≡ k.threads) × ((get_sleep k).0.idle ≡ k.idle)
unfolding get_sleep inherit_time get_awake
get_sleep_statics k = (ground arith, ground arith)

abbrev pub first_time : List Sleeper → ℕ
first_time [] = 0
first_time (s ∷ ss) = s.time

take_over-IsSleeping :
    (k : Kernel) (s : Sleeper) (ss : List Sleeper)
    → s.time + first_time ss < word
    → IsSleeping k (s ∷ ss)
    → AllAsleep (get_sleep k).0.tcb (take_over s.time ss)
unfolding names member take_over
take_over-IsSleeping k s [] b q = tt
take_over-IsSleeping k s (u ∷ ss) b q =
    let g = (get_sleep k).0 in
    let h = q.chain.0 in
    let z = q.chain.1 in
    (
      next_time k s.thread h z u.thread (ground (arith, q.distinct.0)) q.chain.2.1 q.chain.2.0
          ∙ rw (q.times.0, q.times.3.0) (omega (arith, b)),
      other_flags k s.thread h z u.thread (ground (arith, q.distinct.0)) ∙ q.times.3.1,
      omega (arith, b),
      AllAsleep-frame k.tcb g.tcb ss
          (λ x i.
            other_times k s.thread h z x (ground (arith, i, q.distinct.0))
              (λ e. ground (arith, e, i, q.chain.2.0, q.distinct.1.0)))
          (λ x i. other_flags k s.thread h z x (ground (arith, i, q.distinct.0))) q.times.3.3,
    )

names-take_over : (d : ℕ) (ss : List Sleeper) → names (take_over d ss) ≡ names ss
unfolding names take_over
names-take_over d [] = refl
names-take_over d (s ∷ ss) = refl

-- If `s` and then `ss` sleep, Sleep::get gives the thread of `s`, the others sleep on, and the first
-- of them takes over the time that was left to it, as long as both times are below 2 ^ 64 together.
pub get_sleep-IsSleeping :
    (k : Kernel) (s : Sleeper) (ss : List Sleeper)
    → s.time + first_time ss < word
    → IsSleeping k (s ∷ ss)
    → ((get_sleep k).1 ≡ s.thread) × IsSleeping (get_sleep k).0 (take_over s.time ss)
unfolding names member
get_sleep-IsSleeping k s ss b q =
    let g = (get_sleep k).0 in
    let h = q.chain.0 in
    let z = q.chain.1 in
    (
      taken k s.thread h z,
      record {
        chain =
            rw (names-take_over s.time ss, next_head k s.thread h z)
              (Chain-frame (λ x. (k.tcb x).next_sleep) (λ x. (g.tcb x).next_sleep)
                (k.tcb s.thread).next_sleep (names ss)
                (λ x i. other_links k s.thread h z x (ground (arith, i, q.distinct.0))) q.chain.2);
        distinct = rw (names-take_over s.time ss) q.distinct.1;
        times = take_over-IsSleeping k s ss b q;
      },
    )
