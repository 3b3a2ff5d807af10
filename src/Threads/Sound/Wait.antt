-- ===== src/Threads/Sound/Wait.antt =====
-- kSemaphore::wait and kSemaphore::tryWait, and the places of the threads.
use os1_proj.Prelude.{
  ◌≡◌, ◌≢◌, refl, ℕ, ◌-◌, ◌<◌, true, false, List, [], ◌∷◌, ◌++◌, arith, Bool-cases, inl, inr, word,
  leb,
}
use os1_proj.Threads.{Ptr, null, Kernel, at_sem, yield, regular}
use os1_proj.Threads.Blocking.{put_blocked, put_sleep}
use os1_proj.Threads.Sync.{set_manner, wait, try_wait}
use os1_proj.Threads.Chains.{member}
use os1_proj.Threads.Waiting.{waiter}
use os1_proj.Threads.Switch.{others}
use os1_proj.Threads.Sleeping.{insert, SomeLeft}
use os1_proj.Threads.Sleeping.Remaining.{insert-SomeLeft}
use os1_proj.Threads.Sound.{View, now_waiting, alive, Linked}
use os1_proj.Threads.Sound.Ready.{with_ready}
use os1_proj.Threads.Sound.Switch.{Sound, IsValid, leave-Sound}
use os1_proj.Threads.Sound.Inert.{Inert-trans, Sound-Inert, at_sem-Inert, set_manner-Inert}
use os1_proj.Threads.Sound.Blocks.{put_blocked-Linked}
use os1_proj.Threads.Sound.Sleep.{with_asleep, put_sleep-Linked}

-- The running thread, which is not the idle one, lives.
pub running_alive :
    (all : List Ptr) (k : Kernel) (v : View)
    → k.running ≢ k.idle
    → Sound all k v
    → alive all k k.running ≡ true
running_alive all k v ni s = ground (arith, ni, s.runs)

-- Where the semaphore has the tokens asked for.
pub paid-IsValid :
    (all : List Ptr) (k : Kernel) (this n : ℕ)
    → IsValid all k
    → IsValid all
        (set_manner (at_sem k this (λ s. record s { value = s.value - n })) k.running regular)
paid-IsValid all k this n h =
    let k1 = at_sem k this (λ s. record s { value = s.value - n }) in
    record {
      lists = h.lists;
      sound =
          Sound-Inert all k (set_manner k1 k.running regular) h.lists
            (Inert-trans k k1 (set_manner k1 k.running regular)
              (at_sem-Inert k this (λ s. record s { value = s.value - n }) (λ s. refl) (λ s. refl))
              (set_manner-Inert k1 k.running regular))
            h.sound;
    }

-- Where the running thread is put among those that wait.
pub blocked-Linked :
    (all : List Ptr) (k : Kernel) (v : View) (this n : ℕ)
    → this ≢ null
    → k.running ≢ k.idle
    → Sound all k v
    → Linked all
        (put_blocked (at_sem k this (λ s. record s { value = 0 })) this k.running n)
        (now_waiting v this (v.waiting this ++ waiter k.running n ∷ []))
        []
blocked-Linked all k v this n ns ni s =
    let k1 = at_sem k this (λ s. record s { value = 0 }) in
    let s1 =
      Sound-Inert all k k1 v
        (at_sem-Inert k this (λ s. record s { value = 0 }) (λ s. refl) (λ s. refl)) s in
    put_blocked-Linked all k1 v [] this k.running n ns s1.loose (running_alive all k1 v ni s1)
      s1.linked

pub wait-IsValid :
    (all : List Ptr) (k : Kernel) (this n : ℕ)
    → this ≢ null
    → k.running ≢ k.idle
    → IsValid all k
    → IsValid all (wait k this n).0
unfolding wait
wait-IsValid all k this n ns ni h = elim (Bool-cases (k.sem this).active) [
  | inr e ↦ rw e h
  | inl e ↦ elim (Bool-cases (leb n (k.sem this).value)) [
    | inl m ↦ rw (e, m) (paid-IsValid all k this n h)
    | inr m ↦
        let v = h.lists in
        let few = n - (k.sem this).value in
        let w = now_waiting v this (v.waiting this ++ waiter k.running few ∷ []) in
        rw (e, m)
          (record {
            lists = with_ready w (others v.ready);
            sound =
                leave-Sound all _ w h.sound.left (blocked-Linked all k v this few ns ni h.sound);
          })
  ]
]

pub try_wait-IsValid :
    (all : List Ptr) (k : Kernel) (this n : ℕ) → IsValid all k → IsValid all (try_wait k this n).0
unfolding try_wait
try_wait-IsValid all k this n h = elim (Bool-cases (k.sem this).active) [
  | inr e ↦ rw e h
  | inl e ↦ elim (Bool-cases (leb n (k.sem this).value)) [
    | inl m ↦ rw (e, m) (paid-IsValid all k this n h)
    | inr m ↦
        rw (e, m)
          (record {
            lists = h.lists;
            sound =
                Sound-Inert all k (set_manner k k.running regular) h.lists
                  (set_manner-Inert k k.running regular) h.sound;
          })
  ]
]

-- Sleep::sleep of a thread that stands in no list of ready or sleeping threads.
pub sleep_some-IsValid :
    (all : List Ptr) (k : Kernel) (v : View) (t d : ℕ)
    → SomeLeft v.asleep
    → (k.tcb t).sleeps ≡ false
    → member t v.ready ≡ false
    → alive all k t ≡ true
    → d < word
    → d ≢ 0
    → Linked all k v (t ∷ [])
    → IsValid all (yield (put_sleep k t d) false)
sleep_some-IsValid all k v t d left up out live b nz l = record {
  lists = with_ready (with_asleep v (insert t d v.asleep)) (others v.ready);
  sound =
      leave-Sound all (put_sleep k t d) (with_asleep v (insert t d v.asleep))
        (insert-SomeLeft t d v.asleep nz left) (put_sleep-Linked all k v [] t d up out live b l);
}
