-- ===== src/Threads/Sound/Tests.antt =====
-- The theorems about all steps of a kernel where 300 runs, 400 is ready, 100 and 200 wait at the
-- semaphore 50 for two tokens and for three, and 500 has finished.
use os1_proj.Prelude.{
  ◌≡◌, ◌≢◌, refl, sym, subst, true, false, ◌||◌, not, List, [], ◌∷◌, arith, ◌==◌, if◌then◌else◌,
  Bool-cases, inl, inr, ==_iff,
}
use os1_proj.Threads.{Ptr, null, Kernel, Mode, put_ready}
use os1_proj.Memory.{align, find_by_size, find_by_pointer, reduce, insert_as_head, insert_after}
use os1_proj.Memory.Manager.{init, mem_alloc_byte}
use os1_proj.Threads.Sound.Opening.{NobodyAt}
use os1_proj.Memory.Manager.Tests.{no_headers}
use os1_proj.System.{System}
use os1_proj.System.Tests.{holding}
use os1_proj.System.Create.{Start, thread_create}
use os1_proj.Threads.Sound.Admission.{Born, IsNew, thread_create-Born}
use os1_proj.Threads.Tests.{two_waiting}
use os1_proj.Threads.Sync.{timer, wait}
use os1_proj.Threads.Chains.{member, last}
use os1_proj.Threads.Waiting.{waiter, threads_of, IsWaiting}
use os1_proj.Threads.Sleeping.{names}
use os1_proj.Threads.Removal.Sleepers.{total}
use os1_proj.Threads.Sound.{View, Place}
use os1_proj.Threads.Sound.Switch.{Sound}
use os1_proj.Threads.Sound.Steps.{Steps, no_step, one_more, by_wait, by_timer}
use os1_proj.Threads.Sound.Owners.{IsLawful}
use os1_proj.Threads.Sound.Lawful.{never_again, runs_awake}

abbrev everybody : List Ptr
everybody = 10 ∷ 100 ∷ 200 ∷ 300 ∷ 400 ∷ 500 ∷ []

abbrev five : Kernel
five = record two_waiting {
  threads = 6;
  tcb = λ x. record (two_waiting.tcb x) {
    sem_send = 71;
    sem_receive = 72;
    sem_join = 73;
    sem_join_all = 74;
    finished = x == 500;
  };
}

abbrev their_lists : View
their_lists = record {
  ready = 400 ∷ [];
  asleep = [];
  waiting = λ s. if s == 50 then waiter 100 2 ∷ waiter 200 3 ∷ [] else [];
}

they_wait : (s : Ptr) → s ≢ null → IsWaiting five s (their_lists.waiting s)
unfolding last member threads_of
they_wait s n = elim (Bool-cases (s == 50)) [
  | inl e ↦
      rw (e, (==_iff s 50).0 e)
        (record {
          chain = (refl, ground arith, (refl, ground arith, refl));
          at_tail = refl;
          distinct = (refl, (refl, tt));
          blocked = (refl, refl, (refl, refl, tt));
        })
  | inr e ↦
      let head : (five.sem s).blocked_head ≡ null = ground (arith, e) in
      let tail : (five.sem s).blocked_tail ≡ null = ground (arith, e) in
      let none : their_lists.waiting s ≡ [] = rw e refl in
      subst (IsWaiting five s) (sym none)
        (record { chain = head; at_tail = tail; distinct = tt; blocked = tt })
]

in_place : (x : Ptr) → Place everybody five their_lists (300 ∷ []) x
unfolding member names threads_of
in_place x = record {
  asleep = ground arith;
  blocked = λ n. ground (arith, n);
  apart = λ i. (ground (arith, i), ground (arith, i));
  live = λ i. ground (arith, i);
  placed = λ i. ground (arith, i);
}

five-Sound : Sound everybody five their_lists
unfolding last member names total
five-Sound = record {
  linked = record {
    queue = record { chain = (refl, ground arith, refl); at_tail = refl; distinct = (refl, tt) };
    sleeping = record { chain = refl; distinct = tt; times = tt };
    below = omega arith;
    waits = they_wait;
    room = omega arith;
    real = refl;
    place = in_place;
  };
  left = tt;
  loose = refl;
  runs = refl;
}

five-IsLawful : IsLawful everybody five
unfolding member
five-IsLawful = record {
  valid = record { lists = their_lists; sound = five-Sound };
  owns = λ x i. record {
    for_send = ground arith;
    for_receive = ground arith;
    for_join = ground arith;
    for_join_all = ground arith;
    parent = λ n. absurd (n (ground arith));
  };
  idles = ground arith;
}

-- The running thread waits, and the clock ticks.
wait_and_tick : Steps everybody five everybody (timer (wait five 50 1).0)
wait_and_tick = one_more (one_more no_step (by_wait 50 1 (omega arith) (omega arith))) by_timer

never_again_example : (timer (wait five 50 1).0).running ≢ 500
unfolding member
never_again_example =
    never_again everybody five everybody (timer (wait five 50 1).0) 500 wait_and_tick five-IsLawful
      refl (omega arith) refl

runs_awake_example :
    let g = timer (wait five 50 1).0 in
    ((g.tcb g.running).sleeps ≡ false)
    × ((g.tcb g.running).blocked_at_sem ≡ null)
    × ((g.running == g.idle || not (g.tcb g.running).finished) ≡ true)
runs_awake_example =
    runs_awake everybody five everybody (timer (wait five 50 1).0) wait_and_tick five-IsLawful

-- A system of these threads with room for more.
abbrev roomy : System
roomy = record (holding 0) { memory = init no_headers 4096 204096; kernel = five }

abbrev starting : Start
starting = record { body = 900; arg = 7; mode = Mode.user; user_stack_space = null; time_slice = 2 }

abbrev newborn : Ptr
newborn = (thread_create roomy starting true).1

abbrev newborn_sem : Ptr
newborn_sem = ((thread_create roomy starting true).0.kernel.tcb newborn).sem_join

newborn_at : newborn ≡ 4160
unfolding thread_create mem_alloc_byte find_by_size init align find_by_pointer reduce insert_as_head
    insert_after put_ready
newborn_at = refl

-- The four semaphores of the new thread.
newborn_sems :
    let b = (thread_create roomy starting true).0.kernel.tcb newborn in
    (b.sem_join ≡ 70528) × (b.sem_join_all ≡ 70656) × (b.sem_send ≡ 70784) × (b.sem_receive ≡ 70912)
unfolding thread_create mem_alloc_byte find_by_size init align find_by_pointer reduce insert_as_head
    insert_after put_ready
newborn_sems = (refl, refl, refl, refl)

not_among : member 4160 everybody ≡ false
unfolding member
not_among = refl

nobody_far : (q n : Ptr) → q ≡ n → n ≢ 0 → n ≢ 50 → NobodyAt everybody five q
nobody_far q n at z fifty = record { none = λ x i e. ground (arith, e, at, z, fifty) }

some_address : newborn ≢ null
some_address = omega (arith, newborn_at)

newborn-IsNew :
    IsNew everybody five newborn ((thread_create roomy starting true).0.kernel.tcb newborn)
newborn-IsNew = record {
  object = subst (λ p. member p everybody ≡ false) (sym newborn_at) not_among;
  at_join = nobody_far _ 70528 newborn_sems.0 (omega arith) (omega arith);
  at_join_all = nobody_far _ 70656 newborn_sems.1 (omega arith) (omega arith);
  at_send = nobody_far _ 70784 newborn_sems.2 (omega arith) (omega arith);
  at_receive = nobody_far _ 70912 newborn_sems.3 (omega arith) (omega arith);
}

thread_create-Born_example :
    Born everybody five five-IsLawful.valid.lists newborn
      (thread_create roomy starting true).0.kernel
thread_create-Born_example =
    thread_create-Born everybody roomy starting five-IsLawful (omega arith) some_address
      newborn-IsNew
