-- ===== src/Threads/Sound/Switch.antt =====
-- Scheduler::get and TCB::yield, and the places of the threads.
use os1_proj.Prelude.{
  ◌≡◌, refl, sym, subst, ◌∙◌, true, false, ◌||◌, ◌&&◌, List, [], ◌∷◌, ◌++◌, arith, ◌==◌,
  if◌then◌else◌, Bool-cases, inl, inr, ==_iff,
}
use os1_proj.Threads.{Ptr, null, Kernel, put_ready, get_ready, yield}
use os1_proj.Threads.Chains.{member}
use os1_proj.Threads.Ready.{get_ready-IsQueue}
use os1_proj.Threads.Switch.{others, can_run}
use os1_proj.Threads.Waiting.{Waiter, IsWaiting-frame}
use os1_proj.Threads.Wait.{get_ready-KeepsWaiting}
use os1_proj.Threads.Sleeping.{Sleeper, SomeLeft, KeepsSleeping, IsSleeping-frame}
use os1_proj.Threads.Sound.{View, alive, Linked, Place-same, KeepsMarks, Linked-frame, Linked-hands}
use os1_proj.Threads.Sound.Ready.{IsLoose, with_ready, put_ready-Linked}

get_ready-KeepsMarks : (k : Kernel) → KeepsMarks k (get_ready k).0
unfolding get_ready
get_ready-KeepsMarks k = record {
  sleeps = λ x. ground arith;
  blocked = λ x. ground arith;
  finished = λ x. ground arith;
  idle = ground arith;
}

get_ready-KeepsSleeping : (k : Kernel) → KeepsSleeping k (get_ready k).0
unfolding get_ready
get_ready-KeepsSleeping k = record {
  head = ground arith;
  bound = ground arith;
  links = λ x. ground arith;
  times = λ x. ground arith;
  flags = λ x. ground arith;
}

-- The thread `t` leaves the lists for the processor.
record Chosen (all : List Ptr) (v : View) (h : List Ptr) (g : Kernel) (t : Ptr) : Type 0 where
  linked : Linked all g v (t ∷ h)
  loose : IsLoose g v t
  runs : (t == g.idle || alive all g t) ≡ true

abbrev view : List Ptr → List Sleeper → (Ptr → List Waiter) → View
view xs ss waiting = record { ready = xs; asleep = ss; waiting = waiting }

get_ready-Chosen :
    (all : List Ptr) (k : Kernel) (xs : List Ptr) (ss : List Sleeper) (waiting : Ptr → List Waiter)
    (h : List Ptr)
    → Linked all k (view xs ss waiting) h
    → Chosen all (view (others xs) ss waiting) h (get_ready k).0 (get_ready k).1
unfolding others member
get_ready-Chosen all k [] ss waiting h l =
    let p = l.place k.idle in
    rw (get_ready-IsQueue k [] l.queue) (record {
      linked = Linked-hands all k (view [] ss waiting) h (k.idle ∷ h) (λ x i. ground (arith, i)) l;
      loose = ground (arith, p.live);
      runs = ground arith;
    })
get_ready-Chosen all k (x ∷ xs) ss waiting h l =
    let g = (get_ready k).0 in
    let (taken, queue) = get_ready-IsQueue k (x ∷ xs) l.queue in
    let marks = get_ready-KeepsMarks k in
    let asleep = get_ready-KeepsSleeping k in
    let p = l.place x in
    let (wakes, free) = p.apart (ground arith) in
    let live = p.live (ground arith) in
    let v = view (x ∷ xs) ss waiting in
    let w = view xs ss waiting in
    subst (λ t. Chosen all w h g t) (sym taken)
      (record {
        linked = record {
          queue = queue;
          sleeping = IsSleeping-frame k g ss asleep l.sleeping;
          below = l.below;
          waits = λ s n. IsWaiting-frame k g s (waiting s) (get_ready-KeepsWaiting k) (l.waits s n);
          room = rw asleep.bound l.room;
          real = l.real;
          place = λ y.
              let q = l.place y in
              elim (Bool-cases (y == x)) [
                | inl e ↦
                    let here = (==_iff y x).0 e in
                    record {
                      asleep = marks.sleeps y ∙ q.asleep;
                      blocked =
                          λ n. rw (marks.blocked y) (q.blocked (λ e. n (marks.blocked y ∙ e)));
                      apart = λ i. absurd (ground (arith, i, here, l.queue.distinct.0));
                      live = λ i. rw (marks.idle, marks.finished y, here) live;
                      placed = λ i. ground (arith, e);
                    }
                | inr e ↦
                    Place-same all k g v w h (x ∷ h) y
                      (record {
                        sleeps = marks.sleeps y;
                        blocked = marks.blocked y;
                        finished = marks.finished y;
                        idle = marks.idle;
                        ready = ground (arith, e);
                        asleep = refl;
                        waiting = refl;
                        hands = λ i. ground (arith, i);
                      })
                      q
              ];
        };
        loose =
            rw (marks.sleeps x, marks.blocked x) (ground (arith, wakes, free, l.queue.distinct.0));
        runs = rw (marks.idle, marks.finished x) (ground (arith, live));
      })

-- Every thread is in its place, with time left if it sleeps, and the one that runs stands in no list;
-- it is the idle one or lives.
pub record Sound (all : List Ptr) (k : Kernel) (v : View) : Type 0 where
  pub linked : Linked all k v (k.running ∷ [])
  pub left : SomeLeft v.asleep
  pub loose : IsLoose k v k.running
  pub runs : (k.running == k.idle || alive all k k.running) ≡ true

dispatch-Sound :
    (all : List Ptr) (k : Kernel) (t : Ptr) (v : View)
    → SomeLeft v.asleep
    → Chosen all v [] k t
    → Sound all (record k { running = t; time_slice_counter = 0 }) v
dispatch-Sound all k t v left c = record {
  linked =
      Linked-frame all k (record k { running = t; time_slice_counter = 0 }) v (t ∷ [])
        (record { head = refl; tail = refl; links = λ x. refl })
        (record {
          head = refl;
          bound = refl;
          links = λ x. refl;
          times = λ x. refl;
          flags = λ x. refl;
        })
        (record { sleeps = λ x. refl; blocked = λ x. refl; finished = λ x. refl; idle = refl })
        (λ s q. record {
          chain = q.chain;
          at_tail = q.at_tail;
          distinct = q.distinct;
          blocked = q.blocked;
        })
        c.linked;
  left = left;
  loose = c.loose;
  runs = c.runs;
}

-- The end of TCB::yield
abbrev next_run : Kernel → Kernel
next_run k = let (g, t) = get_ready k in record g { running = t; time_slice_counter = 0 }

next_run-Sound :
    (all : List Ptr) (k : Kernel) (v : View)
    → SomeLeft v.asleep
    → Linked all k v []
    → Sound all (next_run k) (with_ready v (others v.ready))
next_run-Sound all k v left l =
    dispatch-Sound all (get_ready k).0 (get_ready k).1 (with_ready v (others v.ready)) left
      (get_ready-Chosen all k v.ready v.asleep v.waiting [] l)

yield_leave : (k : Kernel) → yield k false ≡ next_run k
unfolding yield
yield_leave k = let no : (can_run k && false) ≡ false = ground arith in rw no refl

-- The running thread stands in a list or has finished: another one runs.
pub leave-Sound :
    (all : List Ptr) (k : Kernel) (v : View)
    → SomeLeft v.asleep
    → Linked all k v []
    → Sound all (yield k false) (with_ready v (others v.ready))
leave-Sound all k v left l = rw (yield_leave k) (next_run-Sound all k v left l)

-- The ready queue when the running thread has been put back.
abbrev pub rejoined : Kernel → View → List Ptr
rejoined k v = if k.running == k.idle then v.ready else v.ready ++ k.running ∷ []

no_hands :
    (all : List Ptr) (k : Kernel) (v : View)
    → (k.running == k.idle) ≡ true
    → Linked all k v (k.running ∷ [])
    → Linked all k v []
unfolding member
no_hands all k v e l = record {
  queue = l.queue;
  sleeping = l.sleeping;
  below = l.below;
  waits = l.waits;
  room = l.room;
  real = l.real;
  place = λ x.
      let p = l.place x in
      record {
        asleep = p.asleep;
        blocked = p.blocked;
        apart = p.apart;
        live = p.live;
        placed = λ i. ground (arith, p.placed i, i, e);
      };
}

idle_ignored : (k : Kernel) (t : Ptr) → (t == k.idle) ≡ true → put_ready k t ≡ k
unfolding put_ready
idle_ignored k t e =
    let skip : ((t == null) || (t == k.idle)) ≡ true = ground (arith, e) in rw skip refl

yield_back : (k : Kernel) → can_run k ≡ true → yield k true ≡ next_run (put_ready k k.running)
unfolding yield
yield_back k e = let back : (can_run k && true) ≡ true = ground (arith, e) in rw back refl

yield_idle : (k : Kernel) → (k.running == k.idle) ≡ true → yield k true ≡ next_run k
unfolding yield
yield_idle k e = elim (Bool-cases (can_run k && true)) [
  | inl b ↦ rw (b, idle_ignored k k.running e) refl
  | inr b ↦ rw b refl
]

-- The running thread, if it is not the idle one, goes to the end of the ready queue, and the first of
-- that runs.
pub yield-Sound :
    (all : List Ptr) (k : Kernel) (v : View)
    → Sound all k v
    → Sound all (yield k true) (with_ready v (others (rejoined k v)))
yield-Sound all k v s = elim (Bool-cases (k.running == k.idle)) [
  | inl e ↦ rw (yield_idle k e, e) (next_run-Sound all k v s.left (no_hands all k v e s.linked))
  | inr e ↦
      let live : alive all k k.running ≡ true = ground (arith, s.runs, e) in
      rw (yield_back k (ground (arith, live, s.loose)), e)
        (next_run-Sound all (put_ready k k.running) (with_ready v (v.ready ++ k.running ∷ []))
          s.left (put_ready-Linked all k v [] k.running s.loose live s.linked))
]

-- There are lists for which every thread is in its place.
pub record IsValid (all : List Ptr) (k : Kernel) : Type 0 where
  pub lists : View
  pub sound : Sound all k lists
