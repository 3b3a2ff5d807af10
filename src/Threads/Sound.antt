-- ===== src/Threads/Sound.antt =====
-- The lists of ready, sleeping and waiting threads of the kernel taken together, with the marks that
-- the threads carry: what it means that every thread is in its place.
pub mod Places
pub mod Ready
pub mod Switch
pub mod Blocks
pub mod Inert
pub mod Sleep
pub mod Wait
pub mod Unblock
pub mod Wake
pub mod Release
pub mod Signal
pub mod Pay
pub mod Ticks
pub mod Timer
pub mod Timed
pub mod Names
pub mod Kept
pub mod Owners
pub mod Finish
pub mod Exit
pub mod Steps
pub mod Lawful
pub mod Birth
pub mod Joining
pub mod Opening
pub mod Creation
pub mod Admission
mod Tests
use os1_proj.Prelude.{
  ◌≡◌, ◌≢◌, refl, sym, subst, ◌∙◌, ap, ℕ, suc, ◌+◌, ◌≤◌, ◌<◌, Bool, true, false, ◌||◌, ◌&&◌, not,
  List, [], ◌∷◌, arith, ◌==◌, if◌then◌else◌, word, length, Bool-cases, inl, inr, ==_iff,
}
use os1_proj.Threads.{Ptr, null, Kernel, Tcb}
use os1_proj.Threads.Chains.{member, last, last-member, Distinct, Chain-frame}
use os1_proj.Threads.Ready.{IsQueue}
use os1_proj.Threads.Waiting.{
  Waiter, threads_of, IsWaiting, AllBlocked, AllBlocked-frame, IsQueue-frame,
}
use os1_proj.Threads.Sleeping.{Sleeper, names, IsSleeping, KeepsSleeping, IsSleeping-frame}
use os1_proj.Threads.Removal.{without}
use os1_proj.Threads.Removal.Sleepers.{total}
use os1_proj.Threads.Frames.{KeepsReady}

-- The lists that a kernel keeps: of ready threads, of sleeping ones, and for each semaphore of those
-- that wait at it.
pub record View : Type 0 where
  pub ready : List Ptr
  pub asleep : List Sleeper
  pub waiting : Ptr → List Waiter

abbrev pub now_waiting : View → Ptr → List Waiter → View
now_waiting v this ws = record v { waiting = λ s. if s == this then ws else v.waiting s }

-- Whether a thread stands in a list, as far as its marks tell.
abbrev pub listed : Kernel → View → Ptr → Bool
listed k v x = member x v.ready || ((k.tcb x).sleeps || not ((k.tcb x).blocked_at_sem == null))

-- The threads of `all`, other than the idle one, that have not finished.
abbrev pub alive : List Ptr → Kernel → Ptr → Bool
alive all k x = not (x == k.idle) && (not (k.tcb x).finished && member x all)

-- The thread `x` stands where its marks say, it is ready only if it neither sleeps nor waits, only
-- threads that live stand in a list, and one that lives stands in a list or among `hands`.
pub record Place (all : List Ptr) (k : Kernel) (v : View) (hands : List Ptr) (x : Ptr)
    : Type 0 where
  pub asleep : (k.tcb x).sleeps ≡ member x (names v.asleep)
  pub blocked :
      (k.tcb x).blocked_at_sem ≢ null
      → member x (threads_of (v.waiting (k.tcb x).blocked_at_sem)) ≡ true
  pub apart :
      member x v.ready ≡ true → ((k.tcb x).sleeps ≡ false) × ((k.tcb x).blocked_at_sem ≡ null)
  pub live : listed k v x ≡ true → alive all k x ≡ true
  pub placed : alive all k x ≡ true → (listed k v x || member x hands) ≡ true

-- The lists of `k` are those of `v`, and each thread is in its place.
pub record Linked (all : List Ptr) (k : Kernel) (v : View) (hands : List Ptr) : Type 0 where
  pub queue : IsQueue k v.ready
  pub sleeping : IsSleeping k v.asleep
  pub below : total v.asleep < word
  pub waits : (s : Ptr) → s ≢ null → IsWaiting k s (v.waiting s)
  pub room : length all ≤ k.threads
  pub real : member null all ≡ false
  pub place : (x : Ptr) → Place all k v hands x

-- `x` stands in the same place as before.
pub record SamePlace (k : Kernel) (v : View) (h : List Ptr) (g : Kernel) (w : View) (h' : List Ptr)
    (x : Ptr) : Type 0 where
  pub sleeps : (g.tcb x).sleeps ≡ (k.tcb x).sleeps
  pub blocked : (g.tcb x).blocked_at_sem ≡ (k.tcb x).blocked_at_sem
  pub finished : (g.tcb x).finished ≡ (k.tcb x).finished
  pub idle : g.idle ≡ k.idle
  pub ready : member x w.ready ≡ member x v.ready
  pub asleep : member x (names w.asleep) ≡ member x (names v.asleep)
  pub waiting :
      member x (threads_of (w.waiting (k.tcb x).blocked_at_sem))
      ≡ member x (threads_of (v.waiting (k.tcb x).blocked_at_sem))
  pub hands : member x h ≡ true → member x h' ≡ true

pub Place-same :
    (all : List Ptr) (k g : Kernel) (v w : View) (h h' : List Ptr) (x : Ptr)
    → SamePlace k v h g w h' x
    → Place all k v h x
    → Place all g w h' x
Place-same all k g v w h h' x s p = record {
  asleep = s.sleeps ∙ (p.asleep ∙ sym s.asleep);
  blocked = λ n. rw s.blocked (s.waiting ∙ p.blocked (λ e. n (s.blocked ∙ e)));
  apart = λ i. let (a, b) = p.apart (sym s.ready ∙ i) in (s.sleeps ∙ a, s.blocked ∙ b);
  live = λ i. rw (s.idle, s.finished) (p.live (rw (s.ready, s.sleeps, s.blocked) at i));
  placed = λ i.
      rw (s.ready, s.sleeps, s.blocked)
        (ground (arith, p.placed (rw (s.idle, s.finished) at i), s.hands));
}

-- The marks of all threads are as before.
pub record KeepsMarks (k g : Kernel) : Type 0 where
  pub sleeps : (x : Ptr) → (g.tcb x).sleeps ≡ (k.tcb x).sleeps
  pub blocked : (x : Ptr) → (g.tcb x).blocked_at_sem ≡ (k.tcb x).blocked_at_sem
  pub finished : (x : Ptr) → (g.tcb x).finished ≡ (k.tcb x).finished
  pub idle : g.idle ≡ k.idle

-- A step that moves the thread `t`, if any, and leaves each other one where it is.
pub record Moves (all : List Ptr) (k : Kernel) (v : View) (g : Kernel) (w : View) (h : List Ptr)
    (t : Ptr) : Type 0 where
  pub linked : Linked all g w h
  pub others : (x : Ptr) → x ≢ t → listed g w x ≡ listed k v x
  pub lives : (x : Ptr) → alive all g x ≡ alive all k x
  pub runs : g.running ≡ k.running
  pub idle : g.idle ≡ k.idle

pub Moves-trans :
    (all : List Ptr) (k g i : Kernel) (v w u : View) (h h' : List Ptr) (t : Ptr)
    → Moves all k v g w h t
    → Moves all g w i u h' t
    → Moves all k v i u h' t
Moves-trans all k g i v w u h h' t a b = record {
  linked = b.linked;
  others = λ x n. b.others x n ∙ a.others x n;
  lives = λ x. b.lives x ∙ a.lives x;
  runs = b.runs ∙ a.runs;
  idle = b.idle ∙ a.idle;
}

-- Hands that hold no fewer threads.
pub Linked-hands :
    (all : List Ptr) (k : Kernel) (v : View) (h h' : List Ptr)
    → ((x : Ptr) → member x h ≡ true → member x h' ≡ true)
    → Linked all k v h
    → Linked all k v h'
Linked-hands all k v h h' more l = record {
  queue = l.queue;
  sleeping = l.sleeping;
  below = l.below;
  waits = l.waits;
  room = l.room;
  real = l.real;
  place = λ x.
      Place-same all k k v v h h' x
        (record {
          sleeps = refl;
          blocked = refl;
          finished = refl;
          idle = refl;
          ready = refl;
          asleep = refl;
          waiting = refl;
          hands = more x;
        })
        (l.place x);
}

-- What touches neither the lists nor the marks keeps every thread in its place.
pub Linked-frame :
    (all : List Ptr) (k g : Kernel) (v : View) (h : List Ptr)
    → KeepsReady k g
    → KeepsSleeping k g
    → KeepsMarks k g
    → ((s : Ptr) → IsWaiting k s (v.waiting s) → IsWaiting g s (v.waiting s))
    → Linked all k v h
    → Linked all g v h
Linked-frame all k g v h ready asleep marks waits l = record {
  queue = IsQueue-frame k g v.ready ready l.queue;
  sleeping = IsSleeping-frame k g v.asleep asleep l.sleeping;
  below = l.below;
  waits = λ s n. waits s (l.waits s n);
  room = rw asleep.bound l.room;
  real = l.real;
  place = λ x.
      Place-same all k g v v h h x
        (record {
          sleeps = marks.sleeps x;
          blocked = marks.blocked x;
          finished = marks.finished x;
          idle = marks.idle;
          ready = refl;
          asleep = refl;
          waiting = refl;
          hands = λ i. i;
        })
        (l.place x);
}

-- Only where `t` waits changes among the marks.
pub record MovesWaiting (k g : Kernel) (t : Ptr) : Type 0 where
  pub sleeps : (x : Ptr) → (g.tcb x).sleeps ≡ (k.tcb x).sleeps
  pub blocked : (x : Ptr) → x ≢ t → (g.tcb x).blocked_at_sem ≡ (k.tcb x).blocked_at_sem
  pub finished : (x : Ptr) → (g.tcb x).finished ≡ (k.tcb x).finished
  pub idle : g.idle ≡ k.idle
  pub runs : g.running ≡ k.running
