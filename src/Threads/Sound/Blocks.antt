-- ===== src/Threads/Sound/Blocks.antt =====
-- kSemaphore::put and the places of the threads.
use os1_proj.Prelude.{
  ◌≡◌, ◌≢◌, refl, sym, ◌∙◌, ap, ℕ, true, false, ◌||◌, List, [], ◌∷◌, ◌++◌, arith, ◌==◌, Bool-cases,
  inl, inr, ==_iff, ==_false,
}
use os1_proj.Threads.{Ptr, null, Kernel}
use os1_proj.Threads.Blocking.{put_blocked}
use os1_proj.Threads.Chains.{member, member-append_one}
use os1_proj.Threads.Waiting.{Waiter, waiter, threads_of, IsWaiting, IsQueue-frame}
use os1_proj.Threads.Blocks.{threads_of-append_one, put_blocked-IsWaiting}
use os1_proj.Threads.Wait.{put_blocked-KeepsReady}
use os1_proj.Threads.Sleeping.{KeepsSleeping, IsSleeping-frame}
use os1_proj.Threads.Sound.{View, now_waiting, alive, Linked, Place-same, MovesWaiting}
use os1_proj.Threads.Sound.Places.{IsWaiting-apart, same_waiting, tail_blocked, all_blocked}
use os1_proj.Threads.Sound.Ready.{IsLoose}

pub put_blocked-KeepsSleeping :
    (k : Kernel) (this t : Ptr) (n : ℕ) → KeepsSleeping k (put_blocked k this t n)
unfolding put_blocked
put_blocked-KeepsSleeping k this t n = record {
  head = ground arith;
  bound = ground arith;
  links = λ x. ground arith;
  times = λ x. ground arith;
  flags = λ x. ground arith;
}

pub put_blocked-MovesWaiting :
    (k : Kernel) (this t : Ptr) (n : ℕ) → MovesWaiting k (put_blocked k this t n) t
unfolding put_blocked
put_blocked-MovesWaiting k this t n = record {
  sleeps = λ x. ground arith;
  blocked = λ x m. ground (arith, m);
  finished = λ x. ground arith;
  idle = ground arith;
  runs = ground arith;
}

module _ (k : Kernel) (this t : Ptr) (n : ℕ) where
  pub moved : t ≢ null → ((put_blocked k this t n).tcb t).blocked_at_sem ≡ this
  unfolding put_blocked
  moved nz = ground arith

  other_sem : (s : Ptr) → s ≢ this → (put_blocked k this t n).sem s ≡ k.sem s
  unfolding put_blocked
  other_sem s ns = elim (Bool-cases (t == null)) [
    | inl e ↦ rw e refl
    | inr e ↦
        let apart : (s == this) ≡ false = ==_false s this ns in
        elim (Bool-cases ((k.sem this).blocked_head == null)) [
          | inl h ↦ rw (e, h, apart) refl
          | inr h ↦ rw (e, h, apart) refl
        ]
  ]

  other_thread :
      (y : Ptr)
      → y ≢ t
      → ((k.sem this).blocked_head ≢ null → y ≢ (k.sem this).blocked_tail)
      → (((put_blocked k this t n).tcb y).next_sem_blocked ≡ (k.tcb y).next_sem_blocked)
        × (((put_blocked k this t n).tcb y).blocked_at_sem ≡ (k.tcb y).blocked_at_sem)
        × (((put_blocked k this t n).tcb y).tokens_needed ≡ (k.tcb y).tokens_needed)
  unfolding put_blocked
  other_thread y m h = (ground (arith, m, h), ground (arith, m), ground (arith, m))

  not_there :
      (v : View) (ws : List Waiter)
      → t ≢ null
      → IsLoose k v t
      → this ≢ null
      → IsWaiting k this ws
      → member t (threads_of ws) ≡ false
  not_there v ws nz loose ns q = elim (Bool-cases (member t (threads_of ws))) [
    | inl i ↦ absurd (ground (arith, loose, all_blocked k.tcb this ws t q.blocked i))
    | inr o ↦ o
  ]

  put_blocked_waits :
      (v : View)
      → t ≢ null
      → this ≢ null
      → IsLoose k v t
      → ((s : Ptr) → s ≢ null → IsWaiting k s (v.waiting s))
      → (s : Ptr) → s ≢ null
      → IsWaiting
          (put_blocked k this t n)
          s
          ((now_waiting v this (v.waiting this ++ waiter t n ∷ [])).waiting s)
  put_blocked_waits v nz ns loose waits s z = elim (Bool-cases (s == this)) [
    | inl e ↦
        rw (e, (==_iff s this).0 e)
          (put_blocked-IsWaiting k this t n (v.waiting this) nz
            (not_there v (v.waiting this) nz loose ns (waits this ns)) (waits this ns))
    | inr e ↦
        let far : s ≢ this = λ h. ground (arith, h, e) in
        let same = other_sem s far in
        rw e (
          IsWaiting-apart k (put_blocked k this t n) s (v.waiting s) (ap (λ m. m.blocked_head) same)
            (ap (λ m. m.blocked_tail) same)
            (λ y at.
              other_thread y (λ h. ground (arith, loose, at, h, z))
                (λ some h. far (
                  sym at
                  ∙ (ap (λ x. (k.tcb x).blocked_at_sem) h
                      ∙ tail_blocked k this (v.waiting this) (waits this ns) some))))
            (waits s z))
  ]

-- A thread in the kernel's hands goes to the end of those that wait at `this`.
pub put_blocked-Linked :
    (all : List Ptr) (k : Kernel) (v : View) (h : List Ptr) (this t : Ptr) (n : ℕ)
    → this ≢ null
    → IsLoose k v t
    → alive all k t ≡ true
    → Linked all k v (t ∷ h)
    → Linked all (put_blocked k this t n) (now_waiting v this (v.waiting this ++ waiter t n ∷ [])) h
unfolding member
put_blocked-Linked all k v h this t n ns loose live l =
    let g = put_blocked k this t n in
    let ws = v.waiting this ++ waiter t n ∷ [] in
    let w = now_waiting v this ws in
    let nz : t ≢ null = λ e. ground (arith, e, live, l.real) in
    let marks = put_blocked-MovesWaiting k this t n in
    let asleep = put_blocked-KeepsSleeping k this t n in
    let now = moved k this t n nz in
    let joined : (x : Ptr)
        → member x (threads_of ws) ≡ (member x (threads_of (v.waiting this)) || (x == t)) =
      λ x.
        ap (member x) (threads_of-append_one (v.waiting this) (waiter t n))
        ∙ member-append_one x t (threads_of (v.waiting this)) in
    record {
      queue = IsQueue-frame k g v.ready (put_blocked-KeepsReady k this t n) l.queue;
      sleeping = IsSleeping-frame k g v.asleep asleep l.sleeping;
      below = l.below;
      waits = put_blocked_waits k this t n v nz ns loose l.waits;
      room = rw asleep.bound l.room;
      real = l.real;
      place = λ x.
          let p = l.place x in
          elim (Bool-cases (x == t)) [
            | inl e ↦
                let here = (==_iff x t).0 e in
                let self : (this == this) ≡ true = ground arith in
                let at : (g.tcb x).blocked_at_sem ≡ this = rw here now in
                record {
                  asleep = marks.sleeps x ∙ p.asleep;
                  blocked = λ z. rw (at, self) (joined x ∙ ground (arith, e));
                  apart = λ i. absurd (ground (arith, i, loose, here));
                  live = λ i. rw (marks.idle, marks.finished x, here) live;
                  placed = λ i. rw at (ground (arith, ns));
                }
            | inr e ↦
                Place-same all k g v w (t ∷ h) h x
                  (record {
                    sleeps = marks.sleeps x;
                    blocked = marks.blocked x (λ m. ground (arith, m, e));
                    finished = marks.finished x;
                    idle = marks.idle;
                    ready = refl;
                    asleep = refl;
                    waiting =
                        same_waiting v this (k.tcb x).blocked_at_sem x ws
                          (joined x ∙ ground (arith, e));
                    hands = λ i. ground (arith, i, e);
                  })
                  p
          ];
    }
