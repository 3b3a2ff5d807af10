-- ===== src/Threads/Sound/Unblock.antt =====
-- Both forms of kSemaphore::get, and the places of the threads.
use os1_proj.Prelude.{
  ◌≡◌, ◌≢◌, refl, sym, subst, ◌∙◌, ap, true, List, ◌∷◌, arith, ◌==◌, Bool-cases, inl, inr, ==_iff,
  length, ◌≤◌,
}
use os1_proj.Threads.{Ptr, null, Kernel}
use os1_proj.Threads.Blocking.{get_blocked, take_blocked, unblocked, unlink_blocked}
use os1_proj.Threads.Chains.{member}
use os1_proj.Threads.Frames.{KeepsReady, get_blocked-KeepsReady}
use os1_proj.Threads.Waiting.{Waiter, threads_of, IsWaiting, IsQueue-frame, get_blocked-Takes}
use os1_proj.Threads.Sleeping.{KeepsSleeping, IsSleeping-frame}
use os1_proj.Threads.Sleeping.Frames.{take_blocked-KeepsSleeping, take_blocked-KeepsReady}
use os1_proj.Threads.Removal.{before, before-member, before_other, member-without}
use os1_proj.Threads.Removal.Waiters.{
  drop_waiter, threads_of-drop_waiter, length-threads_of, take_blocked_lem, take_blocked-IsWaiting,
}
use os1_proj.Threads.Sound.{View, now_waiting, alive, Linked, Moves, Place-same, MovesWaiting}
use os1_proj.Threads.Sound.Places.{IsWaiting-apart, same_waiting, all_blocked, Linked-length}

-- The thread `t` no longer waits at `this`, and comes into the kernel's hands.
unwait-Moves :
    (all : List Ptr) (k g : Kernel) (v : View) (h : List Ptr) (this t : Ptr) (ws : List Waiter)
    → KeepsReady k g
    → KeepsSleeping k g
    → MovesWaiting k g t
    → (g.tcb t).blocked_at_sem ≡ null
    → ((s : Ptr) → s ≢ null → IsWaiting g s ((now_waiting v this ws).waiting s))
    → ((x : Ptr) → x ≢ t → member x (threads_of ws) ≡ member x (threads_of (v.waiting this)))
    → alive all k t ≡ true
    → Linked all k v h
    → Moves all k v g (now_waiting v this ws) (t ∷ h) t
unfolding member
unwait-Moves all k g v h this t ws ready asleep marks free waits others live l = record {
  linked = record {
    queue = IsQueue-frame k g v.ready ready l.queue;
    sleeping = IsSleeping-frame k g v.asleep asleep l.sleeping;
    below = l.below;
    waits = waits;
    room = rw asleep.bound l.room;
    real = l.real;
    place = λ x.
        let p = l.place x in
        elim (Bool-cases (x == t)) [
          | inl e ↦
              let here = (==_iff x t).0 e in
              let at : (g.tcb x).blocked_at_sem ≡ null = rw here free in
              record {
                asleep = marks.sleeps x ∙ p.asleep;
                blocked = λ n. absurd (n at);
                apart = λ i. (marks.sleeps x ∙ (p.apart i).0, at);
                live = λ i. rw (marks.idle, marks.finished x, here) live;
                placed = λ i. ground (arith, e);
              }
          | inr e ↦
              let far : x ≢ t = λ m. ground (arith, m, e) in
              Place-same all k g v (now_waiting v this ws) h (t ∷ h) x
                (record {
                  sleeps = marks.sleeps x;
                  blocked = marks.blocked x far;
                  finished = marks.finished x;
                  idle = marks.idle;
                  ready = refl;
                  asleep = refl;
                  waiting = same_waiting v this (k.tcb x).blocked_at_sem x ws (others x far);
                  hands = λ i. ground (arith, i);
                })
                p
        ];
  };
  others = λ x n. rw (marks.sleeps x, marks.blocked x n) refl;
  lives = λ x. rw (marks.idle, marks.finished x) refl;
  runs = marks.runs;
  idle = marks.idle;
}

waiting_now :
    (k g : Kernel) (v : View) (this : Ptr) (ws : List Waiter)
    → IsWaiting g this ws
    → ((s : Ptr) → s ≢ this → IsWaiting k s (v.waiting s) → IsWaiting g s (v.waiting s))
    → ((s : Ptr) → s ≢ null → IsWaiting k s (v.waiting s))
    → (s : Ptr) → s ≢ null
    → IsWaiting g s ((now_waiting v this ws).waiting s)
waiting_now k g v this ws q same waits s z = elim (Bool-cases (s == this)) [
  | inl e ↦ rw (e, (==_iff s this).0 e) q
  | inr e ↦ rw e (same s (λ h. ground (arith, h, e)) (waits s z))
]

get_blocked-KeepsSleeping : (k : Kernel) (this : Ptr) → KeepsSleeping k (get_blocked k this).0
unfolding get_blocked unblocked
get_blocked-KeepsSleeping k this = record {
  head = ground arith;
  bound = ground arith;
  links = λ x. ground arith;
  times = λ x. ground arith;
  flags = λ x. ground arith;
}

module _ (k : Kernel) (this t : Ptr) (first : (k.sem this).blocked_head ≡ t) where
  get_blocked-MovesWaiting : MovesWaiting k (get_blocked k this).0 t
  unfolding get_blocked unblocked
  get_blocked-MovesWaiting = record {
    sleeps = λ x. ground arith;
    blocked = λ x n. ground (arith, n, first);
    finished = λ x. ground arith;
    idle = ground arith;
    runs = ground arith;
  }

  pub get_blocked_free : t ≢ null → ((get_blocked k this).0.tcb t).blocked_at_sem ≡ null
  unfolding get_blocked unblocked
  get_blocked_free n = ground (arith, first, n)

  get_blocked_apart :
      (s : Ptr) (ws : List Waiter)
      → s ≢ this
      → (k.tcb t).blocked_at_sem ≡ this
      → IsWaiting k s ws
      → IsWaiting (get_blocked k this).0 s ws
  unfolding get_blocked unblocked
  get_blocked_apart s ws n at q =
      IsWaiting-apart k (get_blocked k this).0 s ws (ground (arith, n)) (ground (arith, n))
        (λ y there.
          let far : y ≢ t = λ h. ground (arith, h, there, at, n) in
          (ground (arith, far, first), ground (arith, far, first), ground (arith, far, first)))
        q

-- The first thread that waits comes into the kernel's hands.
pub get_blocked-Moves :
    (all : List Ptr) (k : Kernel) (v : View) (h : List Ptr) (this : Ptr) (w : Waiter)
    (ws : List Waiter)
    → this ≢ null
    → v.waiting this ≡ w ∷ ws
    → Linked all k v h
    → Moves all k v (get_blocked k this).0 (now_waiting v this ws) (w.thread ∷ h) w.thread
unfolding threads_of member
get_blocked-Moves all k v h this w ws ns e l =
    let g = (get_blocked k this).0 in
    let q : IsWaiting k this (w ∷ ws) = subst (IsWaiting k this) e (l.waits this ns) in
    let first = q.chain.0 in
    let at = q.blocked.0 in
    let some : (k.tcb w.thread).blocked_at_sem ≢ null = λ z. ns (sym at ∙ z) in
    unwait-Moves all k g v h this w.thread ws (get_blocked-KeepsReady k this)
      (get_blocked-KeepsSleeping k this) (get_blocked-MovesWaiting k this w.thread first)
      (get_blocked_free k this w.thread first q.chain.1)
      (waiting_now k g v this ws (get_blocked-Takes k this w ws q).waits
        (λ s n. get_blocked_apart k this w.thread first s (v.waiting s) n at) l.waits)
      (λ x n. rw e (ground (arith, n))) ((l.place w.thread).live (ground (arith, some))) l

module _ (k : Kernel) (this t b : Ptr) (nz : t ≢ null) (apart : t ≢ b) where
  unlink_blocked-MovesWaiting : MovesWaiting k (unlink_blocked k this t b) t
  unfolding unlink_blocked unblocked
  unlink_blocked-MovesWaiting = record {
    sleeps = λ x. ground arith;
    blocked = λ x n. ground (arith, n);
    finished = λ x. ground arith;
    idle = ground arith;
    runs = ground arith;
  }

  unlink_blocked_free : ((unlink_blocked k this t b).tcb t).blocked_at_sem ≡ null
  unfolding unlink_blocked unblocked
  unlink_blocked_free = ground (arith, nz)

  unlink_blocked_apart :
      (s : Ptr) (ws : List Waiter)
      → s ≢ this
      → (k.tcb t).blocked_at_sem ≡ this
      → (b ≢ null → (k.tcb b).blocked_at_sem ≡ this)
      → IsWaiting k s ws
      → IsWaiting (unlink_blocked k this t b) s ws
  unfolding unlink_blocked unblocked
  unlink_blocked_apart s ws n at prev q =
      IsWaiting-apart k (unlink_blocked k this t b) s ws (ground (arith, n)) (ground (arith, n))
        (λ y there.
          let far : y ≢ t = λ h. ground (arith, h, there, at, n) in
          let far_prev : b ≢ null → y ≢ b = λ z h. ground (arith, h, there, prev z, n) in
          (ground (arith, far, far_prev), ground (arith, far), ground (arith, far)))
        q

-- A given thread that waits comes into the kernel's hands.
pub take_blocked-Moves :
    (all : List Ptr) (k : Kernel) (v : View) (h : List Ptr) (t : Ptr)
    → let this = (k.tcb t).blocked_at_sem in
      this ≢ null
      → Linked all k v h
      → Moves all k v
          (take_blocked k this t).0
          (now_waiting v this (drop_waiter t (v.waiting this)))
          (t ∷ h)
          t
        × (((take_blocked k this t).0.tcb t).blocked_at_sem ≡ null)
take_blocked-Moves all k v h t ns l =
    let this = (k.tcb t).blocked_at_sem in
    let p = l.place t in
    let ws = v.waiting this in
    let live = p.live (ground (arith, ns)) in
    let q = l.waits this ns in
    let nz : t ≢ null = λ e. ground (arith, e, live, l.real) in
    let xs = threads_of ws in
    let b = before null t xs in
    let i = p.blocked ns in
    let at : (x : Ptr) → member x xs ≡ true → (k.tcb x).blocked_at_sem ≡ this =
      λ x. all_blocked k.tcb this ws x q.blocked in
    let few : length ws ≤ k.threads =
      subst (λ n. n ≤ k.threads) (length-threads_of ws)
        (Linked-length all k v h xs q.distinct
          (λ x j. (l.place x).live (ground (arith, at x j, ns))) l) in
    let apart : t ≢ b = before_other null t xs q.distinct nz i in
    let taken = take_blocked_lem k this t ws nz refl i few q in
    let waits = (take_blocked-IsWaiting k this t ws nz refl i few q).1 in
    let free : ((take_blocked k this t).0.tcb t).blocked_at_sem ≡ null =
      subst (λ o. (o.0.tcb t).blocked_at_sem ≡ null) (sym taken)
        (unlink_blocked_free k this t b nz apart) in
    (
      unwait-Moves all k (take_blocked k this t).0 v h this t (drop_waiter t ws)
          (take_blocked-KeepsReady k this t) (take_blocked-KeepsSleeping k this t)
          (subst (λ o. MovesWaiting k o.0 t) (sym taken)
            (unlink_blocked-MovesWaiting k this t b nz apart))
          free
          (waiting_now k (take_blocked k this t).0 v this (drop_waiter t ws) waits
            (λ s n r.
              subst (λ o. IsWaiting o.0 s (v.waiting s)) (sym taken)
                (unlink_blocked_apart k this t b nz apart s (v.waiting s) n refl
                  (λ z. at b (ground (arith, z, before-member null t xs))) r))
            l.waits)
          (λ x n.
            ap (member x) (threads_of-drop_waiter t ws)
            ∙ (member-without x t xs q.distinct ∙ ground (arith, n)))
          live l,
      free,
    )
