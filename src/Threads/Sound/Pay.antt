-- ===== src/Threads/Sound/Pay.antt =====
-- kSemaphore::signal and the places of the threads.
use os1_proj.Prelude.{
  ◌≡◌, ◌≢◌, refl, subst, ℕ, zero, suc, ◌-◌, ◌+w◌, true, ◌&&◌, List, [], ◌∷◌, arith, ◌==◌,
  Bool-cases, inl, inr, ==_iff, ltb, leb,
}
use os1_proj.Threads.{Ptr, null, Kernel, regular, at_tcb}
use os1_proj.Threads.Sync.{release_first, signal_loop, signal}
use os1_proj.Threads.Chains.{member}
use os1_proj.Threads.Waiting.{Waiter, waiter, threads_of, IsWaiting, IsQueue-frame}
use os1_proj.Threads.Tokens.{pay-IsWaiting, signal_loop_none, signal_loop_nobody}
use os1_proj.Threads.Signal.{loop_served, loop_paid}
use os1_proj.Threads.Sleeping.{SomeLeft, IsSleeping-frame}
use os1_proj.Threads.Sound.{View, now_waiting, Linked, Moves, Place-same}
use os1_proj.Threads.Sound.Places.{IsWaiting-apart, same_waiting}
use os1_proj.Threads.Sound.Inert.{at_sem-Inert}
use os1_proj.Threads.Sound.Release.{Releases, Frees, Moves-Frees}
use os1_proj.Threads.Sound.Signal.{
  Releases-refl, Releases-trans, Releases-Inert, release_first-Frees, waits_listed,
}

abbrev paying : Kernel → Ptr → (ℕ → ℕ) → Kernel
paying k t f = at_tcb k t (λ b. record b { tokens_needed = f b.tokens_needed })

-- A change of what the first waiting thread needs moves nobody.
pay-Moves :
    (all : List Ptr) (k : Kernel) (v : View) (h : List Ptr) (this : Ptr) (w : Waiter)
    (ws : List Waiter) (f : ℕ → ℕ)
    → this ≢ null
    → v.waiting this ≡ w ∷ ws
    → Linked all k v h
    → Moves all k v
        (paying k w.thread f)
        (now_waiting v this (waiter w.thread (f w.tokens) ∷ ws))
        h
        w.thread
unfolding threads_of member
pay-Moves all k v h this w ws f ns e l =
    let g = paying k w.thread f in
    let us = waiter w.thread (f w.tokens) ∷ ws in
    let q : IsWaiting k this (w ∷ ws) = subst (IsWaiting k this) e (l.waits this ns) in
    record {
      linked = record {
        queue =
            IsQueue-frame k g v.ready
              (record { head = refl; tail = refl; links = λ x. ground arith }) l.queue;
        sleeping =
            IsSleeping-frame k g v.asleep
              (record {
                head = refl;
                bound = refl;
                links = λ x. ground arith;
                times = λ x. ground arith;
                flags = λ x. ground arith;
              })
              l.sleeping;
        below = l.below;
        waits = λ s z. elim (Bool-cases (s == this)) [
          | inl i ↦ rw (i, (==_iff s this).0 i) (pay-IsWaiting k this w ws f q)
          | inr i ↦ rw i (
              IsWaiting-apart k g s (v.waiting s) refl refl
                (λ y at. (ground arith, ground arith, ground (arith, at, i, q.blocked.0)))
                (l.waits s z))
        ];
        room = l.room;
        real = l.real;
        place = λ x.
            Place-same all k g v (now_waiting v this us) h h x
              (record {
                sleeps = ground arith;
                blocked = ground arith;
                finished = ground arith;
                idle = refl;
                ready = refl;
                asleep = refl;
                waiting = same_waiting v this (k.tcb x).blocked_at_sem x us (rw e refl);
                hands = λ i. i;
              })
              (l.place x);
      };
      others = λ x n. ground arith;
      lives = λ x. ground arith;
      runs = refl;
      idle = refl;
    }

pay-Frees :
    (all : List Ptr) (k : Kernel) (v : View) (h : List Ptr) (this : Ptr) (w : Waiter)
    (ws : List Waiter) (f : ℕ → ℕ)
    → this ≢ null
    → v.waiting this ≡ w ∷ ws
    → SomeLeft v.asleep
    → Linked all k v h
    → Frees all k v h this (waiter w.thread (f w.tokens) ∷ ws) (paying k w.thread f)
pay-Frees all k v h this w ws f ns e left l =
    let self : (this == this) ≡ true = ground arith in
    Moves-Frees all k (paying k w.thread f) v _ h w.thread this (waiter w.thread (f w.tokens) ∷ ws)
      (waits_listed all k v h this w ws ns e l).1 left (rw self refl)
      (pay-Moves all k v h this w ws f ns e l)

nothing : (n : ℕ) (k : Kernel) (this : Ptr) → (signal_loop zero k this n).0 ≡ k
unfolding signal_loop
nothing n k this = refl

signal_loop-Releases :
    (all : List Ptr) (fuel n : ℕ) (k : Kernel) (v : View) (h : List Ptr) (this : Ptr)
    (ws : List Waiter)
    → this ≢ null
    → v.waiting this ≡ ws
    → SomeLeft v.asleep
    → Linked all k v h
    → Releases all k v h (signal_loop fuel k this n).0
unfolding threads_of
signal_loop-Releases all zero n k v h this ws ns e left l =
    rw (nothing n k this) (Releases-refl all k v h left l)
signal_loop-Releases all (suc fuel) n k v h this [] ns e left l =
    let q : IsWaiting k this [] = subst (IsWaiting k this) e (l.waits this ns) in
    rw (signal_loop_nobody (suc fuel) n k this q.chain) (Releases-refl all k v h left l)
signal_loop-Releases all (suc fuel) n k v h this (w ∷ ws) ns e left l =
    let q = (waits_listed all k v h this w ws ns e l).0 in
    elim (Bool-cases (ltb 0 n && leb w.tokens n)) [
      | inl b ↦
          let g = paying k w.thread (λ m. 0) in
          let paid = pay-Frees all k v h this w ws (λ m. 0) ns e left l in
          let p = paid.released in
          let freed =
            release_first-Frees all g p.lists h this regular (waiter w.thread 0) ws ns paid.rest
              p.left p.linked in
          let r = freed.released in
          rw (loop_served fuel n k this w ws q b) (
            Releases-trans all k g _ v h p (
              Releases-trans all g (release_first g this regular) _ p.lists h r (
                signal_loop-Releases all fuel (n - w.tokens) (release_first g this regular) r.lists
                  h this ws ns freed.rest r.left r.linked)))
      | inr b ↦ elim (Bool-cases (ltb 0 n)) [
        | inl some ↦
            rw (loop_paid fuel n k this w ws q some (ground (arith, some, b)))
              (pay-Frees all k v h this w ws (λ m. m - n) ns e left l).released
        | inr none ↦
            let z : n ≡ 0 = ground (arith, none) in
            rw (z, signal_loop_none (suc fuel) k this) (Releases-refl all k v h left l)
      ]
    ]

pub signal-Releases :
    (all : List Ptr) (k : Kernel) (v : View) (h : List Ptr) (this n : ℕ)
    → this ≢ null
    → SomeLeft v.asleep
    → Linked all k v h
    → Releases all k v h (signal k this n).0
unfolding signal
signal-Releases all k v h this n ns left l = elim (Bool-cases (k.sem this).active) [
  | inr e ↦ rw e (Releases-refl all k v h left l)
  | inl e ↦
      let g = (signal_loop (suc (suc k.threads)) k this n).0 in
      let spare = (signal_loop (suc (suc k.threads)) k this n).1 in
      rw e (
        Releases-Inert all k g _ v h
          (at_sem-Inert g this (λ s. record s { value = s.value +w spare }) (λ s. refl) (λ s. refl))
          (signal_loop-Releases all (suc (suc k.threads)) n k v h this (v.waiting this) ns refl left
            l))
]
