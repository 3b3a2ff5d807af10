-- ===== src/Threads/Sound/Timed.antt =====
-- Sleep::sleep and kSemaphore::timedWait, and the places of the threads.
use os1_proj.Prelude.{
  ◌≡◌, ◌≢◌, refl, sym, subst, ◌∙◌, ℕ, ◌-◌, ◌<◌, true, false, ◌||◌, List, [], ◌∷◌, ◌++◌, arith, ◌==◌,
  if◌then◌else◌, Bool-cases, inl, inr, ==_iff, ==_false, word, leb,
}
use os1_proj.Threads.{Ptr, null, Kernel, at_sem, yield, wait_timeout}
use os1_proj.Threads.Blocking.{put_blocked, put_sleep, take_blocked}
use os1_proj.Threads.Sync.{set_manner, sleep, timed_wait}
use os1_proj.Threads.Chains.{member}
use os1_proj.Threads.Waiting.{waiter}
use os1_proj.Threads.Sleeping.{SomeLeft}
use os1_proj.Threads.Sleeping.Frames.{take_blocked-KeepsSleeping}
use os1_proj.Threads.Removal.Waiters.{drop_waiter}
use os1_proj.Threads.Sound.{View, now_waiting, alive, Linked, Linked-hands}
use os1_proj.Threads.Sound.Ready.{IsLoose}
use os1_proj.Threads.Sound.Switch.{Sound, IsValid}
use os1_proj.Threads.Sound.Inert.{Sound-Inert, set_manner-Inert}
use os1_proj.Threads.Sound.Blocks.{moved, put_blocked-MovesWaiting}
use os1_proj.Threads.Sound.Unblock.{take_blocked-Moves}
use os1_proj.Threads.Sound.Wait.{running_alive, paid-IsValid, blocked-Linked, sleep_some-IsValid}

sleep_none :
    (k : Kernel)
    → (sleep k 0).0 ≡ (
        if (k.tcb k.running).blocked_at_sem == null
        then k
        else set_manner
            (take_blocked k (k.tcb k.running).blocked_at_sem k.running).0
            k.running
            wait_timeout)
unfolding sleep
sleep_none k = refl

sleep_some : (k : Kernel) (d : ℕ) → d ≢ 0 → (sleep k d).0 ≡ yield (put_sleep k k.running d) false
unfolding sleep
sleep_some k d n = let some : (d == 0) ≡ false = ==_false d 0 n in rw some refl

pub sleep-IsValid :
    (all : List Ptr) (k : Kernel) (d : ℕ)
    → k.running ≢ k.idle
    → d < word
    → IsValid all k
    → IsValid all (sleep k d).0
sleep-IsValid all k d ni b h =
    let s = h.sound in
    elim (Bool-cases (d == 0)) [
      | inl e ↦
          let free : ((k.tcb k.running).blocked_at_sem == null) ≡ true = ground (arith, s.loose) in
          rw ((==_iff d 0).0 e, sleep_none k, free) h
      | inr e ↦ rw (sleep_some k d (λ z. ground (arith, z, e))) (
          sleep_some-IsValid all k h.lists k.running d s.left (ground (arith, s.loose))
            (ground (arith, s.loose)) (running_alive all k h.lists ni s) b
            (λ z. ground (arith, z, e)) s.linked)
    ]

-- Sleep::sleep of the running thread `t`, which waits at a semaphore and stands in no other list.
record Blocks (all : List Ptr) (k : Kernel) (v : View) : Type 0 where
  linked : Linked all k v []
  left : SomeLeft v.asleep
  live : alive all k k.running ≡ true
  up : (k.tcb k.running).sleeps ≡ false
  out : member k.running v.ready ≡ false
  blocked : (k.tcb k.running).blocked_at_sem ≢ null

give_up-IsValid :
    (all : List Ptr) (k : Kernel) (v : View)
    → Blocks all k v
    → let at = (k.tcb k.running).blocked_at_sem in IsValid all (take_blocked k at k.running).0
unfolding member
give_up-IsValid all k v b =
    let t = k.running in
    let at = (k.tcb t).blocked_at_sem in
    let g = (take_blocked k at t).0 in
    let (taken, free) = take_blocked-Moves all k v [] t b.blocked b.linked in
    let up : (g.tcb t).sleeps ≡ false = (take_blocked-KeepsSleeping k at t).flags t ∙ b.up in
    let out = b.out in
    let w = now_waiting v at (drop_waiter t (v.waiting at)) in
    record {
      lists = w;
      sound = record {
        linked = subst (λ x. Linked all g w (x ∷ [])) (sym taken.runs) taken.linked;
        left = b.left;
        loose = subst (λ x. IsLoose g w x) (sym taken.runs) (ground (arith, out, up, free));
        runs =
            subst (λ x. (x == g.idle || alive all g x) ≡ true) (sym taken.runs)
              (ground (arith, taken.lives t, b.live));
      };
    }

blocked_sleep-IsValid :
    (all : List Ptr) (k : Kernel) (v : View) (d : ℕ)
    → d < word
    → Blocks all k v
    → IsValid all (sleep k d).0
unfolding member
blocked_sleep-IsValid all k v d below b = elim (Bool-cases (d == 0)) [
  | inl e ↦
      let t = k.running in
      let at = (k.tcb t).blocked_at_sem in
      let g = (take_blocked k at t).0 in
      let some : (at == null) ≡ false = ==_false at null b.blocked in
      let given = give_up-IsValid all k v b in
      rw ((==_iff d 0).0 e, sleep_none k, some)
        (record {
          lists = given.lists;
          sound =
              Sound-Inert all g (set_manner g t wait_timeout) given.lists
                (set_manner-Inert g t wait_timeout) given.sound;
        })
  | inr e ↦ rw (sleep_some k d (λ z. ground (arith, z, e))) (
      sleep_some-IsValid all k v k.running d b.left b.up b.out b.live below
        (λ z. ground (arith, z, e))
        (Linked-hands all k v [] (k.running ∷ []) (λ x i. ground (arith, i)) b.linked))
]

-- Where kSemaphore::timedWait has put the running thread among those that wait.
blocked-Blocks :
    (all : List Ptr) (k : Kernel) (v : View) (this n : ℕ)
    → this ≢ null
    → k.running ≢ k.idle
    → Sound all k v
    → Blocks all
        (put_blocked (at_sem k this (λ s. record s { value = 0 })) this k.running n)
        (now_waiting v this (v.waiting this ++ waiter k.running n ∷ []))
blocked-Blocks all k v this n ns ni s =
    let t = k.running in
    let k1 = at_sem k this (λ s. record s { value = 0 }) in
    let g = put_blocked k1 this t n in
    let marks = put_blocked-MovesWaiting k1 this t n in
    let live = running_alive all k v ni s in
    let nz : t ≢ null = λ e. ground (arith, e, live, s.linked.real) in
    let at : (g.tcb g.running).blocked_at_sem ≡ this =
      subst (λ x. (g.tcb x).blocked_at_sem ≡ this) (sym marks.runs) (moved k1 this t n nz) in
    record {
      linked = blocked-Linked all k v this n ns ni s;
      left = s.left;
      live =
          subst (λ x. alive all g x ≡ true) (sym marks.runs)
            (rw (marks.idle, marks.finished t) live);
      up =
          subst (λ x. (g.tcb x).sleeps ≡ false) (sym marks.runs)
            (marks.sleeps t ∙ ground (arith, s.loose));
      out = subst (λ x. member x v.ready ≡ false) (sym marks.runs) (ground (arith, s.loose));
      blocked = λ z. ns (sym at ∙ z);
    }

pub timed_wait-IsValid :
    (all : List Ptr) (k : Kernel) (this d n : ℕ)
    → this ≢ null
    → k.running ≢ k.idle
    → d < word
    → IsValid all k
    → IsValid all (timed_wait k this d n).0
unfolding timed_wait
timed_wait-IsValid all k this d n ns ni b h = elim (Bool-cases (k.sem this).active) [
  | inr e ↦ rw e h
  | inl e ↦ elim (Bool-cases (leb n (k.sem this).value)) [
    | inl m ↦ rw (e, m) (paid-IsValid all k this n h)
    | inr m ↦
        rw (e, m)
          (blocked_sleep-IsValid all _ _ d b
            (blocked-Blocks all k h.lists this (n - (k.sem this).value) ns ni h.sound))
  ]
]
