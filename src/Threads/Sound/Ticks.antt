-- ===== src/Threads/Sound/Ticks.antt =====
-- The loop of Sleep::onTick and the places of the threads.
use os1_proj.Prelude.{
  ◌≡◌, refl, sym, subst, ◌∙◌, ap, ℕ, zero, suc, ◌≤◌, true, false, List, [], ◌∷◌, ◌++◌, arith, ◌==◌,
  if◌then◌else◌, Bool-cases, inl, inr, ==_iff, length,
}
use os1_proj.Threads.{Ptr, null, Kernel, wait_timeout, put_ready}
use os1_proj.Threads.Blocking.{get_sleep, take_blocked}
use os1_proj.Threads.Sync.{set_manner, wake_first, wake_loop}
use os1_proj.Threads.Chains.{member}
use os1_proj.Threads.Sleeping.{Sleeper, names, take_over, SomeLeft, IsSleeping}
use os1_proj.Threads.Sleeping.Frames.{take_blocked-KeepsSleeping}
use os1_proj.Threads.Sleeping.Wake.{taken as first_taken}
use os1_proj.Threads.Sleeping.Rounds.{take_over_none}
use os1_proj.Threads.Removal.Sleepers.{names-take_over}
use os1_proj.Threads.Removal.Waiters.{drop_waiter}
use os1_proj.Threads.Sound.{
  View, now_waiting, listed, alive, Linked, Linked-hands, Moves, Moves-trans,
}
use os1_proj.Threads.Sound.Ready.{with_ready, put_ready-Moves}
use os1_proj.Threads.Sound.Sleep.{with_asleep}
use os1_proj.Threads.Sound.Unblock.{take_blocked-Moves}
use os1_proj.Threads.Sound.Wake.{get_sleep-Moves}
use os1_proj.Threads.Sound.Release.{Releases, hand_over-Moves}
use os1_proj.Threads.Sound.Signal.{Releases-refl}

-- The lists without `t` among those that wait, if it waits.
abbrev timed_out_lists : Kernel → View → Ptr → View
timed_out_lists k v t =
    let at = (k.tcb t).blocked_at_sem in
    if at == null then v else now_waiting v at (drop_waiter t (v.waiting at))

-- A thread that has been woken, and may still wait at a semaphore, is made ready.
expire-Moves :
    (all : List Ptr) (k : Kernel) (v : View) (h : List Ptr) (t : Ptr)
    → member t v.ready ≡ false
    → (k.tcb t).sleeps ≡ false
    → alive all k t ≡ true
    → Linked all k v (t ∷ h)
    → let at = (k.tcb t).blocked_at_sem in
      let w = timed_out_lists k v t in
      Moves all k v
        (put_ready (if at == null then k else set_manner (take_blocked k at t).0 t wait_timeout) t)
        (with_ready w (v.ready ++ t ∷ []))
        h
        t
unfolding member
expire-Moves all k v h t out up live l =
    let at = (k.tcb t).blocked_at_sem in
    elim (Bool-cases (at == null)) [
      | inl e ↦ rw e (put_ready-Moves all k v h t (ground (arith, out, up, e)) live l)
      | inr e ↦
          let g = (take_blocked k at t).0 in
          let w = now_waiting v at (drop_waiter t (v.waiting at)) in
          let (taken, free) = take_blocked-Moves all k v (t ∷ h) t (λ z. ground (arith, z, e)) l in
          let held =
            Linked-hands all g w (t ∷ t ∷ h) (t ∷ h) (λ x i. ground (arith, i)) taken.linked in
          let up_still : (g.tcb t).sleeps ≡ false =
            (take_blocked-KeepsSleeping k at t).flags t ∙ up in
          rw e (
            Moves-trans all k g _ v w (with_ready w (v.ready ++ t ∷ [])) (t ∷ t ∷ h) h t taken (
              hand_over-Moves all g w h t wait_timeout (ground (arith, out, up_still, free))
                (taken.lives t ∙ live) held))
    ]

-- One round of the loop of Sleep::onTick.
wake_first-Moves :
    (all : List Ptr) (k : Kernel) (v : View) (h : List Ptr) (s : Sleeper) (ss : List Sleeper)
    → v.asleep ≡ s ∷ ss
    → Linked all k v h
    → let w = with_asleep v (take_over s.time ss) in
      Moves all k v
        (wake_first k)
        (with_ready (timed_out_lists (get_sleep k).0 w s.thread) (v.ready ++ s.thread ∷ []))
        h
        s.thread
unfolding wake_first names member
wake_first-Moves all k v h s ss e l =
    let g = (get_sleep k).0 in
    let t = s.thread in
    let w = with_asleep v (take_over s.time ss) in
    let q : IsSleeping k (s ∷ ss) = subst (IsSleeping k) e l.sleeping in
    let same : (get_sleep k).1 ≡ t = first_taken k t q.chain.0 q.chain.1 in
    let taken = get_sleep-Moves all k v h s ss e l in
    let p = l.place t in
    let asleep : (k.tcb t).sleeps ≡ true = q.times.1 in
    let out : member t v.ready ≡ false = ground (arith, p.apart, asleep) in
    let live = p.live (ground (arith, asleep)) in
    let up : (g.tcb t).sleeps ≡ false =
      (taken.linked.place t).asleep ∙ (ap (member t) (names-take_over s.time ss) ∙ q.distinct.0) in
    subst
      (λ x.
        let at = (g.tcb x).blocked_at_sem in
        Moves all k v
          (put_ready (if at == null then g else set_manner (take_blocked g at x).0 x wait_timeout)
            x)
          (with_ready (timed_out_lists g w t) (v.ready ++ t ∷ [])) h t)
      (sym same)
      (Moves-trans all k g _ v w _ (t ∷ h) h t taken
        (expire-Moves all g w h t out up (taken.lives t ∙ live) taken.linked))

asleep_kept : (k : Kernel) (v : View) (t : Ptr) → (timed_out_lists k v t).asleep ≡ v.asleep
asleep_kept k v t = elim (Bool-cases ((k.tcb t).blocked_at_sem == null)) [
  | inl e ↦ rw e refl
  | inr e ↦ rw e refl
]

Moves-then :
    (all : List Ptr) (k g i : Kernel) (v w : View) (h : List Ptr) (t : Ptr)
    → listed k v t ≡ true
    → Moves all k v g w h t
    → Releases all g w h i
    → Releases all k v h i
Moves-then all k g i v w h t j m r = record {
  lists = r.lists;
  linked = r.linked;
  left = r.left;
  loose = λ x o. r.loose x (m.others x (λ e. ground (arith, j, o, e)) ∙ o);
  lives = λ x. r.lives x ∙ m.lives x;
  runs = r.runs ∙ m.runs;
  idle = r.idle ∙ m.idle;
}

pub wake_loop-Releases :
    (all : List Ptr) (fuel : ℕ) (k : Kernel) (v : View) (h : List Ptr) (ss : List Sleeper)
    → v.asleep ≡ ss
    → length ss ≤ fuel
    → Linked all k v h
    → Releases all k v h (wake_loop fuel k)
unfolding wake_loop names
wake_loop-Releases all zero k v h [] e f l = Releases-refl all k v h (subst SomeLeft (sym e) tt) l
wake_loop-Releases all zero k v h (s ∷ ss) e f l = absurd (omega arith)
wake_loop-Releases all (suc fuel) k v h [] e f l =
    let q : IsSleeping k [] = subst (IsSleeping k) e l.sleeping in
    let stop : (k.sleep_head == null) ≡ true = ground (arith, q.chain) in
    rw stop (Releases-refl all k v h (subst SomeLeft (sym e) tt) l)
wake_loop-Releases all (suc fuel) k v h (s ∷ ss) e f l =
    let q : IsSleeping k (s ∷ ss) = subst (IsSleeping k) e l.sleeping in
    let some_one : (k.sleep_head == null) ≡ false = ground (arith, q.chain.0, q.chain.1) in
    let time : (k.tcb k.sleep_head).time_sleep_relative ≡ s.time =
      ap (λ x. (k.tcb x).time_sleep_relative) q.chain.0 ∙ q.times.0 in
    let asleep : (k.tcb s.thread).sleeps ≡ true = q.times.1 in
    elim (Bool-cases (s.time == 0)) [
      | inr later ↦
          rw (some_one, time, later)
            (Releases-refl all k v h (subst SomeLeft (sym e) (λ z. ground (arith, z, later))) l)
      | inl due ↦
          let w = with_asleep v (take_over s.time ss) in
          let first = wake_first-Moves all k v h s ss e l in
          let rest : (timed_out_lists (get_sleep k).0 w s.thread).asleep ≡ ss =
            asleep_kept (get_sleep k).0 w s.thread
            ∙ (ap (λ d. take_over d ss) ((==_iff s.time 0).0 due) ∙ take_over_none ss) in
          rw (some_one, time, due)
            (Moves-then all k (wake_first k) _ v _ h s.thread (ground (arith, asleep)) first
              (wake_loop-Releases all fuel (wake_first k) _ h ss rest (omega arith) first.linked))
    ]
