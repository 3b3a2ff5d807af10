-- ===== src/Threads/Sound/Release.antt =====
-- What kSemaphore::signal and kSemaphore::signalAll do with the first thread that waits, and the
-- places of the threads.
use os1_proj.Prelude.{
  ◌≡◌, ◌≢◌, sym, subst, ◌∙◌, ap, ℕ, true, false, List, [], ◌∷◌, ◌++◌, arith, ◌==◌, if◌then◌else◌,
  Bool-cases, inl, inr,
}
use os1_proj.Threads.{Ptr, null, Kernel, UnblockManner, put_ready}
use os1_proj.Threads.Blocking.{get_blocked, take_sleep}
use os1_proj.Threads.Sync.{set_manner, release_first}
use os1_proj.Threads.Chains.{member}
use os1_proj.Threads.Frames.{take_sleep-Keeps}
use os1_proj.Threads.Waiting.{Waiter, threads_of, IsWaiting, get_blocked-Takes}
use os1_proj.Threads.Sleeping.{Sleeper, names, take_over, SomeLeft}
use os1_proj.Threads.Removal.{member-without}
use os1_proj.Threads.Removal.Sleepers.{take_out, names-take_out}
use os1_proj.Threads.Sound.{
  View, now_waiting, listed, alive, Linked, Linked-hands, Moves, Moves-trans,
}
use os1_proj.Threads.Sound.Ready.{IsLoose, with_ready, put_ready-Moves}
use os1_proj.Threads.Sound.Inert.{Moves-Inert, set_manner-Inert}
use os1_proj.Threads.Sound.Sleep.{with_asleep}
use os1_proj.Threads.Sound.Unblock.{get_blocked-Moves, get_blocked_free}
use os1_proj.Threads.Sound.Wake.{take_sleep-Moves}

-- A thread in hand is marked and made ready.
pub hand_over-Moves :
    (all : List Ptr) (k : Kernel) (v : View) (h : List Ptr) (t : Ptr) (how : UnblockManner)
    → IsLoose k v t
    → alive all k t ≡ true
    → Linked all k v (t ∷ h)
    → Moves all k v (put_ready (set_manner k t how) t) (with_ready v (v.ready ++ t ∷ [])) h t
hand_over-Moves all k v h t how loose live l =
    let g = set_manner k t how in
    let inert = set_manner-Inert k t how in
    let marked = Moves-Inert all k g v (t ∷ h) t inert l in
    Moves-trans all k g (put_ready g t) v v (with_ready v (v.ready ++ t ∷ [])) (t ∷ h) h t marked (
      put_ready-Moves all g v h t (rw (inert.marks.sleeps t, inert.marks.blocked t) loose)
        (marked.lives t ∙ live) marked.linked)

-- The sleeping threads without `t`, if it is among them.
abbrev pub roused : Kernel → View → Ptr → List Sleeper
roused k v t = if (k.tcb t).sleeps then take_out t v.asleep else v.asleep

-- A thread in hand, which may still sleep, is made ready.
settle-Moves :
    (all : List Ptr) (k : Kernel) (v : View) (h : List Ptr) (t : Ptr) (how : UnblockManner)
    → member t v.ready ≡ false
    → (k.tcb t).blocked_at_sem ≡ null
    → alive all k t ≡ true
    → Linked all k v (t ∷ h)
    → Moves all k v
        (put_ready (set_manner (if (k.tcb t).sleeps then (take_sleep k t).0 else k) t how) t)
        (with_ready (with_asleep v (roused k v t)) (v.ready ++ t ∷ []))
        h
        t
unfolding member
settle-Moves all k v h t how out free live l = elim (Bool-cases (k.tcb t).sleeps) [
  | inr e ↦ rw e (hand_over-Moves all k v h t how (ground (arith, out, free, e)) live l)
  | inl e ↦
      let g = (take_sleep k t).0 in
      let w = with_asleep v (take_out t v.asleep) in
      let taken = take_sleep-Moves all k v (t ∷ h) t e l in
      let held = Linked-hands all g w (t ∷ t ∷ h) (t ∷ h) (λ x i. ground (arith, i)) taken.linked in
      let up : (g.tcb t).sleeps ≡ false =
        (held.place t).asleep
        ∙ (ap (member t) (names-take_out t v.asleep)
            ∙ (member-without t t (names v.asleep) l.sleeping.distinct ∙ ground arith)) in
      let free_still : (g.tcb t).blocked_at_sem ≡ null = (take_sleep-Keeps k t).1.places t ∙ free in
      rw e (
        Moves-trans all k g (put_ready (set_manner g t how) t) v w
          (with_ready w (v.ready ++ t ∷ [])) (t ∷ t ∷ h) h t taken
          (hand_over-Moves all g w h t how (ground (arith, out, free_still, up))
            (taken.lives t ∙ live) held))
]

take_over-SomeLeft : (d : ℕ) (ss : List Sleeper) → d ≢ 0 → SomeLeft (take_over d ss)
unfolding take_over
take_over-SomeLeft d [] n = tt
take_over-SomeLeft d (s ∷ ss) n = λ z. n (omega (arith, z))

-- The first of the list takes over no time, or more than it had.
pub take_out-SomeLeft : (t : Ptr) (ss : List Sleeper) → SomeLeft ss → SomeLeft (take_out t ss)
unfolding take_out take_over
take_out-SomeLeft t [] l = tt
take_out-SomeLeft t (s ∷ ss) l = elim (Bool-cases (s.thread == t)) [
  | inl e ↦ rw e (take_over-SomeLeft s.time ss l)
  | inr e ↦ rw e l
]

-- What a release of threads leaves: nobody comes into a list who was in none.
pub record Releases (all : List Ptr) (k : Kernel) (v : View) (h : List Ptr) (g : Kernel)
    : Type 0 where
  pub lists : View
  pub linked : Linked all g lists h
  pub left : SomeLeft lists.asleep
  pub loose : (x : Ptr) → IsLoose k v x → IsLoose g lists x
  pub lives : (x : Ptr) → alive all g x ≡ alive all k x
  pub runs : g.running ≡ k.running
  pub idle : g.idle ≡ k.idle

-- After it, the threads `ws` wait at `this`.
pub record Frees (all : List Ptr) (k : Kernel) (v : View) (h : List Ptr) (this : Ptr)
    (ws : List Waiter) (g : Kernel) : Type 0 where
  pub released : Releases all k v h g
  pub rest : released.lists.waiting this ≡ ws

pub Moves-Frees :
    (all : List Ptr) (k g : Kernel) (v w : View) (h : List Ptr) (t this : Ptr) (ws : List Waiter)
    → listed k v t ≡ true
    → SomeLeft w.asleep
    → w.waiting this ≡ ws
    → Moves all k v g w h t
    → Frees all k v h this ws g
Moves-Frees all k g v w h t this ws i left e m = record {
  released = record {
    lists = w;
    linked = m.linked;
    left = left;
    loose = λ x o. m.others x (λ e. ground (arith, i, o, e)) ∙ o;
    lives = m.lives;
    runs = m.runs;
    idle = m.idle;
  };
  rest = e;
}

-- The first thread that waits at a semaphore is made ready.
pub release_first-Moves :
    (all : List Ptr) (k : Kernel) (v : View) (h : List Ptr) (this : Ptr) (how : UnblockManner)
    (w : Waiter) (ws : List Waiter)
    → this ≢ null
    → v.waiting this ≡ w ∷ ws
    → Linked all k v h
    → Moves all k v
        (release_first k this how)
        (with_ready
          (with_asleep
            (now_waiting v this ws)
            (roused (get_blocked k this).0 (now_waiting v this ws) w.thread))
          (v.ready ++ w.thread ∷ []))
        h
        w.thread
unfolding release_first threads_of member
release_first-Moves all k v h this how w ws ns e l =
    let g = (get_blocked k this).0 in
    let t = w.thread in
    let u = now_waiting v this ws in
    let q : IsWaiting k this (w ∷ ws) = subst (IsWaiting k this) e (l.waits this ns) in
    let same : (get_blocked k this).1 ≡ t = (get_blocked-Takes k this w ws q).taken in
    let taken = get_blocked-Moves all k v h this w ws ns e l in
    let p = l.place t in
    let at : (k.tcb t).blocked_at_sem ≢ null = λ z. ns (sym q.blocked.0 ∙ z) in
    let out : member t v.ready ≡ false = elim (Bool-cases (member t v.ready)) [
      | inl i ↦ absurd (at (p.apart i).1)
      | inr o ↦ o
    ] in
    let live = p.live (ground (arith, at)) in
    let settled =
      settle-Moves all g u h t how out (get_blocked_free k this t q.chain.0 q.chain.1)
        (taken.lives t ∙ live) taken.linked in
    subst
      (λ x.
        Moves all k v
          (put_ready (set_manner (if (g.tcb x).sleeps then (take_sleep g x).0 else g) x how) x)
          (with_ready (with_asleep u (roused g u t)) (v.ready ++ t ∷ [])) h t)
      (sym same) (Moves-trans all k g _ v u _ (t ∷ h) h t taken settled)
