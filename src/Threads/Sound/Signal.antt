-- ===== src/Threads/Sound/Signal.antt =====
-- kSemaphore::signalAll and kSemaphore::close, and the places of the threads.
use os1_proj.Prelude.{
  ◌≡◌, ◌≢◌, refl, sym, subst, ◌∙◌, ℕ, zero, suc, Bool, true, false, ◌||◌, List, [], ◌∷◌, arith,
  ◌==◌, if◌then◌else◌, Bool-cases, inl, inr,
}
use os1_proj.Threads.{Ptr, null, Kernel, UnblockManner, regular, on_close, at_sem}
use os1_proj.Threads.Blocking.{get_blocked}
use os1_proj.Threads.Sync.{release_first, signal_all_loop, signal_all, close}
use os1_proj.Threads.Waiting.{Waiter, threads_of, IsWaiting}
use os1_proj.Threads.Sleeping.{SomeLeft}
use os1_proj.Threads.Sound.{View, now_waiting, listed, alive, Linked}
use os1_proj.Threads.Sound.Ready.{IsLoose}
use os1_proj.Threads.Sound.Switch.{Sound, IsValid}
use os1_proj.Threads.Sound.Inert.{Inert, Linked-Inert, at_sem-Inert}
use os1_proj.Threads.Sound.Release.{
  Releases, Frees, Moves-Frees, release_first-Moves, roused, take_out-SomeLeft,
}

pub Releases-refl :
    (all : List Ptr) (k : Kernel) (v : View) (h : List Ptr)
    → SomeLeft v.asleep
    → Linked all k v h
    → Releases all k v h k
Releases-refl all k v h left l = record {
  lists = v;
  linked = l;
  left = left;
  loose = λ x o. o;
  lives = λ x. refl;
  runs = refl;
  idle = refl;
}

pub Releases-trans :
    (all : List Ptr) (k g i : Kernel) (v : View) (h : List Ptr)
    → (a : Releases all k v h g) → Releases all g a.lists h i
    → Releases all k v h i
Releases-trans all k g i v h a b = record {
  lists = b.lists;
  linked = b.linked;
  left = b.left;
  loose = λ x o. b.loose x (a.loose x o);
  lives = λ x. b.lives x ∙ a.lives x;
  runs = b.runs ∙ a.runs;
  idle = b.idle ∙ a.idle;
}

pub Releases-Inert :
    (all : List Ptr) (k g i : Kernel) (v : View) (h : List Ptr)
    → Inert g i
    → Releases all k v h g
    → Releases all k v h i
Releases-Inert all k g i v h inert a = record {
  lists = a.lists;
  linked = Linked-Inert all g i a.lists h inert a.linked;
  left = a.left;
  loose = λ x o. rw (inert.marks.sleeps x, inert.marks.blocked x) (a.loose x o);
  lives = λ x. rw (inert.marks.idle, inert.marks.finished x) (a.lives x);
  runs = inert.runs ∙ a.runs;
  idle = inert.marks.idle ∙ a.idle;
}

-- What the running thread has in hand stays valid.
pub Releases-IsValid :
    (all : List Ptr) (k g : Kernel) (v : View)
    → Sound all k v
    → Releases all k v (k.running ∷ []) g
    → IsValid all g
Releases-IsValid all k g v s r = record {
  lists = r.lists;
  sound = record {
    linked = subst (λ x. Linked all g r.lists (x ∷ [])) (sym r.runs) r.linked;
    left = r.left;
    loose = subst (λ x. IsLoose g r.lists x) (sym r.runs) (r.loose k.running s.loose);
    runs =
        subst (λ x. (x == g.idle || alive all g x) ≡ true) (sym r.runs)
          (ground (arith, s.runs, r.idle, r.lives k.running));
  };
}

roused-SomeLeft : (k : Kernel) (v : View) (t : Ptr) → SomeLeft v.asleep → SomeLeft (roused k v t)
roused-SomeLeft k v t l = elim (Bool-cases (k.tcb t).sleeps) [
  | inl e ↦ rw e (take_out-SomeLeft t v.asleep l)
  | inr e ↦ rw e l
]

-- The first thread that waits is marked as such.
pub waits_listed :
    (all : List Ptr) (k : Kernel) (v : View) (h : List Ptr) (this : Ptr) (w : Waiter)
    (ws : List Waiter)
    → this ≢ null
    → v.waiting this ≡ w ∷ ws
    → Linked all k v h
    → IsWaiting k this (w ∷ ws) × (listed k v w.thread ≡ true)
waits_listed all k v h this w ws ns e l =
    let q : IsWaiting k this (w ∷ ws) = subst (IsWaiting k this) e (l.waits this ns) in
    let at : (k.tcb w.thread).blocked_at_sem ≢ null = λ z. ns (sym q.blocked.0 ∙ z) in
    (q, ground (arith, at))

pub release_first-Frees :
    (all : List Ptr) (k : Kernel) (v : View) (h : List Ptr) (this : Ptr) (how : UnblockManner)
    (w : Waiter) (ws : List Waiter)
    → this ≢ null
    → v.waiting this ≡ w ∷ ws
    → SomeLeft v.asleep
    → Linked all k v h
    → Frees all k v h this ws (release_first k this how)
release_first-Frees all k v h this how w ws ns e left l =
    let self : (this == this) ≡ true = ground arith in
    Moves-Frees all k (release_first k this how) v _ h w.thread this ws
      (waits_listed all k v h this w ws ns e l).1
      (roused-SomeLeft (get_blocked k this).0 (now_waiting v this ws) w.thread left) (rw self refl)
      (release_first-Moves all k v h this how w ws ns e l)

pub signal_all_loop-Releases :
    (all : List Ptr) (fuel : ℕ) (k : Kernel) (v : View) (h : List Ptr) (this : Ptr)
    (how : UnblockManner) (ws : List Waiter)
    → this ≢ null
    → v.waiting this ≡ ws
    → SomeLeft v.asleep
    → Linked all k v h
    → Releases all k v h (signal_all_loop fuel k this how)
unfolding signal_all_loop threads_of
signal_all_loop-Releases all zero k v h this how ws ns e left l = Releases-refl all k v h left l
signal_all_loop-Releases all (suc fuel) k v h this how [] ns e left l =
    let q : IsWaiting k this [] = subst (IsWaiting k this) e (l.waits this ns) in
    rw q.chain (Releases-refl all k v h left l)
signal_all_loop-Releases all (suc fuel) k v h this how (w ∷ ws) ns e left l =
    let q = (waits_listed all k v h this w ws ns e l).0 in
    let some : ((k.sem this).blocked_head == null) ≡ false = ground (arith, q.chain) in
    let first = release_first-Frees all k v h this how w ws ns e left l in
    let r = first.released in
    rw some (
      Releases-trans all k (release_first k this how) _ v h r (
        signal_all_loop-Releases all fuel (release_first k this how) r.lists h this how ws ns
          first.rest r.left r.linked))

pub signal_all-Releases :
    (all : List Ptr) (k : Kernel) (v : View) (h : List Ptr) (this n : ℕ) (closing : Bool)
    → this ≢ null
    → SomeLeft v.asleep
    → Linked all k v h
    → Releases all k v h (signal_all k this n closing).0
unfolding signal_all
signal_all-Releases all k v h this n closing ns left l = elim (Bool-cases (k.sem this).active) [
  | inr e ↦ rw e (Releases-refl all k v h left l)
  | inl e ↦ rw e (
      Releases-Inert all k _ _ v h
        (at_sem-Inert _ this (λ s. record s { value = n }) (λ s. refl) (λ s. refl))
        (signal_all_loop-Releases all (suc k.threads) k v h this
          (if closing then on_close else regular) (v.waiting this) ns refl left l))
]

close_active :
    (k : Kernel) (this : Ptr)
    → (k.sem this).active ≡ true
    → close k this
      ≡ (at_sem (signal_all k this 0 true).0 this (λ s. record s { active = false }), 0)
unfolding close
close_active k this e = rw e refl

close_inactive : (k : Kernel) (this : Ptr) → (k.sem this).active ≡ false → (close k this).0 ≡ k
unfolding close
close_inactive k this e = rw e refl

pub close-Releases :
    (all : List Ptr) (k : Kernel) (v : View) (h : List Ptr) (this : Ptr)
    → this ≢ null
    → SomeLeft v.asleep
    → Linked all k v h
    → Releases all k v h (close k this).0
close-Releases all k v h this ns left l = elim (Bool-cases (k.sem this).active) [
  | inr e ↦ rw (close_inactive k this e) (Releases-refl all k v h left l)
  | inl e ↦ rw (close_active k this e) (
      Releases-Inert all k (signal_all k this 0 true).0 _ v h
        (at_sem-Inert (signal_all k this 0 true).0 this (λ s. record s { active = false })
          (λ s. refl) (λ s. refl))
        (signal_all-Releases all k v h this 0 true ns left l))
]
