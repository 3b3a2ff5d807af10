-- ===== src/Threads/Waiting.antt =====
-- The threads that wait at a semaphore, as a list of threads and the tokens each still needs.
use os1_proj.Prelude.{
  ◌≡◌, ◌≢◌, refl, sym, subst, ◌∙◌, ℕ, true, false, inl, inr, List, [], ◌∷◌, ◌++◌, arith, ◌==◌,
  if◌then◌else◌, Bool-cases, ap,
}
use os1_proj.Threads.{Ptr, null, Kernel, UnblockManner, put_ready, at_tcb, Tcb}
use os1_proj.Threads.Blocking.{get_blocked, unblocked, take_sleep}
use os1_proj.Threads.Sync.{set_manner, release_first}
use os1_proj.Threads.Chains.{member, last, Chain, Distinct, Chain-frame}
use os1_proj.Threads.Frames.{
  KeepsReady, KeepsWaiting, Keeps, Keeps-trans, at_tcb-Keeps, take_sleep-Keeps,
  put_ready-KeepsWaiting, get_blocked-KeepsReady,
}
use os1_proj.Threads.Ready.{IsQueue, put_ready-IsQueue, tail_after}

pub record Waiter : Type 0 where
  pub thread : Ptr
  pub tokens : ℕ

abbrev pub waiter : Ptr → ℕ → Waiter
waiter t n = record { thread = t; tokens = n }

unfoldable pub threads_of : List Waiter → List Ptr
threads_of [] = []
threads_of (w ∷ ws) = w.thread ∷ threads_of ws

abbrev pub AllBlocked : (Ptr → Tcb) → (this : Ptr) → List Waiter → Type 0
AllBlocked tcb this [] = Unit {0}
AllBlocked tcb this (w ∷ ws) =
    ((tcb w.thread).blocked_at_sem ≡ this)
    × ((tcb w.thread).tokens_needed ≡ w.tokens)
    × AllBlocked tcb this ws

-- The threads `ws` wait at `this`, in this order.
pub record IsWaiting (k : Kernel) (this : Ptr) (ws : List Waiter) : Type 0 where
  pub chain : Chain (λ x. (k.tcb x).next_sem_blocked) (k.sem this).blocked_head (threads_of ws)
  pub at_tail : (k.sem this).blocked_tail ≡ last null (threads_of ws)
  pub distinct : Distinct (threads_of ws)
  pub blocked : AllBlocked k.tcb this ws

pub IsQueue-frame : (k g : Kernel) (xs : List Ptr) → KeepsReady k g → IsQueue k xs → IsQueue g xs
IsQueue-frame k g xs h q = record {
  chain = rw h.head (
      Chain-frame (λ x. (k.tcb x).next_ready) (λ x. (g.tcb x).next_ready) k.ready_head xs
        (λ x i. h.links x) q.chain);
  at_tail = h.tail ∙ q.at_tail;
  distinct = q.distinct;
}

pub AllBlocked-frame :
    (old new : Ptr → Tcb) (this : Ptr) (ws : List Waiter)
    → ((x : Ptr)
        → member x (threads_of ws) ≡ true
        → (new x).blocked_at_sem ≡ (old x).blocked_at_sem)
    → ((x : Ptr) → member x (threads_of ws) ≡ true → (new x).tokens_needed ≡ (old x).tokens_needed)
    → AllBlocked old this ws
    → AllBlocked new this ws
unfolding member threads_of
AllBlocked-frame old new this [] p n b = tt
AllBlocked-frame old new this (w ∷ ws) p n b = (
  p w.thread (ground arith) ∙ b.0,
  n w.thread (ground arith) ∙ b.1,
  AllBlocked-frame old new this ws (λ x i. p x (ground arith)) (λ x i. n x (ground arith)) b.2,
)

pub IsWaiting-frame :
    (k g : Kernel) (this : Ptr) (ws : List Waiter)
    → KeepsWaiting k g
    → IsWaiting k this ws
    → IsWaiting g this ws
IsWaiting-frame k g this ws h q = record {
  chain = rw h.sems (
      Chain-frame (λ x. (k.tcb x).next_sem_blocked) (λ x. (g.tcb x).next_sem_blocked)
        (k.sem this).blocked_head (threads_of ws) (λ x i. h.links x) q.chain);
  at_tail = rw h.sems q.at_tail;
  distinct = q.distinct;
  blocked = AllBlocked-frame k.tcb g.tcb this ws (λ x i. h.places x) (λ x i. h.tokens x) q.blocked;
}

-- What taking the first waiting thread gives and leaves.
pub record Takes (k : Kernel) (this : Ptr) (w : Waiter) (ws : List Waiter) (g : Kernel) (t : Ptr)
    : Type 0 where
  pub taken : t ≡ w.thread
  pub waits : IsWaiting g this ws
  pub value : (g.sem this).value ≡ (k.sem this).value
  pub active : (g.sem this).active ≡ (k.sem this).active
  pub idles : g.idle ≡ k.idle
  pub bound : g.threads ≡ k.threads

pub get_blocked-Takes :
    (k : Kernel) (this : Ptr) (w : Waiter) (ws : List Waiter)
    → IsWaiting k this (w ∷ ws)
    → Takes k this w ws (get_blocked k this).0 (get_blocked k this).1
unfolding get_blocked unblocked threads_of last
get_blocked-Takes k this w ws q =
    let a : (w.thread == null) ≡ false = ground (arith, q.chain) in
    let self : (this == this) ≡ true = ground arith in
    rw (q.chain.0, a)
      (record {
        taken = refl;
        waits = record {
          chain = rw self (
              Chain-frame (λ y. (k.tcb y).next_sem_blocked) _ (k.tcb w.thread).next_sem_blocked
                (threads_of ws) (λ y i. ground (arith, q.distinct)) q.chain.2);
          at_tail = rw self (
              tail_after (λ y. (k.tcb y).next_sem_blocked) _ (k.sem this).blocked_tail w.thread
                (threads_of ws) q.chain.2 q.at_tail);
          distinct = q.distinct.1;
          blocked =
              AllBlocked-frame k.tcb
                (at_tcb k w.thread (λ b. record b {
                  blocked_at_sem = null;
                  next_sem_blocked = null;
                  tokens_needed = 0;
                })).tcb
                this ws (λ y i. ground (arith, q.distinct)) (λ y i. ground (arith, q.distinct))
                q.blocked.2;
        };
        value = rw self refl;
        active = rw self refl;
        idles = refl;
        bound = refl;
      })

-- What waking the first waiting thread leaves.
pub record Wakes (k : Kernel) (this : Ptr) (w : Waiter) (ws : List Waiter) (xs : List Ptr)
    (g : Kernel) : Type 0 where
  pub ready : IsQueue g (xs ++ w.thread ∷ [])
  pub waits : IsWaiting g this ws
  pub value : (g.sem this).value ≡ (k.sem this).value
  pub active : (g.sem this).active ≡ (k.sem this).active
  pub idles : g.idle ≡ k.idle
  pub bound : g.threads ≡ k.threads

-- The thread that was taken leaves the sleeping ones, if it is there, and is marked.
settled-Keeps :
    (k : Kernel) (t : Ptr) (how : UnblockManner)
    → Keeps k (set_manner (if (k.tcb t).sleeps then (take_sleep k t).0 else k) t how)
settled-Keeps k t how = elim (Bool-cases (k.tcb t).sleeps) [
  | inl e ↦ rw e (
      Keeps-trans k (take_sleep k t).0 (set_manner (take_sleep k t).0 t how) (take_sleep-Keeps k t)
        (at_tcb-Keeps (take_sleep k t).0 t (λ b. record b { unblock_manner = how }) (λ b. refl)
          (λ b. refl) (λ b. refl) (λ b. refl)))
  | inr e ↦ rw e (
      at_tcb-Keeps k t (λ b. record b { unblock_manner = how }) (λ b. refl) (λ b. refl) (λ b. refl)
        (λ b. refl))
]

-- The first waiting thread moves to the end of the ready queue.
pub release_first-Wakes :
    (k : Kernel) (this : Ptr) (how : UnblockManner) (w : Waiter) (ws : List Waiter) (xs : List Ptr)
    → w.thread ≢ k.idle
    → member w.thread xs ≡ false
    → IsWaiting k this (w ∷ ws)
    → IsQueue k xs
    → Wakes k this w ws xs (release_first k this how)
unfolding release_first threads_of
release_first-Wakes k this how w ws xs ni out q r =
    let (k1, t) = get_blocked k this in
    let took = get_blocked-Takes k this w ws q in
    let k3 = set_manner (if (k1.tcb t).sleeps then (take_sleep k1 t).0 else k1) t how in
    let (ready, waiting) = settled-Keeps k1 t how in
    let queue =
      IsQueue-frame k1 k3 xs ready (IsQueue-frame k k1 xs (get_blocked-KeepsReady k this) r) in
    let put = put_ready-KeepsWaiting k3 t in
    record {
      ready =
          subst (λ z. IsQueue (put_ready k3 t) (xs ++ z ∷ [])) took.taken
            (put_ready-IsQueue k3 t xs (λ h. q.chain.1 (sym took.taken ∙ h))
              (λ h. ni (sym took.taken ∙ (h ∙ (waiting.idles ∙ took.idles))))
              (subst (λ z. member z xs ≡ false) (sym took.taken) out) queue);
      waits =
          IsWaiting-frame k3 (put_ready k3 t) this ws put
            (IsWaiting-frame k1 k3 this ws waiting took.waits);
      value = ap (λ s. (s this).value) (put.sems ∙ waiting.sems) ∙ took.value;
      active = ap (λ s. (s this).active) (put.sems ∙ waiting.sems) ∙ took.active;
      idles = put.idles ∙ (waiting.idles ∙ took.idles);
      bound = put.bound ∙ (waiting.bound ∙ took.bound);
    }
