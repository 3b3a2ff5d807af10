-- ===== src/Threads/Frames.antt =====
-- Which operations on threads leave the ready queue alone, and which the queues of the semaphores.
use os1_proj.Prelude.{
  ◌≡◌, refl, ◌∙◌, false, inl, inr, arith, ◌==◌, if◌then◌else◌, Bool-cases, suc, not, ◌+w◌,
}
use os1_proj.Threads.{Ptr, null, Tcb, Kernel, put_ready, at_tcb}
use os1_proj.Threads.Blocking.{
  awake, inherit_time, take_sleep, find_sleeping, get_blocked, unblocked,
}

pub record KeepsReady (k g : Kernel) : Type 0 where
  pub head : g.ready_head ≡ k.ready_head
  pub tail : g.ready_tail ≡ k.ready_tail
  pub links : (x : Ptr) → (g.tcb x).next_ready ≡ (k.tcb x).next_ready

pub record KeepsWaiting (k g : Kernel) : Type 0 where
  pub sems : g.sem ≡ k.sem
  pub idles : g.idle ≡ k.idle
  pub bound : g.threads ≡ k.threads
  pub links : (x : Ptr) → (g.tcb x).next_sem_blocked ≡ (k.tcb x).next_sem_blocked
  pub places : (x : Ptr) → (g.tcb x).blocked_at_sem ≡ (k.tcb x).blocked_at_sem
  pub tokens : (x : Ptr) → (g.tcb x).tokens_needed ≡ (k.tcb x).tokens_needed

abbrev pub Keeps : Kernel → Kernel → Type 0
Keeps k g = KeepsReady k g × KeepsWaiting k g

pub KeepsReady-trans : (k g h : Kernel) → KeepsReady k g → KeepsReady g h → KeepsReady k h
KeepsReady-trans k g h a b = record {
  head = b.head ∙ a.head;
  tail = b.tail ∙ a.tail;
  links = λ x. b.links x ∙ a.links x;
}

pub KeepsWaiting-trans : (k g h : Kernel) → KeepsWaiting k g → KeepsWaiting g h → KeepsWaiting k h
KeepsWaiting-trans k g h a b = record {
  sems = b.sems ∙ a.sems;
  idles = b.idles ∙ a.idles;
  bound = b.bound ∙ a.bound;
  links = λ x. b.links x ∙ a.links x;
  places = λ x. b.places x ∙ a.places x;
  tokens = λ x. b.tokens x ∙ a.tokens x;
}

pub Keeps-trans : (k g h : Kernel) → Keeps k g → Keeps g h → Keeps k h
Keeps-trans k g h a b = (KeepsReady-trans k g h a.0 b.0, KeepsWaiting-trans k g h a.1 b.1)

same_queues : (k : Kernel) (head : Ptr) → Keeps k (record k { sleep_head = head })
same_queues k head = (
  record { head = refl; tail = refl; links = λ x. refl },
  record {
    sems = refl;
    idles = refl;
    bound = refl;
    links = λ x. refl;
    places = λ x. refl;
    tokens = λ x. refl;
  },
)

Keeps-refl : (k : Kernel) → Keeps k k
Keeps-refl k = same_queues k k.sleep_head

-- A write to a thread's other fields touches neither queue.
pub at_tcb-Keeps :
    (k : Kernel) (t : Ptr) (f : Tcb → Tcb)
    → ((b : Tcb) → (f b).next_ready ≡ b.next_ready)
    → ((b : Tcb) → (f b).next_sem_blocked ≡ b.next_sem_blocked)
    → ((b : Tcb) → (f b).blocked_at_sem ≡ b.blocked_at_sem)
    → ((b : Tcb) → (f b).tokens_needed ≡ b.tokens_needed)
    → Keeps k (at_tcb k t f)
at_tcb-Keeps k t f a b c d = (
  record { head = refl; tail = refl; links = λ x. ground (arith, a (k.tcb x)) },
  record {
    sems = refl;
    idles = refl;
    bound = refl;
    links = λ x. ground (arith, b (k.tcb x));
    places = λ x. ground (arith, c (k.tcb x));
    tokens = λ x. ground (arith, d (k.tcb x));
  },
)

awake-Keeps : (k : Kernel) (t : Ptr) → Keeps k (awake k t)
unfolding awake
awake-Keeps k t =
    at_tcb-Keeps k t (λ b. record b { time_sleep_relative = 0; sleeps = false; next_sleep = null })
      (λ b. refl) (λ b. refl) (λ b. refl) (λ b. refl)

inherit_time-Keeps : (k : Kernel) (next ret : Ptr) → Keeps k (inherit_time k next ret)
unfolding inherit_time
inherit_time-Keeps k next ret = elim (Bool-cases (next == null)) [
  | inl e ↦ rw e (Keeps-refl k)
  | inr e ↦ rw e (
      at_tcb-Keeps k next
        (λ b. record b {
          time_sleep_relative = b.time_sleep_relative +w (k.tcb ret).time_sleep_relative;
        })
        (λ b. refl) (λ b. refl) (λ b. refl) (λ b. refl))
]

-- Taking a thread off the sleeping ones touches neither queue.
take_curr-Keeps :
    (k g : Kernel) (next curr : Ptr) → Keeps k g → Keeps k (awake (inherit_time g next curr) curr)
take_curr-Keeps k g next curr h = Keeps-trans k g (awake (inherit_time g next curr) curr) h (
    Keeps-trans g (inherit_time g next curr) (awake (inherit_time g next curr) curr)
      (inherit_time-Keeps g next curr) (awake-Keeps (inherit_time g next curr) curr))

unlinked_sleeper-Keeps :
    (k : Kernel) (prev next : Ptr)
    → Keeps k (
        if not (prev == null)
        then at_tcb k prev (λ b. record b { next_sleep = next })
        else record k { sleep_head = next })
unlinked_sleeper-Keeps k prev next = elim (Bool-cases (prev == null)) [
  | inl e ↦ rw e (same_queues k next)
  | inr e ↦ rw e (
      at_tcb-Keeps k prev (λ b. record b { next_sleep = next }) (λ b. refl) (λ b. refl) (λ b. refl)
        (λ b. refl))
]

pub take_sleep-Keeps : (k : Kernel) (t : Ptr) → Keeps k (take_sleep k t).0
unfolding take_sleep
take_sleep-Keeps k t = elim (Bool-cases (k.tcb t).sleeps) [
  | inl e ↦
      let (curr, prev) = find_sleeping (suc k.threads) k t k.sleep_head null in
      elim (Bool-cases (curr == null)) [
        | inl h ↦ rw (e, h) (Keeps-refl k)
        | inr h ↦
            rw (e, h)
              (take_curr-Keeps k _ (k.tcb curr).next_sleep curr
                (unlinked_sleeper-Keeps k prev (k.tcb curr).next_sleep))
      ]
  | inr e ↦ rw e (Keeps-refl k)
]

pub put_ready-KeepsWaiting : (k : Kernel) (t : Ptr) → KeepsWaiting k (put_ready k t)
unfolding put_ready
put_ready-KeepsWaiting k t = record {
  sems = ground arith;
  idles = ground arith;
  bound = ground arith;
  links = λ x. ground arith;
  places = λ x. ground arith;
  tokens = λ x. ground arith;
}

pub get_blocked-KeepsReady : (k : Kernel) (this : Ptr) → KeepsReady k (get_blocked k this).0
unfolding get_blocked unblocked
get_blocked-KeepsReady k this = record {
  head = ground arith;
  tail = ground arith;
  links = λ x. ground arith;
}
