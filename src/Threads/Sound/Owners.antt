-- ===== src/Threads/Sound/Owners.antt =====
-- The semaphores and the parent of each thread, in kSemaphore::wait and kSemaphore::timedWait.
use os1_proj.Prelude.{
  ◌≡◌, ◌≢◌, refl, ℕ, true, false, List, Bool-cases, inl, inr, leb, ◌-◌, ==_iff, arith, ◌==◌,
}
use os1_proj.Threads.{Ptr, null, Kernel, regular, at_sem}
use os1_proj.Threads.Blocking.{put_blocked}
use os1_proj.Threads.Chains.{member}
use os1_proj.Threads.Sync.{set_manner, wait, timed_wait, try_wait}
use os1_proj.Threads.Sound.Switch.{IsValid}
use os1_proj.Threads.Sound.Names.{
  KeepsNames, KeepsNames-trans, same_threads, put_blocked-KeepsNames, set_manner-KeepsNames,
}
use os1_proj.Threads.Sound.Kept.{sleep-KeepsNames, yield-KeepsNames}

-- The semaphores of the thread exist, and its parent, if it has one, is one of the threads.
pub record Owns (all : List Ptr) (k : Kernel) (x : Ptr) : Type 0 where
  pub for_send : (k.tcb x).sem_send ≢ null
  pub for_receive : (k.tcb x).sem_receive ≢ null
  pub for_join : (k.tcb x).sem_join ≢ null
  pub for_join_all : (k.tcb x).sem_join_all ≢ null
  pub parent : (k.tcb x).parent ≢ null → member (k.tcb x).parent all ≡ true

pub Owns-kept :
    (all : List Ptr) (k g : Kernel) (x : Ptr) → KeepsNames k g → Owns all k x → Owns all g x
Owns-kept all k g x n o = record {
  for_send = rw (n.for_send x) o.for_send;
  for_receive = rw (n.for_receive x) o.for_receive;
  for_join = rw (n.for_join x) o.for_join;
  for_join_all = rw (n.for_join_all x) o.for_join_all;
  parent = rw (n.parent x) o.parent;
}

-- Every thread is in its place, and has its four semaphores, and a parent that is one of `all` or
-- none, and the idle thread is one of `all`.
pub record IsLawful (all : List Ptr) (k : Kernel) : Type 0 where
  pub valid : IsValid all k
  pub owns : (x : Ptr) → member x all ≡ true → Owns all k x
  pub idles : member k.idle all ≡ true

-- The thread that runs is one of `all`.
pub running_known : (all : List Ptr) (k : Kernel) → IsLawful all k → member k.running all ≡ true
running_known all k h = elim (Bool-cases (k.running == k.idle)) [
  | inl e ↦ rw ((==_iff k.running k.idle).0 e) h.idles
  | inr e ↦ ground (arith, h.valid.sound.runs, e)
]

-- What wait, timedWait and tryWait do where there are tokens.
paid-KeepsNames :
    (k : Kernel) (this n : ℕ)
    → KeepsNames k
        (set_manner (at_sem k this (λ s. record s { value = s.value - n })) k.running regular)
paid-KeepsNames k this n =
    let g = at_sem k this (λ s. record s { value = s.value - n }) in
    KeepsNames-trans k g _ (same_threads k g refl refl) (set_manner-KeepsNames g k.running regular)

blocked-KeepsNames :
    (k : Kernel) (this t n : ℕ)
    → KeepsNames k (put_blocked (at_sem k this (λ s. record s { value = 0 })) this t n)
blocked-KeepsNames k this t n =
    let g = at_sem k this (λ s. record s { value = 0 }) in
    KeepsNames-trans k g _ (same_threads k g refl refl) (put_blocked-KeepsNames g this t n)

pub wait-KeepsNames : (k : Kernel) (this n : ℕ) → KeepsNames k (wait k this n).0
unfolding wait
wait-KeepsNames k this n = elim (Bool-cases (k.sem this).active) [
  | inr e ↦ rw e (same_threads k k refl refl)
  | inl e ↦ elim (Bool-cases (leb n (k.sem this).value)) [
    | inl m ↦ rw (e, m) (paid-KeepsNames k this n)
    | inr m ↦
        let few = n - (k.sem this).value in
        let g = put_blocked (at_sem k this (λ s. record s { value = 0 })) this k.running few in
        rw (e, m)
          (KeepsNames-trans k g _ (blocked-KeepsNames k this k.running few)
            (yield-KeepsNames g false))
  ]
]

pub timed_wait-KeepsNames : (k : Kernel) (this d n : ℕ) → KeepsNames k (timed_wait k this d n).0
unfolding timed_wait
timed_wait-KeepsNames k this d n = elim (Bool-cases (k.sem this).active) [
  | inr e ↦ rw e (same_threads k k refl refl)
  | inl e ↦ elim (Bool-cases (leb n (k.sem this).value)) [
    | inl m ↦ rw (e, m) (paid-KeepsNames k this n)
    | inr m ↦
        let few = n - (k.sem this).value in
        let g = put_blocked (at_sem k this (λ s. record s { value = 0 })) this k.running few in
        rw (e, m)
          (KeepsNames-trans k g _ (blocked-KeepsNames k this k.running few) (sleep-KeepsNames g d))
  ]
]

pub try_wait-KeepsNames : (k : Kernel) (this n : ℕ) → KeepsNames k (try_wait k this n).0
unfolding try_wait
try_wait-KeepsNames k this n = elim (Bool-cases (k.sem this).active) [
  | inr e ↦ rw e (same_threads k k refl refl)
  | inl e ↦ elim (Bool-cases (leb n (k.sem this).value)) [
    | inl m ↦ rw (e, m) (paid-KeepsNames k this n)
    | inr m ↦ rw (e, m) (set_manner-KeepsNames k k.running regular)
  ]
]
