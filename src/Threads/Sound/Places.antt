-- ===== src/Threads/Sound/Places.antt =====
-- The lists of a kernel whose threads are in their places: how long they are, and which of them a write
-- to one semaphore leaves alone.
use os1_proj.Prelude.{
  ◌≡◌, ◌≢◌, refl, ◌∙◌, ap, suc, ◌≤◌, true, List, [], ◌∷◌, arith, ◌==◌, length, Bool-cases, inl, inr,
  ==_iff,
}
use os1_proj.Threads.{Ptr, null, Kernel, Tcb}
use os1_proj.Threads.Chains.{member, last, last-member, Distinct, Chain-frame}
use os1_proj.Threads.Waiting.{Waiter, threads_of, IsWaiting, AllBlocked, AllBlocked-frame}
use os1_proj.Threads.Removal.{without}
use os1_proj.Threads.Sound.{View, now_waiting, alive, Linked}

pub all_blocked :
    (tcb : Ptr → Tcb) (this : Ptr) (ws : List Waiter) (x : Ptr)
    → AllBlocked tcb this ws
    → member x (threads_of ws) ≡ true
    → (tcb x).blocked_at_sem ≡ this
unfolding threads_of member
all_blocked tcb this [] x a i = absurd (ground (arith, i))
all_blocked tcb this (w ∷ ws) x a i = elim (Bool-cases (x == w.thread)) [
  | inl e ↦ rw ((==_iff x w.thread).0 e) a.0
  | inr e ↦ all_blocked tcb this ws x a.2 (ground (arith, i, e))
]

member_remains :
    (y t : Ptr) (xs : List Ptr) → y ≢ t → member y xs ≡ true → member y (without t xs) ≡ true
unfolding member without
member_remains y t [] n i = i
member_remains y t (x ∷ xs) n i = ground (arith, n, i, member_remains y t xs n)

length-without :
    (t : Ptr) (xs : List Ptr) → member t xs ≡ true → suc (length (without t xs)) ≡ length xs
unfolding member without
length-without t [] i = absurd (ground (arith, i))
length-without t (x ∷ xs) i = elim (Bool-cases (x == t)) [
  | inl e ↦ rw e refl
  | inr e ↦ rw e (ap suc (length-without t xs (ground (arith, i, e))))
]

-- A list without repetition is no longer than one that holds its members.
pub length-Distinct :
    (xs all : List Ptr)
    → Distinct xs
    → ((x : Ptr) → member x xs ≡ true → member x all ≡ true)
    → length xs ≤ length all
unfolding member
length-Distinct [] all d i = omega arith
length-Distinct (x ∷ xs) all d i =
    let rest =
      length-Distinct xs (without x all) d.1 (λ y j.
        member_remains y x all (λ e. ground (arith, e, j, d.0)) (i y (ground (arith, j)))) in
    omega (arith, rest, length-without x all (i x (ground arith)))

pub Linked-length :
    (all : List Ptr) (k : Kernel) (v : View) (h xs : List Ptr)
    → Distinct xs
    → ((x : Ptr) → member x xs ≡ true → alive all k x ≡ true)
    → Linked all k v h
    → length xs ≤ k.threads
Linked-length all k v h xs d live l =
    let fits = length-Distinct xs all d (λ x i. ground (arith, live x i)) in
    omega (arith, fits, l.room)

-- Another semaphore keeps its threads, if no thread that waits there is touched.
pub IsWaiting-apart :
    (k g : Kernel) (s : Ptr) (ws : List Waiter)
    → (g.sem s).blocked_head ≡ (k.sem s).blocked_head
    → (g.sem s).blocked_tail ≡ (k.sem s).blocked_tail
    → ((y : Ptr)
        → (k.tcb y).blocked_at_sem ≡ s
        → ((g.tcb y).next_sem_blocked ≡ (k.tcb y).next_sem_blocked)
          × ((g.tcb y).blocked_at_sem ≡ (k.tcb y).blocked_at_sem)
          × ((g.tcb y).tokens_needed ≡ (k.tcb y).tokens_needed))
    → IsWaiting k s ws
    → IsWaiting g s ws
IsWaiting-apart k g s ws h t same q =
    let here : (y : Ptr) → member y (threads_of ws) ≡ true → (k.tcb y).blocked_at_sem ≡ s =
      λ y i. all_blocked k.tcb s ws y q.blocked i in
    record {
      chain = rw h (
          Chain-frame (λ x. (k.tcb x).next_sem_blocked) (λ x. (g.tcb x).next_sem_blocked)
            (k.sem s).blocked_head (threads_of ws) (λ x i. (same x (here x i)).0) q.chain);
      at_tail = t ∙ q.at_tail;
      distinct = q.distinct;
      blocked =
          AllBlocked-frame k.tcb g.tcb s ws (λ x i. (same x (here x i)).1)
            (λ x i. (same x (here x i)).2) q.blocked;
    }

-- Where the threads that wait at one semaphore change, and not whether `x` is among them.
pub same_waiting :
    (v : View) (this b x : Ptr) (ws : List Waiter)
    → member x (threads_of ws) ≡ member x (threads_of (v.waiting this))
    → member x (threads_of ((now_waiting v this ws).waiting b))
      ≡ member x (threads_of (v.waiting b))
same_waiting v this b x ws e = elim (Bool-cases (b == this)) [
  | inl h ↦ rw (h, (==_iff b this).0 h) e
  | inr h ↦ rw h refl
]

-- The last thread that waits at a semaphore is marked as waiting there.
pub tail_blocked :
    (k : Kernel) (s : Ptr) (ws : List Waiter)
    → IsWaiting k s ws
    → (k.sem s).blocked_head ≢ null
    → (k.tcb (k.sem s).blocked_tail).blocked_at_sem ≡ s
unfolding threads_of last member
tail_blocked k s [] q n = absurd (n q.chain)
tail_blocked k s (w ∷ ws) q n =
    all_blocked k.tcb s (w ∷ ws) (k.sem s).blocked_tail q.blocked
      (ground (arith, q.at_tail, last-member w.thread (threads_of ws)))
