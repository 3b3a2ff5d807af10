-- ===== src/Threads/Blocks.antt =====
-- kSemaphore::put and kSemaphore::wait against the list of waiting threads.
use os1_proj.Prelude.{◌≡◌, ◌≢◌, refl, sym, ◌∙◌, ℕ, false, List, [], ◌∷◌, ◌++◌, arith, ap}
use os1_proj.Threads.{Ptr, null, Kernel, Tcb}
use os1_proj.Threads.Blocking.{put_blocked}
use os1_proj.Threads.Chains.{
  member, last, last-member, Chain, Distinct-append_one, last-append_one, Chain-append_one,
}
use os1_proj.Threads.Waiting.{Waiter, waiter, threads_of, IsWaiting, AllBlocked, AllBlocked-frame}

pub threads_of-append_one :
    (ws : List Waiter) (w : Waiter) → threads_of (ws ++ w ∷ []) ≡ threads_of ws ++ w.thread ∷ []
unfolding threads_of
threads_of-append_one [] w = refl
threads_of-append_one (v ∷ ws) w = ap (λ z. v.thread ∷ z) (threads_of-append_one ws w)

AllBlocked-append_one :
    (tcb : Ptr → Tcb) (this : Ptr) (ws : List Waiter) (w : Waiter)
    → AllBlocked tcb this ws
    → (tcb w.thread).blocked_at_sem ≡ this
    → (tcb w.thread).tokens_needed ≡ w.tokens
    → AllBlocked tcb this (ws ++ w ∷ [])
AllBlocked-append_one tcb this [] w b p n = (p, n, tt)
AllBlocked-append_one tcb this (v ∷ ws) w b p n =
    (b.0, b.1, AllBlocked-append_one tcb this ws w b.2 p n)

put_blocked-blocked :
    (k : Kernel) (this t : Ptr) (n : ℕ) (ws : List Waiter)
    → t ≢ null
    → member t (threads_of ws) ≡ false
    → AllBlocked k.tcb this ws
    → AllBlocked (put_blocked k this t n).tcb this (ws ++ waiter t n ∷ [])
unfolding put_blocked
put_blocked-blocked k this t n ws nz out b =
    AllBlocked-append_one (put_blocked k this t n).tcb this ws (waiter t n)
      (AllBlocked-frame k.tcb (put_blocked k this t n).tcb this ws (λ x i. ground arith)
        (λ x i. ground arith) b)
      (ground arith) (ground arith)

module _ (k : Kernel) (this t : Ptr) (n : ℕ) (nz : t ≢ null) where
  new_link : ((put_blocked k this t n).tcb t).next_sem_blocked ≡ null
  unfolding put_blocked
  new_link = ground arith

  first_head :
      (k.sem this).blocked_head ≡ null → ((put_blocked k this t n).sem this).blocked_head ≡ t
  unfolding put_blocked
  first_head e = ground arith

  module _ (some_one : (k.sem this).blocked_head ≢ null) where
    same_head : ((put_blocked k this t n).sem this).blocked_head ≡ (k.sem this).blocked_head
    unfolding put_blocked
    same_head = ground arith

    tail_link :
        t ≢ (k.sem this).blocked_tail
        → ((put_blocked k this t n).tcb (k.sem this).blocked_tail).next_sem_blocked ≡ t
    unfolding put_blocked
    tail_link ne = ground arith

    other_link :
        (y : Ptr)
        → y ≢ (k.sem this).blocked_tail
        → y ≢ t
        → ((put_blocked k this t n).tcb y).next_sem_blocked ≡ (k.tcb y).next_sem_blocked
    unfolding put_blocked
    other_link y ne ne' = ground arith

put_blocked-Chain :
    (k : Kernel) (this t : Ptr) (n : ℕ) (ws : List Waiter)
    → t ≢ null
    → member t (threads_of ws) ≡ false
    → IsWaiting k this ws
    → Chain
        (λ x. ((put_blocked k this t n).tcb x).next_sem_blocked)
        ((put_blocked k this t n).sem this).blocked_head
        (threads_of ws ++ t ∷ [])
unfolding threads_of member last
put_blocked-Chain k this t n [] nz out q =
    (first_head k this t n nz q.chain, nz, new_link k this t n nz)
put_blocked-Chain k this t n (w ∷ ws) nz out q =
    let tail = last w.thread (threads_of ws) in
    let out_tail : t ≢ tail = ground (arith, last-member w.thread (threads_of ws)) in
    let some_one : (k.sem this).blocked_head ≢ null = λ e. q.chain.1 (sym q.chain.0 ∙ e) in
    let put = put_blocked k this t n in
    rw (same_head k this t n nz some_one) (
      Chain-append_one (λ y. (k.tcb y).next_sem_blocked) (λ y. (put.tcb y).next_sem_blocked)
        (k.sem this).blocked_head w.thread t (threads_of ws) nz q.distinct q.chain
        (rw (← q.at_tail) (tail_link k this t n nz some_one (λ e. out_tail (e ∙ q.at_tail))))
        (new_link k this t n nz)
        (λ y i ne.
          other_link k this t n nz some_one y (λ e. ne (e ∙ q.at_tail)) (λ e. ground (arith, i))))

put_blocked-tail :
    (k : Kernel) (this t : Ptr) (n : ℕ)
    → t ≢ null
    → ((put_blocked k this t n).sem this).blocked_tail ≡ t
unfolding put_blocked
put_blocked-tail k this t n nz = ground arith

-- If the threads that wait at a semaphore are `ws`, then a thread that is put there, neither null nor
-- in `ws`, waits behind them for the tokens that it needs.
pub put_blocked-IsWaiting :
    (k : Kernel) (this t : Ptr) (n : ℕ) (ws : List Waiter)
    → t ≢ null
    → member t (threads_of ws) ≡ false
    → IsWaiting k this ws
    → IsWaiting (put_blocked k this t n) this (ws ++ waiter t n ∷ [])
put_blocked-IsWaiting k this t n ws nz out q = record {
  chain = rw (threads_of-append_one ws (waiter t n)) (put_blocked-Chain k this t n ws nz out q);
  at_tail =
      put_blocked-tail k this t n nz
      ∙ sym (
          ap (last null) (threads_of-append_one ws (waiter t n))
          ∙ last-append_one null t (threads_of ws));
  distinct =
      rw (threads_of-append_one ws (waiter t n))
        (Distinct-append_one t (threads_of ws) out q.distinct);
  blocked = put_blocked-blocked k this t n ws nz out q.blocked;
}
