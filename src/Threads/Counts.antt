-- ===== src/Threads/Counts.antt =====
-- kSemaphore::getBlockedCount and kSemaphore::getTokensNeeded, and TCB::numOfJoining.
use os1_proj.Prelude.{
  ℕ, zero, suc, ◌+◌, ◌≤◌, ◌<◌, ◌≡◌, false, List, [], ◌∷◌, arith, ◌==◌, if◌then◌else◌, length, word,
  ◌+w◌, ◌∙◌,
}
use os1_proj.Threads.{Ptr, null, Kernel}
use os1_proj.Threads.Chains.{Chain}
use os1_proj.Threads.Waiting.{Waiter, threads_of, AllBlocked, IsWaiting}

-- The loop of getBlockedCount, from the count `ret` on.
unfoldable pub blocked_loop : ℕ → Kernel → (it : Ptr) → (ret : ℕ) → ℕ
blocked_loop zero k it ret = ret
blocked_loop (suc fuel) k it ret =
    let rest = blocked_loop fuel k (k.tcb it).next_sem_blocked (ret +w 1) in
    if it == null then ret else rest

unfoldable pub get_blocked_count : Kernel → (this : Ptr) → ℕ
unfolding blocked_loop
get_blocked_count k this = blocked_loop (suc k.threads) k (k.sem this).blocked_head 0

-- The loop of getTokensNeeded, from the sum `ret` on.
unfoldable pub tokens_loop : ℕ → Kernel → (it : Ptr) → (ret : ℕ) → ℕ
tokens_loop zero k it ret = ret
tokens_loop (suc fuel) k it ret =
    let rest = tokens_loop fuel k (k.tcb it).next_sem_blocked (ret +w (k.tcb it).tokens_needed) in
    if it == null then ret else rest

unfoldable pub get_tokens_needed : Kernel → (this : Ptr) → ℕ
unfolding tokens_loop
get_tokens_needed k this = tokens_loop (suc k.threads) k (k.sem this).blocked_head 0

-- TCB::numOfJoining
unfoldable pub num_of_joining : Kernel → (t : Ptr) → ℕ
unfolding get_blocked_count
num_of_joining k t = get_blocked_count k (k.tcb t).sem_join

-- The tokens that the waiting threads still need, together.
unfoldable pub needed : List Waiter → ℕ
needed [] = 0
needed (w ∷ ws) = w.tokens + needed ws

blocked_loop-length :
    (fuel : ℕ) (k : Kernel) (it ret : ℕ) (ws : List Waiter)
    → Chain (λ x. (k.tcb x).next_sem_blocked) it (threads_of ws)
    → length ws ≤ fuel
    → ret + length ws < word
    → blocked_loop fuel k it ret ≡ ret + length ws
unfolding blocked_loop threads_of
blocked_loop-length zero k it ret [] c f b = omega arith
blocked_loop-length (suc fuel) k it ret [] c f b = rw c (omega arith)
blocked_loop-length zero k it ret (w ∷ ws) c f b = absurd (omega arith)
blocked_loop-length (suc fuel) k it ret (w ∷ ws) c f b =
    let some_one : (w.thread == null) ≡ false = ground (arith, c) in
    let exact : ret +w 1 ≡ ret + 1 = omega arith in
    rw (c.0, some_one, exact)
      (blocked_loop-length fuel k (k.tcb w.thread).next_sem_blocked (ret + 1) ws c.2 (omega arith)
          (omega arith)
        ∙ omega arith)

tokens_loop-needed :
    (fuel : ℕ) (k : Kernel) (this it ret : ℕ) (ws : List Waiter)
    → Chain (λ x. (k.tcb x).next_sem_blocked) it (threads_of ws)
    → AllBlocked k.tcb this ws
    → length ws ≤ fuel
    → ret + needed ws < word
    → tokens_loop fuel k it ret ≡ ret + needed ws
unfolding tokens_loop threads_of needed
tokens_loop-needed zero k this it ret [] c a f b = omega arith
tokens_loop-needed (suc fuel) k this it ret [] c a f b = rw c (omega arith)
tokens_loop-needed zero k this it ret (w ∷ ws) c a f b = absurd (omega arith)
tokens_loop-needed (suc fuel) k this it ret (w ∷ ws) c a f b =
    let some_one : (w.thread == null) ≡ false = ground (arith, c) in
    let exact : ret +w w.tokens ≡ ret + w.tokens = omega arith in
    rw (c.0, some_one, a.1, exact)
      (tokens_loop-needed fuel k this (k.tcb w.thread).next_sem_blocked (ret + w.tokens) ws c.2 a.2
          (omega arith) (omega arith)
        ∙ omega arith)

-- If the threads that wait at a semaphore are `ws`, no more than there are threads, then
-- getBlockedCount is their number, and getTokensNeeded the sum of the tokens that they need, as
-- long as that sum and the number of threads are below 2 ^ 64.
pub counts_waiting :
    (k : Kernel) (this : Ptr) (ws : List Waiter)
    → IsWaiting k this ws
    → length ws ≤ k.threads
    → k.threads < word
    → needed ws < word
    → (get_blocked_count k this ≡ length ws) × (get_tokens_needed k this ≡ needed ws)
unfolding get_blocked_count get_tokens_needed
counts_waiting k this ws q f b n = (
  blocked_loop-length (suc k.threads) k (k.sem this).blocked_head 0 ws q.chain (omega arith)
        (omega arith)
      ∙ omega arith,
  tokens_loop-needed (suc k.threads) k this (k.sem this).blocked_head 0 ws q.chain q.blocked
        (omega arith) (omega arith)
      ∙ omega arith,
)
