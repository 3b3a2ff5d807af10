-- ===== src/Threads/Tokens.antt =====
-- What tokens do to a list of waiting threads, for kSemaphore::signal.
use os1_proj.Prelude.{
  ◌≡◌, ◌≢◌, refl, ℕ, true, false, ◌&&◌, List, [], ◌∷◌, ◌++◌, arith, ◌==◌, if◌then◌else◌, ap, suc,
  zero, ◌-◌, ltb, leb,
}
use os1_proj.Threads.{Ptr, null, Kernel, at_tcb, at_sem}
use os1_proj.Threads.Sync.{signal_loop}
use os1_proj.Threads.Chains.{member, Chain-frame, member-append_one}
use os1_proj.Threads.Ready.{IsQueue}
use os1_proj.Threads.Waiting.{
  Waiter, waiter, threads_of, IsWaiting, IsQueue-frame, AllBlocked-frame,
}

-- The threads that `n` tokens wake, in order.
unfoldable pub woken : ℕ → List Waiter → List Ptr
woken n [] = []
woken n (w ∷ ws) =
    let rest = woken (n - w.tokens) ws in if ltb 0 n && leb w.tokens n then w.thread ∷ rest else []

-- Those that wait on; the first of them may have been paid a part of what it needs.
unfoldable pub unpaid : ℕ → List Waiter → List Waiter
unpaid n [] = []
unpaid n (w ∷ ws) =
    let rest = unpaid (n - w.tokens) ws in
    if ltb 0 n && leb w.tokens n then rest else waiter w.thread (w.tokens - n) ∷ ws

-- The tokens that nobody needed.
unfoldable pub spare : ℕ → List Waiter → ℕ
spare n [] = n
spare n (w ∷ ws) =
    let rest = spare (n - w.tokens) ws in if ltb 0 n && leb w.tokens n then rest else 0

-- No thread of the list is the idle one, or stands in the queue `xs`.
abbrev pub AllOutside : (idle : Ptr) (xs : List Ptr) → List Waiter → Type 0
AllOutside idle xs [] = Unit {0}
AllOutside idle xs (w ∷ ws) =
    (w.thread ≢ idle) × (member w.thread xs ≡ false) × AllOutside idle xs ws

-- What the loop of kSemaphore::signal leaves when it is given `n` tokens.
pub record Serves (k : Kernel) (this : Ptr) (n : ℕ) (ws : List Waiter) (xs : List Ptr)
    (r : Kernel × ℕ) : Type 0 where
  pub left : r.1 ≡ spare n ws
  pub ready : IsQueue r.0 (xs ++ woken n ws)
  pub waits : IsWaiting r.0 this (unpaid n ws)
  pub value : (r.0.sem this).value ≡ (k.sem this).value
  pub active : (r.0.sem this).active ≡ (k.sem this).active

pub append_nil : (xs : List Ptr) → xs ++ [] ≡ xs
append_nil [] = refl
append_nil (x ∷ xs) = ap (λ z. x ∷ z) (append_nil xs)

pub append_assoc : (xs ys zs : List Ptr) → (xs ++ ys) ++ zs ≡ xs ++ (ys ++ zs)
append_assoc [] ys zs = refl
append_assoc (x ∷ xs) ys zs = ap (λ z. x ∷ z) (append_assoc xs ys zs)

-- A change of what the first waiting thread needs, and no other.
pub pay-IsWaiting :
    (k : Kernel) (this : Ptr) (w : Waiter) (ws : List Waiter) (f : ℕ → ℕ)
    → IsWaiting k this (w ∷ ws)
    → IsWaiting
        (at_tcb k w.thread (λ b. record b { tokens_needed = f b.tokens_needed }))
        this
        (waiter w.thread (f w.tokens) ∷ ws)
unfolding threads_of
pay-IsWaiting k this w ws f q =
    let self : (w.thread == w.thread) ≡ true = ground arith in
    record {
      chain =
          Chain-frame (λ y. (k.tcb y).next_sem_blocked) _ (k.sem this).blocked_head
            (threads_of (w ∷ ws)) (λ y i. ground arith) q.chain;
      at_tail = q.at_tail;
      distinct = q.distinct;
      blocked = (
        rw self q.blocked.0,
        rw self (ap f q.blocked.1),
        AllBlocked-frame k.tcb
            (at_tcb k w.thread (λ b. record b { tokens_needed = f b.tokens_needed })).tcb this ws
            (λ y i. ground arith) (λ y i. ground (arith, q.distinct)) q.blocked.2,
      );
    }

pub pay-IsQueue :
    (k : Kernel) (t : Ptr) (f : ℕ → ℕ) (xs : List Ptr)
    → IsQueue k xs
    → IsQueue (at_tcb k t (λ b. record b { tokens_needed = f b.tokens_needed })) xs
pay-IsQueue k t f xs q =
    IsQueue-frame k (at_tcb k t (λ b. record b { tokens_needed = f b.tokens_needed })) xs
      (record { head = refl; tail = refl; links = λ x. ground arith }) q

-- Nobody is woken for no tokens.
pub signal_loop_none : (fuel : ℕ) (k : Kernel) (this : Ptr) → signal_loop fuel k this 0 ≡ (k, 0)
unfolding signal_loop
signal_loop_none zero k this = refl
signal_loop_none (suc fuel) k this = ground arith

pub signal_loop_nobody :
    (fuel n : ℕ) (k : Kernel) (this : Ptr)
    → (k.sem this).blocked_head ≡ null
    → signal_loop fuel k this n ≡ (k, n)
unfolding signal_loop
signal_loop_nobody zero n k this e = refl
signal_loop_nobody (suc fuel) n k this e = rw e refl

pub still-AllOutside :
    (idle t : Ptr) (xs : List Ptr) (ws : List Waiter)
    → member t (threads_of ws) ≡ false
    → AllOutside idle xs ws
    → AllOutside idle (xs ++ t ∷ []) ws
unfolding member threads_of
still-AllOutside idle t xs [] out o = tt
still-AllOutside idle t xs (w ∷ ws) out o = (
  o.0,
  ground (arith, member-append_one w.thread t xs, o.1),
  still-AllOutside idle t xs ws (ground arith) o.2,
)

pub at_sem-IsWaiting :
    (k : Kernel) (this : Ptr) (f : ℕ → ℕ) (ws : List Waiter)
    → IsWaiting k this ws
    → IsWaiting (at_sem k this (λ s. record s { value = f s.value })) this ws
at_sem-IsWaiting k this f ws q =
    let self : (this == this) ≡ true = ground arith in
    record {
      chain = rw self q.chain;
      at_tail = rw self q.at_tail;
      distinct = q.distinct;
      blocked = q.blocked;
    }
