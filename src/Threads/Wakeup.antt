-- ===== src/Threads/Wakeup.antt =====
-- kSemaphore::signalAll and kSemaphore::close wake everybody; a closed semaphore refuses every call.
use os1_proj.Prelude.{
  ◌≡◌, refl, sym, subst, ◌∙◌, ℕ, Bool, true, false, List, [], ◌∷◌, ◌++◌, arith, ◌==◌, suc, zero,
  ◌≤◌, length, Bool-cases, inl, inr,
}
use os1_proj.Threads.{Ptr, null, Kernel, UnblockManner, on_close, at_sem}
use os1_proj.Threads.Sync.{
  returns, release_first, wait, timed_wait, try_wait, signal, signal_all_loop, signal_all, close,
  err_sem_dead,
}
use os1_proj.Threads.Ready.{IsQueue}
use os1_proj.Threads.Waiting.{Waiter, threads_of, IsWaiting, release_first-Wakes, IsQueue-frame}
use os1_proj.Threads.Tokens.{AllOutside, still-AllOutside, append_nil, append_assoc}

-- Everybody who waited at `this` is ready, behind the queue `xs`.
pub record Empties (k : Kernel) (this : Ptr) (ws : List Waiter) (xs : List Ptr) (g : Kernel)
    : Type 0 where
  pub ready : IsQueue g (xs ++ threads_of ws)
  pub waits : IsWaiting g this []
  pub active : (g.sem this).active ≡ (k.sem this).active

signal_all_loop-Empties :
    (fuel : ℕ) (k : Kernel) (this : Ptr) (how : UnblockManner) (ws : List Waiter) (xs : List Ptr)
    → length ws ≤ fuel
    → AllOutside k.idle xs ws
    → IsWaiting k this ws
    → IsQueue k xs
    → Empties k this ws xs (signal_all_loop fuel k this how)
unfolding signal_all_loop threads_of
signal_all_loop-Empties zero k this how [] xs h o q r = record {
  ready = rw (append_nil xs) r;
  waits = q;
  active = refl;
}
signal_all_loop-Empties (suc fuel) k this how [] xs h o q r =
    rw q.chain (record { ready = rw (append_nil xs) r; waits = q; active = refl })
signal_all_loop-Empties zero k this how (w ∷ ws) xs h o q r = absurd (omega arith)
signal_all_loop-Empties (suc fuel) k this how (w ∷ ws) xs h o q r =
    let some_one : ((k.sem this).blocked_head == null) ≡ false = ground (arith, q.chain) in
    let wakes = release_first-Wakes k this how w ws xs o.0 o.1 q r in
    let rest =
      signal_all_loop-Empties fuel (release_first k this how) this how ws (xs ++ w.thread ∷ [])
        (omega arith)
        (subst (λ i. AllOutside i (xs ++ w.thread ∷ []) ws) (sym wakes.idles)
          (still-AllOutside k.idle w.thread xs ws q.distinct.0 o.2))
        wakes.waits wakes.ready in
    rw some_one (record {
      ready = rw (← append_assoc xs (w.thread ∷ []) (threads_of ws)) rest.ready;
      waits = rest.waits;
      active = rest.active ∙ wakes.active;
    })

-- What kSemaphore::close leaves, and what it returns.
pub record Closes (this : Ptr) (ws : List Waiter) (xs : List Ptr) (r : Kernel × ℕ) : Type 0 where
  pub status : r.1 ≡ 0
  pub ready : IsQueue r.0 (xs ++ threads_of ws)
  pub waits : IsWaiting r.0 this []
  pub inactive : (r.0.sem this).active ≡ false
  pub value : (r.0.sem this).value ≡ 0

-- If the semaphore is active and the threads that wait there are `ws`, neither idle nor ready, then
-- `close` puts all of them at the end of the ready queue, in the order in which they have waited,
-- sets the value to 0, leaves the semaphore inactive, and returns 0.
pub close-Closes :
    (k : Kernel) (this : Ptr) (ws : List Waiter) (xs : List Ptr)
    → (k.sem this).active ≡ true
    → length ws ≤ k.threads
    → AllOutside k.idle xs ws
    → IsWaiting k this ws
    → IsQueue k xs
    → Closes this ws xs (close k this)
unfolding close signal_all
close-Closes k this ws xs act h o q r =
    let out = signal_all_loop-Empties (suc k.threads) k this on_close ws xs (omega arith) o q r in
    let g = signal_all_loop (suc k.threads) k this on_close in
    let self : (this == this) ≡ true = ground arith in
    rw act (record {
      status = refl;
      ready =
          IsQueue-frame g
            (at_sem (at_sem g this (λ s. record s { value = 0 })) this
              (λ s. record s { active = false }))
            _ (record { head = refl; tail = refl; links = λ x. refl }) out.ready;
      waits = record {
        chain = rw self out.waits.chain;
        at_tail = rw self out.waits.at_tail;
        distinct = out.waits.distinct;
        blocked = tt;
      };
      inactive = rw self refl;
      value = rw self refl;
    })

-- What every operation does with a semaphore that is not active.
dead_refused :
    (k : Kernel) (this : Ptr) (n timeout : ℕ) (closing : Bool)
    → (k.sem this).active ≡ false
    → (wait k this n ≡ (k, returns err_sem_dead))
      × (timed_wait k this timeout n ≡ (k, returns err_sem_dead))
      × (try_wait k this n ≡ (k, err_sem_dead))
      × (signal k this n ≡ (k, err_sem_dead))
      × (signal_all k this n closing ≡ (k, err_sem_dead))
      × (close k this ≡ (k, err_sem_dead))
unfolding wait timed_wait try_wait signal signal_all close
dead_refused k this n timeout closing e =
    (rw e refl, rw e refl, rw e refl, rw e refl, rw e refl, rw e refl)

close_active_flag : (k : Kernel) (this : Ptr) → ((close k this).0.sem this).active ≡ false
unfolding close
close_active_flag k this = elim (Bool-cases (k.sem this).active) [
  | inr e ↦ rw e e
  | inl e ↦ let self : (this == this) ≡ true = ground arith in rw (e, self) refl
]

-- Whatever a semaphore was before kSemaphore::close, each operation on it afterwards returns
-- ERR_SEM_DEAD at once and changes nothing, close and the other operations alike.
pub close_refuses :
    (k : Kernel) (this : Ptr) (n timeout : ℕ) (closing : Bool)
    → let g = (close k this).0 in
      (wait g this n ≡ (g, returns err_sem_dead))
      × (timed_wait g this timeout n ≡ (g, returns err_sem_dead))
      × (try_wait g this n ≡ (g, err_sem_dead))
      × (signal g this n ≡ (g, err_sem_dead))
      × (signal_all g this n closing ≡ (g, err_sem_dead))
      × (close g this ≡ (g, err_sem_dead))
close_refuses k this n timeout closing =
    dead_refused (close k this).0 this n timeout closing (close_active_flag k this)
