-- ===== src/Threads/Signal.antt =====
-- kSemaphore::signal against the list of waiting threads.
use os1_proj.Prelude.{
  ◌≡◌, refl, sym, subst, ◌∙◌, ℕ, true, false, ◌&&◌, inl, inr, List, [], ◌∷◌, ◌++◌, arith, ◌==◌,
  Bool-cases, suc, zero, ◌-◌, ◌≤◌, ltb, leb, length, ◌+w◌,
}
use os1_proj.Threads.{Ptr, null, Kernel, regular, at_tcb, at_sem}
use os1_proj.Threads.Sync.{release_first, signal_loop, signal}
use os1_proj.Threads.Ready.{IsQueue}
use os1_proj.Threads.Waiting.{
  Waiter, waiter, threads_of, IsWaiting, release_first-Wakes, IsQueue-frame,
}
use os1_proj.Threads.Tokens.{
  woken, unpaid, spare, AllOutside, Serves, append_nil, append_assoc, pay-IsWaiting, pay-IsQueue,
  signal_loop_none, still-AllOutside, signal_loop_nobody, at_sem-IsWaiting,
}

module _ (fuel n : ℕ) (k : Kernel) (this : Ptr) (w : Waiter) (ws : List Waiter)
    (q : IsWaiting k this (w ∷ ws)) where
  abbrev pub paid : (ℕ → ℕ) → Kernel
  paid f = at_tcb k w.thread (λ b. record b { tokens_needed = f b.tokens_needed })

  pub loop_served :
      (ltb 0 n && leb w.tokens n) ≡ true
      → signal_loop (suc fuel) k this n
        ≡ signal_loop fuel (release_first (paid (λ m. 0)) this regular) this (n - w.tokens)
  unfolding signal_loop threads_of
  loop_served e =
      let a : (w.thread == null) ≡ false = ground (arith, q.chain) in
      let b : ltb 0 n ≡ true = ground arith in
      let c : leb w.tokens n ≡ true = ground arith in rw (q.chain.0, q.blocked.1, a, b, c) refl

  pub loop_paid :
      ltb 0 n ≡ true
      → leb w.tokens n ≡ false
      → signal_loop (suc fuel) k this n ≡ (paid (λ m. m - n), 0)
  unfolding signal_loop threads_of
  loop_paid b c =
      let a : (w.thread == null) ≡ false = ground (arith, q.chain) in
      rw (q.chain.0, q.blocked.1, a, b, c) (signal_loop_none fuel (paid (λ m. m - n)) this)

-- The loop wakes, in their order, the threads whose needs the tokens cover, and pays the next one
-- what is left.
signal_loop-Serves :
    (fuel n : ℕ) (k : Kernel) (this : Ptr) (ws : List Waiter) (xs : List Ptr)
    → length ws ≤ fuel
    → AllOutside k.idle xs ws
    → IsWaiting k this ws
    → IsQueue k xs
    → Serves k this n ws xs (signal_loop fuel k this n)
unfolding woken unpaid spare threads_of
signal_loop-Serves fuel n k this [] xs h o q r =
    rw (signal_loop_nobody fuel n k this q.chain)
      (record { left = refl; ready = rw (append_nil xs) r; waits = q; value = refl; active = refl })
signal_loop-Serves zero n k this (w ∷ ws) xs h o q r = absurd (omega arith)
signal_loop-Serves (suc fuel) n k this (w ∷ ws) xs h o q r =
    elim (Bool-cases (ltb 0 n && leb w.tokens n)) [
      | inl e ↦
          let k1 = at_tcb k w.thread (λ b. record b { tokens_needed = 0 }) in
          let wakes =
            release_first-Wakes k1 this regular (waiter w.thread 0) ws xs o.0 o.1
              (pay-IsWaiting k this w ws (λ m. 0) q) (pay-IsQueue k w.thread (λ m. 0) xs r) in
          let rest =
            signal_loop-Serves fuel (n - w.tokens) (release_first k1 this regular) this ws
              (xs ++ w.thread ∷ []) (omega arith)
              (subst (λ i. AllOutside i (xs ++ w.thread ∷ []) ws) (sym wakes.idles)
                (still-AllOutside k.idle w.thread xs ws q.distinct.0 o.2))
              wakes.waits wakes.ready in
          rw (loop_served fuel n k this w ws q e) (record {
            left = rw e rest.left;
            ready = rw (e, ← append_assoc xs (w.thread ∷ []) (woken (n - w.tokens) ws)) rest.ready;
            waits = rw e rest.waits;
            value = rest.value ∙ wakes.value;
            active = rest.active ∙ wakes.active;
          })
      | inr e ↦ elim (Bool-cases (ltb 0 n)) [
        | inl b ↦
            let c : leb w.tokens n ≡ false = ground arith in
            rw (loop_paid fuel n k this w ws q b c) (record {
              left = rw e refl;
              ready = rw (e, append_nil xs) (pay-IsQueue k w.thread (λ m. m - n) xs r);
              waits = rw e (pay-IsWaiting k this w ws (λ m. m - n) q);
              value = refl;
              active = refl;
            })
        | inr b ↦
            let z : n ≡ 0 = ground arith in
            rw (z, signal_loop_none (suc fuel) k this)
              (record {
                left = refl;
                ready = rw (append_nil xs) r;
                waits = subst (λ m. IsWaiting k this (waiter w.thread m ∷ ws)) (omega arith) q;
                value = refl;
                active = refl;
              })
      ]
    ]

-- What kSemaphore::signal leaves when it is given `n` tokens, and what it returns.
pub record Signals (k : Kernel) (this : Ptr) (n : ℕ) (ws : List Waiter) (xs : List Ptr)
    (r : Kernel × ℕ) : Type 0 where
  pub status : r.1 ≡ 0
  pub ready : IsQueue r.0 (xs ++ woken n ws)
  pub waits : IsWaiting r.0 this (unpaid n ws)
  pub value : (r.0.sem this).value ≡ (k.sem this).value +w spare n ws

-- If the semaphore is active and the threads that wait there are `ws`, neither idle nor ready, then
-- `signal` puts those whose needs the tokens cover at the end of the ready queue, in the order in
-- which they have waited; the next one is paid what is left, and when nobody waits any more the rest
-- is added to the value. It returns 0.
pub signal-Signals :
    (k : Kernel) (this : Ptr) (n : ℕ) (ws : List Waiter) (xs : List Ptr)
    → (k.sem this).active ≡ true
    → length ws ≤ k.threads
    → AllOutside k.idle xs ws
    → IsWaiting k this ws
    → IsQueue k xs
    → Signals k this n ws xs (signal k this n)
unfolding signal
signal-Signals k this n ws xs act h o q r =
    let out = signal_loop-Serves (suc (suc k.threads)) n k this ws xs (omega arith) o q r in
    let (g, left) = signal_loop (suc (suc k.threads)) k this n in
    let self : (this == this) ≡ true = ground arith in
    rw act (record {
      status = refl;
      ready =
          IsQueue-frame g (at_sem g this (λ s. record s { value = s.value +w left })) _
            (record { head = refl; tail = refl; links = λ x. refl }) out.ready;
      waits = at_sem-IsWaiting g this (λ v. v +w left) (unpaid n ws) out.waits;
      value = rw (self, out.value, out.left) refl;
    })
