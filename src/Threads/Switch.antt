-- ===== src/Threads/Switch.antt =====
-- TCB::yield of src/tcb.cpp against round robin on the list of ready threads.
use os1_proj.Prelude.{
  ◌≡◌, refl, subst, Bool, true, false, ◌&&◌, ◌||◌, not, inl, inr, List, [], ◌∷◌, ◌++◌, arith, ◌==◌,
  if◌then◌else◌, Bool-cases,
}
use os1_proj.Threads.{Ptr, null, Kernel, put_ready, get_ready, yield}
use os1_proj.Threads.Chains.{member}
use os1_proj.Threads.Ready.{IsQueue, put_ready-IsQueue, get_ready-IsQueue}

-- The queue after a thread is put into it: neither null nor the idle thread ever waits.
unfoldable pub enqueue : (idle t : Ptr) → List Ptr → List Ptr
enqueue idle t xs = if (t == null) || (t == idle) then xs else xs ++ t ∷ []

-- The thread that runs next, and those that still wait then.
unfoldable pub chosen : (idle : Ptr) → List Ptr → Ptr
chosen idle [] = idle
chosen idle (x ∷ xs) = x

unfoldable pub others : List Ptr → List Ptr
others [] = []
others (x ∷ xs) = xs

-- Whether the running thread could go on, and the queue when it has been put back.
abbrev pub can_run : Kernel → Bool
can_run k =
    not (k.tcb k.running).finished
    && ((k.tcb k.running).blocked_at_sem == null)
    && not (k.tcb k.running).sleeps

put_ready_ignored :
    (k : Kernel) (t : Ptr) → ((t == null) || (t == k.idle)) ≡ true → put_ready k t ≡ k
unfolding put_ready
put_ready_ignored k t e = rw e refl

pub put_ready-enqueue :
    (k : Kernel) (t : Ptr) (xs : List Ptr)
    → member t xs ≡ false
    → IsQueue k xs
    → IsQueue (put_ready k t) (enqueue k.idle t xs)
unfolding enqueue
put_ready-enqueue k t xs out q = elim (Bool-cases ((t == null) || (t == k.idle))) [
  | inl e ↦ rw (put_ready_ignored k t e, e) q
  | inr e ↦ rw e (put_ready-IsQueue k t xs (λ h. ground (arith, h)) (λ h. ground (arith, h)) out q)
]

put_ready-idle : (k : Kernel) (t : Ptr) → (put_ready k t).idle ≡ k.idle
unfolding put_ready
put_ready-idle k t = ground arith

-- What a switch to the first thread of the queue `xs` leaves.
pub record Switches (k : Kernel) (idle : Ptr) (xs : List Ptr) : Type 0 where
  pub runs : k.running ≡ chosen idle xs
  pub waits : IsQueue k (others xs)
  pub fresh : k.time_slice_counter ≡ 0

abbrev dispatched : Kernel × Ptr → Kernel
dispatched (k, t) = record k { running = t; time_slice_counter = 0 }

dispatched-IsQueue :
    (k : Kernel) (t : Ptr) (xs : List Ptr) → IsQueue k xs → IsQueue (dispatched (k, t)) xs
dispatched-IsQueue k t xs q = record { chain = q.chain; at_tail = q.at_tail; distinct = q.distinct }

get_ready-Switches :
    (k : Kernel) (xs : List Ptr) → IsQueue k xs → Switches (dispatched (get_ready k)) k.idle xs
unfolding chosen others
get_ready-Switches k [] q =
    rw (get_ready-IsQueue k [] q)
      (record { runs = refl; waits = dispatched-IsQueue k k.idle [] q; fresh = refl })
get_ready-Switches k (x ∷ xs) q =
    let out = get_ready-IsQueue k (x ∷ xs) q in
    record {
      runs = out.0;
      waits = dispatched-IsQueue (get_ready k).0 (get_ready k).1 xs out.1;
      fresh = refl;
    }

put_ready-Switches :
    (k : Kernel) (t : Ptr) (xs : List Ptr)
    → member t xs ≡ false
    → IsQueue k xs
    → Switches (dispatched (get_ready (put_ready k t))) k.idle (enqueue k.idle t xs)
put_ready-Switches k t xs out q =
    subst (λ i. Switches (dispatched (get_ready (put_ready k t))) i (enqueue k.idle t xs))
      (put_ready-idle k t)
      (get_ready-Switches (put_ready k t) (enqueue k.idle t xs) (put_ready-enqueue k t xs out q))

-- If the ready queue is `xs` and the running thread is not in it, then a switch puts the running
-- thread at its end, provided that it may be put there, has not finished, is not blocked and does
-- not sleep; the first of the queue runs next, with a new time slice, or the idle thread if there is
-- none, and the others wait on in their order.
pub yield-Switches :
    (k : Kernel) (put : Bool) (xs : List Ptr)
    → member k.running xs ≡ false
    → IsQueue k xs
    → Switches (yield k put) k.idle (if can_run k && put then enqueue k.idle k.running xs else xs)
unfolding yield
yield-Switches k put xs out q = elim (Bool-cases (can_run k && put)) [
  | inl e ↦ rw e (put_ready-Switches k k.running xs out q)
  | inr e ↦ rw e (get_ready-Switches k xs q)
]
