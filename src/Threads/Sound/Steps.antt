-- ===== src/Threads/Sound/Steps.antt =====
-- What the threads of a kernel do, one call or interrupt after another.
use os1_proj.Prelude.{
  ◌≡◌, ◌≢◌, refl, ℕ, ◌<◌, word, true, List, [], ◌∷◌, sym, subst, arith, ◌==◌, Bool-cases, inl, inr,
}
use os1_proj.Threads.{Ptr, null, Kernel}
use os1_proj.Threads.Chains.{member}
use os1_proj.Threads.Sync.{timer, wait, timed_wait, try_wait, signal, close}
use os1_proj.Threads.Calls.{
  finish, handle_thread_dispatch, handle_join, handle_timed_join, handle_join_all,
  handle_time_sleep,
}
use os1_proj.Threads.Sound.Switch.{IsValid}
use os1_proj.Threads.Sound.Signal.{Releases-IsValid, close-Releases}
use os1_proj.Threads.Sound.Pay.{signal-Releases}
use os1_proj.Threads.Sound.Wait.{wait-IsValid, try_wait-IsValid, running_alive}
use os1_proj.Threads.Sound.Timed.{sleep-IsValid, timed_wait-IsValid}
use os1_proj.Threads.Sound.Timer.{timer-IsValid, yield-IsValid}
use os1_proj.Threads.Sound.Names.{KeepsNames, same_threads}
use os1_proj.Threads.Sound.Kept.{
  close-KeepsNames, signal-KeepsNames, sleep-KeepsNames, timer-KeepsNames, yield-KeepsNames,
}
use os1_proj.Threads.Sound.Owners.{
  IsLawful, Owns-kept, running_known, wait-KeepsNames, timed_wait-KeepsNames, try_wait-KeepsNames,
}
use os1_proj.Threads.Sound.Exit.{finish-IsValid, finish-KeepsNames}
use os1_proj.Threads.Sound.Opening.{
  NobodyAt, NobodyAt-empty, semaphore_create-KeepsThreads, semaphore_create-Sound,
}
use os1_proj.Threads.Sound.Admission.{IsNew, thread_create-Born}
use os1_proj.System.{System}
use os1_proj.System.Create.{Start, thread_create, semaphore_create}

-- One call of the thread that runs, or one tick of the clock: what it leads to, and the threads that
-- there are then. The empty function of the idle thread makes no call, but TCB::threadWrapper ends
-- it like any other one, so it may exit, and it does not block. A semaphore is never null, a thread
-- that is joined is one of `all`, and a timeout is below 2 ^ 64. thread_create and sem_open are served
-- from a state whose kernel this is; they get the memory that they ask for, no thread waits at an
-- address that is given to a new semaphore, and a new thread has a body and an object of its own.
-- timed_join_all, send, receive and the calls of the console are not among the steps.
pub data Step (all : List Ptr) (k : Kernel) : List Ptr → Kernel → Type 0 where
  by_timer : Step all k all (timer k)
  by_dispatch : Step all k all (handle_thread_dispatch k).0
  by_create :
      (s : System) (a : Start)
      → s.kernel ≡ k
      → a.body ≢ null
      → (thread_create s a true).1 ≢ null
      → IsNew all k
          (thread_create s a true).1
          ((thread_create s a true).0.kernel.tcb (thread_create s a true).1)
      → Step all k ((thread_create s a true).1 ∷ all) (thread_create s a true).0.kernel
  by_open :
      (s : System) (value : ℕ)
      → s.kernel ≡ k
      → (semaphore_create s value).1 ≢ null
      → NobodyAt all k (semaphore_create s value).1
      → Step all k all (semaphore_create s value).0.kernel
  by_exit : (status : ℕ) → Step all k all (finish k status)
  by_join :
      (t : Ptr) → k.running ≢ k.idle → member t all ≡ true → Step all k all (handle_join k t).0
  by_timed_join :
      (t : Ptr) (timeout : ℕ)
      → k.running ≢ k.idle
      → member t all ≡ true
      → timeout < word
      → Step all k all (handle_timed_join k t timeout).0
  by_join_all : k.running ≢ k.idle → Step all k all (handle_join_all k).0
  by_wait : (s : Ptr) (n : ℕ) → k.running ≢ k.idle → s ≢ null → Step all k all (wait k s n).0
  by_timed_wait :
      (s : Ptr) (timeout n : ℕ)
      → k.running ≢ k.idle
      → s ≢ null
      → timeout < word
      → Step all k all (timed_wait k s timeout n).0
  by_try_wait : (s : Ptr) (n : ℕ) → Step all k all (try_wait k s n).0
  by_signal : (s : Ptr) (n : ℕ) → s ≢ null → Step all k all (signal k s n).0
  by_close : (s : Ptr) → s ≢ null → Step all k all (close k s).0
  by_sleep :
      (timeout : ℕ)
      → k.running ≢ k.idle
      → timeout < word
      → Step all k all (handle_time_sleep k timeout).0

pub data Steps (all : List Ptr) (k : Kernel) : List Ptr → Kernel → Type 0 where
  no_step : Steps all k all k
  one_more :
      {more most : List Ptr} {g i : Kernel}
      → Steps all k more g
      → Step more g most i
      → Steps all k most i

-- A step of a lawful kernel.
pub record Keeps (all : List Ptr) (k g : Kernel) : Type 0 where
  pub valid : IsValid all g
  pub names : KeepsNames k g

same : (all : List Ptr) (k : Kernel) → IsLawful all k → Keeps all k k
same all k h = record { valid = h.valid; names = same_threads k k refl refl }

wait-Keeps :
    (all : List Ptr) (k : Kernel) (s n : ℕ)
    → s ≢ null
    → k.running ≢ k.idle
    → IsLawful all k
    → Keeps all k (wait k s n).0
wait-Keeps all k s n ns ni h = record {
  valid = wait-IsValid all k s n ns ni h.valid;
  names = wait-KeepsNames k s n;
}

timed_wait-Keeps :
    (all : List Ptr) (k : Kernel) (s d n : ℕ)
    → s ≢ null
    → k.running ≢ k.idle
    → d < word
    → IsLawful all k
    → Keeps all k (timed_wait k s d n).0
timed_wait-Keeps all k s d n ns ni b h = record {
  valid = timed_wait-IsValid all k s d n ns ni b h.valid;
  names = timed_wait-KeepsNames k s d n;
}

join-Keeps :
    (all : List Ptr) (k : Kernel) (t : Ptr)
    → k.running ≢ k.idle
    → member t all ≡ true
    → IsLawful all k
    → Keeps all k (handle_join k t).0
unfolding handle_join
join-Keeps all k t ni i h = elim (Bool-cases (t == k.running)) [
  | inl e ↦ rw e (same all k h)
  | inr e ↦ elim (Bool-cases (k.tcb t).finished) [
    | inl f ↦ rw (e, f) (same all k h)
    | inr f ↦ rw (e, f) (wait-Keeps all k (k.tcb t).sem_join 1 (h.owns t i).for_join ni h)
  ]
]

timed_join-Keeps :
    (all : List Ptr) (k : Kernel) (t : Ptr) (d : ℕ)
    → k.running ≢ k.idle
    → member t all ≡ true
    → d < word
    → IsLawful all k
    → Keeps all k (handle_timed_join k t d).0
unfolding handle_timed_join
timed_join-Keeps all k t d ni i b h = elim (Bool-cases (t == k.running)) [
  | inl e ↦ rw e (same all k h)
  | inr e ↦ elim (Bool-cases (k.tcb t).finished) [
    | inl f ↦ rw (e, f) (same all k h)
    | inr f ↦ rw (e, f) (timed_wait-Keeps all k (k.tcb t).sem_join d 1 (h.owns t i).for_join ni b h)
  ]
]

-- What a step keeps: a lawful kernel, the threads that there were, and the end of each that has ended.
pub record Goes (all : List Ptr) (k : Kernel) (more : List Ptr) (g : Kernel) : Type 0 where
  pub lawful : IsLawful more g
  pub known : (x : Ptr) → member x all ≡ true → member x more ≡ true
  pub over : (x : Ptr) → member x all ≡ true → (k.tcb x).finished ≡ true → (g.tcb x).finished ≡ true
  pub idle : g.idle ≡ k.idle

Keeps-Goes : (all : List Ptr) (k g : Kernel) → IsLawful all k → Keeps all k g → Goes all k all g
Keeps-Goes all k g h c = record {
  lawful = record {
    valid = c.valid;
    owns = λ x i. Owns-kept all k g x c.names (h.owns x i);
    idles = rw c.names.idle h.idles;
  };
  known = λ x i. i;
  over = λ x _. c.names.over x;
  idle = c.names.idle;
}

create-Goes :
    (all : List Ptr) (s : System) (a : Start)
    → IsLawful all s.kernel
    → a.body ≢ null
    → let (s', p) = thread_create s a true in
      p ≢ null → IsNew all s.kernel p (s'.kernel.tcb p) → Goes all s.kernel (p ∷ all) s'.kernel
unfolding member
create-Goes all s a h some nz new =
    let b = thread_create-Born all s a h some nz new in
    record {
      lawful = record {
        valid = record { lists = _; sound = b.sound };
        owns = b.owns;
        idles =
            subst (λ i. member i ((thread_create s a true).1 ∷ all) ≡ true) (sym b.idle)
              (ground (arith, h.idles));
      };
      known = λ x i. ground (arith, i);
      over = b.over;
      idle = b.idle;
    }

open-Keeps :
    (all : List Ptr) (s : System) (value : ℕ)
    → IsLawful all s.kernel
    → let (s', p) = semaphore_create s value in
      p ≢ null → NobodyAt all s.kernel p → Keeps all s.kernel s'.kernel
open-Keeps all s value h nz nobody =
    let (s', p) = semaphore_create s value in
    let v = h.valid.lists in
    let kept = semaphore_create-KeepsThreads s value in
    let none =
      NobodyAt-empty all s.kernel v (s.kernel.running ∷ []) p nz nobody h.valid.sound.linked in
    record {
      valid = record {
        lists = v;
        sound = semaphore_create-Sound all s v value nz none h.valid.sound;
      };
      names = same_threads s.kernel s'.kernel kept.tcb kept.idle;
    }

pub Step-Goes :
    (all more : List Ptr) (k g : Kernel) → IsLawful all k → Step all k more g → Goes all k more g
unfolding handle_thread_dispatch handle_join_all handle_time_sleep
Step-Goes all more k g h by_timer =
    Keeps-Goes all k _ h
      (record { valid = timer-IsValid all k h.valid; names = timer-KeepsNames k })
Step-Goes all more k g h by_dispatch =
    Keeps-Goes all k _ h
      (record { valid = yield-IsValid all k h.valid; names = yield-KeepsNames k true })
Step-Goes all more k g h (by_exit status) = Keeps-Goes all k _ h (
    let known = running_known all k h in
    record {
      valid = finish-IsValid all k status known h.owns h.valid;
      names = finish-KeepsNames all k status known h.owns h.valid;
    })
Step-Goes all more k g h (by_join t ni i) = Keeps-Goes all k _ h (join-Keeps all k t ni i h)
Step-Goes all more k g h (by_timed_join t d ni i b) =
    Keeps-Goes all k _ h (timed_join-Keeps all k t d ni i b h)
Step-Goes all more k g h (by_join_all ni) = Keeps-Goes all k _ h (
    let live = running_alive all k h.valid.lists ni h.valid.sound in
    wait-Keeps all k (k.tcb k.running).sem_join_all (k.tcb k.running).num_of_active_children
      (h.owns k.running (ground (arith, live))).for_join_all ni h)
Step-Goes all more k g h (by_wait s n ni ns) = Keeps-Goes all k _ h (wait-Keeps all k s n ns ni h)
Step-Goes all more k g h (by_timed_wait s d n ni ns b) =
    Keeps-Goes all k _ h (timed_wait-Keeps all k s d n ns ni b h)
Step-Goes all more k g h (by_try_wait s n) =
    Keeps-Goes all k _ h
      (record { valid = try_wait-IsValid all k s n h.valid; names = try_wait-KeepsNames k s n })
Step-Goes all more k g h (by_signal s n ns) = Keeps-Goes all k _ h (
    let v = h.valid in
    record {
      valid =
          Releases-IsValid all k (signal k s n).0 v.lists v.sound
            (signal-Releases all k v.lists _ s n ns v.sound.left v.sound.linked);
      names = signal-KeepsNames k s n;
    })
Step-Goes all more k g h (by_close s ns) = Keeps-Goes all k _ h (
    let v = h.valid in
    record {
      valid =
          Releases-IsValid all k (close k s).0 v.lists v.sound
            (close-Releases all k v.lists _ s ns v.sound.left v.sound.linked);
      names = close-KeepsNames k s;
    })
Step-Goes all more k g h (by_sleep d ni b) =
    Keeps-Goes all k _ h
      (record { valid = sleep-IsValid all k d ni b h.valid; names = sleep-KeepsNames k d })
Step-Goes all more k g h (by_create s a e some nz new) =
    subst
      (λ z.
        IsLawful all z
        → IsNew all z (thread_create s a true).1
            ((thread_create s a true).0.kernel.tcb (thread_create s a true).1)
        → Goes all z ((thread_create s a true).1 ∷ all) (thread_create s a true).0.kernel)
      e (λ lawful fresh. create-Goes all s a lawful some nz fresh) h new
Step-Goes all more k g h (by_open s value e nz nobody) = Keeps-Goes all k _ h (
    subst
      (λ z.
        IsLawful all z
        → NobodyAt all z (semaphore_create s value).1
        → Keeps all z (semaphore_create s value).0.kernel)
      e (λ lawful none. open-Keeps all s value lawful nz none) h nobody)
