-- ===== src/Threads/Wait.antt =====
-- kSemaphore::wait where it blocks the running thread.
use os1_proj.Prelude.{
  ◌≡◌, ◌≢◌, refl, sym, subst, ◌∙◌, ℕ, true, false, ◌&&◌, List, [], ◌∷◌, ◌++◌, arith, ◌==◌,
  if◌then◌else◌, ap, ◌-◌, ◌<◌, leb,
}
use os1_proj.Threads.{Ptr, null, Kernel, at_sem, get_ready, yield}
use os1_proj.Threads.Blocking.{put_blocked}
use os1_proj.Threads.Sync.{Outcome, resolves, wait}
use os1_proj.Threads.Chains.{member}
use os1_proj.Threads.Ready.{IsQueue}
use os1_proj.Threads.Frames.{KeepsReady, KeepsWaiting}
use os1_proj.Threads.Switch.{Switches, yield-Switches, can_run, enqueue}
use os1_proj.Threads.Waiting.{Waiter, waiter, threads_of, IsWaiting, IsQueue-frame, IsWaiting-frame}
use os1_proj.Threads.Tokens.{at_sem-IsWaiting}
use os1_proj.Threads.Blocks.{put_blocked-IsWaiting}

pub put_blocked-KeepsReady :
    (k : Kernel) (this t : Ptr) (n : ℕ) → KeepsReady k (put_blocked k this t n)
unfolding put_blocked
put_blocked-KeepsReady k this t n = record {
  head = ground arith;
  tail = ground arith;
  links = λ x. ground arith;
}

put_blocked_rest :
    (k : Kernel) (this t : Ptr) (n : ℕ)
    → ((put_blocked k this t n).running ≡ k.running)
      × ((put_blocked k this t n).idle ≡ k.idle)
      × (((put_blocked k this t n).sem this).value ≡ (k.sem this).value)
unfolding put_blocked
put_blocked_rest k this t n = (ground arith, ground arith, ground arith)

pub get_ready-KeepsWaiting : (k : Kernel) → KeepsWaiting k (get_ready k).0
unfolding get_ready
get_ready-KeepsWaiting k = record {
  sems = ground arith;
  idles = ground arith;
  bound = ground arith;
  links = λ x. ground arith;
  places = λ x. ground arith;
  tokens = λ x. ground arith;
}

-- A switch that puts nobody back leaves the semaphores alone.
leave-KeepsWaiting : (k : Kernel) → KeepsWaiting k (yield k false)
unfolding yield
leave-KeepsWaiting k =
    let no : (can_run k && false) ≡ false = ground arith in
    let rest = get_ready-KeepsWaiting k in
    rw no (record {
      sems = rest.sems;
      idles = rest.idles;
      bound = rest.bound;
      links = rest.links;
      places = rest.places;
      tokens = rest.tokens;
    })

leave-Switches :
    (k : Kernel) (xs : List Ptr)
    → member k.running xs ≡ false
    → IsQueue k xs
    → Switches (yield k false) k.idle xs
leave-Switches k xs out q =
    let no : (can_run k && false) ≡ false = ground arith in
    subst (λ b. Switches (yield k false) k.idle (if b then enqueue k.idle k.running xs else xs)) no
      (yield-Switches k false xs out q)

-- What kSemaphore::wait leaves where it blocks.
pub record Waits (k : Kernel) (this : Ptr) (n : ℕ) (ws : List Waiter) (xs : List Ptr)
    (r : Kernel × Outcome) : Type 0 where
  pub outcome : r.1 ≡ resolves
  pub switched : Switches r.0 k.idle xs
  pub waits : IsWaiting r.0 this (ws ++ waiter k.running (n - (k.sem this).value) ∷ [])
  pub value : (r.0.sem this).value ≡ 0

-- If the semaphore is active and has fewer tokens than the running thread asks for, and that thread is
-- neither null nor ready nor waiting there, then `wait` takes the tokens that there are, puts the
-- thread behind those that wait, for the tokens still missing, and runs the next ready thread; what
-- the call returns is resolved when the thread runs again.
pub wait-Waits :
    (k : Kernel) (this : Ptr) (n : ℕ) (ws : List Waiter) (xs : List Ptr)
    → (k.sem this).active ≡ true
    → (k.sem this).value < n
    → k.running ≢ null
    → member k.running (threads_of ws) ≡ false
    → member k.running xs ≡ false
    → IsWaiting k this ws
    → IsQueue k xs
    → Waits k this n ws xs (wait k this n)
unfolding wait
wait-Waits k this n ws xs act few nz apart out q r =
    let k1 = at_sem k this (λ s. record s { value = 0 }) in
    let k2 = put_blocked k1 this k.running (n - (k.sem this).value) in
    let less : leb n (k.sem this).value ≡ false = ground arith in
    let rest = put_blocked_rest k1 this k.running (n - (k.sem this).value) in
    let self : (this == this) ≡ true = ground arith in
    let zeroed : (k1.sem this).value ≡ 0 = rw self refl in
    let kept = leave-KeepsWaiting k2 in
    let ready : IsQueue k2 xs =
      IsQueue-frame k1 k2 xs (put_blocked-KeepsReady k1 this k.running _)
        (IsQueue-frame k k1 xs (record { head = refl; tail = refl; links = λ x. refl }) r) in
    let blocked : IsWaiting k2 this (ws ++ waiter k.running (n - (k.sem this).value) ∷ []) =
      put_blocked-IsWaiting k1 this k.running _ ws nz apart
        (at_sem-IsWaiting k this (λ v. 0) ws q) in
    let gone : Switches (yield k2 false) k.idle xs =
      subst (λ i. Switches (yield k2 false) i xs) rest.1
        (leave-Switches k2 xs (subst (λ z. member z xs ≡ false) (sym rest.0) out) ready) in
    rw (act, less)
      (record {
        outcome = refl;
        switched = gone;
        waits = IsWaiting-frame k2 (yield k2 false) this _ kept blocked;
        value = ap (λ s. (s this).value) kept.sems ∙ (rest.2 ∙ zeroed);
      })
