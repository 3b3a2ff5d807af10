-- ===== src/Threads/Sound/Creation.antt =====
-- TCB::threadCreate and TCB's constructor of src/tcb.cpp, and the places of the threads.
use os1_proj.Prelude.{
  ◌≡◌, ◌≢◌, refl, sym, subst, ◌∙◌, ap, ℕ, Bool, true, false, not, ◌&&◌, List, [], arith, ◌==◌,
  if◌then◌else◌, Bool-cases, inl, inr, ◌+w◌,
}
use os1_proj.Threads.{Ptr, null, Kernel, Tcb, at_tcb, regular}
use os1_proj.Threads.Sound.{View}
use os1_proj.Threads.Sound.Switch.{Sound}
use os1_proj.Threads.Sound.Names.{KeepsNames, KeepsNames-trans, same_threads}
use os1_proj.Threads.Sound.Kept.{close-KeepsNames}
use os1_proj.Threads.Sound.Opening.{
  aside-Sound, same_lists, KeepsThreads, semaphore_create-KeepsThreads, semaphore_create-Sound,
}
use os1_proj.System.{System, with_kernel}
use os1_proj.System.Create.{
  Start, allocate, new_if, stack_bytes, semaphore_create, deallocate, initialise_tcb, is_complete,
  clamp_slice, close_if, close_all, construct_tcb,
}

-- The thread has its semaphores, and nobody waits at them.
pub record HasSemaphores (v : View) (b : Tcb) : Type 0 where
  pub at_join : (b.sem_join ≢ null) × (v.waiting b.sem_join ≡ [])
  pub at_join_all : (b.sem_join_all ≢ null) × (v.waiting b.sem_join_all ≡ [])
  pub at_send : (b.sem_send ≢ null) × (v.waiting b.sem_send ≡ [])
  pub at_receive : (b.sem_receive ≢ null) × (v.waiting b.sem_receive ≡ [])

pub at_self : (k : Kernel) (p : Ptr) (f : Tcb → Tcb) → (at_tcb k p f).tcb p ≡ f (k.tcb p)
at_self k p f = let here : (p == p) ≡ true = ground arith in rw here refl

new_if_kernel : (w : Bool) (s : System) (bytes : ℕ) → (new_if w s bytes).0.kernel ≡ s.kernel
unfolding allocate
new_if_kernel true s bytes = refl
new_if_kernel false s bytes = refl

-- TCB's constructor, when the stacks are there.
abbrev stacked : System → Start → System
stacked s a =
    let s1 = with_kernel s (record s.kernel { next_thread_id = s.kernel.next_thread_id +w 1 }) in
    let s2 = (new_if (not (a.body == null) && (a.user_stack_space == null)) s1 stack_bytes).0 in
    (new_if (not (a.body == null)) s2 stack_bytes).0

numbered : Kernel → Kernel
numbered k = record k { next_thread_id = k.next_thread_id +w 1 }

stacked_kernel : (s : System) (a : Start) → (stacked s a).kernel ≡ numbered s.kernel
unfolding numbered
stacked_kernel s a =
    let s1 = with_kernel s (record s.kernel { next_thread_id = s.kernel.next_thread_id +w 1 }) in
    let w = not (a.body == null) && (a.user_stack_space == null) in
    new_if_kernel (not (a.body == null)) (new_if w s1 stack_bytes).0 stack_bytes
    ∙ new_if_kernel w s1 stack_bytes

-- The system after each of the four calls of kSemaphoreCreate, by the semaphore that it makes.
abbrev after_join : System → Start → System
after_join s a = (semaphore_create (stacked s a) 0).0

abbrev after_join_all : System → Start → System
after_join_all s a = (semaphore_create (after_join s a) 0).0

abbrev after_send : System → Start → System
after_send s a = (semaphore_create (after_join_all s a) 1).0

abbrev pub after_receive : System → Start → System
after_receive s a = (semaphore_create (after_send s a) 0).0

-- The members, from the addresses that the constructor has got.
abbrev pub filled : System → Start → Tcb → Tcb
filled s a old =
    let s1 = with_kernel s (record s.kernel { next_thread_id = s.kernel.next_thread_id +w 1 }) in
    let (s2, user_stack) =
      new_if (not (a.body == null) && (a.user_stack_space == null)) s1 stack_bytes in
    let system_stack = (new_if (not (a.body == null)) s2 stack_bytes).1 in
    record {
      thread_id = s.kernel.next_thread_id;
      mode = a.mode;
      parent = s.kernel.running;
      next_tcb = null;
      system_level_counter = if a.body == null then 1 else 0;
      user_stack = user_stack;
      system_stack = system_stack;
      user_sp =
          if not (a.user_stack_space == null)
          then a.user_stack_space
          else if not (user_stack == null)
          then user_stack +w stack_bytes
          else 0;
      system_sp = if not (system_stack == null) then system_stack +w stack_bytes else 0;
      body = a.body;
      arg = a.arg;
      finished = false;
      exit_status = 0;
      next_ready = null;
      sem_join = (semaphore_create (stacked s a) 0).1;
      sem_join_all = (semaphore_create (after_join s a) 0).1;
      num_of_active_children = 0;
      time_slice = clamp_slice a.time_slice;
      sleeps = false;
      time_sleep_relative = 0;
      next_sleep = null;
      tokens_needed = 0;
      blocked_at_sem = null;
      next_sem_blocked = null;
      unblock_manner = regular;
      sem_send = (semaphore_create (after_join_all s a) 1).1;
      sem_receive = (semaphore_create (after_send s a) 0).1;
      message = old.message;
    }

pub initialised_kernel :
    (s : System) (p : Ptr) (a : Start)
    → (initialise_tcb s p a).kernel ≡ at_tcb (after_receive s a).kernel p (filled s a)
unfolding initialise_tcb
initialised_kernel s p a = refl

stacked-Sound :
    (all : List Ptr) (s : System) (v : View) (a : Start)
    → Sound all s.kernel v
    → Sound all (stacked s a).kernel v
unfolding numbered
stacked-Sound all s v a sound =
    let k = s.kernel in
    let n = k.next_thread_id +w 1 in
    subst (λ g. Sound all g v) (sym (stacked_kernel s a))
      (aside-Sound all k v k.sem k.next_sem_id n k.sems_head k.sems_tail
        (λ x w.
          same_lists k k.sem k.next_sem_id n k.sems_head k.sems_tail x (v.waiting x) refl refl w)
        sound)

pub receive-KeepsThreads :
    (s : System) (a : Start) → KeepsThreads s.kernel (after_receive s a).kernel
unfolding numbered
receive-KeepsThreads s a =
    let e = stacked_kernel s a in
    let k0 : KeepsThreads s.kernel (stacked s a).kernel = record {
      tcb = ap (λ k. k.tcb) e;
      runs = ap (λ k. k.running) e;
      idle = ap (λ k. k.idle) e;
    } in
    let k1 = semaphore_create-KeepsThreads (stacked s a) 0 in
    let k2 = semaphore_create-KeepsThreads (after_join s a) 0 in
    let k3 = semaphore_create-KeepsThreads (after_join_all s a) 1 in
    let k4 = semaphore_create-KeepsThreads (after_send s a) 0 in
    record {
      tcb = k4.tcb ∙ (k3.tcb ∙ (k2.tcb ∙ (k1.tcb ∙ k0.tcb)));
      runs = k4.runs ∙ (k3.runs ∙ (k2.runs ∙ (k1.runs ∙ k0.runs)));
      idle = k4.idle ∙ (k3.idle ∙ (k2.idle ∙ (k1.idle ∙ k0.idle)));
    }

-- The constructor of an object at `p` that gets its semaphores leaves every thread in its place.
pub initialised-Sound :
    (all : List Ptr) (s : System) (v : View) (a : Start) (old : Tcb)
    → HasSemaphores v (filled s a old)
    → Sound all s.kernel v
    → Sound all (after_receive s a).kernel v
initialised-Sound all s v a old has sound =
    let s1 = stacked-Sound all s v a sound in
    let s2 = semaphore_create-Sound all (stacked s a) v 0 has.at_join.0 has.at_join.1 s1 in
    let s3 =
      semaphore_create-Sound all (after_join s a) v 0 has.at_join_all.0 has.at_join_all.1 s2 in
    let s4 = semaphore_create-Sound all (after_join_all s a) v 1 has.at_send.0 has.at_send.1 s3 in
    semaphore_create-Sound all (after_send s a) v 0 has.at_receive.0 has.at_receive.1 s4

close_if-KeepsNames : (k : Kernel) (q : Ptr) → KeepsNames k (close_if k q)
close_if-KeepsNames k q = elim (Bool-cases (q == null)) [
  | inl e ↦ rw e (same_threads k k refl refl)
  | inr e ↦ rw e (close-KeepsNames k q)
]

close_all-KeepsNames : (k : Kernel) (b : Tcb) → KeepsNames k (close_all k b)
unfolding close_all
close_all-KeepsNames k b =
    let k1 = close_if k b.sem_send in
    let k2 = close_if k1 b.sem_receive in
    let k3 = close_if k2 b.sem_join in
    KeepsNames-trans k k1 (close_all k b) (close_if-KeepsNames k b.sem_send) (
      KeepsNames-trans k1 k2 (close_all k b) (close_if-KeepsNames k1 b.sem_receive) (
        KeepsNames-trans k2 k3 (close_all k b) (close_if-KeepsNames k2 b.sem_join)
          (close_if-KeepsNames k3 b.sem_join_all)))

-- An object that is not complete is marked as finished.
pub incomplete_finished :
    (s : System) (p : Ptr) (a : Start)
    → is_complete ((initialise_tcb s p a).kernel.tcb p) ≡ false
    → ((construct_tcb s p a).kernel.tcb p).finished ≡ true
unfolding construct_tcb deallocate
incomplete_finished s p a e =
    let s1 = initialise_tcb s p a in
    let b = s1.kernel.tcb p in
    let s2 = deallocate (deallocate s1 b.user_stack) b.system_stack in
    let f : Tcb → Tcb = λ c. record c { user_stack = null; system_stack = null; finished = true } in
    let k = at_tcb s2.kernel p f in
    rw e ((close_all-KeepsNames k (k.tcb p)).over p (ap (λ t. t.finished) (at_self s2.kernel p f)))
