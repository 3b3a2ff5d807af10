-- ===== src/Threads.antt =====
-- The thread control blocks and semaphores of h/tcb.hpp and h/kSemaphore.hpp with the statics of the
-- kernel, and src/scheduler.cpp.
pub mod Blocking
pub mod Chains
pub mod Ready
pub mod Frames
pub mod Signal
pub mod Tokens
pub mod Blocks
pub mod Switch
pub mod Counts
pub mod Removal
pub mod Open
pub mod Sleeping
pub mod Sound
pub mod Wait
pub mod Wakeup
pub mod Tests
pub mod Waiting
pub mod Calls
pub mod Sync
use os1_proj.Prelude.{ℕ, zero, suc, Bool, true, false, ◌&&◌, ◌||◌, not, ◌==◌, if◌then◌else◌, List}

abbrev pub Ptr : Type 0
Ptr = ℕ

abbrev pub null : Ptr
null = 0

pub data UnblockManner : Type 0 where
  regular on_close wait_timeout : UnblockManner

pub data Mode : Type 0 where
  user system : Mode

-- TCB, less its saved registers. A string stands without the null at its end.
pub record Tcb : Type 0 where
  pub thread_id : ℕ
  pub mode : Mode
  pub parent : Ptr
  pub next_tcb : Ptr
  pub system_level_counter : ℕ
  pub user_stack : Ptr
  pub system_stack : Ptr
  pub user_sp : Ptr
  pub system_sp : Ptr
  pub body : Ptr
  pub arg : ℕ
  pub finished : Bool
  pub exit_status : ℕ
  pub next_ready : Ptr
  pub sem_join : Ptr
  pub sem_join_all : Ptr
  pub num_of_active_children : ℕ
  pub time_slice : ℕ
  pub sleeps : Bool
  pub time_sleep_relative : ℕ
  pub next_sleep : Ptr
  pub tokens_needed : ℕ
  pub blocked_at_sem : Ptr
  pub next_sem_blocked : Ptr
  pub unblock_manner : UnblockManner
  pub sem_send : Ptr
  pub sem_receive : Ptr
  pub message : List ℕ

-- kSemaphore
pub record Semaphore : Type 0 where
  pub sem_id : ℕ
  pub creator : Ptr
  pub next_sem : Ptr
  pub value : ℕ
  pub blocked_head : Ptr
  pub blocked_tail : Ptr
  pub active : Bool

-- The stores of both, and the statics of TCB, kSemaphore, Scheduler and Sleep. `threads` bounds the
-- number of threads, and so the loops over their lists.
pub record Kernel : Type 0 where
  pub tcb : Ptr → Tcb
  pub sem : Ptr → Semaphore
  pub running : Ptr
  pub time_slice_counter : ℕ
  pub ready_head : Ptr
  pub ready_tail : Ptr
  pub idle : Ptr
  pub sleep_head : Ptr
  pub threads : ℕ
  pub tcbs_head : Ptr
  pub tcbs_tail : Ptr
  pub sems_head : Ptr
  pub sems_tail : Ptr
  pub next_thread_id : ℕ
  pub next_sem_id : ℕ

-- A write to a field of the object at `p`.
abbrev pub at_tcb : Kernel → Ptr → (Tcb → Tcb) → Kernel
at_tcb k p f = record k { tcb = λ x. if x == p then f (k.tcb x) else k.tcb x }

abbrev pub at_sem : Kernel → Ptr → (Semaphore → Semaphore) → Kernel
at_sem k p f = record k { sem = λ x. if x == p then f (k.sem x) else k.sem x }

-- Scheduler::put
unfoldable pub put_ready : Kernel → Ptr → Kernel
put_ready k t =
    if (t == null) || (t == k.idle)
    then k
    else (let k1 = at_tcb k t (λ b. record b { next_ready = null }) in
        if k1.ready_tail == null
        then record k1 { ready_head = t; ready_tail = t }
        else record (at_tcb k1 k1.ready_tail (λ b. record b { next_ready = t })) { ready_tail = t })

-- Scheduler::get
unfoldable pub get_ready : Kernel → Kernel × Ptr
get_ready k =
    if not (k.ready_head == null)
    then (let ret = k.ready_head in
        let head = (k.tcb ret).next_ready in
        let k1 = record k {
          ready_head = head;
          ready_tail = if head == null then null else k.ready_tail;
        } in
        (at_tcb k1 ret (λ b. record b { next_ready = null }), ret))
    else (k, k.idle)

-- Scheduler::close
unfoldable pub close_ready : ℕ → Kernel → Kernel
unfolding get_ready
close_ready zero k = k
close_ready (suc fuel) k =
    let rest = close_ready fuel (get_ready k).0 in if k.ready_head == null then k else rest

-- TCB::yield, up to the context switch: the thread that runs next runs from here.
unfoldable pub yield : Kernel → Bool → Kernel
unfolding put_ready get_ready
yield k sch_put =
    let old = k.tcb k.running in
    let k1 =
      if not old.finished && (old.blocked_at_sem == null) && not old.sleeps && sch_put
      then put_ready k k.running
      else k in
    let (k2, next) = get_ready k1 in record k2 { running = next; time_slice_counter = 0 }
