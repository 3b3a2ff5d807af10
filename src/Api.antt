-- ===== src/Api.antt =====
-- The interfaces for programs: src/syscall_c.c, and h/syscall_cpp.hpp with src/syscall_cpp.cpp. An
-- `int` is a number below 2 ^ 32, and the cast to it a remainder.
pub mod Calls
use os1_proj.Prelude.{ℕ, ◌-◌, ◌%◌, ◌^◌, not, ◌==◌, if◌then◌else◌, word}
use os1_proj.Memory.{round_up, block}
use os1_proj.Threads.{Ptr, null}
use os1_proj.System.{Program, done, change, read, and_then}
use os1_proj.System.Trap.{trap}

abbrev pub uint : ℕ
uint = 2 ^ 32

-- `(int)` of a uint64
unfoldable pub to_int : Program → Program
to_int p = and_then p (λ r. done (λ s. r % uint))

-- A class of C++ keeps its fields in an object; `handle_at` is where the handle stands.
pub record Thread : Type 0 where
  pub this : Ptr
  pub handle_at : Ptr
  pub body : Ptr
  pub arg : ℕ

-- ERR_THREAD_STARTED, as an int
abbrev pub err_thread_started : ℕ
err_thread_started = uint - 2

-- `cause` and `pc` are what the processor puts into scause and sepc when it meets `ecall`.
module _ (cause pc : ℕ) where
  -- `syscall`: the arguments are in the registers a0 to a4.
  unfoldable pub syscall : (a0 a1 a2 a3 a4 : ℕ) → Program
  syscall a0 a1 a2 a3 a4 =
      change
        (λ s. record s {
          registers = record s.registers { scause = cause; sepc = pc; a0 = a0; a1 = a1 };
        })
        (trap 0 a0 a1 a2 a3 a4)

  unfoldable pub mem_alloc : (size : ℕ) → Program
  unfolding syscall round_up
  mem_alloc size = syscall 0x01 (round_up size block) 0 0 0

  unfoldable pub mem_free : Ptr → Program
  unfolding syscall to_int
  mem_free p = if p == null then done (λ s. 0) else to_int (syscall 0x02 p 0 0 0)

  unfoldable pub thread_create : (handle start_routine : Ptr) → (arg : ℕ) → Program
  unfolding syscall to_int
  thread_create handle start_routine arg = to_int (syscall 0x11 handle start_routine arg 0)

  unfoldable pub thread_exit : Program
  unfolding syscall to_int
  thread_exit = to_int (syscall 0x12 0 0 0 0)

  unfoldable pub thread_dispatch : Program
  unfolding syscall
  thread_dispatch = syscall 0x13 0 0 0 0

  unfoldable pub thread_join : (handle : Ptr) → Program
  unfolding syscall to_int
  thread_join handle = to_int (syscall 0x14 handle 0 0 0)

  unfoldable pub thread_timedjoin : (handle : Ptr) → (timeout : ℕ) → Program
  unfolding syscall to_int
  thread_timedjoin handle timeout = to_int (syscall 0x15 handle timeout 0 0)

  unfoldable pub thread_joinall : Program
  unfolding syscall
  thread_joinall = syscall 0x16 0 0 0 0

  unfoldable pub thread_timedjoinall : (timeout : ℕ) → Program
  unfolding syscall to_int
  thread_timedjoinall timeout = to_int (syscall 0x17 timeout 0 0 0)

  unfoldable pub sem_open : (handle : Ptr) → (init : ℕ) → Program
  unfolding syscall to_int
  sem_open handle init = to_int (syscall 0x21 handle init 0 0)

  unfoldable pub sem_close : (handle : Ptr) → Program
  unfolding syscall to_int
  sem_close handle = to_int (syscall 0x22 handle 0 0 0)

  unfoldable pub sem_wait : (id : Ptr) → Program
  unfolding syscall to_int
  sem_wait id = to_int (syscall 0x23 id 0 0 0)

  unfoldable pub sem_signal : (id : Ptr) → Program
  unfolding syscall to_int
  sem_signal id = to_int (syscall 0x24 id 0 0 0)

  unfoldable pub sem_timedwait : (id : Ptr) → (timeout : ℕ) → Program
  unfolding syscall to_int
  sem_timedwait id timeout = to_int (syscall 0x25 id timeout 0 0)

  unfoldable pub sem_trywait : (id : Ptr) → Program
  unfolding syscall to_int
  sem_trywait id = to_int (syscall 0x26 id 0 0 0)

  unfoldable pub time_sleep : (timeout : ℕ) → Program
  unfolding syscall to_int
  time_sleep timeout = to_int (syscall 0x31 timeout 0 0 0)

  -- `char` is unsigned.
  unfoldable pub getc : Program
  unfolding syscall
  getc = and_then (syscall 0x41 0 0 0 0) (λ r. done (λ s. r % 256))

  unfoldable pub putc : (c : ℕ) → Program
  unfolding syscall
  putc c = syscall 0x42 c 0 0 0

  unfoldable pub send : (handle message : Ptr) → Program
  unfolding syscall
  send handle message = syscall 0x51 handle message 0 0

  unfoldable pub receive : Program
  unfolding syscall
  receive = syscall 0x52 0 0 0 0

  -- Thread::start
  unfoldable pub start : (run_wrapper : Ptr) → Thread → Program
  unfolding thread_create
  start run_wrapper t =
      read (λ s. s.words t.handle_at)
        (λ my_handle.
          if not (my_handle == null)
          then done (λ s. err_thread_started)
          else if not (t.body == null)
          then thread_create t.handle_at t.body t.arg
          else thread_create t.handle_at run_wrapper t.this)

  -- The other methods of Thread, Semaphore and Console pass the handle on.
  unfoldable pub join : Thread → Program
  unfolding thread_join
  join t = read (λ s. s.words t.handle_at) (λ my_handle. thread_join my_handle)

  unfoldable pub timed_join : Thread → (timeout : ℕ) → Program
  unfolding thread_timedjoin
  timed_join t timeout =
      read (λ s. s.words t.handle_at) (λ my_handle. thread_timedjoin my_handle timeout)

  unfoldable pub send_to : Thread → (message : Ptr) → Program
  unfolding send
  send_to t message = read (λ s. s.words t.handle_at) (λ my_handle. send my_handle message)

  -- Semaphore's constructor, destructor and methods; `at` is where its handle stands.
  unfoldable pub open_semaphore : (at : Ptr) → (init : ℕ) → Program
  unfolding sem_open
  open_semaphore at init = sem_open at (init % uint)

  unfoldable pub close_semaphore : (at : Ptr) → Program
  unfolding sem_close
  close_semaphore at = read (λ s. s.words at) (λ my_handle. sem_close my_handle)

  unfoldable pub wait_semaphore : (at : Ptr) → Program
  unfolding sem_wait
  wait_semaphore at = read (λ s. s.words at) (λ my_handle. sem_wait my_handle)

  unfoldable pub signal_semaphore : (at : Ptr) → Program
  unfolding sem_signal
  signal_semaphore at = read (λ s. s.words at) (λ my_handle. sem_signal my_handle)

  unfoldable pub timed_wait_semaphore : (at : Ptr) → (timeout : ℕ) → Program
  unfolding sem_timedwait
  timed_wait_semaphore at timeout =
      read (λ s. s.words at) (λ my_handle. sem_timedwait my_handle timeout)

  unfoldable pub try_wait_semaphore : (at : Ptr) → Program
  unfolding sem_trywait
  try_wait_semaphore at = read (λ s. s.words at) (λ my_handle. sem_trywait my_handle)

  -- One round of PeriodicThread::run: nothing once the period is `stop`.
  unfoldable pub run_round : (period : ℕ) → (periodic_activation : Program) → Program
  unfolding time_sleep
  run_round period periodic_activation =
      if period == word - 1
      then done (λ s. 0)
      else and_then periodic_activation (λ r. time_sleep period)
