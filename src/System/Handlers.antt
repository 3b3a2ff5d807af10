-- ===== src/System/Handlers.antt =====
-- The handlers of src/kernel.cpp on the whole state, and the table `irr` of Kernel::init.
use os1_proj.Prelude.{
  ℕ, zero, suc, ◌-◌, ◌%◌, Bool, true, ◌||◌, Option, none, some, List, [], ◌∷◌, ◌==◌, if◌then◌else◌,
  word, ◌+w◌,
}
use os1_proj.Memory.Manager.{Owner, mem_alloc, mem_free}
use os1_proj.Threads.{Ptr, null, Mode, Kernel, at_tcb}
use os1_proj.Threads.Sync.{Outcome, timed_wait}
use os1_proj.Threads.Calls.{
  handle_thread_exit, handle_thread_dispatch, handle_join, handle_timed_join, handle_join_all,
  handle_sem_close, handle_sem_wait, handle_sem_signal, handle_sem_timed_wait, handle_sem_try_wait,
  handle_time_sleep,
}
use os1_proj.System.{System, Program, done, change, read, wait_at, call, with_kernel}
use os1_proj.System.Create.{semaphore_create, thread_create, default_time_slice}
use os1_proj.System.Console.{k_put, k_get, signal_at}

-- A handler that no switch interrupts.
unfoldable pub at_once : (System → System × ℕ) → Program
at_once f = read (λ s. (f s).1) (λ r. change (λ s. (f s).0) (done (λ s. r)))

-- A handler whose value is that of the call on the threads.
unfoldable pub on_threads : (Kernel → Kernel × Outcome) → Program
on_threads f = call f (λ r. done (λ s. r))

-- Kernel::handleMemAlloc
unfoldable pub handle_mem_alloc : (size : ℕ) → System → System × ℕ
handle_mem_alloc size s =
    let (m, p) = mem_alloc s.memory Owner.user size in (record s { memory = m }, p)

-- Kernel::handleMemFree
unfoldable pub handle_mem_free : (p : Ptr) → System → System × ℕ
handle_mem_free p s = let (m, r) = mem_free s.memory Owner.user p in (record s { memory = m }, r)

abbrev pub write_word : System → (at value : Ptr) → System
write_word s at value = record s { words = λ x. if x == at then value else s.words x }

-- ERR_THREAD_CREATE and ERR_SEM_CREATE, as uint64
abbrev pub err_thread_create : ℕ
err_thread_create = word - 1

abbrev pub err_sem_create : ℕ
err_sem_create = word - 3

-- Kernel::handleThreadCreate
unfoldable pub handle_thread_create :
    (p_handle start_routine : Ptr) → (arg : ℕ) → (stack_space : Ptr) → System → System × ℕ
handle_thread_create p_handle start_routine arg stack_space s =
    let (s1, tcb) =
      thread_create s
        (record {
          body = start_routine;
          arg = arg;
          mode = Mode.user;
          user_stack_space = stack_space;
          time_slice = default_time_slice;
        })
        true in
    (write_word s1 p_handle tcb, if tcb == null then err_thread_create else 0)

-- Kernel::handletimedJoinAll
unfoldable pub handle_timed_join_all : (timeout : ℕ) → Program
handle_timed_join_all timeout =
    call
      (λ k.
        timed_wait k (k.tcb k.running).sem_join_all timeout
          (k.tcb k.running).num_of_active_children)
      (λ r. done (λ s. (s.kernel.tcb s.kernel.running).num_of_active_children))

-- Kernel::handleSemOpen
unfoldable pub handle_sem_open : (p_handle : Ptr) → (init : ℕ) → System → System × ℕ
handle_sem_open p_handle init s =
    let (s1, sem) = semaphore_create s init in
    (write_word s1 p_handle sem, if sem == null then err_sem_create else 0)

-- Kernel::handleGetc
unfoldable pub handle_getc : Program
unfolding k_get
handle_getc = read (λ s. s.input_buffer) (λ b. k_get b)

-- Kernel::handlePutc
unfoldable pub handle_putc : (c : ℕ) → Program
unfolding k_put
handle_putc c = read (λ s. s.output_buffer) (λ b. k_put b (c % 256))

-- TCB::msgLen
abbrev pub msg_len : ℕ
msg_len = 256

unfoldable pub first_chars : ℕ → List ℕ → List ℕ
first_chars zero cs = []
first_chars (suc n) [] = []
first_chars (suc n) (c ∷ cs) = c ∷ first_chars n cs

-- TCB::setMsg
unfoldable pub set_msg : Kernel → (tcb : Ptr) → List ℕ → Kernel
unfolding first_chars
set_msg k tcb msg = at_tcb k tcb (λ b. record b { message = first_chars msg_len msg })

-- Kernel::handleSend. The sender's string is read when the wait is over.
unfoldable pub handle_send : (handle msg : Ptr) → Program
unfolding set_msg signal_at
handle_send handle msg =
    read (λ s. s.kernel.running)
      (λ me.
        if handle == me
        then done (λ s. 0)
        else wait_at (λ s. (s.kernel.tcb handle).sem_send) 1
            (change (λ s. with_kernel s (set_msg s.kernel handle (s.strings msg)))
              (change (λ s. signal_at s (s.kernel.tcb handle).sem_receive) (done (λ s. 0)))))

-- Kernel::handleReceive, which returns the address of the running thread's own message.
unfoldable pub handle_receive : Program
unfolding signal_at
handle_receive =
    wait_at (λ s. (s.kernel.tcb s.kernel.running).sem_receive) 1
      (change (λ s. signal_at s (s.kernel.tcb s.kernel.running).sem_send)
        (done (λ s. s.kernel.running +w s.build.offset_message)))

-- `irr`, as Kernel::init fills it; the numbers are those of h/syscall_c.h.
unfoldable pub irr : (a0 a1 a2 a3 a4 : ℕ) → Option Program
irr a0 a1 a2 a3 a4 =
    if a0 == 0x01
    then some (at_once (handle_mem_alloc a1))
    else if a0 == 0x02
    then some (at_once (handle_mem_free a1))
    else if a0 == 0x11
    then some (at_once (handle_thread_create a1 a2 a3 a4))
    else if a0 == 0x12
    then some (on_threads handle_thread_exit)
    else if a0 == 0x13
    then some (on_threads handle_thread_dispatch)
    else if a0 == 0x14
    then some (on_threads (λ k. handle_join k a1))
    else if a0 == 0x15
    then some (on_threads (λ k. handle_timed_join k a1 a2))
    else if a0 == 0x16
    then some (on_threads handle_join_all)
    else if a0 == 0x17
    then some (handle_timed_join_all a1)
    else if a0 == 0x21
    then some (at_once (handle_sem_open a1 a2))
    else if a0 == 0x22
    then some (on_threads (λ k. handle_sem_close k a1))
    else if a0 == 0x23
    then some (on_threads (λ k. handle_sem_wait k a1))
    else if a0 == 0x24
    then some (on_threads (λ k. handle_sem_signal k a1))
    else if a0 == 0x25
    then some (on_threads (λ k. handle_sem_timed_wait k a1 a2))
    else if a0 == 0x26
    then some (on_threads (λ k. handle_sem_try_wait k a1))
    else if a0 == 0x31
    then some (on_threads (λ k. handle_time_sleep k a1))
    else if a0 == 0x41
    then some handle_getc
    else if a0 == 0x42
    then some (handle_putc a1)
    else if a0 == 0x51
    then some (handle_send a1 a2)
    else if a0 == 0x52
    then some handle_receive
    else none

-- RET_VOID
unfoldable pub ret_void : ℕ → Bool
ret_void n = (n == 0x13) || (n == 0x16) || (n == 0x42) || (n == 0x51)
