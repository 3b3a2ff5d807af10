-- ===== src/System/Create.antt =====
-- How objects come and go: kSemaphoreCreate and kSemaphoreDeleteAll of src/kSemaphore.cpp, and the
-- constructor and destructor of TCB, threadCreate and threadDeleteAll of src/tcb.cpp.
use os1_proj.Prelude.{
  ℕ, zero, suc, ◌*◌, Bool, true, false, ◌&&◌, ◌||◌, not, ltb, ◌==◌, if◌then◌else◌, ◌+w◌,
}
use os1_proj.Memory.Manager.{Owner, mem_alloc_byte, mem_free}
use os1_proj.Threads.{Ptr, null, Mode, regular, Tcb, Kernel, at_tcb, at_sem, put_ready}
use os1_proj.Threads.Sync.{close}
use os1_proj.System.{System, with_kernel}

-- The kernel's operators new and delete.
unfoldable pub allocate : System → (bytes : ℕ) → System × Ptr
allocate s bytes =
    let (m, p) = mem_alloc_byte s.memory Owner.system bytes in (record s { memory = m }, p)

unfoldable pub deallocate : System → Ptr → System
deallocate s p = if p == null then s else record s { memory = (mem_free s.memory Owner.system p).0 }

-- kSemaphore's constructor
unfoldable pub construct_semaphore : Kernel → Ptr → (val : ℕ) → Kernel
construct_semaphore k p val =
    record (at_sem k p (λ _. record {
      sem_id = k.next_sem_id;
      creator = k.running;
      next_sem = null;
      value = val;
      blocked_head = null;
      blocked_tail = null;
      active = true;
    })) { next_sem_id = k.next_sem_id +w 1 }

-- The new semaphore goes to the end of the list of all semaphores.
unfoldable pub link_semaphore : Kernel → Ptr → Kernel
link_semaphore k p =
    if k.sems_tail == null
    then record k { sems_head = p; sems_tail = p }
    else record (at_sem k k.sems_tail (λ a. record a { next_sem = p })) { sems_tail = p }

-- kSemaphore::kSemaphoreCreate
unfoldable pub semaphore_create : System → (val : ℕ) → System × Ptr
unfolding allocate construct_semaphore link_semaphore
semaphore_create s val =
    let (s1, p) = allocate s s.build.sizeof_semaphore in
    let k = construct_semaphore s1.kernel p val in
    if p == null then (with_kernel s1 k, null) else (with_kernel s1 (link_semaphore k p), p)

-- The loop of kSemaphore::kSemaphoreDeleteAll.
unfoldable pub semaphore_delete_all : ℕ → System → System
unfolding deallocate
semaphore_delete_all zero s = s
semaphore_delete_all (suc fuel) s =
    let del = s.kernel.sems_head in
    let head = (s.kernel.sem del).next_sem in
    let k = record s.kernel {
      sems_head = head;
      sems_tail = if head == null then null else s.kernel.sems_tail;
    } in
    let k1 = if (k.sem del).active then (close k del).0 else k in
    let rest = semaphore_delete_all fuel (deallocate (with_kernel s k1) del) in
    if del == null then s else rest

-- DEFAULT_STACK_SIZE fields of eight bytes
abbrev pub stack_bytes : ℕ
stack_bytes = 4096 * 8

abbrev pub default_time_slice : ℕ
default_time_slice = 2

abbrev pub max_time_slice : ℕ
max_time_slice = 32 * default_time_slice

unfoldable pub clamp_slice : ℕ → ℕ
clamp_slice n = if n == 0 then 1 else if ltb max_time_slice n then max_time_slice else n

-- What TCB's constructor is given.
pub record Start : Type 0 where
  pub body : Ptr
  pub arg : ℕ
  pub mode : Mode
  pub user_stack_space : Ptr
  pub time_slice : ℕ

abbrev pub new_if : Bool → System → (bytes : ℕ) → System × Ptr
new_if wanted s bytes = if wanted then allocate s bytes else (s, null)

-- The constructor's list of members: the stacks and the semaphores are allocated in this order, and
-- then the object at `p` is filled in.
unfoldable pub initialise_tcb : System → (p : Ptr) → Start → System
unfolding semaphore_create allocate clamp_slice
initialise_tcb s p a =
    let id = s.kernel.next_thread_id in
    let s1 = with_kernel s (record s.kernel { next_thread_id = id +w 1 }) in
    let (s2, user_stack) =
      new_if (not (a.body == null) && (a.user_stack_space == null)) s1 stack_bytes in
    let (s3, system_stack) = new_if (not (a.body == null)) s2 stack_bytes in
    let (s4, sem_join) = semaphore_create s3 0 in
    let (s5, sem_join_all) = semaphore_create s4 0 in
    let (s6, sem_send) = semaphore_create s5 1 in
    let (s7, sem_receive) = semaphore_create s6 0 in
    with_kernel s7 (
      at_tcb s7.kernel p (λ old. record {
        thread_id = id;
        mode = a.mode;
        parent = s.kernel.running;
        next_tcb = null;
        system_level_counter = if a.body == null then 1 else 0;
        user_stack = user_stack;
        system_stack = system_stack;
        user_sp =
            if not (a.user_stack_space == null)
            then a.user_stack_space
            else if not (user_stack == null)
            then user_stack +w stack_bytes
            else 0;
        system_sp = if not (system_stack == null) then system_stack +w stack_bytes else 0;
        body = a.body;
        arg = a.arg;
        finished = false;
        exit_status = 0;
        next_ready = null;
        sem_join = sem_join;
        sem_join_all = sem_join_all;
        num_of_active_children = 0;
        time_slice = clamp_slice a.time_slice;
        sleeps = false;
        time_sleep_relative = 0;
        next_sleep = null;
        tokens_needed = 0;
        blocked_at_sem = null;
        next_sem_blocked = null;
        unblock_manner = regular;
        sem_send = sem_send;
        sem_receive = sem_receive;
        message = old.message;
      }))

-- Whether the constructor has got all that it needs.
unfoldable pub is_complete : Tcb → Bool
is_complete b = not (
    (not (b.body == null) && ((b.user_sp == 0) || (b.system_sp == 0)))
    || (b.sem_send == null)
    || (b.sem_receive == null)
    || (b.sem_join == null)
    || (b.sem_join_all == null))

-- `if (sem) sem->close();`
abbrev pub close_if : Kernel → Ptr → Kernel
close_if k p = if p == null then k else (close k p).0

unfoldable pub close_all : Kernel → Tcb → Kernel
close_all k b =
    close_if (close_if (close_if (close_if k b.sem_send) b.sem_receive) b.sem_join) b.sem_join_all

-- The body of TCB's constructor. The loop at its end clears one character, the one behind the message.
unfoldable pub construct_tcb : System → (p : Ptr) → Start → System
unfolding initialise_tcb is_complete deallocate close_all
construct_tcb s p a =
    let s1 = initialise_tcb s p a in
    let b = s1.kernel.tcb p in
    if is_complete b
    then s1
    else (let s2 = deallocate (deallocate s1 b.user_stack) b.system_stack in
        let k =
          at_tcb s2.kernel p
            (λ c. record c { user_stack = null; system_stack = null; finished = true }) in
        with_kernel s2 (close_all k (k.tcb p)))

-- TCB's destructor
unfoldable pub destruct_tcb : System → Ptr → System
unfolding deallocate close_all
destruct_tcb s p =
    let b = s.kernel.tcb p in
    let s1 = deallocate (deallocate s b.user_stack) b.system_stack in
    let k = at_tcb s1.kernel p (λ c. record c {
      next_tcb = null;
      next_ready = null;
      next_sleep = null;
      next_sem_blocked = null;
    }) in
    with_kernel s1 (close_all k b)

-- `delete tcb`
unfoldable pub delete_tcb : System → Ptr → System
unfolding destruct_tcb deallocate
delete_tcb s p = if p == null then s else deallocate (destruct_tcb s p) p

-- TCB::threadCreate, where the thread is complete. One more thread may be in a list.
unfoldable pub admit : Kernel → (p : Ptr) → (body : Ptr) → (sch_put : Bool) → Kernel
admit k p body sch_put =
    let k0 = record k { threads = suc k.threads } in
    let k1 =
      if k.tcbs_tail == null
      then record k0 { tcbs_head = p; tcbs_tail = p }
      else record (at_tcb k0 k.tcbs_tail (λ b. record b { next_tcb = p })) { tcbs_tail = p } in
    let k2 = if not (body == null) && sch_put then put_ready k1 p else k1 in
    let parent = (k2.tcb p).parent in
    if parent == null
    then k2
    else at_tcb k2 parent (λ b. record b { num_of_active_children = b.num_of_active_children +w 1 })

-- TCB::threadCreate
unfoldable pub thread_create : System → Start → (sch_put : Bool) → System × Ptr
unfolding allocate construct_tcb delete_tcb admit
thread_create s a sch_put =
    let (s1, p) = allocate s s.build.sizeof_tcb in
    let s2 = construct_tcb s1 p a in
    if (s2.kernel.tcb p).finished
    then (delete_tcb s2 p, null)
    else (with_kernel s2 (admit s2.kernel p a.body sch_put), p)

-- The loop of TCB::threadDeleteAll.
unfoldable pub thread_delete_all : ℕ → System → System
unfolding delete_tcb
thread_delete_all zero s = s
thread_delete_all (suc fuel) s =
    let del = s.kernel.tcbs_head in
    let head = (s.kernel.tcb del).next_tcb in
    let k = record s.kernel {
      tcbs_head = head;
      tcbs_tail = if head == null then null else s.kernel.tcbs_tail;
    } in
    let rest = thread_delete_all fuel (delete_tcb (with_kernel s k) del) in
    if del == null then s else rest
