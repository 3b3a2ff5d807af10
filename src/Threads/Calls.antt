-- ===== src/Threads/Calls.antt =====
-- TCB::finish of src/tcb.cpp, and the thread, semaphore and time handlers of src/kernel.cpp.
use os1_proj.Prelude.{ℕ, ◌-◌, true, false, ◌&&◌, not, ◌==◌, if◌then◌else◌, word, ◌-w◌}
use os1_proj.Threads.{Ptr, null, Kernel, at_tcb, yield}
use os1_proj.Threads.Blocking.{take_blocked, take_sleep}
use os1_proj.Threads.Sync.{
  Outcome, returns, resumes, resolves, sleep, wait, timed_wait, try_wait, signal, signal_all, close,
}

-- ERR_THREAD_EXIT and ERR_THREAD_SELFJOIN, as uint64
abbrev pub err_thread_exit : ℕ
err_thread_exit = word - 1

abbrev pub err_thread_selfjoin : ℕ
err_thread_selfjoin = word - 3

-- TCB::finish, where the parent is told.
unfoldable pub leave_parent : Kernel → (parent : Ptr) → Kernel
leave_parent k parent =
    if not (parent == null) && not (k.tcb parent).finished
    then (let k1 =
          at_tcb k parent
            (λ b. record b { num_of_active_children = b.num_of_active_children -w 1 }) in
        if (k1.tcb parent).blocked_at_sem == (k1.tcb parent).sem_join_all
        then (signal k1 (k1.tcb parent).sem_join_all 1).0
        else k1)
    else k

-- TCB::finish, up to the switch.
unfoldable pub retire : Kernel → ℕ → Kernel
unfolding leave_parent
retire k status =
    let me = k.running in
    let k1 = (close k (k.tcb me).sem_send).0 in
    let k2 = (close k1 (k1.tcb me).sem_receive).0 in
    let k3 = (signal_all k2 (k2.tcb me).sem_join 0 false).0 in
    let k4 = (close k3 (k3.tcb me).sem_join).0 in
    let k5 = leave_parent k4 (k4.tcb me).parent in
    let k6 = (close k5 (k5.tcb me).sem_join_all).0 in
    let at = (k6.tcb me).blocked_at_sem in
    let k7 = if at == null then k6 else (take_blocked k6 at me).0 in
    let k8 = if (k7.tcb me).sleeps then (take_sleep k7 me).0 else k7 in
    at_tcb k8 me (λ b. record b { exit_status = status; finished = true })

-- TCB::finish
unfoldable pub finish : Kernel → ℕ → Kernel
unfolding retire
finish k status = yield (retire k status) false

-- Kernel::handleThreadExit
unfoldable pub handle_thread_exit : Kernel → Kernel × Outcome
unfolding finish
handle_thread_exit k = (finish k 0, resumes err_thread_exit)

-- Kernel::handleThreadDispatch
unfoldable pub handle_thread_dispatch : Kernel → Kernel × Outcome
handle_thread_dispatch k = (yield k true, resumes 0)

-- Kernel::handleJoin
unfoldable pub handle_join : Kernel → (handle : Ptr) → Kernel × Outcome
handle_join k handle =
    if handle == k.running
    then (k, returns err_thread_selfjoin)
    else if (k.tcb handle).finished
    then (k, returns 0)
    else wait k (k.tcb handle).sem_join 1

-- Kernel::handleTimedJoin
unfoldable pub handle_timed_join : Kernel → (handle : Ptr) → (timeout : ℕ) → Kernel × Outcome
handle_timed_join k handle timeout =
    if handle == k.running
    then (k, returns err_thread_selfjoin)
    else if (k.tcb handle).finished
    then (k, returns 0)
    else timed_wait k (k.tcb handle).sem_join timeout 1

-- Kernel::handleJoinAll, which returns 0 whatever `wait` returns.
unfoldable pub handle_join_all : Kernel → Kernel × Outcome
handle_join_all k =
    let me = k.tcb k.running in
    let (k1, o) = wait k me.sem_join_all me.num_of_active_children in
    (k1, elim o [ returns _ ↦ returns 0 | resumes _ ↦ resumes 0 | resolves ↦ resumes 0 ])

-- Kernel::handleSemClose
unfoldable pub handle_sem_close : Kernel → (handle : Ptr) → Kernel × Outcome
handle_sem_close k handle = let (k1, r) = close k handle in (k1, returns r)

-- Kernel::handleSemWait
unfoldable pub handle_sem_wait : Kernel → (handle : Ptr) → Kernel × Outcome
handle_sem_wait k handle = wait k handle 1

-- Kernel::handleSemSignal
unfoldable pub handle_sem_signal : Kernel → (handle : Ptr) → Kernel × Outcome
handle_sem_signal k handle = let (k1, r) = signal k handle 1 in (k1, returns r)

-- Kernel::handleSemTimedWait
unfoldable pub handle_sem_timed_wait : Kernel → (handle : Ptr) → (timeout : ℕ) → Kernel × Outcome
handle_sem_timed_wait k handle timeout = timed_wait k handle timeout 1

-- Kernel::handleSemTryWait
unfoldable pub handle_sem_try_wait : Kernel → (handle : Ptr) → Kernel × Outcome
handle_sem_try_wait k handle = let (k1, r) = try_wait k handle 1 in (k1, returns r)

-- Kernel::handleTimeSleep
unfoldable pub handle_time_sleep : Kernel → (timeout : ℕ) → Kernel × Outcome
handle_time_sleep k timeout = sleep k timeout
