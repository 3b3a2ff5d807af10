-- ===== src/Threads/Sync.antt =====
-- Sleep::sleep and Sleep::onTick of src/sleep.cpp, and the operations of src/kSemaphore.cpp. Code
-- behind a context switch runs when the thread runs again, so a call returns an `Outcome`.
use os1_proj.Prelude.{
  ℕ, zero, suc, ◌-◌, Bool, true, false, ◌&&◌, not, ltb, leb, ◌==◌, if◌then◌else◌, word, ◌+w◌, ◌-w◌,
}
use os1_proj.Threads.{
  Ptr, null, UnblockManner, regular, on_close, wait_timeout, Kernel, at_tcb, at_sem, put_ready,
  yield,
}
use os1_proj.Threads.Blocking.{
  put_blocked, get_blocked, take_blocked, put_sleep, get_sleep, take_sleep,
}

-- ERR_SEM_DEAD, ERR_SLEEP_ZERO, TIMEOUT and ERR_SEM_WAITCLOSE, as uint64
abbrev pub err_sem_dead : ℕ
err_sem_dead = word - 1

abbrev pub err_sleep_zero : ℕ
err_sleep_zero = word - 1

abbrev pub timed_out : ℕ
timed_out = word - 2

abbrev pub err_sem_waitclose : ℕ
err_sem_waitclose = word - 4

-- A call that returns at once; one that returns a value after a switch; and one that returns what
-- `resolveManner` says when the caller runs again.
pub data Outcome : Type 0 where
  returns : ℕ → Outcome
  resumes : ℕ → Outcome
  resolves : Outcome

-- kSemaphore::resolveManner
unfoldable pub resolve : UnblockManner → ℕ
resolve regular = 0
resolve on_close = err_sem_waitclose
resolve wait_timeout = timed_out

unfoldable pub resolve_manner : Kernel → ℕ
unfolding resolve
resolve_manner k = resolve (k.tcb k.running).unblock_manner

abbrev pub set_manner : Kernel → Ptr → UnblockManner → Kernel
set_manner k t how = at_tcb k t (λ b. record b { unblock_manner = how })

-- Sleep::sleep
unfoldable pub sleep : Kernel → ℕ → Kernel × Outcome
sleep k timeout =
    let at = (k.tcb k.running).blocked_at_sem in
    if timeout == 0
    then (
      if at == null then k else set_manner (take_blocked k at k.running).0 k.running wait_timeout,
      returns err_sleep_zero,
    )
    else (yield (put_sleep k k.running timeout) false, resumes 0)

-- The body of the loop of Sleep::onTick.
unfoldable pub wake_first : Kernel → Kernel
wake_first k =
    let (k1, t) = get_sleep k in
    let at = (k1.tcb t).blocked_at_sem in
    put_ready (if at == null then k1 else set_manner (take_blocked k1 at t).0 t wait_timeout) t

unfoldable pub wake_loop : ℕ → Kernel → Kernel
unfolding wake_first
wake_loop zero k = k
wake_loop (suc fuel) k =
    let rest = wake_loop fuel (wake_first k) in
    if not (k.sleep_head == null) && ((k.tcb k.sleep_head).time_sleep_relative == 0)
    then rest
    else k

-- Sleep::onTick
unfoldable pub on_tick : Kernel → Kernel
unfolding wake_loop
on_tick k = wake_loop (suc k.threads) (
    if k.sleep_head == null
    then k
    else at_tcb k k.sleep_head (λ b. record b { time_sleep_relative = b.time_sleep_relative -w 1 }))

-- The timer's case of Kernel::handleSupervisorTrap, after the pending bit is cleared.
unfoldable pub timer : Kernel → Kernel
unfolding on_tick
timer k =
    let k1 = on_tick (record k { time_slice_counter = k.time_slice_counter +w 1 }) in
    if leb (k1.tcb k1.running).time_slice k1.time_slice_counter then yield k1 true else k1

-- kSemaphore::wait
unfoldable pub wait : Kernel → (this : Ptr) → (tokens : ℕ) → Kernel × Outcome
wait k this tokens =
    let s = k.sem this in
    if not s.active
    then (k, returns err_sem_dead)
    else if leb tokens s.value
    then (let k1 =
          set_manner (at_sem k this (λ s. record s { value = s.value - tokens })) k.running
            regular in
        (k1, returns (resolve_manner k1)))
    else (
      yield
          (put_blocked (at_sem k this (λ s. record s { value = 0 })) this k.running
            (tokens - s.value))
          false,
      resolves,
    )

-- kSemaphore::timedWait
unfoldable pub timed_wait : Kernel → (this : Ptr) → (timeout tokens : ℕ) → Kernel × Outcome
unfolding sleep
timed_wait k this timeout tokens =
    let s = k.sem this in
    if not s.active
    then (k, returns err_sem_dead)
    else if leb tokens s.value
    then (let k1 =
          set_manner (at_sem k this (λ s. record s { value = s.value - tokens })) k.running
            regular in
        (k1, returns (resolve_manner k1)))
    else (let (k1, o) =
          sleep
            (put_blocked (at_sem k this (λ s. record s { value = 0 })) this k.running
              (tokens - s.value))
            timeout in
        (
          k1,
          elim o [
            | returns _ ↦ returns (resolve_manner k1)
            | resumes _ ↦ resolves
            | resolves ↦ resolves
          ],
        ))

-- kSemaphore::tryWait
unfoldable pub try_wait : Kernel → (this : Ptr) → (tokens : ℕ) → Kernel × ℕ
try_wait k this tokens =
    let s = k.sem this in
    if not s.active
    then (k, err_sem_dead)
    else if leb tokens s.value
    then (
      set_manner (at_sem k this (λ s. record s { value = s.value - tokens })) k.running regular,
      0,
    )
    else (set_manner k k.running regular, 1)

-- What kSemaphore::signal and kSemaphore::signalAll do with the first blocked thread.
unfoldable pub release_first : Kernel → (this : Ptr) → UnblockManner → Kernel
release_first k this how =
    let (k1, t) = get_blocked k this in
    let k2 = if (k1.tcb t).sleeps then (take_sleep k1 t).0 else k1 in
    put_ready (set_manner k2 t how) t

-- The loop of kSemaphore::signal: the state and the tokens left.
unfoldable pub signal_loop : ℕ → Kernel → (this : Ptr) → (tokens : ℕ) → Kernel × ℕ
unfolding release_first
signal_loop zero k this tokens = (k, tokens)
signal_loop (suc fuel) k this tokens =
    let head = (k.sem this).blocked_head in
    let needed = (k.tcb head).tokens_needed in
    let served =
      signal_loop fuel
        (release_first (at_tcb k head (λ b. record b { tokens_needed = 0 })) this regular) this
        (tokens - needed) in
    let paid =
      signal_loop fuel (at_tcb k head (λ b. record b { tokens_needed = b.tokens_needed - tokens }))
        this 0 in
    if not (head == null) && ltb 0 tokens
    then (if leb needed tokens then served else paid)
    else (k, tokens)

-- kSemaphore::signal
unfoldable pub signal : Kernel → (this : Ptr) → (tokens : ℕ) → Kernel × ℕ
unfolding signal_loop
signal k this tokens =
    if not (k.sem this).active
    then (k, err_sem_dead)
    else (let (k1, left) = signal_loop (suc (suc k.threads)) k this tokens in
        (at_sem k1 this (λ s. record s { value = s.value +w left }), 0))

unfoldable pub signal_all_loop : ℕ → Kernel → (this : Ptr) → UnblockManner → Kernel
unfolding release_first
signal_all_loop zero k this how = k
signal_all_loop (suc fuel) k this how =
    let rest = signal_all_loop fuel (release_first k this how) this how in
    if (k.sem this).blocked_head == null then k else rest

-- kSemaphore::signalAll
unfoldable pub signal_all : Kernel → (this : Ptr) → (tokens : ℕ) → (closing : Bool) → Kernel × ℕ
unfolding signal_all_loop
signal_all k this tokens closing = if not (k.sem this).active then (k, err_sem_dead) else (
  at_sem (signal_all_loop (suc k.threads) k this (if closing then on_close else regular)) this
      (λ s. record s { value = tokens }),
  1,
)

-- kSemaphore::close
unfoldable pub close : Kernel → (this : Ptr) → Kernel × ℕ
unfolding signal_all
close k this =
    if not (k.sem this).active
    then (k, err_sem_dead)
    else (at_sem (signal_all k this 0 true).0 this (λ s. record s { active = false }), 0)
