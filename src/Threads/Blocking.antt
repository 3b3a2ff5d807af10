-- ===== src/Threads/Blocking.antt =====
-- The lists of blocked and of sleeping threads: kSemaphore::put and kSemaphore::get of
-- src/kSemaphore.cpp, Sleep::put and Sleep::get of src/sleep.cpp.
use os1_proj.Prelude.{
  ℕ, zero, suc, true, false, ◌&&◌, not, ltb, leb, ◌==◌, if◌then◌else◌, ◌+w◌, ◌-w◌,
}
use os1_proj.Threads.{Ptr, null, Kernel, at_tcb, at_sem}

-- kSemaphore::put
unfoldable pub put_blocked : Kernel → (this t : Ptr) → (tokens : ℕ) → Kernel
put_blocked k this t tokens =
    if t == null
    then k
    else (let k1 =
          if (k.sem this).blocked_head == null
          then at_sem k this (λ s. record s { blocked_head = t; blocked_tail = t })
          else at_sem (at_tcb k (k.sem this).blocked_tail (λ b. record b { next_sem_blocked = t }))
              this (λ s. record s { blocked_tail = t }) in
        at_tcb k1 t (λ b. record b {
          blocked_at_sem = this;
          next_sem_blocked = null;
          tokens_needed = tokens;
        }))

-- The loop of kSemaphore::get: where `t` stands in the list, and what stands before it.
unfoldable pub find_blocked : ℕ → Kernel → (t curr prev : Ptr) → Ptr × Ptr
find_blocked zero k t curr prev = (curr, prev)
find_blocked (suc fuel) k t curr prev =
    let rest = find_blocked fuel k t (k.tcb curr).next_sem_blocked curr in
    if not (curr == null) && not (curr == t) then rest else (curr, prev)

-- `if (ret) …` at the end of kSemaphore::get
unfoldable pub unblocked : Kernel → Ptr → Kernel
unblocked k ret =
    if ret == null
    then k
    else at_tcb k ret
        (λ b. record b { blocked_at_sem = null; next_sem_blocked = null; tokens_needed = 0 })

-- kSemaphore::get with no argument
unfoldable pub get_blocked : Kernel → (this : Ptr) → Kernel × Ptr
unfolding unblocked
get_blocked k this =
    let ret = (k.sem this).blocked_head in
    if ret == null
    then (k, null)
    else (let head = (k.tcb ret).next_sem_blocked in
        let k1 = at_sem k this (λ s. record s {
          blocked_head = head;
          blocked_tail = if head == null then null else s.blocked_tail;
        }) in
        (unblocked k1 ret, ret))

-- kSemaphore::get of a given thread, where it has been found behind `prev`.
unfoldable pub unlink_blocked : Kernel → (this curr prev : Ptr) → Kernel
unfolding unblocked
unlink_blocked k this curr prev =
    let next = (k.tcb curr).next_sem_blocked in
    if not (prev == null)
    then unblocked
        (at_sem (at_tcb k prev (λ b. record b { next_sem_blocked = next })) this (λ s. record s {
          blocked_tail = if curr == s.blocked_tail then prev else s.blocked_tail;
        }))
        curr
    else unblocked
        (at_sem k this (λ s. record s {
          blocked_head = next;
          blocked_tail = if next == null then null else s.blocked_tail;
        }))
        curr

-- kSemaphore::get of a given thread
unfoldable pub take_blocked : Kernel → (this t : Ptr) → Kernel × Ptr
unfolding find_blocked unlink_blocked
take_blocked k this t =
    if not ((k.tcb t).blocked_at_sem == this)
    then (k, null)
    else (let (curr, prev) = find_blocked (suc k.threads) k t (k.sem this).blocked_head null in
        if curr == null then (k, null) else (unlink_blocked k this curr prev, curr))

-- The loop of Sleep::put: the last thread to wake before the new one, and the time left behind it.
unfoldable pub find_sleeper : ℕ → Kernel → (target : Ptr) → (timeout : ℕ) → Ptr × ℕ
find_sleeper zero k target timeout = (target, timeout)
find_sleeper (suc fuel) k target timeout =
    let next = (k.tcb target).next_sleep in
    let rest = find_sleeper fuel k next (timeout -w (k.tcb next).time_sleep_relative) in
    if not (next == null) && leb (k.tcb next).time_sleep_relative timeout
    then rest
    else (target, timeout)

-- The lines for an empty list, those for a thread that wakes first, and those behind the loop.
unfoldable pub link_first : Kernel → (t : Ptr) → (timeout : ℕ) → Kernel
link_first k t timeout =
    record (at_tcb k t (λ b. record b { time_sleep_relative = timeout; next_sleep = null })) {
      sleep_head = t;
    }

unfoldable pub link_before : Kernel → (t : Ptr) → (timeout : ℕ) → Kernel
link_before k t timeout =
    let head = k.sleep_head in
    record (at_tcb
      (at_tcb k head (λ b. record b { time_sleep_relative = b.time_sleep_relative -w timeout })) t
      (λ b. record b { time_sleep_relative = timeout; next_sleep = head })) { sleep_head = t }

unfoldable pub link_behind : Kernel → (t target : Ptr) → (left : ℕ) → Kernel
link_behind k t target left =
    let next = (k.tcb target).next_sleep in
    at_tcb
      (at_tcb
        (if next == null
          then k
          else at_tcb k next
              (λ b. record b { time_sleep_relative = b.time_sleep_relative -w left }))
        t (λ b. record b { time_sleep_relative = left; next_sleep = next }))
      target (λ b. record b { next_sleep = t })

-- Sleep::put
unfoldable pub put_sleep : Kernel → (t : Ptr) → (timeout : ℕ) → Kernel
unfolding find_sleeper
put_sleep k t timeout =
    if t == null
    then k
    else (let head = k.sleep_head in
        let first = (k.tcb head).time_sleep_relative in
        let (target, left) = find_sleeper (suc k.threads) k head (timeout -w first) in
        let k1 =
          if head == null
          then link_first k t timeout
          else if ltb timeout first
          then link_before k t timeout
          else link_behind k t target left in
        at_tcb k1 t (λ b. record b { sleeps = true }))

-- The loop of Sleep::get.
unfoldable pub find_sleeping : ℕ → Kernel → (t curr prev : Ptr) → Ptr × Ptr
find_sleeping zero k t curr prev = (curr, prev)
find_sleeping (suc fuel) k t curr prev =
    let rest = find_sleeping fuel k t (k.tcb curr).next_sleep curr in
    if not (curr == null) && not (curr == t) then rest else (curr, prev)

-- `if (ret) …` at the end of Sleep::get
unfoldable pub awake : Kernel → Ptr → Kernel
awake k ret =
    at_tcb k ret (λ b. record b { time_sleep_relative = 0; sleeps = false; next_sleep = null })

-- The successor's time takes in that of a thread that is taken out.
unfoldable pub inherit_time : Kernel → (next ret : Ptr) → Kernel
inherit_time k next ret =
    if next == null
    then k
    else at_tcb k next (λ b. record b {
      time_sleep_relative = b.time_sleep_relative +w (k.tcb ret).time_sleep_relative;
    })

-- Sleep::get with no argument
unfoldable pub get_sleep : Kernel → Kernel × Ptr
unfolding awake inherit_time
get_sleep k =
    let ret = k.sleep_head in
    let next = (k.tcb ret).next_sleep in
    if ret == null
    then (k, null)
    else (awake (inherit_time (record k { sleep_head = next }) next ret) ret, ret)

-- Sleep::get of a given thread, where it has been found behind `prev`.
unfoldable pub unlink_sleeping : Kernel → (curr prev : Ptr) → Kernel
unfolding awake inherit_time
unlink_sleeping k curr prev =
    let next = (k.tcb curr).next_sleep in
    let k1 =
      if not (prev == null)
      then at_tcb k prev (λ b. record b { next_sleep = next })
      else record k { sleep_head = next } in
    awake (inherit_time k1 next curr) curr

-- Sleep::get of a given thread
unfoldable pub take_sleep : Kernel → (t : Ptr) → Kernel × Ptr
unfolding find_sleeping unlink_sleeping
take_sleep k t =
    if not (k.tcb t).sleeps
    then (k, null)
    else (let (curr, prev) = find_sleeping (suc k.threads) k t k.sleep_head null in
        if curr == null then (k, null) else (unlink_sleeping k curr prev, curr))

-- Sleep::wakeUpAll
unfoldable pub wake_up_all : ℕ → Kernel → Kernel
unfolding get_sleep
wake_up_all zero k = k
wake_up_all (suc fuel) k =
    let (k1, t) = get_sleep k in let rest = wake_up_all fuel k1 in if t == null then k1 else rest
