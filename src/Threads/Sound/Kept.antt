-- ===== src/Threads/Sound/Kept.antt =====
-- The operations of Sleep and kSemaphore and the timer, and the semaphores and the parent of each
-- thread.
use os1_proj.Prelude.{
  ◌≡◌, refl, ℕ, zero, suc, true, false, ◌&&◌, not, ◌==◌, if◌then◌else◌, Bool-cases, inl, inr, leb,
  ltb, ◌-◌, ◌+w◌, ◌-w◌, Bool,
}
use os1_proj.Threads.{
  Ptr, null, Kernel, UnblockManner, regular, on_close, wait_timeout, at_tcb, put_ready, get_ready,
  yield,
}
use os1_proj.Threads.Blocking.{get_blocked, take_blocked, put_sleep, get_sleep, take_sleep}
use os1_proj.Threads.Switch.{can_run}
use os1_proj.Threads.Sync.{
  set_manner, sleep, wake_first, wake_loop, on_tick, timer, release_first, signal_loop, signal,
  signal_all_loop, signal_all, close,
}
use os1_proj.Threads.Sleeping.Ticks.{count_down}
use os1_proj.Threads.Sound.Names.{
  KeepsNames, KeepsNames-trans, same_threads, put_ready-KeepsNames, get_ready-KeepsNames,
  get_blocked-KeepsNames, take_blocked-KeepsNames, put_sleep-KeepsNames, get_sleep-KeepsNames,
  take_sleep-KeepsNames, at_tcb-KeepsNames, set_manner-KeepsNames,
}

-- The thread that is taken out of a list is marked and made ready.
marked-KeepsNames :
    (k g : Kernel) (t : Ptr) (how : UnblockManner)
    → KeepsNames k g
    → KeepsNames k (put_ready (set_manner g t how) t)
marked-KeepsNames k g t how a =
    KeepsNames-trans k (set_manner g t how) _
      (KeepsNames-trans k g (set_manner g t how) a (set_manner-KeepsNames g t how))
      (put_ready-KeepsNames (set_manner g t how) t)

release_first-KeepsNames :
    (k : Kernel) (this : Ptr) (how : UnblockManner) → KeepsNames k (release_first k this how)
unfolding release_first
release_first-KeepsNames k this how =
    let (k1, t) = get_blocked k this in
    let first = get_blocked-KeepsNames k this in
    elim (Bool-cases (k1.tcb t).sleeps) [
      | inl e ↦ rw e (
          marked-KeepsNames k (take_sleep k1 t).0 t how
            (KeepsNames-trans k k1 (take_sleep k1 t).0 first (take_sleep-KeepsNames k1 t)))
      | inr e ↦ rw e (marked-KeepsNames k k1 t how first)
    ]

signal_all_loop-KeepsNames :
    (fuel : ℕ) (k : Kernel) (this : Ptr) (how : UnblockManner)
    → KeepsNames k (signal_all_loop fuel k this how)
unfolding signal_all_loop
signal_all_loop-KeepsNames zero k this how = same_threads k k refl refl
signal_all_loop-KeepsNames (suc fuel) k this how =
    elim (Bool-cases ((k.sem this).blocked_head == null)) [
      | inl e ↦ rw e (same_threads k k refl refl)
      | inr e ↦
          let g = release_first k this how in
          rw e (
            KeepsNames-trans k g (signal_all_loop fuel g this how)
              (release_first-KeepsNames k this how) (signal_all_loop-KeepsNames fuel g this how))
    ]

pub signal_all-KeepsNames :
    (k : Kernel) (this n : ℕ) (closing : Bool) → KeepsNames k (signal_all k this n closing).0
unfolding signal_all
signal_all-KeepsNames k this n closing = elim (Bool-cases (k.sem this).active) [
  | inr e ↦ rw e (same_threads k k refl refl)
  | inl e ↦
      let how = if closing then on_close else regular in
      let g = signal_all_loop (suc k.threads) k this how in
      rw e (
        KeepsNames-trans k g _ (signal_all_loop-KeepsNames (suc k.threads) k this how)
          (same_threads g _ refl refl))
]

close_threads :
    (k : Kernel) (this : Ptr)
    → ((close k this).0.tcb ≡ (signal_all k this 0 true).0.tcb)
      × ((close k this).0.idle ≡ (signal_all k this 0 true).0.idle)
unfolding close signal_all
close_threads k this = elim (Bool-cases (k.sem this).active) [
  | inl e ↦ rw e (refl, refl)
  | inr e ↦ rw e (refl, refl)
]

pub close-KeepsNames : (k : Kernel) (this : Ptr) → KeepsNames k (close k this).0
close-KeepsNames k this =
    KeepsNames-trans k (signal_all k this 0 true).0 (close k this).0
      (signal_all-KeepsNames k this 0 true)
      (same_threads _ _ (close_threads k this).0 (close_threads k this).1)

paying-KeepsNames :
    (k : Kernel) (t : Ptr) (f : ℕ → ℕ)
    → KeepsNames k (at_tcb k t (λ b. record b { tokens_needed = f b.tokens_needed }))
paying-KeepsNames k t f =
    at_tcb-KeepsNames k t (λ b. record b { tokens_needed = f b.tokens_needed }) (λ b. refl)
      (λ b. refl) (λ b. refl) (λ b. refl) (λ b. refl) (λ b e. e)

signal_loop-KeepsNames :
    (fuel : ℕ) (k : Kernel) (this n : ℕ) → KeepsNames k (signal_loop fuel k this n).0
unfolding signal_loop
signal_loop-KeepsNames zero k this n = same_threads k k refl refl
signal_loop-KeepsNames (suc fuel) k this n =
    let head = (k.sem this).blocked_head in
    let needed = (k.tcb head).tokens_needed in
    elim (Bool-cases (not (head == null) && ltb 0 n)) [
      | inr e ↦ rw e (same_threads k k refl refl)
      | inl e ↦ elim (Bool-cases (leb needed n)) [
        | inl m ↦
            let g = at_tcb k head (λ b. record b { tokens_needed = 0 }) in
            let i = release_first g this regular in
            rw (e, m)
              (KeepsNames-trans k i _
                (KeepsNames-trans k g i (paying-KeepsNames k head (λ z. 0))
                  (release_first-KeepsNames g this regular))
                (signal_loop-KeepsNames fuel i this (n - needed)))
        | inr m ↦
            let g = at_tcb k head (λ b. record b { tokens_needed = b.tokens_needed - n }) in
            rw (e, m)
              (KeepsNames-trans k g _ (paying-KeepsNames k head (λ z. z - n))
                (signal_loop-KeepsNames fuel g this 0))
      ]
    ]

pub signal-KeepsNames : (k : Kernel) (this n : ℕ) → KeepsNames k (signal k this n).0
unfolding signal
signal-KeepsNames k this n = elim (Bool-cases (k.sem this).active) [
  | inr e ↦ rw e (same_threads k k refl refl)
  | inl e ↦
      let g = (signal_loop (suc (suc k.threads)) k this n).0 in
      rw e (
        KeepsNames-trans k g _ (signal_loop-KeepsNames (suc (suc k.threads)) k this n)
          (same_threads g _ refl refl))
]

pub yield-KeepsNames : (k : Kernel) (put : Bool) → KeepsNames k (yield k put)
unfolding yield
yield-KeepsNames k put = elim (Bool-cases (can_run k && put)) [
  | inl e ↦
      let g = put_ready k k.running in
      rw e (
        KeepsNames-trans k (get_ready g).0 _
          (KeepsNames-trans k g (get_ready g).0 (put_ready-KeepsNames k k.running)
            (get_ready-KeepsNames g))
          (same_threads (get_ready g).0 _ refl refl))
  | inr e ↦ rw e (
      KeepsNames-trans k (get_ready k).0 _ (get_ready-KeepsNames k)
        (same_threads (get_ready k).0 _ refl refl))
]

pub sleep-KeepsNames : (k : Kernel) (d : ℕ) → KeepsNames k (sleep k d).0
unfolding sleep
sleep-KeepsNames k d =
    let t = k.running in
    let at = (k.tcb t).blocked_at_sem in
    elim (Bool-cases (d == 0)) [
      | inl e ↦ elim (Bool-cases (at == null)) [
        | inl m ↦ rw (e, m) (same_threads k k refl refl)
        | inr m ↦
            let g = (take_blocked k at t).0 in
            rw (e, m)
              (KeepsNames-trans k g _ (take_blocked-KeepsNames k at t)
                (set_manner-KeepsNames g t wait_timeout))
      ]
      | inr e ↦ rw e (
          KeepsNames-trans k (put_sleep k t d) _ (put_sleep-KeepsNames k t d)
            (yield-KeepsNames (put_sleep k t d) false))
    ]

wake_first-KeepsNames : (k : Kernel) → KeepsNames k (wake_first k)
unfolding wake_first
wake_first-KeepsNames k =
    let (g, t) = get_sleep k in
    let at = (g.tcb t).blocked_at_sem in
    let first = get_sleep-KeepsNames k in
    elim (Bool-cases (at == null)) [
      | inl e ↦ rw e (KeepsNames-trans k g (put_ready g t) first (put_ready-KeepsNames g t))
      | inr e ↦
          let i = (take_blocked g at t).0 in
          rw e (
            marked-KeepsNames k i t wait_timeout
              (KeepsNames-trans k g i first (take_blocked-KeepsNames g at t)))
    ]

wake_loop-KeepsNames : (fuel : ℕ) (k : Kernel) → KeepsNames k (wake_loop fuel k)
unfolding wake_loop
wake_loop-KeepsNames zero k = same_threads k k refl refl
wake_loop-KeepsNames (suc fuel) k =
    elim (Bool-cases
      (not (k.sleep_head == null) && ((k.tcb k.sleep_head).time_sleep_relative == 0))) [
        | inl e ↦ rw e (
            KeepsNames-trans k (wake_first k) _ (wake_first-KeepsNames k)
              (wake_loop-KeepsNames fuel (wake_first k)))
        | inr e ↦ rw e (same_threads k k refl refl)
      ]

pub on_tick-KeepsNames : (k : Kernel) → KeepsNames k (on_tick k)
unfolding on_tick
on_tick-KeepsNames k =
    let counted : KeepsNames k (count_down k) = elim (Bool-cases (k.sleep_head == null)) [
      | inl e ↦ rw e (same_threads k k refl refl)
      | inr e ↦ rw e (
          at_tcb-KeepsNames k k.sleep_head
            (λ b. record b { time_sleep_relative = b.time_sleep_relative -w 1 }) (λ b. refl)
            (λ b. refl) (λ b. refl) (λ b. refl) (λ b. refl) (λ b e. e))
    ] in
    KeepsNames-trans k (count_down k) _ counted
      (wake_loop-KeepsNames (suc k.threads) (count_down k))

pub timer-KeepsNames : (k : Kernel) → KeepsNames k (timer k)
unfolding timer
timer-KeepsNames k =
    let k0 = record k { time_slice_counter = k.time_slice_counter +w 1 } in
    let k1 = on_tick k0 in
    let ticked = KeepsNames-trans k k0 k1 (same_threads k k0 refl refl) (on_tick-KeepsNames k0) in
    elim (Bool-cases (leb (k1.tcb k1.running).time_slice k1.time_slice_counter)) [
      | inl e ↦ rw e (KeepsNames-trans k k1 (yield k1 true) ticked (yield-KeepsNames k1 true))
      | inr e ↦ rw e ticked
    ]
