-- ===== src/Threads/Sleeping/Rounds.antt =====
-- One round of the loop of Sleep::onTick.
use os1_proj.Prelude.{
  ◌+◌, ◌<◌, ◌≡◌, ◌≢◌, refl, sym, ap, subst, false, List, [], ◌∷◌, ◌++◌, ◌==◌, if◌then◌else◌, word,
  arith, ◌∙◌, Bool-cases, inl, inr,
}
use os1_proj.Threads.{Ptr, null, Kernel, put_ready, wait_timeout}
use os1_proj.Threads.Blocking.{get_sleep, take_blocked, unblocked}
use os1_proj.Threads.Sync.{set_manner, wake_first}
use os1_proj.Threads.Chains.{member}
use os1_proj.Threads.Frames.{KeepsReady, KeepsReady-trans}
use os1_proj.Threads.Ready.{IsQueue, put_ready-IsQueue}
use os1_proj.Threads.Waiting.{IsQueue-frame}
use os1_proj.Threads.Sleeping.Frames.{
  KeepsSleeping-trans, set_manner-KeepsSleeping, put_ready-KeepsSleeping,
  take_blocked-KeepsSleeping, take_blocked-KeepsReady,
}
use os1_proj.Threads.Sleeping.{
  Sleeper, sleeper, names, take_over, IsSleeping, KeepsSleeping, IsSleeping-frame,
}
use os1_proj.Threads.Sleeping.Wake.{
  first_time, get_sleep-KeepsReady, get_sleep_statics, get_sleep-IsSleeping,
}

-- What Sleep::onTick makes of a thread that it has taken, before it is ready.
abbrev settled : Kernel → Ptr → Kernel
settled k t =
    let at = (k.tcb t).blocked_at_sem in
    if at == null then k else set_manner (take_blocked k at t).0 t wait_timeout

take_blocked_idle : (k : Kernel) (this t : Ptr) → (take_blocked k this t).0.idle ≡ k.idle
unfolding take_blocked unblocked
take_blocked_idle k this t = ground arith

record Settles (k g : Kernel) : Type 0 where
  sleeping : KeepsSleeping k g
  ready : KeepsReady k g
  idles : g.idle ≡ k.idle

settled-Settles : (k : Kernel) (t : Ptr) → Settles k (settled k t)
settled-Settles k t =
    let at = (k.tcb t).blocked_at_sem in
    let k1 = (take_blocked k at t).0 in
    elim (Bool-cases (at == null)) [
      | inl e ↦ rw e (record {
        sleeping = record {
          head = refl;
          bound = refl;
          links = λ x. refl;
          times = λ x. refl;
          flags = λ x. refl;
        };
        ready = record { head = refl; tail = refl; links = λ x. refl };
        idles = refl;
      })
      | inr e ↦ rw e (record {
        sleeping =
            KeepsSleeping-trans k k1 (set_manner k1 t wait_timeout)
              (take_blocked-KeepsSleeping k at t) (set_manner-KeepsSleeping k1 t wait_timeout);
        ready =
            KeepsReady-trans k k1 (set_manner k1 t wait_timeout) (take_blocked-KeepsReady k at t)
              (record { head = refl; tail = refl; links = λ x. ground arith });
        idles = take_blocked_idle k at t;
      })
    ]

-- What one round of the loop leaves, if `t` is the first that sleeps, and the others are `ss`.
pub record Woken (k : Kernel) (t : Ptr) (ss : List Sleeper) (xs : List Ptr) (g : Kernel)
    : Type 0 where
  pub sleeping : IsSleeping g ss
  pub ready : IsQueue g (xs ++ t ∷ [])
  pub idles : g.idle ≡ k.idle
  pub bound : g.threads ≡ k.threads

put_ready_idle : (k : Kernel) (t : Ptr) → (put_ready k t).idle ≡ k.idle
unfolding put_ready
put_ready_idle k t = ground arith

pub take_over_none : (ss : List Sleeper) → take_over 0 ss ≡ ss
unfolding take_over
take_over_none [] = refl
take_over_none (s ∷ ss) =
    let none_more : s.time + 0 ≡ s.time = omega arith in ap (λ d. sleeper s.thread d ∷ ss) none_more

put_settled-Woken :
    (k k1 : Kernel) (t : Ptr) (ss : List Sleeper) (xs : List Ptr)
    → t ≢ null
    → t ≢ k.idle
    → member t xs ≡ false
    → k1.idle ≡ k.idle
    → k1.threads ≡ k.threads
    → IsSleeping k1 ss
    → IsQueue k1 xs
    → Woken k t ss xs (put_ready (settled k1 t) t)
put_settled-Woken k k1 t ss xs nz ni out same_idle same_bound q r =
    let k2 = settled k1 t in
    let s = settled-Settles k1 t in
    let put = put_ready-KeepsSleeping k2 t in
    record {
      sleeping = IsSleeping-frame k2 _ ss put (IsSleeping-frame k1 k2 ss s.sleeping q);
      ready =
          put_ready-IsQueue k2 t xs nz (λ e. ni (e ∙ (s.idles ∙ same_idle))) out
            (IsQueue-frame k1 k2 xs s.ready r);
      idles = put_ready_idle k2 t ∙ (s.idles ∙ same_idle);
      bound = put.bound ∙ (s.sleeping.bound ∙ same_bound);
    }

pub wake_first-Woken :
    (k : Kernel) (s : Sleeper) (ss : List Sleeper) (xs : List Ptr)
    → s.time ≡ 0
    → first_time ss < word
    → s.thread ≢ k.idle
    → member s.thread xs ≡ false
    → IsSleeping k (s ∷ ss)
    → IsQueue k xs
    → Woken k s.thread ss xs (wake_first k)
unfolding wake_first names
wake_first-Woken k s ss xs due b ni out q r =
    let (e, sleeping) = get_sleep-IsSleeping k s ss (omega (arith, due)) q in
    let g = (get_sleep k).0 in
    subst (λ t. Woken k s.thread ss xs (put_ready (settled g t) t)) (sym e)
      (put_settled-Woken k g s.thread ss xs q.chain.1 ni out (get_sleep_statics k).1
        (get_sleep_statics k).0
        (subst (λ d. IsSleeping g d) (ap (λ d. take_over d ss) due ∙ take_over_none ss) sleeping)
        (IsQueue-frame k g xs (get_sleep-KeepsReady k) r))
