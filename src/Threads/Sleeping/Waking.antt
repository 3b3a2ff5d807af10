-- ===== src/Threads/Sleeping/Waking.antt =====
-- When a thread that sleeps runs on: after as many ticks as it was put to sleep for.
use os1_proj.Prelude.{
  ℕ, zero, suc, ◌-◌, ◌≤◌, ◌<◌, ◌≡◌, ◌≢◌, refl, sym, subst, true, false, ◌||◌, List, [], ◌∷◌, ◌++◌,
  word, arith, ◌∙◌, length, ◌==◌, Bool-cases, inl, inr, ==_iff,
}
use os1_proj.Threads.{Ptr, null, Kernel}
use os1_proj.Threads.Blocking.{put_sleep, link_first, link_before, link_behind}
use os1_proj.Threads.Frames.{KeepsReady}
use os1_proj.Threads.Waiting.{IsQueue-frame}
use os1_proj.Threads.Sync.{on_tick}
use os1_proj.Threads.Chains.{member}
use os1_proj.Threads.Ready.{IsQueue}
use os1_proj.Threads.Sleeping.{
  Sleeper, names, insert, awake, asleep, tick, remaining, IsSleeping, SomeLeft,
}
use os1_proj.Threads.Sleeping.Insert.{put_sleep-IsSleeping}
use os1_proj.Threads.Sleeping.Marks.{all_sleep, member-insert}
use os1_proj.Threads.Sleeping.Remaining.{
  remaining-insert, insert-SomeLeft, asleep-SomeLeft, length-asleep, asleep_among, asleep_apart,
  remaining_none, remaining_some, remaining-tick,
}
use os1_proj.Threads.Sleeping.Ticks.{NotReady, on_tick-Leaves, names-tick, length-tick}

-- Ticks of the clock, one after another.
abbrev pub ticks : ℕ → Kernel → Kernel
ticks zero k = k
ticks (suc n) k = ticks n (on_tick k)

-- The threads `ss` sleep with time left, `xs` are ready, and none is both.
pub record Resting (k : Kernel) (ss : List Sleeper) (xs : List Ptr) : Type 0 where
  pub fits : length ss ≤ k.threads
  pub left : SomeLeft ss
  pub apart : NotReady k ss xs
  pub sleeping : IsSleeping k ss
  pub ready : IsQueue k xs

member-append : (x : Ptr) (xs ys : List Ptr) → member x (xs ++ ys) ≡ (member x xs || member x ys)
unfolding member
member-append x [] ys = refl
member-append x (y ∷ xs) ys = ground (arith, member-append x xs ys)

on_tick-Resting :
    (k : Kernel) (ss : List Sleeper) (xs : List Ptr)
    → Resting k ss xs
    → Resting (on_tick k) (asleep (tick ss)) (xs ++ awake (tick ss))
on_tick-Resting k ss xs r =
    let after = on_tick-Leaves k ss xs r.fits r.left r.apart r.sleeping r.ready in
    record {
      fits = omega (arith, r.fits, after.bound, length-asleep (tick ss), length-tick ss);
      left = asleep-SomeLeft (tick ss);
      apart = λ x i.
          let among =
            subst (λ ys. member x ys ≡ true) (names-tick ss) (asleep_among x (tick ss) i) in
          let (ni, out) = r.apart x among in
          (
            λ e. ni (e ∙ after.idles),
            member-append x xs (awake (tick ss))
                ∙ ground (
                  arith,
                  out,
                  asleep_apart x (tick ss) (rw (names-tick ss) r.sleeping.distinct) i,
                ),
          );
      sleeping = after.sleeping;
      ready = after.ready;
    }

-- For `n` ticks the thread `t` sleeps, and with the next one it is ready.
pub record Wakes (k : Kernel) (t : Ptr) (n : ℕ) : Type 0 where
  pub still : ((ticks n k).tcb t).sleeps ≡ true
  pub queue : List Ptr
  pub in_queue : member t queue ≡ true
  pub is_queue : IsQueue (ticks (suc n) k) queue

pub remaining_ticks :
    (k : Kernel) (t n : ℕ) (ss : List Sleeper) (xs : List Ptr)
    → member t (names ss) ≡ true
    → remaining t ss ≡ suc n
    → Resting k ss xs
    → Wakes k t n
remaining_ticks k t zero ss xs i e r =
    let after = on_tick-Resting k ss xs r in
    record {
      still = all_sleep k.tcb ss t r.sleeping.times i;
      queue = xs ++ awake (tick ss);
      in_queue =
          member-append t xs (awake (tick ss))
          ∙ ground (
            arith,
            remaining_none t (tick ss) (rw (names-tick ss) i)
                (omega (arith, e, remaining-tick t ss r.left i)),
          );
      is_queue = after.ready;
    }
remaining_ticks k t (suc n) ss xs i e r =
    let (j, f) =
      remaining_some t n (tick ss) (rw (names-tick ss) i)
        (omega (arith, e, remaining-tick t ss r.left i)) in
    let rest =
      remaining_ticks (on_tick k) t n (asleep (tick ss)) (xs ++ awake (tick ss)) j f
        (on_tick-Resting k ss xs r) in
    record {
      still = rest.still;
      queue = rest.queue;
      in_queue = rest.in_queue;
      is_queue = rest.is_queue;
    }

length-insert : (t d : ℕ) (ss : List Sleeper) → length (insert t d ss) ≡ suc (length ss)
unfolding insert
length-insert t d [] = refl
length-insert t d (s ∷ ss) = ground (arith, length-insert t (d - s.time) ss)

pub put_sleep-KeepsReady : (k : Kernel) (t d : ℕ) → KeepsReady k (put_sleep k t d)
unfolding put_sleep link_first link_before link_behind
put_sleep-KeepsReady k t d = record {
  head = ground arith;
  tail = ground arith;
  links = λ x. ground arith;
}

put_sleep_statics :
    (k : Kernel) (t d : ℕ)
    → ((put_sleep k t d).threads ≡ k.threads) × ((put_sleep k t d).idle ≡ k.idle)
unfolding put_sleep link_first link_before link_behind
put_sleep_statics k t d = (ground arith, ground arith)

put_sleep-Resting :
    (k : Kernel) (t d : ℕ) (ss : List Sleeper) (xs : List Ptr)
    → t ≢ null
    → t ≢ k.idle
    → member t (names ss) ≡ false
    → member t xs ≡ false
    → d ≢ 0
    → d < word
    → length ss < k.threads
    → Resting k ss xs
    → Resting (put_sleep k t d) (insert t d ss) xs
put_sleep-Resting k t d ss xs nz ni out out' nd b f r = record {
  fits = omega (arith, f, length-insert t d ss, (put_sleep_statics k t d).0);
  left = insert-SomeLeft t d ss nd r.left;
  apart = λ x i.
      let same = (put_sleep_statics k t d).1 in
      elim (Bool-cases (x == t)) [
        | inl e ↦ let here = (==_iff x t).0 e in (λ h. ni (sym here ∙ (h ∙ same)), rw here out')
        | inr e ↦
            let (ni_x, out_x) = r.apart x (ground (arith, i, e, member-insert x t d ss)) in
            (λ h. ni_x (h ∙ same), out_x)
      ];
  sleeping = put_sleep-IsSleeping k t d ss nz out b (omega (arith, f)) r.sleeping;
  ready = IsQueue-frame k (put_sleep k t d) xs (put_sleep-KeepsReady k t d) r.ready;
}

-- A thread that is put to sleep for `n` + 1, below 2 ^ 64, sleeps while the clock ticks `n` times,
-- and is in the ready queue after the next tick, if it is neither null nor idle nor ready nor
-- asleep before, if the threads that sleep have time left and are neither idle nor ready, and if
-- fewer sleep than there are threads.
pub put_sleep-Wakes :
    (k : Kernel) (t n : ℕ) (ss : List Sleeper) (xs : List Ptr)
    → t ≢ null
    → t ≢ k.idle
    → member t (names ss) ≡ false
    → member t xs ≡ false
    → suc n < word
    → length ss < k.threads
    → Resting k ss xs
    → Wakes (put_sleep k t (suc n)) t n
put_sleep-Wakes k t n ss xs nz ni out out' b f r =
    remaining_ticks (put_sleep k t (suc n)) t n (insert t (suc n) ss) xs
      (member-insert t t (suc n) ss ∙ ground arith) (remaining-insert t t (suc n) ss out).0
      (put_sleep-Resting k t (suc n) ss xs nz ni out out' (λ h. omega (arith, h)) b f r)
