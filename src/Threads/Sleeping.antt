-- ===== src/Threads/Sleeping.antt =====
-- The list of sleeping threads, each with the time that it sleeps longer than the one before it, and
-- what Sleep::put and Sleep::onTick mean for the time that is left to each thread.
pub mod Remaining
pub mod Behind
pub mod Marks
pub mod Insert
pub mod Frames
pub mod Wake
pub mod Rounds
pub mod Ticks
pub mod Waking
mod Tests
use os1_proj.Prelude.{
  ℕ, zero, suc, ◌+◌, ◌-◌, ◌<◌, ◌≡◌, ◌≢◌, true, false, ◌&&◌, List, [], ◌∷◌, ◌==◌, if◌then◌else◌, ltb,
  word, arith, ◌∙◌, Option, none, some,
}
use os1_proj.Threads.{Ptr, null, Tcb, Kernel}
use os1_proj.Threads.Chains.{member, Chain, Distinct, Chain-frame}

pub record Sleeper : Type 0 where
  pub thread : Ptr
  pub time : ℕ

abbrev pub sleeper : Ptr → ℕ → Sleeper
sleeper t d = record { thread = t; time = d }

unfoldable pub names : List Sleeper → List Ptr
names [] = []
names (s ∷ ss) = s.thread ∷ names ss

-- A thread that is to sleep for `d` goes behind those that wake no later.
unfoldable pub insert : Ptr → (d : ℕ) → List Sleeper → List Sleeper
insert t d [] = sleeper t d ∷ []
insert t d (s ∷ ss) =
    if ltb d s.time
    then sleeper t d ∷ sleeper s.thread (s.time - d) ∷ ss
    else s ∷ insert t (d - s.time) ss

-- The first of the list takes over the time of one that leaves in front of it.
unfoldable pub take_over : ℕ → List Sleeper → List Sleeper
take_over d [] = []
take_over d (s ∷ ss) = sleeper s.thread (s.time + d) ∷ ss

-- The threads in front that have no time left, and the list behind them.
unfoldable pub awake : List Sleeper → List Ptr
awake [] = []
awake (s ∷ ss) = if s.time == 0 then s.thread ∷ awake ss else []

unfoldable pub asleep : List Sleeper → List Sleeper
asleep [] = []
asleep (s ∷ ss) = if s.time == 0 then asleep ss else s ∷ ss

-- One tick of the clock.
unfoldable pub tick : List Sleeper → List Sleeper
tick [] = []
tick (s ∷ ss) = sleeper s.thread (s.time - 1) ∷ ss

-- The time left to a thread.
unfoldable pub remaining : Ptr → List Sleeper → ℕ
remaining x [] = 0
remaining x (s ∷ ss) = if x == s.thread then s.time else s.time + remaining x ss

-- The threads keep the times of the list, and know that they sleep.
abbrev pub AllAsleep : (Ptr → Tcb) → List Sleeper → Type 0
AllAsleep tcb [] = Unit {0}
AllAsleep tcb (s ∷ ss) =
    ((tcb s.thread).time_sleep_relative ≡ s.time)
    × ((tcb s.thread).sleeps ≡ true)
    × (s.time < word)
    × AllAsleep tcb ss

-- The threads `ss` sleep, in this order.
pub record IsSleeping (k : Kernel) (ss : List Sleeper) : Type 0 where
  pub chain : Chain (λ x. (k.tcb x).next_sleep) k.sleep_head (names ss)
  pub distinct : Distinct (names ss)
  pub times : AllAsleep k.tcb ss

-- No thread that sleeps has no time left.
abbrev pub SomeLeft : List Sleeper → Type 0
SomeLeft [] = Unit {0}
SomeLeft (s ∷ ss) = s.time ≢ 0

pub AllAsleep-frame :
    (old new : Ptr → Tcb) (ss : List Sleeper)
    → ((x : Ptr)
        → member x (names ss) ≡ true
        → (new x).time_sleep_relative ≡ (old x).time_sleep_relative)
    → ((x : Ptr) → member x (names ss) ≡ true → (new x).sleeps ≡ (old x).sleeps)
    → AllAsleep old ss
    → AllAsleep new ss
unfolding member names
AllAsleep-frame old new [] p q a = tt
AllAsleep-frame old new (s ∷ ss) p q a = (
  p s.thread (ground arith) ∙ a.0,
  q s.thread (ground arith) ∙ a.1,
  a.2,
  AllAsleep-frame old new ss (λ x i. p x (ground arith)) (λ x i. q x (ground arith)) a.3,
)

pub record KeepsSleeping (k g : Kernel) : Type 0 where
  pub head : g.sleep_head ≡ k.sleep_head
  pub bound : g.threads ≡ k.threads
  pub links : (x : Ptr) → (g.tcb x).next_sleep ≡ (k.tcb x).next_sleep
  pub times : (x : Ptr) → (g.tcb x).time_sleep_relative ≡ (k.tcb x).time_sleep_relative
  pub flags : (x : Ptr) → (g.tcb x).sleeps ≡ (k.tcb x).sleeps

pub IsSleeping-frame :
    (k g : Kernel) (ss : List Sleeper) → KeepsSleeping k g → IsSleeping k ss → IsSleeping g ss
IsSleeping-frame k g ss h q = record {
  chain = rw h.head (
      Chain-frame (λ x. (k.tcb x).next_sleep) (λ x. (g.tcb x).next_sleep) k.sleep_head (names ss)
        (λ x i. h.links x) q.chain);
  distinct = q.distinct;
  times = AllAsleep-frame k.tcb g.tcb ss (λ x i. h.times x) (λ x i. h.flags x) q.times;
}
