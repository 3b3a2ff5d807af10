-- ===== src/Threads/Sleeping/Marks.antt =====
-- The lists of sleeping threads, their times and their marks, where Sleep::put changes them.
use os1_proj.Prelude.{
  ℕ, ◌-◌, ◌≡◌, ◌≢◌, refl, true, false, ◌||◌, List, [], ◌∷◌, ◌==◌, ltb, arith, Bool-cases, inl, inr,
  ==_iff,
}
use os1_proj.Threads.{Ptr, Tcb, Kernel, at_tcb}
use os1_proj.Threads.Chains.{member, Chain, Distinct, Chain-frame}
use os1_proj.Threads.Sleeping.{Sleeper, names, insert, AllAsleep, IsSleeping}
use os1_proj.Threads.Sleeping.Behind.{HaveTimes, HaveTimes-frame}

pub HaveTimes-AllAsleep :
    (tcb : Ptr → Tcb) (ss : List Sleeper)
    → AllAsleep tcb ss
    → HaveTimes (λ x. (tcb x).time_sleep_relative) ss
HaveTimes-AllAsleep tcb [] a = tt
HaveTimes-AllAsleep tcb (s ∷ ss) a = (a.0, a.2, HaveTimes-AllAsleep tcb ss a.3)

pub AllAsleep-HaveTimes :
    (tcb : Ptr → Tcb) (ss : List Sleeper)
    → HaveTimes (λ x. (tcb x).time_sleep_relative) ss
    → ((x : Ptr) → member x (names ss) ≡ true → (tcb x).sleeps ≡ true)
    → AllAsleep tcb ss
unfolding names member
AllAsleep-HaveTimes tcb [] a f = tt
AllAsleep-HaveTimes tcb (s ∷ ss) a f = (
  a.0,
  f s.thread (ground arith),
  a.1,
  AllAsleep-HaveTimes tcb ss a.2 (λ x i. f x (ground (arith, i))),
)

pub all_sleep :
    (tcb : Ptr → Tcb) (ss : List Sleeper) (x : Ptr)
    → AllAsleep tcb ss
    → member x (names ss) ≡ true
    → (tcb x).sleeps ≡ true
unfolding names member
all_sleep tcb [] x a i = absurd (ground (arith, i))
all_sleep tcb (s ∷ ss) x a i = elim (Bool-cases (x == s.thread)) [
  | inl e ↦ rw ((==_iff x s.thread).0 e) a.1
  | inr e ↦ all_sleep tcb ss x a.3 (ground (arith, i, e))
]

pub member-insert :
    (x t : Ptr) (d : ℕ) (ss : List Sleeper)
    → member x (names (insert t d ss)) ≡ ((x == t) || member x (names ss))
unfolding names insert member
member-insert x t d [] = refl
member-insert x t d (s ∷ ss) = ground (arith, member-insert x t (d - s.time) ss)

pub Distinct-insert :
    (t : Ptr) (d : ℕ) (ss : List Sleeper)
    → member t (names ss) ≡ false
    → Distinct (names ss)
    → Distinct (names (insert t d ss))
unfolding names insert member
Distinct-insert t d [] out q = (refl, tt)
Distinct-insert t d (s ∷ ss) out q = elim (Bool-cases (ltb d s.time)) [
  | inl e ↦ rw e (out, q)
  | inr e ↦ rw e (
    ground (arith, member-insert s.thread t (d - s.time) ss, q.0, out),
    Distinct-insert t (d - s.time) ss (ground (arith, out)) q.1,
  )
]

-- The last line of Sleep::put
abbrev pub mark : Kernel → Ptr → Kernel
mark k t = at_tcb k t (λ b. record b { sleeps = true })

pub mark-IsSleeping :
    (k : Kernel) (t : Ptr) (ss : List Sleeper)
    → Chain (λ x. (k.tcb x).next_sleep) k.sleep_head (names ss)
    → HaveTimes (λ x. (k.tcb x).time_sleep_relative) ss
    → Distinct (names ss)
    → ((x : Ptr) → member x (names ss) ≡ true → x ≢ t → (k.tcb x).sleeps ≡ true)
    → IsSleeping (mark k t) ss
mark-IsSleeping k t ss c a d f =
    let g = mark k t in
    record {
      chain =
          Chain-frame (λ x. (k.tcb x).next_sleep) (λ x. (g.tcb x).next_sleep) k.sleep_head
            (names ss) (λ x i. ground arith) c;
      distinct = d;
      times =
          AllAsleep-HaveTimes g.tcb ss
            (HaveTimes-frame (λ x. (k.tcb x).time_sleep_relative)
              (λ x. (g.tcb x).time_sleep_relative) ss (λ x i. ground arith) a)
            (λ x i. ground (arith, f x i));
    }
