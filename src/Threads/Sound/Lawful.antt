-- ===== src/Threads/Sound/Lawful.antt =====
-- What holds of every kernel that the calls and ticks of Step lead to.
use os1_proj.Prelude.{◌≡◌, ◌≢◌, refl, ◌∙◌, true, false, ◌||◌, not, List, arith, ◌==◌}
use os1_proj.Threads.{Ptr, null, Kernel}
use os1_proj.Threads.Chains.{member}
use os1_proj.Threads.Ready.{IsQueue}
use os1_proj.Threads.Sound.Owners.{IsLawful}
use os1_proj.Threads.Sound.Steps.{Steps, no_step, one_more, Step-Goes}

pub Steps-IsLawful :
    (all : List Ptr) (k : Kernel) (most : List Ptr) (g : Kernel)
    → Steps all k most g
    → IsLawful all k
    → IsLawful most g
Steps-IsLawful all k most g no_step h = h
Steps-IsLawful all k most g (one_more {more = m} {g = i} before step) h =
    (Step-Goes m most i g (Steps-IsLawful all k m i before h) step).lawful

-- What steps keep of the threads that there were.
record Stays (all : List Ptr) (k : Kernel) (most : List Ptr) (g : Kernel) : Type 0 where
  known : (x : Ptr) → member x all ≡ true → member x most ≡ true
  over : (x : Ptr) → member x all ≡ true → (k.tcb x).finished ≡ true → (g.tcb x).finished ≡ true
  idle : g.idle ≡ k.idle

Steps-Stays :
    (all : List Ptr) (k : Kernel) (most : List Ptr) (g : Kernel)
    → Steps all k most g
    → IsLawful all k
    → Stays all k most g
Steps-Stays all k most g no_step h = record { known = λ x i. i; over = λ x _ o. o; idle = refl }
Steps-Stays all k most g (one_more {more = m} {g = i} before step) h =
    let a = Steps-Stays all k m i before h in
    let b = Step-Goes m most i g (Steps-IsLawful all k m i before h) step in
    record {
      known = λ x j. b.known x (a.known x j);
      over = λ x j o. b.over x (a.known x j) (a.over x j o);
      idle = b.idle ∙ a.idle;
    }

-- The thread `x` stands in the ready queue.
pub record IsQueued (k : Kernel) (x : Ptr) : Type 0 where
  pub queue : List Ptr
  pub among : member x queue ≡ true
  pub is_queue : IsQueue k queue

-- If every thread of a kernel is in its place and has its semaphores, and a thread other than the idle
-- one, of those that there were, has finished, then after any steps of `Step`, it is not the one that runs.
pub never_again :
    (all : List Ptr) (k : Kernel) (most : List Ptr) (g : Kernel) (x : Ptr)
    → Steps all k most g
    → IsLawful all k
    → member x all ≡ true
    → x ≢ k.idle
    → (k.tcb x).finished ≡ true
    → g.running ≢ x
never_again all k most g x steps h known ni over e =
    let s = (Steps-IsLawful all k most g steps h).valid.sound in
    let kept = Steps-Stays all k most g steps h in
    let done : (g.tcb x).finished ≡ true = kept.over x known over in
    let not_idle : x ≢ g.idle = λ i. ni (i ∙ kept.idle) in ground (arith, s.runs, e, done, not_idle)

-- If every thread of a kernel is in its place and has its semaphores, then after any steps of
-- `Step`, the thread that runs neither sleeps nor is blocked, and has not finished unless
-- it is the idle one.
pub runs_awake :
    (all : List Ptr) (k : Kernel) (most : List Ptr) (g : Kernel)
    → Steps all k most g
    → IsLawful all k
    → ((g.tcb g.running).sleeps ≡ false)
      × ((g.tcb g.running).blocked_at_sem ≡ null)
      × ((g.running == g.idle || not (g.tcb g.running).finished) ≡ true)
runs_awake all k most g steps h =
    let s = (Steps-IsLawful all k most g steps h).valid.sound in
    (ground (arith, s.loose), ground (arith, s.loose), ground (arith, s.runs))
