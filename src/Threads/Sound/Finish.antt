-- ===== src/Threads/Sound/Finish.antt =====
-- TCB::finish, up to where everybody who waits for the thread has been told.
use os1_proj.Prelude.{
  ◌≡◌, ◌≢◌, refl, sym, ◌∙◌, ◌&&◌, not, List, arith, ◌==◌, Bool-cases, inl, inr, ◌-w◌, Bool,
}
use os1_proj.Threads.{Ptr, null, Kernel, at_tcb}
use os1_proj.Threads.Frames.{at_tcb-Keeps}
use os1_proj.Threads.Waiting.{IsWaiting-frame}
use os1_proj.Threads.Sync.{signal, signal_all, close}
use os1_proj.Threads.Calls.{leave_parent}
use os1_proj.Threads.Sound.{View}
use os1_proj.Threads.Sound.Inert.{Inert}
use os1_proj.Threads.Sound.Release.{Releases}
use os1_proj.Threads.Sound.Signal.{
  Releases-trans, Releases-Inert, signal_all-Releases, close-Releases,
}
use os1_proj.Threads.Sound.Pay.{signal-Releases}
use os1_proj.Threads.Sound.Names.{KeepsNames, KeepsNames-trans, at_tcb-KeepsNames}
use os1_proj.Threads.Sound.Kept.{signal_all-KeepsNames, close-KeepsNames, signal-KeepsNames}

-- Threads are released, and each one keeps its semaphores and its parent.
pub record Lets (all : List Ptr) (k : Kernel) (v : View) (h : List Ptr) (g : Kernel) : Type 0 where
  pub released : Releases all k v h g
  pub names : KeepsNames k g

module _ (all : List Ptr) (k : Kernel) (v : View) (h : List Ptr) (g : Kernel)
    (l : Lets all k v h g) where
  then_released :
      (i : Kernel) → Releases all g l.released.lists h i → KeepsNames g i → Lets all k v h i
  then_released i r n = record {
    released = Releases-trans all k g i v h l.released r;
    names = KeepsNames-trans k g i l.names n;
  }

  pub then_close : (p : Ptr) → p ≢ null → Lets all k v h (close g p).0
  then_close p n =
      then_released (close g p).0
        (close-Releases all g l.released.lists h p n l.released.left l.released.linked)
        (close-KeepsNames g p)

  pub then_signal_all :
      (p n : Ptr) (closing : Bool) → p ≢ null → Lets all k v h (signal_all g p n closing).0
  then_signal_all p n closing z =
      then_released (signal_all g p n closing).0
        (signal_all-Releases all g l.released.lists h p n closing z l.released.left
          l.released.linked)
        (signal_all-KeepsNames g p n closing)

  then_signal : (p n : Ptr) → p ≢ null → Lets all k v h (signal g p n).0
  then_signal p n z =
      then_released (signal g p n).0
        (signal-Releases all g l.released.lists h p n z l.released.left l.released.linked)
        (signal-KeepsNames g p n)

-- One child fewer.
abbrev fewer : Kernel → Ptr → Kernel
fewer k p = at_tcb k p (λ b. record b { num_of_active_children = b.num_of_active_children -w 1 })

fewer-Inert : (k : Kernel) (p : Ptr) → Inert k (fewer k p)
fewer-Inert k p =
    let (ready, waiting) =
      at_tcb-Keeps k p (λ b. record b { num_of_active_children = b.num_of_active_children -w 1 })
        (λ b. refl) (λ b. refl) (λ b. refl) (λ b. refl) in
    record {
      ready = ready;
      asleep = record {
        head = refl;
        bound = refl;
        links = λ x. ground arith;
        times = λ x. ground arith;
        flags = λ x. ground arith;
      };
      marks = record {
        sleeps = λ x. ground arith;
        blocked = λ x. ground arith;
        finished = λ x. ground arith;
        idle = refl;
      };
      waits = λ s ws q. IsWaiting-frame k (fewer k p) s ws waiting q;
      runs = refl;
    }

fewer-Lets :
    (all : List Ptr) (k : Kernel) (v : View) (h : List Ptr) (g : Kernel) (p : Ptr)
    → Lets all k v h g
    → Lets all k v h (fewer g p)
fewer-Lets all k v h g p l = record {
  released = Releases-Inert all k g (fewer g p) v h (fewer-Inert g p) l.released;
  names = KeepsNames-trans k g (fewer g p) l.names (
      at_tcb-KeepsNames g p
        (λ b. record b { num_of_active_children = b.num_of_active_children -w 1 }) (λ b. refl)
        (λ b. refl) (λ b. refl) (λ b. refl) (λ b. refl) (λ b e. e));
}

pub leave_parent-Lets :
    (all : List Ptr) (k : Kernel) (v : View) (h : List Ptr) (g : Kernel) (p : Ptr)
    → (p ≢ null → (g.tcb p).sem_join_all ≢ null)
    → Lets all k v h g
    → Lets all k v h (leave_parent g p)
unfolding leave_parent
leave_parent-Lets all k v h g p owns l =
    elim (Bool-cases (not (p == null) && not (g.tcb p).finished)) [
      | inr e ↦ rw e l
      | inl e ↦
          let i = fewer g p in
          let m = fewer-Lets all k v h g p l in
          let same : (i.tcb p).sem_join_all ≡ (g.tcb p).sem_join_all = ground arith in
          let some : (i.tcb p).sem_join_all ≢ null =
            λ z. owns (λ q. ground (arith, e, q)) (sym same ∙ z) in
          elim (Bool-cases ((i.tcb p).blocked_at_sem == (i.tcb p).sem_join_all)) [
            | inl w ↦ rw (e, w) (then_signal all k v h i m (i.tcb p).sem_join_all 1 some)
            | inr w ↦ rw (e, w) m
          ]
    ]
