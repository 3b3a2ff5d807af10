-- ===== src/Threads/Sound/Exit.antt =====
-- The end of TCB::finish, and the places of the threads when it is done.
use os1_proj.Prelude.{
  ◌≡◌, refl, ◌∙◌, ℕ, true, false, List, [], ◌∷◌, arith, ◌==◌, Bool-cases, inl, inr, ==_iff,
}
use os1_proj.Threads.{Ptr, null, Kernel, at_tcb}
use os1_proj.Threads.Chains.{member}
use os1_proj.Threads.Frames.{at_tcb-Keeps}
use os1_proj.Threads.Waiting.{IsWaiting-frame, IsQueue-frame}
use os1_proj.Threads.Sync.{signal_all, close}
use os1_proj.Threads.Calls.{leave_parent, retire, finish}
use os1_proj.Threads.Sleeping.{SomeLeft, IsSleeping-frame}
use os1_proj.Threads.Sound.{View, Linked, Place-same}
use os1_proj.Threads.Sound.Ready.{IsLoose}
use os1_proj.Threads.Sound.Switch.{IsValid, leave-Sound}
use os1_proj.Threads.Sound.Signal.{Releases-refl}
use os1_proj.Threads.Sound.Names.{KeepsNames, KeepsNames-trans, same_threads, at_tcb-KeepsNames}
use os1_proj.Threads.Sound.Kept.{yield-KeepsNames}
use os1_proj.Threads.Sound.Owners.{Owns, Owns-kept}
use os1_proj.Threads.Sound.Finish.{Lets, then_close, then_signal_all, leave_parent-Lets}

-- TCB::finish, when everybody who waits for the thread has been told.
abbrev told : Kernel → Kernel
told k =
    let me = k.running in
    let k1 = (close k (k.tcb me).sem_send).0 in
    let k2 = (close k1 (k1.tcb me).sem_receive).0 in
    let k3 = (signal_all k2 (k2.tcb me).sem_join 0 false).0 in
    let k4 = (close k3 (k3.tcb me).sem_join).0 in
    let k5 = leave_parent k4 (k4.tcb me).parent in (close k5 (k5.tcb me).sem_join_all).0

told-Lets :
    (all : List Ptr) (k : Kernel) (v : View)
    → ((x : Ptr) → member x all ≡ true → Owns all k x)
    → member k.running all ≡ true
    → SomeLeft v.asleep
    → Linked all k v (k.running ∷ [])
    → Lets all k v (k.running ∷ []) (told k)
told-Lets all k v owns i left l =
    let me = k.running in
    let h = me ∷ [] in
    let mine : (g : Kernel) → KeepsNames k g → Owns all g me =
      λ g n. Owns-kept all k g me n (owns me i) in
    let s0 : Lets all k v h k = record {
      released = Releases-refl all k v h left l;
      names = same_threads k k refl refl;
    } in
    let k1 = (close k (k.tcb me).sem_send).0 in
    let s1 = then_close all k v h k s0 (k.tcb me).sem_send (owns me i).for_send in
    let k2 = (close k1 (k1.tcb me).sem_receive).0 in
    let s2 = then_close all k v h k1 s1 (k1.tcb me).sem_receive (mine k1 s1.names).for_receive in
    let k3 = (signal_all k2 (k2.tcb me).sem_join 0 false).0 in
    let s3 =
      then_signal_all all k v h k2 s2 (k2.tcb me).sem_join 0 false (mine k2 s2.names).for_join in
    let k4 = (close k3 (k3.tcb me).sem_join).0 in
    let s4 = then_close all k v h k3 s3 (k3.tcb me).sem_join (mine k3 s3.names).for_join in
    let p = (k4.tcb me).parent in
    let s5 =
      leave_parent-Lets all k v h k4 p
        (λ n. (Owns-kept all k k4 p s4.names (owns p ((mine k4 s4.names).parent n))).for_join_all)
        s4 in
    let k5 = leave_parent k4 p in
    then_close all k v h k5 s5 (k5.tcb me).sem_join_all (mine k5 s5.names).for_join_all

-- The last two assignments of TCB::finish
abbrev ended : Kernel → Ptr → ℕ → Kernel
ended k t status = at_tcb k t (λ b. record b { exit_status = status; finished = true })

retire_lem :
    (k : Kernel) (status : ℕ)
    → ((told k).tcb k.running).blocked_at_sem ≡ null
    → ((told k).tcb k.running).sleeps ≡ false
    → retire k status ≡ ended (told k) k.running status
unfolding retire
retire_lem k status free up =
    let nowhere : (((told k).tcb k.running).blocked_at_sem == null) ≡ true = ground (arith, free) in
    rw (nowhere, up) refl

ended-Linked :
    (all : List Ptr) (k : Kernel) (v : View) (t : Ptr) (status : ℕ)
    → IsLoose k v t
    → Linked all k v (t ∷ [])
    → Linked all (ended k t status) v []
unfolding member
ended-Linked all k v t status loose l =
    let g = ended k t status in
    let (ready, waiting) =
      at_tcb-Keeps k t (λ b. record b { exit_status = status; finished = true }) (λ b. refl)
        (λ b. refl) (λ b. refl) (λ b. refl) in
    record {
      queue = IsQueue-frame k g v.ready ready l.queue;
      sleeping =
          IsSleeping-frame k g v.asleep
            (record {
              head = refl;
              bound = refl;
              links = λ x. ground arith;
              times = λ x. ground arith;
              flags = λ x. ground arith;
            })
            l.sleeping;
      below = l.below;
      waits = λ s n. IsWaiting-frame k g s (v.waiting s) waiting (l.waits s n);
      room = l.room;
      real = l.real;
      place = λ x.
          let p = l.place x in
          let flag : (g.tcb x).sleeps ≡ (k.tcb x).sleeps = ground arith in
          let at : (g.tcb x).blocked_at_sem ≡ (k.tcb x).blocked_at_sem = waiting.places x in
          elim (Bool-cases (x == t)) [
            | inl e ↦
                let here = (==_iff x t).0 e in
                let out : IsLoose k v x = rw here loose in
                let over : (g.tcb x).finished ≡ true = ground (arith, e) in
                record {
                  asleep = flag ∙ p.asleep;
                  blocked = λ n. rw at (p.blocked (λ z. n (at ∙ z)));
                  apart = λ i. (flag ∙ (p.apart i).0, at ∙ (p.apart i).1);
                  live = λ i. absurd (ground (arith, i, out, flag, at));
                  placed = λ i. absurd (ground (arith, i, over));
                }
            | inr e ↦
                Place-same all k g v v (t ∷ []) [] x
                  (record {
                    sleeps = flag;
                    blocked = at;
                    finished = ground (arith, e);
                    idle = refl;
                    ready = refl;
                    asleep = refl;
                    waiting = refl;
                    hands = λ i. ground (arith, i, e);
                  })
                  p
          ];
    }

module _ (all : List Ptr) (k : Kernel) (status : ℕ) (known : member k.running all ≡ true)
    (owns : (x : Ptr) → member x all ≡ true → Owns all k x) (h : IsValid all k) where
  all_told : Lets all k h.lists (k.running ∷ []) (told k)
  all_told = told-Lets all k h.lists owns known h.sound.left h.sound.linked

  retire_end : retire k status ≡ ended (told k) k.running status
  retire_end =
      let loose = all_told.released.loose k.running h.sound.loose in
      retire_lem k status (ground (arith, loose)) (ground (arith, loose))

  pub finish-IsValid : IsValid all (finish k status)
  unfolding finish
  finish-IsValid =
      let r = all_told.released in
      let loose = r.loose k.running h.sound.loose in
      rw retire_end (record {
        lists = _;
        sound =
            leave-Sound all (ended (told k) k.running status) r.lists r.left
              (ended-Linked all (told k) r.lists k.running status loose r.linked);
      })

  pub finish-KeepsNames : KeepsNames k (finish k status)
  unfolding finish
  finish-KeepsNames =
      let g = told k in
      let i = ended g k.running status in
      rw retire_end (
        KeepsNames-trans k i _
          (KeepsNames-trans k g i all_told.names (
            at_tcb-KeepsNames g k.running (λ b. record b { exit_status = status; finished = true })
              (λ b. refl) (λ b. refl) (λ b. refl) (λ b. refl) (λ b. refl) (λ b e. refl)))
          (yield-KeepsNames i false))
