-- ===== src/Threads/Sound/Names.antt =====
-- The semaphores of a thread and its parent, where threads are moved from list to list.
use os1_proj.Prelude.{◌≡◌, refl, ◌∙◌, ap, ℕ, true, arith}
use os1_proj.Threads.{Ptr, Kernel, Tcb, UnblockManner, at_tcb, put_ready, get_ready}
use os1_proj.Threads.Blocking.{
  put_blocked, get_blocked, take_blocked, put_sleep, get_sleep, take_sleep, unblocked,
  unlink_blocked, unlink_sleeping, inherit_time, awake, link_first, link_before, link_behind,
}
use os1_proj.Threads.Sync.{set_manner}

pub record KeepsNames (k g : Kernel) : Type 0 where
  pub for_send : (x : Ptr) → (g.tcb x).sem_send ≡ (k.tcb x).sem_send
  pub for_receive : (x : Ptr) → (g.tcb x).sem_receive ≡ (k.tcb x).sem_receive
  pub for_join : (x : Ptr) → (g.tcb x).sem_join ≡ (k.tcb x).sem_join
  pub for_join_all : (x : Ptr) → (g.tcb x).sem_join_all ≡ (k.tcb x).sem_join_all
  pub parent : (x : Ptr) → (g.tcb x).parent ≡ (k.tcb x).parent
  pub over : (x : Ptr) → (k.tcb x).finished ≡ true → (g.tcb x).finished ≡ true
  pub idle : g.idle ≡ k.idle

pub KeepsNames-trans : (k g h : Kernel) → KeepsNames k g → KeepsNames g h → KeepsNames k h
KeepsNames-trans k g h a b = record {
  for_send = λ x. b.for_send x ∙ a.for_send x;
  for_receive = λ x. b.for_receive x ∙ a.for_receive x;
  for_join = λ x. b.for_join x ∙ a.for_join x;
  for_join_all = λ x. b.for_join_all x ∙ a.for_join_all x;
  parent = λ x. b.parent x ∙ a.parent x;
  over = λ x e. b.over x (a.over x e);
  idle = b.idle ∙ a.idle;
}

-- A write that touches no thread.
pub same_threads : (k g : Kernel) → g.tcb ≡ k.tcb → g.idle ≡ k.idle → KeepsNames k g
same_threads k g e i = record {
  for_send = λ x. ap (λ f. (f x).sem_send) e;
  for_receive = λ x. ap (λ f. (f x).sem_receive) e;
  for_join = λ x. ap (λ f. (f x).sem_join) e;
  for_join_all = λ x. ap (λ f. (f x).sem_join_all) e;
  parent = λ x. ap (λ f. (f x).parent) e;
  over = λ x o. ap (λ f. (f x).finished) e ∙ o;
  idle = i;
}

abbrev KeepsAll : Kernel → Kernel → Ptr → Type 0
KeepsAll k g x =
    ((g.tcb x).sem_send ≡ (k.tcb x).sem_send)
    × ((g.tcb x).sem_receive ≡ (k.tcb x).sem_receive)
    × ((g.tcb x).sem_join ≡ (k.tcb x).sem_join)
    × ((g.tcb x).sem_join_all ≡ (k.tcb x).sem_join_all)
    × ((g.tcb x).parent ≡ (k.tcb x).parent)
    × ((k.tcb x).finished ≡ true → (g.tcb x).finished ≡ true)

all_kept : (k g : Kernel) → g.idle ≡ k.idle → ((x : Ptr) → KeepsAll k g x) → KeepsNames k g
all_kept k g i f = record {
  for_send = λ x. (f x).0;
  for_receive = λ x. (f x).1;
  for_join = λ x. (f x).2;
  for_join_all = λ x. (f x).3;
  parent = λ x. (f x).4;
  over = λ x. (f x).5;
  idle = i;
}

pub put_ready-KeepsNames : (k : Kernel) (t : Ptr) → KeepsNames k (put_ready k t)
unfolding put_ready
put_ready-KeepsNames k t = all_kept k (put_ready k t) (ground arith) (λ x.
    (ground arith, ground arith, ground arith, ground arith, ground arith, λ e. ground (arith, e)))

pub get_ready-KeepsNames : (k : Kernel) → KeepsNames k (get_ready k).0
unfolding get_ready
get_ready-KeepsNames k = all_kept k (get_ready k).0 (ground arith) (λ x.
    (ground arith, ground arith, ground arith, ground arith, ground arith, λ e. ground (arith, e)))

pub get_blocked-KeepsNames : (k : Kernel) (this : Ptr) → KeepsNames k (get_blocked k this).0
unfolding get_blocked unblocked
get_blocked-KeepsNames k this = all_kept k (get_blocked k this).0 (ground arith) (λ x.
    (ground arith, ground arith, ground arith, ground arith, ground arith, λ e. ground (arith, e)))

pub take_blocked-KeepsNames : (k : Kernel) (this t : Ptr) → KeepsNames k (take_blocked k this t).0
unfolding take_blocked unlink_blocked unblocked
take_blocked-KeepsNames k this t = all_kept k (take_blocked k this t).0 (ground arith) (λ x.
    (ground arith, ground arith, ground arith, ground arith, ground arith, λ e. ground (arith, e)))

pub put_blocked-KeepsNames :
    (k : Kernel) (this t : Ptr) (n : ℕ) → KeepsNames k (put_blocked k this t n)
unfolding put_blocked
put_blocked-KeepsNames k this t n = all_kept k (put_blocked k this t n) (ground arith) (λ x.
    (ground arith, ground arith, ground arith, ground arith, ground arith, λ e. ground (arith, e)))

pub put_sleep-KeepsNames : (k : Kernel) (t : Ptr) (d : ℕ) → KeepsNames k (put_sleep k t d)
unfolding put_sleep link_first link_before link_behind
put_sleep-KeepsNames k t d = all_kept k (put_sleep k t d) (ground arith) (λ x.
    (ground arith, ground arith, ground arith, ground arith, ground arith, λ e. ground (arith, e)))

pub get_sleep-KeepsNames : (k : Kernel) → KeepsNames k (get_sleep k).0
unfolding get_sleep awake inherit_time
get_sleep-KeepsNames k = all_kept k (get_sleep k).0 (ground arith) (λ x.
    (ground arith, ground arith, ground arith, ground arith, ground arith, λ e. ground (arith, e)))

pub take_sleep-KeepsNames : (k : Kernel) (t : Ptr) → KeepsNames k (take_sleep k t).0
unfolding take_sleep unlink_sleeping awake inherit_time
take_sleep-KeepsNames k t = all_kept k (take_sleep k t).0 (ground arith) (λ x.
    (ground arith, ground arith, ground arith, ground arith, ground arith, λ e. ground (arith, e)))

-- A write to a thread's other fields.
pub at_tcb-KeepsNames :
    (k : Kernel) (t : Ptr) (f : Tcb → Tcb)
    → ((b : Tcb) → (f b).sem_send ≡ b.sem_send)
    → ((b : Tcb) → (f b).sem_receive ≡ b.sem_receive)
    → ((b : Tcb) → (f b).sem_join ≡ b.sem_join)
    → ((b : Tcb) → (f b).sem_join_all ≡ b.sem_join_all)
    → ((b : Tcb) → (f b).parent ≡ b.parent)
    → ((b : Tcb) → b.finished ≡ true → (f b).finished ≡ true)
    → KeepsNames k (at_tcb k t f)
at_tcb-KeepsNames k t f a b c d e o = all_kept k (at_tcb k t f) refl (λ x. (
  ground (arith, a (k.tcb x)),
  ground (arith, b (k.tcb x)),
  ground (arith, c (k.tcb x)),
  ground (arith, d (k.tcb x)),
  ground (arith, e (k.tcb x)),
  λ q. ground (arith, q, o (k.tcb x)),
))

pub set_manner-KeepsNames :
    (k : Kernel) (t : Ptr) (how : UnblockManner) → KeepsNames k (set_manner k t how)
set_manner-KeepsNames k t how =
    at_tcb-KeepsNames k t (λ b. record b { unblock_manner = how }) (λ b. refl) (λ b. refl)
      (λ b. refl) (λ b. refl) (λ b. refl) (λ b e. e)
