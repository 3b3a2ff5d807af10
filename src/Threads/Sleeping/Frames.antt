-- ===== src/Threads/Sleeping/Frames.antt =====
-- Which operations leave the sleeping threads alone.
use os1_proj.Prelude.{refl, ◌∙◌, arith}
use os1_proj.Threads.{Ptr, Kernel, put_ready, UnblockManner}
use os1_proj.Threads.Blocking.{take_blocked, unblocked}
use os1_proj.Threads.Sync.{set_manner}
use os1_proj.Threads.Frames.{KeepsReady}
use os1_proj.Threads.Sleeping.{KeepsSleeping}

pub KeepsSleeping-trans :
    (k g h : Kernel) → KeepsSleeping k g → KeepsSleeping g h → KeepsSleeping k h
KeepsSleeping-trans k g h a b = record {
  head = b.head ∙ a.head;
  bound = b.bound ∙ a.bound;
  links = λ x. b.links x ∙ a.links x;
  times = λ x. b.times x ∙ a.times x;
  flags = λ x. b.flags x ∙ a.flags x;
}

pub set_manner-KeepsSleeping :
    (k : Kernel) (t : Ptr) (how : UnblockManner) → KeepsSleeping k (set_manner k t how)
set_manner-KeepsSleeping k t how = record {
  head = refl;
  bound = refl;
  links = λ x. ground arith;
  times = λ x. ground arith;
  flags = λ x. ground arith;
}

pub put_ready-KeepsSleeping : (k : Kernel) (t : Ptr) → KeepsSleeping k (put_ready k t)
unfolding put_ready
put_ready-KeepsSleeping k t = record {
  head = ground arith;
  bound = ground arith;
  links = λ x. ground arith;
  times = λ x. ground arith;
  flags = λ x. ground arith;
}

pub take_blocked-KeepsSleeping :
    (k : Kernel) (this t : Ptr) → KeepsSleeping k (take_blocked k this t).0
unfolding take_blocked unblocked
take_blocked-KeepsSleeping k this t = record {
  head = ground arith;
  bound = ground arith;
  links = λ x. ground arith;
  times = λ x. ground arith;
  flags = λ x. ground arith;
}

pub take_blocked-KeepsReady : (k : Kernel) (this t : Ptr) → KeepsReady k (take_blocked k this t).0
unfolding take_blocked unblocked
take_blocked-KeepsReady k this t = record {
  head = ground arith;
  tail = ground arith;
  links = λ x. ground arith;
}
