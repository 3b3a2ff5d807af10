-- ===== src/Threads/Sound/Inert.antt =====
-- Writes that neither move a thread nor change a mark.
use os1_proj.Prelude.{◌≡◌, refl, sym, subst, ◌∙◌, List, [], ◌∷◌, arith, ◌==◌, true, ◌||◌}
use os1_proj.Threads.{Ptr, Kernel, Semaphore, UnblockManner, at_sem}
use os1_proj.Threads.Sync.{set_manner}
use os1_proj.Threads.Frames.{KeepsReady, KeepsReady-trans, at_tcb-Keeps}
use os1_proj.Threads.Waiting.{Waiter, IsWaiting, IsWaiting-frame}
use os1_proj.Threads.Sleeping.{KeepsSleeping}
use os1_proj.Threads.Sleeping.Frames.{KeepsSleeping-trans, set_manner-KeepsSleeping}
use os1_proj.Threads.Sound.{View, alive, Moves, Linked, Linked-frame, KeepsMarks}
use os1_proj.Threads.Sound.Places.{IsWaiting-apart}
use os1_proj.Threads.Sound.Ready.{IsLoose}
use os1_proj.Threads.Sound.Switch.{Sound}

pub record Inert (k g : Kernel) : Type 0 where
  pub ready : KeepsReady k g
  pub asleep : KeepsSleeping k g
  pub marks : KeepsMarks k g
  pub waits : (s : Ptr) (ws : List Waiter) → IsWaiting k s ws → IsWaiting g s ws
  pub runs : g.running ≡ k.running

pub Inert-trans : (k g h : Kernel) → Inert k g → Inert g h → Inert k h
Inert-trans k g h a b = record {
  ready = KeepsReady-trans k g h a.ready b.ready;
  asleep = KeepsSleeping-trans k g h a.asleep b.asleep;
  marks = record {
    sleeps = λ x. b.marks.sleeps x ∙ a.marks.sleeps x;
    blocked = λ x. b.marks.blocked x ∙ a.marks.blocked x;
    finished = λ x. b.marks.finished x ∙ a.marks.finished x;
    idle = b.marks.idle ∙ a.marks.idle;
  };
  waits = λ s ws q. b.waits s ws (a.waits s ws q);
  runs = b.runs ∙ a.runs;
}

pub Linked-Inert :
    (all : List Ptr) (k g : Kernel) (v : View) (h : List Ptr)
    → Inert k g
    → Linked all k v h
    → Linked all g v h
Linked-Inert all k g v h i l =
    Linked-frame all k g v h i.ready i.asleep i.marks (λ s q. i.waits s (v.waiting s) q) l

pub Sound-Inert :
    (all : List Ptr) (k g : Kernel) (v : View) → Inert k g → Sound all k v → Sound all g v
Sound-Inert all k g v i s = record {
  linked =
      subst (λ r. Linked all g v (r ∷ [])) (sym i.runs)
        (Linked-Inert all k g v (k.running ∷ []) i s.linked);
  left = s.left;
  loose =
      subst (λ r. IsLoose g v r) (sym i.runs)
        (rw (i.marks.sleeps k.running, i.marks.blocked k.running) s.loose);
  runs =
      subst (λ r. (r == g.idle || alive all g r) ≡ true) (sym i.runs)
        (rw (i.marks.idle, i.marks.finished k.running) s.runs);
}

pub Moves-Inert :
    (all : List Ptr) (k g : Kernel) (v : View) (h : List Ptr) (t : Ptr)
    → Inert k g
    → Linked all k v h
    → Moves all k v g v h t
Moves-Inert all k g v h t i l = record {
  linked = Linked-Inert all k g v h i l;
  others = λ x n. rw (i.marks.sleeps x, i.marks.blocked x) refl;
  lives = λ x. rw (i.marks.idle, i.marks.finished x) refl;
  runs = i.runs;
  idle = i.marks.idle;
}

-- A write to a semaphore's value, or to whether it is active.
pub at_sem-Inert :
    (k : Kernel) (this : Ptr) (f : Semaphore → Semaphore)
    → ((s : Semaphore) → (f s).blocked_head ≡ s.blocked_head)
    → ((s : Semaphore) → (f s).blocked_tail ≡ s.blocked_tail)
    → Inert k (at_sem k this f)
at_sem-Inert k this f head tail = record {
  ready = record { head = refl; tail = refl; links = λ x. refl };
  asleep = record {
    head = refl;
    bound = refl;
    links = λ x. refl;
    times = λ x. refl;
    flags = λ x. refl;
  };
  marks = record { sleeps = λ x. refl; blocked = λ x. refl; finished = λ x. refl; idle = refl };
  waits = λ s ws q.
      IsWaiting-apart k (at_sem k this f) s ws (ground (arith, head (k.sem s)))
        (ground (arith, tail (k.sem s))) (λ y at. (refl, refl, refl)) q;
  runs = refl;
}

pub set_manner-Inert : (k : Kernel) (t : Ptr) (how : UnblockManner) → Inert k (set_manner k t how)
set_manner-Inert k t how =
    let (ready, waiting) =
      at_tcb-Keeps k t (λ b. record b { unblock_manner = how }) (λ b. refl) (λ b. refl) (λ b. refl)
        (λ b. refl) in
    record {
      ready = ready;
      asleep = set_manner-KeepsSleeping k t how;
      marks = record {
        sleeps = λ x. ground arith;
        blocked = λ x. ground arith;
        finished = λ x. ground arith;
        idle = refl;
      };
      waits = λ s ws q. IsWaiting-frame k (set_manner k t how) s ws waiting q;
      runs = refl;
    }
