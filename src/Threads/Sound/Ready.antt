-- ===== src/Threads/Sound/Ready.antt =====
-- Scheduler::put and the places of the threads.
use os1_proj.Prelude.{
  ◌≡◌, refl, ◌∙◌, true, false, List, [], ◌∷◌, ◌++◌, arith, ◌==◌, Bool-cases, inl, inr, ==_iff,
}
use os1_proj.Threads.{Ptr, Kernel, put_ready}
use os1_proj.Threads.Chains.{member, member-append_one}
use os1_proj.Threads.Ready.{put_ready-IsQueue}
use os1_proj.Threads.Frames.{put_ready-KeepsWaiting}
use os1_proj.Threads.Waiting.{IsWaiting-frame}
use os1_proj.Threads.Sleeping.{IsSleeping-frame}
use os1_proj.Threads.Sleeping.Frames.{put_ready-KeepsSleeping}
use os1_proj.Threads.Sound.{View, listed, alive, Linked, Moves, Place-same, KeepsMarks}

-- The thread stands in no list.
abbrev pub IsLoose : Kernel → View → Ptr → Type 0
IsLoose k v t = listed k v t ≡ false

put_ready-KeepsMarks : (k : Kernel) (t : Ptr) → KeepsMarks k (put_ready k t)
unfolding put_ready
put_ready-KeepsMarks k t = record {
  sleeps = λ x. ground arith;
  blocked = λ x. ground arith;
  finished = λ x. ground arith;
  idle = ground arith;
}

put_ready_running : (k : Kernel) (t : Ptr) → (put_ready k t).running ≡ k.running
unfolding put_ready
put_ready_running k t = ground arith

abbrev pub with_ready : View → List Ptr → View
with_ready v xs = record v { ready = xs }

-- A thread in the kernel's hands goes to the end of the ready queue.
pub put_ready-Linked :
    (all : List Ptr) (k : Kernel) (v : View) (h : List Ptr) (t : Ptr)
    → IsLoose k v t
    → alive all k t ≡ true
    → Linked all k v (t ∷ h)
    → Linked all (put_ready k t) (with_ready v (v.ready ++ t ∷ [])) h
unfolding member
put_ready-Linked all k v h t loose live l =
    let g = put_ready k t in
    let marks = put_ready-KeepsMarks k t in
    let asleep = put_ready-KeepsSleeping k t in
    record {
      queue =
          put_ready-IsQueue k t v.ready (λ e. ground (arith, e, live, l.real))
            (λ e. ground (arith, e, live)) (ground (arith, loose)) l.queue;
      sleeping = IsSleeping-frame k g v.asleep asleep l.sleeping;
      below = l.below;
      waits = λ s n. IsWaiting-frame k g s (v.waiting s) (put_ready-KeepsWaiting k t) (l.waits s n);
      room = rw asleep.bound l.room;
      real = l.real;
      place = λ x.
          let p = l.place x in
          let there = member-append_one x t v.ready in
          elim (Bool-cases (x == t)) [
            | inl e ↦
                let here = (==_iff x t).0 e in
                record {
                  asleep = marks.sleeps x ∙ p.asleep;
                  blocked = λ n. rw (marks.blocked x) (p.blocked (λ e. n (marks.blocked x ∙ e)));
                  apart = λ i. (
                    marks.sleeps x ∙ ground (arith, loose, here),
                    marks.blocked x ∙ ground (arith, loose, here),
                  );
                  live = λ i. rw (marks.idle, marks.finished x, here) live;
                  placed = λ i. ground (arith, there, e);
                }
            | inr e ↦
                Place-same all k g v (with_ready v (v.ready ++ t ∷ [])) (t ∷ h) h x
                  (record {
                    sleeps = marks.sleeps x;
                    blocked = marks.blocked x;
                    finished = marks.finished x;
                    idle = marks.idle;
                    ready = there ∙ ground (arith, e);
                    asleep = refl;
                    waiting = refl;
                    hands = λ i. ground (arith, i, e);
                  })
                  p
          ];
    }

pub put_ready-Moves :
    (all : List Ptr) (k : Kernel) (v : View) (h : List Ptr) (t : Ptr)
    → IsLoose k v t
    → alive all k t ≡ true
    → Linked all k v (t ∷ h)
    → Moves all k v (put_ready k t) (with_ready v (v.ready ++ t ∷ [])) h t
put_ready-Moves all k v h t loose live l =
    let marks = put_ready-KeepsMarks k t in
    record {
      linked = put_ready-Linked all k v h t loose live l;
      others = λ x n.
          rw (marks.sleeps x, marks.blocked x, member-append_one x t v.ready) (ground (arith, n));
      lives = λ x. rw (marks.idle, marks.finished x) refl;
      runs = put_ready_running k t;
      idle = marks.idle;
    }
