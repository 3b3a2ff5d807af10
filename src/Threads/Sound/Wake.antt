-- ===== src/Threads/Sound/Wake.antt =====
-- Both forms of Sleep::get, and the places of the threads.
use os1_proj.Prelude.{
  ◌≡◌, ◌≢◌, refl, sym, subst, ◌∙◌, ap, ◌<◌, true, false, ◌&&◌, not, List, [], ◌∷◌, arith, ◌==◌,
  Bool-cases, inl, inr, ==_iff, ◌≤◌, word, ◌+◌,
}
use os1_proj.Threads.{Ptr, null, Kernel}
use os1_proj.Threads.Blocking.{
  get_sleep, take_sleep, unlink_sleeping, awake as get_awake, inherit_time,
}
use os1_proj.Threads.Chains.{member}
use os1_proj.Threads.Frames.{KeepsReady, KeepsWaiting, take_sleep-Keeps}
use os1_proj.Threads.Waiting.{IsQueue-frame, IsWaiting-frame}
use os1_proj.Threads.Sleeping.{Sleeper, names, take_over, IsSleeping}
use os1_proj.Threads.Sleeping.Wake.{get_sleep-KeepsReady, get_sleep-IsSleeping, first_time}
use os1_proj.Threads.Removal.{before, before_other, member-without}
use os1_proj.Threads.Removal.Sleepers.{
  total, total-take_over, total-take_out, names-take_over, names-take_out, take_out, other_flag,
  no_flag, take_sleep_lem, take_sleep-IsSleeping,
}
use os1_proj.Threads.Sound.{View, alive, Linked, Moves, Place-same}
use os1_proj.Threads.Sound.Places.{Linked-length}
use os1_proj.Threads.Sound.Sleep.{with_asleep}

-- Among the marks, only whether `t` sleeps changes: it does not.
record Rouses (k g : Kernel) (t : Ptr) : Type 0 where
  others : (x : Ptr) → x ≢ t → (g.tcb x).sleeps ≡ (k.tcb x).sleeps
  up : (g.tcb t).sleeps ≡ false
  finished : (x : Ptr) → (g.tcb x).finished ≡ (k.tcb x).finished
  runs : g.running ≡ k.running

-- The thread `t` no longer sleeps, and comes into the kernel's hands.
rouse-Moves :
    (all : List Ptr) (k g : Kernel) (v : View) (h : List Ptr) (t : Ptr) (ss : List Sleeper)
    → KeepsReady k g
    → KeepsWaiting k g
    → Rouses k g t
    → IsSleeping g ss
    → total ss < word
    → ((x : Ptr) → member x (names ss) ≡ (member x (names v.asleep) && not (x == t)))
    → alive all k t ≡ true
    → Linked all k v h
    → Moves all k v g (with_asleep v ss) (t ∷ h) t
unfolding member
rouse-Moves all k g v h t ss ready keeps marks q b left live l = record {
  linked = record {
    queue = IsQueue-frame k g v.ready ready l.queue;
    sleeping = q;
    below = b;
    waits = λ s n. IsWaiting-frame k g s (v.waiting s) keeps (l.waits s n);
    room = rw keeps.bound l.room;
    real = l.real;
    place = λ x.
        let p = l.place x in
        elim (Bool-cases (x == t)) [
          | inl e ↦
              let here = (==_iff x t).0 e in
              let up : (g.tcb x).sleeps ≡ false = rw here marks.up in
              record {
                asleep = up ∙ sym (left x ∙ ground (arith, e));
                blocked = λ n. rw (keeps.places x) (p.blocked (λ z. n (keeps.places x ∙ z)));
                apart = λ i. (up, keeps.places x ∙ (p.apart i).1);
                live = λ i. rw (keeps.idles, marks.finished x, here) live;
                placed = λ i. ground (arith, e);
              }
          | inr e ↦
              Place-same all k g v (with_asleep v ss) h (t ∷ h) x
                (record {
                  sleeps = marks.others x (λ m. ground (arith, m, e));
                  blocked = keeps.places x;
                  finished = marks.finished x;
                  idle = keeps.idles;
                  ready = refl;
                  asleep = left x ∙ ground (arith, e);
                  waiting = refl;
                  hands = λ i. ground (arith, i);
                })
                p
        ];
  };
  others = λ x n. rw (marks.others x n, keeps.places x) refl;
  lives = λ x. rw (keeps.idles, marks.finished x) refl;
  runs = marks.runs;
  idle = keeps.idles;
}

get_sleep-KeepsWaiting : (k : Kernel) → KeepsWaiting k (get_sleep k).0
unfolding get_sleep get_awake inherit_time
get_sleep-KeepsWaiting k = record {
  sems = ground arith;
  idles = ground arith;
  bound = ground arith;
  links = λ x. ground arith;
  places = λ x. ground arith;
  tokens = λ x. ground arith;
}

get_sleep-Rouses : (k : Kernel) (t : Ptr) → k.sleep_head ≡ t → t ≢ null → Rouses k (get_sleep k).0 t
unfolding get_sleep get_awake inherit_time
get_sleep-Rouses k t first nz = record {
  others = λ x n. ground (arith, first, n);
  up = ground (arith, first, nz);
  finished = λ x. ground arith;
  runs = ground arith;
}

total_first : (ss : List Sleeper) → first_time ss ≤ total ss
unfolding total
total_first [] = omega arith
total_first (s ∷ ss) = omega arith

-- The first thread that sleeps comes into the kernel's hands.
pub get_sleep-Moves :
    (all : List Ptr) (k : Kernel) (v : View) (h : List Ptr) (s : Sleeper) (ss : List Sleeper)
    → v.asleep ≡ s ∷ ss
    → Linked all k v h
    → Moves all k v (get_sleep k).0 (with_asleep v (take_over s.time ss)) (s.thread ∷ h) s.thread
unfolding names member total
get_sleep-Moves all k v h s ss e l =
    let g = (get_sleep k).0 in
    let q : IsSleeping k (s ∷ ss) = subst (IsSleeping k) e l.sleeping in
    let b : s.time + total ss < word = subst (λ z. total z < word) e l.below in
    let p = l.place s.thread in
    let asleep : (k.tcb s.thread).sleeps ≡ true = q.times.1 in
    rouse-Moves all k g v h s.thread (take_over s.time ss) (get_sleep-KeepsReady k)
      (get_sleep-KeepsWaiting k) (get_sleep-Rouses k s.thread q.chain.0 q.chain.1)
      (get_sleep-IsSleeping k s ss (omega (arith, b, total_first ss)) q).1
      (omega (arith, b, total-take_over s.time ss))
      (λ x. ap (member x) (names-take_over s.time ss) ∙ rw e (ground (arith, q.distinct.0)))
      (p.live (ground (arith, asleep))) l

unlink_sleeping_rest :
    (k : Kernel) (t b x : Ptr)
    → (((unlink_sleeping k t b).tcb x).finished ≡ (k.tcb x).finished)
      × ((unlink_sleeping k t b).running ≡ k.running)
unfolding unlink_sleeping get_awake inherit_time
unlink_sleeping_rest k t b x = (ground arith, ground arith)

-- A given thread that sleeps comes into the kernel's hands.
pub take_sleep-Moves :
    (all : List Ptr) (k : Kernel) (v : View) (h : List Ptr) (t : Ptr)
    → (k.tcb t).sleeps ≡ true
    → Linked all k v h
    → Moves all k v (take_sleep k t).0 (with_asleep v (take_out t v.asleep)) (t ∷ h) t
take_sleep-Moves all k v h t e l =
    let ss = v.asleep in
    let p = l.place t in
    let live = p.live (ground (arith, e)) in
    let nz : t ≢ null = λ z. ground (arith, z, live, l.real) in
    let b = before null t (names ss) in
    let i : member t (names ss) ≡ true = sym p.asleep ∙ e in
    let q = l.sleeping in
    let apart : t ≢ b = before_other null t (names ss) q.distinct nz i in
    let few =
      Linked-length all k v h (names ss) q.distinct
        (λ x j. (l.place x).live (ground (arith, (l.place x).asleep, j))) l in
    let (ready, waiting) = take_sleep-Keeps k t in
    rouse-Moves all k (take_sleep k t).0 v h t (take_out t ss) ready waiting
      (subst (λ o. Rouses k o.0 t) (sym (take_sleep_lem k t ss nz i few q))
        (record {
          others = other_flag k t b nz apart;
          up = no_flag k t b nz apart;
          finished = λ x. (unlink_sleeping_rest k t b x).0;
          runs = (unlink_sleeping_rest k t b t).1;
        }))
      (take_sleep-IsSleeping k t ss nz i few l.below q).1
      (omega (arith, total-take_out t ss, l.below))
      (λ x. ap (member x) (names-take_out t ss) ∙ member-without x t (names ss) q.distinct) live l
