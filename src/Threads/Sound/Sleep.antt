-- ===== src/Threads/Sound/Sleep.antt =====
-- Sleep::put and the places of the threads.
use os1_proj.Prelude.{
  ◌≡◌, ◌≢◌, refl, sym, ◌∙◌, ap, ℕ, suc, ◌-◌, ◌≤◌, ◌<◌, true, false, List, [], ◌∷◌, arith, ◌==◌,
  Bool-cases, inl, inr, ==_iff, word, length, ltb,
}
use os1_proj.Threads.{Ptr, null, Kernel}
use os1_proj.Threads.Blocking.{put_sleep, link_first, link_before, link_behind}
use os1_proj.Threads.Chains.{member}
use os1_proj.Threads.Frames.{KeepsWaiting}
use os1_proj.Threads.Waiting.{IsQueue-frame, IsWaiting-frame}
use os1_proj.Threads.Sleeping.{Sleeper, names, insert}
use os1_proj.Threads.Sleeping.Marks.{member-insert}
use os1_proj.Threads.Sleeping.Insert.{put_sleep-IsSleeping}
use os1_proj.Threads.Sleeping.Waking.{put_sleep-KeepsReady}
use os1_proj.Threads.Removal.Sleepers.{total}
use os1_proj.Threads.Sound.{View, alive, Linked, Place-same}
use os1_proj.Threads.Sound.Places.{Linked-length}

pub total-insert :
    (t : Ptr) (d n : ℕ) (ss : List Sleeper) → d < n → total ss < n → total (insert t d ss) < n
unfolding total insert
total-insert t d n [] a b = omega (arith, a)
total-insert t d n (s ∷ ss) a b = elim (Bool-cases (ltb d s.time)) [
  | inl e ↦ rw e (ground (arith, a, b, e))
  | inr e ↦ rw e (
      let rest =
        total-insert t (d - s.time) (n - s.time) ss (omega (arith, a, b)) (omega (arith, b)) in
      omega (arith, rest, b))
]

pub length-names : (ss : List Sleeper) → length (names ss) ≡ length ss
unfolding names
length-names [] = refl
length-names (s ∷ ss) = ap suc (length-names ss)

-- No more threads sleep than there are.
pub few_asleep :
    (all : List Ptr) (k : Kernel) (v : View) (h : List Ptr)
    → Linked all k v h
    → length v.asleep ≤ k.threads
few_asleep all k v h l =
    let few =
      Linked-length all k v h (names v.asleep) l.sleeping.distinct
        (λ x i. (l.place x).live (ground (arith, (l.place x).asleep, i))) l in
    omega (arith, few, length-names v.asleep)

put_sleep-KeepsWaiting : (k : Kernel) (t : Ptr) (d : ℕ) → KeepsWaiting k (put_sleep k t d)
unfolding put_sleep link_first link_before link_behind
put_sleep-KeepsWaiting k t d = record {
  sems = ground arith;
  idles = ground arith;
  bound = ground arith;
  links = λ x. ground arith;
  places = λ x. ground arith;
  tokens = λ x. ground arith;
}

put_sleep_marks :
    (k : Kernel) (t : Ptr) (d : ℕ) (x : Ptr)
    → (x ≢ t → ((put_sleep k t d).tcb x).sleeps ≡ (k.tcb x).sleeps)
      × (((put_sleep k t d).tcb x).finished ≡ (k.tcb x).finished)
unfolding put_sleep link_first link_before link_behind
put_sleep_marks k t d x = (λ n. ground (arith, n), ground arith)

put_sleep_marked :
    (k : Kernel) (t : Ptr) (d : ℕ) → t ≢ null → ((put_sleep k t d).tcb t).sleeps ≡ true
unfolding put_sleep
put_sleep_marked k t d n = ground (arith, n)

abbrev pub with_asleep : View → List Sleeper → View
with_asleep v ss = record v { asleep = ss }

-- A thread that neither sleeps nor is ready goes among the sleeping ones.
pub put_sleep-Linked :
    (all : List Ptr) (k : Kernel) (v : View) (h : List Ptr) (t : Ptr) (d : ℕ)
    → (k.tcb t).sleeps ≡ false
    → member t v.ready ≡ false
    → alive all k t ≡ true
    → d < word
    → Linked all k v (t ∷ h)
    → Linked all (put_sleep k t d) (with_asleep v (insert t d v.asleep)) h
unfolding member
put_sleep-Linked all k v h t d up out live b l =
    let g = put_sleep k t d in
    let w = with_asleep v (insert t d v.asleep) in
    let nz : t ≢ null = λ e. ground (arith, e, live, l.real) in
    let keeps = put_sleep-KeepsWaiting k t d in
    let now = put_sleep_marked k t d nz in
    let joined = member-insert in
    record {
      queue = IsQueue-frame k g v.ready (put_sleep-KeepsReady k t d) l.queue;
      sleeping =
          put_sleep-IsSleeping k t d v.asleep nz (sym (l.place t).asleep ∙ up) b
            (few_asleep all k v (t ∷ h) l) l.sleeping;
      below = total-insert t d word v.asleep b l.below;
      waits = λ s n. IsWaiting-frame k g s (v.waiting s) keeps (l.waits s n);
      room = rw keeps.bound l.room;
      real = l.real;
      place = λ x.
          let p = l.place x in
          let (flag, finished) = put_sleep_marks k t d x in
          let there = member-insert x t d v.asleep in
          elim (Bool-cases (x == t)) [
            | inl e ↦
                let here = (==_iff x t).0 e in
                let marked : (g.tcb x).sleeps ≡ true = rw here now in
                record {
                  asleep = marked ∙ sym (there ∙ ground (arith, e));
                  blocked = λ n. rw (keeps.places x) (p.blocked (λ z. n (keeps.places x ∙ z)));
                  apart = λ i. absurd (ground (arith, i, out, here));
                  live = λ i. rw (keeps.idles, finished, here) live;
                  placed = λ i. rw marked (ground arith);
                }
            | inr e ↦
                Place-same all k g v w (t ∷ h) h x
                  (record {
                    sleeps = flag (λ m. ground (arith, m, e));
                    blocked = keeps.places x;
                    finished = finished;
                    idle = keeps.idles;
                    ready = refl;
                    asleep = there ∙ ground (arith, e);
                    waiting = refl;
                    hands = λ i. ground (arith, i, e);
                  })
                  p
          ];
    }
