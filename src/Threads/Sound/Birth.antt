-- ===== src/Threads/Sound/Birth.antt =====
-- A new object among the threads, and the places of the threads.
use os1_proj.Prelude.{
  ◌≡◌, ◌≢◌, refl, ◌∙◌, suc, true, false, List, ◌∷◌, arith, ◌==◌, Bool-cases, inl, inr, ==_false,
}
use os1_proj.Threads.{Ptr, null, Kernel, Tcb, at_tcb}
use os1_proj.Threads.Chains.{member, Chain-frame}
use os1_proj.Threads.Sleeping.{names, AllAsleep-frame}
use os1_proj.Threads.Sound.{View, listed, Linked, Place-same}
use os1_proj.Threads.Sound.Places.{IsWaiting-apart}
use os1_proj.Threads.Sound.Ready.{IsLoose}

-- What TCB's constructor leaves in the marks of a thread.
pub record IsFresh (b : Tcb) : Type 0 where
  pub up : b.sleeps ≡ false
  pub free : b.blocked_at_sem ≡ null
  pub unfinished : b.finished ≡ false

-- A thread that is none of `all`, and whose marks are fresh, comes into the kernel's hands.
pub enlarge-Linked :
    (all : List Ptr) (k : Kernel) (v : View) (h : List Ptr) (p : Ptr)
    → member p all ≡ false
    → p ≢ null
    → IsLoose k v p
    → Linked all k v h
    → Linked (p ∷ all) (record k { threads = suc k.threads }) v (p ∷ h)
unfolding member
enlarge-Linked all k v h p new nz loose l =
    let g = record k { threads = suc k.threads } in
    let q = l.queue in
    let r = l.sleeping in
    record {
      queue = record { chain = q.chain; at_tail = q.at_tail; distinct = q.distinct };
      sleeping = record { chain = r.chain; distinct = r.distinct; times = r.times };
      below = l.below;
      waits = λ s n.
          let w = l.waits s n in
          record {
            chain = w.chain;
            at_tail = w.at_tail;
            distinct = w.distinct;
            blocked = w.blocked;
          };
      room = omega (arith, l.room);
      real = ground (arith, l.real, nz);
      place = λ x.
          let t = l.place x in
          record {
            asleep = t.asleep;
            blocked = t.blocked;
            apart = t.apart;
            live = λ i. ground (arith, t.live i);
            placed = λ i. elim (Bool-cases (x == p)) [
              | inl e ↦ ground (arith, e)
              | inr e ↦ ground (arith, e, i, t.placed)
            ];
          };
    }

-- The object at `p`, which is none of `all`, is filled in.
pub born-Linked :
    (all : List Ptr) (k : Kernel) (v : View) (h : List Ptr) (p : Ptr) (f : Tcb → Tcb)
    → member p all ≡ false
    → ((b : Tcb) → IsFresh (f b))
    → Linked all k v h
    → Linked all (at_tcb k p f) v h
unfolding member
born-Linked all k v h p f new fresh l =
    let g = at_tcb k p f in
    let other : (x : Ptr) → listed k v x ≡ true → (x == p) ≡ false =
      λ x i. ==_false x p (λ e. ground (arith, (l.place x).live i, new, e)) in
    let ready : (x : Ptr) → member x v.ready ≡ true → (x == p) ≡ false =
      λ x i. other x (ground (arith, i)) in
    let asleep : (x : Ptr) → member x (names v.asleep) ≡ true → (x == p) ≡ false =
      λ x i. other x (ground (arith, i, (l.place x).asleep)) in
    let q = l.queue in
    let r = l.sleeping in
    record {
      queue = record {
        chain =
            Chain-frame (λ x. (k.tcb x).next_ready) (λ x. (g.tcb x).next_ready) k.ready_head v.ready
              (λ x i. rw (ready x i) refl) q.chain;
        at_tail = q.at_tail;
        distinct = q.distinct;
      };
      sleeping = record {
        chain =
            Chain-frame (λ x. (k.tcb x).next_sleep) (λ x. (g.tcb x).next_sleep) k.sleep_head
              (names v.asleep) (λ x i. rw (asleep x i) refl) r.chain;
        distinct = r.distinct;
        times =
            AllAsleep-frame k.tcb g.tcb v.asleep (λ x i. rw (asleep x i) refl)
              (λ x i. rw (asleep x i) refl) r.times;
      };
      below = l.below;
      waits = λ s n.
          IsWaiting-apart k g s (v.waiting s) refl refl
            (λ y at.
              let far : (y == p) ≡ false = other y (ground (arith, at, n)) in
              (rw far refl, rw far refl, rw far refl))
            (l.waits s n);
      room = l.room;
      real = l.real;
      place = λ x.
          let t = l.place x in
          elim (Bool-cases (x == p)) [
            | inr e ↦
                Place-same all k g v v h h x
                  (record {
                    sleeps = rw e refl;
                    blocked = rw e refl;
                    finished = rw e refl;
                    idle = refl;
                    ready = refl;
                    asleep = refl;
                    waiting = refl;
                    hands = λ i. i;
                  })
                  t
            | inl e ↦
                let up : (g.tcb x).sleeps ≡ false = rw e (fresh (k.tcb x)).up in
                let free : (g.tcb x).blocked_at_sem ≡ null = rw e (fresh (k.tcb x)).free in
                let out : listed k v x ≡ false = elim (Bool-cases (listed k v x)) [
                  | inl i ↦ absurd (ground (arith, other x i, e))
                  | inr o ↦ o
                ] in
                record {
                  asleep = up ∙ ground (arith, out, t.asleep);
                  blocked = λ n. absurd (n free);
                  apart = λ i. (up, free);
                  live = λ i. absurd (ground (arith, i, up, free, out));
                  placed = λ i. absurd (ground (arith, i, new, e));
                }
          ];
    }
