-- ===== src/Threads/Sound/Opening.antt =====
-- kSemaphore::kSemaphoreCreate of src/kSemaphore.cpp, and the places of the threads.
use os1_proj.Prelude.{
  ◌≡◌, ◌≢◌, refl, sym, subst, ◌∙◌, ap, ℕ, true, List, [], ◌∷◌, arith, ◌==◌, if◌then◌else◌,
  Bool-cases, inl, inr, ==_iff,
}
use os1_proj.Threads.{Ptr, null, Kernel, Semaphore}
use os1_proj.Threads.Chains.{member, last}
use os1_proj.Threads.Waiting.{IsWaiting, threads_of, Waiter, AllBlocked}
use os1_proj.Threads.Sound.{View, Linked, Linked-frame, alive}
use os1_proj.Threads.Sound.Switch.{Sound}
use os1_proj.System.{System}
use os1_proj.System.Create.{allocate, construct_semaphore, link_semaphore, semaphore_create}

-- No thread of `all` waits at the address.
pub record NobodyAt (all : List Ptr) (k : Kernel) (q : Ptr) : Type 0 where
  pub none : (x : Ptr) → member x all ≡ true → (k.tcb x).blocked_at_sem ≢ q

first_blocked :
    (k : Kernel) (q : Ptr) (ws : List Waiter)
    → ((x : Ptr) → member x (threads_of ws) ≡ true → (k.tcb x).blocked_at_sem ≢ q)
    → AllBlocked k.tcb q ws
    → ws ≡ []
unfolding threads_of member
first_blocked k q [] none b = refl
first_blocked k q (w ∷ ws) none b = absurd (none w.thread (ground arith) b.0)

-- An address where nobody waits has an empty list.
pub NobodyAt-empty :
    (all : List Ptr) (k : Kernel) (v : View) (h : List Ptr) (q : Ptr)
    → q ≢ null
    → NobodyAt all k q
    → Linked all k v h
    → v.waiting q ≡ []
NobodyAt-empty all k v h q nz nobody l =
    first_blocked k q (v.waiting q)
      (λ x i e.
        let marked : (k.tcb x).blocked_at_sem ≢ null = λ z. nz (sym e ∙ z) in
        let live : alive all k x ≡ true = (l.place x).live (ground (arith, marked)) in
        nobody.none x (ground (arith, live)) e)
      (l.waits q nz).blocked

-- A change of the list of semaphores, of the semaphores and of the counters of both kinds of names.
abbrev pub aside : Kernel → (Ptr → Semaphore) → (sems threads : ℕ) → (head tail : Ptr) → Kernel
aside k f n m head tail = record k {
  sem = f;
  next_sem_id = n;
  next_thread_id = m;
  sems_head = head;
  sems_tail = tail;
}

pub aside-Sound :
    (all : List Ptr) (k : Kernel) (v : View) (f : Ptr → Semaphore) (n m head tail : ℕ)
    → ((s : Ptr)
        → IsWaiting k s (v.waiting s)
        → IsWaiting (aside k f n m head tail) s (v.waiting s))
    → Sound all k v
    → Sound all (aside k f n m head tail) v
aside-Sound all k v f n m head tail waits s = record {
  linked =
      Linked-frame all k (aside k f n m head tail) v (k.running ∷ [])
        (record { head = refl; tail = refl; links = λ x. refl })
        (record {
          head = refl;
          bound = refl;
          links = λ x. refl;
          times = λ x. refl;
          flags = λ x. refl;
        })
        (record { sleeps = λ x. refl; blocked = λ x. refl; finished = λ x. refl; idle = refl })
        waits s.linked;
  left = s.left;
  loose = s.loose;
  runs = s.runs;
}

-- Semaphores whose lists are as before.
pub same_lists :
    (k : Kernel) (f : Ptr → Semaphore) (n m head tail : ℕ) (s : Ptr) (ws : List Waiter)
    → (f s).blocked_head ≡ (k.sem s).blocked_head
    → (f s).blocked_tail ≡ (k.sem s).blocked_tail
    → IsWaiting k s ws
    → IsWaiting (aside k f n m head tail) s ws
same_lists k f n m head tail s ws same same_tail w = record {
  chain = rw same w.chain;
  at_tail = same_tail ∙ w.at_tail;
  distinct = w.distinct;
  blocked = w.blocked;
}

construct-Sound :
    (all : List Ptr) (k : Kernel) (v : View) (q : Ptr) (val : ℕ)
    → v.waiting q ≡ []
    → Sound all k v
    → Sound all (construct_semaphore k q val) v
unfolding construct_semaphore last threads_of
construct-Sound all k v q val none s =
    let g = construct_semaphore k q val in
    aside-Sound all k v g.sem g.next_sem_id k.next_thread_id k.sems_head k.sems_tail
      (λ x w. elim (Bool-cases (x == q)) [
        | inl e ↦
            let empty : v.waiting x ≡ [] = ap v.waiting ((==_iff x q).0 e) ∙ none in
            let head : (g.sem x).blocked_head ≡ null = rw e refl in
            let tail : (g.sem x).blocked_tail ≡ null = rw e refl in
            subst (IsWaiting g x) (sym empty)
              (record { chain = head; at_tail = tail; distinct = tt; blocked = tt })
        | inr e ↦
            same_lists k g.sem g.next_sem_id k.next_thread_id k.sems_head k.sems_tail x
              (v.waiting x) (rw e refl) (rw e refl) w
      ])
      s

link-Sound :
    (all : List Ptr) (k : Kernel) (v : View) (q : Ptr)
    → Sound all k v
    → Sound all (link_semaphore k q) v
unfolding link_semaphore
link-Sound all k v q s = elim (Bool-cases (k.sems_tail == null)) [
  | inl e ↦ rw e (
      aside-Sound all k v k.sem k.next_sem_id k.next_thread_id q q
        (λ x w. same_lists k k.sem k.next_sem_id k.next_thread_id q q x (v.waiting x) refl refl w)
        s)
  | inr e ↦
      let f : Ptr → Semaphore =
        λ x. if x == k.sems_tail then record (k.sem x) { next_sem = q } else k.sem x in
      rw e (
        aside-Sound all k v f k.next_sem_id k.next_thread_id k.sems_head q
          (λ x w.
            same_lists k f k.next_sem_id k.next_thread_id k.sems_head q x (v.waiting x)
              (ground arith) (ground arith) w)
          s)
]

-- What making semaphores leaves alone.
pub record KeepsThreads (k g : Kernel) : Type 0 where
  pub tcb : g.tcb ≡ k.tcb
  pub runs : g.running ≡ k.running
  pub idle : g.idle ≡ k.idle

pub KeepsThreads-trans : (k g h : Kernel) → KeepsThreads k g → KeepsThreads g h → KeepsThreads k h
KeepsThreads-trans k g h a b = record {
  tcb = b.tcb ∙ a.tcb;
  runs = b.runs ∙ a.runs;
  idle = b.idle ∙ a.idle;
}

link-KeepsThreads : (k : Kernel) (q : Ptr) → KeepsThreads k (link_semaphore k q)
unfolding link_semaphore
link-KeepsThreads k q = elim (Bool-cases (k.sems_tail == null)) [
  | inl e ↦ rw e (record { tcb = refl; runs = refl; idle = refl })
  | inr e ↦ rw e (record { tcb = refl; runs = refl; idle = refl })
]

pub semaphore_create-KeepsThreads :
    (s : System) (val : ℕ) → KeepsThreads s.kernel (semaphore_create s val).0.kernel
unfolding semaphore_create allocate construct_semaphore
semaphore_create-KeepsThreads s val =
    let q = (allocate s s.build.sizeof_semaphore).1 in
    elim (Bool-cases (q == null)) [
      | inl e ↦ rw e (record { tcb = refl; runs = refl; idle = refl })
      | inr e ↦
          let k = link-KeepsThreads (construct_semaphore s.kernel q val) q in
          rw e (record { tcb = k.tcb; runs = k.runs; idle = k.idle })
    ]

-- A semaphore at an address where nobody waits leaves every thread in its place.
pub semaphore_create-Sound :
    (all : List Ptr) (s : System) (v : View) (val : ℕ)
    → (semaphore_create s val).1 ≢ null
    → v.waiting (semaphore_create s val).1 ≡ []
    → Sound all s.kernel v
    → Sound all (semaphore_create s val).0.kernel v
unfolding semaphore_create allocate
semaphore_create-Sound all s v val nz none sound =
    let q = (allocate s s.build.sizeof_semaphore).1 in
    elim (Bool-cases (q == null)) [
      | inl e ↦ absurd (nz (rw e refl))
      | inr e ↦
          let k = construct_semaphore s.kernel q val in
          rw e (link-Sound all k v q (construct-Sound all s.kernel v q val (rw e at none) sound))
    ]
