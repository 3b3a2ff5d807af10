-- ===== src/Threads/Sound/Admission.antt =====
-- TCB::threadCreate of src/tcb.cpp, and the places of the threads.
use os1_proj.Prelude.{
  ◌≡◌, ◌≢◌, refl, sym, subst, ◌∙◌, ap, true, false, List, [], ◌∷◌, ◌++◌, arith, ◌==◌, Bool-cases,
  inl, inr, ==_iff, ==_false,
}
use os1_proj.Threads.{Ptr, null, Kernel, Tcb, at_tcb}
use os1_proj.Threads.Chains.{member}
use os1_proj.Threads.Sound.{View}
use os1_proj.Threads.Sound.Ready.{with_ready}
use os1_proj.Threads.Sound.Switch.{Sound}
use os1_proj.Threads.Sound.Names.{KeepsNames}
use os1_proj.Threads.Sound.Owners.{Owns, IsLawful, Owns-kept, running_known}
use os1_proj.Threads.Sound.Joining.{born-Sound, admit-KeepsNames}
use os1_proj.Threads.Sound.Opening.{NobodyAt, NobodyAt-empty}
use os1_proj.Threads.Sound.Creation.{
  HasSemaphores, at_self, after_receive, filled, initialised_kernel, receive-KeepsThreads,
  initialised-Sound, incomplete_finished,
}
use os1_proj.System.{System}
use os1_proj.System.Create.{
  Start, allocate, initialise_tcb, is_complete, construct_tcb, admit, thread_create,
}

-- The object of a new thread is none of `all`, and none of `all` waits where its semaphores are.
pub record IsNew (all : List Ptr) (k : Kernel) (p : Ptr) (b : Tcb) : Type 0 where
  pub object : member p all ≡ false
  pub at_join : NobodyAt all k b.sem_join
  pub at_join_all : NobodyAt all k b.sem_join_all
  pub at_send : NobodyAt all k b.sem_send
  pub at_receive : NobodyAt all k b.sem_receive

-- TCB::threadCreate where it does not return null.
record Succeeds (s s1 : System) (p : Ptr) (a : Start) (r : System × Ptr) : Type 0 where
  answer : r.1 ≡ p
  kernel : r.0.kernel ≡ admit (at_tcb (after_receive s1 a).kernel p (filled s1 a)) p a.body true
  complete : is_complete (filled s1 a (s.kernel.tcb null)) ≡ true

constructed :
    (s : System) (p : Ptr) (a : Start)
    → is_complete ((initialise_tcb s p a).kernel.tcb p) ≡ true
    → construct_tcb s p a ≡ initialise_tcb s p a
unfolding construct_tcb
constructed s p a c = rw c refl

complete_alike :
    (s : System) (a : Start) (b c : Tcb) → is_complete (filled s a b) ≡ is_complete (filled s a c)
unfolding is_complete
complete_alike s a b c = refl

created_kernel :
    (s : System) (a : Start)
    → (thread_create s a true).1 ≢ null
    → let (s1, p) = allocate s s.build.sizeof_tcb in Succeeds s s1 p a (thread_create s a true)
unfolding thread_create
created_kernel s a nz =
    let (s1, p) = allocate s s.build.sizeof_tcb in
    let s2 = construct_tcb s1 p a in
    let init = initialised_kernel s1 p a in
    let whole = is_complete ((initialise_tcb s1 p a).kernel.tcb p) in
    elim (Bool-cases (s2.kernel.tcb p).finished) [
      | inl f ↦ absurd (nz (rw f refl))
      | inr f ↦ elim (Bool-cases whole) [
        | inr c ↦ absurd (ground (arith, incomplete_finished s1 p a c, f))
        | inl c ↦
            let same = constructed s1 p a c in
            let k = (after_receive s1 a).kernel in
            let at : (initialise_tcb s1 p a).kernel.tcb p ≡ filled s1 a (k.tcb p) =
              ap (λ g. g.tcb p) init ∙ at_self k p (filled s1 a) in
            record {
              answer = rw f refl;
              kernel = rw f (
                  ap (λ t. admit t.kernel p a.body true) same
                  ∙ ap (λ g. admit g p a.body true) init);
              complete =
                  complete_alike s1 a (s.kernel.tcb null) (k.tcb p) ∙ (ap is_complete (sym at) ∙ c);
            }
      ]
    ]

-- What is complete has its semaphores.
complete_semaphores :
    (b : Tcb)
    → is_complete b ≡ true
    → (b.sem_join ≢ null) × (b.sem_join_all ≢ null) × (b.sem_send ≢ null) × (b.sem_receive ≢ null)
unfolding is_complete
complete_semaphores b c = (
  λ e. ground (arith, e, c),
  λ e. ground (arith, e, c),
  λ e. ground (arith, e, c),
  λ e. ground (arith, e, c),
)

-- A kernel `g` where the thread `p` has come to the end of the ready queue of the kernel `k`.
pub record Born (all : List Ptr) (k : Kernel) (v : View) (p : Ptr) (g : Kernel) : Type 0 where
  pub sound : Sound (p ∷ all) g (with_ready v (v.ready ++ p ∷ []))
  pub owns : (x : Ptr) → member x (p ∷ all) ≡ true → Owns (p ∷ all) g x
  pub over : (x : Ptr) → member x all ≡ true → (k.tcb x).finished ≡ true → (g.tcb x).finished ≡ true
  pub idle : g.idle ≡ k.idle

-- From what TCB's constructor leaves to what threadCreate does.
born_lem :
    (all : List Ptr) (s s1 : System) (a : Start) (p : Ptr) (g : Kernel) (h : IsLawful all s.kernel)
    → s1.kernel ≡ s.kernel
    → p ≢ null
    → a.body ≢ null
    → is_complete (filled s1 a (s.kernel.tcb null)) ≡ true
    → g ≡ admit (at_tcb (after_receive s1 a).kernel p (filled s1 a)) p a.body true
    → IsNew all s.kernel p (g.tcb p)
    → Born all s.kernel h.valid.lists p g
unfolding member
born_lem all s s1 a p g h same nz some c e new =
    let k = s.kernel in
    let v = h.valid.lists in
    let k7 = (after_receive s1 a).kernel in
    let f = filled s1 a in
    let ki = at_tcb k7 p f in
    let named : KeepsNames ki g =
      subst (λ z. KeepsNames ki z) (sym e) (admit-KeepsNames ki p a.body some) in
    let has = complete_semaphores (f (k.tcb null)) c in
    let self = at_self k7 p f in
    let empty : (q r : Ptr) → r ≡ q → q ≢ null → NobodyAt all k r → v.waiting q ≡ [] =
      λ q r same_q n nobody.
        NobodyAt-empty all k v (k.running ∷ []) q n (subst (NobodyAt all k) same_q nobody)
          h.valid.sound.linked in
    let sems : HasSemaphores v (f (k.tcb null)) = record {
      at_join = (has.0, empty _ _ (named.for_join p ∙ ap (λ b. b.sem_join) self) has.0 new.at_join);
      at_join_all = (
        has.1,
        empty _ _ (named.for_join_all p ∙ ap (λ b. b.sem_join_all) self) has.1 new.at_join_all,
      );
      at_send = (has.2, empty _ _ (named.for_send p ∙ ap (λ b. b.sem_send) self) has.2 new.at_send);
      at_receive = (
        has.3,
        empty _ _ (named.for_receive p ∙ ap (λ b. b.sem_receive) self) has.3 new.at_receive,
      );
    } in
    let before : Sound all s1.kernel v = subst (λ z. Sound all z v) (sym same) h.valid.sound in
    let made = initialised-Sound all s1 v a (k.tcb null) sems before in
    let kept = receive-KeepsThreads s1 a in
    let idle : k7.idle ≡ k.idle = kept.idle ∙ ap (λ z. z.idle) same in
    let runs : k7.running ≡ k.running = kept.runs ∙ ap (λ z. z.running) same in
    let threads : k7.tcb ≡ k.tcb = kept.tcb ∙ ap (λ z. z.tcb) same in
    let ran = running_known all k h in
    let others : (x : Ptr) → (x == p) ≡ false → ki.tcb x ≡ k.tcb x =
      λ x n. (rw n refl) ∙ ap (λ t. t x) threads in
    let apart : (x : Ptr) → member x all ≡ true → (x == p) ≡ false =
      λ x i. ==_false x p (λ z. ground (arith, i, z, new.object)) in
    let larger : (x : Ptr) → Owns all g x → Owns (p ∷ all) g x = λ x o. record {
      for_send = o.for_send;
      for_receive = o.for_receive;
      for_join = o.for_join;
      for_join_all = o.for_join_all;
      parent = λ n. ground (arith, o.parent n);
    } in
    record {
      sound =
          subst (λ z. Sound (p ∷ all) z (with_ready v (v.ready ++ p ∷ []))) (sym e)
            (born-Sound all k7 v p a.body f new.object nz
              (λ z. ground (arith, z, idle, h.idles, new.object))
              (λ z. ground (arith, z, runs, ran, new.object)) some
              (λ b. record { up = refl; free = refl; unfinished = refl }) made);
      owns = λ x i. larger x (elim (Bool-cases (x == p)) [
        | inr n ↦
            let same_x = others x n in
            let o = h.owns x (ground (arith, i, n)) in
            Owns-kept all ki g x named (record {
              for_send = λ z. o.for_send (sym (ap (λ b. b.sem_send) same_x) ∙ z);
              for_receive = λ z. o.for_receive (sym (ap (λ b. b.sem_receive) same_x) ∙ z);
              for_join = λ z. o.for_join (sym (ap (λ b. b.sem_join) same_x) ∙ z);
              for_join_all = λ z. o.for_join_all (sym (ap (λ b. b.sem_join_all) same_x) ∙ z);
              parent = rw same_x o.parent;
            })
        | inl n ↦
            let here : ki.tcb x ≡ f (k7.tcb p) = ap (λ t. ki.tcb t) ((==_iff x p).0 n) ∙ self in
            Owns-kept all ki g x named (record {
              for_send = λ z. has.2 (sym (ap (λ b. b.sem_send) here) ∙ z);
              for_receive = λ z. has.3 (sym (ap (λ b. b.sem_receive) here) ∙ z);
              for_join = λ z. has.0 (sym (ap (λ b. b.sem_join) here) ∙ z);
              for_join_all = λ z. has.1 (sym (ap (λ b. b.sem_join_all) here) ∙ z);
              parent = λ _.
                  subst (λ t. member t all ≡ true)
                    (sym (ap (λ b. b.parent) here ∙ ap (λ z. z.running) same)) ran;
            })
      ]);
      over = λ x i o. named.over x (ap (λ b. b.finished) (others x (apart x i)) ∙ o);
      idle = named.idle ∙ idle;
    }

-- If every thread is in its place and has its semaphores, then TCB::threadCreate with a body that is
-- not null, told to put the thread, where it does not return null, keeps every thread in its place
-- and makes the new one, with semaphores and a parent of its own, the last of the ready queue; no
-- thread's end is undone. The object must be none of the threads, and no thread may wait at the
-- addresses of the new semaphores.
pub thread_create-Born :
    (all : List Ptr) (s : System) (a : Start) (h : IsLawful all s.kernel)
    → a.body ≢ null
    → let (s', p) = thread_create s a true in
      p ≢ null
      → IsNew all s.kernel p (s'.kernel.tcb p)
      → Born all s.kernel h.valid.lists p s'.kernel
unfolding allocate
thread_create-Born all s a h some nz new =
    let s1 = (allocate s s.build.sizeof_tcb).0 in
    let (s', p) = thread_create s a true in
    let z = created_kernel s a nz in
    let kernel : s'.kernel
        ≡ admit (at_tcb (after_receive s1 a).kernel p (filled s1 a)) p a.body true =
      subst
        (λ q. s'.kernel ≡ admit (at_tcb (after_receive s1 a).kernel q (filled s1 a)) q a.body true)
        (sym z.answer) z.kernel in
    born_lem all s s1 a p s'.kernel h refl nz some z.complete kernel new
