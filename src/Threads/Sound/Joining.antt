-- ===== src/Threads/Sound/Joining.antt =====
-- TCB::threadCreate of src/tcb.cpp, from where the object is complete, and the places of the threads.
use os1_proj.Prelude.{
  ◌≡◌, ◌≢◌, refl, sym, subst, ◌∙◌, suc, true, false, ◌||◌, List, [], ◌∷◌, ◌++◌, arith, ◌==◌,
  if◌then◌else◌, Bool-cases, inl, inr, ==_false, ◌+w◌,
}
use os1_proj.Threads.{Ptr, null, Kernel, Tcb, at_tcb, put_ready}
use os1_proj.Threads.Chains.{member}
use os1_proj.Threads.Frames.{at_tcb-Keeps}
use os1_proj.Threads.Waiting.{IsWaiting-frame}
use os1_proj.Threads.Sound.{View, listed, alive, Linked}
use os1_proj.Threads.Sound.Ready.{IsLoose, with_ready, put_ready-Moves}
use os1_proj.Threads.Sound.Switch.{Sound}
use os1_proj.Threads.Sound.Inert.{Inert, Inert-trans, Linked-Inert, Sound-Inert}
use os1_proj.Threads.Sound.Names.{
  KeepsNames, KeepsNames-trans, same_threads, at_tcb-KeepsNames, put_ready-KeepsNames,
}
use os1_proj.System.Create.{admit}
use os1_proj.Threads.Sound.Birth.{IsFresh, enlarge-Linked, born-Linked}

-- A write to a thread's fields that no list and no mark uses.
pub linked-Inert :
    (k : Kernel) (t : Ptr) (f : Tcb → Tcb)
    → ((b : Tcb) → (f b).next_ready ≡ b.next_ready)
    → ((b : Tcb) → (f b).next_sem_blocked ≡ b.next_sem_blocked)
    → ((b : Tcb) → (f b).blocked_at_sem ≡ b.blocked_at_sem)
    → ((b : Tcb) → (f b).tokens_needed ≡ b.tokens_needed)
    → ((b : Tcb) → (f b).next_sleep ≡ b.next_sleep)
    → ((b : Tcb) → (f b).time_sleep_relative ≡ b.time_sleep_relative)
    → ((b : Tcb) → (f b).sleeps ≡ b.sleeps)
    → ((b : Tcb) → (f b).finished ≡ b.finished)
    → Inert k (at_tcb k t f)
linked-Inert k t f a b c d sleep time flag over =
    let (ready, waiting) = at_tcb-Keeps k t f a b c d in
    record {
      ready = ready;
      asleep = record {
        head = refl;
        bound = refl;
        links = λ x. ground (arith, sleep (k.tcb x));
        times = λ x. ground (arith, time (k.tcb x));
        flags = λ x. ground (arith, flag (k.tcb x));
      };
      marks = record {
        sleeps = λ x. ground (arith, flag (k.tcb x));
        blocked = λ x. waiting.places x;
        finished = λ x. ground (arith, over (k.tcb x));
        idle = refl;
      };
      waits = λ s ws q. IsWaiting-frame k (at_tcb k t f) s ws waiting q;
      runs = refl;
    }

-- The lines of TCB::threadCreate for the list of all threads.
abbrev joined : Kernel → Ptr → Kernel
joined k p =
    let g = record k { threads = suc k.threads } in
    if k.tcbs_tail == null
    then record g { tcbs_head = p; tcbs_tail = p }
    else record (at_tcb g k.tcbs_tail (λ b. record b { next_tcb = p })) { tcbs_tail = p }

statics-Inert :
    (k : Kernel) (head tail : Ptr) → Inert k (record k { tcbs_head = head; tcbs_tail = tail })
statics-Inert k head tail = record {
  ready = record { head = refl; tail = refl; links = λ x. refl };
  asleep = record {
    head = refl;
    bound = refl;
    links = λ x. refl;
    times = λ x. refl;
    flags = λ x. refl;
  };
  marks = record { sleeps = λ x. refl; blocked = λ x. refl; finished = λ x. refl; idle = refl };
  waits = λ s ws q. record {
    chain = q.chain;
    at_tail = q.at_tail;
    distinct = q.distinct;
    blocked = q.blocked;
  };
  runs = refl;
}

joined-Inert : (k : Kernel) (p : Ptr) → Inert (record k { threads = suc k.threads }) (joined k p)
joined-Inert k p =
    let g = record k { threads = suc k.threads } in
    elim (Bool-cases (k.tcbs_tail == null)) [
      | inl e ↦ rw e (statics-Inert g p p)
      | inr e ↦
          let i = at_tcb g k.tcbs_tail (λ b. record b { next_tcb = p }) in
          rw e (
            Inert-trans g i (record i { tcbs_tail = p })
              (linked-Inert g k.tcbs_tail (λ b. record b { next_tcb = p }) (λ b. refl) (λ b. refl)
                (λ b. refl) (λ b. refl) (λ b. refl) (λ b. refl) (λ b. refl) (λ b. refl))
              (statics-Inert i i.tcbs_head p))
    ]

-- The last lines of TCB::threadCreate
abbrev one_child_more : Kernel → Ptr → Kernel
one_child_more k parent =
    at_tcb k parent (λ b. record b { num_of_active_children = b.num_of_active_children +w 1 })

abbrev counted : Kernel → Ptr → Kernel
counted k p = let parent = (k.tcb p).parent in if parent == null then k else one_child_more k parent

counted-Inert : (k : Kernel) (p : Ptr) → Inert k (counted k p)
counted-Inert k p =
    let parent = (k.tcb p).parent in
    elim (Bool-cases (parent == null)) [
      | inl e ↦ rw e (statics-Inert k k.tcbs_head k.tcbs_tail)
      | inr e ↦ rw e (
          linked-Inert k parent
            (λ b. record b { num_of_active_children = b.num_of_active_children +w 1 }) (λ b. refl)
            (λ b. refl) (λ b. refl) (λ b. refl) (λ b. refl) (λ b. refl) (λ b. refl) (λ b. refl))
    ]

admit_ready :
    (k : Kernel) (p body : Ptr)
    → body ≢ null
    → admit k p body true ≡ counted (put_ready (joined k p) p) p
unfolding admit
admit_ready k p body n = let some : (body == null) ≡ false = ==_false body null n in rw some refl

-- The new thread goes to the end of the ready queue.
pub admit-Sound :
    (all : List Ptr) (k : Kernel) (v : View) (p body : Ptr)
    → member p all ≡ false
    → p ≢ null
    → p ≢ k.idle
    → p ≢ k.running
    → body ≢ null
    → IsFresh (k.tcb p)
    → Sound all k v
    → Sound (p ∷ all) (admit k p body true) (with_ready v (v.ready ++ p ∷ []))
unfolding member
admit-Sound all k v p body new nz ni nr some fresh s =
    let t = s.linked.place p in
    let unfinished = fresh.unfinished in
    let loose : IsLoose k v p = elim (Bool-cases (listed k v p)) [
      | inl i ↦ absurd (ground (arith, t.live i, new))
      | inr o ↦ o
    ] in
    let g0 = record k { threads = suc k.threads } in
    let g1 = joined k p in
    let inert = joined-Inert k p in
    let l =
      Linked-Inert (p ∷ all) g0 g1 v (p ∷ k.running ∷ []) inert
        (enlarge-Linked all k v (k.running ∷ []) p new nz loose s.linked) in
    let loose1 : (x : Ptr) → IsLoose k v x → IsLoose g1 v x =
      λ x o. rw (inert.marks.sleeps x, inert.marks.blocked x) o in
    let lives : (x : Ptr) → alive (p ∷ all) g1 x ≡ alive (p ∷ all) k x =
      λ x. rw (inert.marks.idle, inert.marks.finished x) refl in
    let w = with_ready v (v.ready ++ p ∷ []) in
    let put =
      put_ready-Moves (p ∷ all) g1 v (k.running ∷ []) p (loose1 p loose)
        (lives p ∙ ground (arith, ni, unfinished)) l in
    let g2 = put_ready g1 p in
    let runs : g2.running ≡ k.running = put.runs ∙ inert.runs in
    let sound : Sound (p ∷ all) g2 w = record {
      linked = subst (λ x. Linked (p ∷ all) g2 w (x ∷ [])) (sym runs) put.linked;
      left = s.left;
      loose =
          subst (λ x. IsLoose g2 w x) (sym runs)
            (put.others k.running (λ e. nr (sym e)) ∙ loose1 k.running s.loose);
      runs =
          subst (λ x. (x == g2.idle || alive (p ∷ all) g2 x) ≡ true) (sym runs)
            (ground
              (arith, put.lives k.running, lives k.running, put.idle, inert.marks.idle, s.runs));
    } in
    rw (admit_ready k p body some)
      (Sound-Inert (p ∷ all) g2 (counted g2 p) w (counted-Inert g2 p) sound)

pub admit-KeepsNames :
    (k : Kernel) (p body : Ptr) → body ≢ null → KeepsNames k (admit k p body true)
admit-KeepsNames k p body n =
    let g = joined k p in
    let i = put_ready g p in
    let join : KeepsNames k g = elim (Bool-cases (k.tcbs_tail == null)) [
      | inl e ↦ rw e (
          same_threads k (record k { threads = suc k.threads; tcbs_head = p; tcbs_tail = p }) refl
            refl)
      | inr e ↦
          let m = at_tcb k k.tcbs_tail (λ b. record b { next_tcb = p }) in
          rw e (
            KeepsNames-trans k m (record m { threads = suc k.threads; tcbs_tail = p })
              (at_tcb-KeepsNames k k.tcbs_tail (λ b. record b { next_tcb = p }) (λ b. refl)
                (λ b. refl) (λ b. refl) (λ b. refl) (λ b. refl) (λ b e. e))
              (same_threads m (record m { threads = suc k.threads; tcbs_tail = p }) refl refl))
    ] in
    let count : KeepsNames i (counted i p) = elim (Bool-cases ((i.tcb p).parent == null)) [
      | inl e ↦ rw e (same_threads i i refl refl)
      | inr e ↦ rw e (
          at_tcb-KeepsNames i (i.tcb p).parent
            (λ b. record b { num_of_active_children = b.num_of_active_children +w 1 }) (λ b. refl)
            (λ b. refl) (λ b. refl) (λ b. refl) (λ b. refl) (λ b e. e))
    ] in
    rw (admit_ready k p body n) (
      KeepsNames-trans k g (counted i p) join
        (KeepsNames-trans g i (counted i p) (put_ready-KeepsNames g p) count))

-- The object at `p`, which is neither a thread nor the one that runs nor the idle one, is filled in,
-- and the thread comes to the end of the ready queue.
pub born-Sound :
    (all : List Ptr) (k : Kernel) (v : View) (p body : Ptr) (f : Tcb → Tcb)
    → member p all ≡ false
    → p ≢ null
    → p ≢ k.idle
    → p ≢ k.running
    → body ≢ null
    → ((b : Tcb) → IsFresh (f b))
    → Sound all k v
    → Sound (p ∷ all) (admit (at_tcb k p f) p body true) (with_ready v (v.ready ++ p ∷ []))
born-Sound all k v p body f new nz ni nr some fresh s =
    let g = at_tcb k p f in
    let b = fresh (k.tcb p) in
    let here : (g.tcb p).sleeps ≡ (f (k.tcb p)).sleeps = ground arith in
    let at : (g.tcb p).blocked_at_sem ≡ (f (k.tcb p)).blocked_at_sem = ground arith in
    let over : (g.tcb p).finished ≡ (f (k.tcb p)).finished = ground arith in
    let other : (k.running == p) ≡ false = ==_false k.running p (λ e. nr (sym e)) in
    admit-Sound all g v p body new nz ni nr some
      (record { up = here ∙ b.up; free = at ∙ b.free; unfinished = over ∙ b.unfinished })
      (record {
        linked = born-Linked all k v (k.running ∷ []) p f new fresh s.linked;
        left = s.left;
        loose = rw other s.loose;
        runs = rw other s.runs;
      })
