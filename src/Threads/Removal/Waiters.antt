-- ===== src/Threads/Removal/Waiters.antt =====
-- kSemaphore::get of a given thread against the list of waiting threads.
use os1_proj.Prelude.{
  ◌≡◌, ◌≢◌, refl, sym, subst, ap, ◌∙◌, suc, ◌≤◌, true, false, List, [], ◌∷◌, arith, ◌==◌,
  if◌then◌else◌, Bool-cases, inl, inr, length, ==_iff, ==_false,
}
use os1_proj.Threads.{Ptr, null, Tcb, Kernel}
use os1_proj.Threads.Blocking.{unlink_blocked, take_blocked}
use os1_proj.Threads.Chains.{member, last, Chain, Distinct}
use os1_proj.Threads.Ready.{tail_after}
use os1_proj.Threads.Waiting.{Waiter, threads_of, AllBlocked, AllBlocked-frame, IsWaiting}
use os1_proj.Threads.Removal.{
  without, before, before_some, before_other, Distinct-without, last-without, Chain-without,
  find_blocked_lem, no_null_in,
}

-- The waiting threads without `t`.
unfoldable pub drop_waiter : Ptr → List Waiter → List Waiter
drop_waiter t [] = []
drop_waiter t (w ∷ ws) = if w.thread == t then ws else w ∷ drop_waiter t ws

pub threads_of-drop_waiter :
    (t : Ptr) (ws : List Waiter) → threads_of (drop_waiter t ws) ≡ without t (threads_of ws)
unfolding threads_of drop_waiter without
threads_of-drop_waiter t [] = refl
threads_of-drop_waiter t (w ∷ ws) = elim (Bool-cases (w.thread == t)) [
  | inl e ↦ rw e refl
  | inr e ↦ rw e (ap (λ xs. w.thread ∷ xs) (threads_of-drop_waiter t ws))
]

pub length-threads_of : (ws : List Waiter) → length (threads_of ws) ≡ length ws
unfolding threads_of
length-threads_of [] = refl
length-threads_of (w ∷ ws) = ap suc (length-threads_of ws)

module _ (k : Kernel) (this t b : Ptr) (nz : t ≢ null) (apart : t ≢ b) where
  prev_link :
      b ≢ null → ((unlink_blocked k this t b).tcb b).next_sem_blocked ≡ (k.tcb t).next_sem_blocked
  unfolding unlink_blocked
  prev_link n = ground arith

  pub other_link :
      (y : Ptr)
      → y ≢ t
      → y ≢ b
      → ((unlink_blocked k this t b).tcb y).next_sem_blocked ≡ (k.tcb y).next_sem_blocked
  unfolding unlink_blocked
  other_link y n n' = ground arith

  new_head :
      ((unlink_blocked k this t b).sem this).blocked_head
      ≡ (if b == null then (k.tcb t).next_sem_blocked else (k.sem this).blocked_head)
  unfolding unlink_blocked
  new_head = ground arith

  new_tail : ((unlink_blocked k this t b).sem this).blocked_tail ≡ (
      if b == null
      then (if (k.tcb t).next_sem_blocked == null then null else (k.sem this).blocked_tail)
      else (if t == (k.sem this).blocked_tail then b else (k.sem this).blocked_tail))
  unfolding unlink_blocked
  new_tail = ground arith

  pub other_place :
      (y : Ptr)
      → y ≢ t
      → ((unlink_blocked k this t b).tcb y).blocked_at_sem ≡ (k.tcb y).blocked_at_sem
  unfolding unlink_blocked
  other_place y n = ground arith

  pub other_tokens :
      (y : Ptr)
      → y ≢ t
      → ((unlink_blocked k this t b).tcb y).tokens_needed ≡ (k.tcb y).tokens_needed
  unfolding unlink_blocked
  other_tokens y n = ground arith

AllBlocked-drop_waiter :
    (old new : Ptr → Tcb) (this t : Ptr) (ws : List Waiter)
    → Distinct (threads_of ws)
    → ((y : Ptr) → y ≢ t → (new y).blocked_at_sem ≡ (old y).blocked_at_sem)
    → ((y : Ptr) → y ≢ t → (new y).tokens_needed ≡ (old y).tokens_needed)
    → AllBlocked old this ws
    → AllBlocked new this (drop_waiter t ws)
unfolding drop_waiter threads_of member
AllBlocked-drop_waiter old new this t [] d p n a = tt
AllBlocked-drop_waiter old new this t (w ∷ ws) d p n a = elim (Bool-cases (w.thread == t)) [
  | inl e ↦
      let here = (==_iff w.thread t).0 e in
      rw e (
        AllBlocked-frame old new this ws (λ y i. p y (λ h. ground (arith, h, here, d.0, i)))
          (λ y i. n y (λ h. ground (arith, h, here, d.0, i))) a.2)
  | inr e ↦
      let other : w.thread ≢ t = λ h. ground (arith, h, e) in
      rw e (
        p w.thread other ∙ a.0,
        n w.thread other ∙ a.1,
        AllBlocked-drop_waiter old new this t ws d.1 p n a.2,
      )
]

-- The tail, where the thread found stands behind `before null t xs`.
tail_lem :
    (next : Ptr → Ptr) (p t tail : Ptr) (xs : List Ptr)
    → Chain next p xs
    → Distinct xs
    → member t xs ≡ true
    → tail ≡ last null xs
    → (if before null t xs == null
        then (if next t == null then null else tail)
        else (if t == tail then before null t xs else tail))
      ≡ last null (without t xs)
unfolding member before without last
tail_lem next p t tail [] c d i e = absurd (ground (arith, i))
tail_lem next p t tail (x ∷ xs) c d i e = elim (Bool-cases (x == t)) [
  | inl h ↦
      let here = (==_iff x t).0 h in
      rw h (tail_after next (next t) tail x xs (subst (λ z. Chain next (next z) xs) here c.2) e)
  | inr h ↦
      let some : before x t xs ≢ null = before_some next p x t xs c in
      rw (h, ==_false (before x t xs) null some)
        (rw e (sym (last-without x t xs d.1 (ground (arith, i, h)))))
]

pub take_blocked_lem :
    (k : Kernel) (this t : Ptr) (ws : List Waiter)
    → t ≢ null
    → (k.tcb t).blocked_at_sem ≡ this
    → member t (threads_of ws) ≡ true
    → length ws ≤ k.threads
    → IsWaiting k this ws
    → take_blocked k this t ≡ (unlink_blocked k this t (before null t (threads_of ws)), t)
unfolding take_blocked
take_blocked_lem k this t ws nz at i f q =
    let here : ((k.tcb t).blocked_at_sem == this) ≡ true = (==_iff _ this).1 at in
    let found =
      find_blocked_lem (suc k.threads) k t (k.sem this).blocked_head null (threads_of ws)
        (omega (arith, f, length-threads_of ws)) i q.chain in
    let not_null : (t == null) ≡ false = ==_false t null nz in rw (here, found, not_null) refl

-- If the threads that wait at a semaphore are `ws`, no more than there are threads, then taking one of
-- them gives that thread, and the others wait on, in their order and for the tokens that they need.
pub take_blocked-IsWaiting :
    (k : Kernel) (this t : Ptr) (ws : List Waiter)
    → t ≢ null
    → (k.tcb t).blocked_at_sem ≡ this
    → member t (threads_of ws) ≡ true
    → length ws ≤ k.threads
    → IsWaiting k this ws
    → let (g, r) = take_blocked k this t in (r ≡ t) × IsWaiting g this (drop_waiter t ws)
take_blocked-IsWaiting k this t ws nz at i f q =
    let xs = threads_of ws in
    let b = before null t xs in
    let apart : t ≢ b = before_other null t xs q.distinct nz i in
    let g = unlink_blocked k this t b in
    subst (λ o. (o.1 ≡ t) × IsWaiting o.0 this (drop_waiter t ws))
      (sym (take_blocked_lem k this t ws nz at i f q))
      (
        refl,
        record {
          chain =
              rw (threads_of-drop_waiter t ws, new_head k this t b nz apart)
                (Chain-without (λ y. (k.tcb y).next_sem_blocked) (λ y. (g.tcb y).next_sem_blocked)
                  (k.sem this).blocked_head null t xs q.distinct i (no_null_in _ _ xs q.chain)
                  (λ y j n n'. other_link k this t b nz apart y n n')
                  (λ n. prev_link k this t b nz apart n) q.chain);
          at_tail =
              new_tail k this t b nz apart
              ∙ (tail_lem (λ y. (k.tcb y).next_sem_blocked) (k.sem this).blocked_head t
                    (k.sem this).blocked_tail xs q.chain q.distinct i q.at_tail
                  ∙ ap (last null) (sym (threads_of-drop_waiter t ws)));
          distinct = rw (threads_of-drop_waiter t ws) (Distinct-without t xs q.distinct);
          blocked =
              AllBlocked-drop_waiter k.tcb g.tcb this t ws q.distinct
                (other_place k this t b nz apart) (other_tokens k this t b nz apart) q.blocked;
        },
      )
