-- ===== src/Threads/Ready.antt =====
-- The ready queue of src/scheduler.cpp, refined to a list of threads, first come first served.
use os1_proj.Prelude.{
  ◌≡◌, ◌≢◌, refl, sym, true, false, List, [], ◌∷◌, ◌++◌, arith, ◌==◌, if◌then◌else◌,
}
use os1_proj.Threads.{Ptr, null, Kernel, put_ready, get_ready}
use os1_proj.Threads.Chains.{
  member, last, Chain, Distinct, Chain-frame, last-member, Distinct-append_one, last-append_one,
  Chain-append_one,
}

-- The ready queue of `k` holds the threads `xs`, in this order, and none twice.
pub record IsQueue (k : Kernel) (xs : List Ptr) : Type 0 where
  pub chain : Chain (λ x. (k.tcb x).next_ready) k.ready_head xs
  pub at_tail : k.ready_tail ≡ last null xs
  pub distinct : Distinct xs

pub Chain-last :
    (next : Ptr → Ptr) (p x : Ptr) (xs : List Ptr) → Chain next p (x ∷ xs) → last x xs ≢ null
unfolding last
Chain-last next p x [] c = c.1
Chain-last next p x (y ∷ xs) c = Chain-last next (next x) y xs c.2

-- If the ready queue is `xs`, then a thread that is neither null nor the idle one nor in `xs` goes to
-- its end.
pub put_ready-IsQueue :
    (k : Kernel) (t : Ptr) (xs : List Ptr)
    → t ≢ null
    → t ≢ k.idle
    → member t xs ≡ false
    → IsQueue k xs
    → IsQueue (put_ready k t) (xs ++ t ∷ [])
unfolding put_ready last member
put_ready-IsQueue k t [] nz ni out q =
    let a : (t == null) ≡ false = ground arith in
    let b : (t == k.idle) ≡ false = ground arith in
    let c : (k.ready_tail == null) ≡ true = ground (arith, q.at_tail) in
    rw (a, b, c)
      (record { chain = (refl, nz, ground arith); at_tail = refl; distinct = (refl, tt) })
put_ready-IsQueue k t (x ∷ xs) nz ni out q =
    let a : (t == null) ≡ false = ground arith in
    let b : (t == k.idle) ≡ false = ground arith in
    let c : (k.ready_tail == null) ≡ false =
      ground (arith, q.at_tail, Chain-last _ _ x xs q.chain) in
    let out_tail : t ≢ last x xs = ground (arith, last-member x xs) in
    rw (a, b, c)
      (record {
        chain =
            Chain-append_one (λ y. (k.tcb y).next_ready) _ k.ready_head x t xs nz q.distinct q.chain
              (ground (arith, q.at_tail)) (ground (arith, q.at_tail))
              (λ y i ne. ground (arith, q.at_tail));
        at_tail = sym (last-append_one x t xs);
        distinct = Distinct-append_one t (x ∷ xs) out q.distinct;
      })

-- What a queue gives out, and what it leaves: the idle thread runs when there is no other.
abbrev pub Gives : Kernel → List Ptr → Kernel × Ptr → Type 0
Gives k [] r = r ≡ (k, k.idle)
Gives k (x ∷ xs) (k', t) = (t ≡ x) × IsQueue k' xs

pub tail_after :
    (next : Ptr → Ptr) (p tail x : Ptr) (xs : List Ptr)
    → Chain next p xs
    → tail ≡ last x xs
    → (if p == null then null else tail) ≡ last null xs
unfolding last
tail_after next p tail x [] c e = let a : (p == null) ≡ true = ground (arith, c) in rw a refl
tail_after next p tail x (y ∷ xs) c e = let a : (p == null) ≡ false = ground (arith, c) in rw a e

-- If the ready queue is `xs`, then its first thread is given out and the others stay, in their order;
-- if it is empty, the idle thread is given out and nothing changes.
pub get_ready-IsQueue : (k : Kernel) (xs : List Ptr) → IsQueue k xs → Gives k xs (get_ready k)
unfolding get_ready last
get_ready-IsQueue k [] q =
    let a : (k.ready_head == null) ≡ true = ground (arith, q.chain) in rw a refl
get_ready-IsQueue k (x ∷ xs) q =
    let a : (k.ready_head == null) ≡ false = ground (arith, q.chain) in
    rw (a, q.chain.0)
      (
        refl,
        record {
          chain =
              Chain-frame (λ y. (k.tcb y).next_ready) _ (k.tcb x).next_ready xs
                (λ y i. ground (arith, q.distinct)) q.chain.2;
          at_tail = tail_after (λ y. (k.tcb y).next_ready) _ k.ready_tail x xs q.chain.2 q.at_tail;
          distinct = q.distinct.1;
        },
      )
