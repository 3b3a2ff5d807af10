-- ===== src/Threads/Removal.antt =====
-- Taking a thread out of the middle of a linked list.
pub mod Waiters
pub mod Sleepers
use os1_proj.Prelude.{
  ◌≡◌, ◌≢◌, refl, sym, subst, ◌∙◌, ℕ, zero, suc, ◌≤◌, true, false, ◌||◌, ◌&&◌, not, List, [], ◌∷◌,
  arith, ◌==◌, if◌then◌else◌, Bool-cases, inl, inr, length, ==_iff, ==_false,
}
use os1_proj.Threads.{Ptr, null, Kernel}
use os1_proj.Threads.Blocking.{find_blocked, find_sleeping}
use os1_proj.Threads.Chains.{member, last, last-member, Chain, Distinct, Chain-frame}

unfoldable pub without : Ptr → List Ptr → List Ptr
without t [] = []
without t (x ∷ xs) = if x == t then xs else x ∷ without t xs

-- What stands before `t` in a list that follows `q`.
unfoldable pub before : Ptr → Ptr → List Ptr → Ptr
before q t [] = q
before q t (x ∷ xs) = if x == t then q else before x t xs

pub before-member :
    (q t : Ptr) (xs : List Ptr) → (before q t xs == q || member (before q t xs) xs) ≡ true
unfolding before member
before-member q t [] = ground arith
before-member q t (x ∷ xs) = ground (arith, before-member x t xs)

pub before_some :
    (next : Ptr → Ptr) (p x t : Ptr) (xs : List Ptr) → Chain next p (x ∷ xs) → before x t xs ≢ null
unfolding before
before_some next p x t [] c = c.1
before_some next p x t (y ∷ xs) c = elim (Bool-cases (y == t)) [
  | inl e ↦ rw e c.1
  | inr e ↦ rw e (before_some next (next x) y t xs c.2)
]

pub no_null_in :
    (next : Ptr → Ptr) (p : Ptr) (xs : List Ptr) → Chain next p xs → member null xs ≡ false
unfolding member
no_null_in next p [] c = refl
no_null_in next p (x ∷ xs) c = ground (arith, c.1, no_null_in next (next x) xs c.2)

-- No thread stands before itself.
pub before_other :
    (q t : Ptr) (xs : List Ptr) → Distinct xs → t ≢ q → member t xs ≡ true → t ≢ before q t xs
unfolding before member
before_other q t [] d n i = n
before_other q t (x ∷ xs) d n i = elim (Bool-cases (x == t)) [
  | inl e ↦ rw e n
  | inr e ↦ rw e (before_other x t xs d.1 (λ h. ground (arith, h, e)) (ground (arith, i, e)))
]

pub member-without :
    (y t : Ptr) (xs : List Ptr)
    → Distinct xs
    → member y (without t xs) ≡ (member y xs && not (y == t))
unfolding member without
member-without y t [] d = ground arith
member-without y t (x ∷ xs) d = ground (arith, member-without y t xs d.1, d.0)

pub Distinct-without : (t : Ptr) (xs : List Ptr) → Distinct xs → Distinct (without t xs)
unfolding without
Distinct-without t [] d = d
Distinct-without t (x ∷ xs) d = elim (Bool-cases (x == t)) [
  | inl e ↦ rw e d.1
  | inr e ↦ rw e (ground (arith, member-without x t xs d.1, d.0), Distinct-without t xs d.1)
]

pub last-without :
    (q t : Ptr) (xs : List Ptr)
    → Distinct xs
    → member t xs ≡ true
    → last q (without t xs) ≡ (if t == last q xs then before q t xs else last q xs)
unfolding last member without before
last-without q t [] d i = absurd (ground (arith, i))
last-without q t (x ∷ []) d i = ground (arith, i)
last-without q t (x ∷ y ∷ xs) d i =
    ground (arith, i, d.0, last-member y xs, last-without x t (y ∷ xs) d.1)

follows :
    (next next' : Ptr → Ptr) (x t b : Ptr)
    → next' b ≡ next t
    → (b ≢ x → next' x ≡ next x)
    → (if b == x then next t else next x) ≡ next' x
follows next next' x t b l h = elim (Bool-cases (b == x)) [
  | inl e ↦ rw e (subst (λ z. next t ≡ next' z) ((==_iff b x).0 e) (sym l))
  | inr e ↦ rw e (sym (h (λ k. ground (arith, e, k))))
]

-- The list is linked past `t`.
pub Chain-without :
    (next next' : Ptr → Ptr) (p q t : Ptr) (xs : List Ptr)
    → Distinct xs
    → member t xs ≡ true
    → member q xs ≡ false
    → ((y : Ptr) → member y xs ≡ true → y ≢ t → y ≢ before q t xs → next' y ≡ next y)
    → (before q t xs ≢ q → next' (before q t xs) ≡ next t)
    → Chain next p xs
    → Chain next' (if before q t xs == q then next t else p) (without t xs)
unfolding member without before
Chain-without next next' p q t [] d i o same link c = absurd (ground (arith, i))
Chain-without next next' p q t (x ∷ xs) d i o same link c = elim (Bool-cases (x == t)) [
  | inl e ↦
      let here = (==_iff x t).0 e in
      let self : (q == q) ≡ true = ground arith in
      rw (e, self)
        (Chain-frame next next' (next t) xs
          (λ y j.
            same y (ground (arith, j)) (ground (arith, j, here, d.0)) (rw e (ground (arith, j, o))))
          (subst (λ z. Chain next (next z) xs) here c.2))
  | inr e ↦
      let b = before x t xs in
      let apart : b ≢ q = λ h. ground (arith, h, before-member x t xs, o) in
      let linked : next' b ≡ next t = (rw e at link) apart in
      let rest =
        Chain-without next next' (next x) x t xs d.1 (ground (arith, i, e)) d.0
          (λ y j n n'. same y (ground (arith, j)) n (rw e n')) (λ n. linked) c.2 in
      rw (e, ==_false b q apart)
        (
          c.0,
          c.1,
          subst (λ z. Chain next' z (without t xs))
              (follows next next' x t b linked
                (λ n. same x (ground arith) (λ h. ground (arith, e, h)) (rw e (λ h. n (sym h)))))
              rest,
        )
]

-- The loops of kSemaphore::get and Sleep::get find a thread, and what stands before it.
pub find_blocked_lem :
    (fuel : ℕ) (k : Kernel) (t p q : Ptr) (xs : List Ptr)
    → length xs ≤ fuel
    → member t xs ≡ true
    → Chain (λ x. (k.tcb x).next_sem_blocked) p xs
    → find_blocked fuel k t p q ≡ (t, before q t xs)
unfolding find_blocked before member
find_blocked_lem fuel k t p q [] f i c = absurd (ground (arith, i))
find_blocked_lem zero k t p q (x ∷ xs) f i c = absurd (omega arith)
find_blocked_lem (suc fuel) k t p q (x ∷ xs) f i c =
    let some_one : (x == null) ≡ false = ==_false x null c.1 in
    elim (Bool-cases (x == t)) [
      | inl e ↦ rw (c.0, some_one, e, (==_iff x t).0 e) refl
      | inr e ↦
          rw (c.0, some_one, e)
            (find_blocked_lem fuel k t (k.tcb x).next_sem_blocked x xs (omega arith)
              (ground (arith, i, e)) c.2)
    ]

pub find_sleeping_lem :
    (fuel : ℕ) (k : Kernel) (t p q : Ptr) (xs : List Ptr)
    → length xs ≤ fuel
    → member t xs ≡ true
    → Chain (λ x. (k.tcb x).next_sleep) p xs
    → find_sleeping fuel k t p q ≡ (t, before q t xs)
unfolding find_sleeping before member
find_sleeping_lem fuel k t p q [] f i c = absurd (ground (arith, i))
find_sleeping_lem zero k t p q (x ∷ xs) f i c = absurd (omega arith)
find_sleeping_lem (suc fuel) k t p q (x ∷ xs) f i c =
    let some_one : (x == null) ≡ false = ==_false x null c.1 in
    elim (Bool-cases (x == t)) [
      | inl e ↦ rw (c.0, some_one, e, (==_iff x t).0 e) refl
      | inr e ↦
          rw (c.0, some_one, e)
            (find_sleeping_lem fuel k t (k.tcb x).next_sleep x xs (omega arith)
              (ground (arith, i, e)) c.2)
    ]
