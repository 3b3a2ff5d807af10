-- ===== src/Threads/Sleeping/Remaining.antt =====
-- The time left to each thread, after a thread has been put to sleep and after a tick.
use os1_proj.Prelude.{
  ℕ, suc, ◌-◌, ◌≤◌, ◌≡◌, ◌≢◌, refl, true, false, List, [], ◌∷◌, ◌==◌, ltb, arith, length,
  Bool-cases, inl, inr,
}
use os1_proj.Threads.{Ptr}
use os1_proj.Threads.Chains.{member, Distinct}
use os1_proj.Threads.Sleeping.{Sleeper, names, insert, awake, asleep, tick, remaining, SomeLeft}

-- A thread that is put to sleep for `d` has `d` left, and nobody else's time changes.
pub remaining-insert :
    (t x : Ptr) (d : ℕ) (ss : List Sleeper)
    → member t (names ss) ≡ false
    → (remaining t (insert t d ss) ≡ d)
      × (x ≢ t → member x (names ss) ≡ true → remaining x (insert t d ss) ≡ remaining x ss)
unfolding remaining insert names member
remaining-insert t x d [] out = (ground arith, λ ne i. cc)
remaining-insert t x d (s ∷ ss) out =
    let ih = remaining-insert t x (d - s.time) ss (ground arith) in
    (ground (arith, ih.0), λ ne i. ground (arith, ih.1 ne))

pub insert-SomeLeft :
    (t : Ptr) (d : ℕ) (ss : List Sleeper) → d ≢ 0 → SomeLeft ss → SomeLeft (insert t d ss)
unfolding insert
insert-SomeLeft t d [] n l = n
insert-SomeLeft t d (s ∷ ss) n l = elim (Bool-cases (ltb d s.time)) [
  | inl e ↦ rw e n
  | inr e ↦ rw e l
]

pub asleep-SomeLeft : (ss : List Sleeper) → SomeLeft (asleep ss)
unfolding asleep
asleep-SomeLeft [] = tt
asleep-SomeLeft (s ∷ ss) = elim (Bool-cases (s.time == 0)) [
  | inl e ↦ rw e (asleep-SomeLeft ss)
  | inr e ↦ rw e (λ h. ground (arith, e, h))
]

pub length-asleep : (ss : List Sleeper) → length (asleep ss) ≤ length ss
unfolding asleep
length-asleep [] = omega arith
length-asleep (s ∷ ss) = ground (arith, length-asleep ss)

pub asleep_among :
    (x : Ptr) (ss : List Sleeper) → member x (names (asleep ss)) ≡ true → member x (names ss) ≡ true
unfolding asleep names member
asleep_among x [] i = i
asleep_among x (s ∷ ss) i = ground (arith, i, asleep_among x ss)

-- No thread is both awake and asleep.
pub asleep_apart :
    (x : Ptr) (ss : List Sleeper)
    → Distinct (names ss)
    → member x (names (asleep ss)) ≡ true
    → member x (awake ss) ≡ false
unfolding asleep awake names member
asleep_apart x [] q i = refl
asleep_apart x (s ∷ ss) q i = ground (arith, i, asleep_apart x ss q.1, asleep_among x ss, q.0)

pub remaining_none :
    (x : Ptr) (ss : List Sleeper)
    → member x (names ss) ≡ true
    → remaining x ss ≡ 0
    → member x (awake ss) ≡ true
unfolding remaining awake names member
remaining_none x [] i e = i
remaining_none x (s ∷ ss) i e = ground (arith, i, e, remaining_none x ss)

pub remaining_some :
    (x : Ptr) (n : ℕ) (ss : List Sleeper)
    → member x (names ss) ≡ true
    → remaining x ss ≡ suc n
    → (member x (names (asleep ss)) ≡ true) × (remaining x (asleep ss) ≡ suc n)
unfolding remaining asleep names member
remaining_some x n [] i e = absurd (ground (arith, i))
remaining_some x n (s ∷ ss) i e =
    let ih = remaining_some x n ss in
    elim (Bool-cases (s.time == 0)) [
      | inl z ↦ rw z (ih (ground (arith, i, e, z)) (ground (arith, i, e, z)))
      | inr z ↦ rw z (i, e)
    ]

-- A tick takes one from the time of every thread.
pub remaining-tick :
    (x : Ptr) (ss : List Sleeper)
    → SomeLeft ss
    → member x (names ss) ≡ true
    → remaining x ss ≡ suc (remaining x (tick ss))
unfolding remaining tick names member
remaining-tick x [] l i = absurd (ground (arith, i))
remaining-tick x (s ∷ ss) l i = ground (arith, i, l)
