-- ===== src/Threads/Removal/Sleepers.antt =====
-- Sleep::get of a given thread against the list of sleeping threads.
use os1_proj.Prelude.{
  ◌≡◌, ◌≢◌, ◌⊎◌, refl, sym, subst, ap, ◌∙◌, ℕ, suc, ◌+◌, ◌≤◌, ◌<◌, true, false, List, [], ◌∷◌,
  arith, ◌==◌, if◌then◌else◌, Bool-cases, inl, inr, length, ==_iff, ==_false, word, ◌+w◌,
}
use os1_proj.Threads.{Ptr, null, Tcb, Kernel}
use os1_proj.Threads.Blocking.{unlink_sleeping, take_sleep, awake, inherit_time}
use os1_proj.Threads.Chains.{member, Chain, Distinct}
use os1_proj.Threads.Sleeping.{
  Sleeper, names, take_over, remaining, AllAsleep, AllAsleep-frame, IsSleeping,
}
use os1_proj.Threads.Sleeping.Marks.{all_sleep}
use os1_proj.Threads.Removal.{
  without, before, before_other, Distinct-without, Chain-without, find_sleeping_lem, no_null_in,
}

-- The time until the last of them wakes.
unfoldable pub total : List Sleeper → ℕ
total [] = 0
total (s ∷ ss) = s.time + total ss

-- The sleeping threads without `t`: the one behind it takes over its time.
unfoldable pub take_out : Ptr → List Sleeper → List Sleeper
take_out t [] = []
take_out t (s ∷ ss) = if s.thread == t then take_over s.time ss else s ∷ take_out t ss

pub names-take_over : (d : ℕ) (ss : List Sleeper) → names (take_over d ss) ≡ names ss
unfolding names take_over
names-take_over d [] = refl
names-take_over d (s ∷ ss) = refl

pub names-take_out : (t : Ptr) (ss : List Sleeper) → names (take_out t ss) ≡ without t (names ss)
unfolding names take_out without
names-take_out t [] = refl
names-take_out t (s ∷ ss) = elim (Bool-cases (s.thread == t)) [
  | inl e ↦ rw e (names-take_over s.time ss)
  | inr e ↦ rw e (ap (λ xs. s.thread ∷ xs) (names-take_out t ss))
]

pub total-take_over : (d : ℕ) (ss : List Sleeper) → total (take_over d ss) ≤ d + total ss
unfolding total take_over
total-take_over d [] = omega arith
total-take_over d (s ∷ ss) = omega arith

pub total-take_out : (t : Ptr) (ss : List Sleeper) → total (take_out t ss) ≤ total ss
unfolding total take_out
total-take_out t [] = omega arith
total-take_out t (s ∷ ss) = elim (Bool-cases (s.thread == t)) [
  | inl e ↦ rw e (total-take_over s.time ss)
  | inr e ↦ rw e (omega (arith, total-take_out t ss))
]

-- What follows a thread of the list is in the list, too.
next_later :
    (next : Ptr → Ptr) (p t : Ptr) (xs : List Ptr)
    → Chain next p xs
    → member t xs ≡ true
    → (next t ≡ null) ⊎ (member (next t) xs ≡ true)
unfolding member
next_later next p t [] c i = absurd (ground (arith, i))
next_later next p t (x ∷ []) c i = inl (subst (λ z. next z ≡ null) (ground (arith, i)) c.2)
next_later next p t (x ∷ y ∷ xs) c i = elim (Bool-cases (t == x)) [
  | inl e ↦ inr (ground (arith, (==_iff t x).0 e, c.2.0))
  | inr e ↦ elim (next_later next (next x) t (y ∷ xs) c.2 (ground (arith, i, e))) [
    | inl z ↦ inl z
    | inr j ↦ inr (ground (arith, j))
  ]
]

AllAsleep-take_out :
    (old new : Ptr → Tcb) (next : Ptr → Ptr) (p t : Ptr) (ss : List Sleeper)
    → ((y : Ptr) → y ≢ t → (new y).sleeps ≡ (old y).sleeps)
    → ((y : Ptr)
        → y ≢ t
        → y ≢ next t
        → y ≢ null
        → (new y).time_sleep_relative ≡ (old y).time_sleep_relative)
    → (next t ≢ null
        → next t ≢ t
        → (new (next t)).time_sleep_relative
          ≡ (old (next t)).time_sleep_relative +w (old t).time_sleep_relative)
    → Chain next p (names ss)
    → Distinct (names ss)
    → member t (names ss) ≡ true
    → total ss < word
    → AllAsleep old ss
    → AllAsleep new (take_out t ss)
unfolding take_out take_over names member total
AllAsleep-take_out old new next p t [] flags times inherits c d i b a = tt
AllAsleep-take_out old new next p t (s ∷ []) flags times inherits c d i b a =
    let here : (s.thread == t) ≡ true = ground (arith, i) in rw here tt
AllAsleep-take_out old new next p t (s ∷ u ∷ us) flags times inherits c d i b a =
    elim (Bool-cases (s.thread == t)) [
      | inl e ↦
          let here = (==_iff s.thread t).0 e in
          let behind : next t ≡ u.thread = subst (λ z. next z ≡ u.thread) here c.2.0 in
          let far : u.thread ≢ t = ground (arith, here, d.0) in
          let no_one : Chain next (next u.thread) (names us) = c.2.2 in
          let later : (x : Ptr)
              → member x (names us) ≡ true
              → (x ≢ t) × (x ≢ u.thread) × (x ≢ null) =
            λ x j. (
              ground (arith, j, here, d.0),
              ground (arith, j, d.1.0),
              ground (arith, j, no_null_in next (next u.thread) (names us) no_one),
            ) in
          rw e (
            subst
                  (λ z.
                    (new z).time_sleep_relative
                    ≡ (old z).time_sleep_relative +w (old t).time_sleep_relative)
                  behind (inherits (λ z. c.2.1 (sym behind ∙ z)) (λ z. far (sym behind ∙ z)))
                ∙ rw (a.3.0, ← here, a.0) (omega (arith, b)),
            flags u.thread far ∙ a.3.1,
            omega (arith, b),
            AllAsleep-frame old new us
                (λ x j. times x (later x j).0 (λ z. (later x j).1 (z ∙ behind)) (later x j).2)
                (λ x j. flags x (later x j).0) a.3.3,
          )
      | inr e ↦
          let far : s.thread ≢ t = ground (arith, e) in
          let not_next : s.thread ≢ next t = λ z.
            elim (next_later next (next s.thread) t (names (u ∷ us)) c.2 (ground (arith, i, e))) [
              | inl n ↦ c.1 (z ∙ n)
              | inr j ↦ ground (arith, j, z, d.0)
            ] in
          rw e (
            times s.thread far not_next c.1 ∙ a.0,
            flags s.thread far ∙ a.1,
            a.2,
            AllAsleep-take_out old new next (next s.thread) t (u ∷ us) flags times inherits c.2 d.1
                (ground (arith, i, e)) (omega (arith, b)) a.3,
          )
    ]

module _ (k : Kernel) (t b : Ptr) (nz : t ≢ null) (apart : t ≢ b) where
  prev_link : b ≢ null → ((unlink_sleeping k t b).tcb b).next_sleep ≡ (k.tcb t).next_sleep
  unfolding unlink_sleeping awake inherit_time
  prev_link n = ground arith

  other_link :
      (y : Ptr) → y ≢ t → y ≢ b → ((unlink_sleeping k t b).tcb y).next_sleep ≡ (k.tcb y).next_sleep
  unfolding unlink_sleeping awake inherit_time
  other_link y n n' = ground arith

  new_head :
      (unlink_sleeping k t b).sleep_head
      ≡ (if b == null then (k.tcb t).next_sleep else k.sleep_head)
  unfolding unlink_sleeping awake inherit_time
  new_head = ground arith

  pub other_flag : (y : Ptr) → y ≢ t → ((unlink_sleeping k t b).tcb y).sleeps ≡ (k.tcb y).sleeps
  unfolding unlink_sleeping awake inherit_time
  other_flag y n = ground arith

  pub no_flag : ((unlink_sleeping k t b).tcb t).sleeps ≡ false
  unfolding unlink_sleeping awake inherit_time
  no_flag = ground arith

  other_time :
      (y : Ptr)
      → y ≢ t
      → y ≢ (k.tcb t).next_sleep
      → y ≢ null
      → ((unlink_sleeping k t b).tcb y).time_sleep_relative ≡ (k.tcb y).time_sleep_relative
  unfolding unlink_sleeping awake inherit_time
  other_time y n n' z = ground arith

  next_time :
      let u = (k.tcb t).next_sleep in
      u ≢ null
      → u ≢ t
      → ((unlink_sleeping k t b).tcb u).time_sleep_relative
        ≡ (k.tcb u).time_sleep_relative +w (k.tcb t).time_sleep_relative
  unfolding unlink_sleeping awake inherit_time
  next_time n n' = ground arith

pub take_sleep_lem :
    (k : Kernel) (t : Ptr) (ss : List Sleeper)
    → t ≢ null
    → member t (names ss) ≡ true
    → length (names ss) ≤ k.threads
    → IsSleeping k ss
    → take_sleep k t ≡ (unlink_sleeping k t (before null t (names ss)), t)
unfolding take_sleep
take_sleep_lem k t ss nz i f q =
    let sleeps = all_sleep k.tcb ss t q.times i in
    let found =
      find_sleeping_lem (suc k.threads) k t k.sleep_head null (names ss) (omega (arith, f)) i
        q.chain in
    let not_null : (t == null) ≡ false = ==_false t null nz in rw (sleeps, found, not_null) refl

-- If the threads `ss` sleep, no more than there are threads and all within 2 ^ 64 ticks, then taking
-- one of them gives that thread, the others sleep on in their order, and the one behind it takes over
-- its time.
pub take_sleep-IsSleeping :
    (k : Kernel) (t : Ptr) (ss : List Sleeper)
    → t ≢ null
    → member t (names ss) ≡ true
    → length (names ss) ≤ k.threads
    → total ss < word
    → IsSleeping k ss
    → let (g, r) = take_sleep k t in (r ≡ t) × IsSleeping g (take_out t ss)
take_sleep-IsSleeping k t ss nz i f w q =
    let xs = names ss in
    let b = before null t xs in
    let apart : t ≢ b = before_other null t xs q.distinct nz i in
    let g = unlink_sleeping k t b in
    let next : Ptr → Ptr = λ y. (k.tcb y).next_sleep in
    subst (λ o. (o.1 ≡ t) × IsSleeping o.0 (take_out t ss)) (sym (take_sleep_lem k t ss nz i f q))
      (
        refl,
        record {
          chain =
              rw (names-take_out t ss, new_head k t b nz apart)
                (Chain-without next (λ y. (g.tcb y).next_sleep) k.sleep_head null t xs q.distinct i
                  (no_null_in _ _ xs q.chain) (λ y j n n'. other_link k t b nz apart y n n')
                  (λ n. prev_link k t b nz apart n) q.chain);
          distinct = rw (names-take_out t ss) (Distinct-without t xs q.distinct);
          times =
              AllAsleep-take_out k.tcb g.tcb next k.sleep_head t ss (other_flag k t b nz apart)
                (other_time k t b nz apart) (next_time k t b nz apart) q.chain q.distinct i w
                q.times;
        },
      )

remaining-take_over :
    (x : Ptr) (d : ℕ) (ss : List Sleeper)
    → member x (names ss) ≡ true
    → remaining x (take_over d ss) ≡ d + remaining x ss
unfolding remaining take_over names member
remaining-take_over x d [] i = absurd (ground (arith, i))
remaining-take_over x d (s ∷ ss) i = ground arith

-- The time left to the others does not change.
remaining-take_out :
    (x t : Ptr) (ss : List Sleeper)
    → x ≢ t
    → member x (names ss) ≡ true
    → remaining x (take_out t ss) ≡ remaining x ss
unfolding remaining take_out names member
remaining-take_out x t [] n i = absurd (ground (arith, i))
remaining-take_out x t (s ∷ ss) n i = elim (Bool-cases (s.thread == t)) [
  | inl e ↦
      let far : (x == s.thread) ≡ false = ground (arith, n, e) in
      rw (e, far) (remaining-take_over x s.time ss (ground (arith, i, far)))
  | inr e ↦ rw e (ground (arith, i, remaining-take_out x t ss n))
]

-- If the threads `ss` sleep, no more than there are threads and all within 2 ^ 64 ticks, then taking
-- one of them gives that thread, the others sleep on in their order, the one behind it takes over
-- its time, and the time left to each other thread `x` of them stays the same.
pub take_sleep-remaining :
    (k : Kernel) (t x : Ptr) (ss : List Sleeper)
    → t ≢ null
    → member t (names ss) ≡ true
    → length (names ss) ≤ k.threads
    → total ss < word
    → x ≢ t
    → member x (names ss) ≡ true
    → IsSleeping k ss
    → let (g, r) = take_sleep k t in
      (r ≡ t) × IsSleeping g (take_out t ss) × (remaining x (take_out t ss) ≡ remaining x ss)
take_sleep-remaining k t x ss nz i f w n j q =
    let (same, sleeping) = take_sleep-IsSleeping k t ss nz i f w q in
    (same, sleeping, remaining-take_out x t ss n j)
