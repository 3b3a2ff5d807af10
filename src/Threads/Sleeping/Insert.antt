-- ===== src/Threads/Sleeping/Insert.antt =====
-- How Sleep::put keeps the list of sleeping threads.
use os1_proj.Prelude.{
  Bool, subst, ap, ℕ, suc, ◌-◌, ◌≤◌, ◌<◌, ◌≡◌, ◌≢◌, refl, sym, true, false, List, [], ◌∷◌, ◌==◌,
  if◌then◌else◌, ltb, word, ◌-w◌, arith, ◌∙◌, Bool-cases, inl, inr, length, ==_false, leb→le,
}
use os1_proj.Threads.{Ptr, null, Kernel}
use os1_proj.Threads.Blocking.{find_sleeper, link_first, link_before, link_behind, put_sleep}
use os1_proj.Threads.Chains.{member, Chain-frame}
use os1_proj.Threads.Sleeping.{Sleeper, sleeper, names, insert, IsSleeping}
use os1_proj.Threads.Sleeping.Behind.{HaveTimes-frame, less_time, Behind, link_found}
use os1_proj.Threads.Sleeping.Marks.{
  HaveTimes-AllAsleep, all_sleep, member-insert, Distinct-insert, mark, mark-IsSleeping,
}

link_behind_sleeps :
    (k : Kernel) (t target x : Ptr) (left : ℕ)
    → ((link_behind k t target left).tcb x).sleeps ≡ (k.tcb x).sleeps
unfolding link_behind
link_behind_sleeps k t target x left = ground arith

link_behind_head :
    (k : Kernel) (t target : Ptr) (left : ℕ)
    → (link_behind k t target left).sleep_head ≡ k.sleep_head
unfolding link_behind
link_behind_head k t target left = elim (Bool-cases ((k.tcb target).next_sleep == null)) [
  | inl e ↦ rw e refl
  | inr e ↦ rw e refl
]

same_link :
    (k : Kernel) (t : Ptr) (d : ℕ) (x : Ptr)
    → x ≢ t
    → ((link_before k t d).tcb x).next_sleep ≡ (k.tcb x).next_sleep
unfolding link_before
same_link k t d x n = ground arith

head_time :
    (k : Kernel) (t : Ptr) (d : ℕ) (x : Ptr)
    → x ≢ t
    → k.sleep_head ≡ x
    → ((link_before k t d).tcb x).time_sleep_relative ≡ (k.tcb x).time_sleep_relative -w d
unfolding link_before
head_time k t d x n h = ground (arith, h)

module _ (k : Kernel) (t : Ptr) (d : ℕ) (nz : t ≢ null) (b : d < word) where
  link_first-IsSleeping : IsSleeping (mark (link_first k t d) t) (sleeper t d ∷ [])
  unfolding link_first names member
  link_first-IsSleeping =
      mark-IsSleeping (link_first k t d) t (sleeper t d ∷ []) (refl, nz, ground arith)
        (ground arith, b, tt) (refl, tt) (λ x i n. absurd (ground (arith, i)))

  link_before-IsSleeping :
      (s : Sleeper) (ss : List Sleeper)
      → member t (names (s ∷ ss)) ≡ false
      → ltb d s.time ≡ true
      → IsSleeping k (s ∷ ss)
      → IsSleeping (mark (link_before k t d) t) (sleeper t d ∷ sleeper s.thread (s.time - d) ∷ ss)
  unfolding link_before names member
  link_before-IsSleeping s ss out less q =
      let g = link_before k t d in
      let h = q.chain.0 in
      mark-IsSleeping g t (sleeper t d ∷ sleeper s.thread (s.time - d) ∷ ss)
        (
          refl,
          nz,
          (
            ground (arith, h),
            q.chain.1,
            rw (same_link k t d s.thread (ground arith)) (
                Chain-frame (λ x. (k.tcb x).next_sleep) (λ x. (g.tcb x).next_sleep)
                  (k.tcb s.thread).next_sleep (names ss)
                  (λ x i. same_link k t d x (ground (arith, i))) q.chain.2),
          ),
        )
        (
          ground arith,
          b,
          (
            head_time k t d s.thread (ground arith) h
                ∙ rw (q.times.0) (less_time d s.time less q.times.2),
            omega (arith, q.times.2),
            HaveTimes-frame (λ x. (k.tcb x).time_sleep_relative)
                (λ x. (g.tcb x).time_sleep_relative) ss (λ x i. ground (arith, h, i, q.distinct.0))
                (HaveTimes-AllAsleep k.tcb ss q.times.3),
          ),
        )
        (ground arith, q.distinct) (λ x i n. ground (arith, all_sleep k.tcb (s ∷ ss) x q.times))

  link_behind-IsSleeping :
      (s : Sleeper) (ss : List Sleeper)
      → member t (names (s ∷ ss)) ≡ false
      → length ss ≤ suc k.threads
      → IsSleeping k (s ∷ ss)
      → let (target, left) = find_sleeper (suc k.threads) k s.thread (d - s.time) in
        IsSleeping (mark (link_behind k t target left) t) (s ∷ insert t (d - s.time) ss)
  unfolding names member
  link_behind-IsSleeping s ss out f q =
      let times = HaveTimes-AllAsleep k.tcb ss q.times.3 in
      let (target, left) = find_sleeper (suc k.threads) k s.thread (d - s.time) in
      let g = link_behind k t target left in
      let put : Behind k t s.thread ss (insert t (d - s.time) ss) g =
        link_found k t nz (suc k.threads) s.thread (d - s.time) ss (ground arith) q.chain.1
          (omega arith) f (ground arith) q.distinct.0 q.distinct.1 q.chain.2 times in
      mark-IsSleeping g t (s ∷ insert t (d - s.time) ss)
        (link_behind_head k t target left ∙ q.chain.0, q.chain.1, put.chain)
        (
          put.old_times s.thread (ground arith) q.chain.1 q.distinct.0 ∙ q.times.0,
          q.times.2,
          put.times,
        )
        (
          ground (arith, member-insert s.thread t (d - s.time) ss, q.distinct.0, out),
          Distinct-insert t (d - s.time) ss (ground (arith, out)) q.distinct.1,
        )
        (λ x i n.
          link_behind_sleeps k t target x left
          ∙ all_sleep k.tcb (s ∷ ss) x q.times
              (ground (arith, i, member-insert x t (d - s.time) ss)))

-- Sleep::put, given the values of its tests.
put_sleep_branch :
    (k : Kernel) (t h : Ptr) (d l : ℕ) (empty less : Bool)
    → t ≢ null
    → k.sleep_head ≡ h
    → d -w (k.tcb h).time_sleep_relative ≡ l
    → (h == null) ≡ empty
    → ltb d (k.tcb h).time_sleep_relative ≡ less
    → put_sleep k t d
      ≡ mark
          (let (target, left) = find_sleeper (suc k.threads) k h l in
            if empty
            then link_first k t d
            else if less
            then link_before k t d
            else link_behind k t target left)
          t
unfolding put_sleep
put_sleep_branch k t h d l empty less nz eh el ee es =
    let chosen : Ptr → ℕ → Bool → Bool → Kernel = λ h l b c.
      mark
        (let (target, left) = find_sleeper (suc k.threads) k h l in
          if b
          then link_first k t d
          else if c
          then link_before k t d
          else link_behind k t target left)
        t in
    let start =
      chosen k.sleep_head (d -w (k.tcb k.sleep_head).time_sleep_relative) (k.sleep_head == null)
        (ltb d (k.tcb k.sleep_head).time_sleep_relative) in
    ap (λ b. if b then k else start) (==_false t null nz)
    ∙ (ap
          (λ z.
            chosen z (d -w (k.tcb z).time_sleep_relative) (z == null)
              (ltb d (k.tcb z).time_sleep_relative))
          eh
        ∙ (ap (λ z. chosen h z (h == null) (ltb d (k.tcb h).time_sleep_relative)) el
            ∙ (ap (λ z. chosen h l z (ltb d (k.tcb h).time_sleep_relative)) ee
                ∙ ap (λ z. chosen h l empty z) es)))

-- If the threads `ss` sleep, no more than there are threads, then a thread put to sleep for `d`,
-- below 2 ^ 64, neither null nor among them, stands behind those that wake no later, and the one
-- behind it sleeps so much less after it.
pub put_sleep-IsSleeping :
    (k : Kernel) (t : Ptr) (d : ℕ) (ss : List Sleeper)
    → t ≢ null
    → member t (names ss) ≡ false
    → d < word
    → length ss ≤ k.threads
    → IsSleeping k ss
    → IsSleeping (put_sleep k t d) (insert t d ss)
unfolding insert names
put_sleep-IsSleeping k t d [] nz out b f q =
    subst (λ g. IsSleeping g (sleeper t d ∷ []))
      (sym (put_sleep_branch k t null d _ true _ nz q.chain refl refl refl))
      (link_first-IsSleeping k t d nz b)
put_sleep-IsSleeping k t d (s ∷ ss) nz out b f q =
    let some_one : (s.thread == null) ≡ false = ==_false s.thread null q.chain.1 in
    elim (Bool-cases (ltb d s.time)) [
      | inl less ↦ rw less (
          subst (λ g. IsSleeping g (sleeper t d ∷ sleeper s.thread (s.time - d) ∷ ss))
            (sym (
              put_sleep_branch k t s.thread d _ false true nz q.chain.0 refl some_one
                (ap (ltb d) q.times.0 ∙ less)))
            (link_before-IsSleeping k t d nz b s ss out less q))
      | inr more ↦
          let exact : d -w s.time ≡ d - s.time = omega (arith, leb→le s.time d (ground arith)) in
          rw more (
            subst (λ g. IsSleeping g (s ∷ insert t (d - s.time) ss))
              (sym (
                put_sleep_branch k t s.thread d (d - s.time) false false nz q.chain.0
                  (ap (λ z. d -w z) q.times.0 ∙ exact) some_one (ap (ltb d) q.times.0 ∙ more)))
              (link_behind-IsSleeping k t d nz b s ss out (omega arith) q))
    ]
