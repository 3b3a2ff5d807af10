-- ===== src/Threads/Sleeping/Behind.antt =====
-- What the loop of Sleep::put finds, and what linking a thread there makes of the list.
use os1_proj.Prelude.{
  ℕ, zero, suc, ◌-◌, ◌≤◌, ◌<◌, ◌≡◌, ◌≢◌, sym, true, false, List, [], ◌∷◌, ◌==◌, ltb, leb, word,
  ◌-w◌, arith, ◌∙◌, Bool-cases, inl, inr, length, ==_false, ltb→lt, leb→le,
}
use os1_proj.Threads.{Ptr, null, Kernel}
use os1_proj.Threads.Blocking.{find_sleeper, link_behind}
use os1_proj.Threads.Chains.{member, Chain, Distinct, Chain-frame}
use os1_proj.Threads.Sleeping.{Sleeper, sleeper, names, insert}

-- The times of the list.
abbrev pub HaveTimes : (time : Ptr → ℕ) → List Sleeper → Type 0
HaveTimes time [] = Unit {0}
HaveTimes time (s ∷ ss) = (time s.thread ≡ s.time) × (s.time < word) × HaveTimes time ss

pub HaveTimes-frame :
    (old new : Ptr → ℕ) (ss : List Sleeper)
    → ((x : Ptr) → member x (names ss) ≡ true → new x ≡ old x)
    → HaveTimes old ss
    → HaveTimes new ss
unfolding member names
HaveTimes-frame old new [] p a = tt
HaveTimes-frame old new (s ∷ ss) p a = (
  p s.thread (ground arith) ∙ a.0,
  a.1,
  HaveTimes-frame old new ss (λ x i. p x (ground arith)) a.2,
)

module _ (k : Kernel) (t target : Ptr) (left : ℕ) where
  new_link :
      t ≢ target → ((link_behind k t target left).tcb t).next_sleep ≡ (k.tcb target).next_sleep
  unfolding link_behind
  new_link ne = ground arith

  target_link : ((link_behind k t target left).tcb target).next_sleep ≡ t
  unfolding link_behind
  target_link = ground arith

  other_link :
      (x : Ptr)
      → x ≢ t
      → x ≢ target
      → ((link_behind k t target left).tcb x).next_sleep ≡ (k.tcb x).next_sleep
  unfolding link_behind
  other_link x n n' = ground arith

  new_time : ((link_behind k t target left).tcb t).time_sleep_relative ≡ left
  unfolding link_behind
  new_time = ground arith

  next_time :
      (x : Ptr)
      → x ≢ null
      → x ≢ t
      → (k.tcb target).next_sleep ≡ x
      → ((link_behind k t target left).tcb x).time_sleep_relative
        ≡ (k.tcb x).time_sleep_relative -w left
  unfolding link_behind
  next_time x nz n e = ground (arith, e)

  other_time :
      (x : Ptr)
      → x ≢ t
      → (k.tcb target).next_sleep ≢ x
      → ((link_behind k t target left).tcb x).time_sleep_relative ≡ (k.tcb x).time_sleep_relative
  unfolding link_behind
  other_time x n n' = ground arith

-- A thread `t` put to sleep somewhere behind `s` makes of its successors `ss` the list `new`.
pub record Behind (k : Kernel) (t s : Ptr) (ss new : List Sleeper) (g : Kernel) : Type 0 where
  pub chain : Chain (λ x. (g.tcb x).next_sleep) (g.tcb s).next_sleep (names new)
  pub times : HaveTimes (λ x. (g.tcb x).time_sleep_relative) new
  pub links :
      (x : Ptr)
      → x ≢ t
      → x ≢ s
      → member x (names ss) ≡ false
      → (g.tcb x).next_sleep ≡ (k.tcb x).next_sleep
  pub old_times :
      (x : Ptr)
      → x ≢ t
      → x ≢ null
      → member x (names ss) ≡ false
      → (g.tcb x).time_sleep_relative ≡ (k.tcb x).time_sleep_relative

pub less_time : (d time : ℕ) → ltb d time ≡ true → time < word → time -w d ≡ time - d
less_time d time h b = omega (arith, ltb→lt d time h)

module _ (k : Kernel) (t : Ptr) (nz : t ≢ null) where
  link_last :
      (s : Ptr) (d : ℕ)
      → s ≢ t
      → d < word
      → (k.tcb s).next_sleep ≡ null
      → Behind k t s [] (sleeper t d ∷ []) (link_behind k t s d)
  unfolding names
  link_last s d n b e = record {
    chain = (target_link k t s d, nz, new_link k t s d (λ h. n (sym h)) ∙ e);
    times = (new_time k t s d, b, tt);
    links = λ x n' n'' i. other_link k t s d x n' n'';
    old_times = λ x n' z i. other_time k t s d x n' (λ h. z (sym h ∙ e));
  }

  link_between :
      (s : Ptr) (d : ℕ) (u : Sleeper) (ss : List Sleeper)
      → s ≢ t
      → d < word
      → member t (names (u ∷ ss)) ≡ false
      → member s (names (u ∷ ss)) ≡ false
      → Distinct (names (u ∷ ss))
      → Chain (λ x. (k.tcb x).next_sleep) (k.tcb s).next_sleep (names (u ∷ ss))
      → HaveTimes (λ x. (k.tcb x).time_sleep_relative) (u ∷ ss)
      → ltb d u.time ≡ true
      → Behind k t s
          (u ∷ ss)
          (sleeper t d ∷ sleeper u.thread (u.time - d) ∷ ss)
          (link_behind k t s d)
  unfolding names member
  link_between s d u ss n b out out' dis c a less =
      let g = link_behind k t s d in
      record {
        chain = (
          target_link k t s d,
          nz,
          (
            new_link k t s d (λ h. n (sym h)) ∙ c.0,
            c.1,
            rw (other_link k t s d u.thread (ground arith) (ground arith)) (
                Chain-frame (λ x. (k.tcb x).next_sleep) (λ x. (g.tcb x).next_sleep)
                  (k.tcb u.thread).next_sleep (names ss)
                  (λ x i. other_link k t s d x (ground (arith, i)) (ground (arith, i))) c.2),
          ),
        );
        times = (
          new_time k t s d,
          b,
          (
            next_time k t s d u.thread c.1 (ground arith) c.0
                ∙ rw a.0 (less_time d u.time less a.1),
            omega (arith, a.1),
            HaveTimes-frame (λ x. (k.tcb x).time_sleep_relative)
                (λ x. (g.tcb x).time_sleep_relative) ss
                (λ x i.
                  other_time k t s d x (ground (arith, i)) (λ h. ground (arith, c.0, dis.0, i, h)))
                a.2,
          ),
        );
        links = λ x n' n'' i. other_link k t s d x n' n'';
        old_times = λ x n' z i. other_time k t s d x n' (λ h. ground (arith, c.0, i, h));
      }

  -- A thread that wakes no later is passed.
  passes_by :
      (s : Ptr) (u : Sleeper) (ss new : List Sleeper) (g : Kernel)
      → s ≢ t
      → s ≢ null
      → member t (names (u ∷ ss)) ≡ false
      → member s (names (u ∷ ss)) ≡ false
      → Distinct (names (u ∷ ss))
      → Chain (λ x. (k.tcb x).next_sleep) (k.tcb s).next_sleep (names (u ∷ ss))
      → HaveTimes (λ x. (k.tcb x).time_sleep_relative) (u ∷ ss)
      → Behind k t u.thread ss new g
      → Behind k t s (u ∷ ss) (u ∷ new) g
  unfolding names member
  passes_by s u ss new g n z out out' dis c a h = record {
    chain = (h.links s n (ground arith) (ground arith) ∙ c.0, c.1, h.chain);
    times = (h.old_times u.thread (ground arith) c.1 dis.0 ∙ a.0, a.1, h.times);
    links = λ x n' n'' i. h.links x n' (ground (arith, i)) (ground (arith, i));
    old_times = λ x n' z' i. h.old_times x n' z' (ground (arith, i));
  }

  pub link_found :
      (fuel s d : ℕ) (ss : List Sleeper)
      → s ≢ t
      → s ≢ null
      → d < word
      → length ss ≤ fuel
      → member t (names ss) ≡ false
      → member s (names ss) ≡ false
      → Distinct (names ss)
      → Chain (λ x. (k.tcb x).next_sleep) (k.tcb s).next_sleep (names ss)
      → HaveTimes (λ x. (k.tcb x).time_sleep_relative) ss
      → let (target, left) = find_sleeper fuel k s d in
        Behind k t s ss (insert t d ss) (link_behind k t target left)
  unfolding find_sleeper insert names member
  link_found zero s d [] n z b f out out' dis c a = link_last s d n b c
  link_found (suc fuel) s d [] n z b f out out' dis c a = rw c (link_last s d n b c)
  link_found zero s d (u ∷ ss) n z b f out out' dis c a = absurd (omega arith)
  link_found (suc fuel) s d (u ∷ ss) n z b f out out' dis c a =
      let some_one : (u.thread == null) ≡ false = ==_false u.thread null c.1 in
      elim (Bool-cases (ltb d u.time)) [
        | inl less ↦
            let stop : leb u.time d ≡ false = ground arith in
            rw (c.0, some_one, a.0, stop, less) (link_between s d u ss n b out out' dis c a less)
        | inr more ↦
            let go : leb u.time d ≡ true = ground arith in
            let exact : d -w u.time ≡ d - u.time = omega (arith, leb→le u.time d go) in
            rw (c.0, some_one, a.0, go, more, exact)
              (passes_by s u ss _ _ n z out out' dis c a (
                link_found fuel u.thread (d - u.time) ss (ground arith) c.1 (omega arith)
                  (omega arith) (ground arith) dis.0 dis.1 c.2 a.2))
      ]
