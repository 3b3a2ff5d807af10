-- ===== src/System/Console/Exchange.antt =====
-- CharBuffer::kPut and CharBuffer::kGet when they need not wait: a bounded queue of characters.
use os1_proj.Prelude.{
  ℕ, suc, ◌+◌, ◌-◌, ◌<◌, ◌≡◌, ◌≢◌, refl, sym, ap, subst, ◌∙◌, true, ◌==◌, word, List, [], ◌∷◌, ◌++◌,
  length, length-append, arith,
}
use os1_proj.Threads.{Ptr, Kernel}
use os1_proj.Threads.Sync.{wait, signal}
use os1_proj.Threads.Open.{
  IsOpen, IsOpen-frame, taken, wait_open, wait_open-Changes, signal_open-Changes, wait_empty,
}
use os1_proj.System.{
  System, Program, wait_at, change, read, done, returned, suspended, exec, with_kernel,
}
use os1_proj.System.Runs.{runs_on, exec_blocks}
use os1_proj.System.Console.{capacity, put, get, at_buffer, signal_at, k_put, k_get}
use os1_proj.System.Console.Window.{Holds, put-Holds, get-Holds}

-- One token of `a` is taken, `m` is taken and given back, and `b` is given a token.
abbrev passed : Kernel → (a m b : Ptr) → Kernel
passed k a m b = (signal (signal (taken (taken k a 1) m 1) m 1).0 b 1).0

record Passes (k : Kernel) (a m b : Ptr) (x y : ℕ) (g : Kernel) : Type 0 where
  from : IsOpen g a (x - 1)
  mutex : IsOpen g m 1
  to : IsOpen g b (y + 1)

passed-Passes :
    (k : Kernel) (a m b : Ptr) (x y : ℕ)
    → a ≢ m
    → b ≢ m
    → a ≢ b
    → IsOpen k a x
    → IsOpen k m 1
    → IsOpen k b y
    → y + 1 < word
    → Passes k a m b x y (passed k a m b)
passed-Passes k a m b x y am bm ab oa om ob f =
    let k1 = taken k a 1 in
    let c1 = wait_open-Changes k a x 1 oa in
    let m1 = IsOpen-frame k k1 m 1 (c1.others m (λ e. am (sym e))) om in
    let k2 = taken k1 m 1 in
    let c2 = wait_open-Changes k1 m 1 1 m1 in
    let k3 = (signal k2 m 1).0 in
    let c3 = signal_open-Changes k2 m 0 1 c2.this_one (omega arith) in
    let a3 : k3.sem a ≡ k1.sem a = c3.others a am ∙ c2.others a am in
    let b3 : k3.sem b ≡ k.sem b =
      c3.others b bm ∙ (c2.others b bm ∙ c1.others b (λ e. ab (sym e))) in
    let c4 = signal_open-Changes k3 b y 1 (IsOpen-frame k k3 b y b3 ob) f in
    record {
      from = IsOpen-frame k1 _ a (x - 1) (c4.others a ab ∙ a3) c1.this_one;
      mutex = IsOpen-frame k3 _ m 1 (c4.others m (λ e. bm (sym e))) c3.this_one;
      to = c4.this_one;
    }

-- The buffer at `p` holds the characters, its semaphores count the places and the characters, and
-- nobody waits.
pub record Serves (s : System) (p : Ptr) (cs : List ℕ) : Type 0 where
  pub holds : Holds (s.buffers p) cs
  pub places : IsOpen s.kernel (s.buffers p).sem_put (capacity - length cs)
  pub characters : IsOpen s.kernel (s.buffers p).sem_get (length cs)
  pub unlocked : IsOpen s.kernel (s.buffers p).mutex 1
  pub put_mutex : (s.buffers p).sem_put ≢ (s.buffers p).mutex
  pub get_mutex : (s.buffers p).sem_get ≢ (s.buffers p).mutex
  pub put_get : (s.buffers p).sem_put ≢ (s.buffers p).sem_get

-- The lines of kPut and of kGet behind the two waits.
abbrev store : Ptr → ℕ → Program
store p c =
    change (λ s. at_buffer s p (λ b. put b c))
      (change (λ s. signal_at s (s.buffers p).mutex)
        (change (λ s. signal_at s (s.buffers p).sem_get) (done (λ s. 0))))

abbrev fetch : Ptr → Program
fetch p =
    read (λ s. (get (s.buffers p)).1)
      (λ c.
        change (λ s. at_buffer s p (λ b. (get b).0))
          (change (λ s. signal_at s (s.buffers p).mutex)
            (change (λ s. signal_at s (s.buffers p).sem_put) (done (λ s. c)))))

module _ (s : System) (p : Ptr) (cs : List ℕ) (q : Serves s p cs) where
  abbrev after_put : ℕ → System
  after_put c =
      let b = s.buffers p in
      at_buffer (with_kernel s (passed s.kernel b.sem_put b.mutex b.sem_get)) p (λ b. put b c)

  k_put_runs : (c : ℕ) → length cs < capacity → exec (k_put p c) s ≡ (after_put c, returned 0)
  unfolding k_put exec signal_at put
  k_put_runs c room =
      let b = s.buffers p in
      let self : (p == p) ≡ true = ground arith in
      let k1 = taken s.kernel b.sem_put 1 in
      let c1 = wait_open-Changes s.kernel b.sem_put _ 1 q.places in
      let m1 =
        IsOpen-frame s.kernel k1 b.mutex 1 (c1.others b.mutex (λ e. q.put_mutex (sym e)))
          q.unlocked in
      runs_on s (λ s. (s.buffers p).sem_put) 1 (wait_at (λ s. (s.buffers p).mutex) 1 (store p c)) k1
        _ (wait_open s.kernel b.sem_put _ 1 q.places (omega (arith, room)))
      ∙ (runs_on (with_kernel s k1) (λ s. (s.buffers p).mutex) 1 (store p c) (taken k1 b.mutex 1) _
            (wait_open k1 b.mutex 1 1 m1 (omega arith))
          ∙ rw self refl)

  k_put-Serves : (c : ℕ) → length cs < capacity → Serves (after_put c) p (cs ++ c ∷ [])
  unfolding put
  k_put-Serves c room =
      let b = s.buffers p in
      let self : (p == p) ≡ true = ground arith in
      let more : length (cs ++ c ∷ []) ≡ length cs + 1 = length-append cs (c ∷ []) in
      let g = passed s.kernel b.sem_put b.mutex b.sem_get in
      let moved =
        passed-Passes s.kernel b.sem_put b.mutex b.sem_get _ _ q.put_mutex q.get_mutex q.put_get
          q.places q.unlocked q.characters (omega (arith, room)) in
      let fewer : capacity - (length cs + 1) ≡ capacity - length cs - 1 = omega arith in
      record {
        holds = rw self (put-Holds b c cs room q.holds);
        places = rw (self, more, fewer) moved.from;
        characters = rw (self, more) moved.to;
        unlocked = rw self moved.mutex;
        put_mutex = rw self q.put_mutex;
        get_mutex = rw self q.get_mutex;
        put_get = rw self q.put_get;
      }

  k_put_suspends :
      (c : ℕ)
      → length cs ≡ capacity
      → exec (k_put p c) s ≡ (
        with_kernel s (wait s.kernel (s.buffers p).sem_put 1).0,
        suspended (wait_at (λ s. (s.buffers p).mutex) 1 (store p c)),
      )
  unfolding k_put exec signal_at put
  k_put_suspends c full =
      exec_blocks s (λ s. (s.buffers p).sem_put) 1
        (wait_at (λ s. (s.buffers p).mutex) 1 (store p c))
        (wait_empty s.kernel (s.buffers p).sem_put 1
          (subst (IsOpen s.kernel (s.buffers p).sem_put) (omega (arith, full)) q.places)
          (omega arith))

  -- If the buffer at `p` holds `cs`, fewer than 256, its semaphores are three, count its places
  -- and its characters, and nobody waits, then kPut returns 0 and leaves the character behind
  -- `cs`, with the semaphores counting again.
  pub k_put_queues :
      (c : ℕ)
      → length cs < capacity
      → let (s', r) = exec (k_put p c) s in (r ≡ returned 0) × Serves s' p (cs ++ c ∷ [])
  k_put_queues c room =
      subst (λ o. (o.1 ≡ returned 0) × Serves o.0 p (cs ++ c ∷ [])) (sym (k_put_runs c room))
        (refl, k_put-Serves c room)

  -- If the buffer at `p` holds 256 characters, its semaphores are three and count them, and nobody
  -- waits, then the thread that runs kPut is suspended there, and every buffer is as it was.
  pub k_put_full :
      (c : ℕ)
      → length cs ≡ capacity
      → let (s', r) = exec (k_put p c) s in
        ((rest : Program) × (r ≡ suspended rest)) × (s'.buffers ≡ s.buffers)
  k_put_full c full =
      subst (λ o. ((rest : Program) × (o.1 ≡ suspended rest)) × (o.0.buffers ≡ s.buffers))
        (sym (k_put_suspends c full)) ((_, refl), refl)

module _ (s : System) (p : Ptr) (c : ℕ) (cs : List ℕ) (q : Serves s p (c ∷ cs)) where
  abbrev after_get : System
  after_get =
      let b = s.buffers p in
      at_buffer (with_kernel s (passed s.kernel b.sem_get b.mutex b.sem_put)) p (λ b. (get b).0)

  k_get_runs : exec (k_get p) s ≡ (after_get, returned c)
  unfolding k_get exec signal_at get
  k_get_runs =
      let b = s.buffers p in
      let self : (p == p) ≡ true = ground arith in
      let k1 = taken s.kernel b.sem_get 1 in
      let c1 = wait_open-Changes s.kernel b.sem_get _ 1 q.characters in
      let m1 =
        IsOpen-frame s.kernel k1 b.mutex 1 (c1.others b.mutex (λ e. q.get_mutex (sym e)))
          q.unlocked in
      runs_on s (λ s. (s.buffers p).sem_get) 1 (wait_at (λ s. (s.buffers p).mutex) 1 (fetch p)) k1 _
        (wait_open s.kernel b.sem_get _ 1 q.characters (omega arith))
      ∙ (runs_on (with_kernel s k1) (λ s. (s.buffers p).mutex) 1 (fetch p) (taken k1 b.mutex 1) _
            (wait_open k1 b.mutex 1 1 m1 (omega arith))
          ∙ rw self (ap (λ r. (after_get, returned r)) (get-Holds b c cs q.holds).0))

  k_get-Serves : Serves after_get p cs
  unfolding get
  k_get-Serves =
      let b = s.buffers p in
      let self : (p == p) ≡ true = ground arith in
      let moved =
        passed-Passes s.kernel b.sem_get b.mutex b.sem_put _ _ q.get_mutex q.put_mutex
          (λ e. q.put_get (sym e)) q.characters q.unlocked q.places (omega arith) in
      let more : capacity - suc (length cs) + 1 ≡ capacity - length cs =
        omega (arith, q.holds.fits) in
      let one : suc (length cs) - 1 ≡ length cs = omega arith in
      record {
        holds = rw self (get-Holds b c cs q.holds).1;
        places = rw (self, ← more) moved.to;
        characters = rw (self, ← one) moved.from;
        unlocked = rw self moved.mutex;
        put_mutex = rw self q.put_mutex;
        get_mutex = rw self q.get_mutex;
        put_get = rw self q.put_get;
      }

  -- If the buffer at `p` holds `c` and then `cs`, its semaphores are three, count its places and
  -- its characters, and nobody waits, then kGet returns `c` and leaves `cs`, with the semaphores
  -- counting again.
  pub k_get_queues : let (s', r) = exec (k_get p) s in (r ≡ returned c) × Serves s' p cs
  k_get_queues =
      subst (λ o. (o.1 ≡ returned c) × Serves o.0 p cs) (sym k_get_runs) (refl, k_get-Serves)
