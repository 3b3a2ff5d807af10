-- ===== src/Threads/Open.antt =====
-- Semaphores at which nobody waits.
use os1_proj.Prelude.{
  ℕ, suc, ◌+◌, ◌-◌, ◌≤◌, ◌<◌, ◌≡◌, ◌≢◌, refl, ap, ◌∙◌, true, false, ◌==◌, leb, word, ◌+w◌, arith,
}
use os1_proj.Threads.{Ptr, null, regular, Kernel, at_sem}
use os1_proj.Threads.Sync.{returns, resolves, wait, signal, signal_loop, set_manner, resolve_manner}

-- The semaphore is active, has `n` tokens, and nobody waits at it.
pub record IsOpen (k : Kernel) (this : Ptr) (n : ℕ) : Type 0 where
  pub active : (k.sem this).active ≡ true
  pub value : (k.sem this).value ≡ n
  pub nobody : (k.sem this).blocked_head ≡ null

-- What is left of the semaphores when one has changed its tokens.
pub record Changes (k : Kernel) (this : Ptr) (n : ℕ) (g : Kernel) : Type 0 where
  pub this_one : IsOpen g this n
  pub others : (x : Ptr) → x ≢ this → g.sem x ≡ k.sem x

pub IsOpen-frame :
    (k g : Kernel) (x : Ptr) (n : ℕ) → g.sem x ≡ k.sem x → IsOpen k x n → IsOpen g x n
IsOpen-frame k g x n e o = record {
  active = ap (λ s. s.active) e ∙ o.active;
  value = ap (λ s. s.value) e ∙ o.value;
  nobody = ap (λ s. s.blocked_head) e ∙ o.nobody;
}

abbrev pub taken : Kernel → Ptr → ℕ → Kernel
taken k this n =
    set_manner (at_sem k this (λ s. record s { value = s.value - n })) k.running regular

pub wait_open :
    (k : Kernel) (this : Ptr) (m n : ℕ)
    → IsOpen k this m
    → n ≤ m
    → wait k this n ≡ (taken k this n, returns (resolve_manner (taken k this n)))
unfolding wait
wait_open k this m n o le =
    let enough : leb n m ≡ true = ground arith in rw (o.active, o.value, enough) refl

pub wait_open-Changes :
    (k : Kernel) (this : Ptr) (m n : ℕ) → IsOpen k this m → Changes k this (m - n) (taken k this n)
wait_open-Changes k this m n o =
    let self : (this == this) ≡ true = ground arith in
    record {
      this_one = record {
        active = rw self o.active;
        value = rw self (ap (λ v. v - n) o.value);
        nobody = rw self o.nobody;
      };
      others = λ x d. ground arith;
    }

signal_loop_open :
    (fuel : ℕ) (k : Kernel) (this : Ptr) (n : ℕ)
    → (k.sem this).blocked_head ≡ null
    → signal_loop (suc fuel) k this n ≡ (k, n)
unfolding signal_loop
signal_loop_open fuel k this n e =
    let stop : ((k.sem this).blocked_head == null) ≡ true = ground (arith, e) in rw stop refl

pub signal_open :
    (k : Kernel) (this : Ptr) (m n : ℕ)
    → IsOpen k this m
    → (signal k this n).0 ≡ at_sem k this (λ s. record s { value = s.value +w n })
unfolding signal
signal_open k this m n o = rw (o.active, signal_loop_open (suc k.threads) k this n o.nobody) refl

pub signal_open-Changes :
    (k : Kernel) (this : Ptr) (m n : ℕ)
    → IsOpen k this m
    → m + n < word
    → Changes k this (m + n) (signal k this n).0
signal_open-Changes k this m n o b =
    let self : (this == this) ≡ true = ground arith in
    rw (signal_open k this m n o) (record {
      this_one = record {
        active = rw self o.active;
        value = rw (self, o.value) (omega arith);
        nobody = rw self o.nobody;
      };
      others = λ x d. ground arith;
    })

-- Too few tokens: the running thread waits for those that are missing.
pub wait_empty :
    (k : Kernel) (this : Ptr) (n : ℕ) → IsOpen k this 0 → 0 < n → (wait k this n).1 ≡ resolves
unfolding wait
wait_empty k this n o some =
    let few : leb n 0 ≡ false = ground arith in rw (o.active, o.value, few) refl
