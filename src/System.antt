-- ===== src/System.antt =====
-- The kernel as a whole: the memory manager, the threads and the console buffers in one state, and
-- code that a context switch can interrupt.
pub mod Create
pub mod Console
pub mod Handlers
pub mod Trap
pub mod Routines
pub mod Runs
pub mod Messages
pub mod Tests
use os1_proj.Prelude.{ℕ, Bool, List}
use os1_proj.Memory.Manager.{Manager}
use os1_proj.Registers.{Registers}
use os1_proj.Threads.{Ptr, Kernel}
use os1_proj.Threads.Sync.{Outcome, returns, resumes, resolves, wait, timed_wait, resolve_manner}

-- CharBuffer of h/io.hpp
pub record CharBuffer : Type 0 where
  pub buffer : ℕ → ℕ
  pub pos_w : ℕ
  pub pos_r : ℕ
  pub sem_put : Ptr
  pub sem_get : Ptr
  pub mutex : Ptr

-- What the compiler's layout of the objects decides: their sizes in bytes, and the place of the
-- message in a TCB.
pub record Build : Type 0 where
  pub sizeof_tcb : ℕ
  pub sizeof_semaphore : ℕ
  pub sizeof_buffer : ℕ
  pub offset_message : ℕ

-- `words` is the memory of the callers, where handles are written, and `strings` the strings in it.
pub record System : Type 0 where
  pub memory : Manager
  pub kernel : Kernel
  pub buffers : Ptr → CharBuffer
  pub input_buffer : Ptr
  pub output_buffer : Ptr
  pub input_pass : Bool
  pub output_pass : Bool
  pub master : Ptr
  pub words : Ptr → Ptr
  pub strings : Ptr → List ℕ
  pub registers : Registers
  pub in_interrupt : Bool
  pub build : Build

-- Code of one thread, from one place where it may be interrupted to the next: a change of the state,
-- a value read from it, a wait at a semaphore, a wait with a timeout, or the end with a value.
pub data Program : Type 0 where
  done : (System → ℕ) → Program
  change : (System → System) → Program → Program
  read : (System → ℕ) → (ℕ → Program) → Program
  wait_at : (System → Ptr) → (tokens : ℕ) → Program → Program
  call : (Kernel → Kernel × Outcome) → (ℕ → Program) → Program

-- Where a program stands: it has returned, or the thread that runs it has been switched out, and goes
-- on with the rest when it runs again.
pub data Progress : Type 0 where
  returned : ℕ → Progress
  suspended : Program → Progress

-- What is left of a call behind the switch: a value, or what resolveManner says then.
unfoldable pub behind : Outcome → (ℕ → Program) → Program
behind (returns n) p = p n
behind (resumes n) p = p n
behind resolves p = read (λ s. resolve_manner s.kernel) p

abbrev pub with_kernel : System → Kernel → System
with_kernel s k = record s { kernel = k }

-- Runs a program up to its end or to the next switch.
unfoldable pub exec : Program → System → System × Progress
unfolding behind
exec (done f) s = (s, returned (f s))
exec (change f p) s = exec p (f s)
exec (read f p) s = exec (p (f s)) s
exec (wait_at at n p) s =
    let (k, o) = wait s.kernel (at s) n in
    elim o [ returns _ ↦ exec p (with_kernel s k) | _ ↦ (with_kernel s k, suspended p) ]
exec (call f p) s =
    let (k, o) = f s.kernel in
    elim o [
      | returns n ↦ exec (p n) (with_kernel s k)
      | resumes n ↦ (with_kernel s k, suspended (behind (resumes n) p))
      | resolves ↦ (with_kernel s k, suspended (behind resolves p))
    ]

-- One program after another, which is given the value of the first.
unfoldable pub and_then : Program → (ℕ → Program) → Program
and_then (done f) g = read f g
and_then (change f p) g = change f (and_then p g)
and_then (read f p) g = read f (λ n. and_then (p n) g)
and_then (wait_at at n p) g = wait_at at n (and_then p g)
and_then (call f p) g = call f (λ n. and_then (p n) g)
