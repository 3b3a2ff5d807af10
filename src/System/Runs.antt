-- ===== src/System/Runs.antt =====
-- What `exec` does at a wait.
use os1_proj.Prelude.{ℕ, ◌≡◌, refl, ap}
use os1_proj.Threads.{Ptr, Kernel}
use os1_proj.Threads.Sync.{returns, resolves, wait}
use os1_proj.System.{System, Program, wait_at, suspended, exec, with_kernel}

-- A wait that does not block is followed by the rest of the program.
pub runs_on :
    (s : System) (at : System → Ptr) (n : ℕ) (p : Program) (k : Kernel) (r : ℕ)
    → wait s.kernel (at s) n ≡ (k, returns r)
    → exec (wait_at at n p) s ≡ exec p (with_kernel s k)
unfolding exec
runs_on s at n p k r e = rw (e, exec) (ap (λ o. exec p (with_kernel s o.0)) e)

pub exec_blocks :
    (s : System) (at : System → Ptr) (n : ℕ) (p : Program)
    → (wait s.kernel (at s) n).1 ≡ resolves
    → exec (wait_at at n p) s ≡ (with_kernel s (wait s.kernel (at s) n).0, suspended p)
unfolding exec
exec_blocks s at n p e = rw (e, exec) refl
