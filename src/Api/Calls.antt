-- ===== src/Api/Calls.antt =====
-- System calls from the interface to the handler and back.
use os1_proj.Prelude.{
  ℕ, suc, ◌-◌, ◌<◌, ◌≡◌, refl, ap, ◌∙◌, false, word, ◌+w◌, arith, ◌≢◌, ◌%◌, ◌≤◌, ==_false, sym,
  subst, ◌-w◌, Bool-cases, inl, inr, ◌==◌,
}
use os1_proj.Memory.{round_up, block}
use os1_proj.Memory.Manager
use os1_proj.Memory.Manager.{Manager, Owner, unused, user}
use os1_proj.Memory.Manager.Layout.{Layout, IsCoalesced, same}
use os1_proj.Memory.Manager.State.{Represents}
use os1_proj.Memory.Manager.RoundTrip.{mem_free-mem_alloc}
use os1_proj.Registers.{r_scause, r_sepc, w_sepc, r_sstatus, w_sstatus, r_a0, w_a0, r_a1, w_a1}
use os1_proj.Threads.{Ptr, null, Mode, Kernel, at_tcb}
use os1_proj.System.{System, returned, exec, and_then}
use os1_proj.System.Handlers.{irr, at_once, handle_mem_alloc, handle_mem_free, ret_void}
use os1_proj.System.Trap.{
  trap, enter, leave, serve_cause, dispatch, interrupt_ecall_user, interrupt_ecall_system,
}
use os1_proj.Api.{syscall, mem_alloc, mem_free, to_int, uint}

-- The cause of an `ecall`, by the mode that it comes from.
abbrev pub ecall_from : Mode → ℕ
ecall_from Mode.user = interrupt_ecall_user
ecall_from Mode.system = interrupt_ecall_system

-- The state behind an `ecall` that was served by the memory manager: `m`, a0 and a1 are what the call
-- leaves there, and the rest is as it was.
abbrev pub answered : (mode : Mode) → (pc a0 a1 : ℕ) → Manager → System → System
answered mode pc a0 a1 m s = record s {
  memory = m;
  registers = record s.registers { scause = ecall_from mode; sepc = pc +w 4; a0 = a0; a1 = a1 };
  in_interrupt = false;
}

-- The level of a thread, one up and one down.
abbrev up_down : Kernel → Ptr → Kernel
up_down k t =
    at_tcb (at_tcb k t (λ b. record b { system_level_counter = b.system_level_counter +w 1 })) t
      (λ b. record b { system_level_counter = b.system_level_counter -w 1 })

up_down_tcb :
    (k : Kernel) (t x : Ptr) → (k.tcb x).system_level_counter < word → (up_down k t).tcb x ≡ k.tcb x
up_down_tcb k t x b =
    let n = (k.tcb x).system_level_counter in
    let back : (n +w 1) -w 1 ≡ n = omega (arith, b) in
    elim (Bool-cases (x == t)) [
      | inl e ↦ rw e (ap (λ l. record (k.tcb x) { system_level_counter = l }) back)
      | inr e ↦ rw e refl
    ]

up_down_same :
    (k : Kernel) (t : Ptr) → ((x : Ptr) → (k.tcb x).system_level_counter < word) → up_down k t ≡ k
up_down_same k t b = λ i. record k { tcb = λ x. up_down_tcb k t x (b x) i }

-- A call of mem_alloc returns what MemoryManager::memAlloc_ returns to it for the bytes in blocks,
-- rounded up, in a0 too, and leaves the manager as that does; it returns behind the `ecall`, in the
-- mode that it came from, outside of the interrupt, and the whole kernel, the buffers, the callers'
-- words and strings and the other registers are as they were, as long as the levels of the threads
-- are below 2 ^ 64.
pub mem_alloc_call :
    (mode : Mode) (pc size : ℕ) (s : System)
    → ((x : Ptr) → (s.kernel.tcb x).system_level_counter < word)
    → let (m, p) = Manager.mem_alloc s.memory Owner.user (round_up size block) in
      exec (mem_alloc (ecall_from mode) pc size) s
      ≡ (answered mode pc p (round_up size block) m s, returned p)
unfolding exec mem_alloc syscall trap enter leave serve_cause dispatch irr ret_void at_once
    handle_mem_alloc and_then r_scause r_sepc w_sepc r_sstatus w_sstatus r_a0 w_a0 r_a1 w_a1
mem_alloc_call Mode.user pc size s b =
    let (m, p) = Manager.mem_alloc s.memory Owner.user (round_up size block) in
    ap
      (λ k. (record (answered Mode.user pc p (round_up size block) m s) { kernel = k }, returned p))
      (up_down_same s.kernel s.kernel.running b)
mem_alloc_call Mode.system pc size s b =
    let (m, p) = Manager.mem_alloc s.memory Owner.user (round_up size block) in
    ap
      (λ k.
        (record (answered Mode.system pc p (round_up size block) m s) { kernel = k }, returned p))
      (up_down_same s.kernel s.kernel.running b)

-- The same for a call of mem_free on an address that is not null, whose result is an int.
pub mem_free_call :
    (mode : Mode) (pc : ℕ) (p : Ptr) (s : System)
    → p ≢ null
    → ((x : Ptr) → (s.kernel.tcb x).system_level_counter < word)
    → let (m, e) = Manager.mem_free s.memory Owner.user p in
      exec (mem_free (ecall_from mode) pc p) s ≡ (answered mode pc e p m s, returned (e % uint))
unfolding exec mem_free to_int syscall trap enter leave serve_cause dispatch irr ret_void at_once
    handle_mem_free and_then r_scause r_sepc w_sepc r_sstatus w_sstatus r_a0 w_a0 r_a1 w_a1
mem_free_call Mode.user pc p s n b =
    let (m, e) = Manager.mem_free s.memory Owner.user p in
    rw (==_false p null n) (
      ap (λ k. (record (answered Mode.user pc e p m s) { kernel = k }, returned (e % uint)))
        (up_down_same s.kernel s.kernel.running b))
mem_free_call Mode.system pc p s n b =
    let (m, e) = Manager.mem_free s.memory Owner.user p in
    rw (==_false p null n) (
      ap (λ k. (record (answered Mode.system pc e p m s) { kernel = k }, returned (e % uint)))
        (up_down_same s.kernel s.kernel.running b))

few_blocks : (size : ℕ) → size ≤ word - block → suc (round_up size block) < word
unfolding round_up
few_blocks size small = omega (arith, small)

-- If the manager stands for a coalesced layout, then a program that calls mem_alloc for up to 2 ^
-- 64 - 64 bytes and is not given null gets 0 when it calls mem_free on what it was given, and the
-- manager stands for that layout again, as long as the levels of the threads are below 2 ^ 64.
pub mem_free_call-mem_alloc :
    (mode : Mode) (pc pc' size : ℕ) (s : System) (ts : Layout)
    → size ≤ word - block
    → ((x : Ptr) → (s.kernel.tcb x).system_level_counter < word)
    → Represents s.memory ts
    → IsCoalesced ts
    → (Manager.mem_alloc s.memory Owner.user (round_up size block)).1 ≢ null
    → let p = (Manager.mem_alloc s.memory Owner.user (round_up size block)).1 in
      let (s1, r1) = exec (mem_alloc (ecall_from mode) pc size) s in
      let (s2, r2) = exec (mem_free (ecall_from mode) pc' p) s1 in
      (r1 ≡ returned p) × (r2 ≡ returned 0) × Represents s2.memory ts
unfolding same
mem_free_call-mem_alloc mode pc pc' size s ts small b r ic given =
    let blocks = round_up size block in
    let (m, p) = Manager.mem_alloc s.memory Owner.user blocks in
    let e = mem_alloc_call mode pc size s b in
    let s1 = answered mode pc p blocks m s in
    let freed = mem_free_call mode pc' p s1 given b in
    let (restored, zero) =
      mem_free-mem_alloc s.memory Owner.user blocks ts refl (few_blocks size small) r ic given in
    subst
      (λ o.
        (o.1 ≡ returned p)
        × ((exec (mem_free (ecall_from mode) pc' p) o.0).1 ≡ returned 0)
        × Represents (exec (mem_free (ecall_from mode) pc' p) o.0).0.memory ts)
      (sym e)
      (
        refl,
        ap (λ o. o.1) freed ∙ ap (λ n. returned (n % uint)) zero,
        subst (λ m. Represents m ts) (sym (ap (λ o. o.0.memory) freed)) restored,
      )
