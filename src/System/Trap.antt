-- ===== src/System/Trap.antt =====
-- Kernel::handleSupervisorTrap of src/kernel.cpp, and the start and the end of the system in
-- src/main.cpp.
use os1_proj.Prelude.{
  ℕ, ◌+◌, ◌^◌, true, false, ◌||◌, none, some, ◌==◌, if◌then◌else◌, ltb, ◌+w◌, ◌-w◌, leb,
}
use os1_proj.Registers.{
  r_scause, r_sepc, r_sstatus, r_a0, r_a1, w_a0, w_a1, w_sstatus, w_sepc, mc_sip, sip_ssip, w_stvec,
  ms_sstatus, mc_sstatus, sstatus_sie,
}
use os1_proj.Memory.Manager
use os1_proj.Threads.{Ptr, null, Mode, at_tcb, close_ready}
use os1_proj.Threads.Sync.{returns, resumes, timer}
use os1_proj.Threads.Blocking.{wake_up_all}
use os1_proj.Threads.Calls.{finish}
use os1_proj.System.{System, Program, done, change, read, call, with_kernel, and_then}
use os1_proj.System.Create.{
  Start, thread_create, semaphore_delete_all, thread_delete_all, default_time_slice,
}
use os1_proj.System.Console.{io_init}
use os1_proj.System.Handlers.{irr, ret_void}

-- INTERRUPT_TIMER, INTERRUPT_EXTERNAL, INTERRUPT_ECALL_USER and INTERRUPT_ECALL_SYSTEM
abbrev pub interrupt_timer : ℕ
interrupt_timer = 2 ^ 63 + 1

abbrev pub interrupt_external : ℕ
interrupt_external = 2 ^ 63 + 9

abbrev pub interrupt_ecall_user : ℕ
interrupt_ecall_user = 8

abbrev pub interrupt_ecall_system : ℕ
interrupt_ecall_system = 9

abbrev pub console_irq : ℕ
console_irq = 10

abbrev set_level : (ℕ → ℕ) → System → System
set_level f s = with_kernel s (
    at_tcb s.kernel s.kernel.running
      (λ b. record b { system_level_counter = f b.system_level_counter }))

-- The first two lines of the trap.
unfoldable pub enter : System → System
enter s = set_level (λ n. n +w 1) (record s { in_interrupt = true })

-- The registers that the trap saves when it begins.
pub record Frame : Type 0 where
  pub sepc : ℕ
  pub sstatus : ℕ
  pub saved_a0 : ℕ
  pub saved_a1 : ℕ

-- The last lines of the trap, on the thread that has come back.
unfoldable pub leave : Frame → System → System
leave f s =
    let r = w_sepc (w_sstatus (w_a0 (w_a1 s.registers f.saved_a1) f.saved_a0) f.sstatus) f.sepc in
    record (set_level (λ n. n -w 1) (record s { registers = r })) { in_interrupt = false }

-- The case of the two system calls: the value is what a0 holds afterwards.
unfoldable pub dispatch : (saved_a0 a0 a1 a2 a3 a4 : ℕ) → Program
unfolding irr ret_void
dispatch saved_a0 a0 a1 a2 a3 a4 =
    if ltb a0 0x80
    then elim (irr a0 a1 a2 a3 a4) [
      | none ↦ done (λ s. saved_a0)
      | some p ↦ and_then p (λ ret. done (λ s. if ret_void a0 then saved_a0 else ret))
    ]
    else done (λ s. saved_a0)

-- The case of the timer; `resumes` if the time slice is over, and another thread runs.
unfoldable pub tick : Program
tick =
    change (λ s. record s { registers = mc_sip s.registers sip_ssip })
      (call
        (λ k.
          let over = leb (k.tcb k.running).time_slice (k.time_slice_counter +w 1) in
          (timer k, if over then resumes 0 else returns 0))
        (λ r. done (λ s. r)))

-- The case of the console: `irq` is what plic_claim returns.
unfoldable pub console_interrupt : (irq : ℕ) → System → System
console_interrupt irq s =
    if irq == console_irq then record s { input_pass = true; output_pass = true } else s

-- The switch of the trap, by its cause; the last case stops the thread.
unfoldable pub serve_cause : (scause irq saved_a0 a0 a1 a2 a3 a4 : ℕ) → Program
unfolding dispatch tick console_interrupt
serve_cause scause irq saved_a0 a0 a1 a2 a3 a4 =
    if (scause == interrupt_ecall_user) || (scause == interrupt_ecall_system)
    then dispatch saved_a0 a0 a1 a2 a3 a4
    else if scause == interrupt_timer
    then and_then tick (λ r. done (λ s. saved_a0))
    else if scause == interrupt_external
    then change (console_interrupt irq) (done (λ s. saved_a0))
    else call (λ k. (finish k (0 -w scause), resumes 0)) (λ r. done (λ s. saved_a0))

-- Kernel::handleSupervisorTrap. Its value is what a0 holds when the thread goes on.
unfoldable pub trap : (irq a0 a1 a2 a3 a4 : ℕ) → Program
unfolding enter serve_cause leave
trap irq a0 a1 a2 a3 a4 = change enter (
    read (λ s. r_sepc s.registers)
      (λ sepc.
        read (λ s. r_sstatus s.registers)
          (λ sstatus.
            read (λ s. r_a0 s.registers)
              (λ saved_a0.
                read (λ s. r_a1 s.registers)
                  (λ saved_a1.
                    read (λ s. r_scause s.registers)
                      (λ scause. and_then (serve_cause scause irq saved_a0 a0 a1 a2 a3 a4) (λ a.
                        change
                          (leave (record {
                            sepc =
                                if (scause == interrupt_ecall_user)
                                  || (scause == interrupt_ecall_system)
                                then sepc +w 4
                                else sepc;
                            sstatus = sstatus;
                            saved_a0 = a;
                            saved_a1 = saved_a1;
                          }))
                          (done (λ s. a)))))))))

abbrev start_at : (body : Ptr) → Start
start_at body = record {
  body = body;
  arg = 0;
  mode = Mode.system;
  user_stack_space = null;
  time_slice = default_time_slice;
}

-- Kernel::init; the table is `irr`.
unfoldable pub kernel_init : (supervisor_trap : Ptr) → System → System
kernel_init supervisor_trap s =
    let s1 = record s { registers = w_stvec s.registers supervisor_trap } in
    let (s2, master) = thread_create s1 (start_at null) true in record s2 { master = master }

-- Scheduler::init
unfoldable pub scheduler_init : (spin : Ptr) → System → System
scheduler_init spin s =
    let (s1, idle) = thread_create s (start_at spin) false in
    with_kernel s1 (record s1.kernel { idle = idle })

-- "system initialization" in main; `code` holds the addresses of the functions.
pub record Code : Type 0 where
  pub supervisor_trap : Ptr
  pub spin : Ptr
  pub input_routine : Ptr
  pub output_routine : Ptr

unfoldable pub start_system : (heap_start_addr heap_end_addr : ℕ) → Code → System → System
unfolding kernel_init scheduler_init
start_system heap_start_addr heap_end_addr code s =
    let s1 = record s { memory = Manager.init s.memory.heap heap_start_addr heap_end_addr } in
    let s2 = kernel_init code.supervisor_trap s1 in
    let s3 = with_kernel s2 (record s2.kernel { running = s2.master }) in
    let s4 = io_init code.input_routine code.output_routine (scheduler_init code.spin s3) in
    record s4 { registers = ms_sstatus s4.registers sstatus_sie }

-- "system closing" in main, from the interrupts on. `objects` bounds the loops.
unfoldable pub close_system : (objects : ℕ) → System → System
close_system objects s =
    let s1 = record s { registers = mc_sip (mc_sstatus s.registers sstatus_sie) sip_ssip } in
    let s2 = semaphore_delete_all objects s1 in
    let s3 = with_kernel s2 (close_ready objects (wake_up_all objects s2.kernel)) in
    thread_delete_all objects s3
