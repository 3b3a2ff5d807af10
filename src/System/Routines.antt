-- ===== src/System/Routines.antt =====
-- The routines of the two threads that move characters between the console's registers and the
-- buffers, in src/io.cpp, where `pc` is the place at which a routine gives way; and TCB::threadWrapper.
use os1_proj.Prelude.{ℕ, not, false, ◌==◌, if◌then◌else◌}
use Prim.Native.Nat.{bit_and}
use os1_proj.Registers.{mc_sstatus, ms_sstatus, sstatus_spp}
use os1_proj.Threads.{Ptr, Mode}
use os1_proj.System.{System, Program, done, change, read, and_then}
use os1_proj.System.Console.{u_put, u_get}
use os1_proj.System.Trap.{interrupt_ecall_user, interrupt_ecall_system}
use os1_proj.Api.{thread_dispatch, thread_exit}

abbrev pub rx_status_bit : ℕ
rx_status_bit = 1

abbrev pub tx_status_bit : ℕ
tx_status_bit = 32

-- One round of the loops of IO::inputRoutine, given what the console's status and data
-- registers hold.
unfoldable pub input_round : (pc status data_in : ℕ) → System → Program
unfolding thread_dispatch u_put
input_round pc status data_in s =
    if not s.input_pass
    then thread_dispatch interrupt_ecall_system pc
    else (let ready = not (bit_and status rx_status_bit == 0) in
        change (λ t. record t { input_pass = ready })
          (if ready then u_put s.input_buffer data_in else done (λ t. 0)))

-- One round of the loops of IO::outputRoutine: its value is the character that is sent.
unfoldable pub output_round : (pc status : ℕ) → System → Program
unfolding thread_dispatch u_get
output_round pc status s =
    if not s.output_pass
    then thread_dispatch interrupt_ecall_system pc
    else (let ready = not (bit_and status tx_status_bit == 0) in
        change (λ t. record t { output_pass = ready })
          (if ready then u_get s.output_buffer (λ c. done (λ t. c)) else done (λ t. 0)))

-- The first lines of TCB::threadWrapper: the mode in which the thread goes on.
unfoldable pub choose_mode : System → System
choose_mode s = record s {
  registers = elim (s.kernel.tcb s.kernel.running).mode [
    | Mode.user ↦ mc_sstatus s.registers sstatus_spp
    | Mode.system ↦ ms_sstatus s.registers sstatus_spp
  ];
  in_interrupt = false;
}

-- TCB::threadWrapper, given what popSppSpie does, and the program of a body at an address on an
-- argument.
unfoldable pub thread_wrapper :
    (pop_spp_spie : System → System) → (body_at : Ptr → ℕ → Program) → (pc : ℕ) → Program
unfolding choose_mode thread_exit
thread_wrapper pop_spp_spie body_at pc = change choose_mode (
    change pop_spp_spie (
      read (λ s. (s.kernel.tcb s.kernel.running).body)
        (λ body.
          read (λ s. (s.kernel.tcb s.kernel.running).arg)
            (λ arg. and_then (body_at body arg) (λ r.
              read
                (λ s. elim (s.kernel.tcb s.kernel.running).mode [
                  | Mode.user ↦ interrupt_ecall_user
                  | Mode.system ↦ interrupt_ecall_system
                ])
                (λ cause. thread_exit cause pc))))))
