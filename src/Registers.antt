-- ===== src/Registers.antt =====
-- The registers that h/kernel.hpp reads and writes by inline assembly.
use os1_proj.Prelude.{ℕ, ◌-◌, word}
use Prim.Native.Nat.{bit_and, bit_or}

pub record Registers : Type 0 where
  pub scause : ℕ
  pub sepc : ℕ
  pub stvec : ℕ
  pub stval : ℕ
  pub sip : ℕ
  pub sstatus : ℕ
  pub a0 : ℕ
  pub a1 : ℕ
  pub ra : ℕ

-- csrs and csrc: the bits of the mask are set, or cleared.
abbrev pub with_bits : (register mask : ℕ) → ℕ
with_bits register mask = bit_or register mask

abbrev pub without_bits : (register mask : ℕ) → ℕ
without_bits register mask = bit_and register (word - 1 - mask)

-- BitMaskSip and BitMaskSstatus
abbrev pub sip_ssip : ℕ
sip_ssip = 2

abbrev pub sstatus_sie : ℕ
sstatus_sie = 2

abbrev pub sstatus_spie : ℕ
sstatus_spie = 32

abbrev pub sstatus_spp : ℕ
sstatus_spp = 256

unfoldable pub r_scause : Registers → ℕ
r_scause r = r.scause

unfoldable pub w_scause : Registers → ℕ → Registers
w_scause r scause = record r { scause = scause }

unfoldable pub r_sepc : Registers → ℕ
r_sepc r = r.sepc

unfoldable pub w_sepc : Registers → ℕ → Registers
w_sepc r sepc = record r { sepc = sepc }

unfoldable pub r_stvec : Registers → ℕ
r_stvec r = r.stvec

unfoldable pub w_stvec : Registers → ℕ → Registers
w_stvec r stvec = record r { stvec = stvec }

unfoldable pub r_stval : Registers → ℕ
r_stval r = r.stval

unfoldable pub w_stval : Registers → ℕ → Registers
w_stval r stval = record r { stval = stval }

unfoldable pub ms_sip : Registers → (mask : ℕ) → Registers
ms_sip r mask = record r { sip = with_bits r.sip mask }

unfoldable pub mc_sip : Registers → (mask : ℕ) → Registers
mc_sip r mask = record r { sip = without_bits r.sip mask }

unfoldable pub r_sip : Registers → ℕ
r_sip r = r.sip

unfoldable pub w_sip : Registers → ℕ → Registers
w_sip r sip = record r { sip = sip }

unfoldable pub ms_sstatus : Registers → (mask : ℕ) → Registers
ms_sstatus r mask = record r { sstatus = with_bits r.sstatus mask }

unfoldable pub mc_sstatus : Registers → (mask : ℕ) → Registers
mc_sstatus r mask = record r { sstatus = without_bits r.sstatus mask }

unfoldable pub r_sstatus : Registers → ℕ
r_sstatus r = r.sstatus

unfoldable pub w_sstatus : Registers → ℕ → Registers
w_sstatus r sstatus = record r { sstatus = sstatus }

unfoldable pub r_a0 : Registers → ℕ
r_a0 r = r.a0

unfoldable pub w_a0 : Registers → ℕ → Registers
w_a0 r a0_val = record r { a0 = a0_val }

unfoldable pub r_a1 : Registers → ℕ
r_a1 r = r.a1

unfoldable pub w_a1 : Registers → ℕ → Registers
w_a1 r a1_val = record r { a1 = a1_val }

unfoldable pub r_ra : Registers → ℕ
r_ra r = r.ra
