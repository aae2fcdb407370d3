-- ===== src/Arch/Regs.antt =====
-- src/arch/aarch64/regs.rs: the registers of a vCPU and the reasons for an exit.
use hypervisor.Prelude.{
  ℕ, ◌+◌, ◌/◌, ◌%◌, ◌^◌, Bool, true, false, List, replicate, get_or, set, bit_and, ◌==◌, ◌||◌,
  if◌then◌else◌,
}

-- x0 to x30, in order.
abbrev pub GeneralPurposeRegs : Type 0
GeneralPurposeRegs = List ℕ

abbrev pub default_gp : GeneralPurposeRegs
default_gp = replicate 31 0

-- Register 31 and above read as 0 and ignore a write.
unfoldable pub get_reg : GeneralPurposeRegs → ℕ → ℕ
get_reg r reg = get_or r reg 0

unfoldable pub set_reg : GeneralPurposeRegs → ℕ → ℕ → GeneralPurposeRegs
set_reg r reg value = set r reg value

pub record SystemRegs : Type 0 where
  pub sp_el1 : ℕ
  pub elr_el1 : ℕ
  pub spsr_el1 : ℕ
  pub sctlr_el1 : ℕ
  pub ttbr0_el1 : ℕ
  pub ttbr1_el1 : ℕ
  pub tcr_el1 : ℕ
  pub mair_el1 : ℕ
  pub vbar_el1 : ℕ
  pub contextidr_el1 : ℕ
  pub tpidr_el1 : ℕ
  pub tpidrro_el0 : ℕ
  pub tpidr_el0 : ℕ
  pub esr_el2 : ℕ
  pub far_el2 : ℕ
  pub hcr_el2 : ℕ
  pub cntvoff_el2 : ℕ

abbrev pub default_sys : SystemRegs
default_sys = record {
  sp_el1 = 0;
  elr_el1 = 0;
  spsr_el1 = 0;
  sctlr_el1 = 0;
  ttbr0_el1 = 0;
  ttbr1_el1 = 0;
  tcr_el1 = 0;
  mair_el1 = 0;
  vbar_el1 = 0;
  contextidr_el1 = 0;
  tpidr_el1 = 0;
  tpidrro_el0 = 0;
  tpidr_el0 = 0;
  esr_el2 = 0;
  far_el2 = 0;
  hcr_el2 = 0;
  cntvoff_el2 = 0;
}

pub record VcpuContext : Type 0 where
  pub gp_regs : GeneralPurposeRegs
  pub sys_regs : SystemRegs
  pub sp : ℕ
  pub pc : ℕ
  pub spsr_el2 : ℕ

abbrev pub spsr_el1h : ℕ
spsr_el1h = 0x5

abbrev pub spsr_el1h_daif_masked : ℕ
spsr_el1h_daif_masked = 0x3C5

abbrev pub default_context : VcpuContext
default_context = record {
  gp_regs = default_gp;
  sys_regs = default_sys;
  sp = 0;
  pc = 0;
  spsr_el2 = spsr_el1h_daif_masked;
}

unfoldable pub new_context : ℕ → ℕ → VcpuContext
new_context entry_point stack_pointer = record default_context {
  pc = entry_point;
  sp = stack_pointer;
  sys_regs = record default_sys { sp_el1 = stack_pointer; spsr_el1 = spsr_el1h };
}

-- `AARCH64_INSN_SIZE` is 4; the addition wraps, as in a release build.
unfoldable pub advance_pc : VcpuContext → VcpuContext
advance_pc c = record c { pc = (c.pc + 4) % 2 ^ 64 }

-- Why a vCPU left the guest.
pub data ExitReason : Type 0 where
  unknown wfi_wfe hvc_call smc_call trap_msr_mrs instruction_abort data_abort : ExitReason
  other : ℕ → ExitReason

-- The exception class of a syndrome.
abbrev pub exception_class : ℕ → ℕ
exception_class esr = bit_and (esr / 2 ^ 26) 0x3F

unfoldable pub reason_of : ℕ → ExitReason
reason_of ec =
    if ec == 0x00
    then unknown
    else (if ec == 0x01
        then wfi_wfe
        else (if ec == 0x16
            then hvc_call
            else (if ec == 0x17
                then smc_call
                else (if ec == 0x18
                    then trap_msr_mrs
                    else (if ec == 0x20 || ec == 0x21
                        then instruction_abort
                        else (if ec == 0x24 || ec == 0x25 then data_abort else other ec))))))

unfoldable pub exit_reason : VcpuContext → ExitReason
unfolding reason_of
exit_reason c = reason_of (exception_class c.sys_regs.esr_el2)

unfoldable pub is_wfi : ExitReason → Bool
is_wfi wfi_wfe = true
is_wfi _ = false

unfoldable pub is_hypercall : ExitReason → Bool
is_hypercall hvc_call = true
is_hypercall _ = false

unfoldable pub is_data_abort : ExitReason → Bool
is_data_abort data_abort = true
is_data_abort _ = false

unfoldable pub is_instruction_abort : ExitReason → Bool
is_instruction_abort instruction_abort = true
is_instruction_abort _ = false
