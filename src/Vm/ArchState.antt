-- ===== src/Vm/ArchState.antt =====
-- src/arch/aarch64/vcpu_arch_state.rs: the registers of the processor that belong to a vCPU.
use hypervisor.Prelude.{ℕ, ◌*◌, ◌-◌, ◌^◌, List, replicate, bit_and, bit_or}

-- `NUM_LRS`.
abbrev pub num_lrs : ℕ
num_lrs = 4

pub record VcpuArchState : Type 0 where
  pub ich_lr : List ℕ
  pub ich_vmcr : ℕ
  pub ich_hcr : ℕ
  pub cntv_ctl : ℕ
  pub cntv_cval : ℕ
  pub vmpidr : ℕ
  pub sctlr_el1 : ℕ
  pub ttbr0_el1 : ℕ
  pub ttbr1_el1 : ℕ
  pub tcr_el1 : ℕ
  pub mair_el1 : ℕ
  pub vbar_el1 : ℕ
  pub cpacr_el1 : ℕ
  pub contextidr_el1 : ℕ
  pub tpidr_el1 : ℕ
  pub tpidrro_el0 : ℕ
  pub tpidr_el0 : ℕ
  pub par_el1 : ℕ
  pub cntkctl_el1 : ℕ
  pub sp_el1 : ℕ
  pub elr_el1 : ℕ
  pub spsr_el1 : ℕ
  pub afsr0_el1 : ℕ
  pub afsr1_el1 : ℕ
  pub esr_el1 : ℕ
  pub far_el1 : ℕ
  pub amair_el1 : ℕ
  pub mdscr_el1 : ℕ
  pub sp_el0 : ℕ
  pub apia_key_lo : ℕ
  pub apia_key_hi : ℕ
  pub apib_key_lo : ℕ
  pub apib_key_hi : ℕ
  pub apda_key_lo : ℕ
  pub apda_key_hi : ℕ
  pub apdb_key_lo : ℕ
  pub apdb_key_hi : ℕ
  pub apga_key_lo : ℕ
  pub apga_key_hi : ℕ

unfoldable pub new : VcpuArchState
new = record {
  ich_lr = replicate num_lrs 0;
  ich_vmcr = 0;
  ich_hcr = 0;
  cntv_ctl = 0;
  cntv_cval = 0;
  vmpidr = 0;
  sctlr_el1 = 0;
  ttbr0_el1 = 0;
  ttbr1_el1 = 0;
  tcr_el1 = 0;
  mair_el1 = 0;
  vbar_el1 = 0;
  cpacr_el1 = 0;
  contextidr_el1 = 0;
  tpidr_el1 = 0;
  tpidrro_el0 = 0;
  tpidr_el0 = 0;
  par_el1 = 0;
  cntkctl_el1 = 0;
  sp_el1 = 0;
  elr_el1 = 0;
  spsr_el1 = 0;
  afsr0_el1 = 0;
  afsr1_el1 = 0;
  esr_el1 = 0;
  far_el1 = 0;
  amair_el1 = 0;
  mdscr_el1 = 0;
  sp_el0 = 0;
  apia_key_lo = 0;
  apia_key_hi = 0;
  apib_key_lo = 0;
  apib_key_hi = 0;
  apda_key_lo = 0;
  apda_key_hi = 0;
  apdb_key_lo = 0;
  apdb_key_hi = 0;
  apga_key_lo = 0;
  apga_key_hi = 0;
}

-- `mpidr` is the register of this processor.
unfoldable pub init_for_vcpu : (mpidr : ℕ) → VcpuArchState → (vcpu_id : ℕ) → VcpuArchState
init_for_vcpu mpidr a vcpu_id = record a {
  vmpidr = bit_or (bit_and mpidr (2 ^ 64 - 1 - 0xFF)) (bit_and vcpu_id 0xFF);
  ich_hcr = bit_or (2 ^ 13) 1;
  ich_vmcr = bit_or (0xFF * 2 ^ 24) (2 ^ 1);
  ich_lr = replicate num_lrs 0;
  cntv_ctl = 0;
  cntv_cval = 0;
}

-- `save`: every register but the identity is read from the processor, whose registers are `live`.
unfoldable pub save : (live : VcpuArchState) → VcpuArchState → VcpuArchState
save live a = record live { vmpidr = a.vmpidr }

-- `restore`: every register is written to the processor.
unfoldable pub restore : VcpuArchState → VcpuArchState
restore a = a
