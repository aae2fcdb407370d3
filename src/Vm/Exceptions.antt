-- ===== src/Vm/Exceptions.antt =====
-- src/arch/aarch64/hypervisor/exception.rs: the traps of system registers, and what a synchronous
-- exception of a guest leads to. The dumps to the console are left out.
use hypervisor.Prelude.{
  ℕ, ◌+◌, ◌*◌, ◌/◌, ◌%◌, ◌^◌, Bool, true, false, Option, none, some, List, [], ◌∷◌, Result, ok, err,
  bit_and, bit_or, ltb, ◌==◌, ◌&&◌, ◌||◌, if◌then◌else◌,
}
use hypervisor.Arch.Regs.{
  VcpuContext, get_reg, set_reg, advance_pc, ExitReason, unknown, wfi_wfe, hvc_call, smc_call,
  trap_msr_mrs, instruction_abort, data_abort, other, exit_reason,
}
use hypervisor.Arch.Abort.{handle_mmio_abort}
use hypervisor.Ffa.Descriptors.{Bytes}
use hypervisor.Ffa.Proxy.State.{Regs, Proxy}
use hypervisor.Devices.Virtio.Queue.{Stop}
use hypervisor.Devices.Board.{Device, Board, Platform, devices}
use hypervisor.Vm.Vcpu.{Processor}
use hypervisor.Vm.Global.{VmGlobalState}
use hypervisor.Vm.Machine.{World, vm_state, with_state, devices_of, with_devices, inject_spis}
use hypervisor.Vm.Pending.{flush_pending_spis_to_hardware}
use hypervisor.Vm.Psci.{handle_hypercall, handle_smc}
use hypervisor.Vm.Traps.{WfiState, handle_sgi_trap, handle_wfi_with_timer_injection, multi_vcpu}

-- Op0, Op1, CRn, CRm and Op2 of a register.
abbrev pub SysReg : Type 0
SysReg = ℕ × ℕ × ℕ × ℕ × ℕ

abbrev pub is_reg : SysReg → SysReg → Bool
is_reg (a, b, c, d, e) (a', b', c', d', e') = a == a' && b == b' && c == c' && d == d' && e == e'

-- MDSCR_EL1 is read, OSLSR_EL1 reports an unlocked lock, and the others read as zero.
unfoldable pub emulate_mrs : SysReg → Processor → ℕ
emulate_mrs r p =
    if is_reg r (2, 0, 0, 2, 2)
    then p.live.mdscr_el1
    else (if is_reg r (2, 0, 1, 1, 4) then 2 ^ 3 else 0)

-- ICC_SGI1R_EL1 sends an SGI, MDSCR_EL1 is written, and the others have no effect on the state here.
unfoldable pub emulate_msr :
    SysReg → (value : ℕ) → Processor → VmGlobalState → Processor × VmGlobalState
emulate_msr r value p g =
    let sent = handle_sgi_trap p.vtr value p.live.ich_lr g in
    if is_reg r (3, 0, 12, 11, 5)
    then (record p { live = record p.live { ich_lr = sent.0 } }, sent.1)
    else (if is_reg r (2, 0, 0, 2, 2)
        then (record p { live = record p.live { mdscr_el1 = value } }, g)
        else (p, g))

abbrev pub sys_reg : (iss : ℕ) → SysReg
sys_reg iss = (
  bit_and (iss / 2 ^ 20) 0x3,
  bit_and (iss / 2 ^ 14) 0x7,
  bit_and (iss / 2 ^ 10) 0xF,
  bit_and (iss / 2 ^ 1) 0xF,
  bit_and (iss / 2 ^ 17) 0x7,
)

unfoldable pub handle_msr_mrs_trap :
    (esr : ℕ) → VcpuContext → Processor → VmGlobalState → VcpuContext × Processor × VmGlobalState
unfolding emulate_mrs emulate_msr
handle_msr_mrs_trap esr c p g =
    let iss = bit_and esr 0x1FFFFFF in
    let rt = bit_and (iss / 2 ^ 5) 0x1F in
    let read = emulate_mrs (sys_reg iss) p in
    let written = emulate_msr (sys_reg iss) (if ltb rt 31 then get_reg c.gp_regs rt else 0) p g in
    if bit_and iss 1 == 1
    then ((if ltb rt 31 then record c { gp_regs = set_reg c.gp_regs rt read } else c), p, g)
    else (c, written.0, written.1)

-- What the handlers keep: the processor, the VMs, the proxy, the counters, and the characters that
-- were printed, the last one first.
pub record Handlers : Type 0 where
  pub processor : Processor
  pub world : World
  pub proxy : Proxy
  pub wfi : WfiState
  pub exception_count : ℕ
  pub printed : List ℕ

-- What ends the code: a device that stops it, or too many exceptions in a row.
pub data Halt : Type 0 where
  stopped : Stop → Halt
  too_many : Halt

-- Whether the guest goes on, its registers, and the state of the handlers.
abbrev pub Trapped : Type 0
Trapped = Bool × VcpuContext × Handlers

abbrev pub current_vm_state : World → VmGlobalState
current_vm_state w = vm_state w w.current_vm_id

abbrev pub with_current : World → VmGlobalState → World
with_current w g = with_state w w.current_vm_id g

abbrev pub reset_exception_count : Handlers → Handlers
reset_exception_count s = record s { exception_count = 0 }

abbrev print : Option ℕ → List ℕ → List ℕ
print none cs = cs
print (some ch) cs = ch ∷ cs

unfoldable pub on_wfi : VcpuContext → Handlers → Trapped
on_wfi c s =
    let out = handle_wfi_with_timer_injection c.pc s.wfi s.processor in
    let after = record s { wfi = out.1; processor = out.2 } in
    if multi_vcpu (current_vm_state s.world).vcpu_online_mask
    then (false, advance_pc c, after)
    else (if out.0 then (true, advance_pc c, after) else (false, c, after))

unfoldable pub on_hvc : (input : Option ℕ) → VcpuContext → Handlers → Trapped
on_hvc input c s =
    let out = handle_hypercall input c (current_vm_state s.world) in
    (out.0, out.1, record s { world = with_current s.world out.2; printed = print out.3 s.printed })

-- The proxy with the current VM, its tables, and the memory of the machine.
abbrev pub proxy_of : Handlers → Proxy
proxy_of s = record s.proxy {
  vm = s.world.current_vm_id;
  vttbr = bit_and s.processor.vttbr_el2 0x0000FFFFFFFFF000;
  ram = s.world.board.machine.ram;
}

abbrev with_ram : World → Bytes → World
with_ram w ram = record w {
  board = record w.board { machine = record w.board.machine { ram = ram } };
}

unfoldable pub on_smc : (smc : Regs → Regs) → VcpuContext → Handlers → Trapped
on_smc smc c s =
    let out = handle_smc smc c (current_vm_state s.world) (proxy_of s) in
    (
      out.0,
      advance_pc out.1,
      record s { world = with_ram (with_current s.world out.2) out.3.ram; proxy = out.3 },
    )

unfoldable pub on_msr_mrs : VcpuContext → Handlers → Trapped
on_msr_mrs c s =
    let out = handle_msr_mrs_trap c.sys_regs.esr_el2 c s.processor (current_vm_state s.world) in
    (true, advance_pc out.0, record s { processor = out.1; world = with_current s.world out.2 })

abbrev quiet : Board → Board
quiet b = record b { machine = record b.machine { spis = [] } }

-- The devices of the current VM and the machine after an access; the interrupts that the devices
-- raised are pending.
abbrev pub after_access : World → List (Option Device) → Board → World
after_access w slots b =
    inject_spis (record (with_devices w w.current_vm_id slots) { board = quiet b }) b.machine.spis

abbrev pub flushed : Handlers → Handlers
flushed s =
    let g = current_vm_state s.world in
    let out =
      flush_pending_spis_to_hardware s.processor.vtr g.current_vcpu_id s.processor.live.ich_lr g in
    record s {
      processor = record s.processor { live = record s.processor.live { ich_lr = out.0 } };
      world = with_current s.world out.1;
    }

abbrev pub aborted :
    Handlers → Result Stop (Bool × VcpuContext × List (Option Device) × Board) → Result Halt Trapped
aborted s (err e) = err (stopped e)
aborted s (ok (false, c, slots, b)) =
    ok (false, c, record s { world = after_access s.world slots b })
aborted s (ok (true, c, slots, b)) = ok (
  true,
  advance_pc c,
  flushed (reset_exception_count (record s { world = after_access s.world slots b })),
)

-- The guest physical address, out of HPFAR_EL2 and FAR_EL2.
abbrev pub fault_address : (hpfar far : ℕ) → ℕ
fault_address hpfar far = bit_or (bit_and hpfar 0x00000FFFFFFFFFF0 * 2 ^ 8) (bit_and far 0xFFF)

unfoldable pub on_data_abort : Platform → (hpfar : ℕ) → VcpuContext → Handlers → Result Halt Trapped
on_data_abort platform hpfar c s =
    let w = s.world in
    aborted s (
      handle_mmio_abort (devices platform) (devices_of w w.current_vm_id) (quiet w.board)
        w.board.machine.ram c (fault_address hpfar c.sys_regs.far_el2))

abbrev pub max_consecutive_exceptions : ℕ
max_consecutive_exceptions = 100

module _ (platform : Platform) (smc : Regs → Regs) (input : Option ℕ) (hpfar : ℕ) where
  unfoldable pub handle_reason : ExitReason → VcpuContext → Handlers → Result Halt Trapped
  unfolding on_wfi on_hvc on_smc on_msr_mrs on_data_abort
  handle_reason wfi_wfe c s = ok (on_wfi c (reset_exception_count s))
  handle_reason hvc_call c s = ok (on_hvc input c (reset_exception_count s))
  handle_reason smc_call c s = ok (on_smc smc c (reset_exception_count s))
  handle_reason trap_msr_mrs c s = ok (on_msr_mrs c (reset_exception_count s))
  handle_reason instruction_abort c s = ok (false, c, s)
  handle_reason data_abort c s = on_data_abort platform hpfar c s
  handle_reason (other ec) c s =
      if ec == 0x07 || ec == 0x09 || ec == 0x19
      then ok (true, advance_pc c, s)
      else ok (false, c, s)
  handle_reason unknown c s = ok (false, c, s)

  -- `esr` and `far` are the registers of the processor; the counter has 32 bits.
  unfoldable pub handle_exception : (esr far : ℕ) → VcpuContext → Handlers → Result Halt Trapped
  unfolding handle_reason
  handle_exception esr far c s =
      let c' = record c { sys_regs = record c.sys_regs { esr_el2 = esr; far_el2 = far } } in
      let count = (s.exception_count + 1) % 2 ^ 32 in
      if ltb max_consecutive_exceptions count
      then err too_many
      else handle_reason (exit_reason c') c' (record s { exception_count = count })
